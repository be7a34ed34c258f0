-- ===== src/Canonical.antt =====
-- src/follow_the_money/canonical.py and `validate_scalar_string` of unicode.py: JSON values, their
-- canonical order and the refusal of surrogates. An object is its members in insertion order.
use follow_the_money.Base.{
  ℕ, Bool, true, Option, none, some, ◌≡◌, List, [], ◌∷◌, not, any, ◌&&◌, leb, if◌then◌else◌, Result,
  ok, err,
}
use follow_the_money.Base.Order.{Str, str_order, str_leq, same}

-- `num` is a natural number, `other_num` the literal of another one.
mutual
  pub data Json : Type 0 where
    null : Json
    bool : Bool → Json
    num : ℕ → Json
    other_num : Str → Json
    str : Str → Json
    arr : Elements → Json
    obj : Members → Json

  pub data Elements : Type 0 where
    last : Elements
    element : Json → Elements → Elements

  pub data Members : Type 0 where
    end : Members
    member : Str → Json → Members → Members

-- `raw.get(name)`
unfoldable pub get_member : Str → Members → Option Json
get_member name end = none
get_member name (member key value rest) = if same key name then some value else get_member name rest

-- `set(raw)`, as a list.
unfoldable pub names : Members → List Str
names end = []
names (member key value rest) = key ∷ names rest

abbrev is_in : List Str → Str → Bool
is_in xs name = any (λ x. same x name) xs

-- `set(xs) <= set(ys)` and `set(xs) == set(ys)`
abbrev pub is_subset : List Str → List Str → Bool
is_subset xs ys = not (any (λ x. not (is_in ys x)) xs)

abbrev pub same_set : List Str → List Str → Bool
same_set xs ys = is_subset xs ys && is_subset ys xs

-- No object holds a name twice, which a Python dict cannot.
unfoldable mutual
  unfolding names

  pub is_distinct : Json → Bool
  is_distinct null = true
  is_distinct (bool _) = true
  is_distinct (num _) = true
  is_distinct (other_num _) = true
  is_distinct (str _) = true
  is_distinct (arr es) = are_distinct es
  is_distinct (obj ms) = members_distinct ms

  are_distinct : Elements → Bool
  are_distinct last = true
  are_distinct (element v es) = is_distinct v && are_distinct es

  members_distinct : Members → Bool
  members_distinct end = true
  members_distinct (member k v ms) =
      not (is_in (names ms) k) && (is_distinct v && members_distinct ms)

unfoldable pub is_scalar : Str → Bool
is_scalar s = not (any (λ c. leb 55296 c && leb c 57343) s)

-- The check of every text in a value.
unfoldable mutual
  unfolding is_scalar

  pub are_scalar : Json → Bool
  are_scalar null = true
  are_scalar (bool _) = true
  are_scalar (num _) = true
  are_scalar (other_num _) = true
  are_scalar (str s) = is_scalar s
  are_scalar (arr es) = elements_scalar es
  are_scalar (obj ms) = members_scalar ms

  elements_scalar : Elements → Bool
  elements_scalar last = true
  elements_scalar (element v es) = are_scalar v && elements_scalar es

  members_scalar : Members → Bool
  members_scalar end = true
  members_scalar (member k v ms) = is_scalar k && (are_scalar v && members_scalar ms)

unfoldable pub insert_member : Str → Json → Members → Members
insert_member k v end = member k v end
insert_member k v (member j w ms) =
    if str_leq k j then member k v (member j w ms) else member j w (insert_member k v ms)

unfoldable mutual
  unfolding insert_member

  pub ordered : Json → Json
  ordered null = null
  ordered (bool b) = bool b
  ordered (num n) = num n
  ordered (other_num s) = other_num s
  ordered (str s) = str s
  ordered (arr es) = arr (ordered_elements es)
  ordered (obj ms) = obj (ordered_members ms)

  ordered_elements : Elements → Elements
  ordered_elements last = last
  ordered_elements (element v es) = element (ordered v) (ordered_elements es)

  ordered_members : Members → Members
  ordered_members end = end
  ordered_members (member k v ms) = insert_member k (ordered v) (ordered_members ms)

-- What the code takes from Python's `json` and `hashlib`: `dumps` prints and encodes a value,
-- `dumps_ascii` prints it with escapes, and `loads` reads either back.
pub record Encoding : Type 1 where
  pub Bytes : Type 0
  pub dumps : Json → Bytes
  pub dumps_ascii : Json → Bytes
  pub loads : Bytes → Option Json
  pub size : Bytes → ℕ
  pub sha256 : Bytes → Str
  pub loads-dumps :
      (v : Json) → is_distinct v ≡ true → are_scalar v ≡ true → loads (dumps v) ≡ some v
  pub loads-dumps_ascii :
      (v : Json) → is_distinct v ≡ true → are_scalar v ≡ true → loads (dumps_ascii v) ≡ some v

pub data CanonicalError : Type 0 where
  not_scalar not_json : CanonicalError

module _ (e : Encoding) where
  unfoldable pub canonical_bytes : Json → Result CanonicalError e.Bytes
  unfolding ordered are_scalar
  canonical_bytes v = if are_scalar v then ok (e.dumps (ordered v)) else err not_scalar

  unfoldable pub load_canonical_json : e.Bytes → Result CanonicalError Json
  load_canonical_json data_bytes = elim (e.loads data_bytes) [ none ↦ err not_json | some v ↦ ok v ]
