-- ===== src/Base/Table/Entries.antt =====
-- An entry of a table that holds no key twice is found under its key; an insertion keeps keys.
use mathlib.Core.Path.{◌≡◌, refl, sym, ◌∙◌}
use mathlib.Core.Logic.{inl, inr}
use mathlib.Core.Bool.{Bool, true, false}
use mathlib.Core.Option.{some, some-injective}
use mathlib.Core.List.{List, [], ◌∷◌, Permᴰ}
use mathlib.Core.List.Permᴰ
use native.Mathlib.Omega.{arith}
use follow_the_money.Base.Tests.{In, select, Bool-cases}
use follow_the_money.Base.Order.{Str, str_order, same→eq, same_refl}
use follow_the_money.Base.Table.{Table, lookup, insert, contains, keys}
use follow_the_money.Base.Table.Perm.{IsDict}

In-contains : {V : Type 0} (e : Str × V) (d : Table Str V) → In e d → contains e.0 d ≡ true
unfolding contains
In-contains e [] h = absurd h
In-contains e (x ∷ d) (inl p) = ground (arith, same_refl e.0)
In-contains e (x ∷ d) (inr h) = ground (arith, In-contains e d h)

pub lookup-In :
    {V : Type 0} (e : Str × V) (d : Table Str V) → IsDict d → In e d → lookup e.0 d ≡ some e.1
unfolding lookup
lookup-In e [] u h = absurd h
lookup-In e (x ∷ d) u (inl p) = rw p (rw (same_refl e.0) refl)
lookup-In e (x ∷ d) u (inr h) =
    ground (arith, lookup-In e d u.1 h, same→eq x.0 e.0, In-contains e d h)

pub In-keys-insert_self :
    {V : Type 0} (k : Str) (v : V) (d : Table Str V) → In k (keys (insert k v d))
unfolding insert
In-keys-insert_self k v [] = inl refl
In-keys-insert_self k v ((j, w) ∷ d) = ground (arith, same→eq j k, In-keys-insert_self k v d)

pub In-keys-insert :
    {V : Type 0} (i k : Str) (v : V) (d : Table Str V) → In i (keys d) → In i (keys (insert k v d))
unfolding insert
In-keys-insert i k v [] h = absurd h
In-keys-insert i k v ((j, w) ∷ d) h = ground (arith, In-keys-insert i k v d)

-- Entries of such a table that share a key are equal.
pub IsDict-keyed :
    {V : Type 0} (d : Table Str V) (x y : Str × V) → IsDict d → In x d → In y d → x.0 ≡ y.0 → x ≡ y
IsDict-keyed d x y u mx my e =
    let value : x.1 ≡ y.1 =
      some-injective x.1 y.1 (sym (lookup-In x d u mx) ∙ rw e (lookup-In y d u my)) in
    λ i. (e i, value i)

contains-select :
    {V : Type 0} (p : Str × V → Bool) (k : Str) (d : Table Str V)
    → contains k d ≡ false
    → contains k (select p d) ≡ false
unfolding contains
contains-select p k [] h = h
contains-select p k (x ∷ d) h = ground (arith, contains-select p k d)

select_swap :
    {A : Type 0} (p : A → Bool) (a b : A) (l : List A)
    → Permᴰ (select p (a ∷ b ∷ l)) (select p (b ∷ a ∷ l))
select_swap p a b l = elim (Bool-cases (p a)) [
  | inl t ↦ elim (Bool-cases (p b)) [
    | inl u ↦ rw (t, u) (Permᴰ.swap refl refl)
    | inr u ↦ rw (t, u) (Permᴰ.refl (a ∷ select p l))
  ]
  | inr t ↦ elim (Bool-cases (p b)) [
    | inl u ↦ rw (t, u) (Permᴰ.refl (b ∷ select p l))
    | inr u ↦ rw (t, u) (Permᴰ.refl (select p l))
  ]
]

-- A selection of such a table is one too.
pub IsDict-select :
    {V : Type 0} (p : Str × V → Bool) (d : Table Str V) → IsDict d → IsDict (select p d)
IsDict-select p [] u = tt
IsDict-select p (x ∷ d) u = ground (arith, contains-select p x.0 d u.0, IsDict-select p d u.1)

pub select-perm :
    {A : Type 0} (p : A → Bool) {xs ys : List A} → Permᴰ xs ys → Permᴰ (select p xs) (select p ys)
select-perm p Permᴰ.nil = Permᴰ.nil
select-perm p (Permᴰ.cons {a} {b} {l₁} {l₂} e q) = rw (← e) (elim (Bool-cases (p a)) [
  | inl t ↦ rw t (Permᴰ.cons refl (select-perm p q))
  | inr f ↦ rw f (select-perm p q)
])
select-perm p (Permᴰ.swap {a} {b} {a'} {b'} {l} e f) = rw (← e, ← f) (select_swap p a b l)
select-perm p (Permᴰ.trans q r) = Permᴰ.trans (select-perm p q) (select-perm p r)
