-- ===== src/Base/Order.antt =====
-- Total orders as an interface, with numbers, texts and pairs as instances. A text is the list of
-- its code points, which is how Python compares `str` values.
use Prim.Native.Nat.{ℕ}
use Prim.Native.Char.{code}
use Prim.Native.String.{String}
use mathlib.Core.Path.{◌≡◌, refl}
use mathlib.Core.Logic.{◌↔◌, ◌⊎◌, inl, inr}
use mathlib.Core.Bool.{Bool, true, false, ◌&&◌}
use mathlib.Core.List.{List, [], ◌∷◌}
use native.Mathlib.Omega.{arith}
use follow_the_money.Base.Tests.{ltb, leb, ◌==◌, if◌then◌else◌}

pub record Order {ℓ} (K : Type ℓ) : Type ℓ where
  pub leq : K → K → Bool
  pub leq_total : (a b : K) → (leq a b ≡ true) ⊎ (leq b a ≡ true)
  pub leq_trans : (a b c : K) → leq a b ≡ true → leq b c ≡ true → leq a c ≡ true
  pub leq_antisym : (a b : K) → leq a b ≡ true → leq b a ≡ true → a ≡ b

module _ {ℓ} {K : Type ℓ} ⦃o : Order K⦄ where
  -- Equality of keys, as both orders at once.
  abbrev pub same : K → K → Bool
  same a b = o.leq a b && o.leq b a

  pub leq_refl : (a : K) → o.leq a a ≡ true
  leq_refl a = ground (arith, o.leq_total a a)

  pub leq_of_not : (a b : K) → o.leq a b ≡ false → o.leq b a ≡ true
  leq_of_not a b h = ground (arith, o.leq_total a b)

  pub same_refl : (a : K) → same a a ≡ true
  same_refl a = ground (arith, leq_refl a)

  pub same→eq : (a b : K) → same a b ≡ true → a ≡ b
  same→eq a b h = ground (arith, o.leq_antisym a b)

  pub same_iff : (a b : K) → (same a b ≡ true) ↔ (a ≡ b)
  same_iff a b = (same→eq a b, λ e. rw e (same_refl b))

pub leb_total : (a b : ℕ) → (leb a b ≡ true) ⊎ (leb b a ≡ true)
leb_total a b = ground arith

pub leb_trans : (a b c : ℕ) → leb a b ≡ true → leb b c ≡ true → leb a c ≡ true
leb_trans a b c p q = ground arith

pub leb_antisym : (a b : ℕ) → leb a b ≡ true → leb b a ≡ true → a ≡ b
leb_antisym a b p q = ground arith

instance abbrev pub nat_order : Order ℕ
nat_order = record {
  leq = leb;
  leq_total = leb_total;
  leq_trans = leb_trans;
  leq_antisym = leb_antisym;
}

abbrev pub Str : Type 0
Str = List ℕ

abbrev pub codes : String → Str
codes String.[] = []
codes (String.◌∷◌ c s) = code c ∷ codes s

-- Lexicographic, the shorter text first.
unfoldable pub str_leq : Str → Str → Bool
str_leq [] t = true
str_leq (a ∷ s) [] = false
str_leq (a ∷ s) (b ∷ t) = let rest = str_leq s t in if ltb a b then true else (a == b) && rest

pub str_leq_total : (s t : Str) → (str_leq s t ≡ true) ⊎ (str_leq t s ≡ true)
unfolding str_leq
str_leq_total [] t = inl refl
str_leq_total (a ∷ s) [] = inr refl
str_leq_total (a ∷ s) (b ∷ t) = ground (arith, str_leq_total s t)

pub str_leq_trans : (s t u : Str) → str_leq s t ≡ true → str_leq t u ≡ true → str_leq s u ≡ true
unfolding str_leq
str_leq_trans [] t u p q = refl
str_leq_trans (a ∷ s) [] u p q = cc
str_leq_trans (a ∷ s) (b ∷ t) [] p q = cc
str_leq_trans (a ∷ s) (b ∷ t) (c ∷ u) p q = ground (arith, str_leq_trans s t u)

pub str_leq_antisym : (s t : Str) → str_leq s t ≡ true → str_leq t s ≡ true → s ≡ t
unfolding str_leq
str_leq_antisym [] [] p q = refl
str_leq_antisym [] (b ∷ t) p q = cc
str_leq_antisym (a ∷ s) [] p q = cc
str_leq_antisym (a ∷ s) (b ∷ t) p q = ground (arith, str_leq_antisym s t)

instance abbrev pub str_order : Order Str
str_order = record {
  leq = str_leq;
  leq_total = str_leq_total;
  leq_trans = str_leq_trans;
  leq_antisym = str_leq_antisym;
}

-- Pairs as Python compares tuples: by the first part, and by the second where the first agree.
module _ {ℓ κ} {A : Type ℓ} {B : Type κ} ⦃o : Order A⦄ ⦃p : Order B⦄ where
  abbrev pub pair_leq : A × B → A × B → Bool
  pair_leq (a, b) (c, d) = if o.leq a c then (if o.leq c a then p.leq b d else true) else false

  pub pair_leq_total : (x y : A × B) → (pair_leq x y ≡ true) ⊎ (pair_leq y x ≡ true)
  pair_leq_total (a, b) (c, d) = ground (arith, o.leq_total a c, p.leq_total b d)

  pub pair_leq_trans :
      (x y z : A × B) → pair_leq x y ≡ true → pair_leq y z ≡ true → pair_leq x z ≡ true
  pair_leq_trans (a, b) (c, d) (e, f) h k =
      ground (arith, o.leq_trans a c e, o.leq_trans c e a, o.leq_trans e a c, p.leq_trans b d f)

  pub pair_leq_antisym : (x y : A × B) → pair_leq x y ≡ true → pair_leq y x ≡ true → x ≡ y
  pair_leq_antisym (a, b) (c, d) h k = ground (arith, o.leq_antisym a c, p.leq_antisym b d)

  instance abbrev pub pair_order : Order (A × B)
  pair_order = record {
    leq = pair_leq;
    leq_total = pair_leq_total;
    leq_trans = pair_leq_trans;
    leq_antisym = pair_leq_antisym;
  }
