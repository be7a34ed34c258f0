-- ===== src/Base/Sort.antt =====
-- Python's `sorted(xs, key=...)`: a stable sort by a key. Its result does not depend on the order
-- of the input where equal keys mean equal elements.
pub mod Members
use mathlib.Core.Path.{◌≡◌, refl, sym, ◌∙◌}
use mathlib.Core.Logic.{◌⊎◌, inl, inr}
use mathlib.Core.Bool.{true}
use mathlib.Core.List.{List, [], ◌∷◌, Permᴰ}
use mathlib.Core.List.Permᴰ
use native.Mathlib.Omega.{arith}
use follow_the_money.Base.Tests.{In, if◌then◌else◌, Bool-cases}
use follow_the_money.Base.Order.{Order, leq_of_not}

pub In-perm : {A : Type 0} (a : A) {xs ys : List A} → Permᴰ xs ys → In a xs → In a ys
In-perm a Permᴰ.nil m = m
In-perm a (Permᴰ.cons e p) (inl q) = inl (sym e ∙ q)
In-perm a (Permᴰ.cons e p) (inr m) = inr (In-perm a p m)
In-perm a (Permᴰ.swap e f) (inl q) = inr (inl (sym e ∙ q))
In-perm a (Permᴰ.swap e f) (inr (inl q)) = inl (sym f ∙ q)
In-perm a (Permᴰ.swap e f) (inr (inr m)) = inr (inr m)
In-perm a (Permᴰ.trans p q) m = In-perm a q (In-perm a p m)

module _ {κ} {K : Type κ} {A : Type 0} ⦃o : Order K⦄ (key : A → K) where
  unfoldable pub insert_by : A → List A → List A
  insert_by a [] = a ∷ []
  insert_by a (x ∷ xs) = if o.leq (key a) (key x) then a ∷ x ∷ xs else x ∷ insert_by a xs

  unfoldable pub sort_by : List A → List A
  unfolding insert_by
  sort_by [] = []
  sort_by (x ∷ xs) = insert_by x (sort_by xs)

  -- The head of a list, if any, has a key at least as large.
  abbrev HeadGe : A → List A → Type 0
  HeadGe a [] = Unit
  HeadGe a (x ∷ xs) = o.leq (key a) (key x) ≡ true

  abbrev pub IsSorted : List A → Type 0
  IsSorted [] = Unit
  IsSorted (x ∷ xs) = HeadGe x xs × IsSorted xs

  insert_by-HeadGe :
      (b a : A) (xs : List A)
      → o.leq (key b) (key a) ≡ true
      → HeadGe b xs
      → HeadGe b (insert_by a xs)
  unfolding insert_by
  insert_by-HeadGe b a [] h k = h
  insert_by-HeadGe b a (x ∷ xs) h k = ground arith

  insert_by-IsSorted : (a : A) (xs : List A) → IsSorted xs → IsSorted (insert_by a xs)
  unfolding insert_by
  insert_by-IsSorted a [] s = (tt, tt)
  insert_by-IsSorted a (x ∷ xs) s = elim (Bool-cases (o.leq (key a) (key x))) [
    | inl p ↦ rw p (p, s)
    | inr p ↦
        rw p
          (insert_by-HeadGe x a xs (leq_of_not (key a) (key x) p) s.0, insert_by-IsSorted a xs s.1)
  ]

  pub sort_by-IsSorted : (xs : List A) → IsSorted (sort_by xs)
  unfolding sort_by
  sort_by-IsSorted [] = tt
  sort_by-IsSorted (x ∷ xs) = insert_by-IsSorted x (sort_by xs) (sort_by-IsSorted xs)

  insert_by-perm : (a : A) (xs : List A) → Permᴰ (insert_by a xs) (a ∷ xs)
  unfolding insert_by
  insert_by-perm a [] = Permᴰ.refl (a ∷ [])
  insert_by-perm a (x ∷ xs) = elim (Bool-cases (o.leq (key a) (key x))) [
    | inl p ↦ rw p (Permᴰ.refl (a ∷ x ∷ xs))
    | inr p ↦ rw p (Permᴰ.trans (Permᴰ.cons refl (insert_by-perm a xs)) (Permᴰ.swap refl refl))
  ]

  pub sort_by-perm : (xs : List A) → Permᴰ (sort_by xs) xs
  unfolding sort_by
  sort_by-perm [] = Permᴰ.refl []
  sort_by-perm (x ∷ xs) =
      Permᴰ.trans (insert_by-perm x (sort_by xs)) (Permᴰ.cons refl (sort_by-perm xs))

  -- Two insertions commute where equal keys would make the elements equal.
  insert_by_comm :
      (a b : A) (xs : List A)
      → (key a ≡ key b → a ≡ b)
      → insert_by a (insert_by b xs) ≡ insert_by b (insert_by a xs)
  unfolding insert_by
  insert_by_comm a b [] same =
      ground (arith, o.leq_total (key a) (key b), o.leq_antisym (key a) (key b))
  insert_by_comm a b (x ∷ xs) same = ground (
    arith,
    o.leq_total (key a) (key b),
    o.leq_antisym (key a) (key b),
    o.leq_trans (key a) (key b) (key x),
    o.leq_trans (key b) (key a) (key x),
    o.leq_total (key a) (key x),
    o.leq_total (key b) (key x),
    o.leq_trans (key x) (key a) (key b),
    o.leq_trans (key x) (key b) (key a),
    insert_by_comm a b xs same,
  )

  -- Elements of the list that share a key are equal.
  abbrev pub IsKeyed : List A → Type κ
  IsKeyed xs = (a b : A) → In a xs → In b xs → key a ≡ key b → a ≡ b

  pub sort_by-eq_of_permᴰ : {xs ys : List A} → Permᴰ xs ys → IsKeyed xs → sort_by xs ≡ sort_by ys
  unfolding sort_by
  sort_by-eq_of_permᴰ Permᴰ.nil h = refl
  sort_by-eq_of_permᴰ (Permᴰ.cons {a} {b} {l₁} {l₂} e p) h =
      let ih : sort_by l₁ ≡ sort_by l₂ =
        sort_by-eq_of_permᴰ p (λ x y mx my. h x y (inr mx) (inr my)) in
      cc
  sort_by-eq_of_permᴰ (Permᴰ.swap {a} {b} {a'} {b'} {l} e f) h =
      rw (← e, ← f) (insert_by_comm a b (sort_by l) (h a b (inl refl) (inr (inl refl))))
  sort_by-eq_of_permᴰ (Permᴰ.trans {l₁} {l₂} {l₃} p q) h =
      sort_by-eq_of_permᴰ p h
      ∙ sort_by-eq_of_permᴰ q
          (λ x y mx my. h x y (In-perm x (Permᴰ.symm p) mx) (In-perm y (Permᴰ.symm p) my))
