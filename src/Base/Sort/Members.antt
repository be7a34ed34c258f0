-- ===== src/Base/Sort/Members.antt =====
-- Membership by recursion: sorting keeps it in both directions, and a selection has no new members.
use follow_the_money.Base.Tests.{In, select}
use mathlib.Core.Path.{◌≡◌}
use mathlib.Core.Logic.{◌⊎◌, inl, inr}
use mathlib.Core.Bool.{Bool, true}
use mathlib.Core.List.{List, [], ◌∷◌, ◌++◌}
use native.Mathlib.Omega.{arith}
use follow_the_money.Base.Order.{Order}
use follow_the_money.Base.Sort.{insert_by, sort_by}

module _ {A K : Type 0} ⦃o : Order K⦄ (key : A → K) where
  In-insert_by : (e a : A) (xs : List A) → (a ≡ e) ⊎ In e xs → In e (insert_by key a xs)
  unfolding insert_by
  In-insert_by e a [] h = h
  In-insert_by e a (x ∷ xs) h = ground (arith, In-insert_by e a xs)

  insert_by-In : (e a : A) (xs : List A) → In e (insert_by key a xs) → (a ≡ e) ⊎ In e xs
  unfolding insert_by
  insert_by-In e a [] h = h
  insert_by-In e a (x ∷ xs) h = ground (arith, insert_by-In e a xs)

  pub In-sort_by : (e : A) (xs : List A) → In e xs → In e (sort_by key xs)
  unfolding sort_by
  In-sort_by e [] h = h
  In-sort_by e (x ∷ xs) (inl p) = In-insert_by e x (sort_by key xs) (inl p)
  In-sort_by e (x ∷ xs) (inr h) = In-insert_by e x (sort_by key xs) (inr (In-sort_by e xs h))

  pub sort_by-In : (e : A) (xs : List A) → In e (sort_by key xs) → In e xs
  unfolding sort_by
  sort_by-In e [] h = h
  sort_by-In e (x ∷ xs) h = ground (arith, insert_by-In e x (sort_by key xs), sort_by-In e xs)

pub select-In : {A : Type 0} (p : A → Bool) (e : A) (xs : List A) → In e (select p xs) → In e xs
select-In p e [] h = h
select-In p e (x ∷ xs) h = ground (arith, select-In p e xs)

pub select-passes :
    {A : Type 0} (p : A → Bool) (e : A) (xs : List A) → In e (select p xs) → p e ≡ true
select-passes p e [] h = absurd h
select-passes p e (x ∷ xs) h = ground (arith, select-passes p e xs)

pub In-append : {A : Type 0} (x : A) (xs ys : List A) → In x (xs ++ ys) → In x xs ⊎ In x ys
In-append x [] ys i = inr i
In-append x (a ∷ xs) ys (inl p) = inl (inl p)
In-append x (a ∷ xs) ys (inr i) = elim (In-append x xs ys i) [ inl j ↦ inl (inr j) | inr j ↦ inr j ]

pub In-append_right : {A : Type 0} (x : A) (xs ys : List A) → In x ys → In x (xs ++ ys)
In-append_right x [] ys i = i
In-append_right x (a ∷ xs) ys i = inr (In-append_right x xs ys i)

pub In-append_left : {A : Type 0} (x : A) (xs ys : List A) → In x xs → In x (xs ++ ys)
In-append_left x [] ys i = absurd i
In-append_left x (a ∷ xs) ys (inl p) = inl p
In-append_left x (a ∷ xs) ys (inr i) = inr (In-append_left x xs ys i)
