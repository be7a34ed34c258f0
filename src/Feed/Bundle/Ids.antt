-- ===== src/Feed/Bundle/Ids.antt =====
-- The ids of the items that a bundle adds one after the other.
use follow_the_money.Base.{
  true, false, List, [], ◌∷◌, ◌++◌, ◌≡◌, refl, map, In, inl, inr, ok, arith, Bool-cases, ok_inj,
}
use mathlib.Core.List.{Permᴰ}
use mathlib.Core.List.Permᴰ
use follow_the_money.Base.Order.{Str, str_order, same, same→eq, same_refl}
use follow_the_money.Base.Table.{Table, contains, member}
use follow_the_money.Base.Table.Perm.{IsDict, IsDict-perm}
use follow_the_money.Feed.Item.{Item}
use follow_the_money.Feed.Bundle.{add_ids}

abbrev pub by_id : List Item → Table Str Item
by_id items = map (λ i. (i.id, i)) items

-- No two items have one id.
abbrev pub HasIds : List Item → Type 0
HasIds items = IsDict (by_id items)

pub HasIds-perm : {xs ys : List Item} → Permᴰ xs ys → HasIds xs → HasIds ys
HasIds-perm p h = IsDict-perm (Permᴰ.map (λ i. (i.id, i)) p) h

contains-In : (x : Item) (xs : List Item) → In x xs → contains x.id (by_id xs) ≡ true
unfolding contains
contains-In x [] i = absurd i
contains-In x (y ∷ ys) (inl p) = ground (arith, same_refl x.id)
contains-In x (y ∷ ys) (inr i) = ground (arith, contains-In x ys i)

other_id :
    (x y : Item) (xs : List Item)
    → contains x.id (by_id xs) ≡ false
    → In y xs
    → same x.id y.id ≡ false
other_id x y xs c i = elim (Bool-cases (same x.id y.id)) [
  | inr p ↦ p
  | inl p ↦ let e = same→eq x.id y.id p in let f = contains-In y xs i in ground arith
]

pub add_ids-HasIds :
    (seen : List Str) (xs : List Item)
    → HasIds xs
    → ((x : Item) → In x xs → member x.id seen ≡ false)
    → (s : List Str) × (add_ids seen xs ≡ ok s)
unfolding add_ids
add_ids-HasIds seen [] h f = (seen, refl)
add_ids-HasIds seen (x ∷ xs) h f =
    let rest =
      add_ids-HasIds (x.id ∷ seen) xs h.1 (λ y i. rw (other_id x y xs h.0 i) (f y (inr i))) in
    (rest.0, rw (f x (inl refl)) rest.1)

-- Adding the items of two lists is adding those of the first and then those of the second.
pub add_ids-append :
    (seen : List Str) (xs ys : List Item) (s : List Str)
    → add_ids seen (xs ++ ys) ≡ ok s
    → (r : List Str) × ((add_ids seen xs ≡ ok r) × (add_ids r ys ≡ ok s))
unfolding add_ids
add_ids-append seen [] ys s p = (seen, (refl, p))
add_ids-append seen (x ∷ xs) ys s p = elim (Bool-cases (member x.id seen)) [
  | inl q ↦ ground arith
  | inr q ↦
      let rest = add_ids-append (x.id ∷ seen) xs ys s (ground arith) in
      (rest.0, (rw q rest.1.0, rest.1.1))
]

-- Ids that were added were new, and no two of the items share one.
In-later :
    (id : Str) (seen : List Str) (xs : List Item) (s : List Str)
    → add_ids seen xs ≡ ok s
    → member id seen ≡ true
    → contains id (by_id xs) ≡ false
unfolding add_ids contains
In-later id seen [] s p m = refl
In-later id seen (x ∷ xs) s p m = elim (Bool-cases (member x.id seen)) [
  | inl q ↦ ground arith
  | inr q ↦ elim (Bool-cases (same x.id id)) [
    | inl e ↦ (let f = same→eq x.id id e in ground arith)
    | inr e ↦ ground (arith, In-later id (x.id ∷ seen) xs s)
  ]
]

pub HasIds-add_ids :
    (seen : List Str) (xs : List Item) (s : List Str) → add_ids seen xs ≡ ok s → HasIds xs
unfolding add_ids
HasIds-add_ids seen [] s p = tt
HasIds-add_ids seen (x ∷ xs) s p = elim (Bool-cases (member x.id seen)) [
  | inl q ↦ ground arith
  | inr q ↦
      let rest : add_ids (x.id ∷ seen) xs ≡ ok s = ground arith in
      (
        In-later x.id (x.id ∷ seen) xs s rest (rw (same_refl x.id) refl),
        HasIds-add_ids (x.id ∷ seen) xs s rest,
      )
]

pub append-add_ids :
    (seen r s : List Str) (xs ys : List Item)
    → add_ids seen xs ≡ ok r
    → add_ids r ys ≡ ok s
    → add_ids seen (xs ++ ys) ≡ ok s
unfolding add_ids
append-add_ids seen r s [] ys p q = rw (ok_inj p) q
append-add_ids seen r s (x ∷ xs) ys p q = elim (Bool-cases (member x.id seen)) [
  | inl m ↦ ground arith
  | inr m ↦ rw m (append-add_ids (x.id ∷ seen) r s xs ys (ground arith) q)
]
