-- ===== src/Feed/Dedupe/Near.antt =====
-- src/follow_the_money/feed/dedupe.py, lines 143 to 159: the titles of one Provider.
use mathlib.Core.List.{append-nil, append_assoc}
use follow_the_money.Base.{
  ◌≤◌, ◌*◌, ◌≡◌, refl, ◌⊎◌, inl, inr, true, false, arith, List, [], ◌∷◌, ◌++◌, ◌&&◌, not, leb,
  is_empty, Bool-cases, In, All,
}
use follow_the_money.Base.Order.{Str}
use follow_the_money.Base.Sort.Members.{In-append_left}
use follow_the_money.Feed.Item.{Item}
use follow_the_money.Feed.Dedupe.{Unicode, Ratio, at_least, title_jaccard, is_near, near_loop}

module _ (u : Unicode) (threshold : Ratio) where
  -- The later item has a title, and the quotient of the trigrams that the two titles share is at
  -- least the threshold.
  abbrev pub IsSimilar : Item → Item → Type 0
  IsSimilar earlier later =
      (is_empty later.title ≡ false)
      × (threshold.part * (title_jaccard u later.title earlier.title).whole
          ≤ (title_jaccard u later.title earlier.title).part * threshold.whole)

  is_near-IsSimilar :
      (item : Item) (kept : List Item)
      → is_near u threshold item kept ≡ true
      → (a : Item) × In a kept × IsSimilar a item
  unfolding is_near at_least
  is_near-IsSimilar item [] p = ground arith
  is_near-IsSimilar item (k ∷ kept) p =
      elim (Bool-cases (
        not (is_empty item.title)
        && leb (threshold.part * (title_jaccard u item.title k.title).whole)
            ((title_jaccard u item.title k.title).part * threshold.whole))) [
              | inl q ↦ (k, inl refl, (ground arith, ground arith))
              | inr q ↦
                  let found = is_near-IsSimilar item kept (ground arith) in
                  (found.0, inr found.1, found.2)
            ]

  is_near_apart :
      (item : Item) (kept : List Item)
      → is_near u threshold item kept ≡ false
      → All (λ a. ¬ IsSimilar a item) kept
  unfolding is_near at_least
  is_near_apart item [] p = tt
  is_near_apart item (k ∷ kept) p = (λ s. ground arith, is_near_apart item kept (ground arith))

  -- No item is similar to one before it.
  abbrev pub IsApart : List Item → List Item → Type 0
  IsApart seen [] = Unit
  IsApart seen (item ∷ items) =
      All (λ a. ¬ IsSimilar a item) seen × IsApart (seen ++ item ∷ []) items

  IsApart-append :
      (seen items : List Item) (item : Item)
      → IsApart seen items
      → All (λ a. ¬ IsSimilar a item) (seen ++ items)
      → IsApart seen (items ++ item ∷ [])
  IsApart-append seen [] item h k = (rw append-nil at k, tt)
  IsApart-append seen (i ∷ items) item h k =
      (h.0, IsApart-append (seen ++ i ∷ []) items item h.1 (rw append_assoc k))

  near_loop_lem :
      (kept items : List Item) → IsApart [] kept → IsApart [] (near_loop u threshold kept items).0
  unfolding near_loop
  near_loop_lem kept [] h = h
  near_loop_lem kept (item ∷ items) h = elim (Bool-cases (is_near u threshold item kept)) [
    | inl near ↦ rw near (near_loop_lem kept items h)
    | inr apart ↦ rw apart (
        near_loop_lem (kept ++ item ∷ []) items
          (IsApart-append [] kept item h (is_near_apart item kept apart)))
  ]

  near_loop_keeps :
      (kept items : List Item) (a : Item) → In a kept → In a (near_loop u threshold kept items).0
  unfolding near_loop
  near_loop_keeps kept [] a i = i
  near_loop_keeps kept (item ∷ items) a i = elim (Bool-cases (is_near u threshold item kept)) [
    | inl near ↦ rw near (near_loop_keeps kept items a i)
    | inr apart ↦
        rw apart (near_loop_keeps (kept ++ item ∷ []) items a (In-append_left a kept (item ∷ []) i))
  ]

  -- The id is that of an item which is similar to a kept one.
  abbrev pub IsNearCopy : List Item → List Item → Str → Type 0
  IsNearCopy items kept id =
      (item a : Item) × In item items × (item.id ≡ id) × In a kept × IsSimilar a item

  near_loop_dropped :
      (kept items : List Item) (id : Str)
      → In id (near_loop u threshold kept items).1
      → IsNearCopy items (near_loop u threshold kept items).0 id
  unfolding near_loop
  near_loop_dropped kept [] id i = absurd i
  near_loop_dropped kept (item ∷ items) id i = elim (Bool-cases (is_near u threshold item kept)) [
    | inr apart ↦
        (let found = near_loop_dropped (kept ++ item ∷ []) items id (rw apart at i) in
          rw apart (found.0, found.1, inr found.2, found.3, found.4, found.5))
    | inl near ↦
        (let j : (item.id ≡ id) ⊎ In id (near_loop u threshold kept items).1 = rw near at i in
          rw near (elim j [
            | inl e ↦
                (let s = is_near-IsSimilar item kept near in
                  (item, s.0, inl refl, e, near_loop_keeps kept items s.0 s.1, s.2))
            | inr k ↦
                (let found = near_loop_dropped kept items id k in
                  (found.0, found.1, inr found.2, found.3, found.4, found.5))
          ]))
  ]

  -- Of the items of one Provider, no kept item is similar to one that is kept before it, and each
  -- id that is dropped is that of an item which is similar to a kept one.
  pub near_loop-IsApart :
      (items : List Item)
      → IsApart [] (near_loop u threshold [] items).0
        × ((id : Str)
            → In id (near_loop u threshold [] items).1
            → IsNearCopy items (near_loop u threshold [] items).0 id)
  near_loop-IsApart items = (near_loop_lem [] items tt, near_loop_dropped [] items)
