-- ===== src/Feed/Dedupe/Survivors.antt =====
-- What the deduplication keeps, and what it reports as dropped.
use mathlib.Core.List.{Permᴰ}
use mathlib.Core.List.Permᴰ
use follow_the_money.Base.{
  ◌≡◌, ◌≢◌, ◌∙◌, refl, sym, ◌⊎◌, inl, inr, true, Option, none, some, arith, List, [], ◌∷◌, ◌++◌,
  map, Bool-cases, In,
}
use follow_the_money.Base.Order.{Str, str_order, pair_order, same, same→eq}
use follow_the_money.Base.Sort.{sort_by, sort_by-perm, sort_by-eq_of_permᴰ, IsKeyed, In-perm}
use follow_the_money.Base.Sort.Members.{In-sort_by}
use follow_the_money.Base.Table.{Table, member}
use follow_the_money.Feed.Item.{Item, item_total_order_key}
use follow_the_money.Feed.Dedupe.{
  Unicode, Ratio, append_to, group_by, collapse_url, collapse_urls, survive, merge_lineage,
  with_lineage, other_ids, near_loop, collapse_titles, dedupe_ordered, unique, deduplicate_items,
}

-- Two orders of the same items, whose sort keys differ unless the items are equal, give the same
-- survivors and the same dropped ids.
pub deduplicate_items-perm :
    (u : Unicode) (threshold : Ratio) {xs ys : List Item}
    → Permᴰ xs ys
    → IsKeyed item_total_order_key xs
    → deduplicate_items u threshold xs ≡ deduplicate_items u threshold ys
unfolding deduplicate_items
deduplicate_items-perm u threshold p keyed =
    rw (sort_by-eq_of_permᴰ item_total_order_key p keyed) refl

abbrev pub ids : List Item → List Str
ids items = map (λ i. i.id) items

-- The id stands in a group of the table.
abbrev InGroups : Str → Table Str (List Item) → Type 0
InGroups id [] = ⊥
InGroups id ((k, group) ∷ table) = In id (ids group) ⊎ InGroups id table

-- The id is kept or reported as dropped.
abbrev pub IsAccounted : Str → List Item × List Str → Type 0
IsAccounted id r = In id (ids r.0) ⊎ In id r.1

In-append : (id : Str) (xs ys : List Str) → In id xs ⊎ In id ys → In id (xs ++ ys)
In-append id [] ys (inl h) = absurd h
In-append id [] ys (inr h) = h
In-append id (x ∷ xs) ys h = ground (arith, In-append id xs ys)

In-ids-append :
    (id : Str) (xs ys : List Item) → In id (ids xs) ⊎ In id (ids ys) → In id (ids (xs ++ ys))
In-ids-append id [] ys (inl h) = absurd h
In-ids-append id [] ys (inr h) = h
In-ids-append id (x ∷ xs) ys h = ground (arith, In-ids-append id xs ys)

module _ (id : Str) where
  -- The results of two steps, joined.
  joined :
      (a b : List Item × List Str)
      → IsAccounted id a ⊎ IsAccounted id b
      → IsAccounted id (a.0 ++ b.0, a.1 ++ b.1)
  joined a b (inl (inl h)) = inl (In-ids-append id a.0 b.0 (inl h))
  joined a b (inl (inr h)) = inr (In-append id a.1 b.1 (inl h))
  joined a b (inr (inl h)) = inl (In-ids-append id a.0 b.0 (inr h))
  joined a b (inr (inr h)) = inr (In-append id a.1 b.1 (inr h))

  append_to-InGroups :
      (key : Str) (item : Item) (table : Table Str (List Item))
      → (item.id ≡ id) ⊎ InGroups id table
      → InGroups id (append_to key item table)
  unfolding append_to
  append_to-InGroups key item [] h = ground arith
  append_to-InGroups key item ((k, group) ∷ table) h =
      ground (arith, In-ids-append id group (item ∷ []), append_to-InGroups key item table)

  group_by-InGroups :
      (key : Item → Str) (table : Table Str (List Item)) (items : List Item)
      → InGroups id table ⊎ In id (ids items)
      → InGroups id (group_by key table items)
  unfolding group_by
  group_by-InGroups key table [] (inl h) = h
  group_by-InGroups key table [] (inr h) = absurd h
  group_by-InGroups key table (item ∷ items) (inl h) =
      group_by-InGroups key (append_to (key item) item table) items
        (inl (append_to-InGroups (key item) item table (inr h)))
  group_by-InGroups key table (item ∷ items) (inr (inl e)) =
      group_by-InGroups key (append_to (key item) item table) items
        (inl (append_to-InGroups (key item) item table (inl e)))
  group_by-InGroups key table (item ∷ items) (inr (inr h)) =
      group_by-InGroups key (append_to (key item) item table) items (inr h)

  InGroups-perm : {a b : Table Str (List Item)} → Permᴰ a b → InGroups id a → InGroups id b
  InGroups-perm Permᴰ.nil h = h
  InGroups-perm (Permᴰ.cons {a} {b} e p) (inl h) = rw (← e) (inl h)
  InGroups-perm (Permᴰ.cons {a} {b} e p) (inr h) = inr (InGroups-perm p h)
  InGroups-perm (Permᴰ.swap e f) h = rw (← e, ← f) (ground arith)
  InGroups-perm (Permᴰ.trans p q) h = InGroups-perm q (InGroups-perm p h)

  In-ids-sort :
      (items : List Item) → In id (ids items) → In id (ids (sort_by item_total_order_key items))
  In-ids-sort items h =
      In-perm id (Permᴰ.map (λ i. i.id) (Permᴰ.symm (sort_by-perm item_total_order_key items))) h

  In-other_ids :
      (survivor : Str) (group : List Item)
      → In id (ids group)
      → (survivor ≡ id) ⊎ In id (other_ids survivor group)
  unfolding other_ids
  In-other_ids survivor [] h = absurd h
  In-other_ids survivor (item ∷ group) (inl e) = elim (Bool-cases (same item.id survivor)) [
    | inl t ↦ inl (sym (same→eq item.id survivor t) ∙ e)
    | inr f ↦ inr (rw f (inl e))
  ]
  In-other_ids survivor (item ∷ group) (inr h) = ground (arith, In-other_ids survivor group h)

  survive-IsAccounted :
      (s : Option Item) (group : List Item)
      → s ≢ none
      → In id (ids group)
      → IsAccounted id (survive s group)
  unfolding survive
  survive-IsAccounted none group n h = absurd (n refl)
  survive-IsAccounted (some item) group n h = ground (arith, In-other_ids item.id group h)

  merge_lineage-ne-none : (item : Item) (group : List Item) → merge_lineage (item ∷ group) ≢ none
  unfolding merge_lineage with_lineage
  merge_lineage-ne-none item group =
      not_none (sort_by item_total_order_key (item ∷ group))
        (In-sort_by item_total_order_key item (item ∷ group) (inl refl))
    where
      not_none : (sorted : List Item) → In item sorted → with_lineage sorted ≢ none
      not_none [] h e = h
      not_none (first ∷ rest) h e = cc

  collapse_url-IsAccounted :
      (group : List Item) → In id (ids group) → IsAccounted id (collapse_url group)
  unfolding collapse_url
  collapse_url-IsAccounted [] h = absurd h
  collapse_url-IsAccounted (item ∷ []) h = inl h
  collapse_url-IsAccounted (item ∷ second ∷ rest) h =
      survive-IsAccounted (merge_lineage (item ∷ second ∷ rest)) (item ∷ second ∷ rest)
        (merge_lineage-ne-none item (second ∷ rest)) h

  collapse_urls-IsAccounted :
      (table : Table Str (List Item)) → InGroups id table → IsAccounted id (collapse_urls table)
  unfolding collapse_urls
  collapse_urls-IsAccounted [] h = absurd h
  collapse_urls-IsAccounted ((url, group) ∷ table) (inl h) =
      joined (collapse_url group) (collapse_urls table) (inl (collapse_url-IsAccounted group h))
  collapse_urls-IsAccounted ((url, group) ∷ table) (inr h) =
      joined (collapse_url group) (collapse_urls table) (inr (collapse_urls-IsAccounted table h))

  module _ (u : Unicode) (threshold : Ratio) where
    near_loop-IsAccounted :
        (kept items : List Item)
        → In id (ids kept) ⊎ In id (ids items)
        → IsAccounted id (near_loop u threshold kept items)
    unfolding near_loop
    near_loop-IsAccounted kept [] (inl h) = inl h
    near_loop-IsAccounted kept [] (inr h) = absurd h
    near_loop-IsAccounted kept (item ∷ items) h = ground (
      arith,
      near_loop-IsAccounted kept items,
      near_loop-IsAccounted (kept ++ item ∷ []) items,
      In-ids-append id kept (item ∷ []),
    )

    collapse_titles-IsAccounted :
        (table : Table Str (List Item))
        → InGroups id table
        → IsAccounted id (collapse_titles u threshold table)
    unfolding collapse_titles
    collapse_titles-IsAccounted [] h = absurd h
    collapse_titles-IsAccounted ((p, group) ∷ table) (inl h) =
        let sorted = sort_by item_total_order_key group in
        joined (near_loop u threshold [] sorted) (collapse_titles u threshold table)
          (inl (near_loop-IsAccounted [] sorted (inr (In-ids-sort group h))))
    collapse_titles-IsAccounted ((p, group) ∷ table) (inr h) =
        joined (near_loop u threshold [] (sort_by item_total_order_key group))
          (collapse_titles u threshold table) (inr (collapse_titles-IsAccounted table h))

    dedupe_ordered-IsAccounted :
        (items : List Item) → In id (ids items) → IsAccounted id (dedupe_ordered u threshold items)
    unfolding dedupe_ordered
    dedupe_ordered-IsAccounted items h =
        let urls = collapse_urls (group_by (λ i. i.source.url) [] items) in
        let table = group_by (λ i. i.provider_id) [] urls.0 in
        let titles = collapse_titles u threshold (sort_by (λ e. e.0) table) in
        elim (collapse_urls-IsAccounted (group_by (λ i. i.source.url) [] items)
          (group_by-InGroups (λ i. i.source.url) [] items (inr h))) [
            | inr gone ↦ inr (In-append id urls.1 titles.1 (inl gone))
            | inl left ↦
                elim (collapse_titles-IsAccounted (sort_by (λ e. e.0) table) (
                  InGroups-perm (Permᴰ.symm (sort_by-perm (λ e. e.0) table))
                    (group_by-InGroups (λ i. i.provider_id) [] urls.0 (inr left)))) [
                      | inl final ↦ inl final
                      | inr gone ↦ inr (In-append id urls.1 titles.1 (inr gone))
                    ]
          ]

-- The unique ids are those of the list that were not seen.
member-In : (id : Str) (seen : List Str) → member id seen ≡ true → In id seen
member-In id [] h = cc
member-In id (s ∷ seen) h = ground (arith, same→eq s id, member-In id seen)

In-unique : (id : Str) (seen xs : List Str) → In id xs → In id seen ⊎ In id (unique seen xs)
unfolding unique
In-unique id seen [] h = absurd h
In-unique id seen (x ∷ xs) h =
    ground (arith, member-In x seen, In-unique id seen xs, In-unique id (x ∷ seen) xs)

-- The id of every item is the id of a survivor or is reported as dropped.
pub deduplicate_items-IsAccounted :
    (u : Unicode) (threshold : Ratio) (items : List Item) (id : Str)
    → In id (ids items)
    → IsAccounted id (deduplicate_items u threshold items)
unfolding deduplicate_items
deduplicate_items-IsAccounted u threshold items id h =
    let r = dedupe_ordered u threshold (sort_by item_total_order_key items) in
    elim (dedupe_ordered-IsAccounted id u threshold (sort_by item_total_order_key items)
      (In-ids-sort id items h)) [
        | inl kept ↦ inl kept
        | inr gone ↦ elim (In-unique id [] r.1 gone) [ inl n ↦ absurd n | inr d ↦ inr d ]
      ]
