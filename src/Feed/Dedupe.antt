-- ===== src/Feed/Dedupe.antt =====
-- src/follow_the_money/feed/dedupe.py: title similarity, and the deduplication of the Feed items.
-- `unicodedata` and `str.casefold` are Python's: they come in as a record of functions.
pub mod Survivors
pub mod Near
use follow_the_money.Base.{
  ℕ, ◌+◌, ◌-◌, ◌*◌, Bool, true, false, Option, none, some, List, [], ◌∷◌, ◌++◌, ◌&&◌, ◌||◌, not,
  map, ltb, leb, ◌==◌, if◌then◌else◌, count, select, is_empty, length,
}
use follow_the_money.Base.Order.{Str, str_order, pair_order, same}
use follow_the_money.Base.Sort.{sort_by}
use follow_the_money.Base.Table.{Table, lookup, insert, get_or, member}
use follow_the_money.Feed.Item.{Item, Source, Lineage, item_total_order_key}

-- The categories of Unicode that the filter names; `other` is any other.
pub data Category : Type 0 where
  pc pd pe pf pi po ps zs zl zp cc cf other : Category

pub record Unicode : Type 0 where
  pub nfc : Str → Str
  pub casefold : Str → Str
  pub category : ℕ → Category

-- `unicodedata.category(ch) not in PUNCTUATION_AND_SEPARATORS`
unfoldable pub is_kept : Category → Bool
is_kept other = true
is_kept _ = false

unfoldable pub normalize_title : Unicode → Str → Str
unfolding is_kept
normalize_title u title = select (λ ch. is_kept (u.category ch)) (u.casefold (u.nfc title))

abbrev pub Trigram : Type 0
Trigram = ℕ × ℕ × ℕ

unfoldable pub same_trigram : Trigram → Trigram → Bool
same_trigram (a, b, c) (d, e, f) = (a == d) && (b == e) && (c == f)

unfoldable pub has_trigram : List Trigram → Trigram → Bool
has_trigram [] t = false
has_trigram (s ∷ ss) t = same_trigram s t || has_trigram ss t

-- A Python `set`, as a list that holds no element twice.
unfoldable pub add_trigram : Trigram → List Trigram → List Trigram
unfolding has_trigram
add_trigram t ts = if has_trigram ts t then ts else t ∷ ts

-- All the slices of three code points; there is none in a shorter text.
unfoldable pub title_trigrams : Str → List Trigram
unfolding add_trigram
title_trigrams (a ∷ b ∷ c ∷ s) = add_trigram (a, b, c) (title_trigrams (b ∷ c ∷ s))
title_trigrams _ = []

-- A ratio of two numbers.
pub record Ratio : Type 0 where
  pub part : ℕ
  pub whole : ℕ

unfoldable pub exact_match : Str → Str → Ratio
exact_match na nb = record { part = if same na nb then 1 else 0; whole = 1 }

-- The similarity of two normalized titles.
unfoldable pub jaccard : Str → Str → Ratio
unfolding title_trigrams has_trigram exact_match
jaccard na nb =
    let ta = title_trigrams na in
    let tb = title_trigrams nb in
    let common = count (has_trigram tb) ta in
    if ltb (length na) 3 || ltb (length nb) 3
    then exact_match na nb
    else if is_empty ta && is_empty tb
    then exact_match na nb
    else record { part = common; whole = length ta + length tb - common }

unfoldable pub title_jaccard : Unicode → Str → Str → Ratio
unfolding jaccard
title_jaccard u a b = jaccard (normalize_title u a) (normalize_title u b)

-- `ratio >= threshold`. The threshold 0.85 and the quotient are floats in the code; a quotient of
-- two lengths that is not 17/20 is further from it than the rounding.
unfoldable pub at_least : Ratio → Ratio → Bool
at_least threshold r = leb (threshold.part * r.whole) (r.part * threshold.whole)

abbrev pub Group : Type 0
Group = Str × List Item

-- `table.setdefault(key, []).append(item)`
unfoldable pub append_to : Str → Item → Table Str (List Item) → Table Str (List Item)
append_to key item [] = (key, item ∷ []) ∷ []
append_to key item ((k, group) ∷ table) =
    if same k key then (k, group ++ item ∷ []) ∷ table else (k, group) ∷ append_to key item table

unfoldable pub group_by : (Item → Str) → Table Str (List Item) → List Item → Table Str (List Item)
unfolding append_to
group_by key table [] = table
group_by key table (item ∷ items) = group_by key (append_to (key item) item table) items

unfoldable pub lineage_of : Item → Lineage
lineage_of item = record {
  id = item.id;
  provider_id = item.provider_id;
  source_id = item.source.source_id;
  original_publisher = item.source.original_publisher;
  syndication_origin = item.source.syndication_origin;
}

-- `_merge_lineage`, of the sorted group: its head survives. `none` is an empty group, for which
-- the code would raise `IndexError`; `group_by` makes none.
with_lineage : List Item → Option Item
unfolding lineage_of
with_lineage [] = none
with_lineage (first ∷ rest) =
    some (record first { source_lineage = some (map lineage_of (first ∷ rest)) })

unfoldable pub merge_lineage : List Item → Option Item
unfolding with_lineage
merge_lineage group = with_lineage (sort_by item_total_order_key group)

-- The ids of the group that are not the survivor's.
unfoldable pub other_ids : Str → List Item → List Str
other_ids id group = map (λ i. i.id) (select (λ i. not (same i.id id)) group)

survive : Option Item → List Item → List Item × List Str
unfolding other_ids
survive none group = ([], [])
survive (some survivor) group = (survivor ∷ [], other_ids survivor.id group)

-- One group of a URL: what survives of it, and the ids that are dropped.
unfoldable pub collapse_url : List Item → List Item × List Str
unfolding survive merge_lineage
collapse_url [] = ([], [])
collapse_url (item ∷ []) = (item ∷ [], [])
collapse_url (item ∷ second ∷ rest) =
    survive (merge_lineage (item ∷ second ∷ rest)) (item ∷ second ∷ rest)

unfoldable pub collapse_urls : Table Str (List Item) → List Item × List Str
unfolding collapse_url
collapse_urls [] = ([], [])
collapse_urls ((url, group) ∷ table) =
    let (kept, dropped) = collapse_url group in
    let (kept', dropped') = collapse_urls table in (kept ++ kept', dropped ++ dropped')

module _ (u : Unicode) (threshold : Ratio) where
  -- The title of the item is not empty and is similar to that of a kept item.
  unfoldable pub is_near : Item → List Item → Bool
  is_near item [] = false
  is_near item (existing ∷ kept) =
      (not (is_empty item.title) && at_least threshold (title_jaccard u item.title existing.title))
      || is_near item kept

  -- The loop over one Provider's items, from what is kept so far.
  unfoldable pub near_loop : List Item → List Item → List Item × List Str
  unfolding is_near
  near_loop kept [] = (kept, [])
  near_loop kept (item ∷ items) =
      let dropped = near_loop kept items in
      let added = near_loop (kept ++ item ∷ []) items in
      if is_near item kept then (dropped.0, item.id ∷ dropped.1) else added

  unfoldable pub collapse_titles : Table Str (List Item) → List Item × List Str
  unfolding near_loop
  collapse_titles [] = ([], [])
  collapse_titles ((provider, group) ∷ table) =
      let (kept, dropped) = near_loop [] (sort_by item_total_order_key group) in
      let (kept', dropped') = collapse_titles table in (kept ++ kept', dropped ++ dropped')

  -- The two passes over the items in their total order.
  unfoldable pub dedupe_ordered : List Item → List Item × List Str
  unfolding group_by collapse_urls collapse_titles
  dedupe_ordered ordered =
      let (url_survivors, dropped) = collapse_urls (group_by (λ i. i.source.url) [] ordered) in
      let by_provider = group_by (λ i. i.provider_id) [] url_survivors in
      let (final, dropped') = collapse_titles (sort_by (λ e. e.0) by_provider) in
      (final, dropped ++ dropped')

-- `list(dict.fromkeys(ids))`
unfoldable pub unique : List Str → List Str → List Str
unique seen [] = []
unique seen (id ∷ ids) =
    let rest = unique (id ∷ seen) ids in
    let skipped = unique seen ids in if member id seen then skipped else id ∷ rest

-- The arguments are the Unicode tables, `title_similarity_threshold` and `items`.
unfoldable pub deduplicate_items : Unicode → Ratio → List Item → List Item × List Str
unfolding dedupe_ordered unique
deduplicate_items u threshold items =
    let (final, dropped) = dedupe_ordered u threshold (sort_by item_total_order_key items) in
    (final, unique [] dropped)

unfoldable pub deterministic_item_order : List Item → List Item
deterministic_item_order items = sort_by item_total_order_key items
