-- ===== src/Feed/Tests/Items.antt =====
-- Two items of one Provider with the same title.
use follow_the_money.Base.{◌≡◌, refl, inl, inr, arith, In, [], ◌∷◌, none}
use mathlib.Core.Path.{sym, ◌∙◌}
use mathlib.Core.List.{Permᴰ}
use follow_the_money.Base.Sort.{IsKeyed}
use follow_the_money.Base.Order.{Str, str_order, pair_order}
use follow_the_money.Feed.Item.{Item, missing, item_total_order_key}
use follow_the_money.Feed.Dedupe.{Unicode, Category, Ratio, near_loop, deduplicate_items}
use follow_the_money.Feed.Dedupe.Survivors.{
  deduplicate_items-perm, IsAccounted, deduplicate_items-IsAccounted,
}
use follow_the_money.Feed.Dedupe.Near.{IsApart, IsNearCopy, near_loop-IsApart}

-- Text that needs no normalization.
abbrev plain : Unicode
plain = record { nfc = λ s. s; casefold = λ s. s; category = λ c. Category.other }

abbrev threshold : Ratio
threshold = record { part = 17; whole = 20 }

abbrev item : Str → Item
item id = record {
  id = id;
  provider_id = 112 ∷ [];
  title = 97 ∷ 98 ∷ 99 ∷ 100 ∷ [];
  source = record {
    source_id = none;
    url = id;
    knowledge_available_at = 50 ∷ [];
    published_at = none;
    updated_at = none;
    original_publisher = none;
    syndication_origin = none;
  };
  payload = missing;
  source_lineage = none;
  content = [];
}

abbrev first : Item
first = item (49 ∷ [])

abbrev second : Item
second = item (50 ∷ [])

keyed : IsKeyed item_total_order_key (first ∷ second ∷ [])
keyed a b (inl e) (inl f) same = sym e ∙ f
keyed a b (inr (inl e)) (inr (inl f)) same = sym e ∙ f
keyed a b (inl e) (inr (inl f)) same = ground arith
keyed a b (inr (inl e)) (inl f) same = ground arith
keyed a b (inl e) (inr (inr f)) same = elim f [ ]
keyed a b (inr (inl e)) (inr (inr f)) same = elim f [ ]
keyed a b (inr (inr e)) f same = elim e [ ]

deduplicate_items-perm_example :
    deduplicate_items plain threshold (first ∷ second ∷ [])
    ≡ deduplicate_items plain threshold (second ∷ first ∷ [])
deduplicate_items-perm_example = deduplicate_items-perm plain threshold (Permᴰ.swap refl refl) keyed

deduplicate_items-IsAccounted_example :
    IsAccounted (50 ∷ []) (deduplicate_items plain threshold (first ∷ second ∷ []))
deduplicate_items-IsAccounted_example =
    deduplicate_items-IsAccounted plain threshold (first ∷ second ∷ []) (50 ∷ []) (inr (inl refl))

near_loop-IsApart_example :
    IsApart plain threshold [] (near_loop plain threshold [] (first ∷ second ∷ [])).0
    × ((id : Str)
        → In id (near_loop plain threshold [] (first ∷ second ∷ [])).1
        → IsNearCopy plain threshold
            (first ∷ second ∷ [])
            (near_loop plain threshold [] (first ∷ second ∷ [])).0
            id)
near_loop-IsApart_example = near_loop-IsApart plain threshold (first ∷ second ∷ [])
