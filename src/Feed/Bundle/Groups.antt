-- ===== src/Feed/Bundle/Groups.antt =====
-- The items of a Feed, grouped by domain: the groups together are the items in another order.
use follow_the_money.Base.{
  true, false, Option, none, some, List, [], ◌∷◌, ◌++◌, ◌≡◌, refl, not, any, select, arith,
  if◌then◌else◌,
}
use mathlib.Core.List.{Permᴰ}
use mathlib.Core.List.Permᴰ
use follow_the_money.Base.Order.{str_leq, pair_order, str_order}
use follow_the_money.Base.Sort.{sort_by-perm}
use follow_the_money.Feed.Item.{Item, item_total_order_key}
use follow_the_money.Feed.Bundle.{
  Domain, d_news, d_macro, d_policy, d_positioning, d_filing, domains, domain_text, payload_domain,
  is_domain, is_in_domain, is_typed, item_order,
}

-- The groups of the domains, one after the other.
abbrev pub groups : List Item → List Domain → List Item
groups items [] = []
groups items (d ∷ ds) = item_order (select (is_in_domain d) items) ++ groups items ds

-- The same before the groups are put in order.
abbrev selections : List Item → List Domain → List Item
selections items [] = []
selections items (d ∷ ds) = select (is_in_domain d) items ++ selections items ds

groups-perm : (items : List Item) (ds : List Domain) → Permᴰ (groups items ds) (selections items ds)
groups-perm items [] = Permᴰ.refl []
groups-perm items (d ∷ ds) =
    Permᴰ.trans
      (Permᴰ.append_right (groups items ds)
        (sort_by-perm item_total_order_key (select (is_in_domain d) items)))
      (Permᴰ.append_left (select (is_in_domain d) items) (groups-perm items ds))

-- The group of an item has it in front.
abbrev put : Domain → Option Domain → Item → List Item → List Item
put d o x s = if is_domain d o then x ∷ s else s

put-perm :
    (o : Option Domain) (x : Item) (a b c d e : List Item)
    → is_typed o ≡ true
    → Permᴰ
        (put d_news o x a
          ++ (put d_macro o x b
              ++ (put d_policy o x c ++ (put d_positioning o x d ++ (put d_filing o x e ++ [])))))
        (x ∷ (a ++ (b ++ (c ++ (d ++ (e ++ []))))))
unfolding is_domain domain_text str_leq is_typed
put-perm none x a b c d e t = absurd cc
put-perm (some d_news) x a b c d e t = Permᴰ.refl (x ∷ (a ++ (b ++ (c ++ (d ++ (e ++ []))))))
put-perm (some d_macro) x a b c d e t = Permᴰ.middle x a (b ++ (c ++ (d ++ (e ++ []))))
put-perm (some d_policy) x a b c d e t =
    Permᴰ.trans (Permᴰ.append_left a (Permᴰ.middle x b (c ++ (d ++ (e ++ [])))))
      (Permᴰ.middle x a (b ++ (c ++ (d ++ (e ++ [])))))
put-perm (some d_positioning) x a b c d e t =
    Permᴰ.trans
      (Permᴰ.append_left a (
        Permᴰ.trans (Permᴰ.append_left b (Permᴰ.middle x c (d ++ (e ++ []))))
          (Permᴰ.middle x b (c ++ (d ++ (e ++ []))))))
      (Permᴰ.middle x a (b ++ (c ++ (d ++ (e ++ [])))))
put-perm (some d_filing) x a b c d e t =
    Permᴰ.trans
      (Permᴰ.append_left a (
        Permᴰ.trans
          (Permᴰ.append_left b (
            Permᴰ.trans (Permᴰ.append_left c (Permᴰ.middle x d (e ++ [])))
              (Permᴰ.middle x c (d ++ (e ++ [])))))
          (Permᴰ.middle x b (c ++ (d ++ (e ++ []))))))
      (Permᴰ.middle x a (b ++ (c ++ (d ++ (e ++ [])))))

selections-perm :
    (items : List Item)
    → any (λ item. not (is_typed (payload_domain item.payload))) items ≡ false
    → Permᴰ (selections items domains) items
unfolding is_in_domain
selections-perm [] t = Permᴰ.nil
selections-perm (x ∷ xs) t =
    Permᴰ.trans
      (put-perm (payload_domain x.payload) x (select (is_in_domain d_news) xs)
        (select (is_in_domain d_macro) xs) (select (is_in_domain d_policy) xs)
        (select (is_in_domain d_positioning) xs) (select (is_in_domain d_filing) xs) (ground arith))
      (Permᴰ.cons refl (selections-perm xs (ground arith)))

-- Each item of a typed Feed stands in one group.
pub groups-items :
    (items : List Item)
    → any (λ item. not (is_typed (payload_domain item.payload))) items ≡ false
    → Permᴰ (groups items domains) items
groups-items items t = Permᴰ.trans (groups-perm items domains) (selections-perm items t)
