-- ===== src/Feed/Snapshot/Origin.antt =====
-- Where the selected items come from.
use mathlib.Core.Path.{◌≡◌, refl, sym, subst}
use follow_the_money.Base.{
  ◌⊎◌, inl, inr, Option, none, some, List, [], ◌∷◌, ◌++◌, arith, Option-cases, Result-cases,
  if◌then◌else◌, ok, In, Bool, true, false, Bool-cases,
}
use follow_the_money.Base.Order.{Str, str_order, pair_order, same, same→eq}
use follow_the_money.Base.Sort.{sort_by}
use follow_the_money.Base.Sort.Members.{sort_by-In, select-In, select-passes, In-append}
use follow_the_money.Base.Table.{Table, lookup, keys, member}
use follow_the_money.Feed.Item.{Item, item_total_order_key}
use follow_the_money.Feed.Outcome.{ProviderOutcome}
use follow_the_money.Feed.Snapshot.{
  Texts, Selection, ActiveFeed, current_slice, prior_slice, fallback_provider, is_fallback,
  invalid_reason, is_strict, prior_run_id, freshness_record,
}
use follow_the_money.Feed.Snapshot.Select.{
  is_changed, is_complete, select_one, select_slices, select_provider_slices,
}
use follow_the_money.Feed.Snapshot.Slices.{carried_from, select_one-IsCarried}

-- The item is one of the active Feed.
abbrev pub InActive : Option ActiveFeed → Item → Type 0
InActive none item = ⊥
InActive (some feed) item = In item feed.items

prior_slice-In :
    (feed : Option ActiveFeed) (k : Str) (item : Item)
    → In item (prior_slice feed k)
    → InActive feed item
unfolding prior_slice
prior_slice-In none k item h = elim h [ ]
prior_slice-In (some feed) k item h = select-In (λ i. same i.provider_id k) item feed.items h

prior_slice-provider_id :
    (feed : Option ActiveFeed) (k : Str) (item : Item)
    → In item (prior_slice feed k)
    → item.provider_id ≡ k
unfolding prior_slice
prior_slice-provider_id none k item h = elim h [ ]
prior_slice-provider_id (some feed) k item h =
    same→eq item.provider_id k (select-passes (λ i. same i.provider_id k) item feed.items h)

-- The item is of the Provider; or it is of none that is planned, and the Provider is the only one.
abbrev pub IsAssigned : List Str → Item → Str → Type 0
IsAssigned planned item k =
    (item.provider_id ≡ k) ⊎ ((member item.provider_id planned ≡ false) × (planned ≡ k ∷ []))

is_fallback_lem :
    (planned : List Str) (k : Str)
    → is_fallback (fallback_provider planned) k ≡ true
    → planned ≡ k ∷ []
unfolding is_fallback fallback_provider
is_fallback_lem [] k p = ground arith
is_fallback_lem (j ∷ []) k p = rw (same→eq j k p) refl
is_fallback_lem (j ∷ i ∷ planned) k p = ground arith

assigned_lem :
    (planned : List Str) (item : Item) (k : Str)
    → (if member item.provider_id planned
        then same item.provider_id k
        else is_fallback (fallback_provider planned) k)
      ≡ true
    → IsAssigned planned item k
assigned_lem planned item k p = elim (Bool-cases (member item.provider_id planned)) [
  | inl m ↦ inl (same→eq item.provider_id k (rw m at p))
  | inr m ↦ inr (m, is_fallback_lem planned k (rw m at p))
]

module _ (t : Texts) (s : Selection) (planned : List Str) (item : Item) where
  -- The item was fetched in this run for the Provider, whose outcome names no other run.
  abbrev pub IsFetched : Str → ProviderOutcome → Type 0
  IsFetched k o' =
      In item s.current_items × IsAssigned planned item k × (carried_from o'.freshness ≡ none)

  -- The item is the Provider's in the active Feed, and is carried forward: the Provider's run is
  -- complete, its current items have sound identities and none of them is new or changed, and its
  -- outcome names the run of the active Feed.
  abbrev pub IsRetained : Str → ProviderOutcome → ProviderOutcome → Type 0
  IsRetained k o o' =
      InActive s.active_feed item
      × (item.provider_id ≡ k)
      × (is_complete t s k o ≡ true)
      × (invalid_reason (is_strict s planned k) k [] (current_slice planned s.current_items k)
          ≡ none)
      × (is_changed t (prior_slice s.active_feed k) (current_slice planned s.current_items k)
          ≡ false)
      × ((run_id : Str) × (prior_run_id s.active_feed ≡ some run_id)
          × (carried_from o'.freshness ≡ some run_id))

  -- The Provider for which the item was selected, its outcome and what the code makes of it.
  pub record IsSelected (outcomes os : Table Str ProviderOutcome) : Type 0 where
    pub provider : Str
    pub before : ProviderOutcome
    pub after : ProviderOutcome
    pub given : In (provider, before) outcomes
    pub made : In (provider, after) os
    pub origin : IsFetched provider after ⊎ IsRetained provider before after

  current_slice-In :
      (k : Str)
      → In item (current_slice planned s.current_items k)
      → In item s.current_items × IsAssigned planned item k
  unfolding current_slice
  current_slice-In k h =
      let test : Item → Bool = λ i.
        if member i.provider_id planned
        then same i.provider_id k
        else is_fallback (fallback_provider planned) k in
      (
        select-In test item s.current_items h,
        assigned_lem planned item k (select-passes test item s.current_items h),
      )

  select_one-In :
      (k : Str) (o o' : ProviderOutcome) (items : List Item)
      → select_one t s planned k o ≡ ok (o', items)
      → In item items
      → IsFetched k o' ⊎ IsRetained k o o'
  unfolding select_one carried_from freshness_record
  select_one-In k o o' items e h = elim (Option-cases (lookup k s.contracts)) [
    | inl n ↦ ground arith
    | inr (contract, l) ↦ elim (select_one-IsCarried t s planned k o o' contract items l e) [
      | inl (c, (inl q)) ↦
          (let found = current_slice-In k (subst (In item) q h) in inl (found.0, found.1, c))
      | inl (c, (inr q)) ↦ elim (subst (In item) q h) [ ]
      | inr (complete, valid, unchanged, (run_id, origin, (status, n, q, r, g, v, f))) ↦
          (let i = subst (In item) q h in
            inr (
              prior_slice-In s.active_feed k item i,
              prior_slice-provider_id s.active_feed k item i,
              complete,
              valid,
              unchanged,
              (run_id, r, rw f refl),
            ))
    ]
  ]

  select_slices-In :
      (outcomes os : Table Str ProviderOutcome) (items : List Item)
      → select_slices t s planned outcomes ≡ ok (os, items)
      → In item items
      → IsSelected outcomes os
  unfolding select_slices
  select_slices-In [] os items e h = ground arith
  select_slices-In ((k, o) ∷ outcomes) os items e h =
      elim (Result-cases (select_one t s planned k o)) [
        | inr (x, bad) ↦ ground arith
        | inl ((o', first), f) ↦ elim (Result-cases (select_slices t s planned outcomes)) [
          | inr (x, bad) ↦ ground arith
          | inl ((os', rest), g) ↦
              (let q : items ≡ first ++ rest = ground arith in
                let p : os ≡ (k, o') ∷ os' = ground arith in
                elim (In-append item first rest (subst (In item) q h)) [
                  | inl i ↦ record {
                    provider = k;
                    before = o;
                    after = o';
                    given = inl refl;
                    made = subst (In (k, o')) (sym p) (inl refl);
                    origin = select_one-In k o o' first f i;
                  }
                  | inr i ↦
                      (let found = select_slices-In outcomes os' rest g i in
                        record {
                          provider = found.provider;
                          before = found.before;
                          after = found.after;
                          given = inr found.given;
                          made = subst (In (found.provider, found.after)) (sym p) (inr found.made);
                          origin = found.origin;
                        })
                ])
        ]
      ]

-- Every selected item was selected for one of the Providers. It was fetched in this run, is of that
-- Provider (or of none that is planned, where there is only one), and the Provider's outcome names
-- no earlier run; or it is that Provider's in the active Feed, the Provider's run is complete with
-- sound identities and with no item that is new or changed, and its outcome names the run of the
-- active Feed.
pub select_provider_slices-IsSelected :
    (t : Texts) (s : Selection) (outcomes os : Table Str ProviderOutcome) (items : List Item)
    (item : Item)
    → select_provider_slices t s outcomes ≡ ok (os, items)
    → In item items
    → IsSelected t s (keys outcomes) item outcomes os
unfolding select_provider_slices
select_provider_slices-IsSelected t s outcomes os items item e h =
    let sorted = sort_by (λ e. e.0) outcomes in
    elim (Result-cases (select_slices t s (keys outcomes) sorted)) [
      | inr (x, bad) ↦ ground arith
      | inl ((os', chosen), f) ↦
          (let q : items ≡ sort_by item_total_order_key chosen = ground arith in
            let p : os' ≡ os = ground arith in
            let found =
              select_slices-In t s (keys outcomes) item sorted os' chosen f
                (sort_by-In item_total_order_key item chosen (subst (In item) q h)) in
            record {
              provider = found.provider;
              before = found.before;
              after = found.after;
              given = sort_by-In (λ e. e.0) (found.provider, found.before) outcomes found.given;
              made = subst (In (found.provider, found.after)) p found.made;
              origin = found.origin;
            })
    ]
