-- ===== src/Feed/Snapshot/Slices.antt =====
-- Which slices are carried forward.
use follow_the_money.Base.{
  ◌≡◌, refl, ◌⊎◌, inl, inr, Bool, true, false, Option, none, some, List, [], arith, Bool-cases,
  Result-cases, Result, ok, err, is_empty, map, ◌||◌,
}
use follow_the_money.Base.Order.{Str, str_order, pair_order}
use follow_the_money.Base.Table.{lookup, member}
use follow_the_money.Config.{FreshnessContract}
use follow_the_money.Feed.Item.{Item}
use follow_the_money.Feed.Freshness.{FreshnessError, evaluate_freshness, text}
use follow_the_money.Feed.Outcome.{ProviderOutcome, Freshness, FreshnessStatus, not_evaluated}
use follow_the_money.Feed.Snapshot.{
  Texts, Selection, InvalidReason, current_slice, prior_slice, origin_hash, prior_run_id,
  invalid_reason, is_strict, differs, freshness_record, with_freshness, evaluated,
}
use follow_the_money.Feed.Snapshot.Select.{
  no_slice, take_current, carry_prior, choose, is_changed, select_complete, judge_slice,
  is_complete, select_one,
}

-- The run from which an outcome says that its slice was carried forward.
unfoldable pub carried_from : Option Freshness → Option Str
carried_from none = none
carried_from (some f) = f.carried_forward_from_run_id

evaluated_lem :
    (r : Result FreshnessError FreshnessStatus) (status : FreshnessStatus)
    → evaluated r ≡ ok status
    → r ≡ ok status
unfolding evaluated
evaluated_lem (ok x) status e = ground arith
evaluated_lem (err x) status e = ground arith

module _ (s : Selection) (contract : FreshnessContract) (k : Str) where
  -- The current slice is selected, or none, and nothing is carried forward.
  abbrev pub IsCurrent : List Item → ProviderOutcome → List Item → Type 0
  IsCurrent current o' items =
      (carried_from o'.freshness ≡ none) × ((items ≡ current) ⊎ (items ≡ []))

  -- The prior slice is selected whole, and the outcome names the run and the contract that it comes
  -- from and what `evaluate_freshness` says of it.
  abbrev pub IsCarried : ProviderOutcome → List Item → ProviderOutcome → List Item → Type 0
  IsCarried o prior o' items =
      (run_id origin : Str) × ((status : FreshnessStatus) × (is_empty prior ≡ false)
        × (items ≡ prior)
        × (prior_run_id s.active_feed ≡ some run_id)
        × (origin_hash s.active_feed k ≡ some origin)
        × (evaluate_freshness prior contract (text s.evidence_cutoff_at) true o.retrieved_at
            ≡ ok status)
        × (o'.freshness ≡ some (freshness_record contract status (some origin) (some run_id))))

  take_current-IsCurrent :
      (hash : Option Str) (o o' : ProviderOutcome) (current items : List Item)
      → take_current s contract hash o current ≡ ok (o', items)
      → IsCurrent current o' items
  unfolding take_current carried_from freshness_record with_freshness
  take_current-IsCurrent none o o' current items e = ground arith
  take_current-IsCurrent (some hash) o o' current items e = elim (Bool-cases (is_empty hash)) [
    | inl t ↦ ground arith
    | inr u ↦
        elim (Result-cases (
          evaluated (
            evaluate_freshness current contract (text s.evidence_cutoff_at) false
              o.retrieved_at))) [ inr (x, bad) ↦ ground arith | inl (status, f) ↦ ground arith ]
  ]

  carry_prior-IsCarried :
      (run_id origin : Option Str) (o o' : ProviderOutcome) (current prior items : List Item)
      → prior_run_id s.active_feed ≡ run_id
      → origin_hash s.active_feed k ≡ origin
      → carried_from o.freshness ≡ none
      → is_empty prior ≡ false
      → carry_prior s contract run_id origin o current prior ≡ ok (o', items)
      → IsCurrent current o' items ⊎ IsCarried o prior o' items
  unfolding carry_prior no_slice carried_from freshness_record with_freshness
  carry_prior-IsCarried none origin o o' current prior items r h c n e = ground arith
  carry_prior-IsCarried (some run_id) none o o' current prior items r h c n e = ground arith
  carry_prior-IsCarried (some run_id) (some origin) o o' current prior items r h c n e =
      let fresh =
        evaluate_freshness prior contract (text s.evidence_cutoff_at) true o.retrieved_at in
      elim (Result-cases (evaluated fresh)) [
        | inr (x, bad) ↦ ground arith
        | inl (status, f) ↦ inr (
          run_id,
          origin,
          (status, n, ground arith, r, h, evaluated_lem fresh status f, ground arith),
        )
      ]

  choose-IsCarried :
      (o o' : ProviderOutcome) (changed : Bool) (current prior items : List Item)
      → carried_from o.freshness ≡ none
      → choose s contract k o changed current prior ≡ ok (o', items)
      → IsCurrent current o' items ⊎ ((changed ≡ false) × IsCarried o prior o' items)
  unfolding choose no_slice carried_from freshness_record with_freshness
  choose-IsCarried o o' true current prior items c e = elim (Bool-cases (is_empty current)) [
    | inl t ↦ ground arith
    | inr u ↦ inl (
        take_current-IsCurrent (lookup k s.current_contract_hashes) o o' current items
          (ground arith))
  ]
  choose-IsCarried o o' false current prior items c e = elim (Bool-cases (is_empty prior)) [
    | inl t ↦ elim (Bool-cases (is_empty current)) [
      | inl v ↦ ground arith
      | inr u ↦ inl (
          take_current-IsCurrent (lookup k s.current_contract_hashes) o o' current items
            (ground arith))
    ]
    | inr u ↦
        elim (carry_prior-IsCarried (prior_run_id s.active_feed) (origin_hash s.active_feed k) o o'
          current prior items refl refl c u (ground arith)) [
            | inl x ↦ inl x
            | inr x ↦ inr (refl, x)
          ]
  ]

  module _ (t : Texts) where
    select_complete-IsCarried :
        (o o' : ProviderOutcome) (current prior items : List Item)
        → carried_from o.freshness ≡ none
        → select_complete t s contract k o current prior ≡ ok (o', items)
        → IsCurrent current o' items
          ⊎ ((is_changed t prior current ≡ false) × IsCarried o prior o' items)
    unfolding select_complete no_slice carried_from freshness_record with_freshness
    select_complete-IsCarried o o' current prior items c e =
        elim (Bool-cases (member k s.complete_state_provider_ids)) [
          | inl m ↦ elim (Bool-cases (is_empty current)) [
            | inl v ↦ ground arith
            | inr u ↦
                elim (choose-IsCarried o o'
                  (is_changed t prior current
                    || differs (map (λ i. i.id) current) (map (λ i. i.id) prior))
                  current prior items c (ground arith)) [
                    | inl x ↦ inl x
                    | inr (n, x) ↦ inr (ground arith, x)
                  ]
          ]
          | inr m ↦
              choose-IsCarried o o' (is_changed t prior current) current prior items c
                (ground arith)
        ]

    judge_slice-IsCarried :
        (o o' : ProviderOutcome) (complete : Bool) (reason : Option InvalidReason)
        (current prior items : List Item)
        → carried_from o.freshness ≡ none
        → judge_slice t s contract k o complete reason current prior ≡ ok (o', items)
        → IsCurrent current o' items
          ⊎ ((complete ≡ true)
              × (reason ≡ none)
              × (is_changed t prior current ≡ false)
              × IsCarried o prior o' items)
    unfolding judge_slice carried_from
    judge_slice-IsCarried o o' false reason current prior items c e = ground arith
    judge_slice-IsCarried o o' true (some r) current prior items c e = ground arith
    judge_slice-IsCarried o o' true none current prior items c e =
        elim (select_complete-IsCarried o o' current prior items c e) [
          | inl x ↦ inl x
          | inr (n, x) ↦ inr (refl, refl, n, x)
        ]

-- A Provider's turn selects its current slice, or nothing, and carries nothing forward; or it
-- selects the whole slice of the active Feed and names its run, its contract and its freshness. It
-- does the latter only if the run of this Provider is complete, its current items have sound
-- identities, and none of them is new or changed.
pub select_one-IsCarried :
    (t : Texts) (s : Selection) (planned : List Str) (k : Str) (o o' : ProviderOutcome)
    (contract : FreshnessContract) (items : List Item)
    → lookup k s.contracts ≡ some contract
    → select_one t s planned k o ≡ ok (o', items)
    → IsCurrent s contract k (current_slice planned s.current_items k) o' items
      ⊎ ((is_complete t s k o ≡ true)
          × (invalid_reason (is_strict s planned k) k [] (current_slice planned s.current_items k)
              ≡ none)
          × (is_changed t (prior_slice s.active_feed k) (current_slice planned s.current_items k)
              ≡ false)
          × IsCarried s contract k o (prior_slice s.active_feed k) o' items)
unfolding select_one with_freshness freshness_record carried_from
select_one-IsCarried t s planned k o o' contract items l e =
    judge_slice-IsCarried s contract k t
      (with_freshness o (freshness_record contract not_evaluated none none)) o'
      (is_complete t s k o)
      (invalid_reason (is_strict s planned k) k [] (current_slice planned s.current_items k))
      (current_slice planned s.current_items k) (prior_slice s.active_feed k) items refl
      (ground arith)
