-- ===== src/Feed/Snapshot/Select.antt =====
-- src/follow_the_money/feed/snapshot.py, lines 178 to 312: the loop of `select_provider_slices`.
use follow_the_money.Base.{
  Bool, true, false, Option, none, some, List, [], ◌∷◌, ◌++◌, ◌&&◌, ◌||◌, not, map, if◌then◌else◌,
  Result, ok, err, ◌>>=◌, any, is_empty,
}
use follow_the_money.Base.Order.{Str, str_order, pair_order, same}
use follow_the_money.Base.Sort.{sort_by}
use follow_the_money.Base.Table.{Table, lookup, get_or, keys, member}
use follow_the_money.Config.{FreshnessContract}
use follow_the_money.Feed.Item.{Item, item_total_order_key}
use follow_the_money.Feed.Freshness.{evaluate_freshness, text}
use follow_the_money.Feed.Outcome.{
  ProviderOutcome, State, no_snapshot, not_evaluated, is_healthy, is_empty_state,
}
use follow_the_money.Feed.Snapshot.{
  Texts, SnapshotError, missing_contract, missing_contract_hash, Selection, current_slice,
  prior_slice, origin_hash, prior_run_id, InvalidReason, invalid_reason, by_id, differs, is_strict,
  freshness_record, with_freshness, evaluated,
}

-- What a Provider's turn in the loop gives: its outcome, and the items that are selected.
abbrev pub Turn : Type 0
Turn = Result SnapshotError (ProviderOutcome × List Item)

-- No slice is selected, or one of unknown provenance.
unfoldable pub no_slice : FreshnessContract → ProviderOutcome → List Item → Turn
no_slice contract o items =
    ok (with_freshness o (freshness_record contract no_snapshot none none), items)

-- The current slice replaces the prior one. An empty hash is like none.
unfoldable pub take_current :
    Selection → FreshnessContract → Option Str → ProviderOutcome → List Item → Turn
take_current s contract none o current = err missing_contract_hash
take_current s contract (some hash) o current =
    if is_empty hash
    then err missing_contract_hash
    else evaluated
        (evaluate_freshness current contract (text s.evidence_cutoff_at) false o.retrieved_at)
      >>= λ status.
          ok (with_freshness o (freshness_record contract status (some hash) none), current)

-- The prior slice is carried forward, if its provenance is known.
unfoldable pub carry_prior :
    Selection
    → FreshnessContract
    → Option Str
    → Option Str
    → ProviderOutcome
    → List Item
    → List Item
    → Turn
unfolding no_slice
carry_prior s contract none origin o current prior = no_slice contract o current
carry_prior s contract (some run_id) none o current prior = no_slice contract o current
carry_prior s contract (some run_id) (some origin) o current prior =
    evaluated (evaluate_freshness prior contract (text s.evidence_cutoff_at) true o.retrieved_at)
    >>= λ status.
        ok (with_freshness o (freshness_record contract status (some origin) (some run_id)), prior)

-- What to do with a Provider whose current slice is complete and valid.
unfoldable pub choose :
    Selection → FreshnessContract → Str → ProviderOutcome → Bool → List Item → List Item → Turn
unfolding no_slice take_current carry_prior
choose s contract k o changed current prior =
    if changed || (not (is_empty current) && is_empty prior)
    then (if is_empty current
        then ok (o, [])
        else take_current s contract (lookup k s.current_contract_hashes) o current)
    else if not (is_empty prior)
    then carry_prior s contract (prior_run_id s.active_feed) (origin_hash s.active_feed k) o current
        prior
    else no_slice contract o []

module _ (t : Texts) where
  -- `_same_item`, with the prior item of the same id.
  unfoldable pub is_unchanged : Option Item → Item → Bool
  is_unchanged none item = false
  is_unchanged (some old) item = same (t.canonical item) (t.canonical old)

  unfoldable pub is_changed : List Item → List Item → Bool
  unfolding is_unchanged
  is_changed prior current =
      any (λ item. not (is_unchanged (lookup item.id (by_id [] prior)) item)) current

  -- A complete and valid slice. For a Provider of complete states every identity counts.
  unfoldable pub select_complete :
      Selection → FreshnessContract → Str → ProviderOutcome → List Item → List Item → Turn
  unfolding no_slice choose is_changed
  select_complete s contract k o current prior =
      let changed = is_changed prior current in
      if member k s.complete_state_provider_ids
      then (if is_empty current
          then no_slice contract o []
          else choose s contract k o
              (changed || differs (map (λ i. i.id) current) (map (λ i. i.id) prior)) current prior)
      else choose s contract k o changed current prior

  -- A slice that is not complete, or not valid, stands as it is.
  unfoldable pub judge_slice :
      Selection
      → FreshnessContract
      → Str
      → ProviderOutcome
      → Bool
      → Option InvalidReason
      → List Item
      → List Item
      → Turn
  unfolding select_complete
  judge_slice s contract k o false reason current prior = ok (o, current)
  judge_slice s contract k o true (some reason) current prior =
      ok (record o { state = State.failed; error = some (t.describe reason) }, current)
  judge_slice s contract k o true none current prior = select_complete s contract k o current prior

  unfoldable pub is_complete : Selection → Str → ProviderOutcome → Bool
  is_complete s k o =
      is_healthy o.state || (is_empty_state o.state && get_or s.empty_valid_for_window k false)

  -- One turn of the loop over the Providers.
  unfoldable pub select_one : Selection → List Str → Str → ProviderOutcome → Turn
  unfolding is_complete judge_slice
  select_one s planned k o = elim (lookup k s.contracts) [
    | none ↦ err missing_contract
    | some contract ↦
        let current = current_slice planned s.current_items k in
        judge_slice s contract k
          (with_freshness o (freshness_record contract not_evaluated none none)) (is_complete s k o)
          (invalid_reason (is_strict s planned k) k [] current) current
          (prior_slice s.active_feed k)
  ]

  -- The loop over the sorted ids.
  unfoldable pub select_slices :
      Selection
      → List Str
      → Table Str ProviderOutcome
      → Result SnapshotError (Table Str ProviderOutcome × List Item)
  unfolding select_one
  select_slices s planned [] = ok ([], [])
  select_slices s planned ((k, o) ∷ es) = select_one s planned k o >>= λ r.
      select_slices s planned es >>= λ rest. ok ((k, r.0) ∷ rest.0, r.1 ++ rest.1)

  -- The outcomes with what the code assigns to them, and the selected items.
  unfoldable pub select_provider_slices :
      Selection
      → Table Str ProviderOutcome
      → Result SnapshotError (Table Str ProviderOutcome × List Item)
  unfolding select_slices
  select_provider_slices s outcomes =
      select_slices s (keys outcomes) (sort_by (λ e. e.0) outcomes) >>= λ r.
      ok (r.0, sort_by item_total_order_key r.1)
