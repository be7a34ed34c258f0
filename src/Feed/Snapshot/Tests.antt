-- ===== src/Feed/Snapshot/Tests.antt =====
-- One Provider whose slice of one item is the same as in the active Feed.
use mathlib.Core.Path.{◌≡◌, refl}
use follow_the_money.Base.{◌*◌, ◌≢◌, ◌⊎◌, inl, true, false, none, some, [], ◌∷◌, ◌++◌, ok}
use follow_the_money.Base.Order.{Str, str_order, str_leq, pair_order}
use follow_the_money.Base.Sort.{sort_by}
use follow_the_money.Base.Table.{lookup, insert, contains, member}
use follow_the_money.Base.Time.{second, utc}
use follow_the_money.Config.{FreshnessContract, weekly, data_as_of}
use follow_the_money.Feed.Item.{Item, positioning}
use follow_the_money.Feed.Assess.{Status, failure}
use follow_the_money.Feed.Freshness.{evaluate_freshness, reference_time_for_item}
use follow_the_money.Feed.Outcome.{
  ProviderOutcome, is_healthy, State, Availability, valid_unchanged,
}
use follow_the_money.Feed.Snapshot.{
  Texts, ActiveFeed, Selection, current_slice, prior_slice, invalid_reason, is_strict,
  freshness_record, with_freshness, by_id, prior_run_id, origin_hash, evaluated,
}
use follow_the_money.Feed.Snapshot.Select.{
  select_one, select_provider_slices, is_complete, is_changed,
}
use follow_the_money.Feed.Snapshot.Slices.{IsCurrent, IsCarried, select_one-IsCarried}
use follow_the_money.Feed.Snapshot.Origin.{IsSelected, select_provider_slices-IsSelected}
use follow_the_money.Feed.Snapshot.Active.{
  entry, named, PublishedFeed, bundle, checked, load_active_feed,
}
use follow_the_money.Feed.Snapshot.Consumable.{IsVouched, load_active_feed-IsVouched}

abbrev texts : Texts
texts = record { canonical = λ i. i.id; describe = λ r. 33 ∷ [] }

abbrev provider : Str
provider = 112 ∷ []

abbrev item : Item
item = record {
  id = 97 ∷ [];
  provider_id = provider;
  title = [];
  source = record {
    source_id = none;
    url = [];
    knowledge_available_at = [];
    published_at = none;
    updated_at = none;
    original_publisher = none;
    syndication_origin = none;
  };
  payload = positioning (some (utc (100 * second)));
  source_lineage = none;
  content = [];
}

abbrev sixteen : Str
sixteen = 97 ∷ 97 ∷ 97 ∷ 97 ∷ 97 ∷ 97 ∷ 97 ∷ 97 ∷ 97 ∷ 97 ∷ 97 ∷ 97 ∷ 97 ∷ 97 ∷ 97 ∷ 97 ∷ []

abbrev hash : Str
hash = sixteen ++ sixteen ++ sixteen ++ sixteen

abbrev active : ActiveFeed
active = record {
  run_id = some (114 ∷ []);
  previous_major = false;
  items = item ∷ [];
  provider_contracts = (provider, some hash) ∷ [];
  origins = [];
}

abbrev contract : FreshnessContract
contract = record { cadence = weekly; reference_time = data_as_of; valid_for_seconds = some 60 }

abbrev selection : Selection
selection = record {
  current_items = item ∷ [];
  active_feed = some active;
  contracts = (provider, contract) ∷ [];
  current_contract_hashes = (provider, hash) ∷ [];
  empty_valid_for_window = [];
  evidence_cutoff_at = utc (150 * second);
  strict_identity_provider_ids = none;
  complete_state_provider_ids = [];
}

abbrev outcome : ProviderOutcome
outcome = record {
  provider_id = provider;
  state = State.healthy;
  attempted = 1;
  fetched = 1;
  accepted = 1;
  rejected = 0;
  error = none;
  retrieved_at = none;
  freshness = none;
  availability = none;
  availability_reason = none;
  upstream_http_status = none;
  affected_coverage_groups = [];
  execution_failure = false;
  non_permitted_empty_observed = false;
  partial_resource_observed = false;
  terminal_incomplete = false;
}

abbrev carried : ProviderOutcome
carried = record outcome {
  freshness = some (record {
    cadence = weekly;
    status = valid_unchanged;
    origin_contract_hash = some hash;
    carried_forward_from_run_id = some (114 ∷ []);
  });
}

has_contract : lookup provider selection.contracts ≡ some contract
unfolding lookup str_leq
has_contract = refl

turn : select_one texts selection (provider ∷ []) provider outcome ≡ ok (carried, item ∷ [])
unfolding select_one lookup str_leq current_slice member prior_slice is_healthy invalid_reason
    is_strict by_id insert prior_run_id origin_hash evaluated evaluate_freshness
    reference_time_for_item with_freshness freshness_record
turn = refl

selects :
    select_provider_slices texts selection ((provider, outcome) ∷ [])
    ≡ ok ((provider, carried) ∷ [], item ∷ [])
unfolding select_provider_slices select_one lookup str_leq current_slice member prior_slice sort_by
    is_healthy invalid_reason is_strict by_id insert prior_run_id origin_hash evaluated
    evaluate_freshness reference_time_for_item with_freshness freshness_record
selects = refl

select_one-IsCarried_example :
    IsCurrent selection contract provider
      (current_slice (provider ∷ []) selection.current_items provider)
      carried
      (item ∷ [])
    ⊎ ((is_complete texts selection provider outcome ≡ true)
        × (invalid_reason
              (is_strict selection (provider ∷ []) provider)
              provider
              []
              (current_slice (provider ∷ []) selection.current_items provider)
            ≡ none)
        × (is_changed texts
              (prior_slice selection.active_feed provider)
              (current_slice (provider ∷ []) selection.current_items provider)
            ≡ false)
        × IsCarried selection contract provider outcome
            (prior_slice selection.active_feed provider)
            carried
            (item ∷ []))
select_one-IsCarried_example =
    select_one-IsCarried texts selection (provider ∷ []) provider outcome carried contract
      (item ∷ []) has_contract turn

select_provider_slices-IsSelected_example :
    IsSelected texts selection
      (provider ∷ [])
      item
      ((provider, outcome) ∷ [])
      ((provider, carried) ∷ [])
select_provider_slices-IsSelected_example =
    select_provider_slices-IsSelected texts selection ((provider, outcome) ∷ [])
      ((provider, carried) ∷ []) (item ∷ []) item selects (inl refl)

abbrev published : PublishedFeed
published = record {
  status = Status.healthy;
  provider_contracts =
      entry provider (some hash)
        (record { provider_id = some provider; empty_valid_for_window = false; digest = hash })
      ∷ [];
  provider_outcomes =
      named (record {
        provider_id = provider;
        state = State.healthy;
        availability = Availability.success;
        upstream_http_status = none;
        accepted = 1;
        rejected = 0;
      })
      ∷ [];
  items = item ∷ [];
}

loads : load_active_feed (bundle published) ≡ some published
unfolding load_active_feed contains insert lookup str_leq member is_healthy checked
loads = refl

load_active_feed-IsVouched_example : (published.status ≢ failure) × IsVouched published provider
load_active_feed-IsVouched_example =
    load_active_feed-IsVouched (bundle published) published item loads (inl refl)
