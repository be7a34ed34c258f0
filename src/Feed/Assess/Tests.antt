-- ===== src/Feed/Assess/Tests.antt =====
-- Two Providers, of which one is blocked by its upstream.
use follow_the_money.Base.{
  ◌+◌, ◌≤◌, ◌<◌, ◌≡◌, ◌≢◌, refl, ◌⊎◌, inl, inr, true, false, none, some, List, [], ◌∷◌, ◌++◌, count,
  arith, ok, err,
}
use mathlib.Core.List.{Permᴰ}
use follow_the_money.Base.Order.{Str, str_order, str_leq}
use follow_the_money.Base.Table.{Table, contains, insert, lookup, member, get_or}
use follow_the_money.Base.Sort.{sort_by}
use follow_the_money.Base.Table.Perm.{IsDict}
use follow_the_money.Config.{ProviderEntry, CoverageRow, weekly, data_as_of}
use follow_the_money.Canonical.{is_scalar}
use follow_the_money.Feed.Outcome.{
  ProviderOutcome, State, Availability, bounded_availability_reason, surrogate, utf8_length,
  availability_reason_limit, blocked_exempt, contributes_to_coverage, ordered_outcomes,
}
use follow_the_money.Feed.Outcome.Laws.{bounded_availability_reason_lem, ordered_outcomes-perm}
use follow_the_money.Feed.Assess.{
  verdict, verdicts, assess_pipeline, failure, degraded, complete_member, blocked_member,
}
use follow_the_money.Feed.Assess.Planned.{IsSettled, assess_pipeline-IsSettled}
use follow_the_money.Feed.Assess.Order.{assess_pipeline-perm}
use follow_the_money.Feed.Assess.Coverage.{run_verdicts, assess_pipeline-minimum}

abbrev a : Str
a = 97 ∷ []

abbrev b : Str
b = 98 ∷ []

abbrev provider : Str → ProviderEntry
provider k = record {
  id = k;
  enabled = true;
  empty_valid_for_window = false;
  freshness = record { cadence = weekly; reference_time = data_as_of; valid_for_seconds = some 60 };
  rate_policy = none;
  fetch_hosts = [];
  redirect_hosts = [];
}

abbrev providers : List ProviderEntry
providers = provider a ∷ provider b ∷ []

abbrev row : CoverageRow
row = record { group = 103 ∷ []; members = a ∷ b ∷ []; minimum = 2; optional = false }

abbrev good : ProviderOutcome
good = record {
  provider_id = a;
  state = State.healthy;
  attempted = 1;
  fetched = 1;
  accepted = 3;
  rejected = 0;
  error = none;
  retrieved_at = none;
  freshness = none;
  availability = none;
  availability_reason = none;
  upstream_http_status = none;
  affected_coverage_groups = [];
  execution_failure = false;
  non_permitted_empty_observed = false;
  partial_resource_observed = false;
  terminal_incomplete = false;
}

abbrev denied : ProviderOutcome
denied = record good {
  provider_id = b;
  state = State.failed;
  accepted = 0;
  availability = some Availability.blocked;
  upstream_http_status = some 403;
}

abbrev table : Table Str ProviderOutcome
table = (a, good) ∷ (b, denied) ∷ []

abbrev swapped : Table Str ProviderOutcome
swapped = (b, denied) ∷ (a, good) ∷ []

table-IsDict : IsDict table
unfolding contains str_leq
table-IsDict = (refl, (refl, tt))

table-swapped : Permᴰ table swapped
table-swapped = Permᴰ.swap refl refl

run_status : (assess_pipeline providers (row ∷ []) (a ∷ b ∷ []) table).0 ≡ degraded
unfolding assess_pipeline verdict verdicts blocked_exempt contributes_to_coverage sort_by insert
    lookup str_leq contains member get_or complete_member blocked_member
run_status = refl

run_not_failure : (assess_pipeline providers (row ∷ []) (a ∷ b ∷ []) table).0 ≢ failure
run_not_failure h = ground (arith, run_status)

bounded_availability_reason_example :
    ((is_scalar b ≡ false) × (bounded_availability_reason (some b) ≡ err surrogate))
    ⊎ ((kept rest : Str) × (is_scalar b ≡ true)
        × (bounded_availability_reason (some b) ≡ ok (some kept))
        × (kept ++ rest ≡ b)
        × (utf8_length kept ≤ availability_reason_limit)
        × (utf8_length b ≤ availability_reason_limit → rest ≡ [])
        × (availability_reason_limit < utf8_length b → 252 < utf8_length kept))
bounded_availability_reason_example = bounded_availability_reason_lem b

denied-blocked : blocked_exempt denied ≡ true
unfolding blocked_exempt
denied-blocked = refl

ordered_outcomes_example : ordered_outcomes table ≡ ordered_outcomes swapped
ordered_outcomes_example = ordered_outcomes-perm table-swapped table-IsDict

assess_pipeline-IsSettled_example : IsSettled providers table b
assess_pipeline-IsSettled_example =
    assess_pipeline-IsSettled providers (row ∷ []) (a ∷ b ∷ []) table b table-IsDict run_not_failure
      (inr (inl refl))

assess_pipeline-perm_example :
    assess_pipeline providers (row ∷ []) (a ∷ b ∷ []) table
    ≡ assess_pipeline providers (row ∷ []) (a ∷ b ∷ []) swapped
assess_pipeline-perm_example =
    assess_pipeline-perm providers (row ∷ []) (a ∷ b ∷ []) table-swapped table-IsDict

assess_pipeline-minimum_example :
    2
    ≤ count (complete_member (run_verdicts providers (row ∷ []) (a ∷ b ∷ []) table)) (a ∷ b ∷ [])
      + count (blocked_member (run_verdicts providers (row ∷ []) (a ∷ b ∷ []) table)) (a ∷ b ∷ [])
assess_pipeline-minimum_example =
    assess_pipeline-minimum providers (row ∷ []) (a ∷ b ∷ []) table row run_not_failure (inl refl)
      refl
