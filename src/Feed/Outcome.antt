-- ===== src/Feed/Outcome.antt =====
-- src/follow_the_money/feed/plan.py, lines 101 to 205: the outcome of one Provider.
pub mod Laws
use follow_the_money.Base.{
  ℕ, zero, suc, ◌+◌, ◌-◌, Bool, true, false, Option, none, some, List, [], ◌∷◌, ◌&&◌, ◌||◌, not,
  ltb, leb, ◌==◌, if◌then◌else◌, Result, ok, err, ◌>>=◌,
}
use follow_the_money.Base.Order.{Str, str_order}
use follow_the_money.Base.Sort.{sort_by}
use follow_the_money.Base.Table.{Table, lookup, keys}
use follow_the_money.Base.Time.{Timestamp}
use follow_the_money.Canonical.{is_scalar}
use follow_the_money.Config.{Cadence}

-- `ProviderOutcome.state`; `unknown` is any other text.
pub data State : Type 0 where
  healthy empty partial failed skipped unknown : State

-- `availability`; `other` is any other text.
pub data Availability : Type 0 where
  success blocked failure other : Availability

pub data FreshnessStatus : Type 0 where
  fresh valid_unchanged stale no_snapshot not_evaluated : FreshnessStatus

-- The record that `_freshness_record` of feed/snapshot.py builds.
pub record Freshness : Type 0 where
  pub cadence : Cadence
  pub status : FreshnessStatus
  pub origin_contract_hash : Option Str
  pub carried_forward_from_run_id : Option Str

pub record ProviderOutcome : Type 0 where
  pub provider_id : Str
  pub state : State
  pub attempted : ℕ
  pub fetched : ℕ
  pub accepted : ℕ
  pub rejected : ℕ
  pub error : Option Str
  pub retrieved_at : Option Timestamp
  pub freshness : Option Freshness
  pub availability : Option Availability
  pub availability_reason : Option Str
  pub upstream_http_status : Option ℕ
  pub affected_coverage_groups : List Str
  pub execution_failure : Bool
  pub non_permitted_empty_observed : Bool
  pub partial_resource_observed : Bool
  pub terminal_incomplete : Bool

abbrev pub availability_reason_limit : ℕ
availability_reason_limit = 256

-- The number of bytes of a code point in UTF-8.
unfoldable pub utf8_width : ℕ → ℕ
utf8_width c = if ltb c 128 then 1 else if ltb c 2048 then 2 else if ltb c 65536 then 3 else 4

unfoldable pub utf8_length : Str → ℕ
unfolding utf8_width
utf8_length [] = 0
utf8_length (c ∷ s) = utf8_width c + utf8_length s

-- `encode("utf-8")[:n].decode("utf-8", errors="ignore")`: the code points that fit whole in the
-- first n bytes.
unfoldable pub cut_bytes : ℕ → Str → Str
unfolding utf8_width
cut_bytes n [] = []
cut_bytes n (c ∷ s) =
    let rest = cut_bytes (n - utf8_width c) s in if leb (utf8_width c) n then c ∷ rest else []

-- `UnicodeEncodeError`: a surrogate has no bytes in UTF-8.
pub data EncodeError : Type 0 where
  surrogate : EncodeError

unfoldable pub bounded_availability_reason : Option Str → Result EncodeError (Option Str)
unfolding utf8_length cut_bytes is_scalar
bounded_availability_reason none = ok none
bounded_availability_reason (some text) =
    if not (is_scalar text)
    then err surrogate
    else if leb (utf8_length text) availability_reason_limit
    then ok (some text)
    else ok (some (cut_bytes availability_reason_limit text))

unfoldable pub is_healthy : State → Bool
is_healthy healthy = true
is_healthy _ = false

unfoldable pub is_empty_state : State → Bool
is_empty_state empty = true
is_empty_state _ = false

unfoldable pub is_failed : State → Bool
is_failed failed = true
is_failed _ = false

unfoldable pub is_success : Availability → Bool
is_success success = true
is_success _ = false

unfoldable pub is_blocked : Availability → Bool
is_blocked blocked = true
is_blocked _ = false

-- The status code is 401 or 403.
unfoldable pub is_denied : Option ℕ → Bool
is_denied none = false
is_denied (some code) = (code == 401) || (code == 403)

resolve_availability : Option Availability → State → Availability
unfolding is_healthy is_empty_state
resolve_availability (some a) state = a
resolve_availability none state =
    if is_healthy state || is_empty_state state then success else failure

unfoldable pub resolved_availability : ProviderOutcome → Availability
unfolding resolve_availability
resolved_availability o = resolve_availability o.availability o.state

-- `availability_reason`: a text, or the status code that `f"HTTP {code}"` shows.
pub data Reason : Type 0 where
  text : Str → Reason
  http_status : ℕ → Reason

as_text : Option Str → Option Reason
as_text none = none
as_text (some s) = some (text s)

resolve_reason : Option Str → Bool → Option ℕ → Option Str → Result EncodeError (Option Reason)
unfolding as_text bounded_availability_reason
resolve_reason (some reason) succeeded status error =
    bounded_availability_reason (some reason) >>= λ r. ok (as_text r)
resolve_reason none true status error = ok none
resolve_reason none false (some code) error = ok (some (http_status code))
resolve_reason none false none error = bounded_availability_reason error >>= λ r. ok (as_text r)

unfoldable pub resolved_availability_reason : ProviderOutcome → Result EncodeError (Option Reason)
unfolding resolve_reason resolved_availability is_success
resolved_availability_reason o =
    resolve_reason o.availability_reason (is_success (resolved_availability o))
      o.upstream_http_status o.error

-- A refusal by the upstream, with nothing accepted, does not count against the Feed.
unfoldable pub blocked_exempt : ProviderOutcome → Bool
unfolding resolved_availability is_blocked is_denied is_failed
blocked_exempt o =
    is_blocked (resolved_availability o)
    && is_denied o.upstream_http_status
    && is_failed o.state
    && (o.accepted == 0)
    && (o.rejected == 0)
    && not o.non_permitted_empty_observed

unfoldable pub contributes_to_coverage : ProviderOutcome → Bool → Bool
unfolding resolved_availability is_success is_healthy is_empty_state
contributes_to_coverage o empty_valid_for_window =
    is_success (resolved_availability o)
    && (is_healthy o.state || (is_empty_state o.state && empty_valid_for_window))

-- The dictionary that `to_dict` makes, with a field for each key.
pub record OutcomeDict : Type 0 where
  pub provider_id : Str
  pub state : State
  pub attempted : ℕ
  pub fetched : ℕ
  pub succeeded : Bool
  pub empty : Bool
  pub partial : Bool
  pub failed : Bool
  pub skipped : Bool
  pub accepted : ℕ
  pub rejected : ℕ
  pub availability : Availability
  pub availability_reason : Option Reason
  pub upstream_http_status : Option ℕ
  pub affected_coverage_groups : List Str
  pub error : Option Str
  pub retrieved_at : Option Timestamp
  pub freshness : Option Freshness

is_partial : State → Bool
is_partial State.partial = true
is_partial _ = false

is_skipped : State → Bool
is_skipped State.skipped = true
is_skipped _ = false

unfoldable pub to_dict : ProviderOutcome → Result EncodeError OutcomeDict
unfolding is_partial is_skipped is_healthy is_empty_state is_failed resolved_availability
    resolved_availability_reason
to_dict o = resolved_availability_reason o >>= λ reason. ok (record {
  provider_id = o.provider_id;
  state = o.state;
  attempted = o.attempted;
  fetched = o.fetched;
  succeeded = is_healthy o.state || is_empty_state o.state || is_partial o.state;
  empty = is_empty_state o.state;
  partial = is_partial o.state;
  failed = is_failed o.state;
  skipped = is_skipped o.state;
  accepted = o.accepted;
  rejected = o.rejected;
  availability = resolved_availability o;
  availability_reason = reason;
  upstream_http_status = o.upstream_http_status;
  affected_coverage_groups = sort_by (λ g. g) o.affected_coverage_groups;
  error = o.error;
  retrieved_at = o.retrieved_at;
  freshness = o.freshness;
})

-- `[outcomes[pid] for pid in ids]`; the ids are keys of the table.
unfoldable pub gather {ℓ} : {V : Type ℓ} → List Str → Table Str V → List V
gather [] table = []
gather (k ∷ ks) table =
    let rest = gather ks table in elim (lookup k table) [ none ↦ rest | some v ↦ v ∷ rest ]

unfoldable pub ordered_outcomes : Table Str ProviderOutcome → List ProviderOutcome
unfolding gather
ordered_outcomes outcomes = gather (sort_by (λ k. k) (keys outcomes)) outcomes
