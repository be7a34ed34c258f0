-- ===== src/Feed/Assess.antt =====
-- src/follow_the_money/feed/plan.py, lines 208 to 337: the status of a run and its warnings, from
-- the outcomes of the planned Providers. A warning holds the parts of the text that the code builds,
-- and the `UnicodeEncodeError` that the reading of a reason with a surrogate raises.
pub mod Planned
pub mod Order
pub mod Coverage
mod Tests
use follow_the_money.Base.{
  ℕ, ◌+◌, ◌-◌, Bool, true, false, Option, none, some, List, [], ◌∷◌, ◌++◌, ◌&&◌, ◌||◌, not, map,
  ltb, if◌then◌else◌, any, Result, count, select, is_empty,
}
use follow_the_money.Base.Order.{Str, str_order, same}
use follow_the_money.Base.Sort.{sort_by}
use follow_the_money.Base.Table.{Table, lookup, insert, get_or, keys, member}
use follow_the_money.Config.{ProviderEntry, CoverageRow}
use follow_the_money.Feed.Outcome.{
  State, Availability, Reason, EncodeError, ProviderOutcome, is_empty_state, resolved_availability,
  resolved_availability_reason, blocked_exempt, contributes_to_coverage,
}

pub data Status : Type 0 where
  failure degraded healthy : Status

pub data IncompleteReason : Type 0 where
  missing_contract identity_mismatch missing_outcome ambiguous_outcome : IncompleteReason
  unknown_state empty_not_permitted incomplete_state : IncompleteReason

pub data Warning : Type 0 where
  duplicate_planned : List Str → Warning
  blocked_exempted : Str → Availability → Result EncodeError (Option Reason) → List Str → Warning
  source_incomplete :
      Str → Option State → Option Availability → Option Str → Option IncompleteReason → Warning
  deficient_groups : List Str → Warning

-- What the loop over the planned ids finds for one of them.
pub record Verdict : Type 0 where
  pub complete : Bool
  pub blocked : Bool
  pub warnings : List Warning

-- `{provider.id: provider for provider in config.providers}`: a later entry replaces an earlier.
pub provider_table : Table Str ProviderEntry → List ProviderEntry → Table Str ProviderEntry
provider_table table [] = table
provider_table table (p ∷ ps) = provider_table (insert p.id p table) ps

-- `plan_counts`
pub plan_counts : Table Str ℕ → List Str → Table Str ℕ
plan_counts table [] = table
plan_counts table (k ∷ ks) = plan_counts (insert k (get_or table k 0 + 1) table) ks

pub duplicate_ids : Table Str ℕ → List Str
duplicate_ids counts = sort_by (λ k. k) (keys (select (λ e. ltb 1 e.1) counts))

pub is_terminal : State → Bool
is_terminal State.unknown = false
is_terminal _ = true

-- `complete_for`
pub complete_for : Option ProviderEntry → Option ProviderOutcome → Bool
unfolding is_terminal
complete_for (some p) (some o) =
    same o.provider_id p.id
    && is_terminal o.state
    && contributes_to_coverage o p.empty_valid_for_window
complete_for _ _ = false

-- The entries whose outcome names the id, sorted by their key.
pub candidates : Str → Table Str ProviderOutcome → Table Str ProviderOutcome
candidates provider_id outcomes =
    sort_by (λ e. e.0) (select (λ e. same e.1.provider_id provider_id) outcomes)

pub chosen : Table Str ProviderOutcome → Option ProviderOutcome → Option ProviderOutcome
chosen [] fallback = fallback
chosen (c ∷ cs) fallback = some c.1

names_other : Str → Option ProviderOutcome → Bool
names_other provider_id none = false
names_other provider_id (some o) = not (same o.provider_id provider_id)

-- The arguments are the id, its contract, its candidates and `outcomes.get(provider_id)`.
reason_for :
    Str
    → Option ProviderEntry
    → Table Str ProviderOutcome
    → Option ProviderOutcome
    → Option IncompleteReason
unfolding names_other is_terminal complete_for is_empty_state
reason_for provider_id none cs fallback = some missing_contract
reason_for provider_id (some p) [] fallback =
    if names_other provider_id fallback then some identity_mismatch else some missing_outcome
reason_for provider_id (some p) (c ∷ d ∷ cs) fallback =
    if names_other provider_id (some c.1) then some identity_mismatch else some ambiguous_outcome
reason_for provider_id (some p) (c ∷ []) fallback =
    if not (same c.0 provider_id)
    then some identity_mismatch
    else if not (is_terminal c.1.state)
    then some unknown_state
    else if complete_for (some p) (some c.1)
    then none
    else if is_empty_state c.1.state
    then some empty_not_permitted
    else some incomplete_state

pub valid_terminal_outcome : Str → Option ProviderEntry → Table Str ProviderOutcome → Bool
unfolding is_terminal
valid_terminal_outcome provider_id (some p) (c ∷ []) =
    same c.0 provider_id && same c.1.provider_id provider_id && is_terminal c.1.state
valid_terminal_outcome provider_id _ _ = false

is_exempt : Option ProviderOutcome → Bool
is_exempt none = false
is_exempt (some o) = blocked_exempt o

is_none {ℓ} : {A : Type ℓ} → Option A → Bool
is_none none = true
is_none (some _) = false

-- `if error`: an empty text counts as no error.
non_empty : Option Str → Option Str
non_empty none = none
non_empty (some s) = if is_empty s then none else some s

blocked_warning : Str → List Str → Option ProviderOutcome → List Warning
blocked_warning provider_id groups none = []
blocked_warning provider_id groups (some o) =
    blocked_exempted provider_id (resolved_availability o) (resolved_availability_reason o) groups
    ∷ []

incomplete_warning : Str → Option IncompleteReason → Option ProviderOutcome → List Warning
unfolding non_empty
incomplete_warning provider_id reason none =
    source_incomplete provider_id none none none reason ∷ []
incomplete_warning provider_id reason (some o) =
    source_incomplete provider_id (some o.state) (some (resolved_availability o))
      (non_empty o.error) reason
    ∷ []

judge :
    Str
    → List Str
    → Option ProviderEntry
    → Table Str ProviderOutcome
    → Option ProviderOutcome
    → Verdict
unfolding chosen reason_for valid_terminal_outcome is_exempt is_none complete_for
judge provider_id groups provider cs fallback =
    let outcome = chosen cs fallback in
    let reason = reason_for provider_id provider cs fallback in
    let blocked = valid_terminal_outcome provider_id provider cs && is_exempt outcome in
    let complete = is_none reason && complete_for provider outcome in
    record {
      complete = complete;
      blocked = blocked;
      warnings =
          if blocked
          then blocked_warning provider_id groups outcome
          else if complete
          then []
          else incomplete_warning provider_id reason outcome;
    }

-- `configured_groups` of one Provider
pub configured_groups : List CoverageRow → Str → List Str
configured_groups rows provider_id =
    sort_by (λ g. g) (map (λ r. r.group) (select (λ r. member provider_id r.members) rows))

pub verdict : List CoverageRow → Table Str ProviderEntry → Table Str ProviderOutcome → Str → Verdict
unfolding judge candidates configured_groups
verdict rows table outcomes provider_id =
    judge provider_id (configured_groups rows provider_id) (lookup provider_id table)
      (candidates provider_id outcomes) (lookup provider_id outcomes)

-- The loop over `sorted(plan_counts)`.
pub verdicts :
    List CoverageRow
    → Table Str ProviderEntry
    → Table Str ProviderOutcome
    → List Str
    → Table Str Verdict
verdicts rows table outcomes [] = []
verdicts rows table outcomes (k ∷ ks) =
    (k, verdict rows table outcomes k) ∷ verdicts rows table outcomes ks

flag : (Verdict → Bool) → Option Verdict → Bool
flag f none = false
flag f (some v) = f v

pub blocked_member : Table Str Verdict → Str → Bool
unfolding flag
blocked_member vs m = flag (λ v. v.blocked) (lookup m vs)

pub complete_member : Table Str Verdict → Str → Bool
unfolding flag
complete_member vs m = flag (λ v. v.complete) (lookup m vs)

-- `effective_minimum` is cut at zero, as `-` on ℕ is.
pub is_deficient : Table Str Verdict → CoverageRow → Bool
is_deficient vs row =
    let effective_minimum = row.minimum - count (blocked_member vs) row.members in
    ltb (count (complete_member vs) row.members) effective_minimum && not row.optional

pub deficient : Table Str Verdict → List CoverageRow → List Str
unfolding is_deficient
deficient vs rows = map (λ r. r.group) (select (is_deficient vs) rows)

all_warnings : Table Str Verdict → List Warning
all_warnings [] = []
all_warnings (e ∷ vs) = e.1.warnings ++ all_warnings vs

pub decide : List Str → Table Str Verdict → List Str → Status
decide duplicates vs short =
    if not (is_empty duplicates) || any (λ e. not e.1.complete && not e.1.blocked) vs
    then failure
    else if not (is_empty short)
    then failure
    else if any (λ e. e.1.blocked) vs
    then degraded
    else healthy

-- The planned ids, each once, in ascending order.
pub planned : List Str → List Str
unfolding plan_counts
planned ids = sort_by (λ k. k) (keys (plan_counts [] ids))

-- The end of `assess_pipeline`, after the loop.
pub report : List Str → List CoverageRow → Table Str Verdict → Status × List Warning
unfolding deficient all_warnings decide
report duplicates rows vs =
    let short = deficient vs rows in
    (
      decide duplicates vs short,
      (if is_empty duplicates then [] else duplicate_planned duplicates ∷ [])
          ++ all_warnings vs
          ++ (if is_empty short then [] else deficient_groups short ∷ []),
    )

pub assess_pipeline :
    List ProviderEntry
    → List CoverageRow
    → List Str
    → Table Str ProviderOutcome
    → Status × List Warning
unfolding provider_table plan_counts duplicate_ids planned verdicts report
assess_pipeline providers rows ids outcomes =
    report (duplicate_ids (plan_counts [] ids)) rows
      (verdicts rows (provider_table [] providers) outcomes (planned ids))
