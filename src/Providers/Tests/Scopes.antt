-- ===== src/Providers/Tests/Scopes.antt =====
-- A scope with three tokens, from its initialization to the second debit.
use follow_the_money.Base.{
  ◌+◌, ◌*◌, ◌≡◌, refl, ◌⊎◌, inr, true, false, none, some, List, [], ◌∷◌, ok, err, take, arith,
}
use follow_the_money.Base.Order.{Str, str_order, str_leq, codes}
use follow_the_money.Base.Table.{contains}
use follow_the_money.Base.Time.{second, hour, fmt_utc, utc}
use follow_the_money.Providers.Rate.State.{
  fmt_tokens, trim_number, ScopeState, initializing, active, debit_and_cooldown, refill_tokens,
  eligibility_delay, reconcile, not_yet_eligible, no_available_token, initializing_with_request,
  already_initialized,
}
use follow_the_money.Providers.Rate.Registry.{
  Registry, Disk, absent, readable, Write, read_registry, apply_all, ensure_registry,
  initialize_scope, recover_or_load, full_state, with_entry,
}
use follow_the_money.Providers.Rate.Eligible.{debit-debit, debit-reconcile, eligibility_delay-debit}
use follow_the_money.Providers.Rate.Crash.{
  full_active, RecoversFull, initialize_scope_crash, initialize_scope_stuck, ensure_registry_lem,
}
use follow_the_money.Providers.Tests.Numbers.{host, parse, quotient}

abbrev scope : Str
scope = 115 ∷ []

abbrev fresh_state : ScopeState
fresh_state = record {
  scope_id = scope;
  status = active;
  tokens = 2 ∷ [];
  capacity = 3 ∷ [];
  refill_period_seconds = 3;
  minimum_interval_seconds = 10;
  refill_wall_anchor = utc (100 * second);
  last_dispatch_wall = none;
  cooldown_until = none;
  policy_fingerprint = none;
}

abbrev debited_state : ScopeState
debited_state = record fresh_state {
  tokens = 1 ∷ [];
  last_dispatch_wall = some (utc (200 * second));
  cooldown_until = some (utc (200 * second + 24 * hour));
}

abbrev reconciled_state : ScopeState
reconciled_state = record debited_state { cooldown_until = some (utc (231 * second)) }

abbrev refilled_state : ScopeState
refilled_state = record fresh_state { tokens = 3 ∷ []; refill_wall_anchor = utc (200 * second) }

trims :
    (trim_number (codes "10.500") ≡ codes "10.5")
    × (trim_number (codes "2.") ≡ codes "2")
    × (trim_number (codes "100") ≡ codes "100")
    × (trim_number [] ≡ codes "0")
unfolding trim_number
trims = (refl, refl, refl, refl)

debits : debit_and_cooldown host fresh_state (200 * second) 24 ≡ ok debited_state
unfolding debit_and_cooldown parse fmt_utc fmt_tokens
debits = refl

reconciles : reconcile debited_state (201 * second) (201 * second) (some 30) ≡ ok reconciled_state
unfolding reconcile fmt_utc
reconciles = refl

refills : refill_tokens host fresh_state (200 * second) ≡ ok refilled_state
unfolding refill_tokens parse quotient fmt_utc fmt_tokens
refills = refl

debit-debit_example : debit_and_cooldown host debited_state (300 * second) 24 ≡ err not_yet_eligible
debit-debit_example =
    debit-debit host fresh_state debited_state (200 * second) (300 * second) 24 debits (omega arith)

debit-reconcile_example :
    debit_and_cooldown host reconciled_state (230 * second) 24 ≡ err not_yet_eligible
debit-reconcile_example =
    debit-reconcile host fresh_state debited_state reconciled_state (200 * second) (201 * second)
      (201 * second) (230 * second) 24 (some 30) debits reconciles
      (inr (30, refl, omega arith, omega arith))

abbrev spent_state : ScopeState
spent_state = record reconciled_state { tokens = 0 ∷ []; refill_period_seconds = 0 }

waits : eligibility_delay host spent_state (230 * second) ≡ ok second
unfolding eligibility_delay parse quotient
waits = refl

no_token : debit_and_cooldown host spent_state (231 * second) 24 ≡ err no_available_token
unfolding debit_and_cooldown parse
no_token = refl

eligibility_delay-debit_example : no_available_token ≡ no_available_token
eligibility_delay-debit_example =
    eligibility_delay-debit host spent_state (230 * second) (231 * second) second 24
      no_available_token waits (omega arith) no_token

abbrev empty_registry : Registry
empty_registry = record { known_version = true; root_identity = []; scopes = [] }

abbrev new_disk : Disk
new_disk = record { registry = absent; marker = false; states = [] }

abbrev ready_disk : Disk
ready_disk = record { registry = readable empty_registry; marker = true; states = [] }

new_root :
    ensure_registry host new_disk
    ≡ ok (Write.create_registry empty_registry ∷ Write.touch_marker ∷ [])
unfolding ensure_registry
new_root = refl

ensure_registry_lem_example :
    ((new_disk.registry ≡ absent)
      × (new_disk.marker ≡ false)
      × ((d : Disk) × (apply_all host
              (Write.create_registry empty_registry ∷ Write.touch_marker ∷ [])
              new_disk
            ≡ ok d)
          × (d.marker ≡ true)
          × ((r : Registry) × (read_registry host d ≡ ok r) × (r.scopes ≡ []))))
    ⊎ ((Write.create_registry empty_registry ∷ Write.touch_marker ∷ [] ≡ [])
        × ((r : Registry) × (read_registry host new_disk ≡ ok r)))
ensure_registry_lem_example =
    ensure_registry_lem host new_disk
      (Write.create_registry empty_registry ∷ Write.touch_marker ∷ []) new_root

abbrev marked : Registry
marked = with_entry host empty_registry scope initializing none

abbrev phases : List Write
phases =
    Write.write_registry marked
    ∷ Write.create_state (full_state host scope 3 3 10 second)
    ∷ Write.write_registry (with_entry host marked scope active (some (3 ∷ 10 ∷ 3 ∷ [])))
    ∷ []

initializes : initialize_scope host ready_disk scope 3 3 10 second ≡ ok phases
unfolding initialize_scope str_leq contains
initializes = refl

abbrev half_disk : Disk
half_disk = record ready_disk { registry = readable marked }

dies : apply_all host (take 1 phases) ready_disk ≡ ok half_disk
unfolding apply_all
dies = refl

no_state : contains scope ready_disk.states ≡ false
unfolding contains
no_state = refl

initialize_scope_crash_example :
    RecoversFull host 1 scope
      (full_active host scope 3 3 10 second)
      (recover_or_load host half_disk scope)
initialize_scope_crash_example =
    initialize_scope_crash host ready_disk half_disk scope 3 3 10 1 second phases no_state
      initializes dies

initialize_scope_stuck_example :
    (recover_or_load host half_disk scope ≡ err initializing_with_request)
    × (initialize_scope host half_disk scope 3 3 10 (2 * second) ≡ err already_initialized)
initialize_scope_stuck_example =
    initialize_scope_stuck host ready_disk half_disk scope 3 3 10 3 3 10 second (2 * second) phases
      no_state initializes dies
