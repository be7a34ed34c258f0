-- ===== src/Providers/Rate/Registry.antt =====
-- src/follow_the_money/providers/rate.py, lines 95 to 301: the files under the runtime-state root,
-- and the life of a scope. Each call is given as the durable writes that it makes, in order, so
-- that a crash is a prefix of them.
use follow_the_money.Base.{
  ℕ, Bool, true, false, Option, none, some, List, [], ◌∷◌, not, ◌||◌, if◌then◌else◌, Result, ok,
  err, ◌>>=◌, ◌>>◌, raise_if,
}
use follow_the_money.Base.Order.{Str, str_order, same}
use follow_the_money.Base.Sort.{sort_by}
use follow_the_money.Base.Table.{Table, lookup, insert, contains, keys}
use follow_the_money.Base.Time.{Instant, Timestamp, blank, malformed, naive, utc, offset, fmt_utc}
use follow_the_money.Providers.Rate.State.{
  Host, ScopeStatus, initializing, active, other_status, ScopeState, RateError, corrupt_registry,
  missing_registry, unknown_schema, inconsistent_root, already_initialized, file_exists,
  not_in_registry, initializing_with_request, unknown_status, missing_state, not_active,
  inconsistent_state, inconsistent_fingerprint, invalid_timestamp, invalid_token_state,
}

-- The entry of a scope in the registry.
pub record Entry : Type 0 where
  pub status : ScopeStatus
  pub policy_fingerprint : Option Str

-- The registry as it reads: `known_version` is the test of `REGISTRY_VERSION`.
pub record Registry : Type 0 where
  pub known_version : Bool
  pub root_identity : Str
  pub scopes : Table Str Entry

pub data RegistryFile : Type 0 where
  absent : RegistryFile
  unreadable : RegistryFile
  readable : Registry → RegistryFile

-- A state file: one that does not read as a state of this version is `partial`.
pub data StateFile : Type 0 where
  partial : StateFile
  stored : ScopeState → StateFile

-- The files under the root. State files are named by a hash of the scope id.
pub record Disk : Type 0 where
  pub registry : RegistryFile
  pub marker : Bool
  pub states : Table Str StateFile

-- A durable write: an atomic replacement, or a creation that refuses to overwrite.
pub data Write : Type 0 where
  write_registry : Registry → Write
  create_registry : Registry → Write
  touch_marker : Write
  write_state : ScopeState → Write
  create_state : ScopeState → Write

module _ (h : Host) where
  unfoldable pub read_registry : Disk → Result RateError Registry
  read_registry disk = elim disk.registry [
    | absent ↦ err corrupt_registry
    | unreadable ↦ err corrupt_registry
    | readable r ↦
        if not r.known_version
        then err unknown_schema
        else if not (same r.root_identity h.root_identity)
        then err inconsistent_root
        else ok r
  ]

  -- `_read_scope_state`
  unfoldable pub read_scope_state : Disk → Str → Option ScopeState
  read_scope_state disk scope_id = elim (lookup (h.scope_file scope_id) disk.states) [
    | none ↦ none
    | some partial ↦ none
    | some (stored s) ↦ some s
  ]

  unfoldable pub policy_fp : ScopeState → Str
  policy_fp s = h.fingerprint s.capacity s.refill_period_seconds s.minimum_interval_seconds

  -- What one write does to the files.
  unfoldable pub apply : Write → Disk → Result RateError Disk
  apply (write_registry r) disk = ok (record disk { registry = readable r })
  apply (create_registry r) disk = elim disk.registry [
    | absent ↦ ok (record disk { registry = readable r })
    | unreadable ↦ err file_exists
    | readable _ ↦ err file_exists
  ]
  apply touch_marker disk = ok (record disk { marker = true })
  apply (write_state s) disk =
      ok (record disk { states = insert (h.scope_file s.scope_id) (stored s) disk.states })
  apply (create_state s) disk =
      if contains (h.scope_file s.scope_id) disk.states
      then err file_exists
      else ok (record disk { states = insert (h.scope_file s.scope_id) (stored s) disk.states })

  unfoldable pub apply_all : List Write → Disk → Result RateError Disk
  unfolding apply
  apply_all [] disk = ok disk
  apply_all (w ∷ ws) disk = apply w disk >>= λ d. apply_all ws d

  -- The writes of `ensure_registry`.
  unfoldable pub ensure_registry : Disk → Result RateError (List Write)
  unfolding read_registry
  ensure_registry disk = elim disk.registry [
    | absent ↦
        if disk.marker
        then err missing_registry
        else ok (
            create_registry
              (record { known_version = true; root_identity = h.root_identity; scopes = [] })
            ∷ touch_marker
            ∷ [])
    | unreadable ↦ err corrupt_registry
    | readable r ↦ read_registry disk >>= λ _. ok []
  ]

  unfoldable pub registered_scope_ids : Disk → Result RateError (List Str)
  unfolding read_registry
  registered_scope_ids disk = read_registry disk >>= λ r. ok (sort_by (λ k. k) (keys r.scopes))

  -- The full-capacity state of phase 2.
  unfoldable pub full_state : Str → ℕ → ℕ → ℕ → Instant → ScopeState
  full_state scope_id capacity period interval now = record {
    scope_id = scope_id;
    status = initializing;
    tokens = h.str capacity;
    capacity = h.str capacity;
    refill_period_seconds = period;
    minimum_interval_seconds = interval;
    refill_wall_anchor = fmt_utc now;
    last_dispatch_wall = none;
    cooldown_until = none;
    policy_fingerprint = none;
  }

  -- The entry of a scope is set, the other entries stay.
  unfoldable pub with_entry : Registry → Str → ScopeStatus → Option Str → Registry
  with_entry r scope_id status fp = record r {
    scopes = insert scope_id (record { status = status; policy_fingerprint = fp }) r.scopes;
  }

  -- The writes of `initialize_scope`, the three phases in order.
  unfoldable pub initialize_scope : Disk → Str → ℕ → ℕ → ℕ → Instant → Result RateError (List Write)
  unfolding read_registry full_state with_entry policy_fp
  initialize_scope disk scope_id capacity period interval now = read_registry disk >>= λ r.
      let state = full_state scope_id capacity period interval now in
      let marked = with_entry r scope_id initializing none in
      if contains scope_id r.scopes
      then err already_initialized
      else ok (
          write_registry marked
          ∷ create_state state
          ∷ write_registry (with_entry marked scope_id active (some (policy_fp state)))
          ∷ [])

  recovered : Registry → Str → Option ScopeState → Result RateError (ScopeState × List Write)
  unfolding with_entry policy_fp
  recovered r scope_id none = err initializing_with_request
  recovered r scope_id (some s) = elim s.last_dispatch_wall [
    | some _ ↦ err initializing_with_request
    | none ↦ ok (
      record s { status = active },
      write_registry (with_entry r scope_id active (some (policy_fp s))) ∷ [],
    )
  ]

  loaded : Option ScopeState → Result RateError (ScopeState × List Write)
  loaded none = err missing_state
  loaded (some s) = ok (record s { status = active }, [])

  by_status :
      Registry → Str → ScopeStatus → Option ScopeState → Result RateError (ScopeState × List Write)
  unfolding recovered loaded
  by_status r scope_id initializing state = recovered r scope_id state
  by_status r scope_id active state = loaded state
  by_status r scope_id other_status state = err unknown_status

  -- The state that `recover_or_load` returns, and its writes.
  unfoldable pub recover_or_load : Disk → Str → Result RateError (ScopeState × List Write)
  unfolding read_registry read_scope_state by_status
  recover_or_load disk scope_id = read_registry disk >>= λ r. elim (lookup scope_id r.scopes) [
    | none ↦ err not_in_registry
    | some entry ↦ by_status r scope_id entry.status (read_scope_state disk scope_id)
  ]

  is_active : ScopeStatus → Bool
  is_active active = true
  is_active _ = false

  is_other : ScopeStatus → Bool
  is_other other_status = true
  is_other _ = false

  is_same_fingerprint : Option Str → Str → Bool
  is_same_fingerprint none fp = false
  is_same_fingerprint (some g) fp = same g fp

  -- The stored time is in UTC.
  check_utc : Option Timestamp → Result RateError (Unit {0})
  check_utc none = ok tt
  check_utc (some (utc _)) = ok tt
  check_utc (some (offset _)) = err invalid_timestamp
  check_utc (some (naive _)) = err invalid_timestamp
  check_utc (some malformed) = err invalid_timestamp
  check_utc (some blank) = err invalid_timestamp

  checked_decimal : Str → Result RateError h.Decimal
  checked_decimal s = elim (h.parse s) [ none ↦ err invalid_token_state | some d ↦ ok d ]

  unfoldable pub check_tokens : ScopeState → Result RateError (Unit {0})
  unfolding checked_decimal
  check_tokens state = do
    tokens ← checked_decimal state.tokens
    capacity ← checked_decimal state.capacity
    raise_if
        (not (h.is_finite tokens)
          || not (h.is_finite capacity)
          || h.leq capacity (h.of_nat 0)
          || not (h.leq (h.of_nat 0) tokens)
          || not (h.leq tokens capacity))
        invalid_token_state

  -- The tests of `read_active_scope` on the entry and the state.
  check_active : Str → Entry → Option ScopeState → Result RateError ScopeState
  unfolding is_active is_other is_same_fingerprint check_utc check_tokens policy_fp
  check_active scope_id entry none =
      if is_active entry.status then err missing_state else err not_active
  check_active scope_id entry (some state) = do
    raise_if (not (is_active entry.status)) not_active
    raise_if (not (same state.scope_id scope_id) || is_other state.status) inconsistent_state
    raise_if (not (is_same_fingerprint entry.policy_fingerprint (policy_fp state)))
        inconsistent_fingerprint
    check_tokens state
    check_utc (some state.refill_wall_anchor)
    check_utc state.last_dispatch_wall
    check_utc state.cooldown_until
    ok state

  unfoldable pub read_active_scope : Disk → Str → Result RateError ScopeState
  unfolding read_registry read_scope_state check_active
  read_active_scope disk scope_id = read_registry disk >>= λ r. elim (lookup scope_id r.scopes) [
    | none ↦ err not_active
    | some entry ↦ check_active scope_id entry (read_scope_state disk scope_id)
  ]
