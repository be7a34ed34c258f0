-- ===== src/Feed/Deployment/Layout.antt =====
-- src/follow_the_money/feed/deployment.py, lines 214 to 425: the rate policies, the files of the
-- runtime-state root and the tests on them. The root holds the files of the rate registry, the
-- lease, the checkpoint and `others`, the names of every other entry.
use follow_the_money.Base.{
  ℕ, ◌*◌, Bool, true, false, Option, none, some, List, [], ◌∷◌, ◌++◌, map, not, any, is_empty, ◌&&◌,
  ◌||◌, ltb, ◌==◌, if◌then◌else◌, Result, ok, err, ◌>>=◌, ◌>>◌, raise_if,
}
use follow_the_money.Base.Order.{Str, str_order, same, codes}
use follow_the_money.Base.Table.{Table, lookup, insert, keys}
use follow_the_money.Canonical.{Encoding, same_set}
use follow_the_money.Config.{RatePolicy, ProviderEntry}
use follow_the_money.Providers.Rate.State.{Host, ScopeState, RateError}
use follow_the_money.Providers.Rate.Registry.{
  Disk, RegistryFile, absent, unreadable, readable, registered_scope_ids, read_active_scope,
}
use follow_the_money.Feed.Checkpoint.{Texts, CheckpointError, read_checkpoint}
use follow_the_money.Feed.Lease.{DeploymentLease, LeaseError, IsoTexts, read_lease}
pub use follow_the_money.Feed.Lease.{is_some}

pub data DeploymentError : Type 0 where
  lease_error : LeaseError → DeploymentError
  rate_error : RateError → DeploymentError
  checkpoint_error : CheckpointError → DeploymentError
  naive_clock inconsistent_policies unsupported_registry : DeploymentError
  other_registry_file no_deadline no_cooldown exceeds_envelope : DeploymentError
  partial_bundle bad_product failed_migration : DeploymentError
  same_roots unsupported_paths missing_files : DeploymentError
  invalid_registry other_root orphan_scopes incompatible_policy : DeploymentError
  missing_marker missing_lease lease_not_stored checkpoint_not_stored : DeploymentError
  used_run_id recovery_pending not_armed start_elapsed : DeploymentError
  bad_status bad_manifest_path bad_feed bad_superseded : DeploymentError
  only_in_progress clock_precedes status_checkpoint_mismatch : DeploymentError

-- `AppConfig`, with the members that the deployment reads.
pub record AppConfig : Type 0 where
  pub providers : List ProviderEntry
  pub registry_version : Str
  pub registry_file : Str
  pub crash_cooldown_hours : ℕ
  pub pre_commit_deadline_seconds : ℕ

abbrev pub registry_filename : Str
registry_filename = codes "rate-registry.json"

abbrev same_host : Option Str → Option Str → Bool
same_host none none = true
same_host (some a) (some b) = same a b
same_host _ _ = false

-- The equality of two policies of one scope, neither of them unlimited.
abbrev same_policy : RatePolicy → RatePolicy → Bool
same_policy a b =
    a.capacity == b.capacity
    && (a.refill_period_seconds == b.refill_period_seconds
        && (a.minimum_interval_seconds == b.minimum_interval_seconds
            && same_host a.shared_host b.shared_host))

unfoldable pub add_policy :
    RatePolicy → Table Str RatePolicy → Result DeploymentError (Table Str RatePolicy)
add_policy policy policies = elim (lookup policy.scope_id policies) [
  | none ↦ ok (insert policy.scope_id policy policies)
  | some previous ↦
      if same_policy previous policy
      then ok (insert policy.scope_id policy policies)
      else err inconsistent_policies
]

unfoldable pub add_policies :
    List ProviderEntry → Table Str RatePolicy → Result DeploymentError (Table Str RatePolicy)
unfolding add_policy
add_policies [] policies = ok policies
add_policies (p ∷ ps) policies = elim p.rate_policy [
  | none ↦ add_policies ps policies
  | some policy ↦
      if not p.enabled || policy.unlimited
      then add_policies ps policies
      else add_policy policy policies >>= λ more. add_policies ps more
]

-- `_scope_policies`
abbrev pub scope_policies : AppConfig → Result DeploymentError (Table Str RatePolicy)
scope_policies c = add_policies c.providers []

-- `_validate_deployment_compatibility`
unfoldable pub check_compatibility : AppConfig → Result DeploymentError (Unit {0})
check_compatibility c = do
  raise_if (not (same c.registry_version (codes "1"))) unsupported_registry
  raise_if (not (same c.registry_file registry_filename)) other_registry_file
  raise_if (c.pre_commit_deadline_seconds == 0) no_deadline

-- `_cooldown_seconds` and `_validate_recovery_envelope`
unfoldable pub recovery_envelope : AppConfig → Table Str RatePolicy → Result DeploymentError ℕ
recovery_envelope c policies =
    let cooldown = c.crash_cooldown_hours * 3600 in
    raise_if (c.crash_cooldown_hours == 0) no_cooldown
    >> (raise_if
          (any
            (λ p.
              ltb cooldown p.1.refill_period_seconds || ltb cooldown p.1.minimum_interval_seconds)
            policies)
          exceeds_envelope
        >> ok cooldown)

abbrev starts_with : Str → Str → Bool
starts_with [] s = true
starts_with (c ∷ cs) [] = false
starts_with (c ∷ cs) (d ∷ s) = let rest = starts_with cs s in c == d && rest

abbrev has_infix : Str → Str → Bool
has_infix t [] = is_empty t
has_infix t (d ∷ s) = let rest = has_infix t s in starts_with t (d ∷ s) || rest

abbrev ends_with : Str → Str → Bool
ends_with t [] = is_empty t
ends_with t (d ∷ s) = let rest = ends_with t s in same t (d ∷ s) || rest

-- `_is_transient_runtime_path`
unfoldable pub is_transient : Str → Bool
is_transient name =
    same name (codes ".collection.lock")
    || (same name (codes "feed-status.json")
        || (same name (codes ".feed-exit-code")
            || (starts_with (codes ".stage-") name
                || (has_infix (codes ".tmp-") name || ends_with (codes ".tmp") name))))

abbrev pub from_rate : {A : Type 0} → Result RateError A → Result DeploymentError A
from_rate (ok a) = ok a
from_rate (err r) = err (rate_error r)

abbrev pub from_lease : {A : Type 0} → Result LeaseError A → Result DeploymentError A
from_lease (ok a) = ok a
from_lease (err r) = err (lease_error r)

abbrev pub from_checkpoint : {A : Type 0} → Result CheckpointError A → Result DeploymentError A
from_checkpoint (ok a) = ok a
from_checkpoint (err r) = err (checkpoint_error r)

pub data Layout : Type 0 where
  empty_layout new_layout : Layout

module _ (h : Host) (x : IsoTexts) (t : Texts) (e : Encoding) where
  -- No name in `others` is one of the files of the other members.
  pub record Runtime : Type 0 where
    pub disk : Disk
    pub lease : Option e.Bytes
    pub checkpoint : Option e.Bytes
    pub others : List Str

  abbrev pub is_there : RegistryFile → Bool
  is_there absent = false
  is_there unreadable = true
  is_there (readable _) = true

  abbrev pub has_unknown : Runtime → Bool
  has_unknown w = any (λ name. not (is_transient name)) w.others

  -- One of the durable files is there.
  unfoldable pub is_authoritative : Runtime → Bool
  is_authoritative w =
      w.disk.marker
      || (is_there w.disk.registry
          || (is_some w.lease || (is_some w.checkpoint || not (is_empty w.disk.states))))

  unfoldable pub is_compatible : Option RatePolicy → ScopeState → Bool
  is_compatible none state = true
  is_compatible (some p) state =
      same state.capacity (h.str p.capacity)
      && (state.refill_period_seconds == p.refill_period_seconds
          && state.minimum_interval_seconds == p.minimum_interval_seconds)

  unfoldable pub check_scopes :
      Disk → Table Str RatePolicy → List Str → Result DeploymentError (Unit {0})
  unfolding is_compatible
  check_scopes disk policies [] = ok tt
  check_scopes disk policies (id ∷ ids) = do
    state ← from_rate (read_active_scope h disk id)
    raise_if (not (is_compatible (lookup id policies) state)) incompatible_policy
    check_scopes disk policies ids

  -- `_validate_existing_state`, which returns the registered scopes here.
  unfoldable pub validate_existing_state :
      Disk → Table Str RatePolicy → Result DeploymentError (List Str)
  unfolding check_scopes
  validate_existing_state disk policies = elim disk.registry [
    | absent ↦ err missing_files
    | unreadable ↦ if disk.marker then err invalid_registry else err missing_files
    | readable r ↦ do
      raise_if (not disk.marker) missing_files
      raise_if (not (same r.root_identity h.root_identity)) other_root
      ids ← from_rate (registered_scope_ids h disk)
      raise_if (not (same_set (map h.scope_file ids) (keys disk.states))) orphan_scopes
      check_scopes disk policies ids
      ok ids
  ]

  -- The file of a path that exists.
  abbrev pub file : Option e.Bytes → Option (Option e.Bytes)
  file none = none
  file (some b) = some (some b)

  -- `_validate_new_layout`: the registered scopes and the lease.
  unfoldable pub validate_new_layout :
      Runtime → Table Str RatePolicy → Result DeploymentError (List Str × DeploymentLease)
  unfolding validate_existing_state
  validate_new_layout w policies = do
    raise_if (has_unknown w) unsupported_paths
    raise_if
        (not (
          w.disk.marker && (is_there w.disk.registry && (is_some w.lease && is_some w.checkpoint))))
        missing_files
    ids ← validate_existing_state w.disk policies
    lease ← from_lease (read_lease x e w.lease none)
    from_checkpoint (read_checkpoint t e (file w.checkpoint)) >>= λ _. ok (ids, lease)

  -- `classify_layout`; the first argument tells whether the roots are distinct.
  unfoldable pub classify_layout : Bool → Runtime → AppConfig → Result DeploymentError Layout
  unfolding validate_new_layout is_authoritative
  classify_layout distinct w c = do
    raise_if (not distinct) same_roots
    policies ← scope_policies c
    raise_if (has_unknown w) unsupported_paths
    (if is_authoritative w
        then (validate_new_layout w policies >>= λ _. ok new_layout)
        else ok empty_layout)

  -- `_durable_paths`: the names of the files, in order.
  unfoldable pub check_scopes_active : Disk → List Str → Result DeploymentError (Unit {0})
  check_scopes_active disk [] = ok tt
  check_scopes_active disk (id ∷ ids) =
      from_rate (read_active_scope h disk id) >>= λ _. check_scopes_active disk ids

  unfoldable pub durable_paths : Runtime → Result DeploymentError (List Str)
  unfolding check_scopes_active
  durable_paths w = do
    raise_if (not w.disk.marker) missing_marker
    ids ← from_rate (registered_scope_ids h w.disk)
    check_scopes_active w.disk ids
    raise_if (not (is_some w.lease)) missing_lease
    ok (
        codes ".follow-the-money-persistent"
        ∷ registry_filename
        ∷ (map h.scope_file ids ++ codes "feed-run-lease.json" ∷ []))
