-- ===== src/Feed/Deployment/Prepare.antt =====
-- src/follow_the_money/feed/deployment.py, lines 473 to 598: the preparation of a hosted run and
-- the admission of its Feed. A call gives its result and the files that it leaves.
use follow_the_money.Base.{
  ℕ, ◌+◌, ◌*◌, Bool, false, Option, none, some, List, [], ◌∷◌, ◌++◌, not, ◌&&◌, ltb, ◌==◌,
  if◌then◌else◌, Result, ok, err, ◌>>=◌, ◌>>◌, raise_if,
}
use follow_the_money.Base.Order.{Str, str_order, same, codes}
use follow_the_money.Base.Table.{Table, member}
use follow_the_money.Base.Time.{Instant, second}
use follow_the_money.Canonical.{Encoding}
use follow_the_money.Config.{RatePolicy}
use follow_the_money.Providers.Rate.State.{Host, RateError}
use follow_the_money.Providers.Rate.Registry.{Disk, Write, apply, ensure_registry, initialize_scope}
use follow_the_money.Feed.Plan.{Datetime, unzoned, zoned}
use follow_the_money.Feed.Checkpoint.{Texts, write_checkpoint}
use follow_the_money.Feed.Lease.{
  bootstrap, in_progress, is_in_progress, is_terminal, DeploymentLease, IsoTexts, lease_version,
  read_lease, write_lease,
}
use follow_the_money.Feed.Deployment.Layout.{
  DeploymentError, rate_error, naive_clock, lease_not_stored, checkpoint_not_stored, used_run_id,
  recovery_pending, not_armed, start_elapsed, AppConfig, scope_policies, check_compatibility,
  recovery_envelope, Runtime, from_lease, validate_new_layout, Layout, empty_layout, new_layout,
  classify_layout, durable_paths,
}

pub data Mode : Type 0 where
  mode_bootstrap mode_migration mode_armed : Mode

pub record Preparation : Type 0 where
  pub mode : Mode
  pub lease : DeploymentLease
  pub paths : List Str

-- What other code and the system do in one preparation: the schema version of the Feed that
-- `_validate_product_bundle` finds, the paths that `_migrate_previous_product` and the listing after
-- it give, whether the roots are distinct and whether the two files are stored, and the reading of
-- the clock when a scope is initialized.
pub record Surroundings : Type 0 where
  pub product : Result DeploymentError (Option ℕ)
  pub migration : Result DeploymentError (List Str)
  pub distinct_roots : Bool
  pub stores_lease : Bool
  pub stores_checkpoint : Bool
  pub scope_clock : Str → Instant

-- `_utc(now())`
unfoldable pub read_clock : Datetime → Result DeploymentError Instant
read_clock (unzoned _) = err naive_clock
read_clock (zoned t) = ok t

abbrev pub is_previous : Option ℕ → Bool
is_previous none = false
is_previous (some version) = version == 4

-- What the tests before the first write find.
pub record Survey : Type 0 where
  pub current : Instant
  pub policies : Table Str RatePolicy
  pub cooldown : ℕ
  pub existing : Option ℕ
  pub layout : Layout

unfoldable pub bootstrap_lease : Str → Instant → ℕ → DeploymentLease
bootstrap_lease id current cooldown = record {
  version = lease_version;
  deployment_run_id = id;
  state = bootstrap;
  armed_at = current;
  finished_at = none;
  feed_start_not_after = none;
  recovery_not_before = current + cooldown * second;
}

unfoldable pub armed_lease : Str → Instant → ℕ → ℕ → DeploymentLease
armed_lease id current deadline cooldown = record {
  version = lease_version;
  deployment_run_id = id;
  state = in_progress;
  armed_at = current;
  finished_at = none;
  feed_start_not_after = some (current + deadline * second);
  recovery_not_before = current + deadline * second + (deadline + cooldown) * second;
}

-- The tests before a run takes the lease over.
unfoldable pub check_takeover : DeploymentLease → Str → Instant → Result DeploymentError (Unit {0})
check_takeover lease id current = do
  raise_if (same lease.deployment_run_id id) used_run_id
  raise_if (not (is_terminal lease.state) && ltb current lease.recovery_not_before) recovery_pending

abbrev pub start_of : Option Instant → Result DeploymentError Instant
start_of none = err not_armed
start_of (some start) = ok start

module _ (h : Host) (x : IsoTexts) (t : Texts) (e : Encoding) where
  -- The writes up to the first that fails.
  unfoldable pub apply_writes : List Write → Disk → Result RateError (Unit {0}) × Disk
  apply_writes [] disk = (ok tt, disk)
  apply_writes (w ∷ ws) disk = elim (apply h w disk) [
    | ok d ↦ apply_writes ws d
    | err r ↦ (err r, disk)
  ]

  unfoldable pub apply_result :
      Result RateError (List Write) → Disk → Result RateError (Unit {0}) × Disk
  unfolding apply_writes
  apply_result (ok ws) disk = apply_writes ws disk
  apply_result (err r) disk = (err r, disk)

  -- `initialize_scope` for each policy of a scope that is not registered yet.
  unfoldable pub initialize_scopes :
      (Str → Instant) → List Str → Table Str RatePolicy → Disk → Result RateError (Unit {0}) × Disk
  unfolding apply_result
  initialize_scopes clock registered [] disk = (ok tt, disk)
  initialize_scopes clock registered ((id, p) ∷ ps) disk =
      if member id registered
      then initialize_scopes clock registered ps disk
      else (let done =
            apply_result
              (initialize_scope h disk id p.capacity p.refill_period_seconds
                p.minimum_interval_seconds (clock id))
              disk in
          elim done.0 [
            | ok _ ↦ initialize_scopes clock registered ps done.1
            | err r ↦ (err r, done.1)
          ])

  abbrev pub Outcome : Type 0
  Outcome = Result DeploymentError Preparation × Runtime h x t e

  -- The lease file after `write_lease`, if it is stored.
  unfoldable pub store_lease :
      Bool → DeploymentLease → Runtime h x t e → Result DeploymentError (Runtime h x t e)
  store_lease stores l w = if not stores then err lease_not_stored else (elim (write_lease x e l) [
    | ok b ↦ ok (record w { lease = some b })
    | err _ ↦ err lease_not_stored
  ])

  unfoldable pub store_checkpoint :
      Bool → Runtime h x t e → Result DeploymentError (Runtime h x t e)
  store_checkpoint stores w =
      elim (write_checkpoint t e stores (record { previous_success = none })) [
        | ok b ↦ ok (record w { checkpoint = some b })
        | err _ ↦ err checkpoint_not_stored
      ]

  -- The end of a call: the paths, or their error, with the files as they are.
  unfoldable pub prepared :
      Mode → DeploymentLease → Result DeploymentError (List Str) → Runtime h x t e → Outcome
  prepared mode lease paths w =
      (paths >>= λ ps. ok (record { mode = mode; lease = lease; paths = ps }), w)

  unfoldable pub bootstrap_paths : Runtime h x t e → Result DeploymentError (List Str)
  bootstrap_paths w = durable_paths h x t e w >>= λ ps. ok (ps ++ codes "feed-checkpoint.json" ∷ [])

  -- The steps of a bootstrap after the checkpoint, after the lease and after the scopes.
  unfoldable pub bootstrap_end :
      Surroundings
      → Option ℕ
      → DeploymentLease
      → Runtime h x t e
      → Result DeploymentError (Runtime h x t e)
      → Outcome
  unfolding prepared
  bootstrap_end s existing l w (err r) = (err r, w)
  bootstrap_end s existing l w (ok v) =
      if is_previous existing
      then prepared mode_migration l s.migration v
      else prepared mode_bootstrap l (bootstrap_paths v) v

  unfoldable pub bootstrap_checkpoint :
      Surroundings
      → Option ℕ
      → DeploymentLease
      → Runtime h x t e
      → Result DeploymentError (Runtime h x t e)
      → Outcome
  unfolding bootstrap_end
  bootstrap_checkpoint s existing l w (err r) = (err r, w)
  bootstrap_checkpoint s existing l w (ok v) =
      bootstrap_end s existing l v (store_checkpoint s.stores_checkpoint v)

  unfoldable pub bootstrap_files :
      Surroundings
      → Option ℕ
      → DeploymentLease
      → Runtime h x t e
      → Result RateError (Unit {0})
      → Outcome
  unfolding bootstrap_checkpoint
  bootstrap_files s existing l w (err r) = (err (rate_error r), w)
  bootstrap_files s existing l w (ok _) =
      bootstrap_checkpoint s existing l w (store_lease s.stores_lease l w)

  -- `ensure_registry` and the scopes.
  unfoldable pub bootstrap_disk :
      Surroundings → Table Str RatePolicy → Disk → Result RateError (Unit {0}) × Disk
  unfolding apply_result
  bootstrap_disk s policies disk =
      let done = apply_result (ensure_registry h disk) disk in
      elim done.0 [
        | ok _ ↦ initialize_scopes s.scope_clock [] policies done.1
        | err r ↦ (err r, done.1)
      ]

  unfoldable pub bootstrap_run :
      Surroundings → Table Str RatePolicy → Option ℕ → DeploymentLease → Runtime h x t e → Outcome
  unfolding bootstrap_disk bootstrap_files
  bootstrap_run s policies existing l w =
      let done = bootstrap_disk s policies w.disk in
      bootstrap_files s existing l (record w { disk = done.1 }) done.0

  -- The steps of an arming after the lease and after the scopes.
  unfoldable pub arm_end :
      DeploymentLease → Runtime h x t e → Result DeploymentError (Runtime h x t e) → Outcome
  unfolding prepared
  arm_end l w (err r) = (err r, w)
  arm_end l w (ok v) = prepared mode_armed l (durable_paths h x t e v) v

  unfoldable pub arm_files :
      Bool → DeploymentLease → Runtime h x t e → Result RateError (Unit {0}) → Outcome
  unfolding arm_end
  arm_files stores l w (err r) = (err (rate_error r), w)
  arm_files stores l w (ok _) = arm_end l w (store_lease stores l w)

  unfoldable pub arm :
      Surroundings → Table Str RatePolicy → List Str → DeploymentLease → Runtime h x t e → Outcome
  unfolding arm_files
  arm s policies registered l w =
      let done = initialize_scopes s.scope_clock registered policies w.disk in
      arm_files s.stores_lease l (record w { disk = done.1 }) done.0

  unfoldable pub survey :
      Surroundings → AppConfig → Datetime → Runtime h x t e → Result DeploymentError Survey
  unfolding read_clock
  survey s c now w = do
    current ← read_clock now
    check_compatibility c
    policies ← scope_policies c
    cooldown ← recovery_envelope c policies
    existing ← s.product
    layout ← classify_layout h x t e s.distinct_roots w c
    ok (record {
      current = current;
      policies = policies;
      cooldown = cooldown;
      existing = existing;
      layout = layout;
    })

  -- A run on a root that has its files, after the tests on the lease and after those on the root.
  unfoldable pub takeover_end :
      Surroundings
      → AppConfig
      → Str
      → Survey
      → List Str
      → Runtime h x t e
      → Result DeploymentError (Unit {0})
      → Outcome
  takeover_end s c id v registered w (err r) = (err r, w)
  takeover_end s c id v registered w (ok _) =
      arm s v.policies registered
        (armed_lease id v.current c.pre_commit_deadline_seconds v.cooldown) w

  unfoldable pub takeover :
      Surroundings
      → AppConfig
      → Str
      → Survey
      → Runtime h x t e
      → Result DeploymentError (List Str × DeploymentLease)
      → Outcome
  unfolding prepared check_takeover takeover_end
  takeover s c id v w (err r) = (err r, w)
  takeover s c id v w (ok (registered, lease)) =
      if is_previous v.existing
      then prepared mode_migration lease s.migration w
      else takeover_end s c id v registered w (check_takeover lease id v.current)

  unfoldable pub by_layout :
      Layout → Surroundings → AppConfig → Str → Survey → Runtime h x t e → Outcome
  unfolding takeover bootstrap_run
  by_layout empty_layout s c id v w =
      bootstrap_run s v.policies v.existing (bootstrap_lease id v.current v.cooldown) w
  by_layout new_layout s c id v w = takeover s c id v w (validate_new_layout h x t e w v.policies)

  unfoldable pub surveyed :
      Surroundings → AppConfig → Str → Runtime h x t e → Result DeploymentError Survey → Outcome
  unfolding by_layout
  surveyed s c id w (err r) = (err r, w)
  surveyed s c id w (ok v) = by_layout v.layout s c id v w

  unfoldable pub prepare_deployment :
      Surroundings → AppConfig → Str → Datetime → Runtime h x t e → Outcome
  unfolding survey surveyed
  prepare_deployment s c id now w = surveyed s c id w (survey s c now w)

  unfoldable pub assert_feed_admitted :
      Option e.Bytes → Str → Datetime → Result DeploymentError DeploymentLease
  unfolding read_clock
  assert_feed_admitted lease_file id now = do
    lease ← from_lease (read_lease x e lease_file (some id))
    raise_if (not (is_in_progress lease.state)) not_armed
    start ← start_of lease.feed_start_not_after
    current ← read_clock now
    raise_if (ltb start current) start_elapsed
    ok lease
