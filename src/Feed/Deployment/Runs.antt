-- ===== src/Feed/Deployment/Runs.antt =====
-- Hosted runs on one runtime-state root, interleaved in any order: preparations, starts and ends of
-- Feeds, and whatever else changes the files but not the lease.
use follow_the_money.Base.{
  In, ℕ, ◌+◌, ◌*◌, ◌≤◌, Bool, true, Option, none, some, List, [], ◌∷◌, ◌≡◌, ◌⊎◌, ok, not, select,
}
use follow_the_money.Base.Order.{Str, str_order, same}
use follow_the_money.Base.Time.{Instant, second, floor_ms}
use follow_the_money.Canonical.{Encoding, Json, is_scalar}
use follow_the_money.Providers.Rate.State.{Host}
use follow_the_money.Feed.Plan.{zoned}
use follow_the_money.Feed.Checkpoint.{Texts}
use follow_the_money.Feed.Lease.{DeploymentLease, is_in_progress, IsoTexts, read_lease}
use follow_the_money.Feed.Lease.Laws.{is_named}
use follow_the_money.Feed.Deployment.Layout.{AppConfig, Runtime}
use follow_the_money.Feed.Deployment.Prepare.{
  Surroundings, prepare_deployment, assert_feed_admitted,
}
use follow_the_money.Feed.Deployment.Finalize.{Product, finalize_deployment}

module _ (h : Host) (x : IsoTexts) (t : Texts) (e : Encoding) where
  -- `started` are the run and the instant of each Feed that was admitted and has not ended: a Feed
  -- that crashes stays in it.
  pub record World : Type 0 where
    pub runtime : Runtime h x t e
    pub clock : Instant
    pub started : List (Str × Instant)

  pub data Step (c : AppConfig) (w : World) : World → Type 0 where
    tick : (later : Instant) → w.clock ≤ later → Step c w (record w { clock = later })
    prepare :
        (s : Surroundings) (id : Str)
        → is_named x id ≡ true
        → is_scalar id ≡ true
        → Step c w
            (record w { runtime = (prepare_deployment h x t e s c id (zoned w.clock) w.runtime).1 })
    start :
        (id : Str) (l : DeploymentLease)
        → assert_feed_admitted h x t e w.runtime.lease id (zoned w.clock) ≡ ok l
        → Step c w (record w { started = (id, w.clock) ∷ w.started })
    end_run :
        (stores : Bool) (id : Str) (succeeded : Bool) (status : Option Json) (p : Product)
        (paths : List Str) (v : Runtime h x t e)
        → is_scalar id ≡ true
        → finalize_deployment h x t e stores id succeeded status p (zoned w.clock) w.runtime
          ≡ (ok paths, v)
        → Step c w (record w { runtime = v; started = select (λ m. not (same m.0 id)) w.started })
    work : (v : Runtime h x t e) → v.lease ≡ w.runtime.lease → Step c w (record w { runtime = v })

  -- At first there is no lease and no Feed.
  pub data Reach (c : AppConfig) : World → Type 0 where
    begin : (w : World) → w.runtime.lease ≡ none → w.started ≡ [] → Reach c w
    next : {w v : World} → Reach c w → Step c w v → Reach c v

  -- The time that a Feed may take, in microseconds.
  abbrev pub deadline : AppConfig → ℕ
  deadline c = c.pre_commit_deadline_seconds * second

  -- The run of a start is the one that the lease arms.
  pub record IsCurrent (l : DeploymentLease) (m : Str × Instant) : Type 0 where
    pub armed : is_in_progress l.state ≡ true
    pub run : l.deployment_run_id ≡ m.0
    pub start : Instant
    pub starts : l.feed_start_not_after ≡ some start
    pub admitted : m.1 ≤ start

  -- It is that, or the start is older than the arming by at least the deadline.
  abbrev pub IsKnown : AppConfig → DeploymentLease → Str × Instant → Type 0
  IsKnown c l m = IsCurrent l m ⊎ (m.1 + deadline c ≤ floor_ms l.armed_at)

  -- A lease leaves an admitted Feed the deadline before another run may recover.
  abbrev pub IsPatient : AppConfig → DeploymentLease → Type 0
  IsPatient c l =
      is_in_progress l.state ≡ true
      → (start : Instant) → l.feed_start_not_after ≡ some start
      → start + deadline c ≤ floor_ms l.recovery_not_before

  abbrev pub Apart : AppConfig → Str × Instant → Str × Instant → Type 0
  Apart c m n = (m.1 + deadline c ≤ n.1) ⊎ (n.1 + deadline c ≤ m.1)

  pub record IsSound (c : AppConfig) (w : World) : Type 0 where
    pub lease_clock :
        (l : DeploymentLease)
        → read_lease x e w.runtime.lease none ≡ ok l
        → (l.armed_at ≤ w.clock) × IsPatient c l
    pub known :
        (m : Str × Instant)
        → In m w.started
        → (l : DeploymentLease) × ((read_lease x e w.runtime.lease none ≡ ok l) × IsKnown c l m)
    pub apart :
        (m n : Str × Instant) → In m w.started → In n w.started → (m.0 ≡ n.0 → ⊥) → Apart c m n
