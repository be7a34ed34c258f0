-- ===== src/Feed/Run.antt =====
-- src/follow_the_money/feed/cli.py, lines 181 to 262 and 621 to 702: `run_feed`, from the lock to
-- the checkpoint. A run gives its result and what it does to the files, in order.
pub mod Laws
pub mod Ends
pub mod Completes
mod Tests
use follow_the_money.Base.{
  ℕ, Bool, true, false, Option, none, some, List, [], ◌∷◌, ◌++◌, not, ◌&&◌, ◌||◌, ltb,
  if◌then◌else◌, Result, ok, err,
}
use follow_the_money.Base.Order.{Str, codes}
use follow_the_money.Base.Time.{Instant, floor_ms}
use follow_the_money.Canonical.{Encoding}
use follow_the_money.Feed.Plan.{
  PlanError, date_overflow, cutoff_without_zone, invalid_checkpoint_cutoff, non_advancing_cutoff,
  Datetime, unzoned, zoned, FeedPlan, plan_window,
}
use follow_the_money.Feed.Plan
use follow_the_money.Feed.Assess.{Status, failure, degraded, healthy}
use follow_the_money.Feed.Checkpoint.{
  Texts, CheckpointError, PreviousSuccess, FeedCheckpoint, read_checkpoint, write_checkpoint,
}
use follow_the_money.Feed.Publish.{PublishResult, PublishError}

-- `FeedInputError`, `FeedExecutionError`, and an exception that `run_feed` does not catch.
pub data RunError : Type 0 where
  input_error execution_error uncaught : RunError

-- The Feed that a run has made and validated, as a bundle.
pub record Candidate : Type 0 where
  pub status : Status
  pub run_id : Str
  pub evidence_cutoff_at : Str
  pub serialized_size : ℕ
  pub warnings : List Str

-- `FeedRunResult`
pub record FeedRunResult : Type 0 where
  pub status : Status
  pub exit_code : ℕ
  pub warnings : List Str
  pub superseded_paths : List Str

abbrev pub is_failure : Status → Bool
is_failure failure = true
is_failure degraded = false
is_failure healthy = false

module _ (t : Texts) (e : Encoding) where
  -- What a run does that outlives it, and the lock: the first checkpoint of a new root, the
  -- publication of a manifest, and the checkpoint of a success.
  pub data Effect : Type 0 where
    locked : Effect
    established : e.Bytes → Effect
    published : Effect
    advanced : e.Bytes → Effect
    unlocked : Effect

  -- What the rest gives: the arguments of the run, the files and the clock, and the calls. `make`
  -- is all between the registry and the bundle, lines 264 to 631. `cutoff` is `none` where a call of
  -- `now_fn` raises, and `cutoff_in_range` says that `fmt_utc` can convert it.
  pub record Parts : Type 0 where
    pub dry_run : Bool
    pub fixture : Bool
    pub distinct_roots : Bool
    pub product_root_made : Bool
    pub lock_acquired : Bool
    pub cutoff : Option Datetime
    pub cutoff_in_range : Bool
    pub checkpoint_file : Option (Option e.Bytes)
    pub is_established : Bool
    pub stores_first : Bool
    pub bootstrap_lookback_hours : ℕ
    pub gap_threshold_hours : ℕ
    pub registry_ensured : Bool
    pub make : FeedPlan → Result RunError Candidate
    pub max_serialized_feed_bytes : ℕ
    pub publication : Result PublishError PublishResult
    pub stores_checkpoint : Bool

  abbrev pub Run : Type 0
  Run = Result RunError FeedRunResult × List Effect

  unfoldable pub release_lock : Bool → List Effect
  release_lock true = unlocked ∷ []
  release_lock false = []

  -- More effects after those of a run.
  unfoldable pub then_effects : Run → List Effect → Run
  then_effects (r, done) more = (r, done ++ more)

  unfoldable pub effects_then : List Effect → Run → Run
  effects_then done (r, more) = (r, done ++ more)

  -- Lines 224 to 239.
  unfoldable pub open_checkpoint :
      Parts → Bool → Result CheckpointError FeedCheckpoint × List Effect
  open_checkpoint p false = (ok (record { previous_success = none }), [])
  open_checkpoint p true = elim p.checkpoint_file [
    | some file ↦ (read_checkpoint t e (some file), [])
    | none ↦
        if p.is_established
        then (err CheckpointError.missing, [])
        else (elim (write_checkpoint t e p.stores_first (record { previous_success = none })) [
          | ok b ↦ (ok (record { previous_success = none }), established b ∷ [])
          | err f ↦ (err f, [])
        ])
  ]

  -- `checkpoint.previous_success` as the plan reads it.
  unfoldable pub planned_success : Option PreviousSuccess → Option Plan.PreviousSuccess
  planned_success none = none
  planned_success (some s) =
      some (record { evidence_cutoff_at = t.fromisoformat s.evidence_cutoff_at; run_id = s.run_id })

  -- Lines 678 to 698.
  unfoldable pub advance : Parts → Candidate → PublishResult → Run
  advance p c pub_result =
      let warnings =
        if pub_result.cleanup_failed
        then c.warnings ++ codes "Feed bundle cleanup deferred" ∷ []
        else c.warnings in
      elim (write_checkpoint t e p.stores_checkpoint (record {
        previous_success =
            some (record { evidence_cutoff_at = c.evidence_cutoff_at; run_id = c.run_id });
      })) [
        | err f ↦ (err execution_error, [])
        | ok b ↦ (
          ok (record {
            status = c.status;
            exit_code = if is_failure c.status then 1 else 0;
            warnings = warnings;
            superseded_paths = pub_result.superseded_paths;
          }),
          advanced b ∷ [],
        )
      ]

  -- Lines 669 to 698, after a publication that returned.
  unfoldable pub accept : Parts → Candidate → PublishResult → Run
  unfolding advance
  accept p c r =
      if r.commit_durability_unknown
      then (err execution_error, [])
      else if not (r.manifest_replaced || r.idempotent)
      then (err execution_error, [])
      else advance p c r

  unfoldable pub publish : Parts → Candidate → Result PublishError PublishResult → Run
  unfolding accept effects_then
  publish p c (err f) = (err execution_error, [])
  publish p c (ok r) =
      effects_then (if r.manifest_replaced then published ∷ [] else []) (accept p c r)

  -- A result that publishes nothing.
  unfoldable pub unpublished : Candidate → ℕ → Run
  unpublished c code = (
    ok (record {
      status = c.status;
      exit_code = code;
      warnings = c.warnings;
      superseded_paths = [];
    }),
    [],
  )

  -- Lines 633 to 698.
  unfoldable pub finish : Parts → Result RunError Candidate → Run
  unfolding publish unpublished
  finish p (err f) = (err f, [])
  finish p (ok c) =
      if is_failure c.status
      then unpublished c 1
      else if ltb p.max_serialized_feed_bytes c.serialized_size
      then (err execution_error, [])
      else if p.dry_run
      then unpublished c 0
      else publish p c p.publication

  -- Lines 255 to 702: the body of the `try`, whose `finally` releases the lock.
  unfoldable pub with_plan : Parts → Bool → Result PlanError FeedPlan → Run
  unfolding finish then_effects release_lock
  with_plan p lock (err date_overflow) = (err uncaught, [])
  with_plan p lock (err cutoff_without_zone) = (err execution_error, release_lock lock)
  with_plan p lock (err invalid_checkpoint_cutoff) = (err execution_error, release_lock lock)
  with_plan p lock (err non_advancing_cutoff) = (err execution_error, release_lock lock)
  with_plan p lock (ok plan) =
      if lock && not p.registry_ensured
      then (err execution_error, release_lock lock)
      else then_effects (finish p (p.make plan)) (release_lock lock)

  unfoldable pub with_checkpoint :
      Parts → Bool → Instant → Result CheckpointError FeedCheckpoint × List Effect → Run
  unfolding with_plan effects_then release_lock planned_success
  with_checkpoint p lock cutoff (err f, done) = (err execution_error, done ++ release_lock lock)
  with_checkpoint p lock cutoff (ok c, done) = effects_then done (
      with_plan p lock (
        plan_window p.bootstrap_lookback_hours p.gap_threshold_hours (zoned cutoff)
          (planned_success c.previous_success)))

  unfoldable pub with_cutoff : Parts → Bool → Option Datetime → Run
  unfolding with_checkpoint open_checkpoint release_lock
  with_cutoff p lock none = (err uncaught, [])
  with_cutoff p lock (some (unzoned _)) = (err input_error, release_lock lock)
  with_cutoff p lock (some (zoned c)) =
      if not p.cutoff_in_range
      then (err uncaught, [])
      else with_checkpoint p lock (floor_ms c) (open_checkpoint p lock)

  -- A run that can send requests, or that is no dry run, takes the lock.
  unfoldable pub coordinates : Parts → Bool
  coordinates p = not p.dry_run || not p.fixture

  unfoldable pub run_feed : Parts → Run
  unfolding with_cutoff effects_then coordinates
  run_feed p =
      if not p.distinct_roots
      then (err input_error, [])
      else if not p.product_root_made
      then (err execution_error, [])
      else if not (coordinates p)
      then with_cutoff p false p.cutoff
      else if not p.lock_acquired
      then (err execution_error, [])
      else effects_then (locked ∷ []) (with_cutoff p true p.cutoff)
