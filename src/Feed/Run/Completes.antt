-- ===== src/Feed/Run/Completes.antt =====
-- A run that succeeds writes its checkpoint.
use follow_the_money.Base.{
  Bool, true, false, some, List, [], ◌∷◌, ◌≡◌, inl, inr, sym, ◌∙◌, ap, not, ◌&&◌, ◌||◌, ltb, In,
  Result, ok, err, arith, Bool-cases, Result-cases, Option, none, if◌then◌else◌,
}
use mathlib.Core.Path.{subst}
use follow_the_money.Base.Sort.Members.{In-append_left, In-append_right}
use follow_the_money.Base.Time.{Instant, floor_ms}
use follow_the_money.Canonical.{Encoding}
use follow_the_money.Feed.Plan.{
  PlanError, date_overflow, cutoff_without_zone, invalid_checkpoint_cutoff, non_advancing_cutoff,
  Datetime, unzoned, zoned, FeedPlan, plan_window,
}
use follow_the_money.Feed.Checkpoint.{Texts, CheckpointError, FeedCheckpoint, write_checkpoint}
use follow_the_money.Feed.Publish.{PublishResult, PublishError}
use follow_the_money.Feed.Run.{
  RunError, Candidate, FeedRunResult, Effect, published, advanced, Parts, Run, release_lock,
  then_effects, effects_then, open_checkpoint, planned_success, advance, accept, publish,
  is_failure, unpublished, finish, with_plan, with_checkpoint, with_cutoff, coordinates, run_feed,
}
use follow_the_money.Feed.Run.Ends.{run_feed-locked, not_dry}

module _ (t : Texts) (e : Encoding) (p : Parts t e) where
  -- A result with exit code zero of a run that is no dry run comes with the checkpoint.
  abbrev Completes : Run t e → Type 0
  Completes r =
      (a : FeedRunResult) → r.0 ≡ ok a → a.exit_code ≡ 0 → (b : e.Bytes) × In (advanced b) r.1

  advance-Completes : (c : Candidate) (r : PublishResult) → Completes (advance t e p c r)
  unfolding advance
  advance-Completes c r a q z =
      elim (Result-cases (
        write_checkpoint t e p.stores_checkpoint (record {
          previous_success =
              some (record { evidence_cutoff_at = c.evidence_cutoff_at; run_id = c.run_id });
        }))) [ inl (b, w) ↦ (b, ground arith) | inr (f, w) ↦ ground arith ]

  accept-Completes : (c : Candidate) (r : PublishResult) → Completes (accept t e p c r)
  unfolding accept
  accept-Completes c r a q z = elim (Bool-cases r.commit_durability_unknown) [
    | inl u ↦ ground arith
    | inr u ↦ elim (Bool-cases (r.manifest_replaced || r.idempotent)) [
      | inr v ↦ ground arith
      | inl v ↦
          let same : accept t e p c r ≡ advance t e p c r = ground arith in
          subst Completes (sym same) (advance-Completes c r) a q z
    ]
  ]

  publish-Completes :
      (c : Candidate) (r : Result PublishError PublishResult) → Completes (publish t e p c r)
  unfolding publish effects_then
  publish-Completes c (err f) a q z = cc
  publish-Completes c (ok r) a q z =
      let found = accept-Completes c r a q z in
      (
        found.0,
        In-append_right (advanced found.0) (if r.manifest_replaced then published ∷ [] else [])
            (accept t e p c r).1 found.1,
      )

  finish-Completes :
      (r : Result RunError Candidate) → p.dry_run ≡ false → Completes (finish t e p r)
  unfolding finish unpublished
  finish-Completes (err f) d a q z = cc
  finish-Completes (ok c) d a q z = elim (Bool-cases (is_failure c.status)) [
    | inl u ↦ ground arith
    | inr u ↦ elim (Bool-cases (ltb p.max_serialized_feed_bytes c.serialized_size)) [
      | inl v ↦ ground arith
      | inr v ↦
          let same : finish t e p (ok c) ≡ publish t e p c p.publication = ground arith in
          subst Completes (sym same) (publish-Completes c p.publication) a q z
    ]
  ]

  with_plan-Completes :
      (lock : Bool) (r : Result PlanError FeedPlan)
      → p.dry_run ≡ false
      → Completes (with_plan t e p lock r)
  unfolding with_plan then_effects
  with_plan-Completes lock (err date_overflow) d a q z = cc
  with_plan-Completes lock (err cutoff_without_zone) d a q z = cc
  with_plan-Completes lock (err invalid_checkpoint_cutoff) d a q z = cc
  with_plan-Completes lock (err non_advancing_cutoff) d a q z = cc
  with_plan-Completes lock (ok plan) d a q z = elim (Bool-cases (lock && not p.registry_ensured)) [
    | inl u ↦ ground arith
    | inr u ↦
        let found = finish-Completes (p.make plan) d a (ground arith) z in
        (
          found.0,
          rw u (
              In-append_left (advanced found.0) (finish t e p (p.make plan)).1
                (release_lock t e lock) found.1),
        )
  ]

  with_checkpoint-Completes :
      (lock : Bool) (cutoff : Instant) (r : Result CheckpointError FeedCheckpoint)
      (done : List (Effect t e))
      → p.dry_run ≡ false
      → Completes (with_checkpoint t e p lock cutoff (r, done))
  unfolding with_checkpoint effects_then
  with_checkpoint-Completes lock cutoff (err f) done d a q z = cc
  with_checkpoint-Completes lock cutoff (ok c) done d a q z =
      let plan =
        plan_window p.bootstrap_lookback_hours p.gap_threshold_hours (zoned cutoff)
          (planned_success t e c.previous_success) in
      let found = with_plan-Completes lock plan d a q z in
      (found.0, In-append_right (advanced found.0) done (with_plan t e p lock plan).1 found.1)

  with_cutoff-Completes :
      (lock : Bool) (cutoff : Option Datetime)
      → p.dry_run ≡ false
      → Completes (with_cutoff t e p lock cutoff)
  unfolding with_cutoff
  with_cutoff-Completes lock none d a q z = cc
  with_cutoff-Completes lock (some (unzoned _)) d a q z = cc
  with_cutoff-Completes lock (some (zoned c)) d a q z = elim (Bool-cases p.cutoff_in_range) [
    | inr u ↦ ground arith
    | inl u ↦
        let opened = open_checkpoint t e p lock in
        let same : with_cutoff t e p lock (some (zoned c))
            ≡ with_checkpoint t e p lock (floor_ms c) opened =
          ground arith in
        subst Completes (sym same) (with_checkpoint-Completes lock (floor_ms c) opened.0 opened.1 d)
          a q z
  ]

  -- A run that is no dry run and reports the exit code zero has written a checkpoint of success.
  pub run_feed-Completes :
      (a : FeedRunResult)
      → p.dry_run ≡ false
      → (run_feed t e p).0 ≡ ok a
      → a.exit_code ≡ 0
      → (b : e.Bytes) × In (advanced b) (run_feed t e p).1
  unfolding run_feed effects_then coordinates
  run_feed-Completes a d q z = elim (Bool-cases p.distinct_roots) [
    | inr u ↦ ground arith
    | inl u ↦ elim (Bool-cases p.product_root_made) [
      | inr v ↦ ground arith
      | inl v ↦ elim (Bool-cases p.lock_acquired) [
        | inr y ↦ ground arith
        | inl y ↦
            let same = run_feed-locked t e p u v (not_dry t e p d) y in
            let found = with_cutoff-Completes true p.cutoff d a (ap (λ r. r.0) (sym same) ∙ q) z in
            (found.0, subst (λ r. In (advanced found.0) r.1) (sym same) (inr found.1))
      ]
    ]
  ]
