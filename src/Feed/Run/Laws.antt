-- ===== src/Feed/Run/Laws.antt =====
-- The checkpoint and the lock of a run.
use follow_the_money.Base.{
  Bool, true, false, Option, none, some, List, [], ◌∷◌, ◌++◌, ◌≡◌, inl, inr, refl, ◌∙◌, ap, not,
  ◌&&◌, ◌||◌, ltb, In, Result, ok, err, arith, Bool-cases, Option-cases, Result-cases,
  if◌then◌else◌,
}
use follow_the_money.Base.Sort.Members.{In-append}
use follow_the_money.Base.Time.{Instant, floor_ms}
use follow_the_money.Canonical.{Encoding}
use follow_the_money.Feed.Plan.{
  PlanError, date_overflow, cutoff_without_zone, invalid_checkpoint_cutoff, non_advancing_cutoff,
  Datetime, unzoned, zoned, FeedPlan, plan_window,
}
use follow_the_money.Feed.Checkpoint.{
  Texts, CheckpointError, FeedCheckpoint, read_checkpoint, write_checkpoint,
}
use follow_the_money.Feed.Checkpoint.Laws.{write_checkpoint-read}
use follow_the_money.Feed.Publish.{PublishResult, PublishError}
use follow_the_money.Feed.Run.{
  RunError, Candidate, Effect, locked, published, advanced, Parts, Run, release_lock, then_effects,
  effects_then, open_checkpoint, planned_success, advance, accept, publish, is_failure, unpublished,
  finish, with_plan, with_checkpoint, with_cutoff, coordinates, run_feed,
}

module _ (t : Texts) (e : Encoding) where
  abbrev success_of : Candidate → FeedCheckpoint
  success_of c = record {
    previous_success =
        some (record { evidence_cutoff_at = c.evidence_cutoff_at; run_id = c.run_id });
  }

  -- The publication made the manifest of the run the active one, durably.
  pub record IsPublished (p : Parts t e) : Type 0 where
    pub result : PublishResult
    pub returned : p.publication ≡ ok result
    pub durable : result.commit_durability_unknown ≡ false
    pub active : (result.manifest_replaced || result.idempotent) ≡ true

  -- The run whose success a checkpoint records.
  pub record IsAdvanced (p : Parts t e) (b : e.Bytes) : Type 0 where
    pub plan : FeedPlan
    pub candidate : Candidate
    pub made : p.make plan ≡ ok candidate
    pub complete : is_failure candidate.status ≡ false
    pub real : p.dry_run ≡ false
    pub publication : IsPublished p
    pub reads : read_checkpoint t e (some (some b)) ≡ ok (success_of candidate)

  advance-In :
      (p : Parts t e) (c : Candidate) (r : PublishResult) (b : e.Bytes)
      → In (advanced b) (advance t e p c r).1
      → read_checkpoint t e (some (some b)) ≡ ok (success_of c)
  unfolding advance
  advance-In p c r b i =
      elim (Result-cases (write_checkpoint t e p.stores_checkpoint (success_of c))) [
        | inl (a, w) ↦
            let same : a ≡ b = ground arith in
            write_checkpoint-read t e p.stores_checkpoint (success_of c) b (w ∙ ap ok same)
        | inr (f, w) ↦ ground arith
      ]

  accept-In :
      (p : Parts t e) (c : Candidate) (r : PublishResult) (b : e.Bytes)
      → p.publication ≡ ok r
      → In (advanced b) (accept t e p c r).1
      → IsPublished p × (read_checkpoint t e (some (some b)) ≡ ok (success_of c))
  unfolding accept
  accept-In p c r b q i = elim (Bool-cases r.commit_durability_unknown) [
    | inl u ↦ ground arith
    | inr u ↦ elim (Bool-cases (r.manifest_replaced || r.idempotent)) [
      | inr v ↦ ground arith
      | inl v ↦ (
        record { result = r; returned = q; durable = u; active = v },
        advance-In p c r b (ground arith),
      )
    ]
  ]

  publication_effects :
      (replaced : Bool) (b : e.Bytes) (done : List (Effect t e))
      → In (advanced b) ((if replaced then published ∷ [] else []) ++ done)
      → In (advanced b) done
  publication_effects true b done i = ground arith
  publication_effects false b done i = i

  publish-In :
      (p : Parts t e) (c : Candidate) (r : Result PublishError PublishResult) (b : e.Bytes)
      → p.publication ≡ r
      → In (advanced b) (publish t e p c r).1
      → IsPublished p × (read_checkpoint t e (some (some b)) ≡ ok (success_of c))
  unfolding publish effects_then
  publish-In p c (err f) b q i = absurd i
  publish-In p c (ok r) b q i =
      accept-In p c r b q (publication_effects r.manifest_replaced b (accept t e p c r).1 i)

  finish-In :
      (p : Parts t e) (plan : FeedPlan) (r : Result RunError Candidate) (b : e.Bytes)
      → p.make plan ≡ r
      → In (advanced b) (finish t e p r).1
      → IsAdvanced p b
  unfolding finish unpublished
  finish-In p plan (err f) b q i = absurd i
  finish-In p plan (ok c) b q i = elim (Bool-cases (is_failure c.status)) [
    | inl u ↦ ground arith
    | inr u ↦ elim (Bool-cases (ltb p.max_serialized_feed_bytes c.serialized_size)) [
      | inl v ↦ ground arith
      | inr v ↦ elim (Bool-cases p.dry_run) [
        | inl w ↦ ground arith
        | inr w ↦
            let found = publish-In p c p.publication b refl (ground arith) in
            record {
              plan = plan;
              candidate = c;
              made = q;
              complete = u;
              real = w;
              publication = found.0;
              reads = found.1;
            }
      ]
    ]
  ]

  release_lock-In : (lock : Bool) (b : e.Bytes) → In (advanced b) (release_lock t e lock) → ⊥
  unfolding release_lock
  release_lock-In true b i = ground arith
  release_lock-In false b i = i

  with_plan-In :
      (p : Parts t e) (lock : Bool) (r : Result PlanError FeedPlan) (b : e.Bytes)
      → In (advanced b) (with_plan t e p lock r).1
      → IsAdvanced p b
  unfolding with_plan then_effects
  with_plan-In p lock (err date_overflow) b i = absurd i
  with_plan-In p lock (err cutoff_without_zone) b i = absurd (release_lock-In lock b i)
  with_plan-In p lock (err invalid_checkpoint_cutoff) b i = absurd (release_lock-In lock b i)
  with_plan-In p lock (err non_advancing_cutoff) b i = absurd (release_lock-In lock b i)
  with_plan-In p lock (ok plan) b i = elim (Bool-cases (lock && not p.registry_ensured)) [
    | inl u ↦
        (let j : In (advanced b) (release_lock t e lock) = ground arith in
          absurd (release_lock-In lock b j))
    | inr u ↦
        let j : In (advanced b) ((finish t e p (p.make plan)).1 ++ release_lock t e lock) =
          ground arith in
        elim (In-append (advanced b) (finish t e p (p.make plan)).1 (release_lock t e lock) j) [
          | inl k ↦ finish-In p plan (p.make plan) b refl k
          | inr k ↦ absurd (release_lock-In lock b k)
        ]
  ]

  open_checkpoint-In :
      (p : Parts t e) (lock : Bool) (b : e.Bytes)
      → In (advanced b) (open_checkpoint t e p lock).1
      → ⊥
  unfolding open_checkpoint
  open_checkpoint-In p false b i = i
  open_checkpoint-In p true b i = elim (Option-cases p.checkpoint_file) [
    | inr (f, q) ↦ ground arith
    | inl q ↦ elim (Bool-cases p.is_established) [
      | inl u ↦ ground arith
      | inr u ↦
          elim (Result-cases
            (write_checkpoint t e p.stores_first (record { previous_success = none }))) [
              | inl (a, w) ↦ ground arith
              | inr (f, w) ↦ ground arith
            ]
    ]
  ]

  with_checkpoint-In :
      (p : Parts t e) (lock : Bool) (cutoff : Instant) (r : Result CheckpointError FeedCheckpoint)
      (done : List (Effect t e)) (b : e.Bytes)
      → (In (advanced b) done → ⊥)
      → In (advanced b) (with_checkpoint t e p lock cutoff (r, done)).1
      → IsAdvanced p b
  unfolding with_checkpoint effects_then
  with_checkpoint-In p lock cutoff (err f) done b d i =
      elim (In-append (advanced b) done (release_lock t e lock) i) [
        | inl k ↦ absurd (d k)
        | inr k ↦ absurd (release_lock-In lock b k)
      ]
  with_checkpoint-In p lock cutoff (ok c) done b d i =
      let plan =
        plan_window p.bootstrap_lookback_hours p.gap_threshold_hours (zoned cutoff)
          (planned_success t e c.previous_success) in
      elim (In-append (advanced b) done (with_plan t e p lock plan).1 i) [
        | inl k ↦ absurd (d k)
        | inr k ↦ with_plan-In p lock plan b k
      ]

  with_cutoff-In :
      (p : Parts t e) (lock : Bool) (cutoff : Option Datetime) (b : e.Bytes)
      → In (advanced b) (with_cutoff t e p lock cutoff).1
      → IsAdvanced p b
  unfolding with_cutoff
  with_cutoff-In p lock none b i = absurd i
  with_cutoff-In p lock (some (unzoned _)) b i = absurd (release_lock-In lock b i)
  with_cutoff-In p lock (some (zoned c)) b i = elim (Bool-cases p.cutoff_in_range) [
    | inr u ↦ ground arith
    | inl u ↦
        let opened = open_checkpoint t e p lock in
        with_checkpoint-In p lock (floor_ms c) opened.0 opened.1 b (open_checkpoint-In p lock b)
          (ground arith)
  ]

  locked_effects :
      (r : Run t e) (b : e.Bytes)
      → In (advanced b) (effects_then t e (locked ∷ []) r).1
      → In (advanced b) r.1
  unfolding effects_then
  locked_effects r b i = ground arith

  -- Whenever a run writes the checkpoint of a success, whatever the files, the clock and the other
  -- parts give: the run made a candidate whose status is not failure, it is no dry run, the
  -- publication returned with the manifest of the run active and durable, and the checkpoint reads
  -- as the cutoff and the run id of that candidate.
  pub run_feed-IsAdvanced :
      (p : Parts t e) (b : e.Bytes) → In (advanced b) (run_feed t e p).1 → IsAdvanced p b
  unfolding run_feed
  run_feed-IsAdvanced p b i = elim (Bool-cases p.distinct_roots) [
    | inr u ↦ ground arith
    | inl u ↦ elim (Bool-cases p.product_root_made) [
      | inr v ↦ ground arith
      | inl v ↦ elim (Bool-cases (coordinates t e p)) [
        | inr w ↦ with_cutoff-In p false p.cutoff b (ground arith)
        | inl w ↦ elim (Bool-cases p.lock_acquired) [
          | inr y ↦ ground arith
          | inl y ↦
              let j : In (advanced b)
                  (effects_then t e (locked ∷ []) (with_cutoff t e p true p.cutoff)).1 =
                ground arith in
              with_cutoff-In p true p.cutoff b
                (locked_effects (with_cutoff t e p true p.cutoff) b j)
        ]
      ]
    ]
  ]
