-- ===== src/Feed/Plan/Continuity.antt =====
-- The windows of one run and of the runs that follow it.
use follow_the_money.Base.{
  ℕ, ◌+◌, ◌*◌, ◌≤◌, ◌<◌, ◌≡◌, refl, ◌⊎◌, ◌↔◌, Option, none, some, arith, List, [], ◌∷◌, ok, err,
  All,
}
use follow_the_money.Base.Order.{Str}
use follow_the_money.Base.Time.{Instant, hour, Timestamp, utc, offset, floor_ms}
use follow_the_money.Feed.Plan.{
  date_overflow, non_advancing_cutoff, zoned, PreviousSuccess, FeedPlan, plan_window,
}

-- The bounds of the window, read back from the plan's texts.
abbrev pub instant : Timestamp → Instant
instant (utc t) = t
instant (offset t) = t
instant _ = 0

abbrev pub start_of : FeedPlan → Instant
start_of p = instant p.window_start

abbrev pub end_of : FeedPlan → Instant
end_of p = instant p.evidence_cutoff_at

-- The instant is in the half-open window.
abbrev pub InWindow : FeedPlan → Instant → Type 0
InWindow p t = (start_of p ≤ t) × (t < end_of p)

-- The instant is in the interval that the plan warns of.
abbrev pub InGap : FeedPlan → Instant → Type 0
InGap p t = elim p.gap_warning [ none ↦ ⊥ | some (a, b) ↦ (instant a ≤ t) × (t < instant b) ]

abbrev pub IsAligned : Instant → Type 0
IsAligned t = floor_ms t ≡ t

-- The window that `plan_window` gives for a cutoff in whole milliseconds is not empty, ends at the
-- cutoff, and is no longer than the lookback or than the threshold and a millisecond, whichever is
-- the larger.
pub plan_window_advances :
    (lookback threshold : ℕ) (cutoff : Instant) (previous : Option PreviousSuccess) (p : FeedPlan)
    → 0 < lookback
    → IsAligned cutoff
    → plan_window lookback threshold (zoned cutoff) previous ≡ ok p
    → (start_of p < end_of p)
      × (end_of p ≡ cutoff)
      × ((cutoff ≤ start_of p + lookback * hour) ⊎ (cutoff ≤ start_of p + threshold * hour + 1000))
unfolding plan_window
plan_window_advances lookback threshold cutoff none p l a h = ground arith
plan_window_advances lookback threshold cutoff (some previous) p l a h = ground arith

-- For two cutoffs in whole milliseconds, every instant from the previous cutoff up to the new one
-- is in the window or in the interval that the plan warns of, and never in both.
pub plan_window_covers :
    (lookback threshold : ℕ) (cutoff previous : Instant) (run_id : Str) (p : FeedPlan) (t : Instant)
    → IsAligned cutoff
    → IsAligned previous
    → plan_window lookback threshold
        (zoned cutoff)
        (some (record { evidence_cutoff_at = utc previous; run_id = run_id }))
      ≡ ok p
    → previous ≤ t
    → t < cutoff
    → (InWindow p t × ¬ InGap p t) ⊎ (InGap p t × ¬ InWindow p t)
unfolding plan_window
plan_window_covers lookback threshold cutoff previous run_id p t a b h lo hi = ground arith

-- With a lookback of at most the threshold, no window reaches back over the previous cutoff.
pub plan_window_after_previous :
    (lookback threshold : ℕ) (cutoff previous : Instant) (run_id : Str) (p : FeedPlan)
    → lookback ≤ threshold
    → IsAligned previous
    → plan_window lookback threshold
        (zoned cutoff)
        (some (record { evidence_cutoff_at = utc previous; run_id = run_id }))
      ≡ ok p
    → previous ≤ start_of p
unfolding plan_window
plan_window_after_previous lookback threshold cutoff previous run_id p l b h = ground arith

-- A run is refused as not advancing exactly when its cutoff does not lie after the previous one.
pub plan_window_refuses :
    (lookback threshold : ℕ) (cutoff previous : Instant) (run_id : Str)
    → (plan_window lookback threshold
          (zoned cutoff)
          (some (record { evidence_cutoff_at = utc previous; run_id = run_id }))
        ≡ err non_advancing_cutoff)
      ↔ (cutoff ≤ previous)
unfolding plan_window
plan_window_refuses lookback threshold cutoff previous run_id =
    (λ h. ground arith, λ h. ground arith)

-- The date arithmetic of a plan leaves the range of `datetime` only where the lookback reaches over
-- its first instant.
pub plan_window_overflows :
    (lookback threshold : ℕ) (cutoff : Instant) (previous : Option PreviousSuccess)
    → plan_window lookback threshold (zoned cutoff) previous ≡ err date_overflow
    → cutoff < lookback * hour
unfolding plan_window
plan_window_overflows lookback threshold cutoff none h = ground arith
plan_window_overflows lookback threshold cutoff (some previous) h = ground arith

-- The successful runs so far, the latest first, and the checkpoint that they leave. A run cuts its
-- clock reading to whole milliseconds before it plans (feed/cli.py, line 221), and the checkpoint
-- holds the cutoff of the plan; a run that fails leaves the checkpoint alone. Each run has its own
-- configuration: the first list has the `bootstrap_lookback_hours` and the `gap_threshold_hours`
-- of each.
pub data Runs : List (ℕ × ℕ) → List FeedPlan → Option PreviousSuccess → Type 0 where
  none_yet : Runs [] [] none
  run :
      {configs : List (ℕ × ℕ)} {plans : List FeedPlan} {checkpoint : Option PreviousSuccess}
      (lookback threshold : ℕ) (p : FeedPlan) (run_id : Str) (cutoff : Instant)
      → Runs configs plans checkpoint
      → IsAligned cutoff
      → plan_window lookback threshold (zoned cutoff) checkpoint ≡ ok p
      → Runs
          ((lookback, threshold) ∷ configs)
          (p ∷ plans)
          (some (record { evidence_cutoff_at = p.evidence_cutoff_at; run_id = run_id }))

-- No two of the windows share an instant.
abbrev pub Disjoint : List FeedPlan → Type 0
Disjoint [] = Unit
Disjoint (p ∷ ps) = All (λ q. (t : Instant) → InWindow p t → ¬ InWindow q t) ps × Disjoint ps

-- What the checkpoint knows of the windows before it.
abbrev IsPast : List FeedPlan → Option PreviousSuccess → Type 0
IsPast ps none = ps ≡ []
IsPast ps (some c) =
    (t : Instant) × (c.evidence_cutoff_at ≡ utc t) × IsAligned t × All (λ q. end_of q ≤ t) ps

-- All ends stay below a bound that grows.
ends_mono :
    (ps : List FeedPlan) (s t : Instant)
    → s ≤ t
    → All (λ q. end_of q ≤ s) ps
    → All (λ q. end_of q ≤ t) ps
ends_mono [] s t h a = tt
ends_mono (q ∷ ps) s t h a = (omega arith, ends_mono ps s t h a.1)

-- A window that starts after all the ends shares no instant with any of them.
disjoint_of_ends :
    (ps : List FeedPlan) (p : FeedPlan)
    → All (λ q. end_of q ≤ start_of p) ps
    → All (λ q. (t : Instant) → InWindow p t → ¬ InWindow q t) ps
disjoint_of_ends [] p a = tt
disjoint_of_ends (q ∷ ps) p a = (λ t h k. omega arith, disjoint_of_ends ps p a.1)

-- One successful run: its window starts after what is past, and the new checkpoint is its end.
run-IsPast :
    (lookback threshold : ℕ) (ps : List FeedPlan) (checkpoint : Option PreviousSuccess)
    (p : FeedPlan) (cutoff : Instant)
    → lookback ≤ threshold
    → IsAligned cutoff
    → plan_window lookback threshold (zoned cutoff) checkpoint ≡ ok p
    → IsPast ps checkpoint
    → (p.evidence_cutoff_at ≡ utc cutoff)
      × All (λ q. end_of q ≤ start_of p) ps
      × (start_of p ≤ cutoff)
unfolding plan_window
run-IsPast lookback threshold ps none p cutoff l a h past = (ground arith, rw past tt, ground arith)
run-IsPast lookback threshold ps (some c) p cutoff l a h (t, e, b, ends) =
    let later : (t ≤ start_of p) × (p.evidence_cutoff_at ≡ utc cutoff) × (start_of p ≤ cutoff) =
      ground arith in
    (later.1, ends_mono ps t (start_of p) later.0 ends, later.2)

Runs-IsPast :
    {configs : List (ℕ × ℕ)} {plans : List FeedPlan} {checkpoint : Option PreviousSuccess}
    → All (λ c. c.0 ≤ c.1) configs
    → Runs configs plans checkpoint
    → IsPast plans checkpoint × Disjoint plans
Runs-IsPast l none_yet = (refl, tt)
Runs-IsPast l (run {configs} {plans} {checkpoint} lookback threshold p run_id cutoff runs a h) =
    let before = Runs-IsPast l.1 runs in
    let (e, ends, le) = run-IsPast lookback threshold plans checkpoint p cutoff l.0 a h before.0 in
    (
      (cutoff, e, a, (rw e (omega arith), ends_mono plans (start_of p) cutoff le ends)),
      (disjoint_of_ends plans p ends, before.1),
    )

-- However many runs succeed, from no checkpoint on, each under a configuration of its own whose
-- lookback is at most its gap threshold: no instant lies in the windows of two of them.
pub Runs-Disjoint :
    {configs : List (ℕ × ℕ)} {plans : List FeedPlan} {checkpoint : Option PreviousSuccess}
    → All (λ c. c.0 ≤ c.1) configs
    → Runs configs plans checkpoint
    → Disjoint plans
Runs-Disjoint l runs = (Runs-IsPast l runs).1
