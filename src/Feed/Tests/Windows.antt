-- ===== src/Feed/Tests/Windows.antt =====
-- The windows of three hourly runs, and of one after an outage.
use follow_the_money.Base.{
  ◌+◌, ◌*◌, ◌≤◌, ◌<◌, ◌≡◌, refl, ◌⊎◌, ◌↔◌, true, false, Option, none, some, [], ◌∷◌, ok, err, arith,
}
use follow_the_money.Base.Time.{Instant, hour, utc}
use follow_the_money.Feed.Plan.{FeedPlan, PreviousSuccess, zoned, plan_window, non_advancing_cutoff}
use follow_the_money.Feed.Plan.Continuity.{
  start_of, end_of, InWindow, InGap, plan_window_advances, plan_window_covers, plan_window_refuses,
  none_yet, run, Disjoint, Runs-Disjoint,
}

abbrev first_cutoff : Instant
first_cutoff = 100 * hour

abbrev second_cutoff : Instant
second_cutoff = 101 * hour

-- After an outage of a hundred hours.
abbrev late_cutoff : Instant
late_cutoff = 201 * hour

abbrev first_plan : FeedPlan
first_plan = record {
  window_start = utc (28 * hour);
  evidence_cutoff_at = utc first_cutoff;
  bootstrap = true;
  gap_warning = none;
}

abbrev second_plan : FeedPlan
second_plan = record {
  window_start = utc first_cutoff;
  evidence_cutoff_at = utc second_cutoff;
  bootstrap = false;
  gap_warning = none;
}

abbrev late_plan : FeedPlan
late_plan = record {
  window_start = utc (129 * hour);
  evidence_cutoff_at = utc late_cutoff;
  bootstrap = true;
  gap_warning = some (utc second_cutoff, utc (129 * hour));
}

abbrev after : Instant → Option PreviousSuccess
after t = some (record { evidence_cutoff_at = utc t; run_id = [] })

first_run : plan_window 72 72 (zoned first_cutoff) none ≡ ok first_plan
unfolding plan_window
first_run = refl

second_run : plan_window 48 72 (zoned second_cutoff) (after first_cutoff) ≡ ok second_plan
unfolding plan_window
second_run = refl

late_run : plan_window 72 72 (zoned late_cutoff) (after second_cutoff) ≡ ok late_plan
unfolding plan_window
late_run = refl

Runs-Disjoint_example : Disjoint (late_plan ∷ second_plan ∷ first_plan ∷ [])
Runs-Disjoint_example =
    Runs-Disjoint (omega arith, (omega arith, (omega arith, tt)))
      (run 72 72 late_plan [] late_cutoff
        (run 48 72 second_plan [] second_cutoff
          (run 72 72 first_plan [] first_cutoff none_yet refl first_run) refl second_run)
        refl late_run)

plan_window_advances_example :
    (start_of late_plan < end_of late_plan)
    × (end_of late_plan ≡ late_cutoff)
    × ((late_cutoff ≤ start_of late_plan + 72 * hour)
        ⊎ (late_cutoff ≤ start_of late_plan + 72 * hour + 1000))
plan_window_advances_example =
    plan_window_advances 72 72 late_cutoff (after second_cutoff) late_plan (omega arith) refl
      late_run

plan_window_covers_example :
    (InWindow late_plan (150 * hour) × ¬ InGap late_plan (150 * hour))
    ⊎ (InGap late_plan (150 * hour) × ¬ InWindow late_plan (150 * hour))
plan_window_covers_example =
    plan_window_covers 72 72 late_cutoff second_cutoff [] late_plan (150 * hour) refl refl late_run
      (omega arith) (omega arith)

plan_window_refuses_example :
    (plan_window 72 72 (zoned first_cutoff) (after second_cutoff) ≡ err non_advancing_cutoff)
    ↔ (first_cutoff ≤ second_cutoff)
plan_window_refuses_example = plan_window_refuses 72 72 first_cutoff second_cutoff []
