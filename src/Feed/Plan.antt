-- ===== src/Feed/Plan.antt =====
-- src/follow_the_money/feed/plan.py, lines 33 to 98: the half-open evidence window of one run.
-- `PreviousSuccess` is that of feed/checkpoint.py.
pub mod Continuity
use follow_the_money.Base.{
  ℕ, ◌+◌, ◌-◌, ◌*◌, Bool, true, false, Option, none, some, ltb, leb, if◌then◌else◌, Result, ok, err,
  ◌>>=◌, ◌>>◌, raise_if,
}
use follow_the_money.Base.Order.{Str}
use follow_the_money.Base.Time.{
  Instant, hour, Timestamp, blank, malformed, naive, utc, offset, fmt_utc,
}

-- The texts that `FeedPlanError` is raised with, and the `OverflowError` of a subtraction that
-- leaves the range of `datetime`.
pub data PlanError : Type 0 where
  cutoff_without_zone invalid_checkpoint_cutoff non_advancing_cutoff date_overflow : PlanError

-- A `datetime`, with a zone or without.
pub data Datetime : Type 0 where
  unzoned : ℕ → Datetime
  zoned : Instant → Datetime

pub record PreviousSuccess : Type 0 where
  pub evidence_cutoff_at : Timestamp
  pub run_id : Str

pub record FeedPlan : Type 0 where
  pub window_start : Timestamp
  pub evidence_cutoff_at : Timestamp
  pub bootstrap : Bool
  pub gap_warning : Option (Timestamp × Timestamp)

-- Only a text in UTC is taken: a text with another offset is refused.
unfoldable pub parse_utc : Timestamp → Result PlanError Instant
parse_utc blank = err invalid_checkpoint_cutoff
parse_utc malformed = err invalid_checkpoint_cutoff
parse_utc (naive _) = err invalid_checkpoint_cutoff
parse_utc (offset _) = err invalid_checkpoint_cutoff
parse_utc (utc t) = ok t

-- `cutoff - timedelta(hours=h)`.
unfoldable pub hours_before : Instant → ℕ → Result PlanError Instant
hours_before t h = if ltb t (h * hour) then err date_overflow else ok (t - h * hour)

-- The part of `plan_window` with a previous success. The test on the gap in hours is exact for
-- floats, since the threshold is a whole number and rounding keeps the order.
plan_after : ℕ → ℕ → Instant → Instant → Result PlanError FeedPlan
unfolding hours_before fmt_utc
plan_after lookback threshold cutoff previous =
    if leb cutoff previous
    then err non_advancing_cutoff
    else if ltb (threshold * hour) (cutoff - previous)
    then (do
      start ← hours_before cutoff lookback
      ok (record {
        window_start = fmt_utc start;
        evidence_cutoff_at = fmt_utc cutoff;
        bootstrap = true;
        gap_warning = some (fmt_utc previous, fmt_utc start);
      }))
    else ok (record {
      window_start = fmt_utc previous;
      evidence_cutoff_at = fmt_utc cutoff;
      bootstrap = false;
      gap_warning = none;
    })

-- The arguments are `bootstrap_lookback_hours`, `gap_threshold_hours`, `cutoff` and
-- `previous_success`.
unfoldable pub plan_window : ℕ → ℕ → Datetime → Option PreviousSuccess → Result PlanError FeedPlan
unfolding plan_after parse_utc hours_before fmt_utc
plan_window lookback threshold (unzoned _) previous_success = err cutoff_without_zone
plan_window lookback threshold (zoned cutoff) none = do
  start ← hours_before cutoff lookback
  ok (record {
    window_start = fmt_utc start;
    evidence_cutoff_at = fmt_utc cutoff;
    bootstrap = true;
    gap_warning = none;
  })
plan_window lookback threshold (zoned cutoff) (some previous) = do
  previous_cutoff ← parse_utc previous.evidence_cutoff_at
  plan_after lookback threshold cutoff previous_cutoff
