-- ===== src/Feed/Lease/Laws.antt =====
-- The tests on a lease, and its times as texts.
use follow_the_money.Base.{
  ℕ, Bool, true, false, Option, none, some, ◌≡◌, refl, not, any, ◌&&◌, ◌||◌, ltb, ok, arith,
}
use follow_the_money.Base.Order.{Str, str_order}
use follow_the_money.Base.Time.{Instant, floor_ms}
use follow_the_money.Feed.Lease.{
  DeploymentLease, IsoTexts, is_terminal, is_bootstrap, is_in_progress, is_some, precedes, follows,
  check_lease, to_utc, iso, parse_time, parse_required,
}

abbrev pub floor_option : Option Instant → Option Instant
floor_option none = none
floor_option (some t) = some (floor_ms t)

-- The lease with its times cut to the millisecond.
abbrev pub floored : DeploymentLease → DeploymentLease
floored l = record l {
  armed_at = floor_ms l.armed_at;
  finished_at = floor_option l.finished_at;
  feed_start_not_after = floor_option l.feed_start_not_after;
  recovery_not_before = floor_ms l.recovery_not_before;
}

-- The times that the state of a lease requires are there.
abbrev pub has_times : DeploymentLease → Bool
has_times l =
    (is_some l.finished_at || not (is_terminal l.state))
    && (is_some l.feed_start_not_after || is_bootstrap l.state)

floor_ms-ltb : (a b : ℕ) → ltb a b ≡ false → ltb (floor_ms a) (floor_ms b) ≡ false
floor_ms-ltb a b h = ground arith

precedes-floor :
    (o : Option Instant) (b : Instant)
    → precedes o b ≡ false
    → precedes (floor_option o) (floor_ms b) ≡ false
precedes-floor none b h = refl
precedes-floor (some t) b h = floor_ms-ltb t b h

follows-floor :
    (o : Option Instant) (b : Instant)
    → follows o b ≡ false
    → follows (floor_option o) (floor_ms b) ≡ false
follows-floor none b h = refl
follows-floor (some t) b h = floor_ms-ltb b t h

is_some-floor : (o : Option Instant) → is_some (floor_option o) ≡ is_some o
is_some-floor none = refl
is_some-floor (some t) = refl

-- The tests of `check_lease`, as one.
abbrev pub is_consistent : DeploymentLease → Bool
is_consistent l =
    not (is_bootstrap l.state && (is_some l.finished_at || is_some l.feed_start_not_after))
    && (not (is_in_progress l.state && is_some l.finished_at)
        && (not (precedes l.feed_start_not_after l.armed_at)
            && (not (
                  ltb l.recovery_not_before l.armed_at
                  || follows l.feed_start_not_after l.recovery_not_before)
                && not (precedes l.finished_at l.armed_at))))

pub check_lease-eq : (l : DeploymentLease) → is_consistent l ≡ true → check_lease l ≡ ok l
unfolding check_lease
check_lease-eq l h = ground arith

pub check_lease-IsConsistent :
    (l m : DeploymentLease) → check_lease l ≡ ok m → (l ≡ m) × (is_consistent l ≡ true)
unfolding check_lease
check_lease-IsConsistent l m h = ground arith

pub is_consistent-floored :
    (l : DeploymentLease) → is_consistent l ≡ true → is_consistent (floored l) ≡ true
is_consistent-floored l h = ground (
  arith,
  is_some-floor l.finished_at,
  is_some-floor l.feed_start_not_after,
  precedes-floor l.feed_start_not_after l.armed_at,
  precedes-floor l.finished_at l.armed_at,
  follows-floor l.feed_start_not_after l.recovery_not_before,
  floor_ms-ltb l.recovery_not_before l.armed_at,
)

module _ (x : IsoTexts) where
  pub parse_time-iso :
      (o : Option Instant) (required : Bool)
      → (is_some o || not required) ≡ true
      → parse_time x (some (iso x o)) required ≡ ok (floor_option o)
  unfolding parse_time iso to_utc
  parse_time-iso none required h = ground arith
  parse_time-iso (some t) required h = rw (x.fromisoformat-isoformat t) refl

  pub parse_required-iso :
      (t : Instant) → parse_required x (some (iso x (some t))) ≡ ok (floor_ms t)
  unfolding parse_required
  parse_required-iso t = rw (parse_time-iso (some t) true refl) refl

  -- The run id is not blank.
  abbrev pub is_named : Str → Bool
  is_named s = any (λ c. not (x.is_space c)) s
