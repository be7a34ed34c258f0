-- ===== src/Base/Time.antt =====
-- Instants, durations and timestamp texts. An aware `datetime` is the number of microseconds since
-- the first instant that Python represents; a `timedelta` is a number of microseconds. A timestamp
-- text is what `datetime.fromisoformat` reads from it.
use Prim.Native.Nat.{ℕ, ◌+◌, ◌*◌, ◌/◌, ◌≤◌, ◌<◌}
use mathlib.Core.Option.{Option, none, some}
use native.Mathlib.Omega.{arith}

abbrev pub Instant : Type 0
Instant = ℕ

-- One second, one hour and one millisecond in microseconds.
abbrev pub second : ℕ
second = 1000000

abbrev pub hour : ℕ
hour = 3600 * second

abbrev pub millisecond : ℕ
millisecond = 1000

-- What `datetime.fromisoformat` makes of a text: a failure, a time with no zone, a time in UTC, or
-- a time with another offset, of which only the instant matters. `blank` is the empty text, or a
-- value that is no text.
pub data Timestamp : Type 0 where
  blank : Timestamp
  malformed : Timestamp
  naive : ℕ → Timestamp
  utc : Instant → Timestamp
  offset : Instant → Timestamp

-- `strftime("%Y-%m-%dT%H:%M:%S.%f")[:-3] + "Z"`, which drops what is below a millisecond.
unfoldable pub fmt_utc : Instant → Timestamp
fmt_utc t = utc (t / millisecond * millisecond)

-- The instant of an aware timestamp.
unfoldable pub aware : Timestamp → Option Instant
aware blank = none
aware malformed = none
aware (naive _) = none
aware (utc t) = some t
aware (offset t) = some t

abbrev pub floor_ms : Instant → Instant
floor_ms t = t / millisecond * millisecond

pub floor_ms-le : (t : Instant) → floor_ms t ≤ t
floor_ms-le t = omega arith

pub floor_ms-lt : (t : Instant) → t < floor_ms t + millisecond
floor_ms-lt t = omega arith
