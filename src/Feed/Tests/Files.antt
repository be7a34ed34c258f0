-- ===== src/Feed/Tests/Files.antt =====
-- Files for the tests: a file is the JSON value that it holds, and the text of an instant is one
-- code point.
use follow_the_money.Base.{◌+◌, ◌-◌, true, false, some, [], ◌∷◌, ◌≡◌, refl, ap, arith, leb, ◌&&◌}
use follow_the_money.Base.Order.{Str}
use follow_the_money.Base.Time.{Instant, Timestamp, malformed, utc, floor_ms}
use follow_the_money.Canonical.{Json, Encoding, is_scalar}
use follow_the_money.Feed.Checkpoint.{Texts}
use follow_the_money.Feed.Lease.{IsoTexts}

abbrev pub encoding : Encoding
encoding = record {
  Bytes = Json;
  dumps = λ v. v;
  dumps_ascii = λ v. v;
  loads = λ v. some v;
  size = λ v. 1;
  sha256 = λ v. [];
  loads-dumps = λ v d s. refl;
  loads-dumps_ascii = λ v d s. refl;
}

-- Code points past the surrogates stand for instants.
abbrev pub parse_text : Str → Timestamp
parse_text (n ∷ []) = utc (n - 60000)
parse_text _ = malformed

pub iso-is_scalar : (t : Instant) → is_scalar ((floor_ms t + 60000) ∷ []) ≡ true
unfolding is_scalar
iso-is_scalar t = ground arith

pub parse-iso : (t : Instant) → parse_text ((floor_ms t + 60000) ∷ []) ≡ utc (floor_ms t)
parse-iso t = ap utc (omega arith)

abbrev pub iso_texts : IsoTexts
iso_texts = record {
  fromisoformat = parse_text;
  isoformat = λ t. (floor_ms t + 60000) ∷ [];
  is_space = λ c. false;
  isoformat-is_scalar = iso-is_scalar;
  fromisoformat-isoformat = parse-iso;
}

abbrev pub texts : Texts
texts = record { is_digit = λ c. true; fromisoformat = parse_text }

-- Any text reads as an instant.
abbrev pub any_texts : Texts
any_texts = record { is_digit = λ c. leb 48 c && leb c 57; fromisoformat = λ s. utc 5 }
