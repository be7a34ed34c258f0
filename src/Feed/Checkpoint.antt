-- ===== src/Feed/Checkpoint.antt =====
-- src/follow_the_money/feed/checkpoint.py: the checkpoint of the last success, its file, and the
-- tests on both. A file is absent or holds bytes; a failure of the operating system is an input.
pub mod Laws
use follow_the_money.Base.{
  ℕ, zero, suc, ◌+◌, ◌-◌, Bool, true, false, Option, none, some, List, [], ◌∷◌, not, any, ◌&&◌,
  ◌||◌, leb, ltb, ◌==◌, if◌then◌else◌, take, length, Result, ok, err, ◌>>=◌, ◌>>◌, raise_if,
}
use follow_the_money.Base.Order.{Str, str_order, same, codes}
use follow_the_money.Base.Time.{Timestamp, blank, malformed, naive, utc, offset}
use follow_the_money.Canonical.{
  Json, null, bool, num, other_num, str, arr, obj, Members, end, member, get_member, names,
  same_set, Encoding, canonical_bytes, load_canonical_json,
}

pub data CheckpointError : Type 0 where
  missing unreadable not_object bad_fields unsupported_version : CheckpointError
  cutoff_not_text cutoff_not_rfc3339 cutoff_not_time cutoff_not_utc : CheckpointError
  run_id_not_text run_id_mismatch not_written : CheckpointError

pub record PreviousSuccess : Type 0 where
  pub evidence_cutoff_at : Str
  pub run_id : Str

pub record FeedCheckpoint : Type 0 where
  pub previous_success : Option PreviousSuccess

abbrev pub checkpoint_version : Str
checkpoint_version = codes "1"

-- What the tests take from Python: the digits that `\d` matches, and what
-- `datetime.fromisoformat` makes of a text.
pub record Texts : Type 0 where
  pub is_digit : ℕ → Bool
  pub fromisoformat : Str → Timestamp

-- The hexadecimal digits `[0-9a-f]`.
abbrev pub is_hex : ℕ → Bool
is_hex c = (leb 48 c && leb c 57) || (leb 97 c && leb c 102)

abbrev pub drop : {A : Type 0} → ℕ → List A → List A
drop zero xs = xs
drop (suc n) [] = []
drop (suc n) (x ∷ xs) = drop n xs

-- Group 1 of `(.+)::([0-9a-f]{32})` on a whole text, where it matches.
unfoldable pub run_id_cutoff : Str → Option Str
run_id_cutoff s =
    let cut = length s - 34 in
    let group = take cut s in
    let tail = drop cut s in
    if ltb 34 (length s)
      && (not (any (λ c. c == 10) group)
          && (same (take 2 tail) (codes "::") && not (any (λ c. not (is_hex c)) (drop 2 tail))))
    then some group
    else none

-- `dddd-dd-ddTdd:dd:dd`, where `d` stands for `\d`.
abbrev rfc3339_pattern : Str
rfc3339_pattern = codes "dddd-dd-ddTdd:dd:dd"

module _ (t : Texts) where
  unfoldable pub is_match : Str → Str → Bool
  is_match [] [] = true
  is_match [] (d ∷ s) = false
  is_match (c ∷ cs) [] = false
  is_match (c ∷ cs) (d ∷ s) =
      let rest = is_match cs s in (if c == 100 then t.is_digit d else c == d) && rest

  -- `(?:Z|\+00:00)`
  unfoldable pub is_zone : Str → Bool
  is_zone s = same s (codes "Z") || same s (codes "+00:00")

  -- `\d*` and the zone.
  unfoldable pub is_fraction : Str → Bool
  unfolding is_zone
  is_fraction [] = false
  is_fraction (d ∷ s) = let rest = is_fraction s in is_zone (d ∷ s) || (t.is_digit d && rest)

  -- `\d+` and the zone.
  unfoldable pub is_digits : Str → Bool
  unfolding is_fraction
  is_digits [] = false
  is_digits (d ∷ s) = t.is_digit d && is_fraction s

  -- What follows the seconds.
  unfoldable pub is_ending : Str → Bool
  unfolding is_zone is_digits
  is_ending [] = false
  is_ending (c ∷ s) = is_zone (c ∷ s) || (c == 46 && is_digits s)

  -- `_RFC3339_UTC.fullmatch`
  unfoldable pub is_rfc3339_utc : Str → Bool
  unfolding is_match is_ending
  is_rfc3339_utc s = is_match rfc3339_pattern (take 19 s) && is_ending (drop 19 s)

  unfoldable pub is_utc : Timestamp → Result CheckpointError (Unit {0})
  is_utc blank = err cutoff_not_time
  is_utc malformed = err cutoff_not_time
  is_utc (naive _) = err cutoff_not_utc
  is_utc (offset _) = err cutoff_not_utc
  is_utc (utc _) = ok tt

  -- `_parse_utc` on a member that may be missing or no text.
  unfoldable pub parse_cutoff : Option Json → Result CheckpointError Str
  unfolding is_rfc3339_utc is_utc
  parse_cutoff (some (str value)) =
      raise_if (not (is_rfc3339_utc value)) cutoff_not_rfc3339
      >> (is_utc (t.fromisoformat value) >> ok value)
  parse_cutoff _ = err cutoff_not_text

  abbrev same_cutoff : Option Str → Str → Bool
  same_cutoff none cutoff = false
  same_cutoff (some group) cutoff = same group cutoff

  unfoldable pub check_run_id : Str → Option Json → Result CheckpointError PreviousSuccess
  unfolding run_id_cutoff
  check_run_id cutoff (some (str run_id)) =
      raise_if (not (same_cutoff (run_id_cutoff run_id) cutoff)) run_id_mismatch
      >> ok (record { evidence_cutoff_at = cutoff; run_id = run_id })
  check_run_id cutoff _ = err run_id_not_text

  abbrev previous_success_fields : List Str
  previous_success_fields = codes "evidence_cutoff_at" ∷ codes "run_id" ∷ []

  unfoldable pub validate_previous_success : Json → Result CheckpointError PreviousSuccess
  unfolding names parse_cutoff check_run_id get_member
  validate_previous_success (obj raw) = do
    raise_if (not (same_set (names raw) previous_success_fields)) bad_fields
    cutoff ← parse_cutoff (get_member (codes "evidence_cutoff_at") raw)
    check_run_id cutoff (get_member (codes "run_id") raw)
  validate_previous_success _ = err not_object

  abbrev pub previous_payload : PreviousSuccess → Json
  previous_payload p = obj (
      member (codes "evidence_cutoff_at") (str p.evidence_cutoff_at)
        (member (codes "run_id") (str p.run_id) end))

  abbrev with_version : Json → Json
  with_version previous = obj (
      member (codes "previous_success") previous
        (member (codes "version") (str checkpoint_version) end))

  -- `_payload`
  unfoldable pub payload : Option PreviousSuccess → Result CheckpointError Json
  unfolding validate_previous_success
  payload none = ok (with_version null)
  payload (some p) =
      validate_previous_success (previous_payload p) >>= λ _. ok (with_version (previous_payload p))

  abbrev pub checkpoint_fields : List Str
  checkpoint_fields = codes "previous_success" ∷ codes "version" ∷ []

  abbrev is_version : Option Json → Bool
  is_version (some (str s)) = same s checkpoint_version
  is_version _ = false

  unfoldable pub read_previous : Option Json → Result CheckpointError FeedCheckpoint
  unfolding validate_previous_success
  read_previous none = err bad_fields
  read_previous (some null) = ok (record { previous_success = none })
  read_previous (some v) =
      validate_previous_success v >>= λ p. ok (record { previous_success = some p })

  -- The tests of `read_checkpoint` on the value that the file holds.
  unfoldable pub read_payload : Json → Result CheckpointError FeedCheckpoint
  unfolding names get_member read_previous
  read_payload (obj raw) = do
    raise_if (not (same_set (names raw) checkpoint_fields)) bad_fields
    raise_if (not (is_version (get_member (codes "version") raw))) unsupported_version
    read_previous (get_member (codes "previous_success") raw)
  read_payload _ = err not_object

  module _ (e : Encoding) where
    -- The bytes that `write_checkpoint` puts in the place of the file; `stores` tells whether the
    -- operating system does it.
    unfoldable pub write_checkpoint : Bool → FeedCheckpoint → Result CheckpointError e.Bytes
    unfolding payload canonical_bytes
    write_checkpoint stores checkpoint = payload checkpoint.previous_success >>= λ v.
        elim (canonical_bytes e v) [
          | ok bytes ↦ if stores then ok bytes else err not_written
          | err _ ↦ err not_written
        ]

    -- `none` is a path where nothing is, `some none` a file that cannot be read.
    unfoldable pub read_checkpoint : Option (Option e.Bytes) → Result CheckpointError FeedCheckpoint
    unfolding read_payload load_canonical_json
    read_checkpoint none = err missing
    read_checkpoint (some none) = err unreadable
    read_checkpoint (some (some bytes)) = elim (load_canonical_json e bytes) [
      | ok v ↦ read_payload v
      | err _ ↦ err unreadable
    ]
