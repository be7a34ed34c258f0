-- ===== src/Feed/Lease.antt =====
-- src/follow_the_money/feed/deployment.py, lines 91 to 211: the lease of a hosted run and its file.

pub mod Laws
pub mod File
pub mod Read
use follow_the_money.Base.{
  ℕ, Bool, true, false, Option, none, some, List, [], ◌∷◌, not, any, ◌&&◌, ◌||◌, ltb, ◌≡◌,
  if◌then◌else◌, Result, ok, err, ◌>>=◌, ◌>>◌, raise_if,
}
use follow_the_money.Base.Order.{Str, str_order, same, codes}
use follow_the_money.Base.Time.{Instant, Timestamp, blank, malformed, naive, utc, offset, floor_ms}
use follow_the_money.Canonical.{
  Json, null, bool, num, other_num, str, arr, obj, end, member, get_member, names, is_subset,
  ordered, is_scalar, Encoding,
}

pub data LeaseState : Type 0 where
  bootstrap in_progress success failure : LeaseState

pub record DeploymentLease : Type 0 where
  pub version : Str
  pub deployment_run_id : Str
  pub state : LeaseState
  pub armed_at : Instant
  pub finished_at : Option Instant
  pub feed_start_not_after : Option Instant
  pub recovery_not_before : Instant

pub data LeaseError : Type 0 where
  unreadable not_object unknown_fields missing_fields unknown_version : LeaseError
  empty_run_id unknown_state other_run : LeaseError
  time_required not_a_timestamp clock_not_aware : LeaseError
  bootstrap_fields early_finish start_precedes_armed : LeaseError
  recovery_inconsistent finish_precedes_armed unsupported_lease : LeaseError

-- What the lease takes from Python: `datetime.fromisoformat`, `isoformat` to the millisecond with a
-- `Z`, which drops what is below it and is plain text, and the white space of `str.strip`.
pub record IsoTexts : Type 0 where
  pub fromisoformat : Str → Timestamp
  pub isoformat : Instant → Str
  pub is_space : ℕ → Bool
  pub isoformat-is_scalar : (t : Instant) → is_scalar (isoformat t) ≡ true
  pub fromisoformat-isoformat : (t : Instant) → fromisoformat (isoformat t) ≡ utc (floor_ms t)

abbrev pub lease_version : Str
lease_version = codes "1"

abbrev pub lease_fields : List Str
lease_fields =
    codes "version"
    ∷ codes "deployment_run_id"
    ∷ codes "state"
    ∷ codes "armed_at"
    ∷ codes "finished_at"
    ∷ codes "feed_start_not_after"
    ∷ codes "recovery_not_before"
    ∷ []

unfoldable pub state_text : LeaseState → Str
state_text bootstrap = codes "bootstrap"
state_text in_progress = codes "in_progress"
state_text success = codes "success"
state_text failure = codes "failure"

-- `state in LEASE_STATES`
unfoldable pub parse_state : Str → Option LeaseState
unfolding state_text
parse_state s =
    if same s (state_text bootstrap)
    then some bootstrap
    else if same s (state_text in_progress)
    then some in_progress
    else if same s (state_text success)
    then some success
    else if same s (state_text failure)
    then some failure
    else none

abbrev pub is_terminal : LeaseState → Bool
is_terminal bootstrap = false
is_terminal in_progress = false
is_terminal success = true
is_terminal failure = true

abbrev pub is_bootstrap : LeaseState → Bool
is_bootstrap bootstrap = true
is_bootstrap _ = false

abbrev pub is_in_progress : LeaseState → Bool
is_in_progress in_progress = true
is_in_progress _ = false

abbrev pub is_some : {A : Type 0} → Option A → Bool
is_some none = false
is_some (some _) = true

-- `t is not None and t < bound`
abbrev pub precedes : Option Instant → Instant → Bool
precedes none bound = false
precedes (some t) bound = ltb t bound

-- `t is not None and bound < t`
abbrev pub follows : Option Instant → Instant → Bool
follows none bound = false
follows (some t) bound = ltb bound t

-- The tests on the members together.
unfoldable pub check_lease : DeploymentLease → Result LeaseError DeploymentLease
check_lease l = do
  raise_if (is_bootstrap l.state && (is_some l.finished_at || is_some l.feed_start_not_after))
      bootstrap_fields
  raise_if (is_in_progress l.state && is_some l.finished_at) early_finish
  raise_if (precedes l.feed_start_not_after l.armed_at) start_precedes_armed
  raise_if
      (ltb l.recovery_not_before l.armed_at || follows l.feed_start_not_after l.recovery_not_before)
      recovery_inconsistent
  raise_if (precedes l.finished_at l.armed_at) finish_precedes_armed
  ok l

-- `_utc` of what `fromisoformat` gives.
unfoldable pub to_utc : Timestamp → Result LeaseError (Option Instant)
to_utc blank = err not_a_timestamp
to_utc malformed = err not_a_timestamp
to_utc (naive _) = err clock_not_aware
to_utc (utc t) = ok (some t)
to_utc (offset t) = ok (some t)

module _ (x : IsoTexts) where
  -- `_iso`
  unfoldable pub iso : Option Instant → Json
  iso none = null
  iso (some t) = str (x.isoformat t)

  -- `_parse_time`
  unfoldable pub parse_time : Option Json → Bool → Result LeaseError (Option Instant)
  unfolding to_utc
  parse_time none required = if required then err time_required else ok none
  parse_time (some null) required = if required then err time_required else ok none
  parse_time (some (str s)) required = to_utc (x.fromisoformat s)
  parse_time (some _) required = err not_a_timestamp

  -- `_parse_time` of a member that is required.
  unfoldable pub parse_required : Option Json → Result LeaseError Instant
  unfolding parse_time
  parse_required v = parse_time v true >>= λ t. elim t [ none ↦ err time_required | some i ↦ ok i ]

  unfoldable pub parse_run_id : Option Json → Result LeaseError Str
  parse_run_id (some (str s)) = if any (λ c. not (x.is_space c)) s then ok s else err empty_run_id
  parse_run_id _ = err empty_run_id

  unfoldable pub parse_lease_state : Option Json → Result LeaseError LeaseState
  unfolding parse_state
  parse_lease_state (some (str s)) = elim (parse_state s) [
    | none ↦ err unknown_state
    | some l ↦ ok l
  ]
  parse_lease_state _ = err unknown_state

  abbrev is_version : Option Json → Bool
  is_version (some (str s)) = same s lease_version
  is_version _ = false

  abbrev is_expected : Option Str → Str → Bool
  is_expected none run_id = true
  is_expected (some id) run_id = same run_id id

  unfoldable pub parse_lease : Json → Option Str → Result LeaseError DeploymentLease
  unfolding names get_member parse_run_id parse_lease_state parse_required parse_time check_lease
  parse_lease (obj raw) expected = do
    raise_if (not (is_subset (names raw) lease_fields)) unknown_fields
    raise_if (not (is_subset lease_fields (names raw))) missing_fields
    raise_if (not (is_version (get_member (codes "version") raw))) unknown_version
    run_id ← parse_run_id (get_member (codes "deployment_run_id") raw)
    state ← parse_lease_state (get_member (codes "state") raw)
    raise_if (not (is_expected expected run_id)) other_run
    armed_at ← parse_required (get_member (codes "armed_at") raw)
    finished_at ← parse_time (get_member (codes "finished_at") raw) (is_terminal state)
    feed_start ←
        parse_time (get_member (codes "feed_start_not_after") raw) (not (is_bootstrap state))
    recovery ← parse_required (get_member (codes "recovery_not_before") raw)
    check_lease (record {
      version = lease_version;
      deployment_run_id = run_id;
      state = state;
      armed_at = armed_at;
      finished_at = finished_at;
      feed_start_not_after = feed_start;
      recovery_not_before = recovery;
    })
  parse_lease _ expected = err not_object

  -- The object that is written.
  unfoldable pub lease_value : DeploymentLease → Json
  unfolding state_text iso
  lease_value l = obj (
      member (codes "version") (str l.version) (
        member (codes "deployment_run_id") (str l.deployment_run_id) (
          member (codes "state") (str (state_text l.state)) (
            member (codes "armed_at") (iso (some l.armed_at)) (
              member (codes "finished_at") (iso l.finished_at) (
                member (codes "feed_start_not_after") (iso l.feed_start_not_after) (
                  member (codes "recovery_not_before") (iso (some l.recovery_not_before)) end)))))))

  module _ (e : Encoding) where
    -- `none` is a file that is not there or cannot be read.
    unfoldable pub read_lease : Option e.Bytes → Option Str → Result LeaseError DeploymentLease
    unfolding parse_lease
    read_lease none expected = err unreadable
    read_lease (some b) expected = elim (e.loads b) [
      | none ↦ err unreadable
      | some v ↦ parse_lease v expected
    ]

    -- The bytes that take the place of the file. A state is one of the four by its type.
    unfoldable pub write_lease : DeploymentLease → Result LeaseError e.Bytes
    unfolding lease_value ordered
    write_lease l =
        raise_if (not (same l.version lease_version)) unsupported_lease
        >> ok (e.dumps_ascii (ordered (lease_value l)))
