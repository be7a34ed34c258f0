-- ===== src/Feed/Freshness.antt =====
-- src/follow_the_money/feed/freshness.py: reference times, and the freshness of one Provider slice.
pub mod Laws
use follow_the_money.Base.{
  ℕ, zero, suc, ◌+◌, ◌-◌, ◌*◌, Bool, true, false, Option, none, some, List, [], ◌∷◌, ltb, leb, max,
  if◌then◌else◌, Result, ok, err, ◌>>=◌, ◌>>◌, raise_if,
}
use follow_the_money.Base.Time.{Instant, Timestamp, blank, malformed, naive, utc, offset, second}
use follow_the_money.Config.{
  FreshnessContract, Cadence, weekly, scheduled, event_driven, other_cadence, ReferenceTime,
  data_as_of, source_updated_at, checked_at, other_reference_time,
}
use follow_the_money.Feed.Item.{
  Item, Source, Payload, news, policy, macro_release, positioning, filing, unsupported, missing,
}
use follow_the_money.Feed.Outcome.{FreshnessStatus, fresh, valid_unchanged, stale}
use follow_the_money.Feed.Plan.{Datetime, unzoned, zoned}

-- The texts that `FreshnessError` is raised with.
pub data FreshnessError : Type 0 where
  missing_timestamp invalid_timestamp timestamp_without_zone : FreshnessError
  missing_payload unsupported_payload unsupported_reference_time : FreshnessError
  no_selected_snapshot cutoff_without_zone unsupported_cadence : FreshnessError
  event_driven_contract checked_before_cutoff no_validity_window : FreshnessError
  bounded_uses_checked_at reference_after_cutoff : FreshnessError

-- `none` is a member that is missing or null.
unfoldable pub parse_reference_timestamp : Option Timestamp → Result FreshnessError Instant
parse_reference_timestamp none = err missing_timestamp
parse_reference_timestamp (some blank) = err missing_timestamp
parse_reference_timestamp (some malformed) = err invalid_timestamp
parse_reference_timestamp (some (naive _)) = err timestamp_without_zone
parse_reference_timestamp (some (utc t)) = ok t
parse_reference_timestamp (some (offset t)) = ok t

unfoldable pub or_else : Option Timestamp → Option Timestamp → Option Timestamp
or_else none other = other
or_else (some t) other = some t

-- The tuple that `payload_reference_times` returns always has one element.
unfoldable pub payload_reference_time : Payload → Result FreshnessError Instant
unfolding parse_reference_timestamp or_else
payload_reference_time (news occurred) = parse_reference_timestamp occurred
payload_reference_time (policy effective announced) =
    parse_reference_timestamp (or_else effective announced)
payload_reference_time (macro_release released) = parse_reference_timestamp released
payload_reference_time (positioning as_of) = parse_reference_timestamp as_of
payload_reference_time (filing filed) = parse_reference_timestamp filed
payload_reference_time unsupported = err unsupported_payload
payload_reference_time missing = err missing_payload

unfoldable pub source_reference_time : Source → Result FreshnessError Instant
unfolding parse_reference_timestamp or_else
source_reference_time source =
    parse_reference_timestamp (or_else source.updated_at source.published_at)

unfoldable pub reference_time_for_item :
    Item → ReferenceTime → Option Timestamp → Result FreshnessError Instant
unfolding payload_reference_time source_reference_time parse_reference_timestamp
reference_time_for_item item data_as_of checked = payload_reference_time item.payload
reference_time_for_item item source_updated_at checked = source_reference_time item.source
reference_time_for_item item checked_at checked = parse_reference_timestamp checked
reference_time_for_item item other_reference_time checked = err unsupported_reference_time

-- The list of the reference times, up to the first error, and its largest element.
unfoldable pub latest_reference :
    Instant → List Item → ReferenceTime → Option Timestamp → Result FreshnessError Instant
latest_reference acc [] how checked = ok acc
latest_reference acc (item ∷ items) how checked =
    reference_time_for_item item how checked >>= λ t. latest_reference (max acc t) items how checked

-- The cutoff is a text or a `datetime`.
pub data Cutoff : Type 0 where
  text : Timestamp → Cutoff
  datetime : Datetime → Cutoff

unfoldable pub cutoff_instant : Cutoff → Result FreshnessError Instant
unfolding parse_reference_timestamp
cutoff_instant (text t) = parse_reference_timestamp (some t)
cutoff_instant (datetime (unzoned _)) = err cutoff_without_zone
cutoff_instant (datetime (zoned t)) = ok t

is_other_reference : ReferenceTime → Bool
is_other_reference other_reference_time = true
is_other_reference _ = false

is_checked_at : ReferenceTime → Bool
is_checked_at checked_at = true
is_checked_at _ = false

unfoldable pub kept_status : Bool → FreshnessStatus
kept_status carried = if carried then valid_unchanged else fresh

-- The contract of an `event_driven` Provider.
event_driven_status :
    FreshnessContract → Instant → Bool → Option Timestamp → Result FreshnessError FreshnessStatus
unfolding is_checked_at parse_reference_timestamp kept_status
event_driven_status contract cutoff carried checked =
    if is_checked_at contract.reference_time
    then elim contract.valid_for_seconds [
      | some _ ↦ err event_driven_contract
      | none ↦ parse_reference_timestamp checked >>= λ t.
          if ltb t cutoff then err checked_before_cutoff else ok (kept_status carried)
    ]
    else err event_driven_contract

-- The contract of a `weekly` or `scheduled` Provider; the validity is more than zero seconds.
bounded_status :
    ℕ
    → ReferenceTime
    → List Item
    → Instant
    → Bool
    → Option Timestamp
    → Result FreshnessError FreshnessStatus
unfolding is_checked_at latest_reference kept_status
bounded_status valid how items cutoff carried checked =
    if is_checked_at how
    then err bounded_uses_checked_at
    else latest_reference 0 items how checked >>= λ latest.
        if ltb cutoff latest
        then err reference_after_cutoff
        else if ltb (valid * second) (cutoff - latest)
        then ok stale
        else ok (kept_status carried)

by_cadence :
    Cadence
    → FreshnessContract
    → List Item
    → Instant
    → Bool
    → Option Timestamp
    → Result FreshnessError FreshnessStatus
unfolding event_driven_status bounded_status is_other_reference
by_cadence other_cadence contract items cutoff carried checked = err unsupported_cadence
by_cadence event_driven contract items cutoff carried checked =
    if is_other_reference contract.reference_time
    then err unsupported_reference_time
    else event_driven_status contract cutoff carried checked
by_cadence _ contract items cutoff carried checked =
    if is_other_reference contract.reference_time
    then err unsupported_reference_time
    else elim contract.valid_for_seconds [
      | none ↦ err no_validity_window
      | some valid ↦
          if leb valid 0
          then err no_validity_window
          else bounded_status valid contract.reference_time items cutoff carried checked
    ]

-- The arguments are `items`, `contract`, `evidence_cutoff_at`, `carried_forward` and `checked_at`.
unfoldable pub evaluate_freshness :
    List Item
    → FreshnessContract
    → Cutoff
    → Bool
    → Option Timestamp
    → Result FreshnessError FreshnessStatus
unfolding cutoff_instant by_cadence
evaluate_freshness [] contract cutoff carried checked = err no_selected_snapshot
evaluate_freshness (item ∷ items) contract cutoff carried checked = cutoff_instant cutoff >>= λ t.
    by_cadence contract.cadence contract (item ∷ items) t carried checked
