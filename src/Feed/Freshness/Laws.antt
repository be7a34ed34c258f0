-- ===== src/Feed/Freshness/Laws.antt =====
-- What a freshness status says of the reference times of the slice.
use follow_the_money.Base.{
  ℕ, ◌+◌, ◌-◌, ◌*◌, ◌≤◌, ◌<◌, ◌≡◌, refl, ◌⊎◌, inl, inr, Bool, Option, none, some, arith, List, [],
  ◌∷◌, Bool-cases, leb, ltb, max, ok, Result-cases, Option-cases, In, All,
}
use follow_the_money.Base.Time.{Instant, Timestamp, utc, second}
use follow_the_money.Config.{
  FreshnessContract, Cadence, weekly, scheduled, event_driven, other_cadence, ReferenceTime,
  checked_at,
}
use follow_the_money.Feed.Item.{Item}
use follow_the_money.Feed.Outcome.{FreshnessStatus, stale}
use follow_the_money.Feed.Freshness.{
  text, reference_time_for_item, latest_reference, kept_status, bounded_status, event_driven_status,
  by_cadence, evaluate_freshness, parse_reference_timestamp,
}

module _ (how : ReferenceTime) (checked : Option Timestamp) where
  -- The item has a reference time of which the predicate holds.
  abbrev pub HasTime : (Instant → Type 0) → Item → Type 0
  HasTime P item = (t : Instant) × (reference_time_for_item item how checked ≡ ok t) × P t

  abbrev IsLatest : Instant → List Item → Instant → Type 0
  IsLatest acc items m =
      (acc ≤ m)
      × All (HasTime (λ t. t ≤ m)) items
      × ((m ≡ acc) ⊎ ((item : Item) × In item items × HasTime (λ t. t ≡ m) item))

  latest_reference_lem :
      (acc : Instant) (items : List Item) (m : Instant)
      → latest_reference acc items how checked ≡ ok m
      → IsLatest acc items m
  unfolding latest_reference
  latest_reference_lem acc [] m h = (ground arith, tt, inl (ground arith))
  latest_reference_lem acc (item ∷ items) m h =
      elim (Result-cases (reference_time_for_item item how checked)) [
        | inr (e, failed) ↦ absurd (ground arith)
        | inl (t, e) ↦ step t e (latest_reference_lem (max acc t) items m (rw e at h))
      ]
    where
      step :
          (t : Instant)
          → reference_time_for_item item how checked ≡ ok t
          → IsLatest (max acc t) items m
          → IsLatest acc (item ∷ items) m
      step t e (le, all, inl same) = (
        omega arith,
        ((t, e, omega arith), all),
        elim (Bool-cases (leb t acc)) [
          | inl below ↦ inl (ground arith)
          | inr above ↦ inr (item, inl refl, (t, e, ground arith))
        ],
      )
      step t e (le, all, inr (other, m', has)) =
          (omega arith, ((t, e, omega arith), all), inr (other, inr m', has))

  -- At least one item attains the latest reference time.
  attained :
      (item : Item) (items : List Item) (m : Instant)
      → IsLatest 0 (item ∷ items) m
      → (i : Item) × In i (item ∷ items) × HasTime (λ t. t ≡ m) i
  attained item items m (le, ((t, e, t_le), all), inl zero_max) =
      (item, inl refl, (t, e, omega arith))
  attained item items m (le, all, inr has) = has

  -- What a status says of the items: the slice is stale if every reference time is older than the
  -- validity, and current if one reference time lies within it. None lies after the cutoff.
  abbrev pub Describes : ℕ → List Item → Instant → Bool → FreshnessStatus → Type 0
  Describes valid items cutoff carried status =
      All (HasTime (λ t. t ≤ cutoff)) items
      × (((status ≡ stale) × All (HasTime (λ t. t + valid * second < cutoff)) items)
          ⊎ ((status ≡ kept_status carried)
              × ((i : Item) × In i items × HasTime (λ t. cutoff ≤ t + valid * second) i)))

  All-weaken :
      (P Q : Instant → Type 0) (items : List Item)
      → ((t : Instant) → P t → Q t)
      → All (HasTime P) items
      → All (HasTime Q) items
  All-weaken P Q [] f h = tt
  All-weaken P Q (item ∷ items) f ((t, e, p), h) = ((t, e, f t p), All-weaken P Q items f h)

  bounded_status-Describes :
      (valid : ℕ) (item : Item) (items : List Item) (cutoff : Instant) (carried : Bool)
      (status : FreshnessStatus)
      → bounded_status valid how (item ∷ items) cutoff carried checked ≡ ok status
      → Describes valid (item ∷ items) cutoff carried status
  unfolding bounded_status
  bounded_status-Describes valid item items cutoff carried status h =
      elim (Result-cases (latest_reference 0 (item ∷ items) how checked)) [
        | inr (e, failed) ↦ absurd (ground arith)
        | inl (m, e) ↦
            (let latest = latest_reference_lem 0 (item ∷ items) m e in
              let bound : m ≤ cutoff = ground arith in
              let (i, member, (t, te, tm)) = attained item items m latest in
              (
                All-weaken (λ t. t ≤ m) (λ t. t ≤ cutoff) (item ∷ items) (λ t p. omega arith)
                    latest.1,
                elim (Bool-cases (ltb (valid * second) (cutoff - m))) [
                  | inl old ↦ inl (
                    ground arith,
                    All-weaken (λ t. t ≤ m) (λ t. t + valid * second < cutoff) (item ∷ items)
                        (λ t p. ground arith) latest.1,
                  )
                  | inr new ↦ inr (ground arith, (i, member, (t, te, ground arith)))
                ],
              ))
      ]

-- The cadences with a validity window.
abbrev pub IsBounded : Cadence → Type 0
IsBounded weekly = Unit
IsBounded scheduled = Unit
IsBounded _ = ⊥

by_cadence-bounded :
    (c : Cadence) (contract : FreshnessContract) (valid : ℕ) (items : List Item) (cutoff : Instant)
    (carried : Bool) (checked : Option Timestamp) (status : FreshnessStatus)
    → IsBounded c
    → contract.valid_for_seconds ≡ some valid
    → by_cadence c contract items cutoff carried checked ≡ ok status
    → bounded_status valid contract.reference_time items cutoff carried checked ≡ ok status
unfolding by_cadence
by_cadence-bounded weekly contract valid items cutoff carried checked status b v h = ground arith
by_cadence-bounded scheduled contract valid items cutoff carried checked status b v h = ground arith
by_cadence-bounded event_driven contract valid items cutoff carried checked status b v h = absurd b
by_cadence-bounded other_cadence contract valid items cutoff carried checked status b v h = absurd b

-- A status under a weekly or scheduled contract: no reference time lies after the cutoff; it is
-- `stale` where every reference time is older than the validity, and else `fresh`, or
-- `valid_unchanged` for a carried slice, with a reference time within the validity.
pub evaluate_freshness-Describes :
    (item : Item) (items : List Item) (contract : FreshnessContract) (valid : ℕ) (cutoff : Instant)
    (carried : Bool) (checked : Option Timestamp) (status : FreshnessStatus)
    → IsBounded contract.cadence
    → contract.valid_for_seconds ≡ some valid
    → evaluate_freshness (item ∷ items) contract (text (utc cutoff)) carried checked ≡ ok status
    → Describes contract.reference_time checked valid (item ∷ items) cutoff carried status
unfolding evaluate_freshness
evaluate_freshness-Describes item items contract valid cutoff carried checked status b v h =
    bounded_status-Describes contract.reference_time checked valid item items cutoff carried status
      (by_cadence-bounded contract.cadence contract valid (item ∷ items) cutoff carried checked
        status b v h)

stale_later :
    (how : ReferenceTime) (checked : Option Timestamp) (valid : ℕ) (item : Item) (items : List Item)
    (cutoff later : Instant) (carried carried' : Bool)
    → cutoff ≤ later
    → bounded_status valid how (item ∷ items) cutoff carried checked ≡ ok stale
    → bounded_status valid how (item ∷ items) later carried' checked ≡ ok stale
unfolding bounded_status kept_status
stale_later how checked valid item items cutoff later carried carried' le h =
    elim (Result-cases (latest_reference 0 (item ∷ items) how checked)) [
      | inr (e, failed) ↦ absurd (ground arith)
      | inl (m, e) ↦ ground arith
    ]

by_cadence-event_driven :
    (contract : FreshnessContract) (items : List Item) (cutoff : Instant) (carried : Bool)
    (checked : Option Timestamp) (status : FreshnessStatus)
    → by_cadence event_driven contract items cutoff carried checked ≡ ok status
    → event_driven_status contract cutoff carried checked ≡ ok status
unfolding by_cadence
by_cadence-event_driven contract items cutoff carried checked status h = ground arith

event_driven_status-kept :
    (contract : FreshnessContract) (cutoff : Instant) (carried : Bool) (checked : Option Timestamp)
    (status : FreshnessStatus)
    → event_driven_status contract cutoff carried checked ≡ ok status
    → (status ≡ kept_status carried)
      × (contract.reference_time ≡ checked_at)
      × (contract.valid_for_seconds ≡ none)
      × ((t : Instant) × (parse_reference_timestamp checked ≡ ok t) × (cutoff ≤ t))
unfolding event_driven_status
event_driven_status-kept contract cutoff carried checked status h =
    elim (Result-cases (parse_reference_timestamp checked)) [
      | inr (e, failed) ↦ absurd (ground arith)
      | inl (t, e) ↦ (ground arith, ground arith, ground arith, (t, e, ground arith))
    ]

-- A slice under an event-driven contract is never stale: `checked_at` is at or after the cutoff,
-- and the status says only if the slice was carried.
pub evaluate_freshness-event_driven :
    (items : List Item) (contract : FreshnessContract) (cutoff : Instant) (carried : Bool)
    (checked : Option Timestamp) (status : FreshnessStatus)
    → contract.cadence ≡ event_driven
    → evaluate_freshness items contract (text (utc cutoff)) carried checked ≡ ok status
    → (status ≡ kept_status carried)
      × (contract.reference_time ≡ checked_at)
      × (contract.valid_for_seconds ≡ none)
      × ((t : Instant) × (parse_reference_timestamp checked ≡ ok t) × (cutoff ≤ t))
unfolding evaluate_freshness
evaluate_freshness-event_driven [] contract cutoff carried checked status c h = absurd (cc)
evaluate_freshness-event_driven (item ∷ items) contract cutoff carried checked status c h =
    event_driven_status-kept contract cutoff carried checked status
      (by_cadence-event_driven contract (item ∷ items) cutoff carried checked status (rw c at h))

by_cadence-stale_later :
    (c : Cadence) (contract : FreshnessContract) (item : Item) (items : List Item)
    (cutoff later : Instant) (carried carried' : Bool) (checked : Option Timestamp)
    → IsBounded c
    → cutoff ≤ later
    → by_cadence c contract (item ∷ items) cutoff carried checked ≡ ok stale
    → by_cadence c contract (item ∷ items) later carried' checked ≡ ok stale
unfolding by_cadence
by_cadence-stale_later weekly contract item items cutoff later carried carried' checked b le h =
    elim (Option-cases contract.valid_for_seconds) [
      | inl e ↦ absurd (ground arith)
      | inr (valid, e) ↦ ground (
        arith,
        stale_later contract.reference_time checked valid item items cutoff later carried carried'
            le,
      )
    ]
by_cadence-stale_later scheduled contract item items cutoff later carried carried' checked b le h =
    elim (Option-cases contract.valid_for_seconds) [
      | inl e ↦ absurd (ground arith)
      | inr (valid, e) ↦ ground (
        arith,
        stale_later contract.reference_time checked valid item items cutoff later carried carried'
            le,
      )
    ]
by_cadence-stale_later event_driven contract item items cutoff later carried carried' checked b le
      h =
    absurd b
by_cadence-stale_later other_cadence contract item items cutoff later carried carried' checked b le
      h =
    absurd b

-- A stale slice under a weekly or scheduled contract stays stale at every later cutoff, carried or
-- not.
pub evaluate_freshness-stale_later :
    (items : List Item) (contract : FreshnessContract) (cutoff later : Instant)
    (carried carried' : Bool) (checked : Option Timestamp)
    → IsBounded contract.cadence
    → cutoff ≤ later
    → evaluate_freshness items contract (text (utc cutoff)) carried checked ≡ ok stale
    → evaluate_freshness items contract (text (utc later)) carried' checked ≡ ok stale
unfolding evaluate_freshness
evaluate_freshness-stale_later [] contract cutoff later carried carried' checked b le h = h
evaluate_freshness-stale_later (item ∷ items) contract cutoff later carried carried' checked b le
      h =
    by_cadence-stale_later contract.cadence contract item items cutoff later carried carried'
      checked b le h
