-- ===== src/Providers/Rate/State.antt =====
-- src/follow_the_money/providers/rate.py, lines 45 to 56 and 303 to 440: `ScopeState`, the debit,
-- the refund, the reconciliation, the refill and the delay. A write of the state file is part of
-- the calls of `Registry`; here are the states that they write.
use follow_the_money.Base.{
  [], ◌∷◌, any, is_empty, ℕ, zero, suc, ◌+◌, ◌-◌, ◌*◌, Bool, false, Option, none, some, ltb, max,
  ◌==◌, not, ◌&&◌, if◌then◌else◌, Result, ok, err, ◌>>=◌, ◌>>◌, raise_if,
}
use follow_the_money.Base.Order.{Str}
use follow_the_money.Base.Time.{Instant, Timestamp, aware, fmt_utc, second, hour}

-- What the code takes from Python's `decimal` and `hashlib`. A token count is held as a text;
-- `parse` is the constructor of `Decimal`, and `format_fixed` is `format(value, "f")`.
pub record Host : Type 1 where
  pub Decimal : Type 0
  pub parse : Str → Option Decimal
  pub normalize : Decimal → Decimal
  pub format_fixed : Decimal → Str
  pub str : ℕ → Str
  pub of_nat : ℕ → Decimal
  pub is_finite : Decimal → Bool
  pub leq : Decimal → Decimal → Bool
  pub add : Decimal → Decimal → Decimal
  pub sub : Decimal → Decimal → Decimal
  pub mul : Decimal → Decimal → Decimal
  pub div : Decimal → Decimal → Decimal
  pub from_micros : ℕ → Decimal
  pub to_micros : Decimal → Option ℕ
  pub fingerprint : Str → ℕ → ℕ → Str
  pub scope_file : Str → Str
  pub root_identity : Str

pub data ScopeStatus : Type 0 where
  initializing active other_status : ScopeStatus

pub record ScopeState : Type 0 where
  pub scope_id : Str
  pub status : ScopeStatus
  pub tokens : Str
  pub capacity : Str
  pub refill_period_seconds : ℕ
  pub minimum_interval_seconds : ℕ
  pub refill_wall_anchor : Timestamp
  pub last_dispatch_wall : Option Timestamp
  pub cooldown_until : Option Timestamp
  pub policy_fingerprint : Option Str

-- The texts that `RateStateError` is raised with, and the exceptions of `decimal` and `datetime`
-- that the calls let through, `bad_decimal` and `bad_timestamp`.
pub data RateError : Type 0 where
  not_yet_eligible minimum_interval_not_elapsed no_available_token : RateError
  invalid_token_state invalid_timestamp bad_decimal bad_timestamp : RateError
  corrupt_registry missing_registry unknown_schema inconsistent_root : RateError
  already_initialized file_exists not_in_registry initializing_with_request : RateError
  unknown_status missing_state not_active inconsistent_state inconsistent_fingerprint : RateError

-- `_parse_iso`, for a comparison with an aware time.
unfoldable pub parse_iso : Timestamp → Result RateError Instant
unfolding aware
parse_iso t = elim (aware t) [ none ↦ err bad_timestamp | some i ↦ ok i ]

-- The instant of a member that may be null.
unfoldable pub parse_optional : Option Timestamp → Result RateError (Option Instant)
unfolding parse_iso
parse_optional none = ok none
parse_optional (some t) = parse_iso t >>= λ i. ok (some i)

-- `now < instant`, false where there is none.
unfoldable pub before : Instant → Option Instant → Bool
before now none = false
before now (some t) = ltb now t

-- The first instant that the minimum interval allows.
unfoldable pub after_interval : ℕ → Option Instant → Option Instant
after_interval interval none = none
after_interval interval (some t) = some (t + interval * second)

-- The later of an instant and one that may be missing.
unfoldable pub later_of : Instant → Option Instant → Instant
later_of t none = t
later_of t (some u) = max t u

-- `rstrip` with one character.
unfoldable pub rstrip : ℕ → Str → Str
rstrip c [] = []
rstrip c (a ∷ s) = let rest = rstrip c s in if is_empty rest && (a == c) then [] else a ∷ rest

-- The end of `_fmt_tokens`: no zeros and no point at the end of a text that has a point, and a zero
-- for an empty text. 46 is the point, 48 the zero.
unfoldable pub trim_number : Str → Str
unfolding rstrip
trim_number text =
    let trimmed = if any (λ c. c == 46) text then rstrip 46 (rstrip 48 text) else text in
    if is_empty trimmed then 48 ∷ [] else trimmed

-- `_fmt_tokens`
unfoldable pub fmt_tokens : (h : Host) → h.Decimal → Str
unfolding trim_number
fmt_tokens h value = trim_number (h.format_fixed (h.normalize value))

module _ (h : Host) where
  unfoldable pub dec : Str → Result RateError h.Decimal
  dec s = elim (h.parse s) [ none ↦ err bad_decimal | some d ↦ ok d ]

  -- The state that `debit_and_cooldown` writes. The arguments are the state, the reading of the
  -- clock and `cooldown_hours`.
  unfoldable pub debit_and_cooldown : ScopeState → Instant → ℕ → Result RateError ScopeState
  unfolding dec parse_optional before after_interval
  debit_and_cooldown state now cooldown_hours = do
    cooldown ← parse_optional state.cooldown_until
    raise_if (before now cooldown) not_yet_eligible
    last ← parse_optional state.last_dispatch_wall
    raise_if (before now (after_interval state.minimum_interval_seconds last))
        minimum_interval_not_elapsed
    tokens ← dec state.tokens
    raise_if (not (h.leq (h.of_nat 1) tokens)) no_available_token
    ok (record state {
      tokens = fmt_tokens h (h.sub tokens (h.of_nat 1));
      last_dispatch_wall = some (fmt_utc now);
      cooldown_until = some (fmt_utc (now + cooldown_hours * hour));
    })

  -- The state that `refund` writes.
  unfoldable pub refund : ScopeState → Result RateError ScopeState
  unfolding dec
  refund state = do
    tokens ← dec state.tokens
    ok (record state {
      tokens = fmt_tokens h (h.add tokens (h.of_nat 1));
      cooldown_until = none;
      last_dispatch_wall = none;
    })

  -- The lower of two decimals, as `min(capacity, new)`.
  unfoldable pub min_decimal : h.Decimal → h.Decimal → h.Decimal
  min_decimal a b = if h.leq a b then a else b

  -- The rate of refill, zero where the period is.
  unfoldable pub refill_rate : h.Decimal → ℕ → h.Decimal
  refill_rate capacity zero = h.of_nat 0
  refill_rate capacity (suc n) = h.div capacity (h.of_nat (suc n))

  unfoldable pub refill_tokens : ScopeState → Instant → Result RateError ScopeState
  unfolding dec parse_iso min_decimal refill_rate
  refill_tokens state current = do
    anchor ← parse_iso state.refill_wall_anchor
    if ltb current anchor then ok state else do
      capacity ← dec state.capacity
      tokens ← dec state.tokens
      let gained =
          h.mul (h.from_micros (current - anchor))
            (refill_rate capacity state.refill_period_seconds)
      ok (record state {
        tokens = fmt_tokens h (min_decimal capacity (h.add tokens gained));
        refill_wall_anchor = fmt_utc current;
      })

  -- When a token will be there: `none` where the code adds no delay.
  token_ready : ScopeState → Instant → h.Decimal → h.Decimal → Result RateError (Option Instant)
  token_ready state current tokens capacity =
      if not (h.leq (h.of_nat 1) tokens)
        && not (h.leq capacity (h.of_nat 0))
        && not (state.refill_period_seconds == 0)
      then (elim (h.to_micros (
          h.div (h.sub (h.of_nat 1) tokens)
            (h.div capacity (h.of_nat state.refill_period_seconds)))) [
              | none ↦ err invalid_token_state
              | some delay ↦ ok (some (current + delay))
            ])
      else ok none

  -- The delay in microseconds.
  unfoldable pub eligibility_delay : ScopeState → Instant → Result RateError ℕ
  unfolding dec parse_optional after_interval later_of token_ready
  eligibility_delay state current = do
    cooldown ← parse_optional state.cooldown_until
    last ← parse_optional state.last_dispatch_wall
    tokens ← dec state.tokens
    capacity ← dec state.capacity
    ready ← token_ready state current tokens capacity
    let eligible =
        later_of
          (later_of (later_of current cooldown)
            (after_interval state.minimum_interval_seconds last))
          ready
    ok (eligible - current)

-- The instant that `Retry-After` names, if it is the later one.
unfoldable pub retry_from : Instant → Instant → Option ℕ → Instant
retry_from spaced again none = spaced
retry_from spaced again (some zero) = spaced
retry_from spaced again (some (suc s)) = max spaced (again + suc s * second)

-- The state that `reconcile` writes. The arguments are the state, the two readings of the clock and
-- `retry_after_seconds`, of which zero is like none.
unfoldable pub reconcile : ScopeState → Instant → Instant → Option ℕ → Result RateError ScopeState
unfolding parse_optional after_interval later_of retry_from
reconcile state now again retry_after_seconds = do
  last ← parse_optional state.last_dispatch_wall
  let spaced = later_of now (after_interval state.minimum_interval_seconds last)
  ok (record state {
    cooldown_until = some (fmt_utc (retry_from spaced again retry_after_seconds));
  })
