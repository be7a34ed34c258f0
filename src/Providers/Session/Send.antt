-- ===== src/Providers/Session/Send.antt =====
-- src/follow_the_money/providers/session.py, lines 32 to 46 and 149 to 280: `_settle_rate_state`
-- and `_send`. What the calls of other code do in one send is given as a script; the rate state is
-- that of Providers/Rate.
use follow_the_money.Base.{
  ℕ, zero, suc, Bool, true, false, Option, none, some, List, [], ◌∷◌, ◌++◌, ltb, leb, ◌&&◌, ◌||◌,
  if◌then◌else◌, Result, ok, err,
}
use follow_the_money.Base.Time.{Instant}
use follow_the_money.Providers.Rate.State.{
  Host, ScopeState, RateError, bad_decimal, bad_timestamp, refill_tokens, eligibility_delay,
  debit_and_cooldown, refund, reconcile,
}

-- How a send fails: `RateStateError`, `FetchError` with its flag `retryable`, or another exception.
pub data SendError : Type 0 where
  rate : RateError → SendError
  fetch : (retryable : Bool) → SendError
  other : SendError

pub record Response : Type 0 where
  pub status : ℕ
  pub retry_after : Option ℕ

-- What `transport.get` does. `invalid` is a response whose status is no number.
pub data Transport : Type 0 where
  responds : Response → Transport
  invalid : Transport
  rate_error : RateError → Transport
  fetch_error : Bool → Transport
  transport_failure : Transport
  other_failure : Transport

-- What a send does to the world, in order. `write_failed` is a write of the rate file that raises
-- an `OSError`, whether or not the file was replaced before.
pub data Event : Type 0 where
  locked unlocked global_taken global_released host_taken host_released sent : Event
  debited refunded reconciled write_failed : ScopeState → Event

-- The local variables of `_send`, and the fields of the client that it sets.
pub record Progress : Type 0 where
  pub lock_acquired : Bool
  pub state : Option ScopeState
  pub dispatched : Bool
  pub settled : Bool
  pub global_acquired : Bool
  pub host_acquired : Bool
  pub successful_resource_observed : Bool
  pub last_response_at : Option Instant
  pub events : List Event

-- What one call of `reconcile` or `refund` meets: its two readings of the clock, and whether the write
-- of the file succeeds.
pub record Settling : Type 0 where
  pub at : Instant
  pub again_at : Instant
  pub stored : Bool

-- The readings of the clock, and what each call of other code gives: a gate that is not configured
-- is `none`. `managed` is the test that there is a registry and a rate policy. `inner` is for the
-- settlement inside the `try`, `outer` for that of the `except` clauses.
pub record Script : Type 0 where
  pub url : Result SendError (Unit {0})
  pub first_deadline : Result SendError (Unit {0})
  pub scope_lock : Option (Result SendError (Unit {0}))
  pub managed : Bool
  pub load : Result SendError ScopeState
  pub wait : Result SendError (Unit {0})
  pub reload : Result SendError ScopeState
  pub global_gate : Option (Result SendError (Unit {0}))
  pub host_gate : Option (Result SendError (Unit {0}))
  pub last_deadline : Result SendError (Unit {0})
  pub transport : Option Transport
  pub refill_at : Instant
  pub delay_at : Instant
  pub refill_again_at : Instant
  pub debit_at : Instant
  pub observed_at : Instant
  pub debit_stored : Bool
  pub inner : Settling
  pub outer : Settling

abbrev pub Act : Type 0 → Type 0
Act A = Progress → Result SendError A × Progress

infixl 5 ◌>>=◌ ◌>>◌
abbrev pub ◌>>=◌ : {A B : Type 0} → Act A → (A → Act B) → Act B
◌>>=◌ m f p = let (r, p') = m p in elim r [ ok a ↦ f a p' | err e ↦ (err e, p') ]

abbrev pub ◌>>◌ : {B : Type 0} → Act (Unit {0}) → Act B → Act B
m >> k = m >>= λ _. k

abbrev pub pure : {A : Type 0} → A → Act A
pure a p = (ok a, p)

abbrev pub raise : {A : Type 0} → SendError → Act A
raise e p = (err e, p)

abbrev pub lift : {A : Type 0} → Result SendError A → Act A
lift r p = (r, p)

-- What an exception of the rate code is here: those of `decimal` and `datetime` are no
-- `RateStateError`.
unfoldable pub as_send_error : RateError → SendError
as_send_error bad_decimal = other
as_send_error bad_timestamp = other
as_send_error e = rate e

-- A call of the rate code.
unfoldable pub lift_rate : {A : Type 0} → Result RateError A → Act A
unfolding as_send_error
lift_rate (ok a) p = (ok a, p)
lift_rate (err e) p = (err (as_send_error e), p)

abbrev pub emit : Event → Progress → Progress
emit e p = record p { events = p.events ++ e ∷ [] }

unfoldable pub take_lock : Option (Result SendError (Unit {0})) → Act (Unit {0})
take_lock none p = (ok tt, p)
take_lock (some (err e)) p = (err e, p)
take_lock (some (ok _)) p = (ok tt, emit locked (record p { lock_acquired = true }))

unfoldable pub take_global : Option (Result SendError (Unit {0})) → Act (Unit {0})
take_global none p = (ok tt, p)
take_global (some (err e)) p = (err e, p)
take_global (some (ok _)) p = (ok tt, emit global_taken (record p { global_acquired = true }))

unfoldable pub take_host : Option (Result SendError (Unit {0})) → Act (Unit {0})
take_host none p = (ok tt, p)
take_host (some (err e)) p = (err e, p)
take_host (some (ok _)) p = (ok tt, emit host_taken (record p { host_acquired = true }))

unfoldable pub is_success : ℕ → Bool
is_success status = leb 200 status && ltb status 300

-- The assignment of the local variable `state`.
unfoldable pub set_state : ScopeState → Act (Unit {0})
set_state state p = (ok tt, record p { state = some state })

unfoldable pub record_debit : ScopeState → Act (Unit {0})
record_debit state p = (ok tt, emit (debited state) (record p { state = some state }))

unfoldable pub record_settled : Event → Act (Unit {0})
record_settled e p = (ok tt, emit e (record p { settled = true }))

-- The end of a rate transition: it has changed the object that the variable `state` holds, and
-- writes its file. An `OSError` of the write is no `RateStateError` and no `FetchError`.
unfoldable pub store : Bool → ScopeState → Act (Unit {0})
store true state p = (ok tt, record p { state = some state })
store false state p = (err other, emit (write_failed state) (record p { state = some state }))

unfoldable pub record_sent : Act (Unit {0})
record_sent p = (ok tt, emit sent (record p { dispatched = true }))

unfoldable pub record_response : Instant → Bool → Act (Unit {0})
record_response now success p = (
  ok tt,
  record p {
    successful_resource_observed = p.successful_resource_observed || success;
    last_response_at = some now;
  },
)

module _ (h : Host) where
  -- The two branches of `_settle_rate_state`: a reconciliation after a dispatch, a refund before.
  unfoldable pub settle_state : Settling → Bool → ScopeState → Act (Unit {0})
  unfolding lift_rate record_settled store
  settle_state g true state = do
    state' ← lift_rate (reconcile state g.at g.again_at none)
    store g.stored state'
    record_settled (reconciled state')
  settle_state g false state = do
    state' ← lift_rate (refund h state)
    store g.stored state'
    record_settled (refunded state')

  -- `_settle_rate_state`
  unfoldable pub settle : Settling → Act (Unit {0})
  unfolding settle_state
  settle g p = elim p.state [
    | none ↦ (ok tt, p)
    | some state ↦ if p.settled then (ok tt, p) else settle_state g p.dispatched state p
  ]

  -- The wait, and the second load and refill, where there is a delay.
  unfoldable pub wait_and_reload : Script → ScopeState → ℕ → Act ScopeState
  unfolding lift_rate set_state
  wait_and_reload s state zero = pure state
  wait_and_reload s state (suc delay) = do
    lift s.wait
    again ← lift s.reload
    set_state again
    refilled ← lift_rate (refill_tokens h again s.refill_again_at)
    set_state refilled
    pure refilled

  -- The rate transition before the send. The variable `state` is set from the first load on.
  unfoldable pub take_rate : Script → Bool → Act (Unit {0})
  unfolding lift_rate set_state record_debit wait_and_reload store
  take_rate s false = pure tt
  take_rate s true = do
    loaded ← lift s.load
    set_state loaded
    state ← lift_rate (refill_tokens h loaded s.refill_at)
    set_state state
    delay ← lift_rate (eligibility_delay h state s.delay_at)
    admitted ← wait_and_reload s state delay
    debited_state ← lift_rate (debit_and_cooldown h admitted s.debit_at 24)
    store s.debit_stored debited_state
    record_debit debited_state

  unfoldable pub reconcile_response : Script → Response → Option ScopeState → Act (Unit {0})
  unfolding lift_rate record_settled store
  reconcile_response s r none = pure tt
  reconcile_response s r (some state) = do
    state' ← lift_rate (reconcile state s.inner.at s.inner.again_at r.retry_after)
    store s.inner.stored state'
    record_settled (reconciled state')

  unfoldable pub reconcile_current : Script → Response → Act (Unit {0})
  unfolding reconcile_response
  reconcile_current s r p = reconcile_response s r p.state p

  -- The call of the transport, and what follows it inside the `try`.
  unfoldable pub transmit : Script → Transport → Act Response
  unfolding settle record_response reconcile_current is_success
  transmit s (rate_error e) = raise (rate e)
  transmit s (fetch_error retryable) = settle s.inner >> raise (fetch retryable)
  transmit s transport_failure = settle s.inner >> raise (fetch true)
  transmit s other_failure = settle s.inner >> raise (fetch false)
  transmit s invalid = record_response s.observed_at false >> raise other
  transmit s (responds r) = do
    record_response s.observed_at (is_success r.status)
    reconcile_current s r
    pure r

  unfoldable pub dispatch : Script → Option Transport → Act Response
  unfolding transmit record_sent
  dispatch s none = raise (fetch false)
  dispatch s (some t) = record_sent >> transmit s t

  -- The body of the outer `try`.
  unfoldable pub body : Script → Act Response
  unfolding take_lock take_rate take_global take_host dispatch
  body s = do
    take_lock s.scope_lock
    take_rate s s.managed
    take_global s.global_gate
    take_host s.host_gate
    lift s.last_deadline
    dispatch s s.transport

  -- The `except` clauses: every error but a `RateStateError` settles.
  unfoldable pub handle : Script → Result SendError Response → Act Response
  unfolding settle
  handle s (ok r) = pure r
  handle s (err (rate e)) = raise (rate e)
  handle s (err (fetch retryable)) = settle s.outer >> raise (fetch retryable)
  handle s (err other) = settle s.outer >> raise other

  -- The `finally` clause.
  unfoldable pub release : Progress → Progress
  release p =
      let p₁ = if p.host_acquired then emit host_released p else p in
      let p₂ = if p.global_acquired then emit global_released p₁ else p₁ in
      if p.lock_acquired then emit unlocked p₂ else p₂

  unfoldable pub guarded : Script → Act Response
  unfolding body handle release
  guarded s p = let (r, p') = body s p in let (r', p'') = handle s r p' in (r', release p'')

  unfoldable pub send : Script → Act Response
  unfolding guarded
  send s = do lift s.url; lift s.first_deadline; guarded s

-- The local variables at the start of a send.
abbrev pub start : Progress
start = record {
  lock_acquired = false;
  state = none;
  dispatched = false;
  settled = false;
  global_acquired = false;
  host_acquired = false;
  successful_resource_observed = false;
  last_response_at = none;
  events = [];
}
