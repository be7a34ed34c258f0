-- ===== src/Providers/Rate/Eligible.antt =====
-- When the next dispatch is admitted: the crash cooldown, the minimum interval, the delay that the
-- upstream asks for, and the delay that the code computes.
use follow_the_money.Base.{
  ℕ, zero, suc, ◌+◌, ◌*◌, ◌≤◌, ◌<◌, ◌≡◌, ◌⊎◌, inl, inr, true, Option, none, some, arith, max, ok,
  err, Option-cases,
}
use follow_the_money.Base.Time.{fmt_utc, second, hour, floor_ms}
use follow_the_money.Providers.Rate.State.{
  Host, fmt_tokens, ScopeState, RateError, not_yet_eligible, no_available_token, debit_and_cooldown,
  reconcile, retry_from, eligibility_delay,
}

reconcile_lem :
    (state state' : ScopeState) (now done again : ℕ) (retry : Option ℕ) (interval : ℕ)
    → state.last_dispatch_wall ≡ some (fmt_utc now)
    → state.minimum_interval_seconds ≡ interval
    → reconcile state done again retry ≡ ok state'
    → state'.cooldown_until
      ≡ some (fmt_utc (retry_from (max done (floor_ms now + interval * second)) again retry))
unfolding reconcile fmt_utc
reconcile_lem state state' now done again none interval e i f = ground arith
reconcile_lem state state' now done again (some zero) interval e i f = ground arith
reconcile_lem state state' now done again (some (suc s)) interval e i f = ground arith

-- The cooldown that a reconciliation sets lasts over the spacing and over the delay of the upstream.
retry_from_within :
    (spaced again later : ℕ) (retry : Option ℕ)
    → (later < floor_ms spaced)
      ⊎ ((s : ℕ) × (retry ≡ some s) × (0 < s) × (later < floor_ms (again + s * second)))
    → later < floor_ms (retry_from spaced again retry)
unfolding retry_from
retry_from_within spaced again later none (inl l) = l
retry_from_within spaced again later (some zero) (inl l) = l
retry_from_within spaced again later (some (suc n)) (inl l) = ground arith
retry_from_within spaced again later none (inr (s, e, z, l)) = ground arith
retry_from_within spaced again later (some zero) (inr (s, e, z, l)) = ground arith
retry_from_within spaced again later (some (suc n)) (inr (s, e, z, l)) = ground arith

module _ (h : Host) where
  -- What a debit leaves: the cooldown and the dispatch that it installs, and one token less.
  pub debit_and_cooldown_lem :
      (state state' : ScopeState) (now hours : ℕ)
      → debit_and_cooldown h state now hours ≡ ok state'
      → (state'.cooldown_until ≡ some (fmt_utc (now + hours * hour)))
        × (state'.last_dispatch_wall ≡ some (fmt_utc now))
        × (state'.minimum_interval_seconds ≡ state.minimum_interval_seconds)
        × ((t : h.Decimal) × (h.parse state.tokens ≡ some t)
            × (h.leq (h.of_nat 1) t ≡ true)
            × (state'.tokens ≡ fmt_tokens h (h.sub t (h.of_nat 1))))
  unfolding debit_and_cooldown
  debit_and_cooldown_lem state state' now hours e = elim (Option-cases (h.parse state.tokens)) [
    | inl missing ↦ absurd (ground arith)
    | inr (t, p) ↦ (ground arith, ground arith, ground arith, (t, p, ground arith, ground arith))
  ]

  cooldown_refuses :
      (state : ScopeState) (until later hours : ℕ)
      → state.cooldown_until ≡ some (fmt_utc until)
      → later < floor_ms until
      → debit_and_cooldown h state later hours ≡ err not_yet_eligible
  unfolding debit_and_cooldown fmt_utc
  cooldown_refuses state until later hours e lt = ground arith

  -- After a debit that no reconciliation follows, as after a crash, every debit before the end of
  -- the cooldown is refused.
  pub debit-debit :
      (state state' : ScopeState) (now later hours : ℕ)
      → debit_and_cooldown h state now hours ≡ ok state'
      → later < floor_ms (now + hours * hour)
      → debit_and_cooldown h state' later hours ≡ err not_yet_eligible
  debit-debit state state' now later hours e lt =
      cooldown_refuses state' (now + hours * hour) later hours
        (debit_and_cooldown_lem state state' now hours e).0 lt

  -- After a debit and its reconciliation, a debit is refused as not yet eligible if it comes, in
  -- whole milliseconds, before the reconciliation, within the minimum interval of the dispatch, or
  -- within the delay that the upstream asks for.
  pub debit-reconcile :
      (state state' state'' : ScopeState) (now done again later hours : ℕ) (retry : Option ℕ)
      → debit_and_cooldown h state now hours ≡ ok state'
      → reconcile state' done again retry ≡ ok state''
      → (later < floor_ms (max done (floor_ms now + state.minimum_interval_seconds * second)))
        ⊎ ((s : ℕ) × (retry ≡ some s) × (0 < s) × (later < floor_ms (again + s * second)))
      → debit_and_cooldown h state'' later hours ≡ err not_yet_eligible
  debit-reconcile state state' state'' now done again later hours retry e f lt =
      let debited = debit_and_cooldown_lem state state' now hours e in
      let spaced = max done (floor_ms now + state.minimum_interval_seconds * second) in
      cooldown_refuses state'' (retry_from spaced again retry) later hours
        (reconcile_lem state' state'' now done again retry state.minimum_interval_seconds debited.1
          debited.2 f)
        (retry_from_within spaced again later retry lt)

  -- Once the computed delay has passed, a debit is refused only for the lack of a token.
  pub eligibility_delay-debit :
      (state : ScopeState) (now later delay hours : ℕ) (e : RateError)
      → eligibility_delay h state now ≡ ok delay
      → now + delay ≤ later
      → debit_and_cooldown h state later hours ≡ err e
      → e ≡ no_available_token
  unfolding eligibility_delay debit_and_cooldown
  eligibility_delay-debit state now later delay hours e d le f = ground arith
