-- ===== src/Providers/Session/Settled/Phases.antt =====
-- The phases of a send and the invariant of its local variables.
use follow_the_money.Base.{
  ℕ, zero, suc, ◌+◌, ◌≤◌, ◌≡◌, ◌≢◌, refl, ◌⊎◌, inl, inr, Bool, true, false, Option, none, some,
  arith, Result, ok, err, Result-cases, Option-cases, Bool-cases,
}
use follow_the_money.Providers.Rate.State.{
  Host, ScopeState, RateError, refill_tokens, eligibility_delay, debit_and_cooldown, refund,
  reconcile,
}
use follow_the_money.Providers.Session.Send.{
  SendError, locked, global_taken, host_taken, debited, refunded, reconciled, write_failed,
  Progress, Script, Settling, emit, store, take_lock, take_global, take_host, lift_rate, set_state,
  record_debit, record_settled, settle_state, settle, wait_and_reload, take_rate,
}
use follow_the_money.Providers.Session.Settled.Counts.{
  counts, bump, counts-snoc, bit, has_state, IsFaithful, NoRefund,
}

-- What every phase before the dispatch keeps.
pub record Before (p q : Progress) : Type 0 where
  pub faithful : IsFaithful q
  pub no_refund : NoRefund q
  pub dispatched : q.dispatched ≡ p.dispatched
  pub settled : q.settled ≡ p.settled

module _ (p : Progress) (f : IsFaithful p) (n : NoRefund p) where
  pub take_lock_lem :
      (o : Option (Result SendError (Unit {0})))
      → p.lock_acquired ≡ false
      → Before p (take_lock o p).1
        × ((take_lock o p).1.global_acquired ≡ p.global_acquired)
        × ((take_lock o p).1.host_acquired ≡ p.host_acquired)
  unfolding take_lock bump
  take_lock_lem none e = ground arith
  take_lock_lem (some (err x)) e = ground arith
  take_lock_lem (some (ok x)) e = ground (arith, counts-snoc p.events locked)

  pub take_global_lem :
      (o : Option (Result SendError (Unit {0})))
      → p.global_acquired ≡ false
      → Before p (take_global o p).1 × ((take_global o p).1.host_acquired ≡ p.host_acquired)
  unfolding take_global bump
  take_global_lem none e = ground arith
  take_global_lem (some (err x)) e = ground arith
  take_global_lem (some (ok x)) e = ground (arith, counts-snoc p.events global_taken)

  pub take_host_lem :
      (o : Option (Result SendError (Unit {0})))
      → p.host_acquired ≡ false
      → Before p (take_host o p).1
  unfolding take_host bump
  take_host_lem none e = ground arith
  take_host_lem (some (err x)) e = ground arith
  take_host_lem (some (ok x)) e = ground (arith, counts-snoc p.events host_taken)

-- Only the variable `state` has changed, and it is set if it was.
pub record OnlyState (p q : Progress) : Type 0 where
  pub events : q.events ≡ p.events
  pub lock : q.lock_acquired ≡ p.lock_acquired
  pub global : q.global_acquired ≡ p.global_acquired
  pub host : q.host_acquired ≡ p.host_acquired
  pub dispatched : q.dispatched ≡ p.dispatched
  pub settled : q.settled ≡ p.settled
  pub state : bit (has_state p.state) ≤ bit (has_state q.state)

pub lift_rate-same : {A : Type 0} (r : Result RateError A) (p : Progress) → (lift_rate r p).1 ≡ p
unfolding lift_rate
lift_rate-same (ok a) p = refl
lift_rate-same (err e) p = refl

pub bit_le : (b : Bool) → bit b ≤ 1
bit_le true = omega arith
bit_le false = omega arith

module _ (h : Host) (s : Script) where
  wait_and_reload-OnlyState :
      (state : ScopeState) (delay : ℕ) (p : Progress)
      → OnlyState p (wait_and_reload h s state delay p).1
  unfolding wait_and_reload set_state
  wait_and_reload-OnlyState state zero p = ground arith
  wait_and_reload-OnlyState state (suc delay) p = elim (Result-cases s.wait) [
    | inr (x, bad) ↦ ground arith
    | inl (u, waited) ↦ elim (Result-cases s.reload) [
      | inr (x, bad) ↦ ground arith
      | inl (again, loaded) ↦ elim (Result-cases (refill_tokens h again s.refill_again_at)) [
        | inr (x, bad) ↦ ground (arith, bit_le (has_state p.state))
        | inl (refilled, r) ↦ ground (arith, bit_le (has_state p.state))
      ]
    ]
  ]

  -- Either nothing but `state` changes, or a debit is recorded as well, or the failure of its write.
  pub take_rate_steps :
      (managed : Bool) (p : Progress)
      → OnlyState p (take_rate h s managed p).1
        ⊎ (((q : Progress) × OnlyState p q
              × ((state : ScopeState) × ((take_rate h s managed p).1
                    ≡ emit (write_failed state) (record q { state = some state }))))
            ⊎ ((q : Progress) × OnlyState p q
                × ((state : ScopeState) × ((take_rate h s managed p).1
                      ≡ (record_debit state q).1))))
  unfolding take_rate set_state store
  take_rate_steps false p = inl (ground arith)
  take_rate_steps true p = elim (Result-cases s.load) [
    | inr (x, bad) ↦ inl (ground arith)
    | inl (loaded, e) ↦ elim (Result-cases (refill_tokens h loaded s.refill_at)) [
      | inr (x, bad) ↦ inl (ground (arith, bit_le (has_state p.state)))
      | inl (state, r) ↦ elim (Result-cases (eligibility_delay h state s.delay_at)) [
        | inr (x, bad) ↦ inl (ground (arith, bit_le (has_state p.state)))
        | inl (delay, d) ↦
            (let p' = record p { state = some state } in
              let waited = wait_and_reload h s state delay p' in
              let only : OnlyState p waited.1 =
                ground
                  (arith, wait_and_reload-OnlyState state delay p', bit_le (has_state p.state)) in
              elim (Result-cases waited.0) [
                | inr (x, bad) ↦ inl (ground arith)
                | inl (admitted, a) ↦
                    elim (Result-cases (debit_and_cooldown h admitted s.debit_at 24)) [
                      | inr (x, bad) ↦ inl (ground arith)
                      | inl (debit, b) ↦ elim (Bool-cases s.debit_stored) [
                        | inl w ↦ inr (inr (waited.1, only, (debit, ground arith)))
                        | inr w ↦ inr (inl (waited.1, only, (debit, ground arith)))
                      ]
                    ]
              ])
      ]
    ]
  ]

-- The three gates' flags.
abbrev pub SameGates : Progress → Progress → Type 0
SameGates p q =
    (q.lock_acquired ≡ p.lock_acquired)
    × (q.global_acquired ≡ p.global_acquired)
    × (q.host_acquired ≡ p.host_acquired)

record_debit_lem :
    (state : ScopeState) (p q : Progress)
    → IsFaithful p
    → NoRefund p
    → p.state ≡ none
    → OnlyState p q
    → Before p (record_debit state q).1 × SameGates p (record_debit state q).1
unfolding record_debit bump
record_debit_lem state p q f n e o = ground (arith, counts-snoc q.events (debited state))

write_failed_lem :
    (state : ScopeState) (p q : Progress)
    → IsFaithful p
    → NoRefund p
    → OnlyState p q
    → Before p (emit (write_failed state) (record q { state = some state }))
      × SameGates p (emit (write_failed state) (record q { state = some state }))
unfolding bump
write_failed_lem state p q f n o = ground (arith, counts-snoc q.events (write_failed state))

OnlyState-Before :
    (p q : Progress) → IsFaithful p → NoRefund p → OnlyState p q → Before p q × SameGates p q
OnlyState-Before p q f n o = ground arith

module _ (h : Host) (s : Script) where
  pub take_rate_lem :
      (managed : Bool) (p : Progress)
      → IsFaithful p
      → NoRefund p
      → p.state ≡ none
      → Before p (take_rate h s managed p).1 × SameGates p (take_rate h s managed p).1
  take_rate_lem managed p f n e = elim (take_rate_steps h s managed p) [
    | inl o ↦ OnlyState-Before p (take_rate h s managed p).1 f n o
    | inr (inl (q, o, (state, last))) ↦ rw last (write_failed_lem state p q f n o)
    | inr (inr (q, o, (state, last))) ↦ rw last (record_debit_lem state p q f n e o)
  ]

  -- What a settlement does: at most one, and a refund only where nothing was sent.
  pub record Settles (p q : Progress) : Type 0 where
    pub faithful : IsFaithful q
    pub no_refund : NoRefund q ⊎ (q.dispatched ≡ false)
    pub dispatched : q.dispatched ≡ p.dispatched
    pub gates : SameGates p q

  pub settle_lem :
      (g : Settling) (p : Progress)
      → IsFaithful p
      → NoRefund p
      → Settles p (settle h g p).1
        × ((settle h g p).0 ≡ ok tt
            → (counts (settle h g p).1.events).debits
              ≤ (counts (settle h g p).1.events).refunds
                + (counts (settle h g p).1.events).reconciles)
        × ((settle h g p).0 ≢ ok tt → NoRefund (settle h g p).1)
  unfolding settle settle_state store lift_rate record_settled bump
  settle_lem g p f n = elim (Option-cases p.state) [
    | inl e ↦ ground arith
    | inr (state, e) ↦ elim (Bool-cases p.settled) [
      | inl t ↦ ground arith
      | inr u ↦ elim (Bool-cases p.dispatched) [
        | inl d ↦ elim (Result-cases (reconcile state g.at g.again_at none)) [
          | inr (x, bad) ↦ ground arith
          | inl (state', r) ↦ elim (Bool-cases g.stored) [
            | inl w ↦ ground (arith, counts-snoc p.events (reconciled state'))
            | inr w ↦ ground (arith, counts-snoc p.events (write_failed state'))
          ]
        ]
        | inr d ↦ elim (Result-cases (refund h state)) [
          | inr (x, bad) ↦ ground arith
          | inl (state', r) ↦ elim (Bool-cases g.stored) [
            | inl w ↦ ground (arith, counts-snoc p.events (refunded state'))
            | inr w ↦ ground (arith, counts-snoc p.events (write_failed state'))
          ]
        ]
      ]
    ]
  ]
