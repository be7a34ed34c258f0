-- ===== src/Providers/Session/Settled/Theorems.antt =====
-- The account of one send: the gates it takes, and the debit and settlement of the rate state.
use follow_the_money.Base.{
  ◌+◌, ◌≤◌, ◌≡◌, refl, ◌⊎◌, inl, inr, Bool, true, false, none, arith, if◌then◌else◌, Result, ok,
  err, Result-cases, Option-cases, Bool-cases,
}
use follow_the_money.Providers.Rate.State.{Host, RateError, bad_decimal, refund, reconcile}
use follow_the_money.Providers.Session.Send.{
  SendError, rate, fetch, other, Settling, store, Response, Event, unlocked, global_released,
  host_released, Progress, Script, emit, lift_rate, record_settled, settle_state, settle, raise,
  ◌>>◌, body, handle, as_send_error, release, guarded, send, start,
}
use follow_the_money.Providers.Session.Settled.Counts.{
  Counts, counts, bump, counts-snoc, IsFaithful, NoRefund,
}
use follow_the_money.Providers.Session.Settled.Phases.{settle_lem}
use follow_the_money.Providers.Session.Settled.Body.{IsReady, body-IsReady, bind_lem}

-- What a settlement leaves: a refund only where nothing was sent, and, where the result is a
-- response or a fetch error, no debit that is not settled.
record IsClosed (x : Result SendError Response × Progress) : Type 0 where
  faithful : IsFaithful x.1
  no_refund : NoRefund x.1 ⊎ (x.1.dispatched ≡ false)
  response :
      (r : Response) → x.0 ≡ ok r → (counts x.1.events).debits ≤ (counts x.1.events).reconciles
  fetch_failure :
      (b : Bool)
      → x.0 ≡ err (fetch b)
      → (counts x.1.events).debits ≤ (counts x.1.events).refunds + (counts x.1.events).reconciles

lift_rate-fails :
    {A : Type 0} (r : Result RateError A) (p : Progress) (b : Bool)
    → ¬ ((lift_rate r p).0 ≡ err (fetch b))
unfolding lift_rate as_send_error
lift_rate-fails (ok a) p b e = ground arith
lift_rate-fails (err bad_decimal) p b e = ground arith
lift_rate-fails (err x) p b e = ground arith

module _ (h : Host) (s : Script) where
  settle-fails : (g : Settling) (b : Bool) (p : Progress) → ¬ ((settle h g p).0 ≡ err (fetch b))
  unfolding settle settle_state store record_settled
  settle-fails g b p e = elim (Option-cases p.state) [
    | inl n ↦ ground arith
    | inr (state, n) ↦ ground (
      arith,
      lift_rate-fails (refund h state) p b,
      lift_rate-fails (reconcile state g.at g.again_at none) p b,
    )
  ]

  settled-IsClosed :
      (e : SendError) (p : Progress)
      → IsFaithful p
      → NoRefund p
      → IsClosed ((settle h s.outer >> raise e) p)
  settled-IsClosed e p f n =
      let l = settle_lem h s s.outer p f n in
      bind_lem (settle h s.outer) (λ _. raise e) p IsClosed
        (λ x w. ground (arith, λ (b : Bool). settle-fails s.outer b p)) (λ u w. ground arith)

  handle-IsClosed :
      (r : Result SendError Response) (p : Progress) → IsReady (r, p) → IsClosed (handle h s r p)
  unfolding handle
  handle-IsClosed (ok r) p i = ground arith
  handle-IsClosed (err (rate e)) p i = ground arith
  handle-IsClosed (err (fetch b)) p i = settled-IsClosed (fetch b) p i.faithful i.no_refund
  handle-IsClosed (err other) p i = settled-IsClosed other p i.faithful i.no_refund

-- Every gate taken is released, and none is taken twice.
pub record IsReleased (c : Counts) : Type 0 where
  pub unlocks : c.unlocks ≡ c.locks
  pub global_releases : c.global_releases ≡ c.globals
  pub host_releases : c.host_releases ≡ c.hosts
  pub one_lock : c.locks ≤ 1
  pub one_global : c.globals ≤ 1
  pub one_host : c.hosts ≤ 1

-- There is at most one send, one debit and one settlement, and a refund only if nothing was sent. A
-- debit is reconciled where there is a response, and settled where there is a fetch error.
pub record IsSettledOnce (r : Result SendError Response) (c : Counts) : Type 0 where
  pub one_send : c.sends ≤ 1
  pub one_debit : c.debits ≤ 1
  pub one_settlement : c.refunds + c.reconciles ≤ 1
  pub refund_unsent : 1 ≤ c.refunds → c.sends ≡ 0
  pub response : (x : Response) → r ≡ ok x → c.debits ≤ c.reconciles
  pub fetch_failure : (b : Bool) → r ≡ err (fetch b) → c.debits ≤ c.refunds + c.reconciles

counts-if :
    (b : Bool) (e : Event) (p : Progress)
    → counts (if b then emit e p else p).events
      ≡ (if b then bump e (counts p.events) else counts p.events)
counts-if true e p = counts-snoc p.events e
counts-if false e p = refl

-- The releases, counted.
release_lem :
    (h : Host) (p : Progress)
    → let host =
        (if p.host_acquired then bump host_released (counts p.events) else counts p.events) in
      let global = (if p.global_acquired then bump global_released host else host) in
      counts (release h p).events ≡ (if p.lock_acquired then bump unlocked global else global)
unfolding release
release_lem h p =
    let p₁ = (if p.host_acquired then emit host_released p else p) in
    let p₂ = (if p.global_acquired then emit global_released p₁ else p₁) in
    rw
      (
        counts-if p.lock_acquired unlocked p₂,
        counts-if p.global_acquired global_released p₁,
        counts-if p.host_acquired host_released p,
      )
      refl

unlock_lem :
    (h : Host) (r : Result SendError Response) (p : Progress)
    → IsClosed (r, p)
    → IsReleased (counts (release h p).events) × IsSettledOnce r (counts (release h p).events)
unfolding bump
unlock_lem h r p i = rw (release_lem h p) (elim (Bool-cases p.host_acquired) [
  | inl a ↦ elim (Bool-cases p.global_acquired) [
    | inl b ↦ elim (Bool-cases p.lock_acquired) [ inl c ↦ ground arith | inr c ↦ ground arith ]
    | inr b ↦ elim (Bool-cases p.lock_acquired) [ inl c ↦ ground arith | inr c ↦ ground arith ]
  ]
  | inr a ↦ elim (Bool-cases p.global_acquired) [
    | inl b ↦ elim (Bool-cases p.lock_acquired) [ inl c ↦ ground arith | inr c ↦ ground arith ]
    | inr b ↦ elim (Bool-cases p.lock_acquired) [ inl c ↦ ground arith | inr c ↦ ground arith ]
  ]
])

send_lem :
    (h : Host) (s : Script)
    → let x = send h s start in
      IsReleased (counts x.1.events) × IsSettledOnce x.0 (counts x.1.events)
unfolding send guarded counts
send_lem h s = elim (Result-cases s.url) [
  | inr (x, bad) ↦ ground arith
  | inl (a, e) ↦ elim (Result-cases s.first_deadline) [
    | inr (x, bad) ↦ ground arith
    | inl (a', e') ↦
        let x = body h s start in
        let y = handle h s x.0 x.1 in
        rw (e, e') (unlock_lem h y.0 y.1 (handle-IsClosed h s x.0 x.1 (body-IsReady h s)))
  ]
]

-- After a send, whatever its calls did, each gate has been taken at most once and has been released
-- as often as it was taken: the scope lock, the global gate and the host's gate.
pub send-IsReleased : (h : Host) (s : Script) → IsReleased (counts (send h s start).1.events)
send-IsReleased h s = (send_lem h s).0

-- Whatever its calls did, and whichever writes of the rate file failed: a send calls the transport
-- at most once, completes at most one debit and at most one settlement, and refunds only where
-- nothing was sent. Where it returns a response, a debit has been reconciled;
-- where it fails with a fetch error, a debit has been refunded or reconciled.
pub send-IsSettledOnce :
    (h : Host) (s : Script) → IsSettledOnce (send h s start).0 (counts (send h s start).1.events)
send-IsSettledOnce h s = (send_lem h s).1
