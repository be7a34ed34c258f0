-- ===== src/Providers/Session/Settled/Body.antt =====
-- The body of the outer `try` of `_send`: what holds where its `except` clauses begin.
use follow_the_money.Base.{
  ◌≤◌, ◌≡◌, refl, inl, inr, true, false, Option, none, some, arith, Result, ok, err, Result-cases,
  Option-cases, Bool-cases,
}
use follow_the_money.Providers.Rate.State.{Host, reconcile}
use follow_the_money.Providers.Session.Send.{
  SendError, fetch, Response, Transport, responds, invalid, rate_error, fetch_error,
  transport_failure, other_failure, Act, ◌>>=◌, reconciled, write_failed, store, sent, Progress,
  Script, take_lock, take_global, take_host, lift, lift_rate, record_settled, record_sent,
  record_response, is_success, settle, take_rate, pure, raise, ◌>>◌, reconcile_response,
  reconcile_current, transmit, dispatch, body, start,
}
use follow_the_money.Providers.Session.Settled.Counts.{
  counts, bump, counts-snoc, IsFaithful, NoRefund,
}
use follow_the_money.Providers.Session.Settled.Phases.{
  take_lock_lem, take_global_lem, take_host_lem, take_rate_lem, settle_lem,
}

bind_of :
    {A B : Type 0} (k : A → Act B) (p : Progress) (Q : Result SendError B × Progress → Type 0)
    (r : Result SendError A)
    → ((e : SendError) → r ≡ err e → Q (err e, p))
    → ((a : A) → r ≡ ok a → Q (k a p))
    → Q (((λ _. (r, p)) >>= k) p)
bind_of k p Q (ok a) bad good = good a refl
bind_of k p Q (err e) bad good = bad e refl

-- A property of a result and of what it leaves behind holds of a chain of two actions.
pub bind_lem :
    {A B : Type 0} (m : Act A) (k : A → Act B) (p : Progress)
    (Q : Result SendError B × Progress → Type 0)
    → ((e : SendError) → (m p).0 ≡ err e → Q (err e, (m p).1))
    → ((a : A) → (m p).0 ≡ ok a → Q (k a (m p).1))
    → Q ((m >>= k) p)
bind_lem m k p Q bad good = bind_of k (m p).1 Q (m p).0 bad good

-- No refund is made, and a debit that stands after a success has been reconciled.
pub record IsReady (x : Result SendError Response × Progress) : Type 0 where
  pub faithful : IsFaithful x.1
  pub no_refund : NoRefund x.1
  pub done :
      (r : Response) → x.0 ≡ ok r → (counts x.1.events).debits ≤ (counts x.1.events).reconciles

failed : (e : SendError) (p : Progress) → IsFaithful p → NoRefund p → IsReady (err e, p)
failed e p f n = ground arith

module _ (h : Host) (s : Script) where
  reconcile_current-IsReady :
      (r : Response) (p : Progress)
      → IsFaithful p
      → NoRefund p
      → p.dispatched ≡ true
      → p.settled ≡ false
      → IsReady ((reconcile_current h s r >> pure r) p)
  unfolding reconcile_current reconcile_response store lift_rate record_settled bump
  reconcile_current-IsReady r p f n d u = elim (Option-cases p.state) [
    | inl e ↦ ground arith
    | inr (state, e) ↦
        elim (Result-cases (reconcile state s.inner.at s.inner.again_at r.retry_after)) [
          | inr (x, bad) ↦ ground arith
          | inl (state', w) ↦ elim (Bool-cases s.inner.stored) [
            | inl v ↦ ground (arith, counts-snoc p.events (reconciled state'))
            | inr v ↦ ground (arith, counts-snoc p.events (write_failed state'))
          ]
        ]
  ]

  settled-IsReady :
      (e : SendError) (p : Progress)
      → IsFaithful p
      → NoRefund p
      → p.dispatched ≡ true
      → IsReady ((settle h s.inner >> raise e) p)
  settled-IsReady e p f n d =
      let l = settle_lem h s s.inner p f n in
      bind_lem (settle h s.inner) (λ _. raise e) p IsReady (λ x _. ground arith)
        (λ _ _. ground arith)

  transmit-IsReady :
      (t : Transport) (p : Progress)
      → IsFaithful p
      → NoRefund p
      → p.dispatched ≡ true
      → p.settled ≡ false
      → IsReady (transmit h s t p)
  unfolding transmit record_response
  transmit-IsReady (rate_error e) p f n d u = ground arith
  transmit-IsReady (fetch_error b) p f n d u = settled-IsReady (fetch b) p f n d
  transmit-IsReady transport_failure p f n d u = settled-IsReady (fetch true) p f n d
  transmit-IsReady other_failure p f n d u = settled-IsReady (fetch false) p f n d
  transmit-IsReady invalid p f n d u = ground arith
  transmit-IsReady (responds r) p f n d u =
      let p' = (record_response s.observed_at (is_success r.status) p).1 in
      let f' : IsFaithful p' = ground arith in reconcile_current-IsReady r p' f' n d u

  dispatch-IsReady :
      (t : Option Transport) (p : Progress)
      → IsFaithful p
      → NoRefund p
      → p.dispatched ≡ false
      → p.settled ≡ false
      → IsReady (dispatch h s t p)
  unfolding dispatch record_sent bump
  dispatch-IsReady none p f n d u = ground arith
  dispatch-IsReady (some t) p f n d u =
      let p' = (record_sent p).1 in
      let f' : IsFaithful p' = ground (arith, counts-snoc p.events sent) in
      let n' : NoRefund p' = ground (arith, counts-snoc p.events sent) in
      transmit-IsReady t p' f' n' refl u

  start-IsFaithful : IsFaithful start
  unfolding counts
  start-IsFaithful = ground arith

  start-NoRefund : NoRefund start
  unfolding counts
  start-NoRefund = refl

  take_lock-state : (o : Option (Result SendError (Unit {0}))) → (take_lock o start).1.state ≡ none
  unfolding take_lock
  take_lock-state none = refl
  take_lock-state (some (ok u)) = refl
  take_lock-state (some (err e)) = refl

  pub body-IsReady : IsReady (body h s start)
  unfolding body
  body-IsReady =
      let p₁ = (take_lock s.scope_lock start).1 in
      let l₁ = take_lock_lem start start-IsFaithful start-NoRefund s.scope_lock refl in
      let p₂ = (take_rate h s s.managed p₁).1 in
      let l₂ =
        take_rate_lem h s s.managed p₁ l₁.0.faithful l₁.0.no_refund
          (take_lock-state s.scope_lock) in
      let p₃ = (take_global s.global_gate p₂).1 in
      let l₃ = take_global_lem p₂ l₂.0.faithful l₂.0.no_refund s.global_gate (ground arith) in
      let p₄ = (take_host s.host_gate p₃).1 in
      let l₄ = take_host_lem p₃ l₃.0.faithful l₃.0.no_refund s.host_gate (ground arith) in
      let k₅ : Act Response = dispatch h s s.transport in
      let k₄ : Act Response = lift s.last_deadline >> k₅ in
      let k₃ : Act Response = take_host s.host_gate >> k₄ in
      let k₂ : Act Response = take_global s.global_gate >> k₃ in
      let k₁ : Act Response = take_rate h s s.managed >> k₂ in
      bind_lem (take_lock s.scope_lock) (λ _. k₁) start IsReady
        (λ x _. failed x p₁ l₁.0.faithful l₁.0.no_refund)
        (λ _ _.
          bind_lem (take_rate h s s.managed) (λ _. k₂) p₁ IsReady
            (λ x _. failed x p₂ l₂.0.faithful l₂.0.no_refund)
            (λ _ _.
              bind_lem (take_global s.global_gate) (λ _. k₃) p₂ IsReady
                (λ x _. failed x p₃ l₃.0.faithful l₃.0.no_refund)
                (λ _ _.
                  bind_lem (take_host s.host_gate) (λ _. k₄) p₃ IsReady
                    (λ x _. failed x p₄ l₄.faithful l₄.no_refund)
                    (λ _ _.
                      bind_lem (lift s.last_deadline) (λ _. k₅) p₄ IsReady
                        (λ x _. failed x p₄ l₄.faithful l₄.no_refund)
                        (λ _ _.
                          dispatch-IsReady s.transport p₄ l₄.faithful l₄.no_refund (ground arith)
                            (ground arith))))))
