-- ===== src/Feed/Deployment/Starts.antt =====
-- A preparation and a start keep the runs sound.
use follow_the_money.Base.{
  In, ℕ, ◌+◌, ◌*◌, ◌≤◌, true, Option, none, some, ◌∷◌, ◌≡◌, inl, inr, sym, ◌∙◌, ap, ok, arith,
  ok_inj,
}
use mathlib.Core.Path.{subst}
use follow_the_money.Base.Order.{Str, str_order}
use follow_the_money.Base.Time.{Instant, second, floor_ms}
use follow_the_money.Canonical.{Encoding, is_scalar}
use follow_the_money.Providers.Rate.State.{Host}
use follow_the_money.Feed.Plan.{zoned}
use follow_the_money.Feed.Checkpoint.{Texts}
use follow_the_money.Feed.Lease.{DeploymentLease, is_in_progress, IsoTexts, read_lease}
use follow_the_money.Feed.Lease.Laws.{floored, is_named}
use follow_the_money.Feed.Deployment.Layout.{AppConfig, Runtime}
use follow_the_money.Feed.Deployment.Prepare.{bootstrap_lease, armed_lease}
use follow_the_money.Feed.Deployment.Change.{LeaseChange, kept, bootstrapped, armed}
use follow_the_money.Feed.Deployment.Runs.{World, deadline, IsCurrent, IsPatient, IsSound}
use follow_the_money.Feed.Deployment.Sound.{
  armed-read, bootstrap-read, takeover_lem, work-IsSound, replaced-IsSound,
}

some_inj : {a b : Instant} → ◌≡◌ {A = Option Instant} (some a) (some b) → a ≡ b
some_inj p = cc

-- A start under a lease that may be taken over is past by the deadline.
known-past :
    (d : ℕ) (latest recovery current m : ℕ)
    → m ≤ latest
    → latest + d ≤ floor_ms recovery
    → recovery ≤ current
    → m + d ≤ floor_ms (floor_ms current)
known-past d latest recovery current m p q r = omega arith

older-past : (a b current : ℕ) → a ≤ floor_ms b → b ≤ current → a ≤ floor_ms (floor_ms current)
older-past a b current p q = omega arith

after_armed : (a b clock : ℕ) → a ≤ floor_ms b → b ≤ clock → a ≤ clock
after_armed a b clock p q = omega arith

module _ (h : Host) (x : IsoTexts) (t : Texts) (e : Encoding) (c : AppConfig) where
  abbrev pub Sound : World h x t e → Type 0
  Sound w = IsSound h x t e c w

  taken_over :
      (w : World h x t e) (l : DeploymentLease) (m : Str × Instant)
      → Sound w
      → read_lease x e w.runtime.lease none ≡ ok l
      → (is_in_progress l.state ≡ true → l.recovery_not_before ≤ w.clock)
      → In m w.started
      → m.1 + deadline h x t e c ≤ floor_ms (floor_ms w.clock)
  taken_over w l m s r p i =
      let k = s.known m i in
      let same : k.0 ≡ l = ok_inj (sym k.1.0 ∙ r) in
      let clock = s.lease_clock k.0 k.1.0 in
      elim k.1.1 [
        | inl u ↦
            known-past (deadline h x t e c) u.start k.0.recovery_not_before w.clock m.1 u.admitted
              (clock.1 u.armed u.start u.starts) (rw same (p (rw (← same) u.armed)))
        | inr u ↦ older-past (m.1 + deadline h x t e c) k.0.armed_at w.clock u clock.0
      ]

  armed-IsPatient :
      (id : Str) (current cooldown : ℕ)
      → IsPatient h x t e c
          (floored (armed_lease id current c.pre_commit_deadline_seconds cooldown))
  unfolding armed_lease
  armed-IsPatient id current cooldown a latest q =
      let same : floor_ms (current + c.pre_commit_deadline_seconds * second) ≡ latest =
        some_inj q in
      rw (← same) (omega arith)

  no_lease :
      (w : World h x t e) (m : Str × Instant)
      → Sound w
      → w.runtime.lease ≡ none
      → In m w.started
      → ⊥
  unfolding read_lease
  no_lease w m s p i =
      let k = s.known m i in
      let reads : read_lease x e none none ≡ ok k.0 =
        subst (λ f. read_lease x e f none ≡ ok k.0) p k.1.0 in
      cc

  pub prepare-IsSound :
      (w : World h x t e) (id : Str) (v : Runtime h x t e) (after : Option e.Bytes)
      → is_named x id ≡ true
      → is_scalar id ≡ true
      → v.lease ≡ after
      → LeaseChange h x t e c id (zoned w.clock) w.runtime.lease after
      → Sound w
      → Sound (record w { runtime = v })
  unfolding armed_lease bootstrap_lease
  prepare-IsSound w id v after n s p kept q = work-IsSound h x t e c w v p q
  prepare-IsSound w id v after n s p (bootstrapped current cooldown b k l g) q =
      let now : w.clock ≡ current = cc in
      let r : read_lease x e v.lease none ≡ ok (floored (bootstrap_lease id current cooldown)) =
        rw p (bootstrap-read h x t e id current cooldown b n s g) in
      replaced-IsSound h x t e c w v w.started (floored (bootstrap_lease id current cooldown)) r
        (rw now (omega arith)) (λ a. cc) (λ m i. i) (λ m i. absurd (no_lease w m q l i)) q
  prepare-IsSound w id v after n s p (armed current cooldown l b k g o a) q =
      let now : w.clock ≡ current = cc in
      let lease = floored (armed_lease id current c.pre_commit_deadline_seconds cooldown) in
      let r : read_lease x e v.lease none ≡ ok lease =
        rw p (armed-read h x t e id current c.pre_commit_deadline_seconds cooldown b n s a) in
      let free : is_in_progress l.state ≡ true → l.recovery_not_before ≤ w.clock =
        λ u. rw now (takeover_lem h x t e l id current o u) in
      replaced-IsSound h x t e c w v w.started lease r (rw now (omega arith))
        (armed-IsPatient id current cooldown) (λ m i. i)
        (λ m i. rw (← now) (taken_over w l m q g free i)) q

  pub older_start :
      (w : World h x t e) (l : DeploymentLease) (m : Str × Instant)
      → Sound w
      → read_lease x e w.runtime.lease none ≡ ok l
      → In m w.started
      → (m.0 ≡ l.deployment_run_id → ⊥)
      → m.1 + deadline h x t e c ≤ floor_ms l.armed_at
  older_start w l m s r i d =
      let k = s.known m i in
      let same : k.0 ≡ l = ok_inj (sym k.1.0 ∙ r) in
      elim k.1.1 [
        | inl u ↦ absurd (d (sym u.run ∙ ap (λ n. n.deployment_run_id) same))
        | inr u ↦ rw (← same) u
      ]

  pub start-IsSound :
      (w : World h x t e) (id : Str) (l : DeploymentLease)
      → read_lease x e w.runtime.lease none ≡ ok l
      → IsCurrent h x t e l (id, w.clock)
      → Sound w
      → Sound (record w { started = (id, w.clock) ∷ w.started })
  start-IsSound w id l r u s =
      let older : (m : Str × Instant)
          → In m w.started
          → (m.0 ≡ id → ⊥)
          → m.1 + deadline h x t e c ≤ w.clock =
        λ m i d.
          after_armed (m.1 + deadline h x t e c) l.armed_at w.clock
            (older_start w l m s r i (λ f. d (f ∙ u.run))) (s.lease_clock l r).0 in
      record {
        lease_clock = s.lease_clock;
        known = λ m i. elim i [
          | inl p ↦ (l, (r, inl (subst (IsCurrent h x t e l) p u)))
          | inr j ↦ s.known m j
        ];
        apart = λ m n i j d. elim i [
          | inl p ↦ elim j [
            | inl q ↦ absurd (d (ap (λ a. a.0) (sym p ∙ q)))
            | inr k ↦ inr (rw (← p) (older n k (λ f. d (sym (ap (λ a. a.0) p) ∙ sym f))))
          ]
          | inr k ↦ elim j [
            | inl q ↦ inl (rw (← q) (older m k (λ f. d (f ∙ ap (λ a. a.0) q))))
            | inr o ↦ s.apart m n k o d
          ]
        ];
      }
