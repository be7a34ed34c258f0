-- ===== src/Feed/Deployment/Sound.antt =====
-- Each step of the hosted runs keeps them sound.
use follow_the_money.Base.{
  Bool, inl, false, true_of_not, In, ℕ, ◌+◌, ◌≤◌, true, Option, none, some, List, ◌≡◌, inr, refl,
  sym, ◌∙◌, ap, ok, not, ltb, arith, raise_if_ok, bind_ok, ok_inj,
}
use mathlib.Core.Path.{subst}
use follow_the_money.Base.Order.{Str, str_order}
use follow_the_money.Base.Time.{Instant, floor_ms}
use follow_the_money.Canonical.{Encoding, is_scalar}
use follow_the_money.Providers.Rate.State.{Host}
use follow_the_money.Feed.Plan.{zoned}
use follow_the_money.Feed.Checkpoint.{Texts}
use follow_the_money.Feed.Lease.{DeploymentLease, is_in_progress, IsoTexts, read_lease, write_lease}
use follow_the_money.Feed.Lease.Laws.{floored, is_named}
use follow_the_money.Feed.Lease.File.{write_lease-read}
use follow_the_money.Feed.Lease.Read.{read_lease-none}
use follow_the_money.Feed.Deployment.Layout.{
  AppConfig, Runtime, from_lease, not_armed, start_elapsed,
}
use follow_the_money.Feed.Deployment.Change.{IsFree}
use follow_the_money.Feed.Deployment.Prepare.{
  assert_feed_admitted, bootstrap_lease, armed_lease, start_of, read_clock,
}
use follow_the_money.Feed.Deployment.Prepared.{from_lease_ok}
use follow_the_money.Feed.Deployment.Runs.{World, deadline, IsCurrent, IsPatient, IsSound}

start_of_ok : (o : Option Instant) (t : Instant) → start_of o ≡ ok t → o ≡ some t
start_of_ok none t p = cc
start_of_ok (some u) t p = ap some (ok_inj p)

module _ (h : Host) (x : IsoTexts) (t : Texts) (e : Encoding) where
  pub armed-read :
      (id : Str) (current d cooldown : ℕ) (b : e.Bytes)
      → is_named x id ≡ true
      → is_scalar id ≡ true
      → write_lease x e (armed_lease id current d cooldown) ≡ ok b
      → read_lease x e (some b) none ≡ ok (floored (armed_lease id current d cooldown))
  unfolding armed_lease
  armed-read id current d cooldown b n s p =
      write_lease-read x e (armed_lease id current d cooldown) none b n s refl refl (ground arith) p

  pub bootstrap-read :
      (id : Str) (current cooldown : ℕ) (b : e.Bytes)
      → is_named x id ≡ true
      → is_scalar id ≡ true
      → write_lease x e (bootstrap_lease id current cooldown) ≡ ok b
      → read_lease x e (some b) none ≡ ok (floored (bootstrap_lease id current cooldown))
  unfolding bootstrap_lease
  bootstrap-read id current cooldown b n s p =
      write_lease-read x e (bootstrap_lease id current cooldown) none b n s refl refl (ground arith)
        p

  ended : {b : Bool} → b ≡ false → ¬ (b ≡ true)
  ended p q = cc

  pub takeover_lem :
      (l : DeploymentLease) (id : Str) (current : Instant)
      → IsFree l id current
      → is_in_progress l.state ≡ true
      → l.recovery_not_before ≤ current
  takeover_lem l id current p q = elim p.over [
    | inl s ↦ absurd (ended (rw s refl) q)
    | inr (inl f) ↦ absurd (ended (rw f refl) q)
    | inr (inr r) ↦ r
  ]

  pub admitted_lem :
      (file : Option e.Bytes) (id : Str) (now : Instant) (l : DeploymentLease)
      → assert_feed_admitted h x t e file id (zoned now) ≡ ok l
      → (read_lease x e file none ≡ ok l) × IsCurrent h x t e l (id, now)
  unfolding assert_feed_admitted read_clock
  admitted_lem file id now l p =
      let r = bind_ok (from_lease (read_lease x e file (some id))) _ l p in
      let a = raise_if_ok (not (is_in_progress r.0.state)) not_armed _ l r.1.1 in
      let s = bind_ok (start_of r.0.feed_start_not_after) _ l a.1 in
      let b = raise_if_ok (ltb s.0 now) start_elapsed _ l s.1.1 in
      let f =
        read_lease-none x e file id r.0 (from_lease_ok (read_lease x e file (some id)) r.0 r.1.0) in
      let same = ok_inj b.1 in
      subst (λ m. (read_lease x e file none ≡ ok m) × IsCurrent h x t e m (id, now)) same
        (
          f.0,
          record {
            armed = true_of_not (is_in_progress r.0.state) a.0;
            run = f.1;
            start = s.0;
            starts = start_of_ok r.0.feed_start_not_after s.0 s.1.0;
            admitted = ground arith;
          },
        )

  module _ (c : AppConfig) where
    pub tick-IsSound :
        (w : World h x t e) (later : Instant)
        → w.clock ≤ later
        → IsSound h x t e c w
        → IsSound h x t e c (record w { clock = later })
    tick-IsSound w later p s = record {
      lease_clock = λ l r. (ground (arith, s.lease_clock l r), (s.lease_clock l r).1);
      known = s.known;
      apart = s.apart;
    }

    pub work-IsSound :
        (w : World h x t e) (v : Runtime h x t e)
        → v.lease ≡ w.runtime.lease
        → IsSound h x t e c w
        → IsSound h x t e c (record w { runtime = v })
    work-IsSound w v p s = record {
      lease_clock = λ l r. s.lease_clock l (rw (← p) r);
      known = λ m i. let k = s.known m i in (k.0, (rw p k.1.0, k.1.1));
      apart = s.apart;
    }

    -- Another lease that is armed after the starts.
    pub replaced-IsSound :
        (w : World h x t e) (v : Runtime h x t e) (started : List (Str × Instant))
        (l : DeploymentLease)
        → read_lease x e v.lease none ≡ ok l
        → l.armed_at ≤ w.clock
        → IsPatient h x t e c l
        → ((m : Str × Instant) → In m started → In m w.started)
        → ((m : Str × Instant) → In m started → m.1 + deadline h x t e c ≤ floor_ms l.armed_at)
        → IsSound h x t e c w
        → IsSound h x t e c (record w { runtime = v; started = started })
    replaced-IsSound w v started l r a p f g s = record {
      lease_clock = λ m q.
          let same = ok_inj (sym r ∙ q) in
          subst (λ k. (k.armed_at ≤ w.clock) × IsPatient h x t e c k) same (a, p);
      known = λ m i. (l, (r, inr (g m i)));
      apart = λ m n i j. s.apart m n (f m i) (f n j);
    }
