-- ===== src/Feed/Deployment/Exclusive.antt =====
-- Starts of runs that have not ended are apart by the deadline, in every reachable world.
use follow_the_money.Base.{
  In, ℕ, ◌+◌, ◌≤◌, Bool, true, false, Option, none, some, List, [], ◌≡◌, inl, inr, refl, ◌∙◌, ok,
  not, select, ltb, arith, Bool-cases,
}
use mathlib.Core.Path.{subst}
use follow_the_money.Base.Order.{Str, str_order, same, same_refl}
use follow_the_money.Base.Sort.Members.{select-In, select-passes}
use follow_the_money.Base.Time.{Instant, floor_ms}
use follow_the_money.Canonical.{Encoding, is_scalar}
use follow_the_money.Providers.Rate.State.{Host}
use follow_the_money.Feed.Plan.{zoned}
use follow_the_money.Feed.Checkpoint.{Texts}
use follow_the_money.Feed.Lease.{
  LeaseState, bootstrap, in_progress, success, failure, DeploymentLease, is_in_progress, IsoTexts,
  read_lease, write_lease,
}
use follow_the_money.Feed.Lease.Laws.{floored, has_times, is_consistent}
use follow_the_money.Feed.Lease.File.{write_lease-read}
use follow_the_money.Feed.Lease.Read.{read_lease-none, read_lease-IsLease}
use follow_the_money.Feed.Deployment.Layout.{AppConfig, Runtime}
use follow_the_money.Feed.Deployment.Prepare.{prepare_deployment}
use follow_the_money.Feed.Deployment.Finalize.{terminal_lease}
use follow_the_money.Feed.Deployment.Prepared.{prepare_deployment-change}
use follow_the_money.Feed.Deployment.Ended.{HasEnded, finalize_deployment-HasEnded}
use follow_the_money.Feed.Deployment.Runs.{
  World, Step, tick, prepare, start, end_run, work, Reach, begin, next, deadline, IsPatient, Apart,
}
use follow_the_money.Feed.Deployment.Sound.{
  admitted_lem, tick-IsSound, work-IsSound, replaced-IsSound,
}
use follow_the_money.Feed.Deployment.Starts.{Sound, older_start, prepare-IsSound, start-IsSound}

floor_le : (a b : ℕ) → a ≤ b → floor_ms a ≤ b
floor_le a b p = omega arith

floor_floor : (a b : ℕ) → a ≤ floor_ms b → a ≤ floor_ms (floor_ms b)
floor_floor a b p = omega arith

in_progress_lem : (s : LeaseState) → is_in_progress s ≡ true → s ≡ in_progress
in_progress_lem bootstrap p = cc
in_progress_lem in_progress p = refl
in_progress_lem success p = cc
in_progress_lem failure p = cc

terminal-times :
    (l : DeploymentLease) (succeeded : Bool) (now : Instant)
    → is_in_progress l.state ≡ true
    → has_times l ≡ true
    → has_times (terminal_lease l succeeded now) ≡ true
unfolding terminal_lease
terminal-times l succeeded now p q =
    let s = in_progress_lem l.state p in
    elim (Bool-cases succeeded) [ inl r ↦ ground arith | inr r ↦ ground arith ]

terminal-consistent :
    (l : DeploymentLease) (succeeded : Bool) (now : Instant)
    → ltb now l.armed_at ≡ false
    → is_consistent l ≡ true
    → is_consistent (terminal_lease l succeeded now) ≡ true
unfolding terminal_lease
terminal-consistent l succeeded now p q = elim (Bool-cases succeeded) [
  | inl r ↦ ground arith
  | inr r ↦ ground arith
]

module _ (h : Host) (x : IsoTexts) (t : Texts) (e : Encoding) (c : AppConfig) where
  terminal-read :
      (l : DeploymentLease) (id : Str) (succeeded : Bool) (now : Instant) (before : Option e.Bytes)
      (b : e.Bytes)
      → read_lease x e before (some id) ≡ ok l
      → is_scalar id ≡ true
      → is_in_progress l.state ≡ true
      → ltb now l.armed_at ≡ false
      → write_lease x e (terminal_lease l succeeded now) ≡ ok b
      → read_lease x e (some b) none ≡ ok (floored (terminal_lease l succeeded now))
  unfolding terminal_lease
  terminal-read l id succeeded now before b r s p q w =
      let valid = read_lease-IsLease x e before (some id) l r in
      let run = (read_lease-none x e before id l r).1 in
      write_lease-read x e (terminal_lease l succeeded now) none b valid.named (rw run s) refl
        (terminal-times l succeeded now p valid.times)
        (terminal-consistent l succeeded now q valid.consistent) w

  terminal-IsPatient :
      (l : DeploymentLease) (succeeded : Bool) (now : Instant)
      → IsPatient h x t e c (floored (terminal_lease l succeeded now))
  unfolding terminal_lease
  terminal-IsPatient l succeeded now a = elim (Bool-cases succeeded) [
    | inl r ↦ ground arith
    | inr r ↦ ground arith
  ]

  In-other :
      (id : Str) (m : Str × Instant) (xs : List (Str × Instant))
      → In m (select (λ k. not (same k.0 id)) xs)
      → In m xs × (m.0 ≡ id → ⊥)
  In-other id m xs i =
      let other = select-passes (λ k. not (same k.0 id)) m xs i in
      (
        select-In (λ k. not (same k.0 id)) m xs i,
        λ p. (let s : same m.0 id ≡ true = rw p (same_refl id) in ground arith),
      )

  end-IsSound :
      (w : World h x t e) (id : Str) (succeeded : Bool) (v : Runtime h x t e)
      → is_scalar id ≡ true
      → HasEnded h x t e id succeeded (zoned w.clock) w.runtime.lease v.lease
      → Sound h x t e c w
      → Sound h x t e c
          (record w { runtime = v; started = select (λ m. not (same m.0 id)) w.started })
  unfolding terminal_lease
  end-IsSound w id succeeded v s r q =
      let l = r.lease in
      let found = read_lease-none x e w.runtime.lease id l r.reads in
      let clock = q.lease_clock l found.0 in
      replaced-IsSound h x t e c w v (select (λ m. not (same m.0 id)) w.started)
        (floored (terminal_lease l succeeded r.finished_at))
        (rw r.stored (
          terminal-read l id succeeded r.finished_at w.runtime.lease r.bytes r.reads s r.was_armed
            r.not_before r.writes))
        (floor_le l.armed_at w.clock clock.0) (terminal-IsPatient l succeeded r.finished_at)
        (λ m i. (In-other id m w.started i).0)
        (λ m i.
          let o = In-other id m w.started i in
          floor_floor (m.1 + deadline h x t e c) l.armed_at
            (older_start h x t e c w l m q found.0 o.0 (λ p. o.1 (p ∙ found.1))))
        q

  step-IsSound : (w v : World h x t e) → Step h x t e c w v → Sound h x t e c w → Sound h x t e c v
  step-IsSound w v (tick later p) s = tick-IsSound h x t e c w later p s
  step-IsSound w v (prepare o id n k) s =
      let u = (prepare_deployment h x t e o c id (zoned w.clock) w.runtime).1 in
      prepare-IsSound h x t e c w id u u.lease n k refl
        (prepare_deployment-change h x t e o c id (zoned w.clock) w.runtime) s
  step-IsSound w v (start id l p) s =
      let a = admitted_lem h x t e w.runtime.lease id w.clock l p in
      start-IsSound h x t e c w id l a.0 a.1 s
  step-IsSound w v (end_run stores id succeeded status p paths u k g) s =
      end-IsSound w id succeeded u k
        (finalize_deployment-HasEnded h x t e stores id succeeded status p (zoned w.clock) w.runtime
          (ok paths, u) g)
        s
  step-IsSound w v (work u p) s = work-IsSound h x t e c w u p s

  begin-IsSound : (w : World h x t e) → w.runtime.lease ≡ none → w.started ≡ [] → Sound h x t e c w
  unfolding read_lease
  begin-IsSound w p q = record {
    lease_clock = λ l r. absurd (
        let reads : read_lease x e none none ≡ ok l =
          subst (λ f. read_lease x e f none ≡ ok l) p r in
        cc);
    known = λ m i. absurd (subst (In m) q i);
    apart = λ m n i j d. absurd (subst (In m) q i);
  }

  pub Reach-IsSound : (w : World h x t e) → Reach h x t e c w → Sound h x t e c w
  Reach-IsSound z (begin _ p q) = begin-IsSound z p q
  Reach-IsSound z (next {w} r s) = step-IsSound w z s (Reach-IsSound w r)

  -- Whatever preparations, starts and ends of hosted runs follow one another on a root that had no
  -- lease, with crashed Feeds left behind: two admitted Feeds of different runs that have both not
  -- ended were started at least the deadline of a Feed apart.
  pub runs-Apart :
      (w : World h x t e) (m n : Str × Instant)
      → Reach h x t e c w
      → In m w.started
      → In n w.started
      → (m.0 ≡ n.0 → ⊥)
      → Apart h x t e c m n
  runs-Apart w m n r i j d = (Reach-IsSound w r).apart m n i j d
