-- ===== src/Feed/Deployment/Change.antt =====
-- How the calls change the file of the lease.
use follow_the_money.Base.{
  ℕ, ◌≤◌, ◌≢◌, ◌⊎◌, true, Bool, Option, none, some, List, ◌≡◌, refl, sym, Result, ok, err, arith,
  Bool-cases, Result-cases, inl, inr,
}
use mathlib.Core.Path.{subst}
use follow_the_money.Base.Order.{Str, str_order, same, same_refl}
use follow_the_money.Base.Time.{Instant}
use follow_the_money.Canonical.{Encoding}
use follow_the_money.Providers.Rate.State.{Host, RateError}
use follow_the_money.Feed.Plan.{Datetime, zoned}
use follow_the_money.Feed.Checkpoint.{Texts}
use follow_the_money.Feed.Lease.{
  LeaseState, bootstrap, in_progress, success, failure, is_terminal, DeploymentLease, IsoTexts,
  read_lease, write_lease,
}
use follow_the_money.Feed.Deployment.Layout.{DeploymentError, AppConfig, Runtime}
use follow_the_money.Feed.Deployment.Prepare.{
  Mode, Surroundings, bootstrap_lease, armed_lease, check_takeover, store_lease, store_checkpoint,
  prepared, is_previous, bootstrap_end, bootstrap_checkpoint, bootstrap_files, arm_end, arm_files,
}

-- A lease that the run may take over: of another run, and ended or past its
-- `recovery_not_before`.
pub record IsFree (l : DeploymentLease) (id : Str) (current : Instant) : Type 0 where
  pub other : l.deployment_run_id ≢ id
  pub over : (l.state ≡ success) ⊎ ((l.state ≡ failure) ⊎ (l.recovery_not_before ≤ current))

is_terminal_cases : (s : LeaseState) → is_terminal s ≡ true → (s ≡ success) ⊎ (s ≡ failure)
is_terminal_cases bootstrap p = cc
is_terminal_cases in_progress p = cc
is_terminal_cases success p = inl refl
is_terminal_cases failure p = inr refl

pub check_takeover-IsFree :
    (l : DeploymentLease) (id : Str) (current : Instant)
    → check_takeover l id current ≡ ok tt
    → IsFree l id current
unfolding check_takeover
check_takeover-IsFree l id current p = record {
  other = λ q. let r : same l.deployment_run_id id ≡ true = rw q (same_refl id) in ground arith;
  over = elim (Bool-cases (is_terminal l.state)) [
    | inl t ↦ elim (is_terminal_cases l.state t) [ inl s ↦ inl s | inr f ↦ inr (inl f) ]
    | inr t ↦ inr (inr (ground arith))
  ];
}

module _ (h : Host) (x : IsoTexts) (t : Texts) (e : Encoding) where
  -- A call leaves the lease, or writes that of a bootstrap where there was none, or arms a run
  -- after a lease that may be taken over.
  pub data LeaseChange (c : AppConfig) (id : Str) (now : Datetime) (before : Option e.Bytes)
      : Option e.Bytes → Type 0 where
    kept : LeaseChange c id now before before
    bootstrapped :
        (current : Instant) (cooldown : ℕ) (b : e.Bytes)
        → now ≡ zoned current
        → before ≡ none
        → write_lease x e (bootstrap_lease id current cooldown) ≡ ok b
        → LeaseChange c id now before (some b)
    armed :
        (current : Instant) (cooldown : ℕ) (l : DeploymentLease) (b : e.Bytes)
        → now ≡ zoned current
        → read_lease x e before none ≡ ok l
        → IsFree l id current
        → write_lease x e (armed_lease id current c.pre_commit_deadline_seconds cooldown) ≡ ok b
        → LeaseChange c id now before (some b)

  pub store_lease_lem :
      (stores : Bool) (l : DeploymentLease) (w v : Runtime h x t e)
      → store_lease h x t e stores l w ≡ ok v
      → (b : e.Bytes) × ((write_lease x e l ≡ ok b) × (v.lease ≡ some b))
  unfolding store_lease
  store_lease_lem stores l w v p = elim (Bool-cases stores) [
    | inr q ↦ ground arith
    | inl q ↦ elim (Result-cases (write_lease x e l)) [
      | inl (b, r) ↦ (b, (r, ground arith))
      | inr (f, r) ↦ ground arith
    ]
  ]

  abbrev pub Changes : AppConfig → Str → Datetime → Runtime h x t e → Runtime h x t e → Type 0
  Changes c id now w v = LeaseChange c id now w.lease v.lease

  store_checkpoint-lease :
      (stores : Bool) (w v : Runtime h x t e)
      → store_checkpoint h x t e stores w ≡ ok v
      → v.lease ≡ w.lease
  unfolding store_checkpoint
  store_checkpoint-lease stores w v p = ground arith

  prepared-lease :
      (mode : Mode) (l : DeploymentLease) (paths : Result DeploymentError (List Str))
      (w : Runtime h x t e)
      → (prepared h x t e mode l paths w).1.lease ≡ w.lease
  unfolding prepared
  prepared-lease mode l paths w = refl

  bootstrap_end-lease :
      (s : Surroundings) (existing : Option ℕ) (l : DeploymentLease) (w : Runtime h x t e)
      (r : Result DeploymentError (Runtime h x t e))
      → ((v : Runtime h x t e) → r ≡ ok v → v.lease ≡ w.lease)
      → (bootstrap_end h x t e s existing l w r).1.lease ≡ w.lease
  unfolding bootstrap_end prepared
  bootstrap_end-lease s existing l w (err r) f = refl
  bootstrap_end-lease s existing l w (ok v) f = elim (Bool-cases (is_previous existing)) [
    | inl p ↦ rw p (f v refl)
    | inr p ↦ rw p (f v refl)
  ]

  -- A call that stores a lease changes the file to it.
  module _ (c : AppConfig) (id : Str) (now : Datetime) (w : Runtime h x t e) where
    bootstrap_checkpoint-change :
        (s : Surroundings) (existing : Option ℕ) (l : DeploymentLease) (u : Runtime h x t e)
        (r : Result DeploymentError (Runtime h x t e))
        → u.lease ≡ w.lease
        → ((v : Runtime h x t e) → r ≡ ok v → Changes c id now w v)
        → Changes c id now w (bootstrap_checkpoint h x t e s existing l u r).1
    unfolding bootstrap_checkpoint
    bootstrap_checkpoint-change s existing l u (err r) k f = rw k kept
    bootstrap_checkpoint-change s existing l u (ok v) k f =
        let same =
          bootstrap_end-lease s existing l v (store_checkpoint h x t e s.stores_checkpoint v)
            (store_checkpoint-lease s.stores_checkpoint v) in
        subst (LeaseChange c id now w.lease) (sym same) (f v refl)

    arm_end-change :
        (l : DeploymentLease) (u : Runtime h x t e) (r : Result DeploymentError (Runtime h x t e))
        → u.lease ≡ w.lease
        → ((v : Runtime h x t e) → r ≡ ok v → Changes c id now w v)
        → Changes c id now w (arm_end h x t e l u r).1
    unfolding arm_end prepared
    arm_end-change l u (err r) k f = rw k kept
    arm_end-change l u (ok v) k f = f v refl

    pub bootstrap_files-change :
        (s : Surroundings) (current : Instant) (cooldown : ℕ) (existing : Option ℕ)
        (u : Runtime h x t e) (r : Result RateError (Unit {0}))
        → now ≡ zoned current
        → w.lease ≡ none
        → u.lease ≡ w.lease
        → Changes c id now w
            (bootstrap_files h x t e s existing (bootstrap_lease id current cooldown) u r).1
    unfolding bootstrap_files
    bootstrap_files-change s current cooldown existing u (err r) n l k = rw k kept
    bootstrap_files-change s current cooldown existing u (ok _) n l k =
        let lease = bootstrap_lease id current cooldown in
        bootstrap_checkpoint-change s existing lease u (store_lease h x t e s.stores_lease lease u)
          k
          (λ v p.
            let b = store_lease_lem s.stores_lease lease u v p in
            rw b.1.1 (bootstrapped current cooldown b.0 n l b.1.0))

    pub arm_files-change :
        (stores : Bool) (current : Instant) (cooldown : ℕ) (l : DeploymentLease)
        (u : Runtime h x t e) (r : Result RateError (Unit {0}))
        → now ≡ zoned current
        → read_lease x e w.lease none ≡ ok l
        → check_takeover l id current ≡ ok tt
        → u.lease ≡ w.lease
        → Changes c id now w
            (arm_files h x t e stores
              (armed_lease id current c.pre_commit_deadline_seconds cooldown)
              u
              r).1
    unfolding arm_files
    arm_files-change stores current cooldown l u (err r) n g q k = rw k kept
    arm_files-change stores current cooldown l u (ok _) n g q k =
        let lease = armed_lease id current c.pre_commit_deadline_seconds cooldown in
        arm_end-change lease u (store_lease h x t e stores lease u) k (λ v p.
          let b = store_lease_lem stores lease u v p in
          rw b.1.1 (armed current cooldown l b.0 n g (check_takeover-IsFree l id current q) b.1.0))
