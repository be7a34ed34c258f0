-- ===== src/Feed/Deployment/Ended.antt =====
-- The lease after the end of a run.
use follow_the_money.Base.{
  true_of_not, Bool, true, false, Option, some, List, ◌≡◌, refl, ap, Result, ok, err, raise_if_ok,
  bind_ok, ok_inj, ltb, not,
}
use mathlib.Core.Path.{subst}
use follow_the_money.Base.Order.{Str}
use follow_the_money.Base.Time.{Instant}
use follow_the_money.Canonical.{Encoding, Json}
use follow_the_money.Providers.Rate.State.{Host}
use follow_the_money.Feed.Plan.{Datetime, zoned}
use follow_the_money.Feed.Checkpoint.{Texts}
use follow_the_money.Feed.Lease.{DeploymentLease, is_in_progress, IsoTexts, read_lease, write_lease}
use follow_the_money.Feed.Deployment.Layout.{
  DeploymentError, only_in_progress, clock_precedes, Runtime, from_lease, durable_paths,
}
use follow_the_money.Feed.Deployment.Prepare.{read_clock, store_lease}
use follow_the_money.Feed.Deployment.Finalize.{
  Product, success_status, terminal_lease, check_checkpoint, finish, finalized, finalize_lease,
  finalize_deployment, Outcome,
}
use follow_the_money.Feed.Deployment.Change.{store_lease_lem}
use follow_the_money.Feed.Deployment.Prepared.{from_lease_ok, read_clock_ok}

module _ (h : Host) (x : IsoTexts) (t : Texts) (e : Encoding) where
  -- The run was armed in the lease that the call found, and the call wrote its end.
  pub record HasEnded (id : Str) (succeeded : Bool) (now : Datetime) (before after : Option e.Bytes)
      : Type 0 where
    pub lease : DeploymentLease
    pub finished_at : Instant
    pub bytes : e.Bytes
    pub reads : read_lease x e before (some id) ≡ ok lease
    pub was_armed : is_in_progress lease.state ≡ true
    pub clock : now ≡ zoned finished_at
    pub not_before : ltb finished_at lease.armed_at ≡ false
    pub writes : write_lease x e (terminal_lease lease succeeded finished_at) ≡ ok bytes
    pub stored : after ≡ some bytes

  module _ (stores : Bool) (id : Str) (succeeded : Bool) (status : Option Json) (p : Product)
      (now : Datetime) (w : Runtime h x t e) where
    finish_lem :
        (done : DeploymentLease × List Str)
        → finish h x t e id succeeded status p now w ≡ ok done
        → (l : DeploymentLease) × ((finished : Instant) × ((read_lease x e w.lease (some id) ≡ ok l)
              × ((is_in_progress l.state ≡ true)
                  × ((now ≡ zoned finished)
                      × ((ltb finished l.armed_at ≡ false)
                          × (terminal_lease l succeeded finished ≡ done.0))))))
    unfolding finish
    finish_lem done g =
        let l = bind_ok (from_lease (read_lease x e w.lease (some id))) _ done g in
        let a = raise_if_ok (not (is_in_progress l.0.state)) only_in_progress _ done l.1.1 in
        let s = bind_ok (success_status succeeded status p) _ done a.1 in
        let f = bind_ok (read_clock now) _ done s.1.1 in
        let b = raise_if_ok (ltb f.0 l.0.armed_at) clock_precedes _ done f.1.1 in
        let d = bind_ok (durable_paths h x t e w) _ done b.1 in
        let c = bind_ok (check_checkpoint h x t e s.0.0 w.checkpoint) _ done d.1.1 in
        (
          l.0,
          (
            f.0,
            (
              from_lease_ok (read_lease x e w.lease (some id)) l.0 l.1.0,
              (
                true_of_not (is_in_progress l.0.state) a.0,
                (read_clock_ok now f.0 f.1.0, (b.0, ap (λ r. r.0) (ok_inj c.1.1))),
              ),
            ),
          ),
        )

    -- What the call leaves: nothing is changed unless it returns, and then the run has ended.
    abbrev Leaves : Outcome h x t e → Type 0
    Leaves (ok paths, v) = HasEnded id succeeded now w.lease v.lease
    Leaves (err r, v) = v ≡ w

    finalized-Leaves :
        (paths : List Str) (l : DeploymentLease) (finished : Instant)
        (kept : Result DeploymentError (Runtime h x t e))
        → read_lease x e w.lease (some id) ≡ ok l
        → is_in_progress l.state ≡ true
        → now ≡ zoned finished
        → ltb finished l.armed_at ≡ false
        → store_lease h x t e stores (terminal_lease l succeeded finished) w ≡ kept
        → Leaves (finalized h x t e paths w kept)
    unfolding finalized
    finalized-Leaves paths l finished (err r) g a n b q = refl
    finalized-Leaves paths l finished (ok v) g a n b q =
        let s = store_lease_lem h x t e stores (terminal_lease l succeeded finished) w v q in
        record {
          lease = l;
          finished_at = finished;
          bytes = s.0;
          reads = g;
          was_armed = a;
          clock = n;
          not_before = b;
          writes = s.1.0;
          stored = s.1.1;
        }

    finalize_lease-Leaves :
        (r : Result DeploymentError (DeploymentLease × List Str))
        → finish h x t e id succeeded status p now w ≡ r
        → Leaves (finalize_lease h x t e stores w r)
    unfolding finalize_lease
    finalize_lease-Leaves (err r) g = refl
    finalize_lease-Leaves (ok (l, paths)) g =
        let f = finish_lem (l, paths) g in
        finalized-Leaves paths f.0 f.1.0 (store_lease h x t e stores l w) f.1.1.0 f.1.1.1.0
          f.1.1.1.1.0 f.1.1.1.1.1.0 (ap (λ m. store_lease h x t e stores m w) f.1.1.1.1.1.1)

    -- An end that returns was that of the run that the lease armed, at a time not before it was
    -- armed, and wrote its terminal lease; an end that fails changes no file.
    pub finalize_deployment-HasEnded :
        (r : Outcome h x t e)
        → finalize_deployment h x t e stores id succeeded status p now w ≡ r
        → Leaves r
    unfolding finalize_deployment
    finalize_deployment-HasEnded r g =
        subst Leaves g (finalize_lease-Leaves (finish h x t e id succeeded status p now w) refl)
