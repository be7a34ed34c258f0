-- ===== src/Feed/Deployment/Prepared.antt =====
-- The lease after a preparation and after the end of a run.
use follow_the_money.Base.{
  Bool, true, false, none, some, List, ◌≡◌, refl, ◌∙◌, ap, Result, ok, err, ◌>>=◌, ◌&&◌, arith,
  Bool-cases, Option-cases, raise_if_ok, bind_ok, ok_inj, inl, inr, not, if◌then◌else◌,
}
use follow_the_money.Base.Order.{Str, str_order}
use follow_the_money.Base.Table.{Table}
use follow_the_money.Base.Time.{Instant}
use follow_the_money.Canonical.{Encoding}
use follow_the_money.Config.{RatePolicy}
use follow_the_money.Providers.Rate.State.{Host}
use follow_the_money.Feed.Plan.{Datetime, zoned, unzoned}
use follow_the_money.Feed.Checkpoint.{Texts, read_checkpoint}
use follow_the_money.Feed.Lease.{DeploymentLease, LeaseError, IsoTexts, read_lease}
use follow_the_money.Feed.Deployment.Layout.{
  DeploymentError, AppConfig, Runtime, Layout, empty_layout, new_layout, is_authoritative,
  from_lease, from_checkpoint, has_unknown, is_there, is_some, file, validate_existing_state,
  validate_new_layout, classify_layout, scope_policies, unsupported_paths, missing_files,
  same_roots, check_compatibility, recovery_envelope,
}
use follow_the_money.Feed.Deployment.Prepare.{
  Surroundings, Survey, is_previous, check_takeover, prepared, bootstrap_run, bootstrap_disk, arm,
  initialize_scopes, takeover_end, takeover, by_layout, survey, surveyed, prepare_deployment,
  read_clock,
}
use follow_the_money.Feed.Deployment.Change.{
  LeaseChange, kept, Changes, bootstrap_files-change, arm_files-change,
}

pub from_lease_ok : {A : Type 0} (r : Result LeaseError A) (a : A) → from_lease r ≡ ok a → r ≡ ok a
from_lease_ok (ok b) a h = ap ok (ok_inj h)
from_lease_ok (err e) a h = cc

pub read_clock_ok : (now : Datetime) (t : Instant) → read_clock now ≡ ok t → now ≡ zoned t
unfolding read_clock
read_clock_ok (zoned u) t h = ap zoned (ok_inj h)
read_clock_ok (unzoned u) t h = cc

not_authoritative :
    {A : Type 0} (authoritative : Bool) (r : Result DeploymentError A)
    → (if authoritative then (r >>= λ _. ok new_layout) else ok empty_layout) ≡ ok empty_layout
    → authoritative ≡ false
not_authoritative true (ok a) p = cc
not_authoritative true (err e) p = cc
not_authoritative false r p = refl

module _ (h : Host) (x : IsoTexts) (t : Texts) (e : Encoding) where
  validate_new_layout-lease :
      (w : Runtime h x t e) (policies : Table Str RatePolicy) (r : List Str × DeploymentLease)
      → validate_new_layout h x t e w policies ≡ ok r
      → read_lease x e w.lease none ≡ ok r.1
  unfolding validate_new_layout
  validate_new_layout-lease w policies r p =
      let p₁ = (raise_if_ok (has_unknown h x t e w) unsupported_paths _ r p).1 in
      let p₂ =
        (raise_if_ok
          (not (
            w.disk.marker
            && (is_there h x t e w.disk.registry && (is_some w.lease && is_some w.checkpoint))))
          missing_files _ r p₁).1 in
      let ids = bind_ok (validate_existing_state h x t e w.disk policies) _ r p₂ in
      let l = bind_ok (from_lease (read_lease x e w.lease none)) _ r ids.1.1 in
      let c =
        bind_ok (from_checkpoint (read_checkpoint t e (file h x t e w.checkpoint))) _ r l.1.1 in
      let same : (ids.0, l.0) ≡ r = ok_inj c.1.1 in
      ap (λ a. a) (from_lease_ok (read_lease x e w.lease none) l.0 l.1.0) ∙ ap (λ a. ok a.1) same

  lease-is_authoritative :
      (w : Runtime h x t e) (b : e.Bytes) → w.lease ≡ some b → is_authoritative h x t e w ≡ true
  unfolding is_authoritative
  lease-is_authoritative w b q = ground arith

  empty_layout-lease :
      (distinct : Bool) (w : Runtime h x t e) (c : AppConfig)
      → classify_layout h x t e distinct w c ≡ ok empty_layout
      → w.lease ≡ none
  unfolding classify_layout
  empty_layout-lease distinct w c p =
      let p₁ = (raise_if_ok (not distinct) same_roots _ empty_layout p).1 in
      let ps = bind_ok (scope_policies c) _ empty_layout p₁ in
      let p₂ = (raise_if_ok (has_unknown h x t e w) unsupported_paths _ empty_layout ps.1.1).1 in
      let no =
        not_authoritative (is_authoritative h x t e w) (validate_new_layout h x t e w ps.0) p₂ in
      elim (Option-cases w.lease) [
        | inl q ↦ q
        | inr (b, q) ↦ ground (arith, lease-is_authoritative w b q)
      ]

  -- What a survey that succeeds tells of the clock and of the lease.
  survey_lem :
      (s : Surroundings) (c : AppConfig) (now : Datetime) (w : Runtime h x t e) (v : Survey)
      → survey h x t e s c now w ≡ ok v
      → (now ≡ zoned v.current) × (v.layout ≡ empty_layout → w.lease ≡ none)
  unfolding survey
  survey_lem s c now w v p =
      let current = bind_ok (read_clock now) _ v p in
      let p₁ = bind_ok (check_compatibility c) _ v current.1.1 in
      let policies = bind_ok (scope_policies c) _ v p₁.1.1 in
      let cooldown = bind_ok (recovery_envelope c policies.0) _ v policies.1.1 in
      let existing = bind_ok s.product _ v cooldown.1.1 in
      let layout = bind_ok (classify_layout h x t e s.distinct_roots w c) _ v existing.1.1 in
      let same = ok_inj layout.1.1 in
      (
        rw (← same) (read_clock_ok now current.0 current.1.0),
        λ q.
            empty_layout-lease s.distinct_roots w c
              (layout.1.0 ∙ ap ok (ap (λ r. r.layout) same ∙ q)),
      )

  module _ (s : Surroundings) (c : AppConfig) (id : Str) (now : Datetime)
      (w : Runtime h x t e) where
    takeover_end-change :
        (v : Survey) (registered : List Str) (l : DeploymentLease)
        (r : Result DeploymentError (Unit {0}))
        → now ≡ zoned v.current
        → read_lease x e w.lease none ≡ ok l
        → check_takeover l id v.current ≡ r
        → Changes h x t e c id now w (takeover_end h x t e s c id v registered w r).1
    unfolding takeover_end arm
    takeover_end-change v registered l (err r) n g q = kept
    takeover_end-change v registered l (ok _) n g q =
        let done = initialize_scopes h x t e s.scope_clock registered v.policies w.disk in
        arm_files-change h x t e c id now w s.stores_lease v.current v.cooldown l
          (record w { disk = done.1 }) done.0 n g q refl

    takeover-change :
        (v : Survey) (r : Result DeploymentError (List Str × DeploymentLease))
        → now ≡ zoned v.current
        → validate_new_layout h x t e w v.policies ≡ r
        → Changes h x t e c id now w (takeover h x t e s c id v w r).1
    unfolding takeover prepared
    takeover-change v (err r) n p = kept
    takeover-change v (ok (registered, l)) n p = elim (Bool-cases (is_previous v.existing)) [
      | inl q ↦ rw q kept
      | inr q ↦ rw q (
          takeover_end-change v registered l (check_takeover l id v.current) n
            (validate_new_layout-lease w v.policies (registered, l) p) refl)
    ]

    by_layout-change :
        (v : Survey) (layout : Layout)
        → now ≡ zoned v.current
        → (layout ≡ empty_layout → w.lease ≡ none)
        → Changes h x t e c id now w (by_layout h x t e layout s c id v w).1
    unfolding by_layout bootstrap_run
    by_layout-change v empty_layout n f =
        let done = bootstrap_disk h x t e s v.policies w.disk in
        bootstrap_files-change h x t e c id now w s v.current v.cooldown v.existing
          (record w { disk = done.1 }) done.0 n (f refl) refl
    by_layout-change v new_layout n f =
        takeover-change v (validate_new_layout h x t e w v.policies) n refl

    surveyed-change :
        (r : Result DeploymentError Survey)
        → survey h x t e s c now w ≡ r
        → Changes h x t e c id now w (surveyed h x t e s c id w r).1
    unfolding surveyed
    surveyed-change (err r) p = kept
    surveyed-change (ok v) p =
        let found = survey_lem s c now w v p in by_layout-change v v.layout found.0 found.1

    -- Whatever a preparation returns, it leaves the file of the lease as it was, or it found no
    -- lease and wrote that of a bootstrap, or it armed its run: then the lease before was one that
    -- reads, of another run, and terminal or past its `recovery_not_before`.
    pub prepare_deployment-change :
        LeaseChange h x t e c id now w.lease (prepare_deployment h x t e s c id now w).1.lease
    unfolding prepare_deployment
    prepare_deployment-change = surveyed-change (survey h x t e s c now w) refl
