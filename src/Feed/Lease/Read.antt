-- ===== src/Feed/Lease/Read.antt =====
-- What a lease that is read satisfies.
use follow_the_money.Base.{
  true_of_not, Bool, true, Option, none, some, ◌≡◌, refl, not, ◌&&◌, ◌||◌, ok, arith, Option-cases,
  raise_if_ok, bind_ok, inl, inr,
}
use mathlib.Core.Path.{subst}
use follow_the_money.Base.Order.{Str, str_order, same→eq, codes}
use follow_the_money.Base.Time.{Instant, Timestamp, blank, malformed, naive, utc, offset}
use follow_the_money.Canonical.{
  Json, null, bool, num, other_num, str, arr, obj, names, get_member, is_subset, Encoding,
}
use follow_the_money.Feed.Lease.{
  DeploymentLease, unknown_fields, missing_fields, unknown_version, other_run, IsoTexts,
  lease_version, lease_fields, is_version, is_expected, is_terminal, is_bootstrap, is_some, to_utc,
  parse_time, parse_required, parse_run_id, parse_lease_state, parse_lease, read_lease,
}
use follow_the_money.Feed.Lease.Laws.{has_times, is_consistent, is_named, check_lease-IsConsistent}

module _ (x : IsoTexts) where
  parse_run_id-is_named :
      (v : Option Json) (s : Str) → parse_run_id x v ≡ ok s → is_named x s ≡ true
  unfolding parse_run_id
  parse_run_id-is_named none s h = cc
  parse_run_id-is_named (some null) s h = cc
  parse_run_id-is_named (some (bool _)) s h = cc
  parse_run_id-is_named (some (num _)) s h = cc
  parse_run_id-is_named (some (other_num _)) s h = cc
  parse_run_id-is_named (some (arr _)) s h = cc
  parse_run_id-is_named (some (obj _)) s h = cc
  parse_run_id-is_named (some (str r)) s h = ground arith

  to_utc-is_some : (t : Timestamp) (o : Option Instant) → to_utc t ≡ ok o → is_some o ≡ true
  unfolding to_utc
  to_utc-is_some blank o h = cc
  to_utc-is_some malformed o h = cc
  to_utc-is_some (naive _) o h = cc
  to_utc-is_some (utc t) o h = ground arith
  to_utc-is_some (offset t) o h = ground arith

  parse_time-is_some :
      (v : Option Json) (required : Bool) (o : Option Instant)
      → parse_time x v required ≡ ok o
      → (is_some o || not required) ≡ true
  unfolding parse_time
  parse_time-is_some none required o h = ground arith
  parse_time-is_some (some null) required o h = ground arith
  parse_time-is_some (some (str s)) required o h =
      ground (arith, to_utc-is_some (x.fromisoformat s) o h)
  parse_time-is_some (some (bool _)) required o h = cc
  parse_time-is_some (some (num _)) required o h = cc
  parse_time-is_some (some (other_num _)) required o h = cc
  parse_time-is_some (some (arr _)) required o h = cc
  parse_time-is_some (some (obj _)) required o h = cc

  -- What the tests leave of a lease.
  pub record IsLease (expected : Option Str) (l : DeploymentLease) : Type 0 where
    pub version : l.version ≡ lease_version
    pub named : is_named x l.deployment_run_id ≡ true
    pub expected_run : is_expected x expected l.deployment_run_id ≡ true
    pub times : has_times l ≡ true
    pub consistent : is_consistent l ≡ true

  both_times :
      (a b c d : Bool)
      → (a || not b) ≡ true
      → (c || not (not d)) ≡ true
      → ((a || not b) && (c || d)) ≡ true
  both_times a b c d h k = ground arith

  parse_lease-IsLease :
      (v : Json) (expected : Option Str) (l : DeploymentLease)
      → parse_lease x v expected ≡ ok l
      → IsLease expected l
  unfolding parse_lease
  parse_lease-IsLease null expected l h = cc
  parse_lease-IsLease (bool _) expected l h = cc
  parse_lease-IsLease (num _) expected l h = cc
  parse_lease-IsLease (other_num _) expected l h = cc
  parse_lease-IsLease (str _) expected l h = cc
  parse_lease-IsLease (arr _) expected l h = cc
  parse_lease-IsLease (obj raw) expected l h =
      let h₁ = (raise_if_ok (not (is_subset (names raw) lease_fields)) unknown_fields _ l h).1 in
      let h₂ = (raise_if_ok (not (is_subset lease_fields (names raw))) missing_fields _ l h₁).1 in
      let h₃ =
        (raise_if_ok (not (is_version x (get_member (codes "version") raw))) unknown_version _ l
          h₂).1 in
      let r = bind_ok (parse_run_id x (get_member (codes "deployment_run_id") raw)) _ l h₃ in
      let s = bind_ok (parse_lease_state x (get_member (codes "state") raw)) _ l r.1.1 in
      let q = raise_if_ok (not (is_expected x expected r.0)) other_run _ l s.1.1 in
      let a = bind_ok (parse_required x (get_member (codes "armed_at") raw)) _ l q.1 in
      let f =
        bind_ok (parse_time x (get_member (codes "finished_at") raw) (is_terminal s.0)) _ l a.1.1 in
      let b =
        bind_ok
          (parse_time x (get_member (codes "feed_start_not_after") raw) (not (is_bootstrap s.0))) _
          l f.1.1 in
      let c = bind_ok (parse_required x (get_member (codes "recovery_not_before") raw)) _ l b.1.1 in
      let k = check_lease-IsConsistent _ l c.1.1 in
      subst (λ m. IsLease expected m) k.0
        (record {
          version = refl;
          named = parse_run_id-is_named (get_member (codes "deployment_run_id") raw) r.0 r.1.0;
          expected_run = true_of_not (is_expected x expected r.0) q.0;
          times =
              both_times (is_some f.0) (is_terminal s.0) (is_some b.0) (is_bootstrap s.0)
                (parse_time-is_some (get_member (codes "finished_at") raw) (is_terminal s.0) f.0
                  f.1.0)
                (parse_time-is_some (get_member (codes "feed_start_not_after") raw)
                  (not (is_bootstrap s.0)) b.0 b.1.0);
          consistent = k.1;
        })

  module _ (e : Encoding) where
    pub read_lease-IsLease :
        (file : Option e.Bytes) (expected : Option Str) (l : DeploymentLease)
        → read_lease x e file expected ≡ ok l
        → IsLease expected l
    unfolding read_lease
    read_lease-IsLease none expected l h = cc
    read_lease-IsLease (some b) expected l h = elim (Option-cases (e.loads b)) [
      | inl p ↦ ground arith
      | inr (v, p) ↦ parse_lease-IsLease v expected l (ground arith)
    ]

  parse_lease-none :
      (v : Json) (id : Str) (l : DeploymentLease)
      → parse_lease x v (some id) ≡ ok l
      → parse_lease x v none ≡ ok l
  unfolding parse_lease
  parse_lease-none null id l h = cc
  parse_lease-none (bool _) id l h = cc
  parse_lease-none (num _) id l h = cc
  parse_lease-none (other_num _) id l h = cc
  parse_lease-none (str _) id l h = cc
  parse_lease-none (arr _) id l h = cc
  parse_lease-none (obj raw) id l h =
      let h₁ = raise_if_ok (not (is_subset (names raw) lease_fields)) unknown_fields _ l h in
      let h₂ = raise_if_ok (not (is_subset lease_fields (names raw))) missing_fields _ l h₁.1 in
      let h₃ =
        raise_if_ok (not (is_version x (get_member (codes "version") raw))) unknown_version _ l
          h₂.1 in
      let r = bind_ok (parse_run_id x (get_member (codes "deployment_run_id") raw)) _ l h₃.1 in
      let s = bind_ok (parse_lease_state x (get_member (codes "state") raw)) _ l r.1.1 in
      let q = raise_if_ok (not (is_expected x (some id) r.0)) other_run _ l s.1.1 in
      rw (h₁.0, h₂.0, h₃.0, r.1.0, s.1.0) q.1

  module _ (e : Encoding) where
    -- A lease that is read for one run is read without a run, and is of that run.
    pub read_lease-none :
        (file : Option e.Bytes) (id : Str) (l : DeploymentLease)
        → read_lease x e file (some id) ≡ ok l
        → (read_lease x e file none ≡ ok l) × (l.deployment_run_id ≡ id)
    unfolding read_lease
    read_lease-none none id l h = cc
    read_lease-none (some b) id l h =
        let valid = read_lease-IsLease e (some b) (some id) l h in
        (
          (elim (Option-cases (e.loads b)) [
            | inl p ↦ ground arith
            | inr (v, p) ↦ let same = parse_lease-none v id l in ground arith
          ]),
          same→eq l.deployment_run_id id valid.expected_run,
        )
