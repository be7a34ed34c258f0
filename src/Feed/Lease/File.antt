-- ===== src/Feed/Lease/File.antt =====
-- The file of a lease: what is written is read back to the millisecond.
use follow_the_money.Base.{
  true_of_not, true, Option, none, some, ◌≡◌, refl, ◌∙◌, not, ◌||◌, ok, arith, raise_if_ok, ok_inj,
}
use follow_the_money.Base.Order.{Str, str_order, str_leq, same, same→eq, codes}
use follow_the_money.Base.Time.{Instant}
use follow_the_money.Canonical.{
  Json, str, obj, member, end, names, get_member, ordered, insert_member, is_distinct, are_scalar,
  is_scalar, Encoding,
}
use follow_the_money.Feed.Lease.{
  LeaseState, bootstrap, in_progress, success, failure, DeploymentLease, unsupported_lease,
  IsoTexts, lease_version, state_text, parse_state, is_terminal, is_bootstrap, is_some, is_expected,
  iso, parse_run_id, parse_lease_state, parse_lease, lease_value, read_lease, write_lease,
}
use follow_the_money.Feed.Lease.Laws.{
  floored, has_times, is_consistent, check_lease-eq, is_consistent-floored, parse_time-iso,
  parse_required-iso, is_named,
}

module _ (x : IsoTexts) where
  ordered-iso : (o : Option Instant) → ordered (iso x o) ≡ iso x o
  unfolding iso ordered
  ordered-iso none = refl
  ordered-iso (some t) = refl

  -- The object of a lease with its members in order.
  abbrev sorted_object : Json → Json → Json → Json → Json → Json → Json → Json
  sorted_object version run_id state armed finished start recovery = obj (
      member (codes "armed_at") armed (
        member (codes "deployment_run_id") run_id (
          member (codes "feed_start_not_after") start (
            member (codes "finished_at") finished (
              member (codes "recovery_not_before") recovery
                (member (codes "state") state (member (codes "version") version end)))))))

  ordered_object :
      (version run_id state armed finished start recovery : Json)
      → ordered (
          obj (
            member (codes "version") version (
              member (codes "deployment_run_id") run_id (
                member (codes "state") state (
                  member (codes "armed_at") armed (
                    member (codes "finished_at") finished (
                      member
                        (codes "feed_start_not_after")
                        start
                        (member (codes "recovery_not_before") recovery end))))))))
        ≡ sorted_object
            (ordered version)
            (ordered run_id)
            (ordered state)
            (ordered armed)
            (ordered finished)
            (ordered start)
            (ordered recovery)
  unfolding ordered insert_member str_leq
  ordered_object version run_id state armed finished start recovery = refl

  abbrev sorted_value : DeploymentLease → Json
  sorted_value l =
      sorted_object (str l.version) (str l.deployment_run_id) (str (state_text l.state))
        (iso x (some l.armed_at)) (iso x l.finished_at) (iso x l.feed_start_not_after)
        (iso x (some l.recovery_not_before))

  same_times :
      (l : DeploymentLease)
      → sorted_object
          (ordered (str l.version))
          (ordered (str l.deployment_run_id))
          (ordered (str (state_text l.state)))
          (ordered (iso x (some l.armed_at)))
          (ordered (iso x l.finished_at))
          (ordered (iso x l.feed_start_not_after))
          (ordered (iso x (some l.recovery_not_before)))
        ≡ sorted_value l
  unfolding ordered
  same_times l =
      rw
        (
          ordered-iso (some l.armed_at),
          ordered-iso l.finished_at,
          ordered-iso l.feed_start_not_after,
          ordered-iso (some l.recovery_not_before),
        )
        refl

  ordered-lease_value : (l : DeploymentLease) → ordered (lease_value x l) ≡ sorted_value l
  unfolding lease_value
  ordered-lease_value l =
      ordered_object (str l.version) (str l.deployment_run_id) (str (state_text l.state))
        (iso x (some l.armed_at)) (iso x l.finished_at) (iso x l.feed_start_not_after)
        (iso x (some l.recovery_not_before))
      ∙ same_times l

  parse_run_id_lem : (s : Str) → is_named x s ≡ true → parse_run_id x (some (str s)) ≡ ok s
  unfolding parse_run_id
  parse_run_id_lem s h = rw h refl

  parse_lease_state_lem : (s : LeaseState) → parse_lease_state x (some (str (state_text s))) ≡ ok s
  unfolding parse_lease_state parse_state state_text str_leq
  parse_lease_state_lem bootstrap = refl
  parse_lease_state_lem in_progress = refl
  parse_lease_state_lem success = refl
  parse_lease_state_lem failure = refl

  parse_sorted :
      (l : DeploymentLease) (expected : Option Str)
      → l.version ≡ lease_version
      → is_named x l.deployment_run_id ≡ true
      → is_expected x expected l.deployment_run_id ≡ true
      → has_times l ≡ true
      → is_consistent l ≡ true
      → parse_lease x (sorted_value l) expected ≡ ok (floored l)
  unfolding parse_lease names get_member str_leq
  parse_sorted l expected v n e t c =
      let finished : (is_some l.finished_at || not (is_terminal l.state)) ≡ true = ground arith in
      let start : (is_some l.feed_start_not_after || not (not (is_bootstrap l.state))) ≡ true =
        ground arith in
      rw
        (
          v,
          parse_run_id_lem l.deployment_run_id n,
          parse_lease_state_lem l.state,
          e,
          parse_required-iso x l.armed_at,
          parse_time-iso x l.finished_at (is_terminal l.state) finished,
          parse_time-iso x l.feed_start_not_after (not (is_bootstrap l.state)) start,
          parse_required-iso x l.recovery_not_before,
        )
        (check_lease-eq (record (floored l) { version = lease_version })
          (is_consistent-floored l c))

  iso-scalar : (o : Option Instant) → are_scalar (iso x o) ≡ true
  unfolding iso are_scalar
  iso-scalar none = refl
  iso-scalar (some t) = x.isoformat-is_scalar t

  state_text-scalar : (s : LeaseState) → are_scalar (str (state_text s)) ≡ true
  unfolding are_scalar is_scalar state_text
  state_text-scalar bootstrap = refl
  state_text-scalar in_progress = refl
  state_text-scalar success = refl
  state_text-scalar failure = refl

  sorted_value-scalar :
      (l : DeploymentLease)
      → l.version ≡ lease_version
      → is_scalar l.deployment_run_id ≡ true
      → are_scalar (sorted_value l) ≡ true
  unfolding are_scalar is_scalar
  sorted_value-scalar l v s =
      rw
        (
          iso-scalar (some l.armed_at),
          s,
          iso-scalar l.feed_start_not_after,
          iso-scalar l.finished_at,
          iso-scalar (some l.recovery_not_before),
          state_text-scalar l.state,
          v,
        )
        refl

  iso-distinct : (o : Option Instant) → is_distinct (iso x o) ≡ true
  unfolding iso is_distinct
  iso-distinct none = refl
  iso-distinct (some t) = refl

  sorted_value-distinct : (l : DeploymentLease) → is_distinct (sorted_value l) ≡ true
  unfolding is_distinct names str_leq iso
  sorted_value-distinct l =
      rw (iso-distinct l.feed_start_not_after, iso-distinct l.finished_at) refl

  module _ (e : Encoding) where
    written :
        (l : DeploymentLease) (b : e.Bytes)
        → write_lease x e l ≡ ok b
        → (l.version ≡ lease_version) × (e.dumps_ascii (sorted_value l) ≡ b)
    unfolding write_lease
    written l b h =
        let p = raise_if_ok (not (same l.version lease_version)) unsupported_lease _ b h in
        let q : e.dumps_ascii (sorted_value l) ≡ b = rw (← ordered-lease_value l) (ok_inj p.1) in
        (same→eq l.version lease_version (true_of_not (same l.version lease_version) p.0), q)

    -- A lease whose times agree with its state and with each other, and whose run id is neither
    -- blank nor has surrogates, is read back from the bytes that `write_lease` stores for it, for
    -- any run or for its own: the same lease with its times cut to the millisecond.
    pub write_lease-read :
        (l : DeploymentLease) (expected : Option Str) (b : e.Bytes)
        → is_named x l.deployment_run_id ≡ true
        → is_scalar l.deployment_run_id ≡ true
        → is_expected x expected l.deployment_run_id ≡ true
        → has_times l ≡ true
        → is_consistent l ≡ true
        → write_lease x e l ≡ ok b
        → read_lease x e (some b) expected ≡ ok (floored l)
    unfolding read_lease
    write_lease-read l expected b n s i t c h =
        let w = written l b h in
        let law : e.loads (e.dumps_ascii (sorted_value l)) ≡ some (sorted_value l) =
          e.loads-dumps_ascii (sorted_value l) (sorted_value-distinct l)
            (sorted_value-scalar l w.0 s) in
        let loads : e.loads b ≡ some (sorted_value l) = rw (← w.1) law in
        rw (read_lease, loads) (parse_sorted l expected w.0 n i t c)
