-- ===== src/Feed/Checkpoint/Laws.antt =====
-- A checkpoint that is written is read back, and what is read can be written again.
use follow_the_money.Base.{
  Bool, true, if◌then◌else◌, Option, none, some, ◌≡◌, refl, inl, inr, ok, err, ◌>>=◌, arith,
  Bool-cases, Option-cases, Result-cases, ◌&&◌, not, raise_if_ok, bind_ok, ok_inj,
}
use follow_the_money.Base.Order.{Str, str_order, str_leq, codes}
use follow_the_money.Canonical.{
  Json, null, bool, num, other_num, str, arr, obj, get_member, names, ordered, are_scalar,
  is_scalar, insert_member, same_set, is_distinct, Encoding, canonical_bytes, load_canonical_json,
}
use follow_the_money.Feed.Checkpoint.{
  Texts, not_written, bad_fields, unsupported_version, is_version, checkpoint_fields,
  FeedCheckpoint, PreviousSuccess, parse_cutoff, check_run_id, payload, validate_previous_success,
  previous_payload, with_version, read_payload, read_previous, is_utc, write_checkpoint,
  read_checkpoint,
}

module _ (t : Texts) where
  payload_lem :
      (p : PreviousSuccess)
      → validate_previous_success t (previous_payload t p) ≡ (
          parse_cutoff t (some (str p.evidence_cutoff_at)) >>= λ c.
          check_run_id t c (some (str p.run_id)))
  unfolding validate_previous_success names get_member str_leq
  payload_lem p = refl

  parse_utc_lem : (v : Option Json) (c : Str) → parse_cutoff t v ≡ ok c → v ≡ some (str c)
  unfolding parse_cutoff is_utc
  parse_utc_lem none c h = cc
  parse_utc_lem (some null) c h = cc
  parse_utc_lem (some (bool _)) c h = cc
  parse_utc_lem (some (num _)) c h = cc
  parse_utc_lem (some (other_num _)) c h = cc
  parse_utc_lem (some (arr _)) c h = cc
  parse_utc_lem (some (obj _)) c h = cc
  parse_utc_lem (some (str s)) c h = ground arith

  check_run_id_lem :
      (c : Str) (v : Option Json) (p : PreviousSuccess)
      → check_run_id t c v ≡ ok p
      → (v ≡ some (str p.run_id)) × (p.evidence_cutoff_at ≡ c)
  unfolding check_run_id
  check_run_id_lem c none p h = cc
  check_run_id_lem c (some null) p h = cc
  check_run_id_lem c (some (bool _)) p h = cc
  check_run_id_lem c (some (num _)) p h = cc
  check_run_id_lem c (some (other_num _)) p h = cc
  check_run_id_lem c (some (arr _)) p h = cc
  check_run_id_lem c (some (obj _)) p h = cc
  check_run_id_lem c (some (str s)) p h = ground arith

  members_fixed :
      (v w : Option Json) (p : PreviousSuccess)
      → (parse_cutoff t v >>= λ c. check_run_id t c w) ≡ ok p
      → (parse_cutoff t (some (str p.evidence_cutoff_at)) >>= λ c.
          check_run_id t c (some (str p.run_id)))
        ≡ ok p
  members_fixed v w p h = elim (Result-cases (parse_cutoff t v)) [
    | inl (c, g) ↦ ground (arith, parse_utc_lem v c g, check_run_id_lem c w p)
    | inr (e, g) ↦ ground arith
  ]

  -- What the tests accept, they accept again.
  pub validate_fixed :
      (v : Json) (p : PreviousSuccess)
      → validate_previous_success t v ≡ ok p
      → validate_previous_success t (previous_payload t p) ≡ ok p
  unfolding validate_previous_success
  validate_fixed null p h = cc
  validate_fixed (bool _) p h = cc
  validate_fixed (num _) p h = cc
  validate_fixed (other_num _) p h = cc
  validate_fixed (str _) p h = cc
  validate_fixed (arr _) p h = cc
  validate_fixed (obj raw) p h = rw (payload_lem p) (
      members_fixed (get_member (codes "evidence_cutoff_at") raw) (get_member (codes "run_id") raw)
        p (raise_if_ok _ _ _ p h).1)

  check_same :
      (c r : Str) (q : PreviousSuccess)
      → (parse_cutoff t (some (str c)) >>= λ d. check_run_id t d (some (str r))) ≡ ok q
      → q ≡ record { evidence_cutoff_at = c; run_id = r }
  unfolding check_run_id
  check_same c r q h = elim (Result-cases (parse_cutoff t (some (str c)))) [
    | inl (d, g) ↦ ground (arith, parse_utc_lem (some (str c)) d g)
    | inr (e, g) ↦ ground arith
  ]

  -- The tests give back what they are given.
  validate_same :
      (p q : PreviousSuccess) → validate_previous_success t (previous_payload t p) ≡ ok q → q ≡ p
  validate_same p q h = check_same p.evidence_cutoff_at p.run_id q (rw (← payload_lem p) h)

  -- The value that is written.
  abbrev value : Option PreviousSuccess → Json
  value none = with_version t null
  value (some p) = with_version t (previous_payload t p)

  value-is_distinct : (o : Option PreviousSuccess) → is_distinct (ordered (value o)) ≡ true
  unfolding ordered insert_member is_distinct names str_leq
  value-is_distinct none = refl
  value-is_distinct (some p) = refl

  payload-value : (o : Option PreviousSuccess) (v : Json) → payload t o ≡ ok v → value o ≡ v
  unfolding payload
  payload-value none v h = ok_inj h
  payload-value (some p) v h =
      ok_inj (bind_ok (validate_previous_success t (previous_payload t p)) _ v h).1.1

  read_payload-value :
      (o : Option PreviousSuccess) (v : Json)
      → payload t o ≡ ok v
      → read_payload t (ordered (value o)) ≡ ok (record { previous_success = o })
  unfolding payload read_payload read_previous ordered insert_member names get_member str_leq
  read_payload-value none v h = refl
  read_payload-value (some p) v h =
      let q = bind_ok (validate_previous_success t (previous_payload t p)) _ v h in
      let same : q.0 ≡ p = validate_same p q.0 q.1.0 in
      let passed : validate_previous_success t (previous_payload t p) ≡ ok p = cc in rw passed refl

  -- The texts of the checkpoint hold no surrogates.
  abbrev pub has_scalars : Option PreviousSuccess → Bool
  has_scalars none = true
  has_scalars (some p) = is_scalar p.evidence_cutoff_at && is_scalar p.run_id

  value-scalar : (o : Option PreviousSuccess) → has_scalars o ≡ true → are_scalar (value o) ≡ true
  unfolding are_scalar is_scalar
  value-scalar none h = refl
  value-scalar (some p) h = ground arith

  ordered-scalar :
      (o : Option PreviousSuccess)
      → are_scalar (value o) ≡ true
      → are_scalar (ordered (value o)) ≡ true
  unfolding are_scalar is_scalar ordered insert_member str_leq
  ordered-scalar none h = refl
  ordered-scalar (some p) h = ground arith

  module _ (e : Encoding) where
    stored :
        (stores : Bool) (v : Json) (b : e.Bytes)
        → elim (canonical_bytes e v) [
          | ok bytes ↦ if stores then ok bytes else err not_written
          | err _ ↦ err not_written
        ]
          ≡ ok b
        → (are_scalar v ≡ true) × (e.dumps (ordered v) ≡ b)
    unfolding canonical_bytes
    stored stores v b h = elim (Bool-cases (are_scalar v)) [
      | inl p ↦ ground arith
      | inr p ↦ ground arith
    ]

    reads_back :
        (c : FeedCheckpoint) (v : Json) (b : e.Bytes)
        → payload t c.previous_success ≡ ok v
        → (are_scalar v ≡ true) × (e.dumps (ordered v) ≡ b)
        → read_checkpoint t e (some (some b)) ≡ ok c
    unfolding read_checkpoint load_canonical_json
    reads_back c v b h g =
        let same : value c.previous_success ≡ v = payload-value c.previous_success v h in
        let scalar : are_scalar (value c.previous_success) ≡ true = rw same g.0 in
        let loads : e.loads (e.dumps (ordered (value c.previous_success)))
            ≡ some (ordered (value c.previous_success)) =
          e.loads-dumps (ordered (value c.previous_success)) (value-is_distinct c.previous_success)
            (ordered-scalar c.previous_success scalar) in
        let bytes : e.dumps (ordered (value c.previous_success)) ≡ b = rw same g.1 in
        let reads : e.loads b ≡ some (ordered (value c.previous_success)) = rw (← bytes) loads in
        let out = read_payload-value c.previous_success v h in ground arith

    -- What `write_checkpoint` puts in the place of the file, `read_checkpoint` reads as the
    -- checkpoint that was given.
    pub write_checkpoint-read :
        (stores : Bool) (c : FeedCheckpoint) (b : e.Bytes)
        → write_checkpoint t e stores c ≡ ok b
        → read_checkpoint t e (some (some b)) ≡ ok c
    unfolding write_checkpoint
    write_checkpoint-read stores c b h =
        let v = bind_ok (payload t c.previous_success) _ b h in
        let same : value c.previous_success ≡ v.0 = payload-value c.previous_success v.0 v.1.0 in
        reads_back c v.0 b v.1.0 (stored stores v.0 b v.1.1)

    validated :
        (v : Json) (p : PreviousSuccess)
        → validate_previous_success t v ≡ ok p
        → payload t (some p) ≡ ok (value (some p))
    unfolding payload
    validated v p h = rw (validate_fixed v p h) refl

    read_previous_lem :
        (v : Option Json) (c : FeedCheckpoint)
        → read_previous t v ≡ ok c
        → payload t c.previous_success ≡ ok (value c.previous_success)
    unfolding read_previous payload
    read_previous_lem none c h = cc
    read_previous_lem (some null) c h = rw (← ok_inj h) refl
    read_previous_lem (some (bool b)) c h = ground (arith, validated (bool b))
    read_previous_lem (some (num n)) c h = ground (arith, validated (num n))
    read_previous_lem (some (other_num s)) c h = ground (arith, validated (other_num s))
    read_previous_lem (some (str s)) c h = ground (arith, validated (str s))
    read_previous_lem (some (arr es)) c h = ground (arith, validated (arr es))
    read_previous_lem (some (obj raw)) c h =
        let p = bind_ok (validate_previous_success t (obj raw)) _ c h in
        let same = ok_inj p.1.1 in rw (← same) (validated (obj raw) p.0 p.1.0)

    read_payload_lem :
        (v : Json) (c : FeedCheckpoint)
        → read_payload t v ≡ ok c
        → payload t c.previous_success ≡ ok (value c.previous_success)
    unfolding read_payload
    read_payload_lem null c h = cc
    read_payload_lem (bool _) c h = cc
    read_payload_lem (num _) c h = cc
    read_payload_lem (other_num _) c h = cc
    read_payload_lem (str _) c h = cc
    read_payload_lem (arr _) c h = cc
    read_payload_lem (obj raw) c h =
        read_previous_lem (get_member (codes "previous_success") raw) c
          (raise_if_ok (not (is_version t (get_member (codes "version") raw))) unsupported_version _
            c (raise_if_ok (not (same_set (names raw) (checkpoint_fields t))) bad_fields _ c h).1).1

    loaded_lem :
        (file : Option (Option e.Bytes)) (c : FeedCheckpoint)
        → read_checkpoint t e file ≡ ok c
        → payload t c.previous_success ≡ ok (value c.previous_success)
    unfolding read_checkpoint load_canonical_json
    loaded_lem none c h = cc
    loaded_lem (some none) c h = cc
    loaded_lem (some (some b)) c h = elim (Option-cases (e.loads b)) [
      | inl p ↦ ground arith
      | inr (v, p) ↦ ground (arith, read_payload_lem v c)
    ]

    written_lem :
        (c : FeedCheckpoint)
        → payload t c.previous_success ≡ ok (value c.previous_success)
        → has_scalars c.previous_success ≡ true
        → write_checkpoint t e true c ≡ ok (e.dumps (ordered (value c.previous_success)))
    unfolding write_checkpoint canonical_bytes
    written_lem c h s = let sc = value-scalar c.previous_success s in ground arith

    -- A checkpoint that `read_checkpoint` accepts, from whatever bytes, and whose texts hold no
    -- surrogates, `write_checkpoint` accepts too, and the new file reads as the same checkpoint.
    pub read_checkpoint-write :
        (file : Option (Option e.Bytes)) (c : FeedCheckpoint)
        → read_checkpoint t e file ≡ ok c
        → has_scalars c.previous_success ≡ true
        → (b : e.Bytes) × ((write_checkpoint t e true c ≡ ok b)
            × (read_checkpoint t e (some (some b)) ≡ ok c))
    read_checkpoint-write file c h s =
        let w = written_lem c (loaded_lem file c h) s in
        (
          e.dumps (ordered (value c.previous_success)),
          (w, write_checkpoint-read true c (e.dumps (ordered (value c.previous_success))) w),
        )
