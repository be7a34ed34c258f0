-- ===== src/Feed/Publish/Ownership.antt =====
-- Which manifests a publication replaces.
use mathlib.Core.Path.{◌≡◌, refl}
use follow_the_money.Base.{
  ◌<◌, none, some, Option-cases, ltb, ◌⊎◌, inl, inr, Bool, true, false, Option, [], arith,
  Bool-cases, Result-cases, Result, ok, err,
}
use follow_the_money.Base.Order.{Str, str_order, str_leq, same→eq}
use follow_the_money.Base.Time.{Instant, aware}
use follow_the_money.Feed.Plan.{Datetime}
use follow_the_money.Feed.Publish.{
  Bundle, ManifestFile, absent, invalid, present, Root, PublishError, Action, World, Installed,
  install_all, replace, retain, idempotent, bundle_key, later_key, same_signature, compare,
  candidate_action, owns,
}
use follow_the_money.Feed.Publish.Run.{
  decide_commit, failure_of, replace_manifest, commit, after_admission, publish_bundle, admit,
}
use follow_the_money.Feed.Publish.Activation.{Replaced}

-- The candidate's cutoff is later, or it is the same and its digest is the greater text.
pub record IsSuccessor (current candidate : Bundle) : Type 0 where
  pub old_cutoff : Instant
  pub new_cutoff : Instant
  pub old : aware current.cutoff ≡ some old_cutoff
  pub new : aware candidate.cutoff ≡ some new_cutoff
  pub after :
      (old_cutoff < new_cutoff)
      ⊎ ((old_cutoff ≡ new_cutoff)
          × (str_leq candidate.content_digest current.content_digest ≡ false))

-- There is no manifest; or it is one of the previous version, whose migration is allowed; or the
-- candidate comes after it, by its cutoff and then by its digest.
abbrev pub IsOlder : ManifestFile → Bundle → Bool → Type 0
IsOlder absent candidate allow = Unit
IsOlder (invalid _) candidate allow = ⊥
IsOlder (present _ current) candidate allow =
    ((current.previous_major ≡ true) × (allow ≡ true)) ⊎ IsSuccessor current candidate

-- The manifest is the one whose digest is expected, where one is.
abbrev pub IsExpected : Option Str → ManifestFile → Type 0
IsExpected none m = Unit
IsExpected (some sha) absent = ⊥
IsExpected (some sha) (invalid actual) = actual ≡ sha
IsExpected (some sha) (present actual _) = actual ≡ sha

owns-IsExpected :
    (expected : Option Str) (m : ManifestFile) → owns expected m ≡ true → IsExpected expected m
unfolding owns
owns-IsExpected none m e = tt
owns-IsExpected (some sha) absent e = cc
owns-IsExpected (some sha) (invalid actual) e = same→eq actual sha e
owns-IsExpected (some sha) (present actual _) e = same→eq actual sha e

later_key_after :
    (k c : Instant × Str)
    → later_key k c ≡ true
    → (c.0 < k.0) ⊎ ((c.0 ≡ k.0) × (str_leq k.1 c.1 ≡ false))
unfolding later_key
later_key_after (t, d) (u, e) p = elim (Bool-cases (ltb u t)) [
  | inl l ↦ inl (ground arith)
  | inr l ↦ elim (Bool-cases (ltb t u)) [
    | inl m ↦ ground arith
    | inr m ↦ inr (ground arith, ground arith)
  ]
]

bundle_key_lem :
    (b : Bundle) (k : Instant × Str)
    → bundle_key b ≡ ok k
    → (aware b.cutoff ≡ some k.0) × (b.content_digest ≡ k.1)
unfolding bundle_key
bundle_key_lem b k e = elim (Option-cases (aware b.cutoff)) [
  | inl n ↦ ground arith
  | inr (t, s) ↦ ground arith
]

compare-replace :
    (current candidate : Bundle)
    → compare current candidate ≡ ok replace
    → IsSuccessor current candidate
unfolding compare
compare-replace current candidate e = elim (Result-cases (bundle_key current)) [
  | inr (x, bad) ↦ absurd (ground arith)
  | inl (c, f) ↦ elim (Result-cases (bundle_key candidate)) [
    | inr (x, bad) ↦ absurd (ground arith)
    | inl (k, g) ↦ elim (Bool-cases (later_key c k)) [
      | inl t ↦ absurd (ground arith)
      | inr u ↦ elim (Bool-cases (later_key k c)) [
        | inl t ↦
            let p = bundle_key_lem current c f in
            let q = bundle_key_lem candidate k g in
            record {
              old_cutoff = c.0;
              new_cutoff = k.0;
              old = p.0;
              new = q.0;
              after = rw (p.1, q.1) (later_key_after k c t);
            }
        | inr v ↦ elim (Bool-cases (same_signature current candidate)) [
          | inl s ↦ absurd (ground arith)
          | inr s ↦ absurd (ground arith)
        ]
      ]
    ]
  ]
]

candidate_action-IsOlder :
    (m : ManifestFile) (candidate : Bundle) (allow : Bool)
    → candidate_action m candidate allow ≡ ok replace
    → IsOlder m candidate allow
unfolding candidate_action
candidate_action-IsOlder absent candidate allow e = tt
candidate_action-IsOlder (invalid s) candidate allow e = ground arith
candidate_action-IsOlder (present s current) candidate allow e =
    elim (Bool-cases current.previous_major) [
      | inl t ↦ elim (Bool-cases allow) [ inl a ↦ inl (t, a) | inr n ↦ absurd (ground arith) ]
      | inr u ↦ inr (compare-replace current candidate (ground arith))
    ]

module _ (w : World) (candidate : Bundle) (expected : Option Str) (allow : Bool) where
  -- The tests that stand right before the replacement.
  abbrev pub IsAdmitted : Type 0
  IsAdmitted =
      (w.before_deadline ≡ true)
      × IsExpected expected w.manifest_at_commit
      × IsOlder w.manifest_at_commit candidate allow

  decide_commit-tests :
      (installed : Installed)
      → decide_commit w installed candidate expected allow ≡ ok replace
      → (w.before_deadline ≡ true)
        × (owns expected w.manifest_at_commit ≡ true)
        × (candidate_action w.manifest_at_commit candidate allow ≡ ok replace)
  unfolding decide_commit failure_of replace_manifest
  decide_commit-tests installed e =
      elim (Result-cases (candidate_action w.manifest_at_commit candidate allow)) [
        | inr (x, bad) ↦ absurd (ground arith)
        | inl (replace, f) ↦ (ground arith, ground arith, f)
        | inl (retain, f) ↦ absurd (ground arith)
        | inl (idempotent, f) ↦ absurd (ground arith)
      ]

  commit-replace :
      (installed : Installed) (d : Result PublishError Action)
      → Replaced (commit w installed candidate d).0
      → d ≡ ok replace
  unfolding commit
  commit-replace installed (ok replace) r = refl
  commit-replace installed (ok retain) r = ground arith
  commit-replace installed (ok idempotent) r = ground arith
  commit-replace installed (err e) r = elim r [ ]

  after_admission-IsAdmitted :
      (root : Root) (a : Result PublishError Action)
      → Replaced (after_admission w root candidate expected allow a).0
      → IsAdmitted
  unfolding after_admission
  after_admission-IsAdmitted root (err e) r = elim r [ ]
  after_admission-IsAdmitted root (ok retain) r = ground arith
  after_admission-IsAdmitted root (ok idempotent) r = ground arith
  after_admission-IsAdmitted root (ok replace) r =
      let installed = install_all w.installs root.files [] candidate.artifacts in
      let d = decide_commit w installed candidate expected allow in
      let tests = decide_commit-tests installed (commit-replace installed d r) in
      (
        tests.0,
        owns-IsExpected expected w.manifest_at_commit tests.1,
        candidate_action-IsOlder w.manifest_at_commit candidate allow tests.2,
      )

-- A publication replaces the manifest only before its deadline, only if the manifest at that moment
-- has the digest that it expects, where it expects one, and only if there is no manifest, the
-- manifest is of the previous version and may be migrated, or the candidate comes after it: its
-- cutoff is later, or the same with a greater digest.
pub publish_bundle-IsAdmitted :
    (w : World) (root : Root) (candidate : Bundle) (cutoff : Datetime) (run_id : Str)
    (expected : Option Str) (allow : Bool)
    → Replaced (publish_bundle w root candidate cutoff run_id expected allow).0
    → IsAdmitted w candidate expected allow
unfolding publish_bundle
publish_bundle-IsAdmitted w root candidate cutoff run_id expected allow r =
    after_admission-IsAdmitted w candidate expected allow root
      (admit w root candidate cutoff run_id expected allow) r
