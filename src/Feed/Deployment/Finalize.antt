-- ===== src/Feed/Deployment/Finalize.antt =====
-- src/follow_the_money/feed/deployment.py, lines 601 to 726: the end of a hosted run.
use follow_the_money.Base.{
  ℕ, ◌-◌, Bool, true, false, Option, none, some, List, [], ◌∷◌, ◌++◌, not, any, is_empty, take,
  length, ◌&&◌, ◌||◌, ltb, leb, ◌==◌, if◌then◌else◌, Result, ok, err, ◌>>=◌, ◌>>◌, raise_if,
}
use follow_the_money.Base.Order.{Str, str_order, same, codes}
use follow_the_money.Base.Table.{member}
use follow_the_money.Base.Time.{Instant}
use follow_the_money.Canonical.{
  Json, str, arr, obj, Elements, last, element, Members, get_member, Encoding,
}
use follow_the_money.Providers.Rate.State.{Host}
use follow_the_money.Feed.Plan.{Datetime}
use follow_the_money.Feed.Checkpoint.{Texts, PreviousSuccess, read_checkpoint, drop, is_hex}
use follow_the_money.Feed.Lease.{
  success, failure, is_in_progress, DeploymentLease, IsoTexts, lease_version, read_lease,
}
use follow_the_money.Feed.Deployment.Layout.{
  DeploymentError, bad_status, bad_manifest_path, bad_feed, bad_superseded, only_in_progress,
  clock_precedes, status_checkpoint_mismatch, Runtime, from_lease, from_checkpoint, file,
  durable_paths,
}
use follow_the_money.Feed.Deployment.Prepare.{read_clock, store_lease}

-- The status of a run, as far as its tests go: the run id, the cutoff, and the object itself.
pub record SuccessStatus : Type 0 where
  pub run_id : Str
  pub evidence_cutoff_at : Str
  pub raw : Members

-- The product root: the Feed that `validate_bundle` returns, if it accepts the bundle, with the
-- names of its artifacts, the length of the manifest, and the files that are there.
pub record Product : Type 0 where
  pub feed : Option (Str × (Str × List Str))
  pub manifest_size : Option ℕ
  pub is_there : Str → Bool

abbrev is_success : Str → Bool
is_success s = same s (codes "healthy") || same s (codes "degraded")

abbrev healthy : Option Json → Bool
healthy (some (str s)) = is_success s
healthy _ = false

abbrev text_of : Option Json → Result DeploymentError Str
text_of (some (str s)) = ok s
text_of _ = err bad_status

-- `_read_success_status` on what the file holds, `none` where it is not JSON.
unfoldable pub read_success_status : Option Json → Result DeploymentError SuccessStatus
unfolding get_member
read_success_status (some (obj raw)) = do
  raise_if (not (healthy (get_member (codes "status") raw))) bad_status
  run_id ← text_of (get_member (codes "run_id") raw)
  raise_if (is_empty run_id) bad_status
  cutoff ← text_of (get_member (codes "evidence_cutoff_at") raw)
  ok (record { run_id = run_id; evidence_cutoff_at = cutoff; raw = raw })
read_success_status _ = err bad_status

-- `[a-z_]+-[0-9a-f]{32}\.json` after `feed-`.
unfoldable pub is_artifact_name : Str → Bool
is_artifact_name s =
    let cut = length s - 38 in
    let domain = drop 5 (take cut s) in
    let tail = drop cut s in
    leb 44 (length s)
    && (same (take 5 s) (codes "feed-")
        && (not (any (λ c. not (c == 95 || (leb 97 c && leb c 122))) domain)
            && (same (take 1 tail) (codes "-")
                && (not (any (λ c. not (is_hex c)) (take 32 (drop 1 tail)))
                    && same (drop 33 tail) (codes ".json")))))

unfoldable pub texts_of : Elements → Result DeploymentError (List Str)
texts_of last = ok []
texts_of (element (str s) es) = texts_of es >>= λ ss. ok (s ∷ ss)
texts_of (element _ es) = err bad_superseded

unfoldable pub superseded_texts : Option Json → Result DeploymentError (List Str)
unfolding texts_of
superseded_texts none = ok []
superseded_texts (some (arr es)) = texts_of es
superseded_texts (some _) = err bad_superseded

abbrev manifest_filename : Str
manifest_filename = codes "feed-manifest.json"

abbrev is_manifest : Option Json → Bool
is_manifest (some (str s)) = same s manifest_filename
is_manifest _ = false

abbrev is_present : Option ℕ → Bool
is_present none = false
is_present (some size) = not (size == 0)

abbrev is_some : {A : Type 0} → Option A → Bool
is_some none = false
is_some (some _) = true

-- The tests on the Feed of the product root and on the superseded names.
unfoldable pub check_product :
    Product → SuccessStatus → Str × (Str × List Str) → Result DeploymentError (List Str)
unfolding superseded_texts is_artifact_name get_member
check_product p s feed = do
  raise_if (not (same feed.0 s.run_id) || not (same feed.1.0 s.evidence_cutoff_at)) bad_feed
  raise_if (any (λ name. not (p.is_there name)) feed.1.1) bad_feed
  superseded ← superseded_texts (get_member (codes "superseded_relative_paths") s.raw)
  raise_if
      (any (λ name. not (is_artifact_name name) || (member name feed.1.1 || p.is_there name))
        superseded)
      bad_superseded
  ok (manifest_filename ∷ (feed.1.1 ++ superseded))

-- `_feed_paths`
unfoldable pub feed_paths : Product → SuccessStatus → Result DeploymentError (List Str)
unfolding get_member check_product
feed_paths p s = do
  raise_if (is_some (get_member (codes "dated_relative_path") s.raw)) bad_status
  raise_if (not (is_manifest (get_member (codes "manifest_relative_path") s.raw))) bad_manifest_path
  raise_if (not (is_present p.manifest_size)) bad_manifest_path
  elim p.feed [ none ↦ err bad_feed | some feed ↦ check_product p s feed ]

abbrev is_checkpoint_of : SuccessStatus → Option PreviousSuccess → Bool
is_checkpoint_of s none = false
is_checkpoint_of s (some p) =
    same p.run_id s.run_id && same p.evidence_cutoff_at s.evidence_cutoff_at

-- The status and the paths of a run that succeeded.
unfoldable pub success_status :
    Bool → Option Json → Product → Result DeploymentError (Option SuccessStatus × List Str)
unfolding read_success_status feed_paths
success_status false status p = ok (none, [])
success_status true status p = do
  s ← read_success_status status
  paths ← feed_paths p s
  ok (some s, paths)

unfoldable pub terminal_lease : DeploymentLease → Bool → Instant → DeploymentLease
terminal_lease l succeeded finished_at = record l {
  version = lease_version;
  state = if succeeded then success else failure;
  finished_at = some finished_at;
}

module _ (h : Host) (x : IsoTexts) (t : Texts) (e : Encoding) where
  unfoldable pub check_checkpoint :
      Option SuccessStatus → Option e.Bytes → Result DeploymentError (Unit {0})
  check_checkpoint none checkpoint = ok tt
  check_checkpoint (some s) checkpoint = do
    c ← from_checkpoint (read_checkpoint t e (file h x t e checkpoint))
    raise_if (not (is_checkpoint_of s c.previous_success)) status_checkpoint_mismatch

  -- The paths of a finished run, and the terminal lease.
  unfoldable pub finish :
      Str
      → Bool
      → Option Json
      → Product
      → Datetime
      → Runtime h x t e
      → Result DeploymentError (DeploymentLease × List Str)
  unfolding success_status check_checkpoint terminal_lease read_clock
  finish id succeeded status p now w = do
    lease ← from_lease (read_lease x e w.lease (some id))
    raise_if (not (is_in_progress lease.state)) only_in_progress
    found ← success_status succeeded status p
    finished_at ← read_clock now
    raise_if (ltb finished_at lease.armed_at) clock_precedes
    durable ← durable_paths h x t e w
    check_checkpoint found.0 w.checkpoint
    ok (
      terminal_lease lease succeeded finished_at,
      durable ++ (if succeeded then codes "feed-checkpoint.json" ∷ found.1 else []),
    )

  abbrev pub Outcome : Type 0
  Outcome = Result DeploymentError (List Str) × Runtime h x t e

  -- The end of the call after the lease is stored.
  unfoldable pub finalized :
      List Str → Runtime h x t e → Result DeploymentError (Runtime h x t e) → Outcome
  finalized paths w (err r) = (err r, w)
  finalized paths w (ok v) = (ok paths, v)

  unfoldable pub finalize_lease :
      Bool → Runtime h x t e → Result DeploymentError (DeploymentLease × List Str) → Outcome
  unfolding finalized
  finalize_lease stores w (err r) = (err r, w)
  finalize_lease stores w (ok (lease, paths)) =
      finalized paths w (store_lease h x t e stores lease w)

  -- `finalize_deployment`; `stores` tells whether the lease is stored.
  unfoldable pub finalize_deployment :
      Bool → Str → Bool → Option Json → Product → Datetime → Runtime h x t e → Outcome
  unfolding finish finalize_lease
  finalize_deployment stores id succeeded status p now w =
      finalize_lease stores w (finish id succeeded status p now w)
