-- ===== src/Feed/Publish/Run.antt =====
-- src/follow_the_money/feed/publish.py, lines 250 to 366: `publish_bundle`. Other processes may
-- replace the manifest while the artifacts are installed; they do not touch the other files.
use follow_the_money.Base.{
  Bool, true, false, Option, none, some, [], not, ◌==◌, if◌then◌else◌, Result, ok, err, ◌>>=◌, ◌>>◌,
  raise_if,
}
use follow_the_money.Base.Order.{Str, str_order, same}
use follow_the_money.Base.Time.{Instant, aware}
use follow_the_money.Feed.Plan.{Datetime, unzoned, zoned}
use follow_the_money.Feed.Publish.{
  Bundle, present, Root, PublishError, no_root, cutoff_mismatch, run_id_mismatch, not_publishable,
  invalid_candidate, ownership_mismatch, deadline_exceeded, system_failure, Action, replace, retain,
  idempotent, PublishResult, World, candidate_action, owns, Installed, install_all, cleanup_created,
  cleanup_artifacts, deleted, cleanup_fails,
}

abbrev pub no_result : PublishResult
no_result = record {
  retained = false;
  idempotent = false;
  manifest_replaced = false;
  commit_durability_unknown = false;
  cleanup_failed = false;
  superseded_paths = [];
}

is_cutoff : Option Instant → Instant → Bool
is_cutoff none t = false
is_cutoff (some u) t = u == t

-- The tests before anything is read from the root.
unfoldable pub check_candidate : World → Bundle → Datetime → Str → Result PublishError (Unit {0})
unfolding is_cutoff
check_candidate w candidate (unzoned _) run_id =
    if w.root_exists then err cutoff_mismatch else err no_root
check_candidate w candidate (zoned cutoff) run_id = do
  raise_if (not w.root_exists) no_root
  raise_if (not (is_cutoff (aware candidate.cutoff) cutoff)) cutoff_mismatch
  raise_if (not (same candidate.run_id run_id)) run_id_mismatch
  raise_if (not candidate.publishable) not_publishable
  raise_if (not w.candidate_valid) invalid_candidate

-- The first decision: what the candidate is to the current manifest.
unfoldable pub admit :
    World → Root → Bundle → Datetime → Str → Option Str → Bool → Result PublishError Action
unfolding check_candidate
admit w root candidate cutoff run_id expected allow_previous = do
  check_candidate w candidate cutoff run_id
  raise_if (not (owns expected root.manifest)) ownership_mismatch
  candidate_action root.manifest candidate allow_previous

unfoldable pub failure_of : Option PublishError → Result PublishError (Unit {0})
failure_of none = ok tt
failure_of (some e) = err e

-- The replacement of the manifest, if that is the action.
unfoldable pub replace_manifest : World → Action → Result PublishError Action
replace_manifest w replace = if w.replace_ok then ok replace else err system_failure
replace_manifest w a = ok a

-- The second decision, with the artifacts installed.
unfoldable pub decide_commit :
    World → Installed → Bundle → Option Str → Bool → Result PublishError Action
unfolding failure_of replace_manifest
decide_commit w installed candidate expected allow_previous = do
  failure_of installed.failed
  raise_if (not w.artifacts_synced) system_failure
  raise_if (not w.installed_valid) system_failure
  raise_if (not w.stage_ok) system_failure
  raise_if (not w.before_deadline) deadline_exceeded
  raise_if (not (owns expected w.manifest_at_commit)) ownership_mismatch
  action ← candidate_action w.manifest_at_commit candidate allow_previous
  replace_manifest w action

-- The manifest is replaced. Without a durable replacement nothing is cleaned up.
unfoldable pub activate : World → Installed → Bundle → Result PublishError PublishResult × Root
activate w installed candidate =
    let active = present candidate.manifest_sha candidate in
    if w.manifest_synced
    then (
      ok (record no_result {
        manifest_replaced = true;
        cleanup_failed = cleanup_fails w candidate.artifacts installed.files;
        superseded_paths = deleted w.unlinks candidate.artifacts installed.files;
      }),
      record {
        manifest = active;
        files = cleanup_artifacts w.unlinks candidate.artifacts installed.files;
      },
    )
    else (
      ok (record no_result { manifest_replaced = true; commit_durability_unknown = true }),
      record { manifest = active; files = installed.files },
    )

-- The created files are removed, and the manifest is as other processes left it.
unfoldable pub abandon : World → Installed → Root
abandon w installed = record {
  manifest = w.manifest_at_commit;
  files = cleanup_created w.unlinks installed.created installed.files;
}

unfoldable pub commit :
    World
    → Installed
    → Bundle
    → Result PublishError Action
    → Result PublishError PublishResult × Root
unfolding activate abandon
commit w installed candidate (err e) = (err e, abandon w installed)
commit w installed candidate (ok retain) =
    (ok (record no_result { retained = true }), abandon w installed)
commit w installed candidate (ok idempotent) =
    (ok (record no_result { idempotent = true }), abandon w installed)
commit w installed candidate (ok replace) = activate w installed candidate

unfoldable pub after_admission :
    World
    → Root
    → Bundle
    → Option Str
    → Bool
    → Result PublishError Action
    → Result PublishError PublishResult × Root
unfolding commit decide_commit
after_admission w root candidate expected allow_previous (err e) = (err e, root)
after_admission w root candidate expected allow_previous (ok retain) =
    (ok (record no_result { retained = true }), root)
after_admission w root candidate expected allow_previous (ok idempotent) =
    (ok (record no_result { idempotent = true }), root)
after_admission w root candidate expected allow_previous (ok replace) =
    let installed = install_all w.installs root.files [] candidate.artifacts in
    commit w installed candidate (decide_commit w installed candidate expected allow_previous)

-- The arguments after the root are `bundle`, `cutoff`, `run_id`, `existing_manifest_sha256` and
-- `allow_previous_current`; the root that it leaves stands beside the result.
unfoldable pub publish_bundle :
    World
    → Root
    → Bundle
    → Datetime
    → Str
    → Option Str
    → Bool
    → Result PublishError PublishResult × Root
unfolding admit after_admission
publish_bundle w root candidate cutoff run_id expected allow_previous =
    after_admission w root candidate expected allow_previous
      (admit w root candidate cutoff run_id expected allow_previous)
