-- ===== src/Feed/Publish.antt =====
-- src/follow_the_money/feed/publish.py: the installation of the artifacts of one Feed, and the
-- activation of its manifest.
pub mod Run
pub mod Installation
pub mod Activation
pub mod Ownership
mod Tests
use follow_the_money.Base.{
  ℕ, Bool, true, false, Option, none, some, List, [], ◌∷◌, ◌++◌, ◌&&◌, ◌||◌, not, map, ltb,
  if◌then◌else◌, Result, ok, err, ◌>>=◌, ◌>>◌, raise_if, any, select, is_empty,
}
use follow_the_money.Base.Order.{Str, str_order, str_leq, same}
use follow_the_money.Base.Table.{Table, lookup, insert, contains, member}
use follow_the_money.Base.Time.{Instant, Timestamp, aware}

-- A `FeedBundle`: the path and the bytes of each artifact, which are those of its inventory, and
-- the text of its schemas.
pub record Bundle : Type 0 where
  pub run_id : Str
  pub content_digest : Str
  pub cutoff : Timestamp
  pub cutoff_text : Str
  pub manifest_sha : Str
  pub previous_major : Bool
  pub publishable : Bool
  pub artifacts : Table Str Str
  pub schemas : Str

-- The file `feed-manifest.json` with the digest of its bytes: one that is refused, or a bundle.
pub data ManifestFile : Type 0 where
  absent : ManifestFile
  invalid : Str → ManifestFile
  present : Str → Bundle → ManifestFile

-- The product root: the manifest, and the files whose name is that of an artifact.
pub record Root : Type 0 where
  pub manifest : ManifestFile
  pub files : Table Str Str

pub data PublishError : Type 0 where
  no_root cutoff_mismatch run_id_mismatch not_publishable invalid_candidate : PublishError
  invalid_current invalid_cutoff migration_required equal_ownership ownership_mismatch :
      PublishError
  different_bytes install_failed deadline_exceeded system_failure : PublishError

pub data Action : Type 0 where
  replace retain idempotent : Action

pub record PublishResult : Type 0 where
  pub retained : Bool
  pub idempotent : Bool
  pub manifest_replaced : Bool
  pub commit_durability_unknown : Bool
  pub cleanup_failed : Bool
  pub superseded_paths : List Str

-- How the installation of one file fails: before its name is linked, or after.
pub data Fault : Type 0 where
  no_fault before_link after_link : Fault

-- What the system and other processes do during one publication.
pub record World : Type 0 where
  pub root_exists : Bool
  pub candidate_valid : Bool
  pub installs : Str → Fault
  pub artifacts_synced : Bool
  pub installed_valid : Bool
  pub stage_ok : Bool
  pub before_deadline : Bool
  pub manifest_at_commit : ManifestFile
  pub replace_ok : Bool
  pub manifest_synced : Bool
  pub unlinks : Str → Bool
  pub cleanup_synced : Bool

-- `_bundle_key`
unfoldable pub bundle_key : Bundle → Result PublishError (Instant × Str)
bundle_key b = elim (aware b.cutoff) [
  | none ↦ err invalid_cutoff
  | some t ↦ ok (t, b.content_digest)
]

-- `>` on the keys
unfoldable pub later_key : Instant × Str → Instant × Str → Bool
later_key (t, d) (u, e) = ltb u t || (not (ltb t u) && not (str_leq d e))

unfoldable pub same_entries : Table Str Str → Table Str Str → Bool
same_entries [] [] = true
same_entries ((p, x) ∷ xs) ((q, y) ∷ ys) = same p q && same x y && same_entries xs ys
same_entries _ _ = false

-- Equality of the `_manifest_signature`s.
unfoldable pub same_signature : Bundle → Bundle → Bool
unfolding same_entries
same_signature a b =
    same a.run_id b.run_id
    && same a.content_digest b.content_digest
    && same a.cutoff_text b.cutoff_text
    && same_entries a.artifacts b.artifacts
    && same a.schemas b.schemas

-- `_candidate_action` with a current bundle of this version.
unfoldable pub compare : Bundle → Bundle → Result PublishError Action
unfolding bundle_key later_key same_signature
compare current candidate = bundle_key current >>= λ c. bundle_key candidate >>= λ k.
    if later_key c k
    then ok retain
    else if later_key k c
    then ok replace
    else if same_signature current candidate
    then ok idempotent
    else err equal_ownership

-- `_candidate_action`
unfoldable pub candidate_action : ManifestFile → Bundle → Bool → Result PublishError Action
unfolding compare bundle_key
candidate_action absent candidate allow_previous = bundle_key candidate >>= λ _. ok replace
candidate_action (invalid _) candidate allow_previous = err invalid_current
candidate_action (present _ current) candidate allow_previous = bundle_key current >>= λ _.
    bundle_key candidate >>= λ _.
    if current.previous_major
    then (if allow_previous then ok replace else err migration_required)
    else compare current candidate

-- `assert_manifest_ownership`
unfoldable pub owns : Option Str → ManifestFile → Bool
owns none m = true
owns (some sha) absent = false
owns (some sha) (invalid actual) = same actual sha
owns (some sha) (present actual _) = same actual sha

-- The files, the paths that were created, and the error if there is one.
pub record Installed : Type 0 where
  pub files : Table Str Str
  pub created : List Str
  pub failed : Option PublishError

-- The loop that installs the artifacts: an existing file is never written.
unfoldable pub install_all : (Str → Fault) → Table Str Str → List Str → Table Str Str → Installed
install_all installs files created [] = record { files = files; created = created; failed = none }
install_all installs files created ((path, content) ∷ es) =
    let skipped = install_all installs files created es in
    let added = install_all installs (insert path content files) (created ++ path ∷ []) es in
    elim (lookup path files) [
      | some bytes ↦
          if same bytes content
          then skipped
          else record { files = files; created = created; failed = some different_bytes }
      | none ↦ elim (installs path) [
        | no_fault ↦ added
        | before_link ↦ record { files = files; created = created; failed = some install_failed }
        | after_link ↦ record {
          files = insert path content files;
          created = created;
          failed = some install_failed;
        }
      ]
    ]

-- `_cleanup_created`; a file that cannot be unlinked stays.
unfoldable pub cleanup_created : (Str → Bool) → List Str → Table Str Str → Table Str Str
cleanup_created unlinks created files = select (λ e. not (member e.0 created && unlinks e.0)) files

-- `_cleanup_artifacts`: the files that stay.
unfoldable pub cleanup_artifacts : (Str → Bool) → Table Str Str → Table Str Str → Table Str Str
cleanup_artifacts unlinks active files =
    select (λ e. contains e.0 active || not (unlinks e.0)) files

-- The paths that `_cleanup_artifacts` deletes.
unfoldable pub deleted : (Str → Bool) → Table Str Str → Table Str Str → List Str
deleted unlinks active files =
    map (λ e. e.0) (select (λ e. not (contains e.0 active) && unlinks e.0) files)

unfoldable pub cleanup_fails : World → Table Str Str → Table Str Str → Bool
cleanup_fails w active files =
    any (λ e. not (contains e.0 active) && not (w.unlinks e.0)) files || not w.cleanup_synced
