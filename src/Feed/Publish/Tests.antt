-- ===== src/Feed/Publish/Tests.antt =====
-- The first publication of a bundle of one artifact, and one over an earlier manifest.
use mathlib.Core.Path.{refl}
use follow_the_money.Base.{some, true, false, [], ◌∷◌}
use follow_the_money.Base.Order.{str_leq}
use follow_the_money.Base.Time.{utc, aware}
use follow_the_money.Base.Table.{lookup}
use follow_the_money.Feed.Plan.{zoned}
use follow_the_money.Feed.Publish.{
  ManifestFile, present, compare, Bundle, absent, Root, no_fault, World, candidate_action, owns,
  install_all,
}
use follow_the_money.Feed.Publish.Run.{publish_bundle}
use follow_the_money.Feed.Publish.Ownership.{IsAdmitted, publish_bundle-IsAdmitted}
use follow_the_money.Feed.Publish.Activation.{Replaced}

abbrev world : World
world = record {
  root_exists = true;
  candidate_valid = true;
  installs = λ path. no_fault;
  artifacts_synced = true;
  installed_valid = true;
  stage_ok = true;
  before_deadline = true;
  manifest_at_commit = absent;
  replace_ok = true;
  manifest_synced = true;
  unlinks = λ path. true;
  cleanup_synced = true;
}

abbrev root : Root
root = record { manifest = absent; files = (111 ∷ [], 49 ∷ []) ∷ [] }

abbrev candidate : Bundle
candidate = record {
  run_id = 114 ∷ [];
  content_digest = 100 ∷ [];
  cutoff = utc 5;
  cutoff_text = 53 ∷ [];
  manifest_sha = 109 ∷ [];
  previous_major = false;
  publishable = true;
  artifacts = (110 ∷ [], 50 ∷ []) ∷ [];
  schemas = [];
}

-- An earlier manifest, whose digest is expected.
abbrev earlier : Bundle
earlier = record candidate {
  run_id = 101 ∷ [];
  cutoff = utc 3;
  cutoff_text = 51 ∷ [];
  artifacts = [];
}

abbrev owned : ManifestFile
owned = present (104 ∷ []) earlier

abbrev owned_world : World
owned_world = record world { manifest_at_commit = owned }

abbrev owned_root : Root
owned_root = record root { manifest = owned }

replaces :
    Replaced
      (publish_bundle owned_world owned_root candidate
        (zoned 5)
        (114 ∷ [])
        (some (104 ∷ []))
        false).0
unfolding publish_bundle str_leq candidate_action compare aware owns install_all lookup
replaces = refl

publish_bundle-IsAdmitted_example : IsAdmitted owned_world candidate (some (104 ∷ [])) false
publish_bundle-IsAdmitted_example =
    publish_bundle-IsAdmitted owned_world owned_root candidate (zoned 5) (114 ∷ [])
      (some (104 ∷ [])) false replaces
