-- ===== src/Feed/Publish/Activation.antt =====
-- What a publication leaves in the product root.
use mathlib.Core.Path.{◌≡◌}
use follow_the_money.Base.{◌⊎◌, Bool, true, Option, some, [], Result, ok, err, In}
use follow_the_money.Base.Order.{Str, str_order}
use follow_the_money.Base.Table.{Table, lookup}
use follow_the_money.Feed.Publish.{
  Bundle, present, Root, PublishError, PublishResult, World, Installed, install_all,
}

-- The candidate is active, with all its artifacts.
abbrev pub IsActive : Bundle → Root → Type 0
IsActive candidate root =
    (root.manifest ≡ present candidate.manifest_sha candidate)
    × ((path content : Str)
        → In (path, content) candidate.artifacts
        → lookup path root.files ≡ some content)

-- Every artifact that was in the root is there with the same bytes, and the manifest is the one
-- before the publication, or the one that another process has put there.
abbrev pub IsKept : World → Root → Root → Type 0
IsKept w before after =
    ((after.manifest ≡ before.manifest) ⊎ (after.manifest ≡ w.manifest_at_commit))
    × ((path content : Str)
        → lookup path before.files ≡ some content
        → lookup path after.files ≡ some content)

-- The result says that the manifest was replaced.
abbrev pub Replaced : Result PublishError PublishResult → Type 0
Replaced (ok r) = r.manifest_replaced ≡ true
Replaced (err e) = ⊥

module _ (w : World) (root : Root) (candidate : Bundle) (expected : Option Str) (allow : Bool) where
  abbrev installed : Installed
  installed = install_all w.installs root.files [] candidate.artifacts

  -- The two ends of a publication.
  abbrev Ends : Result PublishError PublishResult × Root → Type 0
  Ends x = (Replaced x.0 × IsActive candidate x.1) ⊎ ((¬ Replaced x.0) × IsKept w root x.1)
