-- ===== src/Feed/Bundle.antt =====
-- src/follow_the_money/feed/bundle.py, lines 20 to 336: the split of a Feed in typed artifacts with
-- a manifest, and the validation and reading of such a bundle. A file is its bytes.
pub mod Groups
pub mod Ids
pub mod Built
pub mod RoundTrip
pub mod Accepted
mod Tests
use follow_the_money.Base.{
  ℕ, Bool, true, false, Option, none, some, List, [], ◌∷◌, ◌++◌, ◌≡◌, map, not, any, select, length,
  ◌&&◌, ◌||◌, ◌==◌, if◌then◌else◌, Result, ok, err, ◌>>=◌, ◌>>◌, raise_if,
}
use follow_the_money.Base.Order.{Str, str_order, pair_order, same, codes}
use follow_the_money.Base.Sort.{sort_by}
use follow_the_money.Base.Table.{member}
use follow_the_money.Feed.Checkpoint.{is_hex}
use follow_the_money.Feed.Item.{
  Item, Payload, news, policy, macro_release, positioning, filing, unsupported, missing,
  item_total_order_key,
}

pub data BundleError : Type 0 where
  wrong_version unsupported_type invalid_feed no_schema invalid_manifest : BundleError
  not_canonical unreadable other_manifest needs_migration wrong_end : BundleError
  wrong_inventory wrong_path unsafe_path missing_artifact : BundleError
  wrong_size wrong_hash invalid_artifact wrong_binding wrong_count : BundleError
  unordered repeated_item failed_pipeline unsupported_domain : BundleError

-- `DOMAINS`, in order.
pub data Domain : Type 0 where
  d_news d_macro d_policy d_positioning d_filing : Domain

abbrev pub domains : List Domain
domains = d_news ∷ d_macro ∷ d_policy ∷ d_positioning ∷ d_filing ∷ []

unfoldable pub domain_text : Domain → Str
domain_text d_news = codes "news"
domain_text d_macro = codes "macro_release"
domain_text d_policy = codes "policy"
domain_text d_positioning = codes "positioning"
domain_text d_filing = codes "filing"

-- `item.get("payload", {}).get("type")`, where it is a domain.
unfoldable pub payload_domain : Payload → Option Domain
payload_domain (news _) = some d_news
payload_domain (macro_release _) = some d_macro
payload_domain (policy _ _) = some d_policy
payload_domain (positioning _) = some d_positioning
payload_domain (filing _) = some d_filing
payload_domain unsupported = none
payload_domain missing = none

-- The logical Feed; `rest` is the canonical text of the members that this code passes on.
pub record Feed : Type 0 where
  pub schema_version : ℕ
  pub run_id : Str
  pub evidence_cutoff_at : Str
  pub window_end : Str
  pub failed : Bool
  pub rest : Str
  pub items : List Item

pub record Artifact : Type 0 where
  pub schema_version : ℕ
  pub run_id : Str
  pub domain : Str
  pub items : List Item

-- An entry of the inventory.
pub record Entry : Type 0 where
  pub domain : Str
  pub path : Str
  pub item_count : ℕ
  pub size_bytes : ℕ
  pub sha256 : Str

pub record Manifest : Type 0 where
  pub schema_version : ℕ
  pub run_id : Str
  pub evidence_cutoff_at : Str
  pub window_end : Str
  pub failed : Bool
  pub rest : Str
  pub bundle_schemas : Str × Str
  pub artifacts : List Entry

-- What other code does: bytes with the canonical ones of an artifact and of a manifest and their
-- reading, the digests, the JSON schemas, the equality of items as values, and `validate_feed` with
-- `assert_feed_identity`, for a new Feed and for one that is read.
pub record Codec : Type 1 where
  pub Bytes : Type 0
  pub size : Bytes → ℕ
  pub same_bytes : Bytes → Bytes → Bool
  pub artifact_text : Artifact → Bytes
  pub read_artifact : Bytes → Option Artifact
  pub manifest_text : Manifest → Bytes
  pub read_manifest : Bytes → Option Manifest
  pub sha256 : Bytes → Str
  pub generation_key : Str → Str
  pub bundle_schemas : Option (Str × Str)
  pub accepts_artifact : Artifact → Bool
  pub accepts_manifest : Manifest → Bool
  pub equal_items : Item → Item → Bool
  pub accepts_new : Feed → Bool
  pub accepts : Bool → Feed → Bool
  pub read-artifact_text : (a : Artifact) → read_artifact (artifact_text a) ≡ some a
  pub read-manifest_text : (m : Manifest) → read_manifest (manifest_text m) ≡ some m
  pub generation_key-is_hex : (s : Str) → any (λ c. not (is_hex c)) (generation_key s) ≡ false
  pub equal_items_refl : (a : Item) → equal_items a a ≡ true
  pub same_bytes_refl : (b : Bytes) → same_bytes b b ≡ true

pub record FeedBundle (k : Codec) : Type 0 where
  pub manifest : Manifest
  pub artifacts : List Artifact
  pub manifest_bytes : k.Bytes
  pub artifact_bytes : List k.Bytes

unfoldable pub is_domain : Domain → Option Domain → Bool
is_domain d none = false
is_domain d (some c) = same (domain_text c) (domain_text d)

unfoldable pub is_in_domain : Domain → Item → Bool
unfolding is_domain payload_domain
is_in_domain d item = is_domain d (payload_domain item.payload)

unfoldable pub is_typed : Option Domain → Bool
is_typed none = false
is_typed (some _) = true

-- `deterministic_item_order`
abbrev pub item_order : List Item → List Item
item_order items = sort_by item_total_order_key items

-- The artifact of one domain: `grouped[domain]` are its items in the order of the Feed.
unfoldable pub domain_artifact : Feed → Domain → Artifact
domain_artifact feed d = record {
  schema_version = 2;
  run_id = feed.run_id;
  domain = domain_text d;
  items = item_order (select (is_in_domain d) feed.items);
}

unfoldable pub reconstruct_feed : Manifest → List Item → Feed
reconstruct_feed m items = record {
  schema_version = m.schema_version;
  run_id = m.run_id;
  evidence_cutoff_at = m.evidence_cutoff_at;
  window_end = m.window_end;
  failed = m.failed;
  rest = m.rest;
  items = items;
}

-- A name with a slash, or one that `pathlib` takes apart.
abbrev pub is_unsafe : Str → Bool
is_unsafe s = any (λ c. c == 47 || c == 92) s || member s ([] ∷ codes "." ∷ codes ".." ∷ [])

-- `_validated_artifact_relative_path`
unfoldable pub check_path : Str → Str → Result BundleError (Unit {0})
check_path path expected = do
  raise_if (not (same path expected)) wrong_path
  raise_if (is_unsafe path) unsafe_path

-- The ids that the items add, unless one is there already.
unfoldable pub add_ids : List Str → List Item → Result BundleError (List Str)
add_ids seen [] = ok seen
add_ids seen (item ∷ items) =
    if member item.id seen then err repeated_item else add_ids (item.id ∷ seen) items

abbrev pub is_known : ℕ → Bool
is_known version = version == 5 || version == 4

abbrev pub is_missing : {A : Type 0} → Option A → Bool
is_missing none = true
is_missing (some _) = false

-- `_manifest_from_feed`
unfoldable pub manifest_from_feed : Feed → Str × Str → List Entry → Manifest
manifest_from_feed feed schemas entries = record {
  schema_version = feed.schema_version;
  run_id = feed.run_id;
  evidence_cutoff_at = feed.evidence_cutoff_at;
  window_end = feed.window_end;
  failed = feed.failed;
  rest = feed.rest;
  bundle_schemas = schemas;
  artifacts = entries;
}

module _ (k : Codec) where
  unfoldable pub split_feed : Feed → Result BundleError (List Artifact)
  unfolding domain_artifact
  split_feed feed = do
    raise_if (not (k.accepts_new feed)) invalid_feed
    raise_if (any (λ item. not (is_typed (payload_domain item.payload))) feed.items)
        unsupported_type
    ok (map (domain_artifact feed) domains)

  -- `artifact_relative_path` of a domain.
  unfoldable pub artifact_path : Str → Str → Str
  artifact_path domain run_id =
      codes "feed-" ++ (domain ++ (codes "-" ++ (k.generation_key run_id ++ codes ".json")))

  unfoldable pub inventory_entry : Str → Artifact → Entry
  unfolding artifact_path
  inventory_entry run_id a = record {
    domain = a.domain;
    path = artifact_path a.domain run_id;
    item_count = length a.items;
    size_bytes = k.size (k.artifact_text a);
    sha256 = k.sha256 (k.artifact_text a);
  }

  unfoldable pub schemas_of : Result BundleError (Str × Str)
  schemas_of = elim k.bundle_schemas [ none ↦ err no_schema | some s ↦ ok s ]

  -- `build_bundle`. That the manifest reads back is a law of the codec.
  unfoldable pub build_bundle : Feed → Result BundleError (FeedBundle k)
  unfolding split_feed inventory_entry manifest_from_feed schemas_of
  build_bundle feed = do
    raise_if (not (feed.schema_version == 5)) wrong_version
    artifacts ← split_feed feed
    schemas ← schemas_of
    let manifest = manifest_from_feed feed schemas (map (inventory_entry feed.run_id) artifacts)
    raise_if (not (k.accepts_manifest manifest)) invalid_manifest
    ok (record {
      manifest = manifest;
      artifacts = artifacts;
      manifest_bytes = k.manifest_text manifest;
      artifact_bytes = map k.artifact_text artifacts;
    })

  -- `_canonical_object` of an artifact and of a manifest.
  unfoldable pub load_artifact : k.Bytes → Result BundleError Artifact
  load_artifact bytes = elim (k.read_artifact bytes) [
    | none ↦ err not_canonical
    | some a ↦ if k.same_bytes (k.artifact_text a) bytes then ok a else err not_canonical
  ]

  unfoldable pub load_manifest : k.Bytes → Result BundleError Manifest
  load_manifest bytes = elim (k.read_manifest bytes) [
    | none ↦ err not_canonical
    | some m ↦ if k.same_bytes (k.manifest_text m) bytes then ok m else err not_canonical
  ]

  -- `_validated_inventory_paths`, on the entries with the domains that they must have.
  unfoldable pub check_inventory : Str → List Domain → List Entry → Result BundleError (Unit {0})
  unfolding artifact_path check_path
  check_inventory run_id [] [] = ok tt
  check_inventory run_id [] (e ∷ es) = err wrong_inventory
  check_inventory run_id (d ∷ ds) [] = err wrong_inventory
  check_inventory run_id (d ∷ ds) (e ∷ es) = do
    raise_if (not (same e.domain (domain_text d))) wrong_inventory
    check_path e.path (artifact_path e.domain run_id)
    check_inventory run_id ds es

  -- `validate_manifest_and_inventory`
  unfoldable pub validate_manifest : Bool → k.Bytes → Result BundleError Manifest
  unfolding load_manifest check_inventory
  validate_manifest allow_previous bytes = do
    m ← load_manifest bytes
    raise_if (not (is_known m.schema_version)) wrong_version
    raise_if (m.schema_version == 4 && not allow_previous) needs_migration
    raise_if (not (k.accepts_manifest m)) invalid_manifest
    raise_if (not (same m.window_end m.evidence_cutoff_at)) wrong_end
    check_inventory m.run_id domains m.artifacts
    ok m

  abbrev pub equal_lists : List Item → List Item → Bool
  equal_lists [] [] = true
  equal_lists [] (b ∷ bs) = false
  equal_lists (a ∷ xs) [] = false
  equal_lists (a ∷ xs) (b ∷ bs) = let rest = equal_lists xs bs in k.equal_items a b && rest

  -- One artifact: its bytes against its entry, its binding and its items.
  unfoldable pub check_artifact : Str → Entry → k.Bytes → Result BundleError Artifact
  unfolding load_artifact
  check_artifact run_id e bytes = do
    raise_if (not (k.size bytes == e.size_bytes)) wrong_size
    raise_if (not (same (k.sha256 bytes) e.sha256)) wrong_hash
    a ← load_artifact bytes
    raise_if (not (k.accepts_artifact a)) invalid_artifact
    raise_if
        (not (a.schema_version == 2)
          || (not (same a.run_id run_id) || not (same a.domain e.domain)))
        wrong_binding
    raise_if (not (length a.items == e.item_count)) wrong_count
    raise_if (not (equal_lists a.items (item_order a.items))) unordered
    ok a

  -- The items of the artifacts, in order; `files` are the files of the product root.
  unfoldable pub collect :
      (Str → Option k.Bytes) → Str → List Str → List Entry → Result BundleError (List Item)
  unfolding check_artifact add_ids
  collect files run_id seen [] = ok []
  collect files run_id seen (e ∷ es) = elim (files e.path) [
    | none ↦ err unreadable
    | some bytes ↦ do
      a ← check_artifact run_id e bytes
      ids ← add_ids seen a.items
      rest ← collect files run_id ids es
      ok (a.items ++ rest)
  ]

  -- `validate_bundle` on the bytes of the manifest, `none` where they cannot be read.
  unfoldable pub validate_bundle :
      Bool → (Str → Option k.Bytes) → Option k.Bytes → Result BundleError Feed
  unfolding validate_manifest collect reconstruct_feed
  validate_bundle allow_previous files none = err unreadable
  validate_bundle allow_previous files (some bytes) = do
    m ← validate_manifest allow_previous bytes
    raise_if (any (λ e. is_missing (files e.path)) m.artifacts) missing_artifact
    items ← collect files m.run_id [] m.artifacts
    let feed = reconstruct_feed m (item_order items)
    raise_if (not (k.accepts allow_previous feed)) invalid_feed
    ok feed

  -- `load_feed`
  unfoldable pub load_feed :
      (Str → Option k.Bytes) → Option k.Bytes → Option Domain → Result BundleError Feed
  unfolding validate_bundle
  load_feed files bytes domain = do
    feed ← validate_bundle false files bytes
    raise_if feed.failed failed_pipeline
    elim domain [
      | none ↦ ok feed
      | some d ↦ ok (record feed { items = select (is_in_domain d) feed.items })
    ]
