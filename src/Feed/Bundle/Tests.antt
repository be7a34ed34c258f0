-- ===== src/Feed/Bundle/Tests.antt =====
-- A bundle of a news item and a filing. A file is the artifact or the manifest that it holds.
use follow_the_money.Base.{
  true, false, Option, none, some, List, [], ◌∷◌, ◌≡◌, refl, ◌⊎◌, inl, inr, length, ok, err,
  if◌then◌else◌,
}
use follow_the_money.Base.Order.{Str, str_order, str_leq, same, same_refl, codes}
use follow_the_money.Base.Table.{contains}
use follow_the_money.Feed.Item.{Item, Payload, news, filing}
use follow_the_money.Feed.Bundle.{
  Domain, d_news, d_macro, d_policy, d_positioning, d_filing, domain_text, Feed, Artifact, Manifest,
  Codec, FeedBundle, is_typed, payload_domain, manifest_from_feed, build_bundle, artifact_path,
  validate_bundle, domain_artifact,
}
use follow_the_money.Feed.Bundle.RoundTrip.{build_bundle-validate}
use follow_the_money.Feed.Bundle.Accepted.{IsAccepted, validate_bundle-IsAccepted}

abbrev File : Type 0
File = Artifact ⊎ Manifest

abbrev text_of : File → Str
text_of (inl a) = a.domain
text_of (inr m) = m.run_id

abbrev read_artifact : File → Option Artifact
read_artifact (inl a) = some a
read_artifact (inr m) = none

abbrev read_manifest : File → Option Manifest
read_manifest (inl a) = none
read_manifest (inr m) = some m

abbrev codec : Codec
codec = record {
  Bytes = File;
  size = λ f. length (text_of f);
  same_bytes = λ f g. same (text_of f) (text_of g);
  artifact_text = λ a. inl a;
  read_artifact = read_artifact;
  manifest_text = λ m. inr m;
  read_manifest = read_manifest;
  sha256 = text_of;
  generation_key = λ s. codes "0";
  bundle_schemas = some ([], []);
  accepts_artifact = λ a. true;
  accepts_manifest = λ m. true;
  equal_items = λ a b. same a.id b.id;
  accepts_new = λ f. true;
  accepts = λ allow f. true;
  read-artifact_text = λ a. refl;
  read-manifest_text = λ m. refl;
  generation_key-is_hex = λ s. refl;
  equal_items_refl = λ a. same_refl a.id;
  same_bytes_refl = λ f. same_refl (text_of f);
}

abbrev item : Str → Payload → Item
item id payload = record {
  id = id;
  provider_id = codes "p";
  title = codes "t";
  source = record {
    source_id = none;
    url = id;
    knowledge_available_at = codes "2";
    published_at = none;
    updated_at = none;
    original_publisher = none;
    syndication_origin = none;
  };
  payload = payload;
  source_lineage = none;
  content = [];
}

abbrev feed : Feed
feed = record {
  schema_version = 5;
  run_id = codes "r";
  evidence_cutoff_at = codes "3";
  window_end = codes "3";
  failed = false;
  rest = [];
  items = item (codes "a") (filing none) ∷ item (codes "b") (news none) ∷ [];
}

abbrev by_path : Str → List Domain → Option File
by_path path [] = none
by_path path (d ∷ ds) =
    let rest = by_path path ds in
    if same path (artifact_path codec (domain_text d) feed.run_id)
    then some (inl (domain_artifact feed d))
    else rest

abbrev files : Str → Option File
files path = by_path path (d_news ∷ d_macro ∷ d_policy ∷ d_positioning ∷ d_filing ∷ [])

files-stored :
    (d : Domain)
    → files (artifact_path codec (domain_text d) feed.run_id) ≡ some (inl (domain_artifact feed d))
unfolding artifact_path domain_text str_leq
files-stored d_news = refl
files-stored d_macro = refl
files-stored d_policy = refl
files-stored d_positioning = refl
files-stored d_filing = refl

abbrev bundle : FeedBundle codec
bundle = elim (build_bundle codec feed) [
  | ok b ↦ b
  | err e ↦ record {
    manifest = manifest_from_feed feed ([], []) [];
    artifacts = [];
    manifest_bytes = inr (manifest_from_feed feed ([], []) []);
    artifact_bytes = [];
  }
]

build_bundle-validate_example :
    validate_bundle codec false files (some bundle.manifest_bytes) ≡ ok feed
unfolding build_bundle str_leq is_typed payload_domain contains
build_bundle-validate_example =
    build_bundle-validate codec feed false files bundle refl (refl, (tt, tt)) (refl, (refl, tt))
      refl (λ d. refl) files-stored refl

validate_bundle-IsAccepted_example : IsAccepted codec files false bundle.manifest_bytes feed
validate_bundle-IsAccepted_example =
    validate_bundle-IsAccepted codec files false bundle.manifest_bytes feed
      build_bundle-validate_example
