-- ===== src/Feed/Bundle/RoundTrip.antt =====
-- A bundle that is built is read back as the Feed that it was built from.
use follow_the_money.Base.{
  true_of_not, ℕ, Bool, true, false, Option, some, List, [], ◌∷◌, ◌≡◌, refl, sym, ◌∙◌, ap, map, any,
  In, inl, inr, ok, arith, not, ◌==◌, raise_if_ok, bind_ok, ok_inj,
}
use mathlib.Core.Path.{subst}
use mathlib.Core.List.Permᴰ
use follow_the_money.Base.Order.{Str, str_order, pair_order, same}
use follow_the_money.Base.Sort.{IsSorted, IsKeyed, sort_by-eq_of_permᴰ}
use follow_the_money.Base.Table.Entries.{IsDict-keyed}
use follow_the_money.Feed.Item.{Item, item_total_order_key}
use follow_the_money.Feed.Bundle.{
  wrong_version, invalid_feed, unsupported_type, invalid_manifest, Domain, domains, Feed, Artifact,
  Manifest, FeedBundle, Codec, is_typed, payload_domain, item_order, domain_artifact,
  inventory_entry, manifest_from_feed, schemas_of, build_bundle, split_feed, reconstruct_feed,
  load_manifest, is_known, is_missing, validate_manifest, validate_bundle,
}
use follow_the_money.Feed.Bundle.Groups.{groups, groups-items}
use follow_the_money.Feed.Bundle.Ids.{HasIds, HasIds-perm, by_id, add_ids-HasIds}
use follow_the_money.Feed.Bundle.Built.{
  sort_by-fixed, entry, artifact, inventory_lem, collect_lem, Stores,
}

In-by_id : (a : Item) (xs : List Item) → In a xs → In (a.id, a) (by_id xs)
In-by_id a [] i = i
In-by_id a (x ∷ xs) (inl p) = inl (ap (λ i. (i.id, i)) p)
In-by_id a (x ∷ xs) (inr i) = inr (In-by_id a xs i)

HasIds-IsKeyed : (xs : List Item) → HasIds xs → IsKeyed item_total_order_key xs
HasIds-IsKeyed xs h a b i j p =
    ap (λ e. e.1)
      (IsDict-keyed (by_id xs) (a.id, a) (b.id, b) h (In-by_id a xs i) (In-by_id b xs j)
        (ap (λ e. e.1) p))

-- The groups in order are the items in order.
groups-sorted :
    (items : List Item)
    → any (λ item. not (is_typed (payload_domain item.payload))) items ≡ false
    → HasIds items
    → IsSorted item_total_order_key items
    → item_order (groups items domains) ≡ items
groups-sorted items t h s =
    let perm = groups-items items t in
    sort_by-eq_of_permᴰ item_total_order_key perm
      (HasIds-IsKeyed (groups items domains) (HasIds-perm (Permᴰ.symm perm) h))
    ∙ sort_by-fixed items s

module _ (k : Codec) (feed : Feed) where
  -- What a build that succeeds has tested and made.
  record IsBuilt (b : FeedBundle k) : Type 0 where
    schemas : Str × Str
    version : (feed.schema_version == 5) ≡ true
    typed : any (λ item. not (is_typed (payload_domain item.payload))) feed.items ≡ false
    manifest_ok :
        k.accepts_manifest (manifest_from_feed feed schemas (map (entry k feed) domains)) ≡ true
    bytes :
        b.manifest_bytes
        ≡ k.manifest_text (manifest_from_feed feed schemas (map (entry k feed) domains))

  built :
      (b : FeedBundle k) (made : List Artifact) (schemas : Str × Str)
      → map (domain_artifact feed) domains ≡ made
      → (feed.schema_version == 5) ≡ true
      → any (λ item. not (is_typed (payload_domain item.payload))) feed.items ≡ false
      → k.accepts_manifest
          (manifest_from_feed feed schemas (map (inventory_entry k feed.run_id) made))
        ≡ true
      → b.manifest_bytes
        ≡ k.manifest_text
            (manifest_from_feed feed schemas (map (inventory_entry k feed.run_id) made))
      → IsBuilt b
  built b made schemas e v t m w = record {
    schemas = schemas;
    version = v;
    typed = t;
    manifest_ok =
        subst
          (λ r.
            k.accepts_manifest
              (manifest_from_feed feed schemas (map (inventory_entry k feed.run_id) r))
            ≡ true)
          (sym e) m;
    bytes =
        subst
          (λ r.
            b.manifest_bytes
            ≡ k.manifest_text
                (manifest_from_feed feed schemas (map (inventory_entry k feed.run_id) r)))
          (sym e) w;
  }

  build_bundle-IsBuilt : (b : FeedBundle k) → build_bundle k feed ≡ ok b → IsBuilt b
  unfolding build_bundle split_feed
  build_bundle-IsBuilt b p =
      let v = raise_if_ok (not (feed.schema_version == 5)) wrong_version _ b p in
      let a = bind_ok (split_feed k feed) _ b v.1 in
      let n = raise_if_ok (not (k.accepts_new feed)) invalid_feed _ a.0 a.1.0 in
      let t =
        raise_if_ok (any (λ item. not (is_typed (payload_domain item.payload))) feed.items)
          unsupported_type _ a.0 n.1 in
      let made : map (domain_artifact feed) domains ≡ a.0 = ok_inj t.1 in
      let s = bind_ok (schemas_of k) _ b a.1.1 in
      let m =
        raise_if_ok
          (not (
            k.accepts_manifest
              (manifest_from_feed feed s.0 (map (inventory_entry k feed.run_id) a.0))))
          invalid_manifest _ b s.1.1 in
      built b a.0 s.0 made (true_of_not (feed.schema_version == 5) v.0) t.0 (true_of_not _ m.0)
        (sym (ap (λ r. r.manifest_bytes) (ok_inj m.1)))

  manifest_loads : (m : Manifest) → load_manifest k (k.manifest_text m) ≡ ok m
  unfolding load_manifest
  manifest_loads m =
      rw (load_manifest, k.read-manifest_text m, k.same_bytes_refl (k.manifest_text m)) refl

  known_version : (n : ℕ) → (n == 5) ≡ true → (is_known n ≡ true) × ((n == 4) ≡ false)
  known_version n p = ground arith

  validate_manifest_lem :
      (allow : Bool) (schemas : Str × Str)
      → (feed.schema_version == 5) ≡ true
      → k.accepts_manifest (manifest_from_feed feed schemas (map (entry k feed) domains)) ≡ true
      → same feed.window_end feed.evidence_cutoff_at ≡ true
      → validate_manifest k allow
          (k.manifest_text (manifest_from_feed feed schemas (map (entry k feed) domains)))
        ≡ ok (manifest_from_feed feed schemas (map (entry k feed) domains))
  unfolding validate_manifest manifest_from_feed
  validate_manifest_lem allow schemas v a e =
      let known = known_version feed.schema_version v in
      rw
        (
          manifest_loads (manifest_from_feed feed schemas (map (entry k feed) domains)),
          known.0,
          known.1,
          a,
          e,
          inventory_lem k feed domains,
        )
        refl

  none_missing :
      (files : Str → Option k.Bytes) (ds : List Domain)
      → Stores k feed files
      → any (λ e. is_missing (files e.path)) (map (entry k feed) ds) ≡ false
  unfolding inventory_entry domain_artifact
  none_missing files [] f = refl
  none_missing files (d ∷ ds) f = rw (f d) (none_missing files ds f)

  -- A Feed whose items are in their order, with no id twice, and whose window ends at its cutoff:
  -- if `build_bundle` makes a bundle of it, the artifacts satisfy their schema, and the product
  -- root holds the artifacts under their paths, then `validate_bundle` on the bytes of the manifest
  -- gives back that very Feed, provided `validate_feed` accepts it.
  pub build_bundle-validate :
      (allow : Bool) (files : Str → Option k.Bytes) (b : FeedBundle k)
      → build_bundle k feed ≡ ok b
      → IsSorted item_total_order_key feed.items
      → HasIds feed.items
      → same feed.window_end feed.evidence_cutoff_at ≡ true
      → ((d : Domain) → k.accepts_artifact (artifact k feed d) ≡ true)
      → Stores k feed files
      → k.accepts allow feed ≡ true
      → validate_bundle k allow files (some b.manifest_bytes) ≡ ok feed
  unfolding validate_bundle reconstruct_feed manifest_from_feed
  build_bundle-validate allow files b p s h w a f v =
      let r = build_bundle-IsBuilt b p in
      let m = manifest_from_feed feed r.schemas (map (entry k feed) domains) in
      let perm = groups-items feed.items r.typed in
      let ids =
        add_ids-HasIds [] (groups feed.items domains) (HasIds-perm (Permᴰ.symm perm) h)
          (λ x i. refl) in
      rw
        (
          r.bytes,
          validate_manifest_lem allow r.schemas r.version r.manifest_ok w,
          none_missing files domains f,
          collect_lem k feed files domains [] ids.0 f a ids.1,
          groups-sorted feed.items r.typed h s,
          v,
        )
        refl
