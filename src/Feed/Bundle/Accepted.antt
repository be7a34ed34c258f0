-- ===== src/Feed/Bundle/Accepted.antt =====
-- What a bundle that is accepted guarantees.
use follow_the_money.Base.{
  true_of_not, Bool, true, false, Option, none, some, List, [], ◌∷◌, ◌++◌, ◌≡◌, refl, sym, ◌∙◌, any,
  In, inl, inr, ok, err, arith, not, ◌==◌, ◌||◌, raise_if_ok, bind_ok, ok_inj, length, Option-cases,
  ◌>>=◌,
}
use mathlib.Core.Path.{subst}
use mathlib.Core.List.Permᴰ
use follow_the_money.Base.Order.{Str, str_order, pair_order, same, same→eq}
use follow_the_money.Base.Sort.{IsSorted, sort_by-IsSorted, sort_by-perm}
use follow_the_money.Base.Sort.Members.{In-append, sort_by-In}
use follow_the_money.Feed.Item.{Item, item_total_order_key}
use follow_the_money.Feed.Bundle.{
  wrong_size, wrong_hash, invalid_artifact, wrong_binding, wrong_count, unordered, missing_artifact,
  unreadable, invalid_feed, Feed, Artifact, Entry, Manifest, Codec, item_order, load_artifact,
  reconstruct_feed, is_missing, validate_manifest, equal_lists, add_ids, check_artifact, collect,
  validate_bundle,
}
use follow_the_money.Feed.Bundle.Ids.{HasIds, HasIds-perm, HasIds-add_ids, append-add_ids}

module _ (k : Codec) (files : Str → Option k.Bytes) where
  -- An item that stands in a file whose size and digest are those that an entry names, under the
  -- run and the domain of the entry.
  pub record IsVerified (run_id : Str) (entries : List Entry) (x : Item) : Type 0 where
    entry : Entry
    bytes : k.Bytes
    artifact : Artifact
    listed : In entry entries
    held : files entry.path ≡ some bytes
    sized : (k.size bytes == entry.size_bytes) ≡ true
    hashed : k.sha256 bytes ≡ entry.sha256
    decoded : load_artifact k bytes ≡ ok artifact
    run : same artifact.run_id run_id ≡ true
    bound : same artifact.domain entry.domain ≡ true
    member : In x artifact.items

  later :
      (run_id : Str) (e : Entry) (es : List Entry) (x : Item)
      → IsVerified run_id es x
      → IsVerified run_id (e ∷ es) x
  later run_id e es x v = record {
    entry = v.entry;
    bytes = v.bytes;
    artifact = v.artifact;
    listed = inr v.listed;
    held = v.held;
    sized = v.sized;
    hashed = v.hashed;
    decoded = v.decoded;
    run = v.run;
    bound = v.bound;
    member = v.member;
  }

  binding_lem :
      (a : Artifact) (run_id domain : Str)
      → (not (a.schema_version == 2) || (not (same a.run_id run_id) || not (same a.domain domain)))
        ≡ false
      → (same a.run_id run_id ≡ true) × (same a.domain domain ≡ true)
  binding_lem a run_id domain p = ground arith

  check_artifact-IsVerified :
      (run_id : Str) (e : Entry) (es : List Entry) (bytes : k.Bytes) (a : Artifact) (x : Item)
      → files e.path ≡ some bytes
      → check_artifact k run_id e bytes ≡ ok a
      → In x a.items
      → IsVerified run_id (e ∷ es) x
  unfolding check_artifact
  check_artifact-IsVerified run_id e es bytes a x f p i =
      let s = raise_if_ok (not (k.size bytes == e.size_bytes)) wrong_size _ a p in
      let h = raise_if_ok (not (same (k.sha256 bytes) e.sha256)) wrong_hash _ a s.1 in
      let l = bind_ok (load_artifact k bytes) _ a h.1 in
      let v = raise_if_ok (not (k.accepts_artifact l.0)) invalid_artifact _ a l.1.1 in
      let b =
        raise_if_ok
          (not (l.0.schema_version == 2)
            || (not (same l.0.run_id run_id) || not (same l.0.domain e.domain)))
          wrong_binding _ a v.1 in
      let n = raise_if_ok (not (length l.0.items == e.item_count)) wrong_count _ a b.1 in
      let o =
        raise_if_ok (not (equal_lists k l.0.items (item_order l.0.items))) unordered _ a n.1 in
      let ends = binding_lem l.0 run_id e.domain b.0 in
      record {
        entry = e;
        bytes = bytes;
        artifact = l.0;
        listed = inl refl;
        held = f;
        sized = true_of_not (k.size bytes == e.size_bytes) s.0;
        hashed =
            same→eq (k.sha256 bytes) e.sha256 (true_of_not (same (k.sha256 bytes) e.sha256) h.0);
        decoded = l.1.0;
        run = ends.0;
        bound = ends.1;
        member = subst (λ r. In x r.items) (sym (ok_inj o.1)) i;
      }

  collect-some :
      (run_id : Str) (seen : List Str) (e : Entry) (es : List Entry) (bytes : k.Bytes)
      → files e.path ≡ some bytes
      → collect k files run_id seen (e ∷ es) ≡ (
          check_artifact k run_id e bytes >>= λ a. add_ids seen a.items >>= λ ids.
          collect k files run_id ids es >>= λ rest. ok (a.items ++ rest))
  unfolding collect
  collect-some run_id seen e es bytes f = rw (collect, f) refl

  collect-none :
      (run_id : Str) (seen : List Str) (e : Entry) (es : List Entry)
      → files e.path ≡ none
      → collect k files run_id seen (e ∷ es) ≡ err unreadable
  unfolding collect
  collect-none run_id seen e es f = rw (collect, f) refl

  -- The ids of the items could be added, and each item is verified.
  abbrev Collected : Str → List Str → List Entry → List Item → Type 0
  Collected run_id seen es items =
      ((s : List Str) × (add_ids seen items ≡ ok s))
      × ((x : Item) → In x items → IsVerified run_id es x)

  collect_lem :
      (run_id : Str) (seen : List Str) (es : List Entry) (items : List Item)
      → collect k files run_id seen es ≡ ok items
      → Collected run_id seen es items
  unfolding collect add_ids
  collect_lem run_id seen [] items p =
      subst (Collected run_id seen []) (ok_inj p) ((seen, refl), λ x i. absurd i)
  collect_lem run_id seen (e ∷ es) items p = elim (Option-cases (files e.path)) [
    | inl f ↦ (let q = sym (collect-none run_id seen e es f) ∙ p in cc)
    | inr (bytes, f) ↦
        let a =
          bind_ok (check_artifact k run_id e bytes) _ items
            (sym (collect-some run_id seen e es bytes f) ∙ p) in
        let ids = bind_ok (add_ids seen a.0.items) _ items a.1.1 in
        let rest = bind_ok (collect k files run_id ids.0 es) _ items ids.1.1 in
        let ih = collect_lem run_id ids.0 es rest.0 rest.1.0 in
        subst (Collected run_id seen (e ∷ es)) (ok_inj rest.1.1) (
          (ih.0.0, append-add_ids seen ids.0 ih.0.0 a.0.items rest.0 ids.1.0 ih.0.1),
          λ x i. elim (In-append x a.0.items rest.0 i) [
            | inl j ↦ check_artifact-IsVerified run_id e es bytes a.0 x f a.1.0 j
            | inr j ↦ later run_id e es x (ih.1 x j)
          ],
        )
  ]

  -- The guarantees of a Feed that is accepted.
  pub record IsAccepted (allow : Bool) (bytes : k.Bytes) (feed : Feed) : Type 0 where
    pub manifest : Manifest
    pub decoded : validate_manifest k allow bytes ≡ ok manifest
    pub run : feed.run_id ≡ manifest.run_id
    pub sorted : IsSorted item_total_order_key feed.items
    pub distinct : HasIds feed.items
    pub verified : (x : Item) → In x feed.items → IsVerified feed.run_id manifest.artifacts x

  rebuilt :
      (allow : Bool) (bytes : k.Bytes) (m : Manifest) (items : List Item)
      → validate_manifest k allow bytes ≡ ok m
      → Collected m.run_id [] m.artifacts items
      → IsAccepted allow bytes (reconstruct_feed m (item_order items))
  unfolding reconstruct_feed
  rebuilt allow bytes m items v c = record {
    manifest = m;
    decoded = v;
    run = refl;
    sorted = sort_by-IsSorted item_total_order_key items;
    distinct =
        HasIds-perm (Permᴰ.symm (sort_by-perm item_total_order_key items))
          (HasIds-add_ids [] items c.0.0 c.0.1);
    verified = λ x i. c.1 x (sort_by-In item_total_order_key x items i);
  }

  -- A Feed that `validate_bundle` returns has its items in their order and no id twice, and each of
  -- its items stands in a file of the product root whose size and digest are those in the manifest,
  -- under the run of the Feed and the domain of its entry.
  pub validate_bundle-IsAccepted :
      (allow : Bool) (bytes : k.Bytes) (feed : Feed)
      → validate_bundle k allow files (some bytes) ≡ ok feed
      → IsAccepted allow bytes feed
  unfolding validate_bundle
  validate_bundle-IsAccepted allow bytes feed p =
      let m = bind_ok (validate_manifest k allow bytes) _ feed p in
      let f =
        raise_if_ok (any (λ e. is_missing (files e.path)) m.0.artifacts) missing_artifact _ feed
          m.1.1 in
      let c = bind_ok (collect k files m.0.run_id [] m.0.artifacts) _ feed f.1 in
      let v =
        raise_if_ok (not (k.accepts allow (reconstruct_feed m.0 (item_order c.0)))) invalid_feed _
          feed c.1.1 in
      subst (IsAccepted allow bytes) (ok_inj v.1)
        (rebuilt allow bytes m.0 c.0 m.1.0 (collect_lem m.0.run_id [] m.0.artifacts c.0 c.1.0))
