-- ===== src/Feed/Bundle/Built.antt =====
-- The tests of a bundle on what `build_bundle` makes.
use follow_the_money.Base.{
  ℕ, Bool, true, false, Option, some, List, [], ◌∷◌, ◌++◌, ◌≡◌, refl, map, any, Result, ok, arith,
  not, ◌==◌, ◌||◌, length, select,
}
use follow_the_money.Base.Order.{Str, str_order, str_leq, pair_order, same, same_refl, codes}
use follow_the_money.Base.Sort.{sort_by, sort_by-IsSorted, IsSorted, insert_by}
use follow_the_money.Feed.Checkpoint.{is_hex}
use follow_the_money.Feed.Item.{Item, item_total_order_key}
use follow_the_money.Feed.Bundle.{
  BundleError, Domain, d_news, d_macro, d_policy, d_positioning, d_filing, domain_text, Feed,
  Artifact, Entry, Codec, item_order, domain_artifact, is_in_domain, artifact_path, inventory_entry,
  load_artifact, is_unsafe, check_path, check_inventory, equal_lists, add_ids, check_artifact,
  collect,
}
use follow_the_money.Feed.Bundle.Groups.{groups}
use follow_the_money.Feed.Bundle.Ids.{add_ids-append}

pub sort_by-fixed : (xs : List Item) → IsSorted item_total_order_key xs → item_order xs ≡ xs
unfolding sort_by insert_by
sort_by-fixed [] s = refl
sort_by-fixed (x ∷ []) s = refl
sort_by-fixed (x ∷ y ∷ ys) s = let rest = sort_by-fixed (y ∷ ys) s.1 in rw rest (rw s.0 refl)

item_order-fixed : (xs : List Item) → item_order (item_order xs) ≡ item_order xs
item_order-fixed xs = sort_by-fixed (item_order xs) (sort_by-IsSorted item_total_order_key xs)

any-append : (p : ℕ → Bool) (xs ys : Str) → any p (xs ++ ys) ≡ (any p xs || any p ys)
any-append p [] ys = refl
any-append p (x ∷ xs) ys = ground (arith, any-append p xs ys)

-- Neither slash is a hexadecimal digit.
hex-safe : (s : Str) → any (λ c. not (is_hex c)) s ≡ false → any (λ c. c == 47 || c == 92) s ≡ false
hex-safe [] p = refl
hex-safe (c ∷ s) p = ground (arith, hex-safe s)

module _ (k : Codec) where
  equal_lists_refl : (xs : List Item) → equal_lists k xs xs ≡ true
  equal_lists_refl [] = refl
  equal_lists_refl (x ∷ xs) = ground (arith, k.equal_items_refl x, equal_lists_refl xs)

  -- The name of an artifact after its domain has no slash.
  tail-safe :
      (run_id : Str)
      → any (λ c. c == 47 || c == 92) (k.generation_key run_id ++ codes ".json") ≡ false
  tail-safe run_id =
      rw
        (
          any-append (λ c. c == 47 || c == 92) (k.generation_key run_id) (codes ".json"),
          hex-safe (k.generation_key run_id) (k.generation_key-is_hex run_id),
        )
        refl

  path-safe :
      (d : Domain) (run_id : Str) → is_unsafe (artifact_path k (domain_text d) run_id) ≡ false
  unfolding artifact_path domain_text str_leq
  path-safe d_news run_id = rw (tail-safe run_id) refl
  path-safe d_macro run_id = rw (tail-safe run_id) refl
  path-safe d_policy run_id = rw (tail-safe run_id) refl
  path-safe d_positioning run_id = rw (tail-safe run_id) refl
  path-safe d_filing run_id = rw (tail-safe run_id) refl

  module _ (feed : Feed) where
    abbrev pub artifact : Domain → Artifact
    artifact d = domain_artifact feed d

    abbrev pub entry : Domain → Entry
    entry d = inventory_entry k feed.run_id (artifact d)

    pub inventory_lem : (ds : List Domain) → check_inventory k feed.run_id ds (map entry ds) ≡ ok tt
    unfolding check_inventory check_path inventory_entry domain_artifact
    inventory_lem [] = refl
    inventory_lem (d ∷ ds) =
        rw
          (
            same_refl (domain_text d),
            same_refl (artifact_path k (domain_text d) feed.run_id),
            path-safe d feed.run_id,
          )
          (inventory_lem ds)

    load_artifact_lem : (a : Artifact) → load_artifact k (k.artifact_text a) ≡ ok a
    unfolding load_artifact
    load_artifact_lem a =
        rw (load_artifact, k.read-artifact_text a, k.same_bytes_refl (k.artifact_text a)) refl

    -- The files of the product root hold the artifacts of the domains.
    abbrev pub Stores : (Str → Option k.Bytes) → Type 0
    Stores files =
        (d : Domain)
        → files (artifact_path k (domain_text d) feed.run_id) ≡ some (k.artifact_text (artifact d))

    -- The parts of an entry and of an artifact.
    stored :
        (files : Str → Option k.Bytes) (d : Domain)
        → Stores files
        → files (entry d).path ≡ some (k.artifact_text (artifact d))
    unfolding inventory_entry domain_artifact
    stored files d f = f d

    added :
        (d : Domain) (ds : List Domain) (seen s : List Str)
        → add_ids seen (groups feed.items (d ∷ ds)) ≡ ok s
        → add_ids seen ((artifact d).items ++ groups feed.items ds) ≡ ok s
    unfolding domain_artifact
    added d ds seen s p = p

    collected :
        (d : Domain) (ds : List Domain)
        → ◌≡◌ {A = Result BundleError (List Item)}
            (ok ((artifact d).items ++ groups feed.items ds))
            (ok (groups feed.items (d ∷ ds)))
    unfolding domain_artifact
    collected d ds = refl

    bound :
        (d : Domain)
        → (not ((artifact d).schema_version == 2)
            || (not (same (artifact d).run_id feed.run_id)
                || not (same (artifact d).domain (artifact d).domain)))
          ≡ false
    unfolding domain_artifact
    bound d = rw (same_refl feed.run_id, same_refl (domain_text d)) refl

    equal-ordered :
        (d : Domain) → equal_lists k (artifact d).items (item_order (artifact d).items) ≡ true
    unfolding domain_artifact
    equal-ordered d =
        rw (item_order-fixed (select (is_in_domain d) feed.items))
          (equal_lists_refl (item_order (select (is_in_domain d) feed.items)))

    check_artifact_lem :
        (d : Domain)
        → k.accepts_artifact (artifact d) ≡ true
        → check_artifact k feed.run_id (entry d) (k.artifact_text (artifact d)) ≡ ok (artifact d)
    unfolding check_artifact inventory_entry
    check_artifact_lem d p =
        let same_length : (n : ℕ) → (n == n) ≡ true = λ n. ground arith in
        let binding : (not ((artifact d).schema_version == 2)
              || (not (same (artifact d).run_id feed.run_id)
                  || not (same (artifact d).domain (artifact d).domain)))
            ≡ false =
          bound d in
        rw
          (
            same_length (k.size (k.artifact_text (artifact d))),
            same_refl (k.sha256 (k.artifact_text (artifact d))),
            load_artifact_lem (artifact d),
            p,
            binding,
            same_length (length (artifact d).items),
            equal-ordered d,
          )
          refl

    pub collect_lem :
        (files : Str → Option k.Bytes) (ds : List Domain) (seen s : List Str)
        → Stores files
        → ((d : Domain) → k.accepts_artifact (artifact d) ≡ true)
        → add_ids seen (groups feed.items ds) ≡ ok s
        → collect k files feed.run_id seen (map entry ds) ≡ ok (groups feed.items ds)
    unfolding collect
    collect_lem files [] seen s f a p = refl
    collect_lem files (d ∷ ds) seen s f a p =
        let ids =
          add_ids-append seen (artifact d).items (groups feed.items ds) s (added d ds seen s p) in
        rw
          (
            stored files d f,
            check_artifact_lem d (a d),
            ids.1.0,
            collect_lem files ds ids.0 s f a ids.1.1,
          )
          (collected d ds)
