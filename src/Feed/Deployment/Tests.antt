-- ===== src/Feed/Deployment/Tests.antt =====
-- Hosted runs and files at concrete inputs. A file is the JSON value that it holds, and the text of
-- an instant is one code point.
use follow_the_money.Base.{
  ◌*◌, true, false, none, some, [], ◌∷◌, ◌≡◌, refl, arith, ok, err, inl, inr,
}
use follow_the_money.Base.Order.{Str, codes, str_leq}
use follow_the_money.Base.Sort.{sort_by}
use follow_the_money.Base.Time.{Instant, second}
use follow_the_money.Canonical.{Json, null, is_scalar, ordered}
use follow_the_money.Feed.Checkpoint.{FeedCheckpoint, write_checkpoint, read_checkpoint}
use follow_the_money.Providers.Rate.Registry.{absent, ensure_registry, apply, registered_scope_ids}
use follow_the_money.Feed.Plan.{zoned}
use follow_the_money.Feed.Lease.{DeploymentLease, lease_value, write_lease, read_lease}
use follow_the_money.Feed.Deployment.Layout.{
  AppConfig, Runtime, check_compatibility, add_policies, recovery_envelope, classify_layout,
}
use follow_the_money.Feed.Deployment.Prepare.{
  Surroundings, prepare_deployment, arm, assert_feed_admitted, armed_lease, bootstrap_lease,
  store_lease, store_checkpoint, initialize_scopes,
}
use follow_the_money.Feed.Deployment.Runs.{World, tick, prepare, start, Reach, begin, next, Apart}
use follow_the_money.Feed.Deployment.Exclusive.{runs-Apart}
use follow_the_money.Feed.Deployment.Change.{LeaseChange}
use follow_the_money.Feed.Deployment.Prepared.{prepare_deployment-change}
use follow_the_money.Feed.Lease.Laws.{floored}
use follow_the_money.Feed.Lease.File.{write_lease-read}
use follow_the_money.Feed.Lease.Read.{IsLease, read_lease-IsLease}
use follow_the_money.Feed.Checkpoint.Laws.{write_checkpoint-read, read_checkpoint-write}
use follow_the_money.Feed.Tests.Files.{encoding, iso_texts, texts, any_texts}
use follow_the_money.Providers.Tests.Numbers.{host}

abbrev config : AppConfig
config = record {
  providers = [];
  registry_version = codes "1";
  registry_file = codes "rate-registry.json";
  crash_cooldown_hours = 1;
  pre_commit_deadline_seconds = 100;
}

abbrev Root : Type 0
Root = Runtime host iso_texts texts encoding

abbrev nothing : Root
nothing = record {
  disk = record { registry = absent; marker = false; states = [] };
  lease = none;
  checkpoint = none;
  others = [];
}

abbrev surroundings : Surroundings
surroundings = record {
  product = ok none;
  migration = ok [];
  distinct_roots = true;
  stores_lease = true;
  stores_checkpoint = true;
  scope_clock = λ s. 0;
}

abbrev id_a : Str
id_a = 1 ∷ []

abbrev id_b : Str
id_b = 2 ∷ []

abbrev id_c : Str
id_c = 3 ∷ []

abbrev prepared_root : Str → Instant → Root → Root
prepared_root id now w =
    (prepare_deployment host iso_texts texts encoding surroundings config id (zoned now) w).1

abbrev root_a : Root
root_a = prepared_root id_a (1000 * second) nothing

abbrev root_b : Root
root_b = prepared_root id_b (4600 * second) root_a

abbrev root_c : Root
root_c = prepared_root id_c (8400 * second) root_b

abbrev lease_of : Str → Instant → DeploymentLease
lease_of id now = armed_lease id now 100 3600

admitted_b :
    assert_feed_admitted host iso_texts texts encoding root_b.lease id_b (zoned (4600 * second))
    ≡ ok (lease_of id_b (4600 * second))
unfolding prepare_deployment check_compatibility str_leq add_policies recovery_envelope
    classify_layout ensure_registry apply initialize_scopes store_lease write_lease bootstrap_lease
    store_checkpoint write_checkpoint registered_scope_ids sort_by read_lease read_checkpoint
    armed_lease lease_value arm assert_feed_admitted
admitted_b = refl

admitted_c :
    assert_feed_admitted host iso_texts texts encoding root_c.lease id_c (zoned (8400 * second))
    ≡ ok (lease_of id_c (8400 * second))
unfolding prepare_deployment check_compatibility str_leq add_policies recovery_envelope
    classify_layout ensure_registry apply initialize_scopes store_lease write_lease bootstrap_lease
    store_checkpoint write_checkpoint registered_scope_ids sort_by read_lease read_checkpoint
    armed_lease lease_value arm assert_feed_admitted
admitted_c = refl

abbrev Place : Type 0
Place = World host iso_texts texts encoding

abbrev start_world : Place
start_world = record { runtime = nothing; clock = 1000 * second; started = [] }

Reach-root_c : Reach host iso_texts texts encoding config (record {
  runtime = root_c;
  clock = 8400 * second;
  started = (id_c, 8400 * second) ∷ (id_b, 4600 * second) ∷ [];
})
unfolding is_scalar
Reach-root_c =
    next
      (next
        (next
          (next
            (next
              (next (next (begin start_world refl refl) (prepare surroundings id_a refl refl))
                (tick (4600 * second) (omega arith)))
              (prepare surroundings id_b refl refl))
            (start id_b (lease_of id_b (4600 * second)) admitted_b))
          (tick (8400 * second) (omega arith)))
        (prepare surroundings id_c refl refl))
      (start id_c (lease_of id_c (8400 * second)) admitted_c)

-- A run that crashed and the next one.
runs-Apart_example :
    Apart host iso_texts texts encoding config (id_c, 8400 * second) (id_b, 4600 * second)
runs-Apart_example =
    runs-Apart host iso_texts texts encoding config
      (record {
        runtime = root_c;
        clock = 8400 * second;
        started = (id_c, 8400 * second) ∷ (id_b, 4600 * second) ∷ [];
      })
      (id_c, 8400 * second) (id_b, 4600 * second) Reach-root_c (inl refl) (inr (inl refl)) (λ p. cc)

prepare_deployment-change_example :
    LeaseChange host iso_texts texts encoding config id_b
      (zoned (4600 * second))
      root_a.lease
      root_b.lease
prepare_deployment-change_example =
    prepare_deployment-change host iso_texts texts encoding surroundings config id_b
      (zoned (4600 * second)) root_a

write_lease-read_example :
    read_lease iso_texts encoding
      (some (ordered (lease_value iso_texts (lease_of id_b (4600 * second)))))
      (some id_b)
    ≡ ok (floored (lease_of id_b (4600 * second)))
unfolding armed_lease write_lease is_scalar str_leq
write_lease-read_example =
    write_lease-read iso_texts encoding (lease_of id_b (4600 * second)) (some id_b)
      (ordered (lease_value iso_texts (lease_of id_b (4600 * second)))) refl refl refl refl refl
      refl

read_lease-IsLease_example : IsLease iso_texts (some id_b) (lease_of id_b (4600 * second))
unfolding armed_lease read_lease ordered lease_value str_leq
read_lease-IsLease_example =
    read_lease-IsLease iso_texts encoding
      (some (ordered (lease_value iso_texts (lease_of id_b (4600 * second))))) (some id_b)
      (lease_of id_b (4600 * second)) refl

abbrev cutoff : Str
cutoff = codes "2026-01-02T00:00:00.000Z"

abbrev checkpoint : FeedCheckpoint
checkpoint = record {
  previous_success = some (record {
    evidence_cutoff_at = cutoff;
    run_id = codes "2026-01-02T00:00:00.000Z::0123456789abcdef0123456789abcdef";
  });
}

abbrev stored : Json
stored = elim (write_checkpoint any_texts encoding true checkpoint) [ ok b ↦ b | err f ↦ null ]

write_checkpoint-read_example :
    read_checkpoint any_texts encoding (some (some stored)) ≡ ok checkpoint
unfolding write_checkpoint str_leq
write_checkpoint-read_example = write_checkpoint-read any_texts encoding true checkpoint stored refl

read_checkpoint-write_example :
    (b : Json) × ((write_checkpoint any_texts encoding true checkpoint ≡ ok b)
      × (read_checkpoint any_texts encoding (some (some b)) ≡ ok checkpoint))
unfolding is_scalar
read_checkpoint-write_example =
    read_checkpoint-write any_texts encoding (some (some stored)) checkpoint
      write_checkpoint-read_example refl
