-- ===== src/Feed/Run/Tests.antt =====
-- A first run on a new root.
use follow_the_money.Base.{
  ◌*◌, true, false, Option, none, some, [], ◌∷◌, ◌≡◌, inl, inr, refl, In, ok, err,
}
use follow_the_money.Base.Order.{str_leq, codes}
use follow_the_money.Base.Time.{hour}
use follow_the_money.Canonical.{Json, null}
use follow_the_money.Feed.Plan.{zoned, plan_window}
use follow_the_money.Feed.Assess.{healthy}
use follow_the_money.Feed.Checkpoint.{write_checkpoint}
use follow_the_money.Feed.Run.{
  Candidate, FeedRunResult, locked, unlocked, established, published, advanced, Parts, run_feed,
}
use follow_the_money.Feed.Run.Laws.{IsAdvanced, run_feed-IsAdvanced}
use follow_the_money.Feed.Run.Ends.{Ends}
use follow_the_money.Feed.Run.Completes.{run_feed-Completes}
use follow_the_money.Feed.Tests.Files.{encoding, any_texts}

abbrev candidate : Candidate
candidate = record {
  status = healthy;
  run_id = codes "2026-01-02T00:00:00.000Z::0123456789abcdef0123456789abcdef";
  evidence_cutoff_at = codes "2026-01-02T00:00:00.000Z";
  serialized_size = 10;
  warnings = [];
}

abbrev parts : Parts any_texts encoding
parts = record {
  dry_run = false;
  fixture = false;
  distinct_roots = true;
  product_root_made = true;
  lock_acquired = true;
  cutoff = some (zoned (100 * hour));
  cutoff_in_range = true;
  checkpoint_file = none;
  is_established = false;
  stores_first = true;
  bootstrap_lookback_hours = 72;
  gap_threshold_hours = 72;
  registry_ensured = true;
  make = λ plan. ok candidate;
  max_serialized_feed_bytes = 100;
  publication = ok (record {
    retained = false;
    idempotent = false;
    manifest_replaced = true;
    commit_durability_unknown = false;
    cleanup_failed = false;
    superseded_paths = [];
  });
  stores_checkpoint = true;
}

abbrev written : Option Candidate → Json
written none =
    elim (write_checkpoint any_texts encoding true (record { previous_success = none })) [
      | ok b ↦ b
      | err f ↦ null
    ]
written (some c) =
    elim (write_checkpoint any_texts encoding true (record {
      previous_success =
          some (record { evidence_cutoff_at = c.evidence_cutoff_at; run_id = c.run_id });
    })) [ ok b ↦ b | err f ↦ null ]

run_effects :
    (run_feed any_texts encoding parts).1
    ≡ locked
      ∷ established (written none)
      ∷ published
      ∷ advanced (written (some candidate))
      ∷ unlocked
      ∷ []
unfolding run_feed write_checkpoint str_leq plan_window
run_effects = refl

abbrev result : FeedRunResult
result = record { status = healthy; exit_code = 0; warnings = []; superseded_paths = [] }

run_result : (run_feed any_texts encoding parts).0 ≡ ok result
unfolding run_feed write_checkpoint str_leq plan_window
run_result = refl

run_feed-IsAdvanced_example : IsAdvanced any_texts encoding parts (written (some candidate))
run_feed-IsAdvanced_example =
    run_feed-IsAdvanced any_texts encoding parts (written (some candidate))
      (rw run_effects (inr (inr (inr (inl refl)))))

run_feed-Completes_example : (b : Json) × In (advanced b) (run_feed any_texts encoding parts).1
run_feed-Completes_example = run_feed-Completes any_texts encoding parts result refl run_result refl
