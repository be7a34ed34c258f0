-- ===== src/Feed/Tests/Slices.antt =====
-- Two slices: a weekly one, and one of an event-driven Provider.
use follow_the_money.Base.{◌*◌, ◌≡◌, refl, true, false, none, some, [], ◌∷◌, ok}
use follow_the_money.Base.Time.{second, utc}
use follow_the_money.Config.{FreshnessContract, weekly, event_driven, data_as_of, checked_at}
use follow_the_money.Feed.Item.{Item, positioning}
use follow_the_money.Feed.Outcome.{fresh, valid_unchanged, stale}
use follow_the_money.Feed.Freshness.{evaluate_freshness, reference_time_for_item, text}
use follow_the_money.Feed.Freshness.Laws.{Describes, evaluate_freshness-Describes}

abbrev item : Item
item = record {
  id = 97 ∷ [];
  provider_id = 112 ∷ [];
  title = [];
  source = record {
    source_id = none;
    url = [];
    knowledge_available_at = [];
    published_at = none;
    updated_at = none;
    original_publisher = none;
    syndication_origin = none;
  };
  payload = positioning (some (utc (100 * second)));
  source_lineage = none;
  content = [];
}

abbrev weekly_contract : FreshnessContract
weekly_contract = record {
  cadence = weekly;
  reference_time = data_as_of;
  valid_for_seconds = some 60;
}

abbrev event_contract : FreshnessContract
event_contract = record {
  cadence = event_driven;
  reference_time = checked_at;
  valid_for_seconds = none;
}

is_fresh :
    evaluate_freshness (item ∷ []) weekly_contract (text (utc (150 * second))) false none ≡ ok fresh
unfolding evaluate_freshness reference_time_for_item
is_fresh = refl

is_stale :
    evaluate_freshness (item ∷ []) weekly_contract (text (utc (161 * second))) false none ≡ ok stale
unfolding evaluate_freshness reference_time_for_item
is_stale = refl

is_unchanged :
    evaluate_freshness (item ∷ []) event_contract (text (utc 5)) true (some (utc 7))
    ≡ ok valid_unchanged
unfolding evaluate_freshness
is_unchanged = refl

evaluate_freshness-Describes_example :
    Describes data_as_of none 60 (item ∷ []) (150 * second) false fresh
evaluate_freshness-Describes_example =
    evaluate_freshness-Describes item [] weekly_contract 60 (150 * second) false none fresh tt refl
      is_fresh
