-- ===== src/Feed/Snapshot.antt =====
-- src/follow_the_money/feed/snapshot.py: the slice of each Provider, current or carried forward, and
-- the test that an active Feed can be carried forward.
pub mod Select
pub mod Active
pub mod Consumable
pub mod Slices
pub mod Origin
mod Tests
use follow_the_money.Base.{
  ℕ, ◌+◌, Bool, true, false, Option, none, some, List, [], ◌∷◌, ◌++◌, ◌&&◌, ◌||◌, not, map, leb,
  ◌==◌, if◌then◌else◌, Result, ok, err, ◌>>=◌, any, select, is_empty, length,
}
use follow_the_money.Base.Order.{Str, str_order, pair_order, same}
use follow_the_money.Base.Sort.{sort_by}
use follow_the_money.Base.Table.{Table, lookup, insert, get_or, keys, member}
use follow_the_money.Base.Time.{Timestamp}
use follow_the_money.Config.{FreshnessContract}
use follow_the_money.Feed.Item.{Item, item_total_order_key}
use follow_the_money.Feed.Freshness.{FreshnessError, evaluate_freshness, text}
use follow_the_money.Feed.Outcome.{
  ProviderOutcome, State, Freshness, FreshnessStatus, no_snapshot, not_evaluated, is_healthy,
  is_empty_state,
}

-- Why the current items of a Provider are refused.
pub data InvalidReason : Type 0 where
  no_identity : InvalidReason
  duplicate_identity : Str → InvalidReason
  provider_mismatch : InvalidReason

-- What the code takes from `json` and from formatting: the canonical text of an item, and the text
-- of a reason.
pub record Texts : Type 0 where
  pub canonical : Item → Str
  pub describe : InvalidReason → Str

pub data SnapshotError : Type 0 where
  missing_contract missing_contract_hash : SnapshotError
  not_fresh : FreshnessError → SnapshotError

-- The members of the active Feed that the selection reads: a contract and an outcome are the
-- Provider's id and the hash that its entry has.
pub record ActiveFeed : Type 0 where
  pub run_id : Option Str
  pub previous_major : Bool
  pub items : List Item
  pub provider_contracts : List (Str × Option Str)
  pub origins : List (Str × Option Str)

-- The arguments of `select_provider_slices` but the outcomes.
pub record Selection : Type 0 where
  pub current_items : List Item
  pub active_feed : Option ActiveFeed
  pub contracts : Table Str FreshnessContract
  pub current_contract_hashes : Table Str Str
  pub empty_valid_for_window : Table Str Bool
  pub evidence_cutoff_at : Timestamp
  pub strict_identity_provider_ids : Option (List Str)
  pub complete_state_provider_ids : List Str

unfoldable pub is_hex : ℕ → Bool
is_hex c = (leb 48 c && leb c 57) || (leb 97 c && leb c 102)

-- `_sha256`
unfoldable pub sha256 : Option Str → Option Str
unfolding is_hex
sha256 none = none
sha256 (some s) = if (length s == 64) && not (any (λ c. not (is_hex c)) s) then some s else none

-- The one planned Provider, if there is only one.
unfoldable pub fallback_provider : List Str → Option Str
fallback_provider (k ∷ []) = some k
fallback_provider _ = none

unfoldable pub is_fallback : Option Str → Str → Bool
is_fallback none k = false
is_fallback (some f) k = same f k

-- `current_by_provider.get(k, [])`
unfoldable pub current_slice : List Str → List Item → Str → List Item
unfolding fallback_provider is_fallback
current_slice planned items k =
    select
      (λ i.
        if member i.provider_id planned
        then same i.provider_id k
        else is_fallback (fallback_provider planned) k)
      items

-- `prior_by_provider.get(k, [])`
unfoldable pub prior_slice : Option ActiveFeed → Str → List Item
prior_slice none k = []
prior_slice (some feed) k = select (λ i. same i.provider_id k) feed.items

-- `prior_origins`: an entry with no hash leaves an earlier one in place.
unfoldable pub prior_origins : Table Str Str → List (Str × Option Str) → Table Str Str
unfolding sha256
prior_origins table [] = table
prior_origins table ((k, h) ∷ es) = elim (sha256 h) [
  | none ↦ prior_origins table es
  | some origin ↦ prior_origins (insert k origin table) es
]

-- `prior_contracts`, with the hash of each entry: a later entry replaces an earlier.
unfoldable pub prior_contracts :
    Table Str (Option Str) → List (Str × Option Str) → Table Str (Option Str)
prior_contracts table [] = table
prior_contracts table ((k, h) ∷ es) = prior_contracts (insert k h table) es

-- The hash of the contract under which the prior slice was selected.
unfoldable pub origin_hash : Option ActiveFeed → Str → Option Str
unfolding prior_origins prior_contracts sha256
origin_hash none k = none
origin_hash (some feed) k =
    if feed.previous_major
    then lookup k (prior_origins [] feed.origins)
    else sha256 (get_or (prior_contracts [] feed.provider_contracts) k none)

unfoldable pub prior_run_id : Option ActiveFeed → Option Str
prior_run_id none = none
prior_run_id (some feed) = feed.run_id

-- The loop over the current items that looks for an identity that is missing, double or foreign.
unfoldable pub invalid_reason : Bool → Str → List Str → List Item → Option InvalidReason
invalid_reason strict k seen [] = none
invalid_reason strict k seen (item ∷ items) =
    let rest = invalid_reason strict k (item.id ∷ seen) items in
    if is_empty item.id
    then some no_identity
    else if member item.id seen
    then some (duplicate_identity item.id)
    else if strict && not (same item.provider_id k)
    then some provider_mismatch
    else rest

-- `{item.get("id"): item for item in prior}`
unfoldable pub by_id : Table Str Item → List Item → Table Str Item
by_id table [] = table
by_id table (item ∷ items) = by_id (insert item.id item table) items

unfoldable pub is_subset : List Str → List Str → Bool
is_subset xs ys = not (any (λ x. not (member x ys)) xs)

-- `set(xs) != set(ys)`
unfoldable pub differs : List Str → List Str → Bool
unfolding is_subset
differs xs ys = not (is_subset xs ys && is_subset ys xs)

unfoldable pub is_strict : Selection → List Str → Str → Bool
is_strict s planned k = elim s.strict_identity_provider_ids [
  | none ↦ member k planned
  | some ids ↦ member k ids
]

-- `_freshness_record`
unfoldable pub freshness_record :
    FreshnessContract → FreshnessStatus → Option Str → Option Str → Freshness
freshness_record contract status origin run_id = record {
  cadence = contract.cadence;
  status = status;
  origin_contract_hash = origin;
  carried_forward_from_run_id = run_id;
}

unfoldable pub with_freshness : ProviderOutcome → Freshness → ProviderOutcome
with_freshness o f = record o { freshness = some f }

-- What `evaluate_freshness` raises becomes a `SnapshotError`.
unfoldable pub evaluated :
    Result FreshnessError FreshnessStatus → Result SnapshotError FreshnessStatus
evaluated (ok status) = ok status
evaluated (err e) = err (not_fresh e)
