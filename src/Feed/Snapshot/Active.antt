-- ===== src/Feed/Snapshot/Active.antt =====
-- src/follow_the_money/feed/snapshot.py, lines 30 to 85: `load_active_feed`, after the bundle has
-- been validated.
use follow_the_money.Base.{
  ℕ, Bool, true, false, Option, none, some, List, [], ◌∷◌, ◌&&◌, ◌||◌, not, ◌==◌, if◌then◌else◌,
  any,
}
use follow_the_money.Base.Order.{Str, str_order, same}
use follow_the_money.Base.Table.{Table, lookup, insert, contains, keys, member}
use follow_the_money.Feed.Item.{Item}
use follow_the_money.Feed.Assess.{Status, failure}
use follow_the_money.Feed.Outcome.{
  State, Availability, is_healthy, is_empty_state, is_failed, is_blocked, is_denied,
}
use follow_the_money.Feed.Snapshot.{is_subset}

-- The members of a contract entry's snapshot that the code reads, and the digest of the snapshot.
pub record ContractSnapshot : Type 0 where
  pub provider_id : Option Str
  pub empty_valid_for_window : Bool
  pub digest : Str

-- An entry of `provider_contracts`: `malformed` is one that is no object, or has no text for its
-- id or no object for its snapshot.
pub data ContractEntry : Type 0 where
  malformed : ContractEntry
  entry : Str → Option Str → ContractSnapshot → ContractEntry

-- An outcome of the active Feed, with the members that the code reads.
pub record PublishedOutcome : Type 0 where
  pub provider_id : Str
  pub state : State
  pub availability : Availability
  pub upstream_http_status : Option ℕ
  pub accepted : ℕ
  pub rejected : ℕ

-- An entry of `provider_outcomes`: `unnamed` is one that is no object, or has no text for its id.
pub data OutcomeEntry : Type 0 where
  unnamed : OutcomeEntry
  named : PublishedOutcome → OutcomeEntry

-- What `validate_bundle` returns.
pub record PublishedFeed : Type 0 where
  pub status : Status
  pub provider_contracts : List ContractEntry
  pub provider_outcomes : List OutcomeEntry
  pub items : List Item

-- What is under the product root: no manifest, a bundle that is refused, or a Feed.
pub data ProductRoot : Type 0 where
  no_manifest invalid_bundle : ProductRoot
  bundle : PublishedFeed → ProductRoot

unfoldable pub is_same_text : Option Str → Str → Bool
is_same_text none s = false
is_same_text (some t) s = same t s

-- The loop over the contracts: `none` is a return of None.
unfoldable pub read_contracts :
    Table Str ContractSnapshot → List ContractEntry → Option (Table Str ContractSnapshot)
unfolding is_same_text
read_contracts table [] = some table
read_contracts table (malformed ∷ es) = none
read_contracts table (entry k hash snapshot ∷ es) =
    let rest = read_contracts (insert k snapshot table) es in
    if contains k table
      || not (is_same_text snapshot.provider_id k)
      || not (is_same_text hash snapshot.digest)
    then none
    else rest

-- The outcome is complete, or exempt as blocked.
unfoldable pub is_consumable : ContractSnapshot → PublishedOutcome → Bool
is_consumable snapshot o =
    is_healthy o.state
    || (is_empty_state o.state && snapshot.empty_valid_for_window)
    || (is_blocked o.availability
        && is_denied o.upstream_http_status
        && is_failed o.state
        && (o.accepted == 0)
        && (o.rejected == 0))

-- The loop over the outcomes, and the ids of the valid Providers.
unfoldable pub read_outcomes :
    Table Str ContractSnapshot → List Str → List OutcomeEntry → Option (List Str)
unfolding is_consumable
read_outcomes contracts valid [] = some valid
read_outcomes contracts valid (unnamed ∷ es) = none
read_outcomes contracts valid (named o ∷ es) =
    let rest = read_outcomes contracts (o.provider_id ∷ valid) es in
    elim (lookup o.provider_id contracts) [
      | none ↦ none
      | some snapshot ↦ if is_consumable snapshot o then rest else none
    ]

-- The two tests on the sets of ids.
unfoldable pub is_closed : Table Str ContractSnapshot → List Str → List Item → Bool
unfolding is_subset
is_closed contracts valid items =
    not (any (λ i. not (member i.provider_id valid)) items)
    && is_subset (keys contracts) valid
    && is_subset valid (keys contracts)

unfoldable pub is_failure : Status → Bool
is_failure failure = true
is_failure _ = false

unfoldable pub checked :
    PublishedFeed → Table Str ContractSnapshot → Option (List Str) → Option PublishedFeed
unfolding is_closed
checked feed contracts none = none
checked feed contracts (some valid) =
    if is_closed contracts valid feed.items then some feed else none

unfoldable pub load_active_feed : ProductRoot → Option PublishedFeed
unfolding read_contracts read_outcomes checked is_failure
load_active_feed no_manifest = none
load_active_feed invalid_bundle = none
load_active_feed (bundle feed) =
    if is_failure feed.status then none else elim (read_contracts [] feed.provider_contracts) [
      | none ↦ none
      | some contracts ↦ checked feed contracts (read_outcomes contracts [] feed.provider_outcomes)
    ]
