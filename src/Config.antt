-- ===== src/Config.antt =====
-- src/follow_the_money/config/model.py: the typed configuration that the Feed reads, with the
-- fields that the modelled code uses.
use follow_the_money.Base.{ℕ, Bool, Option, List}
use follow_the_money.Base.Order.{Str}

pub data Cadence : Type 0 where
  weekly scheduled event_driven other_cadence : Cadence

pub data ReferenceTime : Type 0 where
  data_as_of source_updated_at checked_at other_reference_time : ReferenceTime

-- `FreshnessContract`. A `valid_for_seconds` below zero is refused like zero, so it is a natural.
pub record FreshnessContract : Type 0 where
  pub cadence : Cadence
  pub reference_time : ReferenceTime
  pub valid_for_seconds : Option ℕ

-- `RatePolicy`
pub record RatePolicy : Type 0 where
  pub scope_id : Str
  pub capacity : ℕ
  pub refill_period_seconds : ℕ
  pub minimum_interval_seconds : ℕ
  pub unlimited : Bool
  pub shared_host : Option Str

-- `FetchRule`
pub record FetchRule : Type 0 where
  pub host : Str
  pub allow_subdomains : Bool
  pub allowed_ports : List ℕ

-- `ProviderEntry`
pub record ProviderEntry : Type 0 where
  pub id : Str
  pub enabled : Bool
  pub empty_valid_for_window : Bool
  pub freshness : FreshnessContract
  pub rate_policy : Option RatePolicy
  pub fetch_hosts : List FetchRule
  pub redirect_hosts : List FetchRule

-- `CoverageRow`
pub record CoverageRow : Type 0 where
  pub group : Str
  pub members : List Str
  pub minimum : ℕ
  pub optional : Bool
