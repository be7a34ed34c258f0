-- ===== src/Feed/Item.antt =====
-- A Feed item, with the members that the modelled parts of src/follow_the_money/feed read. A text
-- member that the code reads with the default "" is the empty text where it is missing.
use follow_the_money.Base.{Option, List}
use follow_the_money.Base.Order.{Str, str_order, pair_order}
use follow_the_money.Base.Time.{Timestamp}

-- `item["source"]`. The knowledge time is ordered as a text; the other times are read as instants.
pub record Source : Type 0 where
  pub source_id : Option Str
  pub url : Str
  pub knowledge_available_at : Str
  pub published_at : Option Timestamp
  pub updated_at : Option Timestamp
  pub original_publisher : Option Str
  pub syndication_origin : Option Str

-- The reference times of `item["payload"]`, by its type. `missing` is a payload that is no object,
-- `unsupported` one of another type.
pub data Payload : Type 0 where
  news : (occurred_at : Option Timestamp) → Payload
  policy : (effective_at announced_at : Option Timestamp) → Payload
  macro_release : (released_at : Option Timestamp) → Payload
  positioning : (as_of : Option Timestamp) → Payload
  filing : (filed_at : Option Timestamp) → Payload
  unsupported : Payload
  missing : Payload

-- A record of `source_lineage`.
pub record Lineage : Type 0 where
  pub id : Str
  pub provider_id : Str
  pub source_id : Option Str
  pub original_publisher : Option Str
  pub syndication_origin : Option Str

-- `content` is the canonical text of the members that no modelled function looks into.
pub record Item : Type 0 where
  pub id : Str
  pub provider_id : Str
  pub title : Str
  pub source : Source
  pub payload : Payload
  pub source_lineage : Option (List Lineage)
  pub content : Str

-- `item_total_order_key` of feed/dedupe.py
abbrev pub item_total_order_key : Item → Str × Str
item_total_order_key item = (item.source.knowledge_available_at, item.id)
