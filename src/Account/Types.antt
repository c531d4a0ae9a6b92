-- ===== src/Account/Types.antt =====
-- src/account/types.ts
use coindcx_bot.Prelude.{String, Option, List}

pub data Side : Type 0 where
  long short flat : Side

pub data OrderSide : Type 0 where
  buy sell : OrderSide

pub data OrderStatus : Type 0 where
  open_status partially_filled filled cancelled rejected : OrderStatus

pub data Source : Type 0 where
  ws rest ws_skewed : Source

pub data Entity : Type 0 where
  position balance order fill : Entity

pub record Position : Type 0 where
  pub id : String
  pub pair : String
  pub side : Side
  pub active_pos : String
  pub avg_price : String
  pub mark_price : Option String
  pub liquidation_price : Option String
  pub leverage : Option String
  pub margin_currency : String
  pub unrealized_pnl : String
  pub realized_pnl : String
  pub opened_at : Option String
  pub updated_at : String
  pub source : Source

pub record Balance : Type 0 where
  pub currency : String
  pub available : String
  pub locked : String
  pub updated_at : String
  pub source : Source

pub record Order : Type 0 where
  pub id : String
  pub pair : String
  pub side : OrderSide
  pub type : String
  pub status : OrderStatus
  pub price : Option String
  pub total_qty : String
  pub remaining_qty : String
  pub avg_fill_price : Option String
  pub position_id : Option String
  pub created_at : String
  pub updated_at : String
  pub source : Source

pub record Fill : Type 0 where
  pub id : String
  pub order_id : Option String
  pub position_id : Option String
  pub pair : String
  pub side : OrderSide
  pub price : String
  pub qty : String
  pub fee : Option String
  pub fee_currency : Option String
  pub realized_pnl : Option String
  pub executed_at : String
  pub ingested_at : String
  pub source : Source

pub record AccountTotals : Type 0 where
  pub equity_inr : String
  pub wallet_inr : String
  pub unrealized_inr : String
  pub realized_day : String
  pub realized_lifetime : String

pub record AccountSnapshot : Type 0 where
  pub positions : List Position
  pub balances : List Balance
  pub orders : List Order
  pub totals : AccountTotals

pub data Lifecycle : Type 0 where
  opened closed flipped : Lifecycle
