-- ===== src/Messages.antt =====
-- exchange/order_manager/client_request.h, exchange/order_manager/client_response.h and
-- exchange/market_data/market_update.h: the messages between the components, field by field.
use yquant_system.Base.{ℕ}
use yquant_system.Base.Int.{ℤ}
use yquant_system.Types.{Side}

-- The last constructor stands for the values of the underlying byte that the source does not name.
pub data ClientRequestType : Type 0 where
  invalid new canceled other : ClientRequestType

pub record MatchingEngineClientRequest : Type 0 where
  pub type : ClientRequestType
  pub client_id : ℕ
  pub symbol_id : ℕ
  pub order_id : ℕ
  pub side : Side
  pub price : ℤ
  pub quantity : ℕ

pub data ClientResponseType : Type 0 where
  invalid accepted canceled filled cancel_rejected : ClientResponseType

pub record ClientResponse : Type 0 where
  pub type : ClientResponseType
  pub client_id : ℕ
  pub symbol_id : ℕ
  pub client_order_id : ℕ
  pub market_order_id : ℕ
  pub side : Side
  pub price : ℤ
  pub executed_quantity : ℕ
  pub remaining_quantity : ℕ

pub data MarketUpdateType : Type 0 where
  invalid clear add modify cancel trade snapshot_start snapshot_end : MarketUpdateType

pub record MarketUpdate : Type 0 where
  pub type : MarketUpdateType
  pub symbol_id : ℕ
  pub order_id : ℕ
  pub side : Side
  pub price : ℤ
  pub quantity : ℕ
  pub priority : ℕ
