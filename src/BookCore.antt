-- ===== src/BookCore.antt =====
-- exchange/matcher/book_core.h and book_core.cc: the order book of one symbol.
--
-- The two output queues are the lists of the messages written so far, the oldest first: writing a
-- message waits for room and then publishes it, so the order of the messages is what the book
-- decides. A call returns `none` when the process ends in an ASSERT or makes an access outside the
-- tables and the live objects; a loop that would run out of its rounds returns `none` too.
pub mod Matching
pub mod Requests
pub mod Inv
pub mod Steps
pub mod Changes
pub mod Index
pub mod Lookup
pub mod Cancel
pub mod Settle
pub mod Head
pub mod Level
pub mod Match
pub mod Add
pub mod Uncrossed
pub mod Start
pub mod Tests
use Prim.Native.Nat.{min}
use yquant_system.Base.{
  ℕ, zero, suc, ◌+◌, ◌-◌, ◌%◌, Bool, true, false, not, Option, none, some, List, [], ◌∷◌, ◌++◌,
  ◌==◌, ltb, leb, if◌then◌else◌, ◌>>=◌, assert, update, is_some,
}
use yquant_system.Base.Int.{ℤ, pos, leb_ℤ}
use yquant_system.Types.{
  Side, buy, sell, no_side, is_buy, max_num_clients, max_order_ids, add64, sub32,
}
use yquant_system.Messages.{ClientResponse, ClientResponseType, MarketUpdate, MarketUpdateType}
use yquant_system.MemPool.{load}
use yquant_system.MemPool
use yquant_system.PriceBand.{PriceBand, to_tick, to_price, is_valid}
use yquant_system.PriceLevels.{
  OrderNode, PriceLevels, Pool, LevelRef, add_order, apply_fill, remove_order, owns,
}
use yquant_system.PriceLevels

-- `OrderIdTable*` of a client: null until the client's first resting order.
abbrev pub OrderIdTable : Type 0
OrderIdTable = ℕ → Option ℕ

abbrev pub ClientOrderIdTable : Type 0
ClientOrderIdTable = ℕ → Option OrderIdTable

pub record BookCore : Type 0 where
  pub symbol_id : ℕ
  pub band : PriceBand
  pub client_responses : List ClientResponse
  pub market_updates : List MarketUpdate
  pub order_pool : Pool
  pub bids : PriceLevels
  pub asks : PriceLevels
  pub orders : ClientOrderIdTable
  pub next_market_order_id : ℕ

pub record TakerOrder : Type 0 where
  pub client_id : ℕ
  pub client_order_id : ℕ
  pub market_order_id : ℕ
  pub side : Side
  pub limit_tick : ℤ
  pub quantity : ℕ

-- The constructor. `debug` says whether the pool was built with its slot flags.
pub create : Bool → ℕ → PriceBand → Option BookCore
create debug symbol_id band = assert (is_valid band) (do
  bids ← PriceLevels.create buy
  asks ← PriceLevels.create sell
  some (record {
    symbol_id = symbol_id;
    band = band;
    client_responses = [];
    market_updates = [];
    order_pool = MemPool.create debug max_order_ids;
    bids = bids;
    asks = asks;
    orders = λ _. none;
    next_market_order_id = 1;
  }))

pub send_client_response : ClientResponse → BookCore → BookCore
send_client_response r b = record b { client_responses = b.client_responses ++ r ∷ [] }

pub send_market_update : MarketUpdate → BookCore → BookCore
send_market_update u b = record b { market_updates = b.market_updates ++ u ∷ [] }

-- The levels of the buy side (true) or of the sell side, and the book with the pool and those
-- levels replaced.
abbrev pub at_side : Bool → BookCore → PriceLevels
at_side k b = if k then b.bids else b.asks

abbrev pub set_side : Bool → Pool → PriceLevels → BookCore → BookCore
set_side k p l b = record b {
  order_pool = p;
  bids = if k then l else b.bids;
  asks = if k then b.asks else l;
}

-- `Levels` and `OppositeLevels`.
abbrev pub levels_of : Side → BookCore → PriceLevels
levels_of side = at_side (is_buy side)

abbrev pub opposite_levels : Side → BookCore → PriceLevels
opposite_levels side = at_side (not (is_buy side))

abbrev pub with_levels : Side → Pool → PriceLevels → BookCore → BookCore
with_levels side = set_side (is_buy side)

abbrev pub with_opposite : Side → Pool → PriceLevels → BookCore → BookCore
with_opposite side = set_side (not (is_buy side))

-- The index of resting orders. An id outside its array is an access out of range.
pub find_order : ℕ → ℕ → BookCore → Option (Option ℕ)
find_order client_id client_order_id b =
    assert (ltb client_id max_num_clients) (elim (b.orders client_id) [
      | none ↦ some none
      | some table ↦ assert (ltb client_order_id max_order_ids) (some (table client_order_id))
    ])

abbrev pub table_or_new : Option OrderIdTable → OrderIdTable
table_or_new none = λ _. none
table_or_new (some table) = table

pub index_order : ℕ → ℕ → ℕ → BookCore → Option BookCore
index_order client_id client_order_id order b = assert (ltb client_id max_num_clients) (
    assert (ltb client_order_id max_order_ids) (
      some (record b {
        orders =
            update b.orders client_id
              (some (update (table_or_new (b.orders client_id)) client_order_id (some order)));
      })))

pub unindex_order : ℕ → ℕ → BookCore → Option BookCore
unindex_order client_id client_order_id b =
    assert (ltb client_id max_num_clients) (elim (b.orders client_id) [
      | none ↦ some b
      | some table ↦ assert (ltb client_order_id max_order_ids) (
          some (record b {
            orders = update b.orders client_id (some (update table client_order_id none));
          }))
    ])

pub response :
    ClientResponseType
    → (client_id symbol_id client_order_id market_order_id : ℕ) → Side
    → ℤ
    → (executed remaining : ℕ) → ClientResponse
response type client_id symbol_id client_order_id market_order_id side price executed remaining =
    record {
      type = type;
      client_id = client_id;
      symbol_id = symbol_id;
      client_order_id = client_order_id;
      market_order_id = market_order_id;
      side = side;
      price = price;
      executed_quantity = executed;
      remaining_quantity = remaining;
    }

pub market_update :
    MarketUpdateType → (symbol_id order_id : ℕ) → Side → ℤ → (quantity priority : ℕ) → MarketUpdate
market_update type symbol_id order_id side price quantity priority = record {
  type = type;
  symbol_id = symbol_id;
  order_id = order_id;
  side = side;
  price = price;
  quantity = quantity;
  priority = priority;
}
