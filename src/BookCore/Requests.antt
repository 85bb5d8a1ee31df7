-- ===== src/BookCore/Requests.antt =====
-- exchange/matcher/book_core.cc: Add and Cancel, the calls of the matching engine.
use yquant_system.Base.{ℕ, Option, none, some, ltb, if◌then◌else◌, ◌>>=◌}
use yquant_system.Base.Int.{ℤ, pos}
use yquant_system.Types.{Side, buy, sell, no_side, add64}
use yquant_system.Messages.{ClientResponseType, MarketUpdateType}
use yquant_system.MemPool.{load}
use yquant_system.PriceBand.{to_tick, to_price}
use yquant_system.PriceLevels.{LevelRef, add_order, remove_order, owns}
use yquant_system.BookCore.{
  BookCore, TakerOrder, send_client_response, send_market_update, levels_of, with_levels,
  find_order, index_order, unindex_order, response, market_update,
}
use yquant_system.BookCore.Matching.{match_order}

-- What is left of the order rests in the book.
unfoldable pub rest : ℕ → ℕ → Side → ℤ → ℤ → ℕ → ℕ → BookCore → Option BookCore
rest client_id client_order_id side limit_tick price market_order_id remaining b = do
  (order, p, l) ←
      add_order b.order_pool (levels_of side b) limit_tick client_id client_order_id market_order_id
        remaining
  b1 ← index_order client_id client_order_id order (with_levels side p l b)
  node ← load order b1.order_pool
  some (
      send_market_update
        (market_update MarketUpdateType.add b.symbol_id market_order_id side price remaining
          node.priority)
        b1)

abbrev pub taker_of : ℕ → ℕ → Side → ℤ → ℕ → BookCore → TakerOrder
taker_of client_id client_order_id side price quantity b = record {
  client_id = client_id;
  client_order_id = client_order_id;
  market_order_id = b.next_market_order_id;
  side = side;
  limit_tick = to_tick b.band price;
  quantity = quantity;
}

-- The book after the new order was numbered and accepted.
unfoldable pub accept : ℕ → ℕ → Side → ℤ → ℕ → BookCore → BookCore
accept client_id client_order_id side price quantity b =
    send_client_response
      (response ClientResponseType.accepted client_id b.symbol_id client_order_id
        b.next_market_order_id side price 0 quantity)
      (record b { next_market_order_id = add64 b.next_market_order_id 1 })

unfoldable pub add : ℕ → ℕ → Side → ℤ → ℕ → BookCore → Option BookCore
add client_id client_order_id side price quantity b = do
  let taker = taker_of client_id client_order_id side price quantity b
  (taker1, b1) ← match_order taker (accept client_id client_order_id side price quantity b)
  if ltb 0 taker1.quantity
      then rest client_id client_order_id side taker.limit_tick price taker.market_order_id
          taker1.quantity b1
      else some b1

-- `bids_.Owns(level) ? BUY : SELL`
unfoldable pub side_of : BookCore → LevelRef → Side
side_of b ref = if owns b.bids ref then buy else sell

-- The cancel of the order in slot `order`.
unfoldable pub cancel_resting : ℕ → ℕ → ℕ → BookCore → Option BookCore
cancel_resting client_id client_order_id order b = do
  node ← load order b.order_pool
  ref ← node.level
  let side = side_of b ref
  let price = to_price b.band (pos ref.index)
  let b1 =
      send_client_response
        (response ClientResponseType.canceled client_id b.symbol_id client_order_id
          node.market_order_id side price 0 node.remaining_quantity)
        b
  let b2 =
      send_market_update
        (market_update MarketUpdateType.cancel b.symbol_id node.market_order_id side price 0 0) b1
  b3 ← unindex_order client_id client_order_id b2
  (p, l) ← remove_order b3.order_pool (levels_of side b3) order
  some (with_levels side p l b3)

unfoldable pub cancel : ℕ → ℕ → BookCore → Option BookCore
cancel client_id client_order_id b = do
  found ← find_order client_id client_order_id b
  elim found [
    | none ↦ some (
        send_client_response
          (response ClientResponseType.cancel_rejected client_id b.symbol_id client_order_id 0
            no_side (pos 0) 0 0)
          b)
    | some order ↦ cancel_resting client_id client_order_id order b
  ]
