-- ===== src/BookCore/Matching.antt =====
-- exchange/matcher/book_core.cc: Match, which lets an incoming order trade with the other side.
use Prim.Native.Nat.{min}
use yquant_system.Base.{
  ℕ, zero, suc, Bool, true, false, Option, none, some, ◌==◌, if◌then◌else◌, ◌>>=◌,
}
use yquant_system.Base.Int.{ℤ, pos, leb_ℤ}
use yquant_system.Types.{Side, is_buy, sub32}
use yquant_system.Messages.{ClientResponseType, MarketUpdateType}
use yquant_system.MemPool.{load}
use yquant_system.PriceBand.{to_price}
use yquant_system.PriceLevels.{OrderNode, apply_fill, remove_order}
use yquant_system.BookCore.{
  BookCore, TakerOrder, send_client_response, send_market_update, opposite_levels, with_opposite,
  unindex_order, response, market_update,
}

-- The messages of one fill: to the taker, to the maker, and the trade.
unfoldable pub report_fill : TakerOrder → OrderNode → Side → ℤ → ℕ → BookCore → BookCore
report_fill taker maker maker_side price executed b =
    let b1 =
      send_client_response
        (response ClientResponseType.filled taker.client_id b.symbol_id taker.client_order_id
          taker.market_order_id taker.side price executed taker.quantity)
        b in
    let b2 =
      send_client_response
        (response ClientResponseType.filled maker.client_id b.symbol_id maker.client_order_id
          maker.market_order_id maker_side price executed maker.remaining_quantity)
        b1 in
    send_market_update
      (market_update MarketUpdateType.trade b.symbol_id maker.market_order_id maker_side price
        executed 0)
      b2

-- What follows a fill: the maker leaves the book when nothing remains of it, or its new quantity is
-- published.
unfoldable pub settle_maker : Side → ℕ → OrderNode → Side → ℤ → BookCore → Option BookCore
settle_maker taker_side order maker maker_side price b =
    if maker.remaining_quantity == 0
    then (do
      let b1 =
          send_market_update
            (market_update MarketUpdateType.cancel b.symbol_id maker.market_order_id maker_side
              price 0 0)
            b
      b2 ← unindex_order maker.client_id maker.client_order_id b1
      (p, l) ← remove_order b2.order_pool (opposite_levels taker_side b2) order
      some (with_opposite taker_side p l b2))
    else some (
        send_market_update
          (market_update MarketUpdateType.modify b.symbol_id maker.market_order_id maker_side price
            maker.remaining_quantity maker.priority)
          b)

-- One round of the inner loop: a fill between the taker and `order`, the head of the level.
unfoldable pub fill_head : ℕ → ℤ → TakerOrder → BookCore → Option (TakerOrder × BookCore)
fill_head order price taker b = do
  maker ← load order b.order_pool
  let executed = min taker.quantity maker.remaining_quantity
  let taker1 = record taker { quantity = sub32 taker.quantity executed }
  (p, l) ← apply_fill b.order_pool (opposite_levels taker.side b) order executed
  let b1 = with_opposite taker.side p l b
  maker1 ← load order b1.order_pool
  let maker_side = (opposite_levels taker.side b1).side
  let b2 = report_fill taker1 maker1 maker_side price executed b1
  b3 ← settle_maker taker.side order maker1 maker_side price b2
  some (taker1, b3)

-- The inner loop, at one level, with a bound on its rounds.
unfoldable pub fill_level : ℕ → ℕ → ℤ → TakerOrder → BookCore → Option (TakerOrder × BookCore)
fill_level zero tick price taker b = none
fill_level (suc rounds) tick price taker b = elim (taker.quantity == 0) [
  | true ↦ some (taker, b)
  | false ↦ elim ((opposite_levels taker.side b).levels tick).first_order [
    | none ↦ some (taker, b)
    | some order ↦ elim (fill_head order price taker b) [
      | none ↦ none
      | some (taker1, b1) ↦ fill_level rounds tick price taker1 b1
    ]
  ]
]

abbrev pub crosses : Side → ℕ → ℤ → Bool
crosses side maker_tick limit_tick =
    if is_buy side then leb_ℤ (pos maker_tick) limit_tick else leb_ℤ limit_tick (pos maker_tick)

-- The outer loop, with a bound on its rounds.
unfoldable pub match_loop : ℕ → TakerOrder → BookCore → Option (TakerOrder × BookCore)
match_loop zero taker b = none
match_loop (suc rounds) taker b = elim (taker.quantity == 0) [
  | true ↦ some (taker, b)
  | false ↦ elim (opposite_levels taker.side b).best_tick [
    | none ↦ some (taker, b)
    | some tick ↦ elim (crosses taker.side tick taker.limit_tick) [
      | false ↦ some (taker, b)
      | true ↦ elim (fill_level (suc taker.quantity) tick (to_price b.band (pos tick)) taker b) [
        | none ↦ none
        | some (taker1, b1) ↦ match_loop rounds taker1 b1
      ]
    ]
  ]
]

-- Each round of either loop takes at least one unit from the taker, so its quantity bounds the
-- rounds.
unfoldable pub match_order : TakerOrder → BookCore → Option (TakerOrder × BookCore)
match_order taker b = match_loop (suc taker.quantity) taker b
