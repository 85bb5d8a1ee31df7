-- ===== src/Strategies/Tests.antt =====
-- trading/strategy: a round of a trade engine with the market maker.
use yquant_system.Base.{
  ℕ, ◌≡◌, true, false, Option, none, some, refl, arith, inl, [], ◌∷◌, if◌then◌else◌, ◌==◌,
}
use yquant_system.Base.Int.{pos, ◌+ℤ◌, ◌-ℤ◌}
use yquant_system.Types.{buy, Side, sell}
use yquant_system.Messages.{MarketUpdateType, MarketUpdate, ClientResponseType, ClientResponse}
use yquant_system.PriceBand.{to_tick, to_int32, residue32, div_trunc}
use yquant_system.ClientOrders
use yquant_system.ClientOrders.{
  RiskCfg, TradeEngine, move_order, move_orders, new_order, on_grid, check_pre_trade_risk, OmOrder,
  OmOrderState, no_order, engine_on_order_update, on_order_update, apply_response, add_fill,
  cancel_order,
}
use yquant_system.ClientOrders.Fills.{EngineWithin}
use yquant_system.MarketOrderBook
use yquant_system.MarketOrderBook.{
  Bbo, price_to_index, link_alone, link_on_side, add_orders_at_price,
}
use yquant_system.Strategies.{TradeEngineCfg, maker_on_order_book_update}
use yquant_system.Strategies.Limits.{max_of}
use yquant_system.MemPool
use yquant_system.MemPool.{allocate, take_block, mark_slot, load, modify}
use yquant_system.MarketOrderBook.Updates.{
  open_level, queue_order, add_order, add_quantities, best_quote, update_bid, update_ask,
  update_bbo, bid_updated, ask_updated, add_update, publish_change, on_update_of, on_market_update,
}
use yquant_system.Strategies.Loop.{
  EngineState, Judgement, maker, run_once, process_responses, process_updates, process_update,
}
use yquant_system.Strategies.Round.{run_once-EngineWithin}

abbrev ticker_cfg : ℕ → TradeEngineCfg
ticker_cfg symbol = record {
  clip = 7;
  risk_cfg = record { max_order_size = 10; max_position = 20 };
}

abbrev bid_order : OmOrder
bid_order = record {
  ticker_id = 1;
  order_id = 1;
  side = buy;
  price = pos 100;
  qty = 7;
  order_state = OmOrderState.live;
}

-- An engine with an open bid, and books with nothing in them.
abbrev start : EngineState
start = record {
  trade_engine = record {
    position = λ _. pos 0;
    order_manager = record (yquant_system.ClientOrders.create 4) {
      ticker_side_order =
          λ symbol. record { bid = if symbol == 1 then bid_order else no_order; ask = no_order };
      next_order_id = 2;
    };
  };
  ticker_order_book = λ _. yquant_system.MarketOrderBook.create true;
  stopping = false;
}

start-EngineWithin : EngineWithin (max_of ticker_cfg) start.trade_engine
start-EngineWithin symbol = ground arith

abbrev fill : ClientResponse
fill = record {
  type = ClientResponseType.filled;
  client_id = 4;
  symbol_id = 1;
  client_order_id = 1;
  market_order_id = 9;
  side = buy;
  price = pos 100;
  executed_quantity = 3;
  remaining_quantity = 4;
}

abbrev add_of : ℕ → Side → ℕ → MarketUpdate
add_of id side price = record {
  type = MarketUpdateType.add;
  symbol_id = 1;
  order_id = id;
  side = side;
  price = pos price;
  quantity = 5;
  priority = 1;
}

abbrev judgement : Judgement
judgement = record {
  loss = false;
  finite = true;
  bid_far = true;
  ask_far = false;
  aggressive = false;
}

-- A fill of the bid, and then an offer and a bid in the market.
abbrev ran : Option EngineState
ran =
    run_once maker ticker_cfg (fill ∷ [])
      ((judgement, add_of 7 sell 103) ∷ (judgement, add_of 8 buy 101) ∷ []) start

abbrev the_state : Option EngineState → EngineState
the_state none = start
the_state (some s) = s

ran-the : ran ≡ some (the_state ran)
unfolding run_once process_responses process_updates process_update engine_on_order_update
    on_order_update apply_response add_fill cancel_order maker_on_order_book_update move_orders
    move_order new_order on_grid check_pre_trade_risk to_tick to_int32 residue32 div_trunc ◌+ℤ◌ ◌-ℤ◌
    yquant_system.MarketOrderBook.create price_to_index link_alone link_on_side add_orders_at_price
    open_level queue_order add_order add_quantities best_quote update_bid update_ask update_bbo
    bid_updated ask_updated add_update publish_change on_update_of on_market_update allocate
    take_block mark_slot load modify yquant_system.MemPool.create
ran-the = refl

run_once-EngineWithin_example : EngineWithin (max_of ticker_cfg) (the_state ran).trade_engine
run_once-EngineWithin_example =
    run_once-EngineWithin maker ticker_cfg (fill ∷ [])
      ((judgement, add_of 7 sell 103) ∷ (judgement, add_of 8 buy 101) ∷ []) start (the_state ran)
      (omega arith, inl (refl, refl, refl, refl), λ e h. tt) start-EngineWithin ran-the
