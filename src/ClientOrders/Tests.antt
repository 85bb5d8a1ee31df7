-- ===== src/ClientOrders/Tests.antt =====
-- trading/strategy: the theorems on a client that quotes one symbol and is filled.
use yquant_system.Base.{◌≡◌, false, Option, none, some, refl, arith, inl, ◌==◌, if◌then◌else◌}
use yquant_system.Base.Int.{pos, ◌+ℤ◌, ◌-ℤ◌}
use yquant_system.Types.{buy}
use yquant_system.Messages.{ClientResponseType, ClientResponse}
use yquant_system.PriceBand.{to_tick, to_int32, residue32, div_trunc}
use yquant_system.ClientOrders.{
  OmOrderState, OmOrder, RiskCfg, OrderManager, create, no_order, move_order, move_orders,
  new_order, on_grid, check_pre_trade_risk, TradeEngine, engine_on_order_update, Sending,
}
use yquant_system.ClientOrders.Risk.{IsWithin, move_orders-IsWithin}
use yquant_system.ClientOrders.Fills.{EngineWithin, engine_on_order_update-EngineWithin}
use yquant_system.ClientOrders.Requests.{Allowed, move_order-Allowed}

abbrev cfg : RiskCfg
cfg = record { max_order_size = 10; max_position = 20 }

abbrev the : Option OrderManager → OrderManager
the none = create 4
the (some o) = o

-- Quotes of 7 at 100 and 102.
abbrev quoted : Option OrderManager
quoted = move_orders cfg (pos 0) false 1 (some (pos 100)) (some (pos 102)) 7 (create 4)

quoted-the : quoted ≡ some (the quoted)
unfolding move_orders move_order new_order on_grid check_pre_trade_risk to_tick to_int32 residue32
    div_trunc ◌+ℤ◌ ◌-ℤ◌
quoted-the = refl

move_orders-IsWithin_example : IsWithin 20 (pos 0) ((the quoted).ticker_side_order 1)
move_orders-IsWithin_example =
    move_orders-IsWithin cfg (pos 0) false 1 (some (pos 100)) (some (pos 102)) 7 (create 4)
      (the quoted) (omega arith, omega arith) quoted-the

abbrev bid_order : OmOrder
bid_order = record {
  ticker_id = 1;
  order_id = 1;
  side = buy;
  price = pos 100;
  qty = 7;
  order_state = OmOrderState.live;
}

abbrev engine : TradeEngine
engine = record {
  position = λ _. pos 0;
  order_manager = record (create 4) {
    ticker_side_order =
        λ symbol. record { bid = if symbol == 1 then bid_order else no_order; ask = no_order };
    next_order_id = 2;
  };
}

abbrev fill : ClientResponse
fill = record {
  type = ClientResponseType.filled;
  client_id = 4;
  symbol_id = 1;
  client_order_id = 1;
  market_order_id = 9;
  side = buy;
  price = pos 100;
  executed_quantity = 3;
  remaining_quantity = 4;
}

engine-EngineWithin : EngineWithin (λ _. 20) engine
engine-EngineWithin symbol = ground arith

engine_on_order_update-EngineWithin_example :
    (e : TradeEngine) × (engine_on_order_update fill engine ≡ some e) × EngineWithin (λ _. 20) e
engine_on_order_update-EngineWithin_example =
    engine_on_order_update-EngineWithin (λ _. 20) fill engine (omega arith)
      (inl (refl, refl, refl, refl)) engine-EngineWithin

abbrev sent : Option Sending
sent = move_order cfg (pos 0) false no_order 1 (some (pos 100)) buy 7 (create 4)

abbrev the_sent : Option Sending → Sending
the_sent none = (no_order, create 4)
the_sent (some p) = p

sent-the : sent ≡ some (the_sent sent)
unfolding move_order new_order on_grid check_pre_trade_risk to_tick to_int32 residue32 div_trunc
    ◌+ℤ◌ ◌-ℤ◌
sent-the = refl

move_order-Allowed_example : Allowed cfg 1 buy 7 no_order (create 4) (the_sent sent)
move_order-Allowed_example =
    move_order-Allowed cfg (pos 0) false no_order 1 buy 7 (create 4) (the_sent sent)
      (some (pos 100)) sent-the
