-- ===== src/MatchingEngine/Tests.antt =====
-- exchange/matcher/matching_engine.cc: the theorems on the engine at its first requests.
use yquant_system.Base.{ℕ, ◌≡◌, true, [], arith, refl}
use yquant_system.Base.Int.{pos, ◌-ℤ◌}
use yquant_system.Types.{buy, max_order_ids}
use yquant_system.Messages.{ClientRequestType, MatchingEngineClientRequest}
use yquant_system.MemPool.Inv.{create_has_room}
use yquant_system.PriceBand.{default_band, to_tick, to_int32, residue32, div_trunc}
use yquant_system.PriceLevels.{OrderNode}
use yquant_system.BookCore.Inv.{BookQueues}
use yquant_system.BookCore.Start.{new_book, no_queues, new_book-BookInv, no_queues-Resting}
use yquant_system.MatchingEngine.{MatchingEngine}
use yquant_system.MatchingEngine.Serve.{
  EngineInv, Served, process_new-Served, process_canceled-Served,
}

abbrev engine : MatchingEngine
engine = record {
  symbol_order_book = λ symbol. new_book true symbol default_band;
  outgoing_responses = [];
  outgoing_updates = [];
}

abbrev no_orders_yet : ℕ → BookQueues
no_orders_yet symbol = no_queues

engine-EngineInv : EngineInv engine no_orders_yet
engine-EngineInv symbol h = (new_book-BookInv true symbol default_band, no_queues-Resting)

abbrev buy_seven : MatchingEngineClientRequest
buy_seven = record {
  type = ClientRequestType.new;
  client_id = 2;
  symbol_id = 3;
  order_id = 20;
  side = buy;
  price = pos 100;
  quantity = 7;
}

abbrev cancel_it : MatchingEngineClientRequest
cancel_it = record buy_seven { type = ClientRequestType.canceled }

tick_100 : to_tick default_band (pos 100) ≡ pos 100
unfolding to_tick to_int32 residue32 div_trunc ◌-ℤ◌
tick_100 = refl

process_new-Served_example : Served buy_seven engine no_orders_yet
process_new-Served_example =
    process_new-Served buy_seven engine no_orders_yet 100 engine-EngineInv refl (omega arith)
      (omega arith) (omega arith) (omega arith) tick_100 (omega arith)
      (create_has_room OrderNode true max_order_ids (omega arith))

process_canceled-Served_example : Served cancel_it engine no_orders_yet
process_canceled-Served_example =
    process_canceled-Served cancel_it engine no_orders_yet engine-EngineInv refl (omega arith)
      (omega arith) (omega arith)
