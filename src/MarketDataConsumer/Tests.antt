-- ===== src/MarketDataConsumer/Tests.antt =====
-- trading/market_data/market_data_consumer.cpp: the theorem on a client that lost two increments.
use yquant_system.Base.{ℕ, ◌<◌, false, List, [], ◌∷◌, refl, true, arith}
use yquant_system.Base.Int.{pos}
use yquant_system.Types.{buy, max_symbols, max_order_ids}
use yquant_system.Messages.{MarketUpdateType, MarketUpdate}
use yquant_system.MarketDataConsumer.{MarketDataConsumer, create, recv_update, check_snapshot_sync}
use yquant_system.MarketDataConsumer.Complete.{keyed, Recovered, check_snapshot_sync-Recovered}
use yquant_system.MarketDataConsumer.Sync.{Consistent, create-Consistent, recv_update-Consistent}

abbrev update_of : MarketUpdateType → ℕ → MarketUpdate
update_of type id = record {
  type = type;
  symbol_id = 1;
  order_id = id;
  side = buy;
  price = pos 100;
  quantity = 7;
  priority = 1;
}

abbrev increments : List MarketUpdate
increments =
    update_of MarketUpdateType.add 1
    ∷ update_of MarketUpdateType.add 2
    ∷ update_of MarketUpdateType.cancel 1
    ∷ []

abbrev InTable : ℕ → ℕ → Type 0
InTable symbol id = (symbol < max_symbols) × (id < max_order_ids)

-- The first message is the third increment: a gap, and the start of a recovery.
recv_update-Consistent_example :
    Consistent InTable increments (recv_update false 3 (update_of MarketUpdateType.cancel 1) create)
recv_update-Consistent_example =
    recv_update-Consistent InTable increments false 3 (update_of MarketUpdateType.cancel 1) create
      (create-Consistent InTable increments) (2, refl, refl)

abbrev start_of : ℕ → MarketUpdate
start_of m = record (update_of MarketUpdateType.snapshot_start m) { symbol_id = 0 }

abbrev end_of : ℕ → MarketUpdate
end_of m = record (update_of MarketUpdateType.snapshot_end m) { symbol_id = 0 }

-- In recovery, with a snapshot of increment 1 and the increments 1 to 3 queued.
abbrev recovering : MarketDataConsumer
recovering = record create {
  in_recovery = true;
  snapshot_joined = true;
  snapshot_queued_msgs = keyed 0 (start_of 1 ∷ update_of MarketUpdateType.add 1 ∷ end_of 1 ∷ []);
  incremental_queued_msgs = keyed 1 increments;
}

abbrev later : List MarketUpdate
later = update_of MarketUpdateType.add 2 ∷ update_of MarketUpdateType.cancel 1 ∷ []

check_snapshot_sync-Recovered_example :
    Recovered 1
      (start_of 1 ∷ update_of MarketUpdateType.add 1 ∷ end_of 1 ∷ [])
      later
      recovering
      (check_snapshot_sync recovering)
check_snapshot_sync-Recovered_example =
    check_snapshot_sync-Recovered recovering (start_of 1) (end_of 1)
      (update_of MarketUpdateType.add 1 ∷ []) later ((1, update_of MarketUpdateType.add 1) ∷ [])
      refl refl refl refl (omega arith, tt) refl
