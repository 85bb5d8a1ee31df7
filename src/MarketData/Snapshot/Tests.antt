-- ===== src/MarketData/Snapshot/Tests.antt =====
-- exchange/market_data: the theorems on the updates of a small book.
use yquant_system.Base.{ℕ, List, [], ◌∷◌, refl, arith}
use yquant_system.Base.Int.{pos}
use yquant_system.Types.{buy}
use yquant_system.Messages.{MarketUpdateType, MarketUpdate}
use yquant_system.MarketData.Snapshot.Accept.{SnapshotAgrees, snapshot-agrees}

abbrev order_of : MarketUpdateType → ℕ → ℕ → MarketUpdate
order_of type id quantity = record {
  type = type;
  symbol_id = 1;
  order_id = id;
  side = buy;
  price = pos 100;
  quantity = quantity;
  priority = 1;
}

-- Two orders, of which the first is traded in part and the second cancelled.
abbrev updates : List MarketUpdate
updates =
    order_of MarketUpdateType.add 1 7
    ∷ order_of MarketUpdateType.add 2 5
    ∷ order_of MarketUpdateType.trade 1 3
    ∷ order_of MarketUpdateType.modify 1 4
    ∷ order_of MarketUpdateType.cancel 2 0
    ∷ []

snapshot-agrees_example : SnapshotAgrees updates
snapshot-agrees_example = snapshot-agrees updates (
  ((omega arith, omega arith), refl, omega arith),
  (
    ((omega arith, omega arith), refl, omega arith),
    (
      omega arith,
      (
        ((omega arith, omega arith), (order_of MarketUpdateType.add 1 7, refl, refl)),
        (((omega arith, omega arith), (order_of MarketUpdateType.add 2 5, refl, refl)), tt),
      ),
    ),
  ),
)
