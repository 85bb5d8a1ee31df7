-- ===== src/MarketOrderBook/Tests.antt =====
-- The client's book with one order, 5 at the price 100, and updates of it.
use yquant_system.Base.{ℕ, true, false, some, none, List, [], ◌∷◌, refl, arith, update, inr}
use yquant_system.Base.Int.{pos}
use yquant_system.Types.{buy}
use yquant_system.Messages.{MarketUpdateType, MarketUpdate}
use yquant_system.MemPool.{MemPool, raw, object}
use yquant_system.MemPool.Inv.{IsValid}
use yquant_system.MarketOrderBook.{MarketOrderBook, price_to_index}
use yquant_system.MarketOrderBook.Updates.{on_market_update}
use yquant_system.MarketOrderBook.Levels.{Level}
use yquant_system.MarketOrderBook.Circle.{level_node}
use yquant_system.MarketOrderBook.Orders.{Item, order_node}
use yquant_system.MarketOrderBook.Queues.{PriceQueue, SideInv}
use yquant_system.MarketOrderBook.Best.{Published, PublishedAs}
use yquant_system.MarketOrderBook.Cleared.{Cleared}
use yquant_system.MarketOrderBook.Apply.{AddedTo, item_of, on_market_update-Added}
use yquant_system.MarketOrderBook.Withdraw.{on_market_update-Canceled}
use yquant_system.MarketOrderBook.Change.{with_quantity, on_market_update-Modified}

-- A pool with one object.
abbrev pool_with : {A : Type 0} → A → MemPool A
pool_with a = record {
  debug = true;
  capacity = 4;
  next_unused = 1;
  free_head = none;
  in_use = 1;
  slot = update (λ _. raw) 0 (object a);
  in_use_flags = update (λ _. false) 0 true;
}

pool_with-IsValid : {A : Type 0} (a : A) → IsValid (pool_with a)
pool_with-IsValid a = (
  [],
  record {
    head = refl;
    chain = tt;
    distinct = tt;
    below = tt;
    within = omega arith;
    counted = omega arith;
    live = λ i. ground arith;
    flags = λ _ i. ground arith;
  },
)

abbrev order : Item
order = record { ptr = 0; order_id = 1; side = buy; price = pos 100; qty = 5; priority = 1 }

abbrev level : Level
level = record { ptr = 0; price = pos 100; first = some 0 }

abbrev queue : PriceQueue
queue = record { level = level; orders = order ∷ [] }

abbrev book : MarketOrderBook
book = record {
  oid_to_order = update (λ _. none) 1 (some 0);
  orders_at_price_pool = pool_with (level_node buy (some 0) (some 0) level);
  bids_by_price = some 0;
  asks_by_price = none;
  price_orders_at_price = update (λ _. none) (price_to_index (pos 100)) (some 0);
  order_pool = pool_with (order_node (some 0) (some 0) order);
  bbo = record { bid_price = pos 100; ask_price = pos 0; bid_qty = 5; ask_qty = 0 };
}

book-SideInv : SideInv buy book (queue ∷ [])
unfolding price_to_index
book-SideInv = record {
  levels_valid = pool_with-IsValid _;
  orders_valid = pool_with-IsValid _;
  ring = (refl, tt);
  best = refl;
  sorted = (tt, tt);
  distinct_levels = (refl, tt);
  distinct_orders = (refl, tt);
  queues = (
    record {
      ring = (refl, tt);
      first = refl;
      filled = refl;
      orders = ((refl, refl, omega arith, omega arith, refl), tt);
      listed = refl;
    },
    tt,
  );
}

abbrev update_of : MarketUpdateType → ℕ → ℕ → MarketUpdate
update_of type id quantity = record {
  type = type;
  symbol_id = 0;
  order_id = id;
  side = buy;
  price = pos 100;
  quantity = quantity;
  priority = 2;
}

abbrev second : MarketUpdate
second = update_of MarketUpdateType.add 2 7

on_market_update-Added_example :
    (i : ℕ) × (qs' : List PriceQueue) × AddedTo buy (item_of second i) (queue ∷ []) qs'
    × Published (on_market_update second book) buy qs'
on_market_update-Added_example =
    on_market_update-Added buy second book (queue ∷ []) refl refl book-SideInv (refl, refl) refl
      (omega arith) (omega arith) refl (omega arith) (omega arith)
      (inr ([], level, order, [], [], refl, refl))

on_market_update-Canceled_example :
    PublishedAs
      (on_market_update (update_of MarketUpdateType.cancel 1 0) book)
      buy
      []
      (Cleared book level order [])
on_market_update-Canceled_example =
    on_market_update-Canceled buy (update_of MarketUpdateType.cancel 1 0) book [] level [] order []
      [] refl refl book-SideInv (refl, refl) refl refl refl

on_market_update-Modified_example :
    Published
      (on_market_update (update_of MarketUpdateType.modify 1 3) book)
      buy
      (record { level = level; orders = with_quantity 3 order ∷ [] } ∷ [])
on_market_update-Modified_example =
    on_market_update-Modified buy (update_of MarketUpdateType.modify 1 3) book [] level [] order []
      [] refl refl book-SideInv (refl, refl) refl refl refl (omega arith)
