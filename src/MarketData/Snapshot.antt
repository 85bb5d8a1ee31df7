-- ===== src/MarketData/Snapshot.antt =====
-- exchange/market_data/snapshot_synthesizer.cc and snapshot_synthesizer.h: the table of live orders
-- and the snapshots that are made of it.
--
-- An order of the table stands in its place itself, for the pointer to an object of the pool: the
-- table is the only holder of these pointers, and of the pool only the number of objects matters
-- (MemPool). `snapshots` records what was given to the multicast socket. `none` is a run that ends
-- in FATAL or ASSERT, or with the exception of `at` out of range.
pub mod Table
pub mod Accept
pub mod Stream
pub mod Replay
pub mod Tests
use yquant_system.Base.{
  ℕ, zero, suc, ◌+◌, ◌-◌, Bool, true, false, Option, none, some, List, [], ◌∷◌, ◌++◌, ltb, ◌==◌,
  ◌>>=◌, assert, update, ◌&&◌,
}
use yquant_system.Base.Int.{pos}
use yquant_system.Types.{Side, buy, sell, no_side, max_symbols, max_order_ids}
use yquant_system.Messages.{MarketUpdateType, MarketUpdate}
use yquant_system.MarketData.{MarketDataPublisherMarketUpdate}

abbrev pub OrderTable : Type 0
OrderTable = ℕ → ℕ → Option MarketUpdate

pub record SnapshotSynthesizer : Type 0 where
  pub symbol_orders : OrderTable
  pub last_inc_seq_num : ℕ
  pub order_pool_in_use : ℕ
  pub snapshots : List MarketDataPublisherMarketUpdate

unfoldable pub create : SnapshotSynthesizer
create = record {
  symbol_orders = λ _ _. none;
  last_inc_seq_num = 0;
  order_pool_in_use = 0;
  snapshots = [];
}

abbrev pub same_side : Side → Side → Bool
same_side buy buy = true
same_side sell sell = true
same_side no_side no_side = true
same_side _ _ = false

abbrev pub put : ℕ → ℕ → Option MarketUpdate → OrderTable → OrderTable
put symbol id o orders = update orders symbol (update (orders symbol) id o)

-- The order that a MODIFY or a CANCEL is about.
abbrev pub existing : MarketUpdate → OrderTable → Option MarketUpdate
existing u orders = do
  order ← orders u.symbol_id u.order_id
  assert (order.order_id == u.order_id) (assert (same_side order.side u.side) (some order))

abbrev pub absent : {A : Type 0} → Option MarketUpdate → Option A → Option A
absent none k = k
absent (some order) k = none

unfoldable pub apply_to_orders :
    MarketUpdateType → MarketUpdate → SnapshotSynthesizer → Option SnapshotSynthesizer
apply_to_orders MarketUpdateType.add u s = assert (ltb u.order_id max_order_ids) (
    absent (s.symbol_orders u.symbol_id u.order_id) (
      assert (ltb s.order_pool_in_use max_order_ids) (
        some (record s {
          symbol_orders = put u.symbol_id u.order_id (some u) s.symbol_orders;
          order_pool_in_use = s.order_pool_in_use + 1;
        }))))
apply_to_orders MarketUpdateType.modify u s = assert (ltb u.order_id max_order_ids) (do
  order ← existing u s.symbol_orders
  some (record s {
    symbol_orders =
        put u.symbol_id u.order_id (some (record order { quantity = u.quantity; price = u.price }))
          s.symbol_orders;
  }))
apply_to_orders MarketUpdateType.cancel u s = assert (ltb u.order_id max_order_ids) (do
  order ← existing u s.symbol_orders
  some (record s {
    symbol_orders = put u.symbol_id u.order_id none s.symbol_orders;
    order_pool_in_use = s.order_pool_in_use - 1;
  }))
apply_to_orders _ u s = some s

unfoldable pub add_to_snapshot :
    MarketDataPublisherMarketUpdate → SnapshotSynthesizer → Option SnapshotSynthesizer
add_to_snapshot m s = assert (ltb m.update.symbol_id max_symbols) (do
  s' ← apply_to_orders m.update.type m.update s
  assert (m.seq_num == s'.last_inc_seq_num + 1) (some (record s' { last_inc_seq_num = m.seq_num })))

-- The messages of a snapshot so far, and the number of the next one.
abbrev pub Cycle : Type 0
Cycle = ℕ × List MarketDataPublisherMarketUpdate

abbrev pub emit : MarketUpdate → Cycle → Cycle
emit u (n, out) = (suc n, out ++ record { seq_num = n; update = u } ∷ [])

abbrev pub plain : MarketUpdateType → ℕ → ℕ → MarketUpdate
plain type symbol id = record {
  type = type;
  symbol_id = symbol;
  order_id = id;
  side = no_side;
  price = pos 0;
  quantity = 0;
  priority = 0;
}

abbrev pub emit_order : Option MarketUpdate → Cycle → Cycle
emit_order none c = c
emit_order (some order) c = emit order c

-- The next `n` order ids, from `id` on.
abbrev pub publish_orders : ℕ → ℕ → (ℕ → Option MarketUpdate) → Cycle → Cycle
publish_orders zero id orders c = c
publish_orders (suc n) id orders c = publish_orders n (suc id) orders (emit_order (orders id) c)

-- The next `n` symbols, from `symbol` on, with `ids` order ids each.
abbrev pub publish_symbols : ℕ → ℕ → ℕ → OrderTable → Cycle → Cycle
publish_symbols ids zero symbol orders c = c
publish_symbols ids (suc n) symbol orders c =
    publish_symbols ids n (suc symbol) orders
      (publish_orders ids 0 (orders symbol) (emit (plain MarketUpdateType.clear symbol 0) c))

abbrev pub snapshot_of : ℕ → ℕ → ℕ → OrderTable → List MarketDataPublisherMarketUpdate
snapshot_of ids symbols last orders =
    (emit (plain MarketUpdateType.snapshot_end 0 last) (
      publish_symbols ids symbols 0 orders
        (emit (plain MarketUpdateType.snapshot_start 0 last) (0, [])))).1

unfoldable pub publish_snapshot : SnapshotSynthesizer → SnapshotSynthesizer
publish_snapshot s = record s {
  snapshots =
      s.snapshots ++ snapshot_of max_order_ids max_symbols s.last_inc_seq_num s.symbol_orders;
}
