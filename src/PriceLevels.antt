-- ===== src/PriceLevels.antt =====
-- exchange/matcher/price_levels.h and price_levels.cc: one side of an order book.
--
-- An `OrderNode*` is the slot of the node in the order pool, which both sides share; a
-- `FifoLevel*` is the side and the index of the level in that side's array. `nullptr` and
-- `kInvalidTick` are `none`. Each method takes the pool and the side, and returns both; `none` is a
-- run that ends in a failed ASSERT or in an access through a pointer that holds no object.
pub mod Queue
pub mod Inv
pub mod Best
pub mod Orders
pub mod Append
pub mod Add
pub mod Fill
pub mod Unlink
pub mod Bridge
pub mod Vacate
pub mod Remove
pub mod Tests
use yquant_system.Base.{
  ℕ, ◌+◌, ◌-◌, ◌%◌, Bool, true, false, ◌&&◌, ◌||◌, Option, none, some, ◌==◌, ltb, leb,
  if◌then◌else◌, ◌>>=◌, assert, update, is_some,
}
use yquant_system.Base.Int.{ℤ, pos, pos_part, neg_part, leb_ℤ, ltb_ℤ}
use yquant_system.Types.{Side, buy, sell, no_side, is_buy, is_sell, add64, sub64, sub32}
use yquant_system.MemPool.{MemPool, allocate, deallocate, load, modify}
use yquant_system.Bitmap.{Bitmap, tick_count, mark_occupied, clear_occupied, find_best_tick}
use yquant_system.Bitmap

pub record LevelRef : Type 0 where
  pub side : Side
  pub index : ℕ

pub record OrderNode : Type 0 where
  pub next : Option ℕ
  pub prev : Option ℕ
  pub level : Option LevelRef
  pub market_order_id : ℕ
  pub client_order_id : ℕ
  pub priority : ℕ
  pub remaining_quantity : ℕ
  pub client_id : ℕ

pub record FifoLevel : Type 0 where
  pub first_order : Option ℕ
  pub last_order : Option ℕ
  pub next_priority : ℕ
  pub total_quantity : ℕ

pub record PriceLevels : Type 0 where
  pub side : Side
  pub best_tick : Option ℕ
  pub bitmap : Bitmap
  pub levels : ℕ → FifoLevel

abbrev pub Pool : Type 0
Pool = MemPool OrderNode

abbrev pub is_none {ℓ} : {A : Type ℓ} → Option A → Bool
is_none none = true
is_none (some _) = false

-- `FifoLevel::IsEmpty`
abbrev pub level_is_empty : FifoLevel → Bool
level_is_empty level = is_none level.first_order

abbrev pub empty_level : FifoLevel
empty_level = record {
  first_order = none;
  last_order = none;
  next_priority = 1;
  total_quantity = 0;
}

abbrev pub new_side : Side → PriceLevels
new_side side = record {
  side = side;
  best_tick = none;
  bitmap = Bitmap.empty;
  levels = λ _. empty_level;
}

-- The constructor; its ASSERT wants a side with a direction.
unfoldable pub create : Side → Option PriceLevels
create side = assert (is_buy side || is_sell side) (some (new_side side))

-- `PriceLevels::IsEmpty`
pub is_empty : PriceLevels → Bool
is_empty l = is_none l.best_tick

pub is_better : Side → ℕ → ℕ → Bool
is_better side candidate current =
    if is_buy side then ltb current candidate else ltb candidate current

-- `Owns`, for a pointer to a level: the array of this side holds the slot.
abbrev pub same_side : Side → Side → Bool
same_side buy buy = true
same_side buy sell = false
same_side buy no_side = false
same_side sell buy = false
same_side sell sell = true
same_side sell no_side = false
same_side no_side buy = false
same_side no_side sell = false
same_side no_side no_side = true

unfoldable pub owns : PriceLevels → LevelRef → Bool
owns l ref = same_side ref.side l.side && ltb ref.index tick_count

-- `tick >= 0 && tick < kTickCount`
abbrev pub in_grid : ℤ → Bool
in_grid tick = leb_ℤ (pos 0) tick && ltb_ℤ tick (pos tick_count)

-- `level.last_order->next = order`
set_next : Option ℕ → Option ℕ → Pool → Option Pool
set_next none order p = none
set_next (some last) order p = modify last (λ n. record n { next = order }) p

set_prev : Option ℕ → Option ℕ → Pool → Option Pool
set_prev none order p = none
set_prev (some next) order p = modify next (λ n. record n { prev = order }) p

-- `IsEmpty() || IsBetter(tick, best_tick_)`
pub improves : Side → Option ℕ → ℕ → Bool
improves side none tick = true
improves side (some best) tick = is_better side tick best

-- The occupancy and the cached best tick after a level that was empty got its first order.
pub occupy : PriceLevels → ℕ → PriceLevels
occupy l tick = record l {
  bitmap = mark_occupied l.bitmap tick;
  best_tick = if improves l.side l.best_tick tick then some tick else l.best_tick;
}

-- The node that `AddOrder` builds for level `t`.
pub new_node :
    PriceLevels → ℕ → (client_id client_order_id market_order_id quantity : ℕ) → OrderNode
new_node l t client_id client_order_id market_order_id quantity =
    let level = l.levels t in
    record {
      next = none;
      prev = level.last_order;
      level = some (record { side = l.side; index = t });
      market_order_id = market_order_id;
      client_order_id = client_order_id;
      priority = level.next_priority;
      remaining_quantity = quantity;
      client_id = client_id;
    }

-- The level once `order` stands at its tail.
pub append_to : FifoLevel → ℕ → ℕ → FifoLevel
append_to level order quantity = record {
  first_order = if level_is_empty level then some order else level.first_order;
  last_order = some order;
  next_priority = add64 level.next_priority 1;
  total_quantity = add64 level.total_quantity quantity;
}

pub add_order :
    Pool
    → PriceLevels
    → ℤ
    → (client_id client_order_id market_order_id quantity : ℕ) → Option (ℕ × Pool × PriceLevels)
add_order p l tick client_id client_order_id market_order_id quantity = assert (in_grid tick) (
    let t = pos_part tick in
    let level = l.levels t in
    do
      (order, p1) ← allocate (new_node l t client_id client_order_id market_order_id quantity) p
      p2 ← if level_is_empty level then some p1 else set_next level.last_order (some order) p1
      let l1 = record l { levels = update l.levels t (append_to level order quantity) }
      some (order, p2, if level_is_empty level then occupy l1 t else l1))

-- A pointer to a level is followed in this side's array; a level of another array is no level here.
pub level_of : PriceLevels → OrderNode → Option ℕ
level_of l n = elim n.level [ none ↦ none | some ref ↦ if owns l ref then some ref.index else none ]

pub apply_fill : Pool → PriceLevels → ℕ → ℕ → Option (Pool × PriceLevels)
apply_fill p l order quantity = do
  n ← load order p
  t ← level_of l n
  assert (leb quantity n.remaining_quantity) (do
    p1 ← modify order (λ o. record o { remaining_quantity = sub32 o.remaining_quantity quantity }) p
    let level = l.levels t
    some (
      p1,
      record l {
        levels =
            update l.levels t
              (record level { total_quantity = sub64 level.total_quantity quantity });
      },
    ))

-- `order->prev->next = order->next`, or the head of the level.
pub unlink_prev : Pool → FifoLevel → OrderNode → Option (Pool × FifoLevel)
unlink_prev p level n =
    if is_some n.prev
    then (do p1 ← set_next n.prev n.next p; some (p1, level))
    else some (p, record level { first_order = n.next })

-- `order->next->prev = order->prev`, or the tail of the level.
pub unlink_next : Pool → FifoLevel → OrderNode → Option (Pool × FifoLevel)
unlink_next p level n =
    if is_some n.next
    then (do p1 ← set_prev n.next n.prev p; some (p1, level))
    else some (p, record level { last_order = n.prev })

-- `tick == best_tick_`
pub is_best : Option ℕ → ℕ → Bool
is_best none tick = false
is_best (some best) tick = tick == best

-- The side after level `tick` has been emptied.
pub vacate : PriceLevels → ℕ → PriceLevels
vacate l tick =
    let bitmap = clear_occupied l.bitmap tick in
    record l {
      bitmap = bitmap;
      best_tick = if is_best l.best_tick tick then find_best_tick l.side bitmap else l.best_tick;
      levels =
          update l.levels tick (record (l.levels tick) { total_quantity = 0; next_priority = 1 });
    }

-- The node is read again after each write, as the source does.
pub remove_order : Pool → PriceLevels → ℕ → Option (Pool × PriceLevels)
remove_order p l order = do
  n ← load order p
  t ← level_of l n
  (p1, level1) ← unlink_prev p (l.levels t) n
  n1 ← load order p1
  (p2, level2) ← unlink_next p1 level1 n1
  n2 ← load order p2
  let level3 = record level2 { total_quantity = sub64 level2.total_quantity n2.remaining_quantity }
  p3 ← modify order (λ o. record o { next = none; prev = none; level = none }) p2
  let l1 = record l { levels = update l.levels t level3 }
  p4 ← deallocate order p3
  some (p4, if level_is_empty level3 then vacate l1 t else l1)
