-- ===== src/MarketOrderBook/Remove.antt =====
-- trading/strategy/market_order_book.h: `removeOrdersAtPrice` takes a level out of its side.
use yquant_system.Base.{
  ℕ, ◌≡◌, false, some, none, List, ◌∷◌, ◌++◌, refl, sym, ◌∙◌, has, AllDistinct, update, ap,
}
use yquant_system.Types.{Side, buy, sell, no_side}
use yquant_system.MemPool.{MemPool, object_at}
use yquant_system.MemPool.Inv.{IsValid}
use yquant_system.MemPool.Free.{deallocate-Deallocated, Deallocated}
use yquant_system.MarketOrderBook.{
  MarketOrdersAtPrice, MarketOrderBook, best_of, remove_orders_at_price, price_to_index,
}
use yquant_system.MarketOrderBook.Links.{
  ptrs, first_or, Ring, Seg-frame, AllDistinct-without, apart,
}
use yquant_system.MarketOrderBook.Levels.{Level, on_side}
use yquant_system.MarketOrderBook.Join.{ne_head}
use yquant_system.MarketOrderBook.Order.{IsSorted, IsSorted-without}
use yquant_system.MarketOrderBook.Insert.{with_side}
use yquant_system.MarketOrderBook.Leave.{Left}
use yquant_system.MarketOrderBook.Detach.{unlink_from_side-Left}

-- The book without the table entry of a level.
abbrev pub unmapped : Level → MarketOrderBook → MarketOrderBook
unmapped z b = record b {
  price_orders_at_price = update b.price_orders_at_price (price_to_index z.price) none;
}

-- The pool after the level was given back, and what stays of the side.
pub record Removed (side : Side) (p p' : MemPool MarketOrdersAtPrice) (ws : List Level) (z : Level)
    : Type 0 where
  pub valid : IsValid p'
  pub ring : Ring (on_side side) p'.slot ws
  pub gone : object_at (p'.slot z.ptr) ≡ none
  pub others : (j : ℕ) → has j (ptrs (on_side side) (z ∷ ws)) ≡ false → p'.slot j ≡ p.slot j
  pub sorted : IsSorted side ws

with_side-unmapped :
    (side : Side) (p p' : MemPool MarketOrdersAtPrice) (ws : List Level) (z : Level)
    (b : MarketOrderBook)
    → record (with_side side p ws b) {
      price_orders_at_price =
          update (with_side side p ws b).price_orders_at_price (price_to_index z.price) none;
      orders_at_price_pool = p';
    }
      ≡ unmapped z (with_side side p' ws b)
with_side-unmapped buy p p' ws z b = refl
with_side-unmapped sell p p' ws z b = refl
with_side-unmapped no_side p p' ws z b = refl

with_side-levels :
    (side : Side) (p : MemPool MarketOrdersAtPrice) (ws : List Level) (b : MarketOrderBook)
    → (with_side side p ws b).orders_at_price_pool ≡ p
with_side-levels buy p ws b = refl
with_side-levels sell p ws b = refl
with_side-levels no_side p ws b = refl

Left-Removed :
    (side : Side) (p p1 p2 : MemPool MarketOrdersAtPrice) (ws : List Level) (z : Level)
    → has z.ptr (ptrs (on_side side) ws) ≡ false
    → IsSorted side ws
    → Left (on_side side) p p1 ws z
    → Deallocated p1 z.ptr p2
    → Removed side p p2 ws z
Left-Removed side p p1 p2 ws z absent sorted l d = record {
  valid = d.valid;
  ring =
      Seg-frame (on_side side) p1.slot p2.slot _ _ ws
        (λ j m.
          d.others j (λ e. apart (on_side side) z.ptr j (ptrs (on_side side) ws) absent m (sym e)))
        l.ring;
  gone = d.gone;
  others = λ j h. d.others j (ne_head j z.ptr (ptrs (on_side side) ws) h) ∙ l.others j h;
  sorted = sorted;
}

-- `removeOrdersAtPrice` of the price of a level to which the table leads returns: the level has left
-- the circle of its side, the best level is the first of the rest, the entry of the table is cleared
-- and the level's slot is free.
pub remove_orders_at_price-Removed :
    (side : Side) (b : MarketOrderBook) (front : List Level) (z : Level) (back : List Level)
    → IsValid b.orders_at_price_pool
    → AllDistinct (ptrs (on_side side) (front ++ z ∷ back))
    → Ring (on_side side) b.orders_at_price_pool.slot (front ++ z ∷ back)
    → best_of side b ≡ first_or (on_side side) none (front ++ z ∷ back)
    → b.price_orders_at_price (price_to_index z.price) ≡ some z.ptr
    → IsSorted side (front ++ z ∷ back)
    → (p' : MemPool MarketOrdersAtPrice) × (remove_orders_at_price side z.price b
        ≡ some (unmapped z (with_side side p' (front ++ back) b)))
      × Removed side b.orders_at_price_pool p' (front ++ back) z
unfolding remove_orders_at_price
remove_orders_at_price-Removed side b front z back v d ring best at sorted =
    let (p1, run, l) = unlink_from_side-Left side b z v front back d ring best in
    let (p2, freed, r) = deallocate-Deallocated p1 z.ptr l.stays.0 l.valid l.stays.1 in
    (
      p2,
      rw (at, run, with_side-levels side p1 (front ++ back) b, freed)
          (ap some (with_side-unmapped side p1 p2 (front ++ back) z b)),
      Left-Removed side b.orders_at_price_pool p1 p2 (front ++ back) z
          (AllDistinct-without (on_side side) front z back d)
          (IsSorted-without side front z back sorted) l r,
    )
