-- ===== src/MarketOrderBook/Grow.antt =====
-- trading/strategy/market_order_book.h: the queues of a side with a new one.
use yquant_system.Base.{
  ℕ, ◌≡◌, none, List, [], ◌∷◌, ◌++◌, refl, sym, ◌∙◌, ap, Bool-cases, inl, inr, if◌then◌else◌,
}
use mathlib.Core.Option.{none-ne-some}
use yquant_system.Base.Int.{ℤ}
use yquant_system.Types.{Side}
use yquant_system.MemPool.{Slot}
use yquant_system.MarketOrderBook.{MarketOrder, price_to_index, is_worse}
use yquant_system.MarketOrderBook.Levels.{insert_level}
use yquant_system.MarketOrderBook.Order.{IsNew}
use yquant_system.MarketOrderBook.Queues.{PriceQueue, levels_of, AllQueues, Table}

-- The queues with a new one.
abbrev pub insert_queue : Side → PriceQueue → List PriceQueue → List PriceQueue
insert_queue side q [] = q ∷ []
insert_queue side q (w ∷ ws) =
    if is_worse side q.level.price w.level.price then w ∷ insert_queue side q ws else q ∷ w ∷ ws

abbrev pub Parts : Side → PriceQueue → List PriceQueue → Type 0
Parts side q qs =
    (front : List PriceQueue) × (back : List PriceQueue) × (qs ≡ front ++ back)
    × (insert_queue side q qs ≡ front ++ q ∷ back)

pub insert_parts : (side : Side) (q : PriceQueue) (qs : List PriceQueue) → Parts side q qs
insert_parts side q [] = ([], [], refl, refl)
insert_parts side q (w ∷ ws) = elim (Bool-cases (is_worse side q.level.price w.level.price)) [
  | inl e ↦
      let (front, back, a, b) = insert_parts side q ws in
      (w ∷ front, back, ap (λ l. w ∷ l) a, rw e (ap (λ l. w ∷ l) b))
  | inr e ↦ ([], w ∷ ws, refl, rw e refl)
]

pub levels_of-insert :
    (side : Side) (q : PriceQueue) (qs : List PriceQueue)
    → levels_of (insert_queue side q qs) ≡ insert_level side q.level (levels_of qs)
levels_of-insert side q [] = refl
levels_of-insert side q (w ∷ ws) = elim (Bool-cases (is_worse side q.level.price w.level.price)) [
  | inl e ↦ rw e (ap (λ l. w.level ∷ l) (levels_of-insert side q ws))
  | inr e ↦ rw e refl
]

-- A price to which the table leads to no level.
pub IsNew-unlisted :
    (side : Side) (s : ℕ → Slot MarketOrder) (table ids : Table) (price : ℤ) (qs : List PriceQueue)
    → table (price_to_index price) ≡ none
    → AllQueues side s table ids qs
    → IsNew price (levels_of qs)
IsNew-unlisted side s table ids price [] e h = tt
IsNew-unlisted side s table ids price (q ∷ qs) e h = (
  λ f. none-ne-some q.level.ptr (sym e ∙ ap (λ r. table (price_to_index r)) f ∙ h.0.listed),
  IsNew-unlisted side s table ids price qs e h.1,
)
