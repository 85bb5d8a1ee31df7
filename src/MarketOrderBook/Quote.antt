-- ===== src/MarketOrderBook/Quote.antt =====
-- trading/strategy/market_order_book.h: `updateBBO` reads the best level of a side.
use yquant_system.Base.{
  ℕ, zero, suc, ◌+◌, ◌%◌, ◌≡◌, ◌<◌, false, Option, some, List, [], ◌∷◌, arith, refl, has,
  AllDistinct, AllBelow, ==_self, ne→==, length, length_le_bound, sym, ◌∙◌, ap,
}
use yquant_system.Types.{u32_mod}
use yquant_system.MemPool.{MemPool}
use yquant_system.MemPool.Inv.{IsValid}
use yquant_system.MemPool.Free.{load-eq, live_facts}
use yquant_system.MarketOrderBook.{MarketOrder}
use yquant_system.MarketOrderBook.Updates.{add_quantities, quantity_from}
use yquant_system.MarketOrderBook.Links.{ptrs, first_or, Seg, Ring}
use yquant_system.MarketOrderBook.Join.{ne_head}
use yquant_system.MarketOrderBook.Orders.{Item, in_level}

-- The quantity of a level.
abbrev pub sum_quantities : List Item → ℕ
sum_quantities [] = 0
sum_quantities (x ∷ xs) = x.qty + sum_quantities xs

add_quantities-eq :
    (fuel : ℕ) (p : MemPool MarketOrder) (first : ℕ) (prev : Option ℕ) (os : List Item) (qty : ℕ)
    → Seg in_level p.slot prev (some first) os
    → has first (ptrs in_level os) ≡ false
    → length os < fuel
    → qty < u32_mod
    → add_quantities fuel p first (first_or in_level (some first) os) qty
      ≡ some ((qty + sum_quantities os) % u32_mod)
unfolding add_quantities
add_quantities-eq zero p first prev os qty h n f q = elim f [ ]
add_quantities-eq (suc fuel) p first prev [] qty h n f q =
    rw (==_self first) (ap some (omega arith))
add_quantities-eq (suc fuel) p first prev (x ∷ xs) qty h n f q =
    rw
      (
        ne→== x.ptr first (λ e. ne_head first x.ptr (ptrs in_level xs) n (sym e)),
        load-eq p x.ptr _ h.0,
      )
      (add_quantities-eq fuel p first (some x.ptr) xs ((qty + x.qty) % u32_mod) h.1
          (ground (arith, n)) (omega (arith, f)) (omega arith)
        ∙ ap some (omega arith))

Seg-AllBelow :
    (p : MemPool MarketOrder) (prev next : Option ℕ) (os : List Item)
    → IsValid p
    → Seg in_level p.slot prev next os
    → AllBelow p.next_unused (ptrs in_level os)
Seg-AllBelow p prev next [] v h = tt
Seg-AllBelow p prev next (x ∷ xs) v h =
    ((live_facts p x.ptr v.0 _ v.1 h.0).0, Seg-AllBelow p (some x.ptr) next xs v h.1)

length-ptrs : (os : List Item) → length (ptrs in_level os) ≡ length os
length-ptrs [] = refl
length-ptrs (x ∷ xs) = omega (arith, length-ptrs xs)

-- The loop ends, with the sum of the level in 32 bits.
pub quantity_from-eq :
    (p : MemPool MarketOrder) (x : Item) (xs : List Item)
    → IsValid p
    → AllDistinct (ptrs in_level (x ∷ xs))
    → Ring in_level p.slot (x ∷ xs)
    → x.qty < u32_mod
    → quantity_from p (some x.ptr) ≡ some (sum_quantities (x ∷ xs) % u32_mod)
quantity_from-eq p x xs v d ring q =
    let few =
      length_le_bound p.next_unused (ptrs in_level (x ∷ xs)) d
        (Seg-AllBelow p _ _ (x ∷ xs) v ring) in
    rw (load-eq p x.ptr _ ring.0) (
      add_quantities-eq (suc p.next_unused) p x.ptr (some x.ptr) xs x.qty ring.1 d.0
        (omega (arith, few, length-ptrs xs)) q)
