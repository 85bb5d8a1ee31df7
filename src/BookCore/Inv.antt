-- ===== src/BookCore/Inv.antt =====
-- exchange/matcher/book_core.h: what holds of an order book between calls, and the queues of
-- resting orders that it stands for.
use yquant_system.Base.{
  ℕ, ◌<◌, ◌≡◌, inl, inr, Bool, true, false, Option, some, List, [], ◌∷◌, ◌++◌, arith, refl, sym, ap,
  has, ◌==◌, Bool-cases, ==→eq,
}
use yquant_system.Types.{Side, buy, sell, max_num_clients, max_order_ids}
use yquant_system.MemPool.Inv.{IsValid}
use yquant_system.Bitmap.{tick_count}
use yquant_system.PriceLevels.Queue.{Order, ptrs}
use yquant_system.PriceLevels.Inv.{Queues, AreResting, ref_at, SideInv, Identity, identity_at}
use yquant_system.BookCore.{BookCore, ClientOrderIdTable, at_side, table_or_new}

-- The side of the book that holds buy orders (true) or sell orders.
abbrev pub side_of_book : Bool → Side
side_of_book true = buy
side_of_book false = sell

-- The resting orders of both sides, by tick.
abbrev pub BookQueues : Type 0
BookQueues = Bool → Queues

abbrev pub set_queues : Bool → Queues → BookQueues → BookQueues
set_queues true f q true = f
set_queues true f q false = q false
set_queues false f q true = q true
set_queues false f q false = f

-- Where the index leads for a client's order number.
abbrev pub lookup : ClientOrderIdTable → ℕ → ℕ → Option ℕ
lookup orders client_id client_order_id = table_or_new (orders client_id) client_order_id

-- A node stands in the queue of the level that it names.
abbrev pub Located : BookQueues → ℕ → Identity → Type 0
Located q j d =
    (k : Bool) × (t : ℕ) × (t < tick_count)
    × (d.level ≡ some (ref_at (side_of_book k) t))
    × (has j (ptrs (q k t)) ≡ true)

-- The pool and both sides are valid and agree; every node of the pool rests in one queue and has
-- ids inside the index; and the index leads only to nodes with the ids it was asked for.
pub record BookInv (b : BookCore) (q : BookQueues) : Type 0 where
  pub pool : IsValid b.order_pool
  pub capacity : b.order_pool.capacity ≡ max_order_ids
  pub side : (k : Bool) → (at_side k b).side ≡ side_of_book k
  pub side_inv : (k : Bool) → SideInv b.order_pool.slot (at_side k b) (q k)
  pub located : (j : ℕ) (d : Identity) → identity_at (b.order_pool.slot j) ≡ some d → Located q j d
  pub bounded :
      (j : ℕ) (d : Identity)
      → identity_at (b.order_pool.slot j) ≡ some d
      → (d.client_id < max_num_clients) × (d.client_order_id < max_order_ids)
  pub indexed :
      (c oid j : ℕ)
      → lookup b.orders c oid ≡ some j
      → (d : Identity) × (identity_at (b.order_pool.slot j) ≡ some d)
        × (d.client_id ≡ c)
        × (d.client_order_id ≡ oid)

-- Every resting order has something left.
abbrev pub Resting : BookQueues → Type 0
Resting q = (k : Bool) → AreResting (q k)

-- The order behind a pointer that a queue holds.
pub found_in :
    (j : ℕ) (os : List Order)
    → has j (ptrs os) ≡ true
    → (xs : List Order) × (o : Order) × (ys : List Order) × (os ≡ xs ++ o ∷ ys) × (o.ptr ≡ j)
found_in j [] h = cc
found_in j (x ∷ xs) h = elim (Bool-cases (j == x.ptr)) [
  | inl e ↦ ([], x, xs, refl, sym (==→eq j x.ptr e))
  | inr e ↦
      let (before, o, ys, f, g) = found_in j xs (ground (arith, h, e)) in
      (x ∷ before, o, ys, ap (λ k. x ∷ k) f, g)
]
