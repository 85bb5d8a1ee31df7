-- ===== src/BookCore/Settle.antt =====
-- exchange/matcher/book_core.cc: the end of a round of the inner loop of Match, where an order that is
-- filled leaves the book.
use yquant_system.Base.{
  ℕ, ◌≤◌, ◌<◌, ◌≡◌, ◌≢◌, Bool, not, none, some, List, [], ◌∷◌, ◌++◌, arith, refl, sym, ◌∙◌, ap,
  ne→==,
}
use yquant_system.Base.Int.{ℤ}
use yquant_system.Types.{Side, is_buy, u32_mod}
use yquant_system.Messages.{MarketUpdateType}
use yquant_system.Bitmap.{tick_count}
use yquant_system.PriceLevels.{OrderNode, PriceLevels, Pool}
use yquant_system.PriceLevels.Queue.{Order, node_of, first_or}
use yquant_system.PriceLevels.Inv.{ref_at, Identity, identity_at, order_identity}
use yquant_system.PriceLevels.Remove.{Removed, remove_order-Removed}
use yquant_system.BookCore.{BookCore, at_side, set_side, send_market_update, market_update}
use yquant_system.BookCore.Matching.{settle_maker}
use yquant_system.BookCore.Inv.{BookInv, BookQueues, side_of_book, lookup}
use yquant_system.BookCore.Steps.{set_queue}
use yquant_system.BookCore.Changes.{remove-BookInv}
use yquant_system.BookCore.Index.{cleared, unindex_order-eq, lookup-cleared}
use yquant_system.BookCore.Lookup.{node_in, output-BookInv}

-- What matching leaves as it is.
pub record Kept (b b' : BookCore) : Type 0 where
  pub band : b'.band ≡ b.band
  pub symbol : b'.symbol_id ≡ b.symbol_id
  pub next_id : b'.next_market_order_id ≡ b.next_market_order_id
  pub used : b'.order_pool.in_use ≤ b.order_pool.in_use

identity_in :
    (b : BookCore) (q : BookQueues) (k : Bool) (t : ℕ) (xs ys : List Order) (o : Order)
    → BookInv b q
    → q k t ≡ xs ++ o ∷ ys
    → identity_at (b.order_pool.slot o.ptr) ≡ some (order_identity (ref_at (side_of_book k) t) o)
identity_in b q k t xs ys o v eq = ap identity_at (node_in b q k t xs ys o v eq)

-- The removal of an order together with the entry of its number.
pub drop-BookInv :
    (b : BookCore) (q : BookQueues) (k : Bool) (t : ℕ) (xs ys : List Order) (o : Order) (p' : Pool)
    (l' : PriceLevels)
    → BookInv b q
    → q k t ≡ xs ++ o ∷ ys
    → Removed b.order_pool (at_side k b) (q k) t xs o ys p' l'
    → BookInv
        (set_side k p' l' (record b { orders = cleared b.orders o.client_id o.client_order_id }))
        (set_queue k t (xs ++ ys) q)
drop-BookInv b q k t xs ys o p' l' v eq r =
    remove-BookInv b q k t xs ys o p' l' (cleared b.orders o.client_id o.client_order_id) v eq r
      (λ c oid j h.
        let (h', ne) = lookup-cleared b.orders o.client_id o.client_order_id c oid j h in
        (h', elsewhere c oid j h' ne))
  where
    some_eq : {m n : Identity} → some m ≡ some n → m ≡ n
    some_eq f = cc

    elsewhere :
        (c oid j : ℕ)
        → lookup b.orders c oid ≡ some j
        → (c ≡ o.client_id → oid ≢ o.client_order_id)
        → j ≢ o.ptr
    elsewhere c oid j h ne m =
        let (d, x, y, z) = v.indexed c oid j h in
        let same : d ≡ order_identity (ref_at (side_of_book k) t) o = some_eq (
          sym x
          ∙ ap (λ n. identity_at (b.order_pool.slot n)) m
          ∙ identity_in b q k t xs ys o v eq) in
        ne (sym y ∙ ap (λ n. n.client_id) same) (sym z ∙ ap (λ n. n.client_order_id) same)

-- The end of a round, with order `o` at the head of its queue.
module _ (b : BookCore) (q : BookQueues) (side : Side) (t : ℕ) (o : Order) (ys : List Order)
    (v : BookInv b q) (eq : q (not (is_buy side)) t ≡ o ∷ ys) (inside : t < tick_count)
    (word : o.remaining < u32_mod) where
  abbrev k : Bool
  k = not (is_buy side)

  abbrev node : OrderNode
  node = node_of (ref_at (side_of_book k) t) none (first_or none ys) o

  abbrev posted : MarketUpdateType → Side → ℤ → ℕ → ℕ → BookCore
  posted type maker_side price quantity priority = record b {
    market_updates =
        b.market_updates
        ++ market_update type b.symbol_id o.market_order_id maker_side price quantity priority ∷ [];
  }

  pub settle_done :
      (maker_side : Side) (price : ℤ)
      → o.remaining ≡ 0
      → (b' : BookCore) × (settle_maker side o.ptr node maker_side price b ≡ some b')
        × BookInv b' (set_queue k t ys q)
        × Kept b b'
  unfolding settle_maker send_market_update
  settle_done maker_side price e =
      let d = v.bounded o.ptr _ (identity_in b q k t [] ys o v eq) in
      let (p', l', g, r) =
        remove_order-Removed b.order_pool (at_side k b) (q k) t [] ys o v.pool (v.side_inv k) inside
          eq word in
      let b1 = posted MarketUpdateType.cancel maker_side price 0 0 in
      (
        set_side k p' l' (record b1 { orders = cleared b.orders o.client_id o.client_order_id }),
        rw (e, unindex_order-eq o.client_id o.client_order_id b1 d.0 d.1, g),
        output-BookInv _ _ b1.client_responses b1.market_updates
            (drop-BookInv b q k t [] ys o p' l' v eq r),
        record { band = refl; symbol = refl; next_id = refl; used = omega (arith, r.used) },
      )

  pub settle-Kept :
      (maker_side : Side) (price : ℤ)
      → o.remaining ≢ 0
      → (b' : BookCore) × (settle_maker side o.ptr node maker_side price b ≡ some b')
        × BookInv b' q
        × Kept b b'
  unfolding settle_maker send_market_update
  settle-Kept maker_side price e =
      let b1 = posted MarketUpdateType.modify maker_side price o.remaining o.priority in
      (
        b1,
        rw (ne→== o.remaining 0 e),
        output-BookInv b q b1.client_responses b1.market_updates v,
        record { band = refl; symbol = refl; next_id = refl; used = omega arith },
      )
