-- ===== src/BookCore/Head.antt =====
-- exchange/matcher/book_core.cc: one round of the inner loop of Match, at the head of a level.
use Prim.Native.Nat.{min}
use yquant_system.Base.{
  ℕ, ◌-◌, ◌<◌, ◌≡◌, Bool, true, false, not, none, some, List, [], ◌∷◌, arith, refl, ◌∙◌, ap, subst,
  update-update, if◌then◌else◌, Bool-cases, inl, inr, leb,
}
use yquant_system.Base.Int.{ℤ}
use yquant_system.Types.{Side, is_buy, u32_mod, sub32}
use yquant_system.MemPool.{object}
use yquant_system.MemPool.Free.{load-eq}
use yquant_system.Bitmap.{tick_count}
use yquant_system.PriceLevels.{OrderNode, PriceLevels, Pool, apply_fill}
use yquant_system.PriceLevels.Queue.{Order, node_of, first_or}
use yquant_system.PriceLevels.Inv.{ref_at}
use yquant_system.PriceLevels.Fill.{filled, apply_fill-Filled}
use yquant_system.BookCore.{
  BookCore, TakerOrder, at_side, set_side, send_client_response, send_market_update,
}
use yquant_system.BookCore.Matching.{report_fill, settle_maker, fill_head}
use yquant_system.BookCore.Inv.{BookInv, BookQueues, side_of_book}
use yquant_system.BookCore.Steps.{set_queue, set_queue_self}
use yquant_system.BookCore.Changes.{fill-BookInv}
use yquant_system.BookCore.Lookup.{node_in, output-BookInv}
use yquant_system.BookCore.Settle.{Kept, settle_done, settle-Kept}

report_fill-BookInv :
    (taker : TakerOrder) (maker : OrderNode) (maker_side : Side) (price : ℤ) (executed : ℕ)
    (b : BookCore) (q : BookQueues)
    → BookInv b q
    → BookInv (report_fill taker maker maker_side price executed b) q
      × Kept b (report_fill taker maker maker_side price executed b)
unfolding report_fill send_client_response send_market_update
report_fill-BookInv taker maker maker_side price executed b q v = (
  output-BookInv b q (report_fill taker maker maker_side price executed b).client_responses
      (report_fill taker maker maker_side price executed b).market_updates v,
  record { band = refl; symbol = refl; next_id = refl; used = omega arith },
)

pub Kept-trans : (a b c : BookCore) → Kept a b → Kept b c → Kept a c
Kept-trans a b c f g = record {
  band = g.band ∙ f.band;
  symbol = g.symbol ∙ f.symbol;
  next_id = g.next_id ∙ f.next_id;
  used = omega (arith, f.used, g.used);
}

-- The queue of a level after its head, order `o`, has met a taker of quantity `n`.
abbrev pub after_fill : ℕ → Order → List Order → List Order
after_fill n o ys = if leb o.remaining n then ys else filled o n ∷ ys

-- The taker after it has met order `o`.
abbrev pub taker_left : TakerOrder → Order → TakerOrder
taker_left taker o = record taker { quantity = taker.quantity - o.remaining }

-- The run of one round, from the runs of its parts.
fill_head-run :
    (b : BookCore) (taker : TakerOrder) (order : ℕ) (price : ℤ) (n n1 : OrderNode) (p1 : Pool)
    (l1 : PriceLevels) (b3 : BookCore)
    → b.order_pool.slot order ≡ object n
    → apply_fill b.order_pool
        (at_side (not (is_buy taker.side)) b)
        order
        (min taker.quantity n.remaining_quantity)
      ≡ some (p1, l1)
    → p1.slot order ≡ object n1
    → sub32 taker.quantity (min taker.quantity n.remaining_quantity)
      ≡ taker.quantity - n.remaining_quantity
    → settle_maker taker.side order n1
        (at_side (not (is_buy taker.side)) (set_side (not (is_buy taker.side)) p1 l1 b)).side
        price
        (report_fill
          (record taker { quantity = taker.quantity - n.remaining_quantity })
          n1
          (at_side (not (is_buy taker.side)) (set_side (not (is_buy taker.side)) p1 l1 b)).side
          price
          (min taker.quantity n.remaining_quantity)
          (set_side (not (is_buy taker.side)) p1 l1 b))
      ≡ some b3
    → fill_head order price taker b
      ≡ some (record taker { quantity = taker.quantity - n.remaining_quantity }, b3)
unfolding fill_head
fill_head-run b taker order price n n1 p1 l1 b3 h0 h1 h2 h3 h4 =
    rw (load-eq b.order_pool order n h0, h1, load-eq p1 order n1 h2, h3, h4)

pub set_queue-set_queue :
    (k : Bool) (t : ℕ) (os os' : List Order) (q : BookQueues)
    → set_queue k t os (set_queue k t os' q) ≡ set_queue k t os q
set_queue-set_queue k t os os' q = λ i k'. at_each k k' i
  where
    at_each : (k k' : Bool) → set_queue k t os (set_queue k t os' q) k' ≡ set_queue k t os q k'
    at_each true true = update-update (q true) t os' os
    at_each true false = refl
    at_each false true = refl
    at_each false false = update-update (q false) t os' os

-- One round fills the head of the level by as much as both have, takes that from the taker, and the
-- order leaves when nothing remains of it.
pub fill_head-lem :
    (b : BookCore) (q : BookQueues) (taker : TakerOrder) (t : ℕ) (o : Order) (ys : List Order)
    (price : ℤ)
    → BookInv b q
    → t < tick_count
    → q (not (is_buy taker.side)) t ≡ o ∷ ys
    → (0 < o.remaining) × (o.remaining < u32_mod)
    → taker.quantity < u32_mod
    → (b' : BookCore) × (fill_head o.ptr price taker b ≡ some (taker_left taker o, b'))
      × BookInv b' (set_queue (not (is_buy taker.side)) t (after_fill taker.quantity o ys) q)
      × Kept b b'
fill_head-lem b q taker t o ys price v inside eq word qw =
    let k = not (is_buy taker.side) in
    let e = min taker.quantity o.remaining in
    let (p1, l1, g1, f) =
      apply_fill-Filled b.order_pool (at_side k b) (q k) t [] ys o e v.pool (v.side_inv k) inside eq
        (omega arith) word.1 in
    let b1 = set_side k p1 l1 b in
    let q1 = set_queue k t (filled o e ∷ ys) q in
    let v1 : BookInv b1 q1 = fill-BookInv b q k t [] ys o e p1 l1 v eq f in
    let eq1 = set_queue_self k t (filled o e ∷ ys) q in
    let n1 = node_in b1 q1 k t [] ys (filled o e) v1 eq1 in
    let left : sub32 taker.quantity e ≡ taker.quantity - o.remaining = omega arith in
    let node1 = node_of (ref_at (side_of_book k) t) none (first_or none ys) (filled o e) in
    let side1 = (at_side k b1).side in
    let b2 = report_fill (taker_left taker o) node1 side1 price e b1 in
    let (v2, kept2) = report_fill-BookInv (taker_left taker o) node1 side1 price e b1 q1 v1 in
    let kept1 : Kept b b1 = record {
      band = refl;
      symbol = refl;
      next_id = refl;
      used = omega (arith, f.used);
    } in
    let run = λ (b3 : BookCore) (g3 : settle_maker taker.side o.ptr node1 side1 price b2 ≡ some b3).
      fill_head-run b taker o.ptr price _ node1 p1 l1 b3 (node_in b q k t [] ys o v eq) g1 n1 left
        g3 in
    elim (Bool-cases (leb o.remaining taker.quantity)) [
      | inl h ↦
          let (b3, g3, v3, kept3) =
            settle_done b2 q1 taker.side t (filled o e) ys v2 eq1 inside (omega arith) side1 price
              (ground (arith, h)) in
          (
            b3,
            run b3 g3,
            subst (BookInv b3)
                (set_queue-set_queue k t ys (filled o e ∷ ys) q
                  ∙ ap (λ n. set_queue k t n q) (done h))
                v3,
            Kept-trans b b2 b3 (Kept-trans b b1 b2 kept1 kept2) kept3,
          )
      | inr h ↦
          let (b3, g3, v3, kept3) =
            settle-Kept b2 q1 taker.side t (filled o e) ys v2 eq1 inside (omega arith) side1 price
              (ground (arith, h)) in
          (
            b3,
            run b3 g3,
            subst (BookInv b3) (ap (λ n. set_queue k t n q) (part h)) v3,
            Kept-trans b b2 b3 (Kept-trans b b1 b2 kept1 kept2) kept3,
          )
    ]
  where
    done : leb o.remaining taker.quantity ≡ true → ys ≡ after_fill taker.quantity o ys
    done h = rw h

    part :
        leb o.remaining taker.quantity ≡ false
        → (filled o (min taker.quantity o.remaining) ∷ ys) ≡ after_fill taker.quantity o ys
    part h =
        let m : min taker.quantity o.remaining ≡ taker.quantity = ground (arith, h) in
        rw h (ap (λ n. filled o n ∷ ys) m)
