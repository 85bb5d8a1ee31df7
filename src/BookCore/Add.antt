-- ===== src/BookCore/Add.antt =====
-- exchange/matcher/book_core.cc: what Add does.
use yquant_system.Base.{
  ℕ, ◌+◌, ◌≤◌, ◌<◌, ◌≡◌, ◌⊎◌, Bool, true, false, not, Option, some, [], ◌∷◌, ◌++◌, arith, refl, ◌∙◌,
  ap, subst, ltb, Bool-cases, inl, inr,
}
use yquant_system.Base.Int.{ℤ, pos}
use yquant_system.Types.{Side, is_buy, max_num_clients, max_order_ids, u32_mod}
use yquant_system.Messages.{MarketUpdateType}
use yquant_system.MemPool.Free.{load-eq}
use yquant_system.Bitmap.{tick_count}
use yquant_system.PriceBand.{to_tick}
use yquant_system.PriceLevels.Queue.{Order}
use yquant_system.PriceLevels.Orders.{AllResting-append}
use yquant_system.PriceLevels.Inv.{Queues}
use yquant_system.PriceLevels.Add.{new_order, add_order-Added}
use yquant_system.BookCore.{
  BookCore, at_side, set_side, send_market_update, send_client_response, market_update,
}
use yquant_system.BookCore.Matching.{match_order}
use yquant_system.BookCore.Requests.{add, accept, rest, taker_of}
use yquant_system.BookCore.Inv.{BookInv, BookQueues, side_of_book, set_queues, Resting}
use yquant_system.BookCore.Steps.{set_queue-Resting, set_queue, set_queue_self}
use yquant_system.BookCore.Changes.{add-BookInv}
use yquant_system.BookCore.Index.{entered_at, index_order-eq, lookup-entered_at}
use yquant_system.BookCore.Lookup.{node_in, output-BookInv}
use yquant_system.BookCore.Match.{
  Matching, taken, no_makers, no_cross, at_level, match_order-Matched,
}

-- Matching takes from the taker.
pub Matching-le :
    (maker_side side : Side) (limit : ℤ) (n n' : ℕ) (f f' : Queues)
    → Matching maker_side side limit n f n' f'
    → n' ≤ n
Matching-le maker_side side limit n n' f f' (taken _) = omega arith
Matching-le maker_side side limit n n' f f' (no_makers _ _ _) = omega arith
Matching-le maker_side side limit n n' f f' (no_cross _ _ _ _ _) = omega arith
Matching-le maker_side side limit n n' f f' (at_level _ _ t _ _ _ _ m) =
    let h = Matching-le maker_side side limit _ n' _ f' m in omega (arith, h)

-- The order that is left rests at the tail of the queue of its tick.
abbrev pub Rested : BookCore → BookQueues → ℕ → ℕ → Side → ℕ → ℕ → ℕ → Option BookCore → Type 0
Rested b q client_id client_order_id side t market_order_id n result =
    (i : ℕ) × (b' : BookCore) × (result ≡ some b')
    × BookInv b' (
        set_queue (is_buy side) t
          (q (is_buy side) t
            ++ new_order (at_side (is_buy side) b) t client_id client_order_id market_order_id n i
              ∷ [])
          q)
    × (b'.orders ≡ entered_at b.orders client_id client_order_id i)
    × (b'.order_pool.in_use ≡ b.order_pool.in_use + 1)
    × (b'.band ≡ b.band)

-- What Add does with the units that are left: with room for one more node, a new order rests at the
-- tail of the queue of its tick, and the index leads to it.
pub rest-Rested :
    (b : BookCore) (q : BookQueues) (c oid : ℕ) (side : Side) (t : ℕ) (price : ℤ) (mid n : ℕ)
    → BookInv b q
    → b.order_pool.in_use < b.order_pool.capacity
    → t < tick_count
    → c < max_num_clients
    → oid < max_order_ids
    → Rested b q c oid side t mid n (rest c oid side (pos t) price mid n b)
unfolding rest send_market_update
rest-Rested b q c oid side t price mid n v room inside cw ow =
    let k = is_buy side in
    let (i, p', l', g, a) =
      add_order-Added b.order_pool (at_side k b) (q k) t c oid mid n v.pool room (v.side_inv k)
        inside in
    let o = new_order (at_side k b) t c oid mid n i in
    let os = q k t ++ o ∷ [] in
    let b1 = set_side k p' l' (record b { orders = entered_at b.orders c oid i }) in
    let v1 : BookInv b1 (set_queue k t os q) =
      add-BookInv b q k t o p' l' (entered_at b.orders c oid i) v inside cw ow a
        (λ c' oid' j h. lookup-entered_at b.orders c oid i c' oid' j h) in
    let node = node_in b1 (set_queue k t os q) k t (q k t) [] o v1 (set_queue_self k t os q) in
    let u = market_update MarketUpdateType.add b.symbol_id mid side price n o.priority in
    (
      i,
      record b1 { market_updates = b.market_updates ++ u ∷ [] },
      rw (g, index_order-eq c oid i (set_side k p' l' b) cw ow, load-eq p' i _ node),
      output-BookInv b1 (set_queue k t os q) b.client_responses (b.market_updates ++ u ∷ []) v1,
      refl,
      a.used,
      refl,
    )

accept-BookInv :
    (c oid : ℕ) (side : Side) (price : ℤ) (quantity : ℕ) (b : BookCore) (q : BookQueues)
    → BookInv b q
    → BookInv (accept c oid side price quantity b) q
unfolding accept send_client_response
accept-BookInv c oid side price quantity b q v = record {
  pool = v.pool;
  capacity = v.capacity;
  side = v.side;
  side_inv = v.side_inv;
  located = v.located;
  bounded = v.bounded;
  indexed = v.indexed;
}

accept-in_use :
    (c oid : ℕ) (side : Side) (price : ℤ) (quantity : ℕ) (b : BookCore)
    → (accept c oid side price quantity b).order_pool.in_use ≡ b.order_pool.in_use
unfolding accept send_client_response
accept-in_use c oid side price quantity b = refl

-- The makers that are left, with the own side as it was.
abbrev pub left_makers : Side → Queues → BookQueues → BookQueues
left_makers side f' q = set_queues (not (is_buy side)) f' q

own_side : (k : Bool) (f : Queues) (q : BookQueues) → set_queues (not k) f q k ≡ q k
own_side true f q = refl
own_side false f q = refl

-- What Add leaves of an order of `quantity` units at tick `t`: `left` units and the queues of makers
-- that the rule of matching gives. With nothing left the book has those makers and its own side as it
-- was; otherwise one order more, with the number that the book gave to it, at the tail of the queue
-- of its tick.
pub record AddDone (b : BookCore) (q : BookQueues) (c oid : ℕ) (side : Side) (t quantity : ℕ)
    (b' : BookCore) : Type 0 where
  pub left : ℕ
  pub makers_left : Queues
  pub matching :
      Matching
        (side_of_book (not (is_buy side)))
        side
        (pos t)
        quantity
        (q (not (is_buy side)))
        left
        makers_left
  pub entered :
      ((left ≡ 0)
        × BookInv b' (left_makers side makers_left q)
        × Resting (left_makers side makers_left q))
      ⊎ ((o : Order) × (0 < left)
          × (o.remaining ≡ left)
          × (o.client_id ≡ c)
          × (o.client_order_id ≡ oid)
          × (o.market_order_id ≡ b.next_market_order_id)
          × BookInv b' (
              set_queue
                (is_buy side)
                t
                (q (is_buy side) t ++ o ∷ [])
                (left_makers side makers_left q))
          × Resting (
              set_queue
                (is_buy side)
                t
                (q (is_buy side) t ++ o ∷ [])
                (left_makers side makers_left q)))

add-run_none :
    (b b1 : BookCore) (c oid : ℕ) (side : Side) (price : ℤ) (quantity n : ℕ)
    → match_order (taker_of c oid side price quantity b) (accept c oid side price quantity b)
      ≡ some (record (taker_of c oid side price quantity b) { quantity = n }, b1)
    → ltb 0 n ≡ false
    → add c oid side price quantity b ≡ some b1
unfolding add
add-run_none b b1 c oid side price quantity n run e = rw (run, e)

add-run_some :
    (b b1 : BookCore) (c oid : ℕ) (side : Side) (price : ℤ) (quantity n : ℕ)
    → match_order (taker_of c oid side price quantity b) (accept c oid side price quantity b)
      ≡ some (record (taker_of c oid side price quantity b) { quantity = n }, b1)
    → ltb 0 n ≡ true
    → add c oid side price quantity b
      ≡ rest c oid side (to_tick b.band price) price b.next_market_order_id n b1
unfolding add
add-run_some b b1 c oid side price quantity n run e = rw (run, e)

-- On a valid book with room for one more node, where every resting order has something left, Add
-- of an order with ids inside the index and a limit inside the grid returns: the order meets the
-- makers by the rule of matching; with nothing left the own side stays as it was, and otherwise
-- one order, with the number the book gave to it, joins the tail of the queue of its tick; the
-- book is valid again and every resting order has something left.
pub add-AddDone :
    (b : BookCore) (q : BookQueues) (c oid : ℕ) (side : Side) (t : ℕ) (price : ℤ) (quantity : ℕ)
    → BookInv b q
    → Resting q
    → b.order_pool.in_use < b.order_pool.capacity
    → c < max_num_clients
    → oid < max_order_ids
    → to_tick b.band price ≡ pos t
    → t < tick_count
    → quantity < u32_mod
    → (b' : BookCore) × (add c oid side price quantity b ≡ some b')
      × AddDone b q c oid side t quantity b'
add-AddDone b q c oid side t price quantity v r room cw ow limit inside qw =
    let taker = taker_of c oid side price quantity b in
    let b0 = accept c oid side price quantity b in
    let (n, f, b1, run, m, v1, r1, kept) =
      match_order-Matched b0 q taker (accept-BookInv c oid side price quantity b q v) r qw in
    let m' =
      subst
        (λ z.
          Matching (side_of_book (not (is_buy side))) side z quantity (q (not (is_buy side))) n f)
        limit m in
    let less = Matching-le _ _ _ _ _ _ _ m in
    elim (Bool-cases (ltb 0 n)) [
      | inr e ↦ (
        b1,
        add-run_none b b1 c oid side price quantity n run e,
        record {
          left = n;
          makers_left = f;
          matching = m';
          entered = inl (ground (arith, e), v1, r1);
        },
      )
      | inl e ↦
          let k = is_buy side in
          let q1 = left_makers side f q in
          let used = accept-in_use c oid side price quantity b in
          let (i, b2, run2, v2, _, _, _) =
            rest-Rested b1 q1 c oid side t price b.next_market_order_id n v1
              (omega (arith, kept.used, used, v1.capacity, v.capacity)) inside cw ow in
          let o = new_order (at_side k b1) t c oid b.next_market_order_id n i in
          let own : q1 k t ≡ q k t = ap (λ g. g t) (own_side k f q) in
          let same = ap (λ z. set_queue k t (z ++ o ∷ []) q1) own in
          let some_left : 0 < n = ground (arith, e) in
          (
            b2,
            add-run_some b b1 c oid side price quantity n run e
                ∙ ap (λ z. rest c oid side z price b.next_market_order_id n b1) limit
                ∙ run2,
            record {
              left = n;
              makers_left = f;
              matching = m';
              entered = inr (
                o,
                some_left,
                refl,
                refl,
                refl,
                refl,
                subst (BookInv b2) same v2,
                subst Resting same (
                    set_queue-Resting q1 k t (q1 k t ++ o ∷ []) r1
                      (AllResting-append (q1 k t) o (r1 k t) some_left (omega (arith, less)))),
              );
            },
          )
    ]
