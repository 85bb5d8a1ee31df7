-- ===== src/BookCore/Match.antt =====
-- exchange/matcher/book_core.cc: Match, against the rule of the market: better prices first, and at
-- one price the older order first.
use yquant_system.Base.{
  ℕ, zero, suc, ◌-◌, ◌<◌, ◌≡◌, Bool, true, false, not, Option, none, some, List, [], ◌∷◌, arith,
  refl, sym, subst, update, nonempty, ◌==◌, Bool-cases, Option-cases, inl, inr, ==→eq, ==→ne, leb,
}
use yquant_system.Base.Int.{ℤ, pos}
use yquant_system.Types.{Side, buy, sell, no_side, is_buy, u32_mod}
use yquant_system.Bitmap.{tick_count}
use yquant_system.Bitmap.Find.{IsBest}
use yquant_system.PriceBand.{to_price}
use yquant_system.PriceLevels.Queue.{Order}
use yquant_system.PriceLevels.Inv.{Queues, AllResting, sum_remaining, has_orders}
use yquant_system.BookCore.{BookCore, TakerOrder, at_side}
use yquant_system.BookCore.Matching.{crosses, match_loop, match_order}
use yquant_system.BookCore.Inv.{BookInv, BookQueues, side_of_book, set_queues, Resting}
use yquant_system.BookCore.Steps.{set_queue-Resting, set_queue}
use yquant_system.BookCore.Settle.{Kept}
use yquant_system.BookCore.Head.{Kept-trans}
use yquant_system.BookCore.Level.{rests_after, Kept-self, fill_level-LevelDone}

-- How a taker of side `side` and limit `limit` meets the queues of the other side, the makers:
-- it goes through the orders of the best tick, then through what is the best tick after that, and
-- stops when it has nothing left, when no maker is left or when the best tick does not cross.
pub data Matching (maker_side side : Side) (limit : ℤ) : ℕ → Queues → ℕ → Queues → Type 0 where
  taken : (f : Queues) → Matching maker_side side limit 0 f 0 f
  no_makers :
      (n : ℕ) (f : Queues)
      → IsBest maker_side (has_orders f) none
      → Matching maker_side side limit n f n f
  no_cross :
      (n : ℕ) (f : Queues) (t : ℕ)
      → IsBest maker_side (has_orders f) (some t)
      → crosses side t limit ≡ false
      → Matching maker_side side limit n f n f
  at_level :
      (n : ℕ) (f : Queues) (t n' : ℕ) (f' : Queues)
      → IsBest maker_side (has_orders f) (some t)
      → crosses side t limit ≡ true
      → Matching maker_side side limit
          (n - sum_remaining (f t))
          (update f t (rests_after n (f t)))
          n'
          f'
      → Matching maker_side side limit n f n' f'

pub best_in_grid :
    (side : Side) (occ : ℕ → Bool) (t : ℕ)
    → IsBest side occ (some t)
    → (t < tick_count) × (occ t ≡ true)
best_in_grid buy occ t h = (h.0, h.1)
best_in_grid sell occ t h = (h.1, h.2)
best_in_grid no_side occ t h = (h.1, h.2)

some_remaining : (os : List Order) → nonempty os ≡ true → AllResting os → 0 < sum_remaining os
some_remaining [] h a = cc
some_remaining (o ∷ os) h a = omega (arith, a.0)

rests_after-AllResting : (n : ℕ) (os : List Order) → AllResting os → AllResting (rests_after n os)
unfolding rests_after
rests_after-AllResting n [] a = tt
rests_after-AllResting n (o ∷ os) a = elim (Bool-cases (leb o.remaining n)) [
  | inl e ↦ rw e (rests_after-AllResting (n - o.remaining) os a.2)
  | inr e ↦ rw e (ground (arith, e), omega (arith, a.1), a.2)
]

pub set_queues_self : (k : Bool) (f : Queues) (q : BookQueues) → set_queues k f q k ≡ f
set_queues_self true f q = refl
set_queues_self false f q = refl

set_queues_id : (k : Bool) (q : BookQueues) → set_queues k (q k) q ≡ q
set_queues_id k q = λ i k'. at_each k k' i
  where
    at_each : (k k' : Bool) → set_queues k (q k) q k' ≡ q k'
    at_each true true = refl
    at_each true false = refl
    at_each false true = refl
    at_each false false = refl

set_queues-set_queues :
    (k : Bool) (f g : Queues) (q : BookQueues)
    → set_queues k f (set_queues k g q) ≡ set_queues k f q
set_queues-set_queues k f g q = λ i k'. at_each k k' i
  where
    at_each : (k k' : Bool) → set_queues k f (set_queues k g q) k' ≡ set_queues k f q k'
    at_each true true = refl
    at_each true false = refl
    at_each false true = refl
    at_each false false = refl

pub IsBest-of :
    (b : BookCore) (q : BookQueues) (k : Bool) (best : Option ℕ)
    → BookInv b q
    → (at_side k b).best_tick ≡ best
    → IsBest (side_of_book k) (has_orders (q k)) best
IsBest-of b q k best v e = subst (IsBest (side_of_book k) (has_orders (q k))) e (
    subst (λ s. IsBest s (has_orders (q k)) (at_side k b).best_tick) (v.side k) (v.side_inv k).best)

abbrev pub makers : TakerOrder → Bool
makers taker = not (is_buy taker.side)

abbrev pub Matched : BookCore → BookQueues → TakerOrder → Option (TakerOrder × BookCore) → Type 0
Matched b q taker result =
    (n' : ℕ) × (f' : Queues) × (b' : BookCore) × (result
      ≡ some (record taker { quantity = n' }, b'))
    × Matching (side_of_book (makers taker)) taker.side taker.limit_tick taker.quantity
        (q (makers taker)) n' f'
    × BookInv b' (set_queues (makers taker) f' q)
    × Resting (set_queues (makers taker) f' q)
    × Kept b b'

stopped :
    (b : BookCore) (q : BookQueues) (taker : TakerOrder)
    → BookInv b q
    → Resting q
    → Matching
        (side_of_book (makers taker))
        taker.side
        taker.limit_tick
        taker.quantity
        (q (makers taker))
        taker.quantity
        (q (makers taker))
    → Matched b q taker (some (taker, b))
stopped b q taker v r m = (
  taker.quantity,
  q (makers taker),
  b,
  refl,
  m,
  subst (BookInv b) (sym (set_queues_id (makers taker) q)) v,
  subst Resting (sym (set_queues_id (makers taker) q)) r,
  Kept-self b,
)

match_loop-Matched :
    (rounds : ℕ) (b : BookCore) (q : BookQueues) (taker : TakerOrder)
    → BookInv b q
    → Resting q
    → taker.quantity < u32_mod
    → taker.quantity < rounds
    → Matched b q taker (match_loop rounds taker b)
unfolding match_loop
match_loop-Matched zero b q taker v r qw enough = absurd (omega arith)
match_loop-Matched (suc rounds) b q taker v r qw enough =
    let k = makers taker in
    elim (Bool-cases (taker.quantity == 0)) [
      | inl e ↦
          let z = ==→eq taker.quantity 0 e in
          rw (match_loop, e)
            (stopped b q taker v r (
              subst (λ n. Matching (side_of_book k) taker.side taker.limit_tick n (q k) n (q k))
                (sym z) (taken (q k))))
      | inr e ↦ elim (Option-cases (at_side k b).best_tick) [
        | inl none_left ↦
            rw (match_loop, e, none_left)
              (stopped b q taker v r
                (no_makers taker.quantity (q k) (IsBest-of b q k none v none_left)))
        | inr (t, best) ↦
            let is_best = IsBest-of b q k (some t) v best in
            elim (Bool-cases (crosses taker.side t taker.limit_tick)) [
              | inr c ↦
                  rw (match_loop, e, best, c)
                    (stopped b q taker v r (no_cross taker.quantity (q k) t is_best c))
              | inl c ↦
                  let (inside, full) = best_in_grid (side_of_book k) (has_orders (q k)) t is_best in
                  let some_left = ==→ne taker.quantity 0 e in
                  let (b1, run, v1, kept1) =
                    fill_level-LevelDone (suc taker.quantity) b q taker t (q k t)
                      (to_price b.band (pos t)) v inside refl (r k t) qw (omega arith) in
                  let os = rests_after taker.quantity (q k t) in
                  let q1 = set_queue k t os q in
                  let r1 =
                    set_queue-Resting q k t os r
                      (rests_after-AllResting taker.quantity (q k t) (r k t)) in
                  let (n', f', b2, run2, m, v2, r2, kept2) =
                    match_loop-Matched rounds b1 q1
                      (record taker { quantity = taker.quantity - sum_remaining (q k t) }) v1 r1
                      (omega arith)
                      (let gone = some_remaining (q k t) full (r k t) in
                        omega (arith, gone, some_left)) in
                  (
                    n',
                    f',
                    b2,
                    rw (match_loop, e, best, c, run, run2),
                    at_level taker.quantity (q k) t n' f' is_best c (
                        subst
                          (λ g.
                            Matching (side_of_book k) taker.side taker.limit_tick
                              (taker.quantity - sum_remaining (q k t)) g n' f')
                          (set_queues_self k (update (q k) t os) q) m),
                    subst (BookInv b2) (set_queues-set_queues k f' (update (q k) t os) q) v2,
                    subst Resting (set_queues-set_queues k f' (update (q k) t os) q) r2,
                    Kept-trans b b1 b2 kept1 kept2,
                  )
            ]
      ]
    ]

-- On a valid book where every resting order has something left, Match of a taker whose quantity is
-- a 32-bit word returns; what is left of the taker and the queues of the other side are those of
-- the rule of matching (best tick first, at one tick the older order first, until nothing is left,
-- no maker is left or the best tick does not cross); the own side, the band, the symbol and the
-- next order number stay, no more nodes are in use, the book is valid and every resting order has
-- something left.
pub match_order-Matched :
    (b : BookCore) (q : BookQueues) (taker : TakerOrder)
    → BookInv b q
    → Resting q
    → taker.quantity < u32_mod
    → Matched b q taker (match_order taker b)
unfolding match_order
match_order-Matched b q taker v r qw =
    match_loop-Matched (suc taker.quantity) b q taker v r qw (omega arith)
