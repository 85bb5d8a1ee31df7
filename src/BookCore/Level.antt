-- ===== src/BookCore/Level.antt =====
-- exchange/matcher/book_core.cc: the inner loop of Match, which lets the taker meet the orders of one
-- level from the oldest on.
use yquant_system.Base.{
  ℕ, zero, suc, ◌-◌, ◌<◌, ◌≡◌, Bool, true, false, not, none, some, List, [], ◌∷◌, arith, refl, sym,
  ◌∙◌, ap, subst, if◌then◌else◌, ◌==◌, Bool-cases, inl, inr, ==→eq, ==→ne, eq→==, leb,
}
use yquant_system.Base.Int.{ℤ}
use yquant_system.Types.{is_buy, u32_mod}
use yquant_system.Bitmap.{tick_count}
use yquant_system.PriceLevels.Queue.{Order, first_or}
use yquant_system.PriceLevels.Inv.{AllResting, sum_remaining}
use yquant_system.PriceLevels.Fill.{filled}
use yquant_system.BookCore.{BookCore, TakerOrder, at_side}
use yquant_system.BookCore.Matching.{fill_level}
use yquant_system.BookCore.Inv.{BookInv, BookQueues}
use yquant_system.BookCore.Steps.{set_queue, set_queue_self}
use yquant_system.BookCore.Settle.{Kept}
use yquant_system.BookCore.Head.{
  Kept-trans, set_queue-set_queue, after_fill, taker_left, fill_head-lem,
}

-- What is left of a queue once a taker of quantity `n` has met its orders, the oldest first: the
-- orders that it fills leave, and the next one keeps its place with the rest of its quantity.
unfoldable pub rests_after : ℕ → List Order → List Order
rests_after n [] = []
rests_after n (o ∷ os) =
    let rest = rests_after (n - o.remaining) os in
    if leb o.remaining n then rest else filled o n ∷ os

pub after_fill-AllResting :
    (n : ℕ) (o : Order) (ys : List Order) → AllResting (o ∷ ys) → AllResting (after_fill n o ys)
after_fill-AllResting n o ys h = elim (Bool-cases (leb o.remaining n)) [
  | inl e ↦ rw e h.2
  | inr e ↦ rw e (ground (arith, e), omega (arith, h.1), h.2)
]

rests_after_none : (os : List Order) → AllResting os → rests_after 0 os ≡ os
unfolding rests_after
rests_after_none [] h = refl
rests_after_none (o ∷ os) h =
    let e : leb o.remaining 0 ≡ false = ground (arith, h.0) in
    rw e (ap (λ n. record o { remaining = n } ∷ os) (omega arith))

rests_after_head :
    (n : ℕ) (o : Order) (ys : List Order)
    → AllResting (o ∷ ys)
    → rests_after (n - o.remaining) (after_fill n o ys) ≡ rests_after n (o ∷ ys)
unfolding rests_after
rests_after_head n o ys h = elim (Bool-cases (leb o.remaining n)) [
  | inl e ↦ rw e
  | inr e ↦
      let z : n - o.remaining ≡ 0 = ground (arith, e) in
      rw (e, z) (rests_after_none (filled o n ∷ ys) (ground (arith, e), omega (arith, h.1), h.2))
]

sum_after_fill :
    (n : ℕ) (o : Order) (ys : List Order)
    → n - o.remaining - sum_remaining (after_fill n o ys) ≡ n - sum_remaining (o ∷ ys)
sum_after_fill n o ys = elim (Bool-cases (leb o.remaining n)) [
  | inl e ↦ rw e (omega arith)
  | inr e ↦ let z : n < o.remaining = ground (arith, e) in rw e (omega (arith, z))
]

set_queue_id :
    (k : Bool) (t : ℕ) (os : List Order) (q : BookQueues) → q k t ≡ os → set_queue k t os q ≡ q
set_queue_id k t os q e = λ i k' t'. at_each k k' t' e i
  where
    at_each : (k k' : Bool) (t' : ℕ) → q k t ≡ os → set_queue k t os q k' t' ≡ q k' t'
    at_each true true t' e = elim (Bool-cases (t' == t)) [
      | inl f ↦ rw f (sym e ∙ ap (q true) (sym (==→eq t' t f)))
      | inr f ↦ rw f
    ]
    at_each true false t' e = refl
    at_each false true t' e = refl
    at_each false false t' e = elim (Bool-cases (t' == t)) [
      | inl f ↦ rw f (sym e ∙ ap (q false) (sym (==→eq t' t f)))
      | inr f ↦ rw f
    ]

pub Kept-self : (b : BookCore) → Kept b b
Kept-self b = record { band = refl; symbol = refl; next_id = refl; used = omega arith }

first_in :
    (b : BookCore) (q : BookQueues) (k : Bool) (t : ℕ) (os : List Order)
    → BookInv b q
    → q k t ≡ os
    → ((at_side k b).levels t).first_order ≡ first_or none os
first_in b q k t os v e = ((v.side_inv k).level_inv t).first ∙ ap (first_or none) e

abbrev pub LevelDone : BookCore → BookQueues → TakerOrder → ℕ → List Order → ℤ → ℕ → Type 0
LevelDone b q taker t os price rounds =
    (b' : BookCore) × (fill_level rounds t price taker b
      ≡ some (record taker { quantity = taker.quantity - sum_remaining os }, b'))
    × BookInv b' (set_queue (not (is_buy taker.side)) t (rests_after taker.quantity os) q)
    × Kept b b'

no_taker :
    (rounds : ℕ) (b : BookCore) (q : BookQueues) (taker : TakerOrder) (t : ℕ) (os : List Order)
    (price : ℤ)
    → BookInv b q
    → q (not (is_buy taker.side)) t ≡ os
    → AllResting os
    → taker.quantity ≡ 0
    → LevelDone b q taker t os price (suc rounds)
unfolding fill_level
no_taker rounds b q taker t os price v eq a e =
    let k = not (is_buy taker.side) in
    let left : taker.quantity ≡ taker.quantity - sum_remaining os = omega (arith, e) in
    let kept : q ≡ set_queue k t (rests_after taker.quantity os) q = sym (
      set_queue_id k t (rests_after taker.quantity os) q
        (eq ∙ sym (ap (λ n. rests_after n os) e ∙ rests_after_none os a))) in
    (
      b,
      rw (fill_level, eq→== taker.quantity 0 e)
          (ap (λ n. some (record taker { quantity = n }, b)) left),
      subst (BookInv b) kept v,
      Kept-self b,
    )

-- On a valid book whose orders at the tick all have something left, and with more rounds than the
-- taker, whose quantity is a 32-bit word, has units, the inner loop returns: the taker has lost
-- the sum of the level's quantities or all it had, the orders it filled have left from the oldest
-- on, the next one keeps its place with the rest of its quantity, and the book is valid.
pub fill_level-LevelDone :
    (rounds : ℕ) (b : BookCore) (q : BookQueues) (taker : TakerOrder) (t : ℕ) (os : List Order)
    (price : ℤ)
    → BookInv b q
    → t < tick_count
    → q (not (is_buy taker.side)) t ≡ os
    → AllResting os
    → taker.quantity < u32_mod
    → taker.quantity < rounds
    → LevelDone b q taker t os price rounds
unfolding fill_level rests_after
fill_level-LevelDone zero b q taker t os price v inside eq a qw enough = absurd (omega arith)
fill_level-LevelDone (suc rounds) b q taker t [] price v inside eq a qw enough =
    elim (Bool-cases (taker.quantity == 0)) [
      | inl e ↦ no_taker rounds b q taker t [] price v eq a (==→eq taker.quantity 0 e)
      | inr e ↦
          let first = first_in b q (not (is_buy taker.side)) t [] v eq in
          (
            b,
            rw (fill_level, e, first)
                (ap (λ n. some (record taker { quantity = n }, b)) (omega arith)),
            subst (BookInv b) (sym (set_queue_id (not (is_buy taker.side)) t [] q eq)) v,
            Kept-self b,
          )
    ]
fill_level-LevelDone (suc rounds) b q taker t (o ∷ ys) price v inside eq a qw enough =
    elim (Bool-cases (taker.quantity == 0)) [
      | inl e ↦ no_taker rounds b q taker t (o ∷ ys) price v eq a (==→eq taker.quantity 0 e)
      | inr e ↦
          let k = not (is_buy taker.side) in
          let n = taker.quantity in
          let os = after_fill n o ys in
          let first = first_in b q k t (o ∷ ys) v eq in
          let some_left = ==→ne n 0 e in
          let (b1, run, v1, kept) =
            fill_head-lem b q taker t o ys price v inside eq (a.0, a.1) qw in
          let (b2, run2, v2, kept2) =
            fill_level-LevelDone rounds b1 (set_queue k t os q) (taker_left taker o) t os price v1
              inside (set_queue_self k t os q) (after_fill-AllResting n o ys a) (omega arith)
              (omega (arith, a.0, some_left)) in
          (
            b2,
            rw (fill_level, e, first, run, run2)
                (ap (λ m. some (record taker { quantity = m }, b2)) (sum_after_fill n o ys)),
            subst (BookInv b2)
                (set_queue-set_queue k t (rests_after (n - o.remaining) os) os q
                  ∙ ap (λ m. set_queue k t m q) (rests_after_head n o ys a))
                v2,
            Kept-trans b b1 b2 kept kept2,
          )
    ]
