-- ===== src/PriceLevels/Orders.antt =====
-- exchange/matcher/price_levels.h: lists of resting orders.
use yquant_system.Base.{
  ℕ, ◌+◌, ◌<◌, ◌≡◌, ◌≢◌, true, false, ◌||◌, Option, none, some, List, [], ◌∷◌, ◌++◌, arith, refl,
  sym, ◌∙◌, ap, has, AllDistinct, ◌==◌, subst, nonempty, Bool-cases, inl, inr, ==→eq,
}
use yquant_system.Types.{u32_mod}
use yquant_system.MemPool.{Slot, object, object_at}
use yquant_system.PriceLevels.{LevelRef, OrderNode}
use yquant_system.PriceLevels.Queue.{Order, Slots, ptrs, first_or, last_or, Seg}
use yquant_system.PriceLevels.Inv.{sum_remaining, AllResting}

pub sum_remaining-append :
    (xs : List Order) (o : Order) → sum_remaining (xs ++ o ∷ []) ≡ sum_remaining xs + o.remaining
sum_remaining-append [] o = omega arith
sum_remaining-append (x ∷ xs) o = omega (arith, sum_remaining-append xs o)

pub AllResting-append :
    (xs : List Order) (o : Order)
    → AllResting xs
    → 0 < o.remaining
    → o.remaining < u32_mod
    → AllResting (xs ++ o ∷ [])
AllResting-append [] o h a b = (a, b, tt)
AllResting-append (x ∷ xs) o h a b = (h.0, h.1, AllResting-append xs o h.2 a b)

pub has-append_one :
    (j : ℕ) (xs : List Order) (o : Order)
    → has j (ptrs (xs ++ o ∷ [])) ≡ (has j (ptrs xs) || (j == o.ptr))
has-append_one j [] o = ground arith
has-append_one j (x ∷ xs) o = ground (arith, has-append_one j xs o)

pub AllDistinct-append :
    (xs : List Order) (o : Order)
    → AllDistinct (ptrs xs)
    → has o.ptr (ptrs xs) ≡ false
    → AllDistinct (ptrs (xs ++ o ∷ []))
AllDistinct-append [] o d h = (refl, tt)
AllDistinct-append (x ∷ xs) o d h =
    (ground (arith, has-append_one x.ptr xs o), AllDistinct-append xs o d.1 (ground arith))

-- A slot that holds no object is not the slot of a resting order.
pub fresh-not-mem :
    (s : Slots) (ref : LevelRef) (i : ℕ) (prev next : Option ℕ) (os : List Order)
    → object_at (s i) ≡ none
    → Seg s ref prev next os
    → has i (ptrs os) ≡ false
fresh-not-mem s ref i prev next [] f h = refl
fresh-not-mem s ref i prev next (o ∷ os) f h =
    let ne : i ≢ o.ptr = λ e. clash (subst (λ k. object_at (s k) ≡ none) e f) h.0 in
    ground (arith, ne, fresh-not-mem s ref i (some o.ptr) next os f h.1)
  where
    clash : {c : Slot OrderNode} {n : OrderNode} → object_at c ≡ none → c ≡ object n → ⊥
    clash f h = cc (sym (ap object_at h) ∙ f)

pub last_or-append_one :
    (prev : Option ℕ) (xs : List Order) (o : Order) → last_or prev (xs ++ o ∷ []) ≡ some o.ptr
last_or-append_one prev [] o = refl
last_or-append_one prev (x ∷ xs) o = last_or-append_one (some x.ptr) xs o

pub first_or-append_one :
    (xs : List Order) (o : Order) → first_or none (xs ++ o ∷ []) ≡ first_or (some o.ptr) xs
first_or-append_one [] o = refl
first_or-append_one (x ∷ xs) o = refl

pub ptrs-replace :
    (xs ys : List Order) (o o' : Order)
    → o'.ptr ≡ o.ptr
    → ptrs (xs ++ o' ∷ ys) ≡ ptrs (xs ++ o ∷ ys)
ptrs-replace [] ys o o' e = ap (λ k. k ∷ ptrs ys) e
ptrs-replace (x ∷ xs) ys o o' e = ap (λ k. x.ptr ∷ k) (ptrs-replace xs ys o o' e)

pub sum_remaining_middle :
    (xs ys : List Order) (o : Order)
    → sum_remaining (xs ++ o ∷ ys) ≡ sum_remaining (xs ++ ys) + o.remaining
sum_remaining_middle [] ys o = omega arith
sum_remaining_middle (x ∷ xs) ys o = omega (arith, sum_remaining_middle xs ys o)

pub nonempty_middle : (xs ys : List Order) (o : Order) → nonempty (xs ++ o ∷ ys) ≡ true
nonempty_middle [] ys o = refl
nonempty_middle (x ∷ xs) ys o = refl

pub has_middle :
    (j : ℕ) (xs ys : List Order) (o : Order)
    → has j (ptrs (xs ++ o ∷ ys)) ≡ (has j (ptrs (xs ++ ys)) || (j == o.ptr))
has_middle j [] ys o = ground arith
has_middle j (x ∷ xs) ys o = ground (arith, has_middle j xs ys o)

pub has-append :
    (j : ℕ) (xs ys : List Order) → has j (ptrs (xs ++ ys)) ≡ (has j (ptrs xs) || has j (ptrs ys))
has-append j [] ys = refl
has-append j (x ∷ xs) ys = ground (arith, has-append j xs ys)

-- The node in the middle stands in neither part.
pub distinct_middle :
    (xs ys : List Order) (o : Order)
    → AllDistinct (ptrs (xs ++ o ∷ ys))
    → (has o.ptr (ptrs xs) ≡ false) × (has o.ptr (ptrs ys) ≡ false) × AllDistinct (ptrs (xs ++ ys))
distinct_middle [] ys o d = (refl, d.0, d.1)
distinct_middle (x ∷ xs) ys o d =
    let (a, b, c) = distinct_middle xs ys o d.1 in
    (
      ground (arith, a, d.0, has_middle x.ptr xs ys o),
      b,
      (ground (arith, d.0, has_middle x.ptr xs ys o), c),
    )

pub AllResting-middle :
    (xs ys : List Order) (o : Order)
    → AllResting (xs ++ o ∷ ys)
    → (0 < o.remaining) × (o.remaining < u32_mod)
AllResting-middle [] ys o h = (h.0, h.1)
AllResting-middle (x ∷ xs) ys o h = AllResting-middle xs ys o h.2

pub AllResting-drop :
    (xs ys : List Order) (o : Order) → AllResting (xs ++ o ∷ ys) → AllResting (xs ++ ys)
AllResting-drop [] ys o h = h.2
AllResting-drop (x ∷ xs) ys o h = (h.0, h.1, AllResting-drop xs ys o h.2)

pub first_or-replace :
    (next : Option ℕ) (xs ys : List Order) (o o' : Order)
    → o'.ptr ≡ o.ptr
    → first_or next (xs ++ o' ∷ ys) ≡ first_or next (xs ++ o ∷ ys)
first_or-replace next [] ys o o' e = ap some e
first_or-replace next (x ∷ xs) ys o o' e = refl

pub last_or-replace :
    (prev : Option ℕ) (xs ys : List Order) (o o' : Order)
    → o'.ptr ≡ o.ptr
    → last_or prev (xs ++ o' ∷ ys) ≡ last_or prev (xs ++ o ∷ ys)
last_or-replace prev [] ys o o' e = ap (λ k. last_or (some k) ys) e
last_or-replace prev (x ∷ xs) ys o o' e = last_or-replace (some x.ptr) xs ys o o' e

pub first_or-append :
    (next : Option ℕ) (xs ys : List Order)
    → first_or next (xs ++ ys) ≡ first_or (first_or next ys) xs
first_or-append next [] ys = refl
first_or-append next (x ∷ xs) ys = refl

pub last_or-append :
    (prev : Option ℕ) (xs ys : List Order) → last_or prev (xs ++ ys) ≡ last_or (last_or prev xs) ys
last_or-append prev [] ys = refl
last_or-append prev (x ∷ xs) ys = last_or-append (some x.ptr) xs ys

-- The two parts of a list of distinct orders share no order.
pub distinct_apart :
    (j : ℕ) (xs ys : List Order)
    → AllDistinct (ptrs (xs ++ ys))
    → has j (ptrs xs) ≡ true
    → has j (ptrs ys) ≡ false
distinct_apart j [] ys d h = cc
distinct_apart j (x ∷ xs) ys d h = elim (Bool-cases (j == x.ptr)) [
  | inl e ↦
      let n : has j (ptrs (xs ++ ys)) ≡ false =
        ap (λ k. has k (ptrs (xs ++ ys))) (==→eq j x.ptr e) ∙ d.0 in
      ground (arith, n, has-append j xs ys)
  | inr e ↦ distinct_apart j xs ys d.1 (ground (arith, h, e))
]

pub AllDistinct-left : (xs ys : List Order) → AllDistinct (ptrs (xs ++ ys)) → AllDistinct (ptrs xs)
AllDistinct-left [] ys d = tt
AllDistinct-left (x ∷ xs) ys d =
    (ground (arith, d.0, has-append x.ptr xs ys), AllDistinct-left xs ys d.1)

pub AllDistinct-right : (xs ys : List Order) → AllDistinct (ptrs (xs ++ ys)) → AllDistinct (ptrs ys)
AllDistinct-right [] ys d = d
AllDistinct-right (x ∷ xs) ys d = AllDistinct-right xs ys d.1
