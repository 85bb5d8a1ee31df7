-- ===== src/MarketOrderBook/Order.antt =====
-- trading/strategy/market_order_book.h: the order of the levels of a side, the most aggressive first.
use yquant_system.Base.{
  ℕ, ◌≡◌, ◌≢◌, Bool, true, false, ◌||◌, List, [], ◌∷◌, ◌++◌, arith, refl, ◌⊎◌, inl, inr, Bool-cases,
  ap, some,
}
use yquant_system.Base.Int.{ℤ, eq_of_parts}
use yquant_system.Types.{Side, buy, sell, no_side, is_buy, is_sell}
use yquant_system.MarketOrderBook.{is_worse}
use yquant_system.MarketOrderBook.Levels.{Level, insert_level, place}

abbrev pub has_side : Side → Bool
has_side side = is_buy side || is_sell side

-- Every level is less aggressive than a price.
abbrev pub AllWorse : Side → ℤ → List Level → Type 0
AllWorse side price [] = Unit {0}
AllWorse side price (w ∷ ws) = (is_worse side w.price price ≡ true) × AllWorse side price ws

abbrev pub IsSorted : Side → List Level → Type 0
IsSorted side [] = Unit {0}
IsSorted side (w ∷ ws) = AllWorse side w.price ws × IsSorted side ws

-- No level has the price.
abbrev pub IsNew : ℤ → List Level → Type 0
IsNew price [] = Unit {0}
IsNew price (w ∷ ws) = (price ≢ w.price) × IsNew price ws

-- A new price that is not less aggressive than another is more aggressive.
pub is_worse_other :
    (side : Side) (a b : ℤ)
    → has_side side ≡ true
    → a ≢ b
    → is_worse side a b ≡ false
    → is_worse side b a ≡ true
is_worse_other buy a b h ne w = ground (arith, eq_of_parts a b)
is_worse_other sell a b h ne w = ground (arith, eq_of_parts a b)
is_worse_other no_side a b h ne w = absurd (cc)

is_worse_trans :
    (side : Side) (a b c : ℤ)
    → is_worse side a b ≡ true
    → is_worse side b c ≡ true
    → is_worse side a c ≡ true
is_worse_trans buy a b c h g = ground arith
is_worse_trans sell a b c h g = ground arith
is_worse_trans no_side a b c h g = absurd (cc)

AllWorse-trans :
    (side : Side) (a b : ℤ) (ws : List Level)
    → is_worse side a b ≡ true
    → AllWorse side a ws
    → AllWorse side b ws
AllWorse-trans side a b [] h g = tt
AllWorse-trans side a b (w ∷ ws) h g =
    (is_worse_trans side w.price a b g.0 h, AllWorse-trans side a b ws h g.1)

AllWorse-insert :
    (side : Side) (price : ℤ) (y : Level) (ws : List Level)
    → is_worse side y.price price ≡ true
    → AllWorse side price ws
    → AllWorse side price (insert_level side y ws)
AllWorse-insert side price y [] h g = (h, tt)
AllWorse-insert side price y (w ∷ ws) h g = elim (Bool-cases (is_worse side y.price w.price)) [
  | inl e ↦ rw e (g.0, AllWorse-insert side price y ws h g.1)
  | inr e ↦ rw e (h, g)
]

-- The sides of a book stay in order.
pub insert_level-IsSorted :
    (side : Side) (y : Level) (ws : List Level)
    → has_side side ≡ true
    → IsNew y.price ws
    → IsSorted side ws
    → IsSorted side (insert_level side y ws)
insert_level-IsSorted side y [] s n h = (tt, tt)
insert_level-IsSorted side y (w ∷ ws) s n h = elim (Bool-cases (is_worse side y.price w.price)) [
  | inl e ↦
      rw e (AllWorse-insert side w.price y ws e h.0, insert_level-IsSorted side y ws s n.1 h.1)
  | inr e ↦
      let lead = is_worse_other side y.price w.price s n.0 e in
      rw e ((lead, AllWorse-trans side w.price y.price ws lead h.0), h)
]

AllWorse-without :
    (side : Side) (price : ℤ) (xs : List Level) (z : Level) (ys : List Level)
    → AllWorse side price (xs ++ z ∷ ys)
    → AllWorse side price (xs ++ ys)
AllWorse-without side price [] z ys h = h.1
AllWorse-without side price (x ∷ xs) z ys h = (h.0, AllWorse-without side price xs z ys h.1)

pub IsSorted-without :
    (side : Side) (xs : List Level) (z : Level) (ys : List Level)
    → IsSorted side (xs ++ z ∷ ys)
    → IsSorted side (xs ++ ys)
IsSorted-without side [] z ys h = h.1
IsSorted-without side (x ∷ xs) z ys h =
    (AllWorse-without side x.price xs z ys h.0, IsSorted-without side xs z ys h.1)

-- Where the search ends, and what `insert_level` does there.
abbrev pub Before : Side → ℕ → Level → List Level → Type 0
Before side best y zs =
    (front : List Level) × (z : Level) × (back : List Level) × (zs ≡ front ++ z ∷ back)
    × (place side best y.price zs ≡ (some z.ptr, false))
    × (insert_level side y zs ≡ front ++ y ∷ z ∷ back)

abbrev pub AtEnd : Side → ℕ → Level → List Level → Type 0
AtEnd side best y zs =
    (place side best y.price zs ≡ (some best, true)) × (insert_level side y zs ≡ zs ++ y ∷ [])

pub place_cases :
    (side : Side) (best : ℕ) (y : Level) (zs : List Level)
    → Before side best y zs ⊎ AtEnd side best y zs
place_cases side best y [] = inr (refl, refl)
place_cases side best y (z ∷ zs) = elim (Bool-cases (is_worse side y.price z.price)) [
  | inl e ↦ elim (place_cases side best y zs) [
    | inl (front, m, back, a, b, c) ↦
        inl (z ∷ front, m, back, ap (λ l. z ∷ l) a, rw e b, rw e (ap (λ l. z ∷ l) c))
    | inr (a, b) ↦ inr (rw e a, rw e (ap (λ l. z ∷ l) b))
  ]
  | inr e ↦ inl ([], z, zs, refl, rw e refl, rw e refl)
]
