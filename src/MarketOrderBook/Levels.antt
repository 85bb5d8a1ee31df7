-- ===== src/MarketOrderBook/Levels.antt =====
-- trading/strategy/market_order_book.h: the place of a new level among the levels of its side.
use yquant_system.Base.{
  ℕ, zero, suc, ◌<◌, ◌≡◌, Bool, true, false, Option, some, List, [], ◌∷◌, arith, refl, sym, ◌∙◌,
  has, AllDistinct, AllBelow, ==_self, ne→==, ap, length, ◌==◌, if◌then◌else◌, Bool-cases, inl, inr,
  ◌>>=◌, length_le_bound,
}
use yquant_system.Base.Int.{ℤ}
use yquant_system.Types.{Side}
use yquant_system.MemPool.{MemPool, object}
use yquant_system.MemPool.Inv.{IsValid}
use yquant_system.MemPool.Free.{live_facts, load-eq}
use yquant_system.MarketOrderBook.{MarketOrdersAtPrice, deref, is_worse, seek, find_place}
use yquant_system.MarketOrderBook.Links.{Linked, ptrs, first_or, Seg, Ring}

-- A level, without its links.
pub record Level : Type 0 where
  pub ptr : ℕ
  pub price : ℤ
  pub first : Option ℕ

-- The levels of one side as nodes.
abbrev pub on_side : Side → Linked MarketOrdersAtPrice Level
on_side side = record {
  ptr = λ x. x.ptr;
  node_of = λ prev next x. record {
    side = side;
    price = x.price;
    first_mkt_order = x.first;
    prev_entry = prev;
    next_entry = next;
  };
}

-- The levels with a new one, before the first that is not more aggressive.
abbrev pub insert_level : Side → Level → List Level → List Level
insert_level side y [] = y ∷ []
insert_level side y (w ∷ ws) =
    if is_worse side y.price w.price then w ∷ insert_level side y ws else y ∷ w ∷ ws

-- Where `insert_level` puts a level: at the level it goes before, or at the best one to go last.
abbrev pub place : Side → ℕ → ℤ → List Level → Option ℕ × Bool
place side best price [] = (some best, true)
place side best price (z ∷ zs) =
    if is_worse side price z.price then place side best price zs else (some z.ptr, false)

pub Seg-AllBelow :
    (side : Side) (p : MemPool MarketOrdersAtPrice) (prev next : Option ℕ) (ws : List Level)
    → IsValid p
    → Seg (on_side side) p.slot prev next ws
    → AllBelow p.next_unused (ptrs (on_side side) ws)
Seg-AllBelow side p prev next [] v h = tt
Seg-AllBelow side p prev next (w ∷ ws) v h =
    ((live_facts p w.ptr v.0 _ v.1 h.0).0, Seg-AllBelow side p (some w.ptr) next ws v h.1)

length-ptrs : (side : Side) (ws : List Level) → length (ptrs (on_side side) ws) ≡ length ws
length-ptrs side [] = refl
length-ptrs side (w ∷ ws) = omega (arith, length-ptrs side ws)

seek_stop :
    (fuel : ℕ) (side : Side) (p : MemPool MarketOrdersAtPrice) (best : ℕ) (price : ℤ)
    (target : Option ℕ)
    → 0 < fuel
    → seek fuel p best side price target false ≡ some (target, false)
unfolding seek
seek_stop zero side p best price target h = elim h [ ]
seek_stop (suc fuel) side p best price target h = refl

has_here : (a b : ℕ) (l : List ℕ) → a ≡ b → true ≡ has a (b ∷ l)
has_here a b l e = ground arith

-- The loop goes past the levels that are more aggressive, and ends.
seek-eq :
    (fuel : ℕ) (side : Side) (p : MemPool MarketOrdersAtPrice) (best : ℕ) (price : ℤ)
    (prev : Option ℕ) (zs : List Level)
    → Seg (on_side side) p.slot prev (some best) zs
    → has best (ptrs (on_side side) zs) ≡ false
    → length zs < fuel
    → seek fuel p best side price (first_or (on_side side) (some best) zs) true
      ≡ some (place side best price zs)
unfolding seek
seek-eq zero side p best price prev zs h n f = elim f [ ]
seek-eq (suc fuel) side p best price prev [] h n f = rw (==_self best) refl
seek-eq (suc fuel) side p best price prev (z ∷ zs) h n f =
    let ne : (z.ptr == best) ≡ false =
      ne→== z.ptr best (λ e. cc (has_here best z.ptr (ptrs (on_side side) zs) (sym e) ∙ n)) in
    rw (ne, load-eq p z.ptr _ h.0)
      (elim (Bool-cases (is_worse side price z.price)) [
        | inl w ↦ rw w (
            seek-eq fuel side p best price (some z.ptr) zs h.1 (ground (arith, n))
              (omega (arith, f)))
        | inr w ↦ rw w (seek_stop fuel side p best price (some z.ptr) (omega (arith, f)))
      ])

-- The round before the loop, when the new level goes after the best one.
after_best :
    (fuel : ℕ) (side : Side) (p : MemPool MarketOrdersAtPrice) (best : ℕ) (price : ℤ)
    (prev : Option ℕ) (t : MarketOrdersAtPrice) (xs : List Level)
    → p.slot best ≡ object t
    → is_worse side price t.price ≡ true
    → Seg (on_side side) p.slot prev (some best) xs
    → has best (ptrs (on_side side) xs) ≡ false
    → length xs < fuel
    → (deref (first_or (on_side side) (some best) xs) p >>= λ u.
        seek fuel p best side price
          (first_or (on_side side) (some best) xs)
          (is_worse side price u.price))
      ≡ some (place side best price xs)
after_best fuel side p best price prev t [] e w h n f =
    rw (load-eq p best t e, w) (seek-eq fuel side p best price prev [] h n f)
after_best fuel side p best price prev t (z ∷ zs) e w h n f =
    rw (load-eq p z.ptr _ h.0) (elim (Bool-cases (is_worse side price z.price)) [
      | inl k ↦ rw k (
          seek-eq fuel side p best price prev (z ∷ zs) h n f
          ∙ ap some (ap (λ b. if b then place side best price zs else (some z.ptr, false)) k))
      | inr k ↦ rw k (seek_stop fuel side p best price (some z.ptr) (omega (arith, f)))
    ])

module _ (side : Side) (p : MemPool MarketOrdersAtPrice) (x : Level) (xs : List Level)
    (v : IsValid p) (distinct : AllDistinct (ptrs (on_side side) (x ∷ xs)))
    (ring : Ring (on_side side) p.slot (x ∷ xs)) where
  few_levels : length xs < suc p.next_unused
  few_levels =
      let few =
        length_le_bound p.next_unused (ptrs (on_side side) (x ∷ xs)) distinct
          (Seg-AllBelow side p _ _ (x ∷ xs) v ring) in
      omega (arith, few, length-ptrs side (x ∷ xs))

  -- The search finds the place that `insert_level` takes.
  pub find_place-eq :
      (price : ℤ) → find_place p x.ptr side price ≡ some (place side x.ptr price (x ∷ xs))
  unfolding find_place
  find_place-eq price =
      rw (load-eq p x.ptr _ ring.0) (elim (Bool-cases (is_worse side price x.price)) [
        | inl w ↦ rw w (
            after_best (suc p.next_unused) side p x.ptr price (some x.ptr) _ xs ring.0 w ring.1
              distinct.0 few_levels)
        | inr w ↦ rw w refl
      ])
