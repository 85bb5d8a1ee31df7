-- ===== src/BookCore/Uncrossed.antt =====
-- exchange/matcher/book_core.cc: Match leaves no order that the taker could still trade with.
use yquant_system.Base.{ℕ, ◌≤◌, ◌<◌, ◌≡◌, Bool, true, false, not, none, some, arith, sym, ◌∙◌}
use native.Mathlib.Decide.{dec_lt}
use yquant_system.Base.Int.{ℤ, pos, leb_ℤ}
use yquant_system.Types.{Side, buy, sell, no_side, is_buy}
use yquant_system.Bitmap.{tick_count}
use yquant_system.Bitmap.Find.{IsBest}
use yquant_system.PriceLevels.Inv.{Queues, has_orders}
use yquant_system.BookCore.{BookCore}
use yquant_system.BookCore.Matching.{crosses}
use yquant_system.BookCore.Inv.{side_of_book}
use yquant_system.BookCore.Match.{Matching, taken, no_makers, no_cross, at_level}

leb_up : (t u : ℕ) (z : ℤ) → t ≤ u → leb_ℤ (pos t) z ≡ false → leb_ℤ (pos u) z ≡ false
leb_up t u z h e = ground arith

leb_down : (t u : ℕ) (z : ℤ) → u ≤ t → leb_ℤ z (pos t) ≡ false → leb_ℤ z (pos u) ≡ false
leb_down t u z h e = ground arith

none_best :
    (maker_side : Side) (occ : ℕ → Bool) (t : ℕ)
    → IsBest maker_side occ none
    → t < tick_count
    → occ t ≡ false
none_best buy occ t h l = h t l
none_best sell occ t h l = h t (omega arith) l
none_best no_side occ t h l = h t (omega arith) l

-- When the best maker does not cross, none does.
best_stops :
    (side : Side) (occ : ℕ → Bool) (t u : ℕ) (limit : ℤ)
    → IsBest (side_of_book (not (is_buy side))) occ (some t)
    → crosses side t limit ≡ false
    → u < tick_count
    → occ u ≡ true
    → crosses side u limit ≡ false
best_stops buy occ t u limit h c l o = elim (dec_lt u t) [
  | yes p ↦ let e = h.3 u (omega arith) p in cc (sym e ∙ o)
  | no p ↦ leb_up t u limit (omega arith) c
]
best_stops sell occ t u limit h c l o = elim (dec_lt t u) [
  | yes p ↦ let e = h.2 u p l in cc (sym e ∙ o)
  | no p ↦ leb_down t u limit (omega arith) c
]
best_stops no_side occ t u limit h c l o = elim (dec_lt t u) [
  | yes p ↦ let e = h.2 u p l in cc (sym e ∙ o)
  | no p ↦ leb_down t u limit (omega arith) c
]

-- When the rule of matching leaves something of the taker, no tick of the makers that still has an
-- order crosses the taker's limit.
pub Matching-uncrossed :
    (side : Side) (limit : ℤ) (n n' : ℕ) (f f' : Queues)
    → Matching (side_of_book (not (is_buy side))) side limit n f n' f'
    → 0 < n'
    → (u : ℕ) → u < tick_count
    → has_orders f' u ≡ true
    → crosses side u limit ≡ false
Matching-uncrossed side limit n n' f f' (taken _) h u l o = absurd (omega arith)
Matching-uncrossed side limit n n' f f' (no_makers _ _ b) h u l o =
    let e = none_best (side_of_book (not (is_buy side))) (has_orders f') u b l in cc (sym e ∙ o)
Matching-uncrossed side limit n n' f f' (no_cross _ _ t b c) h u l o =
    best_stops side (has_orders f') t u limit b c l o
Matching-uncrossed side limit n n' f f' (at_level _ _ t _ _ b c m) h u l o =
    Matching-uncrossed side limit _ n' _ f' m h u l o
