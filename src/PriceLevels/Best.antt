-- ===== src/PriceLevels/Best.antt =====
-- exchange/matcher/price_levels.cc: how the cached best tick follows the occupied ticks.
use yquant_system.Base.{
  ℕ, ◌<◌, ◌≡◌, Bool, false, not, ◌||◌, ◌&&◌, Option, none, some, arith, ◌∙◌, ltb, ◌==◌,
  if◌then◌else◌, Bool-cases, inl, inr,
}
use yquant_system.Types.{Side, buy, sell, no_side}
use yquant_system.Bitmap.{tick_count}
use yquant_system.Bitmap.Find.{IsBest}
use yquant_system.PriceLevels.{is_better, improves, is_best}

pub IsBest-ext :
    (side : Side) (occ occ' : ℕ → Bool) (r : Option ℕ)
    → ((t : ℕ) → occ' t ≡ occ t)
    → IsBest side occ r
    → IsBest side occ' r
IsBest-ext buy occ occ' none e h = λ t l. e t ∙ h t l
IsBest-ext buy occ occ' (some b) e h = (h.0, e b ∙ h.1, λ t l m. e t ∙ h.2 t l m)
IsBest-ext sell occ occ' none e h = λ t l m. e t ∙ h t l m
IsBest-ext sell occ occ' (some b) e h = (h.0, h.1, e b ∙ h.2, λ t l m. e t ∙ h.3 t l m)
IsBest-ext no_side occ occ' none e h = λ t l m. e t ∙ h t l m
IsBest-ext no_side occ occ' (some b) e h = (h.0, h.1, e b ∙ h.2, λ t l m. e t ∙ h.3 t l m)

-- After a tick became occupied.
pub IsBest-occupy :
    (side : Side) (occ occ' : ℕ → Bool) (r : Option ℕ) (tick : ℕ)
    → tick < tick_count
    → ((t : ℕ) → occ' t ≡ (occ t || (t == tick)))
    → IsBest side occ r
    → IsBest side occ' (if improves side r tick then some tick else r)
unfolding improves is_better
IsBest-occupy buy occ occ' none tick i e h =
    (i, ground (arith, e tick), λ t l m. ground (arith, e t, h t m))
IsBest-occupy buy occ occ' (some b) tick i e h = elim (Bool-cases (ltb b tick)) [
  | inl c ↦ rw c (i, ground (arith, e tick), λ t l m. ground (arith, e t, h.2 t))
  | inr c ↦ rw c (h.0, ground (arith, e b), λ t l m. ground (arith, e t, h.2 t))
]
IsBest-occupy sell occ occ' none tick i e h =
    (omega arith, i, ground (arith, e tick), λ t l m. ground (arith, e t, h t l))
IsBest-occupy sell occ occ' (some b) tick i e h = elim (Bool-cases (ltb tick b)) [
  | inl c ↦ rw c (omega arith, i, ground (arith, e tick), λ t l m. ground (arith, e t, h.3 t))
  | inr c ↦ rw c (h.0, h.1, ground (arith, e b), λ t l m. ground (arith, e t, h.3 t))
]
IsBest-occupy no_side occ occ' none tick i e h =
    (omega arith, i, ground (arith, e tick), λ t l m. ground (arith, e t, h t l))
IsBest-occupy no_side occ occ' (some b) tick i e h = elim (Bool-cases (ltb tick b)) [
  | inl c ↦ rw c (omega arith, i, ground (arith, e tick), λ t l m. ground (arith, e t, h.3 t))
  | inr c ↦ rw c (h.0, h.1, ground (arith, e b), λ t l m. ground (arith, e t, h.3 t))
]

-- After a tick that is not the best was vacated.
pub IsBest-vacate :
    (side : Side) (occ occ' : ℕ → Bool) (r : Option ℕ) (tick : ℕ)
    → is_best r tick ≡ false
    → ((t : ℕ) → occ' t ≡ (occ t && not (t == tick)))
    → IsBest side occ r
    → IsBest side occ' r
unfolding is_best
IsBest-vacate buy occ occ' none tick n e h = λ t l. ground (arith, e t, h t l)
IsBest-vacate buy occ occ' (some b) tick n e h =
    (h.0, ground (arith, e b), λ t l m. ground (arith, e t, h.2 t l m))
IsBest-vacate sell occ occ' none tick n e h = λ t l m. ground (arith, e t, h t l m)
IsBest-vacate sell occ occ' (some b) tick n e h =
    (h.0, h.1, ground (arith, e b), λ t l m. ground (arith, e t, h.3 t l m))
IsBest-vacate no_side occ occ' none tick n e h = λ t l m. ground (arith, e t, h t l m)
IsBest-vacate no_side occ occ' (some b) tick n e h =
    (h.0, h.1, ground (arith, e b), λ t l m. ground (arith, e t, h.3 t l m))
