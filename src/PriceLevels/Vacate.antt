-- ===== src/PriceLevels/Vacate.antt =====
-- exchange/matcher/price_levels.cc: the end of RemoveOrder, where a level that lost its last order is
-- reset.
use mathlib.Core.Bool.{and-true, and-false}
use yquant_system.Base.{
  ℕ, ◌<◌, ◌≡◌, ◌≢◌, true, false, not, ◌&&◌, none, List, [], ◌∷◌, refl, sym, ◌∙◌, ap, nonempty,
  update, update_self, update_ne, update-update, subst, if◌then◌else◌, ◌==◌, Bool-cases, inl, inr,
}
use yquant_system.Bitmap.{tick_count, occupied, clear_occupied, find_best_tick}
use yquant_system.Bitmap.Marks.{occupied-clear_occupied, clear_occupied-IsSummarised}
use yquant_system.Bitmap.Find.{find_best_tick-IsBest}
use yquant_system.PriceLevels.{FifoLevel, PriceLevels, level_is_empty, vacate, is_none, is_best}
use yquant_system.PriceLevels.Queue.{Order, Slots, first_or, last_or}
use yquant_system.PriceLevels.Inv.{Queues, ref_at, LevelInv, SideInv, has_orders, Untouched}
use yquant_system.PriceLevels.Best.{IsBest-ext, IsBest-vacate}
use yquant_system.PriceLevels.Fill.{changed_levels, changed_outside, SideInv-changed}

-- The side after its last order at a tick has left.
module _ (s s' : Slots) (l : PriceLevels) (q : Queues) (t : ℕ) (level : FifoLevel)
    (inv : SideInv s l q) (inside : t < tick_count) (untouched : Untouched s s' (ref_at l.side t))
    (first : level.first_order ≡ none) (last : level.last_order ≡ none) where
  abbrev reset_level : FifoLevel
  reset_level = record level { total_quantity = 0; next_priority = 1 }

  vacated_level : LevelInv s' (ref_at l.side t) reset_level []
  vacated_level = record {
    seg = tt;
    distinct = tt;
    first = first;
    last = last;
    total = refl;
    reset = λ e. refl;
  }

  vacated_orders : (u : ℕ) → has_orders (update q t []) u ≡ (has_orders q u && not (u == t))
  vacated_orders u = elim (Bool-cases (u == t)) [
    | inl e ↦ rw e (sym (and-false (has_orders q u)))
    | inr e ↦ rw e (sym (and-true (has_orders q u)))
  ]

  vacated_bits : (u : ℕ) → occupied (clear_occupied l.bitmap t) u ≡ has_orders (update q t []) u
  vacated_bits u =
      occupied-clear_occupied l.bitmap t u
      ∙ ap (λ b. b && not (u == t)) (inv.bits u)
      ∙ sym (vacated_orders u)

  SideInv-vacated :
      SideInv s' (vacate (record l { levels = update l.levels t level }) t) (update q t [])
  unfolding vacate
  SideInv-vacated = record {
    level_inv =
        subst
          (λ (f : ℕ → FifoLevel). (u : ℕ) → LevelInv s' (ref_at l.side u) (f u) (update q t [] u))
          (sym twice) (changed_levels s s' l q t reset_level [] inv inside untouched vacated_level);
    inside = changed_outside s s' l q t reset_level [] inv inside untouched vacated_level;
    bits = vacated_bits;
    summarised = clear_occupied-IsSummarised l.bitmap t inv.summarised;
    best = elim (Bool-cases (is_best l.best_tick t)) [
      | inl e ↦ rw e (
          IsBest-ext l.side (occupied (clear_occupied l.bitmap t)) (has_orders (update q t []))
            (find_best_tick l.side (clear_occupied l.bitmap t)) (λ u. sym (vacated_bits u))
            (find_best_tick-IsBest l.side (clear_occupied l.bitmap t)
              (clear_occupied-IsSummarised l.bitmap t inv.summarised)))
      | inr e ↦ rw e (
          IsBest-vacate l.side (has_orders q) (has_orders (update q t [])) l.best_tick t e
            vacated_orders inv.best)
    ];
  }
    where
      reset : FifoLevel → FifoLevel
      reset k = record k { total_quantity = 0; next_priority = 1 }

      twice :
          update (update l.levels t level) t (reset (update l.levels t level t))
          ≡ update l.levels t reset_level
      twice =
          update-update l.levels t level (reset (update l.levels t level t))
          ∙ ap (λ k. update l.levels t (reset k)) (update_self l.levels t level)

-- The side that RemoveOrder returns, from the level once the order is out of it.
abbrev pub settle : PriceLevels → ℕ → FifoLevel → PriceLevels
settle l t level =
    if level_is_empty level
    then vacate (record l { levels = update l.levels t level }) t
    else record l { levels = update l.levels t level }

pub settle-SideInv :
    (s s' : Slots) (l : PriceLevels) (q : Queues) (t : ℕ) (level : FifoLevel) (os : List Order)
    → SideInv s l q
    → t < tick_count
    → has_orders q t ≡ true
    → Untouched s s' (ref_at l.side t)
    → level.first_order ≡ first_or none os
    → level.last_order ≡ last_or none os
    → (nonempty os ≡ true → LevelInv s' (ref_at l.side t) level os)
    → SideInv s' (settle l t level) (update q t os)
settle-SideInv s s' l q t level [] inv inside full u first last here =
    let e : level_is_empty level ≡ true = ap is_none first in
    rw e (SideInv-vacated s s' l q t level inv inside u first last)
settle-SideInv s s' l q t level (x ∷ xs) inv inside full u first last here =
    let e : level_is_empty level ≡ false = ap is_none first in
    rw e (SideInv-changed s s' l q t level (x ∷ xs) inv inside u (here refl) (sym full))

pub side-settle : (l : PriceLevels) (t : ℕ) (level : FifoLevel) → (settle l t level).side ≡ l.side
unfolding vacate
side-settle l t level = elim (Bool-cases (level_is_empty level)) [ inl e ↦ rw e | inr e ↦ rw e ]

-- A level that lost its last order starts its priorities again.
pub settle-sequencer :
    (l : PriceLevels) (t : ℕ) (level : FifoLevel) (os : List Order)
    → level.first_order ≡ first_or none os
    → ((settle l t level).levels t).next_priority ≡ (if nonempty os then level.next_priority else 1)
unfolding vacate
settle-sequencer l t level [] first =
    let e : level_is_empty level ≡ true = ap is_none first in
    rw e (ap (λ (k : FifoLevel). k.next_priority) (update_self (update l.levels t level) t _))
settle-sequencer l t level (x ∷ xs) first =
    let e : level_is_empty level ≡ false = ap is_none first in
    rw e (ap (λ (k : FifoLevel). k.next_priority) (update_self l.levels t level))

pub settle-others :
    (l : PriceLevels) (t : ℕ) (level : FifoLevel) (u : ℕ)
    → u ≢ t
    → (settle l t level).levels u ≡ l.levels u
unfolding vacate
settle-others l t level u ne = elim (Bool-cases (level_is_empty level)) [
  | inl e ↦ rw e (update_ne (update l.levels t level) t u _ ne ∙ update_ne l.levels t u level ne)
  | inr e ↦ rw e (update_ne l.levels t u level ne)
]
