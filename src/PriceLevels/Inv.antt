-- ===== src/PriceLevels/Inv.antt =====
-- exchange/matcher/price_levels.h: what holds of one side of the book between calls, and what the
-- side stands for: at each tick the list of its resting orders, the oldest first.
use yquant_system.Base.{
  ℕ, ◌+◌, ◌%◌, ◌≤◌, ◌<◌, ◌≡◌, ◌≢◌, Bool, false, Option, none, some, List, [], ◌∷◌, ◌++◌, refl, sym,
  ◌∙◌, AllDistinct, nonempty, ap, update, update_ne, subst, Bool-cases, inl, inr, ◌==◌, ==→eq,
  ==→ne,
}
use yquant_system.Types.{Side, buy, sell, no_side, u64_mod, u32_mod}
use yquant_system.MemPool.{Slot, raw, object, next_free}
use yquant_system.Bitmap.{occupied, tick_count}
use yquant_system.Bitmap.Marks.{IsSummarised, empty-IsSummarised}
use yquant_system.Bitmap.Find.{IsBest}
use yquant_system.PriceLevels.{LevelRef, OrderNode, FifoLevel, PriceLevels, new_side}
use yquant_system.PriceLevels.Queue.{Order, Slots, node_of, ptrs, first_or, last_or, Seg}

-- `Queues`: the resting orders of one side, by tick.
abbrev pub Queues : Type 0
Queues = ℕ → List Order

abbrev pub sum_remaining : List Order → ℕ
sum_remaining [] = 0
sum_remaining (o ∷ os) = o.remaining + sum_remaining os

-- A resting order has something left, and its quantity is a word of 32 bits.
abbrev pub AllResting : List Order → Type 0
AllResting [] = Unit {0}
AllResting (o ∷ os) = (0 < o.remaining) × (o.remaining < u32_mod) × AllResting os

abbrev pub ref_at : Side → ℕ → LevelRef
ref_at side t = record { side = side; index = t }

abbrev pub AreResting : Queues → Type 0
AreResting q = (t : ℕ) → AllResting (q t)

-- One level: its pointers are the ends of the linked list, its total is the sum of its orders, and
-- an empty level has its sequencer reset.
pub record LevelInv (s : Slots) (ref : LevelRef) (level : FifoLevel) (os : List Order)
    : Type 0 where
  pub seg : Seg s ref none none os
  pub distinct : AllDistinct (ptrs os)
  pub first : level.first_order ≡ first_or none os
  pub last : level.last_order ≡ last_or none os
  pub total : level.total_quantity ≡ sum_remaining os % u64_mod
  pub reset : nonempty os ≡ false → level.next_priority ≡ 1

abbrev pub has_orders : Queues → ℕ → Bool
has_orders q t = nonempty (q t)

-- An order at the end of the queue of its tick.
abbrev pub append_at : Queues → ℕ → Order → Queues
append_at q t o = update q t (q t ++ o ∷ [])

-- One side: every level holds its queue; the bitmap marks exactly the ticks with orders, and the
-- cached tick is the best of them.
pub record SideInv (s : Slots) (l : PriceLevels) (q : Queues) : Type 0 where
  pub level_inv : (t : ℕ) → LevelInv s (ref_at l.side t) (l.levels t) (q t)
  pub inside : (t : ℕ) → tick_count ≤ t → q t ≡ []
  pub bits : (t : ℕ) → occupied l.bitmap t ≡ has_orders q t
  pub summarised : IsSummarised l.bitmap
  pub best : IsBest l.side (has_orders q) l.best_tick

-- A write to the slots of one level's nodes, and to slots that held no node.
abbrev pub Untouched : Slots → Slots → LevelRef → Type 0
Untouched s s' ref = (j : ℕ) (n : OrderNode) → s j ≡ object n → n.level ≢ some ref → s' j ≡ s j

pub Seg-Untouched :
    (s s' : Slots) (ref ref' : LevelRef) (prev next : Option ℕ) (os : List Order)
    → ref' ≢ ref
    → Untouched s s' ref
    → Seg s ref' prev next os
    → Seg s' ref' prev next os
Seg-Untouched s s' ref ref' prev next [] ne u h = tt
Seg-Untouched s s' ref ref' prev next (o ∷ os) ne u h = (
  u o.ptr (node_of ref' prev (first_or next os) o) h.0 (λ e. ne (cc)) ∙ h.0,
  Seg-Untouched s s' ref ref' (some o.ptr) next os ne u h.1,
)

pub LevelInv-Untouched :
    (s s' : Slots) (ref ref' : LevelRef) (level : FifoLevel) (os : List Order)
    → ref' ≢ ref
    → Untouched s s' ref
    → LevelInv s ref' level os
    → LevelInv s' ref' level os
LevelInv-Untouched s s' ref ref' level os ne u v = record {
  seg = Seg-Untouched s s' ref ref' none none os ne u v.seg;
  distinct = v.distinct;
  first = v.first;
  last = v.last;
  total = v.total;
  reset = v.reset;
}

-- The other side is not concerned by a change of one level of this side.
pub SideInv-Untouched :
    (s s' : Slots) (ref : LevelRef) (l : PriceLevels) (q : Queues)
    → l.side ≢ ref.side
    → Untouched s s' ref
    → SideInv s l q
    → SideInv s' l q
SideInv-Untouched s s' ref l q ne u v = record {
  level_inv = λ t.
      LevelInv-Untouched s s' ref (ref_at l.side t) (l.levels t) (q t)
        (λ e. ne (ap (λ r. r.side) e)) u (v.level_inv t);
  inside = v.inside;
  bits = v.bits;
  summarised = v.summarised;
  best = v.best;
}

-- What a node keeps as long as it rests.
pub record Identity : Type 0 where
  pub level : Option LevelRef
  pub market_order_id : ℕ
  pub client_order_id : ℕ
  pub client_id : ℕ

abbrev pub identity : OrderNode → Identity
identity n = record {
  level = n.level;
  market_order_id = n.market_order_id;
  client_order_id = n.client_order_id;
  client_id = n.client_id;
}

abbrev pub identity_at : Slot OrderNode → Option Identity
identity_at raw = none
identity_at (object n) = some (identity n)
identity_at (next_free _) = none

abbrev pub order_identity : LevelRef → Order → Identity
order_identity ref o = record {
  level = some ref;
  market_order_id = o.market_order_id;
  client_order_id = o.client_order_id;
  client_id = o.client_id;
}

-- A write to a node that keeps its identity keeps every identity.
pub identity-write :
    (s : Slots) (i : ℕ) (n n' : OrderNode)
    → s i ≡ object n
    → identity n' ≡ identity n
    → (j : ℕ) → identity_at (update s i (object n') j) ≡ identity_at (s j)
identity-write s i n n' h e j = elim (Bool-cases (j == i)) [
  | inl f ↦
      rw f (ap some e ∙ ap identity_at (sym h) ∙ ap (λ k. identity_at (s k)) (sym (==→eq j i f)))
  | inr f ↦ rw f
]

-- A write to a node of a level touches that level alone.
pub Untouched-write :
    (s : Slots) (i : ℕ) (n : OrderNode) (c : Slot OrderNode) (ref : LevelRef)
    → s i ≡ object n
    → n.level ≡ some ref
    → Untouched s (update s i c) ref
Untouched-write s i n c ref h e j m g ne =
    update_ne s i j c (λ d. ne (level_eq (sym g ∙ ap s d ∙ h)))
  where
    level_eq : object m ≡ object n → m.level ≡ some ref
    level_eq f = cc

pub Untouched-trans :
    (s s' s'' : Slots) (ref : LevelRef)
    → Untouched s s' ref
    → Untouched s' s'' ref
    → Untouched s s'' ref
Untouched-trans s s' s'' ref u v j n h ne = v j n (u j n h ne ∙ h) ne ∙ u j n h ne

-- A change at one tick of the levels and of the queues.
pub update_both :
    (P : ℕ → FifoLevel → List Order → Type 0) (levels : ℕ → FifoLevel) (q : Queues) (t : ℕ)
    (level : FifoLevel) (os : List Order)
    → P t level os
    → ((u : ℕ) → u ≢ t → P u (levels u) (q u))
    → (u : ℕ) → P u (update levels t level u) (update q t os u)
update_both P levels q t level os here else_where u = elim (Bool-cases (u == t)) [
  | inl e ↦ rw e (subst (λ k. P k level os) (sym (==→eq u t e)) here)
  | inr e ↦ rw e (else_where u (==→ne u t e))
]

abbrev pub no_orders : Queues
no_orders t = []

-- A side that was just made holds no order, whatever the pool holds.
pub new_side-SideInv : (s : Slots) (side : Side) → SideInv s (new_side side) no_orders
new_side-SideInv s side = record {
  level_inv = λ t. record {
    seg = tt;
    distinct = tt;
    first = refl;
    last = refl;
    total = refl;
    reset = λ _. refl;
  };
  inside = λ t _. refl;
  bits = λ t. refl;
  summarised = empty-IsSummarised;
  best = none_best side;
}
  where
    none_best : (side : Side) → IsBest side (λ _. false) none
    none_best buy = λ t l. refl
    none_best sell = λ t l m. refl
    none_best no_side = λ t l m. refl
