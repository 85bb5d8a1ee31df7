-- ===== src/MarketOrderBook/Circle.antt =====
-- trading/strategy/market_order_book.h: the writes by which a level joins the circle of its side.
use yquant_system.Base.{ℕ, ◌≡◌, Option, some, refl, update, ==_self}
use yquant_system.Types.{Side}
use yquant_system.MemPool.{MemPool, object}
use yquant_system.MemPool.Inv.{IsValid}
use yquant_system.MemPool.Free.{load-eq, modify-eq, modify-IsValid}
use yquant_system.MarketOrderBook.{
  MarketOrdersAtPrice, link_before, link_after, set_prev_entry, set_next_entry,
}
use yquant_system.MarketOrderBook.Levels.{Level, on_side}

-- The pool after a write to an object.
abbrev pub put : {A : Type 0} → MemPool A → ℕ → A → MemPool A
put p i a = record p { slot = update p.slot i (object a) }

abbrev pub level_node : Side → Option ℕ → Option ℕ → Level → MarketOrdersAtPrice
level_node side = (on_side side).node_of

-- A new level `y` before `z`, whose predecessor is `w`: the writes, in their order.
module _ (side : Side) (p : MemPool MarketOrdersAtPrice) (y z w : Level)
    (before_y after_y after_z before_w after_w later_z : Option ℕ) where
  abbrev pub b1 : MemPool MarketOrdersAtPrice
  b1 = put p y.ptr (level_node side (some w.ptr) (some z.ptr) y)

  abbrev pub b2 : MemPool MarketOrdersAtPrice
  b2 = put b1 w.ptr (level_node side before_w (some y.ptr) w)

  abbrev pub b3 : MemPool MarketOrdersAtPrice
  b3 = put b2 z.ptr (level_node side (some y.ptr) later_z z)

  pub link_before-eq :
      IsValid p
      → p.slot y.ptr ≡ object (level_node side before_y after_y y)
      → p.slot z.ptr ≡ object (level_node side (some w.ptr) after_z z)
      → b1.slot z.ptr ≡ object (level_node side (some w.ptr) after_z z)
      → b1.slot w.ptr ≡ object (level_node side before_w after_w w)
      → b2.slot z.ptr ≡ object (level_node side (some w.ptr) later_z z)
      → (link_before y.ptr (some z.ptr) p ≡ some b3) × IsValid b3
  unfolding link_before
  link_before-eq v ey ez e1 ew e2 =
      let v1 = modify-IsValid p y.ptr _ (level_node side (some w.ptr) (some z.ptr) y) v ey in
      let v2 = modify-IsValid b1 w.ptr _ (level_node side before_w (some y.ptr) w) v1 ew in
      let v3 = modify-IsValid b2 z.ptr _ (level_node side (some y.ptr) later_z z) v2 e2 in
      (
        rw
            (
              load-eq p z.ptr _ ez,
              modify-eq (λ n. set_next_entry (some z.ptr) (set_prev_entry (some w.ptr) n)) p y.ptr _
                  ey,
              load-eq b1 z.ptr _ e1,
              modify-eq (set_next_entry (some y.ptr)) b1 w.ptr _ ew,
              modify-eq (set_prev_entry (some y.ptr)) b2 z.ptr _ e2,
            )
            refl,
        v3,
      )

-- A new level `y` after the last one, `w`; `x` is the best one.
module _ (side : Side) (p : MemPool MarketOrdersAtPrice) (y x w : Level)
    (before_y after_y after_x before_w later_w : Option ℕ) where
  abbrev pub a1 : MemPool MarketOrdersAtPrice
  a1 = put p y.ptr (level_node side (some w.ptr) after_y y)

  abbrev pub a2 : MemPool MarketOrdersAtPrice
  a2 = put a1 x.ptr (level_node side (some y.ptr) after_x x)

  abbrev pub a3 : MemPool MarketOrdersAtPrice
  a3 = put a2 y.ptr (level_node side (some w.ptr) (some x.ptr) y)

  abbrev pub a4 : MemPool MarketOrdersAtPrice
  a4 = put a3 w.ptr (level_node side later_w (some y.ptr) w)

  pub link_after-eq :
      IsValid p
      → p.slot y.ptr ≡ object (level_node side before_y after_y y)
      → p.slot x.ptr ≡ object (level_node side (some w.ptr) after_x x)
      → a1.slot w.ptr ≡ object (level_node side before_w (some x.ptr) w)
      → a1.slot x.ptr ≡ object (level_node side (some w.ptr) after_x x)
      → a2.slot w.ptr ≡ object (level_node side later_w (some x.ptr) w)
      → a2.slot y.ptr ≡ object (level_node side (some w.ptr) after_y y)
      → a3.slot w.ptr ≡ object (level_node side later_w (some x.ptr) w)
      → (link_after x.ptr y.ptr (some x.ptr) p ≡ some a4) × IsValid a4
  unfolding link_after
  link_after-eq v ey ex e1w e1x e2w e2y e3w =
      let v1 = modify-IsValid p y.ptr _ (level_node side (some w.ptr) after_y y) v ey in
      let v2 = modify-IsValid a1 x.ptr _ (level_node side (some y.ptr) after_x x) v1 e1x in
      let v3 = modify-IsValid a2 y.ptr _ (level_node side (some w.ptr) (some x.ptr) y) v2 e2y in
      let v4 = modify-IsValid a3 w.ptr _ (level_node side later_w (some y.ptr) w) v3 e3w in
      (
        rw
            (
              load-eq p x.ptr _ ex,
              ==_self x.ptr,
              modify-eq (set_prev_entry (some w.ptr)) p y.ptr _ ey,
              load-eq a1 w.ptr _ e1w,
              modify-eq (set_prev_entry (some y.ptr)) a1 x.ptr _ e1x,
              load-eq a2 w.ptr _ e2w,
              modify-eq (set_next_entry (some x.ptr)) a2 y.ptr _ e2y,
              modify-eq (set_next_entry (some y.ptr)) a3 w.ptr _ e3w,
            )
            refl,
        v4,
      )
