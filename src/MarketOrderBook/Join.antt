-- ===== src/MarketOrderBook/Join.antt =====
-- trading/strategy/market_order_book.h: the circle of a side after a level joined it.
use yquant_system.Base.{
  ℕ, ◌≡◌, ◌≢◌, Bool, false, Option, some, none, List, [], ◌∷◌, ◌++◌, arith, sym, ◌∙◌, has,
  AllDistinct, update_self, update_ne, ap, subst, ◌||◌,
}
use yquant_system.Types.{Side}
use yquant_system.MemPool.{MemPool, object}
use yquant_system.MemPool.Inv.{IsValid}
use yquant_system.MarketOrderBook.{MarketOrdersAtPrice, link_before, link_after}
use yquant_system.MarketOrderBook.Links.{
  Linked, ptrs, first_or, last_or, Seg, Ring, last_item, before_last, last_or-eq, last_or-append,
  last_node, Seg-set_next, Seg-set_prev, Seg-frame_one, Seg-append, has_last, apart, has-ptrs,
}
use yquant_system.MarketOrderBook.Levels.{Level, on_side}
use yquant_system.MarketOrderBook.Circle.{put, level_node, link_before-eq, link_after-eq}

-- The pool after the writes: the levels `ws` are a circle, and no other slot changed.
pub record Joined (side : Side) (p p' : MemPool MarketOrdersAtPrice) (ws : List Level)
    : Type 0 where
  pub valid : IsValid p'
  pub ring : Ring (on_side side) p'.slot ws
  pub others : (j : ℕ) → has j (ptrs (on_side side) ws) ≡ false → p'.slot j ≡ p.slot j

pub ne_head : (a b : ℕ) (l : List ℕ) → has a (b ∷ l) ≡ false → a ≢ b
ne_head a b l h e = ground (arith, h, e)

pub has_tail : (a b : ℕ) (l : List ℕ) → has a (b ∷ l) ≡ false → has a l ≡ false
has_tail a b l h = ground (arith, h)

pub has_neither : (a b : Bool) → (a || b) ≡ false → (a ≡ false) × (b ≡ false)
has_neither a b h = ground (arith, h)

module _ (side : Side) (p : MemPool MarketOrdersAtPrice) (y x : Level) (xs : List Level)
    (before_y after_y : Option ℕ) (v : IsValid p)
    (distinct : AllDistinct (ptrs (on_side side) (y ∷ x ∷ xs)))
    (ring : Ring (on_side side) p.slot (x ∷ xs))
    (new : p.slot y.ptr ≡ object (level_node side before_y after_y y)) where
  abbrev k : Linked MarketOrdersAtPrice Level
  k = on_side side

  abbrev w : Level
  w = last_item k x xs

  -- The circle, from its last level to its first.
  circle : Seg k p.slot (some w.ptr) (some x.ptr) (x ∷ xs)
  circle = subst (λ q. Seg k p.slot q (some x.ptr) (x ∷ xs)) (last_or-eq k none x xs) ring

  last_is : (prev : Option ℕ) → last_or k prev (x ∷ xs) ≡ some w.ptr
  last_is prev = last_or-eq k prev x xs

  new_ne_last : y.ptr ≢ w.ptr
  new_ne_last = apart k y.ptr w.ptr (ptrs k (x ∷ xs)) distinct.0 (has_last k x xs)

  new_ne_first : y.ptr ≢ x.ptr
  new_ne_first = ne_head y.ptr x.ptr (ptrs k xs) distinct.0

  -- Before the best level.
  abbrev f1 : MemPool MarketOrdersAtPrice
  f1 = put p y.ptr (level_node side (some w.ptr) (some x.ptr) y)

  abbrev f2 : MemPool MarketOrdersAtPrice
  f2 = put f1 w.ptr (level_node side (before_last k (some w.ptr) x xs) (some y.ptr) w)

  abbrev f3 : MemPool MarketOrdersAtPrice
  f3 = put f2 x.ptr (level_node side (some y.ptr) (first_or k (some y.ptr) xs) x)

  f1-Seg : Seg k f1.slot (some w.ptr) (some x.ptr) (x ∷ xs)
  f1-Seg = Seg-frame_one k p.slot y.ptr _ (some w.ptr) (some x.ptr) (x ∷ xs) distinct.0 circle

  f2-Seg : Seg k f2.slot (some w.ptr) (some y.ptr) (x ∷ xs)
  f2-Seg = Seg-set_next k f1.slot (some w.ptr) (some x.ptr) (some y.ptr) x xs distinct.1 f1-Seg

  f3-Seg : Seg k f3.slot (some y.ptr) (some y.ptr) (x ∷ xs)
  f3-Seg = Seg-set_prev k f2.slot (some w.ptr) (some y.ptr) (some y.ptr) x xs distinct.1 f2-Seg

  f3-new : f3.slot y.ptr ≡ object (level_node side (last_or k (some y.ptr) (x ∷ xs)) (some x.ptr) y)
  f3-new =
      update_ne f2.slot x.ptr y.ptr _ new_ne_first
      ∙ update_ne f1.slot w.ptr y.ptr _ new_ne_last
      ∙ update_self p.slot y.ptr _
      ∙ ap (λ q. object (level_node side q (some x.ptr) y)) (sym (last_is (some y.ptr)))

  f3-others : (j : ℕ) → has j (ptrs k (y ∷ x ∷ xs)) ≡ false → f3.slot j ≡ p.slot j
  f3-others j h =
      update_ne f2.slot x.ptr j _
        (ne_head j x.ptr (ptrs k xs) (has_tail j y.ptr (ptrs k (x ∷ xs)) h))
      ∙ update_ne f1.slot w.ptr j _ (
          apart k j w.ptr (ptrs k (x ∷ xs)) (has_tail j y.ptr (ptrs k (x ∷ xs)) h)
            (has_last k x xs))
      ∙ update_ne p.slot y.ptr j _ (ne_head j y.ptr (ptrs k (x ∷ xs)) h)

  pub join_first :
      (p' : MemPool MarketOrdersAtPrice) × (link_before y.ptr (some x.ptr) p ≡ some p')
      × Joined side p p' (y ∷ x ∷ xs)
  join_first =
      let run =
        link_before-eq side p y x w before_y after_y (first_or k (some x.ptr) xs)
          (before_last k (some w.ptr) x xs) (some x.ptr) (first_or k (some y.ptr) xs) v new circle.0
          f1-Seg.0 (last_node k f1.slot (some w.ptr) (some x.ptr) x xs f1-Seg) f2-Seg.0 in
      (f3, run.0, record { valid = run.1; ring = (f3-new, f3-Seg); others = f3-others })

  -- After the last level.
  abbrev l1 : MemPool MarketOrdersAtPrice
  l1 = put p y.ptr (level_node side (some w.ptr) after_y y)

  abbrev l2 : MemPool MarketOrdersAtPrice
  l2 = put l1 x.ptr (level_node side (some y.ptr) (first_or k (some x.ptr) xs) x)

  abbrev l3 : MemPool MarketOrdersAtPrice
  l3 = put l2 y.ptr (level_node side (some w.ptr) (some x.ptr) y)

  abbrev l4 : MemPool MarketOrdersAtPrice
  l4 = put l3 w.ptr (level_node side (before_last k (some y.ptr) x xs) (some y.ptr) w)

  l1-Seg : Seg k l1.slot (some w.ptr) (some x.ptr) (x ∷ xs)
  l1-Seg = Seg-frame_one k p.slot y.ptr _ (some w.ptr) (some x.ptr) (x ∷ xs) distinct.0 circle

  l2-Seg : Seg k l2.slot (some y.ptr) (some x.ptr) (x ∷ xs)
  l2-Seg = Seg-set_prev k l1.slot (some w.ptr) (some y.ptr) (some x.ptr) x xs distinct.1 l1-Seg

  l3-Seg : Seg k l3.slot (some y.ptr) (some x.ptr) (x ∷ xs)
  l3-Seg = Seg-frame_one k l2.slot y.ptr _ (some y.ptr) (some x.ptr) (x ∷ xs) distinct.0 l2-Seg

  l4-Seg : Seg k l4.slot (some y.ptr) (some y.ptr) (x ∷ xs)
  l4-Seg = Seg-set_next k l3.slot (some y.ptr) (some x.ptr) (some y.ptr) x xs distinct.1 l3-Seg

  l4-new : l4.slot y.ptr ≡ object (level_node side (last_or k (some y.ptr) (x ∷ xs)) (some x.ptr) y)
  l4-new =
      update_ne l3.slot w.ptr y.ptr _ new_ne_last
      ∙ update_self l2.slot y.ptr _
      ∙ ap (λ q. object (level_node side q (some x.ptr) y)) (sym (last_is (some y.ptr)))

  l4-others : (j : ℕ) → has j (ptrs k ((x ∷ xs) ++ y ∷ [])) ≡ false → l4.slot j ≡ p.slot j
  l4-others j h =
      let (a, b) = has_neither _ _ (sym (has-ptrs k j (x ∷ xs) (y ∷ [])) ∙ h) in
      update_ne l3.slot w.ptr j _ (apart k j w.ptr (ptrs k (x ∷ xs)) a (has_last k x xs))
      ∙ update_ne l2.slot y.ptr j _ (ne_head j y.ptr [] b)
      ∙ update_ne l1.slot x.ptr j _ (ne_head j x.ptr (ptrs k xs) a)
      ∙ update_ne p.slot y.ptr j _ (ne_head j y.ptr [] b)

  pub join_last :
      (p' : MemPool MarketOrdersAtPrice) × (link_after x.ptr y.ptr (some x.ptr) p ≡ some p')
      × Joined side p p' ((x ∷ xs) ++ y ∷ [])
  join_last =
      let run =
        link_after-eq side p y x w before_y after_y (first_or k (some x.ptr) xs)
          (before_last k (some w.ptr) x xs) (before_last k (some y.ptr) x xs) v new circle.0
          (last_node k l1.slot (some w.ptr) (some x.ptr) x xs l1-Seg) l1-Seg.0
          (last_node k l2.slot (some y.ptr) (some x.ptr) x xs l2-Seg)
          (update_ne l1.slot x.ptr y.ptr _ new_ne_first ∙ update_self p.slot y.ptr _)
          (last_node k l3.slot (some y.ptr) (some x.ptr) x xs l3-Seg) in
      (
        l4,
        run.0,
        record {
          valid = run.1;
          ring =
              subst (λ q. Seg k l4.slot q (some x.ptr) ((x ∷ xs) ++ y ∷ []))
                (sym (last_or-append k none (x ∷ xs) y))
                (Seg-append k l4.slot (some y.ptr) (some x.ptr) (x ∷ xs) (y ∷ []) l4-Seg
                  (l4-new, tt));
          others = l4-others;
        },
      )
