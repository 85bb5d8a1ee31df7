-- ===== src/MarketOrderBook/Between.antt =====
-- trading/strategy/market_order_book.h: the circle of a side after a level joined it between two others.
use yquant_system.Base.{
  ℕ, ◌≡◌, ◌≢◌, true, false, Option, some, none, List, ◌∷◌, ◌++◌, refl, sym, ◌∙◌, has, AllDistinct,
  update_self, update_ne, ap, subst, Bool-cases, inl, inr,
}
use yquant_system.Types.{Side}
use yquant_system.MemPool.{MemPool, object}
use yquant_system.MemPool.Inv.{IsValid}
use yquant_system.MarketOrderBook.{MarketOrdersAtPrice, link_before}
use yquant_system.MarketOrderBook.Links.{
  Linked, ptrs, first_or, last_or, Seg, Ring, last_item, before_last, last_or-eq, last_or-drop,
  last_node, Seg-set_next, Seg-set_prev, Seg-frame_one, Seg-append, Seg-split, has_last, apart,
  has-ptrs, AllDistinct-split,
}
use yquant_system.MarketOrderBook.Levels.{Level, on_side}
use yquant_system.MarketOrderBook.Circle.{put, level_node, link_before-eq}
use yquant_system.MarketOrderBook.Join.{Joined, ne_head, has_tail, has_neither}

-- Between two levels: `front` and `x` before it, `z` and `back` after it.
module _ (side : Side) (p : MemPool MarketOrdersAtPrice) (y x : Level) (front : List Level)
    (z : Level) (back : List Level) (before_y after_y : Option ℕ) (v : IsValid p)
    (distinct : AllDistinct (ptrs (on_side side) (y ∷ (x ∷ front) ++ z ∷ back)))
    (ring : Ring (on_side side) p.slot ((x ∷ front) ++ z ∷ back))
    (new : p.slot y.ptr ≡ object (level_node side before_y after_y y)) where
  abbrev c : Linked MarketOrdersAtPrice Level
  c = on_side side

  abbrev u : Level
  u = last_item c x front

  -- What stands before the first level and after the last one.
  abbrev start : Option ℕ
  start = last_or c none ((x ∷ front) ++ z ∷ back)

  fresh : (has y.ptr (ptrs c (x ∷ front)) ≡ false) × (has y.ptr (ptrs c (z ∷ back)) ≡ false)
  fresh = has_neither _ _ (sym (has-ptrs c y.ptr (x ∷ front) (z ∷ back)) ∙ distinct.0)

  parts :
      AllDistinct (ptrs c (x ∷ front))
      × AllDistinct (ptrs c (z ∷ back))
      × ((j : ℕ) → has j (ptrs c (x ∷ front)) ≡ true → has j (ptrs c (z ∷ back)) ≡ false)
  parts = AllDistinct-split c (x ∷ front) (z ∷ back) distinct.1

  halves :
      Seg c p.slot start (some z.ptr) (x ∷ front)
      × Seg c p.slot (some u.ptr) (some x.ptr) (z ∷ back)
  halves =
      let (a, b) = Seg-split c p.slot start (some x.ptr) (x ∷ front) (z ∷ back) ring in
      (a, subst (λ q. Seg c p.slot q (some x.ptr) (z ∷ back)) (last_or-eq c start x front) b)

  abbrev m1 : MemPool MarketOrdersAtPrice
  m1 = put p y.ptr (level_node side (some u.ptr) (some z.ptr) y)

  abbrev m2 : MemPool MarketOrdersAtPrice
  m2 = put m1 u.ptr (level_node side (before_last c start x front) (some y.ptr) u)

  abbrev m3 : MemPool MarketOrdersAtPrice
  m3 = put m2 z.ptr (level_node side (some y.ptr) (first_or c (some x.ptr) back) z)

  not_back : has u.ptr (ptrs c (z ∷ back)) ≡ false
  not_back = parts.2 u.ptr (has_last c x front)

  m1-front : Seg c m1.slot start (some z.ptr) (x ∷ front)
  m1-front = Seg-frame_one c p.slot y.ptr _ start (some z.ptr) (x ∷ front) fresh.0 halves.0

  m1-back : Seg c m1.slot (some u.ptr) (some x.ptr) (z ∷ back)
  m1-back = Seg-frame_one c p.slot y.ptr _ (some u.ptr) (some x.ptr) (z ∷ back) fresh.1 halves.1

  m2-front : Seg c m2.slot start (some y.ptr) (x ∷ front)
  m2-front = Seg-set_next c m1.slot start (some z.ptr) (some y.ptr) x front parts.0 m1-front

  m2-back : Seg c m2.slot (some u.ptr) (some x.ptr) (z ∷ back)
  m2-back = Seg-frame_one c m1.slot u.ptr _ (some u.ptr) (some x.ptr) (z ∷ back) not_back m1-back

  not_front : has z.ptr (ptrs c (x ∷ front)) ≡ false
  not_front = elim (Bool-cases (has z.ptr (ptrs c (x ∷ front)))) [
    | inl e ↦ absurd (ne_head z.ptr z.ptr (ptrs c back) (parts.2 z.ptr e) refl)
    | inr e ↦ e
  ]

  m3-front : Seg c m3.slot start (some y.ptr) (x ∷ front)
  m3-front = Seg-frame_one c m2.slot z.ptr _ start (some y.ptr) (x ∷ front) not_front m2-front

  m3-back : Seg c m3.slot (some y.ptr) (some x.ptr) (z ∷ back)
  m3-back = Seg-set_prev c m2.slot (some u.ptr) (some y.ptr) (some x.ptr) z back parts.1 m2-back

  new_ne : (y.ptr ≢ u.ptr) × (y.ptr ≢ z.ptr)
  new_ne = (
    apart c y.ptr u.ptr (ptrs c (x ∷ front)) fresh.0 (has_last c x front),
    ne_head y.ptr z.ptr (ptrs c back) fresh.1,
  )

  m3-new : m3.slot y.ptr ≡ object (level_node side (last_or c start (x ∷ front)) (some z.ptr) y)
  m3-new =
      update_ne m2.slot z.ptr y.ptr _ new_ne.1
      ∙ update_ne m1.slot u.ptr y.ptr _ new_ne.0
      ∙ update_self p.slot y.ptr _
      ∙ ap (λ q. object (level_node side q (some z.ptr) y)) (sym (last_or-eq c start x front))

  m3-others : (j : ℕ) → has j (ptrs c ((x ∷ front) ++ y ∷ z ∷ back)) ≡ false → m3.slot j ≡ p.slot j
  m3-others j h =
      let (a, b) = has_neither _ _ (sym (has-ptrs c j (x ∷ front) (y ∷ z ∷ back)) ∙ h) in
      update_ne m2.slot z.ptr j _
        (ne_head j z.ptr (ptrs c back) (has_tail j y.ptr (ptrs c (z ∷ back)) b))
      ∙ update_ne m1.slot u.ptr j _ (apart c j u.ptr (ptrs c (x ∷ front)) a (has_last c x front))
      ∙ update_ne p.slot y.ptr j _ (ne_head j y.ptr (ptrs c (z ∷ back)) b)

  m3-Ring : Ring c m3.slot ((x ∷ front) ++ y ∷ z ∷ back)
  m3-Ring =
      subst (λ q. Seg c m3.slot q (some x.ptr) ((x ∷ front) ++ y ∷ z ∷ back))
        (last_or-drop c none none (x ∷ front) y z back)
        (Seg-append c m3.slot start (some x.ptr) (x ∷ front) (y ∷ z ∷ back) m3-front
          (m3-new, m3-back))

  pub join_between :
      (p' : MemPool MarketOrdersAtPrice) × (link_before y.ptr (some z.ptr) p ≡ some p')
      × Joined side p p' ((x ∷ front) ++ y ∷ z ∷ back)
  join_between =
      let run =
        link_before-eq side p y z u before_y after_y (first_or c (some x.ptr) back)
          (before_last c start x front) (some z.ptr) (first_or c (some x.ptr) back) v new halves.1.0
          m1-back.0 (last_node c m1.slot start (some z.ptr) x front m1-front) m2-back.0 in
      (m3, run.0, record { valid = run.1; ring = m3-Ring; others = m3-others })
