-- ===== src/MarketOrderBook/Within.antt =====
-- trading/strategy/market_order_book.h: a circle of nodes after one between two others left it.
use yquant_system.Base.{
  ℕ, ◌≡◌, true, false, Option, some, none, List, ◌∷◌, ◌++◌, arith, refl, sym, ◌∙◌, has, AllDistinct,
  update_self, update_ne, ==_self, subst, Bool-cases, inl, inr,
}
use yquant_system.MemPool.{MemPool, object}
use yquant_system.MemPool.Inv.{IsValid}
use yquant_system.MarketOrderBook.Links.{
  Linked, ptrs, first_or, last_or, Seg, Ring, last_item, before_last, last_or-eq, last_or-drop,
  last_node, Seg-set_next, Seg-set_prev, Seg-frame_one, Seg-append, Seg-split, has_last, apart,
  has-ptrs, AllDistinct-split,
}
use yquant_system.MarketOrderBook.Circle.{put}
use yquant_system.MarketOrderBook.Join.{ne_head, has_tail, has_neither}
use yquant_system.MarketOrderBook.Leave.{Left, Unlinks}

-- `x` and `front` stand before `z`, and `t` and `back` after it.
module _ {A X : Type 0} (k : Linked A X) (unlink : ℕ → MemPool A → Option (Option ℕ × MemPool A))
    (law : Unlinks k unlink) (p : MemPool A) (z x : X) (front : List X) (t : X) (back : List X)
    (v : IsValid p) (distinct : AllDistinct (ptrs k ((x ∷ front) ++ z ∷ t ∷ back)))
    (ring : Ring k p.slot ((x ∷ front) ++ z ∷ t ∷ back)) where
  abbrev u : X
  u = last_item k x front

  abbrev start : Option ℕ
  start = last_or k none ((x ∷ front) ++ z ∷ t ∷ back)

  parts :
      AllDistinct (ptrs k (x ∷ front))
      × AllDistinct (ptrs k (z ∷ t ∷ back))
      × ((j : ℕ) → has j (ptrs k (x ∷ front)) ≡ true → has j (ptrs k (z ∷ t ∷ back)) ≡ false)
  parts = AllDistinct-split k (x ∷ front) (z ∷ t ∷ back) distinct

  halves :
      Seg k p.slot start (some (k.ptr z)) (x ∷ front)
      × Seg k p.slot (some (k.ptr u)) (some (k.ptr x)) (z ∷ t ∷ back)
  halves =
      let (a, b) = Seg-split k p.slot start (some (k.ptr x)) (x ∷ front) (z ∷ t ∷ back) ring in
      (
        a,
        subst (λ q. Seg k p.slot q (some (k.ptr x)) (z ∷ t ∷ back)) (last_or-eq k start x front) b,
      )

  abbrev m1 : MemPool A
  m1 = put p (k.ptr u) (k.node_of (before_last k start x front) (some (k.ptr t)) u)

  abbrev m2 : MemPool A
  m2 = put m1 (k.ptr t) (k.node_of (some (k.ptr u)) (first_or k (some (k.ptr x)) back) t)

  abbrev m3 : MemPool A
  m3 = put m2 (k.ptr z) (k.node_of none none z)

  not_back : has (k.ptr u) (ptrs k (z ∷ t ∷ back)) ≡ false
  not_back = parts.2 (k.ptr u) (has_last k x front)

  not_front : (j : ℕ) → has j (ptrs k (z ∷ t ∷ back)) ≡ true → has j (ptrs k (x ∷ front)) ≡ false
  not_front j h = elim (Bool-cases (has j (ptrs k (x ∷ front)))) [
    | inl e ↦ absurd (cc (sym h ∙ parts.2 j e))
    | inr e ↦ e
  ]

  z_not_front : has (k.ptr z) (ptrs k (x ∷ front)) ≡ false
  z_not_front = not_front (k.ptr z) (rw ==_self refl)

  t_not_front : has (k.ptr t) (ptrs k (x ∷ front)) ≡ false
  t_not_front = not_front (k.ptr t) (ground (arith, ==_self (k.ptr t)))

  m1-front : Seg k m1.slot start (some (k.ptr t)) (x ∷ front)
  m1-front = Seg-set_next k p.slot start (some (k.ptr z)) (some (k.ptr t)) x front parts.0 halves.0

  m1-back : Seg k m1.slot (some (k.ptr u)) (some (k.ptr x)) (z ∷ t ∷ back)
  m1-back =
      Seg-frame_one k p.slot (k.ptr u) _ (some (k.ptr u)) (some (k.ptr x)) (z ∷ t ∷ back) not_back
        halves.1

  m2-front : Seg k m2.slot start (some (k.ptr t)) (x ∷ front)
  m2-front =
      Seg-frame_one k m1.slot (k.ptr t) _ start (some (k.ptr t)) (x ∷ front) t_not_front m1-front

  m2-back : Seg k m2.slot (some (k.ptr u)) (some (k.ptr x)) (t ∷ back)
  m2-back =
      Seg-set_prev k m1.slot (some (k.ptr z)) (some (k.ptr u)) (some (k.ptr x)) t back parts.1.1
        m1-back.1

  m2-old : m2.slot (k.ptr z) ≡ object (k.node_of (some (k.ptr u)) (some (k.ptr t)) z)
  m2-old =
      update_ne m1.slot (k.ptr t) (k.ptr z) _ (ne_head (k.ptr z) (k.ptr t) (ptrs k back) parts.1.0)
      ∙ m1-back.0

  m3-Ring : Ring k m3.slot ((x ∷ front) ++ t ∷ back)
  m3-Ring =
      subst (λ q. Seg k m3.slot q (some (k.ptr x)) ((x ∷ front) ++ t ∷ back))
        (sym (last_or-drop k none none (x ∷ front) z t back))
        (Seg-append k m3.slot start (some (k.ptr x)) (x ∷ front) (t ∷ back)
          (Seg-frame_one k m2.slot (k.ptr z) _ start (some (k.ptr t)) (x ∷ front) z_not_front
            m2-front)
          (subst (λ q. Seg k m3.slot q (some (k.ptr x)) (t ∷ back))
            (sym (last_or-eq k start x front))
            (Seg-frame_one k m2.slot (k.ptr z) _ (some (k.ptr u)) (some (k.ptr x)) (t ∷ back)
              parts.1.0 m2-back)))

  pub leave_between :
      (p' : MemPool A) × (unlink (k.ptr z) p ≡ some (some (k.ptr t), p'))
      × Left k p p' ((x ∷ front) ++ t ∷ back) z
  leave_between =
      let run =
        law p z u t (before_last k start x front) (some (k.ptr z)) (some (k.ptr z))
          (first_or k (some (k.ptr x)) back) v halves.1.0
          (last_node k p.slot start (some (k.ptr z)) x front halves.0) m1-back.0 m1-back.1.0
          m2-old in
      (
        m3,
        run.0,
        record {
          valid = run.1;
          ring = m3-Ring;
          stays = (_, update_self m2.slot (k.ptr z) _);
          others = λ j h.
              let (a, b) = has_neither _ _ (
                sym (has-ptrs k j (x ∷ front) (t ∷ back))
                ∙ has_tail j (k.ptr z) (ptrs k ((x ∷ front) ++ t ∷ back)) h) in
              update_ne m2.slot (k.ptr z) j _
                (ne_head j (k.ptr z) (ptrs k ((x ∷ front) ++ t ∷ back)) h)
              ∙ update_ne m1.slot (k.ptr t) j _ (ne_head j (k.ptr t) (ptrs k back) b)
              ∙ update_ne p.slot (k.ptr u) j _
                  (apart k j (k.ptr u) (ptrs k (x ∷ front)) a (has_last k x front));
        },
      )
