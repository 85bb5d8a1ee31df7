-- ===== src/MarketOrderBook/Leave.antt =====
-- trading/strategy/market_order_book.h: a circle of nodes after one left it. Levels of a side and orders
-- of a level leave in the same way.
use yquant_system.Base.{
  ℕ, ◌≡◌, false, Option, some, none, List, ◌∷◌, sym, ◌∙◌, has, AllDistinct, update_self, update_ne,
  subst,
}
use yquant_system.MemPool.{MemPool, object}
use yquant_system.MemPool.Inv.{IsValid}
use yquant_system.MarketOrderBook.Links.{
  Linked, ptrs, first_or, Seg, Ring, last_item, before_last, last_or-eq, last_node, Seg-set_next,
  Seg-set_prev, Seg-frame_one, has_last, apart,
}
use yquant_system.MarketOrderBook.Circle.{put}
use yquant_system.MarketOrderBook.Join.{ne_head, has_tail}

-- The pool after the writes: the nodes `ws` are a circle, `z` still has its slot, and no other
-- slot changed.
pub record Left {A X : Type 0} (k : Linked A X) (p p' : MemPool A) (ws : List X) (z : X)
    : Type 0 where
  pub valid : IsValid p'
  pub ring : Ring k p'.slot ws
  pub stays : (n : A) × (p'.slot (k.ptr z) ≡ object n)
  pub others : (j : ℕ) → has j (ptrs k (z ∷ ws)) ≡ false → p'.slot j ≡ p.slot j

-- The pool after the neighbours were linked to each other.
abbrev pub without_links :
    {A X : Type 0} (k : Linked A X) → MemPool A → X → X → Option ℕ → Option ℕ → MemPool A
without_links k p u t before_u after_t =
    put (put p (k.ptr u) (k.node_of before_u (some (k.ptr t)) u)) (k.ptr t)
      (k.node_of (some (k.ptr u)) after_t t)

-- What a function does that takes the links of `z`, between `u` and `t`: the writes, in their order.
abbrev pub Unlinks :
    {A X : Type 0} (k : Linked A X) (unlink : ℕ → MemPool A → Option (Option ℕ × MemPool A))
    → Type 0
Unlinks {A} {X} k unlink =
    (p : MemPool A) (z u t : X) (before_u after_u before_t after_t : Option ℕ)
    → IsValid p
    → p.slot (k.ptr z) ≡ object (k.node_of (some (k.ptr u)) (some (k.ptr t)) z)
    → p.slot (k.ptr u) ≡ object (k.node_of before_u after_u u)
    → (put p (k.ptr u) (k.node_of before_u (some (k.ptr t)) u)).slot (k.ptr z)
      ≡ object (k.node_of (some (k.ptr u)) (some (k.ptr t)) z)
    → (put p (k.ptr u) (k.node_of before_u (some (k.ptr t)) u)).slot (k.ptr t)
      ≡ object (k.node_of before_t after_t t)
    → (without_links k p u t before_u after_t).slot (k.ptr z)
      ≡ object (k.node_of (some (k.ptr u)) (some (k.ptr t)) z)
    → (unlink (k.ptr z) p
        ≡ some (
          some (k.ptr t),
          put (without_links k p u t before_u after_t) (k.ptr z) (k.node_of none none z),
        ))
      × IsValid (put (without_links k p u t before_u after_t) (k.ptr z) (k.node_of none none z))

-- The nodes that stay, `r` and `rs`, follow `z` in the circle.
module _ {A X : Type 0} (k : Linked A X) (unlink : ℕ → MemPool A → Option (Option ℕ × MemPool A))
    (law : Unlinks k unlink) (p : MemPool A) (z r : X) (rs : List X) (v : IsValid p)
    (distinct : AllDistinct (ptrs k (z ∷ r ∷ rs)))
    (seg : Seg k p.slot (some (k.ptr z)) (some (k.ptr z)) (r ∷ rs))
    (old : p.slot (k.ptr z)
      ≡ object (k.node_of (some (k.ptr (last_item k r rs))) (some (k.ptr r)) z)) where
  abbrev w : X
  w = last_item k r rs

  abbrev e1 : MemPool A
  e1 = put p (k.ptr w) (k.node_of (before_last k (some (k.ptr z)) r rs) (some (k.ptr r)) w)

  abbrev e2 : MemPool A
  e2 = put e1 (k.ptr r) (k.node_of (some (k.ptr w)) (first_or k (some (k.ptr r)) rs) r)

  abbrev e3 : MemPool A
  e3 = put e2 (k.ptr z) (k.node_of none none z)

  e1-Seg : Seg k e1.slot (some (k.ptr z)) (some (k.ptr r)) (r ∷ rs)
  e1-Seg =
      Seg-set_next k p.slot (some (k.ptr z)) (some (k.ptr z)) (some (k.ptr r)) r rs distinct.1 seg

  e2-Seg : Seg k e2.slot (some (k.ptr w)) (some (k.ptr r)) (r ∷ rs)
  e2-Seg =
      Seg-set_prev k e1.slot (some (k.ptr z)) (some (k.ptr w)) (some (k.ptr r)) r rs distinct.1
        e1-Seg

  e3-Seg : Seg k e3.slot (some (k.ptr w)) (some (k.ptr r)) (r ∷ rs)
  e3-Seg =
      Seg-frame_one k e2.slot (k.ptr z) _ (some (k.ptr w)) (some (k.ptr r)) (r ∷ rs) distinct.0
        e2-Seg

  e1-old : e1.slot (k.ptr z) ≡ p.slot (k.ptr z)
  e1-old =
      update_ne p.slot (k.ptr w) (k.ptr z) _
        (apart k (k.ptr z) (k.ptr w) (ptrs k (r ∷ rs)) distinct.0 (has_last k r rs))

  e2-old : e2.slot (k.ptr z) ≡ p.slot (k.ptr z)
  e2-old =
      update_ne e1.slot (k.ptr r) (k.ptr z) _ (ne_head (k.ptr z) (k.ptr r) (ptrs k rs) distinct.0)
      ∙ e1-old

  pub leave_end :
      (p' : MemPool A) × (unlink (k.ptr z) p ≡ some (some (k.ptr r), p')) × Left k p p' (r ∷ rs) z
  leave_end =
      let run =
        law p z w r (before_last k (some (k.ptr z)) r rs) (some (k.ptr z)) (some (k.ptr z))
          (first_or k (some (k.ptr r)) rs) v old
          (last_node k p.slot (some (k.ptr z)) (some (k.ptr z)) r rs seg) (e1-old ∙ old) e1-Seg.0
          (e2-old ∙ old) in
      (
        e3,
        run.0,
        record {
          valid = run.1;
          ring =
              subst (λ q. Seg k e3.slot q (some (k.ptr r)) (r ∷ rs)) (sym (last_or-eq k none r rs))
                e3-Seg;
          stays = (_, update_self e2.slot (k.ptr z) _);
          others = λ j h.
              let tail = has_tail j (k.ptr z) (ptrs k (r ∷ rs)) h in
              update_ne e2.slot (k.ptr z) j _ (ne_head j (k.ptr z) (ptrs k (r ∷ rs)) h)
              ∙ update_ne e1.slot (k.ptr r) j _ (ne_head j (k.ptr r) (ptrs k rs) tail)
              ∙ update_ne p.slot (k.ptr w) j _
                  (apart k j (k.ptr w) (ptrs k (r ∷ rs)) tail (has_last k r rs));
        },
      )
