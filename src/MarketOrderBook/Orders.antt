-- ===== src/MarketOrderBook/Orders.antt =====
-- trading/strategy/market_order_book.h: the orders of a level, oldest first.
use yquant_system.Base.{
  ℕ, ◌≡◌, false, Option, some, none, List, [], ◌∷◌, ◌++◌, refl, sym, ◌∙◌, has, AllDistinct,
  update_self, update_ne, ap, subst,
}
use yquant_system.Base.Int.{ℤ}
use yquant_system.Types.{Side}
use yquant_system.MemPool.{MemPool, object}
use yquant_system.MemPool.Inv.{IsValid}
use yquant_system.MemPool.Free.{load-eq, modify-eq, modify-IsValid}
use yquant_system.MarketOrderBook.{MarketOrder, set_prev_order, set_next_order}
use yquant_system.MarketOrderBook.Updates.{append_order, unlink_node}
use yquant_system.MarketOrderBook.Links.{
  Linked, ptrs, first_or, last_or, Seg, Ring, last_item, before_last, last_or-eq, last_or-append,
  last_node, Seg-set_next, Seg-set_prev, Seg-frame_one, Seg-append, has_last, apart, has-ptrs,
}
use yquant_system.MarketOrderBook.Circle.{put}
use yquant_system.MarketOrderBook.Join.{ne_head, has_neither}
use yquant_system.MarketOrderBook.Leave.{Unlinks}

-- An order, without its links.
pub record Item : Type 0 where
  pub ptr : ℕ
  pub order_id : ℕ
  pub side : Side
  pub price : ℤ
  pub qty : ℕ
  pub priority : ℕ

abbrev pub order_node : Option ℕ → Option ℕ → Item → MarketOrder
order_node prev next x = record {
  order_id = x.order_id;
  side = x.side;
  price = x.price;
  qty = x.qty;
  priority = x.priority;
  prev_order = prev;
  next_order = next;
}

abbrev pub in_level : Linked MarketOrder Item
in_level = record { ptr = λ x. x.ptr; node_of = order_node }

pub unlink_node-Unlinks : Unlinks in_level unlink_node
unfolding unlink_node
unlink_node-Unlinks p z u t before_u after_u before_t after_t v ez eu e1z e1t e2z =
    let q1 = put p u.ptr (order_node before_u (some t.ptr) u) in
    let q2 = put q1 t.ptr (order_node (some u.ptr) after_t t) in
    let v1 = modify-IsValid p u.ptr _ (order_node before_u (some t.ptr) u) v eu in
    let v2 = modify-IsValid q1 t.ptr _ (order_node (some u.ptr) after_t t) v1 e1t in
    let v3 = modify-IsValid q2 z.ptr _ (order_node none none z) v2 e2z in
    (
      rw
          (
            load-eq p z.ptr _ ez,
            modify-eq (set_next_order (some t.ptr)) p u.ptr _ eu,
            modify-eq (set_prev_order (some u.ptr)) q1 t.ptr _ e1t,
            modify-eq (λ n. set_prev_order none (set_next_order none n)) q2 z.ptr _ e2z,
          )
          refl,
      v3,
    )

-- The pool after an order joined the end of a level.
pub record Queued (p p' : MemPool MarketOrder) (os : List Item) : Type 0 where
  pub valid : IsValid p'
  pub ring : Ring in_level p'.slot os
  pub others : (j : ℕ) → has j (ptrs in_level os) ≡ false → p'.slot j ≡ p.slot j

module _ (p : MemPool MarketOrder) (y x : Item) (xs : List Item) (before_y after_y : Option ℕ)
    (v : IsValid p) (distinct : AllDistinct (ptrs in_level (y ∷ x ∷ xs)))
    (ring : Ring in_level p.slot (x ∷ xs))
    (new : p.slot y.ptr ≡ object (order_node before_y after_y y)) where
  abbrev k : Linked MarketOrder Item
  k = in_level

  abbrev w : Item
  w = last_item k x xs

  circle : Seg k p.slot (some w.ptr) (some x.ptr) (x ∷ xs)
  circle = subst (λ q. Seg k p.slot q (some x.ptr) (x ∷ xs)) (last_or-eq k none x xs) ring

  abbrev r1 : MemPool MarketOrder
  r1 = put p w.ptr (order_node (before_last k (some w.ptr) x xs) (some y.ptr) w)

  abbrev r2 : MemPool MarketOrder
  r2 = put r1 y.ptr (order_node (some w.ptr) (some x.ptr) y)

  abbrev r3 : MemPool MarketOrder
  r3 = put r2 x.ptr (order_node (some y.ptr) (first_or k (some y.ptr) xs) x)

  r1-Seg : Seg k r1.slot (some w.ptr) (some y.ptr) (x ∷ xs)
  r1-Seg = Seg-set_next k p.slot (some w.ptr) (some x.ptr) (some y.ptr) x xs distinct.1 circle

  r2-Seg : Seg k r2.slot (some w.ptr) (some y.ptr) (x ∷ xs)
  r2-Seg = Seg-frame_one k r1.slot y.ptr _ (some w.ptr) (some y.ptr) (x ∷ xs) distinct.0 r1-Seg

  r3-Seg : Seg k r3.slot (some y.ptr) (some y.ptr) (x ∷ xs)
  r3-Seg = Seg-set_prev k r2.slot (some w.ptr) (some y.ptr) (some y.ptr) x xs distinct.1 r2-Seg

  r1-new : r1.slot y.ptr ≡ object (order_node before_y after_y y)
  r1-new =
      update_ne p.slot w.ptr y.ptr _
        (apart k y.ptr w.ptr (ptrs k (x ∷ xs)) distinct.0 (has_last k x xs))
      ∙ new

  r3-new : r3.slot y.ptr ≡ object (order_node (last_or k (some y.ptr) (x ∷ xs)) (some x.ptr) y)
  r3-new =
      update_ne r2.slot x.ptr y.ptr _ (ne_head y.ptr x.ptr (ptrs k xs) distinct.0)
      ∙ update_self r1.slot y.ptr _
      ∙ ap (λ q. object (order_node q (some x.ptr) y)) (sym (last_or-eq k (some y.ptr) x xs))

  append_order-eq : append_order y.ptr (some x.ptr) p ≡ some r3
  unfolding append_order
  append_order-eq =
      rw
        (
          load-eq p x.ptr _ circle.0,
          modify-eq (set_next_order (some y.ptr)) p w.ptr _
              (last_node k p.slot (some w.ptr) (some x.ptr) x xs circle),
          load-eq r1 x.ptr _ r1-Seg.0,
          modify-eq (λ n. set_next_order (some x.ptr) (set_prev_order (some w.ptr) n)) r1 y.ptr _
              r1-new,
          modify-eq (set_prev_order (some y.ptr)) r2 x.ptr _ r2-Seg.0,
        )
        refl

  r3-others : (j : ℕ) → has j (ptrs k ((x ∷ xs) ++ y ∷ [])) ≡ false → r3.slot j ≡ p.slot j
  r3-others j h =
      let (a, b) = has_neither _ _ (sym (has-ptrs k j (x ∷ xs) (y ∷ [])) ∙ h) in
      update_ne r2.slot x.ptr j _ (ne_head j x.ptr (ptrs k xs) a)
      ∙ update_ne r1.slot y.ptr j _ (ne_head j y.ptr [] b)
      ∙ update_ne p.slot w.ptr j _ (apart k j w.ptr (ptrs k (x ∷ xs)) a (has_last k x xs))

  pub append_order-Queued :
      (p' : MemPool MarketOrder) × (append_order y.ptr (some x.ptr) p ≡ some p')
      × Queued p p' ((x ∷ xs) ++ y ∷ [])
  append_order-Queued =
      let v1 =
        modify-IsValid p w.ptr _ (order_node (before_last k (some w.ptr) x xs) (some y.ptr) w) v
          (last_node k p.slot (some w.ptr) (some x.ptr) x xs circle) in
      let v2 = modify-IsValid r1 y.ptr _ (order_node (some w.ptr) (some x.ptr) y) v1 r1-new in
      (
        r3,
        append_order-eq,
        record {
          valid =
              modify-IsValid r2 x.ptr _ (order_node (some y.ptr) (first_or k (some y.ptr) xs) x) v2
                r2-Seg.0;
          ring =
              subst (λ q. Seg k r3.slot q (some x.ptr) ((x ∷ xs) ++ y ∷ []))
                (sym (last_or-append k none (x ∷ xs) y))
                (Seg-append k r3.slot (some y.ptr) (some x.ptr) (x ∷ xs) (y ∷ []) r3-Seg
                  (r3-new, tt));
          others = r3-others;
        },
      )
