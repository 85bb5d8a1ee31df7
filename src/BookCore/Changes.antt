-- ===== src/BookCore/Changes.antt =====
-- exchange/matcher/book_core.cc: a fill, a removal and an addition keep the invariant of the book.
use yquant_system.Base.{
  ℕ, ◌<◌, ◌≡◌, ◌≢◌, ◌⊎◌, Bool, true, none, some, List, [], ◌∷◌, ◌++◌, arith, refl, sym, ◌∙◌, ap,
  has, subst, ◌==◌, Bool-cases, inl, inr, ==→eq, ==→ne, ne→==,
}
use yquant_system.Types.{max_num_clients, max_order_ids}
use yquant_system.MemPool.{Slot, raw, next_free, object, object_at}
use yquant_system.Bitmap.{tick_count}
use yquant_system.PriceLevels.{OrderNode, PriceLevels, Pool}
use yquant_system.PriceLevels.Queue.{Order, ptrs}
use yquant_system.PriceLevels.Orders.{ptrs-replace, has_middle, has-append_one}
use yquant_system.PriceLevels.Inv.{ref_at, Identity, identity_at, order_identity}
use yquant_system.PriceLevels.Add.{Added}
use yquant_system.PriceLevels.Fill.{Filled, filled}
use yquant_system.PriceLevels.Remove.{Removed}
use yquant_system.BookCore.{BookCore, ClientOrderIdTable, at_side, set_side}
use yquant_system.BookCore.Inv.{BookInv, BookQueues, lookup}
use yquant_system.BookCore.Steps.{
  set_queue, set_queue_self, Located-set, IsPlaced, IsIndexed, step-BookInv,
}

gone : (s : Slot OrderNode) (d : Identity) → object_at s ≡ none → identity_at s ≢ some d
gone raw d e h = cc
gone (object n) d e h = cc
gone (next_free n) d e h = cc

-- A fill keeps the invariant.
pub fill-BookInv :
    (b : BookCore) (q : BookQueues) (k : Bool) (t : ℕ) (xs ys : List Order) (o : Order)
    (quantity : ℕ) (p' : Pool) (l' : PriceLevels)
    → BookInv b q
    → q k t ≡ xs ++ o ∷ ys
    → Filled b.order_pool (at_side k b) (q k) t xs o quantity ys p' l'
    → BookInv (set_side k p' l' b) (set_queue k t (xs ++ filled o quantity ∷ ys) q)
fill-BookInv b q k t xs ys o quantity p' l' v eq f =
    step-BookInv b q k t (xs ++ filled o quantity ∷ ys) p' l' b.orders v f.valid f.same_capacity
      f.same_side f.side_inv f.untouched
      (λ j d h.
        let h' = sym (f.others j) ∙ h in
        (
          Located-set q k t (xs ++ filled o quantity ∷ ys) j d
              (λ e.
                ap (has j) (ptrs-replace xs ys o (filled o quantity) refl)
                ∙ sym (ap (λ z. has j (ptrs z)) eq)
                ∙ e)
              (v.located j d h'),
          (v.bounded j d h').0,
          (v.bounded j d h').1,
        ))
      (λ c oid j h. let (d, e, f1, g) = v.indexed c oid j h in (d, f.others j ∙ e, f1, g))

-- The removal of an order that the index does not lead to any more keeps the invariant.
pub remove-BookInv :
    (b : BookCore) (q : BookQueues) (k : Bool) (t : ℕ) (xs ys : List Order) (o : Order) (p' : Pool)
    (l' : PriceLevels) (orders' : ClientOrderIdTable)
    → BookInv b q
    → q k t ≡ xs ++ o ∷ ys
    → Removed b.order_pool (at_side k b) (q k) t xs o ys p' l'
    → ((c oid j : ℕ)
        → lookup orders' c oid ≡ some j
        → (lookup b.orders c oid ≡ some j) × (j ≢ o.ptr))
    → BookInv (set_side k p' l' (record b { orders = orders' })) (set_queue k t (xs ++ ys) q)
remove-BookInv b q k t xs ys o p' l' orders' v eq r keep =
    step-BookInv b q k t (xs ++ ys) p' l' orders' v r.valid r.same_capacity r.same_side r.side_inv
      r.untouched
      (λ j d h.
        let ne = apart j d h in
        let h' = sym (r.others j ne) ∙ h in
        (
          Located-set q k t (xs ++ ys) j d (still j ne) (v.located j d h'),
          (v.bounded j d h').0,
          (v.bounded j d h').1,
        ))
      (λ c oid j h.
        let (h', ne) = keep c oid j h in
        let (d, e, f, g) = v.indexed c oid j h' in (d, r.others j ne ∙ e, f, g))
  where
    apart : (j : ℕ) (d : Identity) → identity_at (p'.slot j) ≡ some d → j ≢ o.ptr
    apart j d h e = gone (p'.slot o.ptr) d r.gone (ap (λ n. identity_at (p'.slot n)) (sym e) ∙ h)

    still : (j : ℕ) → j ≢ o.ptr → has j (ptrs (q k t)) ≡ true → has j (ptrs (xs ++ ys)) ≡ true
    still j ne h =
        let m = sym (has_middle j xs ys o) ∙ sym (ap (λ z. has j (ptrs z)) eq) ∙ h in
        let n = ne→== j o.ptr ne in ground (arith, m, n)

-- The order that AddOrder appended, entered into the index, keeps the invariant.
pub add-BookInv :
    (b : BookCore) (q : BookQueues) (k : Bool) (t : ℕ) (o : Order) (p' : Pool) (l' : PriceLevels)
    (orders' : ClientOrderIdTable)
    → BookInv b q
    → t < tick_count
    → o.client_id < max_num_clients
    → o.client_order_id < max_order_ids
    → Added b.order_pool (at_side k b) (q k) t o p' l'
    → ((c oid j : ℕ)
        → lookup orders' c oid ≡ some j
        → ((c ≡ o.client_id) × (oid ≡ o.client_order_id) × (j ≡ o.ptr))
          ⊎ (lookup b.orders c oid ≡ some j))
    → BookInv (set_side k p' l' (record b { orders = orders' })) (set_queue k t (q k t ++ o ∷ []) q)
add-BookInv b q k t o p' l' orders' v inside cw ow a keep =
    step-BookInv b q k t (q k t ++ o ∷ []) p' l' orders' v a.valid a.same_capacity a.same_side
      a.side_inv a.untouched placed indexed
  where
    os : List Order
    os = q k t ++ o ∷ []

    some_eq : {x y : Identity} → some x ≡ some y → x ≡ y
    some_eq f = cc

    new :
        (j : ℕ) (d : Identity)
        → (j == o.ptr) ≡ true
        → order_identity (ref_at (at_side k b).side t) o ≡ d
        → IsPlaced (set_queue k t os q) j d
    new j d e f =
        let h = has-append_one j (q k t) o in
        (
          (
            k,
            t,
            inside,
            sym (ap (λ n. n.level) f) ∙ ap (λ n. some (ref_at n t)) (v.side k),
            rw (set_queue_self k t os q) (ground (arith, h, e)),
          ),
          subst (λ n. n.client_id < max_num_clients) f cw,
          subst (λ n. n.client_order_id < max_order_ids) f ow,
        )

    placed :
        (j : ℕ) (d : Identity)
        → identity_at (p'.slot j) ≡ some d
        → IsPlaced (set_queue k t os q) j d
    placed j d h = elim (Bool-cases (j == o.ptr)) [
      | inl e ↦
          let i = ==→eq j o.ptr e in
          let f : some (order_identity (ref_at (at_side k b).side t) o) ≡ some d =
            sym a.entered ∙ ap (λ n. identity_at (p'.slot n)) (sym i) ∙ h in
          new j d e (some_eq f)
      | inr e ↦
          let h' = sym (a.others j (==→ne j o.ptr e)) ∙ h in
          (
            Located-set q k t os j d
                (λ m. let n = has-append_one j (q k t) o in ground (arith, n, m))
                (v.located j d h'),
            (v.bounded j d h').0,
            (v.bounded j d h').1,
          )
    ]

    indexed : IsIndexed p' orders'
    indexed c oid j h = elim (keep c oid j h) [
      | inl (e, f, g) ↦ (
        order_identity (ref_at (at_side k b).side t) o,
        ap (λ n. identity_at (p'.slot n)) g ∙ a.entered,
        sym e,
        sym f,
      )
      | inr g ↦ let (d, e, f, m) = v.indexed c oid j g in (d, a.others j (old j d e) ∙ e, f, m)
    ]
      where
        old : (j : ℕ) (d : Identity) → identity_at (b.order_pool.slot j) ≡ some d → j ≢ o.ptr
        old j d e f =
            gone (b.order_pool.slot o.ptr) d a.fresh
              (ap (λ n. identity_at (b.order_pool.slot n)) (sym f) ∙ e)
