-- ===== src/MarketOrderBook/Replace.antt =====
-- trading/strategy/market_order_book.h: a write to a node that leaves its links alone.
use yquant_system.Base.{
  ℕ, ◌≡◌, true, Option, some, none, List, [], ◌∷◌, ◌++◌, arith, refl, sym, ◌∙◌, has, AllDistinct,
  update, update_self, update_ne, ==_self, ap, subst,
}
use yquant_system.MemPool.{Slot, object}
use yquant_system.MarketOrderBook.Links.{
  Linked, ptrs, first_or, last_or, Seg, Ring, Seg-frame_one, apart,
}

module _ {A X : Type 0} (k : Linked A X) (z z' : X) (same : k.ptr z' ≡ k.ptr z) where
  pub ptrs-replace : (xs ys : List X) → ptrs k (xs ++ z' ∷ ys) ≡ ptrs k (xs ++ z ∷ ys)
  ptrs-replace [] ys = ap (λ i. i ∷ ptrs k ys) same
  ptrs-replace (x ∷ xs) ys = ap (λ l. k.ptr x ∷ l) (ptrs-replace xs ys)

  pub first_or-replace :
      (next : Option ℕ) (xs ys : List X)
      → first_or k next (xs ++ z' ∷ ys) ≡ first_or k next (xs ++ z ∷ ys)
  first_or-replace next [] ys = ap some same
  first_or-replace next (x ∷ xs) ys = refl

  last_or-replace :
      (prev : Option ℕ) (xs ys : List X)
      → last_or k prev (xs ++ z' ∷ ys) ≡ last_or k prev (xs ++ z ∷ ys)
  last_or-replace prev [] ys = ap (λ i. last_or k (some i) ys) same
  last_or-replace prev (x ∷ xs) ys = last_or-replace (some (k.ptr x)) xs ys

  has_middle : (xs ys : List X) → has (k.ptr z) (ptrs k (xs ++ z ∷ ys)) ≡ true
  has_middle [] ys = ground (arith, ==_self (k.ptr z))
  has_middle (x ∷ xs) ys = ground (arith, has_middle xs ys)

  Seg-replace :
      (s : ℕ → Slot A) (prev next : Option ℕ) (xs ys : List X) (u t : Option ℕ)
      → AllDistinct (ptrs k (xs ++ z ∷ ys))
      → s (k.ptr z) ≡ object (k.node_of u t z)
      → ((a c : Option ℕ) → object (k.node_of u t z) ≡ object (k.node_of a c z) → (u ≡ a) × (t ≡ c))
      → Seg k s prev next (xs ++ z ∷ ys)
      → Seg k (update s (k.ptr z) (object (k.node_of u t z'))) prev next (xs ++ z' ∷ ys)
  Seg-replace s prev next [] ys u t d e inj h =
      let (eu, et) = inj prev (first_or k next ys) (sym e ∙ h.0) in
      (
        ap (update s (k.ptr z) (object (k.node_of u t z'))) same
            ∙ update_self s (k.ptr z) _
            ∙ ap (λ a. object (k.node_of a t z')) eu
            ∙ ap (λ c. object (k.node_of prev c z')) et,
        subst (λ i. Seg k (update s (k.ptr z) (object (k.node_of u t z'))) (some i) next ys)
            (sym same) (Seg-frame_one k s (k.ptr z) _ (some (k.ptr z)) next ys d.0 h.1),
      )
  Seg-replace s prev next (x ∷ xs) ys u t d e inj h = (
    update_ne s (k.ptr z) (k.ptr x) _
          (apart k (k.ptr x) (k.ptr z) (ptrs k (xs ++ z ∷ ys)) d.0 (has_middle xs ys))
        ∙ h.0
        ∙ ap (λ c. object (k.node_of prev c x)) (sym (first_or-replace next xs ys)),
    Seg-replace s (some (k.ptr x)) next xs ys u t d.1 e inj h.1,
  )

  pub Ring-replace :
      (s : ℕ → Slot A) (xs ys : List X) (u t : Option ℕ)
      → AllDistinct (ptrs k (xs ++ z ∷ ys))
      → s (k.ptr z) ≡ object (k.node_of u t z)
      → ((a c : Option ℕ) → object (k.node_of u t z) ≡ object (k.node_of a c z) → (u ≡ a) × (t ≡ c))
      → Ring k s (xs ++ z ∷ ys)
      → Ring k (update s (k.ptr z) (object (k.node_of u t z'))) (xs ++ z' ∷ ys)
  Ring-replace s xs ys u t d e inj h =
      subst
        (λ q.
          Seg k (update s (k.ptr z) (object (k.node_of u t z'))) q (first_or k none (xs ++ z' ∷ ys))
            (xs ++ z' ∷ ys))
        (sym (last_or-replace none xs ys))
        (subst
          (λ q.
            Seg k (update s (k.ptr z) (object (k.node_of u t z'))) (last_or k none (xs ++ z ∷ ys)) q
              (xs ++ z' ∷ ys))
          (sym (first_or-replace none xs ys))
          (Seg-replace s (last_or k none (xs ++ z ∷ ys)) (first_or k none (xs ++ z ∷ ys)) xs ys u t
            d e inj h))
