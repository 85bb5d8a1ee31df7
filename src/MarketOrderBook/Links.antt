-- ===== src/MarketOrderBook/Links.antt =====
-- trading/strategy/market_order_book.h: doubly linked nodes in a pool, for orders and for levels.
--
-- An item is what a node holds but for its links: `node_of prev next x` is the node.
use yquant_system.Base.{
  ℕ, ◌≡◌, ◌≢◌, true, false, Option, some, none, List, [], ◌∷◌, ◌++◌, ◌||◌, ◌==◌, ==→eq, Bool-cases,
  inl, inr, arith, refl, sym, ◌∙◌, has, AllDistinct, update, update_self, update_ne, ==_self, ap,
}
use mathlib.Core.Option.{none-ne-some}
use yquant_system.MemPool.{Slot, object, object_at}

pub record Linked (A X : Type 0) : Type 0 where
  pub ptr : X → ℕ
  pub node_of : Option ℕ → Option ℕ → X → A

module _ {A X : Type 0} (k : Linked A X) where
  open k use {ptr, node_of}

  abbrev pub ptrs : List X → List ℕ
  ptrs [] = []
  ptrs (x ∷ xs) = ptr x ∷ ptrs xs

  -- The first pointer of a list, or what follows it; the last, or what stands before it.
  abbrev pub first_or : Option ℕ → List X → Option ℕ
  first_or next [] = next
  first_or next (x ∷ xs) = some (ptr x)

  abbrev pub last_or : Option ℕ → List X → Option ℕ
  last_or prev [] = prev
  last_or prev (x ∷ xs) = last_or (some (ptr x)) xs

  -- The nodes of `xs` stand in the pool, linked in order between `prev` and `next`.
  abbrev pub Seg : (ℕ → Slot A) → Option ℕ → Option ℕ → List X → Type 0
  Seg s prev next [] = Unit {0}
  Seg s prev next (x ∷ xs) =
      (s (ptr x) ≡ object (node_of prev (first_or next xs) x)) × Seg s (some (ptr x)) next xs

  -- A circle: the last node leads to the first.
  abbrev pub Ring : (ℕ → Slot A) → List X → Type 0
  Ring s xs = Seg s (last_or none xs) (first_or none xs) xs

  pub last_or-append :
      (prev : Option ℕ) (xs : List X) (y : X) → last_or prev (xs ++ y ∷ []) ≡ some (ptr y)
  last_or-append prev [] y = refl
  last_or-append prev (x ∷ xs) y = last_or-append (some (ptr x)) xs y

  -- The last pointer does not depend on what stands before it.
  pub last_or-drop :
      (prev prev' : Option ℕ) (xs : List X) (y z : X) (ys : List X)
      → last_or prev (xs ++ z ∷ ys) ≡ last_or prev' (xs ++ y ∷ z ∷ ys)
  last_or-drop prev prev' [] y z ys = refl
  last_or-drop prev prev' (x ∷ xs) y z ys = last_or-drop (some (ptr x)) (some (ptr x)) xs y z ys

  pub Seg-append :
      (s : ℕ → Slot A) (prev next : Option ℕ) (xs ys : List X)
      → Seg s prev (first_or next ys) xs
      → Seg s (last_or prev xs) next ys
      → Seg s prev next (xs ++ ys)
  Seg-append s prev next [] ys h c = c
  Seg-append s prev next (x ∷ []) ys h c = (h.0, c)
  Seg-append s prev next (x ∷ z ∷ xs) ys h c =
      (h.0, Seg-append s (some (ptr x)) next (z ∷ xs) ys h.1 c)

  pub Seg-split :
      (s : ℕ → Slot A) (prev next : Option ℕ) (xs ys : List X)
      → Seg s prev next (xs ++ ys)
      → Seg s prev (first_or next ys) xs × Seg s (last_or prev xs) next ys
  Seg-split s prev next [] ys h = (tt, h)
  Seg-split s prev next (x ∷ []) ys h = ((h.0, tt), h.1)
  Seg-split s prev next (x ∷ z ∷ xs) ys h =
      let (a, b) = Seg-split s (some (ptr x)) next (z ∷ xs) ys h.1 in ((h.0, a), b)

  -- A segment depends on the slots of its own nodes.
  pub Seg-frame :
      (s s' : ℕ → Slot A) (prev next : Option ℕ) (xs : List X)
      → ((j : ℕ) → has j (ptrs xs) ≡ true → s' j ≡ s j)
      → Seg s prev next xs
      → Seg s' prev next xs
  Seg-frame s s' prev next [] f h = tt
  Seg-frame s s' prev next (x ∷ xs) f h = (
    f (ptr x) (rw ==_self refl) ∙ h.0,
    Seg-frame s s' (some (ptr x)) next xs (λ j m. f j (ground (arith, m))) h.1,
  )

  pub Seg-frame_one :
      (s : ℕ → Slot A) (i : ℕ) (c : Slot A) (prev next : Option ℕ) (xs : List X)
      → has i (ptrs xs) ≡ false
      → Seg s prev next xs
      → Seg (update s i c) prev next xs
  Seg-frame_one s i c prev next xs n h =
      Seg-frame s (update s i c) prev next xs
        (λ j m. update_ne s i j c (λ e. cc (sym m ∙ ap (λ l. has l (ptrs xs)) e ∙ n))) h

  pub has-ptrs :
      (j : ℕ) (xs ys : List X) → has j (ptrs (xs ++ ys)) ≡ (has j (ptrs xs) || has j (ptrs ys))
  has-ptrs j [] ys = refl
  has-ptrs j (x ∷ xs) ys = ground (arith, has-ptrs j xs ys)

  -- The two parts of a list without repetition share nothing.
  pub AllDistinct-split :
      (xs ys : List X)
      → AllDistinct (ptrs (xs ++ ys))
      → AllDistinct (ptrs xs)
        × AllDistinct (ptrs ys)
        × ((j : ℕ) → has j (ptrs xs) ≡ true → has j (ptrs ys) ≡ false)
  AllDistinct-split [] ys d = (tt, d, λ j h. cc)
  AllDistinct-split (x ∷ xs) ys d =
      let (a, b, c) = AllDistinct-split xs ys d.1 in
      (
        (ground (arith, d.0, has-ptrs (ptr x) xs ys), a),
        b,
        λ j h. ground (arith, c j, d.0, h, has-ptrs (ptr x) xs ys),
      )

  pub AllDistinct-without :
      (xs : List X) (z : X) (ys : List X)
      → AllDistinct (ptrs (xs ++ z ∷ ys))
      → has (ptr z) (ptrs (xs ++ ys)) ≡ false
  AllDistinct-without [] z ys d = d.0
  AllDistinct-without (x ∷ xs) z ys d =
      ground (arith, AllDistinct-without xs z ys d.1, d.0, has-ptrs (ptr x) xs (z ∷ ys))

  pub AllDistinct-with :
      (xs : List X) (z : X) (ys : List X)
      → AllDistinct (ptrs (xs ++ ys))
      → has (ptr z) (ptrs (xs ++ ys)) ≡ false
      → AllDistinct (ptrs (xs ++ z ∷ ys))
  AllDistinct-with [] z ys d h = (h, d)
  AllDistinct-with (x ∷ xs) z ys d h = (
    ground (arith, h, d.0, has-ptrs (ptr x) xs (z ∷ ys), has-ptrs (ptr x) xs ys),
    AllDistinct-with xs z ys d.1 (ground (arith, h)),
  )

  pub AllDistinct-drop :
      (xs : List X) (z : X) (ys : List X)
      → AllDistinct (ptrs (xs ++ z ∷ ys))
      → AllDistinct (ptrs (xs ++ ys))
  AllDistinct-drop [] z ys d = d.1
  AllDistinct-drop (x ∷ xs) z ys d = (
    ground (arith, d.0, has-ptrs (ptr x) xs (z ∷ ys), has-ptrs (ptr x) xs ys),
    AllDistinct-drop xs z ys d.1,
  )

  -- The node of an item of a segment.
  pub Seg-at :
      (s : ℕ → Slot A) (prev next : Option ℕ) (xs : List X) (z : X) (ys : List X)
      → Seg s prev next (xs ++ z ∷ ys)
      → (u : Option ℕ) × (t : Option ℕ) × (s (ptr z) ≡ object (node_of u t z))
  Seg-at s prev next [] z ys h = (prev, first_or next ys, h.0)
  Seg-at s prev next (x ∷ xs) z ys h = Seg-at s (some (ptr x)) next xs z ys h.1

  -- A slot that holds no object is not that of a node.
  pub Seg-absent :
      (s : ℕ → Slot A) (i : ℕ) (prev next : Option ℕ) (xs : List X)
      → object_at (s i) ≡ none
      → Seg s prev next xs
      → has i (ptrs xs) ≡ false
  Seg-absent s i prev next [] e h = refl
  Seg-absent s i prev next (x ∷ xs) e h = elim (Bool-cases (i == ptr x)) [
    | inl f ↦
        absurd (
          none-ne-some _ (sym e ∙ ap (λ j. object_at (s j)) (==→eq i (ptr x) f) ∙ ap object_at h.0))
    | inr f ↦ rw f (Seg-absent s i (some (ptr x)) next xs e h.1)
  ]

  abbrev pub last_item : X → List X → X
  last_item x [] = x
  last_item x (y ∷ ys) = last_item y ys

  -- What the last node has as its predecessor.
  abbrev pub before_last : Option ℕ → X → List X → Option ℕ
  before_last prev x [] = prev
  before_last prev x (y ∷ ys) = before_last (some (ptr x)) y ys

  pub last_or-eq :
      (prev : Option ℕ) (x : X) (xs : List X) → last_or prev (x ∷ xs) ≡ some (ptr (last_item x xs))
  last_or-eq prev x [] = refl
  last_or-eq prev x (y ∷ ys) = last_or-eq (some (ptr x)) y ys

  pub has_last : (x : X) (xs : List X) → has (ptr (last_item x xs)) (ptrs (x ∷ xs)) ≡ true
  has_last x [] = rw ==_self refl
  has_last x (y ∷ ys) = ground (arith, has_last y ys)

  pub last_node :
      (s : ℕ → Slot A) (prev next : Option ℕ) (x : X) (xs : List X)
      → Seg s prev next (x ∷ xs)
      → s (ptr (last_item x xs)) ≡ object (node_of (before_last prev x xs) next (last_item x xs))
  last_node s prev next x [] h = h.0
  last_node s prev next x (y ∷ ys) h = last_node s (some (ptr x)) next y ys h.1

  -- A pointer of a list is none that stands outside it.
  pub apart : (a b : ℕ) (l : List ℕ) → has a l ≡ false → has b l ≡ true → a ≢ b
  apart a b l f t e = cc (sym (ap (λ c. has c l) e ∙ t) ∙ f)

  -- The last node gets another successor.
  pub Seg-set_next :
      (s : ℕ → Slot A) (prev next next' : Option ℕ) (x : X) (xs : List X)
      → AllDistinct (ptrs (x ∷ xs))
      → Seg s prev next (x ∷ xs)
      → Seg
          (update s
            (ptr (last_item x xs))
            (object (node_of (before_last prev x xs) next' (last_item x xs))))
          prev
          next'
          (x ∷ xs)
  Seg-set_next s prev next next' x [] d h = (update_self s (ptr x) _, tt)
  Seg-set_next s prev next next' x (y ∷ ys) d h = (
    update_ne s (ptr (last_item y ys)) (ptr x) _
          (apart (ptr x) (ptr (last_item y ys)) (ptrs (y ∷ ys)) d.0 (has_last y ys))
        ∙ h.0,
    Seg-set_next s (some (ptr x)) next next' y ys d.1 h.1,
  )

  -- The first node gets another predecessor.
  pub Seg-set_prev :
      (s : ℕ → Slot A) (prev prev' next : Option ℕ) (x : X) (xs : List X)
      → AllDistinct (ptrs (x ∷ xs))
      → Seg s prev next (x ∷ xs)
      → Seg (update s (ptr x) (object (node_of prev' (first_or next xs) x))) prev' next (x ∷ xs)
  Seg-set_prev s prev prev' next x xs d h =
      (update_self s (ptr x) _, Seg-frame_one s (ptr x) _ (some (ptr x)) next xs d.0 h.1)
