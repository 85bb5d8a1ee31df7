-- ===== src/RingBuffer/Slots.antt =====
-- common/ringBuffer.h: the elements between the read index and the write index, as a list.
use mathlib.Core.List.{append_assoc}
use yquant_system.Base.{
  ℕ, zero, suc, ◌+◌, ◌%◌, ◌≤◌, ◌<◌, ◌≡◌, ◌≢◌, List, [], ◌∷◌, ◌++◌, arith, refl, ◌∙◌, ap, sym,
  update, update_ne, length, length-append,
}
use yquant_system.RingBuffer.Mask.{close_indices}
use yquant_system.RingBuffer.Inv.{slots}
use yquant_system.RingBuffer.Inv.{slots}

module _ {ℓ} {A : Type ℓ} where
  pub slots-write :
      (store : ℕ → A) (c w : ℕ) (x : A) (i n : ℕ)
      → i + n ≤ w
      → w < i + c
      → slots (update store (w % c) x) c i n ≡ slots store c i n
  slots-write store c w x i zero h near = refl
  slots-write store c w x i (suc n) h near =
      let differ : i % c ≢ w % c = λ e. omega (arith, close_indices c i w (omega arith) near e) in
      rw
        (
          update_ne store (w % c) (i % c) x differ,
          slots-write store c w x (suc i) n (omega arith) (omega arith),
        )
        refl

  pub slots-snoc :
      (store : ℕ → A) (c i n : ℕ)
      → slots store c i (suc n) ≡ slots store c i n ++ store ((i + n) % c) ∷ []
  slots-snoc store c i zero = ap (λ j. store (j % c) ∷ []) (omega arith)
  slots-snoc store c i (suc n) =
      let e : suc i + n ≡ i + suc n = omega arith in
      ap (λ xs. store (i % c) ∷ xs)
        (slots-snoc store c (suc i) n ∙ ap (λ j. slots store c (suc i) n ++ store (j % c) ∷ []) e)

  pub snoc-content :
      (store : ℕ → A) (c i n : ℕ) (x : A) (sent got : List A)
      → sent ≡ got ++ slots store c i n
      → store ((i + n) % c) ≡ x
      → sent ++ x ∷ [] ≡ got ++ slots store c i (suc n)
  snoc-content store c i n x sent got h held =
      ap (λ xs. xs ++ x ∷ []) h
      ∙ append_assoc got (slots store c i n) (x ∷ [])
      ∙ ap (λ y. got ++ (slots store c i n ++ y ∷ [])) (sym held)
      ∙ ap (λ xs. got ++ xs) (sym (slots-snoc store c i n))

  pub head-content :
      (store : ℕ → A) (c i n : ℕ) (x : A) (sent got : List A)
      → sent ≡ got ++ slots store c i (suc n)
      → x ≡ store (i % c)
      → sent ≡ (got ++ x ∷ []) ++ slots store c (suc i) n
  head-content store c i n x sent got h first =
      h
      ∙ ap (λ y. got ++ y ∷ slots store c (suc i) n) (sym first)
      ∙ sym (append_assoc got (x ∷ []) (slots store c (suc i) n))

  pub length-snoc : (xs : List A) (x : A) → length (xs ++ x ∷ []) ≡ suc (length xs)
  length-snoc xs x = omega (arith, length-append xs (x ∷ []))
