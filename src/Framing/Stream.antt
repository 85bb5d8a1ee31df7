-- ===== src/Framing/Stream.antt =====
-- The receive loop cuts the stream of bytes into the same messages however the stream arrives.
use yquant_system.Base.{
  ℕ, zero, suc, ◌≤◌, ◌<◌, ◌≡◌, Option, some, List, true, false, ◌++◌, leb, ◌>>=◌, length, take,
  drop, length-append, arith, refl, ◌∙◌, ap, sym, Bool-cases, Option-cases, inl, inr, leb→le,
  le→leb, length-drop, take-append, drop-append, fun_ext,
}
use mathlib.Core.Option.{some-injective, none-ne-some}
use yquant_system.Framing.{recv_loop, recv_messages}

module _ {B S : Type 0} (size : ℕ) (handle : List B → S → Option S) (h : 0 < size) where
  recv_loop-short :
      (n : ℕ) (bytes : List B) (s : S)
      → leb size (length bytes) ≡ false
      → recv_loop size handle n bytes s ≡ some (s, bytes)
  unfolding recv_loop
  recv_loop-short zero bytes s short = refl
  recv_loop-short (suc n) bytes s short = rw short refl

  recv_loop-whole :
      (n : ℕ) (bytes : List B) (s : S)
      → leb size (length bytes) ≡ true
      → recv_loop size handle (suc n) bytes s
        ≡ (do s' ← handle (take size bytes) s; recv_loop size handle n (drop size bytes) s')
  unfolding recv_loop
  recv_loop-whole n bytes s whole = rw whole refl

  empty_is_short :
      (n : ℕ) (bytes : List B) → length bytes ≤ n → n ≡ 0 → leb size (length bytes) ≡ false
  empty_is_short n bytes e z = ground arith

  kept_short :
      (bytes left : List B)
      → leb size (length bytes) ≡ false
      → bytes ≡ left
      → (length left < size) × (length left ≤ length bytes)
  kept_short bytes left short same = rw (sym same) (ground arith)

  recv_loop_fuel :
      (n m : ℕ) (bytes : List B) (s : S)
      → length bytes ≤ n
      → length bytes ≤ m
      → recv_loop size handle n bytes s ≡ recv_loop size handle m bytes s
  recv_loop_fuel zero m bytes s p q =
      let short = empty_is_short 0 bytes p refl in
      recv_loop-short 0 bytes s short ∙ sym (recv_loop-short m bytes s short)
  recv_loop_fuel (suc n) zero bytes s p q =
      let short = empty_is_short 0 bytes q refl in
      recv_loop-short (suc n) bytes s short ∙ sym (recv_loop-short 0 bytes s short)
  recv_loop_fuel (suc n) (suc m) bytes s p q = elim (Bool-cases (leb size (length bytes))) [
    | inr short ↦
        recv_loop-short (suc n) bytes s short ∙ sym (recv_loop-short (suc m) bytes s short)
    | inl whole ↦
        let l = length-drop size bytes in
        recv_loop-whole n bytes s whole
        ∙ ap (λ k. handle (take size bytes) s >>= k)
            (fun_ext
              λ s'. recv_loop_fuel n m (drop size bytes) s' (omega (arith, l)) (omega (arith, l)))
        ∙ sym (recv_loop-whole m bytes s whole)
  ]

  pub recv_messages-loop :
      (n : ℕ) (bytes : List B) (s : S)
      → length bytes ≤ n
      → recv_messages size handle bytes s ≡ recv_loop size handle n bytes s
  unfolding recv_messages
  recv_messages-loop n bytes s e = elim (Bool-cases (leb size (length bytes))) [
    | inl whole ↦ rw whole (recv_loop_fuel (length bytes) n bytes s (omega arith) e)
    | inr short ↦ rw short (sym (recv_loop-short n bytes s short))
  ]

  loop-append :
      (n m : ℕ) (xs ys : List B) (s : S)
      → length (xs ++ ys) ≤ n
      → length (xs ++ ys) ≤ m
      → recv_loop size handle n (xs ++ ys) s
        ≡ (recv_loop size handle n xs s >>= λ p. recv_loop size handle m (p.1 ++ ys) p.0)
  loop-append zero m xs ys s p q =
      let l = length-append xs ys in
      rw (recv_loop-short 0 xs s (empty_is_short 0 xs (omega (arith, l)) refl))
        (recv_loop_fuel 0 m (xs ++ ys) s p q)
  loop-append (suc n) m xs ys s p q =
      let l = length-append xs ys in
      elim (Bool-cases (leb size (length xs))) [
        | inr short ↦
            rw (recv_loop-short (suc n) xs s short) (recv_loop_fuel (suc n) m (xs ++ ys) s p q)
        | inl whole ↦
            let fits = leb→le size (length xs) whole in
            let d = length-drop size xs in
            let k = length-append (drop size xs) ys in
            rw
              (
                recv_loop-whole n xs s whole,
                recv_loop-whole n (xs ++ ys) s
                    (le→leb size (length (xs ++ ys)) (omega (arith, l, fits))),
                take-append size xs ys fits,
                drop-append size xs ys fits,
              )
              (elim (Option-cases (handle (take size xs) s)) [
                | inl stop ↦ rw stop refl
                | inr (s', go) ↦ rw go (
                    loop-append n m (drop size xs) ys s' (omega (arith, l, d, k, fits, p))
                      (omega (arith, l, d, k, fits, q)))
              ])
      ]

  left_over :
      (n : ℕ) (bytes left : List B) (s s' : S)
      → length bytes ≤ n
      → recv_loop size handle n bytes s ≡ some (s', left)
      → (length left < size) × (length left ≤ length bytes)
  left_over zero bytes left s s' e run =
      let short = empty_is_short 0 bytes e refl in
      let same = some-injective _ _ (sym (recv_loop-short 0 bytes s short) ∙ run) in
      kept_short bytes left short (ap (λ p. p.1) same)
  left_over (suc n) bytes left s s' e run = elim (Bool-cases (leb size (length bytes))) [
    | inr short ↦
        let same = some-injective _ _ (sym (recv_loop-short (suc n) bytes s short) ∙ run) in
        kept_short bytes left short (ap (λ p. p.1) same)
    | inl whole ↦
        let d = length-drop size bytes in
        let run' = sym (recv_loop-whole n bytes s whole) ∙ run in
        elim (Option-cases (handle (take size bytes) s)) [
          | inl stop ↦ absurd (none-ne-some (s', left) (rw stop at run'))
          | inr (s1, go) ↦
              let (l, k) =
                left_over n (drop size bytes) left s1 s' (omega (arith, d, e)) (rw go at run') in
              (l, omega (arith, k, d))
        ]
  ]

  -- For messages of at least one byte, the receive loop on the bytes of two arrivals together does
  -- what it does on the first, and then on what that left followed by the second: how the stream
  -- is cut does not matter.
  pub recv_messages-append :
      (xs ys : List B) (s : S)
      → recv_messages size handle (xs ++ ys) s
        ≡ (recv_messages size handle xs s >>= λ p. recv_messages size handle (p.1 ++ ys) p.0)
  recv_messages-append xs ys s =
      let n = length (xs ++ ys) in
      let l = length-append xs ys in
      let run = recv_messages-loop n xs s (omega (arith, l)) in
      recv_messages-loop n (xs ++ ys) s (omega arith)
      ∙ loop-append n n xs ys s (omega arith) (omega arith)
      ∙ elim (Option-cases (recv_loop size handle n xs s)) [
        | inl stop ↦ rw (run, stop) refl
        | inr ((s', left), go) ↦
            let (_, k) = left_over n xs left s s' (omega (arith, l)) go in
            rw (run, go)
              (sym
                (recv_messages-loop n (left ++ ys) s' (omega (arith, l, k, length-append left ys))))
      ]

  -- What stays in the buffer is less than one message, so that the bytes moved to its front do not
  -- overlap their old place.
  pub recv_messages-left :
      (bytes left : List B) (s s' : S)
      → recv_messages size handle bytes s ≡ some (s', left)
      → length left < size
  recv_messages-left bytes left s s' run =
      (left_over (length bytes) bytes left s s' (omega arith)
        (sym (recv_messages-loop (length bytes) bytes s (omega arith)) ∙ run)).0
