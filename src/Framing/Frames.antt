-- ===== src/Framing/Frames.antt =====
-- The receive loop runs its handler on the messages that the bytes are cut into, first one first.
use mathlib.Core.Option.{some-injective, none-ne-some}
use mathlib.Core.List.{append_assoc}
use yquant_system.Base.{
  ℕ, zero, suc, ◌<◌, ◌≤◌, ◌≡◌, false, arith, length-drop, Option, some, List, [], ◌∷◌, ◌++◌, leb,
  length, take, drop, take-drop, ◌∙◌, ap, sym, Bool-cases, Option-cases, inl, inr, leb→le,
  length-take, run_all,
}
use yquant_system.Framing.{recv_loop, recv_messages}

not_leb : (a b : ℕ) → leb a b ≡ false → b < a
not_leb a b h = ground arith

module _ {B : Type 0} where
  abbrev pub join : List (List B) → List B
  join [] = []
  join (f ∷ fs) = f ++ join fs

  abbrev pub AllOfLength : ℕ → List (List B) → Type 0
  AllOfLength size [] = Unit {0}
  AllOfLength size (f ∷ fs) = (length f ≡ size) × AllOfLength size fs

  module _ {S : Type 0} (size : ℕ) (handle : List B → S → Option S) where
    -- The bytes were cut into whole messages, which were handled in order.
    abbrev pub Handled : List B → List B → S → S → Type 0
    Handled bytes left s s' =
        (frames : List (List B)) × (bytes ≡ join frames ++ left)
        × AllOfLength size frames
        × (run_all handle frames s ≡ some s')

    none-Handled :
        (bytes left : List B) (s s' : S)
        → Path (Option (S × List B)) (some (s, bytes)) (some (s', left))
        → Handled bytes left s s'
    none-Handled bytes left s s' e =
        let p = some-injective _ _ e in ([], ap (λ q. q.1) p, tt, ap (λ q. some q.0) p)

    loop-Handled :
        (n : ℕ) (bytes left : List B) (s s' : S)
        → recv_loop size handle n bytes s ≡ some (s', left)
        → Handled bytes left s s'
    unfolding recv_loop
    loop-Handled zero bytes left s s' run = none-Handled bytes left s s' run
    loop-Handled (suc n) bytes left s s' run = elim (Bool-cases (leb size (length bytes))) [
      | inr short ↦ none-Handled bytes left s s' (rw short at run)
      | inl whole ↦
          let run1 = rw whole at run in
          elim (Option-cases (handle (take size bytes) s)) [
            | inl stop ↦ absurd (none-ne-some (s', left) (rw stop at run1))
            | inr (s1, go) ↦
                let (frames, cut, lengths, all) =
                  loop-Handled n (drop size bytes) left s1 s' (rw go at run1) in
                (
                  take size bytes ∷ frames,
                  sym (take-drop size bytes)
                      ∙ ap (λ r. take size bytes ++ r) cut
                      ∙ sym (append_assoc (take size bytes) (join frames) left),
                  (length-take size bytes (leb→le size (length bytes) whole), lengths),
                  rw go all,
                )
          ]
    ]

    pub recv_messages-Handled :
        (bytes left : List B) (s s' : S)
        → recv_messages size handle bytes s ≡ some (s', left)
        → Handled bytes left s s'
    unfolding recv_messages
    recv_messages-Handled bytes left s s' run = elim (Bool-cases (leb size (length bytes))) [
      | inr short ↦ none-Handled bytes left s s' (rw short at run)
      | inl whole ↦ loop-Handled (length bytes) bytes left s s' (rw whole at run)
    ]

    loop-short :
        (n : ℕ) (bytes left : List B) (s s' : S)
        → 0 < size
        → length bytes ≤ n
        → recv_loop size handle n bytes s ≡ some (s', left)
        → length left < size
    unfolding recv_loop
    loop-short zero bytes left s s' some_size enough run =
        let p = ap (λ q. length q.1) (some-injective _ _ run) in omega (arith, p, enough, some_size)
    loop-short (suc n) bytes left s s' some_size enough run =
        elim (Bool-cases (leb size (length bytes))) [
          | inr short ↦
              let p = ap (λ q. length q.1) (some-injective _ _ (rw short at run)) in
              omega (arith, p, not_leb size (length bytes) short)
          | inl whole ↦
              let run1 = rw whole at run in
              elim (Option-cases (handle (take size bytes) s)) [
                | inl stop ↦ absurd (none-ne-some (s', left) (rw stop at run1))
                | inr (s1, go) ↦
                    loop-short n (drop size bytes) left s1 s' some_size
                      (omega (arith, enough, some_size, length-drop size bytes)) (rw go at run1)
              ]
        ]

    -- The callback leaves less than a message in the buffer.
    pub recv_messages-short :
        (bytes left : List B) (s s' : S)
        → 0 < size
        → recv_messages size handle bytes s ≡ some (s', left)
        → length left < size
    unfolding recv_messages
    recv_messages-short bytes left s s' some_size run =
        elim (Bool-cases (leb size (length bytes))) [
          | inr short ↦
              let p = ap (λ q. length q.1) (some-injective _ _ (rw short at run)) in
              omega (arith, p, not_leb size (length bytes) short)
          | inl whole ↦
              loop-short (length bytes) bytes left s s' some_size (omega arith) (rw whole at run)
        ]
