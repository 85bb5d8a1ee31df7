-- ===== src/OrderServer/Numbers.antt =====
-- exchange/order_manager/order_manager.h: the sequence numbers of one client, as they are counted.
use yquant_system.Base.{
  ℕ, ◌≡◌, List, [], ◌∷◌, ◌++◌, ◌==◌, if◌then◌else◌, refl, sym, subst, Bool-cases, inl, inr, false,
  update, ==→eq, ==_self, arith,
}
use yquant_system.Types.{add64}

-- `xs` is a, a + 1, ... up to b, which is not in it, each a 64-bit word.
abbrev pub Counts : ℕ → List ℕ → ℕ → Type 0
Counts a [] b = a ≡ b
Counts a (x ∷ xs) b = (x ≡ a) × Counts (add64 a 1) xs b

pub Counts-append :
    (a : ℕ) (xs ys : List ℕ) (b c : ℕ) → Counts a xs b → Counts b ys c → Counts a (xs ++ ys) c
Counts-append a [] ys b c p q = subst (λ n. Counts n ys c) (sym p) q
Counts-append a (x ∷ xs) ys b c (e, p) q = (e, Counts-append (add64 a 1) xs ys b c p q)

-- The sequence numbers of the entries of one client.
module _ {ℓ} {X : Type ℓ} (client : X → ℕ) (seq : X → ℕ) where
  abbrev pub seqs_of : ℕ → List X → List ℕ
  seqs_of c [] = []
  seqs_of c (x ∷ xs) = if client x == c then seq x ∷ seqs_of c xs else seqs_of c xs

  pub seqs_of-append :
      (c : ℕ) (xs ys : List X) → seqs_of c (xs ++ ys) ≡ seqs_of c xs ++ seqs_of c ys
  seqs_of-append c [] ys = refl
  seqs_of-append c (x ∷ xs) ys = elim (Bool-cases (client x == c)) [
    | inl t ↦ rw (t, seqs_of-append c xs ys) refl
    | inr f ↦ rw (f, seqs_of-append c xs ys) refl
  ]

  test_sym : (a b : ℕ) → (a == b) ≡ false → (b == a) ≡ false
  test_sym a b h = ground arith

  -- One entry with the number that is expected of its client moves that client's count on.
  pub Counts-one :
      (next : ℕ → ℕ) (x : X) (d : ℕ)
      → seq x ≡ next (client x)
      → Counts (next d) (seqs_of d (x ∷ [])) (update next (client x) (add64 (next (client x)) 1) d)
  Counts-one next x d h = elim (Bool-cases (client x == d)) [
    | inr f ↦ rw (f, test_sym (client x) d f) refl
    | inl t ↦
        subst
          (λ n.
            Counts (next n) (seqs_of n (x ∷ []))
              (update next (client x) (add64 (next (client x)) 1) n))
          (==→eq (client x) d t) (rw (==_self (client x)) (h, refl))
  ]
