-- ===== src/MemPool/Inv.antt =====
-- common/mem_pool.h: what holds of every pool between calls.
use yquant_system.Base.{
  ℕ, ◌+◌, ◌≤◌, ◌<◌, ◌≡◌, Bool, true, not, List, [], ◌∷◌, arith, refl, length, head?, has,
  AllDistinct, AllBelow, ltb, ◌&&◌, is_some,
}
use yquant_system.MemPool.{Slot, next_free, MemPool, object_at, create}

-- The slots `xs`, each linked to the one that follows it.
abbrev pub FreeChain : {A : Type 0} → (ℕ → Slot A) → List ℕ → Type 0
FreeChain slot [] = Unit {0}
FreeChain slot (i ∷ xs) = (slot i ≡ next_free (head? xs)) × FreeChain slot xs

-- A slot holds an object exactly when it was handed out and is not on the free list.
abbrev pub is_live : ℕ → List ℕ → ℕ → Bool
is_live next_unused xs i = ltb i next_unused && not (has i xs)

module _ {A : Type 0} where
  -- `xs` is the free list, its head first.
  pub record Inv (p : MemPool A) (xs : List ℕ) : Type 0 where
    pub head : p.free_head ≡ head? xs
    pub chain : FreeChain p.slot xs
    pub distinct : AllDistinct xs
    pub below : AllBelow p.next_unused xs
    pub within : p.next_unused ≤ p.capacity
    pub counted : p.in_use + length xs ≡ p.next_unused
    pub live : (i : ℕ) → is_some (object_at (p.slot i)) ≡ is_live p.next_unused xs i
    pub flags : p.debug ≡ true → (i : ℕ) → p.in_use_flags i ≡ is_live p.next_unused xs i

  abbrev pub IsValid : MemPool A → Type 0
  IsValid p = (xs : List ℕ) × Inv p xs

-- A pool that was just made is valid.
pub create-Inv : {A : Type 0} (debug : Bool) (capacity : ℕ) → Inv (create {A = A} debug capacity) []
unfolding create
create-Inv debug capacity = record {
  head = refl;
  chain = tt;
  distinct = tt;
  below = tt;
  within = omega arith;
  counted = omega arith;
  live = λ i. ground arith;
  flags = λ _ i. ground arith;
}

pub create_has_room :
    (A : Type 0) (debug : Bool) (capacity : ℕ)
    → 0 < capacity
    → (create {A = A} debug capacity).in_use < (create {A = A} debug capacity).capacity
unfolding create
create_has_room A debug capacity h = h
