-- ===== src/MemPool/Ops.antt =====
-- common/mem_pool.h: what `allocate` does to a valid pool.
use Prim.Native.Nat.{max}
use yquant_system.Base.{
  ℕ, ◌+◌, ◌≤◌, ◌<◌, ◌≡◌, Bool, true, false, not, Option, none, some, List, [], ◌∷◌, arith, refl,
  head?, has, if◌then◌else◌, update, ap, lt→ltb, le→ltb, update_ne,
}
use yquant_system.MemPool.{
  Slot, object, next_free, MemPool, object_at, mark_slot, take_block, allocate,
}
use yquant_system.MemPool.Inv.{Inv, IsValid, FreeChain}

module _ {A : Type 0} where
  abbrev pub marked : MemPool A → ℕ → Bool → MemPool A
  marked p i b = record p {
    in_use_flags = if p.debug then update p.in_use_flags i b else p.in_use_flags;
  }

  -- The checks of the debug build pass on a slot whose flag says the opposite.
  pub mark_slot-eq :
      (p : MemPool A) (i : ℕ) (b : Bool)
      → i < p.next_unused
      → p.next_unused ≤ p.capacity
      → (p.debug ≡ true → p.in_use_flags i ≡ not b)
      → mark_slot p i b ≡ some (marked p i b)
  unfolding mark_slot
  mark_slot-eq p i b h c f = ground arith

  -- What `allocate a` does: slot `i` held no object, and now holds `a`; nothing else changed.
  pub record Allocated (a : A) (p : MemPool A) (i : ℕ) (p' : MemPool A) : Type 0 where
    pub fresh : object_at (p.slot i) ≡ none
    pub written : p'.slot ≡ update p.slot i (object a)
    pub used : p'.in_use ≡ p.in_use + 1
    pub same_capacity : p'.capacity ≡ p.capacity
    pub cursor : p'.next_unused ≡ max p.next_unused p'.in_use
    pub valid : IsValid p'

  bump : A → MemPool A → MemPool A
  bump a p =
      let p2 = marked (record p { next_unused = p.next_unused + 1 }) p.next_unused true in
      record p2 { in_use = p.in_use + 1; slot = update p.slot p.next_unused (object a) }

  recycle : A → MemPool A → ℕ → List ℕ → MemPool A
  recycle a p i xs =
      let p2 = marked (record p { free_head = head? xs }) i true in
      record p2 { in_use = p.in_use + 1; slot = update p.slot i (object a) }

  take_block-bump :
      (p : MemPool A)
      → p.free_head ≡ none
      → p.next_unused < p.capacity
      → take_block p ≡ some (p.next_unused, record p { next_unused = p.next_unused + 1 })
  unfolding take_block
  take_block-bump p e h = simp (e, take_block) (rw (lt→ltb _ _ h))

  pub take_block-recycle :
      (p : MemPool A) (i : ℕ) (n : Option ℕ)
      → p.free_head ≡ some i
      → p.slot i ≡ next_free n
      → take_block p ≡ some (i, record p { free_head = n })
  unfolding take_block
  take_block-recycle p i n e h = rw (e, take_block) (rw h)

  allocate-bump :
      (a : A) (p : MemPool A)
      → Inv p []
      → p.in_use < p.capacity
      → allocate a p ≡ some (p.next_unused, bump a p)
  unfolding allocate bump
  allocate-bump a p v h = rw (take_block-bump p v.head (omega (arith, v.counted))) (
      rw (
        mark_slot-eq (record p { next_unused = p.next_unused + 1 }) p.next_unused true (omega arith)
          (omega (arith, v.counted)) (λ d. ground (arith, v.flags d p.next_unused))))

  bump-Inv : (a : A) (p : MemPool A) → Inv p [] → p.in_use < p.capacity → Inv (bump a p) []
  unfolding bump
  bump-Inv a p v h = record {
    head = v.head;
    chain = tt;
    distinct = tt;
    below = tt;
    within = omega (arith, v.counted);
    counted = omega (arith, v.counted);
    live = λ j. ground (arith, v.live j);
    flags = λ d j. ground (arith, v.flags d j);
  }

  allocate-recycle :
      (a : A) (p : MemPool A) (i : ℕ) (xs : List ℕ)
      → Inv p (i ∷ xs)
      → allocate a p ≡ some (i, recycle a p i xs)
  unfolding allocate recycle
  allocate-recycle a p i xs v = rw (take_block-recycle p i (head? xs) v.head v.chain.0) (
      rw (
        mark_slot-eq (record p { free_head = head? xs }) i true v.below.0 v.within
          (λ d. ground (arith, v.flags d i))))

  -- A write to a slot that is not on the chain leaves the chain.
  pub FreeChain-update :
      (slot : ℕ → Slot A) (i : ℕ) (c : Slot A) (xs : List ℕ)
      → has i xs ≡ false
      → FreeChain slot xs
      → FreeChain (update slot i c) xs
  FreeChain-update slot i c [] h v = tt
  FreeChain-update slot i c (x ∷ xs) h v = (
    rw (update_ne slot i x c (ground arith)) v.0,
    FreeChain-update slot i c xs (ground arith) v.1,
  )

  recycle-Inv :
      (a : A) (p : MemPool A) (i : ℕ) (xs : List ℕ) → Inv p (i ∷ xs) → Inv (recycle a p i xs) xs
  unfolding recycle
  recycle-Inv a p i xs v = record {
    head = refl;
    chain = FreeChain-update p.slot i (object a) xs v.distinct.0 v.chain.1;
    distinct = v.distinct.1;
    below = v.below.1;
    within = v.within;
    counted = omega (arith, v.counted);
    live = λ j. ground (arith, v.live j);
    flags = λ d j. ground (arith, v.flags d j);
  }

  -- A valid pool with room hands out a slot that held no object, writes the object there and
  -- nowhere else, counts it and stays valid; neither the capacity check nor a check of the debug
  -- build fails.
  pub allocate-Allocated :
      (a : A) (p : MemPool A)
      → IsValid p
      → p.in_use < p.capacity
      → (i : ℕ) × (p' : MemPool A) × (allocate a p ≡ some (i, p')) × Allocated a p i p'
  unfolding bump recycle
  allocate-Allocated a p ([], v) h = (
    p.next_unused,
    bump a p,
    allocate-bump a p v h,
    record {
      fresh = ground (arith, v.live p.next_unused);
      written = refl;
      used = refl;
      same_capacity = refl;
      cursor = omega (arith, v.counted);
      valid = ([], bump-Inv a p v h);
    },
  )
  allocate-Allocated a p (i ∷ xs, v) h = (
    i,
    recycle a p i xs,
    allocate-recycle a p i xs v,
    record {
      fresh = ap object_at v.chain.0;
      written = refl;
      used = refl;
      same_capacity = refl;
      cursor = omega (arith, v.counted);
      valid = (xs, recycle-Inv a p i xs v);
    },
  )

  -- An allocation from a valid pool that is full ends the process.
  pub allocate-exhausted :
      (a : A) (p : MemPool A) → IsValid p → p.in_use ≡ p.capacity → allocate a p ≡ none
  unfolding allocate take_block
  allocate-exhausted a p ([], v) h =
      simp (v.head, take_block) (rw (le→ltb p.next_unused p.capacity (omega (arith, v.counted))))
  allocate-exhausted a p (i ∷ xs, v) h = absurd (omega (arith, v.counted, v.within))
