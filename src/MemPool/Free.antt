-- ===== src/MemPool/Free.antt =====
-- common/mem_pool.h: what `deallocate` and an access through a pointer do to a valid pool.
use Prim.Native.Nat.{max}
use yquant_system.Base.{
  ℕ, ◌+◌, ◌-◌, ◌<◌, ◌≡◌, true, false, none, some, List, ◌∷◌, arith, refl, has, update, is_some, ◌≢◌,
  ap, update_ne, update_self, length_le_bound,
}
use yquant_system.MemPool.{
  object, next_free, MemPool, object_at, mark_slot, deallocate, load, modify,
}
use yquant_system.MemPool.Inv.{Inv, IsValid}
use yquant_system.MemPool.Ops.{marked, mark_slot-eq, FreeChain-update}

module _ {A : Type 0} where
  pub freed : MemPool A → ℕ → MemPool A
  freed p i =
      let p1 = marked p i false in
      record p1 {
        slot = update p.slot i (next_free p.free_head);
        free_head = some i;
        in_use = p.in_use - 1;
      }

  -- What `deallocate` does to slot `i`, which held an object: it holds none, and nothing else
  -- changed.
  pub record Deallocated (p : MemPool A) (i : ℕ) (p' : MemPool A) : Type 0 where
    pub gone : object_at (p'.slot i) ≡ none
    pub others : (j : ℕ) → j ≢ i → p'.slot j ≡ p.slot j
    pub used : p'.in_use + 1 ≡ p.in_use
    pub same_capacity : p'.capacity ≡ p.capacity
    pub cursor : p'.next_unused ≡ max p.next_unused p'.in_use
    pub valid : IsValid p'

  pub live_facts :
      (p : MemPool A) (i : ℕ) (xs : List ℕ) (a : A)
      → Inv p xs
      → p.slot i ≡ object a
      → (i < p.next_unused) × (has i xs ≡ false)
  live_facts p i xs a v e =
      let l : is_some (object_at (p.slot i)) ≡ true = rw e in ground (arith, v.live i, l)

  pub deallocate-eq :
      (p : MemPool A) (i : ℕ) (xs : List ℕ) (a : A)
      → Inv p xs
      → p.slot i ≡ object a
      → deallocate i p ≡ some (freed p i)
  unfolding deallocate freed
  deallocate-eq p i xs a v e =
      let l = live_facts p i xs a v e in
      rw (mark_slot-eq p i false l.0 v.within (λ d. ground (arith, v.flags d i)))

  -- Distinct slots below a bound are no more than the bound lets, so a live slot is counted.
  freed-Inv :
      (p : MemPool A) (i : ℕ) (xs : List ℕ) (a : A)
      → Inv p xs
      → p.slot i ≡ object a
      → Inv (freed p i) (i ∷ xs)
  unfolding freed
  freed-Inv p i xs a v e =
      let l = live_facts p i xs a v e in
      let room = length_le_bound p.next_unused (i ∷ xs) (l.1, v.distinct) (l.0, v.below) in
      record {
        head = refl;
        chain = (
          rw (update_self p.slot i (next_free p.free_head)) (ap next_free v.head),
          FreeChain-update p.slot i (next_free p.free_head) xs l.1 v.chain,
        );
        distinct = (l.1, v.distinct);
        below = (l.0, v.below);
        within = v.within;
        counted = omega (arith, v.counted);
        live = λ j. ground (arith, v.live j);
        flags = λ d j. ground (arith, v.flags d j);
      }

  -- A valid pool takes back the slot of an object: the slot holds none, no other slot changed, the
  -- count falls by one, and the pool stays valid.
  pub deallocate-Deallocated :
      (p : MemPool A) (i : ℕ) (a : A)
      → IsValid p
      → p.slot i ≡ object a
      → (p' : MemPool A) × (deallocate i p ≡ some p') × Deallocated p i p'
  unfolding freed
  deallocate-Deallocated p i a (xs, v) e =
      let l = live_facts p i xs a v e in
      let room = length_le_bound p.next_unused (i ∷ xs) (l.1, v.distinct) (l.0, v.below) in
      (
        freed p i,
        deallocate-eq p i xs a v e,
        record {
          gone = ap object_at (update_self p.slot i (next_free p.free_head));
          others = λ j ne. update_ne p.slot i j (next_free p.free_head) ne;
          used = omega (arith, v.counted, room);
          same_capacity = refl;
          cursor = omega (arith, v.counted);
          valid = (i ∷ xs, freed-Inv p i xs a v e);
        },
      )

  -- In the debug build, deallocate of a slot of a valid pool that holds no object ends the
  -- process.
  pub deallocate_twice :
      (p : MemPool A) (i : ℕ)
      → IsValid p
      → p.debug ≡ true
      → object_at (p.slot i) ≡ none
      → deallocate i p ≡ none
  unfolding deallocate mark_slot
  deallocate_twice p i (xs, v) d e =
      let l : is_some (object_at (p.slot i)) ≡ false = rw e in
      ground (arith, v.live i, v.flags d i, l)

  -- A write through a pointer to an object.
  pub modify-eq :
      (f : A → A) (p : MemPool A) (i : ℕ) (a : A)
      → p.slot i ≡ object a
      → modify i f p ≡ some (record p { slot = update p.slot i (object (f a)) })
  unfolding modify load
  modify-eq f p i a e = simp e

  pub load-eq : (p : MemPool A) (i : ℕ) (a : A) → p.slot i ≡ object a → load i p ≡ some a
  unfolding load
  load-eq p i a e = ap object_at e

  pub modify-IsValid :
      (p : MemPool A) (i : ℕ) (a b : A)
      → IsValid p
      → p.slot i ≡ object a
      → IsValid (record p { slot = update p.slot i (object b) })
  modify-IsValid p i a b (xs, v) e =
      let l = live_facts p i xs a v e in
      (
        xs,
        record {
          head = v.head;
          chain = FreeChain-update p.slot i (object b) xs l.1 v.chain;
          distinct = v.distinct;
          below = v.below;
          within = v.within;
          counted = v.counted;
          live = λ j. ground (arith, v.live j);
          flags = v.flags;
        },
      )
