-- ===== src/MemPool/Cycle.antt =====
-- common/mem_pool.h: sequences of calls, and the high-water mark.
use Prim.Native.Nat.{max}
use yquant_system.Base.{ℕ, ◌≤◌, ◌≡◌, Bool, some, arith, refl, [], sym, ◌∙◌, subst}
use native.Mathlib.Decide.{dec_lt}
use yquant_system.MemPool.{object, MemPool, create, allocate, deallocate, high_water}
use yquant_system.MemPool.Inv.{IsValid, create-Inv}
use yquant_system.MemPool.Ops.{allocate-Allocated, allocate-exhausted}
use yquant_system.MemPool.Free.{deallocate-Deallocated}

module _ {A : Type 0} where
  -- One call of the pool by a client that gives back only live objects.
  pub data Step (p p' : MemPool A) : Type 0 where
    allocates : (a : A) (i : ℕ) → allocate a p ≡ some (i, p') → Step p p'
    deallocates : (i : ℕ) (a : A) → p.slot i ≡ object a → deallocate i p ≡ some p' → Step p p'

  -- A history of calls, with the greatest number of objects in use at any point of it.
  pub data History (p : MemPool A) : MemPool A → ℕ → Type 0 where
    start : History p p p.in_use
    call :
        {q r : MemPool A} {peak : ℕ} → History p q peak → Step q r → History p r (max peak r.in_use)

  in_use-le-capacity : (p : MemPool A) → IsValid p → p.in_use ≤ p.capacity
  in_use-le-capacity p (xs, v) = omega (arith, v.counted, v.within)

  Step-lem :
      (p p' : MemPool A)
      → IsValid p
      → Step p p'
      → IsValid p' × (p'.next_unused ≡ max p.next_unused p'.in_use)
  Step-lem p p' v (allocates a i e) = elim (dec_lt p.in_use p.capacity) [
    | yes h ↦
        let (j, q, f, d) = allocate-Allocated a p v h in
        let same : q ≡ p' = cc (sym f ∙ e) in
        subst (λ r. IsValid r × (r.next_unused ≡ max p.next_unused r.in_use)) same
          (d.valid, d.cursor)
    | no h ↦
        let full = allocate-exhausted a p v (omega (arith, in_use-le-capacity p v)) in
        cc (sym full ∙ e)
  ]
  Step-lem p p' v (deallocates i a o e) =
      let (q, f, d) = deallocate-Deallocated p i a v o in
      let same : q ≡ p' = cc (sym f ∙ e) in
      subst (λ r. IsValid r × (r.next_unused ≡ max p.next_unused r.in_use)) same (d.valid, d.cursor)

  History-lem :
      (p q : MemPool A) (peak : ℕ)
      → IsValid p
      → high_water p ≡ p.in_use
      → History p q peak
      → IsValid q × (high_water q ≡ peak)
  unfolding high_water
  History-lem p q peak v h start = (v, h)
  History-lem p r top v h (call {q} {peak} past step) =
      let (vq, hq) = History-lem p q peak v h past in
      let (vr, hr) = Step-lem q r vq step in (vr, omega (arith, hq, hr))

  -- After any history of calls on a new pool, in which only live objects are given back,
  -- high_water is the greatest number of objects that were in use at once, and the pool is valid.
  pub high_water_is_peak :
      (debug : Bool) (capacity : ℕ) (p : MemPool A) (peak : ℕ)
      → History (create debug capacity) p peak
      → (high_water p ≡ peak) × IsValid p
  unfolding create high_water
  high_water_is_peak debug capacity p peak past =
      let (v, h) = History-lem _ p peak ([], create-Inv debug capacity) refl past in (h, v)
