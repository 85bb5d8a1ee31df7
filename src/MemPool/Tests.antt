-- ===== src/MemPool/Tests.antt =====
-- common/mem_pool.h: the theorems on the pool at concrete pools.
use Prim.Native.Nat.{max}
use yquant_system.Base.{ℕ, ◌<◌, ◌≡◌, true, false, none, some, [], arith, refl, update}
use yquant_system.MemPool.{
  MemPool, raw, object, object_at, create, allocate, deallocate, high_water, take_block, mark_slot,
}
use yquant_system.MemPool.Inv.{IsValid, create-Inv}
use yquant_system.MemPool.Ops.{Allocated, allocate-Allocated, allocate-exhausted}
use yquant_system.MemPool.Free.{Deallocated, deallocate-Deallocated, deallocate_twice}
use yquant_system.MemPool.Cycle.{History, start, call, allocates, deallocates, high_water_is_peak}

abbrev two_slots : MemPool ℕ
two_slots = create true 2

abbrev no_slots : MemPool ℕ
no_slots = create true 0

two_slots-IsValid : IsValid two_slots
two_slots-IsValid = ([], create-Inv true 2)

no_slots-IsValid : IsValid no_slots
no_slots-IsValid = ([], create-Inv true 0)

has_room : two_slots.in_use < two_slots.capacity
unfolding create
has_room = omega arith

is_full : no_slots.in_use ≡ no_slots.capacity
unfolding create
is_full = refl

is_debug : two_slots.debug ≡ true
unfolding create
is_debug = refl

holds_none : object_at (two_slots.slot 0) ≡ none
unfolding create
holds_none = refl

-- The pool after one object, 7, has been made in slot 0.
abbrev one_taken : MemPool ℕ
one_taken = record {
  debug = true;
  capacity = 2;
  next_unused = 1;
  free_head = none;
  in_use = 1;
  slot = update (λ _. raw) 0 (object 7);
  in_use_flags = update (λ _. false) 0 true;
}

one_taken-IsValid : IsValid one_taken
one_taken-IsValid = (
  [],
  record {
    head = refl;
    chain = tt;
    distinct = tt;
    below = tt;
    within = omega arith;
    counted = refl;
    live = λ i. ground arith;
    flags = λ _ i. ground arith;
  },
)

-- The first object goes to slot 0, and its slot is given back.
take_one : allocate 7 two_slots ≡ some (0, one_taken)
unfolding allocate take_block mark_slot create
take_one = refl

one_back : (p : MemPool ℕ) × (deallocate 0 one_taken ≡ some p) × (high_water p ≡ 1)
unfolding deallocate mark_slot high_water
one_back = (_, refl, refl)

take_and_give_back : (p : MemPool ℕ) × History two_slots p (max (max two_slots.in_use 1) p.in_use)
take_and_give_back =
    let (p, e, h) = one_back in
    (p, call (call start (allocates 7 0 take_one)) (deallocates 0 7 refl e))

allocate-Allocated_example :
    (i : ℕ) × (p' : MemPool ℕ) × (allocate 7 two_slots ≡ some (i, p')) × Allocated 7 two_slots i p'
allocate-Allocated_example = allocate-Allocated 7 two_slots two_slots-IsValid has_room

allocate-exhausted_example : allocate 7 no_slots ≡ none
allocate-exhausted_example = allocate-exhausted 7 no_slots no_slots-IsValid is_full

deallocate_twice_example : deallocate 0 two_slots ≡ none
deallocate_twice_example = deallocate_twice two_slots 0 two_slots-IsValid is_debug holds_none

deallocate-Deallocated_example :
    (p' : MemPool ℕ) × (deallocate 0 one_taken ≡ some p') × Deallocated one_taken 0 p'
deallocate-Deallocated_example = deallocate-Deallocated one_taken 0 7 one_taken-IsValid refl

high_water_is_peak_example :
    (high_water take_and_give_back.0 ≡ max (max two_slots.in_use 1) take_and_give_back.0.in_use)
    × IsValid take_and_give_back.0
high_water_is_peak_example =
    high_water_is_peak true 2 take_and_give_back.0
      (max (max two_slots.in_use 1) take_and_give_back.0.in_use) take_and_give_back.1
