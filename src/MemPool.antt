-- ===== src/MemPool.antt =====
-- common/mem_pool.h: the object pool with an intrusive free list.
--
-- A pointer is the index of its slot. A slot holds what was written last into the union
-- `ObjectBlock`; `raw` is storage that was never handed out. `debug` says whether the build has
-- the slot flags (NDEBUG not defined); it is fixed when the pool is made.
pub mod Inv
pub mod Ops
pub mod Free
pub mod Cycle
pub mod Tests
use yquant_system.Base.{
  ℕ, suc, ◌+◌, ◌-◌, Bool, true, false, not, ◌||◌, ◌&&◌, Option, none, some, ltb, ◌==◌,
  if◌then◌else◌, ◌>>=◌, assert, update,
}

pub data Slot (A : Type 0) : Type 0 where
  raw : Slot A
  object : A → Slot A
  next_free : Option ℕ → Slot A

pub record MemPool (A : Type 0) : Type 0 where
  pub debug : Bool
  pub capacity : ℕ
  pub next_unused : ℕ
  pub free_head : Option ℕ
  pub in_use : ℕ
  pub slot : ℕ → Slot A
  pub in_use_flags : ℕ → Bool

abbrev pub object_at : {A : Type 0} → Slot A → Option A
object_at raw = none
object_at (object a) = some a
object_at (next_free n) = none

-- Reads the link of a slot of the free list.
abbrev pub link_at : {A : Type 0} → Slot A → Option (Option ℕ)
link_at raw = none
link_at (object a) = none
link_at (next_free n) = some n

abbrev pub same_flag : Bool → Bool → Bool
same_flag true b = b
same_flag false b = not b

module _ {A : Type 0} where
  unfoldable pub create : Bool → ℕ → MemPool A
  create debug capacity = record {
    debug = debug;
    capacity = capacity;
    next_unused = 0;
    free_head = none;
    in_use = 0;
    slot = λ _. raw;
    in_use_flags = λ _. false;
  }

  -- The address checks of the debug build are, for a slot index, that storage was reserved and
  -- that the slot has been handed out before.
  unfoldable pub mark_slot : MemPool A → ℕ → Bool → Option (MemPool A)
  mark_slot p i in_use =
      if p.debug
      then assert (not (p.capacity == 0)) (
          assert (ltb i p.next_unused) (
            assert (not (same_flag (p.in_use_flags i) in_use))
              (some (record p { in_use_flags = update p.in_use_flags i in_use }))))
      else some p

  -- A recycled slot comes first; only an empty free list moves the bump cursor.
  unfoldable pub take_block : MemPool A → Option (ℕ × MemPool A)
  take_block p = elim p.free_head [
    | none ↦
        assert (ltb p.next_unused p.capacity)
          (some (p.next_unused, record p { next_unused = p.next_unused + 1 }))
    | some i ↦ elim (link_at (p.slot i)) [
      | none ↦ none
      | some n ↦ some (i, record p { free_head = n })
    ]
  ]

  unfoldable pub allocate : A → MemPool A → Option (ℕ × MemPool A)
  allocate a p = do
    (i, p1) ← take_block p
    p2 ← mark_slot p1 i true
    some (i, record p2 { in_use = p2.in_use + 1; slot = update p2.slot i (object a) })

  pub deallocate : ℕ → MemPool A → Option (MemPool A)
  deallocate i p = do
    p1 ← mark_slot p i false
    some (record p1 {
      slot = update p1.slot i (next_free p1.free_head);
      free_head = some i;
      in_use = p1.in_use - 1;
    })

  pub available : MemPool A → ℕ
  available p = p.capacity - p.in_use

  pub high_water : MemPool A → ℕ
  high_water p = p.next_unused

  -- The object behind a pointer; a pointer that holds no object is a fault.
  unfoldable pub load : ℕ → MemPool A → Option A
  load i p = object_at (p.slot i)

  -- A write through a pointer to some fields of the object.
  unfoldable pub modify : ℕ → (A → A) → MemPool A → Option (MemPool A)
  modify i f p = do a ← load i p; some (record p { slot = update p.slot i (object (f a)) })
