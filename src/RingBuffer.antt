-- ===== src/RingBuffer.antt =====
-- common/ringBuffer.h: the bounded queue between one producer thread and one consumer thread.
--
-- A pointer into the store is the index of its slot. Each method reads or writes at most one index
-- of the other side, so that a call is one step of an interleaving (RingBuffer/System.antt);
-- `size`, which reads two, takes the states at its two loads. An index is a 64-bit word that
-- wraps. `none` is the null pointer.
pub mod Mask
pub mod System
pub mod Inv
pub mod Steps
pub mod Slots
pub mod Moves
pub mod Fifo
pub mod Drain
pub mod Tests
use Prim.Native.Nat.{bit_and, bit_or}
use yquant_system.Base.{
  ℕ, ◌+◌, ◌-◌, ◌/◌, ◌^◌, Bool, Option, none, some, ◌==◌, if◌then◌else◌, update,
}
use yquant_system.Types.{add64, sub64}

pub record LfQueue {ℓ} (A : Type ℓ) : Type ℓ where
  pub store : ℕ → A
  pub mask : ℕ
  pub capacity : ℕ
  pub next_write_index : ℕ
  pub cached_read_index : ℕ
  pub next_read_index : ℕ
  pub cached_write_index : ℕ

abbrev pub or_shifted : ℕ → ℕ → ℕ
or_shifted k num = bit_or num (num / 2 ^ k)

unfoldable pub round_up_to_power_of2 : ℕ → ℕ
round_up_to_power_of2 num =
    if num == 0
    then 1
    else add64
        (or_shifted 32
          (or_shifted 16 (or_shifted 8 (or_shifted 4 (or_shifted 2 (or_shifted 1 (sub64 num 1)))))))
        1

module _ {ℓ} {A : Type ℓ} where
  unfoldable pub create : ℕ → A → LfQueue A
  create num_elems default =
      let size = round_up_to_power_of2 num_elems in
      record {
        store = λ _. default;
        mask = sub64 size 1;
        capacity = size;
        next_write_index = 0;
        cached_read_index = 0;
        next_read_index = 0;
        cached_write_index = 0;
      }

  abbrev pub next_slot : LfQueue A → ℕ
  next_slot q = bit_and (add64 q.next_write_index 1) q.mask

  -- The slot to write, when the cached read index leaves one.
  abbrev pub write_slot : LfQueue A → Option ℕ
  write_slot q =
      if next_slot q == bit_and q.cached_read_index q.mask
      then none
      else some (bit_and q.next_write_index q.mask)

  unfoldable pub try_get_next_to_write_to : LfQueue A → Option ℕ × LfQueue A
  try_get_next_to_write_to q =
      if next_slot q == bit_and q.cached_read_index q.mask
      then (let q' = record q { cached_read_index = q.next_read_index } in (write_slot q', q'))
      else (some (bit_and q.next_write_index q.mask), q)

  abbrev pub write : ℕ → A → LfQueue A → LfQueue A
  write slot x q = record q { store = update q.store slot x }

  unfoldable pub update_write_index : LfQueue A → LfQueue A
  update_write_index q = record q { next_write_index = add64 q.next_write_index 1 }

  -- The slot to read, when the cached write index leaves one.
  abbrev pub read_slot : LfQueue A → Option ℕ
  read_slot q =
      if q.next_read_index == q.cached_write_index
      then none
      else some (bit_and q.next_read_index q.mask)

  unfoldable pub get_next_to_read : LfQueue A → Option ℕ × LfQueue A
  get_next_to_read q =
      if q.next_read_index == q.cached_write_index
      then (let q' = record q { cached_write_index = q.next_write_index } in (read_slot q', q'))
      else (some (bit_and q.next_read_index q.mask), q)

  unfoldable pub update_read_index : LfQueue A → LfQueue A
  update_read_index q = record q { next_read_index = add64 q.next_read_index 1 }

  unfoldable pub size : LfQueue A → LfQueue A → ℕ
  size at_read at_write = sub64 at_write.next_write_index at_read.next_read_index

  unfoldable pub is_full : LfQueue A → Bool
  is_full q = next_slot q == bit_and q.next_read_index q.mask
