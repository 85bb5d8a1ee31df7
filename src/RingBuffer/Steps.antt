-- ===== src/RingBuffer/Steps.antt =====
-- common/ringBuffer.h: what each method answers on a queue with its indices in order, and that it
-- keeps them so.
use Prim.Native.Nat.{bit_and}
use native.Mathlib.Decide.{dec_lt}
use native.Mathlib.Nat.{pow-le-pow_right}
use yquant_system.Base.{
  ℕ, suc, ◌+◌, ◌-◌, ◌%◌, ◌^◌, ◌≤◌, ◌<◌, ◌≡◌, ◌⊎◌, inl, inr, Option, none, some, arith, refl, ◌∙◌,
  ap, sym, ◌==◌, true, false, Bool-cases, ==→eq,
}
use yquant_system.Types.{u64_mod, add64}
use yquant_system.RingBuffer.{
  LfQueue, next_slot, try_get_next_to_write_to, update_write_index, get_next_to_read,
  update_read_index,
}
use yquant_system.RingBuffer.Mask.{bit_and_mask, close_indices, capacity_ahead, mod_of_word}
use yquant_system.RingBuffer.Inv.{Indices}

masked_word : (k x : ℕ) → k ≤ 64 → bit_and (x % u64_mod) (2 ^ k - 1) ≡ x % 2 ^ k
masked_word k x h =
    let split : 64 ≡ k + (64 - k) = omega arith in
    let e : u64_mod ≡ 2 ^ (k + (64 - k)) = ap (λ n. 2 ^ n) split in
    bit_and_mask (x % u64_mod) k ∙ ap (λ m. x % m % 2 ^ k) e ∙ mod_of_word k (64 - k) x

-- The next slot is that of a read index which is not past the write index exactly when the
-- two are one capacity apart.
full_test :
    (k w r : ℕ)
    → r ≤ w
    → w < r + 2 ^ k
    → ((suc w < r + 2 ^ k) × ((suc w % 2 ^ k == r % 2 ^ k) ≡ false))
      ⊎ ((suc w ≡ r + 2 ^ k) × ((suc w % 2 ^ k == r % 2 ^ k) ≡ true))
full_test k w r h room = elim (dec_lt (suc w) (r + 2 ^ k)) [
  | yes l ↦ inl (
    l,
    elim (Bool-cases (suc w % 2 ^ k == r % 2 ^ k)) [
      | inr f ↦ f
      | inl t ↦
          let e =
            close_indices (2 ^ k) r (suc w) (omega arith) l
              (sym (==→eq (suc w % 2 ^ k) (r % 2 ^ k) t)) in
          absurd (omega (arith, e))
    ],
  )
  | no g ↦
      let e : suc w ≡ r + 2 ^ k = omega (arith, g) in
      inr (e, rw (capacity_ahead (2 ^ k) r (suc w) e) (ground arith))
]

module _ {ℓ} {A : Type ℓ} where
  masked :
      (k : ℕ) (q : LfQueue A) (i x : ℕ)
      → k ≤ 64
      → q.mask ≡ 2 ^ k - 1
      → i ≡ x % u64_mod
      → bit_and i q.mask ≡ x % 2 ^ k
  masked k q i x h m e = rw (e, m) (masked_word k x h)

  next_slot_lem :
      (k : ℕ) (q : LfQueue A) (w r seen_r seen_w : ℕ)
      → Indices k q w r seen_r seen_w
      → next_slot q ≡ suc w % 2 ^ k
  next_slot_lem k q w r seen_r seen_w v =
      masked k q (add64 q.next_write_index 1) (suc w) v.word v.mask (omega (arith, v.write))

  -- What the producer is told, with the queue it leaves.
  abbrev pub WriteAnswer : ℕ → LfQueue A → ℕ → ℕ → ℕ → Option ℕ × LfQueue A → Type ℓ
  WriteAnswer k q w r seen_w (answer, q') =
      (seen_r' : ℕ) × Indices k q' w r seen_r' seen_w
      × (q'.store ≡ q.store)
      × (((answer ≡ some (w % 2 ^ k)) × (suc w < seen_r' + 2 ^ k))
          ⊎ ((answer ≡ none) × (suc w ≡ r + 2 ^ k)))

  abbrev pub ReadAnswer : ℕ → LfQueue A → ℕ → ℕ → ℕ → Option ℕ × LfQueue A → Type ℓ
  ReadAnswer k q w r seen_r (answer, q') =
      (seen_w' : ℕ) × Indices k q' w r seen_r seen_w'
      × (q'.store ≡ q.store)
      × (((answer ≡ some (r % 2 ^ k)) × (r < seen_w')) ⊎ ((answer ≡ none) × (r ≡ w)))

  module _ (k : ℕ) (q : LfQueue A) (w r seen_r seen_w : ℕ) (v : Indices k q w r seen_r seen_w) where
    reload_read : Indices k (record q { cached_read_index = q.next_read_index }) w r r seen_w
    reload_read = record {
      word = v.word;
      mask = v.mask;
      write = v.write;
      cached_read = v.read;
      read = v.read;
      cached_write = v.cached_write;
      seen_r_le_r = omega arith;
      r_le_seen_w = v.r_le_seen_w;
      seen_w_le_w = v.seen_w_le_w;
      room = omega (arith, v.room, v.seen_r_le_r);
    }

    reload_write : Indices k (record q { cached_write_index = q.next_write_index }) w r seen_r w
    reload_write = record {
      word = v.word;
      mask = v.mask;
      write = v.write;
      cached_read = v.cached_read;
      read = v.read;
      cached_write = v.write;
      seen_r_le_r = v.seen_r_le_r;
      r_le_seen_w = omega (arith, v.r_le_seen_w, v.seen_w_le_w);
      seen_w_le_w = omega arith;
      room = v.room;
    }

    r_le_w : r ≤ w
    r_le_w = omega (arith, v.r_le_seen_w, v.seen_w_le_w)

    seen_r_le_w : seen_r ≤ w
    seen_r_le_w = omega (arith, v.seen_r_le_r, r_le_w)

    in_reach : w < r + 2 ^ k
    in_reach = omega (arith, v.room, v.seen_r_le_r)

    next : next_slot q ≡ suc w % 2 ^ k
    next = next_slot_lem k q w r seen_r seen_w v

    seen : bit_and q.cached_read_index q.mask ≡ seen_r % 2 ^ k
    seen = masked k q q.cached_read_index seen_r v.word v.mask v.cached_read

    now : bit_and q.next_read_index q.mask ≡ r % 2 ^ k
    now = masked k q q.next_read_index r v.word v.mask v.read

    here : bit_and q.next_write_index q.mask ≡ w % 2 ^ k
    here = masked k q q.next_write_index w v.word v.mask v.write

    two_pow_le_word : 2 ^ k ≤ u64_mod
    two_pow_le_word = pow-le-pow_right {n = 2} (omega arith) v.word

    behind : (q.next_read_index == q.cached_write_index) ≡ false → r < seen_w
    behind f = ground (arith, v.r_le_seen_w, v.read, v.cached_write)

    behind_write : (q.next_read_index == q.next_write_index) ≡ false → r < w
    behind_write f = ground (arith, r_le_w, v.read, v.write)

    caught_up : (q.next_read_index == q.next_write_index) ≡ true → r ≡ w
    caught_up t =
        close_indices u64_mod r w r_le_w (omega (arith, in_reach, two_pow_le_word))
          (sym v.read ∙ ==→eq q.next_read_index q.next_write_index t ∙ v.write)

    pub try_get_next_to_write_to_lem : WriteAnswer k q w r seen_w (try_get_next_to_write_to q)
    unfolding try_get_next_to_write_to
    try_get_next_to_write_to_lem = elim (full_test k w seen_r seen_r_le_w v.room) [
      | inl (l, f) ↦ rw (next, seen, f) (seen_r, v, refl, inl (ap some here, l))
      | inr (e, t) ↦
          rw (next, seen, t)
            (elim (full_test k w r r_le_w (omega (arith, v.room, v.seen_r_le_r))) [
              | inl (l, f) ↦ rw (now, f) (r, reload_read, refl, inl (ap some here, l))
              | inr (e, t) ↦ rw (now, t) (r, reload_read, refl, inr (refl, e))
            ])
    ]

    pub get_next_to_read_lem : ReadAnswer k q w r seen_r (get_next_to_read q)
    unfolding get_next_to_read
    get_next_to_read_lem = elim (Bool-cases (q.next_read_index == q.cached_write_index)) [
      | inr f ↦ rw f (seen_w, v, refl, inl (ap some now, behind f))
      | inl t ↦ rw t (elim (Bool-cases (q.next_read_index == q.next_write_index)) [
        | inr f ↦ rw f (w, reload_write, refl, inl (ap some now, behind_write f))
        | inl t ↦ rw t (w, reload_write, refl, inr (refl, caught_up t))
      ])
    ]

    pub update_write_index_lem :
        suc w < seen_r + 2 ^ k → Indices k (update_write_index q) (suc w) r seen_r seen_w
    unfolding update_write_index
    update_write_index_lem room = record {
      word = v.word;
      mask = v.mask;
      write = omega (arith, v.write);
      cached_read = v.cached_read;
      read = v.read;
      cached_write = v.cached_write;
      seen_r_le_r = v.seen_r_le_r;
      r_le_seen_w = v.r_le_seen_w;
      seen_w_le_w = omega (arith, v.seen_w_le_w);
      room = room;
    }

    pub update_read_index_lem : r < seen_w → Indices k (update_read_index q) w (suc r) seen_r seen_w
    unfolding update_read_index
    update_read_index_lem more = record {
      word = v.word;
      mask = v.mask;
      write = v.write;
      cached_read = v.cached_read;
      read = omega (arith, v.read);
      cached_write = v.cached_write;
      seen_r_le_r = omega (arith, v.seen_r_le_r);
      r_le_seen_w = more;
      seen_w_le_w = v.seen_w_le_w;
      room = v.room;
    }
