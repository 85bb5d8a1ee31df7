-- ===== src/RingBuffer/Inv.antt =====
-- common/ringBuffer.h: what holds of the queue and of its two threads at every point of an
-- interleaving.
use yquant_system.Base.{
  ℕ, zero, suc, ◌+◌, ◌-◌, ◌%◌, ◌^◌, ◌≤◌, ◌<◌, ◌≡◌, List, [], ◌∷◌, ◌++◌, length,
}
use yquant_system.Types.{u64_mod}
use yquant_system.RingBuffer.{LfQueue}
use yquant_system.RingBuffer.System.{System, ProducerPc, ConsumerPc}

module _ {ℓ} {A : Type ℓ} where
  -- The `n` elements from index `r` on, in a store of `c` slots.
  abbrev pub slots : (ℕ → A) → ℕ → ℕ → ℕ → List A
  slots store c r zero = []
  slots store c r (suc n) = store (r % c) ∷ slots store c (suc r) n

  -- `w` elements were sent and `r` were received, the read index was last `seen_r` for the producer
  -- and the write index last `seen_w` for the consumer.
  pub record Indices (k : ℕ) (q : LfQueue A) (w r seen_r seen_w : ℕ) : Type 0 where
    pub word : k ≤ 64
    pub mask : q.mask ≡ 2 ^ k - 1
    pub write : q.next_write_index ≡ w % u64_mod
    pub cached_read : q.cached_read_index ≡ seen_r % u64_mod
    pub read : q.next_read_index ≡ r % u64_mod
    pub cached_write : q.cached_write_index ≡ seen_w % u64_mod
    pub seen_r_le_r : seen_r ≤ r
    pub r_le_seen_w : r ≤ seen_w
    pub seen_w_le_w : seen_w ≤ w
    pub room : w < seen_r + 2 ^ k

  -- A claimed slot is the one after the last element, and leaves one slot unused.
  abbrev pub ProducerAt : ℕ → (ℕ → A) → ProducerPc A → ℕ → ℕ → Type ℓ
  ProducerAt k store ProducerPc.idle w seen_r = Unit {ℓ}
  ProducerAt k store (ProducerPc.claimed slot) w seen_r =
      (slot ≡ w % 2 ^ k) × (suc w < seen_r + 2 ^ k) × Unit {ℓ}
  ProducerAt k store (ProducerPc.written slot x) w seen_r =
      (slot ≡ w % 2 ^ k) × (suc w < seen_r + 2 ^ k) × (store slot ≡ x)

  abbrev pub ConsumerAt : ℕ → (ℕ → A) → ConsumerPc A → ℕ → ℕ → Type ℓ
  ConsumerAt k store ConsumerPc.idle r seen_w = Unit {ℓ}
  ConsumerAt k store (ConsumerPc.peeked slot) r seen_w =
      (slot ≡ r % 2 ^ k) × (r < seen_w) × Unit {ℓ}
  ConsumerAt k store (ConsumerPc.copied x) r seen_w = (r < seen_w) × (x ≡ store (r % 2 ^ k))

  pub record Inv (k : ℕ) (s : System A) (seen_r seen_w : ℕ) : Type ℓ where
    pub indices : Indices k s.queue (length s.sent) (length s.got) seen_r seen_w
    pub producer : ProducerAt k s.queue.store s.producer (length s.sent) seen_r
    pub consumer : ConsumerAt k s.queue.store s.consumer (length s.got) seen_w
    pub content :
        s.sent ≡ s.got ++ slots s.queue.store (2 ^ k) (length s.got) (length s.sent - length s.got)
