-- ===== src/RingBuffer/Fifo.antt =====
-- common/ringBuffer.h: what holds at every point of every interleaving of the two threads.
use mathlib.Core.Option.{none-ne-some}
use yquant_system.Base.{
  ℕ, zero, suc, ◌+◌, ◌-◌, ◌%◌, ◌^◌, ◌≤◌, ◌<◌, ◌≡◌, ◌≢◌, ◌↔◌, ◌⊎◌, inl, inr, none, List, ◌++◌, arith,
  refl, ◌∙◌, sym, subst, length,
}
use yquant_system.RingBuffer.{try_get_next_to_write_to, get_next_to_read}
use yquant_system.RingBuffer.Mask.{close_indices}
use yquant_system.RingBuffer.Inv.{slots, ProducerAt, ConsumerAt, Inv}
use yquant_system.RingBuffer.System.{
  System, ProducerPc, ConsumerPc, Reach, init, start, produce, consume,
}
use yquant_system.RingBuffer.Steps.{WriteAnswer, ReadAnswer}
use yquant_system.RingBuffer.{create, round_up_to_power_of2, size}
use yquant_system.RingBuffer.Moves.{
  r_le_w, reach_of, asked_to_write, asked_to_read, producer-Inv, consumer-Inv,
}
use native.Mathlib.Nat.{one-le-pow, pow-le-pow_right}
use yquant_system.Types.{u64_mod}

le64 : (k : ℕ) → k < 64 → k ≤ 64
le64 k h = omega arith

module _ {ℓ} {A : Type ℓ} where
  create-Inv :
      (n k : ℕ) (default : A)
      → k < 64
      → round_up_to_power_of2 n ≡ 2 ^ k
      → Inv k (init (create n default)) 0 0
  unfolding create
  create-Inv n k default h e = record {
    indices = record {
      word = omega arith;
      mask = rw e (omega (arith, small, positive));
      write = refl;
      cached_read = refl;
      read = refl;
      cached_write = refl;
      seen_r_le_r = omega arith;
      r_le_seen_w = omega arith;
      seen_w_le_w = omega arith;
      room = omega (arith, positive);
    };
    producer = tt;
    consumer = tt;
    content = refl;
  }
    where
      positive : 0 < 2 ^ k
      positive = one-le-pow k 2 (omega arith)

      small : 2 ^ k ≤ u64_mod
      small = pow-le-pow_right {n = 2} (omega arith) (le64 k h)

  length-slots : (store : ℕ → A) (c i n : ℕ) → length (slots store c i n) ≡ n
  length-slots store c i zero = refl
  length-slots store c i (suc n) = omega (arith, length-slots store c (suc i) n)

  module _ (k : ℕ) (s : System A) (seen_r seen_w : ℕ) (v : Inv k s seen_r seen_w) where
    full_iff :
        WriteAnswer k s.queue
          (length s.sent)
          (length s.got)
          seen_w
          (try_get_next_to_write_to s.queue)
        → ((try_get_next_to_write_to s.queue).0 ≡ none)
          ↔ (suc (length s.sent) ≡ length s.got + 2 ^ k)
    full_iff (seen_r', i, st, inl (answer, room)) = (
      λ refused. absurd (none-ne-some (length s.sent % 2 ^ k) (sym refused ∙ answer)),
      λ full. absurd (omega (arith, full, room, i.seen_r_le_r)),
    )
    full_iff (seen_r', i, st, inr (answer, full)) = (λ _. full, λ _. answer)

    empty_iff :
        ReadAnswer k s.queue (length s.sent) (length s.got) seen_r (get_next_to_read s.queue)
        → ((get_next_to_read s.queue).0 ≡ none) ↔ (length s.got ≡ length s.sent)
    empty_iff (seen_w', i, st, inl (answer, more)) = (
      λ refused. absurd (none-ne-some (length s.got % 2 ^ k) (sym refused ∙ answer)),
      λ same. absurd (omega (arith, same, more, i.seen_w_le_w)),
    )
    empty_iff (seen_w', i, st, inr (answer, same)) = (λ _. same, λ _. answer)

    held_by_producer :
        (i : ℕ)
        → ((s.producer ≡ ProducerPc.claimed i) ⊎ ((x : A) × (s.producer ≡ ProducerPc.written i x)))
        → i ≡ length s.sent % 2 ^ k
    held_by_producer i (inl p) =
        let (here, _, _) =
          subst (λ q. ProducerAt k s.queue.store q (length s.sent) seen_r) p v.producer in
        here
    held_by_producer i (inr (x, p)) =
        let (here, _, _) =
          subst (λ q. ProducerAt k s.queue.store q (length s.sent) seen_r) p v.producer in
        here

  module _ (n k : ℕ) (default : A) (h : k < 64) (e : round_up_to_power_of2 n ≡ 2 ^ k) where
    pub Reach-Inv :
        (s : System A)
        → Reach (create n default) s
        → (seen_r : ℕ) × (seen_w : ℕ) × Inv k s seen_r seen_w
    Reach-Inv s start = (0, 0, create-Inv n k default h e)
    Reach-Inv s (produce t s' r p) =
        let (seen_r, seen_w, v) = Reach-Inv t r in
        let (seen_r', v') = producer-Inv k t seen_r seen_w v s p in (seen_r', seen_w, v')
    Reach-Inv s (consume t s' r p) =
        let (seen_r, seen_w, v) = Reach-Inv t r in
        let (seen_w', v') = consumer-Inv k t seen_r seen_w v s p in (seen_r, seen_w', v')

    -- For a queue whose size rounds up to 2^k, k below 64, at every point of every interleaving of
    -- the producer and the consumer, what the consumer received, followed by fewer elements than
    -- the capacity, is what the producer sent, in the same order.
    pub fifo :
        (s : System A)
        → Reach (create n default) s
        → (rest : List A) × (s.sent ≡ s.got ++ rest) × length rest < 2 ^ k
    fifo s r =
        let (seen_r, seen_w, v) = Reach-Inv s r in
        let c = 2 ^ k in
        let m = length s.sent - length s.got in
        (
          slots s.queue.store c (length s.got) m,
          v.content,
          omega (
            arith,
            length-slots s.queue.store c (length s.got) m,
            reach_of k s seen_r seen_w v,
            r_le_w k s seen_r seen_w v,
          ),
        )

    -- For a queue whose size rounds up to 2^k, k below 64, at every point of every interleaving
    -- TryGetNextToWriteTo returns the null pointer exactly when one element less than the capacity
    -- was sent and not received, and GetNextToRead exactly when all that was sent was received.
    pub answers :
        (s : System A)
        → Reach (create n default) s
        → (((try_get_next_to_write_to s.queue).0 ≡ none)
            ↔ (suc (length s.sent) ≡ length s.got + 2 ^ k))
          × (((get_next_to_read s.queue).0 ≡ none) ↔ (length s.got ≡ length s.sent))
    answers s r =
        let (seen_r, seen_w, v) = Reach-Inv s r in
        (
          full_iff k s seen_r seen_w v (asked_to_write k s seen_r seen_w v),
          empty_iff k s seen_r seen_w v (asked_to_read k s seen_r seen_w v),
        )

    -- For a queue whose size rounds up to 2^k, k below 64, at every point of every interleaving
    -- the slot that the producer holds, claimed or written, is not the slot that the consumer is
    -- about to read.
    pub no_race :
        (s : System A) (i j : ℕ)
        → Reach (create n default) s
        → ((s.producer ≡ ProducerPc.claimed i) ⊎ ((x : A) × (s.producer ≡ ProducerPc.written i x)))
        → s.consumer ≡ ConsumerPc.peeked j
        → i ≢ j
    no_race s i j r p c =
        let (seen_r, seen_w, v) = Reach-Inv s r in
        let here = held_by_producer k s seen_r seen_w v i p in
        let (there, more, _) =
          subst (λ q. ConsumerAt k s.queue.store q (length s.got) seen_w) c v.consumer in
        λ same. omega (
          arith,
          more,
          v.indices.seen_w_le_w,
          close_indices (2 ^ k) (length s.got) (length s.sent) (r_le_w k s seen_r seen_w v)
              (reach_of k s seen_r seen_w v) (sym there ∙ sym same ∙ here),
        )

    -- For a queue whose size rounds up to 2^k, k below 64, at every point of every interleaving
    -- size, with both indices read at that point, is the number of elements that were sent and not
    -- received: the wrap-around of the indices does not show.
    pub size_lem :
        (s : System A)
        → Reach (create n default) s
        → length s.sent - length s.got ≡ size s.queue s.queue
    unfolding size
    size_lem s r =
        let (seen_r, seen_w, v) = Reach-Inv s r in
        omega (
          arith,
          v.indices.read,
          v.indices.write,
          r_le_w k s seen_r seen_w v,
          reach_of k s seen_r seen_w v,
          pow-le-pow_right {n = 2} (omega arith) v.indices.word,
        )
