-- ===== src/RingBuffer/Moves.antt =====
-- common/ringBuffer.h: every step of the producer or of the consumer keeps the invariant.
use mathlib.Core.Option.{some-injective, none-ne-some}
use yquant_system.Base.{
  ℕ, suc, ◌+◌, ◌-◌, ◌%◌, ◌^◌, ◌≤◌, ◌<◌, ◌≡◌, inl, inr, none, some, [], ◌∷◌, ◌++◌, arith, refl, ◌∙◌,
  ap, sym, subst, update, update_ne, update_self, length,
}
use yquant_system.RingBuffer.{
  LfQueue, try_get_next_to_write_to, get_next_to_read, write, update_write_index, update_read_index,
}
use yquant_system.RingBuffer.Mask.{close_indices}
use yquant_system.RingBuffer.Inv.{slots, ProducerAt, ConsumerAt, Inv}
use yquant_system.RingBuffer.System.{
  System, ProducerPc, ConsumerPc, ProducerStep, ConsumerStep, claim, wait, fill, publish, peek,
  empty, copy, release,
}
use yquant_system.RingBuffer.Steps.{
  WriteAnswer, ReadAnswer, try_get_next_to_write_to_lem, get_next_to_read_lem,
  update_write_index_lem, update_read_index_lem,
}
use yquant_system.RingBuffer.Slots.{slots-write, snoc-content, head-content, length-snoc}

module _ {ℓ} {A : Type ℓ} (k : ℕ) (s : System A) (seen_r seen_w : ℕ)
    (v : Inv k s seen_r seen_w) where
  pub r_le_w : length s.got ≤ length s.sent
  r_le_w = omega (arith, v.indices.r_le_seen_w, v.indices.seen_w_le_w)

  pub reach_of : length s.sent < length s.got + 2 ^ k
  reach_of = omega (arith, v.indices.room, v.indices.seen_r_le_r)

  claim-Inv :
      (slot : ℕ) (q : LfQueue A)
      → s.producer ≡ ProducerPc.idle
      → WriteAnswer k s.queue (length s.sent) (length s.got) seen_w (some slot, q)
      → (seen_r' : ℕ) × Inv k
          (record s { queue = q; producer = ProducerPc.claimed slot })
          seen_r'
          seen_w
  claim-Inv slot q idle (seen_r', i, st, inr (refused, same)) =
      absurd (none-ne-some slot (sym refused))
  claim-Inv slot q idle (seen_r', i, st, inl (answer, room)) = (
    seen_r',
    record {
      indices = i;
      producer = (some-injective slot (length s.sent % 2 ^ k) answer, room, tt);
      consumer = subst (λ f. ConsumerAt k f s.consumer (length s.got) seen_w) (sym st) v.consumer;
      content = rw st v.content;
    },
  )

  wait-Inv :
      (q : LfQueue A)
      → WriteAnswer k s.queue (length s.sent) (length s.got) seen_w (none, q)
      → s.producer ≡ ProducerPc.idle
      → (seen_r' : ℕ) × Inv k (record s { queue = q }) seen_r' seen_w
  wait-Inv q (seen_r', i, st, answer) idle = (
    seen_r',
    record {
      indices = i;
      producer = rw idle tt;
      consumer = subst (λ f. ConsumerAt k f s.consumer (length s.got) seen_w) (sym st) v.consumer;
      content = rw st v.content;
    },
  )

  peek-Inv :
      (slot : ℕ) (q : LfQueue A)
      → ReadAnswer k s.queue (length s.sent) (length s.got) seen_r (some slot, q)
      → (seen_w' : ℕ) × Inv k
          (record s { queue = q; consumer = ConsumerPc.peeked slot })
          seen_r
          seen_w'
  peek-Inv slot q (seen_w', i, st, inr (refused, same)) = absurd (none-ne-some slot (sym refused))
  peek-Inv slot q (seen_w', i, st, inl (answer, more)) = (
    seen_w',
    record {
      indices = i;
      producer = subst (λ f. ProducerAt k f s.producer (length s.sent) seen_r) (sym st) v.producer;
      consumer = (some-injective slot (length s.got % 2 ^ k) answer, more, tt);
      content = rw st v.content;
    },
  )

  empty-Inv :
      (q : LfQueue A)
      → ReadAnswer k s.queue (length s.sent) (length s.got) seen_r (none, q)
      → s.consumer ≡ ConsumerPc.idle
      → (seen_w' : ℕ) × Inv k (record s { queue = q }) seen_r seen_w'
  empty-Inv q (seen_w', i, st, answer) idle = (
    seen_w',
    record {
      indices = i;
      producer = subst (λ f. ProducerAt k f s.producer (length s.sent) seen_r) (sym st) v.producer;
      consumer = rw idle tt;
      content = rw st v.content;
    },
  )

  -- The slot that the producer holds is none of those with an element in it.
  fill-ConsumerAt :
      (x : A) (pc : ConsumerPc A)
      → suc (length s.sent) < seen_r + 2 ^ k
      → ConsumerAt k s.queue.store pc (length s.got) seen_w
      → ConsumerAt k (update s.queue.store (length s.sent % 2 ^ k) x) pc (length s.got) seen_w
  fill-ConsumerAt x ConsumerPc.idle room c = tt
  fill-ConsumerAt x (ConsumerPc.peeked slot) room c = c
  fill-ConsumerAt x (ConsumerPc.copied y) room (more, e) = (
    more,
    e
        ∙ sym (
            update_ne s.queue.store (length s.sent % 2 ^ k) (length s.got % 2 ^ k) x (λ same.
              omega (
                arith,
                more,
                v.indices.seen_w_le_w,
                close_indices (2 ^ k) (length s.got) (length s.sent) r_le_w reach_of same,
              ))),
  )

  fill-Inv :
      (slot : ℕ) (x : A)
      → s.producer ≡ ProducerPc.claimed slot
      → Inv k
          (record s { queue = write slot x s.queue; producer = ProducerPc.written slot x })
          seen_r
          seen_w
  fill-Inv slot x pc =
      let (e, room, _) =
        subst (λ p. ProducerAt k s.queue.store p (length s.sent) seen_r) pc v.producer in
      let i = v.indices in
      record {
        indices = record {
          word = i.word;
          mask = i.mask;
          write = i.write;
          cached_read = i.cached_read;
          read = i.read;
          cached_write = i.cached_write;
          seen_r_le_r = i.seen_r_le_r;
          r_le_seen_w = i.r_le_seen_w;
          seen_w_le_w = i.seen_w_le_w;
          room = i.room;
        };
        producer = (e, room, update_self s.queue.store slot x);
        consumer = rw e (fill-ConsumerAt x s.consumer room v.consumer);
        content =
            v.content
            ∙ sym (
                rw
                  (
                    e,
                    slots-write s.queue.store (2 ^ k) (length s.sent) x (length s.got)
                        (length s.sent - length s.got) (omega (arith, r_le_w)) reach_of,
                  )
                  refl);
      }

  publish-Inv :
      (slot : ℕ) (x : A)
      → s.producer ≡ ProducerPc.written slot x
      → Inv k
          (record s {
            queue = update_write_index s.queue;
            producer = ProducerPc.idle;
            sent = s.sent ++ x ∷ [];
          })
          seen_r
          seen_w
  unfolding update_write_index
  publish-Inv slot x pc =
      let (e, room, held) =
        subst (λ p. ProducerAt k s.queue.store p (length s.sent) seen_r) pc v.producer in
      let n = length s.sent - length s.got in
      let more : suc (length s.sent) - length s.got ≡ suc n = omega (arith, r_le_w) in
      let at_end : length s.got + n ≡ length s.sent = omega (arith, r_le_w) in
      record {
        indices = rw (length-snoc s.sent x) (
            update_write_index_lem k s.queue (length s.sent) (length s.got) seen_r seen_w v.indices
              room);
        producer = tt;
        consumer = v.consumer;
        content =
            rw (length-snoc s.sent x, more)
              (snoc-content s.queue.store (2 ^ k) (length s.got) n x s.sent s.got v.content
                (ap (λ j. s.queue.store (j % 2 ^ k)) at_end ∙ ap s.queue.store (sym e) ∙ held));
      }

  release-Inv :
      (x : A)
      → s.consumer ≡ ConsumerPc.copied x
      → Inv k
          (record s {
            queue = update_read_index s.queue;
            consumer = ConsumerPc.idle;
            got = s.got ++ x ∷ [];
          })
          seen_r
          seen_w
  unfolding update_read_index
  release-Inv x pc =
      let (more, held) =
        subst (λ p. ConsumerAt k s.queue.store p (length s.got) seen_w) pc v.consumer in
      let n = length s.sent - suc (length s.got) in
      let left : length s.sent - length s.got ≡ suc n =
        omega (arith, more, v.indices.seen_w_le_w) in
      record {
        indices = rw (length-snoc s.got x) (
            update_read_index_lem k s.queue (length s.sent) (length s.got) seen_r seen_w v.indices
              more);
        producer = v.producer;
        consumer = tt;
        content = rw (length-snoc s.got x) (
            head-content s.queue.store (2 ^ k) (length s.got) n x s.sent s.got
              (subst (λ j. s.sent ≡ s.got ++ slots s.queue.store (2 ^ k) (length s.got) j) left
                v.content)
              held);
      }

  pub asked_to_write :
      WriteAnswer k s.queue (length s.sent) (length s.got) seen_w (try_get_next_to_write_to s.queue)
  asked_to_write =
      try_get_next_to_write_to_lem k s.queue (length s.sent) (length s.got) seen_r seen_w v.indices

  pub asked_to_read :
      ReadAnswer k s.queue (length s.sent) (length s.got) seen_r (get_next_to_read s.queue)
  asked_to_read =
      get_next_to_read_lem k s.queue (length s.sent) (length s.got) seen_r seen_w v.indices

  pub producer-Inv : (t : System A) → ProducerStep s t → (seen_r' : ℕ) × Inv k t seen_r' seen_w
  producer-Inv t (claim slot q idle e) =
      claim-Inv slot q idle
        (subst (WriteAnswer k s.queue (length s.sent) (length s.got) seen_w) e asked_to_write)
  producer-Inv t (wait q idle e) =
      wait-Inv q
        (subst (WriteAnswer k s.queue (length s.sent) (length s.got) seen_w) e asked_to_write) idle
  producer-Inv t (fill slot x pc) = (seen_r, fill-Inv slot x pc)
  producer-Inv t (publish slot x pc) = (seen_r, publish-Inv slot x pc)

  copy-Inv :
      (slot : ℕ)
      → s.consumer ≡ ConsumerPc.peeked slot
      → Inv k (record s { consumer = ConsumerPc.copied (s.queue.store slot) }) seen_r seen_w
  copy-Inv slot pc =
      let (e, more, _) =
        subst (λ p. ConsumerAt k s.queue.store p (length s.got) seen_w) pc v.consumer in
      record {
        indices = v.indices;
        producer = v.producer;
        consumer = (more, ap s.queue.store e);
        content = v.content;
      }

  pub consumer-Inv : (t : System A) → ConsumerStep s t → (seen_w' : ℕ) × Inv k t seen_r seen_w'
  consumer-Inv t (peek slot q idle e) =
      peek-Inv slot q
        (subst (ReadAnswer k s.queue (length s.sent) (length s.got) seen_r) e asked_to_read)
  consumer-Inv t (empty q idle e) =
      empty-Inv q
        (subst (ReadAnswer k s.queue (length s.sent) (length s.got) seen_r) e asked_to_read) idle
  consumer-Inv t (copy slot pc) = (seen_w, copy-Inv slot pc)
  consumer-Inv t (release x pc) = (seen_w, release-Inv x pc)
