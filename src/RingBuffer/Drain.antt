-- ===== src/RingBuffer/Drain.antt =====
-- common/ringBuffer.h: the consumer alone can always receive all that was sent.
use mathlib.Core.List.{append-nil}
use yquant_system.Base.{
  ℕ, zero, suc, ◌-◌, ◌%◌, ◌^◌, ◌<◌, ◌≡◌, inl, inr, some, [], ◌∷◌, ◌++◌, arith, refl, ◌∙◌, ap, sym,
  subst, length,
}
use yquant_system.RingBuffer.{get_next_to_read, update_read_index}
use yquant_system.RingBuffer.Inv.{slots, Inv}
use yquant_system.RingBuffer.System.{System, ConsumerPc, ConsumerStep, peek, copy, release, Reach}
use yquant_system.RingBuffer.Steps.{ReadAnswer}
use yquant_system.RingBuffer.{create, round_up_to_power_of2}
use yquant_system.RingBuffer.Moves.{asked_to_read, consumer-Inv}
use yquant_system.RingBuffer.Fifo.{Reach-Inv}
use yquant_system.RingBuffer.Slots.{length-snoc}

module _ {ℓ} {A : Type ℓ} where
  -- Steps of the consumer only.
  pub data ConsumerRun : System A → System A → Type ℓ where
    done : (s : System A) → ConsumerRun s s
    next : (s t u : System A) → ConsumerStep s t → ConsumerRun t u → ConsumerRun s u

  abbrev pub CanDrain : System A → Type ℓ
  CanDrain s = (t : System A) × ConsumerRun s t × (t.sent ≡ s.sent) × (t.got ≡ s.sent)

  after : (s t : System A) → t.sent ≡ s.sent → ConsumerStep s t → CanDrain t → CanDrain s
  after s t same step (u, run, sent, got) = (u, next s t u step run, sent ∙ same, got ∙ same)

  module _ (k : ℕ) where
    drained :
        (s : System A) (seen_r seen_w : ℕ)
        → Inv k s seen_r seen_w
        → length s.sent - length s.got ≡ 0
        → s.sent ≡ s.got
    drained s seen_r seen_w v z =
        subst (λ m. s.sent ≡ s.got ++ slots s.queue.store (2 ^ k) (length s.got) m) z v.content
        ∙ append-nil s.got

    read_slot_lem :
        (s : System A) (seen_r seen_w : ℕ)
        → length s.got < length s.sent
        → ReadAnswer k s.queue (length s.sent) (length s.got) seen_r (get_next_to_read s.queue)
        → get_next_to_read s.queue ≡ (some (length s.got % 2 ^ k), (get_next_to_read s.queue).1)
    read_slot_lem s seen_r seen_w more (seen_w', i, st, inl (answer, _)) =
        ap (λ o. (o, (get_next_to_read s.queue).1)) answer
    read_slot_lem s seen_r seen_w more (seen_w', i, st, inr (answer, same)) =
        absurd (omega (arith, more, same))

    drain_idle :
        (m : ℕ) (s : System A) (seen_r seen_w : ℕ)
        → Inv k s seen_r seen_w
        → s.consumer ≡ ConsumerPc.idle
        → length s.sent - length s.got ≡ m
        → CanDrain s
    drain_idle zero s seen_r seen_w v pc left =
        (s, done s, refl, sym (drained s seen_r seen_w v left))
    drain_idle (suc m) s seen_r seen_w v pc left =
        let slot = length s.got % 2 ^ k in
        let q = (get_next_to_read s.queue).1 in
        let s1 = record s { queue = q; consumer = ConsumerPc.peeked slot } in
        let x = q.store slot in
        let s2 = record s1 { consumer = ConsumerPc.copied x } in
        let s3 = record s2 {
          queue = update_read_index q;
          consumer = ConsumerPc.idle;
          got = s.got ++ x ∷ [];
        } in
        let p1 = peek slot q pc (
          read_slot_lem s seen_r seen_w (omega (arith, left))
            (asked_to_read k s seen_r seen_w v)) in
        let p2 = copy slot refl in
        let p3 = release x refl in
        let (w1, v1) = consumer-Inv k s seen_r seen_w v s1 p1 in
        let (w2, v2) = consumer-Inv k s1 seen_r w1 v1 s2 p2 in
        let (w3, v3) = consumer-Inv k s2 seen_r w2 v2 s3 p3 in
        after s s1 refl p1 (
          after s1 s2 refl p2 (
            after s2 s3 refl p3
              (drain_idle m s3 seen_r w3 v3 refl (omega (arith, length-snoc s.got x, left)))))

    drain_copied :
        (s : System A) (seen_r seen_w : ℕ) (x : A)
        → Inv k s seen_r seen_w
        → s.consumer ≡ ConsumerPc.copied x
        → CanDrain s
    drain_copied s seen_r seen_w x v pc =
        let t = record s {
          queue = update_read_index s.queue;
          consumer = ConsumerPc.idle;
          got = s.got ++ x ∷ [];
        } in
        let (w1, v1) = consumer-Inv k s seen_r seen_w v t (release x pc) in
        after s t refl (release x pc)
          (drain_idle (length t.sent - length t.got) t seen_r w1 v1 refl refl)

    drain_from :
        (s : System A) (seen_r seen_w : ℕ) (c : ConsumerPc A)
        → Inv k s seen_r seen_w
        → s.consumer ≡ c
        → CanDrain s
    drain_from s seen_r seen_w ConsumerPc.idle v pc =
        drain_idle (length s.sent - length s.got) s seen_r seen_w v pc refl
    drain_from s seen_r seen_w (ConsumerPc.copied x) v pc = drain_copied s seen_r seen_w x v pc
    drain_from s seen_r seen_w (ConsumerPc.peeked slot) v pc =
        let t = record s { consumer = ConsumerPc.copied (s.queue.store slot) } in
        let (w1, v1) = consumer-Inv k s seen_r seen_w v t (copy slot pc) in
        after s t refl (copy slot pc) (drain_copied t seen_r w1 (s.queue.store slot) v1 refl)

  -- For a queue whose size rounds up to 2^k, k below 64, from every point of every interleaving
  -- there is a run of steps of the consumer alone after which it has received everything that was
  -- sent.
  pub can_drain :
      (n k : ℕ) (default : A)
      → k < 64
      → round_up_to_power_of2 n ≡ 2 ^ k
      → (s : System A) → Reach (create n default) s
      → CanDrain s
  can_drain n k default h e s r =
      let (seen_r, seen_w, v) = Reach-Inv n k default h e s r in
      drain_from k s seen_r seen_w s.consumer v refl
