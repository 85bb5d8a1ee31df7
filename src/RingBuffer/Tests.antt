-- ===== src/RingBuffer/Tests.antt =====
-- common/ringBuffer.h: the theorems on a queue of four slots, at points of a run.
use yquant_system.Base.{
  ℕ, suc, ◌+◌, ◌*◌, ◌^◌, ◌<◌, ◌≡◌, ◌≢◌, ◌↔◌, inl, none, List, [], ◌∷◌, ◌++◌, arith, refl, length,
}
use yquant_system.RingBuffer.{
  LfQueue, create, round_up_to_power_of2, try_get_next_to_write_to, get_next_to_read,
  update_write_index, write,
}
use yquant_system.RingBuffer.System.{
  System, ProducerPc, ConsumerPc, claim, fill, publish, peek, Reach, init, start, produce, consume,
}
use yquant_system.RingBuffer.Fifo.{fifo, answers, no_race}
use yquant_system.RingBuffer.Drain.{CanDrain, can_drain}

abbrev queue : LfQueue ℕ
queue = create 3 0

rounded : round_up_to_power_of2 3 ≡ 2 ^ 2
unfolding round_up_to_power_of2
rounded = refl

-- The size that every queue of the exchange has: 256 * 1024 elements.
rounded_large : round_up_to_power_of2 (256 * 1024) ≡ 2 ^ 18
unfolding round_up_to_power_of2
rounded_large = refl

abbrev s1 : System ℕ
s1 = record (init queue) {
  queue = (try_get_next_to_write_to queue).1;
  producer = ProducerPc.claimed 0;
}

abbrev s2 : System ℕ
s2 = record s1 { queue = write 0 7 s1.queue; producer = ProducerPc.written 0 7 }

abbrev s3 : System ℕ
s3 = record s2 { queue = update_write_index s2.queue; producer = ProducerPc.idle; sent = 7 ∷ [] }

abbrev s4 : System ℕ
s4 = record s3 { queue = (get_next_to_read s3.queue).1; consumer = ConsumerPc.peeked 0 }

abbrev s5 : System ℕ
s5 = record s4 { queue = (try_get_next_to_write_to s4.queue).1; producer = ProducerPc.claimed 1 }

s3-Reach : Reach queue s3
unfolding create round_up_to_power_of2 try_get_next_to_write_to update_write_index
s3-Reach =
    produce s2 s3
      (produce s1 s2 (produce (init queue) s1 start (claim 0 s1.queue refl refl)) (fill 0 7 refl))
      (publish 0 7 refl)

-- One element is sent, the consumer looks at its slot, and the producer has the next one.
s5-Reach : Reach queue s5
unfolding create round_up_to_power_of2 try_get_next_to_write_to update_write_index get_next_to_read
s5-Reach =
    produce s4 s5 (consume s3 s4 s3-Reach (peek 0 s4.queue refl refl)) (claim 1 s5.queue refl refl)

fifo_example : (rest : List ℕ) × (s5.sent ≡ s5.got ++ rest) × length rest < 2 ^ 2
fifo_example = fifo 3 2 0 (omega arith) rounded s5 s5-Reach

answers_example :
    (((try_get_next_to_write_to s3.queue).0 ≡ none)
      ↔ (suc (length s3.sent) ≡ length s3.got + 2 ^ 2))
    × (((get_next_to_read s3.queue).0 ≡ none) ↔ (length s3.got ≡ length s3.sent))
answers_example = answers 3 2 0 (omega arith) rounded s3 s3-Reach

no_race_example : ◌≢◌ {A = ℕ} 1 0
no_race_example = no_race 3 2 0 (omega arith) rounded s5 1 0 s5-Reach (inl refl) refl

can_drain_example : CanDrain s5
can_drain_example = can_drain 3 2 0 (omega arith) rounded s5 s5-Reach
