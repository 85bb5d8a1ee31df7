-- ===== src/RingBuffer/System.antt =====
-- common/ringBuffer.h: the producer thread and the consumer thread over one queue, interleaved in
-- any order.
--
-- The producer asks for a slot, writes an element into it, and moves the write index on; the
-- consumer asks for a slot, reads the element, and moves the read index on. Callers of the
-- repository use the methods in this order, but for the run of market_data_publisher.cc, which
-- moves the read index on before it reads the element for the last time. GetNextToWriteTo asks again until it gets a slot,
-- which is a run of `wait` steps and one `claim`. `sent` and `got` record the elements whose index
-- was moved on, and no code reads them.
use yquant_system.Base.{ℕ, ◌≡◌, none, some, List, [], ◌∷◌, ◌++◌}
use yquant_system.RingBuffer.{
  LfQueue, try_get_next_to_write_to, write, update_write_index, get_next_to_read, update_read_index,
}

pub data ProducerPc {ℓ} (A : Type ℓ) : Type ℓ where
  idle : ProducerPc A
  claimed : ℕ → ProducerPc A
  written : ℕ → A → ProducerPc A

pub data ConsumerPc {ℓ} (A : Type ℓ) : Type ℓ where
  idle : ConsumerPc A
  peeked : ℕ → ConsumerPc A
  copied : A → ConsumerPc A

pub record System {ℓ} (A : Type ℓ) : Type ℓ where
  pub queue : LfQueue A
  pub producer : ProducerPc A
  pub consumer : ConsumerPc A
  pub sent : List A
  pub got : List A

module _ {ℓ} {A : Type ℓ} where
  pub data ProducerStep (s : System A) : System A → Type ℓ where
    claim :
        (slot : ℕ) (q : LfQueue A)
        → s.producer ≡ ProducerPc.idle
        → try_get_next_to_write_to s.queue ≡ (some slot, q)
        → ProducerStep s (record s { queue = q; producer = ProducerPc.claimed slot })
    wait :
        (q : LfQueue A)
        → s.producer ≡ ProducerPc.idle
        → try_get_next_to_write_to s.queue ≡ (none, q)
        → ProducerStep s (record s { queue = q })
    fill :
        (slot : ℕ) (x : A)
        → s.producer ≡ ProducerPc.claimed slot
        → ProducerStep s
            (record s { queue = write slot x s.queue; producer = ProducerPc.written slot x })
    publish :
        (slot : ℕ) (x : A)
        → s.producer ≡ ProducerPc.written slot x
        → ProducerStep s (record s {
          queue = update_write_index s.queue;
          producer = ProducerPc.idle;
          sent = s.sent ++ x ∷ [];
        })

  pub data ConsumerStep (s : System A) : System A → Type ℓ where
    peek :
        (slot : ℕ) (q : LfQueue A)
        → s.consumer ≡ ConsumerPc.idle
        → get_next_to_read s.queue ≡ (some slot, q)
        → ConsumerStep s (record s { queue = q; consumer = ConsumerPc.peeked slot })
    empty :
        (q : LfQueue A)
        → s.consumer ≡ ConsumerPc.idle
        → get_next_to_read s.queue ≡ (none, q)
        → ConsumerStep s (record s { queue = q })
    copy :
        (slot : ℕ)
        → s.consumer ≡ ConsumerPc.peeked slot
        → ConsumerStep s (record s { consumer = ConsumerPc.copied (s.queue.store slot) })
    release :
        (x : A)
        → s.consumer ≡ ConsumerPc.copied x
        → ConsumerStep s (record s {
          queue = update_read_index s.queue;
          consumer = ConsumerPc.idle;
          got = s.got ++ x ∷ [];
        })

  abbrev pub init : LfQueue A → System A
  init q = record {
    queue = q;
    producer = ProducerPc.idle;
    consumer = ConsumerPc.idle;
    sent = [];
    got = [];
  }

  pub data Reach (q : LfQueue A) : System A → Type ℓ where
    start : Reach q (init q)
    produce : (s t : System A) → Reach q s → ProducerStep s t → Reach q t
    consume : (s t : System A) → Reach q s → ConsumerStep s t → Reach q t
