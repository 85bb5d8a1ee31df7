-- ===== src/MarketDataConsumer.antt =====
-- trading/market_data/market_data_consumer.cpp and market_data_consumer.h: the client's end of the
-- market data, with its recovery from lost messages.
--
-- A queue of updates, a std::map by sequence number, is a list by increasing numbers.
-- `snapshot_joined` says whether the snapshot socket is open; that opening it succeeds, which the
-- code asserts, is taken as given. A sequence number read from the network is an integer, and one
-- that is kept is a number. The decoding of a message, a cast of its bytes, is a parameter.
pub mod Recovery
pub mod Sync
pub mod Complete
pub mod Tests
use yquant_system.Base.{
  ℕ, suc, ◌+◌, Bool, true, false, not, ◌&&◌, ◌||◌, Option, none, some, List, [], ◌∷◌, ◌++◌, ltb,
  ◌==◌, if◌then◌else◌, ◌>>=◌, last?,
}
use yquant_system.Base.Int.{ℤ, pos, negsuc}
use yquant_system.Messages.{MarketUpdateType, MarketUpdate}
use yquant_system.Framing.{recv_messages}

abbrev pub QueuedMarketUpdates : Type 0
QueuedMarketUpdates = List (ℕ × MarketUpdate)

pub record MarketDataConsumer : Type 0 where
  pub next_exp_inc_seq_num : ℕ
  pub incoming_md_updates : List MarketUpdate
  pub in_recovery : Bool
  pub snapshot_joined : Bool
  pub snapshot_queued_msgs : QueuedMarketUpdates
  pub incremental_queued_msgs : QueuedMarketUpdates

unfoldable pub create : MarketDataConsumer
create = record {
  next_exp_inc_seq_num = 1;
  incoming_md_updates = [];
  in_recovery = false;
  snapshot_joined = false;
  snapshot_queued_msgs = [];
  incremental_queued_msgs = [];
}

abbrev pub is_start : MarketUpdateType → Bool
is_start MarketUpdateType.snapshot_start = true
is_start _ = false

abbrev pub is_end : MarketUpdateType → Bool
is_end MarketUpdateType.snapshot_end = true
is_end _ = false

-- std::map: whether a key is there, and the assignment to a key.
abbrev pub contains : ℕ → QueuedMarketUpdates → Bool
contains k [] = false
contains k ((j, u) ∷ q) = (j == k) || contains k q

abbrev pub assign : ℕ → MarketUpdate → QueuedMarketUpdates → QueuedMarketUpdates
assign k u [] = (k, u) ∷ []
assign k u ((j, v) ∷ q) =
    if ltb k j then (k, u) ∷ (j, v) ∷ q else (if k == j then (k, u) ∷ q else (j, v) ∷ assign k u q)

unfoldable pub start_snapshot_sync : MarketDataConsumer → MarketDataConsumer
start_snapshot_sync c = record c {
  snapshot_queued_msgs = [];
  incremental_queued_msgs = [];
  snapshot_joined = true;
}

abbrev pub push : MarketUpdate → List MarketUpdate → List MarketUpdate
push u events = if is_start u.type || is_end u.type then events else u ∷ events

-- The events of a snapshot without a gap.
abbrev pub scan_snapshot : ℕ → QueuedMarketUpdates → Option (List MarketUpdate)
scan_snapshot next [] = some []
scan_snapshot next ((k, u) ∷ q) =
    let rest = scan_snapshot (suc next) q in
    if k == next then (do events ← rest; some (push u events)) else none

-- The number that is expected when the scan ends, and the events if it met no gap.
abbrev pub scan_incrementals : ℕ → QueuedMarketUpdates → ℕ × Option (List MarketUpdate)
scan_incrementals next [] = (next, some [])
scan_incrementals next ((k, u) ∷ q) =
    let old = scan_incrementals next q in
    let expected = scan_incrementals (suc next) q in
    if ltb k next
    then old
    else (if k == next
        then (expected.0, (do events ← expected.1; some (push u events)))
        else (next, none))

abbrev pub without_snapshot : MarketDataConsumer → MarketDataConsumer
without_snapshot c = record c { snapshot_queued_msgs = [] }

abbrev pub finish_sync :
    List MarketUpdate → ℕ × Option (List MarketUpdate) → MarketDataConsumer → MarketDataConsumer
finish_sync events (next, none) c = record c {
  next_exp_inc_seq_num = next;
  snapshot_queued_msgs = [];
}
finish_sync events (next, some increments) c = record {
  next_exp_inc_seq_num = next;
  incoming_md_updates = c.incoming_md_updates ++ (events ++ increments);
  in_recovery = false;
  snapshot_joined = false;
  snapshot_queued_msgs = [];
  incremental_queued_msgs = [];
}

-- A snapshot without gaps from `first` to `last`.
unfoldable pub sync_with :
    MarketUpdate → MarketUpdate → List MarketUpdate → MarketDataConsumer → MarketDataConsumer
sync_with first last events c =
    if is_end last.type
    then (if first.order_id == last.order_id
        then finish_sync events (scan_incrementals (last.order_id + 1) c.incremental_queued_msgs) c
        else without_snapshot c)
    else c

abbrev pub last_of : MarketUpdate → QueuedMarketUpdates → MarketUpdate
last_of u [] = u
last_of u ((k, v) ∷ q) = last_of v q

abbrev pub check_scanned :
    MarketUpdate
    → MarketUpdate
    → Option (List MarketUpdate)
    → MarketDataConsumer
    → MarketDataConsumer
check_scanned first last none c = without_snapshot c
check_scanned first last (some events) c = sync_with first last events c

abbrev pub check_queue : QueuedMarketUpdates → MarketDataConsumer → MarketDataConsumer
check_queue [] c = c
check_queue ((k, first) ∷ q) c =
    if is_start first.type
    then check_scanned first (last_of first q) (scan_snapshot 0 ((k, first) ∷ q)) c
    else without_snapshot c

unfoldable pub check_snapshot_sync : MarketDataConsumer → MarketDataConsumer
check_snapshot_sync c = check_queue c.snapshot_queued_msgs c

-- The snapshot queue before a message is put into it.
abbrev pub cleared_for : ℕ → QueuedMarketUpdates → QueuedMarketUpdates
cleared_for seq q = if (seq == 0) || contains seq q then [] else q

unfoldable pub queue_message : Bool → ℕ → MarketUpdate → MarketDataConsumer → MarketDataConsumer
queue_message is_snapshot seq u c = check_snapshot_sync (
    if is_snapshot
    then record c { snapshot_queued_msgs = assign seq u (cleared_for seq c.snapshot_queued_msgs) }
    else record c { incremental_queued_msgs = assign seq u c.incremental_queued_msgs })

-- A message of a gap, or of the recovery from one.
abbrev pub recover : Bool → ℕ → MarketUpdate → MarketDataConsumer → MarketDataConsumer
recover is_snapshot seq u c =
    queue_message is_snapshot seq u
      (if c.in_recovery then c else start_snapshot_sync (record c { in_recovery = true }))

unfoldable pub recv_update : Bool → ℕ → MarketUpdate → MarketDataConsumer → MarketDataConsumer
recv_update is_snapshot seq u c =
    if is_snapshot && not c.in_recovery
    then c
    else (if not is_snapshot && not c.in_recovery && ltb seq c.next_exp_inc_seq_num
        then c
        else (if c.in_recovery || not (seq == c.next_exp_inc_seq_num)
            then recover is_snapshot seq u c
            else record c {
              next_exp_inc_seq_num = suc c.next_exp_inc_seq_num;
              incoming_md_updates = c.incoming_md_updates ++ u ∷ [];
            }))

abbrev pub recv_message : Bool → ℤ × MarketUpdate → MarketDataConsumer → Option MarketDataConsumer
recv_message is_snapshot (negsuc n, u) c = some c
recv_message is_snapshot (pos seq, u) c = some (recv_update is_snapshot seq u c)

-- `size` is `sizeof(MarketDataPublisherMarketUpdate)`; the result has the bytes that stay.
unfoldable pub recv_callback :
    {B : Type 0}
    → ℕ
    → (List B → ℤ × MarketUpdate)
    → Bool
    → List B
    → MarketDataConsumer
    → Option (MarketDataConsumer × List B)
recv_callback size decode is_snapshot bytes c =
    if is_snapshot && not c.in_recovery
    then some (c, [])
    else recv_messages size (λ frame. recv_message is_snapshot (decode frame)) bytes c
