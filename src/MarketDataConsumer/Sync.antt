-- ===== src/MarketDataConsumer/Sync.antt =====
-- trading/market_data/market_data_consumer.cpp: the updates that the client gets rebuild the live orders
-- of the exchange, also after losses.
use mathlib.Core.Bool.{true≢false}
use yquant_system.Base.{
  ℕ, suc, ◌+◌, ◌≡◌, Bool, true, false, not, ◌&&◌, ◌||◌, Option, none, some, List, [], ◌∷◌, ◌++◌,
  refl, ◌∙◌, ap, sym, subst, arith, ltb, ◌==◌, ◌>>=◌, Bool-cases, inl, inr, ==→eq, if◌then◌else◌,
}
use yquant_system.Messages.{MarketUpdate}
use yquant_system.MarketData.Snapshot.{OrderTable}
use yquant_system.MarketData.Snapshot.Replay.{read_update, replay, replay-append}
use yquant_system.MarketDataConsumer.{
  QueuedMarketUpdates, MarketDataConsumer, create, is_start, is_end, assign, start_snapshot_sync,
  push, scan_snapshot, scan_incrementals, finish_sync, sync_with, last_of, check_scanned,
  check_queue, check_snapshot_sync, queue_message, recv_update, without_snapshot, cleared_for,
}
use yquant_system.MarketDataConsumer.Recovery.{
  Agree, read_as-Agree, at_index, empty, table_after, table_after-next, replay-push,
}

-- `us` are the increments of the exchange from its start on: the one with number k stands at k - 1.
abbrev pub IsIncrement : List MarketUpdate → ℕ → MarketUpdate → Type 0
IsIncrement us seq u = (n : ℕ) × (seq ≡ suc n) × (at_index n us ≡ some u)

abbrev pub AllIncrements : List MarketUpdate → QueuedMarketUpdates → Type 0
AllIncrements us [] = Unit {0}
AllIncrements us ((k, u) ∷ q) = IsIncrement us k u × AllIncrements us q

module _ (InRegion : ℕ → ℕ → Type 0) (us : List MarketUpdate) where
  -- A queue that is a whole snapshot gives its reader the live orders after the increment whose
  -- number it carries.
  abbrev pub SnapshotsHold : QueuedMarketUpdates → Type 0
  SnapshotsHold [] = Unit {0}
  SnapshotsHold ((k, first) ∷ q) =
      (events : List MarketUpdate)
      → scan_snapshot 0 ((k, first) ∷ q) ≡ some events
      → is_start first.type ≡ true
      → is_end (last_of first q).type ≡ true
      → first.order_id ≡ (last_of first q).order_id
      → (t : OrderTable)
      → Agree InRegion (replay events t) (table_after us (last_of first q).order_id)

  -- The updates that were passed on rebuild the live orders before the next expected increment.
  abbrev pub IsSynced : ℕ → List MarketUpdate → Type 0
  IsSynced next incoming =
      (n : ℕ) × (next ≡ suc n) × Agree InRegion (replay incoming empty) (table_after us n)

  next-Agree :
      (n : ℕ) (u : MarketUpdate) (t : OrderTable)
      → at_index n us ≡ some u
      → Agree InRegion t (table_after us n)
      → Agree InRegion (read_update u t) (table_after us (suc n))
  next-Agree n u t at h =
      subst (Agree InRegion (read_update u t)) (sym (table_after-next us n u at))
        (read_as-Agree InRegion u.type u t (table_after us n) h)

  ScanHolds : ℕ × Option (List MarketUpdate) → OrderTable → Type 0
  ScanHolds (next, none) t = Unit {0}
  ScanHolds (next, some events) t =
      (n : ℕ) × (next ≡ suc n) × Agree InRegion (replay events t) (table_after us n)

  pushed :
      (u : MarketUpdate) (t : OrderTable) (next : ℕ) (rest : Option (List MarketUpdate))
      → ScanHolds (next, rest) (read_update u t)
      → ScanHolds (next, (rest >>= λ events. some (push u events))) t
  unfolding ScanHolds
  pushed u t next none h = tt
  pushed u t next (some events) (n, e, a) =
      (n, e, subst (λ v. Agree InRegion v (table_after us n)) (sym (replay-push u events t)) a)

  scan_incrementals-ScanHolds :
      (q : QueuedMarketUpdates) (n next : ℕ) (t : OrderTable)
      → next ≡ suc n
      → AllIncrements us q
      → Agree InRegion t (table_after us n)
      → ScanHolds (scan_incrementals next q) t
  unfolding ScanHolds
  scan_incrementals-ScanHolds [] n next t e all h = (n, e, h)
  scan_incrementals-ScanHolds ((k, u) ∷ q) n next t e ((m, at_m, is_u), all) h =
      elim (Bool-cases (ltb k next)) [
        | inl old ↦ rw old (scan_incrementals-ScanHolds q n next t e all h)
        | inr new ↦ elim (Bool-cases (k == next)) [
          | inr gap ↦ rw (new, gap) tt
          | inl here ↦
              let same : m ≡ n = omega (arith, ==→eq k next here) in
              let rest =
                scan_incrementals-ScanHolds q (suc n) (suc next) (read_update u t)
                  (omega (arith, e)) all
                  (next-Agree n u t (ap (λ i. at_index i us) (sym same) ∙ is_u) h) in
              rw (new, here)
                (pushed u t (scan_incrementals (suc next) q).0 (scan_incrementals (suc next) q).1
                  rest)
        ]
      ]

  pub record Consistent (c : MarketDataConsumer) : Type 0 where
    pub synced : c.in_recovery ≡ false → IsSynced c.next_exp_inc_seq_num c.incoming_md_updates
    pub increments : AllIncrements us c.incremental_queued_msgs
    pub snapshots : SnapshotsHold c.snapshot_queued_msgs

  module _ (c : MarketDataConsumer) (recovering : c.in_recovery ≡ true)
      (all : AllIncrements us c.incremental_queued_msgs) where
    not_yet :
        (next : ℕ) (incoming : List MarketUpdate) → c.in_recovery ≡ false → IsSynced next incoming
    not_yet next incoming e = absurd (true≢false (sym recovering ∙ e))

    dropped : Consistent (without_snapshot c)
    dropped = record {
      synced = not_yet c.next_exp_inc_seq_num c.incoming_md_updates;
      increments = all;
      snapshots = tt;
    }

    finish-Consistent :
        (events : List MarketUpdate) (scan : ℕ × Option (List MarketUpdate))
        → ScanHolds scan (replay events (replay c.incoming_md_updates empty))
        → Consistent (finish_sync events scan c)
    unfolding ScanHolds
    finish-Consistent events (next, none) h = record {
      synced = not_yet next c.incoming_md_updates;
      increments = all;
      snapshots = tt;
    }
    finish-Consistent events (next, some increments) (n, e, h) =
        let t = replay c.incoming_md_updates empty in
        let split =
          replay-append c.incoming_md_updates (events ++ increments) empty
          ∙ replay-append events increments t in
        record {
          synced = λ _. (n, e, subst (λ v. Agree InRegion v (table_after us n)) (sym split) h);
          increments = tt;
          snapshots = tt;
        }

    sync-Consistent :
        (k : ℕ) (first : MarketUpdate) (q : QueuedMarketUpdates) (events : List MarketUpdate)
        → SnapshotsHold c.snapshot_queued_msgs
        → SnapshotsHold ((k, first) ∷ q)
        → is_start first.type ≡ true
        → scan_snapshot 0 ((k, first) ∷ q) ≡ some events
        → Consistent (sync_with first (last_of first q) events c)
    unfolding sync_with
    sync-Consistent k first q events kept holds starts scanned =
        let last = last_of first q in
        elim (Bool-cases (is_end last.type)) [
          | inr no_end ↦ rw no_end (record {
            synced = not_yet c.next_exp_inc_seq_num c.incoming_md_updates;
            increments = all;
            snapshots = kept;
          })
          | inl ends ↦ elim (Bool-cases (first.order_id == last.order_id)) [
            | inr differ ↦ rw (ends, differ) dropped
            | inl same ↦
                let t = replay c.incoming_md_updates empty in
                let whole =
                  holds events scanned starts ends (==→eq first.order_id last.order_id same) t in
                rw (ends, same)
                  (finish-Consistent events
                    (scan_incrementals (last.order_id + 1) c.incremental_queued_msgs)
                    (scan_incrementals-ScanHolds c.incremental_queued_msgs last.order_id
                      (last.order_id + 1) (replay events t) (omega arith) all whole))
          ]
        ]

    scanned-Consistent :
        (k : ℕ) (first : MarketUpdate) (q : QueuedMarketUpdates) (scan : Option (List MarketUpdate))
        → SnapshotsHold c.snapshot_queued_msgs
        → SnapshotsHold ((k, first) ∷ q)
        → is_start first.type ≡ true
        → scan_snapshot 0 ((k, first) ∷ q) ≡ scan
        → Consistent (check_scanned first (last_of first q) scan c)
    scanned-Consistent k first q none kept holds starts scanned = dropped
    scanned-Consistent k first q (some events) kept holds starts scanned =
        sync-Consistent k first q events kept holds starts scanned

    check_queue-Consistent :
        (q : QueuedMarketUpdates)
        → SnapshotsHold c.snapshot_queued_msgs
        → SnapshotsHold q
        → Consistent (check_queue q c)
    check_queue-Consistent [] kept holds = record {
      synced = not_yet c.next_exp_inc_seq_num c.incoming_md_updates;
      increments = all;
      snapshots = kept;
    }
    check_queue-Consistent ((k, first) ∷ q) kept holds =
        let scan = scan_snapshot 0 ((k, first) ∷ q) in
        elim (Bool-cases (is_start first.type)) [
          | inr no_start ↦ rw no_start dropped
          | inl starts ↦
              subst
                (λ b.
                  Consistent (
                    if b then check_scanned first (last_of first q) scan c else without_snapshot c))
                (sym starts) (scanned-Consistent k first q scan kept holds starts refl)
        ]

    check-Consistent : SnapshotsHold c.snapshot_queued_msgs → Consistent (check_snapshot_sync c)
    unfolding check_snapshot_sync
    check-Consistent holds = check_queue-Consistent c.snapshot_queued_msgs holds holds

  assign-AllIncrements :
      (k : ℕ) (u : MarketUpdate) (q : QueuedMarketUpdates)
      → IsIncrement us k u
      → AllIncrements us q
      → AllIncrements us (assign k u q)
  assign-AllIncrements k u [] new all = (new, tt)
  assign-AllIncrements k u ((j, v) ∷ q) new (old, all) = elim (Bool-cases (ltb k j)) [
    | inl before ↦ rw before (new, (old, all))
    | inr after ↦ elim (Bool-cases (k == j)) [
      | inl here ↦ rw (after, here) (new, all)
      | inr later ↦ rw (after, later) (old, assign-AllIncrements k u q new all)
    ]
  ]

  -- A message that the exchange sent: an increment, or one after which the snapshot queue, if it is
  -- a whole snapshot, holds.
  abbrev pub IsGenuine : Bool → ℕ → MarketUpdate → MarketDataConsumer → Type 0
  IsGenuine true seq u c = SnapshotsHold (assign seq u (cleared_for seq c.snapshot_queued_msgs))
  IsGenuine false seq u c = IsIncrement us seq u

  queue_message-Consistent :
      (is_snapshot : Bool) (seq : ℕ) (u : MarketUpdate) (c : MarketDataConsumer)
      → c.in_recovery ≡ true
      → AllIncrements us c.incremental_queued_msgs
      → SnapshotsHold c.snapshot_queued_msgs
      → IsGenuine is_snapshot seq u c
      → Consistent (queue_message is_snapshot seq u c)
  unfolding queue_message
  queue_message-Consistent true seq u c recovering all holds genuine =
      check-Consistent
        (record c { snapshot_queued_msgs = assign seq u (cleared_for seq c.snapshot_queued_msgs) })
        recovering all genuine
  queue_message-Consistent false seq u c recovering all holds genuine =
      check-Consistent
        (record c { incremental_queued_msgs = assign seq u c.incremental_queued_msgs }) recovering
        (assign-AllIncrements seq u c.incremental_queued_msgs genuine all) holds

  in_order :
      (seq : ℕ) (u : MarketUpdate) (c : MarketDataConsumer)
      → Consistent c
      → c.in_recovery ≡ false
      → seq ≡ c.next_exp_inc_seq_num
      → IsIncrement us seq u
      → Consistent (record c {
        next_exp_inc_seq_num = suc c.next_exp_inc_seq_num;
        incoming_md_updates = c.incoming_md_updates ++ u ∷ [];
      })
  in_order seq u c v calm same (m, at_m, is_u) =
      let (n, e, h) = v.synced calm in
      let at_n : m ≡ n = omega (arith, same, at_m, e) in
      record {
        synced = λ _. (
          suc n,
          omega (arith, e),
          subst (λ t. Agree InRegion t (table_after us (suc n)))
              (sym (replay-append c.incoming_md_updates (u ∷ []) empty))
              (next-Agree n u (replay c.incoming_md_updates empty)
                (ap (λ i. at_index i us) (sym at_n) ∙ is_u) h),
        );
        increments = v.increments;
        snapshots = v.snapshots;
      }

  recover-Consistent :
      (is_snapshot : Bool) (seq : ℕ) (u : MarketUpdate) (c : MarketDataConsumer) (b : Bool)
      → Consistent c
      → c.in_recovery ≡ b
      → (b ≡ false → is_snapshot ≡ false)
      → IsGenuine is_snapshot seq u c
      → Consistent (
          queue_message is_snapshot seq u
            (if b then c else start_snapshot_sync (record c { in_recovery = true })))
  unfolding start_snapshot_sync
  recover-Consistent is_snapshot seq u c true v e only genuine =
      queue_message-Consistent is_snapshot seq u c e v.increments v.snapshots genuine
  recover-Consistent true seq u c false v e only genuine = absurd (true≢false (only refl))
  recover-Consistent false seq u c false v e only genuine =
      queue_message-Consistent false seq u (start_snapshot_sync (record c { in_recovery = true }))
        refl tt tt genuine

  recv_snapshot :
      (seq : ℕ) (u : MarketUpdate) (c : MarketDataConsumer) (b : Bool)
      → Consistent c
      → c.in_recovery ≡ b
      → IsGenuine true seq u c
      → Consistent (
          if not b
          then c
          else (if b || not (seq == c.next_exp_inc_seq_num)
              then queue_message true seq u
                  (if b then c else start_snapshot_sync (record c { in_recovery = true }))
              else record c {
                next_exp_inc_seq_num = suc c.next_exp_inc_seq_num;
                incoming_md_updates = c.incoming_md_updates ++ u ∷ [];
              }))
  recv_snapshot seq u c false v e genuine = v
  recv_snapshot seq u c true v e genuine =
      recover-Consistent true seq u c true v e (λ f. absurd (true≢false f)) genuine

  recv_increment :
      (seq : ℕ) (u : MarketUpdate) (c : MarketDataConsumer) (b : Bool)
      → Consistent c
      → c.in_recovery ≡ b
      → IsGenuine false seq u c
      → Consistent (
          if not b && ltb seq c.next_exp_inc_seq_num
          then c
          else (if b || not (seq == c.next_exp_inc_seq_num)
              then queue_message false seq u
                  (if b then c else start_snapshot_sync (record c { in_recovery = true }))
              else record c {
                next_exp_inc_seq_num = suc c.next_exp_inc_seq_num;
                incoming_md_updates = c.incoming_md_updates ++ u ∷ [];
              }))
  recv_increment seq u c true v e genuine =
      recover-Consistent false seq u c true v e (λ _. refl) genuine
  recv_increment seq u c false v e genuine = elim (Bool-cases (ltb seq c.next_exp_inc_seq_num)) [
    | inl old ↦ rw old v
    | inr new ↦ elim (Bool-cases (seq == c.next_exp_inc_seq_num)) [
      | inl same ↦
          rw (new, same) (in_order seq u c v e (==→eq seq c.next_exp_inc_seq_num same) genuine)
      | inr gap ↦ rw (new, gap) (recover-Consistent false seq u c false v e (λ _. refl) genuine)
    ]
  ]

  -- A message that the exchange sent (an increment under its number, or a snapshot message after
  -- which the queued snapshot, if it is whole, gives the live orders after the increment it names)
  -- keeps the consumer consistent: outside recovery, the updates that it passed on rebuild, in a
  -- given region of symbols and order ids and whatever was lost before, the live orders before the
  -- next increment it expects.
  pub recv_update-Consistent :
      (is_snapshot : Bool) (seq : ℕ) (u : MarketUpdate) (c : MarketDataConsumer)
      → Consistent c
      → IsGenuine is_snapshot seq u c
      → Consistent (recv_update is_snapshot seq u c)
  unfolding recv_update
  recv_update-Consistent true seq u c v genuine = recv_snapshot seq u c c.in_recovery v refl genuine
  recv_update-Consistent false seq u c v genuine =
      recv_increment seq u c c.in_recovery v refl genuine

  pub create-Consistent : Consistent create
  unfolding create
  create-Consistent = record {
    synced = λ _. (0, refl, λ symbol id r. refl);
    increments = tt;
    snapshots = tt;
  }
