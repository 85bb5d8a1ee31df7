-- ===== src/MarketDataConsumer/Complete.antt =====
-- trading/market_data/market_data_consumer.cpp: when a recovery ends.
use yquant_system.Base.{
  ℕ, suc, ◌+◌, ◌<◌, ◌≡◌, true, false, some, List, [], ◌∷◌, ◌++◌, refl, ◌∙◌, ap, sym, subst, arith,
  ◌==◌, if◌then◌else◌, length, lt→ltb, le→ltb, ==_self, eq→==,
}
use yquant_system.Messages.{MarketUpdate}
use yquant_system.MarketDataConsumer.{
  QueuedMarketUpdates, MarketDataConsumer, is_start, is_end, push, scan_snapshot, scan_incrementals,
  finish_sync, sync_with, last_of, check_scanned, check_queue, check_snapshot_sync,
}

-- The updates under the numbers n, n + 1, ...
abbrev pub keyed : ℕ → List MarketUpdate → QueuedMarketUpdates
keyed n [] = []
keyed n (u ∷ us) = (n, u) ∷ keyed (suc n) us

abbrev pub AllOlder : ℕ → QueuedMarketUpdates → Type 0
AllOlder n [] = Unit {0}
AllOlder n ((k, u) ∷ q) = (k < n) × AllOlder n q

-- The updates of the book: all but the marks of a snapshot.
abbrev pub events_of : List MarketUpdate → List MarketUpdate
events_of [] = []
events_of (u ∷ us) = push u (events_of us)

scan_snapshot-keyed :
    (n : ℕ) (us : List MarketUpdate) → scan_snapshot n (keyed n us) ≡ some (events_of us)
scan_snapshot-keyed n [] = refl
scan_snapshot-keyed n (u ∷ us) = rw (==_self n, scan_snapshot-keyed (suc n) us) refl

scan_incrementals-keyed :
    (n : ℕ) (us : List MarketUpdate)
    → scan_incrementals n (keyed n us) ≡ (n + length us, some (events_of us))
scan_incrementals-keyed n [] = let z : n ≡ n + 0 = omega arith in ap (λ k. (k, some [])) z
scan_incrementals-keyed n (u ∷ us) =
    let l : suc n + length us ≡ n + suc (length us) = omega arith in
    rw (le→ltb n n (omega arith), ==_self n, scan_incrementals-keyed (suc n) us)
      (ap (λ k. (k, some (push u (events_of us)))) l)

scan_incrementals-older :
    (n : ℕ) (old q : QueuedMarketUpdates)
    → AllOlder n old
    → scan_incrementals n (old ++ q) ≡ scan_incrementals n q
scan_incrementals-older n [] q h = refl
scan_incrementals-older n ((k, u) ∷ old) q (less, h) =
    rw (lt→ltb k n less) (scan_incrementals-older n old q h)

last_of-keyed :
    (n : ℕ) (first : MarketUpdate) (us : List MarketUpdate) (last : MarketUpdate)
    → last_of first (keyed n (us ++ last ∷ [])) ≡ last
last_of-keyed n first [] last = refl
last_of-keyed n first (u ∷ us) last = last_of-keyed (suc n) u us last

-- The consumer after a recovery that ended with `us` and the increments `vs` after number m.
pub record Recovered (m : ℕ) (us vs : List MarketUpdate) (c c' : MarketDataConsumer) : Type 0 where
  pub ended : c'.in_recovery ≡ false
  pub left : c'.snapshot_joined ≡ false
  pub next : c'.next_exp_inc_seq_num ≡ m + 1 + length vs
  pub passed_on : c'.incoming_md_updates ≡ c.incoming_md_updates ++ (events_of us ++ events_of vs)
  pub emptied : (c'.snapshot_queued_msgs ≡ []) × (c'.incremental_queued_msgs ≡ [])

sync_with-ends :
    (first last : MarketUpdate) (events : List MarketUpdate) (c : MarketDataConsumer)
    → is_end last.type ≡ true
    → first.order_id ≡ last.order_id
    → sync_with first last events c
      ≡ finish_sync events (scan_incrementals (last.order_id + 1) c.incremental_queued_msgs) c
unfolding sync_with
sync_with-ends first last events c ends same =
    let equal = eq→== first.order_id last.order_id same in
    subst
      (λ b.
        (if b
          then (if first.order_id == last.order_id
              then finish_sync events
                  (scan_incrementals (last.order_id + 1) c.incremental_queued_msgs) c
              else record c { snapshot_queued_msgs = [] })
          else c)
        ≡ finish_sync events (scan_incrementals (last.order_id + 1) c.incremental_queued_msgs) c)
      (sym ends) (rw equal refl)

-- When the queued snapshot is whole, numbered from 0, from a start mark to an end mark with the
-- same number, and the queued increments, after older ones, have no gap from the number after it
-- on, the check ends the recovery: it leaves the snapshot stream, passes on the updates of the
-- snapshot and then those increments, all but the marks, expects the number after the last of
-- them, and empties both queues.
pub check_snapshot_sync-Recovered :
    (c : MarketDataConsumer) (first last : MarketUpdate) (body vs : List MarketUpdate)
    (old : QueuedMarketUpdates)
    → is_start first.type ≡ true
    → is_end last.type ≡ true
    → first.order_id ≡ last.order_id
    → c.snapshot_queued_msgs ≡ keyed 0 (first ∷ body ++ last ∷ [])
    → AllOlder (last.order_id + 1) old
    → c.incremental_queued_msgs ≡ old ++ keyed (last.order_id + 1) vs
    → Recovered last.order_id (first ∷ body ++ last ∷ []) vs c (check_snapshot_sync c)
unfolding check_snapshot_sync
check_snapshot_sync-Recovered c first last body vs old starts ends same whole older queued =
    let us = first ∷ body ++ last ∷ [] in
    let m = last.order_id in
    let scanned =
      ap (λ q. scan_incrementals (m + 1) q) queued
      ∙ scan_incrementals-older (m + 1) old (keyed (m + 1) vs) older
      ∙ scan_incrementals-keyed (m + 1) vs in
    let synced =
      sync_with-ends first last (events_of us) c ends same
      ∙ ap (λ scan. finish_sync (events_of us) scan c) scanned in
    let checked =
      ap (λ q. check_queue q c) whole
      ∙ ap
          (λ b.
            if b
            then check_scanned first (last_of first (keyed 1 (body ++ last ∷ [])))
                (scan_snapshot 0 (keyed 0 us)) c
            else record c { snapshot_queued_msgs = [] })
          starts
      ∙ ap (λ l. check_scanned first l (scan_snapshot 0 (keyed 0 us)) c)
          (last_of-keyed 1 first body last)
      ∙ ap (λ scan. check_scanned first last scan c) (scan_snapshot-keyed 0 us)
      ∙ synced in
    subst (Recovered m us vs c) (sym checked)
      (record { ended = refl; left = refl; next = refl; passed_on = refl; emptied = (refl, refl) })
