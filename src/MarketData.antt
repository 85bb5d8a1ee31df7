-- ===== src/MarketData.antt =====
-- exchange/market_data/market_data_publisher.cc and market_update.h: the numbering of the market updates.
--
-- The queues from the matching engine and to the snapshot synthesizer are lists in the order in
-- which they are read or written; `incremental` records what was given to the multicast socket. A
-- sequence number is a word that the number of updates of a run does not exhaust, and stands as a
-- number.
pub mod Increments
pub mod Snapshot
use yquant_system.Base.{ℕ, suc, List, [], ◌∷◌, ◌++◌}
use yquant_system.Messages.{MarketUpdate}

pub record MarketDataPublisherMarketUpdate : Type 0 where
  pub seq_num : ℕ
  pub update : MarketUpdate

pub record MarketDataPublisher : Type 0 where
  pub next_inc_seq_num : ℕ
  pub incremental : List MarketDataPublisherMarketUpdate
  pub snapshot_md_updates : List MarketDataPublisherMarketUpdate

unfoldable pub create : MarketDataPublisher
create = record { next_inc_seq_num = 1; incremental = []; snapshot_md_updates = [] }

-- One update: out on the incremental stream, then on to the snapshot synthesizer.
unfoldable pub publish : MarketUpdate → MarketDataPublisher → MarketDataPublisher
publish u p =
    let numbered : MarketDataPublisherMarketUpdate = record {
      seq_num = p.next_inc_seq_num;
      update = u;
    } in
    record {
      incremental = p.incremental ++ numbered ∷ [];
      snapshot_md_updates = p.snapshot_md_updates ++ numbered ∷ [];
      next_inc_seq_num = suc p.next_inc_seq_num;
    }

-- The updates that the thread finds in its queue.
abbrev pub publish_all : List MarketUpdate → MarketDataPublisher → MarketDataPublisher
publish_all [] p = p
publish_all (u ∷ us) p = publish_all us (publish u p)
