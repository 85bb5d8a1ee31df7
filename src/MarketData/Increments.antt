-- ===== src/MarketData/Increments.antt =====
-- exchange/market_data/market_data_publisher.cc: the incremental stream and the copy for the
-- snapshot synthesizer.
use mathlib.Core.List.{append_assoc, append-nil}
use yquant_system.Base.{ℕ, suc, ◌+◌, ◌≡◌, List, [], ◌∷◌, ◌++◌, ◌∙◌, ap, sym, length, arith}
use yquant_system.Messages.{MarketUpdate}
use yquant_system.MarketData.{
  MarketDataPublisherMarketUpdate, MarketDataPublisher, publish, publish_all,
}

-- The updates with the numbers n, n + 1, ...
abbrev pub numbered : ℕ → List MarketUpdate → List MarketDataPublisherMarketUpdate
numbered n [] = []
numbered n (u ∷ us) = record { seq_num = n; update = u } ∷ numbered (suc n) us

pub numbered-append :
    (n : ℕ) (us vs : List MarketUpdate)
    → numbered n (us ++ vs) ≡ numbered n us ++ numbered (n + length us) vs
numbered-append n [] vs = ap (λ m. numbered m vs) (omega arith)
numbered-append n (u ∷ us) vs =
    let e : suc n + length us ≡ n + suc (length us) = omega arith in
    ap (λ l. record { seq_num = n; update = u } ∷ l)
      (numbered-append (suc n) us vs ∙ ap (λ m. numbered (suc n) us ++ numbered m vs) e)

-- What the publisher left after some updates.
pub record Published (us : List MarketUpdate) (p p' : MarketDataPublisher) : Type 0 where
  pub incremental : p'.incremental ≡ p.incremental ++ numbered p.next_inc_seq_num us
  pub forwarded : p'.snapshot_md_updates ≡ p.snapshot_md_updates ++ numbered p.next_inc_seq_num us
  pub next : p'.next_inc_seq_num ≡ p.next_inc_seq_num + length us

-- The publisher sends every update, in order, with consecutive numbers from its next one on, and
-- forwards the same to the snapshot synthesizer.
pub publish_all-Published :
    (us : List MarketUpdate) (p : MarketDataPublisher) → Published us p (publish_all us p)
unfolding publish
publish_all-Published [] p = record {
  incremental = sym (append-nil p.incremental);
  forwarded = sym (append-nil p.snapshot_md_updates);
  next = omega arith;
}
publish_all-Published (u ∷ us) p =
    let r = publish_all-Published us (publish u p) in
    let first : List MarketDataPublisherMarketUpdate =
      record { seq_num = p.next_inc_seq_num; update = u } ∷ [] in
    record {
      incremental =
          r.incremental ∙ append_assoc p.incremental first (numbered (suc p.next_inc_seq_num) us);
      forwarded =
          r.forwarded
          ∙ append_assoc p.snapshot_md_updates first (numbered (suc p.next_inc_seq_num) us);
      next = omega (arith, r.next);
    }
