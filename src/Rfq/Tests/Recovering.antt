-- ===== src/Rfq/Tests/Recovering.antt =====
-- The theorems on `recover` and `getBestQuote` at concrete inputs: a restart while an auction runs,
-- and its end.
use derive_docs.Base.{◌≡◌, refl, some}
use derive_docs.Base.Int.{◌+ℤ◌, ◌*ℤ◌, ◌/ℤ◌}
use derive_docs.Base.Map.{lookup, insert, erase}
use derive_docs.Base.Text.{text_eq, to_lower}
use derive_docs.Rfq.Types.{address_eq}
use derive_docs.Rfq.Store.{put_rfq, get_rfq, put_quote, get_quote, list_quotes, present, ids_of}
use derive_docs.Rfq.Quotes.{
  validate_quote, check_window, check_shape, check_trade, check_owner, check_cash, oi_fee_for,
  verify_action_signature,
}
use derive_docs.Rfq.Auction.State.{
  Engine, reserved_for, reserved_in, reserve, release_reservation, emit, arm_accept_timer,
  clear_accept_timer, clear_timer,
}
use derive_docs.Rfq.Auction.Opening.{make_rfq, open_rfq}
use derive_docs.Rfq.Auction.Best.{select_best_quote, best_of}
use derive_docs.Rfq.Auction.Bidding.{
  submit_quote, check_submission, prior_quotes, validation_ctx, admit_quote, drop_quotes,
}
use derive_docs.Rfq.Auction.Lifecycle.{
  close_auction, settle, settled, save_rfq, release_losers, reserve_winner, winner_of, lapse,
  expire_accept,
}
use derive_docs.Rfq.Auction.Sound.{IsSound}
use derive_docs.Base.{[]}
use derive_docs.Rfq.Auction.Sound.Safety.{Reachable-IsSound}
use derive_docs.Rfq.Types.{Rfq}
use derive_docs.Rfq.Tests.{rfq, options, engine_with}
use derive_docs.Base.{arith}
use derive_docs.Rfq.Auction.Reading.{get_best_quote, IsOutcome, close_auction_keeps_best}
use derive_docs.Rfq.Tests.Reaching.{bid_engine, bid_quote, reached_bid}
use derive_docs.Rfq.Auction.Sound.{reservation_of}
use derive_docs.Rfq.Auction.Sound.Steps.{Within-IsSoundIn}
use derive_docs.Rfq.Auction.Recovery.{recover_open}
use derive_docs.Rfq.Auction.Sound.Recovering.{recover_open_reserves}

abbrev restarted : Engine
restarted = engine_with bid_engine.store

restarted_holds-IsSound : IsSound restarted
unfolding lookup
restarted_holds-IsSound =
    Within-IsSoundIn bid_engine.store [] bid_engine.reservations (λ id r h. absurd (ground arith))
      (Reachable-IsSound options bid_engine reached_bid)

stored :
    (lookup 1 restarted.store.rfqs ≡ some rfq) × (lookup 7 restarted.store.quotes ≡ some bid_quote)
unfolding open_rfq make_rfq emit put_rfq insert lookup submit_quote check_submission validation_ctx
    get_rfq validate_quote check_window check_shape check_trade check_owner check_cash oi_fee_for
    verify_action_signature prior_quotes list_quotes present ids_of reserved_for reserved_in
    address_eq text_eq to_lower ◌+ℤ◌ ◌*ℤ◌ ◌/ℤ◌ admit_quote drop_quotes reserve put_quote
    close_auction settle settled save_rfq release_losers reserve_winner winner_of lapse
    expire_accept select_best_quote best_of clear_timer clear_accept_timer arm_accept_timer
    release_reservation get_quote erase mathlib.Core.Option.bind
stored = (refl, refl)

recover_open_reserves_example :
    IsSound (recover_open 60_000 rfq 3_000 restarted)
    × (lookup 7 (recover_open 60_000 rfq 3_000 restarted).reservations
        ≡ some (reservation_of bid_quote))
recover_open_reserves_example =
    recover_open_reserves 60_000 rfq 3_000 restarted bid_quote restarted_holds-IsSound stored.0 refl
      (omega arith) stored.1 refl

close_auction_keeps_best_example :
    let s' = (close_auction 60_000 1 31_000 bid_engine).store in
    (ended : Rfq) × (get_rfq 1 s' ≡ some ended)
    × IsOutcome (get_best_quote rfq bid_engine.store) 91_000 ended
    × (get_best_quote ended s' ≡ get_best_quote rfq bid_engine.store)
close_auction_keeps_best_example =
    close_auction_keeps_best 60_000 1 31_000 rfq bid_engine
      (Reachable-IsSound options bid_engine reached_bid) (unfold get_rfq in stored.0) refl refl
