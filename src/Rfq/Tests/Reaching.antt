-- ===== src/Rfq/Tests/Reaching.antt =====
-- The theorems on the states that the engine reaches, on an auction that is opened, bid in, closed
-- and left to expire.
use derive_docs.Base.{◌≡◌, refl, inr, true, none, some}
use derive_docs.Base.Int.{pos, ◌+ℤ◌, ◌*ℤ◌, ◌/ℤ◌}
use derive_docs.Base.Map.{lookup, insert, erase}
use derive_docs.Base.Text.{codes, text_eq, to_lower}
use derive_docs.Rfq.Types.{RfqStatus, Reason, Rfq, Quote, address_eq}
use derive_docs.Rfq.Store.{
  empty_store, put_rfq, get_rfq, put_quote, get_quote, list_quotes, present, ids_of,
}
use derive_docs.Rfq.Quotes.{
  validate_quote, check_window, check_shape, check_trade, check_owner, check_cash, oi_fee_for,
  verify_action_signature, one,
}
use derive_docs.Rfq.Auction.State.{
  Engine, reserved_for, reserved_in, reserve, release_reservation, emit, arm_accept_timer,
  clear_accept_timer, clear_timer,
}
use derive_docs.Rfq.Auction.Opening.{OpenRequest, make_rfq, open_rfq}
use derive_docs.Rfq.Auction.Best.{select_best_quote, best_of}
use derive_docs.Rfq.Auction.Bidding.{
  submit_quote, check_submission, prior_quotes, validation_ctx, admit_quote, drop_quotes,
}
use derive_docs.Rfq.Auction.Lifecycle.{
  close_auction, settle, settled, save_rfq, release_losers, reserve_winner, winner_of, lapse,
  expire_accept,
}
use derive_docs.Rfq.Auction.Sound.{IsSound}
use derive_docs.Rfq.Auction.Once.{accepted_once}
use derive_docs.Rfq.Auction.Terminal.{executing_rfq}
use derive_docs.Rfq.Auction.Execution.{Acceptance, Prepared, prepare_acceptance, commit_acceptance}
use derive_docs.Rfq.Executor.{Encoders, build_rfq_execution, create_execution_intent}
use derive_docs.Rfq.Quotes.{rfq_changed, not_acceptable}
use derive_docs.Base.{ok, err, []}
use derive_docs.Rfq.Auction.Sound.Reachability.{Reachable, starts, opens, submits, closes, expires}
use derive_docs.Rfq.Auction.Sound.Safety.{Reachable-IsSound, reserved_only_for_winner}
use derive_docs.Rfq.Tests.{rfq, instrument, chain, options, submission, quote_at, engine_with}

abbrev pub request : OpenRequest
request = record {
  subaccount_id = pos 8;
  amount = one;
  instrument = some instrument;
  tradeable = true;
}

abbrev pub fresh_engine : Engine
fresh_engine = engine_with empty_store

abbrev pub opened_engine : Engine
opened_engine = (open_rfq 30_000 request 1_000 1 fresh_engine).0

abbrev pub bid_engine : Engine
bid_engine =
    (submit_quote options chain submission 2_000 2_500 2_600 7 opened_engine opened_engine).0

abbrev closed_engine : Engine
closed_engine = close_auction 60_000 1 31_000 bid_engine

abbrev expired_engine : Engine
expired_engine = expire_accept 1 closed_engine

pub reached_bid : Reachable options bid_engine
unfolding open_rfq make_rfq emit put_rfq insert lookup
reached_bid =
    submits chain submission 2_000 2_500 2_600 7 opened_engine opened_engine refl opened opened
  where
    opened : Reachable options opened_engine
    opened = opens request 1_000 1 fresh_engine refl (starts fresh_engine (refl, refl))

reached : Reachable options expired_engine
reached = expires 1 closed_engine (closes 1 31_000 bid_engine reached_bid)

Reachable-IsSound_example : IsSound expired_engine
Reachable-IsSound_example = Reachable-IsSound options expired_engine reached

abbrev pub bid_quote : Quote
bid_quote = record (quote_at 7 40 2_500) { maker = codes "0xAB" }

abbrev expired_rfq : Rfq
expired_rfq = record rfq {
  status = RfqStatus.expired;
  best_quote_id = some 7;
  accept_deadline_at = some 91_000;
  error = some Reason.not_accepted_in_time;
}

stored :
    (lookup 1 expired_engine.store.rfqs ≡ some expired_rfq)
    × (lookup 7 expired_engine.store.quotes ≡ some bid_quote)
unfolding open_rfq make_rfq emit put_rfq insert lookup submit_quote check_submission validation_ctx
    get_rfq validate_quote check_window check_shape check_trade check_owner check_cash oi_fee_for
    verify_action_signature prior_quotes list_quotes present ids_of reserved_for reserved_in
    address_eq text_eq to_lower ◌+ℤ◌ ◌*ℤ◌ ◌/ℤ◌ admit_quote drop_quotes reserve put_quote
    close_auction settle settled save_rfq release_losers reserve_winner winner_of lapse
    expire_accept select_best_quote best_of clear_timer clear_accept_timer arm_accept_timer
    release_reservation get_quote erase mathlib.Core.Option.bind
stored = (refl, refl)

reserved_only_for_winner_example : lookup 7 expired_engine.reservations ≡ none
reserved_only_for_winner_example =
    reserved_only_for_winner options expired_engine expired_rfq bid_quote reached stored.0 stored.1
      (λ h. cc) (inr (λ h. cc, λ h. cc))

abbrev encoders : Encoders
encoders = record {
  encode_fill_data = λ _. [];
  encode_calldata = λ _ _ _ _ _. [];
  keccak256 = λ _. codes "0xcd";
}

abbrev closed_rfq : Rfq
closed_rfq = record rfq {
  status = RfqStatus.closed;
  best_quote_id = some 7;
  accept_deadline_at = some 91_000;
}

abbrev prepared : Prepared
prepared =
    let plan = build_rfq_execution encoders [] closed_rfq bid_quote bid_quote.action [] in
    record {
      quote = bid_quote;
      plan = plan;
      intent = create_execution_intent encoders (pos 10) plan;
    }

abbrev acceptance : Acceptance
acceptance = record { rfq_id = 1; action = bid_quote.action; signature = [] }

abbrev executing_engine : Engine
executing_engine = (commit_acceptance 1 prepared 40_000 closed_engine).0

committed : commit_acceptance 1 prepared 40_000 closed_engine ≡ (executing_engine, ok closed_rfq)
unfolding commit_acceptance open_rfq make_rfq emit put_rfq insert lookup submit_quote
    check_submission validation_ctx get_rfq validate_quote check_window check_shape check_trade
    check_owner check_cash oi_fee_for verify_action_signature prior_quotes list_quotes present
    ids_of reserved_for reserved_in address_eq text_eq to_lower ◌+ℤ◌ ◌*ℤ◌ ◌/ℤ◌ admit_quote
    drop_quotes reserve put_quote close_auction settle settled save_rfq release_losers
    reserve_winner winner_of lapse expire_accept select_best_quote best_of clear_timer
    clear_accept_timer arm_accept_timer release_reservation get_quote erase mathlib.Core.Option.bind
committed = refl

accepted_once_example :
    (get_rfq 1 executing_engine.store ≡ some (executing_rfq closed_rfq prepared.intent))
    × (commit_acceptance 1 prepared 41_000 executing_engine ≡ (executing_engine, err rfq_changed))
    × (prepare_acceptance options encoders [] chain acceptance 41_000 (pos 11) executing_engine
        ≡ (executing_engine, err (not_acceptable RfqStatus.executing)))
accepted_once_example =
    accepted_once options encoders [] chain acceptance prepared prepared 40_000 41_000 (pos 11)
      closed_engine executing_engine closed_rfq
      (Reachable-IsSound options closed_engine (closes 1 31_000 bid_engine reached_bid)) committed
