-- ===== src/Rfq/Tests/Auctions.antt =====
-- The theorems on auctions at concrete inputs.
use derive_docs.Base.Text.{codes}
use derive_docs.Base.Map.{lookup, insert}
use derive_docs.Rfq.Auction.Bidding.{
  submit_quote, check_submission, quote_ids, prior_quotes, validation_ctx,
}
use derive_docs.Rfq.Auction.Collateral.{NoneReservedMore, submit_quote-covered}
use derive_docs.Base.{◌≡◌, refl, [], ◌∷◌, none, some, ok}
use derive_docs.Base.Int.{ℤ, pos, ◌+ℤ◌, ◌≤ℤ◌, int_laws}
use derive_docs.Rfq.Types.{Quote}
use derive_docs.Rfq.Types.{address_eq}
use derive_docs.Base.Text.{text_eq, to_lower}
use derive_docs.Rfq.Quotes.{
  validate_quote, check_window, check_shape, check_trade, check_owner, check_cash, oi_fee_for,
  verify_action_signature,
}
use derive_docs.Rfq.Auction.State.{reserved_in}
use derive_docs.Base.Int.{◌*ℤ◌, ◌/ℤ◌}
use derive_docs.Rfq.Store.{list_quotes, present, ids_of, empty_store, put_rfq, get_rfq}
use derive_docs.Rfq.Auction.State.{Engine, reserved_for}
use derive_docs.Rfq.Auction.Best.{select_best_quote, IsBest, select_best_quote-IsBest}
use derive_docs.Rfq.Tests.{rfq, chain, options, submission, quote_at, engine_with}

select_best_quote-IsBest_example :
    (best : Quote) × (select_best_quote (quote_at 7 40 2_500 ∷ quote_at 9 50 2_600 ∷ [])
      ≡ some best)
    × IsBest (quote_at 7 40 2_500 ∷ quote_at 9 50 2_600 ∷ []) best
select_best_quote-IsBest_example =
    select_best_quote-IsBest (quote_at 7 40 2_500) (quote_at 9 50 2_600 ∷ [])

abbrev open_engine : Engine
open_engine = engine_with (put_rfq rfq empty_store)

abbrev new_quote : Quote
new_quote = record (quote_at 7 40 2_500) { maker = codes "0xAB" }

abbrev submitted : Engine
submitted = (submit_quote options chain submission 2_000 2_500 2_600 7 open_engine open_engine).0

submitted-ok :
    submit_quote options chain submission 2_000 2_500 2_600 7 open_engine open_engine
    ≡ (submitted, ok (new_quote, none))
unfolding submit_quote check_submission validation_ctx get_rfq put_rfq lookup insert validate_quote
    check_window check_shape check_trade check_owner check_cash oi_fee_for verify_action_signature
    prior_quotes list_quotes present ids_of reserved_for reserved_in address_eq text_eq to_lower
    ◌+ℤ◌ ◌*ℤ◌ ◌/ℤ◌
submitted-ok = refl

calm : NoneReservedMore options chain submission 2_000 2_500 2_600 7 open_engine open_engine
calm = omega int_laws

submit_quote-covered_example :
    (cash : ℤ) × (some (pos 100) ≡ some cash)
    × (reserved_for (pos 5) [] submitted
        ≡ reserved_for
            (pos 5)
            (quote_ids (prior_quotes 1 (codes "0xAB") open_engine.store))
            open_engine
          +ℤ pos 42)
    × (reserved_for (pos 5) [] submitted ≤ℤ cash)
unfolding lookup
submit_quote-covered_example =
    submit_quote-covered options chain submission 2_000 2_500 2_600 7 open_engine open_engine
      submitted new_quote none refl calm submitted-ok
