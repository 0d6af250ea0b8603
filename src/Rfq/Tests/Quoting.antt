-- ===== src/Rfq/Tests/Quoting.antt =====
-- The theorems on quotes, acceptances, fees and the executor wallet at concrete inputs.
use derive_docs.Base.{◌≡◌, refl, ◌↔◌, ◌⊎◌, true, false, some, ok}
use derive_docs.Base.Int.{pos, negsuc}
use derive_docs.Base.Text.{codes}
use derive_docs.Rfq.Types.{TakerOrder, ReceiptStatus}
use derive_docs.Rfq.Quotes.{ChainReader, validate_quote, validate_taker_accept, estimate_oi_fee}
use derive_docs.Rfq.Quotes.Admission.{IsAdmissible, validate_quote_iff}
use derive_docs.Rfq.Quotes.Acceptance.{IsAcceptance, validate_taker_accept_iff}
use derive_docs.Rfq.Quotes.Fees.{estimate_oi_fee_lem}
use derive_docs.Rfq.Submitter.{Outcome, broadcast_returned, submit_verify_and_match}
use derive_docs.Rfq.Submitter.FailClosed.{
  IsFree, Confirmed, Settles, IsSameHash, submit_fails_closed, arm-clear,
}
use derive_docs.Rfq.Executor.{arm_execution_recovery, clear_execution_recovery}
use derive_docs.Rfq.Tests.{maker, rfq, action, quote_at, chain, context, no_latches, option_asset}

validate_quote_iff_example :
    (validate_quote context rfq maker action (codes "0x51") 2_000 2_500 7
      ≡ ok (quote_at 7 40 2_500))
    ↔ IsAdmissible context rfq maker action (codes "0x51") 2_000 2_500 7 (quote_at 7 40 2_500)
validate_quote_iff_example =
    validate_quote_iff context rfq maker action (codes "0x51") 2_000 2_500 7 (quote_at 7 40 2_500)

abbrev taker_order : TakerOrder
taker_order = record { order_hash = codes "0xdd"; max_fee = pos 0 }

validate_taker_accept_iff_example :
    (validate_taker_accept context rfq (quote_at 7 40 2_500) action (codes "0x52") 40_000
      ≡ ok taker_order)
    ↔ IsAcceptance context rfq (quote_at 7 40 2_500) action (codes "0x52") 40_000 taker_order
validate_taker_accept_iff_example =
    validate_taker_accept_iff context rfq (quote_at 7 40 2_500) action (codes "0x52") 40_000
      taker_order

-- A node with a fee of a tenth, a forward price of 3000 and a floor of 5.
abbrev charging : ChainReader
charging = record chain {
  oi_fee_rate = λ _. some (pos 100_000_000_000_000_000);
  forward_price = λ _ _. some (pos 3_000);
  min_oi_fee = some (pos 5);
}

estimate_oi_fee_lem_example :
    estimate_oi_fee charging option_asset maker (pos 2_000) (negsuc 1_999_999_999_999_999_999)
    ≡ some (pos 600)
estimate_oi_fee_lem_example =
    estimate_oi_fee_lem charging option_asset maker (pos 2_000) (negsuc 1_999_999_999_999_999_999)
      100_000_000_000_000_000 3_000 5 refl refl refl

-- The block at the receipt's number has the receipt's hash, in capitals.
abbrev mined : Outcome
mined =
    broadcast_returned maker true
      (some (record {
        status = ReceiptStatus.success;
        block_number = pos 12;
        block_hash = codes "0xab";
      }))
      (some (codes "0xAB"))

submit_fails_closed_example :
    (IsFree no_latches × Settles mined no_latches (submit_verify_and_match mined no_latches))
    ⊎ ((¬ IsFree no_latches)
        × ((submit_verify_and_match mined no_latches).0 ≡ no_latches)
        × ¬ Confirmed (submit_verify_and_match mined no_latches).1)
submit_fails_closed_example = submit_fails_closed mined no_latches

arm-clear_example :
    let paused = arm_execution_recovery 1 (some (codes "0xab")) no_latches in
    let cleared = clear_execution_recovery 1 (some (codes "0xAB")) false paused in
    (¬ IsFree paused)
    × ((IsSameHash (some (codes "0xab")) (some (codes "0xAB")) × IsFree cleared)
        ⊎ ((¬ IsSameHash (some (codes "0xab")) (some (codes "0xAB")))
            × (cleared.unresolved_tx ≡ some (codes "0xab"))))
arm-clear_example =
    arm-clear 1 (some (codes "0xab")) (some (codes "0xAB")) false no_latches (refl, refl)
