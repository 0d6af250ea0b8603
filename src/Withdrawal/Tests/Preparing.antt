-- ===== src/Withdrawal/Tests/Preparing.antt =====
-- services/rfq-engine/src/withdrawal.ts: the theorems on preparations at a concrete request.
use derive_docs.Base.{◌≡◌, refl, false, [], ◌∷◌, arith, ok, err}
use derive_docs.Base.Int.{pos, ◌-ℤ◌}
use derive_docs.Base.Map.{lookup, insert}
use derive_docs.Base.Text.{Text, codes, text_eq, to_lower}
use derive_docs.Base.Decimal.{big_int}
use derive_docs.Rfq.Types.{address_eq}
use derive_docs.Rfq.Stored.Quotes.{serialize_action}
use derive_docs.Withdrawal.Types.{WithdrawalOperation}
use derive_docs.Withdrawal.Store.{
  OperationStore, empty_store, put, get_by_idempotency_key, put_if_idempotency_absent,
}
use derive_docs.Withdrawal.Claims.{puts}
use derive_docs.Withdrawal.Amounts.{to_token_units_floor, token_quantum, align}
use derive_docs.Withdrawal.Maximum.{find_maximum, search, narrow}
use derive_docs.Withdrawal.Policy.{
  find_asset, resolve_asset, snapshot_blocker, available_cash, fee_adjusted_cash, cash_cap,
  held_units, policy_cap, assert_final_policy,
}
use derive_docs.Withdrawal.Preview.{limited, limit_of, recommended_of, preview_at_block}
use derive_docs.Withdrawal.Request.{
  PrepareWithdrawalRequest, WithdrawalServices, PreparedWithdrawalResult, parse_positive,
  validate_idempotency_key, request_fingerprint, check_reviewed,
}
use derive_docs.Withdrawal.Prepare.{Claim, operation_of, draft, parse_claim, claim_key, prepare}
use derive_docs.Withdrawal.Prepared.{draft_passes_final_policy}
use derive_docs.Withdrawal.Replayed.{AnswersAgain, prepare_claims_once}
use derive_docs.Withdrawal.Tests.{account, operation}
use derive_docs.Withdrawal.Tests.Limits.{cash, opts, gateway, five_closed}

abbrev pub services : WithdrawalServices
services = record {
  keccak_json = λ _. codes "0xf";
  key_of = λ _. 40;
  id = 1;
  nonce = pos 7;
  encode_withdraw_data = λ _ _. codes "0x0a";
  action_digest = λ _ _ _. codes "0xd";
  format_units = λ _ _. codes "5";
}

abbrev pub request : PrepareWithdrawalRequest
request = record {
  owner = account;
  subaccount_id = codes "5";
  asset_id = codes "cash";
  token_units = codes "5";
  preview_block_hash = codes "0x9";
}

abbrev pub key : Text
key = codes "key-0001"

abbrev claim : Claim
claim = record {
  request = request;
  subaccount_id = 5;
  token_units = 5;
  asset = cash;
  fingerprint = codes "0xf";
  scoped_key = 40;
}

parsed : parse_claim opts services request key ≡ ok claim
unfolding parse_claim validate_idempotency_key parse_positive resolve_asset find_asset
    request_fingerprint text_eq to_lower big_int
parsed = refl

abbrev drafted : WithdrawalOperation
unfolding operation_of
drafted = elim (draft opts services gateway gateway 1_000_000 claim) [
  | ok o ↦ o
  | err _ ↦ operation
]

draft_ok : draft opts services gateway gateway 1_000_000 claim ≡ ok drafted
unfolding draft check_reviewed preview_at_block limit_of limited recommended_of find_maximum search
    narrow resolve_asset find_asset snapshot_blocker available_cash fee_adjusted_cash cash_cap
    held_units policy_cap to_token_units_floor token_quantum align address_eq text_eq to_lower ◌-ℤ◌
draft_ok = refl

supported : resolve_asset opts (codes "cash") ≡ ok cash
unfolding resolve_asset find_asset text_eq
supported = refl

draft_passes_final_policy_example : assert_final_policy opts gateway drafted ≡ ok tt
draft_passes_final_policy_example =
    draft_passes_final_policy opts services gateway 1_000_000 claim gateway draft_ok (omega arith)
      supported five_closed

abbrev stored : OperationStore
stored = record { operations = (1, drafted) ∷ []; ids_by_key = (40, 1) ∷ [] }

abbrev answer : PreparedWithdrawalResult
answer = record {
  withdrawal_id = 1;
  action = serialize_action drafted.action;
  review = drafted.review;
  replayed = false;
}

prepared :
    prepare opts services gateway gateway 1_000_000 request key (λ s. s) empty_store
    ≡ (stored, ok answer)
unfolding prepare claim_key put_if_idempotency_absent get_by_idempotency_key put insert lookup draft
    check_reviewed preview_at_block limit_of limited recommended_of find_maximum search narrow
    snapshot_blocker available_cash fee_adjusted_cash cash_cap held_units policy_cap
    to_token_units_floor token_quantum align address_eq text_eq to_lower ◌-ℤ◌ parse_claim
    validate_idempotency_key parse_positive resolve_asset find_asset request_fingerprint big_int
prepared = refl

prepare_claims_once_example :
    AnswersAgain
      (codes "0xf")
      1
      (puts [] stored)
      (prepare opts services gateway gateway 2_000_000 request key (λ s. s) (puts [] stored))
prepare_claims_once_example =
    prepare_claims_once opts services services gateway gateway gateway gateway 1_000_000 2_000_000
      request request key key (λ s. s) (λ s. s) empty_store stored claim claim answer [] parsed
      prepared refl tt parsed refl
