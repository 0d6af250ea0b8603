-- ===== src/Withdrawal/Types.antt =====
-- services/rfq-engine/src/withdrawal-types.ts: an operation and its parts. Operation identifiers and
-- idempotency keys are only compared, so they are numbers.
use derive_docs.Base.{ℕ, Bool, List, Option}
use derive_docs.Base.Int.{ℤ}
use derive_docs.Base.Text.{Text}
use derive_docs.Rfq.Types.{Address, Hex, Action}

pub data WithdrawalStatus : Type 0 where
  prepared submitting submitted confirmed rejected reverted expired unknown : WithdrawalStatus

pub data AssetKind : Type 0 where
  cash market_collateral : AssetKind

pub record WithdrawalAssetMetadata : Type 0 where
  pub asset_id : Text
  pub kind : AssetKind
  pub market_id : Option Text
  pub symbol : Text
  pub asset_address : Address
  pub token_address : Address
  pub token_decimals : ℕ
  pub scaled_ui : Bool

-- A value of the details of an error; their numbers are integers.
pub data Detail : Type 0 where
  text_detail : Text → Detail
  number_detail : ℤ → Detail
  bool_detail : Bool → Detail
  null_detail : Detail

pub record WithdrawalErrorBody : Type 0 where
  pub code : Text
  pub message : Text
  pub retryable : Bool
  pub details : Option (List (Text × Detail))

pub record WithdrawalReview : Type 0 where
  pub recipient : Address
  pub asset_id : Text
  pub asset_address : Address
  pub token_address : Address
  pub token_units : Text
  pub display_amount : Text
  pub token_decimals : ℕ
  pub multiplier : Text
  pub prepared_block_number : Text
  pub prepared_block_hash : Hex

pub record WithdrawalOperation : Type 0 where
  pub id : ℕ
  pub idempotency_key : ℕ
  pub request_fingerprint : Hex
  pub status : WithdrawalStatus
  pub chain_id : ℕ
  pub matching : Address
  pub owner : Address
  pub subaccount_id : ℤ
  pub asset : WithdrawalAssetMetadata
  pub token_units : ℤ
  pub max_withdrawable_at_prepare : ℤ
  pub preview_block_hash : Hex
  pub prepared_at_block_number : ℤ
  pub prepared_at_block_hash : Hex
  pub action : Action
  pub action_digest : Hex
  pub review : WithdrawalReview
  pub created_at : ℕ
  pub expires_at : ℕ
  pub submitted_at : Option ℕ
  pub confirmed_at : Option ℕ
  pub tx_hash : Option Hex
  pub block_number : Option ℤ
  pub error : Option WithdrawalErrorBody
