-- ===== src/Withdrawal/Gateway.antt =====
-- services/rfq-engine/src/withdrawal-gateway.ts and withdrawal-types.ts: what the withdrawal engine
-- reads of the chain. The answers of the node are parameters: a `WithdrawalGateway` is what the node
-- answers while one handler runs.
use derive_docs.Base.{◌≡◌, refl, ◌>>◌, ℕ, Bool, false, [], ◌∷◌, Option, none, some, Result, ok, err}
use derive_docs.Base.Int.{ℤ}
use derive_docs.Base.Text.{Text, codes}
use derive_docs.Rfq.Types.{Address, Hex, Action, ReceiptStatus}
use derive_docs.Withdrawal.Types.{AssetKind, WithdrawalErrorBody, text_detail}

pub record WithdrawalBlocker : Type 0 where
  pub code : Text
  pub message : Text

pub record WithdrawalPinnedBlock : Type 0 where
  pub number : ℤ
  pub hash : Hex
  pub timestamp : ℕ

pub record WithdrawalSnapshot : Type 0 where
  pub matching_owner : Address
  pub account_holder : Address
  pub manager : Address
  pub withdraw_timestamp : ℕ
  pub internal_balance : ℤ
  pub cash_with_interest : ℤ
  pub cash_token_decimals : ℕ
  pub cash_exchange_rate : ℕ
  pub cash_withdraw_fee_enabled : Bool
  pub initial_margin : ℤ
  pub initial_mark_to_market : ℤ
  pub maintenance_margin : ℤ
  pub maintenance_mark_to_market : ℤ
  pub token_address : Address
  pub token_symbol : Text
  pub token_decimals : ℕ
  pub token_liquidity : ℕ
  pub multiplier : ℕ

pub record WithdrawalAssetDefinition : Type 0 where
  pub asset_id : Text
  pub kind : AssetKind
  pub market_id : Option Text
  pub symbol : Text
  pub asset_address : Address
  pub configured_token_address : Option Address
  pub configured_token_decimals : Option ℕ
  pub scaled_ui : Bool

pub record WithdrawalReceipt : Type 0 where
  pub status : ReceiptStatus
  pub block_number : ℤ

pub record WithdrawalNonceUse : Type 0 where
  pub tx_hash : Hex
  pub block_number : ℤ

-- `simulate_asset_withdrawal` returns the blocker, or `none` for `ok: true`; its arguments are the
-- asset, the subaccount, the recipient, the account's holder, the block's number and the units.
pub record WithdrawalGateway : Type 0 where
  pub latest_block : WithdrawalPinnedBlock
  pub block_by_hash : Hex → Option WithdrawalPinnedBlock
  pub block_by_number : ℤ → Option WithdrawalPinnedBlock
  pub snapshot : ℤ → WithdrawalAssetDefinition → ℤ → WithdrawalSnapshot
  pub simulate_asset_withdrawal :
      WithdrawalAssetDefinition → ℤ → Address → Address → ℤ → ℤ → Option WithdrawalBlocker
  pub is_nonce_used : Address → ℤ → Bool
  pub verify_signature : Action → Hex → ℕ → Address → Bool
  pub find_action_use : Action → ℤ → Option WithdrawalNonceUse
  pub receipt : Hex → Option WithdrawalReceipt

-- `WithdrawalApiError`
pub record WithdrawalApiError : Type 0 where
  pub http_status : ℕ
  pub body : WithdrawalErrorBody

-- `errorBody`
abbrev pub error_body : Text → Text → Bool → WithdrawalErrorBody
error_body code message retryable = record {
  code = code;
  message = message;
  retryable = retryable;
  details = none;
}

abbrev pub api_error : ℕ → Text → Text → Bool → WithdrawalApiError
api_error http_status code message retryable = record {
  http_status = http_status;
  body = error_body code message retryable;
}

-- `new WithdrawalApiError(409, code, blocker.message, false, { blockerCode: blocker.code })`
abbrev pub blocked : Text → WithdrawalBlocker → WithdrawalApiError
blocked code blocker = record {
  http_status = 409;
  body = record {
    code = code;
    message = blocker.message;
    retryable = false;
    details = some ((codes "blockerCode", text_detail blocker.code) ∷ []);
  };
}

-- `if (blocker) throw e`
abbrev pub throw_if :
    Option WithdrawalBlocker
    → (WithdrawalBlocker → WithdrawalApiError)
    → Result WithdrawalApiError (Unit {0})
throw_if none e = ok tt
throw_if (some blocker) e = err (e blocker)

pub throw_if-ok :
    {A : Type 0} (o : Option WithdrawalBlocker) (e : WithdrawalBlocker → WithdrawalApiError)
    (k : Result WithdrawalApiError A) {a : A}
    → (throw_if o e >> k) ≡ ok a
    → (o ≡ none) × (k ≡ ok a)
throw_if-ok none e k h = (refl, h)
throw_if-ok (some b) e k h = cc
