-- ===== src/Withdrawal/Request.antt =====
-- services/rfq-engine/src/withdrawal.ts: the checks and parts of `prepare`. Hashes, encodings and random
-- identifiers are parameters.
use derive_docs.Base.{
  ℕ, Bool, true, false, not, ◌&&◌, ◌||◌, List, [], ◌∷◌, ◌++◌, if◌then◌else◌, ltb, leb, ◌==◌, ◌+◌,
  ◌*◌, ◌/◌, ◌^◌, Result, ok, ◌>>=◌, ◌>>◌, guard, or_throw, length,
}
use derive_docs.Base.Int.{ℤ, pos, pos_part}
use derive_docs.Base.Text.{Text, codes, text_eq, to_lower, is_digit}
use derive_docs.Base.Decimal.{to_string, big_int}
use derive_docs.Rfq.Types.{Address, Hex, Action}
use derive_docs.Rfq.Stored.Schema.{SerializedAction}
use derive_docs.Withdrawal.Types.{WithdrawalAssetMetadata, WithdrawalReview}
use derive_docs.Withdrawal.Amounts.{token_units_to_18_floor}
use derive_docs.Withdrawal.Gateway.{
  WithdrawalPinnedBlock, WithdrawalGateway, WithdrawalApiError, api_error,
}
use derive_docs.Withdrawal.Policy.{WithdrawalEngineOptions, one_18}
use derive_docs.Withdrawal.Preview.{WithdrawalPreview, preview_ttl_ms}

pub record PrepareWithdrawalRequest : Type 0 where
  pub owner : Address
  pub subaccount_id : Text
  pub asset_id : Text
  pub token_units : Text
  pub preview_block_hash : Hex

-- What the handler takes from elsewhere: `keccak_json` hashes the JSON of an object of texts, `key_of`
-- numbers the texts that only serve as keys, `id` and `nonce` are drawn at random.
pub record WithdrawalServices : Type 0 where
  pub keccak_json : List (Text × Text) → Hex
  pub key_of : Text → ℕ
  pub id : ℕ
  pub nonce : ℤ
  pub encode_withdraw_data : Address → ℕ → Hex
  pub action_digest : Action → ℕ → Address → Hex
  pub format_units : ℕ → ℕ → Text

pub record PreparedWithdrawalResult : Type 0 where
  pub withdrawal_id : ℕ
  pub action : SerializedAction
  pub review : WithdrawalReview
  pub replayed : Bool

abbrev pub invalid_request : Text → WithdrawalApiError
invalid_request message = api_error 400 (codes "INVALID_REQUEST") message false

abbrev all_digits : Text → Bool
all_digits [] = true
all_digits (c ∷ s) = is_digit c && all_digits s

-- `/^(0|[1-9]\d*)$/`
abbrev pub is_unsigned : Text → Bool
is_unsigned [] = false
is_unsigned (c ∷ s) = if c == b'0' then length s == 0 else is_digit c && all_digits s

-- `parseUnsigned`, with `allowZero` false
unfoldable pub parse_positive : Text → Text → Result WithdrawalApiError ℕ
unfolding big_int
parse_positive value label = do
  guard (is_unsigned value) (invalid_request (label ++ codes " must be a decimal integer string"))
  parsed ← or_throw (big_int value) (invalid_request label)
  guard (ltb (pos_part parsed) (2 ^ 256)) (invalid_request (label ++ codes " exceeds uint256"))
  guard (not (pos_part parsed == 0)) (invalid_request (label ++ codes " must be greater than zero"))
  ok (pos_part parsed)

abbrev is_key_code : ℕ → Bool
is_key_code c =
    (leb b'A' c && leb c b'Z')
    || (leb b'a' c && leb c b'z')
    || is_digit c
    || c == b'.'
    || c == b'_'
    || c == b':'
    || c == b'-'

abbrev all_key_codes : Text → Bool
all_key_codes [] = true
all_key_codes (c ∷ s) = is_key_code c && all_key_codes s

-- `validateIdempotencyKey`
unfoldable pub validate_idempotency_key : Text → Result WithdrawalApiError (Unit {0})
validate_idempotency_key key =
    guard (all_key_codes key && leb 8 (length key) && leb (length key) 128) (
      api_error 400 (codes "INVALID_IDEMPOTENCY_KEY")
        (codes "Idempotency-Key must be 8-128 URL-safe characters") false)

-- `requestFingerprint`
unfoldable pub request_fingerprint : WithdrawalServices → PrepareWithdrawalRequest → Hex
request_fingerprint services request = services.keccak_json (
    (codes "owner", to_lower request.owner)
    ∷ (codes "subaccountId", request.subaccount_id)
    ∷ (codes "assetId", request.asset_id)
    ∷ (codes "tokenUnits", request.token_units)
    ∷ (codes "previewBlockHash", to_lower request.preview_block_hash)
    ∷ [])

abbrev pub preview_expired : Text → WithdrawalApiError
preview_expired message = api_error 409 (codes "PREVIEW_EXPIRED") message true

abbrev pub fresh_enough : ℕ → WithdrawalPinnedBlock → Bool
fresh_enough now block = leb now (block.timestamp * 1_000 + preview_ttl_ms)

-- The reviewed block is recent and still canonical.
unfoldable pub check_reviewed : WithdrawalGateway → ℕ → Hex → Result WithdrawalApiError (Unit {0})
check_reviewed gateway now hash = do
  let missing =
      preview_expired
        (codes "the referenced preview block is missing or older than 30 seconds; preview again")
  let replaced =
      preview_expired (codes "the referenced preview block is no longer canonical; preview again")
  referenced ← or_throw (gateway.block_by_hash hash) missing
  guard (fresh_enough now referenced) missing
  canonical ← or_throw (gateway.block_by_number referenced.number) replaced
  guard (text_eq canonical.hash hash) replaced

-- `buildWithdrawalAction`: the owner signs.
unfoldable pub build_withdrawal_action :
    WithdrawalEngineOptions → WithdrawalServices → ℕ → Address → ℕ → Address → ℕ → Action
build_withdrawal_action opts services subaccount_id asset token_units owner expiry = record {
  subaccount_id = pos subaccount_id;
  nonce = services.nonce;
  target = opts.withdrawal_module;
  call_data = services.encode_withdraw_data asset token_units;
  expiry = pos expiry;
  owner = owner;
  signer = owner;
}

-- `makeReview`
unfoldable pub make_review :
    WithdrawalServices
    → Address
    → WithdrawalAssetMetadata
    → ℕ
    → WithdrawalPreview
    → WithdrawalReview
unfolding token_units_to_18_floor
make_review services owner asset token_units preview = record {
  recipient = owner;
  asset_id = asset.asset_id;
  asset_address = asset.asset_address;
  token_address = asset.token_address;
  token_units = to_string (pos token_units);
  display_amount =
      services.format_units
        (token_units_to_18_floor token_units asset.token_decimals * preview.multiplier / one_18) 18;
  token_decimals = asset.token_decimals;
  multiplier = to_string (pos preview.multiplier);
  prepared_block_number = to_string preview.block_number;
  prepared_block_hash = preview.block_hash;
}
