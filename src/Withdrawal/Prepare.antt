-- ===== src/Withdrawal/Prepare.antt =====
-- services/rfq-engine/src/withdrawal.ts: `prepare`. The clock is read once. The chain may change while
-- the handler runs: `reviewed` answers for the block that the user reviewed, `gateway` from there on.
use derive_docs.Base.{
  ℕ, Bool, true, false, not, [], ◌∷◌, ◌++◌, none, some, ltb, ◌==◌, ◌+◌, ◌*◌, ◌/◌, ◌%◌, Result, ok,
  err, ◌>>=◌, ◌>>◌, guard,
}
use derive_docs.Base.Int.{pos}
use derive_docs.Base.Text.{Text, codes, text_eq, to_lower}
use derive_docs.Base.Decimal.{to_string}
use derive_docs.Rfq.Types.{Hex}
use derive_docs.Rfq.Stored.Quotes.{serialize_action}
use derive_docs.Withdrawal.Types.{WithdrawalStatus, WithdrawalOperation, text_detail}
use derive_docs.Withdrawal.Store.{OperationStore, get_by_idempotency_key, put_if_idempotency_absent}
use derive_docs.Withdrawal.Amounts.{token_quantum}
use derive_docs.Withdrawal.Gateway.{
  WithdrawalAssetDefinition, WithdrawalGateway, WithdrawalApiError, api_error, blocked, throw_if,
}
use derive_docs.Withdrawal.Policy.{WithdrawalEngineOptions, resolve_asset}
use derive_docs.Withdrawal.Preview.{WithdrawalPreview, preview_at_block}
use derive_docs.Withdrawal.Request.{
  PrepareWithdrawalRequest, WithdrawalServices, PreparedWithdrawalResult, parse_positive,
  validate_idempotency_key, request_fingerprint, check_reviewed, build_withdrawal_action,
  make_review,
}

-- The parsed request.
pub record Claim : Type 0 where
  pub request : PrepareWithdrawalRequest
  pub subaccount_id : ℕ
  pub token_units : ℕ
  pub asset : WithdrawalAssetDefinition
  pub fingerprint : Hex
  pub scoped_key : ℕ

abbrev pub action_ttl_seconds : ℕ
action_ttl_seconds = 600

abbrev pub token_units_unaligned : ℕ → WithdrawalApiError
token_units_unaligned quantum =
    api_error 400 (codes "TOKEN_UNITS_UNALIGNED")
      (codes "tokenUnits must be a multiple of "
        ++ to_string (pos quantum)
        ++ codes " to avoid rounded internal debits")
      false

abbrev pub amount_exceeds_max : ℕ → WithdrawalApiError
amount_exceeds_max protocol_max = record {
  http_status = 409;
  body = record {
    code = codes "AMOUNT_EXCEEDS_MAX";
    message = codes "requested tokenUnits exceed the freshly simulated protocol maximum";
    retryable = false;
    details =
        some ((codes "protocolMaxTokenUnits", text_detail (to_string (pos protocol_max))) ∷ []);
  };
}

abbrev pub idempotency_conflict : WithdrawalApiError
idempotency_conflict =
    api_error 409 (codes "IDEMPOTENCY_CONFLICT")
      (codes "this owner and Idempotency-Key were already used with a different request") false

-- `const operation: WithdrawalOperation = { … }`
unfoldable pub operation_of :
    WithdrawalEngineOptions
    → WithdrawalServices
    → ℕ
    → Claim
    → WithdrawalPreview
    → WithdrawalOperation
unfolding build_withdrawal_action make_review
operation_of opts services now claim preview =
    let expiry = now / 1_000 + action_ttl_seconds in
    let action =
      build_withdrawal_action opts services claim.subaccount_id claim.asset.asset_address
        claim.token_units claim.request.owner expiry in
    record {
      id = services.id;
      idempotency_key = claim.scoped_key;
      request_fingerprint = claim.fingerprint;
      status = WithdrawalStatus.prepared;
      chain_id = opts.chain_id;
      matching = opts.matching;
      owner = claim.request.owner;
      subaccount_id = pos claim.subaccount_id;
      asset = preview.asset;
      token_units = pos claim.token_units;
      max_withdrawable_at_prepare = pos preview.protocol_max_token_units;
      preview_block_hash = claim.request.preview_block_hash;
      prepared_at_block_number = preview.block_number;
      prepared_at_block_hash = preview.block_hash;
      action = action;
      action_digest = services.action_digest action opts.chain_id opts.matching;
      review = make_review services claim.request.owner preview.asset claim.token_units preview;
      created_at = now;
      expires_at = expiry * 1_000;
      submitted_at = none;
      confirmed_at = none;
      tx_hash = none;
      block_number = none;
      error = none;
    }

-- The handler up to the claim of the key: the operation that it would store.
unfoldable pub draft :
    WithdrawalEngineOptions
    → WithdrawalServices
    → WithdrawalGateway
    → WithdrawalGateway
    → ℕ
    → Claim
    → Result WithdrawalApiError WithdrawalOperation
unfolding check_reviewed preview_at_block token_quantum operation_of
draft opts services reviewed gateway now claim = do
  check_reviewed reviewed now claim.request.preview_block_hash
  preview ←
      preview_at_block opts gateway now claim.request.owner (pos claim.subaccount_id) claim.asset
        gateway.latest_block
  throw_if preview.blocker (blocked (codes "WITHDRAWAL_BLOCKED"))
  let quantum = token_quantum preview.asset.token_decimals
  guard (claim.token_units % quantum == 0) (token_units_unaligned quantum)
  guard (not (ltb preview.protocol_max_token_units claim.token_units))
      (amount_exceeds_max preview.protocol_max_token_units)
  ok (operation_of opts services now claim preview)

-- The handler's parse of the request and its key.
unfoldable pub parse_claim :
    WithdrawalEngineOptions
    → WithdrawalServices
    → PrepareWithdrawalRequest
    → Text
    → Result WithdrawalApiError Claim
unfolding validate_idempotency_key parse_positive resolve_asset request_fingerprint
parse_claim opts services request key = do
  validate_idempotency_key key
  subaccount_id ← parse_positive request.subaccount_id (codes "subaccountId")
  token_units ← parse_positive request.token_units (codes "tokenUnits")
  asset ← resolve_asset opts request.asset_id
  ok (record {
    request = request;
    subaccount_id = subaccount_id;
    token_units = token_units;
    asset = asset;
    fingerprint = request_fingerprint services request;
    scoped_key = services.key_of (to_lower request.owner ++ codes ":" ++ key);
  })

abbrev pub prepared_response : Bool → WithdrawalOperation → PreparedWithdrawalResult
prepared_response replayed operation = record {
  withdrawal_id = operation.id;
  action = serialize_action operation.action;
  review = operation.review;
  replayed = replayed;
}

-- The answer of an operation that holds the key.
unfoldable pub replay :
    Hex → WithdrawalOperation → Result WithdrawalApiError PreparedWithdrawalResult
replay fingerprint existing = do
  guard (text_eq existing.request_fingerprint fingerprint) idempotency_conflict
  ok (prepared_response true existing)

-- `putIfIdempotencyAbsent`, and the answer
unfoldable pub claim_key :
    Hex
    → OperationStore
    → WithdrawalOperation
    → OperationStore × Result WithdrawalApiError PreparedWithdrawalResult
unfolding put_if_idempotency_absent replay
claim_key fingerprint s operation =
    let (s', (inserted, holder)) = put_if_idempotency_absent operation s in
    elim inserted [
      | true ↦ (s', ok (prepared_response false operation))
      | false ↦ (s', replay fingerprint holder)
    ]

-- `prepare`: other handlers may update the store while this one reads the chain.
unfoldable pub prepare :
    WithdrawalEngineOptions
    → WithdrawalServices
    → WithdrawalGateway
    → WithdrawalGateway
    → ℕ
    → PrepareWithdrawalRequest
    → Text
    → (OperationStore → OperationStore)
    → OperationStore
    → OperationStore × Result WithdrawalApiError PreparedWithdrawalResult
unfolding parse_claim get_by_idempotency_key draft claim_key replay
prepare opts services reviewed gateway now request key meanwhile s =
    elim (parse_claim opts services request key) [
      | err e ↦ (s, err e)
      | ok claim ↦ elim (get_by_idempotency_key claim.scoped_key s) [
        | some existing ↦ (s, replay claim.fingerprint existing)
        | none ↦ elim (draft opts services reviewed gateway now claim) [
          | err e ↦ (meanwhile s, err e)
          | ok operation ↦ claim_key claim.fingerprint (meanwhile s) operation
        ]
      ]
    ]
