-- ===== src/Withdrawal/Store.antt =====
-- services/rfq-engine/src/withdrawal-store.ts: `InMemoryWithdrawalOperationStore` and the stored form
-- of an operation.
use mathlib.Core.Option
use derive_docs.Base.{ℕ, ◌≡◌, Bool, true, false, List, [], Option, none, some}
use derive_docs.Base.Map.{Map, lookup, insert, values}
use derive_docs.Base.Text.{Text}
use derive_docs.Base.Decimal.{big_int, to_string, big_int-to_string}
use derive_docs.Rfq.Types.{Address, Hex}
use derive_docs.Rfq.Stored.Schema.{SerializedAction}
use derive_docs.Rfq.Stored.Parsing.{◌>>=◌, traverse, traverse-map}
use derive_docs.Rfq.Stored.Quotes.{serialize_action, parse_action}
use derive_docs.Rfq.Stored.RoundTrip.{IsWellFormed, action-round_trip}
use derive_docs.Withdrawal.Types.{
  WithdrawalStatus, WithdrawalAssetMetadata, WithdrawalErrorBody, WithdrawalReview,
  WithdrawalOperation,
}

pub record OperationStore : Type 0 where
  pub operations : Map WithdrawalOperation
  pub ids_by_key : Map ℕ

abbrev pub empty_store : OperationStore
empty_store = record { operations = []; ids_by_key = [] }

unfoldable pub put : WithdrawalOperation → OperationStore → OperationStore
put operation s = record {
  operations = insert operation.id operation s.operations;
  ids_by_key = insert operation.idempotency_key operation.id s.ids_by_key;
}

unfoldable pub get : ℕ → OperationStore → Option WithdrawalOperation
get id s = lookup id s.operations

unfoldable pub get_by_idempotency_key : ℕ → OperationStore → Option WithdrawalOperation
get_by_idempotency_key key s = elim (lookup key s.ids_by_key) [
  | none ↦ none
  | some id ↦ lookup id s.operations
]

unfoldable pub list : OperationStore → List WithdrawalOperation
list s = values s.operations

-- `putIfIdempotencyAbsent`, which its gate runs as one step: the store, whether the operation was
-- inserted, and the operation that holds the key.
unfoldable pub put_if_idempotency_absent :
    WithdrawalOperation → OperationStore → OperationStore × (Bool × WithdrawalOperation)
unfolding get_by_idempotency_key put
put_if_idempotency_absent operation s = elim (get_by_idempotency_key operation.idempotency_key s) [
  | none ↦ (put operation s, (true, operation))
  | some existing ↦ (s, (false, existing))
]

pub record StoredWithdrawalOperation : Type 0 where
  pub id : ℕ
  pub idempotency_key : ℕ
  pub request_fingerprint : Hex
  pub status : WithdrawalStatus
  pub chain_id : ℕ
  pub matching : Address
  pub owner : Address
  pub subaccount_id : Text
  pub asset : WithdrawalAssetMetadata
  pub token_units : Text
  pub max_withdrawable_at_prepare : Text
  pub preview_block_hash : Hex
  pub prepared_at_block_number : Text
  pub prepared_at_block_hash : Hex
  pub action : SerializedAction
  pub action_digest : Hex
  pub review : WithdrawalReview
  pub created_at : ℕ
  pub expires_at : ℕ
  pub submitted_at : Option ℕ
  pub confirmed_at : Option ℕ
  pub tx_hash : Option Hex
  pub block_number : Option Text
  pub error : Option WithdrawalErrorBody

unfoldable pub to_stored : WithdrawalOperation → StoredWithdrawalOperation
to_stored o = record {
  id = o.id;
  idempotency_key = o.idempotency_key;
  request_fingerprint = o.request_fingerprint;
  status = o.status;
  chain_id = o.chain_id;
  matching = o.matching;
  owner = o.owner;
  subaccount_id = to_string o.subaccount_id;
  asset = o.asset;
  token_units = to_string o.token_units;
  max_withdrawable_at_prepare = to_string o.max_withdrawable_at_prepare;
  preview_block_hash = o.preview_block_hash;
  prepared_at_block_number = to_string o.prepared_at_block_number;
  prepared_at_block_hash = o.prepared_at_block_hash;
  action = serialize_action o.action;
  action_digest = o.action_digest;
  review = o.review;
  created_at = o.created_at;
  expires_at = o.expires_at;
  submitted_at = o.submitted_at;
  confirmed_at = o.confirmed_at;
  tx_hash = o.tx_hash;
  block_number = Option.map to_string o.block_number;
  error = o.error;
}

unfoldable pub from_stored : StoredWithdrawalOperation → Option WithdrawalOperation
from_stored o = do
  subaccount_id ← big_int o.subaccount_id
  token_units ← big_int o.token_units
  max_withdrawable_at_prepare ← big_int o.max_withdrawable_at_prepare
  prepared_at_block_number ← big_int o.prepared_at_block_number
  action ← parse_action o.action
  block_number ← traverse big_int o.block_number
  some (record {
    id = o.id;
    idempotency_key = o.idempotency_key;
    request_fingerprint = o.request_fingerprint;
    status = o.status;
    chain_id = o.chain_id;
    matching = o.matching;
    owner = o.owner;
    subaccount_id = subaccount_id;
    asset = o.asset;
    token_units = token_units;
    max_withdrawable_at_prepare = max_withdrawable_at_prepare;
    preview_block_hash = o.preview_block_hash;
    prepared_at_block_number = prepared_at_block_number;
    prepared_at_block_hash = o.prepared_at_block_hash;
    action = action;
    action_digest = o.action_digest;
    review = o.review;
    created_at = o.created_at;
    expires_at = o.expires_at;
    submitted_at = o.submitted_at;
    confirmed_at = o.confirmed_at;
    tx_hash = o.tx_hash;
    block_number = block_number;
    error = o.error;
  })

-- An operation is read back as it was stored, if its action is well formed.
pub operation-round_trip :
    (o : WithdrawalOperation) → IsWellFormed o.action → from_stored (to_stored o) ≡ some o
unfolding from_stored to_stored
operation-round_trip o h = simp (
  big_int-to_string,
  action-round_trip o.action h,
  traverse-map big_int to_string o.block_number big_int-to_string,
)
