-- ===== src/Withdrawal/Reconcile.antt =====
-- services/rfq-engine/src/withdrawal.ts: `reconcileSubmitted` and `reconcileUnknown`. Each returns the
-- engine and the operation, whose status is the source's result.
use derive_docs.Base.{ℕ, Bool, false, not, ◌&&◌, Option, none, some, if◌then◌else◌}
use derive_docs.Base.Int.{ℤ, pos, ltb_ℤ}
use derive_docs.Base.Text.{codes}
use derive_docs.Rfq.Types.{ReceiptStatus}
use derive_docs.Rfq.Submitter.{withdrawal_operation, broadcast_without_hash, same_hash}
use derive_docs.Withdrawal.Types.{WithdrawalStatus, WithdrawalErrorBody, WithdrawalOperation}
use derive_docs.Withdrawal.Gateway.{
  WithdrawalPinnedBlock, WithdrawalNonceUse, WithdrawalGateway, error_body,
}
use derive_docs.Withdrawal.State.{
  WithdrawalEngine, save, pause, pause_operation, release, release_transaction, adopt,
}

abbrev pub transaction_reverted : WithdrawalErrorBody
transaction_reverted =
    error_body (codes "TRANSACTION_REVERTED") (codes "withdrawal transaction reverted") false

-- What a receipt makes of the operation.
unfoldable pub settled_by : ℕ → ReceiptStatus → Option ℤ → WithdrawalOperation → WithdrawalOperation
settled_by now ReceiptStatus.success block_number o = record o {
  status = WithdrawalStatus.confirmed;
  block_number = block_number;
  confirmed_at = some now;
  error = none;
}
settled_by now ReceiptStatus.reverted block_number o = record o {
  status = WithdrawalStatus.reverted;
  block_number = block_number;
  confirmed_at = some now;
  error = some transaction_reverted;
}

-- `reconcileSubmitted`
unfoldable pub reconcile_submitted :
    WithdrawalGateway
    → ℕ
    → WithdrawalOperation
    → WithdrawalEngine
    → WithdrawalEngine × WithdrawalOperation
unfolding settled_by save release_transaction adopt
reconcile_submitted gateway now o e = elim o.tx_hash [
  | none ↦ (e, o)
  | some tx_hash ↦ elim (gateway.receipt tx_hash) [
    | none ↦ (adopt o.id tx_hash e, o)
    | some receipt ↦
        let o' = settled_by now receipt.status (some receipt.block_number) o in
        (release_transaction o.id tx_hash (save o' e), o')
  ]
]

-- `operation.status = "submitted"`, for the transaction that used the nonce.
unfoldable pub attributed : WithdrawalNonceUse → WithdrawalOperation → WithdrawalOperation
attributed use_ o = record o {
  status = WithdrawalStatus.submitted;
  tx_hash = some use_.tx_hash;
  block_number = some use_.block_number;
  error = none;
}

unfoldable pub expired_unexecuted : WithdrawalOperation → WithdrawalOperation
expired_unexecuted o = record o {
  status = WithdrawalStatus.expired;
  error = some (
      error_body (codes "ACTION_EXPIRED_UNEXECUTED")
        (codes "the action expired without its module nonce being used") false);
}

unfoldable pub outcome_unknown : Bool → WithdrawalOperation → WithdrawalOperation
outcome_unknown used o = record o {
  status = WithdrawalStatus.unknown;
  error = some (
      error_body (codes "BROADCAST_OUTCOME_UNKNOWN")
        (if used
          then codes "action nonce is used but its canonical NonceUsed event was not found"
          else codes "submit outcome is ambiguous and the action nonce is not yet visible on-chain")
        false);
}

-- `canonical?.hash.toLowerCase() === latestBlock.hash.toLowerCase()`
abbrev pub still_latest : Option WithdrawalPinnedBlock → WithdrawalPinnedBlock → Bool
still_latest none latest = false
still_latest (some canonical) latest = same_hash canonical.hash latest.hash

-- The action can no longer be executed: its nonce is unused in a canonical block past its expiry.
unfoldable pub unusable : WithdrawalGateway → WithdrawalOperation → Bool
unusable gateway o =
    not (gateway.is_nonce_used o.owner o.action.nonce)
    && ltb_ℤ o.action.expiry (pos gateway.latest_block.timestamp)
    && still_latest (gateway.block_by_number gateway.latest_block.number) gateway.latest_block

-- `use`
unfoldable pub action_use : WithdrawalGateway → WithdrawalOperation → Option WithdrawalNonceUse
action_use gateway o =
    if gateway.is_nonce_used o.owner o.action.nonce
    then gateway.find_action_use o.action o.prepared_at_block_number
    else none

-- The last lines of `reconcileUnknown`: a transaction without a receipt keeps the pause.
abbrev pub pause_if_submitted :
    WithdrawalStatus
    → WithdrawalEngine × WithdrawalOperation
    → WithdrawalEngine × WithdrawalOperation
pause_if_submitted WithdrawalStatus.submitted (e, o) = (pause o.id e, o)
pause_if_submitted _ r = r

abbrev pub pause_unsettled :
    WithdrawalEngine × WithdrawalOperation → WithdrawalEngine × WithdrawalOperation
pause_unsettled r = pause_if_submitted r.1.status r

-- `reconcileUnknown`
unfoldable pub reconcile_unknown :
    WithdrawalGateway
    → ℕ
    → WithdrawalOperation
    → WithdrawalEngine
    → WithdrawalEngine × WithdrawalOperation
unfolding action_use unusable attributed expired_unexecuted outcome_unknown save pause_operation
    release reconcile_submitted
reconcile_unknown gateway now o e = elim (action_use gateway o) [
  | some use_ ↦
      let o' = attributed use_ o in
      pause_unsettled
        (reconcile_submitted gateway now o' (release broadcast_without_hash (save o' e)))
  | none ↦
      if unusable gateway o
      then (
        release broadcast_without_hash
            (release (withdrawal_operation o.id) (save (expired_unexecuted o) e)),
        expired_unexecuted o,
      )
      else let o' = outcome_unknown (gateway.is_nonce_used o.owner o.action.nonce) o in
        (pause o.id (save o' e), o')
]
