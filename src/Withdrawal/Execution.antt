-- ===== src/Withdrawal/Execution.antt =====
-- services/rfq-engine/src/withdrawal.ts: `executeSubmission`, the background task of `submit`. It runs
-- in the executor's queue of services/rfq-engine/src/chain.ts, which sends nothing while a latch is set
-- and starts the next task when a receipt has been waited for.
use derive_docs.Base.{ℕ, Bool, true, false, [], ◌∷◌, Option, none, some, if◌then◌else◌, ok, err}
use derive_docs.Base.Int.{ℤ}
use derive_docs.Rfq.Types.{Hex, ReceiptStatus}
use derive_docs.Rfq.Submitter.{Latches, withdrawal_operation, broadcast_without_hash}
use derive_docs.Withdrawal.Types.{WithdrawalStatus, WithdrawalOperation}
use derive_docs.Withdrawal.Store.{get}
use derive_docs.Withdrawal.Gateway.{WithdrawalGateway}
use derive_docs.Withdrawal.Policy.{WithdrawalEngineOptions, assert_final_policy}
use derive_docs.Withdrawal.State.{
  WithdrawalEngine, save, release, release_transaction, end_submission, pause_operation,
}
use derive_docs.Withdrawal.Reconcile.{settled_by}
use derive_docs.Withdrawal.Submission.{
  policy_refused, simulation_rejected, broadcast_ambiguous, other_error, execution_failed,
  take_task,
}

-- How the signed simulation and the broadcast end at the node.
pub data BroadcastOutcome : Type 0 where
  simulation_failed broadcast_failed : BroadcastOutcome
  broadcast_sent : Hex → BroadcastOutcome

-- How the wait for the receipt ends: with the receipt of a canonical block or not.
pub data ReceiptOutcome : Type 0 where
  receipt_found : ReceiptStatus → ℤ → ReceiptOutcome
  receipt_failed : ReceiptOutcome

-- The guard of `serializeWrite`.
unfoldable pub may_write : Latches → Bool
may_write l = elim l.unresolved_tx [
  | some tx_hash ↦ false
  | none ↦ elim l.unknown_operations [ [] ↦ true | o ∷ os ↦ false ]
]

-- `onSubmitted`: the hash is stored before the receipt is waited for.
unfoldable pub sent : Hex → WithdrawalOperation → WithdrawalOperation
sent tx_hash o = record o { status = WithdrawalStatus.submitted; tx_hash = some tx_hash }

-- The write itself.
unfoldable pub broadcast :
    BroadcastOutcome → WithdrawalOperation → WithdrawalEngine → WithdrawalEngine
unfolding execution_failed sent save pause_operation
broadcast simulation_failed o e = end_submission o.id (execution_failed simulation_rejected o e)
broadcast broadcast_failed o e = end_submission o.id (
    execution_failed broadcast_ambiguous o
      (pause_operation broadcast_without_hash (record e { broadcasts = o.id ∷ e.broadcasts })))
broadcast (broadcast_sent tx_hash) o e =
    save (sent tx_hash o)
      (record e { in_flight = some (o.id, tx_hash); broadcasts = o.id ∷ e.broadcasts })

-- `executeSubmission` up to the wait for the receipt, at the chain's answers to the final policy check.
unfoldable pub execute :
    WithdrawalEngineOptions
    → WithdrawalGateway
    → BroadcastOutcome
    → WithdrawalOperation
    → WithdrawalEngine
    → WithdrawalEngine
unfolding may_write execution_failed assert_final_policy broadcast
execute opts gateway outcome o e =
    if may_write e.latches
    then elim (assert_final_policy opts gateway o) [
      | err error ↦ end_submission o.id (execution_failed (policy_refused error) o e)
      | ok _ ↦ broadcast outcome o e
    ]
    else end_submission o.id (execution_failed other_error o e)

-- A queued task starts when the executor's queue is free.
unfoldable pub start_task :
    WithdrawalEngineOptions
    → WithdrawalGateway
    → BroadcastOutcome
    → ℕ
    → WithdrawalEngine
    → WithdrawalEngine
unfolding take_task get execute
start_task opts gateway outcome id e = elim e.in_flight [
  | some waiting ↦ e
  | none ↦ elim (take_task id e.scheduled) [
    | none ↦ e
    | some (signature, tasks) ↦
        let e' = record e { scheduled = tasks } in
        elim (get id e.store) [
          | none ↦ end_submission id e'
          | some o ↦ execute opts gateway outcome o e'
        ]
  ]
]

-- `if (operation.txHash) clearUnresolvedTransaction(…)`, then `clearUnknownOperation(operation.id)`
unfoldable pub release_settled : Option Hex → ℕ → WithdrawalEngine → WithdrawalEngine
unfolding release release_transaction
release_settled (some tx_hash) id e = release_transaction id tx_hash e
release_settled none id e = release (withdrawal_operation id) e

-- The end of the wait: the result is stored and the latches are released, or the catch clause runs
-- behind the executor's own latch.
unfoldable pub finish :
    ℕ → ReceiptOutcome → Hex → WithdrawalOperation → WithdrawalEngine → WithdrawalEngine
unfolding settled_by save release_settled execution_failed
finish now (receipt_found status block_number) tx_hash o e =
    end_submission o.id
      (release_settled o.tx_hash o.id (save (settled_by now status (some block_number) o) e))
finish now receipt_failed tx_hash o e = end_submission o.id (
    execution_failed other_error o
      (record e { latches = record e.latches { unresolved_tx = some tx_hash } }))

unfoldable pub finish_task : ℕ → ReceiptOutcome → WithdrawalEngine → WithdrawalEngine
unfolding get finish
finish_task now outcome e = elim e.in_flight [
  | none ↦ e
  | some (id, tx_hash) ↦
      let e' = record e { in_flight = none } in
      elim (get id e.store) [
        | none ↦ end_submission id e'
        | some o ↦ finish now outcome tx_hash o e'
      ]
]
