-- ===== src/Withdrawal/State.antt =====
-- services/rfq-engine/src/withdrawal.ts: the state of `WithdrawalEngine`. The in-memory store hands out
-- the stored objects themselves, so a handler that resumes after an await reads the operation as it
-- then stands.
use derive_docs.Base.{ℕ, Bool, List, [], Option, none, ◌==◌, not, filter}
use derive_docs.Rfq.Types.{Hex}
use derive_docs.Rfq.Submitter.{
  OperationId, withdrawal_operation, Latches, pause_for_unknown_operation, clear_unknown_operation,
  clear_unresolved_transaction, adopt_unresolved_transaction,
}
use derive_docs.Withdrawal.Types.{WithdrawalStatus, WithdrawalOperation}
use derive_docs.Withdrawal.Store.{OperationStore, empty_store, put}

-- `submit_claims` are the operations with a `submit` that has not returned, `awaiting` those whose `submit`
-- waits for the chain, with their signatures. `scheduled` are the background tasks that `submit` has queued, with their signatures, `in_flight` the
-- operation whose receipt the executor's queue waits for, and `broadcasts` the operations that were
-- sent, the latest first.
pub record WithdrawalEngine : Type 0 where
  pub store : OperationStore
  pub latches : Latches
  pub submit_claims : List ℕ
  pub awaiting : List (ℕ × Hex)
  pub scheduled : List (ℕ × Hex)
  pub in_flight : Option (ℕ × Hex)
  pub active_submissions : List ℕ
  pub broadcasts : List ℕ

abbrev pub no_latches : Latches
no_latches = record { unknown_operations = []; unresolved_tx = none }

abbrev pub fresh_engine : WithdrawalEngine
fresh_engine = record {
  store = empty_store;
  latches = no_latches;
  submit_claims = [];
  awaiting = [];
  scheduled = [];
  in_flight = none;
  active_submissions = [];
  broadcasts = [];
}

abbrev status_code : WithdrawalStatus → ℕ
status_code = elim [
  | WithdrawalStatus.prepared ↦ 0
  | WithdrawalStatus.submitting ↦ 1
  | WithdrawalStatus.submitted ↦ 2
  | WithdrawalStatus.confirmed ↦ 3
  | WithdrawalStatus.rejected ↦ 4
  | WithdrawalStatus.reverted ↦ 5
  | WithdrawalStatus.expired ↦ 6
  | WithdrawalStatus.unknown ↦ 7
]

-- `operation.status === "…"`
abbrev pub status_is : WithdrawalStatus → WithdrawalStatus → Bool
status_is a b = status_code a == status_code b

-- `this.opts.store.put(operation)`
unfoldable pub save : WithdrawalOperation → WithdrawalEngine → WithdrawalEngine
unfolding put
save o e = record e { store = put o e.store }

-- `pauseForUnknownOperation(…)`
unfoldable pub pause_operation : OperationId → WithdrawalEngine → WithdrawalEngine
unfolding pause_for_unknown_operation
pause_operation o e = record e { latches = pause_for_unknown_operation o e.latches }

abbrev pub pause : ℕ → WithdrawalEngine → WithdrawalEngine
pause id e = pause_operation (withdrawal_operation id) e

-- `clearUnknownOperation(…)`
unfoldable pub release : OperationId → WithdrawalEngine → WithdrawalEngine
unfolding clear_unknown_operation
release o e = record e { latches = clear_unknown_operation o e.latches }

-- `clearUnresolvedTransaction(txHash)` and `clearUnknownOperation(operation.id)`
unfoldable pub release_transaction : ℕ → Hex → WithdrawalEngine → WithdrawalEngine
unfolding clear_unresolved_transaction clear_unknown_operation
release_transaction id tx_hash e = record e {
  latches =
      clear_unknown_operation (withdrawal_operation id)
        (clear_unresolved_transaction tx_hash e.latches);
}

-- `adoptUnresolvedTransaction(txHash)` and `pauseForUnknownOperation(operation.id)`
unfoldable pub adopt : ℕ → Hex → WithdrawalEngine → WithdrawalEngine
unfolding adopt_unresolved_transaction pause_for_unknown_operation
adopt id tx_hash e = record e {
  latches =
      pause_for_unknown_operation (withdrawal_operation id)
        (adopt_unresolved_transaction tx_hash e.latches);
}

-- `activeSubmissions.delete(id)`
abbrev pub end_submission : ℕ → WithdrawalEngine → WithdrawalEngine
end_submission id e = record e {
  active_submissions = filter (λ x. not (x == id)) e.active_submissions;
}
