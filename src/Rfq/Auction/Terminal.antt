-- ===== src/Rfq/Auction/Terminal.antt =====
-- services/rfq-engine/src/auction.ts: the terminal states of an execution, `terminalizeMined` and
-- `terminalizeExpiredUnused`.
use derive_docs.Base.{ℕ, Bool, true, not, Option, none, some, if◌then◌else◌, is_some}
use derive_docs.Rfq.Types.{
  Hex, RfqStatus, Reason, ReceiptStatus, ExecutionResult, RfqExecutionIntent, Rfq,
}
use derive_docs.Rfq.Submitter.{SubmitResult, same_hash}
use derive_docs.Rfq.Executor.{arm_execution_recovery, clear_execution_recovery}
use derive_docs.Rfq.Auction.State.{Engine, rfq_executed, rfq_failed, release_reservation, emit}
use derive_docs.Rfq.Auction.Lifecycle.{save_rfq}

-- `intent` with the transaction that was broadcast for it.
abbrev pub with_hash : Option Hex → RfqExecutionIntent → RfqExecutionIntent
with_hash none intent = intent
with_hash (some h) intent = record intent { tx_hash = some h }

abbrev pub executing_rfq : Rfq → RfqExecutionIntent → Rfq
executing_rfq rfq intent = record rfq {
  status = RfqStatus.executing;
  execution_intent = some intent;
  error = none;
}

abbrev pub terminal_status : ReceiptStatus → RfqStatus
terminal_status ReceiptStatus.success = RfqStatus.executed
terminal_status ReceiptStatus.reverted = RfqStatus.failed

abbrev pub terminal_error : ReceiptStatus → Option Reason
terminal_error ReceiptStatus.success = none
terminal_error ReceiptStatus.reverted = some Reason.reverted_on_chain

abbrev pub execution_result : SubmitResult → RfqExecutionIntent → ExecutionResult
execution_result result intent = record {
  tx_hash = result.tx_hash;
  status = result.status;
  block_number = result.block_number;
  fill = intent.fill;
}

-- The RFQ whose transaction was mined.
unfoldable pub terminal_rfq : Rfq → RfqExecutionIntent → SubmitResult → Rfq
terminal_rfq rfq intent result = record rfq {
  status = terminal_status result.status;
  execution = some (execution_result result intent);
  execution_intent = some (record intent { tx_hash = some result.tx_hash });
  error = terminal_error result.status;
}

abbrev pub outcome_event : Rfq → RfqExecutionIntent → SubmitResult → Engine → Engine
outcome_event terminal intent result e = elim result.status [
  | ReceiptStatus.success ↦ emit (rfq_executed terminal (execution_result result intent)) e
  | ReceiptStatus.reverted ↦ emit (rfq_failed terminal terminal.error) e
]

abbrev pub hash_fits : Option Hex → Hex → Bool
hash_fits none h = true
hash_fits (some known) h = same_hash known h

abbrev pub clear_latches : ℕ → Option Hex → Bool → Engine → Engine
clear_latches rfq_id tx_hash was_hashless e = record e {
  latches = clear_execution_recovery rfq_id tx_hash was_hashless e.latches;
}

abbrev pub arm_latches : ℕ → Option Hex → Engine → Engine
arm_latches rfq_id tx_hash e = record e {
  latches = arm_execution_recovery rfq_id tx_hash e.latches;
}

-- The writes of `terminalizeMined`: the record first, then the reservation and the latches.
unfoldable pub terminate : Rfq → RfqExecutionIntent → SubmitResult → Engine → Engine
unfolding terminal_rfq
terminate rfq intent result e =
    let terminal = terminal_rfq rfq intent result in
    let released = release_reservation intent.fill.quote_id (save_rfq terminal e) in
    outcome_event terminal intent result
      (clear_latches rfq.id (some result.tx_hash) (not (is_some intent.tx_hash)) released)

-- `terminalizeMined`; `none` is the error for a hash that is not the persisted one.
unfoldable pub terminalize_mined :
    Rfq → RfqExecutionIntent → SubmitResult → Engine → Option (Rfq × Engine)
unfolding terminal_rfq terminate
terminalize_mined rfq intent result e =
    if hash_fits intent.tx_hash result.tx_hash
    then some (terminal_rfq rfq intent result, terminate rfq intent result e)
    else none

abbrev pub unused_rfq : Rfq → Rfq
unused_rfq rfq = record rfq {
  status = RfqStatus.failed;
  execution = none;
  error = some Reason.expired_unused;
}

-- `terminalizeExpiredUnused`
unfoldable pub terminalize_expired_unused : Rfq → RfqExecutionIntent → Engine → Rfq × Engine
terminalize_expired_unused rfq intent e =
    let released = release_reservation intent.fill.quote_id (save_rfq (unused_rfq rfq) e) in
    (
      unused_rfq rfq,
      emit (rfq_failed (unused_rfq rfq) (some Reason.expired_unused))
          (clear_latches rfq.id intent.tx_hash (not (is_some intent.tx_hash)) released),
    )
