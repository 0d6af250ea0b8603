-- ===== src/Withdrawal/Events.antt =====
-- services/rfq-engine/src/withdrawal.ts: the withdrawal engine under any sequence of requests, background
-- tasks, and restarts of the process.
use derive_docs.Base.{ℕ, ◌≡◌, [], none}
use derive_docs.Base.Map.{lookup}
use derive_docs.Base.Text.{Text}
use derive_docs.Rfq.Types.{Hex}
use derive_docs.Withdrawal.Policy.{WithdrawalEngineOptions}
use derive_docs.Withdrawal.Gateway.{WithdrawalGateway}
use derive_docs.Withdrawal.Request.{PrepareWithdrawalRequest, WithdrawalServices}
use derive_docs.Withdrawal.Prepare.{prepare}
use derive_docs.Withdrawal.State.{WithdrawalEngine, no_latches, fresh_engine}
use derive_docs.Withdrawal.Submission.{begin_submit, end_submit}
use derive_docs.Withdrawal.Execution.{BroadcastOutcome, ReceiptOutcome, start_task, finish_task}
use derive_docs.Withdrawal.Handlers.{get_withdrawal, recover_withdrawals}

-- What happens next, with the answers that it meets.
pub data WithdrawalEvent : Type 0 where
  preparing :
      WithdrawalServices
      → (reviewed gateway : WithdrawalGateway) → (now : ℕ) → PrepareWithdrawalRequest
      → Text
      → WithdrawalEvent
  submit_beginning : (now : ℕ) → (signature : Hex) → (id : ℕ) → WithdrawalEvent
  submit_ending : WithdrawalGateway → (now : ℕ) → (id : ℕ) → WithdrawalEvent
  task_starting : WithdrawalGateway → BroadcastOutcome → (id : ℕ) → WithdrawalEvent
  task_finishing : (now : ℕ) → ReceiptOutcome → WithdrawalEvent
  reading : WithdrawalGateway → (now : ℕ) → (id : ℕ) → WithdrawalEvent
  restarting : WithdrawalGateway → (now : ℕ) → WithdrawalEvent

-- A restart keeps the store and what was sent; then `recover` runs.
unfoldable pub restart : WithdrawalEngine → WithdrawalEngine
restart e = record {
  store = e.store;
  latches = no_latches;
  submit_claims = [];
  awaiting = [];
  scheduled = [];
  in_flight = none;
  active_submissions = [];
  broadcasts = e.broadcasts;
}

unfoldable pub step :
    WithdrawalEngineOptions → WithdrawalEvent → WithdrawalEngine → WithdrawalEngine
unfolding prepare begin_submit end_submit start_task finish_task get_withdrawal recover_withdrawals
    restart
step opts (preparing services reviewed gateway now request key) e = record e {
  store = (prepare opts services reviewed gateway now request key (λ s. s) e.store).0;
}
step opts (submit_beginning now signature id) e = (begin_submit now signature id e).0
step opts (submit_ending gateway now id) e = end_submit gateway now id e
step opts (task_starting gateway outcome id) e = start_task opts gateway outcome id e
step opts (task_finishing now outcome) e = finish_task now outcome e
step opts (reading gateway now id) e = (get_withdrawal gateway now id e).0
step opts (restarting gateway now) e = (recover_withdrawals gateway now (restart e)).0

-- The random identifier of a new operation is new.
abbrev pub IsFresh : WithdrawalEvent → WithdrawalEngine → Type 0
IsFresh (preparing services reviewed gateway now request key) e =
    lookup services.id e.store.operations ≡ none
IsFresh (submit_beginning now signature id) e = Unit
IsFresh (submit_ending gateway now id) e = Unit
IsFresh (task_starting gateway outcome id) e = Unit
IsFresh (task_finishing now outcome) e = Unit
IsFresh (reading gateway now id) e = Unit
IsFresh (restarting gateway now) e = Unit

-- The engines that a sequence of events leads to.
pub data Reachable (opts : WithdrawalEngineOptions) : WithdrawalEngine → Type 0 where
  started : Reachable opts fresh_engine
  happened :
      {e : WithdrawalEngine}
      → Reachable opts e
      → (v : WithdrawalEvent) → IsFresh v e
      → Reachable opts (step opts v e)
