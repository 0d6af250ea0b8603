-- ===== src/Rfq/Auction/Execution.antt =====
-- services/rfq-engine/src/auction.ts: `acceptRfq` and the reconciliation of executions. The handler
-- is cut where it waits: for the validation and the block number, and for the submitter.
use derive_docs.Base.{
  ℕ, Bool, false, not, ◌&&◌, ◌∷◌, Option, none, some, leb, ◌==◌, if◌then◌else◌, filter, Result, ok,
  err,
}
use derive_docs.Base.Int.{ℤ, pos}
use derive_docs.Base.Text.{Text}
use derive_docs.Rfq.Types.{
  Hex, RfqStatus, Reason, ExecutionResult, RfqExecutionIntent, Action, Rfq, Quote, status_eq,
}
use derive_docs.Rfq.Store.{get_rfq}
use derive_docs.Rfq.Quotes.{
  ChainReader, QuoteError, unknown_rfq, still_open, no_winner, deadline_passed, rfq_changed,
  not_acceptable, validate_taker_accept,
}
use derive_docs.Rfq.Submitter.{SubmitResult}
use derive_docs.Rfq.Executor.{
  Encoders, RfqExecutionPlan, build_rfq_execution, create_execution_intent,
}
use derive_docs.Rfq.Auction.State.{Engine, arm_accept_timer, clear_accept_timer}
use derive_docs.Rfq.Auction.Terminal.{
  with_hash, executing_rfq, execution_result, terminalize_mined, arm_latches,
}
use derive_docs.Rfq.Auction.Bidding.{EngineOptions, validation_ctx}
use derive_docs.Rfq.Auction.Lifecycle.{winner_of, save_rfq, expire_accept}

-- The parameters of `acceptRfq`.
pub record Acceptance : Type 0 where
  pub rfq_id : ℕ
  pub action : Action
  pub signature : Hex

-- `acceptDeadlineAt !== null && now >= acceptDeadlineAt`
abbrev pub is_overdue : Rfq → ℕ → Bool
is_overdue rfq now = elim rfq.accept_deadline_at [ none ↦ false | some deadline ↦ leb deadline now ]

-- The tests on the RFQ's status.
unfoldable pub acceptable : Option Rfq → Result QuoteError Rfq
acceptable none = err unknown_rfq
acceptable (some rfq) =
    if status_eq rfq.status RfqStatus.opened
    then err still_open
    else if status_eq rfq.status RfqStatus.closed
    then ok rfq
    else err (not_acceptable rfq.status)

-- What an acceptance has prepared when it next looks at the state.
pub record Prepared : Type 0 where
  pub quote : Quote
  pub plan : RfqExecutionPlan
  pub intent : RfqExecutionIntent

-- `acceptRfqLocked` up to its first writes: the tests, the validation, the plan and the intent.
unfoldable pub prepare_acceptance :
    EngineOptions
    → Encoders
    → (no_data : Hex) → ChainReader
    → Acceptance
    → (now : ℕ) → (block : ℤ) → Engine
    → Engine × Result QuoteError Prepared
unfolding winner_of
prepare_acceptance opts enc no_data chain p now block e =
    elim (acceptable (get_rfq p.rfq_id e.store)) [
      | err error ↦ (e, err error)
      | ok rfq ↦ elim (winner_of rfq e.store) [
        | none ↦ (e, err no_winner)
        | some quote ↦
            if is_overdue rfq now
            then (expire_accept rfq.id e, err deadline_passed)
            else elim (validate_taker_accept (validation_ctx opts chain rfq (pos 0)) rfq quote
                p.action p.signature now) [
                  | err error ↦ (e, err error)
                  | ok order ↦
                      let plan = build_rfq_execution enc no_data rfq quote p.action p.signature in
                      let intent = create_execution_intent enc block plan in
                      (e, ok (record { quote = quote; plan = plan; intent = intent }))
                ]
      ]
    ]

abbrev pub is_best : Rfq → ℕ → Bool
is_best rfq quote_id = elim rfq.best_quote_id [ none ↦ false | some id ↦ id == quote_id ]

abbrev pub activate : ℕ → Engine → Engine
activate rfq_id e = record e { active_executions = rfq_id ∷ e.active_executions }

abbrev pub deactivate : ℕ → Engine → Engine
deactivate rfq_id e = record e {
  active_executions = filter (λ id. not (id == rfq_id)) e.active_executions;
}

-- The second look, and the durable step to `executing`: before it nothing has been broadcast.
unfoldable pub commit_acceptance :
    (rfq_id : ℕ) → Prepared → (now : ℕ) → Engine → Engine × Result QuoteError Rfq
commit_acceptance rfq_id prepared now e = elim (get_rfq rfq_id e.store) [
  | none ↦ (e, err rfq_changed)
  | some fresh ↦
      if status_eq fresh.status RfqStatus.closed && is_best fresh prepared.quote.id
      then if is_overdue fresh now then (expire_accept fresh.id e, err deadline_passed) else (
        save_rfq (executing_rfq fresh prepared.intent)
            (clear_accept_timer fresh.id (activate fresh.id e)),
        ok fresh,
      )
      else (e, err rfq_changed)
]

-- What the executor does with the plan: it returns a receipt, refuses before broadcasting because
-- of an older operation, or throws; a hash is there once the submitter has announced it.
pub data ExecutionOutcome : Type 0 where
  returned : Option Hex → SubmitResult → ExecutionOutcome
  blocked : Text → ExecutionOutcome
  thrown : Option Hex → Text → ExecutionOutcome

-- The announced hash is made durable before the receipt is waited for.
abbrev pub announce : Option Hex → Rfq → RfqExecutionIntent → Engine → Engine
announce none rfq intent e = e
announce (some h) rfq intent e = save_rfq (executing_rfq rfq (record intent { tx_hash = some h })) e

-- The handler of an error that does not prove that nothing was sent.
unfoldable pub leave_unresolved : Rfq → RfqExecutionIntent → Text → Engine → Engine
leave_unresolved rfq intent message e =
    save_rfq
      (record (executing_rfq rfq intent) { error = some (Reason.outcome_unresolved message) })
      (arm_latches rfq.id intent.tx_hash e)

abbrev pub reopened_rfq : Rfq → Text → Rfq
reopened_rfq rfq message = record rfq {
  status = RfqStatus.closed;
  execution_intent = none;
  error = some (Reason.executor_unavailable message);
}

-- The handler of a refusal: the acceptance is taken back.
unfoldable pub take_back : Rfq → Text → ℕ → Engine → Engine
take_back rfq message now e =
    let saved = save_rfq (reopened_rfq rfq message) e in
    if is_overdue rfq now
    then expire_accept rfq.id saved
    else arm_accept_timer (reopened_rfq rfq message) now saved

-- The rest of `acceptRfqLocked`, from the executor's answer; `none` where the call throws. The hash of
-- the answer is the one that is still to be made durable: none if `announce` was a step of its own.
unfoldable pub finish_acceptance :
    Rfq
    → RfqExecutionIntent
    → (mismatch : Text) → ExecutionOutcome
    → (now : ℕ) → Engine
    → Engine × Option ExecutionResult
unfolding take_back leave_unresolved
finish_acceptance rfq intent mismatch (returned hash result) now e =
    let intent' = with_hash hash intent in
    elim (terminalize_mined (executing_rfq rfq intent') intent' result
      (announce hash rfq intent e)) [
        | none ↦ (
          deactivate rfq.id (leave_unresolved rfq intent' mismatch (announce hash rfq intent e)),
          none,
        )
        | some (terminal, e') ↦ (deactivate rfq.id e', some (execution_result result intent'))
      ]
finish_acceptance rfq intent mismatch (blocked message) now e =
    (deactivate rfq.id (take_back rfq message now e), none)
finish_acceptance rfq intent mismatch (thrown hash message) now e = (
  deactivate rfq.id
      (leave_unresolved rfq (with_hash hash intent) message (announce hash rfq intent e)),
  none,
)
