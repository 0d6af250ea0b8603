-- ===== src/Withdrawal/Submission.antt =====
-- services/rfq-engine/src/withdrawal.ts: `submit` in two steps, before and after its reads of the chain,
-- and the end of a background `executeSubmission` that throws.
use derive_docs.Base.{
  ℕ, true, false, not, List, [], ◌∷◌, ◌++◌, Option, none, some, filter, contains, ◌==◌,
  if◌then◌else◌, leb, Result, ok, err, get_or,
}
use derive_docs.Base.Text.{Text, codes}
use derive_docs.Rfq.Types.{Hex}
use derive_docs.Rfq.Submitter.{broadcast_without_hash}
use derive_docs.Withdrawal.Types.{WithdrawalStatus, WithdrawalErrorBody, WithdrawalOperation}
use derive_docs.Withdrawal.Store.{get}
use derive_docs.Withdrawal.Gateway.{WithdrawalGateway, WithdrawalApiError, error_body, api_error}
use derive_docs.Withdrawal.State.{
  WithdrawalEngine, status_is, save, pause, pause_operation, release, adopt,
}
use derive_docs.Withdrawal.Reconcile.{attributed, reconcile_submitted}

abbrev status_text : WithdrawalStatus → Text
status_text WithdrawalStatus.prepared = codes "prepared"
status_text WithdrawalStatus.submitting = codes "submitting"
status_text WithdrawalStatus.submitted = codes "submitted"
status_text WithdrawalStatus.confirmed = codes "confirmed"
status_text WithdrawalStatus.rejected = codes "rejected"
status_text WithdrawalStatus.reverted = codes "reverted"
status_text WithdrawalStatus.expired = codes "expired"
status_text WithdrawalStatus.unknown = codes "unknown"

abbrev pub not_found : WithdrawalApiError
not_found = api_error 404 (codes "WITHDRAWAL_NOT_FOUND") (codes "withdrawal not found") false

abbrev pub invalid_status : WithdrawalStatus → WithdrawalApiError
invalid_status status =
    api_error 409 (codes "INVALID_WITHDRAWAL_STATUS")
      (codes "withdrawal is " ++ status_text status ++ codes ", expected prepared") false

abbrev pub invalid_signature : WithdrawalApiError
invalid_signature =
    api_error 400 (codes "INVALID_SIGNATURE")
      (codes "signature does not match the prepared EIP-712 action signer") false

abbrev pub action_expired : WithdrawalErrorBody
action_expired =
    error_body (codes "ACTION_EXPIRED") (codes "the prepared action expired; prepare again") false

abbrev pub nonce_attribution_unknown : WithdrawalErrorBody
nonce_attribution_unknown =
    error_body (codes "NONCE_ATTRIBUTION_UNKNOWN")
      (codes "the action nonce is used but no exact canonical transaction could be attributed")
      false

-- An error with the given status and the body of the operation's error.
abbrev conflict : WithdrawalErrorBody → WithdrawalApiError
conflict body = api_error 409 body.code body.message false

unfoldable pub expired_by : WithdrawalErrorBody → WithdrawalOperation → WithdrawalOperation
expired_by body o = record o { status = WithdrawalStatus.expired; error = some body }

unfoldable pub unattributed : WithdrawalOperation → WithdrawalOperation
unattributed o = record o {
  status = WithdrawalStatus.unknown;
  error = some nonce_attribution_unknown;
}

unfoldable pub submitting_at : ℕ → WithdrawalOperation → WithdrawalOperation
submitting_at now o = record o {
  status = WithdrawalStatus.submitting;
  submitted_at = some now;
  error = none;
}

-- `submit` of a prepared operation whose nonce the chain has seen used.
unfoldable pub submit_used :
    WithdrawalGateway
    → ℕ
    → WithdrawalOperation
    → WithdrawalEngine
    → WithdrawalEngine × Result WithdrawalApiError WithdrawalOperation
unfolding attributed save release reconcile_submitted unattributed pause_operation
submit_used gateway now o e = elim (gateway.find_action_use o.action o.prepared_at_block_number) [
  | some use_ ↦
      let o' = record (attributed use_ o) { submitted_at = some (get_or o.submitted_at now) } in
      let (e', o'') =
        reconcile_submitted gateway now o' (release broadcast_without_hash (save o' e)) in
      (e', ok o'')
  | none ↦ (pause o.id (save (unattributed o) e), err (conflict nonce_attribution_unknown))
]

-- `submit` of an operation that it may send: the claim is stored, then the task is queued.
unfoldable pub queue_submission :
    ℕ → Hex → WithdrawalOperation → WithdrawalEngine → WithdrawalEngine
unfolding submitting_at save
queue_submission now signature o e =
    let e' = save (submitting_at now o) e in
    record e' {
      active_submissions = o.id ∷ e.active_submissions;
      scheduled = e.scheduled ++ (o.id, signature) ∷ [];
    }

-- `submit` from its first read of the chain on, of the operation as it then stands.
unfoldable pub submit_prepared :
    WithdrawalGateway
    → ℕ
    → Hex
    → WithdrawalOperation
    → WithdrawalEngine
    → WithdrawalEngine × Result WithdrawalApiError WithdrawalOperation
unfolding submit_used queue_submission submitting_at
submit_prepared gateway now signature o e =
    if not (gateway.verify_signature o.action signature o.chain_id o.matching)
    then (e, err invalid_signature)
    else if gateway.is_nonce_used o.owner o.action.nonce
    then submit_used gateway now o e
    else (queue_submission now signature o e, ok (submitting_at now o))

abbrev pub already_submitting : WithdrawalApiError
already_submitting =
    api_error 409 (codes "ALREADY_SUBMITTING") (codes "withdrawal submission is already claimed")
      false

-- `submit` up to its first read of the chain: it throws, and its claim is gone again, or it keeps the
-- claim and waits.
unfoldable pub begin_submit :
    ℕ → Hex → ℕ → WithdrawalEngine → WithdrawalEngine × Option WithdrawalApiError
unfolding get expired_by save
begin_submit now signature id e =
    if contains id e.submit_claims then (e, some already_submitting) else elim (get id e.store) [
      | none ↦ (e, some not_found)
      | some o ↦
          if not (status_is o.status WithdrawalStatus.prepared)
          then (e, some (invalid_status o.status))
          else if leb o.expires_at now
          then (save (expired_by action_expired o) e, some (conflict action_expired))
          else (
            record e {
              submit_claims = id ∷ e.submit_claims;
              awaiting = (id, signature) ∷ e.awaiting;
            },
            none,
          )
    ]

-- The task with the identifier and the tasks without it.
unfoldable pub take_task : ℕ → List (ℕ × Hex) → Option (Hex × List (ℕ × Hex))
take_task id [] = none
take_task id ((i, signature) ∷ tasks) =
    let rest = take_task id tasks in
    if i == id
    then some (signature, tasks)
    else elim rest [ none ↦ none | some (s, others) ↦ some (s, (i, signature) ∷ others) ]

-- The rest of a `submit` that waits. Its `finally` deletes the claim when it ends; no other handler
-- runs from here to there, so that it is deleted first.
unfoldable pub end_submit : WithdrawalGateway → ℕ → ℕ → WithdrawalEngine → WithdrawalEngine
unfolding take_task get submit_prepared
end_submit gateway now id e = elim (take_task id e.awaiting) [
  | none ↦ e
  | some (signature, others) ↦
      let e' = record e {
        submit_claims = filter (λ x. not (x == id)) e.submit_claims;
        awaiting = others;
      } in
      elim (get id e.store) [ none ↦ e' | some o ↦ (submit_prepared gateway now signature o e').0 ]
]

-- What `executeSubmission` may catch: an error of the policy, the error of the signed simulation, the
-- error of a broadcast without a hash, and any other.
pub data ExecutionError : Type 0 where
  policy_refused : WithdrawalApiError → ExecutionError
  simulation_rejected broadcast_ambiguous other_error : ExecutionError

unfoldable pub unknown_with : Text → Text → WithdrawalOperation → WithdrawalOperation
unknown_with code message o = record o {
  status = WithdrawalStatus.unknown;
  error = some (error_body code message false);
}

unfoldable pub rejected_with : WithdrawalErrorBody → WithdrawalOperation → WithdrawalOperation
rejected_with body o = record o { status = WithdrawalStatus.rejected; error = some body }

unfoldable pub unconfirmed : WithdrawalOperation → WithdrawalOperation
unconfirmed o = record o {
  status = WithdrawalStatus.submitted;
  error = some (
      error_body (codes "RECEIPT_UNAVAILABLE")
        (codes "transaction was broadcast but its receipt is not yet available") true);
}

-- The operation after the catch clause, if it has no hash.
unfoldable pub failed_with : ExecutionError → WithdrawalOperation → WithdrawalOperation
unfolding rejected_with unknown_with
failed_with (policy_refused error) o = rejected_with error.body o
failed_with simulation_rejected o =
    rejected_with
      (error_body (codes "SIGNED_SIMULATION_REJECTED")
        (codes "the latest signed withdrawal simulation was rejected") false)
      o
failed_with broadcast_ambiguous o =
    unknown_with (codes "BROADCAST_OUTCOME_UNKNOWN")
      (codes
        "the executor broadcast outcome is ambiguous; writes are paused pending reconciliation")
      o
failed_with other_error o =
    unknown_with (codes "SUBMISSION_OUTCOME_UNKNOWN")
      (codes "withdrawal submission outcome is ambiguous; writes are paused pending reconciliation")
      o

-- `pauseForUnknownOperation`, if the outcome is ambiguous
abbrev pub pause_if_unknown : ExecutionError → ℕ → WithdrawalEngine → WithdrawalEngine
pause_if_unknown (policy_refused error) id e = e
pause_if_unknown simulation_rejected id e = e
pause_if_unknown broadcast_ambiguous id e = pause id e
pause_if_unknown other_error id e = pause id e

-- The catch clause of `executeSubmission`.
unfoldable pub execution_failed :
    ExecutionError → WithdrawalOperation → WithdrawalEngine → WithdrawalEngine
unfolding unconfirmed failed_with save adopt pause_operation
execution_failed error o e = elim o.tx_hash [
  | some tx_hash ↦ save (unconfirmed o) (adopt o.id tx_hash e)
  | none ↦ save (failed_with error o) (pause_if_unknown error o.id e)
]
