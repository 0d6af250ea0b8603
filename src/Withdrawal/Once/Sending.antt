-- ===== src/Withdrawal/Once/Sending.antt =====
-- services/rfq-engine/src/withdrawal.ts: `submit` and `executeSubmission`, and how often an operation is
-- queued and sent.
use derive_docs.Base.{
  contains, ℕ, ◌≡◌, ◌≢◌, refl, inl, inr, true, false, List, [], ◌∷◌, ◌++◌, some, if◌then◌else◌,
  ◌==◌, ◌+◌, leb, lt_cases, get_or, ==_iff, arith, Option-cases, Bool-cases, sym, ◌∙◌,
}
use derive_docs.Base.Map.{lookup, lookup-insert}
use derive_docs.Rfq.Types.{Hex}
use derive_docs.Rfq.Submitter.{broadcast_without_hash}
use derive_docs.Withdrawal.Types.{WithdrawalStatus, WithdrawalOperation}
use derive_docs.Withdrawal.Store.{put, get}
use derive_docs.Withdrawal.Gateway.{WithdrawalGateway}
use derive_docs.Withdrawal.State.{
  WithdrawalEngine, status_is, save, pause_operation, release, adopt,
}
use derive_docs.Withdrawal.Reconcile.{attributed}
use derive_docs.Withdrawal.Submission.{
  begin_submit, submit_prepared, submit_used, queue_submission, expired_by, unattributed,
  submitting_at, action_expired, ExecutionError, policy_refused, simulation_rejected,
  broadcast_ambiguous, other_error, pause_if_unknown, failed_with, rejected_with, unknown_with,
  unconfirmed, execution_failed,
}
use derive_docs.Withdrawal.Execution.{
  BroadcastOutcome, simulation_failed, broadcast_failed, broadcast_sent, sent, broadcast,
}
use derive_docs.Withdrawal.Once.{
  queued, sends, IsOnce, Begun, HasBegun, save-IsOnce, reconcile_submitted-IsOnce,
}

queued-append :
    (id : ℕ) (tasks : List (ℕ × Hex)) (i : ℕ) (signature : Hex)
    → queued id (tasks ++ (i, signature) ∷ []) ≡ (if i == id then 1 else 0) + queued id tasks
queued-append id [] i signature = refl
queued-append id ((j, s) ∷ tasks) i signature = ground (arith, queued-append id tasks i signature)

-- The engine has room for one more send of the operation.
abbrev pub Room : ℕ → WithdrawalEngine → Type 0
Room id e = (queued id e.awaiting + (queued id e.scheduled + sends id e.broadcasts) ≡ 0)

submit_used-IsOnce :
    (gateway : WithdrawalGateway) (now : ℕ) (o : WithdrawalOperation) (e : WithdrawalEngine)
    → IsOnce e
    → IsOnce (submit_used gateway now o e).0
unfolding submit_used attributed unattributed release pause_operation
submit_used-IsOnce gateway now o e v =
    elim (Option-cases (gateway.find_action_use o.action o.prepared_at_block_number)) [
      | inl f ↦ rw (submit_used, f) (save-IsOnce (unattributed o) e refl v)
      | inr (u, f) ↦
          let o' = record (attributed u o) { submitted_at = some (get_or o.submitted_at now) } in
          rw (submit_used, f)
            (reconcile_submitted-IsOnce gateway now o' (release broadcast_without_hash (save o' e))
              (save-IsOnce o' e refl v))
    ]

true_not_false : true ≢ false
true_not_false h = cc

-- A prepared operation is neither queued nor sent.
prepared-idle :
    (id : ℕ) (o : WithdrawalOperation) (e : WithdrawalEngine)
    → IsOnce e
    → lookup id e.store.operations ≡ some o
    → status_is o.status WithdrawalStatus.prepared ≡ true
    → queued id e.scheduled + sends id e.broadcasts ≡ 0
prepared-idle id o e v stored prepared =
    elim (lt_cases 0 (queued id e.scheduled + sends id e.broadcasts)) [
      | inl busy ↦
          let begun : HasBegun o = rw stored at (v.begun id busy) in
          absurd (true_not_false (sym prepared ∙ begun))
      | inr (inl none_yet) ↦ sym none_yet
      | inr (inr below) ↦ absurd (omega arith)
    ]

queue_submission-IsOnce :
    (now : ℕ) (signature : Hex) (o : WithdrawalOperation) (e : WithdrawalEngine)
    → IsOnce e
    → Room o.id e
    → IsOnce (queue_submission now signature o e)
unfolding queue_submission submitting_at save put
queue_submission-IsOnce now signature o e v idle =
    let saved = save-IsOnce (submitting_at now o) e refl v in
    record {
      keyed = saved.keyed;
      claimed = v.claimed;
      once = λ id. ground (arith, queued-append id e.scheduled o.id signature, v.once id);
      begun = λ id h. elim (Bool-cases (o.id == id)) [
        | inl same ↦ rw (lookup-insert id o.id (submitting_at now o) e.store.operations, same) refl
        | inr other ↦ saved.begun id (ground (arith, queued-append id e.scheduled o.id signature))
      ];
    }

pub submit_prepared-IsOnce :
    (gateway : WithdrawalGateway) (now : ℕ) (signature : Hex) (o : WithdrawalOperation)
    (e : WithdrawalEngine)
    → IsOnce e
    → Room o.id e
    → IsOnce (submit_prepared gateway now signature o e).0
unfolding submit_prepared
submit_prepared-IsOnce gateway now signature o e v idle =
    elim (Bool-cases (gateway.verify_signature o.action signature o.chain_id o.matching)) [
      | inr forged ↦ rw (submit_prepared, forged) v
      | inl signed ↦ elim (Bool-cases (gateway.is_nonce_used o.owner o.action.nonce)) [
        | inl used ↦ rw (submit_prepared, signed, used) (submit_used-IsOnce gateway now o e v)
        | inr unused ↦
            rw (submit_prepared, signed, unused) (queue_submission-IsOnce now signature o e v idle)
      ]
    ]

-- A claim that waits.
claim-IsOnce :
    (id : ℕ) (signature : Hex) (e : WithdrawalEngine)
    → IsOnce e
    → Room id e
    → IsOnce
        (record e { submit_claims = id ∷ e.submit_claims; awaiting = (id, signature) ∷ e.awaiting })
claim-IsOnce id signature e v room = record {
  keyed = v.keyed;
  once = λ j. ground (arith, v.once j);
  begun = v.begun;
  claimed = λ j h. ground (arith, v.claimed j);
}

pub begin_submit-IsOnce :
    (now : ℕ) (signature : Hex) (id : ℕ) (e : WithdrawalEngine)
    → IsOnce e
    → IsOnce (begin_submit now signature id e).0
unfolding begin_submit get expired_by
begin_submit-IsOnce now signature id e v = elim (Bool-cases (contains id e.submit_claims)) [
  | inl taken ↦ rw (begin_submit, taken) v
  | inr free ↦ elim (Option-cases (lookup id e.store.operations)) [
    | inl f ↦ rw (begin_submit, free, f) v
    | inr (o, f) ↦ elim (Bool-cases (status_is o.status WithdrawalStatus.prepared)) [
      | inr other ↦ rw (begin_submit, free, f, other) v
      | inl prepared ↦ elim (Bool-cases (leb o.expires_at now)) [
        | inl late ↦
            rw (begin_submit, free, f, prepared, late)
              (save-IsOnce (expired_by action_expired o) e refl v)
        | inr early ↦
            let idle = prepared-idle id o e v f prepared in
            rw (begin_submit, free, f, prepared, early)
              (claim-IsOnce id signature e v (omega (arith, v.claimed id free, idle)))
      ]
    ]
  ]
]

failed_with-HasBegun :
    (error : ExecutionError) (o : WithdrawalOperation) → HasBegun (failed_with error o)
unfolding failed_with rejected_with unknown_with
failed_with-HasBegun (policy_refused error) o = refl
failed_with-HasBegun simulation_rejected o = refl
failed_with-HasBegun broadcast_ambiguous o = refl
failed_with-HasBegun other_error o = refl

pause_if_unknown-IsOnce :
    (error : ExecutionError) (id : ℕ) (e : WithdrawalEngine)
    → IsOnce e
    → IsOnce (pause_if_unknown error id e)
unfolding pause_operation
pause_if_unknown-IsOnce (policy_refused error) id e v = v
pause_if_unknown-IsOnce simulation_rejected id e v = v
pause_if_unknown-IsOnce broadcast_ambiguous id e v = v
pause_if_unknown-IsOnce other_error id e v = v

pub execution_failed-IsOnce :
    (error : ExecutionError) (o : WithdrawalOperation) (e : WithdrawalEngine)
    → IsOnce e
    → IsOnce (execution_failed error o e)
unfolding execution_failed unconfirmed adopt
execution_failed-IsOnce error o e v = elim (Option-cases o.tx_hash) [
  | inr (h, f) ↦ rw (execution_failed, f) (save-IsOnce (unconfirmed o) (adopt o.id h e) refl v)
  | inl f ↦
      rw (execution_failed, f)
        (save-IsOnce (failed_with error o) (pause_if_unknown error o.id e)
          (failed_with-HasBegun error o) (pause_if_unknown-IsOnce error o.id e v))
]

count_send-IsOnce :
    (o : WithdrawalOperation) (e : WithdrawalEngine)
    → IsOnce e
    → Room o.id e
    → Begun (lookup o.id e.store.operations)
    → IsOnce (record e { broadcasts = o.id ∷ e.broadcasts })
count_send-IsOnce o e v room begun = record {
  keyed = v.keyed;
  claimed = v.claimed;
  once = λ id. ground (arith, v.once id);
  begun = λ id h. elim (Bool-cases (o.id == id)) [
    | inl same ↦ rw ((==_iff o.id id).0 same) at begun
    | inr other ↦ v.begun id (ground arith)
  ];
}

pub broadcast-IsOnce :
    (outcome : BroadcastOutcome) (o : WithdrawalOperation) (e : WithdrawalEngine)
    → IsOnce e
    → Room o.id e
    → Begun (lookup o.id e.store.operations)
    → IsOnce (broadcast outcome o e)
unfolding broadcast pause_operation sent
broadcast-IsOnce simulation_failed o e v room begun =
    execution_failed-IsOnce simulation_rejected o e v
broadcast-IsOnce broadcast_failed o e v room begun =
    execution_failed-IsOnce broadcast_ambiguous o
      (pause_operation broadcast_without_hash (record e { broadcasts = o.id ∷ e.broadcasts }))
      (count_send-IsOnce o e v room begun)
broadcast-IsOnce (broadcast_sent h) o e v room begun =
    save-IsOnce (sent h o)
      (record e { in_flight = some (o.id, h); broadcasts = o.id ∷ e.broadcasts }) refl
      (count_send-IsOnce o e v room begun)
