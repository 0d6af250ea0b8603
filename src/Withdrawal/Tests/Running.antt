-- ===== src/Withdrawal/Tests/Running.antt =====
-- services/rfq-engine/src/withdrawal.ts: the theorems on submissions at concrete events.
use derive_docs.Base.{◌≡◌, inr, refl, ◌⊎◌, [], ◌∷◌, none, some}
use derive_docs.Base.Int.{pos, ◌-ℤ◌}
use derive_docs.Base.Map.{lookup, insert, values}
use derive_docs.Base.Text.{codes, text_eq, to_lower}
use derive_docs.Base.Decimal.{big_int}
use derive_docs.Rfq.Types.{ReceiptStatus, address_eq}
use derive_docs.Rfq.Submitter.{withdrawal_operation}
use derive_docs.Withdrawal.Types.{WithdrawalStatus, WithdrawalOperation}
use derive_docs.Withdrawal.Gateway.{WithdrawalNonceUse}
use derive_docs.Withdrawal.State.{WithdrawalEngine, save, no_latches, fresh_engine}
use derive_docs.Withdrawal.Reconcile.{reconcile_unknown, action_use}
use derive_docs.Withdrawal.Execution.{
  may_write, broadcast, execute, start_task, sent, broadcast_sent, receipt_found, finish_task,
}
use derive_docs.Withdrawal.Events.{
  preparing, submit_beginning, submit_ending, task_starting, restarting, restart, step, Reachable,
  started, happened,
}
use derive_docs.Withdrawal.Once.{sends, Begun}
use derive_docs.Withdrawal.Once.Reachability.{Reachable-sends}
use derive_docs.Withdrawal.Settling.{Ends, finish_task_fails_closed}
use derive_docs.Withdrawal.Attribution.{Found, IsUnusable, IsPaused, reconcile_unknown_needs_proof}
use derive_docs.Withdrawal.Store.{put, get, list, get_by_idempotency_key, put_if_idempotency_absent}
use derive_docs.Withdrawal.Amounts.{to_token_units_floor, token_quantum, align}
use derive_docs.Withdrawal.Maximum.{find_maximum, search, narrow}
use derive_docs.Withdrawal.Policy.{
  find_asset, resolve_asset, snapshot_blocker, available_cash, fee_adjusted_cash, cash_cap,
  held_units, policy_cap, assert_final_policy,
}
use derive_docs.Withdrawal.Preview.{limited, limit_of, recommended_of, preview_at_block}
use derive_docs.Withdrawal.Request.{
  parse_positive, validate_idempotency_key, request_fingerprint, check_reviewed,
}
use derive_docs.Withdrawal.Prepare.{operation_of, draft, parse_claim, claim_key, prepare}
use derive_docs.Withdrawal.Submission.{
  begin_submit, end_submit, take_task, submit_prepared, queue_submission, submitting_at,
}
use derive_docs.Withdrawal.Handlers.{recover_withdrawals, recover_operations, recover_operation}
use derive_docs.Withdrawal.Tests.{operation}
use derive_docs.Withdrawal.Tests.Limits.{opts, gateway}
use derive_docs.Withdrawal.Tests.Preparing.{services, request, key}

-- An operation is prepared, submitted and sent, and then the process restarts.
abbrev one_prepared : WithdrawalEngine
one_prepared = step opts (preparing services gateway gateway 1_000_000 request key) fresh_engine

-- A second submission while the first one waits is refused.
abbrev one_claimed : WithdrawalEngine
one_claimed =
    step opts (submit_beginning 1_000_600 (codes "0x6") 1)
      (step opts (submit_beginning 1_000_500 (codes "0x5") 1) one_prepared)

abbrev one_submitted : WithdrawalEngine
one_submitted = step opts (submit_ending gateway 1_001_000 1) one_claimed

abbrev one_sent : WithdrawalEngine
one_sent = step opts (task_starting gateway (broadcast_sent (codes "0x7")) 1) one_submitted

abbrev one_restarted : WithdrawalEngine
one_restarted = step opts (restarting gateway 1_002_000) one_sent

unused : lookup 1 fresh_engine.store.operations ≡ none
unfolding lookup
unused = refl

reached : Reachable opts one_restarted
reached =
    happened
      (happened
        (happened
          (happened
            (happened
              (happened started (preparing services gateway gateway 1_000_000 request key) unused)
              (submit_beginning 1_000_500 (codes "0x5") 1) tt)
            (submit_beginning 1_000_600 (codes "0x6") 1) tt)
          (submit_ending gateway 1_001_000 1) tt)
        (task_starting gateway (broadcast_sent (codes "0x7")) 1) tt)
      (restarting gateway 1_002_000) tt

Reachable-sends_example :
    (sends 1 one_restarted.broadcasts ≡ 0)
    ⊎ ((sends 1 one_restarted.broadcasts ≡ 1) × Begun (lookup 1 one_restarted.store.operations))
Reachable-sends_example = Reachable-sends opts one_restarted 1 reached

abbrev waiting : WithdrawalOperation
waiting = record operation { status = WithdrawalStatus.submitted; tx_hash = some (codes "0x7") }

abbrev in_flight : WithdrawalEngine
in_flight = record {
  store = record { operations = (1, waiting) ∷ []; ids_by_key = (40, 1) ∷ [] };
  latches = no_latches;
  submit_claims = [];
  awaiting = [];
  scheduled = [];
  in_flight = some (1, codes "0x7");
  active_submissions = 1 ∷ [];
  broadcasts = 1 ∷ [];
}

stored_waiting : lookup 1 in_flight.store.operations ≡ some waiting
unfolding lookup
stored_waiting = refl

-- A lookup during the wait has latched the operation's own transaction.
abbrev looked_up : WithdrawalEngine
looked_up = record in_flight {
  latches = record {
    unknown_operations = withdrawal_operation 1 ∷ [];
    unresolved_tx = some (codes "0x7");
  };
}

finish_task_fails_closed_example :
    Ends 1_003_000
      (receipt_found ReceiptStatus.success (pos 12))
      waiting
      1
      (finish_task 1_003_000 (receipt_found ReceiptStatus.success (pos 12)) looked_up)
finish_task_fails_closed_example =
    finish_task_fails_closed 1_003_000 (receipt_found ReceiptStatus.success (pos 12)) looked_up 1
      (codes "0x7") waiting refl stored_waiting refl refl (inr refl, (refl, tt))

-- The run above sends the operation, once.
sent_once : sends 1 one_restarted.broadcasts ≡ 1
unfolding step restart recover_withdrawals recover_operations recover_operation list values
    begin_submit end_submit submit_prepared queue_submission start_task take_task execute may_write
    broadcast assert_final_policy get save prepare claim_key put_if_idempotency_absent
    get_by_idempotency_key put insert lookup draft check_reviewed preview_at_block limit_of limited
    recommended_of find_maximum search narrow snapshot_blocker available_cash fee_adjusted_cash
    cash_cap held_units policy_cap to_token_units_floor token_quantum align address_eq text_eq
    to_lower ◌-ℤ◌ parse_claim validate_idempotency_key parse_positive resolve_asset find_asset
    request_fingerprint big_int operation_of submitting_at sent
sent_once = refl

abbrev doubtful : WithdrawalOperation
doubtful = record operation { status = WithdrawalStatus.submitting }

reconcile_unknown_needs_proof_example :
    let (e', o') = reconcile_unknown gateway 1_004_000 doubtful in_flight in
    ((u : WithdrawalNonceUse) × (action_use gateway doubtful ≡ some u) × Found gateway u (e', o'))
    ⊎ (((action_use gateway doubtful ≡ none)
          × IsUnusable gateway doubtful
          × (o'.status ≡ WithdrawalStatus.expired))
        ⊎ ((action_use gateway doubtful ≡ none)
            × (o'.status ≡ WithdrawalStatus.unknown)
            × IsPaused 1 e'))
reconcile_unknown_needs_proof_example =
    reconcile_unknown_needs_proof gateway 1_004_000 doubtful in_flight
