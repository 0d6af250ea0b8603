-- ===== src/Withdrawal/Once/Reachability.antt =====
-- services/rfq-engine/src/withdrawal.ts: the events of the engine, and how often they send an operation.
use derive_docs.Base.{
  ℕ, ◌≡◌, refl, inl, inr, not, ◌&&◌, ◌||◌, List, [], ◌∷◌, none, ◌==◌, arith, leb, contains, is_some,
  Option-cases, Bool-cases, Result-cases, sym, ==_iff, ◌⊎◌, lt_cases,
}
use derive_docs.Base.Map.{lookup, lookup-insert}
use derive_docs.Base.Text.{Text}
use derive_docs.Rfq.Types.{Hex}
use derive_docs.Withdrawal.Types.{WithdrawalStatus, WithdrawalOperation}
use derive_docs.Withdrawal.Store.{
  OperationStore, put, get, list, get_by_idempotency_key, put_if_idempotency_absent,
}
use derive_docs.Withdrawal.Gateway.{WithdrawalGateway}
use derive_docs.Withdrawal.Policy.{WithdrawalEngineOptions}
use derive_docs.Withdrawal.Request.{PrepareWithdrawalRequest, WithdrawalServices}
use derive_docs.Withdrawal.Prepared.{draft-fresh}
use derive_docs.Withdrawal.Prepare.{draft, parse_claim, claim_key, prepare}
use derive_docs.Withdrawal.State.{WithdrawalEngine, status_is, fresh_engine}
use derive_docs.Withdrawal.Submission.{action_expired, expired_by}
use derive_docs.Withdrawal.Handlers.{
  WithdrawalRecoverySummary, refresh, get_withdrawal, recover_operation, recover_operations,
  recover_withdrawals, expired_in_restart, nothing_recovered,
}
use derive_docs.Withdrawal.Events.{
  WithdrawalEvent, preparing, submit_beginning, submit_ending, task_starting, task_finishing,
  reading, restarting, restart, step, IsFresh, Reachable, started, happened,
}
use derive_docs.Withdrawal.Once.{
  sends, IsOnce, Begun, save-IsOnce, reconcile_submitted-IsOnce, reconcile_unknown-IsOnce,
}
use derive_docs.Withdrawal.Once.Sending.{begin_submit-IsOnce}
use derive_docs.Withdrawal.Once.Tasks.{end_submit-IsOnce, start_task-IsOnce, finish_task-IsOnce}

refresh-IsOnce :
    (gateway : WithdrawalGateway) (now : ℕ) (o : WithdrawalOperation) (e : WithdrawalEngine)
    → IsOnce e
    → IsOnce (refresh gateway now o e).0
unfolding refresh expired_by
refresh-IsOnce gateway now o e v =
    elim (Bool-cases (status_is o.status WithdrawalStatus.prepared && leb o.expires_at now)) [
      | inl a ↦ rw (refresh, a) (save-IsOnce (expired_by action_expired o) e refl v)
      | inr a ↦
          elim (Bool-cases (status_is o.status WithdrawalStatus.submitted && is_some o.tx_hash)) [
            | inl b ↦ rw (refresh, a, b) (reconcile_submitted-IsOnce gateway now o e v)
            | inr b ↦
                elim (Bool-cases (
                  status_is o.status WithdrawalStatus.submitting
                    && not (contains o.id e.active_submissions)
                  || status_is o.status WithdrawalStatus.unknown)) [
                    | inl c ↦ rw (refresh, a, b, c) (reconcile_unknown-IsOnce gateway now o e v)
                    | inr c ↦ rw (refresh, a, b, c) v
                  ]
          ]
    ]

get_withdrawal-IsOnce :
    (gateway : WithdrawalGateway) (now id : ℕ) (e : WithdrawalEngine)
    → IsOnce e
    → IsOnce (get_withdrawal gateway now id e).0
unfolding get_withdrawal get
get_withdrawal-IsOnce gateway now id e v = elim (Option-cases (lookup id e.store.operations)) [
  | inl f ↦ rw (get_withdrawal, f) v
  | inr (o, f) ↦ rw (get_withdrawal, f) (refresh-IsOnce gateway now o e v)
]

recover_operation-IsOnce :
    (gateway : WithdrawalGateway) (now : ℕ) (o : WithdrawalOperation) (e : WithdrawalEngine)
    (s : WithdrawalRecoverySummary)
    → IsOnce e
    → IsOnce (recover_operation gateway now o (e, s)).0
unfolding recover_operation expired_by
recover_operation-IsOnce gateway now o e s v =
    elim (Bool-cases (status_is o.status WithdrawalStatus.prepared && leb o.expires_at now)) [
      | inl a ↦ rw (recover_operation, a) (save-IsOnce (expired_by expired_in_restart o) e refl v)
      | inr a ↦
          elim (Bool-cases (
            status_is o.status WithdrawalStatus.submitting
            || status_is o.status WithdrawalStatus.unknown)) [
              | inl b ↦ rw (recover_operation, a, b) (reconcile_unknown-IsOnce gateway now o e v)
              | inr b ↦
                  elim (Bool-cases
                    (status_is o.status WithdrawalStatus.submitted && is_some o.tx_hash)) [
                      | inl c ↦
                          rw (recover_operation, a, b, c)
                            (reconcile_submitted-IsOnce gateway now o e v)
                      | inr c ↦ rw (recover_operation, a, b, c) v
                    ]
            ]
    ]

recover_operations-IsOnce :
    (gateway : WithdrawalGateway) (now : ℕ) (os : List WithdrawalOperation) (e : WithdrawalEngine)
    (s : WithdrawalRecoverySummary)
    → IsOnce e
    → IsOnce (recover_operations gateway now os (e, s)).0
unfolding recover_operations
recover_operations-IsOnce gateway now [] e s v = v
recover_operations-IsOnce gateway now (o ∷ os) e s v =
    let r = recover_operation gateway now o (e, s) in
    recover_operations-IsOnce gateway now os r.0 r.1 (recover_operation-IsOnce gateway now o e s v)

-- A new operation under a new identifier.
insert-IsOnce :
    (o : WithdrawalOperation) (e : WithdrawalEngine)
    → lookup o.id e.store.operations ≡ none
    → IsOnce e
    → IsOnce (record e { store = put o e.store })
unfolding put
insert-IsOnce o e unused v = record {
  keyed = λ id p h. ground (arith, lookup-insert id o.id o e.store.operations, v.keyed id p);
  once = v.once;
  begun = λ id h. elim (Bool-cases (o.id == id)) [
    | inl same ↦ absurd (rw (sym ((==_iff o.id id).0 same), unused) at (v.begun id h))
    | inr other ↦ rw (lookup-insert id o.id o e.store.operations, other) (v.begun id h)
  ];
  claimed = v.claimed;
}

claim_key-store :
    (fingerprint : Hex) (o : WithdrawalOperation) (s : OperationStore)
    → (claim_key fingerprint s o).0 ≡ (put_if_idempotency_absent o s).0
unfolding claim_key
claim_key-store fingerprint o s = elim (Bool-cases (put_if_idempotency_absent o s).1.0) [
  | inl e ↦ rw (claim_key, e) refl
  | inr e ↦ rw (claim_key, e) refl
]

claim_key-IsOnce :
    (fingerprint : Hex) (o : WithdrawalOperation) (e : WithdrawalEngine)
    → lookup o.id e.store.operations ≡ none
    → IsOnce e
    → IsOnce (record e { store = (claim_key fingerprint e.store o).0 })
unfolding put_if_idempotency_absent
claim_key-IsOnce fingerprint o e unused v =
    elim (Option-cases (get_by_idempotency_key o.idempotency_key e.store)) [
      | inl f ↦
          rw (claim_key-store fingerprint o e.store, put_if_idempotency_absent, f)
            (insert-IsOnce o e unused v)
      | inr (p, f) ↦ rw (claim_key-store fingerprint o e.store, put_if_idempotency_absent, f) v
    ]

prepare-IsOnce :
    (opts : WithdrawalEngineOptions) (services : WithdrawalServices)
    (reviewed gateway : WithdrawalGateway) (now : ℕ) (request : PrepareWithdrawalRequest)
    (key : Text) (e : WithdrawalEngine)
    → lookup services.id e.store.operations ≡ none
    → IsOnce e
    → IsOnce (record e {
      store = (prepare opts services reviewed gateway now request key (λ s. s) e.store).0;
    })
unfolding prepare
prepare-IsOnce opts services reviewed gateway now request key e unused v =
    elim (Result-cases (parse_claim opts services request key)) [
      | inr (x, f) ↦ rw (prepare, f) v
      | inl (claim, f) ↦ elim (Option-cases (get_by_idempotency_key claim.scoped_key e.store)) [
        | inr (p, g) ↦ rw (prepare, f, g) v
        | inl g ↦ elim (Result-cases (draft opts services reviewed gateway now claim)) [
          | inr (x, h) ↦ rw (prepare, f, g, h) v
          | inl (o, h) ↦
              let (id, status) = draft-fresh opts services gateway now claim reviewed h in
              rw (prepare, f, g, h) (claim_key-IsOnce claim.fingerprint o e (rw id unused) v)
        ]
      ]
    ]

-- A restart forgets the queue, so that it sends no operation again.
restart-IsOnce : (e : WithdrawalEngine) → IsOnce e → IsOnce (restart e)
unfolding restart
restart-IsOnce e v = record {
  keyed = v.keyed;
  once = λ id. omega (arith, v.once id);
  begun = λ id h. v.begun id (omega arith);
  claimed = λ id h. refl;
}

step-IsOnce :
    (opts : WithdrawalEngineOptions) (event : WithdrawalEvent) (e : WithdrawalEngine)
    → IsFresh event e
    → IsOnce e
    → IsOnce (step opts event e)
unfolding step recover_withdrawals
step-IsOnce opts (preparing services reviewed gateway now request key) e unused v =
    prepare-IsOnce opts services reviewed gateway now request key e unused v
step-IsOnce opts (submit_beginning now signature id) e _ v =
    begin_submit-IsOnce now signature id e v
step-IsOnce opts (submit_ending gateway now id) e _ v = end_submit-IsOnce gateway now id e v
step-IsOnce opts (task_starting gateway outcome id) e _ v =
    start_task-IsOnce opts gateway outcome id e v
step-IsOnce opts (task_finishing now outcome) e _ v = finish_task-IsOnce now outcome e v
step-IsOnce opts (reading gateway now id) e _ v = get_withdrawal-IsOnce gateway now id e v
step-IsOnce opts (restarting gateway now) e _ v =
    recover_operations-IsOnce gateway now (list (restart e).store) (restart e) nothing_recovered
      (restart-IsOnce e v)

fresh-IsOnce : IsOnce fresh_engine
unfolding lookup
fresh-IsOnce = record {
  keyed = λ id o h. cc;
  once = λ id. omega arith;
  begun = λ id h. absurd (omega arith);
  claimed = λ id h. refl;
}

Reachable-IsOnce :
    (opts : WithdrawalEngineOptions) (e : WithdrawalEngine) → Reachable opts e → IsOnce e
Reachable-IsOnce opts e started = fresh-IsOnce
Reachable-IsOnce opts e (happened before event fresh) =
    step-IsOnce opts event _ fresh (Reachable-IsOnce opts _ before)

-- However prepare, get, the parts of submit before and after its reads of the chain, the parts of
-- background submissions before and after the wait for a receipt, and restarts with recover follow each
-- other, also for the same operation, and if each new operation has a new identifier, an operation was
-- never sent to the chain, or it was sent once and is stored with a status past preparation.
pub Reachable-sends :
    (opts : WithdrawalEngineOptions) (e : WithdrawalEngine) (id : ℕ)
    → Reachable opts e
    → (sends id e.broadcasts ≡ 0)
      ⊎ ((sends id e.broadcasts ≡ 1) × Begun (lookup id e.store.operations))
Reachable-sends opts e id reached =
    let v = Reachable-IsOnce opts e reached in
    elim (lt_cases 0 (sends id e.broadcasts)) [
      | inl some_sent ↦ inr (omega (arith, v.once id), v.begun id (omega arith))
      | inr never ↦ inl (omega arith)
    ]
