-- ===== src/Withdrawal/Once/Tasks.antt =====
-- services/rfq-engine/src/withdrawal.ts: `executeSubmission` as a task of the queue, and how often an
-- operation is sent.
use derive_docs.Base.{
  false, not, contains, filter, ◌∙◌, ℕ, ◌≡◌, ◌≢◌, refl, inl, inr, List, [], ◌∷◌, Option, none, some,
  if◌then◌else◌, ◌==◌, ◌+◌, arith, Option-cases, Bool-cases, Result-cases, ap, sym, ==_iff,
}
use derive_docs.Base.Map.{lookup}
use derive_docs.Rfq.Types.{Hex}
use derive_docs.Withdrawal.Types.{WithdrawalOperation}
use derive_docs.Withdrawal.Store.{get}
use derive_docs.Withdrawal.Gateway.{WithdrawalGateway}
use derive_docs.Withdrawal.Policy.{WithdrawalEngineOptions, assert_final_policy}
use derive_docs.Withdrawal.State.{WithdrawalEngine, save, release, release_transaction}
use derive_docs.Withdrawal.Reconcile.{settled_by}
use derive_docs.Withdrawal.Submission.{policy_refused, other_error, take_task, end_submit}
use derive_docs.Withdrawal.Execution.{
  BroadcastOutcome, ReceiptOutcome, receipt_found, receipt_failed, may_write, execute, start_task,
  release_settled, finish, finish_task,
}
use derive_docs.Withdrawal.Once.{queued, IsOnce, Begun, settled_by-HasBegun, save-IsOnce}
use derive_docs.Withdrawal.Once.Sending.{
  execution_failed-IsOnce, Room, broadcast-IsOnce, submit_prepared-IsOnce,
}

execute-IsOnce :
    (opts : WithdrawalEngineOptions) (gateway : WithdrawalGateway) (outcome : BroadcastOutcome)
    (o : WithdrawalOperation) (e : WithdrawalEngine)
    → IsOnce e
    → Room o.id e
    → Begun (lookup o.id e.store.operations)
    → IsOnce (execute opts gateway outcome o e)
unfolding execute
execute-IsOnce opts gateway outcome o e v room begun = elim (Bool-cases (may_write e.latches)) [
  | inr paused ↦ rw (execute, paused) (execution_failed-IsOnce other_error o e v)
  | inl free ↦ elim (Result-cases (assert_final_policy opts gateway o)) [
    | inr (x, refused) ↦
        rw (execute, free, refused) (execution_failed-IsOnce (policy_refused x) o e v)
    | inl (_, passed) ↦ rw (execute, free, passed) (broadcast-IsOnce outcome o e v room begun)
  ]
]

some_not_none : {A : Type 0} {a : A} → ◌≢◌ {A = Option A} (some a) none
some_not_none h = cc

some_injective : {A : Type 0} {a b : A} → some a ≡ some b → a ≡ b
some_injective h = cc

-- A task that is taken was queued once more than it is now.
take_task-queued :
    (id j : ℕ) (tasks : List (ℕ × Hex)) (signature : Hex) (rest : List (ℕ × Hex))
    → take_task id tasks ≡ some (signature, rest)
    → queued j tasks ≡ (if id == j then 1 else 0) + queued j rest
unfolding take_task
take_task-queued id j [] signature rest h = cc
take_task-queued id j ((i, s) ∷ tasks) signature rest h = elim (Bool-cases (i == id)) [
  | inl same ↦
      let left : tasks ≡ rest = ap (λ p. p.1) (some_injective (rw (take_task, same) at h)) in
      rw ((==_iff i id).0 same, left) refl
  | inr other ↦ elim (Option-cases (take_task id tasks)) [
    | inl none_left ↦ absurd (some_not_none (sym (rw (take_task, other, none_left) at h)))
    | inr ((s', others), f) ↦
        let left : (i, s) ∷ others ≡ rest =
          ap (λ p. p.1) (some_injective (rw (take_task, other, f) at h)) in
        let ih = take_task-queued id j tasks s' others f in rw (← left) (omega (arith, ih))
  ]
]

pub start_task-IsOnce :
    (opts : WithdrawalEngineOptions) (gateway : WithdrawalGateway) (outcome : BroadcastOutcome)
    (id : ℕ) (e : WithdrawalEngine)
    → IsOnce e
    → IsOnce (start_task opts gateway outcome id e)
unfolding start_task get
start_task-IsOnce opts gateway outcome id e v = elim (Option-cases e.in_flight) [
  | inr (w, f) ↦ rw (start_task, f) v
  | inl f ↦ elim (Option-cases (take_task id e.scheduled)) [
    | inl g ↦ rw (start_task, f, g) v
    | inr ((signature, tasks), g) ↦
        let taken : (j : ℕ) → queued j e.scheduled ≡ (if id == j then 1 else 0) + queued j tasks =
          λ j. take_task-queued id j e.scheduled signature tasks g in
        let mine : queued id e.scheduled ≡ 1 + queued id tasks = ground (arith, taken id) in
        let v' : IsOnce (record e { scheduled = tasks }) = record {
          keyed = v.keyed;
          claimed = v.claimed;
          once = λ j. ground (arith, taken j, v.once j);
          begun = λ j h. v.begun j (ground (arith, taken j));
        } in
        elim (Option-cases (lookup id e.store.operations)) [
          | inl h ↦ rw (start_task, f, g, h) v'
          | inr (o, h) ↦
              let same : o.id ≡ id = v.keyed id o h in
              rw (start_task, f, g, h)
                (execute-IsOnce opts gateway outcome o (record e { scheduled = tasks }) v'
                  (rw same (omega (arith, v.once id))) (rw same (v.begun id (omega arith))))
        ]
  ]
]

contains-filter :
    (id j : ℕ) (xs : List ℕ)
    → (id == j) ≡ false
    → contains j (filter (λ x. not (x == id)) xs) ≡ contains j xs
contains-filter id j [] other = refl
contains-filter id j (x ∷ xs) other = ground (arith, contains-filter id j xs other)

pub end_submit-IsOnce :
    (gateway : WithdrawalGateway) (now id : ℕ) (e : WithdrawalEngine)
    → IsOnce e
    → IsOnce (end_submit gateway now id e)
unfolding end_submit get
end_submit-IsOnce gateway now id e v = elim (Option-cases (take_task id e.awaiting)) [
  | inl g ↦ rw (end_submit, g) v
  | inr ((signature, others), g) ↦
      let taken : (j : ℕ) → queued j e.awaiting ≡ (if id == j then 1 else 0) + queued j others =
        λ j. take_task-queued id j e.awaiting signature others g in
      let mine : queued id e.awaiting ≡ 1 + queued id others = ground (arith, taken id) in
      let e' = record e {
        submit_claims = filter (λ x. not (x == id)) e.submit_claims;
        awaiting = others;
      } in
      let v' : IsOnce e' = record {
        keyed = v.keyed;
        once = λ j. ground (arith, taken j, v.once j);
        begun = v.begun;
        claimed = λ j h. elim (Bool-cases (id == j)) [
          | inl same ↦ rw (← (==_iff id j).0 same) (omega (arith, v.once id))
          | inr other ↦
              let before = v.claimed j (sym (contains-filter id j e.submit_claims other) ∙ h) in
              ground (arith, taken j)
        ];
      } in
      elim (Option-cases (lookup id e.store.operations)) [
        | inl h ↦ rw (end_submit, g, h) v'
        | inr (o, h) ↦
            let same : o.id ≡ id = v.keyed id o h in
            rw (end_submit, g, h)
              (submit_prepared-IsOnce gateway now signature o e' v'
                (rw same (omega (arith, v.once id))))
      ]
]

release_settled-IsOnce :
    (h : Option Hex) (id : ℕ) (e : WithdrawalEngine) → IsOnce e → IsOnce (release_settled h id e)
unfolding release_settled release release_transaction
release_settled-IsOnce (some h) id e v = v
release_settled-IsOnce none id e v = v

finish-IsOnce :
    (now : ℕ) (outcome : ReceiptOutcome) (h : Hex) (o : WithdrawalOperation) (e : WithdrawalEngine)
    → IsOnce e
    → IsOnce (finish now outcome h o e)
unfolding finish
finish-IsOnce now (receipt_found status block) h o e v =
    let saved =
      save-IsOnce (settled_by now status (some block) o) e
        (settled_by-HasBegun now status (some block) o) v in
    release_settled-IsOnce o.tx_hash o.id (save (settled_by now status (some block) o) e) saved
finish-IsOnce now receipt_failed h o e v =
    execution_failed-IsOnce other_error o
      (record e { latches = record e.latches { unresolved_tx = some h } }) v

pub finish_task-IsOnce :
    (now : ℕ) (outcome : ReceiptOutcome) (e : WithdrawalEngine)
    → IsOnce e
    → IsOnce (finish_task now outcome e)
unfolding finish_task get
finish_task-IsOnce now outcome e v = elim (Option-cases e.in_flight) [
  | inl f ↦ rw (finish_task, f) v
  | inr ((id, h), f) ↦ elim (Option-cases (lookup id e.store.operations)) [
    | inl g ↦ rw (finish_task, f, g) v
    | inr (o, g) ↦
        rw (finish_task, f, g) (finish-IsOnce now outcome h o (record e { in_flight = none }) v)
  ]
]
