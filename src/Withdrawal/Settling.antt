-- ===== src/Withdrawal/Settling.antt =====
-- services/rfq-engine/src/withdrawal.ts: the results of submissions and reconciliations, and the latches
-- of the executor wallet.
use derive_docs.Base.{
  List, [], ◌∷◌, All, filter, not, ==_refl, ℕ, ◌≡◌, ◌≢◌, refl, inl, inr, ◌⊎◌, Option, none, some,
  arith, sym, ap, ◌∙◌,
}
use mathlib.Core.Path.{subst}
use derive_docs.Base.Int.{ℤ}
use derive_docs.Base.Text.{text_eq_refl, to_lower}
use derive_docs.Base.Map.{lookup, lookup-insert}
use derive_docs.Rfq.Types.{Hex, ReceiptStatus}
use derive_docs.Rfq.Submitter.{
  Latches, OperationId, withdrawal_operation, operation_eq, pause_for_unknown_operation,
  clear_unknown_operation, clear_unresolved_transaction, adopt_unresolved_transaction,
}
use derive_docs.Rfq.Submitter.FailClosed.{IsFree}
use derive_docs.Withdrawal.Types.{WithdrawalStatus, WithdrawalOperation}
use derive_docs.Withdrawal.Store.{OperationStore, put, get}
use derive_docs.Withdrawal.State.{
  WithdrawalEngine, save, release_transaction, adopt, end_submission,
}
use derive_docs.Withdrawal.Reconcile.{settled_by, transaction_reverted}
use derive_docs.Withdrawal.Submission.{
  ExecutionError, other_error, execution_failed, unconfirmed, failed_with, pause_if_unknown,
}
use derive_docs.Withdrawal.Execution.{
  ReceiptOutcome, receipt_found, receipt_failed, release_settled, finish, finish_task,
}

some_not_none : {A : Type 0} {a : A} → ◌≢◌ {A = Option A} (some a) none
some_not_none h = cc

-- The operation has ended as its receipt says, in that block and at that time.
abbrev pub IsEndedBy : ℕ → ReceiptStatus → ℤ → WithdrawalOperation → Type 0
IsEndedBy now ReceiptStatus.success block o =
    (o.status ≡ WithdrawalStatus.confirmed)
    × (o.error ≡ none)
    × (o.block_number ≡ some block)
    × (o.confirmed_at ≡ some now)
IsEndedBy now ReceiptStatus.reverted block o =
    (o.status ≡ WithdrawalStatus.reverted)
    × (o.error ≡ some transaction_reverted)
    × (o.block_number ≡ some block)
    × (o.confirmed_at ≡ some now)

settled_by-IsEndedBy :
    (now : ℕ) (status : ReceiptStatus) (block : ℤ) (o : WithdrawalOperation)
    → IsEndedBy now status block (settled_by now status (some block) o)
unfolding settled_by
settled_by-IsEndedBy now ReceiptStatus.success block o = (refl, refl, refl, refl)
settled_by-IsEndedBy now ReceiptStatus.reverted block o = (refl, refl, refl, refl)

settled_by-kept :
    (now : ℕ) (status : ReceiptStatus) (block : ℤ) (o : WithdrawalOperation)
    → let o' = settled_by now status (some block) o in (o'.id ≡ o.id) × (o'.tx_hash ≡ o.tx_hash)
unfolding settled_by
settled_by-kept now ReceiptStatus.success block o = (refl, refl)
settled_by-kept now ReceiptStatus.reverted block o = (refl, refl)

save-stored :
    (id : ℕ) (o : WithdrawalOperation) (e : WithdrawalEngine)
    → o.id ≡ id
    → lookup id (save o e).store.operations ≡ some o
unfolding save put
save-stored id o e same = ground (arith, lookup-insert id o.id o e.store.operations)

-- No latch is set but those that a lookup of this operation sets while its transaction is awaited.
abbrev pub IsOnlyFor : ℕ → Hex → Latches → Type 0
IsOnlyFor id h l =
    ((l.unresolved_tx ≡ none) ⊎ (l.unresolved_tx ≡ some h))
    × All (λ o. o ≡ withdrawal_operation id) l.unknown_operations

cleared :
    (id : ℕ) (os : List OperationId)
    → All (λ o. o ≡ withdrawal_operation id) os
    → filter (λ x. not (operation_eq x (withdrawal_operation id))) os ≡ []
cleared id [] h = refl
cleared id (o ∷ os) (same, h) = rw (same, ==_refl id) (cleared id os h)

release_transaction-IsFree :
    (id : ℕ) (h : Hex) (e : WithdrawalEngine)
    → IsOnlyFor id h e.latches
    → IsFree (release_transaction id h e).latches
unfolding release_transaction clear_unknown_operation clear_unresolved_transaction
release_transaction-IsFree id h e (inl no_tx, only) =
    (rw no_tx refl, rw no_tx (cleared id e.latches.unknown_operations only))
release_transaction-IsFree id h e (inr mine, only) = (
  rw (mine, text_eq_refl (to_lower h)) refl,
  rw (mine, text_eq_refl (to_lower h)) (cleared id e.latches.unknown_operations only),
)

release_transaction-store :
    (id : ℕ) (h : Hex) (e : WithdrawalEngine) → (release_transaction id h e).store ≡ e.store
unfolding release_transaction
release_transaction-store id h e = refl

finish-found :
    (now : ℕ) (status : ReceiptStatus) (block : ℤ) (h : Hex) (o : WithdrawalOperation)
    (e : WithdrawalEngine)
    → o.tx_hash ≡ some h
    → finish now (receipt_found status block) h o e
      ≡ end_submission o.id
          (release_transaction o.id h (save (settled_by now status (some block) o) e))
unfolding finish release_settled
finish-found now status block h o e hash =
    ap
      (λ t.
        end_submission o.id
          (release_settled t o.id (save (settled_by now status (some block) o) e)))
      hash

adopt-unresolved :
    (id : ℕ) (h g : Hex) (e : WithdrawalEngine)
    → e.latches.unresolved_tx ≡ some g
    → (adopt id h e).latches.unresolved_tx ≡ some g
unfolding adopt adopt_unresolved_transaction pause_for_unknown_operation
adopt-unresolved id h g e set = ground arith

execution_failed-hash :
    (error : ExecutionError) (o : WithdrawalOperation) (e : WithdrawalEngine) (h : Hex)
    → o.tx_hash ≡ some h
    → execution_failed error o e ≡ save (unconfirmed o) (adopt o.id h e)
unfolding execution_failed
execution_failed-hash error o e h hash =
    ap
      (λ t. elim t as (λ _. WithdrawalEngine) [
        | some x ↦ save (unconfirmed o) (adopt o.id x e)
        | none ↦ save (failed_with error o) (pause_if_unknown error o.id e)
      ])
      hash

-- A wait without a receipt leaves the operation submitted and the executor latched.
finish-unresolved :
    (now : ℕ) (h : Hex) (id : ℕ) (o : WithdrawalOperation) (e : WithdrawalEngine)
    → o.id ≡ id
    → o.tx_hash ≡ some h
    → let e' = finish now receipt_failed h o e in
      (¬ IsFree e'.latches) × (lookup id e'.store.operations ≡ some (unconfirmed o))
unfolding finish unconfirmed save
finish-unresolved now h id o e same hash =
    let e1 = record e { latches = record e.latches { unresolved_tx = some h } } in
    rw (execution_failed-hash other_error o e1 h hash) (
      λ free. some_not_none (sym (adopt-unresolved o.id h h e1 refl) ∙ free.0),
      save-stored id (unconfirmed o) (adopt o.id h e1) same,
    )

-- What the end of a wait leaves of the operation.
abbrev pub Ends : ℕ → ReceiptOutcome → WithdrawalOperation → ℕ → WithdrawalEngine → Type 0
Ends now (receipt_found status block) o id e =
    IsFree e.latches
    × ((o' : WithdrawalOperation) × (lookup id e.store.operations ≡ some o')
        × IsEndedBy now status block o'
        × (o'.tx_hash ≡ o.tx_hash))
Ends now receipt_failed o id e =
    (¬ IsFree e.latches)
    × ((o' : WithdrawalOperation) × (lookup id e.store.operations ≡ some o')
        × (o'.status ≡ WithdrawalStatus.submitted)
        × (o'.tx_hash ≡ o.tx_hash))

finish-Ends :
    (now : ℕ) (outcome : ReceiptOutcome) (h : Hex) (o : WithdrawalOperation) (e : WithdrawalEngine)
    → o.tx_hash ≡ some h
    → IsOnlyFor o.id h e.latches
    → Ends now outcome o o.id (finish now outcome h o e)
finish-Ends now (receipt_found status block) h o e hash only =
    let o' = settled_by now status (some block) o in
    let (same, kept) = settled_by-kept now status block o in
    rw (finish-found now status block h o e hash) (
      release_transaction-IsFree o.id h (save o' e) (unfold save in only),
      (
        o',
        ap (λ (s : OperationStore). lookup o.id s.operations)
              (release_transaction-store o.id h (save o' e))
            ∙ save-stored o.id o' e same,
        settled_by-IsEndedBy now status block o,
        kept,
      ),
    )
finish-Ends now receipt_failed h o e hash only =
    let (latched, kept) = finish-unresolved now h o.id o e refl hash in
    (latched, (unconfirmed o, kept, unfold unconfirmed in refl, unfold unconfirmed in refl))

-- If no latch is set while the transaction of a stored operation is awaited, but possibly those that a
-- lookup of this operation sets, then after a receipt no latch is set and the operation is stored as
-- confirmed without an error for a success, as reverted with that error otherwise, with the receipt's
-- block, the time and its hash. Without a receipt a latch is set and the operation is stored as
-- submitted, with its hash.
pub finish_task_fails_closed :
    (now : ℕ) (outcome : ReceiptOutcome) (e : WithdrawalEngine) (id : ℕ) (h : Hex)
    (o : WithdrawalOperation)
    → e.in_flight ≡ some (id, h)
    → lookup id e.store.operations ≡ some o
    → o.id ≡ id
    → o.tx_hash ≡ some h
    → IsOnlyFor id h e.latches
    → Ends now outcome o id (finish_task now outcome e)
unfolding finish_task get
finish_task_fails_closed now outcome e id h o waiting stored same hash only =
    rw (finish_task, waiting, stored)
      (subst (λ j. Ends now outcome o j (finish now outcome h o (record e { in_flight = none })))
        same
        (finish-Ends now outcome h o (record e { in_flight = none }) hash
          (subst (λ j. IsOnlyFor j h e.latches) (sym same) only)))
