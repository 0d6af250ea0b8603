-- ===== src/Withdrawal/Attribution.antt =====
-- services/rfq-engine/src/withdrawal.ts: what `reconcileUnknown` makes of an operation whose broadcast
-- is in doubt.
use derive_docs.Base.{
  Bool, not, ◌&&◌, ℕ, ◌≡◌, refl, inl, inr, ◌⊎◌, true, false, List, [], ◌∷◌, ◌++◌, Option, none,
  some, arith, Option-cases, Bool-cases, ap,
}
use derive_docs.Base.Int.{ℤ, pos, ltb_ℤ}
use derive_docs.Rfq.Types.{ReceiptStatus}
use derive_docs.Rfq.Submitter.{
  same_hash, OperationId, withdrawal_operation, broadcast_without_hash, has_operation,
  pause_for_unknown_operation,
}
use derive_docs.Rfq.Submitter.FailClosed.{operation_eq_refl}
use derive_docs.Withdrawal.Types.{WithdrawalStatus, WithdrawalOperation}
use derive_docs.Withdrawal.Gateway.{
  WithdrawalGateway, WithdrawalNonceUse, WithdrawalPinnedBlock, WithdrawalReceipt,
}
use derive_docs.Withdrawal.State.{
  WithdrawalEngine, save, pause, pause_operation, release, release_transaction, adopt,
}
use derive_docs.Withdrawal.Reconcile.{
  settled_by, reconcile_submitted, pause_if_submitted, pause_unsettled, attributed,
  expired_unexecuted, outcome_unknown, reconcile_unknown, action_use, unusable, still_latest,
}

-- The executor is paused for the operation.
abbrev pub IsPaused : ℕ → WithdrawalEngine → Type 0
IsPaused id e = has_operation (withdrawal_operation id) e.latches.unknown_operations ≡ true

has_operation-append :
    (o : OperationId) (os : List OperationId) → has_operation o (os ++ o ∷ []) ≡ true
has_operation-append o [] = ground (arith, operation_eq_refl o)
has_operation-append o (x ∷ os) = ground (arith, has_operation-append o os)

pause-IsPaused : (id : ℕ) (e : WithdrawalEngine) → IsPaused id (pause id e)
unfolding pause_operation pause_for_unknown_operation
pause-IsPaused id e =
    let o = withdrawal_operation id in
    elim (Bool-cases (has_operation o e.latches.unknown_operations)) [
      | inl h ↦ rw (pause_for_unknown_operation, h) h
      | inr h ↦
          rw (pause_for_unknown_operation, h) (has_operation-append o e.latches.unknown_operations)
    ]

-- The stored operation has ended.
abbrev pub IsSettled : WithdrawalOperation → Type 0
IsSettled o = (o.status ≡ WithdrawalStatus.confirmed) ⊎ (o.status ≡ WithdrawalStatus.reverted)

settled_by-IsSettled :
    (now : ℕ) (status : ReceiptStatus) (block : Option ℤ) (o : WithdrawalOperation)
    → IsSettled (settled_by now status block o) × ((settled_by now status block o).id ≡ o.id)
unfolding settled_by
settled_by-IsSettled now ReceiptStatus.success block o = (inl refl, refl)
settled_by-IsSettled now ReceiptStatus.reverted block o = (inr refl, refl)

pause_unsettled-settled_by :
    (e : WithdrawalEngine) (o : WithdrawalOperation) → IsSettled o → pause_unsettled (e, o) ≡ (e, o)
pause_unsettled-settled_by e o (inl h) = ap (λ s. pause_if_submitted s (e, o)) h
pause_unsettled-settled_by e o (inr h) = ap (λ s. pause_if_submitted s (e, o)) h

-- What is known of an operation whose transaction was found.
abbrev pub Found :
    WithdrawalGateway → WithdrawalNonceUse → WithdrawalEngine × WithdrawalOperation → Type 0
Found gateway u (e, o) =
    (o.tx_hash ≡ some u.tx_hash)
    × (((r : WithdrawalReceipt) × (gateway.receipt u.tx_hash ≡ some r) × IsSettled o)
        ⊎ ((gateway.receipt u.tx_hash ≡ none)
            × (o.status ≡ WithdrawalStatus.submitted)
            × IsPaused o.id e))

settled_by-hash :
    (now : ℕ) (status : ReceiptStatus) (block : Option ℤ) (o : WithdrawalOperation)
    → (settled_by now status block o).tx_hash ≡ o.tx_hash
unfolding settled_by
settled_by-hash now ReceiptStatus.success block o = refl
settled_by-hash now ReceiptStatus.reverted block o = refl

reconcile_submitted-found :
    (gateway : WithdrawalGateway) (now : ℕ) (u : WithdrawalNonceUse) (o : WithdrawalOperation)
    (e : WithdrawalEngine) (r : WithdrawalReceipt)
    → gateway.receipt u.tx_hash ≡ some r
    → let o' = settled_by now r.status (some r.block_number) (attributed u o) in
      reconcile_submitted gateway now (attributed u o) e
      ≡ (release_transaction o.id u.tx_hash (save o' e), o')
unfolding reconcile_submitted attributed
reconcile_submitted-found gateway now u o e r f = rw (reconcile_submitted, f) refl

reconcile_submitted-waiting :
    (gateway : WithdrawalGateway) (now : ℕ) (u : WithdrawalNonceUse) (o : WithdrawalOperation)
    (e : WithdrawalEngine)
    → gateway.receipt u.tx_hash ≡ none
    → reconcile_submitted gateway now (attributed u o) e ≡ (adopt o.id u.tx_hash e, attributed u o)
unfolding reconcile_submitted attributed
reconcile_submitted-waiting gateway now u o e f = rw (reconcile_submitted, f) refl

attributed-Found :
    (gateway : WithdrawalGateway) (now : ℕ) (u : WithdrawalNonceUse) (o : WithdrawalOperation)
    (e : WithdrawalEngine)
    → Found gateway u (pause_unsettled (reconcile_submitted gateway now (attributed u o) e))
unfolding attributed
attributed-Found gateway now u o e = elim (Option-cases (gateway.receipt u.tx_hash)) [
  | inl f ↦
      rw (reconcile_submitted-waiting gateway now u o e f)
        (refl, inr (f, refl, pause-IsPaused o.id (adopt o.id u.tx_hash e)))
  | inr (r, f) ↦
      let o' = settled_by now r.status (some r.block_number) (attributed u o) in
      let ended = (settled_by-IsSettled now r.status (some r.block_number) (attributed u o)).0 in
      rw
        (
          reconcile_submitted-found gateway now u o e r f,
          pause_unsettled-settled_by (release_transaction o.id u.tx_hash (save o' e)) o' ended,
        )
        (settled_by-hash now r.status (some r.block_number) (attributed u o), inl (r, f, ended))
]

-- The nonce is unused, and the latest block is past the action's expiry and canonical.
abbrev pub IsUnusable : WithdrawalGateway → WithdrawalOperation → Type 0
IsUnusable gateway o =
    (gateway.is_nonce_used o.owner o.action.nonce ≡ false)
    × (ltb_ℤ o.action.expiry (pos gateway.latest_block.timestamp) ≡ true)
    × ((b : WithdrawalPinnedBlock) × (gateway.block_by_number gateway.latest_block.number ≡ some b)
        × (same_hash b.hash gateway.latest_block.hash ≡ true))

and_parts : (a b : Bool) → (a && b) ≡ true → (a ≡ true) × (b ≡ true)
and_parts true b h = (refl, h)
and_parts false b h = cc

still_latest-found :
    (b : Option WithdrawalPinnedBlock) (latest : WithdrawalPinnedBlock)
    → still_latest b latest ≡ true
    → (c : WithdrawalPinnedBlock) × (b ≡ some c) × (same_hash c.hash latest.hash ≡ true)
still_latest-found none latest h = cc
still_latest-found (some c) latest h = (c, refl, h)

not-true : (b : Bool) → not b ≡ true → b ≡ false
not-true true h = cc
not-true false h = refl

unusable-IsUnusable :
    (gateway : WithdrawalGateway) (o : WithdrawalOperation)
    → unusable gateway o ≡ true
    → IsUnusable gateway o
unfolding unusable
unusable-IsUnusable gateway o h =
    let (first, canonical) = and_parts _ _ h in
    let (unused, late) = and_parts _ _ first in
    (not-true _ unused, late, still_latest-found _ gateway.latest_block canonical)

-- The doubt about an operation ends only with proof. If an exact transaction used its nonce, it gets
-- that hash, and has ended if that transaction has a receipt; otherwise it is submitted and the
-- executor is paused for it. If none did, it is expired only if its nonce is unused in a canonical
-- block past the action's expiry; otherwise it is unknown and the executor is paused for it.
pub reconcile_unknown_needs_proof :
    (gateway : WithdrawalGateway) (now : ℕ) (o : WithdrawalOperation) (e : WithdrawalEngine)
    → let (e', o') = reconcile_unknown gateway now o e in
      ((u : WithdrawalNonceUse) × (action_use gateway o ≡ some u) × Found gateway u (e', o'))
      ⊎ (((action_use gateway o ≡ none)
            × IsUnusable gateway o
            × (o'.status ≡ WithdrawalStatus.expired))
          ⊎ ((action_use gateway o ≡ none)
              × (o'.status ≡ WithdrawalStatus.unknown)
              × IsPaused o.id e'))
unfolding reconcile_unknown expired_unexecuted outcome_unknown
reconcile_unknown_needs_proof gateway now o e = elim (Option-cases (action_use gateway o)) [
  | inr (u, f) ↦
      let e' = release broadcast_without_hash (save (attributed u o) e) in
      inl (u, f, rw (reconcile_unknown, f) (attributed-Found gateway now u o e'))
  | inl f ↦ elim (Bool-cases (unusable gateway o)) [
    | inl g ↦ inr (inl (f, unusable-IsUnusable gateway o g, rw (reconcile_unknown, f, g) refl))
    | inr g ↦
        let o' = outcome_unknown (gateway.is_nonce_used o.owner o.action.nonce) o in
        inr (
          inr (
            f,
            rw (reconcile_unknown, f, g) refl,
            rw (reconcile_unknown, f, g) (pause-IsPaused o.id (save o' e)),
          ))
  ]
]
