-- ===== src/Withdrawal/Once.antt =====
-- services/rfq-engine/src/withdrawal.ts: how often an operation is sent.
pub mod Sending
pub mod Tasks
pub mod Reachability
use derive_docs.Base.{
  ℕ, ◌≡◌, refl, inl, inr, Bool, true, false, contains, List, [], ◌∷◌, ◌++◌, Option, none, some,
  if◌then◌else◌, ◌==◌, ◌+◌, ◌≤◌, ◌<◌, arith, Option-cases, Bool-cases, Result-cases, ok, err,
}
use derive_docs.Base.Int.{ℤ}
use derive_docs.Base.Map.{Map, lookup, insert, lookup-insert}
use derive_docs.Rfq.Types.{Hex, ReceiptStatus}
use derive_docs.Rfq.Submitter.{OperationId, withdrawal_operation, broadcast_without_hash}
use derive_docs.Withdrawal.Types.{WithdrawalStatus, WithdrawalOperation}
use derive_docs.Withdrawal.Store.{put, get}
use derive_docs.Withdrawal.Gateway.{WithdrawalGateway}
use derive_docs.Withdrawal.State.{
  WithdrawalEngine, status_is, save, pause, pause_operation, release, release_transaction, adopt,
}
use derive_docs.Withdrawal.Reconcile.{
  settled_by, reconcile_submitted, pause_if_submitted, attributed, expired_unexecuted,
  outcome_unknown, reconcile_unknown, action_use, unusable,
}

-- How often the operation is queued.
abbrev pub queued : ℕ → List (ℕ × Hex) → ℕ
queued id [] = 0
queued id ((i, signature) ∷ tasks) = (if i == id then 1 else 0) + queued id tasks

-- How often the operation was sent.
abbrev pub sends : ℕ → List ℕ → ℕ
sends id [] = 0
sends id (i ∷ is_) = (if i == id then 1 else 0) + sends id is_

abbrev pub Begun : Option WithdrawalOperation → Type 0
Begun none = ⊥
Begun (some o) = status_is o.status WithdrawalStatus.prepared ≡ false

-- An operation is waiting in a `submit`, queued or sent, in all at most once; if it was queued or sent
-- it is no longer prepared, and while it waits it is claimed.
pub record IsOnceIn (operations : Map WithdrawalOperation) (claims : List ℕ)
    (awaiting tasks : List (ℕ × Hex)) (sent : List ℕ) : Type 0 where
  pub keyed : (id : ℕ) (o : WithdrawalOperation) → lookup id operations ≡ some o → o.id ≡ id
  pub once : (id : ℕ) → queued id awaiting + (queued id tasks + sends id sent) ≤ 1
  pub begun : (id : ℕ) → 0 < queued id tasks + sends id sent → Begun (lookup id operations)
  pub claimed : (id : ℕ) → contains id claims ≡ false → queued id awaiting ≡ 0

abbrev pub IsOnce : WithdrawalEngine → Type 0
IsOnce e = IsOnceIn e.store.operations e.submit_claims e.awaiting e.scheduled e.broadcasts

pub save-IsOnce :
    (o : WithdrawalOperation) (e : WithdrawalEngine)
    → status_is o.status WithdrawalStatus.prepared ≡ false
    → IsOnce e
    → IsOnce (save o e)
unfolding save put
save-IsOnce o e begun v = record {
  keyed = λ id p h. ground (arith, lookup-insert id o.id o e.store.operations, v.keyed id p);
  once = v.once;
  begun = λ id h. elim (Bool-cases (o.id == id)) [
    | inl same ↦ rw (lookup-insert id o.id o e.store.operations, same) begun
    | inr other ↦ rw (lookup-insert id o.id o e.store.operations, other) (v.begun id h)
  ];
  claimed = v.claimed;
}

-- The operation is past preparation.
abbrev pub HasBegun : WithdrawalOperation → Type 0
HasBegun o = status_is o.status WithdrawalStatus.prepared ≡ false

settled_by-HasBegun :
    (now : ℕ) (status : ReceiptStatus) (block : Option ℤ) (o : WithdrawalOperation)
    → HasBegun (settled_by now status block o)
unfolding settled_by
settled_by-HasBegun now ReceiptStatus.success block o = refl
settled_by-HasBegun now ReceiptStatus.reverted block o = refl

pub reconcile_submitted-IsOnce :
    (gateway : WithdrawalGateway) (now : ℕ) (o : WithdrawalOperation) (e : WithdrawalEngine)
    → IsOnce e
    → IsOnce (reconcile_submitted gateway now o e).0
unfolding reconcile_submitted adopt release_transaction
reconcile_submitted-IsOnce gateway now o e v = elim (Option-cases o.tx_hash) [
  | inl f ↦ rw (reconcile_submitted, f) v
  | inr (h, f) ↦ elim (Option-cases (gateway.receipt h)) [
    | inl g ↦ rw (reconcile_submitted, f, g) v
    | inr (r, g) ↦
        let o' = settled_by now r.status (some r.block_number) o in
        rw (reconcile_submitted, f, g)
          (save-IsOnce o' e (settled_by-HasBegun now r.status (some r.block_number) o) v)
  ]
]

pause_if_submitted-IsOnce :
    (status : WithdrawalStatus) (r : WithdrawalEngine × WithdrawalOperation)
    → IsOnce r.0
    → IsOnce (pause_if_submitted status r).0
unfolding pause_operation
pause_if_submitted-IsOnce WithdrawalStatus.submitted (e, o) v = v
pause_if_submitted-IsOnce _ r v = v

pub reconcile_unknown-IsOnce :
    (gateway : WithdrawalGateway) (now : ℕ) (o : WithdrawalOperation) (e : WithdrawalEngine)
    → IsOnce e
    → IsOnce (reconcile_unknown gateway now o e).0
unfolding reconcile_unknown attributed expired_unexecuted outcome_unknown pause_operation release
reconcile_unknown-IsOnce gateway now o e v = elim (Option-cases (action_use gateway o)) [
  | inr (u, f) ↦
      let o' = attributed u o in
      let e' = release broadcast_without_hash (save o' e) in
      rw (reconcile_unknown, f)
        (pause_if_submitted-IsOnce _ (reconcile_submitted gateway now o' e')
          (reconcile_submitted-IsOnce gateway now o' e' (save-IsOnce o' e refl v)))
  | inl f ↦ elim (Bool-cases (unusable gateway o)) [
    | inl g ↦ rw (reconcile_unknown, f, g) (save-IsOnce (expired_unexecuted o) e refl v)
    | inr g ↦
        let o' = outcome_unknown (gateway.is_nonce_used o.owner o.action.nonce) o in
        rw (reconcile_unknown, f, g) (save-IsOnce o' e refl v)
  ]
]
