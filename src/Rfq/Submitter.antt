-- ===== src/Rfq/Submitter.antt =====
-- services/rfq-engine/src/chain.ts: the latches of `ViemTxSubmitter`, which keep the one executor
-- wallet from writing while an earlier transaction is unaccounted for. What the node answers to a
-- write is a parameter.
pub mod FailClosed
pub mod Reconcile
pub mod Attribution
use derive_docs.Base.{
  ℕ, ◌≡◌, Bool, true, false, not, ◌||◌, List, [], ◌∷◌, ◌++◌, Option, none, some, ◌==◌,
  if◌then◌else◌, Result, ok, err, filter,
}
use derive_docs.Base.Int.{ℤ}
use derive_docs.Base.Text.{text_eq, to_lower}
use derive_docs.Rfq.Types.{Hex, ReceiptStatus}

-- What the executor's writes are paused for: an RFQ, a withdrawal, a broadcast that left no hash, or
-- two transactions without a receipt.
pub data OperationId : Type 0 where
  rfq_operation withdrawal_operation : ℕ → OperationId
  broadcast_without_hash multiple_unresolved : OperationId

abbrev pub operation_eq : OperationId → OperationId → Bool
operation_eq (rfq_operation a) (rfq_operation b) = a == b
operation_eq (withdrawal_operation a) (withdrawal_operation b) = a == b
operation_eq broadcast_without_hash broadcast_without_hash = true
operation_eq multiple_unresolved multiple_unresolved = true
operation_eq _ _ = false

abbrev pub has_operation : OperationId → List OperationId → Bool
has_operation o [] = false
has_operation o (x ∷ xs) = operation_eq x o || has_operation o xs

pub record Latches : Type 0 where
  pub unknown_operations : List OperationId
  pub unresolved_tx : Option Hex

-- `a.toLowerCase() === b.toLowerCase()`
abbrev pub same_hash : Hex → Hex → Bool
same_hash a b = text_eq (to_lower a) (to_lower b)

-- `pauseForUnknownOperation`
unfoldable pub pause_for_unknown_operation : OperationId → Latches → Latches
pause_for_unknown_operation o l =
    if has_operation o l.unknown_operations
    then l
    else record l { unknown_operations = l.unknown_operations ++ o ∷ [] }

-- `clearUnknownOperation`
unfoldable pub clear_unknown_operation : OperationId → Latches → Latches
clear_unknown_operation o l = record l {
  unknown_operations = filter (λ x. not (operation_eq x o)) l.unknown_operations;
}

-- `clearUnresolvedTransaction`
unfoldable pub clear_unresolved_transaction : Hex → Latches → Latches
clear_unresolved_transaction tx_hash l = elim l.unresolved_tx [
  | none ↦ l
  | some h ↦ if same_hash h tx_hash then record l { unresolved_tx = none } else l
]

-- `adoptUnresolvedTransaction`
unfoldable pub adopt_unresolved_transaction : Hex → Latches → Latches
unfolding pause_for_unknown_operation
adopt_unresolved_transaction tx_hash l = elim l.unresolved_tx [
  | none ↦ record l { unresolved_tx = some tx_hash }
  | some h ↦ if same_hash h tx_hash then l else pause_for_unknown_operation multiple_unresolved l
]

pub record SubmitResult : Type 0 where
  pub tx_hash : Hex
  pub status : ReceiptStatus
  pub block_number : Option ℤ

-- What the receipt of a transaction says.
pub record TransactionReceipt : Type 0 where
  pub status : ReceiptStatus
  pub block_number : ℤ
  pub block_hash : Hex

-- How a write ends: the broadcast call fails, or it returns a hash. Then it matters whether the callback
-- that makes the hash durable succeeds, whether the wait for the receipt returns one, and which hash
-- the block with the receipt's number has, if it can be read.
pub data Outcome : Type 0 where
  broadcast_failed : Outcome
  broadcast_returned :
      Hex
      → (durable : Bool) → (receipt : Option TransactionReceipt) → (canonical : Option Hex)
      → Outcome

-- The errors of a write: the first two are raised before anything is broadcast.
pub data ExecutorError : Type 0 where
  unresolved_transaction : Hex → ExecutorError
  unresolved_operations : List OperationId → ExecutorError
  broadcast_unknown : ExecutorError
  receipt_unresolved : Hex → ExecutorError

-- The receipt, if the inner `try` of `submit` does not throw.
abbrev pub canonical_receipt :
    Bool → Option TransactionReceipt → Option Hex → Option TransactionReceipt
canonical_receipt false receipt canonical = none
canonical_receipt true none canonical = none
canonical_receipt true (some receipt) none = none
canonical_receipt true (some receipt) (some hash) =
    if same_hash hash receipt.block_hash then some receipt else none

-- `submit`
unfoldable pub submit : Outcome → Latches → Latches × Result ExecutorError SubmitResult
unfolding pause_for_unknown_operation
submit broadcast_failed l =
    (pause_for_unknown_operation broadcast_without_hash l, err broadcast_unknown)
submit (broadcast_returned tx_hash durable receipt canonical) l =
    elim (canonical_receipt durable receipt canonical) [
      | none ↦ (record l { unresolved_tx = some tx_hash }, err (receipt_unresolved tx_hash))
      | some r ↦ (
        l,
        ok (record { tx_hash = tx_hash; status = r.status; block_number = some r.block_number }),
      )
    ]

-- `serializeWrite` around `submit`: nothing is sent while a latch is set.
unfoldable pub submit_verify_and_match :
    Outcome → Latches → Latches × Result ExecutorError SubmitResult
unfolding submit
submit_verify_and_match outcome l = elim l.unresolved_tx [
  | some h ↦ (l, err (unresolved_transaction h))
  | none ↦ elim l.unknown_operations [
    | [] ↦ submit outcome l
    | o ∷ os ↦ (l, err (unresolved_operations (o ∷ os)))
  ]
]
