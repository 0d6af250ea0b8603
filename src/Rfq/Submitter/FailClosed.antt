-- ===== src/Rfq/Submitter/FailClosed.antt =====
-- services/rfq-engine/src/chain.ts: the writes of the executor wallet and its latches.
use derive_docs.Base.{
  ℕ, ◌≡◌, ◌≢◌, sym, ◌∙◌, err, Option-cases, Bool-cases, false, refl, ◌⊎◌, inl, inr, Bool, true,
  List, [], ◌∷◌, Option, none, some, arith, Result, ok,
}
use derive_docs.Base.Text.{text_eq_iff, to_lower}
use derive_docs.Rfq.Types.{Hex}
use derive_docs.Rfq.Executor.{arm_execution_recovery, clear_execution_recovery}
use derive_docs.Rfq.Submitter.{
  OperationId, rfq_operation, withdrawal_operation, broadcast_without_hash, multiple_unresolved,
  operation_eq, Latches, Outcome, broadcast_failed, broadcast_returned, TransactionReceipt,
  same_hash, ExecutorError, SubmitResult, receipt_unresolved, submit, submit_verify_and_match,
  pause_for_unknown_operation, clear_unknown_operation, clear_unresolved_transaction,
  adopt_unresolved_transaction,
}

-- The wallet may write: nothing is unaccounted for.
abbrev pub IsFree : Latches → Type 0
IsFree l = (l.unresolved_tx ≡ none) × (l.unknown_operations ≡ [])

pub operation_eq_refl : (o : OperationId) → operation_eq o o ≡ true
operation_eq_refl (rfq_operation a) = ground arith
operation_eq_refl (withdrawal_operation a) = ground arith
operation_eq_refl broadcast_without_hash = refl
operation_eq_refl multiple_unresolved = refl

-- The write returned the receipt of a canonical block.
abbrev pub Confirmed : Result ExecutorError SubmitResult → Type 0
Confirmed r = (s : SubmitResult) × (r ≡ ok s)

-- The transaction has a receipt, its hash was made durable before, and the receipt is of the block that
-- the chain has at its number.
abbrev pub IsCanonical : Outcome → Hex → TransactionReceipt → Type 0
IsCanonical outcome tx_hash receipt =
    (hash : Hex) × (outcome ≡ broadcast_returned tx_hash true (some receipt) (some hash))
    × (to_lower hash ≡ to_lower receipt.block_hash)

true_not_false : ◌≢◌ {A = Bool} true false
true_not_false h = cc

-- A write's own latch.
abbrev pub IsLatchedFor : Outcome → Latches → Type 0
IsLatchedFor broadcast_failed l = (l.unknown_operations ≡ broadcast_without_hash ∷ [])
IsLatchedFor (broadcast_returned tx_hash durable receipt canonical) l =
    (l.unresolved_tx ≡ some tx_hash)

-- How a write of a free wallet ends.
abbrev pub Settles : Outcome → Latches → Latches × Result ExecutorError SubmitResult → Type 0
Settles outcome l (l', answer) =
    ((tx_hash : Hex) × (receipt : TransactionReceipt) × IsCanonical outcome tx_hash receipt
      × (l' ≡ l)
      × (answer
          ≡ ok (record {
            tx_hash = tx_hash;
            status = receipt.status;
            block_number = some receipt.block_number;
          })))
    ⊎ (¬ ((tx_hash : Hex) × (receipt : TransactionReceipt) × IsCanonical outcome tx_hash receipt))
      × IsLatchedFor outcome l'
      × (¬ Confirmed answer)

module _ (tx_hash : Hex) (receipt : TransactionReceipt) (hash : Hex) (l : Latches) where
  abbrev outcome : Outcome
  outcome = broadcast_returned tx_hash true (some receipt) (some hash)

  submit-same_block :
      same_hash hash receipt.block_hash ≡ true
      → submit outcome l ≡ (
        l,
        ok (record {
          tx_hash = tx_hash;
          status = receipt.status;
          block_number = some receipt.block_number;
        }),
      )
  unfolding submit
  submit-same_block same = rw (submit, same) refl

  submit-other_block :
      same_hash hash receipt.block_hash ≡ false
      → submit outcome l
        ≡ (record l { unresolved_tx = some tx_hash }, err (receipt_unresolved tx_hash))
  unfolding submit
  submit-other_block other = rw (submit, other) refl

  not-IsCanonical :
      same_hash hash receipt.block_hash ≡ false
      → ¬ ((h : Hex) × (r : TransactionReceipt) × IsCanonical outcome h r)
  not-IsCanonical other (h, r, (g, e, s)) =
      let same_block : to_lower hash ≡ to_lower receipt.block_hash = cc in
      let same = (text_eq_iff (to_lower hash) (to_lower receipt.block_hash)).1 same_block in cc

  submit_canonical-Settles : Settles outcome l (submit outcome l)
  submit_canonical-Settles = elim (Bool-cases (same_hash hash receipt.block_hash)) [
    | inl same ↦ rw (submit-same_block same) (
        inl (
          tx_hash,
          receipt,
          (hash, refl, (text_eq_iff (to_lower hash) (to_lower receipt.block_hash)).0 same),
          refl,
          refl,
        ))
    | inr other ↦ rw (submit-other_block other) (inr (not-IsCanonical other, refl, λ (s, e). cc))
  ]

submit-Settles : (outcome : Outcome) (l : Latches) → IsFree l → Settles outcome l (submit outcome l)
unfolding submit pause_for_unknown_operation
submit-Settles broadcast_failed l (no_tx, no_op) =
    inr (λ (h, r, (hash, e, s)). cc, ground arith, λ (s, e). cc)
submit-Settles (broadcast_returned h false receipt canonical) l free =
    inr (λ (h, r, (hash, e, s)). cc, refl, λ (s, e). cc)
submit-Settles (broadcast_returned h true none canonical) l free =
    inr (λ (h, r, (hash, e, s)). cc, refl, λ (s, e). cc)
submit-Settles (broadcast_returned h true (some receipt) none) l free =
    inr (λ (h, r, (hash, e, s)). cc, refl, λ (s, e). cc)
submit-Settles (broadcast_returned h true (some receipt) (some hash)) l free =
    submit_canonical-Settles h receipt hash l

List-cases :
    (xs : List OperationId)
    → (xs ≡ []) ⊎ ((x : OperationId) × (ys : List OperationId) × (xs ≡ x ∷ ys))
List-cases [] = inl refl
List-cases (x ∷ xs) = inr (x, xs, refl)

-- A wallet that is free broadcasts. If the hash was made durable and the transaction has a receipt of
-- the block that the chain has at its number, the write returns that receipt and the latches stay as
-- they are; otherwise it throws and leaves its own latch, the transaction's hash if the broadcast
-- returned one. A wallet that is not free broadcasts nothing: the write is refused and the latches stay
-- as they are.
pub submit_fails_closed :
    (outcome : Outcome) (l : Latches)
    → (IsFree l × Settles outcome l (submit_verify_and_match outcome l))
      ⊎ ((¬ IsFree l)
          × ((submit_verify_and_match outcome l).0 ≡ l)
          × ¬ Confirmed (submit_verify_and_match outcome l).1)
unfolding submit_verify_and_match
submit_fails_closed outcome l = elim (Option-cases l.unresolved_tx) [
  | inr (h, e) ↦ inr (λ f. absurd (ground arith), ground arith, λ c. absurd (ground arith))
  | inl e ↦ elim (List-cases l.unknown_operations) [
    | inl f ↦
        let open_gate : submit_verify_and_match outcome l ≡ submit outcome l = ground arith in
        inl ((e, f), rw open_gate (submit-Settles outcome l (e, f)))
    | inr (x, xs, f) ↦ inr (λ g. absurd (ground arith), ground arith, λ c. absurd (ground arith))
  ]
]

-- The recovery was armed with and is cleared with no hash, or with one hash in any case of letters.
abbrev pub IsSameHash : Option Hex → Option Hex → Type 0
IsSameHash none none = Unit
IsSameHash (some a) (some b) = to_lower a ≡ to_lower b
IsSameHash _ _ = ⊥

-- Arming the recovery of an RFQ on a free wallet pauses it. Clearing it frees the wallet again if it is
-- cleared with the hash that it was armed with, in any case of letters, or without one if it was armed
-- without; otherwise a transaction that it was armed with stays latched.
pub arm-clear :
    (rfq_id : ℕ) (armed other : Option Hex) (hashless : Bool) (l : Latches)
    → IsFree l
    → let paused = arm_execution_recovery rfq_id armed l in
      let cleared = clear_execution_recovery rfq_id other hashless paused in
      (¬ IsFree paused)
      × ((IsSameHash armed other × IsFree cleared)
          ⊎ ((¬ IsSameHash armed other) × (cleared.unresolved_tx ≡ armed)))
unfolding arm_execution_recovery clear_execution_recovery pause_for_unknown_operation
    adopt_unresolved_transaction clear_unknown_operation clear_unresolved_transaction
arm-clear rfq_id none none hashless l (no_tx, no_op) =
    (λ f. absurd (ground arith), inl (tt, ground arith))
arm-clear rfq_id none (some g) hashless l (no_tx, no_op) =
    (λ f. absurd (ground arith), inr (λ s. s, ground arith))
arm-clear rfq_id (some a) none hashless l (no_tx, no_op) =
    (λ f. absurd (ground arith), inr (λ s. s, ground arith))
arm-clear rfq_id (some a) (some b) hashless l (no_tx, no_op) = elim (Bool-cases (same_hash a b)) [
  | inl same ↦ (
    λ f. absurd (ground arith),
    inl ((text_eq_iff (to_lower a) (to_lower b)).0 same, ground arith),
  )
  | inr differ ↦ (
    λ f. absurd (ground arith),
    inr (
      λ s. absurd (true_not_false (sym ((text_eq_iff (to_lower a) (to_lower b)).1 s) ∙ differ)),
      ground arith,
    ),
  )
]
