-- ===== src/Rfq/Submitter/Reconcile.antt =====
-- services/rfq-engine/src/chain.ts: `reconcileVerifyAndMatch`, which finds out what became of an
-- execution without sending it again. The node's answers are a parameter.
use derive_docs.Base.{
  Bool, false, not, ◌&&◌, ◌||◌, List, [], ◌∷◌, ◌++◌, Option, none, some, if◌then◌else◌, Result, ok,
  err, ◌>>=◌, ◌>>◌, guard, or_throw,
}
use derive_docs.Base.Int.{ℤ, ltb_ℤ, ◌==ℤ◌}
use derive_docs.Base.Text.{text_eq}
use derive_docs.Rfq.Types.{Address, Hex, ReceiptStatus, RfqActionIdentity, RfqExecutionIntent}
use derive_docs.Rfq.Submitter.{SubmitResult, same_hash}

-- The parts of viem's receipts, transactions, blocks and logs that are read.
pub record Receipt : Type 0 where
  pub status : ReceiptStatus
  pub block_number : ℤ
  pub block_hash : Hex

-- An answer, the error that there is no receipt, or another error.
pub data ReceiptRead : Type 0 where
  found : Receipt → ReceiptRead
  not_found failed : ReceiptRead

pub record Transaction : Type 0 where
  pub sender : Address
  pub target : Option Address
  pub input : Hex

pub record NonceUsed : Type 0 where
  pub nonce : ℤ
  pub transaction_hash : Option Hex

pub record Block : Type 0 where
  pub number : ℤ
  pub timestamp : ℤ

-- The node, the executor's address, the Matching contract and `keccak256`; `none` is a read that
-- throws.
pub record Node : Type 0 where
  pub receipt : Hex → ReceiptRead
  pub block_hash : ℤ → Option Hex
  pub transaction : Hex → Option Transaction
  pub nonce_events : Address → Address → ℤ → Option (List NonceUsed)
  pub latest : Option Block
  pub used_nonce : Address → Address → ℤ → ℤ → Option Bool
  pub executor : Address
  pub matching : Address
  pub keccak256 : Hex → Hex

pub data ReconcileError : Type 0 where
  node_failed different_modules wrong_sender wrong_target wrong_calldata : ReconcileError
  several_transactions : ReconcileError

-- `VerifyAndMatchReconciliation`
pub data Answer : Type 0 where
  pending expired_unused : Answer
  mined : SubmitResult → Answer

-- `!transaction.to || …`, the other way round.
abbrev pub targets : Option Address → Address → Bool
targets none matching = false
targets (some to) matching = same_hash to matching

abbrev pub result_of : Hex → Receipt → SubmitResult
result_of tx_hash r = record {
  tx_hash = tx_hash;
  status = r.status;
  block_number = some r.block_number;
}

abbrev has_hash : Hex → List Hex → Bool
has_hash h [] = false
has_hash h (x ∷ xs) = text_eq x h || has_hash h xs

abbrev pub add_log : ℤ → NonceUsed → List Hex → List Hex
add_log nonce log hs = elim log.transaction_hash [
  | none ↦ hs
  | some h ↦ if log.nonce ==ℤ nonce && not (has_hash h hs) then hs ++ h ∷ [] else hs
]

-- The set of the transactions that used the nonce, in the order of the logs.
unfoldable pub hashes_using : ℤ → List NonceUsed → List Hex → List Hex
hashes_using nonce [] hs = hs
hashes_using nonce (log ∷ logs) hs = hashes_using nonce logs (add_log nonce log hs)

unfoldable pub only_result : List SubmitResult → Result ReconcileError (Option SubmitResult)
only_result [] = ok none
only_result (r ∷ []) = ok (some r)
only_result (r ∷ s ∷ rs) = err several_transactions

abbrev pub keep : Option SubmitResult → List SubmitResult → List SubmitResult
keep none rs = rs
keep (some r) rs = r ∷ rs

module _ (node : Node) where
  unfoldable pub attributed_result :
      (tx_hash calldata_hash : Hex) → Receipt → Result ReconcileError (Option SubmitResult)
  attributed_result tx_hash calldata_hash r = do
    t ← or_throw (node.transaction tx_hash) node_failed
    guard (same_hash t.sender node.executor) wrong_sender
    guard (targets t.target node.matching) wrong_target
    guard (same_hash (node.keccak256 t.input) calldata_hash) wrong_calldata
    ok (some (result_of tx_hash r))

  -- `exactCanonicalResult`
  unfoldable pub exact_canonical_result :
      (tx_hash calldata_hash : Hex) → Result ReconcileError (Option SubmitResult)
  unfolding attributed_result
  exact_canonical_result tx_hash calldata_hash = elim (node.receipt tx_hash) [
    | not_found ↦ ok none
    | failed ↦ err node_failed
    | found r ↦ elim (node.block_hash r.block_number) [
      | none ↦ err node_failed
      | some hash ↦
          if same_hash hash r.block_hash then attributed_result tx_hash calldata_hash r else ok none
    ]
  ]

  -- The results of the transactions found.
  unfoldable pub exact_results : Hex → List Hex → Result ReconcileError (List SubmitResult)
  unfolding exact_canonical_result
  exact_results calldata_hash [] = ok []
  exact_results calldata_hash (h ∷ hs) = do
    r ← exact_canonical_result h calldata_hash
    rs ← exact_results calldata_hash hs
    ok (keep r rs)

  -- A broadcast without a hash is looked for by the maker's nonce.
  unfoldable pub search_result : RfqExecutionIntent → Result ReconcileError (Option SubmitResult)
  unfolding exact_results hashes_using only_result
  search_result request = do
    let first = request.maker_identity
    logs ← or_throw (node.nonce_events first.target first.owner request.from_block) node_failed
    rs ← exact_results request.calldata_hash (hashes_using first.nonce logs [])
    only_result rs

  unfoldable pub known_result : RfqExecutionIntent → Result ReconcileError (Option SubmitResult)
  unfolding search_result exact_canonical_result
  known_result request = elim request.tx_hash [
    | none ↦ search_result request
    | some h ↦ exact_canonical_result h request.calldata_hash
  ]

  abbrev pub nonce_of : RfqActionIdentity → Block → Option Bool
  nonce_of action latest = node.used_nonce action.target action.owner action.nonce latest.number

  unfoldable pub if_unused : RfqExecutionIntent → Block → Result ReconcileError Answer
  if_unused request latest = do
    maker_used ← or_throw (nonce_of request.maker_identity latest) node_failed
    taker_used ← or_throw (nonce_of request.taker_identity latest) node_failed
    ok (if not maker_used && not taker_used then expired_unused else pending)

  unfoldable pub unused_or_pending : RfqExecutionIntent → Block → Result ReconcileError Answer
  unfolding if_unused
  unused_or_pending request latest =
      if ltb_ℤ request.maker_identity.expiry latest.timestamp
        && ltb_ℤ request.taker_identity.expiry latest.timestamp
      then if_unused request latest
      else ok pending

  -- `reconcileVerifyAndMatch`
  unfoldable pub reconcile_verify_and_match : RfqExecutionIntent → Result ReconcileError Answer
  unfolding known_result unused_or_pending
  reconcile_verify_and_match request = do
    guard (same_hash request.maker_identity.target request.taker_identity.target) different_modules
    result ← known_result request
    elim result [
      | some r ↦ ok (mined r)
      | none ↦ or_throw node.latest node_failed >>= unused_or_pending request
    ]
