-- ===== src/Rfq/Submitter/Attribution.antt =====
-- services/rfq-engine/src/chain.ts: the answers of `reconcileVerifyAndMatch` and what the node
-- reports.
use derive_docs.Base.{
  ◌≡◌, refl, ◌⊎◌, inl, inr, true, false, List, [], ◌∷◌, Option, none, some, arith, ok, Option-cases,
  Bool-cases, Result-cases,
}
use derive_docs.Base.Int.{ltb_ℤ}
use derive_docs.Rfq.Types.{Hex, RfqExecutionIntent}
use derive_docs.Rfq.Store.Index.{In}
use derive_docs.Rfq.Submitter.{SubmitResult, same_hash}
use derive_docs.Rfq.Submitter.Reconcile.{
  Receipt, ReceiptRead, found, not_found, failed, Transaction, Block, Node, Answer, pending,
  expired_unused, mined, targets, result_of, hashes_using, only_result, keep, attributed_result,
  exact_canonical_result, exact_results, search_result, known_result, nonce_of, if_unused,
  unused_or_pending, reconcile_verify_and_match,
}

module _ (node : Node) where
  -- A transaction that the executor sent to Matching with the calldata of this hash, whose receipt
  -- lies in the canonical block of its number, and the result that the receipt tells.
  pub record IsExecution (tx_hash calldata_hash : Hex) (result : SubmitResult) : Type 0 where
    pub receipt : Receipt
    pub mined_in : Hex
    pub transaction : Transaction
    pub received : node.receipt tx_hash ≡ found receipt
    pub block : node.block_hash receipt.block_number ≡ some mined_in
    pub canonical : same_hash mined_in receipt.block_hash ≡ true
    pub sent : node.transaction tx_hash ≡ some transaction
    pub by_executor : same_hash transaction.sender node.executor ≡ true
    pub to_matching : targets transaction.target node.matching ≡ true
    pub calldata : same_hash (node.keccak256 transaction.input) calldata_hash ≡ true
    pub told : result ≡ result_of tx_hash receipt

  ReceiptRead-cases :
      (r : ReceiptRead) → (r ≡ not_found) ⊎ ((r ≡ failed) ⊎ ((x : Receipt) × (r ≡ found x)))
  ReceiptRead-cases (found x) = inr (inr (x, refl))
  ReceiptRead-cases not_found = inl refl
  ReceiptRead-cases failed = inr (inl refl)

  attributed-IsExecution :
      (tx_hash calldata_hash : Hex) (r : Receipt) (hash : Hex) (result : SubmitResult)
      → node.receipt tx_hash ≡ found r
      → node.block_hash r.block_number ≡ some hash
      → same_hash hash r.block_hash ≡ true
      → attributed_result node tx_hash calldata_hash r ≡ ok (some result)
      → IsExecution tx_hash calldata_hash result
  unfolding attributed_result
  attributed-IsExecution tx_hash calldata_hash r hash result received block canonical h =
      elim (Option-cases (node.transaction tx_hash)) [
        | inl e ↦ absurd (ground arith)
        | inr (t, e) ↦ record {
          receipt = r;
          mined_in = hash;
          transaction = t;
          received = received;
          block = block;
          canonical = canonical;
          sent = e;
          by_executor = ground arith;
          to_matching = ground arith;
          calldata = ground arith;
          told = ground arith;
        }
      ]

  exact-IsExecution :
      (tx_hash calldata_hash : Hex) (result : SubmitResult)
      → exact_canonical_result node tx_hash calldata_hash ≡ ok (some result)
      → IsExecution tx_hash calldata_hash result
  unfolding exact_canonical_result
  exact-IsExecution tx_hash calldata_hash result h =
      elim (ReceiptRead-cases (node.receipt tx_hash)) [
        | inl e ↦ absurd (ground arith)
        | inr (inl e) ↦ absurd (ground arith)
        | inr (inr (r, e)) ↦ elim (Option-cases (node.block_hash r.block_number)) [
          | inl f ↦ absurd (ground arith)
          | inr (hash, f) ↦ elim (Bool-cases (same_hash hash r.block_hash)) [
            | inr g ↦ absurd (ground arith)
            | inl g ↦
                attributed-IsExecution tx_hash calldata_hash r hash result e f g
                  (rw (exact_canonical_result, e, f, g) at h)
          ]
        ]
      ]

  -- Some transaction is the execution with this result.
  abbrev pub Executed : Hex → SubmitResult → Type 0
  Executed calldata_hash result = (tx_hash : Hex) × IsExecution tx_hash calldata_hash result

  results-Executed :
      (calldata_hash : Hex) (hs : List Hex) (rs : List SubmitResult) (result : SubmitResult)
      → exact_results node calldata_hash hs ≡ ok rs
      → In result rs
      → Executed calldata_hash result
  unfolding exact_results
  results-Executed calldata_hash [] rs result h i =
      let nothing : [] ≡ rs = ground arith in absurd (rw (← nothing) at i)
  results-Executed calldata_hash (x ∷ hs) rs result h i =
      elim (Result-cases (exact_canonical_result node x calldata_hash)) [
        | inr (error, e) ↦ absurd (ground arith)
        | inl (r, e) ↦ elim (Result-cases (exact_results node calldata_hash hs)) [
          | inr (error, f) ↦ absurd (ground arith)
          | inl (ss, f) ↦
              let same : keep r ss ≡ rs = ground arith in
              kept r ss e (results-Executed calldata_hash hs ss result f) (rw (← same) at i)
        ]
      ]
    where
      kept :
          (r : Option SubmitResult) (ss : List SubmitResult)
          → exact_canonical_result node x calldata_hash ≡ ok r
          → (In result ss → Executed calldata_hash result)
          → In result (keep r ss)
          → Executed calldata_hash result
      kept none ss e rest i = rest i
      kept (some r) ss e rest (inl here) =
          (x, exact-IsExecution x calldata_hash result (rw (e, here)))
      kept (some r) ss e rest (inr later) = rest later

  only_result-In :
      (rs : List SubmitResult) (result : SubmitResult)
      → only_result rs ≡ ok (some result)
      → In result rs
  unfolding only_result
  only_result-In [] result h = absurd (ground arith)
  only_result-In (r ∷ []) result h = inl (ground arith)
  only_result-In (r ∷ s ∷ rs) result h = absurd (ground arith)

  search-Executed :
      (request : RfqExecutionIntent) (result : SubmitResult)
      → search_result node request ≡ ok (some result)
      → Executed request.calldata_hash result
  unfolding search_result
  search-Executed request result h =
      let first = request.maker_identity in
      elim (Option-cases (node.nonce_events first.target first.owner request.from_block)) [
        | inl e ↦ absurd (ground arith)
        | inr (logs, e) ↦
            let hs = hashes_using first.nonce logs [] in
            elim (Result-cases (exact_results node request.calldata_hash hs)) [
              | inr (error, f) ↦ absurd (ground arith)
              | inl (rs, f) ↦
                  results-Executed request.calldata_hash hs rs result f
                    (only_result-In rs result (rw (search_result, e, f) at h))
            ]
      ]

  known-Executed :
      (request : RfqExecutionIntent) (result : SubmitResult)
      → known_result node request ≡ ok (some result)
      → Executed request.calldata_hash result
  unfolding known_result
  known-Executed request result h = elim (Option-cases request.tx_hash) [
    | inl e ↦ search-Executed request result (rw (known_result, e) at h)
    | inr (x, e) ↦ (x, exact-IsExecution x request.calldata_hash result (rw (known_result, e) at h))
  ]

  -- Both actions have expired at the block, and neither nonce is used in it.
  abbrev pub Unusable : RfqExecutionIntent → Block → Type 0
  Unusable request b =
      (ltb_ℤ request.maker_identity.expiry b.timestamp ≡ true)
      × (ltb_ℤ request.taker_identity.expiry b.timestamp ≡ true)
      × (nonce_of node request.maker_identity b ≡ some false)
      × (nonce_of node request.taker_identity b ≡ some false)

  -- What the node must have reported for an answer.
  abbrev pub Justified : RfqExecutionIntent → Answer → Type 0
  Justified request (mined result) = Executed request.calldata_hash result
  Justified request expired_unused =
      (known_result node request ≡ ok none)
      × ((b : Block) × (node.latest ≡ some b) × Unusable request b)
  Justified request pending = known_result node request ≡ ok none

  unused-Unusable :
      (request : RfqExecutionIntent) (b : Block)
      → unused_or_pending node request b ≡ ok expired_unused
      → Unusable request b
  unfolding unused_or_pending if_unused
  unused-Unusable request b h = elim (Option-cases (nonce_of node request.maker_identity b)) [
    | inl e ↦ absurd (ground arith)
    | inr (u, e) ↦ elim (Option-cases (nonce_of node request.taker_identity b)) [
      | inl f ↦ absurd (ground arith)
      | inr (w, f) ↦ (ground arith, ground arith, ground arith, ground arith)
    ]
  ]

  unused-not_mined :
      (request : RfqExecutionIntent) (b : Block) (result : SubmitResult)
      → unused_or_pending node request b ≡ ok (mined result)
      → ⊥
  unfolding unused_or_pending if_unused
  unused-not_mined request b result h =
      elim (Option-cases (nonce_of node request.maker_identity b)) [
        | inl e ↦ ground arith
        | inr (u, e) ↦ elim (Option-cases (nonce_of node request.taker_identity b)) [
          | inl f ↦ ground arith
          | inr (w, f) ↦ ground arith
        ]
      ]

  late-Justified :
      (request : RfqExecutionIntent) (b : Block) (answer : Answer)
      → known_result node request ≡ ok none
      → node.latest ≡ some b
      → unused_or_pending node request b ≡ ok answer
      → Justified request answer
  late-Justified request b pending none_found l h = none_found
  late-Justified request b expired_unused none_found l h =
      (none_found, (b, l, unused-Unusable request b h))
  late-Justified request b (mined result) none_found l h =
      absurd (unused-not_mined request b result h)

  -- Each answer of `reconcileVerifyAndMatch` is justified by what the node reports: `mined` by a
  -- transaction of the executor to Matching with the persisted calldata in a canonical block, whose
  -- receipt the result repeats; `expired-unused` by the latest block, at which both actions have
  -- expired and neither nonce is used, no execution having been found; `pending` by finding none.
  pub reconcile_verify_and_match-Justified :
      (request : RfqExecutionIntent) (answer : Answer)
      → reconcile_verify_and_match node request ≡ ok answer
      → Justified request answer
  unfolding reconcile_verify_and_match
  reconcile_verify_and_match-Justified request answer h =
      elim (Result-cases (known_result node request)) [
        | inr (error, e) ↦ absurd (ground arith)
        | inl (result, e) ↦ elim (Option-cases result) [
          | inr (r, f) ↦
              let is_mined : answer ≡ mined r = ground arith in
              rw is_mined (known-Executed request r (rw (e, f)))
          | inl f ↦ elim (Option-cases node.latest) [
            | inl l ↦ absurd (ground arith)
            | inr (b, l) ↦ late-Justified request b answer (rw (e, f)) l (ground arith)
          ]
        ]
      ]
