-- ===== src/Rfq/Tests/Executing.antt =====
-- The theorems on executions at concrete inputs.
use derive_docs.Base.{◌≡◌, refl, [], none, some, ok}
use derive_docs.Base.Int.{pos}
use derive_docs.Base.Text.{codes, text_eq, to_lower}
use derive_docs.Rfq.Types.{ReceiptStatus, RfqActionIdentity, FillSummary, RfqExecutionIntent}
use derive_docs.Rfq.Submitter.{SubmitResult}
use derive_docs.Rfq.Submitter.Reconcile.{
  Node, found, mined, known_result, exact_canonical_result, attributed_result,
  reconcile_verify_and_match,
}
use derive_docs.Rfq.Submitter.Attribution.{Executed, reconcile_verify_and_match-Justified}
use derive_docs.Rfq.Tests.{maker, rfq_module}

abbrev action_identity : RfqActionIdentity
action_identity = record {
  subaccount_id = pos 5;
  nonce = pos 1;
  target = rfq_module;
  expiry = pos 500;
  owner = maker;
  signer = maker;
  data_hash = codes "0xaa";
}

abbrev fill : FillSummary
fill = record {
  rfq_id = 1;
  quote_id = 7;
  instrument = codes "ETH-C";
  maker = maker;
  maker_subaccount_id = pos 5;
  taker_subaccount_id = pos 8;
  amount = pos 1;
  premium = pos 40;
  total_premium = pos 40;
  maker_fee = pos 0;
  taker_fee = pos 0;
}

abbrev intent : RfqExecutionIntent
intent = record {
  maker_identity = action_identity;
  taker_identity = action_identity;
  calldata_hash = codes "0xCD";
  from_block = pos 10;
  tx_hash = some (codes "0x77");
  fill = fill;
}

-- A node that has mined the transaction in block 12.
abbrev node : Node
node = record {
  receipt = λ _.
      found (record {
        status = ReceiptStatus.success;
        block_number = pos 12;
        block_hash = codes "0xB1";
      });
  block_hash = λ _. some (codes "0xb1");
  transaction = λ _.
      some (record { sender = codes "0xEe"; target = some (codes "0x33"); input = codes "0x" });
  nonce_events = λ _ _ _. some [];
  latest = none;
  used_nonce = λ _ _ _ _. none;
  executor = codes "0xee";
  matching = codes "0x33";
  keccak256 = λ _. codes "0xcd";
}

abbrev result : SubmitResult
result = record {
  tx_hash = codes "0x77";
  status = ReceiptStatus.success;
  block_number = some (pos 12);
}

answered : reconcile_verify_and_match node intent ≡ ok (mined result)
unfolding reconcile_verify_and_match known_result exact_canonical_result attributed_result text_eq
    to_lower
answered = refl

reconcile_verify_and_match-Justified_example : Executed node (codes "0xCD") result
reconcile_verify_and_match-Justified_example =
    reconcile_verify_and_match-Justified node intent (mined result) answered
