-- ===== src/Rfq/Executor.antt =====
-- services/rfq-engine/src/executor.ts: the verifyAndMatch submission of a matched RFQ, the intent
-- that identifies it, and the latches that guard its recovery. ABI encoding and hashing are
-- parameters.
use derive_docs.Base.{ℕ, Bool, Option, none, some, if◌then◌else◌}
use derive_docs.Base.Int.{ℤ, pos}
use derive_docs.Rfq.Types.{
  Hex, Action, FillSummary, RfqActionIdentity, RfqExecutionIntent, Rfq, Quote,
}
use derive_docs.Rfq.Submitter.{
  Latches, rfq_operation, broadcast_without_hash, pause_for_unknown_operation,
  clear_unknown_operation, clear_unresolved_transaction, adopt_unresolved_transaction,
}

-- The arguments of `encodeRfqFillData`.
pub record RfqFillData : Type 0 where
  pub maker_account : ℤ
  pub maker_fee : ℤ
  pub taker_account : ℤ
  pub taker_fee : ℤ
  pub manager_data : Hex

-- `encodeRfqFillData`, the calldata of verifyAndMatch and `keccak256`, of viem.
pub record Encoders : Type 0 where
  pub encode_fill_data : RfqFillData → Hex
  pub encode_calldata : (maker taker : Action) → (maker_signature taker_signature : Hex) → Hex → Hex
  pub keccak256 : Hex → Hex

pub record RfqExecutionPlan : Type 0 where
  pub maker_action : Action
  pub taker_action : Action
  pub maker_signature : Hex
  pub taker_signature : Hex
  pub action_data : Hex
  pub calldata : Hex
  pub fill : FillSummary

-- `buildRfqExecution` with the defaults that the engine uses: no fees and no manager data.
unfoldable pub build_rfq_execution :
    Encoders → (no_data : Hex) → Rfq → Quote → Action → Hex → RfqExecutionPlan
build_rfq_execution enc no_data rfq quote taker_action taker_signature =
    let action_data = enc.encode_fill_data (record {
      maker_account = quote.action.subaccount_id;
      maker_fee = pos 0;
      taker_account = taker_action.subaccount_id;
      taker_fee = pos 0;
      manager_data = no_data;
    }) in
    record {
      maker_action = quote.action;
      taker_action = taker_action;
      maker_signature = quote.signature;
      taker_signature = taker_signature;
      action_data = action_data;
      calldata =
          enc.encode_calldata quote.action taker_action quote.signature taker_signature action_data;
      fill = record {
        rfq_id = rfq.id;
        quote_id = quote.id;
        instrument = rfq.instrument.name;
        maker = quote.maker;
        maker_subaccount_id = quote.action.subaccount_id;
        taker_subaccount_id = taker_action.subaccount_id;
        amount = rfq.amount;
        premium = quote.premium;
        total_premium = quote.total_premium;
        maker_fee = pos 0;
        taker_fee = pos 0;
      };
    }

identity : Encoders → Action → RfqActionIdentity
identity enc action = record {
  subaccount_id = action.subaccount_id;
  nonce = action.nonce;
  target = action.target;
  expiry = action.expiry;
  owner = action.owner;
  signer = action.signer;
  data_hash = enc.keccak256 action.call_data;
}

-- `createExecutionIntent`, at the current block.
unfoldable pub create_execution_intent : Encoders → ℤ → RfqExecutionPlan → RfqExecutionIntent
unfolding identity
create_execution_intent enc block plan = record {
  maker_identity = identity enc plan.maker_action;
  taker_identity = identity enc plan.taker_action;
  calldata_hash = enc.keccak256 plan.calldata;
  from_block = block;
  tx_hash = none;
  fill = plan.fill;
}

-- `armExecutionRecovery`
unfoldable pub arm_execution_recovery : ℕ → Option Hex → Latches → Latches
arm_execution_recovery rfq_id tx_hash l =
    let paused = pause_for_unknown_operation (rfq_operation rfq_id) l in
    elim tx_hash [ none ↦ paused | some h ↦ adopt_unresolved_transaction h paused ]

abbrev clear_tx : Option Hex → Latches → Latches
clear_tx none l = l
clear_tx (some h) l = clear_unresolved_transaction h l

-- `clearExecutionRecovery`
unfoldable pub clear_execution_recovery : ℕ → Option Hex → Bool → Latches → Latches
clear_execution_recovery rfq_id tx_hash was_hashless l =
    let cleared = clear_tx tx_hash (clear_unknown_operation (rfq_operation rfq_id) l) in
    if was_hashless then clear_unknown_operation broadcast_without_hash cleared else cleared
