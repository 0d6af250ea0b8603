-- ===== src/Rfq/Stored/Rfqs.antt =====
-- services/rfq-engine/src/store.ts: RFQ records to and from their stored form.
use mathlib.Core.Option
use derive_docs.Base.{some, Option}
use derive_docs.Base.Decimal.{big_int, to_string}
use derive_docs.Rfq.Stored.Schema.{
  StoredInstrument, StoredFill, StoredRfqActionIdentity, StoredExecution, StoredIntent, StoredRfq,
}
use derive_docs.Rfq.Stored.Parsing.{traverse, ◌>>=◌}
use derive_docs.Rfq.Types.{
  Instrument, RfqActionIdentity, FillSummary, RfqExecutionIntent, ExecutionResult, Rfq,
}

unfoldable pub fill_to_stored : FillSummary → StoredFill
fill_to_stored f = record {
  rfq_id = f.rfq_id;
  quote_id = f.quote_id;
  instrument = f.instrument;
  maker = f.maker;
  maker_subaccount_id = to_string f.maker_subaccount_id;
  taker_subaccount_id = to_string f.taker_subaccount_id;
  amount = to_string f.amount;
  premium = to_string f.premium;
  total_premium = to_string f.total_premium;
  maker_fee = to_string f.maker_fee;
  taker_fee = to_string f.taker_fee;
}

unfoldable pub fill_from_stored : StoredFill → Option FillSummary
fill_from_stored f = do
  maker_subaccount_id ← big_int f.maker_subaccount_id
  taker_subaccount_id ← big_int f.taker_subaccount_id
  amount ← big_int f.amount
  premium ← big_int f.premium
  total_premium ← big_int f.total_premium
  maker_fee ← big_int f.maker_fee
  taker_fee ← big_int f.taker_fee
  some (record {
    rfq_id = f.rfq_id;
    quote_id = f.quote_id;
    instrument = f.instrument;
    maker = f.maker;
    maker_subaccount_id = maker_subaccount_id;
    taker_subaccount_id = taker_subaccount_id;
    amount = amount;
    premium = premium;
    total_premium = total_premium;
    maker_fee = maker_fee;
    taker_fee = taker_fee;
  })

unfoldable pub action_identity_to_stored : RfqActionIdentity → StoredRfqActionIdentity
action_identity_to_stored a = record {
  subaccount_id = to_string a.subaccount_id;
  nonce = to_string a.nonce;
  target = a.target;
  expiry = to_string a.expiry;
  owner = a.owner;
  signer = a.signer;
  data_hash = a.data_hash;
}

unfoldable pub action_identity_from_stored : StoredRfqActionIdentity → Option RfqActionIdentity
action_identity_from_stored a = do
  subaccount_id ← big_int a.subaccount_id
  nonce ← big_int a.nonce
  expiry ← big_int a.expiry
  some (record {
    subaccount_id = subaccount_id;
    nonce = nonce;
    target = a.target;
    expiry = expiry;
    owner = a.owner;
    signer = a.signer;
    data_hash = a.data_hash;
  })

unfoldable pub instrument_to_stored : Instrument → StoredInstrument
instrument_to_stored i = record {
  currency = i.currency;
  option_asset = i.option_asset;
  expiry = to_string i.expiry;
  strike = to_string i.strike;
  is_call = i.is_call;
  sub_id = to_string i.sub_id;
  name = i.name;
}

unfoldable pub instrument_from_stored : StoredInstrument → Option Instrument
instrument_from_stored i = do
  expiry ← big_int i.expiry
  strike ← big_int i.strike
  sub_id ← big_int i.sub_id
  some (record {
    currency = i.currency;
    option_asset = i.option_asset;
    expiry = expiry;
    strike = strike;
    is_call = i.is_call;
    sub_id = sub_id;
    name = i.name;
  })

unfoldable pub execution_to_stored : ExecutionResult → StoredExecution
execution_to_stored e = record {
  tx_hash = e.tx_hash;
  status = e.status;
  block_number = Option.map to_string e.block_number;
  fill = fill_to_stored e.fill;
}

unfoldable pub execution_from_stored : StoredExecution → Option ExecutionResult
execution_from_stored e = do
  block_number ← traverse big_int e.block_number
  fill ← fill_from_stored e.fill
  some (record { tx_hash = e.tx_hash; status = e.status; block_number = block_number; fill = fill })

unfoldable pub intent_to_stored : RfqExecutionIntent → StoredIntent
intent_to_stored i = record {
  maker_identity = action_identity_to_stored i.maker_identity;
  taker_identity = action_identity_to_stored i.taker_identity;
  calldata_hash = i.calldata_hash;
  from_block = to_string i.from_block;
  tx_hash = i.tx_hash;
  fill = fill_to_stored i.fill;
}

unfoldable pub intent_from_stored : StoredIntent → Option RfqExecutionIntent
intent_from_stored i = do
  maker_identity ← action_identity_from_stored i.maker_identity
  taker_identity ← action_identity_from_stored i.taker_identity
  from_block ← big_int i.from_block
  fill ← fill_from_stored i.fill
  some (record {
    maker_identity = maker_identity;
    taker_identity = taker_identity;
    calldata_hash = i.calldata_hash;
    from_block = from_block;
    tx_hash = i.tx_hash;
    fill = fill;
  })

unfoldable pub rfq_to_stored : Rfq → StoredRfq
rfq_to_stored r = record {
  id = r.id;
  taker_subaccount_id = to_string r.taker_subaccount_id;
  instrument = instrument_to_stored r.instrument;
  amount = to_string r.amount;
  direction = r.direction;
  created_at = r.created_at;
  auction_ends_at = r.auction_ends_at;
  accept_deadline_at = r.accept_deadline_at;
  status = r.status;
  best_quote_id = r.best_quote_id;
  execution = Option.map execution_to_stored r.execution;
  execution_intent = Option.map intent_to_stored r.execution_intent;
  error = r.error;
}

unfoldable pub rfq_from_stored : StoredRfq → Option Rfq
rfq_from_stored s = do
  taker_subaccount_id ← big_int s.taker_subaccount_id
  instrument ← instrument_from_stored s.instrument
  amount ← big_int s.amount
  execution ← traverse execution_from_stored s.execution
  execution_intent ← traverse intent_from_stored s.execution_intent
  some (record {
    id = s.id;
    taker_subaccount_id = taker_subaccount_id;
    instrument = instrument;
    amount = amount;
    direction = s.direction;
    created_at = s.created_at;
    auction_ends_at = s.auction_ends_at;
    accept_deadline_at = s.accept_deadline_at;
    status = s.status;
    best_quote_id = s.best_quote_id;
    execution = execution;
    execution_intent = execution_intent;
    error = s.error;
  })
