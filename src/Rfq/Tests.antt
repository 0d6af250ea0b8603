-- ===== src/Rfq/Tests.antt =====
-- Concrete data of the RFQ engine, and its theorems at work on them in the children.
mod Quoting
mod Storing
mod Auctions
mod Reaching
mod Recovering
mod Executing
use derive_docs.Base.{ℕ, ◌+◌, Bool, true, false, List, [], ◌∷◌, Option, none, some, if◌then◌else◌}
use derive_docs.Base.Int.{ℤ, pos}
use derive_docs.Base.Text.{Text, codes, text_eq}
use derive_docs.Rfq.Types.{
  Address, Hex, Instrument, RfqDirection, RfqStatus, Rfq, Action, RfqTradeData, RfqOrder,
  TakerOrder, Quote,
}
use derive_docs.Rfq.Stored.Schema.{StoreRecord}
use derive_docs.Rfq.Quotes.{ChainReader, Viem, QuoteValidationContext, one}
use derive_docs.Rfq.Store.{Store, empty_store}
use derive_docs.Rfq.Submitter.{Latches}
use derive_docs.Rfq.Auction.State.{Engine}
use derive_docs.Rfq.Auction.Bidding.{EngineOptions, Submission}

abbrev pub maker : Address
maker = codes "0xAb"

abbrev pub rfq_module : Address
rfq_module = codes "0x11"

abbrev pub option_asset : Address
option_asset = codes "0x22"

abbrev pub instrument : Instrument
instrument = record {
  currency = codes "ETH";
  option_asset = option_asset;
  expiry = pos 2_000;
  strike = pos 3_000;
  is_call = true;
  sub_id = pos 99;
  name = codes "ETH-C";
}

abbrev pub rfq : Rfq
rfq = record {
  id = 1;
  taker_subaccount_id = pos 8;
  instrument = instrument;
  amount = one;
  direction = RfqDirection.sell;
  created_at = 1_000;
  auction_ends_at = 31_000;
  accept_deadline_at = none;
  status = RfqStatus.opened;
  best_quote_id = none;
  execution = none;
  execution_intent = none;
  error = none;
}

abbrev pub action : Action
action = record {
  subaccount_id = pos 5;
  nonce = pos 1;
  target = rfq_module;
  call_data = codes "0x";
  expiry = pos 500;
  owner = maker;
  signer = maker;
}

abbrev pub trade : RfqTradeData
trade = record { asset = option_asset; sub_id = pos 99; price = pos 40; amount = one }

abbrev pub quote_at : (id premium received_at : ℕ) → Quote
quote_at id premium received_at = record {
  id = id;
  rfq_id = 1;
  maker = maker;
  maker_subaccount_id = pos 5;
  premium = pos premium;
  total_premium = pos premium;
  trades = trade ∷ [];
  order_hash = codes "0xdd";
  action = action;
  signature = codes "0x51";
  received_at = received_at;
  reserved_cash = pos (premium + 2);
}

-- A node at which every account is the maker's, with a balance of 100 and no fee.
abbrev pub chain : ChainReader
chain = record {
  matching_owner = λ _. some maker;
  cash_balance = λ _. some (pos 100);
  oi_fee_rate = λ _. some (pos 0);
  forward_price = λ _ _. some (pos 0);
  min_oi_fee = some (pos 0);
}

-- Functions with fixed results in place of viem's.
abbrev pub viem : Viem
viem = record {
  decode_rfq_order = λ _. some (record { max_fee = pos 2; trades = trade ∷ [] });
  decode_taker_order = λ _. some (record { order_hash = codes "0xdd"; max_fee = pos 0 });
  recover_signer = λ _ _ a _. some a.signer;
  hash_rfq_trades = λ _. codes "0xdd";
}

abbrev pub options : EngineOptions
options = record {
  chain_id = 31_337;
  matching = codes "0x33";
  rfq_module = rfq_module;
  viem = viem;
  forward_feed = λ _. none;
  auction_window_ms = 30_000;
  accept_deadline_ms = 60_000;
}

abbrev pub context : QuoteValidationContext
context = record {
  chain_id = 31_337;
  matching = codes "0x33";
  rfq_module = rfq_module;
  chain_reader = chain;
  viem = viem;
  forward_feed = none;
  reserved_cash = pos 10;
}

abbrev pub submission : Submission
submission = record { rfq_id = 1; maker = codes "0xAB"; action = action; signature = codes "0x51" }

abbrev pub no_latches : Latches
no_latches = record { unknown_operations = []; unresolved_tx = none }

abbrev pub engine_with : Store → Engine
engine_with s = record {
  store = s;
  timers = [];
  accept_timers = [];
  reservations = [];
  active_executions = [];
  latches = no_latches;
  events = [];
}
