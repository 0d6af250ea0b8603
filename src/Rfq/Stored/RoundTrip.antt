-- ===== src/Rfq/Stored/RoundTrip.antt =====
-- services/rfq-engine/src/store.ts: reading back what the log writes.
use derive_docs.Base.{◌≡◌, true, some}
use derive_docs.Base.Decimal.{big_int, to_string, big_int-to_string, parse_integer-to_string}
use derive_docs.Rfq.Types.{
  Instrument, RfqActionIdentity, FillSummary, RfqExecutionIntent, ExecutionResult, Rfq, Action,
  RfqTradeData, Quote,
}
use derive_docs.Rfq.Stored.Parsing.{traverse-map, traverse_list-map}
use derive_docs.Rfq.Stored.Rfqs.{
  fill_to_stored, fill_from_stored, action_identity_to_stored, action_identity_from_stored,
  instrument_to_stored, instrument_from_stored, execution_to_stored, execution_from_stored,
  intent_to_stored, intent_from_stored, rfq_to_stored, rfq_from_stored,
}
use derive_docs.Rfq.Stored.Quotes.{
  is_address, is_hex, serialize_action, parse_action, serialize_trade, trade_from_stored,
  quote_to_stored, quote_from_stored,
}

fill-round_trip : (f : FillSummary) → fill_from_stored (fill_to_stored f) ≡ some f
unfolding fill_from_stored fill_to_stored
fill-round_trip f = simp big_int-to_string

action_identity-round_trip :
    (a : RfqActionIdentity) → action_identity_from_stored (action_identity_to_stored a) ≡ some a
unfolding action_identity_from_stored action_identity_to_stored
action_identity-round_trip a = simp big_int-to_string

instrument-round_trip : (i : Instrument) → instrument_from_stored (instrument_to_stored i) ≡ some i
unfolding instrument_from_stored instrument_to_stored
instrument-round_trip i = simp big_int-to_string

execution-round_trip :
    (e : ExecutionResult) → execution_from_stored (execution_to_stored e) ≡ some e
unfolding execution_from_stored execution_to_stored
execution-round_trip e =
    simp (traverse-map big_int to_string e.block_number big_int-to_string, fill-round_trip)

intent-round_trip : (i : RfqExecutionIntent) → intent_from_stored (intent_to_stored i) ≡ some i
unfolding intent_from_stored intent_to_stored
intent-round_trip i = simp (big_int-to_string, action_identity-round_trip, fill-round_trip)

-- Every RFQ that is written to the log is read back as it was.
pub rfq-round_trip : (r : Rfq) → rfq_from_stored (rfq_to_stored r) ≡ some r
unfolding rfq_from_stored rfq_to_stored
rfq-round_trip r = simp (
  big_int-to_string,
  instrument-round_trip,
  traverse-map execution_from_stored execution_to_stored r.execution execution-round_trip,
  traverse-map intent_from_stored intent_to_stored r.execution_intent intent-round_trip,
)

-- The addresses and the call data of an action have their 0x form.
pub record IsWellFormed (a : Action) : Type 0 where
  pub target : is_address a.target ≡ true
  pub call_data : is_hex a.call_data ≡ true
  pub owner : is_address a.owner ≡ true
  pub signer : is_address a.signer ≡ true

pub action-round_trip : (a : Action) → IsWellFormed a → parse_action (serialize_action a) ≡ some a
unfolding parse_action serialize_action
action-round_trip a h = simp (parse_integer-to_string, h.target, h.call_data, h.owner, h.signer)

trade-round_trip : (t : RfqTradeData) → trade_from_stored (serialize_trade t) ≡ some t
unfolding trade_from_stored serialize_trade
trade-round_trip t = simp big_int-to_string

-- A quote that is written to the log is read back as it was, if the addresses and the call data of
-- its action have their 0x form.
pub quote-round_trip :
    (q : Quote) → IsWellFormed q.action → quote_from_stored (quote_to_stored q) ≡ some q
unfolding quote_from_stored quote_to_stored
quote-round_trip q h = simp (
  big_int-to_string,
  traverse_list-map trade_from_stored serialize_trade q.trades trade-round_trip,
  action-round_trip q.action h,
)
