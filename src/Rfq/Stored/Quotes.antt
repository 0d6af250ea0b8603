-- ===== src/Rfq/Stored/Quotes.antt =====
-- services/rfq-engine/src/store.ts and types.ts: quotes, actions and trades to and from their
-- stored form.
use derive_docs.Base.{
  ℕ, ◌%◌, Bool, true, false, ◌&&◌, [], ◌∷◌, map, some, none, Option, ◌==◌, if◌then◌else◌, length,
}
use derive_docs.Base.Text.{Text, is_hex_digit}
use derive_docs.Base.Decimal.{big_int, to_string, parse_integer}
use derive_docs.Rfq.Stored.Schema.{SerializedTrade, SerializedAction, StoredQuote}
use derive_docs.Rfq.Stored.Parsing.{traverse_list, ◌>>=◌}
use derive_docs.Rfq.Types.{Address, Hex, Action, RfqTradeData, Quote}

abbrev all_hex : Text → Bool
all_hex [] = true
all_hex (c ∷ s) = is_hex_digit c && all_hex s

-- A `0x` prefix, the digits behind it held to a test.
abbrev hex_body : (ℕ → Bool) → Text → Bool
hex_body fits [] = false
hex_body fits (z ∷ []) = false
hex_body fits (z ∷ x ∷ s) = z == b'0' && (x == b'x' && (all_hex s && fits (length s)))

-- `ADDRESS_RE`, /^0x[0-9a-fA-F]{40}$/
unfoldable pub is_address : Text → Bool
is_address s = hex_body (λ n. n == 40) s

-- `HEX_RE`, /^0x([0-9a-fA-F]{2})*$/
unfoldable pub is_hex : Text → Bool
is_hex s = hex_body (λ n. n % 2 == 0) s

-- `asAddress`, `asHex` and `asBigInt` on texts.
unfoldable pub as_address : Text → Option Address
as_address s = if is_address s then some s else none

unfoldable pub as_hex : Text → Option Hex
as_hex s = if is_hex s then some s else none

unfoldable pub serialize_action : Action → SerializedAction
serialize_action a = record {
  subaccount_id = to_string a.subaccount_id;
  nonce = to_string a.nonce;
  target = a.target;
  call_data = a.call_data;
  expiry = to_string a.expiry;
  owner = a.owner;
  signer = a.signer;
}

unfoldable pub parse_action : SerializedAction → Option Action
unfolding as_address as_hex
parse_action a = do
  subaccount_id ← parse_integer a.subaccount_id
  nonce ← parse_integer a.nonce
  target ← as_address a.target
  call_data ← as_hex a.call_data
  expiry ← parse_integer a.expiry
  owner ← as_address a.owner
  signer ← as_address a.signer
  some (record {
    subaccount_id = subaccount_id;
    nonce = nonce;
    target = target;
    call_data = call_data;
    expiry = expiry;
    owner = owner;
    signer = signer;
  })

unfoldable pub serialize_trade : RfqTradeData → SerializedTrade
serialize_trade t = record {
  asset = t.asset;
  sub_id = to_string t.sub_id;
  price = to_string t.price;
  amount = to_string t.amount;
}

unfoldable pub trade_from_stored : SerializedTrade → Option RfqTradeData
trade_from_stored t = do
  sub_id ← big_int t.sub_id
  price ← big_int t.price
  amount ← big_int t.amount
  some (record { asset = t.asset; sub_id = sub_id; price = price; amount = amount })

unfoldable pub quote_to_stored : Quote → StoredQuote
quote_to_stored q = record {
  id = q.id;
  rfq_id = q.rfq_id;
  maker = q.maker;
  maker_subaccount_id = to_string q.maker_subaccount_id;
  premium = to_string q.premium;
  total_premium = to_string q.total_premium;
  trades = map serialize_trade q.trades;
  order_hash = q.order_hash;
  action = serialize_action q.action;
  signature = q.signature;
  received_at = q.received_at;
  reserved_cash = some (to_string q.reserved_cash);
}

-- Older records predate the reservations: the premium stands in.
unfoldable pub quote_from_stored : StoredQuote → Option Quote
quote_from_stored s = do
  trades ← traverse_list trade_from_stored s.trades
  total_premium ← big_int s.total_premium
  maker_subaccount_id ← big_int s.maker_subaccount_id
  premium ← big_int s.premium
  action ← parse_action s.action
  reserved_cash ← elim s.reserved_cash [ none ↦ some total_premium | some t ↦ big_int t ]
  some (record {
    id = s.id;
    rfq_id = s.rfq_id;
    maker = s.maker;
    maker_subaccount_id = maker_subaccount_id;
    premium = premium;
    total_premium = total_premium;
    trades = trades;
    order_hash = s.order_hash;
    action = action;
    signature = s.signature;
    received_at = s.received_at;
    reserved_cash = reserved_cash;
  })
