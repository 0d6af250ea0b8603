-- ===== src/Rfq/Quotes.antt =====
-- services/rfq-engine/src/quotes.ts: what a maker's quote and a taker's acceptance are checked for.
-- The chain's answers and viem's functions are parameters.
pub mod Checks
pub mod Admission
pub mod Acceptance
pub mod Fees
use mathlib.Core.Option
use derive_docs.Base.{
  ℕ, ◌+◌, ◌/◌, ◌≡◌, Bool, true, false, not, ◌&&◌, List, [], ◌∷◌, Option, none, some, ltb, leb, ◌==◌,
  if◌then◌else◌, Result, ok, err, ◌>>=◌, ◌>>◌, guard, or_throw,
}
use derive_docs.Base.Int.{ℤ, pos, negsuc, ◌+ℤ◌, ◌-ℤ◌, ◌*ℤ◌, ◌/ℤ◌, ltb_ℤ, leb_ℤ, ◌==ℤ◌}
use derive_docs.Base.Text.{text_eq}
use derive_docs.Rfq.Types.{
  Address, Hex, RfqStatus, Rfq, Action, RfqTradeData, RfqOrder, TakerOrder, Quote, address_eq,
  status_eq,
}
use derive_docs.Rfq.Stored.Parsing

-- `ChainReader`; `none` is a read that throws.
pub record ChainReader : Type 0 where
  pub matching_owner : ℤ → Option Address
  pub cash_balance : ℤ → Option ℤ
  pub oi_fee_rate : Address → Option ℤ
  pub forward_price : Address → ℤ → Option ℤ
  pub min_oi_fee : Option ℤ

-- ABI decoding, signature recovery (by chain and Matching contract) and hashing, of viem.
pub record Viem : Type 0 where
  pub decode_rfq_order : Hex → Option RfqOrder
  pub decode_taker_order : Hex → Option TakerOrder
  pub recover_signer : ℕ → Address → Action → Hex → Option Address
  pub hash_rfq_trades : List RfqTradeData → Hex

pub record QuoteValidationContext : Type 0 where
  pub chain_id : ℕ
  pub matching : Address
  pub rfq_module : Address
  pub chain_reader : ChainReader
  pub viem : Viem
  pub forward_feed : Option Address
  pub reserved_cash : ℤ

-- `QuoteValidationError`, a constructor for each message.
pub data QuoteError : Type 0 where
  not_open window_closed wrong_module wrong_owner wrong_signer zero_subaccount action_expired :
      QuoteError
  expires_in_auction undecodable not_one_trade wrong_asset wrong_sub_id wrong_amount : QuoteError
  no_premium invalid_signature not_deposited no_fee_estimate insufficient_cash : QuoteError
  chain_read_failed wrong_subaccount quote_expired order_hash_mismatch : QuoteError
  unknown_rfq unknown_quote auction_closed still_open no_winner deadline_passed : QuoteError
  rfq_changed : QuoteError
  not_acceptable : RfqStatus → QuoteError

-- 10n ** 18n
abbrev pub one : ℤ
one = pos 1_000_000_000_000_000_000

-- `BigInt(Math.floor(ms / 1000))` and `BigInt(Math.ceil(ms / 1000))`
abbrev pub floor_seconds : ℕ → ℤ
floor_seconds ms = pos (ms / 1000)

abbrev pub ceil_seconds : ℕ → ℤ
ceil_seconds ms = pos ((ms + 999) / 1000)

-- `amount < 0n ? -amount : amount`
abbrev pub abs : ℤ → ℤ
abs a = if ltb_ℤ a (pos 0) then pos 0 -ℤ a else a

abbrev pub at_least : ℤ → ℤ → ℤ
at_least min fee = if ltb_ℤ fee min then min else fee

-- The fee that the manager charges at a rate and a forward price, above its floor if not 0.
unfoldable pub oi_fee_at : Option ℤ → ℤ → ℤ → ℤ → Option ℤ
oi_fee_at min_oi_fee rate amount forward_price =
    let fee = abs amount *ℤ forward_price /ℤ one *ℤ rate /ℤ one in
    if ltb_ℤ (pos 0) fee then Option.map (λ min. at_least min fee) min_oi_fee else some fee

unfoldable pub estimate_oi_fee : ChainReader → Address → Address → ℤ → ℤ → Option ℤ
estimate_oi_fee chain option_asset forward_feed expiry amount =
    elim (chain.oi_fee_rate option_asset) [
      | none ↦ none
      | some rate ↦
          if rate ==ℤ pos 0
          then some (pos 0)
          else Parsing.◌>>=◌ (chain.forward_price forward_feed expiry)
              (oi_fee_at chain.min_oi_fee rate amount)
    ]

-- `verifyActionSignature`
unfoldable pub verify_action_signature : QuoteValidationContext → Action → Hex → Bool
verify_action_signature ctx action signature =
    elim (ctx.viem.recover_signer ctx.chain_id ctx.matching action signature) [
      | none ↦ false
      | some recovered ↦ address_eq recovered action.signer
    ]

unfoldable pub check_window : Rfq → ℕ → Result QuoteError (Unit {0})
check_window rfq now = do
  guard (status_eq rfq.status RfqStatus.opened) not_open
  guard (ltb now rfq.auction_ends_at) window_closed

unfoldable pub check_shape :
    QuoteValidationContext → Rfq → Address → Action → ℕ → Result QuoteError (Unit {0})
check_shape ctx rfq maker action now = do
  guard (address_eq action.target ctx.rfq_module) wrong_module
  guard (address_eq action.owner maker) wrong_owner
  guard (address_eq action.signer action.owner) wrong_signer
  guard (ltb_ℤ (pos 0) action.subaccount_id) zero_subaccount
  guard (ltb_ℤ (floor_seconds now) action.expiry) action_expired
  guard (leb_ℤ (ceil_seconds rfq.auction_ends_at) action.expiry) expires_in_auction

abbrev only_trade : List RfqTradeData → Option RfqTradeData
only_trade [] = none
only_trade (t ∷ []) = some t
only_trade (t ∷ u ∷ ts) = none

unfoldable pub check_trade : Rfq → List RfqTradeData → Result QuoteError RfqTradeData
check_trade rfq trades = do
  trade ← or_throw (only_trade trades) not_one_trade
  guard (address_eq trade.asset rfq.instrument.option_asset) wrong_asset
  guard (trade.sub_id ==ℤ rfq.instrument.sub_id) wrong_sub_id
  guard (trade.amount ==ℤ rfq.amount) wrong_amount
  guard (ltb_ℤ (pos 0) trade.price) no_premium
  ok trade

-- `oiFee`: 0 without a forward feed.
unfoldable pub oi_fee_for : QuoteValidationContext → Rfq → ℤ → Option ℤ
oi_fee_for ctx rfq amount = elim ctx.forward_feed [
  | none ↦ some (pos 0)
  | some feed ↦
      estimate_oi_fee ctx.chain_reader rfq.instrument.option_asset feed rfq.instrument.expiry amount
]

unfoldable pub check_cash : QuoteValidationContext → ℤ → ℤ → Result QuoteError (Unit {0})
check_cash ctx subaccount_id required = do
  cash ← or_throw (ctx.chain_reader.cash_balance subaccount_id) chain_read_failed
  guard (leb_ℤ (ctx.reserved_cash +ℤ required) cash) insufficient_cash

unfoldable pub check_owner : QuoteValidationContext → ℤ → Address → Result QuoteError (Unit {0})
check_owner ctx subaccount_id account = do
  owner ← or_throw (ctx.chain_reader.matching_owner subaccount_id) chain_read_failed
  guard (address_eq owner account) not_deposited

-- `price * amount / ONE`
abbrev pub total_premium_of : RfqTradeData → ℤ
total_premium_of trade = trade.price *ℤ trade.amount /ℤ one

-- `validateQuote` at the time `now`; the quote is made at `received` under the fresh identifier.
unfoldable pub validate_quote :
    QuoteValidationContext
    → Rfq
    → Address
    → Action
    → Hex
    → (now received id : ℕ) → Result QuoteError Quote
validate_quote ctx rfq maker action signature now received id = do
  check_window rfq now
  check_shape ctx rfq maker action now
  order ← or_throw (ctx.viem.decode_rfq_order action.call_data) undecodable
  trade ← check_trade rfq order.trades
  guard (verify_action_signature ctx action signature) invalid_signature
  check_owner ctx action.subaccount_id maker
  oi_fee ← or_throw (oi_fee_for ctx rfq trade.amount) no_fee_estimate
  let required = total_premium_of trade +ℤ order.max_fee +ℤ oi_fee
  check_cash ctx action.subaccount_id required
  ok (record {
    id = id;
    rfq_id = rfq.id;
    maker = maker;
    maker_subaccount_id = action.subaccount_id;
    premium = trade.price;
    total_premium = total_premium_of trade;
    trades = order.trades;
    order_hash = ctx.viem.hash_rfq_trades order.trades;
    action = action;
    signature = signature;
    received_at = received;
    reserved_cash = required;
  })

-- `validateTakerAccept`
unfoldable pub validate_taker_accept :
    QuoteValidationContext → Rfq → Quote → Action → Hex → ℕ → Result QuoteError TakerOrder
validate_taker_accept ctx rfq quote action signature now = do
  guard (address_eq action.target ctx.rfq_module) wrong_module
  guard (action.subaccount_id ==ℤ rfq.taker_subaccount_id) wrong_subaccount
  guard (address_eq action.signer action.owner) wrong_signer
  guard (ltb_ℤ (floor_seconds now) action.expiry) action_expired
  guard (ltb_ℤ (floor_seconds now) quote.action.expiry) quote_expired
  order ← or_throw (ctx.viem.decode_taker_order action.call_data) undecodable
  guard (text_eq order.order_hash quote.order_hash) order_hash_mismatch
  guard (verify_action_signature ctx action signature) invalid_signature
  check_owner ctx action.subaccount_id action.owner
  ok order
