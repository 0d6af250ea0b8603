-- ===== src/Rfq/Types.antt =====
-- services/rfq-engine/src/types.ts and the trade types of services/shared/src/rfq.ts: the domain
-- records of the engine. Bigints are `ℤ`, millisecond clocks `ℕ`, addresses and hashes `Text`.
-- Random identifiers are only compared, so they are numbers.
use derive_docs.Base.{ℕ, ◌≡◌, ◌↔◌, Bool, true, List, Option, ◌==◌}
use derive_docs.Base.Int.{ℤ}
use derive_docs.Base.Text.{Text, text_eq, text_eq_iff, text_eq_refl, to_lower}

abbrev pub Address : Type 0
Address = Text

abbrev pub Hex : Type 0
Hex = Text

pub record Instrument : Type 0 where
  pub currency : Text
  pub option_asset : Address
  pub expiry : ℤ
  pub strike : ℤ
  pub is_call : Bool
  pub sub_id : ℤ
  pub name : Text

pub data RfqDirection : Type 0 where
  sell : RfqDirection

-- `opened` is the source's "open".
pub data RfqStatus : Type 0 where
  opened closed expired executing executed failed : RfqStatus

-- The message of `Rfq.error`: a constructor for each text that the engine writes, with the message
-- of the underlying error where the text quotes one.
pub data Reason : Type 0 where
  not_accepted_in_time reverted_on_chain expired_unused legacy_record : Reason
  executor_unavailable outcome_unresolved still_ambiguous : Text → Reason

-- `RfqActionIdentity`: what a persisted intent keeps of an action.
pub record RfqActionIdentity : Type 0 where
  pub subaccount_id : ℤ
  pub nonce : ℤ
  pub target : Address
  pub expiry : ℤ
  pub owner : Address
  pub signer : Address
  pub data_hash : Hex

pub record FillSummary : Type 0 where
  pub rfq_id : ℕ
  pub quote_id : ℕ
  pub instrument : Text
  pub maker : Address
  pub maker_subaccount_id : ℤ
  pub taker_subaccount_id : ℤ
  pub amount : ℤ
  pub premium : ℤ
  pub total_premium : ℤ
  pub maker_fee : ℤ
  pub taker_fee : ℤ

pub record RfqExecutionIntent : Type 0 where
  pub maker_identity : RfqActionIdentity
  pub taker_identity : RfqActionIdentity
  pub calldata_hash : Hex
  pub from_block : ℤ
  pub tx_hash : Option Hex
  pub fill : FillSummary

pub data ReceiptStatus : Type 0 where
  success reverted : ReceiptStatus

pub record ExecutionResult : Type 0 where
  pub tx_hash : Hex
  pub status : ReceiptStatus
  pub block_number : Option ℤ
  pub fill : FillSummary

pub record Rfq : Type 0 where
  pub id : ℕ
  pub taker_subaccount_id : ℤ
  pub instrument : Instrument
  pub amount : ℤ
  pub direction : RfqDirection
  pub created_at : ℕ
  pub auction_ends_at : ℕ
  pub accept_deadline_at : Option ℕ
  pub status : RfqStatus
  pub best_quote_id : Option ℕ
  pub execution : Option ExecutionResult
  pub execution_intent : Option RfqExecutionIntent
  pub error : Option Reason

-- The signed Matching action of services/shared/src/actions.ts: `target` is its `module`, and
-- `call_data` its `data`.
pub record Action : Type 0 where
  pub subaccount_id : ℤ
  pub nonce : ℤ
  pub target : Address
  pub call_data : Hex
  pub expiry : ℤ
  pub owner : Address
  pub signer : Address

pub record RfqTradeData : Type 0 where
  pub asset : Address
  pub sub_id : ℤ
  pub price : ℤ
  pub amount : ℤ

pub record RfqOrder : Type 0 where
  pub max_fee : ℤ
  pub trades : List RfqTradeData

pub record TakerOrder : Type 0 where
  pub order_hash : Hex
  pub max_fee : ℤ

pub record Quote : Type 0 where
  pub id : ℕ
  pub rfq_id : ℕ
  pub maker : Address
  pub maker_subaccount_id : ℤ
  pub premium : ℤ
  pub total_premium : ℤ
  pub trades : List RfqTradeData
  pub order_hash : Hex
  pub action : Action
  pub signature : Hex
  pub received_at : ℕ
  pub reserved_cash : ℤ

-- `addressEq`
unfoldable pub address_eq : Address → Address → Bool
address_eq a b = text_eq (to_lower a) (to_lower b)

abbrev status_code : RfqStatus → ℕ
status_code = elim [
  | RfqStatus.opened ↦ 0
  | RfqStatus.closed ↦ 1
  | RfqStatus.expired ↦ 2
  | RfqStatus.executing ↦ 3
  | RfqStatus.executed ↦ 4
  | RfqStatus.failed ↦ 5
]

-- `rfq.status === "…"`
abbrev pub status_eq : RfqStatus → RfqStatus → Bool
status_eq a b = status_code a == status_code b

-- Addresses that differ in letter case only are one address.
pub address_eq_iff : (a b : Address) → (address_eq a b ≡ true) ↔ (to_lower a ≡ to_lower b)
unfolding address_eq
address_eq_iff a b = text_eq_iff (to_lower a) (to_lower b)

pub address_eq_refl : (a : Address) → address_eq a a ≡ true
unfolding address_eq
address_eq_refl a = text_eq_refl (to_lower a)
