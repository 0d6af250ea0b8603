-- ===== src/Rfq/Stored/Schema.antt =====
-- services/rfq-engine/src/store.ts: the JSON records of the log. Bigints are stored as decimal
-- texts.
use derive_docs.Base.{ℕ, Bool, List, Option}
use derive_docs.Base.Text.{Text}
use derive_docs.Rfq.Types.{Hex, RfqDirection, RfqStatus, Reason, ReceiptStatus}

pub record StoredInstrument : Type 0 where
  pub currency : Text
  pub option_asset : Text
  pub expiry : Text
  pub strike : Text
  pub is_call : Bool
  pub sub_id : Text
  pub name : Text

pub record StoredFill : Type 0 where
  pub rfq_id : ℕ
  pub quote_id : ℕ
  pub instrument : Text
  pub maker : Text
  pub maker_subaccount_id : Text
  pub taker_subaccount_id : Text
  pub amount : Text
  pub premium : Text
  pub total_premium : Text
  pub maker_fee : Text
  pub taker_fee : Text

pub record StoredRfqActionIdentity : Type 0 where
  pub subaccount_id : Text
  pub nonce : Text
  pub target : Text
  pub expiry : Text
  pub owner : Text
  pub signer : Text
  pub data_hash : Hex

pub record StoredExecution : Type 0 where
  pub tx_hash : Hex
  pub status : ReceiptStatus
  pub block_number : Option Text
  pub fill : StoredFill

pub record StoredIntent : Type 0 where
  pub maker_identity : StoredRfqActionIdentity
  pub taker_identity : StoredRfqActionIdentity
  pub calldata_hash : Hex
  pub from_block : Text
  pub tx_hash : Option Hex
  pub fill : StoredFill

pub record StoredRfq : Type 0 where
  pub id : ℕ
  pub taker_subaccount_id : Text
  pub instrument : StoredInstrument
  pub amount : Text
  pub direction : RfqDirection
  pub created_at : ℕ
  pub auction_ends_at : ℕ
  pub accept_deadline_at : Option ℕ
  pub status : RfqStatus
  pub best_quote_id : Option ℕ
  pub execution : Option StoredExecution
  pub execution_intent : Option StoredIntent
  pub error : Option Reason

pub record SerializedTrade : Type 0 where
  pub asset : Text
  pub sub_id : Text
  pub price : Text
  pub amount : Text

pub record SerializedAction : Type 0 where
  pub subaccount_id : Text
  pub nonce : Text
  pub target : Text
  pub call_data : Text
  pub expiry : Text
  pub owner : Text
  pub signer : Text

-- `reserved_cash` is missing from records older than the reservations.
pub record StoredQuote : Type 0 where
  pub id : ℕ
  pub rfq_id : ℕ
  pub maker : Text
  pub maker_subaccount_id : Text
  pub premium : Text
  pub total_premium : Text
  pub trades : List SerializedTrade
  pub order_hash : Hex
  pub action : SerializedAction
  pub signature : Hex
  pub received_at : ℕ
  pub reserved_cash : Option Text

pub data StoreRecord : Type 0 where
  rfq_record : StoredRfq → StoreRecord
  quote_record : StoredQuote → StoreRecord
  quote_del : ℕ → StoreRecord
  -- a value of no known kind
  other : StoreRecord
