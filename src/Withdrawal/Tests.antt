-- ===== src/Withdrawal/Tests.antt =====
-- The theorems on withdrawals at concrete inputs.
mod Limits
mod Preparing
mod Running
use derive_docs.Base.{◌≡◌, refl, inl, inr, true, false, [], ◌∷◌, ◌++◌, none, some, if◌then◌else◌}
use derive_docs.Base.Int.{pos}
use derive_docs.Base.Map.{lookup}
use derive_docs.Base.Text.{Text, codes, text_eq, trim}
use derive_docs.Rfq.Types.{Action}
use derive_docs.Rfq.Stored.Quotes.{is_address, is_hex}
use derive_docs.Rfq.Stored.RoundTrip.{IsWellFormed}
use derive_docs.Withdrawal.Types.{
  WithdrawalStatus, AssetKind, WithdrawalAssetMetadata, WithdrawalReview, WithdrawalOperation,
}
use derive_docs.Withdrawal.Store.{
  empty_store, put_if_idempotency_absent, get_by_idempotency_key, to_stored, from_stored,
  operation-round_trip,
}
use derive_docs.Withdrawal.Claims.{puts, claimed_once}
use derive_docs.Withdrawal.Log.{Json, Prints, fresh_log, log_puts, load, crash_keeps_operations}

abbrev pub account : Text
account = codes "0x00112233445566778899aabbccddeeff00112233"

abbrev action : Action
action = record {
  subaccount_id = pos 5;
  nonce = pos 1;
  target = account;
  call_data = codes "0x0a";
  expiry = pos 500;
  owner = account;
  signer = account;
}

abbrev asset : WithdrawalAssetMetadata
asset = record {
  asset_id = codes "cash";
  kind = AssetKind.cash;
  market_id = none;
  symbol = codes "USDC";
  asset_address = account;
  token_address = account;
  token_decimals = 6;
  scaled_ui = false;
}

abbrev review : WithdrawalReview
review = record {
  recipient = account;
  asset_id = codes "cash";
  asset_address = account;
  token_address = account;
  token_units = codes "7";
  display_amount = codes "7";
  token_decimals = 6;
  multiplier = codes "1";
  prepared_block_number = codes "9";
  prepared_block_hash = codes "0x9";
}

abbrev pub operation : WithdrawalOperation
operation = record {
  id = 1;
  idempotency_key = 40;
  request_fingerprint = codes "0xf";
  status = WithdrawalStatus.prepared;
  chain_id = 97;
  matching = account;
  owner = account;
  subaccount_id = pos 5;
  asset = asset;
  token_units = pos 7;
  max_withdrawable_at_prepare = pos 8;
  preview_block_hash = codes "0x8";
  prepared_at_block_number = pos 9;
  prepared_at_block_hash = codes "0x9";
  action = action;
  action_digest = codes "0xd";
  review = review;
  created_at = 1_000;
  expires_at = 2_000;
  submitted_at = none;
  confirmed_at = none;
  tx_hash = none;
  block_number = none;
  error = none;
}

abbrev pub submitting : WithdrawalOperation
submitting = record operation { status = WithdrawalStatus.submitting }

abbrev other : WithdrawalOperation
other = record operation { id = 2; idempotency_key = 41 }

abbrev again : WithdrawalOperation
again = record operation { id = 3 }

inserted : (put_if_idempotency_absent operation empty_store).1.0 ≡ true
unfolding put_if_idempotency_absent get_by_idempotency_key lookup
inserted = refl

claimed_once_example :
    (holder : WithdrawalOperation) × (put_if_idempotency_absent again
        (puts (submitting ∷ other ∷ []) (put_if_idempotency_absent operation empty_store).0)
      ≡ (
        puts (submitting ∷ other ∷ []) (put_if_idempotency_absent operation empty_store).0,
        (false, holder),
      ))
    × (holder.id ≡ 1)
claimed_once_example =
    claimed_once operation again empty_store (submitting ∷ other ∷ []) inserted
      (inl (refl, refl), (inr (λ h. cc, λ h. cc), tt)) refl

action-IsWellFormed : IsWellFormed action
unfolding is_address is_hex
action-IsWellFormed = record { target = refl; call_data = refl; owner = refl; signer = refl }

operation-round_trip_example : from_stored (to_stored operation) ≡ some operation
operation-round_trip_example = operation-round_trip operation action-IsWellFormed

-- A JSON of one record.
abbrev json : Json
json = record {
  parse = λ t. if text_eq t (codes "o") then some (to_stored operation) else none;
  stringify = λ _. codes "o";
}

printed : Prints json operation
unfolding text_eq trim
printed = record {
  parses = refl;
  one_line = refl;
  not_blank = λ h. cc;
  well_formed = action-IsWellFormed;
}

crash_keeps_operations_example :
    load json ((log_puts json (operation ∷ []) fresh_log).file ++ codes "{")
    ≡ (log_puts json (operation ∷ []) fresh_log).index
unfolding text_eq
crash_keeps_operations_example =
    crash_keeps_operations json (operation ∷ []) (codes "{") (printed, tt) refl refl
