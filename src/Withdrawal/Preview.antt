-- ===== src/Withdrawal/Preview.antt =====
-- services/rfq-engine/src/withdrawal.ts: `previewAtBlock`. The preview's decimal strings stand as the
-- numbers that they print.
use derive_docs.Base.{
  ℕ, Bool, true, false, ◌&&◌, Option, none, some, if◌then◌else◌, ltb, ◌==◌, ◌+◌, ◌-◌, ◌*◌, ◌/◌,
  Result, ok, ◌>>=◌, ◌>>◌, guard,
}
use derive_docs.Base.Int.{ℤ, pos, pos_part, neg_part, ◌==ℤ◌}
use derive_docs.Base.Text.{codes}
use derive_docs.Rfq.Types.{Address, Hex}
use derive_docs.Withdrawal.Types.{WithdrawalAssetMetadata}
use derive_docs.Withdrawal.Amounts.{to_token_units_floor, to_token_units_ceil, token_quantum, align}
use derive_docs.Withdrawal.Gateway.{
  WithdrawalBlocker, WithdrawalPinnedBlock, WithdrawalSnapshot, WithdrawalAssetDefinition,
  WithdrawalGateway, WithdrawalApiError, api_error,
}
use derive_docs.Withdrawal.Maximum.{MaximumResult, find_maximum}
use derive_docs.Withdrawal.Policy.{
  WithdrawalEngineOptions, blocker, snapshot_blocker, policy_cap, reserved_for_asset, is_cash,
  same_block,
}

pub record WithdrawalMarginDiagnostic : Type 0 where
  pub margin : ℤ
  pub mark_to_market : ℤ

pub record WithdrawalPreview : Type 0 where
  pub chain_id : ℕ
  pub matching : Address
  pub withdrawal_module : Address
  pub owner : Address
  pub subaccount_id : ℤ
  pub asset : WithdrawalAssetMetadata
  pub internal_balance : ℤ
  pub balance_token_units : ℕ
  pub cash_with_interest : ℤ
  pub debt_token_units : ℕ
  pub cash_exchange_rate : ℕ
  pub cash_withdraw_fee_enabled : Bool
  pub initial : WithdrawalMarginDiagnostic
  pub maintenance : WithdrawalMarginDiagnostic
  pub protocol_max_token_units : ℕ
  pub recommended_max_token_units : ℕ
  pub multiplier : ℕ
  pub block_number : ℤ
  pub block_hash : Hex
  pub checked_at : ℕ
  pub expires_at : ℕ
  pub blocker : Option WithdrawalBlocker

abbrev pub preview_ttl_ms : ℕ
preview_ttl_ms = 30_000

abbrev pub bps : ℕ
bps = 10_000

abbrev pub metadata_of : WithdrawalAssetDefinition → WithdrawalSnapshot → WithdrawalAssetMetadata
metadata_of asset snapshot = record {
  asset_id = asset.asset_id;
  kind = asset.kind;
  market_id = asset.market_id;
  symbol = snapshot.token_symbol;
  asset_address = asset.asset_address;
  token_address = snapshot.token_address;
  token_decimals = snapshot.token_decimals;
  scaled_ui = asset.scaled_ui;
}

-- The protocol maximum with its blocker, and whether the margin limits it.
pub record Limit : Type 0 where
  pub protocol_max : ℕ
  pub margin_limited : Bool
  pub blocker : Option WithdrawalBlocker

abbrev pub no_positive_balance : WithdrawalBlocker
no_positive_balance =
    blocker (codes "NO_POSITIVE_BALANCE") (codes "the selected asset has no withdrawable balance")

unfoldable pub limited : ℕ → MaximumResult → Limit
unfolding align
limited quantum result =
    let protocol_max = align result.maximum quantum in
    record {
      protocol_max = protocol_max;
      margin_limited = result.margin_limited;
      blocker = if protocol_max == 0 then some result.blocker else none;
    }

-- The maximum is searched if nothing blocks the account and something is left to withdraw.
unfoldable pub limit_of :
    (ℕ → Option WithdrawalBlocker)
    → ℕ
    → ℕ
    → Option WithdrawalBlocker
    → Result WithdrawalApiError Limit
unfolding limited find_maximum
limit_of simulate quantum upper (some b) =
    ok (record { protocol_max = 0; margin_limited = false; blocker = some b })
limit_of simulate quantum upper none =
    if ltb 0 upper
    then (find_maximum simulate upper >>= λ result. ok (limited quantum result))
    else ok
        (record { protocol_max = 0; margin_limited = false; blocker = some no_positive_balance })

-- `bufferedRecommended`, in whole quanta
unfoldable pub recommended_of : ℕ → ℕ → Limit → ℕ
unfolding align
recommended_of safety_bps quantum limit =
    align
      (if limit.margin_limited
        then limit.protocol_max * (bps - safety_bps) / bps
        else limit.protocol_max)
      quantum

-- The pinned block is still the one of its number.
abbrev pub still_pinned : Option WithdrawalPinnedBlock → WithdrawalPinnedBlock → Bool
still_pinned none block = false
still_pinned (some canonical) block =
    (canonical.number ==ℤ block.number) && same_block (some canonical) block

abbrev pub preview_reorged : WithdrawalApiError
preview_reorged =
    api_error 503 (codes "PREVIEW_REORGED")
      (codes "the pinned block changed during simulation; preview again") true

-- `simulate`, within `findMaximum`
abbrev pub simulate_at :
    WithdrawalGateway
    → Address
    → ℤ
    → WithdrawalAssetDefinition
    → WithdrawalSnapshot
    → ℤ
    → ℕ
    → Option WithdrawalBlocker
simulate_at gateway owner subaccount_id asset snapshot block_number token_units =
    gateway.simulate_asset_withdrawal asset subaccount_id owner snapshot.account_holder block_number
      (pos token_units)

-- `previewAtBlock`, at the clock `now`
unfoldable pub preview_at_block :
    WithdrawalEngineOptions
    → WithdrawalGateway
    → ℕ
    → Address
    → ℤ
    → WithdrawalAssetDefinition
    → WithdrawalPinnedBlock
    → Result WithdrawalApiError WithdrawalPreview
unfolding limit_of recommended_of policy_cap snapshot_blocker token_quantum to_token_units_floor
    to_token_units_ceil
preview_at_block opts gateway now owner subaccount_id asset block = do
  let snapshot = gateway.snapshot subaccount_id asset block.number
  let exact_balance =
      if is_cash asset.kind then snapshot.cash_with_interest else snapshot.internal_balance
  let quantum = token_quantum snapshot.token_decimals
  let upper = policy_cap asset snapshot (reserved_for_asset opts asset subaccount_id)
  limit ←
      limit_of (simulate_at gateway owner subaccount_id asset snapshot block.number) quantum upper
        (snapshot_blocker opts owner asset snapshot)
  guard (still_pinned (gateway.block_by_number block.number) block) preview_reorged
  ok (record {
    chain_id = opts.chain_id;
    matching = opts.matching;
    withdrawal_module = opts.withdrawal_module;
    owner = owner;
    subaccount_id = subaccount_id;
    asset = metadata_of asset snapshot;
    internal_balance = snapshot.internal_balance;
    balance_token_units =
        to_token_units_floor (pos (pos_part exact_balance)) snapshot.token_decimals;
    cash_with_interest = snapshot.cash_with_interest;
    debt_token_units =
        to_token_units_ceil (pos (neg_part snapshot.cash_with_interest))
          snapshot.cash_token_decimals;
    cash_exchange_rate = snapshot.cash_exchange_rate;
    cash_withdraw_fee_enabled = snapshot.cash_withdraw_fee_enabled;
    initial = record {
      margin = snapshot.initial_margin;
      mark_to_market = snapshot.initial_mark_to_market;
    };
    maintenance = record {
      margin = snapshot.maintenance_margin;
      mark_to_market = snapshot.maintenance_mark_to_market;
    };
    protocol_max_token_units = limit.protocol_max;
    recommended_max_token_units = recommended_of opts.recommended_safety_bps quantum limit;
    multiplier = snapshot.multiplier;
    block_number = block.number;
    block_hash = block.hash;
    checked_at = now;
    expires_at = block.timestamp * 1_000 + preview_ttl_ms;
    blocker = limit.blocker;
  })
