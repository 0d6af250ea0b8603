-- ===== src/Withdrawal/Tests/Limits.antt =====
-- services/rfq-engine/src/withdrawal.ts: the theorems on amounts and limits at concrete inputs.
use derive_docs.Base.{
  ℕ, ◌≡◌, ◌↔◌, ◌⊎◌, refl, true, false, Option, none, some, if◌then◌else◌, leb, arith, ok, ◌<◌, ◌≤◌,
  ◌+◌, suc, [], ◌∷◌,
}
use derive_docs.Base.Int.{pos, pos_part, ◌-ℤ◌, ◌+ℤ◌, ◌≤ℤ◌}
use derive_docs.Base.Text.{codes, text_eq, to_lower}
use derive_docs.Rfq.Types.{address_eq}
use derive_docs.Withdrawal.Types.{AssetKind, WithdrawalOperation}
use derive_docs.Withdrawal.Amounts.{
  to_token_units_floor, to_token_units_ceil, token_units_to_18_floor, token_quantum, align,
  floor_is_greatest, ceil_is_least,
}
use derive_docs.Withdrawal.Gateway.{
  WithdrawalBlocker, WithdrawalPinnedBlock, WithdrawalSnapshot, WithdrawalAssetDefinition,
  WithdrawalGateway,
}
use derive_docs.Withdrawal.Maximum.{
  MaximumResult, no_blocker, narrow, search, find_maximum, find_maximum_is_exact,
}
use derive_docs.Withdrawal.Policy.{
  WithdrawalEngineOptions, find_asset, resolve_asset, snapshot_blocker, available_cash,
  fee_adjusted_cash, cash_cap, held_units, policy_cap, assert_final_policy,
}
use derive_docs.Withdrawal.Permission.{final_policy_keeps_reserve}
use derive_docs.Withdrawal.Tests.{account, operation}

floor_is_greatest_example :
    (1 ≤ to_token_units_floor (pos 1_500_000_000_000) 6)
    ↔ (token_units_to_18_floor 1 6 ≤ 1_500_000_000_000)
unfolding token_quantum
floor_is_greatest_example = floor_is_greatest 1_500_000_000_000 6 1 refl

ceil_is_least_example :
    (to_token_units_ceil (pos 1_500_000_000_000) 6 ≤ 2)
    ↔ (1_500_000_000_000 ≤ token_units_to_18_floor 2 6)
unfolding token_quantum
ceil_is_least_example = ceil_is_least 1_500_000_000_000 6 2 refl

-- A simulation that lets through 5 at most.
abbrev pub five_at_most : ℕ → Option WithdrawalBlocker
five_at_most u = if leb u 5 then none else some no_blocker

pub five_closed : (u : ℕ) → 0 < u → five_at_most (suc u) ≡ none → five_at_most u ≡ none
five_closed u positive h = ground arith

find_maximum_is_exact_example :
    (r : MaximumResult) × (find_maximum five_at_most 9 ≡ ok r)
    × ((u : ℕ) → 0 < u → u ≤ 9 → (five_at_most u ≡ none) ↔ (u ≤ r.maximum))
    × (((r.maximum ≡ 9) × (r.margin_limited ≡ false))
        ⊎ ((r.maximum < 9)
            × (r.margin_limited ≡ true)
            × (five_at_most (r.maximum + 1) ≡ some r.blocker)))
find_maximum_is_exact_example =
    find_maximum_is_exact five_at_most 9 (omega arith) (omega arith) five_closed

found_five :
    find_maximum five_at_most 9
    ≡ ok (record { maximum = 5; blocker = no_blocker; margin_limited = true })
unfolding find_maximum search narrow
found_five = refl

abbrev pub cash : WithdrawalAssetDefinition
cash = record {
  asset_id = codes "cash";
  kind = AssetKind.cash;
  market_id = none;
  symbol = codes "USDC";
  asset_address = account;
  configured_token_address = some account;
  configured_token_decimals = some 6;
  scaled_ui = false;
}

abbrev pub opts : WithdrawalEngineOptions
opts = record {
  chain_id = 97;
  matching = account;
  withdrawal_module = account;
  standard_manager = account;
  assets = cash ∷ [];
  recommended_safety_bps = 50;
  reserved_cash = λ _. pos 2_000_000_000_000;
}

-- Cash of 9 units of which 2 are reserved.
abbrev pub nine_units : WithdrawalSnapshot
nine_units = record {
  matching_owner = account;
  account_holder = account;
  manager = account;
  withdraw_timestamp = 0;
  internal_balance = pos 9_000_000_000_000;
  cash_with_interest = pos 9_000_000_000_000;
  cash_token_decimals = 6;
  cash_exchange_rate = 1_000_000_000_000_000_000;
  cash_withdraw_fee_enabled = false;
  initial_margin = pos 0;
  initial_mark_to_market = pos 0;
  maintenance_margin = pos 0;
  maintenance_mark_to_market = pos 0;
  token_address = account;
  token_symbol = codes "USDC";
  token_decimals = 6;
  token_liquidity = 100;
  multiplier = 1_000_000_000_000_000_000;
}

abbrev pub block : WithdrawalPinnedBlock
block = record { number = pos 9; hash = codes "0x9"; timestamp = 1_000 }

abbrev pub gateway : WithdrawalGateway
gateway = record {
  latest_block = block;
  block_by_hash = λ _. some block;
  block_by_number = λ _. some block;
  snapshot = λ _ _ _. nine_units;
  simulate_asset_withdrawal = λ _ _ _ _ _ u. five_at_most (pos_part u);
  is_nonce_used = λ _ _. false;
  verify_signature = λ _ _ _ _. true;
  find_action_use = λ _ _. none;
  receipt = λ _. none;
}

abbrev pub five : WithdrawalOperation
five = record operation { token_units = pos 5 }

five_passes : assert_final_policy opts gateway five ≡ ok tt
unfolding assert_final_policy resolve_asset find_asset snapshot_blocker available_cash
    fee_adjusted_cash cash_cap held_units policy_cap to_token_units_floor token_quantum align
    address_eq text_eq to_lower ◌-ℤ◌
five_passes = refl

cash_supported : resolve_asset opts (codes "cash") ≡ ok cash
unfolding resolve_asset find_asset text_eq
cash_supported = refl

final_policy_keeps_reserve_example :
    (pos (token_units_to_18_floor 5 6) +ℤ pos 2_000_000_000_000 ≤ℤ pos 9_000_000_000_000)
    × (5 ≤ 100)
final_policy_keeps_reserve_example =
    final_policy_keeps_reserve opts gateway five cash 5 five_passes cash_supported refl refl
      (omega arith)
