-- ===== src/Withdrawal/Policy.antt =====
-- services/rfq-engine/src/withdrawal.ts: what a withdrawal may take. The engine's options, the
-- blockers of a snapshot, and the cap that both the preview and the final policy check compute.
use derive_docs.Base.{
  ℕ, Bool, true, false, not, ◌&&◌, ◌||◌, List, [], ◌∷◌, ◌++◌, Option, none, some, if◌then◌else◌,
  ltb, ◌==◌, ◌+◌, ◌-◌, ◌*◌, ◌/◌, ◌%◌, ◌^◌, Result, guard, or_throw, ◌>>=◌, ◌>>◌,
}
use derive_docs.Base.Int.{ℤ, pos, pos_part, neg_part, ltb_ℤ, ◌-ℤ◌}
use derive_docs.Base.Text.{Text, codes, text_eq}
use derive_docs.Base.Decimal.{to_string}
use derive_docs.Rfq.Types.{Address, address_eq}
use derive_docs.Withdrawal.Types.{AssetKind, WithdrawalOperation, text_detail}
use derive_docs.Withdrawal.Amounts.{to_token_units_floor, token_quantum, align}
use derive_docs.Withdrawal.Gateway.{
  WithdrawalBlocker, WithdrawalPinnedBlock, WithdrawalSnapshot, WithdrawalAssetDefinition,
  WithdrawalGateway, WithdrawalApiError, api_error, blocked, throw_if,
}

-- `WithdrawalEngineOptions`, less the collaborators: `reserved_cash` is what the auction answers.
pub record WithdrawalEngineOptions : Type 0 where
  pub chain_id : ℕ
  pub matching : Address
  pub withdrawal_module : Address
  pub standard_manager : Address
  pub assets : List WithdrawalAssetDefinition
  pub recommended_safety_bps : ℕ
  pub reserved_cash : ℤ → ℤ

abbrev pub zero_address : Address
zero_address = codes "0x0000000000000000000000000000000000000000"

abbrev pub one_18 : ℕ
one_18 = 10 ^ 18

-- `this.assets.get(assetId)`: of two assets with one identifier the later is kept.
unfoldable pub find_asset : Text → List WithdrawalAssetDefinition → Option WithdrawalAssetDefinition
find_asset asset_id [] = none
find_asset asset_id (a ∷ rest) = elim (find_asset asset_id rest) [
  | some b ↦ some b
  | none ↦ if text_eq a.asset_id asset_id then some a else none
]

-- `resolveAsset`
unfoldable pub resolve_asset :
    WithdrawalEngineOptions → Text → Result WithdrawalApiError WithdrawalAssetDefinition
unfolding find_asset
resolve_asset opts asset_id = or_throw (find_asset asset_id opts.assets) (
    api_error 400 (codes "UNSUPPORTED_ASSET")
      (codes "assetId " ++ asset_id ++ codes " is not enabled") false)

abbrev pub is_cash : AssetKind → Bool
is_cash AssetKind.cash = true
is_cash AssetKind.market_collateral = false

abbrev pub blocker : Text → Text → WithdrawalBlocker
blocker code message = record { code = code; message = message }

-- `asset.configuredTokenAddress && !addressEq(…)`
abbrev pub token_mismatch : Option Address → Address → Bool
token_mismatch none token = false
token_mismatch (some configured) token = not (address_eq token configured)

-- `asset.configuredTokenDecimals !== null && …`
abbrev pub decimals_mismatch : Option ℕ → ℕ → Bool
decimals_mismatch none decimals = false
decimals_mismatch (some configured) decimals = not (decimals == configured)

-- `snapshotBlocker`
unfoldable pub snapshot_blocker :
    WithdrawalEngineOptions
    → Address
    → WithdrawalAssetDefinition
    → WithdrawalSnapshot
    → Option WithdrawalBlocker
snapshot_blocker opts owner asset snapshot =
    if address_eq snapshot.matching_owner zero_address
    then some (
        blocker (codes "ACCOUNT_NOT_IN_MATCHING")
          (codes "the subaccount is not deposited in Matching"))
    else if not (address_eq snapshot.matching_owner owner)
    then some
        (blocker (codes "OWNER_MISMATCH") (codes "owner does not control this Matching subaccount"))
    else if not (address_eq snapshot.account_holder opts.matching)
    then some (
        blocker (codes "ACCOUNT_NOT_HELD_BY_MATCHING")
          (codes "Matching does not currently hold the subaccount NFT"))
    else if not (snapshot.withdraw_timestamp == 0)
    then some (
        blocker (codes "ACCOUNT_EXIT_PENDING")
          (codes "the 30-minute Matching NFT exit is already pending"))
    else if not (address_eq snapshot.manager opts.standard_manager)
    then some (
        blocker (codes "UNSUPPORTED_MANAGER")
          (codes "withdrawals currently support StandardManager accounts only"))
    else if is_cash asset.kind && snapshot.cash_withdraw_fee_enabled
    then some (
        blocker (codes "CASH_WITHDRAWALS_BLOCKED")
          (codes "cash withdrawals are paused while the temporary insolvency fee is active"))
    else if token_mismatch asset.configured_token_address snapshot.token_address
    then some (
        blocker (codes "ASSET_CONFIG_MISMATCH")
          (codes "runtime wrapped token differs from the market manifest"))
    else if decimals_mismatch asset.configured_token_decimals snapshot.token_decimals
    then some (
        blocker (codes "ASSET_DECIMALS_MISMATCH")
          (codes "runtime token decimals differ from the market manifest"))
    else none

-- `availableCash`
unfoldable pub available_cash : ℤ → ℤ → ℕ
available_cash cash_with_interest reserved =
    if ltb_ℤ reserved cash_with_interest then pos_part (cash_with_interest -ℤ reserved) else 0

-- `feeAdjustedCash`
unfoldable pub fee_adjusted_cash : WithdrawalSnapshot → ℕ → ℕ
fee_adjusted_cash snapshot available =
    if snapshot.cash_withdraw_fee_enabled && ltb 0 snapshot.cash_exchange_rate
    then ((available + 1) * snapshot.cash_exchange_rate - 1) / one_18
    else available

-- `noBorrowCashCap` of the preview, `cashCap18` of the final policy.
unfoldable pub cash_cap : WithdrawalSnapshot → ℤ → ℕ
unfolding available_cash fee_adjusted_cash
cash_cap snapshot reserved =
    let available = available_cash snapshot.cash_with_interest reserved in
    let adjusted = fee_adjusted_cash snapshot available in
    if ltb available adjusted then available else adjusted

-- What the account may give up, before the token's own liquidity.
unfoldable pub held_units : WithdrawalAssetDefinition → WithdrawalSnapshot → ℤ → ℕ
unfolding cash_cap to_token_units_floor
held_units asset snapshot reserved =
    if is_cash asset.kind
    then to_token_units_floor (pos (cash_cap snapshot reserved)) snapshot.token_decimals
    else to_token_units_floor (pos (pos_part snapshot.internal_balance)) snapshot.token_decimals

-- The cap in whole quanta of the token: `upper` of the preview, `cap` of the final policy.
unfoldable pub policy_cap : WithdrawalAssetDefinition → WithdrawalSnapshot → ℤ → ℕ
unfolding held_units token_quantum align
policy_cap asset snapshot reserved =
    let held = held_units asset snapshot reserved in
    let cap = if ltb snapshot.token_liquidity held then snapshot.token_liquidity else held in
    align cap (token_quantum snapshot.token_decimals)

-- `asset.kind === "cash" ? reservedCash(subaccountId) : 0n`
abbrev pub reserved_for_asset : WithdrawalEngineOptions → WithdrawalAssetDefinition → ℤ → ℤ
reserved_for_asset opts asset subaccount_id =
    if is_cash asset.kind then opts.reserved_cash subaccount_id else pos 0

-- `tokenUnits % quantum !== 0n`
abbrev pub unaligned : ℤ → ℕ → Bool
unaligned token_units quantum = not ((pos_part token_units + neg_part token_units) % quantum == 0)

abbrev pub policy_max_reduced : ℕ → WithdrawalApiError
policy_max_reduced cap = record {
  http_status = 409;
  body = record {
    code = codes "POLICY_MAX_REDUCED";
    message =
        codes
          "the latest balance, liquidity, insolvency, or reservation cap is below the signed amount";
    retryable = false;
    details = some ((codes "latestPolicyMaxTokenUnits", text_detail (to_string (pos cap))) ∷ []);
  };
}

-- `canonical && canonical.hash === block.hash`
abbrev pub same_block : Option WithdrawalPinnedBlock → WithdrawalPinnedBlock → Bool
same_block none block = false
same_block (some canonical) block = text_eq canonical.hash block.hash

-- `assertFinalPolicy`
unfoldable pub assert_final_policy :
    WithdrawalEngineOptions
    → WithdrawalGateway
    → WithdrawalOperation
    → Result WithdrawalApiError (Unit {0})
unfolding resolve_asset snapshot_blocker policy_cap token_quantum
assert_final_policy opts gateway operation = do
  asset ← resolve_asset opts operation.asset.asset_id
  let block = gateway.latest_block
  let snapshot = gateway.snapshot operation.subaccount_id asset block.number
  throw_if (snapshot_blocker opts operation.owner asset snapshot) (blocked (codes "POLICY_CHANGED"))
  let cap = policy_cap asset snapshot (reserved_for_asset opts asset operation.subaccount_id)
  guard
      (not (
        unaligned operation.token_units (token_quantum snapshot.token_decimals)
        || ltb_ℤ (pos cap) operation.token_units))
      (policy_max_reduced cap)
  throw_if
      (gateway.simulate_asset_withdrawal asset operation.subaccount_id operation.owner
        snapshot.account_holder block.number operation.token_units)
      (blocked (codes "POLICY_CHANGED"))
  guard (same_block (gateway.block_by_number block.number) block) (
      api_error 503 (codes "FINAL_PREFLIGHT_REORGED")
        (codes "latest state changed during final policy preflight") true)
