-- ===== src/Withdrawal/Permission.antt =====
-- services/rfq-engine/src/withdrawal.ts: what `assertFinalPolicy` lets through.
pub mod Allowed
use native.Mathlib.Nat.{div-mul-le_self}
use derive_docs.Base.{
  ok_injective, sym, ◌∙◌, if◌then◌else◌, ltb, bind_ok, guard_ok, guard-ok, neither, ℕ, ◌≡◌, ◌↔◌,
  true, false, Option, none, arith, ok, ◌≤◌, ◌<◌, ◌%◌, refl,
}
use derive_docs.Base.Int.{ℤ, pos, ◌+ℤ◌, ◌≤ℤ◌, ltb_ℤ, ltb_false→leℤ, +ℤ_parts, int_laws}
use derive_docs.Withdrawal.Types.{AssetKind, WithdrawalOperation}
use derive_docs.Withdrawal.Amounts.{
  to_token_units_floor, token_units_to_18_floor, token_quantum, align, floor_is_greatest,
}
use derive_docs.Withdrawal.Gateway.{
  WithdrawalBlocker, WithdrawalSnapshot, WithdrawalAssetDefinition, WithdrawalGateway, throw_if-ok,
}
use derive_docs.Withdrawal.Policy.{
  WithdrawalEngineOptions, resolve_asset, snapshot_blocker, held_units, policy_cap,
  reserved_for_asset, unaligned, same_block, assert_final_policy, cash_cap, available_cash,
  held_units,
}

module _ (opts : WithdrawalEngineOptions) (gateway : WithdrawalGateway)
    (operation : WithdrawalOperation) where
  abbrev pub latest_snapshot : WithdrawalAssetDefinition → WithdrawalSnapshot
  latest_snapshot asset = gateway.snapshot operation.subaccount_id asset gateway.latest_block.number

  abbrev pub latest_cap : WithdrawalAssetDefinition → ℕ
  latest_cap asset =
      policy_cap asset (latest_snapshot asset)
        (reserved_for_asset opts asset operation.subaccount_id)

  abbrev latest_simulation : WithdrawalAssetDefinition → Option WithdrawalBlocker
  latest_simulation asset =
      gateway.simulate_asset_withdrawal asset operation.subaccount_id operation.owner
        (latest_snapshot asset).account_holder gateway.latest_block.number operation.token_units

  -- The snapshot of the latest block has no blocker, the amount is whole quanta within the cap, the
  -- node's simulation lets it through, and the block is still canonical.
  pub record IsPermitted (asset : WithdrawalAssetDefinition) : Type 0 where
    pub supported : resolve_asset opts operation.asset.asset_id ≡ ok asset
    pub unblocked : snapshot_blocker opts operation.owner asset (latest_snapshot asset) ≡ none
    pub whole :
        unaligned operation.token_units (token_quantum (latest_snapshot asset).token_decimals)
        ≡ false
    pub within : operation.token_units ≤ℤ pos (latest_cap asset)
    pub simulated : latest_simulation asset ≡ none
    pub canonical :
        same_block (gateway.block_by_number gateway.latest_block.number) gateway.latest_block ≡ true

  pub IsPermitted-passes :
      (asset : WithdrawalAssetDefinition)
      → IsPermitted asset
      → assert_final_policy opts gateway operation ≡ ok tt
  unfolding assert_final_policy
  IsPermitted-passes asset p =
      let fits : ltb_ℤ (pos (latest_cap asset)) operation.token_units ≡ false =
        ground (arith, p.within) in
      rw (p.supported, p.unblocked, p.whole, fits, p.simulated, p.canonical) refl

  pub passes-IsPermitted :
      assert_final_policy opts gateway operation ≡ ok tt
      → (asset : WithdrawalAssetDefinition) × IsPermitted asset
  unfolding assert_final_policy
  passes-IsPermitted h =
      let (asset, supported, h1) = bind_ok (resolve_asset opts operation.asset.asset_id) _ h in
      let (unblocked, h2) = throw_if-ok _ _ _ h1 in
      let (fits, h3) = guard_ok _ _ _ h2 in
      let (whole, below) = neither _ _ fits in
      let (simulated, h4) = throw_if-ok _ _ _ h3 in
      let canonical = guard-ok _ _ h4 in
      (
        asset,
        record {
          supported = supported;
          unblocked = unblocked;
          whole = whole;
          within = ltb_false→leℤ (pos (latest_cap asset)) operation.token_units below;
          simulated = simulated;
          canonical = canonical;
        },
      )

-- Cash that is not reserved covers what a cash cap is worth.
cash_cap-le :
    (snapshot : WithdrawalSnapshot) (reserved : ℤ)
    → 0 < cash_cap snapshot reserved
    → pos (cash_cap snapshot reserved) +ℤ reserved ≤ℤ snapshot.cash_with_interest
unfolding cash_cap available_cash
cash_cap-le snapshot reserved h = grind int_laws

pub align-le : (n q : ℕ) → align n q ≤ n
unfolding align
align-le n q = div-mul-le_self n q

capped :
    (held liquidity q : ℕ)
    → let cap = if ltb liquidity held then liquidity else held in
      (align cap q ≤ liquidity) × (align cap q ≤ held)
capped held liquidity q =
    let cap = if ltb liquidity held then liquidity else held in ground (arith, align-le cap q)

pub policy_cap-le :
    (asset : WithdrawalAssetDefinition) (snapshot : WithdrawalSnapshot) (reserved : ℤ)
    → (policy_cap asset snapshot reserved ≤ snapshot.token_liquidity)
      × (policy_cap asset snapshot reserved ≤ held_units asset snapshot reserved)
unfolding policy_cap
policy_cap-le asset snapshot reserved =
    capped (held_units asset snapshot reserved) snapshot.token_liquidity
      (token_quantum snapshot.token_decimals)

held_units-cash :
    (asset : WithdrawalAssetDefinition) (snapshot : WithdrawalSnapshot) (reserved : ℤ)
    → asset.kind ≡ AssetKind.cash
    → held_units asset snapshot reserved
      ≡ to_token_units_floor (pos (cash_cap snapshot reserved)) snapshot.token_decimals
unfolding held_units
held_units-cash asset snapshot reserved cash = rw cash refl

floor-pos : (amount decimals : ℕ) → 0 < to_token_units_floor (pos amount) decimals → 0 < amount
unfolding to_token_units_floor
floor-pos amount decimals h = ground arith

shrink_covers :
    (small large : ℕ) (reserved cash : ℤ)
    → small ≤ large
    → pos large +ℤ reserved ≤ℤ cash
    → pos small +ℤ reserved ≤ℤ cash
shrink_covers small large reserved cash order covered =
    grind (int_laws, +ℤ_parts (pos small) reserved, +ℤ_parts (pos large) reserved)

unaligned-false : (units q : ℕ) → unaligned (pos units) q ≡ false → units % q ≡ 0
unaligned-false units q h = ground arith

reserved_for_asset-cash :
    (opts : WithdrawalEngineOptions) (asset : WithdrawalAssetDefinition) (subaccount_id : ℤ)
    → asset.kind ≡ AssetKind.cash
    → reserved_for_asset opts asset subaccount_id ≡ opts.reserved_cash subaccount_id
reserved_for_asset-cash opts asset subaccount_id cash = rw cash refl

-- A positive payable amount within a cash cap is worth cash that is not reserved.
cash-covers :
    (asset : WithdrawalAssetDefinition) (snapshot : WithdrawalSnapshot) (reserved : ℤ) (units : ℕ)
    → asset.kind ≡ AssetKind.cash
    → units % token_quantum snapshot.token_decimals ≡ 0
    → units ≤ policy_cap asset snapshot reserved
    → 0 < units
    → (pos (token_units_to_18_floor units snapshot.token_decimals) +ℤ reserved
        ≤ℤ snapshot.cash_with_interest)
      × (units ≤ snapshot.token_liquidity)
cash-covers asset snapshot reserved units cash whole within positive =
    let (liquid, held) = policy_cap-le asset snapshot reserved in
    let floor : units
        ≤ to_token_units_floor (pos (cash_cap snapshot reserved)) snapshot.token_decimals =
      rw (← held_units-cash asset snapshot reserved cash) (omega arith) in
    let worth : token_units_to_18_floor units snapshot.token_decimals ≤ cash_cap snapshot reserved =
      (floor_is_greatest (cash_cap snapshot reserved) snapshot.token_decimals units whole).0
        floor in
    let some_cash : 0 < cash_cap snapshot reserved =
      floor-pos (cash_cap snapshot reserved) snapshot.token_decimals (omega arith) in
    (
      shrink_covers _ _ reserved snapshot.cash_with_interest worth
          (cash_cap-le snapshot reserved some_cash),
      omega arith,
    )

module _ (opts : WithdrawalEngineOptions) (gateway : WithdrawalGateway)
    (operation : WithdrawalOperation) (asset : WithdrawalAssetDefinition) where
  abbrev snapshot : WithdrawalSnapshot
  snapshot = latest_snapshot opts gateway operation asset

  -- A cash withdrawal that passes the final policy check leaves the makers' reserved cash alone: the
  -- value of its positive amount and the account's reserved cash together are at most the account's
  -- cash, and the amount is at most the token's liquidity.
  pub final_policy_keeps_reserve :
      (units : ℕ)
      → assert_final_policy opts gateway operation ≡ ok tt
      → resolve_asset opts operation.asset.asset_id ≡ ok asset
      → asset.kind ≡ AssetKind.cash
      → operation.token_units ≡ pos units
      → 0 < units
      → (pos (token_units_to_18_floor units snapshot.token_decimals)
            +ℤ opts.reserved_cash operation.subaccount_id
          ≤ℤ snapshot.cash_with_interest)
        × (units ≤ snapshot.token_liquidity)
  final_policy_keeps_reserve units passed supported cash amount positive =
      let (a, permitted) = passes-IsPermitted opts gateway operation passed in
      let same : a ≡ asset = ok_injective (sym permitted.supported ∙ supported) in
      let p : IsPermitted opts gateway operation asset = rw (← same) permitted in
      let reserved = reserved_for_asset opts asset operation.subaccount_id in
      let within : pos units ≤ℤ pos (policy_cap asset snapshot reserved) = rw amount at p.within in
      let covered =
        cash-covers asset snapshot reserved units cash
          (unaligned-false units (token_quantum snapshot.token_decimals) (rw amount at p.whole))
          (omega arith) positive in
      rw (reserved_for_asset-cash opts asset operation.subaccount_id cash) at covered
