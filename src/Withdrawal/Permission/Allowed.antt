-- ===== src/Withdrawal/Permission/Allowed.antt =====
-- services/rfq-engine/src/withdrawal.ts: `assertFinalPolicy` against a description of the withdrawals
-- that it lets through.
use derive_docs.Base.{◌≡◌, ◌⊎◌, false, Option, none, some, ok, ◌%◌, ◌+◌}
use derive_docs.Base.Int.{ℤ, pos, ◌≤ℤ◌, pos_part, neg_part}
use derive_docs.Rfq.Types.{Address}
use derive_docs.Rfq.Quotes.Checks.{Same}
use derive_docs.Withdrawal.Types.{AssetKind, WithdrawalOperation}
use derive_docs.Withdrawal.Amounts.{token_quantum}
use derive_docs.Withdrawal.Gateway.{
  WithdrawalSnapshot, WithdrawalAssetDefinition, WithdrawalGateway, WithdrawalPinnedBlock,
}
use derive_docs.Withdrawal.Policy.{
  WithdrawalEngineOptions, resolve_asset, zero_address, held_units, reserved_for_asset,
}
use derive_docs.Withdrawal.Permission.{latest_snapshot, latest_simulation}

-- The optional configuration of an asset, where it is set, is what the chain says.
abbrev pub Agrees : {A : Type 0} → (A → Type 0) → Option A → Type 0
Agrees P none = Unit
Agrees P (some a) = P a

-- The account stands in Matching for the owner, under the standard manager and with no exit pending,
-- cash pays no insolvency fee, and the token is the configured one.
pub record IsUnblocked (opts : WithdrawalEngineOptions) (owner : Address)
    (asset : WithdrawalAssetDefinition) (s : WithdrawalSnapshot) : Type 0 where
  pub deposited : ¬ Same s.matching_owner zero_address
  pub owned : Same s.matching_owner owner
  pub held : Same s.account_holder opts.matching
  pub staying : s.withdraw_timestamp ≡ 0
  pub managed : Same s.manager opts.standard_manager
  pub solvent : (asset.kind ≡ AssetKind.market_collateral) ⊎ (s.cash_withdraw_fee_enabled ≡ false)
  pub token : Agrees (λ t. Same s.token_address t) asset.configured_token_address
  pub decimals : Agrees (λ n. s.token_decimals ≡ n) asset.configured_token_decimals

-- The asset is configured and not blocked, the amount is whole quanta that the token can pay and the
-- account holds beyond its reserved cash, the simulation lets it through, and the block is canonical.
pub record IsAllowed (opts : WithdrawalEngineOptions) (gateway : WithdrawalGateway)
    (operation : WithdrawalOperation) (asset : WithdrawalAssetDefinition) : Type 0 where
  pub supported : resolve_asset opts operation.asset.asset_id ≡ ok asset
  pub unblocked :
      IsUnblocked opts operation.owner asset (latest_snapshot opts gateway operation asset)
  pub whole :
      (pos_part operation.token_units + neg_part operation.token_units)
        % token_quantum (latest_snapshot opts gateway operation asset).token_decimals
      ≡ 0
  pub liquid :
      operation.token_units ≤ℤ pos (latest_snapshot opts gateway operation asset).token_liquidity
  pub covered :
      operation.token_units
      ≤ℤ pos (
          held_units asset
            (latest_snapshot opts gateway operation asset)
            (reserved_for_asset opts asset operation.subaccount_id))
  pub simulated : latest_simulation opts gateway operation asset ≡ none
  pub canonical :
      (block : WithdrawalPinnedBlock) × (gateway.block_by_number gateway.latest_block.number
        ≡ some block)
      × (block.hash ≡ gateway.latest_block.hash)

module _ (opts : WithdrawalEngineOptions) (gateway : WithdrawalGateway)
    (operation : WithdrawalOperation) (asset : WithdrawalAssetDefinition) where
  abbrev latest : WithdrawalSnapshot
  latest = latest_snapshot opts gateway operation asset

  abbrev reserved : ℤ
  reserved = reserved_for_asset opts asset operation.subaccount_id

  abbrev block_found : Option WithdrawalPinnedBlock
  block_found = gateway.block_by_number gateway.latest_block.number
