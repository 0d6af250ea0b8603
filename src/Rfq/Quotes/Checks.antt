-- ===== src/Rfq/Quotes/Checks.antt =====
-- services/rfq-engine/src/quotes.ts: the single checks of `validateQuote` and `validateTakerAccept`.
use derive_docs.Base.{
  Option-cases, ℕ, ◌<◌, ◌≡◌, ◌↔◌, inl, inr, true, List, [], ◌∷◌, some, arith, ok,
}
use derive_docs.Base.Int.{ℤ, pos, ◌+ℤ◌, ◌≤ℤ◌, ==ℤ_iff}
use derive_docs.Base.Text.{to_lower}
use derive_docs.Rfq.Types.{Address, Hex, RfqStatus, Rfq, Action, RfqTradeData, address_eq_iff}
use derive_docs.Rfq.Quotes.{
  QuoteValidationContext, check_window, check_shape, check_trade, check_owner, check_cash,
  verify_action_signature, floor_seconds, ceil_seconds,
}

-- The same account, however its address is spelled.
abbrev pub Same : Address → Address → Type 0
Same a b = to_lower a ≡ to_lower b

infix 50 ◌<ℤ◌
abbrev pub ◌<ℤ◌ : ℤ → ℤ → Type 0
a <ℤ b = a +ℤ pos 1 ≤ℤ b

pub check_window_iff :
    (rfq : Rfq) (now : ℕ)
    → (check_window rfq now ≡ ok tt)
      ↔ ((rfq.status ≡ RfqStatus.opened) × (now < rfq.auction_ends_at))
unfolding check_window
check_window_iff rfq now = (λ h. ground arith, λ h. ground arith)

pub check_owner_iff :
    (ctx : QuoteValidationContext) (id : ℤ) (a : Address)
    → (check_owner ctx id a ≡ ok tt)
      ↔ ((o : Address) × (ctx.chain_reader.matching_owner id ≡ some o) × Same o a)
unfolding check_owner
check_owner_iff ctx id a = elim (Option-cases (ctx.chain_reader.matching_owner id)) [
  | inl e ↦ (λ h. absurd (ground arith), λ (o, f, h). absurd (ground arith))
  | inr (o, e) ↦ (
    λ h. (o, e, ground (arith, address_eq_iff o a)),
    λ (p, f, h). ground (arith, address_eq_iff o a),
  )
]

pub verify_action_signature_iff :
    (ctx : QuoteValidationContext) (action : Action) (signature : Hex)
    → (verify_action_signature ctx action signature ≡ true) ↔ (
        (signer : Address) × (ctx.viem.recover_signer ctx.chain_id ctx.matching action signature
          ≡ some signer)
        × Same signer action.signer)
unfolding verify_action_signature
verify_action_signature_iff ctx action signature =
    elim (Option-cases (ctx.viem.recover_signer ctx.chain_id ctx.matching action signature)) [
      | inl e ↦ (λ h. absurd (ground arith), λ (o, f, h). absurd (ground arith))
      | inr (o, e) ↦ (
        λ h. (o, e, ground (arith, address_eq_iff o action.signer)),
        λ (p, f, h). ground (arith, address_eq_iff o action.signer),
      )
    ]

pub check_cash_iff :
    (ctx : QuoteValidationContext) (id required : ℤ)
    → (check_cash ctx id required ≡ ok tt) ↔ (
        (cash : ℤ) × (ctx.chain_reader.cash_balance id ≡ some cash)
        × (ctx.reserved_cash +ℤ required ≤ℤ cash))
unfolding check_cash
check_cash_iff ctx id required = elim (Option-cases (ctx.chain_reader.cash_balance id)) [
  | inl e ↦ (λ h. absurd (ground arith), λ (o, f, h). absurd (ground arith))
  | inr (cash, e) ↦ (λ h. (cash, e, ground arith), λ (p, f, h). ground arith)
]

-- The one trade of the order is the one that the RFQ asks for, at a positive price.
abbrev pub Fits : Rfq → RfqTradeData → Type 0
Fits rfq trade =
    Same trade.asset rfq.instrument.option_asset
    × (trade.sub_id ≡ rfq.instrument.sub_id)
    × (trade.amount ≡ rfq.amount)
    × (pos 0 <ℤ trade.price)

pub check_trade_iff :
    (rfq : Rfq) (trades : List RfqTradeData) (trade : RfqTradeData)
    → (check_trade rfq trades ≡ ok trade) ↔ ((trades ≡ trade ∷ []) × Fits rfq trade)
unfolding check_trade ◌+ℤ◌
check_trade_iff rfq [] trade = (λ h. absurd (ground arith), λ h. absurd (ground arith))
check_trade_iff rfq (t ∷ []) trade = (
  λ h. ground (
    arith,
    address_eq_iff t.asset rfq.instrument.option_asset,
    ==ℤ_iff t.sub_id rfq.instrument.sub_id,
    ==ℤ_iff t.amount rfq.amount,
  ),
  λ h. ground (
    arith,
    address_eq_iff t.asset rfq.instrument.option_asset,
    ==ℤ_iff t.sub_id rfq.instrument.sub_id,
    ==ℤ_iff t.amount rfq.amount,
  ),
)
check_trade_iff rfq (t ∷ u ∷ ts) trade = (λ h. absurd (ground arith), λ h. absurd (ground arith))

pub check_shape_iff :
    (ctx : QuoteValidationContext) (rfq : Rfq) (maker : Address) (action : Action) (now : ℕ)
    → (check_shape ctx rfq maker action now ≡ ok tt) ↔ (
        Same action.target ctx.rfq_module
        × Same action.owner maker
        × Same action.signer action.owner
        × (pos 0 <ℤ action.subaccount_id)
        × (floor_seconds now <ℤ action.expiry)
        × (ceil_seconds rfq.auction_ends_at ≤ℤ action.expiry))
unfolding check_shape ◌+ℤ◌
check_shape_iff ctx rfq maker action now = (
  λ h. ground (
    arith,
    address_eq_iff action.target ctx.rfq_module,
    address_eq_iff action.owner maker,
    address_eq_iff action.signer action.owner,
  ),
  λ h. ground (
    arith,
    address_eq_iff action.target ctx.rfq_module,
    address_eq_iff action.owner maker,
    address_eq_iff action.signer action.owner,
  ),
)
