-- ===== src/Rfq/Quotes/Acceptance.antt =====
-- services/rfq-engine/src/quotes.ts: `validateTakerAccept` against a description of the acceptances
-- that the engine executes.
use derive_docs.Base.{ℕ, ◌≡◌, ◌↔◌, inl, inr, true, some, arith, ok, Option-cases}
use derive_docs.Base.Int.{◌+ℤ◌, ==ℤ_iff}
use derive_docs.Base.Text.{text_eq_iff}
use derive_docs.Rfq.Types.{Address, Hex, Rfq, Action, TakerOrder, Quote, address_eq_iff}
use derive_docs.Rfq.Quotes.{
  QuoteValidationContext, check_owner, verify_action_signature, validate_taker_accept,
  floor_seconds,
}
use derive_docs.Rfq.Quotes.Checks.{Same, ◌<ℤ◌, check_owner_iff, verify_action_signature_iff}

module _ (ctx : QuoteValidationContext) (rfq : Rfq) (quote : Quote) (action : Action)
    (signature : Hex) (now : ℕ) where
  -- An unexpired action on the RFQ module, for the account of this RFQ's taker, that signs the hash
  -- of the winning quote's trades while that quote's own action is unexpired.
  pub record IsAcceptance (order : TakerOrder) : Type 0 where
    pub target : Same action.target ctx.rfq_module
    pub account : action.subaccount_id ≡ rfq.taker_subaccount_id
    pub own_signer : Same action.signer action.owner
    pub unexpired : floor_seconds now <ℤ action.expiry
    pub quote_unexpired : floor_seconds now <ℤ quote.action.expiry
    pub decoded : ctx.viem.decode_taker_order action.call_data ≡ some order
    pub for_quote : order.order_hash ≡ quote.order_hash
    pub signed :
        (signer : Address) × (ctx.viem.recover_signer ctx.chain_id ctx.matching action signature
          ≡ some signer)
        × Same signer action.signer
    pub deposited :
        (o : Address) × (ctx.chain_reader.matching_owner action.subaccount_id ≡ some o)
        × Same o action.owner

  abbrev Passed : TakerOrder → Type 0
  Passed order =
      Same action.target ctx.rfq_module
      × (action.subaccount_id ≡ rfq.taker_subaccount_id)
      × Same action.signer action.owner
      × (floor_seconds now <ℤ action.expiry)
      × (floor_seconds now <ℤ quote.action.expiry)
      × (ctx.viem.decode_taker_order action.call_data ≡ some order)
      × (order.order_hash ≡ quote.order_hash)
      × (verify_action_signature ctx action signature ≡ true)
      × (check_owner ctx action.subaccount_id action.owner ≡ ok tt)

  accept-Passed :
      (order : TakerOrder)
      → (validate_taker_accept ctx rfq quote action signature now ≡ ok order) ↔ Passed order
  unfolding validate_taker_accept ◌+ℤ◌
  accept-Passed order = elim (Option-cases (ctx.viem.decode_taker_order action.call_data)) [
    | inl e ↦ (λ h. absurd (ground arith), λ h. absurd (ground arith))
    | inr (o, e) ↦ (
      λ h. ground (
        arith,
        address_eq_iff action.target ctx.rfq_module,
        address_eq_iff action.signer action.owner,
        ==ℤ_iff action.subaccount_id rfq.taker_subaccount_id,
        text_eq_iff o.order_hash quote.order_hash,
      ),
      λ h. ground (
        arith,
        address_eq_iff action.target ctx.rfq_module,
        address_eq_iff action.signer action.owner,
        ==ℤ_iff action.subaccount_id rfq.taker_subaccount_id,
        text_eq_iff o.order_hash quote.order_hash,
      ),
    )
  ]

  -- `validateTakerAccept` passes exactly the acceptances described, and returns their order.
  pub validate_taker_accept_iff :
      (order : TakerOrder)
      → (validate_taker_accept ctx rfq quote action signature now ≡ ok order) ↔ IsAcceptance order
  validate_taker_accept_iff order = (
    λ h.
        let (target, account, own_signer, unexpired, quote_unexpired, decoded, for_quote, s, d) =
          (accept-Passed order).0 h in
        record {
          target = target;
          account = account;
          own_signer = own_signer;
          unexpired = unexpired;
          quote_unexpired = quote_unexpired;
          decoded = decoded;
          for_quote = for_quote;
          signed = (verify_action_signature_iff ctx action signature).0 s;
          deposited = (check_owner_iff ctx action.subaccount_id action.owner).0 d;
        },
    λ a. (accept-Passed order).1 (
      a.target,
      a.account,
      a.own_signer,
      a.unexpired,
      a.quote_unexpired,
      a.decoded,
      a.for_quote,
      (verify_action_signature_iff ctx action signature).1 a.signed,
      (check_owner_iff ctx action.subaccount_id action.owner).1 a.deposited,
    ),
  )
