-- ===== src/Rfq/Quotes/Admission.antt =====
-- services/rfq-engine/src/quotes.ts: `validateQuote` against a description of the quotes that an
-- auction admits.
use derive_docs.Base.{
  Option-cases, ℕ, ◌<◌, ◌≡◌, ◌↔◌, ◌⊎◌, inl, inr, true, [], ◌∷◌, none, some, arith, ok, err,
  Result-cases,
}
use derive_docs.Base.Int.{ℤ, pos, negsuc, ◌+ℤ◌, ◌*ℤ◌, ◌/ℤ◌, ◌≤ℤ◌}
use derive_docs.Rfq.Types.{Address, Hex, RfqStatus, Rfq, Action, RfqTradeData, RfqOrder, Quote}
use derive_docs.Rfq.Quotes.{
  QuoteValidationContext, QuoteError, check_window, check_shape, check_trade, check_owner,
  check_cash, oi_fee_for, estimate_oi_fee, verify_action_signature, validate_quote,
  total_premium_of, floor_seconds, ceil_seconds,
}
use derive_docs.Rfq.Quotes.Checks.{
  Same, ◌<ℤ◌, Fits, check_window_iff, check_owner_iff, verify_action_signature_iff, check_cash_iff,
  check_trade_iff, check_shape_iff,
}

-- The time in seconds rounds down before the expiry exactly if the time itself is before it.
floor_seconds_iff :
    (now : ℕ) (expiry : ℤ) → (floor_seconds now <ℤ expiry) ↔ (pos now <ℤ expiry *ℤ pos 1000)
unfolding ◌*ℤ◌ ◌+ℤ◌
floor_seconds_iff now (pos n) = (λ h. ground arith, λ h. ground arith)
floor_seconds_iff now (negsuc n) = (λ h. ground arith, λ h. ground arith)

ceil_seconds_iff :
    (end_ : ℕ) (expiry : ℤ) → (ceil_seconds end_ ≤ℤ expiry) ↔ (pos end_ ≤ℤ expiry *ℤ pos 1000)
unfolding ◌*ℤ◌
ceil_seconds_iff end_ (pos n) = (λ h. ground arith, λ h. ground arith)
ceil_seconds_iff end_ (negsuc n) = (λ h. ground arith, λ h. ground arith)

-- Without a forward feed the fee is 0, otherwise it is the estimate for the option's asset and expiry.
abbrev pub IsEstimated : QuoteValidationContext → Rfq → ℤ → ℤ → Type 0
IsEstimated ctx rfq amount fee =
    ((ctx.forward_feed ≡ none) × (fee ≡ pos 0))
    ⊎ (feed : Address) × (ctx.forward_feed ≡ some feed)
      × (estimate_oi_fee ctx.chain_reader rfq.instrument.option_asset feed rfq.instrument.expiry
            amount
          ≡ some fee)

oi_fee_for_iff :
    (ctx : QuoteValidationContext) (rfq : Rfq) (amount fee : ℤ)
    → (oi_fee_for ctx rfq amount ≡ some fee) ↔ IsEstimated ctx rfq amount fee
unfolding oi_fee_for
oi_fee_for_iff ctx rfq amount fee = elim (Option-cases ctx.forward_feed) [
  | inl off ↦ (λ h. inl (off, ground arith), λ h. ground arith)
  | inr (feed, on) ↦ (λ h. inr (feed, on, ground arith), λ h. ground arith)
]

module _ (ctx : QuoteValidationContext) (rfq : Rfq) (maker : Address) (action : Action)
    (signature : Hex) (now received id : ℕ) where
  -- What the engine stores of a quote.
  abbrev pub admitted : RfqOrder → RfqTradeData → ℤ → Quote
  admitted order trade oi_fee = record {
    id = id;
    rfq_id = rfq.id;
    maker = maker;
    maker_subaccount_id = action.subaccount_id;
    premium = trade.price;
    total_premium = trade.price *ℤ trade.amount /ℤ pos 1_000_000_000_000_000_000;
    trades = order.trades;
    order_hash = ctx.viem.hash_rfq_trades order.trades;
    action = action;
    signature = signature;
    received_at = received;
    reserved_cash =
        trade.price *ℤ trade.amount /ℤ pos 1_000_000_000_000_000_000 +ℤ order.max_fee +ℤ oi_fee;
  }

  -- An open auction, an action of this maker's own account that outlives it, an order for exactly
  -- what the taker sells, a signature of the signer, and cash that covers the premium, the signed
  -- fee cap and the estimated fee on top of what is reserved.
  pub record IsAdmissible (q : Quote) : Type 0 where
    pub order : RfqOrder
    pub trade : RfqTradeData
    pub oi_fee : ℤ
    pub window : (rfq.status ≡ RfqStatus.opened) × (now < rfq.auction_ends_at)
    pub shape :
        Same action.target ctx.rfq_module
        × Same action.owner maker
        × Same action.signer action.owner
        × (pos 0 <ℤ action.subaccount_id)
        × (pos now <ℤ action.expiry *ℤ pos 1000)
        × (pos rfq.auction_ends_at ≤ℤ action.expiry *ℤ pos 1000)
    pub decoded : ctx.viem.decode_rfq_order action.call_data ≡ some order
    pub single : order.trades ≡ trade ∷ []
    pub fits : Fits rfq trade
    pub signed :
        (signer : Address) × (ctx.viem.recover_signer ctx.chain_id ctx.matching action signature
          ≡ some signer)
        × Same signer action.signer
    pub deposited :
        (o : Address) × (ctx.chain_reader.matching_owner action.subaccount_id ≡ some o)
        × Same o maker
    pub estimated : IsEstimated ctx rfq trade.amount oi_fee
    pub funded :
        (cash : ℤ) × (ctx.chain_reader.cash_balance action.subaccount_id ≡ some cash)
        × (ctx.reserved_cash
              +ℤ (trade.price *ℤ trade.amount /ℤ pos 1_000_000_000_000_000_000
                  +ℤ order.max_fee
                  +ℤ oi_fee)
            ≤ℤ cash)
    pub made : q ≡ admitted order trade oi_fee

  -- The shape of the action with its expiry in seconds, as the code compares it.
  abbrev InSeconds : Type 0
  InSeconds =
      Same action.target ctx.rfq_module
      × Same action.owner maker
      × Same action.signer action.owner
      × (pos 0 <ℤ action.subaccount_id)
      × (floor_seconds now <ℤ action.expiry)
      × (ceil_seconds rfq.auction_ends_at ≤ℤ action.expiry)

  abbrev InMilliseconds : Type 0
  InMilliseconds =
      Same action.target ctx.rfq_module
      × Same action.owner maker
      × Same action.signer action.owner
      × (pos 0 <ℤ action.subaccount_id)
      × (pos now <ℤ action.expiry *ℤ pos 1000)
      × (pos rfq.auction_ends_at ≤ℤ action.expiry *ℤ pos 1000)

  seconds : InMilliseconds → InSeconds
  seconds (target, owner, signer, account, live, outlives) = (
    target,
    owner,
    signer,
    account,
    (floor_seconds_iff now action.expiry).1 live,
    (ceil_seconds_iff rfq.auction_ends_at action.expiry).1 outlives,
  )

  milliseconds : InSeconds → InMilliseconds
  milliseconds (target, owner, signer, account, live, outlives) = (
    target,
    owner,
    signer,
    account,
    (floor_seconds_iff now action.expiry).0 live,
    (ceil_seconds_iff rfq.auction_ends_at action.expiry).0 outlives,
  )

  IsAdmissible-validate :
      (q : Quote)
      → IsAdmissible q
      → validate_quote ctx rfq maker action signature now received id ≡ ok q
  unfolding validate_quote
  IsAdmissible-validate q a = rw (
    (check_window_iff rfq now).1 a.window,
    (check_shape_iff ctx rfq maker action now).1 (seconds a.shape),
    a.decoded,
    (check_trade_iff rfq a.order.trades a.trade).1 (a.single, a.fits),
    (verify_action_signature_iff ctx action signature).1 a.signed,
    (check_owner_iff ctx action.subaccount_id maker).1 a.deposited,
    (oi_fee_for_iff ctx rfq a.trade.amount a.oi_fee).1 a.estimated,
    (check_cash_iff ctx action.subaccount_id _).1 a.funded,
    a.made,
  )

  -- What the calls returned, if the quote is admitted.
  abbrev Passed : Quote → RfqOrder → RfqTradeData → ℤ → Type 0
  Passed q order trade oi_fee =
      (check_window rfq now ≡ ok tt)
      × (check_shape ctx rfq maker action now ≡ ok tt)
      × (verify_action_signature ctx action signature ≡ true)
      × (check_owner ctx action.subaccount_id maker ≡ ok tt)
      × (check_cash ctx action.subaccount_id (total_premium_of trade +ℤ order.max_fee +ℤ oi_fee)
          ≡ ok tt)
      × (q ≡ admitted order trade oi_fee)

  validate-Passed :
      (q : Quote) (order : RfqOrder) (trade : RfqTradeData) (oi_fee : ℤ)
      → ctx.viem.decode_rfq_order action.call_data ≡ some order
      → check_trade rfq order.trades ≡ ok trade
      → oi_fee_for ctx rfq trade.amount ≡ some oi_fee
      → validate_quote ctx rfq maker action signature now received id ≡ ok q
      → Passed q order trade oi_fee
  unfolding validate_quote
  validate-Passed q order trade oi_fee d t f h = ground arith

  validate-IsAdmissible :
      (q : Quote)
      → validate_quote ctx rfq maker action signature now received id ≡ ok q
      → IsAdmissible q
  validate-IsAdmissible q h = elim (Option-cases (ctx.viem.decode_rfq_order action.call_data)) [
    | inl e ↦ absurd (undecodable e)
    | inr (order, d) ↦ elim (Result-cases (check_trade rfq order.trades)) [
      | inr (error, e) ↦ absurd (refused order error d e)
      | inl (trade, t) ↦ elim (Option-cases (oi_fee_for ctx rfq trade.amount)) [
        | inl e ↦ absurd (no_fee order trade d t e)
        | inr (oi_fee, f) ↦
            let (window, shape, signed, deposited, funded, made) =
              validate-Passed q order trade oi_fee d t f h in
            let (single, fits) = (check_trade_iff rfq order.trades trade).0 t in
            record {
              order = order;
              trade = trade;
              oi_fee = oi_fee;
              window = (check_window_iff rfq now).0 window;
              shape = milliseconds ((check_shape_iff ctx rfq maker action now).0 shape);
              decoded = d;
              single = single;
              fits = fits;
              signed = (verify_action_signature_iff ctx action signature).0 signed;
              deposited = (check_owner_iff ctx action.subaccount_id maker).0 deposited;
              estimated = (oi_fee_for_iff ctx rfq trade.amount oi_fee).0 f;
              funded = (check_cash_iff ctx action.subaccount_id _).0 funded;
              made = made;
            }
      ]
    ]
  ]
    where
      undecodable : ctx.viem.decode_rfq_order action.call_data ≡ none → ⊥
      undecodable e = unfold validate_quote in ground arith

      refused :
          (order : RfqOrder) (error : QuoteError)
          → ctx.viem.decode_rfq_order action.call_data ≡ some order
          → check_trade rfq order.trades ≡ err error
          → ⊥
      refused order error d e = unfold validate_quote in ground arith

      no_fee :
          (order : RfqOrder) (trade : RfqTradeData)
          → ctx.viem.decode_rfq_order action.call_data ≡ some order
          → check_trade rfq order.trades ≡ ok trade
          → oi_fee_for ctx rfq trade.amount ≡ none
          → ⊥
      no_fee order trade d t e = unfold validate_quote in ground arith

  -- validateQuote returns a quote exactly if the RFQ is open and its auction has not ended; the action is
  -- for the module, of the maker's own account with an identifier above 0, signed by its signer and
  -- valid after now and to the auction's end; its data are an order of one trade, for the option and
  -- amount asked for, at a positive price; and the account, deposited by the maker, has cash for what is
  -- reserved, the premium, the fee cap and the estimated fee (0 without a forward feed); then the quote
  -- is made of these.
  pub validate_quote_iff :
      (q : Quote)
      → (validate_quote ctx rfq maker action signature now received id ≡ ok q) ↔ IsAdmissible q
  validate_quote_iff q = (validate-IsAdmissible q, IsAdmissible-validate q)
