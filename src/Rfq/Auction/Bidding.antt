-- ===== src/Rfq/Auction/Bidding.antt =====
-- services/rfq-engine/src/auction.ts: `submitQuote` and `cancelQuote`. The chain is read while the
-- locks are held, and other handlers may run meanwhile: `before` is the state that a handler
-- finds, `after` the one that it resumes in.
use derive_docs.Base.{
  ℕ, ◌≡◌, Bool, true, false, ◌&&◌, List, [], ◌∷◌, map, Option, none, some, ltb, if◌then◌else◌,
  Result, ok, err, ◌>>=◌, or_throw, filter, last?, arith, inl, inr, Result-cases, Bool-cases,
}
use mathlib.Core.Option
use derive_docs.Base.Int.{ℤ}
use derive_docs.Base.Text.{Text}
use derive_docs.Rfq.Types.{Address, Hex, RfqStatus, Rfq, Action, Quote, address_eq, status_eq}
use derive_docs.Rfq.Store.{Store, get_rfq, get_quote, list_quotes, put_quote, delete_quote}
use derive_docs.Rfq.Quotes.{
  ChainReader, Viem, QuoteValidationContext, QuoteError, unknown_rfq, unknown_quote, window_closed,
  auction_closed, validate_quote,
}
use derive_docs.Rfq.Auction.State.{Engine, reserved_for, release_reservation, reserve}

-- The options that the handlers read.
pub record EngineOptions : Type 0 where
  pub chain_id : ℕ
  pub matching : Address
  pub rfq_module : Address
  pub viem : Viem
  pub forward_feed : Text → Option Address
  pub auction_window_ms : ℕ
  pub accept_deadline_ms : ℕ

-- The parameters of `submitQuote`.
pub record Submission : Type 0 where
  pub rfq_id : ℕ
  pub maker : Address
  pub action : Action
  pub signature : Hex

unfoldable pub validation_ctx : EngineOptions → ChainReader → Rfq → ℤ → QuoteValidationContext
validation_ctx opts chain rfq reserved_cash = record {
  chain_id = opts.chain_id;
  matching = opts.matching;
  rfq_module = opts.rfq_module;
  chain_reader = chain;
  viem = opts.viem;
  forward_feed = opts.forward_feed rfq.instrument.currency;
  reserved_cash = reserved_cash;
}

abbrev pub quote_ids : List Quote → List ℕ
quote_ids qs = map (λ q. q.id) qs

-- The maker's earlier quotes on the RFQ.
unfoldable pub prior_quotes : ℕ → Address → Store → List Quote
prior_quotes rfq_id maker s = filter (λ q. address_eq q.maker maker) (list_quotes rfq_id s)

-- From the first read to the end of the validation.
unfoldable pub check_submission :
    EngineOptions
    → ChainReader
    → Submission
    → (now received id : ℕ) → Engine
    → Result QuoteError Quote
check_submission opts chain p now received id e = do
  rfq ← or_throw (get_rfq p.rfq_id e.store) unknown_rfq
  let exclude = quote_ids (prior_quotes p.rfq_id p.maker e.store)
  let ctx = validation_ctx opts chain rfq (reserved_for p.action.subaccount_id exclude e)
  validate_quote ctx rfq p.maker p.action p.signature now received id

-- `!rfq || rfq.status !== "open" || now >= rfq.auctionEndsAt`, the other way round.
abbrev pub is_biddable : Option Rfq → ℕ → Bool
is_biddable none now = false
is_biddable (some rfq) now = status_eq rfq.status RfqStatus.opened && ltb now rfq.auction_ends_at

-- `deleteQuote(old.id)` and `releaseReservation(old.id)`
unfoldable pub drop_quote : ℕ → Engine → Engine
drop_quote id e = release_reservation id (record e { store = delete_quote id e.store })

unfoldable pub drop_quotes : List Quote → Engine → Engine
drop_quotes [] e = e
drop_quotes (q ∷ qs) e = drop_quotes qs (drop_quote q.id e)

unfoldable pub admit_quote : Quote → Engine → Engine
admit_quote q e = reserve q (record e { store = put_quote q e.store })

-- `submitQuoteLocked`: the state that it leaves, and the quote with the one that it replaces.
unfoldable pub submit_quote :
    EngineOptions
    → ChainReader
    → Submission
    → (now received resumed id : ℕ) → (before after : Engine)
    → Engine × Result QuoteError (Quote × Option ℕ)
submit_quote opts chain p now received resumed id before after =
    elim (check_submission opts chain p now received id before) [
      | err error ↦ (after, err error)
      | ok quote ↦
          let prior = prior_quotes p.rfq_id p.maker before.store in
          if is_biddable (get_rfq p.rfq_id after.store) resumed
          then (
            admit_quote quote (drop_quotes prior after),
            ok (quote, Option.map (λ q. q.id) (last? prior)),
          )
          else (after, err window_closed)
    ]

abbrev pub is_owned : Option Quote → Address → Bool
is_owned none maker = false
is_owned (some q) maker = address_eq q.maker maker

-- `cancelQuote`, with the second look at the quote under the locks.
unfoldable pub cancel_quote :
    (quote_id : ℕ)
    → Address
    → (now : ℕ) → (before after : Engine) → Engine × Result QuoteError Quote
cancel_quote quote_id maker now before after =
    if is_owned (get_quote quote_id before.store) maker
    then elim (get_quote quote_id after.store) [
      | none ↦ (after, err unknown_quote)
      | some current ↦
          if address_eq current.maker maker
          then if is_biddable (get_rfq current.rfq_id after.store) now
            then (drop_quote current.id after, ok current)
            else (after, err auction_closed)
          else (after, err unknown_quote)
    ]
    else (after, err unknown_quote)

-- A submission that succeeds has passed the checks in the first state and found the auction open in
-- the second, and has replaced the prior quotes by the new one.
pub submit_quote-ok :
    (opts : EngineOptions) (chain : ChainReader) (p : Submission) (now received resumed id : ℕ)
    (before after after' : Engine) (q : Quote) (replaced : Option ℕ)
    → submit_quote opts chain p now received resumed id before after ≡ (after', ok (q, replaced))
    → (check_submission opts chain p now received id before ≡ ok q)
      × (is_biddable (get_rfq p.rfq_id after.store) resumed ≡ true)
      × (after' ≡ admit_quote q (drop_quotes (prior_quotes p.rfq_id p.maker before.store) after))
unfolding submit_quote
submit_quote-ok opts chain p now received resumed id before after after' q replaced h =
    elim (Result-cases (check_submission opts chain p now received id before)) [
      | inr (error, e) ↦ absurd (ground arith)
      | inl (quote, e) ↦ elim (Bool-cases (is_biddable (get_rfq p.rfq_id after.store) resumed)) [
        | inl found ↦ ground arith
        | inr late ↦ absurd (ground arith)
      ]
    ]
