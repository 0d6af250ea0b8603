-- ===== src/Rfq/Auction/Sound/Reachability.antt =====
-- services/rfq-engine/src/auction.ts: the engine as a step relation. Each handler runs on the state
-- that it finds; where it waits for the chain, it resumes in a later state.
use derive_docs.Base.{ℕ, ◌≡◌, [], none, some, ok}
use derive_docs.Base.Int.{ℤ}
use derive_docs.Base.Map.{lookup}
use derive_docs.Base.Text.{Text}
use derive_docs.Rfq.Types.{Address, Hex, Rfq, RfqExecutionIntent}
use derive_docs.Rfq.Store.{empty_store}
use derive_docs.Rfq.Quotes.{ChainReader}
use derive_docs.Rfq.Executor.{Encoders}
use derive_docs.Rfq.Auction.State.{Engine}
use derive_docs.Rfq.Auction.Opening.{OpenRequest, open_rfq}
use derive_docs.Rfq.Auction.Bidding.{EngineOptions, Submission, submit_quote, cancel_quote}
use derive_docs.Rfq.Auction.Lifecycle.{close_auction, expire_accept}
use derive_docs.Rfq.Auction.Terminal.{executing_rfq}
use derive_docs.Rfq.Auction.Execution.{
  Acceptance, Prepared, prepare_acceptance, commit_acceptance, announce, ExecutionOutcome,
  finish_acceptance,
}
use derive_docs.Rfq.Auction.Recovery.{Reconciliation, read_rfq}

-- An engine over an empty store.
abbrev pub IsFresh : Engine → Type 0
IsFresh e = (e.store ≡ empty_store) × (e.reservations ≡ [])

-- The states that the handlers lead to, from a fresh engine. Identifiers are fresh. An execution
-- is finished on the record that its acceptance has written: its RFQ is locked, and a read leaves an
-- active execution alone. Its hash may be announced in a step before, and the end is then without one.
pub data Reachable (opts : EngineOptions) : Engine → Type 0 where
  starts : (e : Engine) → IsFresh e → Reachable opts e
  opens :
      (request : OpenRequest) (created_at id : ℕ) (e : Engine)
      → lookup id e.store.rfqs ≡ none
      → Reachable opts e
      → Reachable opts (open_rfq opts.auction_window_ms request created_at id e).0
  submits :
      (chain : ChainReader) (p : Submission) (now received resumed id : ℕ) (before after : Engine)
      → lookup id after.store.quotes ≡ none
      → Reachable opts before
      → Reachable opts after
      → Reachable opts (submit_quote opts chain p now received resumed id before after).0
  cancels :
      (quote_id : ℕ) (maker : Address) (now : ℕ) (before after : Engine)
      → Reachable opts after
      → Reachable opts (cancel_quote quote_id maker now before after).0
  closes :
      (rfq_id now : ℕ) (e : Engine)
      → Reachable opts e
      → Reachable opts (close_auction opts.accept_deadline_ms rfq_id now e)
  expires : (rfq_id : ℕ) (e : Engine) → Reachable opts e → Reachable opts (expire_accept rfq_id e)
  prepares :
      (enc : Encoders) (no_data : Hex) (chain : ChainReader) (p : Acceptance) (now : ℕ) (block : ℤ)
      (e : Engine)
      → Reachable opts e
      → Reachable opts (prepare_acceptance opts enc no_data chain p now block e).0
  commits :
      (enc : Encoders) (no_data : Hex) (chain : ChainReader) (p : Acceptance) (prepared_at now : ℕ)
      (block : ℤ) (before after : Engine) (prepared : Prepared)
      → (prepare_acceptance opts enc no_data chain p prepared_at block before).1 ≡ ok prepared
      → Reachable opts after
      → Reachable opts (commit_acceptance p.rfq_id prepared now after).0
  announces :
      (hash : Hex) (rfq : Rfq) (intent : RfqExecutionIntent) (e : Engine)
      → lookup rfq.id e.store.rfqs ≡ some (executing_rfq rfq intent)
      → Reachable opts e
      → Reachable opts (announce (some hash) rfq intent e)
  finishes :
      (rfq : Rfq) (intent : RfqExecutionIntent) (mismatch : Text) (outcome : ExecutionOutcome)
      (now : ℕ) (e : Engine)
      → lookup rfq.id e.store.rfqs ≡ some (executing_rfq rfq intent)
      → Reachable opts e
      → Reachable opts (finish_acceptance rfq intent mismatch outcome now e).0
  reads :
      (answer : Reconciliation) (id : ℕ) (e : Engine)
      → Reachable opts e
      → Reachable opts (read_rfq answer id e).1
