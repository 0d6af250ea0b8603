-- ===== src/Rfq/Auction/Sound/Safety.antt =====
-- services/rfq-engine/src/auction.ts: what holds in every state that the engine reaches.
use derive_docs.Base.{
  ℕ, ◌≡◌, refl, inl, inr, ◌≢◌, ◌⊎◌, true, none, some, arith, Option-cases, Bool-cases, Result, ok,
  Result-cases,
}
use derive_docs.Base.Int.{ℤ, pos}
use derive_docs.Base.Map.{lookup}
use derive_docs.Rfq.Types.{Hex, RfqStatus, Rfq, Quote}
use derive_docs.Rfq.Store.{get_rfq, ids_of}
use derive_docs.Rfq.Quotes.{QuoteError, ChainReader, validate_taker_accept}
use derive_docs.Rfq.Executor.{Encoders, build_rfq_execution, create_execution_intent}
use derive_docs.Rfq.Auction.State.{Engine, emit}
use derive_docs.Rfq.Auction.Opening.{OpenRequest, make_rfq, open_rfq}
use derive_docs.Rfq.Auction.Bidding.{EngineOptions, validation_ctx}
use derive_docs.Rfq.Auction.Lifecycle.{expire_accept, winner_of}
use derive_docs.Rfq.Auction.Terminal.{executing_rfq}
use derive_docs.Rfq.Auction.Execution.{
  Acceptance, Prepared, acceptable, is_overdue, prepare_acceptance,
}
use derive_docs.Rfq.Auction.Sound.{IsSound, IsSound-at}
use derive_docs.Rfq.Auction.Sound.Steps.{put_rfq-IsSoundIn}
use derive_docs.Rfq.Auction.Sound.Quoting.{submit_quote-IsSound, cancel_quote-IsSound}
use derive_docs.Rfq.Auction.Sound.Ending.{expire_accept-IsSound}
use derive_docs.Rfq.Auction.Sound.Closing.{close_auction-IsSound}
use derive_docs.Rfq.Auction.Sound.Executing.{announce-IsSound}
use derive_docs.Rfq.Auction.Sound.Accepting.{
  Matches, commit_acceptance-IsSound, finish_acceptance-IsSound,
}
use derive_docs.Rfq.Auction.Sound.Reconciling.{read_rfq-IsSound}
use derive_docs.Rfq.Auction.Sound.Reachability.{
  IsFresh, Reachable, starts, opens, submits, cancels, closes, expires, prepares, commits,
  announces, finishes, reads,
}
use derive_docs.Rfq.Auction.Sound.{holds_collateral}

fresh-IsSound : (e : Engine) → IsFresh e → IsSound e
fresh-IsSound e (s, m) =
    rw (s, m)
      (record {
        keyed = λ id rfq h. unfold lookup in absurd (ground arith);
        intents = λ id rfq h. unfold lookup in absurd (ground arith);
        indexed = record {
          keyed = λ id q h. unfold lookup in absurd (ground arith);
          filed = λ r id. unfold lookup ids_of in refl;
          distinct = λ r. unfold lookup ids_of in tt;
        };
        backed = λ id r h. unfold lookup in absurd (ground arith);
      })

make_rfq-opened :
    (window : ℕ) (request : OpenRequest) (created_at id : ℕ) (rfq : Rfq)
    → make_rfq window request created_at id ≡ ok rfq
    → rfq.status ≡ RfqStatus.opened
unfolding make_rfq
make_rfq-opened window request created_at id rfq h = ground arith

open_rfq-IsSound :
    (window : ℕ) (request : OpenRequest) (created_at id : ℕ) (e : Engine)
    → IsSound e
    → IsSound (open_rfq window request created_at id e).0
open_rfq-IsSound window request created_at id e v =
    elim (Result-cases (make_rfq window request created_at id)) [
      | inr (error, h) ↦ unfold open_rfq in rw (h, open_rfq) v
      | inl (rfq, h) ↦
          let opened = make_rfq-opened window request created_at id rfq h in
          unfold open_rfq emit in
          rw (h, open_rfq)
            (put_rfq-IsSoundIn rfq e.store e.reservations (rw opened)
              (λ id r q reserved found filed. rw opened) v)
    ]

module _ (opts : EngineOptions) (enc : Encoders) (no_data : Hex) (chain : ChainReader)
    (p : Acceptance) (now : ℕ) (block : ℤ) (e : Engine) where
  prepared : Engine × Result QuoteError Prepared
  prepared = prepare_acceptance opts enc no_data chain p now block e

  -- The state stays as it is, or an overdue RFQ is expired; what is prepared is an intent for the
  -- quote that is accepted.
  prepared-cases :
      ((prepared.0 ≡ e) ⊎ ((id : ℕ) × (prepared.0 ≡ expire_accept id e)))
      × ((x : Prepared) → prepared.1 ≡ ok x → Matches x)
  unfolding prepared prepare_acceptance build_rfq_execution create_execution_intent
  prepared-cases = elim (Result-cases (acceptable (get_rfq p.rfq_id e.store))) [
    | inr (error, a) ↦ rw (prepare_acceptance, a) (inl refl, λ x h. absurd (ground arith))
    | inl (rfq, a) ↦ elim (Option-cases (winner_of rfq e.store)) [
      | inl w ↦ rw (prepare_acceptance, a, w) (inl refl, λ x h. absurd (ground arith))
      | inr (q, w) ↦ elim (Bool-cases (is_overdue rfq now)) [
        | inl late ↦
            rw (prepare_acceptance, a, w, late) (inr (rfq.id, refl), λ x h. absurd (ground arith))
        | inr early ↦
            elim (Result-cases (
              validate_taker_accept (validation_ctx opts chain rfq (pos 0)) rfq q p.action
                p.signature now)) [
                  | inr (error, f) ↦
                      rw (prepare_acceptance, a, w, early, f)
                        (inl refl, λ x h. absurd (ground arith))
                  | inl (order, f) ↦
                      rw (prepare_acceptance, a, w, early, f) (inl refl, λ x h. ground arith)
                ]
      ]
    ]
  ]

  pub prepare_acceptance-Matches :
      (x : Prepared)
      → (prepare_acceptance opts enc no_data chain p now block e).1 ≡ ok x
      → Matches x
  prepare_acceptance-Matches x h = prepared-cases.1 x (unfold prepared in h)

  pub prepare_acceptance-IsSound :
      IsSound e → IsSound (prepare_acceptance opts enc no_data chain p now block e).0
  unfolding prepared
  prepare_acceptance-IsSound v = elim prepared-cases.0 [
    | inl h ↦ IsSound-at e h v
    | inr (id, h) ↦ IsSound-at (expire_accept id e) h (expire_accept-IsSound id e v)
  ]

module _ (opts : EngineOptions) where
  -- Every state that the handlers lead to is sound, whatever the order and the interleaving of
  -- their steps: RFQs and quotes are stored under their ids, the index of quotes is in step with the
  -- quotes, the intent of an execution is for the winning quote, and each reservation is that of a
  -- stored quote, with its account and amount, whose RFQ is open, or closed or executing with the
  -- quote as its winner.
  pub Reachable-IsSound : (e : Engine) → Reachable opts e → IsSound e
  Reachable-IsSound e (starts _ fresh) = fresh-IsSound e fresh
  Reachable-IsSound _ (opens request created_at id e new r) =
      open_rfq-IsSound opts.auction_window_ms request created_at id e (Reachable-IsSound e r)
  Reachable-IsSound _ (submits chain p now received resumed id before after new r r') =
      submit_quote-IsSound opts chain p now received resumed id before after new
        (Reachable-IsSound before r) (Reachable-IsSound after r')
  Reachable-IsSound _ (cancels quote_id maker now before after r) =
      cancel_quote-IsSound quote_id maker now before after (Reachable-IsSound after r)
  Reachable-IsSound _ (closes rfq_id now e r) =
      close_auction-IsSound opts.accept_deadline_ms rfq_id now e (Reachable-IsSound e r)
  Reachable-IsSound _ (expires rfq_id e r) = expire_accept-IsSound rfq_id e (Reachable-IsSound e r)
  Reachable-IsSound _ (prepares enc no_data chain p now block e r) =
      prepare_acceptance-IsSound opts enc no_data chain p now block e (Reachable-IsSound e r)
  Reachable-IsSound _
        (commits enc no_data chain p prepared_at now block before after prepared h r) =
      commit_acceptance-IsSound p.rfq_id prepared now after
        (prepare_acceptance-Matches opts enc no_data chain p prepared_at block before prepared h)
        (Reachable-IsSound after r)
  Reachable-IsSound _ (announces hash rfq intent e stored r) =
      let v = Reachable-IsSound e r in
      announce-IsSound (some hash) rfq intent e (executing_rfq rfq intent, stored, refl, refl)
        (v.intents rfq.id (executing_rfq rfq intent) stored) v
  Reachable-IsSound _ (finishes rfq intent mismatch outcome now e stored r) =
      let v = Reachable-IsSound e r in
      finish_acceptance-IsSound rfq intent mismatch now e outcome
        (executing_rfq rfq intent, stored, refl, refl)
        (v.intents rfq.id (executing_rfq rfq intent) stored) v
  Reachable-IsSound _ (reads answer id e r) = read_rfq-IsSound answer id e (Reachable-IsSound e r)

  -- In every state that is reached, no cash is reserved for a stored quote whose stored RFQ is not
  -- open, if the quote is not the RFQ's winner or the RFQ is neither closed nor executing.
  pub reserved_only_for_winner :
      (e : Engine) (rfq : Rfq) (q : Quote)
      → Reachable opts e
      → lookup q.rfq_id e.store.rfqs ≡ some rfq
      → lookup q.id e.store.quotes ≡ some q
      → rfq.status ≢ RfqStatus.opened
      → rfq.best_quote_id ≢ some q.id
        ⊎ ((rfq.status ≢ RfqStatus.closed) × (rfq.status ≢ RfqStatus.executing))
      → lookup q.id e.reservations ≡ none
  reserved_only_for_winner e rfq q r stored found ended why =
      elim (Option-cases (lookup q.id e.reservations)) [
        | inl gone ↦ gone
        | inr (reservation, held) ↦ absurd (
            unheld rfq q.id ended why
              (rw stored at (rw found at ((Reachable-IsSound e r).backed q.id reservation held)).1))
      ]
    where
      unheld :
          (rfq : Rfq) (id : ℕ)
          → rfq.status ≢ RfqStatus.opened
          → rfq.best_quote_id ≢ some id
            ⊎ ((rfq.status ≢ RfqStatus.closed) × (rfq.status ≢ RfqStatus.executing))
          → holds_collateral rfq id ≡ true
          → ⊥
      unheld rfq id ended why h = ground arith
