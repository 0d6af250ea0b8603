-- ===== src/Rfq/Auction/Reading.antt =====
-- services/rfq-engine/src/auction.ts: `getBestQuote` before and after the auction closes, and `stop`.
use derive_docs.Base.{arith, ℕ, ◌+◌, ◌≡◌, refl, ◌∙◌, [], Option, none, some}
use derive_docs.Base.Map.{lookup-insert}
use derive_docs.Rfq.Types.{RfqStatus, Rfq, Quote}
use derive_docs.Rfq.Store.{Store, get_quote, list_quotes, put_rfq, ids_of, get_rfq}
use derive_docs.Rfq.Store.Index.{list_quotes_exact}
use derive_docs.Rfq.Auction.State.{Engine, clear_timer}
use derive_docs.Rfq.Auction.Best.{select_best_quote, select_best_quote-In}
use derive_docs.Rfq.Auction.Lifecycle.{settled, settle, close_auction}
use derive_docs.Rfq.Auction.Sound.{IsSound}
use derive_docs.Rfq.Auction.Sound.Closing.{settle-parts}

unfoldable pub get_best_quote : Rfq → Store → Option Quote
get_best_quote rfq s = elim rfq.best_quote_id [
  | none ↦ select_best_quote (list_quotes rfq.id s)
  | some id ↦ get_quote id s
]

unfoldable pub stop : Engine → Engine
stop e = record e { timers = []; accept_timers = [] }

get_best_quote-settled :
    (rfq : Rfq) (s : Store) (best : Option Quote) (deadline : ℕ)
    → select_best_quote (list_quotes rfq.id s) ≡ best
    → ((q : Quote) → best ≡ some q → get_quote q.id s ≡ some q)
    → get_best_quote (settled rfq best deadline) s ≡ best
unfolding get_best_quote settled
get_best_quote-settled rfq s none deadline chosen found = chosen
get_best_quote-settled rfq s (some q) deadline chosen found = found q refl

get_best_quote-put_rfq :
    (rfq r : Rfq) (s : Store) → get_best_quote rfq (put_rfq r s) ≡ get_best_quote rfq s
unfolding get_best_quote put_rfq list_quotes ids_of get_quote
get_best_quote-put_rfq rfq r s = refl

settle_keeps_best :
    (window : ℕ) (rfq : Rfq) (now : ℕ) (e : Engine)
    → IsSound e
    → rfq.best_quote_id ≡ none
    → let best = select_best_quote (list_quotes rfq.id e.store) in
      get_best_quote (settled rfq best (now + window)) (settle window rfq now e).store
      ≡ get_best_quote rfq e.store
settle_keeps_best window rfq now e v unset =
    let best = select_best_quote (list_quotes rfq.id e.store) in
    rw (settle-parts window rfq now e).0 (
      get_best_quote-put_rfq (settled rfq best (now + window)) (settled rfq best (now + window))
        e.store
      ∙ (get_best_quote-settled rfq e.store best (now + window) refl found ∙ before))
  where
    found :
        (q : Quote)
        → select_best_quote (list_quotes rfq.id e.store) ≡ some q
        → get_quote q.id e.store ≡ some q
    found q h =
        ((list_quotes_exact e.store rfq.id q v.indexed).0
          (select_best_quote-In (list_quotes rfq.id e.store) q h)).0

    before : select_best_quote (list_quotes rfq.id e.store) ≡ get_best_quote rfq e.store
    before = unfold get_best_quote in rw (get_best_quote, unset)

settled-id :
    (rfq : Rfq) (best : Option Quote) (deadline : ℕ) → (settled rfq best deadline).id ≡ rfq.id
unfolding settled
settled-id rfq none deadline = refl
settled-id rfq (some best) deadline = refl

-- Without a best quote the RFQ has expired; otherwise it is closed, names the quote and has a deadline.
abbrev pub IsOutcome : Option Quote → ℕ → Rfq → Type 0
IsOutcome none deadline rfq = (rfq.status ≡ RfqStatus.expired) × (rfq.best_quote_id ≡ none)
IsOutcome (some best) deadline rfq =
    (rfq.status ≡ RfqStatus.closed)
    × (rfq.best_quote_id ≡ some best.id)
    × (rfq.accept_deadline_at ≡ some deadline)

settled-IsOutcome :
    (rfq : Rfq) (best : Option Quote) (deadline : ℕ)
    → IsOutcome best deadline (settled rfq best deadline)
unfolding settled
settled-IsOutcome rfq none deadline = (refl, refl)
settled-IsOutcome rfq (some best) deadline = (refl, refl, refl)

put_rfq-stored :
    (id : ℕ) (rfq : Rfq) (s : Store) → rfq.id ≡ id → get_rfq id (put_rfq rfq s) ≡ some rfq
unfolding get_rfq put_rfq
put_rfq-stored id rfq s same = ground (arith, lookup-insert id rfq.id rfq s.rfqs)

close_auction-settle :
    (window rfq_id now : ℕ) (rfq : Rfq) (e : Engine)
    → get_rfq rfq_id e.store ≡ some rfq
    → rfq.status ≡ RfqStatus.opened
    → close_auction window rfq_id now e ≡ settle window rfq now (clear_timer rfq_id e)
unfolding close_auction get_rfq clear_timer
close_auction-settle window rfq_id now rfq e stored still_open =
    rw (close_auction, stored, still_open) refl

-- If the state is sound and an open RFQ is stored without a winner, then closeAuction stores the RFQ
-- with the best quote of just before as its outcome: closed, for that quote and with the deadline of
-- its acceptance, or expired without a winner if there is none; and getBestQuote of the stored RFQ,
-- read from the store that closeAuction leaves, is getBestQuote of the open RFQ just before.
pub close_auction_keeps_best :
    (window rfq_id now : ℕ) (rfq : Rfq) (e : Engine)
    → IsSound e
    → get_rfq rfq_id e.store ≡ some rfq
    → rfq.status ≡ RfqStatus.opened
    → rfq.best_quote_id ≡ none
    → let s' = (close_auction window rfq_id now e).store in
      (ended : Rfq) × (get_rfq rfq_id s' ≡ some ended)
      × IsOutcome (get_best_quote rfq e.store) (now + window) ended
      × (get_best_quote ended s' ≡ get_best_quote rfq e.store)
unfolding clear_timer
close_auction_keeps_best window rfq_id now rfq e v stored still_open unset =
    let e1 = clear_timer rfq_id e in
    let best = select_best_quote (list_quotes rfq.id e.store) in
    let ended = settled rfq best (now + window) in
    let same : get_best_quote rfq e.store ≡ best =
      unfold get_best_quote in rw (get_best_quote, unset) refl in
    rw (close_auction-settle window rfq_id now rfq e stored still_open) (
      ended,
      rw (settle-parts window rfq now e1).0 (
          put_rfq-stored rfq_id ended e.store
            (settled-id rfq best (now + window) ∙ v.keyed rfq_id rfq (unfold get_rfq in stored))),
      rw same (settled-IsOutcome rfq best (now + window)),
      settle_keeps_best window rfq now e1 v unset,
    )
