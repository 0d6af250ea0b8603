-- ===== src/Rfq/Auction/Lifecycle.antt =====
-- services/rfq-engine/src/auction.ts: how an auction ends, `closeAuction` and `expireAccept`.
use derive_docs.Base.{
  ℕ, ◌+◌, Bool, true, not, List, [], ◌∷◌, Option, none, some, ◌==◌, if◌then◌else◌,
}
use mathlib.Core.Option
use derive_docs.Rfq.Types.{RfqStatus, Reason, Rfq, Quote, status_eq}
use derive_docs.Rfq.Store.{Store, get_rfq, get_quote, list_quotes, put_rfq}
use derive_docs.Rfq.Auction.State.{
  Engine, rfq_closed, rfq_accept_expired, release_reservation, reserve, emit, arm_accept_timer,
  clear_accept_timer, clear_timer,
}
use derive_docs.Rfq.Auction.Best.{select_best_quote}

-- `q.id !== best?.id`
abbrev pub is_loser : Option Quote → Quote → Bool
is_loser none q = true
is_loser (some best) q = not (q.id == best.id)

unfoldable pub release_losers : Option Quote → List Quote → Engine → Engine
release_losers best [] e = e
release_losers best (q ∷ qs) e =
    release_losers best qs (if is_loser best q then release_reservation q.id e else e)

unfoldable pub reserve_winner : Option Quote → Engine → Engine
reserve_winner none e = e
reserve_winner (some best) e = reserve best e

unfoldable pub save_rfq : Rfq → Engine → Engine
save_rfq rfq e = record e { store = put_rfq rfq e.store }

-- The RFQ with its outcome.
unfoldable pub settled : Rfq → Option Quote → (deadline : ℕ) → Rfq
settled rfq none deadline = record rfq { status = RfqStatus.expired; best_quote_id = none }
settled rfq (some best) deadline = record rfq {
  status = RfqStatus.closed;
  best_quote_id = some best.id;
  accept_deadline_at = some deadline;
}

abbrev arm_if : Option Quote → Rfq → ℕ → Engine → Engine
arm_if none rfq now e = e
arm_if (some best) rfq now e = arm_accept_timer rfq now e

-- `closeAuctionLocked` of an open RFQ.
unfoldable pub settle : (accept_deadline_ms : ℕ) → Rfq → ℕ → Engine → Engine
settle accept_deadline_ms rfq now e =
    let quotes = list_quotes rfq.id e.store in
    let best = select_best_quote quotes in
    let rfq' = settled rfq best (now + accept_deadline_ms) in
    let saved = save_rfq rfq' (reserve_winner best (release_losers best quotes e)) in
    emit (rfq_closed rfq' best) (arm_if best rfq' now saved)

-- `closeAuctionLocked`
unfoldable pub close_auction : (accept_deadline_ms : ℕ) → (rfq_id now : ℕ) → Engine → Engine
close_auction accept_deadline_ms rfq_id now e =
    let e' = clear_timer rfq_id e in
    elim (get_rfq rfq_id e'.store) [
      | none ↦ e'
      | some rfq ↦
          if status_eq rfq.status RfqStatus.opened then settle accept_deadline_ms rfq now e' else e'
    ]

-- `rfq.bestQuoteId ? store.getQuote(rfq.bestQuoteId) : null`
unfoldable pub winner_of : Rfq → Store → Option Quote
winner_of rfq s = Option.bind rfq.best_quote_id (λ id. get_quote id s)

abbrev release_winner : Option Quote → Engine → Engine
release_winner none e = e
release_winner (some q) e = release_reservation q.id e

abbrev pub not_accepted : Rfq → Rfq
not_accepted rfq = record rfq {
  status = RfqStatus.expired;
  error = some Reason.not_accepted_in_time;
}

-- `expireAcceptLocked` of a closed RFQ.
unfoldable pub lapse : Rfq → Engine → Engine
unfolding winner_of
lapse rfq e =
    let winner = winner_of rfq e.store in
    emit (rfq_accept_expired (not_accepted rfq) winner)
      (release_winner winner (save_rfq (not_accepted rfq) e))

-- `expireAcceptLocked`
unfoldable pub expire_accept : (rfq_id : ℕ) → Engine → Engine
expire_accept rfq_id e =
    let e' = clear_accept_timer rfq_id e in
    elim (get_rfq rfq_id e'.store) [
      | none ↦ e'
      | some rfq ↦ if status_eq rfq.status RfqStatus.closed then lapse rfq e' else e'
    ]
