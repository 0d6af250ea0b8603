-- ===== src/Rfq/Auction/Sound/Closing.antt =====
-- services/rfq-engine/src/auction.ts: the invariant under `closeAuction` of an open auction.
use derive_docs.Base.{
  ℕ, ◌+◌, ◌≡◌, refl, ap, ◌∙◌, inl, inr, true, List, Option, none, some, arith, Option-cases,
  Bool-cases,
}
use derive_docs.Base.Map.{Map, lookup, insert, lookup-insert}
use derive_docs.Rfq.Types.{RfqStatus, Rfq, Quote, status_eq}
use derive_docs.Rfq.Store.{get_rfq, get_quote, put_rfq, list_quotes}
use derive_docs.Rfq.Store.Index.{In, list_quotes_exact}
use derive_docs.Rfq.Auction.State.{
  Engine, Reservation, reserve, emit, arm_accept_timer, clear_timer,
}
use derive_docs.Rfq.Auction.Best.{select_best_quote, select_best_quote-In}
use derive_docs.Rfq.Auction.Lifecycle.{
  is_loser, release_losers, reserve_winner, save_rfq, settled, settle, close_auction,
}
use derive_docs.Rfq.Auction.Sound.{IsSoundIn, IsSound, IsSound-at, reservation_of, intent_fits}
use derive_docs.Rfq.Auction.Sound.Steps.{
  Within-IsSoundIn, Holds, put_rfq-IsSoundIn, reserve-IsSoundIn,
}
use derive_docs.Rfq.Auction.Sound.Ending.{
  store-release_losers, release_losers-Within, losers_released,
}

-- The reservations with the winner's.
pub taken : Option Quote → Map Reservation → Map Reservation
taken none m = m
taken (some b) m = insert b.id (reservation_of b) m

pub settle-parts :
    (window : ℕ) (rfq : Rfq) (now : ℕ) (e : Engine)
    → let qs = list_quotes rfq.id e.store in
      let best = select_best_quote qs in
      ((settle window rfq now e).store ≡ put_rfq (settled rfq best (now + window)) e.store)
      × ((settle window rfq now e).reservations
          ≡ taken best (release_losers best qs e).reservations)
unfolding settle taken reserve_winner reserve save_rfq emit arm_accept_timer settled
settle-parts window rfq now e =
    elim (Option-cases (select_best_quote (list_quotes rfq.id e.store))) [
      | inl h ↦ rw (h, settle) (rw (store-release_losers none (list_quotes rfq.id e.store) e), refl)
      | inr (b, h) ↦
          rw (h, settle) (rw (store-release_losers (some b) (list_quotes rfq.id e.store) e), refl)
    ]

module _ (rfq : Rfq) (e : Engine) (v : IsSound e) (stored : lookup rfq.id e.store.rfqs ≡ some rfq)
    (still_open : rfq.status ≡ RfqStatus.opened) where
  abbrev quotes : List Quote
  quotes = list_quotes rfq.id e.store

  listed :
      (id : ℕ) (q : Quote) → lookup id e.store.quotes ≡ some q → q.rfq_id ≡ rfq.id → In q quotes
  unfolding get_quote
  listed id q found filed =
      (list_quotes_exact e.store rfq.id q v.indexed).1
        (ap (λ k. lookup k e.store.quotes) (v.indexed.keyed id q found) ∙ found, filed)

  settled-Holds :
      (best : Option Quote) (deadline : ℕ)
      → Holds
          (settled rfq best deadline)
          e.store
          (taken best (release_losers best quotes e).reservations)
  unfolding settled taken
  settled-Holds none deadline id r q reserved found filed =
      let gone = losers_released none quotes e q (listed id q found filed) refl in
      absurd (ground (arith, gone, v.indexed.keyed id q found, reserved))
  settled-Holds (some b) deadline id r q reserved found filed =
      elim (Bool-cases (is_loser (some b) q)) [
        | inl l ↦
            let gone = losers_released (some b) quotes e q (listed id q found filed) l in
            let m = (release_losers (some b) quotes e).reservations in
            absurd (
              ground (
                arith,
                gone,
                l,
                v.indexed.keyed id q found,
                reserved,
                lookup-insert id b.id (reservation_of b) m,
              ))
        | inr l ↦ ground (arith, l, v.indexed.keyed id q found)
      ]

  taken-IsSoundIn :
      (best : Option Quote)
      → select_best_quote quotes ≡ best
      → IsSoundIn e.store (taken best (release_losers best quotes e).reservations)
  unfolding taken
  taken-IsSoundIn none chosen =
      Within-IsSoundIn e.store _ e.reservations (release_losers-Within none quotes e) v
  taken-IsSoundIn (some b) chosen =
      let (found, filed) =
        (list_quotes_exact e.store rfq.id b v.indexed).0 (select_best_quote-In quotes b chosen) in
      reserve-IsSoundIn b e.store _ (unfold get_quote in found) (rw (filed, stored, still_open))
        (Within-IsSoundIn e.store _ e.reservations (release_losers-Within (some b) quotes e) v)

  settled-fits :
      (best : Option Quote) (deadline : ℕ) → intent_fits (settled rfq best deadline) ≡ true
  unfolding settled
  settled-fits none deadline = refl
  settled-fits (some b) deadline = refl

  settled-id : (best : Option Quote) (deadline : ℕ) → (settled rfq best deadline).id ≡ rfq.id
  unfolding settled
  settled-id none deadline = refl
  settled-id (some b) deadline = refl

  pub settle-IsSound : (window now : ℕ) → IsSound (settle window rfq now e)
  settle-IsSound window now =
      let best = select_best_quote quotes in
      let (s, m) = settle-parts window rfq now e in
      rw (s, m)
        (put_rfq-IsSoundIn (settled rfq best (now + window)) e.store _
          (settled-fits best (now + window)) (settled-Holds best (now + window))
          (taken-IsSoundIn best refl))

pub close_auction-IsSound :
    (window rfq_id now : ℕ) (e : Engine) → IsSound e → IsSound (close_auction window rfq_id now e)
close_auction-IsSound window rfq_id now e v =
    elim (Option-cases (lookup rfq_id cleared.store.rfqs)) [
      | inl h ↦ ends cleared (unfold close_auction get_rfq in rw (h, close_auction)) v'
      | inr (rfq, h) ↦ elim (Bool-cases (status_eq rfq.status RfqStatus.opened)) [
        | inl c ↦
            ends (settle window rfq now cleared)
              (unfold close_auction get_rfq in rw (h, close_auction, c))
              (settle-IsSound rfq cleared v'
                (ap (λ k. lookup k cleared.store.rfqs) (v'.keyed rfq_id rfq h) ∙ h) (ground arith)
                window now)
        | inr c ↦ ends cleared (unfold close_auction get_rfq in rw (h, close_auction, c)) v'
      ]
    ]
  where
    cleared : Engine
    cleared = clear_timer rfq_id e

    v' : IsSound cleared
    v' = unfold clear_timer in v

    ends :
        (e' : Engine)
        → close_auction window rfq_id now e ≡ e'
        → IsSound e'
        → IsSound (close_auction window rfq_id now e)
    ends e' = IsSound-at e'
