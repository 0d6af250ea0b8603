-- ===== src/Rfq/Auction/Sound/Ending.antt =====
-- services/rfq-engine/src/auction.ts: the invariant under `closeAuction` and `expireAccept`.
use derive_docs.Base.{
  ℕ, ◌≡◌, refl, ap, ◌∙◌, inl, inr, true, false, List, [], ◌∷◌, Option, none, some, arith,
  Option-cases, Bool-cases,
}
use derive_docs.Base.Map.{Map, lookup, erase, lookup-erase}
use derive_docs.Rfq.Types.{RfqStatus, Rfq, Quote, status_eq}
use derive_docs.Rfq.Store.{Store, get_rfq, get_quote, put_rfq}
use derive_docs.Rfq.Store.Index.{In}
use derive_docs.Rfq.Auction.State.{
  Engine, Reservation, release_reservation, emit, clear_accept_timer,
}
use derive_docs.Rfq.Auction.Lifecycle.{
  is_loser, release_losers, save_rfq, winner_of, not_accepted, lapse, expire_accept,
}
use derive_docs.Rfq.Auction.Execution.{is_best}
use derive_docs.Rfq.Auction.Sound.{IsSoundIn, IsSound, IsSound-at, holds_collateral}
use derive_docs.Rfq.Auction.Sound.Steps.{
  Within, Within-erase, Within-IsSoundIn, Holds, put_rfq-IsSoundIn,
}

-- Among the quotes of a stored RFQ that is no longer open, only the winner can have a reservation.
pub only_winner :
    (rfq : Rfq) (s : Store) (m : Map Reservation) (id : ℕ) (r : Reservation) (q : Quote)
    → IsSoundIn s m
    → lookup rfq.id s.rfqs ≡ some rfq
    → status_eq rfq.status RfqStatus.opened ≡ false
    → lookup id m ≡ some r
    → lookup id s.quotes ≡ some q
    → q.rfq_id ≡ rfq.id
    → is_best rfq id ≡ true
only_winner rfq s m id r q v stored ended reserved found same =
    holds-best rfq id ended (rw (same, stored) at (rw found at (v.backed id r reserved)).1)
  where
    holds-best :
        (rfq : Rfq) (id : ℕ)
        → status_eq rfq.status RfqStatus.opened ≡ false
        → holds_collateral rfq id ≡ true
        → is_best rfq id ≡ true
    holds-best rfq id ended h = ground arith

-- With the winner's reservation gone, any record may replace the RFQ.
pub nothing_held :
    (rfq rfq' : Rfq) (s : Store) (m m' : Map Reservation)
    → IsSoundIn s m
    → lookup rfq.id s.rfqs ≡ some rfq
    → status_eq rfq.status RfqStatus.opened ≡ false
    → rfq'.id ≡ rfq.id
    → Within m' m
    → ((id : ℕ) (q : Quote)
        → is_best rfq id ≡ true
        → lookup id s.quotes ≡ some q
        → lookup id m' ≡ none)
    → Holds rfq' s m'
nothing_held rfq rfq' s m m' v stored ended same within gone id r q reserved found filed =
    let best =
      only_winner rfq s m id r q v stored ended (within id r reserved) found (filed ∙ same) in
    absurd (ground (arith, gone id q best found))

-- The records and the reservations that `lapse` leaves.
released : Option Quote → Map Reservation → Map Reservation
released none m = m
released (some q) m = erase q.id m

released-Within : (o : Option Quote) (m : Map Reservation) → Within (released o m) m
unfolding released
released-Within none m id r h = h
released-Within (some q) m id r h = Within-erase q.id m id r h

lapse-parts :
    (rfq : Rfq) (e : Engine)
    → ((lapse rfq e).store ≡ put_rfq (not_accepted rfq) e.store)
      × ((lapse rfq e).reservations ≡ released (winner_of rfq e.store) e.reservations)
unfolding lapse released winner_of emit save_rfq release_reservation
lapse-parts rfq e = elim (Option-cases (winner_of rfq e.store)) [
  | inl h ↦ (ground arith, ground arith)
  | inr (q, h) ↦ (ground arith, ground arith)
]

winner_released :
    (rfq : Rfq) (s : Store) (m : Map Reservation)
    → IsSoundIn s m
    → (id : ℕ) (q : Quote) → is_best rfq id ≡ true
    → lookup id s.quotes ≡ some q
    → lookup id (released (winner_of rfq s) m) ≡ none
unfolding released mathlib.Core.Option.bind lookup
winner_released rfq s m v id q best found = elim (Option-cases rfq.best_quote_id) [
  | inl none_best ↦ absurd (ground arith)
  | inr (k, h) ↦
      let same : k ≡ id = ground arith in
      let winner : winner_of rfq s ≡ some q = unfold winner_of get_quote in rw (h, same) found in
      rw winner (ground (arith, lookup-erase id q.id m, v.indexed.keyed id q found))
]

pub lapse-IsSound :
    (rfq : Rfq) (e : Engine)
    → lookup rfq.id e.store.rfqs ≡ some rfq
    → rfq.status ≡ RfqStatus.closed
    → IsSound e
    → IsSound (lapse rfq e)
lapse-IsSound rfq e stored closed v =
    let (s, m) = lapse-parts rfq e in
    rw (s, m)
      (put_rfq-IsSoundIn (not_accepted rfq) e.store
        (released (winner_of rfq e.store) e.reservations) refl
        (nothing_held rfq (not_accepted rfq) e.store e.reservations _ v stored (rw closed) refl
          (released-Within (winner_of rfq e.store) e.reservations)
          (winner_released rfq e.store e.reservations v))
        (Within-IsSoundIn e.store _ e.reservations
          (released-Within (winner_of rfq e.store) e.reservations) v))

pub expire_accept-IsSound : (rfq_id : ℕ) (e : Engine) → IsSound e → IsSound (expire_accept rfq_id e)
expire_accept-IsSound rfq_id e v = elim (Option-cases (lookup rfq_id cleared.store.rfqs)) [
  | inl h ↦ ends cleared (unfold expire_accept get_rfq in rw (h, expire_accept)) v'
  | inr (rfq, h) ↦ elim (Bool-cases (status_eq rfq.status RfqStatus.closed)) [
    | inl c ↦ ends (lapse rfq cleared) (unfold expire_accept get_rfq in rw (h, expire_accept, c)) (
        lapse-IsSound rfq cleared
          (ap (λ k. lookup k cleared.store.rfqs) (v'.keyed rfq_id rfq h) ∙ h) (ground arith) v')
    | inr c ↦ ends cleared (unfold expire_accept get_rfq in rw (h, expire_accept, c)) v'
  ]
]
  where
    cleared : Engine
    cleared = clear_accept_timer rfq_id e

    v' : IsSound cleared
    v' = unfold clear_accept_timer in v

    ends :
        (e' : Engine) → expire_accept rfq_id e ≡ e' → IsSound e' → IsSound (expire_accept rfq_id e)
    ends e' = IsSound-at e'

-- What `releaseReservation` of the losers leaves: no entry of a loser, and nothing new.
pub store-release_losers :
    (best : Option Quote) (qs : List Quote) (e : Engine)
    → (release_losers best qs e).store ≡ e.store
unfolding release_losers release_reservation
store-release_losers best [] e = refl
store-release_losers best (q ∷ qs) e = elim (Bool-cases (is_loser best q)) [
  | inl l ↦ rw (l, release_losers) (store-release_losers best qs (release_reservation q.id e))
  | inr l ↦ rw (l, release_losers) (store-release_losers best qs e)
]

pub release_losers-Within :
    (best : Option Quote) (qs : List Quote) (e : Engine)
    → Within (release_losers best qs e).reservations e.reservations
unfolding release_losers release_reservation
release_losers-Within best [] e id r h = h
release_losers-Within best (q ∷ qs) e id r h = elim (Bool-cases (is_loser best q)) [
  | inl l ↦ Within-erase q.id e.reservations id r (
      release_losers-Within best qs (release_reservation q.id e) id r (rw (l, release_losers) at h))
  | inr l ↦ release_losers-Within best qs e id r (rw (l, release_losers) at h)
]

Within-none :
    (m n : Map Reservation) (id : ℕ) → Within m n → lookup id n ≡ none → lookup id m ≡ none
Within-none m n id w h = elim (Option-cases (lookup id m)) [
  | inl e ↦ e
  | inr (r, e) ↦ absurd (ground (arith, w id r e))
]

pub losers_released :
    (best : Option Quote) (qs : List Quote) (e : Engine) (q : Quote)
    → In q qs
    → is_loser best q ≡ true
    → lookup q.id (release_losers best qs e).reservations ≡ none
unfolding release_losers release_reservation
losers_released best [] e q h l = absurd h
losers_released best (p ∷ qs) e q (inl here) l =
    rw (← here, l, release_losers)
      (Within-none _ (erase q.id e.reservations) q.id
        (release_losers-Within best qs (release_reservation q.id e))
        (ground (arith, lookup-erase q.id q.id e.reservations)))
losers_released best (p ∷ qs) e q (inr later) l = elim (Bool-cases (is_loser best p)) [
  | inl k ↦ rw (k, release_losers) (losers_released best qs (release_reservation p.id e) q later l)
  | inr k ↦ rw (k, release_losers) (losers_released best qs e q later l)
]
