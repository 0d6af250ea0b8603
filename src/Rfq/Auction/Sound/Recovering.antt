-- ===== src/Rfq/Auction/Sound/Recovering.antt =====
-- services/rfq-engine/src/auction.ts: `recover` of an RFQ that is still open.
use derive_docs.Base.{
  ℕ, ◌<◌, ◌≡◌, refl, sym, ap, ◌∙◌, ◌⊎◌, inl, inr, true, List, [], ◌∷◌, some, arith, ltb, ◌==◌,
  Bool-cases,
}
use derive_docs.Base.Map.{lookup, insert, lookup-insert}
use derive_docs.Rfq.Types.{RfqStatus, Rfq, Quote}
use derive_docs.Rfq.Store.{Store, get_quote, list_quotes}
use derive_docs.Rfq.Store.Index.{In, list_quotes_exact}
use derive_docs.Rfq.Auction.State.{Engine, reserve}
use derive_docs.Rfq.Auction.Recovery.{reserve_all, recover_open}
use derive_docs.Rfq.Auction.Sound.{IsSound, held_by, reservation_of}
use derive_docs.Rfq.Auction.Sound.Steps.{reserve-IsSoundIn}

-- Each quote of the list is stored, and its RFQ holds it.
abbrev Held : List Quote → Store → Type 0
Held qs s =
    (q : Quote)
    → In q qs
    → (lookup q.id s.quotes ≡ some q) × (held_by q.id (lookup q.rfq_id s.rfqs) ≡ true)

reserve_all-IsSound :
    (qs : List Quote) (e : Engine) → Held qs e.store → IsSound e → IsSound (reserve_all qs e)
unfolding reserve_all reserve
reserve_all-IsSound [] e h v = v
reserve_all-IsSound (q ∷ qs) e h v =
    let (stored, held) = h q (inl refl) in
    reserve_all-IsSound qs (reserve q e) (λ p i. h p (inr i))
      (reserve-IsSoundIn q e.store e.reservations stored held v)

reserve_all-reserved :
    (qs : List Quote) (e : Engine) (q : Quote)
    → Held qs e.store
    → lookup q.id e.store.quotes ≡ some q
    → (lookup q.id e.reservations ≡ some (reservation_of q)) ⊎ In q qs
    → lookup q.id (reserve_all qs e).reservations ≡ some (reservation_of q)
unfolding reserve_all reserve
reserve_all-reserved [] e q h stored (inl r) = r
reserve_all-reserved [] e q h stored (inr i) = absurd i
reserve_all-reserved (p ∷ qs) e q h stored why =
    reserve_all-reserved qs (reserve p e) q (λ x i. h x (inr i)) stored (now why)
  where
    now :
        (lookup q.id e.reservations ≡ some (reservation_of q)) ⊎ In q (p ∷ qs)
        → (lookup q.id (insert p.id (reservation_of p) e.reservations) ≡ some (reservation_of q))
          ⊎ In q qs
    now w = elim (Bool-cases (p.id == q.id)) [
      | inl same ↦
          let ids : p.id ≡ q.id = ground arith in
          let one : some p ≡ some q =
            sym (h p (inl refl)).0 ∙ (ap (λ k. lookup k e.store.quotes) ids ∙ stored) in
          inl (ground (arith, one, lookup-insert q.id p.id (reservation_of p) e.reservations))
      | inr other ↦ elim w [
        | inl r ↦ inl (ground (arith, lookup-insert q.id p.id (reservation_of p) e.reservations))
        | inr (inl here) ↦ absurd (ground (arith, ap (λ x. x.id) here))
        | inr (inr later) ↦ inr later
      ]
    ]

-- A restart within the window of an open RFQ that is stored in a sound state keeps the state sound
-- and reserves again the cash of each of the RFQ's stored quotes.
pub recover_open_reserves :
    (window : ℕ) (rfq : Rfq) (now : ℕ) (e : Engine) (q : Quote)
    → IsSound e
    → lookup rfq.id e.store.rfqs ≡ some rfq
    → rfq.status ≡ RfqStatus.opened
    → now < rfq.auction_ends_at
    → lookup q.id e.store.quotes ≡ some q
    → q.rfq_id ≡ rfq.id
    → IsSound (recover_open window rfq now e)
      × (lookup q.id (recover_open window rfq now e).reservations ≡ some (reservation_of q))
unfolding recover_open
recover_open_reserves window rfq now e q v stored opened early found filed =
    let h : ltb now rfq.auction_ends_at ≡ true = ground arith in
    rw (recover_open, h)
      (
        reserve_all-IsSound (list_quotes rfq.id e.store) _ held v,
        reserve_all-reserved (list_quotes rfq.id e.store) _ q held found (
            inr (
              (list_quotes_exact e.store rfq.id q v.indexed).1 (unfold get_quote in found, filed))),
      )
  where
    held : Held (list_quotes rfq.id e.store) e.store
    held p i =
        let (f, g) = (list_quotes_exact e.store rfq.id p v.indexed).0 i in
        (unfold get_quote in f, rw (g, stored, opened))
