-- ===== src/Rfq/Auction/Collateral.antt =====
-- services/rfq-engine/src/auction.ts: the cash that a maker's quotes reserve, and the balance
-- that the chain reports.
use derive_docs.Base.{
  ℕ, ◌≡◌, refl, ap, ◌∙◌, inl, inr, List, [], ◌∷◌, ◌++◌, Option, none, some, arith, ok, Option-cases,
}
use derive_docs.Base.Int.{ℤ, pos, ◌+ℤ◌, ◌≤ℤ◌, ==ℤ_iff, int_laws, +ℤ_comm, +ℤ_assoc}
use derive_docs.Base.Map.{Map, lookup, insert, erase, lookup-erase}
use derive_docs.Rfq.Types.{Quote}
use mathlib.Core.List.{append-nil}
use derive_docs.Rfq.Store.{get_rfq}
use derive_docs.Rfq.Quotes.{ChainReader}
use derive_docs.Rfq.Quotes.Admission.{validate_quote_iff}
use derive_docs.Rfq.Auction.Bidding.{
  EngineOptions, Submission, quote_ids, prior_quotes, check_submission, validation_ctx, drop_quote,
  drop_quotes, admit_quote, submit_quote, submit_quote-ok,
}
use derive_docs.Rfq.Auction.State.{
  Engine, Reservation, reserved_in, reserved_for, release_reservation, reserve,
}

-- Releasing a quote's entry is as good as leaving it out of the sum.
reserved_in-erase :
    (a : ℤ) (xs : List ℕ) (k : ℕ) (m : Map Reservation)
    → reserved_in a xs (erase k m) ≡ reserved_in a (k ∷ xs) m
unfolding reserved_in erase
reserved_in-erase a xs k [] = refl
reserved_in-erase a xs k ((j, r) ∷ m) = ground (arith, reserved_in-erase a xs k m)

reserved_in-insert_new :
    (a : ℤ) (k : ℕ) (r : Reservation) (m : Map Reservation)
    → lookup k m ≡ none
    → r.subaccount_id ≡ a
    → reserved_in a [] (insert k r m) ≡ reserved_in a [] m +ℤ r.amount
unfolding reserved_in insert lookup
reserved_in-insert_new a k r [] new e =
    ground (arith, ==ℤ_iff r.subaccount_id a, +ℤ_comm r.amount (pos 0))
reserved_in-insert_new a k r ((j, s) ∷ m) new e =
    ground (arith, reserved_in-insert_new a k r m, +ℤ_assoc s.amount (reserved_in a [] m) r.amount)

reservations-drop_quotes :
    (qs : List Quote) (a : ℤ) (xs : List ℕ) (e : Engine)
    → reserved_in a xs (drop_quotes qs e).reservations
      ≡ reserved_in a (quote_ids qs ++ xs) e.reservations
unfolding drop_quotes drop_quote release_reservation
reservations-drop_quotes [] a xs e = refl
reservations-drop_quotes (q ∷ qs) a xs e =
    reservations-drop_quotes qs a xs (drop_quote q.id e)
    ∙ reserved_in-erase a (quote_ids qs ++ xs) q.id e.reservations

lookup-drop_quotes :
    (qs : List Quote) (id : ℕ) (e : Engine)
    → lookup id e.reservations ≡ none
    → lookup id (drop_quotes qs e).reservations ≡ none
unfolding drop_quotes drop_quote release_reservation
lookup-drop_quotes [] id e h = h
lookup-drop_quotes (q ∷ qs) id e h =
    lookup-drop_quotes qs id (drop_quote q.id e)
      (ground (arith, lookup-erase id q.id e.reservations))

-- What is reserved once the prior quotes are dropped and the new one is admitted.
reserved_for-admit :
    (q : Quote) (prior : List Quote) (e : Engine)
    → lookup q.id e.reservations ≡ none
    → reserved_for q.maker_subaccount_id [] (admit_quote q (drop_quotes prior e))
      ≡ reserved_for q.maker_subaccount_id (quote_ids prior) e +ℤ q.reserved_cash
unfolding reserved_for admit_quote reserve
reserved_for-admit q prior e new =
    reserved_in-insert_new q.maker_subaccount_id q.id _ (drop_quotes prior e).reservations
      (lookup-drop_quotes prior q.id e new) refl
    ∙ ap (λ t. t +ℤ q.reserved_cash)
        (reservations-drop_quotes prior q.maker_subaccount_id [] e
          ∙ ap (λ l. reserved_in q.maker_subaccount_id l e.reservations)
              (append-nil (quote_ids prior)))

module _ (opts : EngineOptions) (chain : ChainReader) (p : Submission) (now received resumed id : ℕ)
    (before after : Engine) where
  -- Meanwhile no other handler has reserved more cash on the account, whose lock is held.
  abbrev pub NoneReservedMore : Type 0
  NoneReservedMore =
      let account = p.action.subaccount_id in
      let prior = quote_ids (prior_quotes p.rfq_id p.maker before.store) in
      reserved_for account prior after ≤ℤ reserved_for account prior before

  check_submission-funded :
      (q : Quote)
      → check_submission opts chain p now received id before ≡ ok q
      → (cash : ℤ) × (chain.cash_balance p.action.subaccount_id ≡ some cash)
        × (q.id ≡ id)
        × (q.maker_subaccount_id ≡ p.action.subaccount_id)
        × (reserved_for p.action.subaccount_id
                (quote_ids (prior_quotes p.rfq_id p.maker before.store))
                before
              +ℤ q.reserved_cash
            ≤ℤ cash)
  unfolding check_submission validation_ctx
  check_submission-funded q h = elim (Option-cases (get_rfq p.rfq_id before.store)) [
    | inl e ↦ absurd (ground arith)
    | inr (rfq, e) ↦
        let a =
          (validate_quote_iff _ rfq p.maker p.action p.signature now received id q).0 (rw e at h) in
        let (cash, read, covers) = a.funded in
        (
          cash,
          read,
          ap (λ q. q.id) a.made,
          ap (λ q. q.maker_subaccount_id) a.made,
          rw a.made covers,
        )
  ]

  -- An admitted quote is covered: if the identifier is fresh and nobody else has reserved more on
  -- the account meanwhile, then all that is reserved against the maker's account afterwards is what
  -- was reserved without the replaced quotes, plus the new quote's cash, and it is within the
  -- balance that the chain reported.
  pub submit_quote-covered :
      (after' : Engine) (q : Quote) (replaced : Option ℕ)
      → lookup id after.reservations ≡ none
      → NoneReservedMore
      → submit_quote opts chain p now received resumed id before after ≡ (after', ok (q, replaced))
      → (cash : ℤ) × (chain.cash_balance p.action.subaccount_id ≡ some cash)
        × (reserved_for p.action.subaccount_id [] after'
            ≡ reserved_for p.action.subaccount_id
                (quote_ids (prior_quotes p.rfq_id p.maker before.store))
                after
              +ℤ q.reserved_cash)
        × (reserved_for p.action.subaccount_id [] after' ≤ℤ cash)
  submit_quote-covered after' q replaced new calm h =
      let (checked, open_still, end) =
        submit_quote-ok opts chain p now received resumed id before after after' q replaced h in
      let (cash, read, same_id, same_account, covers) = check_submission-funded q checked in
      let total =
        reserved_for-admit q (prior_quotes p.rfq_id p.maker before.store) after (rw same_id new) in
      let sum : reserved_for p.action.subaccount_id [] after'
          ≡ reserved_for p.action.subaccount_id
              (quote_ids (prior_quotes p.rfq_id p.maker before.store)) after
            +ℤ q.reserved_cash =
        rw (end, ← same_account) total in
      (cash, read, sum, rw sum (within _ _ _ _ calm covers))
    where
      within : (a b r cash : ℤ) → a ≤ℤ b → b +ℤ r ≤ℤ cash → a +ℤ r ≤ℤ cash
      within a b r cash h k = omega int_laws
