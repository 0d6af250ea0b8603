-- ===== src/Rfq/Auction/Sound/Accepting.antt =====
-- services/rfq-engine/src/auction.ts: the invariant under `acceptRfq`.
use derive_docs.Base.{
  ℕ, ◌≡◌, refl, ap, ◌∙◌, inl, inr, true, ◌&&◌, Option, none, some, arith, Option-cases, Bool-cases,
}
use derive_docs.Base.Map.{lookup}
use derive_docs.Base.Text.{Text}
use derive_docs.Rfq.Types.{Hex, RfqStatus, Rfq, RfqExecutionIntent, status_eq}
use derive_docs.Rfq.Store.{get_rfq}
use derive_docs.Rfq.Auction.State.{Engine, clear_accept_timer}
use derive_docs.Rfq.Auction.Lifecycle.{save_rfq, expire_accept}
use derive_docs.Rfq.Auction.Terminal.{with_hash, executing_rfq, hash_fits, terminalize_mined}
use derive_docs.Rfq.Auction.Execution.{
  is_best, is_overdue, Prepared, activate, commit_acceptance, announce, ExecutionOutcome, returned,
  blocked, thrown, finish_acceptance,
}
use derive_docs.Rfq.Auction.Sound.{IsSound, IsSound-at}
use derive_docs.Rfq.Auction.Sound.Ending.{expire_accept-IsSound}
use derive_docs.Rfq.Auction.Sound.Executing.{
  Settled, save_rfq-IsSound, terminate-IsSound, leave_unresolved-IsSound, announce-IsSound,
  announce-Settled, take_back-IsSound,
}

-- The intent is for the quote that the acceptance was prepared with.
abbrev pub Matches : Prepared → Type 0
Matches p = p.intent.fill.quote_id ≡ p.quote.id

pub commit_acceptance-IsSound :
    (rfq_id : ℕ) (p : Prepared) (now : ℕ) (e : Engine)
    → Matches p
    → IsSound e
    → IsSound (commit_acceptance rfq_id p now e).0
commit_acceptance-IsSound rfq_id p now e fits v = elim (Option-cases (lookup rfq_id e.store.rfqs)) [
  | inl h ↦ ends e (unfold commit_acceptance get_rfq in rw (h, commit_acceptance)) v
  | inr (rfq, h) ↦
      elim (Bool-cases (status_eq rfq.status RfqStatus.closed && is_best rfq p.quote.id)) [
        | inr c ↦ ends e (unfold commit_acceptance get_rfq in rw (h, commit_acceptance, c)) v
        | inl c ↦ elim (Bool-cases (is_overdue rfq now)) [
          | inl late ↦
              ends (expire_accept rfq.id e)
                (unfold commit_acceptance get_rfq in rw (h, commit_acceptance, c, late))
                (expire_accept-IsSound rfq.id e v)
          | inr early ↦
              ends
                (save_rfq (executing_rfq rfq p.intent)
                  (clear_accept_timer rfq.id (activate rfq.id e)))
                (unfold commit_acceptance get_rfq in rw (h, commit_acceptance, c, early))
                (unfold clear_accept_timer in
                  save_rfq-IsSound (executing_rfq rfq p.intent) _
                    (
                      rfq,
                      ap (λ k. lookup k e.store.rfqs) (v.keyed rfq_id rfq h) ∙ h,
                      ground arith,
                      refl,
                    )
                    (rw fits (ground arith)) (λ id b. b) v)
        ]
      ]
]
  where
    ends :
        (e' : Engine)
        → (commit_acceptance rfq_id p now e).0 ≡ e'
        → IsSound e'
        → IsSound (commit_acceptance rfq_id p now e).0
    ends e' = IsSound-at e'

module _ (rfq : Rfq) (intent : RfqExecutionIntent) (mismatch : Text) (now : ℕ) (e : Engine) where
  hash-winner :
      (hash : Option Hex)
      → is_best rfq intent.fill.quote_id ≡ true
      → is_best rfq (with_hash hash intent).fill.quote_id ≡ true
  hash-winner none w = w
  hash-winner (some h) w = w

  pub finish_acceptance-IsSound :
      (outcome : ExecutionOutcome)
      → Settled rfq e
      → is_best rfq intent.fill.quote_id ≡ true
      → IsSound e
      → IsSound (finish_acceptance rfq intent mismatch outcome now e).0
  unfolding finish_acceptance
  finish_acceptance-IsSound (blocked message) settled winner v =
      take_back-IsSound rfq message now e settled v
  finish_acceptance-IsSound (thrown hash message) settled winner v =
      leave_unresolved-IsSound rfq (with_hash hash intent) message (announce hash rfq intent e)
        (announce-Settled hash rfq intent e settled) (hash-winner hash winner)
        (announce-IsSound hash rfq intent e settled winner v)
  finish_acceptance-IsSound (returned hash result) settled winner v =
      elim (Bool-cases (hash_fits intent'.tx_hash result.tx_hash)) [
        | inl fits ↦
            unfold finish_acceptance terminalize_mined in
            rw (finish_acceptance, fits)
              (terminate-IsSound (executing_rfq rfq intent') intent' result announced settled'
                (hash-winner hash winner) v')
        | inr differs ↦
            unfold finish_acceptance terminalize_mined in
            rw (finish_acceptance, differs)
              (leave_unresolved-IsSound rfq intent' mismatch announced settled'
                (hash-winner hash winner) v')
      ]
    where
      intent' : RfqExecutionIntent
      intent' = with_hash hash intent

      announced : Engine
      announced = announce hash rfq intent e

      settled' : Settled rfq announced
      settled' = announce-Settled hash rfq intent e settled

      v' : IsSound announced
      v' = announce-IsSound hash rfq intent e settled winner v
