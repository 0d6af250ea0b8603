-- ===== src/Rfq/Auction/Once.antt =====
-- services/rfq-engine/src/auction.ts: repeated acceptances of an RFQ.
use derive_docs.Base.{
  ℕ, ◌≡◌, refl, inl, inr, false, ◌&&◌, some, arith, ok, err, Option-cases, Bool-cases,
}
use derive_docs.Base.Int.{ℤ}
use derive_docs.Base.Map.{lookup, lookup-insert}
use derive_docs.Rfq.Types.{Hex, RfqStatus, Rfq, status_eq}
use derive_docs.Rfq.Store.{get_rfq, put_rfq}
use derive_docs.Rfq.Quotes.{ChainReader, rfq_changed, not_acceptable}
use derive_docs.Rfq.Executor.{Encoders}
use derive_docs.Rfq.Auction.State.{Engine, clear_accept_timer}
use derive_docs.Rfq.Auction.Bidding.{EngineOptions}
use derive_docs.Rfq.Auction.Lifecycle.{save_rfq}
use derive_docs.Rfq.Auction.Terminal.{executing_rfq}
use derive_docs.Rfq.Auction.Execution.{
  Acceptance, Prepared, acceptable, prepare_acceptance, commit_acceptance, is_best, is_overdue,
}
use derive_docs.Rfq.Auction.Sound.{IsSound}

-- A commit of an RFQ that is not closed changes nothing.
commit-refused :
    (rfq_id : ℕ) (p : Prepared) (now : ℕ) (e : Engine) (rfq : Rfq)
    → lookup rfq_id e.store.rfqs ≡ some rfq
    → status_eq rfq.status RfqStatus.closed ≡ false
    → commit_acceptance rfq_id p now e ≡ (e, err rfq_changed)
unfolding commit_acceptance get_rfq
commit-refused rfq_id p now e rfq stored other = rw (commit_acceptance, stored, other)

prepare-refused :
    (opts : EngineOptions) (enc : Encoders) (no_data : Hex) (chain : ChainReader) (p : Acceptance)
    (now : ℕ) (block : ℤ) (e : Engine) (rfq : Rfq)
    → lookup p.rfq_id e.store.rfqs ≡ some rfq
    → status_eq rfq.status RfqStatus.opened ≡ false
    → status_eq rfq.status RfqStatus.closed ≡ false
    → prepare_acceptance opts enc no_data chain p now block e ≡ (e, err (not_acceptable rfq.status))
unfolding prepare_acceptance acceptable get_rfq
prepare-refused opts enc no_data chain p now block e rfq stored not_open other =
    rw (prepare_acceptance, stored, acceptable, not_open, other)

commit-ok :
    (rfq_id : ℕ) (p : Prepared) (now : ℕ) (e e' : Engine) (fresh : Rfq)
    → IsSound e
    → commit_acceptance rfq_id p now e ≡ (e', ok fresh)
    → lookup rfq_id e'.store.rfqs ≡ some (executing_rfq fresh p.intent)
unfolding commit_acceptance get_rfq save_rfq put_rfq clear_accept_timer
commit-ok rfq_id p now e e' fresh v h = elim (Option-cases (lookup rfq_id e.store.rfqs)) [
  | inl f ↦ absurd (ground arith)
  | inr (rfq, f) ↦
      elim (Bool-cases (status_eq rfq.status RfqStatus.closed && is_best rfq p.quote.id)) [
        | inr c ↦ absurd (ground arith)
        | inl c ↦ elim (Bool-cases (is_overdue rfq now)) [
          | inl late ↦ absurd (ground arith)
          | inr early ↦ ground (
            arith,
            v.keyed rfq_id rfq f,
            lookup-insert rfq_id rfq.id (executing_rfq rfq p.intent) e.store.rfqs,
          )
        ]
      ]
]

-- An acceptance that has committed on a sound state has stored the RFQ as executing with its intent,
-- and no other acceptance of the RFQ gets through on the state that it leaves: its preparation is
-- refused because of the status, its commit because the RFQ has changed, and neither changes the
-- state.
pub accepted_once :
    (opts : EngineOptions) (enc : Encoders) (no_data : Hex) (chain : ChainReader)
    (action : Acceptance) (first other : Prepared) (now later : ℕ) (block : ℤ) (e e' : Engine)
    (fresh : Rfq)
    → IsSound e
    → commit_acceptance action.rfq_id first now e ≡ (e', ok fresh)
    → (get_rfq action.rfq_id e'.store ≡ some (executing_rfq fresh first.intent))
      × (commit_acceptance action.rfq_id other later e' ≡ (e', err rfq_changed))
      × (prepare_acceptance opts enc no_data chain action later block e'
          ≡ (e', err (not_acceptable RfqStatus.executing)))
unfolding get_rfq
accepted_once opts enc no_data chain action first other now later block e e' fresh v h =
    let stored = commit-ok action.rfq_id first now e e' fresh v h in
    let executing = executing_rfq fresh first.intent in
    (
      stored,
      commit-refused action.rfq_id other later e' executing stored refl,
      prepare-refused opts enc no_data chain action later block e' executing stored refl refl,
    )
