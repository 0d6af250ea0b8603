-- ===== src/Rfq/Auction/Sound/Reconciling.antt =====
-- services/rfq-engine/src/auction.ts: the invariant under the reconciliation of an execution.
use derive_docs.Base.{
  ℕ, ◌≡◌, refl, ap, ◌∙◌, inl, inr, true, not, ◌&&◌, some, arith, contains, Option-cases, Bool-cases,
}
use derive_docs.Base.Map.{lookup}
use derive_docs.Base.Text.{Text}
use derive_docs.Rfq.Types.{RfqStatus, Reason, Rfq, RfqExecutionIntent, status_eq}
use derive_docs.Rfq.Store.{get_rfq}
use derive_docs.Rfq.Auction.State.{Engine}
use derive_docs.Rfq.Auction.Lifecycle.{save_rfq}
use derive_docs.Rfq.Auction.Terminal.{hash_fits, terminalize_mined}
use derive_docs.Rfq.Auction.Recovery.{
  Reconciliation, pending, expired_unused, mined, ambiguous, mentions_legacy, says_ambiguous,
  with_error, flag_legacy, flag_ambiguous, apply_reconciliation, reconcile, reconcile_executing,
  read_rfq,
}
use derive_docs.Rfq.Auction.Sound.{IsSound, intent_fits}
use derive_docs.Rfq.Auction.Sound.Executing.{
  Settled, save_rfq-IsSound, terminate-IsSound, terminalize_expired_unused-IsSound,
}

module _ (rfq : Rfq) (executing : rfq.status ≡ RfqStatus.executing)
    (fits : intent_fits rfq ≡ true) where
  flagged-IsSound :
      (reason : Reason) (e : Engine)
      → Settled rfq e
      → IsSound e
      → IsSound (save_rfq (with_error reason rfq) e)
  flagged-IsSound reason e settled v =
      save_rfq-IsSound (with_error reason rfq) e settled fits (λ id b. ground arith) v

  flag_legacy-IsSound : (e : Engine) → Settled rfq e → IsSound e → IsSound (flag_legacy rfq e).1
  flag_legacy-IsSound e settled v = elim (Bool-cases (mentions_legacy rfq.error)) [
    | inl m ↦ unfold flag_legacy in rw (m, flag_legacy) v
    | inr m ↦
        unfold flag_legacy in rw (m, flag_legacy) (flagged-IsSound Reason.legacy_record e settled v)
  ]

  flag_ambiguous-IsSound :
      (message : Text) (e : Engine)
      → Settled rfq e
      → IsSound e
      → IsSound (flag_ambiguous message rfq e).1
  flag_ambiguous-IsSound message e settled v =
      elim (Bool-cases (says_ambiguous message rfq.error)) [
        | inl m ↦ unfold flag_ambiguous in rw (m, flag_ambiguous) v
        | inr m ↦
            unfold flag_ambiguous in
            rw (m, flag_ambiguous) (flagged-IsSound (Reason.still_ambiguous message) e settled v)
      ]

  apply_reconciliation-IsSound :
      (answer : Reconciliation) (intent : RfqExecutionIntent) (e : Engine)
      → rfq.execution_intent ≡ some intent
      → Settled rfq e
      → IsSound e
      → IsSound (apply_reconciliation answer rfq intent e).1
  unfolding apply_reconciliation
  apply_reconciliation-IsSound pending intent e h settled v = v
  apply_reconciliation-IsSound expired_unused intent e h settled v =
      terminalize_expired_unused-IsSound rfq intent e settled (rw (executing, h) at fits) v
  apply_reconciliation-IsSound (ambiguous message) intent e h settled v =
      flag_ambiguous-IsSound message e settled v
  apply_reconciliation-IsSound (mined result) intent e h settled v =
      elim (Bool-cases (hash_fits intent.tx_hash result.tx_hash)) [
        | inl same ↦
            unfold apply_reconciliation terminalize_mined in
            rw (apply_reconciliation, same)
              (terminate-IsSound rfq intent result e settled (rw (executing, h) at fits) v)
        | inr differs ↦
            unfold apply_reconciliation terminalize_mined in rw (apply_reconciliation, differs) v
      ]

  pub reconcile-IsSound :
      (answer : Reconciliation) (e : Engine)
      → Settled rfq e
      → IsSound e
      → IsSound (reconcile answer rfq e).1
  reconcile-IsSound answer e settled v = elim (Option-cases rfq.execution_intent) [
    | inl h ↦ unfold reconcile in rw (h, reconcile) (flag_legacy-IsSound _ settled v)
    | inr (intent, h) ↦
        unfold reconcile in
        rw (h, reconcile) (apply_reconciliation-IsSound answer intent _ h settled v)
  ]

pub reconcile_executing-IsSound :
    (answer : Reconciliation) (rfq : Rfq) (e : Engine)
    → lookup rfq.id e.store.rfqs ≡ some rfq
    → IsSound e
    → IsSound (reconcile_executing answer rfq e).1
reconcile_executing-IsSound answer rfq e stored v =
    elim (Bool-cases (status_eq rfq.status RfqStatus.executing)) [
      | inr c ↦ unfold reconcile_executing get_rfq in rw (stored, reconcile_executing, c) v
      | inl c ↦
          let executing : rfq.status ≡ RfqStatus.executing = ground arith in
          unfold reconcile_executing get_rfq in
          rw (stored, reconcile_executing, c)
            (reconcile-IsSound rfq executing (v.intents rfq.id rfq stored) answer e
              (rfq, stored, ground arith, refl) v)
    ]

pub read_rfq-IsSound :
    (answer : Reconciliation) (id : ℕ) (e : Engine) → IsSound e → IsSound (read_rfq answer id e).1
read_rfq-IsSound answer id e v = elim (Option-cases (lookup id e.store.rfqs)) [
  | inl h ↦ unfold read_rfq get_rfq in rw (h, read_rfq) v
  | inr (rfq, h) ↦
      elim (Bool-cases
        (status_eq rfq.status RfqStatus.executing && not (contains id e.active_executions))) [
          | inr c ↦ unfold read_rfq get_rfq in rw (h, read_rfq, c) v
          | inl c ↦
              unfold read_rfq get_rfq in
              rw (h, read_rfq, c)
                (reconcile_executing-IsSound answer rfq e
                  (ap (λ k. lookup k e.store.rfqs) (v.keyed id rfq h) ∙ h) v)
        ]
]
