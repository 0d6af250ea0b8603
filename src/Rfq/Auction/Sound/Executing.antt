-- ===== src/Rfq/Auction/Sound/Executing.antt =====
-- services/rfq-engine/src/auction.ts: the invariant under the writes of an acceptance and of its
-- reconciliation.
use derive_docs.Base.{
  ℕ, ◌≡◌, refl, sym, ap, ◌∙◌, inl, inr, true, false, not, Option, none, some, arith, is_some,
  Bool-cases,
}
use derive_docs.Base.Map.{lookup, erase, lookup-insert, lookup-erase}
use derive_docs.Base.Text.{Text}
use derive_docs.Rfq.Types.{Hex, RfqStatus, ReceiptStatus, Rfq, RfqExecutionIntent, status_eq}
use derive_docs.Rfq.Store.{put_rfq}
use derive_docs.Rfq.Submitter.{SubmitResult}
use derive_docs.Rfq.Auction.State.{Engine, release_reservation, emit, arm_accept_timer}
use derive_docs.Rfq.Auction.Lifecycle.{save_rfq}
use derive_docs.Rfq.Auction.Terminal.{
  executing_rfq, terminal_rfq, unused_rfq, outcome_event, clear_latches, terminate,
  terminalize_expired_unused,
}
use derive_docs.Rfq.Auction.Execution.{
  is_best, is_overdue, announce, leave_unresolved, reopened_rfq, take_back,
}
use derive_docs.Rfq.Auction.Sound.{IsSoundIn, IsSound, holds_collateral, intent_fits}
use derive_docs.Rfq.Auction.Sound.Steps.{Within-erase, Within-IsSoundIn, Holds, put_rfq-IsSoundIn}
use derive_docs.Rfq.Auction.Sound.Ending.{only_winner, nothing_held, expire_accept-IsSound}

-- The RFQ is stored, no longer open, with the same winner.
abbrev pub Settled : Rfq → Engine → Type 0
Settled rfq e =
    (old : Rfq) × (lookup rfq.id e.store.rfqs ≡ some old)
    × (status_eq old.status RfqStatus.opened ≡ false)
    × (old.best_quote_id ≡ rfq.best_quote_id)

same_best : (a b : Rfq) (id : ℕ) → a.best_quote_id ≡ b.best_quote_id → is_best a id ≡ is_best b id
same_best a b id h = rw h

-- A write that leaves the winner's cash tied up.
pub save_rfq-IsSound :
    (rfq : Rfq) (e : Engine)
    → Settled rfq e
    → intent_fits rfq ≡ true
    → ((id : ℕ) → is_best rfq id ≡ true → holds_collateral rfq id ≡ true)
    → IsSound e
    → IsSound (save_rfq rfq e)
unfolding save_rfq
save_rfq-IsSound rfq e (old, stored, ended, best) fits holds v =
    put_rfq-IsSoundIn rfq e.store e.reservations fits kept v
  where
    same : old.id ≡ rfq.id
    same = v.keyed rfq.id old stored

    kept : Holds rfq e.store e.reservations
    kept id r q reserved found filed = holds id (
        sym (same_best old rfq id best)
        ∙ only_winner old e.store e.reservations id r q v
            (ap (λ k. lookup k e.store.rfqs) same ∙ stored) ended reserved found (filed ∙ sym same))

-- A write that ends the RFQ and releases the winner.
pub end-IsSoundIn :
    (rfq : Rfq) (w : ℕ) (e : Engine)
    → Settled rfq e
    → intent_fits rfq ≡ true
    → is_best rfq w ≡ true
    → IsSound e
    → IsSoundIn (put_rfq rfq e.store) (erase w e.reservations)
end-IsSoundIn rfq w e (old, stored, ended, best) fits winner v =
    put_rfq-IsSoundIn rfq e.store (erase w e.reservations) fits
      (nothing_held old rfq e.store e.reservations (erase w e.reservations) v
        (ap (λ k. lookup k e.store.rfqs) same ∙ stored) ended (sym same)
        (Within-erase w e.reservations)
        (λ id q b found. erased id (sym (same_best old rfq id best) ∙ b)))
      (Within-IsSoundIn e.store _ e.reservations (Within-erase w e.reservations) v)
  where
    same : old.id ≡ rfq.id
    same = v.keyed rfq.id old stored

    erased : (id : ℕ) → is_best rfq id ≡ true → lookup id (erase w e.reservations) ≡ none
    erased id b = ground (arith, lookup-erase id w e.reservations)

outcome_event-keeps :
    (terminal : Rfq) (intent : RfqExecutionIntent) (result : SubmitResult) (e : Engine)
    → ((outcome_event terminal intent result e).store ≡ e.store)
      × ((outcome_event terminal intent result e).reservations ≡ e.reservations)
unfolding emit
outcome_event-keeps terminal intent result e = go result.status refl
  where
    go :
        (s : ReceiptStatus)
        → result.status ≡ s
        → ((outcome_event terminal intent result e).store ≡ e.store)
          × ((outcome_event terminal intent result e).reservations ≡ e.reservations)
    go ReceiptStatus.success h = (ground arith, ground arith)
    go ReceiptStatus.reverted h = (ground arith, ground arith)

pub terminate-IsSound :
    (rfq : Rfq) (intent : RfqExecutionIntent) (result : SubmitResult) (e : Engine)
    → Settled rfq e
    → is_best rfq intent.fill.quote_id ≡ true
    → IsSound e
    → IsSound (terminate rfq intent result e)
terminate-IsSound rfq intent result e settled winner v =
    let (kept, held) = outcome_event-keeps (terminal_rfq rfq intent result) intent result (
      clear_latches rfq.id (some result.tx_hash) (not (is_some intent.tx_hash))
        (release_reservation intent.fill.quote_id (save_rfq (terminal_rfq rfq intent result) e))) in
    unfold terminate save_rfq release_reservation in rw (kept, held) final
  where
    ended :
        (s : ReceiptStatus)
        → result.status ≡ s
        → intent_fits (terminal_rfq rfq intent result) ≡ true
    ended ReceiptStatus.success h = unfold terminal_rfq in rw h
    ended ReceiptStatus.reverted h = unfold terminal_rfq in rw h

    final :
        IsSoundIn
          (put_rfq (terminal_rfq rfq intent result) e.store)
          (erase intent.fill.quote_id e.reservations)
    final =
        end-IsSoundIn (terminal_rfq rfq intent result) intent.fill.quote_id e
          (unfold terminal_rfq in settled) (ended result.status refl)
          (unfold terminal_rfq in winner) v

pub terminalize_expired_unused-IsSound :
    (rfq : Rfq) (intent : RfqExecutionIntent) (e : Engine)
    → Settled rfq e
    → is_best rfq intent.fill.quote_id ≡ true
    → IsSound e
    → IsSound (terminalize_expired_unused rfq intent e).1
unfolding terminalize_expired_unused emit save_rfq release_reservation
terminalize_expired_unused-IsSound rfq intent e settled winner v =
    end-IsSoundIn (unused_rfq rfq) intent.fill.quote_id e settled refl winner v

pub leave_unresolved-IsSound :
    (rfq : Rfq) (intent : RfqExecutionIntent) (message : Text) (e : Engine)
    → Settled rfq e
    → is_best rfq intent.fill.quote_id ≡ true
    → IsSound e
    → IsSound (leave_unresolved rfq intent message e)
unfolding leave_unresolved
leave_unresolved-IsSound rfq intent message e settled winner v =
    save_rfq-IsSound _ _ settled winner (λ id b. b) v

pub announce-IsSound :
    (hash : Option Hex) (rfq : Rfq) (intent : RfqExecutionIntent) (e : Engine)
    → Settled rfq e
    → is_best rfq intent.fill.quote_id ≡ true
    → IsSound e
    → IsSound (announce hash rfq intent e)
announce-IsSound none rfq intent e settled winner v = v
announce-IsSound (some h) rfq intent e settled winner v =
    save_rfq-IsSound _ e settled winner (λ id b. b) v

pub announce-Settled :
    (hash : Option Hex) (rfq : Rfq) (intent : RfqExecutionIntent) (e : Engine)
    → Settled rfq e
    → Settled rfq (announce hash rfq intent e)
unfolding save_rfq put_rfq
announce-Settled none rfq intent e settled = settled
announce-Settled (some h) rfq intent e settled = (
  executing_rfq rfq (record intent { tx_hash = some h }),
  ground (
    arith,
    lookup-insert rfq.id rfq.id (executing_rfq rfq (record intent { tx_hash = some h }))
        e.store.rfqs,
  ),
  refl,
  refl,
)

pub take_back-IsSound :
    (rfq : Rfq) (message : Text) (now : ℕ) (e : Engine)
    → Settled rfq e
    → IsSound e
    → IsSound (take_back rfq message now e)
take_back-IsSound rfq message now e settled v = elim (Bool-cases (is_overdue rfq now)) [
  | inl late ↦ unfold take_back in rw (late, take_back) (expire_accept-IsSound rfq.id saved v')
  | inr early ↦ unfold take_back in rw (early, take_back) (armed rfq.accept_deadline_at refl)
]
  where
    saved : Engine
    saved = save_rfq (reopened_rfq rfq message) e

    v' : IsSound saved
    v' = save_rfq-IsSound (reopened_rfq rfq message) e settled refl (λ id b. b) v

    armed :
        (o : Option ℕ)
        → rfq.accept_deadline_at ≡ o
        → IsSound (arm_accept_timer (reopened_rfq rfq message) now saved)
    armed none h = unfold arm_accept_timer in rw (h, arm_accept_timer) v'
    armed (some d) h = unfold arm_accept_timer in rw (h, arm_accept_timer) v'
