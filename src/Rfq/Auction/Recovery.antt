-- ===== src/Rfq/Auction/Recovery.antt =====
-- services/rfq-engine/src/auction.ts: `reconcileExecuting`, `getRfq` and `recover`. What the chain
-- says of an intent is a parameter.
use derive_docs.Base.{
  ℕ, ◌+◌, Bool, true, false, not, ◌&&◌, List, [], ◌∷◌, Option, none, some, ltb, if◌then◌else◌,
  contains, get_or,
}
use mathlib.Core.Option
use derive_docs.Base.Text.{Text, text_eq}
use derive_docs.Base.Map.{insert}
use derive_docs.Rfq.Types.{RfqStatus, Reason, RfqExecutionIntent, Rfq, Quote, status_eq}
use derive_docs.Rfq.Store.{get_rfq, list_rfqs, list_quotes}
use derive_docs.Rfq.Submitter.{SubmitResult}
use derive_docs.Rfq.Auction.State.{Engine, reserve, arm_accept_timer}
use derive_docs.Rfq.Auction.Lifecycle.{
  winner_of, save_rfq, close_auction, expire_accept, reserve_winner,
}
use derive_docs.Rfq.Auction.Terminal.{terminalize_mined, terminalize_expired_unused, arm_latches}
use derive_docs.Rfq.Auction.Execution.{is_overdue}

-- `VerifyAndMatchReconciliation`, or the error of a reconciliation that throws.
pub data Reconciliation : Type 0 where
  pending expired_unused : Reconciliation
  mined : SubmitResult → Reconciliation
  ambiguous : Text → Reconciliation

-- `rfq.error?.includes("legacy execution record")`: only the engine's own message does.
abbrev pub mentions_legacy : Option Reason → Bool
mentions_legacy none = false
mentions_legacy (some Reason.legacy_record) = true
mentions_legacy (some _) = false

-- `rfq.error === message`
abbrev pub says_ambiguous : Text → Option Reason → Bool
says_ambiguous message none = false
says_ambiguous message (some (Reason.still_ambiguous m)) = text_eq m message
says_ambiguous message (some _) = false

abbrev pub with_error : Reason → Rfq → Rfq
with_error reason rfq = record rfq { error = some reason }

-- A record of an execution without an intent is left for an operator.
unfoldable pub flag_legacy : Rfq → Engine → Rfq × Engine
flag_legacy rfq e =
    if mentions_legacy rfq.error
    then (rfq, e)
    else (with_error Reason.legacy_record rfq, save_rfq (with_error Reason.legacy_record rfq) e)

unfoldable pub flag_ambiguous : Text → Rfq → Engine → Rfq × Engine
flag_ambiguous message rfq e = if says_ambiguous message rfq.error then (rfq, e) else (
  with_error (Reason.still_ambiguous message) rfq,
  save_rfq (with_error (Reason.still_ambiguous message) rfq) e,
)

-- The answers to an intent. `none` is the error for a mined hash that is not the persisted one.
unfoldable pub apply_reconciliation :
    Reconciliation → Rfq → RfqExecutionIntent → Engine → Option Rfq × Engine
unfolding flag_ambiguous
apply_reconciliation pending rfq intent e = (some rfq, e)
apply_reconciliation expired_unused rfq intent e =
    let (rfq', e') = terminalize_expired_unused rfq intent e in (some rfq', e')
apply_reconciliation (mined result) rfq intent e = elim (terminalize_mined rfq intent result e) [
  | none ↦ (none, e)
  | some (rfq', e') ↦ (some rfq', e')
]
apply_reconciliation (ambiguous message) rfq intent e =
    let (rfq', e') = flag_ambiguous message rfq e in (some rfq', e')

abbrev intent_hash : Option RfqExecutionIntent → Option Text
intent_hash none = none
intent_hash (some intent) = intent.tx_hash

-- `reconcileExecutingOnce` of an RFQ that is executing.
unfoldable pub reconcile : Reconciliation → Rfq → Engine → Option Rfq × Engine
unfolding flag_legacy apply_reconciliation
reconcile answer rfq e =
    let armed = arm_latches rfq.id (intent_hash rfq.execution_intent) e in
    elim rfq.execution_intent [
      | none ↦ let (rfq', e') = flag_legacy rfq armed in (some rfq', e')
      | some intent ↦ apply_reconciliation answer rfq intent armed
    ]

-- `reconcileExecutingOnce`: the stored RFQ, if there is one, decides.
unfoldable pub reconcile_executing : Reconciliation → Rfq → Engine → Option Rfq × Engine
unfolding reconcile
reconcile_executing answer candidate e =
    let rfq = get_or (get_rfq candidate.id e.store) candidate in
    if status_eq rfq.status RfqStatus.executing then reconcile answer rfq e else (some rfq, e)

-- `getRfq`: an execution that no handler is busy with is reconciled by the read.
unfoldable pub read_rfq : Reconciliation → ℕ → Engine → Option Rfq × Engine
unfolding reconcile_executing
read_rfq answer id e = elim (get_rfq id e.store) [
  | none ↦ (none, e)
  | some rfq ↦
      if status_eq rfq.status RfqStatus.executing && not (contains id e.active_executions)
      then reconcile_executing answer rfq e
      else (some rfq, e)
]

unfoldable pub reserve_all : List Quote → Engine → Engine
reserve_all [] e = e
reserve_all (q ∷ qs) e = reserve_all qs (reserve q e)

abbrev arm_timer : Rfq → Engine → Engine
arm_timer rfq e = record e { timers = insert rfq.id rfq.auction_ends_at e.timers }

-- `recover` of an RFQ that was open: its timer and its quotes' reservations, or its end.
unfoldable pub recover_open : (accept_deadline_ms : ℕ) → Rfq → ℕ → Engine → Engine
unfolding reserve_all
recover_open accept_deadline_ms rfq now e =
    if ltb now rfq.auction_ends_at
    then reserve_all (list_quotes rfq.id e.store) (arm_timer rfq e)
    else close_auction accept_deadline_ms rfq.id now e

abbrev with_deadline : (accept_deadline_ms now : ℕ) → Rfq → Rfq
with_deadline accept_deadline_ms now rfq = elim rfq.accept_deadline_at [
  | none ↦ record rfq { accept_deadline_at = some (now + accept_deadline_ms) }
  | some deadline ↦ rfq
]

abbrev save_if_new : Option ℕ → Rfq → Engine → Engine
save_if_new none rfq e = save_rfq rfq e
save_if_new (some deadline) rfq e = e

-- `recover` of an RFQ that was closed.
unfoldable pub recover_closed : (accept_deadline_ms : ℕ) → Rfq → ℕ → Engine → Engine
recover_closed accept_deadline_ms rfq now e =
    let rfq' = with_deadline accept_deadline_ms now rfq in
    let saved = save_if_new rfq.accept_deadline_at rfq' e in
    if is_overdue rfq now
    then expire_accept rfq.id e
    else arm_accept_timer rfq' now (reserve_winner (winner_of rfq' saved.store) saved)

-- `recover` of an RFQ that was executing.
unfoldable pub recover_executing : Reconciliation → Rfq → Engine → Option Rfq × Engine
unfolding reconcile_executing
recover_executing answer rfq e =
    reconcile_executing answer rfq (reserve_winner (winner_of rfq e.store) e)

-- One round of the loop of `recover`; `none` if a reconciliation throws.
unfoldable pub recover_rfq :
    (accept_deadline_ms : ℕ) → (ℕ → Reconciliation) → ℕ → Rfq → Engine → Option Engine
unfolding recover_open recover_closed recover_executing
recover_rfq accept_deadline_ms answers now rfq e = elim rfq.status [
  | RfqStatus.opened ↦ some (recover_open accept_deadline_ms rfq now e)
  | RfqStatus.closed ↦ some (recover_closed accept_deadline_ms rfq now e)
  | RfqStatus.executing ↦
      let (r, e') = recover_executing (answers rfq.id) rfq e in Option.map (λ _. e') r
  | _ ↦ some e
]

unfoldable pub recover_rfqs :
    (accept_deadline_ms : ℕ) → (ℕ → Reconciliation) → ℕ → List Rfq → Engine → Option Engine
recover_rfqs accept_deadline_ms answers now [] e = some e
recover_rfqs accept_deadline_ms answers now (rfq ∷ rfqs) e =
    Option.bind (recover_rfq accept_deadline_ms answers now rfq e)
      (recover_rfqs accept_deadline_ms answers now rfqs)

-- `recover`, without its summary.
unfoldable pub recover :
    (accept_deadline_ms : ℕ) → (ℕ → Reconciliation) → ℕ → Engine → Option Engine
unfolding recover_rfqs
recover accept_deadline_ms answers now e =
    recover_rfqs accept_deadline_ms answers now (list_rfqs e.store) e
