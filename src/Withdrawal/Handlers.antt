-- ===== src/Withdrawal/Handlers.antt =====
-- services/rfq-engine/src/withdrawal.ts: `get` and `recover`, and the engine as a sequence of events.
use derive_docs.Base.{
  ℕ, false, not, ◌&&◌, ◌||◌, List, [], ◌∷◌, none, some, if◌then◌else◌, leb, ◌+◌, Result, ok, err,
  contains, is_some,
}
use derive_docs.Base.Text.{codes}
use derive_docs.Withdrawal.Types.{WithdrawalStatus, WithdrawalErrorBody, WithdrawalOperation}
use derive_docs.Withdrawal.Store.{get, list}
use derive_docs.Withdrawal.Gateway.{WithdrawalGateway, WithdrawalApiError, error_body}
use derive_docs.Withdrawal.State.{WithdrawalEngine, status_is, save}
use derive_docs.Withdrawal.Reconcile.{reconcile_submitted, reconcile_unknown}
use derive_docs.Withdrawal.Submission.{not_found, action_expired, expired_by}

-- The lookup of an operation that exists: what is due is done first.
unfoldable pub refresh :
    WithdrawalGateway
    → ℕ
    → WithdrawalOperation
    → WithdrawalEngine
    → WithdrawalEngine × WithdrawalOperation
unfolding expired_by save reconcile_submitted reconcile_unknown
refresh gateway now o e =
    if status_is o.status WithdrawalStatus.prepared && leb o.expires_at now
    then (save (expired_by action_expired o) e, expired_by action_expired o)
    else if status_is o.status WithdrawalStatus.submitted && is_some o.tx_hash
    then reconcile_submitted gateway now o e
    else if status_is o.status WithdrawalStatus.submitting
          && not (contains o.id e.active_submissions)
        || status_is o.status WithdrawalStatus.unknown
    then reconcile_unknown gateway now o e
    else (e, o)

-- `get`
unfoldable pub get_withdrawal :
    WithdrawalGateway
    → ℕ
    → ℕ
    → WithdrawalEngine
    → WithdrawalEngine × Result WithdrawalApiError WithdrawalOperation
unfolding get refresh
get_withdrawal gateway now id e = elim (get id e.store) [
  | none ↦ (e, err not_found)
  | some o ↦ let (e', o') = refresh gateway now o e in (e', ok o')
]

-- `WithdrawalRecoverySummary`
pub record WithdrawalRecoverySummary : Type 0 where
  pub expired : ℕ
  pub confirmed : ℕ
  pub reverted : ℕ
  pub unknown : ℕ
  pub pending : ℕ

abbrev pub expired_in_restart : WithdrawalErrorBody
expired_in_restart =
    error_body (codes "ACTION_EXPIRED") (codes "the prepared action expired during restart") false

abbrev count_unknown : WithdrawalStatus → WithdrawalRecoverySummary → WithdrawalRecoverySummary
count_unknown status s = elim status [
  | WithdrawalStatus.expired ↦ record s { expired = s.expired + 1 }
  | WithdrawalStatus.confirmed ↦ record s { confirmed = s.confirmed + 1 }
  | WithdrawalStatus.reverted ↦ record s { reverted = s.reverted + 1 }
  | _ ↦ record s { unknown = s.unknown + 1 }
]

abbrev count_submitted : WithdrawalStatus → WithdrawalRecoverySummary → WithdrawalRecoverySummary
count_submitted status s = elim status [
  | WithdrawalStatus.confirmed ↦ record s { confirmed = s.confirmed + 1 }
  | WithdrawalStatus.reverted ↦ record s { reverted = s.reverted + 1 }
  | _ ↦ record s { pending = s.pending + 1 }
]

abbrev counted :
    (WithdrawalStatus → WithdrawalRecoverySummary → WithdrawalRecoverySummary)
    → WithdrawalEngine × WithdrawalOperation
    → WithdrawalRecoverySummary
    → WithdrawalEngine × WithdrawalRecoverySummary
counted count (e, o) summary = (e, count o.status summary)

-- The body of the loop of `recover`; each operation meets the answers of its time.
unfoldable pub recover_operation :
    WithdrawalGateway
    → ℕ
    → WithdrawalOperation
    → WithdrawalEngine × WithdrawalRecoverySummary
    → WithdrawalEngine × WithdrawalRecoverySummary
unfolding expired_by save reconcile_submitted reconcile_unknown
recover_operation gateway now o (e, summary) =
    if status_is o.status WithdrawalStatus.prepared && leb o.expires_at now
    then (
      save (expired_by expired_in_restart o) e,
      record summary { expired = summary.expired + 1 },
    )
    else if status_is o.status WithdrawalStatus.submitting
        || status_is o.status WithdrawalStatus.unknown
    then counted count_unknown (reconcile_unknown gateway now o e) summary
    else if status_is o.status WithdrawalStatus.submitted && is_some o.tx_hash
    then counted count_submitted (reconcile_submitted gateway now o e) summary
    else (e, summary)

unfoldable pub recover_operations :
    WithdrawalGateway
    → ℕ
    → List WithdrawalOperation
    → WithdrawalEngine × WithdrawalRecoverySummary
    → WithdrawalEngine × WithdrawalRecoverySummary
unfolding recover_operation
recover_operations gateway now [] r = r
recover_operations gateway now (o ∷ os) r =
    recover_operations gateway now os (recover_operation gateway now o r)

abbrev pub nothing_recovered : WithdrawalRecoverySummary
nothing_recovered = record { expired = 0; confirmed = 0; reverted = 0; unknown = 0; pending = 0 }

-- `recover`
unfoldable pub recover_withdrawals :
    WithdrawalGateway → ℕ → WithdrawalEngine → WithdrawalEngine × WithdrawalRecoverySummary
unfolding list recover_operations
recover_withdrawals gateway now e =
    recover_operations gateway now (list e.store) (e, nothing_recovered)
