-- ===== src/Rfq/Auction/Sound.antt =====
-- services/rfq-engine/src/auction.ts: the invariant of the engine's records and reservations. Its
-- preservation by the handlers is in the children.
pub mod Steps
pub mod Quoting
pub mod Ending
pub mod Closing
pub mod Executing
pub mod Accepting
pub mod Reconciling
pub mod Reachability
pub mod Safety
pub mod Recovering
use derive_docs.Base.{ℕ, ◌≡◌, Bool, true, false, Option, none, some, ◌==◌}
use derive_docs.Base.Map.{Map, lookup}
use derive_docs.Rfq.Types.{RfqStatus, Rfq, Quote}
use derive_docs.Rfq.Store.{Store}
use derive_docs.Rfq.Store.Index.{IsIndexed}
use derive_docs.Rfq.Auction.State.{Engine, Reservation}
use derive_docs.Rfq.Auction.Execution.{is_best}

-- Whether an RFQ still ties up the cash of the quote: any quote while it is open, the winner until
-- the acceptance has ended, none afterwards.
abbrev pub holds_collateral : Rfq → ℕ → Bool
holds_collateral rfq quote_id = elim rfq.status [
  | RfqStatus.opened ↦ true
  | RfqStatus.closed ↦ is_best rfq quote_id
  | RfqStatus.executing ↦ is_best rfq quote_id
  | _ ↦ false
]

abbrev pub held_by : ℕ → Option Rfq → Bool
held_by quote_id none = false
held_by quote_id (some rfq) = holds_collateral rfq quote_id

abbrev pub reservation_of : Quote → Reservation
reservation_of q = record { subaccount_id = q.maker_subaccount_id; amount = q.reserved_cash }

-- A reservation is that of a stored quote, and the quote's RFQ holds it.
abbrev pub Backs : ℕ → Reservation → Option Quote → Map Rfq → Type 0
Backs id r none rfqs = ⊥
Backs id r (some q) rfqs = (r ≡ reservation_of q) × (held_by id (lookup q.rfq_id rfqs) ≡ true)

-- The intent of an execution is for the winning quote.
abbrev pub intent_fits : Rfq → Bool
intent_fits rfq = elim rfq.status [
  | RfqStatus.executing ↦ elim rfq.execution_intent [
    | none ↦ true
    | some intent ↦ is_best rfq intent.fill.quote_id
  ]
  | _ ↦ true
]

pub record IsSoundIn (s : Store) (reservations : Map Reservation) : Type 0 where
  pub keyed : (id : ℕ) (rfq : Rfq) → lookup id s.rfqs ≡ some rfq → rfq.id ≡ id
  pub intents : (id : ℕ) (rfq : Rfq) → lookup id s.rfqs ≡ some rfq → intent_fits rfq ≡ true
  pub indexed : IsIndexed s
  pub backed :
      (id : ℕ) (r : Reservation)
      → lookup id reservations ≡ some r
      → Backs id r (lookup id s.quotes) s.rfqs

-- RFQs and quotes are stored under their ids, the index of quotes is in step, an execution is for
-- the winner, and no cash is reserved but for a quote that may still be executed.
abbrev pub IsSound : Engine → Type 0
IsSound e = IsSoundIn e.store e.reservations

pub IsSound-at : (e : Engine) {e' : Engine} → e' ≡ e → IsSound e → IsSound e'
IsSound-at e h v = rw h v
