-- ===== src/Rfq/Auction/State.antt =====
-- services/rfq-engine/src/auction.ts: the state of `AuctionEngine` with its store and the
-- executor's latches, and the small steps that the handlers share.
use derive_docs.Base.{
  ℕ, ◌+◌, ◌-◌, not, List, [], ◌∷◌, ◌++◌, Option, none, some, if◌then◌else◌, contains,
}
use derive_docs.Base.Int.{ℤ, pos, ◌+ℤ◌, ◌==ℤ◌}
use derive_docs.Base.Map.{Map, insert, erase}
use derive_docs.Rfq.Types.{Reason, Rfq, Quote, ExecutionResult}
use derive_docs.Rfq.Store.{Store}
use derive_docs.Rfq.Submitter.{Latches}

-- An entry of `reservations`.
pub record Reservation : Type 0 where
  pub subaccount_id : ℤ
  pub amount : ℤ

-- What the engine emits to its subscribers.
pub data Event : Type 0 where
  rfq_open : Rfq → Event
  rfq_closed : Rfq → Option Quote → Event
  rfq_executed : Rfq → ExecutionResult → Event
  rfq_failed : Rfq → Option Reason → Event
  rfq_accept_expired : Rfq → Option Quote → Event

-- A timer is kept as the time at which it fires.
pub record Engine : Type 0 where
  pub store : Store
  pub timers : Map ℕ
  pub accept_timers : Map ℕ
  pub reservations : Map Reservation
  pub active_executions : List ℕ
  pub latches : Latches
  pub events : List Event

-- `reservedFor`: the entries of the account, without those of the excluded quotes.
unfoldable pub reserved_in : ℤ → List ℕ → Map Reservation → ℤ
reserved_in account exclude [] = pos 0
reserved_in account exclude ((quote_id, r) ∷ m) =
    let rest = reserved_in account exclude m in
    if not (r.subaccount_id ==ℤ account)
    then rest
    else if contains quote_id exclude
    then rest
    else r.amount +ℤ rest

unfoldable pub reserved_for : ℤ → List ℕ → Engine → ℤ
unfolding reserved_in
reserved_for account exclude e = reserved_in account exclude e.reservations

unfoldable pub release_reservation : ℕ → Engine → Engine
release_reservation quote_id e = record e { reservations = erase quote_id e.reservations }

-- `reservations.set(quote.id, { subaccountId, amount })`
unfoldable pub reserve : Quote → Engine → Engine
reserve q e = record e {
  reservations =
      insert q.id (record { subaccount_id = q.maker_subaccount_id; amount = q.reserved_cash })
        e.reservations;
}

unfoldable pub emit : Event → Engine → Engine
emit event e = record e { events = e.events ++ event ∷ [] }

-- `armAcceptTimer`: the timer fires at the deadline, or at once if that has passed.
unfoldable pub arm_accept_timer : Rfq → ℕ → Engine → Engine
arm_accept_timer rfq now e = elim rfq.accept_deadline_at [
  | none ↦ e
  | some deadline ↦ record e {
    accept_timers = insert rfq.id (now + (deadline - now)) e.accept_timers;
  }
]

unfoldable pub clear_accept_timer : ℕ → Engine → Engine
clear_accept_timer rfq_id e = record e { accept_timers = erase rfq_id e.accept_timers }

unfoldable pub clear_timer : ℕ → Engine → Engine
clear_timer rfq_id e = record e { timers = erase rfq_id e.timers }
