-- ===== src/Rfq/Auction/Opening.antt =====
-- services/rfq-engine/src/auction.ts: `openRfq`.
use derive_docs.Base.{ℕ, ◌+◌, Bool, Option, none, Result, ok, err, ◌>>=◌, ◌>>◌, guard, or_throw}
use derive_docs.Base.Int.{ℤ, pos, ltb_ℤ}
use derive_docs.Base.Map.{insert}
use derive_docs.Rfq.Types.{Instrument, RfqDirection, RfqStatus, Rfq}
use derive_docs.Rfq.Store.{put_rfq}
use derive_docs.Rfq.Auction.State.{Engine, rfq_open, emit}

-- What `openRfq` has read from its request: `asBigInt`, `toUnit`, `resolveInstrument`, and the tests
-- of the market and its readiness.
pub record OpenRequest : Type 0 where
  pub subaccount_id : ℤ
  pub amount : ℤ
  pub instrument : Option Instrument
  pub tradeable : Bool

pub data OpenError : Type 0 where
  no_subaccount no_amount unknown_instrument not_tradeable : OpenError

-- `openRfq` at the time `created_at`, under the fresh identifier.
unfoldable pub make_rfq :
    (auction_window_ms : ℕ) → OpenRequest → (created_at id : ℕ) → Result OpenError Rfq
make_rfq auction_window_ms request created_at id = do
  guard (ltb_ℤ (pos 0) request.subaccount_id) no_subaccount
  guard (ltb_ℤ (pos 0) request.amount) no_amount
  instrument ← or_throw request.instrument unknown_instrument
  guard request.tradeable not_tradeable
  ok (record {
    id = id;
    taker_subaccount_id = request.subaccount_id;
    instrument = instrument;
    amount = request.amount;
    direction = RfqDirection.sell;
    created_at = created_at;
    auction_ends_at = created_at + auction_window_ms;
    accept_deadline_at = none;
    status = RfqStatus.opened;
    best_quote_id = none;
    execution = none;
    execution_intent = none;
    error = none;
  })

abbrev pub announce_open : Rfq → Engine → Engine
announce_open rfq e =
    emit (rfq_open rfq) (record e {
      store = put_rfq rfq e.store;
      timers = insert rfq.id rfq.auction_ends_at e.timers;
    })

unfoldable pub open_rfq :
    (auction_window_ms : ℕ)
    → OpenRequest
    → (created_at id : ℕ) → Engine
    → Engine × Result OpenError Rfq
unfolding make_rfq
open_rfq auction_window_ms request created_at id e =
    elim (make_rfq auction_window_ms request created_at id) [
      | err error ↦ (e, err error)
      | ok rfq ↦ (announce_open rfq e, ok rfq)
    ]
