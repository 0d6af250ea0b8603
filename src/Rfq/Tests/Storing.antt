-- ===== src/Rfq/Tests/Storing.antt =====
-- The theorems on the store and its log at concrete inputs.
use derive_docs.Base.{◌≡◌, refl, ◌↔◌, inr, [], ◌∷◌, ◌++◌, none, some, arith, if◌then◌else◌}
use derive_docs.Base.Map.{lookup, insert}
use derive_docs.Base.Text.{Text, codes, text_eq, trim}
use derive_docs.Rfq.Types.{Action, Quote}
use derive_docs.Rfq.Stored.Schema.{rfq_record}
use derive_docs.Rfq.Stored.Rfqs.{rfq_to_stored, rfq_from_stored}
use derive_docs.Rfq.Stored.Quotes.{quote_to_stored, quote_from_stored, is_address, is_hex}
use derive_docs.Rfq.Stored.RoundTrip.{IsWellFormed, rfq-round_trip, quote-round_trip}
use derive_docs.Rfq.Store.{
  Store, empty_store, put_quote, delete_quote, list_quotes, get_quote, ids_of,
}
use derive_docs.Rfq.Store.Index.{
  In, IsIndexed, put_quote-IsIndexed, list_quotes_exact, store-IsIndexed,
}
use derive_docs.Rfq.Store.Log.{Json, Prints, puts_rfq, fresh_log, log_ops, load, append}
use derive_docs.Rfq.Store.Replay.{crash_recovers, append_after_torn}
use derive_docs.Rfq.Tests.{rfq, action, quote_at}

rfq-round_trip_example : rfq_from_stored (rfq_to_stored rfq) ≡ some rfq
rfq-round_trip_example = rfq-round_trip rfq

abbrev account : Text
account = codes "0x00112233445566778899aabbccddeeff00112233"

abbrev signed : Action
signed = record action {
  target = account;
  call_data = codes "0x0a";
  owner = account;
  signer = account;
}

abbrev signed_quote : Quote
signed_quote = record (quote_at 7 40 2_500) { action = signed }

signed-IsWellFormed : IsWellFormed signed
unfolding is_address is_hex
signed-IsWellFormed = record { target = refl; call_data = refl; owner = refl; signer = refl }

quote-round_trip_example : quote_from_stored (quote_to_stored signed_quote) ≡ some signed_quote
quote-round_trip_example = quote-round_trip signed_quote signed-IsWellFormed

empty-IsIndexed : IsIndexed empty_store
unfolding lookup ids_of
empty-IsIndexed = record {
  keyed = λ id q h. absurd (ground arith);
  filed = λ r id. refl;
  distinct = λ r. tt;
}

abbrev store : Store
store = put_quote (quote_at 7 40 2_500) empty_store

store_holds-IsIndexed : IsIndexed store
unfolding lookup
store_holds-IsIndexed =
    put_quote-IsIndexed (quote_at 7 40 2_500) empty_store empty-IsIndexed
      (λ old h. absurd (ground arith))

list_quotes_exact_example :
    In (quote_at 7 40 2_500) (list_quotes 1 store)
    ↔ ((get_quote 7 store ≡ some (quote_at 7 40 2_500)) × ((quote_at 7 40 2_500).rfq_id ≡ 1))
list_quotes_exact_example = list_quotes_exact store 1 (quote_at 7 40 2_500) store_holds-IsIndexed

store-IsIndexed_example :
    IsIndexed (put_quote (quote_at 9 50 2_600) store) × IsIndexed (delete_quote 7 store)
store-IsIndexed_example = store-IsIndexed store (quote_at 9 50 2_600) 7 store_holds-IsIndexed fresh
  where
    fresh : (old : Quote) → lookup 9 store.quotes ≡ some old → old.rfq_id ≡ 1
    fresh old h = unfold lookup insert put_quote in absurd (ground arith)

-- A JSON of one record.
abbrev json : Json
json = record {
  parse = λ t. if text_eq t (codes "r") then some (rfq_record (rfq_to_stored rfq)) else none;
  stringify = λ _. codes "r";
}

printed : Prints json (rfq_record (rfq_to_stored rfq))
unfolding text_eq trim
printed = record { parses = refl; one_line = refl; trimmed = refl; not_empty = λ h. cc }

crash_recovers_example :
    load json ((log_ops json (puts_rfq rfq ∷ []) fresh_log).file ++ codes "{")
    ≡ some (log_ops json (puts_rfq rfq ∷ []) fresh_log).index
unfolding text_eq trim
crash_recovers_example =
    crash_recovers json (puts_rfq rfq ∷ []) (codes "{") (printed, tt) refl (inr refl)

append_after_torn_example :
    load json (
      append json
        (rfq_record (rfq_to_stored rfq))
        ((log_ops json (puts_rfq rfq ∷ []) fresh_log).file ++ codes "{"))
    ≡ some (log_ops json (puts_rfq rfq ∷ []) fresh_log).index
unfolding text_eq trim
append_after_torn_example =
    append_after_torn json (puts_rfq rfq ∷ []) (codes "{") (rfq_record (rfq_to_stored rfq))
      (printed, tt) printed refl refl
