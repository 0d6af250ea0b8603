-- ===== src/Rfq/Store.antt =====
-- services/rfq-engine/src/store.ts: `InMemoryRfqStore`. The children state what it promises and model
-- `JsonlRfqStore`, the log that is replayed into it.
pub mod Index
pub mod Log
pub mod Replay
use derive_docs.Base.{
  ℕ, ◌≡◌, Bool, not, List, [], ◌∷◌, ◌++◌, Option, none, some, ◌==◌, if◌then◌else◌, is_some, get_or,
  filter,
}
use derive_docs.Base.Map.{Map, lookup, insert, erase, values, has}
use derive_docs.Rfq.Types.{Rfq, Quote, RfqStatus, status_eq}

pub record Store : Type 0 where
  pub rfqs : Map Rfq
  pub quotes : Map Quote
  pub quotes_by_rfq : Map (List ℕ)

abbrev pub empty_store : Store
empty_store = record { rfqs = []; quotes = []; quotes_by_rfq = [] }

unfoldable pub put_rfq : Rfq → Store → Store
put_rfq r s = record s { rfqs = insert r.id r s.rfqs }

unfoldable pub get_rfq : ℕ → Store → Option Rfq
get_rfq id s = lookup id s.rfqs

unfoldable pub list_rfqs : Store → List Rfq
list_rfqs s = values s.rfqs

unfoldable pub list_open_rfqs : Store → List Rfq
list_open_rfqs s = filter (λ r. status_eq r.status RfqStatus.opened) (values s.rfqs)

-- `this.quotesByRfq.get(rfqId) ?? []`
unfoldable pub ids_of : ℕ → Store → List ℕ
ids_of rfq_id s = get_or (lookup rfq_id s.quotes_by_rfq) []

-- The index grows only if the quote is new.
unfoldable pub put_quote : Quote → Store → Store
unfolding ids_of
put_quote q s = record s {
  quotes = insert q.id q s.quotes;
  quotes_by_rfq =
      if has q.id s.quotes
      then s.quotes_by_rfq
      else insert q.rfq_id (ids_of q.rfq_id s ++ q.id ∷ []) s.quotes_by_rfq;
}

unfoldable pub get_quote : ℕ → Store → Option Quote
get_quote id s = lookup id s.quotes

unfoldable pub delete_quote : ℕ → Store → Store
delete_quote id s = elim (lookup id s.quotes) [
  | none ↦ s
  | some q ↦ record s {
    quotes = erase id s.quotes;
    quotes_by_rfq = elim (lookup q.rfq_id s.quotes_by_rfq) [
      | none ↦ s.quotes_by_rfq
      | some ids ↦ insert q.rfq_id (filter (λ qid. not (qid == id)) ids) s.quotes_by_rfq
    ];
  }
]

-- `ids.map((id) => this.quotes.get(id)).filter(defined)`
unfoldable pub present : Map Quote → List ℕ → List Quote
present m [] = []
present m (id ∷ ids) = elim (lookup id m) [ none ↦ present m ids | some q ↦ q ∷ present m ids ]

unfoldable pub list_quotes : ℕ → Store → List Quote
unfolding ids_of present
list_quotes rfq_id s = present s.quotes (ids_of rfq_id s)
