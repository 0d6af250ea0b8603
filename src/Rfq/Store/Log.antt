-- ===== src/Rfq/Store/Log.antt =====
-- services/rfq-engine/src/store.ts: `JsonlRfqStore`, an append-only log over the in-memory store.
-- JSON itself is a parameter; the file is the text that the appends have written.
use mathlib.Core.Option
use derive_docs.Base.{ℕ, ◌≡◌, ◌≢◌, true, List, [], ◌∷◌, ◌++◌, Option, none, some, if◌then◌else◌}
use derive_docs.Base.Map.{insert, has}
use derive_docs.Base.Text.{Text, trim, split_lines, is_line}
use derive_docs.Rfq.Types.{Rfq, Quote}
use derive_docs.Rfq.Stored.Schema.{StoreRecord, rfq_record, quote_record, quote_del, other}
use derive_docs.Rfq.Stored.Parsing.{◌>>=◌}
use derive_docs.Rfq.Stored.Rfqs.{rfq_to_stored, rfq_from_stored}
use derive_docs.Rfq.Stored.Quotes.{quote_to_stored, quote_from_stored}
use derive_docs.Rfq.Store.{Store, empty_store, put_rfq, put_quote, delete_quote}

-- `JSON.parse`, with `none` for a text that it refuses, and `JSON.stringify`.
pub record Json : Type 0 where
  pub parse : Text → Option StoreRecord
  pub stringify : StoreRecord → Text

-- What the log relies on for a record that it writes: the text is one line with no blanks at its
-- ends, is not empty, and parses to the record.
pub record Prints (json : Json) (r : StoreRecord) : Type 0 where
  pub parses : json.parse (json.stringify r) ≡ some r
  pub one_line : is_line (json.stringify r) ≡ true
  pub trimmed : trim (json.stringify r) ≡ json.stringify r
  pub not_empty : json.stringify r ≢ []

-- The branches of `load` on a record's kind. A conversion that throws is `none`.
unfoldable pub apply_record : StoreRecord → Store → Option Store
apply_record (rfq_record v) s = do
  r ← rfq_from_stored v
  some (record s { rfqs = insert v.id r s.rfqs })
apply_record (quote_record v) s = do q ← quote_from_stored v; some (put_quote q s)
apply_record (quote_del id) s = some (delete_quote id s)
apply_record other s = some s

pub record JsonlStore : Type 0 where
  pub file : Text
  pub index : Store

-- A write to the store.
pub data LogOp : Type 0 where
  puts_rfq : Rfq → LogOp
  puts_quote : Quote → LogOp
  deletes_quote : ℕ → LogOp

-- A log that does not exist yet.
abbrev pub fresh_log : JsonlStore
fresh_log = record { file = []; index = empty_store }

module _ (json : Json) where
  unfoldable pub load_trimmed : Text → Store → Option Store
  load_trimmed [] s = some s
  load_trimmed (c ∷ t) s = elim (json.parse (c ∷ t)) [ none ↦ some s | some r ↦ apply_record r s ]

  unfoldable pub load_line : Text → Store → Option Store
  unfolding load_trimmed
  load_line line s = load_trimmed (trim line) s

  unfoldable pub load_lines : List Text → Store → Option Store
  load_lines [] s = some s
  load_lines (l ∷ ls) s = do s' ← load_line l s; load_lines ls s'

  -- `load`, into the empty store of the constructor.
  unfoldable pub load : Text → Option Store
  unfolding load_lines load_line
  load file = load_lines (split_lines file) empty_store

  -- `new JsonlRfqStore(path)`
  unfoldable pub open_store : Text → Option JsonlStore
  unfolding load
  open_store file = Option.map (λ s. record { file = file; index = s }) (load file)

  unfoldable pub append : StoreRecord → Text → Text
  append r file = file ++ (json.stringify r ++ 10 ∷ [])

  unfoldable pub log_rfq : Rfq → JsonlStore → JsonlStore
  log_rfq r j = record {
    file = append (rfq_record (rfq_to_stored r)) j.file;
    index = put_rfq r j.index;
  }

  unfoldable pub log_quote : Quote → JsonlStore → JsonlStore
  log_quote q j = record {
    file = append (quote_record (quote_to_stored q)) j.file;
    index = put_quote q j.index;
  }

  unfoldable pub log_delete : ℕ → JsonlStore → JsonlStore
  log_delete id j =
      if has id j.index.quotes
      then record { file = append (quote_del id) j.file; index = delete_quote id j.index }
      else j

  unfoldable pub log_op : LogOp → JsonlStore → JsonlStore
  log_op (puts_rfq r) j = log_rfq r j
  log_op (puts_quote q) j = log_quote q j
  log_op (deletes_quote id) j = log_delete id j

  unfoldable pub log_ops : List LogOp → JsonlStore → JsonlStore
  log_ops [] j = j
  log_ops (o ∷ os) j = log_ops os (log_op o j)
