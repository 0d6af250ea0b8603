-- ===== src/Withdrawal/Log.antt =====
-- services/rfq-engine/src/withdrawal-store.ts: `JsonlWithdrawalOperationStore`. JSON is a parameter.
use mathlib.Core.List.{append_assoc, append-nil}
use derive_docs.Base.{
  ◌≡◌, refl, sym, ap, ◌∙◌, ◌≢◌, true, List, [], ◌∷◌, ◌++◌, map, Option, none, some, All,
}
use derive_docs.Base.Text.{
  Text, trim, split_lines, is_line, unlines, split_lines-unlines, split_lines_last,
}
use derive_docs.Rfq.Stored.Parsing.{◌>>=◌}
use derive_docs.Rfq.Stored.RoundTrip.{IsWellFormed}
use derive_docs.Withdrawal.Types.{WithdrawalOperation}
use derive_docs.Withdrawal.Store.{
  OperationStore, empty_store, put, StoredWithdrawalOperation, to_stored, from_stored,
  operation-round_trip,
}
use derive_docs.Withdrawal.Claims.{puts}

pub record Json : Type 0 where
  pub parse : Text → Option StoredWithdrawalOperation
  pub stringify : StoredWithdrawalOperation → Text

-- What the log relies on for an operation: its text is one line that is not blank, and parses to it;
-- and the operation's action is well formed.
pub record Prints (json : Json) (o : WithdrawalOperation) : Type 0 where
  pub parses : json.parse (json.stringify (to_stored o)) ≡ some (to_stored o)
  pub one_line : is_line (json.stringify (to_stored o)) ≡ true
  pub not_blank : trim (json.stringify (to_stored o)) ≢ []
  pub well_formed : IsWellFormed o.action

pub record OperationLog : Type 0 where
  pub file : Text
  pub index : OperationStore

abbrev pub fresh_log : OperationLog
fresh_log = record { file = []; index = empty_store }

abbrev put_if_read : Option WithdrawalOperation → OperationStore → OperationStore
put_if_read none s = s
put_if_read (some o) s = put o s

module _ (json : Json) where
  -- A line that does not parse, or whose operation does not convert, is passed over.
  unfoldable pub load_line : Text → OperationStore → OperationStore
  load_line line s = elim (trim line) [
    | [] ↦ s
    | c ∷ t ↦ put_if_read (json.parse line >>= from_stored) s
  ]

  unfoldable pub load_lines : List Text → OperationStore → OperationStore
  load_lines [] s = s
  load_lines (l ∷ ls) s = load_lines ls (load_line l s)

  unfoldable pub load : Text → OperationStore
  unfolding load_lines load_line
  load file = load_lines (split_lines file) empty_store

  -- `JsonlWithdrawalOperationStore.put`
  unfoldable pub log_put : WithdrawalOperation → OperationLog → OperationLog
  log_put o j = record {
    file = j.file ++ (json.stringify (to_stored o) ++ 10 ∷ []);
    index = put o j.index;
  }

  unfoldable pub log_puts : List WithdrawalOperation → OperationLog → OperationLog
  unfolding log_put
  log_puts [] j = j
  log_puts (o ∷ os) j = log_puts os (log_put o j)

  abbrev printed : WithdrawalOperation → Text
  printed o = json.stringify (to_stored o)

  log_puts-parts :
      (os : List WithdrawalOperation) (j : OperationLog)
      → ((log_puts os j).file ≡ j.file ++ unlines (map printed os))
        × ((log_puts os j).index ≡ puts os j.index)
  unfolding log_puts log_put puts
  log_puts-parts [] j = (sym (append-nil j.file), refl)
  log_puts-parts (o ∷ os) j =
      let (file, index) = log_puts-parts os (log_put o j) in (file ∙ simp append_assoc, index)

  load_line-printed :
      (o : WithdrawalOperation) (s : OperationStore)
      → Prints json o
      → load_line (printed o) s ≡ put o s
  load_line-printed o s p = go (trim (printed o)) refl
    where
      go : (t : Text) → trim (printed o) ≡ t → load_line (printed o) s ≡ put o s
      go [] e = absurd (p.not_blank e)
      go (c ∷ t) e =
          unfold load_line in rw (load_line, e, p.parses, operation-round_trip o p.well_formed)

  load_lines-printed :
      (os : List WithdrawalOperation) (ls : List Text) (s : OperationStore)
      → All (Prints json) os
      → load_lines (map printed os ++ ls) s ≡ load_lines ls (puts os s)
  unfolding load_lines puts
  load_lines-printed [] ls s h = refl
  load_lines-printed (o ∷ os) ls s h =
      ap (load_lines (map printed os ++ ls)) (load_line-printed o s h.0)
      ∙ load_lines-printed os ls (put o s) h.1

  printed-whole :
      (os : List WithdrawalOperation)
      → All (Prints json) os
      → All (λ l. is_line l ≡ true) (map printed os)
  printed-whole [] h = tt
  printed-whole (o ∷ os) h = (h.0.one_line, printed-whole os h.1)

  load_line-torn : (t : Text) (s : OperationStore) → json.parse t ≡ none → load_line t s ≡ s
  load_line-torn t s h = go (trim t) refl
    where
      go : (u : Text) → trim t ≡ u → load_line t s ≡ s
      go [] e = unfold load_line in rw (load_line, e)
      go (c ∷ u) e = unfold load_line in rw (load_line, e, h)

  -- After any history of puts of operations with well-formed actions, which JSON prints on a line and
  -- reads back, if the file then ends in a piece
  -- of a line without its newline that does not parse, a restart reads back exactly the operations and
  -- keys of the completed puts. (A piece that is a whole record, only without its newline, is not
  -- covered: it would be read.)
  pub crash_keeps_operations :
      (os : List WithdrawalOperation) (torn : Text)
      → All (Prints json) os
      → is_line torn ≡ true
      → json.parse torn ≡ none
      → let j = log_puts os fresh_log in load (j.file ++ torn) ≡ j.index
  unfolding load load_lines
  crash_keeps_operations os torn h line broken =
      let (file, index) = log_puts-parts os fresh_log in
      rw
        (
          file,
          index,
          split_lines-unlines (map printed os) torn (printed-whole os h),
          split_lines_last torn line,
          load_lines-printed os (torn ∷ []) empty_store h,
        )
        (load_line-torn torn (puts os empty_store) broken)
