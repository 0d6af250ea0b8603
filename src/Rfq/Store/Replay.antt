-- ===== src/Rfq/Store/Replay.antt =====
-- services/rfq-engine/src/store.ts: what a restart reads back from the log.
use mathlib.Core.List.{append_assoc}
use derive_docs.Base.{
  ◌≡◌, refl, ap, ◌∙◌, ◌≢◌, inl, inr, true, List, [], ◌∷◌, ◌++◌, Option, none, some, All, ◌⊎◌,
  Bool-cases, Option-cases,
}
use derive_docs.Base.Text.{
  Text, trim, split_lines, is_line, unlines, split_lines_last, split_lines-line, is_line-append,
  split_lines-unlines, unlines-append,
}
use derive_docs.Base.Map.{has}
use derive_docs.Rfq.Stored.Schema.{StoreRecord, rfq_record, quote_record, quote_del}
use derive_docs.Rfq.Stored.Parsing.{◌>>=◌, >>=-some}
use derive_docs.Rfq.Stored.Rfqs.{rfq_to_stored}
use derive_docs.Rfq.Stored.Quotes.{quote_to_stored}
use derive_docs.Rfq.Stored.RoundTrip.{rfq-round_trip, quote-round_trip, IsWellFormed}
use derive_docs.Rfq.Store.{Store, empty_store, put_rfq}
use derive_docs.Rfq.Store.Log.{
  fresh_log, Json, Prints, apply_record, JsonlStore, load_trimmed, load_line, load_lines, load,
  append, LogOp, puts_rfq, puts_quote, deletes_quote, log_rfq, log_quote, log_delete, log_op,
  log_ops,
}

All-append : (P : Text → Type 0) (xs ys : List Text) → All P xs → All P ys → All P (xs ++ ys)
All-append P [] ys hx hy = hy
All-append P (x ∷ xs) ys hx hy = (hx.0, All-append P xs ys hx.1 hy)

module _ (json : Json) where
  load_lines-append :
      (xs ys : List Text) (s : Store)
      → load_lines json (xs ++ ys) s ≡ (load_lines json xs s >>= load_lines json ys)
  unfolding load_lines
  load_lines-append [] ys s = refl
  load_lines-append (x ∷ xs) ys s = elim (Option-cases (load_line json x s)) [
    | inl e ↦ rw e
    | inr (s', e) ↦ rw e (load_lines-append xs ys s')
  ]

  -- The file is whole lines, and reading them gives the index.
  pub record IsDurable (j : JsonlStore) : Type 0 where
    pub lines : List Text
    pub file_lines : j.file ≡ unlines lines
    pub whole : All (λ l. is_line l ≡ true) lines
    pub reads : load_lines json lines empty_store ≡ some j.index

  load_line-blank : (t : Text) (s : Store) → trim t ≡ [] → load_line json t s ≡ some s
  unfolding load_line
  load_line-blank t s e = rw (e, load_trimmed)

  load_line-torn :
      (t : Text) (s : Store)
      → (trim t ≡ []) ⊎ (json.parse (trim t) ≡ none)
      → load_line json t s ≡ some s
  unfolding load_line
  load_line-torn t s (inl e) = load_line-blank t s e
  load_line-torn t s (inr e) = skip (trim t) e
    where
      skip : (u : Text) → json.parse u ≡ none → load_trimmed json u s ≡ some s
      skip [] e = refl
      skip (c ∷ u) e = rw (e, load_trimmed)

  load_trimmed-printed :
      (t : Text) (r : StoreRecord) (s : Store)
      → t ≢ []
      → json.parse t ≡ some r
      → load_trimmed json t s ≡ apply_record r s
  unfolding load_trimmed
  load_trimmed-printed [] r s ne e = absurd (ne refl)
  load_trimmed-printed (c ∷ t) r s ne e = rw (e, load_trimmed)

  load_line-printed :
      (r : StoreRecord) (s : Store)
      → Prints json r
      → load_line json (json.stringify r) s ≡ apply_record r s
  unfolding load_line
  load_line-printed r s p =
      rw p.trimmed (load_trimmed-printed (json.stringify r) r s p.not_empty p.parses)

  -- A text without a newline behind whole lines is read as one more line.
  load_last :
      (j : JsonlStore) (t : Text)
      → IsDurable j
      → is_line t ≡ true
      → load json (j.file ++ t) ≡ load_line json t j.index
  unfolding load load_lines
  load_last j t d h =
      rw
        (
          d.file_lines,
          split_lines-unlines d.lines t d.whole,
          split_lines_last t h,
          load_lines-append d.lines (t ∷ []) empty_store,
          d.reads,
        )
        (>>=-some (load_line json t j.index))

  -- And with its newline too.
  load_whole :
      (j : JsonlStore) (t : Text)
      → IsDurable j
      → is_line t ≡ true
      → load json (j.file ++ (t ++ 10 ∷ [])) ≡ load_line json t j.index
  unfolding load load_lines split_lines
  load_whole j t d h =
      rw
        (
          d.file_lines,
          split_lines-unlines d.lines (t ++ 10 ∷ []) d.whole,
          split_lines-line t [] h,
          load_lines-append d.lines (t ∷ [] ∷ []) empty_store,
          d.reads,
        )
        (end (load_line json t j.index))
    where
      end : (o : Option Store) → (o >>= load_lines json ([] ∷ [])) ≡ o
      end none = refl
      end (some s) = unfold load_lines in rw (load_line-blank [] s (unfold trim in refl))

  append-IsDurable :
      (r : StoreRecord) (j : JsonlStore) (s : Store)
      → IsDurable j
      → Prints json r
      → apply_record r j.index ≡ some s
      → IsDurable (record { file = append json r j.file; index = s })
  unfolding append
  append-IsDurable r j s d p e = record {
    lines = d.lines ++ json.stringify r ∷ [];
    file_lines = rw (unlines-append d.lines (json.stringify r ∷ []), d.file_lines);
    whole = All-append _ d.lines (json.stringify r ∷ []) d.whole (p.one_line, tt);
    reads = rw (load_lines-append d.lines (json.stringify r ∷ []) empty_store, d.reads) (last e);
  }
    where
      last :
          apply_record r j.index ≡ some s → load_lines json (json.stringify r ∷ []) j.index ≡ some s
      last e = unfold load_lines in rw (load_line-printed r j.index p, e)

  -- The records that a write appends print, and the action of a quote has its 0x form.
  abbrev pub Fits : LogOp → Type 0
  Fits (puts_rfq r) = Prints json (rfq_record (rfq_to_stored r))
  Fits (puts_quote q) = Prints json (quote_record (quote_to_stored q)) × IsWellFormed q.action
  Fits (deletes_quote id) = Prints json (quote_del id)

  log_op-IsDurable :
      (o : LogOp) (j : JsonlStore) → Fits o → IsDurable j → IsDurable (log_op json o j)
  unfolding log_op log_rfq log_quote log_delete apply_record put_rfq rfq_to_stored
  log_op-IsDurable (puts_rfq r) j f d =
      append-IsDurable (rfq_record (rfq_to_stored r)) j _ d f (rw (rfq-round_trip r))
  log_op-IsDurable (puts_quote q) j f d =
      append-IsDurable (quote_record (quote_to_stored q)) j _ d f.0 (rw (quote-round_trip q f.1))
  log_op-IsDurable (deletes_quote id) j f d = elim (Bool-cases (has id j.index.quotes)) [
    | inl found ↦ rw found (append-IsDurable (quote_del id) j _ d f refl)
    | inr missing ↦ rw missing d
  ]

  log_ops-IsDurable :
      (os : List LogOp) (j : JsonlStore) → All Fits os → IsDurable j → IsDurable (log_ops json os j)
  unfolding log_ops
  log_ops-IsDurable [] j f d = d
  log_ops-IsDurable (o ∷ os) j f d =
      log_ops-IsDurable os (log_op json o j) f.1 (log_op-IsDurable o j f.0 d)

  fresh-IsDurable : IsDurable fresh_log
  unfolding load_lines
  fresh-IsDurable = record { lines = []; file_lines = refl; whole = tt; reads = refl }

  -- After any history of writes of RFQs, quotes with well-formed actions and deletions, whose records
  -- JSON prints on a line and reads back, if the file then
  -- ends in a piece of a line without its newline that is blank or does not parse, a restart reads back
  -- exactly the store that the completed writes had built. (A piece that is a whole record, only
  -- without its newline, is not covered: it would be read.)
  pub crash_recovers :
      (os : List LogOp) (torn : Text)
      → All Fits os
      → is_line torn ≡ true
      → (trim torn ≡ []) ⊎ (json.parse (trim torn) ≡ none)
      → let j = log_ops json os fresh_log in load json (j.file ++ torn) ≡ some j.index
  crash_recovers os torn f line broken =
      load_last j torn (log_ops-IsDurable os fresh_log f fresh-IsDurable) line
      ∙ load_line-torn torn j.index broken
    where
      j : JsonlStore
      j = log_ops json os fresh_log

  -- The record written first after such a crash is appended to the torn line. Whenever the line
  -- that results does not parse, the next restart reads the store without that record.
  pub append_after_torn :
      (os : List LogOp) (torn : Text) (r : StoreRecord)
      → All Fits os
      → Prints json r
      → is_line torn ≡ true
      → json.parse (trim (torn ++ json.stringify r)) ≡ none
      → let j = log_ops json os fresh_log in
        load json (append json r (j.file ++ torn)) ≡ some j.index
  unfolding append
  append_after_torn os torn r f p line broken =
      ap (load json) (regroup j.file torn (json.stringify r))
      ∙ (load_whole j (torn ++ json.stringify r) (log_ops-IsDurable os fresh_log f fresh-IsDurable)
            (is_line-append torn (json.stringify r) line p.one_line)
          ∙ load_line-torn (torn ++ json.stringify r) j.index (inr broken))
    where
      j : JsonlStore
      j = log_ops json os fresh_log

      regroup : (x y z : Text) → (x ++ y) ++ (z ++ 10 ∷ []) ≡ x ++ ((y ++ z) ++ 10 ∷ [])
      regroup x y z = simp append_assoc
