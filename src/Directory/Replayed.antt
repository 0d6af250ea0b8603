-- ===== src/Directory/Replayed.antt =====
-- services/rfq-engine/src/subaccount-directory.ts: a chunk that is read again after a crash.
use derive_docs.Base.{
  ℕ, Bool, true, false, List, [], ◌∷◌, Option, none, some, ◌+◌, ◌≡◌, refl, ap, sym, ◌∙◌, ok,
  Result-cases, Bool-cases, inl, inr, arith, All, length, length-append, ◌++◌, err_not_ok, ==_iff,
  ◌==◌, ltb, leb, ◌||◌, ◌&&◌,
}
use derive_docs.Base.Int.{pos, leb_ℤ, ◌-ℤ◌}
use derive_docs.Base.Map.{Map, lookup, lookup-insert, lookup-insert_self}
use derive_docs.Directory.Projection.{
  DirectoryEvent, DirectoryEventPosition, StoredDirectoryAccount, apply_event, is_stale, at_most,
  compare_positions, project,
}
use derive_docs.Directory.Indexer.{apply_events}
use derive_docs.Directory.Applying.{
  apply_event-stale, apply_event-cases, apply_events-ok, apply_events-err,
}

-- The positions in the order of blocks, then of transactions, then of logs.
abbrev precedes : DirectoryEventPosition → DirectoryEventPosition → Bool
precedes p q =
    ltb p.block_number q.block_number
    || p.block_number == q.block_number
      && (ltb p.transaction_index q.transaction_index
          || p.transaction_index == q.transaction_index && leb p.log_index q.log_index)

difference_at_most : (a b : ℕ) → leb_ℤ (pos a -ℤ pos b) (pos 0) ≡ leb a b
unfolding ◌-ℤ◌
difference_at_most a b = ground arith

at_most_lem : (p q : DirectoryEventPosition) → at_most p q ≡ precedes p q
unfolding compare_positions
at_most_lem p q = elim (Bool-cases (p.block_number == q.block_number)) [
  | inr differ ↦ elim (Bool-cases (ltb p.block_number q.block_number)) [
    | inl less ↦ rw (differ, less) refl
    | inr more ↦ rw (differ, more) refl
  ]
  | inl same ↦ elim (Bool-cases (p.transaction_index == q.transaction_index)) [
    | inl equal ↦ rw (same, equal, difference_at_most) (ground arith)
    | inr differ ↦ rw (same, differ, difference_at_most) (ground arith)
  ]
]

precedes_through :
    (p q r : DirectoryEventPosition)
    → precedes p r ≡ true
    → precedes q r ≡ false
    → precedes p q ≡ true
precedes_through p q r h g = ground arith

at_most_refl : (p : DirectoryEventPosition) → at_most p p ≡ true
at_most_refl p = rw (at_most_lem p p) (ground arith)

at_most_through :
    (p q r : DirectoryEventPosition) → at_most p r ≡ true → at_most q r ≡ false → at_most p q ≡ true
at_most_through p q r h g =
    at_most_lem p q ∙ precedes_through p q r (sym (at_most_lem p r) ∙ h) (sym (at_most_lem q r) ∙ g)

-- The event is not after the stored position of its account.
abbrev IsApplied : DirectoryEvent → Map StoredDirectoryAccount → Type 0
IsApplied event accounts = is_stale event (lookup event.account_id accounts) ≡ true

project-position :
    (event : DirectoryEvent) (existing : Option StoredDirectoryAccount)
    {account : StoredDirectoryAccount}
    → project event existing ≡ some account
    → account.position ≡ event.position
unfolding project
project-position event existing h = ground arith

IsApplied-after :
    (event : DirectoryEvent) (accounts : Map StoredDirectoryAccount)
    {accounts' : Map StoredDirectoryAccount}
    → apply_event event accounts ≡ ok accounts'
    → IsApplied event accounts'
IsApplied-after event accounts h = elim (apply_event-cases event accounts h) [
  | inl (stale, same) ↦ rw same stale
  | inr (fresh, account, known, same) ↦
      rw (same, lookup-insert_self event.account_id account accounts)
        (ap (at_most event.position) (project-position event _ known) ∙ at_most_refl event.position)
]

overtaken :
    (event other : DirectoryEvent) (existing : Option StoredDirectoryAccount)
    → is_stale event existing ≡ true
    → is_stale other existing ≡ false
    → at_most event.position other.position ≡ true
overtaken event other none h g = cc
overtaken event other (some account) h g =
    at_most_through event.position other.position account.position h g

IsApplied-kept :
    (event other : DirectoryEvent) (accounts : Map StoredDirectoryAccount)
    {accounts' : Map StoredDirectoryAccount}
    → apply_event other accounts ≡ ok accounts'
    → IsApplied event accounts
    → IsApplied event accounts'
IsApplied-kept event other accounts h applied = elim (apply_event-cases other accounts h) [
  | inl (stale, same) ↦ rw same applied
  | inr (fresh, account, known, same) ↦ elim (Bool-cases (other.account_id == event.account_id)) [
    | inr differ ↦
        rw (same, lookup-insert event.account_id other.account_id account accounts, differ) applied
    | inl equal ↦
        rw (same, lookup-insert event.account_id other.account_id account accounts, equal)
          (ap (at_most event.position) (project-position other _ known)
            ∙ overtaken event other (lookup event.account_id accounts) applied (
                ap (λ id. is_stale other (lookup id accounts))
                  (sym ((==_iff other.account_id event.account_id).0 equal))
                ∙ fresh))
  ]
]

apply_events-first :
    (event : DirectoryEvent) (events : List DirectoryEvent) (accounts : Map StoredDirectoryAccount)
    (n : ℕ) {accounts' : Map StoredDirectoryAccount} {m : ℕ}
    → apply_events (event ∷ events) accounts n ≡ (accounts', ok m)
    → (between : Map StoredDirectoryAccount) × (apply_event event accounts ≡ ok between)
      × (apply_events events between (n + 1) ≡ (accounts', ok m))
apply_events-first event events accounts n h = elim (Result-cases (apply_event event accounts)) [
  | inl (between, applies) ↦
      (between, applies, sym (apply_events-ok event events n accounts applies) ∙ h)
  | inr (e, fails) ↦
      absurd (err_not_ok (ap (λ s. s.1) (sym (apply_events-err event events n accounts fails) ∙ h)))
]

apply_events-kept :
    (event : DirectoryEvent) (events : List DirectoryEvent) (accounts : Map StoredDirectoryAccount)
    (n : ℕ) {accounts' : Map StoredDirectoryAccount} {m : ℕ}
    → apply_events events accounts n ≡ (accounts', ok m)
    → IsApplied event accounts
    → IsApplied event accounts'
unfolding apply_events
apply_events-kept event [] accounts n h applied = rw (sym (ap (λ s. s.0) h)) applied
apply_events-kept event (x ∷ xs) accounts n h applied =
    let (between, first, rest) = apply_events-first x xs accounts n h in
    apply_events-kept event xs between (n + 1) rest (IsApplied-kept event x accounts first applied)

apply_events-IsApplied :
    (events : List DirectoryEvent) (accounts : Map StoredDirectoryAccount) (n : ℕ)
    {accounts' : Map StoredDirectoryAccount} {m : ℕ}
    → apply_events events accounts n ≡ (accounts', ok m)
    → All (λ event. IsApplied event accounts') events
apply_events-IsApplied [] accounts n h = tt
apply_events-IsApplied (x ∷ xs) accounts n h =
    let (between, first, rest) = apply_events-first x xs accounts n h in
    (
      apply_events-kept x xs between (n + 1) rest (IsApplied-after x accounts first),
      apply_events-IsApplied xs between (n + 1) rest,
    )

apply_events-again :
    (events : List DirectoryEvent) (accounts : Map StoredDirectoryAccount) (n : ℕ)
    → All (λ event. IsApplied event accounts) events
    → apply_events events accounts n ≡ (accounts, ok (n + length events))
unfolding apply_events
apply_events-again [] accounts n h = ap (λ k. (accounts, ok k)) (omega arith)
apply_events-again (x ∷ xs) accounts n (first, rest) =
    apply_events-ok x xs n accounts (apply_event-stale x accounts first)
    ∙ apply_events-again xs accounts (n + 1) rest
    ∙ ap (λ k. (accounts, ok k)) (omega arith)

replay_changes_nothing :
    (events : List DirectoryEvent) (accounts : Map StoredDirectoryAccount) (n k : ℕ)
    {accounts' : Map StoredDirectoryAccount} {m : ℕ}
    → apply_events events accounts n ≡ (accounts', ok m)
    → apply_events events accounts' k ≡ (accounts', ok (k + length events))
replay_changes_nothing events accounts n k h =
    apply_events-again events _ k (apply_events-IsApplied events accounts n h)

apply_events-append :
    (done left : List DirectoryEvent) (accounts : Map StoredDirectoryAccount) (n : ℕ)
    {between : Map StoredDirectoryAccount} {i : ℕ}
    → apply_events done accounts n ≡ (between, ok i)
    → apply_events (done ++ left) accounts n ≡ apply_events left between i
unfolding apply_events
apply_events-append [] left accounts n h = cc
apply_events-append (x ∷ xs) left accounts n h =
    let (step, first, rest) = apply_events-first x xs accounts n h in
    apply_events-ok x (xs ++ left) n accounts first ∙ apply_events-append xs left step (n + 1) rest

apply_events-count :
    (events : List DirectoryEvent) (accounts : Map StoredDirectoryAccount) (n k : ℕ)
    {accounts' : Map StoredDirectoryAccount} {m : ℕ}
    → apply_events events accounts n ≡ (accounts', ok m)
    → apply_events events accounts k ≡ (accounts', ok (k + length events))
unfolding apply_events
apply_events-count [] accounts n k h =
    ap (λ a. (a, ok k)) (ap (λ s. s.0) h) ∙ ap (λ j. (_, ok j)) (omega arith)
apply_events-count (x ∷ xs) accounts n k {accounts' = accounts'} h =
    let (step, first, rest) = apply_events-first x xs accounts n h in
    apply_events-ok x xs k accounts first
    ∙ apply_events-count xs step (n + 1) (k + 1) rest
    ∙ ap (λ j. (accounts', ok j)) (omega arith)

-- If a chunk's events apply without an error and a sync stops after the first of them, then the
-- next sync, which applies the whole chunk to the accounts as they stand, ends with the accounts of
-- a sync that did not stop, counts every event of the chunk and throws nothing.
pub interrupted_chunk_agrees :
    (done left : List DirectoryEvent) (accounts : Map StoredDirectoryAccount) (n k : ℕ)
    {between accounts' : Map StoredDirectoryAccount} {i m : ℕ}
    → apply_events done accounts n ≡ (between, ok i)
    → apply_events (done ++ left) accounts n ≡ (accounts', ok m)
    → apply_events (done ++ left) between k ≡ (accounts', ok (k + length (done ++ left)))
interrupted_chunk_agrees done left accounts n k {accounts' = accounts'} stopped whole =
    apply_events-append done left _ k (replay_changes_nothing done accounts n k stopped)
    ∙ apply_events-count left _ _ (k + length done)
        (sym (apply_events-append done left accounts n stopped) ∙ whole)
    ∙ ap (λ j. (accounts', ok j)) (omega (arith, length-append done left))
