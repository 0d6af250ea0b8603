-- ===== src/Directory/Applying.antt =====
-- services/rfq-engine/src/subaccount-directory.ts: `applyEvent` over the events of a chunk.
use derive_docs.Base.{
  true, false, none, some, Option, Result, Option-cases, ◌⊎◌, ok_injective, err_not_ok, ℕ, List, [],
  ◌∷◌, ◌+◌, ◌≡◌, refl, ap, sym, ◌∙◌, ok, err, Result-cases, Bool-cases, inl, inr, arith,
}
use derive_docs.Base.Map.{insert, Map, lookup}
use derive_docs.Rfq.Types.{Address}
use derive_docs.Rfq.Store.Index.{In}
use derive_docs.Directory.Projection.{
  project, DirectoryEvent, StoredDirectoryAccount, DirectoryError, unknown_subaccount, apply_event,
  is_stale, at_most, withdrew, deposited, DirectoryEventKind,
}
use derive_docs.Directory.Indexer.{insert_event, sort_events, apply_events}

pub apply_event-stale :
    (event : DirectoryEvent) (accounts : Map StoredDirectoryAccount)
    → is_stale event (lookup event.account_id accounts) ≡ true
    → apply_event event accounts ≡ ok accounts
unfolding apply_event
apply_event-stale event accounts h = rw h refl

apply_event-fresh :
    (event : DirectoryEvent) (accounts : Map StoredDirectoryAccount)
    (account : StoredDirectoryAccount)
    → is_stale event (lookup event.account_id accounts) ≡ false
    → project event (lookup event.account_id accounts) ≡ some account
    → apply_event event accounts ≡ ok (insert event.account_id account accounts)
unfolding apply_event
apply_event-fresh event accounts account fresh known = rw (fresh, known) refl

apply_event-unknown :
    (event : DirectoryEvent) (accounts : Map StoredDirectoryAccount)
    → is_stale event (lookup event.account_id accounts) ≡ false
    → project event (lookup event.account_id accounts) ≡ none
    → apply_event event accounts ≡ err (unknown_subaccount event.account_id)
unfolding apply_event
apply_event-unknown event accounts fresh unknown = rw (fresh, unknown) refl

pub apply_event-cases :
    (event : DirectoryEvent) (accounts : Map StoredDirectoryAccount)
    {accounts' : Map StoredDirectoryAccount}
    → apply_event event accounts ≡ ok accounts'
    → (is_stale event (lookup event.account_id accounts) ≡ true) × (accounts' ≡ accounts)
      ⊎ (is_stale event (lookup event.account_id accounts) ≡ false)
        × (account : StoredDirectoryAccount) × (project event (lookup event.account_id accounts)
            ≡ some account)
        × (accounts' ≡ insert event.account_id account accounts)
apply_event-cases event accounts h =
    let existing = lookup event.account_id accounts in
    elim (Bool-cases (is_stale event existing)) [
      | inl stale ↦
          inl (stale, sym (ok_injective (sym (apply_event-stale event accounts stale) ∙ h)))
      | inr fresh ↦ elim (Option-cases (project event existing)) [
        | inl unknown ↦
            absurd (err_not_ok (sym (apply_event-unknown event accounts fresh unknown) ∙ h))
        | inr (account, known) ↦ inr (
          fresh,
          account,
          known,
          sym (ok_injective (sym (apply_event-fresh event accounts account fresh known) ∙ h)),
        )
      ]
    ]

pub apply_events-ok :
    (event : DirectoryEvent) (events : List DirectoryEvent) (n : ℕ)
    (accounts : Map StoredDirectoryAccount) {accounts' : Map StoredDirectoryAccount}
    → apply_event event accounts ≡ ok accounts'
    → apply_events (event ∷ events) accounts n ≡ apply_events events accounts' (n + 1)
unfolding apply_events
apply_events-ok event events n accounts h = rw (apply_events, h) refl

pub apply_events-err :
    (event : DirectoryEvent) (events : List DirectoryEvent) (n : ℕ)
    (accounts : Map StoredDirectoryAccount) {e : DirectoryError}
    → apply_event event accounts ≡ err e
    → apply_events (event ∷ events) accounts n ≡ (accounts, err e)
unfolding apply_events
apply_events-err event events n accounts h = rw (apply_events, h) refl

-- The event withdraws an account that the directory does not know.
abbrev pub IsUnknownWithdrawal :
    DirectoryEvent → Map StoredDirectoryAccount → DirectoryError → Type 0
IsUnknownWithdrawal event accounts e =
    (event.kind ≡ withdrew)
    × (lookup event.account_id accounts ≡ none)
    × (e ≡ unknown_subaccount event.account_id)

kind_cases : (k : DirectoryEventKind) → (k ≡ withdrew) ⊎ ((owner : Address) × (k ≡ deposited owner))
kind_cases withdrew = inl refl
kind_cases (deposited owner) = inr (owner, refl)

project-none :
    (event : DirectoryEvent) (existing : Option StoredDirectoryAccount)
    → project event existing ≡ none
    → (event.kind ≡ withdrew) × (existing ≡ none)
unfolding project
project-none event existing h = elim (kind_cases event.kind) [
  | inl k ↦ elim (Option-cases existing) [
    | inl none_yet ↦ (k, none_yet)
    | inr (a, known) ↦ absurd (ground arith)
  ]
  | inr (owner, k) ↦ absurd (ground arith)
]

err_injective :
    {a b : DirectoryError}
    → ◌≡◌ {A = Result DirectoryError (Map StoredDirectoryAccount)} (err a) (err b)
    → a ≡ b
err_injective h = cc

failed_alike :
    {a b : DirectoryError}
    → ◌≡◌ {A = Result DirectoryError ℕ} (err a) (err b)
    → ◌≡◌ {A = Result DirectoryError (Map StoredDirectoryAccount)} (err a) (err b)
failed_alike h = cc

apply_event-error :
    (event : DirectoryEvent) (accounts : Map StoredDirectoryAccount) {e : DirectoryError}
    → apply_event event accounts ≡ err e
    → IsUnknownWithdrawal event accounts e
apply_event-error event accounts h =
    let existing = lookup event.account_id accounts in
    elim (Bool-cases (is_stale event existing)) [
      | inl stale ↦ absurd (err_not_ok (sym h ∙ apply_event-stale event accounts stale))
      | inr fresh ↦ elim (Option-cases (project event existing)) [
        | inr (account, known) ↦
            absurd (err_not_ok (sym h ∙ apply_event-fresh event accounts account fresh known))
        | inl unknown ↦
            let (kind, missing) = project-none event existing unknown in
            (
              kind,
              missing,
              err_injective (sym h ∙ apply_event-unknown event accounts fresh unknown),
            )
      ]
    ]

pub apply_events-error :
    (events : List DirectoryEvent) (accounts : Map StoredDirectoryAccount) (n : ℕ)
    {e : DirectoryError}
    → (apply_events events accounts n).1 ≡ err e
    → (event : DirectoryEvent) × In event events
      × IsUnknownWithdrawal event (apply_events events accounts n).0 e
unfolding apply_events
apply_events-error [] accounts n h = cc
apply_events-error (event ∷ events) accounts n h =
    elim (Result-cases (apply_event event accounts)) [
      | inl (accounts', applies) ↦
          let step = apply_events-ok event events n accounts applies in
          let (found, among, what) =
            apply_events-error events accounts' (n + 1) (ap (λ s. s.1) (sym step) ∙ h) in
          (found, inr among, rw step what)
      | inr (e', fails) ↦
          let step = apply_events-err event events n accounts fails in
          let same = ap (λ s. s.1) (sym step) ∙ h in
          (event, inl refl, rw step (apply_event-error event accounts (fails ∙ failed_alike same)))
    ]

In-insert_event :
    (event x : DirectoryEvent) (xs : List DirectoryEvent)
    → In event (insert_event x xs)
    → In event (x ∷ xs)
unfolding insert_event
In-insert_event event x [] h = h
In-insert_event event x (y ∷ ys) h = elim (Bool-cases (at_most x.position y.position)) [
  | inl before ↦ rw before at h
  | inr after ↦ elim (rw after at h) [
    | inl first ↦ inr (inl first)
    | inr rest ↦ elim (In-insert_event event x ys rest) [
      | inl mine ↦ inl mine
      | inr other ↦ inr (inr other)
    ]
  ]
]

pub In-sort_events :
    (event : DirectoryEvent) (xs : List DirectoryEvent) → In event (sort_events xs) → In event xs
unfolding sort_events
In-sort_events event [] h = h
In-sort_events event (x ∷ xs) h = elim (In-insert_event event x (sort_events xs) h) [
  | inl mine ↦ inl mine
  | inr other ↦ inr (In-sort_events event xs other)
]
