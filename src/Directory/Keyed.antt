-- ===== src/Directory/Keyed.antt =====
-- services/rfq-engine/src/subaccount-directory.ts: what `listActiveAccountIds` returns.
use derive_docs.Base.{
  ℕ, Bool, false, List, [], ◌∷◌, map, filter, contains, Option, none, some, ◌==◌, ◌&&◌, ◌||◌, ◌≡◌,
  ◌≤◌, refl, ap, sym, ◌∙◌, ltb, Bool-cases, inl, inr, arith, All, ==_iff,
}
use derive_docs.Base.Map.{Map, lookup, insert, values, lookup-insert}
use derive_docs.Base.Text.{text_eq, to_lower}
use derive_docs.Rfq.Types.{Address}
use derive_docs.Directory.Projection.{
  DirectoryEvent, StoredDirectoryAccount, Directory, insert_id, sort_ids, list_active_account_ids,
  project,
}

-- Each account stands under its id, and no id stands twice.
abbrev pub IsKeyed : Map StoredDirectoryAccount → Type 0
IsKeyed [] = Unit
IsKeyed ((id, account) ∷ accounts) =
    (account.account_id ≡ id) × (lookup id accounts ≡ none) × IsKeyed accounts

pub insert-IsKeyed :
    (id : ℕ) (account : StoredDirectoryAccount) (accounts : Map StoredDirectoryAccount)
    → account.account_id ≡ id
    → IsKeyed accounts
    → IsKeyed (insert id account accounts)
unfolding lookup insert
insert-IsKeyed id account [] same keyed = (same, refl, tt)
insert-IsKeyed id account ((k, a) ∷ accounts) same (key, new, keyed) = elim (Bool-cases (k == id)) [
  | inl equal ↦
      rw equal (same, ap (λ j. lookup j accounts) (sym ((==_iff k id).0 equal)) ∙ new, keyed)
  | inr differ ↦ rw differ (
    key,
    ground (arith, lookup-insert k id account accounts),
    insert-IsKeyed id account accounts same keyed,
  )
]

pub lookup-IsKeyed :
    (id : ℕ) (accounts : Map StoredDirectoryAccount) {account : StoredDirectoryAccount}
    → IsKeyed accounts
    → lookup id accounts ≡ some account
    → account.account_id ≡ id
unfolding lookup
lookup-IsKeyed id [] keyed found = cc
lookup-IsKeyed id ((k, a) ∷ accounts) {account = account} (key, new, keyed) found =
    ground (arith, lookup-IsKeyed id accounts {account = account} keyed)

pub project-account_id :
    (event : DirectoryEvent) (existing : Option StoredDirectoryAccount)
    {account : StoredDirectoryAccount}
    → ((a : StoredDirectoryAccount) → existing ≡ some a → a.account_id ≡ event.account_id)
    → project event existing ≡ some account
    → account.account_id ≡ event.account_id
unfolding project
project-account_id event none h e = ground arith
project-account_id event (some a) h e = ground (arith, h a refl)

contains-insert_id :
    (id x : ℕ) (xs : List ℕ) → contains id (insert_id x xs) ≡ (id == x || contains id xs)
unfolding insert_id
contains-insert_id id x [] = refl
contains-insert_id id x (y ∷ ys) = ground (arith, contains-insert_id id x ys)

contains-sort_ids : (id : ℕ) (xs : List ℕ) → contains id (sort_ids xs) ≡ contains id xs
unfolding sort_ids
contains-sort_ids id [] = refl
contains-sort_ids id (x ∷ xs) =
    contains-insert_id id x (sort_ids xs) ∙ ap (λ b. id == x || b) (contains-sort_ids id xs)

-- No element is larger than one behind it.
abbrev pub IsAscending : List ℕ → Type 0
IsAscending [] = Unit
IsAscending (x ∷ xs) = All (λ y. x ≤ y) xs × IsAscending xs

insert_id-All :
    (low x : ℕ) (xs : List ℕ)
    → low ≤ x
    → All (λ y. low ≤ y) xs
    → All (λ y. low ≤ y) (insert_id x xs)
unfolding insert_id
insert_id-All low x [] h all = (h, tt)
insert_id-All low x (y ∷ ys) h (first, all) = elim (Bool-cases (ltb x y)) [
  | inl less ↦ rw less (h, (first, all))
  | inr more ↦ rw more (first, insert_id-All low x ys h all)
]

All-le : (low high : ℕ) (xs : List ℕ) → low ≤ high → All (λ y. high ≤ y) xs → All (λ y. low ≤ y) xs
All-le low high [] h all = tt
All-le low high (y ∷ ys) h (first, all) = (omega arith, All-le low high ys h all)

insert_id-IsAscending : (x : ℕ) (xs : List ℕ) → IsAscending xs → IsAscending (insert_id x xs)
unfolding insert_id
insert_id-IsAscending x [] h = (tt, tt)
insert_id-IsAscending x (y ∷ ys) (all, h) = elim (Bool-cases (ltb x y)) [
  | inl less ↦ rw less ((ground arith, All-le x y ys (ground arith) all), (all, h))
  | inr more ↦ rw more (insert_id-All y x ys (ground arith) all, insert_id-IsAscending x ys h)
]

sort_ids-IsAscending : (xs : List ℕ) → IsAscending (sort_ids xs)
unfolding sort_ids
sort_ids-IsAscending [] = tt
sort_ids-IsAscending (x ∷ xs) = insert_id-IsAscending x (sort_ids xs) (sort_ids-IsAscending xs)

-- The ids of the accounts that pass a test.
abbrev ids_of : (StoredDirectoryAccount → Bool) → Map StoredDirectoryAccount → List ℕ
ids_of test accounts =
    map (λ (a : StoredDirectoryAccount). a.account_id) (filter test (values accounts))

abbrev pub passes : (StoredDirectoryAccount → Bool) → Option StoredDirectoryAccount → Bool
passes test none = false
passes test (some account) = test account

-- The account is active and its owner is the one asked for, in any case of letters.
abbrev pub is_active_of : Address → StoredDirectoryAccount → Bool
is_active_of owner account = account.active && text_eq (to_lower account.owner) (to_lower owner)

contains-ids_of :
    (test : StoredDirectoryAccount → Bool) (id : ℕ) (accounts : Map StoredDirectoryAccount)
    → IsKeyed accounts
    → contains id (ids_of test accounts) ≡ passes test (lookup id accounts)
unfolding lookup values
contains-ids_of test id [] keyed = refl
contains-ids_of test id ((k, a) ∷ accounts) (key, new, keyed) =
    let rest = contains-ids_of test id accounts keyed in
    elim (Bool-cases (test a)) [
      | inl listed ↦ elim (Bool-cases (k == id)) [
        | inl equal ↦ rw (listed, equal) (ground arith)
        | inr differ ↦ rw (listed, differ) (ground (arith, rest))
      ]
      | inr skipped ↦ elim (Bool-cases (k == id)) [
        | inl equal ↦
            rw (skipped, equal)
              (rest
                ∙ ap (passes test) (ap (λ j. lookup j accounts) (sym ((==_iff k id).0 equal)) ∙ new)
                ∙ sym skipped)
        | inr differ ↦ rw (skipped, differ) rest
      ]
    ]

-- Where each account stands under its own id and no id stands twice, listActiveAccountIds returns
-- exactly the ids whose account is active and belongs to the owner, in ascending order.
pub list_active_account_ids_lem :
    (owner : Address) (d : Directory)
    → IsKeyed d.accounts
    → ((id : ℕ)
        → contains id (list_active_account_ids owner d)
          ≡ passes (is_active_of owner) (lookup id d.accounts))
      × IsAscending (list_active_account_ids owner d)
unfolding list_active_account_ids
list_active_account_ids_lem owner d keyed = (
  λ id.
      contains-sort_ids id (ids_of (is_active_of owner) d.accounts)
      ∙ contains-ids_of (is_active_of owner) id d.accounts keyed,
  sort_ids-IsAscending (ids_of (is_active_of owner) d.accounts),
)
