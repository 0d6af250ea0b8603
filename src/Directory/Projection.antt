-- ===== src/Directory/Projection.antt =====
-- services/rfq-engine/src/subaccount-directory.ts: `InMemorySubaccountDirectoryStore` for one network,
-- and the reader over it. Block numbers and account ids are unsigned.
use derive_docs.Base.{
  ℕ, Bool, true, false, not, ◌&&◌, List, [], ◌∷◌, map, filter, Option, none, some, if◌then◌else◌,
  ltb, ◌==◌, ◌+◌, Result, ok, err,
}
use derive_docs.Base.Int.{ℤ, pos, negsuc, ◌-ℤ◌, leb_ℤ}
use derive_docs.Base.Map.{Map, lookup, insert, values}
use derive_docs.Base.Text.{text_eq, to_lower}
use derive_docs.Rfq.Types.{Address, Hex}

pub record DirectoryNetwork : Type 0 where
  pub chain_id : ℕ
  pub matching : Address
  pub deployment_block : ℕ

pub record DirectoryCheckpoint : Type 0 where
  pub block_number : ℕ
  pub block_hash : Hex
  pub ready : Bool

pub record DirectoryEventPosition : Type 0 where
  pub block_number : ℕ
  pub transaction_index : ℕ
  pub log_index : ℕ
  pub transaction_hash : Hex

pub data DirectoryEventKind : Type 0 where
  deposited : Address → DirectoryEventKind
  withdrew : DirectoryEventKind

pub record DirectoryEvent : Type 0 where
  pub position : DirectoryEventPosition
  pub account_id : ℕ
  pub kind : DirectoryEventKind

pub record StoredDirectoryAccount : Type 0 where
  pub account_id : ℕ
  pub owner : Address
  pub active : Bool
  pub position : DirectoryEventPosition

-- What the store keeps for the network.
pub record Directory : Type 0 where
  pub accounts : Map StoredDirectoryAccount
  pub checkpoint : Option DirectoryCheckpoint
  pub reset_count : ℕ

pub data DirectoryError : Type 0 where
  unknown_subaccount : ℕ → DirectoryError
  not_synced read_failed : DirectoryError

-- `comparePositions`
unfoldable pub compare_positions : DirectoryEventPosition → DirectoryEventPosition → ℤ
compare_positions left right =
    if not (left.block_number == right.block_number)
    then if ltb left.block_number right.block_number then negsuc 0 else pos 1
    else if not (left.transaction_index == right.transaction_index)
    then pos left.transaction_index -ℤ pos right.transaction_index
    else pos left.log_index -ℤ pos right.log_index

-- `comparePositions(left, right) <= 0`
abbrev pub at_most : DirectoryEventPosition → DirectoryEventPosition → Bool
at_most left right = leb_ℤ (compare_positions left right) (pos 0)

-- The account after the event; `none` throws.
unfoldable pub project :
    DirectoryEvent → Option StoredDirectoryAccount → Option StoredDirectoryAccount
project event existing = elim event.kind [
  | withdrew ↦ elim existing [
    | none ↦ none
    | some account ↦ some (record account { active = false; position = event.position })
  ]
  | deposited owner ↦ some (record {
    account_id = event.account_id;
    owner = owner;
    active = true;
    position = event.position;
  })
]

abbrev pub is_stale : DirectoryEvent → Option StoredDirectoryAccount → Bool
is_stale event none = false
is_stale event (some account) = at_most event.position account.position

-- `applyEvent`
unfoldable pub apply_event :
    DirectoryEvent → Map StoredDirectoryAccount → Result DirectoryError (Map StoredDirectoryAccount)
unfolding project compare_positions
apply_event event accounts =
    let existing = lookup event.account_id accounts in
    if is_stale event existing then ok accounts else elim (project event existing) [
      | none ↦ err (unknown_subaccount event.account_id)
      | some account ↦ ok (insert event.account_id account accounts)
    ]

-- `reset`
unfoldable pub reset : Directory → Directory
reset d = record { accounts = []; checkpoint = none; reset_count = d.reset_count + 1 }

-- `sort` of account ids: each id in front of the first that is larger.
unfoldable pub insert_id : ℕ → List ℕ → List ℕ
insert_id id [] = id ∷ []
insert_id id (x ∷ xs) = if ltb id x then id ∷ x ∷ xs else x ∷ insert_id id xs

unfoldable pub sort_ids : List ℕ → List ℕ
unfolding insert_id
sort_ids [] = []
sort_ids (x ∷ xs) = insert_id x (sort_ids xs)

-- `listActiveAccountIds`
unfoldable pub list_active_account_ids : Address → Directory → List ℕ
unfolding sort_ids
list_active_account_ids owner d = sort_ids (
    map (λ (a : StoredDirectoryAccount). a.account_id)
      (filter
        (λ (a : StoredDirectoryAccount). a.active && text_eq (to_lower a.owner) (to_lower owner))
        (values d.accounts)))

pub record SubaccountDirectorySnapshot : Type 0 where
  pub chain_id : ℕ
  pub matching : Address
  pub indexed_through_block : ℕ
  pub indexed_through_block_hash : Hex
  pub account_ids : List ℕ

-- `getAccounts`
unfoldable pub get_accounts :
    DirectoryNetwork → Address → Directory → Result DirectoryError SubaccountDirectorySnapshot
unfolding list_active_account_ids
get_accounts network owner d = elim d.checkpoint [
  | none ↦ err not_synced
  | some checkpoint ↦
      if checkpoint.ready
      then ok (record {
        chain_id = network.chain_id;
        matching = network.matching;
        indexed_through_block = checkpoint.block_number;
        indexed_through_block_hash = checkpoint.block_hash;
        account_ids = list_active_account_ids owner d;
      })
      else err not_synced
]
