-- ===== src/Directory/Tests.antt =====
-- services/rfq-engine/src/subaccount-directory.ts: a chain on which the theorems are at work.
use derive_docs.Base.{contains, some, ℕ, Bool, true, false, [], ◌∷◌, none, ◌≡◌, ok, refl, arith}
use derive_docs.Base.Map.{Map, lookup, insert}
use derive_docs.Rfq.Types.{Address}
use derive_docs.Directory.Projection.{
  list_active_account_ids, DirectoryEventPosition, DirectoryEvent, StoredDirectoryAccount,
  Directory, deposited, withdrew, apply_event, project, compare_positions,
}
use derive_docs.Directory.Indexer.{
  DirectoryChainReader, SubaccountDirectoryIndexer, apply_events, sync_once, canonical_checkpoint,
  safe_head_of,
}
use derive_docs.Directory.Syncing.{Indexes, sync_once-Indexes}
use derive_docs.Directory.Keyed.{
  IsKeyed, IsAscending, passes, is_active_of, list_active_account_ids_lem,
}
use derive_docs.Directory.Keeping.{sync_once-IsKeyed}
use derive_docs.Directory.Replayed.{interrupted_chunk_agrees}

abbrev position_at : ℕ → DirectoryEventPosition
position_at block = record {
  block_number = block;
  transaction_index = 0;
  log_index = 0;
  transaction_hash = b'h' ∷ [];
}

abbrev owner : Address
owner = b'o' ∷ []

abbrev deposit : DirectoryEvent
deposit = record { position = position_at 11; account_id = 7; kind = deposited owner }

abbrev withdrawal : DirectoryEvent
withdrawal = record { position = position_at 13; account_id = 7; kind = withdrew }

abbrev chain : DirectoryChainReader
chain = record {
  get_block_number = some 15;
  get_block_hash = λ block. some (b'a' ∷ []);
  get_events = λ from to. some (withdrawal ∷ deposit ∷ []);
}

abbrev indexer : SubaccountDirectoryIndexer
indexer = record {
  network = record { chain_id = 1; matching = b'm' ∷ []; deployment_block = 10 };
  confirmation_blocks = 2;
  chunk_size = 10;
}

abbrev fresh : Directory
fresh = record { accounts = []; checkpoint = none; reset_count = 0 }

sync_once-Indexes_example : Indexes chain 13 (sync_once indexer chain fresh)
unfolding canonical_checkpoint safe_head_of
sync_once-Indexes_example =
    sync_once-Indexes indexer chain fresh none 15 (omega arith) refl refl (omega arith)

abbrev stored : Bool → DirectoryEvent → Map StoredDirectoryAccount
stored active event =
    (7, record { account_id = 7; owner = owner; active = active; position = event.position }) ∷ []

interrupted_chunk_agrees_example :
    apply_events (deposit ∷ withdrawal ∷ []) (stored true deposit) 0
    ≡ (stored false withdrawal, ok 2)
unfolding apply_events apply_event project compare_positions lookup insert
interrupted_chunk_agrees_example =
    interrupted_chunk_agrees (deposit ∷ []) (withdrawal ∷ []) [] 0 0 refl refl

abbrev two : Directory
two = record {
  accounts =
      (9, record { account_id = 9; owner = owner; active = true; position = position_at 12 })
      ∷ stored true deposit;
  checkpoint = none;
  reset_count = 0;
}

list_active_account_ids_lem_example :
    ((id : ℕ)
      → contains id (list_active_account_ids owner two)
        ≡ passes (is_active_of owner) (lookup id two.accounts))
    × IsAscending (list_active_account_ids owner two)
unfolding lookup
list_active_account_ids_lem_example =
    list_active_account_ids_lem owner two (refl, refl, (refl, refl, tt))

sync_once-IsKeyed_example : IsKeyed (sync_once indexer chain two).0.accounts
unfolding lookup
sync_once-IsKeyed_example = sync_once-IsKeyed indexer chain two (refl, refl, (refl, refl, tt))
