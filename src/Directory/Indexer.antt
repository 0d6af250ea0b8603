-- ===== src/Directory/Indexer.antt =====
-- services/rfq-engine/src/subaccount-directory.ts: `SubaccountDirectoryIndexer`. The chain's answers are
-- parameters, which stay as they are while a sync runs; `none` is a read that is rejected.
use derive_docs.Base.{
  ℕ, Bool, true, false, ◌||◌, List, [], ◌∷◌, Option, none, some, if◌then◌else◌, ltb, leb, ◌==◌, ◌+◌,
  ◌-◌, Result, ok, err, zero, suc,
}
use derive_docs.Base.Map.{Map}
use derive_docs.Base.Text.{text_eq, to_lower}
use derive_docs.Rfq.Types.{Hex}
use derive_docs.Directory.Projection.{
  DirectoryNetwork, DirectoryCheckpoint, DirectoryEvent, StoredDirectoryAccount, Directory,
  DirectoryError, read_failed, at_most, apply_event, reset, compare_positions,
}

pub record DirectoryChainReader : Type 0 where
  pub get_block_number : Option ℕ
  pub get_block_hash : ℕ → Option Hex
  pub get_events : ℕ → ℕ → Option (List DirectoryEvent)

pub record SubaccountDirectoryIndexer : Type 0 where
  pub network : DirectoryNetwork
  pub confirmation_blocks : ℕ
  pub chunk_size : ℕ

pub record DirectorySyncResult : Type 0 where
  pub indexed_through_block : Option ℕ
  pub rebuilt : Bool
  pub events_applied : ℕ

-- `events.sort(comparePositions)`, which is stable: an event goes in front of those at its position,
-- which stood behind it.
unfoldable pub insert_event : DirectoryEvent → List DirectoryEvent → List DirectoryEvent
unfolding compare_positions
insert_event event [] = event ∷ []
insert_event event (x ∷ xs) =
    let rest = insert_event event xs in
    if at_most event.position x.position then event ∷ x ∷ xs else x ∷ rest

unfoldable pub sort_events : List DirectoryEvent → List DirectoryEvent
unfolding insert_event
sort_events [] = []
sort_events (x ∷ xs) = insert_event x (sort_events xs)

-- The accounts after the events, or as they stood at an event that throws.
unfoldable pub apply_events :
    List DirectoryEvent
    → Map StoredDirectoryAccount
    → ℕ
    → Map StoredDirectoryAccount × Result DirectoryError ℕ
unfolding apply_event
apply_events [] accounts applied = (accounts, ok applied)
apply_events (event ∷ events) accounts applied = elim (apply_event event accounts) [
  | err e ↦ (accounts, err e)
  | ok accounts' ↦ apply_events events accounts' (applied + 1)
]

-- `toBlock`
unfoldable pub to_block_of : ℕ → ℕ → ℕ → ℕ
to_block_of chunk_size from_block safe_head =
    let last = from_block + chunk_size - 1 in if ltb last safe_head then last else safe_head

module _ (chain : DirectoryChainReader) (chunk_size safe_head : ℕ) (had_ready : Bool) where
  -- `setCheckpoint` at the end of a chunk
  unfoldable pub advance : ℕ → Hex → Map StoredDirectoryAccount → Directory → Directory
  advance to_block block_hash accounts d = record d {
    accounts = accounts;
    checkpoint = some (record {
      block_number = to_block;
      block_hash = block_hash;
      ready = had_ready || to_block == safe_head;
    });
  }

  -- The loop over the chunks; `left` bounds the blocks that are left.
  unfoldable pub sync_chunks : ℕ → ℕ → ℕ → Directory → Directory × Result DirectoryError ℕ
  unfolding sort_events apply_events to_block_of advance
  sync_chunks zero from_block applied d = (d, ok applied)
  sync_chunks (suc left) from_block applied d = elim (leb from_block safe_head) [
    | false ↦ (d, ok applied)
    | true ↦
        let to_block = to_block_of chunk_size from_block safe_head in
        elim (chain.get_events from_block to_block) [
          | none ↦ (d, err read_failed)
          | some events ↦
              let (accounts, outcome) = apply_events (sort_events events) d.accounts applied in
              elim outcome [
                | err e ↦ (record d { accounts = accounts }, err e)
                | ok applied' ↦ elim (chain.get_block_hash to_block) [
                  | none ↦ (record d { accounts = accounts }, err read_failed)
                  | some block_hash ↦
                      sync_chunks left (to_block + 1) applied'
                        (advance to_block block_hash accounts d)
                ]
              ]
        ]
  ]

-- `safeHead`
unfoldable pub safe_head_of : ℕ → ℕ → ℕ
safe_head_of head confirmation_blocks =
    if ltb confirmation_blocks head then head - confirmation_blocks else 0

-- The checkpoint whose block is still canonical.
unfoldable pub canonical_checkpoint :
    DirectoryChainReader
    → Option DirectoryCheckpoint
    → Result DirectoryError (Option DirectoryCheckpoint)
canonical_checkpoint chain none = ok none
canonical_checkpoint chain (some c) = elim (chain.get_block_hash c.block_number) [
  | none ↦ err read_failed
  | some canonical ↦
      if text_eq (to_lower canonical) (to_lower c.block_hash) then ok (some c) else ok none
]

abbrev pub was_ready : Option DirectoryCheckpoint → Bool
was_ready none = false
was_ready (some c) = c.ready

abbrev pub is_lost : Option DirectoryCheckpoint → Option DirectoryCheckpoint → Bool
is_lost (some before) none = true
is_lost _ _ = false

abbrev pub start_block : ℕ → Option DirectoryCheckpoint → ℕ
start_block deployment_block none = deployment_block
start_block deployment_block (some c) = c.block_number + 1

abbrev pub indexed_block : Option DirectoryCheckpoint → Option ℕ
indexed_block none = none
indexed_block (some c) = some c.block_number

abbrev pub reset_unless : Option DirectoryCheckpoint → Directory → Directory
reset_unless none d = reset d
reset_unless (some c) d = d

abbrev pub finished :
    ℕ
    → Bool
    → Directory × Result DirectoryError ℕ
    → Directory × Result DirectoryError DirectorySyncResult
finished safe_head rebuilt (d, err e) = (d, err e)
finished safe_head rebuilt (d, ok applied) = (
  d,
  ok (record {
    indexed_through_block = some safe_head;
    rebuilt = rebuilt;
    events_applied = applied;
  }),
)

-- `syncOnce` from the head of the chain on.
unfoldable pub sync_to :
    SubaccountDirectoryIndexer
    → DirectoryChainReader
    → Option DirectoryCheckpoint
    → (rebuilt : Bool) → ℕ
    → Directory
    → Directory × Result DirectoryError DirectorySyncResult
unfolding safe_head_of sync_chunks
sync_to indexer chain checkpoint rebuilt head d =
    let safe_head = safe_head_of head indexer.confirmation_blocks in
    let from_block = start_block indexer.network.deployment_block checkpoint in
    if ltb safe_head from_block
    then (
      d,
      ok (record {
        indexed_through_block = indexed_block checkpoint;
        rebuilt = rebuilt;
        events_applied = 0;
      }),
    )
    else finished safe_head rebuilt (
        sync_chunks chain indexer.chunk_size safe_head (was_ready checkpoint)
          (safe_head + 1 - from_block) from_block 0 d)

-- `syncOnce`
unfoldable pub sync_once :
    SubaccountDirectoryIndexer
    → DirectoryChainReader
    → Directory
    → Directory × Result DirectoryError DirectorySyncResult
unfolding canonical_checkpoint reset sync_to
sync_once indexer chain d = elim (canonical_checkpoint chain d.checkpoint) [
  | err e ↦ (d, err e)
  | ok checkpoint ↦
      let d' = reset_unless checkpoint d in
      elim chain.get_block_number [
        | none ↦ (d', err read_failed)
        | some head ↦ sync_to indexer chain checkpoint (is_lost d.checkpoint checkpoint) head d'
      ]
]
