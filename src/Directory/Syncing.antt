-- ===== src/Directory/Syncing.antt =====
-- services/rfq-engine/src/subaccount-directory.ts: where `syncOnce` ends.
use derive_docs.Base.{
  ℕ, zero, suc, Bool, true, List, Option, none, some, ◌+◌, ◌-◌, ◌≤◌, ◌<◌, ◌≡◌, refl, ◌⊎◌, leb,
  leb→le, le→not_ltb, Result, ok, err, Result-cases, Bool-cases, Option-cases, inl, inr, arith,
}
use derive_docs.Base.Map.{Map}
use derive_docs.Rfq.Types.{Hex}
use derive_docs.Rfq.Store.Index.{In}
use derive_docs.Directory.Projection.{
  DirectoryCheckpoint, DirectoryEvent, StoredDirectoryAccount, Directory, DirectoryError,
  read_failed,
}
use derive_docs.Directory.Indexer.{
  DirectoryChainReader, SubaccountDirectoryIndexer, DirectorySyncResult, apply_events, sort_events,
  to_block_of, advance, sync_chunks, safe_head_of, canonical_checkpoint, start_block, sync_to,
  sync_once, finished, reset_unless, is_lost, was_ready,
}
use derive_docs.Directory.Applying.{IsUnknownWithdrawal, apply_events-error, In-sort_events}

-- The checkpoint of a directory that is complete up to a block: ready, with that block's hash.
abbrev pub IsCompleteAt : DirectoryChainReader → ℕ → Directory → Type 0
IsCompleteAt chain block d =
    (hash : Hex) × (chain.get_block_hash block ≡ some hash)
    × (d.checkpoint ≡ some (record { block_number = block; block_hash = hash; ready = true }))

-- Why a sync fails: a read is rejected, or the chain reports a withdrawal of an account that the
-- directory, as the sync leaves it, does not know.
abbrev pub IsCause : DirectoryChainReader → Directory → DirectoryError → Type 0
IsCause chain d e =
    ((e ≡ read_failed)
      × (((from_block : ℕ) × (to_block : ℕ) × (chain.get_events from_block to_block ≡ none))
          ⊎ ((block : ℕ) × (chain.get_block_hash block ≡ none))))
    ⊎ (event : DirectoryEvent) × (from_block : ℕ) × (to_block : ℕ) × (events : List DirectoryEvent)
      × (chain.get_events from_block to_block ≡ some events)
      × In event events
      × IsUnknownWithdrawal event d.accounts e

abbrev Completes : DirectoryChainReader → ℕ → Directory × Result DirectoryError ℕ → Type 0
Completes chain block (d, ok result) = IsCompleteAt chain block d
Completes chain block (d, err e) = IsCause chain d e

to_block_of_bounds :
    (chunk_size from_block safe_head : ℕ)
    → 0 < chunk_size
    → from_block ≤ safe_head
    → (from_block ≤ to_block_of chunk_size from_block safe_head)
      × (to_block_of chunk_size from_block safe_head ≤ safe_head)
unfolding to_block_of
to_block_of_bounds chunk_size from_block safe_head positive h = ground arith

module _ (chain : DirectoryChainReader) (chunk_size safe_head : ℕ) (had_ready : Bool) where
  pub sync_chunks-past :
      (left from_block applied : ℕ) (d : Directory)
      → safe_head < from_block
      → sync_chunks chain chunk_size safe_head had_ready left from_block applied d ≡ (d, ok applied)
  unfolding sync_chunks
  sync_chunks-past zero from_block applied d h = refl
  sync_chunks-past (suc left) from_block applied d h = ground arith

  module _ (left from_block applied : ℕ) (d : Directory) (behind : from_block ≤ safe_head) where
    abbrev pub chunk_end : ℕ
    chunk_end = to_block_of chunk_size from_block safe_head

    pub sync_chunks-unread :
        chain.get_events from_block chunk_end ≡ none
        → sync_chunks chain chunk_size safe_head had_ready (suc left) from_block applied d
          ≡ (d, err read_failed)
    unfolding sync_chunks
    sync_chunks-unread unread = ground (arith, unread)

    pub sync_chunks-error :
        (events : List DirectoryEvent) {e : DirectoryError}
        → chain.get_events from_block chunk_end ≡ some events
        → (apply_events (sort_events events) d.accounts applied).1 ≡ err e
        → sync_chunks chain chunk_size safe_head had_ready (suc left) from_block applied d ≡ (
          record d { accounts = (apply_events (sort_events events) d.accounts applied).0 },
          err e,
        )
    unfolding sync_chunks
    sync_chunks-error events read fails = ground (arith, read, fails)

    pub sync_chunks-unhashed :
        (events : List DirectoryEvent) {applied' : ℕ}
        → chain.get_events from_block chunk_end ≡ some events
        → (apply_events (sort_events events) d.accounts applied).1 ≡ ok applied'
        → chain.get_block_hash chunk_end ≡ none
        → sync_chunks chain chunk_size safe_head had_ready (suc left) from_block applied d ≡ (
          record d { accounts = (apply_events (sort_events events) d.accounts applied).0 },
          err read_failed,
        )
    unfolding sync_chunks
    sync_chunks-unhashed events read applies unread = ground (arith, read, applies, unread)

    pub sync_chunks-chunk :
        (events : List DirectoryEvent) {applied' : ℕ} {hash : Hex}
        → chain.get_events from_block chunk_end ≡ some events
        → (apply_events (sort_events events) d.accounts applied).1 ≡ ok applied'
        → chain.get_block_hash chunk_end ≡ some hash
        → sync_chunks chain chunk_size safe_head had_ready (suc left) from_block applied d
          ≡ sync_chunks chain chunk_size safe_head had_ready left (chunk_end + 1) applied' (
              advance chain chunk_size safe_head had_ready chunk_end hash
                (apply_events (sort_events events) d.accounts applied).0
                d)
    unfolding sync_chunks
    sync_chunks-chunk events read applies hashed = ground (arith, read, applies, hashed)

  advance-IsCompleteAt :
      (to_block : ℕ) (hash : Hex) (accounts : Map StoredDirectoryAccount) (d : Directory)
      → to_block ≡ safe_head
      → chain.get_block_hash to_block ≡ some hash
      → IsCompleteAt chain safe_head
          (advance chain chunk_size safe_head had_ready to_block hash accounts d)
  unfolding advance
  advance-IsCompleteAt to_block hash accounts d h hashed = (hash, ground arith, ground arith)

  sync_chunks-Completes :
      0 < chunk_size
      → (left from_block applied : ℕ) → (d : Directory) → safe_head + 1 ≤ from_block + left
      → (safe_head < from_block → IsCompleteAt chain safe_head d)
      → Completes chain safe_head
          (sync_chunks chain chunk_size safe_head had_ready left from_block applied d)
  sync_chunks-Completes positive zero from_block applied d enough done =
      rw (sync_chunks-past zero from_block applied d (omega arith)) (done (omega arith))
  sync_chunks-Completes positive (suc left) from_block applied d enough done =
      let to_block = to_block_of chunk_size from_block safe_head in
      elim (Bool-cases (leb from_block safe_head)) [
        | inr past ↦
            rw (sync_chunks-past (suc left) from_block applied d (ground arith))
              (done (ground arith))
        | inl more ↦
            let h = leb→le from_block safe_head more in
            let (above, below) = to_block_of_bounds chunk_size from_block safe_head positive h in
            elim (Option-cases (chain.get_events from_block to_block)) [
              | inl unread ↦
                  rw (sync_chunks-unread left from_block applied d h unread)
                    (inl (refl, inl (from_block, to_block, unread)))
              | inr (events, read) ↦
                  let after = apply_events (sort_events events) d.accounts applied in
                  elim (Result-cases after.1) [
                    | inr (e, fails) ↦
                        let (event, among, what) =
                          apply_events-error (sort_events events) d.accounts applied fails in
                        rw (sync_chunks-error left from_block applied d h events read fails) (
                          inr (
                            event,
                            from_block,
                            to_block,
                            events,
                            read,
                            In-sort_events event events among,
                            what,
                          ))
                    | inl (applied', applies) ↦
                        elim (Option-cases (chain.get_block_hash to_block)) [
                          | inl unread ↦
                              rw
                                (sync_chunks-unhashed left from_block applied d h events read
                                  applies unread)
                                (inl (refl, inr (to_block, unread)))
                          | inr (hash, hashed) ↦
                              rw
                                (sync_chunks-chunk left from_block applied d h events read applies
                                  hashed)
                                (sync_chunks-Completes positive left _ applied' _ (omega arith)
                                  (λ past.
                                    advance-IsCompleteAt _ hash after.0 d (omega arith) hashed))
                        ]
                  ]
            ]
      ]

-- The sync has indexed all blocks up to the block, or failed for a cause.
abbrev pub Indexes :
    DirectoryChainReader → ℕ → Directory × Result DirectoryError DirectorySyncResult → Type 0
Indexes chain block (d, ok result) =
    IsCompleteAt chain block d × (result.indexed_through_block ≡ some block)
Indexes chain block (d, err e) = IsCause chain d e

finished-Indexes :
    (chain : DirectoryChainReader) (safe_head : ℕ) (rebuilt : Bool)
    (synced : Directory × Result DirectoryError ℕ)
    → Completes chain safe_head synced
    → Indexes chain safe_head (finished safe_head rebuilt synced)
finished-Indexes chain safe_head rebuilt (d, ok applied) h = (h, refl)
finished-Indexes chain safe_head rebuilt (d, err e) h = h

sync_to-Indexes :
    (indexer : SubaccountDirectoryIndexer) (chain : DirectoryChainReader)
    (checkpoint : Option DirectoryCheckpoint) (rebuilt : Bool) (head : ℕ) (d : Directory)
    → 0 < indexer.chunk_size
    → start_block indexer.network.deployment_block checkpoint
      ≤ safe_head_of head indexer.confirmation_blocks
    → Indexes chain
        (safe_head_of head indexer.confirmation_blocks)
        (sync_to indexer chain checkpoint rebuilt head d)
unfolding sync_to
sync_to-Indexes indexer chain checkpoint rebuilt head d positive behind =
    let safe_head = safe_head_of head indexer.confirmation_blocks in
    let from_block = start_block indexer.network.deployment_block checkpoint in
    rw (le→not_ltb safe_head from_block behind) (
      finished-Indexes chain safe_head rebuilt _ (
        sync_chunks-Completes chain indexer.chunk_size safe_head (was_ready checkpoint) positive
          (safe_head + 1 - from_block) from_block 0 _ (omega arith) (λ past. absurd (omega arith))))

-- If the chunks are not empty, the checkpoint's block and the head of the chain can be read, and the
-- first block to index is at most the safe head, then syncOnce ends with a ready checkpoint at the safe
-- head, whose hash is that block's, and reports that it is indexed through the safe head; or it throws,
-- because a read of events or of a block's hash was rejected, or because the chain reports the
-- withdrawal of an account that the directory does not know at that point.
pub sync_once-Indexes :
    (indexer : SubaccountDirectoryIndexer) (chain : DirectoryChainReader) (d : Directory)
    (checkpoint : Option DirectoryCheckpoint) (head : ℕ)
    → 0 < indexer.chunk_size
    → canonical_checkpoint chain d.checkpoint ≡ ok checkpoint
    → chain.get_block_number ≡ some head
    → start_block indexer.network.deployment_block checkpoint
      ≤ safe_head_of head indexer.confirmation_blocks
    → Indexes chain (safe_head_of head indexer.confirmation_blocks) (sync_once indexer chain d)
unfolding sync_once
sync_once-Indexes indexer chain d checkpoint head positive canonical read behind =
    rw (sync_once, canonical, read)
      (sync_to-Indexes indexer chain checkpoint (is_lost d.checkpoint checkpoint) head
        (reset_unless checkpoint d) positive behind)
