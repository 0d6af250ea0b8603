-- ===== src/Directory/Keeping.antt =====
-- services/rfq-engine/src/subaccount-directory.ts: what `syncOnce` keeps true of the accounts.
use derive_docs.Base.{
  Option-cases, ℕ, Bool, List, [], ◌∷◌, Option, none, some, ◌+◌, ◌-◌, ◌≡◌, ltb, leb, leb→le, Result,
  ok, err, Bool-cases, Result-cases, inl, inr, arith, zero, suc,
}
use derive_docs.Base.Map.{Map, lookup}
use derive_docs.Directory.Projection.{
  DirectoryCheckpoint, DirectoryEvent, StoredDirectoryAccount, Directory, DirectoryError,
  apply_event, reset,
}
use derive_docs.Directory.Indexer.{
  DirectoryChainReader, SubaccountDirectoryIndexer, apply_events, to_block_of, advance, sync_chunks,
  sync_once, sync_to, sort_events, finished, is_lost, was_ready, reset_unless, canonical_checkpoint,
  safe_head_of, start_block,
}
use derive_docs.Directory.Applying.{apply_event-cases, apply_events-ok, apply_events-err}
use derive_docs.Directory.Syncing.{
  sync_chunks-past, sync_chunks-unread, sync_chunks-error, sync_chunks-unhashed, sync_chunks-chunk,
}
use derive_docs.Directory.Keyed.{IsKeyed, insert-IsKeyed, lookup-IsKeyed, project-account_id}

apply_event-IsKeyed :
    (event : DirectoryEvent) (accounts : Map StoredDirectoryAccount)
    {accounts' : Map StoredDirectoryAccount}
    → IsKeyed accounts
    → apply_event event accounts ≡ ok accounts'
    → IsKeyed accounts'
apply_event-IsKeyed event accounts keyed h = elim (apply_event-cases event accounts h) [
  | inl (stale, same) ↦ rw same keyed
  | inr (fresh, account, known, same) ↦ rw same (
      insert-IsKeyed event.account_id account accounts
        (project-account_id event (lookup event.account_id accounts)
          (λ a found. lookup-IsKeyed event.account_id accounts keyed found) known)
        keyed)
]

apply_events-IsKeyed :
    (events : List DirectoryEvent) (accounts : Map StoredDirectoryAccount) (n : ℕ)
    → IsKeyed accounts
    → IsKeyed (apply_events events accounts n).0
unfolding apply_events
apply_events-IsKeyed [] accounts n keyed = keyed
apply_events-IsKeyed (x ∷ xs) accounts n keyed = elim (Result-cases (apply_event x accounts)) [
  | inl (between, applies) ↦
      rw (apply_events-ok x xs n accounts applies)
        (apply_events-IsKeyed xs between (n + 1) (apply_event-IsKeyed x accounts keyed applies))
  | inr (e, fails) ↦ rw (apply_events-err x xs n accounts fails) keyed
]

module _ (chain : DirectoryChainReader) (chunk_size safe_head : ℕ) (had_ready : Bool) where
  sync_chunks-IsKeyed :
      (left from_block applied : ℕ) (d : Directory)
      → IsKeyed d.accounts
      → IsKeyed
          (sync_chunks chain chunk_size safe_head had_ready left from_block applied d).0.accounts
  unfolding sync_chunks advance
  sync_chunks-IsKeyed zero from_block applied d keyed = keyed
  sync_chunks-IsKeyed (suc left) from_block applied d keyed =
      let to_block = to_block_of chunk_size from_block safe_head in
      elim (Bool-cases (leb from_block safe_head)) [
        | inr past ↦
            rw
              (sync_chunks-past chain chunk_size safe_head had_ready (suc left) from_block applied d
                (ground arith))
              keyed
        | inl more ↦
            let h = leb→le from_block safe_head more in
            elim (Option-cases (chain.get_events from_block to_block)) [
              | inl unread ↦
                  rw
                    (sync_chunks-unread chain chunk_size safe_head had_ready left from_block applied
                      d h unread)
                    keyed
              | inr (events, read) ↦
                  let after = apply_events (sort_events events) d.accounts applied in
                  let kept = apply_events-IsKeyed (sort_events events) d.accounts applied keyed in
                  elim (Result-cases after.1) [
                    | inr (e, fails) ↦
                        rw
                          (sync_chunks-error chain chunk_size safe_head had_ready left from_block
                            applied d h events read fails)
                          kept
                    | inl (applied', applies) ↦
                        elim (Option-cases (chain.get_block_hash to_block)) [
                          | inl unread ↦
                              rw
                                (sync_chunks-unhashed chain chunk_size safe_head had_ready left
                                  from_block applied d h events read applies unread)
                                kept
                          | inr (hash, hashed) ↦
                              rw
                                (sync_chunks-chunk chain chunk_size safe_head had_ready left
                                  from_block applied d h events read applies hashed)
                                (sync_chunks-IsKeyed left (to_block + 1) applied'
                                  (advance chain chunk_size safe_head had_ready to_block hash
                                    after.0 d)
                                  kept)
                        ]
                  ]
            ]
      ]

reset_unless-IsKeyed :
    (checkpoint : Option DirectoryCheckpoint) (d : Directory)
    → IsKeyed d.accounts
    → IsKeyed (reset_unless checkpoint d).accounts
unfolding reset
reset_unless-IsKeyed none d keyed = tt
reset_unless-IsKeyed (some c) d keyed = keyed

finished-IsKeyed :
    (safe_head : ℕ) (rebuilt : Bool) (synced : Directory × Result DirectoryError ℕ)
    → IsKeyed synced.0.accounts
    → IsKeyed (finished safe_head rebuilt synced).0.accounts
finished-IsKeyed safe_head rebuilt (d, ok applied) keyed = keyed
finished-IsKeyed safe_head rebuilt (d, err e) keyed = keyed

sync_to-IsKeyed :
    (indexer : SubaccountDirectoryIndexer) (chain : DirectoryChainReader)
    (checkpoint : Option DirectoryCheckpoint) (rebuilt : Bool) (head : ℕ) (d : Directory)
    → IsKeyed d.accounts
    → IsKeyed (sync_to indexer chain checkpoint rebuilt head d).0.accounts
unfolding sync_to
sync_to-IsKeyed indexer chain checkpoint rebuilt head d keyed =
    let safe_head = safe_head_of head indexer.confirmation_blocks in
    let from_block = start_block indexer.network.deployment_block checkpoint in
    elim (Bool-cases (ltb safe_head from_block)) [
      | inl current ↦ rw current keyed
      | inr behind ↦ rw behind (
          finished-IsKeyed safe_head rebuilt
            (sync_chunks chain indexer.chunk_size safe_head (was_ready checkpoint)
              (safe_head + 1 - from_block) from_block 0 d)
            (sync_chunks-IsKeyed chain indexer.chunk_size safe_head (was_ready checkpoint)
              (safe_head + 1 - from_block) from_block 0 d keyed))
    ]

-- If each account stands under its own id and no id stands twice, then this is so after syncOnce,
-- whether it rebuilds the directory, is up to date, indexes new blocks or throws.
pub sync_once-IsKeyed :
    (indexer : SubaccountDirectoryIndexer) (chain : DirectoryChainReader) (d : Directory)
    → IsKeyed d.accounts
    → IsKeyed (sync_once indexer chain d).0.accounts
unfolding sync_once
sync_once-IsKeyed indexer chain d keyed =
    elim (Result-cases (canonical_checkpoint chain d.checkpoint)) [
      | inr (e, unread) ↦ rw (sync_once, unread) keyed
      | inl (checkpoint, canonical) ↦
          let kept = reset_unless-IsKeyed checkpoint d keyed in
          elim (Option-cases chain.get_block_number) [
            | inl unread ↦ rw (sync_once, canonical, unread) kept
            | inr (head, read) ↦
                rw (sync_once, canonical, read)
                  (sync_to-IsKeyed indexer chain checkpoint (is_lost d.checkpoint checkpoint) head
                    (reset_unless checkpoint d) kept)
          ]
    ]
