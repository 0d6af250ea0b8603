-- ===== src/Withdrawal/Prepared.antt =====
-- services/rfq-engine/src/withdrawal.ts: what `prepare` promises of the operation that it stores, and
-- how it claims a key.
use derive_docs.Base.{
  ℕ, ◌≡◌, ◌≢◌, refl, ap, inl, inr, true, false, Option, none, some, arith, ◌<◌, ◌≤◌, ◌%◌, ◌∙◌, sym,
  ok, bind_ok, guard_ok, ok_injective, ltb, Bool-cases, not, ◌==◌, ==_iff, not_ltb→le,
}
use derive_docs.Base.Int.{pos}
use derive_docs.Withdrawal.Types.{WithdrawalStatus, WithdrawalOperation}
use derive_docs.Withdrawal.Amounts.{token_quantum, align}
use derive_docs.Withdrawal.Gateway.{
  WithdrawalBlocker, WithdrawalPinnedBlock, WithdrawalSnapshot, WithdrawalGateway, throw_if-ok,
}
use derive_docs.Withdrawal.Maximum.{MaximumResult, find_maximum, IsClosed, find_maximum-allows}
use derive_docs.Withdrawal.Policy.{
  WithdrawalEngineOptions, resolve_asset, snapshot_blocker, policy_cap, reserved_for_asset,
  assert_final_policy, same_block, unaligned,
}
use derive_docs.Withdrawal.Permission.{IsPermitted-passes, align-le}
use derive_docs.Withdrawal.Preview.{
  WithdrawalPreview, Limit, limited, limit_of, still_pinned, simulate_at, metadata_of,
  preview_at_block,
}
use derive_docs.Withdrawal.Request.{WithdrawalServices, check_reviewed}
use derive_docs.Withdrawal.Prepare.{Claim, operation_of, draft}

some_not_none : {A : Type 0} {a : A} → ◌≢◌ {A = Option A} (some a) none
some_not_none h = cc

of_aligned : (units q : ℕ) → units % q ≡ 0 → unaligned (pos units) q ≡ false
of_aligned units q h = ground arith

still_pinned-same_block :
    (canonical : Option WithdrawalPinnedBlock) (block : WithdrawalPinnedBlock)
    → still_pinned canonical block ≡ true
    → same_block canonical block ≡ true
still_pinned-same_block none block h = h
still_pinned-same_block (some canonical) block h = ground arith

-- A limit without a blocker is the aligned maximum of a search.
limit_of-searched :
    (simulate : ℕ → Option WithdrawalBlocker) (quantum upper : ℕ) (b : Option WithdrawalBlocker)
    {l : Limit}
    → limit_of simulate quantum upper b ≡ ok l
    → l.blocker ≡ none
    → (b ≡ none)
      × (0 < upper)
      × ((r : MaximumResult) × (find_maximum simulate upper ≡ ok r)
          × (l.protocol_max ≡ align r.maximum quantum))
unfolding limit_of limited
limit_of-searched simulate quantum upper (some b) h clear =
    absurd (some_not_none (ap (λ (x : Limit). x.blocker) (ok_injective h) ∙ clear))
limit_of-searched simulate quantum upper none h clear = elim (Bool-cases (ltb 0 upper)) [
  | inr e ↦
      absurd (
        some_not_none
          (ap (λ (x : Limit). x.blocker) (ok_injective (rw (limit_of, e) at h)) ∙ clear))
  | inl e ↦
      let (r, found, same) = bind_ok (find_maximum simulate upper) _ (rw (limit_of, e) at h) in
      (refl, ground arith, (r, found, sym (ap (λ (x : Limit). x.protocol_max) (ok_injective same))))
]

module _ (opts : WithdrawalEngineOptions) (services : WithdrawalServices)
    (gateway : WithdrawalGateway) (now : ℕ) (claim : Claim) where
  abbrev snapshot : WithdrawalSnapshot
  snapshot = gateway.snapshot (pos claim.subaccount_id) claim.asset gateway.latest_block.number

  abbrev cap : ℕ
  cap =
      policy_cap claim.asset snapshot
        (reserved_for_asset opts claim.asset (pos claim.subaccount_id))

  -- The node's simulations of the claim's withdrawal, by amount.
  abbrev pub claim_simulation : ℕ → Option WithdrawalBlocker
  claim_simulation =
      simulate_at gateway claim.request.owner (pos claim.subaccount_id) claim.asset snapshot
        gateway.latest_block.number

  abbrev Previewed : WithdrawalPreview → Type 0
  Previewed preview =
      (preview.asset ≡ metadata_of claim.asset snapshot)
      × (snapshot_blocker opts claim.request.owner claim.asset snapshot ≡ none)
      × (still_pinned (gateway.block_by_number gateway.latest_block.number) gateway.latest_block
          ≡ true)
      × (0 < cap)
      × ((r : MaximumResult) × (find_maximum claim_simulation cap ≡ ok r)
          × (preview.protocol_max_token_units
              ≡ align r.maximum (token_quantum snapshot.token_decimals)))

  preview-Previewed :
      {preview : WithdrawalPreview}
      → preview_at_block opts gateway now claim.request.owner
          (pos claim.subaccount_id)
          claim.asset
          gateway.latest_block
        ≡ ok preview
      → preview.blocker ≡ none
      → Previewed preview
  unfolding preview_at_block
  preview-Previewed {preview} h clear =
      let (limit, limits, h1) =
        bind_ok
          (limit_of claim_simulation (token_quantum snapshot.token_decimals) cap
            (snapshot_blocker opts claim.request.owner claim.asset snapshot))
          _ h in
      let (pinned, h2) = guard_ok _ _ _ h1 in
      let same = ok_injective h2 in
      let (unblocked, some_cap, (r, found, aligned)) =
        limit_of-searched claim_simulation (token_quantum snapshot.token_decimals) cap _ limits
          (ap (λ (p : WithdrawalPreview). p.blocker) same ∙ clear) in
      (
        sym (ap (λ (p : WithdrawalPreview). p.asset) same),
        unblocked,
        pinned,
        some_cap,
        (r, found, sym (ap (λ (p : WithdrawalPreview). p.protocol_max_token_units) same) ∙ aligned),
      )

  -- What a draft has checked.
  abbrev Drafted : WithdrawalOperation → WithdrawalPreview → Type 0
  Drafted o preview =
      Previewed preview
      × (claim.token_units % token_quantum preview.asset.token_decimals ≡ 0)
      × (claim.token_units ≤ preview.protocol_max_token_units)
      × (operation_of opts services now claim preview ≡ o)

  draft-Drafted :
      (reviewed : WithdrawalGateway) {o : WithdrawalOperation}
      → draft opts services reviewed gateway now claim ≡ ok o
      → (preview : WithdrawalPreview) × Drafted o preview
  unfolding draft
  draft-Drafted reviewed {o} h =
      let (_, _, h0) = bind_ok (check_reviewed reviewed now claim.request.preview_block_hash) _ h in
      let (preview, previewed, h1) =
        bind_ok
          (preview_at_block opts gateway now claim.request.owner (pos claim.subaccount_id)
            claim.asset gateway.latest_block)
          _ h0 in
      let (clear, h2) = throw_if-ok preview.blocker _ _ h1 in
      let (whole, h3) =
        guard_ok (claim.token_units % token_quantum preview.asset.token_decimals == 0) _ _ h2 in
      let (fits, h4) =
        guard_ok (not (ltb preview.protocol_max_token_units claim.token_units)) _ _ h3 in
      (
        preview,
        (
          preview-Previewed previewed clear,
          (==_iff _ _).0 whole,
          not_ltb→le preview.protocol_max_token_units claim.token_units fits,
          ok_injective h4,
        ),
      )

  -- A draft stands under the key of the request.
  pub draft-key :
      (reviewed : WithdrawalGateway) {o : WithdrawalOperation}
      → draft opts services reviewed gateway now claim ≡ ok o
      → o.idempotency_key ≡ claim.scoped_key
  unfolding operation_of
  draft-key reviewed h =
      let (preview, (_, _, _, same)) = draft-Drafted reviewed h in
      sym (ap (λ (x : WithdrawalOperation). x.idempotency_key) same)

  -- A draft is a prepared operation with the identifier drawn for it.
  pub draft-fresh :
      (reviewed : WithdrawalGateway) {o : WithdrawalOperation}
      → draft opts services reviewed gateway now claim ≡ ok o
      → (o.id ≡ services.id) × (o.status ≡ WithdrawalStatus.prepared)
  unfolding operation_of
  draft-fresh reviewed h =
      let (preview, (_, _, _, same)) = draft-Drafted reviewed h in
      (
        sym (ap (λ (x : WithdrawalOperation). x.id) same),
        sym (ap (λ (x : WithdrawalOperation). x.status) same),
      )

  -- An operation that `prepare` would store passes the final policy check, if the chain's answers and
  -- the reserved cash are as they were when it was prepared, its amount is positive, its asset is
  -- configured, and the simulation lets through every positive amount below one that it lets through.
  pub draft_passes_final_policy :
      (reviewed : WithdrawalGateway) {o : WithdrawalOperation}
      → draft opts services reviewed gateway now claim ≡ ok o
      → 0 < claim.token_units
      → resolve_asset opts claim.asset.asset_id ≡ ok claim.asset
      → IsClosed claim_simulation
      → assert_final_policy opts gateway o ≡ ok tt
  unfolding operation_of
  draft_passes_final_policy reviewed {o} h positive supported closed =
      let (
        preview,
        ((asset, unblocked, pinned, some_cap, (r, found, maximum)), whole, fits, same),
      ) =
        draft-Drafted reviewed h in
      let (below, allows) = find_maximum-allows claim_simulation cap some_cap closed found in
      let lowered = align-le r.maximum (token_quantum snapshot.token_decimals) in
      rw (← same) (
        IsPermitted-passes opts gateway _ claim.asset (record {
          supported = rw asset supported;
          unblocked = unblocked;
          whole = of_aligned claim.token_units _ (rw asset at whole);
          within = omega arith;
          simulated = allows claim.token_units positive (omega arith);
          canonical = still_pinned-same_block _ gateway.latest_block pinned;
        }))
