-- ===== src/Withdrawal/Replayed.antt =====
-- services/rfq-engine/src/withdrawal.ts: `prepare` and the keys that it claims.
use derive_docs.Base.{
  some, false, ◌⊎◌, Result, err, ap, ◌∙◌, guard_ok, ok_injective, err_not_ok, ℕ, ◌≡◌, refl, inl,
  inr, true, false, List, ok, All, Bool-cases, Option-cases, Result-cases,
}
use derive_docs.Base.Text.{Text, text_eq, codes}
use derive_docs.Rfq.Stored.Quotes.{serialize_action}
use derive_docs.Rfq.Types.{Hex}
use derive_docs.Withdrawal.Types.{WithdrawalOperation}
use derive_docs.Withdrawal.Store.{
  OperationStore, get, get_by_idempotency_key, put_if_idempotency_absent,
}
use derive_docs.Withdrawal.Claims.{puts, Keeps, Claimed, puts-Claimed, claims}
use derive_docs.Withdrawal.Gateway.{WithdrawalGateway, WithdrawalApiError, api_error}
use derive_docs.Withdrawal.Policy.{WithdrawalEngineOptions}
use derive_docs.Withdrawal.Request.{
  PrepareWithdrawalRequest, WithdrawalServices, PreparedWithdrawalResult,
}
use derive_docs.Withdrawal.Prepared.{draft-key}
use derive_docs.Withdrawal.Prepare.{Claim, draft, parse_claim, replay, claim_key, prepare}

replay-ok :
    (fingerprint : Hex) (o : WithdrawalOperation) {result : PreparedWithdrawalResult}
    → replay fingerprint o ≡ ok result
    → (text_eq o.request_fingerprint fingerprint ≡ true) × (true ≡ result.replayed)
unfolding replay
replay-ok fingerprint o h =
    let (same, answer) = guard_ok (text_eq o.request_fingerprint fingerprint) _ _ h in
    (same, ap (λ (r : PreparedWithdrawalResult). r.replayed) (ok_injective answer))

true_not_false : {A : Type 0} → true ≡ false → A
true_not_false h = cc

-- The answer to a claim that inserted its operation is not a replay.
Claimed-fresh :
    (fingerprint : Hex) (s s' : OperationStore) (o : WithdrawalOperation)
    (result : PreparedWithdrawalResult)
    → claim_key fingerprint s o ≡ (s', ok result)
    → result.replayed ≡ false
    → Claimed o.idempotency_key result.withdrawal_id s'
unfolding claim_key
Claimed-fresh fingerprint s s' o result h fresh =
    elim (Bool-cases (put_if_idempotency_absent o s).1.0) [
      | inr e ↦
          let answer : replay fingerprint (put_if_idempotency_absent o s).1.1 ≡ ok result =
            ap (λ p. p.1) (rw (claim_key, e) at h) in
          let (_, same) = replay-ok fingerprint (put_if_idempotency_absent o s).1.1 answer in
          true_not_false (same ∙ fresh)
      | inl e ↦
          let stored : (put_if_idempotency_absent o s).0 ≡ s' =
            ap (λ p. p.0) (rw (claim_key, e) at h) in
          let id : o.id ≡ result.withdrawal_id =
            ap (λ (r : PreparedWithdrawalResult). r.withdrawal_id)
              (ok_injective (ap (λ p. p.1) (rw (claim_key, e) at h))) in
          rw (stored, id) at (claims o s e)
    ]

-- What a preparation under a key that an operation holds leaves and answers: the same store, and the
-- operation with the identifier as a replay if it was requested with the same fingerprint, otherwise
-- the error of a conflict.
abbrev pub AnswersAgain :
    Hex
    → ℕ
    → OperationStore
    → OperationStore × Result WithdrawalApiError PreparedWithdrawalResult
    → Type 0
AnswersAgain fingerprint id s (s', answer) =
    (s' ≡ s)
    × ((holder : WithdrawalOperation) × (get id s ≡ some holder)
        × (((text_eq holder.request_fingerprint fingerprint ≡ true)
              × (answer
                  ≡ ok (record {
                    withdrawal_id = id;
                    action = serialize_action holder.action;
                    review = holder.review;
                    replayed = true;
                  })))
            ⊎ ((text_eq holder.request_fingerprint fingerprint ≡ false)
                × (answer
                    ≡ err (
                        api_error 409 (codes "IDEMPOTENCY_CONFLICT")
                          (codes
                            "this owner and Idempotency-Key were already used with a different request")
                          false)))))

replay-AnswersAgain :
    (fingerprint : Hex) (id : ℕ) (s : OperationStore) (holder : WithdrawalOperation)
    → get id s ≡ some holder
    → holder.id ≡ id
    → AnswersAgain fingerprint id s (s, replay fingerprint holder)
unfolding replay
replay-AnswersAgain fingerprint id s holder stored same =
    elim (Bool-cases (text_eq holder.request_fingerprint fingerprint)) [
      | inl equal ↦ (
        refl,
        (
          holder,
          stored,
          inl (
            equal,
            rw equal (
                ap
                  (λ i. ok (record {
                    withdrawal_id = i;
                    action = serialize_action holder.action;
                    review = holder.review;
                    replayed = true;
                  }))
                  same),
          ),
        ),
      )
      | inr differ ↦ (refl, (holder, stored, inr (differ, rw differ refl)))
    ]

module _ (opts : WithdrawalEngineOptions) (services : WithdrawalServices)
    (reviewed gateway : WithdrawalGateway) (now : ℕ) (request : PrepareWithdrawalRequest)
    (key : Text) (meanwhile : OperationStore → OperationStore) where
  -- A preparation that stored its operation holds the key of its request.
  fresh-Claimed :
      (claim : Claim) (result : PreparedWithdrawalResult) (s s' : OperationStore)
      → parse_claim opts services request key ≡ ok claim
      → prepare opts services reviewed gateway now request key meanwhile s ≡ (s', ok result)
      → result.replayed ≡ false
      → Claimed claim.scoped_key result.withdrawal_id s'
  unfolding prepare
  fresh-Claimed claim result s s' parsed h fresh =
      elim (Option-cases (get_by_idempotency_key claim.scoped_key s)) [
        | inr (p, e) ↦
            let answer : replay claim.fingerprint p ≡ ok result =
              ap (λ x. x.1) (rw (prepare, parsed, e) at h) in
            let (_, same) = replay-ok claim.fingerprint p answer in true_not_false (same ∙ fresh)
        | inl e ↦ elim (Result-cases (draft opts services reviewed gateway now claim)) [
          | inr (x, d) ↦ absurd (err_not_ok (ap (λ x. x.1) (rw (prepare, parsed, e, d) at h)))
          | inl (o, d) ↦ rw (draft-key opts services gateway now claim reviewed d) at (
              Claimed-fresh claim.fingerprint (meanwhile s) s' o result
                (rw (prepare, parsed, e, d) at h) fresh)
        ]
      ]

  prepare-Claimed :
      (claim : Claim) (id : ℕ) (s : OperationStore)
      → parse_claim opts services request key ≡ ok claim
      → Claimed claim.scoped_key id s
      → AnswersAgain claim.fingerprint id s
          (prepare opts services reviewed gateway now request key meanwhile s)
  unfolding prepare get_by_idempotency_key
  prepare-Claimed claim id s parsed (by_key, (o, stored, same)) =
      rw (prepare, parsed, by_key, stored)
        (replay-AnswersAgain claim.fingerprint id s o (unfold get in stored) same)

-- After a preparation that stored its operation, and any updates of that operation under its key and
-- of other operations under other keys, a later preparation under the key leaves the store as it is; it
-- answers with the first one's identifier and the stored operation's action and review, marked as
-- replayed, if the fingerprint is that of the operation, and with the conflict error otherwise.
pub prepare_claims_once :
    (opts : WithdrawalEngineOptions) (services again_services : WithdrawalServices)
    (reviewed gateway again_reviewed again_gateway : WithdrawalGateway) (now later : ℕ)
    (request again_request : PrepareWithdrawalRequest) (key again_key : Text)
    (meanwhile again_meanwhile : OperationStore → OperationStore) (s s' : OperationStore)
    (claim again : Claim) (result : PreparedWithdrawalResult) (updates : List WithdrawalOperation)
    → parse_claim opts services request key ≡ ok claim
    → prepare opts services reviewed gateway now request key meanwhile s ≡ (s', ok result)
    → result.replayed ≡ false
    → All (Keeps claim.scoped_key result.withdrawal_id) updates
    → parse_claim opts again_services again_request again_key ≡ ok again
    → again.scoped_key ≡ claim.scoped_key
    → AnswersAgain again.fingerprint result.withdrawal_id (puts updates s') (
        prepare opts again_services again_reviewed again_gateway later again_request again_key
          again_meanwhile
          (puts updates s'))
prepare_claims_once opts services again_services reviewed gateway again_reviewed again_gateway now
      later request again_request key again_key meanwhile again_meanwhile s s' claim again result
      updates parsed h fresh keep again_parsed same =
    prepare-Claimed opts again_services again_reviewed again_gateway later again_request again_key
      again_meanwhile again result.withdrawal_id (puts updates s') again_parsed
      (rw same (
        puts-Claimed claim.scoped_key result.withdrawal_id updates s' keep (
          fresh-Claimed opts services reviewed gateway now request key meanwhile claim result s s'
            parsed h fresh)))
