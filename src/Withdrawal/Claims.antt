-- ===== src/Withdrawal/Claims.antt =====
-- services/rfq-engine/src/withdrawal-store.ts: the claims of idempotency keys.
use derive_docs.Base.{
  ℕ, ◌≡◌, refl, ◌≢◌, ◌⊎◌, inl, inr, true, false, List, [], ◌∷◌, some, arith, All, Option-cases,
}
use derive_docs.Base.Map.{lookup, lookup-insert}
use derive_docs.Withdrawal.Types.{WithdrawalOperation}
use derive_docs.Withdrawal.Store.{
  OperationStore, put, get_by_idempotency_key, put_if_idempotency_absent,
}

-- The updates that follow, the earliest first.
unfoldable pub puts : List WithdrawalOperation → OperationStore → OperationStore
puts [] s = s
puts (o ∷ os) s = puts os (put o s)

-- An update of the operation under its key, or one of another operation under another key.
abbrev pub Keeps : ℕ → ℕ → WithdrawalOperation → Type 0
Keeps key id o =
    ((o.id ≡ id) × (o.idempotency_key ≡ key)) ⊎ ((o.id ≢ id) × (o.idempotency_key ≢ key))

-- The key leads to an operation with the identifier.
abbrev pub Claimed : ℕ → ℕ → OperationStore → Type 0
Claimed key id s =
    (lookup key s.ids_by_key ≡ some id)
    × ((o : WithdrawalOperation) × (lookup id s.operations ≡ some o) × (o.id ≡ id))

put-Claimed :
    (key id : ℕ) (o : WithdrawalOperation) (s : OperationStore)
    → Keeps key id o
    → Claimed key id s
    → Claimed key id (put o s)
unfolding put
put-Claimed key id o s (inl (same_id, same_key)) c = (
  ground (arith, lookup-insert key o.idempotency_key o.id s.ids_by_key),
  (o, ground (arith, lookup-insert id o.id o s.operations), same_id),
)
put-Claimed key id o s (inr (other_id, other_key)) (by_key, (p, stored, same)) = (
  ground (arith, lookup-insert key o.idempotency_key o.id s.ids_by_key),
  (p, ground (arith, lookup-insert id o.id o s.operations), same),
)

pub puts-Claimed :
    (key id : ℕ) (os : List WithdrawalOperation) (s : OperationStore)
    → All (Keeps key id) os
    → Claimed key id s
    → Claimed key id (puts os s)
unfolding puts
puts-Claimed key id [] s h c = c
puts-Claimed key id (o ∷ os) s h c =
    puts-Claimed key id os (put o s) h.1 (put-Claimed key id o s h.0 c)

pub claims :
    (o : WithdrawalOperation) (s : OperationStore)
    → (put_if_idempotency_absent o s).1.0 ≡ true
    → Claimed o.idempotency_key o.id (put_if_idempotency_absent o s).0
unfolding put_if_idempotency_absent put
claims o s h = elim (Option-cases (get_by_idempotency_key o.idempotency_key s)) [
  | inr (p, e) ↦ absurd (ground arith)
  | inl e ↦
      rw (put_if_idempotency_absent, e)
        (
          ground (arith, lookup-insert o.idempotency_key o.idempotency_key o.id s.ids_by_key),
          (o, ground (arith, lookup-insert o.id o.id o s.operations), refl),
        )
]

refuses :
    (o : WithdrawalOperation) (s : OperationStore) (id : ℕ)
    → Claimed o.idempotency_key id s
    → (p : WithdrawalOperation) × (put_if_idempotency_absent o s ≡ (s, (false, p))) × (p.id ≡ id)
unfolding put_if_idempotency_absent get_by_idempotency_key
refuses o s id (by_key, (p, stored, same)) =
    (p, rw (put_if_idempotency_absent, by_key, stored), same)

-- A key is claimed once: after a claim that inserted its operation, and any updates of that operation
-- under its key and of other operations under other keys, a further claim of the key changes nothing
-- and returns the operation that holds it, which has the first one's identifier.
pub claimed_once :
    (first again : WithdrawalOperation) (s : OperationStore) (updates : List WithdrawalOperation)
    → (put_if_idempotency_absent first s).1.0 ≡ true
    → All (Keeps first.idempotency_key first.id) updates
    → again.idempotency_key ≡ first.idempotency_key
    → let s' = puts updates (put_if_idempotency_absent first s).0 in
      (holder : WithdrawalOperation) × (put_if_idempotency_absent again s' ≡ (s', (false, holder)))
      × (holder.id ≡ first.id)
claimed_once first again s updates inserted keep same =
    refuses again (puts updates (put_if_idempotency_absent first s).0) first.id (
      rw same (
        puts-Claimed first.idempotency_key first.id updates (put_if_idempotency_absent first s).0
          keep (claims first s inserted)))
