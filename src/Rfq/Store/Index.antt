-- ===== src/Rfq/Store/Index.antt =====
-- services/rfq-engine/src/store.ts: the quotes and their index by RFQ.
use derive_docs.Base.{
  ℕ, ◌≡◌, refl, ◌↔◌, ◌⊎◌, inl, inr, Bool, true, false, not, ◌||◌, List, [], ◌∷◌, ◌++◌, Option, none,
  some, arith, ◌==◌, if◌then◌else◌, is_some, filter, contains, Bool-cases, Option-cases,
}
use derive_docs.Base.Map.{Map, lookup, insert, lookup-insert, lookup-erase}
use derive_docs.Rfq.Types.{Quote}
use derive_docs.Rfq.Store.{Store, put_quote, get_quote, delete_quote, list_quotes, ids_of, present}

-- `a` stands in the list.
abbrev pub In : {A : Type 0} → A → List A → Type 0
In a [] = ⊥
In a (x ∷ xs) = (a ≡ x) ⊎ In a xs

abbrev pub Distinct : List ℕ → Type 0
Distinct [] = Unit
Distinct (x ∷ xs) = (contains x xs ≡ false) × Distinct xs

pub contains-snoc : (k x : ℕ) (xs : List ℕ) → contains k (xs ++ x ∷ []) ≡ (contains k xs || k == x)
contains-snoc k x [] = ground arith
contains-snoc k x (y ∷ xs) = ground (arith, contains-snoc k x xs)

pub contains-remove :
    (k x : ℕ) (xs : List ℕ)
    → contains k (filter (λ y. not (y == x)) xs) ≡ (if k == x then false else contains k xs)
contains-remove k x [] = ground arith
contains-remove k x (y ∷ xs) = ground (arith, contains-remove k x xs)

Distinct-snoc :
    (x : ℕ) (xs : List ℕ) → Distinct xs → contains x xs ≡ false → Distinct (xs ++ x ∷ [])
Distinct-snoc x [] d h = (refl, tt)
Distinct-snoc x (y ∷ xs) d h =
    (ground (arith, contains-snoc y x xs), Distinct-snoc x xs d.1 (ground arith))

Distinct-remove : (x : ℕ) (xs : List ℕ) → Distinct xs → Distinct (filter (λ y. not (y == x)) xs)
Distinct-remove x [] d = tt
Distinct-remove x (y ∷ xs) d = ground (arith, Distinct-remove x xs d.1, contains-remove y x xs)

-- The quote that a lookup found, if any, belongs to the RFQ.
abbrev pub belongs_to : ℕ → Option Quote → Bool
belongs_to r none = false
belongs_to r (some q) = q.rfq_id == r

-- Every quote is filed under its own id, and each RFQ lists its quotes, each once, and no others.
pub record IsIndexed (s : Store) : Type 0 where
  pub keyed : (id : ℕ) (q : Quote) → lookup id s.quotes ≡ some q → q.id ≡ id
  pub filed : (r id : ℕ) → contains id (ids_of r s) ≡ belongs_to r (lookup id s.quotes)
  pub distinct : (r : ℕ) → Distinct (ids_of r s)

-- A quote that replaces one of its id stays with that one's RFQ.
abbrev pub Refiles : Quote → Store → Type 0
Refiles q s = (old : Quote) → lookup q.id s.quotes ≡ some old → old.rfq_id ≡ q.rfq_id

pub ids_of-put_quote :
    (q : Quote) (s : Store) (r : ℕ)
    → ids_of r (put_quote q s) ≡ (
        if is_some (lookup q.id s.quotes)
        then ids_of r s
        else if q.rfq_id == r
        then ids_of r s ++ q.id ∷ []
        else ids_of r s)
unfolding ids_of put_quote
ids_of-put_quote q s r =
    ground (arith, lookup-insert r q.rfq_id (ids_of q.rfq_id s ++ q.id ∷ []) s.quotes_by_rfq)

pub quotes-put_quote : (q : Quote) (s : Store) → (put_quote q s).quotes ≡ insert q.id q s.quotes
unfolding put_quote
quotes-put_quote q s = refl

pub lookup-put_quote :
    (q : Quote) (s : Store) (id : ℕ)
    → lookup id (put_quote q s).quotes ≡ (if q.id == id then some q else lookup id s.quotes)
unfolding put_quote
lookup-put_quote q s id = lookup-insert id q.id q s.quotes

pub put_quote-IsIndexed :
    (q : Quote) (s : Store) → IsIndexed s → Refiles q s → IsIndexed (put_quote q s)
put_quote-IsIndexed q s v refiles = record {
  keyed = λ id p e. ground (arith, lookup-put_quote q s id, v.keyed id p);
  filed = λ r id. elim (Option-cases (lookup q.id s.quotes)) [
    | inl new ↦ ground (
      arith,
      new,
      lookup-put_quote q s id,
      ids_of-put_quote q s r,
      v.filed r id,
      contains-snoc id q.id (ids_of r s),
    )
    | inr (old, e) ↦
        ground
          (arith, e, refiles old e, lookup-put_quote q s id, ids_of-put_quote q s r, v.filed r id)
  ];
  distinct = λ r. ground (
    arith,
    ids_of-put_quote q s r,
    v.distinct r,
    v.filed r q.id,
    Distinct-snoc q.id (ids_of r s) (v.distinct r),
  );
}

pub ids_of-delete_quote :
    (id : ℕ) (s : Store) (r : ℕ)
    → ids_of r (delete_quote id s) ≡ (
        if belongs_to r (lookup id s.quotes)
        then filter (λ qid. not (qid == id)) (ids_of r s)
        else ids_of r s)
unfolding ids_of delete_quote
ids_of-delete_quote id s r = elim (Option-cases (lookup id s.quotes)) [
  | inl gone ↦ rw (gone, delete_quote)
  | inr (q, e) ↦ elim (Option-cases (lookup q.rfq_id s.quotes_by_rfq)) [
    | inl f ↦ rw (e, delete_quote, f) (ground arith)
    | inr (ids, f) ↦
        rw (e, delete_quote, f)
          (ground
            (arith, lookup-insert r q.rfq_id (filter (λ qid. not (qid == id)) ids) s.quotes_by_rfq))
  ]
]

pub lookup-delete_quote :
    (id : ℕ) (s : Store) (k : ℕ)
    → lookup k (delete_quote id s).quotes ≡ (if id == k then none else lookup k s.quotes)
unfolding delete_quote
lookup-delete_quote id s k = ground (arith, lookup-erase k id s.quotes)

pub delete_quote-IsIndexed : (id : ℕ) (s : Store) → IsIndexed s → IsIndexed (delete_quote id s)
delete_quote-IsIndexed id s v = record {
  keyed = λ k p e. ground (arith, lookup-delete_quote id s k, v.keyed k p);
  filed = λ r k. ground (
    arith,
    lookup-delete_quote id s k,
    ids_of-delete_quote id s r,
    v.filed r k,
    contains-remove k id (ids_of r s),
  );
  distinct = λ r. ground (
    arith,
    ids_of-delete_quote id s r,
    v.distinct r,
    Distinct-remove id (ids_of r s) (v.distinct r),
  );
}

In-present :
    (m : Map Quote) (ids : List ℕ) (q : Quote)
    → In q (present m ids)
    → (id : ℕ) × (contains id ids ≡ true) × (lookup id m ≡ some q)
unfolding present
In-present m [] q h = absurd h
In-present m (id ∷ ids) q h = elim (Option-cases (lookup id m)) [
  | inl e ↦ let (k, c, f) = In-present m ids q (rw (e, present) at h) in (k, ground arith, f)
  | inr (p, e) ↦ elim (rw (e, present) at h) [
    | inl here ↦ (id, ground arith, rw (e, here))
    | inr later ↦ let (k, c, f) = In-present m ids q later in (k, ground arith, f)
  ]
]

present-In :
    (m : Map Quote) (ids : List ℕ) (id : ℕ) (q : Quote)
    → contains id ids ≡ true
    → lookup id m ≡ some q
    → In q (present m ids)
unfolding present
present-In m [] id q c e = cc
present-In m (k ∷ ids) id q c e = elim (Option-cases (lookup k m)) [
  | inl f ↦ rw (f, present) (present-In m ids id q (ground arith) e)
  | inr (p, f) ↦
      rw (f, present)
        (elim (Bool-cases (id == k)) [
          | inl same ↦ inl (ground arith)
          | inr other ↦ inr (present-In m ids id q (ground arith) e)
        ])
]

-- `listQuotes` returns the stored quotes of that RFQ and nothing else: a quote is in the list if and
-- only if `getQuote` finds it under its id and it belongs to the RFQ.
pub list_quotes_exact :
    (s : Store) (r : ℕ) (q : Quote)
    → IsIndexed s
    → In q (list_quotes r s) ↔ ((get_quote q.id s ≡ some q) × (q.rfq_id ≡ r))
unfolding list_quotes get_quote
list_quotes_exact s r q v = (
  λ h.
      let (id, c, e) = In-present s.quotes (ids_of r s) q h in
      ground (arith, v.keyed id q e, v.filed r id),
  λ h. present-In s.quotes (ids_of r s) q.id q (ground (arith, v.filed r q.id)) h.0,
)

-- Each operation on quotes keeps the index in step with the quotes, on every branch; a quote that is
-- put under an id in use must stay with the RFQ of the quote that it replaces.
pub store-IsIndexed :
    (s : Store) (q : Quote) (id : ℕ)
    → IsIndexed s
    → Refiles q s
    → IsIndexed (put_quote q s) × IsIndexed (delete_quote id s)
store-IsIndexed s q id v refiles =
    (put_quote-IsIndexed q s v refiles, delete_quote-IsIndexed id s v)
