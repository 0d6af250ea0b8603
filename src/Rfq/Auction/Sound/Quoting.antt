-- ===== src/Rfq/Auction/Sound/Quoting.antt =====
-- services/rfq-engine/src/auction.ts: the invariant under `submitQuote` and `cancelQuote`.
use derive_docs.Base.{
  ◌⊎◌, ◌&&◌, ℕ, ◌≡◌, refl, ap, ◌∙◌, inl, inr, true, List, [], ◌∷◌, Option, none, some, arith, ◌==◌,
  Option-cases, Bool-cases, ok, Result-cases,
}
use derive_docs.Base.Map.{Map, lookup, lookup-erase}
use derive_docs.Rfq.Types.{address_eq, Address, Rfq, Quote}
use derive_docs.Rfq.Store.{Store, get_rfq, get_quote, put_quote, delete_quote}
use derive_docs.Rfq.Store.Index.{
  put_quote-IsIndexed, delete_quote-IsIndexed, lookup-put_quote, lookup-delete_quote,
}
use derive_docs.Rfq.Quotes.{ChainReader}
use derive_docs.Rfq.Quotes.Admission.{validate_quote_iff}
use derive_docs.Rfq.Auction.State.{Engine, Reservation, release_reservation, reserve}
use derive_docs.Rfq.Auction.Bidding.{
  EngineOptions, Submission, check_submission, is_biddable, drop_quote, drop_quotes, admit_quote,
  prior_quotes, submit_quote, is_owned, cancel_quote,
}
use derive_docs.Rfq.Auction.Sound.{IsSoundIn, IsSound, IsSound-at, Backs, held_by}
use derive_docs.Rfq.Auction.Sound.Steps.{Within-erase, reserve-IsSoundIn}

pub rfqs-delete_quote : (id : ℕ) (s : Store) → (delete_quote id s).rfqs ≡ s.rfqs
unfolding delete_quote
rfqs-delete_quote id s = elim (Option-cases (lookup id s.quotes)) [
  | inl e ↦ rw (e, delete_quote)
  | inr (q, e) ↦ rw (e, delete_quote)
]

pub drop_quote-IsSound : (id : ℕ) (e : Engine) → IsSound e → IsSound (drop_quote id e)
unfolding drop_quote release_reservation
drop_quote-IsSound id e v = record {
  keyed = λ k rfq h. v.keyed k rfq (rw (rfqs-delete_quote id e.store) at h);
  intents = λ k rfq h. v.intents k rfq (rw (rfqs-delete_quote id e.store) at h);
  indexed = delete_quote-IsIndexed id e.store v.indexed;
  backed = λ k r h. elim (Bool-cases (id == k)) [
    | inl same ↦ absurd (ground (arith, lookup-erase k id e.reservations))
    | inr other ↦
        rw (lookup-delete_quote id e.store k, other, rfqs-delete_quote id e.store)
          (v.backed k r (Within-erase id e.reservations k r h))
  ];
}

pub drop_quotes-IsSound : (qs : List Quote) (e : Engine) → IsSound e → IsSound (drop_quotes qs e)
unfolding drop_quotes
drop_quotes-IsSound [] e v = v
drop_quotes-IsSound (q ∷ qs) e v =
    drop_quotes-IsSound qs (drop_quote q.id e) (drop_quote-IsSound q.id e v)

put_quote-IsSoundIn :
    (q : Quote) (s : Store) (m : Map Reservation)
    → lookup q.id s.quotes ≡ none
    → IsSoundIn s m
    → IsSoundIn (put_quote q s) m
put_quote-IsSoundIn q s m new v = record {
  keyed = unfold put_quote in v.keyed;
  intents = unfold put_quote in v.intents;
  indexed = put_quote-IsIndexed q s v.indexed (λ old e. absurd (ground arith));
  backed = λ id r h. elim (Bool-cases (q.id == id)) [
    | inl same ↦ absurd (unbacked id r same (v.backed id r h))
    | inr other ↦ rw (lookup-put_quote q s id, other) (unfold put_quote in v.backed id r h)
  ];
}
  where
    unbacked :
        (id : ℕ) (r : Reservation)
        → (q.id == id) ≡ true
        → Backs id r (lookup id s.quotes) s.rfqs
        → ⊥
    unbacked id r same b = let gone : lookup id s.quotes ≡ none = ground arith in rw gone at b

pub admit_quote-IsSound :
    (q : Quote) (e : Engine)
    → lookup q.id e.store.quotes ≡ none
    → held_by q.id (lookup q.rfq_id e.store.rfqs) ≡ true
    → IsSound e
    → IsSound (admit_quote q e)
unfolding admit_quote reserve
admit_quote-IsSound q e new held v =
    reserve-IsSoundIn q (put_quote q e.store) e.reservations
      (ground (arith, lookup-put_quote q e.store q.id)) (unfold put_quote in held)
      (put_quote-IsSoundIn q e.store e.reservations new v)

rfqs-drop_quotes : (qs : List Quote) (e : Engine) → (drop_quotes qs e).store.rfqs ≡ e.store.rfqs
unfolding drop_quotes drop_quote release_reservation
rfqs-drop_quotes [] e = refl
rfqs-drop_quotes (q ∷ qs) e =
    rfqs-drop_quotes qs (drop_quote q.id e) ∙ rfqs-delete_quote q.id e.store

quotes-drop_quotes :
    (qs : List Quote) (id : ℕ) (e : Engine)
    → lookup id e.store.quotes ≡ none
    → lookup id (drop_quotes qs e).store.quotes ≡ none
unfolding drop_quotes drop_quote release_reservation
quotes-drop_quotes [] id e h = h
quotes-drop_quotes (q ∷ qs) id e h =
    quotes-drop_quotes qs id (drop_quote q.id e)
      (ground (arith, lookup-delete_quote q.id e.store id))

is_biddable-held : (o : Option Rfq) (now id : ℕ) → is_biddable o now ≡ true → held_by id o ≡ true
is_biddable-held none now id h = cc
is_biddable-held (some rfq) now id h = ground arith

-- The quote that a submission makes has the fresh identifier and belongs to the RFQ named.
check_submission-files :
    (opts : EngineOptions) (chain : ChainReader) (p : Submission) (now received id : ℕ) (e : Engine)
    (q : Quote)
    → IsSound e
    → check_submission opts chain p now received id e ≡ ok q
    → (q.id ≡ id) × (q.rfq_id ≡ p.rfq_id)
unfolding check_submission get_rfq
check_submission-files opts chain p now received id e q v h =
    elim (Option-cases (lookup p.rfq_id e.store.rfqs)) [
      | inl f ↦ absurd (ground arith)
      | inr (rfq, f) ↦
          let a =
            (validate_quote_iff _ rfq p.maker p.action p.signature now received id q).0
              (rw f at h) in
          (ap (λ q. q.id) a.made, ap (λ q. q.rfq_id) a.made ∙ v.keyed p.rfq_id rfq f)
    ]

pub submit_quote-IsSound :
    (opts : EngineOptions) (chain : ChainReader) (p : Submission) (now received resumed id : ℕ)
    (before after : Engine)
    → lookup id after.store.quotes ≡ none
    → IsSound before
    → IsSound after
    → IsSound (submit_quote opts chain p now received resumed id before after).0
submit_quote-IsSound opts chain p now received resumed id before after new u v =
    elim (Result-cases (check_submission opts chain p now received id before)) [
      | inr (error, e) ↦ ends after (unfold submit_quote in rw (e, submit_quote)) v
      | inl (q, e) ↦ elim (Bool-cases (is_biddable (get_rfq p.rfq_id after.store) resumed)) [
        | inr late ↦ ends after (unfold submit_quote in rw (e, submit_quote, late)) v
        | inl found ↦
            let (same_id, same_rfq) =
              check_submission-files opts chain p now received id before q u e in
            let prior = prior_quotes p.rfq_id p.maker before.store in
            ends (admit_quote q (drop_quotes prior after))
              (unfold submit_quote in rw (e, submit_quote, found))
              (admit_quote-IsSound q (drop_quotes prior after)
                (rw same_id (quotes-drop_quotes prior id after new))
                (rw (rfqs-drop_quotes prior after, same_rfq)
                  (is_biddable-held (lookup p.rfq_id after.store.rfqs) resumed q.id
                    (unfold get_rfq in found)))
                (drop_quotes-IsSound prior after v))
      ]
    ]
  where
    ends :
        (e : Engine)
        → (submit_quote opts chain p now received resumed id before after).0 ≡ e
        → IsSound e
        → IsSound (submit_quote opts chain p now received resumed id before after).0
    ends e = IsSound-at e

pub cancel_quote-IsSound :
    (quote_id : ℕ) (maker : Address) (now : ℕ) (before after : Engine)
    → IsSound after
    → IsSound (cancel_quote quote_id maker now before after).0
cancel_quote-IsSound quote_id maker now before after v = elim cases [
  | inl e ↦ IsSound-at after e v
  | inr (id, e) ↦ IsSound-at (drop_quote id after) e (drop_quote-IsSound id after v)
]
  where
    cases :
        ((cancel_quote quote_id maker now before after).0 ≡ after)
        ⊎ ((id : ℕ) × ((cancel_quote quote_id maker now before after).0 ≡ drop_quote id after))
    cases = elim (Option-cases (get_quote quote_id after.store)) [
      | inl e ↦ inl (unfold cancel_quote in ground arith)
      | inr (q, e) ↦
          elim (Bool-cases (
            is_owned (get_quote quote_id before.store) maker
            && address_eq q.maker maker
            && is_biddable (get_rfq q.rfq_id after.store) now)) [
              | inl fits ↦ inr (q.id, unfold cancel_quote in ground arith)
              | inr fails ↦ inl (unfold cancel_quote in ground arith)
            ]
    ]
