-- ===== src/Rfq/Auction/Sound/Steps.antt =====
-- services/rfq-engine/src/auction.ts: the invariant under the writes that the handlers are made of.
use derive_docs.Base.{ℕ, ◌≡◌, refl, true, Option, none, some, arith}
use derive_docs.Base.Map.{Map, lookup, insert, erase, lookup-insert, lookup-erase}
use derive_docs.Rfq.Types.{Rfq, Quote}
use derive_docs.Rfq.Store.{Store, put_rfq, ids_of}
use derive_docs.Rfq.Auction.State.{Reservation}
use derive_docs.Rfq.Auction.Sound.{
  IsSoundIn, Backs, held_by, holds_collateral, reservation_of, intent_fits,
}

-- The entries of `m` are entries of `n`.
abbrev pub Within : Map Reservation → Map Reservation → Type 0
Within m n = (id : ℕ) (r : Reservation) → lookup id m ≡ some r → lookup id n ≡ some r

pub Within-erase : (k : ℕ) (m : Map Reservation) → Within (erase k m) m
Within-erase k m id r h = ground (arith, lookup-erase id k m)

pub Within-IsSoundIn :
    (s : Store) (m n : Map Reservation) → Within m n → IsSoundIn s n → IsSoundIn s m
Within-IsSoundIn s m n w v = record {
  keyed = v.keyed;
  intents = v.intents;
  indexed = v.indexed;
  backed = λ id r h. v.backed id r (w id r h);
}

-- The quotes of the RFQ that hold a reservation still may, once the RFQ is replaced.
abbrev pub Holds : Rfq → Store → Map Reservation → Type 0
Holds rfq s m =
    (id : ℕ) (r : Reservation) (q : Quote)
    → lookup id m ≡ some r
    → lookup id s.quotes ≡ some q
    → q.rfq_id ≡ rfq.id
    → holds_collateral rfq id ≡ true

Backs-put_rfq :
    (id : ℕ) (r : Reservation) (o : Option Quote) (rfq : Rfq) (m : Map Rfq)
    → ((q : Quote) → o ≡ some q → q.rfq_id ≡ rfq.id → holds_collateral rfq id ≡ true)
    → Backs id r o m
    → Backs id r o (insert rfq.id rfq m)
Backs-put_rfq id r none rfq m h b = b
Backs-put_rfq id r (some q) rfq m h b =
    (b.0, ground (arith, lookup-insert q.rfq_id rfq.id rfq m, h q refl))

pub put_rfq-IsSoundIn :
    (rfq : Rfq) (s : Store) (m : Map Reservation)
    → intent_fits rfq ≡ true
    → Holds rfq s m
    → IsSoundIn s m
    → IsSoundIn (put_rfq rfq s) m
unfolding put_rfq
put_rfq-IsSoundIn rfq s m fits holds v = record {
  keyed = λ id r e. ground (arith, lookup-insert id rfq.id rfq s.rfqs, v.keyed id r);
  intents = λ id r e. ground (arith, lookup-insert id rfq.id rfq s.rfqs, v.intents id r);
  indexed = record {
    keyed = v.indexed.keyed;
    filed = unfold ids_of in v.indexed.filed;
    distinct = unfold ids_of in v.indexed.distinct;
  };
  backed = λ id r e.
      Backs-put_rfq id r (lookup id s.quotes) rfq s.rfqs (λ q f g. holds id r q e f g)
        (v.backed id r e);
}

-- A stored quote whose RFQ holds it may be reserved for.
pub reserve-IsSoundIn :
    (q : Quote) (s : Store) (m : Map Reservation)
    → lookup q.id s.quotes ≡ some q
    → held_by q.id (lookup q.rfq_id s.rfqs) ≡ true
    → IsSoundIn s m
    → IsSoundIn s (insert q.id (reservation_of q) m)
reserve-IsSoundIn q s m stored held v = record {
  keyed = v.keyed;
  intents = v.intents;
  indexed = v.indexed;
  backed = λ id r e.
      ground (arith, lookup-insert id q.id (reservation_of q) m, v.backed id r, stored, held);
}
