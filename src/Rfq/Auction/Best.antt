-- ===== src/Rfq/Auction/Best.antt =====
-- services/rfq-engine/src/auction.ts: `selectBestQuote`.
use mathlib.Core.Path.{subst}
use derive_docs.Base.{
  sym, All, ◌≤◌, ◌<◌, ◌≡◌, refl, ◌⊎◌, inl, inr, Bool, true, false, ◌&&◌, ◌||◌, List, [], ◌∷◌, ◌++◌,
  Option, none, some, arith, ltb, if◌then◌else◌, Bool-cases,
}
use derive_docs.Base.Int.{pos, ◌+ℤ◌, ◌≤ℤ◌, ltb_ℤ, ◌==ℤ◌, ==ℤ_iff, +ℤ_parts}
use derive_docs.Rfq.Types.{Quote}
use derive_docs.Rfq.Store.Index.{In}

-- A higher premium wins, and the earlier of two equal ones.
abbrev beats : Quote → Quote → Bool
beats q best =
    ltb_ℤ best.premium q.premium
    || (q.premium ==ℤ best.premium && ltb q.received_at best.received_at)

abbrev challenge : Option Quote → Quote → Quote
challenge none q = q
challenge (some best) q = if beats q best then q else best

-- The loop over the quotes, with the best so far.
unfoldable pub best_of : Option Quote → List Quote → Option Quote
best_of best [] = best
best_of best (q ∷ qs) = best_of (some (challenge best q)) qs

unfoldable pub select_best_quote : List Quote → Option Quote
unfolding best_of
select_best_quote qs = best_of none qs

-- `p` pays less than `q`, or the same and arrived later.
abbrev pub Worse : Quote → Quote → Type 0
Worse p q =
    (p.premium +ℤ pos 1 ≤ℤ q.premium) ⊎ ((p.premium ≡ q.premium) × (q.received_at < p.received_at))

-- `p` pays no more than `q`, and if it pays the same, it arrived no earlier.
abbrev pub NoBetter : Quote → Quote → Type 0
NoBetter p q = (p.premium ≤ℤ q.premium) × ((p.premium ≡ q.premium) → q.received_at ≤ p.received_at)

beats-Worse : (q b : Quote) → beats q b ≡ true → Worse b q
unfolding ◌+ℤ◌
beats-Worse q b h = ground (arith, ==ℤ_iff q.premium b.premium)

beats-false-NoBetter : (q b : Quote) → beats q b ≡ false → NoBetter q b
unfolding ◌+ℤ◌
beats-false-NoBetter q b h = ground (arith, ==ℤ_iff q.premium b.premium)

Worse-trans : (p q r : Quote) → Worse p q → Worse q r → Worse p r
unfolding ◌+ℤ◌
Worse-trans p q r h k = ground (arith, +ℤ_parts p.premium (pos 1), +ℤ_parts q.premium (pos 1))

NoBetter-Worse : (p q r : Quote) → NoBetter p q → Worse q r → Worse p r
unfolding ◌+ℤ◌
NoBetter-Worse p q r h k = ground (arith, +ℤ_parts p.premium (pos 1), +ℤ_parts q.premium (pos 1))

-- The winner of the loop from `b`: `b` itself, or the first of the list that no other beats.
abbrev Wins : Quote → List Quote → Quote → Type 0
Wins b qs r =
    ((r ≡ b) × All (λ p. NoBetter p b) qs)
    ⊎ ((before : List Quote) × (after : List Quote) × (qs ≡ before ++ r ∷ after)
        × Worse b r
        × All (λ p. Worse p r) before
        × All (λ p. NoBetter p r) after)

Wins-beaten :
    (b q : Quote) (qs : List Quote) (r : Quote) → Worse b q → Wins q qs r → Wins b (q ∷ qs) r
Wins-beaten b q qs r w (inl (e, rest)) = inr ([], qs, rw e, rw e w, tt, rw e rest)
Wins-beaten b q qs r w (inr (before, after, e, over, earlier, later)) =
    inr (q ∷ before, after, rw e, Worse-trans b q r w over, (over, earlier), later)

Wins-kept :
    (b q : Quote) (qs : List Quote) (r : Quote) → NoBetter q b → Wins b qs r → Wins b (q ∷ qs) r
Wins-kept b q qs r n (inl (e, rest)) = inl (e, (n, rest))
Wins-kept b q qs r n (inr (before, after, e, over, earlier, later)) =
    inr (q ∷ before, after, rw e, over, (NoBetter-Worse q b r n over, earlier), later)

best_of-Wins :
    (b : Quote) (qs : List Quote) → (r : Quote) × (best_of (some b) qs ≡ some r) × Wins b qs r
unfolding best_of
best_of-Wins b [] = (b, refl, inl (refl, tt))
best_of-Wins b (q ∷ qs) = elim (Bool-cases (beats q b)) [
  | inl beaten ↦
      let (r, e, w) = best_of-Wins q qs in
      (r, rw beaten e, Wins-beaten b q qs r (beats-Worse q b beaten) w)
  | inr kept ↦
      let (r, e, w) = best_of-Wins b qs in
      (r, rw kept e, Wins-kept b q qs r (beats-false-NoBetter q b kept) w)
]

-- The best quote: every quote before it pays less or the same and arrived later, and none after it
-- pays more, or the same and arrived earlier.
pub record IsBest (qs : List Quote) (best : Quote) : Type 0 where
  pub before : List Quote
  pub after : List Quote
  pub stands : qs ≡ before ++ best ∷ after
  pub earlier : All (λ p. Worse p best) before
  pub later : All (λ p. NoBetter p best) after

Wins-IsBest : (b : Quote) (qs : List Quote) (r : Quote) → Wins b qs r → IsBest (b ∷ qs) r
Wins-IsBest b qs r (inl (e, rest)) = record {
  before = [];
  after = qs;
  stands = rw e;
  earlier = tt;
  later = rw e rest;
}
Wins-IsBest b qs r (inr (before, after, e, over, earlier, later)) = record {
  before = b ∷ before;
  after = after;
  stands = rw e;
  earlier = (over, earlier);
  later = later;
}

-- An auction with quotes has a winner, the first that no other beats: the highest premium, and
-- among equal premiums the earliest arrival.
pub select_best_quote-IsBest :
    (q : Quote) (qs : List Quote)
    → (best : Quote) × (select_best_quote (q ∷ qs) ≡ some best) × IsBest (q ∷ qs) best
unfolding select_best_quote
select_best_quote-IsBest q qs =
    let (best, e, w) = best_of-Wins q qs in (best, e, Wins-IsBest q qs best w)

pub In-middle : (xs ys : List Quote) (q : Quote) → In q (xs ++ q ∷ ys)
In-middle [] ys q = inl refl
In-middle (x ∷ xs) ys q = inr (In-middle xs ys q)

-- The winner is one of the quotes.
pub select_best_quote-In :
    (qs : List Quote) (best : Quote) → select_best_quote qs ≡ some best → In best qs
select_best_quote-In [] best e = absurd (unfold select_best_quote in cc)
select_best_quote-In (q ∷ qs) best e =
    let (r, f, w) = select_best_quote-IsBest q qs in
    let same : r ≡ best = cc in
    subst (λ x. In x (q ∷ qs)) same
      (subst (λ l. In r l) (sym w.stands) (In-middle w.before w.after r))
