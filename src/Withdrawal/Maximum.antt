-- ===== src/Withdrawal/Maximum.antt =====
-- services/rfq-engine/src/withdrawal.ts: `findMaximum`, the binary search for the largest amount that
-- the node's simulation lets through.
use native.Mathlib.Nat.{pow-suc}
use derive_docs.Base.{
  ok_injective, err_not_ok, ℕ, ◌≡◌, ◌↔◌, ◌⊎◌, inl, inr, Bool, true, false, Option, none, some,
  if◌then◌else◌, ltb, ltb→lt, lt_cases, arith, Result, ok, err, zero, suc, ◌+◌, ◌-◌, ◌*◌, ◌/◌, ◌^◌,
  ◌≤◌, ◌<◌, Bool-cases, Option-cases, refl,
}
use derive_docs.Base.Text.{codes}
use derive_docs.Withdrawal.Gateway.{WithdrawalBlocker, WithdrawalApiError, api_error}

pub record MaximumResult : Type 0 where
  pub maximum : ℕ
  pub blocker : WithdrawalBlocker
  pub margin_limited : Bool

-- The variables of the loop.
pub record Search : Type 0 where
  pub low : ℕ
  pub high : ℕ
  pub blocker : WithdrawalBlocker

abbrev pub no_blocker : WithdrawalBlocker
no_blocker = record { code = codes "NONE"; message = codes "" }

abbrev pub max_search_inconclusive : WithdrawalApiError
max_search_inconclusive =
    api_error 503 (codes "MAX_SEARCH_INCONCLUSIVE")
      (codes "exact max search exceeded 96 simulations; refusing an approximate result") true

module _ (simulate : ℕ → Option WithdrawalBlocker) where
  -- The body of the loop.
  unfoldable pub narrow : Search → Search
  narrow s =
      let candidate = (s.low + s.high) / 2 in
      elim (simulate candidate) [
        | none ↦ record s { low = candidate }
        | some blocker ↦ record s { high = candidate; blocker = blocker }
      ]

  -- The loop, with the iterations that it has left.
  unfoldable pub search : ℕ → Search → Search
  search zero s = s
  search (suc left) s = elim (ltb (s.low + 1) s.high) [ true ↦ search left (narrow s) | false ↦ s ]

  -- `findMaximum`
  unfoldable pub find_maximum : ℕ → Result WithdrawalApiError MaximumResult
  find_maximum upper = elim (simulate upper) [
    | none ↦ ok (record { maximum = upper; blocker = no_blocker; margin_limited = false })
    | some blocker ↦
        let s = search 96 (record { low = 0; high = upper; blocker = blocker }) in
        if ltb (s.low + 1) s.high
        then err max_search_inconclusive
        else ok (record { maximum = s.low; blocker = s.blocker; margin_limited = true })
  ]

  -- The lower end is 0 or allowed, the upper end is refused for the blocker at hand.
  abbrev Brackets : ℕ → Search → Type 0
  Brackets upper s =
      (s.low < s.high)
      × (s.high ≤ upper)
      × ((s.low ≡ 0) ⊎ (simulate s.low ≡ none))
      × (simulate s.high ≡ some s.blocker)

  narrow-Brackets :
      (upper : ℕ) (s : Search)
      → Brackets upper s
      → s.low + 1 < s.high
      → Brackets upper (narrow s) × (2 * ((narrow s).high - (narrow s).low) ≤ s.high - s.low + 1)
  unfolding narrow
  narrow-Brackets upper s (order, below, allowed, refused) wide =
      elim (Option-cases (simulate ((s.low + s.high) / 2))) [
        | inl e ↦ rw (narrow, e) ((omega arith, below, inr e, refused), omega arith)
        | inr (b, e) ↦ rw (narrow, e) ((omega arith, omega arith, allowed, e), omega arith)
      ]

  search-Brackets :
      (left upper : ℕ) (s : Search) → Brackets upper s → Brackets upper (search left s)
  unfolding search
  search-Brackets zero upper s h = h
  search-Brackets (suc left) upper s h = elim (Bool-cases (ltb (s.low + 1) s.high)) [
    | inl e ↦
        rw (search, e)
          (search-Brackets left upper (narrow s)
            (narrow-Brackets upper s h (ltb→lt (s.low + 1) s.high e)).0)
    | inr e ↦ rw (search, e) h
  ]

  -- Each iteration halves the bracket.
  search-closes :
      (left upper : ℕ) (s : Search)
      → Brackets upper s
      → s.high - s.low ≤ 2 ^ left
      → (search left s).low + 1 ≡ (search left s).high
  unfolding search
  search-closes zero upper s h small = omega arith
  search-closes (suc left) upper s h small = elim (Bool-cases (ltb (s.low + 1) s.high)) [
    | inl e ↦
        let (inside, halved) = narrow-Brackets upper s h (ltb→lt (s.low + 1) s.high e) in
        rw (search, e) (search-closes left upper (narrow s) inside (omega (arith, pow-suc 2 left)))
    | inr e ↦ rw (search, e) (ground arith)
  ]

  abbrev pub IsClosed : Type 0
  IsClosed = (u : ℕ) → 0 < u → simulate (suc u) ≡ none → simulate u ≡ none

  IsClosed-below : IsClosed → (u v : ℕ) → 0 < u → u ≤ v → simulate v ≡ none → simulate u ≡ none
  IsClosed-below closed u zero positive order h = absurd (omega arith)
  IsClosed-below closed u (suc v) positive order h = elim (lt_cases u (suc v)) [
    | inl below ↦ IsClosed-below closed u v positive (omega arith) (closed v (omega arith) h)
    | inr (inl same) ↦ rw same h
    | inr (inr above) ↦ absurd (omega arith)
  ]

  allowed_iff :
      (m bound : ℕ)
      → IsClosed
      → (m ≡ 0) ⊎ (simulate m ≡ none)
      → ((m ≡ bound) ⊎ ((b : WithdrawalBlocker) × (simulate (m + 1) ≡ some b)))
      → (u : ℕ) → 0 < u
      → u ≤ bound
      → (simulate u ≡ none) ↔ (u ≤ m)
  allowed_iff m bound closed allowed limit u positive within = (
    λ h. elim (lt_cases m u) [
      | inl above ↦ elim limit [
        | inl same ↦ omega arith
        | inr (b, refused) ↦
            absurd (ground (arith, IsClosed-below closed (m + 1) u (omega arith) (omega arith) h))
      ]
      | inr below ↦ ground arith
    ],
    λ below. elim allowed [
      | inl empty ↦ absurd (omega arith)
      | inr e ↦ IsClosed-below closed u m positive below e
    ],
  )

  -- What a search that returns has found, whatever the bound.
  pub find_maximum-allows :
      (upper : ℕ) {r : MaximumResult}
      → 0 < upper
      → IsClosed
      → find_maximum upper ≡ ok r
      → (r.maximum ≤ upper) × ((u : ℕ) → 0 < u → u ≤ r.maximum → simulate u ≡ none)
  unfolding find_maximum
  find_maximum-allows upper positive closed h = elim (Option-cases (simulate upper)) [
    | inl e ↦
        let same = ok_injective (rw (find_maximum, e) at h) in
        rw (← same) (omega arith, λ u p b. IsClosed-below closed u upper p b e)
    | inr (b, e) ↦
        let start : Search = record { low = 0; high = upper; blocker = b } in
        let found = search 96 start in
        let (order, below, allowed, refused) =
          search-Brackets 96 upper start (positive, omega arith, inl refl, e) in
        elim (Bool-cases (ltb (found.low + 1) found.high)) [
          | inl wide ↦ absurd (err_not_ok (rw (find_maximum, e, wide) at h))
          | inr narrow ↦
              let same = ok_injective (rw (find_maximum, e, narrow) at h) in
              rw (← same) (
                omega arith,
                λ u p b. elim allowed [
                  | inl empty ↦ absurd (omega arith)
                  | inr low ↦ IsClosed-below closed u found.low p b low
                ],
              )
        ]
  ]

  -- If the simulation lets through every positive amount below one that it lets through, the search of
  -- a positive bound of at most 2 ^ 96 ends within its 96 iterations, and its maximum is exact: of the
  -- positive amounts up to the bound, those up to the maximum are let through and no other. Unless the
  -- maximum is the bound, it is reported as limited, for the blocker of the amount above it.
  pub find_maximum_is_exact :
      (upper : ℕ)
      → 0 < upper
      → upper ≤ 2 ^ 96
      → ((u : ℕ) → 0 < u → simulate (suc u) ≡ none → simulate u ≡ none)
      → (r : MaximumResult) × (find_maximum upper ≡ ok r)
        × ((u : ℕ) → 0 < u → u ≤ upper → (simulate u ≡ none) ↔ (u ≤ r.maximum))
        × (((r.maximum ≡ upper) × (r.margin_limited ≡ false))
            ⊎ ((r.maximum < upper)
                × (r.margin_limited ≡ true)
                × (simulate (r.maximum + 1) ≡ some r.blocker)))
  unfolding find_maximum
  find_maximum_is_exact upper positive small closed = elim (Option-cases (simulate upper)) [
    | inl e ↦ (
      record { maximum = upper; blocker = no_blocker; margin_limited = false },
      rw (find_maximum, e) refl,
      allowed_iff upper upper closed (inr e) (inl refl),
      inl (refl, refl),
    )
    | inr (b, e) ↦
        let start : Search = record { low = 0; high = upper; blocker = b } in
        let found = search 96 start in
        let first : Brackets upper start = (positive, omega arith, inl refl, e) in
        let (order, below, allowed, refused) = search-Brackets 96 upper start first in
        let adjacent = search-closes 96 upper start first (omega arith) in
        let above : simulate (found.low + 1) ≡ some found.blocker = rw adjacent refused in
        let closes : ltb (found.low + 1) found.high ≡ false = ground arith in
        (
          record { maximum = found.low; blocker = found.blocker; margin_limited = true },
          rw (find_maximum, e, closes) refl,
          allowed_iff found.low upper closed allowed (inr (found.blocker, above)),
          inr (omega arith, refl, above),
        )
  ]
