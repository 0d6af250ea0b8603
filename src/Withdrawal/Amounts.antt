-- ===== src/Withdrawal/Amounts.antt =====
-- services/rfq-engine/src/withdrawal.ts: amounts in protocol units of 18 decimals and in the native
-- units of a token. What the source keeps at or above 0 is a natural number.
use native.Mathlib.Omega.{div_any}
use native.Mathlib.Nat.{
  one-le-pow, div-lt_iff_lt-mul, le-div_iff_mul-le, mul-le-mul_right, mul-lt-mul_of_pos_right,
}
use derive_docs.Base.{
  lt_cases, ℕ, ◌≡◌, inl, inr, ◌↔◌, if◌then◌else◌, ltb, leb, ◌==◌, arith, ◌+◌, ◌-◌, ◌*◌, ◌/◌, ◌%◌,
  ◌^◌, ◌≤◌, ◌<◌,
}
use derive_docs.Base.Int.{ℤ, pos, negsuc}

-- `toTokenUnitsFloor`
unfoldable pub to_token_units_floor : ℤ → ℕ → ℕ
to_token_units_floor (negsuc n) decimals = 0
to_token_units_floor (pos amount) decimals =
    if amount == 0
    then 0
    else if decimals == 18
    then amount
    else if ltb decimals 18
    then amount / 10 ^ (18 - decimals)
    else amount * 10 ^ (decimals - 18)

-- `toTokenUnitsCeil`
unfoldable pub to_token_units_ceil : ℤ → ℕ → ℕ
to_token_units_ceil (negsuc n) decimals = 0
to_token_units_ceil (pos amount) decimals =
    if amount == 0
    then 0
    else if leb 18 decimals
    then amount * 10 ^ (decimals - 18)
    else let divisor = 10 ^ (18 - decimals) in (amount + divisor - 1) / divisor

-- `tokenQuantum`
unfoldable pub token_quantum : ℕ → ℕ
token_quantum decimals = if ltb 18 decimals then 10 ^ (decimals - 18) else 1

-- `tokenUnitsTo18Floor`
unfoldable pub token_units_to_18_floor : ℕ → ℕ → ℕ
token_units_to_18_floor token_units decimals =
    if decimals == 18
    then token_units
    else if ltb decimals 18
    then token_units * 10 ^ (18 - decimals)
    else token_units / 10 ^ (decimals - 18)

-- `(n / quantum) * quantum`
unfoldable pub align : ℕ → ℕ → ℕ
align n quantum = n / quantum * quantum

pow10_pos : (n : ℕ) → 0 < 10 ^ n
pow10_pos n = one-le-pow n 10 (omega arith)

pub token_quantum_pos : (decimals : ℕ) → 0 < token_quantum decimals
unfolding token_quantum
token_quantum_pos decimals = ground (arith, pow10_pos (decimals - 18))

div_ceil-le : (u a p : ℕ) → 0 < p → ((a + p - 1) / p ≤ u) ↔ (a ≤ u * p)
div_ceil-le u a p h =
    let below : ((a + p - 1) / p < u + 1) ↔ (a + p - 1 < (u + 1) * p) = div-lt_iff_lt-mul h in
    (λ k. ground arith, λ k. ground arith)

mul_le_iff : (a b q : ℕ) → 0 < q → (a * q ≤ b * q) ↔ (a ≤ b)
mul_le_iff a b q h =
    (λ k. grind (arith, λ (l : b < a). mul-lt-mul_of_pos_right l h), mul-le-mul_right q)

-- A multiple of the quantum is the exact multiple of its quotient.
pub exact : (u q : ℕ) → u % q ≡ 0 → u ≡ u / q * q
exact u q h = grind (arith, div_any u q)

scale_le : (u a q : ℕ) → 0 < q → u % q ≡ 0 → (u ≤ a * q) ↔ (u / q ≤ a)
scale_le u a q h k =
    let iff : (u / q * q ≤ a * q) ↔ (u / q ≤ a) = mul_le_iff (u / q) a q h in
    (λ g. ground (arith, exact u q), λ g. ground (arith, exact u q))

scale_ge : (u a q : ℕ) → 0 < q → u % q ≡ 0 → (a * q ≤ u) ↔ (a ≤ u / q)
scale_ge u a q h k =
    let iff : (a * q ≤ u / q * q) ↔ (a ≤ u / q) = mul_le_iff a (u / q) q h in
    (λ g. ground (arith, exact u q), λ g. ground (arith, exact u q))

-- The floor of a protocol amount is the greatest payable token amount that it is worth: for every
-- multiple of the token's quantum, to be at most the floor is to be worth at most the amount.
pub floor_is_greatest :
    (amount decimals u : ℕ)
    → u % token_quantum decimals ≡ 0
    → (u ≤ to_token_units_floor (pos amount) decimals)
      ↔ (token_units_to_18_floor u decimals ≤ amount)
unfolding to_token_units_floor token_units_to_18_floor token_quantum
floor_is_greatest amount decimals u h = elim (lt_cases decimals 18) [
  | inl below ↦
      let iff : (u ≤ amount / 10 ^ (18 - decimals)) ↔ (u * 10 ^ (18 - decimals) ≤ amount) =
        le-div_iff_mul-le (pow10_pos (18 - decimals)) in
      (λ g. ground arith, λ g. ground arith)
  | inr (inl same) ↦ (λ g. ground arith, λ g. ground arith)
  | inr (inr above) ↦
      let even : u % 10 ^ (decimals - 18) ≡ 0 = ground arith in
      let iff = scale_le u amount (10 ^ (decimals - 18)) (pow10_pos (decimals - 18)) even in
      (λ g. ground arith, λ g. ground arith)
]

-- The ceiling of a protocol amount is the least payable token amount that covers it: for every
-- multiple of the token's quantum, to be at least the ceiling is to be worth at least the amount.
pub ceil_is_least :
    (amount decimals u : ℕ)
    → u % token_quantum decimals ≡ 0
    → (to_token_units_ceil (pos amount) decimals ≤ u)
      ↔ (amount ≤ token_units_to_18_floor u decimals)
unfolding to_token_units_ceil token_units_to_18_floor token_quantum
ceil_is_least amount decimals u h = elim (lt_cases decimals 18) [
  | inl below ↦
      let iff = div_ceil-le u amount (10 ^ (18 - decimals)) (pow10_pos (18 - decimals)) in
      (λ g. ground arith, λ g. ground arith)
  | inr (inl same) ↦ (λ g. ground arith, λ g. ground arith)
  | inr (inr above) ↦
      let even : u % 10 ^ (decimals - 18) ≡ 0 = ground arith in
      let iff = scale_ge u amount (10 ^ (decimals - 18)) (pow10_pos (decimals - 18)) even in
      (λ g. ground arith, λ g. ground arith)
]
