-- ===== src/Rfq/Quotes/Fees.antt =====
-- services/rfq-engine/src/quotes.ts: `estimateOIFee` against the formula of the contract, in
-- unsigned arithmetic.
use mathlib.Core.Option
use Prim.Native.Nat.{max, zero}
use derive_docs.Base.{ℕ, suc, ◌*◌, ◌/◌, ◌≡◌, some, arith, ◌==◌, if◌then◌else◌}
use derive_docs.Base.Int.{ℤ, pos, negsuc, ◌*ℤ◌, ◌/ℤ◌, ◌-ℤ◌, ltb_ℤ}
use derive_docs.Rfq.Types.{Address}
use derive_docs.Rfq.Quotes.{ChainReader, abs, oi_fee_at, at_least, estimate_oi_fee}

abbrev size : ℤ → ℕ
size (pos n) = n
size (negsuc n) = suc n

-- |amount| * forwardPrice / 1e18 * rate / 1e18, raised to the floor unless it is 0.
abbrev contract_fee : ℕ → ℕ → ℕ → ℕ → ℕ
contract_fee amount price rate min =
    let fee = amount * price / 1_000_000_000_000_000_000 * rate / 1_000_000_000_000_000_000 in
    if fee == 0 then 0 else max fee min

abs-size : (a : ℤ) → abs a ≡ pos (size a)
unfolding ◌-ℤ◌
abs-size (pos n) = ground arith
abs-size (negsuc n) = ground arith

pos-* : (a b : ℕ) → pos a *ℤ pos b ≡ pos (a * b)
unfolding ◌*ℤ◌
pos-* a b = ground arith

pos-/ : (a b : ℕ) → pos a /ℤ pos b ≡ pos (a / b)
unfolding ◌/ℤ◌
pos-/ a b = ground arith

oi_fee_at-contract :
    (min rate price : ℕ) (a : ℤ)
    → oi_fee_at (some (pos min)) (pos rate) a (pos price)
      ≡ some (pos (contract_fee (size a) price rate min))
unfolding oi_fee_at
oi_fee_at-contract min rate price a =
    rw
      (
        abs-size a,
        pos-* (size a) price,
        pos-/ (size a * price) 1_000_000_000_000_000_000,
        pos-* (size a * price / 1_000_000_000_000_000_000) rate,
        pos-/ (size a * price / 1_000_000_000_000_000_000 * rate) 1_000_000_000_000_000_000,
      )
      (raised (size a * price / 1_000_000_000_000_000_000 * rate / 1_000_000_000_000_000_000))
  where
    raised :
        (fee : ℕ)
        → (if ltb_ℤ (pos 0) (pos fee)
            then Option.map (λ m. at_least m (pos fee)) (some (pos min))
            else some (pos fee))
          ≡ some (pos (if fee == 0 then 0 else max fee min))
    raised fee = ground arith

-- With a rate, a forward price and a floor that are not negative, as the contracts return them, the
-- estimate is the contract's fee for the size of the trade, whichever its sign.
pub estimate_oi_fee_lem :
    (chain : ChainReader) (asset feed : Address) (expiry amount : ℤ) (rate price min : ℕ)
    → chain.oi_fee_rate asset ≡ some (pos rate)
    → chain.forward_price feed expiry ≡ some (pos price)
    → chain.min_oi_fee ≡ some (pos min)
    → estimate_oi_fee chain asset feed expiry amount
      ≡ some (pos (contract_fee (size amount) price rate min))
unfolding estimate_oi_fee
estimate_oi_fee_lem chain asset feed expiry amount zero price min r p m =
    rw (r, estimate_oi_fee) (ground arith)
estimate_oi_fee_lem chain asset feed expiry amount (suc rate) price min r p m =
    rw (r, estimate_oi_fee)
      (rw (p, m) (ground (arith, oi_fee_at-contract min (suc rate) price amount)))
