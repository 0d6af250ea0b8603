-- ===== src/Base/Decimal.antt =====
-- `BigInt.prototype.toString` and `BigInt(text)` on decimal numerals. The other literals that
-- `BigInt` reads (hexadecimal, surrounding spaces) are taken for malformed.
use mathlib.Core.Option
use Prim.Native.Nat.{zero, suc}
use derive_docs.Base.{
  ℕ, ◌+◌, ◌-◌, ◌*◌, ◌/◌, ◌%◌, ◌≤◌, ◌<◌, ◌≡◌, [], ◌∷◌, Option, none, some, arith, ltb, ◌==◌,
  if◌then◌else◌, Bool-cases, inl, inr,
}
use derive_docs.Base.Int.{ℤ, pos, negsuc}
use derive_docs.Base.Text.{Text, is_digit}

-- The digits of `n` in front of `out`. The fuel bounds their number; `n < fuel` is enough.
emit : ℕ → ℕ → Text → Text
emit zero n out = out
emit (suc fuel) n out =
    let rest = emit fuel (n / 10) ((b'0' + n % 10) ∷ out) in
    if ltb n 10 then (b'0' + n) ∷ out else rest

unfoldable pub decimal : ℕ → Text
unfolding emit
decimal n = emit (suc n) n []

scan : ℕ → Text → Option ℕ
scan acc [] = some acc
scan acc (c ∷ s) = if is_digit c then scan (acc * 10 + (c - b'0')) s else none

scan-emit : (fuel n : ℕ) (out : Text) → n < fuel → scan 0 (emit fuel n out) ≡ scan n out
unfolding scan emit
scan-emit zero n out h = elim h [ ]
scan-emit (suc fuel) n out h = ground (arith, scan-emit fuel (n / 10) ((b'0' + n % 10) ∷ out))

-- The parts of `/^-?\d+$/`: digits, at least one, behind an optional sign.
abbrev neg : ℕ → ℤ
neg zero = pos zero
neg (suc n) = negsuc n

parse_unsigned : Text → Option ℕ
unfolding scan
parse_unsigned [] = none
parse_unsigned (c ∷ s) = scan 0 (c ∷ s)

unfoldable pub parse_integer : Text → Option ℤ
unfolding parse_unsigned
parse_integer [] = none
parse_integer (c ∷ s) =
    if c == b'-' then Option.map neg (parse_unsigned s) else Option.map pos (parse_unsigned (c ∷ s))

-- `BigInt("")` is 0n; a text that is no numeral throws.
unfoldable pub big_int : Text → Option ℤ
unfolding parse_integer
big_int [] = some (pos 0)
big_int (c ∷ s) = parse_integer (c ∷ s)

-- `z.toString()`
unfoldable pub to_string : ℤ → Text
unfolding decimal
to_string (pos n) = decimal n
to_string (negsuc n) = b'-' ∷ decimal (suc n)

abbrev StartsWithDigit : Text → Type 0
StartsWithDigit [] = ⊥
StartsWithDigit (c ∷ s) = (b'0' ≤ c) × (c ≤ b'9')

emit-StartsWithDigit : (fuel n : ℕ) (out : Text) → n < fuel → StartsWithDigit (emit fuel n out)
unfolding emit
emit-StartsWithDigit zero n out h = elim h [ ]
emit-StartsWithDigit (suc fuel) n out h = elim (Bool-cases (ltb n 10)) [
  | inl few ↦ rw few (ground arith)
  | inr many ↦ rw many (emit-StartsWithDigit fuel (n / 10) _ (ground arith))
]

parse_unsigned-digits :
    (s : Text) (n : ℕ) → StartsWithDigit s → scan 0 s ≡ some n → parse_unsigned s ≡ some n
unfolding parse_unsigned
parse_unsigned-digits [] n h e = absurd h
parse_unsigned-digits (c ∷ s) n h e = e

scan-decimal : (n : ℕ) → scan 0 (decimal n) ≡ some n
unfolding decimal scan
scan-decimal n = scan-emit (suc n) n [] (omega arith)

parse_unsigned-decimal : (n : ℕ) → parse_unsigned (decimal n) ≡ some n
parse_unsigned-decimal n = parse_unsigned-digits (decimal n) n (starts n) (scan-decimal n)
  where
    starts : (n : ℕ) → StartsWithDigit (decimal n)
    starts n = unfold decimal in emit-StartsWithDigit (suc n) n [] (omega arith)

parse_integer-digits :
    (s : Text) (n : ℕ)
    → StartsWithDigit s
    → parse_unsigned s ≡ some n
    → parse_integer s ≡ some (pos n)
unfolding parse_integer
parse_integer-digits [] n h e = absurd h
parse_integer-digits (c ∷ s) n h e = ground arith

-- What a bigint prints as, reads back as that bigint.
pub parse_integer-to_string : (z : ℤ) → parse_integer (to_string z) ≡ some z
unfolding to_string
parse_integer-to_string (pos n) =
    parse_integer-digits (decimal n) n
      (unfold decimal in emit-StartsWithDigit (suc n) n [] (omega arith)) (parse_unsigned-decimal n)
parse_integer-to_string (negsuc n) = unfold parse_integer in rw (parse_unsigned-decimal (suc n))

big_int-parse : (s : Text) (z : ℤ) → parse_integer s ≡ some z → big_int s ≡ some z
unfolding big_int
big_int-parse [] z h = cc
big_int-parse (c ∷ s) z h = h

pub big_int-to_string : (z : ℤ) → big_int (to_string z) ≡ some z
big_int-to_string z = big_int-parse (to_string z) z (parse_integer-to_string z)
