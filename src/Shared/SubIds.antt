-- ===== src/Shared/SubIds.antt =====
-- services/shared/src/instruments.ts: `encodeOptionSubId` and `decodeOptionSubId` undo each other.
use Prim.Native.Nat.{bit_or}
use mathlib.Core.Path.{subst}
use derive_docs.Base.{
  ℕ, Bool, ◌+◌, ◌*◌, ◌/◌, ◌%◌, ◌^◌, ◌≤◌, ◌<◌, ◌≡◌, refl, ltb, if◌then◌else◌, ok, arith, ap, sym,
  ◌∙◌, ok_injective,
}
use derive_docs.Base.Int.{ℤ, pos, negsuc, pos_part, neg_part, ◌*ℤ◌, ◌/ℤ◌}
use derive_docs.Shared.Instruments.{
  OptionDetails, encode_option_sub_id, decode_option_sub_id, mod_ℤ, or_ℤ, uint32_max, uint63_max,
  strike_granularity,
}
use derive_docs.Shared.Bits.{bit_or_shifted, bit_and_low}

-- The place of the top bit.
abbrev call_bit : Bool → ℕ
call_bit is_call = if is_call then 1 else 0

-- The expiry, the strike in units of the granularity and the top bit side by side.
fields_lem :
    (expiry strike8 bit : ℕ)
    → expiry ≤ uint32_max
    → strike8 ≤ uint63_max
    → bit_or (bit_or expiry (strike8 * 2 ^ 32)) (bit * 2 ^ 95)
      ≡ expiry + strike8 * 2 ^ 32 + bit * 2 ^ 95
fields_lem expiry strike8 bit h g =
    rw (bit_or_shifted 32 expiry strike8 (omega arith))
      (bit_or_shifted 95 (expiry + strike8 * 2 ^ 32) bit (omega arith))

-- The expiry is above 0 and fills 32 bits; the strike is not negative, a multiple of the granularity,
-- and fills 63 bits in that unit.
abbrev pub IsEncodable : OptionDetails → Type 0
IsEncodable option =
    (0 < pos_part option.expiry)
    × (pos_part option.expiry ≤ uint32_max)
    × (neg_part option.strike ≡ 0)
    × (pos_part option.strike % strike_granularity ≡ 0)
    × (pos_part option.strike / strike_granularity ≤ uint63_max)

-- The option with the given numbers, and when it is encodable.
abbrev option_of : ℕ → ℕ → Bool → OptionDetails
option_of expiry strike is_call = record {
  expiry = pos expiry;
  strike = pos strike;
  is_call = is_call;
}

option_of-eta :
    (option : OptionDetails)
    → IsEncodable option
    → option_of (pos_part option.expiry) (pos_part option.strike) option.is_call ≡ option
option_of-eta option h = ground arith

-- The strike of an option in units of the granularity.
strike8_lem :
    (strike : ℕ) → pos strike /ℤ pos strike_granularity ≡ pos (strike / strike_granularity)
unfolding ◌/ℤ◌
strike8_lem strike = ground arith

shifted_lem : (a n : ℕ) → pos a *ℤ pos n ≡ pos (a * n)
unfolding ◌*ℤ◌
shifted_lem a n = ground arith

-- The sub-id of an option, in plain arithmetic.
abbrev encoded : ℕ → ℕ → Bool → ℕ
encoded expiry strike is_call =
    expiry + strike / strike_granularity * 2 ^ 32 + call_bit is_call * 2 ^ 95

encode_lem :
    (expiry strike : ℕ) (is_call : Bool)
    → IsEncodable (option_of expiry strike is_call)
    → encode_option_sub_id (option_of expiry strike is_call)
      ≡ ok (pos (encoded expiry strike is_call))
unfolding encode_option_sub_id mod_ℤ or_ℤ
encode_lem expiry strike is_call h =
    rw (strike8_lem strike, shifted_lem (strike / strike_granularity) (2 ^ 32))
      (ground (arith, fields_lem expiry (strike / strike_granularity) (call_bit is_call)))

-- What is read off a sub-id, in plain arithmetic.
abbrev decoded : ℕ → OptionDetails
decoded sub_id =
    option_of (sub_id % 2 ^ 32) (sub_id / 2 ^ 32 % 2 ^ 63 * strike_granularity)
      (ltb 0 (sub_id / 2 ^ 95))

decode_lem :
    (sub_id : ℕ) → sub_id < 2 ^ 96 → decode_option_sub_id (pos sub_id) ≡ ok (decoded sub_id)
unfolding decode_option_sub_id
decode_lem sub_id h =
    rw (bit_and_low 32 sub_id uint32_max refl, bit_and_low 63 (sub_id / 2 ^ 32) uint63_max refl)
      (ground arith)

decode-bound :
    (sub_id : ℤ) {option : OptionDetails}
    → decode_option_sub_id sub_id ≡ ok option
    → (n : ℕ) × (sub_id ≡ pos n) × (n < 2 ^ 96)
unfolding decode_option_sub_id
decode-bound (pos n) h = (n, refl, ground arith)
decode-bound (negsuc n) h = ground arith

encoded-bound :
    (expiry strike : ℕ) (is_call : Bool)
    → IsEncodable (option_of expiry strike is_call)
    → encoded expiry strike is_call < 2 ^ 96
encoded-bound expiry strike is_call h = ground arith

decoded-encoded :
    (expiry strike : ℕ) (is_call : Bool)
    → IsEncodable (option_of expiry strike is_call)
    → decoded (encoded expiry strike is_call) ≡ option_of expiry strike is_call
decoded-encoded expiry strike is_call h = ground arith

encoded-decoded :
    (sub_id : ℕ)
    → sub_id < 2 ^ 96
    → encoded
        (sub_id % 2 ^ 32)
        (sub_id / 2 ^ 32 % 2 ^ 63 * strike_granularity)
        (ltb 0 (sub_id / 2 ^ 95))
      ≡ sub_id
encoded-decoded sub_id h = ground arith

decoded-IsEncodable : (sub_id : ℕ) → 0 < sub_id % 2 ^ 32 → IsEncodable (decoded sub_id)
decoded-IsEncodable sub_id h = omega arith

-- The option has a sub-id of 96 bits, which is read back.
Encodes : OptionDetails → Type 0
Encodes option =
    (sub_id : ℕ) × (encode_option_sub_id option ≡ ok (pos sub_id))
    × (sub_id < 2 ^ 96)
    × (decode_option_sub_id (pos sub_id) ≡ ok option)

option_of-Encodes :
    (expiry strike : ℕ) (is_call : Bool)
    → IsEncodable (option_of expiry strike is_call)
    → Encodes (option_of expiry strike is_call)
unfolding Encodes
option_of-Encodes expiry strike is_call h =
    let bound = encoded-bound expiry strike is_call h in
    (
      encoded expiry strike is_call,
      encode_lem expiry strike is_call h,
      bound,
      decode_lem (encoded expiry strike is_call) bound
          ∙ ap ok (decoded-encoded expiry strike is_call h),
    )

-- An option whose expiry fills 32 bits and is above 0, and whose strike is not negative, a multiple
-- of 1e10, and fills 63 bits in that unit, has a sub-id that is not negative and below 2 ^ 96, and
-- decodeOptionSubId reads the option back.
pub encode-decode :
    (option : OptionDetails)
    → IsEncodable option
    → (sub_id : ℕ) × (encode_option_sub_id option ≡ ok (pos sub_id))
      × (sub_id < 2 ^ 96)
      × (decode_option_sub_id (pos sub_id) ≡ ok option)
unfolding Encodes
encode-decode option h = subst Encodes (option_of-eta option h) (
    option_of-Encodes (pos_part option.expiry) (pos_part option.strike) option.is_call
      (subst IsEncodable (sym (option_of-eta option h)) h))

-- An option that decodeOptionSubId reads from a sub-id, if its expiry is not 0, is one that
-- encodeOptionSubId encodes as that sub-id.
pub decode-encode :
    (sub_id : ℤ) (option : OptionDetails)
    → decode_option_sub_id sub_id ≡ ok option
    → ¬ (option.expiry ≡ pos 0)
    → encode_option_sub_id option ≡ ok sub_id
decode-encode sub_id option h positive =
    let (n, is_n, bound) = decode-bound sub_id h in
    let same : decoded n ≡ option =
      ok_injective (sym (decode_lem n bound) ∙ ap decode_option_sub_id (sym is_n) ∙ h) in
    let expires : 0 < n % 2 ^ 32 = ground (arith, ap (λ (o : OptionDetails). o.expiry) same) in
    ap encode_option_sub_id (sym same)
    ∙ encode_lem (n % 2 ^ 32) (n / 2 ^ 32 % 2 ^ 63 * strike_granularity) (ltb 0 (n / 2 ^ 95))
        (decoded-IsEncodable n expires)
    ∙ ap (λ i. ok (pos i)) (encoded-decoded n bound)
    ∙ ap ok (sym is_n)
