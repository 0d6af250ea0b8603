-- ===== src/Shared/Instruments.antt =====
-- services/shared/src/instruments.ts: the encoding of an option in a sub-id. `<<` and `>>` multiply
-- and divide by a power of two; `|` and `&` act on the binary digits, of a negative number on the
-- endless digits of its two's complement.
use Prim.Native.Nat.{bit_and, bit_or}
use derive_docs.Base.{
  ℕ, suc, Bool, not, ◌||◌, ◌*◌, ◌-◌, ◌/◌, ◌%◌, ◌^◌, ltb, if◌then◌else◌, Result, ok, guard, ◌>>◌,
}
use derive_docs.Base.Int.{ℤ, pos, negsuc, pos_part, sub_ℕ, ◌*ℤ◌, ◌/ℤ◌, ltb_ℤ, ◌==ℤ◌}

abbrev pub uint32_max : ℕ
uint32_max = 0xffffffff

abbrev pub uint63_max : ℕ
uint63_max = 0x7fffffffffffffff

abbrev pub strike_granularity : ℕ
strike_granularity = 10000000000

-- `a % n` on bigints has the sign of `a`.
unfoldable pub mod_ℤ : ℤ → ℕ → ℤ
mod_ℤ (pos a) n = pos (a % n)
mod_ℤ (negsuc a) n = sub_ℕ 0 (suc a % n)

-- `a | b` on bigints: `negsuc b` has the digits of `b` inverted.
unfoldable pub or_ℤ : ℤ → ℤ → ℤ
or_ℤ (pos a) (pos b) = pos (bit_or a b)
or_ℤ (pos a) (negsuc b) = negsuc (b - bit_and a b)
or_ℤ (negsuc a) (pos b) = negsuc (a - bit_and a b)
or_ℤ (negsuc a) (negsuc b) = negsuc (bit_and a b)

pub record OptionDetails : Type 0 where
  pub expiry : ℤ
  pub strike : ℤ
  pub is_call : Bool

pub data SubIdError : Type 0 where
  expiry_too_large zero_expiry strike_too_granular strike_too_large sub_id_out_of_range : SubIdError

-- `encodeOptionSubId`
unfoldable pub encode_option_sub_id : OptionDetails → Result SubIdError ℤ
unfolding mod_ℤ or_ℤ
encode_option_sub_id option =
    let strike8 = option.strike /ℤ pos strike_granularity in
    guard (not (ltb_ℤ (pos uint32_max) option.expiry)) expiry_too_large
    >> guard (not (option.expiry ==ℤ pos 0)) zero_expiry
    >> guard (mod_ℤ option.strike strike_granularity ==ℤ pos 0) strike_too_granular
    >> guard (not (ltb_ℤ (pos uint63_max) strike8)) strike_too_large
    >> ok (
        or_ℤ (or_ℤ option.expiry (strike8 *ℤ pos (2 ^ 32)))
          (pos ((if option.is_call then 1 else 0) * 2 ^ 95)))

-- `decodeOptionSubId`; past the guard the sub-id is not negative.
unfoldable pub decode_option_sub_id : ℤ → Result SubIdError OptionDetails
decode_option_sub_id sub_id =
    let digits = pos_part sub_id in
    guard (not (ltb_ℤ sub_id (pos 0) || ltb_ℤ (pos (2 ^ 96 - 1)) sub_id)) sub_id_out_of_range
    >> ok (record {
      expiry = pos (bit_and digits uint32_max);
      strike = pos (bit_and (digits / 2 ^ 32) uint63_max * strike_granularity);
      is_call = ltb 0 (digits / 2 ^ 95);
    })
