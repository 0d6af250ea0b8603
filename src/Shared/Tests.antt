-- ===== src/Shared/Tests.antt =====
-- services/shared/src/instruments.ts: an option on which the theorems are at work.
use derive_docs.Base.{ℕ, true, ◌+◌, ◌*◌, ◌^◌, ◌<◌, ◌≡◌, ok, refl, arith}
use derive_docs.Base.Int.{pos}
use derive_docs.Shared.Instruments.{OptionDetails, encode_option_sub_id, decode_option_sub_id}
use derive_docs.Shared.SubIds.{encode-decode, decode-encode}

-- A call at 110000, which expires on 17 June 2026 at 08:00 UTC.
abbrev call : OptionDetails
call = record { expiry = pos 1781683200; strike = pos 110000000000000000000000; is_call = true }

abbrev call_id : ℕ
call_id = 1781683200 + 11000000000000 * 2 ^ 32 + 2 ^ 95

encode-decode_example :
    (sub_id : ℕ) × (encode_option_sub_id call ≡ ok (pos sub_id))
    × (sub_id < 2 ^ 96)
    × (decode_option_sub_id (pos sub_id) ≡ ok call)
encode-decode_example = encode-decode call (omega arith)

decode-encode_example : encode_option_sub_id call ≡ ok (pos call_id)
unfolding decode_option_sub_id
decode-encode_example = decode-encode (pos call_id) call refl (λ zero. ground arith)
