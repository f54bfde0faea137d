-- ===== src/Protocol/Hex.antt =====
-- crates/simferret/src/protocol.rs, `encode_bytes` and `decode_bytes`: the hexadecimal form of the
-- exact bytes that a frame carries.
pub mod RoundTrip
use Prim.Native.Nat.{min}
use simferret.Prelude.{
  ℕ, ◌+◌, ◌-◌, ◌*◌, ◌/◌, ◌%◌, ◌^◌, Bool, ◌&&◌, ◌||◌, not, List, [], ◌∷◌, Bytes, Text, hex_char, ltb,
  leb, ◌==◌, if◌then◌else◌, length, Result, ok, err, invalid_data, fail, refuse_if, ◌>>=◌, ◌>>◌,
}

-- `MAX_STDIN_FRAME_BYTES` and `MAX_OUTPUT_FRAME_BYTES`
abbrev pub max_stdin_frame_bytes : ℕ
max_stdin_frame_bytes = 4096

abbrev pub max_output_frame_bytes : ℕ
max_output_frame_bytes = 4096

unfoldable pub encode_bytes : Bytes → Text
encode_bytes [] = []
encode_bytes (byte ∷ bytes) = hex_char (byte / 16) ∷ hex_char (byte % 16) ∷ encode_bytes bytes

unfoldable pub hex_digit : ℕ → Result ℕ
hex_digit byte =
    if leb b'0' byte && leb byte b'9'
    then ok (byte - b'0')
    else if leb b'a' byte && leb byte b'f'
    then ok (byte - b'a' + 10)
    else fail invalid_data

-- The loop over the pairs of digits; `(high << 4) | low` of a byte and a digit below 16.
unfoldable pub decode_pairs : Text → Result Bytes
decode_pairs (a ∷ b ∷ text) = do
  high ← hex_digit a
  low ← hex_digit b
  bytes ← decode_pairs text
  ok ((high * 16 + low) ∷ bytes)
decode_pairs _ = ok []

-- `text.len() > limit.saturating_mul(2)`, on `usize`
unfoldable pub decode_bytes : Text → ℕ → Result Bytes
decode_bytes text limit = do
  refuse_if (not (length text % 2 == 0) || ltb (min (limit * 2) (2 ^ 64 - 1)) (length text))
      invalid_data
  decode_pairs text
