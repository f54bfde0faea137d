-- ===== src/Protocol/Hex/RoundTrip.antt =====
-- Encoding and decoding the bytes of a frame of crates/simferret/src/protocol.rs.
use simferret.Prelude.{
  ℕ, zero, suc, ◌+◌, ◌*◌, ◌/◌, ◌%◌, ◌^◌, ◌≤◌, ◌<◌, ◌≡◌, refl, List, [], ◌∷◌, Bytes, Text, arith,
  hex_char, length, All, Result, ok, >>=-eq-ok, ap, subst, ◌>>=◌,
}
use simferret.Protocol.Hex.{encode_bytes, hex_digit, decode_pairs, decode_bytes}

abbrev pub AreBytes : List ℕ → Type 0
AreBytes = All (λ b. b < 256)

hex_digit-hex_char : (d : ℕ) → d < 16 → hex_digit (hex_char d) ≡ ok d
unfolding hex_digit
hex_digit-hex_char d h = ground arith

pub length-encode_bytes : (bytes : Bytes) → length (encode_bytes bytes) ≡ 2 * length bytes
unfolding encode_bytes
length-encode_bytes [] = refl
length-encode_bytes (b ∷ bytes) = omega (arith, length-encode_bytes bytes)

decode_pairs-encode_bytes :
    (bytes : Bytes) → AreBytes bytes → decode_pairs (encode_bytes bytes) ≡ ok bytes
unfolding encode_bytes decode_pairs
decode_pairs-encode_bytes [] h = refl
decode_pairs-encode_bytes (b ∷ bytes) h = ground (
  arith,
  hex_digit-hex_char (b / 16),
  hex_digit-hex_char (b % 16),
  decode_pairs-encode_bytes bytes h.1,
)

-- Every sequence of bytes within the limit is read back from its hexadecimal form.
pub decode_bytes-encode_bytes :
    (bytes : Bytes) (limit : ℕ)
    → AreBytes bytes
    → length bytes ≤ limit
    → 2 * length bytes < 2 ^ 64
    → decode_bytes (encode_bytes bytes) limit ≡ ok bytes
unfolding decode_bytes
decode_bytes-encode_bytes bytes limit h fits addressable =
    ground (arith, length-encode_bytes bytes, decode_pairs-encode_bytes bytes h)

hex_char-hex_digit : (c d : ℕ) → hex_digit c ≡ ok d → (hex_char d ≡ c) × (d < 16)
unfolding hex_digit
hex_char-hex_digit c d h = ground arith

-- The rest of a round, once both digits are read.
abbrev after : Text → ℕ → ℕ → Result Bytes
after text high low = do bytes ← decode_pairs text; ok ((high * 16 + low) ∷ bytes)

pair_sound :
    (a b high low : ℕ)
    → hex_digit a ≡ ok high
    → hex_digit b ≡ ok low
    → (hex_char ((high * 16 + low) / 16) ≡ a)
      × (hex_char ((high * 16 + low) % 16) ≡ b)
      × (high * 16 + low < 256)
pair_sound a b high low ha hb =
    ground (arith, hex_char-hex_digit a high ha, hex_char-hex_digit b low hb)

encode_bytes-decode_pairs :
    (n : ℕ) (text : Text) (bytes : Bytes)
    → length text ≡ 2 * n
    → decode_pairs text ≡ ok bytes
    → (encode_bytes bytes ≡ text) × (length bytes ≡ n) × AreBytes bytes
unfolding decode_pairs encode_bytes
encode_bytes-decode_pairs zero [] bytes e h = ground arith
encode_bytes-decode_pairs zero (a ∷ text) bytes e h = absurd (omega arith)
encode_bytes-decode_pairs (suc n) [] bytes e h = absurd (omega arith)
encode_bytes-decode_pairs (suc n) (a ∷ []) bytes e h = absurd (omega arith)
encode_bytes-decode_pairs (suc n) (a ∷ b ∷ text) bytes e h =
    let (high, eh, h₁) = >>=-eq-ok (hex_digit a) (λ d. do low ← hex_digit b; after text d low) h in
    let (low, el, h₂) = >>=-eq-ok (hex_digit b) (after text high) h₁ in
    let (rest, er, h₃) =
      >>=-eq-ok (decode_pairs text) (λ bytes. ok ((high * 16 + low) ∷ bytes)) h₂ in
    let (sound, size, small) = encode_bytes-decode_pairs n text rest (omega arith) er in
    let (first, second, small_byte) = pair_sound a b high low eh el in
    let whole : (high * 16 + low) ∷ rest ≡ bytes = ground (arith, h₃) in
    subst (λ bs. (encode_bytes bs ≡ a ∷ b ∷ text) × (length bs ≡ suc n) × AreBytes bs) whole
      (cc (first, second, sound), ap suc size, (small_byte, small))

-- An accepted text is the hexadecimal form of the bytes that it is read as, which are within the
-- limit: two different texts are never read as the same bytes.
pub encode_bytes-decode_bytes :
    (text : Text) (limit : ℕ) (bytes : Bytes)
    → decode_bytes text limit ≡ ok bytes
    → (encode_bytes bytes ≡ text) × (length bytes ≤ limit) × AreBytes bytes
unfolding decode_bytes
encode_bytes-decode_bytes text limit bytes h =
    ground (arith, encode_bytes-decode_pairs (length text / 2) text bytes)
