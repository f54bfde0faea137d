-- ===== src/Checker/Utf8.antt =====
-- `String::from_utf8_lossy`, which crates/simferret/src/checker.rs reads a line with: every maximal
-- part of an invalid sequence becomes one U+FFFD. The bytes are read one at a time.
use simferret.Prelude.{
  ℕ, ◌-◌, ◌≡◌, refl, ◌&&◌, [], ◌∷◌, ◌++◌, Bytes, Text, arith, ltb, leb, ◌==◌, if◌then◌else◌, All,
  ◌<◌,
}

-- Between characters, or inside one: the bytes read, how many more are wanted, and the range of the
-- next one.
pub data Utf8 : Type 0 where
  between : Utf8
  inside : (read : Bytes) (wanted least most : ℕ) → Utf8

abbrev replacement : Text
replacement = 0xef ∷ 0xbf ∷ 0xbd ∷ []

-- The first byte of a character.
unfoldable pub first_byte : ℕ → Utf8 × Text
first_byte b =
    if ltb b 0x80
    then (between, b ∷ [])
    else if leb 0xc2 b && leb b 0xdf
    then (inside (b ∷ []) 1 0x80 0xbf, [])
    else if b == 0xe0
    then (inside (b ∷ []) 2 0xa0 0xbf, [])
    else if b == 0xed
    then (inside (b ∷ []) 2 0x80 0x9f, [])
    else if leb 0xe1 b && leb b 0xef
    then (inside (b ∷ []) 2 0x80 0xbf, [])
    else if b == 0xf0
    then (inside (b ∷ []) 3 0x90 0xbf, [])
    else if b == 0xf4
    then (inside (b ∷ []) 3 0x80 0x8f, [])
    else if leb 0xf1 b && leb b 0xf3
    then (inside (b ∷ []) 3 0x80 0xbf, [])
    else (between, replacement)

unfoldable pub utf8_step : Utf8 → ℕ → Utf8 × Text
unfolding first_byte
utf8_step between b = first_byte b
utf8_step (inside read wanted least most) b =
    if leb least b && leb b most
    then if wanted == 1
      then (between, read ++ b ∷ [])
      else (inside (read ++ b ∷ []) (wanted - 1) 0x80 0xbf, [])
    else let (state, text) = first_byte b in (state, replacement ++ text)

unfoldable pub lossy_from : Utf8 → Bytes → Text
lossy_from between [] = []
lossy_from (inside _ _ _ _) [] = replacement
lossy_from state (b ∷ bytes) =
    let (state', text) = utf8_step state b in text ++ lossy_from state' bytes

-- `String::from_utf8_lossy`
unfoldable pub from_utf8_lossy : Bytes → Text
unfolding lossy_from utf8_step
from_utf8_lossy bytes = lossy_from between bytes

two_byte_character : from_utf8_lossy (b'a' ∷ 0xc3 ∷ 0xa9 ∷ []) ≡ b'a' ∷ 0xc3 ∷ 0xa9 ∷ []
unfolding from_utf8_lossy
two_byte_character = refl

truncated_character : from_utf8_lossy (0xe2 ∷ 0x82 ∷ b'a' ∷ []) ≡ replacement ++ b'a' ∷ []
unfolding from_utf8_lossy
truncated_character = refl

-- ASCII text is itself.
pub from_utf8_lossy-ascii :
    (bytes : Bytes) → All (λ b. b < 0x80) bytes → from_utf8_lossy bytes ≡ bytes
unfolding from_utf8_lossy
from_utf8_lossy-ascii [] h = refl
from_utf8_lossy-ascii (b ∷ bytes) h = ground (arith, from_utf8_lossy-ascii bytes h.1)
