-- ===== src/Workload/Utf8.antt =====
-- `std::str::from_utf8`: the validity of UTF-8, one byte at a time.
use simferret.Prelude.{
  ℕ, ◌-◌, Bool, true, false, ◌&&◌, ◌||◌, [], ◌∷◌, ◌++◌, Bytes, Text, Option, none, some, ltb, leb,
  ◌==◌, if◌then◌else◌, refl, ◌≡◌,
}
use simferret.Checker.Utf8.{Utf8, between, inside, first_byte}

abbrev starts_character : ℕ → Bool
starts_character b = ltb b 0x80 || (leb 0xc2 b && leb b 0xf4)

unfoldable pub valid_from : Utf8 → Bytes → Bool
unfolding first_byte
valid_from between [] = true
valid_from (inside read wanted least most) [] = false
valid_from between (b ∷ bytes) = starts_character b && valid_from ((first_byte b).0) bytes
valid_from (inside read wanted least most) (b ∷ bytes) =
    let state = if wanted == 1 then between else inside (read ++ b ∷ []) (wanted - 1) 0x80 0xbf in
    (leb least b && leb b most) && valid_from state bytes

-- `std::str::from_utf8`
unfoldable pub from_utf8 : Bytes → Option Text
unfolding valid_from
from_utf8 bytes = if valid_from between bytes then some bytes else none

ascii_and_two_bytes : from_utf8 (b'a' ∷ 0xc3 ∷ 0xa9 ∷ []) ≡ some (b'a' ∷ 0xc3 ∷ 0xa9 ∷ [])
unfolding from_utf8
ascii_and_two_bytes = refl

stray_continuation : from_utf8 (b'a' ∷ 0xa9 ∷ []) ≡ none
unfolding from_utf8
stray_continuation = refl
