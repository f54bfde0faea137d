-- ===== src/Prelude/Encoding.antt =====
-- Text as its UTF-8 bytes, and the number formats that the program prints.
use Prim.Native.Nat.{ℕ, zero, suc, ◌+◌, ◌-◌, ◌/◌, ◌%◌}
use Prim.Native.Char.{code}
use Prim.Native.String.{String}
use mathlib.Core.List.{List, [], ◌∷◌, ◌++◌}
use native.Mathlib.Decide.{ℕ_discrete}
use simferret.Prelude.Tests.{ltb, if◌then◌else◌}
use simferret.Prelude.Lists.{length}

abbrev pub Bytes : Type 0
Bytes = List ℕ

-- A `String` or `&str`, as its bytes.
abbrev pub Text : Type 0
Text = List ℕ

-- The bytes of a literal; the program's literals are ASCII.
abbrev pub codes : String → Text
codes String.[] = []
codes (String.◌∷◌ c s) = code c ∷ codes s

unfoldable pub Text-discrete : Discrete Text
unfolding ℕ_discrete
Text-discrete = hlevel ℕ_discrete

-- One lowercase hexadecimal digit, `b"0123456789abcdef"[d]`.
abbrev pub hex_char : ℕ → ℕ
hex_char d = if ltb d 10 then b'0' + d else b'a' + (d - 10)

-- The last `width` hexadecimal digits of a number: `{n:0width$x}` where `n` has no more digits.
unfoldable pub hex_fixed : ℕ → ℕ → Text
hex_fixed zero n = []
hex_fixed (suc width) n = hex_fixed width (n / 16) ++ hex_char (n % 16) ∷ []

-- The last `width` decimal digits: `{n:0width$}` where `n` has no more digits.
unfoldable pub decimal_fixed : ℕ → ℕ → Text
decimal_fixed zero n = []
decimal_fixed (suc width) n = decimal_fixed width (n / 10) ++ (b'0' + n % 10) ∷ []

-- The decimal digits of a number with no leading zeros; each round divides by ten, and the number
-- itself bounds the rounds.
unfoldable pub decimal_rounds : ℕ → ℕ → Text
decimal_rounds zero n = []
decimal_rounds (suc fuel) n =
    let higher = decimal_rounds fuel (n / 10) in
    if ltb n 10 then (b'0' + n) ∷ [] else higher ++ (b'0' + n % 10) ∷ []

-- `{n}` for an unsigned number.
unfoldable pub decimal : ℕ → Text
unfolding decimal_rounds
decimal n = decimal_rounds (suc n) n

-- `{text:0>width$}`: zeros in front, up to a width.
abbrev pub zeros : ℕ → Text
zeros zero = []
zeros (suc n) = b'0' ∷ zeros n

unfoldable pub padded : ℕ → Text → Text
padded width text = zeros (width - length text) ++ text
