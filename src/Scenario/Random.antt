-- ===== src/Scenario/Random.antt =====
-- crates/simferret/src/scenario.rs, `SplitMix64`: the seeded generator. Its state is a `u64`.
use Prim.Native.Nat.{bit_xor}
use simferret.Prelude.{
  ℕ, zero, suc, ◌+◌, ◌*◌, ◌/◌, ◌%◌, ◌^◌, [], ◌∷◌, Text, hex_char, ◌==◌, if◌then◌else◌,
}

abbrev pub u64_mod : ℕ
u64_mod = 2 ^ 64

-- The two scrambling rounds of `next`, and its last one.
scramble : ℕ → ℕ
scramble s =
    let a = bit_xor s (s / 2 ^ 30) * 0xbf58_476d_1ce4_e5b9 % u64_mod in
    let b = bit_xor a (a / 2 ^ 27) * 0x94d0_49bb_1331_11eb % u64_mod in bit_xor b (b / 2 ^ 31)

-- `SplitMix64::next`: the value, and the generator's next state.
unfoldable pub next : ℕ → ℕ × ℕ
unfolding scramble
next state = let s = (state + 0x9e37_79b9_7f4a_7c15) % u64_mod in (scramble s, s)

-- `(value >> ((index % 8) * 8)) as u8`
unfoldable pub byte_at : ℕ → ℕ → ℕ
byte_at value index = value / 2 ^ (index % 8 * 8) % 256

-- One round of the loop of `hex_bytes`, for the rounds that are left: `value` holds eight bytes.
unfoldable pub hex_rounds : ℕ → ℕ → ℕ → ℕ → Text × ℕ
hex_rounds zero index value state = ([], state)
hex_rounds (suc rounds) index value state =
    let (value', state') = if index % 8 == 0 then next state else (value, state) in
    let byte = byte_at value' index in
    let (rest, last) = hex_rounds rounds (index + 1) value' state' in
    (hex_char (byte / 16) ∷ hex_char (byte % 16) ∷ rest, last)

-- `SplitMix64::hex_bytes`
unfoldable pub hex_bytes : ℕ → ℕ → Text × ℕ
hex_bytes length state = hex_rounds length 0 0 state
