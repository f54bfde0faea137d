-- ===== src/Workload/Fields/Digest.antt =====
-- crates/simferret/src/workload/spec.rs, `parse_digest`: the digests of a specification.
use simferret.Prelude.{
  ℕ, ◌≡◌, refl, ap, ◌∙◌, Bool, true, ◌&&◌, ◌||◌, not, [], ◌∷◌, ◌++◌, Option, none, some, Text,
  arith, leb, ◌==◌, all, length, length-map, map, ok, invalid_input, refuse_if-ok, subst,
}
use simferret.Workload.Fields.{
  strip_prefix, is_digit, is_hex_digit, lowercase, digest_prefix, checked_hex, parse_digest,
}

-- A lowercase hexadecimal digit.
abbrev pub is_lowercase_hex : ℕ → Bool
is_lowercase_hex b = is_digit b || (leb b'a' b && leb b b'f')

-- The digest of a SHA-256 in canonical form.
pub record IsDigest (hex : Text) : Type 0 where
  pub whole : length hex ≡ 64
  pub lower : all is_lowercase_hex hex ≡ true

all-lowercase :
    (hex : Text) → all is_hex_digit hex ≡ true → all is_lowercase_hex (map lowercase hex) ≡ true
all-lowercase [] h = refl
all-lowercase (b ∷ hex) h = ground (arith, h, all-lowercase hex)

lowercase_fixed :
    (hex : Text)
    → all is_lowercase_hex hex ≡ true
    → (all is_hex_digit hex ≡ true) × (map lowercase hex ≡ hex)
lowercase_fixed [] h = (refl, refl)
lowercase_fixed (b ∷ hex) h =
    let (digits, fixed) = lowercase_fixed hex (ground (arith, h)) in
    let kept : lowercase b ≡ b = ground (arith, h) in (ground (arith, h, digits), cc (fixed, kept))

checked_hex-IsDigest : (o : Option Text) (hex : Text) → checked_hex o ≡ ok hex → IsDigest hex
checked_hex-IsDigest none hex h = absurd (cc)
checked_hex-IsDigest (some text) hex h =
    let (shape, same) =
      refuse_if-ok (not (length text == 64) || not (all is_hex_digit text)) invalid_input _ h in
    let same_hex : map lowercase text ≡ hex = cc (same) in
    let whole : length text ≡ 64 = ground (arith, shape) in
    let digits : all is_hex_digit text ≡ true = ground (arith, shape) in
    subst IsDigest same_hex
      (record { whole = length-map lowercase text ∙ whole; lower = all-lowercase text digits })

strip_prefix-append : (prefix text : Text) → strip_prefix prefix (prefix ++ text) ≡ some text
unfolding strip_prefix
strip_prefix-append [] text = refl
strip_prefix-append (c ∷ prefix) text = ground (arith, strip_prefix-append prefix text)

checked_hex_fixed : (hex : Text) → IsDigest hex → checked_hex (some hex) ≡ ok hex
checked_hex_fixed hex h =
    let (digits, fixed) = lowercase_fixed hex h.lower in ground (arith, h.whole, digits, fixed)

-- A digest that is accepted gives 64 lowercase hexadecimal digits, and these with the prefix are
-- accepted and give themselves.
pub parse_digest_canonical :
    (value hex : Text)
    → parse_digest value ≡ ok hex
    → IsDigest hex × (parse_digest (digest_prefix ++ hex) ≡ ok hex)
unfolding parse_digest
parse_digest_canonical value hex h =
    let digest = checked_hex-IsDigest (strip_prefix digest_prefix value) hex h in
    (digest, ap checked_hex (strip_prefix-append digest_prefix hex) ∙ checked_hex_fixed hex digest)
