-- ===== src/Workload/Fields.antt =====
-- crates/simferret/src/workload/spec.rs: the checks of the fields of a workload specification. Every
-- error is an invalid input.
pub mod Environment
pub mod User
pub mod Digest
use simferret.Prelude.{
  ℕ, zero, suc, ◌+◌, ◌-◌, ◌*◌, ◌^◌, Bool, true, false, ◌&&◌, ◌||◌, not, List, [], ◌∷◌, ◌++◌, Option,
  none, some, Bytes, Text, codes, same_text, contains, starts_with, split_on, ltb, leb, ◌==◌,
  if◌then◌else◌, any, all, length, map, required, Result, ok, err, invalid_input, fail, refuse_if,
  ◌>>=◌, ◌>>◌,
}
use simferret.Workload.Limits.{
  max_arguments, max_argument_bytes, max_environment_entries, max_environment_entry_bytes,
  max_environment_bytes, reserved_owner,
}
use simferret.Workload.Path.{slash, dots, is_empty, starts_slash}

-- `DEFAULT_USER`
abbrev pub default_user : Text
default_user = codes "65534:65534"

-- The loop of `validate_locator` over the components.
unfoldable pub locator_components : List Text → Result (Unit {0})
locator_components [] = ok tt
locator_components (component ∷ components) =
    refuse_if (same_text component dots) invalid_input
    >> refuse_if (is_empty component) invalid_input
    >> locator_components components

-- `validate_locator`
unfoldable pub validate_locator : Text → Result (Unit {0})
validate_locator value = do
  refuse_if (is_empty value) invalid_input
  refuse_if (starts_slash value) invalid_input
  refuse_if (contains value 0) invalid_input
  locator_components (split_on slash value)

-- `strip_prefix`
unfoldable pub strip_prefix : Text → Text → Option Text
strip_prefix [] text = some text
strip_prefix (c ∷ prefix) [] = none
strip_prefix (c ∷ prefix) (b ∷ text) = if b == c then strip_prefix prefix text else none

abbrev pub is_digit : ℕ → Bool
is_digit b = leb b'0' b && leb b b'9'

-- `is_ascii_hexdigit`
abbrev pub is_hex_digit : ℕ → Bool
is_hex_digit b = is_digit b || (leb b'a' b && leb b b'f') || (leb b'A' b && leb b b'F')

-- `to_ascii_lowercase` of a byte
abbrev pub lowercase : ℕ → ℕ
lowercase b = if leb b'A' b && leb b b'Z' then b + 32 else b

abbrev pub digest_prefix : Text
digest_prefix = codes "sha256:"

abbrev pub checked_hex : Option Text → Result Text
checked_hex none = fail invalid_input
checked_hex (some hex) = do
  refuse_if (not (length hex == 64) || not (all is_hex_digit hex)) invalid_input
  ok (map lowercase hex)

-- `parse_digest`
unfoldable pub parse_digest : Text → Result Text
parse_digest value = checked_hex (strip_prefix digest_prefix value)

-- The loop of `normalize_arguments` over the values.
unfoldable pub check_arguments : List Text → Result (Unit {0})
check_arguments [] = ok tt
check_arguments (value ∷ values) =
    refuse_if (ltb max_argument_bytes (length value)) invalid_input
    >> refuse_if (contains value 0) invalid_input
    >> check_arguments values

-- `normalize_arguments`
unfoldable pub normalize_arguments : List Text → Result (List Text)
normalize_arguments values = do
  refuse_if (ltb max_arguments (length values)) invalid_input
  check_arguments values
  ok values

abbrev pub equals_sign : ℕ
equals_sign = b'='

-- The name of `split_once('=')`, where there is an `=`.
unfoldable pub name_of : Text → Option Text
name_of [] = none
name_of (c ∷ entry) =
    if c == equals_sign
    then some []
    else elim (name_of entry) [ none ↦ none | some name ↦ some (c ∷ name) ]

-- The loop of `normalize_environment`: the bytes so far, the names so far, and the entries left.
unfoldable pub check_entries : ℕ → List Text → List Text → Result (Unit {0})
check_entries total seen [] = ok tt
check_entries total seen (entry ∷ entries) = do
  refuse_if (ltb max_environment_entry_bytes (length entry)) invalid_input
  let total' = total + length entry
  refuse_if (ltb max_environment_bytes total') invalid_input
  refuse_if (contains entry 0) invalid_input
  name ← required (name_of entry)
  refuse_if (is_empty name) invalid_input
  refuse_if (any (same_text name) seen) invalid_input
  check_entries total' (seen ++ name ∷ []) entries

-- `normalize_environment`
unfoldable pub normalize_environment : List Text → Result (List Text)
normalize_environment values = do
  refuse_if (ltb max_environment_entries (length values)) invalid_input
  check_entries 0 [] values
  ok values

-- `str::parse::<u32>` of decimal digits: none out of range.
unfoldable pub parse_digits : ℕ → Text → Option ℕ
parse_digits value [] = some value
parse_digits value (d ∷ digits) =
    let value' = value * 10 + (d - b'0') in
    if ltb value' (2 ^ 32) then parse_digits value' digits else none

abbrev pub colon : ℕ
colon = b':'

abbrev pub two_parts : List Text → Result (Text × Text)
two_parts (uid ∷ gid ∷ []) = ok (uid, gid)
two_parts _ = fail invalid_input

-- The numeric checks of a pair of credentials.
unfoldable pub check_owners : ℕ → ℕ → Result (Unit {0})
check_owners uid gid =
    refuse_if ((uid == 0) || (gid == 0)) invalid_input
    >> refuse_if ((uid == reserved_owner) || (gid == reserved_owner)) invalid_input

-- `parse_user`
unfoldable pub parse_user : Text → Result (ℕ × ℕ)
parse_user value = do
  (uid, gid) ← two_parts (split_on colon value)
  refuse_if (is_empty uid || is_empty gid || not (all is_digit uid) || not (all is_digit gid))
      invalid_input
  uid' ← required (parse_digits 0 uid)
  gid' ← required (parse_digits 0 gid)
  check_owners uid' gid'
  ok (uid', gid')

abbrev pub or_default : Option Text → Text
or_default none = default_user
or_default (some []) = default_user
or_default (some (c ∷ value)) = c ∷ value

-- `normalize_user`
unfoldable pub normalize_user : Option Text → Result (ℕ × ℕ)
normalize_user value = parse_user (or_default value)

-- `normalize_required_user`
unfoldable pub normalize_required_user : Text → Result (ℕ × ℕ)
normalize_required_user value = refuse_if (is_empty value) invalid_input >> parse_user value
