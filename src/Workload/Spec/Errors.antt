-- ===== src/Workload/Spec/Errors.antt =====
-- The errors of crates/simferret/src/workload/spec.rs.
use simferret.Prelude.{
  ℕ, ◌≡◌, refl, Bool, true, false, List, [], ◌∷◌, Option, none, some, Bytes, Text, length, required,
  Result, ok, err, IoError, io_error, invalid_input, fail, refuse_if, ◌>>=◌, ◌>>◌, ◌++◌, ◌+◌,
}
use simferret.Workload.Launch.{LaunchIdentity}
use simferret.Workload.Fields.{
  locator_components, validate_locator, strip_prefix, digest_prefix, checked_hex, parse_digest,
  check_arguments, normalize_arguments, check_entries, normalize_environment, check_owners,
}
use simferret.Workload.Contract.{validate_launch_path, validate_launch_identity}
use simferret.Workload.Spec.{
  SourceKind, binary, oci, KindProbe, BinaryDocument, OciDocument, binary_spec, oci_spec,
  spec_of_kind, parse,
}

-- A result that fails with an invalid input at most.
abbrev pub OnlyInvalid {ℓ} : {A : Type ℓ} → Result A → Type ℓ
OnlyInvalid outcome = (error : IoError) → outcome ≡ err error → error ≡ io_error invalid_input

module _ {ℓ} {A : Type ℓ} where
  ok-OnlyInvalid : (a : A) → OnlyInvalid (ok a)
  ok-OnlyInvalid a error h = absurd (cc)

  fail-OnlyInvalid : OnlyInvalid {A = A} (fail invalid_input)
  fail-OnlyInvalid error h = cc

  required-OnlyInvalid : (o : Option A) → OnlyInvalid (required o)
  required-OnlyInvalid none = fail-OnlyInvalid
  required-OnlyInvalid (some a) = ok-OnlyInvalid a

  >>=-OnlyInvalid {κ} :
      {B : Type κ} (outcome : Result A) (next : A → Result B)
      → OnlyInvalid outcome
      → ((a : A) → OnlyInvalid (next a))
      → OnlyInvalid (outcome >>= next)
  >>=-OnlyInvalid (ok a) next h k error e = k a error e
  >>=-OnlyInvalid (err failure) next h k error e = let known = h failure refl in cc (known, e)

  refuse-OnlyInvalid :
      (test : Bool) (rest : Result A)
      → OnlyInvalid rest
      → OnlyInvalid (refuse_if test invalid_input >> rest)
  refuse-OnlyInvalid true rest h error e = cc
  refuse-OnlyInvalid false rest h error e = h error e

refuse_if-OnlyInvalid : (test : Bool) → OnlyInvalid (refuse_if test invalid_input)
refuse_if-OnlyInvalid true error h = cc
refuse_if-OnlyInvalid false error h = absurd (cc)

ruleset failures = (
  ok-OnlyInvalid, fail-OnlyInvalid, required-OnlyInvalid, >>=-OnlyInvalid, refuse-OnlyInvalid,
  refuse_if-OnlyInvalid,
)

-- The fields.
locator_components-OnlyInvalid :
    (components : List Text) → OnlyInvalid (locator_components components)
unfolding locator_components
locator_components-OnlyInvalid [] = ok-OnlyInvalid tt
locator_components-OnlyInvalid (component ∷ components) =
    search (failures, locator_components-OnlyInvalid components)

validate_locator-OnlyInvalid : (value : Text) → OnlyInvalid (validate_locator value)
unfolding validate_locator
validate_locator-OnlyInvalid value = search (failures, locator_components-OnlyInvalid)

checked_hex-OnlyInvalid : (o : Option Text) → OnlyInvalid (checked_hex o)
checked_hex-OnlyInvalid none = fail-OnlyInvalid
checked_hex-OnlyInvalid (some hex) = search (failures)

parse_digest-OnlyInvalid : (value : Text) → OnlyInvalid (parse_digest value)
unfolding parse_digest
parse_digest-OnlyInvalid value = checked_hex-OnlyInvalid (strip_prefix digest_prefix value)

check_arguments-OnlyInvalid : (values : List Text) → OnlyInvalid (check_arguments values)
unfolding check_arguments
check_arguments-OnlyInvalid [] = ok-OnlyInvalid tt
check_arguments-OnlyInvalid (value ∷ values) = search (failures, check_arguments-OnlyInvalid values)

normalize_arguments-OnlyInvalid : (values : List Text) → OnlyInvalid (normalize_arguments values)
unfolding normalize_arguments
normalize_arguments-OnlyInvalid values = search (failures, check_arguments-OnlyInvalid)

check_entries-OnlyInvalid :
    (total : ℕ) (seen entries : List Text) → OnlyInvalid (check_entries total seen entries)
unfolding check_entries
check_entries-OnlyInvalid total seen [] = ok-OnlyInvalid tt
check_entries-OnlyInvalid total seen (entry ∷ entries) =
    let rest : (name : Text)
        → OnlyInvalid (check_entries (total + length entry) (seen ++ name ∷ []) entries) =
      λ name. check_entries-OnlyInvalid (total + length entry) (seen ++ name ∷ []) entries in
    search (failures, rest) depth 9

normalize_environment-OnlyInvalid :
    (values : List Text) → OnlyInvalid (normalize_environment values)
unfolding normalize_environment
normalize_environment-OnlyInvalid values = search (failures, check_entries-OnlyInvalid)

validate_launch_path-OnlyInvalid : (value : Text) → OnlyInvalid (validate_launch_path value)
unfolding validate_launch_path
validate_launch_path-OnlyInvalid value = search (failures)

check_owners-OnlyInvalid : (uid gid : ℕ) → OnlyInvalid (check_owners uid gid)
unfolding check_owners
check_owners-OnlyInvalid uid gid = search (failures)

pub validate_launch_identity-OnlyInvalid :
    (launch : LaunchIdentity) → OnlyInvalid (validate_launch_identity launch)
unfolding validate_launch_identity
validate_launch_identity-OnlyInvalid launch =
    search
      (
        failures, validate_launch_path-OnlyInvalid, check_arguments-OnlyInvalid,
        check_entries-OnlyInvalid, check_owners-OnlyInvalid,
      )
      depth 16

binary_spec-OnlyInvalid : (document : BinaryDocument) → OnlyInvalid (binary_spec document)
unfolding binary_spec
binary_spec-OnlyInvalid document =
    search
      (
        failures, validate_locator-OnlyInvalid, normalize_arguments-OnlyInvalid,
        normalize_environment-OnlyInvalid,
      )
      depth 9

oci_spec-OnlyInvalid : (document : OciDocument) → OnlyInvalid (oci_spec document)
unfolding oci_spec
oci_spec-OnlyInvalid document =
    search (failures, validate_locator-OnlyInvalid, parse_digest-OnlyInvalid)

module _ (probe_of : Text → Option KindProbe) (binary_of : Text → Option BinaryDocument)
    (oci_of : Text → Option OciDocument) where
  spec_of_kind-OnlyInvalid :
      (kind : SourceKind) (text : Text)
      → OnlyInvalid (spec_of_kind probe_of binary_of oci_of kind text)
  spec_of_kind-OnlyInvalid binary text =
      >>=-OnlyInvalid _ _ (required-OnlyInvalid (binary_of text)) binary_spec-OnlyInvalid
  spec_of_kind-OnlyInvalid oci text =
      >>=-OnlyInvalid _ _ (required-OnlyInvalid (oci_of text)) oci_spec-OnlyInvalid

  parse-OnlyInvalid : (source : Bytes) → OnlyInvalid (parse probe_of binary_of oci_of source)
  unfolding parse
  parse-OnlyInvalid source = search (failures, spec_of_kind-OnlyInvalid)

  -- A specification that is refused, for its size, its encoding, its version, its document or any
  -- of its fields, is refused as an invalid input.
  pub parse_fails_invalid :
      (source : Bytes) (error : IoError)
      → parse probe_of binary_of oci_of source ≡ err error
      → error ≡ io_error invalid_input
  parse_fails_invalid = parse-OnlyInvalid
