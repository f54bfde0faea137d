-- ===== src/Workload/Spec/Accepted.antt =====
-- The specifications that crates/simferret/src/workload/spec.rs, `WorkloadSpec::parse`, accepts.
use simferret.Prelude.{
  ◌≤◌, ◌≡◌, false, not, List, [], ◌∷◌, Option, Bytes, Text, arith, same_text, Lacks, contains,
  split_on, length, ltb, ◌==◌, required, All, ok, invalid_input, >>=-eq-ok, refuse_if-ok, subst,
}
use simferret.Workload.Limits.{max_arguments, max_specification_bytes, workload_spec_version}
use simferret.Workload.Path.{slash, dots, is_empty, starts_slash}
use simferret.Workload.Fields.{
  locator_components, validate_locator, parse_digest, check_arguments, normalize_arguments,
  normalize_environment,
}
use simferret.Workload.Fields.Digest.{IsDigest, parse_digest_canonical}
use simferret.Workload.Fields.Environment.{IsEnvironment, normalize_environment-IsEnvironment}
use simferret.Workload.Contract.Bounds.{IsArgument, check_arguments-IsArgument}
use simferret.Workload.Utf8.{from_utf8}
use simferret.Workload.Spec.{
  SourceKind, binary, oci, BinarySource, OciSource, WorkloadSource, binary_source, oci_source,
  WorkloadSpec, KindProbe, BinaryDocument, OciDocument, is_binary_kind, binary_spec, oci_spec,
  spec_of_kind, parse,
}

-- A component that neither leaves its directory nor is empty.
pub record StaysBelow (component : Text) : Type 0 where
  pub not_up : same_text component dots ≡ false
  pub filled : is_empty component ≡ false

-- A path below the directory of the specification.
pub record IsLocator (value : Text) : Type 0 where
  pub some_bytes : is_empty value ≡ false
  pub relative : starts_slash value ≡ false
  pub no_nul : Lacks 0 value
  pub below : All StaysBelow (split_on slash value)

locator_components-StaysBelow :
    (components : List Text) → locator_components components ≡ ok tt → All StaysBelow components
unfolding locator_components
locator_components-StaysBelow [] h = tt
locator_components-StaysBelow (component ∷ components) h = (
  record { not_up = ground (arith, h); filled = ground (arith, h) },
  locator_components-StaysBelow components (ground (arith, h)),
)

validate_locator-IsLocator : (value : Text) → validate_locator value ≡ ok tt → IsLocator value
unfolding validate_locator
validate_locator-IsLocator value h =
    let (some_bytes, h₁) = refuse_if-ok (is_empty value) invalid_input _ h in
    let (relative, h₂) = refuse_if-ok (starts_slash value) invalid_input _ h₁ in
    let (no_nul, h₃) = refuse_if-ok (contains value 0) invalid_input _ h₂ in
    record {
      some_bytes = some_bytes;
      relative = relative;
      no_nul = no_nul;
      below = locator_components-StaysBelow (split_on slash value) h₃;
    }

pub record IsBinarySource (source : BinarySource) : Type 0 where
  pub locator : IsLocator (source.path)
  pub has_user : is_empty (source.user) ≡ false
  pub few : length (source.arguments) ≤ max_arguments
  pub each : All IsArgument (source.arguments)
  pub bounded : IsEnvironment (source.environment)

pub record IsOciSource (source : OciSource) : Type 0 where
  pub locator : IsLocator (source.layout)
  pub hex : Text
  pub digest : parse_digest (source.manifest_digest) ≡ ok hex
  pub whole : IsDigest hex

abbrev pub IsSource : WorkloadSource → Type 0
IsSource (binary_source source) = IsBinarySource source
IsSource (oci_source source) = IsOciSource source

normalize_arguments-IsArgument :
    (values arguments : List Text)
    → normalize_arguments values ≡ ok arguments
    → (length values ≤ max_arguments) × All IsArgument values
unfolding normalize_arguments
normalize_arguments-IsArgument values arguments h =
    let (few, h₁) = refuse_if-ok (ltb max_arguments (length values)) invalid_input _ h in
    let (_, checked, same) = >>=-eq-ok (check_arguments values) _ {b = arguments} h₁ in
    (ground (arith, few), (check_arguments-IsArgument values).0 checked)

spec_ok : {s t : WorkloadSpec} → ok s ≡ ok t → s ≡ t
spec_ok h = cc

binary_spec-IsSource :
    (document : BinaryDocument) (spec : WorkloadSpec)
    → binary_spec document ≡ ok spec
    → IsSource (spec.source)
unfolding binary_spec
binary_spec-IsSource document spec h =
    let (kind, h₁) = refuse_if-ok (not (is_binary_kind (document.kind))) invalid_input _ h in
    let (_, locator, h₂) = >>=-eq-ok (validate_locator (document.path)) _ {b = spec} h₁ in
    let (has_user, h₃) = refuse_if-ok (is_empty (document.user)) invalid_input _ h₂ in
    let (arguments, args, h₄) = >>=-eq-ok (normalize_arguments (document.args)) _ {b = spec} h₃ in
    let (environment, env, h₅) = >>=-eq-ok (normalize_environment (document.env)) _ {b = spec} h₄ in
    let (few, each) = normalize_arguments-IsArgument (document.args) arguments args in
    let bounded = ((normalize_environment-IsEnvironment (document.env) environment).0 env).0 in
    subst (λ s. IsSource (s.source)) (spec_ok h₅)
      (record {
        locator = validate_locator-IsLocator (document.path) locator;
        has_user = has_user;
        few = few;
        each = each;
        bounded = bounded;
      })

oci_spec-IsSource :
    (document : OciDocument) (spec : WorkloadSpec)
    → oci_spec document ≡ ok spec
    → IsSource (spec.source)
unfolding oci_spec
oci_spec-IsSource document spec h =
    let (kind, h₁) = refuse_if-ok (is_binary_kind (document.kind)) invalid_input _ h in
    let (_, locator, h₂) = >>=-eq-ok (validate_locator (document.layout)) _ {b = spec} h₁ in
    let (hex, digest, h₃) = >>=-eq-ok (parse_digest (document.manifest_digest)) _ {b = spec} h₂ in
    subst (λ s. IsSource (s.source)) (spec_ok h₃)
      (record {
        locator = validate_locator-IsLocator (document.layout) locator;
        hex = hex;
        digest = digest;
        whole = (parse_digest_canonical (document.manifest_digest) hex digest).0;
      })

module _ (probe_of : Text → Option KindProbe) (binary_of : Text → Option BinaryDocument)
    (oci_of : Text → Option OciDocument) where
  spec_of_kind-IsSource :
      (kind : SourceKind) (text : Text) (spec : WorkloadSpec)
      → spec_of_kind probe_of binary_of oci_of kind text ≡ ok spec
      → IsSource (spec.source)
  spec_of_kind-IsSource binary text spec h =
      let (document, e, k) = >>=-eq-ok (required (binary_of text)) binary_spec {b = spec} h in
      binary_spec-IsSource document spec k
  spec_of_kind-IsSource oci text spec h =
      let (document, e, k) = >>=-eq-ok (required (oci_of text)) oci_spec {b = spec} h in
      oci_spec-IsSource document spec k

  -- A specification that is accepted names a source below its own directory, and a binary source has
  -- a user and bounded arguments and environment, and an OCI source a SHA-256 digest.
  pub parse-IsSource :
      (source : Bytes) (spec : WorkloadSpec)
      → parse probe_of binary_of oci_of source ≡ ok spec
      → (length source ≤ max_specification_bytes) × IsSource (spec.source)
  unfolding parse
  parse-IsSource source spec h =
      let (fits, h₁) =
        refuse_if-ok (ltb max_specification_bytes (length source)) invalid_input _ h in
      let (text, decoded, h₂) = >>=-eq-ok (required (from_utf8 source)) _ {b = spec} h₁ in
      let (probe, probed, h₃) = >>=-eq-ok (required (probe_of text)) _ {b = spec} h₂ in
      let (version, h₄) =
        refuse_if-ok (not (probe.version == workload_spec_version)) invalid_input _ h₃ in
      (ground (arith, fits), spec_of_kind-IsSource (probe.kind) text spec h₄)
