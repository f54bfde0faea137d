-- ===== src/Workload/Spec.antt =====
-- crates/simferret/src/workload/spec.rs: the workload specification and its parsing. `toml` is a
-- triple of functions, one for each document; an error of `toml` is an invalid input.
pub mod Errors
pub mod Accepted
use simferret.Prelude.{
  ℕ, Bool, true, false, ◌||◌, not, List, [], ◌∷◌, Option, none, some, Bytes, Text, codes, ltb, ◌==◌,
  length, Result, ok, err, invalid_input, fail, refuse_if, ◌>>=◌, ◌>>◌, required,
}
use simferret.Workload.Limits.{max_specification_bytes, workload_spec_version}
use simferret.Workload.Path.{is_empty}
use simferret.Workload.Fields.{
  validate_locator, parse_digest, normalize_arguments, normalize_environment,
}
use simferret.Workload.Utf8.{from_utf8}

-- `BINARY_INSTALL_PATH`
abbrev pub binary_install_path : Text
binary_install_path = codes "bin/simferret-workload"

-- `SourceKind`
pub data SourceKind : Type 0 where
  binary oci : SourceKind

-- `BinarySource`
pub record BinarySource : Type 0 where
  pub path : Text
  pub arguments : List Text
  pub environment : List Text
  pub working_directory : Text
  pub user : Text

-- `OciSource`
pub record OciSource : Type 0 where
  pub layout : Text
  pub manifest_digest : Text

-- `WorkloadSource`
pub data WorkloadSource : Type 0 where
  binary_source : BinarySource → WorkloadSource
  oci_source : OciSource → WorkloadSource

-- `WorkloadSpec`
pub record WorkloadSpec : Type 0 where
  pub version : ℕ
  pub source : WorkloadSource

-- `KindProbe`
pub record KindProbe : Type 0 where
  pub version : ℕ
  pub kind : SourceKind

-- `BinaryDocument`
pub record BinaryDocument : Type 0 where
  pub version : ℕ
  pub kind : SourceKind
  pub path : Text
  pub args : List Text
  pub env : List Text
  pub working_directory : Text
  pub user : Text

-- `OciDocument`
pub record OciDocument : Type 0 where
  pub version : ℕ
  pub kind : SourceKind
  pub layout : Text
  pub manifest_digest : Text

-- `CanonicalBinarySpec`
pub record CanonicalBinarySpec : Type 0 where
  pub version : ℕ
  pub kind : SourceKind
  pub install_path : Text
  pub arguments : List Text
  pub environment : List Text
  pub working_directory : Text
  pub uid : ℕ
  pub gid : ℕ

abbrev pub is_binary_kind : SourceKind → Bool
is_binary_kind binary = true
is_binary_kind oci = false

-- The checks of a binary document.
unfoldable pub binary_spec : BinaryDocument → Result WorkloadSpec
binary_spec document = do
  refuse_if (not (is_binary_kind (document.kind))) invalid_input
  validate_locator (document.path)
  refuse_if (is_empty (document.user)) invalid_input
  _ ← normalize_arguments (document.args)
  _ ← normalize_environment (document.env)
  ok (record {
    version = document.version;
    source = binary_source (record {
      path = document.path;
      arguments = document.args;
      environment = document.env;
      working_directory = document.working_directory;
      user = document.user;
    });
  })

-- The checks of an OCI document.
unfoldable pub oci_spec : OciDocument → Result WorkloadSpec
oci_spec document = do
  refuse_if (is_binary_kind (document.kind)) invalid_input
  validate_locator (document.layout)
  _ ← parse_digest (document.manifest_digest)
  ok (record {
    version = document.version;
    source =
        oci_source
          (record { layout = document.layout; manifest_digest = document.manifest_digest });
  })

module _ (probe_of : Text → Option KindProbe) (binary_of : Text → Option BinaryDocument)
    (oci_of : Text → Option OciDocument) where
  abbrev pub spec_of_kind : SourceKind → Text → Result WorkloadSpec
  spec_of_kind binary text = required (binary_of text) >>= binary_spec
  spec_of_kind oci text = required (oci_of text) >>= oci_spec

  -- `WorkloadSpec::parse`
  unfoldable pub parse : Bytes → Result WorkloadSpec
  parse source = do
    refuse_if (ltb max_specification_bytes (length source)) invalid_input
    text ← required (from_utf8 source)
    probe ← required (probe_of text)
    refuse_if (not (probe.version == workload_spec_version)) invalid_input
    spec_of_kind (probe.kind) text
