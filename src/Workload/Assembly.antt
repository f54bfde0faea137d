-- ===== src/Workload/Assembly.antt =====
-- crates/simferret/src/workload/store.rs: a binary workload's graph, and its replay from the raw
-- objects. The workload's directory, which root.rs reads, is a function from a locator and a size
-- limit to what the read returns; serde_json is a pair of functions.
pub mod Derived
pub mod Assembled
pub mod Replay
use simferret.Prelude.{
  ℕ, Bool, true, false, ◌&&◌, ◌||◌, not, List, [], ◌∷◌, ◌++◌, Option, none, some, Bytes, Text,
  codes, same_text, ◌==◌, if◌then◌else◌, length, required, Result, ok, err, ErrorKind, IoError,
  io_error, invalid_input, fail, refuse_if, ◌>>=◌, ◌>>◌,
}
use simferret.Workload.Limits.{
  max_view_entries, max_expanded_layer_bytes, max_file_bytes, workload_spec_version,
}
use simferret.Workload.Launch.{LaunchIdentity}
use simferret.Workload.Path.{slash, root_path, ancestors, normalize_layer_path}
use simferret.Workload.Tree.{
  Entry, Tree, file, before, insert, insert_default_directory, with_directories,
  validate_canonical_tree,
}
use simferret.Workload.Fields.{
  normalize_arguments, normalize_environment, normalize_required_user, check_owners,
}
use simferret.Workload.Contract.{validate_launch_identity}
use simferret.Workload.Directory.{absolute, normalize_working_directory}
use simferret.Workload.Utf8.{from_utf8}
use simferret.Workload.Elf.{validate_static_elf}
use simferret.Workload.Spec.{
  SourceKind, binary, oci, is_binary_kind, BinarySource, CanonicalBinarySpec, binary_install_path,
}

-- `LayerEvidence` of crates/simferret/src/workload/oci.rs
pub record LayerEvidence : Type 0 where
  pub media_type : Text
  pub digest : Text
  pub diff_id : Text
  pub bytes : ℕ
  pub expanded : ℕ

-- `WorkloadGraph`
pub record WorkloadGraph : Type 0 where
  pub kind : SourceKind
  pub manifest_digest : Option Text
  pub objects : List (Text × Bytes)
  pub tree : Tree
  pub launch : LaunchIdentity
  pub layers : List LayerEvidence

-- `BinaryInput`
pub record BinaryInput : Type 0 where
  pub install_path : Text
  pub arguments : List Text
  pub environment : List Text
  pub working_directory : Text
  pub uid : ℕ
  pub gid : ℕ

-- `arguments.first() == Some(executable_text)`
abbrev pub begins_with : List Text → Text → Bool
begins_with [] executable = false
begins_with (argument ∷ arguments) executable = same_text argument executable

-- The tree of one executable: mode 0o755, time 0.
unfoldable pub installed_tree : Bytes → Bytes → ℕ → ℕ → Tree
installed_tree executable install uid gid =
    let root = insert_default_directory [] root_path in
    (insert (with_directories root (ancestors install)) install (file executable 493 uid gid 0)).1

-- The launch of the fields so far, with its working directory.
abbrev pub launch_in : Text → List Text → List Text → BinaryInput → Text → LaunchIdentity
launch_in executable_text arguments environment input working_directory = record {
  executable = executable_text;
  arguments = arguments;
  environment = environment;
  working_directory = working_directory;
  uid = input.uid;
  gid = input.gid;
}

-- The end of `binary_tree_and_launch`, from the working directory on.
unfoldable pub located : Tree → (Text → LaunchIdentity) → Text → Result (Tree × LaunchIdentity)
located tree launch_at given = do
  working_directory ← normalize_working_directory (some given) tree
  validate_canonical_tree tree max_view_entries max_expanded_layer_bytes
  validate_launch_identity (launch_at working_directory)
  ok (tree, launch_at working_directory)

-- `binary_tree_and_launch`
unfoldable pub binary_tree_and_launch : Bytes → BinaryInput → Result (Tree × LaunchIdentity)
binary_tree_and_launch executable input = do
  check_owners (input.uid) (input.gid)
  refuse_if (not (same_text (input.install_path) binary_install_path)) invalid_input
  install ← normalize_layer_path (input.install_path)
  refuse_if (same_text install root_path) invalid_input
  executable_text ← absolute (from_utf8 install)
  arguments ← normalize_arguments (input.arguments)
  refuse_if (not (begins_with arguments executable_text)) invalid_input
  environment ← normalize_environment (input.environment)
  located (installed_tree executable install (input.uid) (input.gid))
      (launch_in executable_text arguments environment input) (input.working_directory)

-- `source_locator_error`: the kind of an error without its text.
abbrev pub unavailable {ℓ} : {A : Type ℓ} → Result A → Result A
unavailable (ok value) = ok value
unavailable (err error) = err (io_error (error.kind))

abbrev pub role_executable : Text
role_executable = codes "executable"

abbrev pub role_specification : Text
role_specification = codes "workload-specification"

-- The stable sort of objects by the bytes of their roles.
unfoldable pub sorted_in : Text × Bytes → List (Text × Bytes) → List (Text × Bytes)
sorted_in object [] = object ∷ []
sorted_in object (other ∷ objects) =
    let rest = sorted_in object objects in
    if before (other.0) (object.0) then other ∷ rest else object ∷ other ∷ objects

unfoldable pub sort_by_role : List (Text × Bytes) → List (Text × Bytes)
sort_by_role [] = []
sort_by_role (object ∷ objects) = sorted_in object (sort_by_role objects)

unfoldable pub object_of : List (Text × Bytes) → Text → Option Bytes
object_of [] role = none
object_of ((r, bytes) ∷ objects) role =
    if same_text r role then some bytes else object_of objects role

abbrev pub binary_objects : Bytes → Bytes → List (Text × Bytes)
binary_objects executable specification =
    sort_by_role ((role_executable, executable) ∷ (role_specification, specification) ∷ [])

abbrev pub canonical_spec : Text → LaunchIdentity → CanonicalBinarySpec
canonical_spec install_path launch = record {
  version = workload_spec_version;
  kind = binary;
  install_path = install_path;
  arguments = launch.arguments;
  environment = launch.environment;
  working_directory = launch.working_directory;
  uid = launch.uid;
  gid = launch.gid;
}

abbrev pub binary_workload : List (Text × Bytes) → Tree × LaunchIdentity → WorkloadGraph
binary_workload objects (tree, launch) = record {
  kind = binary;
  manifest_digest = none;
  objects = objects;
  tree = tree;
  launch = launch;
  layers = [];
}

-- `canonical_json`
unfoldable pub canonical_json :
    (CanonicalBinarySpec → Option Bytes) → CanonicalBinarySpec → Result Bytes
canonical_json to_vec value = do bytes ← required (to_vec value); ok (bytes ++ 10 ∷ [])

module _ (read_file : Text → ℕ → Result Bytes) (to_vec : CanonicalBinarySpec → Option Bytes) where
  -- `binary_graph`
  unfoldable pub binary_graph : BinarySource → Result WorkloadGraph
  binary_graph source = do
    executable ← unavailable (read_file (source.path) max_file_bytes)
    validate_static_elf executable
    (uid, gid) ← normalize_required_user (source.user)
    install ← normalize_layer_path binary_install_path
    arguments ← normalize_arguments (source.arguments)
    environment ← normalize_environment (source.environment)
    let input : BinaryInput = record {
      install_path = binary_install_path;
      arguments = (slash ∷ install) ∷ arguments;
      environment = environment;
      working_directory = source.working_directory;
      uid = uid;
      gid = gid;
    }
    (tree, launch) ← binary_tree_and_launch executable input
    specification ← canonical_json to_vec (canonical_spec (input.install_path) launch)
    ok (binary_workload (binary_objects executable specification) (tree, launch))

-- What is re-derived from a canonical specification.
abbrev pub replay_input : CanonicalBinarySpec → BinaryInput
replay_input canonical = record {
  install_path = canonical.install_path;
  arguments = canonical.arguments;
  environment = canonical.environment;
  working_directory = canonical.working_directory;
  uid = canonical.uid;
  gid = canonical.gid;
}

module _ (from_slice : Bytes → Option CanonicalBinarySpec) where
  -- `replay_graph` for a binary closure.
  unfoldable pub replay_graph : List (Text × Bytes) → Result WorkloadGraph
  replay_graph objects = do
    specification ← required (object_of objects role_specification)
    executable ← required (object_of objects role_executable)
    refuse_if (not (length objects == 2)) invalid_input
    canonical ← required (from_slice specification)
    refuse_if
        (not (canonical.version == workload_spec_version) || not (is_binary_kind (canonical.kind)))
        invalid_input
    validate_static_elf executable
    derived ← binary_tree_and_launch executable (replay_input canonical)
    ok (binary_workload (sort_by_role objects) derived)
