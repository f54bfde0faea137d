-- ===== src/Workload/Image.antt =====
-- crates/simferret/src/workload/oci.rs, `normalize_launch`: the launch of an OCI image's config. A
-- value of `serde_json` is read by a record of its methods.
pub mod Launched
use simferret.Prelude.{
  ℕ, ◌/◌, ◌%◌, Bool, true, false, ◌&&◌, ◌||◌, not, List, [], ◌∷◌, ◌++◌, Option, none, some, Bytes,
  Text, codes, same_text, any, ◌==◌, and_then, if◌then◌else◌, required, Result, ok, err,
  invalid_input, fail, refuse_if, ◌>>=◌, ◌>>◌,
}
use simferret.Checker.Utf8.{from_utf8_lossy}
use simferret.Workload.Launch.{LaunchIdentity}
use simferret.Workload.Path.{slash, is_empty, starts_slash, normalize_layer_path}
use simferret.Workload.Tree.{
  EntryKind, directory_kind, file_kind, symlink_kind, Entry, Tree, get, is_some,
}
use simferret.Workload.Fields.{normalize_arguments, normalize_environment, normalize_user}
use simferret.Workload.Contract.{first_argument, validate_launch_identity}
use simferret.Workload.Directory.{trim_start, normalize_working_directory}

-- The methods of a JSON value and of a JSON object that the code calls.
pub record JsonOps (V O : Type 0) : Type 0 where
  pub is_null : V → Bool
  pub as_str : V → Option Text
  pub as_bool : V → Option Bool
  pub as_array : V → Option (List V)
  pub as_object : V → Option O
  pub get_key : O → Text → Option V
  pub has_no_key : O → Bool

abbrev pub is_file : EntryKind → Bool
is_file directory_kind = false
is_file file_kind = true
is_file symlink_kind = false

-- `mode & 0o111 != 0`
abbrev pub can_execute : ℕ → Bool
can_execute mode = (mode % 2 == 1) || (mode / 8 % 2 == 1) || (mode / 64 % 2 == 1)

-- The path of the first argument, which names an executable file of the tree.
unfoldable pub executable_in : Tree → List Text → Result Bytes
executable_in tree arguments = do
  let executable = first_argument arguments
  refuse_if (not (starts_slash executable)) invalid_input
  relative ← normalize_layer_path (trim_start executable)
  entry ← required (get tree relative)
  refuse_if (not (is_file (entry.kind))) invalid_input
  refuse_if (not (can_execute (entry.mode))) invalid_input
  ok relative

module _ {V O : Type 0} (json : JsonOps V O) where
  -- `required_string`
  unfoldable pub required_string : O → Text → Result Text
  required_string object key = required (and_then (json.get_key object key) (json.as_str))

  -- `filter(|value| !value.is_null())`
  abbrev pub not_null : Option V → Option V
  not_null none = none
  not_null (some value) = if json.is_null value then none else some value

  abbrev pub string_if : Option V → Result (Option Text)
  string_if none = ok none
  string_if (some value) = required (json.as_str value) >>= λ text. ok (some text)

  -- `optional_string_value`
  unfoldable pub optional_string_value : Option V → Result (Option Text)
  optional_string_value value = string_if (not_null value)

  -- The strings of an array.
  unfoldable pub strings_of : List V → Result (List Text)
  strings_of [] = ok []
  strings_of (item ∷ items) = do
    text ← required (json.as_str item)
    texts ← strings_of items
    ok (text ∷ texts)

  abbrev pub list_if : Option V → Result (List Text)
  list_if none = ok []
  list_if (some value) = required (json.as_array value) >>= strings_of

  -- `string_list`
  unfoldable pub string_list : Option V → Result (List Text)
  string_list value = list_if (not_null value)

  abbrev pub environment_if : Option V → Result (List Text)
  environment_if none = ok []
  environment_if (some value) =
      required (json.as_array value) >>= (λ items. strings_of items >>= normalize_environment)

  abbrev pub section_if : Option V → Result (Option O)
  section_if none = ok none
  section_if (some value) = required (json.as_object value) >>= λ section. ok (some section)

  abbrev pub volumes_if : Option V → Result (Unit {0})
  volumes_if none = ok tt
  volumes_if (some value) = do
    volumes ← required (json.as_object value)
    refuse_if (not (json.has_no_key volumes)) invalid_input

  abbrev pub signal_if : Option V → Result (Unit {0})
  signal_if none = ok tt
  signal_if (some value) = do
    signal ← required (json.as_str value)
    refuse_if (not (is_empty signal)) invalid_input

  abbrev pub escaped_if : Option V → Result (Unit {0})
  escaped_if none = ok tt
  escaped_if (some value) = do
    escaped ← required (json.as_bool value)
    refuse_if escaped invalid_input

  -- A field of the launch section.
  abbrev pub field_of : Option O → Text → Option V
  field_of section key = and_then section (λ object. json.get_key object key)

  -- The fields of the launch section that are not supported.
  unfoldable pub check_section : Option O → Result (Unit {0})
  check_section section = do
    volumes_if (not_null (field_of section (codes "Volumes")))
    signal_if (not_null (field_of section (codes "StopSignal")))
    escaped_if (not_null (field_of section (codes "ArgsEscaped")))

  -- The platform that an image must have.
  unfoldable pub check_platform : O → Result (Unit {0})
  check_platform config = do
    architecture ← required_string config (codes "architecture")
    refuse_if (not (same_text architecture (codes "amd64"))) invalid_input
    system ← required_string config (codes "os")
    refuse_if (not (same_text system (codes "linux"))) invalid_input
    refuse_if
        (any (λ key. is_some (json.get_key config key))
          (codes "variant" ∷ codes "os.version" ∷ codes "os.features" ∷ []))
        invalid_input

  -- The end of `normalize_launch`, from the credentials on.
  unfoldable pub launch_of : Option O → Tree → List Text → Bytes → Result LaunchIdentity
  launch_of section tree arguments relative = do
    user ← optional_string_value (field_of section (codes "User"))
    (uid, gid) ← normalize_user user
    environment ← environment_if (not_null (field_of section (codes "Env")))
    given ← optional_string_value (field_of section (codes "WorkingDir"))
    working_directory ← normalize_working_directory given tree
    let launch : LaunchIdentity = record {
      executable = slash ∷ from_utf8_lossy relative;
      arguments = arguments;
      environment = environment;
      working_directory = working_directory;
      uid = uid;
      gid = gid;
    }
    validate_launch_identity launch
    ok launch

  -- `normalize_launch`
  unfoldable pub normalize_launch : O → Tree → Result LaunchIdentity
  normalize_launch config tree = do
    check_platform config
    section ← section_if (not_null (json.get_key config (codes "config")))
    check_section section
    entrypoint ← string_list (field_of section (codes "Entrypoint"))
    command ← string_list (field_of section (codes "Cmd"))
    let given = entrypoint ++ command
    refuse_if (is_empty given) invalid_input
    arguments ← normalize_arguments given
    relative ← executable_in tree arguments
    launch_of section tree arguments relative
