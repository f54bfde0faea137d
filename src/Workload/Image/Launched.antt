-- ===== src/Workload/Image/Launched.antt =====
-- The launches that crates/simferret/src/workload/oci.rs, `normalize_launch`, gives.
use simferret.Prelude.{
  ◌≡◌, refl, Bool, true, false, not, List, ◌∷◌, ◌++◌, Option, some, Bytes, Text, arith, codes,
  required, required-ok, ok, invalid_input, >>=-eq-ok, refuse_if-ok, subst,
}
use simferret.Checker.Utf8.{from_utf8_lossy}
use simferret.Workload.Launch.{LaunchIdentity}
use simferret.Workload.Path.{slash, is_empty, starts_slash, normalize_layer_path}
use simferret.Workload.Path.Normal.{IsNormal, normalize_layer_path-normalize_layer_path}
use simferret.Workload.Tree.{Entry, Tree, get}
use simferret.Workload.Fields.{normalize_arguments, normalize_user}
use simferret.Workload.Contract.{first_argument, validate_launch_identity}
use simferret.Workload.Directory.{trim_start, normalize_working_directory}
use simferret.Workload.Directory.Normalized.{
  normalize_working_directory-normalize_working_directory,
}
use simferret.Workload.Image.{
  JsonOps, is_file, can_execute, executable_in, not_null, optional_string_value, string_list,
  environment_if, section_if, field_of, check_section, check_platform, launch_of, normalize_launch,
}

-- A file of a tree that a launch executes.
pub record IsProgramOf (tree : Tree) (arguments : List Text) (relative : Bytes) : Type 0 where
  pub absolute : starts_slash (first_argument arguments) ≡ true
  pub named : normalize_layer_path (trim_start (first_argument arguments)) ≡ ok relative
  pub normal : IsNormal relative
  pub entry : Entry
  pub found : get tree relative ≡ some entry
  pub is_regular : is_file (entry.kind) ≡ true
  pub may_execute : can_execute (entry.mode) ≡ true

holds-not_refused : (b : Bool) → not b ≡ false → b ≡ true
holds-not_refused b h = ground arith

bytes_ok : {s t : Bytes} → ok s ≡ ok t → s ≡ t
bytes_ok h = cc

launch_ok : {l m : LaunchIdentity} → ok l ≡ ok m → l ≡ m
launch_ok h = cc

executable_in-IsProgramOf :
    (tree : Tree) (arguments : List Text) (relative : Bytes)
    → executable_in tree arguments ≡ ok relative
    → IsProgramOf tree arguments relative
unfolding executable_in
executable_in-IsProgramOf tree arguments relative h =
    let executable = first_argument arguments in
    let (absolute, h₁) = refuse_if-ok (not (starts_slash executable)) invalid_input _ h in
    let (path, named, h₂) =
      >>=-eq-ok (normalize_layer_path (trim_start executable)) _ {b = relative} h₁ in
    let (entry, found, h₃) = >>=-eq-ok (required (get tree path)) _ {b = relative} h₂ in
    let (regular, h₄) = refuse_if-ok (not (is_file (entry.kind))) invalid_input _ h₃ in
    let (executes, h₅) = refuse_if-ok (not (can_execute (entry.mode))) invalid_input _ h₄ in
    subst (IsProgramOf tree arguments) (bytes_ok h₅) (record {
      absolute = holds-not_refused (starts_slash executable) absolute;
      named = named;
      normal = (normalize_layer_path-normalize_layer_path (trim_start executable) path named).0;
      entry = entry;
      found = required-ok (get tree path) found;
      is_regular = holds-not_refused (is_file (entry.kind)) regular;
      may_execute = holds-not_refused (can_execute (entry.mode)) executes;
    })

-- What an image's launch is in the image's tree.
pub record IsImageLaunch (tree : Tree) (launch : LaunchIdentity) : Type 0 where
  pub relative : Bytes
  pub program : IsProgramOf tree (launch.arguments) relative
  pub runs : launch.executable ≡ slash ∷ from_utf8_lossy relative
  pub directory_kept :
      normalize_working_directory (some (launch.working_directory)) tree
      ≡ ok (launch.working_directory)
  pub valid : validate_launch_identity launch ≡ ok tt

module _ {V O : Type 0} (json : JsonOps V O) where
  launch_of-IsImageLaunch :
      (section : Option O) (tree : Tree) (arguments : List Text) (relative : Bytes)
      (launch : LaunchIdentity)
      → IsProgramOf tree arguments relative
      → launch_of json section tree arguments relative ≡ ok launch
      → IsImageLaunch tree launch
  unfolding launch_of
  launch_of-IsImageLaunch section tree arguments relative launch program h =
      let (user, e₁, h₁) =
        >>=-eq-ok (optional_string_value json (field_of json section (codes "User"))) _ {b = launch}
          h in
      let ((uid, gid), e₂, h₂) = >>=-eq-ok (normalize_user user) _ {b = launch} h₁ in
      let (environment, e₃, h₃) =
        >>=-eq-ok (environment_if json (not_null json (field_of json section (codes "Env")))) _
          {b = launch} h₂ in
      let (given, e₄, h₄) =
        >>=-eq-ok (optional_string_value json (field_of json section (codes "WorkingDir"))) _
          {b = launch} h₃ in
      let (directory, e₅, h₅) =
        >>=-eq-ok (normalize_working_directory given tree) _ {b = launch} h₄ in
      let made : LaunchIdentity = record {
        executable = slash ∷ from_utf8_lossy relative;
        arguments = arguments;
        environment = environment;
        working_directory = directory;
        uid = uid;
        gid = gid;
      } in
      let (_, valid, shape) = >>=-eq-ok (validate_launch_identity made) _ {b = launch} h₅ in
      let kept =
        (normalize_working_directory-normalize_working_directory given tree directory e₅).1 in
      subst (IsImageLaunch tree) (launch_ok shape) (record {
        relative = relative;
        program = program;
        runs = refl;
        directory_kept = kept;
        valid = valid;
      })

  -- The launch of an image keeps the launch contract, its first argument is an absolute path that
  -- names, in normal form, an executable regular file of the image's tree, which is what is executed,
  -- and its working directory is one that the tree accepts and leaves as it is.
  pub normalize_launch-IsImageLaunch :
      (config : O) (tree : Tree) (launch : LaunchIdentity)
      → normalize_launch json config tree ≡ ok launch
      → IsImageLaunch tree launch
  unfolding normalize_launch
  normalize_launch-IsImageLaunch config tree launch h =
      let (_, platform, h₁) = >>=-eq-ok (check_platform json config) _ {b = launch} h in
      let (section, e₂, h₂) =
        >>=-eq-ok (section_if json (not_null json (json.get_key config (codes "config")))) _
          {b = launch} h₁ in
      let (_, supported, h₃) = >>=-eq-ok (check_section json section) _ {b = launch} h₂ in
      let (entrypoint, e₄, h₄) =
        >>=-eq-ok (string_list json (field_of json section (codes "Entrypoint"))) _ {b = launch}
          h₃ in
      let (command, e₅, h₅) =
        >>=-eq-ok (string_list json (field_of json section (codes "Cmd"))) _ {b = launch} h₄ in
      let (filled, h₆) = refuse_if-ok (is_empty (entrypoint ++ command)) invalid_input _ h₅ in
      let (arguments, e₇, h₇) =
        >>=-eq-ok (normalize_arguments (entrypoint ++ command)) _ {b = launch} h₆ in
      let (relative, e₈, h₈) =
        >>=-eq-ok (executable_in tree arguments) (launch_of json section tree arguments)
          {b = launch} h₇ in
      launch_of-IsImageLaunch section tree arguments relative launch
        (executable_in-IsProgramOf tree arguments relative e₈) h₈
