-- ===== src/Workload/Assembly/Derived.antt =====
-- crates/simferret/src/workload/store.rs, `binary_tree_and_launch`: what it derives.
use simferret.Prelude.{
  ◌≡◌, refl, ap, sym, ◌∙◌, false, not, List, some, Bytes, Text, same_text, Result, ok,
  invalid_input, >>=-eq-ok, refuse_if-ok, subst, ltb, length,
}
use simferret.Workload.Limits.{max_arguments, max_view_entries, max_expanded_layer_bytes}
use simferret.Workload.Launch.{LaunchIdentity}
use simferret.Workload.Path.{root_path, normalize_layer_path}
use simferret.Workload.Tree.{Tree, validate_canonical_tree}
use simferret.Workload.Fields.{
  check_arguments, normalize_arguments, normalize_environment, check_owners,
}
use simferret.Workload.Fields.Environment.{normalize_environment-IsEnvironment}
use simferret.Workload.Contract.{validate_launch_identity}
use simferret.Workload.Directory.{absolute, normalize_working_directory}
use simferret.Workload.Directory.Normalized.{
  normalize_working_directory-normalize_working_directory,
}
use simferret.Workload.Utf8.{from_utf8}
use simferret.Workload.Spec.{binary_install_path}
use simferret.Workload.Assembly.{
  BinaryInput, begins_with, launch_in, located, installed_tree, binary_tree_and_launch,
}

normalize_arguments_same :
    (values arguments : List Text) → normalize_arguments values ≡ ok arguments → values ≡ arguments
unfolding normalize_arguments
normalize_arguments_same values arguments h =
    let (few, h₁) = refuse_if-ok (ltb max_arguments (length values)) invalid_input _ h in
    let (_, checked, same) = >>=-eq-ok (check_arguments values) _ {b = arguments} h₁ in cc (same)

abbrev derived_as : Tree → LaunchIdentity → Result (Tree × LaunchIdentity)
derived_as tree launch = ok (tree, launch)

same_result :
    {s t : Tree} {l m : LaunchIdentity} → derived_as s l ≡ derived_as t m → (s ≡ t) × (l ≡ m)
same_result h = (cc, cc)

-- The end of a derivation.
pub record Located (tree : Tree) (launch_at : Text → LaunchIdentity) (launch : LaunchIdentity)
    : Type 0 where
  pub directory : Text
  pub launch_eq : launch_at directory ≡ launch
  pub path_kept : normalize_working_directory (some directory) tree ≡ ok directory
  pub bounded : validate_canonical_tree tree max_view_entries max_expanded_layer_bytes ≡ ok tt
  pub valid : validate_launch_identity launch ≡ ok tt
  pub again : located tree launch_at directory ≡ ok (tree, launch)

located_again :
    (tree : Tree) (launch_at : Text → LaunchIdentity) (given directory : Text)
    → normalize_working_directory (some given) tree ≡ ok directory
    → validate_canonical_tree tree max_view_entries max_expanded_layer_bytes ≡ ok tt
    → validate_launch_identity (launch_at directory) ≡ ok tt
    → located tree launch_at given ≡ ok (tree, launch_at directory)
unfolding located
located_again tree launch_at given directory d b v = rw d (rw b (rw v refl))

pub located-Located :
    (made tree : Tree) (launch_at : Text → LaunchIdentity) (given : Text) (launch : LaunchIdentity)
    → located made launch_at given ≡ ok (tree, launch)
    → (made ≡ tree) × Located made launch_at launch
unfolding located
located-Located made tree launch_at given launch h =
    let result : Tree × LaunchIdentity = (tree, launch) in
    let (directory, dir, h₁) =
      >>=-eq-ok (normalize_working_directory (some given) made) _ {b = result} h in
    let (_, bounded, h₂) =
      >>=-eq-ok (validate_canonical_tree made max_view_entries max_expanded_layer_bytes) _
        {b = result} h₁ in
    let (_, valid, shape) =
      >>=-eq-ok (validate_launch_identity (launch_at directory)) _ {b = result} h₂ in
    let (tree_eq, launch_eq) = same_result shape in
    let kept =
      (normalize_working_directory-normalize_working_directory (some given) made directory dir).1 in
    (
      tree_eq,
      record {
        directory = directory;
        launch_eq = launch_eq;
        path_kept = kept;
        bounded = bounded;
        valid = subst (λ l. validate_launch_identity l ≡ ok tt) launch_eq valid;
        again =
            subst (λ l. located made launch_at directory ≡ ok (made, l)) launch_eq
              (located_again made launch_at directory directory kept bounded valid);
      },
    )

-- The steps before the end: the install path, the text of the executable, and the fields that are
-- taken as they are.
pub record Prepared (input : BinaryInput) : Type 0 where
  pub install : Bytes
  pub executable_text : Text
  pub owners : check_owners (input.uid) (input.gid) ≡ ok tt
  pub fixed_path : not (same_text (input.install_path) binary_install_path) ≡ false
  pub normalized : normalize_layer_path (input.install_path) ≡ ok install
  pub not_root : same_text install root_path ≡ false
  pub printed : absolute (from_utf8 install) ≡ ok executable_text
  pub arguments_ok : normalize_arguments (input.arguments) ≡ ok (input.arguments)
  pub begins : not (begins_with (input.arguments) executable_text) ≡ false
  pub environment_ok : normalize_environment (input.environment) ≡ ok (input.environment)

abbrev ended :
    (executable : Bytes) (input : BinaryInput) → Prepared input → Result (Tree × LaunchIdentity)
ended executable input prepared =
    located (installed_tree executable (prepared.install) (input.uid) (input.gid))
      (launch_in (prepared.executable_text) (input.arguments) (input.environment) input)
      (input.working_directory)

pub Prepared-binary_tree_and_launch :
    (executable : Bytes) (input : BinaryInput) (p : Prepared input)
    → binary_tree_and_launch executable input ≡ ended executable input p
unfolding binary_tree_and_launch
Prepared-binary_tree_and_launch executable input p = rw p.owners (
    rw p.fixed_path (
      rw p.normalized (
        rw p.not_root (rw p.printed (rw p.arguments_ok (rw p.begins (rw p.environment_ok refl)))))))

pub binary_tree_and_launch-Prepared :
    (executable : Bytes) (input : BinaryInput) (result : Tree × LaunchIdentity)
    → binary_tree_and_launch executable input ≡ ok result
    → Prepared input
unfolding binary_tree_and_launch
binary_tree_and_launch-Prepared executable input result h =
    let (_, owners, h₁) = >>=-eq-ok (check_owners (input.uid) (input.gid)) _ {b = result} h in
    let (fixed_path, h₂) =
      refuse_if-ok (not (same_text (input.install_path) binary_install_path)) invalid_input _ h₁ in
    let (install, normalized, h₃) =
      >>=-eq-ok (normalize_layer_path (input.install_path)) _ {b = result} h₂ in
    let (not_root, h₄) = refuse_if-ok (same_text install root_path) invalid_input _ h₃ in
    let (text, printed, h₅) = >>=-eq-ok (absolute (from_utf8 install)) _ {b = result} h₄ in
    let (arguments, args, h₆) =
      >>=-eq-ok (normalize_arguments (input.arguments)) _ {b = result} h₅ in
    let (begins, h₇) = refuse_if-ok (not (begins_with arguments text)) invalid_input _ h₆ in
    let (environment, env, h₈) =
      >>=-eq-ok (normalize_environment (input.environment)) _ {b = result} h₇ in
    let same_arguments = normalize_arguments_same (input.arguments) arguments args in
    let same_environment =
      ((normalize_environment-IsEnvironment (input.environment) environment).0 env).1 in
    record {
      install = install;
      executable_text = text;
      owners = owners;
      fixed_path = fixed_path;
      normalized = normalized;
      not_root = not_root;
      printed = printed;
      arguments_ok = args ∙ ap ok (sym same_arguments);
      begins = subst (λ a. not (begins_with a text) ≡ false) (sym same_arguments) begins;
      environment_ok = env ∙ ap ok (sym same_environment);
    }
