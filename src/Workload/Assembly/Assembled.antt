-- ===== src/Workload/Assembly/Assembled.antt =====
-- crates/simferret/src/workload/store.rs, `binary_tree_and_launch`: the assembled workload.
use simferret.Prelude.{
  ℕ, ◌≡◌, refl, ap, sym, ◌∙◌, List, [], ◌∷◌, some, Bytes, Text, arith, ok, subst, same_self,
  Text-discrete,
}
use simferret.Workload.Limits.{max_view_entries, max_expanded_layer_bytes}
use simferret.Workload.Launch.{LaunchIdentity}
use simferret.Workload.Path.{slash, root_path, ancestors}
use simferret.Workload.Tree.{
  with_directories, Tree, file, get, insert_default_directory, validate_canonical_tree,
}
use simferret.Workload.Tree.Canonical.{Built, new, inserted, defaulted}
use simferret.Workload.Tree.Lookup.{operations-Refines}
use simferret.Workload.Contract.{validate_launch_identity}
use simferret.Workload.Directory.{absolute}
use simferret.Workload.Utf8.{from_utf8}
use simferret.Workload.Assembly.{
  BinaryInput, launch_in, located, installed_tree, binary_tree_and_launch, canonical_spec,
  replay_input,
}
use simferret.Workload.Assembly.Derived.{
  Located, Prepared, located-Located, Prepared-binary_tree_and_launch,
  binary_tree_and_launch-Prepared,
}

abbrev pub rederived_input : BinaryInput → LaunchIdentity → BinaryInput
rederived_input input launch = replay_input (canonical_spec (input.install_path) launch)

-- The input of a replay is prepared as the first one was.
abbrev prepared_again :
    (input : BinaryInput) (p : Prepared input) (directory : Text)
    → Prepared (
        rederived_input input
          (launch_in (p.executable_text) (input.arguments) (input.environment) input directory))
prepared_again input p directory = record {
  install = p.install;
  executable_text = p.executable_text;
  owners = p.owners;
  fixed_path = p.fixed_path;
  normalized = p.normalized;
  not_root = p.not_root;
  printed = p.printed;
  arguments_ok = p.arguments_ok;
  begins = p.begins;
  environment_ok = p.environment_ok;
}

with_directories-Built :
    (paths : List Bytes) {tree : Tree} → Built tree → Built (with_directories tree paths)
unfolding with_directories
with_directories-Built [] h = h
with_directories-Built (path ∷ paths) h = with_directories-Built paths (defaulted h path)

installed_tree-Built :
    (executable install : Bytes) (uid gid : ℕ) → Built (installed_tree executable install uid gid)
unfolding installed_tree
installed_tree-Built executable install uid gid =
    inserted (with_directories-Built (ancestors install) (defaulted new root_path)) install
      (file executable 493 uid gid 0)

get-installed_tree :
    (executable install : Bytes) (uid gid : ℕ)
    → get (installed_tree executable install uid gid) install ≡ some (file executable 493 uid gid 0)
unfolding installed_tree
get-installed_tree executable install uid gid =
    let directories =
      with_directories (insert_default_directory [] root_path) (ancestors install) in
    (operations-Refines directories install (file executable 493 uid gid 0) install).inserts
    ∙ rw (same_self Text-discrete install) refl

printed-slash :
    (install : Bytes) (text : Text)
    → absolute (from_utf8 install) ≡ ok text
    → text ≡ slash ∷ install
unfolding from_utf8
printed-slash install text h = ground (arith, h)

-- What a binary workload is assembled to.
pub record IsAssembled (executable : Bytes) (input : BinaryInput) (tree : Tree)
    (launch : LaunchIdentity) : Type 0 where
  pub valid : validate_launch_identity launch ≡ ok tt
  pub bounded : validate_canonical_tree tree max_view_entries max_expanded_layer_bytes ≡ ok tt
  pub built : Built tree
  pub install : Bytes
  pub runs : launch.executable ≡ slash ∷ install
  pub installed : get tree install ≡ some (file executable 493 (launch.uid) (launch.gid) 0)
  pub rederived :
      binary_tree_and_launch executable (rederived_input input launch) ≡ ok (tree, launch)

Prepared-IsAssembled :
    (executable : Bytes) (input : BinaryInput) (p : Prepared input) (directory : Text)
    → Located
        (installed_tree executable (p.install) (input.uid) (input.gid))
        (launch_in (p.executable_text) (input.arguments) (input.environment) input)
        (launch_in (p.executable_text) (input.arguments) (input.environment) input directory)
    → IsAssembled executable input
        (installed_tree executable (p.install) (input.uid) (input.gid))
        (launch_in (p.executable_text) (input.arguments) (input.environment) input directory)
Prepared-IsAssembled executable input p directory h =
    let launch_at = launch_in (p.executable_text) (input.arguments) (input.environment) input in
    let same_directory : h.directory ≡ directory = ap (λ l. l.working_directory) h.launch_eq in
    let tree = installed_tree executable (p.install) (input.uid) (input.gid) in
    record {
      valid = h.valid;
      bounded = h.bounded;
      built = installed_tree-Built executable (p.install) (input.uid) (input.gid);
      install = p.install;
      runs = printed-slash (p.install) (p.executable_text) p.printed;
      installed = get-installed_tree executable (p.install) (input.uid) (input.gid);
      rederived =
          Prepared-binary_tree_and_launch executable (rederived_input input (launch_at directory))
            (prepared_again input p directory)
          ∙ subst (λ d. located tree launch_at d ≡ ok (tree, launch_at directory)) same_directory
              h.again;
    }

-- What a binary input is assembled to is a launch that keeps the launch contract and a tree within the
-- bounds whose executable is the given one, below the root at the launch's path and owned by the
-- launch's user, and assembling the canonical specification of that launch gives the same.
pub binary_tree_and_launch-IsAssembled :
    (executable : Bytes) (input : BinaryInput) (tree : Tree) (launch : LaunchIdentity)
    → binary_tree_and_launch executable input ≡ ok (tree, launch)
    → IsAssembled executable input tree launch
binary_tree_and_launch-IsAssembled executable input tree launch h =
    let p = binary_tree_and_launch-Prepared executable input (tree, launch) h in
    let launch_at = launch_in (p.executable_text) (input.arguments) (input.environment) input in
    let made = installed_tree executable (p.install) (input.uid) (input.gid) in
    let (tree_eq, end) =
      located-Located made tree launch_at (input.working_directory) launch
        (sym (Prepared-binary_tree_and_launch executable input p) ∙ h) in
    subst (λ t. IsAssembled executable input t launch) tree_eq
      (subst (IsAssembled executable input made) end.launch_eq (
        Prepared-IsAssembled executable input p (end.directory)
          (subst (Located made launch_at) (sym end.launch_eq) end)))
