-- ===== src/Workload/Assembly/Replay.antt =====
-- crates/simferret/src/workload/store.rs: a binary workload and its replay from the raw objects.
use simferret.Prelude.{
  ℕ, ◌≡◌, refl, ap, false, not, [], ◌∷◌, ◌++◌, Option, some, Bytes, Text, length, ◌==◌, required,
  required-ok, Result, ok, ◌>>=◌, >>=-eq-ok, subst, Text-discrete, ℕ_discrete,
}
use simferret.Workload.Limits.{max_file_bytes}
use simferret.Workload.Launch.{LaunchIdentity}
use simferret.Workload.Path.{slash, normalize_layer_path}
use simferret.Workload.Tree.{Tree, before}
use simferret.Workload.Fields.{normalize_arguments, normalize_environment, normalize_required_user}
use simferret.Workload.Elf.{validate_static_elf}
use simferret.Workload.Spec.{BinarySource, CanonicalBinarySpec, binary_install_path}
use simferret.Workload.Assembly.{
  WorkloadGraph, BinaryInput, binary_tree_and_launch, unavailable, role_executable,
  role_specification, sorted_in, sort_by_role, object_of, binary_objects, canonical_spec,
  binary_workload, canonical_json, binary_graph, replay_graph,
}
use simferret.Workload.Assembly.Assembled.{rederived_input, binary_tree_and_launch-IsAssembled}

-- The steps of a binary workload's graph.
pub record IsGraph (to_vec : CanonicalBinarySpec → Option Bytes) (graph : WorkloadGraph)
    : Type 0 where
  pub executable : Bytes
  pub input : BinaryInput
  pub tree : Tree
  pub launch : LaunchIdentity
  pub specification : Bytes
  pub static_elf : validate_static_elf executable ≡ ok tt
  pub derived : binary_tree_and_launch executable input ≡ ok (tree, launch)
  pub recorded :
      canonical_json to_vec (canonical_spec (input.install_path) launch) ≡ ok specification
  pub graph_eq : binary_workload (binary_objects executable specification) (tree, launch) ≡ graph

abbrev finished :
    (CanonicalBinarySpec → Option Bytes)
    → Bytes
    → BinaryInput
    → Tree × LaunchIdentity
    → Result WorkloadGraph
finished to_vec executable input (tree, launch) = do
  specification ← canonical_json to_vec (canonical_spec (input.install_path) launch)
  ok (binary_workload (binary_objects executable specification) (tree, launch))

graph_ok : (g h : WorkloadGraph) → ok g ≡ ok h → g ≡ h
graph_ok g h e = cc

binary_graph-IsGraph :
    (read_file : Text → ℕ → Result Bytes) (to_vec : CanonicalBinarySpec → Option Bytes)
    (source : BinarySource) (graph : WorkloadGraph)
    → binary_graph read_file to_vec source ≡ ok graph
    → IsGraph to_vec graph
unfolding binary_graph
binary_graph-IsGraph read_file to_vec source graph h =
    let (executable, read, h₁) =
      >>=-eq-ok (unavailable (read_file (source.path) max_file_bytes)) _ {b = graph} h in
    let (_, static_elf, h₂) = >>=-eq-ok (validate_static_elf executable) _ {b = graph} h₁ in
    let ((uid, gid), user, h₃) =
      >>=-eq-ok (normalize_required_user (source.user)) _ {b = graph} h₂ in
    let (install, path, h₄) =
      >>=-eq-ok (normalize_layer_path binary_install_path) _ {b = graph} h₃ in
    let (arguments, args, h₅) =
      >>=-eq-ok (normalize_arguments (source.arguments)) _ {b = graph} h₄ in
    let (environment, env, h₆) =
      >>=-eq-ok (normalize_environment (source.environment)) _ {b = graph} h₅ in
    let input : BinaryInput = record {
      install_path = binary_install_path;
      arguments = (slash ∷ install) ∷ arguments;
      environment = environment;
      working_directory = source.working_directory;
      uid = uid;
      gid = gid;
    } in
    let ((tree, launch), derived, h₇) =
      >>=-eq-ok (binary_tree_and_launch executable input) (finished to_vec executable input)
        {b = graph} h₆ in
    let (specification, recorded, shape) =
      >>=-eq-ok (canonical_json to_vec (canonical_spec (input.install_path) launch)) _ {b = graph}
        h₇ in
    record {
      executable = executable;
      input = input;
      tree = tree;
      launch = launch;
      specification = specification;
      static_elf = static_elf;
      derived = derived;
      recorded = recorded;
      graph_eq = graph_ok _ graph shape;
    }

specification-found :
    (executable specification : Bytes)
    → object_of (binary_objects executable specification) role_specification ≡ some specification
unfolding object_of sort_by_role sorted_in before Text-discrete ℕ_discrete
specification-found executable specification = refl

executable-found :
    (executable specification : Bytes)
    → object_of (binary_objects executable specification) role_executable ≡ some executable
unfolding object_of sort_by_role sorted_in before Text-discrete ℕ_discrete
executable-found executable specification = refl

two_objects :
    (executable specification : Bytes)
    → (not (length (binary_objects executable specification) == 2) ≡ false)
      × (sort_by_role (binary_objects executable specification)
          ≡ binary_objects executable specification)
unfolding sort_by_role sorted_in before
two_objects executable specification = (refl, refl)

-- A JSON codec that reads back what it wrote, also with a newline behind it.
abbrev pub ReadsBack :
    (CanonicalBinarySpec → Option Bytes) → (Bytes → Option CanonicalBinarySpec) → Type 0
ReadsBack to_vec from_slice =
    (value : CanonicalBinarySpec) (bytes : Bytes)
    → to_vec value ≡ some bytes
    → from_slice (bytes ++ 10 ∷ []) ≡ some value

canonical_json_read_back :
    (to_vec : CanonicalBinarySpec → Option Bytes) (from_slice : Bytes → Option CanonicalBinarySpec)
    (value : CanonicalBinarySpec) (bytes : Bytes)
    → ReadsBack to_vec from_slice
    → canonical_json to_vec value ≡ ok bytes
    → from_slice bytes ≡ some value
unfolding canonical_json
canonical_json_read_back to_vec from_slice value bytes h e =
    let (written, e₁, e₂) = >>=-eq-ok (required (to_vec value)) _ {b = bytes} e in
    subst (λ b. from_slice b ≡ some value) (cc (e₂))
      (h value written (required-ok (to_vec value) e₁))

IsGraph-replay_graph :
    (to_vec : CanonicalBinarySpec → Option Bytes) (from_slice : Bytes → Option CanonicalBinarySpec)
    (executable specification : Bytes) (input : BinaryInput) (tree : Tree) (launch : LaunchIdentity)
    → from_slice specification ≡ some (canonical_spec (input.install_path) launch)
    → validate_static_elf executable ≡ ok tt
    → binary_tree_and_launch executable (rederived_input input launch) ≡ ok (tree, launch)
    → replay_graph from_slice (binary_objects executable specification)
      ≡ ok (binary_workload (binary_objects executable specification) (tree, launch))
unfolding replay_graph
IsGraph-replay_graph to_vec from_slice executable specification input tree launch e f g =
    let (two, sorted) = two_objects executable specification in
    rw (specification-found executable specification) (
      rw (executable-found executable specification)
        (rw two (rw e (rw f (rw g (ap (λ o. ok (binary_workload o (tree, launch))) sorted))))))

-- With a JSON codec that reads back what it wrote, replaying the raw objects of an assembled binary
-- workload gives the same graph: the same objects, tree and launch identity.
pub replay_graph-binary_graph :
    (read_file : Text → ℕ → Result Bytes) (to_vec : CanonicalBinarySpec → Option Bytes)
    (from_slice : Bytes → Option CanonicalBinarySpec) (source : BinarySource)
    (graph : WorkloadGraph)
    → ReadsBack to_vec from_slice
    → binary_graph read_file to_vec source ≡ ok graph
    → replay_graph from_slice (graph.objects) ≡ ok graph
replay_graph-binary_graph read_file to_vec from_slice source graph h e =
    let g = binary_graph-IsGraph read_file to_vec source graph e in
    let assembled =
      binary_tree_and_launch-IsAssembled (g.executable) (g.input) (g.tree) (g.launch) g.derived in
    let canonical = canonical_spec (g.input.install_path) (g.launch) in
    let read =
      canonical_json_read_back to_vec from_slice canonical (g.specification) h g.recorded in
    subst (λ r. replay_graph from_slice (r.objects) ≡ ok r) g.graph_eq
      (IsGraph-replay_graph to_vec from_slice (g.executable) (g.specification) (g.input) (g.tree)
        (g.launch) read g.static_elf assembled.rederived)
