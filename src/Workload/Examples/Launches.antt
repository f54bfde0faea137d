-- ===== src/Workload/Examples/Launches.antt =====
-- Launches, specifications and an assembled workload, for the theorems about
-- crates/simferret/src/workload.
use simferret.Prelude.{
  ℕ, ◌≡◌, refl, ap, sym, ◌↔◌, ◌⊎◌, true, List, [], ◌∷◌, ◌++◌, Option, none, some, Bytes, Text,
  codes, arith, same, same→eq, if◌then◌else◌, split_on, join_with, starts_with, Result, ok, err,
  io_error, invalid_input, same_text, same_self, Bool-cases, inl, inr, Text-discrete, ℕ_discrete,
}
use simferret.Workload.Launch.{LaunchIdentity}
use simferret.Workload.Path.{
  root_path, before_last, parent_of, chain_from, ancestors, layer_parts, normalize_layer_path,
}
use simferret.Workload.Tree.{
  with_directories, Tree, default_directory, file, before, get, contains_path, placed, insert,
  insert_default_directory, expanded_bytes, validate_canonical_tree,
}
use simferret.Workload.Fields.{
  locator_components, validate_locator, check_arguments, normalize_arguments, name_of,
  check_entries, normalize_environment, parse_digits, check_owners, parse_user,
  normalize_required_user,
}
use simferret.Workload.Contract.{validate_launch_path, validate_launch_identity}
use simferret.Workload.Contract.Bounds.{IsLaunch, validate_launch_identity-IsLaunch}
use simferret.Workload.Utf8.{valid_from, from_utf8}
use simferret.Workload.Directory.{
  trim_start, trim_end, trim_slashes, relative_of, directory_text, normalize_working_directory,
}
use simferret.Workload.Overlay.{
  overlay_tmp, overlay_dev, below_or_at, check_overlay, validate_overlay_compatibility,
}
use simferret.Workload.Overlay.Surviving.{
  without_overlay, replaces_directories, validate_overlay_compatibility_survives,
}
use simferret.Workload.Spec.{
  binary, BinarySource, KindProbe, BinaryDocument, OciDocument, CanonicalBinarySpec,
  binary_install_path, binary_spec, parse,
}
use simferret.Workload.Spec.Errors.{parse_fails_invalid}
use simferret.Workload.Assembly.{
  WorkloadGraph, BinaryInput, located, binary_tree_and_launch, installed_tree, binary_graph,
  replay_graph, canonical_json, binary_objects, binary_workload, canonical_spec,
}
use simferret.Workload.Assembly.Assembled.{IsAssembled, binary_tree_and_launch-IsAssembled}
use simferret.Workload.Assembly.Replay.{ReadsBack, replay_graph-binary_graph}
use simferret.Workload.Examples.{elf_file, elf_accepted}

abbrev program : Text
program = codes "/bin/simferret-workload"

abbrev environment_entries : List Text
environment_entries = codes "A=1" ∷ codes "B=" ∷ []

abbrev launch : LaunchIdentity
launch = record {
  executable = program;
  arguments = program ∷ codes "serve" ∷ [];
  environment = environment_entries;
  working_directory = codes "/";
  uid = 65534;
  gid = 1000;
}

validate_launch_identity-IsLaunch_example :
    (validate_launch_identity launch ≡ ok tt) ↔ IsLaunch launch
validate_launch_identity-IsLaunch_example =
    validate_launch_identity-IsLaunch launch (omega arith) (omega arith)

launch_accepted : validate_launch_identity launch ≡ ok tt
unfolding validate_launch_identity validate_launch_path check_arguments check_entries name_of
    check_owners split_on Text-discrete ℕ_discrete
launch_accepted = refl

abbrev input : BinaryInput
input = record {
  install_path = binary_install_path;
  arguments = launch.arguments;
  environment = launch.environment;
  working_directory = codes "//";
  uid = 65534;
  gid = 1000;
}

abbrev tree : Tree
tree =
    (root_path, default_directory)
    ∷ (codes "bin", default_directory)
    ∷ (binary_install_path, file elf_file 493 65534 1000 0)
    ∷ []

assembled : binary_tree_and_launch elf_file input ≡ ok (tree, launch)
unfolding binary_tree_and_launch located installed_tree with_directories insert placed
    insert_default_directory contains_path get before normalize_layer_path layer_parts split_on
    join_with normalize_arguments check_arguments normalize_environment check_entries name_of
    check_owners from_utf8 valid_from normalize_working_directory relative_of directory_text
    trim_slashes trim_start trim_end ancestors chain_from parent_of before_last
    validate_canonical_tree expanded_bytes validate_launch_identity validate_launch_path
    Text-discrete ℕ_discrete
assembled = refl

binary_tree_and_launch-IsAssembled_example : IsAssembled elf_file input tree launch
binary_tree_and_launch-IsAssembled_example =
    binary_tree_and_launch-IsAssembled elf_file input tree launch assembled

survives : validate_overlay_compatibility tree launch ≡ ok tt
unfolding validate_overlay_compatibility check_overlay below_or_at trim_start starts_with
    Text-discrete ℕ_discrete
survives = refl

validate_overlay_compatibility_survives_example :
    (replaces_directories tree ≡ true)
    × (get (without_overlay tree) (trim_start program) ≡ get tree (trim_start program))
    × ((same_text (trim_start (codes "/")) overlay_tmp ≡ true)
        ⊎ (same_text (trim_start (codes "/")) overlay_dev ≡ true)
        ⊎ (get (without_overlay tree) (trim_start (codes "/")) ≡ get tree (trim_start (codes "/"))))
validate_overlay_compatibility_survives_example =
    validate_overlay_compatibility_survives tree launch survives

-- A source directory with the one file, and a codec that writes one specification.
abbrev source : BinarySource
source = record {
  path = codes "app";
  arguments = codes "serve" ∷ [];
  environment = environment_entries;
  working_directory = codes "//";
  user = codes "65534:1000";
}

abbrev read_app : Text → ℕ → Result Bytes
read_app path limit = ok elf_file

CanonicalBinarySpec-discrete : Discrete CanonicalBinarySpec
unfolding ℕ_discrete
CanonicalBinarySpec-discrete = hlevel ℕ_discrete

abbrev written : CanonicalBinarySpec
written = canonical_spec binary_install_path launch

abbrev to_vec : CanonicalBinarySpec → Option Bytes
to_vec value = if same CanonicalBinarySpec-discrete value written then some (codes "{}") else none

abbrev from_slice : Bytes → Option CanonicalBinarySpec
from_slice bytes = some written

to_vec-ReadsBack : ReadsBack to_vec from_slice
to_vec-ReadsBack value bytes h =
    elim (Bool-cases (same CanonicalBinarySpec-discrete value written)) [
      | inl e ↦ ap some (sym (same→eq CanonicalBinarySpec-discrete value written e))
      | inr e ↦ absurd (ground (arith, h, e))
    ]

abbrev graph : WorkloadGraph
graph = binary_workload (binary_objects elf_file (codes "{}" ++ 10 ∷ [])) (tree, launch)

written_bytes : canonical_json to_vec written ≡ ok (codes "{}" ++ 10 ∷ [])
unfolding canonical_json
written_bytes = rw (same_self CanonicalBinarySpec-discrete written) refl

assembled_graph : binary_graph read_app to_vec source ≡ ok graph
unfolding binary_graph normalize_required_user parse_user parse_digits check_owners split_on
    normalize_layer_path layer_parts join_with normalize_arguments check_arguments
    normalize_environment check_entries name_of Text-discrete ℕ_discrete
assembled_graph = rw elf_accepted (rw assembled (rw written_bytes refl))

replay_graph-binary_graph_example : replay_graph from_slice (graph.objects) ≡ ok graph
replay_graph-binary_graph_example =
    replay_graph-binary_graph read_app to_vec from_slice source graph to_vec-ReadsBack
      assembled_graph

-- A decoder that knows one document.
abbrev document : BinaryDocument
document = record {
  version = 1;
  kind = binary;
  path = codes "../app";
  args = [];
  env = [];
  working_directory = codes "/";
  user = codes "65534:1000";
}

abbrev probe_of : Text → Option KindProbe
probe_of text = some (record { version = 1; kind = binary })

abbrev binary_of : Text → Option BinaryDocument
binary_of text = some document

abbrev oci_of : Text → Option OciDocument
oci_of text = none

escape_refused : parse probe_of binary_of oci_of (codes "escape") ≡ err (io_error invalid_input)
unfolding parse binary_spec validate_locator locator_components split_on from_utf8 valid_from
    Text-discrete ℕ_discrete
escape_refused = refl

parse_fails_invalid_example : io_error invalid_input ≡ io_error invalid_input
parse_fails_invalid_example =
    parse_fails_invalid probe_of binary_of oci_of (codes "escape") (io_error invalid_input)
      escape_refused
