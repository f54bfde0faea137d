-- ===== src/Workload/Examples/Layers.antt =====
-- Two layers, for the theorem about crates/simferret/src/workload/oci.rs.
use simferret.Prelude.{
  ◌≡◌, refl, List, [], ◌∷◌, Bytes, codes, ok, split_on, starts_with, Text-discrete, ℕ_discrete,
}
use simferret.Workload.Path.{
  root_path, subtree_prefix, before_last, parent_of, chain_from, ancestors, join_path,
}
use simferret.Workload.Tree.{
  Tree, default_directory, file, before, get, contains_path, placed, insert,
  insert_default_directory, with_directories, retain, in_subtree, remove_subtree, not_child,
  remove_children,
}
use simferret.Workload.Symlinks.{kept_parts, pop}
use simferret.Workload.Layer.{
  Member, marker_of, split_marker, split_members, provided_directories, check_markers, apply_marker,
  apply_markers, make_room, add_member, add_members, check_opaque, apply_layer,
}
use simferret.Workload.Layer.Rooted.{IsRooted}
use simferret.Workload.Layer.Applied.{apply_layer-IsRooted}

abbrev with_file : Bytes → Bytes → Member
with_file name contents = record { name = name; entry = file contents 420 1 1 0 }

abbrev first_layer : List Member
first_layer = with_file (codes "bin/app") (1 ∷ []) ∷ with_file (codes "bin/old") (2 ∷ []) ∷ []

-- A whiteout of one file, and a file in place of a directory.
abbrev second_layer : List Member
second_layer =
    with_file (codes "bin/.wh.old") []
    ∷ with_file (codes "etc/conf") (3 ∷ [])
    ∷ with_file (codes "etc") (4 ∷ [])
    ∷ []

abbrev lower : Tree
lower =
    (root_path, default_directory)
    ∷ (codes "bin", default_directory)
    ∷ (codes "bin/app", file (1 ∷ []) 420 1 1 0)
    ∷ (codes "bin/old", file (2 ∷ []) 420 1 1 0)
    ∷ []

abbrev upper : Tree
upper =
    (root_path, default_directory)
    ∷ (codes "bin", default_directory)
    ∷ (codes "bin/app", file (1 ∷ []) 420 1 1 0)
    ∷ (codes "etc", file (4 ∷ []) 420 1 1 0)
    ∷ []

lower_applied : apply_layer [] first_layer ≡ ok lower
unfolding apply_layer split_members split_marker marker_of provided_directories check_markers
    apply_markers apply_marker add_members add_member make_room check_opaque with_directories
    insert_default_directory contains_path insert placed before get remove_subtree remove_children
    retain in_subtree not_child subtree_prefix ancestors chain_from parent_of before_last join_path
    kept_parts pop split_on starts_with Text-discrete ℕ_discrete
lower_applied = refl

upper_applied : apply_layer lower second_layer ≡ ok upper
unfolding apply_layer split_members split_marker marker_of provided_directories check_markers
    apply_markers apply_marker add_members add_member make_room check_opaque with_directories
    insert_default_directory contains_path insert placed before get remove_subtree remove_children
    retain in_subtree not_child subtree_prefix ancestors chain_from parent_of before_last join_path
    kept_parts pop split_on starts_with Text-discrete ℕ_discrete
upper_applied = refl

empty-IsRooted : IsRooted []
unfolding get
empty-IsRooted = record { parents_exist = λ path entry parent found above. absurd (cc (found)) }

lower-IsRooted : IsRooted lower
lower-IsRooted = apply_layer-IsRooted [] lower first_layer empty-IsRooted lower_applied

apply_layer-IsRooted_example : IsRooted upper
apply_layer-IsRooted_example =
    apply_layer-IsRooted lower upper second_layer lower-IsRooted upper_applied
