-- ===== src/Workload/Layer.antt =====
-- crates/simferret/src/workload/oci.rs: the application of one layer's members to the tree of the
-- layers below.
pub mod Parents
pub mod Rooted
pub mod Applied
pub mod Removed
use simferret.Prelude.{
  ℕ, Bool, true, false, ◌&&◌, ◌||◌, not, List, [], ◌∷◌, ◌++◌, Option, none, some, Bytes, codes,
  same_text, contains, starts_with, any, last, drop, if◌then◌else◌, Result, ok, err, invalid_input,
  fail, refuse_if, ◌>>=◌, ◌>>◌,
}
use simferret.Workload.Path.{slash, dot, dots, is_empty, or_root, parent_of, ancestors, join_path}
use simferret.Workload.Tree.{
  EntryKind, directory_kind, file_kind, symlink_kind, Entry, Tree, get, insert, with_directories,
  remove_subtree, remove_children, or_empty, is_some,
}
use simferret.Workload.Tree.Template.{is_directory}
use simferret.Workload.Symlinks.{pieces, pop}
use simferret.Workload.Directory.{is_symlink, is_directory_entry}

-- `Member`
pub record Member : Type 0 where
  pub name : Bytes
  pub entry : Entry

-- `Marker`
pub data Marker : Type 0 where
  whiteout opaque : (target : Bytes) → Marker

-- `Marker::target`
abbrev pub target_of : Marker → Bytes
target_of (whiteout target) = target
target_of (opaque target) = target

abbrev pub marker_prefix : Bytes
marker_prefix = codes ".wh."

abbrev pub opaque_name : Bytes
opaque_name = codes ".wh..wh..opq"

-- `is_empty_file`, of a regular file
abbrev pub is_empty_regular : Entry → Bool
is_empty_regular entry = elim (entry.kind) [
  | directory_kind ↦ false
  | file_kind ↦ is_empty (or_empty (entry.data_bytes))
  | symlink_kind ↦ false
]

-- The marker that a basename stands for.
unfoldable pub marker_of : Member → Bytes → Result (Option Marker)
marker_of member base =
    let parent = or_root (parent_of (member.name)) in
    let target = drop 4 base in
    if same_text base opaque_name
    then refuse_if (not (is_empty_regular (member.entry))) invalid_input
      >> ok (some (opaque parent))
    else if starts_with base marker_prefix
    then refuse_if (not (is_empty_regular (member.entry))) invalid_input
      >> refuse_if
          (is_empty target
            || same_text target dot
            || same_text target dots
            || contains target slash
            || contains target 0)
          invalid_input
      >> ok (some (whiteout (join_path parent target)))
    else ok none

abbrev pub parents_of : Option (List Bytes) → List Bytes
parents_of none = []
parents_of (some parents) = parents

-- `split_marker`
unfoldable pub split_marker : Member → Result (Option Marker)
split_marker member =
    let components = pieces (member.name) in
    let parents = parents_of (pop components) in
    elim (last components) [
      | none ↦ ok none
      | some base ↦
          refuse_if (any (λ component. starts_with component marker_prefix) parents) invalid_input
          >> marker_of member base
    ]

abbrev pub sorted_into :
    Member → Option Marker → List Marker × List Member → List Marker × List Member
sorted_into member none (markers, additions) = (markers, member ∷ additions)
sorted_into member (some marker) (markers, additions) = (marker ∷ markers, additions)

-- The first loop of `apply_layer`: the markers and the additions, in the order of the members.
unfoldable pub split_members : List Bytes → List Member → Result (List Marker × List Member)
split_members seen [] = ok ([], [])
split_members seen (member ∷ members) = do
  refuse_if (any (same_text (member.name)) seen) invalid_input
  marker ← split_marker member
  rest ← split_members (member.name ∷ seen) members
  ok (sorted_into member marker rest)

-- `provided_directories`
unfoldable pub provided_directories : List Member → List Bytes
provided_directories [] = []
provided_directories (member ∷ additions) =
    (if is_directory (member.entry.kind) then member.name ∷ [] else [])
    ++ (ancestors (member.name) ++ provided_directories additions)

abbrev pub marker_chain : Marker → List Bytes
marker_chain (whiteout target) = ancestors target
marker_chain (opaque target) = target ∷ ancestors target

-- The check that no marker traverses a symbolic link of the layers below.
unfoldable pub check_markers : Tree → List Bytes → List Marker → Result (Unit {0})
check_markers tree provided [] = ok tt
check_markers tree provided (marker ∷ markers) =
    refuse_if
      (any (λ path. is_symlink (get tree path) && not (any (same_text path) provided))
        (marker_chain marker))
      invalid_input
    >> check_markers tree provided markers

unfoldable pub apply_marker : Tree → Marker → Tree
apply_marker tree (whiteout target) = remove_subtree tree target
apply_marker tree (opaque target) = remove_children tree target

unfoldable pub apply_markers : Tree → List Marker → Tree
apply_markers tree [] = tree
apply_markers tree (marker ∷ markers) = apply_markers (apply_marker tree marker) markers

-- Is the entry that a member replaces removed with its subtree?
abbrev pub replaces : EntryKind → Option Entry → Bool
replaces kind existing =
    if is_directory kind
    then is_some existing && not (is_directory_entry existing)
    else is_directory_entry existing

unfoldable pub make_room : Tree → Member → Tree
make_room tree member =
    if replaces (member.entry.kind) (get tree (member.name))
    then remove_subtree tree (member.name)
    else tree

-- One round of the loop over the additions.
unfoldable pub add_member : Tree → Member → Result Tree
add_member tree member = do
  refuse_if
      (any (λ path. is_some (get tree path) && not (is_directory_entry (get tree path)))
        (ancestors (member.name)))
      invalid_input
  let room = make_room (with_directories tree (ancestors (member.name))) member
  ok ((insert room (member.name) (member.entry)).1)

unfoldable pub add_members : Tree → List Member → Result Tree
add_members tree [] = ok tree
add_members tree (member ∷ members) = add_member tree member >>= λ tree'. add_members tree' members

-- The check of the opaque markers behind the additions.
unfoldable pub check_opaque : Tree → List Marker → Result (Unit {0})
check_opaque tree [] = ok tt
check_opaque tree (whiteout target ∷ markers) = check_opaque tree markers
check_opaque tree (opaque target ∷ markers) =
    refuse_if (is_some (get tree target) && not (is_directory_entry (get tree target)))
      invalid_input
    >> check_opaque tree markers

-- `apply_layer`
unfoldable pub apply_layer : Tree → List Member → Result Tree
apply_layer tree members = do
  (markers, additions) ← split_members [] members
  check_markers tree (provided_directories additions) markers
  tree' ← add_members (apply_markers tree markers) additions
  check_opaque tree' markers
  ok tree'
