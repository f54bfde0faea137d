-- ===== src/Workload/Tree.antt =====
-- crates/simferret/src/workload/tree.rs: the tree of a workload's files. A `BTreeMap` is the list of
-- its entries in the byte order of their paths; `u32` fields are numbers.
pub mod Lookup
pub mod Canonical
pub mod Encode
pub mod Template
use simferret.Prelude.{
  ℕ, zero, suc, ◌+◌, ◌<◌, Bool, true, false, ◌&&◌, ◌||◌, not, List, [], ◌∷◌, ◌++◌, Option, none,
  some, Bytes, same_text, starts_with, ltb, ◌==◌, if◌then◌else◌, length, Result, ok, err,
  invalid_input, refuse_if, ◌>>=◌, ◌>>◌,
}
use simferret.Workload.Path.{root_path, is_empty, subtree_prefix}

-- `EntryKind`
pub data EntryKind : Type 0 where
  directory_kind file_kind symlink_kind : EntryKind

-- `Entry`
pub record Entry : Type 0 where
  pub kind : EntryKind
  pub mode : ℕ
  pub uid : ℕ
  pub gid : ℕ
  pub mtime : ℕ
  pub data_bytes : Option Bytes
  pub target : Option Bytes

-- `DEFAULT_DIRECTORY_MODE`: 0o755
abbrev pub default_directory_mode : ℕ
default_directory_mode = 493

-- `SYMLINK_MODE`: 0o777
abbrev pub symlink_mode : ℕ
symlink_mode = 511

-- `Entry::directory`
abbrev pub directory : ℕ → ℕ → ℕ → ℕ → Entry
directory mode uid gid mtime = record {
  kind = directory_kind;
  mode = mode;
  uid = uid;
  gid = gid;
  mtime = mtime;
  data_bytes = none;
  target = none;
}

-- `Entry::default_directory`
abbrev pub default_directory : Entry
default_directory = directory default_directory_mode 0 0 0

-- `Entry::file`
abbrev pub file : Bytes → ℕ → ℕ → ℕ → ℕ → Entry
file contents mode uid gid mtime = record {
  kind = file_kind;
  mode = mode;
  uid = uid;
  gid = gid;
  mtime = mtime;
  data_bytes = some contents;
  target = none;
}

-- `Entry::symlink`
abbrev pub symlink : Bytes → ℕ → ℕ → ℕ → Entry
symlink points_to uid gid mtime = record {
  kind = symlink_kind;
  mode = symlink_mode;
  uid = uid;
  gid = gid;
  mtime = mtime;
  data_bytes = none;
  target = some points_to;
}

-- `unwrap_or(&[])`
abbrev pub or_empty : Option Bytes → Bytes
or_empty none = []
or_empty (some bytes) = bytes

abbrev pub file_bytes : Entry → Bytes
file_bytes entry = or_empty (entry.data_bytes)

abbrev pub link_target : Entry → Bytes
link_target entry = or_empty (entry.target)

-- `Tree`
abbrev pub Tree : Type 0
Tree = List (Bytes × Entry)

-- The byte order of two paths.
unfoldable pub before : Bytes → Bytes → Bool
before [] [] = false
before [] (c ∷ other) = true
before (b ∷ path) [] = false
before (b ∷ path) (c ∷ other) = ltb b c || ((b == c) && before path other)

unfoldable pub get : Tree → Bytes → Option Entry
get [] path = none
get ((p, entry) ∷ tree) path = if same_text p path then some entry else get tree path

abbrev pub is_some {ℓ} : {A : Type ℓ} → Option A → Bool
is_some none = false
is_some (some a) = true

-- `Tree::contains`
unfoldable pub contains_path : Tree → Bytes → Bool
contains_path tree path = is_some (get tree path)

-- The map with a path's entry put in its place.
unfoldable pub placed : Tree → Bytes → Entry → Tree
placed [] path entry = (path, entry) ∷ []
placed ((p, e) ∷ tree) path entry =
    let rest = placed tree path entry in
    if before path p
    then (path, entry) ∷ (p, e) ∷ tree
    else if same_text p path
    then (path, entry) ∷ tree
    else (p, e) ∷ rest

-- `Tree::insert`: the entry that was there, and the new tree.
unfoldable pub insert : Tree → Bytes → Entry → Option Entry × Tree
insert tree path entry = (get tree path, placed tree path entry)

-- `Tree::insert_default_directory`
unfoldable pub insert_default_directory : Tree → Bytes → Tree
insert_default_directory tree path =
    if contains_path tree path then tree else placed tree path default_directory

-- The loop that puts a default directory at each of some paths.
unfoldable pub with_directories : Tree → List Bytes → Tree
with_directories tree [] = tree
with_directories tree (path ∷ paths) = with_directories (insert_default_directory tree path) paths

-- `retain`
unfoldable pub retain : (Bytes → Bool) → Tree → Tree
retain keeps [] = []
retain keeps ((p, e) ∷ tree) =
    let rest = retain keeps tree in if keeps p then (p, e) ∷ rest else rest

-- Is a candidate gone when a path's subtree is removed?
unfoldable pub in_subtree : Bytes → Bytes → Bool
in_subtree path candidate =
    let prefix = subtree_prefix path in
    same_text candidate path
    || (not (is_empty prefix) && starts_with candidate prefix)
    || same_text path root_path

-- `Tree::remove_subtree`
unfoldable pub remove_subtree : Tree → Bytes → Tree
remove_subtree tree path = retain (λ candidate. not (in_subtree path candidate)) tree

-- Does a candidate stay when a path's children are removed?
unfoldable pub not_child : Bytes → Bytes → Bool
not_child path candidate =
    let prefix = subtree_prefix path in
    same_text candidate root_path || (not (is_empty prefix) && not (starts_with candidate prefix))

-- `Tree::remove_children`
unfoldable pub remove_children : Tree → Bytes → Tree
remove_children tree path = retain (not_child path) tree

abbrev pub data_length : Option Bytes → ℕ
data_length none = 0
data_length (some contents) = length contents

-- `Tree::expanded_bytes`
unfoldable pub expanded_bytes : Tree → ℕ
expanded_bytes [] = 0
expanded_bytes ((p, entry) ∷ tree) = data_length (entry.data_bytes) + expanded_bytes tree

-- `validate_canonical_tree`
unfoldable pub validate_canonical_tree : Tree → ℕ → ℕ → Result (Unit {0})
validate_canonical_tree tree max_entries max_expanded_bytes = do
  refuse_if (ltb max_entries (length tree)) invalid_input
  refuse_if (ltb max_expanded_bytes (expanded_bytes tree)) invalid_input
  ok tt
