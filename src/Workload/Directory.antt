-- ===== src/Workload/Directory.antt =====
-- crates/simferret/src/workload/spec.rs, `normalize_working_directory`: the directory that a workload
-- starts in.
pub mod Normalized
use simferret.Prelude.{
  Bool, true, false, ◌&&◌, ◌||◌, not, List, [], ◌∷◌, ◌++◌, Option, none, some, Bytes, Text,
  same_text, any, ◌==◌, if◌then◌else◌, Result, ok, err, invalid_input, fail, refuse_if, ◌>>=◌, ◌>>◌,
}
use simferret.Workload.Path.{
  slash, root_path, is_empty, starts_slash, ancestors, normalize_layer_path,
}
use simferret.Workload.Tree.{EntryKind, directory_kind, file_kind, symlink_kind, Entry, Tree, get}
use simferret.Workload.Tree.Template.{is_directory}
use simferret.Workload.Utf8.{from_utf8}

-- Null, absence, or an empty string is `/`.
abbrev pub or_root_directory : Option Text → Text
or_root_directory none = slash ∷ []
or_root_directory (some []) = slash ∷ []
or_root_directory (some (c ∷ value)) = c ∷ value

unfoldable pub trim_start : Text → Text
trim_start [] = []
trim_start (c ∷ text) = if c == slash then trim_start text else c ∷ text

unfoldable pub trim_end : Text → Text
trim_end [] = []
trim_end (c ∷ text) = elim (trim_end text) [
  | [] ↦ if c == slash then [] else c ∷ []
  | d ∷ rest ↦ c ∷ d ∷ rest
]

-- `trim_matches('/')`
unfoldable pub trim_slashes : Text → Text
trim_slashes text = trim_end (trim_start text)

abbrev pub is_symlink : Option Entry → Bool
is_symlink none = false
is_symlink (some entry) = elim (entry.kind) [
  | directory_kind ↦ false
  | file_kind ↦ false
  | symlink_kind ↦ true
]

abbrev pub is_directory_entry : Option Entry → Bool
is_directory_entry none = false
is_directory_entry (some entry) = is_directory (entry.kind)

-- The path inside the root; the root itself of slashes alone.
unfoldable pub relative_of : Text → Result Bytes
relative_of stripped = if is_empty stripped then ok root_path else normalize_layer_path stripped

abbrev pub absolute : Option Text → Result Text
absolute none = fail invalid_input
absolute (some text) = ok (slash ∷ text)

unfoldable pub directory_text : Bytes → Result Text
directory_text relative =
    if same_text relative root_path then ok (slash ∷ []) else absolute (from_utf8 relative)

-- `normalize_working_directory`
unfoldable pub normalize_working_directory : Option Text → Tree → Result Text
normalize_working_directory value tree = do
  let text = or_root_directory value
  refuse_if (not (starts_slash text)) invalid_input
  relative ← relative_of (trim_slashes text)
  refuse_if (any (λ path. is_symlink (get tree path)) (ancestors relative ++ relative ∷ []))
      invalid_input
  refuse_if (not (same_text relative root_path) && not (is_directory_entry (get tree relative)))
      invalid_input
  directory_text relative
