-- ===== src/Workload/Tree/Template.antt =====
-- crates/simferret/src/workload/tree.rs: the guest template, a `newc` archive of the tree. The
-- archive so far is an argument, since the padding depends on its length.
pub mod Records
use simferret.Prelude.{
  ℕ, zero, suc, ◌+◌, ◌-◌, ◌*◌, ◌/◌, ◌%◌, ◌^◌, Bool, true, false, List, [], ◌∷◌, ◌++◌, Option, none,
  some, Bytes, Text, codes, hex_fixed, same_text, ltb, ◌==◌, if◌then◌else◌, length, Result, ok, err,
  invalid_input, fail, refuse_if, ◌>>=◌, ◌>>◌,
}
use simferret.Workload.Path.{slash, root_path}
use simferret.Workload.Tree.{
  EntryKind, directory_kind, file_kind, symlink_kind, Entry, Tree, file_bytes, link_target, get,
}

-- `1 << bit | mode`
unfoldable pub with_bit : ℕ → ℕ → ℕ
with_bit bit mode = if mode / 2 ^ bit % 2 == 1 then mode else mode + 2 ^ bit

-- The loop that writes zeros up to a multiple of four: three rounds are enough.
unfoldable pub pad_rounds : ℕ → Bytes → Bytes
pad_rounds zero output = output
pad_rounds (suc fuel) output =
    let rest = pad_rounds fuel (output ++ 0 ∷ []) in if length output % 4 == 0 then output else rest

unfoldable pub pad : Bytes → Bytes
pad output = pad_rounds 3 output

-- `{field:08x}` for each field.
unfoldable pub cpio_fields : List ℕ → Text
cpio_fields [] = []
cpio_fields (field ∷ fields) = hex_fixed 8 field ++ cpio_fields fields

abbrev pub max_u32 : ℕ
max_u32 = 2 ^ 32 - 1

-- `b"070701"`, the thirteen fields, and the name with its NUL.
unfoldable pub cpio_header : Bytes → ℕ → ℕ → ℕ → ℕ → ℕ → Bytes
cpio_header name mode uid gid mtime size =
    codes "070701"
    ++ (cpio_fields
          (1 ∷ mode ∷ uid ∷ gid ∷ 1 ∷ mtime ∷ size ∷ 0 ∷ 0 ∷ 0 ∷ 0 ∷ suc (length name) ∷ 0 ∷ [])
        ++ (name ++ 0 ∷ []))

-- `append_cpio`: the archive with one more record.
unfoldable pub append_cpio : Bytes → Bytes → ℕ → ℕ → ℕ → ℕ → Bytes → Result Bytes
append_cpio output name mode uid gid mtime contents = do
  refuse_if (ltb max_u32 (length contents)) invalid_input
  refuse_if (ltb max_u32 (suc (length name))) invalid_input
  let headed = pad (output ++ cpio_header name mode uid gid mtime (length contents))
  ok (pad (headed ++ contents))

-- The mode with the type of the file, 0o040000, 0o100000 or 0o120000.
abbrev pub template_mode : EntryKind → ℕ → ℕ
template_mode directory_kind mode = with_bit 14 mode
template_mode file_kind mode = with_bit 15 mode
template_mode symlink_kind mode = with_bit 15 (with_bit 13 mode)

abbrev pub template_contents : EntryKind → Entry → Bytes
template_contents directory_kind entry = []
template_contents file_kind entry = file_bytes entry
template_contents symlink_kind entry = link_target entry

-- `append_template_entry`
unfoldable pub append_template_entry : Bytes → Bytes → Entry → Result Bytes
append_template_entry output name entry =
    append_cpio output name (template_mode (entry.kind) (entry.mode)) (entry.uid) (entry.gid)
      (entry.mtime) (template_contents (entry.kind) entry)

-- The loop of `Tree::template_entries`.
unfoldable pub append_entries : Bytes → Text → Tree → Result Bytes
append_entries output root_name [] = ok output
append_entries output root_name ((path, entry) ∷ tree) =
    if same_text path root_path
    then append_entries output root_name tree
    else append_template_entry output (root_name ++ slash ∷ path) entry >>= λ output'.
        append_entries output' root_name tree

abbrev pub is_directory : EntryKind → Bool
is_directory directory_kind = true
is_directory _ = false

abbrev pub root_of : Option Entry → Result Entry
root_of none = fail invalid_input
root_of (some root) = if is_directory (root.kind) then ok root else fail invalid_input

-- `Tree::template_entries`
unfoldable pub template_entries : Tree → Text → Result Bytes
template_entries tree root_name = do
  root ← root_of (get tree root_path)
  output ← append_template_entry [] root_name root
  append_entries output root_name tree

-- `Tree::template`
unfoldable pub template : Tree → Text → Result Bytes
template tree root_name = do
  output ← template_entries tree root_name
  append_cpio output (codes "TRAILER!!!") 0 0 0 0 []
