-- ===== src/Workload/Tree/Template/Records.antt =====
-- The records of the archive of crates/simferret/src/workload/tree.rs, each written on its own.
use simferret.Prelude.{
  ℕ, zero, suc, ◌%◌, ◌≤◌, ◌<◌, ◌≡◌, refl, ap, sym, ◌∙◌, [], ◌∷◌, ◌++◌, some, Bytes, Text, arith,
  codes, same_text, if◌then◌else◌, length, length-append, Bool-cases, inl, inr, ok, All,
}
use mathlib.Core.List.{append_assoc, append-nil}
use simferret.Workload.Path.{slash, root_path}
use simferret.Workload.Tree.{directory_kind, Entry, Tree, get}
use simferret.Workload.Tree.Template.{
  pad_rounds, pad, max_u32, cpio_header, append_cpio, template_mode, template_contents,
  append_template_entry, append_entries, template_entries, template,
}

abbrev IsAligned : Bytes → Type 0
IsAligned output = length output % 4 ≡ 0

pad-IsAligned : (output : Bytes) → IsAligned (pad output)
unfolding pad pad_rounds
pad-IsAligned output = ground (
  arith,
  length-append output (0 ∷ []),
  length-append (output ++ 0 ∷ []) (0 ∷ []),
  length-append (output ++ 0 ∷ [] ++ 0 ∷ []) (0 ∷ []),
)

pad_rounds-append :
    (fuel : ℕ) (output more : Bytes)
    → IsAligned output
    → pad_rounds fuel (output ++ more) ≡ output ++ pad_rounds fuel more
unfolding pad_rounds
pad_rounds-append zero output more h = refl
pad_rounds-append (suc fuel) output more h = ground (
  arith,
  length-append output more,
  append_assoc output more (0 ∷ []),
  pad_rounds-append fuel output (more ++ 0 ∷ []) h,
)

pad-append : (output more : Bytes) → IsAligned output → pad (output ++ more) ≡ output ++ pad more
unfolding pad
pad-append output more h = pad_rounds-append 3 output more h

append-IsAligned : (xs ys : Bytes) → IsAligned xs → IsAligned ys → IsAligned (xs ++ ys)
append-IsAligned xs ys h k = omega (arith, h, k, length-append xs ys)

-- One record, with no archive before it.
abbrev pub record_of : Bytes → Entry → Bytes
record_of name entry =
    let contents = template_contents (entry.kind) entry in
    let header =
      cpio_header name (template_mode (entry.kind) (entry.mode)) (entry.uid) (entry.gid)
        (entry.mtime) (length contents) in
    pad (pad header ++ contents)

abbrev pub trailer : Bytes
trailer = pad (pad (cpio_header (codes "TRAILER!!!") 0 0 0 0 0) ++ [])

-- The limits of an archive's record.
pub record Fits (name : Bytes) (entry : Entry) : Type 0 where
  pub contents_fit : length (template_contents (entry.kind) entry) ≤ max_u32
  pub name_fits : length name < max_u32

append_cpio_aligned :
    (output name : Bytes) (mode uid gid mtime : ℕ) (contents : Bytes)
    → IsAligned output
    → length contents ≤ max_u32
    → length name < max_u32
    → append_cpio output name mode uid gid mtime contents
      ≡ ok (output ++ pad (pad (cpio_header name mode uid gid mtime (length contents)) ++ contents))
unfolding append_cpio
append_cpio_aligned output name mode uid gid mtime contents h fits named =
    let header = cpio_header name mode uid gid mtime (length contents) in
    let headed = pad-append output header h in
    let joined : pad (output ++ header) ++ contents ≡ output ++ (pad header ++ contents) =
      ap (λ front. front ++ contents) headed ∙ append_assoc output (pad header) contents in
    let padded = ap pad joined ∙ pad-append output (pad header ++ contents) h in
    ground (arith, padded)

append_template_entry_aligned :
    (output name : Bytes) (entry : Entry)
    → IsAligned output
    → Fits name entry
    → append_template_entry output name entry ≡ ok (output ++ record_of name entry)
unfolding append_template_entry
append_template_entry_aligned output name entry h fits =
    append_cpio_aligned output name (template_mode (entry.kind) (entry.mode)) (entry.uid)
      (entry.gid) (entry.mtime) (template_contents (entry.kind) entry) h fits.contents_fit
      fits.name_fits

-- The records of every entry but the root's, in the order of the tree.
abbrev pub records : Text → Tree → Bytes
records root_name [] = []
records root_name ((path, entry) ∷ tree) =
    let rest = records root_name tree in
    if same_text path root_path then rest else record_of (root_name ++ slash ∷ path) entry ++ rest

abbrev pub AllFit : Text → Tree → Type 0
AllFit root_name = All (λ item. Fits (root_name ++ slash ∷ item.0) (item.1))

append_entries_aligned :
    (output : Bytes) (root_name : Text) (tree : Tree)
    → IsAligned output
    → AllFit root_name tree
    → append_entries output root_name tree ≡ ok (output ++ records root_name tree)
unfolding append_entries
append_entries_aligned output root_name [] h fits = ap ok (sym (append-nil output))
append_entries_aligned output root_name ((path, entry) ∷ tree) h fits =
    elim (Bool-cases (same_text path root_path)) [
      | inl is_root ↦ rw is_root (append_entries_aligned output root_name tree h fits.1)
      | inr other ↦
          let item = record_of (root_name ++ slash ∷ path) entry in
          let aligned = append-IsAligned output item h (pad-IsAligned _) in
          rw other (
            rw (append_template_entry_aligned output (root_name ++ slash ∷ path) entry h fits.0) (
              append_entries_aligned (output ++ item) root_name tree aligned fits.1
              ∙ ap ok (append_assoc output item (records root_name tree))))
    ]

records-IsAligned : (root_name : Text) (tree : Tree) → IsAligned (records root_name tree)
records-IsAligned root_name [] = refl
records-IsAligned root_name ((path, entry) ∷ tree) = ground (
  arith,
  records-IsAligned root_name tree,
  append-IsAligned (record_of (root_name ++ slash ∷ path) entry) (records root_name tree)
      (pad-IsAligned _) (records-IsAligned root_name tree),
)

-- A tree whose root is a directory and whose names and contents fit has a template: the root's
-- record, then the record of every other entry in the order of the tree, then the trailer, each padded
-- on its own, so that the archive's length is a multiple of four.
pub template-records :
    (tree : Tree) (root_name : Text) (root : Entry)
    → get tree root_path ≡ some root
    → root.kind ≡ directory_kind
    → Fits root_name root
    → AllFit root_name tree
    → (template tree root_name ≡ ok (record_of root_name root ++ records root_name tree ++ trailer))
      × (length (record_of root_name root ++ records root_name tree ++ trailer) % 4 ≡ 0)
unfolding template template_entries
template-records tree root_name root found is_dir fits all_fit =
    let item = record_of root_name root in
    let front = append_template_entry_aligned [] root_name root refl fits in
    let aligned = pad-IsAligned _ in
    let body = append_entries_aligned item root_name tree aligned all_fit in
    let whole =
      append-IsAligned item (records root_name tree) aligned (records-IsAligned root_name tree) in
    let ending =
      append_cpio_aligned (item ++ records root_name tree) (codes "TRAILER!!!") 0 0 0 0 [] whole
        (omega arith) (omega arith) in
    (
      ground (arith, found, is_dir, front, body, ending),
      append-IsAligned (item ++ records root_name tree) trailer whole (pad-IsAligned _),
    )
