-- ===== src/Workload/Examples.antt =====
-- A small executable, its workload and its trees, for the theorems about crates/simferret/src/workload.
mod Launches
mod Layers
mod Images
use simferret.Prelude.{
  ℕ, zero, suc, ◌+◌, ◌*◌, ◌^◌, ◌<◌, ap, sym, ◌∙◌, ◌≡◌, refl, Bool, true, false, List, [], ◌∷◌, ◌++◌,
  Option, none, some, Bytes, Text, codes, arith, same, same→eq, ltb, leb, ◌&&◌, all, fail, In, ◌↔◌,
  ◌%◌, if◌then◌else◌, length, split_on, join_with, starts_with, hex_fixed, Result, ok, err, IoError,
  io_error, invalid_input, Text-discrete, ℕ_discrete, All, subst,
}
use simferret.Workload.Launch.{LaunchIdentity}
use simferret.Workload.Path.{
  slash, root_path, before_last, parent_of, chain_from, ancestors, layer_parts,
  normalize_layer_path, subtree_prefix,
}
use simferret.Workload.Tree.{
  file_bytes, link_target, EntryKind, directory_kind, Entry, Tree, directory, default_directory,
  file, symlink, before, get, contains_path, placed, insert, insert_default_directory, retain,
  in_subtree, remove_subtree, expanded_bytes, validate_canonical_tree,
}
use simferret.Workload.Tree.Canonical.{Built, new, inserted, defaulted, pruned}
use simferret.Workload.Tree.Canonical.Extensional.{seen_at}
use simferret.Workload.Tree.Encode.{
  encode, encode_entry, encode_content, to_be_bytes_u64, put_bytes32,
}
use simferret.Workload.Tree.Encode.Identity.{IsSized, AllSized, seen, seen_tree, encode-injective}
use simferret.Workload.Tree.Encode.Views.{encode_characterized}
use simferret.Workload.Layer.Removed.{Removes, removals-Removes}
use simferret.Workload.Tree.Template.{template, template_contents, max_u32}
use simferret.Workload.Tree.Template.Records.{Fits, record_of, records, trailer, template-records}
use simferret.Workload.Symlinks.{
  validate_symlink_syntax, kept_parts, pop, candidate, target_if_link, link_at, walk,
  resolve_symlink, validate_links, validate_symlinks,
}
use simferret.Workload.Symlinks.Walk.{Returns}
use simferret.Workload.Symlinks.Every.{
  AllStay, validate_symlinks-Returns, validate_symlinks-StaysInside,
}
use simferret.Workload.Elf.{
  checked, slice_at, from_le_bytes, read_u16, read_u32, read_u64, read_segment, check_segment,
  check_loadable, check_program, check_programs, check_identification, validate_static_elf,
}
use simferret.Workload.Elf.Loadable.{IsStaticElf, validate_static_elf-IsStaticElf}

-- A static executable of one segment: the file header and one program header.
abbrev zeros_of : ℕ → Bytes
zeros_of zero = []
zeros_of (suc n) = 0 ∷ zeros_of n

abbrev pub elf_file : Bytes
elf_file =
    (0x7f ∷ b'E' ∷ b'L' ∷ b'F' ∷ 2 ∷ 1 ∷ zeros_of 10)
    ++ (2 ∷ 0 ∷ 62 ∷ 0 ∷ zeros_of 4)
    ++ (0 ∷ 0x10 ∷ 0x40 ∷ zeros_of 5)
    ++ (64 ∷ zeros_of 7)
    ++ zeros_of 14
    ++ (56 ∷ 0 ∷ 1 ∷ 0 ∷ zeros_of 6)
    ++ (1 ∷ zeros_of 7)
    ++ zeros_of 8
    ++ (0 ∷ 0 ∷ 0x40 ∷ zeros_of 5)
    ++ zeros_of 8
    ++ (120 ∷ zeros_of 7)
    ++ (120 ∷ zeros_of 7)
    ++ zeros_of 8

elf_size : length elf_file ≡ 120
elf_size = refl

pub elf_accepted : validate_static_elf elf_file ≡ ok tt
unfolding validate_static_elf check_identification check_programs check_program check_loadable
    read_segment check_segment read_u16 read_u32 read_u64 slice_at from_le_bytes checked
    Text-discrete ℕ_discrete
elf_accepted = refl

validate_static_elf-IsStaticElf_example : IsStaticElf elf_file
validate_static_elf-IsStaticElf_example = validate_static_elf-IsStaticElf elf_file elf_accepted

-- A root directory with a file and a link.
abbrev app : Bytes
app = codes "app"

abbrev link : Bytes
link = codes "link"

abbrev one_file : Entry
one_file = file (1 ∷ 2 ∷ []) 493 1 1 0

abbrev to_app : Entry
to_app = symlink (codes "./app") 1 1 0

abbrev sample : Tree
sample = (root_path, default_directory) ∷ (app, one_file) ∷ (link, to_app) ∷ []

abbrev nested : Tree
nested =
    (codes "app", default_directory) ∷ (codes "app/bin", one_file) ∷ (codes "apple", one_file) ∷ []

-- The removals of a directory with a sibling whose name begins alike, seen at the sibling.
removals-Removes_example : Removes nested app (codes "apple")
removals-Removes_example = removals-Removes nested app (codes "apple")

-- The same three entries, put in two orders.
abbrev forwards : Tree
forwards = (insert ((insert (insert_default_directory [] root_path) app one_file).1) link to_app).1

abbrev backwards : Tree
backwards = insert_default_directory ((insert ((insert [] link to_app).1) app one_file).1) root_path

forwards-sample : forwards ≡ sample
unfolding insert placed insert_default_directory contains_path get before Text-discrete ℕ_discrete
forwards-sample = refl

backwards-sample : backwards ≡ sample
unfolding insert placed insert_default_directory contains_path get before Text-discrete ℕ_discrete
backwards-sample = refl

-- A digest that tells nothing apart.
abbrev no_sha256 : Bytes → Bytes
no_sha256 bytes = zeros_of 32

forwards-Built : Built forwards
forwards-Built = inserted (inserted (defaulted new root_path) app one_file) link to_app

backwards-Built : Built backwards
backwards-Built = defaulted (inserted (inserted new link to_app) app one_file) root_path

abbrev other_sample : Tree
other_sample =
    (root_path, default_directory) ∷ (app, file (3 ∷ 4 ∷ []) 493 1 1 0) ∷ (link, to_app) ∷ []

-- Are the fields of an entry in their ranges?
abbrev is_sized : Bytes → Entry → Bool
is_sized path entry =
    ltb (length path) (2 ^ 32)
    && ltb (entry.mode) (2 ^ 32)
    && ltb (entry.uid) (2 ^ 32)
    && ltb (entry.gid) (2 ^ 32)
    && ltb (entry.mtime) (2 ^ 32)
    && ltb (length (file_bytes entry)) (2 ^ 64)
    && ltb (length (link_target entry)) (2 ^ 32)

is_sized-IsSized : (path : Bytes) (entry : Entry) → is_sized path entry ≡ true → IsSized path entry
is_sized-IsSized path entry h = record {
  path_size = ground (arith, h);
  mode_size = ground (arith, h);
  uid_size = ground (arith, h);
  gid_size = ground (arith, h);
  mtime_size = ground (arith, h);
  data_size = ground (arith, h);
  target_size = ground (arith, h);
}

tree-AllSized :
    (tree : Tree)
    → all (λ item. is_sized (item.0) (item.1)) tree ≡ true
    → AllSized no_sha256 (λ bytes. refl) tree
tree-AllSized [] h = tt
tree-AllSized ((path, entry) ∷ tree) h =
    (is_sized-IsSized path entry (ground (arith, h)), tree-AllSized tree (ground (arith, h)))

same_encoding : encode no_sha256 sample ≡ encode no_sha256 other_sample
unfolding encode encode_entry encode_content
same_encoding = refl

encode-injective_example :
    seen_tree no_sha256 (λ bytes. refl) sample ≡ seen_tree no_sha256 (λ bytes. refl) other_sample
encode-injective_example =
    encode-injective no_sha256 (λ bytes. refl) sample other_sample (tree-AllSized sample refl)
      (tree-AllSized other_sample refl) same_encoding

-- The two orders of the insertions leave one encoding and one view.
encode_characterized_example : (encode no_sha256 forwards ≡ encode no_sha256 backwards) ↔ (
    (path : Bytes)
    → seen_at (seen no_sha256 (λ bytes. refl)) forwards path
      ≡ seen_at (seen no_sha256 (λ bytes. refl)) backwards path)
encode_characterized_example =
    encode_characterized no_sha256 (λ bytes. refl) forwards backwards forwards-Built backwards-Built
      (subst (AllSized no_sha256 (λ bytes. refl)) (sym forwards-sample) (tree-AllSized sample refl))
      (subst (AllSized no_sha256 (λ bytes. refl)) (sym backwards-sample)
        (tree-AllSized sample refl))

sample_root : get sample root_path ≡ some default_directory
unfolding get Text-discrete ℕ_discrete
sample_root = refl

-- Do an entry's name and contents fit a record?
abbrev fits : Bytes → Entry → Bool
fits name entry =
    leb (length (template_contents (entry.kind) entry)) max_u32 && ltb (length name) max_u32

fits-Fits : (name : Bytes) (entry : Entry) → fits name entry ≡ true → Fits name entry
fits-Fits name entry h = record { contents_fit = ground (arith, h); name_fits = ground (arith, h) }

template-records_example :
    (template sample (codes "workload")
      ≡ ok (
          record_of (codes "workload") default_directory
          ++ records (codes "workload") sample
          ++ trailer))
    × (length (
            record_of (codes "workload") default_directory
            ++ records (codes "workload") sample
            ++ trailer)
          % 4
        ≡ 0)
template-records_example =
    template-records sample (codes "workload") default_directory sample_root refl
      (fits-Fits (codes "workload") default_directory refl)
      (
        fits-Fits (codes "workload/.") default_directory refl,
        (
          fits-Fits (codes "workload/app") one_file refl,
          (fits-Fits (codes "workload/link") to_app refl, tt),
        ),
      )

-- A link to itself and a link out of the root.
abbrev looping : Tree
looping = (root_path, default_directory) ∷ (link, symlink link 1 1 0) ∷ []

looping_refused : validate_symlinks looping ≡ some (fail invalid_input)
unfolding validate_symlinks validate_links resolve_symlink walk link_at validate_symlink_syntax
    candidate kept_parts pop split_on join_with get parent_of before_last Text-discrete ℕ_discrete
looping_refused = refl

sample_accepted : validate_symlinks sample ≡ some (ok tt)
unfolding validate_symlinks validate_links resolve_symlink walk link_at validate_symlink_syntax
    candidate kept_parts pop split_on join_with get parent_of before_last Text-discrete ℕ_discrete
sample_accepted = refl

validate_symlinks-Returns_example : Returns (validate_symlinks looping)
validate_symlinks-Returns_example = validate_symlinks-Returns looping

validate_symlinks-StaysInside_example :
    (validate_symlinks sample ≡ some (ok tt)) ↔ AllStay sample sample
validate_symlinks-StaysInside_example = validate_symlinks-StaysInside sample
