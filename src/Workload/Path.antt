-- ===== src/Workload/Path.antt =====
-- crates/simferret/src/workload/tree.rs: the canonical paths of a workload tree. A path is raw bytes.
pub mod Normal
pub mod Ancestors
use simferret.Prelude.{
  ℕ, zero, suc, ◌+◌, Bool, true, false, ◌||◌, List, [], ◌∷◌, ◌++◌, Option, none, some, Bytes, codes,
  same_text, contains, split_on, join_with, ltb, ◌==◌, if◌then◌else◌, length, Result, ok, err,
  invalid_input, fail, refuse_if, ◌>>=◌, ◌>>◌,
}
use simferret.Workload.Limits.{max_path_bytes}

abbrev pub slash : ℕ
slash = b'/'

abbrev pub dot : Bytes
dot = codes "."

abbrev pub dots : Bytes
dots = codes ".."

-- `ROOT_PATH`
abbrev pub root_path : Bytes
root_path = dot

abbrev pub is_empty {ℓ} : {A : Type ℓ} → List A → Bool
is_empty [] = true
is_empty (x ∷ xs) = false

abbrev pub starts_slash : Bytes → Bool
starts_slash [] = false
starts_slash (b ∷ bytes) = b == slash

-- `subtree_prefix`
unfoldable pub subtree_prefix : Bytes → Bytes
subtree_prefix path = if same_text path root_path then [] else path ++ slash ∷ []

-- What precedes the last slash, which `rposition` finds.
unfoldable pub before_last : Bytes → Option Bytes
before_last [] = none
before_last (b ∷ path) = elim (before_last path) [
  | some front ↦ some (b ∷ front)
  | none ↦ if b == slash then some [] else none
]

abbrev pub or_root : Option Bytes → Bytes
or_root none = root_path
or_root (some parent) = parent

-- `parent_of`
unfoldable pub parent_of : Bytes → Option Bytes
unfolding before_last
parent_of path = if same_text path root_path then none else some (or_root (before_last path))

-- The loop of `ancestors`, on fuel.
unfoldable pub chain_from : ℕ → Option Bytes → List Bytes
chain_from fuel none = []
chain_from zero (some path) = []
chain_from (suc fuel) (some path) = path ∷ chain_from fuel (parent_of path)

-- `ancestors`: a parent is shorter, but for the root, which is the last.
unfoldable pub ancestors : Bytes → List Bytes
ancestors path = chain_from (length path + 2) (parent_of path)

-- `join_path`
unfoldable pub join_path : Bytes → Bytes → Bytes
join_path parent name = if same_text parent root_path then name else parent ++ slash ∷ name

-- The loop of `normalize_layer_path` over the components.
unfoldable pub layer_parts : List Bytes → Result (List Bytes)
layer_parts [] = ok []
layer_parts (part ∷ parts) =
    let rest = layer_parts parts in
    if is_empty part || same_text part dot
    then rest
    else if same_text part dots
    then fail invalid_input
    else rest >>= λ kept. ok (part ∷ kept)

abbrev pub path_of : List Bytes → Bytes
path_of [] = root_path
path_of (part ∷ parts) = join_with slash (part ∷ parts)

-- `normalize_layer_path`
unfoldable pub normalize_layer_path : Bytes → Result Bytes
unfolding layer_parts
normalize_layer_path raw = do
  refuse_if (is_empty raw || contains raw 0) invalid_input
  refuse_if (starts_slash raw) invalid_input
  parts ← layer_parts (split_on slash raw)
  let path = path_of parts
  refuse_if (ltb max_path_bytes (length path)) invalid_input
  ok path
