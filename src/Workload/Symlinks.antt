-- ===== src/Workload/Symlinks.antt =====
-- crates/simferret/src/workload/tree.rs: the checks of symbolic links.
pub mod Walk
pub mod Every
use simferret.Prelude.{
  ℕ, zero, suc, ◌+◌, ◌*◌, Bool, true, false, ◌||◌, not, List, [], ◌∷◌, ◌++◌, Option, none, some,
  Bytes, same_text, contains, split_on, join_with, ltb, if◌then◌else◌, length, Result, ok, err,
  invalid_input, fail, refuse_if, ◌>>=◌, ◌>>◌,
}
use simferret.Workload.Limits.{max_symlink_target_bytes, max_symlink_hops}
use simferret.Workload.Path.{slash, dot, dots, is_empty, starts_slash, parent_of}
use simferret.Workload.Tree.{
  EntryKind, directory_kind, file_kind, symlink_kind, Entry, Tree, get, link_target, or_empty,
}

-- `validate_symlink_syntax`
unfoldable pub validate_symlink_syntax : Bytes → Result (Unit {0})
validate_symlink_syntax target = do
  refuse_if (is_empty target || contains target 0) invalid_input
  refuse_if (ltb max_symlink_target_bytes (length target)) invalid_input
  refuse_if (starts_slash target) invalid_input
  ok tt

-- The parts that are not empty and not `.`.
unfoldable pub kept_parts : List Bytes → List Bytes
kept_parts [] = []
kept_parts (part ∷ parts) =
    let rest = kept_parts parts in if is_empty part || same_text part dot then rest else part ∷ rest

abbrev pub pieces : Bytes → List Bytes
pieces path = kept_parts (split_on slash path)

-- `Vec::pop`
unfoldable pub pop : List Bytes → Option (List Bytes)
pop [] = none
pop (part ∷ parts) = elim (pop parts) [ none ↦ some [] | some rest ↦ some (part ∷ rest) ]

unfoldable pub candidate : List Bytes → Bytes → Bytes
candidate resolved part =
    let joined = join_with slash resolved in
    if is_empty joined then part else joined ++ slash ∷ part

abbrev pub target_if_link : Option Entry → Option Bytes
target_if_link none = none
target_if_link (some entry) = elim (entry.kind) [
  | directory_kind ↦ none
  | file_kind ↦ none
  | symlink_kind ↦ some (link_target entry)
]

-- The target of a symbolic link at a path, where there is one.
unfoldable pub link_at : Tree → Bytes → Option Bytes
link_at tree path = target_if_link (get tree path)

-- The loop of `resolve_symlink`: the components from `index` on, the resolved ones and the hops. The
-- parts of a link that is followed are put at the front. No outcome means that the fuel ran out.
unfoldable pub walk : ℕ → Tree → List Bytes → List Bytes → ℕ → Option (Result (Unit {0}))
walk fuel tree [] resolved hops = some (ok tt)
walk zero tree (part ∷ components) resolved hops = none
walk (suc fuel) tree (part ∷ components) resolved hops = elim (same_text part dots) [
  | true ↦ elim (pop resolved) [
    | none ↦ some (fail invalid_input)
    | some outer ↦ walk fuel tree components outer hops
  ]
  | false ↦ elim (link_at tree (candidate resolved part)) [
    | none ↦ walk fuel tree components (resolved ++ part ∷ []) hops
    | some nested ↦ elim (ltb max_symlink_hops (suc hops)) [
      | true ↦ some (fail invalid_input)
      | false ↦ elim (validate_symlink_syntax nested) [
        | err error ↦ some (err error)
        | ok _ ↦ walk fuel tree (pieces nested ++ components) resolved (suc hops)
      ]
    ]
  ]
]

abbrev pub first_components : Bytes → Bytes → List Bytes
first_components link_path target = pieces (or_empty (parent_of link_path)) ++ pieces target

-- More rounds than a walk of so many components makes: a link brings one part at most for each byte.
abbrev pub walk_fuel : List Bytes → ℕ
walk_fuel components = length components + max_symlink_hops * max_symlink_target_bytes

-- `resolve_symlink`
unfoldable pub resolve_symlink : Tree → Bytes → Bytes → Option (Result (Unit {0}))
resolve_symlink tree link_path target = elim (validate_symlink_syntax target) [
  | err error ↦ some (err error)
  | ok _ ↦
      let components = first_components link_path target in
      walk (walk_fuel components) tree components [] 0
]

-- The loop of `validate_symlinks` over the entries that are left.
unfoldable pub validate_links : Tree → Tree → Option (Result (Unit {0}))
validate_links tree [] = some (ok tt)
validate_links tree ((path, entry) ∷ entries) = elim (target_if_link (some entry)) [
  | none ↦ validate_links tree entries
  | some target ↦ elim (resolve_symlink tree path target) [
    | none ↦ none
    | some (err error) ↦ some (err error)
    | some (ok _) ↦ validate_links tree entries
  ]
]

-- `validate_symlinks`
unfoldable pub validate_symlinks : Tree → Option (Result (Unit {0}))
validate_symlinks tree = validate_links tree tree
