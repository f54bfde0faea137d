-- ===== src/Workload/Layer/Rooted.antt =====
-- The operations of the tree of crates/simferret/src/workload/tree.rs on trees in which every parent
-- is a directory.
use simferret.Prelude.{
  ℕ, zero, suc, ◌+◌, ◌<◌, ◌≡◌, refl, ap, sym, ◌∙◌, Bool, true, false, ◌&&◌, not, List, [], ◌∷◌,
  Option, some, Bytes, arith, same_text, any, if◌then◌else◌, length, Bool-cases, Option-cases, inl,
  inr, subst, same→eq, same_self, Text-discrete,
}
use simferret.Workload.Path.{parent_of, chain_from, ancestors}
use simferret.Workload.Path.Ancestors.{
  ancestors-unrolled, unrolled, chain_from-none, rank, parent_of-lower,
}
use simferret.Workload.Tree.{
  Entry, Tree, default_directory, get, is_some, insert_default_directory, with_directories,
  in_subtree, remove_subtree, not_child, remove_children,
}
use simferret.Workload.Tree.Lookup.{operations-Refines}
use simferret.Workload.Directory.{is_directory_entry}
use simferret.Workload.Layer.Parents.{in_subtree-parent_of, not_child-parent_of}

-- Every entry's parent is a directory of the tree.
pub record IsRooted (tree : Tree) : Type 0 where
  pub parents_exist :
      (path : Bytes) (entry : Entry) (parent : Bytes)
      → get tree path ≡ some entry
      → parent_of path ≡ some parent
      → is_directory_entry (get tree parent) ≡ true

pub remove_subtree-IsRooted :
    (tree : Tree) (path : Bytes) → IsRooted tree → IsRooted (remove_subtree tree path)
remove_subtree-IsRooted tree path h = record {
  parents_exist = λ q entry parent found above.
      let at_q = (operations-Refines tree path default_directory q).prunes in
      let at_parent = (operations-Refines tree path default_directory parent).prunes in
      elim (Bool-cases (in_subtree path parent)) [
        | inl gone ↦
            absurd (ground (arith, at_q, found, in_subtree-parent_of path q parent above gone))
        | inr kept ↦
            let before : get tree q ≡ some entry = ground (arith, at_q, found) in
            ground (arith, at_parent, kept, h.parents_exist q entry parent before above)
      ];
}

pub remove_children-IsRooted :
    (tree : Tree) (path : Bytes) → IsRooted tree → IsRooted (remove_children tree path)
remove_children-IsRooted tree path h = record {
  parents_exist = λ q entry parent found above.
      let at_q = (operations-Refines tree path default_directory q).empties in
      let at_parent = (operations-Refines tree path default_directory parent).empties in
      let stays : not_child path q ≡ true = ground (arith, at_q, found) in
      let before : get tree q ≡ some entry = ground (arith, at_q, found) in
      ground (
        arith,
        at_parent,
        not_child-parent_of path q parent above stays,
        h.parents_exist q entry parent before above,
      );
}

-- A path is in a list.
abbrev pub listed : Bytes → List Bytes → Bool
listed path paths = any (same_text path) paths

get-insert_default :
    (tree : Tree) (path q : Bytes)
    → get (insert_default_directory tree path) q ≡ (
        if same_text path q && not (is_some (get tree q))
        then some default_directory
        else get tree q)
get-insert_default tree path q = elim (Bool-cases (same_text path q)) [
  | inl e ↦ ground (
    arith,
    (operations-Refines tree path default_directory q).defaults,
    e,
    ap (get tree) (same→eq Text-discrete path q e),
  )
  | inr e ↦ ground (arith, (operations-Refines tree path default_directory q).defaults, e)
]

-- What the loop over the ancestors leaves of an entry.
get-with_directories :
    (tree : Tree) (paths : List Bytes) (q : Bytes)
    → get (with_directories tree paths) q ≡ (
        if listed q paths && not (is_some (get tree q)) then some default_directory else get tree q)
unfolding with_directories
get-with_directories tree [] q = refl
get-with_directories tree (path ∷ paths) q = ground (
  arith,
  get-with_directories (insert_default_directory tree path) paths q,
  get-insert_default tree path q,
)

chain_from-head :
    (fuel : ℕ) (path : Bytes) → rank path < fuel → listed path (chain_from fuel (some path)) ≡ true
unfolding chain_from
chain_from-head zero path h = elim h [ ]
chain_from-head (suc fuel) path h = ground (arith, same_self Text-discrete path)

-- The chain from a path contains the parents of its members.
chain_from_closed :
    (fuel : ℕ) (path q parent : Bytes)
    → rank path < fuel
    → listed q (chain_from fuel (some path)) ≡ true
    → parent_of q ≡ some parent
    → listed parent (chain_from fuel (some path)) ≡ true
unfolding chain_from
chain_from_closed zero path q parent h k above = elim h [ ]
chain_from_closed (suc fuel) path q parent h k above = elim (Bool-cases (same_text q path)) [
  | inl at_path ↦
      let q_eq = same→eq Text-discrete q path at_path in
      let next : parent_of path ≡ some parent = subst (λ p. parent_of p ≡ some parent) q_eq above in
      let found = chain_from-head fuel parent (omega (arith, parent_of-lower path parent next)) in
      ground (arith, next, found)
  | inr later ↦ elim (Option-cases (parent_of path)) [
    | inl e ↦
        absurd
          (ground (arith, k, later, ap (chain_from fuel) e, ap (listed q) (chain_from-none fuel)))
    | inr (next, e) ↦
        let rest : listed q (chain_from fuel (some next)) ≡ true =
          ground (arith, k, later, ap (chain_from fuel) e) in
        let found =
          chain_from_closed fuel next q parent (omega (arith, parent_of-lower path next e)) rest
            above in
        ground (arith, found, ap (chain_from fuel) e)
  ]
]

pub ancestors_closed :
    (name q parent : Bytes)
    → listed q (ancestors name) ≡ true
    → parent_of q ≡ some parent
    → listed parent (ancestors name) ≡ true
unfolding ancestors
ancestors_closed name q parent h above = elim (Option-cases (parent_of name)) [
  | inl e ↦ absurd (
      cc (
        h,
        ap (λ o. listed q (chain_from (length name + 2) o)) e,
        ap (listed q) (chain_from-none (length name + 2)),
      ))
  | inr (first, e) ↦
      let chain : Option Bytes → List Bytes = λ o. chain_from (length name + 2) o in
      let below : rank first < length name + 2 = ground (arith, parent_of-lower name first e) in
      let found =
        chain_from_closed (length name + 2) first q parent below
          (sym (ap (λ o. listed q (chain o)) e) ∙ h) above in
      ap (λ o. listed parent (chain o)) e ∙ found
]

pub ancestors-head :
    (name parent : Bytes) → parent_of name ≡ some parent → listed parent (ancestors name) ≡ true
ancestors-head name parent above =
    ap (listed parent) (ancestors-unrolled name ∙ ap unrolled above)
    ∙ ground (arith, same_self Text-discrete parent)

-- No listed path has an entry that is not a directory.
abbrev pub blocked : Tree → List Bytes → Bool
blocked tree paths =
    any (λ path. is_some (get tree path) && not (is_directory_entry (get tree path))) paths

blocked-listed :
    (tree : Tree) (paths : List Bytes) (q : Bytes)
    → blocked tree paths ≡ false
    → listed q paths ≡ true
    → is_some (get tree q) && not (is_directory_entry (get tree q)) ≡ false
blocked-listed tree [] q h k = absurd (cc)
blocked-listed tree (path ∷ paths) q h k = elim (Bool-cases (same_text q path)) [
  | inl e ↦ ground (arith, h, ap (get tree) (same→eq Text-discrete q path e))
  | inr e ↦ blocked-listed tree paths q (ground (arith, h)) (ground (arith, k, e))
]

-- Behind the loop over a path's ancestors each of them is a directory.
pub with_directories-directory :
    (tree : Tree) (paths : List Bytes) (q : Bytes)
    → blocked tree paths ≡ false
    → listed q paths ≡ true
    → is_directory_entry (get (with_directories tree paths) q) ≡ true
with_directories-directory tree paths q h k = elim (Option-cases (get tree q)) [
  | inl e ↦ ground (arith, get-with_directories tree paths q, e, k)
  | inr (entry, e) ↦
      ground (arith, get-with_directories tree paths q, e, blocked-listed tree paths q h k)
]

pub with_directories-IsRooted :
    (tree : Tree) (name : Bytes)
    → blocked tree (ancestors name) ≡ false
    → IsRooted tree
    → IsRooted (with_directories tree (ancestors name))
with_directories-IsRooted tree name free h = record {
  parents_exist = λ q entry parent found above.
      let paths = ancestors name in
      elim (Bool-cases (listed q paths)) [
        | inl inside ↦
            with_directories-directory tree paths parent free
              (ancestors_closed name q parent inside above)
        | inr outside ↦
            let before : get tree q ≡ some entry =
              ground (arith, get-with_directories tree paths q, found, outside) in
            let is_dir = h.parents_exist q entry parent before above in
            ground (arith, get-with_directories tree paths parent, is_dir)
      ];
}
