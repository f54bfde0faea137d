-- ===== src/Workload/Tree/Lookup.antt =====
-- What the operations of the tree of crates/simferret/src/workload/tree.rs do to the map from paths
-- to entries.
use simferret.Prelude.{
  ◌≡◌, refl, sym, ◌∙◌, Bool, true, false, ◌&&◌, not, [], ◌∷◌, Option, none, some, Bytes, arith,
  same_text, if◌then◌else◌, Bool-cases, inl, inr, same→eq, Text-discrete, subst,
}
use simferret.Workload.Tree.{
  Entry, Tree, default_directory, get, contains_path, placed, insert, insert_default_directory,
  retain, in_subtree, remove_subtree, not_child, remove_children, is_some,
}

-- A map that forgets how it is stored.
abbrev pub View : Type 0
View = Bytes → Option Entry

abbrev pub view : Tree → View
view tree = get tree

-- The abstract operations.
abbrev pub updated : View → Bytes → Entry → View
updated entries path entry q = if same_text path q then some entry else entries q

abbrev pub defaulted : View → Bytes → View
defaulted entries path q =
    if same_text path q && not (is_some (entries path)) then some default_directory else entries q

abbrev pub restricted : View → (Bytes → Bool) → View
restricted entries keeps q = if keeps q then entries q else none

get-placed :
    (tree : Tree) (path : Bytes) (entry : Entry) (q : Bytes)
    → get (placed tree path entry) q ≡ updated (view tree) path entry q
unfolding get placed
get-placed [] path entry q = refl
get-placed ((p, e) ∷ tree) path entry q = ground (arith, get-placed tree path entry q)

get-retain :
    (keeps : Bytes → Bool) (tree : Tree) (q : Bytes)
    → get (retain keeps tree) q ≡ restricted (view tree) keeps q
unfolding get retain
get-retain keeps [] q = ground arith
get-retain keeps ((p, e) ∷ tree) q = ground (arith, get-retain keeps tree q)

contains_path-is_some :
    (tree : Tree) (path : Bytes) → contains_path tree path ≡ is_some (view tree path)
unfolding contains_path
contains_path-is_some tree path = refl

get-insert_default_directory :
    (tree : Tree) (path q : Bytes)
    → get (insert_default_directory tree path) q ≡ defaulted (view tree) path q
unfolding insert_default_directory
get-insert_default_directory tree path q = elim (Bool-cases (contains_path tree path)) [
  | inl e ↦ elim (Bool-cases (same_text path q)) [
    | inl same_path ↦
        let present : is_some (get tree q) ≡ true =
          subst (λ p. is_some (get tree p) ≡ true) (same→eq Text-discrete path q same_path)
            (sym (contains_path-is_some tree path) ∙ e) in
        ground (arith, e, same_path, present)
    | inr other ↦ ground (arith, e, other)
  ]
  | inr e ↦ elim (Bool-cases (same_text path q)) [
    | inl same_path ↦
        let absent : is_some (get tree q) ≡ false =
          subst (λ p. is_some (get tree p) ≡ false) (same→eq Text-discrete path q same_path)
            (sym (contains_path-is_some tree path) ∙ e) in
        ground (arith, e, same_path, absent, get-placed tree path default_directory q)
    | inr other ↦ ground (arith, e, other, get-placed tree path default_directory q)
  ]
]

-- What a tree's operation does to the map of its entries: the abstract operation of the same name.
pub record Refines (tree : Tree) (path : Bytes) (entry : Entry) (q : Bytes) : Type 0 where
  pub old_entry : (insert tree path entry).0 ≡ view tree path
  pub inserts : get ((insert tree path entry).1) q ≡ updated (view tree) path entry q
  pub defaults : get (insert_default_directory tree path) q ≡ defaulted (view tree) path q
  pub prunes :
      get (remove_subtree tree path) q ≡ restricted (view tree) (λ c. not (in_subtree path c)) q
  pub empties : get (remove_children tree path) q ≡ restricted (view tree) (not_child path) q

-- On the map from paths to entries the tree's operations are the abstract ones: an insertion returns
-- the old entry and changes one path, a default directory is put only where there is no entry, and a
-- removal keeps exactly the entries outside the subtree, or outside the children.
pub operations-Refines :
    (tree : Tree) (path : Bytes) (entry : Entry) (q : Bytes) → Refines tree path entry q
unfolding insert remove_subtree remove_children
operations-Refines tree path entry q = record {
  old_entry = refl;
  inserts = get-placed tree path entry q;
  defaults = get-insert_default_directory tree path q;
  prunes = get-retain (λ c. not (in_subtree path c)) tree q;
  empties = get-retain (not_child path) tree q;
}
