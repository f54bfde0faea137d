-- ===== src/Workload/Tree/Canonical.antt =====
-- The byte order of the tree of crates/simferret/src/workload/tree.rs.
pub mod Extensional
use simferret.Prelude.{
  ◌≡◌, refl, ap, sym, ◌∙◌, Bool, true, false, not, [], ◌∷◌, none, some, Bytes, arith, same_text,
  Bool-cases, inl, inr, same→eq, same_self, Text-discrete, All, subst, List, Option, map,
  if◌then◌else◌,
}
use simferret.Workload.Tree.{
  Entry, Tree, default_directory, before, get, contains_path, placed, insert,
  insert_default_directory, retain, in_subtree, remove_subtree, not_child, remove_children,
}

before-irreflexive : (path : Bytes) → before path path ≡ false
unfolding before
before-irreflexive [] = refl
before-irreflexive (b ∷ path) = ground (arith, before-irreflexive path)

before_trans : (p q r : Bytes) → before p q ≡ true → before q r ≡ true → before p r ≡ true
unfolding before
before_trans [] [] r h k = absurd (cc)
before_trans [] (c ∷ q) [] h k = absurd (cc)
before_trans [] (c ∷ q) (d ∷ r) h k = refl
before_trans (b ∷ p) [] r h k = absurd (cc)
before_trans (b ∷ p) (c ∷ q) [] h k = absurd (cc)
before_trans (b ∷ p) (c ∷ q) (d ∷ r) h k = ground (arith, h, k, before_trans p q r)

-- Two paths that are not in order one way are equal or in order the other way.
pub before-total : (p q : Bytes) → before p q ≡ false → same_text p q ≡ false → before q p ≡ true
unfolding before
before-total [] [] h k = absurd (ground arith)
before-total [] (c ∷ q) h k = absurd (cc)
before-total (b ∷ p) [] h k = refl
before-total (b ∷ p) (c ∷ q) h k = ground (arith, h, k, before-total p q)

-- Every path of a tree stands behind a given one.
abbrev pub Behind : Bytes → Tree → Type 0
Behind path = All (λ item. before path (item.0) ≡ true)

abbrev pub IsSorted : Tree → Type 0
IsSorted [] = Unit
IsSorted ((p, e) ∷ tree) = Behind p tree × IsSorted tree

pub Behind-trans : (p q : Bytes) (tree : Tree) → before p q ≡ true → Behind q tree → Behind p tree
Behind-trans p q [] h k = tt
Behind-trans p q ((r, e) ∷ tree) h k = (before_trans p q r h k.0, Behind-trans p q tree h k.1)

before-distinct : (p q : Bytes) → before p q ≡ true → same_text q p ≡ false
before-distinct p q h = elim (Bool-cases (same_text q p)) [
  | inl e ↦
      let loop : before p p ≡ true =
        subst (λ r. before p r ≡ true) (same→eq Text-discrete q p e) h in
      absurd (cc (before-irreflexive p, loop))
  | inr e ↦ e
]

pub get-Behind : (p : Bytes) (tree : Tree) → Behind p tree → get tree p ≡ none
unfolding get
get-Behind p [] h = refl
get-Behind p ((q, e) ∷ tree) h = ground (arith, before-distinct p q h.0, get-Behind p tree h.1)

Behind-placed :
    (p path : Bytes) (entry : Entry) (tree : Tree)
    → before p path ≡ true
    → Behind p tree
    → Behind p (placed tree path entry)
unfolding placed
Behind-placed p path entry [] h k = (h, tt)
Behind-placed p path entry ((q, e) ∷ tree) h k = elim (Bool-cases (before path q)) [
  | inl first ↦ rw first (h, k)
  | inr later ↦ elim (Bool-cases (same_text q path)) [
    | inl here ↦ rw later (rw here (h, k.1))
    | inr there ↦ rw later (rw there (k.0, Behind-placed p path entry tree h k.1))
  ]
]

placed-IsSorted :
    (tree : Tree) (path : Bytes) (entry : Entry) → IsSorted tree → IsSorted (placed tree path entry)
unfolding placed
placed-IsSorted [] path entry h = (tt, tt)
placed-IsSorted ((q, e) ∷ tree) path entry h = elim (Bool-cases (before path q)) [
  | inl first ↦ rw first ((first, Behind-trans path q tree first h.0), h)
  | inr later ↦ elim (Bool-cases (same_text q path)) [
    | inl here ↦
        rw later (rw here (subst (λ p. Behind p tree) (same→eq Text-discrete q path here) h.0, h.1))
    | inr there ↦
        let behind = before-total path q later (ground (arith, there)) in
        rw later (
          rw there
            (Behind-placed q path entry tree behind h.0, placed-IsSorted tree path entry h.1))
  ]
]

Behind-retain :
    (keeps : Bytes → Bool) (p : Bytes) (tree : Tree) → Behind p tree → Behind p (retain keeps tree)
unfolding retain
Behind-retain keeps p [] h = tt
Behind-retain keeps p ((q, e) ∷ tree) h = elim (Bool-cases (keeps q)) [
  | inl e' ↦ rw e' (h.0, Behind-retain keeps p tree h.1)
  | inr e' ↦ rw e' (Behind-retain keeps p tree h.1)
]

retain-IsSorted :
    (keeps : Bytes → Bool) (tree : Tree) → IsSorted tree → IsSorted (retain keeps tree)
unfolding retain
retain-IsSorted keeps [] h = tt
retain-IsSorted keeps ((q, e) ∷ tree) h = elim (Bool-cases (keeps q)) [
  | inl e' ↦ rw e' (Behind-retain keeps q tree h.0, retain-IsSorted keeps tree h.1)
  | inr e' ↦ rw e' (retain-IsSorted keeps tree h.1)
]

insert_default_directory-IsSorted :
    (tree : Tree) (path : Bytes) → IsSorted tree → IsSorted (insert_default_directory tree path)
unfolding insert_default_directory
insert_default_directory-IsSorted tree path h = elim (Bool-cases (contains_path tree path)) [
  | inl e ↦ rw e h
  | inr e ↦ rw e (placed-IsSorted tree path default_directory h)
]

-- The trees that the program's operations build from an empty one.
pub data Built : Tree → Type 0 where
  new : Built []
  inserted :
      {tree : Tree}
      → Built tree
      → (path : Bytes) (entry : Entry) → Built ((insert tree path entry).1)
  defaulted :
      {tree : Tree} → Built tree → (path : Bytes) → Built (insert_default_directory tree path)
  pruned : {tree : Tree} → Built tree → (path : Bytes) → Built (remove_subtree tree path)
  emptied : {tree : Tree} → Built tree → (path : Bytes) → Built (remove_children tree path)

pub Built-IsSorted : {tree : Tree} → Built tree → IsSorted tree
unfolding insert remove_subtree remove_children
Built-IsSorted new = tt
Built-IsSorted (inserted {tree = tree} b path entry) =
    placed-IsSorted tree path entry (Built-IsSorted b)
Built-IsSorted (defaulted {tree = tree} b path) =
    insert_default_directory-IsSorted tree path (Built-IsSorted b)
Built-IsSorted (pruned {tree = tree} b path) =
    retain-IsSorted (λ c. not (in_subtree path c)) tree (Built-IsSorted b)
Built-IsSorted (emptied {tree = tree} b path) =
    retain-IsSorted (not_child path) tree (Built-IsSorted b)
