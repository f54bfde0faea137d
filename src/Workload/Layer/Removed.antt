-- ===== src/Workload/Layer/Removed.antt =====
-- What the removals of the tree of crates/simferret/src/workload/tree.rs take away, told by the
-- ancestors of a path instead of by the bytes that it starts with.
use simferret.Prelude.{
  ℕ, zero, suc, ◌<◌, ◌≡◌, ap, sym, ◌∙◌, true, false, ◌||◌, not, [], ◌∷◌, none, some, Bytes, arith,
  same_text, starts_with, if◌then◌else◌, Bool-cases, Option-cases, inl, inr, subst, same→eq,
  Text-discrete,
}
use simferret.Workload.Path.{root_path, before_last, parent_of, ancestors}
use simferret.Workload.Path.Ancestors.{ancestors-unrolled, unrolled, rank, parent_of-lower}
use simferret.Workload.Tree.{
  Tree, default_directory, get, in_subtree, remove_subtree, not_child, remove_children,
}
use simferret.Workload.Tree.Lookup.{operations-Refines}
use simferret.Workload.Layer.Parents.{
  is_below, is_below-parent_of, is_below_parent, root_outside, in_subtree-below, not_child-below,
}
use simferret.Workload.Layer.Rooted.{listed}

-- What is below a path has a part before its last slash, which is the path or below it.
front-is_below :
    (path q : Bytes)
    → is_below path q ≡ true
    → (front : Bytes) × (before_last q ≡ some front)
      × (same_text path front || is_below path front ≡ true)
unfolding before_last starts_with
front-is_below [] [] h = absurd (cc)
front-is_below [] (b ∷ q) h = elim (Option-cases (before_last q)) [
  | inl e ↦ ([], ground (arith, h, e), ground arith)
  | inr (front, e) ↦ (b ∷ front, ground (arith, h, e), ground (arith, h))
]
front-is_below (b ∷ path) [] h = absurd (cc)
front-is_below (b ∷ path) (c ∷ q) h =
    let (front, e, inside) = front-is_below path q (ground (arith, h)) in
    (c ∷ front, ground (arith, e), ground (arith, h, inside))

-- What is below a path is its child, or below it with its parent.
is_below-parent :
    (path q parent : Bytes)
    → same_text path root_path ≡ false
    → parent_of q ≡ some parent
    → is_below path q ≡ same_text path parent || is_below path parent
is_below-parent path q parent other h = elim (Bool-cases (is_below path q)) [
  | inl e ↦
      let (front, last, inside) = front-is_below path q e in
      let same_front : front ≡ parent = unfold parent_of in ground (arith, h, last) in
      ground (arith, e, subst (λ p. same_text path p || is_below path p ≡ true) same_front inside)
  | inr e ↦ elim (Bool-cases (same_text path parent)) [
    | inl at_parent ↦
        let path_eq = same→eq Text-discrete path parent at_parent in
        let parent_other = subst (λ p. same_text p root_path ≡ false) path_eq other in
        let below =
          subst (λ p. is_below p q ≡ true) (sym path_eq)
            (is_below_parent q parent h parent_other) in
        absurd (cc (e, below))
    | inr apart ↦ elim (Bool-cases (is_below path parent)) [
      | inl below ↦ absurd (cc (e, is_below-parent_of path q parent h below))
      | inr outside ↦ ground (arith, e, apart, outside)
    ]
  ]
]

parent_of-none : (q : Bytes) → parent_of q ≡ none → same_text q root_path ≡ true
unfolding parent_of
parent_of-none q h = ground (arith, h)

-- A path other than the root is above exactly the paths that it is an ancestor of.
is_below-listed :
    (fuel : ℕ) (path q : Bytes)
    → rank q < fuel
    → same_text path root_path ≡ false
    → is_below path q ≡ listed path (ancestors q)
is_below-listed zero path q h other = elim h [ ]
is_below-listed (suc fuel) path q h other = elim (Option-cases (parent_of q)) [
  | inl e ↦
      let q_eq = same→eq Text-discrete q root_path (parent_of-none q e) in
      ap (is_below path) q_eq
      ∙ root_outside path
      ∙ sym (ap (listed path) (ancestors-unrolled q ∙ ap unrolled e))
  | inr (parent, e) ↦
      let above =
        is_below-listed fuel path parent (omega (arith, h, parent_of-lower q parent e)) other in
      is_below-parent path q parent other e
      ∙ ap (◌||◌ (same_text path parent)) above
      ∙ sym (ap (listed path) (ancestors-unrolled q ∙ ap unrolled e))
]

same_text_sym : (p q : Bytes) → same_text p q ≡ same_text q p
same_text_sym p q = elim (Bool-cases (same_text p q)) [
  | inl e ↦
      let path_eq = same→eq Text-discrete p q e in
      ap (λ r. same_text r q) path_eq ∙ ap (same_text q) (sym path_eq)
  | inr e ↦ elim (Bool-cases (same_text q p)) [
    | inr e' ↦ e ∙ sym e'
    | inl e' ↦
        let path_eq = same→eq Text-discrete q p e' in
        ap (λ r. same_text r q) (sym path_eq) ∙ ap (same_text q) path_eq
  ]
]

-- The root is a path or an ancestor of it.
root_above :
    (q : Bytes)
    → listed root_path (ancestors q) ≡ not (same_text q root_path)
    → listed root_path (q ∷ ancestors q) ≡ true
root_above q h = elim (Bool-cases (same_text q root_path)) [
  | inl e ↦ ground (arith, same_text_sym root_path q, e)
  | inr e ↦ ground (arith, h, e)
]

not_root : (q parent : Bytes) → parent_of q ≡ some parent → not (same_text q root_path) ≡ true
unfolding parent_of
not_root q parent h = ground (arith, h)

-- The root is an ancestor of every other path.
root-listed :
    (fuel : ℕ) (q : Bytes)
    → rank q < fuel
    → listed root_path (ancestors q) ≡ not (same_text q root_path)
root-listed zero q h = elim h [ ]
root-listed (suc fuel) q h = elim (Option-cases (parent_of q)) [
  | inl e ↦
      ap (listed root_path) (ancestors-unrolled q ∙ ap unrolled e)
      ∙ ground (arith, parent_of-none q e)
  | inr (parent, e) ↦
      ap (listed root_path) (ancestors-unrolled q ∙ ap unrolled e)
      ∙ root_above parent (root-listed fuel parent (omega (arith, h, parent_of-lower q parent e)))
      ∙ sym (not_root q parent e)
]

-- A path is in the subtree of itself and of its ancestors.
in_subtree-listed : (path q : Bytes) → in_subtree path q ≡ listed path (q ∷ ancestors q)
in_subtree-listed path q = elim (Bool-cases (same_text path root_path)) [
  | inl e ↦
      let path_eq = same→eq Text-discrete path root_path e in
      ground (arith, in_subtree-below path q, e)
      ∙ sym (
          ap (λ p. listed p (q ∷ ancestors q)) path_eq
          ∙ root_above q (root-listed (suc (rank q)) q (omega arith)))
  | inr e ↦
      in_subtree-below path q
      ∙ ground
          (arith, e, is_below-listed (suc (rank q)) path q (omega arith) e, same_text_sym path q)
]

-- A path stays without the children of another exactly if that is no ancestor of it.
not_child-listed : (path q : Bytes) → not_child path q ≡ not (listed path (ancestors q))
not_child-listed path q = elim (Bool-cases (same_text path root_path)) [
  | inl e ↦
      let path_eq = same→eq Text-discrete path root_path e in
      ground (
        arith,
        not_child-below path q,
        e,
        ap (λ p. listed p (ancestors q)) path_eq,
        root-listed (suc (rank q)) q (omega arith),
      )
  | inr e ↦ elim (Bool-cases (same_text q root_path)) [
    | inl at_root ↦
        let q_eq = same→eq Text-discrete q root_path at_root in
        ground (
          arith,
          not_child-below path q,
          at_root,
          is_below-listed (suc (rank q)) path q (omega arith) e,
          root_outside path,
          ap (is_below path) q_eq,
        )
    | inr inner ↦ ground (
      arith,
      not_child-below path q,
      e,
      inner,
      is_below-listed (suc (rank q)) path q (omega arith) e,
    )
  ]
]

-- What the two removals leave at a path.
pub record Removes (tree : Tree) (path q : Bytes) : Type 0 where
  pub of_subtree :
      get (remove_subtree tree path) q
      ≡ (if listed path (q ∷ ancestors q) then none else get tree q)
  pub of_children :
      get (remove_children tree path) q ≡ (if listed path (ancestors q) then none else get tree q)

-- The removal of a path's subtree takes away the entries of the path and of every path that it is an
-- ancestor of, and the removal of its children those of the latter alone; every other path keeps its
-- entry. The ancestors are those that `parent_of` reaches.
pub removals-Removes : (tree : Tree) (path q : Bytes) → Removes tree path q
removals-Removes tree path q = record {
  of_subtree =
      ground (
        arith,
        (operations-Refines tree path default_directory q).prunes,
        in_subtree-listed path q,
      );
  of_children =
      ground (
        arith,
        (operations-Refines tree path default_directory q).empties,
        not_child-listed path q,
      );
}
