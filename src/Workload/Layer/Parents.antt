-- ===== src/Workload/Layer/Parents.antt =====
-- The parents of the paths of crates/simferret/src/workload/tree.rs, and what a removal does to them.
use simferret.Prelude.{
  ◌<◌, ◌≡◌, refl, ap, sym, ◌⊎◌, ◌≢◌, inl, inr, Bool, true, false, ◌&&◌, ◌||◌, not, [], ◌∷◌, ◌++◌,
  some, Bytes, arith, same_text, starts_with, ◌==◌, length, Bool-cases, Option-cases, subst,
  same→eq, same_self, Text-discrete, ℕ_discrete, ◌≤◌, length-append,
}
use simferret.Workload.Path.{slash, root_path, is_empty, subtree_prefix, before_last, parent_of}
use simferret.Workload.Path.Ancestors.{parent_of-lower}
use simferret.Workload.Tree.{in_subtree, not_child}

before_last-split :
    (path front : Bytes)
    → before_last path ≡ some front
    → (name : Bytes) × (path ≡ front ++ slash ∷ name)
unfolding before_last
before_last-split [] front h = absurd (cc)
before_last-split (b ∷ path) front h = elim (Option-cases (before_last path)) [
  | inl e ↦
      let at_slash : (b == slash) ≡ true = ground (arith, h, e) in
      let no_front : [] ≡ front = ground (arith, h, e) in (path, ground (arith, at_slash, no_front))
  | inr (rest, e) ↦
      let (name, split) = before_last-split path rest e in (name, ground (arith, h, e, split))
]

-- A path below another one is the parent's with a slash and a name, but below the root.
parent_of-split :
    (path parent : Bytes)
    → parent_of path ≡ some parent
    → (parent ≡ root_path) ⊎ ((name : Bytes) × (path ≡ parent ++ slash ∷ name))
unfolding parent_of
parent_of-split path parent h = elim (Option-cases (before_last path)) [
  | inl e ↦ inl (ground (arith, h, e))
  | inr (front, e) ↦
      let same_front : front ≡ parent = ground (arith, h, e) in
      let (name, split) = before_last-split path front e in inr (name, cc (split, same_front))
]

starts_with-append :
    (text more prefix : Bytes)
    → starts_with text prefix ≡ true
    → starts_with (text ++ more) prefix ≡ true
unfolding starts_with
starts_with-append [] more [] h = refl
starts_with-append [] more (c ∷ prefix) h = absurd (cc)
starts_with-append (d ∷ text) more [] h = refl
starts_with-append (d ∷ text) more (c ∷ prefix) h =
    ground (arith, h, starts_with-append text more prefix)

starts_with_self : (text more : Bytes) → starts_with (text ++ more) text ≡ true
unfolding starts_with
starts_with_self [] more = refl
starts_with_self (c ∷ text) more = ground (arith, starts_with_self text more)

append-append_slash : (path name : Bytes) → (path ++ slash ∷ []) ++ name ≡ path ++ slash ∷ name
append-append_slash [] name = refl
append-append_slash (b ∷ path) name = ap (◌∷◌ b) (append-append_slash path name)

child-starts_with :
    (path name : Bytes) → starts_with (path ++ slash ∷ name) (path ++ slash ∷ []) ≡ true
child-starts_with path name =
    subst (λ text. starts_with text (path ++ slash ∷ []) ≡ true) (append-append_slash path name)
      (starts_with_self (path ++ slash ∷ []) name)

prefix_filled : (path : Bytes) → is_empty (path ++ slash ∷ []) ≡ false
prefix_filled [] = refl
prefix_filled (b ∷ path) = refl

pub root_outside : (path : Bytes) → starts_with root_path (path ++ slash ∷ []) ≡ false
unfolding starts_with
root_outside [] = refl
root_outside (b ∷ []) = ground arith
root_outside (b ∷ c ∷ path) = ground arith

-- Is a path strictly below another?
abbrev pub is_below : Bytes → Bytes → Bool
is_below path candidate = starts_with candidate (path ++ slash ∷ [])

-- What is below a path is below it with its children.
pub is_below-parent_of :
    (path q parent : Bytes)
    → parent_of q ≡ some parent
    → is_below path parent ≡ true
    → is_below path q ≡ true
is_below-parent_of path q parent h k = elim (parent_of-split q parent h) [
  | inl is_root ↦ absurd (cc (root_outside path, k, ap (is_below path) is_root))
  | inr (name, split) ↦
      subst (λ text. is_below path text ≡ true) (sym split)
        (starts_with-append parent (slash ∷ name) (path ++ slash ∷ []) k)
]

pub is_below_parent :
    (q parent : Bytes)
    → parent_of q ≡ some parent
    → same_text parent root_path ≡ false
    → is_below parent q ≡ true
is_below_parent q parent h other = elim (parent_of-split q parent h) [
  | inl is_root ↦
      absurd
        (cc (other, same_self Text-discrete root_path, ap (λ p. same_text p root_path) is_root))
  | inr (name, split) ↦
      subst (λ text. is_below parent text ≡ true) (sym split) (child-starts_with parent name)
]

pub in_subtree-below :
    (path q : Bytes)
    → in_subtree path q ≡ same_text q path || is_below path q || same_text path root_path
unfolding in_subtree subtree_prefix
in_subtree-below path q = ground (arith, prefix_filled path)

-- With a path its children are in a subtree.
pub in_subtree-parent_of :
    (path q parent : Bytes)
    → parent_of q ≡ some parent
    → in_subtree path parent ≡ true
    → in_subtree path q ≡ true
in_subtree-parent_of path q parent h k = elim (Bool-cases (same_text path root_path)) [
  | inl is_root ↦ ground (arith, in_subtree-below path q, is_root)
  | inr other ↦ elim (Bool-cases (same_text parent path)) [
    | inl same_path ↦
        let path_eq = same→eq Text-discrete parent path same_path in
        let not_root = subst (λ p. same_text p root_path ≡ false) (sym path_eq) other in
        let below =
          subst (λ p. is_below p q ≡ true) path_eq (is_below_parent q parent h not_root) in
        ground (arith, in_subtree-below path q, below)
    | inr apart ↦
        let parent_below : is_below path parent ≡ true =
          ground (arith, in_subtree-below path parent, k, apart, other) in
        ground (arith, in_subtree-below path q, is_below-parent_of path q parent h parent_below)
  ]
]

pub in_subtree_self : (path : Bytes) → in_subtree path path ≡ true
in_subtree_self path = ground (arith, in_subtree-below path path, same_self Text-discrete path)

pub not_child-below :
    (path q : Bytes)
    → not_child path q
      ≡ same_text q root_path || (not (same_text path root_path) && not (is_below path q))
unfolding not_child subtree_prefix
not_child-below path q = ground (arith, prefix_filled path)

pub no_parent : (parent : Bytes) → parent_of root_path ≢ some parent
unfolding parent_of Text-discrete ℕ_discrete
no_parent parent h = absurd (cc)

-- With a path that stays when children are removed its parent stays.
pub not_child-parent_of :
    (path q parent : Bytes)
    → parent_of q ≡ some parent
    → not_child path q ≡ true
    → not_child path parent ≡ true
not_child-parent_of path q parent h k = elim (Bool-cases (same_text q root_path)) [
  | inl is_root ↦
      let q_eq = same→eq Text-discrete q root_path is_root in
      absurd (no_parent parent (subst (λ p. parent_of p ≡ some parent) q_eq h))
  | inr other ↦ elim (Bool-cases (is_below path parent)) [
    | inl below ↦
        absurd (
          ground
            (arith, not_child-below path q, k, other, is_below-parent_of path q parent h below))
    | inr outside ↦
        ground (arith, not_child-below path q, not_child-below path parent, k, other, outside)
  ]
]

length-starts_with :
    (text prefix : Bytes) → starts_with text prefix ≡ true → length prefix ≤ length text
unfolding starts_with
length-starts_with text [] h = omega arith
length-starts_with [] (c ∷ prefix) h = absurd (cc)
length-starts_with (d ∷ text) (c ∷ prefix) h = ground (arith, h, length-starts_with text prefix)

not_below_longer :
    (q parent : Bytes)
    → length parent < length q
    → in_subtree q parent ≡ true
    → same_text q root_path ≡ true
not_below_longer q parent h k = elim (Bool-cases (same_text parent q)) [
  | inl e ↦ absurd (omega (arith, h, ap length (same→eq Text-discrete parent q e)))
  | inr apart ↦ elim (Bool-cases (is_below q parent)) [
    | inl below ↦ absurd (
        omega (
          arith,
          h,
          length-starts_with parent (q ++ slash ∷ []) below,
          length-append q (slash ∷ []),
        ))
    | inr outside ↦ ground (arith, in_subtree-below q parent, k, apart, outside)
  ]
]

-- A path's parent is not in the path's subtree.
pub parent-in_subtree : (q parent : Bytes) → parent_of q ≡ some parent → in_subtree q parent ≡ false
parent-in_subtree q parent h = elim (Bool-cases (same_text q root_path)) [
  | inl is_root ↦ absurd (
      no_parent parent
        (subst (λ p. parent_of p ≡ some parent) (same→eq Text-discrete q root_path is_root) h))
  | inr other ↦ elim (Bool-cases (same_text parent root_path)) [
    | inl at_root ↦
        let parent_eq = same→eq Text-discrete parent root_path at_root in
        let apart : same_text root_path q ≡ false = ground (arith, other) in
        subst (λ p. in_subtree q p ≡ false) (sym parent_eq)
          (ground (arith, in_subtree-below q root_path, root_outside q, other, apart))
    | inr inner ↦ elim (Bool-cases (in_subtree q parent)) [
      | inl inside ↦
          let shorter : length parent < length q =
            ground (arith, parent_of-lower q parent h, other, inner) in
          absurd (cc (not_below_longer q parent shorter inside, other))
      | inr outside ↦ outside
    ]
  ]
]
