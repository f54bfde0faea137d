-- ===== src/Workload/Path/Ancestors.antt =====
-- The parents of the paths of crates/simferret/src/workload/tree.rs, and the loop of `ancestors`.
use simferret.Prelude.{
  ℕ, zero, suc, ◌+◌, ◌≤◌, ◌<◌, ◌≡◌, refl, ap, ◌∙◌, false, List, [], ◌∷◌, ◌++◌, Option, none, some,
  Bytes, arith, same_text, Lacks, contains-append, length, if◌then◌else◌, Option-cases, inl, inr,
}
use simferret.Workload.Path.{
  slash, root_path, before_last, parent_of, chain_from, ancestors, join_path,
}
use simferret.Workload.Path.Normal.{IsPlain}

before_last-shorter :
    (path front : Bytes) → before_last path ≡ some front → length front < length path
unfolding before_last
before_last-shorter [] front h = absurd (cc)
before_last-shorter (b ∷ path) front h = elim (Option-cases (before_last path)) [
  | inl e ↦ ground (arith, h, e)
  | inr (rest, e) ↦ ground (arith, h, e, before_last-shorter path rest e)
]

-- How far a path is from the end of the chain.
abbrev pub rank : Bytes → ℕ
rank path = if same_text path root_path then 0 else suc (length path)

pub parent_of-lower : (path parent : Bytes) → parent_of path ≡ some parent → rank parent < rank path
unfolding parent_of
parent_of-lower path parent h = elim (Option-cases (before_last path)) [
  | inl e ↦ ground (arith, h, e)
  | inr (front, e) ↦ ground (arith, h, e, before_last-shorter path front e)
]

chain_from-settled :
    (fuel more : ℕ) (path : Bytes)
    → rank path < fuel
    → rank path < more
    → chain_from fuel (some path) ≡ chain_from more (some path)
unfolding chain_from
chain_from-settled zero more path h k = elim h [ ]
chain_from-settled (suc fuel) zero path h k = elim k [ ]
chain_from-settled (suc fuel) (suc more) path h k = elim (Option-cases (parent_of path)) [
  | inl e ↦ rw e refl
  | inr (parent, e) ↦ rw e (
      ap (◌∷◌ path) (
        chain_from-settled fuel more parent (omega (arith, parent_of-lower path parent e))
          (omega (arith, parent_of-lower path parent e))))
]

abbrev pub unrolled : Option Bytes → List Bytes
unrolled none = []
unrolled (some parent) = parent ∷ ancestors parent

chain_step :
    (fuel : ℕ) (parent : Bytes)
    → rank parent ≤ fuel
    → chain_from (suc fuel) (some parent) ≡ parent ∷ ancestors parent
unfolding ancestors
chain_step fuel parent h = elim (Option-cases (parent_of parent)) [
  | inl e ↦ unfold chain_from in rw e refl
  | inr (next, e) ↦
      unfold chain_from in
      ap (◌∷◌ parent) (
        rw e (
          chain_from-settled fuel (length parent + 2) next
            (omega (arith, parent_of-lower parent next e))
            (ground (arith, parent_of-lower parent next e))))
]

pub chain_from-none : (fuel : ℕ) → chain_from fuel none ≡ []
unfolding chain_from
chain_from-none zero = refl
chain_from-none (suc fuel) = refl

-- The loop of `ancestors` runs to its end on every path: the chain is empty for the root, and else
-- is the parent followed by the parent's own chain.
pub ancestors-unrolled : (path : Bytes) → ancestors path ≡ unrolled (parent_of path)
ancestors-unrolled path = elim (Option-cases (parent_of path)) [
  | inl e ↦ unfold ancestors in rw e (chain_from-none (length path + 2))
  | inr (parent, e) ↦
      let fuel_left : length path + 2 ≡ suc (length path + 1) = omega arith in
      unfold ancestors in
      rw e (
        rw fuel_left
          (chain_step (length path + 1) parent (ground (arith, parent_of-lower path parent e))))
]

before_last_plain : (name : Bytes) → Lacks slash name → before_last name ≡ none
unfolding before_last
before_last_plain [] h = refl
before_last_plain (b ∷ name) h = ground (arith, before_last_plain name)

before_last-append :
    (front name : Bytes) → Lacks slash name → before_last (front ++ slash ∷ name) ≡ some front
unfolding before_last
before_last-append [] name h = rw (before_last_plain name h) refl
before_last-append (b ∷ front) name h = rw (before_last-append front name h) refl

joined-not_root : (front name : Bytes) → same_text (front ++ slash ∷ name) root_path ≡ false
joined-not_root front name = ground (arith, contains-append front (slash ∷ name) slash)

-- The parent of a plain name below a path is that path.
pub parent_of-join_path :
    (parent name : Bytes) → IsPlain name → parent_of (join_path parent name) ≡ some parent
unfolding parent_of join_path
parent_of-join_path parent name h = ground (
  arith,
  h.not_dot,
  before_last_plain name h.no_slash,
  before_last-append parent name h.no_slash,
  joined-not_root parent name,
)

-- Below a path, a plain name's chain of ancestors is the path and then the path's own chain.
pub ancestors-join_path :
    (parent name : Bytes)
    → IsPlain name
    → ancestors (join_path parent name) ≡ parent ∷ ancestors parent
ancestors-join_path parent name h =
    ancestors-unrolled (join_path parent name) ∙ ap unrolled (parent_of-join_path parent name h)
