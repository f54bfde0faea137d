-- ===== src/Workload/Symlinks/Every.antt =====
-- crates/simferret/src/workload/tree.rs, `validate_symlinks`: the check of every link of a tree.
use simferret.Prelude.{
  ◌≡◌, refl, ◌↔◌, [], ◌∷◌, Option, none, some, Bytes, arith, ok, err, Option-cases, inl, inr, All,
  subst, sym,
}
use simferret.Workload.Limits.{max_symlink_hops}
use simferret.Workload.Tree.{Tree}
use simferret.Workload.Symlinks.{
  validate_symlink_syntax, target_if_link, first_components, resolve_symlink, validate_links,
  validate_symlinks,
}
use simferret.Workload.Symlinks.Walk.{
  Returns, Resolves, resolve_symlink-Returns, resolve_symlink-Resolves, Unit-ok,
}

validate_links-Returns : (tree entries : Tree) → Returns (validate_links tree entries)
unfolding validate_links
validate_links-Returns tree [] = (ok tt, refl)
validate_links-Returns tree ((path, entry) ∷ entries) =
    let (outcome, returned) = validate_links-Returns tree entries in
    elim (Option-cases (target_if_link (some entry))) [
      | inl e ↦ (outcome, ground (arith, e, returned))
      | inr (target, e) ↦
          let (checked, resolved) = resolve_symlink-Returns tree path target in
          elim (Unit-ok checked) [
            | inl good ↦ (outcome, ground (arith, e, resolved, good, returned))
            | inr (error, bad) ↦ (err error, ground (arith, e, resolved, bad))
          ]
    ]

-- The check of a tree's symbolic links comes to an outcome on every tree, also where links form loops.
pub validate_symlinks-Returns : (tree : Tree) → Returns (validate_symlinks tree)
unfolding validate_symlinks
validate_symlinks-Returns tree = validate_links-Returns tree tree

-- A link whose target stays inside the root of a tree.
abbrev pub StaysInside : Tree → Bytes → Bytes → Type 0
StaysInside tree path target =
    (validate_symlink_syntax target ≡ ok tt)
    × Resolves tree max_symlink_hops [] (first_components path target)

-- What is asked of an entry, by its target where it is a link.
abbrev pub LinkStays : Tree → Bytes → Option Bytes → Type 0
LinkStays tree path none = Unit
LinkStays tree path (some target) = StaysInside tree path target

abbrev pub AllStay : Tree → Tree → Type 0
AllStay tree = All (λ item. LinkStays tree (item.0) (target_if_link (some (item.1))))

validate_links-AllStay :
    (tree entries : Tree) → validate_links tree entries ≡ some (ok tt) → AllStay tree entries
unfolding validate_links
validate_links-AllStay tree [] h = tt
validate_links-AllStay tree ((path, entry) ∷ entries) h =
    elim (Option-cases (target_if_link (some entry))) [
      | inl e ↦ (
        subst (LinkStays tree path) (sym e) tt,
        validate_links-AllStay tree entries (ground (arith, e, h)),
      )
      | inr (target, e) ↦
          let (checked, resolved) = resolve_symlink-Returns tree path target in
          elim (Unit-ok checked) [
            | inl good ↦
                let accepted : resolve_symlink tree path target ≡ some (ok tt) =
                  cc (resolved, good) in
                let inside = (resolve_symlink-Resolves tree path target).0 accepted in
                (
                  subst (LinkStays tree path) (sym e) inside,
                  validate_links-AllStay tree entries (ground (arith, e, accepted, h)),
                )
            | inr (error, bad) ↦ absurd (ground (arith, e, resolved, bad, h))
          ]
    ]

AllStay-validate_links :
    (tree entries : Tree) → AllStay tree entries → validate_links tree entries ≡ some (ok tt)
unfolding validate_links
AllStay-validate_links tree [] h = refl
AllStay-validate_links tree ((path, entry) ∷ entries) h =
    elim (Option-cases (target_if_link (some entry))) [
      | inl e ↦ ground (arith, e, AllStay-validate_links tree entries h.1)
      | inr (target, e) ↦
          let inside : StaysInside tree path target = subst (LinkStays tree path) e h.0 in
          let accepted = (resolve_symlink-Resolves tree path target).1 inside in
          ground (arith, e, accepted, AllStay-validate_links tree entries h.1)
    ]

-- A tree's links are accepted exactly if every link has a well-formed target whose resolution,
-- through at most forty links, comes to an end without ever leaving the root.
pub validate_symlinks-StaysInside :
    (tree : Tree) → (validate_symlinks tree ≡ some (ok tt)) ↔ AllStay tree tree
unfolding validate_symlinks
validate_symlinks-StaysInside tree =
    (validate_links-AllStay tree tree, AllStay-validate_links tree tree)
