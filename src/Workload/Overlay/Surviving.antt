-- ===== src/Workload/Overlay/Surviving.antt =====
-- What of a workload survives the overlay of crates/simferret/src/workload/mod.rs.
use simferret.Prelude.{
  ◌≡◌, refl, ◌∙◌, Bool, true, false, ◌&&◌, ◌||◌, not, [], ◌∷◌, ◌⊎◌, Bytes, arith, same_text, ok,
  invalid_input, >>=-eq-ok, refuse_if-ok, all, Bool-cases, inl, inr, Text-discrete, ℕ_discrete,
}
use simferret.Workload.Launch.{LaunchIdentity}
use simferret.Workload.Path.{subtree_prefix}
use simferret.Workload.Tree.{Tree, get, default_directory, remove_subtree, in_subtree}
use simferret.Workload.Tree.Template.{is_directory}
use simferret.Workload.Tree.Lookup.{operations-Refines}
use simferret.Workload.Directory.{trim_start}
use simferret.Workload.Overlay.{
  overlay_tmp, overlay_dev, below_overlay, below_or_at, check_overlay,
  validate_overlay_compatibility,
}

-- What the guest runtime leaves of the packaged tree.
abbrev pub without_overlay : Tree → Tree
without_overlay tree = remove_subtree (remove_subtree tree overlay_tmp) overlay_dev

outside-not_in_subtree :
    (path : Bytes)
    → below_or_at path ≡ false
    → (in_subtree overlay_tmp path ≡ false) × (in_subtree overlay_dev path ≡ false)
unfolding below_or_at in_subtree subtree_prefix Text-discrete ℕ_discrete
outside-not_in_subtree path h = (ground (arith, h), ground (arith, h))

get-remove_subtree :
    (tree : Tree) (path q : Bytes)
    → in_subtree path q ≡ false
    → get (remove_subtree tree path) q ≡ get tree q
get-remove_subtree tree path q h =
    ground (arith, (operations-Refines tree path default_directory q).prunes, h)

get-without_overlay :
    (tree : Tree) (q : Bytes) → below_or_at q ≡ false → get (without_overlay tree) q ≡ get tree q
get-without_overlay tree q h =
    let (tmp, dev) = outside-not_in_subtree q h in
    get-remove_subtree (remove_subtree tree overlay_tmp) overlay_dev q dev
    ∙ get-remove_subtree tree overlay_tmp q tmp

-- Only directories stand where the overlay's subtrees are.
abbrev pub replaces_directories : Tree → Bool
replaces_directories tree =
    all (λ item. not (below_or_at (item.0)) || is_directory (item.1.kind)) tree

check_overlay-replaces_directories :
    (tree : Tree) → check_overlay tree ≡ ok tt → replaces_directories tree ≡ true
unfolding check_overlay
check_overlay-replaces_directories [] h = refl
check_overlay-replaces_directories ((path, entry) ∷ tree) h =
    let (collides, rest) =
      refuse_if-ok (below_or_at path && not (is_directory (entry.kind))) invalid_input _ h in
    ground (arith, collides, check_overlay-replaces_directories tree rest)

-- A tree and launch that are accepted lose nothing that they need to the overlay: what it replaces are
-- directories, the executable's entry is still there, and the working directory's is, unless it is one
-- of the two directories that the overlay makes anew.
pub validate_overlay_compatibility_survives :
    (tree : Tree) (launch : LaunchIdentity)
    → validate_overlay_compatibility tree launch ≡ ok tt
    → (replaces_directories tree ≡ true)
      × (get (without_overlay tree) (trim_start (launch.executable))
          ≡ get tree (trim_start (launch.executable)))
      × ((same_text (trim_start (launch.working_directory)) overlay_tmp ≡ true)
          ⊎ (same_text (trim_start (launch.working_directory)) overlay_dev ≡ true)
          ⊎ (get (without_overlay tree) (trim_start (launch.working_directory))
              ≡ get tree (trim_start (launch.working_directory))))
unfolding validate_overlay_compatibility
validate_overlay_compatibility_survives tree launch h =
    let executable = trim_start (launch.executable) in
    let directory = trim_start (launch.working_directory) in
    let (_, entries, h₁) = >>=-eq-ok (check_overlay tree) _ {b = tt} h in
    let (kept, h₂) = refuse_if-ok (below_or_at executable) invalid_input _ h₁ in
    let below : below_overlay directory ≡ false = ground (arith, h₂) in
    (
      check_overlay-replaces_directories tree entries,
      get-without_overlay tree executable kept,
      elim (Bool-cases (same_text directory overlay_tmp)) [
        | inl at_tmp ↦ inl at_tmp
        | inr not_tmp ↦ elim (Bool-cases (same_text directory overlay_dev)) [
          | inl at_dev ↦ inr (inl at_dev)
          | inr not_dev ↦
              let outside : below_or_at directory ≡ false =
                unfold below_or_at in ground (arith, below, not_tmp, not_dev) in
              inr (inr (get-without_overlay tree directory outside))
        ]
      ],
    )
