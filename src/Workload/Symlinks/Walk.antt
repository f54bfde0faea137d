-- ===== src/Workload/Symlinks/Walk.antt =====
-- The walk of crates/simferret/src/workload/tree.rs, `resolve_symlink`, and the step relation that it
-- decides.
use simferret.Prelude.{
  ℕ, zero, suc, ◌+◌, ◌*◌, ◌-◌, ◌≤◌, ◌≡◌, refl, sym, true, false, List, [], ◌∷◌, ◌++◌, Option, none,
  some, Bytes, arith, same_text, split_on, ltb, if◌then◌else◌, length, length-append, Result, ok,
  err, invalid_input, fail, Bool-cases, Option-cases, inl, inr, ◌↔◌, ◌⊎◌, with_first, subst,
}
use simferret.Workload.Limits.{max_symlink_target_bytes, max_symlink_hops}
use simferret.Workload.Path.{slash, dots, is_empty}
use simferret.Workload.Tree.{Tree}
use simferret.Workload.Symlinks.{
  validate_symlink_syntax, kept_parts, pieces, pop, candidate, link_at, walk, first_components,
  walk_fuel, resolve_symlink,
}

-- How many of the parts are not empty.
abbrev named : List Bytes → ℕ
named [] = 0
named (part ∷ parts) = if is_empty part then named parts else suc (named parts)

named-with_first : (b : ℕ) (parts : List Bytes) → named (with_first b parts) ≤ suc (named parts)
named-with_first b [] = omega arith
named-with_first b (part ∷ parts) = ground arith

named-split_on : (path : Bytes) → named (split_on slash path) ≤ length path
unfolding split_on
named-split_on [] = omega arith
named-split_on (b ∷ path) =
    ground (arith, named-split_on path, named-with_first b (split_on slash path))

length-kept_parts : (parts : List Bytes) → length (kept_parts parts) ≤ named parts
unfolding kept_parts
length-kept_parts [] = omega arith
length-kept_parts (part ∷ parts) = ground (arith, length-kept_parts parts)

-- A path has no more pieces than bytes.
length-pieces : (path : Bytes) → length (pieces path) ≤ length path
length-pieces path = omega (arith, length-kept_parts (split_on slash path), named-split_on path)

validate_symlink_syntax_short :
    (target : Bytes)
    → validate_symlink_syntax target ≡ ok tt
    → length target ≤ max_symlink_target_bytes
unfolding validate_symlink_syntax
validate_symlink_syntax_short target h = ground (arith, h)

-- The rounds that a walk can still make.
abbrev rounds : List Bytes → ℕ → ℕ
rounds components hops = length components + (max_symlink_hops - hops) * max_symlink_target_bytes

pub Unit-ok :
    (outcome : Result (Unit {0})) → (outcome ≡ ok tt) ⊎ ((error : _) × (outcome ≡ err error))
Unit-ok (ok tt) = inl refl
Unit-ok (err error) = inr (error, refl)

walk_done :
    (fuel : ℕ) (tree : Tree) (resolved : List Bytes) (hops : ℕ)
    → walk fuel tree [] resolved hops ≡ some (ok tt)
unfolding walk
walk_done zero tree resolved hops = refl
walk_done (suc fuel) tree resolved hops = refl

abbrev pub Returns : Option (Result (Unit {0})) → Type 0
Returns walked = (outcome : Result (Unit {0})) × (walked ≡ some outcome)

walk-Returns :
    (fuel : ℕ) (tree : Tree) (components resolved : List Bytes) (hops : ℕ)
    → hops ≤ max_symlink_hops
    → rounds components hops ≤ fuel
    → Returns (walk fuel tree components resolved hops)
unfolding walk
walk-Returns fuel tree [] resolved hops h k = (ok tt, walk_done fuel tree resolved hops)
walk-Returns zero tree (part ∷ components) resolved hops h k = absurd (omega arith)
walk-Returns (suc fuel) tree (part ∷ components) resolved hops h k =
    elim (Bool-cases (same_text part dots)) [
      | inl is_up ↦ elim (Option-cases (pop resolved)) [
        | inl e ↦ (fail invalid_input, ground (arith, is_up, e))
        | inr (outer, e) ↦
            let (outcome, returned) =
              walk-Returns fuel tree components outer hops h (omega arith) in
            (outcome, ground (arith, is_up, e, returned))
      ]
      | inr not_up ↦ elim (Option-cases (link_at tree (candidate resolved part))) [
        | inl e ↦
            let (outcome, returned) =
              walk-Returns fuel tree components (resolved ++ part ∷ []) hops h (omega arith) in
            (outcome, ground (arith, not_up, e, returned))
        | inr (nested, e) ↦ elim (Bool-cases (ltb max_symlink_hops (suc hops))) [
          | inl over ↦ (fail invalid_input, ground (arith, not_up, e, over))
          | inr under ↦ elim (Unit-ok (validate_symlink_syntax nested)) [
            | inr (error, bad) ↦ (err error, ground (arith, not_up, e, under, bad))
            | inl good ↦
                let in_budget : suc hops ≤ max_symlink_hops = ground arith in
                let (outcome, returned) =
                  walk-Returns fuel tree (pieces nested ++ components) resolved (suc hops) in_budget
                    (omega (
                      arith,
                      length-append (pieces nested) components,
                      length-pieces nested,
                      validate_symlink_syntax_short nested good,
                      in_budget,
                    )) in
                (outcome, ground (arith, not_up, e, under, good, returned))
          ]
        ]
      ]
    ]

-- Following a path of components from a resolved place inside the root: a step up needs a place
-- above, a link is followed while hops are left, and the root is never left.
pub data Resolves (tree : Tree) : ℕ → List Bytes → List Bytes → Type 0 where
  arrived : {budget : ℕ} {resolved : List Bytes} → Resolves tree budget resolved []
  up :
      {budget : ℕ} {resolved outer components : List Bytes} {part : Bytes}
      → same_text part dots ≡ true
      → pop resolved ≡ some outer
      → Resolves tree budget outer components
      → Resolves tree budget resolved (part ∷ components)
  down :
      {budget : ℕ} {resolved components : List Bytes} {part : Bytes}
      → same_text part dots ≡ false
      → link_at tree (candidate resolved part) ≡ none
      → Resolves tree budget (resolved ++ part ∷ []) components
      → Resolves tree budget resolved (part ∷ components)
  follow :
      {budget : ℕ} {resolved components : List Bytes} {part nested : Bytes}
      → same_text part dots ≡ false
      → link_at tree (candidate resolved part) ≡ some nested
      → validate_symlink_syntax nested ≡ ok tt
      → Resolves tree budget resolved (pieces nested ++ components)
      → Resolves tree (suc budget) resolved (part ∷ components)

walk-Resolves :
    (fuel : ℕ) (tree : Tree) (components resolved : List Bytes) (hops : ℕ)
    → hops ≤ max_symlink_hops
    → walk fuel tree components resolved hops ≡ some (ok tt)
    → Resolves tree (max_symlink_hops - hops) resolved components
unfolding walk
walk-Resolves fuel tree [] resolved hops h k = arrived
walk-Resolves zero tree (part ∷ components) resolved hops h k = absurd (cc)
walk-Resolves (suc fuel) tree (part ∷ components) resolved hops h k =
    elim (Bool-cases (same_text part dots)) [
      | inl is_up ↦ elim (Option-cases (pop resolved)) [
        | inl e ↦ absurd (ground (arith, k, e, is_up))
        | inr (outer, e) ↦
            up is_up e
              (walk-Resolves fuel tree components outer hops h (ground (arith, k, e, is_up)))
      ]
      | inr not_up ↦ elim (Option-cases (link_at tree (candidate resolved part))) [
        | inl e ↦ down not_up e (
            walk-Resolves fuel tree components (resolved ++ part ∷ []) hops h
              (ground (arith, k, e, not_up)))
        | inr (nested, e) ↦ elim (Bool-cases (ltb max_symlink_hops (suc hops))) [
          | inl over ↦ absurd (ground (arith, k, e, not_up, over))
          | inr under ↦ elim (Unit-ok (validate_symlink_syntax nested)) [
            | inr (error, bad) ↦ absurd (ground (arith, k, e, not_up, under, bad))
            | inl good ↦
                let in_budget : suc hops ≤ max_symlink_hops = ground arith in
                let left : max_symlink_hops - hops ≡ suc (max_symlink_hops - suc hops) =
                  omega arith in
                let rest =
                  walk-Resolves fuel tree (pieces nested ++ components) resolved (suc hops)
                    in_budget (ground (arith, k, e, not_up, under, good)) in
                subst (λ budget. Resolves tree budget resolved (part ∷ components)) (sym left)
                  (follow not_up e good rest)
          ]
        ]
      ]
    ]

Resolves-walk :
    (tree : Tree) {budget : ℕ} {resolved components : List Bytes} (fuel hops : ℕ)
    (outcome : Result (Unit {0}))
    → Resolves tree budget resolved components
    → budget + hops ≤ max_symlink_hops
    → walk fuel tree components resolved hops ≡ some outcome
    → outcome ≡ ok tt
unfolding walk
Resolves-walk tree {resolved = resolved} fuel hops outcome arrived h k =
    cc (k, walk_done fuel tree resolved hops)
Resolves-walk tree zero hops outcome (up is_up e r) h k = absurd (cc)
Resolves-walk tree zero hops outcome (down not_up e r) h k = absurd (cc)
Resolves-walk tree zero hops outcome (follow not_up e good r) h k = absurd (cc)
Resolves-walk tree (suc fuel) hops outcome (up is_up e r) h k =
    Resolves-walk tree fuel hops outcome r h (ground (arith, k, e, is_up))
Resolves-walk tree (suc fuel) hops outcome (down not_up e r) h k =
    Resolves-walk tree fuel hops outcome r h (ground (arith, k, e, not_up))
Resolves-walk tree (suc fuel) hops outcome (follow {budget = budget} not_up e good r) h k =
    let under : ltb max_symlink_hops (suc hops) ≡ false = ground arith in
    Resolves-walk tree fuel (suc hops) outcome r (omega (arith, h))
      (ground (arith, k, e, not_up, good, under))

-- A symbolic link's check comes to an outcome on every tree, also where links form a loop.
pub resolve_symlink-Returns :
    (tree : Tree) (link_path target : Bytes) → Returns (resolve_symlink tree link_path target)
unfolding resolve_symlink
resolve_symlink-Returns tree link_path target = elim (Unit-ok (validate_symlink_syntax target)) [
  | inr (error, bad) ↦ (err error, ground (arith, bad))
  | inl good ↦
      let components = first_components link_path target in
      let (outcome, returned) =
        walk-Returns (walk_fuel components) tree components [] 0 (omega arith) (omega arith) in
      (outcome, ground (arith, good, returned))
]

-- A link is accepted exactly if its target is well-formed and resolving it, through at most forty
-- links, comes to an end without ever leaving the root.
pub resolve_symlink-Resolves :
    (tree : Tree) (link_path target : Bytes)
    → (resolve_symlink tree link_path target ≡ some (ok tt)) ↔ (
        (validate_symlink_syntax target ≡ ok tt)
        × Resolves tree max_symlink_hops [] (first_components link_path target))
unfolding resolve_symlink
resolve_symlink-Resolves tree link_path target =
    let components = first_components link_path target in
    (
      λ accepted. elim (Unit-ok (validate_symlink_syntax target)) [
        | inr (error, bad) ↦ absurd (ground (arith, bad, accepted))
        | inl good ↦ (
          good,
          walk-Resolves (walk_fuel components) tree components [] 0 (omega arith)
              (ground (arith, good, accepted)),
        )
      ],
      λ (good, resolves).
          let (outcome, returned) =
            walk-Returns (walk_fuel components) tree components [] 0 (omega arith) (omega arith) in
          let is_ok =
            Resolves-walk tree (walk_fuel components) 0 outcome resolves (omega arith) returned in
          ground (arith, good, returned, is_ok),
    )
