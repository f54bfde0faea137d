-- ===== src/Workload/Fields/Environment.antt =====
-- crates/simferret/src/workload/spec.rs, `normalize_environment`: the environments that it accepts.
use simferret.Prelude.{
  ℕ, ◌+◌, ◌≤◌, ◌≡◌, refl, ◌↔◌, false, ◌||◌, List, [], ◌∷◌, ◌++◌, Option, none, some, Text, arith,
  same_text, Lacks, ltb, any, length, map, All, ok, invalid_input, >>=-eq-ok, refuse_if-ok,
  Option-cases, inl, inr, subst,
}
use simferret.Workload.Limits.{
  max_environment_entries, max_environment_entry_bytes, max_environment_bytes,
}
use simferret.Workload.Path.{is_empty}
use simferret.Workload.Fields.{name_of, check_entries, normalize_environment}

-- An entry `NAME=VALUE` within the limits.
pub record IsEntry (entry : Text) : Type 0 where
  pub in_limit : length entry ≤ max_environment_entry_bytes
  pub no_nul : Lacks 0 entry
  pub name : Text
  pub has_name : name_of entry ≡ some name
  pub filled : is_empty name ≡ false

abbrev pub name_or_empty : Option Text → Text
name_or_empty none = []
name_or_empty (some name) = name

abbrev pub names : List Text → List Text
names entries = map (λ entry. name_or_empty (name_of entry)) entries

abbrev pub total_bytes : List Text → ℕ
total_bytes [] = 0
total_bytes (entry ∷ entries) = length entry + total_bytes entries

-- No name is repeated.
abbrev pub Distinct : List Text → Type 0
Distinct [] = Unit
Distinct (name ∷ rest) = All (λ later. same_text later name ≡ false) rest × Distinct rest

-- The documented limits of an environment.
pub record IsEnvironment (entries : List Text) : Type 0 where
  pub few : length entries ≤ max_environment_entries
  pub each : All IsEntry entries
  pub small : total_bytes entries ≤ max_environment_bytes
  pub distinct : Distinct (names entries)

abbrev Unseen : List Text → List Text → Type 0
Unseen seen = All (λ name. any (same_text name) seen ≡ false)

any-append :
    (name : Text) (seen : List Text) (last : Text)
    → any (same_text name) (seen ++ last ∷ []) ≡ any (same_text name) seen || same_text name last
any-append name [] last = ground arith
any-append name (other ∷ seen) last = ground (arith, any-append name seen last)

Unseen-append :
    (seen : List Text) (last : Text) (later : List Text)
    → Unseen seen later
    → All (λ name. same_text name last ≡ false) later
    → Unseen (seen ++ last ∷ []) later
Unseen-append seen last [] h k = tt
Unseen-append seen last (name ∷ later) h k =
    (ground (arith, any-append name seen last, h.0, k.0), Unseen-append seen last later h.1 k.1)

Unseen-split :
    (seen : List Text) (last : Text) (later : List Text)
    → Unseen (seen ++ last ∷ []) later
    → Unseen seen later × All (λ name. same_text name last ≡ false) later
Unseen-split seen last [] h = (tt, tt)
Unseen-split seen last (name ∷ later) h =
    let (before, fresh) = Unseen-split seen last later h.1 in
    (
      (ground (arith, any-append name seen last, h.0), before),
      (ground (arith, any-append name seen last, h.0), fresh),
    )

record Accepted (total : ℕ) (seen entries : List Text) : Type 0 where
  each : All IsEntry entries
  small : total + total_bytes entries ≤ max_environment_bytes
  unseen : Unseen seen (names entries)
  distinct : Distinct (names entries)

check_entries-Accepted :
    (total : ℕ) (seen entries : List Text)
    → total ≤ max_environment_bytes
    → check_entries total seen entries ≡ ok tt
    → Accepted total seen entries
unfolding check_entries
check_entries-Accepted total seen [] h k = record {
  each = tt;
  small = omega (arith, h);
  unseen = tt;
  distinct = tt;
}
check_entries-Accepted total seen (entry ∷ entries) h k = elim (Option-cases (name_of entry)) [
  | inl e ↦ absurd (ground (arith, e, k))
  | inr (name, e) ↦
      let fits : length entry ≤ max_environment_entry_bytes = ground (arith, e, k) in
      let in_total : total + length entry ≤ max_environment_bytes = ground (arith, e, k) in
      let clean : Lacks 0 entry = ground (arith, e, k) in
      let filled : is_empty name ≡ false = ground (arith, e, k) in
      let fresh : any (same_text name) seen ≡ false = ground (arith, e, k) in
      let rest_ok : check_entries (total + length entry) (seen ++ name ∷ []) entries ≡ ok tt =
        ground (arith, e, k) in
      let rest =
        check_entries-Accepted (total + length entry) (seen ++ name ∷ []) entries in_total
          rest_ok in
      let (before, later) = Unseen-split seen name (names entries) rest.unseen in
      record {
        each = (
          record { in_limit = fits; no_nul = clean; name = name; has_name = e; filled = filled },
          rest.each,
        );
        small = omega (arith, rest.small);
        unseen = (rw e fresh, before);
        distinct = (rw e later, rest.distinct);
      }
]

Accepted-check_entries :
    (total : ℕ) (seen entries : List Text)
    → Accepted total seen entries
    → check_entries total seen entries ≡ ok tt
unfolding check_entries
Accepted-check_entries total seen [] h = refl
Accepted-check_entries total seen (entry ∷ entries) h =
    let item = h.each.0 in
    let fresh : any (same_text (item.name)) seen ≡ false =
      subst (λ o. any (same_text (name_or_empty o)) seen ≡ false) item.has_name h.unseen.0 in
    let later : All (λ name. same_text name (item.name) ≡ false) (names entries) =
      subst (λ o. All (λ name. same_text name (name_or_empty o) ≡ false) (names entries))
        item.has_name h.distinct.0 in
    let small : total + (length entry + total_bytes entries) ≤ max_environment_bytes = h.small in
    let rest =
      Accepted-check_entries (total + length entry) (seen ++ item.name ∷ []) entries (record {
        each = h.each.1;
        small = omega (arith, h.small);
        unseen = Unseen-append seen (item.name) (names entries) h.unseen.1 later;
        distinct = h.distinct.1;
      }) in
    ground (arith, item.in_limit, item.no_nul, item.has_name, item.filled, fresh, rest, small)

Unseen-nothing : (later : List Text) → Unseen [] later
Unseen-nothing [] = tt
Unseen-nothing (name ∷ later) = (refl, Unseen-nothing later)

-- An environment is accepted exactly within the documented limits, and is returned as it is: so many
-- entries at most, each `NAME=VALUE` without NUL and short enough, all together short enough, and no
-- name twice.
pub normalize_environment-IsEnvironment :
    (values entries : List Text)
    → (normalize_environment values ≡ ok entries) ↔ (IsEnvironment values × (values ≡ entries))
unfolding normalize_environment
normalize_environment-IsEnvironment values entries = (
  λ h.
      let (few, h₁) =
        refuse_if-ok (ltb max_environment_entries (length values)) invalid_input _ h in
      let (unit, checked, same) = >>=-eq-ok (check_entries 0 [] values) _ {b = entries} h₁ in
      let accepted = check_entries-Accepted 0 [] values (omega arith) (cc (checked)) in
      (
        record {
          few = ground (arith, few);
          each = accepted.each;
          small = omega (arith, accepted.small);
          distinct = accepted.distinct;
        },
        cc (same),
      ),
  λ (h, same).
      let checked = Accepted-check_entries 0 [] values (record {
        each = h.each;
        small = omega (arith, h.small);
        unseen = Unseen-nothing (names values);
        distinct = h.distinct;
      }) in
      ground (arith, checked, h.few, same),
)
