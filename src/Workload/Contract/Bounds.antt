-- ===== src/Workload/Contract/Bounds.antt =====
-- The launches that crates/simferret/src/workload/spec.rs, `validate_launch_identity`, accepts.
use simferret.Prelude.{
  ◌≤◌, ◌<◌, ◌^◌, ◌≡◌, refl, ◌↔◌, true, false, List, [], ◌∷◌, Text, arith, same_text, Lacks,
  split_on, ltb, any, length, All, ok, invalid_input, >>=-eq-ok, refuse_if-ok,
}
use simferret.Workload.Limits.{max_arguments, max_argument_bytes, max_environment_entries}
use simferret.Workload.Launch.{LaunchIdentity}
use simferret.Workload.Path.{slash, dots, is_empty, starts_slash}
use simferret.Workload.Fields.{check_arguments, check_entries, normalize_environment}
use simferret.Workload.Fields.Environment.{IsEnvironment, normalize_environment-IsEnvironment}
use simferret.Workload.Fields.User.{IsOwner, check_owners-IsOwner}
use simferret.Workload.Contract.{validate_launch_path, first_argument, validate_launch_identity}

-- An absolute path that no `..` leads out of the root.
pub record IsLaunchPath (value : Text) : Type 0 where
  pub absolute : starts_slash value ≡ true
  pub no_nul : Lacks 0 value
  pub inside : any (λ component. same_text component dots) (split_on slash value) ≡ false

pub validate_launch_path-IsLaunchPath :
    (value : Text) → (validate_launch_path value ≡ ok tt) ↔ IsLaunchPath value
unfolding validate_launch_path
validate_launch_path-IsLaunchPath [] = (λ h. absurd (cc (h)), λ h. absurd (cc (h.absolute)))
validate_launch_path-IsLaunchPath (b ∷ value) = (
  λ h. record {
    absolute = ground (arith, h);
    no_nul = ground (arith, h);
    inside = ground (arith, h);
  },
  λ h. ground (arith, h.absolute, h.no_nul, h.inside),
)

pub record IsArgument (value : Text) : Type 0 where
  pub in_limit : length value ≤ max_argument_bytes
  pub no_nul : Lacks 0 value

pub check_arguments-IsArgument :
    (values : List Text) → (check_arguments values ≡ ok tt) ↔ All IsArgument values
unfolding check_arguments
check_arguments-IsArgument [] = (λ h. tt, λ h. refl)
check_arguments-IsArgument (value ∷ values) =
    let rest = check_arguments-IsArgument values in
    (
      λ h. (
        record { in_limit = ground (arith, h); no_nul = ground (arith, h) },
        rest.0 (ground (arith, h)),
      ),
      λ h. ground (arith, h.0.in_limit, h.0.no_nul, rest.1 h.1),
    )

-- The launch contract of the profile.
pub record IsLaunch (launch : LaunchIdentity) : Type 0 where
  pub executable_path : IsLaunchPath (launch.executable)
  pub some_arguments : is_empty (launch.arguments) ≡ false
  pub few_arguments : length (launch.arguments) ≤ max_arguments
  pub each_argument : All IsArgument (launch.arguments)
  pub program_path : IsLaunchPath (first_argument (launch.arguments))
  pub environment_bounded : IsEnvironment (launch.environment)
  pub directory_path : IsLaunchPath (launch.working_directory)
  pub uid_owner : IsOwner (launch.uid)
  pub gid_owner : IsOwner (launch.gid)

normalized_environment :
    (entries : List Text)
    → ltb max_environment_entries (length entries) ≡ false
    → check_entries 0 [] entries ≡ ok tt
    → normalize_environment entries ≡ ok entries
unfolding normalize_environment
normalized_environment entries few checked = ground (arith, few, checked)

normalized_environment_parts :
    (entries : List Text)
    → normalize_environment entries ≡ ok entries
    → (ltb max_environment_entries (length entries) ≡ false) × (check_entries 0 [] entries ≡ ok tt)
unfolding normalize_environment
normalized_environment_parts entries h =
    let (few, h₁) = refuse_if-ok (ltb max_environment_entries (length entries)) invalid_input _ h in
    let (unit, checked, same) = >>=-eq-ok (check_entries 0 [] entries) _ {b = entries} h₁ in
    (few, checked)

-- A launch whose owners are 32-bit numbers is accepted exactly if it keeps the launch contract:
-- absolute paths without `..` or NUL, bounded arguments of which the first is such a path, a bounded
-- environment without repeated names, and owners that are neither root nor reserved.
pub validate_launch_identity-IsLaunch :
    (launch : LaunchIdentity)
    → launch.uid < 2 ^ 32
    → launch.gid < 2 ^ 32
    → (validate_launch_identity launch ≡ ok tt) ↔ IsLaunch launch
unfolding validate_launch_identity
validate_launch_identity-IsLaunch launch u g =
    let path = validate_launch_path-IsLaunchPath in
    let owners = check_owners-IsOwner (launch.uid) (launch.gid) u g in
    let env = normalize_environment-IsEnvironment (launch.environment) (launch.environment) in
    let args = check_arguments-IsArgument (launch.arguments) in
    (
      λ h.
          let (_, executable, h₁) =
            >>=-eq-ok (validate_launch_path (launch.executable)) _ {b = tt} h in
          let (filled, h₂) = refuse_if-ok (is_empty (launch.arguments)) invalid_input _ h₁ in
          let (few, h₃) =
            refuse_if-ok (ltb max_arguments (length (launch.arguments))) invalid_input _ h₂ in
          let (_, checked, h₄) = >>=-eq-ok (check_arguments (launch.arguments)) _ {b = tt} h₃ in
          let (_, program, h₅) =
            >>=-eq-ok (validate_launch_path (first_argument (launch.arguments))) _ {b = tt} h₄ in
          let (few_entries, h₆) =
            refuse_if-ok (ltb max_environment_entries (length (launch.environment))) invalid_input _
              h₅ in
          let (_, entries, h₇) =
            >>=-eq-ok (check_entries 0 [] (launch.environment)) _ {b = tt} h₆ in
          let (_, directory, owned) =
            >>=-eq-ok (validate_launch_path (launch.working_directory)) _ {b = tt} h₇ in
          let both = owners.0 owned in
          let normal = normalized_environment (launch.environment) few_entries (cc (entries)) in
          record {
            executable_path = (path (launch.executable)).0 (cc (executable));
            some_arguments = filled;
            few_arguments = ground (arith, few);
            each_argument = args.0 (cc (checked));
            program_path = (path (first_argument (launch.arguments))).0 (cc (program));
            environment_bounded = (env.0 normal).0;
            directory_path = (path (launch.working_directory)).0 (cc (directory));
            uid_owner = both.0;
            gid_owner = both.1;
          },
      λ h.
          let (few_entries, entries) =
            normalized_environment_parts (launch.environment)
              (env.1 (h.environment_bounded, refl)) in
          ground (
            arith,
            (path (launch.executable)).1 h.executable_path,
            h.some_arguments,
            h.few_arguments,
            args.1 h.each_argument,
            (path (first_argument (launch.arguments))).1 h.program_path,
            few_entries,
            entries,
            (path (launch.working_directory)).1 h.directory_path,
            owners.1 (h.uid_owner, h.gid_owner),
          ),
    )
