-- ===== src/Workload/Contract.antt =====
-- crates/simferret/src/workload/spec.rs, `validate_launch_identity`: the launch contract that the
-- assembler and the guest share.
pub mod Bounds
use simferret.Prelude.{
  ℕ, Bool, true, false, ◌||◌, not, List, [], ◌∷◌, Text, same_text, contains, split_on, ltb, any,
  length, Result, ok, err, invalid_input, fail, refuse_if, ◌>>=◌, ◌>>◌,
}
use simferret.Workload.Limits.{max_arguments, max_environment_entries}
use simferret.Workload.Launch.{LaunchIdentity}
use simferret.Workload.Path.{slash, dots, is_empty, starts_slash}
use simferret.Workload.Fields.{check_arguments, check_entries, check_owners}

-- `validate_launch_path`
unfoldable pub validate_launch_path : Text → Result (Unit {0})
validate_launch_path value = do
  refuse_if (is_empty value || not (starts_slash value)) invalid_input
  refuse_if (contains value 0) invalid_input
  refuse_if (any (λ component. same_text component dots) (split_on slash value)) invalid_input
  ok tt

-- `launch.arguments[0]`, of a vector that is not empty
abbrev pub first_argument : List Text → Text
first_argument [] = []
first_argument (argument ∷ arguments) = argument

-- `validate_launch_identity`
unfoldable pub validate_launch_identity : LaunchIdentity → Result (Unit {0})
validate_launch_identity launch = do
  validate_launch_path (launch.executable)
  refuse_if (is_empty (launch.arguments)) invalid_input
  refuse_if (ltb max_arguments (length (launch.arguments))) invalid_input
  check_arguments (launch.arguments)
  validate_launch_path (first_argument (launch.arguments))
  refuse_if (ltb max_environment_entries (length (launch.environment))) invalid_input
  check_entries 0 [] (launch.environment)
  validate_launch_path (launch.working_directory)
  check_owners (launch.uid) (launch.gid)
