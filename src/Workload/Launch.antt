-- ===== src/Workload/Launch.antt =====
-- crates/simferret/src/workload/spec.rs, `LaunchIdentity`.
use simferret.Prelude.{ℕ, List, Text, ℕ_discrete}

pub record LaunchIdentity : Type 0 where
  pub executable : Text
  pub arguments : List Text
  pub environment : List Text
  pub working_directory : Text
  pub uid : ℕ
  pub gid : ℕ

unfoldable pub LaunchIdentity-discrete : Discrete LaunchIdentity
unfolding ℕ_discrete
LaunchIdentity-discrete = hlevel ℕ_discrete
