-- ===== src/Assertions/Report.antt =====
-- crates/simferret/src/assertions.rs: the report of a run's assertions.
use simferret.Prelude.{ℕ, Bool, List, [], ◌∷◌, if◌then◌else◌}
use simferret.Protocol.Violation.{Detail}

pub data AssertionName : Type 0 where
  safety controlled_outage restoration bounded_recovery process_safety : AssertionName
  response_integrity : AssertionName

pub record AssertionResult : Type 0 where
  pub name : AssertionName
  pub passed : Bool
  pub detail : Detail

pub record AssertionReport : Type 0 where
  pub passed : Bool
  pub assertions : List AssertionResult

-- `AssertionName::NETWORK_PROFILE`
abbrev pub network_profile : List AssertionName
network_profile = safety ∷ controlled_outage ∷ restoration ∷ bounded_recovery ∷ []

-- `AssertionName::WORKLOAD_PROFILE`
abbrev pub workload_profile : List AssertionName
workload_profile =
    process_safety ∷ response_integrity ∷ controlled_outage ∷ restoration ∷ bounded_recovery ∷ []

-- `AssertionReport::exit_code`
unfoldable pub exit_code : AssertionReport → ℕ
exit_code report = if report.passed then 0 else 1
