-- ===== src/Scenario/Types.antt =====
-- crates/simferret/src/scenario.rs: scenarios, plans and their limits.
use simferret.Prelude.{ℕ, ◌*◌, Bool, List, Text}

abbrev pub scenario_version : ℕ
scenario_version = 1

abbrev pub choice_plan_version : ℕ
choice_plan_version = 1

abbrev pub workload_scenario_version : ℕ
workload_scenario_version = 1

abbrev pub workload_choice_plan_version : ℕ
workload_choice_plan_version = 1

abbrev pub max_scenario_source_bytes : ℕ
max_scenario_source_bytes = 1024 * 1024

abbrev pub max_scenario_name_bytes : ℕ
max_scenario_name_bytes = 256

abbrev pub max_request_count : ℕ
max_request_count = 256

abbrev pub max_total_payload_bytes : ℕ
max_total_payload_bytes = 1024 * 1024

abbrev pub min_workload_request_count : ℕ
min_workload_request_count = 4

abbrev pub max_workload_payload_bytes : ℕ
max_workload_payload_bytes = 63

-- `MAX_REQUEST_DATA_LENGTH` of crates/simferret/src/protocol.rs
abbrev pub max_request_data_length : ℕ
max_request_data_length = 64 * 1024

pub record Scenario : Type 0 where
  pub version : ℕ
  pub name : Text
  pub request_count : ℕ
  pub payload_bytes : ℕ
  pub fixture_peer : Text
  pub outage_event_bound : ℕ
  pub liveness_event_bound : ℕ
  pub corrupt_responses : Bool

pub record PlannedRequest : Type 0 where
  pub request_id : Text
  pub payload : Text

pub record ChoicePlan : Type 0 where
  pub version : ℕ
  pub seed : ℕ
  pub outage_activation_request_index : ℕ
  pub restoration_request_index : ℕ
  pub requests : List PlannedRequest

pub record WorkloadScenario : Type 0 where
  pub version : ℕ
  pub name : Text
  pub request_count : ℕ
  pub payload_bytes : ℕ
  pub fixture_peer : Text
  pub outage_event_bound : ℕ
  pub liveness_event_bound : ℕ
  pub corrupt_responses : Bool

pub record WorkloadChoicePlan : Type 0 where
  pub version : ℕ
  pub seed : ℕ
  pub process_fault_request_index : ℕ
  pub outage_activation_request_index : ℕ
  pub restoration_request_index : ℕ
  pub requests : List PlannedRequest
