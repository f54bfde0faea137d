-- ===== src/Scenario/Examples.antt =====
-- Concrete scenarios for the theorems on acceptance and placement.
use simferret.Prelude.{◌≡◌, refl, ◌↔◌, All, false, some, codes, ok}
use simferret.Scenario.Types.{Scenario, ChoicePlan, WorkloadScenario, WorkloadChoicePlan}
use simferret.Scenario.Peer.{
  is_fixture_peer, parse_ipv4, four, octets, octet, digits_from, split_dots,
}
use simferret.Scenario.Validate.{validate, validate_workload, validate_fields}
use simferret.Scenario.Choices.{choices, workload_choices}
use simferret.Scenario.Placement.{
  IsValid, IsValidWorkload, IsPlaced, IsPlacedWorkload, validate-IsValid,
  validate_workload-IsValidWorkload, choices-IsPlaced, workload_choices-IsPlaced,
}
use simferret.Scenario.Requests.{IsAccepted, choices-IsAccepted}

abbrev tftp_scenario : Scenario
tftp_scenario = record {
  version = 1;
  name = codes "tftp";
  request_count = 5;
  payload_bytes = 16;
  fixture_peer = codes "10.0.2.2";
  outage_event_bound = 4;
  liveness_event_bound = 8;
  corrupt_responses = false;
}

abbrev echo_scenario : WorkloadScenario
echo_scenario = record {
  version = 1;
  name = codes "echo";
  request_count = 6;
  payload_bytes = 32;
  fixture_peer = codes "10.0.2.2";
  outage_event_bound = 4;
  liveness_event_bound = 8;
  corrupt_responses = false;
}

tftp_accepted : validate tftp_scenario ≡ ok tt
unfolding validate validate_fields is_fixture_peer parse_ipv4 four octets octet digits_from
    split_dots
tftp_accepted = refl

echo_accepted : validate_workload echo_scenario ≡ ok tt
unfolding validate_workload validate_fields is_fixture_peer parse_ipv4 four octets octet digits_from
    split_dots
echo_accepted = refl

validate-IsValid_example : (validate tftp_scenario ≡ ok tt) ↔ IsValid tftp_scenario
validate-IsValid_example = validate-IsValid tftp_scenario

validate_workload-IsValidWorkload_example :
    (validate_workload echo_scenario ≡ ok tt) ↔ IsValidWorkload echo_scenario
validate_workload-IsValidWorkload_example = validate_workload-IsValidWorkload echo_scenario

choices-IsPlaced_example :
    (p : ChoicePlan) × (choices tftp_scenario 42 ≡ some p) × IsPlaced tftp_scenario p
choices-IsPlaced_example = choices-IsPlaced tftp_scenario 42 tftp_accepted

workload_choices-IsPlaced_example :
    (p : WorkloadChoicePlan) × (workload_choices echo_scenario 42 ≡ some p)
    × IsPlacedWorkload echo_scenario p
workload_choices-IsPlaced_example = workload_choices-IsPlaced echo_scenario 42 echo_accepted

choices-IsAccepted_example :
    (p : ChoicePlan) × (choices tftp_scenario 42 ≡ some p) × All (IsAccepted 16) p.requests
choices-IsAccepted_example = choices-IsAccepted tftp_scenario 42 tftp_accepted
