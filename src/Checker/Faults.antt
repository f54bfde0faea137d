-- ===== src/Checker/Faults.antt =====
-- crates/simferret/src/checker.rs, `fault_properties`: the outage, the restoration and the bounded
-- recovery of a workload run.
use simferret.Prelude.{
  ℕ, ◌+◌, ◌-◌, Bool, true, ◌&&◌, List, [], ◌∷◌, ◌++◌, Option, none, some, Text, codes, same, ltb,
  leb, ◌==◌, if◌then◌else◌, find, and_then, same_text,
}
use simferret.Protocol.Violation.{
  workload_prohibited, workload_not_prohibited, workload_restored, workload_not_restored,
  workload_recovered, workload_not_recovered, restart_late,
}
use simferret.Protocol.Event.{RequestPhase, outage, recovery, RequestPhase-discrete}
use simferret.Assertions.Report.{AssertionName, AssertionResult}
use simferret.Scenario.Types.{PlannedRequest, WorkloadScenario, WorkloadChoicePlan}
use simferret.Checker.Streams.{CompletedLine}
use simferret.Checker.Trace.{StartRecord, ConfiguredRecord, WorkloadTrace}
use simferret.Checker.Views.{stdout_lines, stdout_line_with_ack}
use simferret.Checker.Returns.{failed, passed}
use simferret.Checker.Responses.{request_phase, expected_network_line, echo_line}

abbrev pub peer_of : WorkloadScenario → Text
peer_of scenario = scenario.fixture_peer ++ codes "/32"

-- The first event of a list of peers with ids that names a peer behind an event.
abbrev pub names_after : Text → ℕ → Text × ℕ → Bool
names_after peer event_id entry = same_text entry.0 peer && ltb event_id entry.1

unfoldable pub activation_behind :
    WorkloadTrace → WorkloadScenario → ConfiguredRecord → Option (Text × ℕ)
activation_behind t scenario configured =
    if same_text configured.gateway scenario.fixture_peer
    then find (names_after (peer_of scenario) configured.event_id) t.activations
    else none

unfoldable pub activation : WorkloadTrace → WorkloadScenario → Option (Text × ℕ)
activation t scenario = and_then t.configured (activation_behind t scenario)

abbrev pub restoration_behind : WorkloadTrace → Text × ℕ → Option (Text × ℕ)
restoration_behind t activated = find (names_after activated.0 activated.1) t.restorations

unfoldable pub restoration : WorkloadTrace → WorkloadScenario → Option (Text × ℕ)
restoration t scenario = and_then (activation t scenario) (restoration_behind t)

-- The first planned request of a phase, from an index on.
unfoldable pub first_in_phase :
    RequestPhase → ℕ → ℕ → ℕ → List PlannedRequest → Option PlannedRequest
first_in_phase phase index activated restored [] = none
first_in_phase phase index activated restored (request ∷ requests) =
    if same RequestPhase-discrete (request_phase index activated restored) phase
    then some request
    else first_in_phase phase (index + 1) activated restored requests

abbrev pub phase_line : WorkloadTrace → RequestPhase → PlannedRequest → Option (CompletedLine × ℕ)
phase_line t phase request = stdout_line_with_ack t (expected_network_line request phase)

-- The answer to the first planned request of a phase, with the acknowledgement that it answers.
unfoldable pub phase_answer :
    WorkloadTrace → WorkloadChoicePlan → RequestPhase → Option (CompletedLine × ℕ)
phase_answer t choices phase =
    and_then
      (first_in_phase phase 0 choices.outage_activation_request_index
        choices.restoration_request_index choices.requests)
      (phase_line t phase)

-- `restoration.is_none_or(|(_, restoration_id)| event_id < *restoration_id)`
abbrev pub is_before : ℕ → Option (Text × ℕ) → Bool
is_before event_id none = true
is_before event_id (some (_, restoration_id)) = ltb event_id restoration_id

-- `(…).then(|| (event_id, event_id - from))`
abbrev pub distance_if : Bool → ℕ → ℕ → Option (ℕ × ℕ)
distance_if test event_id from = if test then some (event_id, event_id - from) else none

unfoldable pub prohibited_at :
    WorkloadTrace → WorkloadScenario → Text × ℕ → CompletedLine × ℕ → Option (ℕ × ℕ)
prohibited_at t scenario activated (line, acknowledged) =
    distance_if
      (ltb activated.1 acknowledged
        && ltb activated.1 line.event_id
        && is_before line.event_id (restoration t scenario)
        && leb (line.event_id - activated.1) scenario.outage_event_bound)
      line.event_id activated.1

abbrev pub prohibited_behind :
    WorkloadTrace → WorkloadScenario → WorkloadChoicePlan → Text × ℕ → Option (ℕ × ℕ)
prohibited_behind t scenario choices activated =
    and_then (phase_answer t choices outage) (prohibited_at t scenario activated)

unfoldable pub outage_seen : WorkloadTrace → WorkloadScenario → WorkloadChoicePlan → Option (ℕ × ℕ)
outage_seen t scenario choices =
    and_then (activation t scenario) (prohibited_behind t scenario choices)

unfoldable pub recovered_at : WorkloadScenario → Text × ℕ → CompletedLine × ℕ → Option (ℕ × ℕ)
recovered_at scenario restored (line, acknowledged) =
    distance_if
      (ltb restored.1 acknowledged
        && ltb restored.1 line.event_id
        && leb (line.event_id - restored.1) scenario.liveness_event_bound)
      line.event_id restored.1

abbrev pub recovered_behind :
    WorkloadTrace → WorkloadScenario → WorkloadChoicePlan → Text × ℕ → Option (ℕ × ℕ)
recovered_behind t scenario choices restored =
    and_then (phase_answer t choices recovery) (recovered_at scenario restored)

unfoldable pub recovery_seen :
    WorkloadTrace → WorkloadScenario → WorkloadChoicePlan → Option (ℕ × ℕ)
recovery_seen t scenario choices =
    and_then (restoration t scenario) (recovered_behind t scenario choices)

unfoldable pub restarted_at : WorkloadScenario → StartRecord → CompletedLine → Option (ℕ × ℕ)
restarted_at scenario start line =
    distance_if
      (ltb start.event_id line.event_id
        && leb (line.event_id - start.event_id) scenario.liveness_event_bound)
      line.event_id start.event_id

abbrev pub is_echo : WorkloadChoicePlan → CompletedLine → Bool
is_echo choices line = same_text line.text (echo_line choices.seed 2)

abbrev pub restart_behind :
    WorkloadTrace → WorkloadScenario → WorkloadChoicePlan → StartRecord → Option (ℕ × ℕ)
restart_behind t scenario choices start =
    and_then (find (is_echo choices) (stdout_lines t 2)) (restarted_at scenario start)

abbrev pub is_second : StartRecord → Bool
is_second start = start.invocation == 2

unfoldable pub restart_seen : WorkloadTrace → WorkloadScenario → WorkloadChoicePlan → Option (ℕ × ℕ)
restart_seen t scenario choices =
    and_then (find is_second t.starts) (restart_behind t scenario choices)

unfoldable pub controlled_outage_from : ℕ → Option (ℕ × ℕ) → AssertionResult
controlled_outage_from bound (some (event_id, distance)) =
    passed AssertionName.controlled_outage (workload_prohibited event_id distance)
controlled_outage_from bound none =
    failed AssertionName.controlled_outage (workload_not_prohibited bound)

unfoldable pub restoration_from : Text → Option (Text × ℕ) → AssertionResult
restoration_from peer (some (_, event_id)) =
    passed AssertionName.restoration (workload_restored peer event_id)
restoration_from peer none = failed AssertionName.restoration (workload_not_restored peer)

unfoldable pub bounded_recovery_from : ℕ → Option (ℕ × ℕ) → Option (ℕ × ℕ) → AssertionResult
bounded_recovery_from bound (some (event_id, distance)) (some (restart_id, restart_distance)) =
    passed AssertionName.bounded_recovery
      (workload_recovered event_id distance restart_id restart_distance)
bounded_recovery_from bound none _ =
    failed AssertionName.bounded_recovery (workload_not_recovered bound)
bounded_recovery_from bound (some _) none =
    failed AssertionName.bounded_recovery (restart_late bound)

-- `fault_properties`
unfoldable pub fault_properties :
    WorkloadTrace
    → WorkloadScenario
    → WorkloadChoicePlan
    → AssertionResult × AssertionResult × AssertionResult
fault_properties t scenario choices = (
  controlled_outage_from scenario.outage_event_bound (outage_seen t scenario choices),
  restoration_from (peer_of scenario) (restoration t scenario),
  bounded_recovery_from scenario.liveness_event_bound (recovery_seen t scenario choices)
      (restart_seen t scenario choices),
)
