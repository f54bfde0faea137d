-- ===== src/Assertions/Evaluate.antt =====
-- crates/simferret/src/assertions.rs, `evaluate`: what a network-fixture run's events show. Each
-- search over the events is a function of its own, in the order in which `evaluate` makes them.
use simferret.Prelude.{
  ℕ, ◌-◌, Bool, true, false, ◌&&◌, List, [], ◌∷◌, ◌++◌, Option, none, some, Text, codes, ltb, leb,
  ◌==◌, same, if◌then◌else◌, find, find_map, all, and_then, same_text,
}
use simferret.Protocol.Process.{ℤ, pos, ℤ-discrete}
use simferret.Protocol.Violation.{
  Detail, response_mismatch, noncanonical_response, pre_outage_observed, no_pre_outage_response,
  prohibited, not_prohibited, restored, not_restored, recovered, not_recovered,
}
use simferret.Protocol.Event.{
  RequestPhase, pre_outage, outage, recovery, RequestPhase-discrete, administrative_prohibited,
  invalid_response, Event, network_configured, outage_activated, network_restored,
  request_attempted, request_succeeded, request_unavailable, EventFrame,
}
use simferret.Assertions.Report.{AssertionName, AssertionReport, AssertionResult}

-- `libc::EACCES`
abbrev pub eacces : ℤ
eacces = pos 13

-- The Boolean tests on phases and errno values.
abbrev pub same_phase : RequestPhase → RequestPhase → Bool
same_phase = same RequestPhase-discrete

abbrev pub is_eacces : Option ℤ → Bool
is_eacces none = false
is_eacces (some errno) = same ℤ-discrete errno eacces

abbrev pub peer_of : Text → Text
peer_of gateway = gateway ++ codes "/32"

abbrev pub rule_of : Text → Text
rule_of peer = codes "prohibit " ++ peer

unfoldable pub configured_in : ℕ → Event → Option (ℕ × Text)
configured_in event_id (network_configured interface guest_cidr gateway) =
    some (event_id, peer_of gateway)
configured_in event_id _ = none

unfoldable pub configured : List EventFrame → Option (ℕ × Text)
configured = find_map (λ frame. configured_in frame.event_id frame.event)

unfoldable pub activated_in : ℕ × Text → ℕ → Event → Option (ℕ × Text)
activated_in (configured_id, expected_peer) event_id (outage_activated peer_cidr rule) =
    if ltb configured_id event_id
      && same_text peer_cidr expected_peer
      && same_text rule (rule_of expected_peer)
    then some (event_id, peer_cidr)
    else none
activated_in _ event_id _ = none

unfoldable pub activation_after : List EventFrame → ℕ × Text → Option (ℕ × Text)
activation_after events c = find_map (λ frame. activated_in c frame.event_id frame.event) events

unfoldable pub activation : List EventFrame → Option (ℕ × Text)
activation events = and_then (configured events) (activation_after events)

unfoldable pub restored_in : ℕ × Text → ℕ → Event → Option ℕ
restored_in (activation_id, activated_peer) event_id (network_restored peer_cidr) =
    if ltb activation_id event_id && same_text peer_cidr activated_peer then some event_id else none
restored_in _ event_id _ = none

unfoldable pub restoration_after : List EventFrame → ℕ × Text → Option ℕ
restoration_after events a = find_map (λ frame. restored_in a frame.event_id frame.event) events

unfoldable pub restoration : List EventFrame → Option ℕ
restoration events = and_then (activation events) (restoration_after events)

-- The test of `matching_success_attempt` on one candidate.
unfoldable pub attempt_matches : EventFrame → Text → Text → RequestPhase → ℕ → ℕ → Event → Bool
attempt_matches outcome request_id request_payload phase event_id command_id
      (request_attempted attempted_id payload attempted_phase) =
    same_text attempted_id request_id
    && same_text payload request_payload
    && same_phase attempted_phase phase
    && (command_id == outcome.command_id)
    && ltb event_id outcome.event_id
attempt_matches outcome _ _ _ event_id command_id _ = false

unfoldable pub success_attempt_in : List EventFrame → EventFrame → Event → Option EventFrame
success_attempt_in events outcome
      (request_succeeded request_id request_payload response_id response_payload phase) =
    if same_text request_id response_id && same_text request_payload response_payload
    then find
        (λ attempt.
          attempt_matches outcome request_id request_payload phase attempt.event_id
            attempt.command_id attempt.event)
        events
    else none
success_attempt_in events outcome _ = none

-- `matching_success_attempt`
unfoldable pub matching_success_attempt : List EventFrame → EventFrame → Option EventFrame
matching_success_attempt events outcome = success_attempt_in events outcome outcome.event

abbrev pub is_some {ℓ} : {A : Type ℓ} → Option A → Bool
is_some none = false
is_some (some a) = true

unfoldable pub mismatch_in : List EventFrame → EventFrame → Event → Option Detail
mismatch_in events frame (request_succeeded _ _ _ _ _) =
    if is_some (matching_success_attempt events frame)
    then none
    else some (response_mismatch frame.event_id)
mismatch_in events frame (request_unavailable _ _ invalid_response _) =
    some (noncanonical_response frame.event_id)
mismatch_in events frame _ = none

unfoldable pub mismatch : List EventFrame → Option Detail
mismatch events = find_map (λ frame. mismatch_in events frame frame.event) events

unfoldable pub succeeded_in : RequestPhase → Event → Bool
succeeded_in phase (request_succeeded _ _ _ _ p) = same_phase p phase
succeeded_in phase _ = false

unfoldable pub attempted_before : ℕ → Option EventFrame → Bool
attempted_before activation_id none = false
attempted_before activation_id (some attempt) = ltb attempt.event_id activation_id

unfoldable pub answered_before : List EventFrame → ℕ × Text → EventFrame → Bool
unfolding succeeded_in attempted_before
answered_before events a outcome =
    succeeded_in pre_outage outcome.event
    && ltb outcome.event_id a.0
    && attempted_before a.0 (matching_success_attempt events outcome)

unfoldable pub pre_outage_response : List EventFrame → Option EventFrame
pre_outage_response events =
    and_then (activation events) (λ a. find (answered_before events a) events)

abbrev pub result : AssertionName → Bool → Detail → AssertionResult
result name passed detail = record { name = name; passed = passed; detail = detail }

unfoldable pub safety_from : Option Detail → Option EventFrame → AssertionResult
safety_from (some detail) _ = result AssertionName.safety false detail
safety_from none (some frame) =
    result AssertionName.safety true (pre_outage_observed frame.event_id)
safety_from none none = result AssertionName.safety false no_pre_outage_response

unfoldable pub safety : List EventFrame → AssertionResult
safety events = safety_from (mismatch events) (pre_outage_response events)

-- One outcome of the inner search of the outage witness.
unfoldable pub prohibited_in : Text → ℕ → ℕ → ℕ → ℕ → ℕ → ℕ → Event → Option (ℕ × ℕ)
prohibited_in request_id attempt_id attempt_command restoration_id bound event_id command_id
      (request_unavailable outcome_id outage administrative_prohibited errno) =
    if is_eacces errno
      && same_text outcome_id request_id
      && (command_id == attempt_command)
      && ltb attempt_id event_id
      && ltb event_id restoration_id
      && leb (event_id - attempt_id) bound
    then some (attempt_id, event_id - attempt_id)
    else none
prohibited_in _ _ _ _ _ _ _ _ = none

unfoldable pub outage_attempt_in : List EventFrame → ℕ → ℕ → ℕ → EventFrame → Event → Option (ℕ × ℕ)
outage_attempt_in events activation_id restoration_id bound attempt
      (request_attempted request_id _ outage) =
    if ltb activation_id attempt.event_id && ltb attempt.event_id restoration_id
    then find_map
        (λ outcome.
          prohibited_in request_id attempt.event_id attempt.command_id restoration_id bound
            outcome.event_id outcome.command_id outcome.event)
        events
    else none
outage_attempt_in events activation_id restoration_id bound attempt _ = none

-- `activation_id.zip(restoration_id)`, and the attempt and its distance from the prohibition.
unfoldable pub outage_between : List EventFrame → ℕ → ℕ × Text → ℕ → Option (ℕ × ℕ)
outage_between events bound a r =
    find_map (λ attempt. outage_attempt_in events a.0 r bound attempt attempt.event) events

unfoldable pub outage_witness : List EventFrame → ℕ → Option (ℕ × ℕ)
outage_witness events bound =
    and_then (activation events)
      (λ a. and_then (restoration events) (outage_between events bound a))

unfoldable pub controlled_outage_from : ℕ → Option (ℕ × ℕ) → AssertionResult
controlled_outage_from bound (some (attempt_id, distance)) =
    result AssertionName.controlled_outage true (prohibited attempt_id distance)
controlled_outage_from bound none =
    result AssertionName.controlled_outage false (not_prohibited bound)

unfoldable pub controlled_outage : List EventFrame → ℕ → AssertionResult
unfolding controlled_outage_from
controlled_outage events bound = controlled_outage_from bound (outage_witness events bound)

unfoldable pub restoration_from : Option ℕ → AssertionResult
restoration_from (some event_id) = result AssertionName.restoration true (restored event_id)
restoration_from none = result AssertionName.restoration false not_restored

unfoldable pub attempted_after : ℕ → ℕ → Option EventFrame → Option (ℕ × ℕ)
attempted_after restoration_id event_id none = none
attempted_after restoration_id event_id (some attempt) =
    if ltb restoration_id attempt.event_id then some (event_id, event_id - restoration_id) else none

unfoldable pub recovered_in : List EventFrame → ℕ → ℕ → EventFrame → Option (ℕ × ℕ)
unfolding succeeded_in attempted_after
recovered_in events restoration_id bound outcome =
    if succeeded_in recovery outcome.event
      && ltb restoration_id outcome.event_id
      && leb (outcome.event_id - restoration_id) bound
    then attempted_after restoration_id outcome.event_id (matching_success_attempt events outcome)
    else none

unfoldable pub recovery_witness : List EventFrame → ℕ → Option (ℕ × ℕ)
recovery_witness events bound =
    and_then (restoration events) (λ r. find_map (recovered_in events r bound) events)

unfoldable pub bounded_recovery_from : ℕ → Option (ℕ × ℕ) → AssertionResult
bounded_recovery_from bound (some (event_id, distance)) =
    result AssertionName.bounded_recovery true (recovered event_id distance)
bounded_recovery_from bound none = result AssertionName.bounded_recovery false (not_recovered bound)

unfoldable pub bounded_recovery : List EventFrame → ℕ → AssertionResult
unfolding bounded_recovery_from
bounded_recovery events bound = bounded_recovery_from bound (recovery_witness events bound)

-- `AssertionReport { passed: assertions.iter().all(…), assertions }`
unfoldable pub report_of : List AssertionResult → AssertionReport
report_of assertions = record { passed = all (λ a. a.passed) assertions; assertions = assertions }

-- `evaluate`
unfoldable pub evaluate : List EventFrame → ℕ → ℕ → AssertionReport
unfolding report_of
evaluate events outage_event_bound recovery_event_bound = report_of (
    safety events
    ∷ controlled_outage events outage_event_bound
    ∷ restoration_from (restoration events)
    ∷ bounded_recovery events recovery_event_bound
    ∷ [])
