-- ===== src/Checker/Examples.antt =====
-- A concrete run of the acceptance profile for the checker's theorems.
use simferret.Prelude.{
  length, Bytes, Text, decimal, decimal_rounds, hex_fixed, false, ℕ, ◌≡◌, refl, true, List, [], ◌∷◌,
  ◌++◌, some, codes, Text-discrete, ℕ_discrete, starts_with,
}
use simferret.Workload.Launch.{LaunchIdentity, LaunchIdentity-discrete}
use simferret.Protocol.Process.{
  ℤ-discrete, pos, ProcessExit, stdout, signaled, ProcessExit-discrete,
}
use simferret.Protocol.Event.{
  Event, network_configured, outage_activated, network_restored, input_accepted,
  RequestPhase-discrete, workload_started, termination_requested, workload_output, workload_exited,
  cleanup_complete, EventFrame, no_diagnostics, current_version,
}
use simferret.Protocol.Hex.{encode_bytes, decode_bytes, decode_pairs, hex_digit}
use simferret.Assertions.Report.{AssertionReport, AssertionResult}
use simferret.Assertions.Evaluate.{report_of}
use simferret.Scenario.Types.{PlannedRequest, WorkloadScenario, WorkloadChoicePlan}
use simferret.Checker.Responses.{
  echo_token, request_phase, expected_network_line, network_lines, expected_first, expected_second,
  line_mismatch, early_line, invocation_answered, exit_matches, exits_match, outputs_match,
  response_integrity,
}
use simferret.Checker.Faults.{
  activation_behind, activation, restoration, first_in_phase, phase_answer, prohibited_at,
  outage_seen, recovered_at, recovery_seen, restarted_at, restart_seen, controlled_outage_from,
  restoration_from, bounded_recovery_from, fault_properties,
}
use simferret.Checker.Evaluate.{evaluate_workload}
use simferret.Checker.Integrity.{ExactResponses, response_integrity-ExactResponses}
use simferret.Checker.Transitions.{FaultsSeen, fault_properties-FaultsSeen}
use simferret.Checker.WorkloadRun.{WorkloadRun, evaluate_workload-WorkloadRun}
use simferret.Checker.Utf8.{first_byte, utf8_step, lossy_from, from_utf8_lossy}
use simferret.Checker.Streams
use simferret.Checker.Streams.{
  InvocationStreams, complete_line, complete_lines, receive, bound_pending, push_work, push_input,
}
use simferret.Checker.Trace.{
  WorkloadTrace, empty_trace, streams_of, update_entry, started, exited, terminated, cleaned,
  exit_of, violate_or, push_event, push, push_all,
}
use simferret.Checker.Views.{
  stream_violations, all_violations, stdout_lines, all_stdout_lines, any_stdout_line, stderr_lines,
  answered_line, line_with_ack, stdout_line_with_ack,
}
use simferret.Checker.ProcessSafety.{
  fresh_state_line, state_line_prefix, escaped_descendant_line, two_starts, roots_fresh,
  second_ends, descendant_escaped, barrier, first_ends, identities, process_safety,
}
use simferret.Checker.Returns.{refuse, absent, require}
use simferret.Checker.Order.{SafeHistory, process_safety-SafeHistory}
use simferret.Checker.Origin.{IsFromFrames, trace-IsFromFrames}
use simferret.Checker.Orderly.{IsOrderly}
use simferret.Checker.RecordOrder.{trace-IsOrderly}
use simferret.Checker.SafeRun.{SafeRun, process_safety-SafeRun}
use simferret.Checker.Reading.{IsReadStreams, trace-IsReadStreams}

abbrev frame : ℕ → ℕ → Event → EventFrame
frame event_id command_id event = record {
  protocol_version = current_version;
  event_id = event_id;
  command_id = command_id;
  event = event;
  diagnostics = no_diagnostics;
}

abbrev launch : LaunchIdentity
launch = record {
  executable = codes "/bin/echo";
  arguments = [];
  environment = [];
  working_directory = codes "/";
  uid = 0;
  gid = 0;
}

abbrev request : Text → PlannedRequest
request id = record { request_id = id; payload = codes "00" }

abbrev plan : WorkloadChoicePlan
plan = record {
  version = 1;
  seed = 7;
  process_fault_request_index = 1;
  outage_activation_request_index = 1;
  restoration_request_index = 2;
  requests = request (codes "a") ∷ request (codes "b") ∷ request (codes "c") ∷ [];
}

abbrev scenario : WorkloadScenario
scenario = record {
  version = 1;
  name = codes "echo";
  request_count = 3;
  payload_bytes = 1;
  fixture_peer = codes "10.0.2.2";
  outage_event_bound = 4;
  liveness_event_bound = 8;
  corrupt_responses = false;
}

-- The bytes that the two invocations write, a part for each frame. The second frame of the first
-- invocation ends within a line.
abbrev ready : Text
ready = codes "ready version=1" ++ 10 ∷ []

abbrev echo : ℕ → Text
echo digit =
    codes "echo value=echo-" ++ digit ∷ codes "-0000000000000007" ++ 10 ∷ codes "state value="

abbrev fresh : Text
fresh = codes "fresh root=fresh" ++ 10 ∷ []

abbrev answer_a : Text
answer_a = codes "network state=ok request=a" ++ 10 ∷ []

abbrev answer_b : Text
answer_b = codes "network state=unavailable request=b errno=13" ++ 10 ∷ []

abbrev answer_c : Text
answer_c = codes "network state=ok request=c" ++ 10 ∷ []

abbrev escaped : Text
escaped = codes "descendant state=escaped" ++ 10 ∷ []

abbrev writes : ℕ → ℕ → ℕ → ℕ → ℕ → Text → EventFrame
writes event_id command_id invocation offset sequence bytes =
    frame event_id command_id
      (workload_output invocation stdout offset sequence (encode_bytes bytes))

-- A digest that tells texts apart by their length.
abbrev digest : Bytes → Text
digest bytes = length bytes ∷ []

abbrev out_1 : ℕ
out_1 = length (ready ++ echo b'1' ++ fresh ++ answer_a ++ escaped)

abbrev out_2 : ℕ
out_2 = length (ready ++ echo b'2' ++ fresh ++ answer_b ++ answer_c)

abbrev first_half : List EventFrame
first_half =
    frame 1 1 (network_configured (codes "eth0") (codes "10.0.2.15/24") (codes "10.0.2.2"))
    ∷ frame 2 2 (workload_started 1 launch)
    ∷ writes 3 2 1 0 1 ready
    ∷ frame 4 3 (input_accepted 1 1 1 false)
    ∷ frame 5 4 (input_accepted 1 2 1 false)
    ∷ writes 6 4 1 (length ready) 2 (echo b'1')
    ∷ writes 7 4 1 (length (ready ++ echo b'1')) 3 fresh
    ∷ frame 8 5 (input_accepted 1 3 1 false)
    ∷ writes 9 5 1 (length (ready ++ echo b'1' ++ fresh)) 4 answer_a
    ∷ frame 10 6 (input_accepted 1 4 1 false)
    ∷ writes 11 6 1 (length (ready ++ echo b'1' ++ fresh ++ answer_a)) 5 escaped
    ∷ frame 12 7 (termination_requested 1 (pos 9))
    ∷ frame 13 7 (workload_exited 1 (signaled (pos 9)) out_1 (out_1 ∷ []) 0 (0 ∷ []) 5)
    ∷ frame 14 7 (cleanup_complete 1 2)
    ∷ []

abbrev second_half : List EventFrame
second_half =
    frame 15 8 (workload_started 2 launch)
    ∷ writes 16 8 2 0 1 ready
    ∷ frame 17 9 (input_accepted 2 1 1 false)
    ∷ frame 18 10 (input_accepted 2 2 1 false)
    ∷ writes 19 10 2 (length ready) 2 (echo b'2')
    ∷ writes 20 10 2 (length (ready ++ echo b'2')) 3 fresh
    ∷ frame 21 11 (outage_activated (codes "10.0.2.2/32") (codes "prohibit 10.0.2.2/32"))
    ∷ frame 22 12 (input_accepted 2 3 1 false)
    ∷ writes 23 12 2 (length (ready ++ echo b'2' ++ fresh)) 4 answer_b
    ∷ frame 24 13 (network_restored (codes "10.0.2.2/32"))
    ∷ frame 25 14 (input_accepted 2 4 1 false)
    ∷ writes 26 14 2 (length (ready ++ echo b'2' ++ fresh ++ answer_b)) 5 answer_c
    ∷ frame 27 15 (input_accepted 2 4 0 true)
    ∷ frame 28 15 (workload_exited 2 (ProcessExit.exited (pos 0)) out_2 (out_2 ∷ []) 0 (0 ∷ []) 5)
    ∷ frame 29 15 (cleanup_complete 2 1)
    ∷ []

abbrev run : List EventFrame
run = first_half ++ second_half

abbrev trace : WorkloadTrace
trace = push_all empty_trace run

run-passes : (process_safety trace plan launch).passed ≡ true
unfolding encode_bytes decode_bytes decode_pairs hex_digit first_byte utf8_step lossy_from
    from_utf8_lossy complete_line complete_lines receive bound_pending push_work Streams.push
    push_input update_entry started exited terminated cleaned exit_of violate_or push_event push
    push_all streams_of stream_violations all_violations stdout_lines stderr_lines all_stdout_lines
    any_stdout_line answered_line line_with_ack stdout_line_with_ack fresh_state_line
    state_line_prefix escaped_descendant_line starts_with refuse absent require two_starts
    roots_fresh second_ends descendant_escaped barrier first_ends identities process_safety
    echo_token request_phase expected_network_line network_lines expected_first expected_second
    line_mismatch early_line invocation_answered exit_matches exits_match outputs_match
    response_integrity activation_behind activation restoration first_in_phase phase_answer
    prohibited_at outage_seen recovered_at recovery_seen restarted_at restart_seen
    controlled_outage_from restoration_from bounded_recovery_from fault_properties decimal
    decimal_rounds hex_fixed Text-discrete ℕ_discrete ℤ-discrete ProcessExit-discrete
    LaunchIdentity-discrete RequestPhase-discrete
run-passes = refl

exact_responses :
    (r : AssertionResult) × (response_integrity digest trace plan ≡ some r) × (r.passed ≡ true)
unfolding encode_bytes decode_bytes decode_pairs hex_digit first_byte utf8_step lossy_from
    from_utf8_lossy complete_line complete_lines receive bound_pending push_work Streams.push
    push_input update_entry started exited terminated cleaned exit_of violate_or push_event push
    push_all streams_of stream_violations all_violations stdout_lines stderr_lines all_stdout_lines
    any_stdout_line answered_line line_with_ack stdout_line_with_ack fresh_state_line
    state_line_prefix escaped_descendant_line starts_with refuse absent require two_starts
    roots_fresh second_ends descendant_escaped barrier first_ends identities process_safety
    echo_token request_phase expected_network_line network_lines expected_first expected_second
    line_mismatch early_line invocation_answered exit_matches exits_match outputs_match
    response_integrity activation_behind activation restoration first_in_phase phase_answer
    prohibited_at outage_seen recovered_at recovery_seen restarted_at restart_seen
    controlled_outage_from restoration_from bounded_recovery_from fault_properties decimal
    decimal_rounds hex_fixed Text-discrete ℕ_discrete ℤ-discrete ProcessExit-discrete
    LaunchIdentity-discrete RequestPhase-discrete
exact_responses = (_, refl, refl)

outage_passes : (fault_properties trace scenario plan).0.passed ≡ true
unfolding encode_bytes decode_bytes decode_pairs hex_digit first_byte utf8_step lossy_from
    from_utf8_lossy complete_line complete_lines receive bound_pending push_work Streams.push
    push_input update_entry started exited terminated cleaned exit_of violate_or push_event push
    push_all streams_of stream_violations all_violations stdout_lines stderr_lines all_stdout_lines
    any_stdout_line answered_line line_with_ack stdout_line_with_ack fresh_state_line
    state_line_prefix escaped_descendant_line starts_with refuse absent require two_starts
    roots_fresh second_ends descendant_escaped barrier first_ends identities process_safety
    echo_token request_phase expected_network_line network_lines expected_first expected_second
    line_mismatch early_line invocation_answered exit_matches exits_match outputs_match
    response_integrity activation_behind activation restoration first_in_phase phase_answer
    prohibited_at outage_seen recovered_at recovery_seen restarted_at restart_seen
    controlled_outage_from restoration_from bounded_recovery_from fault_properties decimal
    decimal_rounds hex_fixed Text-discrete ℕ_discrete ℤ-discrete ProcessExit-discrete
    LaunchIdentity-discrete RequestPhase-discrete
outage_passes = refl

restoration_passes : (fault_properties trace scenario plan).1.passed ≡ true
unfolding encode_bytes decode_bytes decode_pairs hex_digit first_byte utf8_step lossy_from
    from_utf8_lossy complete_line complete_lines receive bound_pending push_work Streams.push
    push_input update_entry started exited terminated cleaned exit_of violate_or push_event push
    push_all streams_of stream_violations all_violations stdout_lines stderr_lines all_stdout_lines
    any_stdout_line answered_line line_with_ack stdout_line_with_ack fresh_state_line
    state_line_prefix escaped_descendant_line starts_with refuse absent require two_starts
    roots_fresh second_ends descendant_escaped barrier first_ends identities process_safety
    echo_token request_phase expected_network_line network_lines expected_first expected_second
    line_mismatch early_line invocation_answered exit_matches exits_match outputs_match
    response_integrity activation_behind activation restoration first_in_phase phase_answer
    prohibited_at outage_seen recovered_at recovery_seen restarted_at restart_seen
    controlled_outage_from restoration_from bounded_recovery_from fault_properties decimal
    decimal_rounds hex_fixed Text-discrete ℕ_discrete ℤ-discrete ProcessExit-discrete
    LaunchIdentity-discrete RequestPhase-discrete
restoration_passes = refl

recovery_passes : (fault_properties trace scenario plan).2.passed ≡ true
unfolding encode_bytes decode_bytes decode_pairs hex_digit first_byte utf8_step lossy_from
    from_utf8_lossy complete_line complete_lines receive bound_pending push_work Streams.push
    push_input update_entry started exited terminated cleaned exit_of violate_or push_event push
    push_all streams_of stream_violations all_violations stdout_lines stderr_lines all_stdout_lines
    any_stdout_line answered_line line_with_ack stdout_line_with_ack fresh_state_line
    state_line_prefix escaped_descendant_line starts_with refuse absent require two_starts
    roots_fresh second_ends descendant_escaped barrier first_ends identities process_safety
    echo_token request_phase expected_network_line network_lines expected_first expected_second
    line_mismatch early_line invocation_answered exit_matches exits_match outputs_match
    response_integrity activation_behind activation restoration first_in_phase phase_answer
    prohibited_at outage_seen recovered_at recovery_seen restarted_at restart_seen
    controlled_outage_from restoration_from bounded_recovery_from fault_properties decimal
    decimal_rounds hex_fixed Text-discrete ℕ_discrete ℤ-discrete ProcessExit-discrete
    LaunchIdentity-discrete RequestPhase-discrete
recovery_passes = refl

report_passes :
    (r : AssertionReport) × (evaluate_workload digest run scenario plan launch ≡ some r)
    × (r.passed ≡ true)
unfolding evaluate_workload report_of encode_bytes decode_bytes decode_pairs hex_digit first_byte
    utf8_step lossy_from from_utf8_lossy complete_line complete_lines receive bound_pending
    push_work Streams.push push_input update_entry started exited terminated cleaned exit_of
    violate_or push_event push push_all streams_of stream_violations all_violations stdout_lines
    stderr_lines all_stdout_lines any_stdout_line answered_line line_with_ack stdout_line_with_ack
    fresh_state_line state_line_prefix escaped_descendant_line starts_with refuse absent require
    two_starts roots_fresh second_ends descendant_escaped barrier first_ends identities
    process_safety echo_token request_phase expected_network_line network_lines expected_first
    expected_second line_mismatch early_line invocation_answered exit_matches exits_match
    outputs_match response_integrity activation_behind activation restoration first_in_phase
    phase_answer prohibited_at outage_seen recovered_at recovery_seen restarted_at restart_seen
    controlled_outage_from restoration_from bounded_recovery_from fault_properties decimal
    decimal_rounds hex_fixed Text-discrete ℕ_discrete ℤ-discrete ProcessExit-discrete
    LaunchIdentity-discrete RequestPhase-discrete
report_passes = (_, refl, refl)

process_safety-SafeHistory_example : SafeHistory trace 1 launch
process_safety-SafeHistory_example = process_safety-SafeHistory trace plan launch run-passes

process_safety-SafeRun_example : SafeRun run launch
process_safety-SafeRun_example = process_safety-SafeRun run plan launch run-passes

trace-IsFromFrames_example : IsFromFrames run trace
trace-IsFromFrames_example = trace-IsFromFrames run

read_1 : (s : InvocationStreams) × (streams_of 1 trace.invocations ≡ some s)
unfolding encode_bytes decode_bytes decode_pairs hex_digit first_byte utf8_step lossy_from
    from_utf8_lossy complete_line complete_lines receive bound_pending push_work Streams.push
    push_input update_entry started exited terminated cleaned exit_of violate_or push_event push
    push_all streams_of Text-discrete ℕ_discrete
read_1 = (_, refl)

trace-IsReadStreams_example : IsReadStreams read_1.0
trace-IsReadStreams_example = trace-IsReadStreams run 1 read_1.0 read_1.1

response_integrity-ExactResponses_example : ExactResponses digest trace plan
response_integrity-ExactResponses_example =
    response_integrity-ExactResponses digest trace plan exact_responses.0 exact_responses.1
      exact_responses.2

fault_properties-FaultsSeen_example : FaultsSeen trace scenario plan
fault_properties-FaultsSeen_example =
    fault_properties-FaultsSeen trace scenario plan outage_passes restoration_passes recovery_passes

evaluate_workload-WorkloadRun_example : WorkloadRun digest run scenario plan launch
evaluate_workload-WorkloadRun_example =
    evaluate_workload-WorkloadRun digest run scenario plan launch report_passes.0 report_passes.1
      report_passes.2

trace-IsOrderly_example : IsOrderly trace
trace-IsOrderly_example = trace-IsOrderly run
