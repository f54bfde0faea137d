-- ===== src/Protocol/Violation.antt =====
-- The messages that crates/simferret/src/checker.rs and crates/simferret/src/assertions.rs format:
-- one constructor for each format string, with the values that it prints.
use simferret.Prelude.{ℕ, Text}
use simferret.Protocol.Process.{ProcessExit, LaunchFailure, OutputStream, ℤ}

pub data Violation : Type 0 where
  sequence_jump : (invocation previous sequence event_id : ℕ) → Violation
  offset_gap : (invocation : ℕ) (stream : OutputStream) (offset expected : ℕ) → Violation
  line_over_bound : (invocation : ℕ) (stream : OutputStream) → Violation
  line_over_bound_pending : (invocation : ℕ) → Violation
  input_gap : (invocation offset previous bytes event_id : ℕ) → Violation
  eof_with_bytes : (invocation bytes event_id : ℕ) → Violation
  empty_input : (invocation event_id : ℕ) → Violation
  second_eof : (invocation event_id : ℕ) → Violation
  input_after_eof : (invocation event_id : ℕ) → Violation
  command_not_advancing : (invocation command_id previous event_id : ℕ) → Violation
  started_twice : (invocation event_id : ℕ) → Violation
  exit_before_start : (event_id invocation : ℕ) → Violation
  exited_twice : (invocation event_id : ℕ) → Violation
  termination_before_start : (event_id invocation : ℕ) → Violation
  termination_after_exit : (event_id invocation : ℕ) → Violation
  terminated_twice : (invocation event_id : ℕ) → Violation
  cleanup_before_start : (event_id invocation : ℕ) → Violation
  cleaned_twice : (invocation event_id : ℕ) → Violation
  cleanup_before_exit : (invocation event_id : ℕ) → Violation
  cleanup_before_exit_record : (invocation event_id : ℕ) → Violation
  cleanup_reaped_nothing : (invocation event_id : ℕ) → Violation
  launch_failed_twice : (invocation event_id : ℕ) → Violation
  launch_failed_after_exit : (invocation event_id : ℕ) → Violation
  configured_twice : (event_id previous : ℕ) → Violation
  unknown_network_profile : (event_id : ℕ) → Violation
  activated_twice : (event_id previous : ℕ) → Violation
  unknown_rule : (event_id : ℕ) → Violation
  restored_twice : (event_id previous : ℕ) → Violation
  output_before_start : (event_id invocation : ℕ) → Violation
  output_after_exit : (event_id invocation : ℕ) → Violation
  unreadable_output : (invocation event_id : ℕ) → Violation
  input_before_start : (event_id invocation : ℕ) → Violation
  input_after_exit : (event_id invocation : ℕ) → Violation
  input_after_termination : (event_id invocation : ℕ) → Violation

-- The `detail` of an assertion's result.
pub data Detail : Type 0 where
  response_mismatch noncanonical_response pre_outage_observed : (event_id : ℕ) → Detail
  no_pre_outage_response : Detail
  prohibited : (attempt_id distance : ℕ) → Detail
  not_prohibited : (bound : ℕ) → Detail
  restored : (event_id : ℕ) → Detail
  not_restored : Detail
  recovered : (event_id distance : ℕ) → Detail
  not_recovered : (bound : ℕ) → Detail
  structure_violation : Violation → Detail
  launch_failure : (invocation : ℕ) → LaunchFailure → Detail
  start_count : (starts : ℕ) → Detail
  identity_mismatch : Detail
  termination_count : (terminations : ℕ) → Detail
  never_terminated : Detail
  wrong_signal : ℤ → Detail
  no_first_exit : Detail
  first_not_killed : ProcessExit → Detail
  no_first_cleanup first_out_of_order : Detail
  descendant_alive : (reaped : ℕ) → Detail
  restart_before_cleanup no_escaped_descendant late_escaped_descendant no_second_exit : Detail
  second_not_clean : ProcessExit → Detail
  no_second_cleanup : Detail
  stale_root : (event_id : ℕ) → Detail
  fresh_counts : (fresh_one fresh_two : ℕ) → Detail
  fault_before_requests : Detail
  process_safe : (fault_index : ℕ) → Detail
  response_count : (invocation actual expected : ℕ) → Detail
  response_line : (invocation index : ℕ) → Detail
  input_counts : (invocation inputs eofs expected_inputs expected_eofs : ℕ) → Detail
  early_response : (invocation index : ℕ) → Detail
  application_error : (event_id : ℕ) → Detail
  unterminated_line stderr_output : (invocation bytes : ℕ) → Detail
  exit_totals exit_digests : (invocation : ℕ) → Detail
  responses_matched : (requests : ℕ) → Detail
  workload_prohibited : (event_id distance : ℕ) → Detail
  workload_not_prohibited : (bound : ℕ) → Detail
  workload_restored : (peer : Text) (event_id : ℕ) → Detail
  workload_not_restored : (peer : Text) → Detail
  workload_recovered : (event_id distance restart_id restart_distance : ℕ) → Detail
  workload_not_recovered restart_late : (bound : ℕ) → Detail
