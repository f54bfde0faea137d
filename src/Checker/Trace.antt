-- ===== src/Checker/Trace.antt =====
-- crates/simferret/src/checker.rs, `WorkloadTrace`: the process and byte facts of one run.
use simferret.Prelude.{
  ℕ, Bool, ◌||◌, not, List, [], ◌∷◌, ◌++◌, Option, none, some, Text, codes, ltb, ◌==◌,
  if◌then◌else◌, find, any, first, Result, ok, err, same_text,
}
use simferret.Workload.Launch.{LaunchIdentity}
use simferret.Protocol.Process.{ℤ, OutputStream, ProcessExit, LaunchFailure}
use simferret.Protocol.Violation.{
  Violation, started_twice, exit_before_start, exited_twice, termination_before_start,
  termination_after_exit, terminated_twice, cleanup_before_start, cleaned_twice,
  cleanup_before_exit, cleanup_before_exit_record, cleanup_reaped_nothing, launch_failed_twice,
  launch_failed_after_exit, configured_twice, unknown_network_profile, activated_twice,
  unknown_rule, restored_twice, output_before_start, output_after_exit, unreadable_output,
  input_before_start, input_after_exit, input_after_termination,
}
use simferret.Protocol.Event.{
  Event, network_configured, outage_activated, network_restored, workload_started, input_accepted,
  termination_requested, workload_output, workload_exited, launch_failed, cleanup_complete,
  EventFrame,
}
use simferret.Protocol.Hex.{decode_bytes, max_output_frame_bytes}
use simferret.Checker.Streams
use simferret.Checker.Streams.{CompletedLine, InvocationStreams, no_streams, push_input, is_empty}

pub record StartRecord : Type 0 where
  pub invocation : ℕ
  pub launch : LaunchIdentity
  pub event_id : ℕ

pub record ExitRecord : Type 0 where
  pub invocation : ℕ
  pub exit : ProcessExit
  pub stdout_bytes : ℕ
  pub stdout_sha256 : Text
  pub stderr_bytes : ℕ
  pub stderr_sha256 : Text
  pub frames : ℕ
  pub event_id : ℕ

pub record TerminationRecord : Type 0 where
  pub invocation : ℕ
  pub signal : ℤ
  pub event_id : ℕ

pub record CleanupRecord : Type 0 where
  pub invocation : ℕ
  pub reaped : ℕ
  pub event_id : ℕ

pub record LaunchFailureRecord : Type 0 where
  pub invocation : ℕ
  pub failure : LaunchFailure

pub record ConfiguredRecord : Type 0 where
  pub gateway : Text
  pub event_id : ℕ

-- `BTreeMap<u64, InvocationStreams>`: the entries by rising key.
abbrev pub StreamMap : Type 0
StreamMap = List (ℕ × InvocationStreams)

unfoldable pub streams_of : ℕ → StreamMap → Option InvocationStreams
streams_of key [] = none
streams_of key ((k, s) ∷ m) = if k == key then some s else streams_of key m

-- `entry(key).or_default()`, with the entry changed.
unfoldable pub update_entry : ℕ → (InvocationStreams → InvocationStreams) → StreamMap → StreamMap
update_entry key f [] = (key, f no_streams) ∷ []
update_entry key f ((k, s) ∷ m) =
    if k == key
    then (k, f s) ∷ m
    else if ltb key k
    then (key, f no_streams) ∷ (k, s) ∷ m
    else (k, s) ∷ update_entry key f m

pub record WorkloadTrace : Type 0 where
  pub starts : List StartRecord
  pub exits : List ExitRecord
  pub terminations : List TerminationRecord
  pub cleanups : List CleanupRecord
  pub launch_failures : List LaunchFailureRecord
  pub activations : List (Text × ℕ)
  pub restorations : List (Text × ℕ)
  pub configured : Option ConfiguredRecord
  pub invocations : StreamMap
  pub violations : List Violation

-- `WorkloadTrace::default()`
abbrev pub empty_trace : WorkloadTrace
empty_trace = record {
  starts = [];
  exits = [];
  terminations = [];
  cleanups = [];
  launch_failures = [];
  activations = [];
  restorations = [];
  configured = none;
  invocations = [];
  violations = [];
}

-- `self.violations.push(…)`
abbrev pub violate : WorkloadTrace → Violation → WorkloadTrace
violate t v = record t { violations = t.violations ++ v ∷ [] }

unfoldable pub started : WorkloadTrace → ℕ → Bool
started t invocation = any (λ s. s.invocation == invocation) t.starts

unfoldable pub exited : WorkloadTrace → ℕ → Bool
exited t invocation = any (λ e. e.invocation == invocation) t.exits

unfoldable pub terminated : WorkloadTrace → ℕ → Bool
terminated t invocation = any (λ e. e.invocation == invocation) t.terminations

unfoldable pub cleaned : WorkloadTrace → ℕ → Bool
cleaned t invocation = any (λ e. e.invocation == invocation) t.cleanups

unfoldable pub has_launch_failed : WorkloadTrace → ℕ → Bool
has_launch_failed t invocation = any (λ f. f.invocation == invocation) t.launch_failures

unfoldable pub exit_of : WorkloadTrace → ℕ → Option ExitRecord
exit_of t invocation = find (λ e. e.invocation == invocation) t.exits

abbrev network_interface : Text
network_interface = codes "eth0"

abbrev guest_cidr_profile : Text
guest_cidr_profile = codes "10.0.2.15/24"

abbrev fixture_peer : Text
fixture_peer = codes "10.0.2.2"

-- `if test { self.violations.push(…); return }`, with the trace that the rest of the handler leaves.
unfoldable pub violate_or : WorkloadTrace → Bool → Violation → WorkloadTrace → WorkloadTrace
violate_or t test v changed = if test then violate t v else changed

-- The cleanup's checks behind the exit record's search.
abbrev pub clean : WorkloadTrace → ℕ → ℕ → ℕ → Option ExitRecord → WorkloadTrace
clean t event_id invocation reaped none = violate t (cleanup_before_exit invocation event_id)
clean t event_id invocation reaped (some exit) =
    violate_or t (ltb event_id exit.event_id) (cleanup_before_exit_record invocation event_id) (
      violate_or t (reaped == 0) (cleanup_reaped_nothing invocation event_id) (record t {
        cleanups =
            t.cleanups
            ++ record { invocation = invocation; reaped = reaped; event_id = event_id } ∷ [];
      }))

abbrev pub configure :
    WorkloadTrace → ℕ → Text → Text → Text → Option ConfiguredRecord → WorkloadTrace
configure t event_id interface guest_cidr gateway (some c) =
    violate t (configured_twice event_id c.event_id)
configure t event_id interface guest_cidr gateway none =
    violate_or t
      (not (same_text interface network_interface)
        || not (same_text guest_cidr guest_cidr_profile)
        || not (same_text gateway fixture_peer))
      (unknown_network_profile event_id)
      (record t { configured = some (record { gateway = gateway; event_id = event_id }) })

abbrev pub activate : WorkloadTrace → ℕ → Text → Text → Option (Text × ℕ) → WorkloadTrace
activate t event_id peer_cidr rule (some (_, activation_id)) =
    violate t (activated_twice event_id activation_id)
activate t event_id peer_cidr rule none =
    violate_or t (not (same_text rule (codes "prohibit " ++ peer_cidr))) (unknown_rule event_id)
      (record t { activations = t.activations ++ (peer_cidr, event_id) ∷ [] })

abbrev pub restore : WorkloadTrace → ℕ → Text → Option (Text × ℕ) → WorkloadTrace
restore t event_id peer_cidr (some (_, restoration_id)) =
    violate t (restored_twice event_id restoration_id)
restore t event_id peer_cidr none = record t {
  restorations = t.restorations ++ (peer_cidr, event_id) ∷ [];
}

abbrev pub output : WorkloadTrace → ℕ → ℕ → OutputStream → ℕ → ℕ → Result (List ℕ) → WorkloadTrace
output t event_id invocation stream offset sequence (err _) =
    violate t (unreadable_output invocation event_id)
output t event_id invocation stream offset sequence (ok bytes) = record t {
  invocations =
      update_entry invocation (Streams.push event_id invocation stream offset sequence bytes)
        t.invocations;
}

-- `WorkloadTrace::push`, by the frame's event.
unfoldable pub push_event : WorkloadTrace → ℕ → ℕ → Event → WorkloadTrace
push_event t event_id command_id (workload_started invocation launch) =
    let t' = if started t invocation then violate t (started_twice invocation event_id) else t in
    record t' {
      starts =
          t'.starts
          ++ record { invocation = invocation; launch = launch; event_id = event_id } ∷ [];
    }
push_event t event_id command_id
      (workload_exited invocation exit stdout_bytes stdout_sha256 stderr_bytes stderr_sha256
        frames) =
    violate_or t (not (started t invocation)) (exit_before_start event_id invocation) (
      violate_or t (exited t invocation) (exited_twice invocation event_id) (record t {
        exits =
            t.exits
            ++ record {
              invocation = invocation;
              exit = exit;
              stdout_bytes = stdout_bytes;
              stdout_sha256 = stdout_sha256;
              stderr_bytes = stderr_bytes;
              stderr_sha256 = stderr_sha256;
              frames = frames;
              event_id = event_id;
            }
              ∷ [];
      }))
push_event t event_id command_id (termination_requested invocation signal) =
    violate_or t (not (started t invocation)) (termination_before_start event_id invocation) (
      violate_or t (exited t invocation) (termination_after_exit event_id invocation) (
        violate_or t (terminated t invocation) (terminated_twice invocation event_id) (record t {
          terminations =
              t.terminations
              ++ record { invocation = invocation; signal = signal; event_id = event_id } ∷ [];
        })))
push_event t event_id command_id (cleanup_complete invocation reaped) =
    violate_or t (not (started t invocation)) (cleanup_before_start event_id invocation) (
      violate_or t (cleaned t invocation) (cleaned_twice invocation event_id)
        (clean t event_id invocation reaped (exit_of t invocation)))
push_event t event_id command_id (launch_failed invocation failure detail) =
    violate_or t (has_launch_failed t invocation) (launch_failed_twice invocation event_id) (
      violate_or t (exited t invocation) (launch_failed_after_exit invocation event_id) (record t {
        launch_failures =
            t.launch_failures ++ record { invocation = invocation; failure = failure } ∷ [];
      }))
push_event t event_id command_id (network_configured interface guest_cidr gateway) =
    configure t event_id interface guest_cidr gateway t.configured
push_event t event_id command_id (outage_activated peer_cidr rule) =
    activate t event_id peer_cidr rule (first t.activations)
push_event t event_id command_id (network_restored peer_cidr) =
    restore t event_id peer_cidr (first t.restorations)
push_event t event_id command_id (workload_output invocation stream offset sequence bytes) =
    violate_or t (not (started t invocation)) (output_before_start event_id invocation) (
      violate_or t (exited t invocation) (output_after_exit event_id invocation) (
        output t event_id invocation stream offset sequence
          (decode_bytes bytes max_output_frame_bytes)))
push_event t event_id command_id (input_accepted invocation offset bytes eof) =
    violate_or t (not (started t invocation)) (input_before_start event_id invocation) (
      violate_or t (exited t invocation) (input_after_exit event_id invocation) (
        violate_or t (terminated t invocation) (input_after_termination event_id invocation)
          (record t {
            invocations =
                update_entry invocation (push_input invocation event_id command_id offset bytes eof)
                  t.invocations;
          })))
push_event t event_id command_id _ = t

-- `WorkloadTrace::push`
unfoldable pub push : WorkloadTrace → EventFrame → WorkloadTrace
push t frame = push_event t frame.event_id frame.command_id frame.event

-- The fold over a run's frames.
unfoldable pub push_all : WorkloadTrace → List EventFrame → WorkloadTrace
push_all t [] = t
push_all t (frame ∷ frames) = push_all (push t frame) frames
