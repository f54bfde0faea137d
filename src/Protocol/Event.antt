-- ===== src/Protocol/Event.antt =====
-- crates/simferret/src/protocol.rs: the events of the guest agent and their frames.
use simferret.Prelude.{ℕ, Bool, Text, Option, none}
use simferret.Workload.Launch.{LaunchIdentity}
use simferret.Assertions.Report.{AssertionReport}
use simferret.Protocol.Process.{ℤ, OutputStream, ProcessExit, LaunchFailure}

pub data RequestPhase : Type 0 where
  pre_outage outage recovery : RequestPhase

unfoldable pub RequestPhase-discrete : Discrete RequestPhase
RequestPhase-discrete = hlevel

pub data RequestError : Type 0 where
  administrative_prohibited transport invalid_response : RequestError

pub data Event : Type 0 where
  agent_ready : Event
  network_configured : (interface guest_cidr gateway : Text) → Event
  outage_activated : (peer_cidr rule : Text) → Event
  network_restored : (peer_cidr : Text) → Event
  request_attempted : (request_id payload : Text) (phase : RequestPhase) → Event
  request_succeeded :
      (request_id request_payload response_id response_payload : Text) (phase : RequestPhase)
      → Event
  request_unavailable :
      (request_id : Text) (phase : RequestPhase) (error : RequestError) (errno : Option ℤ) → Event
  assertions_evaluated : (report : AssertionReport) → Event
  workload_started : (invocation : ℕ) (launch : LaunchIdentity) → Event
  input_accepted : (invocation offset bytes : ℕ) (eof : Bool) → Event
  termination_requested : (invocation : ℕ) (signal : ℤ) → Event
  workload_output :
      (invocation : ℕ) (stream : OutputStream) (offset sequence : ℕ) (bytes : Text) → Event
  workload_exited :
      (invocation : ℕ) (exit : ProcessExit) (stdout_bytes : ℕ) (stdout_sha256 : Text)
      (stderr_bytes : ℕ) (stderr_sha256 : Text) (frames : ℕ)
      → Event
  launch_failed : (invocation : ℕ) (failure : LaunchFailure) (detail : Text) → Event
  cleanup_complete : (invocation reaped : ℕ) → Event
  agent_stopped : Event

pub record DiagnosticFields : Type 0 where
  pub guest_pid : Option ℕ
  pub host_received_at_unix_nanos : Option ℕ
  pub temporary_path : Option Text

-- `DiagnosticFields::default()`
abbrev pub no_diagnostics : DiagnosticFields
no_diagnostics = record {
  guest_pid = none;
  host_received_at_unix_nanos = none;
  temporary_path = none;
}

pub record EventFrame : Type 0 where
  pub protocol_version : ℕ
  pub event_id : ℕ
  pub command_id : ℕ
  pub event : Event
  pub diagnostics : DiagnosticFields

pub record NormalizedEvent : Type 0 where
  pub protocol_version : ℕ
  pub event_id : ℕ
  pub command_id : ℕ
  pub event : Event

-- `EventFrame::normalize`
unfoldable pub normalize : EventFrame → NormalizedEvent
normalize frame = record {
  protocol_version = frame.protocol_version;
  event_id = frame.event_id;
  command_id = frame.command_id;
  event = frame.event;
}

-- `PROTOCOL_VERSION`
abbrev pub current_version : ℕ
current_version = 1
