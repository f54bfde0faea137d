-- ===== src/Protocol/Command.antt =====
-- crates/simferret/src/protocol.rs: the commands of the host.
use simferret.Prelude.{ℕ, Text}
use simferret.Workload.Launch.{LaunchIdentity}
use simferret.Protocol.Event.{RequestPhase}

pub data Command : Type 0 where
  configure_network : (interface guest_cidr gateway : Text) → Command
  activate_outage : (peer_cidr : Text) → Command
  restore_network : (peer_cidr : Text) → Command
  request : (request_id payload : Text) (phase : RequestPhase) → Command
  check : (outage_event_bound liveness_event_bound : ℕ) → Command
  start : (invocation : ℕ) (launch : LaunchIdentity) → Command
  stdin_write : (invocation offset : ℕ) (bytes : Text) → Command
  stdin_eof : (invocation : ℕ) → Command
  terminate : (invocation : ℕ) → Command
  shutdown : Command

pub record CommandFrame : Type 0 where
  pub protocol_version : ℕ
  pub command_id : ℕ
  pub command : Command
