-- ===== src/Agent/Examples.antt =====
-- A concrete agent with a small process runtime for the agent's theorems.
use simferret.Prelude.{
  ◌⊎◌, ◌++◌, ℕ, ◌+◌, ◌≡◌, refl, true, false, List, [], ◌∷◌, some, codes, ok, arith, Text-discrete,
  ℕ_discrete,
}
use simferret.Protocol.Process.{pos}
use simferret.Protocol.Event.{
  pre_outage, workload_started, input_accepted, termination_requested, cleanup_complete,
}
use simferret.Protocol.Command.{
  Command, configure_network, request, start, stdin_write, stdin_eof, terminate, shutdown,
  CommandFrame,
}
use simferret.Workload.Launch.{LaunchIdentity}
use simferret.Protocol.Framing.{require_version}
use simferret.Agent.Machine.{RuntimeOps, Answers, emit, emit_all, new_agent, is_assertion_event}
use simferret.Agent.Dispatch.{
  dispatch, command_loop, is_network_profile, is_valid_request, is_id_byte, response_event,
  on_runtime, start_events, shutdown_events,
}
use simferret.Agent.Invariant.{ReportsProcesses, IsConsistent}
use simferret.Agent.Preservation.{command_loop-IsConsistent, new_agent-IsConsistent}
use simferret.Agent.Stops.{NeverStops, StopsAtShutdown, command_loop-StopsAtShutdown}

-- A runtime that counts the invocations that it started.
abbrev counting : RuntimeOps ℕ
counting = record {
  start = λ r i launch. (workload_started i launch ∷ [], r + 1);
  stdin_write = λ r i offset bytes. (ok (input_accepted i offset 1 false ∷ []), r);
  stdin_eof = λ r i. (ok (input_accepted i 0 0 true ∷ []), r);
  terminate = λ r i. (ok (termination_requested i (pos 9) ∷ []), r);
  shutdown = λ r. (ok (cleanup_complete 1 r ∷ []), r);
}

counting-ReportsProcesses : ReportsProcesses counting
unfolding is_assertion_event
counting-ReportsProcesses = record {
  start_reports = λ r i launch. ground arith;
  write_reports = λ r i offset bytes events h. ground arith;
  eof_reports = λ r i events h. ground arith;
  terminate_reports = λ r i events h. ground arith;
  shutdown_reports = λ r events h. ground arith;
}

abbrev granted : Answers
granted = record {
  configured = ok tt;
  outage_set = ok tt;
  fetched = ok (codes "a", codes "00");
  written = λ frame. ok tt;
}

abbrev launch : LaunchIdentity
launch = record {
  executable = codes "/bin/echo";
  arguments = [];
  environment = [];
  working_directory = codes "/";
  uid = 0;
  gid = 0;
}

abbrev command : ℕ → Command → CommandFrame × Answers
command i c = (record { protocol_version = 1; command_id = i; command = c }, granted)

abbrev session : List (CommandFrame × Answers)
session =
    command 1 (configure_network (codes "eth0") (codes "10.0.2.15/24") (codes "10.0.2.2"))
    ∷ command 2 (request (codes "a") (codes "00") pre_outage)
    ∷ command 3 (start 1 launch)
    ∷ command 4 (stdin_write 1 1 (codes "61"))
    ∷ command 5 (terminate 1)
    ∷ command 6 shutdown
    ∷ []

session_succeeds : (command_loop counting session (new_agent (some 0))).0 ≡ ok tt
unfolding command_loop dispatch require_version new_agent emit emit_all is_assertion_event
    is_network_profile is_valid_request is_id_byte response_event on_runtime start_events
    shutdown_events Text-discrete ℕ_discrete
session_succeeds = refl

command_loop-IsConsistent_example :
    IsConsistent (command_loop counting session (new_agent (some 0))).1
command_loop-IsConsistent_example =
    command_loop-IsConsistent counting counting-ReportsProcesses session (new_agent (some 0))
      (new_agent-IsConsistent (some 0)) session_succeeds

-- The same session with a command behind its shutdown.
abbrev overlong : List (CommandFrame × Answers)
overlong = session ++ command 7 (stdin_eof 1) ∷ []

overlong_succeeds : (command_loop counting overlong (new_agent (some 0))).0 ≡ ok tt
unfolding command_loop dispatch require_version new_agent emit emit_all is_assertion_event
    is_network_profile is_valid_request is_id_byte response_event on_runtime start_events
    shutdown_events Text-discrete ℕ_discrete
overlong_succeeds = refl

command_loop-StopsAtShutdown_example :
    NeverStops overlong ⊎ StopsAtShutdown counting overlong (new_agent (some 0))
command_loop-StopsAtShutdown_example =
    command_loop-StopsAtShutdown counting counting-ReportsProcesses overlong (new_agent (some 0))
      (new_agent-IsConsistent (some 0)) overlong_succeeds
