-- ===== src/Agent/Dispatch.antt =====
-- crates/simferret/src/agent.rs: `dispatch` and the command loop.
use simferret.Prelude.{
  ℕ, ◌+◌, max, Bool, true, false, ◌&&◌, ◌||◌, not, List, [], ◌∷◌, Option, none, some, Text, codes,
  all, leb, ◌==◌, if◌then◌else◌, length, Result, ok, err, ErrorKind, invalid_input, invalid_data,
  unsupported, fail, same_text,
}
use simferret.Workload.Launch.{LaunchIdentity}
use simferret.Protocol.Process.{ℤ, pos, no_runtime}
use simferret.Protocol.Event.{
  RequestPhase, administrative_prohibited, transport, invalid_response, Event, network_configured,
  outage_activated, network_restored, request_attempted, request_succeeded, request_unavailable,
  assertions_evaluated, launch_failed, agent_stopped,
}
use simferret.Protocol.Command.{
  Command, configure_network, activate_outage, restore_network, request, check, start, stdin_write,
  stdin_eof, terminate, shutdown, CommandFrame,
}
use simferret.Protocol.Framing.{require_version}
use simferret.Scenario.Types.{max_request_data_length}
use simferret.Assertions.Report.{exit_code}
use simferret.Assertions.Evaluate.{evaluate}
use simferret.Agent.Machine.{
  RuntimeOps, Answers, Exec, ◌>>=◌, ◌>>◌, pure, lift, modify, require, with_agent, emit, emit_all,
}

abbrev pub network_interface : Text
network_interface = codes "eth0"

abbrev pub guest_cidr_profile : Text
guest_cidr_profile = codes "10.0.2.15/24"

abbrev pub gateway_profile : Text
gateway_profile = codes "10.0.2.2"

abbrev pub peer_cidr_profile : Text
peer_cidr_profile = codes "10.0.2.2/32"

abbrev pub outage_rule : Text
outage_rule = codes "prohibit 10.0.2.2/32"

-- `byte.is_ascii_alphanumeric() || byte == b'-'`
unfoldable pub is_id_byte : ℕ → Bool
is_id_byte b =
    (leb b'0' b && leb b b'9')
    || (leb b'A' b && leb b b'Z')
    || (leb b'a' b && leb b b'z')
    || b == b'-'

-- `validate_request(request_id, payload, GATEWAY)`; the lengths are far below the saturation.
unfoldable pub is_valid_request : Text → Text → Bool
is_valid_request request_id payload =
    not (length request_id == 0)
    && all is_id_byte request_id
    && leb (length request_id + length payload) max_request_data_length

-- `require_network_values`
unfoldable pub is_network_profile : Text → Text → Text → Bool
is_network_profile interface guest_cidr gateway =
    same_text interface network_interface
    && same_text guest_cidr guest_cidr_profile
    && same_text gateway gateway_profile

-- The event that reports the fixture's answer. `libc::EACCES` is 13.
unfoldable pub is_invalid_data : ErrorKind → Bool
is_invalid_data invalid_data = true
is_invalid_data _ = false

abbrev pub errno_of : Option ℕ → Option ℤ
errno_of none = none
errno_of (some n) = some (pos n)

abbrev pub is_access_denied : Option ℕ → Bool
is_access_denied none = false
is_access_denied (some n) = n == 13

unfoldable pub response_event : Text → Text → RequestPhase → Result (Text × Text) → Event
unfolding is_invalid_data
response_event request_id payload phase (ok (response_id, response_payload)) =
    request_succeeded request_id payload response_id response_payload phase
response_event request_id payload phase (err error) =
    request_unavailable request_id phase
      (if is_access_denied error.raw_os_error
        then administrative_prohibited
        else if is_invalid_data error.kind
        then invalid_response
        else transport)
      (errno_of error.raw_os_error)

module _ {R : Type 0} (ops : RuntimeOps R) where
  -- An operation of the runtime, with the runtime that it leaves. `require_runtime` is the first
  -- case.
  unfoldable pub on_runtime : (R → Result (List Event) × R) → Exec R (List Event)
  on_runtime f agent = elim agent.runtime [
    | none ↦ (fail unsupported, agent)
    | some r ↦ let (events, r') = f r in (events, record agent { runtime = some r' })
  ]

  -- The optional runtime of `Command::Start`.
  unfoldable pub start_events : ℕ → LaunchIdentity → Exec R (List Event)
  start_events invocation launch agent = elim agent.runtime [
    | none ↦ (
      ok (launch_failed invocation no_runtime (codes "no workload runtime is configured") ∷ []),
      agent,
    )
    | some r ↦
        let (events, r') = ops.start r invocation launch in
        (ok events, record agent { runtime = some r' })
  ]

  -- `shutdown_runtime`, but for its emission.
  unfoldable pub shutdown_events : Exec R (List Event)
  shutdown_events agent = elim agent.runtime [
    | none ↦ (ok [], agent)
    | some r ↦ let (events, r') = ops.shutdown r in (events, record agent { runtime = some r' })
  ]

  -- `Agent::dispatch`: false when the agent is to stop.
  unfoldable pub dispatch : Answers → ℕ → Command → Exec R Bool
  unfolding on_runtime start_events shutdown_events
  dispatch answers command_id (configure_network interface guest_cidr gateway) = do
    require (is_network_profile interface guest_cidr gateway) invalid_input
    with_agent (λ agent. require (not agent.network_configured) invalid_input)
    lift answers.configured
    modify (λ agent. record agent { network_configured = true })
    emit answers command_id (network_configured interface guest_cidr gateway)
    pure true
  dispatch answers command_id (activate_outage peer_cidr) = do
    with_agent (λ agent. require agent.network_configured invalid_input)
    require (same_text peer_cidr peer_cidr_profile) invalid_input
    with_agent (λ agent. require (not agent.outage_active) invalid_input)
    lift answers.outage_set
    modify (λ agent. record agent { outage_active = true })
    emit answers command_id (outage_activated peer_cidr outage_rule)
    pure true
  dispatch answers command_id (restore_network peer_cidr) = do
    with_agent (λ agent. require agent.network_configured invalid_input)
    require (same_text peer_cidr peer_cidr_profile) invalid_input
    with_agent (λ agent. require agent.outage_active invalid_input)
    lift answers.outage_set
    modify (λ agent. record agent { outage_active = false })
    emit answers command_id (network_restored peer_cidr)
    pure true
  dispatch answers command_id (request request_id payload phase) = do
    with_agent (λ agent. require agent.network_configured invalid_input)
    require (is_valid_request request_id payload) invalid_input
    emit answers command_id (request_attempted request_id payload phase)
    emit answers command_id (response_event request_id payload phase answers.fetched)
    pure true
  dispatch answers command_id (check outage_event_bound liveness_event_bound) = do
    with_agent λ agent. do
      let report = evaluate agent.events outage_event_bound liveness_event_bound
      modify (λ a. record a { exit_code = max a.exit_code (exit_code report) })
      emit answers command_id (assertions_evaluated report)
      pure true
  dispatch answers command_id (start invocation launch) = do
    events ← start_events invocation launch
    emit_all answers command_id events
    pure true
  dispatch answers command_id (stdin_write invocation offset bytes) = do
    events ← on_runtime (λ r. ops.stdin_write r invocation offset bytes)
    emit_all answers command_id events
    pure true
  dispatch answers command_id (stdin_eof invocation) = do
    events ← on_runtime (λ r. ops.stdin_eof r invocation)
    emit_all answers command_id events
    pure true
  dispatch answers command_id (terminate invocation) = do
    events ← on_runtime (λ r. ops.terminate r invocation)
    emit_all answers command_id events
    pure true
  dispatch answers command_id shutdown = do
    with_agent (λ agent. require (not agent.outage_active) invalid_input)
    events ← shutdown_events
    with_agent (λ agent. emit_all answers agent.last_command_id events)
    emit answers command_id agent_stopped
    pure false

  -- `Agent::command_loop` over the frames that it reads, each with the answers given meanwhile.
  unfoldable pub command_loop : List (CommandFrame × Answers) → Exec R (Unit {0})
  command_loop [] = pure tt
  command_loop ((frame, answers) ∷ frames) = do
    lift (require_version frame.protocol_version)
    modify (λ agent. record agent { last_command_id = frame.command_id })
    more ← dispatch answers frame.command_id frame.command
    if more then command_loop frames else pure tt
