-- ===== src/Agent/Preservation.antt =====
-- The commands of crates/simferret/src/agent.rs and the consistency of the agent.
use simferret.Prelude.{
  ℕ, ◌≡◌, refl, sym, ◌∙◌, ap, Bool, true, false, List, [], ◌∷◌, Option, Text, arith, All, Result,
  ok, err, max,
}
use simferret.Assertions.Evaluate.{evaluate}
use simferret.Assertions.Report.{exit_code}
use simferret.Protocol.Event.{
  Event, RequestPhase, network_configured, outage_activated, network_restored, request_attempted,
  assertions_evaluated, agent_stopped,
}
use simferret.Protocol.Command.{
  Command, configure_network, activate_outage, restore_network, request, check, start, stdin_write,
  stdin_eof, terminate, shutdown, CommandFrame,
}
use simferret.Agent.Machine.{
  RuntimeOps, Answers, Agent, Exec, is_assertion_event, emit, emit_all, with_agent, new_agent,
  continue-ok, pure, ◌>>=◌, ◌>>◌,
}
use simferret.Agent.Dispatch.{
  dispatch, command_loop, response_event, outage_rule, start_events, shutdown_events, on_runtime,
}
use simferret.Agent.Invariant.{
  IsConsistent, IsProcessEvent, ReportsProcesses, outage_now, outage_step, configured_now,
  configured_step, emit-IsConsistent, emit_process-IsConsistent, emit_all-IsConsistent,
  on_runtime-IsConsistent, start_events-IsConsistent, shutdown_events-IsConsistent,
}

response_event-steps :
    (id payload : Text) (phase : RequestPhase) (r : Result (Text × Text)) (b : Bool)
    → (outage_step b (response_event id payload phase r) ≡ b)
      × (configured_step b (response_event id payload phase r) ≡ b)
unfolding response_event
response_event-steps id payload phase (ok (i, p)) b = (refl, refl)
response_event-steps id payload phase (err e) b = (refl, refl)

module _ {R : Type 0} (ops : RuntimeOps R) (reports : ReportsProcesses ops) (answers : Answers)
    (command_id : ℕ) where
  -- The emission of what the runtime reports, for the command that a state names, whatever is done
  -- next.
  abbrev report_from : (Agent R → ℕ) → Exec R (List Event) → Exec R Bool → Exec R Bool
  report_from named m next = do
    events ← m
    with_agent (λ agent. emit_all answers (named agent) events)
    next

  report_from-IsConsistent :
      (named : Agent R → ℕ) (m : Exec R (List Event)) (next : Exec R Bool) (a : Agent R)
      (more : Bool)
      → ((events : List Event)
          → (m a).0 ≡ ok events
          → All IsProcessEvent events × IsConsistent (m a).1)
      → ((a' : Agent R) → IsConsistent a' → (next a').0 ≡ ok more → IsConsistent (next a').1)
      → (report_from named m next a).0 ≡ ok more
      → IsConsistent (report_from named m next a).1
  report_from-IsConsistent named m next a more p q h =
      let (events, e, s) =
        continue-ok (m a).0
          (λ events. do with_agent (λ agent. emit_all answers (named agent) events); next) (m a).1
          more h in
      let (process, v) = p events e in
      let a' = (emit_all answers (named (m a).1) events (m a).1).1 in
      let h' = ap (λ r. r.0) (sym s) ∙ h in
      let (u, e', s') =
        continue-ok (emit_all answers (named (m a).1) events (m a).1).0 (λ _. next) a' more h' in
      rw (s, s')
        (q a' (emit_all-IsConsistent answers (named (m a).1) events (m a).1 process v e')
          (ap (λ r. r.0) (sym s') ∙ h'))

  pub dispatch-IsConsistent :
      (command : Command) (a : Agent R) (more : Bool)
      → IsConsistent a
      → (dispatch ops answers command_id command a).0 ≡ ok more
      → IsConsistent (dispatch ops answers command_id command a).1
  unfolding dispatch is_assertion_event
  dispatch-IsConsistent (configure_network interface guest_cidr gateway) a more v h = ground (
    arith,
    v.ledger,
    v.outage,
    v.network,
    v.outage_in_network,
    emit-IsConsistent answers command_id (network_configured interface guest_cidr gateway)
        (record a { network_configured = true }),
  )
  dispatch-IsConsistent (activate_outage peer_cidr) a more v h = ground (
    arith,
    emit-IsConsistent answers command_id (outage_activated peer_cidr outage_rule)
        (record a { outage_active = true }),
  )
  dispatch-IsConsistent (restore_network peer_cidr) a more v h = ground (
    arith,
    emit-IsConsistent answers command_id (network_restored peer_cidr)
        (record a { outage_active = false }),
  )
  dispatch-IsConsistent (request request_id payload phase) a more v h =
      let a' = (emit answers command_id (request_attempted request_id payload phase) a).1 in
      let response = response_event request_id payload phase answers.fetched in
      ground (
        arith,
        emit-IsConsistent answers command_id (request_attempted request_id payload phase) a,
        emit-IsConsistent answers command_id response a',
        response_event-steps request_id payload phase answers.fetched (outage_now false a'.sent),
        response_event-steps request_id payload phase answers.fetched
            (configured_now false a'.sent),
      )
  dispatch-IsConsistent (check outage_event_bound liveness_event_bound) a more v h =
      let report = evaluate a.events outage_event_bound liveness_event_bound in
      ground (
        arith,
        emit-IsConsistent answers command_id (assertions_evaluated report)
            (record a { exit_code = max a.exit_code (exit_code report) }),
      )
  dispatch-IsConsistent (start invocation launch) a more v h =
      report_from-IsConsistent (λ _. command_id) (start_events ops invocation launch) (pure true) a
        more (start_events-IsConsistent ops reports answers command_id invocation launch a v)
        (λ a' v' _. v') h
  dispatch-IsConsistent (stdin_write invocation offset bytes) a more v h =
      report_from-IsConsistent (λ _. command_id)
        (on_runtime ops (λ r. ops.stdin_write r invocation offset bytes)) (pure true) a more
        (on_runtime-IsConsistent ops reports answers command_id
          (λ r. ops.stdin_write r invocation offset bytes) a
          (λ r. reports.write_reports r invocation offset bytes) v)
        (λ a' v' _. v') h
  dispatch-IsConsistent (stdin_eof invocation) a more v h =
      report_from-IsConsistent (λ _. command_id) (on_runtime ops (λ r. ops.stdin_eof r invocation))
        (pure true) a more
        (on_runtime-IsConsistent ops reports answers command_id (λ r. ops.stdin_eof r invocation) a
          (λ r. reports.eof_reports r invocation) v)
        (λ a' v' _. v') h
  dispatch-IsConsistent (terminate invocation) a more v h =
      report_from-IsConsistent (λ _. command_id) (on_runtime ops (λ r. ops.terminate r invocation))
        (pure true) a more
        (on_runtime-IsConsistent ops reports answers command_id (λ r. ops.terminate r invocation) a
          (λ r. reports.terminate_reports r invocation) v)
        (λ a' v' _. v') h
  dispatch-IsConsistent shutdown a more v h =
      let stop : Exec R Bool = (do emit answers command_id agent_stopped; pure false) in
      ground (
        arith,
        report_from-IsConsistent (λ agent. agent.last_command_id) (shutdown_events ops) stop a more
            (shutdown_events-IsConsistent ops reports answers command_id a v)
            (λ a' v' h'.
              ground
                (arith, h', emit_process-IsConsistent answers command_id agent_stopped a' refl v')),
      )

-- From a consistent agent the command loop, over any commands and any answers of the system that it
-- does not fail on, leaves a consistent agent: the sent events are numbered from one without a gap,
-- the assertion history is exactly the sent network events, and the two flags are what those say.
pub command_loop-IsConsistent :
    {R : Type 0} (ops : RuntimeOps R)
    → ReportsProcesses ops
    → (frames : List (CommandFrame × Answers)) (a : Agent R) → IsConsistent a
    → (command_loop ops frames a).0 ≡ ok tt
    → IsConsistent (command_loop ops frames a).1
unfolding command_loop
command_loop-IsConsistent ops reports [] a v h = v
command_loop-IsConsistent ops reports ((frame, answers) ∷ frames) a v h =
    let a₁ = record a { last_command_id = frame.command_id } in
    let a₂ = (dispatch ops answers frame.command_id frame.command a₁).1 in
    ground (
      arith,
      dispatch-IsConsistent ops reports answers frame.command_id frame.command a₁ true,
      dispatch-IsConsistent ops reports answers frame.command_id frame.command a₁ false,
      command_loop-IsConsistent ops reports frames a₂,
    )

pub new_agent-IsConsistent : {R : Type 0} (runtime : Option R) → IsConsistent (new_agent runtime)
unfolding new_agent
new_agent-IsConsistent runtime = ground arith
