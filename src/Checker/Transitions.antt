-- ===== src/Checker/Transitions.antt =====
-- What passing results of `fault_properties` of crates/simferret/src/checker.rs mean for the trace.
use simferret.Prelude.{
  ℕ, ◌-◌, ◌≤◌, ◌<◌, ◌≡◌, refl, true, Option, none, some, Text, arith, In, find, find-some,
  and_then-some, if-some, subst,
}
use simferret.Protocol.Event.{RequestPhase, outage, recovery}
use simferret.Scenario.Types.{WorkloadScenario, WorkloadChoicePlan}
use simferret.Checker.Streams.{CompletedLine}
use simferret.Checker.Trace.{StartRecord, ConfiguredRecord, WorkloadTrace}
use simferret.Checker.Views.{stdout_lines}
use simferret.Checker.Responses.{echo_line}
use simferret.Checker.Answered.{IsPhaseAnswer, phase_answer-IsPhaseAnswer}
use simferret.Checker.Faults.{
  peer_of, names_after, activation_behind, activation, restoration_behind, restoration,
  phase_answer, is_before, prohibited_at, prohibited_behind, outage_seen, recovered_at,
  recovered_behind, recovery_seen, restarted_at, is_echo, restart_behind, is_second, restart_seen,
  controlled_outage_from, restoration_from, bounded_recovery_from, fault_properties,
}

module _ (t : WorkloadTrace) (scenario : WorkloadScenario) (choices : WorkloadChoicePlan) where
  -- The trace's activation: the network was configured with the scenario's peer as its gateway
  -- before, and the activation names that peer.
  pub record Activated (activation_id : ℕ) : Type 0 where
    pub configured : ConfiguredRecord
    pub is_configured : t.configured ≡ some configured
    pub same_gateway : configured.gateway ≡ scenario.fixture_peer
    pub activates : In (peer_of scenario, activation_id) t.activations
    pub after_configuration : configured.event_id < activation_id

  activation-Activated :
      (a : Text × ℕ) → activation t scenario ≡ some a → Activated a.1 × (a.0 ≡ peer_of scenario)
  unfolding activation activation_behind
  activation-Activated (p, a) h =
      let (c, configured, h1) =
        and_then-some t.configured (activation_behind t scenario) (p, a) h in
      let (gateway, found) =
        if-some _ (find (names_after (peer_of scenario) c.event_id) t.activations) (p, a) h1 in
      let (member, named) =
        find-some (names_after (peer_of scenario) c.event_id) t.activations (p, a) found in
      let same_peer : p ≡ peer_of scenario = ground arith in
      (
        record {
          configured = c;
          is_configured = configured;
          same_gateway = ground arith;
          activates = subst (λ q. In (q, a) t.activations) same_peer member;
          after_configuration = ground arith;
        },
        same_peer,
      )

  -- The activation and the restoration that follows it.
  pub record Restored (activation_id restoration_id : ℕ) : Type 0 where
    pub activated : Activated activation_id
    pub restores : In (peer_of scenario, restoration_id) t.restorations
    pub after_activation : activation_id < restoration_id

  restoration-Restored :
      (r : Text × ℕ)
      → restoration t scenario ≡ some r
      → (a : Text × ℕ) × (activation t scenario ≡ some a) × Restored a.1 r.1
  unfolding restoration
  restoration-Restored (q, r) h =
      let (a, found, h1) = and_then-some (activation t scenario) (restoration_behind t) (q, r) h in
      let (activated, same_peer) = activation-Activated a found in
      let (member, named) = find-some (names_after a.0 a.1) t.restorations (q, r) h1 in
      let same_peer' : q ≡ peer_of scenario = ground arith in
      (
        a,
        found,
        record {
          activated = activated;
          restores = subst (λ p. In (p, r) t.restorations) same_peer' member;
          after_activation = ground arith;
        },
      )

  -- The answer to the first planned request of a phase, behind an event and within a bound of it;
  -- the request was accepted behind the event too, with no bound of its own.
  pub record AnsweredAfter (phase : RequestPhase) (event_id bound : ℕ) : Type 0 where
    pub line : CompletedLine
    pub acknowledged : ℕ
    pub answers : phase_answer t choices phase ≡ some (line, acknowledged)
    pub answer : IsPhaseAnswer t choices phase line acknowledged
    pub accepted_after : event_id < acknowledged
    pub answered_after : event_id < line.event_id
    pub in_bound : line.event_id - event_id ≤ bound

  prohibited_at-some :
      (a : Text × ℕ) (p : CompletedLine × ℕ) (seen : ℕ × ℕ)
      → prohibited_at t scenario a p ≡ some seen
      → (a.1 < p.1)
        × (a.1 < p.0.event_id)
        × (is_before p.0.event_id (restoration t scenario) ≡ true)
        × (p.0.event_id - a.1 ≤ scenario.outage_event_bound)
  unfolding prohibited_at
  prohibited_at-some a (line, acknowledged) seen h = ground arith

  recovered_at-some :
      (r : Text × ℕ) (p : CompletedLine × ℕ) (seen : ℕ × ℕ)
      → recovered_at scenario r p ≡ some seen
      → (r.1 < p.1) × (r.1 < p.0.event_id) × (p.0.event_id - r.1 ≤ scenario.liveness_event_bound)
  unfolding recovered_at
  recovered_at-some r (line, acknowledged) seen h = ground arith

  restarted_at-some :
      (start : StartRecord) (line : CompletedLine) (seen : ℕ × ℕ)
      → restarted_at scenario start line ≡ some seen
      → (start.event_id < line.event_id)
        × (line.event_id - start.event_id ≤ scenario.liveness_event_bound)
  unfolding restarted_at
  restarted_at-some start line seen h = ground arith

  outage_seen-AnsweredAfter :
      (a r : Text × ℕ) (seen : ℕ × ℕ)
      → activation t scenario ≡ some a
      → restoration t scenario ≡ some r
      → outage_seen t scenario choices ≡ some seen
      → (answer : AnsweredAfter outage a.1 scenario.outage_event_bound) × (answer.line.event_id
          < r.1)
  unfolding outage_seen
  outage_seen-AnsweredAfter a r seen activated restored h =
      let (a', found, h1) =
        and_then-some (activation t scenario) (prohibited_behind t scenario choices) seen h in
      let (answer, answered, h2) =
        and_then-some (phase_answer t choices outage) (prohibited_at t scenario a') seen h1 in
      let same_activation : a' ≡ a = cc (found, activated) in
      let (accepted, behind, before, bounded) =
        prohibited_at-some a answer seen (rw (← same_activation) h2) in
      (
        record {
          line = answer.0;
          acknowledged = answer.1;
          answers = answered;
          answer = phase_answer-IsPhaseAnswer t choices outage answer.0 answer.1 answered;
          accepted_after = accepted;
          answered_after = behind;
          in_bound = bounded;
        },
        ground arith,
      )

  recovery_seen-AnsweredAfter :
      (r : Text × ℕ) (seen : ℕ × ℕ)
      → restoration t scenario ≡ some r
      → recovery_seen t scenario choices ≡ some seen
      → AnsweredAfter recovery r.1 scenario.liveness_event_bound
  unfolding recovery_seen
  recovery_seen-AnsweredAfter r seen restored h =
      let (r', found, h1) =
        and_then-some (restoration t scenario) (recovered_behind t scenario choices) seen h in
      let (answer, answered, h2) =
        and_then-some (phase_answer t choices recovery) (recovered_at scenario r') seen h1 in
      let same_restoration : r' ≡ r = cc (found, restored) in
      let (accepted, behind, bounded) =
        recovered_at-some r answer seen (rw (← same_restoration) h2) in
      record {
        line = answer.0;
        acknowledged = answer.1;
        answers = answered;
        answer = phase_answer-IsPhaseAnswer t choices recovery answer.0 answer.1 answered;
        accepted_after = accepted;
        answered_after = behind;
        in_bound = bounded;
      }

  -- The second invocation answers its echo within the liveness bound of its start.
  pub record Restarted : Type 0 where
    pub start : StartRecord
    pub in_starts : In start t.starts
    pub is_second_start : start.invocation ≡ 2
    pub line : CompletedLine
    pub in_lines : In line (stdout_lines t 2)
    pub echoes : line.text ≡ echo_line choices.seed 2
    pub after_start : start.event_id < line.event_id
    pub in_bound : line.event_id - start.event_id ≤ scenario.liveness_event_bound

  restart_seen-Restarted : (seen : ℕ × ℕ) → restart_seen t scenario choices ≡ some seen → Restarted
  unfolding restart_seen
  restart_seen-Restarted seen h =
      let (start, found, h1) =
        and_then-some (find is_second t.starts) (restart_behind t scenario choices) seen h in
      let (line, found', h2) =
        and_then-some (find (is_echo choices) (stdout_lines t 2)) (restarted_at scenario start) seen
          h1 in
      let (later, bounded) = restarted_at-some start line seen h2 in
      let (in_starts, second) = find-some is_second t.starts start found in
      let (in_lines, echo) = find-some (is_echo choices) (stdout_lines t 2) line found' in
      record {
        start = start;
        in_starts = in_starts;
        is_second_start = ground arith;
        line = line;
        in_lines = in_lines;
        echoes = ground arith;
        after_start = later;
        in_bound = bounded;
      }

  -- The outage of a run: its transitions, the prohibition within it, and both recoveries.
  pub record FaultsSeen : Type 0 where
    pub activation_id : ℕ
    pub restoration_id : ℕ
    pub transitions : Restored activation_id restoration_id
    pub prohibited : AnsweredAfter outage activation_id scenario.outage_event_bound
    pub prohibited_in_outage : prohibited.line.event_id < restoration_id
    pub recovered : AnsweredAfter recovery restoration_id scenario.liveness_event_bound
    pub restarted : Restarted

  outage_from-some :
      (bound : ℕ) (o : Option (ℕ × ℕ))
      → (controlled_outage_from bound o).passed ≡ true
      → (p : ℕ × ℕ) × (o ≡ some p)
  unfolding controlled_outage_from
  outage_from-some bound none h = absurd (cc)
  outage_from-some bound (some p) h = (p, refl)

  restoration_from-some :
      (peer : Text) (o : Option (Text × ℕ))
      → (restoration_from peer o).passed ≡ true
      → (p : Text × ℕ) × (o ≡ some p)
  unfolding restoration_from
  restoration_from-some peer none h = absurd (cc)
  restoration_from-some peer (some p) h = (p, refl)

  recovery_from-some :
      (bound : ℕ) (o p : Option (ℕ × ℕ))
      → (bounded_recovery_from bound o p).passed ≡ true
      → (x y : ℕ × ℕ) × (o ≡ some x) × (p ≡ some y)
  unfolding bounded_recovery_from
  recovery_from-some bound none p h = absurd (cc)
  recovery_from-some bound (some x) none h = absurd (cc)
  recovery_from-some bound (some x) (some y) h = (x, y, refl, refl)

  -- Where the three results of `fault_properties` pass, the network was configured with the
  -- scenario's peer, then an outage of that peer was activated and later restored. Take the first
  -- request of the plan whose place is from the activation's place on and before the restoration's:
  -- an event after the activation acknowledged the input that its line answers, and the line, which
  -- names the request and errno 13, was complete after the activation, before the restoration and
  -- within the outage bound of the activation. Take the first request whose place is neither before
  -- the activation's nor before the restoration's: an event after the restoration acknowledged the
  -- input that its line answers, and the line, which names the request and state ok, was complete
  -- after the restoration and within the liveness bound of it. The second invocation answered its echo within the
  -- liveness bound of its start.
  pub fault_properties-FaultsSeen :
      (fault_properties t scenario choices).0.passed ≡ true
      → (fault_properties t scenario choices).1.passed ≡ true
      → (fault_properties t scenario choices).2.passed ≡ true
      → FaultsSeen
  unfolding fault_properties
  fault_properties-FaultsSeen outage_passed restoration_passed recovery_passed =
      let (seen, prohibited) = outage_from-some _ _ outage_passed in
      let (r, restored) = restoration_from-some _ _ restoration_passed in
      let (x, y, recovered, restarted) = recovery_from-some _ _ _ recovery_passed in
      let (a, activated, transitions) = restoration-Restored r restored in
      let (answer, inside) = outage_seen-AnsweredAfter a r seen activated restored prohibited in
      record {
        activation_id = a.1;
        restoration_id = r.1;
        transitions = transitions;
        prohibited = answer;
        prohibited_in_outage = inside;
        recovered = recovery_seen-AnsweredAfter r x restored recovered;
        restarted = restart_seen-Restarted y restarted;
      }
