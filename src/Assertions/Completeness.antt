-- ===== src/Assertions/Completeness.antt =====
-- Which runs the evaluator of crates/simferret/src/assertions.rs passes.
use simferret.Prelude.{
  ℕ, ◌-◌, ◌≤◌, ◌<◌, ◌≡◌, refl, ◌↔◌, sym, ◌∙◌, ap, Bool, true, List, Option, none, some, Text, arith,
  In, find_complete, find_map-some, find_map_complete, find_map_of_none, and_then-known,
}
use simferret.Protocol.Event.{
  RequestPhase, pre_outage, recovery, invalid_response, Event, network_configured, outage_activated,
  network_restored, request_attempted, request_succeeded, request_unavailable, EventFrame,
}
use simferret.Assertions.Evaluate.{
  peer_of, configured_in, configured, activated_in, activation_after, activation, restored_in,
  restoration_after, restoration, attempt_matches, success_attempt_in, matching_success_attempt,
  mismatch_in, mismatch, succeeded_in, attempted_before, answered_before, pre_outage_response,
  safety_from, safety, prohibited_in, outage_attempt_in, outage_between, outage_witness,
  controlled_outage, attempted_after, recovered_in, restoration_from, recovery_witness,
  bounded_recovery, evaluate,
}
use simferret.Assertions.Searches.{
  Carries, Answers, Refused, configured_in-some, activated_in-some, restored_in-some,
  matching_success_attempt-some,
}
use simferret.Assertions.Window.{Activated}
use simferret.Assertions.Soundness.{AllEcho, HonestRun, evaluate-HonestRun}

-- One outage in the run, and one attempt for each command, as the guest agent records them.
pub record OneOutage (events : List EventFrame) : Type 0 where
  pub one_configuration :
      (f g : EventFrame) (i c w i' c' w' : Text)
      → Carries events f (network_configured i c w)
      → Carries events g (network_configured i' c' w')
      → (f.event_id ≡ g.event_id) × (w ≡ w')
  pub one_activation :
      (f g : EventFrame) (p r p' r' : Text)
      → Carries events f (outage_activated p r)
      → Carries events g (outage_activated p' r')
      → f.event_id ≡ g.event_id
  pub one_restoration :
      (f g : EventFrame) (p p' : Text)
      → Carries events f (network_restored p)
      → Carries events g (network_restored p')
      → f.event_id ≡ g.event_id
  pub one_attempt :
      (f g : EventFrame) (i d i' d' : Text) (p p' : RequestPhase)
      → Carries events f (request_attempted i d p)
      → Carries events g (request_attempted i' d' p')
      → f.command_id ≡ g.command_id
      → f.event_id ≡ g.event_id

configured-found :
    (events : List EventFrame) (configuration : EventFrame) (i c gateway : Text)
    → OneOutage events
    → Carries events configuration (network_configured i c gateway)
    → configured events ≡ some (configuration.event_id, peer_of gateway)
unfolding configured configured_in
configured-found events configuration i c gateway one carries =
    let test : EventFrame → Option (ℕ × Text) = λ frame. configured_in frame.event_id frame.event in
    let (r, e) =
      find_map_complete test events {b = (configuration.event_id, peer_of gateway)} carries.recorded
        (rw carries.carried) in
    let (f, recorded, found) = find_map-some test events r e in
    let (i', c', gateway', ef, er) = configured_in-some f.event_id f.event r found in
    let (same_id, same_gateway) =
      one.one_configuration f configuration i' c' gateway' i c gateway
        (record { recorded = recorded; carried = ef }) carries in
    e ∙ ap some (er ∙ cc (same_id, same_gateway))

activation-found :
    (events : List EventFrame) (configuration start : EventFrame) (gateway : Text)
    → OneOutage events
    → Activated events configuration start gateway
    → activation events ≡ some (start.event_id, peer_of gateway)
unfolding activation activation_after activated_in
activation-found events configuration start gateway one w =
    let c : ℕ × Text = (configuration.event_id, peer_of gateway) in
    let test : EventFrame → Option (ℕ × Text) =
      λ frame. activated_in c frame.event_id frame.event in
    let known =
      configured-found events configuration w.interface w.guest_cidr gateway one w.configured_by in
    let (r, e) =
      find_map_complete test events {b = (start.event_id, peer_of gateway)} w.activated_by.recorded
        (rw w.activated_by.carried (ground (arith, w.in_order))) in
    let (f, recorded, found) = find_map-some test events r e in
    let (ef, er, _) = activated_in-some c f.event_id f.event r found in
    let same_id =
      one.one_activation f start (peer_of gateway) _ (peer_of gateway) _
        (record { recorded = recorded; carried = ef }) w.activated_by in
    and_then-known _ (activation_after events) c known ∙ e ∙ ap some (er ∙ cc (same_id))

restoration-found :
    (events : List EventFrame) (a : ℕ × Text) (end : EventFrame)
    → OneOutage events
    → activation events ≡ some a
    → Carries events end (network_restored a.1)
    → a.0 < end.event_id
    → restoration events ≡ some end.event_id
unfolding restoration restoration_after restored_in
restoration-found events a end one activated carries order =
    let test : EventFrame → Option ℕ = λ frame. restored_in a frame.event_id frame.event in
    let (r, e) =
      find_map_complete test events {b = end.event_id} carries.recorded
        (rw carries.carried (ground (arith, order))) in
    let (f, recorded, found) = find_map-some test events r e in
    let (ef, er, _) = restored_in-some a f.event_id f.event r found in
    let same_id =
      one.one_restoration f end a.1 a.1 (record { recorded = recorded; carried = ef }) carries in
    and_then-known _ (restoration_after events) a activated ∙ e ∙ ap some (er ∙ same_id)

attempt_matches-of :
    (outcome : EventFrame) (id payload : Text) (phase : RequestPhase) (i c : ℕ) (e : Event)
    → e ≡ request_attempted id payload phase
    → c ≡ outcome.command_id
    → i < outcome.event_id
    → attempt_matches outcome id payload phase i c e ≡ true
unfolding attempt_matches
attempt_matches-of outcome id payload phase i c e p q h = rw p (ground (arith, q, h))

-- The attempt that the evaluator finds for an answer is the attempt of its command.
attempt-found :
    (events : List EventFrame) (attempt outcome : EventFrame) (phase : RequestPhase)
    → OneOutage events
    → Answers events attempt outcome phase
    → (found : EventFrame) × (matching_success_attempt events outcome ≡ some found)
      × (found.event_id ≡ attempt.event_id)
unfolding matching_success_attempt success_attempt_in
attempt-found events attempt outcome phase one a =
    let test : EventFrame → Bool = λ frame.
      attempt_matches outcome a.request_id a.payload phase frame.event_id frame.command_id
        frame.event in
    let (found, e) = find_complete test events a.attempted.recorded (
      attempt_matches-of outcome a.request_id a.payload phase attempt.event_id attempt.command_id
        attempt.event a.attempted.carried a.same_command a.in_order) in
    let known : matching_success_attempt events outcome ≡ some found =
      rw a.succeeded (ground (arith, e)) in
    let (p, b) = matching_success_attempt-some events outcome found known in
    (
      found,
      known,
      one.one_attempt found attempt _ _ _ _ _ _ b.attempted a.attempted
          (b.same_command ∙ sym a.same_command),
    )

outage-found :
    (events : List EventFrame) (a : ℕ × Text) (r bound : ℕ) (attempt outcome : EventFrame)
    → activation events ≡ some a
    → restoration events ≡ some r
    → Refused events attempt outcome bound
    → a.0 < attempt.event_id
    → outcome.event_id < r
    → (w : ℕ × ℕ) × (outage_witness events bound ≡ some w)
unfolding outage_witness outage_between outage_attempt_in prohibited_in
outage-found events a r bound attempt outcome ha hr f after before =
    let inner : EventFrame → Option (ℕ × ℕ) = λ frame.
      prohibited_in f.request_id attempt.event_id attempt.command_id r bound frame.event_id
        frame.command_id frame.event in
    let outer : EventFrame → Option (ℕ × ℕ) =
      λ frame. outage_attempt_in events a.0 r bound frame frame.event in
    let (v, ev) =
      find_map_complete inner events {b = (attempt.event_id, outcome.event_id - attempt.event_id)}
        f.refused.recorded
        (rw f.refused.carried (ground (arith, f.same_command, f.in_order, f.in_time, before))) in
    let (w, ew) =
      find_map_complete outer events {b = v} f.attempted.recorded
        (rw f.attempted.carried (ground (arith, ev, after, before, f.in_order))) in
    (w, and_then-known _ _ a ha ∙ and_then-known _ (outage_between events bound a) r hr ∙ ew)

succeeded_in-true :
    (id payload id' payload' : Text) (phase : RequestPhase) (e : Event)
    → e ≡ request_succeeded id payload id' payload' phase
    → succeeded_in phase e ≡ true
unfolding succeeded_in
succeeded_in-true id payload id' payload' phase e p = rw p (ground arith)

recovery-found :
    (events : List EventFrame) (r bound : ℕ) (attempt outcome : EventFrame)
    → OneOutage events
    → restoration events ≡ some r
    → In outcome events
    → Answers events attempt outcome recovery
    → r < attempt.event_id
    → outcome.event_id - r ≤ bound
    → (w : ℕ × ℕ) × (recovery_witness events bound ≡ some w)
unfolding recovery_witness recovered_in attempted_after
recovery-found events r bound attempt outcome one hr m a after in_time =
    let (found, e, same_id) = attempt-found events attempt outcome recovery one a in
    let (w, ew) =
      find_map_complete (recovered_in events r bound) events
        {b = (outcome.event_id, outcome.event_id - r)} m
        (rw e (
          ground (
            arith,
            same_id,
            after,
            in_time,
            a.in_order,
            succeeded_in-true _ _ _ _ recovery outcome.event a.succeeded,
          ))) in
    (w, and_then-known _ _ r hr ∙ ew)

pre_outage-found :
    (events : List EventFrame) (a : ℕ × Text) (attempt outcome : EventFrame)
    → OneOutage events
    → activation events ≡ some a
    → In outcome events
    → Answers events attempt outcome pre_outage
    → outcome.event_id < a.0
    → (found : EventFrame) × (pre_outage_response events ≡ some found)
unfolding pre_outage_response answered_before attempted_before
pre_outage-found events a attempt outcome one ha m ans before =
    let (t, e, same_id) = attempt-found events attempt outcome pre_outage one ans in
    let (found, ef) = find_complete (answered_before events a) events m (
      rw e (
        ground (
          arith,
          same_id,
          before,
          ans.in_order,
          succeeded_in-true _ _ _ _ pre_outage outcome.event ans.succeeded,
        ))) in
    (found, and_then-known _ _ a ha ∙ ef)

mismatch_in-none :
    (events : List EventFrame) (frame : EventFrame) (e : Event)
    → OneOutage events
    → AllEcho events
    → Carries events frame e
    → mismatch_in events frame e ≡ none
unfolding mismatch_in
mismatch_in-none events frame (request_succeeded id payload id' payload' phase) one echo c =
    let (p, attempt, answers) = echo.echoes frame id payload id' payload' phase c in
    let (t, e, _) = attempt-found events attempt frame p one answers in ground (arith, e)
mismatch_in-none events frame (request_unavailable id phase invalid_response errno) one echo c =
    absurd (echo.canonical frame id phase errno c)
mismatch_in-none events frame _ one echo c = refl

mismatch-none :
    (events : List EventFrame) → OneOutage events → AllEcho events → mismatch events ≡ none
unfolding mismatch
mismatch-none events one echo = find_map_of_none _ events (λ frame m.
    mismatch_in-none events frame frame.event one echo (record { recorded = m; carried = refl }))

HonestRun-evaluate :
    (events : List EventFrame) (outage_bound recovery_bound : ℕ)
    → OneOutage events
    → HonestRun events outage_bound recovery_bound
    → (evaluate events outage_bound recovery_bound).passed ≡ true
unfolding evaluate safety safety_from controlled_outage restoration_from bounded_recovery
HonestRun-evaluate events ob rb one h =
    let ha = activation-found events h.configuration h.outage_start h.gateway one h.activated in
    let hr =
      restoration-found events (h.outage_start.event_id, peer_of h.gateway) h.outage_end one ha
        h.restored h.window in
    let (before, eb) =
      pre_outage-found events (h.outage_start.event_id, peer_of h.gateway) h.before_attempt h.before
        one ha h.before_recorded h.answered_before h.before_outage in
    let (w, ew) =
      outage-found events (h.outage_start.event_id, peer_of h.gateway) h.outage_end.event_id ob
        h.denied_attempt h.denied ha hr h.denied_by h.denied_after_start h.denied_before_end in
    let (v, ev) =
      recovery-found events h.outage_end.event_id rb h.after_attempt h.after one hr h.after_recorded
        h.answered_after h.after_end h.in_time in
    simp (mismatch-none events one h.echo, eb, ew, ev, hr)

-- In a run whose events have at most one configuration, one activation, one restoration, and one
-- attempt for each command id, the report passes exactly if the run is honest.
pub evaluate_complete :
    (events : List EventFrame) (outage_bound recovery_bound : ℕ)
    → OneOutage events
    → ((evaluate events outage_bound recovery_bound).passed ≡ true)
      ↔ HonestRun events outage_bound recovery_bound
evaluate_complete events ob rb one =
    (evaluate-HonestRun events ob rb, HonestRun-evaluate events ob rb one)
