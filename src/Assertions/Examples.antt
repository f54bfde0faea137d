-- ===== src/Assertions/Examples.antt =====
-- Concrete runs for the assertions: the theorems at inputs that meet their hypotheses, and tests.
use simferret.Prelude.{
  ℕ, ◌≡◌, ◌↔◌, refl, true, false, List, [], ◌∷◌, some, Text, codes, arith, All, All-In,
  Text-discrete, ℕ_discrete, sym, ap, ◌∙◌, ◌==◌, if◌then◌else◌,
}
use simferret.Protocol.Process.{ℤ-discrete}
use simferret.Protocol.Event.{
  RequestPhase, pre_outage, outage, recovery, RequestPhase-discrete, administrative_prohibited,
  Event, network_configured, outage_activated, network_restored, request_attempted,
  request_succeeded, request_unavailable, EventFrame, no_diagnostics, current_version,
}
use simferret.Assertions.Evaluate.{
  eacces, configured_in, configured, activated_in, activation_after, activation, restored_in,
  restoration_after, restoration, attempt_matches, success_attempt_in, matching_success_attempt,
  mismatch_in, mismatch, succeeded_in, attempted_before, answered_before, pre_outage_response,
  safety_from, safety, prohibited_in, outage_attempt_in, outage_between, outage_witness,
  controlled_outage, attempted_after, recovered_in, restoration_from, recovery_witness,
  bounded_recovery, evaluate,
}
use simferret.Assertions.Soundness.{HonestRun, evaluate-HonestRun}
use simferret.Assertions.Completeness.{OneOutage, evaluate_complete}

abbrev frame : ℕ → ℕ → Event → EventFrame
frame event_id command_id event = record {
  protocol_version = current_version;
  event_id = event_id;
  command_id = command_id;
  event = event;
  diagnostics = no_diagnostics;
}

abbrev peer : Text
peer = codes "10.0.2.2/32"

abbrev network_run : List EventFrame
network_run =
    frame 1 1 (network_configured (codes "eth0") (codes "10.0.2.15/24") (codes "10.0.2.2"))
    ∷ frame 2 2 (request_attempted (codes "a") (codes "x") pre_outage)
    ∷ frame 3 2 (request_succeeded (codes "a") (codes "x") (codes "a") (codes "x") pre_outage)
    ∷ frame 4 3 (outage_activated peer (codes "prohibit 10.0.2.2/32"))
    ∷ frame 5 4 (request_attempted (codes "b") (codes "y") outage)
    ∷ frame 6 4 (request_unavailable (codes "b") outage administrative_prohibited (some eacces))
    ∷ frame 7 5 (network_restored peer)
    ∷ frame 8 6 (request_attempted (codes "c") (codes "z") recovery)
    ∷ frame 9 6 (request_succeeded (codes "c") (codes "z") (codes "c") (codes "z") recovery)
    ∷ []

network_run-passes : (evaluate network_run 1 2).passed ≡ true
unfolding configured_in configured activated_in activation_after activation restored_in
    restoration_after restoration attempt_matches success_attempt_in matching_success_attempt
    mismatch_in mismatch succeeded_in attempted_before answered_before pre_outage_response
    safety_from safety prohibited_in outage_attempt_in outage_between outage_witness
    controlled_outage attempted_after recovered_in restoration_from recovery_witness
    bounded_recovery evaluate Text-discrete ℕ_discrete RequestPhase-discrete ℤ-discrete
network_run-passes = refl

-- A recovery bound of one event is missed.
late_run-fails : (evaluate network_run 1 1).passed ≡ false
unfolding configured_in configured activated_in activation_after activation restored_in
    restoration_after restoration attempt_matches success_attempt_in matching_success_attempt
    mismatch_in mismatch succeeded_in attempted_before answered_before pre_outage_response
    safety_from safety prohibited_in outage_attempt_in outage_between outage_witness
    controlled_outage attempted_after recovered_in restoration_from recovery_witness
    bounded_recovery evaluate Text-discrete ℕ_discrete RequestPhase-discrete ℤ-discrete
late_run-fails = refl

evaluate-HonestRun_example : HonestRun network_run 1 2
evaluate-HonestRun_example = evaluate-HonestRun network_run 1 2 network_run-passes

-- What each frame of the run is not.
abbrev IsConfiguration : EventFrame → Type 0
IsConfiguration f =
    (i c w : Text) → f.event ≡ network_configured i c w → (f.event_id ≡ 1) × (w ≡ codes "10.0.2.2")

configurations : All IsConfiguration network_run
configurations = ground arith

abbrev IsActivation : EventFrame → Type 0
IsActivation f = (p r : Text) → f.event ≡ outage_activated p r → f.event_id ≡ 4

activations : All IsActivation network_run
activations = ground arith

abbrev IsRestoration : EventFrame → Type 0
IsRestoration f = (p : Text) → f.event ≡ network_restored p → f.event_id ≡ 7

restorations : All IsRestoration network_run
restorations = ground arith

-- The event of each command's attempt.
abbrev attempt_of : ℕ → ℕ
attempt_of command_id = if command_id == 2 then 2 else if command_id == 4 then 5 else 8

abbrev IsAttempt : EventFrame → Type 0
IsAttempt f =
    (i d : Text) (p : RequestPhase)
    → f.event ≡ request_attempted i d p
    → f.event_id ≡ attempt_of f.command_id

attempts : All IsAttempt network_run
attempts = ground arith

network_run-OneOutage : OneOutage network_run
network_run-OneOutage = record {
  one_configuration = λ f g i c w i' c' w' m n.
      let p = All-In IsConfiguration network_run configurations m.recorded i c w m.carried in
      let q = All-In IsConfiguration network_run configurations n.recorded i' c' w' n.carried in
      (p.0 ∙ sym q.0, p.1 ∙ sym q.1);
  one_activation = λ f g p r p' r' m n.
      All-In IsActivation network_run activations m.recorded p r m.carried
      ∙ sym (All-In IsActivation network_run activations n.recorded p' r' n.carried);
  one_restoration = λ f g p p' m n.
      All-In IsRestoration network_run restorations m.recorded p m.carried
      ∙ sym (All-In IsRestoration network_run restorations n.recorded p' n.carried);
  one_attempt = λ f g i d i' d' p p' m n e.
      All-In IsAttempt network_run attempts m.recorded i d p m.carried
      ∙ ap attempt_of e
      ∙ sym (All-In IsAttempt network_run attempts n.recorded i' d' p' n.carried);
}

evaluate_complete_example : ((evaluate network_run 1 2).passed ≡ true) ↔ HonestRun network_run 1 2
evaluate_complete_example = evaluate_complete network_run 1 2 network_run-OneOutage
