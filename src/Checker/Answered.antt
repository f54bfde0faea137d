-- ===== src/Checker/Answered.antt =====
-- What `fault_properties` of crates/simferret/src/checker.rs takes for the answer to a phase: the line
-- by its place in the output of an invocation.
use simferret.Prelude.{
  ℕ, suc, ◌≡◌, refl, ap, ◌∙◌, List, [], ◌∷◌, some, Text, arith, In, here, there, Bool-cases, sym,
  Option-cases, inl, inr, same→eq, same_text, Text-discrete, get_elem?, and_then-some,
}
use simferret.Protocol.Event.{RequestPhase, pre_outage, outage, recovery}
use simferret.Scenario.Types.{PlannedRequest, WorkloadChoicePlan}
use simferret.Checker.Streams.{CompletedLine, InvocationStreams}
use simferret.Checker.Trace.{StreamMap, WorkloadTrace}
use simferret.Checker.Views.{behind_first, answered_line, line_with_ack, stdout_line_with_ack}
use simferret.Checker.Responses.{expected_network_line}
use simferret.Checker.Faults.{first_in_phase, phase_line, phase_answer}
use simferret.Checker.Phases.{answer_text, IsFirstOf, first_in_phase-IsFirstOf}

-- A line and the acknowledgement that it answers, by their places in an invocation.
pub record IsAnswerAt (wanted : Text) (m : StreamMap) (line : CompletedLine) (acknowledged : ℕ)
    : Type 0 where
  pub invocation : ℕ
  pub streams : InvocationStreams
  pub recorded : In (invocation, streams) m
  pub place : ℕ
  pub line_at : get_elem? streams.out.lines (suc place) ≡ some line
  pub acknowledged_at : get_elem? streams.data_input_events place ≡ some acknowledged
  pub says : line.text ≡ wanted

-- A place in the lines behind the first, with the acknowledgement at the same place.
record IsPair (wanted : Text) (lines : List CompletedLine) (acks : List ℕ) (line : CompletedLine)
    (acknowledged : ℕ) : Type 0 where
  place : ℕ
  line_at : get_elem? lines place ≡ some line
  acknowledged_at : get_elem? acks place ≡ some acknowledged
  says : line.text ≡ wanted

answered_line-IsPair :
    (wanted : Text) (lines : List CompletedLine) (acks : List ℕ) (line : CompletedLine)
    (acknowledged : ℕ)
    → answered_line wanted lines acks ≡ some (line, acknowledged)
    → IsPair wanted lines acks line acknowledged
unfolding answered_line
answered_line-IsPair wanted [] acks line acknowledged h = absurd (cc)
answered_line-IsPair wanted (l ∷ lines) [] line acknowledged h = absurd (cc)
answered_line-IsPair wanted (l ∷ lines) (a ∷ acks) line acknowledged h =
    elim (Bool-cases (same_text l.text wanted)) [
      | inl e ↦
          let found : l ≡ line = ground (arith, h, e) in
          record {
            place = 0;
            line_at = ap some found;
            acknowledged_at = ground (arith, h, e);
            says = sym (ap (λ c. c.text) found) ∙ same→eq Text-discrete l.text wanted e;
          }
      | inr e ↦
          let later : answered_line wanted lines acks ≡ some (line, acknowledged) =
            ground (arith, h, e) in
          let found = answered_line-IsPair wanted lines acks line acknowledged later in
          record {
            place = suc found.place;
            line_at = found.line_at;
            acknowledged_at = found.acknowledged_at;
            says = found.says;
          }
    ]

get_elem?-behind_first :
    (lines : List CompletedLine) (place : ℕ) (line : CompletedLine)
    → get_elem? (behind_first lines) place ≡ some line
    → get_elem? lines (suc place) ≡ some line
get_elem?-behind_first [] place line h = absurd (cc)
get_elem?-behind_first (l ∷ lines) place line h = h

line_with_ack-IsAnswerAt :
    (wanted : Text) (m : StreamMap) (line : CompletedLine) (acknowledged : ℕ)
    → line_with_ack wanted m ≡ some (line, acknowledged)
    → IsAnswerAt wanted m line acknowledged
unfolding line_with_ack
line_with_ack-IsAnswerAt wanted [] line acknowledged h = absurd (cc)
line_with_ack-IsAnswerAt wanted ((key, s) ∷ m) line acknowledged h =
    elim (Option-cases (answered_line wanted (behind_first s.out.lines) s.data_input_events)) [
      | inl e ↦
          let found = line_with_ack-IsAnswerAt wanted m line acknowledged (ground (arith, h, e)) in
          record {
            invocation = found.invocation;
            streams = found.streams;
            recorded = there found.recorded;
            place = found.place;
            line_at = found.line_at;
            acknowledged_at = found.acknowledged_at;
            says = found.says;
          }
      | inr ((l, a), e) ↦
          let pair : (l, a) ≡ (line, acknowledged) = ground (arith, h, e) in
          let found =
            answered_line-IsPair wanted (behind_first s.out.lines) s.data_input_events line
              acknowledged (e ∙ ap some pair) in
          record {
            invocation = key;
            streams = s;
            recorded = here refl;
            place = found.place;
            line_at = get_elem?-behind_first s.out.lines found.place line found.line_at;
            acknowledged_at = found.acknowledged_at;
            says = found.says;
          }
    ]

expected_network_line-answer_text :
    (request : PlannedRequest) (phase : RequestPhase)
    → expected_network_line request phase ≡ answer_text phase request.request_id
unfolding expected_network_line
expected_network_line-answer_text request pre_outage = refl
expected_network_line-answer_text request outage = refl
expected_network_line-answer_text request recovery = refl

-- The answer to the first planned request of a phase, with the acknowledgement of that request.
pub record IsPhaseAnswer (t : WorkloadTrace) (choices : WorkloadChoicePlan) (phase : RequestPhase)
    (line : CompletedLine) (acknowledged : ℕ) : Type 0 where
  pub request : PlannedRequest
  pub first_of_phase :
      IsFirstOf phase choices.outage_activation_request_index choices.restoration_request_index 0
        choices.requests request
  pub answer : IsAnswerAt (answer_text phase request.request_id) t.invocations line acknowledged

pub phase_answer-IsPhaseAnswer :
    (t : WorkloadTrace) (choices : WorkloadChoicePlan) (phase : RequestPhase) (line : CompletedLine)
    (acknowledged : ℕ)
    → phase_answer t choices phase ≡ some (line, acknowledged)
    → IsPhaseAnswer t choices phase line acknowledged
unfolding phase_answer stdout_line_with_ack
phase_answer-IsPhaseAnswer t choices phase line acknowledged h =
    let (request, first, h1) =
      and_then-some
        (first_in_phase phase 0 choices.outage_activation_request_index
          choices.restoration_request_index choices.requests)
        (phase_line t phase) (line, acknowledged) h in
    let found =
      line_with_ack-IsAnswerAt (expected_network_line request phase) t.invocations line acknowledged
        h1 in
    record {
      request = request;
      first_of_phase =
          first_in_phase-IsFirstOf phase 0 choices.outage_activation_request_index
            choices.restoration_request_index choices.requests request first;
      answer = record {
        invocation = found.invocation;
        streams = found.streams;
        recorded = found.recorded;
        place = found.place;
        line_at = found.line_at;
        acknowledged_at = found.acknowledged_at;
        says = found.says ∙ expected_network_line-answer_text request phase;
      };
    }
