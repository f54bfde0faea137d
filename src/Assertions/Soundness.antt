-- ===== src/Assertions/Soundness.antt =====
-- What a passing report of crates/simferret/src/assertions.rs means for the recorded events.
use simferret.Prelude.{
  ℕ, ◌-◌, ◌≤◌, ◌<◌, ◌≡◌, refl, ◌≢◌, true, List, Option, none, some, Text, arith, Option-cases, In,
  All-In, find_map-none, inl, inr,
}
use simferret.Protocol.Process.{ℤ}
use simferret.Protocol.Violation.{Detail}
use simferret.Protocol.Event.{
  RequestPhase, pre_outage, recovery, invalid_response, Event, network_restored, request_succeeded,
  request_unavailable, EventFrame,
}
use simferret.Assertions.Evaluate.{
  peer_of, activation, restoration, matching_success_attempt, mismatch_in, mismatch,
  pre_outage_response, safety_from, safety, outage_witness, controlled_outage, restoration_from,
  recovery_witness, bounded_recovery, evaluate,
}
use simferret.Assertions.Searches.{Carries, Answers, Refused, matching_success_attempt-some}
use simferret.Assertions.Window.{
  Activated, activation-some, restoration-some, pre_outage_response-some, outage_witness-some,
  recovery_witness-some,
}

-- No response of the run is other than the exact echo of an earlier attempt.
pub record AllEcho (events : List EventFrame) : Type 0 where
  pub echoes :
      (outcome : EventFrame) (id payload id' payload' : Text) (phase : RequestPhase)
      → Carries events outcome (request_succeeded id payload id' payload' phase)
      → (p : RequestPhase) × (attempt : EventFrame) × Answers events attempt outcome p
  pub canonical :
      (outcome : EventFrame) (id : Text) (phase : RequestPhase) (errno : Option ℤ)
      → ¬ Carries events outcome (request_unavailable id phase invalid_response errno)

mismatch_in-succeeded :
    (events : List EventFrame) (outcome : EventFrame) (id payload id' payload' : Text)
    (phase : RequestPhase) (e : Event)
    → e ≡ request_succeeded id payload id' payload' phase
    → mismatch_in events outcome e ≡ none
    → (attempt : EventFrame) × (matching_success_attempt events outcome ≡ some attempt)
unfolding mismatch_in
mismatch_in-succeeded events outcome id payload id' payload' phase e p h =
    let q : mismatch_in events outcome (request_succeeded id payload id' payload' phase) ≡ none =
      rw p at h in
    elim (Option-cases (matching_success_attempt events outcome)) [
      | inl missing ↦ absurd (ground (arith, q, missing))
      | inr found ↦ found
    ]

mismatch_in-invalid :
    (events : List EventFrame) (outcome : EventFrame) (id : Text) (phase : RequestPhase)
    (errno : Option ℤ) (e : Event)
    → e ≡ request_unavailable id phase invalid_response errno
    → mismatch_in events outcome e ≢ none
unfolding mismatch_in
mismatch_in-invalid events outcome id phase errno e p h =
    let q : mismatch_in events outcome (request_unavailable id phase invalid_response errno)
        ≡ none =
      rw p at h in
    cc

mismatch-AllEcho : (events : List EventFrame) → mismatch events ≡ none → AllEcho events
unfolding mismatch
mismatch-AllEcho events h =
    let clean =
      find_map-none (λ (frame : EventFrame). mismatch_in events frame frame.event) events h in
    record {
      echoes = λ outcome id payload id' payload' phase c.
          let (attempt, found) =
            mismatch_in-succeeded events outcome id payload id' payload' phase outcome.event
              c.carried (All-In _ events clean c.recorded) in
          let (p, answers) = matching_success_attempt-some events outcome attempt found in
          (p, attempt, answers);
      canonical = λ outcome id phase errno c.
          mismatch_in-invalid events outcome id phase errno outcome.event c.carried
            (All-In _ events clean c.recorded);
    }

-- The whole history that a passing report promises: a configuration and a pre-outage answer, each
-- before the activation, a refusal inside the outage, the restoration, and an answer behind it
-- within its bound.
pub record HonestRun (events : List EventFrame) (outage_bound recovery_bound : ℕ) : Type 0 where
  pub gateway : Text
  pub configuration : EventFrame
  pub outage_start : EventFrame
  pub outage_end : EventFrame
  pub activated : Activated events configuration outage_start gateway
  pub restored : Carries events outage_end (network_restored (peer_of gateway))
  pub window : outage_start.event_id < outage_end.event_id
  pub echo : AllEcho events
  pub before_attempt : EventFrame
  pub before : EventFrame
  pub before_recorded : In before events
  pub answered_before : Answers events before_attempt before pre_outage
  pub before_outage : before.event_id < outage_start.event_id
  pub denied_attempt : EventFrame
  pub denied : EventFrame
  pub denied_by : Refused events denied_attempt denied outage_bound
  pub denied_after_start : outage_start.event_id < denied_attempt.event_id
  pub denied_before_end : denied.event_id < outage_end.event_id
  pub after_attempt : EventFrame
  pub after : EventFrame
  pub after_recorded : In after events
  pub answered_after : Answers events after_attempt after recovery
  pub after_end : outage_end.event_id < after_attempt.event_id
  pub in_time : after.event_id - outage_end.event_id ≤ recovery_bound

-- A passing safety assertion found no mismatch, and a response before the outage.
safety-passed :
    (d : Option Detail) (o : Option EventFrame)
    → (safety_from d o).passed ≡ true
    → (d ≡ none) × (outcome : EventFrame) × (o ≡ some outcome)
unfolding safety_from
safety-passed none (some outcome) h = (refl, outcome, refl)
safety-passed none none h = absurd (cc)
safety-passed (some d) o h = absurd (cc)

-- The four parts of a passing report.
record PassingParts (events : List EventFrame) (outage_bound recovery_bound : ℕ) : Type 0 where
  no_mismatch : mismatch events ≡ none
  outcome : EventFrame
  answered : pre_outage_response events ≡ some outcome
  outage_found : ℕ × ℕ
  refused : outage_witness events outage_bound ≡ some outage_found
  end_id : ℕ
  ended : restoration events ≡ some end_id
  recovery_found : ℕ × ℕ
  recovered : recovery_witness events recovery_bound ≡ some recovery_found

evaluate-PassingParts :
    (events : List EventFrame) (outage_bound recovery_bound : ℕ)
    → (evaluate events outage_bound recovery_bound).passed ≡ true
    → PassingParts events outage_bound recovery_bound
unfolding evaluate safety controlled_outage restoration_from bounded_recovery
evaluate-PassingParts events ob rb h =
    let (clean, outcome, answered) =
      safety-passed (mismatch events) (pre_outage_response events) (ground arith) in
    elim (Option-cases (outage_witness events ob)) [
      | inl e ↦ absurd (ground arith)
      | inr (w, ew) ↦ elim (Option-cases (restoration events)) [
        | inl e ↦ absurd (ground arith)
        | inr (r, er) ↦ elim (Option-cases (recovery_witness events rb)) [
          | inl e ↦ absurd (ground arith)
          | inr (v, ev) ↦ record {
            no_mismatch = clean;
            outcome = outcome;
            answered = answered;
            outage_found = w;
            refused = ew;
            end_id = r;
            ended = er;
            recovery_found = v;
            recovered = ev;
          }
        ]
      ]
    ]

-- A restoration is searched for only in an activated outage.
activated_of_restored :
    (events : List EventFrame) (r : ℕ)
    → restoration events ≡ some r
    → (a : ℕ × Text) × (activation events ≡ some a)
unfolding restoration
activated_of_restored events r h = elim (Option-cases (activation events)) [
  | inl e ↦ absurd (ground arith)
  | inr found ↦ found
]

-- A report passes only for an honest run. A configuration precedes the activation of an outage of
-- its gateway's peer, and that peer is restored after the activation. A pre-outage request was
-- answered before the activation, whether before or after the configuration. A request was attempted
-- after the activation and refused before the restoration, within the outage bound of its attempt. A
-- recovery request was attempted after the restoration and answered within the recovery bound of it.
-- Every recorded response echoes an earlier attempt, and none is invalid.
pub evaluate-HonestRun :
    (events : List EventFrame) (outage_bound recovery_bound : ℕ)
    → (evaluate events outage_bound recovery_bound).passed ≡ true
    → HonestRun events outage_bound recovery_bound
evaluate-HonestRun events ob rb h =
    let p = evaluate-PassingParts events ob rb h in
    let (a, activated) = activated_of_restored events p.end_id p.ended in
    let (gateway, configuration, start, window, ea) = activation-some events a activated in
    let (end, restored, er, ordered) = restoration-some events a activated p.end_id p.ended in
    let (t, recorded, answers, before) =
      pre_outage_response-some events a activated p.outcome p.answered in
    let (t₁, u₁, refused, after_start, before_end) =
      outage_witness-some events p.end_id p.ended a ob p.outage_found activated p.refused in
    let (t₂, u₂, recorded₂, answers₂, after_end, in_time) =
      recovery_witness-some events p.end_id p.ended rb p.recovery_found p.recovered in
    record {
      gateway = gateway;
      configuration = configuration;
      outage_start = start;
      outage_end = end;
      activated = window;
      restored = record { recorded = restored.recorded; carried = cc (restored.carried, ea) };
      window = ground arith;
      echo = mismatch-AllEcho events p.no_mismatch;
      before_attempt = t;
      before = p.outcome;
      before_recorded = recorded;
      answered_before = answers;
      before_outage = ground arith;
      denied_attempt = t₁;
      denied = u₁;
      denied_by = refused;
      denied_after_start = ground arith;
      denied_before_end = ground arith;
      after_attempt = t₂;
      after = u₂;
      after_recorded = recorded₂;
      answered_after = answers₂;
      after_end = ground arith;
      in_time = ground arith;
    }
