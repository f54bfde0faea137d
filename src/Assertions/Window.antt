-- ===== src/Assertions/Window.antt =====
-- What the searches of crates/simferret/src/assertions.rs find from the outage's activation on.
use simferret.Prelude.{
  ℕ, ◌-◌, ◌≤◌, ◌<◌, ◌≡◌, refl, ◌&&◌, List, some, Text, arith, Option-cases, In, find, find-some,
  find_map-some, and_then, inl, inr, if-some, and_then-some, and_then-known, sym, ◌∙◌, ltb,
  find_map,
}
use simferret.Protocol.Event.{
  pre_outage, outage, recovery, Event, network_configured, outage_activated, network_restored,
  request_attempted, EventFrame,
}
use simferret.Assertions.Evaluate.{
  peer_of, rule_of, configured_in, configured, activated_in, activation_after, activation,
  restored_in, restoration_after, restoration, answered_before, outage_between,
  matching_success_attempt, pre_outage_response, prohibited_in, outage_attempt_in, outage_witness,
  recovered_in, recovery_witness,
}
use simferret.Assertions.Searches.{
  Carries, Answers, Refused, configured_in-some, activated_in-some, restored_in-some,
  matching_success_attempt-some, succeeded_in-phase, prohibited_in-some,
}

-- The fixture's configuration, and an outage of its gateway activated later.
pub record Activated (events : List EventFrame) (configuration start : EventFrame) (gateway : Text)
    : Type 0 where
  pub interface : Text
  pub guest_cidr : Text
  pub configured_by : Carries events configuration (network_configured interface guest_cidr gateway)
  pub activated_by :
      Carries events start (outage_activated (peer_of gateway) (rule_of (peer_of gateway)))
  pub in_order : configuration.event_id < start.event_id

pub activation-some :
    (events : List EventFrame) (a : ℕ × Text)
    → activation events ≡ some a
    → (gateway : Text) × (configuration : EventFrame) × (start : EventFrame) × Activated events
        configuration start gateway
      × (a ≡ (start.event_id, peer_of gateway))
unfolding activation configured activation_after
activation-some events a h =
    let (c, found, next) = and_then-some (configured events) (activation_after events) a h in
    let (configuration, recorded, is_configured) =
      find_map-some (λ (frame : EventFrame). configured_in frame.event_id frame.event) events c
        found in
    let (start, recorded', is_activated) =
      find_map-some (λ (frame : EventFrame). activated_in c frame.event_id frame.event) events a
        next in
    let (interface, guest_cidr, gateway, e, ec) =
      configured_in-some configuration.event_id configuration.event c is_configured in
    let (e', ea, order) = activated_in-some c start.event_id start.event a is_activated in
    (
      gateway,
      configuration,
      start,
      record {
        interface = interface;
        guest_cidr = guest_cidr;
        configured_by = record { recorded = recorded; carried = e };
        activated_by = record { recorded = recorded'; carried = cc };
        in_order = ground arith;
      },
      cc,
    )

-- From here on the window is known: the outage of a peer begins at `a`, and ends at `r`.
module _ (events : List EventFrame) (a : ℕ × Text) (activated : activation events ≡ some a) where
  pub restoration-some :
      (r : ℕ)
      → restoration events ≡ some r
      → (end : EventFrame) × Carries events end (network_restored a.1)
        × (r ≡ end.event_id)
        × (a.0 < r)
  unfolding restoration restoration_after
  restoration-some r h =
      let next = sym (and_then-known _ (restoration_after events) a activated) ∙ h in
      let (end, recorded, is_restored) =
        find_map-some (λ (frame : EventFrame). restored_in a frame.event_id frame.event) events r
          next in
      let (e, er, order) = restored_in-some a end.event_id end.event r is_restored in
      (end, record { recorded = recorded; carried = e }, er, rw er order)

  pub pre_outage_response-some :
      (outcome : EventFrame)
      → pre_outage_response events ≡ some outcome
      → (attempt : EventFrame) × In outcome events
        × Answers events attempt outcome pre_outage
        × (outcome.event_id < a.0)
  unfolding pre_outage_response answered_before
  pre_outage_response-some outcome h =
      let next =
        sym (and_then-known _ (λ b. find (answered_before events b) events) a activated) ∙ h in
      let (recorded, tests) = find-some (answered_before events a) events outcome next in
      elim (Option-cases (matching_success_attempt events outcome)) [
        | inl e ↦ absurd (ground (arith, tests, e))
        | inr (attempt, e) ↦
            let (phase, answers) = matching_success_attempt-some events outcome attempt e in
            (
              attempt,
              recorded,
              succeeded_in-phase events attempt outcome phase pre_outage (ground arith) answers,
              ground arith,
            )
      ]

outage_attempt_in-some :
    (events : List EventFrame) (a r bound : ℕ) (attempt : EventFrame) (e : Event) (w : ℕ × ℕ)
    → In attempt events
    → attempt.event ≡ e
    → outage_attempt_in events a r bound attempt e ≡ some w
    → (outcome : EventFrame) × Refused events attempt outcome bound
      × (a < attempt.event_id)
      × (outcome.event_id < r)
unfolding outage_attempt_in
outage_attempt_in-some events a r bound attempt (request_attempted id payload outage) w m p h =
    let (inside, found) =
      if-some (ltb a attempt.event_id && ltb attempt.event_id r)
        (find_map
          (λ (outcome : EventFrame).
            prohibited_in id attempt.event_id attempt.command_id r bound outcome.event_id
              outcome.command_id outcome.event)
          events)
        w h in
    let (outcome, recorded, is_refused) =
      find_map-some
        (λ (outcome : EventFrame).
          prohibited_in id attempt.event_id attempt.command_id r bound outcome.event_id
            outcome.command_id outcome.event)
        events w found in
    let (e, _, command, order, before, in_time) =
      prohibited_in-some id attempt.event_id attempt.command_id r bound outcome.event_id
        outcome.command_id outcome.event w is_refused in
    (
      outcome,
      record {
        request_id = id;
        payload = payload;
        attempted = record { recorded = m; carried = p };
        refused = record { recorded = recorded; carried = e };
        same_command = command;
        in_order = order;
        in_time = in_time;
      },
      ground arith,
      before,
    )
outage_attempt_in-some events a r bound attempt _ w m p h = absurd (cc)

module _ (events : List EventFrame) (r : ℕ) (restored : restoration events ≡ some r) where
  pub outage_witness-some :
      (a : ℕ × Text) (bound : ℕ) (w : ℕ × ℕ)
      → activation events ≡ some a
      → outage_witness events bound ≡ some w
      → (attempt : EventFrame) × (outcome : EventFrame) × Refused events attempt outcome bound
        × (a.0 < attempt.event_id)
        × (outcome.event_id < r)
  unfolding outage_witness outage_between
  outage_witness-some a bound w activated h =
      let next =
        sym (
          and_then-known _ (λ b. and_then (restoration events) (outage_between events bound b)) a
            activated)
        ∙ h in
      let found = sym (and_then-known _ (outage_between events bound a) r restored) ∙ next in
      let (attempt, recorded, is_attempt) =
        find_map-some
          (λ (attempt : EventFrame). outage_attempt_in events a.0 r bound attempt attempt.event)
          events w found in
      let (outcome, refused, after, before) =
        outage_attempt_in-some events a.0 r bound attempt attempt.event w recorded refl
          is_attempt in
      (attempt, outcome, refused, after, before)

  pub recovery_witness-some :
      (bound : ℕ) (w : ℕ × ℕ)
      → recovery_witness events bound ≡ some w
      → (attempt : EventFrame) × (outcome : EventFrame) × In outcome events
        × Answers events attempt outcome recovery
        × (r < attempt.event_id)
        × (outcome.event_id - r ≤ bound)
  unfolding recovery_witness recovered_in
  recovery_witness-some bound w h =
      let found =
        sym (and_then-known _ (λ t. find_map (recovered_in events t bound) events) r restored)
        ∙ h in
      let (outcome, recorded, is_recovered) =
        find_map-some (recovered_in events r bound) events w found in
      elim (Option-cases (matching_success_attempt events outcome)) [
        | inl e ↦ absurd (ground (arith, is_recovered, e))
        | inr (attempt, e) ↦
            let (phase, answers) = matching_success_attempt-some events outcome attempt e in
            (
              attempt,
              outcome,
              recorded,
              succeeded_in-phase events attempt outcome phase recovery (ground arith) answers,
              ground arith,
              ground arith,
            )
      ]
