-- ===== src/Assertions/Searches.antt =====
-- What each search of crates/simferret/src/assertions.rs finds, as facts about the events.
use simferret.Prelude.{
  ℕ, ◌-◌, ◌≤◌, ◌<◌, ◌≡◌, refl, true, List, none, some, Text, arith, In, find-some, if-some,
}
use simferret.Protocol.Event.{
  RequestPhase, outage, administrative_prohibited, Event, network_configured, outage_activated,
  network_restored, request_attempted, request_succeeded, request_unavailable, EventFrame,
}
use simferret.Assertions.Evaluate.{
  eacces, peer_of, rule_of, configured_in, activated_in, restored_in, attempt_matches,
  success_attempt_in, matching_success_attempt, succeeded_in, prohibited_in,
}

-- A frame of the run that carries an event.
pub record Carries (events : List EventFrame) (frame : EventFrame) (event : Event) : Type 0 where
  pub recorded : In frame events
  pub carried : frame.event ≡ event

-- A response that echoes an earlier attempt of the same command exactly.
pub record Answers (events : List EventFrame) (attempt outcome : EventFrame) (phase : RequestPhase)
    : Type 0 where
  pub request_id : Text
  pub payload : Text
  pub attempted : Carries events attempt (request_attempted request_id payload phase)
  pub succeeded : outcome.event ≡ request_succeeded request_id payload request_id payload phase
  pub same_command : attempt.command_id ≡ outcome.command_id
  pub in_order : attempt.event_id < outcome.event_id

-- An attempt that the prohibition of its peer refused, within a number of events.
pub record Refused (events : List EventFrame) (attempt outcome : EventFrame) (bound : ℕ)
    : Type 0 where
  pub request_id : Text
  pub payload : Text
  pub attempted : Carries events attempt (request_attempted request_id payload outage)
  pub refused :
      Carries events outcome
        (request_unavailable request_id outage administrative_prohibited (some eacces))
  pub same_command : outcome.command_id ≡ attempt.command_id
  pub in_order : attempt.event_id < outcome.event_id
  pub in_time : outcome.event_id - attempt.event_id ≤ bound

pub configured_in-some :
    (i : ℕ) (e : Event) (r : ℕ × Text)
    → configured_in i e ≡ some r
    → (interface : Text) × (guest_cidr : Text) × (gateway : Text) × (e
        ≡ network_configured interface guest_cidr gateway)
      × (r ≡ (i, peer_of gateway))
unfolding configured_in
configured_in-some i (network_configured a b g) r h = (a, b, g, refl, ground arith)
configured_in-some i _ r h = absurd (cc)

pub activated_in-some :
    (c : ℕ × Text) (i : ℕ) (e : Event) (r : ℕ × Text)
    → activated_in c i e ≡ some r
    → (e ≡ outage_activated c.1 (rule_of c.1)) × (r ≡ (i, c.1)) × (c.0 < i)
unfolding activated_in
activated_in-some (c, p) i (outage_activated peer rule) r h = ground arith
activated_in-some (c, p) i _ r h = absurd (cc)

pub restored_in-some :
    (a : ℕ × Text) (i : ℕ) (e : Event) (r : ℕ)
    → restored_in a i e ≡ some r
    → (e ≡ network_restored a.1) × (r ≡ i) × (a.0 < i)
unfolding restored_in
restored_in-some (a, p) i (network_restored peer) r h = ground arith
restored_in-some (a, p) i _ r h = absurd (cc)

attempt_matches-true :
    (outcome : EventFrame) (id payload : Text) (phase : RequestPhase) (i c : ℕ) (e : Event)
    → attempt_matches outcome id payload phase i c e ≡ true
    → (e ≡ request_attempted id payload phase) × (c ≡ outcome.command_id) × (i < outcome.event_id)
unfolding attempt_matches
attempt_matches-true outcome id payload phase i c (request_attempted a p q) h = ground arith
attempt_matches-true outcome id payload phase i c _ h = absurd (cc)

success_attempt_in-some :
    (events : List EventFrame) (outcome attempt : EventFrame) (e : Event)
    → outcome.event ≡ e
    → success_attempt_in events outcome e ≡ some attempt
    → (phase : RequestPhase) × Answers events attempt outcome phase
unfolding success_attempt_in
success_attempt_in-some events outcome attempt (request_succeeded id payload id' payload' phase) p
      h =
    let (echo, found) = if-some _ _ attempt h in
    let (recorded, matches) = find-some _ events attempt found in
    let (carried, command, order) =
      attempt_matches-true outcome id payload phase attempt.event_id attempt.command_id
        attempt.event matches in
    (
      phase,
      record {
        request_id = id;
        payload = payload;
        attempted = record { recorded = recorded; carried = carried };
        succeeded = ground arith;
        same_command = command;
        in_order = order;
      },
    )
success_attempt_in-some events outcome attempt _ p h = absurd (cc)

pub matching_success_attempt-some :
    (events : List EventFrame) (outcome attempt : EventFrame)
    → matching_success_attempt events outcome ≡ some attempt
    → (phase : RequestPhase) × Answers events attempt outcome phase
unfolding matching_success_attempt
matching_success_attempt-some events outcome attempt =
    success_attempt_in-some events outcome attempt outcome.event refl

-- The phase of an answer is that of the response.
pub succeeded_in-phase :
    (events : List EventFrame) (attempt outcome : EventFrame) (p phase : RequestPhase)
    → succeeded_in phase outcome.event ≡ true
    → Answers events attempt outcome p
    → Answers events attempt outcome phase
unfolding succeeded_in
succeeded_in-phase events attempt outcome p phase h answers =
    let e : p ≡ phase = ground (arith, answers.succeeded) in rw e at answers

pub prohibited_in-some :
    (id : Text) (i c r bound j k : ℕ) (e : Event) (w : ℕ × ℕ)
    → prohibited_in id i c r bound j k e ≡ some w
    → (e ≡ request_unavailable id outage administrative_prohibited (some eacces))
      × (w ≡ (i, j - i))
      × (k ≡ c)
      × (i < j)
      × (j < r)
      × (j - i ≤ bound)
unfolding prohibited_in
prohibited_in-some id i c r bound j k (request_unavailable a outage administrative_prohibited none)
      w h =
    absurd (cc)
prohibited_in-some id i c r bound j k
      (request_unavailable a outage administrative_prohibited (some n)) w h =
    ground arith
prohibited_in-some id i c r bound j k _ w h = absurd (cc)
