-- ===== src/Agent/Machine.antt =====
-- crates/simferret/src/agent.rs: the agent's state, what it asks of the operating system and of the
-- process runtime, and `emit`. A step that fails keeps what was sent before it failed.
use simferret.Prelude.{
  ℕ, ◌+◌, ◌≡◌, refl, Bool, true, false, List, [], ◌∷◌, ◌++◌, Option, Text, if◌then◌else◌, Result,
  ok, err, ErrorKind, fail,
}
use simferret.Workload.Launch.{LaunchIdentity}
use simferret.Protocol.Event.{
  Event, network_configured, outage_activated, network_restored, request_attempted,
  request_succeeded, request_unavailable, assertions_evaluated, EventFrame, no_diagnostics,
  current_version,
}

-- `is_assertion_event`
unfoldable pub is_assertion_event : Event → Bool
is_assertion_event (network_configured _ _ _) = true
is_assertion_event (outage_activated _ _) = true
is_assertion_event (network_restored _) = true
is_assertion_event (request_attempted _ _ _) = true
is_assertion_event (request_succeeded _ _ _ _ _) = true
is_assertion_event (request_unavailable _ _ _ _) = true
is_assertion_event (assertions_evaluated _) = true
is_assertion_event _ = false

-- The process runtime as the agent uses it. A runtime reports process and output events only.
pub record RuntimeOps (R : Type 0) : Type 0 where
  pub start : R → ℕ → LaunchIdentity → List Event × R
  pub stdin_write : R → ℕ → ℕ → Text → Result (List Event) × R
  pub stdin_eof : R → ℕ → Result (List Event) × R
  pub terminate : R → ℕ → Result (List Event) × R
  pub shutdown : R → Result (List Event) × R

-- What the operating system answers while one command is handled: `configure_network`,
-- `set_outage`, `tftp_request`, and each write to the control channel.
pub record Answers : Type 0 where
  pub configured : Result (Unit {0})
  pub outage_set : Result (Unit {0})
  pub fetched : Result (Text × Text)
  pub written : EventFrame → Result (Unit {0})

-- `Agent`, but for its framing, with the frames that it has sent.
pub record Agent (R : Type 0) : Type 0 where
  pub events : List EventFrame
  pub next_event_id : ℕ
  pub exit_code : ℕ
  pub network_configured : Bool
  pub outage_active : Bool
  pub runtime : Option R
  pub last_command_id : ℕ
  pub sent : List EventFrame

-- `Agent::new`
unfoldable pub new_agent : {R : Type 0} → Option R → Agent R
new_agent runtime = record {
  events = [];
  next_event_id = 1;
  exit_code = 0;
  network_configured = false;
  outage_active = false;
  runtime = runtime;
  last_command_id = 0;
  sent = [];
}

-- A step of the agent.
abbrev pub Exec : Type 0 → Type 0 → Type 0
Exec R A = Agent R → Result A × Agent R

module _ {R : Type 0} where
  abbrev pub continue : {A B : Type 0} → Result A → (A → Exec R B) → Exec R B
  continue (ok a) f agent = f a agent
  continue (err e) f agent = (err e, agent)

  -- A chain that succeeds: its first part did, and the rest ran from the state that it left.
  pub continue-ok :
      {A B : Type 0} (r : Result A) (f : A → Exec R B) (agent : Agent R) (b : B)
      → (continue r f agent).0 ≡ ok b
      → (a : A) × (r ≡ ok a) × (continue r f agent ≡ f a agent)
  continue-ok (ok a) f agent b h = (a, refl, refl)
  continue-ok (err e) f agent b h = absurd (cc)

  infixl 5 ◌>>=◌ ◌>>◌
  -- The operator `?`.
  abbrev pub ◌>>=◌ : {A B : Type 0} → Exec R A → (A → Exec R B) → Exec R B
  ◌>>=◌ m f agent = continue (m agent).0 f (m agent).1

  abbrev pub ◌>>◌ : {B : Type 0} → Exec R (Unit {0}) → Exec R B → Exec R B
  m >> k = m >>= λ _. k

  abbrev pub pure : {A : Type 0} → A → Exec R A
  pure a agent = (ok a, agent)

  abbrev pub lift : {A : Type 0} → Result A → Exec R A
  lift r agent = (r, agent)

  abbrev pub modify : (Agent R → Agent R) → Exec R (Unit {0})
  modify f agent = (ok tt, f agent)

  -- `if !test { return Err(…) }`
  abbrev pub require : Bool → ErrorKind → Exec R (Unit {0})
  require true k agent = (ok tt, agent)
  require false k agent = (fail k, agent)

  abbrev pub with_agent : {A : Type 0} → (Agent R → Exec R A) → Exec R A
  with_agent f agent = f agent agent

  abbrev pub frame_of : Agent R → ℕ → Event → EventFrame
  frame_of agent command_id event = record {
    protocol_version = current_version;
    event_id = agent.next_event_id;
    command_id = command_id;
    event = event;
    diagnostics = no_diagnostics;
  }

  -- What `emit` does behind a write: nothing more if it failed.
  abbrev pub after_write : Result (Unit {0}) → EventFrame → Exec R (Unit {0})
  after_write (err e) frame agent = (err e, agent)
  after_write (ok _) frame agent = (
    ok tt,
    record agent {
      events = if is_assertion_event frame.event then agent.events ++ frame ∷ [] else agent.events;
      sent = agent.sent ++ frame ∷ [];
    },
  )

  -- `Agent::emit`
  unfoldable pub emit : Answers → ℕ → Event → Exec R (Unit {0})
  unfolding is_assertion_event
  emit answers command_id event agent =
      let frame = frame_of agent command_id event in
      after_write (answers.written frame) frame
        (record agent { next_event_id = agent.next_event_id + 1 })

  -- `for event in events { self.emit(…)?; }`
  unfoldable pub emit_all : Answers → ℕ → List Event → Exec R (Unit {0})
  emit_all answers command_id [] = pure tt
  emit_all answers command_id (event ∷ events) = do
    emit answers command_id event
    emit_all answers command_id events
