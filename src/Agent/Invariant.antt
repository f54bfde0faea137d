-- ===== src/Agent/Invariant.antt =====
-- What the state of crates/simferret/src/agent.rs says about the frames that the agent has sent.
use simferret.Prelude.{
  ℕ, suc, ◌+◌, ◌≡◌, refl, sym, ◌∙◌, ap, Bool, true, false, List, [], ◌∷◌, ◌++◌, Text, arith, All,
  length, length-append, Result, ok, if◌then◌else◌, Option-cases, inl, inr,
}
use simferret.Workload.Launch.{LaunchIdentity}
use simferret.Protocol.Event.{
  Event, network_configured, outage_activated, network_restored, EventFrame,
}
use simferret.Agent.Machine.{
  RuntimeOps, Answers, Agent, Exec, frame_of, is_assertion_event, emit, emit_all, continue-ok,
}
use simferret.Agent.Dispatch.{start_events, shutdown_events, on_runtime}

-- The frames that feed the network assertions.
abbrev pub kept : List EventFrame → List EventFrame
kept [] = []
kept (f ∷ fs) = if is_assertion_event f.event then f ∷ kept fs else kept fs

-- Consecutive event identifiers from a number on.
abbrev pub Numbered : ℕ → List EventFrame → Type 0
Numbered i [] = Unit
Numbered i (f ∷ fs) = (f.event_id ≡ i) × Numbered (suc i) fs

-- Whether the events so far leave an outage active, and the network configured.
abbrev pub outage_step : Bool → Event → Bool
outage_step b (outage_activated _ _) = true
outage_step b (network_restored _) = false
outage_step b _ = b

abbrev pub outage_now : Bool → List EventFrame → Bool
outage_now b [] = b
outage_now b (f ∷ fs) = outage_now (outage_step b f.event) fs

abbrev pub configured_step : Bool → Event → Bool
configured_step b (network_configured _ _ _) = true
configured_step b _ = b

abbrev pub configured_now : Bool → List EventFrame → Bool
configured_now b [] = b
configured_now b (f ∷ fs) = configured_now (configured_step b f.event) fs

pub kept-snoc :
    (fs : List EventFrame) (f : EventFrame)
    → kept (fs ++ f ∷ []) ≡ (if is_assertion_event f.event then kept fs ++ f ∷ [] else kept fs)
kept-snoc [] f = refl
kept-snoc (g ∷ fs) f = ground (arith, kept-snoc fs f)

Numbered-snoc :
    (i : ℕ) (fs : List EventFrame) (f : EventFrame)
    → Numbered i fs
    → f.event_id ≡ i + length fs
    → Numbered i (fs ++ f ∷ [])
Numbered-snoc i [] f n e = (omega arith, tt)
Numbered-snoc i (g ∷ fs) f n e = (n.0, Numbered-snoc (suc i) fs f n.1 (omega arith))

outage_now-snoc :
    (b : Bool) (fs : List EventFrame) (f : EventFrame)
    → outage_now b (fs ++ f ∷ []) ≡ outage_step (outage_now b fs) f.event
outage_now-snoc b [] f = refl
outage_now-snoc b (g ∷ fs) f = outage_now-snoc (outage_step b g.event) fs f

configured_now-snoc :
    (b : Bool) (fs : List EventFrame) (f : EventFrame)
    → configured_now b (fs ++ f ∷ []) ≡ configured_step (configured_now b fs) f.event
configured_now-snoc b [] f = refl
configured_now-snoc b (g ∷ fs) f = configured_now-snoc (configured_step b g.event) fs f

-- A process or output event: it does not feed the network assertions.
abbrev pub IsProcessEvent : Event → Type 0
IsProcessEvent e = is_assertion_event e ≡ false

outage_step-process : (b : Bool) (e : Event) → IsProcessEvent e → outage_step b e ≡ b
unfolding is_assertion_event
outage_step-process b (outage_activated p r) h = absurd (cc)
outage_step-process b (network_restored p) h = absurd (cc)
outage_step-process b _ h = refl

configured_step-process : (b : Bool) (e : Event) → IsProcessEvent e → configured_step b e ≡ b
unfolding is_assertion_event
configured_step-process b (network_configured i c g) h = absurd (cc)
configured_step-process b _ h = refl

-- The agent's bookkeeping against the frames that it has sent; the flags are checked apart, since
-- `dispatch` moves a flag before it sends the event that reports it.
pub record IsLedger {R : Type 0} (a : Agent R) : Type 0 where
  pub numbered : Numbered 1 a.sent
  pub next : a.next_event_id ≡ suc (length a.sent)
  pub history : a.events ≡ kept a.sent

pub record IsConsistent {R : Type 0} (a : Agent R) : Type 0 where
  pub ledger : IsLedger a
  pub outage : a.outage_active ≡ outage_now false a.sent
  pub network : a.network_configured ≡ configured_now false a.sent
  pub outage_in_network : a.outage_active ≡ true → a.network_configured ≡ true

module _ {R : Type 0} (answers : Answers) (command_id : ℕ) where
  -- The agent after a successful `emit`.
  abbrev pub after : Event → Agent R → Agent R
  after event a =
      let frame = frame_of a command_id event in
      record a {
        next_event_id = a.next_event_id + 1;
        events = if is_assertion_event event then a.events ++ frame ∷ [] else a.events;
        sent = a.sent ++ frame ∷ [];
      }

  pub emit-ok :
      (event : Event) (a : Agent R)
      → (emit answers command_id event a).0 ≡ ok tt
      → (emit answers command_id event a).1 ≡ after event a
  unfolding emit
  emit-ok event a h = ground arith

  after-IsLedger : (event : Event) (a : Agent R) → IsLedger a → IsLedger (after event a)
  after-IsLedger event a l = record {
    numbered =
        Numbered-snoc 1 a.sent (frame_of a command_id event) l.numbered (omega (arith, l.next));
    next = omega (arith, l.next, length-append a.sent (frame_of a command_id event ∷ []));
    history =
        rw (l.history, kept-snoc a.sent (frame_of a command_id event))
          (ground (arith, kept-snoc a.sent (frame_of a command_id event), l.history));
  }

  -- A sent event leaves a consistent agent, if the flags were moved to what the event reports.
  pub emit-IsConsistent :
      (event : Event) (a : Agent R)
      → IsLedger a
      → a.outage_active ≡ outage_step (outage_now false a.sent) event
      → a.network_configured ≡ configured_step (configured_now false a.sent) event
      → (a.outage_active ≡ true → a.network_configured ≡ true)
      → (emit answers command_id event a).0 ≡ ok tt
      → IsConsistent (emit answers command_id event a).1
  emit-IsConsistent event a l o n i h = rw (emit-ok event a h) (record {
    ledger = after-IsLedger event a l;
    outage = o ∙ sym (outage_now-snoc false a.sent (frame_of a command_id event));
    network = n ∙ sym (configured_now-snoc false a.sent (frame_of a command_id event));
    outage_in_network = i;
  })

  pub emit_process-IsConsistent :
      (event : Event) (a : Agent R)
      → IsProcessEvent event
      → IsConsistent a
      → (emit answers command_id event a).0 ≡ ok tt
      → IsConsistent (emit answers command_id event a).1
  emit_process-IsConsistent event a p v h =
      emit-IsConsistent event a v.ledger
        (v.outage ∙ sym (outage_step-process (outage_now false a.sent) event p))
        (v.network ∙ sym (configured_step-process (configured_now false a.sent) event p))
        v.outage_in_network h

  pub emit_all-IsConsistent :
      (events : List Event) (a : Agent R)
      → All IsProcessEvent events
      → IsConsistent a
      → (emit_all answers command_id events a).0 ≡ ok tt
      → IsConsistent (emit_all answers command_id events a).1
  unfolding emit_all
  emit_all-IsConsistent [] a p v h = v
  emit_all-IsConsistent (e ∷ es) a p v h =
      let rest : Unit {0} → Exec R (Unit {0}) = λ _. emit_all answers command_id es in
      let a' = (emit answers command_id e a).1 in
      let (u, sent, same_state) = continue-ok (emit answers command_id e a).0 rest a' tt h in
      rw same_state (
        emit_all-IsConsistent es a' p.1 (emit_process-IsConsistent e a p.0 v sent)
          (ap (λ r. r.0) (sym same_state) ∙ h))

-- The runtime reports process and output events only, from every state.
pub record ReportsProcesses {R : Type 0} (ops : RuntimeOps R) : Type 0 where
  pub start_reports :
      (r : R) (i : ℕ) (launch : LaunchIdentity) → All IsProcessEvent (ops.start r i launch).0
  pub write_reports :
      (r : R) (i offset : ℕ) (bytes : Text) (events : List Event)
      → (ops.stdin_write r i offset bytes).0 ≡ ok events
      → All IsProcessEvent events
  pub eof_reports :
      (r : R) (i : ℕ) (events : List Event)
      → (ops.stdin_eof r i).0 ≡ ok events
      → All IsProcessEvent events
  pub terminate_reports :
      (r : R) (i : ℕ) (events : List Event)
      → (ops.terminate r i).0 ≡ ok events
      → All IsProcessEvent events
  pub shutdown_reports :
      (r : R) (events : List Event) → (ops.shutdown r).0 ≡ ok events → All IsProcessEvent events

module _ {R : Type 0} (ops : RuntimeOps R) (reports : ReportsProcesses ops) (answers : Answers)
    (command_id : ℕ) where
  -- A command that asks the runtime: its events are sent from a state with another runtime.
  pub on_runtime-IsConsistent :
      (f : R → Result (List Event) × R) (a : Agent R)
      → ((r : R) (events : List Event) → (f r).0 ≡ ok events → All IsProcessEvent events)
      → IsConsistent a
      → (events : List Event) → (on_runtime ops f a).0 ≡ ok events
      → All IsProcessEvent events × IsConsistent (on_runtime ops f a).1
  unfolding on_runtime
  on_runtime-IsConsistent f a p v events h = elim (Option-cases a.runtime) [
    | inl e ↦ absurd (ground (arith, e))
    | inr (r, e) ↦ ground (arith, e, p r events)
  ]

  pub start_events-IsConsistent :
      (invocation : ℕ) (launch : LaunchIdentity) (a : Agent R)
      → IsConsistent a
      → (events : List Event) → (start_events ops invocation launch a).0 ≡ ok events
      → All IsProcessEvent events × IsConsistent (start_events ops invocation launch a).1
  unfolding start_events is_assertion_event
  start_events-IsConsistent invocation launch a v events h = elim (Option-cases a.runtime) [
    | inl e ↦ ground (arith, e)
    | inr (r, e) ↦ ground (arith, e, reports.start_reports r invocation launch)
  ]

  pub shutdown_events-IsConsistent :
      (a : Agent R)
      → IsConsistent a
      → (events : List Event) → (shutdown_events ops a).0 ≡ ok events
      → All IsProcessEvent events × IsConsistent (shutdown_events ops a).1
  unfolding shutdown_events
  shutdown_events-IsConsistent a v events h = elim (Option-cases a.runtime) [
    | inl e ↦ ground (arith, e)
    | inr (r, e) ↦ ground (arith, e, reports.shutdown_reports r events)
  ]
