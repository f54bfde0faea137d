-- ===== src/Agent/Stops.antt =====
-- Where the command loop of crates/simferret/src/agent.rs stops.
use simferret.Prelude.{
  ℕ, ◌≡◌, refl, ◌≢◌, ◌⊎◌, inl, inr, Bool, true, false, List, [], ◌∷◌, ◌++◌, All, arith, Result, ok,
  err, if◌then◌else◌, ap, sym, subst, Bool-cases, ◌∙◌,
}
use simferret.Protocol.Command.{
  CommandFrame, Command, configure_network, activate_outage, restore_network, request, check, start,
  stdin_write, stdin_eof, terminate, shutdown,
}
use simferret.Agent.Machine.{RuntimeOps, Answers, Agent}
use simferret.Agent.Dispatch.{dispatch, command_loop}
use simferret.Protocol.Framing.{require_version}
use simferret.Agent.Preservation.{dispatch-IsConsistent}
use simferret.Agent.Invariant.{ReportsProcesses, IsConsistent, outage_now}

module _ {R : Type 0} (ops : RuntimeOps R) (answers : Answers) (command_id : ℕ) (a : Agent R)
    (consistent : IsConsistent a) where
  -- A dispatch asks the loop to stop only for a shutdown, and only with no outage active.
  stop-shutdown :
      (command : Command)
      → (dispatch ops answers command_id command a).0 ≡ ok false
      → (command ≡ shutdown) × (outage_now false a.sent ≡ false)
  unfolding dispatch
  stop-shutdown (configure_network i c g) h = absurd (ground arith)
  stop-shutdown (activate_outage p) h = absurd (ground arith)
  stop-shutdown (restore_network p) h = absurd (ground arith)
  stop-shutdown (request i p q) h = absurd (ground arith)
  stop-shutdown (check o l) h = absurd (ground arith)
  stop-shutdown (start i l) h = absurd (ground arith)
  stop-shutdown (stdin_write i o b) h = absurd (ground arith)
  stop-shutdown (stdin_eof i) h = absurd (ground arith)
  stop-shutdown (terminate i) h = absurd (ground arith)
  stop-shutdown shutdown h = ground (arith, consistent.outage)

shutdown_stops :
    {R : Type 0} (ops : RuntimeOps R) (answers : Answers) (command_id : ℕ) (a : Agent R)
    → (dispatch ops answers command_id shutdown a).0 ≢ ok true
unfolding dispatch
shutdown_stops ops answers command_id a h = absurd (ground (arith, h))

-- The state in which a command is dispatched.
abbrev received : {R : Type 0} → CommandFrame → Agent R → Agent R
received frame a = record a { last_command_id = frame.command_id }

received-IsConsistent :
    {R : Type 0} (frame : CommandFrame) (a : Agent R)
    → IsConsistent a
    → IsConsistent (received frame a)
received-IsConsistent frame a v = ground (arith, v)

-- The agent behind the dispatch of a command, and what the loop makes of the answer.
abbrev dispatched_by : {R : Type 0} → RuntimeOps R → CommandFrame → Answers → Agent R → Agent R
dispatched_by ops frame answers a =
    (dispatch ops answers frame.command_id frame.command (received frame a)).1

abbrev rest_of :
    {R : Type 0}
    → RuntimeOps R
    → CommandFrame
    → Answers
    → Agent R
    → Bool
    → List (CommandFrame × Answers)
    → Result (Unit {0}) × Agent R
rest_of ops frame answers a more rest =
    if more
    then command_loop ops rest (dispatched_by ops frame answers a)
    else (ok tt, dispatched_by ops frame answers a)

-- A round of a loop that succeeds dispatches its command, and goes on as the command says.
record Round {R : Type 0} (ops : RuntimeOps R) (frame : CommandFrame) (answers : Answers)
    (a : Agent R) : Type 0 where
  more : Bool
  dispatched : (dispatch ops answers frame.command_id frame.command (received frame a)).0 ≡ ok more
  continues :
      (frames : List (CommandFrame × Answers))
      → command_loop ops ((frame, answers) ∷ frames) a ≡ rest_of ops frame answers a more frames

loop-Round :
    {R : Type 0} (ops : RuntimeOps R) (frame : CommandFrame) (answers : Answers)
    (frames : List (CommandFrame × Answers)) (a : Agent R) (version : Result (Unit {0}))
    (dispatched : Result Bool)
    → require_version frame.protocol_version ≡ version
    → (dispatch ops answers frame.command_id frame.command (received frame a)).0 ≡ dispatched
    → (command_loop ops ((frame, answers) ∷ frames) a).0 ≡ ok tt
    → Round ops frame answers a
unfolding command_loop
loop-Round ops frame answers frames a (err error) dispatched e e' h = absurd (ground (arith, e, h))
loop-Round ops frame answers frames a (ok _) (err error) e e' h = absurd (ground (arith, e, e', h))
loop-Round ops frame answers frames a (ok _) (ok true) e e' h = record {
  more = true;
  dispatched = e';
  continues = λ rest. ground (arith, e, e');
}
loop-Round ops frame answers frames a (ok _) (ok false) e e' h = record {
  more = false;
  dispatched = e';
  continues = λ rest. ground (arith, e, e');
}

abbrev pub Frames : Type 0
Frames = List (CommandFrame × Answers)

-- No command of a session is a shutdown.
abbrev pub NeverStops : Frames → Type 0
NeverStops = All (λ frame. frame.0.command ≢ shutdown)

-- A session stopped at its first shutdown: no outage was active then, and what follows is not read.
pub record StopsAtShutdown {R : Type 0} (ops : RuntimeOps R) (frames : Frames) (a : Agent R)
    : Type 0 where
  pub front : Frames
  pub last : CommandFrame × Answers
  pub back : Frames
  pub split : frames ≡ front ++ last ∷ back
  pub is_shutdown : last.0.command ≡ shutdown
  pub none_before : NeverStops front
  pub succeeded : (command_loop ops front a).0 ≡ ok tt
  pub no_outage : outage_now false (command_loop ops front a).1.sent ≡ false
  pub rest_unread : command_loop ops frames a ≡ command_loop ops (front ++ last ∷ []) a

-- A round that goes on is no shutdown, and stops where the rest stops.
round_before :
    {R : Type 0} (ops : RuntimeOps R) (frame : CommandFrame) (answers : Answers) (frames : Frames)
    (a : Agent R)
    → (dispatch ops answers frame.command_id frame.command (received frame a)).0 ≡ ok true
    → ((rest : Frames)
        → command_loop ops ((frame, answers) ∷ rest) a
          ≡ command_loop ops rest (dispatched_by ops frame answers a))
    → NeverStops frames ⊎ StopsAtShutdown ops frames (dispatched_by ops frame answers a)
    → NeverStops ((frame, answers) ∷ frames) ⊎ StopsAtShutdown ops ((frame, answers) ∷ frames) a
round_before ops frame answers frames a went_on continues behind =
    let goes_on : frame.command ≢ shutdown = λ e.
      shutdown_stops ops answers frame.command_id (received frame a) (
        subst (λ c. (dispatch ops answers frame.command_id c (received frame a)).0 ≡ ok true) e
          went_on) in
    elim behind [
      | inl never ↦ inl (goes_on, never)
      | inr s ↦ inr (record {
        front = (frame, answers) ∷ s.front;
        last = s.last;
        back = s.back;
        split = ap (◌∷◌ (frame, answers)) s.split;
        is_shutdown = s.is_shutdown;
        none_before = (goes_on, s.none_before);
        succeeded = ap (λ r. r.0) (continues s.front) ∙ s.succeeded;
        no_outage = ap (λ r. outage_now false r.1.sent) (continues s.front) ∙ s.no_outage;
        rest_unread = continues frames ∙ s.rest_unread ∙ sym (continues (s.front ++ s.last ∷ []));
      })
    ]

-- A round that does not go on is a shutdown.
round_last :
    {R : Type 0} (ops : RuntimeOps R) (frame : CommandFrame) (answers : Answers) (frames : Frames)
    (a : Agent R)
    → IsConsistent a
    → (dispatch ops answers frame.command_id frame.command (received frame a)).0 ≡ ok false
    → ((rest : Frames)
        → command_loop ops ((frame, answers) ∷ rest) a ≡ (ok tt, dispatched_by ops frame answers a))
    → StopsAtShutdown ops ((frame, answers) ∷ frames) a
unfolding command_loop
round_last ops frame answers frames a v stopped continues =
    let (is_shutdown, free) =
      stop-shutdown ops answers frame.command_id (received frame a)
        (received-IsConsistent frame a v) frame.command stopped in
    record {
      front = [];
      last = (frame, answers);
      back = frames;
      split = refl;
      is_shutdown = is_shutdown;
      none_before = tt;
      succeeded = refl;
      no_outage = free;
      rest_unread = continues frames ∙ sym (continues []);
    }

-- A session of commands that succeeds, from a consistent agent, either holds no shutdown, or stopped
-- at its first shutdown: the commands before that one succeeded, the events that they sent left no
-- outage active, and the commands behind it are not dispatched.
pub command_loop-StopsAtShutdown :
    {R : Type 0} (ops : RuntimeOps R)
    → ReportsProcesses ops
    → (frames : Frames) (a : Agent R) → IsConsistent a
    → (command_loop ops frames a).0 ≡ ok tt
    → NeverStops frames ⊎ StopsAtShutdown ops frames a
command_loop-StopsAtShutdown ops reports [] a v h = inl tt
command_loop-StopsAtShutdown ops reports ((frame, answers) ∷ frames) a v h =
    let round = loop-Round ops frame answers frames a _ _ refl refl h in
    elim (Bool-cases round.more) [
      | inr e ↦ inr (
          round_last ops frame answers frames a v (round.dispatched ∙ ap ok e)
            (λ rest. round.continues rest ∙ ap (λ more. rest_of ops frame answers a more rest) e))
      | inl e ↦
          let went_on = round.dispatched ∙ ap ok e in
          let on = λ (rest : Frames).
            round.continues rest ∙ ap (λ more. rest_of ops frame answers a more rest) e in
          let v' =
            dispatch-IsConsistent ops reports answers frame.command_id frame.command
              (received frame a) true (received-IsConsistent frame a v) went_on in
          round_before ops frame answers frames a went_on on (
            command_loop-StopsAtShutdown ops reports frames (dispatched_by ops frame answers a) v'
              (sym (ap (λ r. r.0) (on frames)) ∙ h))
    ]
