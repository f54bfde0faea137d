-- ===== src/Checker/Reading.antt =====
-- The channels of a trace of crates/simferret/src/checker.rs through a whole run.
use simferret.Prelude.{
  ℕ, ◌≡◌, refl, Bool, true, false, List, [], ◌∷◌, Option, none, some, Text, Bytes, All, Result, ok,
  err, if◌then◌else◌, ltb, ◌==◌, Bool-cases, inl, inr, arith, subst,
}
use simferret.Protocol.Process.{OutputStream, stdout, stderr}
use simferret.Protocol.Violation.{Violation}
use simferret.Protocol.Event.{
  Event, network_configured, outage_activated, network_restored, workload_started, input_accepted,
  termination_requested, workload_output, workload_exited, launch_failed, cleanup_complete,
  EventFrame,
}
use simferret.Protocol.Hex.{decode_bytes, max_output_frame_bytes}
use simferret.Checker.Streams
use simferret.Checker.Streams.{InvocationStreams, no_streams, push_input, work_of, push_work}
use simferret.Checker.Trace.{
  ExitRecord, ConfiguredRecord, StreamMap, WorkloadTrace, empty_trace, streams_of, update_entry,
  violate, violate_or, started, exit_of, push_event, push, push_all, clean, configure, activate,
  restore, output,
}
use simferret.Checker.Lines.{IsRead, push_work-IsRead}

pub record IsReadStreams (s : InvocationStreams) : Type 0 where
  pub read_out : IsRead s.out
  pub read_error : IsRead s.error

no_streams-IsReadStreams : IsReadStreams no_streams
no_streams-IsReadStreams = record {
  read_out = record { read_lines = refl; read_pending = refl };
  read_error = record { read_lines = refl; read_pending = refl };
}

push-IsReadStreams :
    (event_id invocation : ℕ) (stream : OutputStream) (offset sequence : ℕ) (bytes : Bytes)
    (s : InvocationStreams)
    → IsReadStreams s
    → IsReadStreams (Streams.push event_id invocation stream offset sequence bytes s)
unfolding Streams.push
push-IsReadStreams event_id invocation stdout offset sequence bytes s h = record {
  read_out =
      push_work-IsRead invocation stdout event_id offset bytes
        (work_of stdout invocation event_id sequence s) h.read_out;
  read_error = h.read_error;
}
push-IsReadStreams event_id invocation stderr offset sequence bytes s h = record {
  read_out = h.read_out;
  read_error =
      push_work-IsRead invocation stderr event_id offset bytes
        (work_of stderr invocation event_id sequence s) h.read_error;
}

push_input-IsReadStreams :
    (invocation event_id command_id offset bytes : ℕ) (eof : Bool) (s : InvocationStreams)
    → IsReadStreams s
    → IsReadStreams (push_input invocation event_id command_id offset bytes eof s)
unfolding push_input
push_input-IsReadStreams invocation event_id command_id offset bytes eof s h = record {
  read_out = h.read_out;
  read_error = h.read_error;
}

abbrev pub AreRead : StreamMap → Type 0
AreRead = All (λ e. IsReadStreams e.1)

update_entry-AreRead :
    (key : ℕ) (f : InvocationStreams → InvocationStreams) (m : StreamMap)
    → ((s : InvocationStreams) → IsReadStreams s → IsReadStreams (f s))
    → AreRead m
    → AreRead (update_entry key f m)
unfolding update_entry
update_entry-AreRead key f [] step h = (step no_streams no_streams-IsReadStreams, tt)
update_entry-AreRead key f ((k, s) ∷ m) step h = elim (Bool-cases (k == key)) [
  | inl e ↦ rw e (step s h.0, h.1)
  | inr e ↦ elim (Bool-cases (ltb key k)) [
    | inl e' ↦ rw (e, e') (step no_streams no_streams-IsReadStreams, h)
    | inr e' ↦ rw (e, e') (h.0, update_entry-AreRead key f m step h.1)
  ]
]

-- A refusal leaves the streams.
violate_or-AreRead :
    (t : WorkloadTrace) (test : Bool) (v : Violation) (u : WorkloadTrace)
    → AreRead t.invocations
    → AreRead u.invocations
    → AreRead (violate_or t test v u).invocations
unfolding violate_or
violate_or-AreRead t true v u h k = h
violate_or-AreRead t false v u h k = k

start-AreRead :
    (test : Bool) (t : WorkloadTrace) (v : Violation)
    → AreRead t.invocations
    → AreRead (if test then violate t v else t).invocations
start-AreRead true t v h = h
start-AreRead false t v h = h

clean-AreRead :
    (t : WorkloadTrace) (event_id invocation reaped : ℕ) (exit : Option ExitRecord)
    → AreRead t.invocations
    → AreRead (clean t event_id invocation reaped exit).invocations
clean-AreRead t event_id invocation reaped none h = h
clean-AreRead t event_id invocation reaped (some exit) h =
    violate_or-AreRead t _ _ _ h (violate_or-AreRead t _ _ _ h h)

configure-AreRead :
    (t : WorkloadTrace) (event_id : ℕ) (interface guest_cidr gateway : Text)
    (configured : Option ConfiguredRecord)
    → AreRead t.invocations
    → AreRead (configure t event_id interface guest_cidr gateway configured).invocations
configure-AreRead t event_id interface guest_cidr gateway (some c) h = h
configure-AreRead t event_id interface guest_cidr gateway none h = violate_or-AreRead t _ _ _ h h

activate-AreRead :
    (t : WorkloadTrace) (event_id : ℕ) (peer_cidr rule : Text) (previous : Option (Text × ℕ))
    → AreRead t.invocations
    → AreRead (activate t event_id peer_cidr rule previous).invocations
activate-AreRead t event_id peer_cidr rule (some p) h = h
activate-AreRead t event_id peer_cidr rule none h = violate_or-AreRead t _ _ _ h h

restore-AreRead :
    (t : WorkloadTrace) (event_id : ℕ) (peer_cidr : Text) (previous : Option (Text × ℕ))
    → AreRead t.invocations
    → AreRead (restore t event_id peer_cidr previous).invocations
restore-AreRead t event_id peer_cidr (some p) h = h
restore-AreRead t event_id peer_cidr none h = h

output-AreRead :
    (t : WorkloadTrace) (event_id invocation : ℕ) (stream : OutputStream) (offset sequence : ℕ)
    (bytes : Result (List ℕ))
    → AreRead t.invocations
    → AreRead (output t event_id invocation stream offset sequence bytes).invocations
output-AreRead t event_id invocation stream offset sequence (err e) h = h
output-AreRead t event_id invocation stream offset sequence (ok bytes) h =
    update_entry-AreRead invocation _ t.invocations
      (push-IsReadStreams event_id invocation stream offset sequence bytes) h

push_event-AreRead :
    (t : WorkloadTrace) (event_id command_id : ℕ) (event : Event)
    → AreRead t.invocations
    → AreRead (push_event t event_id command_id event).invocations
unfolding push_event
push_event-AreRead t event_id command_id (workload_started invocation launch) h =
    start-AreRead (started t invocation) t _ h
push_event-AreRead t event_id command_id (workload_exited i exit n sha m sha' fs) h =
    violate_or-AreRead t _ _ _ h (violate_or-AreRead t _ _ _ h h)
push_event-AreRead t event_id command_id (termination_requested invocation signal) h =
    violate_or-AreRead t _ _ _ h (violate_or-AreRead t _ _ _ h (violate_or-AreRead t _ _ _ h h))
push_event-AreRead t event_id command_id (cleanup_complete invocation reaped) h =
    violate_or-AreRead t _ _ _ h (
      violate_or-AreRead t _ _ _ h
        (clean-AreRead t event_id invocation reaped (exit_of t invocation) h))
push_event-AreRead t event_id command_id (launch_failed invocation failure detail) h =
    violate_or-AreRead t _ _ _ h (violate_or-AreRead t _ _ _ h h)
push_event-AreRead t event_id command_id (network_configured interface cidr gateway) h =
    configure-AreRead t event_id interface cidr gateway t.configured h
push_event-AreRead t event_id command_id (outage_activated peer_cidr rule) h =
    activate-AreRead t event_id peer_cidr rule _ h
push_event-AreRead t event_id command_id (network_restored peer_cidr) h =
    restore-AreRead t event_id peer_cidr _ h
push_event-AreRead t event_id command_id (workload_output invocation stream offset sequence bytes)
      h =
    violate_or-AreRead t _ _ _ h (
      violate_or-AreRead t _ _ _ h (
        output-AreRead t event_id invocation stream offset sequence
          (decode_bytes bytes max_output_frame_bytes) h))
push_event-AreRead t event_id command_id (input_accepted invocation offset bytes eof) h =
    violate_or-AreRead t _ _ _ h (
      violate_or-AreRead t _ _ _ h (
        violate_or-AreRead t _ _ _ h (
          update_entry-AreRead invocation _ t.invocations
            (push_input-IsReadStreams invocation event_id command_id offset bytes eof) h)))
push_event-AreRead t event_id command_id _ h = h

push_all-AreRead :
    (t : WorkloadTrace) (frames : List EventFrame)
    → AreRead t.invocations
    → AreRead (push_all t frames).invocations
unfolding push_all push
push_all-AreRead t [] h = h
push_all-AreRead t (frame ∷ frames) h =
    push_all-AreRead (push t frame) frames
      (push_event-AreRead t frame.event_id frame.command_id frame.event h)

streams_of-IsReadStreams :
    (key : ℕ) (m : StreamMap) (s : InvocationStreams)
    → AreRead m
    → streams_of key m ≡ some s
    → IsReadStreams s
unfolding streams_of
streams_of-IsReadStreams key [] s h e = absurd (cc)
streams_of-IsReadStreams key ((k, s') ∷ m) s h e = elim (Bool-cases (k == key)) [
  | inl t ↦ subst IsReadStreams (ground arith) h.0
  | inr t ↦ streams_of-IsReadStreams key m s h.1 (ground arith)
]

-- In the trace of a run, the lines of an invocation's stdout and stderr are the decoded texts of the
-- lines that newlines end in all the bytes of that channel, and the pending bytes are what follows
-- the last newline, however the bytes were cut into frames.
pub trace-IsReadStreams :
    (frames : List EventFrame) (invocation : ℕ) (s : InvocationStreams)
    → streams_of invocation (push_all empty_trace frames).invocations ≡ some s
    → IsReadStreams s
trace-IsReadStreams frames invocation s e =
    streams_of-IsReadStreams invocation (push_all empty_trace frames).invocations s
      (push_all-AreRead empty_trace frames tt) e
