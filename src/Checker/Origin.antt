-- ===== src/Checker/Origin.antt =====
-- Where the records of a trace of crates/simferret/src/checker.rs come from.
use simferret.Prelude.{
  ℕ, ◌≡◌, refl, Bool, true, false, List, [], ◌∷◌, ◌++◌, Option, none, some, Text, Result, ok, err,
  if◌then◌else◌, In, All, All-append,
}
use simferret.Protocol.Process.{OutputStream}
use simferret.Protocol.Violation.{Violation, started_twice}
use simferret.Protocol.Event.{
  Event, network_configured, outage_activated, network_restored, workload_started, input_accepted,
  termination_requested, workload_output, workload_exited, launch_failed, cleanup_complete,
  EventFrame,
}
use simferret.Protocol.Hex.{decode_bytes, max_output_frame_bytes}
use simferret.Checker.Trace.{
  StartRecord, ExitRecord, TerminationRecord, CleanupRecord, ConfiguredRecord, WorkloadTrace,
  empty_trace, violate, violate_or, started, exit_of, push_event, push, push_all, clean, configure,
  activate, restore, output,
}

-- A frame of the run carries an event at an event id.
pub record Recorded (frames : List EventFrame) (event_id : ℕ) (event : Event) : Type 0 where
  pub frame : EventFrame
  pub in_frames : In frame frames
  pub same_id : frame.event_id ≡ event_id
  pub same_event : frame.event ≡ event

abbrev pub RecordedStart : List EventFrame → StartRecord → Type 0
RecordedStart frames s = Recorded frames s.event_id (workload_started s.invocation s.launch)

abbrev pub RecordedExit : List EventFrame → ExitRecord → Type 0
RecordedExit frames e = Recorded frames e.event_id (
    workload_exited e.invocation e.exit e.stdout_bytes e.stdout_sha256 e.stderr_bytes
      e.stderr_sha256 e.frames)

abbrev pub RecordedTermination : List EventFrame → TerminationRecord → Type 0
RecordedTermination frames r =
    Recorded frames r.event_id (termination_requested r.invocation r.signal)

abbrev pub RecordedCleanup : List EventFrame → CleanupRecord → Type 0
RecordedCleanup frames c = Recorded frames c.event_id (cleanup_complete c.invocation c.reaped)

pub record IsFromFrames (frames : List EventFrame) (t : WorkloadTrace) : Type 0 where
  pub from_start : All (RecordedStart frames) t.starts
  pub from_exit : All (RecordedExit frames) t.exits
  pub from_termination : All (RecordedTermination frames) t.terminations
  pub from_cleanup : All (RecordedCleanup frames) t.cleanups

module _ (frames : List EventFrame) where
  violate-IsFromFrames :
      (t : WorkloadTrace) (v : Violation)
      → IsFromFrames frames t
      → IsFromFrames frames (violate t v)
  violate-IsFromFrames t v h = record {
    from_start = h.from_start;
    from_exit = h.from_exit;
    from_termination = h.from_termination;
    from_cleanup = h.from_cleanup;
  }

  -- Either branch of a test.
  if-IsFromFrames :
      (b : Bool) (t u : WorkloadTrace)
      → IsFromFrames frames t
      → IsFromFrames frames u
      → IsFromFrames frames (if b then t else u)
  if-IsFromFrames true t u h k = h
  if-IsFromFrames false t u h k = k

  -- A refusal changes nothing but the violations.
  refuse-IsFromFrames :
      (b : Bool) (t u : WorkloadTrace) (v : Violation)
      → IsFromFrames frames t
      → IsFromFrames frames u
      → IsFromFrames frames (violate_or t b v u)
  unfolding violate_or
  refuse-IsFromFrames b t u v h k = if-IsFromFrames b _ u (violate-IsFromFrames t v h) k

  start-IsFromFrames :
      (t : WorkloadTrace) (s : StartRecord)
      → IsFromFrames frames t
      → RecordedStart frames s
      → IsFromFrames frames (record t { starts = t.starts ++ s ∷ [] })
  start-IsFromFrames t s h r = record {
    from_start = All-append (RecordedStart frames) t.starts (s ∷ []) h.from_start (r, tt);
    from_exit = h.from_exit;
    from_termination = h.from_termination;
    from_cleanup = h.from_cleanup;
  }

  clean-IsFromFrames :
      (t : WorkloadTrace) (event_id invocation reaped : ℕ) (exit : Option ExitRecord)
      → IsFromFrames frames t
      → Recorded frames event_id (cleanup_complete invocation reaped)
      → IsFromFrames frames (clean t event_id invocation reaped exit)
  clean-IsFromFrames t event_id invocation reaped none h r = violate-IsFromFrames t _ h
  clean-IsFromFrames t event_id invocation reaped (some exit) h r = refuse-IsFromFrames _ t _ _ h (
      refuse-IsFromFrames _ t _ _ h (record {
        from_start = h.from_start;
        from_exit = h.from_exit;
        from_termination = h.from_termination;
        from_cleanup =
            All-append (RecordedCleanup frames) t.cleanups (_ ∷ []) h.from_cleanup (r, tt);
      }))

  configure-IsFromFrames :
      (t : WorkloadTrace) (event_id : ℕ) (interface guest_cidr gateway : Text)
      (configured : Option ConfiguredRecord)
      → IsFromFrames frames t
      → IsFromFrames frames (configure t event_id interface guest_cidr gateway configured)
  configure-IsFromFrames t event_id interface guest_cidr gateway (some c) h =
      violate-IsFromFrames t _ h
  configure-IsFromFrames t event_id interface guest_cidr gateway none h =
      refuse-IsFromFrames _ t _ _ h (record {
        from_start = h.from_start;
        from_exit = h.from_exit;
        from_termination = h.from_termination;
        from_cleanup = h.from_cleanup;
      })

  activate-IsFromFrames :
      (t : WorkloadTrace) (event_id : ℕ) (peer_cidr rule : Text) (previous : Option (Text × ℕ))
      → IsFromFrames frames t
      → IsFromFrames frames (activate t event_id peer_cidr rule previous)
  activate-IsFromFrames t event_id peer_cidr rule (some p) h = violate-IsFromFrames t _ h
  activate-IsFromFrames t event_id peer_cidr rule none h = refuse-IsFromFrames _ t _ _ h (record {
    from_start = h.from_start;
    from_exit = h.from_exit;
    from_termination = h.from_termination;
    from_cleanup = h.from_cleanup;
  })

  restore-IsFromFrames :
      (t : WorkloadTrace) (event_id : ℕ) (peer_cidr : Text) (previous : Option (Text × ℕ))
      → IsFromFrames frames t
      → IsFromFrames frames (restore t event_id peer_cidr previous)
  restore-IsFromFrames t event_id peer_cidr (some p) h = violate-IsFromFrames t _ h
  restore-IsFromFrames t event_id peer_cidr none h = record {
    from_start = h.from_start;
    from_exit = h.from_exit;
    from_termination = h.from_termination;
    from_cleanup = h.from_cleanup;
  }

  output-IsFromFrames :
      (t : WorkloadTrace) (event_id invocation : ℕ) (stream : OutputStream) (offset sequence : ℕ)
      (bytes : Result (List ℕ))
      → IsFromFrames frames t
      → IsFromFrames frames (output t event_id invocation stream offset sequence bytes)
  output-IsFromFrames t event_id invocation stream offset sequence (err e) h =
      violate-IsFromFrames t _ h
  output-IsFromFrames t event_id invocation stream offset sequence (ok bytes) h = record {
    from_start = h.from_start;
    from_exit = h.from_exit;
    from_termination = h.from_termination;
    from_cleanup = h.from_cleanup;
  }

  push_event-IsFromFrames :
      (t : WorkloadTrace) (event_id command_id : ℕ) (event : Event)
      → IsFromFrames frames t
      → Recorded frames event_id event
      → IsFromFrames frames (push_event t event_id command_id event)
  unfolding push_event
  push_event-IsFromFrames t event_id command_id (workload_started invocation launch) h r =
      start-IsFromFrames
        (if started t invocation then violate t (started_twice invocation event_id) else t)
        (record { invocation = invocation; launch = launch; event_id = event_id })
        (if-IsFromFrames (started t invocation) _ t (violate-IsFromFrames t _ h) h) r
  push_event-IsFromFrames t event_id command_id (workload_exited invocation exit n sha m sha' fs) h
        r =
      refuse-IsFromFrames _ t _ _ h (
        refuse-IsFromFrames _ t _ _ h (record {
          from_start = h.from_start;
          from_exit = All-append (RecordedExit frames) t.exits (_ ∷ []) h.from_exit (r, tt);
          from_termination = h.from_termination;
          from_cleanup = h.from_cleanup;
        }))
  push_event-IsFromFrames t event_id command_id (termination_requested invocation signal) h r =
      refuse-IsFromFrames _ t _ _ h (
        refuse-IsFromFrames _ t _ _ h (
          refuse-IsFromFrames _ t _ _ h (record {
            from_start = h.from_start;
            from_exit = h.from_exit;
            from_termination =
                All-append (RecordedTermination frames) t.terminations (_ ∷ []) h.from_termination
                  (r, tt);
            from_cleanup = h.from_cleanup;
          })))
  push_event-IsFromFrames t event_id command_id (cleanup_complete invocation reaped) h r =
      refuse-IsFromFrames _ t _ _ h (
        refuse-IsFromFrames _ t _ _ h
          (clean-IsFromFrames t event_id invocation reaped (exit_of t invocation) h r))
  push_event-IsFromFrames t event_id command_id (launch_failed invocation failure detail) h r =
      refuse-IsFromFrames _ t _ _ h (
        refuse-IsFromFrames _ t _ _ h (record {
          from_start = h.from_start;
          from_exit = h.from_exit;
          from_termination = h.from_termination;
          from_cleanup = h.from_cleanup;
        }))
  push_event-IsFromFrames t event_id command_id (network_configured interface cidr gateway) h r =
      configure-IsFromFrames t event_id interface cidr gateway t.configured h
  push_event-IsFromFrames t event_id command_id (outage_activated peer_cidr rule) h r =
      activate-IsFromFrames t event_id peer_cidr rule _ h
  push_event-IsFromFrames t event_id command_id (network_restored peer_cidr) h r =
      restore-IsFromFrames t event_id peer_cidr _ h
  push_event-IsFromFrames t event_id command_id
        (workload_output invocation stream offset sequence bytes) h r =
      refuse-IsFromFrames _ t _ _ h (
        refuse-IsFromFrames _ t _ _ h (
          output-IsFromFrames t event_id invocation stream offset sequence
            (decode_bytes bytes max_output_frame_bytes) h))
  push_event-IsFromFrames t event_id command_id (input_accepted invocation offset bytes eof) h r =
      refuse-IsFromFrames _ t _ _ h (
        refuse-IsFromFrames _ t _ _ h (
          refuse-IsFromFrames _ t _ _ h (record {
            from_start = h.from_start;
            from_exit = h.from_exit;
            from_termination = h.from_termination;
            from_cleanup = h.from_cleanup;
          })))
  push_event-IsFromFrames t event_id command_id _ h r = h

  push_all-IsFromFrames :
      (t : WorkloadTrace) (rest : List EventFrame)
      → IsFromFrames frames t
      → ((frame : EventFrame) → In frame rest → In frame frames)
      → IsFromFrames frames (push_all t rest)
  unfolding push_all push
  push_all-IsFromFrames t [] h within = h
  push_all-IsFromFrames t (frame ∷ rest) h within =
      let recorded : Recorded frames frame.event_id frame.event = record {
        frame = frame;
        in_frames = within frame (In.here refl);
        same_id = refl;
        same_event = refl;
      } in
      push_all-IsFromFrames (push t frame) rest
        (push_event-IsFromFrames t frame.event_id frame.command_id frame.event h recorded)
        (λ x m. within x (In.there m))

-- Every start, exit, termination and cleanup of a run's trace is that of one of the run's frames,
-- with the event id and all the values that the frame carries.
pub trace-IsFromFrames :
    (frames : List EventFrame) → IsFromFrames frames (push_all empty_trace frames)
trace-IsFromFrames frames =
    push_all-IsFromFrames frames empty_trace frames
      (record { from_start = tt; from_exit = tt; from_termination = tt; from_cleanup = tt })
      (λ frame m. m)
