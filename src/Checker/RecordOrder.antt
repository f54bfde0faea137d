-- ===== src/Checker/RecordOrder.antt =====
-- `WorkloadTrace::push` of crates/simferret/src/checker.rs and the order among a trace's records.
use simferret.Prelude.{
  ℕ, ◌≡◌, refl, Bool, true, false, not, List, [], ◌∷◌, ◌++◌, Option, none, some, Text, arith, ◌==◌,
  if◌then◌else◌, find-some, All-append, Result, ok, err,
}
use simferret.Protocol.Process.{OutputStream}
use simferret.Protocol.Violation.{Violation, started_twice}
use simferret.Protocol.Event.{
  Event, network_configured, outage_activated, network_restored, workload_started, input_accepted,
  termination_requested, workload_output, workload_exited, launch_failed, cleanup_complete,
  EventFrame,
}
use simferret.Protocol.Hex.{decode_bytes, max_output_frame_bytes}
use simferret.Checker.Trace.{
  StartRecord, ExitRecord, TerminationRecord, ConfiguredRecord, WorkloadTrace, empty_trace, violate,
  started, terminated, cleaned, exit_of, push_event, push, push_all, clean, configure, activate,
  restore, output,
}
use simferret.Checker.Orderly.{
  Once-snoc, termination_key, cleanup_key, HasExited, IsOrderly, same_records, violate_or-IsOrderly,
  started-IsOrderly, exited-IsOrderly,
}

not-false : (b : Bool) → not b ≡ false → b ≡ true
not-false true h = refl
not-false false h = absurd (cc)

restarted-IsOrderly :
    (test : Bool) (t : WorkloadTrace) (v : Violation) (s : StartRecord)
    → IsOrderly t
    → IsOrderly
        (let t' = if test then violate t v else t in record t' { starts = t'.starts ++ s ∷ [] })
restarted-IsOrderly true t v s h =
    started-IsOrderly (violate t v) s (same_records t (violate t v) refl refl refl refl h)
restarted-IsOrderly false t v s h = started-IsOrderly t s h

terminated-IsOrderly :
    (t : WorkloadTrace) (r : TerminationRecord)
    → IsOrderly t
    → terminated t r.invocation ≡ false
    → IsOrderly (record t { terminations = t.terminations ++ r ∷ [] })
unfolding terminated
terminated-IsOrderly t r h fresh = record {
  exits_started = h.exits_started;
  cleanups_exited = h.cleanups_exited;
  exits_once = h.exits_once;
  terminations_once = Once-snoc termination_key t.terminations r fresh h.terminations_once;
  cleanups_once = h.cleanups_once;
}

clean-IsOrderly :
    (t : WorkloadTrace) (event_id invocation reaped : ℕ) (exit : Option ExitRecord)
    → IsOrderly t
    → exit_of t invocation ≡ exit
    → cleaned t invocation ≡ false
    → IsOrderly (clean t event_id invocation reaped exit)
unfolding exit_of cleaned
clean-IsOrderly t event_id invocation reaped none h found fresh =
    same_records t _ refl refl refl refl h
clean-IsOrderly t event_id invocation reaped (some exit) h found fresh =
    let (member, named) = find-some (λ e. e.invocation == invocation) t.exits exit found in
    violate_or-IsOrderly t _ _ _ h λ in_time. violate_or-IsOrderly t _ _ _ h λ _. record {
      exits_started = h.exits_started;
      cleanups_exited = All-append (HasExited t.exits) t.cleanups (_ ∷ []) h.cleanups_exited (
        record {
          exit = exit;
          in_exits = member;
          same_invocation = ground arith;
          no_later = ground arith;
        },
        tt,
      );
      exits_once = h.exits_once;
      terminations_once = h.terminations_once;
      cleanups_once = Once-snoc cleanup_key t.cleanups _ fresh h.cleanups_once;
    }

configure-IsOrderly :
    (t : WorkloadTrace) (event_id : ℕ) (interface guest_cidr gateway : Text)
    (configured : Option ConfiguredRecord)
    → IsOrderly t
    → IsOrderly (configure t event_id interface guest_cidr gateway configured)
configure-IsOrderly t event_id interface guest_cidr gateway (some c) h =
    same_records t _ refl refl refl refl h
configure-IsOrderly t event_id interface guest_cidr gateway none h =
    violate_or-IsOrderly t _ _ _ h λ _. same_records t _ refl refl refl refl h

activate-IsOrderly :
    (t : WorkloadTrace) (event_id : ℕ) (peer_cidr rule : Text) (previous : Option (Text × ℕ))
    → IsOrderly t
    → IsOrderly (activate t event_id peer_cidr rule previous)
activate-IsOrderly t event_id peer_cidr rule (some p) h = same_records t _ refl refl refl refl h
activate-IsOrderly t event_id peer_cidr rule none h =
    violate_or-IsOrderly t _ _ _ h λ _. same_records t _ refl refl refl refl h

restore-IsOrderly :
    (t : WorkloadTrace) (event_id : ℕ) (peer_cidr : Text) (previous : Option (Text × ℕ))
    → IsOrderly t
    → IsOrderly (restore t event_id peer_cidr previous)
restore-IsOrderly t event_id peer_cidr (some p) h = same_records t _ refl refl refl refl h
restore-IsOrderly t event_id peer_cidr none h = same_records t _ refl refl refl refl h

output-IsOrderly :
    (t : WorkloadTrace) (event_id invocation : ℕ) (stream : OutputStream) (offset sequence : ℕ)
    (bytes : Result (List ℕ))
    → IsOrderly t
    → IsOrderly (output t event_id invocation stream offset sequence bytes)
output-IsOrderly t event_id invocation stream offset sequence (err e) h =
    same_records t _ refl refl refl refl h
output-IsOrderly t event_id invocation stream offset sequence (ok bytes) h =
    same_records t _ refl refl refl refl h

push_event-IsOrderly :
    (t : WorkloadTrace) (event_id command_id : ℕ) (event : Event)
    → IsOrderly t
    → IsOrderly (push_event t event_id command_id event)
unfolding push_event
push_event-IsOrderly t event_id command_id (workload_started invocation launch) h =
    restarted-IsOrderly (started t invocation) t (started_twice invocation event_id) _ h
push_event-IsOrderly t event_id command_id (workload_exited invocation exit n sha m sha' fs) h =
    violate_or-IsOrderly t _ _ _ h λ unstarted.
      violate_or-IsOrderly t _ _ _ h
        λ fresh. exited-IsOrderly t _ h (not-false (started t invocation) unstarted) fresh
push_event-IsOrderly t event_id command_id (termination_requested invocation signal) h =
    violate_or-IsOrderly t _ _ _ h λ _.
      violate_or-IsOrderly t _ _ _ h
        λ _. violate_or-IsOrderly t _ _ _ h λ fresh. terminated-IsOrderly t _ h fresh
push_event-IsOrderly t event_id command_id (cleanup_complete invocation reaped) h =
    violate_or-IsOrderly t _ _ _ h λ _.
      violate_or-IsOrderly t _ _ _ h
        λ fresh. clean-IsOrderly t event_id invocation reaped (exit_of t invocation) h refl fresh
push_event-IsOrderly t event_id command_id (launch_failed invocation failure detail) h =
    violate_or-IsOrderly t _ _ _ h
      λ _. violate_or-IsOrderly t _ _ _ h λ _. same_records t _ refl refl refl refl h
push_event-IsOrderly t event_id command_id (network_configured interface cidr gateway) h =
    configure-IsOrderly t event_id interface cidr gateway t.configured h
push_event-IsOrderly t event_id command_id (outage_activated peer_cidr rule) h =
    activate-IsOrderly t event_id peer_cidr rule _ h
push_event-IsOrderly t event_id command_id (network_restored peer_cidr) h =
    restore-IsOrderly t event_id peer_cidr _ h
push_event-IsOrderly t event_id command_id (workload_output invocation stream offset sequence bytes)
      h =
    violate_or-IsOrderly t _ _ _ h λ _. violate_or-IsOrderly t _ _ _ h λ _.
      output-IsOrderly t event_id invocation stream offset sequence
        (decode_bytes bytes max_output_frame_bytes) h
push_event-IsOrderly t event_id command_id (input_accepted invocation offset bytes eof) h =
    violate_or-IsOrderly t _ _ _ h λ _.
      violate_or-IsOrderly t _ _ _ h
        λ _. violate_or-IsOrderly t _ _ _ h λ _. same_records t _ refl refl refl refl h
push_event-IsOrderly t event_id command_id _ h = h

push_all-IsOrderly :
    (t : WorkloadTrace) (frames : List EventFrame) → IsOrderly t → IsOrderly (push_all t frames)
unfolding push_all push
push_all-IsOrderly t [] h = h
push_all-IsOrderly t (frame ∷ frames) h =
    push_all-IsOrderly (push t frame) frames
      (push_event-IsOrderly t frame.event_id frame.command_id frame.event h)

-- In the trace of any frames, an invocation has at most one exit, one termination and one cleanup;
-- an exit is of a started invocation, and a cleanup is of an exited one, not earlier than its exit.
pub trace-IsOrderly : (frames : List EventFrame) → IsOrderly (push_all empty_trace frames)
trace-IsOrderly frames = push_all-IsOrderly empty_trace frames (record {
  exits_started = tt;
  cleanups_exited = tt;
  exits_once = record { at_most = λ i. ground arith };
  terminations_once = record { at_most = λ i. ground arith };
  cleanups_once = record { at_most = λ i. ground arith };
})
