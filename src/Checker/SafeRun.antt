-- ===== src/Checker/SafeRun.antt =====
-- What a passing `process_safety` of crates/simferret/src/checker.rs means for the frames of the run
-- that its trace was built from.
use simferret.Prelude.{ℕ, ◌≤◌, ◌<◌, ◌≡◌, true, List, [], ◌∷◌, All, All-In, subst}
use simferret.Workload.Launch.{LaunchIdentity}
use simferret.Protocol.Process.{signaled, termination_signal}
use simferret.Protocol.Event.{
  workload_started, termination_requested, workload_exited, cleanup_complete, EventFrame,
}
use simferret.Scenario.Types.{WorkloadChoicePlan}
use simferret.Checker.Trace.{
  StartRecord, ExitRecord, TerminationRecord, CleanupRecord, empty_trace, push_all,
}
use simferret.Checker.ProcessSafety.{process_safety}
use simferret.Checker.Order.{process_safety-SafeHistory}
use simferret.Checker.Origin.{
  Recorded, RecordedStart, RecordedExit, RecordedTermination, RecordedCleanup, trace-IsFromFrames,
}

-- The events of a run whose first process is killed, cleaned up and replaced.
pub record SafeRun (frames : List EventFrame) (launch : LaunchIdentity) : Type 0 where
  pub start_id : ℕ
  pub termination_id : ℕ
  pub exit_id : ℕ
  pub cleanup_id : ℕ
  pub restart_id : ℕ
  pub reaped : ℕ
  pub first_started : Recorded frames start_id (workload_started 1 launch)
  pub first_terminated : Recorded frames termination_id (termination_requested 1 termination_signal)
  pub first_exit : ExitRecord
  pub first_exited : Recorded frames exit_id (
      workload_exited 1
        (signaled termination_signal)
        first_exit.stdout_bytes
        first_exit.stdout_sha256
        first_exit.stderr_bytes
        first_exit.stderr_sha256
        first_exit.frames)
  pub first_cleaned : Recorded frames cleanup_id (cleanup_complete 1 reaped)
  pub second_started : Recorded frames restart_id (workload_started 2 launch)
  pub exit_after_termination : termination_id < exit_id
  pub cleanup_after_exit : exit_id < cleanup_id
  pub restart_after_cleanup : cleanup_id < restart_id
  pub reaped_both : 2 ≤ reaped

module _ (frames : List EventFrame) where
  start_of :
      (s : StartRecord) (invocation : ℕ) (launch : LaunchIdentity)
      → s.invocation ≡ invocation
      → s.launch ≡ launch
      → RecordedStart frames s
      → Recorded frames s.event_id (workload_started invocation launch)
  start_of s invocation launch p q r = rw (← p) (rw (← q) r)

  termination_of :
      (x : TerminationRecord)
      → x.invocation ≡ 1
      → x.signal ≡ termination_signal
      → RecordedTermination frames x
      → Recorded frames x.event_id (termination_requested 1 termination_signal)
  termination_of x p q r = rw (← p) (rw (← q) r)

  exit_as :
      (x : ExitRecord)
      → x.invocation ≡ 1
      → x.exit ≡ signaled termination_signal
      → RecordedExit frames x
      → Recorded frames x.event_id (
          workload_exited 1
            (signaled termination_signal)
            x.stdout_bytes
            x.stdout_sha256
            x.stderr_bytes
            x.stderr_sha256
            x.frames)
  exit_as x p q r = rw (← p) (rw (← q) r)

  cleanup_of :
      (x : CleanupRecord)
      → x.invocation ≡ 1
      → RecordedCleanup frames x
      → Recorded frames x.event_id (cleanup_complete 1 x.reaped)
  cleanup_of x p r = rw (← p) r

-- Where `process_safety` passes on the trace of a run's frames, the run has a frame in which the
-- launch starts as invocation 1 and, by rising event ids, frames in which SIGKILL is requested for
-- it, it exits by SIGKILL, its cleanup reaps at least two processes, and the same launch starts as
-- invocation 2.
pub process_safety-SafeRun :
    (frames : List EventFrame) (choices : WorkloadChoicePlan) (launch : LaunchIdentity)
    → (process_safety (push_all empty_trace frames) choices launch).passed ≡ true
    → SafeRun frames launch
process_safety-SafeRun frames choices launch passed =
    let t = push_all empty_trace frames in
    let h = process_safety-SafeHistory t choices launch passed in
    let o = trace-IsFromFrames frames in
    let k = h.first in
    let starts : All (RecordedStart frames) (h.start ∷ h.restart ∷ []) =
      subst (All (RecordedStart frames)) h.starts o.from_start in
    record {
      start_id = h.start.event_id;
      termination_id = k.terminated.event_id;
      exit_id = k.exit.event_id;
      cleanup_id = k.cleanup.event_id;
      restart_id = h.restart.event_id;
      reaped = k.cleanup.reaped;
      first_started = start_of frames h.start 1 launch h.start_invocation h.start_launch starts.0;
      first_terminated =
          termination_of frames k.terminated k.terminated_invocation k.sigkill (
            All-In (RecordedTermination frames) t.terminations o.from_termination
              k.in_terminations);
      first_exit = k.exit;
      first_exited =
          exit_as frames k.exit k.exit_invocation k.killed
            (All-In (RecordedExit frames) t.exits o.from_exit k.in_exits);
      first_cleaned =
          cleanup_of frames k.cleanup k.cleanup_invocation
            (All-In (RecordedCleanup frames) t.cleanups o.from_cleanup k.in_cleanups);
      second_started =
          start_of frames h.restart 2 launch h.restart_invocation h.restart_launch starts.1.0;
      exit_after_termination = k.aftermath.ordered.exit_after_termination;
      cleanup_after_exit = k.aftermath.ordered.cleanup_after_exit;
      restart_after_cleanup = k.aftermath.ordered.restart_after_cleanup;
      reaped_both = k.aftermath.ordered.reaped_both;
    }
