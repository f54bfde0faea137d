-- ===== src/Checker/ProcessSafety.antt =====
-- crates/simferret/src/checker.rs, `process_safety`: each early return is a step that either fails
-- or goes on with the rest of the checks.
use simferret.Prelude.{
  ℕ, Bool, false, ◌&&◌, ◌||◌, not, List, [], ◌∷◌, ◌++◌, Text, codes, same, ltb, leb, ◌==◌, length,
  find, any, first, count, same_text, starts_with,
}
use simferret.Workload.Launch.{LaunchIdentity, LaunchIdentity-discrete}
use simferret.Protocol.Process.{
  ℤ-discrete, pos, ProcessExit, exited, signaled, ProcessExit-discrete, termination_signal,
}
use simferret.Protocol.Violation.{
  structure_violation, launch_failure, start_count, identity_mismatch, termination_count,
  never_terminated, wrong_signal, no_first_exit, first_not_killed, no_first_cleanup,
  first_out_of_order, descendant_alive, restart_before_cleanup, no_escaped_descendant,
  late_escaped_descendant, no_second_exit, second_not_clean, no_second_cleanup, stale_root,
  fresh_counts, fault_before_requests, process_safe,
}
use simferret.Assertions.Report.{AssertionName, AssertionResult}
use simferret.Scenario.Types.{WorkloadChoicePlan}
use simferret.Checker.Streams.{CompletedLine}
use simferret.Checker.Trace.{
  StartRecord, ExitRecord, TerminationRecord, CleanupRecord, WorkloadTrace,
}
use simferret.Checker.Returns.{failed, passed, refuse, absent, require}
use simferret.Checker.Views.{all_violations, stdout_lines, any_stdout_line}

-- `FRESH_STATE_LINE`, `STATE_LINE_PREFIX`, `ESCAPED_DESCENDANT_LINE`
unfoldable pub fresh_state_line : Text
fresh_state_line = codes "state value=fresh root=fresh"

unfoldable pub state_line_prefix : Text
state_line_prefix = codes "state value="

unfoldable pub escaped_descendant_line : Text
escaped_descendant_line = codes "descendant state=escaped"

-- `trace.starts[0]` and `trace.starts[1]`, behind the test of the length.
unfoldable pub two_starts :
    List StartRecord → (StartRecord → StartRecord → AssertionResult) → AssertionResult
two_starts (s1 ∷ s2 ∷ []) rest = rest s1 s2
two_starts starts rest = failed AssertionName.process_safety (start_count (length starts))

abbrev pub is_stale : CompletedLine → Bool
is_stale line =
    starts_with line.text state_line_prefix && not (same_text line.text fresh_state_line)

abbrev pub is_fresh : CompletedLine → Bool
is_fresh line = same_text line.text fresh_state_line

-- The last checks: each root was fresh once and never stale, and the fault follows a request.
unfoldable pub roots_fresh : WorkloadTrace → ℕ → AssertionResult
roots_fresh t fault_index =
    let fresh_one = count is_fresh (stdout_lines t 1) in
    let fresh_two = count is_fresh (stdout_lines t 2) in
    absent AssertionName.process_safety (find is_stale (stdout_lines t 1 ++ stdout_lines t 2))
      (λ line. stale_root line.event_id)
      (refuse AssertionName.process_safety (not (fresh_one == 1) || not (fresh_two == 1))
        (fresh_counts fresh_one fresh_two)
        (refuse AssertionName.process_safety (fault_index == 0) fault_before_requests
          (passed AssertionName.process_safety (process_safe fault_index))))

abbrev pub same_exit : ProcessExit → ProcessExit → Bool
same_exit = same ProcessExit-discrete

abbrev pub exit_is : ℕ → ExitRecord → Bool
exit_is invocation exit = exit.invocation == invocation

abbrev pub cleanup_is : ℕ → CleanupRecord → Bool
cleanup_is invocation cleanup = cleanup.invocation == invocation

abbrev pub termination_is : ℕ → TerminationRecord → Bool
termination_is invocation termination = termination.invocation == invocation

-- The second invocation ends by itself with code 0 and is cleaned up.
unfoldable pub second_ends : WorkloadTrace → ℕ → AssertionResult
second_ends t fault_index =
    require AssertionName.process_safety (find (exit_is 2) t.exits) no_second_exit (λ second_exit.
      refuse AssertionName.process_safety (not (same_exit second_exit.exit (exited (pos 0))))
        (second_not_clean second_exit.exit)
        (refuse AssertionName.process_safety (not (any (cleanup_is 2) t.cleanups)) no_second_cleanup
          (roots_fresh t fault_index)))

-- The escaped descendant was reported before the termination.
unfoldable pub descendant_escaped : WorkloadTrace → ℕ → TerminationRecord → AssertionResult
descendant_escaped t fault_index terminated =
    require AssertionName.process_safety (any_stdout_line t escaped_descendant_line)
      no_escaped_descendant
      (λ escaped.
        refuse AssertionName.process_safety (ltb terminated.event_id escaped.event_id)
          late_escaped_descendant (second_ends t fault_index))

-- The barrier between the invocations.
unfoldable pub barrier :
    WorkloadTrace
    → ℕ
    → StartRecord
    → TerminationRecord
    → ExitRecord
    → CleanupRecord
    → AssertionResult
barrier t fault_index second_start terminated first_exit first_cleanup =
    refuse AssertionName.process_safety
      (not (
        ltb terminated.event_id first_exit.event_id
        && ltb first_exit.event_id first_cleanup.event_id))
      first_out_of_order
      (refuse AssertionName.process_safety (ltb first_cleanup.reaped 2)
        (descendant_alive first_cleanup.reaped)
        (refuse AssertionName.process_safety (leb second_start.event_id first_cleanup.event_id)
          restart_before_cleanup (descendant_escaped t fault_index terminated)))

abbrev pub is_killed : ProcessExit → Bool
is_killed (signaled signal) = same ℤ-discrete signal termination_signal
is_killed (exited code) = false

-- The first invocation was terminated, killed and cleaned up.
unfoldable pub first_ends : WorkloadTrace → ℕ → StartRecord → AssertionResult
first_ends t fault_index second_start =
    require AssertionName.process_safety (find (termination_is 1) t.terminations) never_terminated
      (λ terminated.
        refuse AssertionName.process_safety
          (not (same ℤ-discrete terminated.signal termination_signal))
          (wrong_signal terminated.signal)
          (require AssertionName.process_safety (find (exit_is 1) t.exits) no_first_exit
            (λ first_exit.
              refuse AssertionName.process_safety (not (is_killed first_exit.exit))
                (first_not_killed first_exit.exit)
                (require AssertionName.process_safety (find (cleanup_is 1) t.cleanups)
                  no_first_cleanup (barrier t fault_index second_start terminated first_exit)))))

abbrev pub same_launch : LaunchIdentity → LaunchIdentity → Bool
same_launch = same LaunchIdentity-discrete

unfoldable pub identities :
    WorkloadTrace → ℕ → LaunchIdentity → StartRecord → StartRecord → AssertionResult
identities t fault_index launch s1 s2 =
    refuse AssertionName.process_safety
      (not (s1.invocation == 1)
        || not (same_launch s1.launch launch)
        || not (s2.invocation == 2)
        || not (same_launch s2.launch launch))
      identity_mismatch
      (refuse AssertionName.process_safety (not (length t.terminations == 1))
        (termination_count (length t.terminations)) (first_ends t fault_index s2))

-- `process_safety`
unfoldable pub process_safety :
    WorkloadTrace → WorkloadChoicePlan → LaunchIdentity → AssertionResult
process_safety t choices launch =
    absent AssertionName.process_safety (first (all_violations t)) structure_violation (
      absent AssertionName.process_safety (first t.launch_failures)
        (λ f. launch_failure f.invocation f.failure)
        (two_starts t.starts (identities t choices.process_fault_request_index launch)))
