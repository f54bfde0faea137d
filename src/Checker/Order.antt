-- ===== src/Checker/Order.antt =====
-- What a passing `process_safety` of crates/simferret/src/checker.rs means for the trace.
use simferret.Prelude.{
  ℕ, Bool-cases, ◌≤◌, ◌<◌, ◌≡◌, refl, Bool, true, false, List, [], ◌∷◌, ◌++◌, arith, length, any,
  count, In, find-some, find-none, All, inl, inr,
}
use simferret.Workload.Launch.{LaunchIdentity}
use simferret.Protocol.Process.{pos, ProcessExit, exited, signaled, termination_signal}
use simferret.Assertions.Report.{AssertionResult}
use simferret.Scenario.Types.{WorkloadChoicePlan}
use simferret.Checker.Streams.{CompletedLine}
use simferret.Checker.Trace.{
  StartRecord, ExitRecord, TerminationRecord, CleanupRecord, WorkloadTrace,
}
use simferret.Checker.Views.{all_violations, stdout_lines, all_stdout_lines, any_stdout_line}
use simferret.Checker.Returns.{refuse-passed, absent-passed, require-passed, first-none}
use simferret.Checker.ProcessSafety.{
  escaped_descendant_line, two_starts, is_stale, is_fresh, roots_fresh, exit_is, cleanup_is,
  termination_is, second_ends, descendant_escaped, barrier, is_killed, first_ends, identities,
  process_safety,
}

module _ {ℓ} {A : Type ℓ} where
  any-true : (p : A → Bool) (xs : List A) → any p xs ≡ true → (x : A) × In x xs × (p x ≡ true)
  any-true p [] h = absurd (cc)
  any-true p (x ∷ xs) h = elim (Bool-cases (p x)) [
    | inl e ↦ (x, In.here refl, e)
    | inr e ↦ let r = any-true p xs (ground arith) in (r.0, In.there r.1, r.2)
  ]

two_starts-passed :
    (starts : List StartRecord) (rest : StartRecord → StartRecord → AssertionResult)
    → (two_starts starts rest).passed ≡ true
    → (s1 s2 : StartRecord) × (starts ≡ s1 ∷ s2 ∷ []) × ((rest s1 s2).passed ≡ true)
unfolding two_starts
two_starts-passed [] rest h = absurd (cc)
two_starts-passed (s ∷ []) rest h = absurd (cc)
two_starts-passed (s1 ∷ s2 ∷ []) rest h = (s1, s2, refl, h)
two_starts-passed (s ∷ s' ∷ s'' ∷ ss) rest h = absurd (cc)

-- Every invocation saw a fresh root once, and no line tells of another root.
pub record FreshRoots (t : WorkloadTrace) (fault_index : ℕ) : Type 0 where
  pub one : count is_fresh (stdout_lines t 1) ≡ 1
  pub two : count is_fresh (stdout_lines t 2) ≡ 1
  pub none_stale : All (λ line. is_stale line ≡ false) (stdout_lines t 1 ++ stdout_lines t 2)
  pub after_request : 0 < fault_index

roots_fresh-FreshRoots :
    (t : WorkloadTrace) (fault_index : ℕ)
    → (roots_fresh t fault_index).passed ≡ true
    → FreshRoots t fault_index
unfolding roots_fresh
roots_fresh-FreshRoots t fault_index h =
    let (stale, h1) = absent-passed _ _ _ _ h in
    let (counts, h2) = refuse-passed _ _ _ _ h1 in
    let (index, _) = refuse-passed _ _ _ _ h2 in
    record {
      one = ground arith;
      two = ground arith;
      none_stale = find-none is_stale (stdout_lines t 1 ++ stdout_lines t 2) stale;
      after_request = ground arith;
    }

-- The second invocation exited with code 0 and was cleaned up.
pub record CleanEnd (t : WorkloadTrace) : Type 0 where
  pub exit : ExitRecord
  pub in_exits : In exit t.exits
  pub exit_invocation : exit.invocation ≡ 2
  pub exited_0 : exit.exit ≡ exited (pos 0)
  pub cleanup : CleanupRecord
  pub in_cleanups : In cleanup t.cleanups
  pub cleanup_invocation : cleanup.invocation ≡ 2

second_ends-CleanEnd :
    (t : WorkloadTrace) (fault_index : ℕ)
    → (second_ends t fault_index).passed ≡ true
    → CleanEnd t × FreshRoots t fault_index
unfolding second_ends
second_ends-CleanEnd t fault_index h =
    let (exit, found, h1) = require-passed _ _ _ _ h in
    let (status, h2) = refuse-passed _ _ _ _ h1 in
    let (cleaned, h3) = refuse-passed _ _ _ _ h2 in
    let (in_exits, is_two) = find-some (exit_is 2) t.exits exit found in
    let (cleanup, in_cleanups, is_two') = any-true (cleanup_is 2) t.cleanups (ground arith) in
    (
      record {
        exit = exit;
        in_exits = in_exits;
        exit_invocation = ground arith;
        exited_0 = ground arith;
        cleanup = cleanup;
        in_cleanups = in_cleanups;
        cleanup_invocation = ground arith;
      },
      roots_fresh-FreshRoots t fault_index h3,
    )

-- The first invocation's descendant reported that it escaped, no later than an event.
pub record EscapedBy (t : WorkloadTrace) (event_id : ℕ) : Type 0 where
  pub line : CompletedLine
  pub in_lines : In line (all_stdout_lines t.invocations)
  pub reports : line.text ≡ escaped_descendant_line
  pub in_time : line.event_id ≤ event_id

descendant_escaped-EscapedBy :
    (t : WorkloadTrace) (fault_index : ℕ) (terminated : TerminationRecord)
    → (descendant_escaped t fault_index terminated).passed ≡ true
    → EscapedBy t terminated.event_id × CleanEnd t × FreshRoots t fault_index
unfolding descendant_escaped any_stdout_line
descendant_escaped-EscapedBy t fault_index terminated h =
    let (line, found, h1) = require-passed _ _ _ _ h in
    let (late, h2) = refuse-passed _ _ _ _ h1 in
    let (in_lines, reported) = find-some _ (all_stdout_lines t.invocations) line found in
    let (second, fresh) = second_ends-CleanEnd t fault_index h2 in
    (
      record { line = line; in_lines = in_lines; reports = ground arith; in_time = ground arith },
      second,
      fresh,
    )

-- The termination, the exit, the cleanup and the next start stand in this order, and the cleanup
-- found the descendant.
pub record Ordered (terminated : TerminationRecord) (exit : ExitRecord) (cleanup : CleanupRecord)
    (restart : StartRecord) : Type 0 where
  pub exit_after_termination : terminated.event_id < exit.event_id
  pub cleanup_after_exit : exit.event_id < cleanup.event_id
  pub restart_after_cleanup : cleanup.event_id < restart.event_id
  pub reaped_both : 2 ≤ cleanup.reaped

-- What follows the first invocation's records.
pub record Aftermath (t : WorkloadTrace) (fault_index : ℕ) (terminated : TerminationRecord)
    (exit : ExitRecord) (cleanup : CleanupRecord) (restart : StartRecord) : Type 0 where
  pub ordered : Ordered terminated exit cleanup restart
  pub escaped : EscapedBy t terminated.event_id
  pub second : CleanEnd t
  pub fresh : FreshRoots t fault_index

barrier-Aftermath :
    (t : WorkloadTrace) (fault_index : ℕ) (restart : StartRecord) (terminated : TerminationRecord)
    (exit : ExitRecord) (cleanup : CleanupRecord)
    → (barrier t fault_index restart terminated exit cleanup).passed ≡ true
    → Aftermath t fault_index terminated exit cleanup restart
unfolding barrier
barrier-Aftermath t fault_index restart terminated exit cleanup h =
    let (order, h1) = refuse-passed _ _ _ _ h in
    let (reaped, h2) = refuse-passed _ _ _ _ h1 in
    let (early, h3) = refuse-passed _ _ _ _ h2 in
    let (escaped, second, fresh) = descendant_escaped-EscapedBy t fault_index terminated h3 in
    record {
      ordered = record {
        exit_after_termination = ground arith;
        cleanup_after_exit = ground arith;
        restart_after_cleanup = ground arith;
        reaped_both = ground arith;
      };
      escaped = escaped;
      second = second;
      fresh = fresh;
    }

is_killed-eq : (exit : ProcessExit) → is_killed exit ≡ true → exit ≡ signaled termination_signal
is_killed-eq (signaled signal) h = ground arith
is_killed-eq (exited code) h = absurd (cc)

-- The first invocation was told to stop by SIGKILL, died of it and was cleaned up.
pub record KilledFirst (t : WorkloadTrace) (fault_index : ℕ) (restart : StartRecord) : Type 0 where
  pub terminated : TerminationRecord
  pub in_terminations : In terminated t.terminations
  pub terminated_invocation : terminated.invocation ≡ 1
  pub sigkill : terminated.signal ≡ termination_signal
  pub exit : ExitRecord
  pub in_exits : In exit t.exits
  pub exit_invocation : exit.invocation ≡ 1
  pub killed : exit.exit ≡ signaled termination_signal
  pub cleanup : CleanupRecord
  pub in_cleanups : In cleanup t.cleanups
  pub cleanup_invocation : cleanup.invocation ≡ 1
  pub aftermath : Aftermath t fault_index terminated exit cleanup restart

first_ends-KilledFirst :
    (t : WorkloadTrace) (fault_index : ℕ) (restart : StartRecord)
    → (first_ends t fault_index restart).passed ≡ true
    → KilledFirst t fault_index restart
unfolding first_ends
first_ends-KilledFirst t fault_index restart h =
    let (terminated, found, h1) = require-passed _ _ _ _ h in
    let (signal, h2) = refuse-passed _ _ _ _ h1 in
    let (exit, found_exit, h3) = require-passed _ _ _ _ h2 in
    let (status, h4) = refuse-passed _ _ _ _ h3 in
    let (cleanup, found_cleanup, h5) = require-passed _ _ _ _ h4 in
    let (in_terminations, is_one) = find-some (termination_is 1) t.terminations terminated found in
    let (in_exits, is_one') = find-some (exit_is 1) t.exits exit found_exit in
    let (in_cleanups, is_one'') = find-some (cleanup_is 1) t.cleanups cleanup found_cleanup in
    record {
      terminated = terminated;
      in_terminations = in_terminations;
      terminated_invocation = ground arith;
      sigkill = ground arith;
      exit = exit;
      in_exits = in_exits;
      exit_invocation = ground arith;
      killed = is_killed-eq exit.exit (ground arith);
      cleanup = cleanup;
      in_cleanups = in_cleanups;
      cleanup_invocation = ground arith;
      aftermath = barrier-Aftermath t fault_index restart terminated exit cleanup h5;
    }

-- The history that the acceptance profile asks for.
pub record SafeHistory (t : WorkloadTrace) (fault_index : ℕ) (launch : LaunchIdentity)
    : Type 0 where
  pub no_violations : all_violations t ≡ []
  pub no_launch_failures : t.launch_failures ≡ []
  pub start : StartRecord
  pub restart : StartRecord
  pub starts : t.starts ≡ start ∷ restart ∷ []
  pub start_invocation : start.invocation ≡ 1
  pub start_launch : start.launch ≡ launch
  pub restart_invocation : restart.invocation ≡ 2
  pub restart_launch : restart.launch ≡ launch
  pub one_termination : length t.terminations ≡ 1
  pub first : KilledFirst t fault_index restart

-- Where `process_safety` passes, the trace has no violation and no launch failure, the two
-- invocations of the launch started in order, the one termination was SIGKILL for the first, which
-- died of it and was cleaned up with at least two processes reaped before the second started; the
-- escaped descendant had reported by then, the second invocation exited with code 0 and was cleaned
-- up, and each invocation saw a fresh root once and never another.
pub process_safety-SafeHistory :
    (t : WorkloadTrace) (choices : WorkloadChoicePlan) (launch : LaunchIdentity)
    → (process_safety t choices launch).passed ≡ true
    → SafeHistory t choices.process_fault_request_index launch
unfolding process_safety identities
process_safety-SafeHistory t choices launch h =
    let (structure, h1) = absent-passed _ _ _ _ h in
    let (launches, h2) = absent-passed _ _ _ _ h1 in
    let (start, restart, starts, h3) = two_starts-passed _ _ h2 in
    let (identity, h4) = refuse-passed _ _ _ _ h3 in
    let (terminations, h5) = refuse-passed _ _ _ _ h4 in
    record {
      no_violations = first-none _ structure;
      no_launch_failures = first-none _ launches;
      start = start;
      restart = restart;
      starts = starts;
      start_invocation = ground arith;
      start_launch = ground arith;
      restart_invocation = ground arith;
      restart_launch = ground arith;
      one_termination = ground arith;
      first = first_ends-KilledFirst t choices.process_fault_request_index restart h5;
    }
