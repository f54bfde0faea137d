-- ===== src/Checker/Views.antt =====
-- crates/simferret/src/checker.rs, `WorkloadTrace`: what the properties read of a trace.
use simferret.Prelude.{
  ℕ, ◌+◌, Bool, false, ◌||◌, not, List, [], ◌∷◌, ◌++◌, Option, none, some, Text, if◌then◌else◌,
  length, find, get_elem?, same_text,
}
use simferret.Protocol.Violation.{Violation}
use simferret.Checker.Streams.{CompletedLine, InvocationStreams, is_empty}
use simferret.Checker.Trace.{WorkloadTrace, StreamMap, streams_of}

unfoldable pub stream_violations : StreamMap → List Violation
stream_violations [] = []
stream_violations ((_, s) ∷ m) = s.violations ++ stream_violations m

-- `all_violations`
unfoldable pub all_violations : WorkloadTrace → List Violation
all_violations t = t.violations ++ stream_violations t.invocations

abbrev pub lines_or_none : Option InvocationStreams → List CompletedLine
lines_or_none none = []
lines_or_none (some s) = s.out.lines

abbrev pub error_lines_or_none : Option InvocationStreams → List CompletedLine
error_lines_or_none none = []
error_lines_or_none (some s) = s.error.lines

unfoldable pub stdout_lines : WorkloadTrace → ℕ → List CompletedLine
stdout_lines t invocation = lines_or_none (streams_of invocation t.invocations)

unfoldable pub stderr_lines : WorkloadTrace → ℕ → List CompletedLine
stderr_lines t invocation = error_lines_or_none (streams_of invocation t.invocations)

unfoldable pub stdout_line_count : WorkloadTrace → ℕ → ℕ
stdout_line_count t invocation = length (stdout_lines t invocation)

abbrev text_or_none : Option CompletedLine → Option Text
text_or_none none = none
text_or_none (some line) = some line.text

unfoldable pub stdout_line : WorkloadTrace → ℕ → ℕ → Option Text
stdout_line t invocation index = text_or_none (get_elem? (stdout_lines t invocation) index)

abbrev stderr_size : Option InvocationStreams → ℕ
stderr_size none = 0
stderr_size (some s) = length s.error.bytes + length s.error.pending

unfoldable pub stderr_bytes : WorkloadTrace → ℕ → ℕ
stderr_bytes t invocation = stderr_size (streams_of invocation t.invocations)

abbrev is_over_bound : Option InvocationStreams → Bool
is_over_bound none = false
is_over_bound (some s) = s.stdout_over_bound || s.stdout_over_bound_seen

unfoldable pub over_bound_line : WorkloadTrace → ℕ → Bool
over_bound_line t invocation = is_over_bound (streams_of invocation t.invocations)

abbrev is_pending : Option InvocationStreams → Bool
is_pending none = false
is_pending (some s) = not (is_empty s.out.pending)

unfoldable pub stdout_pending : WorkloadTrace → ℕ → Bool
stdout_pending t invocation = is_pending (streams_of invocation t.invocations)

-- The lines of every invocation, in the order of the keys.
unfoldable pub all_stdout_lines : StreamMap → List CompletedLine
all_stdout_lines [] = []
all_stdout_lines ((_, s) ∷ m) = s.out.lines ++ all_stdout_lines m

unfoldable pub any_stdout_line : WorkloadTrace → Text → Option CompletedLine
any_stdout_line t wanted =
    find (λ line. same_text line.text wanted) (all_stdout_lines t.invocations)

-- The lines of an invocation behind its first, each with the acknowledgement at its place.
unfoldable pub answered_line : Text → List CompletedLine → List ℕ → Option (CompletedLine × ℕ)
answered_line wanted (line ∷ lines) (ack ∷ acks) =
    if same_text line.text wanted then some (line, ack) else answered_line wanted lines acks
answered_line wanted _ _ = none

abbrev pub behind_first : List CompletedLine → List CompletedLine
behind_first [] = []
behind_first (line ∷ lines) = lines

abbrev or_next :
    Option (CompletedLine × ℕ) → Option (CompletedLine × ℕ) → Option (CompletedLine × ℕ)
or_next none o = o
or_next (some p) o = some p

unfoldable pub line_with_ack : Text → StreamMap → Option (CompletedLine × ℕ)
line_with_ack wanted [] = none
line_with_ack wanted ((_, s) ∷ m) =
    or_next (answered_line wanted (behind_first s.out.lines) s.data_input_events)
      (line_with_ack wanted m)

-- `stdout_line_with_ack`: line i + 1 of an invocation answers its acknowledgement i.
unfoldable pub stdout_line_with_ack : WorkloadTrace → Text → Option (CompletedLine × ℕ)
stdout_line_with_ack t wanted = line_with_ack wanted t.invocations
