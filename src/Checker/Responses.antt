-- ===== src/Checker/Responses.antt =====
-- crates/simferret/src/checker.rs, `response_integrity`: the lines that the plan derives against the
-- recorded responses, inputs and exits.
use simferret.Prelude.{
  ℕ, ◌+◌, ◌-◌, ◌||◌, not, List, [], ◌∷◌, ◌++◌, Option, none, some, Bytes, Text, codes, decimal,
  hex_fixed, ltb, leb, ◌==◌, if◌then◌else◌, length, take, drop, first, or_else, same_text,
}
use simferret.Protocol.Violation.{
  response_count, response_line, input_counts, early_response, application_error, unterminated_line,
  stderr_output, exit_totals, exit_digests, structure_violation, responses_matched,
}
use simferret.Protocol.Event.{RequestPhase, pre_outage, outage, recovery}
use simferret.Assertions.Report.{AssertionName, AssertionResult}
use simferret.Scenario.Types.{PlannedRequest, WorkloadChoicePlan}
use simferret.Checker.Streams.{CompletedLine, InvocationStreams}
use simferret.Checker.Trace.{ExitRecord, WorkloadTrace, streams_of}
use simferret.Checker.Views.{all_violations, stdout_lines, stderr_lines}
use simferret.Checker.Returns.{passed, refuse, absent}
use simferret.Checker.ProcessSafety.{fresh_state_line, escaped_descendant_line}

-- `READY_LINE`
abbrev pub ready_line : Text
ready_line = codes "ready version=1"

-- `echo_token`
unfoldable pub echo_token : ℕ → ℕ → Text
echo_token seed invocation = codes "echo-" ++ decimal invocation ++ codes "-" ++ hex_fixed 16 seed

-- `request_phase`
unfoldable pub request_phase : ℕ → ℕ → ℕ → RequestPhase
request_phase index activation restoration =
    if ltb index activation then pre_outage else if ltb index restoration then outage else recovery

-- `expected_network_line`
unfoldable pub expected_network_line : PlannedRequest → RequestPhase → Text
expected_network_line request outage =
    codes "network state=unavailable request=" ++ request.request_id ++ codes " errno=13"
expected_network_line request pre_outage = codes "network state=ok request=" ++ request.request_id
expected_network_line request recovery = codes "network state=ok request=" ++ request.request_id

-- The lines of the requests from an index on.
unfoldable pub network_lines : ℕ → ℕ → ℕ → List PlannedRequest → List Text
network_lines index activation restoration [] = []
network_lines index activation restoration (request ∷ requests) =
    expected_network_line request (request_phase index activation restoration)
    ∷ network_lines (index + 1) activation restoration requests

abbrev pub planned_lines : WorkloadChoicePlan → List Text
planned_lines choices =
    network_lines 0 choices.outage_activation_request_index choices.restoration_request_index
      choices.requests

-- `format!("echo value={}", echo_token(choices.seed, invocation))`
abbrev pub echo_line : ℕ → ℕ → Text
echo_line seed invocation = codes "echo value=" ++ echo_token seed invocation

-- The lines that each of the two invocations owes.
unfoldable pub expected_first : WorkloadChoicePlan → List Text
expected_first choices =
    ready_line
      ∷ echo_line choices.seed 1
      ∷ fresh_state_line
      ∷ take choices.process_fault_request_index (planned_lines choices)
    ++ escaped_descendant_line ∷ []

unfoldable pub expected_second : WorkloadChoicePlan → List Text
expected_second choices =
    ready_line
    ∷ echo_line choices.seed 2
    ∷ fresh_state_line
    ∷ drop choices.process_fault_request_index (planned_lines choices)

-- The index of the first line that is not the wanted one.
unfoldable pub line_mismatch : ℕ → List CompletedLine → List Text → Option ℕ
line_mismatch index (line ∷ lines) (wanted ∷ expected) =
    if not (same_text line.text wanted)
    then some index
    else line_mismatch (index + 1) lines expected
line_mismatch index _ _ = none

-- The index of the first acknowledgement that its answer does not begin after; the lines are those
-- behind the startup line.
unfoldable pub early_line : ℕ → List CompletedLine → List ℕ → Option ℕ
early_line index (line ∷ lines) (acknowledged ∷ inputs) =
    if leb line.first_event_id acknowledged then some index else early_line (index + 1) lines inputs
early_line index _ _ = none

abbrev pub inputs_of : Option InvocationStreams → List ℕ
inputs_of none = []
inputs_of (some s) = s.data_input_events

abbrev pub eofs_of : Option InvocationStreams → ℕ
eofs_of none = 0
eofs_of (some s) = s.eof_inputs

abbrev response : AssertionName
response = AssertionName.response_integrity

-- One round of the loop over the invocations.
unfoldable pub invocation_answered :
    WorkloadTrace → ℕ → ℕ → List Text → AssertionResult → AssertionResult
invocation_answered t invocation expected_eofs expected rest =
    let actual = stdout_lines t invocation in
    let inputs = inputs_of (streams_of invocation t.invocations) in
    let eofs = eofs_of (streams_of invocation t.invocations) in
    let expected_inputs = length expected - 1 in
    refuse response (not (length actual == length expected))
      (response_count invocation (length actual) (length expected))
      (absent response (line_mismatch 0 actual expected) (response_line invocation) (
        refuse response (not (length inputs == expected_inputs) || not (eofs == expected_eofs))
          (input_counts invocation (length inputs) eofs expected_inputs expected_eofs)
          (absent response (early_line 0 (drop 1 actual) inputs) (early_response invocation) rest)))

abbrev pub pending_out : Option InvocationStreams → ℕ
pending_out none = 0
pending_out (some s) = length s.out.pending

abbrev pub stderr_total : Option InvocationStreams → ℕ
stderr_total none = 0
stderr_total (some s) = length s.error.bytes + length s.error.pending

abbrev pub out_bytes : Option InvocationStreams → Bytes
out_bytes none = []
out_bytes (some s) = s.out.bytes

abbrev pub error_bytes : Option InvocationStreams → Bytes
error_bytes none = []
error_bytes (some s) = s.error.bytes

abbrev pub frames_of : Option InvocationStreams → ℕ
frames_of none = 0
frames_of (some s) = s.frames

module _ (sha256 : Bytes → Text) where
  -- One round of the loop over the exit records.
  unfoldable pub exit_matches : WorkloadTrace → ExitRecord → AssertionResult → AssertionResult
  exit_matches t exit rest =
      let streams = streams_of exit.invocation t.invocations in
      refuse response (not (pending_out streams == 0))
        (unterminated_line exit.invocation (pending_out streams))
        (refuse response (not (stderr_total streams == 0))
          (stderr_output exit.invocation (stderr_total streams))
          (refuse response
            (not (exit.stdout_bytes == length (out_bytes streams))
              || not (exit.stderr_bytes == length (error_bytes streams))
              || not (exit.frames == frames_of streams))
            (exit_totals exit.invocation)
            (refuse response
              (not (same_text exit.stdout_sha256 (sha256 (out_bytes streams)))
                || not (same_text exit.stderr_sha256 (sha256 (error_bytes streams))))
              (exit_digests exit.invocation) rest)))

  unfoldable pub exits_match : WorkloadTrace → List ExitRecord → AssertionResult → AssertionResult
  exits_match t [] rest = rest
  exits_match t (exit ∷ exits) rest = exit_matches t exit (exits_match t exits rest)

  -- What follows the loop over the invocations.
  unfoldable pub outputs_match : WorkloadTrace → WorkloadChoicePlan → AssertionResult
  outputs_match t choices =
      absent response (or_else (first (stderr_lines t 1)) (first (stderr_lines t 2)))
        (λ line. application_error line.event_id)
        (exits_match t t.exits (
          absent response (first (all_violations t)) structure_violation
            (passed response (responses_matched (length choices.requests)))))

  -- `response_integrity`; `none` is the panic of a fault index beyond the requests.
  unfoldable pub response_integrity : WorkloadTrace → WorkloadChoicePlan → Option AssertionResult
  response_integrity t choices =
      if ltb (length choices.requests) choices.process_fault_request_index
      then none
      else some (
          invocation_answered t 1 0 (expected_first choices)
            (invocation_answered t 2 1 (expected_second choices) (outputs_match t choices)))
