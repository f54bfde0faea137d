-- ===== src/Checker/Integrity.antt =====
-- What a passing `response_integrity` of crates/simferret/src/checker.rs means for the trace.
use simferret.Prelude.{
  ℕ, ◌+◌, ◌-◌, ◌<◌, ◌≡◌, refl, true, List, [], ◌∷◌, Option, none, some, Bytes, Text, arith, length,
  drop, or_else, All,
}
use simferret.Assertions.Report.{AssertionResult}
use simferret.Scenario.Types.{WorkloadChoicePlan}
use simferret.Checker.Streams.{CompletedLine}
use simferret.Checker.Trace.{ExitRecord, WorkloadTrace, streams_of}
use simferret.Checker.Views.{all_violations, stdout_lines, stderr_lines}
use simferret.Checker.Returns.{refuse-passed, absent-passed, first-none}
use simferret.Checker.Lines.{texts}
use simferret.Checker.Responses.{
  line_mismatch, early_line, inputs_of, eofs_of, invocation_answered, pending_out, stderr_total,
  out_bytes, error_bytes, frames_of, exit_matches, exits_match, outputs_match, response_integrity,
  expected_first, expected_second,
}

line_mismatch-none :
    (index : ℕ) (lines : List CompletedLine) (expected : List Text)
    → length lines ≡ length expected
    → line_mismatch index lines expected ≡ none
    → texts lines ≡ expected
unfolding line_mismatch
line_mismatch-none index [] [] e h = refl
line_mismatch-none index [] (w ∷ expected) e h = absurd (omega (arith, e))
line_mismatch-none index (l ∷ lines) [] e h = absurd (omega (arith, e))
line_mismatch-none index (l ∷ lines) (w ∷ expected) e h =
    ground (arith, line_mismatch-none (index + 1) lines expected)

-- Each answer begins behind the acknowledgement at its place.
abbrev pub BeginAfter : List CompletedLine → List ℕ → Type 0
BeginAfter [] inputs = Unit
BeginAfter (line ∷ lines) [] = Unit
BeginAfter (line ∷ lines) (acknowledged ∷ inputs) =
    (acknowledged < line.first_event_id) × BeginAfter lines inputs

early_line-none :
    (index : ℕ) (lines : List CompletedLine) (inputs : List ℕ)
    → early_line index lines inputs ≡ none
    → BeginAfter lines inputs
unfolding early_line
early_line-none index [] inputs h = tt
early_line-none index (line ∷ lines) [] h = tt
early_line-none index (line ∷ lines) (acknowledged ∷ inputs) h =
    ground (arith, early_line-none (index + 1) lines inputs)

-- An invocation's lines are the expected ones, each but the first answers one input that was
-- accepted before it, and the input's ends are as many as expected.
pub record Answered (t : WorkloadTrace) (invocation ends : ℕ) (expected : List Text) : Type 0 where
  pub exact : texts (stdout_lines t invocation) ≡ expected
  pub input_each : length (inputs_of (streams_of invocation t.invocations)) ≡ length expected - 1
  pub ends_seen : eofs_of (streams_of invocation t.invocations) ≡ ends
  pub in_order :
      BeginAfter
        (drop 1 (stdout_lines t invocation))
        (inputs_of (streams_of invocation t.invocations))

invocation_answered-Answered :
    (t : WorkloadTrace) (invocation ends : ℕ) (expected : List Text) (rest : AssertionResult)
    → (invocation_answered t invocation ends expected rest).passed ≡ true
    → Answered t invocation ends expected × (rest.passed ≡ true)
unfolding invocation_answered
invocation_answered-Answered t invocation ends expected rest h =
    let (count, h1) = refuse-passed _ _ _ _ h in
    let (exact, h2) = absent-passed _ _ _ _ h1 in
    let (inputs, h3) = refuse-passed _ _ _ _ h2 in
    let (early, h4) = absent-passed _ _ _ _ h3 in
    (
      record {
        exact = line_mismatch-none 0 (stdout_lines t invocation) expected (ground arith) exact;
        input_each = ground arith;
        ends_seen = ground arith;
        in_order = early_line-none 0 (drop 1 (stdout_lines t invocation)) _ early;
      },
      h4,
    )

module _ (sha256 : Bytes → Text) where
  -- An exit record tells exactly of the bytes and frames that the trace holds: complete stdout
  -- lines and no stderr.
  pub record Accounted (t : WorkloadTrace) (exit : ExitRecord) : Type 0 where
    pub nothing_pending : pending_out (streams_of exit.invocation t.invocations) ≡ 0
    pub no_stderr : stderr_total (streams_of exit.invocation t.invocations) ≡ 0
    pub stdout_counted :
        exit.stdout_bytes ≡ length (out_bytes (streams_of exit.invocation t.invocations))
    pub stderr_counted :
        exit.stderr_bytes ≡ length (error_bytes (streams_of exit.invocation t.invocations))
    pub frames_counted : exit.frames ≡ frames_of (streams_of exit.invocation t.invocations)
    pub stdout_digest :
        exit.stdout_sha256 ≡ sha256 (out_bytes (streams_of exit.invocation t.invocations))
    pub stderr_digest :
        exit.stderr_sha256 ≡ sha256 (error_bytes (streams_of exit.invocation t.invocations))

  exit_matches-Accounted :
      (t : WorkloadTrace) (exit : ExitRecord) (rest : AssertionResult)
      → (exit_matches sha256 t exit rest).passed ≡ true
      → Accounted t exit × (rest.passed ≡ true)
  unfolding exit_matches
  exit_matches-Accounted t exit rest h =
      let (pending, h1) = refuse-passed _ _ _ _ h in
      let (error, h2) = refuse-passed _ _ _ _ h1 in
      let (totals, h3) = refuse-passed _ _ _ _ h2 in
      let (digests, h4) = refuse-passed _ _ _ _ h3 in
      (
        record {
          nothing_pending = ground arith;
          no_stderr = ground arith;
          stdout_counted = ground arith;
          stderr_counted = ground arith;
          frames_counted = ground arith;
          stdout_digest = ground arith;
          stderr_digest = ground arith;
        },
        h4,
      )

  exits_match-Accounted :
      (t : WorkloadTrace) (exits : List ExitRecord) (rest : AssertionResult)
      → (exits_match sha256 t exits rest).passed ≡ true
      → All (Accounted t) exits × (rest.passed ≡ true)
  unfolding exits_match
  exits_match-Accounted t [] rest h = (tt, h)
  exits_match-Accounted t (exit ∷ exits) rest h =
      let (accounted, h1) = exit_matches-Accounted t exit _ h in
      let (others, h2) = exits_match-Accounted t exits rest h1 in ((accounted, others), h2)

  -- The responses of a run that are exactly the plan's.
  pub record ExactResponses (t : WorkloadTrace) (choices : WorkloadChoicePlan) : Type 0 where
    pub first_answered : Answered t 1 0 (expected_first choices)
    pub second_answered : Answered t 2 1 (expected_second choices)
    pub first_silent : stderr_lines t 1 ≡ []
    pub second_silent : stderr_lines t 2 ≡ []
    pub accounted : All (Accounted t) t.exits
    pub no_violations : all_violations t ≡ []

  or_else-none : {A : Type 0} (o p : Option A) → or_else o p ≡ none → (o ≡ none) × (p ≡ none)
  or_else-none none p h = (refl, h)
  or_else-none (some a) p h = absurd (cc)

  -- Where `response_integrity` returns a passing result, the complete stdout lines of both
  -- invocations are exactly those that the plan derives, each behind the startup line begins after
  -- the acknowledgement of the input that it answers, the second invocation alone has its one end of
  -- input, neither invocation has a complete stderr line, and there is no violation. For each exit
  -- record of the trace its invocation has no pending stdout and no stderr byte, and the record's
  -- counts and digests are those of what the trace holds; of an invocation without an exit record
  -- this says nothing about pending bytes.
  pub response_integrity-ExactResponses :
      (t : WorkloadTrace) (choices : WorkloadChoicePlan) (result : AssertionResult)
      → response_integrity sha256 t choices ≡ some result
      → result.passed ≡ true
      → ExactResponses t choices
  unfolding response_integrity outputs_match
  response_integrity-ExactResponses t choices result returned passed =
      let k2 = outputs_match sha256 t choices in
      let k1 = invocation_answered t 2 1 (expected_second choices) k2 in
      let h : (invocation_answered t 1 0 (expected_first choices) k1).passed ≡ true =
        ground arith in
      let (one, h1) = invocation_answered-Answered t 1 0 (expected_first choices) k1 h in
      let (two, h2) = invocation_answered-Answered t 2 1 (expected_second choices) k2 h1 in
      let (silent, h3) = absent-passed _ _ _ _ h2 in
      let (accounted, h4) = exits_match-Accounted t t.exits _ h3 in
      let (structure, _) = absent-passed _ _ _ _ h4 in
      let (silent_one, silent_two) = or_else-none _ _ silent in
      record {
        first_answered = one;
        second_answered = two;
        first_silent = first-none _ silent_one;
        second_silent = first-none _ silent_two;
        accounted = accounted;
        no_violations = first-none _ structure;
      }
