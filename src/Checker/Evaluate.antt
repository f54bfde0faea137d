-- ===== src/Checker/Evaluate.antt =====
-- crates/simferret/src/checker.rs, `evaluate_workload`.
use simferret.Prelude.{List, [], ◌∷◌, Option, none, some, Bytes, Text}
use simferret.Workload.Launch.{LaunchIdentity}
use simferret.Protocol.Event.{EventFrame}
use simferret.Assertions.Report.{AssertionReport, AssertionResult}
use simferret.Assertions.Evaluate.{report_of}
use simferret.Scenario.Types.{WorkloadScenario, WorkloadChoicePlan}
use simferret.Checker.Trace.{empty_trace, push_all}
use simferret.Checker.ProcessSafety.{process_safety}
use simferret.Checker.Responses.{response_integrity}
use simferret.Checker.Faults.{fault_properties}

-- The report's five results, where the responses were judged without a panic.
abbrev pub report_with :
    AssertionResult
    → AssertionResult × AssertionResult × AssertionResult
    → Option AssertionResult
    → Option AssertionReport
report_with safety faults none = none
report_with safety faults (some integrity) =
    some (report_of (safety ∷ integrity ∷ faults.0 ∷ faults.1 ∷ faults.2 ∷ []))

-- `evaluate_workload`; `none` is the panic of a fault index beyond the requests.
unfoldable pub evaluate_workload :
    (Bytes → Text)
    → List EventFrame
    → WorkloadScenario
    → WorkloadChoicePlan
    → LaunchIdentity
    → Option AssertionReport
evaluate_workload sha256 events scenario choices launch =
    let t = push_all empty_trace events in
    report_with (process_safety t choices launch) (fault_properties t scenario choices)
      (response_integrity sha256 t choices)
