-- ===== src/Checker/WorkloadRun.antt =====
-- What a passing report of `evaluate_workload` of crates/simferret/src/checker.rs means for the run.
use simferret.Prelude.{◌≡◌, refl, true, List, Option, none, some, Bytes, Text, arith}
use simferret.Workload.Launch.{LaunchIdentity}
use simferret.Protocol.Event.{EventFrame}
use simferret.Assertions.Report.{AssertionReport, AssertionResult}
use simferret.Assertions.Evaluate.{report_of}
use simferret.Scenario.Types.{WorkloadScenario, WorkloadChoicePlan}
use simferret.Checker.Trace.{empty_trace, push_all}
use simferret.Checker.ProcessSafety.{process_safety}
use simferret.Checker.Responses.{response_integrity}
use simferret.Checker.Faults.{fault_properties}
use simferret.Checker.Evaluate.{report_with, evaluate_workload}
use simferret.Checker.SafeRun.{SafeRun, process_safety-SafeRun}
use simferret.Checker.Integrity.{ExactResponses, response_integrity-ExactResponses}
use simferret.Checker.Transitions.{FaultsSeen, fault_properties-FaultsSeen}

pub record WorkloadRun (sha256 : Bytes → Text) (events : List EventFrame)
    (scenario : WorkloadScenario) (choices : WorkloadChoicePlan) (launch : LaunchIdentity)
    : Type 0 where
  pub safe : SafeRun events launch
  pub responses : ExactResponses sha256 (push_all empty_trace events) choices
  pub faults : FaultsSeen (push_all empty_trace events) scenario choices

-- A passing report has five passing results.
record FivePassed (safety : AssertionResult)
    (faults : AssertionResult × AssertionResult × AssertionResult) (o : Option AssertionResult)
    : Type 0 where
  integrity : AssertionResult
  judged : o ≡ some integrity
  safety_passed : safety.passed ≡ true
  integrity_passed : integrity.passed ≡ true
  outage_passed : faults.0.passed ≡ true
  restoration_passed : faults.1.passed ≡ true
  recovery_passed : faults.2.passed ≡ true

report_with-FivePassed :
    (safety : AssertionResult) (faults : AssertionResult × AssertionResult × AssertionResult)
    (o : Option AssertionResult) (report : AssertionReport)
    → report_with safety faults o ≡ some report
    → report.passed ≡ true
    → FivePassed safety faults o
unfolding report_of
report_with-FivePassed safety faults none report h passed = absurd (cc)
report_with-FivePassed safety faults (some integrity) report h passed = record {
  integrity = integrity;
  judged = refl;
  safety_passed = ground arith;
  integrity_passed = ground arith;
  outage_passed = ground arith;
  restoration_passed = ground arith;
  recovery_passed = ground arith;
}

-- Where `evaluate_workload` returns a passing report, the run's frames show the kill, the cleanup and
-- the restart in their order, both invocations answered exactly what the plan derives, and the
-- outage, its prohibition and both recoveries happened in their order and bounds.
pub evaluate_workload-WorkloadRun :
    (sha256 : Bytes → Text) (events : List EventFrame) (scenario : WorkloadScenario)
    (choices : WorkloadChoicePlan) (launch : LaunchIdentity) (report : AssertionReport)
    → evaluate_workload sha256 events scenario choices launch ≡ some report
    → report.passed ≡ true
    → WorkloadRun sha256 events scenario choices launch
unfolding evaluate_workload
evaluate_workload-WorkloadRun sha256 events scenario choices launch report returned passed =
    let t = push_all empty_trace events in
    let five =
      report_with-FivePassed (process_safety t choices launch) (fault_properties t scenario choices)
        (response_integrity sha256 t choices) report returned passed in
    record {
      safe = process_safety-SafeRun events choices launch five.safety_passed;
      responses =
          response_integrity-ExactResponses sha256 t choices five.integrity five.judged
            five.integrity_passed;
      faults =
          fault_properties-FaultsSeen t scenario choices five.outage_passed five.restoration_passed
            five.recovery_passed;
    }
