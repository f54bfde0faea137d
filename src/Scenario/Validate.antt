-- ===== src/Scenario/Validate.antt =====
-- crates/simferret/src/scenario.rs, `validate` and `parse` of both scenarios.
use simferret.Prelude.{
  ℕ, ◌*◌, ◌/◌, ◌^◌, ◌-◌, ◌&&◌, ◌||◌, not, Option, none, some, Bytes, Text, ltb, leb, ◌==◌,
  if◌then◌else◌, length, Result, ok, invalid_input, fail, refuse_if, ◌>>=◌, ◌>>◌,
}
use simferret.Scenario.Types.{
  Scenario, WorkloadScenario, scenario_version, workload_scenario_version,
  max_scenario_source_bytes, max_scenario_name_bytes, max_request_count, max_total_payload_bytes,
  min_workload_request_count, max_workload_payload_bytes, max_request_data_length,
}
use simferret.Scenario.Peer.{is_fixture_peer}

-- `a.checked_mul(b)` on `usize`
abbrev pub checked_mul : ℕ → ℕ → Option ℕ
checked_mul a b = if leb (a * b) (2 ^ 64 - 1) then some (a * b) else none

abbrev budget : Option ℕ → Result ℕ
budget none = fail invalid_input
budget (some n) = ok n

-- The checks that both `validate` functions make behind their version's, in order.
unfoldable pub validate_fields : ℕ → ℕ → Text → ℕ → ℕ → Text → ℕ → ℕ → Result (Unit {0})
validate_fields least_requests most_payload name request_count payload_bytes fixture_peer
      outage_event_bound liveness_event_bound =
    do
      refuse_if (length name == 0 || ltb max_scenario_name_bytes (length name)) invalid_input
      refuse_if (not (leb least_requests request_count && leb request_count max_request_count))
          invalid_input
      refuse_if (payload_bytes == 0 || ltb most_payload payload_bytes) invalid_input
      total_payload_bytes ← budget (checked_mul request_count payload_bytes)
      refuse_if (ltb max_total_payload_bytes total_payload_bytes) invalid_input
      refuse_if (outage_event_bound == 0 || ltb liveness_event_bound 2) invalid_input
      refuse_if (not (is_fixture_peer fixture_peer)) invalid_input

-- `Scenario::validate`
unfoldable pub validate : Scenario → Result (Unit {0})
unfolding validate_fields
validate s = do
  refuse_if (not (s.version == scenario_version)) invalid_input
  validate_fields 3 (max_request_data_length / 4) s.name s.request_count s.payload_bytes
      s.fixture_peer s.outage_event_bound s.liveness_event_bound

-- `WorkloadScenario::validate`
unfoldable pub validate_workload : WorkloadScenario → Result (Unit {0})
unfolding validate_fields
validate_workload s = do
  refuse_if (not (s.version == workload_scenario_version)) invalid_input
  validate_fields min_workload_request_count max_workload_payload_bytes s.name s.request_count
      s.payload_bytes s.fixture_peer s.outage_event_bound s.liveness_event_bound

-- `parse`: the size limit, the document's decoder, then `validate`. The decoder is the UTF-8 check
-- with the TOML parser behind it.
module _ {S : Type 0} (decode : Bytes → Result S) (check : S → Result (Unit {0})) where
  unfoldable pub parse : Bytes → Result (S × Bytes)
  parse source = do
    refuse_if (ltb max_scenario_source_bytes (length source)) invalid_input
    scenario ← decode source
    check scenario
    ok (scenario, source)
