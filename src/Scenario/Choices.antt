-- ===== src/Scenario/Choices.antt =====
-- crates/simferret/src/scenario.rs, `choices` of both scenarios. `none` is a panic: a subtraction
-- below zero, a remainder by zero, or an index out of range.
use simferret.Prelude.{
  ℕ, zero, suc, ◌+◌, ◌-◌, ◌%◌, ◌&&◌, not, List, [], ◌∷◌, ◌++◌, Option, none, some, Text, codes,
  decimal, hex_fixed, padded, leb, ◌==◌, if◌then◌else◌, length, get_elem?,
}
use simferret.Scenario.Types.{
  Scenario, PlannedRequest, ChoicePlan, WorkloadScenario, WorkloadChoicePlan, choice_plan_version,
  workload_choice_plan_version,
}
use simferret.Scenario.Random.{next, hex_bytes}

-- A panic stops the computation.
infixl 5 ◌>>=◌
abbrev pub ◌>>=◌ {ℓ κ} : {A : Type ℓ} {B : Type κ} → Option A → (A → Option B) → Option B
none >>= f = none
some a >>= f = f a

abbrev pub checked_sub : ℕ → ℕ → Option ℕ
checked_sub a b = if leb b a then some (a - b) else none

abbrev pub checked_rem : ℕ → ℕ → Option ℕ
checked_rem a b = if b == 0 then none else some (a % b)

-- `format!("request-{index:04}-{nonce:016x}")`
unfoldable pub request_name : ℕ → ℕ → Text
request_name index nonce =
    codes "request-" ++ padded 4 (decimal index) ++ codes "-" ++ hex_fixed 16 nonce

-- The plan's requests from an index on, for the requests that are left.
unfoldable pub plan_requests : ℕ → ℕ → ℕ → ℕ → List PlannedRequest
plan_requests zero index payload_bytes state = []
plan_requests (suc rounds) index payload_bytes state =
    let (nonce, state') = next state in
    let (payload, state'') = hex_bytes payload_bytes state' in
    record { request_id = request_name index nonce; payload = payload }
    ∷ plan_requests rounds (index + 1) payload_bytes state''

-- `1 + random.next() as usize % (self.request_count - 2)`, and the generator's next state
unfoldable pub choose_activation : ℕ → ℕ → Option (ℕ × ℕ)
choose_activation request_count state = do
  let (value, state') = next state
  span ← checked_sub request_count 2
  offset ← checked_rem value span
  some (1 + offset, state')

-- `activation + 1 + random.next() as usize % (self.request_count - activation - 1)`
unfoldable pub choose_restoration : ℕ → ℕ → ℕ → Option (ℕ × ℕ)
choose_restoration request_count activation state = do
  let (value, state') = next state
  after ← checked_sub request_count activation
  span ← checked_sub after 1
  offset ← checked_rem value span
  some (activation + 1 + offset, state')

-- `Scenario::choices`
unfoldable pub choices : Scenario → ℕ → Option ChoicePlan
choices s seed = do
  (activation, state) ← choose_activation s.request_count seed
  (restoration, state') ← choose_restoration s.request_count activation state
  some (record {
    version = choice_plan_version;
    seed = seed;
    outage_activation_request_index = activation;
    restoration_request_index = restoration;
    requests = plan_requests s.request_count 0 s.payload_bytes state';
  })

-- `(1..request_count).filter(…)`: the indices from one on, for the indices that are left.
unfoldable pub fault_candidates : ℕ → ℕ → ℕ → ℕ → List ℕ
fault_candidates zero index activation restoration = []
fault_candidates (suc rounds) index activation restoration =
    let rest = fault_candidates rounds (index + 1) activation restoration in
    if not (index == activation) && not (index == restoration) then index ∷ rest else rest

-- `candidates[random.next() as usize % candidates.len()]`
unfoldable pub choose_fault : List ℕ → ℕ → Option (ℕ × ℕ)
choose_fault candidates state = do
  let (value, state') = next state
  position ← checked_rem value (length candidates)
  fault ← get_elem? candidates position
  some (fault, state')

-- `WorkloadScenario::choices`
unfoldable pub workload_choices : WorkloadScenario → ℕ → Option WorkloadChoicePlan
workload_choices s seed = do
  (activation, state) ← choose_activation s.request_count seed
  (restoration, state') ← choose_restoration s.request_count activation state
  (fault, state'') ←
      choose_fault (fault_candidates (s.request_count - 1) 1 activation restoration) state'
  some (record {
    version = workload_choice_plan_version;
    seed = seed;
    process_fault_request_index = fault;
    outage_activation_request_index = activation;
    restoration_request_index = restoration;
    requests = plan_requests s.request_count 0 s.payload_bytes state'';
  })
