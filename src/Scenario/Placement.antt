-- ===== src/Scenario/Placement.antt =====
-- Where the choice plans of crates/simferret/src/scenario.rs place their faults.
use simferret.Prelude.{
  ℕ, zero, suc, ◌+◌, ◌-◌, ◌*◌, ◌%◌, ◌≤◌, ◌<◌, ◌≡◌, refl, ◌≢◌, ◌↔◌, Bool, true, List, [], ◌∷◌, some,
  arith, length, get_elem?, ok, ap, leb, if◌then◌else◌,
}
use simferret.Scenario.Types.{
  Scenario, ChoicePlan, WorkloadScenario, WorkloadChoicePlan, max_request_count,
  max_total_payload_bytes, max_scenario_name_bytes,
}
use simferret.Scenario.Random.{next}
use simferret.Scenario.Peer.{is_fixture_peer}
use simferret.Scenario.Validate.{validate, validate_workload}
use simferret.Scenario.Choices.{
  choose_activation, choose_restoration, choices, fault_candidates, choose_fault, workload_choices,
  plan_requests,
}

-- The fields that `validate_fields` accepts.
pub record InLimits (least_requests most_payload : ℕ) (name_length request_count payload_bytes : ℕ)
    (peer_ok : Bool) (outage_bound liveness_bound : ℕ) : Type 0 where
  pub named : 1 ≤ name_length
  pub name_fits : name_length ≤ max_scenario_name_bytes
  pub enough_requests : least_requests ≤ request_count
  pub request_limit : request_count ≤ max_request_count
  pub some_payload : 1 ≤ payload_bytes
  pub payload_limit : payload_bytes ≤ most_payload
  pub total_limit : request_count * payload_bytes ≤ max_total_payload_bytes
  pub outage_positive : 1 ≤ outage_bound
  pub liveness_least : 2 ≤ liveness_bound
  pub peer : peer_ok ≡ true

pub record IsValid (s : Scenario) : Type 0 where
  pub versioned : s.version ≡ 1
  pub limits :
      InLimits 3 16384
        (length s.name)
        s.request_count
        s.payload_bytes
        (is_fixture_peer s.fixture_peer)
        s.outage_event_bound
        s.liveness_event_bound

pub record IsValidWorkload (s : WorkloadScenario) : Type 0 where
  pub versioned : s.version ≡ 1
  pub limits :
      InLimits 4 63
        (length s.name)
        s.request_count
        s.payload_bytes
        (is_fixture_peer s.fixture_peer)
        s.outage_event_bound
        s.liveness_event_bound

-- A network scenario is accepted exactly if its version is 1 and its fields are in their limits.
pub validate-IsValid : (s : Scenario) → (validate s ≡ ok tt) ↔ IsValid s
unfolding validate
validate-IsValid s = (λ h. ground arith, λ v. ground arith)

-- A workload scenario is accepted exactly if its version is 1 and its fields are in their limits.
pub validate_workload-IsValidWorkload :
    (s : WorkloadScenario) → (validate_workload s ≡ ok tt) ↔ IsValidWorkload s
unfolding validate_workload
validate_workload-IsValidWorkload s = (λ h. ground arith, λ v. ground arith)

pub choose_activation-range :
    (n state : ℕ)
    → 3 ≤ n
    → (a : ℕ) × (state' : ℕ) × (choose_activation n state ≡ some (a, state'))
      × (1 ≤ a)
      × (a + 1 < n)
unfolding choose_activation
choose_activation-range n state h =
    let v = (next state).0 in
    (1 + v % (n - 2), (next state).1, ground arith, omega arith, omega arith)

pub choose_restoration-range :
    (n a state : ℕ)
    → a + 1 < n
    → (r : ℕ) × (state' : ℕ) × (choose_restoration n a state ≡ some (r, state')) × (a < r) × (r < n)
unfolding choose_restoration
choose_restoration-range n a state h =
    let v = (next state).0 in
    (a + 1 + v % (n - a - 1), (next state).1, ground arith, omega arith, omega arith)

-- One index is still to be skipped while the loop has not passed it.
abbrev ahead : ℕ → ℕ → ℕ
ahead index excluded = if leb index excluded then 1 else 0

length-fault_candidates :
    (rounds index a r : ℕ)
    → rounds ≤ length (fault_candidates rounds index a r) + ahead index a + ahead index r
unfolding fault_candidates
length-fault_candidates zero index a r = omega arith
length-fault_candidates (suc rounds) index a r =
    ground (arith, length-fault_candidates rounds (index + 1) a r)

get-fault_candidates :
    (rounds index a r i f : ℕ)
    → get_elem? (fault_candidates rounds index a r) i ≡ some f
    → (index ≤ f) × (f < index + rounds) × (f ≢ a) × (f ≢ r)
unfolding fault_candidates
get-fault_candidates zero index a r i f h = absurd (cc)
get-fault_candidates (suc rounds) index a r zero f h =
    ground (arith, get-fault_candidates rounds (index + 1) a r zero f)
get-fault_candidates (suc rounds) index a r (suc i) f h = ground (
  arith,
  get-fault_candidates rounds (index + 1) a r i f,
  get-fault_candidates rounds (index + 1) a r (suc i) f,
)

get_elem?-some {ℓ} :
    {A : Type ℓ} (xs : List A) (i : ℕ) → i < length xs → (x : A) × (get_elem? xs i ≡ some x)
get_elem?-some [] i h = elim h [ ]
get_elem?-some (x ∷ xs) zero h = (x, refl)
get_elem?-some (x ∷ xs) (suc i) h = get_elem?-some xs i (omega arith)

choose_fault-range :
    (n a r state : ℕ)
    → 4 ≤ n
    → (f : ℕ) × (state' : ℕ) × (choose_fault (fault_candidates (n - 1) 1 a r) state
        ≡ some (f, state'))
      × (1 ≤ f)
      × (f < n)
      × (f ≢ a)
      × (f ≢ r)
unfolding choose_fault
choose_fault-range n a r state h =
    let candidates = fault_candidates (n - 1) 1 a r in
    let enough : 0 < length candidates = ground (arith, length-fault_candidates (n - 1) 1 a r) in
    let position = (next state).0 % length candidates in
    let (f, e) = get_elem?-some candidates position (omega arith) in
    let (from_one, below, not_a, not_r) = get-fault_candidates (n - 1) 1 a r position f e in
    (f, (next state).1, ground (arith, e, enough), from_one, omega arith, not_a, not_r)

length-plan_requests :
    (rounds index bytes state : ℕ) → length (plan_requests rounds index bytes state) ≡ rounds
unfolding plan_requests
length-plan_requests zero index bytes state = refl
length-plan_requests (suc rounds) index bytes state =
    ap suc (length-plan_requests rounds (index + 1) bytes _)

-- What a plan promises of its fault transitions: each phase of the outage has a request.
pub record IsPlaced (s : Scenario) (p : ChoicePlan) : Type 0 where
  pub before_outage : 1 ≤ p.outage_activation_request_index
  pub in_outage : p.outage_activation_request_index < p.restoration_request_index
  pub after_outage : p.restoration_request_index < s.request_count
  pub all_planned : length p.requests ≡ s.request_count

-- For every accepted network scenario and every seed the plan is made without a panic, and its
-- outage begins after at least one request, holds at least one and ends before the last.
pub choices-IsPlaced :
    (s : Scenario) (seed : ℕ)
    → validate s ≡ ok tt
    → (p : ChoicePlan) × (choices s seed ≡ some p) × IsPlaced s p
unfolding choices
choices-IsPlaced s seed h =
    let v = (validate-IsValid s).0 h in
    let (a, state, ea, after_first, before_last) =
      choose_activation-range s.request_count seed v.limits.enough_requests in
    let (r, state', er, ordered, inside) =
      choose_restoration-range s.request_count a state before_last in
    (
      record {
        version = 1;
        seed = seed;
        outage_activation_request_index = a;
        restoration_request_index = r;
        requests = plan_requests s.request_count 0 s.payload_bytes state';
      },
      rw (ea, er),
      record {
        before_outage = after_first;
        in_outage = ordered;
        after_outage = inside;
        all_planned = length-plan_requests s.request_count 0 s.payload_bytes state';
      },
    )

pub record IsPlacedWorkload (s : WorkloadScenario) (p : WorkloadChoicePlan) : Type 0 where
  pub before_outage : 1 ≤ p.outage_activation_request_index
  pub in_outage : p.outage_activation_request_index < p.restoration_request_index
  pub after_outage : p.restoration_request_index < s.request_count
  pub all_planned : length p.requests ≡ s.request_count
  pub fault_after_first : 1 ≤ p.process_fault_request_index
  pub fault_inside : p.process_fault_request_index < s.request_count
  pub fault_not_activation : p.process_fault_request_index ≢ p.outage_activation_request_index
  pub fault_not_restoration : p.process_fault_request_index ≢ p.restoration_request_index

-- For every accepted workload scenario and every seed the plan is made without a panic, its outage
-- is placed as a network scenario's, and the process fault lies strictly inside the requests and
-- at neither of the outage's transitions.
pub workload_choices-IsPlaced :
    (s : WorkloadScenario) (seed : ℕ)
    → validate_workload s ≡ ok tt
    → (p : WorkloadChoicePlan) × (workload_choices s seed ≡ some p) × IsPlacedWorkload s p
unfolding workload_choices
workload_choices-IsPlaced s seed h =
    let v = (validate_workload-IsValidWorkload s).0 h in
    let n = s.request_count in
    let (a, state, ea, after_first, before_last) =
      choose_activation-range n seed (omega (arith, v.limits.enough_requests)) in
    let (r, state', er, ordered, inside) = choose_restoration-range n a state before_last in
    let (f, state'', ef, from_one, below, not_a, not_r) =
      choose_fault-range n a r state' v.limits.enough_requests in
    (
      record {
        version = 1;
        seed = seed;
        process_fault_request_index = f;
        outage_activation_request_index = a;
        restoration_request_index = r;
        requests = plan_requests n 0 s.payload_bytes state'';
      },
      rw (ea, er, ef),
      record {
        before_outage = after_first;
        in_outage = ordered;
        after_outage = inside;
        all_planned = length-plan_requests n 0 s.payload_bytes state'';
        fault_after_first = from_one;
        fault_inside = below;
        fault_not_activation = not_a;
        fault_not_restoration = not_r;
      },
    )
