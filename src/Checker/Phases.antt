-- ===== src/Checker/Phases.antt =====
-- Which planned request `fault_properties` of crates/simferret/src/checker.rs takes for a phase, and
-- the line that it owes.
use simferret.Prelude.{
  ℕ, zero, suc, ◌+◌, ◌≤◌, ◌<◌, ◌≡◌, ap, true, List, [], ◌∷◌, ◌++◌, some, Text, codes, arith,
  Bool-cases, sym, subst, false, inl, inr, same, get_elem?,
}
use simferret.Protocol.Event.{RequestPhase, pre_outage, outage, recovery, RequestPhase-discrete}
use simferret.Scenario.Types.{PlannedRequest}
use simferret.Checker.Responses.{request_phase}
use simferret.Checker.Faults.{first_in_phase}

-- The places of a phase in a plan: before the activation's place, from it to before the
-- restoration's, and behind both.
abbrev pub InPhase : RequestPhase → ℕ → ℕ → ℕ → Type 0
InPhase pre_outage activated restored index = index < activated
InPhase outage activated restored index = (activated ≤ index) × (index < restored)
InPhase recovery activated restored index = (activated ≤ index) × (restored ≤ index)

-- The line that answers a request: EACCES, number 13, inside the outage, and success outside it.
abbrev pub answer_text : RequestPhase → Text → Text
answer_text pre_outage id = codes "network state=ok request=" ++ id
answer_text outage id = codes "network state=unavailable request=" ++ id ++ codes " errno=13"
answer_text recovery id = codes "network state=ok request=" ++ id

request_phase-InPhase :
    (phase : RequestPhase) (index activated restored : ℕ)
    → same RequestPhase-discrete (request_phase index activated restored) phase ≡ true
    → InPhase phase activated restored index
unfolding request_phase RequestPhase-discrete
request_phase-InPhase pre_outage index activated restored h = ground arith
request_phase-InPhase outage index activated restored h = ground arith
request_phase-InPhase recovery index activated restored h = ground arith

InPhase-request_phase :
    (phase : RequestPhase) (index activated restored : ℕ)
    → InPhase phase activated restored index
    → same RequestPhase-discrete (request_phase index activated restored) phase ≡ true
unfolding request_phase RequestPhase-discrete
InPhase-request_phase pre_outage index activated restored h = ground arith
InPhase-request_phase outage index activated restored h = ground arith
InPhase-request_phase recovery index activated restored h = ground arith

place_here : (from : ℕ) → from ≡ from + 0
place_here from = omega arith

place_behind : (from place : ℕ) → from + 1 + place ≡ from + suc place
place_behind from place = omega arith

-- The first request of a phase in a plan, by its place.
pub record IsFirstOf (phase : RequestPhase) (activated restored from : ℕ)
    (requests : List PlannedRequest) (request : PlannedRequest) : Type 0 where
  pub place : ℕ
  pub planned : get_elem? requests place ≡ some request
  pub in_phase : InPhase phase activated restored (from + place)
  pub none_before :
      (earlier : ℕ) → earlier < place → ¬ InPhase phase activated restored (from + earlier)

none_before_suc :
    (phase : RequestPhase) (from activated restored place : ℕ)
    → same RequestPhase-discrete (request_phase from activated restored) phase ≡ false
    → ((earlier : ℕ) → earlier < place → ¬ InPhase phase activated restored (from + 1 + earlier))
    → (earlier : ℕ) → earlier < suc place
    → ¬ InPhase phase activated restored (from + earlier)
none_before_suc phase from activated restored place e behind zero lower inside =
    let at_place = subst (InPhase phase activated restored) (sym (place_here from)) inside in
    absurd (cc (e, InPhase-request_phase phase from activated restored at_place))
none_before_suc phase from activated restored place e behind (suc earlier) lower inside =
    behind earlier (omega (arith, lower))
      (subst (InPhase phase activated restored) (sym (place_behind from earlier)) inside)

pub first_in_phase-IsFirstOf :
    (phase : RequestPhase) (from activated restored : ℕ) (requests : List PlannedRequest)
    (request : PlannedRequest)
    → first_in_phase phase from activated restored requests ≡ some request
    → IsFirstOf phase activated restored from requests request
unfolding first_in_phase
first_in_phase-IsFirstOf phase from activated restored [] request h = absurd (cc)
first_in_phase-IsFirstOf phase from activated restored (r ∷ requests) request h =
    let test = same RequestPhase-discrete (request_phase from activated restored) phase in
    elim (Bool-cases test) [
      | inl e ↦
          let here_first : r ≡ request = ground (arith, h, e) in
          record {
            place = 0;
            planned = ap some here_first;
            in_phase =
                subst (InPhase phase activated restored) (place_here from)
                  (request_phase-InPhase phase from activated restored e);
            none_before = λ earlier lower. absurd (omega arith);
          }
      | inr e ↦
          let later : first_in_phase phase (from + 1) activated restored requests ≡ some request =
            ground (arith, h, e) in
          let found =
            first_in_phase-IsFirstOf phase (from + 1) activated restored requests request later in
          record {
            place = suc found.place;
            planned = found.planned;
            in_phase =
                subst (InPhase phase activated restored) (place_behind from found.place)
                  found.in_phase;
            none_before =
                none_before_suc phase from activated restored found.place e found.none_before;
          }
    ]
