-- ===== src/Scenario/Requests.antt =====
-- The requests of a network plan of crates/simferret/src/scenario.rs and the request check of the
-- guest agent, crates/simferret/src/agent.rs.
use simferret.Prelude.{
  ℕ, zero, suc, ◌+◌, ◌-◌, ◌*◌, ◌/◌, ◌%◌, ◌≤◌, ◌<◌, ◌≡◌, refl, Bool, true, ◌&&◌, ◌||◌, leb, ◌==◌,
  if◌then◌else◌, [], ◌∷◌, ◌++◌, some, Text, codes, arith, all, All, length, length-append, hex_char,
  hex_fixed, decimal, decimal_rounds, zeros, padded, ok,
}
use simferret.Scenario.Types.{Scenario, PlannedRequest, ChoicePlan, max_request_data_length}
use simferret.Scenario.Random.{next, byte_at, hex_rounds, hex_bytes}
use simferret.Scenario.Validate.{validate}
use simferret.Scenario.Choices.{request_name, plan_requests, choices}
use simferret.Scenario.Placement.{
  validate-IsValid, choose_activation-range, choose_restoration-range,
}
use simferret.Agent.Dispatch.{is_id_byte, is_valid_request}

-- A text of a request id.
abbrev IsId : Text → Type 0
IsId text = all is_id_byte text ≡ true

IsId-append : (a b : Text) → IsId a → IsId b → IsId (a ++ b)
IsId-append [] b h k = k
IsId-append (x ∷ a) b h k = ground (arith, IsId-append a b)

hex_char-is_id : (d : ℕ) → d < 16 → is_id_byte (hex_char d) ≡ true
unfolding is_id_byte
hex_char-is_id d h = ground arith

digit-is_id : (d : ℕ) → d < 10 → is_id_byte (b'0' + d) ≡ true
unfolding is_id_byte
digit-is_id d h = ground arith

hex_fixed-IsId : (width n : ℕ) → IsId (hex_fixed width n)
unfolding hex_fixed
hex_fixed-IsId zero n = refl
hex_fixed-IsId (suc width) n =
    IsId-append (hex_fixed width (n / 16)) (hex_char (n % 16) ∷ []) (hex_fixed-IsId width (n / 16))
      (rw (hex_char-is_id (n % 16) (omega arith)) refl)

decimal_rounds-IsId : (fuel n : ℕ) → IsId (decimal_rounds fuel n)
unfolding decimal_rounds
decimal_rounds-IsId zero n = refl
decimal_rounds-IsId (suc fuel) n = ground (
  arith,
  digit-is_id n,
  IsId-append (decimal_rounds fuel (n / 10)) ((b'0' + n % 10) ∷ [])
      (decimal_rounds-IsId fuel (n / 10)) (rw (digit-is_id (n % 10) (omega arith)) refl),
)

zeros-IsId : (n : ℕ) → IsId (zeros n)
unfolding is_id_byte
zeros-IsId zero = refl
zeros-IsId (suc n) = zeros-IsId n

length-hex_fixed : (width n : ℕ) → length (hex_fixed width n) ≡ width
unfolding hex_fixed
length-hex_fixed zero n = refl
length-hex_fixed (suc width) n = omega (
  arith,
  length-append (hex_fixed width (n / 16)) (hex_char (n % 16) ∷ []),
  length-hex_fixed width (n / 16),
)

length-decimal_rounds : (fuel n : ℕ) → length (decimal_rounds fuel n) ≤ fuel
unfolding decimal_rounds
length-decimal_rounds zero n = omega arith
length-decimal_rounds (suc fuel) n = ground (
  arith,
  length-append (decimal_rounds fuel (n / 10)) ((b'0' + n % 10) ∷ []),
  length-decimal_rounds fuel (n / 10),
)

length-zeros : (n : ℕ) → length (zeros n) ≡ n
length-zeros zero = refl
length-zeros (suc n) = omega (arith, length-zeros n)

length-hex_rounds :
    (rounds index value state : ℕ) → length (hex_rounds rounds index value state).0 ≡ 2 * rounds
unfolding hex_rounds
length-hex_rounds zero index value state = refl
length-hex_rounds (suc rounds) index value state =
    omega (arith, length-hex_rounds rounds (index + 1) _ _)

abbrev dash : Text
dash = codes "-"

abbrev request_prefix : Text
request_prefix = codes "request-"

decimal-IsId : (n : ℕ) → IsId (decimal n)
unfolding decimal
decimal-IsId n = decimal_rounds-IsId (suc n) n

length-decimal : (n : ℕ) → length (decimal n) ≤ suc n
unfolding decimal
length-decimal n = length-decimal_rounds (suc n) n

padded-IsId : (width : ℕ) (text : Text) → IsId text → IsId (padded width text)
unfolding padded
padded-IsId width text h =
    IsId-append (zeros (width - length text)) text (zeros-IsId (width - length text)) h

length-padded : (width : ℕ) (text : Text) → length (padded width text) ≤ width + length text
unfolding padded
length-padded width text =
    omega
      (arith, length-append (zeros (width - length text)) text, length-zeros (width - length text))

request_name-IsId : (index nonce : ℕ) → IsId (request_name index nonce)
unfolding request_name is_id_byte
request_name-IsId index nonce =
    let front = request_prefix ++ padded 4 (decimal index) in
    IsId-append (front ++ dash) (hex_fixed 16 nonce)
      (IsId-append front dash
        (IsId-append request_prefix (padded 4 (decimal index)) refl
          (padded-IsId 4 (decimal index) (decimal-IsId index)))
        refl)
      (hex_fixed-IsId 16 nonce)

length-request_name :
    (index nonce : ℕ)
    → (1 ≤ length (request_name index nonce)) × (length (request_name index nonce) ≤ 30 + index)
unfolding request_name
length-request_name index nonce =
    let digits = padded 4 (decimal index) in
    ground (
      arith,
      length-append ((request_prefix ++ digits) ++ dash) (hex_fixed 16 nonce),
      length-append (request_prefix ++ digits) dash,
      length-append request_prefix digits,
      length-padded 4 (decimal index),
      length-decimal index,
      length-hex_fixed 16 nonce,
    )

-- A lowercase hexadecimal digit.
abbrev pub is_hex : ℕ → Bool
is_hex c = (leb b'0' c && leb c b'9') || (leb b'a' c && leb c b'f')

hex_char-is_hex : (d : ℕ) → d < 16 → is_hex (hex_char d) ≡ true
hex_char-is_hex d h = ground arith

hex_rounds-is_hex :
    (rounds index value state : ℕ) → all is_hex (hex_rounds rounds index value state).0 ≡ true
unfolding hex_rounds byte_at
hex_rounds-is_hex zero index value state = refl
hex_rounds-is_hex (suc rounds) index value state =
    let drawn = if index % 8 == 0 then next state else (value, state) in
    let byte = byte_at drawn.0 index in
    rw (hex_char-is_hex (byte / 16) (omega arith), hex_char-is_hex (byte % 16) (omega arith))
      (hex_rounds-is_hex rounds (index + 1) drawn.0 drawn.1)

-- A request that the agent's check accepts, with a payload of two lowercase hexadecimal digits for
-- each byte.
pub record IsAccepted (payload_bytes : ℕ) (r : PlannedRequest) : Type 0 where
  pub accepted : is_valid_request r.request_id r.payload ≡ true
  pub payload_length : length r.payload ≡ 2 * payload_bytes
  pub payload_digits : all is_hex r.payload ≡ true

accepts :
    (id payload : Text)
    → IsId id
    → 1 ≤ length id
    → length id + length payload ≤ max_request_data_length
    → is_valid_request id payload ≡ true
unfolding is_valid_request
accepts id payload h some_id fits = ground arith

plan_requests-IsAccepted :
    (rounds index payload_bytes state : ℕ)
    → index + rounds ≤ 256
    → payload_bytes ≤ 16384
    → All (IsAccepted payload_bytes) (plan_requests rounds index payload_bytes state)
unfolding plan_requests hex_bytes
plan_requests-IsAccepted zero index payload_bytes state h k = tt
plan_requests-IsAccepted (suc rounds) index payload_bytes state h k =
    let nonce = (next state).0 in
    let payload_state = (next state).1 in
    let measured = length-hex_rounds payload_bytes 0 0 payload_state in
    let (some_id, bounded) = length-request_name index nonce in
    (
      record {
        accepted =
            accepts (request_name index nonce) (hex_rounds payload_bytes 0 0 payload_state).0
              (request_name-IsId index nonce) some_id (omega arith);
        payload_length = measured;
        payload_digits = hex_rounds-is_hex payload_bytes 0 0 payload_state;
      },
      plan_requests-IsAccepted rounds (index + 1) payload_bytes _ (omega arith) k,
    )

-- For every accepted network scenario and every seed the plan is made, and each of its requests has
-- a payload of two lowercase hexadecimal digits for each payload byte and passes the agent's own
-- check of requests.
pub choices-IsAccepted :
    (s : Scenario) (seed : ℕ)
    → validate s ≡ ok tt
    → (p : ChoicePlan) × (choices s seed ≡ some p) × All (IsAccepted s.payload_bytes) p.requests
unfolding choices
choices-IsAccepted s seed h =
    let v = (validate-IsValid s).0 h in
    let (a, state, ea, after_first, before_last) =
      choose_activation-range s.request_count seed v.limits.enough_requests in
    let (r, state', er, ordered, inside) =
      choose_restoration-range s.request_count a state before_last in
    (
      record {
        version = 1;
        seed = seed;
        outage_activation_request_index = a;
        restoration_request_index = r;
        requests = plan_requests s.request_count 0 s.payload_bytes state';
      },
      rw (ea, er),
      plan_requests-IsAccepted s.request_count 0 s.payload_bytes state'
          (omega (arith, v.limits.request_limit)) v.limits.payload_limit,
    )
