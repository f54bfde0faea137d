-- ===== src/Protocol/Framing.antt =====
-- crates/simferret/src/protocol.rs: length-prefixed and line-delimited frames. A reader is the
-- sequence of outcomes of its reads; after the last it is at its end. The writer of a frame is what
-- it was given; the writer of acknowledgements is the sequence of outcomes of its writes.
pub mod RoundTrip
pub mod Stopped
pub mod Acknowledged
use simferret.Prelude.{
  ℕ, zero, suc, ◌+◌, ◌-◌, ◌*◌, ◌/◌, ◌%◌, ◌^◌, Bool, true, List, [], ◌∷◌, ◌++◌, Option, none, some,
  Bytes, ltb, leb, ◌==◌, if◌then◌else◌, length, Result, ok, err, IoError, invalid_input,
  invalid_data, unexpected_eof, fail, refuse_if, ◌>>=◌, ◌>>◌, map,
}
use simferret.Protocol.Event.{current_version}

-- One `read` into a one-byte buffer: a byte, `ErrorKind::Interrupted`, or another error.
pub data Read : Type 0 where
  byte : ℕ → Read
  interrupted : Read
  failed : IoError → Read

abbrev pub Stream : Type 0
Stream = List Read

-- The stream that delivers some bytes without a disturbance.
abbrev pub delivers : Bytes → Stream
delivers = map byte

-- `MAX_FRAME_LENGTH` and `SERIAL_ACK`
abbrev pub max_frame_length : ℕ
max_frame_length = 1024 * 1024

abbrev pub serial_ack : ℕ
serial_ack = 0

abbrev pub newline : ℕ
newline = 10

-- `(n as u32).to_be_bytes()` and `u32::from_be_bytes`
unfoldable pub to_be_bytes : ℕ → Bytes
to_be_bytes n = n / 2 ^ 24 % 256 ∷ n / 2 ^ 16 % 256 ∷ n / 2 ^ 8 % 256 ∷ n % 256 ∷ []

unfoldable pub from_be_bytes : Bytes → ℕ
from_be_bytes (a ∷ b ∷ c ∷ d ∷ []) = a * 2 ^ 24 + b * 2 ^ 16 + c * 2 ^ 8 + d
from_be_bytes _ = 0

-- `read_exact`, which retries an interrupted read: that many bytes, and what is left to read.
unfoldable pub read_exact : ℕ → Stream → Result (Bytes × Stream)
read_exact zero stream = ok ([], stream)
read_exact (suc n) [] = fail unexpected_eof
read_exact (suc n) (interrupted ∷ stream) = read_exact (suc n) stream
read_exact (suc n) (failed error ∷ stream) = err error
read_exact (suc n) (byte b ∷ stream) = do (bytes, rest) ← read_exact n stream; ok (b ∷ bytes, rest)

-- The first byte of a frame: the end of the stream is no error there.
unfoldable pub read_first : Stream → Result (Option ℕ × Stream)
read_first [] = ok (none, [])
read_first (interrupted ∷ stream) = read_first stream
read_first (failed error ∷ stream) = err error
read_first (byte b ∷ stream) = ok (some b, stream)

-- The loop of `read_line_frame`: the line so far, then the line and what is left to read.
unfoldable pub read_line : Bytes → Stream → Result (Option Bytes × Stream)
read_line [] [] = ok (none, [])
read_line (b ∷ body) [] = fail unexpected_eof
read_line body (interrupted ∷ stream) = read_line body stream
read_line body (failed error ∷ stream) = err error
read_line body (byte b ∷ stream) =
    let rest = read_line (body ++ b ∷ []) stream in
    if b == newline
    then ok (some body, stream)
    else if leb max_frame_length (length body)
    then fail invalid_data
    else rest

-- `write_all(&[SERIAL_ACK])?` and `flush()?` of one acknowledgement: both succeed, or the write
-- fails, or the flush fails behind the write.
pub data Acknowledgement : Type 0 where
  ack_written : Acknowledgement
  ack_write_failed : IoError → Acknowledgement
  ack_flush_failed : IoError → Acknowledgement

-- The outcomes of the acknowledgements in their order; those behind the last succeed.
abbrev pub Writer : Type 0
Writer = List Acknowledgement

abbrev pub next_outcome : Writer → Acknowledgement
next_outcome [] = ack_written
next_outcome (outcome ∷ writer) = outcome

abbrev pub later_outcomes : Writer → Writer
later_outcomes [] = []
later_outcomes (outcome ∷ writer) = writer

-- An acknowledgement before the rest of the loop: an error returns at once.
unfoldable pub acknowledge {ℓ} :
    {A : Type ℓ} → Acknowledgement → Result A × Bytes → Result A × Bytes
acknowledge ack_written (result, acks) = (result, serial_ack ∷ acks)
acknowledge (ack_write_failed error) behind = (err error, [])
acknowledge (ack_flush_failed error) behind = (err error, serial_ack ∷ [])

-- The loop of `read_acknowledged_line_frame`, with the acknowledgements that it wrote.
unfoldable pub read_acknowledged_line :
    Bytes → Stream → Writer → Result (Option Bytes × Stream) × Bytes
read_acknowledged_line [] [] writer = (ok (none, []), [])
read_acknowledged_line (b ∷ body) [] writer = (fail unexpected_eof, [])
read_acknowledged_line body (interrupted ∷ stream) writer =
    read_acknowledged_line body stream writer
read_acknowledged_line body (failed error ∷ stream) writer = (err error, [])
read_acknowledged_line body (byte b ∷ stream) writer =
    let rest = read_acknowledged_line (body ++ b ∷ []) stream (later_outcomes writer) in
    acknowledge (next_outcome writer) (
      if b == newline
      then (ok (some body, stream), [])
      else if leb max_frame_length (length body)
      then (fail invalid_data, [])
      else rest)

-- `serde_json::to_vec` and `serde_json::from_slice` of the frame's type.
module _ {T : Type 0} (to_vec : T → Result Bytes) where
  -- `write_frame`: the bytes that it writes.
  unfoldable pub write_frame : T → Result Bytes
  write_frame value = do
    body ← to_vec value
    refuse_if (ltb max_frame_length (length body)) invalid_input
    ok (to_be_bytes (length body) ++ body)

  -- `write_line_frame`
  unfoldable pub write_line_frame : T → Result Bytes
  write_line_frame value = do
    body ← to_vec value
    refuse_if (ltb max_frame_length (length body)) invalid_input
    ok (body ++ newline ∷ [])

module _ {T : Type 0} (from_slice : Bytes → Result T) where
  unfoldable pub read_frame_body : Option ℕ × Stream → Result (Option T × Stream)
  read_frame_body (none, stream) = ok (none, stream)
  read_frame_body (some b, stream) = do
    (bytes, stream') ← read_exact 3 stream
    let size = from_be_bytes (b ∷ bytes)
    refuse_if (ltb max_frame_length size) invalid_data
    (body, stream'') ← read_exact size stream'
    value ← from_slice body
    ok (some value, stream'')

  -- `read_frame`
  unfoldable pub read_frame : Stream → Result (Option T × Stream)
  unfolding read_frame_body
  read_frame stream = do first ← read_first stream; read_frame_body first

  unfoldable pub decode_line : Option Bytes × Stream → Result (Option T × Stream)
  decode_line (none, stream) = ok (none, stream)
  decode_line (some body, stream) = do value ← from_slice body; ok (some value, stream)

  -- `read_line_frame`
  unfoldable pub read_line_frame : Stream → Result (Option T × Stream)
  unfolding decode_line
  read_line_frame stream = do line ← read_line [] stream; decode_line line

  -- `read_acknowledged_line_frame`, with the acknowledgements that it wrote.
  unfoldable pub read_acknowledged_line_frame : Stream → Writer → Result (Option T × Stream) × Bytes
  unfolding decode_line
  read_acknowledged_line_frame stream writer =
      let (line, acks) = read_acknowledged_line [] stream writer in (line >>= decode_line, acks)

-- `require_version`
unfoldable pub require_version : ℕ → Result (Unit {0})
require_version version = if version == current_version then ok tt else fail invalid_data
