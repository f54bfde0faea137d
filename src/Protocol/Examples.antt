-- ===== src/Protocol/Examples.antt =====
-- Concrete frames and bytes for the protocol's theorems.
use simferret.Prelude.{
  ◌+◌, ◌≤◌, ◌≡◌, ◌≢◌, refl, Bool, true, false, [], ◌∷◌, ◌++◌, some, Bytes, codes, arith, length,
  All, Result, ok, io_error, invalid_data, fail, ◌==◌, if◌then◌else◌,
}
use simferret.Protocol.Hex.{encode_bytes, decode_bytes, decode_pairs, hex_digit}
use simferret.Protocol.Hex.RoundTrip.{
  AreBytes, decode_bytes-encode_bytes, encode_bytes-decode_bytes,
}
use simferret.Protocol.Framing.{
  Stream, byte, interrupted, ack_written, ack_write_failed, Writer, acknowledge, serial_ack,
  delivers, max_frame_length, newline, to_be_bytes, from_be_bytes, read_exact, read_first,
  read_line, read_acknowledged_line, write_frame, write_line_frame, read_frame_body, read_frame,
  decode_line, read_line_frame, read_acknowledged_line_frame,
}
use simferret.Protocol.Framing.RoundTrip.{
  IsJson, read_frame-write_frame, read_line_frame-write_line_frame,
}
use simferret.Protocol.Framing.Stopped.{bytes_in, IsAcknowledged}
use simferret.Protocol.Framing.Acknowledged.{
  read_acknowledged_line_frame-read_line_frame, acks-read_acknowledged_line_frame,
  read_frame-bounded, read_line_frame-bounded,
}

decode_bytes-encode_bytes_example :
    decode_bytes (encode_bytes (0 ∷ 171 ∷ 255 ∷ [])) 4096 ≡ ok (0 ∷ 171 ∷ 255 ∷ [])
decode_bytes-encode_bytes_example =
    decode_bytes-encode_bytes (0 ∷ 171 ∷ 255 ∷ []) 4096 (ground arith) (omega arith) (omega arith)

abbrev one_byte : Bytes
one_byte = 171 ∷ []

abbrev two_bytes : Bytes
two_bytes = 5 ∷ 6 ∷ []

two_digits : decode_bytes (codes "ab") 1 ≡ ok one_byte
unfolding decode_bytes decode_pairs hex_digit
two_digits = refl

encode_bytes-decode_bytes_example :
    (encode_bytes one_byte ≡ codes "ab") × (length one_byte ≤ 1) × AreBytes one_byte
encode_bytes-decode_bytes_example = encode_bytes-decode_bytes (codes "ab") 1 one_byte two_digits

-- A JSON codec of truth values.
abbrev to_json : Bool → Result Bytes
to_json true = ok (codes "true")
to_json false = ok (codes "false")

abbrev from_json : Bytes → Result Bool
from_json body =
    if length body == 4 then ok true else if length body == 5 then ok false else fail invalid_data

json_reads_back : (v : Bool) (body : Bytes) → to_json v ≡ ok body → from_json body ≡ ok v
json_reads_back true body h = ground arith
json_reads_back false body h = ground arith

json_one_line : (v : Bool) (body : Bytes) → to_json v ≡ ok body → All (λ b. b ≢ newline) body
json_one_line true body h = ground arith
json_one_line false body h = ground arith

json : IsJson to_json from_json
json = record { reads_back = json_reads_back; one_line = json_one_line }

abbrev framed : Bytes
framed = to_be_bytes 4 ++ codes "true"

length_prefix_written : write_frame to_json true ≡ ok framed
unfolding write_frame to_be_bytes
length_prefix_written = refl

read_frame-write_frame_example :
    read_frame from_json (delivers framed ++ interrupted ∷ byte 0 ∷ [])
    ≡ ok (some true, interrupted ∷ byte 0 ∷ [])
read_frame-write_frame_example =
    read_frame-write_frame to_json from_json json true framed (interrupted ∷ byte 0 ∷ [])
      length_prefix_written

newline_written : write_line_frame to_json true ≡ ok (codes "true" ++ newline ∷ [])
unfolding write_line_frame
newline_written = refl

read_line_frame-write_line_frame_example :
    read_line_frame from_json (delivers (codes "true" ++ newline ∷ []) ++ byte 7 ∷ [])
    ≡ ok (some true, byte 7 ∷ [])
read_line_frame-write_line_frame_example =
    read_line_frame-write_line_frame to_json from_json json true (codes "true" ++ newline ∷ [])
      (byte 7 ∷ []) newline_written

abbrev line_stream : Stream
line_stream = interrupted ∷ delivers (codes "true" ++ newline ∷ []) ++ byte 7 ∷ []

-- A channel that takes two acknowledgements and fails to write the third.
abbrev full_channel : Writer
full_channel = ack_written ∷ ack_written ∷ ack_write_failed (io_error invalid_data) ∷ []

read_acknowledged_line_frame-read_line_frame_example :
    IsAcknowledged
      (bytes_in line_stream)
      full_channel
      (read_acknowledged_line_frame from_json line_stream full_channel)
      (read_line_frame from_json line_stream)
read_acknowledged_line_frame-read_line_frame_example =
    read_acknowledged_line_frame-read_line_frame from_json line_stream full_channel

third_acknowledgement-fails :
    read_acknowledged_line_frame from_json line_stream full_channel
    ≡ (fail invalid_data, serial_ack ∷ serial_ack ∷ [])
unfolding read_acknowledged_line_frame read_acknowledged_line acknowledge decode_line
third_acknowledgement-fails = refl

line_acknowledged :
    (read_acknowledged_line_frame from_json line_stream []).0 ≡ ok (some true, byte 7 ∷ [])
unfolding read_acknowledged_line_frame read_acknowledged_line acknowledge decode_line
line_acknowledged = refl

acks-read_acknowledged_line_frame_example :
    length (read_acknowledged_line_frame from_json line_stream []).1 + bytes_in (byte 7 ∷ [])
    ≡ bytes_in line_stream
acks-read_acknowledged_line_frame_example =
    acks-read_acknowledged_line_frame from_json line_stream [] (some true) (byte 7 ∷ [])
      line_acknowledged

frame_read :
    read_frame (λ b. ok b) (delivers (to_be_bytes 2 ++ two_bytes)) ≡ ok (some two_bytes, [])
unfolding read_frame read_frame_body read_first read_exact from_be_bytes to_be_bytes
frame_read = refl

read_frame-bounded_example : length two_bytes ≤ max_frame_length
read_frame-bounded_example =
    read_frame-bounded (delivers (to_be_bytes 2 ++ two_bytes)) [] two_bytes frame_read

line_read : read_line_frame (λ b. ok b) (delivers (5 ∷ 6 ∷ newline ∷ [])) ≡ ok (some two_bytes, [])
unfolding read_line_frame read_line decode_line
line_read = refl

read_line_frame-bounded_example : length two_bytes ≤ max_frame_length
read_line_frame-bounded_example =
    read_line_frame-bounded (delivers (5 ∷ 6 ∷ newline ∷ [])) [] two_bytes line_read
