-- ===== src/Protocol/Framing/Acknowledged.antt =====
-- The acknowledged reader of crates/simferret/src/protocol.rs against the plain one, and the size of
-- what either hands to the decoder.
use simferret.Prelude.{
  ℕ, zero, suc, ◌+◌, ◌≤◌, ◌≡◌, refl, ap, inl, inr, [], ◌∷◌, ◌++◌, Option, none, some, Bytes, arith,
  length, length-append, Result, ok, >>=-eq-ok, ◌>>=◌, ltb, refuse_if, invalid_data, ◌>>◌,
}
use simferret.Protocol.Framing.Stopped.{bytes_in, IsAcknowledged, read_acknowledged_line-read_line}
use simferret.Protocol.Framing.{
  Stream, byte, interrupted, failed, Acknowledgement, ack_written, ack_write_failed,
  ack_flush_failed, Writer, next_outcome, later_outcomes, acknowledge, max_frame_length,
  from_be_bytes, read_exact, read_first, read_line, read_acknowledged_line, read_frame_body,
  read_frame, decode_line, read_line_frame, read_acknowledged_line_frame,
}

-- Behind an acknowledgement a result is one of the rest of the loop.
acknowledge-ok :
    {A : Type 0} (outcome : Acknowledgement) (behind : Result A × Bytes) (value : A)
    → (acknowledge outcome behind).0 ≡ ok value
    → (behind.0 ≡ ok value) × (length (acknowledge outcome behind).1 ≡ suc (length behind.1))
unfolding acknowledge
acknowledge-ok ack_written behind value h = (h, refl)
acknowledge-ok (ack_write_failed error) behind value h = absurd (cc)
acknowledge-ok (ack_flush_failed error) behind value h = absurd (cc)

acks-read_acknowledged_line :
    (body : Bytes) (stream : Stream) (writer : Writer) (rest : Stream) (line : Option Bytes)
    → (read_acknowledged_line body stream writer).0 ≡ ok (line, rest)
    → length (read_acknowledged_line body stream writer).1 + bytes_in rest ≡ bytes_in stream
unfolding read_acknowledged_line
acks-read_acknowledged_line [] [] writer rest line h = ground arith
acks-read_acknowledged_line (b ∷ body) [] writer rest line h = absurd (cc)
acks-read_acknowledged_line [] (interrupted ∷ stream) writer rest line h =
    acks-read_acknowledged_line [] stream writer rest line h
acks-read_acknowledged_line (b ∷ body) (interrupted ∷ stream) writer rest line h =
    acks-read_acknowledged_line (b ∷ body) stream writer rest line h
acks-read_acknowledged_line [] (failed error ∷ stream) writer rest line h = absurd (cc)
acks-read_acknowledged_line (b ∷ body) (failed error ∷ stream) writer rest line h = absurd (cc)
acks-read_acknowledged_line [] (byte c ∷ stream) writer rest line h =
    let (behind, counted) = acknowledge-ok (next_outcome writer) _ (line, rest) h in
    ground (
      arith,
      behind,
      counted,
      acks-read_acknowledged_line (c ∷ []) stream (later_outcomes writer) rest line,
    )
acks-read_acknowledged_line (b ∷ body) (byte c ∷ stream) writer rest line h =
    let (behind, counted) = acknowledge-ok (next_outcome writer) _ (line, rest) h in
    ground (
      arith,
      behind,
      counted,
      acks-read_acknowledged_line ((b ∷ body) ++ c ∷ []) stream (later_outcomes writer) rest line,
    )

read_line-bounded :
    (body : Bytes) (stream rest : Stream) (line : Bytes)
    → length body ≤ max_frame_length
    → read_line body stream ≡ ok (some line, rest)
    → length line ≤ max_frame_length
unfolding read_line
read_line-bounded [] [] rest line fits h = absurd (ground arith)
read_line-bounded (b ∷ body) [] rest line fits h = absurd (cc)
read_line-bounded [] (interrupted ∷ stream) rest line fits h =
    read_line-bounded [] stream rest line fits h
read_line-bounded (b ∷ body) (interrupted ∷ stream) rest line fits h =
    read_line-bounded (b ∷ body) stream rest line fits h
read_line-bounded [] (failed error ∷ stream) rest line fits h = absurd (cc)
read_line-bounded (b ∷ body) (failed error ∷ stream) rest line fits h = absurd (cc)
read_line-bounded [] (byte c ∷ stream) rest line fits h =
    ground (arith, read_line-bounded (c ∷ []) stream rest line)
read_line-bounded (b ∷ body) (byte c ∷ stream) rest line fits h = ground (
  arith,
  read_line-bounded ((b ∷ body) ++ c ∷ []) stream rest line,
  length-append (b ∷ body) (c ∷ []),
)

length-read_exact :
    (n : ℕ) (stream rest : Stream) (bytes : Bytes)
    → read_exact n stream ≡ ok (bytes, rest)
    → length bytes ≡ n
unfolding read_exact
length-read_exact zero stream rest bytes h = ground arith
length-read_exact (suc n) [] rest bytes h = absurd (cc)
length-read_exact (suc n) (interrupted ∷ stream) rest bytes h =
    length-read_exact (suc n) stream rest bytes h
length-read_exact (suc n) (failed error ∷ stream) rest bytes h = absurd (cc)
length-read_exact (suc n) (byte b ∷ stream) rest bytes h =
    let ((tail, left), e, shape) = >>=-eq-ok (read_exact n stream) (λ r. ok (b ∷ r.0, r.1)) h in
    ground (arith, length-read_exact n stream left tail e, shape)

module _ {T : Type 0} (from_slice : Bytes → Result T) (stream : Stream) where
  -- The acknowledged reader returns what the plain reader returns on the same stream, value, error
  -- and rest alike, and every acknowledgement that it wrote succeeded; or it stopped at the first
  -- acknowledgement that failed, for a byte of the stream, and returned the error of that write or
  -- flush, with the acknowledgements that were written until then.
  pub read_acknowledged_line_frame-read_line_frame :
      (writer : Writer)
      → IsAcknowledged
          (bytes_in stream)
          writer
          (read_acknowledged_line_frame from_slice stream writer)
          (read_line_frame from_slice stream)
  unfolding read_acknowledged_line_frame read_line_frame
  read_acknowledged_line_frame-read_line_frame writer =
      elim (read_acknowledged_line-read_line [] stream writer) [
        | inl u ↦ inl (record {
          same_result = ap (λ r. r >>= decode_line from_slice) u.same_result;
          succeeded = u.succeeded;
        })
        | inr s ↦ inr (record {
          front = s.front;
          failure = s.failure;
          back = s.back;
          split = s.split;
          succeeded = s.succeeded;
          error = s.error;
          written = s.written;
          fails = s.fails;
          returned = ap (λ r. r >>= decode_line from_slice) s.returned;
          acknowledged = s.acknowledged;
          reached = s.reached;
        })
      ]

  decode_line-rest :
      (result : Option T) (rest : Stream) (line : Option Bytes) (left : Stream)
      → decode_line from_slice (line, left) ≡ ok (result, rest)
      → left ≡ rest
  unfolding decode_line
  decode_line-rest result rest none left h = ground arith
  decode_line-rest result rest (some body) left h = ground arith

  -- When it returns a frame, or the clean end, it has written one acknowledgement for each byte
  -- that it took from the stream.
  pub acks-read_acknowledged_line_frame :
      (writer : Writer) (result : Option T) (rest : Stream)
      → (read_acknowledged_line_frame from_slice stream writer).0 ≡ ok (result, rest)
      → length (read_acknowledged_line_frame from_slice stream writer).1 + bytes_in rest
        ≡ bytes_in stream
  unfolding read_acknowledged_line_frame
  acks-read_acknowledged_line_frame writer result rest h =
      let (got, e, decoded) =
        >>=-eq-ok (read_acknowledged_line [] stream writer).0 (decode_line from_slice) h in
      ground (
        arith,
        acks-read_acknowledged_line [] stream writer got.1 got.0 e,
        decode_line-rest result rest got.0 got.1 decoded,
      )

abbrev whole_body : Bytes × Stream → Result (Option Bytes × Stream)
whole_body p = ok (some p.0, p.1)

-- What `read_frame_body` does behind the length's three last bytes.
abbrev sized_body : ℕ → Bytes × Stream → Result (Option Bytes × Stream)
sized_body b r = do
  let size = from_be_bytes (b ∷ r.0)
  refuse_if (ltb max_frame_length size) invalid_data
  p ← read_exact size r.1
  whole_body p

read_frame_body-bounded :
    (first : Option ℕ) (stream rest : Stream) (body : Bytes)
    → read_frame_body (λ b. ok b) (first, stream) ≡ ok (some body, rest)
    → length body ≤ max_frame_length
unfolding read_frame_body
read_frame_body-bounded none stream rest body h = absurd (ground arith)
read_frame_body-bounded (some b) stream rest body h =
    let (r, e, h₁) = >>=-eq-ok (read_exact 3 stream) (sized_body b) h in
    let (s, e', h₂) =
      >>=-eq-ok (read_exact (from_be_bytes (b ∷ r.0)) r.1) whole_body {b = (some body, rest)}
        (ground (arith, h₁)) in
    ground (arith, length-read_exact (from_be_bytes (b ∷ r.0)) r.1 s.1 s.0 e', h₁, h₂)

-- The length-prefixed reader hands no more than the frame limit to its decoder: with a decoder that
-- returns the bytes themselves, every frame that it returns is within the limit.
pub read_frame-bounded :
    (stream rest : Stream) (body : Bytes)
    → read_frame (λ b. ok b) stream ≡ ok (some body, rest)
    → length body ≤ max_frame_length
unfolding read_frame
read_frame-bounded stream rest body h =
    let (r, e, h₁) = >>=-eq-ok (read_first stream) (read_frame_body (λ b. ok b)) h in
    read_frame_body-bounded r.0 r.1 rest body h₁

decode_line-some :
    (line : Option Bytes) (left rest : Stream) (body : Bytes)
    → decode_line (λ b. ok b) (line, left) ≡ ok (some body, rest)
    → line ≡ some body
unfolding decode_line
decode_line-some none left rest body h = absurd (ground arith)
decode_line-some (some l) left rest body h = ground arith

-- Nor does the line-delimited reader hand more than the frame limit to its decoder.
pub read_line_frame-bounded :
    (stream rest : Stream) (body : Bytes)
    → read_line_frame (λ b. ok b) stream ≡ ok (some body, rest)
    → length body ≤ max_frame_length
unfolding read_line_frame
read_line_frame-bounded stream rest body h =
    let (r, e, h₁) = >>=-eq-ok (read_line [] stream) (decode_line (λ b. ok b)) h in
    read_line-bounded [] stream r.1 body (omega arith)
      (cc (e, decode_line-some r.0 r.1 rest body h₁))
