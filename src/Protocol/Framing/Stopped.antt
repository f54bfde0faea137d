-- ===== src/Protocol/Framing/Stopped.antt =====
-- The two line readers of crates/simferret/src/protocol.rs side by side, with the writes of the
-- acknowledgements that may fail.
use simferret.Prelude.{
  ℕ, suc, ◌+◌, ◌<◌, ◌≡◌, refl, ap, ◌⊎◌, inl, inr, [], ◌∷◌, ◌++◌, Option, some, Bytes, arith, length,
  length-append, All, take, Bool-cases, Result, ok, err, fail, IoError, leb, ◌==◌, if◌then◌else◌,
  invalid_data,
}
use simferret.Protocol.Framing.{
  Stream, byte, interrupted, failed, Acknowledgement, ack_written, ack_write_failed,
  ack_flush_failed, Writer, next_outcome, later_outcomes, acknowledge, newline, max_frame_length,
  read_line, read_acknowledged_line,
}

-- The bytes among some reads.
abbrev pub bytes_in : Stream → ℕ
bytes_in [] = 0
bytes_in (byte b ∷ stream) = suc (bytes_in stream)
bytes_in (interrupted ∷ stream) = bytes_in stream
bytes_in (failed error ∷ stream) = bytes_in stream

-- The reader went on as the plain one: each acknowledgement that it wrote succeeded.
pub record IsUndisturbed {A : Type 0} (writer : Writer) (got : Result A × Bytes) (plain : Result A)
    : Type 0 where
  pub same_result : got.0 ≡ plain
  pub succeeded : All (λ outcome. outcome ≡ ack_written) (take (length got.1) writer)

-- The errors that an acknowledgement returns, and the bytes that it wrote before.
pub data FailsWith : Acknowledgement → IoError → ℕ → Type 0 where
  on_write : (error : IoError) → FailsWith (ack_write_failed error) error 0
  on_flush : (error : IoError) → FailsWith (ack_flush_failed error) error 1

-- The reader stopped at the first acknowledgement that failed, for one of the bytes that it could
-- receive, with the error of it.
pub record IsStopped {A : Type 0} (received : ℕ) (writer : Writer) (got : Result A × Bytes)
    : Type 0 where
  pub front : Writer
  pub failure : Acknowledgement
  pub back : Writer
  pub split : writer ≡ front ++ failure ∷ back
  pub succeeded : All (λ outcome. outcome ≡ ack_written) front
  pub error : IoError
  pub written : ℕ
  pub fails : FailsWith failure error written
  pub returned : got.0 ≡ err error
  pub acknowledged : length got.1 ≡ length front + written
  pub reached : length front < received

abbrev pub IsAcknowledged : {A : Type 0} → ℕ → Writer → Result A × Bytes → Result A → Type 0
IsAcknowledged received writer got plain =
    IsUndisturbed writer got plain ⊎ IsStopped received writer got

ended-IsAcknowledged :
    {A : Type 0} (received : ℕ) (writer : Writer) (result : Result A)
    → IsAcknowledged received writer (result, []) result
ended-IsAcknowledged received writer result = inl (record { same_result = refl; succeeded = tt })

acknowledge-IsAcknowledged :
    {A : Type 0} (received : ℕ) (writer : Writer) (got : Result A × Bytes) (plain : Result A)
    → IsAcknowledged received (later_outcomes writer) got plain
    → IsAcknowledged (suc received) writer (acknowledge (next_outcome writer) got) plain
unfolding acknowledge
acknowledge-IsAcknowledged received [] got plain (inl u) =
    inl (record { same_result = u.same_result; succeeded = tt })
acknowledge-IsAcknowledged received [] got plain (inr s) =
    absurd (ground (arith, ap length s.split, length-append s.front (s.failure ∷ s.back)))
acknowledge-IsAcknowledged received (ack_written ∷ writer) got plain (inl u) =
    inl (record { same_result = u.same_result; succeeded = (refl, u.succeeded) })
acknowledge-IsAcknowledged received (ack_written ∷ writer) got plain (inr s) = inr (record {
  front = ack_written ∷ s.front;
  failure = s.failure;
  back = s.back;
  split = ap (λ w. ack_written ∷ w) s.split;
  succeeded = (refl, s.succeeded);
  error = s.error;
  written = s.written;
  fails = s.fails;
  returned = s.returned;
  acknowledged = omega (arith, s.acknowledged);
  reached = omega (arith, s.reached);
})
acknowledge-IsAcknowledged received (ack_write_failed error ∷ writer) got plain h = inr (record {
  front = [];
  failure = ack_write_failed error;
  back = writer;
  split = refl;
  succeeded = tt;
  error = error;
  written = 0;
  fails = on_write error;
  returned = refl;
  acknowledged = refl;
  reached = omega arith;
})
acknowledge-IsAcknowledged received (ack_flush_failed error ∷ writer) got plain h = inr (record {
  front = [];
  failure = ack_flush_failed error;
  back = writer;
  split = refl;
  succeeded = tt;
  error = error;
  written = 1;
  fails = on_flush error;
  returned = refl;
  acknowledged = refl;
  reached = omega arith;
})

-- One byte of either reader.
byte-IsAcknowledged :
    (body : Bytes) (c : ℕ) (stream : Stream) (writer : Writer)
    (got : Result (Option Bytes × Stream) × Bytes) (plain : Result (Option Bytes × Stream))
    → IsAcknowledged (bytes_in stream) (later_outcomes writer) got plain
    → IsAcknowledged
        (suc (bytes_in stream))
        writer
        (acknowledge (next_outcome writer) (
          if c == newline
          then (ok (some body, stream), [])
          else if leb max_frame_length (length body)
          then (fail invalid_data, [])
          else got))
        (if c == newline
          then ok (some body, stream)
          else if leb max_frame_length (length body)
          then fail invalid_data
          else plain)
byte-IsAcknowledged body c stream writer got plain h =
    acknowledge-IsAcknowledged (bytes_in stream) writer _ _ (elim (Bool-cases (c == newline)) [
      | inl e ↦ rw e (ended-IsAcknowledged (bytes_in stream) (later_outcomes writer) _)
      | inr e ↦ elim (Bool-cases (leb max_frame_length (length body))) [
        | inl e' ↦ rw (e, e') (ended-IsAcknowledged (bytes_in stream) (later_outcomes writer) _)
        | inr e' ↦ rw (e, e') h
      ]
    ])

pub read_acknowledged_line-read_line :
    (body : Bytes) (stream : Stream) (writer : Writer)
    → IsAcknowledged
        (bytes_in stream)
        writer
        (read_acknowledged_line body stream writer)
        (read_line body stream)
unfolding read_acknowledged_line read_line
read_acknowledged_line-read_line [] [] writer = ended-IsAcknowledged 0 writer _
read_acknowledged_line-read_line (b ∷ body) [] writer = ended-IsAcknowledged 0 writer _
read_acknowledged_line-read_line [] (interrupted ∷ stream) writer =
    read_acknowledged_line-read_line [] stream writer
read_acknowledged_line-read_line (b ∷ body) (interrupted ∷ stream) writer =
    read_acknowledged_line-read_line (b ∷ body) stream writer
read_acknowledged_line-read_line [] (failed error ∷ stream) writer =
    ended-IsAcknowledged (bytes_in stream) writer _
read_acknowledged_line-read_line (b ∷ body) (failed error ∷ stream) writer =
    ended-IsAcknowledged (bytes_in stream) writer _
read_acknowledged_line-read_line [] (byte c ∷ stream) writer =
    byte-IsAcknowledged [] c stream writer _ _
      (read_acknowledged_line-read_line (c ∷ []) stream (later_outcomes writer))
read_acknowledged_line-read_line (b ∷ body) (byte c ∷ stream) writer =
    byte-IsAcknowledged (b ∷ body) c stream writer _ _
      (read_acknowledged_line-read_line ((b ∷ body) ++ c ∷ []) stream (later_outcomes writer))
