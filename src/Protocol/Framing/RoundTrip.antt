-- ===== src/Protocol/Framing/RoundTrip.antt =====
-- Writing and reading the frames of crates/simferret/src/protocol.rs.
use simferret.Prelude.{
  ℕ, ◌+◌, ◌≤◌, ◌≡◌, refl, ◌≢◌, ap, [], ◌∷◌, ◌++◌, some, Bytes, arith, length, length-append, All,
  Result, ok, >>=-eq-ok, ◌>>◌, refuse_if, invalid_input, ltb,
}
use simferret.Protocol.Framing.{
  Stream, byte, delivers, max_frame_length, newline, to_be_bytes, from_be_bytes, read_exact,
  read_first, read_line, write_frame, write_line_frame, read_frame, read_line_frame,
}
use mathlib.Core.List.{append_assoc, append-nil}

read_exact-delivers :
    (bytes : Bytes) (rest : Stream)
    → read_exact (length bytes) (delivers bytes ++ rest) ≡ ok (bytes, rest)
unfolding read_exact
read_exact-delivers [] rest = refl
read_exact-delivers (b ∷ bytes) rest = ground (arith, read_exact-delivers bytes rest)

from-to_be_bytes : (n : ℕ) → n ≤ max_frame_length → from_be_bytes (to_be_bytes n) ≡ n
unfolding from_be_bytes to_be_bytes
from-to_be_bytes n h = omega arith

delivers-append : (a b : Bytes) → delivers (a ++ b) ≡ delivers a ++ delivers b
delivers-append [] b = refl
delivers-append (x ∷ a) b = ap (◌∷◌ (byte x)) (delivers-append a b)

read_line-delivers :
    (body line : Bytes) (rest : Stream)
    → All (λ b. b ≢ newline) line
    → length body + length line ≤ max_frame_length
    → read_line body (delivers line ++ byte newline ∷ rest) ≡ ok (some (body ++ line), rest)
unfolding read_line
read_line-delivers [] [] rest h fits = refl
read_line-delivers (b ∷ body) [] rest h fits = rw append-nil refl
read_line-delivers [] (c ∷ line) rest h fits =
    ground (arith, read_line-delivers (c ∷ []) line rest h.1)
read_line-delivers (b ∷ body) (c ∷ line) rest h fits = ground (
  arith,
  read_line-delivers ((b ∷ body) ++ c ∷ []) line rest h.1,
  length-append body (c ∷ []),
  append_assoc body (c ∷ []) line,
)

-- What the frame's type promises of its JSON: it is read back, it is small bytes, and the compact
-- form holds no newline.
pub record IsJson {T : Type 0} (to_vec : T → Result Bytes) (from_slice : Bytes → Result T)
    : Type 0 where
  pub reads_back : (v : T) (body : Bytes) → to_vec v ≡ ok body → from_slice body ≡ ok v
  pub one_line : (v : T) (body : Bytes) → to_vec v ≡ ok body → All (λ b. b ≢ newline) body

-- What both writers do once the value is encoded.
abbrev sized : (Bytes → Bytes) → Bytes → Result Bytes
sized frame body = do refuse_if (ltb max_frame_length (length body)) invalid_input; ok (frame body)

module _ {T : Type 0} (to_vec : T → Result Bytes) where
  write_frame-ok :
      (v : T) (written : Bytes)
      → write_frame to_vec v ≡ ok written
      → (body : Bytes) × (to_vec v ≡ ok body)
        × (length body ≤ max_frame_length)
        × (written ≡ to_be_bytes (length body) ++ body)
  unfolding write_frame
  write_frame-ok v written h =
      let (body, e, h₁) = >>=-eq-ok (to_vec v) (sized (λ b. to_be_bytes (length b) ++ b)) h in
      (body, e, ground (arith, h₁), ground (arith, h₁))

  write_line_frame-ok :
      (v : T) (written : Bytes)
      → write_line_frame to_vec v ≡ ok written
      → (body : Bytes) × (to_vec v ≡ ok body)
        × (length body ≤ max_frame_length)
        × (written ≡ body ++ newline ∷ [])
  unfolding write_line_frame
  write_line_frame-ok v written h =
      let (body, e, h₁) = >>=-eq-ok (to_vec v) (sized (λ b. b ++ newline ∷ [])) h in
      (body, e, ground (arith, h₁), ground (arith, h₁))

module _ {T : Type 0} (from_slice : Bytes → Result T) (body : Bytes) (v : T) (rest : Stream)
    (decoded : from_slice body ≡ ok v) (fits : length body ≤ max_frame_length) where
  read_frame-body :
      read_frame from_slice (delivers (to_be_bytes (length body) ++ body) ++ rest)
      ≡ ok (some v, rest)
  unfolding read_frame read_first read_exact to_be_bytes
  read_frame-body =
      ground (arith, from-to_be_bytes (length body) fits, read_exact-delivers body rest, decoded)

  read_line_frame-body :
      All (λ b. b ≢ newline) body
      → read_line_frame from_slice (delivers body ++ byte newline ∷ rest) ≡ ok (some v, rest)
  unfolding read_line_frame
  read_line_frame-body one_line =
      rw (read_line-delivers [] body rest one_line (omega arith)) (rw decoded)

module _ {T : Type 0} (to_vec : T → Result Bytes) (from_slice : Bytes → Result T)
    (json : IsJson to_vec from_slice) (v : T) (written : Bytes) (rest : Stream) where
  -- A length-prefixed frame that was written is read back, with what follows it left on the stream.
  pub read_frame-write_frame :
      write_frame to_vec v ≡ ok written
      → read_frame from_slice (delivers written ++ rest) ≡ ok (some v, rest)
  read_frame-write_frame h =
      let (body, e, fits, shape) = write_frame-ok to_vec v written h in
      rw shape (read_frame-body from_slice body v rest (json.reads_back v body e) fits)

  -- A line-delimited frame that was written is read back, with what follows it left on the stream.
  pub read_line_frame-write_line_frame :
      write_line_frame to_vec v ≡ ok written
      → read_line_frame from_slice (delivers written ++ rest) ≡ ok (some v, rest)
  read_line_frame-write_line_frame h =
      let (body, e, fits, shape) = write_line_frame-ok to_vec v written h in
      rw (shape, delivers-append, append_assoc)
        (read_line_frame-body from_slice body v rest (json.reads_back v body e) fits
          (json.one_line v body e))
