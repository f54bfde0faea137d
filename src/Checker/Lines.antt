-- ===== src/Checker/Lines.antt =====
-- The lines that crates/simferret/src/checker.rs reads from a channel, against the lines of all the
-- bytes of the channel.
use simferret.Prelude.{
  ℕ, ◌≡◌, refl, ap, sym, ◌∙◌, Bool, true, false, not, List, [], ◌∷◌, ◌++◌, map, Bytes, Text, ◌==◌,
  if◌then◌else◌, Bool-cases, inl, inr,
}
use simferret.Protocol.Process.{OutputStream}
use simferret.Checker.Utf8.{from_utf8_lossy}
use simferret.Checker.Streams.{
  CompletedLine, Channel, Work, is_empty, complete_line, complete_lines, receive, bound_pending,
  push_work,
}

-- The reference: the lines that the newlines end, and what follows the last newline, behind the
-- bytes of a line that has begun.
abbrev pub lines_of : Bytes → Bytes → List Bytes
lines_of line [] = []
lines_of line (b ∷ bs) = if b == 10 then line ∷ lines_of [] bs else lines_of (line ++ b ∷ []) bs

abbrev pub remainder : Bytes → Bytes → Bytes
remainder line [] = line
remainder line (b ∷ bs) = if b == 10 then remainder [] bs else remainder (line ++ b ∷ []) bs

lines_of-append :
    (line xs ys : Bytes)
    → lines_of line (xs ++ ys) ≡ lines_of line xs ++ lines_of (remainder line xs) ys
lines_of-append line [] ys = refl
lines_of-append line (x ∷ xs) ys = elim (Bool-cases (x == 10)) [
  | inl e ↦ rw e (ap (◌∷◌ line) (lines_of-append [] xs ys))
  | inr e ↦ rw e (lines_of-append (line ++ x ∷ []) xs ys)
]

remainder-append :
    (line xs ys : Bytes) → remainder line (xs ++ ys) ≡ remainder (remainder line xs) ys
remainder-append line [] ys = refl
remainder-append line (x ∷ xs) ys = elim (Bool-cases (x == 10)) [
  | inl e ↦ rw e (remainder-append [] xs ys)
  | inr e ↦ rw e (remainder-append (line ++ x ∷ []) xs ys)
]

-- A remainder holds no newline, so it is its own remainder and has no lines, also behind a line.
lines_of-remainder :
    (line bs : Bytes) → lines_of [] line ≡ [] → lines_of [] (remainder line bs) ≡ []
lines_of-remainder line [] h = h
lines_of-remainder line (b ∷ bs) h = elim (Bool-cases (b == 10)) [
  | inl e ↦ rw e (lines_of-remainder [] bs refl)
  | inr e ↦ rw e (
      lines_of-remainder (line ++ b ∷ []) bs
        (rw (lines_of-append [] line (b ∷ [])) (rw (h, e) refl)))
]

remainder-remainder :
    (line bs : Bytes)
    → remainder [] line ≡ line
    → remainder [] (remainder line bs) ≡ remainder line bs
remainder-remainder line [] h = h
remainder-remainder line (b ∷ bs) h = elim (Bool-cases (b == 10)) [
  | inl e ↦ rw e (remainder-remainder [] bs refl)
  | inr e ↦ rw e (
      remainder-remainder (line ++ b ∷ []) bs
        (rw (remainder-append [] line (b ∷ [])) (rw (h, e) refl)))
]

-- Reading on from the remainder is reading on from all that came before.
lines_of-resume :
    (bs new : Bytes)
    → lines_of [] (bs ++ new) ≡ lines_of [] bs ++ lines_of [] (remainder [] bs ++ new)
lines_of-resume bs new =
    lines_of-append [] bs new
    ∙ sym (
        rw (lines_of-append [] (remainder [] bs) new)
          (rw (lines_of-remainder [] bs refl, remainder-remainder [] bs refl) refl))

remainder-resume :
    (bs new : Bytes) → remainder [] (bs ++ new) ≡ remainder [] (remainder [] bs ++ new)
remainder-resume bs new =
    remainder-append [] bs new
    ∙ sym (
        remainder-append [] (remainder [] bs) new
        ∙ ap (λ r. remainder r new) (remainder-remainder [] bs refl))

texts_of-append :
    (xs ys : List Bytes)
    → map from_utf8_lossy (xs ++ ys) ≡ map from_utf8_lossy xs ++ map from_utf8_lossy ys
texts_of-append [] ys = refl
texts_of-append (x ∷ xs) ys = ap (◌∷◌ (from_utf8_lossy x)) (texts_of-append xs ys)

abbrev pub texts : List CompletedLine → List Text
texts = map (λ line. line.text)

texts-snoc :
    (lines : List CompletedLine) (line : CompletedLine) (rest : List Text)
    → texts (lines ++ line ∷ []) ++ rest ≡ texts lines ++ line.text ∷ rest
texts-snoc [] line rest = refl
texts-snoc (x ∷ lines) line rest = ap (◌∷◌ x.text) (texts-snoc lines line rest)

append-nil {ℓ} : {A : Type ℓ} (xs : List A) → xs ++ [] ≡ xs
append-nil [] = refl
append-nil (x ∷ xs) = ap (◌∷◌ x) (append-nil xs)

-- The lines and the pending bytes of a channel are those of its bytes.
pub record IsRead (c : Channel) : Type 0 where
  pub read_lines : texts c.lines ≡ map from_utf8_lossy (lines_of [] c.bytes)
  pub read_pending : c.pending ≡ remainder [] c.bytes

module _ (invocation : ℕ) (stream : OutputStream) (event_id : ℕ) where
  complete_lines-newline :
      (line bs : Bytes) (b : ℕ) (w : Work)
      → (b == 10) ≡ true
      → complete_lines invocation stream event_id line (b ∷ bs) w
        ≡ complete_lines invocation stream event_id [] bs
            (complete_line invocation stream event_id line (not (is_empty bs)) w)
  unfolding complete_lines
  complete_lines-newline line bs b w e =
      ap
        (λ t.
          complete_lines invocation stream event_id (if t then [] else line ++ b ∷ []) bs
            (if t then complete_line invocation stream event_id line (not (is_empty bs)) w else w))
        e

  complete_lines-other :
      (line bs : Bytes) (b : ℕ) (w : Work)
      → (b == 10) ≡ false
      → complete_lines invocation stream event_id line (b ∷ bs) w
        ≡ complete_lines invocation stream event_id (line ++ b ∷ []) bs w
  unfolding complete_lines
  complete_lines-other line bs b w e =
      ap
        (λ t.
          complete_lines invocation stream event_id (if t then [] else line ++ b ∷ []) bs
            (if t then complete_line invocation stream event_id line (not (is_empty bs)) w else w))
        e

  complete_line-lines :
      (line : Bytes) (more : Bool) (w : Work) (rest : List Text)
      → texts (complete_line invocation stream event_id line more w).channel.lines ++ rest
        ≡ texts w.channel.lines ++ from_utf8_lossy line ∷ rest
  unfolding complete_line
  complete_line-lines line more w rest = texts-snoc w.channel.lines _ rest

  complete_line-bytes :
      (line : Bytes) (more : Bool) (w : Work)
      → (complete_line invocation stream event_id line more w).channel.bytes ≡ w.channel.bytes
  unfolding complete_line
  complete_line-bytes line more w = refl

  complete_lines-nil :
      (line : Bytes) (w : Work)
      → complete_lines invocation stream event_id line [] w
        ≡ record w { channel = record w.channel { pending = line } }
  unfolding complete_lines
  complete_lines-nil line w = refl

  complete_lines-lines :
      (line bs : Bytes) (w : Work)
      → texts (complete_lines invocation stream event_id line bs w).channel.lines
        ≡ texts w.channel.lines ++ map from_utf8_lossy (lines_of line bs)
  complete_lines-lines line [] w = rw (complete_lines-nil line w) (sym (append-nil _))
  complete_lines-lines line (b ∷ bs) w = elim (Bool-cases (b == 10)) [
    | inl e ↦
        rw (complete_lines-newline line bs b w e, e)
          (complete_lines-lines [] bs
              (complete_line invocation stream event_id line (not (is_empty bs)) w)
            ∙ complete_line-lines line _ w _)
    | inr e ↦
        rw (complete_lines-other line bs b w e, e) (complete_lines-lines (line ++ b ∷ []) bs w)
  ]

  complete_lines-pending :
      (line bs : Bytes) (w : Work)
      → (complete_lines invocation stream event_id line bs w).channel.pending ≡ remainder line bs
  complete_lines-pending line [] w = rw (complete_lines-nil line w) refl
  complete_lines-pending line (b ∷ bs) w = elim (Bool-cases (b == 10)) [
    | inl e ↦ rw (complete_lines-newline line bs b w e, e) (complete_lines-pending [] bs _)
    | inr e ↦
        rw (complete_lines-other line bs b w e, e) (complete_lines-pending (line ++ b ∷ []) bs w)
  ]

  complete_lines-bytes :
      (line bs : Bytes) (w : Work)
      → (complete_lines invocation stream event_id line bs w).channel.bytes ≡ w.channel.bytes
  complete_lines-bytes line [] w = rw (complete_lines-nil line w) refl
  complete_lines-bytes line (b ∷ bs) w = elim (Bool-cases (b == 10)) [
    | inl e ↦
        rw (complete_lines-newline line bs b w e)
          (complete_lines-bytes [] bs _ ∙ complete_line-bytes line _ w)
    | inr e ↦ rw (complete_lines-other line bs b w e) (complete_lines-bytes (line ++ b ∷ []) bs w)
  ]

  -- The channel after a frame is read, where it was read before.
  pub push_work-IsRead :
      (offset : ℕ) (bytes : Bytes) (w : Work)
      → IsRead w.channel
      → IsRead (push_work invocation stream event_id offset bytes w).channel
  unfolding push_work bound_pending receive
  push_work-IsRead offset bytes w h =
      let w' = receive invocation stream event_id offset bytes w in
      let all_bytes = complete_lines-bytes [] (w.channel.pending ++ bytes) w' in
      record {
        read_lines =
            complete_lines-lines [] (w.channel.pending ++ bytes) w'
            ∙ ap (λ ls. ls ++ map from_utf8_lossy (lines_of [] (w.channel.pending ++ bytes)))
                h.read_lines
            ∙ ap
                (λ p.
                  map from_utf8_lossy (lines_of [] w.channel.bytes)
                  ++ map from_utf8_lossy (lines_of [] (p ++ bytes)))
                h.read_pending
            ∙ sym (texts_of-append (lines_of [] w.channel.bytes) _)
            ∙ ap (map from_utf8_lossy) (sym (lines_of-resume w.channel.bytes bytes))
            ∙ ap (λ b. map from_utf8_lossy (lines_of [] b)) (sym all_bytes);
        read_pending =
            complete_lines-pending [] (w.channel.pending ++ bytes) w'
            ∙ ap (λ p. remainder [] (p ++ bytes)) h.read_pending
            ∙ sym (remainder-resume w.channel.bytes bytes)
            ∙ ap (remainder []) (sym all_bytes);
      }
