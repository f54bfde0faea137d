-- ===== src/Checker/Streams.antt =====
-- crates/simferret/src/checker.rs, `InvocationStreams`: what one invocation wrote and was given. The
-- fields that stdout and stderr have alike stand in one record for each.
use simferret.Prelude.{
  ℕ, ◌+◌, ◌-◌, ◌^◌, Bool, true, false, ◌&&◌, ◌||◌, not, List, [], ◌∷◌, ◌++◌, Option, none, some,
  Bytes, Text, ltb, leb, ◌==◌, if◌then◌else◌, length, last,
}
use simferret.Protocol.Process.{OutputStream, stdout, stderr}
use simferret.Protocol.Violation.{
  Violation, sequence_jump, offset_gap, line_over_bound, line_over_bound_pending, input_gap,
  eof_with_bytes, empty_input, second_eof, input_after_eof, command_not_advancing,
}
use simferret.Checker.Utf8.{from_utf8_lossy}

-- `MAX_RESPONSE_LINE_BYTES`
abbrev pub max_response_line_bytes : ℕ
max_response_line_bytes = 1024

abbrev pub u64_max : ℕ
u64_max = 2 ^ 64 - 1

pub record CompletedLine : Type 0 where
  pub text : Text
  pub event_id : ℕ
  pub first_event_id : ℕ

pub record Channel : Type 0 where
  pub bytes : Bytes
  pub pending : Bytes
  pub lines : List CompletedLine
  pub line_event : Option ℕ
  pub offset : ℕ

abbrev pub empty_channel : Channel
empty_channel = record { bytes = []; pending = []; lines = []; line_event = none; offset = 0 }

pub record InvocationStreams : Type 0 where
  pub out : Channel
  pub error : Channel
  pub stdout_over_bound : Bool
  pub stdout_over_bound_seen : Bool
  pub input_offset : ℕ
  pub input_commands : List ℕ
  pub data_input_events : List ℕ
  pub eof_inputs : ℕ
  pub input_eof : Bool
  pub sequence : ℕ
  pub frames : ℕ
  pub violations : List Violation

-- `InvocationStreams::default()`
abbrev pub no_streams : InvocationStreams
no_streams = record {
  out = empty_channel;
  error = empty_channel;
  stdout_over_bound = false;
  stdout_over_bound_seen = false;
  input_offset = 0;
  input_commands = [];
  data_input_events = [];
  eof_inputs = 0;
  input_eof = false;
  sequence = 0;
  frames = 0;
  violations = [];
}

abbrev pub is_stdout : OutputStream → Bool
is_stdout stdout = true
is_stdout stderr = false

abbrev pub is_empty {ℓ} : {A : Type ℓ} → List A → Bool
is_empty [] = true
is_empty (x ∷ xs) = false

-- `self.violations.push(…)` under a test.
abbrev pub violate_if : Bool → Violation → List Violation → List Violation
violate_if test violation violations = if test then violations ++ violation ∷ [] else violations

-- The channel that a frame is for, and what `push` changes besides it.
pub record Work : Type 0 where
  pub channel : Channel
  pub over_bound : Bool
  pub over_bound_seen : Bool
  pub violations : List Violation

abbrev pub or_event : Option ℕ → ℕ → ℕ
or_event none event_id = event_id
or_event (some first) event_id = first

-- One round of the loop over complete lines: the line without its newline, and whether more bytes
-- are pending behind it.
unfoldable pub complete_line : ℕ → OutputStream → ℕ → Bytes → Bool → Work → Work
complete_line invocation stream event_id line more w =
    let text = from_utf8_lossy line in
    let too_long = ltb max_response_line_bytes (length text) in
    record {
      channel = record w.channel {
        lines =
            w.channel.lines
            ++ record {
              text = text;
              event_id = event_id;
              first_event_id = or_event w.channel.line_event event_id;
            }
              ∷ [];
        line_event = if more then some event_id else none;
      };
      over_bound = if is_stdout stream then false else w.over_bound;
      over_bound_seen = w.over_bound_seen || (too_long && is_stdout stream);
      violations = violate_if too_long (line_over_bound invocation stream) w.violations;
    }

-- The loop: the pending bytes are scanned for newlines, and what follows the last one stays pending.
unfoldable pub complete_lines : ℕ → OutputStream → ℕ → Bytes → Bytes → Work → Work
complete_lines invocation stream event_id line [] w = record w {
  channel = record w.channel { pending = line };
}
complete_lines invocation stream event_id line (b ∷ rest) w =
    complete_lines invocation stream event_id (if b == 10 then [] else line ++ b ∷ []) rest
      (if b == 10 then complete_line invocation stream event_id line (not (is_empty rest)) w else w)

-- What precedes the loop: the offset's check, and the bytes.
unfoldable pub receive : ℕ → OutputStream → ℕ → ℕ → Bytes → Work → Work
receive invocation stream event_id offset bytes w = record w {
  channel = record w.channel {
    bytes = w.channel.bytes ++ bytes;
    line_event =
        if is_empty w.channel.pending && not (is_empty bytes)
        then some event_id
        else w.channel.line_event;
    offset = if leb (offset + length bytes) u64_max then offset + length bytes else u64_max;
  };
  violations =
      violate_if (not (offset == w.channel.offset))
        (offset_gap invocation stream offset w.channel.offset) w.violations;
}

-- What follows the loop: an incomplete stdout line beyond the bound.
unfoldable pub bound_pending : ℕ → OutputStream → Work → Work
bound_pending invocation stream w =
    let too_long =
      is_stdout stream
      && not w.over_bound
      && ltb max_response_line_bytes (length w.channel.pending) in
    record w {
      over_bound = w.over_bound || too_long;
      over_bound_seen = w.over_bound_seen || too_long;
      violations = violate_if too_long (line_over_bound_pending invocation) w.violations;
    }

unfoldable pub push_work : ℕ → OutputStream → ℕ → ℕ → Bytes → Work → Work
push_work invocation stream event_id offset bytes w =
    let w' = receive invocation stream event_id offset bytes w in
    bound_pending invocation stream
      (complete_lines invocation stream event_id [] (w.channel.pending ++ bytes) w')

abbrev pub channel_of : OutputStream → InvocationStreams → Channel
channel_of stdout s = s.out
channel_of stderr s = s.error

abbrev pub with_work : OutputStream → Work → InvocationStreams → InvocationStreams
with_work stdout w s = record s {
  out = w.channel;
  stdout_over_bound = w.over_bound;
  stdout_over_bound_seen = w.over_bound_seen;
  violations = w.violations;
}
with_work stderr w s = record s {
  error = w.channel;
  stdout_over_bound = w.over_bound;
  stdout_over_bound_seen = w.over_bound_seen;
  violations = w.violations;
}

-- `self.sequence.checked_add(1) != Some(sequence)`
abbrev pub follows : ℕ → ℕ → Bool
follows previous sequence = leb (previous + 1) u64_max && previous + 1 == sequence

abbrev pub work_of : OutputStream → ℕ → ℕ → ℕ → InvocationStreams → Work
work_of stream invocation event_id sequence s = record {
  channel = channel_of stream s;
  over_bound = s.stdout_over_bound;
  over_bound_seen = s.stdout_over_bound_seen;
  violations =
      violate_if (not (follows s.sequence sequence))
        (sequence_jump invocation s.sequence sequence event_id) s.violations;
}

-- `InvocationStreams::push`
unfoldable pub push : ℕ → ℕ → OutputStream → ℕ → ℕ → Bytes → InvocationStreams → InvocationStreams
push event_id invocation stream offset sequence bytes s =
    with_work stream
      (push_work invocation stream event_id offset bytes
        (work_of stream invocation event_id sequence s))
      (record s { sequence = sequence; frames = s.frames + 1 })

abbrev pub not_past : ℕ → Option ℕ → Bool
not_past command_id none = false
not_past command_id (some previous) = leb command_id previous

abbrev pub previous_command : Option ℕ → ℕ
previous_command none = 0
previous_command (some previous) = previous

-- `InvocationStreams::push_input`
unfoldable pub push_input : ℕ → ℕ → ℕ → ℕ → ℕ → Bool → InvocationStreams → InvocationStreams
push_input invocation event_id command_id offset bytes eof s =
    let previous = last s.input_commands in
    record s {
      violations =
          violate_if (not_past command_id previous)
            (command_not_advancing invocation command_id (previous_command previous) event_id)
            (violate_if (not eof && s.input_eof) (input_after_eof invocation event_id) (
              violate_if (eof && s.input_eof) (second_eof invocation event_id) (
                violate_if (not eof && bytes == 0) (empty_input invocation event_id) (
                  violate_if (eof && not (bytes == 0)) (eof_with_bytes invocation bytes event_id) (
                    violate_if
                      (not
                        (leb (s.input_offset + bytes) u64_max && s.input_offset + bytes == offset))
                      (input_gap invocation offset s.input_offset bytes event_id) s.violations)))));
      input_commands = s.input_commands ++ command_id ∷ [];
      input_offset = offset;
      eof_inputs = if eof then s.eof_inputs + 1 else s.eof_inputs;
      input_eof = s.input_eof || eof;
      data_input_events = if eof then s.data_input_events else s.data_input_events ++ event_id ∷ [];
    }
