-- ===== src/Protocol/Process.antt =====
-- crates/simferret/src/protocol.rs: how a workload process ends, and what it writes to.
use simferret.Prelude.{ℕ, ◌+◌, ◌-◌, ◌^◌, Text, codes, leb, if◌then◌else◌, ℕ_discrete}

-- An `i32`: `pos n` is n and `negsuc n` is -(n + 1).
pub data ℤ : Type 0 where
  pos : ℕ → ℤ
  negsuc : ℕ → ℤ

unfoldable pub ℤ-discrete : Discrete ℤ
unfolding ℕ_discrete
ℤ-discrete = hlevel ℕ_discrete

pub data OutputStream : Type 0 where
  stdout stderr : OutputStream

unfoldable pub OutputStream-discrete : Discrete OutputStream
OutputStream-discrete = hlevel

-- `OutputStream::name`
pub stream_name : OutputStream → Text
stream_name stdout = codes "stdout"
stream_name stderr = codes "stderr"

pub data ProcessExit : Type 0 where
  exited : ℤ → ProcessExit
  signaled : ℤ → ProcessExit

unfoldable pub ProcessExit-discrete : Discrete ProcessExit
unfolding ℕ_discrete
ProcessExit-discrete = hlevel ℕ_discrete

-- `128_i32.saturating_add(signal)`
unfoldable pub saturating_add_128 : ℤ → ℤ
saturating_add_128 (pos n) = if leb (128 + n) (2 ^ 31 - 1) then pos (128 + n) else pos (2 ^ 31 - 1)
saturating_add_128 (negsuc n) = if leb 128 n then negsuc (n - 128) else pos (127 - n)

-- `ProcessExit::status_code`
unfoldable pub status_code : ProcessExit → ℤ
unfolding saturating_add_128
status_code (exited code) = code
status_code (signaled signal) = saturating_add_128 signal

-- `TERMINATION_SIGNAL`, `libc::SIGKILL`
abbrev pub termination_signal : ℤ
termination_signal = pos 9

pub data LaunchFailure : Type 0 where
  no_runtime invocation_active invocation_repeated materialization executable : LaunchFailure
  working_directory pipe fork setup : LaunchFailure

unfoldable pub LaunchFailure-discrete : Discrete LaunchFailure
LaunchFailure-discrete = hlevel
