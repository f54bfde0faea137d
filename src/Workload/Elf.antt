-- ===== src/Workload/Elf.antt =====
-- crates/simferret/src/workload/mod.rs, `validate_static_elf`: the executables that a binary workload
-- may be. `usize` and `u64` have 64 bits.
pub mod Programs
pub mod Loadable
use simferret.Prelude.{
  ℕ, zero, suc, ◌+◌, ◌-◌, ◌*◌, ◌/◌, ◌%◌, ◌^◌, Bool, true, false, ◌&&◌, ◌||◌, not, List, [], ◌∷◌,
  Bytes, ltb, leb, ◌==◌, if◌then◌else◌, same_text, length, take, drop, Result, ok, err,
  invalid_input, fail, refuse_if, ◌>>=◌, ◌>>◌,
}

abbrev pub native_program_header_bytes : ℕ
native_program_header_bytes = 56

abbrev pub max_program_table_bytes : ℕ
max_program_table_bytes = 65536

abbrev pub guest_page_bytes : ℕ
guest_page_bytes = 4096

abbrev pub max_guest_user_address : ℕ
max_guest_user_address = 0x00007ffffffff000

abbrev pub min_guest_mapping_address : ℕ
min_guest_mapping_address = 65536

-- `checked_add` and `checked_mul` with `ok_or_else`
unfoldable pub checked : ℕ → Result ℕ
checked n = if ltb n (2 ^ 64) then ok n else fail invalid_input

-- `read_exact`: the bytes at an offset.
unfoldable pub slice_at : Bytes → ℕ → ℕ → Result Bytes
slice_at bytes offset size = do
  end ← checked (offset + size)
  refuse_if (ltb (length bytes) end) invalid_input
  ok (take size (drop offset bytes))

-- `from_le_bytes`
unfoldable pub from_le_bytes : Bytes → ℕ
from_le_bytes [] = 0
from_le_bytes (b ∷ bytes) = b + 256 * from_le_bytes bytes

unfoldable pub read_u16 : Bytes → ℕ → Result ℕ
read_u16 bytes offset = slice_at bytes offset 2 >>= λ value. ok (from_le_bytes value)

unfoldable pub read_u32 : Bytes → ℕ → Result ℕ
read_u32 bytes offset = slice_at bytes offset 4 >>= λ value. ok (from_le_bytes value)

unfoldable pub read_u64 : Bytes → ℕ → Result ℕ
read_u64 bytes offset = slice_at bytes offset 8 >>= λ value. ok (from_le_bytes value)

-- The fields of a program header of a loadable segment.
pub record Segment : Type 0 where
  pub file_offset : ℕ
  pub address : ℕ
  pub file_size : ℕ
  pub memory_size : ℕ

unfoldable pub read_segment : Bytes → ℕ → Result Segment
read_segment bytes offset = do
  file_offset ← read_u64 bytes (offset + 8)
  address ← read_u64 bytes (offset + 16)
  file_size ← read_u64 bytes (offset + 32)
  memory_size ← read_u64 bytes (offset + 40)
  ok (record {
    file_offset = file_offset;
    address = address;
    file_size = file_size;
    memory_size = memory_size;
  })

-- `address & !(GUEST_PAGE_BYTES - 1)`
abbrev pub page_start : ℕ → ℕ
page_start address = address - address % guest_page_bytes

-- The checks of a loadable segment, in a file of so many bytes.
unfoldable pub check_segment : ℕ → Segment → Result (Unit {0})
check_segment size segment = do
  let file_offset = segment.file_offset
  let address = segment.address
  let file_size = segment.file_size
  let memory_size = segment.memory_size
  refuse_if (ltb memory_size file_size) invalid_input
  segment_end ← checked (file_offset + file_size)
  refuse_if (ltb size segment_end) invalid_input
  refuse_if
      (not (file_size == 0) && not (file_offset % guest_page_bytes == address % guest_page_bytes))
      invalid_input
  address_end ← checked (address + memory_size)
  refuse_if (leb max_guest_user_address address || ltb max_guest_user_address address_end)
      invalid_input
  refuse_if (not (memory_size == 0) && ltb (page_start address) min_guest_mapping_address)
      invalid_input

-- A loadable segment's round of the loop.
unfoldable pub check_loadable : Bytes → ℕ → Result Bool
check_loadable bytes offset = do
  segment ← read_segment bytes offset
  check_segment (length bytes) segment
  ok true

-- One round of the loop: was it a loadable segment?
unfoldable pub check_program : Bytes → ℕ → Result Bool
check_program bytes offset = do
  kind ← read_u32 bytes offset
  if kind == 1
      then check_loadable bytes offset
      else if kind == 3
      then fail invalid_input
      else ok false

abbrev pub add_if : Bool → ℕ → ℕ
add_if true n = suc n
add_if false n = n

-- The loop over the program headers from an index on: the number of loadable segments.
unfoldable pub check_programs : Bytes → ℕ → ℕ → ℕ → ℕ → Result ℕ
check_programs bytes table_offset index zero loadable = ok loadable
check_programs bytes table_offset index (suc count) loadable = do
  relative ← checked (index * native_program_header_bytes)
  offset ← checked (table_offset + relative)
  is_loadable ← check_program bytes offset
  check_programs bytes table_offset (suc index) count (add_if is_loadable loadable)

abbrev pub byte_at : Bytes → ℕ → ℕ
byte_at [] i = 0
byte_at (b ∷ bytes) zero = b
byte_at (b ∷ bytes) (suc i) = byte_at bytes i

-- `b"\x7fELF"`
abbrev pub elf_magic : Bytes
elf_magic = 0x7f ∷ b'E' ∷ b'L' ∷ b'F' ∷ []

-- The identification of a little-endian x86-64 file.
unfoldable pub check_identification : Bytes → Result (Unit {0})
check_identification bytes = do
  refuse_if (ltb (length bytes) 64) invalid_input
  refuse_if (not (same_text (take 4 bytes) elf_magic)) invalid_input
  refuse_if (not (byte_at bytes 4 == 2)) invalid_input
  refuse_if (not (byte_at bytes 5 == 1)) invalid_input
  machine ← read_u16 bytes 18
  refuse_if (not (machine == 62)) invalid_input
  elf_type ← read_u16 bytes 16
  refuse_if (not (elf_type == 2)) invalid_input

-- `validate_static_elf`
unfoldable pub validate_static_elf : Bytes → Result (Unit {0})
validate_static_elf bytes = do
  check_identification bytes
  table_offset ← read_u64 bytes 32
  entry_size ← read_u16 bytes 54
  entry_count ← read_u16 bytes 56
  refuse_if (not (entry_size == native_program_header_bytes)) invalid_input
  refuse_if (ltb (max_program_table_bytes / native_program_header_bytes) entry_count) invalid_input
  table_bytes ← checked (entry_size * entry_count)
  table_end ← checked (table_offset + table_bytes)
  refuse_if (ltb (length bytes) table_end) invalid_input
  entry ← read_u64 bytes 24
  refuse_if (leb max_guest_user_address entry) invalid_input
  loadable ← check_programs bytes table_offset 0 entry_count 0
  refuse_if (loadable == 0) invalid_input
