-- ===== src/Workload/Elf/Loadable.antt =====
-- The executables that crates/simferret/src/workload/mod.rs, `validate_static_elf`, accepts.
use simferret.Prelude.{
  ℕ, zero, suc, ◌+◌, ◌*◌, ◌/◌, ◌≤◌, ◌<◌, ◌≡◌, Bool, true, false, not, Bytes, arith, ltb, leb, ◌==◌,
  length, ok, invalid_input, refuse_if, >>=-eq-ok, refuse_if-ok, Bool-cases, inl, inr, subst,
}
use simferret.Workload.Elf.{
  native_program_header_bytes, max_program_table_bytes, max_guest_user_address, checked, read_u16,
  read_u32, read_u64, check_program, add_if, check_programs, check_identification,
  validate_static_elf,
}
use simferret.Workload.Elf.Programs.{IsProgram, checked-ok, check_program-IsProgram}

abbrev header_at : ℕ → ℕ → ℕ
header_at table_offset index = table_offset + index * native_program_header_bytes

record Programs (bytes : Bytes) (table_offset index count loadable total : ℕ) : Type 0 where
  each :
      (i : ℕ)
      → index ≤ i
      → i < index + count
      → (flag : Bool) × IsProgram bytes (header_at table_offset i) flag
  some_loadable :
      loadable < total
      → (i : ℕ) × (index ≤ i)
        × (i < index + count)
        × (read_u32 bytes (header_at table_offset i) ≡ ok 1)

check_programs-Programs :
    (bytes : Bytes) (table_offset index count loadable total : ℕ)
    → check_programs bytes table_offset index count loadable ≡ ok total
    → Programs bytes table_offset index count loadable total
unfolding check_programs
check_programs-Programs bytes table_offset index zero loadable total h = record {
  each = λ i low high. absurd (omega (arith, low, high));
  some_loadable = λ more. absurd (ground (arith, h, more));
}
check_programs-Programs bytes table_offset index (suc count) loadable total h =
    let (relative, e₁, h₁) =
      >>=-eq-ok (checked (index * native_program_header_bytes)) _ {b = total} h in
    let (offset, e₂, h₂) = >>=-eq-ok (checked (table_offset + relative)) _ {b = total} h₁ in
    let (flag, e₃, h₃) = >>=-eq-ok (check_program bytes offset) _ {b = total} h₂ in
    let here : offset ≡ header_at table_offset index = omega (
      arith,
      checked-ok (index * native_program_header_bytes) relative e₁,
      checked-ok (table_offset + relative) offset e₂,
    ) in
    let program : IsProgram bytes (header_at table_offset index) flag =
      subst (λ o. IsProgram bytes o flag) here (check_program-IsProgram bytes offset flag e₃) in
    let rest =
      check_programs-Programs bytes table_offset (suc index) count (add_if flag loadable) total
        h₃ in
    record {
      each = λ i low high. elim (Bool-cases (i == index)) [
        | inl first ↦
            let same_index : index ≡ i = ground (arith, first) in
            (flag, subst (λ j. IsProgram bytes (header_at table_offset j) flag) same_index program)
        | inr later ↦ rest.each i (ground (arith, later, low)) (omega (arith, high))
      ];
      some_loadable = λ more. elim (Bool-cases flag) [
        | inl loads ↦
            let is_load : program.kind ≡ 1 = program.loads.0 loads in
            (index, omega arith, omega arith, cc (program.read, is_load))
        | inr none_here ↦
            let (i, low, high, found) = rest.some_loadable (ground (arith, none_here, more)) in
            (i, omega (arith, low), omega (arith, high), found)
      ];
    }

each-from_start :
    {bytes : Bytes} {table_offset count total : ℕ}
    → Programs bytes table_offset 0 count 0 total
    → (i : ℕ) → i < count
    → (flag : Bool) × IsProgram bytes (header_at table_offset i) flag
each-from_start programs i inside = programs.each i (omega arith) (omega (arith, inside))

loadable-from_start :
    {bytes : Bytes} {table_offset count total : ℕ}
    → Programs bytes table_offset 0 count 0 total
    → (total == 0) ≡ false
    → (i : ℕ) × (i < count) × (read_u32 bytes (header_at table_offset i) ≡ ok 1)
loadable-from_start programs some_found =
    let (i, low, high, found) = programs.some_loadable (ground (arith, some_found)) in
    (i, omega (arith, high), found)

within :
    (size offset entry_size count table table_end : ℕ)
    → (entry_size == native_program_header_bytes) ≡ true
    → checked (entry_size * count) ≡ ok table
    → checked (offset + table) ≡ ok table_end
    → ltb size table_end ≡ false
    → header_at offset count ≤ size
within size offset entry_size count table table_end sized e f in_file =
    let size_eq : entry_size ≡ native_program_header_bytes = ground (arith, sized) in
    let table_eq : native_program_header_bytes * count ≡ table =
      subst (λ n. n * count ≡ table) size_eq (checked-ok (entry_size * count) table e) in
    ground (arith, in_file, table_eq, checked-ok (offset + table) table_end f)

not_refused : (b : Bool) → refuse_if b invalid_input ≡ ok tt → b ≡ false
not_refused b h = ground arith

not_at_limit :
    (entry : ℕ) → leb max_guest_user_address entry ≡ false → entry < max_guest_user_address
not_at_limit entry h = ground (arith, h)

holds-not : (b : Bool) → not b ≡ false → b ≡ true
holds-not b h = ground arith

-- What an accepted executable is: a program table inside the file, an entry point in the user address
-- space, no interpreter, mappable segments, and one of them at least.
pub record IsStaticElf (bytes : Bytes) : Type 0 where
  pub identified : check_identification bytes ≡ ok tt
  pub table_offset : ℕ
  pub count : ℕ
  pub entry : ℕ
  pub offset_read : read_u64 bytes 32 ≡ ok table_offset
  pub count_read : read_u16 bytes 56 ≡ ok count
  pub entry_read : read_u64 bytes 24 ≡ ok entry
  pub entry_in_user_space : entry < max_guest_user_address
  pub table_in_file : header_at table_offset count ≤ length bytes
  pub each : (i : ℕ) → i < count → (flag : Bool) × IsProgram bytes (header_at table_offset i) flag
  pub some_loadable : (i : ℕ) × (i < count) × (read_u32 bytes (header_at table_offset i) ≡ ok 1)

-- An executable that is accepted has its program table in the file and its entry point in the guest's
-- user address space, asks for no interpreter, and has a loadable segment, and every loadable segment
-- lies in the file and in the user address space, page-congruent where it has bytes in the file, and
-- above the lowest mapping where it has memory.
pub validate_static_elf-IsStaticElf :
    (bytes : Bytes) → validate_static_elf bytes ≡ ok tt → IsStaticElf bytes
unfolding validate_static_elf
validate_static_elf-IsStaticElf bytes h =
    let (_, identified, h₀) = >>=-eq-ok (check_identification bytes) _ {b = tt} h in
    let (table_offset, e₁, h₁) = >>=-eq-ok (read_u64 bytes 32) _ {b = tt} h₀ in
    let (entry_size, e₂, h₂) = >>=-eq-ok (read_u16 bytes 54) _ {b = tt} h₁ in
    let (count, e₃, h₃) = >>=-eq-ok (read_u16 bytes 56) _ {b = tt} h₂ in
    let (sized, h₄) =
      refuse_if-ok (not (entry_size == native_program_header_bytes)) invalid_input _ h₃ in
    let (few, h₅) =
      refuse_if-ok (ltb (max_program_table_bytes / native_program_header_bytes) count) invalid_input
        _ h₄ in
    let (table_bytes, e₆, h₆) = >>=-eq-ok (checked (entry_size * count)) _ {b = tt} h₅ in
    let (table_end, e₇, h₇) = >>=-eq-ok (checked (table_offset + table_bytes)) _ {b = tt} h₆ in
    let (in_file, h₈) = refuse_if-ok (ltb (length bytes) table_end) invalid_input _ h₇ in
    let (entry, e₉, h₉) = >>=-eq-ok (read_u64 bytes 24) _ {b = tt} h₈ in
    let (low, h₁₀) = refuse_if-ok (leb max_guest_user_address entry) invalid_input _ h₉ in
    let (loadable, e₁₁, h₁₁) =
      >>=-eq-ok (check_programs bytes table_offset 0 count 0) _ {b = tt} h₁₀ in
    let some_found = not_refused (loadable == 0) h₁₁ in
    let programs = check_programs-Programs bytes table_offset 0 count 0 loadable e₁₁ in
    record {
      identified = identified;
      table_offset = table_offset;
      count = count;
      entry = entry;
      offset_read = e₁;
      count_read = e₃;
      entry_read = e₉;
      entry_in_user_space = not_at_limit entry low;
      table_in_file =
          within (length bytes) table_offset entry_size count table_bytes table_end
            (holds-not _ sized) e₆ e₇ in_file;
      each = each-from_start programs;
      some_loadable = loadable-from_start programs some_found;
    }
