-- ===== src/Workload/Elf/Programs.antt =====
-- The program headers that crates/simferret/src/workload/mod.rs, `validate_static_elf`, accepts.
use simferret.Prelude.{
  ℕ, ◌+◌, ◌%◌, ◌≤◌, ◌<◌, ◌≡◌, ◌≢◌, ◌↔◌, Bool, true, ◌&&◌, ◌||◌, not, Bytes, arith, ltb, leb, ◌==◌,
  length, ok, invalid_input, >>=-eq-ok, refuse_if-ok, Bool-cases, inl, inr,
}
use simferret.Workload.Elf.{
  guest_page_bytes, max_guest_user_address, min_guest_mapping_address, checked, read_u32, Segment,
  read_segment, page_start, check_segment, check_loadable, check_program,
}

-- A segment that the guest can map from a file of so many bytes.
pub record IsMappable (size : ℕ) (segment : Segment) : Type 0 where
  pub in_memory : segment.file_size ≤ segment.memory_size
  pub in_file : segment.file_offset + segment.file_size ≤ size
  pub congruent :
      segment.file_size ≢ 0
      → segment.file_offset % guest_page_bytes ≡ segment.address % guest_page_bytes
  pub in_user_space : segment.address + segment.memory_size ≤ max_guest_user_address
  pub starts_in_user_space : segment.address < max_guest_user_address
  pub above_minimum :
      segment.memory_size ≢ 0 → min_guest_mapping_address ≤ page_start (segment.address)

pub checked-ok : (n m : ℕ) → checked n ≡ ok m → n ≡ m
unfolding checked
checked-ok n m h = ground (arith, h)

check_segment-IsMappable :
    (size : ℕ) (segment : Segment) → check_segment size segment ≡ ok tt → IsMappable size segment
unfolding check_segment
check_segment-IsMappable size segment h =
    let o = segment.file_offset in
    let a = segment.address in
    let f = segment.file_size in
    let m = segment.memory_size in
    let (in_memory, h₁) = refuse_if-ok (ltb m f) invalid_input _ h in
    let (segment_end, e₁, h₂) = >>=-eq-ok (checked (o + f)) _ {b = tt} h₁ in
    let (in_file, h₃) = refuse_if-ok (ltb size segment_end) invalid_input _ h₂ in
    let (congruent, h₄) =
      refuse_if-ok (not (f == 0) && not (o % guest_page_bytes == a % guest_page_bytes))
        invalid_input _ h₃ in
    let (address_end, e₂, h₅) = >>=-eq-ok (checked (a + m)) _ {b = tt} h₄ in
    let (in_space, h₆) =
      refuse_if-ok (leb max_guest_user_address a || ltb max_guest_user_address address_end)
        invalid_input _ h₅ in
    let end_eq = checked-ok (o + f) segment_end e₁ in
    let top_eq = checked-ok (a + m) address_end e₂ in
    record {
      in_memory = ground (arith, in_memory);
      in_file = ground (arith, in_file, end_eq);
      congruent = λ some_bytes. ground (arith, congruent, some_bytes);
      in_user_space = ground (arith, in_space, top_eq);
      starts_in_user_space = ground (arith, in_space);
      above_minimum = λ some_memory. ground (arith, h₆, some_memory);
    }

-- A program header that is no interpreter, and whose segment the guest can map if it is loadable.
pub record IsProgram (bytes : Bytes) (offset : ℕ) (loadable : Bool) : Type 0 where
  pub kind : ℕ
  pub read : read_u32 bytes offset ≡ ok kind
  pub no_interpreter : kind ≢ 3
  pub loads : (loadable ≡ true) ↔ (kind ≡ 1)
  pub mappable :
      kind ≡ 1
      → (segment : Segment) × (read_segment bytes offset ≡ ok segment)
        × IsMappable (length bytes) segment

check_loadable-IsMappable :
    (bytes : Bytes) (offset : ℕ) (loadable : Bool)
    → check_loadable bytes offset ≡ ok loadable
    → (loadable ≡ true)
      × ((segment : Segment) × (read_segment bytes offset ≡ ok segment)
          × IsMappable (length bytes) segment)
unfolding check_loadable
check_loadable-IsMappable bytes offset loadable h =
    let (segment, e, h₁) = >>=-eq-ok (read_segment bytes offset) _ {b = loadable} h in
    let (_, fine, h₂) = >>=-eq-ok (check_segment (length bytes) segment) _ {b = loadable} h₁ in
    (cc (h₂), (segment, e, check_segment-IsMappable (length bytes) segment (cc (fine))))

pub check_program-IsProgram :
    (bytes : Bytes) (offset : ℕ) (loadable : Bool)
    → check_program bytes offset ≡ ok loadable
    → IsProgram bytes offset loadable
unfolding check_program
check_program-IsProgram bytes offset loadable h =
    let (kind, e, h₁) = >>=-eq-ok (read_u32 bytes offset) _ {b = loadable} h in
    elim (Bool-cases (kind == 1)) [
      | inl is_load ↦
          let (was, segment) =
            check_loadable-IsMappable bytes offset loadable (ground (arith, h₁, is_load)) in
          record {
            kind = kind;
            read = e;
            no_interpreter = λ k. ground (arith, is_load, k);
            loads = (λ k. ground (arith, is_load), λ k. was);
            mappable = λ k. segment;
          }
      | inr other ↦ record {
        kind = kind;
        read = e;
        no_interpreter = λ k. ground (arith, h₁, other, k);
        loads =
            (λ k. absurd (ground (arith, h₁, other, k)), λ k. absurd (ground (arith, other, k)));
        mappable = λ k. absurd (ground (arith, other, k));
      }
    ]
