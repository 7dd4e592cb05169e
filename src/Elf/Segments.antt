-- ===== src/Elf/Segments.antt =====
-- kernel/elf64_loader.c: the plan, and the tests of one load segment (`inspect_load_segment`).
use nostalux_os.Base.{
  u64_mod, add64, sub64, ℕ, ◌-◌, ◌*◌, ◌^◌, bit_and, bit_or, Bool, true, not, ◌&&◌, ◌||◌, List, [],
  ◌∷◌, ◌++◌, ltb, leb, ◌==◌, if◌then◌else◌, length,
}
use nostalux_os.Elf.Reader.{
  too_many_segments, invalid_segment, segment_out_of_range, segment_overlap, writable_code, Outcome,
  pass, ◌>>◌, reject,
}

unfoldable pub range_fits_size : ℕ → ℕ → ℕ → Bool
range_fits_size offset len size = leb offset size && leb len (size - offset)

unfoldable pub is_power_of_two : ℕ → Bool
is_power_of_two value = not (value == 0) && bit_and value (sub64 value 1) == 0

abbrev pub virtual_ranges_overlap : ℕ → ℕ → ℕ → ℕ → Bool
virtual_ranges_overlap first_start first_end second_start second_end =
    ltb first_start second_end && ltb second_start first_end

-- `struct elf64_load_segment`
pub record Segment : Type 0 where
  pub virtual_address : ℕ
  pub memory_size : ℕ
  pub file_size : ℕ
  pub file_offset : ℕ
  pub alignment : ℕ
  pub flags : ℕ

-- `struct elf64_image_plan`; `segment_count` is the length of the list.
pub record Plan : Type 0 where
  pub entry_point : ℕ
  pub virtual_base : ℕ
  pub virtual_end : ℕ
  pub image_span : ℕ
  pub segments : List Segment

abbrev pub execute_flag : ℕ
execute_flag = 1

abbrev pub write_flag : ℕ
write_flag = 2

abbrev pub read_flag : ℕ
read_flag = 4

abbrev pub max_program_headers : ℕ
max_program_headers = 32

abbrev pub max_load_segments : ℕ
max_load_segments = 16

abbrev pub max_image_span : ℕ
max_image_span = 16 * 1024 * 1024

abbrev pub min_user_vaddr : ℕ
min_user_vaddr = 0x0000_0100_0000_0000

abbrev pub max_user_vaddr : ℕ
max_user_vaddr = 0x0000_01ff_ffff_ffff

-- `flags & flag` as a condition.
abbrev pub has_flag : ℕ → ℕ → Bool
has_flag flags flag = not (bit_and flags flag == 0)

abbrev pub page_start : ℕ → ℕ
page_start address = bit_and address (2 ^ 64 - 4096)

abbrev pub page_end : ℕ → ℕ
page_end end_ = bit_and (sub64 (add64 end_ 4096) 1) (2 ^ 64 - 4096)

abbrev pub segment_end : Segment → ℕ
segment_end s = add64 s.virtual_address s.memory_size

abbrev pub bytes_overlap : Segment → Segment → Bool
bytes_overlap s e =
    virtual_ranges_overlap s.virtual_address (segment_end s) e.virtual_address (segment_end e)

-- The segments share a page and together make it writable and executable.
abbrev pub pages_conflict : Segment → Segment → Bool
pages_conflict s e =
    virtual_ranges_overlap (page_start s.virtual_address) (page_end (segment_end s))
      (page_start e.virtual_address) (page_end (segment_end e))
    && has_flag (bit_or s.flags e.flags) write_flag
    && has_flag (bit_or s.flags e.flags) execute_flag

-- The loop of `inspect_load_segment` over the segments that were accepted before.
unfoldable pub check_existing : Segment → List Segment → Outcome (Unit {0})
check_existing s [] = pass tt
check_existing s (e ∷ rest) = do
  reject (bytes_overlap s e) segment_overlap
  reject (pages_conflict s e) writable_code
  check_existing s rest

-- The tests of one program header on its own.
unfoldable pub check_segment : Segment → ℕ → Outcome (Unit {0})
check_segment s image_size = do
  reject
      (not (bit_and s.flags (2 ^ 32 - 8) == 0)
        || s.memory_size == 0
        || ltb s.memory_size s.file_size)
      invalid_segment
  reject (has_flag s.flags write_flag && has_flag s.flags execute_flag) writable_code
  reject (not (range_fits_size s.file_offset s.file_size image_size)) segment_out_of_range
  reject
      (ltb s.virtual_address min_user_vaddr
        || ltb max_user_vaddr s.virtual_address
        || ltb (max_user_vaddr - s.virtual_address) (sub64 s.memory_size 1))
      segment_out_of_range
  reject
      (ltb 1 s.alignment
        && (not (is_power_of_two s.alignment)
            || not (
                bit_and s.virtual_address (s.alignment - 1)
                == bit_and s.file_offset (s.alignment - 1))))
      invalid_segment

-- The plan under construction and `entry_is_executable`.
pub record Scan : Type 0 where
  pub plan : Plan
  pub entry_is_executable : Bool

-- The entry point lies in executable bytes that come from the file.
abbrev pub entry_in : Segment → ℕ → Bool
entry_in s entry_point =
    has_flag s.flags execute_flag
    && leb s.virtual_address entry_point
    && ltb (entry_point - s.virtual_address) s.file_size

-- The end of `inspect_load_segment`, where a segment is accepted.
unfoldable pub accept_segment : Segment → Scan → Scan
accept_segment s scan = record {
  plan = record plan {
    segments = plan.segments ++ (s ∷ []);
    virtual_base =
        if plan.virtual_base == u64_mod - 1 || ltb s.virtual_address plan.virtual_base
        then s.virtual_address
        else plan.virtual_base;
    virtual_end = if ltb plan.virtual_end (segment_end s) then segment_end s else plan.virtual_end;
  };
  entry_is_executable = if entry_in s plan.entry_point then true else scan.entry_is_executable;
}
  where
    plan : Plan
    plan = scan.plan

unfoldable pub inspect_load_segment : Segment → ℕ → Scan → Outcome Scan
unfolding check_segment check_existing accept_segment
inspect_load_segment s image_size scan = do
  check_segment s image_size
  reject (leb max_load_segments (length scan.plan.segments)) too_many_segments
  check_existing s scan.plan.segments
  pass (accept_segment s scan)
