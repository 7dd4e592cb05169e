-- ===== src/Elf/Inspect.antt =====
-- kernel/elf64_loader.c: `elf64_inspect`.
use nostalux_os.Base.{
  u64_mod, sub64, ℕ, zero, suc, ◌+◌, ◌-◌, ◌*◌, Bool, true, false, not, ◌||◌, Option, none, some,
  List, [], ltb, ◌==◌, length,
}
use nostalux_os.Elf.Reader.{
  invalid_argument, truncated, bad_magic, unsupported_format, unsupported_architecture,
  unsupported_feature, too_many_headers, invalid_segment, invalid_entry_point, image_too_large,
  Outcome, pass, fail, ◌>>=◌, ◌>>◌, reject, byte_at, read_u16_le, read_u32_le, read_u64_le,
}
use nostalux_os.Elf.Segments.{
  range_fits_size, Segment, Plan, max_program_headers, max_image_span, Scan, inspect_load_segment,
}

-- The fields that `inspect_load_segment` reads from the program header first.
unfoldable pub read_segment : List ℕ → ℕ → Outcome Segment
read_segment bytes header = do
  flags ← read_u32_le bytes (header + 4)
  file_offset ← read_u64_le bytes (header + 8)
  virtual_address ← read_u64_le bytes (header + 16)
  file_size ← read_u64_le bytes (header + 32)
  memory_size ← read_u64_le bytes (header + 40)
  alignment ← read_u64_le bytes (header + 48)
  pass (record {
    virtual_address = virtual_address;
    memory_size = memory_size;
    file_size = file_size;
    file_offset = file_offset;
    alignment = alignment;
    flags = flags;
  })

-- The body of the loop over the program headers; 1 is PT_LOAD, 2 PT_DYNAMIC, 3 PT_INTERP and
-- 7 PT_TLS.
unfoldable pub inspect_header : List ℕ → ℕ → Scan → Outcome Scan
unfolding read_segment inspect_load_segment read_u32_le
inspect_header bytes header scan = do
  kind ← read_u32_le bytes header
  reject (kind == 2 || kind == 3 || kind == 7) unsupported_feature
  elim (kind == 1) [
    | true ↦ read_segment bytes header >>= λ s. inspect_load_segment s (length bytes) scan
    | false ↦ pass scan
  ]

-- The loop, with the headers left as its first argument.
unfoldable pub inspect_headers : ℕ → List ℕ → ℕ → Scan → Outcome Scan
inspect_headers zero bytes header scan = pass scan
inspect_headers (suc count) bytes header scan = do
  scan' ← inspect_header bytes header scan
  inspect_headers count bytes (header + 56) scan'

abbrev pub span : Scan → ℕ
span scan = sub64 scan.plan.virtual_end scan.plan.virtual_base

-- The last operand compares with SIZE_MAX.
abbrev pub span_refused : Scan → Bool
span_refused scan =
    span scan == 0 || ltb max_image_span (span scan) || ltb (u64_mod - 1) (span scan)

-- The tests after the loop, and the span.
unfoldable pub finish_plan : Scan → Outcome Plan
finish_plan scan = do
  reject (length scan.plan.segments == 0) invalid_segment
  reject (not scan.entry_is_executable) invalid_entry_point
  reject (span_refused scan) image_too_large
  pass (record (scan.plan) { image_span = span scan })

abbrev pub first_scan : ℕ → Scan
first_scan entry_point = record {
  plan = record {
    entry_point = entry_point;
    virtual_base = u64_mod - 1;
    virtual_end = 0;
    image_span = 0;
    segments = [];
  };
  entry_is_executable = false;
}

-- The tests of the place of the program headers.
unfoldable pub check_header_table : ℕ → ℕ → ℕ → Outcome (ℕ × ℕ)
unfolding range_fits_size
check_header_table program_offset program_count image_size = do
  reject (program_count == 0 || ltb max_program_headers program_count) too_many_headers
  reject
      (ltb program_offset 64
        || not (range_fits_size program_offset (program_count * 56) image_size))
      truncated
  pass (program_offset, program_count)

-- The tests of the ELF header; the result is the offset and the number of the program headers.
unfoldable pub inspect_file_header : List ℕ → Outcome (ℕ × ℕ)
inspect_file_header bytes = do
  m0 ← byte_at bytes 0
  m1 ← byte_at bytes 1
  m2 ← byte_at bytes 2
  m3 ← byte_at bytes 3
  reject (not (m0 == 0x7f) || not (m1 == b'E') || not (m2 == b'L') || not (m3 == b'F')) bad_magic
  class ← byte_at bytes 4
  encoding ← byte_at bytes 5
  ident_version ← byte_at bytes 6
  version ← read_u32_le bytes 20
  kind ← read_u16_le bytes 16
  header_size ← read_u16_le bytes 52
  entry_size ← read_u16_le bytes 54
  reject
      (not (class == 2)
        || not (encoding == 1)
        || not (ident_version == 1)
        || not (version == 1)
        || not (kind == 2)
        || not (header_size == 64)
        || not (entry_size == 56))
      unsupported_format
  machine ← read_u16_le bytes 18
  reject (not (machine == 62)) unsupported_architecture
  program_offset ← read_u64_le bytes 32
  program_count ← read_u16_le bytes 56
  check_header_table program_offset program_count (length bytes)

unfoldable pub inspect_bytes : List ℕ → Outcome Plan
unfolding inspect_file_header check_header_table inspect_headers inspect_header finish_plan
inspect_bytes bytes = do
  reject (ltb (length bytes) 64) truncated
  (program_offset, program_count) ← inspect_file_header bytes
  entry_point ← read_u64_le bytes 24
  scan ← inspect_headers program_count bytes program_offset (first_scan entry_point)
  finish_plan scan

-- The image is `none` for NULL, and `out_plan` says whether the second pointer is not NULL. `pass p`
-- is the case in which `*out_plan` becomes `p`; any other leaves it alone.
unfoldable pub elf64_inspect : Option (List ℕ) → Bool → Outcome Plan
unfolding inspect_bytes
elf64_inspect none out_plan = fail invalid_argument
elf64_inspect (some bytes) false = fail invalid_argument
elf64_inspect (some bytes) true = inspect_bytes bytes
