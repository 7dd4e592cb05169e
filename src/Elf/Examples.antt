-- ===== src/Elf/Examples.antt =====
-- The theorems on kernel/elf64_loader.c at a small executable: one readable and executable segment
-- of 128 bytes that the whole file of 124 bytes backs, entered at its last four bytes.
use nostalux_os.Base.{ℕ, ◌≡◌, refl, ◌≢◌, true, some, List, [], ◌∷◌, arith, drop, replicate}
use nostalux_os.Elf.Inspect.{elf64_inspect}
use nostalux_os.Elf.Load.{host_ranges_overlap, elf64_load_contiguous}
use nostalux_os.Elf.Loaded.{Holds, elf64_load_contiguous-Holds, elf64_load_contiguous-ne-fault}
use nostalux_os.Elf.Reader.{bad_magic, pass, fail, fault, read_u16_le, read_u32_le, read_u64_le}
use nostalux_os.Elf.Segments.{range_fits_size, is_power_of_two, Segment, Plan}
use nostalux_os.Elf.Sound.{IsBytes, IsSound}
use nostalux_os.Elf.Verdict.{elf64_inspect-ne-fault, elf64_inspect-IsSound}

abbrev image : List ℕ
image =
    127 ∷ 69 ∷ 76 ∷ 70 ∷ 2 ∷ 1 ∷ 1 ∷ 0 ∷ 0 ∷ 0 ∷ 0 ∷ 0 ∷ 0 ∷ 0 ∷ 0 ∷ 0 ∷ 2 ∷ 0 ∷ 62 ∷ 0 ∷ 1 ∷ 0 ∷ 0
    ∷ 0 ∷ 120 ∷ 0 ∷ 0 ∷ 0 ∷ 0 ∷ 1 ∷ 0 ∷ 0 ∷ 64 ∷ 0 ∷ 0 ∷ 0 ∷ 0 ∷ 0 ∷ 0 ∷ 0 ∷ 0 ∷ 0 ∷ 0 ∷ 0 ∷ 0 ∷ 0
    ∷ 0 ∷ 0 ∷ 0 ∷ 0 ∷ 0 ∷ 0 ∷ 64 ∷ 0 ∷ 56 ∷ 0 ∷ 1 ∷ 0 ∷ 0 ∷ 0 ∷ 0 ∷ 0 ∷ 0 ∷ 0 ∷ 1 ∷ 0 ∷ 0 ∷ 0 ∷ 5
    ∷ 0 ∷ 0 ∷ 0 ∷ 0 ∷ 0 ∷ 0 ∷ 0 ∷ 0 ∷ 0 ∷ 0 ∷ 0 ∷ 0 ∷ 0 ∷ 0 ∷ 0 ∷ 0 ∷ 1 ∷ 0 ∷ 0 ∷ 0 ∷ 0 ∷ 0 ∷ 0 ∷ 0
    ∷ 0 ∷ 0 ∷ 0 ∷ 124 ∷ 0 ∷ 0 ∷ 0 ∷ 0 ∷ 0 ∷ 0 ∷ 0 ∷ 128 ∷ 0 ∷ 0 ∷ 0 ∷ 0 ∷ 0 ∷ 0 ∷ 0 ∷ 0 ∷ 16 ∷ 0 ∷ 0
    ∷ 0 ∷ 0 ∷ 0 ∷ 0 ∷ 144 ∷ 144 ∷ 15 ∷ 11 ∷ []

abbrev segment : Segment
segment = record {
  virtual_address = 0x0000_0100_0000_0000;
  memory_size = 128;
  file_size = 124;
  file_offset = 0;
  alignment = 4096;
  flags = 5;
}

abbrev plan : Plan
plan = record {
  entry_point = 0x0000_0100_0000_0078;
  virtual_base = 0x0000_0100_0000_0000;
  virtual_end = 0x0000_0100_0000_0080;
  image_span = 128;
  segments = segment ∷ [];
}

image_accepted : elf64_inspect (some image) true ≡ pass plan
unfolding elf64_inspect read_u16_le read_u32_le read_u64_le range_fits_size is_power_of_two
image_accepted = refl

-- One bit of the magic number is enough to be refused.
image_refused : elf64_inspect (some (126 ∷ drop 1 image)) true ≡ fail bad_magic
unfolding elf64_inspect read_u16_le read_u32_le read_u64_le
image_refused = refl

image-IsBytes : IsBytes image
image-IsBytes = omega arith

elf64_inspect-ne-fault_example : elf64_inspect (some image) true ≢ fault
elf64_inspect-ne-fault_example = elf64_inspect-ne-fault image image-IsBytes

elf64_inspect-IsSound_example : IsSound 124 plan
elf64_inspect-IsSound_example = elf64_inspect-IsSound image image-IsBytes image_accepted

abbrev destination : List ℕ
destination = replicate 130 255

elf64_load_contiguous-Holds_example :
    (out : List ℕ) × (elf64_load_contiguous
        (some (0x10_0000, image))
        (some (0x20_0000, destination))
      ≡ pass (out, plan))
    × Holds plan image destination out
unfolding host_ranges_overlap
elf64_load_contiguous-Holds_example =
    elf64_load_contiguous-Holds 0x10_0000 image 0x20_0000 destination plan image-IsBytes
      image_accepted (omega arith) refl

elf64_load_contiguous-ne-fault_example :
    elf64_load_contiguous (some (0x10_0000, image)) (some (0x20_0000, destination)) ≢ fault
elf64_load_contiguous-ne-fault_example =
    elf64_load_contiguous-ne-fault 0x10_0000 image 0x20_0000 destination image-IsBytes
