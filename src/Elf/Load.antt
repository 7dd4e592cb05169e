-- ===== src/Elf/Load.antt =====
-- kernel/elf64_loader.c: `elf64_load_contiguous`.
use nostalux_os.Base.{
  u64_mod, add64, sub64, ℕ, ◌-◌, Bool, true, false, ◌&&◌, ◌||◌, Option, none, some, List, [], ◌∷◌,
  ltb, ◌==◌, if◌then◌else◌, length,
}
use nostalux_os.Elf.Inspect.{elf64_inspect}
use nostalux_os.Elf.Reader.{
  invalid_argument, destination_too_small, buffer_overlap, Outcome, pass, fail, ◌>>=◌, ◌>>◌, reject,
  clear_bytes, copy_bytes,
}
use nostalux_os.Elf.Segments.{Segment, Plan}

unfoldable pub host_ranges_overlap : ℕ → ℕ → ℕ → ℕ → Bool
host_ranges_overlap first first_size second second_size =
    if first_size == 0 || second_size == 0
    then false
    else if ltb (u64_mod - 1 - first_size) first || ltb (u64_mod - 1 - second_size) second
    then true
    else ltb first (add64 second second_size) && ltb second (add64 first first_size)

-- The loop of `elf64_load_contiguous` over the segments of the plan.
unfoldable pub load_segments : List Segment → ℕ → List ℕ → List ℕ → Outcome (List ℕ)
load_segments [] base source loaded = pass loaded
load_segments (s ∷ rest) base source loaded = do
  loaded' ← copy_bytes s.file_size loaded (sub64 s.virtual_address base) source s.file_offset
  load_segments rest base source loaded'

-- The writes: the span is cleared, and the segments are copied.
unfoldable pub fill : Plan → List ℕ → List ℕ → Outcome (List ℕ × Plan)
fill plan source destination = do
  cleared ← clear_bytes plan.image_span destination 0
  loaded ← load_segments plan.segments plan.virtual_base source cleared
  pass (loaded, plan)

-- A pointer is `none` for NULL and else the address and the bytes of the buffer. The result is the
-- destination afterwards with the plan; an error leaves it alone.
unfoldable pub elf64_load_contiguous :
    Option (ℕ × List ℕ) → Option (ℕ × List ℕ) → Outcome (List ℕ × Plan)
elf64_load_contiguous none destination = fail invalid_argument
elf64_load_contiguous (some image) none = fail invalid_argument
elf64_load_contiguous (some (image_address, bytes)) (some (address, destination)) = do
  plan ← elf64_inspect (some bytes) true
  reject (ltb (length destination) plan.image_span) destination_too_small
  reject (host_ranges_overlap image_address (length bytes) address plan.image_span) buffer_overlap
  fill plan bytes destination
