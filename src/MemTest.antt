-- ===== src/MemTest.antt =====
-- kernel/memtest.c: the memory map of the firmware, and the end of the kernel heap that is drawn from
-- it.
pub mod Points
pub mod Covered
pub mod Limit
pub mod Detected
mod Examples
use nostalux_os.Base.{
  ℕ, zero, suc, ◌+◌, ◌-◌, ◌*◌, ◌^◌, bit_and, Bool, true, false, not, ◌&&◌, ◌||◌, Option, none, some,
  List, [], ◌∷◌, ltb, leb, ◌==◌, if◌then◌else◌, length,
}

-- `struct e820_entry`; its type 1 is usable memory.
pub record Entry : Type 0 where
  pub base : ℕ
  pub size : ℕ
  pub kind : ℕ
  pub attributes : ℕ

-- The fields of `struct BootInfo` for the map.
pub record BootInfo : Type 0 where
  pub e820_map : ℕ
  pub e820_count : ℕ
  pub e820_entry_size : ℕ

pub record MemoryInfo : Type 0 where
  pub physical_usable_bytes : ℕ
  pub mapped_usable_bytes : ℕ
  pub reserved_low_usable_bytes : ℕ
  pub heap_upper_limit : ℕ

-- What is written to the system log when the map is refused.
pub data Refusal : Type 0 where
  unavailable outside_low_memory no_enabled_ranges no_usable_ram : Refusal

abbrev pub heap_base : ℕ
heap_base = 0x800000

abbrev pub mapped_limit : ℕ
mapped_limit = 0x40000000

abbrev pub u64_max : ℕ
u64_max = 2 ^ 64 - 1

abbrev pub range_end : Entry → ℕ
range_end e = if ltb (u64_max - e.base) e.size then u64_max else e.base + e.size

abbrev pub entry_is_enabled : ℕ → Entry → Bool
entry_is_enabled entry_size e =
    not (e.size == 0) && (ltb entry_size 24 || not (bit_and e.attributes 1 == 0))

abbrev pub saturating_add : ℕ → ℕ → ℕ
saturating_add left right = if ltb (u64_max - left) right then u64_max else left + right

abbrev pub intersection_size : ℕ → ℕ → ℕ → ℕ → ℕ
intersection_size start end limit_start limit_end =
    let s = if ltb start limit_start then limit_start else start in
    let e = if ltb limit_end end then limit_end else end in if ltb s e then e - s else 0

-- The entries of the map: `read` gives the entry that stands at an address.
abbrev pub map_entries : (ℕ → Entry) → ℕ → ℕ → ℕ → List Entry
map_entries read address entry_size zero = []
map_entries read address entry_size (suc count) =
    read address ∷ map_entries read (address + entry_size) entry_size count

-- The loop that collects the endpoints, the newest first.
unfoldable pub collect : ℕ → List Entry → List ℕ → List ℕ
collect entry_size [] points = points
collect entry_size (e ∷ entries) points =
    let rest = collect entry_size entries in
    if not (entry_is_enabled entry_size e) || leb (range_end e) e.base
    then rest points
    else rest (range_end e ∷ e.base ∷ points)

-- The inner loop of the sort: the part of the array before `i` is given from its end, and greater
-- values move up by one.
unfoldable pub insert_point : ℕ → List ℕ → List ℕ
insert_point value [] = value ∷ []
insert_point value (p ∷ before) =
    let rest = insert_point value before in if ltb value p then p ∷ rest else value ∷ p ∷ before

-- The outer loop, over the points in their order, and the sorted part from its end.
unfoldable pub sort_points : List ℕ → List ℕ → List ℕ
sort_points [] sorted = sorted
sort_points (value ∷ points) sorted = sort_points points (insert_point value sorted)

-- A list put before another in the reverse order.
abbrev pub reverse_onto : List ℕ → List ℕ → List ℕ
reverse_onto [] rest = rest
reverse_onto (p ∷ points) rest = reverse_onto points (p ∷ rest)

-- The loop that drops repeated points, after the point `last`.
unfoldable pub unique_points : ℕ → List ℕ → List ℕ
unique_points last [] = []
unique_points last (p ∷ points) =
    if not (p == last) then p ∷ unique_points p points else unique_points last points

-- An enabled entry that shares an address with [start, end).
abbrev pub touches : ℕ → ℕ → ℕ → Entry → Bool
touches entry_size start end e =
    entry_is_enabled entry_size e && not (leb end e.base || leb (range_end e) start)

-- The two flags of the loop over the entries.
unfoldable pub covered_by_usable : ℕ → List Entry → ℕ → ℕ → Bool
covered_by_usable entry_size [] start end = false
covered_by_usable entry_size (e ∷ entries) start end =
    (touches entry_size start end e && (e.kind == 1))
    || covered_by_usable entry_size entries start end

unfoldable pub covered_by_reserved : ℕ → List Entry → ℕ → ℕ → Bool
covered_by_reserved entry_size [] start end = false
covered_by_reserved entry_size (e ∷ entries) start end =
    (touches entry_size start end e && not (e.kind == 1))
    || covered_by_reserved entry_size entries start end

-- The local variables of the loop over the segments.
pub record Survey : Type 0 where
  pub physical : ℕ
  pub mapped : ℕ
  pub low : ℕ
  pub found_heap_base : Bool
  pub heap_limit : ℕ

abbrev pub capped : ℕ → ℕ
capped end = if ltb mapped_limit end then mapped_limit else end

unfoldable pub heap_limit_after : Bool → ℕ → ℕ → ℕ → Bool × ℕ
heap_limit_after found limit start end =
    if not found && leb start heap_base && ltb heap_base end
    then (true, capped end)
    else if found && leb start limit && ltb limit end && ltb limit mapped_limit
    then (true, capped end)
    else (found, limit)

unfoldable pub add_segment : Survey → ℕ → ℕ → Survey
add_segment s start end =
    let after = heap_limit_after s.found_heap_base s.heap_limit start end in
    record {
      physical = saturating_add s.physical (end - start);
      mapped = saturating_add s.mapped (intersection_size start end 0 mapped_limit);
      low = saturating_add s.low (intersection_size start end 0 heap_base);
      found_heap_base = after.0;
      heap_limit = after.1;
    }

-- The loop over the segments, from the point `start` on.
unfoldable pub survey_segments : ℕ → List Entry → ℕ → List ℕ → Survey → Survey
survey_segments entry_size entries start [] s = s
survey_segments entry_size entries start (end ∷ points) s =
    survey_segments entry_size entries end points (
      if not (covered_by_usable entry_size entries start end)
        || covered_by_reserved entry_size entries start end
      then s
      else add_segment s start end)

abbrev pub empty_survey : Survey
empty_survey = record {
  physical = 0;
  mapped = 0;
  low = 0;
  found_heap_base = false;
  heap_limit = heap_base;
}

-- The survey of a map of entries.
unfoldable pub survey_points : ℕ → List Entry → List ℕ → Survey
survey_points entry_size entries [] = empty_survey
survey_points entry_size entries (p ∷ points) =
    survey_segments entry_size entries p (unique_points p points) empty_survey

unfoldable pub survey_entries : ℕ → List Entry → Survey
survey_entries entry_size entries =
    let points = reverse_onto (collect entry_size entries []) [] in
    survey_points entry_size entries (reverse_onto (sort_points points []) [])

abbrev pub zero_info : MemoryInfo
zero_info = record {
  physical_usable_bytes = 0;
  mapped_usable_bytes = 0;
  reserved_low_usable_bytes = 0;
  heap_upper_limit = 0;
}

abbrev pub info_of : Survey → MemoryInfo
info_of s = record {
  physical_usable_bytes = s.physical;
  mapped_usable_bytes = s.mapped;
  reserved_low_usable_bytes = s.low;
  heap_upper_limit = if s.found_heap_base then s.heap_limit else 0;
}

abbrev pub boot_is_invalid : BootInfo → Bool
boot_is_invalid b =
    (b.e820_count == 0)
    || ltb 64 b.e820_count
    || ltb b.e820_entry_size 20
    || ltb 64 b.e820_entry_size
    || ltb b.e820_map 0x1000
    || leb 0x100000 b.e820_map

-- The information, and none for the result true.
unfoldable pub detect_entries : ℕ → List Entry → MemoryInfo × Option Refusal
detect_entries entry_size entries =
    let s = survey_entries entry_size entries in
    if ltb (length (collect entry_size entries [])) 2
    then (zero_info, some no_enabled_ranges)
    else (info_of s, (if s.physical == 0 then some no_usable_ram else none))

unfoldable pub detect_boot : (ℕ → Entry) → BootInfo → MemoryInfo × Option Refusal
detect_boot read b =
    if boot_is_invalid b
    then (zero_info, some unavailable)
    else if ltb (0x100000 - b.e820_map) (b.e820_count * b.e820_entry_size)
    then (zero_info, some outside_low_memory)
    else detect_entries b.e820_entry_size
        (map_entries read b.e820_map b.e820_entry_size b.e820_count)

unfoldable pub memtest_detect_memory : (ℕ → Entry) → Option BootInfo → MemoryInfo × Option Refusal
memtest_detect_memory read none = (zero_info, some unavailable)
memtest_detect_memory read (some b) = detect_boot read b

abbrev pub upper_limit_of : MemoryInfo × Option Refusal → ℕ
upper_limit_of (info, some refusal) = 0
upper_limit_of (info, none) = info.heap_upper_limit

unfoldable pub memtest_detect_upper_limit : (ℕ → Entry) → Option BootInfo → ℕ
memtest_detect_upper_limit read boot = upper_limit_of (memtest_detect_memory read boot)
