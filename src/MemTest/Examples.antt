-- ===== src/MemTest/Examples.antt =====
-- A map of three entries, out of order: low memory, memory from 1 MiB to 64 MiB, and a reserved range
-- that overlaps its end.
use nostalux_os.Base.{ℕ, ◌^◌, ◌≤◌, ◌<◌, ◌≡◌, refl, some, arith, ◌==◌, if◌then◌else◌}
use nostalux_os.MemTest.{
  Entry, BootInfo, heap_base, mapped_limit, map_entries, collect, insert_point, sort_points,
  unique_points, covered_by_usable, covered_by_reserved, heap_limit_after, add_segment,
  survey_segments, survey_points, survey_entries, detect_entries, detect_boot,
  memtest_detect_memory, memtest_detect_upper_limit,
}
use nostalux_os.MemTest.Detected.{IsUsable, memtest_detect_upper_limit-IsUsable}

abbrev boot : BootInfo
boot = record { e820_map = 0x8000; e820_count = 3; e820_entry_size = 24 }

abbrev entry_at : ℕ → Entry
entry_at a =
    if a == 0x8000
    then record { base = 0x100000; size = 0x3f00000; kind = 1; attributes = 1 }
    else if a == 0x8018
    then record { base = 0x3e00000; size = 0x400000; kind = 2; attributes = 1 }
    else record { base = 0; size = 0x9f000; kind = 1; attributes = 1 }

boot-limit : memtest_detect_upper_limit entry_at (some boot) ≡ 0x3e00000
unfolding memtest_detect_upper_limit memtest_detect_memory detect_boot detect_entries survey_entries
    survey_points survey_segments add_segment heap_limit_after covered_by_usable covered_by_reserved
    unique_points sort_points insert_point collect
boot-limit = refl

entry_at-base : (a : ℕ) → (entry_at a).base < 2 ^ 64
entry_at-base a = ground arith

memtest_detect_upper_limit-IsUsable_example :
    (memtest_detect_upper_limit entry_at (some boot) ≤ mapped_limit)
    × ((a : ℕ)
        → heap_base ≤ a
        → a < memtest_detect_upper_limit entry_at (some boot)
        → IsUsable 24 (map_entries entry_at 0x8000 24 3) a)
memtest_detect_upper_limit-IsUsable_example =
    memtest_detect_upper_limit-IsUsable entry_at boot entry_at-base
