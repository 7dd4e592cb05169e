-- ===== src/MemTest/Detected.antt =====
-- kernel/memtest.c: the heap lies in memory that the firmware reports as usable.
use nostalux_os.Base.{
  ℕ, zero, suc, ◌+◌, ◌-◌, ◌*◌, ◌^◌, ◌≤◌, ◌<◌, bit_and, ◌≡◌, refl, ◌≢◌, ◌⊎◌, Bool, true, false,
  Option, none, some, List, [], arith, ltb, ◌==◌, if◌then◌else◌, length,
}
use nostalux_os.MemTest.{
  unavailable, Entry, BootInfo, MemoryInfo, Refusal, outside_low_memory, no_enabled_ranges,
  no_usable_ram, heap_base, mapped_limit, map_entries, collect, Survey, survey_entries, zero_info,
  info_of, boot_is_invalid, detect_entries, detect_boot, memtest_detect_memory, upper_limit_of,
  memtest_detect_upper_limit,
}
use nostalux_os.MemTest.Covered.{HoldsAddress, IsCovered}
use nostalux_os.MemTest.Limit.{HeapIsCovered, survey_entries-usable}
use nostalux_os.MemTest.Points.{Occurs, IsMap}

map_entries-IsMap :
    (read : ℕ → Entry) (address entry_size count : ℕ)
    → ((a : ℕ) → (read a).base < 2 ^ 64)
    → IsMap (map_entries read address entry_size count)
map_entries-IsMap read address entry_size zero h = tt
map_entries-IsMap read address entry_size (suc count) h =
    (h address, map_entries-IsMap read (address + entry_size) entry_size count h)

-- An upper limit below which the addresses of the heap satisfy `P`.
abbrev IsLimit : (ℕ → Type 0) → ℕ → Type 0
IsLimit P limit = (limit ≤ mapped_limit) × ((a : ℕ) → heap_base ≤ a → a < limit → P a)

zero-IsLimit : (P : ℕ → Type 0) → IsLimit P 0
zero-IsLimit P = (omega arith, λ a lo hi. absurd (omega arith))

chosen-IsLimit :
    (P : ℕ → Type 0) (c : Bool) (x y : MemoryInfo × Option Refusal)
    → IsLimit P (upper_limit_of x)
    → IsLimit P (upper_limit_of y)
    → IsLimit P (upper_limit_of (if c then x else y))
chosen-IsLimit P true x y hx hy = hx
chosen-IsLimit P false x y hx hy = hy

found-IsLimit :
    (P : ℕ → Type 0) (found : Bool) (limit : ℕ)
    → limit ≤ mapped_limit
    → (found ≡ true → (a : ℕ) → heap_base ≤ a → a < limit → P a)
    → IsLimit P (if found then limit else 0)
found-IsLimit P true limit le h = (le, h refl)
found-IsLimit P false limit le h = zero-IsLimit P

surveyed-IsLimit :
    (entry_size : ℕ) (entries : List Entry) (s : Survey) (no_ram : Bool)
    → HeapIsCovered entry_size entries s
    → IsLimit
        (IsCovered entry_size entries)
        (upper_limit_of (info_of s, (if no_ram then some no_usable_ram else none)))
surveyed-IsLimit entry_size entries s true h = zero-IsLimit (IsCovered entry_size entries)
surveyed-IsLimit entry_size entries s false h =
    found-IsLimit (IsCovered entry_size entries) s.found_heap_base s.heap_limit h.in_map
      h.all_usable

detect_entries-IsLimit :
    (entry_size : ℕ) (entries : List Entry)
    → IsMap entries
    → IsLimit (IsCovered entry_size entries) (upper_limit_of (detect_entries entry_size entries))
unfolding detect_entries
detect_entries-IsLimit entry_size entries h =
    let s = survey_entries entry_size entries in
    let U = IsCovered entry_size entries in
    chosen-IsLimit U (ltb (length (collect entry_size entries [])) 2)
      (zero_info, some no_enabled_ranges)
      (info_of s, (if s.physical == 0 then some no_usable_ram else none)) (zero-IsLimit U)
      (surveyed-IsLimit entry_size entries s (s.physical == 0)
        (survey_entries-usable entry_size entries h))

detect_boot-IsLimit :
    (read : ℕ → Entry) (b : BootInfo)
    → ((a : ℕ) → (read a).base < 2 ^ 64)
    → IsLimit
        (IsCovered b.e820_entry_size (map_entries read b.e820_map b.e820_entry_size b.e820_count))
        (upper_limit_of (detect_boot read b))
unfolding detect_boot
detect_boot-IsLimit read b h =
    let entries = map_entries read b.e820_map b.e820_entry_size b.e820_count in
    let U = IsCovered b.e820_entry_size entries in
    let outside = ltb (0x100000 - b.e820_map) (b.e820_count * b.e820_entry_size) in
    let found = detect_entries b.e820_entry_size entries in
    chosen-IsLimit U (boot_is_invalid b) (zero_info, some unavailable)
      (if outside then (zero_info, some outside_low_memory) else found) (zero-IsLimit U)
      (chosen-IsLimit U outside (zero_info, some outside_low_memory) found (zero-IsLimit U)
        (detect_entries-IsLimit b.e820_entry_size entries
          (map_entries-IsMap read b.e820_map b.e820_entry_size b.e820_count h)))

-- The bytes of an enabled entry: one that has a size and, in a map whose entries have 24 bytes or more,
-- the enabled bit of its attributes.
pub record InEntry (entry_size a : ℕ) (e : Entry) : Type 0 where
  pub nonempty : e.size ≢ 0
  pub enabled : (entry_size < 24) ⊎ (bit_and e.attributes 1 ≢ 0)
  pub from : e.base ≤ a
  pub to : a < e.base + e.size

-- An enabled usable entry of the map holds the address, and no enabled entry of another kind does.
pub record IsUsable (entry_size : ℕ) (entries : List Entry) (a : ℕ) : Type 0 where
  pub entry : Entry
  pub occurs : Occurs entry entries
  pub usable : entry.kind ≡ 1
  pub holds : InEntry entry_size a entry
  pub not_reserved : (e : Entry) → Occurs e entries → InEntry entry_size a e → e.kind ≡ 1

holds-InEntry :
    (entry_size a : ℕ) (e : Entry) → HoldsAddress entry_size a e → InEntry entry_size a e
holds-InEntry entry_size a e (on, from, to) = record {
  nonempty = λ z. ground arith;
  enabled = ground arith;
  from = from;
  to = ground arith;
}

InEntry-holds :
    (entry_size a : ℕ) (e : Entry)
    → a < mapped_limit
    → InEntry entry_size a e
    → HoldsAddress entry_size a e
InEntry-holds entry_size a e low h = (ground (arith, h), h.from, ground (arith, h))

IsCovered-IsUsable :
    (entry_size : ℕ) (entries : List Entry) (a : ℕ)
    → a < mapped_limit
    → IsCovered entry_size entries a
    → IsUsable entry_size entries a
IsCovered-IsUsable entry_size entries a low h = record {
  entry = h.entry;
  occurs = h.occurs;
  usable = h.usable;
  holds = holds-InEntry entry_size a h.entry h.holds;
  not_reserved = λ e o i. h.not_reserved e o (InEntry-holds entry_size a e low i);
}

-- When the entries of the firmware's map have 64-bit bases, every address of the heap, from 8 MiB
-- up to the limit that is detected, is held by an enabled usable entry of the map and by no enabled
-- entry of another kind, whatever the order and the overlaps of the entries; the limit is 1 GiB at
-- most. An entry is enabled when its size is not 0 and, where the entries have 24 bytes or more, the
-- enabled bit of its attributes is set.
pub memtest_detect_upper_limit-IsUsable :
    (read : ℕ → Entry) (b : BootInfo)
    → ((a : ℕ) → (read a).base < 2 ^ 64)
    → (memtest_detect_upper_limit read (some b) ≤ mapped_limit)
      × ((a : ℕ)
          → heap_base ≤ a
          → a < memtest_detect_upper_limit read (some b)
          → IsUsable b.e820_entry_size
              (map_entries read b.e820_map b.e820_entry_size b.e820_count)
              a)
unfolding memtest_detect_upper_limit memtest_detect_memory
memtest_detect_upper_limit-IsUsable read b h =
    let found = detect_boot-IsLimit read b h in
    let entries = map_entries read b.e820_map b.e820_entry_size b.e820_count in
    (
      found.0,
      λ a from to.
          IsCovered-IsUsable b.e820_entry_size entries a (omega (arith, to, found.0))
            (found.1 a from to),
    )
