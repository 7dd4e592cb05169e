-- ===== src/Fs/Load.antt =====
-- kernel/fs.c: mounting one of the two slots of the disk. The driver kernel/ata.c is outside this part:
-- its answers are a parameter, `read lba count` the bytes of the sectors, or none when `ata_read`
-- fails. The messages to the system log are left out.
pub mod Generation
pub mod Snapshot
pub mod Order
pub mod Trust
pub mod Newest
use nostalux_os.Base.{
  u32_mod, add32, sub32, ℕ, zero, suc, ◌+◌, ◌*◌, ◌%◌, ◌^◌, Bool, true, false, not, ◌&&◌, ◌||◌,
  Option, none, some, List, [], ltb, leb, ◌==◌, if◌then◌else◌,
}
use nostalux_os.Fs.{File, unavailable, available, Fs}
use nostalux_os.Fs.Bytes.{
  fs_integrity_disk_version, fs_disk_version, fs_disk_table_sectors, table_of, fs_checksum,
  header_of, fs_header_is_valid, fs_bytes_are_blank, fs_header_is_blank, fs_header_generation,
  fs_generation_is_newer, fs_bytes_equal,
}
use nostalux_os.Fs.Table.{fs_deserialize_current, fs_deserialize_legacy}
use nostalux_os.Syslog.Ring.{slot}

pub data AtaInit : Type 0 where
  init_error ready no_device : AtaInit

abbrev pub Reader : Type 0
Reader = ℕ → ℕ → Option (List ℕ)

pub data LoadResult : Type 0 where
  loaded loaded_io_error loaded_corrupt no_drive blank corrupt io_error : LoadResult

pub data SlotResult : Type 0 where
  slot_loaded slot_corrupt slot_io_error : SlotResult

pub data CompareResult : Type 0 where
  compare_equal compare_different compare_io_error : CompareResult

abbrev pub fs_storage_lba : ℕ
fs_storage_lba = 2048

abbrev pub fs_slot_sectors : ℕ
fs_slot_sectors = 1 + fs_disk_table_sectors

abbrev pub fs_slot_header_lba : ℕ → ℕ
fs_slot_header_lba slot = (fs_storage_lba + slot * fs_slot_sectors) % u32_mod

unfoldable pub fs_loaded_result : Bool → Bool → LoadResult
fs_loaded_result saw_io_error saw_corruption =
    if saw_io_error then loaded_io_error else if saw_corruption then loaded_corrupt else loaded

-- The end of `fs_load_slot`, by what the table was deserialized to.
abbrev pub mounted : ℕ → List ℕ → Option (List File) → Fs → SlotResult × Fs
mounted slot header none fs = (slot_corrupt, fs)
mounted slot header (some files) fs = (
  slot_loaded,
  record fs {
    files = files;
    active_slot = slot;
    active_generation = fs_header_generation header;
    loaded_version = (header_of header).version;
  },
)

-- `fs_load_slot` on the table that was read.
abbrev pub load_table : ℕ → List ℕ → Option (List ℕ) → Fs → SlotResult × Fs
load_table slot header none fs = (slot_io_error, fs)
load_table slot header (some table) fs =
    if not ((header_of header).checksum == fs_checksum table)
    then (slot_corrupt, fs)
    else if leb fs_disk_version (header_of header).version
    then mounted slot header (fs_deserialize_current (table_of table)) fs
    else mounted slot header (fs_deserialize_legacy (table_of table)) fs

unfoldable pub fs_load_slot : Reader → ℕ → List ℕ → Fs → SlotResult × Fs
fs_load_slot read slot header fs =
    load_table slot header (read ((fs_slot_header_lba slot + 1) % u32_mod) fs_disk_table_sectors) fs

abbrev pub compare_sectors : Option (List ℕ) → Option (List ℕ) → CompareResult → CompareResult
compare_sectors none second rest = compare_io_error
compare_sectors (some a) none rest = compare_io_error
compare_sectors (some a) (some b) rest =
    if not (fs_bytes_equal a b) then compare_different else rest

-- The loop of `fs_compare_slot_tables`, with `left` sectors to go.
unfoldable pub compare_from : Reader → ℕ → ℕ → ℕ → CompareResult
compare_from read first_lba second_lba zero = compare_equal
compare_from read first_lba second_lba (suc left) =
    compare_sectors (read first_lba 1) (read second_lba 1)
      (compare_from read (add32 first_lba 1) (add32 second_lba 1) left)

unfoldable pub fs_compare_slot_tables : Reader → ℕ → ℕ → CompareResult
fs_compare_slot_tables read first_slot second_slot =
    compare_from read (add32 (fs_slot_header_lba first_slot) 1)
      (add32 (fs_slot_header_lba second_slot) 1) fs_disk_table_sectors

-- The header of a slot as it was read, with `valid[slot]`; a header that could not be read is cleared.
pub record HeaderRead : Type 0 where
  pub bytes : List ℕ
  pub valid : Bool
  pub saw_nonblank_invalid : Bool
  pub saw_io_error : Bool

unfoldable pub header_read : Option (List ℕ) → HeaderRead
header_read none = record {
  bytes = [];
  valid = false;
  saw_nonblank_invalid = false;
  saw_io_error = true;
}
header_read (some bytes) = record {
  bytes = bytes;
  valid = fs_header_is_valid bytes;
  saw_nonblank_invalid = not (fs_header_is_valid bytes) && not (fs_header_is_blank bytes);
  saw_io_error = false;
}

abbrev pub is_protected : HeaderRead → Bool
is_protected h = h.valid && leb fs_integrity_disk_version (header_of h.bytes).version

abbrev pub is_legacy : HeaderRead → Bool
is_legacy h = h.valid && ltb (header_of h.bytes).version fs_integrity_disk_version

abbrev pub generation_of : HeaderRead → ℕ
generation_of h = if h.valid then fs_header_generation h.bytes else 0

pub record Ambiguity : Type 0 where
  pub saw_io_error : Bool
  pub legacy_order : Bool
  pub protected_order : Bool

abbrev pub compared : CompareResult → Bool → Ambiguity
compared compare_equal both_legacy = record {
  saw_io_error = false;
  legacy_order = false;
  protected_order = false;
}
compared compare_io_error both_legacy = record {
  saw_io_error = true;
  legacy_order = false;
  protected_order = false;
}
compared compare_different both_legacy = record {
  saw_io_error = false;
  legacy_order = both_legacy;
  protected_order = not both_legacy;
}

-- Whether the order of the two slots is ambiguous.
unfoldable pub slot_order : Reader → HeaderRead → HeaderRead → Ambiguity
slot_order read h0 h1 =
    let both_legacy = is_legacy h0 && is_legacy h1 in
    let both_protected = is_protected h0 && is_protected h1 in
    let found =
      if both_legacy || (both_protected && (generation_of h0 == generation_of h1))
      then compared (fs_compare_slot_tables read 0 1) both_legacy
      else compared compare_equal both_legacy in
    record found {
      protected_order =
          found.protected_order
          || (both_protected && (sub32 (generation_of h0) (generation_of h1) == 2 ^ 31));
    }

-- Whether slot 1 is tried before slot 0.
unfoldable pub is_second_first : HeaderRead → HeaderRead → Bool
is_second_first h0 h1 =
    h1.valid
    && (not h0.valid
        || (is_protected h1 && not (is_protected h0))
        || ((is_protected h1 && is_protected h0 || not (is_protected h1) && not (is_protected h0))
            && fs_generation_is_newer (fs_header_generation h1.bytes)
                (fs_header_generation h0.bytes)))

-- The two reads of the tables of a disk without a valid header.
abbrev pub blank_tables : Option (List ℕ) → Option (List ℕ) → LoadResult
blank_tables none second = io_error
blank_tables (some a) none = io_error
blank_tables (some a) (some b) =
    if fs_bytes_are_blank a && fs_bytes_are_blank b then blank else corrupt

unfoldable pub not_loaded : Reader → Bool → Bool → LoadResult
not_loaded read saw_io_error saw_corruption =
    if saw_io_error
    then io_error
    else if saw_corruption
    then corrupt
    else blank_tables (read (add32 (fs_slot_header_lba 0) 1) fs_disk_table_sectors)
        (read (add32 (fs_slot_header_lba 1) 1) fs_disk_table_sectors)

abbrev pub mark_legacy : Bool → Fs → Fs
mark_legacy true fs = record fs { legacy = available }
mark_legacy false fs = fs

-- What is seen of both headers and their order.
pub record Seen : Type 0 where
  pub io_error_ : Bool
  pub nonblank_invalid : Bool
  pub legacy_order : Bool
  pub ambiguous : Bool

abbrev pub after_second : Reader → Seen → Bool → SlotResult × Fs → LoadResult × Fs
after_second read seen corrupt_slot (slot_loaded, fs) = (
  fs_loaded_result seen.io_error_ (corrupt_slot || seen.nonblank_invalid || seen.ambiguous),
  mark_legacy seen.legacy_order fs,
)
after_second read seen corrupt_slot (slot_corrupt, fs) = (not_loaded read seen.io_error_ true, fs)
after_second read seen corrupt_slot (slot_io_error, fs) =
    (not_loaded read true (corrupt_slot || seen.nonblank_invalid), fs)

unfoldable pub try_second : Reader → ℕ → HeaderRead → Seen → Bool → Fs → LoadResult × Fs
try_second read slot h seen corrupt_slot fs =
    if h.valid
    then after_second read seen corrupt_slot (fs_load_slot read slot h.bytes fs)
    else (not_loaded read seen.io_error_ (corrupt_slot || seen.nonblank_invalid), fs)

abbrev pub after_first : Reader → ℕ → HeaderRead → Seen → SlotResult × Fs → LoadResult × Fs
after_first read slot h seen (slot_loaded, fs) = (
  fs_loaded_result seen.io_error_ (seen.nonblank_invalid || seen.ambiguous),
  mark_legacy seen.legacy_order fs,
)
after_first read slot h seen (slot_corrupt, fs) = try_second read slot h seen true fs
after_first read slot h seen (slot_io_error, fs) =
    try_second read slot h (record seen { io_error_ = true }) false fs

unfoldable pub try_first : Reader → ℕ → HeaderRead → ℕ → HeaderRead → Seen → Fs → LoadResult × Fs
try_first read slot h other h' seen fs =
    if h.valid
    then after_first read other h' seen (fs_load_slot read slot h.bytes fs)
    else try_second read other h' seen false fs

abbrev pub seen_of : HeaderRead → HeaderRead → Ambiguity → Seen
seen_of h0 h1 order = record {
  io_error_ = h0.saw_io_error || h1.saw_io_error || order.saw_io_error;
  nonblank_invalid = h0.saw_nonblank_invalid || h1.saw_nonblank_invalid;
  legacy_order = order.legacy_order;
  ambiguous = order.legacy_order || order.protected_order;
}

unfoldable pub load_slots : Reader → HeaderRead → HeaderRead → Fs → LoadResult × Fs
load_slots read h0 h1 fs =
    let seen = seen_of h0 h1 (slot_order read h0 h1) in
    if is_second_first h0 h1
    then try_first read 1 h1 0 h0 seen fs
    else try_first read 0 h0 1 h1 seen fs

abbrev pub unmounted : Fs → Fs
unmounted fs = record fs { active_slot = 2; active_generation = 0; loaded_version = 0 }

unfoldable pub fs_load_from_disk : AtaInit → Reader → Fs → LoadResult × Fs
fs_load_from_disk no_device read fs = (no_drive, record fs { legacy = unavailable })
fs_load_from_disk init_error read fs = (io_error, record fs { legacy = unavailable })
fs_load_from_disk ready read fs =
    load_slots read (header_read (read (fs_slot_header_lba 0) 1))
      (header_read (read (fs_slot_header_lba 1) 1)) (unmounted (record fs { legacy = unavailable }))
