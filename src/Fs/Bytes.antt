-- ===== src/Fs/Bytes.antt =====
-- kernel/fs.c: the bytes of the table and of the header on the disk, and their checksums.
pub mod Records
pub mod Written
pub mod Serialized
use nostalux_os.Base.{
  u32_mod, sub32, ℕ, zero, suc, ◌+◌, ◌-◌, ◌*◌, ◌/◌, ◌%◌, ◌^◌, bit_xor, Bool, true, false, not, ◌&&◌,
  ◌||◌, List, [], ◌∷◌, ◌++◌, ltb, leb, ◌==◌, if◌then◌else◌, get_or, take, drop,
}
use nostalux_os.Fs.{fs_max_files, fs_max_filename}
use nostalux_os.Fs.Table.{fs_disk_data_bytes, DiskRecord, zeros, are_blank}

abbrev pub fs_magic_val : ℕ
fs_magic_val = 3126770193

abbrev pub fs_legacy_disk_version : ℕ
fs_legacy_disk_version = 1

abbrev pub fs_integrity_disk_version : ℕ
fs_integrity_disk_version = 4

abbrev pub fs_disk_version : ℕ
fs_disk_version = 5

abbrev pub fs_disk_record_bytes : ℕ
fs_disk_record_bytes = 1 + fs_max_filename + 4 + fs_disk_data_bytes

abbrev pub fs_disk_table_bytes : ℕ
fs_disk_table_bytes = fs_disk_record_bytes * fs_max_files

abbrev pub fs_disk_table_sectors : ℕ
fs_disk_table_sectors = (fs_disk_table_bytes + 511) / 512

abbrev pub fs_disk_table_pad : ℕ
fs_disk_table_pad = fs_disk_table_sectors * 512 - fs_disk_table_bytes

-- A `uint32_t` in memory, its lowest byte first.
abbrev pub bytes_of : ℕ → List ℕ
bytes_of v = (v % 256) ∷ (v / 256 % 256) ∷ (v / 65536 % 256) ∷ (v / 16777216 % 256) ∷ []

abbrev pub u32_of : List ℕ → ℕ
u32_of (a ∷ b ∷ c ∷ d ∷ rest) = a + 256 * b + 65536 * c + 16777216 * d
u32_of _ = 0

unfoldable pub record_bytes : DiskRecord → List ℕ
record_bytes r = (r.in_use ∷ []) ++ r.name ++ bytes_of r.size ++ r.data_

unfoldable pub records_bytes : List DiskRecord → List ℕ
records_bytes [] = zeros fs_disk_table_pad
records_bytes (r ∷ records) = record_bytes r ++ records_bytes records

-- The bytes of `struct fs_disk_table`.
abbrev pub table_bytes : List DiskRecord → List ℕ
table_bytes records = records_bytes records

-- The record at the start of the bytes.
unfoldable pub record_of : List ℕ → DiskRecord
record_of bytes = record {
  in_use = get_or bytes 0 0;
  name = take fs_max_filename (drop 1 bytes);
  size = u32_of (drop fs_max_filename (drop 1 bytes));
  data_ = take fs_disk_data_bytes (drop 4 (drop fs_max_filename (drop 1 bytes)));
}

unfoldable pub records_of : ℕ → List ℕ → List DiskRecord
records_of zero bytes = []
records_of (suc n) bytes = record_of bytes ∷ records_of n (drop fs_disk_record_bytes bytes)

-- `g_disk_table` when the bytes were read into it.
abbrev pub table_of : List ℕ → List DiskRecord
table_of bytes = records_of fs_max_files bytes

unfoldable pub checksum_from : ℕ → List ℕ → ℕ
checksum_from value [] = value
checksum_from value (b ∷ bytes) = checksum_from (bit_xor value b * 16777619 % u32_mod) bytes

unfoldable pub fs_checksum : List ℕ → ℕ
fs_checksum bytes = checksum_from 2166136261 bytes

pub record Header : Type 0 where
  pub magic : ℕ
  pub version : ℕ
  pub table_size : ℕ
  pub checksum : ℕ
  pub generation : ℕ
  pub header_checksum : ℕ
  pub reserved : List ℕ

-- The bytes of `struct fs_disk_header`, whose field `table_bytes` is `table_size` here.
unfoldable pub header_bytes : Header → List ℕ
header_bytes h =
    bytes_of h.magic
    ++ bytes_of h.version
    ++ bytes_of h.table_size
    ++ bytes_of h.checksum
    ++ bytes_of h.generation
    ++ bytes_of h.header_checksum
    ++ h.reserved

unfoldable pub header_of : List ℕ → Header
header_of bytes = record {
  magic = u32_of bytes;
  version = u32_of (drop 4 bytes);
  table_size = u32_of (drop 8 bytes);
  checksum = u32_of (drop 12 bytes);
  generation = u32_of (drop 16 bytes);
  header_checksum = u32_of (drop 20 bytes);
  reserved = drop 24 bytes;
}

-- The bytes of the checksum itself, from 20 to 23, count as 0.
unfoldable pub header_checksum_from : ℕ → ℕ → List ℕ → ℕ
header_checksum_from i value [] = value
header_checksum_from i value (b ∷ bytes) =
    let byte = if leb 20 i && ltb i 24 then 0 else b in
    header_checksum_from (i + 1) (bit_xor value byte * 16777619 % u32_mod) bytes

unfoldable pub fs_header_checksum : List ℕ → ℕ
fs_header_checksum bytes = header_checksum_from 0 2166136261 bytes

abbrev pub is_version : ℕ → Bool
is_version v = (v == 1) || (v == 2) || (v == 3) || (v == 4) || (v == 5)

unfoldable pub fs_header_is_valid : List ℕ → Bool
fs_header_is_valid bytes =
    let header = header_of bytes in
    if not (header.magic == fs_magic_val)
      || not (is_version header.version)
      || not (header.table_size == fs_disk_table_bytes)
    then false
    else ltb header.version fs_integrity_disk_version
      || (header.header_checksum == fs_header_checksum bytes)

unfoldable pub fs_bytes_are_blank : List ℕ → Bool
fs_bytes_are_blank bytes = are_blank bytes

abbrev pub fs_header_is_blank : List ℕ → Bool
fs_header_is_blank bytes = fs_bytes_are_blank bytes

unfoldable pub fs_header_generation : List ℕ → ℕ
fs_header_generation bytes =
    if (header_of bytes).version == fs_legacy_disk_version then 0 else (header_of bytes).generation

unfoldable pub fs_generation_is_newer : ℕ → ℕ → Bool
fs_generation_is_newer lhs rhs =
    let distance = sub32 lhs rhs in not (distance == 0) && ltb distance (2 ^ 31)

unfoldable pub fs_bytes_equal : List ℕ → List ℕ → Bool
fs_bytes_equal [] [] = true
fs_bytes_equal (a ∷ lhs) (b ∷ rhs) =
    let rest = fs_bytes_equal lhs rhs in if not (a == b) then false else rest
fs_bytes_equal _ _ = false
