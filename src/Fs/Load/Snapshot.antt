-- ===== src/Fs/Load/Snapshot.antt =====
-- kernel/fs.c: what a slot of the disk holds.
use nostalux_os.Base.{u32_mod, ℕ, ◌≤◌, ◌<◌, ◌≡◌, true, false, some, List, ◌==◌, if◌then◌else◌}
use nostalux_os.Fs.{Slot, slot_of, File, Disk}
use nostalux_os.Fs.Bytes.{
  fs_integrity_disk_version, fs_disk_version, table_of, fs_checksum, header_of, fs_header_is_valid,
  fs_header_generation, fs_generation_is_newer,
}
use nostalux_os.Fs.Table.{fs_deserialize_current}
use nostalux_os.Syslog.Ring.{slot}

-- A committed slot: its header is one of the current version with that generation, and its table has
-- the checksum of the header and reads as the files.
pub record IsSnapshot (slot : Slot) (files : List File) (generation : ℕ) : Type 0 where
  pub valid : fs_header_is_valid slot.header ≡ true
  pub version : (header_of slot.header).version ≡ fs_disk_version
  pub generation_is : fs_header_generation slot.header ≡ generation
  pub generation_fits : generation < u32_mod
  pub checksum : (header_of slot.header).checksum ≡ fs_checksum slot.table
  pub files_are : fs_deserialize_current (table_of slot.table) ≡ some files

-- A slot whose header is invalid, or of a version whose order is not protected, or of an older
-- generation. Its table may hold anything.
pub data IsOlder (slot : Slot) (generation : ℕ) : Type 0 where
  older_invalid : fs_header_is_valid slot.header ≡ false → IsOlder slot generation
  older_unprotected :
      (header_of slot.header).version < fs_integrity_disk_version → IsOlder slot generation
  older_generation :
      fs_header_generation slot.header < u32_mod
      → fs_integrity_disk_version ≤ (header_of slot.header).version
      → fs_generation_is_newer generation (fs_header_generation slot.header) ≡ true
      → IsOlder slot generation

abbrev pub other_slot : ℕ → ℕ
other_slot slot = if slot == 0 then 1 else 0

-- The disk holds the files: in a committed slot beside an older one.
pub record Holds (disk : Disk) (slot : ℕ) (files : List File) (generation : ℕ) : Type 0 where
  pub slot_is : slot < 2
  pub current : IsSnapshot (slot_of disk slot) files generation
  pub previous : IsOlder (slot_of disk (other_slot slot)) generation
