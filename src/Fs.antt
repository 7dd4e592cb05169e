-- ===== src/Fs.antt =====
-- kernel/fs.c: the file system, which keeps 32 files in memory and two copies of them on the disk. A
-- C string is the list of its characters up to its final zero, which is the end of the list; pointers
-- are not NULL, which every operation refuses. A file is its first `size` bytes: what the array holds
-- behind them is never read.
pub mod Names
pub mod Table
pub mod Valid
pub mod Bytes
pub mod Load
pub mod Sync
pub mod Files
pub mod Calls
pub mod Recovery
pub mod Mount
mod Samples
mod Examples
use nostalux_os.Base.{ℕ, Bool, false, List, [], ◌==◌, if◌then◌else◌}
use nostalux_os.Syslog.Ring.{slot}

abbrev pub fs_max_files : ℕ
fs_max_files = 32

abbrev pub fs_max_filename : ℕ
fs_max_filename = 32

abbrev pub fs_max_file_size : ℕ
fs_max_file_size = 8192

pub record File : Type 0 where
  pub in_use : Bool
  pub name : List ℕ
  pub contents : List ℕ

abbrev pub fs_clear : File → File
fs_clear file = record { in_use = false; name = []; contents = [] }

pub data Backend : Type 0 where
  uninitialized persistent volatile_no_drive volatile_corrupt volatile_io_error : Backend

pub data LegacyUpgrade : Type 0 where
  unavailable available outcome_uncertain : LegacyUpgrade

-- A copy of the file system on the disk: its header sector and the sectors of its table.
pub record Slot : Type 0 where
  pub header : List ℕ
  pub table : List ℕ

pub record Disk : Type 0 where
  pub slot0 : Slot
  pub slot1 : Slot

-- The static variables, and what the disk holds. `active_slot` is 2 when no slot is mounted.
pub record Fs : Type 0 where
  pub files : List File
  pub active_slot : ℕ
  pub active_generation : ℕ
  pub loaded_version : ℕ
  pub backend : Backend
  pub legacy : LegacyUpgrade
  pub self_test_active : Bool
  pub log_is_virtual : Bool
  pub disk : Disk

abbrev pub slot_of : Disk → ℕ → Slot
slot_of disk slot = if slot == 0 then disk.slot0 else disk.slot1

abbrev pub with_slot : Disk → ℕ → Slot → Disk
with_slot disk slot image =
    if slot == 0 then record disk { slot0 = image } else record disk { slot1 = image }
