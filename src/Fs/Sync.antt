-- ===== src/Fs/Sync.antt =====
-- kernel/fs.c: writing FILES to the slot that is not mounted, its table first, then its header. What
-- kernel/ata.c answers, and what it leaves on the disk, is a parameter.
pub mod Device
pub mod Commit
pub mod Crash
pub mod Results
use nostalux_os.Base.{
  add32, ℕ, zero, suc, bit_xor, Bool, true, false, not, Option, none, some, List, ltb,
  if◌then◌else◌, take, drop,
}
use nostalux_os.Fs.{slot_of, Disk, Fs, with_slot}
use nostalux_os.Fs.Bytes.{
  fs_magic_val, fs_disk_version, fs_disk_table_bytes, fs_disk_table_sectors, table_bytes,
  fs_checksum, Header, header_bytes, fs_header_checksum, fs_bytes_equal,
}
use nostalux_os.Fs.Load.{AtaInit, ready, Reader, fs_slot_header_lba}
use nostalux_os.Fs.Table.{DiskRecord, zeros, fs_serialize}

pub data AtaWrite : Type 0 where
  write_failed write_complete write_uncertain : AtaWrite

-- The answers of the driver in the course of one `fs_sync_to_disk`: what the sectors of the table and of
-- the header hold after the two calls of `ata_write`, and what `ata_read` returns after each.
pub record Answers : Type 0 where
  pub init : AtaInit
  pub table_result : AtaWrite
  pub table_left : List ℕ
  pub table_back : Reader
  pub header_result : AtaWrite
  pub header_left : List ℕ
  pub header_back : Reader

pub data SyncResult : Type 0 where
  sync_committed sync_failed sync_uncertain : SyncResult

pub data ReconcileResult : Type 0 where
  reconcile_match reconcile_mismatch reconcile_io_error : ReconcileResult

abbrev pub reconcile_sector : Option (List ℕ) → List ℕ → ReconcileResult → ReconcileResult
reconcile_sector none expected rest = reconcile_io_error
reconcile_sector (some observed) expected rest =
    if not (fs_bytes_equal observed expected) then reconcile_mismatch else rest

-- The loop of `fs_reconcile_table`, with `left` sectors to go.
unfoldable pub reconcile_from : Reader → ℕ → ℕ → List ℕ → ReconcileResult
reconcile_from read lba zero expected = reconcile_match
reconcile_from read lba (suc left) expected =
    reconcile_sector (read lba 1) (take 512 expected)
      (reconcile_from read (add32 lba 1) left (drop 512 expected))

abbrev pub fs_reconcile_table : Reader → ℕ → List ℕ → ReconcileResult
fs_reconcile_table read target_lba table =
    reconcile_from read (add32 target_lba 1) fs_disk_table_sectors table

unfoldable pub fs_reconcile_slot : Reader → ℕ → List ℕ → List ℕ → ReconcileResult
fs_reconcile_slot read target_lba expected_header table =
    reconcile_sector (read target_lba 1) expected_header (fs_reconcile_table read target_lba table)

unfoldable pub fs_accept_commit : ℕ → ℕ → Fs → Fs
fs_accept_commit target_slot next_generation fs = record fs {
  active_slot = target_slot;
  active_generation = next_generation;
  loaded_version = fs_disk_version;
}

unfoldable pub new_header : List ℕ → ℕ → Header
new_header table generation = record {
  magic = fs_magic_val;
  version = fs_disk_version;
  table_size = fs_disk_table_bytes;
  checksum = fs_checksum table;
  generation = generation;
  header_checksum = 0;
  reserved = zeros 488;
}

-- The header that makes the table visible.
unfoldable pub commit_header : List ℕ → ℕ → List ℕ
commit_header table generation =
    let header = new_header table generation in
    header_bytes (record header { header_checksum = fs_header_checksum (header_bytes header) })

abbrev pub is_uncertain : AtaWrite → Bool
is_uncertain write_uncertain = true
is_uncertain _ = false

-- Whether a write counts as done: by its result, or by what is read back when the result is uncertain or
-- the read-back is required.
abbrev pub checked : ReconcileResult → SyncResult
checked reconcile_match = sync_committed
checked reconcile_mismatch = sync_failed
checked reconcile_io_error = sync_uncertain

unfoldable pub write_outcome : AtaWrite → Bool → ReconcileResult → SyncResult
write_outcome write_failed verified reconciliation = sync_failed
write_outcome write_complete verified reconciliation =
    if verified then checked reconciliation else sync_committed
write_outcome write_uncertain verified reconciliation = checked reconciliation

abbrev pub target_slot : Fs → ℕ
target_slot fs = if ltb fs.active_slot 2 then bit_xor fs.active_slot 1 else 0

abbrev pub next_generation : Fs → ℕ
next_generation fs = add32 fs.active_generation 1

-- What the first write leaves of the disk.
abbrev pub with_table : Answers → Fs → Disk
with_table answers fs =
    with_slot fs.disk (target_slot fs)
      (record (slot_of fs.disk (target_slot fs)) { table = answers.table_left })

-- What the second write leaves.
abbrev pub with_header : Answers → Fs → Disk
with_header answers fs =
    with_slot fs.disk (target_slot fs)
      (record { header = answers.header_left; table = answers.table_left })

abbrev pub table_outcome : Bool → Answers → List ℕ → Fs → SyncResult
table_outcome verified answers table fs =
    write_outcome answers.table_result verified
      (fs_reconcile_table answers.table_back (fs_slot_header_lba (target_slot fs)) table)

abbrev pub header_outcome : Bool → Answers → List ℕ → Fs → SyncResult
header_outcome verified answers table fs = write_outcome answers.header_result verified (
    fs_reconcile_slot answers.header_back (fs_slot_header_lba (target_slot fs))
      (commit_header table (next_generation fs)) table)

abbrev pub after_header : SyncResult → Answers → Fs → SyncResult × Fs
after_header sync_committed answers fs = (
  sync_committed,
  fs_accept_commit (target_slot fs) (next_generation fs)
      (record fs { disk = with_header answers fs }),
)
after_header result answers fs = (result, record fs { disk = with_header answers fs })

abbrev pub after_table : SyncResult → Bool → Answers → List ℕ → Fs → SyncResult × Fs
after_table sync_committed verified answers table fs =
    after_header (header_outcome verified answers table fs) answers fs
after_table result verified answers table fs = (result, record fs { disk = with_table answers fs })

abbrev pub sync_table : Option (List DiskRecord) → Bool → Answers → Fs → SyncResult × Fs
sync_table none verified answers fs = (sync_failed, fs)
sync_table (some records) verified answers fs =
    after_table (table_outcome verified answers (table_bytes records) fs) verified answers
      (table_bytes records) fs

unfoldable pub sync_ready : AtaInit → Bool → Answers → Fs → SyncResult × Fs
sync_ready ready verified answers fs = sync_table (fs_serialize fs.files) verified answers fs
sync_ready _ verified answers fs = (sync_failed, fs)

abbrev pub fs_sync_to_disk_verified : Bool → Answers → Fs → SyncResult × Fs
fs_sync_to_disk_verified require_verified_readback answers fs =
    sync_ready answers.init require_verified_readback answers fs

abbrev pub fs_sync_to_disk : Answers → Fs → SyncResult × Fs
fs_sync_to_disk answers fs = fs_sync_to_disk_verified false answers fs
