-- ===== src/Fs/Sync/Results.antt =====
-- kernel/fs.c: the results of a commit, and a mount after it.
use nostalux_os.Base.{
  ℕ, zero, suc, ◌<◌, ◌≡◌, refl, sym, ap, subst, ◌⊎◌, inl, inr, Bool, some, List, arith,
}
use nostalux_os.Fs.{slot_of, File, Disk, Fs, with_slot}
use nostalux_os.Fs.Bytes.{table_bytes}
use nostalux_os.Fs.Load.{AtaInit, init_error, ready, no_device, Reader, fs_load_from_disk}
use nostalux_os.Fs.Load.Newest.{IsReadable, fs_load_from_disk-Holds}
use nostalux_os.Fs.Load.Snapshot.{Holds, other_slot}
use nostalux_os.Fs.Sync.{
  Answers, SyncResult, sync_committed, sync_failed, sync_uncertain, fs_accept_commit, target_slot,
  next_generation, table_outcome, header_outcome, after_header, after_table, sync_ready,
  fs_sync_to_disk_verified,
}
use nostalux_os.Fs.Sync.Crash.{
  PowerLoss, at_start, in_table, in_header, HonestFor, IsMounted, saved_files, HoldsOneOf,
  commit-safe, PowerLoss-HoldsOneOf,
}
use nostalux_os.Fs.Sync.Device.{header_written}
use nostalux_os.Fs.Table.{DiskRecord, fs_serialize}
use nostalux_os.Fs.Valid.{AreFiles}
use nostalux_os.Syslog.Ring.{slot}

after_header-PowerLoss :
    (result : SyncResult) (verified : Bool) (answers : Answers) (records : List DiskRecord)
    (fs : Fs)
    → HonestFor answers records fs
    → table_outcome verified answers (table_bytes records) fs ≡ sync_committed
    → PowerLoss verified answers records fs (after_header result answers fs).1.disk
unfolding fs_accept_commit
after_header-PowerLoss sync_committed verified answers records fs honest done =
    in_header answers.header_left done honest.header_kept refl
after_header-PowerLoss sync_failed verified answers records fs honest done =
    in_header answers.header_left done honest.header_kept refl
after_header-PowerLoss sync_uncertain verified answers records fs honest done =
    in_header answers.header_left done honest.header_kept refl

after_table-PowerLoss :
    (result : SyncResult) (verified : Bool) (answers : Answers) (records : List DiskRecord)
    (fs : Fs)
    → HonestFor answers records fs
    → table_outcome verified answers (table_bytes records) fs ≡ result
    → PowerLoss verified answers records fs
        (after_table result verified answers (table_bytes records) fs).1.disk
after_table-PowerLoss sync_committed verified answers records fs honest done =
    after_header-PowerLoss (header_outcome verified answers (table_bytes records) fs) verified
      answers records fs honest done
after_table-PowerLoss sync_failed verified answers records fs honest done =
    in_table answers.table_left refl
after_table-PowerLoss sync_uncertain verified answers records fs honest done =
    in_table answers.table_left refl

sync_ready-PowerLoss :
    (init : AtaInit) (answers : Answers) (verified : Bool) (records : List DiskRecord) (fs : Fs)
    → fs_serialize fs.files ≡ some records
    → HonestFor answers records fs
    → PowerLoss verified answers records fs (sync_ready init verified answers fs).1.disk
unfolding sync_ready
sync_ready-PowerLoss ready answers verified records fs e honest = rw e (
    after_table-PowerLoss (table_outcome verified answers (table_bytes records) fs) verified answers
      records fs honest refl)
sync_ready-PowerLoss no_device answers verified records fs e honest = at_start refl
sync_ready-PowerLoss init_error answers verified records fs e honest = at_start refl

-- Whatever result a sync has, a disk that held the saved files in the mounted slot holds either them or,
-- under the next generation, those of the sync.
pub sync-HoldsOneOf :
    (answers : Answers) (verified : Bool) (records : List DiskRecord) (fs : Fs) (saved : List File)
    → IsMounted fs saved
    → AreFiles fs.files
    → fs_serialize fs.files ≡ some records
    → HonestFor answers records fs
    → HoldsOneOf (fs_sync_to_disk_verified verified answers fs).1.disk saved fs
sync-HoldsOneOf answers verified records fs saved h files e honest =
    PowerLoss-HoldsOneOf answers verified records fs saved
      (fs_sync_to_disk_verified verified answers fs).1.disk h files e honest
      (sync_ready-PowerLoss answers.init answers verified records fs e honest)

after_header-committed :
    (result : SyncResult) (verified : Bool) (answers : Answers) (records : List DiskRecord)
    (fs : Fs) (saved : List File)
    → IsMounted fs saved
    → AreFiles fs.files
    → fs_serialize fs.files ≡ some records
    → HonestFor answers records fs
    → table_outcome verified answers (table_bytes records) fs ≡ sync_committed
    → header_outcome verified answers (table_bytes records) fs ≡ result
    → (after_header result answers fs).0 ≡ sync_committed
    → IsMounted (after_header result answers fs).1 (saved_files fs)
unfolding fs_accept_commit
after_header-committed sync_committed verified answers records fs saved h files e honest done
      written q =
    subst
      (λ (x : List ℕ).
        Holds
          (with_slot fs.disk (target_slot fs) (record { header = x; table = answers.table_left }))
          (target_slot fs) (saved_files fs) (next_generation fs))
      (sym (
        header_written answers verified (table_bytes records)
          (slot_of fs.disk (target_slot fs)).header fs honest written))
      (commit-safe answers verified records fs saved h files e honest done)
after_header-committed sync_failed verified answers records fs saved h files e honest done written
      q =
    absurd (ground arith)
after_header-committed sync_uncertain verified answers records fs saved h files e honest done
      written q =
    absurd (ground arith)

after_table-committed :
    (result : SyncResult) (verified : Bool) (answers : Answers) (records : List DiskRecord)
    (fs : Fs) (saved : List File)
    → IsMounted fs saved
    → AreFiles fs.files
    → fs_serialize fs.files ≡ some records
    → HonestFor answers records fs
    → table_outcome verified answers (table_bytes records) fs ≡ result
    → (after_table result verified answers (table_bytes records) fs).0 ≡ sync_committed
    → IsMounted (after_table result verified answers (table_bytes records) fs).1 (saved_files fs)
after_table-committed sync_committed verified answers records fs saved h files e honest done q =
    after_header-committed (header_outcome verified answers (table_bytes records) fs) verified
      answers records fs saved h files e honest done refl q
after_table-committed sync_failed verified answers records fs saved h files e honest done q =
    absurd (ground arith)
after_table-committed sync_uncertain verified answers records fs saved h files e honest done q =
    absurd (ground arith)

sync_ready-committed :
    (init : AtaInit) (answers : Answers) (verified : Bool) (records : List DiskRecord) (fs : Fs)
    (saved : List File)
    → IsMounted fs saved
    → AreFiles fs.files
    → fs_serialize fs.files ≡ some records
    → HonestFor answers records fs
    → (sync_ready init verified answers fs).0 ≡ sync_committed
    → IsMounted (sync_ready init verified answers fs).1 (saved_files fs)
unfolding sync_ready
sync_ready-committed ready answers verified records fs saved h files e honest = rw e (
    after_table-committed (table_outcome verified answers (table_bytes records) fs) verified answers
      records fs saved h files e honest refl)
sync_ready-committed no_device answers verified records fs saved h files e honest =
    λ q. absurd (ground arith)
sync_ready-committed init_error answers verified records fs saved h files e honest =
    λ q. absurd (ground arith)

-- A sync that counts as committed has mounted a slot that holds the files of the sync, whether its
-- writes were complete or were read back.
pub sync-committed :
    (answers : Answers) (verified : Bool) (records : List DiskRecord) (fs : Fs) (saved : List File)
    → IsMounted fs saved
    → AreFiles fs.files
    → fs_serialize fs.files ≡ some records
    → HonestFor answers records fs
    → (fs_sync_to_disk_verified verified answers fs).0 ≡ sync_committed
    → IsMounted (fs_sync_to_disk_verified verified answers fs).1 (saved_files fs)
sync-committed answers verified records fs saved h files e honest q =
    sync_ready-committed answers.init answers verified records fs saved h files e honest q

loaded_files :
    (disk : Disk) (slot : ℕ) (files : List File) (g : ℕ) (read : Reader) (boot : Fs)
    → Holds disk slot files g
    → IsReadable disk slot read
    → (fs_load_from_disk ready read boot).1.files ≡ files
loaded_files disk slot files g read boot h r =
    ap (λ (x : Fs). x.files) (fs_load_from_disk-Holds disk slot files g read boot h r).1

readable :
    (disk : Disk) (read : Reader) (slot : ℕ)
    → slot < 2
    → IsReadable disk 0 read
    → IsReadable disk 1 read
    → IsReadable disk slot read
readable disk read zero h r0 r1 = r0
readable disk read (suc zero) h r0 r1 = r1
readable disk read (suc (suc n)) h r0 r1 = absurd (omega arith)

-- A mount of the disk that a sync leaves, whatever its result, takes the files saved before, or all those
-- of the sync. A power loss in the course of the sync is among the cases, as a run in which the write that
-- is cut short reports failure and leaves anything in the table, or the old or the new header. Before the
-- sync the mounted slot is a committed one, FILES holds stored files of different names that fit the
-- table, the driver behaves as documented, and the mount can read both slots.
pub fs_sync_to_disk_verified-fs_load_from_disk :
    (answers : Answers) (verified : Bool) (records : List DiskRecord) (fs : Fs) (saved : List File)
    (read : Reader) (boot : Fs)
    → IsMounted fs saved
    → AreFiles fs.files
    → fs_serialize fs.files ≡ some records
    → HonestFor answers records fs
    → IsReadable (fs_sync_to_disk_verified verified answers fs).1.disk 0 read
    → IsReadable (fs_sync_to_disk_verified verified answers fs).1.disk 1 read
    → ((fs_load_from_disk ready read boot).1.files ≡ saved)
      ⊎ ((fs_load_from_disk ready read boot).1.files ≡ saved_files fs)
fs_sync_to_disk_verified-fs_load_from_disk answers verified records fs saved read boot h files e
      honest r0 r1 =
    let disk = (fs_sync_to_disk_verified verified answers fs).1.disk in
    elim (sync-HoldsOneOf answers verified records fs saved h files e honest) [
      | inl k ↦ inl (
          loaded_files disk fs.active_slot saved fs.active_generation read boot k
            (readable disk read fs.active_slot k.slot_is r0 r1))
      | inr k ↦ inr (
          loaded_files disk (other_slot fs.active_slot) (saved_files fs) (next_generation fs) read
            boot k (readable disk read (other_slot fs.active_slot) k.slot_is r0 r1))
    ]
