-- ===== src/Fs/Files/Persist.antt =====
-- kernel/fs.c: what a change of a persistent volume leaves on the disk.
use nostalux_os.Base.{
  ℕ, zero, suc, ◌-◌, ◌≡◌, refl, ap, ◌∙◌, inl, inr, true, false, Option, none, some, List, [], ◌∷◌,
  ◌++◌, arith, Bool-cases, length, replicate,
}
use nostalux_os.Fs.{File, Fs}
use nostalux_os.Fs.Files.{is_persistent, after_sync, fs_commit_changes}
use nostalux_os.Fs.Files.Places.{lookup, contents_if}
use nostalux_os.Fs.Load.{ready, Reader, fs_load_from_disk}
use nostalux_os.Fs.Load.Newest.{IsReadable, fs_load_from_disk-Holds}
use nostalux_os.Fs.Names.{same_name}
use nostalux_os.Fs.Sync.{
  Answers, SyncResult, sync_committed, sync_failed, sync_uncertain, fs_sync_to_disk,
}
use nostalux_os.Fs.Sync.Crash.{HonestFor, IsMounted, saved_files}
use nostalux_os.Fs.Sync.Results.{sync-committed}
use nostalux_os.Fs.Table.{DiskRecord, fs_serialize, cleared_file}
use nostalux_os.Fs.Table.RoundTrip.{in_use_files}
use nostalux_os.Fs.Valid.{AreFiles}

-- The sync that a commit makes is one of the files as they are.
after_sync-IsMounted :
    (r : SyncResult × Fs) (files : List File)
    → (r.0 ≡ sync_committed → IsMounted r.1 files)
    → (after_sync r).0 ≡ true
    → is_persistent (after_sync r).1.backend ≡ true
    → IsMounted (after_sync r).1 files
after_sync-IsMounted (sync_committed, fs) files h ok p = h refl
after_sync-IsMounted (sync_uncertain, fs) files h ok p = absurd (ground arith)
after_sync-IsMounted (sync_failed, fs) files h ok p = absurd (ground arith)

-- On a persistent volume whose mounted slot holds saved files, a commit that reports success and leaves
-- the volume persistent has put FILES into the mounted slot.
pub fs_commit_changes-IsMounted :
    (answers : Answers) (records : List DiskRecord) (fs : Fs) (saved : List File)
    → is_persistent fs.backend ≡ true
    → IsMounted fs saved
    → AreFiles fs.files
    → fs_serialize fs.files ≡ some records
    → HonestFor answers records fs
    → (fs_commit_changes answers fs).0 ≡ true
    → is_persistent (fs_commit_changes answers fs).1.backend ≡ true
    → IsMounted (fs_commit_changes answers fs).1 (saved_files fs)
unfolding fs_commit_changes
fs_commit_changes-IsMounted answers records fs saved p h files e honest = rw e (
    simp p (
      after_sync-IsMounted (fs_sync_to_disk answers fs) (saved_files fs)
        (λ q. sync-committed answers false records fs saved h files e honest q)))

lookup-unused : (n : ℕ) (q : List ℕ) → lookup (replicate n cleared_file) q ≡ none
unfolding lookup
lookup-unused zero q = refl
lookup-unused (suc n) q = lookup-unused n q

lookup-in_use :
    (files : List File) (n : ℕ) (q : List ℕ)
    → lookup (in_use_files files ++ replicate n cleared_file) q ≡ lookup files q
unfolding lookup
lookup-in_use [] n q = lookup-unused n q
lookup-in_use (f ∷ files) n q = elim (Bool-cases f.in_use) [
  | inl u ↦ simp u (
      ap (λ (o : Option (List ℕ)). contents_if (same_name f.name q) f.contents o)
        (lookup-in_use files n q))
  | inr u ↦ simp u (lookup-in_use files n q)
]

-- The files as the disk keeps them have the contents of FILES under every name.
pub saved_files-lookup : (fs : Fs) (q : List ℕ) → lookup (saved_files fs) q ≡ lookup fs.files q
saved_files-lookup fs q = lookup-in_use fs.files (32 - length (in_use_files fs.files)) q

-- When `fs_commit_changes` reports success on a volume that was persistent and still is afterwards, a mount
-- that reads the slot it committed, and reads the other header or fails to, finds the contents of FILES under
-- every name. Before the call the
-- mounted slot is a committed one and FILES holds stored files of different names that fit the table, and
-- the driver behaves as documented in its course.
pub fs_commit_changes-fs_load_from_disk :
    (answers : Answers) (records : List DiskRecord) (fs : Fs) (saved : List File) (read : Reader)
    (boot : Fs) (q : List ℕ)
    → is_persistent fs.backend ≡ true
    → IsMounted fs saved
    → AreFiles fs.files
    → fs_serialize fs.files ≡ some records
    → HonestFor answers records fs
    → (fs_commit_changes answers fs).0 ≡ true
    → is_persistent (fs_commit_changes answers fs).1.backend ≡ true
    → IsReadable
        (fs_commit_changes answers fs).1.disk
        (fs_commit_changes answers fs).1.active_slot
        read
    → lookup (fs_load_from_disk ready read boot).1.files q ≡ lookup fs.files q
fs_commit_changes-fs_load_from_disk answers records fs saved read boot q p h files e honest ok still
      readable =
    let after = (fs_commit_changes answers fs).1 in
    let m = fs_commit_changes-IsMounted answers records fs saved p h files e honest ok still in
    ap (λ (x : Fs). lookup x.files q)
      (fs_load_from_disk-Holds after.disk after.active_slot (saved_files fs) after.active_generation
        read boot m readable).1
    ∙ saved_files-lookup fs q
