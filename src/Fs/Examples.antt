-- ===== src/Fs/Examples.antt =====
-- kernel/fs.c: the theorems on one volume.
use nostalux_os.Base.{
  ◌+◌, ◌≤◌, ◌≡◌, refl, ap, ◌↔◌, ◌⊎◌, Bool, true, false, none, some, [], ◌∷◌, arith, length,
}
use nostalux_os.Fs.{unavailable, Fs}
use nostalux_os.Fs.Calls.Accepts.{fs_write_bytes-accepts}
use nostalux_os.Fs.Calls.Runs.{run, run-AreFiles, run-disk}
use nostalux_os.Fs.Files.{
  is_persistent, fs_write_bytes_internal, fs_write_bytes, fs_append, fs_rename_internal,
  fs_remove_internal,
}
use nostalux_os.Fs.Files.Persist.{fs_commit_changes-fs_load_from_disk}
use nostalux_os.Fs.Files.Places.{lookup}
use nostalux_os.Fs.Files.Spec.{Updates}
use nostalux_os.Fs.Files.Spec.Append.{appended, fs_append-Updates}
use nostalux_os.Fs.Files.Spec.Remove.{fs_remove_internal-Updates}
use nostalux_os.Fs.Files.Spec.Rename.{Renames, fs_rename_internal-Renames}
use nostalux_os.Fs.Files.Spec.Write.{fs_write_bytes_internal-Updates}
use nostalux_os.Fs.Load.{ready, fs_load_from_disk}
use nostalux_os.Fs.Load.Newest.{fs_load_from_disk-Holds}
use nostalux_os.Fs.Load.Trust.{Trusts}
use nostalux_os.Fs.Mount.{fs_init}
use nostalux_os.Fs.Mount.Rejected.{fs_init-rejected}
use nostalux_os.Fs.Samples.{
  name_a, name_b, file_a, places, name_a-IsString, name_b-IsString, places-AreFiles, records_a,
  records_a-fs_serialize, disk_a, volume, volume-IsMounted, answers_a, answers_a-HonestFor,
  reader_of, IsReadable-first, IsReadable-second, cut_short, cut_short-HonestFor, torn,
  committed_volume, disk_after, after-IsReadable, session, volatile_volume, no_drive_boot, test_a,
  nothing_loaded, name_b-IsUserName, name_b-absent, second_place, Takes-nothing, one_record,
}
use nostalux_os.Fs.Sync.Crash.{saved_files}
use nostalux_os.Fs.Sync.Results.{fs_sync_to_disk_verified-fs_load_from_disk}
use nostalux_os.Fs.Table.Room.{takes_file}
use nostalux_os.Fs.Valid.{AreFiles}

fs_sync_to_disk_verified-fs_load_from_disk_example :
    ((fs_load_from_disk ready (reader_of torn) volume).1.files ≡ saved_files volume)
    ⊎ ((fs_load_from_disk ready (reader_of torn) volume).1.files ≡ saved_files volume)
fs_sync_to_disk_verified-fs_load_from_disk_example =
    fs_sync_to_disk_verified-fs_load_from_disk cut_short false records_a volume (saved_files volume)
      (reader_of torn) volume volume-IsMounted places-AreFiles records_a-fs_serialize
      cut_short-HonestFor (IsReadable-first torn) (IsReadable-second torn)

fs_load_from_disk-Holds_example :
    Trusts (some []) (fs_load_from_disk ready (reader_of disk_a) volume).0
    × ((fs_load_from_disk ready (reader_of disk_a) volume).1 ≡ record volume {
      files = saved_files volume;
      active_slot = 0;
      active_generation = 7;
      loaded_version = 5;
      legacy = unavailable;
    })
fs_load_from_disk-Holds_example =
    fs_load_from_disk-Holds disk_a 0 (saved_files volume) 7 (reader_of disk_a) volume
      volume-IsMounted (IsReadable-first disk_a)

fs_write_bytes_internal-Updates_example :
    Updates volume name_b name_a
      (some (4 ∷ []))
      (fs_write_bytes_internal name_b (4 ∷ []) false answers_a volume)
fs_write_bytes_internal-Updates_example =
    fs_write_bytes_internal-Updates name_b name_a (4 ∷ []) false answers_a volume places-AreFiles
      name_b-IsString name_a-IsString

fs_append-Updates_example :
    Updates volume name_a name_a
      (appended volume name_a (4 ∷ []))
      (fs_append name_a (4 ∷ []) answers_a volume)
fs_append-Updates_example =
    fs_append-Updates name_a name_a (4 ∷ []) answers_a volume places-AreFiles name_a-IsString
      name_a-IsString

fs_remove_internal-Updates_example :
    Updates volume name_a name_a none (fs_remove_internal name_a false answers_a volume)
fs_remove_internal-Updates_example =
    fs_remove_internal-Updates name_a name_a false answers_a volume places-AreFiles name_a-IsString
      name_a-IsString

fs_rename_internal-Renames_example :
    Renames volume name_a name_b name_b (fs_rename_internal name_a name_b false answers_a volume)
fs_rename_internal-Renames_example =
    fs_rename_internal-Renames name_a name_b name_b false answers_a volume places-AreFiles
      name_a-IsString name_b-IsString name_b-IsString

fs_commit_changes-fs_load_from_disk_example :
    lookup (fs_load_from_disk ready (reader_of disk_after) volume).1.files name_a
    ≡ lookup places name_a
fs_commit_changes-fs_load_from_disk_example =
    fs_commit_changes-fs_load_from_disk answers_a records_a volume (saved_files volume)
      (reader_of disk_after) volume name_a refl volume-IsMounted places-AreFiles
      records_a-fs_serialize answers_a-HonestFor (ap (λ (r : Bool × Fs). r.0) committed_volume)
      (ap (λ (r : Bool × Fs). is_persistent r.1.backend) committed_volume) after-IsReadable

run-AreFiles_example : AreFiles (run session volume).files
run-AreFiles_example =
    run-AreFiles session volume (name_b-IsString, ((name_a-IsString, name_a-IsString), tt))
      places-AreFiles

run-disk_example : (run session volatile_volume).disk ≡ disk_a
run-disk_example = run-disk session volatile_volume refl

fs_init-rejected_example :
    ((fs_init no_drive_boot answers_a test_a volume).disk ≡ disk_a)
    × (is_persistent (fs_init no_drive_boot answers_a test_a volume).backend ≡ false)
fs_init-rejected_example = fs_init-rejected no_drive_boot answers_a test_a volume nothing_loaded

fs_write_bytes-accepts_example :
    ((fs_write_bytes name_b (4 ∷ []) answers_a volatile_volume).0 ≡ true) ↔ (1 + 1 ≤ 32)
fs_write_bytes-accepts_example =
    fs_write_bytes-accepts name_b (4 ∷ []) 1 1 1 answers_a volatile_volume refl name_b-IsUserName
      (omega arith) name_b-absent second_place
      (takes_file refl (one_record (length file_a.contents) (omega arith)) (Takes-nothing 31))
      (one_record 1 (omega arith))
