-- ===== src/Fs/Mount.antt =====
-- kernel/fs.c: mounting the volume at the start of the kernel, its test of a new volume, and the upgrade
-- of old snapshots on request.
pub mod Rejected
use nostalux_os.Base.{
  ℕ, Bool, true, false, not, ◌&&◌, ◌||◌, Option, none, some, List, [], ◌∷◌, ltb, leb, if◌then◌else◌,
  set,
}
use nostalux_os.Fs.{
  File, Backend, persistent, volatile_no_drive, volatile_corrupt, volatile_io_error, LegacyUpgrade,
  unavailable, available, outcome_uncertain, Fs,
}
use nostalux_os.Fs.Bytes.{fs_disk_version}
use nostalux_os.Fs.Files.{fs_commit_changes, file_of_index, fs_write_bytes, fs_rename, fs_remove}
use nostalux_os.Fs.Load.{
  LoadResult, AtaInit, Reader, loaded, loaded_io_error, loaded_corrupt, no_drive, blank, corrupt,
  io_error, fs_load_from_disk,
}
use nostalux_os.Fs.Names.{
  same_name, self_test_file, self_renamed_file, fs_find_mutable, fs_file_is_self_test_artifact,
}
use nostalux_os.Fs.Recovery.{
  fs_clear_self_test_artifacts, fs_quarantine_self_test_artifacts,
  fs_quarantine_physical_system_log, nostalux_bmp, fs_seed_default_bmp, fresh_files,
}
use nostalux_os.Fs.Sync.{
  Answers, SyncResult, sync_committed, sync_failed, sync_uncertain, fs_sync_to_disk_verified,
  fs_sync_to_disk,
}
use nostalux_os.Fs.Table.{cleared_file}

-- The answers of the driver to a mount.
pub record Boot : Type 0 where
  pub init : AtaInit
  pub read : Reader

-- The answers in the course of the self test: three commits, each with a mount after it.
pub record TestAnswers : Type 0 where
  pub write : Answers
  pub after_write : Boot
  pub rename : Answers
  pub after_rename : Boot
  pub remove : Answers
  pub after_remove : Boot

abbrev pub self_test_payload : List ℕ
self_test_payload = 66 ∷ 0 ∷ 77 ∷ 255 ∷ []

abbrev pub without_artifacts : Fs → Fs
without_artifacts fs = record fs {
  files = (fs_clear_self_test_artifacts fs.files).1;
  self_test_active = false;
}

unfoldable pub fs_self_test_fail : Fs → Fs
fs_self_test_fail fs = without_artifacts (record fs { backend = volatile_io_error })

abbrev pub reloaded : LoadResult × Fs → Bool × Fs
reloaded (loaded, fs) = (true, record fs { backend = persistent })
reloaded (no_drive, fs) = (false, without_artifacts (record fs { backend = volatile_no_drive }))
reloaded (corrupt, fs) = (false, without_artifacts (record fs { backend = volatile_corrupt }))
reloaded (loaded_corrupt, fs) =
    (false, without_artifacts (record fs { backend = volatile_corrupt }))
reloaded (_, fs) = (false, without_artifacts (record fs { backend = volatile_io_error }))

unfoldable pub fs_self_test_reload : Boot → Fs → Bool × Fs
fs_self_test_reload boot fs = reloaded (fs_load_from_disk boot.init boot.read fs)

abbrev pub is_found : Option ℕ → Bool
is_found none = false
is_found (some i) = true

abbrev pub holds_artifact : Option ℕ → Fs → Bool
holds_artifact none fs = false
holds_artifact (some i) fs = fs_file_is_self_test_artifact (file_of_index fs i)

abbrev pub finds : Fs → List ℕ → Bool
finds fs name = is_found (fs_find_mutable fs.files name)

-- A stage of the self test: what went wrong ends it, and a failed reload has ended it already.
abbrev pub staged : Bool × Fs → (Fs → Fs) → Fs
staged (false, fs) next = fs
staged (true, fs) next = next fs

abbrev pub required : Bool → Fs → (Fs → Fs) → Fs
required false fs next = fs_self_test_fail fs
required true fs next = next fs

unfoldable pub test_remove : TestAnswers → Fs → Fs
test_remove answers fs =
    let (removed, fs1) = fs_remove self_renamed_file answers.remove fs in
    required removed fs1 (λ fs2. staged (fs_self_test_reload answers.after_remove fs2) (λ fs3.
      required (not (finds fs3 self_test_file || finds fs3 self_renamed_file)) fs3
        (λ fs4. record fs4 { self_test_active = false })))

unfoldable pub test_rename : TestAnswers → Fs → Fs
test_rename answers fs =
    let (moved, fs1) = fs_rename self_test_file self_renamed_file answers.rename fs in
    required (moved && not (finds fs1 self_test_file)) fs1 (λ fs2.
      staged (fs_self_test_reload answers.after_rename fs2) (λ fs3.
        required (not (finds fs3 self_test_file)) fs3 (λ fs4.
          required (holds_artifact (fs_find_mutable fs4.files self_renamed_file) fs4) fs4
            (λ fs5. test_remove answers fs5))))

unfoldable pub fs_self_test : TestAnswers → Fs → Fs
fs_self_test answers fs =
    let start = record fs {
      self_test_active = true;
      files = (fs_clear_self_test_artifacts fs.files).1;
    } in
    let (written, fs1) = fs_write_bytes self_test_file self_test_payload answers.write start in
    required written fs1 (λ fs2. staged (fs_self_test_reload answers.after_write fs2) (λ fs3.
      required (holds_artifact (fs_find_mutable fs3.files self_test_file) fs3) fs3
        (λ fs4. test_rename answers fs4)))

-- A commit of changed metadata; when it fails, the default picture is taken back.
abbrev pub metadata_committed : Bool → Bool × Fs → Fs
metadata_committed added_bmp (true, fs) = fs
metadata_committed added_bmp (false, fs) =
    if added_bmp
    then record fs { files = cleared_at (fs_find_mutable fs.files nostalux_bmp) fs.files }
    else fs
  where
    cleared_at : Option ℕ → List File → List File
    cleared_at none files = files
    cleared_at (some i) files = set files i cleared_file

-- A volume that was loaded, with its backend: the reserved names are freed, and a trusted volume gets
-- what its version lacks.
unfoldable pub mount_loaded : Bool → Backend → Answers → Fs → Fs
mount_loaded trusted backend answers fs =
    let (quarantined_test_files, files1) = fs_quarantine_self_test_artifacts fs.files in
    let (quarantined_system_log, files2) = fs_quarantine_physical_system_log files1 in
    let lacks_bmp =
      trusted && ltb fs.loaded_version 3 && not (is_found (fs_find_mutable files2 nostalux_bmp)) in
    let (added_default_bmp, files3) =
      if lacks_bmp then fs_seed_default_bmp files2 else (false, files2) in
    let needs_header = trusted && ltb fs.loaded_version fs_disk_version in
    let fs1 = record fs { files = files3; backend = backend } in
    if trusted
      && (quarantined_test_files || quarantined_system_log || added_default_bmp || needs_header)
    then metadata_committed added_default_bmp (fs_commit_changes answers fs1)
    else fs1

abbrev pub formatted : TestAnswers → SyncResult × Fs → Fs
formatted test (sync_committed, fs) = fs_self_test test (record fs { backend = persistent })
formatted test (_, fs) = record fs { backend = volatile_io_error }

abbrev pub mount : Answers → TestAnswers → LoadResult × Fs → Fs
mount answers test (loaded, fs) = mount_loaded true persistent answers fs
mount answers test (loaded_corrupt, fs) = mount_loaded false volatile_corrupt answers fs
mount answers test (loaded_io_error, fs) = mount_loaded false volatile_io_error answers fs
mount answers test (blank, fs) =
    formatted test (fs_sync_to_disk answers (record fs { files = fresh_files fs.files }))
mount answers test (no_drive, fs) = record fs {
  files = fresh_files fs.files;
  backend = volatile_no_drive;
}
mount answers test (corrupt, fs) = record fs {
  files = fresh_files fs.files;
  backend = volatile_corrupt;
}
mount answers test (io_error, fs) = record fs {
  files = fresh_files fs.files;
  backend = volatile_io_error;
}

unfoldable pub fs_init : Boot → Answers → TestAnswers → Fs → Fs
fs_init boot answers test fs =
    mount answers test (fs_load_from_disk boot.init boot.read (record fs { log_is_virtual = true }))

pub data UpgradeResult : Type 0 where
  upgrade_succeeded upgrade_not_available upgrade_confirmation_required upgrade_failed
        upgrade_uncertain :
      UpgradeResult

abbrev pub upgraded : SyncResult × Fs → UpgradeResult × Fs
upgraded (sync_committed, fs) =
    (upgrade_succeeded, record fs { backend = persistent; legacy = unavailable })
upgraded (sync_uncertain, fs) = (upgrade_uncertain, record fs { legacy = outcome_uncertain })
upgraded (sync_failed, fs) = (upgrade_failed, fs)

abbrev pub is_available : LegacyUpgrade → Bool
is_available available = true
is_available _ = false

abbrev pub is_corrupt : Backend → Bool
is_corrupt volatile_corrupt = true
is_corrupt _ = false

-- The text of FS_LEGACY_UPGRADE_CONFIRMATION.
abbrev pub upgrade_confirmation : List ℕ
upgrade_confirmation =
    67 ∷ 79 ∷ 78 ∷ 70 ∷ 73 ∷ 82 ∷ 77 ∷ 45 ∷ 76 ∷ 69 ∷ 71 ∷ 65 ∷ 67 ∷ 89 ∷ 45 ∷ 83 ∷ 78 ∷ 65 ∷ 80
    ∷ 83 ∷ 72 ∷ 79 ∷ 84 ∷ []

unfoldable pub fs_upgrade_legacy_snapshot : List ℕ → Answers → Fs → UpgradeResult × Fs
fs_upgrade_legacy_snapshot confirmation answers fs =
    if not (is_available fs.legacy)
      || not (is_corrupt fs.backend)
      || leb 2 fs.active_slot
      || leb fs_disk_version fs.loaded_version
    then (upgrade_not_available, fs)
    else if not (same_name confirmation upgrade_confirmation)
    then (upgrade_confirmation_required, fs)
    else upgraded (fs_sync_to_disk_verified true answers fs)
