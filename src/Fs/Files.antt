-- ===== src/Fs/Files.antt =====
-- kernel/fs.c: the operations on files by their names. Each writes the volume to the disk, when it is
-- persistent, and takes its change back when that fails.
pub mod Places
pub mod Change
pub mod Distinct
pub mod Spec
pub mod Undo
pub mod Persist
pub mod Listed
use nostalux_os.Base.{
  ℕ, suc, ◌+◌, ◌-◌, Bool, true, false, not, ◌&&◌, ◌||◌, Option, none, some, List, [], ◌∷◌, ◌++◌,
  ltb, leb, ◌==◌, if◌then◌else◌, length, get_or, set,
}
use nostalux_os.Fs.{fs_max_file_size, File, Backend, persistent, volatile_io_error, Fs}
use nostalux_os.Fs.Names.{
  fs_is_valid_name, same_name, system_log, fs_name_is_system_managed, fs_name_is_system_log,
  fs_name_is_self_test_file, fs_copy_name, fs_find_mutable, fs_allocate_slot,
  fs_file_is_self_test_artifact,
}
use nostalux_os.Fs.Sync.{
  Answers, SyncResult, sync_committed, sync_failed, sync_uncertain, fs_sync_to_disk,
}
use nostalux_os.Fs.Table.{DiskRecord, fs_serialize, cleared_file}
use nostalux_os.Syslog.Text.{log_text}

abbrev pub is_persistent : Backend → Bool
is_persistent persistent = true
is_persistent _ = false

-- `fs_backend_is_persistent`.
abbrev pub fs_backend_is_persistent : Fs → Bool
fs_backend_is_persistent fs = is_persistent fs.backend

-- The end of `fs_commit_changes`, by the result of the sync.
abbrev pub after_sync : SyncResult × Fs → Bool × Fs
after_sync (sync_committed, fs) = (true, fs)
after_sync (sync_uncertain, fs) = (true, record fs { backend = volatile_io_error })
after_sync (sync_failed, fs) = (false, record fs { backend = volatile_io_error })

abbrev pub commit_records : Option (List DiskRecord) → Answers → Fs → Bool × Fs
commit_records none answers fs = (false, fs)
commit_records (some records) answers fs =
    if not (is_persistent fs.backend) then (true, fs) else after_sync (fs_sync_to_disk answers fs)

unfoldable pub fs_commit_changes : Answers → Fs → Bool × Fs
fs_commit_changes answers fs = commit_records (fs_serialize fs.files) answers fs

abbrev pub with_file : Fs → ℕ → File → Fs
with_file fs i file = record fs { files = set fs.files i file }

-- What follows a commit: a failed one puts the file back at its place.
abbrev pub or_undo : ℕ → File → Bool × Fs → Bool × Fs
or_undo i undo (true, fs) = (true, fs)
or_undo i undo (false, fs) = (false, with_file fs i undo)

-- The change of one file, with what is put back.
unfoldable pub change_file : ℕ → File → File → Answers → Fs → Bool × Fs
change_file i file undo answers fs =
    or_undo i undo (fs_commit_changes answers (with_file fs i file))

abbrev pub new_file : List ℕ → List ℕ → File
new_file name contents = record { in_use = true; name = fs_copy_name name; contents = contents }

abbrev pub file_of_index : Fs → ℕ → File
file_of_index fs i = get_or fs.files i cleared_file

abbrev pub touch_free : Option ℕ → List ℕ → Answers → Fs → Bool × Fs
touch_free none name answers fs = (false, fs)
touch_free (some i) name answers fs = change_file i (new_file name []) cleared_file answers fs

abbrev pub touch_found : Option ℕ → List ℕ → Answers → Fs → Bool × Fs
touch_found (some i) name answers fs = (true, fs)
touch_found none name answers fs = touch_free (fs_allocate_slot fs.files) name answers fs

unfoldable pub fs_touch : List ℕ → Answers → Fs → Bool × Fs
fs_touch name answers fs =
    if fs_name_is_system_log name || fs_name_is_system_managed name
    then (false, fs)
    else if not (fs_is_valid_name name)
        || (fs_name_is_self_test_file name && not fs.self_test_active)
    then (false, fs)
    else touch_found (fs_find_mutable fs.files name) name answers fs

abbrev pub write_free : Option ℕ → List ℕ → List ℕ → Answers → Fs → Bool × Fs
write_free none name contents answers fs = (false, fs)
write_free (some i) name contents answers fs =
    change_file i (new_file name contents) cleared_file answers fs

abbrev pub write_found : Option ℕ → List ℕ → List ℕ → Answers → Fs → Bool × Fs
write_found (some i) name contents answers fs =
    change_file i (record (file_of_index fs i) { contents = contents }) (file_of_index fs i) answers
      fs
write_found none name contents answers fs =
    write_free (fs_allocate_slot fs.files) name contents answers fs

unfoldable pub fs_write_bytes_internal : List ℕ → List ℕ → Bool → Answers → Fs → Bool × Fs
fs_write_bytes_internal name contents allow_system answers fs =
    if not (fs_is_valid_name name)
      || fs_name_is_system_log name
      || (not allow_system && fs_name_is_system_managed name)
      || (fs_name_is_self_test_file name && not fs.self_test_active)
      || leb fs_max_file_size (length contents)
    then (false, fs)
    else write_found (fs_find_mutable fs.files name) name contents answers fs

unfoldable pub fs_write_bytes : List ℕ → List ℕ → Answers → Fs → Bool × Fs
fs_write_bytes name contents answers fs = fs_write_bytes_internal name contents false answers fs

unfoldable pub fs_system_write_bytes : List ℕ → List ℕ → Answers → Fs → Bool × Fs
fs_system_write_bytes name contents answers fs =
    if not (fs_name_is_system_managed name)
    then (false, fs)
    else fs_write_bytes_internal name contents true answers fs

-- The text of `fs_write` ends at its zero.
abbrev pub fs_write : List ℕ → List ℕ → Answers → Fs → Bool × Fs
fs_write name contents answers fs = fs_write_bytes name contents answers fs

-- `fs_append` on the file at a place: the one that was there, or a new one, which is cleared when the
-- text does not fit.
unfoldable pub append_at : ℕ → File → File → List ℕ → Answers → Fs → Bool × Fs
append_at i file undo contents answers fs =
    if ltb (fs_max_file_size - 1 - length file.contents) (length contents)
    then (false, with_file fs i undo)
    else change_file i (record file { contents = file.contents ++ contents }) undo answers fs

abbrev pub append_free : Option ℕ → List ℕ → List ℕ → Answers → Fs → Bool × Fs
append_free none name contents answers fs = (false, fs)
append_free (some i) name contents answers fs =
    append_at i (new_file name []) cleared_file contents answers fs

abbrev pub append_found : Option ℕ → List ℕ → List ℕ → Answers → Fs → Bool × Fs
append_found (some i) name contents answers fs =
    append_at i (file_of_index fs i) (file_of_index fs i) contents answers fs
append_found none name contents answers fs =
    append_free (fs_allocate_slot fs.files) name contents answers fs

unfoldable pub fs_append : List ℕ → List ℕ → Answers → Fs → Bool × Fs
fs_append name contents answers fs =
    if not (fs_is_valid_name name)
      || fs_name_is_system_log name
      || fs_name_is_system_managed name
      || (fs_name_is_self_test_file name && not fs.self_test_active)
      || leb fs_max_file_size (length contents)
    then (false, fs)
    else append_found (fs_find_mutable fs.files name) name contents answers fs

abbrev pub is_hidden : List ℕ → File → Fs → Bool
is_hidden name file fs =
    fs_name_is_self_test_file name && not fs.self_test_active && fs_file_is_self_test_artifact file

abbrev pub rename_to : Option ℕ → ℕ → List ℕ → Answers → Fs → Bool × Fs
rename_to (some j) i new_name answers fs = (false, fs)
rename_to none i new_name answers fs =
    change_file i (record (file_of_index fs i) { name = fs_copy_name new_name })
      (record (file_of_index fs i) { name = fs_copy_name (file_of_index fs i).name }) answers fs

abbrev pub rename_found : Option ℕ → List ℕ → List ℕ → Answers → Fs → Bool × Fs
rename_found none old_name new_name answers fs = (false, fs)
rename_found (some i) old_name new_name answers fs =
    if is_hidden old_name (file_of_index fs i) fs
    then (false, fs)
    else if same_name old_name new_name
    then (true, fs)
    else rename_to (fs_find_mutable fs.files new_name) i new_name answers fs

unfoldable pub fs_rename_internal : List ℕ → List ℕ → Bool → Answers → Fs → Bool × Fs
fs_rename_internal old_name new_name allow_system answers fs =
    if not (fs_is_valid_name old_name) || not (fs_is_valid_name new_name)
    then (false, fs)
    else if fs_name_is_system_log old_name || fs_name_is_system_log new_name
    then (false, fs)
    else if not allow_system
        && (fs_name_is_system_managed old_name || fs_name_is_system_managed new_name)
    then (false, fs)
    else if fs_name_is_self_test_file new_name && not fs.self_test_active
    then (false, fs)
    else rename_found (fs_find_mutable fs.files old_name) old_name new_name answers fs

unfoldable pub fs_rename : List ℕ → List ℕ → Answers → Fs → Bool × Fs
fs_rename old_name new_name answers fs = fs_rename_internal old_name new_name false answers fs

unfoldable pub fs_system_rename : List ℕ → List ℕ → Answers → Fs → Bool × Fs
fs_system_rename old_name new_name answers fs =
    if not (fs_name_is_system_managed old_name) || fs_name_is_system_managed new_name
    then (false, fs)
    else fs_rename_internal old_name new_name true answers fs

abbrev pub remove_found : Option ℕ → List ℕ → Answers → Fs → Bool × Fs
remove_found none name answers fs = (false, fs)
remove_found (some i) name answers fs =
    if is_hidden name (file_of_index fs i) fs
    then (false, fs)
    else change_file i cleared_file (file_of_index fs i) answers fs

unfoldable pub fs_remove_internal : List ℕ → Bool → Answers → Fs → Bool × Fs
fs_remove_internal name allow_system answers fs =
    if fs_name_is_system_log name
    then (false, fs)
    else if not allow_system && fs_name_is_system_managed name
    then (false, fs)
    else remove_found (fs_find_mutable fs.files name) name answers fs

unfoldable pub fs_remove : List ℕ → Answers → Fs → Bool × Fs
fs_remove name answers fs = fs_remove_internal name false answers fs

unfoldable pub fs_system_remove : List ℕ → Answers → Fs → Bool × Fs
fs_system_remove name answers fs =
    if not (fs_name_is_system_managed name)
    then (false, fs)
    else fs_remove_internal name true answers fs

-- Whether a place of FILES is listed.
abbrev pub is_listed : Bool → File → Bool
is_listed log_is_virtual file =
    file.in_use
    && not (fs_file_is_self_test_artifact file)
    && not (log_is_virtual && fs_name_is_system_log file.name)

unfoldable pub count_listed : Bool → List File → ℕ
count_listed virtual [] = 0
count_listed virtual (file ∷ files) =
    let rest = count_listed virtual files in if is_listed virtual file then suc rest else rest

unfoldable pub fs_file_count : Fs → ℕ
fs_file_count fs = count_listed fs.log_is_virtual fs.files + (if fs.log_is_virtual then 1 else 0)

-- The virtual file system.log with the text of the ring, `log_text`.
abbrev pub virtual_log : List ℕ → File
virtual_log log_text = record { in_use = true; name = system_log; contents = log_text }

-- The loop of `fs_file_at`, with the listed files to pass.
unfoldable pub file_at_from : Bool → List ℕ → ℕ → List File → Option File
file_at_from virtual log_text index [] =
    if virtual && (index == 0) then some (virtual_log log_text) else none
file_at_from virtual log_text index (file ∷ files) =
    let skipped = file_at_from virtual log_text index files in
    let passed = file_at_from virtual log_text (index - 1) files in
    if not (is_listed virtual file) then skipped else if index == 0 then some file else passed

unfoldable pub fs_file_at : List ℕ → ℕ → Fs → Option File
fs_file_at log_text index fs = file_at_from fs.log_is_virtual log_text index fs.files

abbrev pub found_file : Option ℕ → Fs → Option File
found_file none fs = none
found_file (some i) fs =
    if fs_file_is_self_test_artifact (file_of_index fs i) then none else some (file_of_index fs i)

unfoldable pub fs_find : List ℕ → List ℕ → Fs → Option File
fs_find log_text name fs =
    if fs_name_is_system_log name && fs.log_is_virtual
    then some (virtual_log log_text)
    else found_file (fs_find_mutable fs.files name) fs
