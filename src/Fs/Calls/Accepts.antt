-- ===== src/Fs/Calls/Accepts.antt =====
-- kernel/fs.c: when a call reports success on a volume that is not persistent.
use nostalux_os.Base.{
  ℕ, ◌+◌, ◌≤◌, ◌<◌, ◌≡◌, refl, ap, ◌∙◌, ◌↔◌, Bool, true, false, Option, none, some, List, leb,
  leb→le, le→leb, lt→leb, length, set,
}
use nostalux_os.Fs.{fs_max_files, fs_max_file_size, File, Fs}
use nostalux_os.Fs.Files.{
  is_persistent, commit_records, fs_commit_changes, with_file, or_undo, change_file, new_file,
  file_of_index, fs_write_bytes_internal, fs_write_bytes,
}
use nostalux_os.Fs.Files.Places.{allocate-free}
use nostalux_os.Fs.Names.{
  fs_is_valid_name, fs_name_is_system_managed, fs_name_is_system_log, fs_name_is_self_test_file,
  fs_find_mutable, fs_allocate_slot,
}
use nostalux_os.Fs.Sync.{Answers}
use nostalux_os.Fs.Table.{DiskRecord, fs_serialize, cleared_file}
use nostalux_os.Fs.Table.Room.{
  records_used, is_serialized, fs_serialize-records_used, IsCount, Takes, records_used-Takes,
  records_used-set,
}

volatile-accepts :
    (answers : Answers) (fs : Fs)
    → is_persistent fs.backend ≡ false
    → (fs_commit_changes answers fs).0 ≡ leb (records_used fs.files) fs_max_files
unfolding fs_commit_changes
volatile-accepts answers fs v = records (fs_serialize fs.files) ∙ fs_serialize-records_used fs.files
  where
    records : (o : Option (List DiskRecord)) → (commit_records o answers fs).0 ≡ is_serialized o
    records none = refl
    records (some r) = simp v refl

or_undo-result : (i : ℕ) (undo : File) (r : Bool × Fs) → (or_undo i undo r).0 ≡ r.0
or_undo-result i undo (true, fs) = refl
or_undo-result i undo (false, fs) = refl

change_file-accepts :
    (i : ℕ) (file undo : File) (answers : Answers) (fs : Fs)
    → is_persistent fs.backend ≡ false
    → (change_file i file undo answers fs).0 ≡ leb (records_used (set fs.files i file)) fs_max_files
unfolding change_file
change_file-accepts i file undo answers fs v =
    or_undo-result i undo (fs_commit_changes answers (with_file fs i file))
    ∙ volatile-accepts answers (with_file fs i file) v

-- A name that a user may write.
pub record IsUserName (name : List ℕ) : Type 0 where
  pub valid : fs_is_valid_name name ≡ true
  pub not_log : fs_name_is_system_log name ≡ false
  pub not_managed : fs_name_is_system_managed name ≡ false
  pub not_test : fs_name_is_self_test_file name ≡ false

accepts_new :
    (name contents : List ℕ) (i : ℕ) (answers : Answers) (fs : Fs)
    → is_persistent fs.backend ≡ false
    → IsUserName name
    → length contents < fs_max_file_size
    → fs_find_mutable fs.files name ≡ none
    → fs_allocate_slot fs.files ≡ some i
    → (fs_write_bytes name contents answers fs).0
      ≡ leb (records_used (set fs.files i (new_file name contents))) fs_max_files
unfolding fs_write_bytes fs_write_bytes_internal
accepts_new name contents i answers fs v h lt absent free =
    simp (h.valid, h.not_log, h.not_managed, h.not_test, lt→leb 8192 (length contents) lt)
      (rw absent
        (rw free (change_file-accepts i (new_file name contents) cleared_file answers fs v)))

-- On a volume that is not persistent, writing fewer than 8192 bytes under a user's name that no file
-- has, when there is a free place, reports success exactly when the records that the files take and
-- those that the new one takes are together at most 32; a file takes the least number of records, one at
-- least, that hold 1024 bytes each.
pub fs_write_bytes-accepts :
    (name contents : List ℕ) (i taken needed : ℕ) (answers : Answers) (fs : Fs)
    → is_persistent fs.backend ≡ false
    → IsUserName name
    → length contents < fs_max_file_size
    → fs_find_mutable fs.files name ≡ none
    → fs_allocate_slot fs.files ≡ some i
    → Takes fs.files taken
    → IsCount (length contents) needed
    → ((fs_write_bytes name contents answers fs).0 ≡ true) ↔ (taken + needed ≤ 32)
fs_write_bytes-accepts name contents i taken needed answers fs v h lt absent free t c =
    let e : records_used (set fs.files i (new_file name contents)) ≡ taken + needed =
      records_used-set fs.files i (new_file name contents) needed (allocate-free fs.files i free)
        refl c
      ∙ ap (λ (k : ℕ). k + needed) (records_used-Takes fs.files taken t) in
    rw (accepts_new name contents i answers fs v h lt absent free)
      (rw e ((λ q. leb→le (taken + needed) 32 q), (λ q. le→leb (taken + needed) 32 q)))

-- Writing fewer than 8192 bytes under a user's name that a file has reports success exactly when the
-- files take at most 32 records with the other contents, on a volume that is not persistent.
pub fs_write_bytes-rewrites :
    (name contents : List ℕ) (i : ℕ) (answers : Answers) (fs : Fs)
    → is_persistent fs.backend ≡ false
    → IsUserName name
    → length contents < fs_max_file_size
    → fs_find_mutable fs.files name ≡ some i
    → (fs_write_bytes name contents answers fs).0
      ≡ leb
          (records_used (set fs.files i (record (file_of_index fs i) { contents = contents })))
          fs_max_files
unfolding fs_write_bytes fs_write_bytes_internal
fs_write_bytes-rewrites name contents i answers fs v h lt present =
    simp (h.valid, h.not_log, h.not_managed, h.not_test, lt→leb 8192 (length contents) lt)
      (rw present (
        change_file-accepts i (record (file_of_index fs i) { contents = contents })
          (file_of_index fs i) answers fs v))
