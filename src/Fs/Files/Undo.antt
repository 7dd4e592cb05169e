-- ===== src/Fs/Files/Undo.antt =====
-- kernel/fs.c: a commit leaves FILES as it is, and a failed change is taken back.
use nostalux_os.Base.{
  ℕ, zero, suc, ◌≡◌, refl, ap, ◌∙◌, inl, inr, Bool, true, false, Option, none, some, List, [], ◌∷◌,
  Bool-cases, get_or, set,
}
use nostalux_os.Fs.{File, Fs}
use nostalux_os.Fs.Bytes.{table_bytes}
use nostalux_os.Fs.Files.{
  is_persistent, after_sync, commit_records, fs_commit_changes, with_file, or_undo, change_file,
}
use nostalux_os.Fs.Load.{AtaInit, init_error, ready, no_device}
use nostalux_os.Fs.Sync.{
  Answers, SyncResult, sync_committed, sync_failed, sync_uncertain, fs_accept_commit, table_outcome,
  header_outcome, after_header, after_table, sync_table, sync_ready, fs_sync_to_disk,
}
use nostalux_os.Fs.Table.{DiskRecord, fs_serialize}

after_sync-files : (r : SyncResult × Fs) → (after_sync r).1.files ≡ r.1.files
after_sync-files (sync_committed, fs) = refl
after_sync-files (sync_uncertain, fs) = refl
after_sync-files (sync_failed, fs) = refl

after_header-files :
    (r : SyncResult) (answers : Answers) (fs : Fs) → (after_header r answers fs).1.files ≡ fs.files
unfolding fs_accept_commit
after_header-files sync_committed answers fs = refl
after_header-files sync_failed answers fs = refl
after_header-files sync_uncertain answers fs = refl

after_table-files :
    (r : SyncResult) (verified : Bool) (answers : Answers) (table : List ℕ) (fs : Fs)
    → (after_table r verified answers table fs).1.files ≡ fs.files
after_table-files sync_committed verified answers table fs =
    after_header-files (header_outcome verified answers table fs) answers fs
after_table-files sync_failed verified answers table fs = refl
after_table-files sync_uncertain verified answers table fs = refl

sync_table-files :
    (o : Option (List DiskRecord)) (verified : Bool) (answers : Answers) (fs : Fs)
    → (sync_table o verified answers fs).1.files ≡ fs.files
sync_table-files none verified answers fs = refl
sync_table-files (some records) verified answers fs =
    after_table-files (table_outcome verified answers (table_bytes records) fs) verified answers
      (table_bytes records) fs

sync_ready-files :
    (init : AtaInit) (verified : Bool) (answers : Answers) (fs : Fs)
    → (sync_ready init verified answers fs).1.files ≡ fs.files
unfolding sync_ready
sync_ready-files ready verified answers fs =
    sync_table-files (fs_serialize fs.files) verified answers fs
sync_ready-files no_device verified answers fs = refl
sync_ready-files init_error verified answers fs = refl

commit_records-files :
    (o : Option (List DiskRecord)) (answers : Answers) (fs : Fs)
    → (commit_records o answers fs).1.files ≡ fs.files
commit_records-files none answers fs = refl
commit_records-files (some records) answers fs = elim (Bool-cases (is_persistent fs.backend)) [
  | inl p ↦ simp p (
      after_sync-files (fs_sync_to_disk answers fs)
      ∙ sync_ready-files answers.init false answers fs)
  | inr n ↦ simp n refl
]

pub fs_commit_changes-files :
    (answers : Answers) (fs : Fs) → (fs_commit_changes answers fs).1.files ≡ fs.files
unfolding fs_commit_changes
fs_commit_changes-files answers fs = commit_records-files (fs_serialize fs.files) answers fs

set-set {ℓ} : {A : Type ℓ} (xs : List A) (i : ℕ) (x y : A) → set (set xs i x) i y ≡ set xs i y
set-set [] i x y = refl
set-set (z ∷ xs) zero x y = refl
set-set (z ∷ xs) (suc i) x y = ap (λ t. z ∷ t) (set-set xs i x y)

pub set_same {ℓ} : {A : Type ℓ} (xs : List A) (i : ℕ) (d : A) → set xs i (get_or xs i d) ≡ xs
set_same [] i d = refl
set_same (z ∷ xs) zero d = refl
set_same (z ∷ xs) (suc i) d = ap (λ t. z ∷ t) (set_same xs i d)

-- A change either stands or has put back its file.
pub data Changed (files : List File) (i : ℕ) (file undo : File) (r : Bool × Fs) : Type 0 where
  stands : r.0 ≡ true → r.1.files ≡ set files i file → Changed files i file undo r
  undone : r.0 ≡ false → r.1.files ≡ set files i undo → Changed files i file undo r

or_undo-Changed :
    (files : List File) (i : ℕ) (file undo : File) (r : Bool × Fs)
    → r.1.files ≡ set files i file
    → Changed files i file undo (or_undo i undo r)
or_undo-Changed files i file undo (true, fs) e = stands refl e
or_undo-Changed files i file undo (false, fs) e =
    undone refl (ap (λ (t : List File). set t i undo) e ∙ set-set files i file undo)

pub change_file-Changed :
    (i : ℕ) (file undo : File) (answers : Answers) (fs : Fs)
    → Changed fs.files i file undo (change_file i file undo answers fs)
unfolding change_file
change_file-Changed i file undo answers fs =
    or_undo-Changed fs.files i file undo (fs_commit_changes answers (with_file fs i file))
      (fs_commit_changes-files answers (with_file fs i file))
