-- ===== src/Fs/Table/RoundTrip.antt =====
-- kernel/fs.c: what a serialized table is read back as.
use nostalux_os.Base.{
  ℕ, zero, suc, ◌+◌, ◌-◌, ◌≤◌, ◌<◌, ◌≡◌, refl, ap, ◌∙◌, subst, ◌⊎◌, inl, inr, Bool, true, false,
  Option, none, some, List, [], ◌∷◌, ◌++◌, arith, ltb, if◌then◌else◌, length, drop, replicate, All,
  Pairwise,
}
use nostalux_os.Fs.{fs_max_files, File}
use nostalux_os.Fs.Names.{same_name}
use nostalux_os.Fs.Table.{
  behind, DiskRecord, cleared_record, fs_disk_records_needed, continuations, head_record,
  file_records, serialize_from, fs_serialize, is_taken, table_is_valid, read_files, filled,
  fs_deserialize_current,
}
use nostalux_os.Fs.Table.Parts.{continuations-IsContinuation}
use nostalux_os.Fs.Table.Scan.{
  Bool-differ, over, is_taken-over, stored_name, file_records-valid, file_records-read,
}
use nostalux_os.Fs.Valid.{IsStored, IsFile, Differ, AreFiles, same_name-ne}

abbrev Fresh : List DiskRecord → File → Type 0
Fresh previous file = (file.in_use ≡ false) ⊎ (is_taken previous file.name ≡ false)

Fresh-name :
    (file : File) (previous : List DiskRecord)
    → file.in_use ≡ true
    → Fresh previous file
    → is_taken previous file.name ≡ false
Fresh-name file previous used (inl unused) = absurd (Bool-differ used unused)
Fresh-name file previous used (inr free) = free

pub serialize-nil :
    (disk_index : ℕ) (records : List DiskRecord)
    → serialize_from disk_index [] ≡ some records
    → replicate (fs_max_files - disk_index) cleared_record ≡ records
unfolding serialize_from
serialize-nil disk_index records e = ground arith

abbrev pub in_use_files : List File → List File
in_use_files [] = []
in_use_files (file ∷ files) = if file.in_use then file ∷ in_use_files files else in_use_files files

blank-valid :
    (n : ℕ) (previous : List DiskRecord) (count : ℕ)
    → table_is_valid previous count 0 (replicate n cleared_record) ≡ true
unfolding table_is_valid
blank-valid zero previous count = refl
blank-valid (suc n) previous count = blank-valid n (cleared_record ∷ previous) count

blank-read : (n : ℕ) → read_files 0 (replicate n cleared_record) ≡ []
unfolding read_files
blank-read zero = refl
blank-read (suc n) = blank-read n

is_taken-head :
    (file : File) (previous : List DiskRecord) (name : List ℕ)
    → IsStored file
    → same_name file.name name ≡ false
    → is_taken previous name ≡ false
    → is_taken (head_record file ∷ previous) name ≡ false
unfolding is_taken
is_taken-head file previous name h ne free = rw (stored_name file h) (rw ne free)

is_taken-file :
    (file : File) (previous : List DiskRecord) (name : List ℕ)
    → IsStored file
    → same_name file.name name ≡ false
    → is_taken previous name ≡ false
    → is_taken (over previous (file_records file)) name ≡ false
is_taken-file file previous name h ne free =
    is_taken-over (continuations fs_max_files (drop 1024 file.contents))
      (head_record file ∷ previous) name
      (continuations-IsContinuation fs_max_files (drop 1024 file.contents))
    ∙ is_taken-head file previous name h ne free

Fresh-file :
    (file g : File) (previous : List DiskRecord)
    → file.in_use ≡ true
    → IsStored file
    → IsFile g
    → Differ file g
    → Fresh previous g
    → Fresh (over previous (file_records file)) g
Fresh-file file g previous used h (inl unused) d fresh = inl unused
Fresh-file file g previous used h (inr s) (inl d) fresh = absurd (Bool-differ used d)
Fresh-file file g previous used h (inr s) (inr (inl d)) fresh = inl d
Fresh-file file g previous used h (inr s) (inr (inr d)) (inl unused) = inl unused
Fresh-file file g previous used h (inr s) (inr (inr d)) (inr free) =
    inr (is_taken-file file previous g.name h (same_name-ne file.name g.name h.1 s.1.1 d) free)

Fresh-files :
    (file : File) (files : List File) (previous : List DiskRecord)
    → file.in_use ≡ true
    → IsStored file
    → All IsFile files
    → All (Differ file) files
    → All (Fresh previous) files
    → All (Fresh (over previous (file_records file))) files
Fresh-files file [] previous used h s d fresh = tt
Fresh-files file (g ∷ files) previous used h s d fresh = (
  Fresh-file file g previous used h s.0 d.0 fresh.0,
  Fresh-files file files previous used h s.1 d.1 fresh.1,
)

abbrev ReadsAs : List DiskRecord → ℕ → List DiskRecord → List File → Type 0
ReadsAs previous count records files =
    (table_is_valid previous count 0 records ≡ true) × (read_files 0 records ≡ in_use_files files)

ReadsAs-file :
    (file : File) (files : List File) (previous rest : List DiskRecord) (count : ℕ)
    → file.in_use ≡ true
    → IsStored file
    → is_taken previous file.name ≡ false
    → count < fs_max_files
    → ReadsAs (over previous (file_records file)) (count + 1) rest files
    → ReadsAs previous count (file_records file ++ rest) (file ∷ files)
ReadsAs-file file files previous rest count used h free lt (valid, read) = (
  file_records-valid file rest previous count h free lt ∙ valid,
  simp used (file_records-read file rest used h ∙ ap (λ (t : List File). file ∷ t) read),
)

pub inserted :
    (full : Bool) (head : List DiskRecord) (o : Option (List DiskRecord))
    (records : List DiskRecord)
    → (if full then none else behind head o) ≡ some records
    → (rest : List DiskRecord) × (o ≡ some rest) × (head ++ rest ≡ records) × (full ≡ false)
inserted true head o records e = absurd (ground arith)
inserted false head none records e = absurd (ground arith)
inserted false head (some rest) records e = (rest, refl, ground arith, refl)

pub serialize-unused :
    (file : File) (files : List File) (disk_index : ℕ) (records : List DiskRecord)
    → file.in_use ≡ false
    → serialize_from disk_index (file ∷ files) ≡ some records
    → serialize_from disk_index files ≡ some records
unfolding serialize_from
serialize-unused file files disk_index records unused e = simp unused at e

pub serialize-used :
    (file : File) (files : List File) (disk_index : ℕ) (records : List DiskRecord)
    → file.in_use ≡ true
    → serialize_from disk_index (file ∷ files) ≡ some records
    → (rest : List DiskRecord) × (serialize_from
          (disk_index + fs_disk_records_needed (length file.contents))
          files
        ≡ some rest)
      × (file_records file ++ rest ≡ records)
      × (ltb (fs_max_files - disk_index) (fs_disk_records_needed (length file.contents)) ≡ false)
unfolding serialize_from
serialize-used file files disk_index records used e =
    inserted (ltb (fs_max_files - disk_index) (fs_disk_records_needed (length file.contents)))
      (file_records file)
      (serialize_from (disk_index + fs_disk_records_needed (length file.contents)) files) records
      (simp used at e)

serialize-ReadsAs :
    (files : List File) (previous : List DiskRecord) (disk_index count : ℕ)
    (records : List DiskRecord)
    → All IsFile files
    → Pairwise Differ files
    → All (Fresh previous) files
    → count + length files ≤ fs_max_files
    → serialize_from disk_index files ≡ some records
    → ReadsAs previous count records files
serialize-ReadsAs [] previous disk_index count records s d fresh le e =
    let q : replicate (32 - disk_index) cleared_record ≡ records =
      serialize-nil disk_index records e in
    subst (λ (r : List DiskRecord). ReadsAs previous count r []) q
      (blank-valid (32 - disk_index) previous count, blank-read (32 - disk_index))
serialize-ReadsAs (file ∷ files) previous disk_index count records s d fresh le e = elim s.0 [
  | inl unused ↦ simp unused (
      serialize-ReadsAs files previous disk_index count records s.1 d.1 fresh.1 (omega (arith, le))
        (serialize-unused file files disk_index records unused e))
  | inr (used, h) ↦
      let (rest, e', q, room) = serialize-used file files disk_index records used e in
      subst (λ (r : List DiskRecord). ReadsAs previous count r (file ∷ files)) q
        (ReadsAs-file file files previous rest count used h (Fresh-name file previous used fresh.0)
          (omega (arith, le))
          (serialize-ReadsAs files (over previous (file_records file))
            (disk_index + fs_disk_records_needed (length file.contents)) (count + 1) rest s.1 d.1
            (Fresh-files file files previous used h s.1 d.0 fresh.1) (omega (arith, le)) e'))
]

Fresh-nil : (files : List File) → All (Fresh []) files
unfolding is_taken
Fresh-nil [] = tt
Fresh-nil (file ∷ files) = (inr refl, Fresh-nil files)

pub fs_deserialize_current-fs_serialize :
    (files : List File) (records : List DiskRecord)
    → AreFiles files
    → fs_serialize files ≡ some records
    → fs_deserialize_current records ≡ some (filled (in_use_files files))
unfolding fs_deserialize_current
fs_deserialize_current-fs_serialize files records h e =
    let (valid, read) =
      serialize-ReadsAs files [] 0 0 records h.stored h.distinct (Fresh-nil files)
        (omega (arith, h.count)) e in
    simp valid (ap (λ (t : List File). some (filled t)) read)
