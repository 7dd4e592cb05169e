-- ===== src/Fs/Table/Room.antt =====
-- kernel/fs.c: when the table has room for the files.
use nostalux_os.Base.{
  ℕ, zero, suc, ◌+◌, ◌-◌, ◌*◌, ◌≤◌, ◌<◌, ◌≡◌, refl, sym, ap, ◌∙◌, ◌⊎◌, inl, inr, Bool, true, false,
  Option, none, some, List, [], ◌∷◌, arith, ltb, leb, ◌==◌, if◌then◌else◌, le→leb, lt→leb, tests,
  Bool-cases, length, set,
}
use nostalux_os.Fs.{fs_max_files, File}
use nostalux_os.Fs.Files.Places.{FreeAt}
use nostalux_os.Fs.Table.{
  behind, DiskRecord, fs_disk_records_needed, file_records, serialize_from, fs_serialize,
}

-- The records that the files in use take.
abbrev pub records_used : List File → ℕ
records_used [] = 0
records_used (file ∷ files) =
    if file.in_use
    then fs_disk_records_needed (length file.contents) + records_used files
    else records_used files

abbrev pub is_serialized : Option (List DiskRecord) → Bool
is_serialized none = false
is_serialized (some records) = true

behind-serialized :
    (records : List DiskRecord) (o : Option (List DiskRecord))
    → is_serialized (behind records o) ≡ is_serialized o
behind-serialized records none = refl
behind-serialized records (some rest) = refl

serialize_from-room :
    (files : List File) (disk_index : ℕ)
    → disk_index ≤ fs_max_files
    → is_serialized (serialize_from disk_index files)
      ≡ leb (disk_index + records_used files) fs_max_files
unfolding serialize_from
serialize_from-room [] disk_index h = sym (le→leb (disk_index + 0) 32 (omega (arith, h)))
serialize_from-room (file ∷ files) disk_index h = elim (Bool-cases file.in_use) [
  | inl u ↦ simp u (used file files disk_index h (serialize_from-room files))
  | inr n ↦ simp n (serialize_from-room files disk_index h)
]
  where
    used :
        (file : File) (files : List File) (d : ℕ)
        → d ≤ 32
        → ((n : ℕ)
            → n ≤ 32
            → is_serialized (serialize_from n files) ≡ leb (n + records_used files) 32)
        → is_serialized (
            if ltb (32 - d) (fs_disk_records_needed (length file.contents))
            then none
            else behind
                (file_records file)
                (serialize_from (d + fs_disk_records_needed (length file.contents)) files))
          ≡ leb (d + (fs_disk_records_needed (length file.contents) + records_used files)) 32
    used file files d h rest =
        let needed = fs_disk_records_needed (length file.contents) in
        elim (Bool-cases (ltb (32 - d) needed)) [
          | inl e ↦
              simp e (sym (lt→leb (d + (needed + records_used files)) 32 (omega (tests, e, h))))
          | inr n ↦ simp n (
              behind-serialized (file_records file) (serialize_from (d + needed) files)
              ∙ rest (d + needed) (omega (tests, n, h))
              ∙ ap (λ (k : ℕ). leb k 32) (omega arith))
        ]

-- The files fit the table exactly when the records that they take are at most 32.
pub fs_serialize-records_used :
    (files : List File) → is_serialized (fs_serialize files) ≡ leb (records_used files) fs_max_files
fs_serialize-records_used files =
    serialize_from-room files 0 (omega arith) ∙ ap (λ (k : ℕ). leb k fs_max_files) (omega arith)

-- The number of records that a file of `size` bytes takes: at least one, and no more than are needed to
-- hold 1024 bytes each.
pub record IsCount (size n : ℕ) : Type 0 where
  pub one : 1 ≤ n
  pub holds : size ≤ n * 1024
  pub least : (n ≡ 1) ⊎ ((n - 1) * 1024 < size)

needed-IsCount : (size n : ℕ) → IsCount size n → fs_disk_records_needed size ≡ n
unfolding fs_disk_records_needed
needed-IsCount size n c = elim (Bool-cases (size == 0)) [
  | inl z ↦ simp z (omega (tests, z, c.one, c.least))
  | inr z ↦ simp z (omega (tests, z, c.one, c.holds, c.least))
]

-- The number of records that the files of a list take together.
pub data Takes : List File → ℕ → Type 0 where
  takes_none : Takes [] 0
  takes_unused :
      {file : File} {files : List File} {n : ℕ}
      → file.in_use ≡ false
      → Takes files n
      → Takes (file ∷ files) n
  takes_file :
      {file : File} {files : List File} {m n : ℕ}
      → file.in_use ≡ true
      → IsCount (length file.contents) m
      → Takes files n
      → Takes (file ∷ files) (m + n)

pub records_used-Takes : (files : List File) (n : ℕ) → Takes files n → records_used files ≡ n
records_used-Takes [] _ takes_none = refl
records_used-Takes (file ∷ files) n (takes_unused u t) = simp u (records_used-Takes files n t)
records_used-Takes (file ∷ files) _ (takes_file {m = m} {n = n} u c t) = simp u (
    rw (needed-IsCount (length file.contents) m c)
      (ap (λ (k : ℕ). m + k) (records_used-Takes files n t)))

-- A file that is put in a free place takes its records in addition.
pub records_used-set :
    (files : List File) (i : ℕ) (file : File) (n : ℕ)
    → FreeAt files i
    → file.in_use ≡ true
    → IsCount (length file.contents) n
    → records_used (set files i file) ≡ records_used files + n
records_used-set [] i file n free u c = elim free [ ]
records_used-set (f ∷ files) zero file n (FreeAt.here free) u c =
    simp (u, free) (rw (needed-IsCount (length file.contents) n c) (omega arith))
records_used-set (f ∷ files) (suc i) file n (FreeAt.there free) u c =
    let rest = records_used-set files i file n free u c in
    elim (Bool-cases f.in_use) [ inl v ↦ simp v (omega (arith, rest)) | inr v ↦ simp v rest ]
