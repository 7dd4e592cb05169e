-- ===== src/Fs/Bytes/Serialized.antt =====
-- kernel/fs.c: the records that serializing writes, and their bytes.
use nostalux_os.Base.{
  ℕ, zero, suc, ◌+◌, ◌-◌, ◌*◌, ◌≤◌, ◌≡◌, sym, subst, inl, inr, some, List, [], ◌∷◌, ◌++◌, arith,
  suc-mul, ◌==◌, tests, Bool-cases, length, take, drop, length-append, length-replicate,
  length-take, All, All-replicate,
}
use nostalux_os.Fs.{fs_max_files, File}
use nostalux_os.Fs.Bytes.{
  fs_disk_table_sectors, record_bytes, records_bytes, table_bytes, records_of, table_of,
}
use nostalux_os.Fs.Bytes.Records.{IsRecord, length-record_bytes, records_of-records_bytes}
use nostalux_os.Fs.Table.{
  DiskRecord, zeros, padded, cleared_record, fs_disk_records_needed, continuations, file_records,
  serialize_from, fs_serialize,
}
use nostalux_os.Fs.Table.Parts.{length-zeros}
use nostalux_os.Fs.Table.RoundTrip.{serialize-nil, serialize-unused, serialize-used}
use nostalux_os.Fs.Table.Scan.{parts_needed}
use nostalux_os.Fs.Valid.{IsStored, IsFile, AreFiles}

All-append {ℓ κ} :
    {A : Type ℓ} (P : A → Type κ) (xs ys : List A) → All P xs → All P ys → All P (xs ++ ys)
All-append P [] ys h k = k
All-append P (x ∷ xs) ys h k = (h.0, All-append P xs ys h.1 k)

length-padded : (n : ℕ) (bytes : List ℕ) → length bytes ≤ n → length (padded n bytes) ≡ n
length-padded n bytes h =
    omega (arith, length-append bytes (zeros (n - length bytes)), length-zeros (n - length bytes))

continuations-IsRecord : (fuel : ℕ) (left : List ℕ) → All IsRecord (continuations fuel left)
unfolding continuations
continuations-IsRecord zero left = tt
continuations-IsRecord (suc fuel) left = elim (Bool-cases (length left == 0)) [
  | inl e ↦ simp e tt
  | inr n ↦ simp n (
    record {
      name = length-zeros 32;
      size = omega (arith, length-take 1024 left);
      data_ = length-padded 1024 (take 1024 left) (omega (arith, length-take 1024 left));
    },
    continuations-IsRecord fuel (drop 1024 left),
  )
]

file_records-IsRecord : (file : File) → IsStored file → All IsRecord (file_records file)
file_records-IsRecord file h = (
  record {
    name = length-padded 32 (take 31 file.name) (omega (arith, length-take 31 file.name));
    size = omega (arith, h.2);
    data_ =
        length-padded 1024 (take 1024 file.contents)
          (omega (arith, length-take 1024 file.contents));
  },
  continuations-IsRecord fs_max_files (drop 1024 file.contents),
)

cleared-IsRecord : IsRecord cleared_record
cleared-IsRecord = record { name = length-zeros 32; size = omega arith; data_ = length-zeros 1024 }

length-file_records :
    (file : File)
    → IsStored file
    → length (file_records file) ≡ fs_disk_records_needed (length file.contents)
length-file_records file h = sym (parts_needed file h)

-- The records of FILES are as many as the table has, and of the sizes of its fields.
pub serialize_from-IsRecord :
    (files : List File) (disk_index : ℕ) (records : List DiskRecord)
    → disk_index ≤ fs_max_files
    → All IsFile files
    → serialize_from disk_index files ≡ some records
    → (length records ≡ fs_max_files - disk_index) × All IsRecord records
serialize_from-IsRecord [] disk_index records le s e =
    subst (λ (r : List DiskRecord). (length r ≡ fs_max_files - disk_index) × All IsRecord r)
      (serialize-nil disk_index records e)
      (
        length-replicate (32 - disk_index) cleared_record,
        All-replicate IsRecord (32 - disk_index) cleared_record cleared-IsRecord,
      )
serialize_from-IsRecord (file ∷ files) disk_index records le s e = elim s.0 [
  | inl unused ↦
      serialize_from-IsRecord files disk_index records le s.1
        (serialize-unused file files disk_index records unused e)
  | inr (used, h) ↦
      let (rest, e', q, room) = serialize-used file files disk_index records used e in
      let needed = fs_disk_records_needed (length file.contents) in
      let next =
        serialize_from-IsRecord files (disk_index + needed) rest (omega (tests, room, le)) s.1 e' in
      subst (λ (r : List DiskRecord). (length r ≡ fs_max_files - disk_index) × All IsRecord r) q
        (
          omega (
            tests,
            length-append (file_records file) rest,
            length-file_records file h,
            next.0,
            room,
            le,
          ),
          All-append IsRecord (file_records file) rest (file_records-IsRecord file h) next.1,
        )
]

length-records_bytes :
    (records : List DiskRecord)
    → All IsRecord records
    → length (records_bytes records) ≡ length records * 1061 + 352
unfolding records_bytes
length-records_bytes [] h = length-zeros 352
length-records_bytes (r ∷ records) h = omega (
  arith,
  length-append (record_bytes r) (records_bytes records),
  length-record_bytes r h.0,
  length-records_bytes records h.1,
  suc-mul (length records) 1061,
)

-- A table that was written is read back as its records.
pub table_bytes-back :
    (files : List File) (records : List DiskRecord)
    → AreFiles files
    → fs_serialize files ≡ some records
    → (length (table_bytes records) ≡ fs_disk_table_sectors * 512)
      × (table_of (table_bytes records) ≡ records)
table_bytes-back files records h e =
    let r = serialize_from-IsRecord files 0 records (omega arith) h.stored e in
    let n : length records ≡ 32 = omega (arith, r.0) in
    (
      omega (arith, length-records_bytes records r.1, n),
      subst (λ (k : ℕ). records_of k (records_bytes records) ≡ records) n
          (records_of-records_bytes records r.1),
    )
