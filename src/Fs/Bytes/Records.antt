-- ===== src/Fs/Bytes/Records.antt =====
-- kernel/fs.c: the records of a table that its bytes are read back as.
use nostalux_os.Base.{
  u32_mod, ℕ, ◌<◌, ◌≡◌, refl, ap, ◌∙◌, subst, List, [], ◌∷◌, ◌++◌, append_assoc, arith, length,
  take, drop, length-append, All,
}
use nostalux_os.Fs.{fs_max_filename}
use nostalux_os.Fs.Bytes.{
  fs_disk_record_bytes, bytes_of, u32_of, record_bytes, records_bytes, record_of, records_of,
}
use nostalux_os.Fs.Table.{fs_disk_data_bytes, DiskRecord}
use nostalux_os.Fs.Table.Parts.{take-append, ap2}

pub record IsRecord (r : DiskRecord) : Type 0 where
  pub name : length r.name ≡ fs_max_filename
  pub size : r.size < u32_mod
  pub data_ : length r.data_ ≡ fs_disk_data_bytes

pub u32_of-bytes_of : (v : ℕ) (rest : List ℕ) → v < u32_mod → u32_of (bytes_of v ++ rest) ≡ v
u32_of-bytes_of v rest h = omega (arith, h)

drop-length {ℓ} : {A : Type ℓ} (xs ys : List A) → drop (length xs) (xs ++ ys) ≡ ys
drop-length [] ys = refl
drop-length (x ∷ xs) ys = drop-length xs ys

drop-append {ℓ} : {A : Type ℓ} (n : ℕ) (xs ys : List A) → length xs ≡ n → drop n (xs ++ ys) ≡ ys
drop-append n xs ys e = subst (λ (k : ℕ). drop k (xs ++ ys) ≡ ys) e (drop-length xs ys)

take-prefix {ℓ} : {A : Type ℓ} (n : ℕ) (xs ys : List A) → length xs ≡ n → take n (xs ++ ys) ≡ xs
take-prefix n xs ys e = subst (λ (k : ℕ). take k (xs ++ ys) ≡ xs) e (take-append xs ys)

record_fields :
    (r : DiskRecord) (rest : List ℕ)
    → record_bytes r ++ rest ≡ r.in_use ∷ (r.name ++ (bytes_of r.size ++ (r.data_ ++ rest)))
unfolding record_bytes
record_fields r rest =
    append_assoc ((r.in_use ∷ []) ++ r.name ++ bytes_of r.size) r.data_ rest
    ∙ append_assoc ((r.in_use ∷ []) ++ r.name) (bytes_of r.size) (r.data_ ++ rest)
    ∙ append_assoc (r.in_use ∷ []) r.name (bytes_of r.size ++ (r.data_ ++ rest))

record_from : ℕ → List ℕ → ℕ → List ℕ → DiskRecord
record_from in_use name size data' = record {
  in_use = in_use;
  name = name;
  size = size;
  data_ = data';
}

record_of-fields :
    (r : DiskRecord) (rest : List ℕ)
    → IsRecord r
    → record_of (r.in_use ∷ (r.name ++ (bytes_of r.size ++ (r.data_ ++ rest)))) ≡ r
unfolding record_of record_from
record_of-fields r rest h =
    let behind = bytes_of r.size ++ (r.data_ ++ rest) in
    let name = take-prefix 32 r.name behind h.name in
    let later = drop-append 32 r.name behind h.name in
    let size : u32_of (drop 32 (r.name ++ behind)) ≡ r.size =
      ap u32_of later ∙ u32_of-bytes_of r.size (r.data_ ++ rest) h.size in
    let left : take 1024 (drop 4 (drop 32 (r.name ++ behind))) ≡ r.data_ =
      ap (λ (t : List ℕ). take 1024 (drop 4 t)) later ∙ take-prefix 1024 r.data_ rest h.data_ in
    ap
      (λ (n : List ℕ).
        record_from r.in_use n (u32_of (drop 32 (r.name ++ behind)))
          (take 1024 (drop 4 (drop 32 (r.name ++ behind)))))
      name
    ∙ ap2 (record_from r.in_use r.name) size left

record_of-bytes :
    (r : DiskRecord) (rest : List ℕ) → IsRecord r → record_of (record_bytes r ++ rest) ≡ r
record_of-bytes r rest h = ap record_of (record_fields r rest) ∙ record_of-fields r rest h

pub length-record_bytes :
    (r : DiskRecord) → IsRecord r → length (record_bytes r) ≡ fs_disk_record_bytes
unfolding record_bytes
length-record_bytes r h = omega (
  arith,
  length-append (r.name ++ bytes_of r.size) r.data_,
  length-append r.name (bytes_of r.size),
  h.name,
  h.data_,
)

drop-record_bytes :
    (r : DiskRecord) (rest : List ℕ)
    → IsRecord r
    → drop fs_disk_record_bytes (record_bytes r ++ rest) ≡ rest
drop-record_bytes r rest h =
    drop-append fs_disk_record_bytes (record_bytes r) rest (length-record_bytes r h)

pub records_of-records_bytes :
    (records : List DiskRecord)
    → All IsRecord records
    → records_of (length records) (records_bytes records) ≡ records
unfolding records_of records_bytes
records_of-records_bytes [] h = refl
records_of-records_bytes (r ∷ records) h = ap2 ◌∷◌ (record_of-bytes r (records_bytes records) h.0) (
    ap (λ (t : List ℕ). records_of (length records) t)
      (drop-record_bytes r (records_bytes records) h.0)
    ∙ records_of-records_bytes records h.1)
