-- ===== src/Fs/Table/Scan.antt =====
-- kernel/fs.c: the records of one file pass the tests of the table and are read as the file.
use nostalux_os.Base.{
  ℕ, suc, ◌+◌, ◌-◌, ◌<◌, min, ◌≡◌, refl, sym, ap, ◌∙◌, subst, Bool, true, false, not, ◌&&◌, List,
  [], ◌∷◌, ◌++◌, arith, leb, ◌==◌, if◌then◌else◌, lt→ltb, le→leb, eq→==, length, get_or, take, drop,
  length-append, length-take, take-all, length-drop, All,
}
use nostalux_os.Fs.{fs_max_files, File}
use nostalux_os.Fs.Names.{same_name}
use nostalux_os.Fs.Table.{
  DiskRecord, zeros, padded, fs_disk_records_needed, continuations, head_record, file_records,
  is_taken, head_is_valid, chain_is_valid, table_is_valid, read_parts, read_file, read_files,
}
use nostalux_os.Fs.Table.Parts.{
  chars_of-zeros, get_or-zeros, take-append, take-drop, ap2, needed-parts_of, length-continuations,
  IsContinuation, continuations-chain, continuations-read,
}
use nostalux_os.Fs.Valid.{IsStored, valid-lt}
use nostalux_os.Syslog.{chars_of}

pub Bool-differ : {b : Bool} → b ≡ true → b ≡ false → ⊥
Bool-differ h k = cc

-- The records passed so far, the last one first.
abbrev pub over : List DiskRecord → List DiskRecord → List DiskRecord
over previous [] = previous
over previous (r ∷ parts) = over (r ∷ previous) parts

valid_skip :
    (parts rest previous : List DiskRecord) (count : ℕ)
    → table_is_valid previous count (length parts) (parts ++ rest)
      ≡ table_is_valid (over previous parts) count 0 rest
unfolding table_is_valid
valid_skip [] rest previous count = refl
valid_skip (r ∷ parts) rest previous count = valid_skip parts rest (r ∷ previous) count

read_skip :
    (parts rest : List DiskRecord) → read_files (length parts) (parts ++ rest) ≡ read_files 0 rest
unfolding read_files
read_skip [] rest = refl
read_skip (r ∷ parts) rest = read_skip parts rest

not_head :
    (r : DiskRecord) (b rest : Bool)
    → IsContinuation r
    → (if (r.in_use == 1) && b then true else rest) ≡ rest
not_head r b rest h = rw h refl

pub is_taken-over :
    (parts previous : List DiskRecord) (name : List ℕ)
    → All IsContinuation parts
    → is_taken (over previous parts) name ≡ is_taken previous name
unfolding is_taken
is_taken-over [] previous name h = refl
is_taken-over (r ∷ parts) previous name h =
    is_taken-over parts (r ∷ previous) name h.1
    ∙ not_head r (same_name (chars_of r.name) name) (is_taken previous name) h.0

all_true :
    {a b c d e : Bool} (z : Bool)
    → a ≡ true
    → b ≡ true
    → c ≡ true
    → d ≡ true
    → e ≡ true
    → (a && b && c && d && e && z) ≡ z
all_true z ha hb hc hd he = rw ha (rw hb (rw hc (rw hd (rw he refl))))

pub parts_needed :
    (file : File)
    → IsStored file
    → fs_disk_records_needed (length file.contents)
      ≡ suc (length (continuations fs_max_files (drop 1024 file.contents)))
parts_needed file h = omega (
  arith,
  needed-parts_of (length file.contents),
  h.2,
  length-drop 1024 file.contents,
  length-continuations 32 (drop 1024 file.contents)
      (omega (arith, h.2, length-drop 1024 file.contents)),
)

short_name : (file : File) → IsStored file → take 31 file.name ≡ file.name
short_name file h = take-all 31 file.name (omega (arith, valid-lt file.name h.0))

pub stored_name : (file : File) → IsStored file → chars_of (head_record file).name ≡ file.name
stored_name file h = rw (short_name file h) (chars_of-zeros file.name (32 - length file.name) h.1)

stored_last : (file : File) → IsStored file → (get_or (head_record file).name 31 0 == 0) ≡ true
stored_last file h = rw (short_name file h) (
    eq→== (get_or (padded 32 file.name) 31 0) 0
      (get_or-zeros file.name (32 - length file.name) 31 (omega (arith, valid-lt file.name h.0))))

three_true : {a b c : Bool} → a ≡ true → b ≡ true → c ≡ true → (a && b && c) ≡ true
three_true ha hb hc = rw ha (rw hb hc)

head_record-valid : (file : File) → IsStored file → head_is_valid (head_record file) ≡ true
head_record-valid file h =
    three_true (lt→ltb (length file.contents) 8192 h.2) (stored_last file h)
      (rw (stored_name file h) h.0)

stored_chain :
    (file : File) (rest : List DiskRecord)
    → IsStored file
    → chain_is_valid
        (fs_disk_records_needed (length file.contents) - 1)
        (length file.contents - 1024)
        (continuations fs_max_files (drop 1024 file.contents) ++ rest)
      ≡ true
stored_chain file rest h =
    let left = drop 1024 file.contents in
    let parts = continuations fs_max_files left in
    let passes =
      continuations-chain fs_max_files left rest
        (omega (arith, h.2, length-drop 1024 file.contents)) in
    let len : length left ≡ length file.contents - 1024 = length-drop 1024 file.contents in
    let count : length parts ≡ fs_disk_records_needed (length file.contents) - 1 =
      omega (arith, parts_needed file h) in
    subst (λ (k : ℕ). chain_is_valid k (length file.contents - 1024) (parts ++ rest) ≡ true) count
      (subst (λ (k : ℕ). chain_is_valid (length parts) k (parts ++ rest) ≡ true) len passes)

-- The records of one file pass the loop of the tests.
pub file_records-valid :
    (file : File) (rest previous : List DiskRecord) (count : ℕ)
    → IsStored file
    → is_taken previous file.name ≡ false
    → count < fs_max_files
    → table_is_valid previous count 0 (file_records file ++ rest)
      ≡ table_is_valid (over previous (file_records file)) (count + 1) 0 rest
unfolding table_is_valid
file_records-valid file rest previous count h free lt =
    let head = head_record file in
    let parts = continuations fs_max_files (drop 1024 file.contents) in
    let needed = fs_disk_records_needed (length file.contents) in
    let fresh : not (is_taken previous (chars_of head.name)) ≡ true =
      rw (stored_name file h) (ap not free) in
    let room : leb needed (suc (length (parts ++ rest))) ≡ true =
      le→leb needed (suc (length (parts ++ rest)))
        (omega (arith, parts_needed file h, length-append parts rest)) in
    let skip : needed - 1 ≡ length parts = omega (arith, parts_needed file h) in
    all_true (table_is_valid (head ∷ previous) (count + 1) (needed - 1) (parts ++ rest))
      (head_record-valid file h) fresh room (stored_chain file rest h)
      (lt→ltb count fs_max_files lt)
    ∙ ap (λ (k : ℕ). table_is_valid (head ∷ previous) (count + 1) k (parts ++ rest)) skip
    ∙ valid_skip parts rest (head ∷ previous) (count + 1)

stored_contents :
    (file : File) (rest : List DiskRecord)
    → IsStored file
    → (read_file
        (head_record file)
        (continuations fs_max_files (drop 1024 file.contents) ++ rest)).contents
      ≡ file.contents
stored_contents file rest h =
    let left = drop 1024 file.contents in
    let parts = continuations fs_max_files left in
    let chunk = take 1024 file.contents in
    let size : length chunk ≡ min (length file.contents) 1024 =
      omega (arith, length-take 1024 file.contents) in
    let count : length parts ≡ fs_disk_records_needed (length file.contents) - 1 =
      omega (arith, parts_needed file h) in
    let head =
      subst (λ (k : ℕ). take k (chunk ++ zeros (1024 - length chunk)) ≡ chunk) size
        (take-append chunk (zeros (1024 - length chunk))) in
    let tail =
      subst (λ (k : ℕ). read_parts k (parts ++ rest) ≡ left) count
        (continuations-read fs_max_files left rest
          (omega (arith, h.2, length-drop 1024 file.contents))) in
    ap2 ◌++◌ head tail ∙ take-drop 1024 file.contents

file_of : Bool → List ℕ → List ℕ → File
file_of in_use name contents = record { in_use = in_use; name = name; contents = contents }

stored_file :
    (file : File) (rest : List DiskRecord)
    → file.in_use ≡ true
    → IsStored file
    → read_file (head_record file) (continuations fs_max_files (drop 1024 file.contents) ++ rest)
      ≡ file
unfolding file_of
stored_file file rest used h =
    ap2 (file_of true) (stored_name file h) (stored_contents file rest h)
    ∙ ap (λ (b : Bool). file_of b file.name file.contents) (sym used)

-- They are read as the file.
pub file_records-read :
    (file : File) (rest : List DiskRecord)
    → file.in_use ≡ true
    → IsStored file
    → read_files 0 (file_records file ++ rest) ≡ file ∷ read_files 0 rest
unfolding read_files
file_records-read file rest used h =
    let parts = continuations fs_max_files (drop 1024 file.contents) in
    let skip : fs_disk_records_needed (length file.contents) - 1 ≡ length parts =
      omega (arith, parts_needed file h) in
    ap2 ◌∷◌ (stored_file file rest used h)
      (ap (λ (k : ℕ). read_files k (parts ++ rest)) skip ∙ read_skip parts rest)
