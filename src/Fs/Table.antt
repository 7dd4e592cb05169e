-- ===== src/Fs/Table.antt =====
-- kernel/fs.c: the table of 32 records in which the files are kept on the disk. A file of more than
-- 1024 bytes has further records directly behind its first.
pub mod Parts
pub mod Scan
pub mod RoundTrip
pub mod Room
use nostalux_os.Base.{
  ℕ, zero, suc, ◌+◌, ◌-◌, ◌/◌, min, Bool, true, false, not, ◌&&◌, Option, none, some, List, [], ◌∷◌,
  ◌++◌, map, ltb, leb, ◌==◌, if◌then◌else◌, length, get_or, take, drop, replicate,
}
use nostalux_os.Fs.{fs_max_files, fs_max_filename, fs_max_file_size, File}
use nostalux_os.Fs.Names.{fs_is_valid_name, same_name}
use nostalux_os.Syslog.{chars_of}

abbrev pub fs_disk_data_bytes : ℕ
fs_disk_data_bytes = 1024

abbrev pub fs_disk_record_head : ℕ
fs_disk_record_head = 1

abbrev pub fs_disk_record_continuation : ℕ
fs_disk_record_continuation = 2

-- `struct fs_disk_record`, whose field `in_use` tells the kind of the record.
pub record DiskRecord : Type 0 where
  pub in_use : ℕ
  pub name : List ℕ
  pub size : ℕ
  pub data_ : List ℕ

unfoldable pub zeros : ℕ → List ℕ
zeros n = replicate n 0

-- Bytes at the start of an array of `n` that was cleared.
abbrev pub padded : ℕ → List ℕ → List ℕ
padded n bytes = bytes ++ zeros (n - length bytes)

abbrev pub cleared_record : DiskRecord
cleared_record = record {
  in_use = 0;
  name = zeros fs_max_filename;
  size = 0;
  data_ = zeros fs_disk_data_bytes;
}

unfoldable pub fs_disk_records_needed : ℕ → ℕ
fs_disk_records_needed size =
    if size == 0 then 1 else (size + fs_disk_data_bytes - 1) / fs_disk_data_bytes

abbrev pub continuation_record : List ℕ → DiskRecord
continuation_record chunk = record {
  in_use = fs_disk_record_continuation;
  name = zeros fs_max_filename;
  size = length chunk;
  data_ = padded fs_disk_data_bytes chunk;
}

-- The loop `while (copied < size)` on the bytes that are left, in `parts` steps at most.
unfoldable pub continuations : ℕ → List ℕ → List DiskRecord
continuations zero left = []
continuations (suc parts) left =
    let rest = continuations parts (drop fs_disk_data_bytes left) in
    if length left == 0 then [] else continuation_record (take fs_disk_data_bytes left) ∷ rest

abbrev pub head_record : File → DiskRecord
head_record file = record {
  in_use = fs_disk_record_head;
  name = padded fs_max_filename (take (fs_max_filename - 1) file.name);
  size = length file.contents;
  data_ = padded fs_disk_data_bytes (take fs_disk_data_bytes file.contents);
}

abbrev pub file_records : File → List DiskRecord
file_records file =
    head_record file ∷ continuations fs_max_files (drop fs_disk_data_bytes file.contents)

abbrev pub behind : List DiskRecord → Option (List DiskRecord) → Option (List DiskRecord)
behind records none = none
behind records (some rest) = some (records ++ rest)

-- The loop of `fs_serialize`: the records from `disk_index` on, or none when they do not fit.
unfoldable pub serialize_from : ℕ → List File → Option (List DiskRecord)
serialize_from disk_index [] = some (replicate (fs_max_files - disk_index) cleared_record)
serialize_from disk_index (file ∷ files) =
    let needed = fs_disk_records_needed (length file.contents) in
    let rest = serialize_from (disk_index + needed) files in
    let skipped = serialize_from disk_index files in
    if not file.in_use
    then skipped
    else if ltb (fs_max_files - disk_index) needed
    then none
    else behind (file_records file) rest

abbrev pub fs_serialize : List File → Option (List DiskRecord)
fs_serialize files = serialize_from 0 files

-- Whether one of the records before is the first of a file of that name.
unfoldable pub is_taken : List DiskRecord → List ℕ → Bool
is_taken [] name = false
is_taken (prior ∷ previous) name =
    let rest = is_taken previous name in
    if (prior.in_use == fs_disk_record_head) && same_name (chars_of prior.name) name
    then true
    else rest

abbrev pub head_is_valid : DiskRecord → Bool
head_is_valid head =
    (head.in_use == fs_disk_record_head)
    && ltb head.size fs_max_file_size
    && (get_or head.name (fs_max_filename - 1) 0 == 0)
    && fs_is_valid_name (chars_of head.name)

abbrev pub are_blank : List ℕ → Bool
are_blank [] = true
are_blank (b ∷ bytes) = (b == 0) && are_blank bytes

unfoldable pub fs_disk_continuation_is_valid : DiskRecord → ℕ → Bool
fs_disk_continuation_is_valid r expected_size =
    (r.in_use == fs_disk_record_continuation) && (r.size == expected_size) && are_blank r.name

-- The loop over the parts behind the first record, on the records that follow it; nothing remains at
-- its end.
unfoldable pub chain_is_valid : ℕ → ℕ → List DiskRecord → Bool
chain_is_valid zero remaining records = remaining == 0
chain_is_valid (suc parts) remaining [] = false
chain_is_valid (suc parts) remaining (r ∷ records) =
    let expected = min remaining fs_disk_data_bytes in
    fs_disk_continuation_is_valid r expected && chain_is_valid parts (remaining - expected) records

-- The first loop of `fs_deserialize_current`: `previous` are the records before, the last one first,
-- and `skip` the parts of the last file that are still to be passed.
unfoldable pub table_is_valid : List DiskRecord → ℕ → ℕ → List DiskRecord → Bool
table_is_valid previous logical_count skip [] = true
table_is_valid previous logical_count (suc skip) (r ∷ records) =
    table_is_valid (r ∷ previous) logical_count skip records
table_is_valid previous logical_count zero (head ∷ records) =
    let needed = fs_disk_records_needed head.size in
    let next = table_is_valid (head ∷ previous) logical_count 0 records in
    let after = table_is_valid (head ∷ previous) (logical_count + 1) (needed - 1) records in
    if head.in_use == 0
    then next
    else head_is_valid head
      && not (is_taken previous (chars_of head.name))
      && leb needed (suc (length records))
      && chain_is_valid (needed - 1) (head.size - fs_disk_data_bytes) records
      && ltb logical_count fs_max_files
      && after

-- The bytes of a file in the parts behind its first record.
unfoldable pub read_parts : ℕ → List DiskRecord → List ℕ
read_parts zero records = []
read_parts (suc parts) [] = []
read_parts (suc parts) (r ∷ records) = take r.size r.data_ ++ read_parts parts records

abbrev pub read_file : DiskRecord → List DiskRecord → File
read_file head records = record {
  in_use = true;
  name = chars_of head.name;
  contents =
      take (min head.size fs_disk_data_bytes) head.data_
      ++ read_parts (fs_disk_records_needed head.size - 1) records;
}

-- The last loop: the files, in the order of their records.
unfoldable pub read_files : ℕ → List DiskRecord → List File
read_files skip [] = []
read_files (suc skip) (r ∷ records) = read_files skip records
read_files zero (head ∷ records) =
    let next = read_files 0 records in
    let after = read_files (fs_disk_records_needed head.size - 1) records in
    if head.in_use == 0 then next else read_file head records ∷ after

abbrev pub cleared_file : File
cleared_file = record { in_use = false; name = []; contents = [] }

-- The files at the start of FILES and cleared ones behind them.
abbrev pub filled : List File → List File
filled files = files ++ replicate (fs_max_files - length files) cleared_file

unfoldable pub fs_deserialize_current : List DiskRecord → Option (List File)
fs_deserialize_current records =
    if table_is_valid [] 0 0 records then some (filled (read_files 0 records)) else none

abbrev pub legacy_is_valid : DiskRecord → Bool
legacy_is_valid r =
    (r.in_use == fs_disk_record_head)
    && ltb r.size fs_disk_data_bytes
    && (get_or r.name (fs_max_filename - 1) 0 == 0)
    && (get_or r.data_ r.size 0 == 0)
    && fs_is_valid_name (chars_of r.name)

unfoldable pub legacy_table_is_valid : List DiskRecord → List DiskRecord → Bool
legacy_table_is_valid previous [] = true
legacy_table_is_valid previous (r ∷ records) =
    let rest = legacy_table_is_valid (r ∷ previous) records in
    if r.in_use == 0
    then rest
    else legacy_is_valid r && not (is_taken previous (chars_of r.name)) && rest

abbrev pub legacy_file : DiskRecord → File
legacy_file r =
    if r.in_use == 0
    then cleared_file
    else record { in_use = true; name = chars_of r.name; contents = take r.size r.data_ }

unfoldable pub fs_deserialize_legacy : List DiskRecord → Option (List File)
fs_deserialize_legacy records =
    if legacy_table_is_valid [] records then some (map legacy_file records) else none
