-- ===== src/Fs/Samples.antt =====
-- kernel/fs.c: a volume with the file "a" in its places, mounted from slot 0 of a disk whose slot 1 is
-- blank, and drivers that complete their writes or fail.
use nostalux_os.Base.{
  add32, ℕ, zero, suc, ◌*◌, ◌≤◌, ◌≡◌, refl, sym, subst, inl, inr, Bool, true, false, none, some,
  List, [], ◌∷◌, ◌++◌, arith, ◌==◌, if◌then◌else◌, length, drop, replicate, length-drop,
  All-replicate, Pairwise,
}
use nostalux_os.Fs.{File, persistent, volatile_corrupt, unavailable, Disk, Fs}
use nostalux_os.Fs.Bytes.{table_bytes, header_of, fs_header_is_valid}
use nostalux_os.Fs.Bytes.Serialized.{table_bytes-back}
use nostalux_os.Fs.Calls.{Call, call_write, call_rename}
use nostalux_os.Fs.Calls.Accepts.{IsUserName}
use nostalux_os.Fs.Files.{fs_commit_changes}
use nostalux_os.Fs.Load.{ready, no_device, Reader, fs_load_from_disk}
use nostalux_os.Fs.Load.Newest.{IsReadable}
use nostalux_os.Fs.Load.Snapshot.{older_invalid}
use nostalux_os.Fs.Mount.{Boot, TestAnswers}
use nostalux_os.Fs.Mount.Rejected.{may_write}
use nostalux_os.Fs.Names.{
  valid_from, fs_is_valid_name, fs_name_is_system_managed, fs_name_is_system_log,
  fs_name_is_self_test_file, find_from, fs_find_mutable, allocate_from, fs_allocate_slot,
}
use nostalux_os.Fs.Sync.{
  write_failed, write_complete, Answers, fs_accept_commit, commit_header, write_outcome, sync_ready,
  fs_sync_to_disk_verified,
}
use nostalux_os.Fs.Sync.Commit.{commit-IsSnapshot}
use nostalux_os.Fs.Sync.Crash.{HonestFor, IsMounted, saved_files}
use nostalux_os.Fs.Sync.Device.{Shows}
use nostalux_os.Fs.Table.{
  DiskRecord, cleared_record, fs_disk_records_needed, file_records, serialize_from, fs_serialize,
  cleared_file,
}
use nostalux_os.Fs.Table.Room.{IsCount, Takes, takes_none, takes_unused}
use nostalux_os.Fs.Valid.{IsFile, Differ, AreFiles}
use nostalux_os.KString.{kstrcmp}
use nostalux_os.KString.Order.{IsString}

abbrev pub name_a : List ℕ
name_a = 97 ∷ []

abbrev pub name_b : List ℕ
name_b = 98 ∷ []

abbrev pub file_a : File
file_a = record { in_use = true; name = name_a; contents = 1 ∷ 2 ∷ 3 ∷ [] }

abbrev pub places : List File
places = file_a ∷ replicate 31 cleared_file

pub name_a-IsString : IsString name_a
name_a-IsString = ((omega arith, omega arith), tt)

pub name_b-IsString : IsString name_b
name_b-IsString = ((omega arith, omega arith), tt)

name_a-valid : fs_is_valid_name name_a ≡ true
unfolding fs_is_valid_name valid_from
name_a-valid = refl

cleared_distinct : (n : ℕ) → Pairwise Differ (replicate n cleared_file)
cleared_distinct zero = tt
cleared_distinct (suc n) =
    (All-replicate (Differ cleared_file) n cleared_file (inl refl), cleared_distinct n)

pub places-AreFiles : AreFiles places
places-AreFiles = record {
  count = refl;
  stored = (
    inr (refl, (name_a-valid, name_a-IsString, omega arith)),
    All-replicate IsFile 31 cleared_file (inl refl),
  );
  distinct = (All-replicate (Differ file_a) 31 cleared_file (inr (inl refl)), cleared_distinct 31);
}

abbrev pub records_a : List DiskRecord
records_a = file_records file_a ++ replicate 31 cleared_record

pub records_a-fs_serialize : fs_serialize places ≡ some records_a
unfolding serialize_from fs_disk_records_needed
records_a-fs_serialize = refl

abbrev table_a : List ℕ
table_a = table_bytes records_a

abbrev pub disk_a : Disk
disk_a = record {
  slot0 = record { header = commit_header table_a 7; table = table_a };
  slot1 = record { header = []; table = [] };
}

abbrev pub volume : Fs
volume = record {
  files = places;
  active_slot = 0;
  active_generation = 7;
  loaded_version = 5;
  backend = persistent;
  legacy = unavailable;
  self_test_active = false;
  log_is_virtual = true;
  disk = disk_a;
}

blank_header : fs_header_is_valid [] ≡ false
unfolding fs_header_is_valid header_of
blank_header = refl

pub volume-IsMounted : IsMounted volume (saved_files volume)
volume-IsMounted = record {
  slot_is = omega arith;
  current =
      commit-IsSnapshot places records_a 7 places-AreFiles records_a-fs_serialize (omega arith);
  previous = older_invalid blank_header;
}

abbrev no_reads : Reader
no_reads lba count = none

abbrev pub answers_a : Answers
answers_a = record {
  init = ready;
  table_result = write_complete;
  table_left = table_a;
  table_back = no_reads;
  header_result = write_complete;
  header_left = commit_header table_a 8;
  header_back = no_reads;
}

Shows-nothing : (n lba : ℕ) (bytes : List ℕ) → Shows no_reads lba n bytes
Shows-nothing zero lba bytes = tt
Shows-nothing (suc n) lba bytes =
    ((λ b e. absurd (ground arith)), Shows-nothing n (add32 lba 1) (drop 512 bytes))

pub answers_a-HonestFor : HonestFor answers_a records_a volume
answers_a-HonestFor = record {
  table_complete = λ e. refl;
  table_size = (table_bytes-back places records_a places-AreFiles records_a-fs_serialize).0;
  table_shown = Shows-nothing 67 2117 table_a;
  header_complete = λ e. refl;
  header_kept = inr refl;
  header_shown = λ b e. absurd (ground arith);
}

abbrev pub reader_of : Disk → Reader
reader_of disk lba count =
    if lba == 2048
    then some disk.slot0.header
    else if lba == 2049
    then some disk.slot0.table
    else if lba == 2116
    then some disk.slot1.header
    else some disk.slot1.table

pub IsReadable-first : (disk : Disk) → IsReadable disk 0 (reader_of disk)
IsReadable-first disk = record { header = refl; table = refl; other = inr refl }

pub IsReadable-second : (disk : Disk) → IsReadable disk 1 (reader_of disk)
IsReadable-second disk = record { header = refl; table = refl; other = inr refl }

-- The power is lost in the first sectors of the table.
abbrev torn_table : List ℕ
torn_table = 9 ∷ drop 1 table_a

abbrev pub cut_short : Answers
cut_short = record answers_a { table_result = write_failed; table_left = torn_table }

length-torn_table : length torn_table ≡ 67 * 512
length-torn_table = omega (
  arith,
  length-drop 1 table_a,
  (table_bytes-back places records_a places-AreFiles records_a-fs_serialize).0,
)

pub cut_short-HonestFor : HonestFor cut_short records_a volume
cut_short-HonestFor = record {
  table_complete = λ e. absurd (ground arith);
  table_size = length-torn_table;
  table_shown = Shows-nothing 67 2117 torn_table;
  header_complete = λ e. refl;
  header_kept = inr refl;
  header_shown = λ b e. absurd (ground arith);
}

abbrev pub torn : Disk
torn = (fs_sync_to_disk_verified false cut_short volume).1.disk

pub committed_volume : fs_commit_changes answers_a volume ≡ (
  true,
  record volume {
    active_slot = 1;
    active_generation = 8;
    disk = record disk_a { slot1 = record { header = commit_header table_a 8; table = table_a } };
  },
)
unfolding fs_commit_changes serialize_from fs_disk_records_needed sync_ready write_outcome
    fs_accept_commit
committed_volume = refl

abbrev pub disk_after : Disk
disk_after = record disk_a { slot1 = record { header = commit_header table_a 8; table = table_a } }

pub after-IsReadable :
    IsReadable
      (fs_commit_changes answers_a volume).1.disk
      (fs_commit_changes answers_a volume).1.active_slot
      (reader_of disk_after)
after-IsReadable =
    subst (λ (r : Bool × Fs). IsReadable r.1.disk r.1.active_slot (reader_of disk_after))
      (sym committed_volume) (IsReadable-second disk_after)

abbrev pub session : List (Call × Answers)
session =
    (call_write name_b (5 ∷ []) false, answers_a)
    ∷ (call_rename name_a name_a false, answers_a)
    ∷ []

abbrev pub volatile_volume : Fs
volatile_volume = record volume { backend = volatile_corrupt }

abbrev pub no_drive_boot : Boot
no_drive_boot = record { init = no_device; read = no_reads }

abbrev pub test_a : TestAnswers
test_a = record {
  write = answers_a;
  after_write = no_drive_boot;
  rename = answers_a;
  after_rename = no_drive_boot;
  remove = answers_a;
  after_remove = no_drive_boot;
}

pub nothing_loaded :
    may_write (fs_load_from_disk no_device no_reads (record volume { log_is_virtual = true })).0
    ≡ false
unfolding fs_load_from_disk
nothing_loaded = refl

pub name_b-IsUserName : IsUserName name_b
unfolding fs_is_valid_name valid_from fs_name_is_system_log fs_name_is_system_managed
    fs_name_is_self_test_file kstrcmp
name_b-IsUserName = record { valid = refl; not_log = refl; not_managed = refl; not_test = refl }

pub name_b-absent : fs_find_mutable places name_b ≡ none
unfolding find_from kstrcmp
name_b-absent = refl

pub second_place : fs_allocate_slot places ≡ some 1
unfolding allocate_from
second_place = refl

pub Takes-nothing : (n : ℕ) → Takes (replicate n cleared_file) 0
Takes-nothing zero = takes_none
Takes-nothing (suc n) = takes_unused refl (Takes-nothing n)

pub one_record : (size : ℕ) → size ≤ 1024 → IsCount size 1
one_record size h = record { one = omega arith; holds = omega (arith, h); least = inl refl }
