-- ===== src/Fs/Mount/Rejected.antt =====
-- kernel/fs.c: a mount writes only to a disk that was loaded in order, or that is blank.
use nostalux_os.Base.{
  u32_mod, ℕ, ◌+◌, ◌%◌, ◌≡◌, refl, ◌∙◌, inl, inr, Bool, true, false, not, Option, none, some, List,
  arith, leb, ◌==◌, if◌then◌else◌, Bool-cases,
}
use nostalux_os.Fs.{File, Backend, volatile_corrupt, volatile_io_error, unavailable, Fs}
use nostalux_os.Fs.Bytes.{fs_disk_version, fs_disk_table_sectors, table_of, fs_checksum, header_of}
use nostalux_os.Fs.Files.{is_persistent}
use nostalux_os.Fs.Load.{
  LoadResult, AtaInit, init_error, ready, no_device, Reader, loaded, loaded_io_error,
  loaded_corrupt, no_drive, blank, corrupt, io_error, SlotResult, slot_loaded, slot_corrupt,
  slot_io_error, fs_slot_header_lba, mounted, load_table, fs_load_slot, HeaderRead, header_read,
  slot_order, is_second_first, mark_legacy, Seen, after_second, try_second, after_first, try_first,
  seen_of, load_slots, unmounted, fs_load_from_disk,
}
use nostalux_os.Fs.Mount.{Boot, TestAnswers, mount_loaded, mount, fs_init}
use nostalux_os.Fs.Sync.{Answers}
use nostalux_os.Fs.Table.{fs_deserialize_current, fs_deserialize_legacy}
use nostalux_os.Syslog.Ring.{slot}

load_table-disk :
    (slot : ℕ) (header : List ℕ) (o : Option (List ℕ)) (fs : Fs)
    → (load_table slot header o fs).1.disk ≡ fs.disk
load_table-disk slot header none fs = refl
load_table-disk slot header (some table) fs =
    choice (not ((header_of header).checksum == fs_checksum table))
      (leb fs_disk_version (header_of header).version) (fs_deserialize_current (table_of table))
      (fs_deserialize_legacy (table_of table))
  where
    one : (o : Option (List File)) → (mounted slot header o fs).1.disk ≡ fs.disk
    one none = refl
    one (some files) = refl

    choice :
        (bad current : Bool) (a b : Option (List File))
        → (if bad
            then (slot_corrupt, fs)
            else if current
            then mounted slot header a fs
            else mounted slot header b fs).1.disk
          ≡ fs.disk
    choice true current a b = refl
    choice false true a b = one a
    choice false false a b = one b

fs_load_slot-disk :
    (read : Reader) (slot : ℕ) (header : List ℕ) (fs : Fs)
    → (fs_load_slot read slot header fs).1.disk ≡ fs.disk
unfolding fs_load_slot
fs_load_slot-disk read slot header fs =
    load_table-disk slot header
      (read ((fs_slot_header_lba slot + 1) % u32_mod) fs_disk_table_sectors) fs

mark_legacy-disk : (b : Bool) (fs : Fs) → (mark_legacy b fs).disk ≡ fs.disk
mark_legacy-disk true fs = refl
mark_legacy-disk false fs = refl

after_second-disk :
    (read : Reader) (seen : Seen) (b : Bool) (r : SlotResult × Fs)
    → (after_second read seen b r).1.disk ≡ r.1.disk
after_second-disk read seen b (slot_loaded, fs) = mark_legacy-disk seen.legacy_order fs
after_second-disk read seen b (slot_corrupt, fs) = refl
after_second-disk read seen b (slot_io_error, fs) = refl

try_second-disk :
    (read : Reader) (slot : ℕ) (h : HeaderRead) (seen : Seen) (b : Bool) (fs : Fs)
    → (try_second read slot h seen b fs).1.disk ≡ fs.disk
unfolding try_second
try_second-disk read slot h seen b fs = elim (Bool-cases h.valid) [
  | inl e ↦ simp e (
      after_second-disk read seen b (fs_load_slot read slot h.bytes fs)
      ∙ fs_load_slot-disk read slot h.bytes fs)
  | inr n ↦ simp n refl
]

after_first-disk :
    (read : Reader) (slot : ℕ) (h : HeaderRead) (seen : Seen) (r : SlotResult × Fs)
    → (after_first read slot h seen r).1.disk ≡ r.1.disk
after_first-disk read slot h seen (slot_loaded, fs) = mark_legacy-disk seen.legacy_order fs
after_first-disk read slot h seen (slot_corrupt, fs) = try_second-disk read slot h seen true fs
after_first-disk read slot h seen (slot_io_error, fs) =
    try_second-disk read slot h (record seen { io_error_ = true }) false fs

try_first-disk :
    (read : Reader) (slot : ℕ) (h : HeaderRead) (other : ℕ) (h' : HeaderRead) (seen : Seen)
    (fs : Fs)
    → (try_first read slot h other h' seen fs).1.disk ≡ fs.disk
unfolding try_first
try_first-disk read slot h other h' seen fs = elim (Bool-cases h.valid) [
  | inl e ↦ simp e (
      after_first-disk read other h' seen (fs_load_slot read slot h.bytes fs)
      ∙ fs_load_slot-disk read slot h.bytes fs)
  | inr n ↦ simp n (try_second-disk read other h' seen false fs)
]

load_slots-disk :
    (read : Reader) (h0 h1 : HeaderRead) (fs : Fs) → (load_slots read h0 h1 fs).1.disk ≡ fs.disk
unfolding load_slots
load_slots-disk read h0 h1 fs = elim (Bool-cases (is_second_first h0 h1)) [
  | inl e ↦ simp e (try_first-disk read 1 h1 0 h0 (seen_of h0 h1 (slot_order read h0 h1)) fs)
  | inr n ↦ simp n (try_first-disk read 0 h0 1 h1 (seen_of h0 h1 (slot_order read h0 h1)) fs)
]

pub fs_load_from_disk-disk :
    (init : AtaInit) (read : Reader) (fs : Fs) → (fs_load_from_disk init read fs).1.disk ≡ fs.disk
unfolding fs_load_from_disk
fs_load_from_disk-disk no_device read fs = refl
fs_load_from_disk-disk init_error read fs = refl
fs_load_from_disk-disk ready read fs =
    load_slots-disk read (header_read (read (fs_slot_header_lba 0) 1))
      (header_read (read (fs_slot_header_lba 1) 1)) (unmounted (record fs { legacy = unavailable }))

-- Whether a mount may write to the disk.
abbrev pub may_write : LoadResult → Bool
may_write loaded = true
may_write blank = true
may_write _ = false

mount_untrusted :
    (backend : Backend) (answers : Answers) (fs : Fs)
    → is_persistent backend ≡ false
    → ((mount_loaded false backend answers fs).disk ≡ fs.disk)
      × (is_persistent (mount_loaded false backend answers fs).backend ≡ false)
unfolding mount_loaded
mount_untrusted backend answers fs v = (refl, v)

mount-rejected :
    (answers : Answers) (test : TestAnswers) (r : LoadResult × Fs)
    → may_write r.0 ≡ false
    → ((mount answers test r).disk ≡ r.1.disk)
      × (is_persistent (mount answers test r).backend ≡ false)
mount-rejected answers test (loaded, fs) h = absurd (ground arith)
mount-rejected answers test (loaded_corrupt, fs) h =
    mount_untrusted volatile_corrupt answers fs refl
mount-rejected answers test (loaded_io_error, fs) h =
    mount_untrusted volatile_io_error answers fs refl
mount-rejected answers test (blank, fs) h = absurd (ground arith)
mount-rejected answers test (no_drive, fs) h = (refl, refl)
mount-rejected answers test (corrupt, fs) h = (refl, refl)
mount-rejected answers test (io_error, fs) h = (refl, refl)

-- When the load finds the disk corrupt, only partly readable, absent or in an unclear order, the mount
-- leaves it as it is, and the volume is not persistent.
pub fs_init-rejected :
    (boot : Boot) (answers : Answers) (test : TestAnswers) (fs : Fs)
    → may_write (fs_load_from_disk boot.init boot.read (record fs { log_is_virtual = true })).0
      ≡ false
    → ((fs_init boot answers test fs).disk ≡ fs.disk)
      × (is_persistent (fs_init boot answers test fs).backend ≡ false)
unfolding fs_init
fs_init-rejected boot answers test fs h =
    let start = record fs { log_is_virtual = true } in
    let r = mount-rejected answers test (fs_load_from_disk boot.init boot.read start) h in
    (r.0 ∙ fs_load_from_disk-disk boot.init boot.read start, r.1)
