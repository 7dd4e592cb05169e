-- ===== src/Fs/Load/Newest.antt =====
-- kernel/fs.c: the slot that is mounted is the one that was committed last.
use nostalux_os.Base.{
  add32, ℕ, zero, suc, ◌≡◌, refl, sym, ap, ◌∙◌, subst, ◌⊎◌, inl, inr, Bool, true, false, ◌||◌,
  Option, none, some, List, arith, lt→ltb, le→ltb, le→leb, lt→leb, eq→==, Bool-cases,
}
use nostalux_os.Fs.{Slot, slot_of, File, unavailable, Disk, Fs}
use nostalux_os.Fs.Bytes.{
  fs_disk_version, fs_disk_table_sectors, fs_checksum, header_of, fs_header_is_valid,
  fs_header_generation,
}
use nostalux_os.Fs.Load.{
  LoadResult, ready, Reader, slot_loaded, fs_slot_header_lba, fs_loaded_result, fs_load_slot,
  HeaderRead, header_read, Seen, try_first, seen_of, load_slots, unmounted, fs_load_from_disk,
}
use nostalux_os.Fs.Load.Order.{
  IsCurrent, IsApart, IsApart-newer, Precedes, is_invalid, is_unprotected, is_older, no_ambiguity,
  slot_order-second, slot_order-first, first_stays, second_first,
}
use nostalux_os.Fs.Load.Snapshot.{
  Holds, IsSnapshot, IsOlder, older_invalid, older_unprotected, older_generation, other_slot,
}
use nostalux_os.Fs.Load.Trust.{load_result, Trusts, header_read-Trusts}
use nostalux_os.Fs.Table.Parts.{ap2}
use nostalux_os.Syslog.Ring.{slot}

-- The answers of the driver to the reads of a mount: the committed slot is read, and the other one is
-- read or its header fails.
pub record IsReadable (disk : Disk) (slot : ℕ) (read : Reader) : Type 0 where
  pub header : read (fs_slot_header_lba slot) 1 ≡ some (slot_of disk slot).header
  pub table :
      read (add32 (fs_slot_header_lba slot) 1) fs_disk_table_sectors
      ≡ some (slot_of disk slot).table
  pub other :
      (read (fs_slot_header_lba (other_slot slot)) 1 ≡ none)
      ⊎ (read (fs_slot_header_lba (other_slot slot)) 1
          ≡ some (slot_of disk (other_slot slot)).header)

load_slot-snapshot :
    (read : Reader) (slot : ℕ) (image : Slot) (files : List File) (g : ℕ) (fs : Fs)
    → IsSnapshot image files g
    → read (add32 (fs_slot_header_lba slot) 1) fs_disk_table_sectors ≡ some image.table
    → fs_load_slot read slot image.header fs ≡ (
      slot_loaded,
      record fs { files = files; active_slot = slot; active_generation = g; loaded_version = 5 },
    )
unfolding fs_load_slot
load_slot-snapshot read slot image files g fs h e =
    let header = header_of image.header in
    rw e (
      simp (eq→== header.checksum (fs_checksum image.table) h.checksum) (
        simp (le→leb 5 header.version (omega (arith, h.version))) (
          rw h.files_are (
            ap2
              (λ (x y : ℕ). (
                slot_loaded,
                record fs {
                  files = files;
                  active_slot = slot;
                  active_generation = x;
                  loaded_version = y;
                },
              ))
              h.generation_is h.version))))

-- The state in which a slot is mounted.
abbrev pub mounted_as : List File → ℕ → ℕ → Fs → Fs
mounted_as files slot generation fs = record fs {
  files = files;
  active_slot = slot;
  active_generation = generation;
  loaded_version = fs_disk_version;
  legacy = unavailable;
}

IsCurrent-snapshot :
    (image : Slot) (files : List File) (g : ℕ)
    → IsSnapshot image files g
    → IsCurrent (header_read (some image.header))
unfolding header_read
IsCurrent-snapshot image files g h = record {
  valid = h.valid;
  protected = le→leb 4 (header_of image.header).version (omega (arith, h.version));
  not_legacy = le→ltb (header_of image.header).version 4 (omega (arith, h.version));
}

Precedes-older :
    (image other : Slot) (files : List File) (g : ℕ)
    → IsSnapshot image files g
    → IsOlder other g
    → Precedes (header_read (some image.header)) (header_read (some other.header))
unfolding header_read
Precedes-older image other files g h (older_invalid v) = is_invalid v
Precedes-older image other files g h (older_unprotected v) =
    elim (Bool-cases (fs_header_is_valid other.header)) [
      | inl e ↦
          is_unprotected e (lt→leb 4 (header_of other.header).version v)
            (lt→ltb (header_of other.header).version 4 v)
      | inr n ↦ is_invalid n
    ]
Precedes-older image other files g h (older_generation lt v new) =
    elim (Bool-cases (fs_header_is_valid other.header)) [
      | inl e ↦
          is_older e (le→leb 4 (header_of other.header).version v)
            (le→ltb (header_of other.header).version 4 v)
            (subst (λ (n : ℕ). IsApart n (fs_header_generation other.header)) (sym h.generation_is)
              (IsApart-newer g (fs_header_generation other.header) h.generation_fits lt new))
      | inr n ↦ is_invalid n
    ]

Precedes-unread :
    (image : Slot) (o : Option (List ℕ))
    → o ≡ none
    → Precedes (header_read (some image.header)) (header_read o)
unfolding header_read
Precedes-unread image o e = rw e (is_invalid refl)

or_false : (b : Bool) → (b || false) ≡ b
or_false true = refl
or_false false = refl

try_first-snapshot :
    (read : Reader) (slot other : ℕ) (p : HeaderRead) (image : Slot) (files : List File) (g : ℕ)
    (seen : Seen) (fs : Fs)
    → IsSnapshot image files g
    → read (add32 (fs_slot_header_lba slot) 1) fs_disk_table_sectors ≡ some image.table
    → seen.legacy_order ≡ false
    → seen.ambiguous ≡ false
    → try_first read slot (header_read (some image.header)) other p seen fs ≡ (
      fs_loaded_result seen.io_error_ seen.nonblank_invalid,
      record fs { files = files; active_slot = slot; active_generation = g; loaded_version = 5 },
    )
unfolding try_first header_read
try_first-snapshot read slot other p image files g seen fs h e l a = rw h.valid (
    rw (load_slot-snapshot read slot image files g fs h e) (
      rw l (
        rw a (
          ap
            (λ (b : Bool). (
              fs_loaded_result seen.io_error_ b,
              record fs {
                files = files;
                active_slot = slot;
                active_generation = g;
                loaded_version = 5;
              },
            ))
            (or_false seen.nonblank_invalid)))))

Precedes-read :
    (disk : Disk) (slot : ℕ) (files : List File) (g : ℕ) (read : Reader)
    → Holds disk slot files g
    → IsReadable disk slot read
    → Precedes
        (header_read (some (slot_of disk slot).header))
        (header_read (read (fs_slot_header_lba (other_slot slot)) 1))
Precedes-read disk slot files g read h r = elim r.other [
  | inl e ↦ Precedes-unread (slot_of disk slot) (read (fs_slot_header_lba (other_slot slot)) 1) e
  | inr e ↦ rw e (
      Precedes-older (slot_of disk slot) (slot_of disk (other_slot slot)) files g h.current
        h.previous)
]

valid_header :
    (image : Slot) (files : List File) (g : ℕ) (p : Bool)
    → IsSnapshot image files g
    → ((header_read (some image.header)).saw_nonblank_invalid || p) ≡ p
unfolding header_read
valid_header image files g p h = rw h.valid refl

unread_error :
    (image : Slot) (p : Bool) → ((header_read (some image.header)).saw_io_error || p || false) ≡ p
unfolding header_read
unread_error image p = or_false p

load_first :
    (read : Reader) (p : HeaderRead) (image : Slot) (files : List File) (g : ℕ) (fs : Fs)
    → IsSnapshot image files g
    → Precedes (header_read (some image.header)) p
    → read (add32 (fs_slot_header_lba 0) 1) fs_disk_table_sectors ≡ some image.table
    → load_slots read
        (header_read (some image.header))
        p
        (unmounted (record fs { legacy = unavailable }))
      ≡ (load_result p, mounted_as files 0 g fs)
unfolding load_slots no_ambiguity
load_first read p image files g fs h precedes e =
    let c = header_read (some image.header) in
    let current = IsCurrent-snapshot image files g h in
    rw (first_stays c p current precedes) (
      rw (slot_order-first read c p current precedes) (
        try_first-snapshot read 0 1 p image files g (seen_of c p no_ambiguity)
          (unmounted (record fs { legacy = unavailable })) h e refl refl
        ∙ ap2 (λ (x y : Bool). (fs_loaded_result x y, mounted_as files 0 g fs))
            (unread_error image p.saw_io_error)
            (valid_header image files g p.saw_nonblank_invalid h)))

header_valid :
    (image : Slot) (files : List File) (g : ℕ) (p : Bool)
    → IsSnapshot image files g
    → (p || (header_read (some image.header)).saw_nonblank_invalid) ≡ p
unfolding header_read
header_valid image files g p h = rw h.valid (or_false p)

read_error :
    (image : Slot) (p : Bool) → (p || (header_read (some image.header)).saw_io_error || false) ≡ p
unfolding header_read
read_error image p = or_false (p || false) ∙ or_false p

load_second :
    (read : Reader) (p : HeaderRead) (image : Slot) (files : List File) (g : ℕ) (fs : Fs)
    → IsSnapshot image files g
    → Precedes (header_read (some image.header)) p
    → read (add32 (fs_slot_header_lba 1) 1) fs_disk_table_sectors ≡ some image.table
    → load_slots read p
        (header_read (some image.header))
        (unmounted (record fs { legacy = unavailable }))
      ≡ (load_result p, mounted_as files 1 g fs)
unfolding load_slots no_ambiguity
load_second read p image files g fs h precedes e =
    let c = header_read (some image.header) in
    let current = IsCurrent-snapshot image files g h in
    rw (second_first c p current precedes) (
      rw (slot_order-second read c p current precedes) (
        try_first-snapshot read 1 0 p image files g (seen_of p c no_ambiguity)
          (unmounted (record fs { legacy = unavailable })) h e refl refl
        ∙ ap2 (λ (x y : Bool). (fs_loaded_result x y, mounted_as files 1 g fs))
            (read_error image p.saw_io_error)
            (header_valid image files g p.saw_nonblank_invalid h)))

fs_load_from_disk-load_result :
    (disk : Disk) (slot : ℕ) (files : List File) (g : ℕ) (read : Reader) (fs : Fs)
    → Holds disk slot files g
    → IsReadable disk slot read
    → fs_load_from_disk ready read fs ≡ (
      load_result (header_read (read (fs_slot_header_lba (other_slot slot)) 1)),
      mounted_as files slot g fs,
    )
unfolding fs_load_from_disk
fs_load_from_disk-load_result disk zero files g read fs h r = rw r.header (
    load_first read (header_read (read (fs_slot_header_lba 1) 1)) disk.slot0 files g fs h.current
      (Precedes-read disk 0 files g read h r) r.table)
fs_load_from_disk-load_result disk (suc zero) files g read fs h r = rw r.header (
    load_second read (header_read (read (fs_slot_header_lba 0) 1)) disk.slot1 files g fs h.current
      (Precedes-read disk 1 files g read h r) r.table)
fs_load_from_disk-load_result disk (suc (suc n)) files g read fs h r =
    absurd (omega (arith, h.slot_is))

-- When the disk holds files in a committed slot beside an older one, and the driver reads the committed
-- slot and reads the other header or fails to, a mount takes the committed files, their generation and
-- their slot, whatever the table of the other slot holds. It finds an input error when the other header
-- cannot be read, a corrupt disk when that header is not valid and has a byte other than 0, and neither
-- when it is valid or all zeros.
pub fs_load_from_disk-Holds :
    (disk : Disk) (slot : ℕ) (files : List File) (g : ℕ) (read : Reader) (fs : Fs)
    → Holds disk slot files g
    → IsReadable disk slot read
    → Trusts (read (fs_slot_header_lba (other_slot slot)) 1) (fs_load_from_disk ready read fs).0
      × ((fs_load_from_disk ready read fs).1 ≡ record fs {
        files = files;
        active_slot = slot;
        active_generation = g;
        loaded_version = 5;
        legacy = unavailable;
      })
fs_load_from_disk-Holds disk slot files g read fs h r =
    let e = fs_load_from_disk-load_result disk slot files g read fs h r in
    let o = read (fs_slot_header_lba (other_slot slot)) 1 in
    (
      subst (Trusts o) (sym (ap (λ (x : LoadResult × Fs). x.0) e)) (header_read-Trusts o),
      ap (λ (x : LoadResult × Fs). x.1) e,
    )
