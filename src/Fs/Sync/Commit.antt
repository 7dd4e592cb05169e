-- ===== src/Fs/Sync/Commit.antt =====
-- kernel/fs.c: what a commit leaves on the disk, and what is left when it fails or is cut short.
use nostalux_os.Base.{
  u32_mod, add32, ℕ, zero, suc, ◌<◌, ◌≡◌, refl, sym, ap, ◌∙◌, subst, true, some, List, arith, ◌==◌,
  eq→==,
}
use nostalux_os.Fs.{Slot, slot_of, File, Disk, with_slot}
use nostalux_os.Fs.Bytes.{
  table_bytes, fs_checksum, Header, header_bytes, header_of, fs_header_checksum, fs_header_is_valid,
  fs_header_generation, fs_generation_is_newer,
}
use nostalux_os.Fs.Bytes.Serialized.{table_bytes-back}
use nostalux_os.Fs.Bytes.Written.{
  header_bytes-checksum, IsHeader, header_of-header_bytes, fs_checksum-lt, fs_header_checksum-lt,
}
use nostalux_os.Fs.Load.Generation.{newer-next}
use nostalux_os.Fs.Load.Snapshot.{
  Holds, IsSnapshot, IsOlder, older_invalid, older_unprotected, older_generation, other_slot,
}
use nostalux_os.Fs.Sync.{new_header, commit_header}
use nostalux_os.Fs.Table.{DiskRecord, fs_serialize, filled, fs_deserialize_current}
use nostalux_os.Fs.Table.RoundTrip.{in_use_files, fs_deserialize_current-fs_serialize}
use nostalux_os.Fs.Valid.{AreFiles}
use nostalux_os.Syslog.Ring.{slot}

written_header : List ℕ → ℕ → Header
written_header table generation =
    let header = new_header table generation in
    record header { header_checksum = fs_header_checksum (header_bytes header) }

IsHeader-written : (table : List ℕ) (g : ℕ) → g < u32_mod → IsHeader (written_header table g)
unfolding written_header new_header
IsHeader-written table g h = record {
  magic = omega arith;
  version = omega arith;
  table_size = omega arith;
  checksum = fs_checksum-lt table;
  generation = h;
  header_checksum = fs_header_checksum-lt (header_bytes (new_header table g));
}

commit_header-back :
    (table : List ℕ) (g : ℕ)
    → g < u32_mod
    → header_of (commit_header table g) ≡ written_header table g
unfolding commit_header written_header
commit_header-back table g h =
    header_of-header_bytes (written_header table g) (IsHeader-written table g h)

own_checksum :
    (table : List ℕ) (g : ℕ)
    → ((written_header table g).header_checksum == fs_header_checksum (commit_header table g))
      ≡ true
unfolding written_header commit_header
own_checksum table g =
    let header = new_header table g in
    let c = fs_header_checksum (header_bytes header) in
    eq→== c (fs_header_checksum (header_bytes (record header { header_checksum = c })))
      (sym (header_bytes-checksum header c))

commit_header-valid :
    (table : List ℕ) (g : ℕ) → g < u32_mod → fs_header_is_valid (commit_header table g) ≡ true
unfolding fs_header_is_valid written_header new_header
commit_header-valid table g h = rw (commit_header-back table g h) (own_checksum table g)

commit_header-version :
    (table : List ℕ) (g : ℕ) → g < u32_mod → (header_of (commit_header table g)).version ≡ 5
unfolding written_header new_header
commit_header-version table g h = ap (λ (x : Header). x.version) (commit_header-back table g h)

commit_header-generation :
    (table : List ℕ) (g : ℕ) → g < u32_mod → fs_header_generation (commit_header table g) ≡ g
unfolding fs_header_generation written_header new_header
commit_header-generation table g h = rw (commit_header-back table g h) refl

commit_header-checksum :
    (table : List ℕ) (g : ℕ)
    → g < u32_mod
    → (header_of (commit_header table g)).checksum ≡ fs_checksum table
unfolding written_header new_header
commit_header-checksum table g h = ap (λ (x : Header). x.checksum) (commit_header-back table g h)

-- The slot that a commit writes.
pub commit-IsSnapshot :
    (files : List File) (records : List DiskRecord) (g : ℕ)
    → AreFiles files
    → fs_serialize files ≡ some records
    → g < u32_mod
    → IsSnapshot
        (record { header = commit_header (table_bytes records) g; table = table_bytes records })
        (filled (in_use_files files))
        g
commit-IsSnapshot files records g h e lt =
    let table = table_bytes records in
    record {
      valid = commit_header-valid table g lt;
      version = commit_header-version table g lt;
      generation_is = commit_header-generation table g lt;
      generation_fits = lt;
      checksum = commit_header-checksum table g lt;
      files_are =
          ap fs_deserialize_current (table_bytes-back files records h e).1
          ∙ fs_deserialize_current-fs_serialize files records h e;
    }

IsOlder-snapshot :
    (slot : Slot) (files : List File) (g : ℕ) → IsSnapshot slot files g → IsOlder slot (add32 g 1)
IsOlder-snapshot slot files g h =
    older_generation (omega (arith, h.generation_is, h.generation_fits)) (omega (arith, h.version))
      (subst (λ (k : ℕ). fs_generation_is_newer (add32 g 1) k ≡ true) (sym h.generation_is)
        (newer-next g h.generation_fits))

IsOlder-table :
    (slot : Slot) (table : List ℕ) (g : ℕ)
    → IsOlder slot g
    → IsOlder (record slot { table = table }) g
IsOlder-table slot table g (older_invalid v) = older_invalid v
IsOlder-table slot table g (older_unprotected v) = older_unprotected v
IsOlder-table slot table g (older_generation lt v new) = older_generation lt v new

-- The other slot is rewritten up to its header, which stays.
pub Holds-table :
    (disk : Disk) (slot : ℕ) (files : List File) (g : ℕ) (table : List ℕ)
    → Holds disk slot files g
    → Holds
        (with_slot disk
          (other_slot slot)
          (record (slot_of disk (other_slot slot)) { table = table }))
        slot
        files
        g
Holds-table disk zero files g table h = record {
  slot_is = h.slot_is;
  current = h.current;
  previous = IsOlder-table disk.slot1 table g h.previous;
}
Holds-table disk (suc zero) files g table h = record {
  slot_is = h.slot_is;
  current = h.current;
  previous = IsOlder-table disk.slot0 table g h.previous;
}
Holds-table disk (suc (suc n)) files g table h = absurd (omega (arith, h.slot_is))

-- The other slot is committed.
pub Holds-commit :
    (disk : Disk) (slot : ℕ) (saved files : List File) (g : ℕ) (image : Slot)
    → Holds disk slot saved g
    → IsSnapshot image files (add32 g 1)
    → Holds (with_slot disk (other_slot slot) image) (other_slot slot) files (add32 g 1)
Holds-commit disk zero saved files g image h k = record {
  slot_is = omega arith;
  current = k;
  previous = IsOlder-snapshot disk.slot0 saved g h.current;
}
Holds-commit disk (suc zero) saved files g image h k = record {
  slot_is = omega arith;
  current = k;
  previous = IsOlder-snapshot disk.slot1 saved g h.current;
}
Holds-commit disk (suc (suc n)) saved files g image h k = absurd (omega (arith, h.slot_is))
