-- ===== src/Fs/Sync/Crash.antt =====
-- kernel/fs.c: the disk at every moment of a commit.
use nostalux_os.Base.{
  ℕ, zero, suc, ◌<◌, bit_xor, ◌≡◌, refl, sym, ap, ◌∙◌, subst, ◌⊎◌, inl, inr, Bool, some, List,
  arith, ltb, if◌then◌else◌,
}
use nostalux_os.Fs.{slot_of, File, Disk, Fs, with_slot}
use nostalux_os.Fs.Bytes.{table_bytes}
use nostalux_os.Fs.Bytes.Serialized.{table_bytes-back}
use nostalux_os.Fs.Load.{fs_slot_header_lba}
use nostalux_os.Fs.Load.Snapshot.{Holds, other_slot}
use nostalux_os.Fs.Sync.{
  Answers, sync_committed, commit_header, target_slot, next_generation, table_outcome,
}
use nostalux_os.Fs.Sync.Commit.{commit-IsSnapshot, Holds-table, Holds-commit}
use nostalux_os.Fs.Sync.Device.{IsHonest, table_written}
use nostalux_os.Fs.Table.{DiskRecord, fs_serialize, filled}
use nostalux_os.Fs.Table.RoundTrip.{in_use_files}
use nostalux_os.Fs.Valid.{AreFiles}

-- The disk that a power loss leaves in the course of a commit of `records`: the old one, one with
-- anything in the table of the slot that is written, or, once the table counts as written, one with
-- the old or the new header in the one sector of the header.
pub data PowerLoss (verified : Bool) (answers : Answers) (records : List DiskRecord) (fs : Fs)
    (disk : Disk) : Type 0 where
  at_start : disk ≡ fs.disk → PowerLoss verified answers records fs disk
  in_table :
      (table : List ℕ)
      → disk
        ≡ with_slot fs.disk
            (target_slot fs)
            (record (slot_of fs.disk (target_slot fs)) { table = table })
      → PowerLoss verified answers records fs disk
  in_header :
      (header : List ℕ)
      → table_outcome verified answers (table_bytes records) fs ≡ sync_committed
      → (header ≡ (slot_of fs.disk (target_slot fs)).header)
        ⊎ (header ≡ commit_header (table_bytes records) (next_generation fs))
      → disk
        ≡ with_slot fs.disk
            (target_slot fs)
            (record { header = header; table = answers.table_left })
      → PowerLoss verified answers records fs disk

abbrev pub HonestFor : Answers → List DiskRecord → Fs → Type 0
HonestFor answers records fs =
    IsHonest answers (table_bytes records)
      (commit_header (table_bytes records) (next_generation fs))
      (slot_of fs.disk (target_slot fs)).header (fs_slot_header_lba (target_slot fs))

-- The mounted slot is the committed one.
abbrev pub IsMounted : Fs → List File → Type 0
IsMounted fs saved = Holds fs.disk fs.active_slot saved fs.active_generation

-- The files as the disk keeps them.
abbrev pub saved_files : Fs → List File
saved_files fs = filled (in_use_files fs.files)

-- The disk holds the files saved before, or those of the commit.
abbrev pub HoldsOneOf : Disk → List File → Fs → Type 0
HoldsOneOf disk saved fs =
    Holds disk fs.active_slot saved fs.active_generation
    ⊎ Holds disk (other_slot fs.active_slot) (saved_files fs) (next_generation fs)

pub target-other :
    (slot : ℕ) → slot < 2 → (if ltb slot 2 then bit_xor slot 1 else 0) ≡ other_slot slot
target-other zero h = refl
target-other (suc zero) h = refl
target-other (suc (suc n)) h = absurd (omega arith)

table-safe :
    (fs : Fs) (saved : List File) (table : List ℕ)
    → IsMounted fs saved
    → Holds
        (with_slot fs.disk
          (target_slot fs)
          (record (slot_of fs.disk (target_slot fs)) { table = table }))
        fs.active_slot
        saved
        fs.active_generation
table-safe fs saved table h =
    subst
      (λ (t : ℕ).
        Holds (with_slot fs.disk t (record (slot_of fs.disk t) { table = table })) fs.active_slot
          saved fs.active_generation)
      (sym (target-other fs.active_slot h.slot_is))
      (Holds-table fs.disk fs.active_slot saved fs.active_generation table h)

pub commit-safe :
    (answers : Answers) (verified : Bool) (records : List DiskRecord) (fs : Fs) (saved : List File)
    → IsMounted fs saved
    → AreFiles fs.files
    → fs_serialize fs.files ≡ some records
    → HonestFor answers records fs
    → table_outcome verified answers (table_bytes records) fs ≡ sync_committed
    → Holds
        (with_slot fs.disk (target_slot fs) (record {
          header = commit_header (table_bytes records) (next_generation fs);
          table = answers.table_left;
        }))
        (target_slot fs)
        (saved_files fs)
        (next_generation fs)
commit-safe answers verified records fs saved h files e honest done =
    let table = table_bytes records in
    let g = next_generation fs in
    let left : answers.table_left ≡ table =
      table_written answers verified table (commit_header table g)
        (slot_of fs.disk (target_slot fs)).header fs honest
        (table_bytes-back fs.files records files e).0 done in
    let image = commit-IsSnapshot fs.files records g files e (omega arith) in
    subst
      (λ (x : List ℕ).
        Holds
          (with_slot fs.disk (target_slot fs)
            (record { header = commit_header table g; table = x }))
          (target_slot fs) (saved_files fs) g)
      (sym left)
      (subst
        (λ (t : ℕ).
          Holds (with_slot fs.disk t (record { header = commit_header table g; table = table })) t
            (saved_files fs) g)
        (sym (target-other fs.active_slot h.slot_is))
        (Holds-commit fs.disk fs.active_slot saved (saved_files fs) fs.active_generation
          (record { header = commit_header table g; table = table }) h image))

-- At every moment of a commit, a disk that held the saved files in the mounted slot holds either them
-- or, committed in the other slot under the next generation, the files of the commit; the driver
-- behaves as documented, and FILES holds stored files of different names that fit the table.
pub PowerLoss-HoldsOneOf :
    (answers : Answers) (verified : Bool) (records : List DiskRecord) (fs : Fs) (saved : List File)
    (disk : Disk)
    → IsMounted fs saved
    → AreFiles fs.files
    → fs_serialize fs.files ≡ some records
    → HonestFor answers records fs
    → PowerLoss verified answers records fs disk
    → HoldsOneOf disk saved fs
PowerLoss-HoldsOneOf answers verified records fs saved disk h files e honest (at_start q) =
    inl (subst (λ (d : Disk). Holds d fs.active_slot saved fs.active_generation) (sym q) h)
PowerLoss-HoldsOneOf answers verified records fs saved disk h files e honest (in_table table q) =
    inl (
      subst (λ (d : Disk). Holds d fs.active_slot saved fs.active_generation) (sym q)
        (table-safe fs saved table h))
PowerLoss-HoldsOneOf answers verified records fs saved disk h files e honest
      (in_header header done (inl old) q) =
    inl (
      subst (λ (d : Disk). Holds d fs.active_slot saved fs.active_generation)
        (sym (
          q
          ∙ ap
              (λ (x : List ℕ).
                with_slot fs.disk (target_slot fs)
                  (record { header = x; table = answers.table_left }))
              old))
        (table-safe fs saved answers.table_left h))
PowerLoss-HoldsOneOf answers verified records fs saved disk h files e honest
      (in_header header done (inr new) q) =
    let path =
      q
      ∙ ap
          (λ (x : List ℕ).
            with_slot fs.disk (target_slot fs) (record { header = x; table = answers.table_left }))
          new in
    inr (
      subst (λ (t : ℕ). Holds disk t (saved_files fs) (next_generation fs))
        (target-other fs.active_slot h.slot_is)
        (subst (λ (d : Disk). Holds d (target_slot fs) (saved_files fs) (next_generation fs))
          (sym path) (commit-safe answers verified records fs saved h files e honest done)))
