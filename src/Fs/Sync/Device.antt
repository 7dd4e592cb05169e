-- ===== src/Fs/Sync/Device.antt =====
-- kernel/fs.c: what the driver's answers say of the disk, and what reading back shows.
use nostalux_os.Base.{
  add32, ℕ, zero, suc, ◌*◌, ◌≡◌, refl, sym, ap, ◌∙◌, ◌⊎◌, inl, inr, Bool, true, Option, none, some,
  List, [], ◌∷◌, ◌++◌, arith, suc-mul, ◌==◌, ==→eq, Bool-cases, length, take, drop, length-drop,
}
use nostalux_os.Fs.{Fs}
use nostalux_os.Fs.Bytes.{fs_disk_table_sectors, fs_bytes_equal}
use nostalux_os.Fs.Load.{Reader, fs_slot_header_lba}
use nostalux_os.Fs.Sync.{
  AtaWrite, write_failed, write_complete, write_uncertain, Answers, sync_committed, ReconcileResult,
  reconcile_match, reconcile_mismatch, reconcile_io_error, reconcile_sector, reconcile_from,
  fs_reconcile_table, fs_reconcile_slot, commit_header, checked, write_outcome, target_slot,
  next_generation, table_outcome, header_outcome,
}
use nostalux_os.Fs.Table.Parts.{take-drop, length-zero, ap2}

-- The sectors from `lba` on hold the bytes: what a read of one of them returns, when it succeeds.
abbrev pub Shows : Reader → ℕ → ℕ → List ℕ → Type 0
Shows read lba zero bytes = Unit
Shows read lba (suc left) bytes =
    ((b : List ℕ) → read lba 1 ≡ some b → b ≡ take 512 bytes)
    × Shows read (add32 lba 1) left (drop 512 bytes)

-- The documented behaviour of kernel/ata.c: a complete write left its bytes, a write of one sector left
-- the old bytes or the new, and a read that succeeds returns what the disk holds.
pub record IsHonest (answers : Answers) (table header old_header : List ℕ) (lba : ℕ) : Type 0 where
  pub table_complete : answers.table_result ≡ write_complete → answers.table_left ≡ table
  pub table_size : length answers.table_left ≡ fs_disk_table_sectors * 512
  pub table_shown : Shows answers.table_back (add32 lba 1) fs_disk_table_sectors answers.table_left
  pub header_complete : answers.header_result ≡ write_complete → answers.header_left ≡ header
  pub header_kept : (answers.header_left ≡ old_header) ⊎ (answers.header_left ≡ header)
  pub header_shown : (b : List ℕ) → answers.header_back lba 1 ≡ some b → b ≡ answers.header_left

fs_bytes_equal-eq : (a b : List ℕ) → fs_bytes_equal a b ≡ true → a ≡ b
unfolding fs_bytes_equal
fs_bytes_equal-eq [] [] h = refl
fs_bytes_equal-eq [] (y ∷ b) h = absurd (ground arith)
fs_bytes_equal-eq (x ∷ a) [] h = absurd (ground arith)
fs_bytes_equal-eq (x ∷ a) (y ∷ b) h = elim (Bool-cases (x == y)) [
  | inl e ↦ ap2 ◌∷◌ (==→eq x y e) (fs_bytes_equal-eq a b (simp e at h))
  | inr n ↦ absurd (ground arith)
]

reconcile_sector-match :
    (o : Option (List ℕ)) (expected : List ℕ) (rest : ReconcileResult)
    → reconcile_sector o expected rest ≡ reconcile_match
    → (o ≡ some expected) × (rest ≡ reconcile_match)
reconcile_sector-match none expected rest h = absurd (ground arith)
reconcile_sector-match (some b) expected rest h = elim (Bool-cases (fs_bytes_equal b expected)) [
  | inl e ↦ (ap some (fs_bytes_equal-eq b expected e), simp e at h)
  | inr n ↦ absurd (ground arith)
]

-- Reading back sector by sector shows that the disk holds what was expected.
reconcile_from-eq :
    (read : Reader) (n lba : ℕ) (expected left : List ℕ)
    → length left ≡ n * 512
    → length expected ≡ n * 512
    → Shows read lba n left
    → reconcile_from read lba n expected ≡ reconcile_match
    → left ≡ expected
unfolding reconcile_from
reconcile_from-eq read zero lba expected left hl he shows e =
    length-zero left (omega (arith, hl)) ∙ sym (length-zero expected (omega (arith, he)))
reconcile_from-eq read (suc n) lba expected left hl he shows e =
    let (found, rest) =
      reconcile_sector-match (read lba 1) (take 512 expected)
        (reconcile_from read (add32 lba 1) n (drop 512 expected)) e in
    let head : take 512 expected ≡ take 512 left = shows.0 (take 512 expected) found in
    let tail : drop 512 left ≡ drop 512 expected =
      reconcile_from-eq read n (add32 lba 1) (drop 512 expected) (drop 512 left)
        (omega (arith, hl, suc-mul n 512, length-drop 512 left))
        (omega (arith, he, suc-mul n 512, length-drop 512 expected)) shows.1 rest in
    sym (take-drop 512 left) ∙ ap2 ◌++◌ (sym head) tail ∙ take-drop 512 expected

checked-match : (r : ReconcileResult) → checked r ≡ sync_committed → r ≡ reconcile_match
checked-match reconcile_match h = refl
checked-match reconcile_mismatch h = absurd (ground arith)
checked-match reconcile_io_error h = absurd (ground arith)

-- A write that counts as done was complete, or was read back.
write_outcome-committed :
    (w : AtaWrite) (verified : Bool) (r : ReconcileResult)
    → write_outcome w verified r ≡ sync_committed
    → (w ≡ write_complete) ⊎ (r ≡ reconcile_match)
unfolding write_outcome
write_outcome-committed write_failed verified r h = absurd (ground arith)
write_outcome-committed write_complete verified r h = inl refl
write_outcome-committed write_uncertain verified r h = inr (checked-match r h)

pub table_written :
    (answers : Answers) (verified : Bool) (table header old_header : List ℕ) (fs : Fs)
    → IsHonest answers table header old_header (fs_slot_header_lba (target_slot fs))
    → length table ≡ fs_disk_table_sectors * 512
    → table_outcome verified answers table fs ≡ sync_committed
    → answers.table_left ≡ table
table_written answers verified table header old_header fs honest len e =
    let lba = fs_slot_header_lba (target_slot fs) in
    elim (write_outcome-committed answers.table_result verified
      (fs_reconcile_table answers.table_back lba table) e) [
        | inl c ↦ honest.table_complete c
        | inr m ↦
            reconcile_from-eq answers.table_back fs_disk_table_sectors (add32 lba 1) table
              answers.table_left honest.table_size len honest.table_shown m
      ]

pub header_written :
    (answers : Answers) (verified : Bool) (table old_header : List ℕ) (fs : Fs)
    → IsHonest answers table
        (commit_header table (next_generation fs))
        old_header
        (fs_slot_header_lba (target_slot fs))
    → header_outcome verified answers table fs ≡ sync_committed
    → answers.header_left ≡ commit_header table (next_generation fs)
unfolding fs_reconcile_slot
header_written answers verified table old_header fs honest e =
    let lba = fs_slot_header_lba (target_slot fs) in
    let header = commit_header table (next_generation fs) in
    elim (write_outcome-committed answers.header_result verified
      (fs_reconcile_slot answers.header_back lba header table) e) [
        | inl c ↦ honest.header_complete c
        | inr m ↦ sym (
            honest.header_shown header
              (reconcile_sector-match (answers.header_back lba 1) header
                (fs_reconcile_table answers.header_back lba table) m).0)
      ]
