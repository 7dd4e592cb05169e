-- ===== src/Elf/Reader.antt =====
-- kernel/elf64_loader.c: its results, and the reads and writes of bytes. A buffer is the list of its
-- bytes; `fault` is an access outside of a buffer.
use nostalux_os.Base.{
  ℕ, zero, suc, ◌+◌, ◌*◌, ◌^◌, bit_or, Bool, true, false, none, some, List, ltb, if◌then◌else◌,
  length, get_elem?, set,
}

-- `enum elf64_load_result`, without `ELF64_LOAD_OK`.
pub data LoadResult : Type 0 where
  invalid_argument truncated bad_magic unsupported_format : LoadResult
  unsupported_architecture unsupported_feature too_many_headers : LoadResult
  too_many_segments invalid_segment segment_out_of_range segment_overlap : LoadResult
  writable_code invalid_entry_point image_too_large : LoadResult
  destination_too_small buffer_overlap : LoadResult

-- What a function of the loader gives: `ELF64_LOAD_OK` with a value, or an error.
pub data Outcome {ℓ} (A : Type ℓ) : Type ℓ where
  pass : A → Outcome A
  fail : LoadResult → Outcome A
  fault : Outcome A

infixl 5 ◌>>=◌ ◌>>◌
abbrev pub ◌>>=◌ {ℓ κ} : {A : Type ℓ} {B : Type κ} → Outcome A → (A → Outcome B) → Outcome B
pass a >>= f = f a
fail r >>= f = fail r
fault >>= f = fault

abbrev pub ◌>>◌ {ℓ} : {B : Type ℓ} → Outcome (Unit {0}) → Outcome B → Outcome B
m >> k = m >>= λ _. k

-- `if (test) return result;`
abbrev pub reject : Bool → LoadResult → Outcome (Unit {0})
reject true r = fail r
reject false r = pass tt

abbrev pub byte_at : List ℕ → ℕ → Outcome ℕ
byte_at bytes i = elim (get_elem? bytes i) [ none ↦ fault | some b ↦ pass b ]

unfoldable pub read_u16_le : List ℕ → ℕ → Outcome ℕ
read_u16_le bytes at_ = do
  b0 ← byte_at bytes at_
  b1 ← byte_at bytes (at_ + 1)
  pass (bit_or b0 (b1 * 2 ^ 8))

unfoldable pub read_u32_le : List ℕ → ℕ → Outcome ℕ
read_u32_le bytes at_ = do
  b0 ← byte_at bytes at_
  b1 ← byte_at bytes (at_ + 1)
  b2 ← byte_at bytes (at_ + 2)
  b3 ← byte_at bytes (at_ + 3)
  pass (bit_or (bit_or (bit_or b0 (b1 * 2 ^ 8)) (b2 * 2 ^ 16)) (b3 * 2 ^ 24))

unfoldable pub read_u64_le : List ℕ → ℕ → Outcome ℕ
read_u64_le bytes at_ = do
  low ← read_u32_le bytes at_
  high ← read_u32_le bytes (at_ + 4)
  pass (bit_or low (high * 2 ^ 32))

unfoldable pub clear_bytes : ℕ → List ℕ → ℕ → Outcome (List ℕ)
clear_bytes zero destination at_ = pass destination
clear_bytes (suc count) destination at_ =
    if ltb at_ (length destination)
    then clear_bytes count (set destination at_ 0) (at_ + 1)
    else fault

unfoldable pub copy_bytes : ℕ → List ℕ → ℕ → List ℕ → ℕ → Outcome (List ℕ)
copy_bytes zero destination to source from = pass destination
copy_bytes (suc count) destination to source from = elim (get_elem? source from) [
  | none ↦ fault
  | some b ↦ elim (ltb to (length destination)) [
    | true ↦ copy_bytes count (set destination to b) (to + 1) source (from + 1)
    | false ↦ fault
  ]
]
