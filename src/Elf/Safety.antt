-- ===== src/Elf/Safety.antt =====
-- kernel/elf64_loader.c: no read of the inspection leaves the image, and the values that are read
-- fit their types.
use nostalux_os.Base.{
  ℕ, zero, suc, ◌+◌, ◌-◌, ◌*◌, ◌^◌, ◌≤◌, ◌<◌, not, ◌&&◌, ◌||◌, List, [], ◌∷◌, arith, ltb, leb,
  length,
}
use nostalux_os.Base.Bits.{bit_or-lt}
use nostalux_os.Elf.Inspect.{read_segment, check_header_table, inspect_file_header}
use nostalux_os.Elf.Reader.{Outcome, ◌>>=◌, byte_at, read_u16_le, read_u32_le, read_u64_le}
use nostalux_os.Elf.Sound.{IsBytes, Ensures, passes, Ensures-bind, Ensures-reject, Ensures-skip}

byte_at-Ensures :
    (bytes : List ℕ) (i : ℕ)
    → IsBytes bytes
    → i < length bytes
    → Ensures (λ b. b < 256) (byte_at bytes i)
byte_at-Ensures [] i h lt = absurd (omega arith)
byte_at-Ensures (b ∷ bs) zero h lt = passes b h.0
byte_at-Ensures (b ∷ bs) (suc i) h lt = byte_at-Ensures bs i h.1 (omega arith)

module _ (bytes : List ℕ) (h : IsBytes bytes) where
  read_u16_le-Ensures :
      (i : ℕ) → i + 2 ≤ length bytes → Ensures (λ v. v < 2 ^ 16) (read_u16_le bytes i)
  unfolding read_u16_le
  read_u16_le-Ensures i lt =
      Ensures-bind (λ b. b < 256) _ _ (byte_at-Ensures bytes i h (omega arith))
        λ b0 h0.
          Ensures-bind (λ b. b < 256) _ _ (byte_at-Ensures bytes (i + 1) h (omega arith))
            λ b1 h1. passes _ (bit_or-lt 16 _ _ (omega arith) (omega arith))

  pub read_u32_le-Ensures :
      (i : ℕ) → i + 4 ≤ length bytes → Ensures (λ v. v < 2 ^ 32) (read_u32_le bytes i)
  unfolding read_u32_le
  read_u32_le-Ensures i lt =
      Ensures-bind (λ b. b < 256) _ _ (byte_at-Ensures bytes i h (omega arith))
        λ b0 h0.
          Ensures-bind (λ b. b < 256) _ _ (byte_at-Ensures bytes (i + 1) h (omega arith))
            λ b1 h1.
              Ensures-bind (λ b. b < 256) _ _ (byte_at-Ensures bytes (i + 2) h (omega arith))
                λ b2 h2.
                  Ensures-bind (λ b. b < 256) _ _ (byte_at-Ensures bytes (i + 3) h (omega arith))
                    λ b3 h3. passes _ (
                      bit_or-lt 32 _ _
                        (bit_or-lt 32 _ _ (bit_or-lt 32 _ _ (omega arith) (omega arith))
                          (omega arith))
                        (omega arith))

  pub read_u64_le-Ensures :
      (i : ℕ) → i + 8 ≤ length bytes → Ensures (λ v. v < 2 ^ 64) (read_u64_le bytes i)
  unfolding read_u64_le
  read_u64_le-Ensures i lt =
      Ensures-bind (λ v. v < 2 ^ 32) _ _ (read_u32_le-Ensures i (omega arith))
        λ low hl.
          Ensures-bind (λ v. v < 2 ^ 32) _ _ (read_u32_le-Ensures (i + 4) (omega arith))
            λ high hh. passes _ (bit_or-lt 64 _ _ (omega arith) (omega arith))

  pub read_segment-Ensures :
      (i : ℕ) → i + 56 ≤ length bytes → Ensures (λ s. s.memory_size < 2 ^ 64) (read_segment bytes i)
  unfolding read_segment
  read_segment-Ensures i lt =
      Ensures-bind (λ v. v < 2 ^ 32) _ _ (read_u32_le-Ensures (i + 4) (omega arith))
        λ flags h1.
          Ensures-bind (λ v. v < 2 ^ 64) _ _ (read_u64_le-Ensures (i + 8) (omega arith))
            λ offset h2.
              Ensures-bind (λ v. v < 2 ^ 64) _ _ (read_u64_le-Ensures (i + 16) (omega arith))
                λ va h3.
                  Ensures-bind (λ v. v < 2 ^ 64) _ _ (read_u64_le-Ensures (i + 32) (omega arith))
                    λ file_size h4.
                      Ensures-bind (λ v. v < 2 ^ 64) _ _
                        (read_u64_le-Ensures (i + 40) (omega arith))
                        λ memory_size h5.
                          Ensures-bind (λ v. v < 2 ^ 64) _ _
                            (read_u64_le-Ensures (i + 48) (omega arith)) λ alignment h6. passes _ h5

  -- Reads of fields that are only tested.
  module _ {ℓ} {B : Type ℓ} (Q : B → Type 0) where
    then_byte :
        (i : ℕ) (f : ℕ → Outcome B)
        → i + 1 ≤ length bytes
        → ((b : ℕ) → Ensures Q (f b))
        → Ensures Q (byte_at bytes i >>= f)
    then_byte i f lt g =
        Ensures-bind (λ b. b < 256) Q f (byte_at-Ensures bytes i h (omega arith)) (λ b _. g b)

    then_u16 :
        (i : ℕ) (f : ℕ → Outcome B)
        → i + 2 ≤ length bytes
        → ((v : ℕ) → Ensures Q (f v))
        → Ensures Q (read_u16_le bytes i >>= f)
    then_u16 i f lt g = Ensures-bind (λ b. b < 2 ^ 16) Q f (read_u16_le-Ensures i lt) (λ b _. g b)

    then_u32 :
        (i : ℕ) (f : ℕ → Outcome B)
        → i + 4 ≤ length bytes
        → ((v : ℕ) → Ensures Q (f v))
        → Ensures Q (read_u32_le bytes i >>= f)
    then_u32 i f lt g = Ensures-bind (λ b. b < 2 ^ 32) Q f (read_u32_le-Ensures i lt) (λ b _. g b)

    then_u64 :
        (i : ℕ) (f : ℕ → Outcome B)
        → i + 8 ≤ length bytes
        → ((v : ℕ) → Ensures Q (f v))
        → Ensures Q (read_u64_le bytes i >>= f)
    then_u64 i f lt g = Ensures-bind (λ b. b < 2 ^ 64) Q f (read_u64_le-Ensures i lt) (λ b _. g b)

  -- The header leaves room for the program headers that it counts.
  abbrev Room : ℕ × ℕ → Type 0
  Room t = t.0 + t.1 * 56 ≤ length bytes

  check_header_table-Ensures :
      (offset count : ℕ) → Ensures Room (check_header_table offset count (length bytes))
  unfolding check_header_table
  check_header_table-Ensures offset count = Ensures-skip Room _ _ (
      Ensures-reject Room
        (ltb offset 64
          || not (leb offset (length bytes) && leb (count * 56) (length bytes - offset)))
        _ _ (λ fits. passes _ (ground arith)))

  pub inspect_file_header-Ensures : 64 ≤ length bytes → Ensures Room (inspect_file_header bytes)
  unfolding inspect_file_header
  inspect_file_header-Ensures lt = then_byte Room 0 _ (omega arith) λ m0.
      then_byte Room 1 _ (omega arith) λ m1. then_byte Room 2 _ (omega arith) λ m2.
        then_byte Room 3 _ (omega arith) λ m3. Ensures-skip Room _ _ (
          then_byte Room 4 _ (omega arith) λ class. then_byte Room 5 _ (omega arith) λ encoding.
            then_byte Room 6 _ (omega arith) λ ident_version.
              then_u32 Room 20 _ (omega arith) λ version. then_u16 Room 16 _ (omega arith) λ kind.
                then_u16 Room 52 _ (omega arith) λ header_size.
                  then_u16 Room 54 _ (omega arith) λ entry_size. Ensures-skip Room _ _ (
                    then_u16 Room 18 _ (omega arith) λ machine. Ensures-skip Room _ _ (
                      then_u64 Room 32 _ (omega arith) λ program_offset.
                        then_u16 Room 56 _ (omega arith) λ program_count.
                          check_header_table-Ensures program_offset program_count)))
