-- ===== src/Fs/Load/Order.antt =====
-- kernel/fs.c: the order in which the two slots are tried.
use nostalux_os.Base.{
  u32_mod, sub32, ℕ, ◌^◌, ◌<◌, ◌≡◌, refl, sym, true, false, ltb, leb, ◌==◌, ne→==,
}
use nostalux_os.Fs.Bytes.{header_of, fs_header_generation, fs_generation_is_newer}
use nostalux_os.Fs.Load.{Reader, HeaderRead, Ambiguity, slot_order, is_second_first}
use nostalux_os.Fs.Load.Generation.{newer-antisym, newer-ne}

abbrev pub version_of : HeaderRead → ℕ
version_of h = (header_of h.bytes).version

pub record IsCurrent (c : HeaderRead) : Type 0 where
  pub valid : c.valid ≡ true
  pub protected : leb 4 (version_of c) ≡ true
  pub not_legacy : ltb (version_of c) 4 ≡ false

pub record IsApart (a b : ℕ) : Type 0 where
  pub newer : fs_generation_is_newer a b ≡ true
  pub not_older : fs_generation_is_newer b a ≡ false
  pub ne : (a == b) ≡ false
  pub ne' : (b == a) ≡ false
  pub half : (sub32 a b == 2 ^ 31) ≡ false
  pub half' : (sub32 b a == 2 ^ 31) ≡ false

pub IsApart-newer :
    (a b : ℕ) → a < u32_mod → b < u32_mod → fs_generation_is_newer a b ≡ true → IsApart a b
IsApart-newer a b ha hb h =
    let x = newer-ne a b ha hb h in
    record {
      newer = h;
      not_older = newer-antisym a b ha hb h;
      ne = ne→== a b x.0;
      ne' = ne→== b a (λ e. x.0 (sym e));
      half = ne→== (sub32 a b) (2 ^ 31) x.1;
      half' = ne→== (sub32 b a) (2 ^ 31) x.2;
    }

-- How the header of the other slot can be.
pub data Precedes (c p : HeaderRead) : Type 0 where
  is_invalid : p.valid ≡ false → Precedes c p
  is_unprotected :
      p.valid ≡ true → leb 4 (version_of p) ≡ false → ltb (version_of p) 4 ≡ true → Precedes c p
  is_older :
      p.valid ≡ true
      → leb 4 (version_of p) ≡ true
      → ltb (version_of p) 4 ≡ false
      → IsApart (fs_header_generation c.bytes) (fs_header_generation p.bytes)
      → Precedes c p

unfoldable pub no_ambiguity : Ambiguity
no_ambiguity = record { saw_io_error = false; legacy_order = false; protected_order = false }

pub slot_order-second :
    (read : Reader) (c p : HeaderRead)
    → IsCurrent c
    → Precedes c p
    → slot_order read p c ≡ no_ambiguity
unfolding slot_order no_ambiguity
slot_order-second read c p h (is_invalid v) = simp (h.valid, h.protected, h.not_legacy, v) refl
slot_order-second read c p h (is_unprotected v a b) =
    simp (h.valid, h.protected, h.not_legacy, v, a, b) refl
slot_order-second read c p h (is_older v a b x) =
    simp (h.valid, h.protected, h.not_legacy, v, a, b, x.ne', x.half') refl

pub slot_order-first :
    (read : Reader) (c p : HeaderRead)
    → IsCurrent c
    → Precedes c p
    → slot_order read c p ≡ no_ambiguity
unfolding slot_order no_ambiguity
slot_order-first read c p h (is_invalid v) = simp (h.valid, h.protected, h.not_legacy, v) refl
slot_order-first read c p h (is_unprotected v a b) =
    simp (h.valid, h.protected, h.not_legacy, v, a, b) refl
slot_order-first read c p h (is_older v a b x) =
    simp (h.valid, h.protected, h.not_legacy, v, a, b, x.ne, x.half) refl

pub first_stays : (c p : HeaderRead) → IsCurrent c → Precedes c p → is_second_first c p ≡ false
unfolding is_second_first
first_stays c p h (is_invalid v) = simp v refl
first_stays c p h (is_unprotected v a b) = simp (h.valid, h.protected, v, a) refl
first_stays c p h (is_older v a b x) = simp (h.valid, h.protected, v, a, x.not_older) refl

pub second_first : (c p : HeaderRead) → IsCurrent c → Precedes c p → is_second_first p c ≡ true
unfolding is_second_first
second_first c p h (is_invalid v) = simp (h.valid, v) refl
second_first c p h (is_unprotected v a b) = simp (h.valid, h.protected, v, a) refl
second_first c p h (is_older v a b x) = simp (h.valid, h.protected, v, a, x.newer) refl
