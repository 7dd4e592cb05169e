-- ===== src/Fs/Load/Generation.antt =====
-- kernel/fs.c: the order of the generations, which wrap around.
use nostalux_os.Base.{u32_mod, add32, sub32, ℕ, ◌^◌, ◌<◌, ◌≡◌, ◌≢◌, true, false, arith}
use nostalux_os.Fs.Bytes.{fs_generation_is_newer}

-- Of two generations, at most one is newer than the other.
pub newer-antisym :
    (a b : ℕ)
    → a < u32_mod
    → b < u32_mod
    → fs_generation_is_newer a b ≡ true
    → fs_generation_is_newer b a ≡ false
unfolding fs_generation_is_newer
newer-antisym a b ha hb h = ground arith

-- The next generation is newer, also when it wraps to 0.
pub newer-next : (g : ℕ) → g < u32_mod → fs_generation_is_newer (add32 g 1) g ≡ true
unfolding fs_generation_is_newer
newer-next g h = ground arith

pub newer-ne :
    (a b : ℕ)
    → a < u32_mod
    → b < u32_mod
    → fs_generation_is_newer a b ≡ true
    → (a ≢ b) × (sub32 a b ≢ 2 ^ 31) × (sub32 b a ≢ 2 ^ 31)
unfolding fs_generation_is_newer
newer-ne a b ha hb h = ground arith
