-- ===== src/Bmp.antt =====
-- kernel/bmp.c: bitmap files in memory. A buffer is the list of its bytes; an access outside of it is
-- `fault`, and `refuse` is the result false.
pub mod Bounds
pub mod Opened
mod Examples
use nostalux_os.Base.{
  u64_mod, add64, sub32, ℕ, ◌+◌, ◌-◌, ◌*◌, ◌%◌, ◌^◌, bit_and, bit_or, Bool, true, false, not, ◌||◌,
  Option, none, some, List, ltb, leb, ◌==◌, if◌then◌else◌, length, get_elem?,
}

pub data Access {ℓ} (A : Type ℓ) : Type ℓ where
  value : A → Access A
  refuse : Access A
  fault : Access A

infixl 5 ◌>>=◌ ◌>>◌
abbrev pub ◌>>=◌ {ℓ κ} : {A : Type ℓ} {B : Type κ} → Access A → (A → Access B) → Access B
value a >>= f = f a
refuse >>= f = refuse
fault >>= f = fault

abbrev pub ◌>>◌ {ℓ} : {B : Type ℓ} → Access (Unit {0}) → Access B → Access B
m >> k = m >>= λ _. k

-- `if (test) return false;`
abbrev pub refuse_if : Bool → Access (Unit {0})
refuse_if true = refuse
refuse_if false = value tt

abbrev pub byte_at : List ℕ → ℕ → Access ℕ
byte_at bytes i = elim (get_elem? bytes i) [ none ↦ fault | some b ↦ value b ]

unfoldable pub read_u16_le : List ℕ → ℕ → Access ℕ
read_u16_le bytes at_ = do
  b0 ← byte_at bytes at_
  b1 ← byte_at bytes (at_ + 1)
  value (bit_or b0 (b1 * 2 ^ 8))

unfoldable pub read_u32_le : List ℕ → ℕ → Access ℕ
read_u32_le bytes at_ = do
  b0 ← byte_at bytes at_
  b1 ← byte_at bytes (at_ + 1)
  b2 ← byte_at bytes (at_ + 2)
  b3 ← byte_at bytes (at_ + 3)
  value (bit_or (bit_or (bit_or b0 (b1 * 2 ^ 8)) (b2 * 2 ^ 16)) (b3 * 2 ^ 24))

-- `struct bmp_image`; the pointer NULL is `none`.
pub record Image : Type 0 where
  pub data_ : Option (List ℕ)
  pub data_size : ℕ
  pub width : ℕ
  pub height : ℕ
  pub pixel_offset : ℕ
  pub row_stride : ℕ
  pub top_down : Bool

abbrev pub clear_image : Image
clear_image = record {
  data_ = none;
  data_size = 0;
  width = 0;
  height = 0;
  pixel_offset = 0;
  row_stride = 0;
  top_down = false;
}

abbrev pub minimum_size : ℕ
minimum_size = 54

-- A 32-bit word read as `int32_t` is negative.
abbrev pub is_negative : ℕ → Bool
is_negative word = leb (2 ^ 31) word

-- `(width * 3 + 3) & ~3` on 64 bits.
abbrev pub stride_of : ℕ → ℕ
stride_of width = bit_and (width * 3 + 3) (2 ^ 64 - 4)

-- The height of a word that holds no minimal `int32_t`.
abbrev pub height_of : ℕ → ℕ
height_of word = if is_negative word then 2 ^ 32 - word else word

-- The tests of the sizes in the file header.
unfoldable pub check_sizes : ℕ → ℕ → ℕ → ℕ → Access (Unit {0})
check_sizes size declared_size pixel_offset dib_size = do
  refuse_if (ltb declared_size minimum_size || ltb size declared_size || ltb dib_size 40)
  refuse_if (
      ltb declared_size (14 + dib_size)
      || ltb pixel_offset (14 + dib_size)
      || ltb declared_size pixel_offset)

-- The tests of the fields in the information header; width and height are words of 32 bits.
unfoldable pub check_format : ℕ → ℕ → ℕ → ℕ → ℕ → Access (Unit {0})
check_format width height planes bits_per_pixel compression = refuse_if (
    (width == 0)
    || is_negative width
    || (height == 0)
    || (height == 2 ^ 31)
    || not (planes == 1)
    || not (bits_per_pixel == 24)
    || not (compression == 0))

unfoldable pub check_pixels : ℕ → ℕ → ℕ → ℕ → ℕ → Access (Unit {0})
check_pixels size declared_size pixel_offset width height = do
  refuse_if (ltb (2 ^ 32 - 1) (stride_of width))
  let required_size = add64 pixel_offset (stride_of width * height_of height % u64_mod)
  refuse_if (ltb declared_size required_size || ltb size required_size)

-- The part of `bmp_open` after width and height are read. The image is left cleared when the result
-- is false.
unfoldable pub open_format : List ℕ → ℕ → ℕ → ℕ → ℕ → Access Image
open_format bytes declared_size pixel_offset width height = do
  planes ← read_u16_le bytes 26
  bits_per_pixel ← read_u16_le bytes 28
  compression ← read_u32_le bytes 30
  check_format width height planes bits_per_pixel compression
  check_pixels (length bytes) declared_size pixel_offset width height
  value (record {
    data_ = some bytes;
    data_size = declared_size;
    width = width;
    height = height_of height;
    pixel_offset = pixel_offset;
    row_stride = stride_of width;
    top_down = is_negative height;
  })

unfoldable pub open_bytes : List ℕ → Access Image
open_bytes bytes = do
  refuse_if (ltb (length bytes) minimum_size)
  b0 ← byte_at bytes 0
  b1 ← byte_at bytes 1
  refuse_if (not (b0 == 66) || not (b1 == 77))
  declared_size ← read_u32_le bytes 2
  pixel_offset ← read_u32_le bytes 10
  dib_size ← read_u32_le bytes 14
  check_sizes (length bytes) declared_size pixel_offset dib_size
  width ← read_u32_le bytes 18
  height ← read_u32_le bytes 22
  open_format bytes declared_size pixel_offset width height

unfoldable pub bmp_open : Option (List ℕ) → Access Image
bmp_open none = refuse
bmp_open (some bytes) = open_bytes bytes

-- `height - 1 - y` wraps at 2^32.
abbrev pub source_row : Image → ℕ → ℕ
source_row image y = if image.top_down then y else sub32 (sub32 image.height 1) y

-- The address of a pixel in the file, on 64 bits.
abbrev pub pixel_at : Image → ℕ → ℕ → ℕ
pixel_at image x y =
    add64 (add64 image.pixel_offset (source_row image y * image.row_stride % u64_mod)) (x * 3)

unfoldable pub read_pixel : List ℕ → ℕ → Access ℕ
read_pixel bytes offset = do
  blue ← byte_at bytes offset
  green ← byte_at bytes (offset + 1)
  red ← byte_at bytes (offset + 2)
  value (bit_or (bit_or (bit_or 0xFF000000 (red * 2 ^ 16)) (green * 2 ^ 8)) blue)

unfoldable pub pixel_of : List ℕ → Image → ℕ → ℕ → Access ℕ
pixel_of bytes image x y = do
  refuse_if (leb image.width x || leb image.height y)
  refuse_if (ltb image.data_size (add64 (pixel_at image x y) 3))
  read_pixel bytes (pixel_at image x y)

abbrev pub with_data : (List ℕ → Access ℕ) → Option (List ℕ) → Access ℕ
with_data read none = refuse
with_data read (some bytes) = read bytes

unfoldable pub bmp_get_pixel : Image → ℕ → ℕ → Access ℕ
bmp_get_pixel image x y = with_data (λ bytes. pixel_of bytes image x y) image.data_
