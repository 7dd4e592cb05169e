-- ===== src/Bmp/Examples.antt =====
-- A bitmap of one row of two pixels.
use nostalux_os.Base.{
  ℕ, ◌^◌, ◌≤◌, ◌<◌, ◌≡◌, refl, ◌≢◌, ◌⊎◌, Bool, true, false, ◌&&◌, some, List, [], ◌∷◌, ◌++◌, arith,
  ltb, replicate,
}
use nostalux_os.Bmp.{
  value, refuse, fault, read_u16_le, read_u32_le, Image, check_sizes, check_format, check_pixels,
  open_format, open_bytes, bmp_open, read_pixel, pixel_of, bmp_get_pixel,
}
use nostalux_os.Bmp.Bounds.{IsBytes}
use nostalux_os.Bmp.Opened.{IsImage, bmp_open-IsImage, bmp_get_pixel-opened}

-- The file header, the information header, and the row with its two bytes of padding.
abbrev file : List ℕ
file =
    66
    ∷ 77
    ∷ 62
    ∷ 0
    ∷ 0
    ∷ 0
    ∷ 0
    ∷ 0
    ∷ 0
    ∷ 0
    ∷ 54
    ∷ 0
    ∷ 0
    ∷ 0
    ∷ 40
    ∷ 0
    ∷ 0
    ∷ 0
    ∷ 2
    ∷ 0
    ∷ 0
    ∷ 0
    ∷ 1
    ∷ 0
    ∷ 0
    ∷ 0
    ∷ 1
    ∷ 0
    ∷ 24
    ∷ 0
    ∷ (replicate 24 0 ++ (1 ∷ 2 ∷ 3 ∷ 4 ∷ 5 ∷ 6 ∷ 0 ∷ 0 ∷ []))

abbrev opened : Image
opened = record {
  data_ = some file;
  data_size = 62;
  width = 2;
  height = 1;
  pixel_offset = 54;
  row_stride = 8;
  top_down = false;
}

bmp_open-file : bmp_open (some file) ≡ value opened
unfolding bmp_open open_bytes open_format read_u16_le read_u32_le check_sizes check_format
    check_pixels
bmp_open-file = refl

bmp_get_pixel-second : bmp_get_pixel opened 1 0 ≡ value 0xFF060504
unfolding bmp_get_pixel pixel_of read_pixel
bmp_get_pixel-second = refl

abbrev each_byte : List ℕ → Bool
each_byte [] = true
each_byte (b ∷ bytes) = ltb b 256 && each_byte bytes

each_byte-IsBytes : (bytes : List ℕ) → each_byte bytes ≡ true → IsBytes bytes
each_byte-IsBytes [] e = tt
each_byte-IsBytes (b ∷ bytes) e = (ground arith, each_byte-IsBytes bytes (ground arith))

file-IsBytes : IsBytes file
file-IsBytes = each_byte-IsBytes file refl

bmp_open-IsImage_example :
    (bmp_open (some file) ≢ fault)
    × ((image : Image) → bmp_open (some file) ≡ value image → IsImage file image)
bmp_open-IsImage_example = bmp_open-IsImage file file-IsBytes

bmp_get_pixel-opened_example :
    ((1 < 2) × (0 < 1) → (color : ℕ) × (bmp_get_pixel opened 1 0 ≡ value color) × (color < 2 ^ 32))
    × ((2 ≤ 1) ⊎ (1 ≤ 0) → bmp_get_pixel opened 1 0 ≡ refuse)
bmp_get_pixel-opened_example =
    bmp_get_pixel-opened file opened 1 0 file-IsBytes
      (bmp_open-IsImage_example.1 opened bmp_open-file)
