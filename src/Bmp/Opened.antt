-- ===== src/Bmp/Opened.antt =====
-- kernel/bmp.c: what an image that is opened promises to the reads of its pixels.
use nostalux_os.Base.{
  u64_mod, add64, ℕ, suc, ◌+◌, ◌-◌, ◌*◌, ◌%◌, ◌^◌, ◌≤◌, ◌<◌, bit_or, ◌≡◌, refl, ap, ◌∙◌, ◌≢◌, ◌⊎◌,
  false, not, ◌||◌, some, List, arith, mul-le-mul, mul-le-mul_right, suc-mul, mul_comm, ltb, leb,
  ◌==◌, le→ltb, tests, length,
}
use nostalux_os.Base.Bits.{bit_and-align4, bit_or-lt}
use nostalux_os.Bmp.{
  value, refuse, fault, Image, minimum_size, stride_of, height_of, check_sizes, check_format,
  check_pixels, open_format, open_bytes, bmp_open, source_row, pixel_at, read_pixel, pixel_of,
  with_data, bmp_get_pixel,
}
use nostalux_os.Bmp.Bounds.{
  IsBytes, Safely, gives, Safely-bind, Safely-refuse_if, Safely-ne-fault, Safely-value,
  Safely-refuse_last, byte_at-value, then_byte, then_u16, then_u32,
}

-- Every pixel lies in the part of the buffer that the file declares.
pub record IsImage (bytes : List ℕ) (image : Image) : Type 0 where
  pub buffer : image.data_ ≡ some bytes
  pub wide : (0 < image.width) × (image.width < 2 ^ 31)
  pub high : (0 < image.height) × (image.height < 2 ^ 31)
  pub aligned : image.row_stride % 4 ≡ 0
  pub stride : (image.width * 3 ≤ image.row_stride) × (image.row_stride < image.width * 3 + 4)
  pub behind_header : minimum_size ≤ image.pixel_offset
  pub pixels : image.pixel_offset + image.row_stride * image.height ≤ image.data_size
  pub declared : image.data_size ≤ length bytes
  pub small : image.data_size < 2 ^ 32

stride_of-bounds :
    (width : ℕ)
    → width < 2 ^ 31
    → (width * 3 ≤ stride_of width) × (stride_of width < width * 3 + 4) × (stride_of width % 4 ≡ 0)
stride_of-bounds width h =
    let e = bit_and-align4 (width * 3 + 3) (omega arith) in (omega arith, omega arith, omega arith)

check_sizes-Safely :
    (size declared offset dib : ℕ)
    → Safely
        (λ _. (minimum_size ≤ offset) × (declared ≤ size))
        (check_sizes size declared offset dib)
unfolding check_sizes
check_sizes-Safely size declared offset dib =
    Safely-refuse_if (λ _. (minimum_size ≤ offset) × (declared ≤ size))
      (ltb declared minimum_size || ltb size declared || ltb dib 40) _
      λ e1.
        Safely-refuse_last ((minimum_size ≤ offset) × (declared ≤ size))
          (ltb declared (14 + dib) || ltb offset (14 + dib) || ltb declared offset)
          λ e2. ground arith

check_format-Safely :
    (width height planes bits compression : ℕ)
    → height < 2 ^ 32
    → Safely
        (λ _. (0 < width) × (width < 2 ^ 31) × (0 < height_of height) × (height_of height < 2 ^ 31))
        (check_format width height planes bits compression)
unfolding check_format
check_format-Safely width height planes bits compression hh =
    Safely-refuse_last _ _ λ e. ground arith

-- The bytes of the pixels are counted without a carry out of 64 bits.
product_small : (a b : ℕ) → a < 2 ^ 32 → b < 2 ^ 31 → a * b < 2 ^ 63
product_small a b ha hb =
    let m =
      mul-le-mul {n₁ = a} {m₁ = b} {n₂ = 2 ^ 32 - 1} {m₂ = 2 ^ 31 - 1} (omega arith)
        (omega arith) in
    omega arith

pixels_fit :
    (size declared offset pixels : ℕ)
    → offset < 2 ^ 32
    → pixels < 2 ^ 63
    → (ltb declared (add64 offset (pixels % u64_mod)) || ltb size (add64 offset (pixels % u64_mod)))
      ≡ false
    → offset + pixels ≤ declared
pixels_fit size declared offset pixels ho hp e = ground arith

check_pixels-Safely :
    (size declared offset width height : ℕ)
    → offset < 2 ^ 32
    → height_of height < 2 ^ 31
    → Safely
        (λ _. offset + stride_of width * height_of height ≤ declared)
        (check_pixels size declared offset width height)
unfolding check_pixels
check_pixels-Safely size declared offset width height ho hh =
    Safely-refuse_if (λ _. offset + stride_of width * height_of height ≤ declared)
      (ltb (2 ^ 32 - 1) (stride_of width)) _
      λ e1. Safely-refuse_last (offset + stride_of width * height_of height ≤ declared) _ λ e2.
        let small = product_small (stride_of width) (height_of height) (omega (tests, e1)) hh in
        pixels_fit size declared offset (stride_of width * height_of height) ho small e2

open_format-Safely :
    (bytes : List ℕ) (h : IsBytes bytes)
    → 54 ≤ length bytes
    → (declared offset width height : ℕ) → declared < 2 ^ 32
    → offset < 2 ^ 32
    → height < 2 ^ 32
    → (minimum_size ≤ offset) × (declared ≤ length bytes)
    → Safely (IsImage bytes) (open_format bytes declared offset width height)
unfolding open_format
open_format-Safely bytes h big declared offset width height hd ho hh sizes =
    let Q = IsImage bytes in
    then_u16 bytes h Q 26 _ (omega arith) λ planes _.
      then_u16 bytes h Q 28 _ (omega arith) λ bits _.
        then_u32 bytes h Q 30 _ (omega arith) λ compression _.
          Safely-bind _ Q _ (check_format-Safely width height planes bits compression hh)
            λ _ format.
              Safely-bind _ Q _
                (check_pixels-Safely (length bytes) declared offset width height ho format.3)
                λ _ pixels.
                  let st = stride_of-bounds width format.1 in
                  gives _ (record {
                    buffer = refl;
                    wide = (format.0, format.1);
                    high = (format.2, format.3);
                    aligned = st.2;
                    stride = (st.0, st.1);
                    behind_header = sizes.0;
                    pixels = pixels;
                    declared = sizes.1;
                    small = hd;
                  })

open_bytes-Safely : (bytes : List ℕ) → IsBytes bytes → Safely (IsImage bytes) (open_bytes bytes)
unfolding open_bytes
open_bytes-Safely bytes h =
    let Q = IsImage bytes in
    Safely-refuse_if Q (ltb (length bytes) minimum_size) _ λ e.
      let big : 54 ≤ length bytes = omega (tests, e) in
      then_byte bytes h Q 0 _ (omega arith) λ b0 _. then_byte bytes h Q 1 _ (omega arith) λ b1 _.
        Safely-refuse_if Q (not (b0 == 66) || not (b1 == 77)) _ λ _.
          then_u32 bytes h Q 2 _ (omega arith) λ declared hd.
            then_u32 bytes h Q 10 _ (omega arith) λ offset ho.
              then_u32 bytes h Q 14 _ (omega arith) λ dib hb.
                Safely-bind _ Q _ (check_sizes-Safely (length bytes) declared offset dib) λ _ sizes.
                  then_u32 bytes h Q 18 _ (omega arith) λ width hw.
                    then_u32 bytes h Q 22 _ (omega arith) λ height hh.
                      open_format-Safely bytes h big declared offset width height hd ho hh sizes

-- Opening a buffer of bytes makes no access outside of it, and an image that it gives has its
-- pixels inside of the buffer.
pub bmp_open-IsImage :
    (bytes : List ℕ)
    → IsBytes bytes
    → (bmp_open (some bytes) ≢ fault)
      × ((image : Image) → bmp_open (some bytes) ≡ value image → IsImage bytes image)
unfolding bmp_open
bmp_open-IsImage bytes h =
    let safe = open_bytes-Safely bytes h in
    (Safely-ne-fault (IsImage bytes) safe, λ image e. Safely-value (IsImage bytes) safe e)

-- The row in the file of a row of the image.
source_row-lt :
    (image : Image) (y : ℕ)
    → y < image.height
    → image.height < 2 ^ 31
    → source_row image y < image.height
source_row-lt image y lt small = ground arith

pixel_at-in_data :
    (bytes : List ℕ) (image : Image) (x y : ℕ)
    → IsImage bytes image
    → x < image.width
    → y < image.height
    → pixel_at image x y + 3 ≤ image.data_size
pixel_at-in_data bytes image x y v hx hy =
    let row = source_row image y in
    let lt : row < image.height = source_row-lt image y hy v.high.1 in
    let below = mul-le-mul_right {m = suc row} {n = image.height} image.row_stride lt in
    let next : suc row * image.row_stride ≡ row * image.row_stride + image.row_stride =
      suc-mul row image.row_stride in
    let swap : image.row_stride * image.height ≡ image.height * image.row_stride =
      mul_comm image.row_stride image.height in
    let low : row * image.row_stride + x * 3 + 3 + image.pixel_offset ≤ image.data_size =
      omega (arith, v.pixels, v.stride) in
    omega (arith, v.small)

read_pixel-Safely :
    (bytes : List ℕ) (offset : ℕ)
    → IsBytes bytes
    → offset + 3 ≤ length bytes
    → (color : ℕ) × (read_pixel bytes offset ≡ value color) × (color < 2 ^ 32)
unfolding read_pixel
read_pixel-Safely bytes offset h lt =
    let b = byte_at-value bytes offset h (omega arith) in
    let g = byte_at-value bytes (offset + 1) h (omega arith) in
    let r = byte_at-value bytes (offset + 2) h (omega arith) in
    (
      bit_or (bit_or (bit_or 0xFF000000 (r.0 * 2 ^ 16)) (g.0 * 2 ^ 8)) b.0,
      simp (b.1, g.1, r.1) refl,
      bit_or-lt 32 _ _
          (bit_or-lt 32 _ _ (bit_or-lt 32 _ _ (omega arith) (omega (arith, r.2)))
            (omega (arith, g.2)))
          (omega (arith, b.2)),
    )

pixel_of-inside :
    (bytes : List ℕ) (image : Image) (x y : ℕ)
    → IsBytes bytes
    → IsImage bytes image
    → x < image.width
    → y < image.height
    → (color : ℕ) × (pixel_of bytes image x y ≡ value color) × (color < 2 ^ 32)
unfolding pixel_of
pixel_of-inside bytes image x y h v hx hy =
    let at_ = pixel_at image x y in
    let fits = pixel_at-in_data bytes image x y v hx hy in
    let r = read_pixel-Safely bytes at_ h (omega (arith, v.declared)) in
    let in_image : (leb image.width x || leb image.height y) ≡ false = ground arith in
    let in_data : ltb image.data_size (add64 at_ 3) ≡ false =
      le→ltb image.data_size (add64 at_ 3) (omega (arith, v.small)) in
    (r.0, simp (in_image, in_data) r.1, r.2)

pixel_of-outside :
    (bytes : List ℕ) (image : Image) (x y : ℕ)
    → (image.width ≤ x) ⊎ (image.height ≤ y)
    → pixel_of bytes image x y ≡ refuse
unfolding pixel_of
pixel_of-outside bytes image x y outside = ground arith

-- Each pixel of an opened image can be read inside its buffer as a 32-bit colour; a position outside
-- of the image is refused.
pub bmp_get_pixel-opened :
    (bytes : List ℕ) (image : Image) (x y : ℕ)
    → IsBytes bytes
    → IsImage bytes image
    → ((x < image.width) × (y < image.height)
        → (color : ℕ) × (bmp_get_pixel image x y ≡ value color) × (color < 2 ^ 32))
      × ((image.width ≤ x) ⊎ (image.height ≤ y) → bmp_get_pixel image x y ≡ refuse)
unfolding bmp_get_pixel
bmp_get_pixel-opened bytes image x y h v =
    let get = ap (with_data (λ bytes. pixel_of bytes image x y)) v.buffer in
    (
      (λ inside.
          let r = pixel_of-inside bytes image x y h v inside.0 inside.1 in (r.0, get ∙ r.1, r.2)),
      (λ outside. get ∙ pixel_of-outside bytes image x y outside),
    )
