-- ===== src/Mouse.antt =====
-- kernel/vmmouse_decode.c: the position of the absolute pointer on the screen. An `int` is a word of 32
-- bits, negative from 2^31 on.
pub mod Scale
mod Examples
use nostalux_os.Base.{
  u64_mod, u32_mod, add64, ℕ, ◌-◌, ◌*◌, ◌/◌, ◌%◌, ◌^◌, bit_and, Bool, not, ◌||◌, ltb, leb, ◌==◌,
  if◌then◌else◌,
}

abbrev pub coordinate_max : ℕ
coordinate_max = 65535

abbrev pub button_left : ℕ
button_left = 0x20

abbrev pub button_right : ℕ
button_right = 0x10

-- `extent <= 1` of an `int`.
abbrev pub is_small : ℕ → Bool
is_small extent = leb extent 1 || leb (2 ^ 31) extent

unfoldable pub scale_coordinate : ℕ → ℕ → ℕ
scale_coordinate coordinate extent =
    if is_small extent
    then 0
    else let capped = if ltb coordinate_max coordinate then coordinate_max else coordinate in
      add64 (capped * (extent - 1) % u64_mod) (coordinate_max / 2) / coordinate_max % u32_mod

-- `MouseState`.
pub record MouseState : Type 0 where
  pub x : ℕ
  pub y : ℕ
  pub left_button : Bool
  pub right_button : Bool

abbrev pub vmmouse_decode_event : ℕ → ℕ → ℕ → ℕ → ℕ → MouseState
vmmouse_decode_event buttons absolute_x absolute_y framebuffer_width framebuffer_height = record {
  x = scale_coordinate absolute_x framebuffer_width;
  y = scale_coordinate absolute_y framebuffer_height;
  left_button = not (bit_and buttons button_left == 0);
  right_button = not (bit_and buttons button_right == 0);
}
