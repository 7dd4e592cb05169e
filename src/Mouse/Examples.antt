-- ===== src/Mouse/Examples.antt =====
-- A pointer in the middle of a screen of 1024 columns.
use nostalux_os.Base.{ℕ, ◌≤◌, ◌<◌, ◌≡◌, refl, true, false, arith}
use nostalux_os.Mouse.{coordinate_max, scale_coordinate, vmmouse_decode_event}
use nostalux_os.Mouse.Scale.{scale_coordinate-bounds}

decode_middle :
    vmmouse_decode_event 0x20 32768 70000 1024 768
    ≡ record { x = 512; y = 767; left_button = true; right_button = false }
unfolding scale_coordinate
decode_middle = refl

abbrev middle : ℕ
middle = 32768

scale_coordinate-bounds_example :
    (scale_coordinate 32768 1024 < 1024)
    × (middle ≡ 0 → scale_coordinate 32768 1024 ≡ 0)
    × (coordinate_max ≤ 32768 → scale_coordinate 32768 1024 ≡ 1023)
    × ((further : ℕ)
        → 32768 ≤ further
        → scale_coordinate 32768 1024 ≤ scale_coordinate further 1024)
scale_coordinate-bounds_example = scale_coordinate-bounds 32768 1024 (omega arith) (omega arith)
