-- ===== src/UserReturn/Examples.antt =====
-- The checks of a return frame at concrete frames.
use nostalux_os.Base.{◌^◌, ◌≡◌, refl, true, false, some}
use nostalux_os.UserReturn.{Frame, frame_is_user, poisoned, frame_normalize}
use nostalux_os.UserReturn.Checks.{IsSafe, frame_normalize-IsSafe}

abbrev good_frame : Frame
good_frame = record {
  rip = 0x10000401000;
  cs = 0x23;
  rflags = 0x7246;
  rsp = 0x10000800000;
  ss = 0x1b;
}

abbrev bad_frame : Frame
bad_frame = record { rip = 0x10000401000; cs = 0x23; rflags = 0x246; rsp = 2 ^ 63; ss = 0x1b }

bad_frame-frame_normalize : frame_normalize (some bad_frame) ≡ (some poisoned, false)
unfolding frame_normalize frame_is_user
bad_frame-frame_normalize = refl

frame_is_user-bad : frame_is_user (some bad_frame) ≡ true
unfolding frame_is_user
frame_is_user-bad = refl

frame_is_user-good : frame_is_user (some good_frame) ≡ true
unfolding frame_is_user
frame_is_user-good = refl

frame_normalize-IsSafe_example :
    (g : Frame) × ((frame_normalize (some bad_frame)).0 ≡ some g) × IsSafe g
frame_normalize-IsSafe_example = frame_normalize-IsSafe bad_frame frame_is_user-bad
