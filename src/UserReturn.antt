-- ===== src/UserReturn.antt =====
-- kernel/include/user_return.h: what is done to a hardware frame before `IRETQ` returns to ring 3.
-- `none` is the pointer NULL.
pub mod Checks
mod Examples
use nostalux_os.Base.{
  ℕ, bit_and, bit_or, Bool, true, false, not, ◌&&◌, Option, none, some, ltb, leb, ◌==◌,
  if◌then◌else◌,
}

-- `struct user_return_frame`.
pub record Frame : Type 0 where
  pub rip : ℕ
  pub cs : ℕ
  pub rflags : ℕ
  pub rsp : ℕ
  pub ss : ℕ

abbrev pub data_selector : ℕ
data_selector = 0x1b

abbrev pub code_selector : ℕ
code_selector = 0x23

abbrev pub rflags_allowed : ℕ
rflags_allowed = 0x250fd7

abbrev pub rflags_required : ℕ
rflags_required = 0x202

-- `PAGING_USER_BASE` and `PAGING_USER_LIMIT` of kernel/include/paging.h.
abbrev pub user_base : ℕ
user_base = 0x10000000000

abbrev pub user_limit : ℕ
user_limit = 0x20000000000

unfoldable pub frame_is_user : Option Frame → Bool
frame_is_user none = false
frame_is_user (some f) = bit_and f.cs 3 == 3

unfoldable pub sanitize_rflags : ℕ → ℕ
sanitize_rflags rflags = bit_or (bit_and rflags rflags_allowed) rflags_required

abbrev pub frame_is_valid : Frame → Bool
frame_is_valid f =
    (f.cs == code_selector)
    && (f.ss == data_selector)
    && leb user_base f.rip
    && ltb f.rip user_limit
    && leb user_base f.rsp
    && ltb f.rsp user_limit

abbrev pub poisoned : Frame
poisoned = record {
  rip = 0;
  cs = code_selector;
  rflags = rflags_required;
  rsp = 0;
  ss = data_selector;
}

-- The frame that is left in memory, and the result.
unfoldable pub frame_normalize : Option Frame → Option Frame × Bool
frame_normalize none = (none, true)
frame_normalize (some f) =
    if not (frame_is_user (some f))
    then (some f, true)
    else if frame_is_valid f
    then (some (record f { rflags = sanitize_rflags f.rflags }), true)
    else (some poisoned, false)
