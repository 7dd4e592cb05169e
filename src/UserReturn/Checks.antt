-- ===== src/UserReturn/Checks.antt =====
-- What the checks of a return frame promise to the transition to ring 3.
use nostalux_os.Base.{
  ℕ, ◌^◌, ◌≤◌, ◌<◌, min, max, bit_and, ◌≡◌, refl, ap, ◌∙◌, ◌↔◌, ◌⊎◌, inl, inr, true, some, arith,
  Bool-cases,
}
use nostalux_os.Base.Bits.{bit_and-le, bit_or-lt, bit, bit-bit_and, bit-bit_or}
use nostalux_os.UserReturn.{
  Frame, rflags_allowed, rflags_required, user_base, user_limit, frame_is_user, sanitize_rflags,
  frame_is_valid, poisoned, frame_normalize,
}

-- A flag that an application may set comes from the saved flags; of the others, those that are
-- required are set and those that are not are cleared.
pub sanitize_rflags-bit :
    (k rflags : ℕ)
    → bit k (sanitize_rflags rflags)
      ≡ max (min (bit k rflags) (bit k rflags_allowed)) (bit k rflags_required)
unfolding sanitize_rflags
sanitize_rflags-bit k rflags =
    bit-bit_or k (bit_and rflags rflags_allowed) rflags_required
    ∙ ap (λ (b : ℕ). max b (bit k rflags_required)) (bit-bit_and k rflags rflags_allowed)

pub sanitize_rflags-lt : (rflags : ℕ) → sanitize_rflags rflags < 2 ^ 22
unfolding sanitize_rflags
sanitize_rflags-lt rflags =
    let l = bit_and-le rflags rflags_allowed in
    bit_or-lt 22 (bit_and rflags rflags_allowed) rflags_required (omega arith) (omega arith)

abbrev pub InUserSpace : ℕ → Type 0
InUserSpace a = (user_base ≤ a) × (a < user_limit)

-- `IRETQ` to this frame ends in ring 3 with interrupts on and no privileged flag.
pub record IsSafe (f : Frame) : Type 0 where
  pub code : f.cs ≡ 0x23
  pub stack : f.ss ≡ 0x1b
  pub rip_canonical : (f.rip ≡ 0) ⊎ InUserSpace f.rip
  pub rsp_canonical : (f.rsp ≡ 0) ⊎ InUserSpace f.rsp
  pub interrupts : bit 9 f.rflags ≡ 1
  pub fixed_bit : bit 1 f.rflags ≡ 1
  pub io_privilege : (bit 12 f.rflags ≡ 0) × (bit 13 f.rflags ≡ 0)
  pub nested_task : bit 14 f.rflags ≡ 0
  pub virtual_8086 : bit 17 f.rflags ≡ 0
  pub virtual_interrupt : (bit 19 f.rflags ≡ 0) × (bit 20 f.rflags ≡ 0)
  pub no_high_bits : f.rflags < 2 ^ 22

-- The application itself left a frame that it may return to.
abbrev pub IsReturnable : Frame → Type 0
IsReturnable f = (f.cs ≡ 0x23) × (f.ss ≡ 0x1b) × InUserSpace f.rip × InUserSpace f.rsp

frame_is_valid-IsReturnable : (f : Frame) → frame_is_valid f ≡ true → IsReturnable f
frame_is_valid-IsReturnable f e = ground arith

IsReturnable-frame_is_valid : (f : Frame) → IsReturnable f → frame_is_valid f ≡ true
IsReturnable-frame_is_valid f h = ground arith

IsSafe-poisoned : IsSafe poisoned
IsSafe-poisoned = record {
  code = refl;
  stack = refl;
  rip_canonical = inl refl;
  rsp_canonical = inl refl;
  interrupts = refl;
  fixed_bit = refl;
  io_privilege = (refl, refl);
  nested_task = refl;
  virtual_8086 = refl;
  virtual_interrupt = (refl, refl);
  no_high_bits = omega arith;
}

IsReturnable-IsSafe :
    (f : Frame) → IsReturnable f → IsSafe (record f { rflags = sanitize_rflags f.rflags })
IsReturnable-IsSafe f h =
    let r = f.rflags in
    record {
      code = h.0;
      stack = h.1;
      rip_canonical = inr h.2;
      rsp_canonical = inr h.3;
      interrupts = omega (arith, sanitize_rflags-bit 9 r);
      fixed_bit = omega (arith, sanitize_rflags-bit 1 r);
      io_privilege =
          (omega (arith, sanitize_rflags-bit 12 r), omega (arith, sanitize_rflags-bit 13 r));
      nested_task = omega (arith, sanitize_rflags-bit 14 r);
      virtual_8086 = omega (arith, sanitize_rflags-bit 17 r);
      virtual_interrupt =
          (omega (arith, sanitize_rflags-bit 19 r), omega (arith, sanitize_rflags-bit 20 r));
      no_high_bits = sanitize_rflags-lt r;
    }

-- After the call, a frame of ring 3 is safe to return to, whatever it held.
pub frame_normalize-IsSafe :
    (f : Frame)
    → frame_is_user (some f) ≡ true
    → (g : Frame) × ((frame_normalize (some f)).0 ≡ some g) × IsSafe g
unfolding frame_normalize
frame_normalize-IsSafe f u = elim (Bool-cases (frame_is_valid f)) [
  | inl e ↦ (
    record f { rflags = sanitize_rflags f.rflags },
    simp (u, e),
    IsReturnable-IsSafe f (frame_is_valid-IsReturnable f e),
  )
  | inr e ↦ (poisoned, simp (u, e), IsSafe-poisoned)
]

-- The result of the call for a frame of ring 3 is true exactly when the frame is one that the
-- application may return to, and then only its flags are changed.
pub frame_normalize-valid :
    (f : Frame)
    → frame_is_user (some f) ≡ true
    → ((frame_normalize (some f)).1 ≡ true ↔ IsReturnable f)
      × (IsReturnable f
          → (frame_normalize (some f)).0 ≡ some (record f { rflags = sanitize_rflags f.rflags }))
unfolding frame_normalize
frame_normalize-valid f u = elim (Bool-cases (frame_is_valid f)) [
  | inl e ↦ (((λ _. frame_is_valid-IsReturnable f e), (λ _. simp (u, e))), λ _. simp (u, e))
  | inr e ↦
      let no : ¬ IsReturnable f = λ h. let t = IsReturnable-frame_is_valid f h in cc in
      (((λ t. ground arith), λ h. absurd (no h)), λ h. absurd (no h))
]
