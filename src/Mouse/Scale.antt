-- ===== src/Mouse/Scale.antt =====
-- kernel/vmmouse_decode.c: the scaled position stays on the screen.
use nostalux_os.Base.{
  u64_mod, u32_mod, add64, ℕ, ◌+◌, ◌-◌, ◌*◌, ◌/◌, ◌%◌, ◌^◌, ◌≤◌, ◌<◌, min, ◌≡◌, refl, ap, ◌∙◌, inl,
  inr, false, arith, mul-le-mul_right, zero-mul, ltb, leb, tests, Bool-cases,
}
use nostalux_os.Mouse.{coordinate_max, is_small, scale_coordinate}

-- The conversions to 64 and to 32 bits change nothing.
converted :
    (c e : ℕ)
    → c ≤ coordinate_max
    → e < 2 ^ 31
    → add64 (c * e % u64_mod) (coordinate_max / 2) / coordinate_max % u32_mod
      ≡ (c * e + 32767) / coordinate_max
converted c e hc he = let m = mul-le-mul_right {m = c} {n = coordinate_max} e hc in omega arith

scale_coordinate-open :
    (coordinate extent : ℕ)
    → 1 < extent
    → extent < 2 ^ 31
    → scale_coordinate coordinate extent
      ≡ (min coordinate coordinate_max * (extent - 1) + 32767) / coordinate_max
unfolding scale_coordinate
scale_coordinate-open coordinate extent lo hi =
    let e = extent - 1 in
    let big : is_small extent ≡ false = ground arith in
    elim (Bool-cases (ltb coordinate_max coordinate)) [
      | inl far ↦
          let cap : min coordinate coordinate_max ≡ coordinate_max = omega (tests, far) in
          simp (big, far, cap) (converted coordinate_max e (omega arith) (omega arith))
      | inr near ↦
          let cap : min coordinate coordinate_max ≡ coordinate = omega (tests, near) in
          simp (big, near, cap) (converted coordinate e (omega (tests, near)) (omega arith))
    ]

scale_coordinate-single : (coordinate : ℕ) → scale_coordinate coordinate 1 ≡ 0
unfolding scale_coordinate
scale_coordinate-single coordinate = refl

scaled-le : (c e : ℕ) → c ≤ coordinate_max → (c * e + 32767) / coordinate_max ≤ e
scaled-le c e h = let m = mul-le-mul_right {m = c} {n = coordinate_max} e h in omega arith

scaled_mono :
    (c d e : ℕ) → c ≤ d → (c * e + 32767) / coordinate_max ≤ (d * e + 32767) / coordinate_max
scaled_mono c d e h = let m = mul-le-mul_right {m = c} {n = d} e h in omega arith

-- On a screen of between 1 and 2^31 - 1 columns, or rows, a coordinate is scaled to one of them:
-- the first for 0, the last for 65535 and above, and in the order of the coordinates.
pub scale_coordinate-bounds :
    (coordinate extent : ℕ)
    → 0 < extent
    → extent < 2 ^ 31
    → (scale_coordinate coordinate extent < extent)
      × (coordinate ≡ 0 → scale_coordinate coordinate extent ≡ 0)
      × (coordinate_max ≤ coordinate → scale_coordinate coordinate extent ≡ extent - 1)
      × ((further : ℕ)
          → coordinate ≤ further
          → scale_coordinate coordinate extent ≤ scale_coordinate further extent)
scale_coordinate-bounds coordinate extent lo hi = elim (Bool-cases (leb extent 1)) [
  | inl one ↦
      let e : extent ≡ 1 = omega (tests, one) in
      rw e (
        omega (arith, scale_coordinate-single coordinate),
        (λ _. scale_coordinate-single coordinate),
        (λ _. scale_coordinate-single coordinate),
        (λ further _.
            omega (arith, scale_coordinate-single coordinate, scale_coordinate-single further)),
      )
  | inr more ↦
      let e = extent - 1 in
      let lt : 1 < extent = omega (tests, more) in
      let here = scale_coordinate-open coordinate extent lt hi in
      let c = min coordinate coordinate_max in
      (
        omega (arith, here, scaled-le c e (omega arith)),
        (λ z.
            let zero_ : c * e ≡ 0 = ap (λ (t : ℕ). t * e) {y = 0} (omega arith) ∙ zero-mul e in
            omega (arith, here)),
        (λ far.
            let last_ : c * e ≡ coordinate_max * e = ap (λ (t : ℕ). t * e) (omega arith) in
            omega (arith, here)),
        (λ further le. omega (
          arith,
          here,
          scale_coordinate-open further extent lt hi,
          scaled_mono c (min further coordinate_max) e (omega arith),
        )),
      )
]
