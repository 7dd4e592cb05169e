-- ===== src/MemTest/Covered.antt =====
-- kernel/memtest.c: a segment that the loop counts as usable memory is usable as a whole.
use nostalux_os.Base.{
  ℕ, ◌-◌, ◌^◌, ◌≤◌, ◌<◌, ◌≡◌, refl, sym, ap, ◌∙◌, subst, ◌⊎◌, inl, inr, Bool, true, false, not,
  ◌&&◌, ◌||◌, List, [], ◌∷◌, arith, leb, ◌==◌, tests, Bool-cases,
}
use nostalux_os.MemTest.{
  Entry, range_end, entry_is_enabled, touches, covered_by_usable, covered_by_reserved,
}
use nostalux_os.MemTest.Points.{Occurs, Endpoint, clash}

-- An enabled entry of the map holds the address.
abbrev pub HoldsAddress : ℕ → ℕ → Entry → Type 0
HoldsAddress entry_size a e =
    (entry_is_enabled entry_size e ≡ true) × (e.base ≤ a) × (a < range_end e)

-- An enabled usable entry of the map holds the address, and no enabled entry of another kind does.
pub record IsCovered (entry_size : ℕ) (entries : List Entry) (a : ℕ) : Type 0 where
  pub entry : Entry
  pub occurs : Occurs entry entries
  pub usable : entry.kind ≡ 1
  pub holds : HoldsAddress entry_size a entry
  pub not_reserved : (e : Entry) → Occurs e entries → HoldsAddress entry_size a e → e.kind ≡ 1

-- No endpoint of the map lies inside of [start, end).
abbrev pub Between : ℕ → List Entry → ℕ → ℕ → Type 0
Between entry_size entries start end =
    (x : ℕ) → Endpoint entry_size entries x → (x ≤ start) ⊎ (end ≤ x)

split_and :
    (enabled : Bool) (end base high start : ℕ)
    → (enabled && not (leb end base || leb high start)) ≡ true
    → (enabled ≡ true) × (base < end) × (start < high)
split_and enabled end base high start t = ground arith

join_and :
    (enabled : Bool) (end base high start : ℕ)
    → enabled ≡ true
    → base < end
    → start < high
    → (enabled && not (leb end base || leb high start)) ≡ true
join_and enabled end base high start on lo hi = ground arith

touched :
    (entry_size start end a : ℕ) (e : Entry)
    → start ≤ a
    → a < end
    → HoldsAddress entry_size a e
    → touches entry_size start end e ≡ true
touched entry_size start end a e lo hi h =
    join_and (entry_is_enabled entry_size e) end e.base (range_end e) start h.0 (omega (arith, h.1))
      (omega (arith, h.2))

enabled-base_lt :
    (entry_size : ℕ) (e : Entry)
    → entry_is_enabled entry_size e ≡ true
    → e.base < 2 ^ 64 - 1
    → e.base < range_end e
enabled-base_lt entry_size e on small = ground arith

both_true : (a b : Bool) → (a && b) ≡ true → (a ≡ true) × (b ≡ true)
both_true a b h = ground arith

touches-enabled :
    (entry_size start end : ℕ) (e : Entry)
    → touches entry_size start end e ≡ true
    → (entry_is_enabled entry_size e ≡ true) × (e.base < end) × (start < range_end e)
touches-enabled entry_size start end e t =
    split_and (entry_is_enabled entry_size e) end e.base (range_end e) start t

later : (a b : Bool) → a ≡ false → (a || b) ≡ true → b ≡ true
later a b n h = ground arith

neither : (a b : Bool) → (a || b) ≡ false → (a ≡ false) × (b ≡ false)
neither a b h = ground arith

usable_kind : (t : Bool) (k : ℕ) → (t && not (k == 1)) ≡ false → t ≡ true → k ≡ 1
usable_kind t k f y = ground arith

usable-found :
    (entry_size : ℕ) (entries : List Entry) (start end : ℕ)
    → covered_by_usable entry_size entries start end ≡ true
    → (e : Entry) × Occurs e entries × (e.kind ≡ 1) × (touches entry_size start end e ≡ true)
unfolding covered_by_usable
usable-found entry_size [] start end h = absurd (clash (sym h))
usable-found entry_size (e ∷ entries) start end h =
    elim (Bool-cases (touches entry_size start end e && (e.kind == 1))) [
      | inl y ↦
          let q = both_true (touches entry_size start end e) (e.kind == 1) y in
          (e, inl refl, omega (tests, q.1), q.0)
      | inr n ↦
          let w = usable-found entry_size entries start end (
            later (touches entry_size start end e && (e.kind == 1))
              (covered_by_usable entry_size entries start end) n h) in
          (w.0, inr w.1, w.2, w.3)
    ]

reserved-none :
    (entry_size : ℕ) (entries : List Entry) (start end : ℕ) (e : Entry)
    → covered_by_reserved entry_size entries start end ≡ false
    → Occurs e entries
    → touches entry_size start end e ≡ true
    → e.kind ≡ 1
unfolding covered_by_reserved
reserved-none entry_size [] start end e h o t = absurd o
reserved-none entry_size (d ∷ entries) start end e h o t =
    let parts =
      neither (touches entry_size start end d && not (d.kind == 1))
        (covered_by_reserved entry_size entries start end) h in
    elim o [
      | inr m ↦ reserved-none entry_size entries start end e parts.1 m t
      | inl same ↦
          ap (λ (x : Entry). x.kind) same
          ∙ usable_kind (touches entry_size start end d) d.kind parts.0
              (subst (λ (x : Entry). touches entry_size start end x ≡ true) same t)
    ]

holds_low :
    (base start end a : ℕ) → start ≤ a → base < end → (base ≤ start) ⊎ (end ≤ base) → base ≤ a
holds_low base start end a lo lt (inl h) = omega arith
holds_low base start end a lo lt (inr h) = absurd (omega arith)

holds_high :
    (high start end a : ℕ) → a < end → start < high → (high ≤ start) ⊎ (end ≤ high) → a < high
holds_high high start end a hi lt (inl h) = absurd (omega arith)
holds_high high start end a hi lt (inr h) = omega arith

-- A segment between two neighbouring endpoints is usable as a whole when the loop says so.
pub segment-IsCovered :
    (entry_size : ℕ) (entries : List Entry) (start end a : ℕ)
    → end < 2 ^ 64
    → Between entry_size entries start end
    → covered_by_usable entry_size entries start end ≡ true
    → covered_by_reserved entry_size entries start end ≡ false
    → start ≤ a
    → a < end
    → IsCovered entry_size entries a
segment-IsCovered entry_size entries start end a small between u r lo hi =
    let w = usable-found entry_size entries start end u in
    let t = touches-enabled entry_size start end w.0 w.3 in
    let positive : w.0.base < range_end w.0 = enabled-base_lt entry_size w.0 t.0 (omega arith) in
    let low = between w.0.base (w.0, w.1, t.0, positive, inl refl) in
    let high = between (range_end w.0) (w.0, w.1, t.0, positive, inr refl) in
    record {
      entry = w.0;
      occurs = w.1;
      usable = w.2;
      holds = (
        t.0,
        holds_low w.0.base start end a lo t.1 low,
        holds_high (range_end w.0) start end a hi t.2 high,
      );
      not_reserved = λ e o h.
          reserved-none entry_size entries start end e r o
            (touched entry_size start end a e lo hi h);
    }
