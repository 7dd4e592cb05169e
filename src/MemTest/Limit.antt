-- ===== src/MemTest/Limit.antt =====
-- kernel/memtest.c: the survey of the segments keeps the heap in usable memory.
use nostalux_os.Base.{
  ℕ, ◌^◌, ◌≤◌, ◌<◌, ◌≡◌, refl, sym, ◌⊎◌, inl, inr, Bool, true, false, not, ◌&&◌, ◌||◌, List, [],
  ◌∷◌, arith, ltb, leb, ◌==◌, if◌then◌else◌, tests, Bool-cases, All,
}
use nostalux_os.MemTest.{
  Entry, heap_base, mapped_limit, unique_points, covered_by_usable, covered_by_reserved, Survey,
  capped, heap_limit_after, add_segment, survey_segments, empty_survey, survey_points,
  survey_entries,
}
use nostalux_os.MemTest.Covered.{Between, IsCovered, segment-IsCovered}
use nostalux_os.MemTest.Points.{
  Occurs, Occurs-All, IsMap, Rising, Endpoint, clash, sorted_points, sorted_points-Rising,
  sorted_points-Occurs, sorted_points-small,
}

-- The part of the survey that matters to the heap.
pub record HeapIsCovered (entry_size : ℕ) (entries : List Entry) (s : Survey) : Type 0 where
  pub in_map : s.heap_limit ≤ mapped_limit
  pub all_usable :
      s.found_heap_base ≡ true
      → (a : ℕ) → heap_base ≤ a
      → a < s.heap_limit
      → IsCovered entry_size entries a

capped-le_limit : (end : ℕ) → capped end ≤ mapped_limit
capped-le_limit end = ground arith

capped-le_end : (end : ℕ) → capped end ≤ end
capped-le_end end = ground arith

starts_low :
    (found : Bool) (start end : ℕ)
    → (not found && leb start heap_base && ltb heap_base end) ≡ true
    → start ≤ heap_base
starts_low found start end e = ground arith

grows_from :
    (found : Bool) (start limit end : ℕ)
    → (found && leb start limit && ltb limit end && ltb limit mapped_limit) ≡ true
    → (found ≡ true) × (start ≤ limit)
grows_from found start limit end e = ground arith

-- The end of the heap moves over a usable segment that starts at or before it.
heap_limit_after-usable :
    (P : ℕ → Type 0) (found : Bool) (limit start end : ℕ)
    → limit ≤ mapped_limit
    → (found ≡ true → (a : ℕ) → heap_base ≤ a → a < limit → P a)
    → ((a : ℕ) → start ≤ a → a < end → P a)
    → ((heap_limit_after found limit start end).1 ≤ mapped_limit)
      × ((heap_limit_after found limit start end).0 ≡ true
          → (a : ℕ) → heap_base ≤ a
          → a < (heap_limit_after found limit start end).1
          → P a)
unfolding heap_limit_after
heap_limit_after-usable P found limit start end le before segment =
    let cap : (capped end ≤ mapped_limit) × (capped end ≤ end) =
      (capped-le_limit end, capped-le_end end) in
    elim (Bool-cases (not found && leb start heap_base && ltb heap_base end)) [
      | inl starts ↦
          let low : start ≤ heap_base = starts_low found start end starts in
          simp starts (cap.0, λ _ a lo hi. segment a (omega arith) (omega arith))
      | inr no_start ↦
          elim (Bool-cases (found && leb start limit && ltb limit end && ltb limit mapped_limit)) [
            | inl grows ↦
                let g = grows_from found start limit end grows in
                simp (no_start, grows)
                  (
                    cap.0,
                    λ _ a lo hi. elim (Bool-cases (ltb a limit)) [
                      | inl old ↦ before g.0 a lo (omega (tests, old))
                      | inr new ↦ segment a (omega (tests, new)) (omega arith)
                    ],
                  )
            | inr no_growth ↦ simp (no_start, no_growth) (le, before)
          ]
    ]

add_segment-usable :
    (entry_size : ℕ) (entries : List Entry) (s : Survey) (start end : ℕ)
    → HeapIsCovered entry_size entries s
    → ((a : ℕ) → start ≤ a → a < end → IsCovered entry_size entries a)
    → HeapIsCovered entry_size entries (add_segment s start end)
unfolding add_segment
add_segment-usable entry_size entries s start end h segment =
    let after =
      heap_limit_after-usable (IsCovered entry_size entries) s.found_heap_base s.heap_limit start
        end h.in_map h.all_usable segment in
    record { in_map = after.0; all_usable = after.1 }

chosen :
    (entry_size : ℕ) (entries : List Entry) (s t : Survey) (skip : Bool)
    → HeapIsCovered entry_size entries s
    → (skip ≡ false → HeapIsCovered entry_size entries t)
    → HeapIsCovered entry_size entries (if skip then s else t)
chosen entry_size entries s t true h f = h
chosen entry_size entries s t false h f = f refl

kept_segment : (u r : Bool) → (not u || r) ≡ false → (u ≡ true) × (r ≡ false)
kept_segment u r e = ground arith

-- What is known at the point `start`, before the points that are left.
abbrev Reached : ℕ → List Entry → ℕ → List ℕ → Type 0
Reached entry_size entries start points =
    (x : ℕ) → Endpoint entry_size entries x → (x ≤ start) ⊎ Occurs x points

survey_segments-usable :
    (entry_size : ℕ) (entries : List Entry) (start : ℕ) (points : List ℕ) (s : Survey)
    → Reached entry_size entries start points
    → All (λ p. start ≤ p) points
    → Rising points
    → All (λ p. p < 2 ^ 64) points
    → HeapIsCovered entry_size entries s
    → HeapIsCovered entry_size entries (survey_segments entry_size entries start points s)
unfolding survey_segments
survey_segments-usable entry_size entries start [] s reached up rising small h = h
survey_segments-usable entry_size entries start (end ∷ points) s reached up rising small h =
    let reached' : Reached entry_size entries end points = λ x ep. elim (reached x ep) [
      | inl le ↦ inl (omega (arith, up.0))
      | inr o ↦ elim o [ inl e ↦ inl (omega arith) | inr m ↦ inr m ]
    ] in
    let between : Between entry_size entries start end = λ x ep. elim (reached x ep) [
      | inl le ↦ inl le
      | inr o ↦ elim o [
        | inl e ↦ inr (omega arith)
        | inr m ↦ inr (Occurs-All (λ p. end ≤ p) x points m rising.0)
      ]
    ] in
    survey_segments-usable entry_size entries end points _ reached' rising.0 rising.1 small.1 (
      chosen entry_size entries s (add_segment s start end)
        (not (covered_by_usable entry_size entries start end)
          || covered_by_reserved entry_size entries start end)
        h
        (λ keep.
          let parts =
            kept_segment (covered_by_usable entry_size entries start end)
              (covered_by_reserved entry_size entries start end) keep in
          add_segment-usable entry_size entries s start end h (λ a lo hi.
            segment-IsCovered entry_size entries start end a small.0 between parts.0 parts.1 lo
              hi)))

unique_points-All :
    (P : ℕ → Type 0) (last : ℕ) (points : List ℕ) → All P points → All P (unique_points last points)
unfolding unique_points
unique_points-All P last [] h = tt
unique_points-All P last (p ∷ points) h = elim (Bool-cases (p == last)) [
  | inl e ↦ simp e (unique_points-All P last points h.1)
  | inr n ↦ simp n (h.0, unique_points-All P p points h.1)
]

unique_points-Rising :
    (last : ℕ) (points : List ℕ) → Rising points → Rising (unique_points last points)
unfolding unique_points
unique_points-Rising last [] h = tt
unique_points-Rising last (p ∷ points) h = elim (Bool-cases (p == last)) [
  | inl e ↦ simp e (unique_points-Rising last points h.1)
  | inr n ↦ simp n (unique_points-All (λ b. p ≤ b) p points h.0, unique_points-Rising p points h.1)
]

unique_points-Occurs :
    (x last : ℕ) (points : List ℕ)
    → Occurs x points
    → (x ≡ last) ⊎ Occurs x (unique_points last points)
unfolding unique_points
unique_points-Occurs x last [] o = absurd o
unique_points-Occurs x last (p ∷ points) o = elim (Bool-cases (p == last)) [
  | inl e ↦ elim o [
    | inl here ↦ inl (omega (tests, e))
    | inr m ↦ simp e (unique_points-Occurs x last points m)
  ]
  | inr n ↦
      simp n (inr (elim o [ inl here ↦ inl here | inr m ↦ unique_points-Occurs x p points m ]))
]

empty-usable :
    (entry_size : ℕ) (entries : List Entry) → HeapIsCovered entry_size entries empty_survey
empty-usable entry_size entries = record {
  in_map = omega arith;
  all_usable = λ e. absurd (clash (sym e));
}

survey_points-usable :
    (entry_size : ℕ) (entries : List Entry) (points : List ℕ)
    → ((x : ℕ) → Endpoint entry_size entries x → Occurs x points)
    → Rising points
    → All (λ p. p < 2 ^ 64) points
    → HeapIsCovered entry_size entries (survey_points entry_size entries points)
unfolding survey_points
survey_points-usable entry_size entries [] occurs rising small = empty-usable entry_size entries
survey_points-usable entry_size entries (p ∷ points) occurs rising small =
    let P = unique_points p points in
    survey_segments-usable entry_size entries p P empty_survey
      (λ x ep. elim (occurs x ep) [
        | inl e ↦ inl (omega arith)
        | inr m ↦ elim (unique_points-Occurs x p points m) [
          | inl e ↦ inl (omega arith)
          | inr o ↦ inr o
        ]
      ])
      (unique_points-All (λ b. p ≤ b) p points rising.0) (unique_points-Rising p points rising.1)
      (unique_points-All (λ b. b < 2 ^ 64) p points small.1) (empty-usable entry_size entries)

pub survey_entries-usable :
    (entry_size : ℕ) (entries : List Entry)
    → IsMap entries
    → HeapIsCovered entry_size entries (survey_entries entry_size entries)
unfolding survey_entries
survey_entries-usable entry_size entries h =
    survey_points-usable entry_size entries (sorted_points entry_size entries)
      (sorted_points-Occurs entry_size entries) (sorted_points-Rising entry_size entries)
      (sorted_points-small entry_size entries h)
