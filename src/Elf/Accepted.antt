-- ===== src/Elf/Accepted.antt =====
-- kernel/elf64_loader.c: a segment that `inspect_load_segment` accepts keeps the plan sound.
use nostalux_os.Base.{
  add64, sub64, ℕ, ◌+◌, ◌*◌, ◌/◌, ◌^◌, ◌≤◌, ◌<◌, bit_or, ◌≡◌, ◌≢◌, ◌⊎◌, inl, inr, false, List, [],
  ◌∷◌, ◌++◌, arith, leb, Bool-cases, length, length-append, All, All-snoc, All-imp, Pairwise,
  Pairwise-snoc,
}
use nostalux_os.Base.Bits.{bit_and-align_page, bit_and-bit0, bit_and-bit1, bit_or-bit0, bit_or-bit1}
use nostalux_os.Elf.Inspect.{first_scan}
use nostalux_os.Elf.Reader.{pass, fault}
use nostalux_os.Elf.Segments.{
  range_fits_size, Segment, Plan, max_load_segments, max_user_vaddr, page_start, page_end,
  segment_end, bytes_overlap, pages_conflict, check_existing, check_segment, Scan, entry_in,
  accept_segment, inspect_load_segment,
}
use nostalux_os.Elf.Sound.{
  Ensures, passes, Ensures-bind, Ensures-reject, Ensures-imp, Ensures-of, Fits, Disjoint,
  PagesApart, Any, Enters, Between,
}

check_segment-Fits :
    (n : ℕ) (s : Segment) → s.memory_size < 2 ^ 64 → check_segment s n ≡ pass tt → Fits n s
unfolding check_segment range_fits_size
check_segment-Fits n s h e = ground (arith, bit_and-bit0 s.flags, bit_and-bit1 s.flags)

check_segment-ne-fault : (n : ℕ) (s : Segment) → check_segment s n ≢ fault
unfolding check_segment
check_segment-ne-fault n s e = ground arith

check_segment-Ensures :
    (n : ℕ) (s : Segment) → s.memory_size < 2 ^ 64 → Ensures (λ _. Fits n s) (check_segment s n)
check_segment-Ensures n s h =
    Ensures-of (Fits n s) (check_segment s n) (check_segment-ne-fault n s)
      (check_segment-Fits n s h)

-- The masks of the code stand for the first and the last page of a segment.
page_bounds :
    (s : Segment)
    → s.virtual_address + s.memory_size ≤ max_user_vaddr + 1
    → (page_start s.virtual_address ≡ s.virtual_address / 4096 * 4096)
      × (page_end (segment_end s) ≡ (s.virtual_address + s.memory_size + 4095) / 4096 * 4096)
page_bounds s h = omega (
  arith,
  bit_and-align_page s.virtual_address (omega arith),
  bit_and-align_page (sub64 (add64 (segment_end s) 4096) 1) (omega arith),
)

-- One round of the loop: the tests of the code, read over pages.
no_page_between :
    (s e : Segment) (n : ℕ) → Fits n s → Fits n e → pages_conflict s e ≡ false → PagesApart e s
no_page_between s e n hs he t q on_e on_s = ground (
  arith,
  page_bounds s hs.high,
  page_bounds e he.high,
  bit_and-bit0 (bit_or s.flags e.flags),
  bit_and-bit1 (bit_or s.flags e.flags),
  bit_or-bit0 s.flags e.flags,
  bit_or-bit1 s.flags e.flags,
)

bytes-Disjoint :
    (s e : Segment) (n : ℕ) → Fits n s → Fits n e → bytes_overlap s e ≡ false → Disjoint e s
bytes-Disjoint s e n hs he t = ground arith

check_existing-Ensures :
    (n : ℕ) (s : Segment) (segments : List Segment)
    → Fits n s
    → All (Fits n) segments
    → Ensures (λ _. All (λ e. Disjoint e s × PagesApart e s) segments) (check_existing s segments)
unfolding check_existing
check_existing-Ensures n s [] hs h = passes tt tt
check_existing-Ensures n s (e ∷ rest) hs h =
    Ensures-reject (λ _. All (λ e. Disjoint e s × PagesApart e s) (e ∷ rest)) (bytes_overlap s e) _
      _
      λ t1.
        Ensures-reject (λ _. All (λ e. Disjoint e s × PagesApart e s) (e ∷ rest))
          (pages_conflict s e) _ _
          λ t2.
            Ensures-imp (λ _. All (λ e. Disjoint e s × PagesApart e s) rest) _
              (check_existing-Ensures n s rest hs h.1)
              (λ _ rest_apart.
                ((bytes-Disjoint s e n hs h.0 t1, no_page_between s e n hs h.0 t2), rest_apart))

-- The plan while the headers are read.
pub record IsScanned (n : ℕ) (scan : Scan) : Type 0 where
  pub few : length scan.plan.segments ≤ max_load_segments
  pub fits : All (Fits n) scan.plan.segments
  pub disjoint : Pairwise Disjoint scan.plan.segments
  pub pages_apart : Pairwise PagesApart scan.plan.segments
  pub enters :
      (scan.entry_is_executable ≡ false) ⊎ Any (Enters scan.plan.entry_point) scan.plan.segments
  pub between : All (Between scan.plan.virtual_base scan.plan.virtual_end) scan.plan.segments
  pub below : scan.plan.virtual_end ≤ max_user_vaddr + 1

pub first_scan-IsScanned : (n entry_point : ℕ) → IsScanned n (first_scan entry_point)
first_scan-IsScanned n entry_point = ground arith

Between-widen :
    (base end_ base' end' : ℕ) (segments : List Segment)
    → base' ≤ base
    → end_ ≤ end'
    → All (Between base end_) segments
    → All (Between base' end') segments
Between-widen base end_ base' end' segments h k =
    All-imp (Between base end_) (Between base' end') segments λ s b. omega arith

Any-snoc :
    (P : Segment → Type 0) (segments : List Segment) (s : Segment)
    → Any P segments
    → Any P (segments ++ (s ∷ []))
Any-snoc P (x ∷ segments) s (inl h) = inl h
Any-snoc P (x ∷ segments) s (inr h) = inr (Any-snoc P segments s h)
Any-snoc P [] s h = absurd h

Any-last :
    (P : Segment → Type 0) (segments : List Segment) (s : Segment)
    → P s
    → Any P (segments ++ (s ∷ []))
Any-last P [] s h = inl h
Any-last P (x ∷ segments) s h = inr (Any-last P segments s h)

accept_segment-IsScanned :
    (n : ℕ) (s : Segment) (scan : Scan)
    → Fits n s
    → IsScanned n scan
    → length scan.plan.segments < max_load_segments
    → All (λ e. Disjoint e s × PagesApart e s) scan.plan.segments
    → IsScanned n (accept_segment s scan)
unfolding accept_segment
accept_segment-IsScanned n s scan f v few apart = record {
  few = omega (arith, length-append segments (s ∷ []));
  fits = All-snoc (Fits n) segments s v.fits f;
  disjoint = Pairwise-snoc Disjoint segments s v.disjoint (All-imp _ _ segments (λ e a. a.0) apart);
  pages_apart =
      Pairwise-snoc PagesApart segments s v.pages_apart (All-imp _ _ segments (λ e a. a.1) apart);
  enters = enter v.enters;
  between =
      All-snoc (Between plan'.virtual_base plan'.virtual_end) segments s
        (Between-widen scan.plan.virtual_base scan.plan.virtual_end plan'.virtual_base
          plan'.virtual_end segments (ground arith) (ground arith) v.between)
        (ground arith);
  below = ground arith;
}
  where
    segments : List Segment
    segments = scan.plan.segments

    plan' : Plan
    plan' = (accept_segment s scan).plan

    enter :
        (scan.entry_is_executable ≡ false) ⊎ Any (Enters scan.plan.entry_point) segments
        → ((accept_segment s scan).entry_is_executable ≡ false)
          ⊎ Any (Enters scan.plan.entry_point) (segments ++ (s ∷ []))
    enter old = elim (Bool-cases (entry_in s scan.plan.entry_point)) [
      | inl hit ↦ inr (
          Any-last (Enters scan.plan.entry_point) segments s (ground (arith, bit_and-bit0 s.flags)))
      | inr miss ↦ elim old [
        | inl off ↦ inl (ground arith)
        | inr any ↦ inr (Any-snoc (Enters scan.plan.entry_point) segments s any)
      ]
    ]

pub inspect_load_segment-Ensures :
    (n : ℕ) (s : Segment) (scan : Scan)
    → s.memory_size < 2 ^ 64
    → IsScanned n scan
    → Ensures (IsScanned n) (inspect_load_segment s n scan)
unfolding inspect_load_segment
inspect_load_segment-Ensures n s scan hs v =
    Ensures-bind (λ _. Fits n s) (IsScanned n) _ (check_segment-Ensures n s hs)
      λ _ f.
        Ensures-reject (IsScanned n) (leb max_load_segments (length scan.plan.segments)) _ _ λ few.
          Ensures-bind (λ _. All (λ e. Disjoint e s × PagesApart e s) scan.plan.segments)
            (IsScanned n) _ (check_existing-Ensures n s scan.plan.segments f v.fits)
            λ _ apart.
              passes (accept_segment s scan)
                (accept_segment-IsScanned n s scan f v (ground arith) apart)
