-- ===== src/Elf/Verdict.antt =====
-- kernel/elf64_loader.c: the loop of `elf64_inspect` and its verdict.
use nostalux_os.Base.{
  ℕ, zero, suc, ◌+◌, ◌*◌, ◌^◌, ◌≤◌, ◌<◌, ◌≡◌, ◌≢◌, inl, inr, Bool, true, false, not, some, List, [],
  ◌∷◌, arith, ltb, ◌==◌, length, All,
}
use nostalux_os.Elf.Accepted.{IsScanned, first_scan-IsScanned, inspect_load_segment-Ensures}
use nostalux_os.Elf.Inspect.{
  read_segment, inspect_header, inspect_headers, span, span_refused, finish_plan, first_scan,
  inspect_bytes, elf64_inspect,
}
use nostalux_os.Elf.Reader.{pass, fault, ◌>>=◌}
use nostalux_os.Elf.Safety.{
  read_u32_le-Ensures, read_u64_le-Ensures, read_segment-Ensures, inspect_file_header-Ensures,
}
use nostalux_os.Elf.Segments.{Segment, Plan, min_user_vaddr, Scan, inspect_load_segment}
use nostalux_os.Elf.Sound.{
  IsBytes, Ensures, passes, Ensures-bind, Ensures-reject, Ensures-skip, Ensures-ne-fault,
  Ensures-pass, Fits, Between, IsSound,
}

module _ (bytes : List ℕ) (h : IsBytes bytes) where
  inspect_header-Ensures :
      (header : ℕ) (scan : Scan)
      → header + 56 ≤ length bytes
      → IsScanned (length bytes) scan
      → Ensures (IsScanned (length bytes)) (inspect_header bytes header scan)
  unfolding inspect_header
  inspect_header-Ensures header scan room v =
      Ensures-bind (λ kind. kind < 2 ^ 32) (IsScanned (length bytes)) _
        (read_u32_le-Ensures bytes h header (omega arith))
        λ kind _. Ensures-skip (IsScanned (length bytes)) _ _ (load_or_skip (kind == 1))
    where
      load_or_skip :
          (b : Bool)
          → Ensures (IsScanned (length bytes)) (elim b [
            | true ↦ read_segment bytes header >>= λ s. inspect_load_segment s (length bytes) scan
            | false ↦ pass scan
          ])
      load_or_skip true =
          Ensures-bind (λ s. s.memory_size < 2 ^ 64) (IsScanned (length bytes)) _
            (read_segment-Ensures bytes h header room)
            λ s hs. inspect_load_segment-Ensures (length bytes) s scan hs v
      load_or_skip false = passes scan v

  inspect_headers-Ensures :
      (count header : ℕ) (scan : Scan)
      → header + count * 56 ≤ length bytes
      → IsScanned (length bytes) scan
      → Ensures (IsScanned (length bytes)) (inspect_headers count bytes header scan)
  unfolding inspect_headers
  inspect_headers-Ensures zero header scan room v = passes scan v
  inspect_headers-Ensures (suc count) header scan room v =
      Ensures-bind (IsScanned (length bytes)) (IsScanned (length bytes)) _
        (inspect_header-Ensures header scan (omega arith) v)
        λ scan' v'. inspect_headers-Ensures count (header + 56) scan' (omega arith) v'

-- The bounds of a nonempty plan are in order.
bounds_in_order :
    (base end_ n : ℕ) (segments : List Segment)
    → 0 < length segments
    → All (Fits n) segments
    → All (Between base end_) segments
    → (base < end_) × (min_user_vaddr ≤ end_)
bounds_in_order base end_ n [] h f b = absurd (omega arith)
bounds_in_order base end_ n (s ∷ rest) h f b = omega (arith, f.0.positive, f.0.low, b.0)

finish_plan-Ensures :
    (n : ℕ) (scan : Scan) → IsScanned n scan → Ensures (IsSound n) (finish_plan scan)
unfolding finish_plan
finish_plan-Ensures n scan v = Ensures-reject (IsSound n) (length scan.plan.segments == 0) _ _ λ t1.
    Ensures-reject (IsSound n) (not scan.entry_is_executable) _ _ λ t2.
      Ensures-reject (IsSound n) (span_refused scan) _
        (pass (record (scan.plan) { image_span = span scan }))
        λ t3.
          let (order, _) =
            bounds_in_order scan.plan.virtual_base scan.plan.virtual_end n scan.plan.segments
              (ground arith) v.fits v.between in
          passes _ (record {
            some_segment = ground arith;
            few_segments = v.few;
            fits = v.fits;
            disjoint = v.disjoint;
            pages_apart = v.pages_apart;
            enters = elim v.enters [ inl off ↦ absurd (ground arith) | inr any ↦ any ];
            spans = ground (arith, order, v.below);
            span_bounds = (ground (arith, order, v.below), ground (arith, order, v.below));
            between = v.between;
          })

-- The inspection of any bytes.
pub inspect_bytes-Ensures :
    (bytes : List ℕ)
    → IsBytes bytes
    → Ensures (IsSound (length bytes)) (elf64_inspect (some bytes) true)
unfolding elf64_inspect inspect_bytes
inspect_bytes-Ensures bytes h =
    Ensures-reject (IsSound (length bytes)) (ltb (length bytes) 64) _ _ λ t.
      Ensures-bind (λ r. r.0 + r.1 * 56 ≤ length bytes) (IsSound (length bytes)) _
        (inspect_file_header-Ensures bytes h (ground arith))
        λ r room.
          Ensures-bind (λ v. v < 2 ^ 64) (IsSound (length bytes)) _
            (read_u64_le-Ensures bytes h 24 (ground arith))
            λ entry_point _.
              Ensures-bind (IsScanned (length bytes)) (IsSound (length bytes)) _
                (inspect_headers-Ensures bytes h r.1 r.0 (first_scan entry_point) room
                  (first_scan-IsScanned (length bytes) entry_point))
                λ scan v. finish_plan-Ensures (length bytes) scan v

-- The inspection reads no byte outside of the image, whatever the image holds.
pub elf64_inspect-ne-fault :
    (bytes : List ℕ) → IsBytes bytes → elf64_inspect (some bytes) true ≢ fault
elf64_inspect-ne-fault bytes h =
    Ensures-ne-fault (IsSound (length bytes)) (inspect_bytes-Ensures bytes h)

-- A plan that the inspection accepts is sound: it has 1 to 16 segments, each in user space, backed by
-- bytes of the file and not both writable and executable; no two overlap or share a page that would
-- become writable code; the entry point lies in executable bytes that come from the file; and the
-- span, of 16 MiB at most, holds all segments.
pub elf64_inspect-IsSound :
    (bytes : List ℕ) {plan : Plan}
    → IsBytes bytes
    → elf64_inspect (some bytes) true ≡ pass plan
    → IsSound (length bytes) plan
elf64_inspect-IsSound bytes h e =
    Ensures-pass (IsSound (length bytes)) (inspect_bytes-Ensures bytes h) e
