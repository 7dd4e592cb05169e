-- ===== src/Elf/Loaded.antt =====
-- kernel/elf64_loader.c: what `elf64_load_contiguous` leaves in the destination.
use nostalux_os.Base.{
  sub64, ℕ, ◌+◌, ◌-◌, ◌^◌, ◌≤◌, ◌<◌, ◌≡◌, refl, sym, ◌∙◌, subst, ◌≢◌, ◌⊎◌, true, false, some, List,
  [], ◌∷◌, arith, ltb, le→ltb, length, get_or, All, All-imp, Pairwise,
}
use nostalux_os.Elf.Copying.{Yields, copy_bytes-Copied, clear_bytes-Cleared}
use nostalux_os.Elf.Inspect.{span, elf64_inspect}
use nostalux_os.Elf.Load.{host_ranges_overlap, load_segments, fill, elf64_load_contiguous}
use nostalux_os.Elf.Reader.{pass, fault}
use nostalux_os.Elf.Segments.{Segment, Plan}
use nostalux_os.Elf.Sound.{
  IsBytes, Ensures, passes, Ensures-bind, Ensures-reject, Ensures-skip, Ensures-ne-fault, Fits,
  Disjoint, Between, IsSound,
}
use nostalux_os.Elf.Verdict.{inspect_bytes-Ensures, elf64_inspect-IsSound}

-- The place of a segment in the buffer is inside of its first `span` bytes, and so are its bytes.
abbrev pub Placed : ℕ → ℕ → ℕ → Segment → Type 0
Placed base span size s =
    (base ≤ s.virtual_address)
    × (s.virtual_address + s.file_size ≤ base + span)
    × (s.virtual_address < 2 ^ 64)
    × (s.file_offset + s.file_size ≤ size)

-- The file parts of two segments do not overlap.
abbrev pub Parted : Segment → Segment → Type 0
Parted s t =
    (s.virtual_address + s.file_size ≤ t.virtual_address)
    ⊎ (t.virtual_address + t.file_size ≤ s.virtual_address)

-- The byte at offset `j` of the buffer is no byte of the segment's file part.
abbrev pub Outside : ℕ → ℕ → Segment → Type 0
Outside base j s = (base + j < s.virtual_address) ⊎ (s.virtual_address + s.file_size ≤ base + j)

-- The segment's file part is in its place.
abbrev pub IsLoaded : ℕ → List ℕ → List ℕ → Segment → Type 0
IsLoaded base source out s =
    (i : ℕ)
    → i < s.file_size
    → get_or out (s.virtual_address - base + i) 0 ≡ get_or source (s.file_offset + i) 0

record Filled (segments : List Segment) (base : ℕ) (source loaded out : List ℕ) : Type 0 where
  same_length : length out ≡ length loaded
  in_place : All (IsLoaded base source out) segments
  kept : (j : ℕ) → All (Outside base j) segments → get_or out j 0 ≡ get_or loaded j 0

Outside-rest :
    (base span size i : ℕ) (s : Segment) (rest : List Segment)
    → base ≤ s.virtual_address
    → i < s.file_size
    → All (Parted s) rest
    → All (Outside base (s.virtual_address - base + i)) rest
Outside-rest base span size i s rest hb hi =
    All-imp (Parted s) (Outside base (s.virtual_address - base + i)) rest λ t p. ground arith

load_segments-Filled :
    (segments : List Segment) (base span : ℕ) (source loaded : List ℕ)
    → span ≤ length loaded
    → All (Placed base span (length source)) segments
    → Pairwise Parted segments
    → Yields (Filled segments base source loaded) (load_segments segments base source loaded)
unfolding load_segments
load_segments-Filled [] base span source loaded hs placed parted =
    (loaded, refl, record { same_length = refl; in_place = tt; kept = λ j o. refl })
load_segments-Filled (s ∷ rest) base span source loaded hs placed parted =
    let p = placed.0 in
    let (loaded', e, c) =
      copy_bytes-Copied s.file_size loaded (s.virtual_address - base) source s.file_offset
        (omega arith) (omega arith) in
    let (out, e', f) =
      load_segments-Filled rest base span source loaded' (omega (arith, c.same_length)) placed.1
        parted.1 in
    (
      out,
      (let off : sub64 s.virtual_address base ≡ s.virtual_address - base = omega arith in
          rw (off, e) e'),
      record {
        same_length = f.same_length ∙ c.same_length;
        in_place = (
          λ i hi.
              f.kept (s.virtual_address - base + i)
                (Outside-rest base span (length source) i s rest p.0 hi parted.0)
              ∙ c.copied i hi,
          f.in_place,
        );
        kept = λ j o. f.kept j o.1 ∙ c.kept j (ground arith);
      },
    )

sound-Placed :
    (n base end_ span : ℕ) (segments : List Segment)
    → base + span ≡ end_
    → All (Fits n) segments
    → All (Between base end_) segments
    → All (Placed base span n) segments
sound-Placed n base end_ span [] e f b = tt
sound-Placed n base end_ span (s ∷ rest) e f b =
    (omega (arith, f.0, b.0), sound-Placed n base end_ span rest e f.1 b.1)

Disjoint-Parted :
    (n : ℕ) (s : Segment) (rest : List Segment)
    → Fits n s
    → All (Fits n) rest
    → All (Disjoint s) rest
    → All (Parted s) rest
Disjoint-Parted n s [] hs f d = tt
Disjoint-Parted n s (t ∷ rest) hs f d = (omega arith, Disjoint-Parted n s rest hs f.1 d.1)

sound-Parted :
    (n : ℕ) (segments : List Segment)
    → All (Fits n) segments
    → Pairwise Disjoint segments
    → Pairwise Parted segments
sound-Parted n [] f d = tt
sound-Parted n (s ∷ rest) f d = (Disjoint-Parted n s rest f.0 f.1 d.0, sound-Parted n rest f.1 d.1)

-- The destination after loading `source` by the plan.
pub record Holds (plan : Plan) (source destination out : List ℕ) : Type 0 where
  pub same_length : length out ≡ length destination
  pub in_place : All (IsLoaded plan.virtual_base source out) plan.segments
  pub zeroed :
      (j : ℕ)
      → j < plan.image_span
      → All (Outside plan.virtual_base j) plan.segments
      → get_or out j 0 ≡ 0
  pub kept : (j : ℕ) → plan.image_span ≤ j → get_or out j 0 ≡ get_or destination j 0

Outside-above :
    (base span n j : ℕ) (segments : List Segment)
    → span ≤ j
    → All (Placed base span n) segments
    → All (Outside base j) segments
Outside-above base span n j segments h =
    All-imp (Placed base span n) (Outside base j) segments λ s p. omega arith

-- The steps behind the tests, for a sound plan and a destination that is large enough.
fill-Yields :
    (plan : Plan) (source destination : List ℕ)
    → IsSound (length source) plan
    → plan.image_span ≤ length destination
    → (out : List ℕ) × (fill plan source destination ≡ pass (out, plan))
      × Holds plan source destination out
unfolding fill
fill-Yields plan source destination v room =
    let (cleared, e, c) = clear_bytes-Cleared plan.image_span destination room in
    let placed =
      sound-Placed (length source) plan.virtual_base plan.virtual_end plan.image_span plan.segments
        v.spans v.fits v.between in
    let (out, e', f) =
      load_segments-Filled plan.segments plan.virtual_base plan.image_span source cleared
        (omega (arith, c.same_length)) placed
        (sound-Parted (length source) plan.segments v.fits v.disjoint) in
    (
      out,
      rw (e, e') refl,
      record {
        same_length = f.same_length ∙ c.same_length;
        in_place = f.in_place;
        zeroed = λ j lt o. f.kept j o ∙ c.zero_below j lt;
        kept = λ j le.
            f.kept j (
              Outside-above plan.virtual_base plan.image_span (length source) j plan.segments le
                placed)
            ∙ c.kept j le;
      },
    )

module _ (image_address : ℕ) (bytes : List ℕ) (address : ℕ) (destination : List ℕ) where
  -- Loading an accepted image into a destination that is large enough and does not overlap it
  -- succeeds. Each segment's file bytes are at their place, every other byte of the span is zero,
  -- and the destination behind the span is as it was.
  pub elf64_load_contiguous-Holds :
      (plan : Plan)
      → IsBytes bytes
      → elf64_inspect (some bytes) true ≡ pass plan
      → plan.image_span ≤ length destination
      → host_ranges_overlap image_address (length bytes) address plan.image_span ≡ false
      → (out : List ℕ) × (elf64_load_contiguous
            (some (image_address, bytes))
            (some (address, destination))
          ≡ pass (out, plan))
        × Holds plan bytes destination out
  unfolding elf64_load_contiguous
  elf64_load_contiguous-Holds plan h accepted room apart =
      let v = elf64_inspect-IsSound bytes h accepted in
      let (out, e, holds) = fill-Yields plan bytes destination v room in
      (out, rw (accepted, le→ltb (length destination) plan.image_span room, apart) e, holds)

  -- Loading makes no access outside of the image and of the destination, for any bytes.
  pub elf64_load_contiguous-ne-fault :
      IsBytes bytes
      → elf64_load_contiguous (some (image_address, bytes)) (some (address, destination)) ≢ fault
  unfolding elf64_load_contiguous
  elf64_load_contiguous-ne-fault h =
      Ensures-ne-fault (λ _. Unit {0})
        (Ensures-bind (IsSound (length bytes)) (λ _. Unit {0}) _ (inspect_bytes-Ensures bytes h)
          λ plan v.
            Ensures-reject (λ _. Unit {0}) (ltb (length destination) plan.image_span) _ _
              λ room.
                Ensures-skip (λ _. Unit {0}) _ _
                  (let (out, e, _) = fill-Yields plan bytes destination v (ground arith) in
                    subst (Ensures (λ _. Unit {0})) (sym e) (passes (out, plan) tt)))
