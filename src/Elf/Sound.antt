-- ===== src/Elf/Sound.antt =====
-- kernel/elf64_loader.c: what the inspection promises of a plan that it accepts, in terms of
-- addresses and pages, and the rules for proving it.
use nostalux_os.Base.{
  ℕ, ◌+◌, ◌-◌, ◌*◌, ◌/◌, ◌%◌, ◌≤◌, ◌<◌, ◌≡◌, refl, subst, ◌≢◌, ◌⊎◌, Bool, true, false, List, [],
  ◌∷◌, length, All, Pairwise,
}
use nostalux_os.Elf.Reader.{LoadResult, Outcome, pass, fail, fault, ◌>>=◌, reject}
use nostalux_os.Elf.Segments.{
  Segment, Plan, max_load_segments, max_image_span, min_user_vaddr, max_user_vaddr,
}

-- The buffer holds bytes.
abbrev pub IsBytes : List ℕ → Type 0
IsBytes = All (λ b. b < 256)

-- The computation makes no access outside of a buffer; if it passes, the value satisfies `P`.
pub data Ensures {ℓ} {A : Type ℓ} (P : A → Type 0) : Outcome A → Type ℓ where
  passes : (a : A) → P a → Ensures P (pass a)
  fails : (r : LoadResult) → Ensures P (fail r)

module _ {ℓ κ} {A : Type ℓ} {B : Type κ} where
  pub Ensures-bind :
      (P : A → Type 0) (Q : B → Type 0) {m : Outcome A} (f : A → Outcome B)
      → Ensures P m
      → ((a : A) → P a → Ensures Q (f a))
      → Ensures Q (m >>= f)
  Ensures-bind P Q f (passes a h) g = g a h
  Ensures-bind P Q f (fails r) g = fails r

module _ {ℓ} {A : Type ℓ} where
  pub Ensures-reject :
      (Q : A → Type 0) (b : Bool) (r : LoadResult) (m : Outcome A)
      → (b ≡ false → Ensures Q m)
      → Ensures Q (reject b r >>= λ _. m)
  Ensures-reject Q true r m h = fails r
  Ensures-reject Q false r m h = h refl

  pub Ensures-skip :
      (Q : A → Type 0) (b : Bool) (r : LoadResult) {m : Outcome A}
      → Ensures Q m
      → Ensures Q (reject b r >>= λ _. m)
  Ensures-skip Q true r h = fails r
  Ensures-skip Q false r h = h

  pub Ensures-imp :
      (P Q : A → Type 0) {m : Outcome A} → Ensures P m → ((a : A) → P a → Q a) → Ensures Q m
  Ensures-imp P Q (passes a h) f = passes a (f a h)
  Ensures-imp P Q (fails r) f = fails r

  pub Ensures-ne-fault : (P : A → Type 0) {m : Outcome A} → Ensures P m → m ≢ fault
  Ensures-ne-fault P (passes a h) e = cc
  Ensures-ne-fault P (fails r) e = cc

  pub Ensures-pass : (P : A → Type 0) {m : Outcome A} {a : A} → Ensures P m → m ≡ pass a → P a
  Ensures-pass P (passes b h) e = subst P (cc) h
  Ensures-pass P (fails r) e = cc

pub Ensures-of :
    (P : Type 0) (m : Outcome (Unit {0})) → m ≢ fault → (m ≡ pass tt → P) → Ensures (λ _. P) m
Ensures-of P (pass a) h f = passes a (f refl)
Ensures-of P (fail r) h f = fails r
Ensures-of P fault h f = absurd (h refl)

-- A segment of a file of `n` bytes: in user space, backed by bytes of the file, and never both
-- writable (bit 1) and executable (bit 0).
pub record Fits (n : ℕ) (s : Segment) : Type 0 where
  pub low : min_user_vaddr ≤ s.virtual_address
  pub high : s.virtual_address + s.memory_size ≤ max_user_vaddr + 1
  pub positive : 0 < s.memory_size
  pub backed : s.file_size ≤ s.memory_size
  pub in_file : s.file_offset + s.file_size ≤ n
  pub write_xor_execute : (s.flags / 2 % 2) + (s.flags % 2) ≤ 1

abbrev pub Disjoint : Segment → Segment → Type 0
Disjoint s t =
    (s.virtual_address + s.memory_size ≤ t.virtual_address)
    ⊎ (t.virtual_address + t.memory_size ≤ s.virtual_address)

-- The segment has a byte on the 4096-byte page `q`.
abbrev pub OnPage : ℕ → Segment → Type 0
OnPage q s = (s.virtual_address / 4096 ≤ q) × (q ≤ (s.virtual_address + s.memory_size - 1) / 4096)

-- No page has bytes of both, one of which makes it writable and the other executable.
abbrev pub PagesApart : Segment → Segment → Type 0
PagesApart s t =
    (q : ℕ)
    → OnPage q s
    → OnPage q t
    → ((s.flags / 2 % 2) * (t.flags % 2)) + ((t.flags / 2 % 2) * (s.flags % 2)) ≡ 0

abbrev pub Any : (Segment → Type 0) → List Segment → Type 0
Any P [] = ⊥
Any P (s ∷ rest) = P s ⊎ Any P rest

-- The address lies in executable bytes that come from the file.
abbrev pub Enters : ℕ → Segment → Type 0
Enters address s =
    (s.flags % 2 ≡ 1) × (s.virtual_address ≤ address) × (address < s.virtual_address + s.file_size)

abbrev pub Between : ℕ → ℕ → Segment → Type 0
Between base end_ s = (base ≤ s.virtual_address) × (s.virtual_address + s.memory_size ≤ end_)

-- A plan for a file of `n` bytes.
pub record IsSound (n : ℕ) (p : Plan) : Type 0 where
  pub some_segment : 0 < length p.segments
  pub few_segments : length p.segments ≤ max_load_segments
  pub fits : All (Fits n) p.segments
  pub disjoint : Pairwise Disjoint p.segments
  pub pages_apart : Pairwise PagesApart p.segments
  pub enters : Any (Enters p.entry_point) p.segments
  pub spans : p.virtual_base + p.image_span ≡ p.virtual_end
  pub span_bounds : (0 < p.image_span) × (p.image_span ≤ max_image_span)
  pub between : All (Between p.virtual_base p.virtual_end) p.segments
