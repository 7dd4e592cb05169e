-- ===== src/Heap/Blocks.antt =====
-- The chain of blocks of kernel/heap.c: its invariant, and the allocations that it stands for.
use nostalux_os.Base.{
  ℕ, ◌+◌, ◌%◌, ◌^◌, ◌≤◌, ◌<◌, ◌≡◌, refl, ◌≢◌, Bool, true, false, ◌&&◌, Option, none, some, List, [],
  ◌∷◌, arith, ltb, ◌==◌, if◌then◌else◌,
}
use nostalux_os.Heap.{Block, header_size, Heap, payload}

-- The blocks lie end to end from `a` to `e`, each header at a multiple of 16 other than 0.
abbrev pub Chain : ℕ → List Block → ℕ → Type 0
Chain a [] e = a ≡ e
Chain a (b ∷ bs) e = (b.addr ≡ a) × (0 < a) × (a % 16 ≡ 0) × Chain (a + header_size + b.size) bs e

-- No two neighbours are free; `p` says whether the block before the list is.
abbrev pub Apart : Bool → List Block → Type 0
Apart p [] = Unit {0}
Apart p (b ∷ bs) = ((p && b.is_free) ≡ false) × Apart b.is_free bs

-- A block in use holds 16 bytes or more.
abbrev pub Filled : List Block → Type 0
Filled [] = Unit {0}
Filled (b ∷ bs) = (16 ≤ (if b.is_free then 16 else b.size)) × Filled bs

-- The bytes of the blocks in use, and of the free ones.
abbrev pub used_bytes : List Block → ℕ
used_bytes [] = 0
used_bytes (b ∷ bs) = if b.is_free then used_bytes bs else b.size + used_bytes bs

abbrev pub free_bytes : List Block → ℕ
free_bytes [] = 0
free_bytes (b ∷ bs) = if b.is_free then b.size + free_bytes bs else free_bytes bs

-- The abstract view: the payload address and the size of each block in use, by address.
abbrev pub Regions : Type 0
Regions = List (ℕ × ℕ)

abbrev pub live : List Block → Regions
live [] = []
live (b ∷ bs) = if b.is_free then live bs else (payload b, b.size) ∷ live bs

-- The abstract operations.
pub insert : ℕ → ℕ → Regions → Regions
insert p n [] = (p, n) ∷ []
insert p n ((q, m) ∷ r) = if ltb p q then (p, n) ∷ (q, m) ∷ r else (q, m) ∷ insert p n r

pub remove : ℕ → Regions → Regions
remove p [] = []
remove p ((q, m) ∷ r) = if q == p then r else (q, m) ∷ remove p r

abbrev pub lookup : ℕ → Regions → Option ℕ
lookup p [] = none
lookup p ((q, m) ∷ r) = if q == p then some m else lookup p r

-- The regions lie between `lo` and `hi` in order, apart by a header, at multiples of 16, and each
-- holds 16 bytes or more.
abbrev pub Spread : ℕ → Regions → ℕ → Type 0
Spread lo [] hi = lo ≤ hi
Spread lo ((p, n) ∷ r) hi = (lo + header_size ≤ p) × (p % 16 ≡ 0) × (16 ≤ n) × Spread (p + n) r hi

pub record IsValid (h : Heap) : Type 0 where
  pub chain : Chain h.start h.head h.end
  pub in_space : h.end < 2 ^ 64
  pub extent : h.start + h.total_size ≡ h.end
  pub accounting : h.used_size ≡ used_bytes h.head
  pub apart : Apart false h.head
  pub filled : Filled h.head

pub Chain-le : (a : ℕ) (bs : List Block) (e : ℕ) → Chain a bs e → a ≤ e
Chain-le a [] e c = omega arith
Chain-le a (b ∷ bs) e c = omega (arith, Chain-le (a + header_size + b.size) bs e c.3)

pub Chain-used-le : (a : ℕ) (bs : List Block) (e : ℕ) → Chain a bs e → a + used_bytes bs ≤ e
Chain-used-le a [] e c = omega arith
Chain-used-le a (b ∷ bs) e c = ground (arith, Chain-used-le (a + header_size + b.size) bs e c.3)

pub Spread-le : (lo : ℕ) (r : Regions) (hi : ℕ) → Spread lo r hi → lo ≤ hi
Spread-le lo [] hi s = s
Spread-le lo ((p, n) ∷ r) hi s = omega (arith, Spread-le (p + n) r hi s.3)

pub Spread-weaken :
    (lo lo' : ℕ) (r : Regions) (hi : ℕ) → lo' ≤ lo → Spread lo r hi → Spread lo' r hi
Spread-weaken lo lo' [] hi h s = omega arith
Spread-weaken lo lo' ((p, n) ∷ r) hi h s = (omega arith, s.1, s.2, s.3)

pub live-Spread :
    (a : ℕ) (bs : List Block) (e : ℕ) → Chain a bs e → Filled bs → e < 2 ^ 64 → Spread a (live bs) e
live-Spread a [] e c f h = omega arith
live-Spread a (b ∷ bs) e c f h = ground (
  arith,
  Chain-le (a + header_size + b.size) bs e c.3,
  live-Spread (a + header_size + b.size) bs e c.3 f.1 h,
  Spread-weaken (a + header_size + b.size) a (live bs) e,
)

pub insert_front :
    (p n lo : ℕ) (r : Regions) (hi : ℕ) → p ≤ lo → Spread lo r hi → insert p n r ≡ (p, n) ∷ r
unfolding insert
insert_front p n lo [] hi h s = ground arith
insert_front p n lo ((q, m) ∷ r) hi h s = ground arith

pub insert_behind :
    (p n q m : ℕ) (r r' : Regions)
    → q ≤ p
    → r' ≡ insert p n r
    → ◌≡◌ {A = Regions} ((q, m) ∷ r') (insert p n ((q, m) ∷ r))
unfolding insert
insert_behind p n q m r r' h e = ground arith

pub remove-insert : (p n : ℕ) (r : Regions) → lookup p r ≡ none → remove p (insert p n r) ≡ r
unfolding remove insert
remove-insert p n [] h = ground arith
remove-insert p n ((q, m) ∷ r) h = ground (arith, remove-insert p n r)

pub lookup-insert : (p n : ℕ) (r : Regions) → lookup p r ≡ none → lookup p (insert p n r) ≡ some n
unfolding insert
lookup-insert p n [] h = ground arith
lookup-insert p n ((q, m) ∷ r) h = ground (arith, lookup-insert p n r)

pub remove_head : (p n : ℕ) (r : Regions) → remove p ((p, n) ∷ r) ≡ r
unfolding remove
remove_head p n r = ground arith

pub remove_tail : (p q n : ℕ) (r : Regions) → q ≢ p → remove p ((q, n) ∷ r) ≡ (q, n) ∷ remove p r
unfolding remove
remove_tail p q n r h = ground arith

-- A pointer that is not the start of a region.
pub remove-lookup-none : (p : ℕ) (r : Regions) → lookup p r ≡ none → remove p r ≡ r
unfolding remove
remove-lookup-none p [] h = refl
remove-lookup-none p ((q, m) ∷ r) h = ground (arith, remove-lookup-none p r)

pub lookup_below :
    (p lo : ℕ) (r : Regions) (hi : ℕ) → Spread lo r hi → p < lo + header_size → lookup p r ≡ none
lookup_below p lo [] hi s h = refl
lookup_below p lo ((q, m) ∷ r) hi s h = ground (arith, lookup_below p (q + m) r hi s.3)

pub lookup_above : (p lo : ℕ) (r : Regions) (hi : ℕ) → Spread lo r hi → hi ≤ p → lookup p r ≡ none
lookup_above p lo [] hi s h = refl
lookup_above p lo ((q, m) ∷ r) hi s h =
    ground (arith, lookup_above p (q + m) r hi s.3, Spread-le (q + m) r hi s.3)

pub lookup_unaligned :
    (p lo : ℕ) (r : Regions) (hi : ℕ) → Spread lo r hi → p % 16 ≢ 0 → lookup p r ≡ none
lookup_unaligned p lo [] hi s h = refl
lookup_unaligned p lo ((q, m) ∷ r) hi s h = ground (arith, lookup_unaligned p (q + m) r hi s.3)

pub Apart-false : (bs : List Block) → Apart true bs → Apart false bs
Apart-false [] h = tt
Apart-false (b ∷ bs) h = (refl, h.1)
