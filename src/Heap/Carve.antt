-- ===== src/Heap/Carve.antt =====
-- The loop of `kmalloc` over the chain.
use nostalux_os.Base.{
  add64, ℕ, ◌+◌, ◌-◌, ◌%◌, ◌^◌, ◌≤◌, ◌<◌, ◌≡◌, refl, ◌⊎◌, inl, inr, Bool, true, false, none, some,
  List, [], ◌∷◌, arith, Bool-cases, Option-cases,
}
use nostalux_os.Base.Bits.{bit_and-align16}
use nostalux_os.Heap.{
  Block, header_size, payload, Carved, take_block, behind, fits, carve, align_size,
}
use nostalux_os.Heap.Blocks.{
  Chain, Apart, Filled, used_bytes, live, insert, lookup, Chain-le, live-Spread, insert_front,
  insert_behind, lookup_below, Apart-false,
}

-- The size is rounded up to the next multiple of 16.
pub align_size_lem :
    (size : ℕ)
    → 0 < size
    → size ≤ 2 ^ 64 - 16
    → (align_size size % 16 ≡ 0) × (size ≤ align_size size) × (align_size size < size + 16)
unfolding align_size
align_size_lem size h k = omega (arith, bit_and-align16 (add64 size 15))

-- What one block gives is the abstract insertion, in a chain that stays well formed.
pub record Took (n a : ℕ) (bs : List Block) (e : ℕ) (c : Carved) : Type 0 where
  pub within : a + header_size ≤ c.pointer
  pub aligned : c.pointer % 16 ≡ 0
  pub enough : n ≤ c.taken
  pub fresh : lookup c.pointer (live bs) ≡ none
  pub chain : Chain a c.chain e
  pub filled : Filled c.chain
  pub accounted : used_bytes c.chain ≡ used_bytes bs + c.taken
  pub inserted : live c.chain ≡ insert c.pointer c.taken (live bs)

module _ (n a : ℕ) (b : Block) (bs : List Block) (e : ℕ) where
  take_block-Took :
      n % 16 ≡ 0
      → 16 ≤ n
      → fits n b ≡ true
      → Chain a (b ∷ bs) e
      → Filled (b ∷ bs)
      → e < 2 ^ 64
      → Took n a (b ∷ bs) e (take_block n b bs)
  unfolding take_block
  take_block-Took hn h16 hf c f he = ground (
    arith,
    Chain-le (a + header_size + b.size) bs e c.3,
    lookup_below (payload b) (a + header_size + b.size) (live bs) e,
    insert_front (payload b) n (a + header_size + b.size) (live bs) e,
    insert_front (payload b) b.size (a + header_size + b.size) (live bs) e,
    live-Spread (a + header_size + b.size) bs e c.3 f.1 he,
  )

-- The two ways in which the loop finds a block.
pub carve-cases :
    (n : ℕ) (b : Block) (bs : List Block) {c : Carved}
    → carve n (b ∷ bs) ≡ some c
    → ((fits n b ≡ true) × (take_block n b bs ≡ c))
      ⊎ ((fits n b ≡ false) × (c' : Carved) × (carve n bs ≡ some c') × (behind b c' ≡ c))
unfolding carve
carve-cases n b bs eq = elim (Bool-cases (fits n b)) [
  | inl hit ↦ inl (hit, ground arith)
  | inr miss ↦ elim (Option-cases (carve n bs)) [
    | inl e ↦ ground arith
    | inr (c', e) ↦ inr (miss, c', e, ground arith)
  ]
]

behind-Took :
    (n a : ℕ) (b : Block) (bs : List Block) (e : ℕ) (c : Carved)
    → Chain a (b ∷ bs) e
    → Filled (b ∷ bs)
    → e < 2 ^ 64
    → Took n (a + header_size + b.size) bs e c
    → Took n a (b ∷ bs) e (behind b c)
behind-Took n a b bs e c ch f he t = ground (
  arith,
  Chain-le (a + header_size + b.size) bs e ch.3,
  insert_behind c.pointer c.taken (payload b) b.size (live bs) (live c.chain),
)

-- The loop hands out one region of the wanted size or more, wherever it finds it.
pub carve-Took :
    (n a : ℕ) (bs : List Block) (e : ℕ) {c : Carved}
    → n % 16 ≡ 0
    → 16 ≤ n
    → Chain a bs e
    → Filled bs
    → e < 2 ^ 64
    → carve n bs ≡ some c
    → Took n a bs e c
unfolding carve
carve-Took n a [] e hn h16 ch f he eq = cc
carve-Took n a (b ∷ bs) e hn h16 ch f he eq = elim (carve-cases n b bs eq) [
  | inl (hit, eq') ↦ rw (← eq') (take_block-Took n a b bs e hn h16 hit ch f he)
  | inr (miss, c', found, eq') ↦ rw (← eq') (
      behind-Took n a b bs e c' ch f he
        (carve-Took n (a + header_size + b.size) bs e hn h16 ch.3 f.1 he found))
]

-- It fails exactly when every free block is smaller than the wanted size.
abbrev pub NoRoom : ℕ → List Block → Type 0
NoRoom n [] = Unit {0}
NoRoom n (b ∷ bs) = (fits n b ≡ false) × NoRoom n bs

pub carve-none : (n : ℕ) (bs : List Block) → carve n bs ≡ none → NoRoom n bs
unfolding carve
carve-none n [] eq = tt
carve-none n (b ∷ bs) eq = ground (arith, carve-none n bs)

pub none-carve : (n : ℕ) (bs : List Block) → NoRoom n bs → carve n bs ≡ none
unfolding carve
none-carve n [] h = refl
none-carve n (b ∷ bs) h = ground (arith, none-carve n bs h.1)

-- No two free blocks become neighbours.
pub carve-Apart :
    (n : ℕ) (p : Bool) (bs : List Block) {c : Carved}
    → Apart p bs
    → carve n bs ≡ some c
    → Apart p c.chain
unfolding carve take_block
carve-Apart n p [] h eq = cc
carve-Apart n p (b ∷ bs) h eq = elim (carve-cases n b bs eq) [
  | inl (hit, eq') ↦ ground (arith, Apart-false bs)
  | inr (miss, c', found, eq') ↦ ground (arith, carve-Apart n b.is_free bs h.1 found)
]
