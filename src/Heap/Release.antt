-- ===== src/Heap/Release.antt =====
-- The search of `kfree` and the release of one block of the chain.
use nostalux_os.Base.{
  add64, sub64, ℕ, ◌+◌, ◌%◌, ◌^◌, ◌≤◌, ◌<◌, ◌≡◌, refl, ap, ◌∙◌, ◌≢◌, inl, inr, Bool, true, false,
  none, some, List, [], ◌∷◌, arith, leb, ◌==◌, ==→eq, Bool-cases,
}
use nostalux_os.Heap.{
  Block, header_size, payload, Carved, take_block, fits, carve, find_block, merge_next, release,
}
use nostalux_os.Heap.Blocks.{
  Chain, Apart, Filled, used_bytes, live, remove, lookup, Chain-le, live-Spread, remove_head,
  remove_tail, lookup_below,
}
use nostalux_os.Heap.Carve.{Took, carve-cases, carve-Took}

-- A free block whose neighbour is in use takes in nothing.
merge_next_used : (b : Block) (bs : List Block) → Apart true bs → merge_next b bs ≡ b ∷ bs
unfolding merge_next
merge_next_used b [] h = refl
merge_next_used b (c ∷ cs) h = ground arith

-- The block that is given back.
pub record Freed (p n a : ℕ) (bs : List Block) (e : ℕ) (cs : List Block) : Type 0 where
  pub chain : Chain a cs e
  pub filled : Filled cs
  pub live_eq : live cs ≡ remove p (live bs)
  pub used_eq : used_bytes cs + n ≡ used_bytes bs

merge_next-Freed :
    (a : ℕ) (b : Block) (bs : List Block) (e : ℕ)
    → Chain a (b ∷ bs) e
    → Filled (b ∷ bs)
    → e < 2 ^ 64
    → b.is_free ≡ false
    → Freed (payload b) b.size a (b ∷ bs) e (merge_next (record b { is_free = true }) bs)
unfolding merge_next
merge_next-Freed a b [] e ch f he h = ground (arith, remove_head (payload b) b.size (live []))
merge_next-Freed a b (c ∷ cs) e ch f he h = ground (
  arith,
  remove_head (payload b) b.size (live (c ∷ cs)),
  Chain-le (a + header_size + b.size + header_size + c.size) cs e ch.3.3,
)

-- The search finds the first block with the payload, and `release` changes that block.
pub release-Freed :
    (p a : ℕ) (bs : List Block) (e : ℕ) {b : Block}
    → Chain a bs e
    → Filled bs
    → e < 2 ^ 64
    → find_block p bs ≡ some b
    → b.is_free ≡ false
    → Freed p b.size a bs e (release p bs)
unfolding find_block release
release-Freed p a [] e ch f he found h = cc
release-Freed p a (c ∷ cs) e {b} ch f he found h = elim (Bool-cases (payload c == p)) [
  | inl hit ↦ ground (arith, merge_next-Freed a c cs e ch f he, ==→eq (payload c) p hit)
  | inr miss ↦ ground (
    arith,
    release-Freed p (a + header_size + c.size) cs e {b = b} ch.3 f.1 he,
    remove_tail p (payload c) c.size (live cs),
  )
]

-- A pointer that the search does not find, or finds at a free block, is no region in use.
pub find_block-none : (p : ℕ) (bs : List Block) → find_block p bs ≡ none → lookup p (live bs) ≡ none
unfolding find_block
find_block-none p [] h = refl
find_block-none p (b ∷ bs) h = ground (arith, find_block-none p bs)

pub find_block-free :
    (p a : ℕ) (bs : List Block) (e : ℕ) {b : Block}
    → Chain a bs e
    → Filled bs
    → e < 2 ^ 64
    → find_block p bs ≡ some b
    → b.is_free ≡ true
    → lookup p (live bs) ≡ none
unfolding find_block
find_block-free p a [] e ch f he found h = refl
find_block-free p a (c ∷ cs) e {b} ch f he found h = ground (
  arith,
  Chain-le (a + header_size + c.size) cs e ch.3,
  find_block-free p (a + header_size + c.size) cs e {b = b} ch.3 f.1 he,
  lookup_below p (a + header_size + c.size) (live cs) e,
  live-Spread (a + header_size + c.size) cs e ch.3 f.1 he,
)

release_head :
    (b : Block) (bs : List Block)
    → release (payload b) (b ∷ bs) ≡ merge_next (record b { is_free = true }) bs
unfolding release
release_head b bs = ground arith

release_tail :
    (p : ℕ) (b : Block) (bs : List Block) → payload b ≢ p → release p (b ∷ bs) ≡ b ∷ release p bs
unfolding release
release_tail p b bs h = ground arith

-- The two halves of a block that was split.
abbrev front : ℕ → Block → Block
front n b = record b { size = n; is_free = true }

abbrev back : ℕ → Block → Block
back n b = record {
  addr = add64 (payload b) n;
  size = sub64 (sub64 b.size n) header_size;
  is_free = true;
}

merge_next-halves :
    (n a : ℕ) (b : Block) (bs : List Block) (e : ℕ)
    → b.is_free ≡ true
    → n + header_size ≤ b.size
    → Chain a (b ∷ bs) e
    → e < 2 ^ 64
    → merge_next (front n b) (back n b ∷ bs) ≡ b ∷ bs
unfolding merge_next
merge_next-halves n a b bs e hb hn ch he =
    ground (arith, Chain-le (a + header_size + b.size) bs e ch.3)

-- `kfree` after `kmalloc`: releasing the block that was carved restores the chain.
release-take_block :
    (n a : ℕ) (b : Block) (bs : List Block) (e : ℕ)
    → 16 ≤ n
    → fits n b ≡ true
    → Chain a (b ∷ bs) e
    → e < 2 ^ 64
    → Apart b.is_free bs
    → release (take_block n b bs).pointer (take_block n b bs).chain ≡ b ∷ bs
unfolding take_block
release-take_block n a b bs e h16 hit ch he far =
    elim (Bool-cases (leb (add64 (add64 n header_size) 16) b.size)) [
      | inl big ↦ rw big (
          release_head (record b { size = n; is_free = false }) (back n b ∷ bs)
          ∙ merge_next-halves n a b bs e (ground arith)
              (ground (arith, Chain-le (a + header_size + b.size) bs e ch.3)) ch he)
      | inr small ↦
          rw small
            (release_head (record b { is_free = false }) bs ∙ ground (arith, merge_next_used b bs))
    ]

pub release-carve :
    (n a : ℕ) (p : Bool) (bs : List Block) (e : ℕ) {c : Carved}
    → n % 16 ≡ 0
    → 16 ≤ n
    → Chain a bs e
    → Filled bs
    → e < 2 ^ 64
    → Apart p bs
    → carve n bs ≡ some c
    → release c.pointer c.chain ≡ bs
unfolding carve
release-carve n a p [] e hn h16 ch f he far eq = cc
release-carve n a p (b ∷ bs) e hn h16 ch f he far eq = elim (carve-cases n b bs eq) [
  | inl (hit, eq') ↦ rw (← eq') (release-take_block n a b bs e h16 hit ch he far.1)
  | inr (miss, c', found, eq') ↦
      let t : Took n (a + header_size + b.size) bs e c' =
        carve-Took n (a + header_size + b.size) bs e hn h16 ch.3 f.1 he found in
      rw (← eq') (
        release_tail c'.pointer b c'.chain
          (omega (arith, t.within, Chain-le (a + header_size + b.size) bs e ch.3))
        ∙ ap (◌∷◌ b) (
            release-carve n (a + header_size + b.size) b.is_free bs e hn h16 ch.3 f.1 he far.1
              found))
]
