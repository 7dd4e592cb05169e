-- ===== src/Heap/Merge.antt =====
-- The global merge pass of `kfree` over the chain.
use nostalux_os.Base.{
  ℕ, ◌+◌, ◌^◌, ◌<◌, ◌≡◌, refl, ap, inl, inr, Bool, true, false, ◌&&◌, List, [], ◌∷◌, arith,
  Bool-cases,
}
use nostalux_os.Heap.{Block, header_size, absorb, coalesce, merge_pass}
use nostalux_os.Heap.Blocks.{Chain, Apart, Filled, used_bytes, live, Chain-le}

-- What a merge keeps.
pub record Same (a : ℕ) (bs : List Block) (e : ℕ) (cs : List Block) : Type 0 where
  pub chain : Chain a cs e
  pub filled : Filled cs
  pub live_eq : live cs ≡ live bs
  pub used_eq : used_bytes cs ≡ used_bytes bs

absorb-Same :
    (a : ℕ) (b c : Block) (cs : List Block) (e : ℕ)
    → Chain a (b ∷ c ∷ cs) e
    → Filled (b ∷ c ∷ cs)
    → e < 2 ^ 64
    → b.is_free ≡ true
    → c.is_free ≡ true
    → Same a (b ∷ c ∷ cs) e (absorb b c ∷ cs)
absorb-Same a b c cs e ch f he hb hc =
    ground (arith, Chain-le (a + header_size + b.size + header_size + c.size) cs e ch.3.3)

Same-cons :
    (a : ℕ) (b : Block) (bs : List Block) (e : ℕ) {cs : List Block}
    → Chain a (b ∷ bs) e
    → Filled (b ∷ bs)
    → Same (a + header_size + b.size) bs e cs
    → Same a (b ∷ bs) e (b ∷ cs)
Same-cons a b bs e ch f s = ground arith

Same-trans :
    (a : ℕ) (bs cs : List Block) (e : ℕ) {ds : List Block}
    → Same a bs e cs
    → Same a cs e ds
    → Same a bs e ds
Same-trans a bs cs e s t = ground arith

-- The merge pass keeps the chain and the regions in use.
coalesce-Same :
    (a : ℕ) (b : Block) (bs : List Block) (e : ℕ)
    → Chain a (b ∷ bs) e
    → Filled (b ∷ bs)
    → e < 2 ^ 64
    → Same a (b ∷ bs) e (coalesce b bs)
unfolding coalesce
coalesce-Same a b [] e ch f he = ground arith
coalesce-Same a b (c ∷ cs) e ch f he = elim (Bool-cases (b.is_free && c.is_free)) [
  | inl both ↦
      let s : Same a (b ∷ c ∷ cs) e (absorb b c ∷ cs) =
        absorb-Same a b c cs e ch f he (ground arith) (ground arith) in
      rw (both, coalesce)
        (Same-trans a (b ∷ c ∷ cs) (absorb b c ∷ cs) e s
          (coalesce-Same a (absorb b c) cs e s.chain s.filled he))
  | inr one ↦
      rw (one, coalesce)
        (Same-cons a b (c ∷ cs) e ch f
          (coalesce-Same (a + header_size + b.size) c cs e ch.3 f.1 he))
]

pub merge_pass-Same :
    (a : ℕ) (bs : List Block) (e : ℕ)
    → Chain a bs e
    → Filled bs
    → e < 2 ^ 64
    → Same a bs e (merge_pass bs)
unfolding merge_pass
merge_pass-Same a [] e ch f he = ground arith
merge_pass-Same a (b ∷ bs) e ch f he = coalesce-Same a b bs e ch f he

-- After the pass no two free blocks are neighbours.
coalesce-Apart :
    (p : Bool) (b : Block) (bs : List Block) → (p && b.is_free) ≡ false → Apart p (coalesce b bs)
unfolding coalesce
coalesce-Apart p b [] h = ground arith
coalesce-Apart p b (c ∷ cs) h = elim (Bool-cases (b.is_free && c.is_free)) [
  | inl both ↦ rw (both, coalesce) (coalesce-Apart p (absorb b c) cs h)
  | inr one ↦ rw (one, coalesce) (h, coalesce-Apart b.is_free c cs one)
]

pub merge_pass-Apart : (bs : List Block) → Apart false (merge_pass bs)
unfolding merge_pass
merge_pass-Apart [] = tt
merge_pass-Apart (b ∷ bs) = coalesce-Apart false b bs refl

-- A chain that needs no merge is left alone.
coalesce-eq_self :
    (p : Bool) (b : Block) (bs : List Block) → Apart p (b ∷ bs) → coalesce b bs ≡ b ∷ bs
unfolding coalesce
coalesce-eq_self p b [] h = refl
coalesce-eq_self p b (c ∷ cs) h =
    rw (h.1.0, coalesce) (ap (◌∷◌ b) (coalesce-eq_self b.is_free c cs h.1))

pub merge_pass-eq_self : (bs : List Block) → Apart false bs → merge_pass bs ≡ bs
unfolding merge_pass
merge_pass-eq_self [] h = refl
merge_pass-eq_self (b ∷ bs) h = coalesce-eq_self false b bs h
