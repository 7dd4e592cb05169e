-- ===== src/Heap/Free.antt =====
-- What `kfree` promises, against the map of the regions in use.
use nostalux_os.Base.{
  ℕ, ◌+◌, ◌-◌, ◌^◌, ◌<◌, ◌≡◌, sym, ap, ◌∙◌, inl, inr, true, false, none, some, List, [], ◌∷◌, arith,
  Bool-cases, Option-cases,
}
use nostalux_os.Base.Bits.{bit_and-fifteen}
use nostalux_os.Heap.{
  Block, Message, Heap, align_size, kmalloc, find_block, release, merge_pass, discharge, plausible,
  kfree,
}
use nostalux_os.Heap.Blocks.{
  IsValid, Chain, Filled, live, remove, lookup, Chain-le, Chain-used-le, live-Spread, lookup-insert,
  remove-lookup-none, lookup_below, lookup_above, lookup_unaligned,
}
use nostalux_os.Heap.Carve.{align_size_lem}
use nostalux_os.Heap.Malloc.{kmalloc-Success, Success-Took, kmalloc-Success-IsValid}
use nostalux_os.Heap.Merge.{merge_pass-Same, merge_pass-Apart, merge_pass-eq_self}
use nostalux_os.Heap.Release.{release-Freed, find_block-none, find_block-free, release-carve}

-- The searches of `kfree` agree with the regions in use.
find_block-live :
    (p : ℕ) (bs : List Block) {b : Block}
    → find_block p bs ≡ some b
    → b.is_free ≡ false
    → lookup p (live bs) ≡ some b.size
unfolding find_block
find_block-live p [] found h = cc
find_block-live p (c ∷ cs) {b} found h = ground (arith, find_block-live p cs {b = b})

lookup-find_block :
    (p a : ℕ) (bs : List Block) (e : ℕ) {n : ℕ}
    → Chain a bs e
    → Filled bs
    → e < 2 ^ 64
    → lookup p (live bs) ≡ some n
    → (b : Block) × (find_block p bs ≡ some b) × (b.is_free ≡ false) × (b.size ≡ n)
lookup-find_block p a bs e ch f he look = elim (Option-cases (find_block p bs)) [
  | inl e' ↦ cc (find_block-none p bs e')
  | inr (b, e') ↦ elim (Bool-cases b.is_free) [
    | inl free ↦ cc (find_block-free p a bs e ch f he e' free)
    | inr busy ↦ (b, e', busy, ground (arith, find_block-live p bs e' busy))
  ]
]

lookup-plausible :
    (p : ℕ) (h : Heap) {n : ℕ} → IsValid h → lookup p (live h.head) ≡ some n → plausible p h ≡ true
unfolding plausible
lookup-plausible p h v look =
    let s = live-Spread h.start h.head h.end v.chain v.filled v.in_space in
    grind (
      arith,
      bit_and-fifteen p,
      Chain-le h.start h.head h.end v.chain,
      lookup_below p h.start (live h.head) h.end s,
      lookup_above p h.start (live h.head) h.end s,
      lookup_unaligned p h.start (live h.head) h.end s,
    )

-- `kfree` of a pointer in use.
kfree-live-eq :
    (p : ℕ) (h : Heap) {n : ℕ}
    → IsValid h
    → lookup p (live h.head) ≡ some n
    → kfree p h ≡ record h { head = merge_pass (release p h.head); used_size = h.used_size - n }
unfolding kfree discharge
kfree-live-eq p h v look =
    let (b, found, busy, e) =
      lookup-find_block p h.start h.head h.end v.chain v.filled v.in_space look in
    let f = release-Freed p h.start h.head h.end v.chain v.filled v.in_space found busy in
    ground (
      arith,
      lookup-plausible p h v look,
      f,
      lookup_below p h.start (live h.head) h.end
          (live-Spread h.start h.head h.end v.chain v.filled v.in_space),
    )

-- `kfree` of any other pointer.
kfree_dead-eq :
    (p : ℕ) (h : Heap)
    → IsValid h
    → lookup p (live h.head) ≡ none
    → (m : List Message) × (kfree p h ≡ record h { log = m })
unfolding kfree
kfree_dead-eq p h v look = elim (Option-cases (find_block p h.head)) [
  | inl e ↦ ((kfree p h).log, ground arith)
  | inr (b, e) ↦ elim (Bool-cases b.is_free) [
    | inl free ↦ ((kfree p h).log, ground arith)
    | inr busy ↦ cc (find_block-live p h.head e busy)
  ]
]

kfree-live-IsValid :
    (p : ℕ) (h : Heap) {n : ℕ}
    → IsValid h
    → lookup p (live h.head) ≡ some n
    → IsValid (kfree p h)
      × (live (kfree p h).head ≡ remove p (live h.head))
      × ((kfree p h).used_size + n ≡ h.used_size)
      × ((kfree p h).log ≡ h.log)
kfree-live-IsValid p h v look =
    let (b, found, busy, e) =
      lookup-find_block p h.start h.head h.end v.chain v.filled v.in_space look in
    let f = release-Freed p h.start h.head h.end v.chain v.filled v.in_space found busy in
    let m = merge_pass-Same h.start (release p h.head) h.end f.chain f.filled v.in_space in
    rw (kfree-live-eq p h v look)
      (ground (arith, f, m, v.accounting, merge_pass-Apart (release p h.head)))

-- `kfree` keeps the heap valid, for every pointer.
pub kfree-IsValid : (p : ℕ) (h : Heap) → IsValid h → IsValid (kfree p h)
kfree-IsValid p h v = elim (Option-cases (lookup p (live h.head))) [
  | inl e ↦ let (m, eq) = kfree_dead-eq p h v e in rw eq (ground arith)
  | inr (n, e) ↦ (kfree-live-IsValid p h v e).0
]

-- `kfree` removes the region that starts at the pointer from the regions in use and nothing else;
-- for any other pointer (null, foreign, misaligned, freed before) it removes nothing.
pub kfree_refines : (p : ℕ) (h : Heap) → IsValid h → live (kfree p h).head ≡ remove p (live h.head)
kfree_refines p h v = elim (Option-cases (lookup p (live h.head))) [
  | inl e ↦
      let (m, eq) = kfree_dead-eq p h v e in rw eq (sym (remove-lookup-none p (live h.head) e))
  | inr (n, e) ↦ (kfree-live-IsValid p h v e).1
]

-- A pointer that is not in use changes neither the chain nor the accounting.
pub kfree_ignores :
    (p : ℕ) (h : Heap)
    → IsValid h
    → lookup p (live h.head) ≡ none
    → ((kfree p h).head ≡ h.head) × ((kfree p h).used_size ≡ h.used_size)
kfree_ignores p h v look =
    let (m, eq) = kfree_dead-eq p h v look in
    (ap (λ (k : Heap). k.head) eq, ap (λ (k : Heap). k.used_size) eq)

-- Freeing what was just allocated gives the whole heap back: the same chain, with every split
-- undone, and the same accounting.
pub kfree-kmalloc :
    (size : ℕ) (h : Heap) {h' : Heap} {p : ℕ}
    → IsValid h
    → kmalloc size h ≡ (h', some p)
    → kfree p h' ≡ h
kfree-kmalloc size h {h'} {p} v eq =
    let (c, s) = kmalloc-Success size h eq in
    let t = Success-Took size h v s in
    let a = align_size_lem size s.positive s.small in
    let w = kmalloc-Success-IsValid size h v s in
    let r =
      release-carve (align_size size) h.start false h.head h.end a.0 (omega arith) v.chain v.filled
        v.in_space v.apart s.carved in
    let look : lookup p (live h'.head) ≡ some c.taken =
      ground (arith, t, lookup-insert c.pointer c.taken (live h.head)) in
    kfree-live-eq p h' {n = c.taken} w look
    ∙ ground (
      arith,
      t,
      v.accounting,
      r,
      merge_pass-eq_self h.head v.apart,
      Chain-used-le h.start c.chain h.end t.chain,
    )
