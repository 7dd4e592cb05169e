-- ===== src/Heap/Malloc.antt =====
-- What `heap_init` and `kmalloc` promise, against the map of the regions in use.
use nostalux_os.Base.{
  add64, ℕ, ◌+◌, ◌-◌, ◌%◌, ◌^◌, ◌≤◌, ◌<◌, ◌≡◌, inl, inr, false, none, some, [], arith, Option-cases,
}
use nostalux_os.Heap.{Heap, heap_init, Carved, carve, align_size, kmalloc}
use nostalux_os.Heap.Blocks.{IsValid, live, insert, lookup, Chain-used-le}
use nostalux_os.Heap.Carve.{align_size_lem, Took, carve-Took, NoRoom, carve-Apart}

-- A heap that is installed at a nonzero address below 2^64 is valid and has no region in use.
pub heap_init-IsValid :
    (start size : ℕ) (h : Heap)
    → 0 < start
    → start + size < 2 ^ 64
    → IsValid (heap_init start size h) × (live (heap_init start size h).head ≡ [])
unfolding heap_init
heap_init-IsValid start size h hs he = ground arith

-- The calls of `kmalloc` that return a pointer, and those that return NULL.
pub record Success (size : ℕ) (h : Heap) (h' : Heap) (p : ℕ) (c : Carved) : Type 0 where
  pub positive : 0 < size
  pub small : size ≤ 2 ^ 64 - 16
  pub carved : carve (align_size size) h.head ≡ some c
  pub after : h' ≡ record h { head = c.chain; used_size = add64 h.used_size c.taken }
  pub pointer : p ≡ c.pointer

pub kmalloc-Success :
    (size : ℕ) (h : Heap) {h' : Heap} {p : ℕ}
    → kmalloc size h ≡ (h', some p)
    → (c : Carved) × Success size h h' p c
unfolding kmalloc
kmalloc-Success size h eq = elim (Option-cases (carve (align_size size) h.head)) [
  | inl e ↦ ground arith
  | inr (c, e) ↦ (c, ground arith)
]

pub Success-Took :
    (size : ℕ) (h : Heap) {h' : Heap} {p : ℕ} {c : Carved}
    → IsValid h
    → Success size h h' p c
    → Took (align_size size) h.start h.head h.end c
Success-Took size h v s =
    let a = align_size_lem size s.positive s.small in
    carve-Took (align_size size) h.start h.head h.end a.0 (omega arith) v.chain v.filled v.in_space
      s.carved

pub kmalloc-Success-IsValid :
    (size : ℕ) (h : Heap) {h' : Heap} {p : ℕ} {c : Carved}
    → IsValid h
    → Success size h h' p c
    → IsValid h'
kmalloc-Success-IsValid size h {c = c} v s = ground (
  arith,
  Success-Took size h v s,
  carve-Apart (align_size size) false h.head v.apart s.carved,
  Chain-used-le h.start c.chain h.end,
)

kmalloc_null-IsValid :
    (size : ℕ) (h : Heap) → IsValid h → (kmalloc size h).1 ≡ none → IsValid (kmalloc size h).0
unfolding kmalloc
kmalloc_null-IsValid size h v e = ground arith

-- `kmalloc` keeps the heap valid, whether it succeeds or not.
pub kmalloc-IsValid : (size : ℕ) (h : Heap) → IsValid h → IsValid (kmalloc size h).0
kmalloc-IsValid size h v = elim (Option-cases (kmalloc size h).1) [
  | inl e ↦ kmalloc_null-IsValid size h v e
  | inr (p, e) ↦
      let s = kmalloc-Success size h {h' = (kmalloc size h).0} {p = p} (ground arith) in
      kmalloc-Success-IsValid size h v s.1
]

-- A pointer that `kmalloc` returns is a new region of the wanted size or more at a multiple of 16,
-- and the other regions stay as they are.
pub kmalloc_refines :
    (size : ℕ) (h : Heap) {h' : Heap} {p : ℕ}
    → IsValid h
    → kmalloc size h ≡ (h', some p)
    → (n : ℕ) × (size ≤ n)
      × (p % 16 ≡ 0)
      × (lookup p (live h.head) ≡ none)
      × (live h'.head ≡ insert p n (live h.head))
      × (h'.used_size ≡ h.used_size + n)
kmalloc_refines size h v eq =
    let (c, s) = kmalloc-Success size h eq in
    let t = Success-Took size h v s in
    let a = align_size_lem size s.positive s.small in
    (
      c.taken,
      ground (arith, t, a),
      ground (arith, t),
      ground (arith, t),
      ground (arith, t),
      ground (arith, t, v.accounting, Chain-used-le h.start c.chain h.end t.chain),
    )

-- Why `kmalloc` cannot serve a request: a size of 0, a size that cannot be rounded up in 64 bits, or no
-- free block that is large enough.
pub data Refused (size : ℕ) (h : Heap) : Type 0 where
  refused_empty : size ≡ 0 → Refused size h
  refused_overflow : 2 ^ 64 - 16 < size → Refused size h
  refused_full : NoRoom (align_size size) h.head → Refused size h

-- What a call that returns NULL keeps: all but the messages.
pub record Keeps (h h' : Heap) : Type 0 where
  pub head : h'.head ≡ h.head
  pub total_size : h'.total_size ≡ h.total_size
  pub used_size : h'.used_size ≡ h.used_size
  pub start : h'.start ≡ h.start
  pub end : h'.end ≡ h.end
