-- ===== src/Heap/History.antt =====
-- Histories of calls of `heap_init`, `kmalloc` and `kfree`, and what the space reports add up to.
use nostalux_os.Base.{
  add64, ℕ, ◌+◌, ◌*◌, ◌^◌, ◌<◌, ◌≡◌, List, [], ◌∷◌, arith, if◌then◌else◌, length,
}
use nostalux_os.Heap.{
  Block, header_size, Heap, heap_init, kmalloc, kfree, sum_free, heap_free_space, heap_used_space,
}
use nostalux_os.Heap.Blocks.{
  IsValid, Chain, used_bytes, free_bytes, live, Spread, Chain-le, live-Spread,
}
use nostalux_os.Heap.Free.{kfree-IsValid}
use nostalux_os.Heap.Malloc.{heap_init-IsValid, kmalloc-IsValid}

-- The bytes in use, the free bytes and the headers make up the heap.
Chain-bytes :
    (a : ℕ) (bs : List Block) (e : ℕ)
    → Chain a bs e
    → a + used_bytes bs + free_bytes bs + length bs * header_size ≡ e
Chain-bytes a [] e c = omega arith
Chain-bytes a (b ∷ bs) e c = ground (arith, Chain-bytes (a + header_size + b.size) bs e c.3)

sum_free_lem :
    (total a : ℕ) (bs : List Block) (e : ℕ)
    → Chain a bs e
    → total + e < 2 ^ 64 + a
    → sum_free total bs ≡ total + free_bytes bs
unfolding sum_free
sum_free_lem total a [] e c h = omega arith
sum_free_lem total a (b ∷ bs) e c h = ground (
  arith,
  Chain-le (a + header_size + b.size) bs e c.3,
  sum_free_lem (if b.is_free then add64 total b.size else total) (a + header_size + b.size) bs e,
)

-- What `heap_free_space` and `heap_used_space` report, with a header for each block, is the total.
pub heap_free_space-conserved :
    (h : Heap)
    → IsValid h
    → heap_free_space h + heap_used_space h + length h.head * header_size ≡ h.total_size
unfolding heap_free_space heap_used_space
heap_free_space-conserved h v = omega (
  arith,
  v.extent,
  Chain-bytes h.start h.head h.end v.chain,
  sum_free_lem 0 h.start h.head h.end v.chain (omega arith),
)

-- A history of calls after `heap_init`.
pub data Call : Type 0 where
  allocs frees : ℕ → Call

pub step : Heap → Call → Heap
step h (allocs n) = (kmalloc n h).0
step h (frees p) = kfree p h

pub run : Heap → List Call → Heap
run h [] = h
run h (c ∷ cs) = run (step h c) cs

step-IsValid : (h : Heap) (c : Call) → IsValid h → IsValid (step h c)
unfolding step
step-IsValid h (allocs n) v = kmalloc-IsValid n h v
step-IsValid h (frees p) v = kfree-IsValid p h v

run-IsValid : (h : Heap) (cs : List Call) → IsValid h → IsValid (run h cs)
unfolding run
run-IsValid h [] v = v
run-IsValid h (c ∷ cs) v = run-IsValid (step h c) cs (step-IsValid h c v)

-- After any history of calls, with whatever sizes and pointers, the regions in use lie inside the
-- heap, do not overlap, are apart by a header, and start at multiples of 16.
pub run-Spread :
    (start size : ℕ) (h : Heap) (cs : List Call)
    → 0 < start
    → start + size < 2 ^ 64
    → let h' = run (heap_init start size h) cs in Spread h'.start (live h'.head) h'.end
run-Spread start size h cs hs he =
    let v = run-IsValid (heap_init start size h) cs (heap_init-IsValid start size h hs he).0 in
    live-Spread _ _ _ v.chain v.filled v.in_space
