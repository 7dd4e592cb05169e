-- ===== src/Heap/Examples.antt =====
-- The theorems on kernel/heap.c at a small heap: 512 bytes at an unaligned address.
use nostalux_os.Base.{ℕ, ◌+◌, ◌%◌, ◌≤◌, ◌≡◌, refl, true, false, none, some, List, [], ◌∷◌, arith}
use nostalux_os.Heap.{
  Message, Heap, cleared, heap_init, take_block, carve, align_size, kmalloc, find_block, merge_next,
  release, coalesce, merge_pass, discharge, plausible, kfree,
}
use nostalux_os.Heap.Blocks.{IsValid, live, insert, remove, lookup, Spread}
use nostalux_os.Heap.Free.{kfree_refines, kfree-kmalloc}
use nostalux_os.Heap.History.{Call, allocs, frees, run, run-Spread}
use nostalux_os.Heap.Malloc.{kmalloc_refines}

abbrev fresh : Heap
fresh = record {
  head = record { addr = 4096; size = 452; is_free = true } ∷ [];
  total_size = 500;
  used_size = 0;
  start = 4096;
  end = 4596;
  log = Message.initialized ∷ [];
}

init_aligns : heap_init 4084 512 (cleared []) ≡ fresh
unfolding heap_init
init_aligns = refl

-- One allocation of 20 bytes takes 32, behind a header of 48.
abbrev one : Heap
one = record fresh {
  head =
      record { addr = 4096; size = 32; is_free = false }
      ∷ record { addr = 4176; size = 372; is_free = true }
      ∷ [];
  used_size = 32;
}

kmalloc_splits : kmalloc 20 fresh ≡ (one, some 4144)
unfolding kmalloc carve take_block align_size
kmalloc_splits = refl

kfree_merges : kfree 4144 one ≡ fresh
unfolding kfree plausible find_block release merge_next merge_pass coalesce discharge
kfree_merges = refl

fresh-IsValid : IsValid fresh
fresh-IsValid = ground arith

one-IsValid : IsValid one
one-IsValid = ground arith

kmalloc_refines_example :
    (n : ℕ) × (20 ≤ n)
    × (4144 % 16 ≡ 0)
    × (lookup 4144 (live fresh.head) ≡ none)
    × (live one.head ≡ insert 4144 n (live fresh.head))
    × (one.used_size ≡ fresh.used_size + n)
kmalloc_refines_example = kmalloc_refines 20 fresh fresh-IsValid kmalloc_splits

kfree_refines_example : live (kfree 4144 one).head ≡ remove 4144 (live one.head)
kfree_refines_example = kfree_refines 4144 one one-IsValid

kfree-kmalloc_example : kfree 4144 one ≡ fresh
kfree-kmalloc_example = kfree-kmalloc 20 fresh fresh-IsValid kmalloc_splits

abbrev calls : List Call
calls = allocs 20 ∷ allocs 100 ∷ frees 4144 ∷ frees 4144 ∷ allocs 400 ∷ []

run-Spread_example :
    let h = run (heap_init 4084 512 (cleared [])) calls in Spread h.start (live h.head) h.end
run-Spread_example = run-Spread 4084 512 (cleared []) calls (omega arith) (omega arith)
