-- ===== src/Heap.antt =====
-- kernel/heap.c: the first-fit kernel heap. The list of blocks is the chain of `next` pointers from
-- `g_head`, empty for NULL, each block with the address of its header.
pub mod Blocks
pub mod Carve
pub mod Merge
pub mod Release
pub mod Malloc
pub mod Free
pub mod History
mod Examples
use nostalux_os.Base.{
  u64_mod, add64, sub64, ℕ, ◌-◌, ◌%◌, ◌^◌, bit_and, Bool, true, false, not, ◌&&◌, ◌||◌, Option,
  none, some, List, [], ◌∷◌, ltb, leb, ◌==◌, if◌then◌else◌,
}

-- `struct heap_block` without `next`.
pub record Block : Type 0 where
  pub addr : ℕ
  pub size : ℕ
  pub is_free : Bool

-- `sizeof(struct heap_block)`: `next` is aligned to offset 16, the padding ends at 39, and the
-- aligned structure takes 48 bytes.
abbrev pub header_size : ℕ
header_size = 48

-- What the allocator writes to the system log.
pub data Message : Type 0 where
  init_too_small initialized size_overflow out_of_memory : Message
  invalid_free invalid_or_duplicate_free accounting_recovered : Message

-- The static variables, and the log with the newest message first.
pub record Heap : Type 0 where
  pub head : List Block
  pub total_size : ℕ
  pub used_size : ℕ
  pub start : ℕ
  pub end : ℕ
  pub log : List Message

abbrev pub payload : Block → ℕ
payload b = add64 b.addr header_size

-- The state that `heap_init` starts from.
abbrev pub cleared : List Message → Heap
cleared log = record { head = []; total_size = 0; used_size = 0; start = 0; end = 0; log = log }

-- The chain that starts at an address: at the address 0, which is `NULL`, there is none.
abbrev pub chain_at : ℕ → Block → List Block
chain_at address b = if address == 0 then [] else b ∷ []

-- The part of `heap_init` after the start address is aligned.
pub install : ℕ → ℕ → List Message → Heap
install start size log = if ltb size header_size then cleared (init_too_small ∷ log) else record {
  head = chain_at start (record { addr = start; size = size - header_size; is_free = true });
  total_size = size;
  used_size = 0;
  start = start;
  end = add64 start size;
  log = initialized ∷ log;
}

pub heap_init : ℕ → ℕ → Heap → Heap
unfolding install
heap_init start_addr size_bytes h =
    if misalignment == 0
    then install start_addr size_bytes h.log
    else if leb size_bytes adjustment
    then cleared h.log
    else install (add64 start_addr adjustment) (size_bytes - adjustment) h.log
  where
    misalignment : ℕ
    misalignment = start_addr % 16

    adjustment : ℕ
    adjustment = 16 - misalignment

-- What the loop of `kmalloc` has done when it returns: the pointer, the bytes that are added to
-- `g_heap_used_size`, and the chain.
pub record Carved : Type 0 where
  pub pointer : ℕ
  pub taken : ℕ
  pub chain : List Block

-- The body of the `if`: the block is split when a header and 16 bytes are left over.
pub take_block : ℕ → Block → List Block → Carved
take_block n b bs =
    if leb (add64 (add64 n header_size) 16) b.size
    then record {
      pointer = payload b;
      taken = n;
      chain =
          record b { size = n; is_free = false }
          ∷ record {
            addr = add64 (payload b) n;
            size = sub64 (sub64 b.size n) header_size;
            is_free = true;
          }
          ∷ bs;
    }
    else record { pointer = payload b; taken = b.size; chain = record b { is_free = false } ∷ bs }

abbrev pub behind : Block → Carved → Carved
behind b c = record c { chain = b ∷ c.chain }

abbrev pub fits : ℕ → Block → Bool
fits n b = b.is_free && leb n b.size

-- The `while` loop of `kmalloc`.
pub carve : ℕ → List Block → Option Carved
carve n [] = none
carve n (b ∷ bs) =
    let rest = carve n bs in
    if fits n b
    then some (take_block n b bs)
    else elim rest [ none ↦ none | some c ↦ some (behind b c) ]

-- `(size + 15u) & ~(size_t)15u`
pub align_size : ℕ → ℕ
align_size size = bit_and (add64 size 15) (2 ^ 64 - 16)

abbrev pub logging : Message → Heap → Heap
logging m h = record h { log = m ∷ h.log }

-- The pointer is `none` for NULL.
pub kmalloc : ℕ → Heap → Heap × Option ℕ
kmalloc size h = if size == 0 then (h, none) else elim h.head [
  | [] ↦ (h, none)
  | b ∷ bs ↦
      if ltb (u64_mod - 1 - 15) size
      then (logging size_overflow h, none)
      else elim (carve (align_size size) h.head) [
        | none ↦ (logging out_of_memory h, none)
        | some c ↦
            (record h { head = c.chain; used_size = add64 h.used_size c.taken }, some c.pointer)
      ]
]

-- The search of `kfree` for the block with this payload.
pub find_block : ℕ → List Block → Option Block
find_block p [] = none
find_block p (b ∷ bs) = if payload b == p then some b else find_block p bs

abbrev pub absorb : Block → Block → Block
absorb b c = record b { size = add64 b.size (add64 header_size c.size) }

-- "Merge with next if free".
pub merge_next : Block → List Block → List Block
merge_next b [] = b ∷ []
merge_next b (c ∷ cs) = if c.is_free then absorb b c ∷ cs else b ∷ c ∷ cs

-- The block that `find_block` finds is marked free and merged with its neighbour.
pub release : ℕ → List Block → List Block
release p [] = []
release p (b ∷ bs) =
    if payload b == p then merge_next (record b { is_free = true }) bs else b ∷ release p bs

-- The global merge pass, with `curr` at its first argument.
pub coalesce : Block → List Block → List Block
coalesce b [] = b ∷ []
coalesce b (c ∷ cs) = elim (b.is_free && c.is_free) [
  | true ↦ coalesce (absorb b c) cs
  | false ↦ b ∷ coalesce c cs
]

pub merge_pass : List Block → List Block
merge_pass [] = []
merge_pass (b ∷ bs) = coalesce b bs

-- The accounting of `kfree`.
pub discharge : ℕ → Heap → Heap
discharge n h =
    if leb n h.used_size
    then record h { used_size = h.used_size - n }
    else record h { used_size = 0; log = accounting_recovered ∷ h.log }

-- The address test of `kfree`.
pub plausible : ℕ → Heap → Bool
plausible p h = not (ltb p (add64 h.start header_size) || leb h.end p || not (bit_and p 15 == 0))

-- The pointer is a number, 0 for NULL.
pub kfree : ℕ → Heap → Heap
kfree p h =
    if p == 0
    then h
    else if not (plausible p h)
    then logging invalid_free h
    else elim (find_block p h.head) [
      | none ↦ logging invalid_or_duplicate_free h
      | some b ↦
          if b.is_free
          then logging invalid_or_duplicate_free h
          else record (discharge b.size h) { head = merge_pass (release p h.head) }
    ]

-- The loop of `heap_free_space`, with `total` as its first argument.
pub sum_free : ℕ → List Block → ℕ
sum_free total [] = total
sum_free total (b ∷ bs) = sum_free (if b.is_free then add64 total b.size else total) bs

pub heap_free_space : Heap → ℕ
unfolding sum_free
heap_free_space h = sum_free 0 h.head

pub heap_used_space : Heap → ℕ
heap_used_space h = h.used_size
