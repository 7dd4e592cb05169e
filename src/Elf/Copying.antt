-- ===== src/Elf/Copying.antt =====
-- kernel/elf64_loader.c: `clear_bytes` and `copy_bytes` inside their buffers.
use nostalux_os.Base.{
  ℕ, zero, suc, ◌+◌, ◌≤◌, ◌<◌, ◌≡◌, refl, ◌∙◌, ◌⊎◌, inl, inr, some, List, [], ◌∷◌, arith, ◌==◌,
  lt→ltb, Bool-cases, length, get_elem?, get_or, set, length-set, get_or-set_self, get_or-set_ne,
}
use nostalux_os.Elf.Reader.{Outcome, pass, clear_bytes, copy_bytes}

-- The computation succeeds, with a value that satisfies `P`.
abbrev pub Yields {ℓ} : {A : Type ℓ} → (A → Type 0) → Outcome A → Type ℓ
Yields {A = A} P m = (a : A) × (m ≡ pass a) × P a

-- `out` is `destination` with `count` bytes at `to` replaced by those of `source` at `from`.
pub record Copied (count : ℕ) (destination : List ℕ) (to : ℕ) (source : List ℕ) (from : ℕ)
    (out : List ℕ) : Type 0 where
  pub same_length : length out ≡ length destination
  pub copied : (i : ℕ) → i < count → get_or out (to + i) 0 ≡ get_or source (from + i) 0
  pub kept : (j : ℕ) → (j < to) ⊎ (to + count ≤ j) → get_or out j 0 ≡ get_or destination j 0

get_elem?-get_or : (xs : List ℕ) (i : ℕ) → i < length xs → get_elem? xs i ≡ some (get_or xs i 0)
get_elem?-get_or [] i h = absurd (omega arith)
get_elem?-get_or (x ∷ xs) zero h = refl
get_elem?-get_or (x ∷ xs) (suc i) h = get_elem?-get_or xs i (omega arith)

copy_bytes-suc :
    (count : ℕ) (destination : List ℕ) (to : ℕ) (source : List ℕ) (from : ℕ)
    → to < length destination
    → from < length source
    → copy_bytes (suc count) destination to source from
      ≡ copy_bytes count (set destination to (get_or source from 0)) (to + 1) source (from + 1)
unfolding copy_bytes
copy_bytes-suc count destination to source from ht hf =
    ground (arith, get_elem?-get_or source from hf)

Copied-suc :
    (count : ℕ) (destination : List ℕ) (to : ℕ) (source : List ℕ) (from : ℕ) {out : List ℕ}
    → to < length destination
    → Copied count (set destination to (get_or source from 0)) (to + 1) source (from + 1) out
    → Copied (suc count) destination to source from out
Copied-suc count destination to source from {out} ht c = record {
  same_length = c.same_length ∙ length-set destination to (get_or source from 0);
  copied = copied';
  kept = λ j h.
      c.kept j (ground arith)
      ∙ get_or-set_ne destination to j (get_or source from 0) 0 (ground arith);
}
  where
    copied' : (i : ℕ) → i < suc count → get_or out (to + i) 0 ≡ get_or source (from + i) 0
    copied' zero h = ground (
      arith,
      c.kept to (inl (omega arith)),
      get_or-set_self destination to (get_or source from 0) 0 ht,
    )
    copied' (suc i) h = ground (arith, c.copied i (omega arith))

pub copy_bytes-Copied :
    (count : ℕ) (destination : List ℕ) (to : ℕ) (source : List ℕ) (from : ℕ)
    → to + count ≤ length destination
    → from + count ≤ length source
    → Yields (Copied count destination to source from) (copy_bytes count destination to source from)
unfolding copy_bytes
copy_bytes-Copied zero destination to source from ht hf = (
  destination,
  refl,
  record { same_length = refl; copied = λ i h. absurd (omega arith); kept = λ j h. refl },
)
copy_bytes-Copied (suc count) destination to source from ht hf =
    let d = set destination to (get_or source from 0) in
    let (out, e, c) =
      copy_bytes-Copied count d (to + 1) source (from + 1)
        (omega (arith, length-set destination to (get_or source from 0))) (omega arith) in
    (
      out,
      copy_bytes-suc count destination to source from (omega arith) (omega arith) ∙ e,
      Copied-suc count destination to source from (omega arith) c,
    )

-- Clearing the first `count` bytes.
pub record Cleared (count : ℕ) (destination : List ℕ) (out : List ℕ) : Type 0 where
  pub same_length : length out ≡ length destination
  pub zero_below : (j : ℕ) → j < count → get_or out j 0 ≡ 0
  pub kept : (j : ℕ) → count ≤ j → get_or out j 0 ≡ get_or destination j 0

record ClearedFrom (at_ count : ℕ) (destination : List ℕ) (out : List ℕ) : Type 0 where
  same_length : length out ≡ length destination
  zero_between : (j : ℕ) → at_ ≤ j → j < at_ + count → get_or out j 0 ≡ 0
  kept : (j : ℕ) → (j < at_) ⊎ (at_ + count ≤ j) → get_or out j 0 ≡ get_or destination j 0

ClearedFrom-suc :
    (at_ count : ℕ) (destination : List ℕ) {out : List ℕ}
    → at_ < length destination
    → ClearedFrom (at_ + 1) count (set destination at_ 0) out
    → ClearedFrom at_ (suc count) destination out
ClearedFrom-suc at_ count destination {out} h c = record {
  same_length = c.same_length ∙ length-set destination at_ 0;
  zero_between = λ j lo hi. elim (Bool-cases (j == at_)) [
    | inl e ↦ ground (arith, c.kept j (inl (ground arith)), get_or-set_self destination at_ 0 0 h)
    | inr ne ↦ c.zero_between j (ground arith) (omega arith)
  ];
  kept = λ j k. c.kept j (ground arith) ∙ get_or-set_ne destination at_ j 0 0 (ground arith);
}

clear_bytes-ClearedFrom :
    (at_ count : ℕ) (destination : List ℕ)
    → at_ + count ≤ length destination
    → Yields (ClearedFrom at_ count destination) (clear_bytes count destination at_)
unfolding clear_bytes
clear_bytes-ClearedFrom at_ zero destination h = (
  destination,
  refl,
  record { same_length = refl; zero_between = λ j lo hi. absurd (omega arith); kept = λ j k. refl },
)
clear_bytes-ClearedFrom at_ (suc count) destination h =
    let (out, e, c) =
      clear_bytes-ClearedFrom (at_ + 1) count (set destination at_ 0)
        (omega (arith, length-set destination at_ 0)) in
    (
      out,
      rw (lt→ltb at_ (length destination) (omega arith)) e,
      ClearedFrom-suc at_ count destination (omega arith) c,
    )

pub clear_bytes-Cleared :
    (count : ℕ) (destination : List ℕ)
    → count ≤ length destination
    → Yields (Cleared count destination) (clear_bytes count destination 0)
clear_bytes-Cleared count destination h =
    let (out, e, c) = clear_bytes-ClearedFrom 0 count destination (omega arith) in
    (
      out,
      e,
      record {
        same_length = c.same_length;
        zero_below = λ j lt. c.zero_between j (omega arith) (omega arith);
        kept = λ j le. c.kept j (inr (omega arith));
      },
    )
