-- ===== src/MemTest/Points.antt =====
-- kernel/memtest.c: the endpoints of the ranges, sorted and without repetition, are still all of them.
use nostalux_os.Base.{
  ℕ, ◌^◌, ◌≤◌, ◌<◌, ◌≡◌, sym, ap, ◌∙◌, subst, ◌⊎◌, inl, inr, Bool, true, false, not, ◌||◌, List, [],
  ◌∷◌, arith, ltb, leb, tests, Bool-cases, All, All-imp, Pairwise,
}
use nostalux_os.MemTest.{
  Entry, range_end, entry_is_enabled, collect, insert_point, sort_points, reverse_onto,
}

module _ {A : Type 0} where
  abbrev pub Occurs : A → List A → Type 0
  Occurs x [] = ⊥
  Occurs x (y ∷ l) = (x ≡ y) ⊎ Occurs x l

pub Occurs-All : (P : ℕ → Type 0) (x : ℕ) (l : List ℕ) → Occurs x l → All P l → P x
Occurs-All P x [] o h = absurd o
Occurs-All P x (y ∷ l) (inl e) h = subst P (sym e) h.0
Occurs-All P x (y ∷ l) (inr o) h = Occurs-All P x l o h.1

-- The map has ranges of 64-bit addresses.
abbrev pub IsMap : List Entry → Type 0
IsMap = All (λ e. e.base < 2 ^ 64)

range_end-small : (e : Entry) → e.base < 2 ^ 64 → range_end e < 2 ^ 64
range_end-small e h = ground arith

-- Insertion from the end of the sorted part, whose points fall.
abbrev pub Falling : List ℕ → Type 0
Falling = Pairwise (λ a b. b ≤ a)

abbrev pub Rising : List ℕ → Type 0
Rising = Pairwise (λ a b. a ≤ b)

insert_point-All : (P : ℕ → Type 0) (v : ℕ) (l : List ℕ) → P v → All P l → All P (insert_point v l)
unfolding insert_point
insert_point-All P v [] hv h = (hv, tt)
insert_point-All P v (p ∷ l) hv h = elim (Bool-cases (ltb v p)) [
  | inl lt ↦ simp lt (h.0, insert_point-All P v l hv h.1)
  | inr ge ↦ simp ge (hv, h)
]

insert_point-Falling : (v : ℕ) (l : List ℕ) → Falling l → Falling (insert_point v l)
unfolding insert_point
insert_point-Falling v [] h = (tt, tt)
insert_point-Falling v (p ∷ l) h = elim (Bool-cases (ltb v p)) [
  | inl lt ↦
      simp lt
        (insert_point-All (λ b. b ≤ p) v l (omega (tests, lt)) h.0, insert_point-Falling v l h.1)
  | inr ge ↦
      let le : p ≤ v = omega (tests, ge) in
      simp ge ((le, All-imp (λ b. b ≤ p) (λ b. b ≤ v) l (λ b hb. omega arith) h.0), h)
]

insert_point-Occurs : (x v : ℕ) (l : List ℕ) → (x ≡ v) ⊎ Occurs x l → Occurs x (insert_point v l)
unfolding insert_point
insert_point-Occurs x v [] (inl e) = inl e
insert_point-Occurs x v [] (inr o) = absurd o
insert_point-Occurs x v (p ∷ l) o = elim (Bool-cases (ltb v p)) [
  | inl lt ↦ simp lt (elim o [
    | inl e ↦ inr (insert_point-Occurs x v l (inl e))
    | inr later ↦ elim later [ inl e ↦ inl e | inr m ↦ inr (insert_point-Occurs x v l (inr m)) ]
  ])
  | inr ge ↦ simp ge o
]

sort_points-All :
    (P : ℕ → Type 0) (l sorted : List ℕ) → All P l → All P sorted → All P (sort_points l sorted)
unfolding sort_points
sort_points-All P [] sorted h hs = hs
sort_points-All P (v ∷ l) sorted h hs =
    sort_points-All P l (insert_point v sorted) h.1 (insert_point-All P v sorted h.0 hs)

sort_points-Falling : (l sorted : List ℕ) → Falling sorted → Falling (sort_points l sorted)
unfolding sort_points
sort_points-Falling [] sorted h = h
sort_points-Falling (v ∷ l) sorted h =
    sort_points-Falling l (insert_point v sorted) (insert_point-Falling v sorted h)

sort_points-Occurs :
    (x : ℕ) (l sorted : List ℕ) → Occurs x l ⊎ Occurs x sorted → Occurs x (sort_points l sorted)
unfolding sort_points
sort_points-Occurs x [] sorted (inl o) = absurd o
sort_points-Occurs x [] sorted (inr o) = o
sort_points-Occurs x (v ∷ l) sorted (inl (inl e)) =
    sort_points-Occurs x l (insert_point v sorted) (inr (insert_point-Occurs x v sorted (inl e)))
sort_points-Occurs x (v ∷ l) sorted (inl (inr o)) =
    sort_points-Occurs x l (insert_point v sorted) (inl o)
sort_points-Occurs x (v ∷ l) sorted (inr o) =
    sort_points-Occurs x l (insert_point v sorted) (inr (insert_point-Occurs x v sorted (inr o)))

reverse_onto-All :
    (P : ℕ → Type 0) (l rest : List ℕ) → All P l → All P rest → All P (reverse_onto l rest)
reverse_onto-All P [] rest h hr = hr
reverse_onto-All P (p ∷ l) rest h hr = reverse_onto-All P l (p ∷ rest) h.1 (h.0, hr)

reverse_onto-Occurs :
    (x : ℕ) (l rest : List ℕ) → Occurs x l ⊎ Occurs x rest → Occurs x (reverse_onto l rest)
reverse_onto-Occurs x [] rest (inl o) = absurd o
reverse_onto-Occurs x [] rest (inr o) = o
reverse_onto-Occurs x (p ∷ l) rest (inl (inl e)) = reverse_onto-Occurs x l (p ∷ rest) (inr (inl e))
reverse_onto-Occurs x (p ∷ l) rest (inl (inr o)) = reverse_onto-Occurs x l (p ∷ rest) (inl o)
reverse_onto-Occurs x (p ∷ l) rest (inr o) = reverse_onto-Occurs x l (p ∷ rest) (inr (inr o))

beside :
    (p : ℕ) (l rest : List ℕ)
    → All (λ b. b ≤ p) l
    → All (λ a. All (λ b. a ≤ b) rest) l
    → All (λ a. All (λ b. a ≤ b) (p ∷ rest)) l
beside p [] rest h below = tt
beside p (a ∷ l) rest h below = ((h.0, below.0), beside p l rest h.1 below.1)

above_none : (l : List ℕ) → All (λ a. All (λ b. a ≤ b) []) l
above_none [] = tt
above_none (a ∷ l) = (tt, above_none l)

reverse_onto-Rising :
    (l rest : List ℕ)
    → Falling l
    → Rising rest
    → All (λ a. All (λ b. a ≤ b) rest) l
    → Rising (reverse_onto l rest)
reverse_onto-Rising [] rest h hr below = hr
reverse_onto-Rising (p ∷ l) rest h hr below =
    reverse_onto-Rising l (p ∷ rest) h.1 (below.0, hr) (beside p l rest h.0 below.1)

-- The addresses at which the coverage can change.
abbrev pub Endpoint : ℕ → List Entry → ℕ → Type 0
Endpoint entry_size entries x =
    (e : Entry) × Occurs e entries
    × (entry_is_enabled entry_size e ≡ true)
    × (e.base < range_end e)
    × ((x ≡ e.base) ⊎ (x ≡ range_end e))

kept :
    (enabled : Bool) (high low : ℕ)
    → enabled ≡ true
    → low < high
    → (not enabled || leb high low) ≡ false
kept enabled high low on up = ground arith

pub clash : true ≡ false → ⊥
clash e = cc

collect-Occurs :
    (entry_size : ℕ) (entries : List Entry) (points : List ℕ) (x : ℕ)
    → Endpoint entry_size entries x ⊎ Occurs x points
    → Occurs x (collect entry_size entries points)
unfolding collect
collect-Occurs entry_size [] points x (inr o) = o
collect-Occurs entry_size [] points x (inl h) = absurd h.1
collect-Occurs entry_size (e ∷ entries) points x h =
    elim (Bool-cases (not (entry_is_enabled entry_size e) || leb (range_end e) e.base)) [
      | inl skip ↦ simp skip (
          collect-Occurs entry_size entries points x (elim h [
            | inr o ↦ inr o
            | inl (d, occurs, enabled, positive, is_end) ↦ elim occurs [
              | inr o ↦ inl (d, o, enabled, positive, is_end)
              | inl same ↦ absurd (
                  let on =
                    subst (λ (t : Entry). entry_is_enabled entry_size t ≡ true) same enabled in
                  let up = subst (λ (t : Entry). t.base < range_end t) same positive in
                  clash
                    (sym skip ∙ kept (entry_is_enabled entry_size e) (range_end e) e.base on up))
            ]
          ]))
      | inr keep ↦ simp keep (
          collect-Occurs entry_size entries (range_end e ∷ e.base ∷ points) x (elim h [
            | inr o ↦ inr (inr (inr o))
            | inl (d, occurs, enabled, positive, is_end) ↦ elim occurs [
              | inr o ↦ inl (d, o, enabled, positive, is_end)
              | inl same ↦ inr (elim is_end [
                | inl b ↦ inr (inl (b ∙ ap (λ (e : Entry). e.base) same))
                | inr r ↦ inl (r ∙ ap (λ (e : Entry). range_end e) same)
              ])
            ]
          ]))
    ]

collect-All :
    (P : ℕ → Type 0) (entry_size : ℕ) (entries : List Entry) (points : List ℕ)
    → All (λ e. P e.base × P (range_end e)) entries
    → All P points
    → All P (collect entry_size entries points)
unfolding collect
collect-All P entry_size [] points h hp = hp
collect-All P entry_size (e ∷ entries) points h hp =
    elim (Bool-cases (not (entry_is_enabled entry_size e) || leb (range_end e) e.base)) [
      | inl skip ↦ simp skip (collect-All P entry_size entries points h.1 hp)
      | inr keep ↦ simp keep (
          collect-All P entry_size entries (range_end e ∷ e.base ∷ points) h.1 (h.0.1, (h.0.0, hp)))
    ]

abbrev pub sorted_points : ℕ → List Entry → List ℕ
sorted_points entry_size entries =
    reverse_onto (sort_points (reverse_onto (collect entry_size entries []) []) []) []

pub sorted_points-Rising :
    (entry_size : ℕ) (entries : List Entry) → Rising (sorted_points entry_size entries)
sorted_points-Rising entry_size entries =
    let points = reverse_onto (collect entry_size entries []) [] in
    reverse_onto-Rising (sort_points points []) [] (sort_points-Falling points [] tt) tt
      (above_none (sort_points points []))

pub sorted_points-Occurs :
    (entry_size : ℕ) (entries : List Entry) (x : ℕ)
    → Endpoint entry_size entries x
    → Occurs x (sorted_points entry_size entries)
sorted_points-Occurs entry_size entries x h =
    let points = reverse_onto (collect entry_size entries []) [] in
    reverse_onto-Occurs x (sort_points points []) [] (
      inl (
        sort_points-Occurs x points [] (
          inl (
            reverse_onto-Occurs x (collect entry_size entries []) []
              (inl (collect-Occurs entry_size entries [] x (inl h)))))))

pub sorted_points-small :
    (entry_size : ℕ) (entries : List Entry)
    → IsMap entries
    → All (λ p. p < 2 ^ 64) (sorted_points entry_size entries)
sorted_points-small entry_size entries h =
    let P : ℕ → Type 0 = λ p. p < 2 ^ 64 in
    let points = reverse_onto (collect entry_size entries []) [] in
    let both =
      All-imp (λ e. e.base < 2 ^ 64) (λ e. P e.base × P (range_end e)) entries
        (λ e he. (he, range_end-small e he)) h in
    reverse_onto-All P (sort_points points []) []
      (sort_points-All P points []
        (reverse_onto-All P (collect entry_size entries []) []
          (collect-All P entry_size entries [] both tt) tt)
        tt)
      tt
