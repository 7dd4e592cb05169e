-- ===== src/Irq/Slots.antt =====
-- The slots of one line as a set of handlers with their contexts.
use nostalux_os.Base.{
  ℕ, zero, suc, ◌+◌, ◌≤◌, ◌<◌, ◌≡◌, refl, sym, ap, ◌∙◌, ◌≢◌, ◌⊎◌, inl, inr, Bool, true, false, not,
  ◌&&◌, ◌||◌, none, some, [], ◌∷◌, arith, ◌==◌, tests, Bool-cases, length, set, All,
}
use nostalux_os.Irq.{
  Slot, handlers_per_line, Line, empty_slot, slot_of, is_entry, registered, ended, search_slots,
  remove_entry, count_slots,
}

-- A handler with its context stands in the line.
abbrev pub has : ℕ → ℕ → Line → Bool
has handler context [] = false
has handler context (s ∷ l) = is_entry handler context s || has handler context l

-- No two slots hold the same handler with the same context.
abbrev pub NoDuplicate : Line → Type 0
NoDuplicate [] = Unit
NoDuplicate (s ∷ l) = ((s.handler ≡ 0) ⊎ (has s.handler s.context l ≡ false)) × NoDuplicate l

pub has-set :
    (h c : ℕ) (l : Line) (i : ℕ) (s : Slot)
    → h ≢ 0
    → i < length l
    → (slot_of l i).handler ≡ 0
    → has h c (set l i s) ≡ (has h c l || is_entry h c s)
has-set h c [] i s hn lt e = absurd (omega arith)
has-set h c (t ∷ l) zero s hn lt e = ground arith
has-set h c (t ∷ l) (suc i) s hn lt e = ground (arith, has-set h c l i s hn (omega arith) e)

pub NoDuplicate-set :
    (h c : ℕ) (l : Line) (i : ℕ)
    → h ≢ 0
    → NoDuplicate l
    → has h c l ≡ false
    → i < length l
    → (slot_of l i).handler ≡ 0
    → NoDuplicate (set l i (record { handler = h; context = c }))
NoDuplicate-set h c [] i hn nd f lt e = tt
NoDuplicate-set h c (t ∷ l) zero hn nd f lt e = (inr (ground arith), nd.1)
NoDuplicate-set h c (t ∷ l) (suc i) hn nd f lt e = (
  elim nd.0 [
    | inl z ↦ inl z
    | inr g ↦ elim (Bool-cases (t.handler == 0)) [
      | inl z ↦ inl (omega (tests, z))
      | inr nz ↦ inr (
          ground (
            arith,
            has-set t.handler t.context l i (record { handler = h; context = c })
                (omega (tests, nz)) (omega arith) e,
          ))
    ]
  ],
  NoDuplicate-set h c l i hn nd.1 (ground arith) (omega arith) e,
)

pub search_slots-registered :
    (h c : ℕ) (l : Line) (slot free : ℕ)
    → has h c l ≡ true
    → search_slots h c l slot free ≡ registered
unfolding search_slots
search_slots-registered h c [] slot free e = absurd (ground arith)
search_slots-registered h c (s ∷ l) slot free e = elim (Bool-cases (is_entry h c s)) [
  | inl y ↦ ground arith
  | inr n ↦ ground (
    arith,
    search_slots-registered h c l (slot + 1) slot (ground arith),
    search_slots-registered h c l (slot + 1) free (ground arith),
  )
]

pub search_slots-met :
    (h c : ℕ) (l : Line) (slot free : ℕ)
    → has h c l ≡ false
    → free < 4
    → search_slots h c l slot free ≡ ended free
unfolding search_slots
search_slots-met h c [] slot free e lt = refl
search_slots-met h c (s ∷ l) slot free e lt =
    ground (arith, search_slots-met h c l (slot + 1) free (ground arith) lt)

-- Where the loop ends on a line without the entry: at 4 with no empty slot, or at an empty slot.
pub record Opens (h c : ℕ) (l : Line) (slot k : ℕ) : Type 0 where
  pub search : search_slots h c l slot handlers_per_line ≡ ended k
  pub place :
      ((k ≡ 4) × All (λ s. s.handler ≢ 0) l)
      ⊎ ((i : ℕ) × (k ≡ slot + i) × (i < length l) × ((slot_of l i).handler ≡ 0))

pub search_slots-Opens :
    (h c : ℕ) (l : Line) (slot : ℕ)
    → has h c l ≡ false
    → slot + length l ≤ 4
    → (k : ℕ) × Opens h c l slot k
unfolding search_slots
search_slots-Opens h c [] slot e b = (4, record { search = refl; place = inl (refl, tt) })
search_slots-Opens h c (s ∷ l) slot e b = elim (Bool-cases (s.handler == 0)) [
  | inl z ↦ (
    slot,
    record {
      search = ground (arith, search_slots-met h c l (slot + 1) slot (ground arith) (omega arith));
      place = inr (0, omega arith, omega arith, omega (tests, z));
    },
  )
  | inr z ↦
      let rest = search_slots-Opens h c l (slot + 1) (ground arith) (omega arith) in
      (
        rest.0,
        record {
          search = ground (arith, rest.1.search);
          place = elim rest.1.place [
            | inl full ↦ inl (full.0, (omega (tests, z), full.1))
            | inr (i, ek, lt, ez) ↦ inr (suc i, omega arith, omega arith, ez)
          ];
        },
      )
]

pub count-set :
    (l : Line) (i : ℕ) (s : Slot)
    → i < length l
    → (slot_of l i).handler ≡ 0
    → s.handler ≢ 0
    → count_slots (set l i s) ≡ suc (count_slots l)
count-set [] i s lt e n = absurd (omega arith)
count-set (t ∷ l) zero s lt e n = ground arith
count-set (t ∷ l) (suc i) s lt e n = ground (arith, count-set l i s (omega arith) e n)

pub count-full : (l : Line) → All (λ s. s.handler ≢ 0) l → count_slots l ≡ length l
count-full [] h = refl
count-full (s ∷ l) h = ground (arith, count-full l h.1)

-- What the removal of an entry does.
pub record Removed (h c : ℕ) (l l' : Line) : Type 0 where
  pub was_there : has h c l ≡ true
  pub same_length : length l' ≡ length l
  pub one_less : suc (count_slots l') ≡ count_slots l
  pub others : (h' c' : ℕ) → h' ≢ 0 → has h' c' l' ≡ (has h' c' l && not ((h' == h) && (c' == c)))
  pub distinct : NoDuplicate l'

pub remove_entry-none : (h c : ℕ) (l : Line) → has h c l ≡ false → remove_entry h c l ≡ none
unfolding remove_entry
remove_entry-none h c [] e = refl
remove_entry-none h c (s ∷ l) e = ground (arith, remove_entry-none h c l (ground arith))

is_entry-eq : (h c : ℕ) (s : Slot) → is_entry h c s ≡ true → (s.handler ≡ h) × (s.context ≡ c)
is_entry-eq h c s e = ground arith

removed_here :
    (h c : ℕ) (s : Slot) (l : Line) (h' c' : ℕ)
    → h ≢ 0
    → h' ≢ 0
    → (s.handler ≡ 0) ⊎ (has s.handler s.context l ≡ false)
    → is_entry h c s ≡ true
    → has h' c' (empty_slot ∷ l) ≡ (has h' c' (s ∷ l) && not ((h' == h) && (c' == c)))
removed_here h c s l h' c' hn hn' nd y =
    let q = is_entry-eq h c s y in
    elim (Bool-cases ((h' == h) && (c' == c))) [
      | inl t ↦ elim nd [
        | inl z ↦ absurd (hn (sym q.0 ∙ z))
        | inr g ↦
            let a : h' ≡ s.handler = ground arith in
            let b : c' ≡ s.context = ground arith in
            let k : has h' c' l ≡ false = rw (a, b) g in ground (arith, k)
      ]
      | inr f ↦ ground arith
    ]

pub remove_entry-Removed :
    (h c : ℕ) (l : Line)
    → h ≢ 0
    → NoDuplicate l
    → has h c l ≡ true
    → (l' : Line) × (remove_entry h c l ≡ some l') × Removed h c l l'
unfolding remove_entry
remove_entry-Removed h c [] hn nd e = absurd (ground arith)
remove_entry-Removed h c (s ∷ l) hn nd e = elim (Bool-cases (is_entry h c s)) [
  | inl y ↦ (
    empty_slot ∷ l,
    ground arith,
    record {
      was_there = e;
      same_length = refl;
      one_less = ground arith;
      others = λ h' c' hn'. removed_here h c s l h' c' hn hn' nd.0 y;
      distinct = (inl refl, nd.1);
    },
  )
  | inr n ↦
      let rest = remove_entry-Removed h c l hn nd.1 (ground arith) in
      (
        s ∷ rest.0,
        ground (arith, rest.1),
        record {
          was_there = e;
          same_length = ap suc rest.2.same_length;
          one_less = ground (arith, rest.2.one_less);
          others = λ h' c' hn'. let o = rest.2.others h' c' hn' in ground (arith, o);
          distinct = (
            elim nd.0 [
              | inl z ↦ inl z
              | inr f ↦ elim (Bool-cases (s.handler == 0)) [
                | inl z ↦ inl (omega (tests, z))
                | inr z ↦ inr (
                    let o = rest.2.others s.handler s.context (omega (tests, z)) in
                    ground (arith, o))
              ]
            ],
            rest.2.distinct,
          );
        },
      )
]
