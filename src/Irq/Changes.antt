-- ===== src/Irq/Changes.antt =====
-- What registration and removal promise, against the set of registered handlers.
use nostalux_os.Base.{
  ℕ, zero, suc, ◌≤◌, ◌<◌, ◌≡◌, refl, sym, ap, ◌∙◌, ◌≢◌, ◌⊎◌, inl, inr, Bool, true, false, not, ◌&&◌,
  ◌||◌, none, some, [], ◌∷◌, map, arith, ◌==◌, if◌then◌else◌, tests, Bool-cases, length, set,
  length-set, get_or-set_self, get_or-set_ne, All, All-get_or, All-set, length-map,
}
use nostalux_os.Irq.{
  Slot, Line, Registry, empty_slot, line_of, clear_line, registry_init, add_entry, remove_entry,
  store_line, registry_register, registry_unregister, count_slots, registry_count,
}
use nostalux_os.Irq.Slots.{
  has, NoDuplicate, has-set, NoDuplicate-set, search_slots-registered, search_slots-Opens,
  count-set, count-full, remove_entry-none, remove_entry-Removed,
}

pub record IsLine (l : Line) : Type 0 where
  pub slots : length l ≡ 4
  pub distinct : NoDuplicate l

pub record IsValid (r : Registry) : Type 0 where
  pub lines : length r ≡ 16
  pub each : All IsLine r

-- What the addition of an entry does to its line.
pub record Added (h c : ℕ) (l l' : Line) : Type 0 where
  pub line : IsLine l'
  pub entries : (h' c' : ℕ) → h' ≢ 0 → has h' c' l' ≡ (has h' c' l || ((h' == h) && (c' == c)))
  pub counted : count_slots l' ≡ (if has h c l then count_slots l else suc (count_slots l))

same-has :
    (h c : ℕ) (l : Line) (h' c' : ℕ)
    → has h c l ≡ true
    → ((h' == h) && (c' == c)) ≡ true
    → has h' c' l ≡ true
same-has h c l h' c' e t =
    let a : h' ≡ h = ground arith in let b : c' ≡ c = ground arith in rw (a, b) e

pub add_entry-Added :
    (h c : ℕ) (l : Line)
    → h ≢ 0
    → IsLine l
    → ((add_entry h c l ≡ none) × (has h c l ≡ false) × (count_slots l ≡ 4))
      ⊎ ((l' : Line) × (add_entry h c l ≡ some l') × Added h c l l')
unfolding add_entry
add_entry-Added h c l hn v = elim (Bool-cases (has h c l)) [
  | inl y ↦ inr (
    l,
    ground (arith, search_slots-registered h c l 0 4 y),
    record {
      line = v;
      entries = λ h' c' hn'. ground (arith, same-has h c l h' c' y);
      counted = ground arith;
    },
  )
  | inr n ↦
      let s = search_slots-Opens h c l 0 n (omega (arith, v.slots)) in
      elim s.1.place [
        | inl full ↦
            inl
              (ground (arith, s.1.search, full.0), n, ground (arith, count-full l full.1, v.slots))
        | inr (i, ek, lt, z) ↦
            let e : Slot = record { handler = h; context = c } in
            inr (
              set l i e,
              ground (arith, s.1.search, lt, v.slots),
              record {
                line = record {
                  slots = length-set l i e ∙ v.slots;
                  distinct = NoDuplicate-set h c l i hn v.distinct n lt z;
                };
                entries = λ h' c' hn'. ground (arith, has-set h' c' l i e hn' lt z);
                counted = ground (arith, count-set l i e lt z hn);
              },
            )
      ]
]

pub line_of-IsLine : (r : Registry) (irq : ℕ) → IsValid r → irq < 16 → IsLine (line_of r irq)
line_of-IsLine r irq v lt = All-get_or IsLine r irq [] v.each (omega (arith, v.lines))

-- One line of a valid registry may be replaced.
pub set-IsValid : (r : Registry) (irq : ℕ) (l : Line) → IsValid r → IsLine l → IsValid (set r irq l)
set-IsValid r irq l v h = record {
  lines = length-set r irq l ∙ v.lines;
  each = All-set IsLine r irq l v.each h;
}

line_of-set :
    (r : Registry) (irq : ℕ) (l : Line) (other : ℕ)
    → IsValid r
    → irq < 16
    → line_of (set r irq l) other ≡ (if other == irq then l else line_of r other)
line_of-set r irq l other v lt = elim (Bool-cases (other == irq)) [
  | inl e ↦
      let q : other ≡ irq = omega (tests, e) in
      simp e (rw q (get_or-set_self r irq l [] (omega (arith, v.lines))))
  | inr n ↦ simp n (get_or-set_ne r irq other l [] (omega (tests, n)))
]

-- The handlers of every line after a change of the entry (handler, context) of the line `irq`.
abbrev pub Holds : (Bool → Bool → Bool) → Registry → Registry → ℕ → ℕ → ℕ → Type 0
Holds change r r' irq h c =
    (irq' h' c' : ℕ)
    → h' ≢ 0
    → has h' c' (line_of r' irq')
      ≡ change (has h' c' (line_of r irq')) ((irq' == irq) && ((h' == h) && (c' == c)))

set-Holds :
    (change : Bool → Bool → Bool) (r : Registry) (irq h c : ℕ) (l' : Line)
    → IsValid r
    → irq < 16
    → ((b : Bool) → change b false ≡ b)
    → ((h' c' : ℕ)
        → h' ≢ 0
        → has h' c' l' ≡ change (has h' c' (line_of r irq)) ((h' == h) && (c' == c)))
    → Holds change r (set r irq l') irq h c
set-Holds change r irq h c l' v lt keeps f irq' h' c' hn = elim (Bool-cases (irq' == irq)) [
  | inl e ↦
      let q : irq' ≡ irq = omega (tests, e) in
      simp (line_of-set r irq l' irq' v lt, e) (rw q (f h' c' hn))
  | inr n ↦ simp (line_of-set r irq l' irq' v lt, n) (sym (keeps (has h' c' (line_of r irq'))))
]

line_of-set_self :
    (r : Registry) (irq : ℕ) (l : Line) → IsValid r → irq < 16 → line_of (set r irq l) irq ≡ l
line_of-set_self r irq l v lt = get_or-set_self r irq l [] (omega (arith, v.lines))

-- Both operations store a line when their arguments are in range, and else change nothing.
registry_register-store :
    (r : Registry) (irq h c : ℕ)
    → irq < 16
    → h ≢ 0
    → registry_register r irq h c ≡ store_line r irq (add_entry h c (line_of r irq))
unfolding registry_register
registry_register-store r irq h c lt hn = ground arith

registry_register-refused :
    (r : Registry) (irq h c : ℕ) → (16 ≤ irq) ⊎ (h ≡ 0) → registry_register r irq h c ≡ (r, false)
unfolding registry_register
registry_register-refused r irq h c bad = ground arith

registry_unregister-store :
    (r : Registry) (irq h c : ℕ)
    → irq < 16
    → h ≢ 0
    → registry_unregister r irq h c ≡ store_line r irq (remove_entry h c (line_of r irq))
unfolding registry_unregister
registry_unregister-store r irq h c lt hn = ground arith

count-in_range :
    (r : Registry) (irq : ℕ) → irq < 16 → registry_count r irq ≡ count_slots (line_of r irq)
unfolding registry_count
count-in_range r irq lt = ground arith

count-stored :
    (r : Registry) (irq : ℕ) (l : Line)
    → IsValid r
    → irq < 16
    → registry_count (set r irq l) irq ≡ count_slots l
count-stored r irq l v lt =
    count-in_range (set r irq l) irq lt
    ∙ ap (λ (l : Line). count_slots l) (line_of-set_self r irq l v lt)

-- In a valid registry, the registration of a handler that is not NULL on one of the 16 lines adds
-- it with its context to that line and to no other, whether or not it was there, and counts it if
-- it was not; it fails, and changes nothing, only when the line is full and does not hold it.
pub registry_register-adds :
    (r : Registry) (irq h c : ℕ)
    → IsValid r
    → irq < 16
    → h ≢ 0
    → ((r' : Registry) × (registry_register r irq h c ≡ (r', true))
        × IsValid r'
        × Holds (λ old new. old || new) r r' irq h c
        × (registry_count r' irq ≡ (
            if has h c (line_of r irq) then registry_count r irq else suc (registry_count r irq))))
      ⊎ ((registry_register r irq h c ≡ (r, false))
          × (has h c (line_of r irq) ≡ false)
          × (registry_count r irq ≡ 4))
registry_register-adds r irq h c v lt hn =
    let eq = registry_register-store r irq h c lt hn in
    elim (add_entry-Added h c (line_of r irq) hn (line_of-IsLine r irq v lt)) [
      | inl (none_, f, full) ↦
          inr (eq ∙ ap (store_line r irq) none_, f, count-in_range r irq lt ∙ full)
      | inr (l', some_, a) ↦ inl (
        set r irq l',
        eq ∙ ap (store_line r irq) some_,
        set-IsValid r irq l' v a.line,
        set-Holds (λ old new. old || new) r irq h c l' v lt (λ b. ground arith) a.entries,
        simp (count-stored r irq l' v lt, count-in_range r irq lt) a.counted,
      )
    ]

-- In a valid registry, the removal of a handler that is not NULL from one of the 16 lines takes
-- exactly it with its context off that line; it fails, and changes nothing, only when the line does
-- not hold it.
pub registry_unregister-removes :
    (r : Registry) (irq h c : ℕ)
    → IsValid r
    → irq < 16
    → h ≢ 0
    → ((r' : Registry) × (registry_unregister r irq h c ≡ (r', true))
        × IsValid r'
        × Holds (λ old gone. old && not gone) r r' irq h c
        × (suc (registry_count r' irq) ≡ registry_count r irq))
      ⊎ ((registry_unregister r irq h c ≡ (r, false)) × (has h c (line_of r irq) ≡ false))
registry_unregister-removes r irq h c v lt hn =
    let eq = registry_unregister-store r irq h c lt hn in
    let line = line_of-IsLine r irq v lt in
    elim (Bool-cases (has h c (line_of r irq))) [
      | inr f ↦ inr (eq ∙ ap (store_line r irq) (remove_entry-none h c (line_of r irq) f), f)
      | inl y ↦
          let m = remove_entry-Removed h c (line_of r irq) hn line.distinct y in
          let a = m.2 in
          inl (
            set r irq m.0,
            eq ∙ ap (store_line r irq) m.1,
            set-IsValid r irq m.0 v
                (record { slots = a.same_length ∙ line.slots; distinct = a.distinct }),
            set-Holds (λ old gone. old && not gone) r irq h c m.0 v lt (λ b. ground arith) a.others,
            simp (count-stored r irq m.0 v lt, count-in_range r irq lt) a.one_less,
          )
    ]

clear_line-NoDuplicate : (l : Line) → NoDuplicate (clear_line l)
clear_line-NoDuplicate [] = tt
clear_line-NoDuplicate (s ∷ l) = (inl refl, clear_line-NoDuplicate l)

has-clear_line : (l : Line) (h c : ℕ) → h ≢ 0 → has h c (clear_line l) ≡ false
has-clear_line [] h c hn = refl
has-clear_line (s ∷ l) h c hn = ground (arith, has-clear_line l h c hn)

clear-each : (r : Registry) → All (λ l. length l ≡ 4) r → All IsLine (map clear_line r)
clear-each [] h = tt
clear-each (l ∷ r) h = (
  record { slots = length-map (λ _. empty_slot) l ∙ h.0; distinct = clear_line-NoDuplicate l },
  clear-each r h.1,
)

has-cleared :
    (r : Registry) (irq h c : ℕ) → h ≢ 0 → has h c (line_of (map clear_line r) irq) ≡ false
has-cleared [] irq h c hn = refl
has-cleared (l ∷ r) zero h c hn = has-clear_line l h c hn
has-cleared (l ∷ r) (suc irq) h c hn = has-cleared r irq h c hn

-- After `irq_registry_init`, 16 lines of 4 slots are valid, and no handler is registered.
pub registry_init-IsValid :
    (r : Registry)
    → length r ≡ 16
    → All (λ l. length l ≡ 4) r
    → (r' : Registry) × (registry_init (some r) ≡ some r')
      × IsValid r'
      × ((irq h c : ℕ) → h ≢ 0 → has h c (line_of r' irq) ≡ false)
unfolding registry_init
registry_init-IsValid r n h = (
  map clear_line r,
  refl,
  record { lines = length-map clear_line r ∙ n; each = clear-each r h },
  has-cleared r,
)
