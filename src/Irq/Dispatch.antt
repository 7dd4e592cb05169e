-- ===== src/Irq/Dispatch.antt =====
-- The walk of `irq_registry_dispatch` over a line while its handlers run.
use nostalux_os.Base.{
  ℕ, zero, suc, ◌+◌, ◌<◌, ◌≡◌, refl, sym, ap, ◌∙◌, subst, ◌≢◌, ◌⊎◌, inl, inr, Bool, true, false,
  ◌||◌, some, [], ◌∷◌, arith, leb, ◌==◌, ==→eq, ==→ne, tests, Bool-cases, Option-cases, length,
  length-set, get_or-set_self,
}
use nostalux_os.Irq.{
  Slot, Line, Registry, line_of, slot_of, is_entry, remove_entry, registry_unregister, visit_slot,
  dispatch_slots, registry_dispatch,
}
use nostalux_os.Irq.Changes.{IsValid, line_of-IsLine}

-- The removal of an entry that stands at `i` clears no slot behind `i`.
remove_entry-keeps :
    (h c : ℕ) (l l' : Line) (i j : ℕ)
    → is_entry h c (slot_of l i) ≡ true
    → h ≢ 0
    → remove_entry h c l ≡ some l'
    → i < j
    → slot_of l' j ≡ slot_of l j
unfolding remove_entry
remove_entry-keeps h c [] l' i j e hn eq lt = absurd (ground arith)
remove_entry-keeps h c (s ∷ l) l' i zero e hn eq lt = absurd (omega arith)
remove_entry-keeps h c (s ∷ l) l' zero (suc j) e hn eq lt = ground arith
remove_entry-keeps h c (s ∷ l) l' (suc i) (suc j) e hn eq lt =
    elim (Option-cases (remove_entry h c l)) [
      | inl none_ ↦ ground arith
      | inr (rest, some_) ↦
          ground (arith, remove_entry-keeps h c l rest i j e hn some_ (omega arith))
    ]

-- The same for the registry: what `irq_registry_unregister` leaves of the later slots.
unregister-keeps :
    (r : Registry) (irq h c i j : ℕ)
    → length r ≡ 16
    → irq < 16
    → h ≢ 0
    → is_entry h c (slot_of (line_of r irq) i) ≡ true
    → i < j
    → (length (registry_unregister r irq h c).0 ≡ 16)
      × (slot_of (line_of (registry_unregister r irq h c).0 irq) j ≡ slot_of (line_of r irq) j)
unfolding registry_unregister
unregister-keeps r irq h c i j n lt hn e ij =
    elim (Option-cases (remove_entry h c (line_of r irq))) [
      | inl none_ ↦ ground arith
      | inr (l', some_) ↦
          let k = remove_entry-keeps h c (line_of r irq) l' i j e hn some_ ij in
          let q = get_or-set_self r irq l' [] (omega arith) in
          let m = length-set r irq l' in ground arith
    ]

or_swap : (c claimed b : Bool) → ((c || claimed) || b) ≡ (claimed || (c || b))
or_swap c claimed b = ground arith

module _ {W : Type 0} (call : ℕ → ℕ → ℕ → Registry × W → (Registry × W) × Bool) where
  -- A handler may remove its own registration from the line it is called for and no other: then it
  -- leaves the registry as it is, or as `irq_registry_unregister` leaves it.
  abbrev pub OnlyLeaves : Type 0
  OnlyLeaves =
      (h irq c : ℕ) (w : Registry × W)
      → ((call h irq c w).0.0 ≡ w.0) ⊎ ((call h irq c w).0.0 ≡ (registry_unregister w.0 irq h c).0)

  -- The calls for a list of slots, one after the other, whatever becomes of the registry.
  abbrev visit_all : ℕ → Line → Bool → Registry × W → (Registry × W) × Bool
  visit_all irq [] claimed w = (w, claimed)
  visit_all irq (s ∷ l) claimed w =
      let after = visit_slot call irq s w in visit_all irq l (after.1 || claimed) after.0

  visit_slot-keeps :
      (irq : ℕ) (w : Registry × W) (i j : ℕ) (s : Slot)
      → OnlyLeaves
      → irq < 16
      → length w.0 ≡ 16
      → slot_of (line_of w.0 irq) i ≡ s
      → i < j
      → (length (visit_slot call irq s w).0.0 ≡ 16)
        × (slot_of (line_of (visit_slot call irq s w).0.0 irq) j ≡ slot_of (line_of w.0 irq) j)
  visit_slot-keeps irq w i j s leaves lt n here ij = elim (Bool-cases (s.handler == 0)) [
    | inl z ↦ simp z (n, refl)
    | inr z ↦ simp z (elim (leaves s.handler irq s.context w) [
      | inl stays ↦ rw stays (n, refl)
      | inr gone ↦ rw gone (
          unregister-keeps w.0 irq s.handler s.context i j n lt (omega (tests, z))
            (rw here (ground arith)) ij)
    ])
  ]

  dispatch_slots-visit_all :
      (irq slot : ℕ) (rest : Line) (claimed : Bool) (w : Registry × W)
      → OnlyLeaves
      → irq < 16
      → length w.0 ≡ 16
      → ((j : ℕ) → j < length rest → slot_of (line_of w.0 irq) (slot + j) ≡ slot_of rest j)
      → dispatch_slots call irq (length rest) slot claimed w ≡ visit_all irq rest claimed w
  unfolding dispatch_slots
  dispatch_slots-visit_all irq slot [] claimed w leaves lt n same = refl
  dispatch_slots-visit_all irq slot (s ∷ l) claimed w leaves lt n same =
      let here : slot_of (line_of w.0 irq) slot ≡ s =
        ap (slot_of (line_of w.0 irq)) (omega arith) ∙ same 0 (omega arith) in
      let keeps = λ (j : ℕ) (ij : slot < j). visit_slot-keeps irq w slot j s leaves lt n here ij in
      subst
        (λ (t : Slot).
          dispatch_slots call irq (length l) (slot + 1) ((visit_slot call irq t w).1 || claimed)
            (visit_slot call irq t w).0
          ≡ visit_all irq l ((visit_slot call irq s w).1 || claimed) (visit_slot call irq s w).0)
        (sym here)
        (dispatch_slots-visit_all irq (slot + 1) l ((visit_slot call irq s w).1 || claimed)
          (visit_slot call irq s w).0 leaves lt (keeps (slot + 1) (omega arith)).0
          (λ j lj.
            (keeps (slot + 1 + j) (omega arith)).1
            ∙ ap (slot_of (line_of w.0 irq)) (omega arith)
            ∙ same (suc j) (omega arith)))

  registry_dispatch-visit_all :
      (irq : ℕ) (w : Registry × W)
      → OnlyLeaves
      → IsValid w.0
      → irq < 16
      → registry_dispatch call irq w ≡ visit_all irq (line_of w.0 irq) false w
  unfolding registry_dispatch
  registry_dispatch-visit_all irq w leaves v lt =
      let no : leb 16 irq ≡ false = ground arith in
      let four = (line_of-IsLine w.0 irq v lt).slots in
      let walk =
        dispatch_slots-visit_all irq 0 (line_of w.0 irq) false w leaves lt v.lines
          (λ j lj. ap (slot_of (line_of w.0 irq)) (omega arith)) in
      simp no (
        subst
          (λ (n : ℕ). dispatch_slots call irq n 0 false w ≡ visit_all irq (line_of w.0 irq) false w)
          four walk)

  -- What the handlers of the slots of a line do one after the other, from the state `w` to `after`, and
  -- whether one of them claims the interrupt: an empty slot does nothing.
  pub data Calls (irq : ℕ) (after : Registry × W) : Line → Registry × W → Bool → Type 0 where
    calls_none : Calls irq after [] after false
    calls_empty :
        {s : Slot} {l : Line} {w : Registry × W} {b : Bool}
        → s.handler ≡ 0
        → Calls irq after l w b
        → Calls irq after (s ∷ l) w b
    calls_handler :
        {s : Slot} {l : Line} {w between : Registry × W} {c b : Bool}
        → s.handler ≢ 0
        → call s.handler irq s.context w ≡ (between, c)
        → Calls irq after l between b
        → Calls irq after (s ∷ l) w (c || b)

  -- `claimed` is what the slots before have answered.
  visit_all-Calls :
      (irq : ℕ) (l : Line) (claimed : Bool) (w : Registry × W)
      → (b : Bool) × ((visit_all irq l claimed w).1 ≡ (claimed || b))
        × Calls irq (visit_all irq l claimed w).0 l w b
  visit_all-Calls irq [] claimed w = (false, ground arith, calls_none)
  visit_all-Calls irq (s ∷ l) claimed w = elim (Bool-cases (s.handler == 0)) [
    | inl z ↦
        let (b, e, calls) = visit_all-Calls irq l claimed w in
        simp z (b, e, calls_empty (==→eq s.handler 0 z) calls)
    | inr n ↦
        let (between, c) = call s.handler irq s.context w in
        let (b, e, calls) = visit_all-Calls irq l (c || claimed) between in
        simp n (c || b, e ∙ or_swap c claimed b, calls_handler (==→ne s.handler 0 n) refl calls)
  ]

  -- For one of the 16 lines of a valid registry, when handlers at most remove their own
  -- registration, each handler that is registered on the line at the start is called once with the
  -- line and its context, in the order of the slots and on the state that the one before left; the
  -- last one leaves the state of the dispatch, and the result is whether one of them claims the
  -- interrupt.
  pub registry_dispatch-Calls :
      (irq : ℕ) (w : Registry × W)
      → OnlyLeaves
      → IsValid w.0
      → irq < 16
      → Calls irq
          (registry_dispatch call irq w).0
          (line_of w.0 irq)
          w
          (registry_dispatch call irq w).1
  registry_dispatch-Calls irq w leaves v lt =
      let walk = registry_dispatch-visit_all irq w leaves v lt in
      let (b, e, calls) = visit_all-Calls irq (line_of w.0 irq) false w in
      rw walk (
        subst (Calls irq (visit_all irq (line_of w.0 irq) false w).0 (line_of w.0 irq) w) (sym e)
          calls)
