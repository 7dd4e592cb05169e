-- ===== src/Irq.antt =====
-- kernel/irq_registry.c: the handlers that share an interrupt line. A function pointer and a context
-- are their addresses, 0 for NULL. The functions other than `registry_init` are given the registry
-- itself: for the registry NULL each returns false, or 0, at once.
pub mod Slots
pub mod Changes
pub mod Dispatch
mod Examples
use nostalux_os.Base.{
  ℕ, zero, suc, ◌+◌, Bool, true, false, ◌&&◌, ◌||◌, Option, none, some, List, [], ◌∷◌, map, leb,
  ◌==◌, if◌then◌else◌, get_or, set,
}

-- `struct irq_registry_slot`.
pub record Slot : Type 0 where
  pub handler : ℕ
  pub context : ℕ

abbrev pub line_count : ℕ
line_count = 16

abbrev pub handlers_per_line : ℕ
handlers_per_line = 4

abbrev pub Line : Type 0
Line = List Slot

-- `struct irq_registry`: 16 lines of 4 slots.
abbrev pub Registry : Type 0
Registry = List Line

abbrev pub empty_slot : Slot
empty_slot = record { handler = 0; context = 0 }

abbrev pub line_of : Registry → ℕ → Line
line_of r irq = get_or r irq []

abbrev pub slot_of : Line → ℕ → Slot
slot_of l i = get_or l i empty_slot

-- The loop over the slots of a line writes each of them.
abbrev pub clear_line : Line → Line
clear_line = map λ _. empty_slot

-- `none` is the registry NULL.
unfoldable pub registry_init : Option Registry → Option Registry
registry_init none = none
registry_init (some r) = some (map clear_line r)

abbrev pub is_entry : ℕ → ℕ → Slot → Bool
is_entry handler context s = (s.handler == handler) && (s.context == context)

-- How the loop of `irq_registry_register` ends: with an early `true`, or with `free_slot`.
pub data Search : Type 0 where
  registered : Search
  ended : ℕ → Search

-- `slot` counts the slots passed and `free_slot` is 4 until an empty slot is met.
unfoldable pub search_slots : ℕ → ℕ → Line → ℕ → ℕ → Search
search_slots handler context [] slot free_slot = ended free_slot
search_slots handler context (s ∷ l) slot free_slot =
    let rest = search_slots handler context l (slot + 1) in
    if is_entry handler context s
    then registered
    else if (s.handler == 0) && (free_slot == handlers_per_line)
    then rest slot
    else rest free_slot

unfoldable pub add_entry : ℕ → ℕ → Line → Option Line
add_entry handler context l = elim (search_slots handler context l 0 handlers_per_line) [
  | registered ↦ some l
  | ended free_slot ↦
      if free_slot == handlers_per_line
      then none
      else some (set l free_slot (record { handler = handler; context = context }))
]

unfoldable pub remove_entry : ℕ → ℕ → Line → Option Line
remove_entry handler context [] = none
remove_entry handler context (s ∷ l) =
    let rest = remove_entry handler context l in
    if is_entry handler context s
    then some (empty_slot ∷ l)
    else elim rest [ none ↦ none | some l' ↦ some (s ∷ l') ]

-- The line `irq` after a change, and whether there was one.
abbrev pub store_line : Registry → ℕ → Option Line → Registry × Bool
store_line r irq none = (r, false)
store_line r irq (some l) = (set r irq l, true)

unfoldable pub registry_register : Registry → ℕ → ℕ → ℕ → Registry × Bool
registry_register r irq handler context =
    if leb line_count irq || (handler == 0)
    then (r, false)
    else store_line r irq (add_entry handler context (line_of r irq))

unfoldable pub registry_unregister : Registry → ℕ → ℕ → ℕ → Registry × Bool
registry_unregister r irq handler context =
    if leb line_count irq || (handler == 0)
    then (r, false)
    else store_line r irq (remove_entry handler context (line_of r irq))

abbrev pub count_slots : Line → ℕ
count_slots [] = 0
count_slots (s ∷ l) = if s.handler == 0 then count_slots l else suc (count_slots l)

unfoldable pub registry_count : Registry → ℕ → ℕ
registry_count r irq = if leb line_count irq then 0 else count_slots (line_of r irq)

-- A handler is code of its own: called with the line and its context, it may change the registry
-- and the rest of the state, of type `W`, and says whether it claims the interrupt.
module _ {W : Type 0} (call : ℕ → ℕ → ℕ → Registry × W → (Registry × W) × Bool) where
  abbrev pub visit_slot : ℕ → Slot → Registry × W → (Registry × W) × Bool
  visit_slot irq s w = if s.handler == 0 then (w, false) else call s.handler irq s.context w

  -- The loop at `slot` with `left` slots to go.
  unfoldable pub dispatch_slots : ℕ → ℕ → ℕ → Bool → Registry × W → (Registry × W) × Bool
  dispatch_slots irq zero slot claimed w = (w, claimed)
  dispatch_slots irq (suc left) slot claimed w =
      let after = visit_slot irq (slot_of (line_of w.0 irq) slot) w in
      dispatch_slots irq left (slot + 1) (after.1 || claimed) after.0

  unfoldable pub registry_dispatch : ℕ → Registry × W → (Registry × W) × Bool
  registry_dispatch irq w =
      if leb line_count irq then (w, false) else dispatch_slots irq handlers_per_line 0 false w
