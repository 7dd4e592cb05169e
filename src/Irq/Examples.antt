-- ===== src/Irq/Examples.antt =====
-- The interrupt registry with two handlers on line 3, the first of which leaves when it is called.
use nostalux_os.Base.{
  ℕ, suc, ◌≡◌, refl, ◌⊎◌, inl, inr, Bool, true, false, not, ◌&&◌, ◌||◌, List, [], ◌∷◌, arith, ◌==◌,
  if◌then◌else◌, Bool-cases, set, replicate, All-replicate,
}
use nostalux_os.Irq.{
  Line, Registry, empty_slot, line_of, remove_entry, registry_register, registry_unregister,
  registry_count, dispatch_slots, registry_dispatch,
}
use nostalux_os.Irq.Changes.{
  IsValid, Holds, IsLine, set-IsValid, registry_register-adds, registry_unregister-removes,
}
use nostalux_os.Irq.Dispatch.{OnlyLeaves, Calls, registry_dispatch-Calls}
use nostalux_os.Irq.Slots.{has}

abbrev quiet : Registry
quiet = replicate 16 (replicate 4 empty_slot)

abbrev shared_line : Line
shared_line =
    record { handler = 100; context = 1 }
    ∷ empty_slot
    ∷ record { handler = 200; context = 2 }
    ∷ empty_slot
    ∷ []

abbrev shared : Registry
shared = set quiet 3 shared_line

quiet-IsValid : IsValid quiet
quiet-IsValid = record {
  lines = refl;
  each =
      All-replicate IsLine 16 (replicate 4 empty_slot)
        (record { slots = refl; distinct = (inl refl, (inl refl, (inl refl, (inl refl, tt)))) });
}

shared-IsValid : IsValid shared
shared-IsValid =
    set-IsValid quiet 3 shared_line quiet-IsValid
      (record { slots = refl; distinct = (inr refl, (inl refl, (inr refl, (inl refl, tt)))) })

-- Each call is logged; the handler at 100 leaves, and the one at 200 claims the interrupt.
abbrev leaving : ℕ → ℕ → ℕ → Registry × List ℕ → (Registry × List ℕ) × Bool
leaving handler irq context w =
    if handler == 100
    then (((registry_unregister w.0 irq handler context).0, handler ∷ w.1), false)
    else ((w.0, handler ∷ w.1), true)

leaving-OnlyLeaves : OnlyLeaves leaving
leaving-OnlyLeaves h irq c w = elim (Bool-cases (h == 100)) [
  | inl e ↦ inr (simp e refl)
  | inr n ↦ inl (simp n refl)
]

dispatch_run : registry_dispatch leaving 3 (shared, []) ≡ (
  (
    set shared 3
        (empty_slot ∷ empty_slot ∷ record { handler = 200; context = 2 } ∷ empty_slot ∷ []),
    200 ∷ 100 ∷ [],
  ),
  true,
)
unfolding registry_dispatch dispatch_slots registry_unregister remove_entry
dispatch_run = refl

registry_dispatch-Calls_example :
    Calls leaving 3
      (registry_dispatch leaving 3 (shared, [])).0
      shared_line
      (shared, [])
      (registry_dispatch leaving 3 (shared, [])).1
registry_dispatch-Calls_example =
    registry_dispatch-Calls leaving 3 (shared, []) leaving-OnlyLeaves shared-IsValid (omega arith)

registry_register-adds_example :
    ((r' : Registry) × (registry_register shared 3 300 9 ≡ (r', true))
      × IsValid r'
      × Holds (λ old new. old || new) shared r' 3 300 9
      × (registry_count r' 3 ≡ (
          if has 300 9 (line_of shared 3)
          then registry_count shared 3
          else suc (registry_count shared 3))))
    ⊎ ((registry_register shared 3 300 9 ≡ (shared, false))
        × (has 300 9 (line_of shared 3) ≡ false)
        × (registry_count shared 3 ≡ 4))
registry_register-adds_example =
    registry_register-adds shared 3 300 9 shared-IsValid (omega arith) (ground arith)

registry_unregister-removes_example :
    ((r' : Registry) × (registry_unregister shared 3 200 2 ≡ (r', true))
      × IsValid r'
      × Holds (λ old gone. old && not gone) shared r' 3 200 2
      × (suc (registry_count r' 3) ≡ registry_count shared 3))
    ⊎ ((registry_unregister shared 3 200 2 ≡ (shared, false))
        × (has 200 2 (line_of shared 3) ≡ false))
registry_unregister-removes_example =
    registry_unregister-removes shared 3 200 2 shared-IsValid (omega arith) (ground arith)
