-- ===== src/Scheduler/Outcomes.antt =====
-- kernel/scheduler.c: what `schedule` does, described without the walk of the ring.
use nostalux_os.Base.{
  ℕ, ◌≡◌, refl, sym, ap, ◌∙◌, ◌≢◌, inl, inr, Bool, true, false, not, ◌&&◌, ◌||◌, List, [], ◌∷◌,
  ◌++◌, map, arith, ◌==◌, if◌then◌else◌, ==→eq, ne→==, Bool-cases, All, Pairwise,
}
use nostalux_os.Scheduler.{
  TaskState, task_ready, task_dead, Task, Scheduler, is_ready, is_reaped, change_task,
}
use nostalux_os.Scheduler.Choice.{Outcome, keeps, switches, halts, reset_quantum}
use nostalux_os.Scheduler.Reap.{without}
use nostalux_os.Scheduler.Ring.{Apart, change_task-Apart}

abbrev pub NotReady : Task → Type 0
NotReady t = t.state ≡ task_dead

-- How the ring lies behind the current task: the tasks that were passed over are not ready.
pub data Chosen (t : Task) : List Task → Type 0 where
  chosen_first : {tasks : List Task} → t.state ≡ task_ready → Chosen t (t ∷ tasks)
  chosen_later : {u : Task} {tasks : List Task} → NotReady u → Chosen t tasks → Chosen t (u ∷ tasks)

abbrev pub Elsewhere : ℕ → List Task → Type 0
Elsewhere current tasks = All (λ (u : Task). u.id ≢ current) tasks

-- Where the current task stands in the list, and the other tasks in the order in which they lie behind it
-- in the ring: those behind it in the list, then those before it.
pub data Behind (current : ℕ) (tasks : List Task) (c : Task) : List Task → Type 0 where
  behind :
      (front back : List Task)
      → tasks ≡ front ++ (c ∷ back)
      → c.id ≡ current
      → Elsewhere current front
      → Behind current tasks c (back ++ front)

-- A task whose quantum starts again when it is one of the two of a switch.
abbrev pub rested : ℕ → ℕ → Task → Task
rested before after t =
    if (t.id == before) || (t.id == after) then record t { quantum_ticks = 0 } else t

-- The three outcomes of `schedule`, with what they leave, in a state without the ended tasks.
pub data Schedules (s : Scheduler) : Outcome × Scheduler → Type 0 where
  to_next :
      (c t : Task) (others : List Task)
      → Behind s.current s.tasks c others
      → Chosen t others
      → Schedules s
          (switches t.id, record s { tasks = map (rested s.current t.id) s.tasks; current = t.id })
  to_itself :
      (c : Task) (others : List Task)
      → Behind s.current s.tasks c others
      → All NotReady others
      → c.state ≡ task_ready
      → Schedules s (keeps, s)
  stops :
      (c : Task) (others : List Task)
      → Behind s.current s.tasks c others
      → All NotReady others
      → NotReady c
      → Schedules s (halts, s)

abbrev pub is_dead : TaskState → Bool
is_dead task_ready = false
is_dead task_dead = true

-- A dead task other than the current one.
abbrev pub is_ended : ℕ → Task → Bool
is_ended current t = not (t.id == current) && is_dead t.state

abbrev pub survivors : Scheduler → Scheduler
survivors s = record s { tasks = without (is_ended s.current) s.tasks }

ready_or_dead :
    (st : TaskState) → not (elim st [ task_ready ↦ true | task_dead ↦ false ]) ≡ is_dead st
ready_or_dead task_ready = refl
ready_or_dead task_dead = refl

is_reaped-ended : (current : ℕ) (t : Task) → is_reaped current t ≡ is_ended current t
is_reaped-ended current t = ap (λ (b : Bool). not (t.id == current) && b) (ready_or_dead t.state)

pub without-ended :
    (current : ℕ) (tasks : List Task)
    → without (is_reaped current) tasks ≡ without (is_ended current) tasks
without-ended current [] = refl
without-ended current (t ∷ tasks) =
    ap
      (λ (b : Bool).
        if b then without (is_reaped current) tasks else t ∷ without (is_reaped current) tasks)
      (is_reaped-ended current t)
    ∙ ap (λ (rest : List Task). if is_ended current t then rest else t ∷ rest)
        (without-ended current tasks)

ready_state :
    (st : TaskState) → elim st [ task_ready ↦ true | task_dead ↦ false ] ≡ true → st ≡ task_ready
ready_state task_ready h = refl
ready_state task_dead h = absurd (ground arith)

dead_state :
    (st : TaskState) → elim st [ task_ready ↦ true | task_dead ↦ false ] ≡ false → st ≡ task_dead
dead_state task_ready h = absurd (ground arith)
dead_state task_dead h = refl

pub is_ready-state : (t : Task) → is_ready t ≡ true → t.state ≡ task_ready
is_ready-state t h = ready_state t.state h

pub NotReady-state : (t : Task) → is_ready t ≡ false → NotReady t
NotReady-state t h = dead_state t.state h

abbrev changed : ℕ → (Task → Task) → Task → Task
changed id f u = if u.id == id then f u else u

map-Apart :
    (t : Task) (id : ℕ) (f : Task → Task) (tasks : List Task)
    → t.id ≡ id
    → All (Apart t) tasks
    → map (changed id f) tasks ≡ tasks
map-Apart t id f [] e h = refl
map-Apart t id f (u ∷ tasks) e h =
    simp (ne→== u.id id (λ q. h.0 (e ∙ sym q)))
      (ap (λ (rest : List Task). u ∷ rest) (map-Apart t id f tasks e h.1))

change_task-map :
    (id : ℕ) (f : Task → Task) (tasks : List Task)
    → Pairwise Apart tasks
    → change_task id f tasks ≡ map (changed id f) tasks
unfolding change_task
change_task-map id f [] h = refl
change_task-map id f (t ∷ tasks) h = elim (Bool-cases (t.id == id)) [
  | inl e ↦
      simp e
        (ap (λ (rest : List Task). f t ∷ rest) (sym (map-Apart t id f tasks (==→eq t.id id e) h.0)))
  | inr n ↦ simp n (ap (λ (rest : List Task). t ∷ rest) (change_task-map id f tasks h.1))
]

rested_twice :
    (before after : ℕ) (u : Task)
    → changed after reset_quantum (changed before reset_quantum u) ≡ rested before after u
rested_twice before after u = elim (Bool-cases (u.id == before)) [
  | inl e ↦ elim (Bool-cases (u.id == after)) [
    | inl a ↦ simp (e, a) refl
    | inr n ↦ simp (e, n) refl
  ]
  | inr m ↦ elim (Bool-cases (u.id == after)) [
    | inl a ↦ simp (m, a) refl
    | inr n ↦ simp (m, n) refl
  ]
]

map-rested :
    (before after : ℕ) (tasks : List Task)
    → map (changed after reset_quantum) (map (changed before reset_quantum) tasks)
      ≡ map (rested before after) tasks
map-rested before after [] = refl
map-rested before after (u ∷ tasks) =
    ap
      (λ (t : Task).
        t ∷ map (changed after reset_quantum) (map (changed before reset_quantum) tasks))
      (rested_twice before after u)
    ∙ ap (λ (rest : List Task). rested before after u ∷ rest) (map-rested before after tasks)

-- What a switch does to the quantum of the two tasks.
pub reset-rested :
    (before after : ℕ) (tasks : List Task)
    → Pairwise Apart tasks
    → change_task after reset_quantum (change_task before reset_quantum tasks)
      ≡ map (rested before after) tasks
reset-rested before after tasks h =
    change_task-map after reset_quantum (change_task before reset_quantum tasks)
      (change_task-Apart before reset_quantum tasks (λ u. refl) h)
    ∙ ap (map (changed after reset_quantum)) (change_task-map before reset_quantum tasks h)
    ∙ map-rested before after tasks
