-- ===== src/Scheduler/Pick.antt =====
-- kernel/scheduler.c: the task that is chosen next.
use nostalux_os.Base.{
  ℕ, ◌≡◌, refl, sym, ap, ◌∙◌, subst, inl, inr, Bool, true, false, Option, none, some, List, [], ◌∷◌,
  ◌++◌, append-nil, append_assoc, arith, ◌==◌, ==→eq, ==→ne, Bool-cases, All, All-snoc, All-imp,
  Pairwise,
}
use nostalux_os.Scheduler.{Task, Scheduler, is_ready, is_reaped, reaped, find_task}
use nostalux_os.Scheduler.Choice.{
  ring_behind, current_task, switches, or_current, switched, schedule_from, schedule,
}
use nostalux_os.Scheduler.Outcomes.{
  behind, NotReady, Chosen, chosen_first, chosen_later, Elsewhere, Behind, Schedules, to_next,
  to_itself, stops, survivors, without-ended, is_ready-state, NotReady-state, reset-rested,
}
use nostalux_os.Scheduler.Reap.{reap_dead_tasks-without, Pairwise-without}
use nostalux_os.Scheduler.Ring.{Apart, Among, Among-rest, reaped-Among}

some_eq : (a b : Task) → some a ≡ some b → a ≡ b
some_eq a b e = ground arith

All-both {κ} : (P : Task → Type κ) (xs ys : List Task) → All P xs → All P ys → All P (xs ++ ys)
All-both P [] ys h k = k
All-both P (x ∷ xs) ys h k = (h.0, All-both P xs ys h.1 k)

pub find_task-All {κ} :
    (P : Task → Type κ) (test : Task → Bool) (tasks : List Task) (t : Task)
    → find_task test tasks ≡ some t
    → All P tasks
    → P t × (test t ≡ true)
unfolding find_task
find_task-All P test [] t e h = absurd (ground arith)
find_task-All P test (u ∷ tasks) t e h = elim (Bool-cases (test u)) [
  | inl y ↦
      let q : u ≡ t = some_eq u t (simp y at e) in
      subst (λ (x : Task). P x × (test x ≡ true)) q (h.0, y)
  | inr n ↦ find_task-All P test tasks t (simp n at e) h.1
]

pub ring_behind-All {κ} :
    (P : Task → Type κ) (current : ℕ) (before tasks : List Task)
    → All P before
    → All P tasks
    → All P (ring_behind current before tasks)
unfolding ring_behind
ring_behind-All P current before [] hb h = tt
ring_behind-All P current before (t ∷ tasks) hb h = elim (Bool-cases (t.id == current)) [
  | inl e ↦ simp e (All-both P tasks before h.1 hb)
  | inr n ↦
      simp n (ring_behind-All P current (before ++ (t ∷ [])) tasks (All-snoc P before t hb h.0) h.1)
]

All-weaken :
    (t : Task) (tasks part : List Task)
    → All (λ (u : Task). Among u.id tasks) part
    → All (λ (u : Task). Among u.id (t ∷ tasks)) part
All-weaken t tasks part h =
    All-imp (λ (u : Task). Among u.id tasks) (λ (u : Task). Among u.id (t ∷ tasks)) part
      (λ u a. inr a) h

All-Among : (tasks : List Task) → All (λ (u : Task). Among u.id tasks) tasks
All-Among [] = tt
All-Among (t ∷ tasks) = (inl refl, All-weaken t tasks tasks (All-Among tasks))

-- The task that is found behind the current one stands in the ring and is ready.
pub picked :
    (current : ℕ) (tasks : List Task) (t : Task)
    → find_task is_ready (ring_behind current [] tasks) ≡ some t
    → Among t.id tasks × (is_ready t ≡ true)
picked current tasks t e =
    find_task-All (λ (u : Task). Among u.id tasks) is_ready (ring_behind current [] tasks) t e
      (ring_behind-All (λ (u : Task). Among u.id tasks) current [] tasks tt (All-Among tasks))

some-none : (t : Task) → some t ≡ none → ⊥
some-none t e = ground arith

find_task-none : (tasks : List Task) → find_task is_ready tasks ≡ none → All NotReady tasks
unfolding find_task
find_task-none [] e = tt
find_task-none (t ∷ tasks) e = elim (Bool-cases (is_ready t)) [
  | inl y ↦ absurd (some-none t (simp y at e))
  | inr n ↦ (NotReady-state t n, find_task-none tasks (simp n at e))
]

find_task-Chosen :
    (tasks : List Task) (t : Task) → find_task is_ready tasks ≡ some t → Chosen t tasks
unfolding find_task
find_task-Chosen [] t e = absurd (ground arith)
find_task-Chosen (u ∷ tasks) t e = elim (Bool-cases (is_ready u)) [
  | inl y ↦
      let q : u ≡ t = some_eq u t (simp y at e) in
      subst (λ (x : Task). Chosen x (u ∷ tasks)) q (chosen_first (is_ready-state u y))
  | inr n ↦ chosen_later (NotReady-state u n) (find_task-Chosen tasks t (simp n at e))
]

-- What the walk of the ring and the search for the current task find.
record Walk (current : ℕ) (before tasks : List Task) : Type 0 where
  front : List Task
  at : Task
  back : List Task
  split : tasks ≡ front ++ (at ∷ back)
  number : at.id ≡ current
  elsewhere : Elsewhere current front
  ring : ring_behind current before tasks ≡ back ++ (before ++ front)
  search : find_task (λ t. t.id == current) tasks ≡ some at

Walk-next :
    (current : ℕ) (before tasks : List Task) (t : Task)
    → (t.id == current) ≡ false
    → Walk current (before ++ (t ∷ [])) tasks
    → Walk current before (t ∷ tasks)
unfolding ring_behind find_task
Walk-next current before tasks t n w = record {
  front = t ∷ w.front;
  at = w.at;
  back = w.back;
  split = ap (λ (rest : List Task). t ∷ rest) w.split;
  number = w.number;
  elsewhere = (==→ne t.id current n, w.elsewhere);
  ring =
      simp n (w.ring ∙ ap (λ (l : List Task). w.back ++ l) (append_assoc before (t ∷ []) w.front));
  search = simp n w.search;
}

ring_behind-Walk :
    (current : ℕ) (before tasks : List Task) → Among current tasks → Walk current before tasks
unfolding ring_behind find_task
ring_behind-Walk current before [] h = absurd h
ring_behind-Walk current before (t ∷ tasks) h = elim (Bool-cases (t.id == current)) [
  | inl e ↦ record {
    front = [];
    at = t;
    back = tasks;
    split = refl;
    number = ==→eq t.id current e;
    elsewhere = tt;
    ring = simp e (ap (λ (l : List Task). tasks ++ l) (sym (append-nil before)));
    search = simp e refl;
  }
  | inr n ↦
      Walk-next current before tasks t n
        (ring_behind-Walk current (before ++ (t ∷ [])) tasks (Among-rest current t tasks n h))
]

outcome-Schedules :
    (s : Scheduler) (others : List Task) (c : Task) (o : Option Task)
    → Pairwise Apart s.tasks
    → Behind s.current s.tasks c others
    → find_task is_ready others ≡ o
    → Schedules s (switched (or_current o (some c)) s)
outcome-Schedules s others c (some t) d b e =
    subst
      (λ (tasks : List Task).
        Schedules s (switches t.id, record s { tasks = tasks; current = t.id }))
      (sym (reset-rested s.current t.id s.tasks d))
      (to_next c t others b (find_task-Chosen others t e))
outcome-Schedules s others c none d b e = elim (Bool-cases (is_ready c)) [
  | inl r ↦ simp r (to_itself c others b (find_task-none others e) (is_ready-state c r))
  | inr n ↦ simp n (stops c others b (find_task-none others e) (NotReady-state c n))
]

chosen-Schedules :
    (s : Scheduler)
    → Pairwise Apart s.tasks
    → Among s.current s.tasks
    → Schedules s (
        switched
          (or_current (find_task is_ready (ring_behind s.current [] s.tasks)) (current_task s))
          s)
chosen-Schedules s d h =
    let w = ring_behind-Walk s.current [] s.tasks h in
    let b = behind w.front w.back w.split w.number w.elsewhere in
    rw (w.ring, w.search)
      (outcome-Schedules s (w.back ++ w.front) w.at (find_task is_ready (w.back ++ w.front)) d b
        refl)

schedule_from-Schedules :
    (o : Option Task) (s : Scheduler)
    → Pairwise Apart s.tasks
    → Among s.current s.tasks
    → current_task s ≡ o
    → Schedules (survivors s) (schedule_from o s)
schedule_from-Schedules none s d h e =
    let w = ring_behind-Walk s.current [] s.tasks h in absurd (some-none w.at (sym w.search ∙ e))
schedule_from-Schedules (some t) s d h e =
    subst (λ (tasks : List Task). Schedules (record s { tasks = tasks }) (schedule_from (some t) s))
      (reap_dead_tasks-without s.current s.tasks ∙ without-ended s.current s.tasks)
      (chosen-Schedules (reaped s)
        (subst (Pairwise Apart) (sym (reap_dead_tasks-without s.current s.tasks))
          (Pairwise-without Apart (is_reaped s.current) s.tasks d))
        (reaped-Among s h))

-- When the tasks of the ring have different numbers and the current one is among them, `schedule` takes
-- the dead tasks other than the current one out of the list. Then it switches to the first ready task
-- behind the current one, round the ring, which becomes the current task, and the quantum of both
-- starts again; when none of the others is ready it keeps a current task that is ready, and halts when
-- that is not ready either, and nothing else changes.
pub schedule-Schedules :
    (s : Scheduler)
    → Pairwise Apart s.tasks
    → Among s.current s.tasks
    → Schedules (survivors s) (schedule s)
unfolding schedule
schedule-Schedules s d h = schedule_from-Schedules (current_task s) s d h refl
