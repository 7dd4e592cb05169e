-- ===== src/Scheduler/Steps.antt =====
-- kernel/scheduler.c: runs of the scheduler.
use nostalux_os.Base.{
  u64_mod, ℕ, ◌+◌, ◌<◌, ◌≡◌, refl, inl, inr, Bool, true, false, not, ◌&&◌, ◌||◌, Option, none, some,
  List, [], arith, ltb, ◌==◌, if◌then◌else◌, Bool-cases,
}
use nostalux_os.Scheduler.{
  Task, Scheduler, user_quantum_ticks, allocate_task_id, main_name, task_name, user_name, name_or,
  is_ready, reaped, kernel_task, init_with, scheduler_init, spawn_stack, has_tasks,
  spawn_named_task, user_task, Mapped, user_process_is_valid, scheduler_spawn_user_process,
  change_task, dead, find_task, terminate_found, scheduler_terminate_task,
  scheduler_terminate_app_process,
}
use nostalux_os.Scheduler.Choice.{
  ring_behind, current_task, keeps, or_current, reset_quantum, switched, schedule_from, schedule,
  exit_current_task, scheduler_current_is_user, ticks_of, with_ticks, scheduler_timer_tick,
}
use nostalux_os.Scheduler.Numbers.{
  allocate-new, new_given, spawn_stack-IsRing, IsRing-if, terminate_found-IsRing,
}
use nostalux_os.Scheduler.Pick.{picked}
use nostalux_os.Scheduler.Ring.{IsRing, reaped-IsRing, change_task-Among, changed-IsRing}

switched-IsRing :
    (o c : Option Task) (s : Scheduler)
    → find_task is_ready (ring_behind s.current [] s.tasks) ≡ o
    → IsRing s
    → IsRing (switched (or_current o c) s).1
switched-IsRing (some t) c s e h =
    let once = changed-IsRing s s.current reset_quantum (λ u. refl) h in
    let twice =
      changed-IsRing (record s { tasks = change_task s.current reset_quantum s.tasks }) t.id
        reset_quantum (λ u. refl) once in
    record {
      numbers = twice.numbers;
      given_out = twice.given_out;
      current_is =
          change_task-Among t.id t.id reset_quantum (change_task s.current reset_quantum s.tasks)
            (λ u. refl)
            (change_task-Among s.current t.id reset_quantum s.tasks (λ u. refl)
              (picked s.current s.tasks t e).0);
      next_fits = h.next_fits;
    }
switched-IsRing none none s e h = h
switched-IsRing none (some t) s e h = elim (Bool-cases (is_ready t)) [
  | inl r ↦ simp r h
  | inr n ↦ simp n h
]

schedule_from-IsRing : (o : Option Task) (s : Scheduler) → IsRing s → IsRing (schedule_from o s).1
schedule_from-IsRing none s h = h
schedule_from-IsRing (some t) s h =
    let r = reaped s in
    switched-IsRing (find_task is_ready (ring_behind r.current [] r.tasks)) (current_task r) r refl
      (reaped-IsRing s h)

schedule-IsRing : (s : Scheduler) → IsRing s → IsRing (schedule s).1
unfolding schedule
schedule-IsRing s h = schedule_from-IsRing (current_task s) s h

tick_choice :
    (b c : Bool) (s counted full : Scheduler)
    → IsRing s
    → IsRing counted
    → IsRing full
    → IsRing (if b then (keeps, s) else if c then (keeps, counted) else schedule full).1
tick_choice true c s counted full h k l = h
tick_choice false true s counted full h k l = k
tick_choice false false s counted full h k l = schedule-IsRing full l

tick-IsRing : (s : Scheduler) → IsRing s → IsRing (scheduler_timer_tick s).1
unfolding scheduler_timer_tick
tick-IsRing s h =
    let n = ticks_of (current_task s) in
    let after = if ltb n user_quantum_ticks then n + 1 else n in
    tick_choice (not (scheduler_current_is_user s)) (ltb after user_quantum_ticks) s
      (record s { tasks = change_task s.current (with_ticks after) s.tasks })
      (record s { tasks = change_task s.current (with_ticks 0) s.tasks }) h
      (changed-IsRing s s.current (with_ticks after) (λ u. refl) h)
      (changed-IsRing s s.current (with_ticks 0) (λ u. refl) h)

-- One call of the scheduler, with what the allocator and the page tables answer.
pub data Step (s : Scheduler) : Scheduler → Type 0 where
  spawns :
      (stack : Option ℕ) (name : List ℕ) (entry_point : ℕ)
      → Step s (spawn_named_task stack name entry_point s).1
  spawns_user :
      (mapped : Mapped) (stack : Option ℕ) (name : List ℕ)
      (space entry_point user_stack_top process capabilities : ℕ)
      → Step s
          (scheduler_spawn_user_process mapped stack name space entry_point user_stack_top process
            capabilities s).1
  terminates : (id : ℕ) → Step s (scheduler_terminate_task id s).1
  terminates_app : (process : ℕ) → Step s (scheduler_terminate_app_process process s).1
  timer_ticks : Step s (scheduler_timer_tick s).1
  yields : Step s (schedule s).1
  exits : Step s (exit_current_task s).1
  resumes : Step s (reaped s)

Step-IsRing : (s after : Scheduler) → Step s after → IsRing s → IsRing after
unfolding spawn_named_task scheduler_spawn_user_process scheduler_terminate_task
    scheduler_terminate_app_process scheduler_timer_tick
Step-IsRing s after (spawns stack name entry_point) h =
    let task = λ (top id : ℕ). kernel_task id (name_or name task_name) top in
    IsRing-if ((entry_point == 0) || not (has_tasks s.tasks)) s (spawn_stack stack task s) h
      (spawn_stack-IsRing stack task s (λ top id. refl) h)
Step-IsRing s after
      (spawns_user mapped stack name space entry_point user_stack_top process capabilities) h =
    let task = λ (top id : ℕ).
      user_task id (name_or name user_name) top space entry_point user_stack_top process
        capabilities in
    IsRing-if
      (not (has_tasks s.tasks)
        || not (user_process_is_valid mapped space entry_point user_stack_top process capabilities))
      s (spawn_stack stack task s) h (spawn_stack-IsRing stack task s (λ top id. refl) h)
Step-IsRing s after (terminates id) h =
    let o = find_task (λ (t : Task). t.id == id) s.tasks in
    IsRing-if (id == 0) s (terminate_found o s) h (terminate_found-IsRing o s h)
Step-IsRing s after (terminates_app process) h =
    let o = find_task (λ (t : Task). t.is_user && (t.app_process_id == process)) s.tasks in
    IsRing-if (process == 0) s (terminate_found o s) h (terminate_found-IsRing o s h)
Step-IsRing s after timer_ticks h = tick-IsRing s h
Step-IsRing s after yields h = schedule-IsRing s h
Step-IsRing s after exits h =
    schedule-IsRing (record s { tasks = change_task s.current dead s.tasks })
      (changed-IsRing s s.current dead (λ u. refl) h)
Step-IsRing s after resumes h = reaped-IsRing s h

-- Any calls in any order.
pub data Run (s : Scheduler) : Scheduler → Type 0 where
  rests : Run s s
  continues : {t u : Scheduler} → Run s t → Step t u → Run s u

Run-IsRing : (s after : Scheduler) → Run s after → IsRing s → IsRing after
Run-IsRing s after rests h = h
Run-IsRing s after (continues {t = t} steps step) h =
    Step-IsRing t after step (Run-IsRing s t steps h)

allocate-none : (n : ℕ) → 0 < n → allocate_task_id n ≡ none → ⊥
unfolding allocate_task_id
allocate-none n pos e = ground arith

init_with-IsRing :
    (o : Option (ℕ × ℕ)) (stack_top : ℕ) (s : Scheduler)
    → 0 < s.next_pid
    → s.next_pid < u64_mod
    → allocate_task_id s.next_pid ≡ o
    → IsRing (init_with stack_top o s)
init_with-IsRing none stack_top s pos fits e = absurd (allocate-none s.next_pid pos e)
init_with-IsRing (some (id, m)) stack_top s pos fits e =
    let (q, lt, fits', c) = allocate-new s.next_pid id m fits e in
    record {
      numbers = (tt, tt);
      given_out =
          (new_given s.next_pid id m (kernel_task id main_name stack_top) refl fits q lt c, tt);
      current_is = inl refl;
      next_fits = fits';
    }

init-IsRing :
    (stack_top : ℕ) (s : Scheduler)
    → 0 < s.next_pid
    → s.next_pid < u64_mod
    → IsRing (scheduler_init true stack_top s)
unfolding scheduler_init
init-IsRing stack_top s pos fits =
    init_with-IsRing (allocate_task_id s.next_pid) stack_top s pos fits refl

-- After a `scheduler_init` that gets the memory of the first task, from a next number that is neither 0 nor
-- beyond 64 bits, and any calls in any order, whatever the allocator and the page tables answer in them,
-- the tasks of the ring have different numbers, which were all given out and are not 0, and the
-- current task is among them.
pub scheduler_init-IsRing :
    (stack_top : ℕ) (s after : Scheduler)
    → 0 < s.next_pid
    → s.next_pid < u64_mod
    → Run (scheduler_init true stack_top s) after
    → IsRing after
scheduler_init-IsRing stack_top s after pos fits steps =
    Run-IsRing (scheduler_init true stack_top s) after steps (init-IsRing stack_top s pos fits)
