-- ===== src/Scheduler/Choice.antt =====
-- kernel/scheduler.c: `schedule` and the quantum of a user task.
use nostalux_os.Base.{
  ℕ, ◌+◌, Bool, false, not, ◌&&◌, Option, none, some, List, [], ◌∷◌, ◌++◌, ltb, ◌==◌, if◌then◌else◌,
}
use nostalux_os.Scheduler.{
  Task, Scheduler, user_quantum_ticks, is_ready, reaped, change_task, dead, find_task,
}

-- The tasks behind the current one, up to it and round the ring: those behind it in the list, then those
-- before it.
unfoldable pub ring_behind : ℕ → List Task → List Task → List Task
ring_behind current before [] = []
ring_behind current before (t ∷ tasks) =
    let rest = ring_behind current (before ++ (t ∷ [])) tasks in
    if t.id == current then tasks ++ before else rest

abbrev pub current_task : Scheduler → Option Task
current_task s = find_task (λ t. t.id == s.current) s.tasks

pub data Outcome : Type 0 where
  keeps : Outcome
  switches : ℕ → Outcome
  halts : Outcome

abbrev pub or_current : Option Task → Option Task → Outcome
or_current (some t) current = switches t.id
or_current none none = halts
or_current none (some t) = if is_ready t then keeps else halts

abbrev pub reset_quantum : Task → Task
reset_quantum t = record t { quantum_ticks = 0 }

abbrev pub switched : Outcome → Scheduler → Outcome × Scheduler
switched (switches id) s = (
  switches id,
  record s {
    tasks = change_task id reset_quantum (change_task s.current reset_quantum s.tasks);
    current = id;
  },
)
switched outcome s = (outcome, s)

-- `schedule` up to the switch; a task that is resumed behind the switch runs `reap_dead_tasks` again.
abbrev pub schedule_from : Option Task → Scheduler → Outcome × Scheduler
schedule_from none s = (keeps, s)
schedule_from (some t) s =
    let r = reaped s in
    switched (or_current (find_task is_ready (ring_behind r.current [] r.tasks)) (current_task r)) r

-- Without a current task the function returns at once.
unfoldable pub schedule : Scheduler → Outcome × Scheduler
schedule s = schedule_from (current_task s) s

-- `exit_current_task`, and the ends of a user task by exit or by a fault.
abbrev pub exit_current_task : Scheduler → Outcome × Scheduler
exit_current_task s = schedule (record s { tasks = change_task s.current dead s.tasks })

abbrev pub is_user_ready : Option Task → Bool
is_user_ready none = false
is_user_ready (some t) = t.is_user && is_ready t

unfoldable pub scheduler_current_is_user : Scheduler → Bool
scheduler_current_is_user s = is_user_ready (current_task s)

abbrev pub ticks_of : Option Task → ℕ
ticks_of none = 0
ticks_of (some t) = t.quantum_ticks

abbrev pub with_ticks : ℕ → Task → Task
with_ticks n t = record t { quantum_ticks = n }

unfoldable pub scheduler_timer_tick : Scheduler → Outcome × Scheduler
scheduler_timer_tick s =
    let ticks = ticks_of (current_task s) in
    let after = if ltb ticks user_quantum_ticks then ticks + 1 else ticks in
    if not (scheduler_current_is_user s)
    then (keeps, s)
    else if ltb after user_quantum_ticks
    then (keeps, record s { tasks = change_task s.current (with_ticks after) s.tasks })
    else schedule (record s { tasks = change_task s.current (with_ticks 0) s.tasks })
