-- ===== src/Scheduler/Examples.antt =====
-- kernel/scheduler.c: the first task and one that it spawns.
use nostalux_os.Base.{◌≡◌, refl, true, some, [], arith}
use nostalux_os.Scheduler.{
  Scheduler, allocate_task_id, reap_behind, reap_dead_tasks, scheduler_init, spawn_named_task,
  scheduler_task_count, find_task,
}
use nostalux_os.Scheduler.Choice.{ring_behind, switches, schedule}
use nostalux_os.Scheduler.Outcomes.{Schedules, survivors}
use nostalux_os.Scheduler.Pick.{schedule-Schedules}
use nostalux_os.Scheduler.Ring.{IsRing}
use nostalux_os.Scheduler.Steps.{spawns, yields, Run, rests, continues, scheduler_init-IsRing}

abbrev nothing : Scheduler
nothing = record { tasks = []; current = 0; next_pid = 1 }

abbrev booted : Scheduler
booted = scheduler_init true 4096 nothing

abbrev spawned : Scheduler
spawned = (spawn_named_task (some 8192) [] 77 booted).1

spawned_count : scheduler_task_count spawned ≡ 2
unfolding scheduler_init spawn_named_task allocate_task_id scheduler_task_count
spawned_count = refl

switch_to_spawned : (schedule spawned).0 ≡ switches 2
unfolding schedule scheduler_init spawn_named_task allocate_task_id ring_behind find_task
    reap_dead_tasks reap_behind
switch_to_spawned = refl

session : Run booted (schedule spawned).1
session = continues (continues rests (spawns (some 8192) [] 77)) yields

scheduler_init-IsRing_example : IsRing (schedule spawned).1
scheduler_init-IsRing_example =
    scheduler_init-IsRing 4096 nothing (schedule spawned).1 (omega arith) (omega arith) session

spawned-IsRing : IsRing spawned
spawned-IsRing =
    scheduler_init-IsRing 4096 nothing spawned (omega arith) (omega arith)
      (continues rests (spawns (some 8192) [] 77))

schedule-Schedules_example : Schedules (survivors spawned) (schedule spawned)
schedule-Schedules_example =
    schedule-Schedules spawned spawned-IsRing.numbers spawned-IsRing.current_is
