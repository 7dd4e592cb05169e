-- ===== src/Scheduler.antt =====
-- kernel/scheduler.c: the ring of tasks. The ring is the list of its tasks from `g_head` on; a pointer to
-- a task is the number of the task, as no two tasks of the ring have the same. The stacks, their
-- canaries, the floating point state and the switch itself, which is assembly, are left out, and what
-- the allocator and the page tables answer is a parameter.
pub mod Reap
pub mod Ring
pub mod Numbers
pub mod Choice
pub mod Outcomes
pub mod Pick
pub mod Steps
mod Examples
use nostalux_os.Base.{
  u64_mod, ℕ, ◌+◌, ◌-◌, bit_and, Bool, true, false, not, ◌&&◌, ◌||◌, Option, none, some, List, [],
  ◌∷◌, ltb, leb, ◌==◌, if◌then◌else◌, length, take,
}
use nostalux_os.Manifest.{unknown_capabilities}
use nostalux_os.UserReturn.{user_base, user_limit}

pub data TaskState : Type 0 where
  task_ready task_dead : TaskState

pub record Task : Type 0 where
  pub id : ℕ
  pub name : List ℕ
  pub kernel_stack_top : ℕ
  pub address_space : ℕ
  pub user_entry : ℕ
  pub user_stack_top : ℕ
  pub app_process_id : ℕ
  pub app_capabilities : ℕ
  pub quantum_ticks : ℕ
  pub is_user : Bool
  pub state : TaskState

-- The static variables; `current` is 0 when there is no task.
pub record Scheduler : Type 0 where
  pub tasks : List Task
  pub current : ℕ
  pub next_pid : ℕ

abbrev pub task_name_max : ℕ
task_name_max = 32

abbrev pub user_quantum_ticks : ℕ
user_quantum_ticks = 5

-- The number, and the next one; none when the numbers are used up.
unfoldable pub allocate_task_id : ℕ → Option (ℕ × ℕ)
allocate_task_id next_pid =
    if next_pid == 0
    then none
    else if next_pid == u64_mod - 1
    then some (next_pid, 0)
    else some (next_pid, next_pid + 1)

abbrev pub copy_task_name : List ℕ → List ℕ
copy_task_name source = take (task_name_max - 1) source

-- kernel/main
abbrev pub main_name : List ℕ
main_name = 107 ∷ 101 ∷ 114 ∷ 110 ∷ 101 ∷ 108 ∷ 47 ∷ 109 ∷ 97 ∷ 105 ∷ 110 ∷ []

-- kernel/task
abbrev pub task_name : List ℕ
task_name = 107 ∷ 101 ∷ 114 ∷ 110 ∷ 101 ∷ 108 ∷ 47 ∷ 116 ∷ 97 ∷ 115 ∷ 107 ∷ []

-- app/user
abbrev pub user_name : List ℕ
user_name = 97 ∷ 112 ∷ 112 ∷ 47 ∷ 117 ∷ 115 ∷ 101 ∷ 114 ∷ []

abbrev pub name_or : List ℕ → List ℕ → List ℕ
name_or [] other = copy_task_name other
name_or (c ∷ name) other = copy_task_name (c ∷ name)

abbrev pub is_ready : Task → Bool
is_ready t = elim t.state [ task_ready ↦ true | task_dead ↦ false ]

-- Whether a pass over the ring takes a task out.
abbrev pub is_reaped : ℕ → Task → Bool
is_reaped current t = not (t.id == current) && not (is_ready t)

-- The second loop of `reap_dead_tasks`, behind the head.
unfoldable pub reap_behind : ℕ → List Task → List Task
reap_behind current [] = []
reap_behind current (t ∷ tasks) =
    let rest = reap_behind current tasks in if is_reaped current t then rest else t ∷ rest

-- `reap_dead_tasks`: dead heads give way to the next task, then the pass behind the head.
unfoldable pub reap_dead_tasks : ℕ → List Task → List Task
reap_dead_tasks current [] = []
reap_dead_tasks current (t ∷ tasks) =
    let rest = reap_dead_tasks current tasks in
    if is_reaped current t then rest else t ∷ reap_behind current tasks

abbrev pub reaped : Scheduler → Scheduler
reaped s = record s { tasks = reap_dead_tasks s.current s.tasks }

abbrev pub kernel_task : ℕ → List ℕ → ℕ → Task
kernel_task id name stack_top = record {
  id = id;
  name = name;
  kernel_stack_top = stack_top;
  address_space = 0;
  user_entry = 0;
  user_stack_top = 0;
  app_process_id = 0;
  app_capabilities = 0;
  quantum_ticks = 0;
  is_user = false;
  state = task_ready;
}

-- `scheduler_init` with the stack of the kernel, when the allocator has memory for the first task.
abbrev pub init_with : ℕ → Option (ℕ × ℕ) → Scheduler → Scheduler
init_with stack_top none s = s
init_with stack_top (some (id, next_pid)) s = record {
  tasks = kernel_task id main_name stack_top ∷ [];
  current = id;
  next_pid = next_pid;
}

unfoldable pub scheduler_init : Bool → ℕ → Scheduler → Scheduler
scheduler_init has_memory stack_top s =
    if not has_memory then s else init_with stack_top (allocate_task_id s.next_pid) s

-- A task is put behind the head.
abbrev pub insert_task : Task → List Task → List Task
insert_task t [] = []
insert_task t (head ∷ tasks) = head ∷ t ∷ tasks

abbrev pub spawn_with : (ℕ → Task) → Option (ℕ × ℕ) → Scheduler → Bool × Scheduler
spawn_with task none s = (false, s)
spawn_with task (some (id, next_pid)) s =
    (true, record s { tasks = insert_task (task id) s.tasks; next_pid = next_pid })

-- With the stack that was allocated for the task, or none when there is no memory or no guard page.
abbrev pub spawn_stack : Option ℕ → (ℕ → ℕ → Task) → Scheduler → Bool × Scheduler
spawn_stack none task s = (false, s)
spawn_stack (some stack_top) task s =
    spawn_with (λ id. task stack_top id) (allocate_task_id s.next_pid) s

abbrev pub has_tasks : List Task → Bool
has_tasks [] = false
has_tasks (t ∷ tasks) = true

unfoldable pub spawn_named_task : Option ℕ → List ℕ → ℕ → Scheduler → Bool × Scheduler
spawn_named_task stack name entry_point s =
    if (entry_point == 0) || not (has_tasks s.tasks)
    then (false, s)
    else spawn_stack stack (λ top id. kernel_task id (name_or name task_name) top) s

abbrev pub spawn_task : Option ℕ → ℕ → Scheduler → Bool × Scheduler
spawn_task stack entry_point s = spawn_named_task stack task_name entry_point s

abbrev pub user_task : ℕ → List ℕ → ℕ → ℕ → ℕ → ℕ → ℕ → ℕ → Task
user_task id name stack_top address_space entry_point user_stack_top process capabilities = record {
  id = id;
  name = name;
  kernel_stack_top = stack_top;
  address_space = address_space;
  user_entry = entry_point;
  user_stack_top = user_stack_top;
  app_process_id = process;
  app_capabilities = capabilities;
  quantum_ticks = 0;
  is_user = true;
  state = task_ready;
}

-- `mapped space address length writable` is what `paging_user_range_mapped` returns.
abbrev pub Mapped : Type 0
Mapped = ℕ → ℕ → ℕ → Bool → Bool

unfoldable pub user_process_is_valid : Mapped → ℕ → ℕ → ℕ → ℕ → ℕ → Bool
user_process_is_valid mapped space entry_point user_stack_top process capabilities = not (
    (space == 0)
    || (process == 0)
    || not (bit_and capabilities unknown_capabilities == 0)
    || ltb entry_point user_base
    || leb user_limit entry_point
    || leb user_stack_top user_base
    || ltb user_limit user_stack_top
    || not (bit_and user_stack_top 15 == 0)
    || not (mapped space entry_point 1 false)
    || not (mapped space (user_stack_top - 8) 8 true))

unfoldable pub scheduler_spawn_user_process :
    Mapped → Option ℕ → List ℕ → ℕ → ℕ → ℕ → ℕ → ℕ → Scheduler → Bool × Scheduler
scheduler_spawn_user_process mapped stack name space entry_point user_stack_top process capabilities
      s =
    if not (has_tasks s.tasks)
      || not (user_process_is_valid mapped space entry_point user_stack_top process capabilities)
    then (false, s)
    else spawn_stack stack
        (λ top id.
          user_task id (name_or name user_name) top space entry_point user_stack_top process
            capabilities)
        s

unfoldable pub scheduler_task_count : Scheduler → ℕ
scheduler_task_count s = length s.tasks

-- The task of that number gets another value.
unfoldable pub change_task : ℕ → (Task → Task) → List Task → List Task
change_task id f [] = []
change_task id f (t ∷ tasks) =
    let rest = change_task id f tasks in if t.id == id then f t ∷ tasks else t ∷ rest

abbrev pub dead : Task → Task
dead t = record t { state = task_dead }

-- The first task that a test finds.
unfoldable pub find_task : (Task → Bool) → List Task → Option Task
find_task test [] = none
find_task test (t ∷ tasks) = let rest = find_task test tasks in if test t then some t else rest

abbrev pub terminate_found : Option Task → Scheduler → Bool × Scheduler
terminate_found none s = (false, s)
terminate_found (some t) s =
    if (t.id == s.current) || not (is_ready t)
    then (false, s)
    else (true, reaped (record s { tasks = change_task t.id dead s.tasks }))

unfoldable pub scheduler_terminate_task : ℕ → Scheduler → Bool × Scheduler
scheduler_terminate_task id s =
    if id == 0 then (false, s) else terminate_found (find_task (λ t. t.id == id) s.tasks) s

unfoldable pub scheduler_terminate_app_process : ℕ → Scheduler → Bool × Scheduler
scheduler_terminate_app_process process s =
    if process == 0
    then (false, s)
    else terminate_found (find_task (λ t. t.is_user && (t.app_process_id == process)) s.tasks) s
