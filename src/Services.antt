-- ===== src/Services.antt =====
-- kernel/app_services.c: the input queue of a window, and the handles and the file table of the
-- services for applications.
pub mod Queued
pub mod Queue
pub mod Files
mod Examples
use nostalux_os.Base.{
  u64_mod, ℕ, suc, ◌+◌, ◌-◌, bit_and, Bool, true, false, not, ◌&&◌, ◌||◌, Option, none, some, List,
  [], ◌∷◌, ◌++◌, leb, ◌==◌, if◌then◌else◌, length, get_or, set, drop,
}

-- `struct app_input_event`; `kind` is the field `type`, with the values of `enum app_input_type`.
pub record InputEvent : Type 0 where
  pub kind : ℕ
  pub flags : ℕ
  pub x : ℕ
  pub y : ℕ
  pub key : ℕ
  pub button : ℕ

abbrev pub pointer_motion : ℕ
pointer_motion = 2

abbrev pub window_close : ℕ
window_close = 4

abbrev pub queue_capacity : ℕ
queue_capacity = 8

-- The parts of `struct app_window_record` for the input: the list has the first `input_count` events of
-- the array, and the others, which are never read, are not kept.
pub record Window : Type 0 where
  pub in_use : Bool
  pub input_queue : List InputEvent

-- The loop that looks for `APP_INPUT_WINDOW_CLOSE`.
abbrev pub holds_close : List InputEvent → Bool
holds_close [] = false
holds_close (e ∷ queue) = (e.kind == window_close) || holds_close queue

abbrev pub no_event : InputEvent
no_event = record { kind = 0; flags = 0; x = 0; y = 0; key = 0; button = 0 }

abbrev pub last_event : List InputEvent → InputEvent
last_event queue = get_or queue (length queue - 1) no_event

-- The end of the function: a full queue moves down by one.
abbrev pub append_event : List InputEvent → InputEvent → List InputEvent
append_event queue e =
    if length queue == queue_capacity then drop 1 queue ++ (e ∷ []) else queue ++ (e ∷ [])

unfoldable pub queue_event : List InputEvent → InputEvent → List InputEvent
queue_event queue e =
    if e.kind == window_close
    then e ∷ []
    else if holds_close queue
    then queue
    else if (e.kind == pointer_motion)
        && not (length queue == 0)
        && ((last_event queue).kind == pointer_motion)
    then set queue (length queue - 1) e
    else if (length queue == queue_capacity) && (e.kind == pointer_motion)
    then queue
    else append_event queue e

unfoldable pub queue_window_input : Window → InputEvent → Window
queue_window_input w e =
    if not w.in_use
    then w
    else record { in_use = w.in_use; input_queue = queue_event w.input_queue e }

abbrev pub dequeue_event : List InputEvent → List InputEvent × Option InputEvent
dequeue_event [] = ([], none)
dequeue_event (e ∷ queue) = (queue, some e)

-- The event that is taken, or none for the result false.
unfoldable pub dequeue_window_input : Window → Window × Option InputEvent
dequeue_window_input w =
    let after = dequeue_event w.input_queue in
    (record { in_use = w.in_use; input_queue = after.0 }, after.1)

unfoldable pub has_capability : ℕ → ℕ → Bool
has_capability granted required = bit_and granted required == required

-- The handle, and the new value of `g_next_handle`, which is 0 once no handle is left.
unfoldable pub allocate_handle : ℕ → ℕ × ℕ
allocate_handle next =
    if next == 0 then (0, next) else if next == u64_mod - 1 then (next, 0) else (next, next + 1)

-- `struct app_file_handle`.
pub record FileHandle : Type 0 where
  pub in_use : Bool
  pub handle : ℕ
  pub process_id : ℕ
  pub flags : ℕ
  pub path : List ℕ

abbrev pub cleared_handle : FileHandle
cleared_handle = record { in_use = false; handle = 0; process_id = 0; flags = 0; path = [] }

abbrev pub handles_per_process : ℕ
handles_per_process = 4

unfoldable pub file_handle_count : List FileHandle → ℕ → ℕ
file_handle_count [] process_id = 0
file_handle_count (f ∷ files) process_id =
    let rest = file_handle_count files process_id in
    if f.in_use && (f.process_id == process_id) then suc rest else rest

abbrev pub is_handle : ℕ → ℕ → FileHandle → Bool
is_handle process_id handle f = f.in_use && (f.process_id == process_id) && (f.handle == handle)

-- The index of the slot of a handle, from `index` on.
unfoldable pub find_slot : List FileHandle → ℕ → ℕ → ℕ → Option ℕ
find_slot [] process_id handle index = none
find_slot (f ∷ files) process_id handle index =
    let rest = find_slot files process_id handle (index + 1) in
    if is_handle process_id handle f then some index else rest

unfoldable pub find_file_handle : List FileHandle → ℕ → ℕ → Option ℕ
find_file_handle files process_id handle =
    if (process_id == 0) || (handle == 0) then none else find_slot files process_id handle 0

-- The index of the first free slot, from `index` on.
unfoldable pub free_slot : List FileHandle → ℕ → Option ℕ
free_slot [] index = none
free_slot (f ∷ files) index =
    let rest = free_slot files (index + 1) in if not f.in_use then some index else rest

unfoldable pub allocate_file_slot : List FileHandle → ℕ → Option ℕ
allocate_file_slot files process_id =
    if leb handles_per_process (file_handle_count files process_id) then none else free_slot files 0

abbrev pub clear_slot : List FileHandle → Option ℕ → List FileHandle × Bool
clear_slot files none = (files, false)
clear_slot files (some slot) = (set files slot cleared_handle, true)

-- Whether the handle is closed; else the result is `APP_STATUS_BAD_HANDLE`.
unfoldable pub dispatch_file_close : List FileHandle → ℕ → ℕ → List FileHandle × Bool
dispatch_file_close files process_id handle =
    clear_slot files (find_file_handle files process_id handle)
