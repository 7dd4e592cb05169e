-- ===== src/Services/Examples.antt =====
-- A window with a full queue, and a table with two open files.
use nostalux_os.Base.{
  ℕ, ◌-◌, ◌^◌, ◌≡◌, refl, ◌≢◌, ◌⊎◌, inl, inr, true, false, none, List, [], ◌∷◌, ◌++◌, arith, drop,
}
use nostalux_os.Services.{
  InputEvent, Window, no_event, queue_window_input, allocate_handle, FileHandle, cleared_handle,
  find_slot, find_file_handle, dispatch_file_close,
}
use nostalux_os.Services.Files.{Distinct, dispatch_file_close-closes}
use nostalux_os.Services.Queue.{IsQueue, queue_window_input-IsQueue, queue_window_input-newest}
use nostalux_os.Services.Queued.{QueuedAt}

abbrev event : ℕ → ℕ → InputEvent
event kind key = record no_event { kind = kind; key = key }

abbrev full_window : Window
full_window = record {
  in_use = true;
  input_queue =
      event 1 65
      ∷ event 1 66
      ∷ event 1 67
      ∷ event 1 68
      ∷ event 1 69
      ∷ event 1 70
      ∷ event 1 71
      ∷ event 2 0
      ∷ [];
}

full_window-IsQueue : IsQueue full_window.input_queue
full_window-IsQueue = record { fits = omega arith; close_alone = λ e. ground arith }

handles_run : allocate_handle (2 ^ 64 - 1) ≡ (2 ^ 64 - 1, 0)
unfolding allocate_handle
handles_run = refl

queue_window_input-IsQueue_example :
    IsQueue (queue_window_input full_window (event 4 0)).input_queue
    × QueuedAt full_window (event 4 0) (queue_window_input full_window (event 4 0))
queue_window_input-IsQueue_example =
    queue_window_input-IsQueue full_window (event 4 0) full_window-IsQueue

queue_window_input-newest_example :
    (queue_window_input full_window (event 3 1)).input_queue
    ≡ drop 1 full_window.input_queue ++ (event 3 1 ∷ [])
queue_window_input-newest_example =
    queue_window_input-newest full_window (event 3 1) full_window-IsQueue refl refl
      (λ e. ground arith) (λ e. ground arith)

abbrev open_file : ℕ → FileHandle
open_file handle = record {
  in_use = true;
  handle = handle;
  process_id = 7;
  flags = 1;
  path = 97 ∷ 0 ∷ [];
}

abbrev two_files : List FileHandle
two_files = open_file 1 ∷ cleared_handle ∷ open_file 2 ∷ []

two_files-Distinct : Distinct two_files
two_files-Distinct = (inr (refl, (refl, tt)), (inl refl, (inr tt, tt)))

close_run :
    dispatch_file_close two_files 7 2 ≡ (open_file 1 ∷ cleared_handle ∷ cleared_handle ∷ [], true)
unfolding dispatch_file_close find_file_handle find_slot
close_run = refl

dispatch_file_close-closes_example :
    ((find_file_handle two_files 7 2 ≡ none)
      × (dispatch_file_close two_files 7 2 ≡ (two_files, false)))
    ⊎ ((files' : List FileHandle) × (dispatch_file_close two_files 7 2 ≡ (files', true))
        × (find_file_handle files' 7 2 ≡ none)
        × ((p' h' : ℕ)
            → (p' ≢ 7) ⊎ (h' ≢ 2)
            → find_file_handle files' p' h' ≡ find_file_handle two_files p' h'))
dispatch_file_close-closes_example = dispatch_file_close-closes two_files 7 2 two_files-Distinct
