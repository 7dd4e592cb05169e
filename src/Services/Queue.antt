-- ===== src/Services/Queue.antt =====
-- kernel/app_services.c: what the input queue of a window keeps.
use nostalux_os.Base.{
  ℕ, zero, suc, ◌-◌, ◌≤◌, ◌≡◌, refl, ◌≢◌, inl, inr, true, false, not, ◌&&◌, ◌||◌, List, [], ◌∷◌,
  ◌++◌, arith, ◌==◌, ne→==, tests, Bool-cases, length, set, drop, length-append, length-set,
  length-drop,
}
use nostalux_os.Services.{
  InputEvent, pointer_motion, window_close, queue_capacity, Window, holds_close, last_event,
  append_event, queue_event, queue_window_input,
}
use nostalux_os.Services.Queued.{QueuedAt, queue_window_input-QueuedAt}

-- At most eight events; a close request, when there is one, stands alone.
pub record IsQueue (queue : List InputEvent) : Type 0 where
  pub fits : length queue ≤ queue_capacity
  pub close_alone : holds_close queue ≡ true → length queue ≡ 1

holds_close-append :
    (queue : List InputEvent) (e : InputEvent)
    → holds_close (queue ++ (e ∷ [])) ≡ (holds_close queue || (e.kind == window_close))
holds_close-append [] e = ground arith
holds_close-append (d ∷ queue) e = ground (arith, holds_close-append queue e)

holds_close-drop :
    (queue : List InputEvent) → holds_close queue ≡ false → holds_close (drop 1 queue) ≡ false
holds_close-drop [] h = refl
holds_close-drop (d ∷ queue) h = ground arith

holds_close-set :
    (queue : List InputEvent) (i : ℕ) (e : InputEvent)
    → holds_close queue ≡ false
    → (e.kind == window_close) ≡ false
    → holds_close (set queue i e) ≡ false
holds_close-set [] i e h n = refl
holds_close-set (d ∷ queue) zero e h n = ground arith
holds_close-set (d ∷ queue) (suc i) e h n =
    ground (arith, holds_close-set queue i e (ground arith) n)

no_close : (queue : List InputEvent) → holds_close queue ≡ false → holds_close queue ≡ true → ⊥
no_close queue open_ e = cc

open-IsQueue :
    (queue : List InputEvent) → length queue ≤ 8 → holds_close queue ≡ false → IsQueue queue
open-IsQueue queue fits open_ = record {
  fits = fits;
  close_alone = λ e. absurd (no_close queue open_ e);
}

append_event-IsQueue :
    (queue : List InputEvent) (e : InputEvent)
    → length queue ≤ 8
    → holds_close queue ≡ false
    → (e.kind == window_close) ≡ false
    → IsQueue (append_event queue e)
append_event-IsQueue queue e fits open_ n = elim (Bool-cases (length queue == queue_capacity)) [
  | inl full ↦ simp full (
      open-IsQueue (drop 1 queue ++ (e ∷ []))
        (omega (tests, length-append (drop 1 queue) (e ∷ []), length-drop 1 queue, full))
        (ground (arith, holds_close-append (drop 1 queue) e, holds_close-drop queue open_)))
  | inr room ↦ simp room (
      open-IsQueue (queue ++ (e ∷ [])) (omega (tests, length-append queue (e ∷ []), room))
        (ground (arith, holds_close-append queue e)))
]

queue_event-IsQueue :
    (queue : List InputEvent) (e : InputEvent) → IsQueue queue → IsQueue (queue_event queue e)
unfolding queue_event
queue_event-IsQueue queue e v = elim (Bool-cases (e.kind == window_close)) [
  | inl close ↦ simp close (record { fits = omega arith; close_alone = λ _. refl })
  | inr nc ↦ elim (Bool-cases (holds_close queue)) [
    | inl held ↦ simp (nc, held) v
    | inr open_ ↦
        elim (Bool-cases (
          (e.kind == pointer_motion)
          && not (length queue == 0)
          && ((last_event queue).kind == pointer_motion))) [
            | inl merged ↦
                simp (nc, open_, merged)
                  (open-IsQueue (set queue (length queue - 1) e)
                    (omega (arith, length-set queue (length queue - 1) e, v.fits))
                    (holds_close-set queue (length queue - 1) e open_ nc))
            | inr apart ↦
                elim (Bool-cases ((length queue == queue_capacity) && (e.kind == pointer_motion))) [
                  | inl dropped ↦ simp (nc, open_, apart, dropped) v
                  | inr queued ↦
                      simp (nc, open_, apart, queued) (append_event-IsQueue queue e v.fits open_ nc)
                ]
          ]
  ]
]

queue_window_input-keeps :
    (w : Window) (e : InputEvent)
    → IsQueue w.input_queue
    → IsQueue (queue_window_input w e).input_queue
unfolding queue_window_input
queue_window_input-keeps w e v = elim (Bool-cases w.in_use) [
  | inl used_ ↦ simp used_ (queue_event-IsQueue w.input_queue e v)
  | inr unused_ ↦ simp unused_ v
]

-- Input keeps a queue of at most eight events, in which a close request stands alone, in this state. A
-- window that is not in use stays as it is. In one that is, a request drops what is queued, nothing is
-- queued behind one, a motion takes the place of a motion that is the newest event, another motion is
-- dropped when the queue is full, and any other event is queued as the newest one, for which a full
-- queue drops its oldest.
pub queue_window_input-IsQueue :
    (w : Window) (e : InputEvent)
    → IsQueue w.input_queue
    → IsQueue (queue_window_input w e).input_queue × QueuedAt w e (queue_window_input w e)
queue_window_input-IsQueue w e v = (queue_window_input-keeps w e v, queue_window_input-QueuedAt w e)

-- An event other than a motion and a close request, such as a key, is always queued as the newest
-- one of a window that is in use and has no close request; at most the oldest event is dropped for
-- it, and only from a full queue.
pub queue_window_input-newest :
    (w : Window) (e : InputEvent)
    → IsQueue w.input_queue
    → w.in_use ≡ true
    → holds_close w.input_queue ≡ false
    → e.kind ≢ window_close
    → e.kind ≢ pointer_motion
    → (queue_window_input w e).input_queue
      ≡ drop (length w.input_queue - 7) w.input_queue ++ (e ∷ [])
unfolding queue_window_input queue_event
queue_window_input-newest w e v used open_ nc nm =
    let queue = w.input_queue in
    let no_close_ : (e.kind == window_close) ≡ false = ne→== e.kind window_close nc in
    let no_motion : (e.kind == pointer_motion) ≡ false = ne→== e.kind pointer_motion nm in
    let keep : ((length queue == queue_capacity) && false) ≡ false = ground arith in
    elim (Bool-cases (length queue == queue_capacity)) [
      | inl full ↦
          let one : length queue - 7 ≡ 1 = omega (tests, full) in
          simp (used, no_close_, open_, no_motion, full, one) refl
      | inr room ↦
          let zero_ : length queue - 7 ≡ 0 = omega (tests, room, v.fits) in
          simp (used, no_close_, open_, no_motion, room, zero_) refl
    ]
