-- ===== src/Services/Queued.antt =====
-- kernel/app_services.c: what becomes of the input queue of a window when an event arrives.
use nostalux_os.Base.{
  ◌-◌, ◌≡◌, refl, sym, ap, ◌∙◌, ◌≢◌, ◌⊎◌, inl, inr, true, false, not, ◌&&◌, List, [], ◌∷◌, ◌++◌,
  arith, ◌==◌, if◌then◌else◌, ==→eq, ==→ne, ne→==, Bool-cases, length, get_or, set, drop,
  length-append, All,
}
use nostalux_os.Services.{
  InputEvent, pointer_motion, window_close, queue_capacity, Window, holds_close, no_event,
  last_event, append_event, queue_event, queue_window_input,
}

-- No event of the queue is a close request.
abbrev pub IsOpen : List InputEvent → Type 0
IsOpen queue = All (λ (d : InputEvent). d.kind ≢ window_close) queue

-- One of them is.
abbrev pub IsClosing : List InputEvent → Type 0
IsClosing [] = ⊥
IsClosing (d ∷ queue) = (d.kind ≡ window_close) ⊎ IsClosing queue

-- The last event is a motion.
abbrev pub EndsMoving : List InputEvent → Type 0
EndsMoving queue =
    (front : List InputEvent) × (last : InputEvent) × (queue ≡ front ++ (last ∷ []))
    × (last.kind ≡ pointer_motion)

-- What becomes of the queue of a window when an event arrives, in each of the cases.
pub data Queued (queue : List InputEvent) (e : InputEvent) : List InputEvent → Type 0 where
  closes : e.kind ≡ window_close → Queued queue e (e ∷ [])
  stays_closing : e.kind ≢ window_close → IsClosing queue → Queued queue e queue
  moves :
      (front : List InputEvent) (last : InputEvent)
      → e.kind ≡ pointer_motion
      → IsOpen queue
      → queue ≡ front ++ (last ∷ [])
      → last.kind ≡ pointer_motion
      → Queued queue e (front ++ (e ∷ []))
  drops_motion :
      e.kind ≡ pointer_motion
      → IsOpen queue
      → ¬ EndsMoving queue
      → length queue ≡ 8
      → Queued queue e queue
  drops_oldest :
      e.kind ≢ window_close
      → e.kind ≢ pointer_motion
      → IsOpen queue
      → length queue ≡ 8
      → Queued queue e (drop 1 queue ++ (e ∷ []))
  appends :
      e.kind ≢ window_close
      → IsOpen queue
      → (e.kind ≢ pointer_motion) ⊎ (¬ EndsMoving queue)
      → length queue ≢ 8
      → Queued queue e (queue ++ (e ∷ []))

holds_close-IsClosing : (queue : List InputEvent) → holds_close queue ≡ true → IsClosing queue
holds_close-IsClosing [] h = absurd (ground arith)
holds_close-IsClosing (d ∷ queue) h = elim (Bool-cases (d.kind == window_close)) [
  | inl e ↦ inl (==→eq d.kind window_close e)
  | inr n ↦ inr (holds_close-IsClosing queue (simp n at h))
]

holds_close-IsOpen : (queue : List InputEvent) → holds_close queue ≡ false → IsOpen queue
holds_close-IsOpen [] h = tt
holds_close-IsOpen (d ∷ queue) h = elim (Bool-cases (d.kind == window_close)) [
  | inl e ↦ absurd (ground arith)
  | inr n ↦ (==→ne d.kind window_close n, holds_close-IsOpen queue (simp n at h))
]

at_end :
    (front : List InputEvent) (last e : InputEvent)
    → (get_or (front ++ (last ∷ [])) (length front) no_event ≡ last)
      × (set (front ++ (last ∷ [])) (length front) e ≡ front ++ (e ∷ []))
at_end [] last e = (refl, refl)
at_end (d ∷ front) last e =
    let rest = at_end front last e in (rest.0, ap (λ (l : List InputEvent). d ∷ l) rest.1)

-- The last event, and what storing another one there leaves.
set_last :
    (front : List InputEvent) (last e : InputEvent)
    → (last_event (front ++ (last ∷ [])) ≡ last)
      × (set (front ++ (last ∷ [])) (length (front ++ (last ∷ [])) - 1) e ≡ front ++ (e ∷ []))
set_last front last e =
    let n : length (front ++ (last ∷ [])) - 1 ≡ length front =
      omega (arith, length-append front (last ∷ [])) in
    rw n (at_end front last e)

-- A queue is empty, or has a last event.
data Ended : List InputEvent → Type 0 where
  none_yet : Ended []
  ends : (front : List InputEvent) (last : InputEvent) → Ended (front ++ (last ∷ []))

add_front : (d : InputEvent) (queue : List InputEvent) → Ended queue → Ended (d ∷ queue)
add_front d queue none_yet = ends [] d
add_front d queue (ends front last) = ends (d ∷ front) last

split_last : (queue : List InputEvent) → Ended queue
split_last [] = none_yet
split_last (d ∷ queue) = add_front d queue (split_last queue)

last-eq :
    (front front' : List InputEvent) (last last' : InputEvent)
    → front ++ (last ∷ []) ≡ front' ++ (last' ∷ [])
    → last ≡ last'
last-eq front front' last last' e =
    sym (set_last front last last).0 ∙ ap last_event e ∙ (set_last front' last' last').0

still :
    (front : List InputEvent) (last : InputEvent)
    → (last.kind == pointer_motion) ≡ false
    → ¬ EndsMoving (front ++ (last ∷ []))
still front last n (front', last', e, moving) = absurd (
    ==→ne last.kind pointer_motion n
      (ap (λ (d : InputEvent). d.kind) (last-eq front front' last last' e) ∙ moving))

nil-snoc : (front : List InputEvent) (last : InputEvent) → [] ≡ front ++ (last ∷ []) → ⊥
nil-snoc [] last e = ground arith
nil-snoc (d ∷ front) last e = ground arith

-- The end of the function, when the newest event is not replaced.
unmoved-Queued :
    (queue : List InputEvent) (e : InputEvent)
    → (e.kind == window_close) ≡ false
    → IsOpen queue
    → (e.kind ≢ pointer_motion) ⊎ (¬ EndsMoving queue)
    → Queued queue e (
        if (length queue == queue_capacity) && (e.kind == pointer_motion)
        then queue
        else append_event queue e)
unmoved-Queued queue e nc open_ unmoved = elim (Bool-cases (length queue == queue_capacity)) [
  | inr room ↦
      simp room (appends (==→ne e.kind window_close nc) open_ unmoved (==→ne (length queue) 8 room))
  | inl full ↦ elim (Bool-cases (e.kind == pointer_motion)) [
    | inr key ↦
        simp (full, key)
          (drops_oldest (==→ne e.kind window_close nc) (==→ne e.kind pointer_motion key) open_
            (==→eq (length queue) 8 full))
    | inl motion ↦ elim unmoved [
      | inl ne ↦ absurd (ne (==→eq e.kind pointer_motion motion))
      | inr end ↦
          simp (full, motion)
            (drops_motion (==→eq e.kind pointer_motion motion) open_ end
              (==→eq (length queue) 8 full))
    ]
  ]
]

abbrev unless_moved : List InputEvent → InputEvent → List InputEvent
unless_moved queue e =
    if (e.kind == pointer_motion)
      && not (length queue == 0)
      && ((last_event queue).kind == pointer_motion)
    then set queue (length queue - 1) e
    else if (length queue == queue_capacity) && (e.kind == pointer_motion)
    then queue
    else append_event queue e

motion-Queued :
    (queue : List InputEvent) (e : InputEvent)
    → Ended queue
    → (e.kind == window_close) ≡ false
    → (e.kind == pointer_motion) ≡ true
    → IsOpen queue
    → Queued queue e (unless_moved queue e)
motion-Queued queue e none_yet nc motion open_ =
    simp motion (unmoved-Queued [] e nc open_ (inr (λ h. nil-snoc h.0 h.1 h.2)))
motion-Queued queue e (ends front last) nc motion open_ =
    let full = front ++ (last ∷ []) in
    let some_ : (length full == 0) ≡ false =
      ne→== (length full) 0 (λ z. omega (arith, z, length-append front (last ∷ []))) in
    let at_last = set_last front last e in
    elim (Bool-cases (last.kind == pointer_motion)) [
      | inl moving ↦ rw at_last.0 (
          simp (motion, some_, moving)
            (rw at_last.1 (
              moves front last (==→eq e.kind pointer_motion motion) open_ refl
                (==→eq last.kind pointer_motion moving))))
      | inr n ↦ rw at_last.0 (
          simp (motion, some_, n)
            (simp motion at (unmoved-Queued full e nc open_ (inr (still front last n)))))
    ]

queue_event-Queued :
    (queue : List InputEvent) (e : InputEvent) → Queued queue e (queue_event queue e)
unfolding queue_event
queue_event-Queued queue e = elim (Bool-cases (e.kind == window_close)) [
  | inl close ↦ simp close (closes (==→eq e.kind window_close close))
  | inr nc ↦ elim (Bool-cases (holds_close queue)) [
    | inl held ↦
        simp (nc, held)
          (stays_closing (==→ne e.kind window_close nc) (holds_close-IsClosing queue held))
    | inr open_ ↦
        let is_open = holds_close-IsOpen queue open_ in
        elim (Bool-cases (e.kind == pointer_motion)) [
          | inl motion ↦
              simp (nc, open_) (motion-Queued queue e (split_last queue) nc motion is_open)
          | inr key ↦
              simp (nc, open_, key)
                (simp key at
                  (unmoved-Queued queue e nc is_open (inl (==→ne e.kind pointer_motion key))))
        ]
  ]
]

-- What input does to the queue of a window.
pub data QueuedAt (w : Window) (e : InputEvent) (after : Window) : Type 0 where
  window_unused : w.in_use ≡ false → after ≡ w → QueuedAt w e after
  window_used :
      w.in_use ≡ true
      → after.in_use ≡ true
      → Queued w.input_queue e after.input_queue
      → QueuedAt w e after

pub queue_window_input-QueuedAt :
    (w : Window) (e : InputEvent) → QueuedAt w e (queue_window_input w e)
unfolding queue_window_input
queue_window_input-QueuedAt w e = elim (Bool-cases w.in_use) [
  | inl u ↦ simp u (window_used u refl (queue_event-Queued w.input_queue e))
  | inr n ↦ simp n (window_unused n refl)
]
