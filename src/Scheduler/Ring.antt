-- ===== src/Scheduler/Ring.antt =====
-- kernel/scheduler.c: the ring keeps tasks of different numbers, the current one among them.
use nostalux_os.Base.{
  u64_mod, ℕ, ◌<◌, ◌≡◌, sym, ◌∙◌, subst, ◌≢◌, ◌⊎◌, inl, inr, false, List, [], ◌∷◌, ◌==◌, ==→ne,
  eq→==, Bool-cases, All, All-imp, Pairwise,
}
use nostalux_os.Scheduler.{Task, Scheduler, is_reaped, reaped, change_task}
use nostalux_os.Scheduler.Reap.{without, reap_dead_tasks-without, All-without, Pairwise-without}

abbrev pub Apart : Task → Task → Type 0
Apart t u = t.id ≢ u.id

-- The numbers that were given out are those below the next one, or all when they are used up.
abbrev pub GivenOut : ℕ → Task → Type 0
GivenOut next_pid t = (0 < t.id) × (t.id < u64_mod) × ((next_pid ≡ 0) ⊎ (t.id < next_pid))

abbrev pub Among : ℕ → List Task → Type 0
Among id [] = ⊥
Among id (t ∷ tasks) = (t.id ≡ id) ⊎ Among id tasks

pub record IsRing (s : Scheduler) : Type 0 where
  pub numbers : Pairwise Apart s.tasks
  pub given_out : All (GivenOut s.next_pid) s.tasks
  pub current_is : Among s.current s.tasks
  pub next_fits : s.next_pid < u64_mod

pub Among-rest :
    (current : ℕ) (t : Task) (tasks : List Task)
    → (t.id == current) ≡ false
    → Among current (t ∷ tasks)
    → Among current tasks
Among-rest current t tasks n (inl e) = absurd (==→ne t.id current n e)
Among-rest current t tasks n (inr h) = h

Among-without :
    (current : ℕ) (tasks : List Task)
    → Among current tasks
    → Among current (without (is_reaped current) tasks)
Among-without current [] h = h
Among-without current (t ∷ tasks) (inl e) = simp (eq→== t.id current e) (inl e)
Among-without current (t ∷ tasks) (inr h) = elim (Bool-cases (is_reaped current t)) [
  | inl r ↦ simp r (Among-without current tasks h)
  | inr n ↦ simp n (inr (Among-without current tasks h))
]

pub reaped-Among : (s : Scheduler) → Among s.current s.tasks → Among s.current (reaped s).tasks
reaped-Among s h =
    subst (Among s.current) (sym (reap_dead_tasks-without s.current s.tasks))
      (Among-without s.current s.tasks h)

pub reaped-IsRing : (s : Scheduler) → IsRing s → IsRing (reaped s)
reaped-IsRing s h =
    let e = sym (reap_dead_tasks-without s.current s.tasks) in
    record {
      numbers =
          subst (Pairwise Apart) e (Pairwise-without Apart (is_reaped s.current) s.tasks h.numbers);
      given_out =
          subst (All (GivenOut s.next_pid)) e
            (All-without (GivenOut s.next_pid) (is_reaped s.current) s.tasks h.given_out);
      current_is = reaped-Among s h.current_is;
      next_fits = h.next_fits;
    }

-- A change that keeps the numbers of the tasks.
change_task-All {κ} :
    (P : Task → Type κ) (id : ℕ) (f : Task → Task) (tasks : List Task)
    → ((t : Task) → P t → P (f t))
    → All P tasks
    → All P (change_task id f tasks)
unfolding change_task
change_task-All P id f [] k h = tt
change_task-All P id f (t ∷ tasks) k h = elim (Bool-cases (t.id == id)) [
  | inl e ↦ simp e (k t h.0, h.1)
  | inr n ↦ simp n (h.0, change_task-All P id f tasks k h.1)
]

pub change_task-Apart :
    (id : ℕ) (f : Task → Task) (tasks : List Task)
    → ((t : Task) → (f t).id ≡ t.id)
    → Pairwise Apart tasks
    → Pairwise Apart (change_task id f tasks)
unfolding change_task
change_task-Apart id f [] k h = tt
change_task-Apart id f (t ∷ tasks) k h = elim (Bool-cases (t.id == id)) [
  | inl e ↦ simp e (All-imp (Apart t) (Apart (f t)) tasks (λ u ne q. ne (sym (k t) ∙ q)) h.0, h.1)
  | inr n ↦ simp n (
    change_task-All (Apart t) id f tasks (λ u ne q. ne (q ∙ k u)) h.0,
    change_task-Apart id f tasks k h.1,
  )
]

pub change_task-Among :
    (id current : ℕ) (f : Task → Task) (tasks : List Task)
    → ((t : Task) → (f t).id ≡ t.id)
    → Among current tasks
    → Among current (change_task id f tasks)
unfolding change_task
change_task-Among id current f [] k h = h
change_task-Among id current f (t ∷ tasks) k (inl q) = elim (Bool-cases (t.id == id)) [
  | inl e ↦ simp e (inl (k t ∙ q))
  | inr n ↦ simp n (inl q)
]
change_task-Among id current f (t ∷ tasks) k (inr h) = elim (Bool-cases (t.id == id)) [
  | inl e ↦ simp e (inr h)
  | inr n ↦ simp n (inr (change_task-Among id current f tasks k h))
]

abbrev pub KeepsNumber : (Task → Task) → Type 0
KeepsNumber f = (t : Task) → (f t).id ≡ t.id

GivenOut-change :
    (next_pid : ℕ) (f : Task → Task) (t : Task)
    → (f t).id ≡ t.id
    → GivenOut next_pid t
    → GivenOut next_pid (f t)
GivenOut-change next_pid f t e h =
    subst (λ (n : ℕ). (0 < n) × (n < u64_mod) × ((next_pid ≡ 0) ⊎ (n < next_pid))) (sym e) h

pub changed-IsRing :
    (s : Scheduler) (id : ℕ) (f : Task → Task)
    → KeepsNumber f
    → IsRing s
    → IsRing (record s { tasks = change_task id f s.tasks })
changed-IsRing s id f k h = record {
  numbers = change_task-Apart id f s.tasks k h.numbers;
  given_out =
      change_task-All (GivenOut s.next_pid) id f s.tasks (λ t. GivenOut-change s.next_pid f t (k t))
        h.given_out;
  current_is = change_task-Among id s.current f s.tasks k h.current_is;
  next_fits = h.next_fits;
}
