-- ===== src/Scheduler/Reap.antt =====
-- kernel/scheduler.c: what the removal of ended tasks leaves of the ring.
use nostalux_os.Base.{
  ℕ, ◌≡◌, refl, inl, inr, Bool, List, [], ◌∷◌, if◌then◌else◌, Bool-cases, All, Pairwise,
}
use nostalux_os.Scheduler.{Task, is_reaped, reap_behind, reap_dead_tasks}

-- The tasks that a test does not find.
abbrev pub without : (Task → Bool) → List Task → List Task
without test [] = []
without test (t ∷ tasks) = if test t then without test tasks else t ∷ without test tasks

reap_behind-without :
    (current : ℕ) (tasks : List Task)
    → reap_behind current tasks ≡ without (is_reaped current) tasks
unfolding reap_behind
reap_behind-without current [] = refl
reap_behind-without current (t ∷ tasks) = rw (reap_behind-without current tasks) refl

-- The two loops take exactly the ended tasks out of the ring, except the current one, and keep the order
-- of the others.
pub reap_dead_tasks-without :
    (current : ℕ) (tasks : List Task)
    → reap_dead_tasks current tasks ≡ without (is_reaped current) tasks
unfolding reap_dead_tasks
reap_dead_tasks-without current [] = refl
reap_dead_tasks-without current (t ∷ tasks) =
    rw (reap_dead_tasks-without current tasks) (rw (reap_behind-without current tasks) refl)

pub All-without {κ} :
    (P : Task → Type κ) (test : Task → Bool) (tasks : List Task)
    → All P tasks
    → All P (without test tasks)
All-without P test [] h = tt
All-without P test (t ∷ tasks) h = elim (Bool-cases (test t)) [
  | inl e ↦ simp e (All-without P test tasks h.1)
  | inr n ↦ simp n (h.0, All-without P test tasks h.1)
]

pub Pairwise-without {κ} :
    (R : Task → Task → Type κ) (test : Task → Bool) (tasks : List Task)
    → Pairwise R tasks
    → Pairwise R (without test tasks)
Pairwise-without R test [] h = tt
Pairwise-without R test (t ∷ tasks) h = elim (Bool-cases (test t)) [
  | inl e ↦ simp e (Pairwise-without R test tasks h.1)
  | inr n ↦ simp n (All-without (R t) test tasks h.0, Pairwise-without R test tasks h.1)
]
