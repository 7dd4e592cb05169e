-- ===== src/Scheduler/Numbers.antt =====
-- kernel/scheduler.c: the numbers of new tasks, and what spawning and termination do to the ring.
use nostalux_os.Base.{
  u64_mod, ℕ, ◌+◌, ◌<◌, ◌≡◌, refl, sym, ◌∙◌, ◌≢◌, ◌⊎◌, inl, inr, Bool, true, false, not, ◌||◌,
  Option, none, some, List, [], ◌∷◌, arith, ◌==◌, if◌then◌else◌, All, All-imp, Pairwise,
}
use nostalux_os.Scheduler.{
  Task, Scheduler, allocate_task_id, is_ready, reaped, insert_task, spawn_with, spawn_stack,
  change_task, dead, terminate_found,
}
use nostalux_os.Scheduler.Ring.{Apart, GivenOut, Among, IsRing, reaped-IsRing, changed-IsRing}

pub allocate-new :
    (n id m : ℕ)
    → n < u64_mod
    → allocate_task_id n ≡ some (id, m)
    → (id ≡ n) × (0 < n) × (m < u64_mod) × ((m ≡ 0) ⊎ (m ≡ n + 1))
unfolding allocate_task_id
allocate-new n id m h e = ground arith

GivenOut-next :
    (n m : ℕ) (t : Task) → 0 < n → (m ≡ 0) ⊎ (m ≡ n + 1) → GivenOut n t → GivenOut m t × (t.id < n)
GivenOut-next n m t lt c g = ground arith

All-next :
    (n m id : ℕ) (tasks : List Task)
    → id ≡ n
    → 0 < n
    → (m ≡ 0) ⊎ (m ≡ n + 1)
    → All (GivenOut n) tasks
    → All (GivenOut m) tasks × All (λ (t : Task). t.id ≢ id) tasks
All-next n m id [] e lt c h = (tt, tt)
All-next n m id (t ∷ tasks) e lt c h =
    let (g, below) = GivenOut-next n m t lt c h.0 in
    let (gs, apart) = All-next n m id tasks e lt c h.1 in
    ((g, gs), ((λ q. omega (arith, q, e, below)), apart))

All-Apart :
    (id : ℕ) (u : Task) (tasks : List Task)
    → u.id ≡ id
    → All (λ (t : Task). t.id ≢ id) tasks
    → All (Apart u) tasks
All-Apart id u tasks e h =
    All-imp (λ (t : Task). t.id ≢ id) (Apart u) tasks (λ t ne q. ne (sym q ∙ e)) h

pub new_given :
    (n id m : ℕ) (u : Task)
    → u.id ≡ id
    → n < u64_mod
    → id ≡ n
    → 0 < n
    → (m ≡ 0) ⊎ (m ≡ n + 1)
    → GivenOut m u
new_given n id m u e fits q lt c = ground arith

Among-insert :
    (current : ℕ) (t u : Task) (tasks : List Task)
    → Among current (t ∷ tasks)
    → Among current (t ∷ u ∷ tasks)
Among-insert current t u tasks (inl e) = inl e
Among-insert current t u tasks (inr h) = inr (inr h)

insert-IsRing :
    (s : Scheduler) (u : Task) (id m : ℕ)
    → u.id ≡ id
    → allocate_task_id s.next_pid ≡ some (id, m)
    → IsRing s
    → IsRing (record s { tasks = insert_task u s.tasks; next_pid = m })
insert-IsRing s u id m e a h = inserted s.tasks h.numbers h.given_out h.current_is
  where
    new : (id ≡ s.next_pid) × (0 < s.next_pid) × (m < u64_mod) × ((m ≡ 0) ⊎ (m ≡ s.next_pid + 1))
    new = allocate-new s.next_pid id m h.next_fits a

    fresh : GivenOut m u
    fresh = new_given s.next_pid id m u e h.next_fits new.0 new.1 new.3

    inserted :
        (tasks : List Task)
        → Pairwise Apart tasks
        → All (GivenOut s.next_pid) tasks
        → Among s.current tasks
        → IsRing (record s { tasks = insert_task u tasks; next_pid = m })
    inserted [] d g c = absurd c
    inserted (t ∷ tasks) d g c =
        let (gs, apart) = All-next s.next_pid m id (t ∷ tasks) new.0 new.1 new.3 g in
        record {
          numbers = (((λ q. apart.0 (q ∙ e)), d.0), (All-Apart id u tasks e apart.1, d.1));
          given_out = (gs.0, (fresh, gs.1));
          current_is = Among-insert s.current t u tasks c;
          next_fits = new.2;
        }

spawn_with-IsRing :
    (task : ℕ → Task) (o : Option (ℕ × ℕ)) (s : Scheduler)
    → ((id : ℕ) → (task id).id ≡ id)
    → allocate_task_id s.next_pid ≡ o
    → IsRing s
    → IsRing (spawn_with task o s).1
spawn_with-IsRing task none s k e h = h
spawn_with-IsRing task (some (id, m)) s k e h = insert-IsRing s (task id) id m (k id) e h

pub spawn_stack-IsRing :
    (stack : Option ℕ) (task : ℕ → ℕ → Task) (s : Scheduler)
    → ((top id : ℕ) → (task top id).id ≡ id)
    → IsRing s
    → IsRing (spawn_stack stack task s).1
spawn_stack-IsRing none task s k h = h
spawn_stack-IsRing (some top) task s k h =
    spawn_with-IsRing (λ id. task top id) (allocate_task_id s.next_pid) s (λ id. k top id) refl h

pub IsRing-if :
    (b : Bool) (s : Scheduler) (r : Bool × Scheduler)
    → IsRing s
    → IsRing r.1
    → IsRing (if b then (false, s) else r).1
IsRing-if true s r h k = h
IsRing-if false s r h k = k

pub terminate_found-IsRing :
    (o : Option Task) (s : Scheduler) → IsRing s → IsRing (terminate_found o s).1
terminate_found-IsRing none s h = h
terminate_found-IsRing (some t) s h =
    IsRing-if ((t.id == s.current) || not (is_ready t)) s
      (true, reaped (record s { tasks = change_task t.id dead s.tasks })) h
      (reaped-IsRing (record s { tasks = change_task t.id dead s.tasks })
        (changed-IsRing s t.id dead (λ u. refl) h))
