-- ===== src/Tasks/Schedule.antt =====
-- `SwitchTask` and `Sleep`: what the processor goes on with, and what becomes of the tasks.
use hon_os.Prelude.{
  ℕ, ◌<◌, ◌≡◌, refl, ap, ◌∙◌, Option, none, some, true, false, ◌==◌, if◌then◌else◌, arith, count,
  inl, inr, Option-cases, List, ◌∷◌, [], ◌++◌, sym, ◌≢◌,
}
use hon_os.Tasks.TaskObject.{Task, TaskContext}
use hon_os.Tasks.Queues.{
  find_task, modify, slot, map_task, find_task-modify, count_of_head, head_of_ne_nil,
}
use hon_os.Tasks.{
  TaskManager, Resume, stays, resumes, set_context, current_task, rotate, switch_task,
}
use hon_os.Tasks.Invariant.{
  IsScheduled, IsValid, IsBest, idle_id, modified-IsConsistent, Rotated, rotate-Rotated,
}

-- The current task of a valid manager is there and runs at the current level.
pub current_task_found :
    (m : TaskManager) (c : ℕ)
    → IsValid m
    → current_task m ≡ some c
    → (t : Task) × (find_task c m.tasks ≡ some t) × (t.running ≡ true) × (t.level ≡ m.current_level)
unfolding current_task
current_task_found m c v e =
    let here = count_of_head (m.run_queues m.current_level) c e in
    elim (Option-cases (find_task c m.tasks)) [
      | inl gone ↦ absurd (ground (arith, here, gone, v.consistent.queued m.current_level c))
      | inr (t, f) ↦
          let q = v.consistent.queued m.current_level c in
          (t, f, ground (arith, here, f, q), ground (arith, here, f, q))
    ]

pub best-IsScheduled :
    (m : TaskManager) → 0 < count idle_id (m.run_queues 0) → IsBest m → IsScheduled m
best-IsScheduled m i b = record {
  idle = i;
  ready = b.ready;
  within = b.within;
  above = λ h k x y. b.above k x y;
}

pub current_of_best : (m : TaskManager) → IsBest m → (c : ℕ) × (current_task m ≡ some c)
unfolding current_task
current_of_best m b = head_of_ne_nil (m.run_queues m.current_level) b.ready

pub current_of_valid : (m : TaskManager) → IsValid m → (c : ℕ) × (current_task m ≡ some c)
unfolding current_task
current_of_valid m v = head_of_ne_nil (m.run_queues m.current_level) v.scheduled.ready

-- What `SwitchTask` with the registers `ctx` has done to a manager whose current task was `before`.
pub record Switched (m : TaskManager) (ctx : TaskContext) (before : ℕ) (r : Resume)
    (m' : TaskManager) : Type 0 where
  pub valid : IsValid m'
  pub best : IsBest m'
  pub saved :
      (j : ℕ)
      → find_task j m'.tasks ≡ (
          if before == j
          then map_task (set_context ctx) (find_task j m.tasks)
          else find_task j m.tasks)
  pub counts : (lv j : ℕ) → count j (m'.run_queues lv) ≡ count j (m.run_queues lv)
  pub turned :
      (rest : List ℕ)
      → m.run_queues m.current_level ≡ before ∷ rest
      → m'.run_queues m.current_level ≡ rest ++ (before ∷ [])
  pub queues : (lv : ℕ) → m.current_level ≢ lv → m'.run_queues lv ≡ m.run_queues lv
  pub next : ℕ
  pub current : current_task m' ≡ some next
  pub resume : r ≡ (if next == before then stays else resumes next)

module _ (m : TaskManager) (v : IsValid m) (ctx : TaskContext) where
  saved : ℕ → TaskManager
  saved id = record m { tasks = modify id (set_context ctx) m.tasks }

  saved-IsValid : (id : ℕ) → IsValid (saved id)
  unfolding saved
  saved-IsValid id = record {
    consistent =
        modified-IsConsistent m (saved id) id (set_context ctx) v.consistent (λ t. refl)
          (λ t h. v.consistent.leveled id t h) refl refl
          (λ lv j. v.consistent.queued lv j ∙ same_slot lv j (find_task j m.tasks));
    scheduled = record {
      idle = v.scheduled.idle;
      ready = v.scheduled.ready;
      within = v.scheduled.within;
      above = v.scheduled.above;
    };
  }
    where
      same_slot :
          (lv j : ℕ) (o : Option Task)
          → slot o lv ≡ slot (if id == j then map_task (set_context ctx) o else o) lv
      same_slot lv j none = ground arith
      same_slot lv j (some t) = ground arith

  same_queues : (id lv j : ℕ) → count j ((saved id).run_queues lv) ≡ count j (m.run_queues lv)
  unfolding saved
  same_queues id lv j = refl

  -- A rotation that lets no task sleep keeps the manager valid.
  unslept-IsValid :
      (n : TaskManager) (c : ℕ) (n' : TaskManager) → IsValid n → Rotated n false c n' → IsValid n'
  unslept-IsValid n c n' w r = record {
    consistent = record {
      queued = λ lv j. omega (arith, r.counts lv j) ∙ w.consistent.queued lv j ∙ rw r.tasks;
      leveled = rw r.tasks w.consistent.leveled;
      distinct = rw r.tasks w.consistent.distinct;
      fresh = rw (r.tasks, r.latest_id) w.consistent.fresh;
    };
    scheduled = best-IsScheduled n' (omega (arith, r.counts 0 idle_id, w.scheduled.idle)) r.best;
  }

  -- `SwitchTask` always finds a task to go on with: the first of the highest level that has one. It
  -- saves the registers in the task that was current, puts that task behind the others of its run queue
  -- and keeps the other run queues, and stays if it would go on with the same task.
  pub switch_task-Switched :
      (before : ℕ)
      → current_task m ≡ some before
      → (r : Resume) × (m' : TaskManager) × (switch_task m ctx ≡ some (r, m'))
        × Switched m ctx before r m'
  unfolding switch_task saved
  switch_task-Switched before e =
      let w = saved-IsValid before in
      let (c, m', eq, rot) = rotate-Rotated (saved before) false w.scheduled (λ h. refl) in
      let same : c ≡ before = unfold current_task in cc (rot.was, e) in
      let (next, now) = current_of_best m' rot.best in
      let eq' : rotate (record m { tasks = modify before (set_context ctx) m.tasks }) false
          ≡ some (before, m') =
        (eq ∙ ap (λ k. some (k, m')) same) in
      (
        if next == before then stays else resumes next,
        m',
        ground (arith, e, eq', now),
        record {
          valid = unslept-IsValid (saved before) c m' w rot;
          best = rot.best;
          saved = λ j.
              ap (find_task j) rot.tasks
              ∙ (find_task-modify before j (set_context ctx) m.tasks (λ u. refl));
          counts = λ lv j. omega (arith, rot.counts lv j, same_queues before lv j);
          turned = λ rest q.
              rot.queue rest (q ∙ ap (λ k. k ∷ rest) (sym same)) ∙ ap (λ k. rest ++ (k ∷ [])) same;
          queues = λ lv other. rot.queues lv other;
          next = next;
          current = now;
          resume = refl;
        },
      )
