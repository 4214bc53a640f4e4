-- ===== src/Tasks/Sleeping.antt =====
-- `TaskManager::Sleep`, by pointer and by id.
use hon_os.Prelude.{
  ℕ, ◌+◌, ◌<◌, ◌≡◌, ◌≢◌, refl, ap, sym, ◌∙◌, none, some, Bool, true, false, ◌&&◌, ◌==◌,
  if◌then◌else◌, arith, count, ℕ_discrete, inl, inr, Bool-cases,
}
use hon_os.Tasks.TaskObject.{Task, TaskContext}
use hon_os.Tasks.Queues.{
  update, find_task, modify, erase, map_task, find_task-id, find_task-modify, modify-modify,
  count_of_head, head_of_ne_nil, count-erase, erase-nil, head?-erase,
}
use hon_os.Tasks.{
  TaskManager, Resume, stays, resumes, set_running, set_context, current_task, rotate, put_to_sleep,
  sleep,
}
use hon_os.Tasks.Invariant.{
  IsConsistent, IsScheduled, IsValid, IsBest, idle_id, modified-IsConsistent, ne_nil_of_count,
  Rotated, rotate-Rotated,
}
use hon_os.Tasks.Schedule.{current_task_found, current_of_best}

abbrev pub is_current : TaskManager → ℕ → Bool
is_current m id = elim (current_task m) [ none ↦ false | some c ↦ id == c ]

-- A task that was put to sleep; the registers are saved in it if it was current.
abbrev pub asleep : Bool → TaskContext → Task → Task
asleep saves cpu t = if saves then set_context cpu (set_running false t) else set_running false t

-- What `Sleep` of task `id` has done, with the registers `cpu`.
pub record Slept (m : TaskManager) (cpu : TaskContext) (id : ℕ) (r : Resume) (m' : TaskManager)
    : Type 0 where
  pub valid : IsValid m'
  pub found :
      (j : ℕ)
      → find_task j m'.tasks ≡ (
          if id == j
          then map_task (asleep (is_current m id) cpu) (find_task j m.tasks)
          else find_task j m.tasks)
  pub finish_waiter : m'.finish_waiter ≡ m.finish_waiter
  pub next : ℕ
  pub current : current_task m' ≡ some next
  pub resume : r ≡ (if is_current m id then resumes next else stays)
  pub best : is_current m id ≡ true → IsBest m'

module _ (m : TaskManager) (v : IsValid m) (cpu : TaskContext) (id : ℕ) (t : Task)
    (e : find_task id m.tasks ≡ some t) (busy : id ≢ idle_id) where
  same_id : t.id ≡ id
  same_id = find_task-id id m.tasks t e

  paused : TaskManager
  paused = record m { tasks = modify t.id (set_running false) m.tasks }

  paused-IsScheduled : IsScheduled paused
  unfolding paused
  paused-IsScheduled = record {
    idle = v.scheduled.idle;
    ready = v.scheduled.ready;
    within = v.scheduled.within;
    above = v.scheduled.above;
  }

  paused-tasks :
      (n : TaskManager)
      → n.tasks ≡ paused.tasks
      → modify t.id (set_context cpu) n.tasks ≡ modify t.id (asleep true cpu) m.tasks
  unfolding paused
  paused-tasks n h =
      ap (modify t.id (set_context cpu)) h
      ∙ modify-modify t.id (set_running false) (set_context cpu) m.tasks (λ u. refl)

  paused-current : current_task paused ≡ current_task m
  unfolding current_task paused
  paused-current = refl

  paused-level : (paused.run_queues ≡ m.run_queues) × (paused.current_level ≡ m.current_level)
  unfolding paused
  paused-level = (refl, refl)

  -- The other tasks, and this one asleep.
  found_asleep :
      (saves : Bool) (j : ℕ)
      → find_task j (modify t.id (asleep saves cpu) m.tasks) ≡ (
          if id == j
          then map_task (asleep saves cpu) (find_task j m.tasks)
          else find_task j m.tasks)
  found_asleep saves j =
      ground
        (arith, same_id, find_task-modify t.id j (asleep saves cpu) m.tasks (λ u. ground arith))

  -- The sleeper is the current task.
  switched_away : (n : TaskManager) → TaskManager
  switched_away n = record n { tasks = modify t.id (set_context cpu) n.tasks }

  switched_away-Slept :
      (n : TaskManager)
      → t.running ≡ true
      → current_task m ≡ some t.id
      → Rotated paused true t.id n
      → (next : ℕ) → current_task n ≡ some next
      → Slept m cpu id (resumes next) (switched_away n)
  unfolding switched_away
  switched_away-Slept n awake front rot next now = record {
    valid = record {
      consistent = consistent;
      scheduled = record {
        idle = ground (arith, counts 0 idle_id, v.scheduled.idle, same_id);
        ready = rot.best.ready;
        within = rot.best.within;
        above = λ h k a b. rot.best.above k a b;
      };
    };
    found = λ j. ap (find_task j) (paused-tasks n rot.tasks) ∙ found_asleep true j ∙ rw cur refl;
    finish_waiter = rot.finish_waiter ∙ unfold paused in refl;
    next = next;
    current = unfold current_task in now;
    resume = ground (arith, front, same_id);
    best = λ h. rot.best;
  }
    where
      cur : is_current m id ≡ true
      cur = ground (arith, front, same_id)

      at_level : (u : Task) → find_task t.id m.tasks ≡ some u → u.level ≡ m.current_level
      at_level u h = let (w, f, _, l) = current_task_found m t.id v front in cc

      level : t.level ≡ m.current_level
      level = at_level t (ap (λ k. find_task k m.tasks) same_id ∙ e)

      counts :
          (lv j : ℕ)
          → count j (n.run_queues lv) + (if lv == m.current_level && t.id == j then 1 else 0)
            ≡ count j (m.run_queues lv)
      counts lv j = unfold paused in (rot.counts lv j)

      consistent : IsConsistent (record n { tasks = modify t.id (set_context cpu) n.tasks })
      consistent =
          modified-IsConsistent m _ t.id (asleep true cpu) v.consistent (λ u. refl)
            (λ u h. v.consistent.leveled t.id u h) (paused-tasks n rot.tasks)
            (rot.latest_id ∙ unfold paused in refl)
            (λ lv j. ground (arith, counts lv j, v.consistent.queued lv j, e, level, same_id))

  -- The sleeper waits in its run queue.
  dequeued : TaskManager
  dequeued = record m {
    tasks = modify t.id (set_running false) m.tasks;
    run_queues = update m.run_queues t.level (erase (m.run_queues t.level) t.id);
  }

  dequeued-Slept :
      (current : ℕ) → current_task m ≡ some current → t.id ≢ current → Slept m cpu id stays dequeued
  unfolding dequeued current_task
  dequeued-Slept current front other = record {
    valid = record {
      consistent =
          modified-IsConsistent m _ t.id (set_running false) v.consistent (λ u. refl)
            (λ u h. v.consistent.leveled t.id u h) refl refl
            (λ lv j. ground (
              arith,
              count-erase j t.id (m.run_queues t.level),
              v.consistent.queued lv j,
              e,
              same_id,
            ));
      scheduled = record {
        idle = ground (arith, v.scheduled.idle, same_id, count-erase idle_id t.id (m.run_queues 0));
        ready =
            ne_nil_of_count current _
              (ground (arith, here, count-erase current t.id (m.run_queues m.current_level)));
        within = v.scheduled.within;
        above = λ calm k a b.
            ground (arith, v.scheduled.above calm k a b, erase-nil (m.run_queues k) t.id);
      };
    };
    found = λ j. found_asleep false j ∙ rw cur refl;
    finish_waiter = refl;
    next = current;
    current =
        ground (arith, front, head?-erase (m.run_queues m.current_level) t.id current front other);
    resume = rw cur refl;
    best = λ h. let clash : ⊥ = cc (h, cur) in absurd clash;
  }
    where
      here : 0 < count current (m.run_queues m.current_level)
      here = count_of_head (m.run_queues m.current_level) current front

      cur : is_current m id ≡ false
      cur = ground (arith, front, same_id)

  put_to_sleep-current :
      t.running ≡ true
      → current_task m ≡ some t.id
      → (r : Resume) × (m' : TaskManager) × (put_to_sleep m cpu t ≡ some (r, m'))
        × Slept m cpu id r m'
  put_to_sleep-current awake front =
      let quiet : current_task paused ≡ some idle_id → true ≡ false = λ h.
        let clash : some t.id ≡ some idle_id = sym front ∙ sym paused-current ∙ h in
        ground (arith, clash, same_id) in
      let (c, n, eq, rot) = rotate-Rotated paused true paused-IsScheduled quiet in
      let same : c ≡ t.id = cc (rot.was, front, paused-current) in
      let eq' : rotate paused true ≡ some (t.id, n) = eq ∙ ap (λ k. some (k, n)) same in
      let (next, now) = current_of_best n rot.best in
      (
        resumes next,
        switched_away n,
        unfold put_to_sleep paused switched_away in ground (arith, front, paused-current, eq', now),
        switched_away-Slept n awake front (rw same at rot) next now,
      )

  resting-Slept :
      (current : ℕ) → t.running ≡ false → current_task m ≡ some current → Slept m cpu id stays m
  resting-Slept current resting front = record {
    valid = v;
    found = λ j. elim (ℕ_discrete id j) [
      | yes same ↦
          let mine : find_task j m.tasks ≡ some t = ap (λ k. find_task k m.tasks) (sym same) ∙ e in
          ground (arith, cur, mine)
      | no other ↦ ground arith
    ];
    finish_waiter = refl;
    next = current;
    current = front;
    resume = rw cur refl;
    best = λ h. let clash : ⊥ = cc (h, cur) in absurd clash;
  }
    where
      other : id ≢ current
      other same =
          let (w, f, awake, _) = current_task_found m current v front in
          let mine : find_task id m.tasks ≡ some w = ap (λ k. find_task k m.tasks) same ∙ f in
          ground (arith, mine, awake)

      cur : is_current m id ≡ false
      cur = ground (arith, front, other)

  put_to_sleep-Slept :
      (current : ℕ)
      → t.running ≡ true
      → current_task m ≡ some current
      → (r : Resume) × (m' : TaskManager) × (put_to_sleep m cpu t ≡ some (r, m'))
        × Slept m cpu id r m'
  put_to_sleep-Slept current awake front = elim (ℕ_discrete t.id current) [
    | yes same ↦ put_to_sleep-current awake (front ∙ ap some (sym same))
    | no other ↦ (
      stays,
      dequeued,
      unfold put_to_sleep dequeued paused in
          (let now : current_task paused ≡ some current = paused-current ∙ front in
            ground (arith, now)),
      dequeued-Slept current front other,
    )
  ]

  -- `Sleep` of a task that is there, but for the idle task, does not end in undefined behaviour. The
  -- task sleeps, and no other task changes. If it was current, its registers are saved, and the
  -- processor goes on with the first task of the highest level that has one.
  pub sleep-Slept :
      (r : Resume) × (m' : TaskManager) × (sleep m cpu id ≡ some (r, m')) × Slept m cpu id r m'
  unfolding sleep
  sleep-Slept =
      let (current, front') = head_of_ne_nil (m.run_queues m.current_level) v.scheduled.ready in
      let front : current_task m ≡ some current = unfold current_task in front' in
      elim (Bool-cases t.running) [
        | inl awake ↦
            let (r, m', eq, d) = put_to_sleep-Slept current awake front in
            (r, m', ground (arith, e, eq), d)
        | inr resting ↦ (stays, m, ground (arith, e), resting-Slept current resting front)
      ]
