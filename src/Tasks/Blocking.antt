-- ===== src/Tasks/Blocking.antt =====
-- `Finish`.
use hon_os.Prelude.{
  ℕ, ◌≤◌, ◌<◌, ◌≡◌, ◌≢◌, refl, ap, sym, ◌∙◌, none, some, Bool, true, false, ◌==◌, if◌then◌else◌,
  arith, count, inl, inr, Option-cases,
}
use hon_os.Tasks.TaskObject.{Task}
use hon_os.Tasks.Queues.{
  update, find_task, erase_task, map_task, ids, head_of_ne_nil, find_task-erase_task,
  count-ids-erase_task,
}
use hon_os.Tasks.{
  TaskManager, Resume, resumes, set_running, set_level, level_or, current_task, rotate, wake_waiter,
  finish,
}
use hon_os.Tasks.Invariant.{IsValid, idle_id, Rotated, rotate-Rotated}
use hon_os.Tasks.Waking.{wakeup-Woken}
use hon_os.Tasks.Schedule.{current_task_found, best-IsScheduled}

-- Whether task `j` waits for task `id` to end.
abbrev pub is_waiter : TaskManager → ℕ → ℕ → Bool
is_waiter m id j = elim (m.finish_waiter id) [ none ↦ false | some waiter ↦ waiter == j ]

-- What `Finish` of task `id` has done.
pub record Finished (m : TaskManager) (id exit_code : ℕ) (r : Resume) (m' : TaskManager)
    : Type 0 where
  pub valid : IsValid m'
  pub gone : find_task id m'.tasks ≡ none
  pub others :
      (j : ℕ)
      → id ≢ j
      → find_task j m'.tasks ≡ (
          if is_waiter m id j
          then map_task (set_running true) (find_task j m.tasks)
          else find_task j m.tasks)
  pub code : m'.finish_tasks id ≡ some exit_code
  pub forgotten : m'.finish_waiter id ≡ none
  pub next : ℕ
  pub current : current_task m' ≡ some next
  pub resume : r ≡ resumes next

-- A task that waits for `id` is another task, and is there.
abbrev pub WaiterLives : TaskManager → ℕ → Type 0
WaiterLives m id =
    (waiter : ℕ)
    → m.finish_waiter id ≡ some waiter
    → (id ≢ waiter) × (t : Task) × (find_task waiter m.tasks ≡ some t)

module _ (m : TaskManager) (v : IsValid m) (id exit_code : ℕ)
    (front : current_task m ≡ some id) where
  -- The manager with task `id` out of the queue, and out of the tasks.
  ended : TaskManager → TaskManager
  ended n = record n {
    tasks = erase_task id n.tasks;
    finish_tasks = update n.finish_tasks id (some exit_code);
  }

  find_task-ended :
      (n : TaskManager) (j : ℕ)
      → Rotated m true id n
      → find_task j (ended n).tasks ≡ (if id == j then none else find_task j m.tasks)
  unfolding ended
  find_task-ended n j rot =
      rw rot.tasks (find_task-erase_task id j m.tasks (v.consistent.distinct id))

  ended-IsValid : (n : TaskManager) → id ≢ idle_id → Rotated m true id n → IsValid (ended n)
  ended-IsValid n busy rot =
      let (t, f, awake, level) = current_task_found m id v front in
      record {
        consistent = record {
          queued = λ lv j.
              unfold ended in
              ground
                (arith, find j, rot.counts lv j, v.consistent.queued lv j, mine j, f, awake, level);
          leveled = λ j u h. v.consistent.leveled j u (ground (arith, find_task-ended n j rot, h));
          distinct = λ j. omega (arith, fewer j, v.consistent.distinct j);
          fresh = λ j h. omega (arith, fewer j, v.consistent.fresh j (later j h));
        };
        scheduled =
            best-IsScheduled (ended n)
              (unfold ended in ground (arith, rot.counts 0 idle_id, v.scheduled.idle))
              (unfold ended in rot.best);
      }
    where
      find :
          (j : ℕ)
          → find_task j (erase_task id n.tasks) ≡ (if id == j then none else find_task j m.tasks)
      find j = unfold ended in find_task-ended n j rot

      mine : (j : ℕ) → id ≡ j → find_task j m.tasks ≡ find_task id m.tasks
      mine j h = ap (λ k. find_task k m.tasks) (sym h)

      fewer : (j : ℕ) → count j (ids (ended n).tasks) ≤ count j (ids m.tasks)
      fewer j = unfold ended in rw rot.tasks (count-ids-erase_task id j m.tasks)

      later : (j : ℕ) → (ended n).latest_id < j → m.latest_id < j
      later j h = unfold ended in omega (arith, rot.latest_id, h)

  -- The waiter's entry is erased.
  heedless : TaskManager → TaskManager
  heedless n = record n { finish_waiter = update n.finish_waiter id none }

  heedless-IsValid : (n : TaskManager) → IsValid n → IsValid (heedless n)
  unfolding heedless
  heedless-IsValid n w = record {
    consistent = record {
      queued = w.consistent.queued;
      leveled = w.consistent.leveled;
      distinct = w.consistent.distinct;
      fresh = w.consistent.fresh;
    };
    scheduled = record {
      idle = w.scheduled.idle;
      ready = w.scheduled.ready;
      within = w.scheduled.within;
      above = w.scheduled.above;
    };
  }

  woken_others :
      (n m' : TaskManager) (waiter j : ℕ)
      → m.finish_waiter id ≡ some waiter
      → id ≢ j
      → find_task j n.tasks ≡ (if id == j then none else find_task j m.tasks)
      → find_task j m'.tasks ≡ (
          if waiter == j
          then map_task
              (λ t. set_running true (set_level (level_or none t.level) t))
              (find_task j (heedless n).tasks)
          else find_task j (heedless n).tasks)
      → find_task j m'.tasks ≡ (
          if is_waiter m id j
          then map_task (set_running true) (find_task j m.tasks)
          else find_task j m.tasks)
  unfolding heedless
  woken_others n m' waiter j e d f w = elim (Option-cases (find_task j m.tasks)) [
    | inl gone ↦ ground (arith, e, d, f, w, gone)
    | inr (t, there) ↦ ground (arith, e, d, f, w, there)
  ]

  -- With the waiter of `id`, if there is one, to be woken.
  wake_waiter-Finished :
      (n : TaskManager)
      → IsValid n
      → ((j : ℕ) → find_task j n.tasks ≡ (if id == j then none else find_task j m.tasks))
      → n.finish_tasks id ≡ some exit_code
      → n.finish_waiter ≡ m.finish_waiter
      → WaiterLives m id
      → (m' : TaskManager) × (wake_waiter n id ≡ some m')
        × IsValid m'
        × ((r : Resume) (next : ℕ)
            → current_task m' ≡ some next
            → r ≡ resumes next
            → Finished m id exit_code r m')
  unfolding wake_waiter
  wake_waiter-Finished n w found code waiters lives = elim (Option-cases (m.finish_waiter id)) [
    | inl e ↦
        let e' : n.finish_waiter id ≡ none = rw waiters e in
        (
          n,
          ground (arith, e'),
          w,
          λ r next now h. record {
            valid = w;
            gone = ground (arith, found id);
            others = λ j d. ground (arith, found j, e);
            code = code;
            forgotten = e';
            next = next;
            current = now;
            resume = h;
          },
        )
    | inr (waiter, e) ↦
        let e' : n.finish_waiter id ≡ some waiter = ap (λ g. g id) waiters ∙ e in
        let (apart, t, there) = lives waiter e in
        let there' : find_task waiter n.tasks ≡ some t =
          ground (arith, found waiter, there, apart) in
        let (m', eq, k) =
          wakeup-Woken (heedless n) (heedless-IsValid n w) waiter t (unfold heedless in there') none
            tt (λ h. absurd (h refl)) in
        (
          m',
          unfold heedless in ground (arith, e', eq),
          k.valid,
          λ r next now h. record {
            valid = k.valid;
            gone = unfold heedless in ground (arith, k.found id, found id, apart);
            others = λ j d. woken_others n m' waiter j e d (found j) (k.found j);
            code = ap (λ g. g id) k.finish_tasks ∙ unfold heedless in code;
            forgotten = ap (λ g. g id) k.finish_waiter ∙ unfold heedless in ground arith;
            next = next;
            current = now;
            resume = h;
          },
        )
  ]

  -- `Finish` of the current task, but for the idle task, whose waiter is there if it has one: the task
  -- is gone, its exit code is kept, the waiter runs again, and the processor goes on with another task.
  pub finish-Finished :
      id ≢ idle_id
      → WaiterLives m id
      → (r : Resume) × (m' : TaskManager) × (finish m exit_code ≡ some (r, m'))
        × Finished m id exit_code r m'
  unfolding finish
  finish-Finished busy lives =
      let (c, n, eq, rot) =
        rotate-Rotated m true v.scheduled (λ h.
          let clash : some id ≡ some idle_id = sym front ∙ h in absurd (busy (ground arith))) in
      let same : c ≡ id = cc (rot.was, front) in
      let rot' : Rotated m true id n = rw same at rot in
      let eq' : rotate m true ≡ some (id, n) = eq ∙ ap (λ k. some (k, n)) same in
      let (m', wakes, valid, done) =
        wake_waiter-Finished (ended n) (ended-IsValid n busy rot') (λ j. find_task-ended n j rot')
          (unfold ended in ground arith) (unfold ended in rot.finish_waiter) lives in
      let (next, now) = head_of_ne_nil (m'.run_queues m'.current_level) valid.scheduled.ready in
      let now' : current_task m' ≡ some next = unfold current_task in now in
      (
        resumes next,
        m',
        (let wakes' : wake_waiter
                  (record n {
                    tasks = erase_task id n.tasks;
                    finish_tasks = update n.finish_tasks id (some exit_code);
                  })
                  id
                ≡ some m' =
              unfold ended in wakes in
            ground (arith, eq', wakes', now')),
        done (resumes next) next now' refl,
      )
