-- ===== src/Tasks/Waking.antt =====
-- `Wakeup`, `ChangeLevelRunning` and `SendMessage`.
use hon_os.Prelude.{
  ℕ, ◌≤◌, ◌≡◌, ◌≢◌, refl, ap, sym, ◌∙◌, inl, inr, [], ◌∷◌, ◌++◌, Option, none, some, true, false,
  ◌==◌, ltb, leb, if◌then◌else◌, arith, count-append, Bool-cases, ℕ_discrete,
}
use hon_os.Tasks.TaskObject.{Task}
use hon_os.Tasks.Queues.{
  update, find_task, modify, map_task, find_task-id, find_task-modify, is_empty→ne_nil,
  is_empty-append, ne_nil→is_empty, erase, erase-nil, pop_front, head?, count_of_head,
  count-pop_front, count-erase, head_of_ne_nil,
}
use hon_os.Tasks.{
  TaskManager, max_level, set_running, set_level, level_or, start_running, change_level_running,
  current_task, wakeup,
}
use hon_os.Tasks.Invariant.{
  IsConsistent, IsScheduled, IsValid, idle_id, modified-IsConsistent, ne_nil_of_count,
}

-- A new level, if one is given, is one of the run queues'.
abbrev pub IsLevel : Option ℕ → Type 0
IsLevel none = Unit {0}
IsLevel (some level) = level ≤ max_level

abbrev woken : Option ℕ → Task → Task
woken level t = set_running true (set_level (level_or level t.level) t)

-- What `Wakeup` of task `t` has done: the manager is valid, and the task runs at its level, or at the
-- level given. Nothing else of any task has changed.
pub record Woken (m : TaskManager) (id : ℕ) (level : Option ℕ) (m' : TaskManager) : Type 0 where
  pub valid : IsValid m'
  pub found :
      (j : ℕ)
      → find_task j m'.tasks
        ≡ (if id == j then map_task (woken level) (find_task j m.tasks) else find_task j m.tasks)
  pub finish_tasks : m'.finish_tasks ≡ m.finish_tasks
  pub finish_waiter : m'.finish_waiter ≡ m.finish_waiter

module _ (m : TaskManager) (v : IsValid m) (id : ℕ) (t : Task)
    (e : find_task id m.tasks ≡ some t) where
  c : IsConsistent m
  c = v.consistent

  s : IsScheduled m
  s = v.scheduled

  started : ℕ → TaskManager
  started level = record m {
    tasks = modify t.id (λ u. set_running true (set_level level u)) m.tasks;
    run_queues = update m.run_queues level (m.run_queues level ++ (t.id ∷ []));
    level_changed = if ltb m.current_level level then true else m.level_changed;
  }

  started-IsConsistent :
      (level : ℕ) → level ≤ max_level → t.running ≡ false → IsConsistent (started level)
  unfolding started
  started-IsConsistent level low asleep =
      modified-IsConsistent m (started level) t.id (λ u. set_running true (set_level level u)) c
        (λ u. refl) (λ u h. low) refl refl
        (λ k j. ground (
          arith,
          e,
          find_task-id id m.tasks t e,
          count-append j (m.run_queues level) (t.id ∷ []),
          c.queued k j,
        ))

  started-IsScheduled : (level : ℕ) → level ≤ max_level → IsScheduled (started level)
  unfolding started
  started-IsScheduled level low = record {
    idle = ground (arith, s.idle, count-append idle_id (m.run_queues 0) (t.id ∷ []));
    ready = is_empty→ne_nil _ (
        ground (
          arith,
          is_empty-append (m.run_queues level) t.id,
          ne_nil→is_empty (m.run_queues m.current_level) s.ready,
        ));
    within = s.within;
    above = λ calm k a b. ground (arith, s.above (ground arith) k a b);
  }

  -- The task changes its level while another task is current.
  moved : ℕ → TaskManager
  moved level =
      let others = update m.run_queues t.level (erase (m.run_queues t.level) t.id) in
      record m {
        run_queues = update others level (others level ++ (t.id ∷ []));
        tasks = modify t.id (set_level level) m.tasks;
        level_changed = if ltb m.current_level level then true else m.level_changed;
      }

  -- The current task changes its level.
  current_moved : ℕ → TaskManager
  current_moved level =
      let popped = update m.run_queues m.current_level (pop_front (m.run_queues m.current_level)) in
      record m {
        run_queues = update popped level (t.id ∷ popped level);
        tasks = modify t.id (set_level level) m.tasks;
        current_level = level;
        level_changed = if leb m.current_level level then m.level_changed else true;
      }

  moved-IsConsistent :
      (level : ℕ)
      → level ≤ max_level
      → level ≢ t.level
      → t.running ≡ true
      → IsConsistent (moved level)
  unfolding moved
  moved-IsConsistent level low new awake =
      modified-IsConsistent m (moved level) t.id (set_level level) c (λ u. refl) (λ u h. low) refl
        refl
        (λ k j. ground (
          arith,
          e,
          find_task-id id m.tasks t e,
          count-append j (m.run_queues level) (t.id ∷ []),
          count-erase j t.id (m.run_queues t.level),
          c.queued k j,
        ))

  moved-IsScheduled :
      (level current : ℕ)
      → level ≤ max_level
      → level ≢ t.level
      → id ≢ idle_id
      → head? (m.run_queues m.current_level) ≡ some current
      → t.id ≢ current
      → IsScheduled (moved level)
  unfolding moved
  moved-IsScheduled level current low new not_idle front other = record {
    idle = ground (
      arith,
      s.idle,
      find_task-id id m.tasks t e,
      count-append idle_id (m.run_queues 0) (t.id ∷ []),
      count-erase idle_id t.id (m.run_queues 0),
    );
    ready = ne_nil_of_count current _ (
        ground (
          arith,
          count_of_head (m.run_queues m.current_level) current front,
          count-append current (m.run_queues m.current_level) (t.id ∷ []),
          count-erase current t.id (m.run_queues m.current_level),
        ));
    within = s.within;
    above = λ calm k a b.
        let was : m.run_queues k ≡ [] = s.above (ground arith) k a b in
        ground (arith, was, erase-nil (m.run_queues k) t.id);
  }

  current_moved-IsConsistent :
      (level : ℕ)
      → level ≤ max_level
      → level ≢ t.level
      → t.running ≡ true
      → head? (m.run_queues m.current_level) ≡ some t.id
      → IsConsistent (current_moved level)
  unfolding current_moved
  current_moved-IsConsistent level low new awake front =
      let at : t.level ≡ m.current_level = ground (
        arith,
        e,
        find_task-id id m.tasks t e,
        c.queued m.current_level id,
        count_of_head (m.run_queues m.current_level) t.id front,
      ) in
      modified-IsConsistent m (current_moved level) t.id (set_level level) c (λ u. refl)
        (λ u h. low) refl refl
        (λ k j. ground (
          arith,
          e,
          find_task-id id m.tasks t e,
          count-pop_front (m.run_queues m.current_level) t.id j front,
          c.queued k j,
        ))

  current_moved-IsScheduled :
      (level : ℕ)
      → level ≤ max_level
      → id ≢ idle_id
      → head? (m.run_queues m.current_level) ≡ some t.id
      → IsScheduled (current_moved level)
  unfolding current_moved
  current_moved-IsScheduled level low not_idle front = record {
    idle = ground (
      arith,
      s.idle,
      find_task-id id m.tasks t e,
      count-pop_front (m.run_queues m.current_level) t.id idle_id front,
    );
    ready = is_empty→ne_nil _ (ground arith);
    within = low;
    above = λ calm k a b. ground (arith, s.above (ground arith) k (ground arith) b);
  }

  -- Which task the lookups find when one task got a new level and runs.
  found_woken :
      (level : Option ℕ) (f : Task → Task) (j : ℕ)
      → ((u : Task) → (f u).id ≡ u.id)
      → f t ≡ woken level t
      → find_task j (modify t.id f m.tasks)
        ≡ (if id == j then map_task (woken level) (find_task j m.tasks) else find_task j m.tasks)
  found_woken level f j keeps g = elim (ℕ_discrete id j) [
    | yes same ↦
        let mine : find_task j m.tasks ≡ some t = rw (← same) e in
        ground (arith, find_task-id id m.tasks t e, find_task-modify t.id j f m.tasks keeps, mine)
    | no other ↦
        ground (arith, find_task-id id m.tasks t e, find_task-modify t.id j f m.tasks keeps)
  ]

  unchanged-Woken : (level : Option ℕ) → woken level t ≡ t → Woken m id level m
  unchanged-Woken level g = record {
    valid = v;
    found = λ j. elim (ℕ_discrete id j) [
      | yes same ↦ let mine : find_task j m.tasks ≡ some t = rw (← same) e in ground (arith, mine)
      | no other ↦ ground arith
    ];
    finish_tasks = refl;
    finish_waiter = refl;
  }

  started-Woken :
      (level : Option ℕ)
      → IsLevel level
      → t.running ≡ false
      → Woken m id level (started (level_or level t.level))
  unfolding started
  started-Woken level ok asleep =
      let low : level_or level t.level ≤ max_level = in_range level ok in
      record {
        valid = record {
          consistent = started-IsConsistent (level_or level t.level) low asleep;
          scheduled = started-IsScheduled (level_or level t.level) low;
        };
        found = λ j.
            found_woken level (λ u. set_running true (set_level (level_or level t.level) u)) j
              (λ u. refl) refl;
        finish_tasks = refl;
        finish_waiter = refl;
      }
    where
      in_range : (level : Option ℕ) → IsLevel level → level_or level t.level ≤ max_level
      in_range none h = c.leveled id t e
      in_range (some lv) h = h

  moved-Woken :
      (level current : ℕ)
      → level ≤ max_level
      → level ≢ t.level
      → id ≢ idle_id
      → t.running ≡ true
      → head? (m.run_queues m.current_level) ≡ some current
      → t.id ≢ current
      → Woken m id (some level) (moved level)
  unfolding moved
  moved-Woken level current low new not_idle awake front other = record {
    valid = record {
      consistent = moved-IsConsistent level low new awake;
      scheduled = moved-IsScheduled level current low new not_idle front other;
    };
    found = λ j. found_woken (some level) (set_level level) j (λ u. refl) (ground arith);
    finish_tasks = refl;
    finish_waiter = refl;
  }

  current_moved-Woken :
      (level : ℕ)
      → level ≤ max_level
      → level ≢ t.level
      → id ≢ idle_id
      → t.running ≡ true
      → head? (m.run_queues m.current_level) ≡ some t.id
      → Woken m id (some level) (current_moved level)
  unfolding current_moved
  current_moved-Woken level low new not_idle awake front = record {
    valid = record {
      consistent = current_moved-IsConsistent level low new awake front;
      scheduled = current_moved-IsScheduled level low not_idle front;
    };
    found = λ j. found_woken (some level) (set_level level) j (λ u. refl) (ground arith);
    finish_tasks = refl;
    finish_waiter = refl;
  }

  start_eq :
      (level : Option ℕ)
      → IsLevel level
      → start_running m t (level_or level t.level) ≡ some (started (level_or level t.level))
  unfolding start_running started
  start_eq none ok = ground (arith, c.leveled id t e)
  start_eq (some level) ok = ground arith

  change_level_running-Woken :
      (level : Option ℕ)
      → IsLevel level
      → (level ≢ none → id ≢ idle_id)
      → t.running ≡ true
      → (m' : TaskManager) × (change_level_running m t level ≡ some m') × Woken m id level m'
  unfolding change_level_running
  change_level_running-Woken none ok busy awake = (m, refl, unchanged-Woken none (ground arith))
  change_level_running-Woken (some level) ok busy awake = elim (ℕ_discrete level t.level) [
    | yes same ↦ (m, ground arith, unchanged-Woken (some level) (ground arith))
    | no new ↦
        let (current, front) = head_of_ne_nil (m.run_queues m.current_level) s.ready in
        elim (ℕ_discrete t.id current) [
          | yes mine ↦ (
            current_moved level,
            unfold current_moved current_task in ground (arith, front),
            current_moved-Woken level ok new (busy (λ h. cc)) awake (front ∙ ap some (sym mine)),
          )
          | no other ↦ (
            moved level,
            unfold moved current_task in ground (arith, front),
            moved-Woken level current ok new (busy (λ h. cc)) awake front other,
          )
        ]
  ]

  -- In a valid manager `Wakeup` of a task that is there returns, whether the task sleeps, waits in a queue
  -- or is current: it runs at its level or at the one given, and no other task changes. A level that is
  -- given is at most 3, and the idle task is given none.
  pub wakeup-Woken :
      (level : Option ℕ)
      → IsLevel level
      → (level ≢ none → id ≢ idle_id)
      → (m' : TaskManager) × (wakeup m id level ≡ some m') × Woken m id level m'
  unfolding wakeup
  wakeup-Woken level ok busy = elim (Bool-cases t.running) [
    | inl awake ↦
        let (m', r, w) = change_level_running-Woken level ok busy awake in
        (m', ground (arith, e, r), w)
    | inr asleep ↦
        let w = started-Woken level ok asleep in
        (started (level_or level t.level), ground (arith, e, start_eq level ok), w)
  ]
