-- ===== src/Tasks/Invariant.antt =====
-- The scheduler's invariant, and what `RotateCurrentRunQueue` does to the run queues.
use hon_os.Prelude.{
  ℕ, ◌+◌, ◌≤◌, ◌<◌, ◌≡◌, ◌≢◌, refl, ap, sym, ◌∙◌, inl, inr, List, [], ◌∷◌, ◌++◌, Option, none, some,
  Bool, true, false, ◌&&◌, ◌==◌, if◌then◌else◌, arith, ℕ_discrete, count, count-append, Bool-cases,
  ==_refl,
}
use hon_os.Tasks.TaskObject.{Task}
use hon_os.Tasks.Queues.{
  update, find_task, modify, slot, map_task, ids, find_task-modify, ids-modify, is_empty, IsHighest,
  highest-IsHighest, is_empty→ne_nil,
}
use hon_os.Tasks.{TaskManager, max_level, current_task, settle, rotate}

-- A task stands in the run queue of its level, once, if it runs, and in no other. Ids are distinct.
pub record IsConsistent (m : TaskManager) : Type 0 where
  pub queued : (lv id : ℕ) → count id (m.run_queues lv) ≡ slot (find_task id m.tasks) lv
  pub leveled : (id : ℕ) (t : Task) → find_task id m.tasks ≡ some t → t.level ≤ max_level
  pub distinct : (id : ℕ) → count id (ids m.tasks) ≤ 1
  pub fresh : (id : ℕ) → m.latest_id < id → count id (ids m.tasks) ≡ 0

abbrev pub idle_id : ℕ
idle_id = 2

-- The idle task is ready at level 0, so some task always is. The current level has a task, and is
-- the highest that has one, unless the flag says that this is to be looked up.
pub record IsScheduled (m : TaskManager) : Type 0 where
  pub idle : 0 < count idle_id (m.run_queues 0)
  pub ready : m.run_queues m.current_level ≢ []
  pub within : m.current_level ≤ max_level
  pub above :
      m.level_changed ≡ false → (k : ℕ) → m.current_level < k → k ≤ max_level → m.run_queues k ≡ []

pub record IsValid (m : TaskManager) : Type 0 where
  pub consistent : IsConsistent m
  pub scheduled : IsScheduled m

-- The current task is the first of the highest level with a task.
abbrev pub IsBest : TaskManager → Type 0
IsBest m = IsHighest m.run_queues max_level m.current_level

pub ne_nil_of_count : (id : ℕ) (q : List ℕ) → 0 < count id q → q ≢ []
ne_nil_of_count id [] h e = omega arith
ne_nil_of_count id (x ∷ q) h e = cc

-- What `rotate` has done to a manager whose current task was `c`.
pub record Rotated (m : TaskManager) (asleep : Bool) (c : ℕ) (m' : TaskManager) : Type 0 where
  pub was : current_task m ≡ some c
  pub tasks : m'.tasks ≡ m.tasks
  pub latest_id : m'.latest_id ≡ m.latest_id
  pub finish_tasks : m'.finish_tasks ≡ m.finish_tasks
  pub finish_waiter : m'.finish_waiter ≡ m.finish_waiter
  pub counts :
      (lv id : ℕ)
      → count id (m'.run_queues lv)
          + (if asleep && (lv == m.current_level && c == id) then 1 else 0)
        ≡ count id (m.run_queues lv)
  pub queue :
      (rest : List ℕ)
      → m.run_queues m.current_level ≡ c ∷ rest
      → m'.run_queues m.current_level ≡ (if asleep then rest else rest ++ (c ∷ []))
  pub queues : (lv : ℕ) → m.current_level ≢ lv → m'.run_queues lv ≡ m.run_queues lv
  pub calm : m'.level_changed ≡ false
  pub best : IsBest m'

-- After `settle` the current level is the highest with a task.
settle-IsBest :
    (m : TaskManager)
    → m.run_queues 0 ≢ []
    → (m.level_changed ≡ false → IsBest m)
    → IsBest (settle m) × ((settle m).level_changed ≡ false)
unfolding settle
settle-IsBest m some_ready b = elim (Bool-cases m.level_changed) [
  | inl e ↦ rw e (highest-IsHighest m.run_queues m.current_level max_level some_ready, refl)
  | inr e ↦ rw e (b e, refl)
]

tail_same : (c : ℕ) (xs ys : List ℕ) → c ∷ xs ≡ c ∷ ys → xs ≡ ys
tail_same c xs ys h = cc

-- `settle` writes the current level and the flag only.
record Kept (m m' : TaskManager) : Type 0 where
  tasks : m'.tasks ≡ m.tasks
  latest_id : m'.latest_id ≡ m.latest_id
  queues : m'.run_queues ≡ m.run_queues
  finish_tasks : m'.finish_tasks ≡ m.finish_tasks
  finish_waiter : m'.finish_waiter ≡ m.finish_waiter

settle-Kept : (m : TaskManager) → Kept m (settle m)
unfolding settle
settle-Kept m = elim (Bool-cases m.level_changed) [
  | inl e ↦ rw e (record {
    tasks = refl;
    latest_id = refl;
    queues = refl;
    finish_tasks = refl;
    finish_waiter = refl;
  })
  | inr e ↦ rw e (record {
    tasks = refl;
    latest_id = refl;
    queues = refl;
    finish_tasks = refl;
    finish_waiter = refl;
  })
]

module _ (m : TaskManager) (asleep : Bool) (s : IsScheduled m) where
  -- What is left of the current run queue, `c ∷ rest`.
  abbrev left : ℕ → List ℕ → List ℕ
  left c rest = if asleep then rest else rest ++ (c ∷ [])

  count-left :
      (c id : ℕ) (rest : List ℕ)
      → count id (left c rest) + (if asleep && (c == id) then 1 else 0) ≡ count id (c ∷ rest)
  count-left c id rest = ground (arith, count-append id rest (c ∷ []))

  abbrev rotated : ℕ → List ℕ → TaskManager
  rotated c rest = record m {
    run_queues = update m.run_queues m.current_level (left c rest);
    level_changed = if is_empty (left c rest) then true else m.level_changed;
  }

  rotated-counts :
      (c : ℕ) (rest : List ℕ)
      → m.run_queues m.current_level ≡ c ∷ rest
      → (lv id : ℕ)
      → count id ((rotated c rest).run_queues lv)
          + (if asleep && (lv == m.current_level && c == id) then 1 else 0)
        ≡ count id (m.run_queues lv)
  rotated-counts c rest e lv id = elim (ℕ_discrete m.current_level lv) [
    | yes here ↦
        let was : count id (m.run_queues lv) ≡ count id (c ∷ rest) = rw (← here, e) in
        ground (arith, was, count-left c id rest)
    | no other ↦ ground arith
  ]

  rotated-IsBest :
      (c : ℕ) (rest : List ℕ)
      → m.run_queues m.current_level ≡ c ∷ rest
      → (rotated c rest).level_changed ≡ false
      → IsBest (rotated c rest)
  rotated-IsBest c rest e h = record {
    ready = is_empty→ne_nil _ (ground arith);
    within = s.within;
    above = λ k a b. ground (arith, s.above (ground arith) k a b);
  }

  rotated-ready :
      (c : ℕ) (rest : List ℕ)
      → m.run_queues m.current_level ≡ c ∷ rest
      → (asleep ≡ true → c ≢ idle_id)
      → (rotated c rest).run_queues 0 ≢ []
  rotated-ready c rest e h =
      ne_nil_of_count idle_id _ (ground (arith, rotated-counts c rest e 0 idle_id, s.idle))

  -- A scheduled manager has a current task; after `rotate` the highest task is current.
  pub rotate-Rotated :
      (current_task m ≡ some idle_id → asleep ≡ false)
      → (c : ℕ) × (m' : TaskManager) × (rotate m asleep ≡ some (c, m')) × Rotated m asleep c m'
  unfolding rotate current_task
  rotate-Rotated h = go (m.run_queues m.current_level) refl
    where
      go :
          (q : List ℕ)
          → m.run_queues m.current_level ≡ q
          → (c : ℕ) × (m' : TaskManager) × (rotate m asleep ≡ some (c, m')) × Rotated m asleep c m'
      go [] e = absurd (s.ready e)
      go (c ∷ rest) e =
          let kept = settle-Kept (rotated c rest) in
          let sleeper : asleep ≡ true → c ≢ idle_id =
            λ a i. cc (a, h (rw (e, current_task) (ap some i))) in
          let top =
            settle-IsBest (rotated c rest) (rotated-ready c rest e sleeper)
              (rotated-IsBest c rest e) in
          (
            c,
            settle (rotated c rest),
            rw (e, rotate),
            record {
              was = rw (e, current_task);
              tasks = kept.tasks;
              latest_id = kept.latest_id;
              finish_tasks = kept.finish_tasks;
              finish_waiter = kept.finish_waiter;
              counts = λ lv id. rw kept.queues (rotated-counts c rest e lv id);
              queue = λ rest' e'.
                  let same : rest ≡ rest' = tail_same c rest rest' (sym e ∙ e') in
                  ap (λ q. q m.current_level) kept.queues
                  ∙ (let here : (m.current_level == m.current_level) ≡ true =
                        ==_refl m.current_level in
                      rw here refl)
                  ∙ ap (λ r. if asleep then r else r ++ (c ∷ [])) same;
              queues = λ lv other.
                  ap (λ q. q lv) kept.queues
                  ∙ (let differs : (m.current_level == lv) ≡ false = ground arith in
                      rw differs refl);
              calm = top.1;
              best = top.0;
            },
          )

-- Writing one task, with the run queues to match, keeps the tasks consistent.
pub modified-IsConsistent :
    (m m' : TaskManager) (id : ℕ) (f : Task → Task)
    → IsConsistent m
    → ((t : Task) → (f t).id ≡ t.id)
    → ((t : Task) → find_task id m.tasks ≡ some t → (f t).level ≤ max_level)
    → m'.tasks ≡ modify id f m.tasks
    → m'.latest_id ≡ m.latest_id
    → ((lv j : ℕ)
        → count j (m'.run_queues lv)
          ≡ slot (if id == j then map_task f (find_task j m.tasks) else find_task j m.tasks) lv)
    → IsConsistent m'
modified-IsConsistent m m' id f c keeps low e l q = record {
  queued = λ lv j. q lv j ∙ ap (λ o. slot o lv) (sym (found j));
  leveled = λ j t h. levels j t (sym (found j) ∙ h) (find_task j m.tasks) refl;
  distinct = λ j. rw (same_ids j) (c.distinct j);
  fresh = λ j h. same_ids j ∙ c.fresh j (omega (arith, l));
}
  where
    found :
        (j : ℕ)
        → find_task j m'.tasks
          ≡ (if id == j then map_task f (find_task j m.tasks) else find_task j m.tasks)
    found j = rw e (find_task-modify id j f m.tasks keeps)

    same_ids : (j : ℕ) → count j (ids m'.tasks) ≡ count j (ids m.tasks)
    same_ids j = ap (count j) (rw e (ids-modify id f m.tasks keeps))

    levels :
        (j : ℕ) (t : Task)
        → (if id == j then map_task f (find_task j m.tasks) else find_task j m.tasks) ≡ some t
        → (o : Option Task) → find_task j m.tasks ≡ o
        → t.level ≤ max_level
    levels j t h none k = ground arith
    levels j t h (some u) k = elim (ℕ_discrete id j) [
      | yes same ↦
          let mine : find_task id m.tasks ≡ some u = rw (same, k) refl in
          let to : f u ≡ t = ground arith in rw (← to) (low u mine)
      | no other ↦ c.leveled j t (ground arith)
    ]
