-- ===== src/Tasks/Sending.antt =====
-- `TaskManager::SendMessage`.
use hon_os.Prelude.{
  ℕ, ◌≡◌, refl, ◌∙◌, Option, none, some, true, ◌==◌, if◌then◌else◌, arith, ℕ_discrete, inl, inr,
  Option-cases, ◌++◌, ◌∷◌, [],
}
use hon_os.Errors.{Code, success, no_such_task}
use hon_os.Tasks.TaskObject.{Task, Message}
use hon_os.Tasks.Queues.{find_task, modify, slot, map_task, find_task-modify}
use hon_os.Tasks.{TaskManager, set_running, set_level, level_or, push_message, send_message}
use hon_os.Tasks.Invariant.{IsValid, modified-IsConsistent}
use hon_os.Tasks.Waking.{wakeup-Woken}

-- The answer to a message for a task that is there, or is not.
abbrev pub answer : Option Task → Code
answer none = no_such_task
answer (some t) = success

-- The message is the last of the task's messages, and the task runs.
abbrev pub receive : Message → Task → Task
receive msg t = record t { running = true; msgs = t.msgs ++ (msg ∷ []) }

module _ (m : TaskManager) (v : IsValid m) (id : ℕ) (msg : Message) where
  posted : TaskManager
  posted = record m { tasks = modify id (push_message msg) m.tasks }

  posted-IsValid : IsValid posted
  unfolding posted
  posted-IsValid = record {
    consistent =
        modified-IsConsistent m posted id (push_message msg) v.consistent (λ t. refl)
          (λ t h. v.consistent.leveled id t h) refl refl
          (λ lv j. v.consistent.queued lv j ∙ same_slot lv j (find_task j m.tasks));
    scheduled = record {
      idle = v.scheduled.idle;
      ready = v.scheduled.ready;
      within = v.scheduled.within;
      above = v.scheduled.above;
    };
  }
    where
      same_slot :
          (lv j : ℕ) (o : Option Task)
          → slot o lv ≡ slot (if id == j then map_task (push_message msg) o else o) lv
      same_slot lv j none = ground arith
      same_slot lv j (some t) = ground arith

  -- In a valid manager `SendMessage` answers `kNoSuchTask` and changes no task if the task is not
  -- there; else it answers `kSuccess`, the message is the task's last, and the task runs. The other
  -- tasks stay, and so does the invariant.
  pub send_message_lem :
      (m' : TaskManager) × (send_message m id msg ≡ some (answer (find_task id m.tasks), m'))
      × IsValid m'
      × ((j : ℕ)
          → find_task j m'.tasks ≡ (
              if id == j
              then map_task (receive msg) (find_task j m.tasks)
              else find_task j m.tasks))
  unfolding send_message
  send_message_lem = elim (Option-cases (find_task id m.tasks)) [
    | inl e ↦ (m, ground (arith, e), v, λ j. absent e j)
    | inr (t, e) ↦
        let there : find_task id posted.tasks ≡ some (push_message msg t) =
          unfold posted in
          ground (arith, e, find_task-modify id id (push_message msg) m.tasks (λ u. refl)) in
        let (m', r, w) =
          wakeup-Woken posted posted-IsValid id (push_message msg t) there none tt
            (λ h. absurd (h refl)) in
        (m', unfold posted in ground (arith, e, r), w.valid, λ j. w.found j ∙ both j)
  ]
    where
      absent :
          find_task id m.tasks ≡ none
          → (j : ℕ)
          → find_task j m.tasks ≡ (
              if id == j then map_task (receive msg) (find_task j m.tasks) else find_task j m.tasks)
      absent e j = elim (ℕ_discrete id j) [
        | yes same ↦ let gone : find_task j m.tasks ≡ none = rw (← same) e in ground (arith, gone)
        | no other ↦ ground arith
      ]

      both :
          (j : ℕ)
          → (if id == j
              then map_task
                  (λ t. set_running true (set_level (level_or none t.level) t))
                  (find_task j posted.tasks)
              else find_task j posted.tasks)
            ≡ (if id == j
                then map_task (receive msg) (find_task j m.tasks)
                else find_task j m.tasks)
      both j =
          let shown = find_task-modify id j (push_message msg) m.tasks (λ u. refl) in
          unfold posted in
          elim (Option-cases (find_task j m.tasks)) [
            | inl e ↦ ground (arith, e, shown)
            | inr (t, e) ↦ ground (arith, e, shown)
          ]
