-- ===== src/Tasks.antt =====
-- kernel/task.hpp and kernel/task.cpp: tasks and the run queues of the scheduler
-- (class `TaskManager`; class `Task` stands in Tasks/TaskObject.antt).
-- A `Task*` is the task's id: ids are never used twice, and a pointer to a task that was erased finds
-- none. `none` as a result is undefined behaviour of the source: `front()` of an empty queue, a run
-- queue past the highest level, or the use of a pointer to an erased task.
pub mod TaskObject
pub mod Queues
pub mod Invariant
pub mod Waking
pub mod Sending
pub mod Schedule
pub mod Sleeping
pub mod Blocking
pub mod Waiting
pub mod Reaching
mod Tests
use hon_os.Prelude.{
  ℕ, zero, suc, List, [], ◌∷◌, ◌++◌, Option, none, some, Bool, true, false, ◌==◌, ltb, leb,
  if◌then◌else◌, add64, ◌>>=◌,
}
use hon_os.Errors.{Code, success, no_such_task}
use hon_os.Tasks.TaskObject.{Task, TaskContext, Message, init_context}
use hon_os.Tasks.TaskObject
use hon_os.Tasks.Queues.{
  update, find_task, modify, erase_task, erase, head?, is_empty, pop_front, highest,
}

abbrev pub max_level : ℕ
max_level = 3

-- `running_` is called `run_queues`; a level above `max_level` has no queue, and none is used.
-- A map from ids is a function.
pub record TaskManager : Type 0 where
  pub tasks : List Task
  pub latest_id : ℕ
  pub run_queues : ℕ → List ℕ
  pub current_level : ℕ
  pub level_changed : Bool
  pub finish_tasks : ℕ → Option ℕ
  pub finish_waiter : ℕ → Option ℕ

-- What the processor does next: go on in the calling task, or load the context of another.
pub data Resume : Type 0 where
  stays : Resume
  resumes : ℕ → Resume

abbrev pub set_level : ℕ → Task → Task
set_level level t = record t { level = level }

abbrev pub set_running : Bool → Task → Task
set_running running t = record t { running = running }

abbrev pub set_context : TaskContext → Task → Task
set_context ctx t = record t { context = ctx }

pub new_task : TaskManager → ℕ × TaskManager
new_task m =
    let id = add64 m.latest_id 1 in
    (id, record m { latest_id = id; tasks = m.tasks ++ (TaskObject.make id ∷ []) })

-- The constructor. The idle task's stack, the CR3 and the address of `TaskIdle` come from outside.
pub make : ℕ → ℕ → ℕ → TaskManager
unfolding new_task modify
make stack_end cr3 task_idle =
    let blank : TaskManager = record {
      tasks = [];
      latest_id = 0;
      run_queues = λ lv. [];
      current_level = max_level;
      level_changed = false;
      finish_tasks = λ id. none;
      finish_waiter = λ id. none;
    } in
    let (task, m) = new_task blank in
    let (idle, m') = new_task m in
    let start = λ (t : Task). set_running true (set_level max_level t) in
    let start_idle =
      λ (t : Task). set_running true (set_level 0 (init_context stack_end cr3 task_idle 0 t)) in
    record m' {
      tasks = modify idle start_idle (modify task start m'.tasks);
      run_queues = update (update m.run_queues max_level (task ∷ [])) 0 (idle ∷ []);
    }

-- `CurrentTask`.
pub current_task : TaskManager → Option ℕ
current_task m = head? (m.run_queues m.current_level)

-- The second half of `RotateCurrentRunQueue`.
pub settle : TaskManager → TaskManager
settle m =
    if m.level_changed
    then record m {
      level_changed = false;
      current_level = highest m.run_queues m.current_level max_level;
    }
    else m

-- `RotateCurrentRunQueue`: the task that was current, and the manager.
pub rotate : TaskManager → Bool → Option (ℕ × TaskManager)
rotate m current_sleep = elim (m.run_queues m.current_level) [
  | [] ↦ none
  | current ∷ rest ↦
      let queue = if current_sleep then rest else rest ++ (current ∷ []) in
      some (
        current,
        settle (record m {
          run_queues = update m.run_queues m.current_level queue;
          level_changed = if is_empty queue then true else m.level_changed;
        }),
      )
]

-- `SwitchTask`; the interrupted task's registers are `current_ctx`.
pub switch_task : TaskManager → TaskContext → Option (Resume × TaskManager)
switch_task m current_ctx = do
  current ← current_task m
  (before, m') ←
      rotate (record m { tasks = modify current (set_context current_ctx) m.tasks }) false
  next ← current_task m'
  some (if next == before then stays else resumes next, m')

-- The part of `Sleep(Task*)` for a task that runs; `SwitchContext` saves the registers `cpu`.
pub put_to_sleep : TaskManager → TaskContext → Task → Option (Resume × TaskManager)
put_to_sleep m cpu task =
    let m' = record m { tasks = modify task.id (set_running false) m.tasks } in
    let switched : Option (Resume × TaskManager) = (do
      (before, m'') ← rotate m' true
      next ← current_task m''
      some (resumes next, record m'' { tasks = modify before (set_context cpu) m''.tasks })) in
    let queue = erase (m.run_queues task.level) task.id in
    current_task m' >>= λ current.
    if task.id == current
    then switched
    else some (stays, record m' { run_queues = update m.run_queues task.level queue })

pub sleep : TaskManager → TaskContext → ℕ → Option (Resume × TaskManager)
unfolding put_to_sleep
sleep m cpu id = find_task id m.tasks >>= λ task.
    if task.running then put_to_sleep m cpu task else some (stays, m)

-- `Sleep(uint64_t)`.
pub sleep_id : TaskManager → TaskContext → ℕ → Option (Code × Resume × TaskManager)
unfolding sleep
sleep_id m cpu id = elim (find_task id m.tasks) [
  | none ↦ some (no_such_task, stays, m)
  | some task ↦ sleep m cpu id >>= λ (r, m'). some (success, r, m')
]

-- `ChangeLevelRunning`; a negative level is `none`.
pub change_level_running : TaskManager → Task → Option ℕ → Option TaskManager
change_level_running m task none = some m
change_level_running m task (some level) =
    let tasks = modify task.id (set_level level) m.tasks in
    let others = update m.run_queues task.level (erase (m.run_queues task.level) task.id) in
    let moved = record m {
      run_queues = update others level (others level ++ (task.id ∷ []));
      tasks = tasks;
      level_changed = if ltb m.current_level level then true else m.level_changed;
    } in
    let popped = update m.run_queues m.current_level (pop_front (m.run_queues m.current_level)) in
    let current_moved = record m {
      run_queues = update popped level (task.id ∷ popped level);
      tasks = tasks;
      current_level = level;
      level_changed = if leb m.current_level level then m.level_changed else true;
    } in
    if level == task.level
    then some m
    else if ltb max_level level
    then none
    else (current_task m >>= λ current.
        if task.id == current then some current_moved else some moved)

-- The part of `Wakeup(Task*, int)` for a task that sleeps.
pub start_running : TaskManager → Task → ℕ → Option TaskManager
start_running m task level =
    if ltb max_level level
    then none
    else some (record m {
      tasks = modify task.id (λ t. set_running true (set_level level t)) m.tasks;
      run_queues = update m.run_queues level (m.run_queues level ++ (task.id ∷ []));
      level_changed = if ltb m.current_level level then true else m.level_changed;
    })

abbrev pub level_or : Option ℕ → ℕ → ℕ
level_or none own = own
level_or (some level) own = level

pub wakeup : TaskManager → ℕ → Option ℕ → Option TaskManager
wakeup m id level = find_task id m.tasks >>= λ task.
    if task.running
    then change_level_running m task level
    else start_running m task (level_or level task.level)

-- `Wakeup(uint64_t, int)`.
pub wakeup_id : TaskManager → ℕ → Option ℕ → Option (Code × TaskManager)
wakeup_id m id level = elim (find_task id m.tasks) [
  | none ↦ some (no_such_task, m)
  | some task ↦ wakeup m id level >>= λ m'. some (success, m')
]

abbrev pub push_message : Message → Task → Task
push_message msg t = record t { msgs = t.msgs ++ (msg ∷ []) }

-- `SendMessage`, with `Task::SendMessage`.
pub send_message : TaskManager → ℕ → Message → Option (Code × TaskManager)
send_message m id msg = elim (find_task id m.tasks) [
  | none ↦ some (no_such_task, m)
  | some task ↦ wakeup (record m { tasks = modify id (push_message msg) m.tasks }) id none >>= λ m'.
      some (success, m')
]

-- Waking the waiter, where `Finish` finds one.
pub wake_waiter : TaskManager → ℕ → Option TaskManager
wake_waiter m id = elim (m.finish_waiter id) [
  | none ↦ some m
  | some waiter ↦ wakeup (record m { finish_waiter = update m.finish_waiter id none }) waiter none
]

-- `Finish`: the current task ends, and another goes on.
pub finish : TaskManager → ℕ → Option (Resume × TaskManager)
finish m exit_code = do
  (id, m') ← rotate m true
  m'' ←
      wake_waiter
        (record m' {
          tasks = erase_task id m'.tasks;
          finish_tasks = update m'.finish_tasks id (some exit_code);
        })
        id
  next ← current_task m''
  some (resumes next, m'')

-- One round of the loop of `WaitFinish`: the exit code, or the caller has gone to sleep and makes
-- the next round when it is resumed.
pub data Wait : Type 0 where
  finished : ℕ → TaskManager → Wait
  waiting : Resume → TaskManager → Wait

pub wait_finish : TaskManager → TaskContext → ℕ → ℕ → Option Wait
wait_finish m cpu current id = elim (m.finish_tasks id) [
  | some exit_code ↦
      some (finished exit_code (record m { finish_tasks = update m.finish_tasks id none }))
  | none ↦
      sleep (record m { finish_waiter = update m.finish_waiter id (some current) }) cpu current
      >>= λ (r, m'). some (waiting r m')
]
