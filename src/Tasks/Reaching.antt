-- ===== src/Tasks/Reaching.antt =====
-- The calls of the task manager from its start on: every state that they reach is valid.
use hon_os.Tasks.Waiting.{wait_finish_unfinished, wait_finish-waiting, collected-IsValid}
use hon_os.Prelude.{
  ℕ, ◌+◌, ◌<◌, ◌^◌, ◌≡◌, ◌≢◌, refl, sym, ◌∙◌, List, [], ◌∷◌, ◌++◌, Option, none, some, false, ◌==◌,
  if◌then◌else◌, arith, count, add64, add64-eq, ℕ_discrete, Option-cases, ◌⊎◌, inl, inr,
}
use hon_os.Errors.{Code}
use hon_os.Tasks.TaskObject.{Task, TaskContext, Message, init_context}
use hon_os.Tasks.TaskObject
use hon_os.Tasks.Queues.{find_task, slot, ids, find_task-append, head_of_ne_nil}
use hon_os.Tasks.{
  TaskManager, Resume, make, new_task, current_task, switch_task, sleep, wakeup, send_message,
  finish, wait_finish, Wait, waiting, finished,
}
use hon_os.Tasks.Invariant.{IsValid, idle_id}
use hon_os.Tasks.Waking.{IsLevel, wakeup-Woken}
use hon_os.Tasks.Sending.{send_message_lem}
use hon_os.Tasks.Schedule.{switch_task-Switched}
use hon_os.Tasks.Sleeping.{sleep-Slept}
use hon_os.Tasks.Blocking.{WaiterLives, finish-Finished}

-- The constructor makes a valid manager, whatever the idle task's stack is.
pub make-IsValid : (stack_end cr3 task_idle : ℕ) → IsValid (make stack_end cr3 task_idle)
unfolding make find_task init_context TaskObject.make add64
make-IsValid stack_end cr3 task_idle = record {
  consistent = record {
    queued = λ lv id. ground arith;
    leveled = λ id t h. ground arith;
    distinct = λ id. ground arith;
    fresh = λ id h. ground arith;
  };
  scheduled = record {
    idle = omega arith;
    ready = λ h. cc;
    within = omega arith;
    above = λ h k a b. ground arith;
  };
}

-- A task that does not run adds nothing to any run queue.
slot-append :
    (ts : List Task) (u : Task) (lv j : ℕ)
    → u.running ≡ false
    → slot (find_task j (ts ++ (u ∷ []))) lv ≡ slot (find_task j ts) lv
unfolding find_task
slot-append ts u lv j h = elim (Option-cases (find_task j ts)) [
  | inl e ↦ ground (arith, e, h, find_task-append j ts (u ∷ []))
  | inr (t, e) ↦ ground (arith, e, find_task-append j ts (u ∷ []))
]

level-append :
    (ts : List Task) (u t : Task) (j : ℕ)
    → find_task j (ts ++ (u ∷ [])) ≡ some t
    → (find_task j ts ≡ some t) ⊎ (t ≡ u)
unfolding find_task
level-append ts u t j h = elim (Option-cases (find_task j ts)) [
  | inl e ↦ inr (ground (arith, e, h, find_task-append j ts (u ∷ [])))
  | inr (w, e) ↦ inl (ground (arith, e, h, find_task-append j ts (u ∷ [])))
]

count-ids-append :
    (ts : List Task) (u : Task) (j : ℕ)
    → count j (ids (ts ++ (u ∷ []))) ≡ count j (ids ts) + (if u.id == j then 1 else 0)
count-ids-append [] u j = omega arith
count-ids-append (t ∷ ts) u j = omega (arith, count-ids-append ts u j)

-- A new task sleeps, has a new id, and leaves the manager valid, until the ids run out.
pub new_task-IsValid :
    (m : TaskManager) → IsValid m → m.latest_id + 1 < 2 ^ 64 → IsValid (new_task m).1
unfolding new_task TaskObject.make
new_task-IsValid m v room =
    let fresh : add64 m.latest_id 1 ≡ m.latest_id + 1 = add64-eq m.latest_id 1 room in
    let c = v.consistent in
    let u = TaskObject.make (m.latest_id + 1) in
    rw fresh (record {
      consistent = record {
        queued = λ lv j. c.queued lv j ∙ sym (slot-append m.tasks u lv j refl);
        leveled = λ j t h. elim (level-append m.tasks u t j h) [
          | inl old ↦ c.leveled j t old
          | inr new ↦ rw new (omega arith)
        ];
        distinct = λ j. elim (ℕ_discrete j (m.latest_id + 1)) [
          | yes new ↦ ground (arith, count-ids-append m.tasks u j, c.fresh j)
          | no old ↦ ground (arith, count-ids-append m.tasks u j, c.distinct j)
        ];
        fresh = λ j h. ground (arith, count-ids-append m.tasks u j, c.fresh j);
      };
      scheduled = record {
        idle = v.scheduled.idle;
        ready = v.scheduled.ready;
        within = v.scheduled.within;
        above = v.scheduled.above;
      };
    })

-- A call of the task manager that returns: `NewTask` until the ids run out, `SwitchTask`, `Sleep`,
-- `Wakeup`, `SendMessage`, `Finish`, and a round of `WaitFinish` by the current task. The idle task is
-- neither put to sleep, nor moved to another level, nor ended, and does not wait; a new level is one of
-- the run queues', and a waiter is there when the task that it waits for ends.
pub data Step (m : TaskManager) : TaskManager → Type 0 where
  creates : {m' : TaskManager} → m.latest_id + 1 < 2 ^ 64 → (new_task m).1 ≡ m' → Step m m'
  switches :
      {m' : TaskManager} (ctx : TaskContext) (r : Resume)
      → switch_task m ctx ≡ some (r, m')
      → Step m m'
  sleeps :
      {m' : TaskManager} (cpu : TaskContext) (id : ℕ) (r : Resume)
      → id ≢ idle_id
      → sleep m cpu id ≡ some (r, m')
      → Step m m'
  wakes :
      {m' : TaskManager} (id : ℕ) (level : Option ℕ)
      → IsLevel level
      → (level ≢ none → id ≢ idle_id)
      → wakeup m id level ≡ some m'
      → Step m m'
  sends :
      {m' : TaskManager} (id : ℕ) (msg : Message) (code : Code)
      → send_message m id msg ≡ some (code, m')
      → Step m m'
  ends :
      {m' : TaskManager} (id exit_code : ℕ) (r : Resume)
      → current_task m ≡ some id
      → id ≢ idle_id
      → WaiterLives m id
      → finish m exit_code ≡ some (r, m')
      → Step m m'
  waits :
      {m' : TaskManager} (cpu : TaskContext) (caller id : ℕ) (r : Resume)
      → current_task m ≡ some caller
      → caller ≢ idle_id
      → wait_finish m cpu caller id ≡ some (waiting r m')
      → Step m m'
  collects :
      {m' : TaskManager} (cpu : TaskContext) (caller id code : ℕ)
      → wait_finish m cpu caller id ≡ some (finished code m')
      → Step m m'

pub data Reach (m : TaskManager) : TaskManager → Type 0 where
  here : Reach m m
  next : {n k : TaskManager} → Reach m n → Step n k → Reach m k

same_result :
    {A : Type 0} {r s : A} {m n : TaskManager}
    → ◌≡◌ {A = Option (A × TaskManager)} (some (r, m)) (some (s, n))
    → m ≡ n
same_result e = ground (arith, e)

same_manager : {m n : TaskManager} → ◌≡◌ {A = Option TaskManager} (some m) (some n) → m ≡ n
same_manager e = ground (arith, e)

waiting_result :
    {r s : Resume} {m n : TaskManager}
    → ◌≡◌ {A = Option Wait} (some (waiting r m)) (some (waiting s n))
    → m ≡ n
waiting_result e = ground (arith, e)

-- `Sleep` and `Wakeup` use the pointer that they are given.
sleep_there :
    (m m' : TaskManager) (cpu : TaskContext) (id : ℕ) (r : Resume)
    → sleep m cpu id ≡ some (r, m')
    → (t : Task) × (find_task id m.tasks ≡ some t)
unfolding sleep
sleep_there m m' cpu id r e = elim (Option-cases (find_task id m.tasks)) [
  | inl gone ↦ absurd (ground (arith, e, gone))
  | inr there ↦ there
]

wakeup_there :
    (m m' : TaskManager) (id : ℕ) (level : Option ℕ)
    → wakeup m id level ≡ some m'
    → (t : Task) × (find_task id m.tasks ≡ some t)
unfolding wakeup
wakeup_there m m' id level e = elim (Option-cases (find_task id m.tasks)) [
  | inl gone ↦ absurd (ground (arith, e, gone))
  | inr there ↦ there
]

current_there : (m : TaskManager) → IsValid m → (c : ℕ) × (current_task m ≡ some c)
unfolding current_task
current_there m v = head_of_ne_nil (m.run_queues m.current_level) v.scheduled.ready

-- A call keeps a valid manager valid.
pub Step-IsValid : {m m' : TaskManager} → IsValid m → Step m m' → IsValid m'
Step-IsValid {m} v (creates room e) = rw e at (new_task-IsValid m v room)
Step-IsValid {m} v (switches ctx r e) =
    let (before, front) = current_there m v in
    let (r', n, eq, d) = switch_task-Switched m v ctx before front in
    rw (same_result (sym eq ∙ e)) at d.valid
Step-IsValid {m} v (sleeps {m'} cpu id r busy e) =
    let (t, there) = sleep_there m m' cpu id r e in
    let (r', n, eq, d) = sleep-Slept m v cpu id t there busy in
    rw (same_result (sym eq ∙ e)) at d.valid
Step-IsValid {m} v (wakes {m'} id level ok busy e) =
    let (t, there) = wakeup_there m m' id level e in
    let (n, eq, w) = wakeup-Woken m v id t there level ok busy in
    rw (same_manager (sym eq ∙ e)) at w.valid
Step-IsValid {m} v (sends id msg code e) =
    let (n, eq, w, _) = send_message_lem m v id msg in rw (same_result (sym eq ∙ e)) at w
Step-IsValid {m} v (ends id exit_code r front busy lives e) =
    let (r', n, eq, d) = finish-Finished m v id exit_code front busy lives in
    rw (same_result (sym eq ∙ e)) at d.valid
Step-IsValid {m} v (waits {m'} cpu caller id r front busy e) =
    let open_end = wait_finish_unfinished m m' cpu caller id r e in
    let (after, n, eq, valid, best, now, kept, t, there, asleep) =
      wait_finish-waiting m caller id cpu v front busy open_end in
    rw (waiting_result (sym eq ∙ e)) at valid
Step-IsValid {m} v (collects {m'} cpu caller id code e) =
    collected-IsValid m m' cpu caller id code v e

Reach-IsValid : {m m' : TaskManager} → IsValid m → Reach m m' → IsValid m'
Reach-IsValid v here = v
Reach-IsValid v (next r st) = Step-IsValid (Reach-IsValid v r) st

-- From the constructor on, after any calls of `NewTask` (until the ids run out), `SwitchTask`, `Sleep`,
-- `Wakeup`, `SendMessage`, `Finish` and rounds of `WaitFinish` that return, the manager is valid, if the
-- idle task is neither put to sleep nor moved to another level nor ended and does not wait, new levels
-- are at most the highest, and a waiter is there when the task that it waits for ends: each task that runs stands in
-- the run queue of its level and in no other, the current level has a task, and unless the flag
-- `level_changed_` is set, no higher level has one.
pub make-Reach-IsValid :
    (stack_end cr3 task_idle : ℕ) {m : TaskManager}
    → Reach (make stack_end cr3 task_idle) m
    → IsValid m
make-Reach-IsValid stack_end cr3 task_idle = Reach-IsValid (make-IsValid stack_end cr3 task_idle)
