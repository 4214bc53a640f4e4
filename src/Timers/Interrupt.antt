-- ===== src/Timers/Interrupt.antt =====
-- `Tick` and the handler of the timer interrupt, on valid timers and a valid scheduler.
use hon_os.Tasks.Queues.{find_task}
use hon_os.Prelude.{
  ℕ, suc, ◌+◌, ◌-◌, ◌^◌, ◌<◌, ◌≡◌, refl, List, [], ◌∷◌, true, false, arith, length, some, add64-eq,
  if◌then◌else◌, ◌==◌, ◌++◌,
}
use hon_os.Tasks.TaskObject.{TaskContext, Task, Message}
use hon_os.Tasks.{TaskManager, Resume, stays, current_task}
use hon_os.Tasks.Invariant
use hon_os.Tasks.Schedule.{Switched}
use hon_os.Timers.{Timer, TimerManager, make, push, add_timer, Send, tick_timers}
use hon_os.Timers.Due.{
  due, later, IsSorted, sorted_nil, sorted_cons, any_task, messages, rearm_all, push-IsSorted,
}
use hon_os.Timers.Ticking.{expire_lem}
use hon_os.Timers.Queue.{
  farther, farther-push, farther_le, farther_left, left-IsSorted, length-due, none_due,
}

-- The timers are sorted, and the sentinel is one of them.
pub record IsValid (m : TimerManager) : Type 0 where
  pub sorted : IsSorted 0 m.timers
  pub sentinel : 0 < farther (2 ^ 64 - 2) m.timers

pub make-IsValid : IsValid make
unfolding make push
make-IsValid = record { sorted = sorted_cons _ [] (omega arith) sorted_nil; sentinel = omega arith }

pub add_timer-IsValid : (m : TimerManager) (t : Timer) → IsValid m → IsValid (add_timer m t)
unfolding add_timer
add_timer-IsValid m t k = record {
  sorted = push-IsSorted 0 t m.timers (omega arith) k.sorted;
  sentinel = omega (arith, k.sentinel, farther-push (2 ^ 64 - 2) t m.timers);
}

-- The timers that are due at the next tick.
abbrev pub ready : TimerManager → List Timer
ready m = due (m.tick + 1) m.timers

-- What a tick has done: the due timers are gone, the task timers among them set again for two ticks
-- later, nothing that is left is due, and the timers are valid.
pub record Ticked (m m' : TimerManager) : Type 0 where
  pub tick : m'.tick ≡ m.tick + 1
  pub timers : m'.timers ≡ rearm_all (m.tick + 1) (ready m) (later (m.tick + 1) m.timers)
  pub none_left : due m'.tick m'.timers ≡ []
  pub valid : IsValid m'

-- `Tick` of valid timers, less than 2 ^ 64 - 3 ticks after the start, returns; it sends one message
-- for each timer that is due and is no task timer, in the order of their timeouts, and answers
-- whether a task timer was due.
pub tick_timers-Ticked :
    (m : TimerManager)
    → IsValid m
    → m.tick + 3 < 2 ^ 64
    → (m' : TimerManager) × (tick_timers m ≡ some (any_task (ready m), m', messages (ready m)))
      × Ticked m m'
unfolding tick_timers
tick_timers-Ticked m k h =
    let now : ℕ = m.tick + 1 in
    let left = rearm_all now (ready m) (later now m.timers) in
    let next = add64-eq m.tick 1 (omega arith) in
    let guarded = farther_le (2 ^ 64 - 2) now m.timers (omega arith) in
    let loop =
      expire_lem (suc (length m.timers)) now 0 m.timers (omega arith) k.sorted
        (omega (arith, k.sentinel)) (omega (arith, length-due now m.timers)) in
    (
      record { tick = now; timers = left },
      rw (next, loop) refl,
      record {
        tick = refl;
        timers = refl;
        none_left = none_due now (ready m) m.timers (omega arith);
        valid = record {
          sorted = left-IsSorted now (ready m) m.timers k.sorted;
          sentinel =
              omega
                (arith, k.sentinel, farther_left (2 ^ 64 - 2) now (ready m) m.timers (omega arith));
        };
      },
    )

-- The messages for a task, in their order.
abbrev pub inbox : ℕ → List Send → List Message
inbox j [] = []
inbox j ((id, msg) ∷ sends) = if id == j then msg ∷ inbox j sends else inbox j sends

-- Each task that is there has the messages for it behind those that it had.
abbrev pub Delivered : TaskManager → List Send → TaskManager → Type 0
Delivered m sends m' =
    (j : ℕ) (t : Task)
    → find_task j m.tasks ≡ some t
    → (t' : Task) × (find_task j m'.tasks ≡ some t') × (t'.msgs ≡ t.msgs ++ inbox j sends)

-- What the handler leaves behind: the messages of the timers are delivered, and then a switch is made
-- if a task timer was due.
pub record Handled (t : TimerManager) (m : TaskManager) (ctx : TaskContext) (r : Resume)
    (t' : TimerManager) (m' : TaskManager) : Type 0 where
  pub ticked : Ticked t t'
  pub valid : Invariant.IsValid m'
  pub delivered : TaskManager
  pub inboxes : Delivered m (messages (ready t)) delivered
  pub quiet : any_task (ready t) ≡ false → (r ≡ stays) × (m' ≡ delivered)
  pub switched :
      any_task (ready t) ≡ true
      → (before : ℕ) × (current_task delivered ≡ some before) × Switched delivered ctx before r m'
