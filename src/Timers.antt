-- ===== src/Timers.antt =====
-- kernel/timer.hpp and kernel/timer.cpp: the timers, and the handler of the timer interrupt.
-- The priority queue is the list of its timers by their timeout; of timers with the same timeout the
-- one that was pushed first comes first, an order that std::priority_queue leaves open. A value is
-- the 32-bit word that stands for the `int`.
pub mod Due
pub mod Ticking
pub mod Queue
pub mod Interrupt
mod Tests
use hon_os.Prelude.{
  ℕ, zero, suc, ◌+◌, ◌-◌, ◌^◌, List, [], ◌∷◌, Option, none, some, Bool, true, false, ◌==◌, ltb,
  if◌then◌else◌, length, add64, ◌>>=◌,
}
use hon_os.Tasks.TaskObject.{Message, timer_timeout, TaskContext}
use hon_os.Tasks.{TaskManager, Resume, stays, send_message, switch_task}

pub record Timer : Type 0 where
  pub timeout : ℕ
  pub value : ℕ
  pub task_id : ℕ

pub record TimerManager : Type 0 where
  pub tick : ℕ
  pub timers : List Timer

abbrev pub task_timer_period : ℕ
task_timer_period = 2

-- `kTaskTimerValue`, the greatest `int`.
abbrev pub task_timer_value : ℕ
task_timer_value = 2 ^ 31 - 1

-- `timers_.push`.
pub push : Timer → List Timer → List Timer
push t [] = t ∷ []
push t (u ∷ us) = if ltb t.timeout u.timeout then t ∷ u ∷ us else u ∷ push t us

-- The constructor, with its sentinel.
pub make : TimerManager
make = record {
  tick = 0;
  timers = push (record { timeout = 2 ^ 64 - 1; value = 0; task_id = 0 }) [];
}

pub add_timer : TimerManager → Timer → TimerManager
add_timer m t = record m { timers = push t m.timers }

-- A call of `SendMessage`: the task and the message.
abbrev pub Send : Type 0
Send = ℕ × Message

pub timeout_message : Timer → Send
timeout_message t = (t.task_id, record { payload = timer_timeout t.timeout t.value; src_task = 0 })

-- The task timer, set again at `tick`.
pub rearmed : ℕ → Timer
rearmed tick = record {
  timeout = add64 tick task_timer_period;
  value = task_timer_value;
  task_id = 1;
}

-- The loop of `Tick`, with fuel: whether a task timer was due, the timers left, and the messages.
pub expire : ℕ → ℕ → List Timer → Option (Bool × List Timer × List Send)
expire zero tick timers = none
expire (suc fuel) tick [] = none
expire (suc fuel) tick (t ∷ ts) =
    let again : Option (Bool × List Timer × List Send) =
      expire fuel tick (push (rearmed tick) ts) >>= λ (due, left, sent). some (true, left, sent) in
    let sending : Option (Bool × List Timer × List Send) =
      expire fuel tick ts >>= λ (due, left, sent). some (due, left, timeout_message t ∷ sent) in
    if ltb tick t.timeout
    then some (false, t ∷ ts, [])
    else if t.value == task_timer_value
    then again
    else sending

-- `Tick`. Each round takes a due timer away, and sets none that is due.
pub tick_timers : TimerManager → Option (Bool × TimerManager × List Send)
tick_timers m =
    let now = add64 m.tick 1 in
    expire (suc (length m.timers)) now m.timers >>= λ (due, left, sent).
    some (due, record { tick = now; timers = left }, sent)

-- The calls of `SendMessage`, whose answers `Tick` does not read.
pub deliver : List Send → TaskManager → Option TaskManager
deliver [] m = some m
deliver ((id, msg) ∷ sends) m = send_message m id msg >>= λ (code, m'). deliver sends m'

-- `LAPICTimerOnInterrupt`.
pub on_interrupt :
    TimerManager → TaskManager → TaskContext → Option (Resume × TimerManager × TaskManager)
on_interrupt timers tasks ctx = do
  (due, timers', sent) ← tick_timers timers
  tasks' ← deliver sent tasks
  let switched = switch_task tasks' ctx >>= λ (resume, tasks''). some (resume, timers', tasks'')
  if due then switched else some (stays, timers', tasks')
