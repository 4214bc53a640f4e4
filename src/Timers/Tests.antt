-- ===== src/Timers/Tests.antt =====
-- Ticks of a manager with three timers, and instances of the properties.
use hon_os.Prelude.{◌^◌, ◌-◌, ◌≡◌, refl, [], ◌∷◌, some, true, arith, add64}
use hon_os.Tasks.TaskObject.{timer_timeout}
use hon_os.Tasks.{TaskManager}
use hon_os.Tasks
use hon_os.Tasks.Reaching
use hon_os.Timers.{
  Timer, TimerManager, make, push, add_timer, timeout_message, rearmed, expire, tick_timers,
  task_timer_value,
}
use hon_os.Timers.Due.{any_task, messages}
use hon_os.Timers.Interrupt.{
  IsValid, make-IsValid, add_timer-IsValid, ready, Ticked, tick_timers-Ticked,
}

abbrev alarm : Timer
alarm = record { timeout = 1; value = 7; task_id = 1 }

abbrev task_timer : Timer
task_timer = record { timeout = 1; value = task_timer_value; task_id = 1 }

abbrev armed : TimerManager
armed = add_timer (add_timer make alarm) task_timer

armed-IsValid : IsValid armed
armed-IsValid =
    add_timer-IsValid (add_timer make alarm) task_timer (add_timer-IsValid make alarm make-IsValid)

-- The alarm is sent to task 1, and the task timer is set again to tick 3.
first_tick :
    tick_timers armed
    ≡ some (
      true,
      record {
        tick = 1;
        timers =
            record { timeout = 3; value = task_timer_value; task_id = 1 }
            ∷ record { timeout = 2 ^ 64 - 1; value = 0; task_id = 0 }
            ∷ [];
      },
      (1, record { payload = timer_timeout 1 7; src_task = 0 }) ∷ [],
    )
unfolding tick_timers expire add_timer make push rearmed timeout_message add64
first_tick = refl

tick_timers-Ticked_example :
    (m' : TimerManager) × (tick_timers armed
      ≡ some (any_task (ready armed), m', messages (ready armed)))
    × Ticked armed m'
unfolding add_timer make
tick_timers-Ticked_example = tick_timers-Ticked armed armed-IsValid (omega arith)

abbrev boot : TaskManager
boot = Tasks.make 0x8000 0x1000 0x2000
