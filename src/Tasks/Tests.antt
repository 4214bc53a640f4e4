-- ===== src/Tasks/Tests.antt =====
-- The theorems of the task manager at concrete managers.
use hon_os.Prelude.{ℕ, ◌≡◌, refl, none, some, true, false, ◌==◌, if◌then◌else◌, arith, add64}
use hon_os.Tasks.TaskObject.{
  Task, Message, interrupt_xhci, zero_context, init_context, receive_message,
}
use hon_os.Tasks.TaskObject
use hon_os.Tasks.Queues.{find_task, modify, map_task, highest}
use hon_os.Tasks.{
  TaskManager, Resume, resumes, make, new_task, current_task, rotate, settle, switch_task, sleep,
  put_to_sleep, waiting, wakeup, start_running, send_message, finish, wait_finish,
}
use hon_os.Tasks.Invariant.{IsValid, IsBest}
use hon_os.Tasks.Waking.{Woken, wakeup-Woken}
use hon_os.Tasks.Sending.{answer, receive, send_message_lem}
use hon_os.Tasks.Schedule.{Switched, switch_task-Switched}
use hon_os.Tasks.Sleeping.{Slept, sleep-Slept}
use hon_os.Tasks.Blocking.{Finished, finish-Finished}
use hon_os.Tasks.Waiting.{wait_finish-waiting}
use hon_os.Tasks.Reaching.{here, next, creates, make-IsValid, new_task-IsValid, make-Reach-IsValid}

-- The kernel's start: the main task 1 is current, the idle task 2 is ready.
abbrev boot : TaskManager
boot = make 0x8000 0x1000 0x2000

-- With task 3, which sleeps.
abbrev three : TaskManager
three = (new_task boot).1

abbrev note : Message
note = record { payload = interrupt_xhci; src_task = 0 }

boot-IsValid : IsValid boot
boot-IsValid = make-IsValid 0x8000 0x1000 0x2000

boot-current : current_task boot ≡ some 1
unfolding current_task make new_task add64
boot-current = refl

main : Task
unfolding TaskObject.make
main = record (TaskObject.make 1) { level = 3; running = true }

boot-main : find_task 1 boot.tasks ≡ some main
unfolding make new_task find_task modify add64 main
boot-main = refl

three-IsValid : IsValid three
unfolding make new_task add64
three-IsValid = new_task-IsValid boot boot-IsValid (omega arith)

three-sleeper : find_task 3 three.tasks ≡ some (TaskObject.make 3)
unfolding make new_task find_task modify add64 init_context TaskObject.make
three-sleeper = refl

-- Task 3 wakes at level 2, below the main task; the main task sleeps, and task 3 goes on.
wake_and_sleep :
    (elim (wakeup three 3 (some 2)) [
      | none ↦ none
      | some m ↦ elim (sleep m zero_context 1) [ none ↦ none | some (r, m') ↦ some r ]
    ])
    ≡ some (resumes 3)
unfolding make new_task find_task modify add64 init_context TaskObject.make wakeup start_running
    sleep put_to_sleep rotate settle highest current_task
wake_and_sleep = refl

switch_task-Switched_example :
    (r : Resume) × (m' : TaskManager) × (switch_task boot zero_context ≡ some (r, m'))
    × Switched boot zero_context 1 r m'
switch_task-Switched_example = switch_task-Switched boot boot-IsValid zero_context 1 boot-current

wakeup-Woken_example :
    (m' : TaskManager) × (wakeup three 3 (some 2) ≡ some m') × Woken three 3 (some 2) m'
wakeup-Woken_example =
    wakeup-Woken three three-IsValid 3 (TaskObject.make 3) three-sleeper (some 2) (omega arith)
      (λ h. omega arith)

send_message_lem_example :
    (m' : TaskManager) × (send_message three 3 note ≡ some (answer (find_task 3 three.tasks), m'))
    × IsValid m'
    × ((j : ℕ)
        → find_task j m'.tasks ≡ (
            if 3 == j
            then map_task (receive note) (find_task j three.tasks)
            else find_task j three.tasks))
send_message_lem_example = send_message_lem three three-IsValid 3 note

sleep-Slept_example :
    (r : Resume) × (m' : TaskManager) × (sleep boot zero_context 1 ≡ some (r, m'))
    × Slept boot zero_context 1 r m'
sleep-Slept_example = sleep-Slept boot boot-IsValid zero_context 1 main boot-main (omega arith)

finish-Finished_example :
    (r : Resume) × (m' : TaskManager) × (finish boot 7 ≡ some (r, m')) × Finished boot 1 7 r m'
unfolding make new_task
finish-Finished_example =
    finish-Finished boot boot-IsValid 1 7 boot-current (omega arith)
      (λ waiter h. absurd (ground arith))

wait_finish-waiting_example :
    (n : ℕ) × (m' : TaskManager) × (wait_finish boot zero_context 1 3
      ≡ some (waiting (resumes n) m'))
    × IsValid m'
    × IsBest m'
    × (current_task m' ≡ some n)
    × (m'.finish_waiter 3 ≡ some 1)
    × (t : Task) × (find_task 1 m'.tasks ≡ some t)
    × (t.running ≡ false)
unfolding make new_task
wait_finish-waiting_example =
    wait_finish-waiting boot 1 3 zero_context boot-IsValid boot-current (omega arith) refl

make-Reach-IsValid_example : IsValid three
unfolding make new_task add64
make-Reach-IsValid_example =
    make-Reach-IsValid 0x8000 0x1000 0x2000 (next here (creates (omega arith) refl))
