-- ===== src/Tasks/Waiting.antt =====
-- `WaitFinish`, for a task that has ended and for one that has not.
use hon_os.Prelude.{ℕ, ◌≡◌, ◌≢◌, ap, ◌∙◌, none, some, true, false, arith, Option-cases, inl, inr}
use hon_os.Tasks.TaskObject.{Task, TaskContext}
use hon_os.Tasks.Queues.{update, find_task, head?}
use hon_os.Tasks.{TaskManager, Resume, resumes, current_task, finished, waiting, wait_finish, sleep}
use hon_os.Tasks.Invariant.{IsValid, IsBest, idle_id}
use hon_os.Tasks.Schedule.{current_task_found}
use hon_os.Tasks.Sleeping.{sleep-Slept, is_current, asleep}

-- `WaitFinish` for a task that has not ended, called by the current task, but not the idle task:
-- the caller is kept as the waiter and sleeps, and the processor goes on with the first task of the
-- highest level that has one.
pub wait_finish-waiting :
    (m : TaskManager) (caller id : ℕ) (cpu : TaskContext)
    → IsValid m
    → current_task m ≡ some caller
    → caller ≢ idle_id
    → m.finish_tasks id ≡ none
    → (next : ℕ) × (m' : TaskManager) × (wait_finish m cpu caller id
        ≡ some (waiting (resumes next) m'))
      × IsValid m'
      × IsBest m'
      × (current_task m' ≡ some next)
      × (m'.finish_waiter id ≡ some caller)
      × (t : Task) × (find_task caller m'.tasks ≡ some t)
      × (t.running ≡ false)
unfolding wait_finish
wait_finish-waiting m caller id cpu v front busy e =
    let n = record m { finish_waiter = update m.finish_waiter id (some caller) } in
    let (t, there, awake, _) = current_task_found m caller v front in
    let (r, m', eq, d) = sleep-Slept n w cpu caller t there busy in
    let cur : is_current n caller ≡ true =
      unfold current_task in
      (let front' : head? (m.run_queues m.current_level) ≡ some caller = front in
        ground (arith, front')) in
    (
      d.next,
      m',
      ground (arith, e, eq, d.resume, cur),
      d.valid,
      d.best cur,
      d.current,
      ap (λ g. g id) d.finish_waiter ∙ ground arith,
      asleep true cpu t,
      d.found caller ∙ ground (arith, cur, there),
      ground arith,
    )
  where
    w : IsValid (record m { finish_waiter = update m.finish_waiter id (some caller) })
    w = record {
      consistent = record {
        queued = v.consistent.queued;
        leveled = v.consistent.leveled;
        distinct = v.consistent.distinct;
        fresh = v.consistent.fresh;
      };
      scheduled = record {
        idle = v.scheduled.idle;
        ready = v.scheduled.ready;
        within = v.scheduled.within;
        above = v.scheduled.above;
      };
    }

-- `WaitFinish` has found no exit code when its caller waits.
pub wait_finish_unfinished :
    (m m' : TaskManager) (cpu : TaskContext) (caller id : ℕ) (r : Resume)
    → wait_finish m cpu caller id ≡ some (waiting r m')
    → m.finish_tasks id ≡ none
unfolding wait_finish
wait_finish_unfinished m m' cpu caller id r e = elim (Option-cases (m.finish_tasks id)) [
  | inl h ↦ h
  | inr (code, h) ↦ absurd (ground (arith, e, h))
]

-- Taking an exit code keeps the manager valid.
pub collected-IsValid :
    (m m' : TaskManager) (cpu : TaskContext) (caller id code : ℕ)
    → IsValid m
    → wait_finish m cpu caller id ≡ some (finished code m')
    → IsValid m'
unfolding wait_finish
collected-IsValid m m' cpu caller id code v e = elim (Option-cases (m.finish_tasks id)) [
  | inl h ↦
      elim (Option-cases
        (sleep (record m { finish_waiter = update m.finish_waiter id (some caller) }) cpu caller)) [
          | inl gone ↦ absurd (ground (arith, e, h, gone))
          | inr ((r, n), there) ↦ absurd (ground (arith, e, h, there))
        ]
  | inr (c, h) ↦
      let same : record m { finish_tasks = update m.finish_tasks id none } ≡ m' =
        ground (arith, e, h) in
      let kept : IsValid (record m { finish_tasks = update m.finish_tasks id none }) = record {
        consistent = record {
          queued = v.consistent.queued;
          leveled = v.consistent.leveled;
          distinct = v.consistent.distinct;
          fresh = v.consistent.fresh;
        };
        scheduled = record {
          idle = v.scheduled.idle;
          ready = v.scheduled.ready;
          within = v.scheduled.within;
          above = v.scheduled.above;
        };
      } in
      rw same at kept
]
