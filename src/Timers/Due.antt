-- ===== src/Timers/Due.antt =====
-- Which timers are due, and what pushing a timer does to them.
use hon_os.Prelude.{
  ℕ, ◌≤◌, ◌<◌, ◌≡◌, refl, ap, List, [], ◌∷◌, Bool, true, false, ◌==◌, ltb, if◌then◌else◌, arith,
  inl, inr, Bool-cases,
}
use hon_os.Timers.{Timer, push, Send, timeout_message, task_timer_value, rearmed}

-- The timers that are due at `now`, and those that are not.
abbrev pub due : ℕ → List Timer → List Timer
due now [] = []
due now (t ∷ ts) = if ltb now t.timeout then due now ts else t ∷ due now ts

abbrev pub later : ℕ → List Timer → List Timer
later now [] = []
later now (t ∷ ts) = if ltb now t.timeout then t ∷ later now ts else later now ts

-- The timers stand in the order of their timeouts, all of them at least `b`.
pub data IsSorted : ℕ → List Timer → Type 0 where
  sorted_nil : {b : ℕ} → IsSorted b []
  sorted_cons :
      {b : ℕ} (t : Timer) (ts : List Timer)
      → b ≤ t.timeout
      → IsSorted t.timeout ts
      → IsSorted b (t ∷ ts)

pub due-push :
    (now : ℕ) (t : Timer) (ts : List Timer) → now < t.timeout → due now (push t ts) ≡ due now ts
unfolding push
due-push now t [] h = ground arith
due-push now t (u ∷ us) h = ground (arith, due-push now t us)

pub later-push :
    (now : ℕ) (t : Timer) (ts : List Timer)
    → now < t.timeout
    → later now (push t ts) ≡ push t (later now ts)
unfolding push
later-push now t [] h = ground arith
later-push now t (u ∷ us) h = ground (arith, later-push now t us)

pub push-IsSorted :
    (b : ℕ) (t : Timer) (ts : List Timer) → b ≤ t.timeout → IsSorted b ts → IsSorted b (push t ts)
unfolding push
push-IsSorted b t _ h sorted_nil = sorted_cons t [] h sorted_nil
push-IsSorted b t _ h (sorted_cons u us l s) = elim (Bool-cases (ltb t.timeout u.timeout)) [
  | inl before ↦ rw before (sorted_cons t (u ∷ us) h (sorted_cons u us (ground arith) s))
  | inr behind ↦
      rw behind (sorted_cons u (push t us) l (push-IsSorted u.timeout t us (ground arith) s))
]

-- If the first timer is not due, none is.
pub later_all :
    (b now : ℕ) (ts : List Timer)
    → IsSorted b ts
    → now < b
    → (due now ts ≡ []) × (later now ts ≡ ts)
later_all b now _ sorted_nil h = (refl, refl)
later_all b now _ (sorted_cons t ts l s) h =
    let rest = later_all t.timeout now ts s (omega arith) in
    let first : ltb now t.timeout ≡ true = ground arith in
    (rw (first) rest.0, rw (first) (ap (λ us. t ∷ us) rest.1))

abbrev pub is_task : Timer → Bool
is_task t = t.value == task_timer_value

-- What comes of the timers that are due: whether a task timer is one of them, the messages of the
-- others, and the task timers set again.
abbrev pub any_task : List Timer → Bool
any_task [] = false
any_task (t ∷ ts) = if is_task t then true else any_task ts

abbrev pub messages : List Timer → List Send
messages [] = []
messages (t ∷ ts) = if is_task t then messages ts else timeout_message t ∷ messages ts

abbrev pub rearm_all : ℕ → List Timer → List Timer → List Timer
rearm_all now [] left = left
rearm_all now (t ∷ ts) left =
    if is_task t then rearm_all now ts (push (rearmed now) left) else rearm_all now ts left
