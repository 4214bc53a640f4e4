-- ===== src/Timers/Queue.antt =====
-- The queue of timers that a `Tick` leaves: its order, its sentinel and what is due in it.
use hon_os.Prelude.{
  ℕ, ◌+◌, ◌^◌, ◌≤◌, ◌<◌, ◌≡◌, refl, List, [], ◌∷◌, ltb, arith, length, ◌∙◌, Bool-cases, inl, inr,
}
use hon_os.Timers.{Timer, push, rearmed}
use hon_os.Timers.Due.{
  due, later, IsSorted, sorted_nil, sorted_cons, due-push, push-IsSorted, is_task, rearm_all,
}
use hon_os.Timers.Ticking.{rearmed_later}

pub length-due : (now : ℕ) (ts : List Timer) → length (due now ts) ≤ length ts
length-due now [] = omega arith
length-due now (t ∷ ts) = ground (arith, length-due now ts)

due-later : (now : ℕ) (ts : List Timer) → due now (later now ts) ≡ []
due-later now [] = refl
due-later now (t ∷ ts) = ground (arith, due-later now ts)

due-rearm_all :
    (now : ℕ) (ds ts : List Timer) → now + 2 < 2 ^ 64 → due now (rearm_all now ds ts) ≡ due now ts
due-rearm_all now [] ts h = refl
due-rearm_all now (d ∷ ds) ts h = elim (Bool-cases (is_task d)) [
  | inl task ↦
      let after : now < (rearmed now).timeout = omega (arith, rearmed_later now h) in
      rw task (due-rearm_all now ds (push (rearmed now) ts) h ∙ due-push now (rearmed now) ts after)
  | inr other ↦ rw other (due-rearm_all now ds ts h)
]

-- Nothing that is left after a tick is due.
pub none_due :
    (now : ℕ) (ds ts : List Timer)
    → now + 2 < 2 ^ 64
    → due now (rearm_all now ds (later now ts)) ≡ []
none_due now ds ts h = due-rearm_all now ds (later now ts) h ∙ due-later now ts

IsSorted-weaken : (b c : ℕ) (ts : List Timer) → b ≤ c → IsSorted c ts → IsSorted b ts
IsSorted-weaken b c _ h sorted_nil = sorted_nil
IsSorted-weaken b c _ h (sorted_cons t ts l s) = sorted_cons t ts (omega arith) s

later-IsSorted : (now b : ℕ) (ts : List Timer) → IsSorted b ts → IsSorted b (later now ts)
later-IsSorted now b _ sorted_nil = sorted_nil
later-IsSorted now b _ (sorted_cons t ts l s) = elim (Bool-cases (ltb now t.timeout)) [
  | inl wait ↦ rw wait (sorted_cons t (later now ts) l (later-IsSorted now t.timeout ts s))
  | inr ready ↦
      rw ready (IsSorted-weaken b t.timeout (later now ts) l (later-IsSorted now t.timeout ts s))
]

rearm_all-IsSorted :
    (now : ℕ) (ds ts : List Timer) → IsSorted 0 ts → IsSorted 0 (rearm_all now ds ts)
rearm_all-IsSorted now [] ts s = s
rearm_all-IsSorted now (d ∷ ds) ts s = elim (Bool-cases (is_task d)) [
  | inl task ↦ rw task (
      rearm_all-IsSorted now ds (push (rearmed now) ts)
        (push-IsSorted 0 (rearmed now) ts (omega arith) s))
  | inr other ↦ rw other (rearm_all-IsSorted now ds ts s)
]

pub left-IsSorted :
    (now : ℕ) (ds ts : List Timer) → IsSorted 0 ts → IsSorted 0 (rearm_all now ds (later now ts))
left-IsSorted now ds ts s = rearm_all-IsSorted now ds (later now ts) (later-IsSorted now 0 ts s)

-- How many timers are later than `far`.
abbrev pub farther : ℕ → List Timer → ℕ
farther far ts = length (later far ts)

pub farther-push :
    (far : ℕ) (t : Timer) (ts : List Timer) → farther far ts ≤ farther far (push t ts)
unfolding push
farther-push far t [] = ground arith
farther-push far t (u ∷ us) = ground (arith, farther-push far t us)

pub farther_le : (far now : ℕ) (ts : List Timer) → now ≤ far → farther far ts ≤ farther now ts
farther_le far now [] h = omega arith
farther_le far now (t ∷ ts) h = ground (arith, farther_le far now ts)

farther-later :
    (far now : ℕ) (ts : List Timer) → now ≤ far → farther far ts ≤ farther far (later now ts)
farther-later far now [] h = omega arith
farther-later far now (t ∷ ts) h = ground (arith, farther-later far now ts)

farther-rearm_all :
    (far now : ℕ) (ds ts : List Timer) → farther far ts ≤ farther far (rearm_all now ds ts)
farther-rearm_all far now [] ts = omega arith
farther-rearm_all far now (d ∷ ds) ts = elim (Bool-cases (is_task d)) [
  | inl task ↦ rw task (
      omega (
        arith,
        farther-push far (rearmed now) ts,
        farther-rearm_all far now ds (push (rearmed now) ts),
      ))
  | inr other ↦ rw other (farther-rearm_all far now ds ts)
]

pub farther_left :
    (far now : ℕ) (ds ts : List Timer)
    → now ≤ far
    → farther far ts ≤ farther far (rearm_all now ds (later now ts))
farther_left far now ds ts h =
    omega (arith, farther-later far now ts h, farther-rearm_all far now ds (later now ts))
