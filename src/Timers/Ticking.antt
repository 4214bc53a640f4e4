-- ===== src/Timers/Ticking.antt =====
-- The loop of `Tick`, whatever timers are due.
use hon_os.Prelude.{
  ℕ, zero, suc, ◌+◌, ◌^◌, ◌<◌, ◌≡◌, refl, ap, List, [], ◌∷◌, Bool, true, false, ltb, arith, length,
  ◌∙◌, inl, inr, Bool-cases, some, add64-eq,
}
use hon_os.Timers.{Timer, push, Send, timeout_message, rearmed, expire}
use hon_os.Timers.Due.{
  due, later, IsSorted, sorted_nil, sorted_cons, due-push, later-push, push-IsSorted, later_all,
  is_task, any_task, messages, rearm_all,
}

pub rearmed_later : (now : ℕ) → now + 2 < 2 ^ 64 → (rearmed now).timeout ≡ now + 2
unfolding rearmed
rearmed_later now h = add64-eq now 2 h

expire_stop :
    (fuel now : ℕ) (t : Timer) (ts : List Timer)
    → ltb now t.timeout ≡ true
    → expire (suc fuel) now (t ∷ ts) ≡ some (false, t ∷ ts, [])
unfolding expire
expire_stop fuel now t ts e = rw e refl

expire_task :
    (fuel now : ℕ) (t : Timer) (ts left : List Timer) (some_due : Bool) (sent : List Send)
    → ltb now t.timeout ≡ false
    → is_task t ≡ true
    → expire fuel now (push (rearmed now) ts) ≡ some (some_due, left, sent)
    → expire (suc fuel) now (t ∷ ts) ≡ some (true, left, sent)
unfolding expire
expire_task fuel now t ts left some_due sent e k r = rw (e, k, r) refl

expire_send :
    (fuel now : ℕ) (t : Timer) (ts left : List Timer) (some_due : Bool) (sent : List Send)
    → ltb now t.timeout ≡ false
    → is_task t ≡ false
    → expire fuel now ts ≡ some (some_due, left, sent)
    → expire (suc fuel) now (t ∷ ts) ≡ some (some_due, left, timeout_message t ∷ sent)
unfolding expire
expire_send fuel now t ts left some_due sent e k r = rw (e, k, r) refl

length-push : (t : Timer) (ts : List Timer) → length (push t ts) ≡ suc (length ts)
unfolding push
length-push t [] = refl
length-push t (u ∷ us) = ground (arith, length-push t us)

-- The outcome of the timers of a sorted queue that are due.
abbrev pub outcome : ℕ → List Timer → List Timer → Bool × List Timer × List Send
outcome now ready left = (any_task ready, rearm_all now ready left, messages ready)

pub expire_lem :
    (fuel now b : ℕ) (ts : List Timer)
    → now + 2 < 2 ^ 64
    → IsSorted b ts
    → 0 < length (later now ts)
    → length (due now ts) < fuel
    → expire fuel now ts ≡ some (outcome now (due now ts) (later now ts))
expire_lem zero now b ts h s l f = absurd (omega arith)
expire_lem (suc fuel) now b _ h sorted_nil l f = absurd (omega arith)
expire_lem (suc fuel) now b _ h (sorted_cons t ts le s) l f =
    elim (Bool-cases (ltb now t.timeout)) [
      | inl wait ↦
          let all = later_all t.timeout now ts s (ground arith) in
          rw (wait, all.0, all.1) (expire_stop fuel now t ts wait)
      | inr now_due ↦ elim (Bool-cases (is_task t)) [
        | inl task ↦
            let set = rearmed_later now h in
            let after : now < (rearmed now).timeout = omega arith in
            let ready = due-push now (rearmed now) ts after in
            let left = later-push now (rearmed now) ts after in
            let more = length-push (rearmed now) (later now ts) in
            let longer = ap length left in
            let fewer = ap length ready in
            let rest =
              expire_lem fuel now t.timeout (push (rearmed now) ts) h
                (push-IsSorted t.timeout (rearmed now) ts (ground arith) s) (omega arith)
                (ground arith) in
            rw (now_due, task)
              (expire_task fuel now t ts
                (rearm_all now (due now ts) (push (rearmed now) (later now ts)))
                (any_task (due now ts)) (messages (due now ts)) now_due task
                (rest
                  ∙ ap (λ r. some (outcome now r (later now (push (rearmed now) ts)))) ready
                  ∙ ap (λ r. some (outcome now (due now ts) r)) left))
        | inr other ↦
            rw (now_due, other)
              (expire_send fuel now t ts _ _ _ now_due other
                (expire_lem fuel now t.timeout ts h s (ground arith) (ground arith)))
      ]
    ]
