-- ===== src/Queue/Fifo.antt =====
-- What `ArrayQueue` promises: a FIFO that holds at most `capacity` values, oldest first.
use hon_os.Prelude.{ℕ, List, [], ◌∷◌, ◌++◌, Option, none, some, ◌==◌, if◌then◌else◌, length}
use hon_os.Errors.{Code, success, full, empty}
use hon_os.Queue.{Call, pushes, pops, fronts, counts, Reply, status, oldest, number}

module _ {A : Type 0} where
  unfoldable pub push : ℕ → List A → A → Code × List A
  push capacity xs v = if length xs == capacity then (full, xs) else (success, xs ++ (v ∷ []))

  unfoldable pub pop : List A → Code × List A
  pop [] = (empty, [])
  pop (x ∷ xs) = (success, xs)

  unfoldable pub front : List A → Option A
  front [] = none
  front (x ∷ xs) = some x

  -- The array of an empty queue still holds old values, so a client looks at the front of a
  -- queue with a value only.
  abbrev pub Guarded : ℕ → List A → List (Call A) → Type 0
  Guarded capacity xs [] = Unit {0}
  Guarded capacity xs (pushes v ∷ cs) = Guarded capacity (push capacity xs v).1 cs
  Guarded capacity xs (pops ∷ cs) = Guarded capacity (pop xs).1 cs
  Guarded capacity [] (fronts ∷ cs) = ⊥
  Guarded capacity (x ∷ xs) (fronts ∷ cs) = Guarded capacity (x ∷ xs) cs
  Guarded capacity xs (counts ∷ cs) = Guarded capacity xs cs

  unfoldable pub run : ℕ → List A → List (Call A) → List (Reply A)
  run capacity xs [] = []
  run capacity xs (pushes v ∷ cs) =
      let (e, ys) = push capacity xs v in status e ∷ run capacity ys cs
  run capacity xs (pops ∷ cs) = let (e, ys) = pop xs in status e ∷ run capacity ys cs
  run capacity xs (fronts ∷ cs) = oldest (front xs) ∷ run capacity xs cs
  run capacity xs (counts ∷ cs) = number (length xs) ∷ run capacity xs cs
