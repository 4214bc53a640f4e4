-- ===== src/Queue/Refine.antt =====
-- A valid `ArrayQueue` behaves as the bounded FIFO of the values that it holds.
use hon_os.Prelude.{
  ℕ, ◌+◌, ◌-◌, ◌≤◌, ◌<◌, ◌^◌, ◌≡◌, ◌∙◌, refl, List, [], ◌∷◌, ◌++◌, some, ltb, if◌then◌else◌, arith,
  add64-eq, sub64-eq, length, length-append, get_elem?, set, get_elem?-set_self, get_elem?-set_ne,
  length-set,
}
use hon_os.Queue.Fifo
use hon_os.Queue.{ArrayQueue, Call, pushes, pops, fronts, counts, make, push, pop, front, run}

-- Index `pos + n`, going round at `capacity` at most once.
abbrev pub wrap : ℕ → ℕ → ℕ → ℕ
wrap capacity pos n = if ltb (pos + n) capacity then pos + n else pos + n - capacity

module _ {A : Type 0} where
  -- The array holds these values from `pos` on, going round at `capacity`.
  abbrev pub Holds : List A → ℕ → ℕ → List A → Type 0
  Holds buf capacity pos [] = Unit {0}
  Holds buf capacity pos (x ∷ xs) =
      (get_elem? buf pos ≡ some x) × Holds buf capacity (wrap capacity pos 1) xs

  pub record Represents (q : ArrayQueue A) (xs : List A) : Type 0 where
    pub storage : q.capacity ≤ length q.buf
    pub small : q.capacity < 2 ^ 64
    pub nonempty : q.read_pos < q.capacity
    pub counted : q.count ≡ length xs
    pub fits : length xs ≤ q.capacity
    pub written : q.write_pos ≡ wrap q.capacity q.read_pos (length xs)
    pub holds : Holds q.buf q.capacity q.read_pos xs

  -- Writing just past the values extends them by one.
  Holds-set :
      (buf : List A) (capacity pos w : ℕ) (xs : List A) (v : A)
      → capacity ≤ length buf
      → pos < capacity
      → length xs < capacity
      → w ≡ wrap capacity pos (length xs)
      → Holds buf capacity pos xs
      → Holds (set buf w v) capacity pos (xs ++ (v ∷ []))
  Holds-set buf capacity pos w [] v s p l e h =
      let at : w ≡ pos = ground arith in (rw at (get_elem?-set_self buf pos v (omega arith)), tt)
  Holds-set buf capacity pos w (x ∷ xs) v s p l e h = (
    get_elem?-set_ne buf w pos v (ground arith) ∙ h.0,
    Holds-set buf capacity (wrap capacity pos 1) w xs v s (ground arith) (omega arith)
        (ground arith) h.1,
  )

  push-Represents :
      (q : ArrayQueue A) (xs : List A) (v : A)
      → Represents q xs
      → ((push q v).0 ≡ (Fifo.push q.capacity xs v).0)
        × Represents (push q v).1 (Fifo.push q.capacity xs v).1
        × ((push q v).1.capacity ≡ q.capacity)
  unfolding push Fifo.push
  push-Represents q xs v r = ground (
    arith,
    length-set q.buf q.write_pos v,
    length-append xs (v ∷ []),
    add64-eq q.count 1,
    add64-eq q.write_pos 1,
    Holds-set q.buf q.capacity q.read_pos q.write_pos xs v r.storage r.nonempty,
  )

  pop-Represents :
      (q : ArrayQueue A) (xs : List A)
      → Represents q xs
      → ((pop q).0 ≡ (Fifo.pop xs).0)
        × Represents (pop q).1 (Fifo.pop xs).1
        × ((pop q).1.capacity ≡ q.capacity)
  unfolding pop Fifo.pop
  pop-Represents q [] r = ground arith
  pop-Represents q (x ∷ xs) r = ground (arith, sub64-eq q.count 1, add64-eq q.read_pos 1)

  -- A new queue over an array of at least `size` values is empty.
  pub make-Represents :
      (buf : List A) (size : ℕ)
      → size ≤ length buf
      → size < 2 ^ 64
      → 0 < size
      → Represents (make buf size) []
  unfolding make
  make-Represents buf size s l p = record {
    storage = s;
    small = l;
    nonempty = p;
    counted = refl;
    fits = omega arith;
    written = ground arith;
    holds = tt;
  }

  -- No sequence of guarded calls tells a valid queue from the bounded FIFO of its values.
  pub run_refines :
      (cs : List (Call A)) (q : ArrayQueue A) (xs : List A)
      → Represents q xs
      → Fifo.Guarded q.capacity xs cs
      → run q cs ≡ Fifo.run q.capacity xs cs
  unfolding run Fifo.run front Fifo.front
  run_refines [] q xs r g = refl
  run_refines (pushes v ∷ cs) q xs r g =
      let p = push-Represents q xs v r in
      let rest = run_refines cs (push q v).1 _ p.1 (rw p.2 g) in ground (arith, p, rest)
  run_refines (pops ∷ cs) q xs r g =
      let p = pop-Represents q xs r in
      let rest = run_refines cs (pop q).1 _ p.1 (rw p.2 g) in ground (arith, p, rest)
  run_refines (fronts ∷ cs) q [] r g = absurd g
  run_refines (fronts ∷ cs) q (x ∷ xs) r g = ground (arith, run_refines cs q (x ∷ xs) r g)
  run_refines (counts ∷ cs) q [] r g = ground (arith, run_refines cs q [] r g)
  run_refines (counts ∷ cs) q (x ∷ xs) r g = ground (arith, run_refines cs q (x ∷ xs) r g)
