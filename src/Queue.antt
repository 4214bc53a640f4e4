-- ===== src/Queue.antt =====
-- kernel/queue.hpp: `ArrayQueue<T>`, a FIFO over an array that the caller owns.
-- An operation that changes the queue returns its error code beside the new queue.
pub mod Fifo
pub mod Refine
mod Tests
use hon_os.Prelude.{
  ℕ, List, [], ◌∷◌, Option, ◌==◌, if◌then◌else◌, add64, sub64, get_elem?, set, length,
}
use hon_os.Errors.{Code, success, full, empty}

pub record ArrayQueue (A : Type 0) : Type 0 where
  pub buf : List A
  pub read_pos : ℕ
  pub write_pos : ℕ
  pub count : ℕ
  pub capacity : ℕ

-- `++pos; if (pos == capacity_) pos = 0;`
abbrev pub advance : ℕ → ℕ → ℕ
advance capacity pos = let next = add64 pos 1 in if next == capacity then 0 else next

module _ {A : Type 0} where
  -- `ArrayQueue(T* buf, size_t size)`.
  pub make : List A → ℕ → ArrayQueue A
  make buf size = record { buf = buf; read_pos = 0; write_pos = 0; count = 0; capacity = size }

  -- `ArrayQueue(std::array<T, N>& buf)`.
  pub of_array : List A → ArrayQueue A
  unfolding make
  of_array buf = make buf (length buf)

  -- A `set` out of range changes nothing; `Refine` rules it out.
  pub push : ArrayQueue A → A → Code × ArrayQueue A
  push q value = if q.count == q.capacity then (full, q) else (
    success,
    record q {
      buf = set q.buf q.write_pos value;
      count = add64 q.count 1;
      write_pos = advance q.capacity q.write_pos;
    },
  )

  pub pop : ArrayQueue A → Code × ArrayQueue A
  pop q =
      if q.count == 0
      then (empty, q)
      else (success, record q { count = sub64 q.count 1; read_pos = advance q.capacity q.read_pos })

  -- A read out of range is `none`.
  pub front : ArrayQueue A → Option A
  front q = get_elem? q.buf q.read_pos

-- A client's calls in order, with what each returns.
pub data Call (A : Type 0) : Type 0 where
  pushes : A → Call A
  pops fronts counts : Call A

pub data Reply (A : Type 0) : Type 0 where
  status : Code → Reply A
  oldest : Option A → Reply A
  number : ℕ → Reply A

pub run : {A : Type 0} → ArrayQueue A → List (Call A) → List (Reply A)
run q [] = []
run q (pushes v ∷ cs) = let (e, q') = push q v in status e ∷ run q' cs
run q (pops ∷ cs) = let (e, q') = pop q in status e ∷ run q' cs
run q (fronts ∷ cs) = oldest (front q) ∷ run q cs
run q (counts ∷ cs) = number q.count ∷ run q cs
