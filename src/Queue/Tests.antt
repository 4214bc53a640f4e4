-- ===== src/Queue/Tests.antt =====
-- Runs of the queue, and its theorems at concrete queues.
use hon_os.Prelude.{ℕ, ◌≡◌, refl, List, [], ◌∷◌, some, arith, add64, sub64}
use hon_os.Errors.{success, full, empty}
use hon_os.Queue.Fifo
use hon_os.Queue.Refine.{Represents, run_refines}
use hon_os.Queue.{
  ArrayQueue, Call, pushes, pops, fronts, counts, status, oldest, number, push, pop, front, run,
}

-- 8, then 9, going round the end of the array.
abbrev wrapped : ArrayQueue ℕ
wrapped = record { buf = 9 ∷ 7 ∷ 8 ∷ []; read_pos = 2; write_pos = 1; count = 2; capacity = 3 }

abbrev script : List (Call ℕ)
script = fronts ∷ pushes 1 ∷ pushes 2 ∷ pops ∷ fronts ∷ counts ∷ pops ∷ fronts ∷ pops ∷ pops ∷ []

run-wrapped :
    run wrapped script
    ≡ oldest (some 8)
      ∷ status success
      ∷ status full
      ∷ status success
      ∷ oldest (some 9)
      ∷ number 2
      ∷ status success
      ∷ oldest (some 1)
      ∷ status success
      ∷ status empty
      ∷ []
unfolding run push pop front add64 sub64
run-wrapped = refl

wrapped-Represents : Represents wrapped (8 ∷ 9 ∷ [])
wrapped-Represents = record {
  storage = omega arith;
  small = omega arith;
  nonempty = omega arith;
  counted = refl;
  fits = omega arith;
  written = refl;
  holds = (refl, (refl, tt));
}

run_refines_example : run wrapped script ≡ Fifo.run 3 (8 ∷ 9 ∷ []) script
unfolding Fifo.push Fifo.pop
run_refines_example = run_refines script wrapped (8 ∷ 9 ∷ []) wrapped-Represents tt
