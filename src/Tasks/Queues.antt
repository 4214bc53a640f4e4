-- ===== src/Tasks/Queues.antt =====
-- The containers of the task manager: its tasks, a run queue, an array or a map; and their laws.
use hon_os.Prelude.{
  ℕ, zero, suc, ◌+◌, ◌≤◌, ◌<◌, ◌≡◌, ◌≢◌, refl, List, [], ◌∷◌, ◌++◌, map, Option, none, some, Bool,
  true, false, ◌&&◌, ◌==◌, if◌then◌else◌, arith, count, Bool-cases, ℕ_discrete, inl, inr,
}
use hon_os.Tasks.TaskObject.{Task}

-- An entry of an array or a map is given anew.
abbrev pub update {ℓ} : {A : Type ℓ} → (ℕ → A) → ℕ → A → ℕ → A
update f i v j = if i == j then v else f j

unfoldable pub find_task : ℕ → List Task → Option Task
find_task id [] = none
find_task id (t ∷ ts) = if t.id == id then some t else find_task id ts

unfoldable pub modify : ℕ → (Task → Task) → List Task → List Task
modify id f [] = []
modify id f (t ∷ ts) = if t.id == id then f t ∷ ts else t ∷ modify id f ts

-- `tasks_.erase(it)`.
unfoldable pub erase_task : ℕ → List Task → List Task
erase_task id [] = []
erase_task id (t ∷ ts) = if t.id == id then ts else t ∷ erase_task id ts

-- The template `Erase` on a run queue.
unfoldable pub erase : List ℕ → ℕ → List ℕ
erase [] id = []
erase (x ∷ xs) id = if x == id then erase xs id else x ∷ erase xs id

abbrev pub head? : List ℕ → Option ℕ
head? [] = none
head? (x ∷ xs) = some x

abbrev pub pop_front : List ℕ → List ℕ
pop_front [] = []
pop_front (x ∷ xs) = xs

abbrev pub is_empty : List ℕ → Bool
is_empty [] = true
is_empty (x ∷ xs) = false

-- The loop over the levels from `lv` down; `current` stays if all are empty.
unfoldable pub highest : (ℕ → List ℕ) → ℕ → ℕ → ℕ
highest queues current zero = if is_empty (queues 0) then current else 0
highest queues current (suc lv) =
    if is_empty (queues (suc lv)) then highest queues current lv else suc lv

-- How often task `id` belongs in run queue `lv`: once, if it runs at that level.
abbrev pub slot : Option Task → ℕ → ℕ
slot none lv = 0
slot (some t) lv = if t.running && t.level == lv then 1 else 0

abbrev pub map_task : (Task → Task) → Option Task → Option Task
map_task f none = none
map_task f (some t) = some (f t)

pub find_task-modify :
    (i j : ℕ) (f : Task → Task) (ts : List Task)
    → ((t : Task) → (f t).id ≡ t.id)
    → find_task j (modify i f ts) ≡ (if i == j then map_task f (find_task j ts) else find_task j ts)
unfolding find_task modify
find_task-modify i j f [] h = ground arith
find_task-modify i j f (t ∷ ts) h = ground (arith, h t, find_task-modify i j f ts h)

pub modify-modify :
    (i : ℕ) (f g : Task → Task) (ts : List Task)
    → ((t : Task) → (f t).id ≡ t.id)
    → modify i g (modify i f ts) ≡ modify i (λ t. g (f t)) ts
unfolding modify
modify-modify i f g [] h = refl
modify-modify i f g (t ∷ ts) h = ground (arith, h t, modify-modify i f g ts h)

pub find_task-id : (id : ℕ) (ts : List Task) (t : Task) → find_task id ts ≡ some t → t.id ≡ id
unfolding find_task
find_task-id id [] u e = ground arith
find_task-id id (t ∷ ts) u e = ground (arith, find_task-id id ts u)

pub count-erase : (j i : ℕ) (q : List ℕ) → count j (erase q i) ≡ (if i == j then 0 else count j q)
unfolding erase
count-erase j i [] = ground arith
count-erase j i (x ∷ xs) = ground (arith, count-erase j i xs)

pub count_of_head : (q : List ℕ) (c : ℕ) → head? q ≡ some c → 0 < count c q
count_of_head [] c e = cc
count_of_head (x ∷ q) c e = ground arith

pub count-pop_front :
    (q : List ℕ) (c j : ℕ)
    → head? q ≡ some c
    → count j (pop_front q) + (if c == j then 1 else 0) ≡ count j q
count-pop_front [] c j e = cc
count-pop_front (x ∷ q) c j e = ground arith

pub head_of_ne_nil : (q : List ℕ) → q ≢ [] → (c : ℕ) × (head? q ≡ some c)
head_of_ne_nil [] h = absurd (h refl)
head_of_ne_nil (x ∷ q) h = (x, refl)

pub head?-erase : (q : List ℕ) (i c : ℕ) → head? q ≡ some c → i ≢ c → head? (erase q i) ≡ some c
unfolding erase
head?-erase [] i c e h = cc
head?-erase (x ∷ q) i c e h = ground arith

pub erase-nil : (q : List ℕ) (i : ℕ) → q ≡ [] → erase q i ≡ []
unfolding erase
erase-nil [] i h = refl
erase-nil (x ∷ q) i h = cc

-- The ids in use.
abbrev pub ids : List Task → List ℕ
ids = map (λ t. t.id)

pub ids-modify :
    (i : ℕ) (f : Task → Task) (ts : List Task)
    → ((t : Task) → (f t).id ≡ t.id)
    → ids (modify i f ts) ≡ ids ts
unfolding modify
ids-modify i f [] h = refl
ids-modify i f (t ∷ ts) h = ground (arith, h t, ids-modify i f ts h)

pub find_task_absent : (id : ℕ) (ts : List Task) → count id (ids ts) ≡ 0 → find_task id ts ≡ none
unfolding find_task
find_task_absent id [] h = refl
find_task_absent id (t ∷ ts) h = ground (arith, find_task_absent id ts)

-- With distinct ids, erasing a task leaves the others.
pub find_task-erase_task :
    (i j : ℕ) (ts : List Task)
    → count i (ids ts) ≤ 1
    → find_task j (erase_task i ts) ≡ (if i == j then none else find_task j ts)
unfolding find_task erase_task
find_task-erase_task i j [] h = ground arith
find_task-erase_task i j (t ∷ ts) h =
    ground (arith, find_task-erase_task i j ts, find_task_absent i ts)

pub count-ids-erase_task :
    (i j : ℕ) (ts : List Task) → count j (ids (erase_task i ts)) ≤ count j (ids ts)
unfolding erase_task
count-ids-erase_task i j [] = omega arith
count-ids-erase_task i j (t ∷ ts) = ground (arith, count-ids-erase_task i j ts)

pub find_task-append :
    (j : ℕ) (ts us : List Task)
    → find_task j (ts ++ us) ≡ elim (find_task j ts) [ none ↦ find_task j us | some t ↦ some t ]
unfolding find_task
find_task-append j [] us = refl
find_task-append j (t ∷ ts) us = ground (arith, find_task-append j ts us)

pub is_empty→nil : (q : List ℕ) → is_empty q ≡ true → q ≡ []
is_empty→nil [] h = refl
is_empty→nil (x ∷ q) h = cc

pub is_empty→ne_nil : (q : List ℕ) → is_empty q ≡ false → q ≢ []
is_empty→ne_nil [] h e = cc
is_empty→ne_nil (x ∷ q) h e = cc

pub ne_nil→is_empty : (q : List ℕ) → q ≢ [] → is_empty q ≡ false
ne_nil→is_empty [] h = absurd (h refl)
ne_nil→is_empty (x ∷ q) h = refl

pub is_empty-append : (q : List ℕ) (x : ℕ) → is_empty (q ++ (x ∷ [])) ≡ false
is_empty-append [] x = refl
is_empty-append (y ∷ q) x = refl

-- Level `r` is the greatest level up to `top` with a task.
pub record IsHighest (queues : ℕ → List ℕ) (top r : ℕ) : Type 0 where
  pub ready : queues r ≢ []
  pub within : r ≤ top
  pub above : (k : ℕ) → r < k → k ≤ top → queues k ≡ []

pub highest-IsHighest :
    (queues : ℕ → List ℕ) (current lv : ℕ)
    → queues 0 ≢ []
    → IsHighest queues lv (highest queues current lv)
unfolding highest
highest-IsHighest queues current zero h = elim (Bool-cases (is_empty (queues 0))) [
  | inl e ↦ absurd (h (is_empty→nil (queues 0) e))
  | inr e ↦ rw e (record { ready = h; within = omega arith; above = λ k a b. absurd (omega arith) })
]
highest-IsHighest queues current (suc lv) h = elim (Bool-cases (is_empty (queues (suc lv)))) [
  | inl e ↦
      let ih = highest-IsHighest queues current lv h in
      rw e (record {
        ready = ih.ready;
        within = omega (arith, ih.within);
        above = λ k a b. elim (ℕ_discrete k (suc lv)) [
          | yes top ↦ rw top (is_empty→nil (queues (suc lv)) e)
          | no lower ↦ ih.above k a (omega arith)
        ];
      })
  | inr e ↦ rw e (record {
    ready = is_empty→ne_nil (queues (suc lv)) e;
    within = omega arith;
    above = λ k a b. absurd (omega arith);
  })
]
