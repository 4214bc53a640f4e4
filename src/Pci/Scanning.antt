-- ===== src/Pci/Scanning.antt =====
-- Loops and sequences of scans: what they find is what each of their parts finds.
use hon_os.Prelude.{
  ℕ, zero, suc, ◌+◌, ◌≤◌, ◌<◌, ◌≡◌, ◌≢◌, refl, ap, sym, ◌∙◌, ◌⊎◌, inl, inr, List, [], ◌++◌, some,
  Bool, true, false, arith, length, length-append, Bool-cases, ◌>>=◌, ℕ_discrete,
}
use hon_os.Prelude.Slices.{append_assoc, append-nil}
use hon_os.Errors.{Code, success, full, is_error}
use hon_os.Pci.{Device, Scans, unless_error, visit_from, max_devices}
use mathlib.Core.List.{Memᴰ}
use mathlib.Core.List.Memᴰ

-- A scan that started with the devices `ds` has added devices that are `R`, and if it succeeded all
-- of them are there. It fails only with a full array.
pub record Scanned (R : Device → Type 0) (ds : List Device) (code : Code) (ds' : List Device)
    : Type 0 where
  pub new : List Device
  pub grows : ds' ≡ ds ++ new
  pub sound : (x : Device) → Memᴰ x new → R x
  pub complete : code ≡ success → (x : Device) → R x → Memᴰ x ds'
  pub outcome : (code ≡ success) ⊎ ((code ≡ full) × (length ds' ≡ max_devices))
  pub bound : length ds' ≤ max_devices

abbrev pub Returns : (Device → Type 0) → List Device → Scans → Type 0
Returns R ds scan =
    (code : Code) × (ds' : List Device) × (scan ≡ some (code, ds')) × Scanned R ds code ds'

pub Scanned-longer :
    (R : Device → Type 0) (ds ds' : List Device) (code : Code)
    → Scanned R ds code ds'
    → length ds ≤ length ds'
Scanned-longer R ds ds' code s = let q = ap length s.grows ∙ length-append ds s.new in omega arith

pub Returns-map :
    (R S : Device → Type 0) (ds : List Device) (scan : Scans)
    → ((x : Device) → R x → S x)
    → ((x : Device) → S x → R x)
    → Returns R ds scan
    → Returns S ds scan
Returns-map R S ds scan to from (code, ds', e, s) = (
  code,
  ds',
  e,
  record {
    new = s.new;
    grows = s.grows;
    sound = λ x m. to x (s.sound x m);
    complete = λ ok x h. s.complete ok x (from x h);
    outcome = s.outcome;
    bound = s.bound;
  },
)

unless_success :
    (ds : List Device) (rest : List Device → Scans) → unless_error (success, ds) rest ≡ rest ds
unfolding unless_error is_error
unless_success ds rest = refl

unless_full :
    (ds : List Device) (rest : List Device → Scans) → unless_error (full, ds) rest ≡ some (full, ds)
unfolding unless_error is_error
unless_full ds rest = refl

-- A scan, and one behind it that is left out when the first fails.
pub Returns-next :
    (R S : Device → Type 0) (ds : List Device) (scan : Scans) (rest : List Device → Scans)
    → Returns R ds scan
    → ((ds' : List Device)
        → scan ≡ some (success, ds')
        → Scanned R ds success ds'
        → Returns S ds' (rest ds'))
    → Returns (λ x. R x ⊎ S x) ds (scan >>= λ r. unless_error r rest)
Returns-next R S ds scan rest (code, ds', e, s) then_ = go s.outcome
  where
    go :
        (code ≡ success) ⊎ ((code ≡ full) × (length ds' ≡ max_devices))
        → Returns (λ x. R x ⊎ S x) ds (scan >>= λ r. unless_error r rest)
    go (inr (f, l)) = (
      full,
      ds',
      rw (e, f) (unless_full ds' rest),
      record {
        new = s.new;
        grows = s.grows;
        sound = λ x m. inl (s.sound x m);
        complete = λ ok. absurd (cc);
        outcome = inr (refl, l);
        bound = s.bound;
      },
    )
    go (inl ok) =
        let s' : Scanned R ds success ds' = rw (← ok) s in
        let (code', ds'', e', t) = then_ ds' (e ∙ ap (λ c. some (c, ds')) ok) s' in
        (
          code',
          ds'',
          rw (e, ok) (unless_success ds' rest ∙ e'),
          record {
            new = s.new ++ t.new;
            grows = t.grows ∙ ap (λ k. k ++ t.new) s.grows ∙ append_assoc ds s.new t.new;
            sound = λ x m. elim (Memᴰ.append_cases s.new m) [
              | inl m' ↦ inl (s.sound x m')
              | inr m' ↦ inr (t.sound x m')
            ];
            complete = λ good x h. elim h [
              | inl r ↦ rw (t.grows) (Memᴰ.append_left t.new (s.complete ok x r))
              | inr r ↦ t.complete good x r
            ];
            outcome = t.outcome;
            bound = t.bound;
          },
        )

-- The places of a loop that are not passed over.
abbrev pub Visited : (ℕ → Bool) → (ℕ → Device → Type 0) → ℕ → ℕ → Device → Type 0
Visited skip R i left x = (j : ℕ) × (i ≤ j) × (j < i + left) × (skip j ≡ false) × R j x

visit_done :
    (skip : ℕ → Bool) (visit : ℕ → List Device → Scans) (i : ℕ) (ds : List Device)
    → visit_from skip visit i zero ds ≡ some (success, ds)
unfolding visit_from
visit_done skip visit i ds = refl

visit_over :
    (skip : ℕ → Bool) (visit : ℕ → List Device → Scans) (i left : ℕ) (ds : List Device)
    → skip i ≡ true
    → visit_from skip visit i (suc left) ds ≡ visit_from skip visit (i + 1) left ds
unfolding visit_from
visit_over skip visit i left ds h = rw h refl

visit_one :
    (skip : ℕ → Bool) (visit : ℕ → List Device → Scans) (i left : ℕ) (ds : List Device)
    → skip i ≡ false
    → visit_from skip visit i (suc left) ds
      ≡ (visit i ds >>= λ r. unless_error r λ ds'. visit_from skip visit (i + 1) left ds')
unfolding visit_from
visit_one skip visit i left ds h = rw h refl

pub Returns-eq :
    (R : Device → Type 0) (ds : List Device) (scan scan' : Scans)
    → scan ≡ scan'
    → Returns R ds scan'
    → Returns R ds scan
Returns-eq R ds scan scan' q (code, ds', e, s) = (code, ds', q ∙ e, s)

pub nothing-Scanned :
    (R : Device → Type 0) (ds : List Device)
    → length ds ≤ max_devices
    → ((x : Device) → R x → ⊥)
    → Scanned R ds success ds
nothing-Scanned R ds b none_is = record {
  new = [];
  grows = sym (append-nil ds);
  sound = λ x m. absurd (Memᴰ.not-nil m);
  complete = λ ok x h. absurd (none_is x h);
  outcome = inl refl;
  bound = b;
}

-- Arrays that hold at least `least` devices.
abbrev pub Fits : ℕ → List Device → Type 0
Fits least ds = (least ≤ length ds) × (length ds ≤ max_devices)

pub visit_from-Returns :
    (skip : ℕ → Bool) (visit : ℕ → List Device → Scans) (R : ℕ → Device → Type 0) (least : ℕ)
    → ((i : ℕ) (ds : List Device) → skip i ≡ false → Fits least ds → Returns (R i) ds (visit i ds))
    → (i left : ℕ) (ds : List Device) → Fits least ds
    → Returns (Visited skip R i left) ds (visit_from skip visit i left ds)
visit_from-Returns skip visit R least one i zero ds (l, b) = (
  success,
  ds,
  visit_done skip visit i ds,
  nothing-Scanned (Visited skip R i zero) ds b (λ x (j, a, c, d, r). omega arith),
)
visit_from-Returns skip visit R least one i (suc left) ds (l, b) = elim (Bool-cases (skip i)) [
  | inl over ↦
      Returns-eq (Visited skip R i (suc left)) ds (visit_from skip visit i (suc left) ds)
        (visit_from skip visit (i + 1) left ds) (visit_over skip visit i left ds over)
        (Returns-map (Visited skip R (i + 1) left) (Visited skip R i (suc left)) ds
          (visit_from skip visit (i + 1) left ds)
          (λ x (j, a, c, d, r). (j, omega arith, omega arith, d, r))
          (λ x (j, a, c, d, r).
            (j, later i j a (λ q. ground (arith, ap skip q)), omega arith, d, r))
          (visit_from-Returns skip visit R least one (i + 1) left ds (l, b)))
  | inr here ↦
      Returns-eq (Visited skip R i (suc left)) ds (visit_from skip visit i (suc left) ds)
        (visit i ds >>= λ r. unless_error r λ ds'. visit_from skip visit (i + 1) left ds')
        (visit_one skip visit i left ds here)
        (Returns-map (λ x. R i x ⊎ Visited skip R (i + 1) left x) (Visited skip R i (suc left)) ds
          (visit i ds >>= λ r. unless_error r λ ds'. visit_from skip visit (i + 1) left ds')
          (λ x h. elim h [
            | inl r ↦ (i, omega arith, omega arith, here, r)
            | inr (j, a, c, d, r) ↦ (j, omega arith, omega arith, d, r)
          ])
          (λ x (j, a, c, d, r). from_here x j a c d r)
          (Returns-next (R i) (Visited skip R (i + 1) left) ds (visit i ds)
            (λ ds'. visit_from skip visit (i + 1) left ds') (one i ds here (l, b))
            (λ ds' q s.
              visit_from-Returns skip visit R least one (i + 1) left ds'
                (omega (arith, Scanned-longer (R i) ds ds' success s), s.bound))))
]
  where
    later : (i j : ℕ) → i ≤ j → i ≢ j → i + 1 ≤ j
    later i j a h = ground arith

    from_here :
        (x : Device) (j : ℕ)
        → i ≤ j
        → j < i + suc left
        → skip j ≡ false
        → R j x
        → R i x ⊎ Visited skip R (i + 1) left x
    from_here x j a c d r = elim (ℕ_discrete i j) [
      | yes same ↦ inl (rw same r)
      | no other ↦ inr (j, later i j a other, omega arith, d, r)
    ]
