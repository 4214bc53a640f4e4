-- ===== src/Pci/Functions.antt =====
-- What `ScanFunction` and `ScanDevice` add, for a scan below the bridges.
use hon_os.Prelude.{
  ℕ, suc, ◌≤◌, ◌≡◌, refl, ap, sym, ◌∙◌, ◌⊎◌, inl, inr, List, [], ◌∷◌, ◌++◌, some, Bool, true, false,
  ◌==◌, if◌then◌else◌, arith, length, length-append, Bool-cases,
}
use hon_os.Prelude.Slices.{append-nil}
use hon_os.Errors.{success, full}
use hon_os.Pci.{
  Device, Config, Scans, add_device, visit_from, scan_function, scan_device, read_device, is_bridge,
  secondary_bus, absent, is_single_function_device, read_header_type, max_devices,
}
use hon_os.Pci.Scanning.{
  Returns, Returns-map, Returns-next, Scanned-longer, Visited, Fits, nothing-Scanned,
  visit_from-Returns,
}
use mathlib.Core.List.{Memᴰ}
use mathlib.Core.List.Memᴰ

-- A scan below a bridge, for arrays that hold at least `least` devices.
abbrev pub Serves : ℕ → (ℕ → List Device → Scans) → (ℕ → Device → Type 0) → Type 0
Serves least below B =
    (bus : ℕ) (ds : List Device) → Fits least ds → Returns (B bus) ds (below bus ds)

-- What `ScanFunction` adds: the device, and what is behind it if it is a bridge.
abbrev pub OnFunction : (ℕ → Device → Type 0) → Config → ℕ → ℕ → ℕ → Device → Type 0
OnFunction B config bus device function x =
    (x ≡ read_device config bus device function)
    ⊎ ((is_bridge config bus device function ≡ true)
        × B (secondary_bus config bus device function) x)

added-Returns :
    (d : Device) (ds : List Device)
    → length ds ≤ max_devices
    → Returns (λ x. x ≡ d) ds (some (add_device d ds))
unfolding add_device
added-Returns d ds b = elim (Bool-cases (length ds == max_devices)) [
  | inl all ↦ (
    full,
    ds,
    rw all refl,
    record {
      new = [];
      grows = sym (append-nil ds);
      sound = λ x m. absurd (Memᴰ.not-nil m);
      complete = λ ok. absurd (cc);
      outcome = inr (refl, ground arith);
      bound = b;
    },
  )
  | inr room ↦
      let size = length-append ds (d ∷ []) in
      (
        success,
        ds ++ (d ∷ []),
        rw room refl,
        record {
          new = d ∷ [];
          grows = refl;
          sound = λ x m. elim (Memᴰ.cases_cons m) [ inl e ↦ e | inr m' ↦ absurd (Memᴰ.not-nil m') ];
          complete = λ ok x e. Memᴰ.append_right ds (Memᴰ.head e);
          outcome = inl refl;
          bound = ground (arith, size);
        },
      )
]

added_one :
    (d : Device) (ds ds' : List Device)
    → some (add_device d ds) ≡ some (success, ds')
    → length ds' ≡ suc (length ds)
unfolding add_device
added_one d ds ds' = elim (Bool-cases (length ds == max_devices)) [
  | inl all ↦ rw all (λ q. absurd (cc))
  | inr room ↦ rw room (λ q.
      (let same : ds ++ (d ∷ []) ≡ ds' = cc q in
        ap length (sym same) ∙ length-append ds (d ∷ []) ∙ omega arith))
]

-- A scan that is left out.
Returns-if :
    (R : Device → Type 0) (ds : List Device) (test : Bool) (scan : Scans)
    → length ds ≤ max_devices
    → Returns R ds scan
    → Returns (λ x. (test ≡ true) × R x) ds (if test then scan else some (success, ds))
Returns-if R ds true scan b k =
    Returns-map R (λ x. (true ≡ true) × R x) ds scan (λ x r. (refl, r)) (λ x (e, r). r) k
Returns-if R ds false scan b k =
    (success, ds, refl, nothing-Scanned (λ x. (false ≡ true) × R x) ds b (λ x (e, r). absurd (cc)))

Returns-unless :
    (R : Device → Type 0) (ds : List Device) (test : Bool) (scan : Scans)
    → length ds ≤ max_devices
    → Returns R ds scan
    → Returns (λ x. (test ≡ false) × R x) ds (if test then some (success, ds) else scan)
Returns-unless R ds false scan b k =
    Returns-map R (λ x. (false ≡ false) × R x) ds scan (λ x r. (refl, r)) (λ x (e, r). r) k
Returns-unless R ds true scan b k =
    (success, ds, refl, nothing-Scanned (λ x. (true ≡ false) × R x) ds b (λ x (e, r). absurd (cc)))

scan_function-Returns :
    (least : ℕ) (below : ℕ → List Device → Scans) (B : ℕ → Device → Type 0) (config : Config)
    → Serves (suc least) below B
    → (bus device function : ℕ) (ds : List Device) → Fits least ds
    → Returns
        (OnFunction B config bus device function)
        ds
        (scan_function below config bus device function ds)
unfolding scan_function
scan_function-Returns least below B config serves bus device function ds (l, b) =
    let d = read_device config bus device function in
    let bridge = is_bridge config bus device function in
    let sec = secondary_bus config bus device function in
    Returns-next (λ x. x ≡ d) (λ x. (bridge ≡ true) × B sec x) ds (some (add_device d ds))
      (λ ds'. if bridge then below sec ds' else some (success, ds')) (added-Returns d ds b)
      (λ ds' q s.
        Returns-if (B sec) ds' bridge (below sec ds') s.bound
          (serves sec ds' (omega (arith, added_one d ds ds' q), s.bound)))

-- What `ScanDevice` adds: function 0, and the other functions that are there if it has more.
abbrev pub OnDevice : (ℕ → Device → Type 0) → Config → ℕ → ℕ → Device → Type 0
OnDevice B config bus device x =
    OnFunction B config bus device 0 x
    ⊎ ((is_single_function_device (read_header_type config bus device 0) ≡ false)
        × Visited (absent config bus device) (OnFunction B config bus device) 1 7 x)

pub scan_device-Returns :
    (least : ℕ) (below : ℕ → List Device → Scans) (B : ℕ → Device → Type 0) (config : Config)
    → Serves (suc least) below B
    → (bus device : ℕ) (ds : List Device) → Fits least ds
    → Returns (OnDevice B config bus device) ds (scan_device below config bus device ds)
unfolding scan_device
scan_device-Returns least below B config serves bus device ds (l, b) =
    let F = OnFunction B config bus device in
    let more = scan_function below config bus device in
    let gone = absent config bus device in
    let single = is_single_function_device (read_header_type config bus device 0) in
    Returns-next (F 0) (λ x. (single ≡ false) × Visited gone F 1 7 x) ds (more 0 ds)
      (λ ds'. if single then some (success, ds') else visit_from gone more 1 7 ds')
      (scan_function-Returns least below B config serves bus device 0 ds (l, b))
      (λ ds' q s.
        Returns-unless (Visited gone F 1 7) ds' single (visit_from gone more 1 7 ds') s.bound (
          visit_from-Returns gone more F least
            (λ f fs there fits.
              scan_function-Returns least below B config serves bus device f fs fits)
            1 7 ds' (omega (arith, Scanned-longer (F 0) ds ds' success s), s.bound)))
