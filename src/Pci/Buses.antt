-- ===== src/Pci/Buses.antt =====
-- What the scans of the buses find: each scan returns, and adds the devices that can be reached.
use hon_os.Prelude.{
  ℕ, zero, suc, ◌+◌, ◌≤◌, ◌<◌, ◌≡◌, refl, ◌⊎◌, inl, inr, List, [], some, Bool, true, false,
  if◌then◌else◌, arith,
}
use hon_os.Errors.{Code}
use hon_os.Pci.{
  Device, Config, Scans, visit_from, scan_device, scan_bus, scan_all_bus, read_device, is_bridge,
  secondary_bus, absent, is_single_function_device, read_header_type, max_devices,
}
use hon_os.Pci.Scanning.{Scanned, Returns, Returns-map, Visited, visit_from-Returns}
use hon_os.Pci.Functions.{Serves, OnFunction, OnDevice, scan_device-Returns}

-- A function that a scan of the bus finds: function 0 of a device, or another one of a device that has
-- more.
pub record Present (config : Config) (bus device function : ℕ) : Type 0 where
  pub slot : device < 32
  pub there : absent config bus device 0 ≡ false
  pub which :
      (function ≡ 0)
      ⊎ ((is_single_function_device (read_header_type config bus device 0) ≡ false)
          × (1 ≤ function)
          × (function < 8)
          × (absent config bus device function ≡ false))

-- The devices on a bus, and those behind its bridges.
pub data OnBus (config : Config) : ℕ → Device → Type 0 where
  here :
      (bus device function : ℕ) (x : Device)
      → Present config bus device function
      → x ≡ read_device config bus device function
      → OnBus config bus x
  behind :
      (bus device function : ℕ) (x : Device)
      → Present config bus device function
      → is_bridge config bus device function ≡ true
      → OnBus config (secondary_bus config bus device function) x
      → OnBus config bus x

-- The devices that the loop of `ScanBus` adds.
abbrev OnDevices : Config → ℕ → Device → Type 0
OnDevices config bus =
    Visited (λ device. absent config bus device 0) (OnDevice (OnBus config) config bus) 0 32

function-OnBus :
    (config : Config) (bus device function : ℕ) (x : Device)
    → Present config bus device function
    → OnFunction (OnBus config) config bus device function x
    → OnBus config bus x
function-OnBus config bus device function x p (inl e) = here bus device function x p e
function-OnBus config bus device function x p (inr (b, h)) = behind bus device function x p b h

OnDevices-OnBus :
    (config : Config) (bus : ℕ) (x : Device) → OnDevices config bus x → OnBus config bus x
OnDevices-OnBus config bus x (d, a, s, t, inl first) =
    function-OnBus config bus d 0 x (record { slot = s; there = t; which = inl refl }) first
OnDevices-OnBus config bus x (d, a, s, t, inr (more, (f, l, u, at, rest))) =
    function-OnBus config bus d f x (record { slot = s; there = t; which = inr (more, l, u, at) })
      rest

Present-OnDevices :
    (config : Config) (bus device function : ℕ) (x : Device)
    → Present config bus device function
    → OnFunction (OnBus config) config bus device function x
    → OnDevices config bus x
Present-OnDevices config bus d f x p h = (
  d,
  omega arith,
  p.slot,
  p.there,
  elim p.which [ inl e ↦ inl (rw (← e) h) | inr (more, l, u, at) ↦ inr (more, (f, l, u, at, h)) ],
)

OnBus-OnDevices :
    (config : Config) (bus : ℕ) (x : Device) → OnBus config bus x → OnDevices config bus x
OnBus-OnDevices config bus x (here _ d f _ p e) = Present-OnDevices config bus d f x p (inl e)
OnBus-OnDevices config bus x (behind _ d f _ p b h) =
    Present-OnDevices config bus d f x p (inr (b, h))

-- The array bounds the bridges on the way to a bus.
scan_bus-Serves :
    (fuel least : ℕ) (config : Config)
    → suc max_devices ≤ least + fuel
    → Serves least (λ bus ds. scan_bus fuel config bus ds) (OnBus config)
unfolding scan_bus
scan_bus-Serves zero least config h bus ds (l, b) = absurd (omega arith)
scan_bus-Serves (suc fuel) least config h bus ds (l, b) =
    let below = λ (c : ℕ) (cs : List Device). scan_bus fuel config c cs in
    let gone = λ (device : ℕ). absent config bus device 0 in
    let scan = visit_from gone (scan_device below config bus) 0 32 ds in
    Returns-map (OnDevices config bus) (OnBus config bus) ds scan (OnDevices-OnBus config bus)
      (OnBus-OnDevices config bus)
      (visit_from-Returns gone (scan_device below config bus) (OnDevice (OnBus config) config bus)
        least
        (λ d ds' there fits.
          scan_device-Returns least below (OnBus config) config
            (scan_bus-Serves fuel (suc least) config (omega arith)) bus d ds' fits)
        0 32 ds (l, b))

Returns-or :
    (R S : Device → Type 0) (ds : List Device) (test : Bool) (scan other : Scans)
    → Returns R ds scan
    → Returns S ds other
    → Returns
        (λ x. ((test ≡ true) × R x) ⊎ ((test ≡ false) × S x))
        ds
        (if test then scan else other)
Returns-or R S ds true scan other k l =
    Returns-map R (λ x. ((true ≡ true) × R x) ⊎ ((true ≡ false) × S x)) ds scan
      (λ x r. inl (refl, r)) (λ x h. elim h [ inl (e, r) ↦ r | inr (e, r) ↦ absurd (cc) ]) k
Returns-or R S ds false scan other k l =
    Returns-map S (λ x. ((false ≡ true) × R x) ⊎ ((false ≡ false) × S x)) ds other
      (λ x r. inr (refl, r)) (λ x h. elim h [ inl (e, r) ↦ absurd (cc) | inr (e, r) ↦ r ]) l

-- The devices that can be reached from the host bridge: on bus 0, or, if it has several functions, on
-- the bus of each that is there.
abbrev pub Attached : Config → Device → Type 0
Attached config x =
    ((is_single_function_device (read_header_type config 0 0 0) ≡ true) × OnBus config 0 x)
    ⊎ ((is_single_function_device (read_header_type config 0 0 0) ≡ false)
        × Visited (absent config 0 0) (OnBus config) 0 8 x)

-- `ScanAllBus` returns, with at most 32 devices; each of them can be reached from the host bridge, and
-- if it succeeds these are all that can be. It fails only with a full array.
pub scan_all_bus-Scanned :
    (config : Config)
    → (code : Code) × (devices : List Device) × (scan_all_bus config ≡ some (code, devices))
      × Scanned (Attached config) [] code devices
unfolding scan_all_bus
scan_all_bus-Scanned config =
    let scan = λ (bus : ℕ) (ds : List Device). scan_bus (suc max_devices) config bus ds in
    let served = scan_bus-Serves (suc max_devices) 0 config (omega arith) in
    Returns-or (OnBus config 0) (Visited (absent config 0 0) (OnBus config) 0 8) []
      (is_single_function_device (read_header_type config 0 0 0)) (scan 0 [])
      (visit_from (absent config 0 0) scan 0 8 []) (served 0 [] (omega arith, omega arith))
      (visit_from-Returns (absent config 0 0) scan (OnBus config) 0
        (λ b ds there fits. served b ds fits) 0 8 [] (omega arith, omega arith))
