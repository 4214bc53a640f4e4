-- ===== src/Pci/Tests.antt =====
-- Instances of the properties of PCI, in small configuration spaces.
use hon_os.Prelude.{◌≡◌, refl, List, [], ◌∷◌, some, arith, ◌==◌, if◌then◌else◌}
use hon_os.Errors.{Code, index_out_of_range}
use hon_os.Pci.{Device, ClassCode, Config, make_address, scan_all_bus, read_bar}
use hon_os.Pci.Scanning.{Scanned}
use hon_os.Pci.Buses.{Attached, scan_all_bus-Scanned}
use hon_os.Pci.Msi.{Writes, configure_msi}
use hon_os.Pci.Msi.Capabilities.{AreCapabilities, ends, goes_on, Outcome, configure_msi-Outcome}

-- The address of a register, in binary parts.
some_address : make_address 1 2 3 0x12 ≡ 0x80011310
unfolding make_address
some_address = refl

-- A host bridge with one function and nothing else.
abbrev bridge_only : Config
bridge_only = λ a.
    if a == 0x80000000
    then 0x12378086
    else if a == 0x80000008
    then 0x06000000
    else if a == 0x8000000c
    then 0
    else 0xffffffff

scan_all_bus-Scanned_example :
    (code : Code) × (devices : List Device) × (scan_all_bus bridge_only ≡ some (code, devices))
    × Scanned (Attached bridge_only) [] code devices
scan_all_bus-Scanned_example = scan_all_bus-Scanned bridge_only

abbrev controller : Device
controller = record {
  bus = 0;
  device = 0;
  function = 0;
  header_type = 0;
  class_code = record { base = 0x0c; sub = 0x03; interface = 0x30 };
}

no_sixth_bar : read_bar bridge_only controller 6 ≡ record { value = 0; error = index_out_of_range }
unfolding read_bar
no_sixth_bar = refl

-- The list starts at 0x50, where a capability for MSI stands, of 8 vectors, which is the last one.
abbrev space : Config
space = λ a. if a == 0x80000034 then 0x50 else if a == 0x80000050 then 0x00860005 else 0

space-AreCapabilities : AreCapabilities space controller 0x50 (0x50 ∷ [])
unfolding hon_os.Pci.make_address
space-AreCapabilities = goes_on 0x50 [] (omega arith) ends

configure_msi-Outcome_example :
    (result : Code × Writes) × (configure_msi space controller 0xfee00000 0x40 0 ≡ some result)
    × Outcome space controller (0x50 ∷ []) 0xfee00000 0x40 0 result
unfolding make_address
configure_msi-Outcome_example =
    configure_msi-Outcome space controller (0x50 ∷ []) 0xfee00000 0x40 0 space-AreCapabilities
      (omega arith)
