-- ===== src/Pci.antt =====
-- kernel/pci.hpp and kernel/pci.cpp. `config` is the configuration space behind the ports of PCI: the
-- 32 bits that `ReadData` gives for the address written before. Reads have no effect; the operations
-- that write give back the list of what they write, in order, as addresses and values.
pub mod Addresses
pub mod Scanning
pub mod Functions
pub mod Buses
pub mod Msi
mod Tests
use hon_os.Prelude.{
  ℕ, zero, suc, ◌+◌, ◌*◌, ◌/◌, ◌%◌, ◌^◌, bit_and, bit_or, List, [], ◌∷◌, ◌++◌, Option, none, some,
  Bool, true, false, ◌&&◌, ◌==◌, leb, if◌then◌else◌, length, ◌>>=◌,
}
use hon_os.Errors.{Code, success, full, index_out_of_range, is_error, WithError}

-- Shifts to the left, to 32 bits.
abbrev pub shl : ℕ → ℕ → ℕ
shl x bits = x * 2 ^ bits % 2 ^ 32

-- `MakeAddress`.
pub make_address : ℕ → ℕ → ℕ → ℕ → ℕ
make_address bus device function reg_addr =
    bit_or (bit_or (bit_or (bit_or (shl 1 31) (shl bus 16)) (shl device 11)) (shl function 8))
      (bit_and reg_addr 0xfc)

pub record ClassCode : Type 0 where
  pub base : ℕ
  pub sub : ℕ
  pub interface : ℕ

-- `Match` of a base and a sub class.
abbrev pub class_match : ClassCode → ℕ → ℕ → Bool
class_match cc b s = b == cc.base && s == cc.sub

pub record Device : Type 0 where
  pub bus : ℕ
  pub device : ℕ
  pub function : ℕ
  pub header_type : ℕ
  pub class_code : ClassCode

abbrev pub Config : Type 0
Config = ℕ → ℕ

pub read_vendor_id : Config → ℕ → ℕ → ℕ → ℕ
read_vendor_id config bus device function =
    bit_and (config (make_address bus device function 0x00)) 0xffff

pub read_header_type : Config → ℕ → ℕ → ℕ → ℕ
read_header_type config bus device function =
    bit_and (config (make_address bus device function 0x0c) / 2 ^ 16) 0xff

pub read_class_code : Config → ℕ → ℕ → ℕ → ClassCode
read_class_code config bus device function =
    let reg = config (make_address bus device function 0x08) in
    record {
      base = bit_and (reg / 2 ^ 24) 0xff;
      sub = bit_and (reg / 2 ^ 16) 0xff;
      interface = bit_and (reg / 2 ^ 8) 0xff;
    }

pub read_bus_numbers : Config → ℕ → ℕ → ℕ → ℕ
read_bus_numbers config bus device function = config (make_address bus device function 0x18)

abbrev pub is_single_function_device : ℕ → Bool
is_single_function_device header_type = bit_and header_type 0x80 == 0

-- The vendor of a place where no function is.
abbrev pub absent : Config → ℕ → ℕ → ℕ → Bool
absent config bus device function = read_vendor_id config bus device function == 0xffff

-- The array of devices, up to `num_device`, has this many places.
abbrev pub max_devices : ℕ
max_devices = 32

pub add_device : Device → List Device → Code × List Device
add_device device devices =
    if length devices == max_devices then (full, devices) else (success, devices ++ (device ∷ []))

-- What a scan returns and leaves in the array. `none` is a scan that runs out of fuel.
abbrev pub Scans : Type 0
Scans = Option (Code × List Device)

-- `if (auto err = ...) return err;` before what follows.
pub unless_error : Code × List Device → (List Device → Scans) → Scans
unless_error (err, devices) rest = if is_error err then some (err, devices) else rest devices

-- The loops of the scans: numbers from `i` on, of which the absent ones are passed over, until a
-- visit fails.
pub visit_from : (ℕ → Bool) → (ℕ → List Device → Scans) → ℕ → ℕ → List Device → Scans
visit_from skip visit i zero devices = some (success, devices)
visit_from skip visit i (suc left) devices =
    let rest : List Device → Scans = λ ds. visit_from skip visit (i + 1) left ds in
    if skip i then rest devices else (visit i devices >>= λ r. unless_error r rest)

-- The device that `ScanFunction` adds.
abbrev pub read_device : Config → ℕ → ℕ → ℕ → Device
read_device config bus device function = record {
  bus = bus;
  device = device;
  function = function;
  header_type = read_header_type config bus device function;
  class_code = read_class_code config bus device function;
}

-- A PCI-to-PCI bridge, and the bus behind it.
abbrev pub is_bridge : Config → ℕ → ℕ → ℕ → Bool
is_bridge config bus device function =
    class_match (read_class_code config bus device function) 0x06 0x04

abbrev pub secondary_bus : Config → ℕ → ℕ → ℕ → ℕ
secondary_bus config bus device function =
    bit_and (read_bus_numbers config bus device function / 2 ^ 8) 0xff

-- `ScanFunction`; `below` is `ScanBus`.
pub scan_function : (ℕ → List Device → Scans) → Config → ℕ → ℕ → ℕ → List Device → Scans
scan_function below config bus device function devices =
    unless_error (add_device (read_device config bus device function) devices) λ ds.
      if is_bridge config bus device function
      then below (secondary_bus config bus device function) ds
      else some (success, ds)

pub scan_device : (ℕ → List Device → Scans) → Config → ℕ → ℕ → List Device → Scans
scan_device below config bus device devices =
    scan_function below config bus device 0 devices >>= λ r. unless_error r λ ds.
      if is_single_function_device (read_header_type config bus device 0)
      then some (success, ds)
      else visit_from (absent config bus device) (scan_function below config bus device) 1 7 ds

-- `ScanBus`, with fuel for the bridges on the way to a bus.
pub scan_bus : ℕ → Config → ℕ → List Device → Scans
scan_bus zero config bus devices = none
scan_bus (suc fuel) config bus devices =
    visit_from (λ device. absent config bus device 0)
      (scan_device (λ b ds. scan_bus fuel config b ds) config bus) 0 32 devices

-- Each bridge on the way takes a place in the array.
pub scan_all_bus : Config → Scans
scan_all_bus config =
    if is_single_function_device (read_header_type config 0 0 0)
    then scan_bus (suc max_devices) config 0 []
    else visit_from (absent config 0 0) (λ bus ds. scan_bus (suc max_devices) config bus ds) 0 8 []

abbrev pub read_conf_reg : Config → Device → ℕ → ℕ
read_conf_reg config dev reg_addr = config (make_address dev.bus dev.device dev.function reg_addr)

-- A number as a `uint8_t`.
abbrev pub byte : ℕ → ℕ
byte n = n % 2 ^ 8

pub calc_bar_address : ℕ → ℕ
calc_bar_address bar_index = byte (0x10 + 4 * bar_index)

pub read_bar : Config → Device → ℕ → WithError ℕ
read_bar config device bar_index =
    let addr = calc_bar_address bar_index in
    let bar = read_conf_reg config device addr in
    let bar_upper = read_conf_reg config device (byte (addr + 4)) in
    if leb 6 bar_index
    then record { value = 0; error = index_out_of_range }
    else if bit_and bar 4 == 0
    then record { value = bar; error = success }
    else if leb 5 bar_index
    then record { value = 0; error = index_out_of_range }
    else record { value = bit_or bar (bar_upper * 2 ^ 32); error = success }
