-- ===== src/Pci/Msi.antt =====
-- kernel/pci.hpp and kernel/pci.cpp: the capabilities of a device, and message signaled interrupts.
pub mod Capabilities
use hon_os.Prelude.{
  ℕ, zero, suc, ◌+◌, ◌*◌, ◌/◌, ◌%◌, ◌^◌, bit_and, bit_or, List, [], ◌∷◌, ◌++◌, Option, none, some,
  Bool, true, false, ◌==◌, leb, if◌then◌else◌, ◌>>=◌,
}
use hon_os.Errors.{Code, success, no_pci_msi, not_implemented}
use hon_os.Pci.{shl, make_address, Device, Config, read_conf_reg, byte}

-- The bit field of `width` bits from bit `low` on, and a register with another value in it.
abbrev pub field : ℕ → ℕ → ℕ → ℕ
field low width reg = reg / 2 ^ low % 2 ^ width

abbrev pub set_field : ℕ → ℕ → ℕ → ℕ → ℕ
set_field low width value reg =
    reg % 2 ^ low + (value % 2 ^ width) * 2 ^ low + reg / 2 ^ (low + width) * 2 ^ (low + width)

-- The fields of `CapabilityHeader` and of the header of `MSICapability`.
abbrev pub cap_id : ℕ → ℕ
cap_id reg = field 0 8 reg

abbrev pub next_ptr : ℕ → ℕ
next_ptr reg = field 8 8 reg

abbrev pub msi_enable : ℕ → ℕ
msi_enable reg = field 16 1 reg

abbrev pub multi_msg_capable : ℕ → ℕ
multi_msg_capable reg = field 17 3 reg

abbrev pub multi_msg_enable : ℕ → ℕ
multi_msg_enable reg = field 20 3 reg

abbrev pub addr_64_capable : ℕ → Bool
addr_64_capable reg = field 23 1 reg == 1

abbrev pub per_vector_mask_capable : ℕ → Bool
per_vector_mask_capable reg = field 24 1 reg == 1

pub record MsiCapability : Type 0 where
  pub header : ℕ
  pub msg_addr : ℕ
  pub msg_upper_addr : ℕ
  pub msg_data : ℕ
  pub mask_bits : ℕ
  pub pending_bits : ℕ

-- Where the message data stands.
abbrev pub msg_data_addr : ℕ → ℕ → ℕ
msg_data_addr cap_addr header = byte (cap_addr + (if addr_64_capable header then 12 else 8))

pub read_msi_capability : Config → Device → ℕ → MsiCapability
read_msi_capability config dev cap_addr =
    let header = read_conf_reg config dev cap_addr in
    let at = msg_data_addr cap_addr header in
    let masked = per_vector_mask_capable header in
    record {
      header = header;
      msg_addr = read_conf_reg config dev (byte (cap_addr + 4));
      msg_upper_addr =
          if addr_64_capable header then read_conf_reg config dev (byte (cap_addr + 8)) else 0;
      msg_data = read_conf_reg config dev at;
      mask_bits = if masked then read_conf_reg config dev (byte (at + 4)) else 0;
      pending_bits = if masked then read_conf_reg config dev (byte (at + 8)) else 0;
    }

abbrev pub Writes : Type 0
Writes = List (ℕ × ℕ)

abbrev pub write_conf_reg : Device → ℕ → ℕ → ℕ × ℕ
write_conf_reg dev reg_addr value = (make_address dev.bus dev.device dev.function reg_addr, value)

pub write_msi_capability : Device → ℕ → MsiCapability → Writes
write_msi_capability dev cap_addr msi_cap =
    let at = msg_data_addr cap_addr msi_cap.header in
    let upper : Writes =
      if addr_64_capable msi_cap.header
      then write_conf_reg dev (byte (cap_addr + 8)) msi_cap.msg_upper_addr ∷ []
      else [] in
    let masks : Writes =
      if per_vector_mask_capable msi_cap.header
      then write_conf_reg dev (byte (at + 4)) msi_cap.mask_bits
        ∷ write_conf_reg dev (byte (at + 8)) msi_cap.pending_bits
        ∷ []
      else [] in
    write_conf_reg dev cap_addr msi_cap.header
    ∷ write_conf_reg dev (byte (cap_addr + 4)) msi_cap.msg_addr
    ∷ (upper ++ (write_conf_reg dev at msi_cap.msg_data ∷ masks))

-- The header that `ConfigureMSIRegister` writes.
pub enabled_header : ℕ → ℕ → ℕ
enabled_header header num_vector_exponent =
    let vectors =
      if leb (multi_msg_capable header) num_vector_exponent
      then multi_msg_capable header
      else num_vector_exponent in
    set_field 16 1 1 (set_field 20 3 vectors header)

pub configure_msi_register : Config → Device → ℕ → ℕ → ℕ → ℕ → Code × Writes
configure_msi_register config dev cap_addr msg_addr msg_data num_vector_exponent =
    let msi_cap = read_msi_capability config dev cap_addr in
    (
      success,
      write_msi_capability dev cap_addr (record msi_cap {
        header = enabled_header msi_cap.header num_vector_exponent;
        msg_addr = msg_addr;
        msg_data = msg_data;
      }),
    )

pub configure_msix_register : Code × Writes
configure_msix_register = (not_implemented, [])

abbrev pub capability_msi : ℕ
capability_msi = 0x05

abbrev pub capability_msix : ℕ
capability_msix = 0x11

-- The loop of `ConfigureMSI`, with fuel: the addresses of the capabilities for MSI and MSI-X.
pub find_capabilities : ℕ → Config → Device → ℕ → ℕ × ℕ → Option (ℕ × ℕ)
find_capabilities zero config dev cap_addr found = if cap_addr == 0 then some found else none
find_capabilities (suc fuel) config dev cap_addr (msi, msix) =
    let header = read_conf_reg config dev cap_addr in
    let found =
      if cap_id header == capability_msi
      then (cap_addr, msix)
      else if cap_id header == capability_msix
      then (msi, cap_addr)
      else (msi, msix) in
    let rest = find_capabilities fuel config dev (next_ptr header) found in
    if cap_addr == 0 then some (msi, msix) else rest

-- `ConfigureMSI` behind its loop.
pub configure_found : Config → Device → ℕ → ℕ → ℕ → ℕ × ℕ → Code × Writes
configure_found config dev msg_addr msg_data num_vector_exponent (msi, msix) =
    if msi == 0
    then (if msix == 0 then (no_pci_msi, []) else configure_msix_register)
    else configure_msi_register config dev msi msg_addr msg_data num_vector_exponent

-- A list of capabilities that ends has less than 256 addresses, since they are bytes. `none` is a loop
-- that does not end.
pub configure_msi : Config → Device → ℕ → ℕ → ℕ → Option (Code × Writes)
configure_msi config dev msg_addr msg_data num_vector_exponent =
    find_capabilities 256 config dev (bit_and (read_conf_reg config dev 0x34) 0xff) (0, 0)
    >>= λ found. some (configure_found config dev msg_addr msg_data num_vector_exponent found)

pub configure_msi_fixed_destination :
    Config → Device → ℕ → Bool → ℕ → ℕ → ℕ → Option (Code × Writes)
configure_msi_fixed_destination config dev apic_id level delivery_mode vector num_vector_exponent =
    let msg_addr = bit_or 0xfee00000 (shl apic_id 12) in
    let msg_data = bit_or (shl delivery_mode 8) vector in
    configure_msi config dev msg_addr (if level then bit_or msg_data 0xc000 else msg_data)
      num_vector_exponent
