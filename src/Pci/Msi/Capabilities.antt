-- ===== src/Pci/Msi/Capabilities.antt =====
-- What `ConfigureMSI` finds in a list of capabilities, and what it writes.
use hon_os.Prelude.{
  ℕ, zero, suc, ◌/◌, ◌%◌, ◌^◌, ◌≤◌, ◌<◌, ◌≡◌, ◌≢◌, refl, ◌∙◌, inl, inr, min, List, [], ◌∷◌, some,
  false, ◌==◌, leb, if◌then◌else◌, arith, length, Bool-cases, bit_and, ◌+◌, true,
}
use hon_os.Errors.{Code, success, no_pci_msi, not_implemented}
use hon_os.Pci.{Device, Config, read_conf_reg, make_address, byte}
use hon_os.Pci.Msi.{
  set_field, cap_id, next_ptr, msi_enable, multi_msg_capable, multi_msg_enable, addr_64_capable,
  per_vector_mask_capable, read_msi_capability, write_msi_capability, Writes, enabled_header,
  configure_msi_register, configure_msix_register, capability_msi, capability_msix,
  find_capabilities, configure_found, configure_msi,
}

-- The addresses of the capabilities of a device, from `cap_addr` on; the last one points to 0.
pub data AreCapabilities (config : Config) (dev : Device) : ℕ → List ℕ → Type 0 where
  ends : AreCapabilities config dev 0 []
  goes_on :
      (cap_addr : ℕ) (caps : List ℕ)
      → cap_addr ≢ 0
      → AreCapabilities config dev (next_ptr (read_conf_reg config dev cap_addr)) caps
      → AreCapabilities config dev cap_addr (cap_addr ∷ caps)

-- The last of the addresses whose capability has the id, or else `before`.
abbrev pub last_with : Config → Device → ℕ → List ℕ → ℕ → ℕ
last_with config dev id [] before = before
last_with config dev id (cap ∷ caps) before =
    last_with config dev id caps
      (if cap_id (read_conf_reg config dev cap) == id then cap else before)

find_end :
    (fuel : ℕ) (config : Config) (dev : Device) (msi msix : ℕ)
    → find_capabilities fuel config dev 0 (msi, msix) ≡ some (msi, msix)
unfolding find_capabilities
find_end zero config dev msi msix = refl
find_end (suc fuel) config dev msi msix = refl

find_step :
    (fuel : ℕ) (config : Config) (dev : Device) (cap msi msix : ℕ)
    → cap ≢ 0
    → find_capabilities (suc fuel) config dev cap (msi, msix)
      ≡ find_capabilities fuel config dev (next_ptr (read_conf_reg config dev cap)) (
        if cap_id (read_conf_reg config dev cap) == capability_msi then cap else msi,
        if cap_id (read_conf_reg config dev cap) == capability_msix then cap else msix,
      )
unfolding find_capabilities
find_step fuel config dev cap msi msix h =
    let header = read_conf_reg config dev cap in
    let more : (cap == 0) ≡ false = ground arith in
    elim (Bool-cases (cap_id header == capability_msi)) [
      | inl msi_here ↦
          let not_msix : (cap_id header == capability_msix) ≡ false = ground arith in
          rw (more, msi_here, not_msix) refl
      | inr other ↦ elim (Bool-cases (cap_id header == capability_msix)) [
        | inl msix_here ↦ rw (more, other, msix_here) refl
        | inr neither ↦ rw (more, other, neither) refl
      ]
    ]

find_capabilities_lem :
    (config : Config) (dev : Device) (fuel : ℕ) (cap msi msix : ℕ) (caps : List ℕ)
    → AreCapabilities config dev cap caps
    → length caps ≤ fuel
    → find_capabilities fuel config dev cap (msi, msix)
      ≡ some (
        last_with config dev capability_msi caps msi,
        last_with config dev capability_msix caps msix,
      )
find_capabilities_lem config dev fuel _ msi msix _ ends l = find_end fuel config dev msi msix
find_capabilities_lem config dev zero _ msi msix _ (goes_on at caps z k) l = absurd (omega arith)
find_capabilities_lem config dev (suc fuel) _ msi msix _ (goes_on at caps z k) l =
    let header = read_conf_reg config dev at in
    find_step fuel config dev at msi msix z
    ∙ find_capabilities_lem config dev fuel (next_ptr header)
        (if cap_id header == capability_msi then at else msi)
        (if cap_id header == capability_msix then at else msix) caps k (omega arith)

-- A header with the interrupts enabled, for as many vectors as asked for and as the device has; all
-- else is as it was.
pub record Enabled (before after num_vector_exponent : ℕ) : Type 0 where
  pub enable : msi_enable after ≡ 1
  pub vectors : multi_msg_enable after ≡ min (multi_msg_capable before) num_vector_exponent
  pub low : after % 2 ^ 16 ≡ before % 2 ^ 16
  pub capable : multi_msg_capable after ≡ multi_msg_capable before
  pub high : after / 2 ^ 23 ≡ before / 2 ^ 23

enabled_header-Enabled :
    (header num_vector_exponent : ℕ)
    → Enabled header (enabled_header header num_vector_exponent) num_vector_exponent
unfolding enabled_header
enabled_header-Enabled header n = elim (Bool-cases (leb (multi_msg_capable header) n)) [
  | inl all ↦
      let few : multi_msg_capable header ≤ n = ground arith in
      rw all (set_both (multi_msg_capable header) (omega arith) (omega arith))
  | inr part ↦
      let many : n < multi_msg_capable header = ground arith in
      rw part (set_both n (omega arith) (omega arith))
]
  where
    set_both :
        (v : ℕ)
        → v ≡ min (multi_msg_capable header) n
        → v < 8
        → Enabled header (set_field 16 1 1 (set_field 20 3 v header)) n
    set_both v e l = record {
      enable = omega arith;
      vectors = omega arith;
      low = omega arith;
      capable = omega arith;
      high = omega arith;
    }

-- A register of a capability, at a byte offset.
abbrev register : Device → ℕ → ℕ → ℕ
register dev cap_addr offset =
    make_address dev.bus dev.device dev.function (byte (cap_addr + offset))

-- The registers as the layouts of an MSI capability have them, with 32 or 64 bits of address and with
-- or without a mask: the header, the message address and the data are new, and the upper half of the
-- address, the mask and the pending bits are as they were read.
pub data Layout (config : Config) (dev : Device) (cap_addr header msg_addr msg_data : ℕ)
    : Writes → Type 0 where
  short :
      header / 2 ^ 23 % 2 ≡ 0
      → header / 2 ^ 24 % 2 ≡ 0
      → Layout config dev cap_addr header msg_addr msg_data (
          (make_address dev.bus dev.device dev.function cap_addr, header)
          ∷ (register dev cap_addr 4, msg_addr)
          ∷ (register dev cap_addr 8, msg_data)
          ∷ [])
  long :
      header / 2 ^ 23 % 2 ≡ 1
      → header / 2 ^ 24 % 2 ≡ 0
      → Layout config dev cap_addr header msg_addr msg_data (
          (make_address dev.bus dev.device dev.function cap_addr, header)
          ∷ (register dev cap_addr 4, msg_addr)
          ∷ (register dev cap_addr 8, read_conf_reg config dev (byte (cap_addr + 8)))
          ∷ (register dev cap_addr 12, msg_data)
          ∷ [])
  short_masked :
      header / 2 ^ 23 % 2 ≡ 0
      → header / 2 ^ 24 % 2 ≡ 1
      → Layout config dev cap_addr header msg_addr msg_data (
          (make_address dev.bus dev.device dev.function cap_addr, header)
          ∷ (register dev cap_addr 4, msg_addr)
          ∷ (register dev cap_addr 8, msg_data)
          ∷ (register dev cap_addr 12, read_conf_reg config dev (byte (cap_addr + 12)))
          ∷ (register dev cap_addr 16, read_conf_reg config dev (byte (cap_addr + 16)))
          ∷ [])
  long_masked :
      header / 2 ^ 23 % 2 ≡ 1
      → header / 2 ^ 24 % 2 ≡ 1
      → Layout config dev cap_addr header msg_addr msg_data (
          (make_address dev.bus dev.device dev.function cap_addr, header)
          ∷ (register dev cap_addr 4, msg_addr)
          ∷ (register dev cap_addr 8, read_conf_reg config dev (byte (cap_addr + 8)))
          ∷ (register dev cap_addr 12, msg_data)
          ∷ (register dev cap_addr 16, read_conf_reg config dev (byte (cap_addr + 16)))
          ∷ (register dev cap_addr 20, read_conf_reg config dev (byte (cap_addr + 20)))
          ∷ [])

byte_twice : (a i j k : ℕ) → i + j ≡ k → byte (byte (a + i) + j) ≡ byte (a + k)
byte_twice a i j k e = omega arith

written-Layout :
    (config : Config) (dev : Device) (cap_addr header msg_addr msg_data : ℕ)
    → header / 2 ^ 23 ≡ read_conf_reg config dev cap_addr / 2 ^ 23
    → Layout config dev cap_addr header msg_addr msg_data (
        write_msi_capability dev cap_addr (record (read_msi_capability config dev cap_addr) {
          header = header;
          msg_addr = msg_addr;
          msg_data = msg_data;
        }))
unfolding write_msi_capability read_msi_capability
written-Layout config dev cap_addr header msg_addr msg_data same =
    let old = read_conf_reg config dev cap_addr in
    elim (Bool-cases (addr_64_capable header)) [
      | inl is64 ↦
          let is64' : addr_64_capable old ≡ true = ground (arith, same) in
          let more = byte_twice cap_addr 12 4 16 refl in
          let last = byte_twice cap_addr 12 8 20 refl in
          elim (Bool-cases (per_vector_mask_capable header)) [
            | inl mask ↦
                let mask' : per_vector_mask_capable old ≡ true = ground (arith, same) in
                rw (is64, is64', mask, mask', more, last)
                  (long_masked (ground arith) (ground arith))
            | inr no_mask ↦ rw (is64, is64', no_mask) (long (ground arith) (ground arith))
          ]
      | inr is32 ↦
          let is32' : addr_64_capable old ≡ false = ground (arith, same) in
          let more = byte_twice cap_addr 8 4 12 refl in
          let last = byte_twice cap_addr 8 8 16 refl in
          elim (Bool-cases (per_vector_mask_capable header)) [
            | inl mask ↦
                let mask' : per_vector_mask_capable old ≡ true = ground (arith, same) in
                rw (is32, is32', mask, mask', more, last)
                  (short_masked (ground arith) (ground arith))
            | inr no_mask ↦ rw (is32, no_mask) (short (ground arith) (ground arith))
          ]
    ]

-- What `ConfigureMSI` returns and writes for a list of capabilities.
pub data Outcome (config : Config) (dev : Device) (caps : List ℕ) (msg_addr msg_data exponent : ℕ)
    : Code × Writes → Type 0 where
  configured :
      (header : ℕ) (writes : Writes)
      → last_with config dev capability_msi caps 0 ≢ 0
      → Enabled
          (read_conf_reg config dev (last_with config dev capability_msi caps 0))
          header
          exponent
      → Layout config dev
          (last_with config dev capability_msi caps 0)
          header
          msg_addr
          msg_data
          writes
      → Outcome config dev caps msg_addr msg_data exponent (success, writes)
  only_msix :
      last_with config dev capability_msi caps 0 ≡ 0
      → last_with config dev capability_msix caps 0 ≢ 0
      → Outcome config dev caps msg_addr msg_data exponent (not_implemented, [])
  neither :
      last_with config dev capability_msi caps 0 ≡ 0
      → last_with config dev capability_msix caps 0 ≡ 0
      → Outcome config dev caps msg_addr msg_data exponent (no_pci_msi, [])

found-Outcome :
    (config : Config) (dev : Device) (caps : List ℕ) (msg_addr msg_data n : ℕ)
    → Outcome config dev caps msg_addr msg_data n (
        configure_found config dev msg_addr msg_data n
          (last_with config dev capability_msi caps 0, last_with config dev capability_msix caps 0))
unfolding configure_found configure_msi_register configure_msix_register read_msi_capability
found-Outcome config dev caps msg_addr msg_data n =
    elim (Bool-cases (last_with config dev capability_msi caps 0 == 0)) [
      | inl no_msi ↦ elim (Bool-cases (last_with config dev capability_msix caps 0 == 0)) [
        | inl no_msix ↦ rw (no_msi, no_msix) (neither (ground arith) (ground arith))
        | inr msix ↦ rw (no_msi, msix) (only_msix (ground arith) (ground arith))
      ]
      | inr msi ↦
          let at = last_with config dev capability_msi caps 0 in
          let header = enabled_header (read_conf_reg config dev at) n in
          let enabled = enabled_header-Enabled (read_conf_reg config dev at) n in
          rw msi (
            configured header
              (write_msi_capability dev at (record (read_msi_capability config dev at) {
                header = header;
                msg_addr = msg_addr;
                msg_data = msg_data;
              }))
              (ground arith) enabled
              (written-Layout config dev at header msg_addr msg_data enabled.high))
    ]

-- `ConfigureMSI` of a device whose list of capabilities ends, after at most 256: it writes the registers
-- of the last capability for MSI, enabled for as many vectors as asked for and as there are, with the
-- message address and data where its layout has them and the other registers as they were read;
-- without such a capability it writes nothing and returns an error.
pub configure_msi-Outcome :
    (config : Config) (dev : Device) (caps : List ℕ) (msg_addr msg_data num_vector_exponent : ℕ)
    → AreCapabilities config dev (bit_and (read_conf_reg config dev 0x34) 0xff) caps
    → length caps ≤ 256
    → (result : Code × Writes) × (configure_msi config dev msg_addr msg_data num_vector_exponent
        ≡ some result)
      × Outcome config dev caps msg_addr msg_data num_vector_exponent result
unfolding configure_msi
configure_msi-Outcome config dev caps msg_addr msg_data n k l =
    let first = bit_and (read_conf_reg config dev 0x34) 0xff in
    let found : ℕ × ℕ =
      (last_with config dev capability_msi caps 0, last_with config dev capability_msix caps 0) in
    (
      configure_found config dev msg_addr msg_data n found,
      rw (find_capabilities_lem config dev 256 first 0 0 caps k l) refl,
      found-Outcome config dev caps msg_addr msg_data n,
    )
