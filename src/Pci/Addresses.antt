-- ===== src/Pci/Addresses.antt =====
-- The addresses of the configuration space.
use hon_os.Prelude.{ℕ, ◌+◌, ◌*◌, ◌/◌, ◌^◌, ◌<◌, ◌≡◌, refl, bit_and, arith}
use hon_os.Prelude.Bits.{bit_and-0xfc, bit_or_sum}
use hon_os.Pci.{shl, make_address}

-- The fields stand side by side.
pub make_address_lem :
    (bus device function reg_addr : ℕ)
    → bus < 256
    → device < 32
    → function < 8
    → reg_addr < 256
    → make_address bus device function reg_addr
      ≡ 2 ^ 31 + bus * 2 ^ 16 + device * 2 ^ 11 + function * 2 ^ 8 + reg_addr / 4 * 4
unfolding make_address
make_address_lem bus device function reg_addr b d f r =
    let b' : shl bus 16 ≡ bus * 2 ^ 16 = omega arith in
    let d' : shl device 11 ≡ device * 2 ^ 11 = omega arith in
    let f' : shl function 8 ≡ function * 2 ^ 8 = omega arith in
    let one = bit_or_sum 24 128 (2 ^ 31) (bus * 2 ^ 16) refl (omega arith) in
    let two =
      bit_or_sum 16 (2 ^ 15 + bus) (2 ^ 31 + bus * 2 ^ 16) (device * 2 ^ 11) (omega arith)
        (omega arith) in
    let three =
      bit_or_sum 11 (2 ^ 20 + bus * 32 + device) (2 ^ 31 + bus * 2 ^ 16 + device * 2 ^ 11)
        (function * 2 ^ 8) (omega arith) (omega arith) in
    let four =
      bit_or_sum 8 (2 ^ 23 + bus * 256 + device * 8 + function)
        (2 ^ 31 + bus * 2 ^ 16 + device * 2 ^ 11 + function * 2 ^ 8) (reg_addr / 4 * 4)
        (omega arith) (omega arith) in
    let r' : bit_and reg_addr 0xfc ≡ reg_addr / 4 * 4 = omega (arith, bit_and-0xfc reg_addr) in
    rw (b', d', f', r', one, two, three) four

-- Two registers of functions on buses have the same address only if they are the same register of
-- four bytes of the same function.
pub make_address_injective :
    (bus bus' device device' function function' reg_addr reg_addr' : ℕ)
    → (bus < 256) × (bus' < 256)
    → (device < 32) × (device' < 32)
    → (function < 8) × (function' < 8)
    → (reg_addr < 256) × (reg_addr' < 256)
    → make_address bus device function reg_addr ≡ make_address bus' device' function' reg_addr'
    → (bus ≡ bus') × (device ≡ device') × (function ≡ function') × (reg_addr / 4 ≡ reg_addr' / 4)
make_address_injective bus bus' device device' function function' reg_addr reg_addr' b d f r e =
    let l = make_address_lem bus device function reg_addr b.0 d.0 f.0 r.0 in
    let l' = make_address_lem bus' device' function' reg_addr' b.1 d.1 f.1 r.1 in
    (omega arith, omega arith, omega arith, omega arith)
