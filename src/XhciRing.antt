-- ===== src/XhciRing.antt =====
-- kernel/usb/xhci/ring.hpp and kernel/usb/xhci/ring.cpp: class `Ring`, through which the driver gives
-- transfer request blocks to the controller.
pub mod Ownership
mod Tests
use hon_os.Prelude.{
  ℕ, ◌+◌, ◌-◌, ◌*◌, ◌/◌, ◌%◌, ◌^◌, bit_and, bit_or, List, Option, none, some, Bool, true, false,
  not, ◌==◌, if◌then◌else◌, set, replicate, get_or,
}
use hon_os.Errors.{Code, success, no_enough_memory}
use hon_os.UsbMemory.{alloc_array}

-- `data` of a TRB.
pub record Trb : Type 0 where
  pub data0 : ℕ
  pub data1 : ℕ
  pub data2 : ℕ
  pub data3 : ℕ

abbrev pub trb_size : ℕ
trb_size = 16

abbrev pub zero_trb : Trb
zero_trb = record { data0 = 0; data1 = 0; data2 = 0; data3 = 0 }

-- `address` is where the buffer stands.
pub record Ring : Type 0 where
  pub address : ℕ
  pub buf : List Trb
  pub buf_size : ℕ
  pub cycle_bit : Bool
  pub write_index : ℕ

-- `Initialize`, with the state of the memory pool: the ring, or none where `buf_` is null.
pub initialize : ℕ → ℕ → ℕ → (Code × Option Ring) × ℕ
initialize pool alloc_ptr buf_size =
    let (p, alloc_ptr') = alloc_array pool alloc_ptr trb_size buf_size 64 (64 * 1024) in
    let made : ℕ → Ring = λ address. record {
      address = address;
      buf = replicate buf_size zero_trb;
      buf_size = buf_size;
      cycle_bit = true;
      write_index = 0;
    } in
    (elim p [ none ↦ (no_enough_memory, none) | some a ↦ (success, some (made a)) ], alloc_ptr')

-- `(data[3] & 0xfffffffe) | cycle_bit`.
pub with_cycle : Bool → Trb → Trb
with_cycle cycle trb = record trb {
  data3 = bit_or (bit_and trb.data3 0xfffffffe) (if cycle then 1 else 0);
}

pub copy_to_last : Ring → Trb → Ring
copy_to_last r trb = record r { buf = set r.buf r.write_index (with_cycle r.cycle_bit trb) }

-- `LinkTRB`, with `toggle_cycle` set.
pub link_trb : ℕ → Trb
link_trb address = record {
  data0 = address / 2 ^ 4 * 2 ^ 4 % 2 ^ 32;
  data1 = address / 2 ^ 32 % 2 ^ 32;
  data2 = 0;
  data3 = 6 * 2 ^ 10 + 2;
}

-- The pointer to the TRB on the ring, and the ring.
pub push : Ring → Trb → ℕ × Ring
push r trb =
    let copied = copy_to_last r trb in
    let next = record copied { write_index = r.write_index + 1 } in
    let linked = copy_to_last next (link_trb r.address) in
    (
      r.address + trb_size * r.write_index,
      if r.write_index + 1 == r.buf_size - 1
          then record linked { write_index = 0; cycle_bit = not r.cycle_bit }
          else next,
    )
