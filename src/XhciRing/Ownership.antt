-- ===== src/XhciRing/Ownership.antt =====
-- Which entries of a ring the controller may take: those with the cycle bit of the round.
use hon_os.Prelude.{
  some, ℕ, ◌+◌, ◌-◌, ◌*◌, ◌%◌, ◌≤◌, ◌<◌, ◌≡◌, ◌≢◌, ◌⊎◌, refl, ap, sym, ◌∙◌, inl, inr, List, Bool,
  true, false, not, ◌==◌, arith, length, set, get_or, replicate, length-set, get_or-set_self,
  get_or-set_ne, get_or-replicate, length-replicate, ℕ_discrete, bit_and, bit_or, ◌/◌, ◌^◌,
  if◌then◌else◌,
}
use hon_os.Prelude.Bits.{bit_or_halves, bit_and_halves, bit_and_ones, bit_or-zero}
use hon_os.Errors.{success}
use hon_os.UsbMemory.{alloc_array}
use hon_os.XhciRing.{
  initialize, Trb, zero_trb, trb_size, Ring, with_cycle, copy_to_last, link_trb, push,
}

-- The cycle bit of an entry.
abbrev pub cycle_of : Trb → Bool
cycle_of trb = trb.data3 % 2 == 1

abbrev pub entry : Ring → ℕ → Trb
entry r i = get_or r.buf i zero_trb

-- The entries before the write index carry the cycle bit of this round, the others that of the round
-- before.
pub record IsRing (r : Ring) : Type 0 where
  pub size : length r.buf ≡ r.buf_size
  pub place : r.write_index + 1 < r.buf_size
  pub written : (i : ℕ) → i < r.write_index → cycle_of (entry r i) ≡ r.cycle_bit
  pub free : (i : ℕ) → r.write_index ≤ i → i < r.buf_size → cycle_of (entry r i) ≡ not r.cycle_bit

cycle_of-with_cycle : (c : Bool) (trb : Trb) → cycle_of (with_cycle c trb) ≡ c
unfolding with_cycle
cycle_of-with_cycle true trb =
    ground
      (arith, bit_or_halves (bit_and trb.data3 0xfffffffe) 1, bit_and_halves trb.data3 0xfffffffe)
cycle_of-with_cycle false trb =
    ground
      (arith, bit_or_halves (bit_and trb.data3 0xfffffffe) 0, bit_and_halves trb.data3 0xfffffffe)

abbrev digit : Bool → ℕ
digit c = if c then 1 else 0

-- An entry on the ring with the words of a request block of 32-bit words, all but the lowest bit, which
-- is the cycle bit.
pub record Carries (cycle : Bool) (trb on_ring : Trb) : Type 0 where
  pub data0 : on_ring.data0 ≡ trb.data0
  pub data1 : on_ring.data1 ≡ trb.data1
  pub data2 : on_ring.data2 ≡ trb.data2
  pub data3 : on_ring.data3 ≡ trb.data3 / 2 % 2 ^ 31 * 2 + digit cycle

-- A link to the start of the ring, at a multiple of 16 in 64 bits: type 6, with the bit that makes the
-- controller toggle its cycle.
pub record LinksTo (cycle : Bool) (address : ℕ) (on_ring : Trb) : Type 0 where
  pub pointer : on_ring.data0 + 2 ^ 32 * on_ring.data1 ≡ address % 2 ^ 64 - address % 16
  pub status : on_ring.data2 ≡ 0
  pub control : on_ring.data3 ≡ 6 * 2 ^ 10 + 2 + digit cycle

masked : (a : ℕ) (c : Bool) → bit_or (bit_and a 0xfffffffe) (digit c) ≡ a / 2 % 2 ^ 31 * 2 + digit c
masked a true = omega (
  arith,
  bit_or_halves (bit_and a 0xfffffffe) 1,
  bit_and_halves a 0xfffffffe,
  bit_and_ones 31 (a / 2),
  bit_or-zero (bit_and a 0xfffffffe / 2),
)
masked a false = omega (
  arith,
  bit_or_halves (bit_and a 0xfffffffe) 0,
  bit_and_halves a 0xfffffffe,
  bit_and_ones 31 (a / 2),
  bit_or-zero (bit_and a 0xfffffffe / 2),
)

with_cycle-Carries : (c : Bool) (trb : Trb) → Carries c trb (with_cycle c trb)
unfolding with_cycle
with_cycle-Carries c trb = record {
  data0 = refl;
  data1 = refl;
  data2 = refl;
  data3 = masked trb.data3 c;
}

link_trb-LinksTo : (c : Bool) (address : ℕ) → LinksTo c address (with_cycle c (link_trb address))
unfolding with_cycle link_trb
link_trb-LinksTo c address = record {
  pointer = omega arith;
  status = refl;
  control = masked (6 * 2 ^ 10 + 2) c;
}

-- What `Push` has done.
pub record Pushed (r : Ring) (trb : Trb) (r' : Ring) : Type 0 where
  pub entry_is : Carries r.cycle_bit trb (entry r' r.write_index)
  pub others : (i : ℕ) → i ≢ r.write_index → i + 1 < r.buf_size → entry r' i ≡ entry r i
  pub next :
      ((r'.write_index ≡ r.write_index + 1) × (r'.cycle_bit ≡ r.cycle_bit))
      ⊎ ((r'.write_index ≡ 0)
          × (r'.cycle_bit ≡ not r.cycle_bit)
          × (r.write_index + 2 ≡ r.buf_size)
          × LinksTo r.cycle_bit r.address (entry r' (r.write_index + 1)))
  pub valid : IsRing r'

module _ (r : Ring) (trb : Trb) (k : IsRing r) where
  abbrev buf' : List Trb
  buf' = set r.buf r.write_index (with_cycle r.cycle_bit trb)

  abbrev linked : List Trb
  linked = set buf' (r.write_index + 1) (with_cycle r.cycle_bit (link_trb r.address))

  buf'_self : get_or buf' r.write_index zero_trb ≡ with_cycle r.cycle_bit trb
  buf'_self =
      get_or-set_self r.buf r.write_index (with_cycle r.cycle_bit trb) zero_trb
        (omega (arith, k.size, k.place))

  buf'_ne : (i : ℕ) → i ≢ r.write_index → get_or buf' i zero_trb ≡ entry r i
  buf'_ne i h =
      get_or-set_ne r.buf r.write_index i (with_cycle r.cycle_bit trb) zero_trb (λ e. h (sym e))

  -- The entries up to the one that was written.
  buf'_written : (i : ℕ) → i < r.write_index + 1 → cycle_of (get_or buf' i zero_trb) ≡ r.cycle_bit
  buf'_written i h = elim (ℕ_discrete i r.write_index) [
    | yes same ↦
        ap (λ j. cycle_of (get_or buf' j zero_trb)) same
        ∙ ap cycle_of buf'_self
        ∙ cycle_of-with_cycle r.cycle_bit trb
    | no other ↦ ap cycle_of (buf'_ne i other) ∙ k.written i (ground arith)
  ]

  linked_ne : (i : ℕ) → i ≢ r.write_index + 1 → get_or linked i zero_trb ≡ get_or buf' i zero_trb
  linked_ne i h =
      get_or-set_ne buf' (r.write_index + 1) i (with_cycle r.cycle_bit (link_trb r.address))
        zero_trb (λ e. h (sym e))

  linked_self :
      get_or linked (r.write_index + 1) zero_trb ≡ with_cycle r.cycle_bit (link_trb r.address)
  linked_self =
      get_or-set_self buf' (r.write_index + 1) (with_cycle r.cycle_bit (link_trb r.address))
        zero_trb
        (omega
          (arith, length-set r.buf r.write_index (with_cycle r.cycle_bit trb), k.size, k.place))

  step-Pushed :
      r.write_index + 2 ≢ r.buf_size
      → Pushed r trb (record r { buf = buf'; write_index = r.write_index + 1 })
  step-Pushed h = record {
    entry_is = rw buf'_self (with_cycle-Carries r.cycle_bit trb);
    others = λ i other inside. buf'_ne i other;
    next = inl (refl, refl);
    valid = record {
      size = length-set r.buf r.write_index (with_cycle r.cycle_bit trb) ∙ k.size;
      place = ground (arith, k.place);
      written = buf'_written;
      free = λ i l u. ap cycle_of (buf'_ne i (λ e. omega arith)) ∙ k.free i (omega arith) u;
    };
  }

  involution : (b : Bool) → not (not b) ≡ b
  involution true = refl
  involution false = refl

  turn-Pushed :
      r.write_index + 2 ≡ r.buf_size
      → Pushed r trb (record r { buf = linked; write_index = 0; cycle_bit = not r.cycle_bit })
  turn-Pushed h = record {
    entry_is =
        rw (linked_ne r.write_index (λ e. omega arith) ∙ buf'_self)
          (with_cycle-Carries r.cycle_bit trb);
    others = λ i other inside. linked_ne i (λ e. omega arith) ∙ buf'_ne i other;
    next = inr (refl, refl, h, rw linked_self (link_trb-LinksTo r.cycle_bit r.address));
    valid = record {
      size =
          length-set buf' (r.write_index + 1) (with_cycle r.cycle_bit (link_trb r.address))
          ∙ length-set r.buf r.write_index (with_cycle r.cycle_bit trb)
          ∙ k.size;
      place = omega (arith, k.place);
      written = λ i l. absurd (omega arith);
      free = λ i l u. elim (ℕ_discrete i (r.write_index + 1)) [
        | yes same ↦
            ap (λ j. cycle_of (get_or linked j zero_trb)) same
            ∙ ap cycle_of linked_self
            ∙ cycle_of-with_cycle r.cycle_bit (link_trb r.address)
            ∙ sym (involution r.cycle_bit)
        | no other ↦
            ap cycle_of (linked_ne i other)
            ∙ buf'_written i (ground arith)
            ∙ sym (involution r.cycle_bit)
      ];
    };
  }

-- `Push` on a ring returns the address of the entry at the write index, puts the words of the block
-- there with the cycle bit of the round, and changes no other entry but the last; behind the last place
-- for an entry it writes a link to the start of the ring, with that bit, and starts a round with the
-- other. The entries before the write index still carry the bit of the round, and
-- the others not.
pub push-Pushed :
    (r : Ring) (trb : Trb)
    → IsRing r
    → (r' : Ring) × (push r trb ≡ (r.address + trb_size * r.write_index, r')) × Pushed r trb r'
unfolding push copy_to_last
push-Pushed r trb k = elim (ℕ_discrete (r.write_index + 2) r.buf_size) [
  | yes last ↦
      let turns : (r.write_index + 1 == r.buf_size - 1) ≡ true = ground arith in
      (
        record r { buf = linked r trb k; write_index = 0; cycle_bit = not r.cycle_bit },
        rw turns refl,
        turn-Pushed r trb k last,
      )
  | no more ↦
      let stays : (r.write_index + 1 == r.buf_size - 1) ≡ false = ground (arith, k.place) in
      (
        record r { buf = buf' r trb k; write_index = r.write_index + 1 },
        rw stays refl,
        step-Pushed r trb k more,
      )
]

-- A ring of at least two zeroed entries.
pub fresh-IsRing :
    (r : Ring)
    → r.buf ≡ replicate r.buf_size zero_trb
    → r.cycle_bit ≡ true
    → r.write_index ≡ 0
    → 2 ≤ r.buf_size
    → IsRing r
fresh-IsRing r b c w l = record {
  size = ap length b ∙ length-replicate r.buf_size zero_trb;
  place = omega arith;
  written = λ i h. absurd (omega arith);
  free = λ i h u.
      ap (λ bs. cycle_of (get_or bs i zero_trb)) b
      ∙ ap cycle_of (get_or-replicate r.buf_size i zero_trb)
      ∙ ap not (sym c);
}

-- `Initialize` makes such a ring, where the pool has room.
pub initialize-IsRing :
    (pool alloc_ptr n a alloc_ptr' : ℕ)
    → alloc_array pool alloc_ptr trb_size n 64 (64 * 1024) ≡ (some a, alloc_ptr')
    → 2 ≤ n
    → (r : Ring) × (initialize pool alloc_ptr n ≡ ((success, some r), alloc_ptr')) × IsRing r
unfolding initialize
initialize-IsRing pool alloc_ptr n a alloc_ptr' e l =
    let r : Ring = record {
      address = a;
      buf = replicate n zero_trb;
      buf_size = n;
      cycle_bit = true;
      write_index = 0;
    } in
    (r, rw e refl, fresh-IsRing r refl refl refl l)
