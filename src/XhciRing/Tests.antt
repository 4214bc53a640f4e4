-- ===== src/XhciRing/Tests.antt =====
-- Runs of the operations on a ring of two entries and a link, and an instance of their promise.
use hon_os.Prelude.{◌+◌, ◌*◌, ◌≡◌, refl, true, arith, replicate}
use hon_os.XhciRing.{Trb, zero_trb, trb_size, Ring, with_cycle, copy_to_last, link_trb, push}
use hon_os.XhciRing.Ownership.{fresh-IsRing, Pushed, push-Pushed}

abbrev fresh : Ring
fresh = record {
  address = 0x10000;
  buf = replicate 3 zero_trb;
  buf_size = 3;
  cycle_bit = true;
  write_index = 0;
}

abbrev no_op : Trb
no_op = record { data0 = 7; data1 = 0; data2 = 0; data3 = 8 * 1024 }

-- The second entry is followed by the link.
second_turns : (push (record fresh { write_index = 1 }) no_op).1.write_index ≡ 0
unfolding push copy_to_last with_cycle link_trb
second_turns = refl

push-Pushed_example :
    (r' : Ring) × (push fresh no_op ≡ (0x10000 + trb_size * 0, r')) × Pushed fresh no_op r'
push-Pushed_example = push-Pushed fresh no_op (fresh-IsRing fresh refl refl refl (omega arith))
