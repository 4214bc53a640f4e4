-- ===== src/UsbMemory/Tests.antt =====
-- Runs of `AllocMem`, and an instance of its promise.
use hon_os.Prelude.{ℕ, ◌+◌, ◌^◌, ◌<◌, ◌≤◌, ◌≡◌, refl, Option, some, none, arith}
use hon_os.UsbMemory.{alloc_mem, within_boundary, aligned, ceil}
use hon_os.UsbMemory.Allotting.{Allotted, alloc_mem-Allotted}

-- 1024 bytes behind address 0x10f84 go to the next page.
next_page : alloc_mem 0x10000 0x10f84 1024 64 4096 ≡ (some 0x11000, 0x11400)
unfolding alloc_mem within_boundary aligned ceil hon_os.Prelude.add64 hon_os.Prelude.sub64
next_page = refl

alloc_mem-Allotted_example :
    Allotted 0x10000 0x10f84 1024 (2 ^ 6) (2 ^ 12) (alloc_mem 0x10000 0x10f84 1024 (2 ^ 6) (2 ^ 12))
alloc_mem-Allotted_example =
    alloc_mem-Allotted 0x10000 0x10f84 1024 6 12 (omega arith) (omega arith) (omega arith)
      (omega arith) (omega arith)
