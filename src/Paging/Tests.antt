-- ===== src/Paging/Tests.antt =====
-- Page maps on a small machine, and the theorems there.
use hon_os.Prelude.{◌+◌, ◌*◌, ◌≡◌, refl, arith}
use hon_os.Paging.Identity.{
  Places, IdentityTables, Registers, IsAligned, LeadsTo, setup_identity_page_table,
  setup_identity_page_table_lem,
}

-- Tables at the starts of pages.
abbrev places : Places
places = record { pml4_table = 4096; pdp_table = 8192; page_directory = λ i. (i + 3) * 4096 }

abbrev blank : IdentityTables
blank = record { pml4_table = λ i. 0; pdp_table = λ i. 0; page_directory = λ i j. 0 }

abbrev registers : Registers
registers = record { cr0 = 0x80010033; cr3 = 0 }

places-IsAligned : IsAligned places
places-IsAligned = record { pml4 = refl; pdp = refl; directory = λ i h. omega arith }

setup_identity_page_table_lem_example :
    ((setup_identity_page_table places blank registers).1.cr3 ≡ 4096)
    × LeadsTo ((setup_identity_page_table places blank registers).0.pml4_table 0) 8192 3
    × LeadsTo ((setup_identity_page_table places blank registers).0.pdp_table 1) 16384 3
    × LeadsTo
        ((setup_identity_page_table places blank registers).0.page_directory 1 2)
        1077936128
        0x083
setup_identity_page_table_lem_example =
    setup_identity_page_table_lem places blank registers 1077940000 places-IsAligned (omega arith)
