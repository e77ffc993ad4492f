-- ===== src/Vm/Tests.antt =====
-- An empty directory at `dir`, with one free page, `page`, behind it.
use rain_os.Common.{
  ℕ, ◌+◌, ◌≡◌, ◌⊎◌, refl, arith, true, false, Option, none, some, Outcome, ok, panic,
}
use rain_os.Kalloc.{kernbase, pgsize, Kmem, page_round_up}
use rain_os.Vm.{present, pdx, mappages, map_from}
use rain_os.Vm.Resize.{allocuvm}
use rain_os.Vm.Copy.{uva2ka}
use rain_os.Vm.Tables.{pde, IsSpace, IsFresh, entry}
use rain_os.Vm.Mapping.{IsMapped, map_page_lem}

abbrev dir : ℕ
dir = kernbase + 4096

abbrev page : ℕ
page = kernbase + 8192

abbrev mem : Kmem
mem = record { mem = λ a. 0; freelist = page; use_lock = true }

mem-IsSpace : IsSpace mem.mem dir
mem-IsSpace = record {
  aligned = refl;
  above = λ i hi p. absurd (cc);
  apart = λ i hi p. absurd (cc);
  distinct = λ i j hi hj p q. absurd (cc);
}

page-IsFresh : IsFresh mem.mem dir page
page-IsFresh = record {
  aligned = refl;
  above = omega arith;
  below = omega arith;
  other = λ q. absurd (omega (arith, q));
  unused = λ i hi p. absurd (cc);
}

map_page_lem_example :
    (present (entry mem.mem dir 0x5000) ≡ true
      → mappages 1 dir 0x5000 pgsize 0x9000 6 mem ≡ some panic)
    × (present (entry mem.mem dir 0x5000) ≡ false
        → ((mappages 1 dir 0x5000 pgsize 0x9000 6 mem ≡ some (ok (false, mem)))
            × (page ≡ 0)
            × (present (pde mem.mem dir (pdx 0x5000)) ≡ false))
          ⊎ ((k' : Kmem) × (mappages 1 dir 0x5000 pgsize 0x9000 6 mem ≡ some (ok (true, k')))
              × IsMapped mem k' dir 0x5000 0x9000 6))
map_page_lem_example =
    map_page_lem 0 dir 0x5000 0x9000 6 mem mem-IsSpace (λ nz. page-IsFresh) (omega arith)
      (omega arith) (omega arith) (omega arith) (omega arith)

-- The size that `allocuvm` returned, and the entry of page 0.
abbrev outcome : Option (Outcome (ℕ × Kmem)) → ℕ × ℕ
outcome none = (0, 0)
outcome (some panic) = (0, 0)
outcome (some (ok (sz, k))) = (sz, entry k.mem dir 0)

-- With one free page, which the process gets, there is none for its table: the page is not mapped,
-- and the process grows nevertheless.
allocuvm-unmapped : outcome (allocuvm kernbase 3 dir 0 4096 mem) ≡ (4096, 0)
unfolding allocuvm page_round_up mappages map_from
allocuvm-unmapped = refl

-- Without a table for it, an address is looked up through a null pointer.
uva2ka-null : uva2ka dir 0x5000 mem ≡ panic
unfolding uva2ka
uva2ka-null = refl
