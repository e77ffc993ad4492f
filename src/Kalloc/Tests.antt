-- ===== src/Kalloc/Tests.antt =====
-- The allocator's functions and theorems over two free pages at the top of the first 8 MB.
use rain_os.Common.{ℕ, ◌+◌, ◌*◌, ◌<◌, ◌≤◌, ◌≡◌, refl, [], ◌∷◌, arith, ok, some, true, false, update}
use rain_os.Kalloc.{Memory, Kmem, freerange, page_round_up, allocadd, refused}
use rain_os.Kalloc.Free.{IsFree}
use rain_os.Kalloc.Range.{pages_from, freerange_lem}
use rain_os.Kalloc.Frames.{first_slot, allocadd-refused}

abbrev low : ℕ
low = 0x8070_0000

abbrev high : ℕ
high = 0x8070_1000

abbrev kernel_end : ℕ
kernel_end = 0x8011_0000

-- The free list leads from the high page to the low one; `start` is at 0x80100000.
abbrev memory : Memory
memory = update (update (λ a. 0) high low) 0x8010_0008 first_slot

abbrev two_free : Kmem
two_free = record { mem = memory; freelist = high; use_lock = true }

two_free-IsFree : IsFree kernel_end two_free (high ∷ low ∷ [])
two_free-IsFree = record {
  chain = (refl, (refl, refl));
  pages = omega arith;
  distinct = omega arith;
}

abbrev none_free : Kmem
none_free = record { mem = λ a. 0; freelist = 0; use_lock = false }

none_free-IsFree : IsFree kernel_end none_free []
none_free-IsFree = record { chain = refl; pages = tt; distinct = tt }

freerange_lem_example :
    (k : Kmem) × (freerange kernel_end 5 none_free 0x8070_0001 0x8070_3000 ≡ some (ok k))
    × IsFree kernel_end k (pages_from 2 (page_round_up 0x8070_0001) [])
unfolding page_round_up
freerange_lem_example =
    freerange_lem kernel_end 0x8070_3000 (omega arith) 5 0x8070_0001 2 none_free [] (omega arith)
      (omega arith) (omega arith) (omega arith) (rounded.0) (rounded.1) none_free-IsFree tt
  where
    rounded :
        (page_round_up 0x8070_0001 + 2 * 4096 ≤ 0x8070_3000)
        × (0x8070_3000 < page_round_up 0x8070_0001 + 2 * 4096 + 4096)
    rounded = omega arith

allocadd-refused_example : allocadd 9 0x8010_0000 two_free 7 0x8070_5000 ≡ refused
allocadd-refused_example =
    allocadd-refused kernel_end 9 0x8010_0000 7 0x8070_5000 two_free (high ∷ low ∷ [])
      two_free-IsFree (omega arith) (omega arith)
