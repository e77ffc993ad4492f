-- ===== src/Exokernel/Tests.antt =====
-- A process of one page that maps the first of two free frames at the address 0x5000.
use rain_os.Common.{
  ℕ, ◌+◌, ◌%◌, ◌≡◌, ◌≢◌, refl, true, some, [], ◌∷◌, arith, ◌==◌, if◌then◌else◌, update, word,
}
use rain_os.Kalloc.{Memory, Kmem, kalloc, page_round_up}
use rain_os.Kalloc.Free.{IsFree}
use rain_os.Kalloc.Frames.{first_slot}
use rain_os.Syscall.{fetchint, argint}
use rain_os.Vm.{pte_addr, v2p}
use rain_os.Vm.Tables.{entry}
use rain_os.Exokernel.{Exo, count_free, sys_ex_get_frame, sys_ex_get_va, sys_ex_add_page}
use rain_os.Exokernel.AddPage.{add_page_lem}

abbrev low : ℕ
low = 0x8070_0000

abbrev high : ℕ
high = 0x8070_1000

abbrev dir : ℕ
dir = 0x8070_9000

abbrev kernel_end : ℕ
kernel_end = 0x8011_0000

-- The free list leads from the high frame to the low one, the first entry of the directory to the
-- table at 0x8070a000; `start` is at 0x80100000.
abbrev memory : Memory
memory = update (update (update (λ a. 0) high low) 0x8010_0008 first_slot) dir 0x70_a007

abbrev two_free : Kmem
two_free = record { mem = memory; freelist = high; use_lock = true }

two_free-IsFree : IsFree kernel_end two_free (high ∷ low ∷ [])
two_free-IsFree = record {
  chain = (refl, (refl, refl));
  pages = omega arith;
  distinct = omega arith;
}

-- The arguments are the address and the frame.
abbrev caller : Exo
caller = record {
  user = record {
    sz = 4096;
    esp = 4000;
    mem = λ a.
        if a == 4005
        then 80
        else if a == 4009
        then 16
        else if a == 4010
        then 112
        else if a == 4011
        then 128
        else 0;
  };
  pid = 7;
  pgdir = dir;
  kmem = two_free;
}

argint-va : argint caller.user 0 ≡ some 0x5000
unfolding argint fetchint
argint-va = refl

argint-frame : argint caller.user 1 ≡ some high
unfolding argint fetchint
argint-frame = refl

add_page_lem_example :
    (s' : Exo) × (sys_ex_add_page 9 0x8010_0000 caller ≡ some (1, s'))
    × (s'.user.sz ≡ (4096 + 4096) % word)
    × (entry s'.kmem.mem dir 0x5000 ≡ high + 7)
    × (pte_addr (entry s'.kmem.mem dir 0x5000) ≢ v2p high)
    × IsFree kernel_end s'.kmem (high ∷ [])
    × ((kalloc s'.kmem).0 ≡ high)
add_page_lem_example =
    add_page_lem kernel_end 0x8010_0000 0x5000 caller high low [] [] two_free-IsFree (omega arith)
      refl refl
      (record {
        aligned = omega arith;
        behind = omega arith;
        above = omega arith;
        below = omega arith;
      })
      (record {
        aligned = omega arith;
        behind = omega arith;
        above = omega arith;
        below = omega arith;
      })
      (λ q. absurd (omega (arith, q))) (λ q. absurd (omega (arith, q))) (omega arith) refl refl 9
      argint-va argint-frame (omega arith)

-- Asking for a number of frames.
abbrev asking : ℕ → Exo
asking n = record caller {
  user = record { sz = 4096; esp = 4000; mem = λ a. if a == 4004 then n else 0 };
}

test-two_frames : sys_ex_get_frame (asking 2) ≡ high
unfolding sys_ex_get_frame count_free argint fetchint
test-two_frames = refl

test-three_frames : sys_ex_get_frame (asking 3) ≡ 0
unfolding sys_ex_get_frame count_free argint fetchint
test-three_frames = refl

test-sys_ex_get_va : sys_ex_get_va caller ≡ 4096
unfolding sys_ex_get_va page_round_up
test-sys_ex_get_va = refl
