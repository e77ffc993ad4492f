-- ===== src/Sbrk.antt =====
-- The memory of a process grows and shrinks: `growproc` (proc.c) on the page tables of Vm.antt, and
-- `sys_sbrk` and `sys_kill` (sysproc.c) with the arguments of Syscall.antt. Loops run on fuel, and
-- then none means that it ran out.
pub mod Shrink
use rain_os.Common.{
  ℕ, zero, suc, ◌+◌, ◌-◌, Bool, true, false, Option, none, some, Outcome, ok, panic, ◌==◌,
  if◌then◌else◌, word, add_word, is_negative, lt_int,
}
use rain_os.Kalloc.{Kmem}
use rain_os.Vm.Resize.{allocuvm, deallocuvm}
use rain_os.Proc.{Table, kill}
use rain_os.Syscall.{User, argint}

-- What the calls use of `proc`, and the allocator's memory.
pub record Memory : Type 0 where
  pub user : User
  pub pgdir : ℕ
  pub kmem : Kmem

-- The end of `growproc`, with what `allocuvm` or `deallocuvm` returns: true for 0, false for -1.
pub resized : Memory → Option (Outcome (ℕ × Kmem)) → Option (Outcome (Bool × Memory))
resized s none = none
resized s (some panic) = some panic
resized s (some (ok (sz, k))) =
    if sz == 0
    then some (ok (false, record s { kmem = k }))
    else some (ok (true, record s { user = record (s.user) { sz = sz }; kmem = k }))

-- `n` is the 32-bit pattern of an `int`.
pub growproc : (kernel_end fuel n : ℕ) → Memory → Option (Outcome (Bool × Memory))
unfolding resized
growproc kernel_end fuel n s =
    let sz = (s.user).sz in
    if lt_int 0 n
    then resized s (allocuvm kernel_end fuel s.pgdir sz (add_word sz n) s.kmem)
    else if is_negative n
    then resized s (deallocuvm kernel_end fuel s.pgdir sz (add_word sz n) s.kmem)
    else some (ok (true, s))

-- The old size, or none for -1.
pub sys_sbrk : (kernel_end fuel : ℕ) → Memory → Option (Outcome (Option ℕ × Memory))
unfolding growproc
sys_sbrk kernel_end fuel s = elim (argint s.user 0) [
  | none ↦ some (ok (none, s))
  | some n ↦ elim (growproc kernel_end fuel n s) [
    | none ↦ none
    | some panic ↦ some panic
    | some (ok (false, s')) ↦ some (ok (none, s'))
    | some (ok (true, s')) ↦ some (ok (some (s.user).sz, s'))
  ]
]

-- True for the result 0, false for -1.
pub sys_kill : User → Table → Bool × Table
sys_kill u t = elim (argint u 0) [ none ↦ (false, t) | some pid ↦ kill pid t ]
