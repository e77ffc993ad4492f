-- ===== src/Exokernel.antt =====
-- The exokernel's memory calls of sysmem.c: a process looks at the free frames and at its page
-- tables, and maps a frame itself. They run on the memory of Kalloc.antt with the page tables of
-- Vm.antt, and fetch their arguments as in Syscall.antt. The walks of `allocadd` run on fuel, and then
-- none means that it ran out. `start` is the address of kalloc.c's variable of that name.
pub mod AddPage
mod Tests
use rain_os.Common.{
  ℕ, zero, suc, ◌+◌, ◌*◌, ◌%◌, ◌-◌, Bool, true, false, not, ◌||◌, Option, none, some, ◌==◌, ltb,
  if◌then◌else◌, update, word, add_word, is_negative, rounds,
}
use rain_os.Kalloc.{
  pgsize, Memory, Kmem, page_round_up, getfreelist, added, refused, spinning, allocadd,
}
use rain_os.Syscall.{User, argint}
use rain_os.Vm.{
  bor, pte_p, pte_w, pte_u, present, pte_addr, pdx, ptx, v2p, p2v, zero_page, with_mem,
}

-- What the calls use of `proc`, and the allocator's memory.
pub record Exo : Type 0 where
  pub user : User
  pub pid : ℕ
  pub pgdir : ℕ
  pub kmem : Kmem

-- The loop of `sys_ExGetFrame` with `k` rounds left: how many frames it meets.
pub count_free : Memory → (k r num : ℕ) → ℕ
count_free m zero r num = num
count_free m (suc k) r num =
    let rest = count_free m k (m r) (num + 1) in if r == 0 then num else rest

pub sys_ex_get_frame : Exo → ℕ
unfolding count_free
sys_ex_get_frame s = elim (argint s.user 0) [
  | none ↦ 0
  | some n ↦
      if count_free (s.kmem).mem (rounds n) (getfreelist s.kmem) 0 == n
      then getfreelist s.kmem
      else 0
]

pub sys_ex_get_va : Exo → ℕ
sys_ex_get_va s = page_round_up (s.user).sz

pub sys_ex_get_pde : Exo → ℕ
sys_ex_get_pde s = elim (argint s.user 0) [
  | none ↦ word - 1
  | some index ↦
      if is_negative index || ltb 1023 index then word - 1 else (s.kmem).mem (s.pgdir + 4 * index)
]

-- `getpgtab`; the table that it makes is the head of the free list, given to `allocadd`.
pub getpgtab : (fuel start pid pgdir va : ℕ) (alloc : Bool) → Kmem → Option (ℕ × Kmem)
getpgtab fuel start pid pgdir va alloc k =
    let pde = pgdir + 4 * pdx va in
    let pgtab = getfreelist k in
    let entered : Kmem → Option (ℕ × Kmem) = λ k'. some (
      pgtab + 4 * ptx va,
      with_mem k' (
          update (zero_page k'.mem pgtab) pde
            (bor 32 (bor 32 (bor 32 (v2p pgtab) pte_p) pte_w) pte_u)),
    ) in
    if present (k.mem pde)
    then some (p2v (pte_addr (k.mem pde)) + 4 * ptx va, k)
    else if not alloc
    then some (0, k)
    else if pgtab == 0
    then some (0, k)
    else elim (allocadd fuel start k pid pgtab) [
      | spinning ↦ none
      | refused ↦ entered k
      | added k' ↦ entered k'
    ]

pub sys_ex_get_pte : (fuel start : ℕ) → Exo → Option (ℕ × Exo)
unfolding getpgtab
sys_ex_get_pte fuel start s = elim (argint s.user 0) [
  | none ↦ some (0, s)
  | some va ↦ elim (getpgtab fuel start s.pid s.pgdir va false s.kmem) [
    | none ↦ none
    | some (pte, k) ↦ some (pte, record s { kmem = k })
  ]
]

-- The end of `sys_ExAddPage`, with what `getpgtab` returns.
pub enter_frame : (frame : ℕ) → Exo → Option (ℕ × Kmem) → Option (ℕ × Exo)
enter_frame frame s none = none
enter_frame frame s (some (pte, k)) =
    if pte == 0
    then some (0, record s { kmem = k })
    else some (
      1,
      record s {
        user = record (s.user) { sz = add_word s.user.sz pgsize };
        kmem = with_mem k (update k.mem pte (bor 32 (bor 32 (bor 32 frame pte_u) pte_w) pte_p));
      },
    )

-- `sys_ExAddPage` with its two arguments.
pub add_page : (fuel start va frame : ℕ) → Exo → Option (ℕ × Exo)
unfolding getpgtab enter_frame
add_page fuel start va frame s =
    if not (va % pgsize == 0) then some (0, s) else elim (allocadd fuel start s.kmem s.pid frame) [
      | spinning ↦ none
      | refused ↦ some (0, s)
      | added k ↦ enter_frame frame s (getpgtab fuel start s.pid s.pgdir va true k)
    ]

pub sys_ex_add_page : (fuel start : ℕ) → Exo → Option (ℕ × Exo)
unfolding add_page
sys_ex_add_page fuel start s = elim (argint s.user 0) [
  | none ↦ some (0, s)
  | some va ↦ elim (argint s.user 1) [
    | none ↦ some (0, s)
    | some frame ↦ add_page fuel start va frame s
  ]
]
