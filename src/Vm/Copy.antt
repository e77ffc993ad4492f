-- ===== src/Vm/Copy.antt =====
-- The copy of an address space and of memory into it: `clearpteu`, `copyuvm`, `uva2ka` and `copyout`
-- of vm.c.
use rain_os.Common.{
  ℕ, zero, suc, ◌+◌, ◌-◌, Bool, true, false, not, ◌||◌, ◌&&◌, Option, none, some, Outcome, ok,
  panic, ◌==◌, ltb, leb, if◌then◌else◌, update, add_word, sub_word, int_at, min,
}
use rain_os.Kalloc.{pgsize, Kmem, kalloc}
use rain_os.Vm.{
  pte_u, present, is_user, pte_addr, pte_flags, v2p, p2v, page_round_down, copy_page, with_mem,
  walkpgdir, mappages,
}
use rain_os.Vm.Setup.{setupkvm}
use rain_os.Vm.Resize.{freevm}

pub clearpteu : (pgdir uva : ℕ) → Kmem → Outcome Kmem
unfolding walkpgdir
clearpteu pgdir uva k =
    let (pte, _) = walkpgdir pgdir uva false k in
    let e = k.mem pte in
    if pte == 0
    then panic
    else ok (with_mem k (update k.mem pte (if is_user e then e - pte_u else e)))

-- The loop of `copyuvm` at `i`; false stands for the jump to `bad`.
pub copy_from : (fuel pgdir d sz i : ℕ) → Kmem → Option (Outcome (Bool × Kmem))
unfolding walkpgdir kalloc mappages
copy_from zero pgdir d sz i k = none
copy_from (suc fuel) pgdir d sz i k =
    let (pte, _) = walkpgdir pgdir i false k in
    let e = k.mem pte in
    let (mem, k1) = kalloc k in
    if not (ltb i sz)
    then some (ok (true, k))
    else if pte == 0 || not (present e)
    then some panic
    else elim (mem == 0) [
      | true ↦ some (ok (false, k1))
      | false ↦
          elim (mappages 1 d i pgsize (v2p mem) (pte_flags e)
            (with_mem k1 (copy_page k1.mem mem (p2v (pte_addr e))))) [
              | none ↦ none
              | some panic ↦ some panic
              | some (ok (false, k2)) ↦ some (ok (false, k2))
              | some (ok (true, k2)) ↦ copy_from fuel pgdir d sz (add_word i pgsize) k2
            ]
    ]

-- Returns the new directory, or 0.
pub copyuvm : (kernel_end kernel_data fuel pgdir sz : ℕ) → Kmem → Option (Outcome (ℕ × Kmem))
unfolding setupkvm copy_from freevm
copyuvm kernel_end kernel_data fuel pgdir sz k = elim (setupkvm fuel kernel_data k) [
  | none ↦ none
  | some panic ↦ some panic
  | some (ok (zero, k1)) ↦ some (ok (0, k1))
  | some (ok (suc d, k1)) ↦ elim (copy_from fuel pgdir (suc d) sz 0 k1) [
    | none ↦ none
    | some panic ↦ some panic
    | some (ok (true, k2)) ↦ some (ok (suc d, k2))
    | some (ok (false, k2)) ↦ elim (freevm kernel_end fuel (suc d) k2) [
      | none ↦ none
      | some panic ↦ some panic
      | some (ok k3) ↦ some (ok (0, k3))
    ]
  ]
]

-- `panic` stands for the use of a null pointer: the code does not test what `walkpgdir` returns.
unfoldable pub uva2ka : (pgdir uva : ℕ) → Kmem → Outcome ℕ
unfolding walkpgdir
uva2ka pgdir uva k =
    let (pte, _) = walkpgdir pgdir uva false k in
    let e = k.mem pte in
    if pte == 0
    then panic
    else if not (present e)
    then ok 0
    else if not (is_user e)
    then ok 0
    else ok (p2v (pte_addr e))

-- The memory of bytes `m`, with `n` of them copied from `src`.
abbrev pub copy_bytes : (m : ℕ → ℕ) (dst src n : ℕ) → ℕ → ℕ
copy_bytes m dst src n a = if leb dst a && ltb a (dst + n) then m (src + (a - dst)) else m a

-- `copyout` on a memory of bytes, of which the page tables are the words; true stands for 0 and
-- false for -1.
pub copyout : (fuel pgdir va src len : ℕ) (m : ℕ → ℕ) → Option (Outcome (Bool × (ℕ → ℕ)))
unfolding uva2ka
copyout zero pgdir va src len m = none
copyout (suc fuel) pgdir va src len m =
    let va0 = page_round_down va in
    let n = min (sub_word pgsize (sub_word va va0)) len in
    if len == 0
    then some (ok (true, m))
    else elim (uva2ka pgdir va0 (record { mem = int_at m; freelist = 0; use_lock = true })) [
      | panic ↦ some panic
      | ok zero ↦ some (ok (false, m))
      | ok (suc pa) ↦
          copyout fuel pgdir (add_word va0 pgsize) (src + n) (len - n)
            (copy_bytes m (suc pa + (va - va0)) src n)
    ]
