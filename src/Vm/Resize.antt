-- ===== src/Vm/Resize.antt =====
-- The growth, the shrinking and the end of an address space: `allocuvm`, `deallocuvm` and `freevm` of
-- vm.c.
use rain_os.Common.{
  ℕ, zero, suc, ◌+◌, ◌*◌, true, false, not, Option, none, some, Outcome, ok, panic, ◌==◌, ltb, leb,
  if◌then◌else◌, update, add_word,
}
use rain_os.Kalloc.{pgsize, kernbase, Kmem, kfree, kalloc, page_round_up}
use rain_os.Vm.{pte_w, pte_u, present, pte_addr, v2p, p2v, zero_page, with_mem, walkpgdir, mappages}

-- The loop of `deallocuvm` at `a`.
pub dealloc_from : (kernel_end fuel pgdir oldsz a : ℕ) → Kmem → Option (Outcome Kmem)
unfolding walkpgdir kfree
dealloc_from kernel_end zero pgdir oldsz a k = none
dealloc_from kernel_end (suc fuel) pgdir oldsz a k =
    if not (ltb a oldsz)
    then some (ok k)
    else (let (pte, _) = walkpgdir pgdir a false k in
        let pa = pte_addr (k.mem pte) in
        elim (pte == 0) [
          | true ↦ dealloc_from kernel_end fuel pgdir oldsz (add_word a (1024 * pgsize)) k
          | false ↦ elim (present (k.mem pte)) [
            | false ↦ dealloc_from kernel_end fuel pgdir oldsz (add_word a pgsize) k
            | true ↦ elim (if pa == 0 then panic else kfree kernel_end k (p2v pa)) [
              | panic ↦ some panic
              | ok k' ↦
                  dealloc_from kernel_end fuel pgdir oldsz (add_word a pgsize)
                    (with_mem k' (update k'.mem pte 0))
            ]
          ]
        ])

pub deallocuvm : (kernel_end fuel pgdir oldsz newsz : ℕ) → Kmem → Option (Outcome (ℕ × Kmem))
unfolding dealloc_from
deallocuvm kernel_end fuel pgdir oldsz newsz k =
    if leb oldsz newsz
    then some (ok (oldsz, k))
    else elim (dealloc_from kernel_end fuel pgdir oldsz (page_round_up newsz) k) [
      | none ↦ none
      | some panic ↦ some panic
      | some (ok k') ↦ some (ok (newsz, k'))
    ]

-- The loop of `allocuvm` at `a`; it does not look at what `mappages` returns.
pub alloc_from : (kernel_end fuel pgdir oldsz newsz a : ℕ) → Kmem → Option (Outcome (ℕ × Kmem))
unfolding kalloc mappages deallocuvm
alloc_from kernel_end zero pgdir oldsz newsz a k = none
alloc_from kernel_end (suc fuel) pgdir oldsz newsz a k =
    let (mem, k1) = kalloc k in
    if not (ltb a newsz) then some (ok (newsz, k)) else elim (mem == 0) [
      | true ↦ elim (deallocuvm kernel_end (suc fuel) pgdir newsz oldsz k1) [
        | none ↦ none
        | some panic ↦ some panic
        | some (ok (_, k2)) ↦ some (ok (0, k2))
      ]
      | false ↦
          elim (mappages 1 pgdir a pgsize (v2p mem) (pte_w + pte_u)
            (with_mem k1 (zero_page k1.mem mem))) [
              | none ↦ none
              | some panic ↦ some panic
              | some (ok (_, k2)) ↦
                  alloc_from kernel_end fuel pgdir oldsz newsz (add_word a pgsize) k2
            ]
    ]

unfoldable pub allocuvm :
    (kernel_end fuel pgdir oldsz newsz : ℕ) → Kmem → Option (Outcome (ℕ × Kmem))
unfolding alloc_from
allocuvm kernel_end fuel pgdir oldsz newsz k =
    if leb kernbase newsz
    then some (ok (0, k))
    else if ltb newsz oldsz
    then some (ok (oldsz, k))
    else alloc_from kernel_end fuel pgdir oldsz newsz (page_round_up oldsz) k

-- The loop of `freevm` with `n` entries of the directory left at `i`.
pub free_tables : (kernel_end n pgdir i : ℕ) → Kmem → Outcome Kmem
unfolding kfree
free_tables kernel_end zero pgdir i k = ok k
free_tables kernel_end (suc n) pgdir i k = elim (present (k.mem (pgdir + 4 * i))) [
  | false ↦ free_tables kernel_end n pgdir (i + 1) k
  | true ↦ elim (kfree kernel_end k (p2v (pte_addr (k.mem (pgdir + 4 * i))))) [
    | panic ↦ panic
    | ok k' ↦ free_tables kernel_end n pgdir (i + 1) k'
  ]
]

unfoldable pub freevm : (kernel_end fuel pgdir : ℕ) → Kmem → Option (Outcome Kmem)
unfolding deallocuvm free_tables
freevm kernel_end fuel pgdir k =
    if pgdir == 0 then some panic else elim (deallocuvm kernel_end fuel pgdir kernbase 0 k) [
      | none ↦ none
      | some panic ↦ some panic
      | some (ok (_, k1)) ↦ elim (free_tables kernel_end 1024 pgdir 0 k1) [
        | panic ↦ some panic
        | ok k2 ↦ some (kfree kernel_end k2 pgdir)
      ]
    ]
