-- ===== src/Vm/Setup.antt =====
-- The kernel's part of an address space, the first process's page and the load of a program: `setupkvm`,
-- `inituvm` and `loaduvm` of vm.c.
use rain_os.Common.{
  ℕ, zero, suc, ◌+◌, ◌-◌, ◌*◌, ◌%◌, Bool, true, false, not, ◌&&◌, Option, none, some, List, [], ◌∷◌,
  Outcome, ok, panic, ◌==◌, ltb, leb, if◌then◌else◌, add_word, sub_word, min,
}
use rain_os.Kalloc.{pgsize, kernbase, phystop, Memory, Kmem, kalloc}
use rain_os.Vm.{pte_w, pte_u, pte_addr, v2p, p2v, zero_page, with_mem, walkpgdir, mappages}

-- `struct kmap`, and the table.
pub record Kmap : Type 0 where
  pub virt : ℕ
  pub phys_start : ℕ
  pub phys_end : ℕ
  pub perm : ℕ

abbrev pub extmem : ℕ
extmem = 0x10_0000

abbrev pub devspace : ℕ
devspace = 0xfe00_0000

pub kmap : (kernel_data : ℕ) → List Kmap
kmap kernel_data =
    record { virt = kernbase; phys_start = 0; phys_end = extmem; perm = pte_w }
    ∷ record { virt = kernbase + extmem; phys_start = extmem; phys_end = v2p kernel_data; perm = 0 }
    ∷ record { virt = kernel_data; phys_start = v2p kernel_data; phys_end = phystop; perm = pte_w }
    ∷ record {
      virt = v2p phystop;
      phys_start = phystop;
      phys_end = phystop + pgsize * 8;
      perm = pte_w;
    }
    ∷ record { virt = devspace; phys_start = devspace; phys_end = 0; perm = pte_w }
    ∷ []

-- The loop of `setupkvm` over the entries that are left; its result is `pgdir` or 0.
pub map_all : (fuel pgdir : ℕ) → List Kmap → Kmem → Option (Outcome (ℕ × Kmem))
unfolding mappages
map_all fuel pgdir [] k = some (ok (pgdir, k))
map_all fuel pgdir (e ∷ es) k =
    elim (mappages fuel pgdir e.virt (sub_word e.phys_end e.phys_start) e.phys_start e.perm k) [
      | none ↦ none
      | some panic ↦ some panic
      | some (ok (false, k')) ↦ some (ok (0, k'))
      | some (ok (true, k')) ↦ map_all fuel pgdir es k'
    ]

unfoldable pub setupkvm : (fuel kernel_data : ℕ) → Kmem → Option (Outcome (ℕ × Kmem))
unfolding map_all kmap kalloc
setupkvm fuel kernel_data k =
    let (pgdir, k') = kalloc k in
    if pgdir == 0
    then some (ok (0, k'))
    else if ltb devspace (p2v phystop)
    then some panic
    else map_all fuel pgdir (kmap kernel_data) (with_mem k' (zero_page k'.mem pgdir))

-- `sz` is a multiple of 4, as the memory has whole words.
pub inituvm : (fuel pgdir init sz : ℕ) → Kmem → Option (Outcome Kmem)
unfolding mappages kalloc
inituvm fuel pgdir init sz k =
    let (mem, k1) = kalloc k in
    let k2 = with_mem k1 (zero_page k1.mem mem) in
    if leb pgsize sz
    then some panic
    else elim (mappages fuel pgdir 0 pgsize (v2p mem) (pte_w + pte_u) k2) [
      | none ↦ none
      | some panic ↦ some panic
      | some (ok (_, k3)) ↦ some (
          ok (
            with_mem k3
              (λ a. if leb mem a && ltb a (mem + sz) then k3.mem (init + (a - mem)) else k3.mem a)))
    ]

-- `readi` on the open file is the argument `read`, which takes the address, the offset and the
-- length. True stands for 0 and false for -1.
pub load_from :
    (read : (dst off n : ℕ) → Memory → ℕ × Memory) (fuel pgdir addr offset sz i : ℕ)
    → Kmem
    → Option (Outcome (Bool × Kmem))
unfolding walkpgdir
load_from read zero pgdir addr offset sz i k = none
load_from read (suc fuel) pgdir addr offset sz i k =
    let (pte, _) = walkpgdir pgdir (add_word addr i) false k in
    let n = min (sz - i) pgsize in
    let (got, m) = read (p2v (pte_addr (k.mem pte))) (add_word offset i) n k.mem in
    let rest = load_from read fuel pgdir addr offset sz (add_word i pgsize) (with_mem k m) in
    if leb sz i
    then some (ok (true, k))
    else if pte == 0
    then some panic
    else if not (got == n)
    then some (ok (false, with_mem k m))
    else rest

pub loaduvm :
    (read : (dst off n : ℕ) → Memory → ℕ × Memory) (fuel pgdir addr offset sz : ℕ)
    → Kmem
    → Option (Outcome (Bool × Kmem))
unfolding load_from
loaduvm read fuel pgdir addr offset sz k =
    if not (addr % pgsize == 0) then some panic else load_from read fuel pgdir addr offset sz 0 k
