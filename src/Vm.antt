-- ===== src/Vm.antt =====
-- Virtual memory, vm.c, over the page allocator of Kalloc.antt: page directories and page tables are
-- pages of its memory of words. A loop over addresses runs on fuel, and then none means that the fuel
-- ran out. `kernel_end` and `kernel_data` are the linker's symbols `end` and `data`.
pub mod Flags
pub mod Tables
pub mod Walk
pub mod Mapping
pub mod Setup
pub mod Resize
pub mod Copy
mod Tests
use rain_os.Common.{
  ℕ, zero, suc, ◌+◌, ◌-◌, ◌*◌, ◌/◌, ◌%◌, ◌^◌, Bool, true, false, not, ◌||◌, ◌&&◌, Option, none,
  some, List, [], ◌∷◌, Outcome, ok, panic, ◌==◌, ltb, leb, if◌then◌else◌, update, word, add_word,
  sub_word, int_at, min,
}
use rain_os.Kalloc.{pgsize, kernbase, phystop, Memory, Kmem, kfree, kalloc, page_round_up}

-- `a | b` on the low `w` bits.
pub bor : (w a b : ℕ) → ℕ
bor zero a b = 0
bor (suc w) a b = (if a % 2 == 1 || b % 2 == 1 then 1 else 0) + 2 * bor w (a / 2) (b / 2)

-- `PTE_P`, `PTE_W` and `PTE_U`.
abbrev pub pte_p : ℕ
pte_p = 1

abbrev pub pte_w : ℕ
pte_w = 2

abbrev pub pte_u : ℕ
pte_u = 4

abbrev pub present : ℕ → Bool
present e = e % 2 == 1

abbrev pub is_user : ℕ → Bool
is_user e = e / 4 % 2 == 1

abbrev pub pte_addr : ℕ → ℕ
pte_addr e = e / 4096 * 4096

abbrev pub pte_flags : ℕ → ℕ
pte_flags e = e % 4096

abbrev pub pdx : ℕ → ℕ
pdx va = va / 2 ^ 22 % 1024

abbrev pub ptx : ℕ → ℕ
ptx va = va / 2 ^ 12 % 1024

abbrev pub v2p : ℕ → ℕ
v2p a = sub_word a kernbase

abbrev pub p2v : ℕ → ℕ
p2v a = add_word a kernbase

abbrev pub page_round_down : ℕ → ℕ
page_round_down a = a / pgsize * pgsize

-- `memset(p, 0, PGSIZE)` and `memmove(d, s, PGSIZE)`.
abbrev pub zero_page : Memory → ℕ → Memory
zero_page m p a = if leb p a && ltb a (p + pgsize) then 0 else m a

abbrev pub copy_page : Memory → (d s : ℕ) → Memory
copy_page m d s a = if leb d a && ltb a (d + pgsize) then m (s + (a - d)) else m a

abbrev pub with_mem : Kmem → Memory → Kmem
with_mem k m = record k { mem = m }

-- Returns the address of the entry for `va`, or 0.
pub walkpgdir : (pgdir va : ℕ) (alloc : Bool) → Kmem → ℕ × Kmem
unfolding kalloc
walkpgdir pgdir va alloc k =
    let pde = pgdir + 4 * pdx va in
    let (pgtab, k') = kalloc k in
    if present (k.mem pde)
    then (p2v (pte_addr (k.mem pde)) + 4 * ptx va, k)
    else if not alloc
    then (0, k)
    else if pgtab == 0
    then (0, k')
    else (
      pgtab + 4 * ptx va,
      with_mem k'
          (update (zero_page k'.mem pgtab) pde (bor 32 (v2p pgtab) (pte_p + pte_w + pte_u))),
    )

-- The loop of `mappages` at `a`; true stands for 0 and false for -1.
pub map_from : (fuel pgdir last perm a pa : ℕ) → Kmem → Option (Outcome (Bool × Kmem))
map_from zero pgdir last perm a pa k = none
map_from (suc fuel) pgdir last perm a pa k =
    let (pte, k1) = walkpgdir pgdir a true k in
    let k2 = with_mem k1 (update k1.mem pte (bor 32 (bor 32 pa perm) pte_p)) in
    let rest = map_from fuel pgdir last perm (add_word a pgsize) (add_word pa pgsize) k2 in
    if pte == 0
    then some (ok (false, k1))
    else if present (k1.mem pte)
    then some panic
    else if a == last
    then some (ok (true, k2))
    else rest

pub mappages : (fuel pgdir va size pa perm : ℕ) → Kmem → Option (Outcome (Bool × Kmem))
mappages fuel pgdir va size pa perm k =
    map_from fuel pgdir (page_round_down (sub_word (add_word va size) 1)) perm (page_round_down va)
      pa k
