-- ===== src/Vm/Tables.antt =====
-- An address space in memory: a directory, the page tables that it leads to, and the entry that
-- they hold for an address.
use rain_os.Common.{ℕ, ◌+◌, ◌*◌, ◌%◌, ◌≤◌, ◌<◌, ◌≡◌, ◌≢◌, true, if◌then◌else◌, word}
use rain_os.Kalloc.{pgsize, kernbase, Memory}
use rain_os.Vm.{present, p2v, pte_addr, pdx, ptx}

-- Entry `i` of the directory, and the table it leads to.
abbrev pub pde : Memory → ℕ → ℕ → ℕ
pde m pgdir i = m (pgdir + 4 * i)

abbrev pub table : Memory → ℕ → ℕ → ℕ
table m pgdir i = p2v (pte_addr (pde m pgdir i))

-- The directory and the tables are different pages of the kernel's.
pub record IsSpace (m : Memory) (pgdir : ℕ) : Type 0 where
  pub aligned : pgdir % pgsize ≡ 0
  pub above : (i : ℕ) → i < 1024 → present (pde m pgdir i) ≡ true → kernbase ≤ table m pgdir i
  pub apart : (i : ℕ) → i < 1024 → present (pde m pgdir i) ≡ true → table m pgdir i ≢ pgdir
  pub distinct :
      (i j : ℕ)
      → i < 1024
      → j < 1024
      → present (pde m pgdir i) ≡ true
      → present (pde m pgdir j) ≡ true
      → table m pgdir i ≡ table m pgdir j
      → i ≡ j

-- The page `p` is no part of the space.
pub record IsFresh (m : Memory) (pgdir p : ℕ) : Type 0 where
  pub aligned : p % pgsize ≡ 0
  pub above : kernbase ≤ p
  pub below : p < word
  pub other : p ≢ pgdir
  pub unused : (i : ℕ) → i < 1024 → present (pde m pgdir i) ≡ true → table m pgdir i ≢ p

-- The page table entry for `va`; 0 where there is no table.
abbrev pub entry : Memory → (pgdir va : ℕ) → ℕ
entry m pgdir va =
    if present (pde m pgdir (pdx va)) then m (table m pgdir (pdx va) + 4 * ptx va) else 0
