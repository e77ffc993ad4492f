-- ===== src/Exokernel/AddPage.antt =====
-- What `sys_ExAddPage` maps, and what `sys_ExGetFrame` counts.
use rain_os.Common.{
  ℕ, zero, suc, ◌+◌, ◌*◌, ◌/◌, ◌%◌, ◌^◌, ◌≤◌, ◌<◌, ◌≡◌, ◌≢◌, refl, sym, ◌∙◌, ap, true, false, some,
  List, [], ◌∷◌, length, arith, All, ◌==◌, update, update_self, update_ne, word, is_negative,
}
use rain_os.Kalloc.{pgsize, Memory, Kmem, kalloc}
use rain_os.Kalloc.Free.{IsPage, IsChain, IsChain-same, IsFree, kalloc-cons}
use rain_os.Kalloc.Frames.{HasFrames, first_slot, taken, taken-same, allocadd-eq, after-IsFree}
use rain_os.Syscall.{argint}
use rain_os.Vm.{bor, present, pte_addr, pdx, ptx, p2v, v2p}
use rain_os.Vm.Flags.{bor-add, bor-one}
use rain_os.Vm.Tables.{pde, table, entry}
use rain_os.Vm.Walk.{page-differs}
use rain_os.Exokernel.{
  Exo, count_free, sys_ex_get_frame, getpgtab, enter_frame, add_page, sys_ex_add_page,
}

count_free_lem :
    (kernel_end : ℕ) (m : Memory) (k p num : ℕ) (xs : List ℕ)
    → IsChain m p xs
    → All (IsPage kernel_end) xs
    → (k ≤ length xs → count_free m k p num ≡ num + k)
      × (length xs < k → count_free m k p num ≡ num + length xs)
unfolding count_free
count_free_lem kernel_end m zero p num xs c ps = (λ h. omega arith, λ h. absurd (omega arith))
count_free_lem kernel_end m (suc k) p num [] c ps =
    (λ h. absurd (omega arith), λ h. rw c (omega arith))
count_free_lem kernel_end m (suc k) p num (x ∷ xs) c ps =
    let nz : (p == 0) ≡ false = ground (arith, c.0, ps.0.above) in
    let ih = count_free_lem kernel_end m k (m p) (num + 1) xs (rw c.0 c.1) ps.1 in
    (λ h. rw nz (ih.0 (omega arith) ∙ omega arith), λ h. rw nz (ih.1 (omega arith) ∙ omega arith))

-- `sys_ExGetFrame` for a number of frames of at least 0 returns the first free frame if there are
-- that many free, and otherwise 0.
get_frame_lem :
    (kernel_end n : ℕ) (s : Exo) (xs : List ℕ)
    → IsFree kernel_end s.kmem xs
    → argint s.user 0 ≡ some n
    → n < 2 ^ 31
    → (n ≤ length xs → sys_ex_get_frame s ≡ (s.kmem).freelist)
      × (length xs < n → sys_ex_get_frame s ≡ 0)
unfolding sys_ex_get_frame
get_frame_lem kernel_end n s xs f a small =
    let z : is_negative n ≡ false = ground arith in
    let c = count_free_lem kernel_end (s.kmem).mem n (s.kmem).freelist 0 xs f.chain f.pages in
    let counted = count_free (s.kmem).mem n (s.kmem).freelist 0 in
    (
      λ h.
          let t : (counted == n) ≡ true = ground (arith, c.0 h) in
          rw (a, sys_ex_get_frame, z, t) refl,
      λ h.
          let t : (counted == n) ≡ false = ground (arith, c.1 h) in
          rw (a, sys_ex_get_frame, z, t) refl,
    )

-- The entry that `sys_ExAddPage` writes for an aligned frame.
frame_entry : (x : ℕ) → x % pgsize ≡ 0 → x < 2 ^ 32 → bor 32 (bor 32 (bor 32 x 4) 2) 1 ≡ x + 7
frame_entry x al lt =
    ap (λ (n : ℕ). bor 32 (bor 32 (bor 32 n 4) 2) 1) a
    ∙ ap (λ (n : ℕ). bor 32 (bor 32 n 2) 1)
        (bor-add 32 12 (x / 4096) 4 (omega arith) (omega arith) (omega arith) ∙ b)
    ∙ ap (λ (n : ℕ). bor 32 n 1)
        (bor-add 32 2 (x / 4 + 1) 2 (omega arith) (omega arith) (omega arith))
    ∙ bor-one 31 ((x / 4 + 1) * 2 ^ 2 + 2) (omega arith)
    ∙ omega arith
  where
    a : x ≡ x / 4096 * 2 ^ 12
    a = omega arith

    b : x / 4096 * 2 ^ 12 + 4 ≡ (x / 4 + 1) * 2 ^ 2
    b = omega arith

module _ (kernel_end start va : ℕ) (s : Exo) (x y : ℕ) (xs : List ℕ) (es : List (ℕ × ℕ))
    (f : IsFree kernel_end s.kmem (x ∷ y ∷ xs)) (low : start + 16 ≤ kernel_end)
    (linked : (s.kmem).mem (start + 8) ≡ first_slot) (held : HasFrames (s.kmem).mem first_slot es)
    (pd : IsPage kernel_end s.pgdir) (pt : IsPage kernel_end (table (s.kmem).mem s.pgdir (pdx va)))
    (apart : s.pgdir ≢ x) (other : table (s.kmem).mem s.pgdir (pdx va) ≢ s.pgdir)
    (unlisted : All (λ p. p ≢ table (s.kmem).mem s.pgdir (pdx va)) (x ∷ xs))
    (pr : present (pde (s.kmem).mem s.pgdir (pdx va)) ≡ true) (al : va % pgsize ≡ 0) where
  abbrev tab : ℕ
  tab = table (s.kmem).mem s.pgdir (pdx va)

  -- The address of the entry.
  abbrev pte : ℕ
  pte = tab + 4 * ptx va

  abbrev after : Kmem
  after = taken kernel_end start s.pid s.kmem x y xs es f low linked held

  pde-after : pde after.mem s.pgdir (pdx va) ≡ pde (s.kmem).mem s.pgdir (pdx va)
  pde-after =
      taken-same kernel_end start s.pid s.kmem x y xs es f low linked held (s.pgdir + 4 * pdx va)
        (omega (arith, pd.aligned, pd.below))
        (λ q.
          page-differs s.pgdir x (4 * pdx va) 0 pd.aligned f.pages.0.aligned apart (omega arith)
            (omega arith) (q ∙ omega arith))

  getpgtab-after : (fuel : ℕ) → getpgtab fuel start s.pid s.pgdir va true after ≡ some (pte, after)
  unfolding getpgtab
  getpgtab-after fuel =
      let e : present (pde after.mem s.pgdir (pdx va)) ≡ true = ap present pde-after ∙ pr in
      rw (e, getpgtab) (ap (λ (n : ℕ). some (p2v (pte_addr n) + 4 * ptx va, after)) pde-after)

  -- The caller with the frame mapped.
  abbrev mapped : Exo
  mapped = record s {
    user = record (s.user) { sz = (s.user.sz + 4096) % word };
    kmem = record after { mem = update after.mem pte (bor 32 (bor 32 (bor 32 x 4) 2) 1) };
  }

  add_page-eq : (fuel : ℕ) → length es + 1 < fuel → add_page fuel start va x s ≡ some (1, mapped)
  unfolding add_page enter_frame
  add_page-eq fuel h =
      let z : (va % pgsize == 0) ≡ true = ground arith in
      let nz : (pte == 0) ≡ false = ground (arith, pt.above) in
      rw
        (
          add_page,
          z,
          allocadd-eq kernel_end start s.pid s.kmem x y xs es f low linked held fuel h,
          getpgtab-after fuel,
          nz,
        )
        refl

  entry-mapped : entry (mapped.kmem).mem s.pgdir va ≡ x + 7
  entry-mapped =
      let v = bor 32 (bor 32 (bor 32 x 4) 2) 1 in
      let e : pde (mapped.kmem).mem s.pgdir (pdx va) ≡ pde (s.kmem).mem s.pgdir (pdx va) =
        update_ne after.mem pte (s.pgdir + 4 * pdx va) v (
          page-differs s.pgdir tab (4 * pdx va) (4 * ptx va) pd.aligned pt.aligned
            (λ q. other (sym q)) (omega arith) (omega arith))
        ∙ pde-after in
      let t : present (pde (mapped.kmem).mem s.pgdir (pdx va)) ≡ true = ap present e ∙ pr in
      rw t (
        ap (λ (n : ℕ). (mapped.kmem).mem (p2v (pte_addr n) + 4 * ptx va)) e
        ∙ update_self after.mem pte v
        ∙ frame_entry x f.pages.0.aligned (omega (arith, f.pages.0.below)))

  mapped-IsFree : IsFree kernel_end mapped.kmem (x ∷ xs)
  mapped-IsFree =
      let r = after-IsFree kernel_end start s.pid s.kmem x y xs es f low linked held in
      record {
        chain =
            IsChain-same after.mem (mapped.kmem).mem after.freelist (x ∷ xs)
              (each (x ∷ xs) r.pages unlisted) r.chain;
        pages = r.pages;
        distinct = r.distinct;
      }
    where
      each :
          (zs : List ℕ)
          → All (IsPage kernel_end) zs
          → All (λ p. p ≢ tab) zs
          → All (λ p. (mapped.kmem).mem p ≡ after.mem p) zs
      each [] ps ns = tt
      each (z ∷ zs) ps ns = (
        update_ne after.mem pte z (bor 32 (bor 32 (bor 32 x 4) 2) 1) (λ q.
            page-differs z tab 0 (4 * ptx va) ps.0.aligned pt.aligned ns.0 (omega arith)
              (omega arith) (omega arith ∙ q)),
        each zs ps.1 ns.1,
      )

  -- `sys_ExAddPage` of the frame at the head of the free list, as `sys_ExGetFrame` returns it, at an
  -- aligned address that has a page table, when another frame is free: it returns 1, the process
  -- grows by a page, and the entry for the address is the frame's address in the kernel with the
  -- three flags, not its physical address; and the frame is still free, so that the next `kalloc`
  -- hands it out again.
  pub add_page_lem :
      (fuel : ℕ)
      → argint s.user 0 ≡ some va
      → argint s.user 1 ≡ some x
      → length es + 1 < fuel
      → (s' : Exo) × (sys_ex_add_page fuel start s ≡ some (1, s'))
        × (s'.user.sz ≡ (s.user.sz + 4096) % word)
        × (entry s'.kmem.mem s.pgdir va ≡ x + 7)
        × (pte_addr (entry s'.kmem.mem s.pgdir va) ≢ v2p x)
        × IsFree kernel_end s'.kmem (x ∷ xs)
        × ((kalloc s'.kmem).0 ≡ x)
  unfolding sys_ex_add_page
  add_page_lem fuel a b h = (
    mapped,
    rw (a, sys_ex_add_page, b) (add_page-eq fuel h),
    refl,
    entry-mapped,
    λ q.
        absurd
          (omega (arith, entry-mapped, q, f.pages.0.aligned, f.pages.0.above, f.pages.0.below)),
    mapped-IsFree,
    (kalloc-cons kernel_end mapped.kmem x xs mapped-IsFree).0,
  )
