-- ===== src/Kalloc/Range.antt =====
-- `freerange`: the pages that the initialisation puts on the free list.
use rain_os.Common.{
  ℕ, zero, suc, ◌+◌, ◌*◌, ◌%◌, ◌≤◌, ◌<◌, ◌≡◌, ◌≢◌, ◌∙◌, ap, List, [], ◌∷◌, arith, All, ok, some,
  add_word, leb, true, false,
}
use rain_os.Kalloc.{Kmem, pgsize, kernbase, phystop, kfree, page_round_up, free_from, freerange}
use rain_os.Kalloc.Free.{IsFree, kfree_lem}

-- `n` pages from `p` upwards, in front of `xs` in the order in which they were freed.
abbrev pub pages_from : ℕ → ℕ → List ℕ → List ℕ
pages_from zero p xs = xs
pages_from (suc n) p xs = pages_from n (p + pgsize) (p ∷ xs)

module _ (kernel_end vend : ℕ) (top : vend ≤ kernbase + phystop) where
  below-All : (p : ℕ) (xs : List ℕ) → All (λ x. x < p) xs → All (λ x. x ≢ p) xs
  below-All p [] h = tt
  below-All p (x ∷ xs) h = (omega arith, below-All p xs h.1)

  above-All : (p : ℕ) (xs : List ℕ) → All (λ x. x < p) xs → All (λ x. x < p + pgsize) xs
  above-All p [] h = tt
  above-All p (x ∷ xs) h = (omega arith, above-All p xs h.1)

  wider : (p q : ℕ) (xs : List ℕ) → p ≤ q → All (λ x. x < p) xs → All (λ x. x < q) xs
  wider p q [] h out = tt
  wider p q (x ∷ xs) h out = (omega arith, wider p q xs h out.1)

  free_from-step :
      (fuel p : ℕ) (k k' : Kmem)
      → leb (add_word p pgsize) vend ≡ true
      → add_word p pgsize ≡ p + pgsize
      → kfree kernel_end k p ≡ ok k'
      → free_from kernel_end (suc fuel) p vend k ≡ free_from kernel_end fuel (p + pgsize) vend k'
  unfolding free_from
  free_from-step fuel p k k' go next e =
      rw (go, e) (ap (λ a. free_from kernel_end fuel a vend k') next)

  free_from-pages :
      (fuel n p : ℕ) (k : Kmem) (xs : List ℕ)
      → n < fuel
      → p + n * pgsize ≤ vend
      → vend < p + n * pgsize + pgsize
      → p % pgsize ≡ 0
      → kernel_end ≤ p
      → kernbase ≤ p
      → IsFree kernel_end k xs
      → All (λ x. x < p) xs
      → (k' : Kmem) × (free_from kernel_end fuel p vend k ≡ some (ok k'))
        × IsFree kernel_end k' (pages_from n p xs)
  unfolding free_from
  free_from-pages zero n p k xs fuel lo hi al be ab f out = absurd (omega arith)
  free_from-pages (suc fuel) zero p k xs lt lo hi al be ab f out =
      let stop : leb (add_word p pgsize) vend ≡ false = ground arith in (k, rw stop, f)
  free_from-pages (suc fuel) (suc n) p k xs lt lo hi al be ab f out =
      let (k', e, f', same) = kfree_lem kernel_end k xs p f (omega arith) (below-All p xs out) in
      let (k2, e2, f2) =
        free_from-pages fuel n (p + pgsize) k' (p ∷ xs) (omega arith) (omega arith) (omega arith)
          (omega arith) (omega arith) (omega arith) f' (omega arith, above-All p xs out) in
      (k2, free_from-step fuel p k k' (ground arith) (omega arith) e ∙ e2, f2)

  -- With fuel for its rounds, `freerange` over a range behind the kernel and below the top of
  -- memory puts every whole page of the range on the free list, each once, and does not panic.
  pub freerange_lem :
      (fuel vstart n : ℕ) (k : Kmem) (xs : List ℕ)
      → n < fuel
      → kernel_end ≤ vstart
      → kernbase ≤ vstart
      → vstart ≤ vend
      → page_round_up vstart + n * pgsize ≤ vend
      → vend < page_round_up vstart + n * pgsize + pgsize
      → IsFree kernel_end k xs
      → All (λ x. x < vstart) xs
      → (k' : Kmem) × (freerange kernel_end fuel k vstart vend ≡ some (ok k'))
        × IsFree kernel_end k' (pages_from n (page_round_up vstart) xs)
  unfolding freerange page_round_up
  freerange_lem fuel vstart n k xs lt be ab le lo hi f out =
      let up : (vstart ≤ page_round_up vstart) × (page_round_up vstart % pgsize ≡ 0) =
        omega arith in
      free_from-pages fuel n (page_round_up vstart) k xs lt lo hi up.1 (omega arith) (omega arith) f
        (wider vstart (page_round_up vstart) xs up.0 out)
