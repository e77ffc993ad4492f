-- ===== src/Kalloc/Free.antt =====
-- The free list as a list of pages, and what `kfree` and `kalloc` do to it.
use rain_os.Common.{
  ℕ, ◌+◌, ◌%◌, ◌≤◌, ◌<◌, ◌≡◌, ◌≢◌, ◌⊎◌, ◌↔◌, refl, ◌∙◌, List, [], ◌∷◌, arith, All, ok, panic,
  update, update_self, update_ne, word, sub_word, ◌==◌, ltb, leb, false, Bool-cases, inl, inr, not,
  ◌||◌,
}
use rain_os.Kalloc.{Memory, Kmem, pgsize, kernbase, phystop, fill_page, kfree, kalloc}

-- What `kfree` accepts: a page's address, behind the kernel and below the physical memory's top.
pub record IsPage (kernel_end v : ℕ) : Type 0 where
  pub aligned : v % pgsize ≡ 0
  pub behind : kernel_end ≤ v
  pub above : kernbase ≤ v
  pub below : v < kernbase + phystop

-- From `p` the first words of the pages `xs` lead to 0.
abbrev pub IsChain : Memory → ℕ → List ℕ → Type 0
IsChain m p [] = p ≡ 0
IsChain m p (x ∷ xs) = (p ≡ x) × IsChain m (m x) xs

abbrev pub Distinct : List ℕ → Type 0
Distinct [] = Unit
Distinct (x ∷ xs) = All (λ y. y ≢ x) xs × Distinct xs

-- The free list holds exactly the pages `xs`, each once.
pub record IsFree (kernel_end : ℕ) (k : Kmem) (xs : List ℕ) : Type 0 where
  pub chain : IsChain k.mem k.freelist xs
  pub pages : All (IsPage kernel_end) xs
  pub distinct : Distinct xs

-- A change of memory that spares the first words of the listed pages.
pub IsChain-same :
    (m m' : Memory) (p : ℕ) (xs : List ℕ)
    → All (λ x. m' x ≡ m x) xs
    → IsChain m p xs
    → IsChain m' p xs
IsChain-same m m' p [] same c = c
IsChain-same m m' p (x ∷ xs) same c = (c.0, IsChain-same m m' (m' x) xs same.1 (rw same.0 c.1))

fill_page-outside : (m : Memory) (v a : ℕ) → (a < v) ⊎ (v + pgsize ≤ a) → fill_page m v a ≡ m a
unfolding fill_page
fill_page-outside m v a h = ground arith

module _ (kernel_end : ℕ) where
  -- Two pages do not overlap.
  pub fill_page-other :
      (m : Memory) (v x : ℕ)
      → IsPage kernel_end v
      → IsPage kernel_end x
      → x ≢ v
      → fill_page m v x ≡ m x
  unfolding fill_page
  fill_page-other m v x pv px ne = ground (arith, pv.aligned, px.aligned)

  freed-same :
      (k : Kmem) (v : ℕ) (xs : List ℕ)
      → IsPage kernel_end v
      → All (IsPage kernel_end) xs
      → All (λ x. x ≢ v) xs
      → All (λ x. update (fill_page k.mem v) v k.freelist x ≡ k.mem x) xs
  freed-same k v [] pv ps out = tt
  freed-same k v (x ∷ xs) pv ps out = (
    update_ne (fill_page k.mem v) v x k.freelist out.0 ∙ fill_page-other k.mem v x pv ps.0 out.0,
    freed-same k v xs pv ps.1 out.1,
  )

  -- `kfree` of a page that is not free puts it at the head of the free list, and changes no memory
  -- outside it.
  pub kfree_lem :
      (k : Kmem) (xs : List ℕ) (v : ℕ)
      → IsFree kernel_end k xs
      → IsPage kernel_end v
      → All (λ x. x ≢ v) xs
      → (k' : Kmem) × (kfree kernel_end k v ≡ ok k')
        × IsFree kernel_end k' (v ∷ xs)
        × ((a : ℕ) → (a < v) ⊎ (v + pgsize ≤ a) → k'.mem a ≡ k.mem a)
  unfolding kfree
  kfree_lem k xs v f pv out = (
    record k { mem = update (fill_page k.mem v) v k.freelist; freelist = v },
    ground (arith, pv.aligned),
    record {
      chain = (
        refl,
        rw (update_self (fill_page k.mem v) v k.freelist) (
            IsChain-same k.mem (update (fill_page k.mem v) v k.freelist) k.freelist xs
              (freed-same k v xs pv f.pages out) f.chain),
      );
      pages = (pv, f.pages);
      distinct = (out, f.distinct);
    },
    λ a h. update_ne (fill_page k.mem v) v a k.freelist (λ q. absurd (omega arith)) ∙ outside a h,
  )
    where
      outside : (a : ℕ) → (a < v) ⊎ (v + pgsize ≤ a) → fill_page k.mem v a ≡ k.mem a
      outside a h = fill_page-outside k.mem v a h

  -- `kfree` panics exactly at an address that is no page's, and nowhere else.
  pub kfree-panic :
      (k : Kmem) (v : ℕ)
      → kernbase ≤ v
      → v < word
      → (kfree kernel_end k v ≡ panic) ↔ ¬ IsPage kernel_end v
  unfolding kfree
  kfree-panic k v h w = (
    λ e pv. ground (arith, pv.aligned, pv.behind, pv.above, pv.below),
    λ no_page.
        elim (Bool-cases
          (not (v % pgsize == 0) || (ltb v kernel_end || leb phystop (sub_word v kernbase)))) [
            | inl stop ↦ rw stop
            | inr go ↦ absurd (no_page (ground arith))
          ],
  )

  -- `kalloc` takes the head of the free list, and returns 0 exactly where the list is empty.
  pub kalloc-cons :
      (k : Kmem) (x : ℕ) (xs : List ℕ)
      → IsFree kernel_end k (x ∷ xs)
      → ((kalloc k).0 ≡ x)
        × (x ≢ 0)
        × IsFree kernel_end (kalloc k).1 xs
        × ((kalloc k).1.mem ≡ k.mem)
  unfolding kalloc
  kalloc-cons k x xs f =
      let px = f.pages.0 in
      let ne : (k.freelist == 0) ≡ false = ground (arith, f.chain.0, px.above) in
      rw ne (
        f.chain.0,
        omega (arith, px.above),
        record { chain = rw f.chain.0 f.chain.1; pages = f.pages.1; distinct = f.distinct.1 },
        refl,
      )

  pub kalloc-nil : (k : Kmem) → IsFree kernel_end k [] → kalloc k ≡ (0, k)
  unfolding kalloc
  kalloc-nil k f = rw f.chain
