-- ===== src/Kalloc/Frames.antt =====
-- `allocadd`: which page leaves the free list, and what the list of allocated frames records.
use rain_os.Common.{
  ℕ, zero, suc, ◌+◌, ◌*◌, ◌≤◌, ◌<◌, ◌≡◌, ◌≢◌, refl, ◌∙◌, ap, List, [], ◌∷◌, ◌++◌, arith, All, some,
  false, length, update, update_self, update_ne, ◌==◌, ==_refl, ==_false, Bool-cases, inl, inr,
  ◌||◌,
}
use rain_os.Kalloc.{
  Memory, Kmem, kernbase, phystop, kalloc, find_frame, last_slot, fill_slot, added, refused,
  allocadd,
}
use rain_os.Kalloc.Free.{IsPage, IsChain, IsChain-same, IsFree, kalloc-cons}

-- The slots from address `f` hold these process ids and frames, and the one behind them is last.
abbrev pub HasFrames : Memory → ℕ → List (ℕ × ℕ) → Type 0
HasFrames m f [] = m (f + 8) ≡ 0
HasFrames m f ((pid, frame) ∷ es) =
    (m f ≡ pid) × (m (f + 4) ≡ frame) × (m (f + 8) ≡ f + 16) × HasFrames m (f + 16) es

module _ (m : Memory) where
  last_slot_lem :
      (fuel f : ℕ) (es : List (ℕ × ℕ))
      → length es < fuel
      → HasFrames m f es
      → last_slot fuel m f ≡ some (f + length es * 16)
  unfolding last_slot
  last_slot_lem zero f es h c = absurd (omega arith)
  last_slot_lem (suc fuel) f [] h c = rw c (ap some (omega arith))
  last_slot_lem (suc fuel) f (e ∷ es) h c =
      let more : (m (f + 8) == 0) ≡ false = ground (arith, c.2) in
      rw (more, c.2) (last_slot_lem fuel (f + 16) es (omega arith) c.3 ∙ ap some (omega arith))

  HasFrames-same :
      (m' : Memory) (f : ℕ) (es : List (ℕ × ℕ))
      → ((a : ℕ) → f ≤ a → m' a ≡ m a)
      → HasFrames m f es
      → HasFrames m' f es
  HasFrames-same m' f [] same c = same (f + 8) (omega arith) ∙ c
  HasFrames-same m' f (e ∷ es) same c = (
    same f (omega arith) ∙ c.0,
    same (f + 4) (omega arith) ∙ c.1,
    same (f + 8) (omega arith) ∙ c.2,
    HasFrames-same m' (f + 16) es (λ a h. same a (omega arith)) c.3,
  )

-- A filled slot becomes the last record.
fill_slot-frames :
    (m : Memory) (pid frame f g : ℕ) (es : List (ℕ × ℕ))
    → g ≡ f + length es * 16
    → HasFrames m f es
    → HasFrames (fill_slot m g pid frame) f (es ++ ((pid, frame) ∷ []))
unfolding fill_slot
fill_slot-frames m pid frame f g [] e c =
    let e' : g ≡ f = omega arith in rw e' (ground arith, ground arith, ground arith, ground arith)
fill_slot-frames m pid frame f g (x ∷ es) e c = (
  ground (arith, c.0),
  ground (arith, c.1),
  ground (arith, c.2),
  fill_slot-frames m pid frame (f + 16) g es (omega arith) c.3,
)

fill_slot-below : (m : Memory) (pid frame g a : ℕ) → a < g → fill_slot m g pid frame a ≡ m a
unfolding fill_slot
fill_slot-below m pid frame g a h = ground arith

-- The address of the first slot, behind physical memory.
abbrev pub first_slot : ℕ
first_slot = kernbase + phystop

IsChain-outside :
    (kernel_end : ℕ) (m m' : Memory) (p x : ℕ) (xs : List ℕ)
    → ((a : ℕ) → a < first_slot → a ≢ x → m' a ≡ m a)
    → All (IsPage kernel_end) xs
    → All (λ y. y ≢ x) xs
    → IsChain m p xs
    → IsChain m' p xs
IsChain-outside kernel_end m m' p x xs same ps out c = IsChain-same m m' p xs (each xs ps out) c
  where
    each :
        (ys : List ℕ) → All (IsPage kernel_end) ys → All (λ y. y ≢ x) ys → All (λ y. m' y ≡ m y) ys
    each [] ps out = tt
    each (y ∷ ys) ps out = (same y ps.0.below out.0, each ys ps.1 out.1)

module _ (kernel_end start pid : ℕ) (k : Kmem) (x y : ℕ) (xs : List ℕ) (es : List (ℕ × ℕ))
    (f : IsFree kernel_end k (x ∷ y ∷ xs)) (low : start + 16 ≤ kernel_end)
    (linked : k.mem (start + 8) ≡ first_slot) (held : HasFrames k.mem first_slot es) where
  abbrev pub unlinked : Memory
  unlinked = update k.mem x (k.mem (k.mem x))

  abbrev pub last : ℕ
  last = first_slot + length es * 16

  unlinked-frames : HasFrames unlinked first_slot es
  unlinked-frames =
      HasFrames-same k.mem unlinked first_slot es
        (λ a h.
          update_ne k.mem x a (k.mem (k.mem x)) (λ q. absurd (omega (arith, f.pages.0.below))))
        held

  last_slot-start : (fuel : ℕ) → length es + 1 < fuel → last_slot fuel unlinked start ≡ some last
  unfolding last_slot
  last_slot-start zero h = absurd (omega arith)
  last_slot-start (suc fuel) h =
      let e : unlinked (start + 8) ≡ first_slot =
        update_ne k.mem x (start + 8) (k.mem (k.mem x))
          (λ q. absurd (omega (arith, f.pages.0.behind)))
        ∙ linked in
      rw e (last_slot_lem unlinked fuel first_slot es (omega arith) unlinked-frames)

  -- What `allocadd` leaves of the allocator.
  abbrev pub taken : Kmem
  taken = record k { mem = fill_slot unlinked last pid x }

  pub taken-same : (a : ℕ) → a < first_slot → a ≢ x → fill_slot unlinked last pid x a ≡ k.mem a
  taken-same a h ne =
      fill_slot-below unlinked pid x last a (omega arith) ∙ update_ne k.mem x a (k.mem (k.mem x)) ne

  pub allocadd-eq :
      (fuel : ℕ)
      → length es + 1 < fuel
      → allocadd fuel start k pid x ≡ added (record k { mem = fill_slot unlinked last pid x })
  unfolding allocadd
  allocadd-eq zero h = absurd (omega arith)
  allocadd-eq (suc fuel) h =
      let nz : (x == 0) ≡ false = ground (arith, f.pages.0.above) in
      rw (f.chain.0, nz, ==_refl x, last_slot-start (suc fuel) h)
        (ap (λ p. added (record k { mem = fill_slot unlinked last pid x; freelist = p })) f.chain.0)

  pub after-IsFree : IsFree kernel_end (record k { mem = fill_slot unlinked last pid x }) (x ∷ xs)
  after-IsFree = record {
    chain = (
      f.chain.0,
      rw second (
          IsChain-outside kernel_end k.mem (fill_slot unlinked last pid x) (k.mem y) x xs taken-same
            f.pages.1.1 f.distinct.0.1 f.chain.1.1),
    );
    pages = (f.pages.0, f.pages.1.1);
    distinct = (f.distinct.0.1, f.distinct.1.1);
  }
    where
      second : fill_slot unlinked last pid x x ≡ k.mem y
      second =
          fill_slot-below unlinked pid x last x (omega (arith, f.pages.0.below))
          ∙ update_self k.mem x (k.mem (k.mem x))
          ∙ ap k.mem f.chain.1.0

  -- Where a process asks for the frame at the head of the free list, which is what `ExGetFrame`
  -- returns, and another is free, `allocadd` records the frame as the process's, after those
  -- recorded before, and takes not that frame but the one behind it off the free list: the next
  -- `kalloc` hands the same frame out again.
  allocadd-head :
      (fuel : ℕ)
      → length es + 1 < fuel
      → (k' : Kmem) × (allocadd fuel start k pid x ≡ added k')
        × HasFrames k'.mem first_slot (es ++ ((pid, x) ∷ []))
        × IsFree kernel_end k' (x ∷ xs)
        × ((kalloc k').0 ≡ x)
  allocadd-head fuel h = (
    record k { mem = fill_slot unlinked last pid x },
    allocadd-eq fuel h,
    fill_slot-frames unlinked pid x first_slot last es refl unlinked-frames,
    after-IsFree,
    (kalloc-cons kernel_end (record k { mem = fill_slot unlinked last pid x }) x xs after-IsFree).0,
  )

find_frame-none :
    (kernel_end : ℕ) (m : Memory) (fuel p frame : ℕ) (xs : List ℕ)
    → length xs < fuel
    → IsChain m p xs
    → All (IsPage kernel_end) xs
    → All (λ y. y ≢ frame) xs
    → find_frame fuel m p frame ≡ some false
unfolding find_frame
find_frame-none kernel_end m zero p frame xs h c ps out = absurd (omega arith)
find_frame-none kernel_end m (suc fuel) p frame [] h c ps out = rw c
find_frame-none kernel_end m (suc fuel) p frame (x ∷ xs) h c ps out =
    let nz : (x == 0) ≡ false = ground (arith, ps.0.above) in
    rw (c.0, nz, ==_false x frame out.0)
      (find_frame-none kernel_end m fuel (m x) frame xs (omega arith) c.1 ps.1 out.1)

-- A frame that is not on the free list is refused.
pub allocadd-refused :
    (kernel_end fuel start pid frame : ℕ) (k : Kmem) (xs : List ℕ)
    → IsFree kernel_end k xs
    → length xs < fuel
    → All (λ y. y ≢ frame) xs
    → allocadd fuel start k pid frame ≡ refused
unfolding allocadd
allocadd-refused kernel_end fuel start pid frame k xs f h out =
    let e = find_frame-none kernel_end k.mem fuel k.freelist frame xs h f.chain f.pages out in
    elim (Bool-cases (frame == 0 || k.freelist == 0)) [ inl stop ↦ rw stop | inr go ↦ rw (go, e) ]
