-- ===== src/Mkfs/Usage.antt =====
-- The bitmap that mkfs writes, as the kernel's block allocator reads it.
use rain_os.Common.{
  ℕ, zero, suc, ◌+◌, ◌-◌, ◌*◌, ◌/◌, ◌%◌, ◌≤◌, ◌<◌, ◌≡◌, ◌≢◌, ◌⊎◌, inl, inr, refl, ◌∙◌, ap, arith,
  true, false, if◌then◌else◌, ltb, leb, ◌&&◌, ok, update, update_self, bit,
}
use native.Mathlib.Decide.{ℕ_discrete}
use rain_os.Bitmap.{Blocks, Superblock, readsb, test_bit, bblock, bpb}
use rain_os.Bitmap.Bits.{usage, test-set_self, test-set_ne, readsb-update}
use rain_os.Bitmap.Alloc.{IsLaidOut}
use rain_os.Mkfs.{or_bit, mark_from, balloc, wsect, size, nblocks, ninodes, nlog, first_free}

-- A bit is 0 or 1.
bit-cases : (x k : ℕ) → (bit x k ≡ 0) ⊎ (bit x k ≡ 1)
bit-cases x k = ground arith

test-or_self : (b : ℕ → ℕ) (i : ℕ) → test_bit (or_bit b i) i ≡ 1
unfolding or_bit
test-or_self b i = elim (bit-cases (b (i / 8)) (i % 8)) [
  | inl z ↦ rw z (test-set_self b i z)
  | inr o ↦ rw o o
]

test-or_ne : (b : ℕ → ℕ) (i j : ℕ) → j ≢ i → test_bit (or_bit b i) j ≡ test_bit b j
unfolding or_bit
test-or_ne b i j ne = elim (bit-cases (b (i / 8)) (i % 8)) [
  | inl z ↦ rw z (test-set_ne b i j z ne)
  | inr o ↦ rw o refl
]

test-mark_from :
    (k i : ℕ) (b : ℕ → ℕ) (c : ℕ)
    → test_bit (mark_from k i b) c ≡ (if leb i c && ltb c (i + k) then 1 else test_bit b c)
unfolding mark_from
test-mark_from zero i b c = let e : (leb i c && ltb c (i + 0)) ≡ false = ground arith in rw e refl
test-mark_from (suc k) i b c = test-mark_from k (i + 1) (or_bit b i) c ∙ elim (ℕ_discrete c i) [
  | yes q ↦
      let e : (leb (i + 1) c && ltb c (i + 1 + k)) ≡ false = ground (arith, q) in
      let f : (leb i c && ltb c (i + suc k)) ≡ true = ground (arith, q) in
      rw (e, f) (ap (test_bit (or_bit b i)) q ∙ test-or_self b i)
  | no ne ↦
      let e : (leb (i + 1) c && ltb c (i + 1 + k)) ≡ (leb i c && ltb c (i + suc k)) =
        ground (arith, ne) in
      rw (e, test-or_ne b i c ne) refl
]

-- The superblock that mkfs writes.
abbrev pub made_super : Superblock
made_super = record { size = size; nblocks = nblocks; ninodes = ninodes; nlog = nlog }

module _ (used : ℕ) (d : Blocks) (sb : readsb d ≡ made_super) where
  abbrev d' : Blocks
  d' = update d 28 (mark_from used 0 (λ i. 0))

  super : readsb d' ≡ made_super
  super = readsb-update 28 (mark_from used 0 (λ i. 0)) d (omega arith) ∙ sb

  used_lem : (c : ℕ) → c < size → usage d' c ≡ (if ltb c used then 1 else 0)
  used_lem c lt =
      let n : (readsb d').ninodes ≡ ninodes = ap (λ (x : Superblock). x.ninodes) super in
      let b : bblock c (readsb d').ninodes ≡ 28 = omega (arith, n) in
      let p : c % bpb ≡ c = omega arith in
      let e : (leb 0 c && ltb c (0 + used)) ≡ ltb c used = ground arith in
      ap (λ (x : ℕ). test_bit (d' x) (c % bpb)) b
      ∙ ap (test_bit (d' 28)) p
      ∙ ap (λ (f : ℕ → ℕ). test_bit f c) (update_self d 28 (mark_from used 0 (λ i. 0)))
      ∙ test-mark_from used 0 (λ i. 0) c
      ∙ rw e (ap (λ (x : ℕ). if ltb c used then 1 else x) (omega arith))

  laid_lem : first_free ≤ used → IsLaidOut d'
  laid_lem lo =
      let n : (readsb d').ninodes ≡ ninodes = ap (λ (x : Superblock). x.ninodes) super in
      let z : (readsb d').size ≡ size = ap (λ (x : Superblock). x.size) super in
      record {
        small = omega (arith, z);
        fits = omega (arith, n, z);
        reserved = λ c le.
            let up : c < size = omega (arith, le, n, z) in
            let t : ltb c used ≡ true = ground (arith, le, n, z, lo) in used_lem c up ∙ rw t refl;
      }

-- With the superblock of mkfs, and when the file system's blocks before the data are counted as used,
-- `balloc` of mkfs leaves a disk that is laid out as the kernel's allocator needs it: a block of
-- the disk is in use exactly if its number is below `used`. In particular the log's blocks, the last
-- 30, are free for the allocator if the files leave some data block over.
pub used-test_bit :
    (used : ℕ) (d : Blocks)
    → readsb d ≡ made_super
    → first_free ≤ used
    → used < 4096
    → (d' : Blocks) × (balloc used d ≡ ok d')
      × IsLaidOut d'
      × (readsb d' ≡ made_super)
      × ((c : ℕ) → c < size → usage d' c ≡ (if ltb c used then 1 else 0))
      × (used ≤ size - nlog → (c : ℕ) → size - nlog ≤ c → c < size → usage d' c ≡ 0)
unfolding balloc wsect
used-test_bit used d sb lo hi =
    let t : ltb used (512 * 8) ≡ true = ground arith in
    (
      d' used d sb,
      rw t refl,
      laid_lem used d sb lo,
      super used d sb,
      used_lem used d sb,
      λ le c from lt.
          let f : ltb c used ≡ false = ground arith in used_lem used d sb c lt ∙ rw f refl,
    )
