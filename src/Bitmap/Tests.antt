-- ===== src/Bitmap/Tests.antt =====
-- The allocator on a disk of 8 blocks: a superblock, a block of inodes, the bitmap in block 3.
use rain_os.Common.{
  ℕ, zero, suc, ◌≤◌, ◌<◌, ◌≡◌, ◌≢◌, ◌⊎◌, refl, arith, ok, panic, ◌==◌, if◌then◌else◌,
}
use rain_os.Bitmap.{Blocks, readsb, bblock, balloc, bfree}
use rain_os.Bitmap.Bits.{usage}
use rain_os.Bitmap.Alloc.{last_meta, IsLaidOut, IsChanged, balloc_lem, bfree_lem}

-- Blocks 0 to 4 are in use.
abbrev disk : Blocks
disk b i =
    if b == 1 then if i == 0 then 8 else 0 else if b == 3 then if i == 0 then 31 else 0 else 0

disk-IsLaidOut : IsLaidOut disk
unfolding readsb
disk-IsLaidOut = record { small = omega arith; fits = omega arith; reserved = λ c le. at c le }
  where
    at : (c : ℕ) → c ≤ 3 → usage disk c ≡ 1
    at zero le = refl
    at (suc zero) le = refl
    at (suc (suc zero)) le = refl
    at (suc (suc (suc zero))) le = refl
    at (suc (suc (suc (suc c)))) le = absurd (omega arith)

balloc_lem_example :
    ((a : ℕ) × (d' : Blocks) × (balloc disk ≡ ok (a, d'))
      × (last_meta disk < a)
      × (a < (readsb disk).size)
      × (usage disk a ≡ 0)
      × ((c : ℕ) → c < a → usage disk c ≡ 1)
      × IsChanged disk a 1 d'
      × IsLaidOut d'
      × ((i : ℕ) → d' a i ≡ 0))
    ⊎ ((balloc disk ≡ panic) × ((c : ℕ) → c < (readsb disk).size → usage disk c ≡ 1))
balloc_lem_example = balloc_lem disk disk-IsLaidOut

size-disk : (readsb disk).size ≡ 8
unfolding readsb
size-disk = refl

meta-disk : last_meta disk ≡ 3
unfolding readsb
meta-disk = refl

bfree_lem_example :
    ((usage disk 4 ≡ 0) × (bfree 4 disk ≡ panic))
    ⊎ ((usage disk 4 ≡ 1)
        × ((d' : Blocks) × (bfree 4 disk ≡ ok d')
            × IsChanged disk 4 0 d'
            × IsLaidOut d'
            × ((x : ℕ) → x ≢ bblock 4 (readsb disk).ninodes → d' x ≡ disk x)))
bfree_lem_example =
    bfree_lem disk 4 disk-IsLaidOut (omega (arith, meta-disk)) (omega (arith, size-disk))
