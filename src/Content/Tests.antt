-- ===== src/Content/Tests.antt =====
-- Files on a disk of 8 blocks: 8 inodes, the bitmap in block 4, and block 5 as the first block of
-- a file of 100 bytes.
use rain_os.Common.{
  ℕ, zero, suc, ◌+◌, ◌-◌, ◌≤◌, ◌<◌, ◌≡◌, ◌≢◌, ◌⊎◌, refl, ap, ◌∙◌, arith, false, ◌==◌, if◌then◌else◌,
  List, [], ◌∷◌, min, word,
}
use rain_os.Bitmap.{Blocks, readsb}
use rain_os.Bitmap.Bits.{usage}
use rain_os.Bitmap.Alloc.{IsLaidOut}
use rain_os.Icache.{Dinode}
use rain_os.Content.{slice, readi, failed, done, writei, written, broken}
use rain_os.Content.Map.{slot, IsOwned}
use rain_os.Content.Read.{byte_at, IsFile, readi_lem}
use rain_os.Content.RoundTrip.{readi-writei}

abbrev disk : Blocks
disk b i =
    if b == 1
    then if i == 0 then 8 else if i == 8 then 8 else 0
    else if b == 4
    then if i == 0 then 63 else 0
    else 0

abbrev file : Dinode
file = record {
  kind = 2;
  major = 0;
  minor = 0;
  nlink = 1;
  size = 100;
  addrs = λ k. if k == 0 then 5 else 0;
}

disk-IsLaidOut : IsLaidOut disk
unfolding readsb
disk-IsLaidOut = record { small = omega arith; fits = omega arith; reserved = λ c le. at c le }
  where
    at : (c : ℕ) → c ≤ 4 → usage disk c ≡ 1
    at zero le = refl
    at (suc zero) le = refl
    at (suc (suc zero)) le = refl
    at (suc (suc (suc zero))) le = refl
    at (suc (suc (suc (suc zero)))) le = refl
    at (suc (suc (suc (suc (suc c))))) le = absurd (omega arith)

-- The file has one block.
one_slot : (k : ℕ) → slot file disk k ≢ 0 → (k ≡ 0) × (slot file disk k ≡ 5)
one_slot k ne = ground arith

disk-IsOwned : IsOwned (slot file disk) disk
unfolding readsb
disk-IsOwned = record {
  lower = λ k lt ne. omega (arith, (one_slot k ne).1);
  upper = λ k lt ne. omega (arith, (one_slot k ne).1);
  used = λ k lt ne. ap (usage disk) ((one_slot k ne).1);
  once = λ k l lk ll ne q. omega (arith, (one_slot k ne).0, (one_slot l (λ z. ne (q ∙ z))).0);
}

file-IsFile : IsFile file disk
file-IsFile = record {
  regular = λ q. absurd (omega arith);
  owned = disk-IsOwned;
  laid = disk-IsLaidOut;
  bounded = omega arith;
  whole = λ n lt. let z : n ≡ 0 = omega arith in ground arith;
}

readi_lem_example :
    (90 ≤ 100
      → 90 + 20 < word
      → readi (λ m. false) file 90 20 disk
        ≡ done (slice (min 20 (100 - 90)) 90 (byte_at file disk)) file disk)
    × ((100 < 90) ⊎ (word ≤ 90 + 20) → readi (λ m. false) file 90 20 disk ≡ failed)
readi_lem_example = readi_lem (λ m. false) file 90 20 disk file-IsFile (omega arith) (omega arith)

inodes-disk : (readsb disk).ninodes ≡ 8
unfolding readsb
inodes-disk = refl

abbrev greeting : List ℕ
greeting = 104 ∷ 105 ∷ []

readi-writei_example :
    ((ip' : Dinode) × (d' : Blocks) × (writei (λ m. false) 3 file 100 greeting disk
        ≡ written ip' d')
      × (readi (λ m. false) ip' 100 2 d' ≡ done greeting ip' d'))
    ⊎ (writei (λ m. false) 3 file 100 greeting disk ≡ broken)
readi-writei_example =
    readi-writei (λ m. false) (λ m. false) 3 file 100 greeting disk file-IsFile
      (omega (arith, inodes-disk)) (omega arith) (omega arith)
