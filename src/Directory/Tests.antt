-- ===== src/Directory/Tests.antt =====
-- A directory of two entries in block 5 of a disk of 8 blocks: a free one, and "a" for inode 7.
use rain_os.Common.{
  ℕ, zero, suc, ◌/◌, ◌≤◌, ◌≡◌, ◌≢◌, ◌⊎◌, inl, refl, ap, ◌∙◌, arith, false, ◌==◌, ◌||◌,
  if◌then◌else◌, Option, none, some, find_index,
}
use rain_os.String.{Memory, memmove, strncmp}
use rain_os.Bitmap.{Blocks, readsb}
use rain_os.Bitmap.Bits.{usage}
use rain_os.Bitmap.Alloc.{IsLaidOut}
use rain_os.Icache.{Dinode}
use rain_os.Content.Map.{slot, IsOwned}
use rain_os.Content.Read.{IsFile}
use rain_os.Directory.{find_entry, namecmp, skipelem}
use rain_os.Content.{slice, splice}
use rain_os.Directory.Elements.{IsElement, IsNoElement, skipelem_lem}
use rain_os.Directory.Entries.{loaded, is_named, scanned, find_entry_lem}

abbrev disk : Blocks
disk b i =
    if b == 1
    then if i == 0 then 8 else if i == 8 then 8 else 0
    else if b == 4
    then if i == 0 then 63 else 0
    else if b == 5
    then if i == 16 then 7 else if i == 18 then 97 else 0
    else 0

abbrev dir : Dinode
dir = record {
  kind = 1;
  major = 0;
  minor = 0;
  nlink = 1;
  size = 32;
  addrs = λ k. if k == 0 then 5 else 0;
}

disk-IsLaidOut : IsLaidOut disk
unfolding readsb
disk-IsLaidOut = record { small = omega arith; fits = omega arith; reserved = λ c le. at c le }
  where
    at : (c : ℕ) → c ≤ 4 → usage disk c ≡ 1
    at zero le = refl
    at (suc zero) le = refl
    at (suc (suc zero)) le = refl
    at (suc (suc (suc zero))) le = refl
    at (suc (suc (suc (suc zero)))) le = refl
    at (suc (suc (suc (suc (suc c))))) le = absurd (omega arith)

one_slot : (k : ℕ) → slot dir disk k ≢ 0 → (k ≡ 0) × (slot dir disk k ≡ 5)
one_slot k ne = ground arith

disk-IsOwned : IsOwned (slot dir disk) disk
unfolding readsb
disk-IsOwned = record {
  lower = λ k lt ne. omega (arith, (one_slot k ne).1);
  upper = λ k lt ne. omega (arith, (one_slot k ne).1);
  used = λ k lt ne. ap (usage disk) ((one_slot k ne).1);
  once = λ k l lk ll ne q. omega (arith, (one_slot k ne).0, (one_slot l (λ z. ne (q ∙ z))).0);
}

-- The memory holds the path "a" at 100.
abbrev mem : Memory
mem a = if a == 100 then 97 else 0

dir-IsFile : IsFile dir disk
dir-IsFile = record {
  regular = λ q. absurd (omega arith);
  owned = disk-IsOwned;
  laid = disk-IsLaidOut;
  bounded = omega arith;
  whole = λ n lt. let z : n ≡ 0 = omega arith in ground arith;
}

find_entry_lem_example :
    find_entry (λ m. false) 3 100 200 0 dir disk mem
    ≡ scanned 200 dir disk
        (loaded 200 dir disk mem)
        (find_index (is_named 100 200 (loaded 200 dir disk mem)) (32 / 16) 0)
find_entry_lem_example =
    find_entry_lem (λ m. false) 3 100 200 dir disk mem dir-IsFile (omega arith) (omega arith)

-- "a" is entry 1.
index-a : find_index (is_named 100 200 (loaded 200 dir disk mem)) 2 0 ≡ some 1
unfolding find_index is_named loaded namecmp strncmp slice splice
index-a = refl

-- The paths "//ab/c" and "" at 300.
abbrev path : Memory
path a =
    if a == 300 || a == 301 || a == 304
    then 47
    else if a == 302
    then 97
    else if a == 303
    then 98
    else if a == 305
    then 99
    else 0

abbrev returned : Option (ℕ × Memory) → Option (ℕ × ℕ × ℕ × ℕ)
returned none = none
returned (some (p, m)) = some (p, m 400, m 401, m 402)

skipelem-first : returned (skipelem 9 300 400 path) ≡ some (305, 97, 98, 0)
unfolding skipelem memmove
skipelem-first = refl

skipelem-end : returned (skipelem 9 306 400 path) ≡ some (0, 0, 0, 0)
unfolding skipelem memmove
skipelem-end = refl

skipelem_lem_example :
    ((s : ℕ) × (skipelem 9 300 400 path ≡ some (0, path)) × IsNoElement 300 6 path s)
    ⊎ ((s e q : ℕ) × (m' : Memory) × (skipelem 9 300 400 path ≡ some (q, m'))
        × IsElement 300 6 400 path s e q m')
skipelem_lem_example = skipelem_lem 9 300 6 400 path refl (omega arith) (inl (omega arith))
