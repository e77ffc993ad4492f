-- ===== src/Inodes/Tests.antt =====
-- Inodes on a small disk: 16 inodes, of which inode 1 is the root directory.
use rain_os.Common.{ℕ, ◌≤◌, ◌<◌, ◌≡◌, ◌≢◌, ◌⊎◌, arith, false, ok, panic, ◌==◌, if◌then◌else◌}
use rain_os.Bitmap.{Blocks, readsb}
use rain_os.Icache.{Dinode, Icache, iget}
use rain_os.Inodes.{read_inode, iupdate, ialloc}
use rain_os.Inodes.Layout.{IsDinode, Same, iupdate_lem}
use rain_os.Inodes.Alloc.{IsAllocated, ialloc_lem}

abbrev disk : Blocks
disk b i =
    if b == 1 then if i == 8 then 16 else 0 else if b == 2 then if i == 64 then 1 else 0 else 0

abbrev file : Dinode
file = record {
  kind = 2;
  major = 0;
  minor = 0;
  nlink = 1;
  size = 700;
  addrs = λ k. if k == 0 then 40 else if k == 1 then 41 else 0;
}

file-IsDinode : IsDinode file
file-IsDinode = record {
  kind = omega arith;
  major = omega arith;
  minor = omega arith;
  nlink = omega arith;
  size = omega arith;
  addrs = λ k lt. ground arith;
}

iupdate_lem_example :
    Same file (read_inode (iupdate 3 file disk) 3)
    × ((j : ℕ) → j ≢ 3 → Same (read_inode disk j) (read_inode (iupdate 3 file disk) j))
iupdate_lem_example = iupdate_lem 3 file disk file-IsDinode

-- An empty cache.
abbrev cache : Icache
cache i = record { dev = 0; inum = 0; ref = 0; busy = false; valid = false; copy = file }

ialloc_lem_example :
    ((i : ℕ) × (c' : Icache) × (d' : Blocks) × (ialloc 1 2 disk cache ≡ ok (i, c', d'))
      × IsAllocated 1 2 disk cache i c' d')
    ⊎ ((ialloc 1 2 disk cache ≡ panic)
        × (((j : ℕ) → 1 ≤ j → j < (readsb disk).ninodes → (read_inode disk j).kind ≢ 0)
            ⊎ ((n : ℕ) × (iget 1 n cache ≡ panic))))
ialloc_lem_example = ialloc_lem 1 2 disk cache (omega arith)
