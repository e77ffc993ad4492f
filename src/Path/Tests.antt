-- ===== src/Path/Tests.antt =====
-- A root directory, inode 1, with the file "a", inode 7, and the path "/a" at 100.
use rain_os.Common.{
  ℕ, ◌≡◌, inl, refl, arith, false, Option, none, some, ◌==◌, if◌then◌else◌, find_index,
}
use rain_os.String.{memmove, strncmp}
use rain_os.Bitmap.{Blocks}
use rain_os.Icache.{Inode, iget, ilock, iunlock, iput}
use rain_os.Inodes.{read_inode, dinode_at}
use rain_os.Content.{slice, splice, readi, read_from, bmap, own_addr}
use rain_os.Directory.{dirlookup, find_entry, namecmp, skip_while, skipelem}
use rain_os.Path.{
  World, Step, done, get, lock, unlock, put, unlock_put, next_elem, lookup, ended, descend, examine,
  enter, walk, namex,
}
use rain_os.Path.Ensures.{Ensures}
use rain_os.Path.Loop.{Walked}
use rain_os.Path.Walk.{namex_lem}

abbrev disk : Blocks
disk b i =
    if b == 2
    then if i == 64
      then 1
      else if i == 72
      then 32
      else if i == 76
      then 5
      else if i == 448
      then 2
      else 0
    else if b == 5
    then if i == 0 then 7 else if i == 2 then 97 else 0
    else 0

abbrev free_slot : Inode
free_slot = record {
  dev = 0;
  inum = 0;
  ref = 0;
  busy = false;
  valid = false;
  copy = record { kind = 0; major = 0; minor = 0; nlink = 0; size = 0; addrs = λ k. 0 };
}

abbrev world : World
world = record {
  cache = λ i. free_slot;
  disk = disk;
  mem = λ a. if a == 100 then 47 else if a == 101 then 97 else 0;
}

namex_lem_example :
    Ensures
      (namex (λ m. false) 3 false 0 100 400 500 world)
      (Walked (λ j. (world.cache j).ref) 400 world.mem)
namex_lem_example =
    namex_lem (λ m. false) 3 false 0 100 2 400 500 world (λ j. (refl, refl)) refl
      (inl (omega arith)) (omega arith)

-- The slot that is returned, and the references of slots 0 and 1.
abbrev outcome : Step (Option ℕ) → Option ℕ × ℕ × ℕ
outcome (done f w) = (f, (w.cache 0).ref, (w.cache 1).ref)
outcome _ = (none, 9, 9)

test-namex : outcome (namex (λ m. false) 3 false 0 100 400 500 world) ≡ (some 1, 0, 1)
unfolding namex walk get next_elem enter examine descend lock unlock unlock_put put lookup ended
    iget ilock iunlock iput find_index skipelem skip_while memmove strncmp dirlookup find_entry
    namecmp readi read_from bmap own_addr slice splice read_inode dinode_at
test-namex = refl
