-- ===== src/Links/Tests.antt =====
-- The process's arguments are the addresses 100, of the path "/", and 110, of "/b"; the disk has a root
-- directory alone, inode 1, with a free entry.
use rain_os.Common.{
  ℕ, ◌≡◌, refl, arith, false, Option, none, some, ◌==◌, ◌||◌, if◌then◌else◌, find_index,
}
use rain_os.Bitmap.{Blocks}
use rain_os.Icache.{Inode, iget, ilock, iunlock, iput}
use rain_os.Inodes.{read_inode, dinode_at}
use rain_os.Syscall.{fetchint, find_nul, fetchstr, argint, argstr}
use rain_os.Directory.{skip_while, skipelem}
use rain_os.Path.{World, Step, done, get, lock, unlock, put, next_elem, ended, walk, namex, namei}
use rain_os.Path.Ensures.{Ensures}
use rain_os.Links.{sys_link, change_dir, enter_dir, sys_chdir}
use rain_os.Links.Enter.{Ends}
use rain_os.Links.Balance.{sys_link_lem}
use rain_os.Links.Chdir.{IsMovedTo, sys_chdir_lem}

abbrev disk : Blocks
disk b i =
    if b == 2 then if i == 64 then 1 else if i == 72 then 16 else if i == 76 then 5 else 0 else 0

-- Slot 3 is the working directory.
abbrev slot : ℕ → Inode
slot i = record {
  dev = 1;
  inum = 9;
  ref = if i == 3 then 1 else 0;
  busy = false;
  valid = false;
  copy = record { kind = 0; major = 0; minor = 0; nlink = 0; size = 0; addrs = λ k. 0 };
}

abbrev world : World
world = record {
  cache = slot;
  disk = disk;
  mem = λ a.
      if a == 204
      then 100
      else if a == 208
      then 110
      else if a == 100 || a == 110
      then 47
      else if a == 111
      then 98
      else 0;
}

sys_link_lem_example :
    Ensures
      (sys_link (λ m. false) (λ m. false) 256 256 200 3 400 500 world)
      (Ends (λ j. (world.cache j).ref) 400 world.mem)
sys_link_lem_example =
    sys_link_lem (λ m. false) (λ m. false) 256 256 200 3 400 500 world (λ j. (refl, refl))
      (omega arith) (omega arith)

sys_chdir_lem_example :
    Ensures
      (sys_chdir (λ m. false) (λ m. false) 256 256 200 3 400 500 world)
      (IsMovedTo (λ j. (world.cache j).ref) 3 400 world.mem)
sys_chdir_lem_example =
    sys_chdir_lem (λ m. false) (λ m. false) 256 256 200 3 400 500 world (λ j. (refl, refl))
      (omega arith) (omega arith)

-- The new working directory's slot, and the references of slots 0 and 3.
abbrev outcome : Step (Option ℕ) → Option ℕ × ℕ × ℕ
outcome (done f w) = (f, (w.cache 0).ref, (w.cache 3).ref)
outcome _ = (none, 9, 9)

test-sys_chdir :
    outcome (sys_chdir (λ m. false) (λ m. false) 256 256 200 3 400 500 world) ≡ (some 0, 1, 0)
unfolding sys_chdir enter_dir change_dir argstr argint fetchint fetchstr find_nul namei namex walk
    get next_elem lock unlock put ended skipelem skip_while iget ilock iunlock iput find_index
    read_inode dinode_at
test-sys_chdir = refl
