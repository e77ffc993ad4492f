-- ===== src/Icache.antt =====
-- The cache of inodes in memory of fs.c. A function runs with `icache.lock` held up to where it
-- returns or sleeps. What `ilock` reads through the block layer is the argument `on_disk`, which
-- gives the disk's copy of an inode by device and number. An inode is its slot in the cache.
pub mod Get
pub mod Flags
mod Tests
use rain_os.Common.{
  ℕ, zero, suc, ◌+◌, ◌-◌, Bool, true, false, not, ◌&&◌, ◌||◌, Option, none, some, Outcome, ok,
  panic, ◌==◌, ltb, if◌then◌else◌, update, find_index,
}

abbrev pub ninode : ℕ
ninode = 50

-- What the disk and the cache both hold of an inode: `struct dinode`.
pub record Dinode : Type 0 where
  pub kind : ℕ
  pub major : ℕ
  pub minor : ℕ
  pub nlink : ℕ
  pub size : ℕ
  pub addrs : ℕ → ℕ

-- `struct inode`, with the flags I_BUSY and I_VALID; `copy` is its copy of the disk inode.
pub record Inode : Type 0 where
  pub dev : ℕ
  pub inum : ℕ
  pub ref : ℕ
  pub busy : Bool
  pub valid : Bool
  pub copy : Dinode

abbrev pub Icache : Type 0
Icache = ℕ → Inode

abbrev pub is_cached : (dev inum : ℕ) → Icache → ℕ → Bool
is_cached dev inum c i = ltb 0 (c i).ref && ((c i).dev == dev && (c i).inum == inum)

abbrev pub is_empty : Icache → ℕ → Bool
is_empty c i = (c i).ref == 0

-- `iget`: the inode's slot and the cache. Its loop remembers the first empty slot until it finds
-- the inode, and ends without it, so it is two searches.
unfoldable pub iget : (dev inum : ℕ) → Icache → Outcome (ℕ × Icache)
iget dev inum c = elim (find_index (is_cached dev inum c) ninode 0) [
  | some i ↦ ok (i, update c i (record (c i) { ref = (c i).ref + 1 }))
  | none ↦ elim (find_index (is_empty c) ninode 0) [
    | none ↦ panic
    | some i ↦ ok (
      i,
      update c i (record (c i) { dev = dev; inum = inum; ref = 1; busy = false; valid = false }),
    )
  ]
]

unfoldable pub idup : ℕ → Icache → Icache
idup i c = update c i (record (c i) { ref = (c i).ref + 1 })

-- `locked`: returns with the inode locked. `sleeping`: waits for the holder of I_BUSY.
pub data Lock : Type 0 where
  locked : Icache → Lock
  sleeping failed : Lock

-- `ilock`, of an inode that is not null; `failed` is a panic.
unfoldable pub ilock : (on_disk : ℕ → ℕ → Dinode) → ℕ → Icache → Lock
ilock on_disk i c =
    if ltb (c i).ref 1
    then failed
    else if (c i).busy
    then sleeping
    else if (c i).valid
    then locked (update c i (record (c i) { busy = true }))
    else (let d = on_disk (c i).dev (c i).inum in
        if d.kind == 0
        then failed
        else locked (update c i (record (c i) { busy = true; valid = true; copy = d })))

-- `iunlock`, of an inode that is not null.
unfoldable pub iunlock : ℕ → Icache → Outcome Icache
iunlock i c =
    if not (c i).busy || ltb (c i).ref 1
    then panic
    else ok (update c i (record (c i) { busy = false; valid = false }))

-- `dropped`: the reference is given up. `freed`: before that, the inode's blocks were freed and
-- its disk copy was cleared. A count that is 0 already is not lowered further here; the callers
-- hold a reference.
pub data Put : Type 0 where
  dropped : Icache → Put
  freed : Icache → Put
  crashed : Put

-- `iput`; what `itrunc` leaves in the inode is size 0 and no block.
unfoldable pub iput : ℕ → Icache → Put
iput i c =
    if (c i).ref == 1 && ((c i).valid && (c i).copy.nlink == 0)
    then if (c i).busy
      then crashed
      else freed (
          update c i (record (c i) {
            ref = 0;
            busy = false;
            valid = false;
            copy = record ((c i).copy) { kind = 0; size = 0; addrs = λ k. 0 };
          }))
    else dropped (update c i (record (c i) { ref = (c i).ref - 1 }))

-- `iunlockput`.
pub iunlockput : ℕ → Icache → Put
unfolding iunlock iput
iunlockput i c = elim (iunlock i c) [ panic ↦ crashed | ok c' ↦ iput i c' ]
