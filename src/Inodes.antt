-- ===== src/Inodes.antt =====
-- The inodes on the disk (fs.c): where they lie, `iupdate`, `ialloc`, and the read of `ilock`.
-- `Blocks` is what `bread` returns of every block, as in Bitmap.antt.
pub mod Layout
pub mod Alloc
mod Tests
use rain_os.Common.{
  ℕ, zero, suc, ◌+◌, ◌-◌, ◌/◌, ◌%◌, ◌*◌, Bool, true, false, Option, none, some, Outcome, ok, panic,
  ◌==◌, ltb, leb, ◌&&◌, if◌then◌else◌, update, int_at, put_int, short_at, put_short,
}
use rain_os.Bitmap.{Blocks, Superblock, readsb}
use rain_os.Icache.{Dinode, Icache, iget}

-- `IPB` and `sizeof(struct dinode)`.
abbrev pub ipb : ℕ
ipb = 8

abbrev pub dinode_size : ℕ
dinode_size = 64

-- `IBLOCK(i)`.
abbrev pub iblock : ℕ → ℕ
iblock i = i / ipb + 2

-- `(struct dinode*)bp->data + inum%IPB`.
abbrev pub ioff : ℕ → ℕ
ioff i = i % ipb * dinode_size

unfoldable pub dinode_at : (ℕ → ℕ) → ℕ → Dinode
dinode_at b o = record {
  kind = short_at b o;
  major = short_at b (o + 2);
  minor = short_at b (o + 4);
  nlink = short_at b (o + 6);
  size = int_at b (o + 8);
  addrs = λ k. int_at b (o + 12 + 4 * k);
}

-- The inode that `ilock` reads.
unfoldable pub read_inode : Blocks → ℕ → Dinode
read_inode d inum = dinode_at (d (iblock inum)) (ioff inum)

-- `memmove` of `k` block addresses.
pub put_addrs : (k : ℕ) → (ℕ → ℕ) → (o : ℕ) → (ℕ → ℕ) → ℕ → ℕ
put_addrs zero b o f = b
put_addrs (suc k) b o f = put_int (put_addrs k b o f) (o + 4 * k) (f k)

pub put_dinode : (ℕ → ℕ) → ℕ → Dinode → ℕ → ℕ
unfolding put_addrs
put_dinode b o ip =
    let b1 = put_short b o ip.kind in
    let b2 = put_short b1 (o + 2) ip.major in
    let b3 = put_short b2 (o + 4) ip.minor in
    let b4 = put_short b3 (o + 6) ip.nlink in
    put_addrs 13 (put_int b4 (o + 8) ip.size) (o + 12) ip.addrs

unfoldable pub iupdate : ℕ → Dinode → Blocks → Blocks
iupdate inum ip d = update d (iblock inum) (put_dinode (d (iblock inum)) (ioff inum) ip)

-- `memset(dip, 0, sizeof(*dip)); dip->type = type;`
pub clear_dinode : (ℕ → ℕ) → ℕ → ℕ → ℕ → ℕ
clear_dinode b o type =
    put_short (λ i. if leb o i && ltb i (o + dinode_size) then 0 else b i) o type

-- The loop of `ialloc` with `k` rounds left at `inum`: the first free inode.
pub find_inode : (k inum : ℕ) → Blocks → Option ℕ
unfolding dinode_at read_inode
find_inode zero inum d = none
find_inode (suc k) inum d =
    let rest = find_inode k (inum + 1) d in
    if (read_inode d inum).kind == 0 then some inum else rest

-- The slot of the new inode in the cache, the cache and the disk.
pub ialloc : (dev type : ℕ) → Blocks → Icache → Outcome (ℕ × Icache × Blocks)
unfolding find_inode clear_dinode
ialloc dev type d c = elim (find_inode ((readsb d).ninodes - 1) 1 d) [
  | none ↦ panic
  | some inum ↦
      let d' = update d (iblock inum) (clear_dinode (d (iblock inum)) (ioff inum) type) in
      elim (iget dev inum c) [ panic ↦ panic | ok (i, c') ↦ ok (i, c', d') ]
]
