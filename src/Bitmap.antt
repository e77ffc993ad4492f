-- ===== src/Bitmap.antt =====
-- The allocator of disk blocks of fs.c: `balloc` and `bfree` on the bitmap. `Blocks` gives the
-- bytes of every block as `bread` returns them, and a `log_write` of a changed buffer is the change
-- of its block: later reads see it. Block numbers and sizes are below 2^31, so that the code's mix
-- of `int` and `uint` compares them as numbers.
pub mod Bits
pub mod Search
pub mod Alloc
mod Tests
use rain_os.Common.{
  ℕ, zero, suc, ◌+◌, ◌-◌, ◌/◌, ◌%◌, ◌^◌, ◌*◌, Bool, true, false, Option, none, some, Outcome, ok,
  panic, ◌==◌, ltb, if◌then◌else◌, update, int_at, bit,
}

abbrev pub Blocks : Type 0
Blocks = ℕ → ℕ → ℕ

-- `BPB`, the bits of a block.
abbrev pub bpb : ℕ
bpb = 4096

-- `struct superblock`.
pub record Superblock : Type 0 where
  pub size : ℕ
  pub nblocks : ℕ
  pub ninodes : ℕ
  pub nlog : ℕ

unfoldable pub readsb : Blocks → Superblock
readsb d = record {
  size = int_at (d 1) 0;
  nblocks = int_at (d 1) 4;
  ninodes = int_at (d 1) 8;
  nlog = int_at (d 1) 12;
}

-- `BBLOCK(b, ninodes)`, with 8 inodes to a block.
abbrev pub bblock : (b ninodes : ℕ) → ℕ
bblock b ninodes = b / bpb + ninodes / 8 + 3

pub bzero : ℕ → Blocks → Blocks
bzero bno d = update d bno (λ i. 0)

-- `data[bi/8] & (1 << (bi % 8))`, as 0 or 1.
abbrev pub test_bit : (ℕ → ℕ) → ℕ → ℕ
test_bit b bi = bit (b (bi / 8)) (bi % 8)

-- `data[bi/8] |= m` where the bit is clear, and `data[bi/8] &= ~m` where it is set.
pub set_bit : (ℕ → ℕ) → ℕ → ℕ → ℕ
set_bit b bi = update b (bi / 8) (b (bi / 8) + 2 ^ (bi % 8))

pub clear_bit : (ℕ → ℕ) → ℕ → ℕ → ℕ
clear_bit b bi = update b (bi / 8) (b (bi / 8) - 2 ^ (bi % 8))

-- The inner loop of `balloc` with `k` rounds left at `bi`.
pub find_bit : (k bi b size : ℕ) → (ℕ → ℕ) → Option ℕ
find_bit zero bi b size bytes = none
find_bit (suc k) bi b size bytes =
    let rest = find_bit k (bi + 1) b size bytes in
    if ltb (b + bi) size then if test_bit bytes bi == 0 then some bi else rest else none

-- The outer loop at `b`, with at most `k` rounds: the block found.
pub find_block : (k b : ℕ) → Blocks → Option ℕ
find_block zero b d = none
find_block (suc k) b d =
    let rest = find_block k (b + bpb) d in
    let sb = readsb d in
    if ltb b sb.size
    then elim (find_bit bpb 0 b sb.size (d (bblock b sb.ninodes))) [
      | some bi ↦ some (b + bi)
      | none ↦ rest
    ]
    else none

-- The block's bit is set in its block of the bitmap.
abbrev pub mark : (ℕ → ℕ) → ℕ → Blocks → Blocks
mark bytes bno d = update d bno bytes

pub balloc : Blocks → Outcome (ℕ × Blocks)
balloc d =
    let sb = readsb d in
    elim (find_block (sb.size / bpb + 1) 0 d) [
      | none ↦ panic
      | some a ↦
          let bno = bblock a sb.ninodes in ok (a, bzero a (mark (set_bit (d bno) (a % bpb)) bno d))
    ]

pub bfree : ℕ → Blocks → Outcome Blocks
bfree b d =
    let bno = bblock b (readsb d).ninodes in
    if test_bit (d bno) (b % bpb) == 0 then panic else ok (mark (clear_bit (d bno) (b % bpb)) bno d)
