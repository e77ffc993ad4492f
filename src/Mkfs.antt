-- ===== src/Mkfs.antt =====
-- The image builder, mkfs.c: an image is the bytes of its sectors, with the program's counters. The
-- numbers in it are stored low byte first, which is what `xint` and `xshort` are for. A failed assert
-- is `panic`; the host's files are lists of what `read` returns, and its errors are left out.
pub mod Usage
mod Tests
use rain_os.Common.{
  ℕ, zero, suc, ◌+◌, ◌-◌, ◌*◌, ◌/◌, ◌%◌, ◌^◌, Bool, true, false, not, ◌||◌, ◌&&◌, List, [], ◌∷◌,
  ◌++◌, length, take, drop, replicate, Outcome, ok, panic, ◌>>=◌, ◌==◌, ltb, leb, if◌then◌else◌,
  update, int_at, put_int, min,
}
use rain_os.Bitmap.{Blocks, test_bit, set_bit}
use rain_os.Icache.{Dinode}
use rain_os.Inodes.{dinode_at, put_dinode}
use rain_os.Content.{splice}

-- `size`, `nblocks`, `nlog` and `ninodes`.
abbrev pub size : ℕ
size = 1024

abbrev pub nlog : ℕ
nlog = 30

abbrev pub nblocks : ℕ
nblocks = 995 - nlog

abbrev pub ninodes : ℕ
ninodes = 200

-- `bitblocks`, and `usedblocks` at the start.
abbrev pub bitblocks : ℕ
bitblocks = size / 4096 + 1

abbrev pub first_free : ℕ
first_free = ninodes / 8 + 3 + bitblocks

pub record Image : Type 0 where
  pub disk : Blocks
  pub freeblock : ℕ
  pub usedblocks : ℕ
  pub freeinode : ℕ

pub wsect : ℕ → (ℕ → ℕ) → Blocks → Blocks
wsect sec buf d = update d sec buf

abbrev pub i2b : ℕ → ℕ
i2b inum = inum / 8 + 2

pub winode : (inum : ℕ) → Dinode → Blocks → Blocks
unfolding wsect
winode inum ip d = wsect (i2b inum) (put_dinode (d (i2b inum)) (inum % 8 * 64) ip) d

pub rinode : (inum : ℕ) → Blocks → Dinode
rinode inum d = dinode_at (d (i2b inum)) (inum % 8 * 64)

pub ialloc : (kind : ℕ) → Image → ℕ × Image
unfolding winode
ialloc kind img =
    let din : Dinode = record {
      kind = kind;
      major = 0;
      minor = 0;
      nlink = 1;
      size = 0;
      addrs = λ k. 0;
    } in
    (
      img.freeinode,
      record img { freeinode = img.freeinode + 1; disk = winode img.freeinode din img.disk },
    )

-- `buf[i/8] = buf[i/8] | (0x1 << (i%8))`.
pub or_bit : (ℕ → ℕ) → ℕ → ℕ → ℕ
or_bit b i = if test_bit b i == 0 then set_bit b i else b

-- The loop of `balloc` with `k` rounds left at `i`.
pub mark_from : (k i : ℕ) → (ℕ → ℕ) → ℕ → ℕ
unfolding or_bit
mark_from zero i b = b
mark_from (suc k) i b = mark_from k (i + 1) (or_bit b i)

pub balloc : (used : ℕ) → Blocks → Outcome Blocks
unfolding mark_from wsect
balloc used d =
    if not (ltb used (512 * 8))
    then panic
    else ok (wsect (ninodes / 8 + 3) (mark_from used 0 (λ i. 0)) d)

abbrev pub take_block : Image → ℕ × Image
take_block img =
    (img.freeblock, record img { freeblock = img.freeblock + 1; usedblocks = img.usedblocks + 1 })

-- The block that `iappend` writes to, taken if the file has none there.
pub block_for : (fbn : ℕ) → Dinode → Image → Outcome (ℕ × Dinode × Image)
unfolding wsect
block_for fbn din img =
    let (direct, direct_img) = take_block img in
    let (ind, din', img') : ℕ × Dinode × Image =
      if din.addrs 12 == 0
      then (direct, record din { addrs = update din.addrs 12 direct }, direct_img)
      else (din.addrs 12, din, img) in
    let slot = 4 * (fbn - 12) in
    let (entry, entry_img) = take_block img' in
    if not (ltb fbn 140)
    then panic
    else if ltb fbn 12
    then if din.addrs fbn == 0
      then ok (direct, record din { addrs = update din.addrs fbn direct }, direct_img)
      else ok (din.addrs fbn, din, img)
    else if int_at (img'.disk ind) slot == 0
    then ok (
      entry,
      din',
      record entry_img { disk = wsect ind (put_int (img'.disk ind) slot entry) img'.disk },
    )
    else ok (int_at (img'.disk ind) slot, din', img')

-- The loop of `iappend` at `off`, with at most as many rounds as there are bytes.
pub append_from : (rounds off : ℕ) → List ℕ → Dinode → Image → Outcome (ℕ × Dinode × Image)
unfolding block_for
append_from zero off bytes din img = ok (off, din, img)
append_from (suc k) off bytes din img =
    let fbn = off / 512 in
    let n1 = min (length bytes) ((fbn + 1) * 512 - off) in
    if length bytes == 0 then ok (off, din, img) else elim (block_for fbn din img) [
      | panic ↦ panic
      | ok (x, din', img') ↦ append_from k (off + n1) (drop n1 bytes) din' (record img' {
        disk = wsect x (splice (off - fbn * 512) (take n1 bytes) (img'.disk x)) img'.disk;
      })
    ]

pub iappend : (inum : ℕ) → List ℕ → Image → Outcome Image
unfolding append_from rinode winode
iappend inum bytes img =
    let din = rinode inum img.disk in
    elim (append_from (length bytes) din.size bytes din img) [
      | panic ↦ panic
      | ok (off, din', img') ↦
          ok (record img' { disk = winode inum (record din' { size = off }) img'.disk })
    ]

-- A `struct dirent` with the name padded by zeros to 14 bytes.
abbrev pub dirent : (inum : ℕ) → List ℕ → List ℕ
dirent inum name = inum % 256 ∷ (inum / 256 % 256 ∷ take 14 (name ++ replicate 14 0))

-- A file of the host: its name, and what its reads return.
pub record HostFile : Type 0 where
  pub name : List ℕ
  pub reads : List (List ℕ)

pub has_slash : List ℕ → Bool
has_slash [] = false
has_slash (c ∷ cs) = c == 47 || has_slash cs

abbrev pub without_underscore : List ℕ → List ℕ
without_underscore [] = []
without_underscore (c ∷ cs) = if c == 95 then cs else c ∷ cs

pub append_all : (inum : ℕ) → List (List ℕ) → Image → Outcome Image
unfolding iappend
append_all inum [] img = ok img
append_all inum (bs ∷ reads) img = elim (iappend inum bs img) [
  | panic ↦ panic
  | ok img' ↦ append_all inum reads img'
]

-- `T_DIR` and `T_FILE`.
abbrev pub t_dir : ℕ
t_dir = 1

abbrev pub t_file : ℕ
t_file = 2

-- The loop of `main` over its files.
pub add_files : (root : ℕ) → List HostFile → Image → Outcome Image
unfolding has_slash append_all ialloc
add_files root [] img = ok img
add_files root (f ∷ fs) img =
    let (inum, img1) = ialloc t_file img in
    elim (has_slash f.name) [
      | true ↦ panic
      | false ↦ elim (iappend root (dirent inum (without_underscore f.name)) img1) [
        | panic ↦ panic
        | ok img2 ↦ elim (append_all inum f.reads img2) [
          | panic ↦ panic
          | ok img3 ↦ add_files root fs img3
        ]
      ]
    ]

-- The zeroed disk with its superblock.
pub initial : Image
unfolding wsect
initial = record {
  disk =
      wsect 1 (put_int (put_int (put_int (put_int (λ i. 0) 0 size) 4 nblocks) 8 ninodes) 12 nlog)
        (λ b i. 0);
  freeblock = first_free;
  usedblocks = first_free;
  freeinode = 1;
}

-- `main`, from the zeroed disk on.
pub make : List HostFile → Outcome Blocks
unfolding initial ialloc iappend add_files balloc
make files =
    let (root, img) = ialloc t_dir initial in
    if not (root == 1)
    then panic
    else (iappend root (dirent root (46 ∷ [])) img >>= λ img1.
        iappend root (dirent root (46 ∷ (46 ∷ []))) img1 >>= λ img2.
        add_files root files img2 >>= λ img3.
        let din = rinode root img3.disk in
        let d = winode root (record din { size = (din.size / 512 + 1) * 512 }) img3.disk in
        balloc img3.usedblocks d)
