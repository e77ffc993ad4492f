-- ===== src/Content.antt =====
-- The contents of files (fs.c): the map from a file's blocks to the disk's, truncation, reading and
-- writing. An inode is the cached copy that the caller has locked; `Blocks` is as in Bitmap.antt.
-- Addresses of user memory are not in the model: what is read is a list of bytes, and what is
-- written comes as one.
pub mod Map
pub mod Slots
pub mod Entry
pub mod Grow
pub mod Full
pub mod Read
pub mod Append
pub mod Step
pub mod Update
pub mod Loop
pub mod Write
pub mod RoundTrip
pub mod Size
mod Tests
use rain_os.Common.{
  ℕ, zero, suc, ◌+◌, ◌-◌, ◌*◌, ◌/◌, ◌%◌, ◌^◌, Bool, true, false, not, ◌&&◌, ◌||◌, Option, none,
  some, List, [], ◌∷◌, ◌++◌, Outcome, ok, panic, ◌>>=◌, ◌==◌, ltb, leb, if◌then◌else◌, update, word,
  add_word, int_at, put_int, length, take, drop, min,
}
use rain_os.Bitmap.{Blocks, balloc, bfree}
use rain_os.Icache.{Dinode}
use rain_os.Inodes.{iupdate}

abbrev pub bsize : ℕ
bsize = 512

abbrev pub ndirect : ℕ
ndirect = 12

abbrev pub nindirect : ℕ
nindirect = 128

abbrev pub set_addr : ℕ → ℕ → Dinode → Dinode
set_addr k a ip = record ip { addrs = update ip.addrs k a }

-- `if((addr = ip->addrs[k]) == 0) ip->addrs[k] = addr = balloc(ip->dev);`
unfoldable pub own_addr : ℕ → Dinode → Blocks → Outcome (ℕ × Dinode × Blocks)
own_addr k ip d =
    if ip.addrs k == 0
    then elim (balloc d) [ panic ↦ panic | ok (a, d') ↦ ok (a, set_addr k a ip, d') ]
    else ok (ip.addrs k, ip, d)

-- `bmap` in the indirect block `addr`.
pub own_entry : (addr bn : ℕ) → Dinode → Blocks → Outcome (ℕ × Dinode × Blocks)
own_entry addr bn ip d =
    if int_at (d addr) (4 * bn) == 0
    then elim (balloc d) [
      | panic ↦ panic
      | ok (a, d') ↦ ok (a, ip, update d' addr (put_int (d' addr) (4 * bn) a))
    ]
    else ok (int_at (d addr) (4 * bn), ip, d)

unfoldable pub bmap : ℕ → Dinode → Blocks → Outcome (ℕ × Dinode × Blocks)
bmap bn ip d =
    if ltb bn ndirect
    then own_addr bn ip d
    else if ltb (bn - ndirect) nindirect
    then elim (own_addr ndirect ip d) [
      | panic ↦ panic
      | ok (addr, ip', d') ↦ own_entry addr (bn - ndirect) ip' d'
    ]
    else panic

-- The loop of `itrunc` over the direct blocks, with `k` rounds left at `i`.
pub free_direct : (k i : ℕ) → Dinode → Blocks → Outcome (Dinode × Blocks)
free_direct zero i ip d = ok (ip, d)
free_direct (suc k) i ip d =
    let kept = free_direct k (i + 1) ip d in
    let freed = λ (d' : Blocks). free_direct k (i + 1) (set_addr i 0 ip) d' in
    if ip.addrs i == 0
    then kept
    else elim (bfree (ip.addrs i) d) [ panic ↦ panic | ok d' ↦ freed d' ]

-- Its loop over the entries `a` of the indirect block.
pub free_entries : (k j : ℕ) → (a : ℕ → ℕ) → Blocks → Outcome Blocks
free_entries zero j a d = ok d
free_entries (suc k) j a d =
    let kept = free_entries k (j + 1) a d in
    let freed = λ (d' : Blocks). free_entries k (j + 1) a d' in
    if int_at a (4 * j) == 0
    then kept
    else elim (bfree (int_at a (4 * j)) d) [ panic ↦ panic | ok d' ↦ freed d' ]

pub free_indirect : Dinode → Blocks → Outcome (Dinode × Blocks)
free_indirect ip d =
    let addr = ip.addrs ndirect in
    if addr == 0 then ok (ip, d) else elim (free_entries nindirect 0 (d addr) d) [
      | panic ↦ panic
      | ok d1 ↦ elim (bfree addr d1) [ panic ↦ panic | ok d2 ↦ ok (set_addr ndirect 0 ip, d2) ]
    ]

pub itrunc : (inum : ℕ) → Dinode → Blocks → Outcome (Dinode × Blocks)
itrunc inum ip d = elim (free_direct ndirect 0 ip d) [
  | panic ↦ panic
  | ok (ip1, d1) ↦ elim (free_indirect ip1 d1) [
    | panic ↦ panic
    | ok (ip2, d2) ↦ let ip3 = record ip2 { size = 0 } in ok (ip3, iupdate inum ip3 d2)
  ]
]

-- `m` bytes of a block from `i`.
unfoldable pub slice : (m i : ℕ) → (ℕ → ℕ) → List ℕ
slice zero i b = []
slice (suc m) i b = b i ∷ slice m (i + 1) b

-- The block with `xs` written at `i`.
unfoldable pub splice : (i : ℕ) → List ℕ → (ℕ → ℕ) → ℕ → ℕ
splice i [] b = b
splice i (x ∷ xs) b = splice (i + 1) xs (update b i x)

-- The loop of `readi` with `left` bytes to go at `off`. A round reads at least a byte, so the first
-- argument, the rounds at most, is `left` at the start.
unfoldable pub read_from :
    (rounds left off : ℕ) → Dinode → Blocks → Outcome (List ℕ × Dinode × Blocks)
read_from zero left off ip d = ok ([], ip, d)
read_from (suc k) left off ip d =
    let m = min left (bsize - off % bsize) in
    let rest = λ (ip' : Dinode) (d' : Blocks). read_from k (left - m) (off + m) ip' d' in
    if left == 0 then ok ([], ip, d) else elim (bmap (off / bsize) ip d) [
      | panic ↦ panic
      | ok (a, ip', d') ↦ elim (rest ip' d') [
        | panic ↦ panic
        | ok (bytes, ip'', d'') ↦ ok (slice m (off % bsize) (d' a) ++ bytes, ip'', d'')
      ]
    ]

-- `by_device`: what `devsw[major].read` returns. `failed`: returns -1.
pub data Readi : Type 0 where
  by_device : (major n : ℕ) → Readi
  failed crashed : Readi
  done : List ℕ → Dinode → Blocks → Readi

-- `T_DEV` and `NDEV`; a negative `major` is a pattern above `NDEV`.
abbrev pub t_dev : ℕ
t_dev = 3

abbrev pub ndev : ℕ
ndev = 10

unfoldable pub readi : (has_read : ℕ → Bool) → Dinode → (off n : ℕ) → Blocks → Readi
readi has_read ip off n d =
    if ip.kind == t_dev
    then if leb ndev ip.major || not (has_read ip.major) then failed else by_device ip.major n
    else if ltb ip.size off || ltb (add_word off n) off
    then failed
    else (let n' = if ltb ip.size (add_word off n) then ip.size - off else n in
        elim (read_from n' n' off ip d) [
          | panic ↦ crashed
          | ok (bytes, ip', d') ↦ done bytes ip' d'
        ])

-- The loop of `writei` with `bytes` to go at `off`, as many rounds at most at the start.
pub write_from : (rounds : ℕ) → List ℕ → (off : ℕ) → Dinode → Blocks → Outcome (Dinode × Blocks)
write_from zero bytes off ip d = ok (ip, d)
write_from (suc k) bytes off ip d =
    let m = min (length bytes) (bsize - off % bsize) in
    let rest = λ (ip' : Dinode) (d' : Blocks). write_from k (drop m bytes) (off + m) ip' d' in
    if length bytes == 0 then ok (ip, d) else elim (bmap (off / bsize) ip d) [
      | panic ↦ panic
      | ok (a, ip', d') ↦ rest ip' (update d' a (splice (off % bsize) (take m bytes) (d' a)))
    ]

-- `MAXFILE*BSIZE`.
abbrev pub max_size : ℕ
max_size = 71680

-- `written`: returns n.
pub data Writei : Type 0 where
  dev_write : (major n : ℕ) → Writei
  refused broken : Writei
  written : Dinode → Blocks → Writei

pub writei : (has_write : ℕ → Bool) → (inum : ℕ) → Dinode → (off : ℕ) → List ℕ → Blocks → Writei
writei has_write inum ip off bytes d =
    let n = length bytes in
    if ip.kind == t_dev
    then if leb ndev ip.major || not (has_write ip.major) then refused else dev_write ip.major n
    else if ltb ip.size off || ltb (add_word off n) off
    then refused
    else if ltb max_size (add_word off n)
    then refused
    else elim (write_from n bytes off ip d) [
      | panic ↦ broken
      | ok (ip', d') ↦
          let ip'' = record ip' { size = off + n } in
          if ltb 0 n && ltb ip'.size (off + n)
          then written ip'' (iupdate inum ip'' d')
          else written ip' d'
    ]
