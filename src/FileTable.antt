-- ===== src/FileTable.antt =====
-- The table of open files of file.c, with `pipealloc` of pipe.c. A file is its slot in the table.
-- What goes on in pipes and inodes is given back as a result or taken as an argument.
pub mod Refs
pub mod Undo
pub mod MakePipe
pub mod Write
mod Tests
use rain_os.Common.{
  ℕ, zero, suc, ◌+◌, ◌-◌, ◌*◌, Bool, true, false, not, Option, none, some, Outcome, ok, panic, ◌==◌,
  ltb, if◌then◌else◌, update, find_index, add_word,
}

abbrev pub nfile : ℕ
nfile = 100

pub data Kind : Type 0 where
  fd_none fd_pipe fd_inode : Kind

-- `struct file`.
pub record File : Type 0 where
  pub kind : Kind
  pub ref : ℕ
  pub readable : Bool
  pub writable : Bool
  pub pipe : ℕ
  pub ip : ℕ
  pub off : ℕ

abbrev pub Ftable : Type 0
Ftable = ℕ → File

abbrev pub is_free : Ftable → ℕ → Bool
is_free t i = (t i).ref == 0

-- None is the null pointer.
unfoldable pub filealloc : Ftable → Option ℕ × Ftable
filealloc t = elim (find_index (is_free t) nfile 0) [
  | none ↦ (none, t)
  | some i ↦ (some i, update t i (record (t i) { ref = 1 }))
]

unfoldable pub filedup : ℕ → Ftable → Outcome Ftable
filedup i t =
    if ltb (t i).ref 1 then panic else ok (update t i (record (t i) { ref = (t i).ref + 1 }))

-- What `fileclose` does after it has given up the slot.
pub data Closing : Type 0 where
  nothing : Closing
  close_pipe : (pipe : ℕ) (writable : Bool) → Closing
  put_inode : (ip : ℕ) → Closing

unfoldable pub closing : File → Kind → Closing
closing f fd_none = nothing
closing f fd_pipe = close_pipe f.pipe f.writable
closing f fd_inode = put_inode f.ip

unfoldable pub fileclose : ℕ → Ftable → Outcome (Closing × Ftable)
unfolding closing
fileclose i t =
    if ltb (t i).ref 1
    then panic
    else if ltb 0 ((t i).ref - 1)
    then ok (nothing, update t i (record (t i) { ref = (t i).ref - 1 }))
    else ok (closing (t i) (t i).kind, update t i (record (t i) { ref = 0; kind = fd_none }))

-- `made`: returns 0 with the two files. `unmade`: returns -1.
pub data Pipealloc : Type 0 where
  made : (f0 f1 : ℕ) → Ftable → Pipealloc
  unmade : Ftable → Pipealloc
  crashed : Pipealloc

abbrev pub pipe_end : File → (readable : Bool) → (page : ℕ) → File
pipe_end f readable page = record f {
  kind = fd_pipe;
  readable = readable;
  writable = not readable;
  pipe = page;
}

abbrev pub close_one : ℕ → Ftable → Outcome Ftable
close_one i t = elim (fileclose i t) [ panic ↦ panic | ok (c, t') ↦ ok t' ]

-- `pipealloc`, given what `kalloc` returns, with `f0` and what the second `filealloc` returns.
unfoldable pub with_first : (page : ℕ) (f0 : ℕ) → Option ℕ × Ftable → Pipealloc
with_first page f0 (none, t) = elim (close_one f0 t) [ panic ↦ crashed | ok t' ↦ unmade t' ]
with_first page f0 (some f1, t) =
    let closed : Pipealloc = elim (close_one f0 t) [
      | panic ↦ crashed
      | ok t' ↦ elim (close_one f1 t') [ panic ↦ crashed | ok t'' ↦ unmade t'' ]
    ] in
    let t' = update t f0 (pipe_end (t f0) true page) in
    if page == 0 then closed else made f0 f1 (update t' f1 (pipe_end (t' f1) false page))

unfoldable pub with_file : (page : ℕ) → Option ℕ × Ftable → Pipealloc
with_file page (none, t) = unmade t
with_file page (some f0, t) = with_first page f0 (filealloc t)

unfoldable pub pipealloc : (page : ℕ) → Ftable → Pipealloc
pipealloc page t = with_file page (filealloc t)

-- `filewrite`'s limit on one transaction: `((LOGSIZE-1-1-2) / 2) * 512`.
abbrev pub max_chunk : ℕ
max_chunk = 13 * 512

-- How the loop of `filewrite` ends: with `i` bytes written and the offset `off`; by the panic on a
-- short write; or for want of fuel.
pub data Written (W : Type 0) : Type 0 where
  stopped : (i off : ℕ) → W → Written W
  short starved : Written W

abbrev pub chunk : (n i : ℕ) → ℕ
chunk n i = if ltb max_chunk (n - i) then max_chunk else n - i

-- One round: `writei w i off n1` writes `n1` bytes from `addr + i` at `off` in a transaction of its
-- own, and gives the bytes written, or none for a negative result, with the system after it.
-- `rest` is the rest of the loop.
abbrev pub round :
    {W : Type 0} → (n i off : ℕ) → (rest : ℕ → W → Written W) → Option ℕ × W → Written W
round n i off rest (none, w) = stopped i off w
round n i off rest (some r, w) = if r == chunk n i then rest r w else short

-- The loop of `filewrite`.
pub write_from :
    {W : Type 0} (writei : W → ℕ → ℕ → ℕ → Option ℕ × W) → ℕ → (n i off : ℕ) → W → Written W
write_from writei zero n i off w = starved
write_from writei (suc fuel) n i off w =
    let rest = λ (r : ℕ). write_from writei fuel n (i + r) (add_word off r) in
    if ltb i n then round n i off rest (writei w i off (chunk n i)) else stopped i off w

-- `filewrite` of `n` bytes. `to_pipe`: what `pipewrite` returns. `value`: returns n or, as none, -1.
pub data Filewrite (W : Type 0) : Type 0 where
  to_pipe : (pipe : ℕ) → Filewrite W
  value : Option ℕ → File → W → Filewrite W
  panics endless : Filewrite W

abbrev pub finish : {W : Type 0} → ℕ → File → Written W → Filewrite W
finish n f (stopped i off w) = value (if i == n then some n else none) (record f { off = off }) w
finish n f short = panics
finish n f starved = endless

pub filewrite : {W : Type 0} (writei : W → ℕ → ℕ → ℕ → Option ℕ × W) → File → ℕ → W → Filewrite W
unfolding write_from
filewrite writei f n w =
    let loop = finish n f (write_from writei (n + 1) n 0 f.off w) in
    if not f.writable
    then value none f w
    else elim f.kind [ fd_none ↦ panics | fd_pipe ↦ to_pipe f.pipe | fd_inode ↦ loop ]

-- `fileread`, whose `readi` at the offset gives the bytes read, or none for a negative result.
-- `from_pipe`: what `piperead` returns.
pub data Fileread (W : Type 0) : Type 0 where
  from_pipe : (pipe : ℕ) → Fileread W
  count : Option ℕ → File → W → Fileread W
  crash : Fileread W

abbrev pub advance : {W : Type 0} → File → Option ℕ × W → Fileread W
advance f (none, w) = count none f w
advance f (some r, w) = count (some r) (record f { off = add_word f.off r }) w

pub fileread : {W : Type 0} (readi : W → ℕ → ℕ → Option ℕ × W) → File → ℕ → W → Fileread W
fileread readi f n w = if not f.readable then count none f w else elim f.kind [
  | fd_none ↦ crash
  | fd_pipe ↦ from_pipe f.pipe
  | fd_inode ↦ advance f (readi w f.off n)
]
