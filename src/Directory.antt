-- ===== src/Directory.antt =====
-- Directories and path elements (fs.c, namecmp to skipelem). Names and paths are in a memory of
-- bytes; `de` is the address of the function's `struct dirent`. A directory is the copy of its inode
-- that the caller has locked. Loops run on fuel.
pub mod Entries
pub mod Fuel
pub mod Elements
mod Tests
use rain_os.Common.{
  ℕ, zero, suc, ◌+◌, ◌-◌, ◌*◌, ◌/◌, ◌%◌, Bool, true, false, not, ◌&&◌, ◌||◌, Option, none, some,
  List, [], ◌∷◌, length, Outcome, ok, panic, ◌==◌, ltb, leb, if◌then◌else◌, update, add_word,
  short_at, put_short,
}
use rain_os.String.{Memory, strncmp, strncpy, memmove}
use rain_os.Bitmap.{Blocks}
use rain_os.Icache.{Dinode, Icache, iget}
use rain_os.Content.{
  readi, writei, slice, splice, by_device, failed, crashed, done, Writei, dev_write, refused,
  broken, written,
}

-- `DIRSIZ` and `sizeof(struct dirent)`.
abbrev pub dirsiz : ℕ
dirsiz = 14

abbrev pub dirent_size : ℕ
dirent_size = 16

abbrev pub t_dir : ℕ
t_dir = 1

unfoldable pub namecmp : (s t : ℕ) → Memory → ℕ
namecmp s t m = strncmp s t dirsiz m

-- The loop of `dirlookup`. `hit`: an entry with its inode number and its offset. `stopped`: a panic.
-- `endless`: the fuel ran out.
pub data Scan : Type 0 where
  hit : (inum off : ℕ) → Dinode → Blocks → Scan
  missed : Dinode → Blocks → Scan
  stopped endless : Scan

unfoldable pub find_entry :
    (has_read : ℕ → Bool) (fuel name de off : ℕ) → Dinode → Blocks → Memory → Scan
unfolding namecmp
find_entry has_read zero name de off dp d m = endless
find_entry has_read (suc fuel) name de off dp d m =
    if leb dp.size off then missed dp d else elim (readi has_read dp off dirent_size d) [
      | by_device _ _ ↦ stopped
      | failed ↦ stopped
      | crashed ↦ stopped
      | done bytes dp' d' ↦
          let m' = splice de bytes m in
          let rest = find_entry has_read fuel name de (add_word off dirent_size) dp' d' m' in
          if not (length bytes == dirent_size)
          then stopped
          else if short_at m' de == 0
          then rest
          else if namecmp name (de + 2) m' == 0
          then hit (short_at m' de) off dp' d'
          else rest
    ]

-- `resolved`: the inode's slot and the entry's offset. `unresolved`: returns 0.
pub data Lookup : Type 0 where
  resolved : (slot off : ℕ) → Icache → Dinode → Blocks → Lookup
  unresolved : Dinode → Blocks → Lookup
  halted unfinished : Lookup

-- `dev` is the directory's device.
unfoldable pub dirlookup :
    (has_read : ℕ → Bool) (fuel dev name de : ℕ) → Dinode → Icache → Blocks → Memory → Lookup
unfolding find_entry
dirlookup has_read fuel dev name de dp c d m =
    if not (dp.kind == t_dir) then halted else elim (find_entry has_read fuel name de 0 dp d m) [
      | missed dp' d' ↦ unresolved dp' d'
      | stopped ↦ halted
      | endless ↦ unfinished
      | hit inum off dp' d' ↦ elim (iget dev inum c) [
        | panic ↦ halted
        | ok (i, c') ↦ resolved i off c' dp' d'
      ]
    ]

-- The loop of `dirlink`: the offset of the first free entry, or of the end.
pub find_free :
    (has_read : ℕ → Bool) (fuel de off : ℕ)
    → Dinode
    → Blocks
    → Memory
    → Option (Outcome (ℕ × Dinode × Blocks))
find_free has_read zero de off dp d m = none
find_free has_read (suc fuel) de off dp d m =
    if leb dp.size off then some (ok (off, dp, d)) else elim (readi has_read dp off dirent_size d) [
      | by_device _ _ ↦ some panic
      | failed ↦ some panic
      | crashed ↦ some panic
      | done bytes dp' d' ↦
          let m' = splice de bytes m in
          let rest = find_free has_read fuel de (add_word off dirent_size) dp' d' m' in
          if not (length bytes == dirent_size)
          then some panic
          else if short_at m' de == 0
          then some (ok (off, dp', d'))
          else rest
    ]

-- `dirlink` once `dirlookup` has found nothing: the inode number and the name go into the first free
-- entry. `number` is the directory's own inode number.
pub data Link : Type 0 where
  linked : Dinode → Blocks → Link
  impossible endless_link : Link

abbrev pub link_of : Writei → Link
link_of (dev_write _ _) = impossible
link_of refused = impossible
link_of broken = impossible
link_of (written dp d) = linked dp d

pub add_entry :
    (has_read has_write : ℕ → Bool) (fuel number name inum de : ℕ) → Dinode → Blocks → Memory → Link
unfolding find_free
add_entry has_read has_write fuel number name inum de dp d m =
    elim (find_free has_read fuel de 0 dp d m) [
      | none ↦ endless_link
      | some panic ↦ impossible
      | some (ok (off, dp2, d2)) ↦
          let m' = put_short (strncpy (de + 2) name dirsiz m) de inum in
          link_of (writei has_write number dp2 off (slice dirent_size de m') d2)
    ]

-- `while(test(*p)) p++;`
unfoldable pub skip_while : (test : ℕ → Bool) (fuel p : ℕ) → Memory → Option ℕ
skip_while test zero p m = none
skip_while test (suc fuel) p m =
    let rest = skip_while test fuel (p + 1) m in if test (m p) then rest else some p

-- The character '/'.
abbrev pub is_slash : ℕ → Bool
is_slash x = x == 47

abbrev pub in_name : ℕ → Bool
in_name x = not (is_slash x) && not (x == 0)

-- `skipelem`: the pointer it returns, and the memory.
unfoldable pub skipelem : (fuel path name : ℕ) → Memory → Option (ℕ × Memory)
unfolding skip_while
skipelem fuel path name m = elim (skip_while is_slash fuel path m) [
  | none ↦ none
  | some s ↦ if m s == 0 then some (0, m) else elim (skip_while in_name fuel s m) [
    | none ↦ none
    | some p ↦
        let len = p - s in
        let m' =
          if leb dirsiz len
          then memmove name s dirsiz m
          else update (memmove name s len m) (name + len) 0 in
        elim (skip_while is_slash fuel p m') [ none ↦ none | some q ↦ some (q, m') ]
  ]
]
