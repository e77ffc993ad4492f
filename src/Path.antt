-- ===== src/Path.antt =====
-- Paths (fs.c, namex to nameiparent), over the cache of inodes, the disk and the memory of names and
-- paths. The actions here run the functions of Icache.antt, Content.antt and Directory.antt on that
-- state, as the code calls them. There is one device, so an inode number names an inode of the disk.
-- `name` and `de` are the addresses of a name's buffer and of `dirlookup`'s `struct dirent`.
pub mod Ensures
pub mod Refs
pub mod Loop
pub mod Walk
mod Tests
use rain_os.Common.{
  ℕ, zero, suc, ◌+◌, ◌-◌, Bool, true, false, not, ◌&&◌, Option, none, some, Outcome, ok, panic,
  ◌==◌, if◌then◌else◌, update,
}
use rain_os.String.{Memory}
use rain_os.Bitmap.{Blocks}
use rain_os.Icache.{
  Dinode, Icache, iget, idup, locked, sleeping, failed, ilock, iunlock, dropped, freed, crashed,
  iput,
}
use rain_os.Inodes.{read_inode, iupdate}
use rain_os.Content.{itrunc}
use rain_os.Directory.{
  t_dir, Lookup, resolved, unresolved, halted, unfinished, dirlookup, is_slash, skipelem,
}

pub record World : Type 0 where
  pub cache : Icache
  pub disk : Blocks
  pub mem : Memory

-- `sleeps` waits for the holder of a locked inode; `endless` means that fuel ran out.
pub data Step (A : Type 0) : Type 0 where
  done : A → World → Step A
  sleeps panics endless : Step A

abbrev pub Action : Type 0 → Type 0
Action A = World → Step A

abbrev pub then_run : {A B : Type 0} → (A → Action B) → Step A → Step B
then_run f (done a w) = f a w
then_run f sleeps = sleeps
then_run f panics = panics
then_run f endless = endless

infixl 5 ◌>>=◌ ◌>>◌
abbrev pub ◌>>=◌ : {A B : Type 0} → Action A → (A → Action B) → Action B
(m >>= f) w = then_run f (m w)

abbrev pub ◌>>◌ : {A B : Type 0} → Action A → Action B → Action B
m >> k = m >>= λ _. k

abbrev pub pure : {A : Type 0} → A → Action A
pure a w = done a w

abbrev pub gets : {A : Type 0} → (World → A) → Action A
gets f w = done (f w) w

abbrev pub set_cache : World → Outcome Icache → Step Unit
set_cache w panic = panics
set_cache w (ok c) = done tt (record w { cache = c })

-- The calls of the cache's functions.
unfoldable pub get : (dev inum : ℕ) → Action ℕ
get dev inum w = elim (iget dev inum w.cache) [
  | panic ↦ panics
  | ok (i, c) ↦ done i (record w { cache = c })
]

pub dup : ℕ → Action ℕ
dup i w = done i (record w { cache = idup i w.cache })

unfoldable pub lock : ℕ → Action Unit
lock i w = elim (ilock (λ dev inum. read_inode w.disk inum) i w.cache) [
  | locked c ↦ done tt (record w { cache = c })
  | sleeping ↦ sleeps
  | failed ↦ panics
]

unfoldable pub unlock : ℕ → Action Unit
unlock i w = set_cache w (iunlock i w.cache)

-- `iput`; an inode without links loses its blocks and its type on the disk.
unfoldable pub put : ℕ → Action Unit
put i w = elim (iput i w.cache) [
  | crashed ↦ panics
  | dropped c ↦ done tt (record w { cache = c })
  | freed c ↦
      let inum = (w.cache i).inum in
      elim (itrunc inum (w.cache i).copy w.disk) [
        | panic ↦ panics
        | ok (ip, d) ↦
            done tt (record w { cache = c; disk = iupdate inum (record ip { kind = 0 }) d })
      ]
]

pub unlock_put : ℕ → Action Unit
unfolding unlock put
unlock_put i = do unlock i; put i

abbrev pub with_copy : ℕ → Dinode → Icache → Icache
with_copy i dp c = update c i (record (c i) { copy = dp })

-- `skipelem`.
unfoldable pub next_elem : (fuel path name : ℕ) → Action ℕ
next_elem fuel path name w = elim (skipelem fuel path name w.mem) [
  | none ↦ endless
  | some (q, m) ↦ done q (record w { mem = m })
]

-- The directory of slot `i` as `dirlookup` leaves it, and the slot and the offset that it finds.
abbrev pub looked : (i : ℕ) → World → Lookup → Step (Option (ℕ × ℕ))
looked i w (resolved j off c dp d) =
    done (some (j, off)) (record w { cache = with_copy i dp c; disk = d })
looked i w (unresolved dp d) = done none (record w { cache = with_copy i dp w.cache; disk = d })
looked i w halted = panics
looked i w unfinished = endless

module _ (has_read : ℕ → Bool) where
  -- `dirlookup` in the locked directory of slot `i`.
  pub lookup : (name de i : ℕ) → Action (Option (ℕ × ℕ))
  lookup name de i w =
      let dp = (w.cache i).copy in
      looked i w (dirlookup has_read (dp.size + 1) (w.cache i).dev name de dp w.cache w.disk w.mem)

  -- Where the path has ended.
  unfoldable pub ended : (parent : Bool) (ip : ℕ) → Action (Option ℕ)
  unfolding put
  ended parent ip = if parent then (do put ip; pure none) else pure (some ip)

  -- The end of the loop's body: on to the next directory.
  pub descend : (rest : ℕ → Action (Option ℕ)) (name de ip : ℕ) → Action (Option ℕ)
  unfolding lookup unlock_put
  descend rest name de ip = do
    next ← lookup name de ip
    unlock_put ip
    elim next [ none ↦ pure none | some (j, _) ↦ rest j ]

  -- The body of the loop of `namex` behind `skipelem`, with the inode locked; `rest` goes on with the
  -- next inode.
  pub examine :
      (rest : ℕ → Action (Option ℕ)) (parent : Bool) (name de path ip : ℕ) → Action (Option ℕ)
  unfolding descend unlock unlock_put
  examine rest parent name de path ip w =
      if not ((w.cache ip).copy.kind == t_dir)
      then (do unlock_put ip; pure none) w
      else if parent && w.mem path == 0
      then (do unlock ip; pure (some ip)) w
      else descend rest name de ip w

  pub enter :
      (rest : ℕ → Action (Option ℕ)) (parent : Bool) (name de path ip : ℕ) → Action (Option ℕ)
  unfolding lock examine
  enter rest parent name de path ip = do lock ip; examine rest parent name de path ip

  -- The loop of `namex`; `bound` is the fuel of each `skipelem`.
  unfoldable pub walk : (fuel bound : ℕ) (parent : Bool) (name de path ip : ℕ) → Action (Option ℕ)
  unfolding next_elem ended enter
  walk zero bound parent name de path ip = λ w. endless
  walk (suc fuel) bound parent name de path ip = do
    q ← next_elem bound path name
    let rest = walk fuel bound parent name de q
    if q == 0 then ended parent ip else enter rest parent name de q ip

  unfoldable pub namex : (fuel : ℕ) (parent : Bool) (cwd path name de : ℕ) → Action (Option ℕ)
  unfolding get dup walk
  namex fuel parent cwd path name de = do
    absolute ← gets (λ w. is_slash (w.mem path))
    ip ← if absolute then get 1 1 else dup cwd
    walk fuel fuel parent name de path ip

  unfoldable pub namei : (fuel cwd path name de : ℕ) → Action (Option ℕ)
  unfolding namex
  namei fuel cwd path name de = namex fuel false cwd path name de

  unfoldable pub nameiparent : (fuel cwd path name de : ℕ) → Action (Option ℕ)
  unfolding namex
  nameiparent fuel cwd path name de = namex fuel true cwd path name de
