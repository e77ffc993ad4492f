-- ===== src/Links.antt =====
-- The system calls on paths (sysfile.c): links, directories and devices, and the working directory.
-- They run the actions of Path.antt, and fetch their arguments from the caller's memory, which is part
-- of `mem`. `begin_op` and `end_op` bracket each call in the log; the disk here is the one whose writes
-- have been logged, so they are left out. `name` and `de` are the addresses of the function's own
-- buffers, `cwd` the slot of the working directory, and `fuel` bounds the walks along paths.
pub mod Entries
pub mod Enter
pub mod Balance
pub mod Chdir
mod Tests
use rain_os.Common.{
  ℕ, zero, suc, ◌+◌, ◌-◌, ◌*◌, ◌%◌, Bool, true, false, not, ◌&&◌, ◌||◌, Option, none, some, List,
  [], ◌∷◌, length, Outcome, ok, panic, ◌==◌, ltb, leb, if◌then◌else◌, update, short_at,
}
use rain_os.String.{Memory}
use rain_os.Bitmap.{Blocks}
use rain_os.Icache.{Dinode, Icache}
use rain_os.Inodes.{iupdate, ialloc}
use rain_os.Syscall.{User, argstr, argint}
use rain_os.Content.{
  by_device, failed, crashed, done as read, readi, splice, dev_write, refused, broken, written,
  writei,
}
use rain_os.Directory.{
  namecmp, t_dir, dirent_size, linked, impossible, endless_link, Link, add_entry,
}
use rain_os.Path.{
  World, Step, done, sleeps, panics, endless, Action, ◌>>=◌, ◌>>◌, pure, gets, get, lock, unlock,
  put, unlock_put, with_copy, lookup, namei, nameiparent,
}

-- `ip->nlink++` and `ip->nlink--`.
abbrev pub up : ℕ → ℕ
up n = (n + 1) % 65536

abbrev pub down : ℕ → ℕ
down n = (n + 65535) % 65536

-- A change of the locked inode of slot `i`, and `iupdate`.
pub change : (Dinode → Dinode) → ℕ → Action Unit
change f i w =
    let dp = f (w.cache i).copy in
    done tt (record w { cache = with_copy i dp w.cache; disk = iupdate (w.cache i).inum dp w.disk })

abbrev pub relink : (ℕ → ℕ) → Dinode → Dinode
relink f dp = record dp { nlink = f dp.nlink }

-- `memset(&de, 0, sizeof(de))`.
abbrev zeros : ℕ → List ℕ
zeros zero = []
zeros (suc n) = 0 ∷ zeros n

abbrev pub has_kind : ℕ → ℕ → World → Bool
has_kind kind i w = (w.cache i).copy.kind == kind

abbrev pub entered : (i : ℕ) → World → Link → Step Bool
entered i w (linked dp d) = done true (record w { cache = with_copy i dp w.cache; disk = d })
entered i w impossible = panics
entered i w endless_link = endless

module _ (has_read has_write : ℕ → Bool) (de : ℕ) where
  -- The entry that `dirlink` adds to the locked directory of slot `i`.
  pub add : (elem inum i : ℕ) → Action Bool
  add elem inum i w =
      let dp = (w.cache i).copy in
      entered i w
        (add_entry has_read has_write (dp.size + 1) (w.cache i).inum elem inum de dp w.disk w.mem)

  -- `dirlink`: false for -1.
  pub dirlink : (elem inum i : ℕ) → Action Bool
  unfolding add
  dirlink elem inum i = do
    present ← lookup has_read elem de i
    elim present [ none ↦ add elem inum i | some (j, _) ↦ (do put j; pure false) ]

module _ (has_read has_write : ℕ → Bool) (fuel sz esp cwd name de : ℕ) where
  -- The caller's memory, and a fetched argument; without it the call returns -1.
  abbrev pub user : World → User
  user w = record { sz = sz; esp = esp; mem = w.mem }

  abbrev pub with_path : (n : ℕ) → (ℕ → Action Bool) → Action Bool
  with_path n k w = elim (argstr (user w) n) [ none ↦ done false w | some (path, _) ↦ k path w ]

  abbrev pub with_int : (n : ℕ) → (ℕ → Action Bool) → Action Bool
  with_int n k w = elim (argint (user w) n) [ none ↦ done false w | some x ↦ k x w ]

  -- The error exit of `sys_link`.
  pub undo_link : (ip : ℕ) → Action Bool
  unfolding change
  undo_link ip = do lock ip; change (relink down) ip; unlock_put ip; pure false

  -- `dp->dev != ip->dev || dirlink(dp, name, ip->inum) < 0`, negated.
  pub try_link : (ip dp : ℕ) → Action Bool
  try_link ip dp w =
      if not ((w.cache dp).dev == (w.cache ip).dev)
      then done false w
      else dirlink has_read has_write de name (w.cache ip).inum dp w

  pub close_link : (ip dp : ℕ) → Bool → Action Bool
  unfolding undo_link
  close_link ip dp made = do unlock_put dp; if made then (do put ip; pure true) else undo_link ip

  -- `sys_link` with the new name's directory.
  pub link_in : (ip dp : ℕ) → Action Bool
  unfolding try_link close_link
  link_in ip dp = do lock dp; made ← try_link ip dp; close_link ip dp made

  -- `sys_link` with the link count raised.
  pub enter_new : (new ip : ℕ) → Action Bool
  unfolding link_in undo_link
  enter_new new ip = do
    parent ← nameiparent has_read fuel cwd new name de
    elim parent [ none ↦ undo_link ip | some dp ↦ link_in ip dp ]

  -- `sys_link` with the old inode locked.
  pub link_file : (new ip : ℕ) → Action Bool
  unfolding change enter_new
  link_file new ip w =
      if has_kind t_dir ip w
      then (do unlock_put ip; pure false) w
      else (do change (relink up) ip; unlock ip; enter_new new ip) w

  pub link_to : (new ip : ℕ) → Action Bool
  unfolding link_file
  link_to new ip = do lock ip; link_file new ip

  pub link_paths : (old new : ℕ) → Action Bool
  unfolding link_to
  link_paths old new = do
    found ← namei has_read fuel cwd old name de
    elim found [ none ↦ pure false | some ip ↦ link_to new ip ]

  -- True for the result 0, false for -1.
  pub sys_link : Action Bool
  unfolding link_paths
  sys_link = with_path 0 (λ old. with_path 1 (λ new. link_paths old new))

  -- The loop of `isdirempty` at `off`: none where it panics.
  pub empty_from : (rounds off i : ℕ) → Action Bool
  empty_from zero off i = λ w. endless
  empty_from (suc k) off i = λ w.
      let ip = (w.cache i).copy in
      let rest = empty_from k (off + dirent_size) i in
      if leb ip.size off then done true w else elim (readi has_read ip off dirent_size w.disk) [
        | by_device _ _ ↦ panics
        | failed ↦ panics
        | crashed ↦ panics
        | read bytes ip' d ↦
            let w' = record w { cache = with_copy i ip' w.cache; disk = d } in
            if not (length bytes == dirent_size)
            then panics
            else if short_at (splice de bytes w.mem) de == 0
            then rest w'
            else done false w'
      ]

  -- `writei` of a cleared entry at `off`.
  pub clear_entry : (off i : ℕ) → Action Unit
  clear_entry off i w =
      elim (writei has_write (w.cache i).inum (w.cache i).copy off (zeros dirent_size) w.disk) [
        | dev_write _ _ ↦ panics
        | refused ↦ panics
        | broken ↦ panics
        | written dp d ↦ done tt (record w { cache = with_copy i dp w.cache; disk = d })
      ]

  -- `sys_unlink` once the entry is to go.
  pub remove_entry : (off ip dp : ℕ) → Action Bool
  unfolding clear_entry change
  remove_entry off ip dp = do
    dir ← gets (has_kind t_dir ip)
    clear_entry off dp
    if dir then change (relink down) dp else pure tt
    unlock_put dp
    change (relink down) ip
    unlock_put ip
    pure true

  -- `sys_unlink` with the entry's inode.
  pub unlink_at : (off ip dp : ℕ) → Action Bool
  unfolding empty_from remove_entry
  unlink_at off ip dp = do
    lock ip
    unused ← gets (λ w. ltb (w.cache ip).copy.nlink 1)
    dir ← gets (has_kind t_dir ip)
    size ← gets (λ w. (w.cache ip).copy.size)
    full ←
        if unused
        then (λ w. panics)
        else if dir
        then (do e ← empty_from (size + 1) (2 * dirent_size) ip; pure (not e))
        else pure false
    if full then (do unlock_put ip; unlock_put dp; pure false) else remove_entry off ip dp

  -- `sys_unlink` with the directory; `dot` and `dotdot` are the addresses of those names.
  pub unlink_in : (dot dotdot dp : ℕ) → Action Bool
  unfolding unlink_at
  unlink_in dot dotdot dp = do
    lock dp
    special ← gets (λ w. namecmp name dot w.mem == 0 || namecmp name dotdot w.mem == 0)
    found ← if special then pure none else lookup has_read name de dp
    elim found [ none ↦ (do unlock_put dp; pure false) | some (ip, off) ↦ unlink_at off ip dp ]

  pub sys_unlink : (dot dotdot : ℕ) → Action Bool
  unfolding unlink_in
  sys_unlink dot dotdot = with_path 0 (λ path. do
    found ← nameiparent has_read fuel cwd path name de
    elim found [ none ↦ pure false | some dp ↦ unlink_in dot dotdot dp ])

  -- `sys_chdir` with the locked inode: the slot of the new working directory, or none for -1.
  pub change_dir : (ip : ℕ) → Action (Option ℕ)
  change_dir ip w =
      if not (has_kind t_dir ip w)
      then (do unlock_put ip; pure none) w
      else (do unlock ip; put cwd; pure (some ip)) w

  pub enter_dir : (path : ℕ) → Action (Option ℕ)
  unfolding change_dir
  enter_dir path = do
    found ← namei has_read fuel cwd path name de
    elim found [ none ↦ pure none | some ip ↦ (do lock ip; change_dir ip) ]

  pub sys_chdir : Action (Option ℕ)
  unfolding enter_dir
  sys_chdir w = elim (argstr (user w) 0) [ none ↦ done none w | some (path, _) ↦ enter_dir path w ]
