-- ===== src/Creat.antt =====
-- The system calls that make files (sysfile.c): `create`, `sys_mkdir`, `sys_mknod` and `sys_open`, with
-- the state and the conventions of Links.antt. `dot` and `dotdot` are the addresses of "." and "..".
use rain_os.Common.{
  ℕ, ◌/◌, ◌%◌, Bool, true, false, not, ◌&&◌, ◌||◌, Option, none, some, ok, panic, ◌==◌,
  if◌then◌else◌, update,
}
use rain_os.Inodes.{ialloc}
use rain_os.Syscall.{User, argstr, argint}
use rain_os.FileTable.{Ftable, fd_inode, filealloc, Closing, nothing, fileclose}
use rain_os.Descriptors.{Ofile, fdalloc}
use rain_os.Directory.{t_dir}
use rain_os.Content.{t_dev}
use rain_os.Path.{
  World, done, panics, Action, ◌>>=◌, ◌>>◌, pure, gets, lock, unlock, unlock_put, lookup,
  nameiparent, namei,
}
use rain_os.Links.{change, relink, up, has_kind, dirlink}

abbrev pub t_file : ℕ
t_file = 2

-- `ialloc`.
pub alloc : (dev kind : ℕ) → Action ℕ
alloc dev kind w = elim (ialloc dev kind w.disk w.cache) [
  | panic ↦ panics
  | ok (i, c, d) ↦ done i (record w { cache = c; disk = d })
]

-- A panic where an entry could not be added.
abbrev pub must : Action Bool → Action Unit
must m = m >>= λ added. if added then pure tt else (λ w. panics)

-- The result of `sys_open`: the descriptor, or none for -1, the tables, and what a closed file leaves
-- to do.
pub record Opened : Type 0 where
  pub fd : Option ℕ
  pub ofile : Ofile
  pub files : Ftable
  pub left : Closing

module _ (has_read has_write : ℕ → Bool) (fuel sz esp cwd name de dot dotdot : ℕ) where
  -- `create` where the name is taken by `ip`.
  pub reuse : (kind ip dp : ℕ) → Action (Option ℕ)
  reuse kind ip dp = do
    unlock_put dp
    lock ip
    file ← gets (has_kind t_file ip)
    if kind == t_file && file then pure (some ip) else (do unlock_put ip; pure none)

  -- The entries of a new directory.
  pub add_dots : (ip dp : ℕ) → Action Unit
  add_dots ip dp = do
    change (relink up) dp
    inum ← gets (λ w. (w.cache ip).inum)
    above ← gets (λ w. (w.cache dp).inum)
    must (dirlink has_read has_write de dot inum ip)
    must (dirlink has_read has_write de dotdot above ip)

  -- `create` of a new inode in the locked directory.
  pub make : (kind major minor dp : ℕ) → Action (Option ℕ)
  unfolding alloc add_dots
  make kind major minor dp = do
    dev ← gets (λ w. (w.cache dp).dev)
    ip ← alloc dev kind
    lock ip
    change (λ d. record d { major = major % 65536; minor = minor % 65536; nlink = 1 }) ip
    if kind == t_dir then add_dots ip dp else pure tt
    inum ← gets (λ w. (w.cache ip).inum)
    must (dirlink has_read has_write de name inum dp)
    unlock_put dp
    pure (some ip)

  -- The slot of the locked inode, or none for the null pointer.
  pub create : (path kind major minor : ℕ) → Action (Option ℕ)
  unfolding reuse make
  create path kind major minor = do
    parent ← nameiparent has_read fuel cwd path name de
    elim parent [
      | none ↦ pure none
      | some dp ↦ (do
        lock dp
        found ← lookup has_read name de dp
        elim found [ some (ip, _) ↦ reuse kind ip dp | none ↦ make kind major minor dp ])
    ]

  -- The end of `sys_mkdir` and `sys_mknod`: true for the result 0, false for -1.
  pub close_made : Option ℕ → Action Bool
  close_made none = pure false
  close_made (some ip) = do unlock_put ip; pure true

  abbrev user : World → User
  user w = record { sz = sz; esp = esp; mem = w.mem }

  pub sys_mkdir : Action Bool
  unfolding create close_made
  sys_mkdir w = elim (argstr (user w) 0) [
    | none ↦ done false w
    | some (path, _) ↦ (do made ← create path t_dir 0 0; close_made made) w
  ]

  pub sys_mknod : Action Bool
  unfolding create close_made
  sys_mknod w = elim (argstr (user w) 0) [
    | none ↦ done false w
    | some (path, _) ↦ elim (argint (user w) 1) [
      | none ↦ done false w
      | some major ↦ elim (argint (user w) 2) [
        | none ↦ done false w
        | some minor ↦ (do made ← create path t_dev major minor; close_made made) w
      ]
    ]
  ]

  -- `sys_open` before the file is allocated: the locked inode.
  pub open_inode : (path omode : ℕ) → Action (Option ℕ)
  unfolding create
  open_inode path omode = if omode / 512 % 2 == 1 then create path t_file 0 0 else (do
    found ← namei has_read fuel cwd path name de
    elim found [
      | none ↦ pure none
      | some ip ↦ (do
        lock ip
        dir ← gets (has_kind t_dir ip)
        if dir && not (omode == 0) then (do unlock_put ip; pure none) else pure (some ip))
    ])

  -- `sys_open` with the locked inode and no descriptor.
  pub refuse : (ip : ℕ) → Ofile → Ftable → Closing → Action Opened
  refuse ip o t c = do unlock_put ip; pure (record { fd = none; ofile = o; files = t; left = c })

  -- `sys_open` with the locked inode and the file `f`, given what `fdalloc` returns.
  pub open_at : (omode ip f : ℕ) → Option ℕ × Ofile → Ftable → Action Opened
  unfolding refuse
  open_at omode ip f (none, o) t = elim (fileclose f t) [
    | panic ↦ λ w. panics
    | ok (c, t') ↦ refuse ip o t' c
  ]
  open_at omode ip f (some fd, o) t = do
    unlock ip
    pure (record {
      fd = some fd;
      ofile = o;
      files = update t f (record (t f) {
        kind = fd_inode;
        ip = ip;
        off = 0;
        readable = not (omode % 2 == 1);
        writable = omode % 2 == 1 || omode / 2 % 2 == 1;
      });
      left = nothing;
    })

  pub open_file : (omode ip : ℕ) → Ofile → Option ℕ × Ftable → Action Opened
  unfolding refuse open_at
  open_file omode ip o (none, t) = refuse ip o t nothing
  open_file omode ip o (some f, t) = open_at omode ip f (fdalloc f o) t

  pub sys_open : Ofile → Ftable → Action Opened
  unfolding open_inode open_file
  sys_open o t w =
      let failed : Opened = record { fd = none; ofile = o; files = t; left = nothing } in
      elim (argstr (user w) 0) [
        | none ↦ done failed w
        | some (path, _) ↦ elim (argint (user w) 1) [
          | none ↦ done failed w
          | some omode ↦
              (do
                found ← open_inode path omode
                elim found [ none ↦ pure failed | some ip ↦ open_file omode ip o (filealloc t) ])
                w
        ]
      ]
