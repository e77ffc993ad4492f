-- ===== src/Links/Chdir.antt =====
-- `sys_chdir`: the process's reference moves from the old working directory to the new one.
use rain_os.Common.{
  ℕ, ◌+◌, ◌≤◌, ◌<◌, ◌≡◌, inl, inr, refl, ap, ◌∙◌, arith, Bool, false, Bool-cases, Option, none,
  some, Option-cases,
}
use rain_os.String.{Memory}
use rain_os.Syscall.{User, argstr}
use rain_os.Syscall.Args.{argstr_lem}
use rain_os.Directory.{t_dir}
use rain_os.Path.{World, Action, ◌>>◌, pure, lock, unlock, put, unlock_put, namei}
use rain_os.Path.Ensures.{
  Ensures, ensures_then, IsAt, IsAt-same, no_lock, only, plus, minus, Leaves,
}
use rain_os.Path.Refs.{lock_lem, unlock_lem, put_lem, unlock_put_lem}
use rain_os.Path.Loop.{IsOutside, Walked}
use rain_os.Path.Walk.{namex_at, IsQuiet, IsQuiet-IsAt}
use rain_os.Links.{has_kind, change_dir, enter_dir, sys_chdir}
use rain_os.Links.Entries.{minus-plus_any}

-- The references once the working directory `cwd` has been left for the one that is returned.
abbrev pub moved : (ℕ → ℕ) → (cwd : ℕ) → Option ℕ → ℕ → ℕ
moved r cwd none = r
moved r cwd (some ip) = minus (plus r ip) cwd

abbrev pub IsMovedTo : (r : ℕ → ℕ) (cwd name : ℕ) (m : Memory) → Option ℕ → World → Type 0
IsMovedTo r cwd name m f w = IsAt (moved r cwd f) no_lock w.cache × IsOutside name m w.mem

module _ (has_read has_write : ℕ → Bool) (fuel sz esp cwd name de : ℕ) (r : ℕ → ℕ)
    (m : Memory) where
  kept_mem : (m1 m2 : Memory) → m2 ≡ m1 → IsOutside name m m1 → IsOutside name m m2
  kept_mem m1 m2 e o a h = ap (λ (x : Memory). x a) e ∙ o a h

  change_dir_lem :
      (ip : ℕ) (w : World)
      → IsAt (plus r ip) (only ip) w.cache
      → IsOutside name m w.mem
      → Ensures
          (change_dir has_read has_write fuel sz esp cwd name de ip w)
          (IsMovedTo r cwd name m)
  unfolding change_dir
  change_dir_lem ip w v o = elim (Bool-cases (has_kind t_dir ip w)) [
    | inr e ↦
        rw (change_dir, e)
          (ensures_then (unlock_put ip w) (λ _. pure none)
            (λ _ w1. Leaves (minus (plus r ip) ip) no_lock w.mem w1) (IsMovedTo r cwd name m)
            (unlock_put_lem (plus r ip) w ip v (ground arith))
            (λ _ w1 h. (
              IsAt-same (minus (plus r ip) ip) r no_lock w1.cache (minus-plus_any r ip) h.0,
              kept_mem w.mem w1.mem h.1 o,
            )))
    | inl e ↦
        rw (change_dir, e)
          (ensures_then (unlock ip w) (λ _. put cwd >> pure (some ip))
            (λ _ w1. Leaves (plus r ip) no_lock w.mem w1) (IsMovedTo r cwd name m)
            (unlock_lem (plus r ip) w ip v (ground arith))
            (λ _ w1 h.
              ensures_then (put cwd w1) (λ _. pure (some ip))
                (λ _ w2. Leaves (minus (plus r ip) cwd) no_lock w1.mem w2) (IsMovedTo r cwd name m)
                (put_lem (plus r ip) w1 cwd h.0)
                (λ _ w2 h2. (h2.0, kept_mem w.mem w2.mem (h2.1 ∙ h.1) o))))
  ]

  enter_dir_lem :
      (path n : ℕ) (w : World)
      → IsAt r no_lock w.cache
      → w.mem ≡ m
      → m (path + n) ≡ 0
      → path + n < name
      → n < fuel
      → Ensures
          (enter_dir has_read has_write fuel sz esp cwd name de path w)
          (IsMovedTo r cwd name m)
  unfolding enter_dir namei
  enter_dir_lem path n w v q z far lt =
      ensures_then (namei has_read fuel cwd path name de w) on (Walked r name w.mem)
        (IsMovedTo r cwd name m)
        (namex_at has_read fuel false cwd path n name de r w v
          (ap (λ (x : Memory). x (path + n)) q ∙ z) (inl far) lt)
        finish
    where
      on : Option ℕ → Action (Option ℕ)
      on f = elim f [
        | none ↦ pure none
        | some ip ↦ lock ip >> change_dir has_read has_write fuel sz esp cwd name de ip
      ]

      finish :
          (f : Option ℕ) (w1 : World)
          → Walked r name w.mem f w1
          → Ensures (on f w1) (IsMovedTo r cwd name m)
      finish none w1 (v1, o1) = (v1, λ a h. o1 a h ∙ ap (λ (x : Memory). x a) q)
      finish (some ip) w1 (v1, o1) =
          ensures_then (lock ip w1) (λ _. change_dir has_read has_write fuel sz esp cwd name de ip)
            (λ _ w2. Leaves (plus r ip) (only ip) w1.mem w2) (IsMovedTo r cwd name m)
            (lock_lem (plus r ip) w1 ip v1 (ground arith))
            (λ _ w2 h.
              change_dir_lem ip w2 h.0
                (kept_mem w1.mem w2.mem h.1 (λ a k. o1 a k ∙ ap (λ (x : Memory). x a) q)))

-- `sys_chdir` with no inode locked, by a process whose memory lies below the kernel's buffer for the
-- name. It neither sleeps nor loops for ever. Where it does not panic, no inode is locked afterwards.
-- If it returns -1, every slot has as many references as before; otherwise the new working directory
-- has one more and the old one, which may be the same, one less, and no other slot's have changed. Of
-- the memory it has changed only the name's buffer.
pub sys_chdir_lem :
    (has_read has_write : ℕ → Bool) (fuel sz esp cwd name de : ℕ) (w : World)
    → IsQuiet w.cache
    → sz ≤ name
    → sz ≤ fuel
    → Ensures
        (sys_chdir has_read has_write fuel sz esp cwd name de w)
        (IsMovedTo (λ j. (w.cache j).ref) cwd name w.mem)
unfolding sys_chdir
sys_chdir_lem has_read has_write fuel sz esp cwd name de w quiet below enough =
    let u : User = record { sz = sz; esp = esp; mem = w.mem } in
    let at = IsQuiet-IsAt w quiet in
    elim (Option-cases (argstr u 0)) [
      | inl e ↦ rw (Ensures, sys_chdir, e) (at, λ a h. refl)
      | inr ((path, n), e) ↦
          let s = argstr_lem u 0 path n e in
          rw (Ensures, sys_chdir, e)
            (enter_dir_lem has_read has_write fuel sz esp cwd name de (λ j. (w.cache j).ref) w.mem
              path n w at refl s.end (omega (arith, s.within)) (omega (arith, s.within)))
    ]
