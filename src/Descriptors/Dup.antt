-- ===== src/Descriptors/Dup.antt =====
-- `sys_dup`, and the `sys_close` that undoes it.
use rain_os.Common.{
  ℕ, ◌+◌, ◌<◌, ◌≡◌, ◌⊎◌, inl, inr, ap, false, ◌||◌, none, some, arith, ok, ltb, leb, is_negative,
  update, Bool-cases, Option-cases,
}
use rain_os.Proc.{nofile}
use rain_os.FileTable.{Ftable, filedup, nothing}
use rain_os.FileTable.Refs.{fileclose-filedup}
use rain_os.Syscall.{User, argint}
use rain_os.Descriptors.{Ofile, Caller, argfd, dup_at, sys_dup, sys_close}
use rain_os.Descriptors.Slots.{Gave, holds_given, restored, IsFull, fdalloc_lem}

-- Every file that a descriptor holds is referenced.
abbrev pub IsHeld : Caller → Type 0
IsHeld s = (fd f : ℕ) → fd < nofile → s.ofile fd ≡ some f → 0 < (s.files f).ref

-- What `argfd` accepts: a descriptor in range that holds the file.
pub argfd_lem :
    (s : Caller) (n fd f : ℕ)
    → argint s.user n ≡ some fd
    → fd < nofile
    → s.ofile fd ≡ some f
    → argfd s n ≡ some (fd, f)
unfolding argfd
argfd_lem s n fd f a lt h =
    let z : is_negative fd ≡ false = ground arith in
    let y : leb nofile fd ≡ false = ground arith in rw (a, argfd, z, y, h)

argfd-inv :
    (s : Caller) (n fd f : ℕ) → argfd s n ≡ some (fd, f) → (fd < nofile) × (s.ofile fd ≡ some f)
unfolding argfd
argfd-inv s n fd f h = elim (Option-cases (argint s.user n)) [
  | inl e ↦ absurd (let q = rw (e, argfd) at h in cc)
  | inr (a, e) ↦ elim (Bool-cases (is_negative a || leb nofile a)) [
    | inl b ↦ absurd (let q = rw (e, argfd, b) at h in cc)
    | inr b ↦ elim (Option-cases (s.ofile a)) [
      | inl r ↦ absurd (let q = rw (e, argfd, b, r) at h in cc)
      | inr (g, r) ↦
          let q = rw (e, argfd, b, r) at h in
          let lt : a < nofile = ground arith in
          let w : a ≡ fd = cc in let v : g ≡ f = cc in (rw (← w) lt, rw (← w, ← v) r)
    ]
  ]
]

filedup-total : (f : ℕ) (t : Ftable) → 0 < (t f).ref → (t' : Ftable) × (filedup f t ≡ ok t')
unfolding filedup
filedup-total f t h =
    let z : ltb (t f).ref 1 ≡ false = ground arith in
    (update t f (record (t f) { ref = (t f).ref + 1 }), rw (filedup, z))

closed :
    (s : Caller) (u : User) (f fd : ℕ) (o : Ofile) (t : Ftable)
    → Gave f s.ofile fd o
    → filedup f s.files ≡ ok t
    → argint u 0 ≡ some fd
    → sys_close (record { user = u; ofile = o; files = t })
      ≡ ok (some nothing, record s { user = u })
unfolding sys_close
closed s u f fd o t g d a =
    let c : Caller = record { user = u; ofile = o; files = t } in
    let h : argfd c 0 ≡ some (fd, f) = argfd_lem c 0 fd f a g.lt (holds_given f s.ofile o fd g) in
    rw (h, sys_close, fileclose-filedup f s.files t d)
      (ap (λ (p : Ofile). ok (some nothing, record s { user = u; ofile = p }))
        (restored f s.ofile o fd g))

-- `sys_dup`, by a process whose descriptors hold referenced files, returns a free descriptor, and a
-- `sys_close` of it, whatever the process's memory is by then, gives back the descriptors and the
-- table of files as they were and closes nothing else; or it returns -1 and changes nothing, and then
-- its argument is no open descriptor or all descriptors are in use. It never panics.
pub sys_close-sys_dup :
    (s : Caller)
    → IsHeld s
    → ((fd : ℕ) × (s' : Caller) × (sys_dup s ≡ ok (some fd, s'))
        × (fd < nofile)
        × (s.ofile fd ≡ none)
        × ((u : User)
            → argint u 0 ≡ some fd
            → sys_close (record s' { user = u }) ≡ ok (some nothing, record s { user = u })))
      ⊎ ((sys_dup s ≡ ok (none, s)) × ((argfd s 0 ≡ none) ⊎ IsFull s.ofile))
unfolding sys_dup dup_at
sys_close-sys_dup s held = elim (Option-cases (argfd s 0)) [
  | inl e ↦ inr (rw (e, sys_dup), inl e)
  | inr ((a, f), e) ↦ elim (fdalloc_lem f s.ofile) [
    | inr (r, full) ↦ inr (rw (e, sys_dup, r), inr full)
    | inl (fd, o, r, g) ↦
        let (lt, h) = argfd-inv s 0 a f e in
        let (t, d) = filedup-total f s.files (held a f lt h) in
        inl (
          fd,
          record s { ofile = o; files = t },
          rw (e, sys_dup, r, d),
          g.lt,
          g.was_null,
          λ u q. closed s u f fd o t g d q,
        )
  ]
]
