-- ===== src/Descriptors.antt =====
-- The system calls of sysfile.c on file descriptors: `sys_dup`, `sys_close` and `sys_pipe`, with
-- `argfd` and `fdalloc`. They join the arguments fetched from the caller's memory (Syscall), the
-- table of open files (FileTable) and the caller's descriptors. A descriptor holds the slot of its
-- file, or none for the null pointer.
pub mod Slots
pub mod Dup
pub mod DropEnds
pub mod MakePipe
mod Tests
use rain_os.Common.{
  ℕ, ◌+◌, ◌-◌, ◌||◌, Option, none, some, List, [], ◌∷◌, Outcome, ok, panic, ◌>>=◌, leb,
  if◌then◌else◌, update, is_negative, find_index, put_int,
}
use rain_os.Common.{Bool, true, false}
use rain_os.Proc.{nofile}
use rain_os.FileTable.{
  Ftable, filedup, Closing, fileclose, Pipealloc, made, unmade, crashed, pipealloc,
}
use rain_os.Syscall.{User, argint, argptr}

abbrev pub Ofile : Type 0
Ofile = ℕ → Option ℕ

-- What the calls use of `proc`, and the table of open files.
pub record Caller : Type 0 where
  pub user : User
  pub ofile : Ofile
  pub files : Ftable

-- The descriptor and its file; none is the result -1.
pub argfd : Caller → ℕ → Option (ℕ × ℕ)
argfd s n = elim (argint s.user n) [
  | none ↦ none
  | some fd ↦
      if is_negative fd || leb nofile fd
      then none
      else elim (s.ofile fd) [ none ↦ none | some f ↦ some (fd, f) ]
]

abbrev pub is_null : Ofile → ℕ → Bool
is_null o fd = elim (o fd) [ none ↦ true | some _ ↦ false ]

pub fdalloc : ℕ → Ofile → Option ℕ × Ofile
fdalloc f o = elim (find_index (is_null o) nofile 0) [
  | none ↦ (none, o)
  | some fd ↦ (some fd, update o fd (some f))
]

-- What follows `argfd` in `sys_dup`, given what `fdalloc` returns.
pub dup_at : ℕ → Option ℕ × Ofile → Caller → Outcome (Option ℕ × Caller)
dup_at f (none, o) s = ok (none, s)
dup_at f (some fd, o) s = filedup f s.files >>= λ t. ok (some fd, record s { ofile = o; files = t })

-- The new descriptor, or none for -1.
pub sys_dup : Caller → Outcome (Option ℕ × Caller)
unfolding argfd fdalloc dup_at
sys_dup s = elim (argfd s 0) [ none ↦ ok (none, s) | some (_, f) ↦ dup_at f (fdalloc f s.ofile) s ]

-- What the closed file leaves to do, or none for -1.
pub sys_close : Caller → Outcome (Option Closing × Caller)
unfolding argfd
sys_close s = elim (argfd s 0) [
  | none ↦ ok (none, s)
  | some (fd, f) ↦ fileclose f s.files >>= λ (c, t).
      ok (some c, record s { ofile = update s.ofile fd none; files = t })
]

-- The results of `sys_pipe`: 0, with the descriptors stored; or -1, with what the two closed files
-- leave to do.
pub data PipeResult : Type 0 where
  piped : Caller → PipeResult
  refused : List Closing → Caller → PipeResult

-- The error exit of `sys_pipe` once the files exist.
pub drop_ends : (rf wf : ℕ) → Ofile → Caller → Outcome PipeResult
drop_ends rf wf o s = fileclose rf s.files >>= λ (c0, t0).
    fileclose wf t0 >>= λ (c1, t1). ok (refused (c0 ∷ c1 ∷ []) (record s { ofile = o; files = t1 }))

-- `sys_pipe` with the files `rf` and `wf`, and the first descriptor when there is one.
pub store_ends : (fd rf wf : ℕ) → Option ℕ × Ofile → Caller → Outcome PipeResult
unfolding fdalloc drop_ends
store_ends fd rf wf (none, o) s = drop_ends rf wf o s
store_ends fd rf wf (some fd0, o) s =
    let (second, o') = fdalloc wf o in
    elim second [
      | none ↦ drop_ends rf wf (update o' fd0 none) s
      | some fd1 ↦ ok (
          piped (record s {
            ofile = o';
            user = record (s.user) { mem = put_int (put_int (s.user).mem fd fd0) (fd + 4) fd1 };
          }))
    ]

-- `sys_pipe`, given what `kalloc` returns.
pub sys_pipe : (page : ℕ) → Caller → Outcome PipeResult
unfolding fdalloc store_ends
sys_pipe page s = elim (argptr s.user 0 8) [
  | none ↦ ok (refused [] s)
  | some fd ↦ elim (pipealloc page s.files) [
    | crashed ↦ panic
    | unmade t ↦ ok (refused [] (record s { files = t }))
    | made rf wf t ↦ store_ends fd rf wf (fdalloc rf s.ofile) (record s { files = t })
  ]
]
