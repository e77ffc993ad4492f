-- ===== src/Descriptors/Tests.antt =====
-- A process with one open descriptor and its stack at 4000.
use rain_os.Common.{
  ℕ, zero, suc, ◌<◌, ◌≡◌, ◌⊎◌, refl, true, false, Option, none, some, List, arith, Outcome, ok,
  panic, ◌==◌, if◌then◌else◌, find_index, put_int,
}
use rain_os.Proc.{nofile}
use rain_os.FileTable.{
  fd_none, fd_pipe, File, Ftable, filealloc, filedup, Closing, nothing, pipealloc, with_file,
  with_first,
}
use rain_os.FileTable.Undo.{IsCleared}
use rain_os.Syscall.{User, fetchint, argint, argptr}
use rain_os.Descriptors.{
  Ofile, Caller, PipeResult, argfd, fdalloc, sys_dup, sys_close, piped, refused, store_ends,
  sys_pipe,
}
use rain_os.Descriptors.Slots.{IsFull}
use rain_os.Descriptors.Dup.{IsHeld, sys_close-sys_dup}
use rain_os.Descriptors.DropEnds.{IsUnused}
use rain_os.Descriptors.MakePipe.{IsGiven, IsRefused, sys_pipe_lem}

abbrev blank : File
blank = record {
  kind = fd_none;
  ref = 0;
  readable = false;
  writable = false;
  pipe = 0;
  ip = 0;
  off = 0;
}

abbrev table : Ftable
table i =
    if i == 0 then record blank { kind = fd_pipe; ref = 1; writable = true; pipe = 4096 } else blank

-- Descriptor 0 holds file 0.
abbrev only_zero : Ofile
only_zero zero = some 0
only_zero (suc _) = none

-- The argument is the descriptor 0.
abbrev caller : Caller
caller = record {
  user = record { sz = 4096; esp = 4000; mem = λ a. 0 };
  ofile = only_zero;
  files = table;
}

-- The argument is the address 4088.
abbrev piper : Caller
piper = record caller {
  user = record (caller.user) { mem = λ a. if a == 4004 then 248 else if a == 4005 then 15 else 0 };
}

caller-IsHeld : IsHeld caller
caller-IsHeld zero f lt h = let q : 0 ≡ f = cc in ground (arith, q)
caller-IsHeld (suc fd) f lt h = absurd (cc)

sys_close-sys_dup_example :
    ((fd : ℕ) × (s' : Caller) × (sys_dup caller ≡ ok (some fd, s'))
      × (fd < nofile)
      × (caller.ofile fd ≡ none)
      × ((u : User)
          → argint u 0 ≡ some fd
          → sys_close (record s' { user = u }) ≡ ok (some nothing, record caller { user = u })))
    ⊎ ((sys_dup caller ≡ ok (none, caller)) × ((argfd caller 0 ≡ none) ⊎ IsFull caller.ofile))
sys_close-sys_dup_example = sys_close-sys_dup caller caller-IsHeld

table-IsCleared : IsCleared table
table-IsCleared zero h = absurd (ground arith)
table-IsCleared (suc i) h = ground arith

sys_pipe_lem_example :
    ((s' : Caller) × (p rf wf fd0 fd1 : ℕ) × (argptr piper.user 0 8 ≡ some p)
      × (sys_pipe 8192 piper ≡ ok (piped s'))
      × IsGiven 8192 p piper s' rf wf fd0 fd1)
    ⊎ ((cs : List Closing) × (t : Ftable) × (sys_pipe 8192 piper
          ≡ ok (refused cs (record piper { files = t })))
        × IsUnused piper.files t
        × IsRefused 8192 piper cs)
sys_pipe_lem_example = sys_pipe_lem 8192 piper (omega arith) table-IsCleared

abbrev dup_result : Outcome (Option ℕ × Caller) → Option ℕ
dup_result (ok (r, s)) = r
dup_result panic = none

test-sys_dup : dup_result (sys_dup caller) ≡ some 1
unfolding sys_dup argfd argint fetchint fdalloc filedup find_index
test-sys_dup = refl

-- The descriptors stored, and the files of descriptors 1 and 2.
abbrev pipe_result : Outcome PipeResult → ℕ × ℕ × Option ℕ × Option ℕ
pipe_result (ok (piped s)) = (s.user.mem 4088, s.user.mem 4092, s.ofile 1, s.ofile 2)
pipe_result _ = (0, 0, none, none)

test-sys_pipe : pipe_result (sys_pipe 8192 piper) ≡ (1, 2, some 1, some 2)
unfolding sys_pipe argptr argint fetchint pipealloc with_file with_first filealloc fdalloc
    store_ends find_index put_int
test-sys_pipe = refl
