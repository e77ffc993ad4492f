-- ===== src/Syscall/Tests.antt =====
-- The fetched arguments at a concrete process.
use rain_os.Common.{
  ◌+◌, ◌-◌, ◌≤◌, ◌<◌, ◌≡◌, refl, none, some, arith, ◌==◌, if◌then◌else◌, word, int_at,
}
use rain_os.Syscall.{User, fetchint, argint, argptr}
use rain_os.Syscall.Args.{fetchint_lem, argptr-bounds, argptr-negative}

-- One page, with the stack at 4000: its first argument is the address 4090, its second is 5.
abbrev user : User
user = record {
  sz = 4096;
  esp = 4000;
  mem = λ a. if a == 4004 then 250 else if a == 4005 then 15 else if a == 4008 then 5 else 0;
}

fetchint_lem_example :
    (4004 + 4 ≤ user.sz → fetchint user 4004 ≡ some (int_at user.mem 4004))
    × (user.sz < 4004 + 4 → fetchint user 4004 ≡ none)
fetchint_lem_example = fetchint_lem user 4004 (omega arith) (omega arith)

argptr-user : argptr user 0 5 ≡ some 4090
unfolding argptr
argptr-user = refl

argptr-bounds_example : (4090 < user.sz) × (4090 + 5 ≤ user.sz)
argptr-bounds_example = argptr-bounds user 0 5 4090 (omega arith) (omega arith) argptr-user

argint-user : argint user 0 ≡ some 4090
unfolding argint
argint-user = refl

-- The size -1.
argptr-negative_example : argptr user 0 (word - 1) ≡ some 4090
argptr-negative_example =
    argptr-negative user 0 (word - 1) 4090 (omega arith) argint-user (omega arith) (omega arith)
      (omega arith)
