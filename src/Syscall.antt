-- ===== src/Syscall.antt =====
-- System calls (syscall.c): the arguments that the kernel fetches from the memory of the process,
-- and the dispatch on the number in %eax. Memory maps a user address to its byte.
pub mod Args
mod Tests
use rain_os.Common.{
  ℕ, zero, suc, ◌+◌, ◌-◌, ◌*◌, Bool, true, false, ◌&&◌, ◌||◌, Option, none, some, ◌==◌, ltb, leb,
  lt_int, if◌then◌else◌, add_word, word, int_at,
}

-- What the functions read of `proc`.
pub record User : Type 0 where
  pub sz : ℕ
  pub esp : ℕ
  pub mem : ℕ → ℕ

-- None is the result -1.
unfoldable pub fetchint : User → ℕ → Option ℕ
fetchint u addr =
    if leb u.sz addr || ltb u.sz (add_word addr 4) then none else some (int_at u.mem addr)

-- The loop of `fetchstr` with `k` bytes left at `s`: where it finds the zero.
unfoldable pub find_nul : (ℕ → ℕ) → (k s : ℕ) → Option ℕ
find_nul m zero s = none
find_nul m (suc k) s = let rest = find_nul m k (s + 1) in if m s == 0 then some s else rest

-- The string's length; its pointer is `addr`.
unfoldable pub fetchstr : User → ℕ → Option ℕ
unfolding find_nul
fetchstr u addr =
    if leb u.sz addr
    then none
    else elim (find_nul u.mem (u.sz - addr) addr) [ none ↦ none | some s ↦ some (s - addr) ]

unfoldable pub argint : User → ℕ → Option ℕ
unfolding fetchint
argint u n = fetchint u (add_word (add_word u.esp 4) (4 * n))

-- `size` is the 32-bit pattern of an `int`.
unfoldable pub argptr : User → (n size : ℕ) → Option ℕ
unfolding argint
argptr u n size = elim (argint u n) [
  | none ↦ none
  | some i ↦ if leb u.sz i || ltb u.sz (add_word i size) then none else some i
]

-- The string's address and length.
unfoldable pub argstr : User → ℕ → Option (ℕ × ℕ)
unfolding argint fetchstr
argstr u n = elim (argint u n) [
  | none ↦ none
  | some addr ↦ elim (fetchstr u addr) [ none ↦ none | some len ↦ some (addr, len) ]
]

-- `syscall`: %eax afterwards and the rest of the system, with the table of `nelem` entries.
pub syscall : {S : Type 0} → (nelem : ℕ) → (ℕ → Option (S → ℕ × S)) → (eax : ℕ) → S → ℕ × S
syscall nelem table num s =
    if lt_int 0 num && ltb num nelem
    then elim (table num) [ none ↦ (word - 1, s) | some call ↦ call s ]
    else (word - 1, s)
