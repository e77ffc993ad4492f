-- ===== src/String.antt =====
-- The byte functions of string.c on a memory of bytes. A pointer is an address; the source's
-- blocks lie below the end of the address space, so that `s + n` does not wrap. A `char` is its
-- unsigned byte.
pub mod Moves
pub mod Copies
pub mod Compare
pub mod Fill
mod Tests
use rain_os.Common.{
  ℕ, zero, suc, ◌+◌, ◌-◌, ◌*◌, ◌/◌, ◌%◌, Bool, true, false, not, ◌&&◌, ◌||◌, Option, none, some,
  ◌==◌, ltb, if◌then◌else◌, update, sub_word,
}

abbrev pub Memory : Type 0
Memory = ℕ → ℕ

-- `while(n-- > 0) *--d = *--s;` with both pointers at their ends.
pub copy_down : (n d s : ℕ) → Memory → Memory
copy_down zero d s m = m
copy_down (suc n) d s m = copy_down n (d - 1) (s - 1) (update m (d - 1) (m (s - 1)))

-- `while(n-- > 0) *d++ = *s++;`
pub copy_up : (n d s : ℕ) → Memory → Memory
copy_up zero d s m = m
copy_up (suc n) d s m = copy_up n (d + 1) (s + 1) (update m d (m s))

unfoldable pub memmove : (dst src n : ℕ) → Memory → Memory
unfolding copy_down copy_up
memmove dst src n m =
    if ltb src dst && ltb dst (src + n)
    then copy_down n (dst + n) (src + n) m
    else copy_up n dst src m

-- `while(n-- > 0) *s++ = 0;`
pub zero_fill : (n s : ℕ) → Memory → Memory
zero_fill zero s m = m
zero_fill (suc n) s m = zero_fill n (s + 1) (update m s 0)

-- `strncpy` of `n` bytes, which pads with zeros.
pub strncpy : (s t n : ℕ) → Memory → Memory
unfolding zero_fill
strncpy s t zero m = m
strncpy s t (suc n) m =
    let m' = update m s (m t) in
    let rest = strncpy (s + 1) (t + 1) n m' in if m t == 0 then zero_fill n (s + 1) m' else rest

-- The loop of `safestrcpy` with `n` rounds left, and the zero after it.
pub safe_from : (s t n : ℕ) → Memory → Memory
safe_from s t zero m = update m s 0
safe_from s t (suc n) m =
    let m' = update m s (m t) in
    let rest = safe_from (s + 1) (t + 1) n m' in if m t == 0 then update m' (s + 1) 0 else rest

pub safestrcpy : (s t n : ℕ) → Memory → Memory
unfolding safe_from
safestrcpy s t zero m = m
safestrcpy s t (suc n) m = safe_from s t n m

-- `stosb(dst, c, n)`: `n` times the byte `c`.
pub stosb : (dst c n : ℕ) → Memory → Memory
stosb dst c zero m = m
stosb dst c (suc n) m = stosb (dst + 1) c n (update m dst (c % 256))

-- `stosl(dst, x, n)`: `n` times the four bytes of `x`.
pub stosl : (dst x n : ℕ) → Memory → Memory
stosl dst x zero m = m
stosl dst x (suc n) m =
    let m1 = update m dst (x % 256) in
    let m2 = update m1 (dst + 1) (x / 256 % 256) in
    let m3 = update m2 (dst + 2) (x / 65536 % 256) in
    stosl (dst + 4) x n (update m3 (dst + 3) (x / 16777216 % 256))

pub memset : (dst c n : ℕ) → Memory → Memory
unfolding stosb stosl
memset dst c n m =
    let b = c % 256 in
    if dst % 4 == 0 && n % 4 == 0
    then stosl dst (b * 16777216 + b * 65536 + b * 256 + b) (n / 4) m
    else stosb dst c n m

-- The result is the 32-bit pattern of the difference of the first bytes that differ.
pub memcmp : (v1 v2 n : ℕ) → Memory → ℕ
memcmp v1 v2 zero m = 0
memcmp v1 v2 (suc n) m =
    let rest = memcmp (v1 + 1) (v2 + 1) n m in if m v1 == m v2 then rest else sub_word (m v1) (m v2)

unfoldable pub strncmp : (p q n : ℕ) → Memory → ℕ
strncmp p q zero m = 0
strncmp p q (suc n) m =
    let rest = strncmp (p + 1) (q + 1) n m in
    if not (m p == 0) && m p == m q then rest else sub_word (m p) (m q)

-- The loop of `strlen` at `n`; none means that the fuel ran out.
pub strlen_from : ℕ → (s n : ℕ) → Memory → Option ℕ
strlen_from zero s n m = none
strlen_from (suc fuel) s n m =
    let rest = strlen_from fuel s (n + 1) m in if m (s + n) == 0 then some n else rest

pub strlen : ℕ → ℕ → Memory → Option ℕ
unfolding strlen_from
strlen fuel s m = strlen_from fuel s 0 m
