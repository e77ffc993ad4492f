-- ===== src/Ulib.antt =====
-- The user programs' library, ulib.c, on a memory of bytes. The loops along a string run on fuel.
pub mod Atoi
mod Tests
use rain_os.Common.{
  ℕ, zero, suc, ◌+◌, ◌-◌, ◌*◌, ◌/◌, ◌%◌, Bool, true, false, not, ◌||◌, ◌&&◌, List, [], ◌∷◌, Option,
  none, some, ◌==◌, ltb, leb, if◌then◌else◌, update, word, add_word, sub_word,
}
use rain_os.String.{Memory, stosb}

pub strcpy : (fuel s t : ℕ) → Memory → Option Memory
strcpy zero s t m = none
strcpy (suc fuel) s t m =
    let m' = update m s (m t) in
    let rest = strcpy fuel (s + 1) (t + 1) m' in if not (m t == 0) then rest else some m'

pub strcmp : (fuel p q : ℕ) → Memory → Option ℕ
strcmp zero p q m = none
strcmp (suc fuel) p q m =
    let rest = strcmp fuel (p + 1) (q + 1) m in
    if not (m p == 0) && m p == m q then rest else some (sub_word (m p) (m q))

-- The loop of `strlen` at `n`.
unfoldable pub length_from : (fuel s n : ℕ) → Memory → Option ℕ
length_from zero s n m = none
length_from (suc fuel) s n m =
    let rest = length_from fuel s (n + 1) m in if not (m (s + n) == 0) then rest else some n

pub memset : (dst c n : ℕ) → Memory → Memory
memset dst c n m = stosb dst c n m

-- A null pointer is 0.
pub strchr : (fuel s c : ℕ) → Memory → Option ℕ
strchr zero s c m = none
strchr (suc fuel) s c m =
    let rest = strchr fuel (s + 1) c m in
    if m s == 0 then some 0 else if m s == c % 256 then some s else rest

-- The loop of `gets` at `i`, where `read` returns the bytes of the list one by one and then fails: the
-- bytes that are left, and the memory.
pub gets_from : (buf max i : ℕ) → List ℕ → Memory → List ℕ × Memory
gets_from buf max i [] m = ([], update m (buf + i) 0)
gets_from buf max i (c ∷ cs) m =
    let m' = update m (buf + i) c in
    let rest = gets_from buf max (i + 1) cs m' in
    if not (ltb (i + 1) max)
    then (c ∷ cs, update m (buf + i) 0)
    else if c == 10 || c == 13
    then (cs, update m' (buf + (i + 1)) 0)
    else rest

pub gets : (buf max : ℕ) → List ℕ → Memory → List ℕ × Memory
unfolding gets_from
gets buf max input m = gets_from buf max 0 input m

abbrev pub is_digit : ℕ → Bool
is_digit c = leb 48 c && leb c 57

-- The loop of `atoi` at `s`, with the value of what is read.
pub atoi_from : (fuel n s : ℕ) → Memory → Option ℕ
atoi_from zero n s m = none
atoi_from (suc fuel) n s m =
    let rest = atoi_from fuel (sub_word (add_word (n * 10 % word) (m s)) 48) (s + 1) m in
    if is_digit (m s) then rest else some n

pub atoi : (fuel s : ℕ) → Memory → Option ℕ
unfolding atoi_from
atoi fuel s m = atoi_from fuel 0 s m

-- `memmove` of ulib.c, which always copies upwards.
pub memmove : (dst src n : ℕ) → Memory → Memory
memmove dst src zero m = m
memmove dst src (suc n) m = memmove (dst + 1) (src + 1) n (update m dst (m src))
