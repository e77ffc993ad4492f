-- ===== src/Common/Words.antt =====
-- C's `int` and `uint` as 32-bit patterns: a number below `2 ^ 32`, wrapped by `%`.
use Prim.Native.Nat.{ℕ, ◌+◌, ◌-◌, ◌%◌, ◌^◌}
use mathlib.Core.Bool.{Bool}
use rain_os.Common.Tests.{ltb, leb, if◌then◌else◌}

abbrev pub word : ℕ
word = 2 ^ 32

-- `a + b` and `a - b` on `uint`.
abbrev pub add_word : ℕ → ℕ → ℕ
add_word a b = (a + b) % word

abbrev pub sub_word : ℕ → ℕ → ℕ
sub_word a b = (a + word - b) % word

-- The sign bit of an `int`.
abbrev pub is_negative : ℕ → Bool
is_negative a = leb (2 ^ 31) a

-- `a < b` on `int`: the order of the patterns with the sign bit flipped.
abbrev pub lt_int : ℕ → ℕ → Bool
lt_int a b = ltb ((a + 2 ^ 31) % word) ((b + 2 ^ 31) % word)

-- The rounds of `for (i = 0; i < a; i++)` with `int i, a`.
abbrev pub rounds : ℕ → ℕ
rounds a = if is_negative a then 0 else a
