-- ===== src/Common/Bytes.antt =====
-- 32-bit words in a memory of bytes, low byte first, and single bits of a byte.
use Prim.Native.Nat.{ℕ, zero, suc, ◌+◌, ◌-◌, ◌*◌, ◌/◌, ◌%◌, ◌^◌, ◌≤◌, ◌<◌}
use mathlib.Core.Path.{◌≡◌, refl, sym, ap, ◌∙◌}
use mathlib.Core.Logic.{◌≢◌, ◌⊎◌}
use native.Mathlib.Nat.{pow-succ', div-div-eq-div-mul}
use native.Mathlib.Omega.{arith}
use rain_os.Common.Maps.{update}
use rain_os.Common.Words.{word}

abbrev pub int_at : (ℕ → ℕ) → ℕ → ℕ
int_at m a = m a + 256 * m (a + 1) + 65536 * m (a + 2) + 16777216 * m (a + 3)

unfoldable pub put_int : (ℕ → ℕ) → ℕ → ℕ → ℕ → ℕ
put_int m a v =
    update
      (update (update (update m a (v % 256)) (a + 1) (v / 256 % 256)) (a + 2) (v / 65536 % 256))
      (a + 3) (v / 16777216 % 256)

pub int_at-put_int : (m : ℕ → ℕ) (a v : ℕ) → v < word → int_at (put_int m a v) a ≡ v
unfolding put_int
int_at-put_int m a v h = ground arith

pub put_int-outside : (m : ℕ → ℕ) (a v b : ℕ) → (b < a) ⊎ (a + 4 ≤ b) → put_int m a v b ≡ m b
unfolding put_int
put_int-outside m a v b h = ground arith

-- Bit `k` of `x`.
abbrev pub bit : ℕ → ℕ → ℕ
bit x k = x / 2 ^ k % 2

bit-suc : (x k : ℕ) → bit x (suc k) ≡ bit (x / 2) k
bit-suc x k =
    ap (λ (n : ℕ). x / n % 2) (pow-succ' 2 k)
    ∙ ap (λ (n : ℕ). n % 2) (sym (div-div-eq-div-mul x 2 (2 ^ k)))

bit-zero : (x : ℕ) → bit x 0 ≡ x % 2
bit-zero x = omega arith

double : (k : ℕ) → 2 ^ suc k ≡ 2 * 2 ^ k
double k = pow-succ' 2 k

half_add : (x k : ℕ) → (x + 2 ^ suc k) / 2 ≡ x / 2 + 2 ^ k
half_add x k = omega (arith, double k)

half_sub : (x k : ℕ) → (x - 2 ^ suc k) / 2 ≡ x / 2 - 2 ^ k
half_sub x k = omega (arith, double k)

-- Setting a clear bit sets it and no other.
pub bit-add_self : (x k : ℕ) → bit x k ≡ 0 → bit (x + 2 ^ k) k ≡ 1
bit-add_self x zero h = omega (arith, h)
bit-add_self x (suc k) h =
    bit-suc (x + 2 ^ suc k) k
    ∙ ap (λ (y : ℕ). bit y k) (half_add x k)
    ∙ bit-add_self (x / 2) k (sym (bit-suc x k) ∙ h)

pub bit-add_ne : (x k j : ℕ) → bit x k ≡ 0 → j ≢ k → bit (x + 2 ^ k) j ≡ bit x j
bit-add_ne x zero zero h ne = absurd (ne refl)
bit-add_ne x zero (suc j) h ne =
    bit-suc (x + 2 ^ 0) j ∙ ap (λ (y : ℕ). bit y j) (omega (arith, h)) ∙ sym (bit-suc x j)
bit-add_ne x (suc k) zero h ne = omega (arith, double k)
bit-add_ne x (suc k) (suc j) h ne =
    bit-suc (x + 2 ^ suc k) j
    ∙ ap (λ (y : ℕ). bit y j) (half_add x k)
    ∙ bit-add_ne (x / 2) k j (sym (bit-suc x k) ∙ h) (λ q. ne (ap suc q))
    ∙ sym (bit-suc x j)

-- Clearing a set bit clears it and no other.
pub bit-sub_self : (x k : ℕ) → bit x k ≡ 1 → bit (x - 2 ^ k) k ≡ 0
bit-sub_self x zero h = omega (arith, h)
bit-sub_self x (suc k) h =
    bit-suc (x - 2 ^ suc k) k
    ∙ ap (λ (y : ℕ). bit y k) (half_sub x k)
    ∙ bit-sub_self (x / 2) k (sym (bit-suc x k) ∙ h)

bit-le : (x k : ℕ) → bit x k ≡ 1 → 2 ^ k ≤ x
bit-le x zero h = omega (arith, h)
bit-le x (suc k) h = omega (arith, double k, bit-le (x / 2) k (sym (bit-suc x k) ∙ h))

pub bit-sub_ne : (x k j : ℕ) → bit x k ≡ 1 → j ≢ k → bit (x - 2 ^ k) j ≡ bit x j
bit-sub_ne x zero zero h ne = absurd (ne refl)
bit-sub_ne x zero (suc j) h ne =
    bit-suc (x - 2 ^ 0) j ∙ ap (λ (y : ℕ). bit y j) (omega (arith, h)) ∙ sym (bit-suc x j)
bit-sub_ne x (suc k) zero h ne = omega (arith, double k, bit-le x (suc k) h)
bit-sub_ne x (suc k) (suc j) h ne =
    bit-suc (x - 2 ^ suc k) j
    ∙ ap (λ (y : ℕ). bit y j) (half_sub x k)
    ∙ bit-sub_ne (x / 2) k j (sym (bit-suc x k) ∙ h) (λ q. ne (ap suc q))
    ∙ sym (bit-suc x j)

-- 16-bit words.
abbrev pub short_at : (ℕ → ℕ) → ℕ → ℕ
short_at m a = m a + 256 * m (a + 1)

pub put_short : (ℕ → ℕ) → ℕ → ℕ → ℕ → ℕ
put_short m a v = update (update m a (v % 256)) (a + 1) (v / 256 % 256)

pub short_at-put_short : (m : ℕ → ℕ) (a v : ℕ) → v < 65536 → short_at (put_short m a v) a ≡ v
unfolding put_short
short_at-put_short m a v h = ground arith

pub put_short-outside : (m : ℕ → ℕ) (a v b : ℕ) → (b < a) ⊎ (a + 2 ≤ b) → put_short m a v b ≡ m b
unfolding put_short
put_short-outside m a v b h = ground arith

-- Memories that agree on a word's bytes hold the same word there.
pub int_at-same :
    (m m' : ℕ → ℕ) (a : ℕ) → ((b : ℕ) → a ≤ b → b < a + 4 → m' b ≡ m b) → int_at m' a ≡ int_at m a
int_at-same m m' a h = omega (
  arith,
  h a (omega arith) (omega arith),
  h (a + 1) (omega arith) (omega arith),
  h (a + 2) (omega arith) (omega arith),
  h (a + 3) (omega arith) (omega arith),
)

pub short_at-same :
    (m m' : ℕ → ℕ) (a : ℕ)
    → ((b : ℕ) → a ≤ b → b < a + 2 → m' b ≡ m b)
    → short_at m' a ≡ short_at m a
short_at-same m m' a h =
    omega (arith, h a (omega arith) (omega arith), h (a + 1) (omega arith) (omega arith))
