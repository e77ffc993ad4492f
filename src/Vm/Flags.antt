-- ===== src/Vm/Flags.antt =====
-- The bitwise or of an aligned address and of flags below its alignment.
use rain_os.Common.{ℕ, zero, suc, ◌+◌, ◌-◌, ◌*◌, ◌/◌, ◌%◌, ◌^◌, ◌<◌, ◌≡◌, arith, ap, ◌∙◌}
use native.Mathlib.Nat.{pow-succ'}
use rain_os.Vm.{bor}

pub bor-zero : (w a : ℕ) → a < 2 ^ w → bor w a 0 ≡ a
unfolding bor
bor-zero zero a h = omega arith
bor-zero (suc w) a h =
    let ih = bor-zero w (a / 2) (omega (arith, pow-succ' 2 w)) in ground (arith, ih)

shift : (q k : ℕ) → q * 2 ^ suc k ≡ 2 * (q * 2 ^ k)
shift q k = ap (λ (n : ℕ). q * n) (pow-succ' 2 k) ∙ omega arith

-- Flags are added to an address whose low bits are clear.
pub bor-add :
    (w k q b : ℕ) → b < 2 ^ k → q * 2 ^ k < 2 ^ w → b < 2 ^ w → bor w (q * 2 ^ k) b ≡ q * 2 ^ k + b
unfolding bor
bor-add zero k q b hb aw bw = omega arith
bor-add (suc w) zero q b hb aw bw =
    let z : b ≡ 0 = omega arith in
    ap (bor (suc w) (q * 2 ^ 0)) z ∙ bor-zero (suc w) (q * 2 ^ 0) aw ∙ omega (arith, z)
bor-add (suc w) (suc k) q b hb aw bw =
    let e = shift q k in
    let p = pow-succ' 2 k in
    let r = pow-succ' 2 w in
    let h : q * 2 ^ suc k / 2 ≡ q * 2 ^ k = omega (arith, e) in
    let ih = bor-add w k q (b / 2) (omega (arith, p)) (omega (arith, e, r)) (omega (arith, r)) in
    let ih' : bor w (q * 2 ^ suc k / 2) (b / 2) ≡ q * 2 ^ k + b / 2 =
      ap (λ (n : ℕ). bor w n (b / 2)) h ∙ ih in
    ground (arith, ih', e)

-- The lowest flag.
pub bor-one : (w a : ℕ) → a < 2 ^ suc w → bor (suc w) a 1 ≡ a - a % 2 + 1
unfolding bor
bor-one w a h = let z = bor-zero w (a / 2) (omega (arith, pow-succ' 2 w)) in ground (arith, z)
