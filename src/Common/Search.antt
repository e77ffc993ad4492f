-- ===== src/Common/Search.antt =====
-- The kernel's linear searches: the first index from `i`, of `k` in all, at which a test holds.
use Prim.Native.Nat.{ℕ, zero, suc, ◌+◌, ◌≤◌, ◌<◌}
use mathlib.Core.Path.{◌≡◌}
use mathlib.Core.Bool.{Bool, true, false}
use mathlib.Core.Option.{Option, none, some}
use native.Mathlib.Omega.{arith}
use native.Mathlib.Decide.{ℕ_discrete}
use mathlib.Core.Logic.{inl, inr}
use rain_os.Common.Tests.{if◌then◌else◌, Bool-cases}

unfoldable pub find_index : (ℕ → Bool) → ℕ → ℕ → Option ℕ
find_index test zero i = none
find_index test (suc k) i = let rest = find_index test k (i + 1) in if test i then some i else rest

-- `j` is the first hit of a search over `i`, …, `i + k - 1`.
pub record IsFirst (test : ℕ → Bool) (k i j : ℕ) : Type 0 where
  pub lower : i ≤ j
  pub upper : j < i + k
  pub hit : test j ≡ true
  pub first : (m : ℕ) → i ≤ m → m < j → test m ≡ false

pub find_index-some :
    (test : ℕ → Bool) (k i j : ℕ) → find_index test k i ≡ some j → IsFirst test k i j
unfolding find_index
find_index-some test zero i j h = absurd (ground arith)
find_index-some test (suc k) i j h = elim (Bool-cases (test i)) [
  | inl e ↦
      let q : i ≡ j = ground arith in
      record {
        lower = omega arith;
        upper = omega arith;
        hit = rw (← q) e;
        first = λ m lo hi. absurd (omega arith);
      }
  | inr e ↦
      let r = find_index-some test k (i + 1) j (ground arith) in
      record {
        lower = omega (arith, r.lower);
        upper = omega (arith, r.upper);
        hit = r.hit;
        first =
            λ m lo hi. elim (ℕ_discrete m i) [ yes q ↦ rw q e | no q ↦ r.first m (omega arith) hi ];
      }
]

pub find_index-none :
    (test : ℕ → Bool) (k i : ℕ)
    → find_index test k i ≡ none
    → (m : ℕ) → i ≤ m
    → m < i + k
    → test m ≡ false
unfolding find_index
find_index-none test zero i h m lo hi = absurd (omega arith)
find_index-none test (suc k) i h m lo hi = elim (Bool-cases (test i)) [
  | inl e ↦ absurd (ground arith)
  | inr e ↦ elim (ℕ_discrete m i) [
    | yes q ↦ rw q e
    | no q ↦ find_index-none test k (i + 1) (ground arith) m (omega arith) (omega arith)
  ]
]

-- The first hit is what the search returns.
pub find_index-first :
    (test : ℕ → Bool) (k i j : ℕ) → IsFirst test k i j → find_index test k i ≡ some j
unfolding find_index
find_index-first test zero i j r = absurd (omega (arith, r.lower, r.upper))
find_index-first test (suc k) i j r = elim (ℕ_discrete i j) [
  | yes q ↦ rw (q, r.hit)
  | no q ↦ rw (r.first i (omega arith) (omega (arith, r.lower))) (
      find_index-first test k (i + 1) j (record {
        lower = omega (arith, r.lower);
        upper = omega (arith, r.upper);
        hit = r.hit;
        first = λ m lo hi. r.first m (omega arith) hi;
      }))
]
