-- ===== src/String/Fill.antt =====
-- `memset`, whose two ways to write agree.
use rain_os.Common.{
  ℕ, zero, suc, ◌+◌, ◌*◌, ◌/◌, ◌%◌, ◌≤◌, ◌<◌, ◌≡◌, ◌⊎◌, inl, inr, refl, ◌∙◌, ◌&&◌, ◌==◌, arith,
  update, update_self, update_ne, Bool-cases,
}
use native.Mathlib.Decide.{ℕ_discrete, dec_lt}
use rain_os.String.{Memory, stosb, stosl, memset}

-- `m'` has `b` in each of the `n` bytes at `dst`, and is `m` outside of them.
pub record IsFilled (dst n b : ℕ) (m m' : Memory) : Type 0 where
  pub inside : (a : ℕ) → dst ≤ a → a < dst + n → m' a ≡ b
  pub outside : (a : ℕ) → (a < dst) ⊎ (dst + n ≤ a) → m' a ≡ m a

stosb-IsFilled : (dst c n : ℕ) (m : Memory) → IsFilled dst n (c % 256) m (stosb dst c n m)
unfolding stosb
stosb-IsFilled dst c zero m = record {
  inside = λ a lo hi. absurd (omega arith);
  outside = λ a o. refl;
}
stosb-IsFilled dst c (suc n) m =
    let r = stosb-IsFilled (dst + 1) c n (update m dst (c % 256)) in
    record {
      inside = λ a lo hi. elim (ℕ_discrete a dst) [
        | yes q ↦ rw q (r.outside dst (inl (omega arith)) ∙ update_self m dst (c % 256))
        | no q ↦ r.inside a (omega arith) (omega arith)
      ];
      outside = λ a o.
          r.outside a (omega arith) ∙ update_ne m dst a (c % 256) (λ q. absurd (omega arith));
    }

-- One word of four equal bytes.
four :
    (dst b a : ℕ) (m : Memory)
    → let m3 = update (update (update m dst b) (dst + 1) b) (dst + 2) b in
      ((dst ≤ a) × (a < dst + 4) → update m3 (dst + 3) b a ≡ b)
      × ((a < dst) ⊎ (dst + 4 ≤ a) → update m3 (dst + 3) b a ≡ m a)
four dst b a m = (λ h. ground arith, λ h. ground arith)

stosl-IsFilled :
    (dst x b n : ℕ) (m : Memory)
    → (x % 256 ≡ b) × (x / 256 % 256 ≡ b) × (x / 65536 % 256 ≡ b) × (x / 16777216 % 256 ≡ b)
    → IsFilled dst (4 * n) b m (stosl dst x n m)
unfolding stosl
stosl-IsFilled dst x b zero m e = record {
  inside = λ a lo hi. absurd (omega arith);
  outside = λ a o. refl;
}
stosl-IsFilled dst x b (suc n) m e =
    let m4 = update (update (update (update m dst b) (dst + 1) b) (dst + 2) b) (dst + 3) b in
    let r = stosl-IsFilled (dst + 4) x b n m4 e in
    rw (e.0, e.1, e.2, e.3)
      (record {
        inside = λ a lo hi. elim (dec_lt a (dst + 4)) [
          | yes q ↦ r.outside a (inl q) ∙ (four dst b a m).0 (lo, q)
          | no q ↦ r.inside a (omega arith) (omega arith)
        ];
        outside = λ a o. r.outside a (omega arith) ∙ (four dst b a m).1 (omega arith);
      })

-- `memset` puts the low byte of `c` into each of the `n` bytes at `dst` and changes nothing else,
-- whether it writes bytes or words.
pub memset_lem : (dst c n : ℕ) (m : Memory) → IsFilled dst n (c % 256) m (memset dst c n m)
unfolding memset
memset_lem dst c n m = elim (Bool-cases (dst % 4 == 0 && n % 4 == 0)) [
  | inl e ↦
      let q : 4 * (n / 4) ≡ n = ground arith in
      let b = c % 256 in
      let x = b * 16777216 + b * 65536 + b * 256 + b in
      rw e (
        rw q at
          (stosl-IsFilled dst x b (n / 4) m (omega arith, omega arith, omega arith, omega arith)))
  | inr e ↦ rw e (stosb-IsFilled dst c n m)
]
