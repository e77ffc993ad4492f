-- ===== src/String/Moves.antt =====
-- `memmove` on blocks that may overlap.
use rain_os.Common.{
  ℕ, zero, suc, ◌+◌, ◌-◌, ◌≤◌, ◌<◌, ◌≡◌, ◌⊎◌, inl, inr, refl, ◌∙◌, ap, ◌&&◌, ltb, arith, update,
  update_self, update_ne, Bool-cases,
}
use native.Mathlib.Decide.{ℕ_discrete}
use rain_os.String.{Memory, copy_down, copy_up, memmove}

-- `m'` has at `dst` the `n` bytes that `m` has at `src`, and is `m` outside of them.
pub record IsMoved (dst src n : ℕ) (m m' : Memory) : Type 0 where
  pub inside : (k : ℕ) → k < n → m' (dst + k) ≡ m (src + k)
  pub outside : (a : ℕ) → (a < dst) ⊎ (dst + n ≤ a) → m' a ≡ m a

copy_up-IsMoved :
    (n d s : ℕ) (m : Memory) → (d ≤ s) ⊎ (s + n ≤ d) → IsMoved d s n m (copy_up n d s m)
unfolding copy_up
copy_up-IsMoved zero d s m far = record {
  inside = λ k lt. absurd (omega arith);
  outside = λ a o. refl;
}
copy_up-IsMoved (suc n) d s m far =
    let m1 = update m d (m s) in
    let r = copy_up-IsMoved n (d + 1) (s + 1) m1 (omega arith) in
    record {
      inside = λ k lt. elim (ℕ_discrete k 0) [
        | yes z ↦
            ap (copy_up n (d + 1) (s + 1) m1) (omega arith)
            ∙ r.outside d (inl (omega arith))
            ∙ update_self m d (m s)
            ∙ ap m (omega arith)
        | no z ↦
            ap (copy_up n (d + 1) (s + 1) m1) (omega arith)
            ∙ r.inside (k - 1) (omega arith)
            ∙ update_ne m d (s + 1 + (k - 1)) (m s) (λ q. absurd (omega arith))
            ∙ ap m (omega arith)
      ];
      outside =
          λ a o. r.outside a (omega arith) ∙ update_ne m d a (m s) (λ q. absurd (omega arith));
    }

copy_down-IsMoved :
    (n d s : ℕ) (m : Memory) → s ≤ d → IsMoved d s n m (copy_down n (d + n) (s + n) m)
unfolding copy_down
copy_down-IsMoved zero d s m le = record {
  inside = λ k lt. absurd (omega arith);
  outside = λ a o. refl;
}
copy_down-IsMoved (suc n) d s m le =
    let m1 = update m (d + n) (m (s + n)) in
    let r = copy_down-IsMoved n d s m1 le in
    let e : copy_down (suc n) (d + suc n) (s + suc n) m ≡ copy_down n (d + n) (s + n) m1 =
      last_first in
    record {
      inside = λ k lt. ap (λ (u : Memory). u (d + k)) e ∙ elim (ℕ_discrete k n) [
        | yes z ↦ rw z (r.outside (d + n) (inr (omega arith)) ∙ update_self m (d + n) (m (s + n)))
        | no z ↦
            r.inside k (omega arith)
            ∙ update_ne m (d + n) (s + k) (m (s + n)) (λ q. absurd (omega arith))
      ];
      outside = λ a o.
          ap (λ (u : Memory). u a) e
          ∙ r.outside a (omega arith)
          ∙ update_ne m (d + n) a (m (s + n)) (λ q. absurd (omega arith));
    }
  where
    last_first :
        copy_down (suc n) (d + suc n) (s + suc n) m
        ≡ copy_down n (d + n) (s + n) (update m (d + n) (m (s + n)))
    last_first =
        let a : (d + suc n - 1) ≡ d + n = omega arith in
        let b : (s + suc n - 1) ≡ s + n = omega arith in rw (a, b)

-- `memmove` copies the source block as it was, also where the blocks overlap, and changes nothing
-- outside of the destination.
pub memmove_lem : (dst src n : ℕ) (m : Memory) → IsMoved dst src n m (memmove dst src n m)
unfolding memmove
memmove_lem dst src n m = elim (Bool-cases (ltb src dst && ltb dst (src + n))) [
  | inl e ↦ rw e (copy_down-IsMoved n dst src m (ground arith))
  | inr e ↦ rw e (copy_up-IsMoved n dst src m (ground arith))
]
