-- ===== src/String/Compare.antt =====
-- The comparisons and the length of strings.
use rain_os.Common.{
  ℕ, zero, suc, ◌+◌, ◌-◌, ◌<◌, ◌≡◌, ◌≢◌, ◌⊎◌, ◌↔◌, inl, inr, refl, ◌∙◌, ap, true, false, ◌==◌,
  arith, Bool-cases, some,
}
use native.Mathlib.Decide.{ℕ_discrete}
use rain_os.String.{Memory, memcmp, strncmp, strlen_from, strlen}

-- The memory holds bytes.
abbrev pub IsBytes : Memory → Type 0
IsBytes m = (a : ℕ) → m a < 256

-- `memcmp` returns 0 exactly for equal blocks.
pub memcmp_lem :
    (v1 v2 n : ℕ) (m : Memory)
    → IsBytes m
    → (memcmp v1 v2 n m ≡ 0) ↔ ((k : ℕ) → k < n → m (v1 + k) ≡ m (v2 + k))
unfolding memcmp
memcmp_lem v1 v2 zero m v = (λ h k lt. absurd (omega arith), λ h. refl)
memcmp_lem v1 v2 (suc n) m v =
    let ih = memcmp_lem (v1 + 1) (v2 + 1) n m v in
    elim (Bool-cases (m v1 == m v2)) [
      | inr e ↦ (
        λ h. absurd (let q = rw e at h in ground (arith, v v1, v v2)),
        λ h. absurd (let q = here (h 0 (omega arith)) in ground arith),
      )
      | inl e ↦
          let eq : m v1 ≡ m v2 = ground arith in
          rw e (
            λ h k lt. elim (ℕ_discrete k 0) [
              | yes z ↦ ap m (omega arith) ∙ eq ∙ ap m (omega arith)
              | no z ↦ ap m (omega arith) ∙ ih.0 h (k - 1) (omega arith) ∙ ap m (omega arith)
            ],
            λ h. ih.1 (λ k lt. ap m (omega arith) ∙ h (k + 1) (omega arith) ∙ ap m (omega arith)),
          )
    ]
  where
    here : m (v1 + 0) ≡ m (v2 + 0) → m v1 ≡ m v2
    here h = ap m (omega arith) ∙ h ∙ ap m (omega arith)

-- The strings at `p` and `q` agree in their first `n` bytes, or up to a zero before.
pub Agrees : (p q n : ℕ) → Memory → Type 0
Agrees p q zero m = Unit
Agrees p q (suc n) m = (m p ≡ m q) × ((m p ≡ 0) ⊎ Agrees (p + 1) (q + 1) n m)

-- `strncmp` returns 0 exactly for strings that agree in their first `n` bytes.
pub strncmp_lem : (p q n : ℕ) (m : Memory) → IsBytes m → (strncmp p q n m ≡ 0) ↔ Agrees p q n m
unfolding strncmp Agrees
strncmp_lem p q zero m v = (λ h. tt, λ h. refl)
strncmp_lem p q (suc n) m v =
    let ih = strncmp_lem (p + 1) (q + 1) n m v in
    elim (Bool-cases (m p == m q)) [
      | inr e ↦ (λ h. absurd (ground (arith, v p, v q)), λ h. absurd (ground arith))
      | inl e ↦
          let eq : m p ≡ m q = ground arith in
          elim (Bool-cases (m p == 0)) [
            | inl z ↦ (λ h. (eq, inl (ground arith)), λ h. ground (arith, v p, v q))
            | inr z ↦
                rw (z, e)
                  (
                    λ h. (eq, inr (ih.0 h)),
                    λ h. elim (h.1) [ inl y ↦ absurd (ground arith) | inr y ↦ ih.1 y ],
                  )
          ]
    ]

strlen_from_lem :
    (fuel s n k : ℕ) (m : Memory)
    → m (s + n + k) ≡ 0
    → ((j : ℕ) → j < k → m (s + n + j) ≢ 0)
    → k < fuel
    → strlen_from fuel s n m ≡ some (n + k)
unfolding strlen_from
strlen_from_lem zero s n k m z nz lt = absurd (omega arith)
strlen_from_lem (suc fuel) s n k m z nz lt = elim (ℕ_discrete k 0) [
  | yes q ↦
      let e : m (s + n) ≡ 0 = ap m (omega arith) ∙ z in
      let t : (m (s + n) == 0) ≡ true = ground arith in rw t (ap some (omega arith))
  | no q ↦
      let e : m (s + n + 0) ≢ 0 = nz 0 (omega arith) in
      let f : m (s + n + 0) ≡ m (s + n) = ap m (omega arith) in
      let t : (m (s + n) == 0) ≡ false = ground arith in
      rw t (
        strlen_from_lem fuel s (n + 1) (k - 1) m (ap m (omega arith) ∙ z)
          (λ j hj w. nz (j + 1) (omega arith) (ap m (omega arith) ∙ w)) (omega arith)
        ∙ ap some (omega arith))
]

-- `strlen` counts the bytes before the zero.
pub strlen_lem :
    (fuel s k : ℕ) (m : Memory)
    → m (s + k) ≡ 0
    → ((j : ℕ) → j < k → m (s + j) ≢ 0)
    → k < fuel
    → strlen fuel s m ≡ some k
unfolding strlen
strlen_lem fuel s k m z nz lt =
    strlen_from_lem fuel s 0 k m (ap m (omega arith) ∙ z)
      (λ j hj w. nz j hj (ap m (omega arith) ∙ w)) lt
    ∙ ap some (omega arith)
