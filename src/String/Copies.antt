-- ===== src/String/Copies.antt =====
-- `strncpy` and `safestrcpy` between blocks that do not overlap.
use rain_os.Common.{
  ℕ, zero, suc, ◌+◌, ◌-◌, ◌≤◌, ◌<◌, ◌≡◌, ◌≢◌, ◌⊎◌, inl, inr, refl, sym, ◌∙◌, ap, ◌==◌, arith,
  update, update_self, update_ne, Bool-cases,
}
use native.Mathlib.Decide.{ℕ_discrete}
use rain_os.String.{Memory, zero_fill, strncpy, safe_from, safestrcpy}

abbrev pub Apart : (s t n : ℕ) → Type 0
Apart s t n = (s + n ≤ t) ⊎ (t + n ≤ s)

-- `m'` has at `s` the `k` bytes before the string's end at `t`, none of them zero, and is `m`
-- outside of the `n` bytes at `s`.
pub record IsPrefix (s t n k : ℕ) (m m' : Memory) : Type 0 where
  pub copied : (j : ℕ) → j < k → (m' (s + j) ≡ m (t + j)) × (m (t + j) ≢ 0)
  pub outside : (a : ℕ) → (a < s) ⊎ (s + n ≤ a) → m' a ≡ m a

zero_fill_lem :
    (n s : ℕ) (m : Memory)
    → ((a : ℕ) → (a < s) ⊎ (s + n ≤ a) → zero_fill n s m a ≡ m a)
      × ((j : ℕ) → s ≤ j → j < s + n → zero_fill n s m j ≡ 0)
unfolding zero_fill
zero_fill_lem zero s m = (λ a o. refl, λ j le lt. absurd (omega arith))
zero_fill_lem (suc n) s m =
    let (out, ins) = zero_fill_lem n (s + 1) (update m s 0) in
    (
      λ a o. out a (omega arith) ∙ update_ne m s a 0 (λ q. absurd (omega arith)),
      λ j le lt. elim (ℕ_discrete j s) [
        | yes q ↦ rw q (out s (inl (omega arith)) ∙ update_self m s 0)
        | no q ↦ ins j (omega arith) (omega arith)
      ],
    )

-- One more byte in front of a prefix.
longer :
    (s t n k : ℕ) (m m' : Memory)
    → Apart s t (suc n)
    → k ≤ n
    → m t ≢ 0
    → IsPrefix (s + 1) (t + 1) n k (update m s (m t)) m'
    → IsPrefix s t (suc n) (suc k) m m'
longer s t n k m m' far le nz p = record {
  copied = λ j lt. elim (ℕ_discrete j 0) [
    | yes z ↦ (
      ap m' (omega arith)
          ∙ p.outside s (inl (omega arith))
          ∙ update_self m s (m t)
          ∙ ap m (omega arith),
      λ q. nz (ap m (omega arith) ∙ q),
    )
    | no z ↦
        let (e, ne) = p.copied (j - 1) (omega arith) in
        let same : update m s (m t) (t + 1 + (j - 1)) ≡ m (t + j) =
          update_ne m s (t + 1 + (j - 1)) (m t) (λ q. absurd (omega arith)) ∙ ap m (omega arith) in
        (ap m' (omega arith) ∙ e ∙ same, λ q. ne (same ∙ q))
  ];
  outside = λ a o. p.outside a (omega arith) ∙ update_ne m s a (m t) (λ q. absurd (omega arith));
}

-- A block of `n` bytes that starts with the zero at the string's end.
ended :
    (s t n : ℕ) (m m' : Memory)
    → ((a : ℕ) → (a < s) ⊎ (s + n ≤ a) → m' a ≡ m a)
    → IsPrefix s t n 0 m m'
ended s t n m m' out = record { copied = λ j lt. absurd (omega arith); outside = out }

-- Where the string ends, seen from one byte earlier.
further :
    (s t n k : ℕ) (m : Memory)
    → Apart s t (suc n)
    → k ≤ n
    → (k ≡ n) ⊎ (update m s (m t) (t + 1 + k) ≡ 0)
    → (suc k ≡ suc n) ⊎ (m (t + suc k) ≡ 0)
further s t n k m far le (inl q) = inl (omega arith)
further s t n k m far le (inr q) = elim (ℕ_discrete k n) [
  | yes r ↦ inl (omega arith)
  | no r ↦
      inr
        (ap m (omega arith) ∙ sym (update_ne m s (t + 1 + k) (m t) (λ w. absurd (omega arith))) ∙ q)
]

-- `strncpy` copies the string at `t` up to its end or to `n` bytes, fills the rest of the `n` bytes
-- at `s` with zeros and changes nothing else, if the blocks do not overlap.
pub strncpy_lem :
    (s t n : ℕ) (m : Memory)
    → Apart s t n
    → (k : ℕ) × (k ≤ n)
      × ((k ≡ n) ⊎ (m (t + k) ≡ 0))
      × IsPrefix s t n k m (strncpy s t n m)
      × ((j : ℕ) → k ≤ j → j < n → strncpy s t n m (s + j) ≡ 0)
unfolding strncpy
strncpy_lem s t zero m far =
    (0, omega arith, inl refl, ended s t 0 m m (λ a o. refl), λ j le lt. absurd (omega arith))
strncpy_lem s t (suc n) m far =
    let m1 = update m s (m t) in
    elim (Bool-cases (m t == 0)) [
      | inl e ↦
          let (out, ins) = zero_fill_lem n (s + 1) m1 in
          let z : m t ≡ 0 = ground arith in
          let here : m (t + 0) ≡ m t = ap m (omega arith) in
          rw e (
            0,
            omega arith,
            inr (here ∙ z),
            ended s t (suc n) m (zero_fill n (s + 1) m1)
                (λ a o. out a (omega arith) ∙ update_ne m s a (m t) (λ q. absurd (omega arith))),
            λ j le lt. elim (ℕ_discrete j 0) [
              | yes at_end ↦
                  ap (zero_fill n (s + 1) m1) (omega arith)
                  ∙ out s (inl (omega arith))
                  ∙ update_self m s (m t)
                  ∙ z
              | no nz ↦ ins (s + j) (omega arith) (omega arith)
            ],
          )
      | inr e ↦
          let (k, le, end, p, zeros) = strncpy_lem (s + 1) (t + 1) n m1 (omega arith) in
          let m' = strncpy (s + 1) (t + 1) n m1 in
          rw e (
            suc k,
            omega (arith, le),
            further s t n k m far le end,
            longer s t n k m m' far le (ground arith) p,
            λ j lo hi. ap m' (omega arith) ∙ zeros (j - 1) (omega arith) (omega arith),
          )
    ]

-- `safestrcpy` into `n` bytes leaves a string there that ends within them: as much of the string at
-- `t` as has room before the zero. It changes nothing else, if the blocks do not overlap.
pub safestrcpy_lem :
    (s t n : ℕ) (m : Memory)
    → Apart s t (suc n)
    → (k : ℕ) × (k ≤ n)
      × ((k ≡ n) ⊎ (m (t + k) ≡ 0))
      × IsPrefix s t (suc n) k m (safestrcpy s t (suc n) m)
      × (safestrcpy s t (suc n) m (s + k) ≡ 0)
unfolding safestrcpy safe_from
safestrcpy_lem s t zero m far = (
  0,
  omega arith,
  inl refl,
  ended s t 1 m (update m s 0) (λ a o. update_ne m s a 0 (λ q. absurd (omega arith))),
  ap (update m s 0) (omega arith) ∙ update_self m s 0,
)
safestrcpy_lem s t (suc n) m far =
    let m1 = update m s (m t) in
    elim (Bool-cases (m t == 0)) [
      | inl e ↦
          let z : m t ≡ 0 = ground arith in
          let here : m (t + 0) ≡ m t = ap m (omega arith) in
          rw e (
            0,
            omega arith,
            inr (here ∙ z),
            ended s t (suc (suc n)) m (update m1 (s + 1) 0) (λ a o.
                update_ne m1 (s + 1) a 0 (λ q. absurd (omega arith))
                ∙ update_ne m s a (m t) (λ q. absurd (omega arith))),
            ap (update m1 (s + 1) 0) (omega arith)
                ∙ update_ne m1 (s + 1) s 0 (λ q. absurd (omega arith))
                ∙ update_self m s (m t)
                ∙ z,
          )
      | inr e ↦
          let (k, le, end, p, zero_at) = safestrcpy_lem (s + 1) (t + 1) n m1 (omega arith) in
          let m' = safe_from (s + 1) (t + 1) n m1 in
          rw e (
            suc k,
            omega (arith, le),
            further s t n k m (omega arith) le end,
            longer s t (suc n) k m m' far (omega (arith, le)) (ground arith) p,
            ap m' (omega arith) ∙ zero_at,
          )
    ]
