-- ===== src/Bitmap/Search.antt =====
-- The two loops of `balloc` find the first free block.
use rain_os.Common.{
  ℕ, zero, suc, ◌+◌, ◌-◌, ◌%◌, ◌*◌, ◌≤◌, ◌<◌, ◌≡◌, ◌⊎◌, inl, inr, refl, ◌∙◌, ap, ap₂, arith, none,
  some, ◌==◌, ltb, Bool-cases,
}
use native.Mathlib.Decide.{ℕ_discrete, dec_lt}
use rain_os.Bitmap.{Blocks, bpb, readsb, bblock, test_bit, find_bit, find_block}
use rain_os.Bitmap.Bits.{usage}

find_bit_lem :
    (k bi b size : ℕ) (bytes : ℕ → ℕ)
    → ((i : ℕ) × (find_bit k bi b size bytes ≡ some i)
        × (bi ≤ i)
        × (i < bi + k)
        × (b + i < size)
        × (test_bit bytes i ≡ 0)
        × ((j : ℕ) → bi ≤ j → j < i → test_bit bytes j ≡ 1))
      ⊎ ((find_bit k bi b size bytes ≡ none)
          × ((j : ℕ) → bi ≤ j → j < bi + k → b + j < size → test_bit bytes j ≡ 1))
unfolding find_bit
find_bit_lem zero bi b size bytes = inr (refl, λ j lo hi lt. absurd (omega arith))
find_bit_lem (suc k) bi b size bytes = elim (Bool-cases (ltb (b + bi) size)) [
  | inr e ↦ inr (rw e, λ j lo hi lt. absurd (ground arith))
  | inl e ↦ elim (Bool-cases (test_bit bytes bi == 0)) [
    | inl z ↦ inl (
      bi,
      rw (e, z),
      omega arith,
      omega arith,
      ground arith,
      ground arith,
      λ j lo hi. absurd (omega arith),
    )
    | inr z ↦
        let one : test_bit bytes bi ≡ 1 = ground arith in
        elim (find_bit_lem k (bi + 1) b size bytes) [
          | inl (i, f, lo, hi, lt, free, before) ↦ inl (
            i,
            rw (e, z) f,
            omega arith,
            omega arith,
            lt,
            free,
            λ j l h. elim (ℕ_discrete j bi) [ yes q ↦ rw q one | no q ↦ before j (omega arith) h ],
          )
          | inr (f, all) ↦ inr (
            rw (e, z) f,
            λ j l h lt. elim (ℕ_discrete j bi) [
              | yes q ↦ rw q one
              | no q ↦ all j (omega arith) (omega arith) lt
            ],
          )
        ]
  ]
]

pub find_block_lem :
    (k b : ℕ) (d : Blocks)
    → b % bpb ≡ 0
    → (readsb d).size < b + k * bpb
    → ((a : ℕ) × (find_block k b d ≡ some a)
        × (b ≤ a)
        × (a < (readsb d).size)
        × (usage d a ≡ 0)
        × ((c : ℕ) → b ≤ c → c < a → usage d c ≡ 1))
      ⊎ ((find_block k b d ≡ none) × ((c : ℕ) → b ≤ c → c < (readsb d).size → usage d c ≡ 1))
unfolding find_block
find_block_lem zero b d al big = inr (refl, λ c lo hi. absurd (omega arith))
find_block_lem (suc k) b d al big = elim (Bool-cases (ltb b (readsb d).size)) [
  | inr e ↦ inr (rw e, λ c lo hi. absurd (ground arith))
  | inl e ↦ elim (find_bit_lem bpb 0 b (readsb d).size (d (bblock b (readsb d).ninodes))) [
    | inl (i, f, lo, hi, lt, free, before) ↦ inl (
      b + i,
      rw (e, f),
      omega arith,
      lt,
      here i hi ∙ free,
      λ c l h.
          ap (usage d) (omega arith)
          ∙ here (c - b) (omega arith)
          ∙ before (c - b) (omega arith) (omega arith),
    )
    | inr (f, all) ↦
        let this : (c : ℕ) → b ≤ c → c < b + bpb → c < (readsb d).size → usage d c ≡ 1 = λ c l h lt.
          ap (usage d) (omega arith)
          ∙ here (c - b) (omega arith)
          ∙ all (c - b) (omega arith) (omega arith) (omega arith) in
        elim (find_block_lem k (b + bpb) d (omega arith) (omega arith)) [
          | inl (a, g, lo, lt, free, before) ↦ inl (
            a,
            rw (e, f) g,
            omega arith,
            lt,
            free,
            λ c l h. elim (dec_lt c (b + bpb)) [
              | yes q ↦ this c l q (omega arith)
              | no q ↦ before c (omega arith) h
            ],
          )
          | inr (g, rest) ↦ inr (
            rw (e, f) g,
            λ c l h. elim (dec_lt c (b + bpb)) [
              | yes q ↦ this c l q h
              | no q ↦ rest c (omega arith) h
            ],
          )
        ]
  ]
]
  where
    here : (i : ℕ) → i < bpb → usage d (b + i) ≡ test_bit (d (bblock b (readsb d).ninodes)) i
    here i lt =
        let e : bblock (b + i) (readsb d).ninodes ≡ bblock b (readsb d).ninodes = omega arith in
        let f : (b + i) % bpb ≡ i = omega arith in ap₂ (λ (x y : ℕ). test_bit (d x) y) e f
