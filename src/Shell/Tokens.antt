-- ===== src/Shell/Tokens.antt =====
-- Tokens lie in the line, and a token that is not the end of the line is not empty.
use rain_os.Common.{
  ℕ, zero, suc, ◌+◌, ◌-◌, ◌≤◌, ◌<◌, ◌≡◌, ◌≢◌, ◌⊎◌, inl, inr, refl, ◌∙◌, ap, arith, Bool, true,
  false, not, ◌&&◌, Bool-cases, ◌==◌,
}
use native.Mathlib.Decide.{ℕ_discrete}
use rain_os.String.{Memory}
use rain_os.Shell.{skip, is_space, is_single, in_word, token_at, gettoken, peek, Token}

-- Where a loop over `k` bytes stops.
pub record IsStop (test : ℕ → Bool) (k s : ℕ) (m : Memory) (r : ℕ) : Type 0 where
  pub lower : s ≤ r
  pub upper : r ≤ s + k
  pub stopped : (r ≡ s + k) ⊎ (test (m r) ≡ false)

pub skip_lem : (test : ℕ → Bool) (k s : ℕ) (m : Memory) → IsStop test k s m (skip test k s m)
unfolding skip
skip_lem test zero s m = record {
  lower = omega arith;
  upper = omega arith;
  stopped = inl (omega arith);
}
skip_lem test (suc k) s m = elim (Bool-cases (test (m s))) [
  | inl t ↦
      let i = skip_lem test k (s + 1) m in
      rw t (record {
        lower = omega (arith, i.lower);
        upper = omega (arith, i.upper);
        stopped = elim i.stopped [ inl e ↦ inl (omega (arith, e)) | inr e ↦ inr e ];
      })
  | inr t ↦ rw t (record { lower = omega arith; upper = omega arith; stopped = inr t })
]

-- A loop whose test holds at its start goes on.
skip_more :
    (test : ℕ → Bool) (k s : ℕ) (m : Memory) → 0 < k → test (m s) ≡ true → s < skip test k s m
unfolding skip
skip_more test zero s m lt t = absurd (omega arith)
skip_more test (suc k) s m lt t = rw t (omega (arith, (skip_lem test k (s + 1) m).lower))

-- The line: `es` is its end, where the NUL stands.
pub record IsLine (es : ℕ) (m : Memory) : Type 0 where
  pub ended : m es ≡ 0

pub record IsToken (es s : ℕ) (m : Memory) (t : Token) : Type 0 where
  pub start : s ≤ t.q
  pub order : t.q ≤ t.eq
  pub follow : t.eq ≤ t.next
  pub inside : t.next ≤ es
  pub not_empty : t.kind ≢ 0 → t.q < t.eq
  pub progress : m t.q ≢ 0 → t.q < t.eq

-- The end of a token that starts at `q`.
abbrev IsEnd : (es q c : ℕ) → ℕ × ℕ → Type 0
IsEnd es q c (kind, eq) = (q ≤ eq) × (eq ≤ es) × (kind ≢ 0 → q < eq) × (c ≢ 0 → q < eq)

token_at_lem :
    (es q : ℕ) (m : Memory)
    → IsLine es m
    → q ≤ es
    → (q ≡ es) ⊎ (is_space (m q) ≡ false)
    → IsEnd es q (m q) (token_at es q m)
unfolding token_at
token_at_lem es q m l le st = elim (Bool-cases (m q == 0)) [
  | inl z ↦
      let e : m q ≡ 0 = ground (arith, z) in
      rw z (omega arith, omega arith, λ n. absurd (n refl), λ n. absurd (n e))
  | inr z ↦
      let ne : q ≢ es = λ e. absurd (let w = ap m e ∙ l.ended in ground (arith, z, w)) in
      elim (Bool-cases (is_single (m q))) [
        | inl t ↦ rw (z, t) (omega arith, omega arith, λ n. omega arith, λ n. omega arith)
        | inr t ↦ elim (Bool-cases (m q == b'>')) [
          | inl u ↦ elim (Bool-cases (m (q + 1) == b'>')) [
            | inl v ↦
                let far : q + 1 ≢ es =
                  λ e. absurd (let w = ap m e ∙ l.ended in ground (arith, v, w)) in
                rw (z, t, u, v)
                  (omega arith, omega (arith, far), λ n. omega arith, λ n. omega arith)
            | inr v ↦ rw (z, t, u, v) (omega arith, omega arith, λ n. omega arith, λ n. omega arith)
          ]
          | inr u ↦
              let w : in_word (m q) ≡ true =
                word z t u (elim st [ inl e ↦ absurd (ne e) | inr s ↦ s ]) in
              let i = skip_lem in_word (es - q) q m in
              rw (z, t, u)
                (
                  i.lower,
                  omega (arith, i.upper),
                  λ n. skip_more in_word (es - q) q m (omega arith) w,
                  λ n. skip_more in_word (es - q) q m (omega arith) w,
                )
        ]
      ]
]
  where
    word :
        (m q == 0) ≡ false
        → is_single (m q) ≡ false
        → (m q == b'>') ≡ false
        → is_space (m q) ≡ false
        → in_word (m q) ≡ true
    word z t u s = rw (s, t, u) refl

pub gettoken_lem : (es s : ℕ) (m : Memory) → IsLine es m → s ≤ es → IsToken es s m (gettoken es s m)
unfolding gettoken
gettoken_lem es s m l le =
    let i = skip_lem is_space (es - s) s m in
    let q = skip is_space (es - s) s m in
    let st : (q ≡ es) ⊎ (is_space (m q) ≡ false) = elim i.stopped [
      | inl e ↦ inl (omega (arith, e))
      | inr e ↦ inr e
    ] in
    let (a, b, c, d) = token_at_lem es q m l (omega (arith, i.upper)) st in
    let j = skip_lem is_space (es - (token_at es q m).1) (token_at es q m).1 m in
    record {
      start = i.lower;
      order = a;
      follow = j.lower;
      inside = omega (arith, j.upper, b);
      not_empty = c;
      progress = d;
    }

found : (x : ℕ) (b : Bool) → (not (x == 0) && b) ≡ true → x ≢ 0
found x b h = ground arith

-- `peek` stops in the line; where it finds a character, `gettoken` goes on behind it.
pub record IsPeeked (es s : ℕ) (m : Memory) (p : ℕ × Bool) : Type 0 where
  pub start : s ≤ p.0
  pub inside : p.0 ≤ es
  pub consumed : p.1 ≡ true → p.0 < (gettoken es p.0 m).next

consumed_lem : (es s : ℕ) (m : Memory) → IsLine es m → s ≤ es → m s ≢ 0 → s < (gettoken es s m).next
consumed_lem es s m l le nz =
    let t = gettoken_lem es s m l le in
    elim (ℕ_discrete s (gettoken es s m).q) [
      | yes e ↦ let p = t.progress (λ z. nz (ap m e ∙ z)) in omega (arith, e, p, t.follow)
      | no ne ↦ omega (arith, ne, t.start, t.order, t.follow)
    ]

pub peek_lem :
    (toks : ℕ → Bool) (es s : ℕ) (m : Memory)
    → IsLine es m
    → s ≤ es
    → IsPeeked es s m (peek toks es s m)
unfolding peek
peek_lem toks es s m l le =
    let i = skip_lem is_space (es - s) s m in
    let s' = skip is_space (es - s) s m in
    record {
      start = i.lower;
      inside = omega (arith, i.upper);
      consumed =
          λ t. consumed_lem es s' m l (omega (arith, i.upper)) (found (m s') (toks (m s')) t);
    }
