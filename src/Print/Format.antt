-- ===== src/Print/Format.antt =====
-- The kernel's and the user programs' formatted output compared.
use rain_os.Common.{
  ℕ, zero, suc, ◌+◌, ◌/◌, ◌%◌, ◌≡◌, ◌≢◌, inl, inr, refl, ap, Bool, true, false, Bool-cases, List,
  [], ◌∷◌, arith, some, ◌==◌, ==_false, if◌then◌else◌, is_negative, sub_word, ◌&&◌, All,
}
use rain_os.Print.{
  digits_from, digit, buf_size, printint, finish, kernel_directive, user_directive, join,
  cprintf_from, cprintf, printf_from, printf,
}

-- The table of digits makes no difference to decimal ones.
decimal_digits : (room x : ℕ) → digits_from true room 10 x ≡ digits_from false room 10 x
unfolding digits_from
decimal_digits zero x = refl
decimal_digits (suc room) x =
    let e : digit true (x % 10) ≡ digit false (x % 10) = ground arith in
    rw (e, decimal_digits room (x / 10))

decimal_printint : (x : ℕ) (sign : Bool) → printint true x 10 sign ≡ printint false x 10 sign
unfolding printint
decimal_printint x sign =
    ap (finish (sign && is_negative x))
      (decimal_digits buf_size (if sign && is_negative x then sub_word 0 x else x))

-- A directive that both treat alike: no hexadecimal number, and not `%c`.
pub record IsCommon (c : ℕ) : Type 0 where
  pub not_x : c ≢ b'x'
  pub not_p : c ≢ b'p'
  pub not_c : c ≢ b'c'

directive_lem :
    (string_at : ℕ → List ℕ) (a c : ℕ)
    → IsCommon c
    → user_directive string_at a c ≡ kernel_directive string_at a c
unfolding user_directive kernel_directive
directive_lem string_at a c h =
    rw
      (
        ==_false c b'x' h.not_x,
        ==_false c b'p' h.not_p,
        ==_false c b'c' h.not_c,
        decimal_printint a true,
      )
      (elim (Bool-cases (c == b'%')) [
        | inl t ↦ let q : c ≡ b'%' = ground (arith, t) in rw q refl
        | inr t ↦ rw t refl
      ])

module _ (string_at : ℕ → List ℕ) (args : ℕ → ℕ) where
  same_from :
      (k : ℕ) (fmt : List ℕ)
      → All IsCommon fmt
      → printf_from string_at args k false fmt ≡ cprintf_from string_at args k fmt
  unfolding printf_from cprintf_from
  same_from k [] h = refl
  same_from k (c ∷ []) h = elim (Bool-cases (c == b'%')) [ inl t ↦ rw t refl | inr t ↦ rw t refl ]
  same_from k (c ∷ (d ∷ fmt)) h = elim (Bool-cases (c == b'%')) [
    | inl t ↦
        let e = directive_lem string_at (args k) d h.1.0 in
        rw (t, e)
          (ap (join (kernel_directive string_at (args k) d).0)
            (same_from (k + (kernel_directive string_at (args k) d).1) fmt h.1.1))
    | inr t ↦ rw t (ap (join (some (c ∷ []))) (same_from k (d ∷ fmt) h.1))
  ]

-- For a format whose bytes are no `x`, `p` or `c`, the kernel's `cprintf` and the user programs'
-- `printf` print the same, unknown directives and a single percent sign at the end included.
pub printf-cprintf :
    (string_at : ℕ → List ℕ) (args : ℕ → ℕ) (fmt : List ℕ)
    → All IsCommon fmt
    → printf string_at args fmt ≡ cprintf string_at args fmt
unfolding printf cprintf
printf-cprintf string_at args fmt h = same_from string_at args 0 fmt h
