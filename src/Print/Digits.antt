-- ===== src/Print/Digits.antt =====
-- What `printint` prints: the digits of the number, which fit in its buffer.
use rain_os.Common.{
  ℕ, zero, suc, ◌+◌, ◌-◌, ◌*◌, ◌/◌, ◌%◌, ◌^◌, ◌≤◌, ◌<◌, ◌≡◌, inl, inr, refl, ◌∙◌, ap, Bool, true,
  false, Bool-cases, List, [], ◌∷◌, ◌++◌, arith, length, length-append, some, ◌==◌, if◌then◌else◌,
  ltb, lt→ltb, word, sub_word, is_negative, All,
}
use native.Mathlib.Nat.{pow-succ'}
use rain_os.Print.{digit, digits_from, printint, backwards, buf_size}

abbrev pub IsDigit : ℕ → Type 0
IsDigit c = (48 ≤ c) × (c ≤ 57)

-- The number that decimal digits stand for, the last digit first as in `buf`.
abbrev pub value : List ℕ → ℕ
value [] = 0
value (c ∷ cs) = (c - 48) + 10 * value cs

-- `ds` are the digits of `x`, at most `k`.
pub record IsDecimal (ds : List ℕ) (x k : ℕ) : Type 0 where
  pub equal : value ds ≡ x
  pub digits : All IsDigit ds
  pub short : length ds ≤ k

digits_lem :
    (upper : Bool) (room k x : ℕ)
    → x < 10 ^ suc k
    → k < room
    → (ds : List ℕ) × (digits_from upper room 10 x ≡ some ds) × IsDecimal ds x (suc k)
unfolding digits_from
digits_lem upper zero k x h lt = absurd (omega arith)
digits_lem upper (suc room) zero x h lt =
    let t : (x / 10 == 0) ≡ true = ground arith in
    (
      digit upper (x % 10) ∷ [],
      rw t refl,
      record { equal = ground (arith, t); digits = ground arith; short = omega arith },
    )
digits_lem upper (suc room) (suc j) x h lt = elim (Bool-cases (x / 10 == 0)) [
  | inl t ↦ (
    digit upper (x % 10) ∷ [],
    rw t refl,
    record { equal = ground (arith, t); digits = ground arith; short = omega arith },
  )
  | inr t ↦
      let (ds, q, d) =
        digits_lem upper room j (x / 10) (omega (arith, pow-succ' 10 (suc j))) (omega arith) in
      (
        digit upper (x % 10) ∷ ds,
        rw (t, q) refl,
        record {
          equal = ground (arith, d.equal);
          digits = (ground arith, d.digits);
          short = omega (arith, d.short);
        },
      )
]

-- What `%d` is to print for the word `xx`: a minus for a negative `int`, and its digits.
abbrev pub text_of : ℕ → List ℕ → List ℕ
text_of xx ds = if is_negative xx then 45 ∷ backwards ds else backwards ds

abbrev pub magnitude : ℕ → ℕ
magnitude xx = if is_negative xx then word - xx else xx

pub length-backwards : (xs : List ℕ) → length (backwards xs) ≡ length xs
length-backwards [] = refl
length-backwards (x ∷ xs) =
    omega (arith, length-append {0} (backwards xs) (x ∷ []), length-backwards xs)

backwards-append : (xs : List ℕ) (x : ℕ) → backwards (xs ++ (x ∷ [])) ≡ x ∷ backwards xs
backwards-append [] x = refl
backwards-append (y ∷ ys) x = ap (λ (zs : List ℕ). zs ++ (y ∷ [])) (backwards-append ys x)

printed_negative :
    (upper : Bool) (xx : ℕ) (ds : List ℕ)
    → is_negative xx ≡ true
    → sub_word 0 xx ≡ word - xx
    → digits_from upper buf_size 10 (word - xx) ≡ some ds
    → ltb (length ds) buf_size ≡ true
    → printint upper xx 10 true ≡ some (45 ∷ backwards ds)
unfolding printint
printed_negative upper xx ds t e q room =
    rw (printint, t, e, q, room) (ap some (backwards-append ds 45))

printed_positive :
    (upper : Bool) (xx : ℕ) (ds : List ℕ)
    → is_negative xx ≡ false
    → digits_from upper buf_size 10 xx ≡ some ds
    → printint upper xx 10 true ≡ some (backwards ds)
unfolding printint
printed_positive upper xx ds t q = rw (printint, t, q) refl

-- For every `int`, `%d` prints its decimal digits, the first first, behind a minus if it is negative;
-- there are at most ten digits, and no byte is written outside of `buf`.
pub printint_lem :
    (upper : Bool) (xx : ℕ)
    → xx < word
    → (ds : List ℕ) × (printint upper xx 10 true ≡ some (text_of xx ds))
      × IsDecimal ds (magnitude xx) 10
printint_lem upper xx h = elim (Bool-cases (is_negative xx)) [
  | inl t ↦
      let big : 2 ^ 31 ≤ xx = ground (arith, t) in
      let e : sub_word 0 xx ≡ word - xx = omega arith in
      let (ds, q, d) = digits_lem upper buf_size 9 (word - xx) (omega arith) (omega arith) in
      (
        ds,
        printed_negative upper xx ds t e q (lt→ltb (length ds) buf_size (omega (arith, d.short)))
            ∙ rw t refl,
        rw t d,
      )
  | inr t ↦
      let (ds, q, d) = digits_lem upper buf_size 9 xx (omega arith) (omega arith) in
      (ds, printed_positive upper xx ds t q ∙ rw t refl, rw t d)
]
