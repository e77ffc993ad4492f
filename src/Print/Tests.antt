-- ===== src/Print/Tests.antt =====
-- The number -7, and the format "%d-%s%".
use rain_os.Common.{ℕ, ◌-◌, ◌≡◌, ◌≢◌, refl, true, false, arith, List, [], ◌∷◌, some, word}
use rain_os.Print.{printint, printf, cprintf, digits_from}
use rain_os.Print.Format.{IsCommon, printf-cprintf}

-- "-7", and 255 in upper case.
printint-negative : printint false (word - 7) 10 true ≡ some (45 ∷ 55 ∷ [])
unfolding printint digits_from
printint-negative = refl

printint-hex : printint true 255 16 false ≡ some (70 ∷ 70 ∷ [])
unfolding printint digits_from
printint-hex = refl

abbrev fmt : List ℕ
fmt = b'%' ∷ b'd' ∷ b'-' ∷ b'%' ∷ b's' ∷ b'%' ∷ []

abbrev args : ℕ → ℕ
args k = 1205

abbrev string_at : ℕ → List ℕ
string_at a = b'h' ∷ b'i' ∷ []

is_common : (c : ℕ) → c ≢ b'x' → c ≢ b'p' → c ≢ b'c' → IsCommon c
is_common c x p z = record { not_x = x; not_p = p; not_c = z }

percent : IsCommon b'%'
percent =
    is_common b'%' (λ q. absurd (omega arith)) (λ q. absurd (omega arith))
      (λ q. absurd (omega arith))

printf-cprintf_example : printf string_at args fmt ≡ cprintf string_at args fmt
printf-cprintf_example = printf-cprintf string_at args fmt (
  percent,
  (
    is_common b'd' (λ q. absurd (omega arith)) (λ q. absurd (omega arith))
        (λ q. absurd (omega arith)),
    (
      is_common b'-' (λ q. absurd (omega arith)) (λ q. absurd (omega arith))
          (λ q. absurd (omega arith)),
      (
        percent,
        (
          is_common b's' (λ q. absurd (omega arith)) (λ q. absurd (omega arith))
              (λ q. absurd (omega arith)),
          (percent, tt),
        ),
      ),
    ),
  ),
)
