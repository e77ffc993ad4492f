-- ===== src/Ulib/Tests.antt =====
-- The number 1205 printed and read back, and a line that is too long for its buffer.
use rain_os.Common.{ℕ, suc, ◌+◌, ◌≡◌, refl, true, false, arith, List, [], ◌∷◌, length, some}
use rain_os.String.{Memory}
use rain_os.Print.{printint}
use rain_os.Ulib.{atoi, is_digit, gets}
use rain_os.Ulib.Atoi.{Spells, atoi-printint}

atoi-printint_example :
    (text : List ℕ) × (printint false 1205 10 true ≡ some text)
    × ((m : Memory) (s f : ℕ)
        → Spells m s text
        → is_digit (m (s + length text)) ≡ false
        → atoi (length text + suc f) s m ≡ some 1205)
atoi-printint_example = atoi-printint false 1205 (omega arith)

-- Two bytes fit before the NUL.
gets-long : (gets 0 3 (104 ∷ 105 ∷ 33 ∷ []) (λ a. 9)).0 ≡ 33 ∷ []
unfolding gets
gets-long = refl
