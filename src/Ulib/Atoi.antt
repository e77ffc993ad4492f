-- ===== src/Ulib/Atoi.antt =====
-- `atoi` reads back what the printing functions print.
use rain_os.Common.{
  ℕ, suc, ◌+◌, ◌*◌, ◌%◌, ◌^◌, ◌<◌, ◌≡◌, refl, sym, ◌∙◌, ap, ap₂, Bool, true, false, List, [], ◌∷◌,
  ◌++◌, arith, length, some, word, add_word, sub_word, is_negative, All,
}
use rain_os.String.{Memory}
use rain_os.Print.{printint, backwards}
use rain_os.Print.Digits.{IsDigit, value, printint_lem, text_of, length-backwards}
use rain_os.Ulib.{atoi, atoi_from, is_digit}

-- The memory holds the bytes from `s` on.
abbrev pub Spells : Memory → ℕ → List ℕ → Type 0
Spells m s [] = Unit
Spells m s (x ∷ xs) = (m s ≡ x) × Spells m (s + 1) xs

Spells-append :
    (m : Memory) (s : ℕ) (xs : List ℕ) (y : ℕ)
    → Spells m s (xs ++ (y ∷ []))
    → Spells m s xs × (m (s + length xs) ≡ y)
Spells-append m s [] y h = (tt, let e : s + 0 ≡ s = omega arith in ap m e ∙ h.0)
Spells-append m s (x ∷ xs) y h =
    let (a, b) = Spells-append m (s + 1) xs y h.1 in
    let e : s + suc (length xs) ≡ s + 1 + length xs = omega arith in ((h.0, a), ap m e ∙ b)

read_digits :
    (m : Memory) (s f : ℕ) (ds : List ℕ)
    → Spells m s (backwards ds)
    → All IsDigit ds
    → value ds < word
    → atoi_from (length ds + f) 0 s m ≡ atoi_from f (value ds) (s + length ds) m
unfolding atoi_from
read_digits m s f [] h k lt =
    let e : 0 + f ≡ f = omega arith in
    let q : s ≡ s + 0 = omega arith in ap₂ (λ (a b : ℕ). atoi_from a 0 b m) e q
read_digits m s f (c ∷ cs) h k lt =
    let (a, b) = Spells-append m s (backwards cs) c h in
    let here : m (s + length cs) ≡ c = ap (λ (i : ℕ). m (s + i)) (sym (length-backwards cs)) ∙ b in
    let e : suc (length cs) + f ≡ length cs + suc f = omega arith in
    let ih = read_digits m s (suc f) cs a k.1 (omega arith) in
    let t : is_digit (m (s + length cs)) ≡ true = ground (arith, here, k.0) in
    let next : sub_word (add_word (value cs * 10 % word) (m (s + length cs))) 48 ≡ value (c ∷ cs) =
      omega (arith, here, k.0) in
    let after : s + length cs + 1 ≡ s + suc (length cs) = omega arith in
    ap (λ (i : ℕ). atoi_from i 0 s m) e
    ∙ ih
    ∙ rw t (ap₂ (λ (v p : ℕ). atoi_from f v p m) next after)

read_end : (m : Memory) (f n s : ℕ) → is_digit (m s) ≡ false → atoi_from (suc f) n s m ≡ some n
unfolding atoi_from
read_end m f n s h = rw h refl

-- A number that is no negative `int` is printed by `%d`; where the text stands in memory with a
-- byte behind it that is no digit, `atoi` returns the number. More fuel than the text is long is enough.
pub atoi-printint :
    (upper : Bool) (xx : ℕ)
    → xx < 2 ^ 31
    → (text : List ℕ) × (printint upper xx 10 true ≡ some text)
      × ((m : Memory) (s f : ℕ)
          → Spells m s text
          → is_digit (m (s + length text)) ≡ false
          → atoi (length text + suc f) s m ≡ some xx)
unfolding atoi
atoi-printint upper xx h =
    let (ds, q, d) = printint_lem upper xx (omega arith) in
    let t : is_negative xx ≡ false = ground arith in
    let e : text_of xx ds ≡ backwards ds = rw t refl in
    let v : value ds ≡ xx = d.equal ∙ rw t refl in
    let n = length-backwards ds in
    (
      backwards ds,
      q ∙ ap some e,
      λ m s f sp stop.
          ap (λ (i : ℕ). atoi_from (i + suc f) 0 s m) n
          ∙ read_digits m s (suc f) ds sp d.digits (omega (arith, v))
          ∙ read_end m f (value ds) (s + length ds)
              (ap (λ (i : ℕ). is_digit (m (s + i))) (sym n) ∙ stop)
          ∙ ap some v,
    )
