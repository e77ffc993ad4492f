-- ===== src/Bio/Search.antt =====
-- The two loops of `bget` along the ring: the first buffer from the front, and the first from the
-- back, that passes a test.
use rain_os.Common.{
  ℕ, zero, suc, ◌+◌, ◌-◌, ◌<◌, ◌≡◌, ◌≢◌, ◌⊎◌, inl, inr, refl, sym, ◌∙◌, ap, Bool, true, false,
  arith, ==_false, if◌then◌else◌, Bool-cases, List, [], ◌∷◌, All, length, Option, none, some,
}
use rain_os.Bio.{head, follow}
use rain_os.Bio.Ring.{Linked}

pub find_first : (ℕ → Bool) → List ℕ → Option ℕ
find_first test [] = none
find_first test (x ∷ xs) = if test x then some x else find_first test xs

abbrev or_else : Option ℕ → Option ℕ → Option ℕ
or_else none y = y
or_else (some x) y = some x

pub find_last : (ℕ → Bool) → List ℕ → Option ℕ
find_last test [] = none
find_last test (x ∷ xs) = or_else (find_last test xs) (if test x then some x else none)

-- `x` is in the list.
unfoldable pub In : ℕ → List ℕ → Type 0
In x [] = ⊥
In x (y ∷ ys) = (x ≡ y) ⊎ In x ys

-- What `follow` does at the head and at another node.
follow-head :
    (link : ℕ → ℕ) (test : ℕ → Bool) (fuel : ℕ) → follow link test (suc fuel) head ≡ some none
unfolding follow
follow-head link test fuel = refl

follow-node :
    (link : ℕ → ℕ) (test : ℕ → Bool) (fuel b : ℕ)
    → b ≢ head
    → follow link test (suc fuel) b
      ≡ (if test b then some (some b) else follow link test fuel (link b))
unfolding follow
follow-node link test fuel b ne = rw (==_false b head ne)

pub follow-next :
    (next prev : ℕ → ℕ) (test : ℕ → Bool) (fuel a : ℕ) (xs : List ℕ)
    → Linked next prev a xs head
    → All (λ x. x ≢ head) xs
    → length xs < fuel
    → follow next test fuel (next a) ≡ some (find_first test xs)
unfolding find_first
follow-next next prev test zero a xs l h lt = absurd (omega arith)
follow-next next prev test (suc fuel) a [] l h lt =
    ap (follow next test (suc fuel)) l.0 ∙ follow-head next test fuel
follow-next next prev test (suc fuel) a (x ∷ xs) l h lt =
    ap (follow next test (suc fuel)) l.0
    ∙ follow-node next test fuel x h.0
    ∙ elim (Bool-cases (test x)) [
      | inl e ↦ rw e
      | inr e ↦ rw e (follow-next next prev test fuel x xs l.2 h.1 (omega arith))
    ]

-- Backwards over `xs`, and on from `a` if none of them passes.
abbrev continue : Option ℕ → Option (Option ℕ) → Option (Option ℕ)
continue none rest = rest
continue (some y) rest = some (some y)

continue-or_else :
    (o : Option ℕ) (t : Bool) (x : ℕ) (rest : Option (Option ℕ))
    → continue o (if t then some (some x) else rest)
      ≡ continue (or_else o (if t then some x else none)) rest
continue-or_else none true x rest = refl
continue-or_else none false x rest = refl
continue-or_else (some y) t x rest = refl

follow-back :
    (next prev : ℕ → ℕ) (test : ℕ → Bool) (fuel a b : ℕ) (xs : List ℕ)
    → Linked next prev a xs b
    → All (λ x. x ≢ head) xs
    → follow prev test (length xs + fuel) (prev b)
      ≡ continue (find_last test xs) (follow prev test fuel a)
unfolding find_last
follow-back next prev test fuel a b [] l h =
    let e : 0 + fuel ≡ fuel = omega arith in rw e (ap (follow prev test fuel) l.1)
follow-back next prev test fuel a b (x ∷ xs) l h =
    let e : suc (length xs) + fuel ≡ length xs + suc fuel = omega arith in
    ap (λ (n : ℕ). follow prev test n (prev b)) e
    ∙ follow-back next prev test (suc fuel) x b xs l.2 h.1
    ∙ ap (continue (find_last test xs)) (
        follow-node prev test fuel x h.0
        ∙ ap (λ (y : ℕ). if test x then some (some x) else follow prev test fuel y) l.1)
    ∙ continue-or_else (find_last test xs) (test x) x (follow prev test fuel a)

continue-none : (o : Option ℕ) → continue o (some none) ≡ some o
continue-none none = refl
continue-none (some y) = refl

pub follow-prev :
    (next prev : ℕ → ℕ) (test : ℕ → Bool) (fuel : ℕ) (xs : List ℕ)
    → Linked next prev head xs head
    → All (λ x. x ≢ head) xs
    → length xs < fuel
    → follow prev test fuel (prev head) ≡ some (find_last test xs)
follow-prev next prev test fuel xs l h lt =
    let e : fuel ≡ length xs + suc (fuel - length xs - 1) = omega arith in
    ap (λ (n : ℕ). follow prev test n (prev head)) e
    ∙ follow-back next prev test (suc (fuel - length xs - 1)) head head xs l h
    ∙ ap (continue (find_last test xs)) (follow-head prev test (fuel - length xs - 1))
    ∙ continue-none (find_last test xs)

pub find_first-some :
    (test : ℕ → Bool) (xs : List ℕ) (b : ℕ)
    → find_first test xs ≡ some b
    → In b xs × (test b ≡ true)
unfolding find_first In
find_first-some test [] b h = absurd (cc)
find_first-some test (x ∷ xs) b h = elim (Bool-cases (test x)) [
  | inl e ↦ let q : x ≡ b = ground arith in (inl (sym q), ap test (sym q) ∙ e)
  | inr e ↦ let r = find_first-some test xs b (rw e at h) in (inr r.0, r.1)
]

pub find_first-none :
    (test : ℕ → Bool) (xs : List ℕ) (b : ℕ) → find_first test xs ≡ none → In b xs → test b ≡ false
unfolding find_first In
find_first-none test [] b h i = elim i [ ]
find_first-none test (x ∷ xs) b h i = elim (Bool-cases (test x)) [
  | inl e ↦ absurd (let q = rw e at h in cc)
  | inr e ↦ elim i [ inl q ↦ ap test q ∙ e | inr j ↦ find_first-none test xs b (rw e at h) j ]
]

pub find_last-some :
    (test : ℕ → Bool) (xs : List ℕ) (b : ℕ) → find_last test xs ≡ some b → In b xs × (test b ≡ true)
unfolding find_last In
find_last-some test [] b h = absurd (cc)
find_last-some test (x ∷ xs) b h = go (find_last test xs) refl h (find_last-some test xs b)
  where
    go :
        (o : Option ℕ)
        → find_last test xs ≡ o
        → or_else o (if test x then some x else none) ≡ some b
        → (find_last test xs ≡ some b → In b xs × (test b ≡ true))
        → In b (x ∷ xs) × (test b ≡ true)
    go none e q ih = elim (Bool-cases (test x)) [
      | inl t ↦ let r : x ≡ b = ground arith in (inl (sym r), ap test (sym r) ∙ t)
      | inr t ↦ absurd (ground arith)
    ]
    go (some y) e q ih = let r = ih (e ∙ q) in (inr r.0, r.1)
