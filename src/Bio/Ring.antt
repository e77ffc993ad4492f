-- ===== src/Bio/Ring.antt =====
-- The ring of buffers as a list, the most recently used first.
use rain_os.Common.{ℕ, ◌<◌, ◌≡◌, ◌≢◌, ◌∙◌, update, update_ne, List, [], ◌∷◌, ◌++◌, All}
use rain_os.Bio.{Bcache, head, nbuf}

-- From `a` the nodes `xs` and then `b`, in both directions.
abbrev pub Linked : (next prev : ℕ → ℕ) → ℕ → List ℕ → ℕ → Type 0
Linked next prev a [] b = (next a ≡ b) × (prev b ≡ a)
Linked next prev a (x ∷ xs) b = (next a ≡ x) × (prev x ≡ a) × Linked next prev x xs b

abbrev pub Distinct : List ℕ → Type 0
Distinct [] = Unit
Distinct (x ∷ xs) = All (λ y. y ≢ x) xs × Distinct xs

-- The ring holds exactly the buffers `xs`.
pub record IsRing (c : Bcache) (xs : List ℕ) : Type 0 where
  pub linked : Linked c.next c.prev head xs head
  pub distinct : Distinct xs
  pub buffers : All (λ x. x < nbuf) xs

-- A write of `next` at a node that is left behind, and of `prev` at a node that is not reached.
pub Linked-update :
    (next prev : ℕ → ℕ) (a b u v i j : ℕ) (xs : List ℕ)
    → a ≢ i
    → All (λ x. x ≢ i) xs
    → b ≢ j
    → All (λ x. x ≢ j) xs
    → Linked next prev a xs b
    → Linked (update next i u) (update prev j v) a xs b
Linked-update next prev a b u v i j [] na all nb all' l =
    (update_ne next i a u na ∙ l.0, update_ne prev j b v nb ∙ l.1)
Linked-update next prev a b u v i j (x ∷ xs) na all nb all' l = (
  update_ne next i a u na ∙ l.0,
  update_ne prev j x v all'.0 ∙ l.1,
  Linked-update next prev x b u v i j xs all.0 all.1 nb all'.1 l.2,
)

pub Linked-append :
    (next prev : ℕ → ℕ) (a b c : ℕ) (xs ys : List ℕ)
    → Linked next prev a xs b
    → Linked next prev b ys c
    → Linked next prev a (xs ++ b ∷ ys) c
Linked-append next prev a b c [] ys l m = (l.0, l.1, m)
Linked-append next prev a b c (x ∷ xs) ys l m =
    (l.0, l.1, Linked-append next prev x b c xs ys l.2 m)

pub Linked-split :
    (next prev : ℕ → ℕ) (a b c : ℕ) (xs ys : List ℕ)
    → Linked next prev a (xs ++ b ∷ ys) c
    → Linked next prev a xs b × Linked next prev b ys c
Linked-split next prev a b c [] ys l = ((l.0, l.1), l.2)
Linked-split next prev a b c (x ∷ xs) ys l =
    let (p, q) = Linked-split next prev x b c xs ys l.2 in ((l.0, l.1, p), q)
