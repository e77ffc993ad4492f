-- ===== src/Proc/Files.antt =====
-- The open files that `fork` gives the child, and those that `exit` closes.
use rain_os.Common.{
  ℕ, zero, suc, ◌+◌, ◌≤◌, ◌<◌, ◌≡◌, ◌≢◌, inl, inr, refl, sym, ◌∙◌, ap, Bool, true, false, List, [],
  ◌∷◌, arith, ◌==◌, if◌then◌else◌, update, update_self, update_ne, Bool-cases,
}
use native.Mathlib.Decide.{ℕ_discrete}
use rain_os.Proc.{dup_files, close_files}

-- How often `f` stands in a list, and how many of the `k` descriptors from `i` on hold it.
abbrev pub count : ℕ → List ℕ → ℕ
count f [] = 0
count f (x ∷ xs) = (if x == f then 1 else 0) + count f xs

abbrev pub entries : (k i : ℕ) → (ℕ → ℕ) → ℕ → ℕ
entries zero i o f = 0
entries (suc k) i o f = (if o i == f then 1 else 0) + entries k (i + 1) o f

pub entries-same :
    (k i : ℕ) (o o' : ℕ → ℕ) (f : ℕ)
    → ((fd : ℕ) → i ≤ fd → fd < i + k → o fd ≡ o' fd)
    → entries k i o f ≡ entries k i o' f
entries-same zero i o o' f h = refl
entries-same (suc k) i o o' f h =
    let ih = entries-same k (i + 1) o o' f (λ fd lo hi. h fd (omega arith) (omega arith)) in
    rw (h i (omega arith) (omega arith), ih)

-- A round of the loop.
dup_files-closed :
    (k i : ℕ) (from to : ℕ → ℕ)
    → (from i == 0) ≡ true
    → dup_files (suc k) i from to ≡ dup_files k (i + 1) from to
unfolding dup_files
dup_files-closed k i from to e = rw (e, dup_files)

dup_files-open :
    (k i : ℕ) (from to : ℕ → ℕ)
    → (from i == 0) ≡ false
    → let r = dup_files k (i + 1) from (update to i (from i)) in
      dup_files (suc k) i from to ≡ (from i ∷ r.0, r.1)
unfolding dup_files
dup_files-open k i from to e = rw (e, dup_files)

-- Each file is duplicated once for every descriptor of the parent that holds it.
pub dup_files-count :
    (k i : ℕ) (from to : ℕ → ℕ) (f : ℕ)
    → f ≢ 0
    → count f (dup_files k i from to).0 ≡ entries k i from f
unfolding dup_files
dup_files-count zero i from to f nz = refl
dup_files-count (suc k) i from to f nz = elim (Bool-cases (from i == 0)) [
  | inl e ↦
      let other : (from i == f) ≡ false = ground arith in
      ap (λ (r : List ℕ × (ℕ → ℕ)). count f r.0) (dup_files-closed k i from to e)
      ∙ dup_files-count k (i + 1) from to f nz
      ∙ sym (rw other (omega arith))
  | inr e ↦
      ap (λ (r : List ℕ × (ℕ → ℕ)). count f r.0) (dup_files-open k i from to e)
      ∙ ap (λ (n : ℕ). (if from i == f then 1 else 0) + n)
          (dup_files-count k (i + 1) from (update to i (from i)) f nz)
]

-- The entries before `i` are not touched.
dup_files-before :
    (k i : ℕ) (from to : ℕ → ℕ) (fd : ℕ) → fd < i → (dup_files k i from to).1 fd ≡ to fd
unfolding dup_files
dup_files-before zero i from to fd lt = refl
dup_files-before (suc k) i from to fd lt = elim (Bool-cases (from i == 0)) [
  | inl e ↦
      ap (λ (r : List ℕ × (ℕ → ℕ)). r.1 fd) (dup_files-closed k i from to e)
      ∙ dup_files-before k (i + 1) from to fd (omega arith)
  | inr e ↦
      ap (λ (r : List ℕ × (ℕ → ℕ)). r.1 fd) (dup_files-open k i from to e)
      ∙ dup_files-before k (i + 1) from (update to i (from i)) fd (omega arith)
      ∙ update_ne to i fd (from i) (λ q. absurd (omega arith))
]

pub dup_files-entry :
    (k i : ℕ) (from to : ℕ → ℕ) (fd : ℕ)
    → i ≤ fd
    → fd < i + k
    → (dup_files k i from to).1 fd ≡ (if from fd == 0 then to fd else from fd)
unfolding dup_files
dup_files-entry zero i from to fd lo hi = absurd (omega arith)
dup_files-entry (suc k) i from to fd lo hi = elim (Bool-cases (from i == 0)) [
  | inl e ↦
      ap (λ (r : List ℕ × (ℕ → ℕ)). r.1 fd) (dup_files-closed k i from to e)
      ∙ elim (ℕ_discrete fd i) [
        | yes q ↦
            dup_files-before k (i + 1) from to fd (omega arith)
            ∙ sym (
                ap (λ (b : Bool). if b then to fd else from fd) (ap (λ (x : ℕ). from x == 0) q ∙ e))
        | no q ↦ dup_files-entry k (i + 1) from to fd (omega arith) (omega arith)
      ]
  | inr e ↦
      ap (λ (r : List ℕ × (ℕ → ℕ)). r.1 fd) (dup_files-open k i from to e)
      ∙ elim (ℕ_discrete fd i) [
        | yes q ↦
            dup_files-before k (i + 1) from (update to i (from i)) fd (omega arith)
            ∙ ap (update to i (from i)) q
            ∙ update_self to i (from i)
            ∙ ap from (sym q)
            ∙ sym (
                ap (λ (b : Bool). if b then to fd else from fd) (ap (λ (x : ℕ). from x == 0) q ∙ e))
        | no q ↦
            dup_files-entry k (i + 1) from (update to i (from i)) fd (omega arith) (omega arith)
            ∙ ap (λ (x : ℕ). if from fd == 0 then x else from fd) (update_ne to i fd (from i) q)
      ]
]

close_files-closed :
    (k i : ℕ) (o : ℕ → ℕ) → (o i == 0) ≡ true → close_files (suc k) i o ≡ close_files k (i + 1) o
unfolding close_files
close_files-closed k i o e = rw (e, close_files)

close_files-open :
    (k i : ℕ) (o : ℕ → ℕ)
    → (o i == 0) ≡ false
    → let r = close_files k (i + 1) (update o i 0) in close_files (suc k) i o ≡ (o i ∷ r.0, r.1)
unfolding close_files
close_files-open k i o e = rw (e, close_files)

-- Each file is closed once for every descriptor that holds it.
pub close_files-count :
    (k i : ℕ) (o : ℕ → ℕ) (f : ℕ) → f ≢ 0 → count f (close_files k i o).0 ≡ entries k i o f
unfolding close_files
close_files-count zero i o f nz = refl
close_files-count (suc k) i o f nz = elim (Bool-cases (o i == 0)) [
  | inl e ↦
      let other : (o i == f) ≡ false = ground arith in
      ap (λ (r : List ℕ × (ℕ → ℕ)). count f r.0) (close_files-closed k i o e)
      ∙ close_files-count k (i + 1) o f nz
      ∙ sym (rw other (omega arith))
  | inr e ↦
      ap (λ (r : List ℕ × (ℕ → ℕ)). count f r.0) (close_files-open k i o e)
      ∙ ap (λ (n : ℕ). (if o i == f then 1 else 0) + n)
          (close_files-count k (i + 1) (update o i 0) f nz
            ∙ entries-same k (i + 1) (update o i 0) o f
                (λ fd lo hi. update_ne o i fd 0 (λ q. absurd (omega arith))))
]

close_files-before : (k i : ℕ) (o : ℕ → ℕ) (fd : ℕ) → fd < i → (close_files k i o).1 fd ≡ o fd
unfolding close_files
close_files-before zero i o fd lt = refl
close_files-before (suc k) i o fd lt = elim (Bool-cases (o i == 0)) [
  | inl e ↦
      ap (λ (r : List ℕ × (ℕ → ℕ)). r.1 fd) (close_files-closed k i o e)
      ∙ close_files-before k (i + 1) o fd (omega arith)
  | inr e ↦
      ap (λ (r : List ℕ × (ℕ → ℕ)). r.1 fd) (close_files-open k i o e)
      ∙ close_files-before k (i + 1) (update o i 0) fd (omega arith)
      ∙ update_ne o i fd 0 (λ q. absurd (omega arith))
]

pub close_files-entry :
    (k i : ℕ) (o : ℕ → ℕ) (fd : ℕ) → i ≤ fd → fd < i + k → (close_files k i o).1 fd ≡ 0
unfolding close_files
close_files-entry zero i o fd lo hi = absurd (omega arith)
close_files-entry (suc k) i o fd lo hi = elim (Bool-cases (o i == 0)) [
  | inl e ↦
      let z : o i ≡ 0 = ground arith in
      ap (λ (r : List ℕ × (ℕ → ℕ)). r.1 fd) (close_files-closed k i o e) ∙ elim (ℕ_discrete fd i) [
        | yes q ↦ close_files-before k (i + 1) o fd (omega arith) ∙ ap o q ∙ z
        | no q ↦ close_files-entry k (i + 1) o fd (omega arith) (omega arith)
      ]
  | inr e ↦
      ap (λ (r : List ℕ × (ℕ → ℕ)). r.1 fd) (close_files-open k i o e) ∙ elim (ℕ_discrete fd i) [
        | yes q ↦
            close_files-before k (i + 1) (update o i 0) fd (omega arith)
            ∙ ap (update o i 0) q
            ∙ update_self o i 0
        | no q ↦ close_files-entry k (i + 1) (update o i 0) fd (omega arith) (omega arith)
      ]
]
