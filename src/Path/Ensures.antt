-- ===== src/Path/Ensures.antt =====
-- Steps that end, and what an action leaves of the references and the locks.
use rain_os.Common.{
  ℕ, ◌+◌, ◌-◌, ◌<◌, ◌≡◌, ◌≢◌, sym, ap, ◌∙◌, arith, Bool, true, false, Outcome, ok, ◌==◌, update,
  update_self, update_ne,
}
use native.Mathlib.Decide.{ℕ_discrete}
use rain_os.String.{Memory}
use rain_os.Icache.{Inode, Icache}
use rain_os.Path.{World, Step, done, sleeps, panics, endless, Action, then_run}

-- The step is done, or it has panicked: it neither sleeps nor runs out of fuel.
abbrev pub Ensures : {A : Type 0} → Step A → (A → World → Type 0) → Type 0
Ensures (done a w) P = P a w
Ensures sleeps P = ⊥
Ensures panics P = Unit
Ensures endless P = ⊥

pub ensures_then :
    {A B : Type 0} (m : Step A) (f : A → Action B) (P : A → World → Type 0) (Q : B → World → Type 0)
    → Ensures m P
    → ((a : A) (w : World) → P a w → Ensures (f a w) Q)
    → Ensures (then_run f m) Q
ensures_then (done a w) f P Q h k = k a w h
ensures_then sleeps f P Q h k = h
ensures_then panics f P Q h k = tt
ensures_then endless f P Q h k = h

-- Slot `j` has `r j` references and is locked if `l j`; only locked slots are valid.
pub record IsAt (r : ℕ → ℕ) (l : ℕ → Bool) (c : Icache) : Type 0 where
  pub refs : (j : ℕ) → (c j).ref ≡ r j
  pub busy : (j : ℕ) → (c j).busy ≡ l j
  pub valid : (j : ℕ) → (c j).valid ≡ l j
  pub live : (j : ℕ) → l j ≡ true → 0 < r j

abbrev pub no_lock : ℕ → Bool
no_lock j = false

abbrev pub only : ℕ → ℕ → Bool
only i j = j == i

abbrev pub plus : (ℕ → ℕ) → ℕ → ℕ → ℕ
plus r i = update r i (r i + 1)

abbrev pub minus : (ℕ → ℕ) → ℕ → ℕ → ℕ
minus r i = update r i (r i - 1)

pub IsAt-same :
    (r r' : ℕ → ℕ) (l : ℕ → Bool) (c : Icache) → ((j : ℕ) → r j ≡ r' j) → IsAt r l c → IsAt r' l c
IsAt-same r r' l c e v = record {
  refs = λ j. v.refs j ∙ e j;
  busy = v.busy;
  valid = v.valid;
  live = λ j h. omega (arith, v.live j h, e j);
}

-- A written slot.
pub IsAt-update :
    (r r' : ℕ → ℕ) (l l' : ℕ → Bool) (c : Icache) (i : ℕ) (n : Inode)
    → IsAt r l c
    → (n.ref ≡ r' i) × (n.busy ≡ l' i) × (n.valid ≡ l' i)
    → (l' i ≡ true → 0 < r' i)
    → ((j : ℕ) → j ≢ i → (r' j ≡ r j) × (l' j ≡ l j))
    → IsAt r' l' (update c i n)
IsAt-update r r' l l' c i n v (a, b, d) live o = record {
  refs = λ j. elim (ℕ_discrete j i) [
    | yes q ↦ rw q (ap (λ (x : Inode). x.ref) (update_self c i n) ∙ a)
    | no q ↦ ap (λ (x : Inode). x.ref) (update_ne c i j n q) ∙ v.refs j ∙ sym ((o j q).0)
  ];
  busy = λ j. elim (ℕ_discrete j i) [
    | yes q ↦ rw q (ap (λ (x : Inode). x.busy) (update_self c i n) ∙ b)
    | no q ↦ ap (λ (x : Inode). x.busy) (update_ne c i j n q) ∙ v.busy j ∙ sym ((o j q).1)
  ];
  valid = λ j. elim (ℕ_discrete j i) [
    | yes q ↦ rw q (ap (λ (x : Inode). x.valid) (update_self c i n) ∙ d)
    | no q ↦ ap (λ (x : Inode). x.valid) (update_ne c i j n q) ∙ v.valid j ∙ sym ((o j q).1)
  ];
  live = λ j h. elim (ℕ_discrete j i) [
    | yes q ↦ rw q (live (ap l' (sym q) ∙ h))
    | no q ↦ omega (arith, v.live j (sym ((o j q).1) ∙ h), (o j q).0)
  ];
}

-- What an action leaves of the references, the locks and the memory.
abbrev pub Leaves : (r : ℕ → ℕ) (l : ℕ → Bool) (m : Memory) → World → Type 0
Leaves r l m w = IsAt r l w.cache × (w.mem ≡ m)

pub made : (a b : ℕ × Icache) → ◌≡◌ {A = Outcome (ℕ × Icache)} (ok a) (ok b) → a ≡ b
made a b h = cc
