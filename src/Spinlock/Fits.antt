-- ===== src/Spinlock/Fits.antt =====
-- What the word of a lock says of who has it.
use rain_os.Common.{ℕ, ◌≡◌, ◌⊎◌, inl, inr, ◌≢◌, sym, ◌∙◌, ap, true, false, none, some, ==_false}
use native.Mathlib.Decide.{ℕ_discrete}
use rain_os.Spinlock.{Lock, is_cpu, Phase, got, critical, found, checked, cleared}

-- What a processor has of the lock: nothing; the lock, with `cpu` not naming it; or the lock, with
-- `cpu` naming it.
pub data Role : Type 0 where
  apart holds named : Role

abbrev pub role : Phase → Role
role got = holds
role cleared = holds
role critical = named
role found = named
role checked = named
role _ = apart

-- The lock is free, or one processor has it.
abbrev pub Fits : Lock → (ℕ → Role) → Type 0
Fits lk r =
    ((lk ≡ record { locked = false; cpu = none }) × ((i : ℕ) → r i ≡ apart))
    ⊎ ((k : ℕ) × ((j : ℕ) → j ≢ k → r j ≡ apart)
        × (((r k ≡ holds) × (lk ≡ record { locked = true; cpu = none }))
            ⊎ ((r k ≡ named) × (lk ≡ record { locked = true; cpu = some k }))))

pub Fits-same : (lk : Lock) (r r' : ℕ → Role) → ((i : ℕ) → r' i ≡ r i) → Fits lk r → Fits lk r'
Fits-same lk r r' e (inl (q, h)) = inl (q, λ i. e i ∙ h i)
Fits-same lk r r' e (inr (k, h, inl (a, q))) = inr (k, λ j ne. e j ∙ h j ne, inl (e k ∙ a, q))
Fits-same lk r r' e (inr (k, h, inr (a, q))) = inr (k, λ j ne. e j ∙ h j ne, inr (e k ∙ a, q))

-- A free lock.
pub Fits-free :
    (lk : Lock) (r : ℕ → Role)
    → Fits lk r
    → lk.locked ≡ false
    → (lk ≡ record { locked = false; cpu = none }) × ((i : ℕ) → r i ≡ apart)
Fits-free lk r (inl h) e = h
Fits-free lk r (inr (k, h, inl (a, q))) e =
    absurd (let w = sym e ∙ ap (λ (l : Lock). l.locked) q in cc)
Fits-free lk r (inr (k, h, inr (a, q))) e =
    absurd (let w = sym e ∙ ap (λ (l : Lock). l.locked) q in cc)

-- The lock of a processor that has it.
pub Fits-holds :
    (lk : Lock) (r : ℕ → Role) (i : ℕ)
    → Fits lk r
    → r i ≡ holds
    → (lk ≡ record { locked = true; cpu = none }) × ((j : ℕ) → j ≢ i → r j ≡ apart)
Fits-holds lk r i (inl (q, h)) e = absurd (let w = sym (h i) ∙ e in cc)
Fits-holds lk r i (inr (k, h, w)) e = elim (ℕ_discrete i k) [
  | no ne ↦ absurd (let x = sym (h i ne) ∙ e in cc)
  | yes q ↦ elim w [
    | inl (a, l) ↦ (l, λ j ne. h j (λ z. ne (z ∙ sym q)))
    | inr (a, l) ↦ absurd (let x = sym (ap r q ∙ a) ∙ e in cc)
  ]
]

pub Fits-named :
    (lk : Lock) (r : ℕ → Role) (i : ℕ)
    → Fits lk r
    → r i ≡ named
    → (lk ≡ record { locked = true; cpu = some i }) × ((j : ℕ) → j ≢ i → r j ≡ apart)
Fits-named lk r i (inl (q, h)) e = absurd (let w = sym (h i) ∙ e in cc)
Fits-named lk r i (inr (k, h, w)) e = elim (ℕ_discrete i k) [
  | no ne ↦ absurd (let x = sym (h i ne) ∙ e in cc)
  | yes q ↦ elim w [
    | inl (a, l) ↦ absurd (let x = sym (ap r q ∙ a) ∙ e in cc)
    | inr (a, l) ↦ (
      l ∙ ap (λ (n : ℕ). record { locked = true; cpu = some n }) (sym q),
      λ j ne. h j (λ z. ne (z ∙ sym q)),
    )
  ]
]

-- A processor that has nothing of the lock is not named by it.
pub Fits-apart :
    (lk : Lock) (r : ℕ → Role) (i : ℕ) → Fits lk r → r i ≡ apart → is_cpu lk.cpu i ≡ false
Fits-apart lk r i (inl (q, h)) e = ap (λ (l : Lock). is_cpu l.cpu i) q
Fits-apart lk r i (inr (k, h, inl (a, q))) e = ap (λ (l : Lock). is_cpu l.cpu i) q
Fits-apart lk r i (inr (k, h, inr (a, q))) e =
    ap (λ (l : Lock). is_cpu l.cpu i) q
    ∙ ==_false k i (λ z. absurd (let x = sym (ap r z ∙ e) ∙ a in cc))

-- One processor at most has the lock.
pub Fits-alone :
    (lk : Lock) (r : ℕ → Role) (i j : ℕ) → Fits lk r → r i ≢ apart → r j ≢ apart → j ≡ i
Fits-alone lk r i j (inl (q, h)) a b = absurd (a (h i))
Fits-alone lk r i j (inr (k, h, w)) a b = elim (ℕ_discrete i k) [
  | no ne ↦ absurd (a (h i ne))
  | yes p ↦ elim (ℕ_discrete j k) [ no ne ↦ absurd (b (h j ne)) | yes q ↦ q ∙ sym p ]
]
