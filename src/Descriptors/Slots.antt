-- ===== src/Descriptors/Slots.antt =====
-- Free descriptors: what `fdalloc` takes.
use rain_os.Common.{
  ℕ, ◌<◌, ◌≡◌, ◌≢◌, ◌⊎◌, inl, inr, sym, ◌∙◌, ap, true, false, none, some, arith, update,
  update_self, update_ne, fun_ext, Option-cases, refl, find_index, find_index-some, find_index-none,
}
use native.Mathlib.Decide.{ℕ_discrete}
use rain_os.Proc.{nofile}
use rain_os.Descriptors.{Ofile, is_null, fdalloc}

pub null_of : (o : Ofile) (fd : ℕ) → is_null o fd ≡ true → o fd ≡ none
null_of o fd h = elim (Option-cases (o fd)) [
  | inl e ↦ e
  | inr (f, e) ↦ absurd (let q = rw (e, is_null) at h in cc)
]

pub used_of : (o : Ofile) (fd : ℕ) → is_null o fd ≡ false → o fd ≢ none
used_of o fd h e = let q = rw (e, is_null) at h in cc

-- `o'` is `o` with the free descriptor `fd` given to the file `f`.
pub record Gave (f : ℕ) (o : Ofile) (fd : ℕ) (o' : Ofile) : Type 0 where
  pub lt : fd < nofile
  pub was_null : o fd ≡ none
  pub holds : o' ≡ update o fd (some f)

module _ (f : ℕ) (o o' : Ofile) (fd : ℕ) (g : Gave f o fd o') where
  pub holds_given : o' fd ≡ some f
  holds_given = ap (λ (x : Ofile). x fd) g.holds ∙ update_self o fd (some f)

  pub others_kept : (m : ℕ) → m ≢ fd → o' m ≡ o m
  others_kept m ne = ap (λ (x : Ofile). x m) g.holds ∙ update_ne o fd m (some f) ne

  -- Clearing the descriptor again leaves the others as they were.
  pub restored : update o' fd none ≡ o
  restored = fun_ext λ m. elim (ℕ_discrete m fd) [
    | yes r ↦ rw r (update_self o' fd none ∙ sym g.was_null)
    | no r ↦ update_ne o' fd m none r ∙ others_kept m r
  ]

-- Every descriptor is in use.
abbrev pub IsFull : Ofile → Type 0
IsFull o = (fd : ℕ) → fd < nofile → o fd ≢ none

pub fdalloc_lem :
    (f : ℕ) (o : Ofile)
    → ((fd : ℕ) × (o' : Ofile) × (fdalloc f o ≡ (some fd, o')) × Gave f o fd o')
      ⊎ ((fdalloc f o ≡ (none, o)) × IsFull o)
unfolding fdalloc
fdalloc_lem f o = elim (Option-cases (find_index (is_null o) nofile 0)) [
  | inr (fd, e) ↦
      let r = find_index-some (is_null o) nofile 0 fd e in
      inl (
        fd,
        update o fd (some f),
        rw (e, fdalloc),
        record { lt = omega (arith, r.upper); was_null = null_of o fd r.hit; holds = refl },
      )
  | inl e ↦ inr (
    rw (e, fdalloc),
    λ fd lt. used_of o fd (find_index-none (is_null o) nofile 0 e fd (omega arith) (omega arith)),
  )
]
