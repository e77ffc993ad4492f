-- ===== src/Spinlock/Nesting.antt =====
-- Nested `pushcli` and `popcli`.
use rain_os.Common.{
  ℕ, zero, suc, ◌-◌, ◌<◌, ◌≡◌, inl, inr, refl, sym, ◌∙◌, ap, ap₂, Bool, true, false, ◌&&◌, Outcome,
  ok, panic, ◌==◌, arith, if◌then◌else◌, Bool-cases,
}
use rain_os.Spinlock.{Cpu, pushcli, popcli}

-- Interrupts are off inside of a `pushcli`.
abbrev pub IsNested : Cpu → Type 0
IsNested c = 0 < c.ncli → c.enabled ≡ false

abbrev pub pushes : ℕ → Cpu → Cpu
pushes zero c = c
pushes (suc k) c = pushes k (pushcli c)

abbrev pub pops : ℕ → Cpu → Outcome Cpu
pops zero c = ok c
pops (suc k) c = elim (pops k c) [ panic ↦ panic | ok c' ↦ popcli c' ]

pushcli-IsNested : (c : Cpu) → IsNested (pushcli c)
unfolding pushcli
pushcli-IsNested c lt = refl

-- `k` calls of `popcli` undo `k` calls of `pushcli`: none panics, and interrupts are on afterwards
-- if they were on before.
pub pops-pushes :
    (k : ℕ) (c : Cpu)
    → IsNested c
    → (c' : Cpu) × (pops k (pushes k c) ≡ ok c')
      × (c'.enabled ≡ c.enabled)
      × (c'.ncli ≡ c.ncli)
      × (0 < c.ncli → c'.intena ≡ c.intena)
unfolding pushcli popcli
pops-pushes zero c v = (c, refl, refl, refl, λ lt. refl)
pops-pushes (suc k) c v =
    let (c1, e, on, n, kept) = pops-pushes k (pushcli c) (pushcli-IsNested c) in
    let a : c1.enabled ≡ false = on in
    let off : c1.intena ≡ (if c.ncli == 0 then c.enabled else c.intena) = kept (omega arith) in
    let b : (c1.ncli == 0) ≡ false = ground (arith, n) in
    (
      record c1 { ncli = c1.ncli - 1; enabled = c1.ncli - 1 == 0 && c1.intena },
      ap (λ (o : Outcome Cpu). elim o as (λ x. Outcome Cpu) [ panic ↦ panic | ok c' ↦ popcli c' ]) e
          ∙ simp (a, b),
      elim (Bool-cases (c.ncli == 0)) [
        | inl z ↦
            let at_zero : (c1.ncli - 1 == 0) ≡ true = ground (arith, n) in
            ap₂ (λ (x y : Bool). x && y) at_zero (off ∙ rw z)
        | inr z ↦
            let above : (c1.ncli - 1 == 0) ≡ false = ground (arith, n) in
            ap (λ (x : Bool). x && c1.intena) above ∙ sym (v (ground arith))
      ],
      omega (arith, n),
      λ lt. kept (omega arith) ∙ ground arith,
    )
