-- ===== src/Syscall/Args.antt =====
-- What the fetched arguments guarantee: where they lie in the memory of the process.
use rain_os.Common.{
  ℕ, zero, suc, ◌+◌, ◌-◌, ◌^◌, ◌≤◌, ◌<◌, ◌≡◌, ◌≢◌, ◌⊎◌, inl, inr, refl, subst, ◌∙◌, ap, true, false,
  none, some, arith, ◌==◌, leb, Bool-cases, Option-cases, word, int_at,
}
use rain_os.Kalloc.{kernbase}
use rain_os.Syscall.{User, fetchint, find_nul, fetchstr, argint, argptr, argstr}

-- User memory ends at the kernel's.
abbrev pub IsUser : User → Type 0
IsUser u = u.sz ≤ kernbase

-- An int is fetched exactly from the four bytes of an address that lie below `sz`.
pub fetchint_lem :
    (u : User) (addr : ℕ)
    → IsUser u
    → addr < word
    → (addr + 4 ≤ u.sz → fetchint u addr ≡ some (int_at u.mem addr))
      × (u.sz < addr + 4 → fetchint u addr ≡ none)
unfolding fetchint
fetchint_lem u addr v w = (λ h. ground arith, λ h. ground arith)

-- `addr` starts a string of `n` bytes before its zero, all of them below `sz`.
pub record IsString (u : User) (addr n : ℕ) : Type 0 where
  pub within : addr + n < u.sz
  pub end : u.mem (addr + n) ≡ 0
  pub inside : (k : ℕ) → k < n → u.mem (addr + k) ≢ 0

find_nul_lem :
    (m : ℕ → ℕ) (k s : ℕ)
    → ((n : ℕ) × (n < k)
        × (find_nul m k s ≡ some (s + n))
        × (m (s + n) ≡ 0)
        × ((j : ℕ) → j < n → m (s + j) ≢ 0))
      ⊎ ((find_nul m k s ≡ none) × ((j : ℕ) → j < k → m (s + j) ≢ 0))
unfolding find_nul
find_nul_lem m zero s = inr (refl, λ j lt. absurd (omega arith))
find_nul_lem m (suc k) s = elim (Bool-cases (m s == 0)) [
  | inl e ↦ inl (
    0,
    omega arith,
    rw e (ap some (omega arith)),
    ap m (omega arith) ∙ zero_of e,
    λ j lt. absurd (omega arith),
  )
  | inr e ↦ elim (find_nul_lem m k (s + 1)) [
    | inl (n, lt, f, z, before) ↦ inl (
      n + 1,
      omega arith,
      rw e (f ∙ ap some (omega arith)),
      ap m (omega arith) ∙ z,
      λ j hj. first j (λ i hi. before i (omega arith)) e,
    )
    | inr (f, before) ↦ inr (rw e f, λ j hj. first j (λ i hi. before i (omega arith)) e)
  ]
]
  where
    zero_of : (m s == 0) ≡ true → m s ≡ 0
    zero_of e = ground arith

    first : (j : ℕ) → ((i : ℕ) → i < j → m (s + 1 + i) ≢ 0) → (m s == 0) ≡ false → m (s + j) ≢ 0
    first zero before e q = absurd (let r : m s ≡ 0 = ap m (omega arith) ∙ q in ground arith)
    first (suc j) before e q = before j (omega arith) (ap m (omega arith) ∙ q)

-- `fetchstr` returns a length exactly where a string starts that ends below `sz`, and then its
-- length; otherwise -1.
pub fetchstr_lem :
    (u : User) (addr : ℕ)
    → ((n : ℕ) × (fetchstr u addr ≡ some n) × IsString u addr n)
      ⊎ ((fetchstr u addr ≡ none) × ((n : ℕ) → ¬ IsString u addr n))
unfolding fetchstr
fetchstr_lem u addr = elim (Bool-cases (leb u.sz addr)) [
  | inl e ↦ inr (rw e, λ n s. absurd (ground (arith, s.within)))
  | inr e ↦ elim (find_nul_lem u.mem (u.sz - addr) addr) [
    | inl (n, lt, f, z, before) ↦ inl (
      n,
      rw (e, f) (ap some (omega arith)),
      record { within = omega arith; end = z; inside = before },
    )
    | inr (f, before) ↦ inr (rw (e, f), λ n s. absurd (before n (omega (arith, s.within)) s.end))
  ]
]

-- The string that `argstr` fetches.
pub argstr_lem : (u : User) (n addr len : ℕ) → argstr u n ≡ some (addr, len) → IsString u addr len
unfolding argstr
argstr_lem u n addr len h = elim (Option-cases (argint u n)) [
  | inl e ↦ absurd (let q = rw (e, argstr) at h in cc)
  | inr (a, e) ↦ elim (fetchstr_lem u a) [
    | inr (f, _) ↦ absurd (let q = rw (e, argstr, f) at h in cc)
    | inl (k, f, s) ↦
        let q = rw (e, argstr, f) at h in
        let qa : a ≡ addr = cc in
        let qk : k ≡ len = cc in
        subst (λ (x : ℕ). IsString u x len) qa (subst (λ (x : ℕ). IsString u a x) qk s)
  ]
]

-- A pointer that `argptr` accepts for a size of at least 0 has that many bytes behind it below `sz`.
pub argptr-bounds :
    (u : User) (n size i : ℕ)
    → IsUser u
    → size < 2 ^ 31
    → argptr u n size ≡ some i
    → (i < u.sz) × (i + size ≤ u.sz)
unfolding argptr
argptr-bounds u n size i v small h = elim (Option-cases (argint u n)) [
  | inl e ↦ absurd (let q = rw (e, argptr) at h in cc)
  | inr (a, e) ↦ let q = rw (e, argptr) at h in ground arith
]

-- The check of `argptr` does not bound a negative size: where the pointer is at least `-size`, the
-- sum wraps around, and any pointer below `sz` passes.
pub argptr-negative :
    (u : User) (n size i : ℕ)
    → IsUser u
    → argint u n ≡ some i
    → i < u.sz
    → size < word
    → word ≤ i + size
    → argptr u n size ≡ some i
unfolding argptr
argptr-negative u n size i v e lt small wraps = rw (e, argptr) (ground arith)
