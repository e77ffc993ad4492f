-- ===== src/Vm/Walk.antt =====
-- `walkpgdir` that may add a page table: it changes no entry.
use rain_os.Common.{
  ℕ, ◌+◌, ◌*◌, ◌/◌, ◌%◌, ◌^◌, ◌≤◌, ◌<◌, ◌≡◌, ◌≢◌, ◌⊎◌, inl, inr, refl, sym, ap, ◌∙◌, arith, true,
  false, Bool-cases, ==_false, update, update_self, update_ne,
}
use native.Mathlib.Decide.{ℕ_discrete}
use rain_os.Kalloc.{pgsize, Memory, Kmem, kalloc}
use rain_os.Vm.{bor, present, p2v, v2p, pte_addr, pdx, ptx, zero_page, walkpgdir}
use rain_os.Vm.Flags.{bor-add}
use rain_os.Vm.Tables.{pde, table, IsSpace, IsFresh, entry}

-- The directory entry for the new table `p`.
new_pde : (p : ℕ) → p % pgsize ≡ 0 → bor 32 (v2p p) 7 ≡ v2p p + 7
new_pde p h =
    let e : v2p p ≡ v2p p / 4096 * 2 ^ 12 = omega arith in
    ap (λ (n : ℕ). bor 32 n 7) e
    ∙ bor-add 32 12 (v2p p / 4096) 7 (omega arith) (omega arith) (omega arith)
    ∙ ap (λ (n : ℕ). n + 7) (sym e)

-- An address in one page is outside of another page, and differs from an address in it.
pub page-outside :
    (q p o : ℕ)
    → q % pgsize ≡ 0
    → p % pgsize ≡ 0
    → q ≢ p
    → o < pgsize
    → (q + o < p) ⊎ (p + pgsize ≤ q + o)
page-outside q p o hq hp ne lt = ground arith

pub page-differs :
    (q p o r : ℕ)
    → q % pgsize ≡ 0
    → p % pgsize ≡ 0
    → q ≢ p
    → o < pgsize
    → r < pgsize
    → q + o ≢ p + r
page-differs q p o r hq hp ne lo lr e = omega arith

pub table-aligned : (e : ℕ) → p2v (pte_addr e) % pgsize ≡ 0
table-aligned e = omega arith

module _ (m : Memory) (pgdir p x : ℕ) (sp : IsSpace m pgdir) (fr : IsFresh m pgdir p)
    (lt : x < 1024) (abs : present (pde m pgdir x) ≡ false) where
  abbrev m' : Memory
  m' = update (zero_page m p) (pgdir + 4 * x) (bor 32 (v2p p) 7)

  new : pde m' pgdir x ≡ v2p p + 7
  new = update_self (zero_page m p) (pgdir + 4 * x) (bor 32 (v2p p) 7) ∙ new_pde p fr.aligned

  new-present : present (pde m' pgdir x) ≡ true
  new-present = ap present new ∙ ground arith

  new-table : table m' pgdir x ≡ p
  new-table =
      let a = fr.aligned in
      let b = fr.above in
      let c = fr.below in ap (λ (n : ℕ). p2v (pte_addr n)) new ∙ omega (arith, a, b, c)

  outside : (a : ℕ) → (a < p) ⊎ (p + pgsize ≤ a) → a ≢ pgdir + 4 * x → m' a ≡ m a
  outside a o ne = update_ne (zero_page m p) (pgdir + 4 * x) a (bor 32 (v2p p) 7) ne ∙ ground arith

  old : (i : ℕ) → i < 1024 → i ≢ x → pde m' pgdir i ≡ pde m pgdir i
  old i hi ne =
      outside (pgdir + 4 * i)
        (page-outside pgdir p (4 * i) sp.aligned fr.aligned (λ q. fr.other (sym q)) (omega arith))
        (omega arith)

  in_table :
      (i o : ℕ)
      → i < 1024
      → o < 1024
      → present (pde m pgdir i) ≡ true
      → m' (table m pgdir i + 4 * o) ≡ m (table m pgdir i + 4 * o)
  in_table i o hi ho pr =
      outside (table m pgdir i + 4 * o)
        (page-outside (table m pgdir i) p (4 * o) (table-aligned (pde m pgdir i)) fr.aligned
          (fr.unused i hi pr) (omega arith))
        (page-differs (table m pgdir i) pgdir (4 * o) (4 * x) (table-aligned (pde m pgdir i))
          sp.aligned (sp.apart i hi pr) (omega arith) (omega arith))

  new-zero : (o : ℕ) → o < 1024 → m' (p + 4 * o) ≡ 0
  new-zero o ho =
      update_ne (zero_page m p) (pgdir + 4 * x) (p + 4 * o) (bor 32 (v2p p) 7) (
        page-differs p pgdir (4 * o) (4 * x) fr.aligned sp.aligned fr.other (omega arith)
          (omega arith))
      ∙ ground arith

  -- The tables of the new space: the old ones, and `p`.
  abbrev IsOf : ℕ → Type 0
  IsOf i =
      ((i ≡ x) × (table m' pgdir i ≡ p))
      ⊎ ((i ≢ x) × (present (pde m pgdir i) ≡ true) × (table m' pgdir i ≡ table m pgdir i))

  of : (i : ℕ) → i < 1024 → present (pde m' pgdir i) ≡ true → IsOf i
  of i hi pr = elim (ℕ_discrete i x) [
    | yes q ↦ inl (q, ap (table m' pgdir) q ∙ new-table)
    | no ne ↦
        inr
          (ne, ap present (sym (old i hi ne)) ∙ pr, ap (λ (n : ℕ). p2v (pte_addr n)) (old i hi ne))
  ]

  new-IsSpace : IsSpace m' pgdir
  new-IsSpace = record {
    aligned = sp.aligned;
    above = λ i hi pr. elim (of i hi pr) [
      | inl (_, t) ↦ rw t fr.above
      | inr (_, pr', t) ↦ rw t (sp.above i hi pr')
    ];
    apart = λ i hi pr e. elim (of i hi pr) [
      | inl (_, t) ↦ fr.other (sym t ∙ e)
      | inr (_, pr', t) ↦ sp.apart i hi pr' (sym t ∙ e)
    ];
    distinct = λ i j hi hj pi pj e. elim (of i hi pi) [
      | inl (q, t) ↦ elim (of j hj pj) [
        | inl (r, _) ↦ q ∙ sym r
        | inr (_, pr', u) ↦ absurd (fr.unused j hj pr' (sym u ∙ sym e ∙ t))
      ]
      | inr (_, pr, t) ↦ elim (of j hj pj) [
        | inl (_, u) ↦ absurd (fr.unused i hi pr (sym t ∙ e ∙ u))
        | inr (_, pr', u) ↦ sp.distinct i j hi hj pr pr' (sym t ∙ e ∙ u)
      ]
    ];
  }

  new-entry : (va : ℕ) → entry m' pgdir va ≡ entry m pgdir va
  new-entry va = elim (ℕ_discrete (pdx va) x) [
    | yes q ↦
        let n = new-present in
        let t = new-table in let z = new-zero (ptx va) (omega arith) in rw (q, n, abs, t) z
    | no ne ↦ elim (Bool-cases (present (pde m pgdir (pdx va)))) [
      | inl pr ↦
          rw (old (pdx va) (omega arith) ne, pr)
            (in_table (pdx va) (ptx va) (omega arith) (omega arith) pr)
      | inr pr ↦ rw (old (pdx va) (omega arith) ne, pr)
    ]
  ]

-- What `walkpgdir` gives when it finds or makes a table.
pub record IsWalked (k k' : Kmem) (pgdir va pte : ℕ) : Type 0 where
  pub space : IsSpace k'.mem pgdir
  pub has_table : present (pde k'.mem pgdir (pdx va)) ≡ true
  pub address : pte ≡ table k'.mem pgdir (pdx va) + 4 * ptx va
  pub same : (va' : ℕ) → entry k'.mem pgdir va' ≡ entry k.mem pgdir va'

pub walk_lem :
    (k : Kmem) (pgdir va : ℕ)
    → IsSpace k.mem pgdir
    → (k.freelist ≢ 0 → IsFresh k.mem pgdir k.freelist)
    → ((walkpgdir pgdir va true k ≡ (0, k))
        × (k.freelist ≡ 0)
        × (present (pde k.mem pgdir (pdx va)) ≡ false))
      ⊎ ((pte : ℕ) × (k' : Kmem) × (walkpgdir pgdir va true k ≡ (pte, k'))
          × IsWalked k k' pgdir va pte)
unfolding walkpgdir kalloc
walk_lem k pgdir va sp fr = elim (Bool-cases (present (pde k.mem pgdir (pdx va)))) [
  | inl pr ↦ inr (
    table k.mem pgdir (pdx va) + 4 * ptx va,
    k,
    rw pr refl,
    record { space = sp; has_table = pr; address = refl; same = λ va'. refl },
  )
  | inr abs ↦ elim (ℕ_discrete k.freelist 0) [
    | yes z ↦ inl (rw (abs, z) refl, z, abs)
    | no nz ↦ inr (
      k.freelist + 4 * ptx va,
      record k {
        freelist = k.mem k.freelist;
        mem = m' k.mem pgdir k.freelist (pdx va) sp (fr nz) (omega arith) abs;
      },
      rw (abs, ==_false k.freelist 0 nz, ==_false k.freelist 0 nz) refl,
      record {
        space = new-IsSpace k.mem pgdir k.freelist (pdx va) sp (fr nz) (omega arith) abs;
        has_table = new-present k.mem pgdir k.freelist (pdx va) sp (fr nz) (omega arith) abs;
        address =
            ap (λ (n : ℕ). n + 4 * ptx va)
              (sym (new-table k.mem pgdir k.freelist (pdx va) sp (fr nz) (omega arith) abs));
        same = new-entry k.mem pgdir k.freelist (pdx va) sp (fr nz) (omega arith) abs;
      },
    )
  ]
]
