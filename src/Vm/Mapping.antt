-- ===== src/Vm/Mapping.antt =====
-- `mappages` of one page, as growing and copying a process use it.
use rain_os.Common.{
  ℕ, suc, ◌+◌, ◌-◌, ◌*◌, ◌/◌, ◌%◌, ◌^◌, ◌<◌, ◌≡◌, ◌≢◌, ◌⊎◌, inl, inr, refl, sym, ap, ◌∙◌, arith,
  true, false, Bool-cases, some, ok, panic, ==_refl, ==_false, word, add_word, sub_word, update,
  update_self, update_ne,
}
use native.Mathlib.Decide.{ℕ_discrete}
use rain_os.Kalloc.{pgsize, Memory, Kmem}
use rain_os.Vm.{
  bor, present, p2v, pte_addr, pdx, ptx, with_mem, walkpgdir, mappages, map_from, page_round_down,
  pte_p,
}
use rain_os.Vm.Flags.{bor-add, bor-one}
use rain_os.Vm.Tables.{pde, table, IsSpace, IsFresh, entry}
use rain_os.Vm.Walk.{IsWalked, walk_lem, page-differs, table-aligned}

-- What `mappages` stores for the frame `pa`.
stored :
    (pa perm : ℕ)
    → pa % pgsize ≡ 0
    → pa < word
    → perm < pgsize
    → bor 32 (bor 32 pa perm) pte_p ≡ pa + perm - perm % 2 + 1
stored pa perm al lt h =
    let e : pa ≡ pa / 4096 * 2 ^ 12 = omega arith in
    let q : bor 32 pa perm ≡ pa + perm =
      ap (λ (n : ℕ). bor 32 n perm) e
      ∙ bor-add 32 12 (pa / 4096) perm (omega arith) (omega arith) (omega arith)
      ∙ ap (λ (n : ℕ). n + perm) (sym e) in
    ap (λ (n : ℕ). bor 32 n 1) q ∙ bor-one 31 (pa + perm) (omega arith) ∙ omega arith

-- An entry is written into a table of the space.
module _ (m : Memory) (pgdir x y e : ℕ) (sp : IsSpace m pgdir) (hx : x < 1024) (hy : y < 1024)
    (pr : present (pde m pgdir x) ≡ true) where
  abbrev m' : Memory
  m' = update m (table m pgdir x + 4 * y) e

  same-pde : (i : ℕ) → i < 1024 → pde m' pgdir i ≡ pde m pgdir i
  same-pde i hi = update_ne m (table m pgdir x + 4 * y) (pgdir + 4 * i) e (
      page-differs pgdir (table m pgdir x) (4 * i) (4 * y) sp.aligned
        (table-aligned (pde m pgdir x)) (λ q. sp.apart x hx pr (sym q)) (omega arith) (omega arith))

  same-table : (i : ℕ) → i < 1024 → table m' pgdir i ≡ table m pgdir i
  same-table i hi = ap (λ (n : ℕ). p2v (pte_addr n)) (same-pde i hi)

  same-present :
      (i : ℕ) → i < 1024 → present (pde m' pgdir i) ≡ true → present (pde m pgdir i) ≡ true
  same-present i hi p = ap present (sym (same-pde i hi)) ∙ p

  written-IsSpace : IsSpace m' pgdir
  written-IsSpace = record {
    aligned = sp.aligned;
    above = λ i hi p. rw (same-pde i hi) (sp.above i hi (same-present i hi p));
    apart = λ i hi p q. sp.apart i hi (same-present i hi p) (sym (same-table i hi) ∙ q);
    distinct = λ i j hi hj p q r.
        sp.distinct i j hi hj (same-present i hi p) (same-present j hj q)
          (sym (same-table i hi) ∙ r ∙ same-table j hj);
  }

  written_self : (va : ℕ) → pdx va ≡ x → ptx va ≡ y → entry m' pgdir va ≡ e
  written_self va qx qy = rw (qx, qy, same-pde x hx, pr) (update_self m (table m pgdir x + 4 * y) e)

  written_other : (va : ℕ) → (pdx va ≢ x) ⊎ (ptx va ≢ y) → entry m' pgdir va ≡ entry m pgdir va
  written_other va ne = elim (Bool-cases (present (pde m pgdir (pdx va)))) [
    | inl p ↦
        rw (same-pde (pdx va) (omega arith), p)
          (update_ne m (table m pgdir x + 4 * y) (table m pgdir (pdx va) + 4 * ptx va) e (differ p))
    | inr p ↦ rw (same-pde (pdx va) (omega arith), p)
  ]
    where
      differ :
          present (pde m pgdir (pdx va)) ≡ true
          → table m pgdir (pdx va) + 4 * ptx va ≢ table m pgdir x + 4 * y
      differ p = elim (ℕ_discrete (pdx va) x) [
        | yes q ↦ λ r. same q (elim ne [ inl a ↦ absurd (a q) | inr b ↦ b ]) r
        | no n ↦
            page-differs (table m pgdir (pdx va)) (table m pgdir x) (4 * ptx va) (4 * y)
              (table-aligned (pde m pgdir (pdx va))) (table-aligned (pde m pgdir x))
              (λ q. n (sp.distinct (pdx va) x (omega arith) hx p pr q)) (omega arith) (omega arith)
      ]
        where
          same :
              pdx va ≡ x
              → ptx va ≢ y
              → table m pgdir (pdx va) + 4 * ptx va ≢ table m pgdir x + 4 * y
          same q b r = let t = ap (table m pgdir) q in b (omega (arith, t, r))

module _ (f pgdir va pa perm : ℕ) (k : Kmem) where
  map_from-failed :
      walkpgdir pgdir va true k ≡ (0, k)
      → map_from (suc f) pgdir va perm va pa k ≡ some (ok (false, k))
  unfolding map_from
  map_from-failed h = rw h refl

  map_from-remap :
      (pte : ℕ) (k1 : Kmem)
      → walkpgdir pgdir va true k ≡ (pte, k1)
      → pte ≢ 0
      → present (k1.mem pte) ≡ true
      → map_from (suc f) pgdir va perm va pa k ≡ some panic
  unfolding map_from
  map_from-remap pte k1 h nz p = rw (h, ==_false pte 0 nz, p) refl

  map_from-done :
      (pte : ℕ) (k1 : Kmem)
      → walkpgdir pgdir va true k ≡ (pte, k1)
      → pte ≢ 0
      → present (k1.mem pte) ≡ false
      → map_from (suc f) pgdir va perm va pa k
        ≡ some (ok (true, with_mem k1 (update k1.mem pte (bor 32 (bor 32 pa perm) pte_p))))
  unfolding map_from
  map_from-done pte k1 h nz p = rw (h, ==_false pte 0 nz, p, ==_refl va) refl

  one_page :
      va % pgsize ≡ 0
      → va < word
      → mappages (suc f) pgdir va pgsize pa perm k ≡ map_from (suc f) pgdir va perm va pa k
  unfolding mappages
  one_page al lt =
      let a : page_round_down va ≡ va = omega arith in
      let b : page_round_down (sub_word (add_word va pgsize) 1) ≡ va = omega arith in
      ap (λ (n : ℕ). map_from (suc f) pgdir n perm (page_round_down va) pa k) b
      ∙ ap (λ (n : ℕ). map_from (suc f) pgdir va perm n pa k) a

  other_page :
      (va' : ℕ)
      → va < word
      → va' < word
      → va' / pgsize ≢ va / pgsize
      → (pdx va' ≢ pdx va) ⊎ (ptx va' ≢ ptx va)
  other_page va' lt lt' ne = elim (ℕ_discrete (pdx va') (pdx va)) [
    | no n ↦ inl n
    | yes q ↦ inr (λ r. ne (omega (arith, q, r)))
  ]

-- `k'` is `k` with the page of `va` mapped to the frame `pa`, and no other page changed.
pub record IsMapped (k k' : Kmem) (pgdir va pa perm : ℕ) : Type 0 where
  pub space : IsSpace k'.mem pgdir
  pub frame : pte_addr (entry k'.mem pgdir va) ≡ pa
  pub flags : entry k'.mem pgdir va % pgsize ≡ perm - perm % 2 + 1
  pub others :
      (va' : ℕ)
      → va' < word
      → va' / pgsize ≢ va / pgsize
      → entry k'.mem pgdir va' ≡ entry k.mem pgdir va'

-- `mappages` of one page, in an address space whose tables are different pages, and with a first
-- free page that is none of them. A page that is mapped already makes it panic. Else it fails, and
-- changes nothing, exactly when the page has no table and there is no free page for one; or the page
-- is then mapped to the frame with the permissions and the present flag, and the entries of all
-- other pages stay as they were. A single round is enough.
pub map_page_lem :
    (f pgdir va pa perm : ℕ) (k : Kmem)
    → IsSpace k.mem pgdir
    → (k.freelist ≢ 0 → IsFresh k.mem pgdir k.freelist)
    → va % pgsize ≡ 0
    → va < word
    → pa % pgsize ≡ 0
    → pa < word
    → perm < pgsize
    → (present (entry k.mem pgdir va) ≡ true
        → mappages (suc f) pgdir va pgsize pa perm k ≡ some panic)
      × (present (entry k.mem pgdir va) ≡ false
          → ((mappages (suc f) pgdir va pgsize pa perm k ≡ some (ok (false, k)))
              × (k.freelist ≡ 0)
              × (present (pde k.mem pgdir (pdx va)) ≡ false))
            ⊎ ((k' : Kmem) × (mappages (suc f) pgdir va pgsize pa perm k ≡ some (ok (true, k')))
                × IsMapped k k' pgdir va pa perm))
map_page_lem f pgdir va pa perm k sp fr al lt al' lt' hp = elim (walk_lem k pgdir va sp fr) [
  | inl (h, z, abs) ↦ (
    λ p. absurd (let q = rw abs at p in cc),
    λ _. inl (one_page f pgdir va pa perm k al lt ∙ map_from-failed f pgdir va pa perm k h, z, abs),
  )
  | inr (pte, k1, h, w) ↦ (
    λ p.
        one_page f pgdir va pa perm k al lt
        ∙ map_from-remap f pgdir va pa perm k pte k1 h (nonzero pte k1 w)
            (ap present (read pte k1 w) ∙ p),
    λ p. inr (
      with_mem k1 (update k1.mem pte (bor 32 (bor 32 pa perm) pte_p)),
      one_page f pgdir va pa perm k al lt
          ∙ map_from-done f pgdir va pa perm k pte k1 h (nonzero pte k1 w)
              (ap present (read pte k1 w) ∙ p),
      mapped pte k1 w,
    ),
  )
]
  where
    nonzero : (pte : ℕ) (k1 : Kmem) → IsWalked k k1 pgdir va pte → pte ≢ 0
    nonzero pte k1 w q =
        let a = w.space.above (pdx va) (omega arith) w.has_table in
        let b = w.address in omega (arith, a, b, q)

    read : (pte : ℕ) (k1 : Kmem) → IsWalked k k1 pgdir va pte → k1.mem pte ≡ entry k.mem pgdir va
    read pte k1 w =
        ap k1.mem w.address ∙ sym (entry-present k1.mem pgdir va w.has_table) ∙ w.same va
      where
        entry-present :
            (m : Memory) (pgdir va : ℕ)
            → present (pde m pgdir (pdx va)) ≡ true
            → entry m pgdir va ≡ m (table m pgdir (pdx va) + 4 * ptx va)
        entry-present m pgdir va p = rw p refl

    mapped :
        (pte : ℕ) (k1 : Kmem)
        → IsWalked k k1 pgdir va pte
        → IsMapped k
            (with_mem k1 (update k1.mem pte (bor 32 (bor 32 pa perm) pte_p)))
            pgdir
            va
            pa
            perm
    mapped pte k1 w =
        let e = bor 32 (bor 32 pa perm) pte_p in
        let x : pdx va < 1024 = omega arith in
        let y : ptx va < 1024 = omega arith in
        let at =
          written_self k1.mem pgdir (pdx va) (ptx va) e w.space x y w.has_table va refl refl
          ∙ stored pa perm al' lt' hp in
        rw w.address (record {
          space = written-IsSpace k1.mem pgdir (pdx va) (ptx va) e w.space x y w.has_table;
          frame = ap pte_addr at ∙ omega arith;
          flags = ap (λ (n : ℕ). n % pgsize) at ∙ omega arith;
          others = λ va' lt'' ne.
              written_other k1.mem pgdir (pdx va) (ptx va) e w.space x y w.has_table va'
                (other_page f pgdir va pa perm k va' lt lt'' ne)
              ∙ w.same va';
        })
