-- ===== src/Icache/Get.antt =====
-- `iget` and `idup`: each inode has one slot, and its references are counted there.
use rain_os.Common.{
  ℕ, ◌+◌, ◌<◌, ◌≡◌, ◌≢◌, ◌⊎◌, inl, inr, refl, sym, ◌∙◌, ap, true, false, none, arith, ok, panic,
  ==_refl, ==_false, if◌then◌else◌, update, update_self, update_ne, Bool-clash, Option-cases,
  find_index, find_index-some, find_index-none,
}
use native.Mathlib.Decide.{ℕ_discrete}
use rain_os.Icache.{ninode, Inode, Icache, is_cached, is_empty, iget}

-- No two slots in use hold the same inode.
pub record IsUnique (c : Icache) : Type 0 where
  pub one_slot :
      (i j : ℕ)
      → i < ninode
      → j < ninode
      → 0 < (c i).ref
      → 0 < (c j).ref
      → (c i).dev ≡ (c j).dev
      → (c i).inum ≡ (c j).inum
      → i ≡ j

-- How many references the cache counts for an inode in a slot.
abbrev pub refs : (dev inum : ℕ) → Icache → ℕ → ℕ
refs dev inum c i = if is_cached dev inum c i then (c i).ref else 0

-- Writing a slot keeps the slots unique if no other slot in use holds the new inode.
IsUnique-update :
    (c : Icache) (i : ℕ) (n : Inode)
    → IsUnique c
    → ((j : ℕ) → j < ninode → j ≢ i → 0 < (c j).ref → (c j).dev ≡ n.dev → (c j).inum ≡ n.inum → ⊥)
    → IsUnique (update c i n)
IsUnique-update c i n u other = record {
  one_slot = λ a b. by_slots a b (ℕ_discrete a i) (ℕ_discrete b i);
}
  where
    by_slots :
        (a b : ℕ)
        → Dec (a ≡ i)
        → Dec (b ≡ i)
        → a < ninode
        → b < ninode
        → 0 < (update c i n a).ref
        → 0 < (update c i n b).ref
        → (update c i n a).dev ≡ (update c i n b).dev
        → (update c i n a).inum ≡ (update c i n b).inum
        → a ≡ b
    by_slots a b (yes p) (yes q) la lb ra rb d m = p ∙ sym q
    by_slots a b (yes p) (no q) la lb ra rb d m = absurd (
        other b lb q (rw (==_false b i q) at rb) (rw (p, ==_refl i, ==_false b i q) at (sym d))
          (rw (p, ==_refl i, ==_false b i q) at (sym m)))
    by_slots a b (no p) (yes q) la lb ra rb d m = absurd (
        other a la p (rw (==_false a i p) at ra) (rw (q, ==_refl i, ==_false a i p) at d)
          (rw (q, ==_refl i, ==_false a i p) at m))
    by_slots a b (no p) (no q) la lb ra rb d m =
        u.one_slot a b la lb (rw (==_false a i p) at ra) (rw (==_false b i q) at rb)
          (rw (==_false a i p, ==_false b i q) at d) (rw (==_false a i p, ==_false b i q) at m)

cached_facts :
    (dev inum : ℕ) (c : Icache) (i : ℕ)
    → is_cached dev inum c i ≡ true
    → (0 < (c i).ref) × ((c i).dev ≡ dev) × ((c i).inum ≡ inum)
cached_facts dev inum c i h = ground arith

cached_of :
    (dev inum : ℕ) (c : Icache) (i : ℕ)
    → 0 < (c i).ref
    → (c i).dev ≡ dev
    → (c i).inum ≡ inum
    → is_cached dev inum c i ≡ true
cached_of dev inum c i r d m = ground arith

-- `iget` returns the slot of the inode, with one more reference there than before; no other slot
-- changes; and where each inode had one slot, it still has one. Where it panics, every slot is in
-- use by another inode.
pub iget_lem :
    (dev inum : ℕ) (c : Icache)
    → IsUnique c
    → ((i : ℕ) × (c' : Icache) × (iget dev inum c ≡ ok (i, c'))
        × (i < ninode)
        × ((c' i).dev ≡ dev)
        × ((c' i).inum ≡ inum)
        × ((c' i).ref ≡ refs dev inum c i + 1)
        × ((j : ℕ) → j ≢ i → c' j ≡ c j)
        × IsUnique c')
      ⊎ ((iget dev inum c ≡ panic)
          × ((i : ℕ) → i < ninode → (0 < (c i).ref) × (is_cached dev inum c i ≡ false)))
unfolding iget
iget_lem dev inum c u = elim (Option-cases (find_index (is_cached dev inum c) ninode 0)) [
  | inr (i, e) ↦
      let f = find_index-some (is_cached dev inum c) ninode 0 i e in
      let n : Inode = record (c i) { ref = (c i).ref + 1 } in
      inl (
        i,
        update c i n,
        rw (e, iget),
        omega (arith, f.upper),
        ap (λ (p : Inode). p.dev) (update_self c i n) ∙ (cached_facts dev inum c i f.hit).1,
        ap (λ (p : Inode). p.inum) (update_self c i n) ∙ (cached_facts dev inum c i f.hit).2,
        ap (λ (p : Inode). p.ref) (update_self c i n) ∙ rw f.hit refl,
        λ j ne. update_ne c i j n ne,
        IsUnique-update c i n u (λ j lj ne r d m.
            ne (
              u.one_slot j i lj (omega (arith, f.upper)) r (cached_facts dev inum c i f.hit).0 d
                m)),
      )
  | inl e ↦ elim (Option-cases (find_index (is_empty c) ninode 0)) [
    | inr (i, e2) ↦
        let f = find_index-some (is_empty c) ninode 0 i e2 in
        let n : Inode = record (c i) {
          dev = dev;
          inum = inum;
          ref = 1;
          busy = false;
          valid = false;
        } in
        inl (
          i,
          update c i n,
          rw (e, e2, iget),
          omega (arith, f.upper),
          ap (λ (p : Inode). p.dev) (update_self c i n),
          ap (λ (p : Inode). p.inum) (update_self c i n),
          ap (λ (p : Inode). p.ref) (update_self c i n) ∙ fresh i f.hit,
          λ j ne. update_ne c i j n ne,
          IsUnique-update c i n u (λ j lj ne r d m.
              Bool-clash (is_cached dev inum c j) (cached_of dev inum c j r d m)
                (find_index-none (is_cached dev inum c) ninode 0 e j (omega arith) (omega arith))),
        )
    | inl e2 ↦ inr (rw (e, e2, iget), λ i lt. full i lt e e2)
  ]
]
  where
    fresh : (i : ℕ) → is_empty c i ≡ true → 1 ≡ refs dev inum c i + 1
    fresh i h = ground arith

    full :
        (i : ℕ)
        → i < ninode
        → find_index (is_cached dev inum c) ninode 0 ≡ none
        → find_index (is_empty c) ninode 0 ≡ none
        → (0 < (c i).ref) × (is_cached dev inum c i ≡ false)
    full i lt e e2 = (
      ground (arith, find_index-none (is_empty c) ninode 0 e2 i),
      find_index-none (is_cached dev inum c) ninode 0 e i (omega arith) (omega arith),
    )
