-- ===== src/Inodes/Alloc.antt =====
-- `ialloc` takes the first free inode.
use rain_os.Common.{
  ℕ, zero, suc, ◌+◌, ◌-◌, ◌*◌, ◌≤◌, ◌<◌, ◌≡◌, ◌≢◌, ◌⊎◌, inl, inr, refl, sym, ◌∙◌, ap, subst, arith,
  ◌==◌, ltb, leb, ◌&&◌, if◌then◌else◌, none, some, Outcome, ok, panic, Bool-cases, update,
  update_self, int_at, short_at, short_at-put_short, put_short-outside,
}
use native.Mathlib.Decide.{ℕ_discrete}
use rain_os.Bitmap.{Blocks, readsb}
use rain_os.Icache.{Dinode, Icache, iget}
use rain_os.Inodes.{ioff, iblock, dinode_at, read_inode, clear_dinode, find_inode, ialloc}
use rain_os.Inodes.Layout.{Same, other-Same}

find_inode_lem :
    (k i : ℕ) (d : Blocks)
    → ((n : ℕ) × (find_inode k i d ≡ some n)
        × (i ≤ n)
        × (n < i + k)
        × ((read_inode d n).kind ≡ 0)
        × ((j : ℕ) → i ≤ j → j < n → (read_inode d j).kind ≢ 0))
      ⊎ ((find_inode k i d ≡ none) × ((j : ℕ) → i ≤ j → j < i + k → (read_inode d j).kind ≢ 0))
unfolding find_inode
find_inode_lem zero i d = inr (refl, λ j lo hi. absurd (omega arith))
find_inode_lem (suc k) i d = elim (Bool-cases ((read_inode d i).kind == 0)) [
  | inl e ↦ inl (i, rw e, omega arith, omega arith, ground arith, λ j lo hi. absurd (omega arith))
  | inr e ↦
      let ne : (read_inode d i).kind ≢ 0 = ground arith in
      elim (find_inode_lem k (i + 1) d) [
        | inl (n, f, lo, hi, z, before) ↦ inl (
          n,
          rw e f,
          omega arith,
          omega arith,
          z,
          λ j l h. elim (ℕ_discrete j i) [ yes q ↦ rw q ne | no q ↦ before j (omega arith) h ],
        )
        | inr (f, all) ↦ inr (
          rw e f,
          λ j l h. elim (ℕ_discrete j i) [
            | yes q ↦ rw q ne
            | no q ↦ all j (omega arith) (omega arith)
          ],
        )
      ]
]

-- All fields are 0 but the type.
abbrev pub blank : ℕ → Dinode
blank type = record { kind = type; major = 0; minor = 0; nlink = 0; size = 0; addrs = λ k. 0 }

clear_dinode-outside :
    (b : ℕ → ℕ) (o type a : ℕ) → (a < o) ⊎ (o + 64 ≤ a) → clear_dinode b o type a ≡ b a
unfolding clear_dinode
clear_dinode-outside b o type a h =
    put_short-outside (λ i. if leb o i && ltb i (o + 64) then 0 else b i) o type a (omega arith)
    ∙ ground arith

clear_dinode-inside :
    (b : ℕ → ℕ) (o type a : ℕ) → o + 2 ≤ a → a < o + 64 → clear_dinode b o type a ≡ 0
unfolding clear_dinode
clear_dinode-inside b o type a lo hi =
    put_short-outside (λ i. if leb o i && ltb i (o + 64) then 0 else b i) o type a (omega arith)
    ∙ ground arith

clear_dinode-Same :
    (b : ℕ → ℕ) (o type : ℕ)
    → type < 65536
    → Same (blank type) (dinode_at (clear_dinode b o type) o)
unfolding dinode_at clear_dinode
clear_dinode-Same b o type small =
    let z : (a : ℕ) → o + 2 ≤ a → a < o + 64 → clear_dinode b o type a ≡ 0 =
      clear_dinode-inside b o type in
    record {
      kind = short_at-put_short (λ i. if leb o i && ltb i (o + 64) then 0 else b i) o type small;
      major = short z 2 (omega arith) (omega arith);
      minor = short z 4 (omega arith) (omega arith);
      nlink = short z 6 (omega arith) (omega arith);
      size = int z 8 (omega arith) (omega arith);
      addrs = λ k lt.
          ap (int_at (clear_dinode b o type)) (omega arith)
          ∙ int z (12 + 4 * k) (omega arith) (omega arith);
    }
  where
    short :
        ((a : ℕ) → o + 2 ≤ a → a < o + 64 → clear_dinode b o type a ≡ 0)
        → (k : ℕ) → 2 ≤ k
        → k + 2 ≤ 64
        → short_at (clear_dinode b o type) (o + k) ≡ 0
    short z k lo hi =
        omega
          (arith, z (o + k) (omega arith) (omega arith), z (o + k + 1) (omega arith) (omega arith))

    int :
        ((a : ℕ) → o + 2 ≤ a → a < o + 64 → clear_dinode b o type a ≡ 0)
        → (k : ℕ) → 2 ≤ k
        → k + 4 ≤ 64
        → int_at (clear_dinode b o type) (o + k) ≡ 0
    int z k lo hi = omega (
      arith,
      z (o + k) (omega arith) (omega arith),
      z (o + k + 1) (omega arith) (omega arith),
      z (o + k + 2) (omega arith) (omega arith),
      z (o + k + 3) (omega arith) (omega arith),
    )

made_at :
    (n type : ℕ) (d : Blocks)
    → type < 65536
    → Same
        (blank type)
        (read_inode (update d (iblock n) (clear_dinode (d (iblock n)) (ioff n) type)) n)
unfolding read_inode
made_at n type d small =
    let bytes = clear_dinode (d (iblock n)) (ioff n) type in
    subst (λ (f : ℕ → ℕ). Same (blank type) (dinode_at f (ioff n)))
      (sym (update_self d (iblock n) bytes)) (clear_dinode-Same (d (iblock n)) (ioff n) type small)

-- What `ialloc` leaves where it returns the cache's slot `i`: the first free inode has the type and
-- is blank otherwise, the other inodes are as before.
pub record IsAllocated (dev type : ℕ) (d : Blocks) (c : Icache) (i : ℕ) (c' : Icache) (d' : Blocks)
    : Type 0 where
  pub inum : ℕ
  pub lower : 1 ≤ inum
  pub upper : inum < (readsb d).ninodes
  pub free : (read_inode d inum).kind ≡ 0
  pub first : (j : ℕ) → 1 ≤ j → j < inum → (read_inode d j).kind ≢ 0
  pub cached : iget dev inum c ≡ ok (i, c')
  pub made : Same (blank type) (read_inode d' inum)
  pub others : (j : ℕ) → j ≢ inum → Same (read_inode d j) (read_inode d' j)

-- `ialloc` takes the first free inode, makes it blank with its type, and returns its slot in the
-- cache. It panics only if no inode is free or the cache has no slot.
pub ialloc_lem :
    (dev type : ℕ) (d : Blocks) (c : Icache)
    → type < 65536
    → ((i : ℕ) × (c' : Icache) × (d' : Blocks) × (ialloc dev type d c ≡ ok (i, c', d'))
        × IsAllocated dev type d c i c' d')
      ⊎ ((ialloc dev type d c ≡ panic)
          × (((j : ℕ) → 1 ≤ j → j < (readsb d).ninodes → (read_inode d j).kind ≢ 0)
              ⊎ ((n : ℕ) × (iget dev n c ≡ panic))))
unfolding ialloc
ialloc_lem dev type d c small = elim (find_inode_lem ((readsb d).ninodes - 1) 1 d) [
  | inr (f, all) ↦ inr (rw (f, ialloc), inl (λ j lo hi. all j lo (omega arith)))
  | inl (n, f, lo, hi, z, before) ↦ got n f lo hi z before (iget dev n c) refl
]
  where
    got :
        (n : ℕ)
        → find_inode ((readsb d).ninodes - 1) 1 d ≡ some n
        → 1 ≤ n
        → n < 1 + ((readsb d).ninodes - 1)
        → (read_inode d n).kind ≡ 0
        → ((j : ℕ) → 1 ≤ j → j < n → (read_inode d j).kind ≢ 0)
        → (r : Outcome (ℕ × Icache)) → iget dev n c ≡ r
        → ((i : ℕ) × (c' : Icache) × (d' : Blocks) × (ialloc dev type d c ≡ ok (i, c', d'))
            × IsAllocated dev type d c i c' d')
          ⊎ ((ialloc dev type d c ≡ panic)
              × (((j : ℕ) → 1 ≤ j → j < (readsb d).ninodes → (read_inode d j).kind ≢ 0)
                  ⊎ ((n : ℕ) × (iget dev n c ≡ panic))))
    got n f lo hi z before panic e = inr (rw (f, e, ialloc), inr (n, e))
    got n f lo hi z before (ok (i, c')) e =
        let bytes = clear_dinode (d (iblock n)) (ioff n) type in
        inl (
          i,
          c',
          update d (iblock n) bytes,
          rw (f, e, ialloc),
          record {
            inum = n;
            lower = lo;
            upper = omega arith;
            free = z;
            first = before;
            cached = e;
            made = made_at n type d small;
            others = λ j ne.
                other-Same d n j bytes (clear_dinode-outside (d (iblock n)) (ioff n) type) ne;
          },
        )
