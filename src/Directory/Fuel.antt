-- ===== src/Directory/Fuel.antt =====
-- The loop of `dirlookup` ends: with more fuel than the directory has bytes it does not run out.
use rain_os.Common.{
  ℕ, zero, suc, ◌+◌, ◌<◌, ◌≡◌, ◌≢◌, refl, subst, arith, ◌⊎◌, Bool, List, length, ok, Outcome-cases,
  none, Option-cases, Bool-cases, inl, inr, ◌==◌, leb, word, add_word, short_at, put_short,
}
use rain_os.String.{Memory, strncpy}
use rain_os.Bitmap.{Blocks}
use rain_os.Icache.{Dinode, Icache, iget}
use rain_os.Content.{
  Readi, readi, Writei, writei, dev_write, refused, broken, written, slice, splice, by_device,
  failed, crashed, done,
}
use rain_os.Content.Size.{IsRead, readi-IsRead}
use rain_os.Directory.{
  t_dir, dirsiz, dirent_size, Lookup, resolved, unresolved, halted, unfinished, Scan, endless,
  stopped, missed, hit, find_entry, namecmp, dirlookup, find_free, Link, linked, impossible,
  endless_link, link_of, add_entry,
}

-- The search has ended.
abbrev IsOver : Scan → Type 0
IsOver endless = ⊥
IsOver stopped = Unit
IsOver (missed _ _) = Unit
IsOver (hit _ _ _ _) = Unit

Readi-cases :
    (r : Readi)
    → ((b : List ℕ) × (dp : Dinode) × (d : Blocks) × (r ≡ done b dp d))
      ⊎ ((major n : ℕ) × (r ≡ by_device major n))
      ⊎ (r ≡ failed)
      ⊎ (r ≡ crashed)
Readi-cases (done b dp d) = inl (b, dp, d, refl)
Readi-cases (by_device major n) = inr (inl (major, n, refl))
Readi-cases failed = inr (inr (inl refl))
Readi-cases crashed = inr (inr (inr refl))

Scan-cases :
    (s : Scan)
    → IsOver s
    → ((dp : Dinode) × (d : Blocks) × (s ≡ missed dp d))
      ⊎ ((inum off : ℕ) × (dp : Dinode) × (d : Blocks) × (s ≡ hit inum off dp d))
      ⊎ (s ≡ stopped)
Scan-cases endless h = absurd h
Scan-cases stopped h = inr (inr refl)
Scan-cases (missed dp d) h = inl (dp, d, refl)
Scan-cases (hit inum off dp d) h = inr (inl (inum, off, dp, d, refl))

find_entry-IsOver :
    (has_read : ℕ → Bool) (fuel name de off : ℕ) (dp : Dinode) (d : Blocks) (m : Memory)
    → off < word
    → 0 < fuel
    → dp.size < off + fuel
    → IsOver (find_entry has_read fuel name de off dp d m)
unfolding find_entry
find_entry-IsOver has_read zero name de off dp d m lt pos h = absurd (omega arith)
find_entry-IsOver has_read (suc fuel) name de off dp d m lt pos h =
    elim (Bool-cases (leb dp.size off)) [
      | inl e ↦ rw e tt
      | inr e ↦ elim (Readi-cases (readi has_read dp off dirent_size d)) [
        | inr (inl (major, n, r)) ↦ rw (e, r) tt
        | inr (inr (inl r)) ↦ rw (e, r) tt
        | inr (inr (inr r)) ↦ rw (e, r) tt
        | inl (b, dp', d', r) ↦
            let w =
              subst (IsRead dirent_size off dp) r (readi-IsRead has_read dp off dirent_size d) in
            let m' = splice de b m in
            let ih =
              find_entry-IsOver has_read fuel name de (add_word off dirent_size) dp' d' m'
                (omega arith) (ground (arith, e)) (omega (arith, w)) in
            elim (Bool-cases (length b == dirent_size)) [
              | inr f ↦ rw (e, r, f) tt
              | inl f ↦ elim (Bool-cases (short_at m' de == 0)) [
                | inl g ↦ rw (e, r, f, g) ih
                | inr g ↦ elim (Bool-cases (namecmp name (de + 2) m' == 0)) [
                  | inl k ↦ rw (e, r, f, g, k) tt
                  | inr k ↦ rw (e, r, f, g, k) ih
                ]
              ]
            ]
      ]
    ]

-- What an inode found is: a reference that `iget` has taken.
abbrev pub IsLookup : (dev : ℕ) → Icache → Lookup → Type 0
IsLookup dev c (resolved i _ c' _ _) = (inum : ℕ) × (iget dev inum c ≡ ok (i, c'))
IsLookup dev c (unresolved _ _) = Unit
IsLookup dev c halted = Unit
IsLookup dev c unfinished = ⊥

pub dirlookup-IsLookup :
    (has_read : ℕ → Bool) (dev name de : ℕ) (dp : Dinode) (c : Icache) (d : Blocks) (m : Memory)
    → IsLookup dev c (dirlookup has_read (dp.size + 1) dev name de dp c d m)
unfolding dirlookup
dirlookup-IsLookup has_read dev name de dp c d m = elim (Bool-cases (dp.kind == t_dir)) [
  | inr e ↦ rw e tt
  | inl e ↦
      let over =
        find_entry-IsOver has_read (dp.size + 1) name de 0 dp d m (omega arith) (omega arith)
          (omega arith) in
      elim (Scan-cases (find_entry has_read (dp.size + 1) name de 0 dp d m) over) [
        | inl (dp', d', r) ↦ rw (e, r) tt
        | inr (inr r) ↦ rw (e, r) tt
        | inr (inl (inum, off, dp', d', r)) ↦ elim (Outcome-cases (iget dev inum c)) [
          | inl q ↦ rw (e, r, q) tt
          | inr ((i, c'), q) ↦ rw (e, r, q) (inum, q)
        ]
      ]
]

pub find_free_lem :
    (has_read : ℕ → Bool) (fuel de off : ℕ) (dp : Dinode) (d : Blocks) (m : Memory)
    → off < word
    → 0 < fuel
    → dp.size < off + fuel
    → find_free has_read fuel de off dp d m ≢ none
unfolding find_free
find_free_lem has_read zero de off dp d m lt pos h = absurd (omega arith)
find_free_lem has_read (suc fuel) de off dp d m lt pos h = elim (Bool-cases (leb dp.size off)) [
  | inl e ↦ rw (find_free, e) (λ q. cc)
  | inr e ↦ elim (Readi-cases (readi has_read dp off dirent_size d)) [
    | inr (inl (major, n, r)) ↦ rw (find_free, e, r) (λ q. cc)
    | inr (inr (inl r)) ↦ rw (find_free, e, r) (λ q. cc)
    | inr (inr (inr r)) ↦ rw (find_free, e, r) (λ q. cc)
    | inl (b, dp', d', r) ↦
        let w = subst (IsRead dirent_size off dp) r (readi-IsRead has_read dp off dirent_size d) in
        let m' = splice de b m in
        let ih =
          find_free_lem has_read fuel de (add_word off dirent_size) dp' d' m' (omega arith)
            (ground (arith, e)) (omega (arith, w)) in
        elim (Bool-cases (length b == dirent_size)) [
          | inr f ↦ rw (find_free, e, r, f) (λ q. cc)
          | inl f ↦ elim (Bool-cases (short_at m' de == 0)) [
            | inl g ↦ rw (find_free, e, r, f, g) (λ q. cc)
            | inr g ↦ rw (find_free, e, r, f, g) ih
          ]
        ]
  ]
]

-- An entry is added, or the kernel panics.
abbrev pub IsAdded : Link → Type 0
IsAdded (linked dp d) = Unit
IsAdded impossible = Unit
IsAdded endless_link = ⊥

link_of-IsAdded : (x : Writei) → IsAdded (link_of x)
link_of-IsAdded (dev_write major n) = tt
link_of-IsAdded refused = tt
link_of-IsAdded broken = tt
link_of-IsAdded (written dp d) = tt

pub add_entry-IsAdded :
    (has_read has_write : ℕ → Bool) (number name inum de : ℕ) (dp : Dinode) (d : Blocks)
    (m : Memory)
    → IsAdded (add_entry has_read has_write (dp.size + 1) number name inum de dp d m)
unfolding add_entry
add_entry-IsAdded has_read has_write number name inum de dp d m =
    let over =
      find_free_lem has_read (dp.size + 1) de 0 dp d m (omega arith) (omega arith) (omega arith) in
    elim (Option-cases (find_free has_read (dp.size + 1) de 0 dp d m)) [
      | inl e ↦ absurd (over e)
      | inr (o, e) ↦ elim (Outcome-cases o) [
        | inl q ↦ rw (add_entry, e, q) tt
        | inr ((off, dp2, d2), q) ↦
            rw (add_entry, e, q)
              (let m' = put_short (strncpy (de + 2) name dirsiz m) de inum in
                link_of-IsAdded (writei has_write number dp2 off (slice dirent_size de m') d2))
      ]
    ]
