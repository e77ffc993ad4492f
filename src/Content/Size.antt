-- ===== src/Content/Size.antt =====
-- Reading a file may give it blocks for its holes, but does not change its size.
use rain_os.Common.{
  ℕ, zero, suc, ◌+◌, ◌-◌, ◌*◌, ◌/◌, ◌%◌, ◌≤◌, ◌≡◌, refl, ◌∙◌, arith, Bool, not, ◌||◌, subst,
  Outcome, ok, panic, Outcome-cases, Bool-cases, inl, inr, ◌==◌, ltb, leb, if◌then◌else◌, add_word,
  int_at, min,
}
use rain_os.Bitmap.{Blocks, balloc}
use rain_os.Icache.{Dinode}
use rain_os.Content.{
  bsize, ndirect, nindirect, t_dev, ndev, own_addr, own_entry, bmap, read_from, Readi, readi,
  by_device, failed, crashed, done,
}

-- An inode that comes back has the size `n`.
abbrev Keeps : {A : Type 0} → ℕ → Outcome (A × Dinode × Blocks) → Type 0
Keeps n panic = Unit
Keeps n (ok (_, ip, _)) = ip.size ≡ n

own_addr-Keeps : (k : ℕ) (ip : Dinode) (d : Blocks) → Keeps ip.size (own_addr k ip d)
unfolding own_addr
own_addr-Keeps k ip d = elim (Bool-cases (ip.addrs k == 0)) [
  | inr e ↦ rw e refl
  | inl e ↦ elim (Outcome-cases (balloc d)) [ inl r ↦ rw (e, r) tt | inr (a, r) ↦ rw (e, r) refl ]
]

own_entry-Keeps : (addr bn : ℕ) (ip : Dinode) (d : Blocks) → Keeps ip.size (own_entry addr bn ip d)
unfolding own_entry
own_entry-Keeps addr bn ip d = elim (Bool-cases (int_at (d addr) (4 * bn) == 0)) [
  | inr e ↦ rw e refl
  | inl e ↦ elim (Outcome-cases (balloc d)) [ inl r ↦ rw (e, r) tt | inr (a, r) ↦ rw (e, r) refl ]
]

bmap-Keeps : (bn : ℕ) (ip : Dinode) (d : Blocks) → Keeps ip.size (bmap bn ip d)
unfolding bmap
bmap-Keeps bn ip d = elim (Bool-cases (ltb bn ndirect)) [
  | inl e ↦ rw e (own_addr-Keeps bn ip d)
  | inr e ↦ elim (Bool-cases (ltb (bn - ndirect) nindirect)) [
    | inr f ↦ rw (e, f) tt
    | inl f ↦ elim (Outcome-cases (own_addr ndirect ip d)) [
      | inl r ↦ rw (e, f, r) tt
      | inr ((a, ip', d'), r) ↦
          let q : ip'.size ≡ ip.size = subst (Keeps ip.size) r (own_addr-Keeps ndirect ip d) in
          rw (e, f, r)
            (subst (λ n. Keeps n (own_entry a (bn - ndirect) ip' d')) q
              (own_entry-Keeps a (bn - ndirect) ip' d'))
    ]
  ]
]

read_from-Keeps :
    (k left off : ℕ) (ip : Dinode) (d : Blocks) → Keeps ip.size (read_from k left off ip d)
unfolding read_from
read_from-Keeps zero left off ip d = refl
read_from-Keeps (suc k) left off ip d =
    let m = min left (bsize - off % bsize) in
    elim (Bool-cases (left == 0)) [
      | inl e ↦ rw e refl
      | inr e ↦ elim (Outcome-cases (bmap (off / bsize) ip d)) [
        | inl r ↦ rw (e, r) tt
        | inr ((a, ip', d'), r) ↦
            let q : ip'.size ≡ ip.size = subst (Keeps ip.size) r (bmap-Keeps (off / bsize) ip d) in
            let ih = read_from-Keeps k (left - m) (off + m) ip' d' in
            elim (Outcome-cases (read_from k (left - m) (off + m) ip' d')) [
              | inl s ↦ rw (e, r, s) tt
              | inr ((bytes, ip'', d''), s) ↦ rw (e, r, s) (subst (Keeps ip'.size) s ih ∙ q)
            ]
      ]
    ]

-- Bytes that `readi` returns end before the offset wraps around, and the size stays.
abbrev pub IsRead : (n off : ℕ) → Dinode → Readi → Type 0
IsRead n off ip (by_device _ _) = Unit
IsRead n off ip failed = Unit
IsRead n off ip crashed = Unit
IsRead n off ip (done _ ip' _) = (ip'.size ≡ ip.size) × (off ≤ add_word off n)

pub readi-IsRead :
    (has_read : ℕ → Bool) (ip : Dinode) (off n : ℕ) (d : Blocks)
    → IsRead n off ip (readi has_read ip off n d)
unfolding readi
readi-IsRead has_read ip off n d = elim (Bool-cases (ip.kind == t_dev)) [
  | inl e ↦ elim (Bool-cases (leb ndev ip.major || not (has_read ip.major))) [
    | inl f ↦ rw (e, f) tt
    | inr f ↦ rw (e, f) tt
  ]
  | inr e ↦ elim (Bool-cases (ltb ip.size off || ltb (add_word off n) off)) [
    | inl f ↦ rw (e, f) tt
    | inr f ↦
        let n' = if ltb ip.size (add_word off n) then ip.size - off else n in
        elim (Outcome-cases (read_from n' n' off ip d)) [
          | inl r ↦ rw (e, f, r) tt
          | inr ((bytes, ip', d'), r) ↦
              rw (e, f, r)
                (subst (Keeps ip.size) r (read_from-Keeps n' n' off ip d), ground (arith, f))
        ]
  ]
]
