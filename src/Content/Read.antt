-- ===== src/Content/Read.antt =====
-- `readi` returns the bytes of the file.
use rain_os.Common.{
  ℕ, zero, suc, ◌+◌, ◌-◌, ◌*◌, ◌/◌, ◌%◌, ◌≤◌, ◌<◌, ◌≡◌, ◌≢◌, ◌⊎◌, inl, inr, refl, sym, ◌∙◌, ap, ap₂,
  Bool, true, false, ◌||◌, arith, ◌==◌, ltb, ==_false, if◌then◌else◌, int_at, ok, Bool-cases, word,
  add_word, List, ◌∷◌, ◌++◌, min,
}
use native.Mathlib.Decide.{ℕ_discrete}
use rain_os.Bitmap.{Blocks}
use rain_os.Bitmap.Alloc.{IsLaidOut}
use rain_os.Icache.{Dinode}
use rain_os.Content.{
  bsize, ndirect, nindirect, own_addr, own_entry, bmap, slice, read_from, failed, done, t_dev,
  readi, max_size,
}
use rain_os.Content.Map.{slot, slot_of, IsOwned}

-- Byte `o` of the file.
abbrev pub byte_at : Dinode → Blocks → ℕ → ℕ
byte_at ip d o = d (slot ip d (slot_of (o / bsize))) (o % bsize)

-- A regular file or a directory: its blocks are its own, and it has them up to its size.
pub record IsFile (ip : Dinode) (d : Blocks) : Type 0 where
  pub regular : ip.kind ≢ t_dev
  pub owned : IsOwned (slot ip d) d
  pub laid : IsLaidOut d
  pub bounded : ip.size ≤ max_size
  pub whole : (n : ℕ) → n * bsize < ip.size → slot ip d (slot_of n) ≢ 0

own_addr-mapped :
    (k : ℕ) (ip : Dinode) (d : Blocks) → ip.addrs k ≢ 0 → own_addr k ip d ≡ ok (ip.addrs k, ip, d)
unfolding own_addr
own_addr-mapped k ip d ne = let e : (ip.addrs k == 0) ≡ false = ground arith in rw e

own_entry-mapped :
    (addr bn : ℕ) (ip : Dinode) (d : Blocks)
    → int_at (d addr) (4 * bn) ≢ 0
    → own_entry addr bn ip d ≡ ok (int_at (d addr) (4 * bn), ip, d)
unfolding own_entry
own_entry-mapped addr bn ip d ne =
    let e : (int_at (d addr) (4 * bn) == 0) ≡ false = ground arith in rw e

-- `bmap` of a block that is there changes nothing.
pub bmap-mapped :
    (n : ℕ) (ip : Dinode) (d : Blocks)
    → n < 140
    → slot ip d (slot_of n) ≢ 0
    → bmap n ip d ≡ ok (slot ip d (slot_of n), ip, d)
unfolding bmap
bmap-mapped n ip d lt ne = elim (Bool-cases (ltb n ndirect)) [
  | inl e ↦
      let f : ltb n 13 ≡ true = ground arith in
      let nz : ip.addrs n ≢ 0 = λ q. ne (rw (e, f) q) in rw (e, f) (own_addr-mapped n ip d nz)
  | inr e ↦
      let f : ltb (n - ndirect) nindirect ≡ true = ground arith in
      let g : ltb (n + 1) 13 ≡ false = ground arith in
      elim (ℕ_discrete (ip.addrs ndirect) 0) [
        | yes z ↦
            let t : (ip.addrs ndirect == 0) ≡ true = ground arith in absurd (ne (rw (e, g, t)))
        | no z ↦
            let t : (ip.addrs ndirect == 0) ≡ false = ground arith in
            let j : n + 1 - 13 ≡ n - ndirect = omega arith in
            let nz : int_at (d (ip.addrs ndirect)) (4 * (n - ndirect)) ≢ 0 =
              λ q. ne (rw (e, g, t, j) q) in
            rw (e, f, g, t, j, own_addr-mapped ndirect ip d z)
              (own_entry-mapped (ip.addrs ndirect) (n - ndirect) ip d nz)
      ]
]

slice-ext :
    (m i o : ℕ) (b f : ℕ → ℕ)
    → ((j : ℕ) → j < m → b (i + j) ≡ f (o + j))
    → slice m i b ≡ slice m o f
unfolding slice
slice-ext zero i o b f h = refl
slice-ext (suc m) i o b f h =
    ap₂ (λ (x : ℕ) (xs : List ℕ). x ∷ xs)
      (ap b (omega arith) ∙ h 0 (omega arith) ∙ ap f (omega arith))
      (slice-ext m (i + 1) (o + 1) b f
        (λ j lt. ap b (omega arith) ∙ h (j + 1) (omega arith) ∙ ap f (omega arith)))

slice-append : (m l o : ℕ) (f : ℕ → ℕ) → slice m o f ++ slice l (o + m) f ≡ slice (m + l) o f
unfolding slice
slice-append zero l o f =
    let a : l ≡ 0 + l = omega arith in
    let b : o + 0 ≡ o = omega arith in ap₂ (λ (x y : ℕ). slice x y f) a b
slice-append (suc m) l o f =
    let a : o + suc m ≡ o + 1 + m = omega arith in
    let b : suc (m + l) ≡ suc m + l = omega arith in
    ap (λ (xs : List ℕ). f o ∷ xs)
      (ap (λ (x : ℕ). slice m (o + 1) f ++ slice l x f) a ∙ slice-append m l (o + 1) f)
    ∙ ap (λ (x : ℕ). slice x o f) b

-- The bytes of one block of the file.
block_slice :
    (ip : Dinode) (d : Blocks) (off m : ℕ)
    → m ≤ bsize - off % bsize
    → slice m (off % bsize) (d (slot ip d (slot_of (off / bsize)))) ≡ slice m off (byte_at ip d)
block_slice ip d off m le =
    slice-ext m (off % bsize) off (d (slot ip d (slot_of (off / bsize)))) (byte_at ip d) (λ j lt.
      let q : (off + j) / bsize ≡ off / bsize = omega arith in
      let r : (off + j) % bsize ≡ off % bsize + j = omega arith in
      sym (ap₂ (λ (x y : ℕ). d (slot ip d (slot_of x)) y) q r))

read_from-slice :
    (k left off : ℕ) (ip : Dinode) (d : Blocks)
    → left ≤ k
    → IsFile ip d
    → off + left ≤ ip.size
    → read_from k left off ip d ≡ ok (slice left off (byte_at ip d), ip, d)
unfolding read_from slice
read_from-slice zero left off ip d le v fits =
    let z : 0 ≡ left = omega arith in ap (λ (x : ℕ). ok (slice x off (byte_at ip d), ip, d)) z
read_from-slice (suc k) left off ip d le v fits = elim (Bool-cases (left == 0)) [
  | inl e ↦
      let z : 0 ≡ left = ground arith in
      rw e (ap (λ (x : ℕ). ok (slice x off (byte_at ip d), ip, d)) z)
  | inr e ↦
      let pos : 0 < left = ground arith in
      let m = min left (bsize - off % bsize) in
      let ne = v.whole (off / bsize) (omega arith) in
      let b = bmap-mapped (off / bsize) ip d (omega (arith, v.bounded)) ne in
      let ih = read_from-slice k (left - m) (off + m) ip d (omega arith) v (omega arith) in
      let all : m + (left - m) ≡ left = omega arith in
      rw (e, b, ih)
        (ap (λ (xs : List ℕ). ok (xs, ip, d))
          (ap (λ (xs : List ℕ). xs ++ slice (left - m) (off + m) (byte_at ip d))
              (block_slice ip d off m (omega arith))
            ∙ slice-append m (left - m) off (byte_at ip d)
            ∙ ap (λ (x : ℕ). slice x off (byte_at ip d)) all))
]

-- `readi` of a file returns its bytes from `off`, as many as were asked for and as there are, and
-- changes neither the inode nor the disk; from an offset behind the end, or where `off + n` wraps
-- around, it returns -1.
pub readi_lem :
    (has_read : ℕ → Bool) (ip : Dinode) (off n : ℕ) (d : Blocks)
    → IsFile ip d
    → off < word
    → n < word
    → (off ≤ ip.size
        → off + n < word
        → readi has_read ip off n d ≡ done (slice (min n (ip.size - off)) off (byte_at ip d)) ip d)
      × ((ip.size < off) ⊎ (word ≤ off + n) → readi has_read ip off n d ≡ failed)
unfolding readi
readi_lem has_read ip off n d v ho hn =
    let file : (ip.kind == t_dev) ≡ false = ==_false ip.kind t_dev v.regular in
    (
      λ le nowrap.
          let e : (ltb ip.size off || ltb (add_word off n) off) ≡ false = ground arith in
          let n' = if ltb ip.size (add_word off n) then ip.size - off else n in
          let same : n' ≡ min n (ip.size - off) = ground arith in
          rw (file, e, read_from-slice n' n' off ip d (omega arith) v (ground arith))
            (ap (λ (x : ℕ). done (slice x off (byte_at ip d)) ip d) same),
      λ bad.
          let e : (ltb ip.size off || ltb (add_word off n) off) ≡ true = ground arith in
          rw (file, e),
    )
