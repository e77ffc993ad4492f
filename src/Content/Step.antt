-- ===== src/Content/Step.antt =====
-- One block of a write, and writes one after the other.
use rain_os.Common.{
  ℕ, zero, suc, ◌+◌, ◌-◌, ◌*◌, ◌/◌, ◌%◌, ◌≤◌, ◌<◌, ◌≡◌, ◌≢◌, ◌⊎◌, inl, inr, refl, sym, ◌∙◌, ap, ap₂,
  arith, ltb, update, update_self, update_ne, Bool-cases, List, [], ◌∷◌, length, get_or,
}
use native.Mathlib.Decide.{ℕ_discrete}
use rain_os.Bitmap.{Blocks, readsb}
use rain_os.Bitmap.Bits.{usage}
use rain_os.Bitmap.Alloc.{last_meta, IsLaidOut}
use rain_os.Icache.{Dinode}
use rain_os.Content.{bsize, ndirect, splice, max_size}
use rain_os.Content.Map.{
  slots, slot, slot_of, IsOwned, SameUsage, meta-same, size-same, IsOwned-same, IsLaidOut-same,
  SameUsage-update,
}
use rain_os.Content.Slots.{IsGrown, entry_of-same}
use rain_os.Content.Read.{byte_at}

pub splice_lem :
    (i : ℕ) (xs : List ℕ) (b : ℕ → ℕ)
    → ((j : ℕ) → j < length xs → splice i xs b (i + j) ≡ get_or xs j 0)
      × ((a : ℕ) → (a < i) ⊎ (i + length xs ≤ a) → splice i xs b a ≡ b a)
unfolding splice
splice_lem i [] b = (λ j lt. absurd (omega arith), λ a o. refl)
splice_lem i (x ∷ xs) b =
    let (ins, out) = splice_lem (i + 1) xs (update b i x) in
    (
      λ j lt. first j lt ins out,
      λ a o. out a (omega arith) ∙ update_ne b i a x (λ q. absurd (omega arith)),
    )
  where
    first :
        (j : ℕ)
        → j < suc (length xs)
        → ((j : ℕ) → j < length xs → splice (i + 1) xs (update b i x) (i + 1 + j) ≡ get_or xs j 0)
        → ((a : ℕ)
            → (a < i + 1) ⊎ (i + 1 + length xs ≤ a)
            → splice (i + 1) xs (update b i x) a ≡ update b i x a)
        → splice (i + 1) xs (update b i x) (i + j) ≡ get_or (x ∷ xs) j 0
    first zero lt ins out =
        out (i + 0) (inl (omega arith)) ∙ ap (update b i x) (omega arith) ∙ update_self b i x
    first (suc j) lt ins out =
        ap (splice (i + 1) xs (update b i x)) (omega arith) ∙ ins j (omega arith)

-- `x` is a block in use of which the file owns none.
pub record IsForeign (ip : Dinode) (d : Blocks) (x : ℕ) : Type 0 where
  pub lower : last_meta d < x
  pub upper : x < (readsb d).size
  pub used : usage d x ≡ 1
  pub other : (k : ℕ) → k < slots → slot ip d k ≢ 0 → slot ip d k ≢ x

-- The file after `bs` has been written at `off`.
pub record IsWritten (off : ℕ) (bs : List ℕ) (ip : Dinode) (d : Blocks) (ip' : Dinode) (d' : Blocks)
    : Type 0 where
  pub owned : IsOwned (slot ip' d') d'
  pub laid : IsLaidOut d'
  pub super : readsb d' ≡ readsb d
  pub fields : ip' ≡ record ip { addrs = ip'.addrs }
  pub old : (k : ℕ) → k < slots → slot ip d k ≢ 0 → slot ip' d' k ≡ slot ip d k
  pub mapped :
      (n : ℕ)
      → 0 < length bs
      → n < 140
      → off < n * bsize + bsize
      → n * bsize < off + length bs
      → slot ip' d' (slot_of n) ≢ 0
  pub bytes : (j : ℕ) → j < length bs → byte_at ip' d' (off + j) ≡ get_or bs j 0
  pub kept :
      (o : ℕ)
      → o < max_size
      → slot ip d (slot_of (o / bsize)) ≢ 0
      → (o < off) ⊎ (off + length bs ≤ o)
      → byte_at ip' d' o ≡ byte_at ip d o
  pub foreign : (x : ℕ) → IsForeign ip d x → IsForeign ip' d' x × (d' x ≡ d x)

slot_of-ne : (n : ℕ) → slot_of n ≢ ndirect
slot_of-ne n q = absurd (ground arith)

pub slot_of-lt : (n : ℕ) → n < 140 → slot_of n < slots
slot_of-lt n lt = ground arith

slot_of-injective : (n m : ℕ) → slot_of n ≡ slot_of m → n ≡ m
slot_of-injective n m q = ground arith

-- One block, which `bmap` has returned.
module _ (off : ℕ) (xs : List ℕ) (ip ip1 : Dinode) (d d1 : Blocks) (a : ℕ)
    (small : off / bsize < 140) (fits : length xs ≤ bsize - off % bsize)
    (owned : IsOwned (slot ip d) d) (at : slot ip1 d1 (slot_of (off / bsize)) ≡ a) (nz : a ≢ 0)
    (g : IsGrown (slot_of (off / bsize)) ip d ip1 d1) where
  abbrev k0 : ℕ
  k0 = slot_of (off / bsize)

  abbrev d2 : Blocks
  d2 = update d1 a (splice (off % bsize) xs (d1 a))

  k0-lt : k0 < slots
  k0-lt = slot_of-lt (off / bsize) small

  live : slot ip1 d1 k0 ≢ 0
  live q = nz (sym at ∙ q)

  not_at : (k : ℕ) → k < slots → k ≢ k0 → slot ip1 d1 k ≢ 0 → slot ip1 d1 k ≢ a
  not_at k hk ne w q = ne (g.owned.once k k0 hk k0-lt w (q ∙ sym at))

  other : (x : ℕ) → x ≢ a → d2 x ≡ d1 x
  other x ne = update_ne d1 a x (splice (off % bsize) xs (d1 a)) ne

  slot-d2 : (k : ℕ) → slot ip1 d2 k ≡ slot ip1 d1 k
  slot-d2 k = elim (Bool-cases (ltb k 13)) [
    | inl e ↦ rw e
    | inr e ↦ rw e (
        entry_of-same (ip1.addrs ndirect) (k - 13) d1 d2 (λ w.
          other (ip1.addrs ndirect)
            (not_at ndirect (omega arith) (λ q. slot_of-ne (off / bsize) (sym q)) w)))
  ]

  usage-d2 : SameUsage d1 d2
  usage-d2 =
      let m = meta-same d d1 g.super in
      SameUsage-update d1 a (splice (off % bsize) xs (d1 a))
        (omega (arith, g.owned.lower k0 k0-lt live, at))

  -- A byte of a block that was there, before the write.
  byte-grown :
      (o : ℕ)
      → o < max_size
      → slot ip d (slot_of (o / bsize)) ≢ 0
      → byte_at ip1 d1 o ≡ byte_at ip d o
  byte-grown o lt w =
      let hk = slot_of-lt (o / bsize) (omega arith) in
      ap (λ (x : ℕ). d1 x (o % bsize)) (g.old (slot_of (o / bsize)) hk w)
      ∙ ap (λ (b : ℕ → ℕ). b (o % bsize))
          ((g.frame (slot ip d (slot_of (o / bsize))) (owned.lower (slot_of (o / bsize)) hk w)
              (owned.upper (slot_of (o / bsize)) hk w) (owned.used (slot_of (o / bsize)) hk w)).1
            (λ q.
              slot_of-ne (o / bsize)
                (owned.once (slot_of (o / bsize)) ndirect hk (omega arith) w q)))

  byte-d2 : (o : ℕ) → byte_at ip1 d2 o ≡ d2 (slot ip1 d1 (slot_of (o / bsize))) (o % bsize)
  byte-d2 o = ap (λ (x : ℕ). d2 x (o % bsize)) (slot-d2 (slot_of (o / bsize)))

  block-a : (i : ℕ) → d2 a i ≡ splice (off % bsize) xs (d1 a) i
  block-a i = ap (λ (b : ℕ → ℕ). b i) (update_self d1 a (splice (off % bsize) xs (d1 a)))

  not_indirect : (x : ℕ) → IsForeign ip d x → x ≢ ip.addrs ndirect
  not_indirect x f q = f.other ndirect (omega arith) (λ z. absurd (omega (arith, f.lower))) (sym q)

  foreign-slots :
      (x : ℕ) → IsForeign ip d x → (k : ℕ) → k < slots → slot ip1 d1 k ≢ 0 → slot ip1 d1 k ≢ x
  foreign-slots x f k hk w q = elim (ℕ_discrete (slot ip d k) 0) [
    | yes z ↦ absurd (omega (arith, f.used, ap (usage d) (sym q) ∙ g.fresh k hk z w))
    | no nz' ↦ f.other k hk nz' (sym (g.old k hk nz') ∙ q)
  ]

  -- A byte outside of the write is as it was.
  block-kept :
      (o : ℕ)
      → o < max_size
      → slot ip d (slot_of (o / bsize)) ≢ 0
      → (o < off) ⊎ (off + length xs ≤ o)
      → byte_at ip1 d2 o ≡ byte_at ip d o
  block-kept o lt w far = byte-d2 o ∙ elim (ℕ_discrete (o / bsize) (off / bsize)) [
    | yes q ↦
        let here : slot ip1 d1 (slot_of (o / bsize)) ≡ a =
          ap (λ (x : ℕ). slot ip1 d1 (slot_of x)) q ∙ at in
        ap (λ (x : ℕ). d2 x (o % bsize)) here
        ∙ block-a (o % bsize)
        ∙ (splice_lem (off % bsize) xs (d1 a)).1 (o % bsize) (omega arith)
        ∙ ap (λ (x : ℕ). d1 x (o % bsize)) (sym here)
        ∙ byte-grown o lt w
    | no q ↦
        let hk = slot_of-lt (o / bsize) (omega arith) in
        let there = g.old (slot_of (o / bsize)) hk w in
        ap (λ (b : ℕ → ℕ). b (o % bsize))
          (other (slot ip1 d1 (slot_of (o / bsize))) (
            not_at (slot_of (o / bsize)) hk (λ r. q (slot_of-injective (o / bsize) (off / bsize) r))
              (λ z. w (sym there ∙ z))))
        ∙ byte-grown o lt w
  ]

  pub block-IsWritten : IsWritten off xs ip d ip1 d2
  block-IsWritten =
      let m = meta-same d d1 g.super in
      let s = size-same d d1 g.super in
      let m2 = meta-same d1 d2 usage-d2.super in
      let s2 = size-same d1 d2 usage-d2.super in
      record {
        owned = IsOwned-same (slot ip1 d1) (slot ip1 d2) d1 d2 usage-d2 (λ k hk. slot-d2 k) g.owned;
        laid = IsLaidOut-same d1 d2 usage-d2 g.laid;
        super = usage-d2.super ∙ g.super;
        fields = g.fields;
        old = λ k hk w. slot-d2 k ∙ g.old k hk w;
        mapped = λ n pos hn lo hi w.
            let q : n ≡ off / bsize = omega arith in
            live (ap (λ (x : ℕ). slot ip1 d1 (slot_of x)) (sym q) ∙ sym (slot-d2 (slot_of n)) ∙ w);
        bytes = λ j lt.
            let q : (off + j) / bsize ≡ off / bsize = omega arith in
            let r : (off + j) % bsize ≡ off % bsize + j = omega arith in
            byte-d2 (off + j)
            ∙ ap₂ (λ (x y : ℕ). d2 (slot ip1 d1 (slot_of x)) y) q r
            ∙ ap (λ (x : ℕ). d2 x (off % bsize + j)) at
            ∙ block-a (off % bsize + j)
            ∙ (splice_lem (off % bsize) xs (d1 a)).0 j lt;
        kept = block-kept;
        foreign = λ x f.
            let apart = foreign-slots x f in
            let (u, same) = g.frame x f.lower f.upper f.used in
            (
              record {
                lower = omega (arith, f.lower);
                upper = omega (arith, f.upper);
                used = usage-d2.usages x (omega (arith, f.upper)) ∙ u;
                other = λ k hk w q. apart k hk (λ z. w (slot-d2 k ∙ z)) (sym (slot-d2 k) ∙ q);
              },
              other x (λ q. apart k0 k0-lt live (at ∙ sym q)) ∙ same (not_indirect x f),
            );
      }
