-- ===== src/Bitmap/Alloc.antt =====
-- `balloc` and `bfree` on the set of blocks in use.
use rain_os.Common.{
  ℕ, ◌+◌, ◌/◌, ◌%◌, ◌^◌, ◌≤◌, ◌<◌, ◌≡◌, ◌≢◌, ◌⊎◌, inl, inr, ◌∙◌, ap, true, false, arith, ok, panic,
  ◌==◌, update_self, update_ne,
}
use native.Mathlib.Decide.{dec_lt}
use rain_os.Bitmap.{
  Blocks, bpb, Superblock, readsb, bblock, bzero, test_bit, set_bit, clear_bit, mark, balloc, bfree,
}
use rain_os.Bitmap.Bits.{
  usage, test-set_self, test-set_ne, test-clear_self, test-clear_ne, readsb-mark, readsb-bzero,
  usage-mark_self, usage-mark_ne, usage-bzero,
}
use rain_os.Bitmap.Search.{find_block_lem}

-- The last block of the bitmap.
abbrev pub last_meta : Blocks → ℕ
last_meta d = bblock (readsb d).size (readsb d).ninodes

-- The blocks up to the bitmap's last lie on the disk and are in use.
pub record IsLaidOut (d : Blocks) : Type 0 where
  pub small : (readsb d).size < 2 ^ 31
  pub fits : last_meta d < (readsb d).size
  pub reserved : (c : ℕ) → c ≤ last_meta d → usage d c ≡ 1

-- `d'` is `d` with the usage of the block `a` changed to `u`, and with other blocks' contents kept
-- behind the bitmap.
pub record IsChanged (d : Blocks) (a u : ℕ) (d' : Blocks) : Type 0 where
  pub super : readsb d' ≡ readsb d
  pub changed : usage d' a ≡ u
  pub others : (c : ℕ) → c < (readsb d).size → c ≢ a → usage d' c ≡ usage d c
  pub contents : (x : ℕ) → last_meta d < x → x ≢ a → d' x ≡ d x

IsLaidOut-changed :
    (d d' : Blocks) (a u : ℕ) → IsLaidOut d → last_meta d < a → IsChanged d a u d' → IsLaidOut d'
IsLaidOut-changed d d' a u v lt k =
    let e : last_meta d' ≡ last_meta d = ap (λ (s : Superblock). bblock s.size s.ninodes) k.super in
    let f : (readsb d').size ≡ (readsb d).size = ap (λ (s : Superblock). s.size) k.super in
    record {
      small = omega (arith, v.small);
      fits = omega (arith, v.fits);
      reserved = λ c le.
          k.others c (omega (arith, v.fits)) (λ q. absurd (omega arith))
          ∙ v.reserved c (omega arith);
    }

usage-two : (d : Blocks) (c : ℕ) → (usage d c ≡ 0) ⊎ (usage d c ≡ 1)
usage-two d c = omega arith

behind : (d : Blocks) (a : ℕ) → IsLaidOut d → usage d a ≡ 0 → last_meta d < a
behind d a v h = elim (dec_lt (last_meta d) a) [
  | yes p ↦ p
  | no p ↦ absurd (omega (arith, v.reserved a (omega arith), h))
]

-- Setting a free block's bit and clearing its contents.
allocated :
    (d : Blocks) (a : ℕ)
    → IsLaidOut d
    → a < (readsb d).size
    → usage d a ≡ 0
    → let bno = bblock a (readsb d).ninodes in
      IsChanged d a 1 (bzero a (mark (set_bit (d bno) (a % bpb)) bno d))
unfolding bzero
allocated d a v inside free =
    let n = (readsb d).ninodes in
    let bno = bblock a n in
    let bytes = set_bit (d bno) (a % bpb) in
    let d1 = mark bytes bno d in
    let lt : last_meta d < a = behind d a v free in
    let super1 : readsb d1 ≡ readsb d = readsb-mark bytes a n d in
    let low : (c : ℕ) → c ≤ (readsb d).size → bblock c (readsb d1).ninodes < a =
      λ c le. let e = ap (λ (s : Superblock). s.ninodes) super1 in omega arith in
    let free' : test_bit (d bno) (a % bpb) ≡ 0 = free in
    record {
      super = readsb-bzero a d1 (omega arith) ∙ super1;
      changed =
          usage-bzero a a d1 (low a (omega arith))
          ∙ usage-mark_self bytes a d
          ∙ test-set_self (d bno) (a % bpb) free';
      others = λ c hc ne.
          usage-bzero a c d1 (low c (omega arith))
          ∙ usage-mark_ne bytes a d (λ j q. test-set_ne (d bno) (a % bpb) j free' q) c ne;
      contents = λ x hx ne.
          update_ne d1 a x (λ i. 0) ne ∙ update_ne d bno x bytes (λ q. absurd (omega arith));
    }

freed :
    (d : Blocks) (a : ℕ)
    → IsLaidOut d
    → a < (readsb d).size
    → usage d a ≡ 1
    → let bno = bblock a (readsb d).ninodes in
      IsChanged d a 0 (mark (clear_bit (d bno) (a % bpb)) bno d)
freed d a v inside used =
    let n = (readsb d).ninodes in
    let bno = bblock a n in
    let bytes = clear_bit (d bno) (a % bpb) in
    let used' : test_bit (d bno) (a % bpb) ≡ 1 = used in
    record {
      super = readsb-mark bytes a n d;
      changed = usage-mark_self bytes a d ∙ test-clear_self (d bno) (a % bpb) used';
      others = λ c hc ne.
          usage-mark_ne bytes a d (λ j q. test-clear_ne (d bno) (a % bpb) j used' q) c ne;
      contents = λ x hx ne. update_ne d bno x bytes (λ q. absurd (omega arith));
    }

bzero_self : (a : ℕ) (b : Blocks) (i : ℕ) → bzero a b a i ≡ 0
unfolding bzero
bzero_self a b i = ap (λ (x : ℕ → ℕ). x i) (update_self b a (λ j. 0))

-- `balloc` returns the first free block, zeroed: it is now in use, the usage of the other blocks and
-- their contents behind the bitmap are as before, and the layout stays. It panics exactly if every
-- block is in use.
pub balloc_lem :
    (d : Blocks)
    → IsLaidOut d
    → ((a : ℕ) × (d' : Blocks) × (balloc d ≡ ok (a, d'))
        × (last_meta d < a)
        × (a < (readsb d).size)
        × (usage d a ≡ 0)
        × ((c : ℕ) → c < a → usage d c ≡ 1)
        × IsChanged d a 1 d'
        × IsLaidOut d'
        × ((i : ℕ) → d' a i ≡ 0))
      ⊎ ((balloc d ≡ panic) × ((c : ℕ) → c < (readsb d).size → usage d c ≡ 1))
unfolding balloc
balloc_lem d v = elim (find_block_lem ((readsb d).size / bpb + 1) 0 d (omega arith) (omega arith)) [
  | inr (e, all) ↦ inr (rw (e, balloc), λ c lt. all c (omega arith) lt)
  | inl (a, e, lo, lt, free, before) ↦
      let bno = bblock a (readsb d).ninodes in
      let k = allocated d a v lt free in
      let late = behind d a v free in
      let d1 = mark (set_bit (d bno) (a % bpb)) bno d in
      inl (
        a,
        bzero a d1,
        rw (e, balloc),
        late,
        lt,
        free,
        λ c h. before c (omega arith) h,
        k,
        IsLaidOut-changed d (bzero a d1) a 1 v late k,
        λ i. bzero_self a d1 i,
      )
]

-- `bfree` of a block in use behind the bitmap makes it free and keeps the usage of every other block
-- of the disk and the layout; it changes the contents of no block but the one of the bitmap that holds
-- the freed block's bit. Of a free block it panics.
pub bfree_lem :
    (d : Blocks) (a : ℕ)
    → IsLaidOut d
    → last_meta d < a
    → a < (readsb d).size
    → ((usage d a ≡ 0) × (bfree a d ≡ panic))
      ⊎ ((usage d a ≡ 1)
          × ((d' : Blocks) × (bfree a d ≡ ok d')
              × IsChanged d a 0 d'
              × IsLaidOut d'
              × ((x : ℕ) → x ≢ bblock a (readsb d).ninodes → d' x ≡ d x)))
unfolding bfree
bfree_lem d a v late lt = elim (usage-two d a) [
  | inl h ↦ let e : (usage d a == 0) ≡ true = ground arith in inl (h, rw e)
  | inr h ↦
      let e : (usage d a == 0) ≡ false = ground arith in
      let bno = bblock a (readsb d).ninodes in
      let d1 = mark (clear_bit (d bno) (a % bpb)) bno d in
      let k = freed d a v lt h in
      inr (
        h,
        (
          d1,
          rw e,
          k,
          IsLaidOut-changed d d1 a 0 v late k,
          λ x ne. update_ne d bno x (clear_bit (d bno) (a % bpb)) ne,
        ),
      )
]
