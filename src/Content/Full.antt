-- ===== src/Content/Full.antt =====
-- Where `bmap` panics: there is no block left on the disk, or there is one, which has become the
-- file's indirect block.
use rain_os.Common.{
  ℕ, ◌-◌, ◌<◌, ◌≡◌, ◌≢◌, inl, inr, sym, ◌∙◌, ap, true, arith, ◌==◌, ltb, int_at, ◌*◌, update,
  Outcome, ok, panic, Bool-cases,
}
use rain_os.Bitmap.{Blocks, readsb}
use rain_os.Bitmap.Bits.{usage}
use rain_os.Bitmap.Alloc.{IsLaidOut, balloc_lem}
use rain_os.Icache.{Dinode}
use rain_os.Content.{ndirect, nindirect, own_addr, own_entry, bmap}
use rain_os.Content.Map.{slot, IsOwned, size-same}
use rain_os.Content.Slots.{own_addr-Got}

-- Every block but `a` is in use.
abbrev pub IsFullBut : ℕ → Blocks → Type 0
IsFullBut a d = (c : ℕ) → c < (readsb d).size → c ≢ a → usage d c ≡ 1

own_addr-full :
    (k : ℕ) (ip : Dinode) (d : Blocks)
    → IsLaidOut d
    → own_addr k ip d ≡ panic
    → (c : ℕ) → c < (readsb d).size
    → usage d c ≡ 1
unfolding own_addr
own_addr-full k ip d v h c lt = elim (Bool-cases (ip.addrs k == 0)) [
  | inr e ↦ absurd (let q = rw (own_addr, e) at h in cc)
  | inl e ↦ elim (balloc_lem d v) [
    | inr (b, all) ↦ all c lt
    | inl (a, d', b, lo, hi, free, first, g, laid, zeros) ↦
        absurd (let q = rw (own_addr, e, b) at h in cc)
  ]
]

own_entry-full :
    (addr bn : ℕ) (ip : Dinode) (d : Blocks)
    → IsLaidOut d
    → own_entry addr bn ip d ≡ panic
    → (c : ℕ) → c < (readsb d).size
    → usage d c ≡ 1
unfolding own_entry
own_entry-full addr bn ip d v h c lt = elim (Bool-cases (int_at (d addr) (4 * bn) == 0)) [
  | inr e ↦ absurd (let q = rw (own_entry, e) at h in cc)
  | inl e ↦ elim (balloc_lem d v) [
    | inr (b, all) ↦ all c lt
    | inl (a, d', b, lo, hi, free, first, g, laid, zeros) ↦
        absurd (let q = rw (own_entry, e, b) at h in cc)
  ]
]

-- The disk in a result of `bmap`, and the block.
abbrev disk_of : Blocks → Outcome (ℕ × Dinode × Blocks) → Blocks
disk_of d panic = d
disk_of d (ok (a, ip, d')) = d'

abbrev block_of : Outcome (ℕ × Dinode × Blocks) → ℕ
block_of panic = 0
block_of (ok (a, ip, d')) = a

own_addr-usage :
    (k : ℕ) (ip ip1 : Dinode) (d d1 : Blocks) (a : ℕ)
    → IsLaidOut d
    → own_addr k ip d ≡ ok (a, ip1, d1)
    → (c : ℕ) → c < (readsb d).size
    → c ≢ a
    → usage d1 c ≡ usage d c
unfolding own_addr
own_addr-usage k ip ip1 d d1 a v h c lt ne = elim (Bool-cases (ip.addrs k == 0)) [
  | inr e ↦
      let run : own_addr k ip d ≡ ok (ip.addrs k, ip, d) = rw (own_addr, e) in
      ap (λ (x : Blocks). usage x c) (ap (disk_of d) (sym h ∙ run))
  | inl e ↦ elim (balloc_lem d v) [
    | inr (b, all) ↦ absurd (let q = rw (own_addr, e, b) at h in cc)
    | inl (a', d', b, lo, hi, free, first, g, laid, zeros) ↦
        let run : own_addr k ip d ≡ ok (a', record ip { addrs = update ip.addrs k a' }, d') =
          rw (own_addr, e, b) in
        let q = ap (disk_of d) (sym h ∙ run) in
        let r = ap block_of (sym h ∙ run) in
        ap (λ (x : Blocks). usage x c) q ∙ g.others c lt (λ w. ne (w ∙ sym r))
  ]
]

pub bmap-full :
    (n : ℕ) (ip : Dinode) (d : Blocks)
    → n < 140
    → IsOwned (slot ip d) d
    → IsLaidOut d
    → bmap n ip d ≡ panic
    → (a : ℕ) × IsFullBut a d
unfolding bmap
bmap-full n ip d lt o v h = elim (Bool-cases (ltb n ndirect)) [
  | inl e ↦ (0, λ c hc ne. own_addr-full n ip d v (rw (bmap, e) at h) c hc)
  | inr e ↦
      let f : ltb (n - ndirect) nindirect ≡ true = ground arith in
      elim (own_addr-Got ndirect ip d (omega arith) o v) [
        | inr (p, z) ↦ (0, λ c hc ne. own_addr-full ndirect ip d v p c hc)
        | inl (a, ip1, d1, p, at, nz, g, fresh) ↦
            let full = own_entry-full a (n - ndirect) ip1 d1 g.laid (rw (bmap, e, f, p) at h) in
            let s = size-same d d1 g.super in
            (
              a,
              λ c hc ne.
                  sym (own_addr-usage ndirect ip ip1 d d1 a v p c hc ne) ∙ full c (omega arith),
            )
      ]
]
