-- ===== src/Content/Entry.antt =====
-- An entry of the indirect block, as `bmap` finds it or makes it.
use rain_os.Common.{
  ℕ, ◌+◌, ◌-◌, ◌*◌, ◌≤◌, ◌<◌, ◌≡◌, ◌≢◌, ◌⊎◌, inl, inr, refl, sym, ◌∙◌, ap, false, arith, ◌==◌, ltb,
  update, update_self, update_ne, int_at, put_int, int_at-put_int, put_int-outside, int_at-same,
  Bool-cases, word,
}
use rain_os.Bitmap.{Blocks}
use rain_os.Bitmap.Alloc.{IsLaidOut, balloc_lem}
use rain_os.Icache.{Dinode}
use rain_os.Content.{ndirect, nindirect, own_entry}
use rain_os.Content.Map.{slot, IsOwned, SameUsage, meta-same, SameUsage-update}
use rain_os.Content.Slots.{IsGrown-take, IsGrown-refl, Got, used_ne, frame_changed}

-- An entry of the indirect block, where there is one.
entry_lem :
    (ip : Dinode) (d : Blocks) (bn : ℕ)
    → ip.addrs ndirect ≢ 0
    → slot ip d (13 + bn) ≡ int_at (d (ip.addrs ndirect)) (4 * bn)
entry_lem ip d bn ne =
    let e : ltb (13 + bn) 13 ≡ false = ground arith in
    let z : (ip.addrs ndirect == 0) ≡ false = ground arith in
    rw (e, z) (ap (int_at (d (ip.addrs ndirect))) (omega arith))

-- The disk after an entry has been written into the indirect block.
module _ (ip : Dinode) (d d1 : Blocks) (bn a : ℕ) where
  abbrev ind : ℕ
  ind = ip.addrs ndirect

  abbrev written : Blocks
  written = update d1 ind (put_int (d1 ind) (4 * bn) a)

  entry_written :
      ind ≢ 0
      → d1 ind ≡ d ind
      → a < word
      → (slot ip written (13 + bn) ≡ a) × ((k : ℕ) → k ≢ 13 + bn → slot ip written k ≡ slot ip d k)
  entry_written nz same small =
      let z : (ind == 0) ≡ false = ground arith in
      let block = update_self d1 ind (put_int (d1 ind) (4 * bn) a) in
      (
        entry_lem ip written bn nz
            ∙ ap (λ (b : ℕ → ℕ). int_at b (4 * bn)) block
            ∙ int_at-put_int (d1 ind) (4 * bn) a small,
        λ k ne. elim (Bool-cases (ltb k 13)) [
          | inl e ↦ rw e
          | inr e ↦
              rw (e, z)
                (ap (λ (b : ℕ → ℕ). int_at b (4 * (k - 13))) block
                  ∙ int_at-same (d1 ind) (put_int (d1 ind) (4 * bn) a) (4 * (k - 13))
                      (λ b lo hi. put_int-outside (d1 ind) (4 * bn) a b (apart k b e ne lo hi))
                  ∙ ap (λ (b : ℕ → ℕ). int_at b (4 * (k - 13))) same)
        ],
      )
    where
      apart :
          (k b : ℕ)
          → ltb k 13 ≡ false
          → k ≢ 13 + bn
          → 4 * (k - 13) ≤ b
          → b < 4 * (k - 13) + 4
          → (b < 4 * bn) ⊎ (4 * bn + 4 ≤ b)
      apart k b e ne lo hi = ground arith

pub own_entry-Got :
    (bn : ℕ) (ip : Dinode) (d : Blocks)
    → bn < nindirect
    → ip.addrs ndirect ≢ 0
    → IsOwned (slot ip d) d
    → IsLaidOut d
    → Got (13 + bn) ip d (own_entry (ip.addrs ndirect) bn ip d)
unfolding own_entry
own_entry-Got bn ip d lt nz o v =
    let addr = ip.addrs ndirect in
    let entry = entry_lem ip d bn nz in
    let alow = o.lower ndirect (omega arith) nz in
    let ahigh = o.upper ndirect (omega arith) nz in
    let aused = o.used ndirect (omega arith) nz in
    elim (Bool-cases (int_at (d addr) (4 * bn) == 0)) [
      | inr e ↦ inl (
        int_at (d addr) (4 * bn),
        ip,
        d,
        rw e,
        entry,
        ground arith,
        IsGrown-refl (13 + bn) ip d o v,
        λ z. absurd (let w = sym entry ∙ z in ground arith),
      )
      | inl e ↦
          let z : slot ip d (13 + bn) ≡ 0 = entry ∙ ground arith in
          elim (balloc_lem d v) [
            | inr (b, all) ↦ inr (rw (e, b), z)
            | inl (a, d1, b, lo, hi, free, first, c, laid, zeros) ↦
                let fr = frame_changed d d1 a c free in
                let kept : d1 addr ≡ d addr = (fr addr alow ahigh aused).1 in
                let d2 = written ip d d1 bn a in
                let (here, rest) = entry_written ip d d1 bn a nz kept (omega (arith, v.small)) in
                let m = meta-same d d1 c.super in
                let u : SameUsage d1 d2 =
                  SameUsage-update d1 addr (put_int (d1 addr) (4 * bn) a) (omega arith) in
                let other : (x : ℕ) → x ≢ addr → d2 x ≡ d1 x =
                  λ x. update_ne d1 addr x (put_int (d1 addr) (4 * bn) a) in
                inl (
                  a,
                  ip,
                  d2,
                  rw (e, b),
                  here,
                  λ q. absurd (omega arith),
                  IsGrown-take (13 + bn) a ip ip d d1 d2 o laid c (lo, hi, free) u other refl z here
                      rest,
                  λ w. (
                    free,
                    λ i.
                        ap (λ (y : ℕ → ℕ). y i) (other a (λ q. used_ne d addr a aused free (sym q)))
                        ∙ zeros i,
                  ),
                )
          ]
    ]
