-- ===== src/Content/Grow.antt =====
-- `bmap` returns the block of a file, and makes it where there is none.
use rain_os.Common.{
  ℕ, ◌+◌, ◌-◌, ◌<◌, ◌≡◌, ◌≢◌, ◌⊎◌, inl, inr, sym, ◌∙◌, ap, subst, true, false, arith, ◌==◌, ltb,
  Outcome, ok, panic, Bool-cases,
}
use native.Mathlib.Decide.{ℕ_discrete}
use rain_os.Bitmap.{Blocks, readsb}
use rain_os.Bitmap.Bits.{usage}
use rain_os.Bitmap.Alloc.{last_meta, IsLaidOut}
use rain_os.Icache.{Dinode}
use rain_os.Content.{ndirect, nindirect, own_addr, own_entry, bmap}
use rain_os.Content.Map.{slots, slot, slot_of, IsOwned, meta-same, size-same}
use rain_os.Content.Slots.{IsGrown, Got, used_ne, own_addr-Got}
use rain_os.Content.Entry.{own_entry-Got}

-- A block that is free after the growth was free before.
was_free :
    (ip ip1 : Dinode) (d d1 : Blocks) (b : ℕ)
    → IsGrown ndirect ip d ip1 d1
    → (last_meta d1 < b) × (b < (readsb d1).size)
    → usage d1 b ≡ 0
    → usage d b ≡ 0
was_free ip ip1 d d1 b g h f =
    let two : (usage d b ≡ 0) ⊎ (usage d b ≡ 1) = omega arith in
    let m = meta-same d d1 g.super in
    let s = size-same d d1 g.super in
    elim two [
      | inl z ↦ z
      | inr u ↦ absurd (omega (arith, (g.frame b (omega arith) (omega arith) u).0, f))
    ]

-- Two operations, the first on the indirect block's own slot.
IsGrown-trans :
    (k0 : ℕ) (ip ip1 ip2 : Dinode) (d d1 d2 : Blocks)
    → IsGrown ndirect ip d ip1 d1
    → IsGrown k0 ip1 d1 ip2 d2
    → ((x : ℕ) → usage d x ≡ 1 → x ≢ ip.addrs ndirect → x ≢ ip1.addrs ndirect)
    → IsGrown k0 ip d ip2 d2
IsGrown-trans k0 ip ip1 ip2 d d1 d2 g h ne =
    let m = meta-same d d1 g.super in
    let s = size-same d d1 g.super in
    record {
      owned = h.owned;
      laid = h.laid;
      super = h.super ∙ g.super;
      fields = h.fields ∙ ap (λ (j : Dinode). record j { addrs = ip2.addrs }) g.fields;
      old = λ k hk nz. h.old k hk (λ q. nz (sym (g.old k hk nz) ∙ q)) ∙ g.old k hk nz;
      others = λ k hk a b. h.others k hk a b ∙ g.others k hk b b;
      fresh = λ k hk z nz. elim (ℕ_discrete (slot ip1 d1 k) 0) [
        | yes q ↦ was_free ip ip1 d d1 (slot ip2 d2 k) g (bounds k hk nz) (h.fresh k hk q nz)
        | no q ↦ ap (usage d) (h.old k hk q) ∙ g.fresh k hk z q
      ];
      frame = λ x l u w.
          let (a, b) = g.frame x l u w in
          let (a', b') = h.frame x (omega arith) (omega arith) a in (a', λ q. b' (ne x w q) ∙ b q);
    }
  where
    bounds :
        (k : ℕ)
        → k < slots
        → slot ip2 d2 k ≢ 0
        → (last_meta d1 < slot ip2 d2 k) × (slot ip2 d2 k < (readsb d1).size)
    bounds k hk nz =
        let m' = meta-same d1 d2 h.super in
        let s' = size-same d1 d2 h.super in
        (omega (arith, h.owned.lower k hk nz), omega (arith, h.owned.upper k hk nz))

-- A slot of the indirect block is empty where the block is missing.
entry_missing : (ip : Dinode) (d : Blocks) (bn : ℕ) → ip.addrs ndirect ≡ 0 → slot ip d (13 + bn) ≡ 0
entry_missing ip d bn z =
    let e : ltb (13 + bn) 13 ≡ false = ground arith in
    let f : (ip.addrs ndirect == 0) ≡ true = ground arith in rw (e, f)

indirect-Got :
    (bn : ℕ) (ip : Dinode) (d : Blocks)
    → bn < nindirect
    → Got ndirect ip d (own_addr ndirect ip d)
    → IsOwned (slot ip d) d
    → Got (13 + bn) ip d (elim (own_addr ndirect ip d) as (λ r. Outcome (ℕ × Dinode × Blocks)) [
      | panic ↦ panic
      | ok (addr, ip', d') ↦ own_entry addr bn ip' d'
    ])
indirect-Got bn ip d lt (inr (e, z)) o = inr (rw e, entry_missing ip d bn z)
indirect-Got bn ip d lt (inl (a, ip1, d1, e, at, nz, g, fresh)) o =
    rw e
      (elim (subst (λ (x : ℕ). Got (13 + bn) ip1 d1 (own_entry x bn ip1 d1)) at
        (own_entry-Got bn ip1 d1 lt (λ q. nz (sym at ∙ q)) g.owned g.laid)) [
          | inr (p, z) ↦ inr (
            p,
            sym (
                  g.others (13 + bn) (omega arith) (λ q. absurd (omega arith))
                    (λ q. absurd (omega arith)))
                ∙ z,
          )
          | inl (b, ip2, d2, p, at2, nz2, h, fresh2) ↦ inl (
            b,
            ip2,
            d2,
            p,
            at2,
            nz2,
            IsGrown-trans (13 + bn) ip ip1 ip2 d d1 d2 g h (not_indirect a ip1 d1 at g fresh),
            λ w.
                let (f, z) = fresh2 (
                  g.others (13 + bn) (omega arith) (λ q. absurd (omega arith))
                    (λ q. absurd (omega arith))
                  ∙ w) in
                (was_free ip ip1 d d1 b g (inside b ip2 d1 d2 h.super h.owned at2 nz2) f, z),
          )
        ])
  where
    inside :
        (b : ℕ) (ip2 : Dinode) (d1 d2 : Blocks)
        → readsb d2 ≡ readsb d1
        → IsOwned (slot ip2 d2) d2
        → slot ip2 d2 (13 + bn) ≡ b
        → b ≢ 0
        → (last_meta d1 < b) × (b < (readsb d1).size)
    inside b ip2 d1 d2 super o2 at nz =
        let m' = meta-same d1 d2 super in
        let s' = size-same d1 d2 super in
        let live : slot ip2 d2 (13 + bn) ≢ 0 = λ q. nz (sym at ∙ q) in
        (
          omega (arith, o2.lower (13 + bn) (omega arith) live),
          omega (arith, o2.upper (13 + bn) (omega arith) live),
        )

    not_indirect :
        (a : ℕ) (ip1 : Dinode) (d1 : Blocks)
        → slot ip1 d1 ndirect ≡ a
        → IsGrown ndirect ip d ip1 d1
        → (slot ip d ndirect ≡ 0 → (usage d a ≡ 0) × ((i : ℕ) → d1 a i ≡ 0))
        → (x : ℕ) → usage d x ≡ 1
        → x ≢ ip.addrs ndirect
        → x ≢ ip1.addrs ndirect
    not_indirect a ip1 d1 at g fresh x u ne q = elim (ℕ_discrete (ip.addrs ndirect) 0) [
      | yes z ↦ absurd (used_ne d x a u (fresh z).0 (q ∙ at))
      | no nz ↦ absurd (ne (q ∙ g.old ndirect (omega arith) nz))
    ]

pub bmap-Got :
    (n : ℕ) (ip : Dinode) (d : Blocks)
    → n < 140
    → IsOwned (slot ip d) d
    → IsLaidOut d
    → Got (slot_of n) ip d (bmap n ip d)
unfolding bmap
bmap-Got n ip d lt o v = elim (Bool-cases (ltb n ndirect)) [
  | inl e ↦ rw e (own_addr-Got n ip d (ground arith) o v)
  | inr e ↦
      let f : ltb (n - ndirect) nindirect ≡ true = ground arith in
      let q : 13 + (n - ndirect) ≡ n + 1 = ground arith in
      rw (e, f)
        (subst
          (λ (k : ℕ).
            Got k ip d (elim (own_addr ndirect ip d) as (λ r. Outcome (ℕ × Dinode × Blocks)) [
              | panic ↦ panic
              | ok (addr, ip', d') ↦ own_entry addr (n - ndirect) ip' d'
            ]))
          q
          (indirect-Got (n - ndirect) ip d (ground arith)
            (own_addr-Got ndirect ip d (omega arith) o v) o))
]
