-- ===== src/Content/Map.antt =====
-- The blocks that a file owns, and how its ownership survives changes of the disk.
use rain_os.Common.{
  ℕ, ◌+◌, ◌-◌, ◌*◌, ◌<◌, ◌≡◌, ◌≢◌, sym, ◌∙◌, ap, arith, ◌==◌, ltb, if◌then◌else◌, update, int_at,
}
use native.Mathlib.Decide.{ℕ_discrete}
use rain_os.Bitmap.{Blocks, Superblock, readsb, bblock}
use rain_os.Bitmap.Bits.{usage, readsb-update, usage-update}
use rain_os.Bitmap.Alloc.{last_meta, IsLaidOut, IsChanged}
use rain_os.Icache.{Dinode}
use rain_os.Content.{ndirect}

-- The block numbers that the inode holds: the 12 direct blocks, the indirect block (12), and the
-- 128 entries of the indirect block (13 and on). 0 where there is none.
abbrev pub slots : ℕ
slots = 141

abbrev pub entry_of : (ind j : ℕ) → Blocks → ℕ
entry_of ind j d = if ind == 0 then 0 else int_at (d ind) (4 * j)

abbrev pub slot : Dinode → Blocks → ℕ → ℕ
slot ip d k = if ltb k 13 then ip.addrs k else entry_of (ip.addrs ndirect) (k - 13) d

-- The slot of block `n` of the file.
abbrev pub slot_of : ℕ → ℕ
slot_of n = if ltb n ndirect then n else n + 1

-- What the slots `s` hold are blocks in use behind the bitmap, each once.
pub record IsOwned (s : ℕ → ℕ) (d : Blocks) : Type 0 where
  pub lower : (k : ℕ) → k < slots → s k ≢ 0 → last_meta d < s k
  pub upper : (k : ℕ) → k < slots → s k ≢ 0 → s k < (readsb d).size
  pub used : (k : ℕ) → k < slots → s k ≢ 0 → usage d (s k) ≡ 1
  pub once : (k l : ℕ) → k < slots → l < slots → s k ≢ 0 → s k ≡ s l → k ≡ l

-- The same superblock and usage.
pub record SameUsage (d d' : Blocks) : Type 0 where
  pub super : readsb d' ≡ readsb d
  pub usages : (c : ℕ) → c < (readsb d).size → usage d' c ≡ usage d c

pub meta-same : (d d' : Blocks) → readsb d' ≡ readsb d → last_meta d' ≡ last_meta d
meta-same d d' e = ap (λ (s : Superblock). bblock s.size s.ninodes) e

pub size-same : (d d' : Blocks) → readsb d' ≡ readsb d → (readsb d').size ≡ (readsb d).size
size-same d d' e = ap (λ (s : Superblock). s.size) e

pub IsOwned-same :
    (s s' : ℕ → ℕ) (d d' : Blocks)
    → SameUsage d d'
    → ((k : ℕ) → k < slots → s' k ≡ s k)
    → IsOwned s d
    → IsOwned s' d'
IsOwned-same s s' d d' u e o =
    let m = meta-same d d' u.super in
    let z = size-same d d' u.super in
    let live : (k : ℕ) → k < slots → s' k ≢ 0 → s k ≢ 0 = λ k lt ne q. ne (e k lt ∙ q) in
    record {
      lower = λ k lt ne. omega (arith, o.lower k lt (live k lt ne), e k lt, m);
      upper = λ k lt ne. omega (arith, o.upper k lt (live k lt ne), e k lt, z);
      used = λ k lt ne.
          ap (usage d') (e k lt)
          ∙ u.usages (s k) (o.upper k lt (live k lt ne))
          ∙ o.used k lt (live k lt ne);
      once = λ k l lk ll ne q. o.once k l lk ll (live k lk ne) (sym (e k lk) ∙ q ∙ e l ll);
    }

pub IsLaidOut-same : (d d' : Blocks) → SameUsage d d' → IsLaidOut d → IsLaidOut d'
IsLaidOut-same d d' u v =
    let m = meta-same d d' u.super in
    let z = size-same d d' u.super in
    record {
      small = omega (arith, v.small);
      fits = omega (arith, v.fits);
      reserved = λ c le. u.usages c (omega (arith, v.fits)) ∙ v.reserved c (omega arith);
    }

-- A change of a block behind the bitmap.
pub SameUsage-update :
    (d : Blocks) (x : ℕ) (bytes : ℕ → ℕ) → last_meta d < x → SameUsage d (update d x bytes)
SameUsage-update d x bytes lt = record {
  super = readsb-update x bytes d (omega arith);
  usages = λ c hc. usage-update x c bytes d (omega arith);
}

-- A fresh block enters an empty slot.
pub IsOwned-add :
    (s s' : ℕ → ℕ) (d d' : Blocks) (k0 a : ℕ)
    → IsOwned s d
    → IsChanged d a 1 d'
    → last_meta d < a
    → a < (readsb d).size
    → usage d a ≡ 0
    → s' k0 ≡ a
    → ((k : ℕ) → k < slots → k ≢ k0 → s' k ≡ s k)
    → IsOwned s' d'
IsOwned-add s s' d d' k0 a o c lo hi free here rest =
    let m = meta-same d d' c.super in
    let z = size-same d d' c.super in
    record {
      lower = λ k lt ne. elim (ℕ_discrete k k0) [
        | yes q ↦ let e = ap s' q ∙ here in omega arith
        | no q ↦ omega (arith, o.lower k lt (old k lt q ne), rest k lt q)
      ];
      upper = λ k lt ne. elim (ℕ_discrete k k0) [
        | yes q ↦ let e = ap s' q ∙ here in omega arith
        | no q ↦ omega (arith, o.upper k lt (old k lt q ne), rest k lt q)
      ];
      used = λ k lt ne. elim (ℕ_discrete k k0) [
        | yes q ↦ ap (usage d') (ap s' q ∙ here) ∙ c.changed
        | no q ↦
            ap (usage d') (rest k lt q)
            ∙ c.others (s k) (o.upper k lt (old k lt q ne)) (fresh k lt (old k lt q ne))
            ∙ o.used k lt (old k lt q ne)
      ];
      once = λ k l lk ll ne e. elim (ℕ_discrete k k0) [
        | yes q ↦ elim (ℕ_discrete l k0) [
          | yes r ↦ q ∙ sym r
          | no r ↦
              let same : s l ≡ a = sym (rest l ll r) ∙ sym e ∙ ap s' q ∙ here in
              absurd (fresh l ll (λ w. absurd (omega arith)) same)
        ]
        | no q ↦ elim (ℕ_discrete l k0) [
          | yes r ↦ absurd (fresh k lk (old k lk q ne) (sym (rest k lk q) ∙ e ∙ ap s' r ∙ here))
          | no r ↦ o.once k l lk ll (old k lk q ne) (sym (rest k lk q) ∙ e ∙ rest l ll r)
        ]
      ];
    }
  where
    old : (k : ℕ) → k < slots → k ≢ k0 → s' k ≢ 0 → s k ≢ 0
    old k lt q ne w = ne (rest k lt q ∙ w)

    fresh : (k : ℕ) → k < slots → s k ≢ 0 → s k ≢ a
    fresh k lt ne q = absurd (omega (arith, o.used k lt ne, ap (usage d) q))
