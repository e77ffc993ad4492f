-- ===== src/Content/Update.antt =====
-- The update of an inode on the disk, and the blocks of its file.
use rain_os.Common.{
  ℕ, ◌-◌, ◌/◌, ◌%◌, ◌<◌, ◌≡◌, inl, inr, ◌∙◌, ap, arith, ltb, update_ne, Bool-cases,
}
use rain_os.Bitmap.{Blocks, readsb}
use rain_os.Bitmap.Bits.{readsb-update, usage-update_ne}
use rain_os.Bitmap.Alloc.{last_meta}
use rain_os.Icache.{Dinode}
use rain_os.Inodes.{iblock, ioff, put_dinode, iupdate}
use rain_os.Content.{bsize, ndirect}
use rain_os.Content.Map.{slots, slot, slot_of, IsOwned, SameUsage}
use rain_os.Content.Slots.{entry_of-same}
use rain_os.Content.Read.{byte_at, IsFile}

-- `iupdate` touches none of the file's blocks.
module _ (inum : ℕ) (rec : Dinode) (ip : Dinode) (d : Blocks)
    (inside : inum < (readsb d).ninodes) where
  abbrev d1 : Blocks
  d1 = iupdate inum rec d

  pub iupdate-other : (x : ℕ) → last_meta d < x → d1 x ≡ d x
  unfolding iupdate
  iupdate-other x lt =
      update_ne d (iblock inum) x (put_dinode (d (iblock inum)) (ioff inum) rec)
        (λ q. absurd (omega arith))

  pub usage-iupdate : SameUsage d d1
  unfolding iupdate
  usage-iupdate =
      let b = put_dinode (d (iblock inum)) (ioff inum) rec in
      record {
        super = readsb-update (iblock inum) b d (omega arith);
        usages =
            λ c hc. usage-update_ne (iblock inum) c b d (omega arith) (λ q. absurd (omega arith));
      }

  pub slot-iupdate : IsOwned (slot ip d) d → (k : ℕ) → slot ip d1 k ≡ slot ip d k
  slot-iupdate o k = elim (Bool-cases (ltb k 13)) [
    | inl e ↦ rw e
    | inr e ↦ rw e (
        entry_of-same (ip.addrs ndirect) (k - 13) d d1
          (λ w. iupdate-other (ip.addrs ndirect) (o.lower ndirect (omega arith) w)))
  ]

  -- A byte of a block that the file has.
  pub byte-iupdate : IsFile ip d → (o : ℕ) → o < ip.size → byte_at ip d1 o ≡ byte_at ip d o
  byte-iupdate v o lt =
      let k = slot_of (o / bsize) in
      let hk : k < slots = ground (arith, v.bounded) in
      ap (λ (x : ℕ). d1 x (o % bsize)) (slot-iupdate v.owned k)
      ∙ ap (λ (b : ℕ → ℕ). b (o % bsize))
          (iupdate-other (slot ip d k) (v.owned.lower k hk (v.whole (o / bsize) (omega arith))))
