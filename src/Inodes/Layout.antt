-- ===== src/Inodes/Layout.antt =====
-- What `iupdate` writes is what `ilock` reads, and it spares the other inodes of the block.
use rain_os.Common.{
  ℕ, zero, suc, ◌+◌, ◌*◌, ◌≤◌, ◌<◌, ◌≡◌, ◌≢◌, ◌⊎◌, inl, inr, refl, sym, ◌∙◌, ap, subst, arith,
  update, update_self, update_ne, word, int_at, put_int, int_at-put_int, put_int-outside,
  int_at-same, put_short, short_at-put_short, put_short-outside, short_at-same,
}
use native.Mathlib.Decide.{ℕ_discrete, dec_lt}
use rain_os.Bitmap.{Blocks}
use rain_os.Icache.{Dinode}
use rain_os.Inodes.{iblock, ioff, dinode_at, read_inode, put_addrs, put_dinode, iupdate}

put_addrs-outside :
    (k : ℕ) (b : ℕ → ℕ) (o : ℕ) (f : ℕ → ℕ) (a : ℕ)
    → (a < o) ⊎ (o + 4 * k ≤ a)
    → put_addrs k b o f a ≡ b a
unfolding put_addrs
put_addrs-outside zero b o f a h = refl
put_addrs-outside (suc k) b o f a h =
    put_int-outside (put_addrs k b o f) (o + 4 * k) (f k) a (omega arith)
    ∙ put_addrs-outside k b o f a (omega arith)

put_addrs-at :
    (k : ℕ) (b : ℕ → ℕ) (o : ℕ) (f : ℕ → ℕ) (j : ℕ)
    → j < k
    → f j < word
    → int_at (put_addrs k b o f) (o + 4 * j) ≡ f j
unfolding put_addrs
put_addrs-at zero b o f j lt small = absurd (omega arith)
put_addrs-at (suc k) b o f j lt small = elim (ℕ_discrete j k) [
  | yes q ↦ rw q (int_at-put_int (put_addrs k b o f) (o + 4 * k) (f k) (rw (← q) small))
  | no q ↦
      int_at-same (put_addrs k b o f) (put_addrs (suc k) b o f) (o + 4 * j)
        (λ a lo hi. put_int-outside (put_addrs k b o f) (o + 4 * k) (f k) a (omega arith))
      ∙ put_addrs-at k b o f j (omega arith) small
]

-- The fields fit their widths.
pub record IsDinode (ip : Dinode) : Type 0 where
  pub kind : ip.kind < 65536
  pub major : ip.major < 65536
  pub minor : ip.minor < 65536
  pub nlink : ip.nlink < 65536
  pub size : ip.size < word
  pub addrs : (k : ℕ) → k < 13 → ip.addrs k < word

-- The same inode on the disk: the same fields and the same 13 addresses.
pub record Same (ip ip' : Dinode) : Type 0 where
  pub kind : ip'.kind ≡ ip.kind
  pub major : ip'.major ≡ ip.major
  pub minor : ip'.minor ≡ ip.minor
  pub nlink : ip'.nlink ≡ ip.nlink
  pub size : ip'.size ≡ ip.size
  pub addrs : (k : ℕ) → k < 13 → ip'.addrs k ≡ ip.addrs k

-- `put_dinode` field by field.
module _ (b : ℕ → ℕ) (o : ℕ) (ip : Dinode) where
  abbrev b1 : ℕ → ℕ
  b1 = put_short b o ip.kind

  abbrev b2 : ℕ → ℕ
  b2 = put_short b1 (o + 2) ip.major

  abbrev b3 : ℕ → ℕ
  b3 = put_short b2 (o + 4) ip.minor

  abbrev b4 : ℕ → ℕ
  b4 = put_short b3 (o + 6) ip.nlink

  abbrev b5 : ℕ → ℕ
  b5 = put_int b4 (o + 8) ip.size

  from5 : (a : ℕ) → (a < o + 12) ⊎ (o + 64 ≤ a) → put_dinode b o ip a ≡ b5 a
  unfolding put_dinode
  from5 a h = put_addrs-outside 13 b5 (o + 12) ip.addrs a (omega arith)

  from4 : (a : ℕ) → (a < o + 8) ⊎ (o + 64 ≤ a) → put_dinode b o ip a ≡ b4 a
  from4 a h = from5 a (omega arith) ∙ put_int-outside b4 (o + 8) ip.size a (omega arith)

  from3 : (a : ℕ) → (a < o + 6) ⊎ (o + 64 ≤ a) → put_dinode b o ip a ≡ b3 a
  from3 a h = from4 a (omega arith) ∙ put_short-outside b3 (o + 6) ip.nlink a (omega arith)

  from2 : (a : ℕ) → (a < o + 4) ⊎ (o + 64 ≤ a) → put_dinode b o ip a ≡ b2 a
  from2 a h = from3 a (omega arith) ∙ put_short-outside b2 (o + 4) ip.minor a (omega arith)

  from1 : (a : ℕ) → (a < o + 2) ⊎ (o + 64 ≤ a) → put_dinode b o ip a ≡ b1 a
  from1 a h = from2 a (omega arith) ∙ put_short-outside b1 (o + 2) ip.major a (omega arith)

  put_dinode-outside : (a : ℕ) → (a < o) ⊎ (o + 64 ≤ a) → put_dinode b o ip a ≡ b a
  put_dinode-outside a h = from1 a (omega arith) ∙ put_short-outside b o ip.kind a (omega arith)

  put_dinode-Same : IsDinode ip → Same ip (dinode_at (put_dinode b o ip) o)
  unfolding dinode_at put_dinode
  put_dinode-Same v =
      let p = put_dinode b o ip in
      record {
        kind =
            short_at-same b1 p o (λ a lo hi. from1 a (inl hi))
            ∙ short_at-put_short b o ip.kind v.kind;
        major =
            short_at-same b2 p (o + 2) (λ a lo hi. from2 a (omega arith))
            ∙ short_at-put_short b1 (o + 2) ip.major v.major;
        minor =
            short_at-same b3 p (o + 4) (λ a lo hi. from3 a (omega arith))
            ∙ short_at-put_short b2 (o + 4) ip.minor v.minor;
        nlink =
            short_at-same b4 p (o + 6) (λ a lo hi. from4 a (omega arith))
            ∙ short_at-put_short b3 (o + 6) ip.nlink v.nlink;
        size =
            int_at-same b5 p (o + 8) (λ a lo hi. from5 a (omega arith))
            ∙ int_at-put_int b4 (o + 8) ip.size v.size;
        addrs = λ k lt. put_addrs-at 13 b5 (o + 12) ip.addrs k lt (v.addrs k lt);
      }

pub dinode_at-Same :
    (b b' : ℕ → ℕ) (o : ℕ)
    → ((a : ℕ) → o ≤ a → a < o + 64 → b' a ≡ b a)
    → Same (dinode_at b o) (dinode_at b' o)
unfolding dinode_at
dinode_at-Same b b' o h = record {
  kind = short_at-same b b' o (λ a lo hi. h a (omega arith) (omega arith));
  major = short_at-same b b' (o + 2) (λ a lo hi. h a (omega arith) (omega arith));
  minor = short_at-same b b' (o + 4) (λ a lo hi. h a (omega arith) (omega arith));
  nlink = short_at-same b b' (o + 6) (λ a lo hi. h a (omega arith) (omega arith));
  size = int_at-same b b' (o + 8) (λ a lo hi. h a (omega arith) (omega arith));
  addrs = λ k lt. int_at-same b b' (o + 12 + 4 * k) (λ a lo hi. h a (omega arith) (omega arith));
}

Same-refl : (ip : Dinode) → Same ip ip
Same-refl ip = record {
  kind = refl;
  major = refl;
  minor = refl;
  nlink = refl;
  size = refl;
  addrs = λ k lt. refl;
}

-- A change of one dinode's bytes is not seen at the other inodes.
pub other-Same :
    (d : Blocks) (i j : ℕ) (bytes : ℕ → ℕ)
    → ((a : ℕ) → (a < ioff i) ⊎ (ioff i + 64 ≤ a) → bytes a ≡ d (iblock i) a)
    → j ≢ i
    → Same (read_inode d j) (read_inode (update d (iblock i) bytes) j)
unfolding read_inode
other-Same d i j bytes same ne = elim (ℕ_discrete (iblock j) (iblock i)) [
  | yes q ↦
      let off : (ioff j + 64 ≤ ioff i) ⊎ (ioff i + 64 ≤ ioff j) = apart q in
      dinode_at-Same (d (iblock j)) (update d (iblock i) bytes (iblock j)) (ioff j) (λ a lo hi.
        ap (λ (x : ℕ). update d (iblock i) bytes x a) q
        ∙ ap (λ (f : ℕ → ℕ). f a) (update_self d (iblock i) bytes)
        ∙ same a (omega arith)
        ∙ ap (λ (x : ℕ). d x a) (sym q))
  | no q ↦
      dinode_at-Same (d (iblock j)) (update d (iblock i) bytes (iblock j)) (ioff j)
        (λ a lo hi. ap (λ (f : ℕ → ℕ). f a) (update_ne d (iblock i) (iblock j) bytes q))
]
  where
    apart : iblock j ≡ iblock i → (ioff j + 64 ≤ ioff i) ⊎ (ioff i + 64 ≤ ioff j)
    apart q = elim (dec_lt j i) [ yes p ↦ inl (omega arith) | no p ↦ inr (omega arith) ]

-- After `iupdate` of an inode `ilock` reads back its fields and its 13 addresses, and every other
-- inode as before.
pub iupdate_lem :
    (inum : ℕ) (ip : Dinode) (d : Blocks)
    → IsDinode ip
    → Same ip (read_inode (iupdate inum ip d) inum)
      × ((j : ℕ) → j ≢ inum → Same (read_inode d j) (read_inode (iupdate inum ip d) j))
unfolding iupdate read_inode
iupdate_lem inum ip d v =
    let bytes = put_dinode (d (iblock inum)) (ioff inum) ip in
    (
      subst (λ (f : ℕ → ℕ). Same ip (dinode_at f (ioff inum)))
          (sym (update_self d (iblock inum) bytes))
          (put_dinode-Same (d (iblock inum)) (ioff inum) ip v),
      λ j ne. other-Same d inum j bytes (put_dinode-outside (d (iblock inum)) (ioff inum) ip) ne,
    )
