-- ===== src/Content/Slots.antt =====
-- What an operation on the blocks of a file keeps, and `bmap` at an address in the inode.
use rain_os.Common.{
  ℕ, ◌+◌, ◌-◌, ◌*◌, ◌<◌, ◌≡◌, ◌≢◌, ◌⊎◌, inl, inr, refl, sym, ◌∙◌, ap, true, arith, ◌==◌, ltb,
  update, update_self, update_ne, int_at, Outcome, ok, panic, Bool-cases,
}
use native.Mathlib.Decide.{ℕ_discrete}
use rain_os.Bitmap.{Blocks, readsb}
use rain_os.Bitmap.Bits.{usage}
use rain_os.Bitmap.Alloc.{last_meta, IsLaidOut, IsChanged, balloc_lem}
use rain_os.Icache.{Dinode}
use rain_os.Content.{ndirect, set_addr, own_addr}
use rain_os.Content.Map.{
  slots, entry_of, slot, IsOwned, SameUsage, size-same, IsOwned-same, IsLaidOut-same, IsOwned-add,
}

-- What an operation on slot `k0` keeps: the file's other blocks and the blocks in use of the rest of
-- the disk, but for the entries of the file's indirect block.
pub record IsGrown (k0 : ℕ) (ip : Dinode) (d : Blocks) (ip' : Dinode) (d' : Blocks) : Type 0 where
  pub owned : IsOwned (slot ip' d') d'
  pub laid : IsLaidOut d'
  pub super : readsb d' ≡ readsb d
  pub fields : ip' ≡ record ip { addrs = ip'.addrs }
  pub old : (k : ℕ) → k < slots → slot ip d k ≢ 0 → slot ip' d' k ≡ slot ip d k
  pub others : (k : ℕ) → k < slots → k ≢ k0 → k ≢ ndirect → slot ip' d' k ≡ slot ip d k
  pub fresh :
      (k : ℕ) → k < slots → slot ip d k ≡ 0 → slot ip' d' k ≢ 0 → usage d (slot ip' d' k) ≡ 0
  pub frame :
      (x : ℕ)
      → last_meta d < x
      → x < (readsb d).size
      → usage d x ≡ 1
      → (usage d' x ≡ 1) × (x ≢ ip.addrs ndirect → d' x ≡ d x)

pub IsGrown-refl :
    (k0 : ℕ) (ip : Dinode) (d : Blocks) → IsOwned (slot ip d) d → IsLaidOut d → IsGrown k0 ip d ip d
IsGrown-refl k0 ip d o v = record {
  owned = o;
  laid = v;
  super = refl;
  fields = refl;
  old = λ k lt ne. refl;
  others = λ k lt ne ne'. refl;
  fresh = λ k lt z ne. absurd (ne z);
  frame = λ x lo hi u. (u, λ ne. refl);
}

-- What a call returns for slot `k0`: `a` is in the slot afterwards.
abbrev pub Got : (k0 : ℕ) → Dinode → Blocks → Outcome (ℕ × Dinode × Blocks) → Type 0
Got k0 ip d r =
    ((a : ℕ) × (ip' : Dinode) × (d' : Blocks) × (r ≡ ok (a, ip', d'))
      × (slot ip' d' k0 ≡ a)
      × (a ≢ 0)
      × IsGrown k0 ip d ip' d'
      × (slot ip d k0 ≡ 0 → (usage d a ≡ 0) × ((i : ℕ) → d' a i ≡ 0)))
    ⊎ ((r ≡ panic) × (slot ip d k0 ≡ 0))

-- The slots after an address of the inode has been set.
slot-set_self : (ip : Dinode) (d : Blocks) (k a : ℕ) → k < 13 → slot (set_addr k a ip) d k ≡ a
slot-set_self ip d k a lt =
    let e : ltb k 13 ≡ true = ground arith in rw e (update_self ip.addrs k a)

entry_of-zeros : (x j : ℕ) (d : Blocks) → ((i : ℕ) → d x i ≡ 0) → entry_of x j d ≡ 0
entry_of-zeros x j d z = elim (Bool-cases (x == 0)) [
  | inl e ↦ rw e
  | inr e ↦ rw e (omega (arith, z (4 * j), z (4 * j + 1), z (4 * j + 2), z (4 * j + 3)))
]

pub entry_of-same :
    (x j : ℕ) (d d' : Blocks) → (x ≢ 0 → d' x ≡ d x) → entry_of x j d' ≡ entry_of x j d
entry_of-same x j d d' h = elim (Bool-cases (x == 0)) [
  | inl e ↦ rw e
  | inr e ↦ rw e (ap (λ (b : ℕ → ℕ). int_at b (4 * j)) (h (ground arith)))
]

slot-set_ne :
    (ip : Dinode) (d d' : Blocks) (k0 a k : ℕ)
    → ip.addrs k0 ≡ 0
    → ((i : ℕ) → d' a i ≡ 0)
    → (ip.addrs ndirect ≢ 0 → d' (ip.addrs ndirect) ≡ d (ip.addrs ndirect))
    → k ≢ k0
    → slot (set_addr k0 a ip) d' k ≡ slot ip d k
slot-set_ne ip d d' k0 a k none_there zeros kept ne = elim (Bool-cases (ltb k 13)) [
  | inl e ↦ rw e (update_ne ip.addrs k0 k a ne)
  | inr e ↦ rw e (elim (ℕ_discrete ndirect k0) [
    | yes q ↦
        ap (λ (x : ℕ). entry_of x (k - 13) d')
          (ap (update ip.addrs k0 a) q ∙ update_self ip.addrs k0 a)
        ∙ entry_of-zeros a (k - 13) d' zeros
        ∙ sym (ap (λ (x : ℕ). entry_of x (k - 13) d) (ap ip.addrs q ∙ none_there))
    | no q ↦
        ap (λ (x : ℕ). entry_of x (k - 13) d') (update_ne ip.addrs k0 ndirect a q)
        ∙ entry_of-same (ip.addrs ndirect) (k - 13) d d' kept
  ])
]

-- A block of the disk that is in use is none of the free ones.
pub used_ne : (d : Blocks) (x a : ℕ) → usage d x ≡ 1 → usage d a ≡ 0 → x ≢ a
used_ne d x a u f q = absurd (omega (arith, u, f, ap (usage d) q))

pub frame_changed :
    (d d' : Blocks) (a : ℕ)
    → IsChanged d a 1 d'
    → usage d a ≡ 0
    → (x : ℕ) → last_meta d < x
    → x < (readsb d).size
    → usage d x ≡ 1
    → (usage d' x ≡ 1) × (d' x ≡ d x)
frame_changed d d' a c free x lo hi u =
    (c.others x hi (used_ne d x a u free) ∙ u, c.contents x lo (used_ne d x a u free))

-- A free block that the allocator has taken enters an empty slot; then the file's indirect block
-- may change too.
pub IsGrown-take :
    (k a : ℕ) (ip ip' : Dinode) (d d1 d2 : Blocks)
    → IsOwned (slot ip d) d
    → IsLaidOut d1
    → IsChanged d a 1 d1
    → (last_meta d < a) × (a < (readsb d).size) × (usage d a ≡ 0)
    → SameUsage d1 d2
    → ((x : ℕ) → x ≢ ip.addrs ndirect → d2 x ≡ d1 x)
    → ip' ≡ record ip { addrs = ip'.addrs }
    → slot ip d k ≡ 0
    → slot ip' d2 k ≡ a
    → ((j : ℕ) → j ≢ k → slot ip' d2 j ≡ slot ip d j)
    → IsGrown k ip d ip' d2
IsGrown-take k a ip ip' d d1 d2 o laid c (lo, hi, free) u same fields z here rest =
    let s = size-same d d1 c.super in
    record {
      owned =
          IsOwned-same (slot ip' d2) (slot ip' d2) d1 d2 u (λ j hj. refl)
            (IsOwned-add (slot ip d) (slot ip' d2) d d1 k a o c lo hi free here
              (λ j hj ne. rest j ne));
      laid = IsLaidOut-same d1 d2 u laid;
      super = u.super ∙ c.super;
      fields = fields;
      old = λ j hj ne. rest j (λ q. ne (ap (slot ip d) q ∙ z));
      others = λ j hj ne ne'. rest j ne;
      fresh = λ j hj w ne. elim (ℕ_discrete j k) [
        | yes q ↦ ap (usage d) (ap (slot ip' d2) q ∙ here) ∙ free
        | no q ↦ absurd (ne (rest j q ∙ w))
      ];
      frame = λ x l h w.
          let (f, g) = frame_changed d d1 a c free x l h w in
          (u.usages x (omega arith) ∙ f, λ ne. same x ne ∙ g);
    }

pub own_addr-Got :
    (k : ℕ) (ip : Dinode) (d : Blocks)
    → k < 13
    → IsOwned (slot ip d) d
    → IsLaidOut d
    → Got k ip d (own_addr k ip d)
unfolding own_addr
own_addr-Got k ip d lt o v =
    let direct : slot ip d k ≡ ip.addrs k = ground arith in
    elim (Bool-cases (ip.addrs k == 0)) [
      | inr e ↦
          let nz : ip.addrs k ≢ 0 = ground arith in
          inl (
            ip.addrs k,
            ip,
            d,
            rw e,
            direct,
            nz,
            IsGrown-refl k ip d o v,
            λ z. absurd (nz (sym direct ∙ z)),
          )
      | inl e ↦
          let z : ip.addrs k ≡ 0 = ground arith in
          elim (balloc_lem d v) [
            | inr (b, all) ↦ inr (rw (e, b), direct ∙ z)
            | inl (a, d', b, lo, hi, free, first, c, laid, zeros) ↦
                let fr = frame_changed d d' a c free in
                let kept : ip.addrs ndirect ≢ 0 → d' (ip.addrs ndirect) ≡ d (ip.addrs ndirect) =
                  λ w.
                    (fr (ip.addrs ndirect) (o.lower ndirect (omega arith) w)
                      (o.upper ndirect (omega arith) w) (o.used ndirect (omega arith) w)).1 in
                let rest : (j : ℕ) → j ≢ k → slot (set_addr k a ip) d' j ≡ slot ip d j =
                  λ j. slot-set_ne ip d d' k a j z zeros kept in
                let here = slot-set_self ip d' k a lt in
                inl (
                  a,
                  set_addr k a ip,
                  d',
                  rw (e, b),
                  here,
                  λ q. absurd (omega arith),
                  IsGrown-take k a ip (set_addr k a ip) d d' d' o laid c (lo, hi, free)
                      (record { super = refl; usages = λ x hx. refl }) (λ x ne. refl) refl
                      (direct ∙ z) here rest,
                  λ w. (free, zeros),
                )
          ]
    ]
