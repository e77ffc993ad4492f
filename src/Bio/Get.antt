-- ===== src/Bio/Get.antt =====
-- `bget` keeps one buffer for a sector, and recycles the least recently used idle one.
use rain_os.Common.{
  ℕ, ◌-◌, ◌<◌, ◌≡◌, ◌≢◌, ◌⊎◌, inl, inr, sym, ◌∙◌, ap, true, false, arith, Bool-cases, Option-cases,
  update, update_self, update_ne, List, length, none, some, word,
}
use native.Mathlib.Decide.{ℕ_discrete}
use rain_os.Bio.{Buf, Bcache, head, holds, is_idle, taken, asleep, no_buffers, with_buf, bget}
use rain_os.Bio.Ring.{IsRing}
use rain_os.Bio.Release.{All-ne-head}
use rain_os.Bio.Search.{
  In, find_first, find_last, follow-next, follow-prev, find_first-some, find_first-none,
  find_last-some,
}

-- The buffers of the ring `xs` that hold sectors of a real device hold different ones. `binit` gives
-- every buffer the device -1.
pub record IsCache (c : Bcache) (xs : List ℕ) : Type 0 where
  pub ring : IsRing c xs
  pub once :
      (i j : ℕ)
      → In i xs
      → In j xs
      → (c.buf i).dev ≢ word - 1
      → (c.buf i).dev ≡ (c.buf j).dev
      → (c.buf i).sector ≡ (c.buf j).sector
      → i ≡ j

-- The buffer that `bget` returns: busy, and with the sector that was asked for. If the sector was
-- not cached, the buffer was the last idle one and is to be read.
pub record IsTaken (dev sector : ℕ) (c : Bcache) (xs : List ℕ) (b : ℕ) (c' : Bcache) : Type 0 where
  pub member : In b xs
  pub dev_set : (c'.buf b).dev ≡ dev
  pub sector_set : (c'.buf b).sector ≡ sector
  pub busy : (c'.buf b).busy ≡ true
  pub was_free : (c.buf b).busy ≡ false
  pub source :
      (c'.buf b ≡ record (c.buf b) { busy = true })
      ⊎ (((i : ℕ) → In i xs → holds dev sector c i ≡ false)
          × (find_last (is_idle c) xs ≡ some b)
          × ((c'.buf b).valid ≡ false))
  pub others : (i : ℕ) → i ≢ b → c'.buf i ≡ c.buf i

-- `holds` as equations.
holds-keys :
    (dev sector : ℕ) (c : Bcache) (b : ℕ)
    → holds dev sector c b ≡ true
    → ((c.buf b).dev ≡ dev) × ((c.buf b).sector ≡ sector)
holds-keys dev sector c b h = ground arith

idle-flags : (c : Bcache) (b : ℕ) → is_idle c b ≡ true → (c.buf b).busy ≡ false
idle-flags c b h = ground arith

abbrev dev_of : Buf → ℕ
dev_of x = x.dev

abbrev sector_of : Buf → ℕ
sector_of x = x.sector

-- A buffer of the ring changes and is the only one with its key.
IsCache-with :
    (c : Bcache) (xs : List ℕ) (b : ℕ) (x : Buf)
    → IsCache c xs
    → ((i : ℕ)
        → In i xs
        → i ≢ b
        → x.dev ≢ word - 1
        → (c.buf i).dev ≡ x.dev
        → (c.buf i).sector ≡ x.sector
        → ⊥)
    → IsCache (with_buf c b x) xs
IsCache-with c xs b x v alone = record {
  ring = record { linked = v.ring.linked; distinct = v.ring.distinct; buffers = v.ring.buffers };
  once = λ i j hi hj nd e f.
      let old : (k : ℕ) → k ≢ b → update c.buf b x k ≡ c.buf k = λ k. update_ne c.buf b k x in
      let new : (k : ℕ) → k ≡ b → update c.buf b x k ≡ x =
        λ k q. ap (update c.buf b x) q ∙ update_self c.buf b x in
      elim (ℕ_discrete i b) [
        | yes p ↦ elim (ℕ_discrete j b) [
          | yes q ↦ p ∙ sym q
          | no q ↦ absurd (
              alone j hj q (λ w. nd (ap dev_of (new i p) ∙ w))
                (sym (ap dev_of (old j q)) ∙ sym e ∙ ap dev_of (new i p))
                (sym (ap sector_of (old j q)) ∙ sym f ∙ ap sector_of (new i p)))
        ]
        | no p ↦ elim (ℕ_discrete j b) [
          | yes q ↦ absurd (
              alone i hi p (λ w. nd (e ∙ ap dev_of (new j q) ∙ w))
                (sym (ap dev_of (old i p)) ∙ e ∙ ap dev_of (new j q))
                (sym (ap sector_of (old i p)) ∙ f ∙ ap sector_of (new j q)))
          | no q ↦
              v.once i j hi hj (λ w. nd (ap dev_of (old i p) ∙ w))
                (sym (ap dev_of (old i p)) ∙ e ∙ ap dev_of (old j q))
                (sym (ap sector_of (old i p)) ∙ f ∙ ap sector_of (old j q))
        ]
      ];
}

-- What `bget` may return.
abbrev Got : (fuel dev sector : ℕ) (c : Bcache) (xs : List ℕ) → Type 0
Got fuel dev sector c xs =
    ((b : ℕ) × (c' : Bcache) × (bget fuel dev sector c ≡ taken b c')
      × IsCache c' xs
      × IsTaken dev sector c xs b c')
    ⊎ (((b : ℕ) × (bget fuel dev sector c ≡ asleep b)
          × In b xs
          × (holds dev sector c b ≡ true)
          × ((c.buf b).busy ≡ true))
        ⊎ ((bget fuel dev sector c ≡ no_buffers)
            × ((i : ℕ) → In i xs → holds dev sector c i ≡ false)
            × (find_last (is_idle c) xs ≡ none)))

-- The sector is cached.
cached_lem :
    (fuel dev sector b : ℕ) (c : Bcache) (xs : List ℕ)
    → IsCache c xs
    → length xs < fuel
    → find_first (holds dev sector c) xs ≡ some b
    → Got fuel dev sector c xs
unfolding bget
cached_lem fuel dev sector b c xs v lt e =
    let nh = All-ne-head xs v.ring.buffers in
    let f = follow-next c.next c.prev (holds dev sector c) fuel head xs v.ring.linked nh lt in
    let (i, h) = find_first-some (holds dev sector c) xs b e in
    let (hd, hs) = holds-keys dev sector c b h in
    let x : Buf = record (c.buf b) { busy = true } in
    elim (Bool-cases (c.buf b).busy) [
      | inl t ↦ inr (inl (b, rw (f, e, t, bget), i, h, t))
      | inr t ↦ inl (
        b,
        with_buf c b x,
        rw (f, e, t, bget),
        IsCache-with c xs b x v (λ j hj ne nd p q. ne (v.once j b hj i (λ w. nd (sym p ∙ w)) p q)),
        record {
          member = i;
          dev_set = ap (λ (y : Buf). y.dev) (update_self c.buf b x) ∙ hd;
          sector_set = ap (λ (y : Buf). y.sector) (update_self c.buf b x) ∙ hs;
          busy = ap (λ (y : Buf). y.busy) (update_self c.buf b x);
          was_free = t;
          source = inl (update_self c.buf b x);
          others = λ j ne. update_ne c.buf b j x ne;
        },
      )
    ]

-- The sector is not cached, and a buffer is recycled.
recycled_lem :
    (fuel dev sector : ℕ) (c : Bcache) (xs : List ℕ)
    → IsCache c xs
    → length xs < fuel
    → find_first (holds dev sector c) xs ≡ none
    → Got fuel dev sector c xs
unfolding bget
recycled_lem fuel dev sector c xs v lt e =
    let nh = All-ne-head xs v.ring.buffers in
    let f = follow-next c.next c.prev (holds dev sector c) fuel head xs v.ring.linked nh lt in
    let g = follow-prev c.next c.prev (is_idle c) fuel xs v.ring.linked nh lt in
    let out = find_first-none (holds dev sector c) xs in
    elim (Option-cases (find_last (is_idle c) xs)) [
      | inl n ↦ inr (inr (rw (f, e, g, n, bget), λ i hi. out i e hi, n))
      | inr (b, n) ↦
          let (i, h) = find_last-some (is_idle c) xs b n in
          let x : Buf = record (c.buf b) {
            dev = dev;
            sector = sector;
            busy = true;
            valid = false;
            dirty = false;
          } in
          inl (
            b,
            with_buf c b x,
            rw (f, e, g, n, bget),
            IsCache-with c xs b x v (λ j hj ne nd p q. not_held j (out j e hj) p q),
            record {
              member = i;
              dev_set = ap (λ (y : Buf). y.dev) (update_self c.buf b x);
              sector_set = ap (λ (y : Buf). y.sector) (update_self c.buf b x);
              busy = ap (λ (y : Buf). y.busy) (update_self c.buf b x);
              was_free = idle-flags c b h;
              source =
                  inr (λ j hj. out j e hj, n, ap (λ (y : Buf). y.valid) (update_self c.buf b x));
              others = λ j ne. update_ne c.buf b j x ne;
            },
          )
    ]
  where
    not_held :
        (j : ℕ) → holds dev sector c j ≡ false → (c.buf j).dev ≡ dev → (c.buf j).sector ≡ sector → ⊥
    not_held j h p q = ground arith

-- `bget` of a sector of a real device. It returns a buffer that is now busy and holds the sector:
-- the one that held it, or else the least recently used one that is neither busy nor dirty; the
-- cache still has at most one buffer for a sector. It sleeps on the sector's buffer if that one is
-- busy, and panics only if the sector is not cached and no buffer is idle. More rounds than there
-- are buffers are enough for its loops.
pub bget_lem :
    (fuel dev sector : ℕ) (c : Bcache) (xs : List ℕ)
    → IsCache c xs
    → length xs < fuel
    → ((b : ℕ) × (c' : Bcache) × (bget fuel dev sector c ≡ taken b c')
        × IsCache c' xs
        × IsTaken dev sector c xs b c')
      ⊎ (((b : ℕ) × (bget fuel dev sector c ≡ asleep b)
            × In b xs
            × (holds dev sector c b ≡ true)
            × ((c.buf b).busy ≡ true))
          ⊎ ((bget fuel dev sector c ≡ no_buffers)
              × ((i : ℕ) → In i xs → holds dev sector c i ≡ false)
              × (find_last (is_idle c) xs ≡ none)))
bget_lem fuel dev sector c xs v lt = elim (Option-cases (find_first (holds dev sector c) xs)) [
  | inr (b, e) ↦ cached_lem fuel dev sector b c xs v lt e
  | inl e ↦ recycled_lem fuel dev sector c xs v lt e
]
