-- ===== src/Bio/Release.antt =====
-- `brelse` moves a buffer to the front of the ring.
use rain_os.Common.{
  ℕ, ◌<◌, ◌≡◌, ◌≢◌, sym, ◌∙◌, ap, subst, true, false, arith, update, update_self, update_ne, List,
  [], ◌∷◌, ◌++◌, All, ok, panic,
}
use rain_os.Bio.{Bcache, head, nbuf, push, unlink, with_buf, brelse}
use rain_os.Bio.Ring.{Linked, Distinct, IsRing, Linked-update, Linked-split}

-- What holds of a list holds of its parts.
All-parts :
    (P : ℕ → Type 0) (ys zs : List ℕ) (b : ℕ)
    → All P (ys ++ b ∷ zs)
    → All P ys × P b × All P zs × All P (ys ++ zs)
All-parts P [] zs b h = (tt, h.0, h.1, h.1)
All-parts P (y ∷ ys) zs b h =
    let (p, q, r, s) = All-parts P ys zs b h.1 in ((h.0, p), q, r, (h.0, s))

All-flip : (b : ℕ) (xs : List ℕ) → All (λ y. b ≢ y) xs → All (λ y. y ≢ b) xs
All-flip b [] h = tt
All-flip b (x ∷ xs) h = (λ q. h.0 (sym q), All-flip b xs h.1)

-- The list less a member: it is distinct, and the member is not in it.
Distinct-parts :
    (ys zs : List ℕ) (b : ℕ)
    → Distinct (ys ++ b ∷ zs)
    → Distinct (ys ++ zs) × All (λ y. y ≢ b) (ys ++ zs)
Distinct-parts [] zs b h = (h.1, h.0)
Distinct-parts (y ∷ ys) zs b h =
    let (p, q, r, s) = All-parts (λ x. x ≢ y) ys zs b h.0 in
    let (t, u) = Distinct-parts ys zs b h.1 in ((s, t), (λ w. q (sym w), u))

back-ne :
    (next prev : ℕ → ℕ) (a b q y : ℕ) (ys : List ℕ)
    → Linked next prev a (y ∷ ys) b
    → All (λ x. x ≢ q) (y ∷ ys)
    → prev b ≢ q
back-ne next prev a b q y [] l h w = h.0 (sym (l.2.1) ∙ w)
back-ne next prev a b q y (x ∷ ys) l h w = back-ne next prev y b q x ys l.2 h.1 w

front-ne :
    (next prev : ℕ → ℕ) (a b q : ℕ) (ys : List ℕ)
    → Linked next prev a ys b
    → All (λ x. x ≢ q) ys
    → b ≢ q
    → next a ≢ q
front-ne next prev a b q [] l h nb w = nb (sym l.0 ∙ w)
front-ne next prev a b q (x ∷ ys) l h nb w = h.0 (sym l.0 ∙ w)

-- The two writes that take `b` out.
Linked-close :
    (next prev : ℕ → ℕ) (a b c : ℕ) (ys zs : List ℕ)
    → Linked next prev a ys b
    → Linked next prev b zs c
    → All (λ x. x ≢ a) (ys ++ b ∷ zs)
    → All (λ x. x ≢ c) (ys ++ b ∷ zs)
    → Distinct (ys ++ b ∷ zs)
    → Linked (update next (prev b) (next b)) (update prev (next b) (prev b)) a (ys ++ zs) c
Linked-close next prev a b c [] [] l m na nc d = (
  ap (update next (prev b) (next b)) (sym l.1) ∙ update_self next (prev b) (next b) ∙ m.0,
  ap (update prev (next b) (prev b)) (sym m.0) ∙ update_self prev (next b) (prev b) ∙ l.1,
)
Linked-close next prev a b c [] (z ∷ zs) l m na nc d = (
  ap (update next (prev b) (next b)) (sym l.1) ∙ update_self next (prev b) (next b) ∙ m.0,
  ap (update prev (next b) (prev b)) (sym m.0) ∙ update_self prev (next b) (prev b) ∙ l.1,
  Linked-update next prev z c (next b) (prev b) (prev b) (next b) zs (λ w. na.1.0 (w ∙ l.1))
      (subst (λ (x : ℕ). All (λ y. y ≢ x) zs) (sym l.1) na.1.1) (λ w. nc.1.0 (sym (w ∙ m.0)))
      (subst (λ (x : ℕ). All (λ y. y ≢ x) zs) (sym m.0) d.1.0) m.2,
)
Linked-close next prev a b c (y ∷ ys) zs l m na nc d =
    let (p, q, r, s) = All-parts (λ x. x ≢ a) ys zs b na.1 in
    let (p', q', r', s') = All-parts (λ x. x ≢ y) ys zs b d.0 in
    let (p2, q2, r2, s2) = All-parts (λ x. x ≢ c) ys zs b nc.1 in
    (
      update_ne next (prev b) a (next b) (λ w. back-ne next prev a b a y ys l (na.0, p) (sym w))
          ∙ l.0,
      update_ne prev (next b) y (prev b)
            (λ w. front-ne next prev b c y zs m r' (λ e. nc.0 (sym e)) (sym w))
          ∙ l.1,
      Linked-close next prev y b c ys zs l.2 m d.0 nc.1 d.1,
    )

-- The four writes that put `b` behind the head.
Linked-push :
    (next prev : ℕ → ℕ) (h b : ℕ) (xs : List ℕ)
    → Linked next prev h xs h
    → All (λ x. x ≢ h) xs
    → All (λ x. x ≢ b) xs
    → Distinct xs
    → b ≢ h
    → let n1 = update next b (next h) in
      Linked (update n1 h b) (update (update prev b h) (n1 h) b) h (b ∷ xs) h
Linked-push next prev h b [] l nh nb d ne =
    let n1 = update next b (next h) in
    let at : n1 h ≡ h = update_ne next b h (next h) (λ q. ne (sym q)) ∙ l.0 in
    (
      update_self n1 h b,
      rw at (update_ne (update prev b h) h b b ne ∙ update_self prev b h),
      (
        update_ne n1 h b b ne ∙ update_self next b (next h) ∙ l.0,
        rw at (update_self (update prev b h) h b),
      ),
    )
Linked-push next prev h b (x ∷ xs) l nh nb d ne =
    let n1 = update next b (next h) in
    let p1 = update prev b h in
    let at : n1 h ≡ x = update_ne next b h (next h) (λ q. ne (sym q)) ∙ l.0 in
    subst (λ (j : ℕ). Linked (update n1 h b) (update p1 j b) h (b ∷ x ∷ xs) h) (sym at)
      (
        update_self n1 h b,
        update_ne p1 x b b (λ q. nb.0 (sym q)) ∙ update_self prev b h,
        (
          update_ne n1 h b b ne ∙ update_self next b (next h) ∙ l.0,
          update_self p1 x b,
          Linked-update n1 p1 x h b b h x xs nh.0 nh.1 (λ q. nh.0 (sym q)) d.0
              (Linked-update next prev x h (next h) h b b xs nb.0 nb.1 (λ q. ne (sym q)) nb.1 l.2),
        ),
      )

pub All-ne-head : (xs : List ℕ) → All (λ x. x < nbuf) xs → All (λ x. x ≢ head) xs
All-ne-head [] h = tt
All-ne-head (x ∷ xs) h = (λ q. absurd (omega (arith, h.0)), All-ne-head xs h.1)

All-right : (P : ℕ → Type 0) (ys zs : List ℕ) → All P (ys ++ zs) → All P zs
All-right P [] zs h = h
All-right P (y ∷ ys) zs h = All-right P ys zs h.1

-- `brelse` of a busy buffer puts it in front of the ring, which keeps the order of the others, and
-- clears its busy flag and wakes whoever sleeps on it; of another buffer it panics.
pub brelse_lem :
    (c : Bcache) (b : ℕ) (ys zs : List ℕ)
    → IsRing c (ys ++ b ∷ zs)
    → ((c.buf b).busy ≡ false → brelse b c ≡ panic)
      × ((c.buf b).busy ≡ true
          → (c' : Bcache) × (brelse b c ≡ ok (b, c'))
            × IsRing c' (b ∷ ys ++ zs)
            × (c'.buf b ≡ record (c.buf b) { busy = false })
            × ((i : ℕ) → i ≢ b → c'.buf i ≡ c.buf i))
unfolding brelse
brelse_lem c b ys zs r =
    let bounds = All-parts (λ x. x < nbuf) ys zs b r.buffers in
    let heads = All-ne-head (ys ++ b ∷ zs) r.buffers in
    let (nb, nb') = Distinct-parts ys zs b r.distinct in
    let (l, m) = Linked-split c.next c.prev head b head ys zs r.linked in
    let hb : b ≢ head = λ q. absurd (omega (arith, bounds.1)) in
    let nonhead = All-ne-head (ys ++ zs) bounds.3 in
    let c1 = unlink b c in
    let x = record (c.buf b) { busy = false } in
    (
      λ h. rw h,
      λ h. (
        with_buf (push b c1) b x,
        rw h,
        record {
          linked =
              Linked-push c1.next c1.prev head b (ys ++ zs)
                (subst (λ (j : ℕ). Linked (update c.next j (c.next b)) c1.prev head (ys ++ zs) head)
                  (sym (
                    update_ne c.prev (c.next b) b (c.prev b) (λ q.
                      front-ne c.next c.prev b head b zs m (All-right (λ y. y ≢ b) ys zs nb')
                        (λ w. hb (sym w)) (sym q))))
                  (Linked-close c.next c.prev head b head ys zs l m heads heads r.distinct))
                nonhead nb' nb hb;
          distinct = (nb', nb);
          buffers = (bounds.1, bounds.3);
        },
        update_self c.buf b x,
        λ i ne. update_ne c.buf b i x ne,
      ),
    )
