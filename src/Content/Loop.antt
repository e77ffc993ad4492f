-- ===== src/Content/Loop.antt =====
-- The loop of `writei`: it writes all bytes, or it stops where there is no block for the next.
use rain_os.Common.{
  ℕ, zero, suc, ◌+◌, ◌-◌, ◌/◌, ◌%◌, ◌≤◌, ◌<◌, ◌≡◌, ◌⊎◌, inl, inr, refl, sym, ◌∙◌, ap, subst, false,
  arith, ◌==◌, update, Outcome, ok, panic, List, [], ◌∷◌, length, take, drop, ◌++◌, append_assoc,
  length-append, take-append, drop-append, take-append-drop, length-take, length-drop, min,
}
use rain_os.Bitmap.{Blocks}
use rain_os.Bitmap.Alloc.{IsLaidOut}
use rain_os.Icache.{Dinode}
use rain_os.Content.{bmap, bsize, splice, write_from, max_size}
use rain_os.Content.Map.{slot, slot_of, IsOwned}
use rain_os.Content.Grow.{bmap-Got}
use rain_os.Content.Step.{IsWritten, block-IsWritten}
use rain_os.Content.Append.{IsWritten-append, IsWritten-nil}
use rain_os.Content.Full.{IsFullBut, bmap-full}

-- The loop has written the bytes `done` of `bs`, the file has no block for the next one, and at most
-- one block of the disk is free.
pub record IsStopped (off : ℕ) (bs : List ℕ) (ip : Dinode) (d : Blocks) : Type 0 where
  pub before : List ℕ
  pub left : List ℕ
  pub split : bs ≡ before ++ left
  pub more : 0 < length left
  pub ip' : Dinode
  pub d' : Blocks
  pub run : (r : ℕ) → length before ≤ r → write_from r before off ip d ≡ ok (ip', d')
  pub kept : IsWritten off before ip d ip' d'
  pub missing : slot ip' d' (slot_of ((off + length before) / bsize)) ≡ 0
  pub full : (a : ℕ) × IsFullBut a d'

-- What the loop of `writei` leaves.
abbrev pub Ends : (off : ℕ) → List ℕ → Dinode → Blocks → Outcome (Dinode × Blocks) → Type 0
Ends off bs ip d r =
    ((ip' : Dinode) × (d' : Blocks) × (r ≡ ok (ip', d')) × IsWritten off bs ip d ip' d')
    ⊎ ((r ≡ panic) × IsStopped off bs ip d)

write_from-nil : (r off : ℕ) (ip : Dinode) (d : Blocks) → write_from r [] off ip d ≡ ok (ip, d)
unfolding write_from
write_from-nil zero off ip d = refl
write_from-nil (suc r) off ip d = refl

-- The first round of a longer write, which writes `xs`.
write_from-round :
    (r off a : ℕ) (xs ys : List ℕ) (ip ip1 : Dinode) (d d1 : Blocks)
    → 0 < length xs
    → min (length (xs ++ ys)) (bsize - off % bsize) ≡ length xs
    → bmap (off / bsize) ip d ≡ ok (a, ip1, d1)
    → write_from (suc r) (xs ++ ys) off ip d
      ≡ write_from r ys (off + length xs) ip1 (update d1 a (splice (off % bsize) xs (d1 a)))
unfolding write_from
write_from-round r off a xs ys ip ip1 d d1 pos m b =
    let e : (length (xs ++ ys) == 0) ≡ false = ground (arith, length-append xs ys) in
    rw (e, b, m, take-append (length xs) xs ys refl, drop-append (length xs) xs ys refl) refl

-- A stop in what follows the bytes `xs` of a round is a stop of the whole.
IsStopped-later :
    (off a : ℕ) (xs ys : List ℕ) (ip ip1 : Dinode) (d d1 : Blocks)
    → 0 < length xs
    → min (length (xs ++ ys)) (bsize - off % bsize) ≡ length xs
    → off + length xs + length ys ≤ max_size
    → bmap (off / bsize) ip d ≡ ok (a, ip1, d1)
    → IsWritten off xs ip d ip1 (update d1 a (splice (off % bsize) xs (d1 a)))
    → IsStopped (off + length xs) ys ip1 (update d1 a (splice (off % bsize) xs (d1 a)))
    → IsStopped off (xs ++ ys) ip d
IsStopped-later off a xs ys ip ip1 d d1 pos m fits b step w =
    let lw : length ys ≡ length w.before + length w.left =
      ap (length {0}) w.split ∙ length-append w.before w.left in
    record {
      before = xs ++ w.before;
      left = w.left;
      split = ap (λ (zs : List ℕ). xs ++ zs) w.split ∙ sym (append_assoc xs w.before w.left);
      more = w.more;
      ip' = w.ip';
      d' = w.d';
      run = λ r h. go r (omega (arith, length-append xs w.before));
      kept =
          IsWritten-append off xs w.before ip ip1 w.ip' d
            (update d1 a (splice (off % bsize) xs (d1 a))) w.d' pos (omega arith) step w.kept;
      missing =
          ap (λ (x : ℕ). slot w.ip' w.d' (slot_of (x / bsize)))
            (omega (arith, length-append xs w.before))
          ∙ w.missing;
      full = w.full;
    }
  where
    go :
        (r : ℕ)
        → length xs + length w.before ≤ r
        → write_from r (xs ++ w.before) off ip d ≡ ok (w.ip', w.d')
    go zero h = absurd (omega arith)
    go (suc r) h =
        write_from-round r off a xs w.before ip ip1 d d1 pos
          (omega (
            arith,
            m,
            length-append xs ys,
            length-append xs w.before,
            ap (length {0}) w.split,
            length-append w.before w.left,
          ))
          b
        ∙ w.run r (omega arith)

pub write_from-Ends :
    (k : ℕ) (bs : List ℕ) (off : ℕ) (ip : Dinode) (d : Blocks)
    → length bs ≤ k
    → off + length bs ≤ max_size
    → IsOwned (slot ip d) d
    → IsLaidOut d
    → Ends off bs ip d (write_from k bs off ip d)
unfolding write_from
write_from-Ends zero [] off ip d le fits o v = inl (ip, d, refl, IsWritten-nil off ip d o v)
write_from-Ends zero (x ∷ bs) off ip d le fits o v = absurd (omega arith)
write_from-Ends (suc k) [] off ip d le fits o v = inl (ip, d, refl, IsWritten-nil off ip d o v)
write_from-Ends (suc k) (x ∷ bs) off ip d le fits o v =
    let all = x ∷ bs in
    let e : (length all == 0) ≡ false = ground arith in
    let m = min (length all) (bsize - off % bsize) in
    let lt = length-take m all in
    let ld = length-drop {0} m all in
    elim (bmap-Got (off / bsize) ip d (omega arith) o v) [
      | inr (b, z) ↦ inr (
        rw (e, b),
        record {
          before = [];
          left = all;
          split = refl;
          more = omega arith;
          ip' = ip;
          d' = d;
          run = λ r h. write_from-nil r off ip d;
          kept = IsWritten-nil off ip d o v;
          missing = ap (λ (x : ℕ). slot ip d (slot_of (x / bsize))) (omega arith) ∙ z;
          full = bmap-full (off / bsize) ip d (omega arith) o v b;
        },
      )
      | inl (a, ip1, d1, b, at, nz, g, fresh) ↦
          let step =
            block-IsWritten off (take m all) ip ip1 d d1 a (omega arith) (omega arith) o at nz g in
          let d2 = update d1 a (splice (off % bsize) (take m all) (d1 a)) in
          let next : length (take m all) ≡ m = omega arith in
          elim (write_from-Ends k (drop m all) (off + m) ip1 d2 (omega arith) (omega arith)
            step.owned step.laid) [
              | inr (f, w) ↦ inr (
                rw (e, b) f,
                subst (λ (ys : List ℕ). IsStopped off ys ip d) (take-append-drop m all)
                    (IsStopped-later off a (take m all) (drop m all) ip ip1 d d1 (omega arith)
                      (rw (take-append-drop m all) (sym next)) (omega arith) b step
                      (subst (λ (y : ℕ). IsStopped (off + y) (drop m all) ip1 d2) (sym next) w)),
              )
              | inl (ip2, d3, f, w) ↦ inl (
                ip2,
                d3,
                rw (e, b) f,
                subst (λ (ys : List ℕ). IsWritten off ys ip d ip2 d3) (take-append-drop m all)
                    (IsWritten-append off (take m all) (drop m all) ip ip1 ip2 d d2 d3 (omega arith)
                      (omega arith) step
                      (subst (λ (y : ℕ). IsWritten (off + y) (drop m all) ip1 d2 ip2 d3) (sym next)
                        w)),
              )
            ]
    ]
