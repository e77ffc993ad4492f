-- ===== src/Path/Refs.antt =====
-- The references and locks that the actions on inodes take and give back.
use rain_os.Common.{
  ℕ, ◌+◌, ◌-◌, ◌<◌, ◌≡◌, refl, sym, ap, ◌∙◌, subst, arith, Bool, true, false, ◌&&◌, Bool-cases,
  Option, none, some, Option-cases, ok, Outcome-cases, inl, inr, ◌==◌, ==_refl, ==_false, ltb,
  update, update_self, update_ne, find_index, find_index-some,
}
use rain_os.String.{Memory}
use rain_os.Icache.{
  ninode, Dinode, Inode, Icache, is_cached, is_empty, iget, idup, ilock, iunlock, iput,
}
use rain_os.Inodes.{read_inode}
use rain_os.Directory.{Lookup, resolved, unresolved, halted, unfinished, dirlookup}
use rain_os.Directory.Fuel.{IsLookup, dirlookup-IsLookup}
use rain_os.Path.{with_copy, looked, lookup, unlock_put, World, get, dup, lock, unlock, put}
use rain_os.Path.Ensures.{
  Ensures, ensures_then, IsAt, no_lock, only, plus, minus, IsAt-update, Leaves, made,
}

-- One more reference to slot `i`.
plus-IsAt :
    (r : ℕ → ℕ) (l : ℕ → Bool) (c : Icache) (i : ℕ) (n : Inode)
    → IsAt r l c
    → (n.ref ≡ r i + 1) × (n.busy ≡ l i) × (n.valid ≡ l i)
    → IsAt (plus r i) l (update c i n)
plus-IsAt r l c i n v (a, b, d) =
    IsAt-update r (plus r i) l l c i n v (a ∙ sym (update_self r i (r i + 1)), b, d)
      (λ h. rw (update_self r i (r i + 1)) (omega arith))
      (λ j ne. (update_ne r i j (r i + 1) ne, refl))

module _ (r : ℕ → ℕ) (l : ℕ → Bool) (w : World) (v : IsAt r l w.cache) where
  unlocked_of : (i : ℕ) → r i ≡ 0 → l i ≡ false
  unlocked_of i z = elim (Bool-cases (l i)) [
    | inl e ↦ absurd (omega (arith, v.live i e, z))
    | inr e ↦ e
  ]

  iget-IsAt :
      (dev inum i : ℕ) (c : Icache) → iget dev inum w.cache ≡ ok (i, c) → IsAt (plus r i) l c
  unfolding iget
  iget-IsAt dev inum i c h =
      elim (Option-cases (find_index (is_cached dev inum w.cache) ninode 0)) [
        | inr (k, e) ↦
            let n : Inode = record (w.cache k) { ref = (w.cache k).ref + 1 } in
            subst (λ (x : ℕ × Icache). IsAt (plus r (x.0)) l (x.1))
              (made (k, update w.cache k n) (i, c) (rw (e, iget) at h))
              (plus-IsAt r l w.cache k n v (ap (λ (a : ℕ). a + 1) (v.refs k), v.busy k, v.valid k))
        | inl e ↦ elim (Option-cases (find_index (is_empty w.cache) ninode 0)) [
          | inl e' ↦ absurd (let q = rw (e, iget, e') at h in cc)
          | inr (k, e') ↦
              let n : Inode = record (w.cache k) {
                dev = dev;
                inum = inum;
                ref = 1;
                busy = false;
                valid = false;
              } in
              let z : (w.cache k).ref ≡ 0 =
                ground (arith, (find_index-some (is_empty w.cache) ninode 0 k e').hit) in
              let f = unlocked_of k (sym (v.refs k) ∙ z) in
              subst (λ (x : ℕ × Icache). IsAt (plus r (x.0)) l (x.1))
                (made (k, update w.cache k n) (i, c) (rw (e, iget, e') at h))
                (plus-IsAt r l w.cache k n v (omega (arith, v.refs k, z), sym f, sym f))
        ]
      ]

  pub get_lem : (dev inum : ℕ) → Ensures (get dev inum w) (λ i w'. Leaves (plus r i) l w.mem w')
  unfolding get
  get_lem dev inum = elim (Outcome-cases (iget dev inum w.cache)) [
    | inl e ↦ rw (Ensures, get, e) tt
    | inr ((i, c), e) ↦ rw (Ensures, get, e) (iget-IsAt dev inum i c e, refl)
  ]

  pub dup_lem : (i : ℕ) → Ensures (dup i w) (λ j w'. (j ≡ i) × Leaves (plus r i) l w.mem w')
  unfolding dup idup
  dup_lem i =
      let n : Inode = record (w.cache i) { ref = (w.cache i).ref + 1 } in
      let p = plus-IsAt r l w.cache i n v (ap (λ (a : ℕ). a + 1) (v.refs i), v.busy i, v.valid i) in
      (refl, (p, refl))

-- The same inode's slot, locked, unlocked or given up.
module _ (r : ℕ → ℕ) (w : World) (i : ℕ) where
  pub lock_lem :
      IsAt r no_lock w.cache → 0 < r i → Ensures (lock i w) (λ _ w'. Leaves r (only i) w.mem w')
  unfolding lock ilock
  lock_lem v pos =
      let a : ltb (w.cache i).ref 1 ≡ false = ground (arith, v.refs i) in
      let d = read_inode w.disk (w.cache i).inum in
      let n : Inode = record (w.cache i) { busy = true; valid = true; copy = d } in
      elim (Bool-cases (d.kind == 0)) [
        | inl z ↦ rw (Ensures, lock, ilock, a, v.busy i, v.valid i, z) tt
        | inr z ↦
            rw (Ensures, lock, ilock, a, v.busy i, v.valid i, z)
              (
                IsAt-update r r no_lock (only i) w.cache i n v
                    (v.refs i, sym (==_refl i), sym (==_refl i)) (λ h. pos)
                    (λ j ne. (refl, ==_false j i ne)),
                refl,
              )
      ]

  pub unlock_lem :
      IsAt r (only i) w.cache → 0 < r i → Ensures (unlock i w) (λ _ w'. Leaves r no_lock w.mem w')
  unfolding unlock iunlock
  unlock_lem v pos =
      let a : ltb (w.cache i).ref 1 ≡ false = ground (arith, v.refs i) in
      let b : (w.cache i).busy ≡ true = v.busy i ∙ ==_refl i in
      rw (b, a)
        (
          IsAt-update r r (only i) no_lock w.cache i
              (record (w.cache i) { busy = false; valid = false }) v (v.refs i, refl, refl)
              (λ h. absurd (cc)) (λ j ne. (refl, sym (==_false j i ne))),
          refl,
        )

  -- A reference less; a locked inode keeps one.
  pub put_any :
      (l : ℕ → Bool)
      → IsAt r l w.cache
      → (l i ≡ true → 1 < r i)
      → Ensures (put i w) (λ _ w'. Leaves (minus r i) l w.mem w')
  unfolding put iput
  put_any l v more =
      let e : ((w.cache i).ref == 1 && ((w.cache i).valid && (w.cache i).copy.nlink == 0)) ≡ false =
        spared l v more in
      rw (Ensures, put, iput, e)
        (
          IsAt-update r (minus r i) l l w.cache i (record (w.cache i) { ref = (w.cache i).ref - 1 })
              v
              (
                ap (λ (n : ℕ). n - 1) (v.refs i) ∙ sym (update_self r i (r i - 1)),
                v.busy i,
                v.valid i,
              )
              (λ h. rw (update_self r i (r i - 1)) (omega (arith, more h)))
              (λ j ne. (update_ne r i j (r i - 1) ne, refl)),
          refl,
        )
    where
      spared :
          (l : ℕ → Bool)
          → IsAt r l w.cache
          → (l i ≡ true → 1 < r i)
          → ((w.cache i).ref == 1 && ((w.cache i).valid && (w.cache i).copy.nlink == 0)) ≡ false
      spared l v more = elim (Bool-cases (l i)) [
        | inl e ↦ let a = more e in ground (arith, v.refs i, a)
        | inr e ↦ let a : (w.cache i).valid ≡ false = v.valid i ∙ e in ground (arith, a)
      ]

  pub put_lem :
      IsAt r no_lock w.cache → Ensures (put i w) (λ _ w'. Leaves (minus r i) no_lock w.mem w')
  put_lem v = put_any no_lock v (λ h. absurd (cc))

-- One more reference to the inode that was found, if any.
abbrev pub with_found : (ℕ → ℕ) → Option (ℕ × ℕ) → ℕ → ℕ
with_found r none = r
with_found r (some (j, _)) = plus r j

pub with_copy-IsAt :
    (r : ℕ → ℕ) (l : ℕ → Bool) (c : Icache) (i : ℕ) (dp : Dinode)
    → IsAt r l c
    → IsAt r l (with_copy i dp c)
with_copy-IsAt r l c i dp v =
    IsAt-update r r l l c i (record (c i) { copy = dp }) v (v.refs i, v.busy i, v.valid i)
      (v.live i) (λ j ne. (refl, refl))

pub lookup_lem :
    (has_read : ℕ → Bool) (name de i : ℕ) (r : ℕ → ℕ) (w : World)
    → IsAt r (only i) w.cache
    → Ensures (lookup has_read name de i w) (λ f w'. Leaves (with_found r f) (only i) w.mem w')
unfolding lookup
lookup_lem has_read name de i r w v =
    let dp = (w.cache i).copy in
    go (dirlookup has_read (dp.size + 1) (w.cache i).dev name de dp w.cache w.disk w.mem)
      (dirlookup-IsLookup has_read (w.cache i).dev name de dp w.cache w.disk w.mem)
  where
    go :
        (x : Lookup)
        → IsLookup (w.cache i).dev w.cache x
        → Ensures (looked i w x) (λ f w'. Leaves (with_found r f) (only i) w.mem w')
    go unfinished h = h
    go halted h = tt
    go (unresolved dp d) h = (with_copy-IsAt r (only i) w.cache i dp v, refl)
    go (resolved j off c dp d) (inum, e) = (
      with_copy-IsAt (plus r j) (only i) c i dp
          (iget-IsAt r (only i) w v (w.cache i).dev inum j c e),
      refl,
    )

pub unlock_put_lem :
    (r : ℕ → ℕ) (w : World) (i : ℕ)
    → IsAt r (only i) w.cache
    → 0 < r i
    → Ensures (unlock_put i w) (λ _ w'. Leaves (minus r i) no_lock w.mem w')
unfolding unlock_put
unlock_put_lem r w i v pos =
    ensures_then (unlock i w) (λ _. put i) (λ _ w1. Leaves r no_lock w.mem w1)
      (λ _ w'. Leaves (minus r i) no_lock w.mem w') (unlock_lem r w i v pos)
      (λ a w1 h.
        subst (λ (m : Memory). Ensures (put i w1) (λ _ w'. Leaves (minus r i) no_lock m w')) h.1
          (put_lem r w1 i h.0))
