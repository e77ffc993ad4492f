-- ===== src/Path/Loop.antt =====
-- The loop of `namex` over the elements of a path.
use rain_os.Common.{
  ℕ, zero, suc, ◌+◌, ◌-◌, ◌≤◌, ◌<◌, ◌≡◌, ◌⊎◌, inl, inr, refl, sym, subst, ap, ◌∙◌, arith, Bool,
  true, false, ◌&&◌, Bool-cases, Option, none, some, ◌==◌, if◌then◌else◌,
}
use rain_os.String.{Memory}
use rain_os.Directory.{t_dir, dirsiz}
use rain_os.Directory.Elements.{skipelem_lem}
use rain_os.Path.{
  World, Action, ◌>>◌, pure, lock, unlock, put, unlock_put, next_elem, lookup, ended, descend,
  examine, enter, walk,
}
use rain_os.Path.Ensures.{
  Ensures, ensures_then, IsAt, IsAt-same, no_lock, only, plus, minus, Leaves,
}
use rain_os.Path.Refs.{lock_lem, unlock_lem, put_lem, with_found, lookup_lem, unlock_put_lem}

-- The references with one more to the inode that is returned.
abbrev pub kept : (ℕ → ℕ) → Option ℕ → ℕ → ℕ
kept r none = r
kept r (some j) = plus r j

-- The memory outside of the name's buffer.
abbrev pub IsOutside : (name : ℕ) → Memory → Memory → Type 0
IsOutside name m m' = (a : ℕ) → (a < name) ⊎ (name + dirsiz ≤ a) → m' a ≡ m a

abbrev pub Walked : (r : ℕ → ℕ) (name : ℕ) (m : Memory) → Option ℕ → World → Type 0
Walked r name m f w = IsAt (kept r f) no_lock w.cache × IsOutside name m w.mem

next_elem_lem :
    (fuel p n name : ℕ) (w : World)
    → w.mem (p + n) ≡ 0
    → n < fuel
    → (p + n < name) ⊎ (name + dirsiz ≤ p)
    → Ensures (next_elem fuel p name w) (λ q w1.
      (w1.cache ≡ w.cache) × IsOutside name w.mem w1.mem × ((q ≡ 0) ⊎ ((p < q) × (q ≤ p + n))))
unfolding next_elem
next_elem_lem fuel p n name w z lt far = elim (skipelem_lem fuel p n name w.mem z lt far) [
  | inl (s, e, v) ↦ rw (Ensures, next_elem, e) (refl, λ a o. refl, inl refl)
  | inr (s, e, q, m', r, v) ↦
      rw (Ensures, next_elem, r)
        (refl, v.outside, inr (omega (arith, v.before.0, v.inside.0, v.after.0), v.after.1))
]

pub minus-plus : (r : ℕ → ℕ) (i j : ℕ) → minus (plus r i) i j ≡ r j
minus-plus r i j = ground arith

minus-plus-plus : (r : ℕ → ℕ) (i k j : ℕ) → minus (plus (plus r i) k) i j ≡ plus r k j
minus-plus-plus r i k j = ground arith

with_found-pos : (r : ℕ → ℕ) (i : ℕ) (f : Option (ℕ × ℕ)) → 0 < with_found (plus r i) f i
with_found-pos r i none = ground arith
with_found-pos r i (some (j, _)) = ground arith

pub further : (p q e : ℕ) → (q == 0) ≡ false → (q ≡ 0) ⊎ ((p < q) × (q ≤ e)) → (p < q) × (q ≤ e)
further p q e h (inl z) = absurd (ground (arith, h))
further p q e h (inr k) = k

pub rejoined : (q n p : ℕ) → q ≤ p + n → q + (p + n - q) ≡ p + n
rejoined q n p h = omega arith

module _ (has_read : ℕ → Bool) (r : ℕ → ℕ) (name : ℕ) (m : Memory) where
  abbrev Goes : (ℕ → Action (Option ℕ)) → Type 0
  Goes rest =
      (j : ℕ) (w : World)
      → IsAt (plus r j) no_lock w.cache
      → IsOutside name m w.mem
      → Ensures (rest j w) (Walked r name m)

  IsOutside-same : (m1 m2 : Memory) → m2 ≡ m1 → IsOutside name m m1 → IsOutside name m m2
  IsOutside-same m1 m2 e o = subst (IsOutside name m) (sym e) o

  ended_lem :
      (parent : Bool) (ip : ℕ) (w : World)
      → IsAt (plus r ip) no_lock w.cache
      → IsOutside name m w.mem
      → Ensures (ended has_read parent ip w) (Walked r name m)
  unfolding ended
  ended_lem false ip w v o = (v, o)
  ended_lem true ip w v o =
      ensures_then (put ip w) (λ _. pure none)
        (λ _ w1. Leaves (minus (plus r ip) ip) no_lock w.mem w1) (Walked r name m)
        (put_lem (plus r ip) w ip v)
        (λ a w1 h. (
          IsAt-same (minus (plus r ip) ip) r no_lock w1.cache (minus-plus r ip) h.0,
          IsOutside-same w.mem w1.mem h.1 o,
        ))

  module _ (rest : ℕ → Action (Option ℕ)) (go : Goes rest) where
    descend_lem :
        (de ip : ℕ) (w : World)
        → IsAt (plus r ip) (only ip) w.cache
        → IsOutside name m w.mem
        → Ensures (descend has_read rest name de ip w) (Walked r name m)
    unfolding descend
    descend_lem de ip w v o =
        ensures_then (lookup has_read name de ip w) (λ f. unlock_put ip >> on f)
          (λ f w1. Leaves (with_found (plus r ip) f) (only ip) w.mem w1) (Walked r name m)
          (lookup_lem has_read name de ip (plus r ip) w v)
          (λ f w1 h.
            ensures_then (unlock_put ip w1) (λ _. on f)
              (λ _ w2. Leaves (minus (with_found (plus r ip) f) ip) no_lock w1.mem w2)
              (Walked r name m)
              (unlock_put_lem (with_found (plus r ip) f) w1 ip h.0 (with_found-pos r ip f))
              (λ _ w2 h2. finish f w2 h2.0 (IsOutside-same w.mem w2.mem (h2.1 ∙ h.1) o)))
      where
        on : Option (ℕ × ℕ) → Action (Option ℕ)
        on f = elim f [ none ↦ pure none | some (j, _) ↦ rest j ]

        finish :
            (f : Option (ℕ × ℕ)) (w2 : World)
            → IsAt (minus (with_found (plus r ip) f) ip) no_lock w2.cache
            → IsOutside name m w2.mem
            → Ensures (on f w2) (Walked r name m)
        finish none w2 h o2 =
            (IsAt-same (minus (plus r ip) ip) r no_lock w2.cache (minus-plus r ip) h, o2)
        finish (some (j, x)) w2 h o2 =
            go j w2
              (IsAt-same (minus (plus (plus r ip) j) ip) (plus r j) no_lock w2.cache
                (minus-plus-plus r ip j) h)
              o2

    examine_lem :
        (parent : Bool) (de q ip : ℕ) (w : World)
        → IsAt (plus r ip) (only ip) w.cache
        → IsOutside name m w.mem
        → Ensures (examine has_read rest parent name de q ip w) (Walked r name m)
    unfolding examine
    examine_lem parent de q ip w v o =
        let pos : 0 < plus r ip ip = ground arith in
        elim (Bool-cases ((w.cache ip).copy.kind == t_dir)) [
          | inr e ↦
              rw (examine, e)
                (ensures_then (unlock_put ip w) (λ _. pure none)
                  (λ _ w1. Leaves (minus (plus r ip) ip) no_lock w.mem w1) (Walked r name m)
                  (unlock_put_lem (plus r ip) w ip v pos)
                  (λ _ w1 h. (
                    IsAt-same (minus (plus r ip) ip) r no_lock w1.cache (minus-plus r ip) h.0,
                    IsOutside-same w.mem w1.mem h.1 o,
                  )))
          | inl e ↦ elim (Bool-cases (parent && w.mem q == 0)) [
            | inl f ↦
                rw (examine, e, f)
                  (ensures_then (unlock ip w) (λ _. pure (some ip))
                    (λ _ w1. Leaves (plus r ip) no_lock w.mem w1) (Walked r name m)
                    (unlock_lem (plus r ip) w ip v pos)
                    (λ _ w1 h. (h.0, IsOutside-same w.mem w1.mem h.1 o)))
            | inr f ↦ rw (examine, e, f) (descend_lem de ip w v o)
          ]
        ]

    enter_lem :
        (parent : Bool) (de q ip : ℕ) (w : World)
        → IsAt (plus r ip) no_lock w.cache
        → IsOutside name m w.mem
        → Ensures (enter has_read rest parent name de q ip w) (Walked r name m)
    unfolding enter
    enter_lem parent de q ip w v o =
        ensures_then (lock ip w) (λ _. examine has_read rest parent name de q ip)
          (λ _ w1. Leaves (plus r ip) (only ip) w.mem w1) (Walked r name m)
          (lock_lem (plus r ip) w ip v (ground arith))
          (λ a w1 h. examine_lem parent de q ip w1 h.0 (IsOutside-same w.mem w1.mem h.1 o))

  -- The loop ends where the path does, since every element takes at least a byte.
  pub walk_lem :
      (fuel bound : ℕ) (parent : Bool) (de p n ip : ℕ) (w : World)
      → IsAt (plus r ip) no_lock w.cache
      → IsOutside name m w.mem
      → m (p + n) ≡ 0
      → (p + n < name) ⊎ (name + dirsiz ≤ p)
      → n < fuel
      → n < bound
      → Ensures (walk has_read fuel bound parent name de p ip w) (Walked r name m)
  unfolding walk
  walk_lem zero bound parent de p n ip w v o z far lf lb = absurd (omega arith)
  walk_lem (suc fuel) bound parent de p n ip w v o z far lf lb =
      ensures_then (next_elem bound p name w)
        (λ q.
          let rest = walk has_read fuel bound parent name de q in
          if q == 0 then ended has_read parent ip else enter has_read rest parent name de q ip)
        (λ q w1.
          (w1.cache ≡ w.cache) × IsOutside name w.mem w1.mem × ((q ≡ 0) ⊎ ((p < q) × (q ≤ p + n))))
        (Walked r name m) (next_elem_lem bound p n name w (o (p + n) (omega arith) ∙ z) lb far)
        (λ q w1 h.
          let v1 = subst (IsAt (plus r ip) no_lock) (sym (h.0)) v in
          let o1 = λ (a : ℕ) (k : (a < name) ⊎ (name + dirsiz ≤ a)). h.1 a k ∙ o a k in
          elim (Bool-cases (q == 0)) [
            | inl e ↦ rw e (ended_lem parent ip w1 v1 o1)
            | inr e ↦
                let (lt, le) = further p q (p + n) e (h.2) in
                let go : Goes (walk has_read fuel bound parent name de q) = λ j w2 v2 o2.
                  walk_lem fuel bound parent de q (p + n - q) j w2 v2 o2
                    (ap m (rejoined q n p le) ∙ z) (omega arith) (omega arith) (omega arith) in
                rw e
                  (enter_lem (walk has_read fuel bound parent name de q) go parent de q ip w1 v1 o1)
          ])
