-- ===== src/Directory/Elements.antt =====
-- `skipelem`: the first element of a path.
use rain_os.Common.{
  ℕ, zero, suc, ◌+◌, ◌-◌, ◌≤◌, ◌<◌, ◌≡◌, ◌⊎◌, inl, inr, refl, ap, ◌∙◌, subst, arith, Bool, true,
  false, some, Bool-cases, ◌==◌, leb, if◌then◌else◌, update, update_self, update_ne,
}
use native.Mathlib.Decide.{ℕ_discrete}
use rain_os.String.{Memory, memmove}
use rain_os.String.Moves.{memmove_lem}
use rain_os.Directory.{dirsiz, skip_while, is_slash, in_name, skipelem}

-- Every byte from `p` to before `q` passes the test.
abbrev pub AllIn : (ℕ → Bool) → Memory → (p q : ℕ) → Type 0
AllIn test m p q = (a : ℕ) → p ≤ a → a < q → test (m a) ≡ true

skip_while_lem :
    (test : ℕ → Bool) (fuel p n : ℕ) (m : Memory)
    → test (m (p + n)) ≡ false
    → n < fuel
    → (q : ℕ) × (skip_while test fuel p m ≡ some q)
      × (p ≤ q)
      × (q ≤ p + n)
      × AllIn test m p q
      × (test (m q) ≡ false)
unfolding skip_while
skip_while_lem test zero p n m h lt = absurd (omega arith)
skip_while_lem test (suc fuel) p n m h lt = elim (Bool-cases (test (m p))) [
  | inr e ↦ (p, rw e refl, omega arith, omega arith, λ a lo hi. absurd (omega arith), e)
  | inl e ↦ elim (ℕ_discrete n 0) [
    | yes z ↦
        absurd (let t : test (m p) ≡ false = ap (λ (a : ℕ). test (m a)) (omega arith) ∙ h in cc)
    | no z ↦
        let (q, r, lo, hi, each, stop) =
          skip_while_lem test fuel (p + 1) (n - 1) m (ap (λ (a : ℕ). test (m a)) (omega arith) ∙ h)
            (omega arith) in
        (
          q,
          rw e r,
          omega arith,
          omega arith,
          λ a from to. elim (ℕ_discrete a p) [ yes z ↦ rw z e | no z ↦ each a (omega arith) to ],
          stop,
        )
  ]
]

-- The path at `p`, which ends with a zero at `p + n`, has the element from `s` to before `e`, between
-- slashes, and goes on at `q`; the element is in `m'` at `name`, cut off at 14 bytes or ended by a
-- zero, and the rest of the memory is as in `m`.
pub record IsElement (p n name : ℕ) (m : Memory) (s e q : ℕ) (m' : Memory) : Type 0 where
  pub before : (p ≤ s) × AllIn is_slash m p s
  pub inside : (s < e) × AllIn in_name m s e
  pub after : (e ≤ q) × (q ≤ p + n) × AllIn is_slash m e q
  pub stop : (in_name (m e) ≡ false) × (is_slash (m q) ≡ false)
  pub copied : (k : ℕ) → k < e - s → k < dirsiz → m' (name + k) ≡ m (s + k)
  pub ends : e - s < dirsiz → m' (name + (e - s)) ≡ 0
  pub outside : (a : ℕ) → (a < name) ⊎ (name + dirsiz ≤ a) → m' a ≡ m a

-- The path has only slashes left.
pub record IsNoElement (p n : ℕ) (m : Memory) (s : ℕ) : Type 0 where
  pub bounds : (p ≤ s) × (s ≤ p + n)
  pub slashes : AllIn is_slash m p s
  pub end : m s ≡ 0

-- The memory once `skipelem` has copied the element.
named : (name s len : ℕ) → Memory → Memory
named name s len m =
    if leb dirsiz len then memmove name s dirsiz m else update (memmove name s len m) (name + len) 0

named_lem :
    (name s len : ℕ) (m : Memory)
    → ((k : ℕ) → k < len → k < dirsiz → named name s len m (name + k) ≡ m (s + k))
      × (len < dirsiz → named name s len m (name + len) ≡ 0)
      × ((a : ℕ) → (a < name) ⊎ (name + dirsiz ≤ a) → named name s len m a ≡ m a)
unfolding named
named_lem name s len m = elim (Bool-cases (leb dirsiz len)) [
  | inl e ↦
      let r = memmove_lem name s dirsiz m in
      rw e (λ k lt cut. r.inside k cut, λ short. absurd (ground (arith, e)), λ a o. r.outside a o)
  | inr e ↦
      let r = memmove_lem name s len m in
      let f = memmove name s len m in
      rw e (
        λ k lt cut.
            update_ne f (name + len) (name + k) 0 (λ q. absurd (omega arith)) ∙ r.inside k lt,
        λ short. update_self f (name + len) 0,
        λ a o.
            update_ne f (name + len) a 0 (λ q. absurd (ground (arith, e)))
            ∙ r.outside a (ground (arith, e)),
      )
]

skipelem-eq :
    (fuel p name s e q : ℕ) (m m' : Memory)
    → skip_while is_slash fuel p m ≡ some s
    → (m s == 0) ≡ false
    → skip_while in_name fuel s m ≡ some e
    → named name s (e - s) m ≡ m'
    → skip_while is_slash fuel e m' ≡ some q
    → skipelem fuel p name m ≡ some (q, m')
unfolding named skipelem
skipelem-eq fuel p name s e q m m' r1 t r2 k r3 =
    rw (skipelem, r1, t, r2, k, r3) (ap (λ (u : Memory). some (q, u)) k)

later : (p s e q : ℕ) → p ≤ s → s < e → e ≤ q → p ≤ q
later p s e q a b c = omega arith

rejoin : (p n e q : ℕ) → e ≤ p + n → q ≤ e + (p + n - e) → q ≤ p + n
rejoin p n e q a b = omega arith

same_byte : (m : Memory) (s e : ℕ) → s ≡ e → m s ≡ m e
same_byte m s e h = ap m h

-- `skipelem` on a path that ends with a zero after `n` bytes and does not overlap with the buffer for
-- the name. If the path has only slashes it returns the null pointer and copies nothing. Otherwise it
-- copies the first element and returns the pointer behind the slashes after it, which is further on
-- in the path. More fuel than `n` is enough.
pub skipelem_lem :
    (fuel p n name : ℕ) (m : Memory)
    → m (p + n) ≡ 0
    → n < fuel
    → (p + n < name) ⊎ (name + dirsiz ≤ p)
    → ((s : ℕ) × (skipelem fuel p name m ≡ some (0, m)) × IsNoElement p n m s)
      ⊎ ((s e q : ℕ) × (m' : Memory) × (skipelem fuel p name m ≡ some (q, m'))
          × IsElement p n name m s e q m')
unfolding skipelem
skipelem_lem fuel p n name m z lt far =
    let (s, r1, ps, sn, slashes, stop) = skip_while_lem is_slash fuel p n m (rw z refl) lt in
    elim (Bool-cases (m s == 0)) [
      | inl t ↦ inl (
        s,
        rw (skipelem, r1, t) refl,
        record { bounds = (ps, sn); slashes = slashes; end = ground (arith, t) },
      )
      | inr t ↦
          let (e, r2, se, en, each, stop2) =
            skip_while_lem in_name fuel s (p + n - s) m (rw (at s sn, z) refl) (omega arith) in
          let lt' : s < e = ground (arith, stop, t, stop2, same_byte m s e) in
          let ep = rejoin p n s e sn en in
          let pe = later p s e e ps lt' (omega arith) in
          let c = named_lem name s (e - s) m in
          let m' = named name s (e - s) m in
          let kept = λ (a : ℕ) (lo : p ≤ a) (hi : a ≤ p + n). c.2 a (away a lo hi) in
          let (q, r3, eq, qn, rest, stop3) =
            skip_while_lem is_slash fuel e (p + n - e) m'
              (rw (at e ep) (ap is_slash (kept (p + n) (at_end p n) (same p n) ∙ z))) (less e pe) in
          let qp = rejoin p n e q ep qn in
          inr (
            s,
            e,
            q,
            m',
            skipelem-eq fuel p name s e q m m' r1 t r2 refl r3,
            record {
              before = (ps, slashes);
              inside = (lt', each);
              after = (
                eq,
                qp,
                λ a lo hi.
                    moved m m' a true (kept a (later p s e a ps lt' lo) (until a q hi qp))
                      (rest a lo hi),
              );
              stop = (stop2, moved m m' q false (kept q (later p s e q ps lt' eq) qp) stop3);
              copied = c.0;
              ends = c.1;
              outside = c.2;
            },
          )
    ]
  where
    moved :
        (m m' : Memory) (a : ℕ) (b : Bool) → m' a ≡ m a → is_slash (m' a) ≡ b → is_slash (m a) ≡ b
    moved m m' a b e h = subst (λ (c : ℕ). is_slash c ≡ b) e h

    at : (b : ℕ) → b ≤ p + n → b + (p + n - b) ≡ p + n
    at b h = omega arith

    away : (a : ℕ) → p ≤ a → a ≤ p + n → (a < name) ⊎ (name + dirsiz ≤ a)
    away a lo hi = omega arith

    less : (e : ℕ) → p ≤ e → p + n - e < fuel
    less e h = omega arith

    at_end : (a b : ℕ) → a ≤ a + b
    at_end a b = omega arith

    same : (a b : ℕ) → a + b ≤ a + b
    same a b = omega arith

    until : (a q : ℕ) → a < q → q ≤ p + n → a ≤ p + n
    until a q h k = omega arith
