-- ===== src/Shell/Loops.antt =====
-- The parser's loops, and the ends of its recursive functions.
use rain_os.Common.{
  ℕ, zero, suc, ◌-◌, ◌≤◌, ◌<◌, inl, inr, arith, Bool-cases, ◌==◌, ◌||◌, leb, length, List, [], ◌∷◌,
  ◌++◌,
}
use rain_os.String.{Memory}
use rain_os.Shell.{
  Cmd, back_cmd, Parsed, parsed, next_to, redirect, gettoken, peek, max_args, right_side,
  close_block, parseredirs, parse_args, parse_back,
}
use rain_os.Shell.Tokens.{IsLine, gettoken_lem, peek_lem}
use rain_os.Shell.Shape.{
  IsWord, AreWords, AreWords-append, IsWithin, redirect-IsWithin, with_args-IsWithin, Ends, Ends-le,
  Ends-next_to,
}

module _ (lo es : ℕ) (m : Memory) (l : IsLine es m) where
  pub redirs_lem :
      (f : ℕ) (c : Cmd) (s : ℕ)
      → lo ≤ s
      → s ≤ es
      → es - s < f
      → IsWithin lo es c
      → Ends lo es s (parseredirs f es c s m)
  unfolding parseredirs
  redirs_lem zero c s a b lt h = absurd (omega arith)
  redirs_lem (suc f) c s a b lt h =
      let p = peek_lem (λ x. x == b'<' || x == b'>') es s m l b in
      let s1 = (peek (λ x. x == b'<' || x == b'>') es s m).0 in
      let t = gettoken_lem es s1 m l p.inside in
      let tok = gettoken es s1 m in
      let u = gettoken_lem es tok.next m l t.inside in
      let file = gettoken es tok.next m in
      elim (Bool-cases (peek (λ x. x == b'<' || x == b'>') es s m).1) [
        | inr n ↦ rw n (p.start, p.inside, h)
        | inl y ↦ elim (Bool-cases (file.kind == b'a')) [
          | inr n ↦ rw (y, n) tt
          | inl w ↦
              let go = p.consumed y in
              let word : IsWord lo es file.q file.eq = (
                omega (arith, p.start, u.start, go),
                u.not_empty (λ z. ground (arith, w, z)),
                omega (arith, u.follow, u.inside),
              ) in
              rw (y, w)
                (Ends-le lo es s file.next
                  (parseredirs f es (redirect tok.kind c file.q file.eq) file.next m)
                  (omega (arith, p.start, go, u.start, u.order, u.follow))
                  (redirs_lem f (redirect tok.kind c file.q file.eq) file.next
                    (omega (arith, p.start, go, u.start, u.order, u.follow)) u.inside
                    (omega (arith, p.start, go, u.start, u.order, u.follow, u.inside))
                    (redirect-IsWithin lo es tok.kind c file.q file.eq h word)))
        ]
      ]

  pub args_lem :
      (f : ℕ) (args : List (ℕ × ℕ)) (c : Cmd) (s : ℕ)
      → lo ≤ s
      → s ≤ es
      → es - s < f
      → AreWords lo es args
      → IsWithin lo es c
      → Ends lo es s (parse_args f es args c s m)
  unfolding parse_args
  args_lem zero args c s a b lt ws h = absurd (omega arith)
  args_lem (suc f) args c s a b lt ws h =
      let stops = λ (x : ℕ). x == b'|' || (x == b')' || (x == b'&' || x == b';')) in
      let p = peek_lem stops es s m l b in
      let s1 = (peek stops es s m).0 in
      let t = gettoken_lem es s1 m l p.inside in
      let tok = gettoken es s1 m in
      let ended = with_args-IsWithin lo es args c ws h in
      elim (Bool-cases (peek stops es s m).1) [
        | inl y ↦ rw y (p.start, p.inside, ended)
        | inr n ↦ elim (Bool-cases (tok.kind == 0)) [
          | inl z ↦ rw (n, z) (omega (arith, p.start, t.start, t.order, t.follow), t.inside, ended)
          | inr z ↦ elim (Bool-cases (tok.kind == b'a')) [
            | inr w ↦ rw (n, z, w) tt
            | inl w ↦ elim (Bool-cases (leb max_args (length (args ++ ((tok.q, tok.eq) ∷ []))))) [
              | inl v ↦ rw (n, z, w, v) tt
              | inr v ↦
                  let filled = t.not_empty (λ e. ground (arith, z, e)) in
                  let word : IsWord lo es tok.q tok.eq =
                    (omega (arith, p.start, t.start), filled, omega (arith, t.follow, t.inside)) in
                  let on : s < tok.next = omega (arith, p.start, t.start, filled, t.follow) in
                  rw (n, z, w, v)
                    (Ends-le lo es s tok.next
                      (next_to (parseredirs f es c tok.next m)
                        (λ ret s2. parse_args f es (args ++ ((tok.q, tok.eq) ∷ [])) ret s2 m))
                      (omega (arith, on))
                      (Ends-next_to lo es tok.next (parseredirs f es c tok.next m)
                        (λ ret s2. parse_args f es (args ++ ((tok.q, tok.eq) ∷ [])) ret s2 m)
                        (redirs_lem f c tok.next (omega (arith, on)) t.inside
                          (omega (arith, on, t.inside)) h)
                        (λ ret s2 le up h2.
                          args_lem f (args ++ ((tok.q, tok.eq) ∷ [])) ret s2 (omega (arith, on)) up
                            (omega (arith, on, le))
                            (AreWords-append lo es args tok.q tok.eq ws word) h2)))
            ]
          ]
        ]
      ]

  pub back_lem :
      (f : ℕ) (c : Cmd) (s : ℕ)
      → lo ≤ s
      → s ≤ es
      → es - s < f
      → IsWithin lo es c
      → Ends lo es s (parse_back f es c s m)
  unfolding parse_back
  back_lem zero c s a b lt h = absurd (omega arith)
  back_lem (suc f) c s a b lt h =
      let p = peek_lem (λ x. x == b'&') es s m l b in
      let s1 = (peek (λ x. x == b'&') es s m).0 in
      let t = gettoken_lem es s1 m l p.inside in
      let tok = gettoken es s1 m in
      elim (Bool-cases (peek (λ x. x == b'&') es s m).1) [
        | inr n ↦ rw n (p.start, p.inside, h)
        | inl y ↦
            let on = p.consumed y in
            rw y (
              Ends-le lo es s tok.next (parse_back f es (back_cmd c) tok.next m)
                (omega (arith, p.start, on))
                (back_lem f (back_cmd c) tok.next (omega (arith, p.start, on)) t.inside
                  (omega (arith, p.start, on, t.inside)) h))
      ]

  pub right_lem :
      (separator : ℕ) (join : Cmd → Cmd → Cmd) (again : ℕ → Parsed) (c : Cmd) (s : ℕ)
      → lo ≤ s
      → s ≤ es
      → IsWithin lo es c
      → ((d : Cmd) → IsWithin lo es d → IsWithin lo es (join c d))
      → ((t : ℕ) → s < t → t ≤ es → Ends lo es t (again t))
      → Ends lo es s (right_side separator join again es c s m)
  unfolding right_side
  right_lem separator join again c s a b h both ih =
      let p = peek_lem (λ x. x == separator) es s m l b in
      let s1 = (peek (λ x. x == separator) es s m).0 in
      let t = gettoken_lem es s1 m l p.inside in
      let tok = gettoken es s1 m in
      elim (Bool-cases (peek (λ x. x == separator) es s m).1) [
        | inr n ↦ rw n (p.start, p.inside, h)
        | inl y ↦
            let on : s < tok.next = omega (arith, p.start, p.consumed y) in
            rw y (
              Ends-le lo es s tok.next (next_to (again tok.next) (λ d s2. parsed (join c d) s2))
                (omega (arith, on))
                (Ends-next_to lo es tok.next (again tok.next) (λ d s2. parsed (join c d) s2)
                  (ih tok.next on t.inside) (λ d s2 le up hd. (omega arith, up, both d hd))))
      ]

  pub close_lem :
      (f : ℕ) (c : Cmd) (s : ℕ)
      → lo ≤ s
      → s ≤ es
      → es - s < f
      → IsWithin lo es c
      → Ends lo es s (close_block f es c s m)
  unfolding close_block
  close_lem f c s a b lt h =
      let p = peek_lem (λ x. x == b')') es s m l b in
      let s1 = (peek (λ x. x == b')') es s m).0 in
      let t = gettoken_lem es s1 m l p.inside in
      let tok = gettoken es s1 m in
      elim (Bool-cases (peek (λ x. x == b')') es s m).1) [
        | inr n ↦ rw n tt
        | inl y ↦
            let on : s < tok.next = omega (arith, p.start, p.consumed y) in
            rw y (
              Ends-le lo es s tok.next (parseredirs f es c tok.next m) (omega (arith, on)) (
                redirs_lem f c tok.next (omega (arith, on)) t.inside (omega (arith, on, t.inside))
                  h))
      ]
