-- ===== src/Shell/Parsing.antt =====
-- The parser ends, at most at the line's end, with a command of words of the line.
use rain_os.Common.{
  ℕ, zero, suc, ◌+◌, ◌-◌, ◌*◌, ◌≤◌, ◌<◌, ◌≡◌, ◌≢◌, ◌⊎◌, inl, inr, refl, sym, ◌∙◌, ap, subst, arith,
  true, false, Bool-cases, ◌==◌, ==_false, some, [],
}
use rain_os.String.{Memory}
use rain_os.Shell.{
  exec_cmd, pipe_cmd, list_cmd, Parsed, parsed, syntax, lost, next_to, gettoken, peek, right_side,
  close_block, parseredirs, parse_args, parse_back, parseline, parsepipe, parseexec, parseblock,
  Command, command, rejected, unfinished, finish, parse_between, parsecmd,
}
use rain_os.Ulib.{length_from}
use native.Mathlib.Decide.{ℕ_discrete}
use rain_os.Shell.Tokens.{IsLine, gettoken_lem, peek_lem}
use rain_os.Shell.Shape.{IsWithin, Ends, Ends-le, Ends-next_to, nulterminate-outside}
use rain_os.Shell.Loops.{redirs_lem, args_lem, back_lem, right_lem, close_lem}

module _ (lo es : ℕ) (m : Memory) (l : IsLine es m) where
  -- Enough fuel for each of the recursive functions.
  abbrev Enough : (parse : ℕ → ℕ → ℕ → Memory → Parsed) (extra f : ℕ) → Type 0
  Enough parse extra f =
      (s : ℕ) → lo ≤ s → s ≤ es → 4 * (es - s) + extra < f → Ends lo es s (parse f es s m)

  line_step : (f : ℕ) → Enough parsepipe 2 f → Enough parseline 3 f → Enough parseline 3 (suc f)
  unfolding parseline
  line_step f pipe line s a b lt =
      Ends-next_to lo es s (parsepipe f es s m)
        (λ c s1.
          next_to (parse_back f es c s1 m)
            (λ c' s2. right_side b';' list_cmd (λ t. parseline f es t m) es c' s2 m))
        (pipe s a b (omega (arith, lt)))
        (λ c s1 le up h.
          Ends-next_to lo es s1 (parse_back f es c s1 m)
            (λ c' s2. right_side b';' list_cmd (λ t. parseline f es t m) es c' s2 m)
            (back_lem lo es m l f c s1 (omega arith) up (omega (arith, lt)) h)
            (λ c' s2 le2 up2 h2.
              right_lem lo es m l b';' list_cmd (λ t. parseline f es t m) c' s2 (omega arith) up2 h2
                (λ d hd. (h2, hd))
                (λ t after inside. line t (omega arith) inside (omega (arith, lt)))))

  pipe_step : (f : ℕ) → Enough parseexec 1 f → Enough parsepipe 2 f → Enough parsepipe 2 (suc f)
  unfolding parsepipe
  pipe_step f exec pipe s a b lt =
      Ends-next_to lo es s (parseexec f es s m)
        (λ c s1. right_side b'|' pipe_cmd (λ t. parsepipe f es t m) es c s1 m)
        (exec s a b (omega (arith, lt)))
        (λ c s1 le up h.
          right_lem lo es m l b'|' pipe_cmd (λ t. parsepipe f es t m) c s1 (omega arith) up h
            (λ d hd. (h, hd)) (λ t after inside. pipe t (omega arith) inside (omega (arith, lt))))

  exec_step : (f : ℕ) → Enough parseblock 0 f → Enough parseexec 1 (suc f)
  unfolding parseexec
  exec_step f block s a b lt =
      let p = peek_lem (λ x. x == b'(') es s m l b in
      let s1 = (peek (λ x. x == b'(') es s m).0 in
      elim (Bool-cases (peek (λ x. x == b'(') es s m).1) [
        | inl y ↦ rw y (
            Ends-le lo es s s1 (parseblock f es s1 m) p.start
              (block s1 (omega (arith, p.start)) p.inside (omega (arith, lt, p.start))))
        | inr n ↦ rw n (
            Ends-le lo es s s1
              (next_to (parseredirs f es (exec_cmd []) s1 m)
                (λ ret s2. parse_args f es [] ret s2 m))
              p.start
              (Ends-next_to lo es s1 (parseredirs f es (exec_cmd []) s1 m)
                (λ ret s2. parse_args f es [] ret s2 m)
                (redirs_lem lo es m l f (exec_cmd []) s1 (omega (arith, p.start)) p.inside
                  (omega (arith, lt, p.start)) tt)
                (λ ret s2 le up h.
                  args_lem lo es m l f [] ret s2 (omega (arith, p.start)) up
                    (omega (arith, lt, p.start)) tt h)))
      ]

  block_step : (f : ℕ) → Enough parseline 3 f → Enough parseblock 0 (suc f)
  unfolding parseblock
  block_step f line s a b lt =
      let p = peek_lem (λ x. x == b'(') es s m l b in
      let s1 = (peek (λ x. x == b'(') es s m).0 in
      let t = gettoken_lem es s1 m l p.inside in
      let tok = gettoken es s1 m in
      elim (Bool-cases (peek (λ x. x == b'(') es s m).1) [
        | inr n ↦ rw n tt
        | inl y ↦
            let on : s < tok.next = omega (arith, p.start, p.consumed y) in
            rw y (
              Ends-le lo es s tok.next
                (next_to (parseline f es tok.next m) (λ c s2. close_block f es c s2 m))
                (omega (arith, on))
                (Ends-next_to lo es tok.next (parseline f es tok.next m)
                  (λ c s2. close_block f es c s2 m)
                  (line tok.next (omega (arith, on)) t.inside (omega (arith, on, lt, t.inside)))
                  (λ c s2 le up h.
                    close_lem lo es m l f c s2 (omega (arith, on)) up (omega (arith, on, le, lt))
                      h)))
      ]

  all_lem :
      (f : ℕ)
      → Enough parseline 3 f × Enough parsepipe 2 f × Enough parseexec 1 f × Enough parseblock 0 f
  all_lem zero = (
    λ s a b lt. absurd (omega arith),
    λ s a b lt. absurd (omega arith),
    λ s a b lt. absurd (omega arith),
    λ s a b lt. absurd (omega arith),
  )
  all_lem (suc f) =
      let (line, pipe, exec, block) = all_lem f in
      (line_step f pipe line, pipe_step f exec pipe, exec_step f block, block_step f line)

-- The string at `s` has `n` bytes before its NUL.
pub record IsString (s n : ℕ) (m : Memory) : Type 0 where
  pub bytes : (j : ℕ) → j < n → m (s + j) ≢ 0
  pub ended : m (s + n) ≡ 0

strlen_lem :
    (fuel s n i : ℕ) (m : Memory)
    → IsString s n m
    → i ≤ n
    → n - i < fuel
    → length_from fuel s i m ≡ some n
unfolding length_from
strlen_lem zero s n i m h le lt = absurd (omega arith)
strlen_lem (suc fuel) s n i m h le lt = elim (ℕ_discrete i n) [
  | yes e ↦
      let z : (m (s + i) == 0) ≡ true =
        let w = ap (λ (x : ℕ). m (s + x)) e ∙ h.ended in ground (arith, w) in
      rw z (ap some e)
  | no ne ↦
      rw (==_false (m (s + i)) 0 (h.bytes i (omega (arith, ne))))
        (strlen_lem fuel s n (i + 1) m h (omega (arith, ne)) (omega (arith, ne)))
]

-- The two ends of a parse: a syntax error, or a command in the line and what is left of the memory.
abbrev pub IsCommand : (s n : ℕ) (m : Memory) → Command → Type 0
IsCommand s n m unfinished = ⊥
IsCommand s n m rejected = Unit
IsCommand s n m (command c m') =
    IsWithin s (s + n) c × ((a : ℕ) → (a ≤ s) ⊎ (s + n < a) → m' a ≡ m a)

finish_lem :
    (s n : ℕ) (m : Memory) (p : Parsed) → Ends s (s + n) s p → IsCommand s n m (finish (s + n) p m)
unfolding finish
finish_lem s n m lost h = h
finish_lem s n m syntax h = tt
finish_lem s n m (parsed c s1) h = elim (Bool-cases ((peek (λ x. false) (s + n) s1 m).0 == s + n)) [
  | inl t ↦ rw t (h.2, λ a o. nulterminate-outside s (s + n) c m a h.2 o)
  | inr t ↦ rw t tt
]

-- `parsecmd` of a line of `n` bytes. With fuel for `4 * n + 4` nested calls it never runs out: it
-- reports a syntax error, or returns a command all of whose words are not empty and lie between the
-- line's start and its NUL. Only bytes of the line behind its first one are overwritten.
pub parsecmd_lem :
    (fuel s n : ℕ) (m : Memory)
    → IsString s n m
    → 4 * n + 3 < fuel
    → IsCommand s n m (parsecmd fuel s m)
unfolding parsecmd parse_between
parsecmd_lem fuel s n m h lt =
    let e : parsecmd fuel s m ≡ finish (s + n) (parseline fuel (s + n) s m) m =
      rw (parsecmd, strlen_lem fuel s n 0 m h (omega arith) (omega arith)) refl in
    subst (IsCommand s n m) (sym e) (
      finish_lem s n m (parseline fuel (s + n) s m) (
        (all_lem s (s + n) m (record { ended = h.ended }) fuel).0 s (omega arith) (omega arith)
          (omega arith)))
