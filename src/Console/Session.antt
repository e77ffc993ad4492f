-- ===== src/Console/Session.antt =====
-- Reading typed lines, and any order of typing and reading, on the two lists of Console/Typing.
use rain_os.Common.{
  ℕ, zero, suc, ◌%◌, ◌<◌, ◌≡◌, ◌≢◌, inl, inr, refl, sym, ◌∙◌, ap, ap₂, subst, Bool, true,
  Bool-cases, ◌==◌, ==_false, ltb, if◌then◌else◌, List, [], ◌∷◌, arith, All, add_word, sub_word,
}
use native.Mathlib.Decide.{ℕ_discrete}
use rain_os.Console.{
  Input, input_buf, newline, ctrl_d, consoleintr, Read, returned, interrupted, sleeping, after,
  read_from,
}
use rain_os.Console.Ring.{window, ready, edit, ready_count, IsValid}
use rain_os.Console.Edits.{Line, abstract}
use rain_os.Console.Typing.{type_keys, keys_lem}

-- What a read of `n` more of `target` bytes gets: all that there is up to a newline. A control-D
-- ends it, and stays for the next read if this one has bytes.
unfoldable pub take_line : (killed : Bool) (target n : ℕ) (chars : List ℕ) → Read (List ℕ)
take_line killed target zero cs = returned [] cs
take_line killed target (suc n) [] = if killed then interrupted [] [] else sleeping [] (suc n) []
take_line killed target (suc n) (c ∷ cs) =
    let rest = take_line killed target n cs in
    if c == ctrl_d
    then if ltb (suc n) target then returned [] (c ∷ cs) else returned [] cs
    else if c == newline
    then returned (c ∷ []) cs
    else after c rest

-- The input that a read leaves, and what it reports.
abbrev pub input_of : {S : Type 0} → Read S → S
input_of (returned xs s) = s
input_of (interrupted xs s) = s
input_of (sleeping xs n s) = s

abbrev pub with_input : {S T : Type 0} → (S → T) → Read S → Read T
with_input f (returned xs s) = returned xs (f s)
with_input f (interrupted xs s) = interrupted xs (f s)
with_input f (sleeping xs n s) = sleeping xs n (f s)

with_input-after :
    {S T : Type 0} (f : S → T) (x : ℕ) (o : Read S)
    → with_input f (after x o) ≡ after x (with_input f o)
with_input-after f x (returned xs s) = refl
with_input-after f x (interrupted xs s) = refl
with_input-after f x (sleeping xs n s) = refl

input_of-after : {S : Type 0} (x : ℕ) (o : Read S) → input_of (after x o) ≡ input_of o
input_of-after x (returned xs s) = refl
input_of-after x (interrupted xs s) = refl
input_of-after x (sleeping xs n s) = refl

-- One character is read.
module _ (s : Input) (v : IsValid s) (ne : s.r ≢ s.w) where
  abbrev advanced : Input
  advanced = record s { r = add_word s.r 1 }

  count-advanced : ready_count s ≡ suc (ready_count advanced)
  count-advanced = omega (arith, v.read_word, v.write_word)

  ready-advanced : ready s ≡ s.buf (s.r % input_buf) ∷ ready advanced
  ready-advanced = ap (window s.buf s.r) count-advanced

  advanced-IsValid : IsValid advanced
  advanced-IsValid = record {
    read_word = omega arith;
    write_word = v.write_word;
    edit_word = v.edit_word;
    fits = omega (arith, count-advanced, v.fits);
    one_line = v.one_line;
  }

abbrev pub Reads : ℕ → Input → Read Input → Read (List ℕ) → Type 0
Reads n s o l =
    IsValid (input_of o)
    × (with_input abstract o ≡ with_input (λ cs. record { ready = cs; edit = edit s }) l)

pub read_lem :
    (killed : Bool) (target n : ℕ) (s : Input)
    → IsValid s
    → Reads n s (read_from killed target n s) (take_line killed target n (ready s))
unfolding read_from take_line abstract
read_lem killed target zero s v = (v, refl)
read_lem killed target (suc n) s v = elim (ℕ_discrete s.r s.w) [
  | yes q ↦
      let none_left : ready_count s ≡ 0 = omega (arith, v.write_word) in
      let none_ready : ready s ≡ [] = ap (window s.buf s.r) none_left in
      let t : (s.r == s.w) ≡ true = ground (arith, q) in
      elim (Bool-cases killed) [
        | inl k ↦ rw (t, k, none_ready) (v, refl)
        | inr k ↦ rw (t, k, none_ready) (v, refl)
      ]
  | no ne ↦
      let c = s.buf (s.r % input_buf) in
      let (v', ih) = read_lem killed target n (advanced s v ne) (advanced-IsValid s v ne) in
      let back : sub_word (add_word s.r 1) 1 ≡ s.r = omega (arith, v.read_word) in
      elim (Bool-cases (c == ctrl_d)) [
        | inl d ↦ elim (Bool-cases (ltb (suc n) target)) [
          | inl m ↦
              rw (==_false s.r s.w ne, ready-advanced s v ne, d, m, back)
                (
                  v,
                  ap (λ (cs : List ℕ). returned [] (record { ready = cs; edit = edit s }))
                      (ready-advanced s v ne),
                )
          | inr m ↦
              rw (==_false s.r s.w ne, ready-advanced s v ne, d, m) (advanced-IsValid s v ne, refl)
        ]
        | inr d ↦ elim (Bool-cases (c == newline)) [
          | inl m ↦
              rw (==_false s.r s.w ne, ready-advanced s v ne, d, m) (advanced-IsValid s v ne, refl)
          | inr m ↦
              rw (==_false s.r s.w ne, ready-advanced s v ne, d, m)
                (
                  subst IsValid
                      (sym (input_of-after c (read_from killed target n (advanced s v ne)))) v',
                  with_input-after abstract c (read_from killed target n (advanced s v ne))
                      ∙ ap (after c) ih
                      ∙ sym (
                          with_input-after (λ (cs : List ℕ). record { ready = cs; edit = edit s }) c
                            (take_line killed target n (ready (advanced s v ne)))),
                )
        ]
      ]
]

-- An interrupt with typed characters, and a stretch of `consoleread` of `target` bytes with so many to
-- go.
pub data Event : Type 0 where
  typing : List ℕ → Event
  reading : (killed : Bool) (target n : ℕ) → Event

-- The states, and what the reads return.
unfoldable pub run : Input → List Event → Input × List (Read (List ℕ))
run s [] = (s, [])
run s (typing cs ∷ es) = run (consoleintr cs s).0 es
run s (reading killed target n ∷ es) =
    let o = read_from killed target n s in
    let (s', os) = run (input_of o) es in (s', with_input ready o ∷ os)

unfoldable pub run_lines : Line → List Event → Line × List (Read (List ℕ))
run_lines l [] = (l, [])
run_lines l (typing cs ∷ es) = run_lines (type_keys cs l) es
run_lines l (reading killed target n ∷ es) =
    let o = take_line killed target n l.ready in
    let (l', os) = run_lines (record l { ready = input_of o }) es in (l', o ∷ os)

abbrev pub IsTyped : Event → Type 0
IsTyped (typing cs) = All (λ c. c < 256) cs
IsTyped (reading killed target n) = Unit

pub ready_of :
    (o : Read (List ℕ)) (xs : List ℕ)
    → with_input Line.ready (with_input (λ cs. record { ready = cs; edit = xs }) o) ≡ o
ready_of (returned bs cs) xs = refl
ready_of (interrupted bs cs) xs = refl
ready_of (sleeping bs n cs) xs = refl

input-with_input :
    {S T : Type 0} (f : S → T) (o : Read S) → input_of (with_input f o) ≡ f (input_of o)
input-with_input f (returned bs cs) = refl
input-with_input f (interrupted bs cs) = refl
input-with_input f (sleeping bs n cs) = refl

pub with_ready :
    (o : Read Input) → with_input ready o ≡ with_input Line.ready (with_input abstract o)
unfolding abstract
with_ready (returned bs cs) = refl
with_ready (interrupted bs cs) = refl
with_ready (sleeping bs n cs) = refl

-- In any order of typing and reading, the ring gives every reader what two plain lists would: what was
-- typed is edited there, becomes readable by the line, is read in order and once, and no state leaves
-- the ring's bounds.
pub run_lem :
    (s : Input) (es : List Event)
    → IsValid s
    → All IsTyped es
    → IsValid (run s es).0
      × (abstract (run s es).0 ≡ (run_lines (abstract s) es).0)
      × ((run s es).1 ≡ (run_lines (abstract s) es).1)
unfolding run run_lines abstract
run_lem s [] v h = (v, refl, refl)
run_lem s (typing cs ∷ es) v h =
    let (v1, e) = keys_lem s cs v h.0 in
    let (v2, e2, e3) = run_lem (consoleintr cs s).0 es v1 h.1 in
    (v2, e2 ∙ ap (λ (l : Line). (run_lines l es).0) e, e3 ∙ ap (λ (l : Line). (run_lines l es).1) e)
run_lem s (reading killed target n ∷ es) v h =
    let o = read_from killed target n s in
    let p = take_line killed target n (ready s) in
    let (v1, e) = read_lem killed target n s v in
    let q : abstract (input_of o) ≡ record (abstract s) { ready = input_of p } =
      sym (input-with_input abstract o)
      ∙ ap input_of e
      ∙ input-with_input (λ (cs : List ℕ). record { ready = cs; edit = edit s }) p in
    let z : with_input ready o ≡ p =
      with_ready o ∙ ap (with_input Line.ready) e ∙ ready_of p (edit s) in
    let (v2, e2, e3) = run_lem (input_of o) es v1 h.1 in
    (
      v2,
      e2 ∙ ap (λ (l : Line). (run_lines l es).0) q,
      ap₂ (λ (x : Read (List ℕ)) (xs : List (Read (List ℕ))). x ∷ xs) z
          (e3 ∙ ap (λ (l : Line). (run_lines l es).1) q),
    )
