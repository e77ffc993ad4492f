-- ===== src/Console/Typing.antt =====
-- Typing, on two lists: the characters that can be read, and the line being edited.
use rain_os.Common.{
  ℕ, ◌+◌, ◌<◌, ◌≡◌, ◌≢◌, ◌⊎◌, inl, inr, refl, ◌∙◌, ap, true, false, ◌||◌, Bool-cases, ◌==◌,
  ==_false, ltb, leb, if◌then◌else◌, List, [], ◌∷◌, arith, length, All, add_word, sub_word,
}
use native.Mathlib.Decide.{ℕ_discrete}
use rain_os.Console.{Input, input_buf, newline, ctrl_d, store, insert, key, consoleintr}
use rain_os.Console.Ring.{ready, edit, edit_count, IsValid}
use rain_os.Console.Edits.{
  Line, abstract, insert_line, type_key, kill_line_lem, Refines, killed_line, erased_line,
  nothing_erased, stored_line, committed_line, lengths,
}

insert_lem :
    (s : Input) (c : ℕ)
    → IsValid s
    → c < 256
    → sub_word s.e s.r < input_buf
    → Refines s (insert c s).0 (insert_line c (abstract s))
unfolding insert insert_line abstract
insert_lem s c v lt room =
    let l = lengths s v in
    let same : ((store c s).e == add_word (store c s).r input_buf)
        ≡ (length (ready s) + length (edit s) + 1 == input_buf) =
      full l in
    elim (Bool-cases (c == newline)) [
      | inl t ↦ rw t (committed_line s c v lt room)
      | inr t ↦
          elim (Bool-cases (c == ctrl_d || length (ready s) + length (edit s) + 1 == input_buf)) [
            | inl u ↦ rw (t, same, u) (committed_line s c v lt room)
            | inr u ↦ rw (t, same, u) (stored_line s c v lt (λ q. ground (arith, t, q)) room)
          ]
    ]
  where
    full :
        length (ready s) + length (edit s) ≡ sub_word s.e s.r
        → ((store c s).e == add_word (store c s).r input_buf)
          ≡ (length (ready s) + length (edit s) + 1 == input_buf)
    full l = ground (arith, l)

plain_key :
    (s : Input) (c : ℕ)
    → IsValid s
    → c < 256
    → c ≢ 16
    → c ≢ 21
    → c ≢ 8
    → c ≢ 127
    → Refines s (key c s).0 (type_key c (abstract s))
unfolding key type_key abstract
plain_key s c v lt a1 a2 a3 a4 =
    let l = lengths s v in
    elim (Bool-cases (c == 0)) [
      | inl z ↦
          rw (==_false c 16 a1, ==_false c 21 a2, ==_false c 8 a3, ==_false c 127 a4, z) (v, refl)
      | inr z ↦ elim (Bool-cases (ltb (sub_word s.e s.r) input_buf)) [
        | inl t ↦
            let u : leb input_buf (length (ready s) + length (edit s)) ≡ false =
              ground (arith, l, t) in
            rw (==_false c 16 a1, ==_false c 21 a2, ==_false c 8 a3, ==_false c 127 a4, z, t, u)
              (insert_lem s (if c == 13 then newline else c) v (ground arith) (ground (arith, t)))
        | inr t ↦
            let u : leb input_buf (length (ready s) + length (edit s)) ≡ true =
              ground (arith, l, t) in
            rw (==_false c 16 a1, ==_false c 21 a2, ==_false c 8 a3, ==_false c 127 a4, z, t, u)
              (v, refl)
      ]
    ]

killing_key : (s : Input) → IsValid s → Refines s (key 21 s).0 (type_key 21 (abstract s))
unfolding key type_key
killing_key s v = rw (kill_line_lem (edit_count s) s v refl) (killed_line s v)

erasing_key :
    (s : Input) (c : ℕ)
    → IsValid s
    → (c ≡ 8) ⊎ (c ≡ 127)
    → Refines s (key c s).0 (type_key c (abstract s))
unfolding key type_key abstract
erasing_key s c v h =
    let a : (c == 16) ≡ false = ground arith in
    let b : (c == 21) ≡ false = ground arith in
    let d : (c == 8 || c == 127) ≡ true = ground arith in
    elim (ℕ_discrete s.e s.w) [
      | yes q ↦
          let t : (s.e == s.w) ≡ true = ground (arith, q) in rw (a, b, d, t) (nothing_erased s v q)
      | no ne ↦ rw (a, b, d, ==_false s.e s.w ne) (erased_line s v ne)
    ]

key_lem :
    (s : Input) (c : ℕ) → IsValid s → c < 256 → Refines s (key c s).0 (type_key c (abstract s))
unfolding key type_key
key_lem s c v lt = elim (ℕ_discrete c 16) [
  | yes q ↦ rw q (v, refl)
  | no a1 ↦ elim (ℕ_discrete c 21) [
    | yes q ↦ rw q (killing_key s v)
    | no a2 ↦ elim (ℕ_discrete c 8) [
      | yes q ↦ erasing_key s c v (inl q)
      | no a3 ↦ elim (ℕ_discrete c 127) [
        | yes q ↦ erasing_key s c v (inr q)
        | no a4 ↦ plain_key s c v lt a1 a2 a3 a4
      ]
    ]
  ]
]

-- The keys of a call of `consoleintr`, one after the other.
unfoldable pub type_keys : List ℕ → Line → Line
unfolding type_key
type_keys [] l = l
type_keys (c ∷ cs) l = type_keys cs (type_key c l)

pub keys_lem :
    (s : Input) (cs : List ℕ)
    → IsValid s
    → All (λ c. c < 256) cs
    → Refines s (consoleintr cs s).0 (type_keys cs (abstract s))
unfolding consoleintr type_keys
keys_lem s [] v h = (v, refl)
keys_lem s (c ∷ cs) v h =
    let (v1, e) = key_lem s c v h.0 in
    let (v2, e2) = keys_lem (key c s).0 cs v1 h.1 in (v2, e2 ∙ ap (type_keys cs) e)
